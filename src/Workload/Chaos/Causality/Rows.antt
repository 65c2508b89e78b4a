-- ===== src/Workload/Chaos/Causality/Rows.antt =====
-- crates/workload/src/chaos.rs: the rows of the table of `check_causality`.
use muaddib.Prelude.{
  ℕ, zero, suc, ◌+◌, ◌-◌, ◌≤◌, ◌<◌, ◌≡◌, refl, ◌↔◌, ◌⊎◌, inl, inr, Bool, true, false, ◌||◌, Option,
  none, some, List, [], ◌∷◌, ◌++◌, ok, get_elem?, length, replicate, ltb, ◌==◌, arith, eq_of_some,
  sym, ◌∙◌, ap, subst, length-append, length-replicate,
}
use mathlib.Core.List.{append-nil}
use muaddib.Clock.History.{Reaches, cause, chain, Among}
use muaddib.Clock.History.Records.{get_elem?-append_cases}
use muaddib.Workload.Baseline.Progress.{get_elem?-some}
use muaddib.Workload.Chaos.Causality.{mark, join, fill_row, fill_rows}

abbrev pub or_false : Option Bool → Bool
or_false none = false
or_false (some b) = b

abbrev pub entry : List Bool → ℕ → Bool
entry row i = or_false (get_elem? row i)

mark_lem :
    (p : ℕ) (row : List Bool)
    → p < length row
    → (row' : List Bool) × (mark p row ≡ some row')
      × (length row' ≡ length row)
      × ((i : ℕ) → entry row' i ≡ (i == p || entry row i))
mark_lem p [] h = absurd (omega arith)
mark_lem zero (b ∷ row) h = (true ∷ row, refl, refl, first)
  where
    first : (i : ℕ) → entry (true ∷ row) i ≡ (i == 0 || entry (b ∷ row) i)
    first zero = refl
    first (suc i) = ground arith
mark_lem (suc p) (b ∷ row) h =
    let (row', marked, len, at) = mark_lem p row (omega arith) in
    (b ∷ row', rw marked refl, omega (arith, len), later row' at)
  where
    later :
        (row' : List Bool)
        → ((i : ℕ) → entry row' i ≡ (i == p || entry row i))
        → (i : ℕ) → entry (b ∷ row') i ≡ (i == suc p || entry (b ∷ row) i)
    later row' at zero = ground arith
    later row' at (suc i) = ground (arith, at i)

join_lem :
    (dst src : List Bool)
    → length src ≡ length dst
    → (length (join dst src) ≡ length dst)
      × ((i : ℕ) → entry (join dst src) i ≡ (entry dst i || entry src i))
join_lem [] [] h = (refl, λ i. refl)
join_lem [] (s ∷ src) h = absurd (omega arith)
join_lem (d ∷ dst) [] h = absurd (omega arith)
join_lem (d ∷ dst) (s ∷ src) h =
    let (len, at) = join_lem dst src (omega arith) in (omega (arith, len), each at)
  where
    each :
        ((i : ℕ) → entry (join dst src) i ≡ (entry dst i || entry src i))
        → (i : ℕ) → entry (join (d ∷ dst) (s ∷ src)) i ≡ (entry (d ∷ dst) i || entry (s ∷ src) i)
    each at zero = refl
    each at (suc i) = at i

-- The rows say that `i` is set for `p`.
abbrev pub IsMarked : List (List Bool) → ℕ → ℕ → Type 0
IsMarked rows p i = (row : List Bool) × (get_elem? rows p ≡ some row) × (entry row i ≡ true)

abbrev pub Sees : List (List Bool) → List ℕ → ℕ → Type 0
Sees rows ps i = (p : ℕ) × Among p ps × ((i ≡ p) ⊎ IsMarked rows p i)

or_cases : (a b : Bool) → (a || b) ≡ true → (a ≡ true) ⊎ (b ≡ true)
or_cases true b h = inl refl
or_cases false b h = inr h

Sees-more :
    (earlier : List (List Bool)) (row joined row' src : List Bool) (p : ℕ) (ps : List ℕ) (i : ℕ)
    → get_elem? earlier p ≡ some src
    → entry joined i ≡ ((i == p || entry row i) || entry src i)
    → (entry row' i ≡ true) ↔ ((entry joined i ≡ true) ⊎ Sees earlier ps i)
    → (entry row' i ≡ true) ↔ ((entry row i ≡ true) ⊎ Sees earlier (p ∷ ps) i)
Sees-more earlier row joined row' src p ps i found eqn later = (to, from)
  where
    at_joined : entry joined i ≡ true → (entry row i ≡ true) ⊎ Sees earlier (p ∷ ps) i
    at_joined h = elim (or_cases (i == p || entry row i) (entry src i) (sym eqn ∙ h)) [
      | inl e ↦ elim (or_cases (i == p) (entry row i) e) [
        | inl here ↦ inr (p, inl refl, inl (ground arith))
        | inr set ↦ inl set
      ]
      | inr set ↦ inr (p, inl refl, inr (src, found, set))
    ]

    to : entry row' i ≡ true → (entry row i ≡ true) ⊎ Sees earlier (p ∷ ps) i
    to h = elim (later.0 h) [ inl e ↦ at_joined e | inr (q, m, s) ↦ inr (q, inr m, s) ]

    at_head : (q : ℕ) → q ≡ p → (i ≡ q) ⊎ IsMarked earlier q i → entry joined i ≡ true
    at_head q same (inl e) = ground arith
    at_head q same (inr (r, at, set)) =
        let e : r ≡ src = eq_of_some (sym at ∙ ap (get_elem? earlier) same ∙ found) in
        ground (arith, ap (λ x. entry x i) e)

    from : (entry row i ≡ true) ⊎ Sees earlier (p ∷ ps) i → entry row' i ≡ true
    from (inl e) = later.1 (inl (ground arith))
    from (inr (q, inl same, s)) = later.1 (inl (at_head q same s))
    from (inr (q, inr m, s)) = later.1 (inr (q, m, s))

fill_row_lem :
    (n : ℕ) (earlier : List (List Bool)) (row : List Bool) (ps : List ℕ)
    → ((p : ℕ) (r : List Bool) → get_elem? earlier p ≡ some r → length r ≡ n)
    → length row ≡ n
    → length earlier ≤ n
    → ((p : ℕ) → Among p ps → p < length earlier)
    → (row' : List Bool) × (fill_row earlier row ps ≡ ok row')
      × (length row' ≡ n)
      × ((i : ℕ) → (entry row' i ≡ true) ↔ ((entry row i ≡ true) ⊎ Sees earlier ps i))
unfolding fill_row
fill_row_lem n earlier row [] lens len small known =
    (row, refl, len, λ i. (inl, λ h. elim h [ inl e ↦ e | inr (p, m, _) ↦ absurd m ]))
fill_row_lem n earlier row (p ∷ ps) lens len small known =
    let (row₁, marked, len₁, at₁) = mark_lem p row (omega (arith, known p (inl refl))) in
    let (src, found) = get_elem?-some earlier p (known p (inl refl)) in
    let (len₂, at₂) = join_lem row₁ src (omega (arith, lens p src found)) in
    let (row', filled, len', at') =
      fill_row_lem n earlier (join row₁ src) ps lens (omega arith) small (λ q m. known q (inr m)) in
    (
      row',
      rw (marked, found) filled,
      len',
      λ i.
          Sees-more earlier row (join row₁ src) row' src p ps i found
            (at₂ i ∙ ap (λ b. b || entry src i) (at₁ i)) (at' i),
    )

entry-replicate : (n i : ℕ) → entry (replicate n false) i ≡ false
entry-replicate zero i = refl
entry-replicate (suc n) zero = refl
entry-replicate (suc n) (suc i) = entry-replicate n i

-- The filled rows hold the causal order.
abbrev pub Holds : List (List ℕ) → ℕ → List (List Bool) → Type 0
Holds preds n rows =
    (j : ℕ) (row : List Bool)
    → get_elem? rows j ≡ some row
    → (length row ≡ n) × ((i : ℕ) → (entry row i ≡ true) ↔ Reaches preds i j)

new_row :
    (preds : List (List ℕ)) (n : ℕ) (earlier : List (List Bool)) (row : List Bool) (ps : List ℕ)
    (i : ℕ)
    → Holds preds n earlier
    → get_elem? preds (length earlier) ≡ some ps
    → ((p : ℕ) → Among p ps → p < length earlier)
    → (entry row i ≡ true) ↔ ((entry (replicate n false) i ≡ true) ⊎ Sees earlier ps i)
    → (entry row i ≡ true) ↔ Reaches preds i (length earlier)
new_row preds n earlier row ps i holds at known sees = (
  λ e. elim (sees.0 e) [
    | inl blank ↦ absurd (let f : true ≡ false = sym blank ∙ entry-replicate n i in cc)
    | inr (p, m, inl here) ↦ cause ps at (rw here m)
    | inr (p, m, inr (r, at_p, set)) ↦ chain ps (((holds p r at_p).1 i).0 set) at m
  ],
  λ r. sees.1 (inr (seen r refl)),
)
  where
    seen : {j : ℕ} → Reaches preds i j → j ≡ length earlier → Sees earlier ps i
    seen (cause qs at_q m) same = (
      i,
      subst (λ l. Among i l) (eq_of_some (sym at_q ∙ ap (get_elem? preds) same ∙ at)) m,
      inl refl,
    )
    seen (chain {k = k} qs r at_q m) same =
        let m' : Among k ps =
          subst (λ l. Among k l) (eq_of_some (sym at_q ∙ ap (get_elem? preds) same ∙ at)) m in
        let (src, found) = get_elem?-some earlier k (known k m') in
        (k, m', inr (src, found, ((holds k src found).1 i).1 r))

pub fill_rows_lem :
    (preds : List (List ℕ)) (n : ℕ) (earlier : List (List Bool)) (left : List (List ℕ))
    → Holds preds n earlier
    → ((j k : ℕ) (ps : List ℕ) → get_elem? preds j ≡ some ps → Among k ps → k < j)
    → ((k : ℕ) (ps : List ℕ)
        → get_elem? left k ≡ some ps
        → get_elem? preds (length earlier + k) ≡ some ps)
    → length earlier + length left ≡ n
    → (reach : List (List Bool)) × (fill_rows n earlier left ≡ ok reach)
      × Holds preds n reach
      × (length reach ≡ n)
unfolding fill_rows
fill_rows_lem preds n earlier [] holds lt at len =
    let none_left : n - length earlier ≡ 0 = omega arith in
    (earlier, rw none_left (ap ok (append-nil earlier)), holds, omega arith)
fill_rows_lem preds n earlier (ps ∷ left) holds lt at len =
    let here : get_elem? preds (length earlier) ≡ some ps =
      rw (let e : length earlier ≡ length earlier + 0 = omega arith in e) (at 0 ps refl) in
    let known = λ (p : ℕ) (m : Among p ps). lt (length earlier) p ps here m in
    let (row, filled, len', sees) =
      fill_row_lem n earlier (replicate n false) ps (λ p r found. (holds p r found).0)
        (length-replicate n false) (omega arith) known in
    let small : ltb (length earlier) n ≡ true = ground arith in
    let (reach, done, holds', len'') =
      fill_rows_lem preds n (earlier ++ row ∷ []) left
        (λ j r found. elim (get_elem?-append_cases earlier row r j found) [
          | inl old ↦ holds j r old
          | inr (e, same) ↦
              rw (e, ← same) (len', λ i. new_row preds n earlier row ps i holds here known (sees i))
        ])
        lt
        (λ k qs e.
          let idx : length (earlier ++ row ∷ []) + k ≡ length earlier + suc k =
            omega (arith, length-append earlier (row ∷ [])) in
          rw idx (at (suc k) qs e))
        (omega (arith, length-append earlier (row ∷ []))) in
    (reach, rw (small, filled) done, holds', len'')
