-- ===== src/Workload/Baseline/Order.antt =====
-- crates/workload/src/baseline.rs: the order of the batches in a ring: those that the sink has
-- finished, then those in the channels, from the last channel to the first.
use muaddib.Prelude.{
  ℕ, zero, suc, ◌≤◌, ◌≡◌, refl, some, List, [], ◌∷◌, ◌++◌, map, length, length-append, get_elem?,
  arith, ◌∙◌, sym, ap, eq_of_some,
}
use mathlib.Core.List.{append_assoc, append-nil, map-append}
use muaddib.Workload.Baseline.{Message, set}

-- The batches of the first `n` numbers.
abbrev pub upto : ℕ → List ℕ
upto zero = []
upto (suc n) = upto n ++ n ∷ []

length-upto : (n : ℕ) → length (upto n) ≡ n
length-upto zero = refl
length-upto (suc n) = omega (arith, length-append (upto n) (n ∷ []), length-upto n)

abbrev pub batches_of : List Message → List ℕ
batches_of = map (λ m. m.batch)

abbrev pub flow : List (List Message) → List ℕ
flow [] = []
flow (q ∷ qs) = flow qs ++ batches_of q

-- A message that moves to the end of the next channel keeps its place in the order.
pub flow-hop :
    (i : ℕ) (m m' : Message) (rest next : List Message) (chan : List (List Message))
    → get_elem? chan i ≡ some (m ∷ rest)
    → get_elem? chan (suc i) ≡ some next
    → m'.batch ≡ m.batch
    → flow (set (suc i) (next ++ m' ∷ []) (set i rest chan)) ≡ flow chan
unfolding set
flow-hop i m m' rest next [] at at' same = cc
flow-hop zero m m' rest next (q ∷ []) at at' same = cc
flow-hop zero m m' rest next (q ∷ q' ∷ qs) at at' same =
    let eq : q ≡ m ∷ rest = eq_of_some at in
    let eq' : q' ≡ next = eq_of_some at' in
    rw (eq, eq', ← same)
      (ap (λ l. (flow qs ++ l) ++ batches_of rest) (map-append (λ n. n.batch) next (m' ∷ []))
        ∙ ap (λ l. l ++ batches_of rest)
            (sym (append_assoc (flow qs) (batches_of next) (m'.batch ∷ [])))
        ∙ append_assoc (flow qs ++ batches_of next) (m'.batch ∷ []) (batches_of rest))
flow-hop (suc i) m m' rest next (q ∷ qs) at at' same =
    ap (λ l. l ++ batches_of q) (flow-hop i m m' rest next qs at at' same)

-- The oldest message of the last channel comes first.
pub flow-last :
    (i : ℕ) (m : Message) (rest : List Message) (chan : List (List Message))
    → get_elem? chan i ≡ some (m ∷ rest)
    → length chan ≡ suc i
    → flow chan ≡ m.batch ∷ flow (set i rest chan)
unfolding set
flow-last i m rest [] at last = cc
flow-last zero m rest (q ∷ []) at last = let eq : q ≡ m ∷ rest = eq_of_some at in rw eq refl
flow-last zero m rest (q ∷ q' ∷ qs) at last = absurd (omega arith)
flow-last (suc i) m rest (q ∷ qs) at last =
    ap (λ l. l ++ batches_of q) (flow-last i m rest qs at (omega arith))

-- A message that enters the first channel comes last.
pub flow-enter :
    (m : Message) (first : List Message) (chan : List (List Message))
    → get_elem? chan 0 ≡ some first
    → flow (set 0 (first ++ m ∷ []) chan) ≡ flow chan ++ m.batch ∷ []
unfolding set
flow-enter m first [] at = cc
flow-enter m first (q ∷ qs) at =
    let eq : q ≡ first = eq_of_some at in
    rw eq (
      ap (λ l. flow qs ++ l) (map-append (λ n. n.batch) first (m ∷ []))
      ∙ sym (append_assoc (flow qs) (batches_of first) (m.batch ∷ [])))

pub no_rest : (xs ys : List ℕ) (n b : ℕ) → xs ++ ys ≡ upto n → n ≤ b → b ≤ length xs → xs ≡ upto b
no_rest xs [] n b h l l' =
    let size : length (xs ++ []) ≡ length (upto n) = ap length h in
    let same : n ≡ b = omega (arith, length-append xs [], length-upto n) in
    sym (append-nil xs) ∙ h ∙ ap upto same
no_rest xs (y ∷ ys) n b h l l' =
    let size : length (xs ++ y ∷ ys) ≡ length (upto n) = ap length h in
    absurd (omega (arith, length-append xs (y ∷ ys), length-upto n))

pub length-map {ℓ} : {A : Type ℓ} (f : A → ℕ) (xs : List A) → length (map f xs) ≡ length xs
length-map f [] = refl
length-map f (x ∷ xs) = omega (arith, length-map f xs)
