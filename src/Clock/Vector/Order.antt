-- ===== src/Clock/Vector/Order.antt =====
-- crates/clock/src/vector.rs: `compare`, and the pointwise order of two clocks.
use muaddib.Prelude.{
  ℕ, ◌≤◌, ◌<◌, ◌≡◌, refl, ◌↔◌, ◌⊎◌, inl, inr, Bool, true, false, ◌||◌, List, [], ◌∷◌, ◌++◌, ltb,
  arith, any, Bool-cases, ◌==◌,
}
use muaddib.Map.{Map}
use muaddib.Map
use muaddib.Clock.Vector.{
  VectorClock, Causality, before, after, equal, concurrent, get, compare_loop, compare, verdict,
  or_zero,
}

any-append : (p : ℕ → Bool) (xs ys : List ℕ) → any p (xs ++ ys) ≡ (any p xs || any p ys)
any-append p [] ys = refl
any-append p (x ∷ xs) ys = ground (arith, any-append p xs ys)

any_witness : (p : ℕ → Bool) (xs : List ℕ) → any p xs ≡ true → (x : ℕ) × (p x ≡ true)
any_witness p [] h = cc
any_witness p (x ∷ xs) h = elim (Bool-cases (p x)) [
  | inl e ↦ (x, e)
  | inr e ↦ any_witness p xs (ground arith)
]

-- A process that a clock has seen is among its keys.
any_key :
    (p : ℕ → Bool) (m : Map ℕ) (k : ℕ)
    → 0 < or_zero (Map.get k m)
    → p k ≡ true
    → any p (Map.keys m) ≡ true
unfolding Map.get
any_key p [] k h e = absurd (omega arith)
any_key p ((j, v) ∷ m) k h e = elim (Bool-cases (k == j)) [
  | inl same ↦ ground arith
  | inr other ↦ ground (arith, any_key p m k (ground arith) e)
]

abbrev ahead : VectorClock → VectorClock → ℕ → Bool
ahead a b p = ltb (get a p) (get b p)

-- A process at which `b` is ahead of `a` is met by the loop, from either clock's keys.
ahead-any :
    (a b c d : VectorClock) (p : ℕ)
    → (d.entries ≡ b.entries) ⊎ (c.entries ≡ b.entries)
    → get a p < get b p
    → any (ahead a b) (Map.keys c.entries ++ Map.keys d.entries) ≡ true
unfolding get
ahead-any a b c d p (inl e) h = ground (
  arith,
  any-append (ahead a b) (Map.keys c.entries) (Map.keys d.entries),
  any_key (ahead a b) b.entries p (ground arith) (ground arith),
)
ahead-any a b c d p (inr e) h = ground (
  arith,
  any-append (ahead a b) (Map.keys c.entries) (Map.keys d.entries),
  any_key (ahead a b) b.entries p (ground arith) (ground arith),
)

compare_loop_lem :
    (a b : VectorClock) (ps : List ℕ) (l g : Bool)
    → compare_loop a b ps l g ≡ (l || any (ahead a b) ps, g || any (ahead b a) ps)
unfolding compare_loop
compare_loop_lem a b [] l g = ground arith
compare_loop_lem a b (p ∷ ps) l g =
    ground (arith, compare_loop_lem a b ps (l || ahead a b p) (g || ahead b a p))

-- How two clocks compare at every process, with witnesses.
pub data Relates (a b : VectorClock) : Causality → Type 0 where
  all_equal : ((p : ℕ) → get a p ≡ get b p) → Relates a b equal
  below : ((p : ℕ) → get a p ≤ get b p) → (q : ℕ) → get a q < get b q → Relates a b before
  above : ((p : ℕ) → get b p ≤ get a p) → (q : ℕ) → get b q < get a q → Relates a b after
  crossed : (p q : ℕ) → get a p < get b p → get b q < get a q → Relates a b concurrent

abbrev all_keys : VectorClock → VectorClock → List ℕ
all_keys a b = Map.keys a.entries ++ Map.keys b.entries

never_ahead :
    (a b c d : VectorClock) (p : ℕ)
    → (d.entries ≡ b.entries) ⊎ (c.entries ≡ b.entries)
    → any (ahead a b) (all_keys c d) ≡ false
    → get b p ≤ get a p
never_ahead a b c d p e h = elim (Bool-cases (ahead a b p)) [
  | inl more ↦ ground (arith, ahead-any a b c d p e)
  | inr not_more ↦ ground arith
]

compare_verdict :
    (a b : VectorClock) (l g : Bool)
    → any (ahead a b) (all_keys a b) ≡ l
    → any (ahead b a) (all_keys a b) ≡ g
    → Relates a b (verdict (l, g))
compare_verdict a b false false hl hg = all_equal λ p.
    let u = never_ahead a b a b p (inl refl) hl in
    let v = never_ahead b a a b p (inr refl) hg in omega arith
compare_verdict a b true false hl hg =
    let (q, more) = any_witness (ahead a b) (all_keys a b) hl in
    below (λ p. never_ahead b a a b p (inr refl) hg) q (ground arith)
compare_verdict a b false true hl hg =
    let (q, more) = any_witness (ahead b a) (all_keys a b) hg in
    above (λ p. never_ahead a b a b p (inl refl) hl) q (ground arith)
compare_verdict a b true true hl hg =
    let (p, more) = any_witness (ahead a b) (all_keys a b) hl in
    let (q, more') = any_witness (ahead b a) (all_keys a b) hg in
    crossed p q (ground arith) (ground arith)

-- `compare` gives a relation that holds at all processes, those in neither map included.
pub compare-Relates : (a b : VectorClock) → Relates a b (compare a b)
unfolding compare
compare-Relates a b =
    rw (compare_loop_lem a b (all_keys a b) false false) (compare_verdict a b _ _ refl refl)

Relates-unique : (a b : VectorClock) {c d : Causality} → Relates a b c → Relates a b d → c ≡ d
Relates-unique a b (all_equal h) (all_equal h') = refl
Relates-unique a b (all_equal h) (below h' q l) = absurd (omega (arith, h q))
Relates-unique a b (all_equal h) (above h' q l) = absurd (omega (arith, h q))
Relates-unique a b (all_equal h) (crossed p q l l') = absurd (omega (arith, h q))
Relates-unique a b (below h q l) (all_equal h') = absurd (omega (arith, h' q))
Relates-unique a b (below h q l) (below h' q' l') = refl
Relates-unique a b (below h q l) (above h' q' l') = absurd (omega (arith, h' q))
Relates-unique a b (below h q l) (crossed p q' l' l'') = absurd (omega (arith, h q'))
Relates-unique a b (above h q l) (all_equal h') = absurd (omega (arith, h' q))
Relates-unique a b (above h q l) (below h' q' l') = absurd (omega (arith, h' q))
Relates-unique a b (above h q l) (above h' q' l') = refl
Relates-unique a b (above h q l) (crossed p q' l' l'') = absurd (omega (arith, h p))
Relates-unique a b (crossed p q l l') (all_equal h') = absurd (omega (arith, h' p))
Relates-unique a b (crossed p q l l') (below h' r m) = absurd (omega (arith, h' q))
Relates-unique a b (crossed p q l l') (above h' r m) = absurd (omega (arith, h' p))
Relates-unique a b (crossed p q l l') (crossed p' q' m m') = refl

-- `compare` answers `c` exactly when the two clocks relate as `c` says, over all processes.
pub compare_iff : (a b : VectorClock) (c : Causality) → (compare a b ≡ c) ↔ Relates a b c
compare_iff a b c = (λ h. subst_to h, λ r. Relates-unique a b (compare-Relates a b) r)
  where
    subst_to : compare a b ≡ c → Relates a b c
    subst_to h = rw h at (compare-Relates a b)
