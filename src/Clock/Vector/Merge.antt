-- ===== src/Clock/Vector/Merge.antt =====
-- crates/clock/src/vector.rs: `tick` and `merge`, at each process.
use muaddib.Prelude.{
  ℕ, suc, ◌+◌, ◌≤◌, ◌<◌, ◌≡◌, refl, ◌↔◌, ◌≢◌, [], ◌∷◌, some, arith, max, next_u64, u64_mod, ◌==◌,
  if◌then◌else◌,
}
use muaddib.Map.{Map}
use muaddib.Map
use muaddib.Map.Laws.{get-insert}
use muaddib.Map.Size.{RisesFrom, insert-RisesFrom, get_below}
use muaddib.Clock.Vector.{VectorClock, new, get, tick, merge, merge_entries, or_zero}

pub get-new : (p : ℕ) → get new p ≡ 0
unfolding get Map.get
get-new p = refl

pub get-tick :
    (v : VectorClock) (p q : ℕ)
    → get (tick v p) q ≡ (if q == p then next_u64 (get v p) else get v q)
unfolding tick
get-tick v p q = ground (arith, get-insert q p (next_u64 (get v p)) v.entries)

merge_entries_lem :
    (n p : ℕ) (m l : Map ℕ)
    → RisesFrom n l
    → or_zero (Map.get p (merge_entries m l)) ≡ max (or_zero (Map.get p m)) (or_zero (Map.get p l))
unfolding merge_entries Map.get
merge_entries_lem n p m [] r = omega arith
merge_entries_lem n p m ((q, c) ∷ rest) r =
    let count = max (or_zero (Map.get q m)) c in
    ground (
      arith,
      merge_entries_lem (suc q) p (Map.insert q count m) rest r.1,
      get-insert p q count m,
      get_below (suc q) p rest r.1,
    )

-- The representation: keys in rising order, and no explicit zero.
pub record IsValid (v : VectorClock) : Type 0 where
  pub rises : RisesFrom 0 v.entries
  pub no_zero : (p : ℕ) → Map.get p v.entries ≢ some 0

pub get-merge :
    (v w : VectorClock) (p : ℕ) → IsValid w → get (merge v w) p ≡ max (get v p) (get w p)
unfolding merge get
get-merge v w p h = merge_entries_lem 0 p v.entries w.entries h.rises

-- `merge` is the least upper bound: a clock is above the merge of two exactly when it is above both.
pub merge_least :
    (v w u : VectorClock)
    → IsValid w
    → ((p : ℕ) → get (merge v w) p ≤ get u p)
      ↔ (((p : ℕ) → get v p ≤ get u p) × ((p : ℕ) → get w p ≤ get u p))
merge_least v w u h = (
  λ le. (λ p. omega (arith, le p, get-merge v w p h), λ p. omega (arith, le p, get-merge v w p h)),
  λ le p. omega (arith, le.0 p, le.1 p, get-merge v w p h),
)

pub new-IsValid : IsValid new
unfolding Map.get
new-IsValid = record { rises = tt; no_zero = λ p e. cc }

pub tick-IsValid :
    (v : VectorClock) (p : ℕ) → get v p + 1 < u64_mod → IsValid v → IsValid (tick v p)
unfolding tick get
tick-IsValid v p h i = record {
  rises = insert-RisesFrom 0 p (next_u64 (get v p)) v.entries (omega arith) i.rises;
  no_zero = λ q e. ground (arith, get-insert q p (next_u64 (get v p)) v.entries, i.no_zero q);
}

merge_entries-RisesFrom : (m l : Map ℕ) → RisesFrom 0 m → RisesFrom 0 (merge_entries m l)
unfolding merge_entries
merge_entries-RisesFrom m [] r = r
merge_entries-RisesFrom m ((q, c) ∷ rest) r =
    merge_entries-RisesFrom (Map.insert q (max (or_zero (Map.get q m)) c) m) rest
      (insert-RisesFrom 0 q (max (or_zero (Map.get q m)) c) m (omega arith) r)

merge_entries_no_zero :
    (n : ℕ) (m l : Map ℕ)
    → RisesFrom n l
    → ((p : ℕ) → Map.get p m ≢ some 0)
    → ((p : ℕ) → Map.get p l ≢ some 0)
    → (p : ℕ) → Map.get p (merge_entries m l) ≢ some 0
unfolding merge_entries Map.get
merge_entries_no_zero n m [] r hm hl p e = hm p e
merge_entries_no_zero n m ((q, c) ∷ rest) r hm hl p e =
    let count = max (or_zero (Map.get q m)) c in
    merge_entries_no_zero (suc q) (Map.insert q count m) rest r.1
      (λ k e'. ground (arith, get-insert k q count m, hm k, hl q))
      (λ k e'. ground (arith, hl k, get_below (suc q) k rest r.1)) p e

pub merge-IsValid : (v w : VectorClock) → IsValid v → IsValid w → IsValid (merge v w)
unfolding merge
merge-IsValid v w i j = record {
  rises = merge_entries-RisesFrom v.entries w.entries i.rises;
  no_zero = merge_entries_no_zero 0 v.entries w.entries j.rises i.no_zero j.no_zero;
}
