-- ===== src/Map/Size.antt =====
-- Maps whose keys rise, and the number of their entries.
use muaddib.Prelude.{ℕ, suc, ◌+◌, ◌≤◌, ◌<◌, ◌≡◌, refl, none, some, [], ◌∷◌, arith, Bool}
use muaddib.Map.{Map, get, insert, remove, retain, len}

module _ {ℓ} {V : Type ℓ} where
  -- Every key is at least `n`, and the keys rise.
  abbrev pub RisesFrom : ℕ → Map V → Type 0
  RisesFrom n [] = Unit
  RisesFrom n ((j, v) ∷ m) = (n ≤ j) × RisesFrom (suc j) m

  RisesFrom-mono : {n n' : ℕ} (m : Map V) → n' ≤ n → RisesFrom n m → RisesFrom n' m
  RisesFrom-mono [] h r = tt
  RisesFrom-mono ((j, v) ∷ m) h r = (omega arith, r.1)

  pub insert-RisesFrom :
      (n k : ℕ) (v : V) (m : Map V) → n ≤ k → RisesFrom n m → RisesFrom n (insert k v m)
  unfolding insert
  insert-RisesFrom n k v [] h r = (h, tt)
  insert-RisesFrom n k v ((j, w) ∷ m) h r = ground (arith, insert-RisesFrom (suc j) k v m)

  pub remove-RisesFrom : (n k : ℕ) (m : Map V) → RisesFrom n m → RisesFrom n (remove k m)
  unfolding remove
  remove-RisesFrom n k [] r = tt
  remove-RisesFrom n k ((j, w) ∷ m) r =
      ground
        (arith, remove-RisesFrom (suc j) k m r.1, RisesFrom-mono {n = suc j} {n' = n} (remove k m))

  pub retain-RisesFrom :
      (n : ℕ) (p : ℕ → Bool) (m : Map V) → RisesFrom n m → RisesFrom n (retain p m)
  unfolding retain
  retain-RisesFrom n p [] r = tt
  retain-RisesFrom n p ((j, w) ∷ m) r =
      ground
        (arith, retain-RisesFrom (suc j) p m r.1, RisesFrom-mono {n = suc j} {n' = n} (retain p m))

  pub get_below : (n k : ℕ) (m : Map V) → RisesFrom n m → k < n → get k m ≡ none
  unfolding get
  get_below n k [] r h = refl
  get_below n k ((j, w) ∷ m) r h = ground (arith, get_below (suc j) k m r.1)

  -- A write under a new key adds one entry, one under an old key none.
  pub len-insert :
      (n k : ℕ) (v : V) (m : Map V)
      → RisesFrom n m
      → len (insert k v m) ≡ (elim (get k m) [ none ↦ len m + 1 | some _ ↦ len m ])
  unfolding len insert get
  len-insert n k v [] r = refl
  len-insert n k v ((j, w) ∷ m) r =
      ground (arith, len-insert (suc j) k v m r.1, get_below (suc j) k m r.1)

  remove_absent : (n k : ℕ) (m : Map V) → RisesFrom n m → k < n → remove k m ≡ m
  unfolding remove
  remove_absent n k [] r h = refl
  remove_absent n k ((j, w) ∷ m) r h = ground (arith, remove_absent (suc j) k m r.1)

  pub len-remove :
      (n k : ℕ) (m : Map V)
      → RisesFrom n m
      → len m ≡ (elim (get k m) [ none ↦ len (remove k m) | some _ ↦ len (remove k m) + 1 ])
  unfolding len remove get
  len-remove n k [] r = refl
  len-remove n k ((j, w) ∷ m) r =
      ground (arith, len-remove (suc j) k m r.1, remove_absent (suc j) k m r.1)
