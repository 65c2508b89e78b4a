-- ===== src/Map/Laws.antt =====
-- `get` after the operations of a map.
use muaddib.Prelude.{ℕ, ◌≡◌, refl, ◌≢◌, none, some, Bool, [], ◌∷◌, ◌==◌, if◌then◌else◌, arith}
use muaddib.Map.{Map, empty, get, insert, remove, retain}

module _ {ℓ} {V : Type ℓ} where
  pub get-insert :
      (j k : ℕ) (v : V) (m : Map V) → get j (insert k v m) ≡ (if j == k then some v else get j m)
  unfolding get insert
  get-insert j k v [] = refl
  get-insert j k v ((i, w) ∷ m) = ground (arith, get-insert j k v m)

  pub get-remove : (j k : ℕ) (m : Map V) → get j (remove k m) ≡ (if j == k then none else get j m)
  unfolding get remove
  get-remove j k [] = ground arith
  get-remove j k ((i, w) ∷ m) = ground (arith, get-remove j k m)

  pub get-retain :
      (j : ℕ) (p : ℕ → Bool) (m : Map V) → get j (retain p m) ≡ (if p j then get j m else none)
  unfolding get retain
  get-retain j p [] = ground arith
  get-retain j p ((i, w) ∷ m) = ground (arith, get-retain j p m)

  pub get-insert_self : (k : ℕ) (v : V) (m : Map V) → get k (insert k v m) ≡ some v
  get-insert_self k v m = ground (arith, get-insert k k v m)

  pub get-insert_ne : (j k : ℕ) (v : V) (m : Map V) → j ≢ k → get j (insert k v m) ≡ get j m
  get-insert_ne j k v m h = ground (arith, get-insert j k v m)

  pub get-remove_self : (k : ℕ) (m : Map V) → get k (remove k m) ≡ none
  get-remove_self k m = ground (arith, get-remove k k m)

  pub get-remove_ne : (j k : ℕ) (m : Map V) → j ≢ k → get j (remove k m) ≡ get j m
  get-remove_ne j k m h = ground (arith, get-remove j k m)

  pub get-empty : (k : ℕ) → get k (empty {V = V}) ≡ none
  unfolding get
  get-empty k = refl

pub ruleset map_laws = (get-insert, get-remove, get-retain, get-empty)
