-- ===== src/Map.antt =====
-- The maps of the program, `HashMap` and `BTreeMap`, with keys that are numbers: an association
-- list kept in the order of its keys. A `HashMap` iterates in an unspecified order; the program
-- sorts or only counts what it takes from one, so the order here is that of a `BTreeMap`.
pub mod Laws
pub mod Size
use muaddib.Prelude.{
  ℕ, ◌+◌, Option, none, some, Bool, List, [], ◌∷◌, map, ◌==◌, ltb, if◌then◌else◌, length, is_some,
}

abbrev pub Map {ℓ} : Type ℓ → Type ℓ
Map V = List (ℕ × V)

module _ {ℓ} {V : Type ℓ} where
  abbrev pub empty : Map V
  empty = []

  unfoldable pub get : ℕ → Map V → Option V
  get k [] = none
  get k ((j, v) ∷ m) = if k == j then some v else get k m

  unfoldable pub insert : ℕ → V → Map V → Map V
  insert k v [] = (k, v) ∷ []
  insert k v ((j, w) ∷ m) =
      let rest = insert k v m in
      if k == j then (k, v) ∷ m else if ltb k j then (k, v) ∷ (j, w) ∷ m else (j, w) ∷ rest

  unfoldable pub remove : ℕ → Map V → Map V
  remove k [] = []
  remove k ((j, v) ∷ m) = let rest = remove k m in if k == j then rest else (j, v) ∷ rest

  unfoldable pub contains_key : ℕ → Map V → Bool
  contains_key k m = is_some (get k m)

  -- `retain`, with a test of the key.
  unfoldable pub retain : (ℕ → Bool) → Map V → Map V
  retain p [] = []
  retain p ((j, v) ∷ m) = let rest = retain p m in if p j then (j, v) ∷ rest else rest

  abbrev pub keys : Map V → List ℕ
  keys = map (λ e. e.0)

  unfoldable pub len : Map V → ℕ
  len m = length m
