-- ===== src/Workload/Chaos/Tracking/Mirrors.antt =====
-- crates/workload/src/chaos.rs: the mirror of a process's table, and the stash.
use muaddib.Prelude.{
  ℕ, zero, suc, ◌%◌, ◌<◌, ◌≤◌, ◌≡◌, refl, sym, ap, subst, ltb, inl, inr, Bool, true, some, List, [],
  ◌∷◌, All, get_elem?, length, filter, arith, ◌==◌, Bool-cases, Option-cases, eq_of_some,
  length-le_of_none,
}
use native.Mathlib.Nat.{mod-lt}
use muaddib.Map.{Map}
use muaddib.Map
use muaddib.Map.Size.{RisesFrom}
use muaddib.Capability.{Capability}
use muaddib.Workload.Chaos.{CapModel, RegionModel}
use muaddib.Workload.Chaos.Tracking.{Models}

-- The same handles with capabilities and their models.
pub data Mirrors (regions : List RegionModel) (channel_objects : List ℕ)
    : Map CapModel → Map Capability → Type 0 where
  nil : Mirrors regions channel_objects [] []
  cons :
      (h : ℕ) (m : CapModel) (c : Capability) (table : Map CapModel) (real : Map Capability)
      → Models regions channel_objects m c
      → Mirrors regions channel_objects table real
      → Mirrors regions channel_objects ((h, m) ∷ table) ((h, c) ∷ real)

module _ {regions : List RegionModel} {channel_objects : List ℕ} where
  pub Mirrors-get :
      {table : Map CapModel} {real : Map Capability}
      → Mirrors regions channel_objects table real
      → (h : ℕ) (m : CapModel) → Map.get h table ≡ some m
      → (c : Capability) × (Map.get h real ≡ some c) × Models regions channel_objects m c
  unfolding Map.get
  Mirrors-get nil h m e = cc
  Mirrors-get (cons j n c table real models rest) h m e = elim (Bool-cases (h == j)) [
    | inl here ↦ let same : n ≡ m = ground arith in (c, rw here, rw (sym same) models)
    | inr other ↦
        let (c', found, models') = Mirrors-get rest h m (rw other at e) in
        (c', rw other found, models')
  ]

  pub Mirrors-insert :
      (h : ℕ) (m : CapModel) (c : Capability)
      → Models regions channel_objects m c
      → {table : Map CapModel} {real : Map Capability} → Mirrors regions channel_objects table real
      → Mirrors regions channel_objects (Map.insert h m table) (Map.insert h c real)
  unfolding Map.insert
  Mirrors-insert h m c models nil = cons h m c [] [] models nil
  Mirrors-insert h m c models (cons j n d table real old rest) = elim (Bool-cases (h == j)) [
    | inl here ↦ rw here (cons h m c table real models rest)
    | inr other ↦ elim (Bool-cases (ltb h j)) [
      | inl below ↦ rw (other, below) (cons h m c _ _ models (cons j n d table real old rest))
      | inr above ↦ rw (other, above) (cons j n d _ _ old (Mirrors-insert h m c models rest))
    ]
  ]

  pub Mirrors-remove :
      (h : ℕ) {table : Map CapModel} {real : Map Capability}
      → Mirrors regions channel_objects table real
      → Mirrors regions channel_objects (Map.remove h table) (Map.remove h real)
  unfolding Map.remove
  Mirrors-remove h nil = nil
  Mirrors-remove h (cons j n d table real old rest) = elim (Bool-cases (h == j)) [
    | inl here ↦ rw here (Mirrors-remove h rest)
    | inr other ↦ rw other (cons j n d _ _ old (Mirrors-remove h rest))
  ]

  pub Mirrors-keys :
      {table : Map CapModel} {real : Map Capability}
      → Mirrors regions channel_objects table real
      → Map.keys real ≡ Map.keys table
  Mirrors-keys nil = refl
  Mirrors-keys (cons j n d table real old rest) = ap (λ ks. j ∷ ks) (Mirrors-keys rest)

  pub Mirrors-Keeps :
      {regions' : List RegionModel} {channel_objects' : List ℕ}
      → ((m : CapModel) (c : Capability)
          → Models regions channel_objects m c
          → Models regions' channel_objects' m c)
      → {table : Map CapModel} {real : Map Capability} → Mirrors regions channel_objects table real
      → Mirrors regions' channel_objects' table real
  Mirrors-Keeps keeps nil = nil
  Mirrors-Keeps keeps (cons j n d table real old rest) =
      cons j n d table real (keeps n d old) (Mirrors-Keeps keeps rest)

pub get_of_entry {ℓ} :
    {V : Type ℓ} (n : ℕ) (table : Map V) (i h : ℕ) (v : V)
    → RisesFrom n table
    → get_elem? table i ≡ some (h, v)
    → (n ≤ h) × (Map.get h table ≡ some v)
unfolding Map.get
get_of_entry n [] i h v rises e = cc
get_of_entry n ((j, w) ∷ table) zero h v rises e = ground arith
get_of_entry n ((j, w) ∷ table) (suc i) h v rises e =
    let (above, found) = get_of_entry (suc j) table i h v rises.1 e in ground (arith, above, found)

module _ {ℓ} {A : Type ℓ} where
  kept :
      (p : A → Bool) (xs ys : List A) {x a : A}
      → ((i : ℕ) (a : A)
          → get_elem? ys i ≡ some a
          → (j : ℕ) × (get_elem? xs j ≡ some a) × (p a ≡ true))
      → (i : ℕ) → get_elem? (x ∷ ys) i ≡ some a
      → p x ≡ true
      → (j : ℕ) × (get_elem? (x ∷ xs) j ≡ some a) × (p a ≡ true)
  kept p xs ys rec zero e h = (0, e, subst (λ b. p b ≡ true) (eq_of_some e) h)
  kept p xs ys {a = a} rec (suc i) e h = let (j, at, held) = rec i a e in (suc j, at, held)

  pub get_elem?-filter :
      (p : A → Bool) (xs : List A) (i : ℕ) (a : A)
      → get_elem? (filter p xs) i ≡ some a
      → (j : ℕ) × (get_elem? xs j ≡ some a) × (p a ≡ true)
  get_elem?-filter p [] i a e = cc
  get_elem?-filter p (x ∷ xs) i a e = elim (Bool-cases (p x)) [
    | inr drops ↦ let (j, at, held) = get_elem?-filter p xs i a (rw drops at e) in (suc j, at, held)
    | inl keeps ↦ kept p xs (filter p xs) (get_elem?-filter p xs) i (rw keeps at e) keeps
  ]

  pub All-get {κ} :
      (P : A → Type κ) (xs : List A) (i : ℕ) {a : A} → All P xs → get_elem? xs i ≡ some a → P a
  All-get P [] i h e = cc
  All-get P (x ∷ xs) zero h e = subst P (eq_of_some e) h.0
  All-get P (x ∷ xs) (suc i) h e = All-get P xs i h.1 e

  -- `items[n % items.len()]` is in range.
  pub get_elem?_mod :
      (x : A) (xs : List A) (n : ℕ) → (a : A) × (get_elem? (x ∷ xs) (n % suc (length xs)) ≡ some a)
  get_elem?_mod x xs n = elim (Option-cases (get_elem? (x ∷ xs) (n % suc (length xs)))) [
    | inr found ↦ found
    | inl short ↦
        let long = length-le_of_none (x ∷ xs) (n % suc (length xs)) short in
        let small : n % suc (length xs) < suc (length xs) = mod-lt n (omega arith) in
        absurd (omega arith)
  ]
