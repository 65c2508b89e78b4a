-- ===== src/Workload/Chaos/Tracking.antt =====
-- crates/workload/src/chaos.rs: the relation between the shadow model and the kernel with its
-- registry, and a region that changes in both.
pub mod Answered
pub mod Access
pub mod Ended
pub mod Mirrors
pub mod Picked
pub mod Swept
pub mod Accepted
pub mod Moved
pub mod Delivered
pub mod Allocated
pub mod Installed
pub mod Recorded
pub mod Started
pub mod Reached
pub mod Exchanged
use muaddib.Prelude.{
  ℕ, zero, suc, ◌≡◌, refl, sym, ap, ◌≢◌, ◌∙◌, inl, inr, Bool, true, false, Option, none, some, List,
  [], ◌∷◌, ok, get_elem?, ◌==◌, if◌then◌else◌, arith, Bool-cases, eq_of_some, Result, length,
}
use muaddib.Map
use muaddib.Capability.{Capability, Kernel}
use muaddib.Memory.{RegionRegistry}
use muaddib.Workload.Chaos.{Obj, region, channel, CapModel, RegionModel}
use muaddib.Workload.Chaos.World.{modify}
use muaddib.Workload.Chaos.Predictions.{Shadows, of_region, of_channel}

-- The epoch and the bytes of every object are those of its model, and no two models share an
-- object.
pub record IsTracked (regions : List RegionModel) (channel_objects : List ℕ) (k : Kernel)
    (r : RegionRegistry) : Type 0 where
  pub region_epoch :
      (i : ℕ) (m : RegionModel)
      → get_elem? regions i ≡ some m
      → Map.get m.object k.epochs ≡ (if m.alive then some m.epoch else none)
  pub region_bytes :
      (i : ℕ) (m : RegionModel)
      → get_elem? regions i ≡ some m
      → Map.get m.object r.regions ≡ (if m.alive then some m.bytes else none)
  pub channel_epoch : (c o : ℕ) → get_elem? channel_objects c ≡ some o → Map.get o k.epochs ≡ some 0
  pub channel_bytes : (c o : ℕ) → get_elem? channel_objects c ≡ some o → Map.get o r.regions ≡ none
  pub regions_apart :
      (i j : ℕ) (m n : RegionModel)
      → get_elem? regions i ≡ some m
      → get_elem? regions j ≡ some n
      → m.object ≡ n.object
      → i ≡ j
  pub channels_apart :
      (c d o : ℕ)
      → get_elem? channel_objects c ≡ some o
      → get_elem? channel_objects d ≡ some o
      → c ≡ d
  pub kinds_apart :
      (i c o : ℕ) (m : RegionModel)
      → get_elem? regions i ≡ some m
      → get_elem? channel_objects c ≡ some o
      → m.object ≢ o

-- A capability of the kernel and its model: the same object, rights and epoch.
pub data Models (regions : List RegionModel) (channel_objects : List ℕ)
    : CapModel → Capability → Type 0 where
  models_region :
      (i : ℕ) (m : RegionModel) (rights epoch : ℕ)
      → get_elem? regions i ≡ some m
      → Models regions channel_objects
          (record { obj = region i; rights = rights; epoch = epoch })
          (record { object = m.object; rights = rights; epoch = epoch })
  models_channel :
      (c object rights : ℕ)
      → get_elem? channel_objects c ≡ some object
      → Models regions channel_objects
          (record { obj = channel c; rights = rights; epoch = 0 })
          (record { object = object; rights = rights; epoch = 0 })

pub Models-Shadows :
    {regions : List RegionModel} {channel_objects : List ℕ} {k : Kernel} {r : RegionRegistry}
    {m : CapModel} {c : Capability}
    → IsTracked regions channel_objects k r
    → Models regions channel_objects m c
    → Shadows regions channel_objects k r m c
Models-Shadows t (models_region i m rights epoch at) =
    of_region i m rights epoch at (t.region_epoch i m at) (t.region_bytes i m at)
Models-Shadows t (models_channel c object rights at) =
    of_channel c object rights at (t.channel_epoch c object at) (t.channel_bytes c object at)

-- The list with another entry at one place.
abbrev pub ReplacedAt {ℓ} : {A : Type ℓ} → ℕ → A → List A → List A → Type ℓ
ReplacedAt i a xs ys = (j : ℕ) → get_elem? ys j ≡ (if j == i then some a else get_elem? xs j)

ReplacedAt-cons {ℓ} :
    {A : Type ℓ} (i : ℕ) (a x : A) (xs ys : List A)
    → ReplacedAt i a xs ys
    → ReplacedAt (suc i) a (x ∷ xs) (x ∷ ys)
ReplacedAt-cons i a x xs ys h zero = ground arith
ReplacedAt-cons i a x xs ys h (suc j) = ground (arith, h j)

ReplacedAt-head {ℓ} : {A : Type ℓ} (a x : A) (xs : List A) → ReplacedAt 0 a (x ∷ xs) (a ∷ xs)
ReplacedAt-head a x xs zero = ground arith
ReplacedAt-head a x xs (suc j) = ground arith

pub modify-ok {ℓ κ} :
    {E : Type ℓ} {A : Type κ} (f : A → A) (i : ℕ) (xs : List A) {a : A}
    → get_elem? xs i ≡ some a
    → (ys : List A) × (modify {E = E} f i xs ≡ ok ys)
      × ReplacedAt i (f a) xs ys
      × (length ys ≡ length xs)
unfolding modify
modify-ok f i [] h = cc
modify-ok f zero (x ∷ xs) {a = a} h =
    let same : x ≡ a = eq_of_some h in rw same (f a ∷ xs, refl, ReplacedAt-head (f a) a xs, refl)
modify-ok {E = E} f (suc i) (x ∷ xs) {a = a} h =
    let (ys, e, at, same) = modify-ok {E = E} f i xs h in
    (x ∷ ys, rw e, ReplacedAt-cons i (f a) x xs ys at, ap suc same)

-- What a model says of a region that it tracks, in the kernel and in the registry.
abbrev pub Says : RegionModel → Kernel → RegionRegistry → Type 0
Says m k r =
    (Map.get m.object k.epochs ≡ (if m.alive then some m.epoch else none))
    × (Map.get m.object r.regions ≡ (if m.alive then some m.bytes else none))

-- Nothing changed but at one object.
abbrev pub SameBut : ℕ → Kernel → RegionRegistry → Kernel → RegionRegistry → Type 0
SameBut object k r k' r' =
    (o : ℕ)
    → o ≢ object
    → (Map.get o k'.epochs ≡ Map.get o k.epochs) × (Map.get o r'.regions ≡ Map.get o r.regions)

module _ (regions regions' : List RegionModel) (i : ℕ) (m m' : RegionModel)
    (at : get_elem? regions i ≡ some m) (same : m'.object ≡ m.object)
    (put : ReplacedAt i m' regions regions') where
  -- An entry of the new list is the new model or an entry of the old list.
  pub replaced :
      (j : ℕ) (n : RegionModel)
      → get_elem? regions' j ≡ some n
      → (n₀ : RegionModel) × (get_elem? regions j ≡ some n₀) × (n₀.object ≡ n.object)
  replaced j n e = elim (Bool-cases (j == i)) [
    | inl here ↦
        let found : some m' ≡ some n = ground (arith, put j) in
        let where_it_was : get_elem? regions j ≡ some m = let e : j ≡ i = ground arith in rw e at in
        (m, where_it_was, sym same ∙ ap (λ o. RegionModel.object o) (eq_of_some found))
    | inr other ↦ (n, ground (arith, put j), refl)
  ]

  pub Models-replaced :
      {channel_objects : List ℕ} {cm : CapModel} {c : Capability}
      → Models regions channel_objects cm c
      → Models regions' channel_objects cm c
  Models-replaced (models_channel c object rights e) = models_channel c object rights e
  Models-replaced (models_region j n rights epoch e) = elim (Bool-cases (j == i)) [
    | inr other ↦ models_region j n rights epoch (ground (arith, put j))
    | inl here ↦
        let here' : j ≡ i = ground arith in
        let old : n ≡ m = eq_of_some (sym e ∙ ap (get_elem? regions) here' ∙ at) in
        let found : get_elem? regions' j ≡ some m' = ground (arith, put j) in
        rw (old, sym same) (models_region j m' rights epoch found)
  ]

  apart :
      {channel_objects : List ℕ} {k : Kernel} {r : RegionRegistry}
      → IsTracked regions channel_objects k r
      → (j : ℕ) (n : RegionModel) → get_elem? regions j ≡ some n
      → (j == i) ≡ false
      → n.object ≢ m.object
  apart t j n old other h = let e : j ≡ i = t.regions_apart j i n m old at h in ground arith

  pub IsTracked-replaced :
      {channel_objects : List ℕ} {k k' : Kernel} {r r' : RegionRegistry}
      → IsTracked regions channel_objects k r
      → Says m' k' r'
      → SameBut m.object k r k' r'
      → IsTracked regions' channel_objects k' r'
  IsTracked-replaced t says but = record {
    region_epoch = λ j n e. elim (Bool-cases (j == i)) [
      | inl here ↦ let new : m' ≡ n = eq_of_some (ground (arith, put j)) in rw (sym new) says.0
      | inr other ↦
          let old : get_elem? regions j ≡ some n = ground (arith, put j) in
          (but n.object (apart t j n old other)).0 ∙ t.region_epoch j n old
    ];
    region_bytes = λ j n e. elim (Bool-cases (j == i)) [
      | inl here ↦ let new : m' ≡ n = eq_of_some (ground (arith, put j)) in rw (sym new) says.1
      | inr other ↦
          let old : get_elem? regions j ≡ some n = ground (arith, put j) in
          (but n.object (apart t j n old other)).1 ∙ t.region_bytes j n old
    ];
    channel_epoch =
        λ c o e. (but o (λ h. t.kinds_apart i c o m at e (sym h))).0 ∙ t.channel_epoch c o e;
    channel_bytes =
        λ c o e. (but o (λ h. t.kinds_apart i c o m at e (sym h))).1 ∙ t.channel_bytes c o e;
    regions_apart = λ j j' n n' e e' h.
        let (n₀, e₀, o₀) = replaced j n e in
        let (n₁, e₁, o₁) = replaced j' n' e' in t.regions_apart j j' n₀ n₁ e₀ e₁ (o₀ ∙ h ∙ sym o₁);
    channels_apart = t.channels_apart;
    kinds_apart = λ j c o n e e' h.
        let (n₀, e₀, o₀) = replaced j n e in t.kinds_apart j c o n₀ e₀ e' (o₀ ∙ h);
  }
