-- ===== src/Workload/Chaos/Predictions.antt =====
-- crates/workload/src/chaos.rs: the predictions of the shadow model beside the kernel's checks.
use muaddib.Prelude.{
  ℕ, ◌≡◌, refl, none, some, List, ok, err, get_elem?, arith, if◌then◌else◌, Bool-cases, inl, inr,
  ◌>>◌,
}
use muaddib.Map
use muaddib.Capability.{Capability, Kernel, check, unknown_object}
use muaddib.Capability.Rights.{Rights}
use muaddib.Capability.Check.{check_cases, check_gone}
use muaddib.Memory.{RegionRegistry, checked_add, checked_range}
use muaddib.Workload.Chaos.{
  region, channel, CapModel, RegionModel, predict_check, predict_alive, predict_access, object_id,
  predict_size,
}

-- The object that a model of a capability names, and what the kernel's table should say of it.
pub data Shadows (regions : List RegionModel) (channel_objects : List ℕ) (k : Kernel)
    (r : RegionRegistry) : CapModel → Capability → Type 0 where
  of_region :
      (i : ℕ) (model : RegionModel) (rights epoch : ℕ)
      → get_elem? regions i ≡ some model
      → Map.get model.object k.epochs ≡ (if model.alive then some model.epoch else none)
      → Map.get model.object r.regions ≡ (if model.alive then some model.bytes else none)
      → Shadows regions channel_objects k r
          (record { obj = region i; rights = rights; epoch = epoch })
          (record { object = model.object; rights = rights; epoch = epoch })
  of_channel :
      (c object rights : ℕ)
      → get_elem? channel_objects c ≡ some object
      → Map.get object k.epochs ≡ some 0
      → Map.get object r.regions ≡ none
      → Shadows regions channel_objects k r
          (record { obj = channel c; rights = rights; epoch = 0 })
          (record { object = object; rights = rights; epoch = 0 })

-- Where the model's view of a capability's object is right, `predict_check` gives the kernel's
-- answer for any rights, errors included.
pub predict_check-check :
    (regions : List RegionModel) (channel_objects : List ℕ) (k : Kernel) (r : RegionRegistry)
    (m : CapModel) (c : Capability) (required : Rights)
    → Shadows regions channel_objects k r m c
    → predict_check regions channel_objects m required ≡ check k c required
unfolding predict_check check object_id predict_alive
predict_check-check regions channel_objects k r m c required
      (of_region i model rights epoch at tracked stored) =
    elim (Bool-cases model.alive) [
      | inl live ↦ rw (at, tracked, live) refl
      | inr dead ↦ rw (at, tracked, dead) refl
    ]
predict_check-check regions channel_objects k r m c required
      (of_channel i object rights at tracked stored) =
    rw (at, tracked) refl

-- And `predict_access` says whether the registry's bounds check of a range passes, and else gives
-- its error: the capability's, an object that is no region, or a range out of bounds.
pub predict_access-checked_range :
    (regions : List RegionModel) (channel_objects : List ℕ) (k : Kernel) (r : RegionRegistry)
    (m : CapModel) (c : Capability) (required : Rights) (offset len : ℕ)
    → Shadows regions channel_objects k r m c
    → predict_access regions channel_objects m required offset len
      ≡ (checked_range r k c required offset len >> ok tt)
unfolding predict_access checked_range object_id predict_size checked_add
predict_access-checked_range regions channel_objects k r m c required offset len
      (of_region i model rights epoch at tracked stored) =
    let agree =
      predict_check-check regions channel_objects k r m c required
        (of_region i model rights epoch at tracked stored) in
    elim (Bool-cases model.alive) [
      | inr dead ↦
          let refused : check k c required ≡ err (unknown_object c.object) =
            check_gone k c required (rw (tracked, dead) refl) in
          rw (agree, refused) refl
      | inl live ↦ elim (check_cases k c required) [
        | inr (e, refused) ↦ rw (agree, refused) refl
        | inl (_, _, granted) ↦ rw (agree, granted, at, stored, live) (ground arith)
      ]
    ]
predict_access-checked_range regions channel_objects k r m c required offset len
      (of_channel i object rights at tracked stored) =
    let agree =
      predict_check-check regions channel_objects k r m c required
        (of_channel i object rights at tracked stored) in
    elim (check_cases k c required) [
      | inr (e, refused) ↦ rw (agree, refused) refl
      | inl (_, _, granted) ↦ rw (agree, granted, at, stored) refl
    ]
