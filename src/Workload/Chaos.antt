-- ===== src/Workload/Chaos.antt =====
-- crates/workload/src/chaos.rs: the shadow model's predictions of a capability's fate. The harness's
-- world enters by the two lists that they read: its regions and the objects of its channels. An index
-- out of range is a panic.
pub mod Failures
pub mod Ops
pub mod World
pub mod Answers
pub mod Batches
pub mod Execute
pub mod Sweep
pub mod Run
pub mod Tracking
pub mod Predictions
pub mod Causality
use muaddib.Prelude.{
  ℕ, ◌+◌, Bool, true, false, not, Option, none, some, List, Result, ok, err, panic, ◌>>=◌, ◌>>◌,
  guard, expect, map_err, get_elem?, length, ◌==◌, ltb, leb, if◌then◌else◌, u64_mod,
}
use muaddib.Capability.Rights.{Rights, contains}
use muaddib.Capability.{CapError, unknown_object, revoked, insufficient_rights}
use muaddib.Memory.{MemoryError, unknown_region, out_of_bounds, capability, checked_add}

pub data Obj : Type 0 where
  region channel : ℕ → Obj

pub record CapModel : Type 0 where
  pub obj : Obj
  pub rights : Rights
  pub epoch : ℕ

pub record RegionModel : Type 0 where
  pub object : ℕ
  pub alive : Bool
  pub epoch : ℕ
  pub bytes : List ℕ

module _ (regions : List RegionModel) (channel_objects : List ℕ) where
  unfoldable pub object_id {ℓ} : {E : Type ℓ} → Obj → Result E ℕ
  object_id (region r) = do model ← expect (get_elem? regions r); ok model.object
  object_id (channel c) = expect (get_elem? channel_objects c)

  -- The part of `predict_check` that looks at a region.
  unfoldable pub predict_alive : CapModel → ℕ → Obj → Result CapError (Unit {0})
  predict_alive c object (channel i) = ok tt
  predict_alive c object (region r) = do
    model ← expect (get_elem? regions r)
    guard model.alive (unknown_object object)
    guard (model.epoch == c.epoch) (revoked object)

  unfoldable pub predict_check : CapModel → Rights → Result CapError (Unit {0})
  unfolding object_id predict_alive
  predict_check c required = do
    object ← object_id c.obj
    predict_alive c object c.obj
    guard (contains c.rights required) (insufficient_rights object c.rights required)

  abbrev in_range : ℕ → ℕ → ℕ → ℕ → Option ℕ → Result MemoryError (Unit {0})
  in_range object offset len size none = err (out_of_bounds object offset len size)
  in_range object offset len size (some end) =
      if leb end size then ok tt else err (out_of_bounds object offset len size)

  unfoldable pub predict_size : ℕ → Obj → Result MemoryError ℕ
  predict_size object (channel i) = err (unknown_region object)
  predict_size object (region r) = do model ← expect (get_elem? regions r); ok (length model.bytes)

  unfoldable pub predict_access : CapModel → Rights → ℕ → ℕ → Result MemoryError (Unit {0})
  unfolding predict_check object_id predict_size checked_add
  predict_access c required offset len = do
    map_err capability (predict_check c required)
    object ← object_id c.obj
    size ← predict_size object c.obj
    in_range object offset len size (checked_add offset len)
