-- ===== src/Workload/Chaos/Execute/Access.antt =====
-- crates/workload/src/chaos.rs: the operations that use one capability, each tried on the kernel
-- and compared with its prediction.
use muaddib.Prelude.{
  ℕ, ◌+◌, Bool, true, false, ◌&&◌, Option, none, some, List, Result, ok, err, panic, ◌>>=◌, ◌>>◌,
  guard, expect, map_err, get_elem?, length, replicate, if◌then◌else◌, next_u64,
}
use muaddib.Capability.Rights
use muaddib.Capability.{Capability, CapError, unknown_object, revoked}
use muaddib.Capability
use muaddib.Memory.{MemoryError, slice, copy_from_slice}
use muaddib.Memory
use muaddib.Workload.Chaos.{Obj, region, channel, CapModel, predict_check, predict_access}
use muaddib.Workload.Chaos.Failures.{
  Failure, read_disagrees, write_disagrees, revoke_disagrees, destroy_disagrees,
}
use muaddib.Workload.Chaos.Ops.{read_name, write_name, revoke_name, destroy_name}
use muaddib.Workload.Chaos.World.{
  World, Entry, read_answered, write_answered, revoke_answered, destroy_answered, modify, log,
  outcome,
}
use muaddib.Workload.Chaos.Answers.{
  same_cap_error, same_memory_error, same_numbers, same_unit, same_result,
}

-- The answer of a call as a value; its panic is one of the run.
abbrev pub answered {ℓ κ} : {E : Type ℓ} {A : Type κ} → Result E A → Result Failure (Result E A)
answered (ok a) = ok (ok a)
answered (err e) = ok (err e)
answered panic = panic

abbrev pub is_ok {ℓ κ} : {E : Type ℓ} {A : Type κ} → Result E A → Bool
is_ok (ok a) = true
is_ok (err e) = false
is_ok panic = false

abbrev pub ensure : Bool → Failure → Result Failure (Unit {0})
ensure cond failure = guard cond failure

abbrev pub dead_cap : CapError → Bool
dead_cap (revoked o) = true
dead_cap (unknown_object o) = true
dead_cap e = false

-- `matches!(result, Err(CapError::Revoked(_) | CapError::UnknownObject(_)))`.
abbrev pub dead {ℓ} : {A : Type ℓ} → Result CapError A → Bool
dead (err e) = dead_cap e
dead r = false

unfoldable pub dead_mem {ℓ} : {A : Type ℓ} → Result MemoryError A → Bool
dead_mem (err (Memory.capability e)) = dead_cap e
dead_mem r = false

abbrev pub region_index : Obj → Result Failure ℕ
region_index (region r) = ok r
region_index (channel c) = panic

abbrev pub predicted_bytes : World → Obj → ℕ → ℕ → Result MemoryError (List ℕ)
predicted_bytes w (channel c) offset len = panic
predicted_bytes w (region r) offset len = do
  model ← expect (get_elem? w.regions r)
  expect (slice model.bytes offset (offset + len))

unfoldable pub predict_read : World → CapModel → ℕ → ℕ → Result MemoryError (List ℕ)
unfolding predict_access slice
predict_read w m offset len =
    predict_access w.regions w.channel_objects m Rights.read offset len
    >> predicted_bytes w m.obj offset len

abbrev pub written : World → CapModel → ℕ → List ℕ → Result Failure World
written w model offset data' = do
  r ← region_index model.obj
  region_model ← expect (get_elem? w.regions r)
  bytes ← expect (copy_from_slice region_model.bytes offset (offset + length data') data')
  regions ← modify (λ m. record m { bytes = bytes }) r w.regions
  ok (record w { regions = regions })

-- What the registry of regions becomes, and what an accepted write does to the model.
abbrev pub write_done :
    World → CapModel → ℕ → List ℕ → Result MemoryError Memory.RegionRegistry → Result Failure World
write_done w model offset data' (ok mem) = written (record w { mem = mem }) model offset data'
write_done w model offset data' (err e) = ok w
write_done w model offset data' panic = panic

abbrev pub revoke_done : World → CapModel → Result CapError Capability.Kernel → Result Failure World
revoke_done w model (ok k) = do
  r ← region_index model.obj
  regions ← modify (λ m. record m { epoch = next_u64 m.epoch }) r w.regions
  ok (record w { k = k; regions = regions })
revoke_done w model (err e) = ok w
revoke_done w model panic = panic

abbrev pub destroy_done :
    World
    → CapModel
    → Result MemoryError (Memory.RegionRegistry × Capability.Kernel)
    → Result Failure World
destroy_done w model (ok (mem, k)) = do
  r ← region_index model.obj
  regions ← modify (λ m. record m { alive = false }) r w.regions
  ok (record w { mem = mem; k = k; regions = regions })
destroy_done w model (err e) = ok w
destroy_done w model panic = panic

module _ (render : Entry → List ℕ) where
  -- The name, whether the capability was stale, whether the call succeeded, and whether it was
  -- refused as dead.
  unfoldable pub note_access : World → ℕ → Bool → Bool → Bool → Entry → World
  unfolding outcome log
  note_access w name stale passed refused_as_dead entry =
      let w₁ = outcome w name passed in
      let refused = w₁.summary.stale_replays_refused in
      let w₂ : World = record w₁ {
        summary = record w₁.summary {
          stale_replays_refused = if stale && refused_as_dead then next_u64 refused else refused;
        };
      } in
      log render w₂ entry

  unfoldable pub read_with : World → ℕ → ℕ → Capability × CapModel × Bool → Result Failure World
  unfolding predict_read note_access dead_mem same_memory_error same_numbers Memory.read
  read_with w offset len (cap, model, stale) = do
    predicted ← answered (predict_read w model offset len)
    result ← answered (Memory.read w.mem w.k cap offset len)
    let w₁ =
        note_access w read_name stale (is_ok result) (dead_mem result) (read_answered stale result)
    ensure (same_result same_memory_error same_numbers result predicted) read_disagrees
    ok w₁

  unfoldable pub write_with :
      World → ℕ → ℕ → ℕ → Capability × CapModel × Bool → Result Failure World
  unfolding predict_access note_access dead_mem same_memory_error Memory.write copy_from_slice
      modify
  write_with w offset len byte (cap, model, stale) = do
    predicted ← answered (predict_access w.regions w.channel_objects model Rights.write offset len)
    let data' = replicate len byte
    result ← answered (Memory.write w.mem w.k cap offset data')
    let w₁ =
        note_access w write_name stale (is_ok result) (dead_mem result)
          (write_answered stale (result >> ok tt))
    ensure (same_result same_memory_error same_unit (result >> ok tt) predicted) write_disagrees
    write_done w₁ model offset data' result

  unfoldable pub revoke_with : World → Capability × CapModel × Bool → Result Failure World
  unfolding predict_check note_access same_cap_error Capability.revoke modify
  revoke_with w (cap, model, stale) = do
    predicted ← answered (predict_check w.regions w.channel_objects model Rights.destroy)
    result ← answered (Capability.revoke w.k cap)
    let w₁ =
        note_access w revoke_name stale (is_ok result) (dead result)
          (revoke_answered stale (result >> ok tt))
    ensure (same_result same_cap_error same_unit (result >> ok tt) predicted) revoke_disagrees
    revoke_done w₁ model result

  unfoldable pub destroy_with : World → Capability × CapModel × Bool → Result Failure World
  unfolding predict_check note_access dead_mem same_memory_error Memory.destroy_region modify
  destroy_with w (cap, model, stale) = do
    predicted ←
        answered (
          map_err Memory.capability
            (predict_check w.regions w.channel_objects model Rights.destroy))
    result ← answered (Memory.destroy_region w.mem w.k cap)
    let w₁ =
        note_access w destroy_name stale (is_ok result) (dead_mem result)
          (destroy_answered stale (result >> ok tt))
    ensure (same_result same_memory_error same_unit (result >> ok tt) predicted) destroy_disagrees
    destroy_done w₁ model result

-- Nothing happens when there is no capability to pick.
abbrev pub if_picked {ℓ} :
    {A : Type ℓ} → World → (A → Result Failure World) → Option A → Result Failure World
if_picked w f none = ok w
if_picked w f (some picked) = f picked
