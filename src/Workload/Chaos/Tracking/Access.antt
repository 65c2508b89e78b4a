-- ===== src/Workload/Chaos/Tracking/Access.antt =====
-- crates/workload/src/chaos.rs: the operations on one capability, in a tracked world.
use muaddib.Prelude.{
  ◌⊎◌, subst, ◌≤◌, Bool, take, drop, length, replicate, length-replicate, Option-cases, ℕ, ◌+◌, ◌≡◌,
  refl, sym, ◌∙◌, inl, inr, true, false, some, List, ok, err, ◌>>◌, get_elem?, arith,
}
use muaddib.Map
use muaddib.Map.Laws.{get-insert_self, get-insert_ne}
use muaddib.Map.Size.{insert-RisesFrom, len-insert}
use muaddib.Capability.Rights.{Rights}
use muaddib.Capability.Rights
use muaddib.Capability.{Capability, Kernel, check}
use muaddib.Capability.Check.{check_cases, check-eq_ok}
use muaddib.Memory.{RegionRegistry, read, write, checked_range, checked_add, slice, copy_from_slice}
use muaddib.Workload.Chaos.{CapModel, RegionModel, predict_access}
use muaddib.Workload.Chaos.World.{World, ChaosSummary, Entry, read_answered, write_answered}
use muaddib.Workload.Chaos.Ops.{read_name, write_name}
use muaddib.Memory.{MemoryError}
use muaddib.Memory.Bounds.{read-access, write-access, access_cases, access-eq_ok, overwrite}
use muaddib.Workload.Chaos.Answers.{same_numbers_refl, same_memory_error_refl}
use muaddib.Workload.Chaos.Tracking.Answered.{
  KeepsUp, Tolerates, tolerated, note_access_lem, KeepsUp-replaced,
}
use muaddib.Workload.Chaos.Failures.{Failure}
use muaddib.Workload.Chaos.Predictions.{predict_access-checked_range}
use muaddib.Workload.Chaos.Tracking.{
  IsTracked, Models, models_region, models_channel, Models-Shadows,
}
use muaddib.Workload.Chaos.Execute.Access.{
  written, write_done, predict_read, dead_mem, note_access, read_with, write_with,
}

pub granted_alive :
    {regions : List RegionModel} {channel_objects : List ℕ} {k : Kernel} {r : RegionRegistry}
    (t : IsTracked regions channel_objects k r) (i : ℕ) (m : RegionModel)
    (rights epoch required : ℕ)
    → get_elem? regions i ≡ some m
    → check k (record { object = m.object; rights = rights; epoch = epoch }) required ≡ ok tt
    → (m.alive ≡ true) × (epoch ≡ m.epoch)
granted_alive {k = k} t i m rights epoch required at granted =
    let (live, _) =
      check-eq_ok k (record { object = m.object; rights = rights; epoch = epoch }) required
        granted in
    (ground (arith, t.region_epoch i m at), ground (arith, t.region_epoch i m at))

predict_read-read :
    (w : World) (m : CapModel) (c : Capability) (offset len : ℕ)
    → IsTracked w.regions w.channel_objects w.k w.mem
    → Models w.regions w.channel_objects m c
    → predict_read w m offset len ≡ read w.mem w.k c offset len
unfolding predict_read read checked_range checked_add slice
predict_read-read w m c offset len t (models_channel i object rights at) =
    let agree =
      predict_access-checked_range w.regions w.channel_objects w.k w.mem m c Rights.read offset len
        (Models-Shadows t (models_channel i object rights at)) in
    rw agree (elim (check_cases w.k c Rights.read) [
      | inr (e, refused) ↦ rw refused
      | inl (_, _, granted) ↦ rw (granted, t.channel_bytes i object at)
    ])
predict_read-read w m c offset len t (models_region i model rights epoch at) =
    let agree =
      predict_access-checked_range w.regions w.channel_objects w.k w.mem m c Rights.read offset len
        (Models-Shadows t (models_region i model rights epoch at)) in
    rw agree (elim (check_cases w.k c Rights.read) [
      | inr (e, refused) ↦ rw refused
      | inl (_, _, granted) ↦
          let (alive, _) = granted_alive t i model rights epoch Rights.read at granted in
          let stored = t.region_bytes i model at in rw (granted, stored, alive, at) (ground arith)
    ])

read_cases :
    (r : RegionRegistry) (k : Kernel) (c : Capability) (offset len : ℕ)
    → ((bytes : List ℕ) × (read r k c offset len ≡ ok bytes))
      ⊎ ((e : MemoryError) × (read r k c offset len ≡ err e))
read_cases r k c offset len =
    rw (read-access r k c offset len)
      (access_cases r k c Rights.read offset len (λ b. take len (drop offset b)))

pub noted :
    (render : Entry → List ℕ) (w : World) (name : ℕ) (stale passed refused : Bool) (entry : Entry)
    → KeepsUp w.regions w.channel_objects w.k w.mem
    → Tolerates w (ok (note_access render w name stale passed refused entry))
noted render w name stale passed refused entry up =
    let (summary, log_hash, same) = note_access_lem render w name stale passed refused entry in
    rw same (tolerated w.k w.mem w.regions summary log_hash up (λ m c h. h) refl)

pub read_with-Tolerates :
    (render : Entry → List ℕ) (w : World) (offset len : ℕ) (c : Capability) (m : CapModel)
    (stale : Bool)
    → KeepsUp w.regions w.channel_objects w.k w.mem
    → Models w.regions w.channel_objects m c
    → Tolerates w (read_with render w offset len (c, m, stale))
unfolding read_with
read_with-Tolerates render w offset len c m stale up models =
    rw (predict_read-read w m c offset len up.tracked models)
      (elim (read_cases w.mem w.k c offset len) [
        | inl (bytes, e) ↦
            rw (e, same_numbers_refl bytes)
              (noted render w read_name stale true (dead_mem {A = List ℕ} (ok bytes))
                (read_answered stale (ok bytes)) up)
        | inr (x, e) ↦
            rw (e, same_memory_error_refl x)
              (noted render w read_name stale false (dead_mem {A = List ℕ} (err x))
                (read_answered stale (err x)) up)
      ])

checked_range-write :
    (r : RegionRegistry) (k : Kernel) (c : Capability) (offset len : ℕ) (data' : List ℕ)
    → length data' ≡ len
    → (checked_range r k c Rights.write offset len >> ok tt)
      ≡ (write r k c offset data' >> ok (tt {0}))
unfolding write checked_range checked_add copy_from_slice
checked_range-write r k c offset len data' same = elim (check_cases k c Rights.write) [
  | inr (e, refused) ↦ rw refused
  | inl (_, _, granted) ↦ elim (Option-cases (Map.get c.object r.regions)) [
    | inl missing ↦ rw (granted, missing)
    | inr (bytes, found) ↦ rw (granted, found) (ground arith)
  ]
]

write_cases :
    (r : RegionRegistry) (k : Kernel) (c : Capability) (offset : ℕ) (data' : List ℕ)
    → ((r' : RegionRegistry) × (write r k c offset data' ≡ ok r'))
      ⊎ ((e : MemoryError) × (write r k c offset data' ≡ err e))
write_cases r k c offset data' =
    rw (write-access r k c offset data') (access_cases r k c Rights.write offset (length data') _)

copy_fits :
    (bytes : List ℕ) (offset : ℕ) (data' : List ℕ)
    → offset + length data' ≤ length bytes
    → copy_from_slice bytes offset (offset + length data') data'
      ≡ some (overwrite offset data' bytes)
unfolding copy_from_slice
copy_fits bytes offset data' h = ground arith

-- What an accepted write does to the model.
written-Tolerates :
    (w : World) (summary : ChaosSummary) (log_hash offset : ℕ) (data' : List ℕ) (c : Capability)
    (m : CapModel) (mem : RegionRegistry)
    → KeepsUp w.regions w.channel_objects w.k w.mem
    → Models w.regions w.channel_objects m c
    → write w.mem w.k c offset data' ≡ ok mem
    → Tolerates w
        (written (record w { summary = summary; log_hash = log_hash; mem = mem }) m offset data')
written-Tolerates w summary log_hash offset data' c m mem up (models_channel i object rights at) e =
    let (bytes, _, found, _, _, _) =
      access-eq_ok w.mem w.k c Rights.write offset (length data') _ mem
        (rw (write-access w.mem w.k c offset data') at e) in
    absurd (cc (found, up.tracked.channel_bytes i object at))
written-Tolerates w summary log_hash offset data' c m mem up (models_region i model rights epoch at)
      e =
    let (bytes, granted, found, fits, _, same) =
      access-eq_ok w.mem w.k c Rights.write offset (length data') _ mem
        (rw (write-access w.mem w.k c offset data') at e) in
    let (alive, _) = granted_alive up.tracked i model rights epoch Rights.write at granted in
    let stored : bytes ≡ model.bytes = ground (arith, up.tracked.region_bytes i model at) in
    let fits' : offset + length data' ≤ length model.bytes = rw (sym stored) fits in
    let new = overwrite offset data' model.bytes in
    let new_mem : mem ≡ record { regions = Map.insert model.object new w.mem.regions } =
      rw (sym stored) same in
    let present : Map.get model.object w.mem.regions ≡ some bytes = found in
    let (regions', done, up', keeps, _) =
      KeepsUp-replaced {E = Failure} (λ n. record n { bytes = new }) i model at refl up
        (
          up.tracked.region_epoch i model at,
          rw (new_mem, alive) (get-insert_self model.object new w.mem.regions),
        )
        (λ o other. (refl, rw new_mem (get-insert_ne o model.object new w.mem.regions other))) refl
        (rw new_mem
          (insert-RisesFrom 0 model.object new w.mem.regions (omega arith) up.stocked.rises))
        (rw new_mem
          (ground (arith, len-insert 0 model.object new w.mem.regions up.stocked.rises))) in
    rw (at, copy_fits model.bytes offset data' fits', done)
      (tolerated w.k mem regions' summary log_hash up' keeps refl)

pub write_with-Tolerates :
    (render : Entry → List ℕ) (w : World) (offset len byte : ℕ) (c : Capability) (m : CapModel)
    (stale : Bool)
    → KeepsUp w.regions w.channel_objects w.k w.mem
    → Models w.regions w.channel_objects m c
    → Tolerates w (write_with render w offset len byte (c, m, stale))
unfolding write_with
write_with-Tolerates render w offset len byte c m stale up models =
    let data' = replicate len byte in
    let agree : predict_access w.regions w.channel_objects m Rights.write offset len
        ≡ (write w.mem w.k c offset data' >> ok tt) =
      predict_access-checked_range w.regions w.channel_objects w.k w.mem m c Rights.write offset len
        (Models-Shadows up.tracked models)
      ∙ checked_range-write w.mem w.k c offset len data' (length-replicate len byte) in
    rw agree (elim (write_cases w.mem w.k c offset data') [
      | inl (mem, e) ↦
          let (summary, log_hash, same) =
            note_access_lem render w write_name stale true (dead_mem {A = RegionRegistry} (ok mem))
              (write_answered stale (ok tt)) in
          rw e (
            subst (λ w₁. Tolerates w (write_done w₁ m offset data' (ok mem))) (sym same)
              (written-Tolerates w summary log_hash offset data' c m mem up models e))
      | inr (x, e) ↦
          rw (e, same_memory_error_refl x)
            (noted render w write_name stale false (dead_mem {A = RegionRegistry} (err x))
              (write_answered stale (err x)) up)
    ])
