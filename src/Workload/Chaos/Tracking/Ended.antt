-- ===== src/Workload/Chaos/Tracking/Ended.antt =====
-- crates/workload/src/chaos.rs: a revoke and a destruction, in a tracked world.
use muaddib.Prelude.{
  ℕ, ◌≡◌, refl, sym, subst, inl, inr, Bool, true, false, some, List, ok, err, get_elem?, arith,
  next_u64,
}
use muaddib.Map
use muaddib.Map.Laws.{get-insert_self, get-insert_ne, get-remove_self, get-remove_ne}
use muaddib.Map.Size.{remove-RisesFrom, len-remove}
use muaddib.Capability.Rights
use muaddib.Capability.{Capability, CapError, Kernel, check, destroy_object}
use muaddib.Capability.Check.{check_cases}
use muaddib.Capability.Revocation.{bumped, revoke_of_check, revoke_refused}
use muaddib.Memory.{RegionRegistry, capability, destroy_region}
use muaddib.Workload.Chaos.{CapModel, RegionModel, region}
use muaddib.Workload.Chaos.Failures.{Failure}
use muaddib.Workload.Chaos.Predictions.{predict_check-check}
use muaddib.Workload.Chaos.World.{
  World, Entry, ChaosSummary, is_region, revoke_answered, destroy_answered,
}
use muaddib.Workload.Chaos.Ops.{revoke_name, destroy_name}
use muaddib.Workload.Chaos.Answers.{same_memory_error_refl, same_cap_error_refl}
use muaddib.Workload.Chaos.Execute.Access.{
  dead_mem, dead, revoke_done, revoke_with, destroy_done, destroy_with,
}
use muaddib.Workload.Chaos.Tracking.{Models, models_region, models_channel, Models-Shadows}
use muaddib.Workload.Chaos.Tracking.Answered.{
  KeepsUp, Tolerates, tolerated, note_access_lem, KeepsUp-replaced,
}
use muaddib.Workload.Chaos.Tracking.Access.{granted_alive, noted}

revoke_done-Tolerates :
    (w : World) (summary : ChaosSummary) (log_hash : ℕ) (c : Capability) (m : CapModel)
    → KeepsUp w.regions w.channel_objects w.k w.mem
    → Models w.regions w.channel_objects m c
    → is_region m.obj ≡ true
    → check w.k c Rights.destroy ≡ ok tt
    → Tolerates w (
        revoke_done
          (record w { summary = summary; log_hash = log_hash })
          m
          (ok (bumped w.k c.object c.epoch)))
revoke_done-Tolerates w summary log_hash c m up (models_channel i object rights at) isr granted =
    absurd (cc isr)
revoke_done-Tolerates w summary log_hash c m up (models_region i model rights epoch at) isr
      granted =
    let (alive, now) = granted_alive up.tracked i model rights epoch Rights.destroy at granted in
    let (regions', done, up', keeps, _) =
      KeepsUp-replaced {E = Failure} (λ n. record n { epoch = next_u64 n.epoch }) i model
        {k' = bumped w.k model.object epoch} {r' = w.mem} at refl up
        (
          rw (now, alive) (get-insert_self model.object (next_u64 model.epoch) w.k.epochs),
          up.tracked.region_bytes i model at,
        )
        (λ o other. (get-insert_ne o model.object (next_u64 epoch) w.k.epochs other, refl)) refl
        up.stocked.rises refl in
    rw done
      (tolerated (bumped w.k model.object epoch) w.mem regions' summary log_hash up' keeps refl)

pub revoke_with-Tolerates :
    (render : Entry → List ℕ) (w : World) (c : Capability) (m : CapModel) (stale : Bool)
    → KeepsUp w.regions w.channel_objects w.k w.mem
    → Models w.regions w.channel_objects m c
    → is_region m.obj ≡ true
    → Tolerates w (revoke_with render w (c, m, stale))
unfolding revoke_with
revoke_with-Tolerates render w c m stale up models isr =
    rw
      (predict_check-check w.regions w.channel_objects w.k w.mem m c Rights.destroy
        (Models-Shadows up.tracked models))
      (elim (check_cases w.k c Rights.destroy) [
        | inr (e, refused) ↦
            rw (revoke_refused w.k c e refused, refused, same_cap_error_refl e)
              (noted render w revoke_name stale false (dead {A = Kernel} (err e))
                (revoke_answered stale (err e)) up)
        | inl (_, _, granted) ↦
            let k' = bumped w.k c.object c.epoch in
            let (summary, log_hash, same) =
              note_access_lem render w revoke_name stale true (dead {A = Kernel} (ok k'))
                (revoke_answered stale (ok tt)) in
            rw (revoke_of_check w.k c granted, granted)
              (subst (λ w₁. Tolerates w (revoke_done w₁ m (ok k'))) (sym same)
                (revoke_done-Tolerates w summary log_hash c m up models isr granted))
      ])

-- The kernel and the registry after a region is destroyed.
abbrev without : Kernel → ℕ → Kernel
without k o = record k { epochs = Map.remove o k.epochs }

abbrev freed : RegionRegistry → ℕ → RegionRegistry
freed r o = record { regions = Map.remove o r.regions }

destroy_region_of_check :
    (r : RegionRegistry) (k : Kernel) (c : Capability) {bytes : List ℕ}
    → check k c Rights.destroy ≡ ok tt
    → Map.get c.object r.regions ≡ some bytes
    → destroy_region r k c ≡ ok (freed r c.object, without k c.object)
unfolding destroy_region destroy_object Map.contains_key
destroy_region_of_check r k c granted found = rw (granted, found)

destroy_region_refused :
    (r : RegionRegistry) (k : Kernel) (c : Capability) (e : CapError)
    → check k c Rights.destroy ≡ err e
    → destroy_region r k c ≡ err (capability e)
unfolding destroy_region
destroy_region_refused r k c e refused = rw refused

destroy_done-Tolerates :
    (w : World) (summary : ChaosSummary) (log_hash i : ℕ) (model : RegionModel) (rights epoch : ℕ)
    → KeepsUp w.regions w.channel_objects w.k w.mem
    → get_elem? w.regions i ≡ some model
    → model.alive ≡ true
    → Tolerates w (
        destroy_done
          (record w { summary = summary; log_hash = log_hash })
          (record { obj = region i; rights = rights; epoch = epoch })
          (ok (freed w.mem model.object, without w.k model.object)))
destroy_done-Tolerates w summary log_hash i model rights epoch up at alive =
    let stored : Map.get model.object w.mem.regions ≡ some model.bytes =
      rw alive at (up.tracked.region_bytes i model at) in
    let (regions', done, up', keeps, _) =
      KeepsUp-replaced {E = Failure} (λ n. record n { alive = false }) i model
        {k' = without w.k model.object} {r' = freed w.mem model.object} at refl up
        (get-remove_self model.object w.k.epochs, get-remove_self model.object w.mem.regions)
        (λ o other. (
          get-remove_ne o model.object w.k.epochs other,
          get-remove_ne o model.object w.mem.regions other,
        ))
        refl (remove-RisesFrom 0 model.object w.mem.regions up.stocked.rises)
        (ground (arith, len-remove 0 model.object w.mem.regions up.stocked.rises, stored, alive)) in
    rw done (
      tolerated (without w.k model.object) (freed w.mem model.object) regions' summary log_hash up'
        keeps refl)

pub destroy_with-Tolerates :
    (render : Entry → List ℕ) (w : World) (c : Capability) (m : CapModel) (stale : Bool)
    → KeepsUp w.regions w.channel_objects w.k w.mem
    → Models w.regions w.channel_objects m c
    → is_region m.obj ≡ true
    → Tolerates w (destroy_with render w (c, m, stale))
unfolding destroy_with
destroy_with-Tolerates render w c m stale up (models_channel i object rights at) isr =
    absurd (cc isr)
destroy_with-Tolerates render w c m stale up (models_region i model rights epoch at) isr =
    rw
      (predict_check-check w.regions w.channel_objects w.k w.mem m c Rights.destroy
        (Models-Shadows up.tracked (models_region i model rights epoch at)))
      (elim (check_cases w.k c Rights.destroy) [
        | inr (e, refused) ↦
            rw
              (
                destroy_region_refused w.mem w.k c e refused,
                refused,
                same_memory_error_refl (capability e),
              )
              (noted render w destroy_name stale false
                (dead_mem {A = RegionRegistry × Kernel} (err (capability e)))
                (destroy_answered stale (err (capability e))) up)
        | inl (_, _, granted) ↦
            let (alive, _) =
              granted_alive up.tracked i model rights epoch Rights.destroy at granted in
            let stored : Map.get model.object w.mem.regions ≡ some model.bytes =
              rw alive at (up.tracked.region_bytes i model at) in
            let ended : RegionRegistry × Kernel =
              (freed w.mem model.object, without w.k model.object) in
            let (summary, log_hash, same) =
              note_access_lem render w destroy_name stale true
                (dead_mem {A = RegionRegistry × Kernel} (ok ended))
                (destroy_answered stale (ok tt)) in
            rw (destroy_region_of_check w.mem w.k c granted stored, granted)
              (subst (λ w₁. Tolerates w (destroy_done w₁ m (ok ended))) (sym same)
                (destroy_done-Tolerates w summary log_hash i model rights epoch up at alive))
      ])
