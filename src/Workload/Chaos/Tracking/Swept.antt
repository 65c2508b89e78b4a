-- ===== src/Workload/Chaos/Tracking/Swept.antt =====
-- crates/workload/src/chaos.rs: the audit of a mirrored world.
use muaddib.Prelude.{
  ℕ, suc, ◌+◌, ◌≡◌, refl, sym, ap, subst, ◌∙◌, inl, inr, ◌⊎◌, true, false, none, some, List, [],
  ◌∷◌, ok, All, get_elem?, arith, Bool-cases, ◌==◌, eq_of_some, length, filter,
}
use muaddib.Map.{Map}
use muaddib.Map
use muaddib.Map.Size.{RisesFrom}
use muaddib.Capability.{Capability, check}
use muaddib.Capability.Check.{check_cases}
use muaddib.Capability.Rights
use muaddib.Process.{Process}
use muaddib.Process
use muaddib.Process.Scheduler
use muaddib.Memory
use muaddib.Workload.Chaos.{CapModel, RegionModel, object_id, predict_check}
use muaddib.Workload.Chaos.Failures.{Failure}
use muaddib.Workload.Chaos.World.{World, ProcModel}
use muaddib.Workload.Chaos.Answers.{same_cap_error_refl, same_numbers_refl}
use muaddib.Workload.Chaos.Predictions.{predict_check-check}
use muaddib.Workload.Chaos.Sweep.{
  sweep_table, sweep_procs, sweep_stash, sweep_regions, sweep, audits, auditor, find_auditor,
}
use muaddib.Workload.Chaos.Tracking.{Models, models_region, models_channel, Models-Shadows}
use muaddib.Workload.Chaos.Tracking.Access.{granted_alive}
use muaddib.Workload.Chaos.Tracking.Mirrors.{Mirrors, nil, cons, Mirrors-keys, get_of_entry}
use muaddib.Workload.Chaos.Tracking.Picked.{IsMirrored}

object_id-Models :
    {regions : List RegionModel} {channel_objects : List ℕ} {m : CapModel} {c : Capability}
    → Models regions channel_objects m c
    → (object_id regions channel_objects {E = Failure} m.obj ≡ ok c.object) × (c.rights ≡ m.rights)
unfolding object_id
object_id-Models (models_region i m rights epoch at) = (rw at, refl)
object_id-Models (models_channel c object rights at) = (rw at, refl)

sweep_table-ok :
    (w : World) (proc : Process) (n : ℕ) (table : Map CapModel) (real : Map Capability)
    → RisesFrom n table
    → Mirrors w.regions w.channel_objects table real
    → ((h : ℕ) (c : Capability)
        → (i : ℕ) → get_elem? real i ≡ some (h, c)
        → Process.capability proc h ≡ some c)
    → sweep_table w proc table ≡ ok tt
unfolding sweep_table
sweep_table-ok w proc n _ _ rises nil there = refl
sweep_table-ok w proc n _ _ rises (cons h m c table real models rest) there =
    let (named, rights) = object_id-Models models in
    let found = there h c 0 refl in
    let tail =
      sweep_table-ok w proc (suc h) table real rises.1 rest (λ j d i e. there j d (suc i) e) in
    rw (found, named, rights) (ground (arith, tail))

RisesFrom-Mirrors :
    {regions : List RegionModel} {channel_objects : List ℕ} (n : ℕ) {table : Map CapModel}
    {real : Map Capability}
    → Mirrors regions channel_objects table real
    → RisesFrom n table
    → RisesFrom n real
RisesFrom-Mirrors n nil rises = tt
RisesFrom-Mirrors n (cons h m c table real models rest) rises =
    (rises.0, RisesFrom-Mirrors (suc h) rest rises.1)

capability_at :
    (proc : Process) (i h : ℕ) (c : Capability)
    → RisesFrom 0 proc.capabilities
    → get_elem? proc.capabilities i ≡ some (h, c)
    → Process.capability proc h ≡ some c
unfolding Process.capability
capability_at proc i h c rises e = (get_of_entry 0 proc.capabilities i h c rises e).1

sweep_procs-ok :
    (w : World) (pms : List ProcModel)
    → IsMirrored w
    → ((i : ℕ) (pm : ProcModel)
        → get_elem? pms i ≡ some pm
        → (p : ℕ) × (get_elem? w.procs p ≡ some pm))
    → sweep_procs w pms ≡ ok tt
unfolding sweep_procs Scheduler.process Process.handles
sweep_procs-ok w [] mirrored from = refl
sweep_procs-ok w (pm ∷ pms) mirrored from =
    let (p, at) = from 0 pm refl in
    let (proc, found, rises, mirrors) = mirrored.mirrors p pm at in
    let rises' = RisesFrom-Mirrors 0 mirrors rises in
    let table =
      sweep_table-ok w proc 0 pm.table proc.capabilities rises mirrors
        (λ h c i e. capability_at proc i h c rises' e) in
    rw (found, Mirrors-keys mirrors, same_numbers_refl (Map.keys pm.table), table)
      (sweep_procs-ok w pms mirrored (λ i pm' e. from (suc i) pm' e))

predicted :
    (w : World) (m : CapModel) (c : Capability) (required : ℕ)
    → IsMirrored w
    → Models w.regions w.channel_objects m c
    → predict_check w.regions w.channel_objects m required ≡ check w.k c required
predicted w m c required mirrored models =
    predict_check-check w.regions w.channel_objects w.k w.mem m c required
      (Models-Shadows mirrored.up.tracked models)

sweep_stash-ok :
    (w : World) (stash : List (Capability × CapModel))
    → IsMirrored w
    → All (λ e. Models w.regions w.channel_objects e.1 e.0) stash
    → sweep_stash w stash ≡ ok tt
unfolding sweep_stash
sweep_stash-ok w [] mirrored all = refl
sweep_stash-ok w ((c, m) ∷ stash) mirrored all =
    rw (predicted w m c Rights.none mirrored all.0) (elim (check_cases w.k c Rights.none) [
      | inl (_, _, passed) ↦ rw passed (sweep_stash-ok w stash mirrored all.1)
      | inr (e, refused) ↦
          rw (refused, same_cap_error_refl e) (sweep_stash-ok w stash mirrored all.1)
    ])

audits_cases :
    (w : World) (r : ℕ) (model : RegionModel) (m : CapModel) (c : Capability)
    → IsMirrored w
    → get_elem? w.regions r ≡ some model
    → Models w.regions w.channel_objects m c
    → (audits w r m ≡ ok false)
      ⊎ ((audits w r m ≡ ok true)
          × (c.object ≡ model.object)
          × (check w.k c Rights.read ≡ ok tt)
          × (model.alive ≡ true))
unfolding audits
audits_cases w r model m c mirrored at (models_channel i object rights e) = inl refl
audits_cases w r model m c mirrored at (models_region i n rights epoch e) =
    elim (Bool-cases (i == r)) [
      | inr other ↦ inl (rw other)
      | inl here ↦ elim (check_cases w.k c Rights.read) [
        | inr (x, refused) ↦ inl (
            rw (
              here,
              predicted w m c Rights.read mirrored (models_region i n rights epoch e),
              refused,
            ))
        | inl (_, _, granted) ↦
            let same : i ≡ r = ground arith in
            let one : n ≡ model = eq_of_some (sym e ∙ ap (get_elem? w.regions) same ∙ at) in
            let (alive, _) =
              granted_alive mirrored.up.tracked i n rights epoch Rights.read e granted in
            inr (
              rw (
                here,
                predicted w m c Rights.read mirrored (models_region i n rights epoch e),
                granted,
              ),
              ap (λ x. RegionModel.object x) one,
              granted,
              subst (λ x. x.alive ≡ true) one alive,
            )
      ]
    ]

-- An auditor is a capability of the region that may read it.
find_auditor-ok :
    (w : World) (r : ℕ) (model : RegionModel) (stash : List (Capability × CapModel))
    → IsMirrored w
    → get_elem? w.regions r ≡ some model
    → All (λ e. Models w.regions w.channel_objects e.1 e.0) stash
    → (find_auditor w r stash ≡ ok none)
      ⊎ ((c : Capability) × (find_auditor w r stash ≡ ok (some c))
          × (c.object ≡ model.object)
          × (check w.k c Rights.read ≡ ok tt)
          × (model.alive ≡ true))
find_auditor-ok w r model [] mirrored at all = inl refl
find_auditor-ok w r model ((c, m) ∷ stash) mirrored at all =
    elim (audits_cases w r model m c mirrored at all.0) [
      | inl no_right ↦ rw no_right (find_auditor-ok w r model stash mirrored at all.1)
      | inr (yes_right, object, granted, alive) ↦
          rw yes_right (inr (c, refl, object, granted, alive))
    ]

sweep_regions-ok :
    (w : World) (r : ℕ) (models : List RegionModel)
    → IsMirrored w
    → ((i : ℕ) (model : RegionModel)
        → get_elem? models i ≡ some model
        → get_elem? w.regions (r + i) ≡ some model)
    → sweep_regions w r models ≡ ok tt
unfolding sweep_regions auditor Memory.inspect
sweep_regions-ok w r [] mirrored from = refl
sweep_regions-ok w r (model ∷ models) mirrored from =
    let at : get_elem? w.regions r ≡ some model =
      subst (λ j. get_elem? w.regions j ≡ some model) (omega arith) (from 0 model refl) in
    let later =
      sweep_regions-ok w (suc r) models mirrored
        (λ i n e. subst (λ j. get_elem? w.regions j ≡ some n) (omega arith) (from (suc i) n e)) in
    elim (find_auditor-ok w r model w.stash mirrored at mirrored.stash) [
      | inl nobody ↦ rw nobody later
      | inr (c, found, object, granted, alive) ↦
          let stored : Map.get c.object w.mem.regions ≡ some model.bytes =
            rw (object) (rw alive at (mirrored.up.tracked.region_bytes r model at)) in
          rw (found, granted, stored, same_numbers_refl model.bytes) later
    ]

==_self : (n : ℕ) → (n == n) ≡ true
==_self n = ground arith

-- In a mirrored world the audit finds nothing.
pub sweep-ok : (w : World) → IsMirrored w → sweep w ≡ ok tt
unfolding sweep Memory.region_count
sweep-ok w mirrored =
    rw
      (
        sweep_procs-ok w w.procs mirrored (λ i pm e. (i, e)),
        sweep_stash-ok w w.stash mirrored mirrored.stash,
        mirrored.up.stocked.counted,
        ==_self (length (filter (λ model. model.alive) w.regions)),
      )
      (sweep_regions-ok w 0 w.regions mirrored
        (λ i model e. subst (λ j. get_elem? w.regions j ≡ some model) (omega arith) e))
