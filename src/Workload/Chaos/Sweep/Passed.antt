-- ===== src/Workload/Chaos/Sweep/Passed.antt =====
-- crates/workload/src/chaos.rs: an audit, `World::sweep`, that passes.
use muaddib.Prelude.{
  ℕ, zero, suc, ◌+◌, ◌≡◌, refl, sym, ap, subst, ◌∙◌, Bool, true, false, ◌&&◌, Option, some, List,
  [], ◌∷◌, Result, ok, err, panic, All, get_elem?, filter, length, ◌==◌, arith, eq_of_some, expect,
  >>=-eq_ok, expect-eq_ok, guard-eq_ok,
}
use muaddib.Map.{Map}
use muaddib.Map
use muaddib.Capability.Rights
use muaddib.Capability.{Capability, check}
use muaddib.Process.{Process}
use muaddib.Process
use muaddib.Process.Scheduler
use muaddib.Memory.{MemoryError}
use muaddib.Memory
use muaddib.Workload.Chaos.{region, CapModel, RegionModel, object_id, predict_check}
use muaddib.Workload.Chaos.Failures.{
  Failure, table_differs, capability_differs, liveness_differs, region_count_differs, bytes_differ,
}
use muaddib.Workload.Chaos.World.{World, ProcModel}
use muaddib.Workload.Chaos.Answers.{
  same_cap_error, same_memory_error, same_numbers, same_unit, same_result, same_cap_error-eq,
  same_numbers-eq, same_result-eq,
}
use muaddib.Workload.Chaos.Execute.Access.{answered, ensure}
use muaddib.Workload.Chaos.Sweep.{
  sweep, sweep_procs, sweep_table, sweep_stash, sweep_regions, sweep_bytes, auditor,
}
use muaddib.Workload.Chaos.Sweep.Auditors.{audits-granted, audits-eq_ok, find_auditor-some}

-- The process has a capability of the model's object and rights under the entry's handle.
abbrev pub EntryAgrees : World → Process → ℕ × CapModel → Type 0
EntryAgrees w proc e =
    (c : Capability) × (Process.capability proc e.0 ≡ some c)
    × (object_id w.regions w.channel_objects {E = Failure} e.1.obj ≡ ok c.object)
    × (c.rights ≡ e.1.rights)

-- The process of the mirror exists and has the handles of the mirror, each with its capability.
abbrev pub TableAgrees : World → ProcModel → Type 0
TableAgrees w pm =
    (proc : Process) × (Scheduler.process w.sched pm.pid ≡ some proc)
    × (Process.handles proc ≡ Map.keys pm.table)
    × All (EntryAgrees w proc) pm.table

-- `check` answers as the model predicts.
abbrev pub LivenessAgrees : World → Capability × CapModel → Type 0
LivenessAgrees w e =
    check w.k e.0 Rights.none ≡ predict_check w.regions w.channel_objects e.1 Rights.none

both : (a b : Bool) → (a && b) ≡ true → (a ≡ true) × (b ≡ true)
both true b h = (refl, h)
both false b h = cc

answered-eq_ok {ℓ κ} :
    {E : Type ℓ} {A : Type κ} (r : Result E A) {r' : Result E A} → answered r ≡ ok r' → r ≡ r'
answered-eq_ok (ok a) h = ground arith
answered-eq_ok (err e) h = ground arith
answered-eq_ok panic h = cc

sweep_table-eq_ok :
    (w : World) (proc : Process) (table : Map CapModel)
    → sweep_table w proc table ≡ ok tt
    → All (EntryAgrees w proc) table
unfolding sweep_table
sweep_table-eq_ok w proc [] h = tt
sweep_table-eq_ok w proc ((j, m) ∷ table) h =
    let (c, found, h₁) = >>=-eq_ok (expect (Process.capability proc j)) _ h in
    let (object, named, h₂) = >>=-eq_ok (object_id w.regions w.channel_objects m.obj) _ h₁ in
    let (_, agrees, h₃) =
      >>=-eq_ok (ensure (c.object == object && c.rights == m.rights) capability_differs) _ h₂ in
    let (one, rights) =
      both (c.object == object) (c.rights == m.rights) (guard-eq_ok _ capability_differs agrees) in
    let one' : object ≡ c.object = ground arith in
    (
      (c, expect-eq_ok (Process.capability proc j) found, named ∙ ap ok one', ground arith),
      sweep_table-eq_ok w proc table h₃,
    )

sweep_procs-eq_ok :
    (w : World) (pms : List ProcModel) → sweep_procs w pms ≡ ok tt → All (TableAgrees w) pms
unfolding sweep_procs
sweep_procs-eq_ok w [] h = tt
sweep_procs-eq_ok w (pm ∷ pms) h =
    let (proc, found, h₁) = >>=-eq_ok (expect (Scheduler.process w.sched pm.pid)) _ h in
    let (_, agrees, h₂) =
      >>=-eq_ok (ensure (same_numbers (Process.handles proc) (Map.keys pm.table)) table_differs) _
        h₁ in
    let (_, table, h₃) = >>=-eq_ok (sweep_table w proc pm.table) _ h₂ in
    (
      (
        proc,
        expect-eq_ok (Scheduler.process w.sched pm.pid) found,
        same_numbers-eq _ _ (guard-eq_ok _ table_differs agrees),
        sweep_table-eq_ok w proc pm.table table,
      ),
      sweep_procs-eq_ok w pms h₃,
    )

sweep_stash-eq_ok :
    (w : World) (stash : List (Capability × CapModel))
    → sweep_stash w stash ≡ ok tt
    → All (LivenessAgrees w) stash
unfolding sweep_stash
sweep_stash-eq_ok w [] h = tt
sweep_stash-eq_ok w ((c, m) ∷ stash) h =
    let (real, e, h₁) = >>=-eq_ok (answered (check w.k c Rights.none)) _ h in
    let (predicted, e', h₂) =
      >>=-eq_ok (answered (predict_check w.regions w.channel_objects m Rights.none)) _ h₁ in
    let (_, agrees, h₃) =
      >>=-eq_ok (ensure (same_result same_cap_error same_unit real predicted) liveness_differs) _
        h₂ in
    let same =
      same_result-eq same_cap_error same_unit same_cap_error-eq (λ a b _. refl) real predicted
        (guard-eq_ok _ liveness_differs agrees) in
    (answered-eq_ok _ e ∙ same ∙ sym (answered-eq_ok _ e'), sweep_stash-eq_ok w stash h₃)

sweep_regions-eq_ok :
    (w : World) (n i : ℕ) (models : List RegionModel) (model : RegionModel)
    → sweep_regions w n models ≡ ok tt
    → get_elem? models i ≡ some model
    → (cap : Option Capability) × (auditor w (n + i) ≡ ok cap) × (sweep_bytes w model cap ≡ ok tt)
unfolding sweep_regions
sweep_regions-eq_ok w n i [] model h at = cc
sweep_regions-eq_ok w n zero (m ∷ models) model h at =
    let (cap, found, h₁) = >>=-eq_ok (auditor w n) _ h in
    let (_, bytes, _) = >>=-eq_ok (sweep_bytes w m cap) _ h₁ in
    let here : n ≡ n + zero = omega arith in
    (
      cap,
      subst (λ j. auditor w j ≡ ok cap) here found,
      subst (λ x. sweep_bytes w x cap ≡ ok tt) (eq_of_some at) bytes,
    )
sweep_regions-eq_ok w n (suc i) (m ∷ models) model h at =
    let (cap, _, h₁) = >>=-eq_ok (auditor w n) _ h in
    let (_, _, h₂) = >>=-eq_ok (sweep_bytes w m cap) _ h₁ in
    let (cap', found, bytes) = sweep_regions-eq_ok w (suc n) i models model h₂ at in
    let there : suc n + i ≡ n + suc i = omega arith in
    (cap', subst (λ j. auditor w j ≡ ok cap') there found, bytes)

same_bytes-eq :
    (real : Result MemoryError (List ℕ)) (bytes : List ℕ)
    → same_result same_memory_error same_numbers real (ok bytes) ≡ true
    → real ≡ ok bytes
same_bytes-eq (ok a) bytes h = ap ok (same_numbers-eq a bytes h)
same_bytes-eq (err e) bytes h = cc
same_bytes-eq panic bytes h = cc

sweep_bytes-some :
    (w : World) (model : RegionModel) (c : Capability)
    → sweep_bytes w model (some c) ≡ ok tt
    → Memory.inspect w.mem w.k c (λ bytes. bytes) ≡ ok model.bytes
sweep_bytes-some w model c h =
    let (real, e, h₁) = >>=-eq_ok (answered (Memory.inspect w.mem w.k c (λ bytes. bytes))) _ h in
    answered-eq_ok _ e ∙ same_bytes-eq real model.bytes (guard-eq_ok _ bytes_differ h₁)

-- In any world, when the audit passes and the model lets some entry of the stash read one of its
-- regions, then every process has the handles of its mirror, with capabilities of the mirror's
-- objects and rights; `check` answers for every entry of the stash as the model predicts; the
-- registry holds as many regions as live in the model; and through an entry of the stash that the
-- model lets read that region, the kernel shows the bytes that the model has of it.
pub sweep-eq_ok :
    (w : World) (r i : ℕ) (model : RegionModel) (c : Capability) (m : CapModel)
    → sweep w ≡ ok tt
    → get_elem? w.regions r ≡ some model
    → get_elem? w.stash i ≡ some (c, m)
    → m.obj ≡ region r
    → predict_check w.regions w.channel_objects m Rights.read ≡ ok tt
    → (j : ℕ) × (c' : Capability) × (m' : CapModel) × All (TableAgrees w) w.procs
      × All (LivenessAgrees w) w.stash
      × (Memory.region_count w.mem ≡ length (filter (λ x. x.alive) w.regions))
      × (get_elem? w.stash j ≡ some (c', m'))
      × (m'.obj ≡ region r)
      × (predict_check w.regions w.channel_objects m' Rights.read ≡ ok tt)
      × (Memory.inspect w.mem w.k c' (λ bytes. bytes) ≡ ok model.bytes)
unfolding sweep
sweep-eq_ok w r i model c m h at stashed obj granted =
    let (_, tables, h₁) = >>=-eq_ok (sweep_procs w w.procs) _ h in
    let (_, stash, h₂) = >>=-eq_ok (sweep_stash w w.stash) _ h₁ in
    let (_, count, h₃) =
      >>=-eq_ok
        (ensure (Memory.region_count w.mem == length (filter (λ x. x.alive) w.regions))
          region_count_differs)
        _ h₂ in
    let (cap, found, bytes) = sweep_regions-eq_ok w 0 r w.regions model h₃ at in
    let here : 0 + r ≡ r = omega arith in
    let (j, e', there, passes, same) =
      find_auditor-some w r i w.stash (c, m) cap (subst (λ x. auditor w x ≡ ok cap) here found)
        stashed (audits-granted w r m obj granted) in
    let (obj', granted') = audits-eq_ok w r e'.1 passes in
    let counted = guard-eq_ok _ region_count_differs count in
    (
      j,
      e'.0,
      e'.1,
      sweep_procs-eq_ok w w.procs tables,
      sweep_stash-eq_ok w w.stash stash,
      ground arith,
      there,
      obj',
      granted',
      sweep_bytes-some w model e'.0 (subst (λ x. sweep_bytes w model x ≡ ok tt) same bytes),
    )
