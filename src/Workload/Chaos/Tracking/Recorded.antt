-- ===== src/Workload/Chaos/Tracking/Recorded.antt =====
-- crates/workload/src/chaos.rs: the operations that record a local event and that make a region.
use muaddib.Prelude.{
  ℕ, suc, ◌<◌, ◌≡◌, refl, sym, ap, subst, ◌∙◌, inl, inr, some, List, [], ◌∷◌, ◌++◌, ok, get_elem?,
  length, arith, Option-cases, eq_of_some, length-le_of_none, u64_mod,
}
use muaddib.Map
use muaddib.Clock.{Stamp}
use muaddib.Clock.History.{to_list}
use muaddib.Process.{Process}
use muaddib.Process
use muaddib.Process.Scheduler
use muaddib.Workload.Chaos.Failures.{Failure}
use muaddib.Workload.Chaos.World.{World, ProcModel, Entry, record_event, log, outcome}
use muaddib.Workload.Chaos.Execute.{execute_new_region, execute_local}
use muaddib.Workload.Chaos.Execute.Exchange.{set_real}
use muaddib.Workload.Chaos.Tracking.{modify-ok}
use muaddib.Workload.Chaos.Tracking.Mirrors.{Mirrors}
use muaddib.Workload.Chaos.Tracking.Picked.{IsMirrored, Survives, real_process-ok}
use muaddib.Workload.Chaos.Tracking.Installed.{
  ReplacedAt-same, IsMirrored-put, new_region-IsMirrored,
}

pub record_event-IsMirrored :
    (w : World) (p : ℕ) (stamp : Stamp) (causes : List ℕ)
    → IsMirrored w
    → p < length w.procs
    → (w' : World) × (idx : ℕ) × (record_event w p stamp causes ≡ ok (w', idx))
      × IsMirrored w'
      × (w'.k.next_id ≡ w.k.next_id)
unfolding record_event
record_event-IsMirrored w p stamp causes mirrored inside =
    elim (Option-cases (get_elem? w.last_event p)) [
      | inl short ↦
          absurd (omega (arith, length-le_of_none w.last_event p short, mirrored.events, inside))
      | inr (prev, at) ↦
          let (last_event, done, _, long) =
            modify-ok {E = Failure} (λ _. some (length w.stamps)) p w.last_event at in
          (
            record w {
              last_event = last_event;
              stamps = w.stamps ++ stamp ∷ [];
              preds = w.preds ++ (causes ++ to_list prev) ∷ [];
            },
            length w.stamps,
            rw (at, done) refl,
            record {
              up = mirrored.up;
              stash = mirrored.stash;
              mirrors = mirrored.mirrors;
              pids_apart = mirrored.pids_apart;
              events = long ∙ mirrored.events;
            },
            refl,
          )
    ]

set_real-IsMirrored :
    (w : World) (p : ℕ) (mirror : ProcModel) (proc proc' : Process)
    → IsMirrored w
    → get_elem? w.procs p ≡ some mirror
    → Map.get mirror.pid w.sched.processes ≡ some proc
    → proc'.capabilities ≡ proc.capabilities
    → (sched : Scheduler.Scheduler) × (set_real w p proc' ≡ ok (record w { sched = sched }))
      × IsMirrored (record w { sched = sched })
unfolding set_real
set_real-IsMirrored w p mirror proc proc' mirrored at found same =
    let (real, found', rises, mirrors) = mirrored.mirrors p mirror at in
    let one : real ≡ proc = eq_of_some (sym found' ∙ found) in
    let tables : real.capabilities ≡ proc'.capabilities =
      ap (λ x. Process.capabilities x) one ∙ sym same in
    (
      Scheduler.set_process w.sched mirror.pid proc',
      rw at refl,
      IsMirrored-put w p mirror mirror proc' w.procs mirrored at refl
          (ReplacedAt-same p mirror w.procs at) refl rises
          (subst (λ t. Mirrors w.regions w.channel_objects mirror.table t) tables mirrors),
    )

-- So are the operations that make a region, given an identifier that is left, and that record a
-- local event.
pub execute_local-IsMirrored :
    (render : Entry → List ℕ) (w : World) (p : ℕ) (mirror : ProcModel)
    → IsMirrored w
    → get_elem? w.procs p ≡ some mirror
    → p < length w.procs
    → Survives w (execute_local render w p)
unfolding execute_local Process.record_local_event outcome log
execute_local-IsMirrored render w p mirror mirrored at inside =
    let (proc, found, _, _) = mirrored.mirrors p mirror at in
    let (proc', stamp) = Process.record_local_event proc in
    let (sched, done, mirrored₁) =
      set_real-IsMirrored w p mirror proc proc' mirrored at found refl in
    let (w₂, idx, done', mirrored₂, same) =
      record_event-IsMirrored (record w { sched = sched }) p stamp [] mirrored₁ inside in
    rw (real_process-ok w p mirror proc at found, done, done')
      (
        _,
        refl,
        record {
          up = mirrored₂.up;
          stash = mirrored₂.stash;
          mirrors = mirrored₂.mirrors;
          pids_apart = mirrored₂.pids_apart;
          events = mirrored₂.events;
        },
        omega (arith, same),
      )

pub execute_new_region-IsMirrored :
    (render : Entry → List ℕ) (w : World) (p size : ℕ) (mirror : ProcModel)
    → IsMirrored w
    → get_elem? w.procs p ≡ some mirror
    → suc w.k.next_id < u64_mod
    → Survives w (execute_new_region render w p size)
unfolding execute_new_region outcome log
execute_new_region-IsMirrored render w p size mirror mirrored at room =
    let (w₁, done, mirrored₁, id, _) = new_region-IsMirrored w p size mirror mirrored room at in
    rw done (
      _,
      refl,
      record {
        up = mirrored₁.up;
        stash = mirrored₁.stash;
        mirrors = mirrored₁.mirrors;
        pids_apart = mirrored₁.pids_apart;
        events = mirrored₁.events;
      },
      omega (arith, id),
    )
