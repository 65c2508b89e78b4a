-- ===== src/Workload/Chaos/Sweep.antt =====
-- crates/workload/src/chaos.rs: `World::sweep`, the audit of the whole state after every step.
pub mod Auditors
pub mod Passed
use muaddib.Prelude.{
  ℕ, suc, Bool, true, false, ◌&&◌, Option, none, some, List, [], ◌∷◌, filter, Result, ok, err,
  panic, ◌>>=◌, ◌>>◌, expect, length, ◌==◌, if◌then◌else◌,
}
use muaddib.Map.{Map}
use muaddib.Map
use muaddib.Capability.Rights
use muaddib.Capability.{Capability, CapError}
use muaddib.Capability
use muaddib.Process.{Process}
use muaddib.Process
use muaddib.Process.Scheduler
use muaddib.Memory
use muaddib.Workload.Chaos.{region, CapModel, RegionModel, object_id, predict_check}
use muaddib.Workload.Chaos.Failures.{
  Failure, table_differs, capability_differs, liveness_differs, region_count_differs, bytes_differ,
}
use muaddib.Workload.Chaos.World.{World, ProcModel}
use muaddib.Workload.Chaos.Answers.{
  same_cap_error, same_memory_error, same_numbers, same_unit, same_result,
}
use muaddib.Workload.Chaos.Batches.{same_obj}
use muaddib.Workload.Chaos.Execute.Access.{answered, ensure}

-- The loop over one mirror's entries.
unfoldable pub sweep_table : World → Process → Map CapModel → Result Failure (Unit {0})
unfolding Process.capability object_id
sweep_table w proc [] = ok tt
sweep_table w proc ((h, m) ∷ table) = do
  cap ← expect (Process.capability proc h)
  object ← object_id w.regions w.channel_objects m.obj
  ensure (cap.object == object && cap.rights == m.rights) capability_differs
  sweep_table w proc table

unfoldable pub sweep_procs : World → List ProcModel → Result Failure (Unit {0})
unfolding sweep_table Scheduler.process Process.handles same_numbers
sweep_procs w [] = ok tt
sweep_procs w (pm ∷ pms) = do
  proc ← expect (Scheduler.process w.sched pm.pid)
  ensure (same_numbers (Process.handles proc) (Map.keys pm.table)) table_differs
  sweep_table w proc pm.table
  sweep_procs w pms

unfoldable pub sweep_stash : World → List (Capability × CapModel) → Result Failure (Unit {0})
unfolding Capability.check predict_check same_cap_error
sweep_stash w [] = ok tt
sweep_stash w ((cap, m) ∷ stash) = do
  real ← answered (Capability.check w.k cap Rights.none)
  predicted ← answered (predict_check w.regions w.channel_objects m Rights.none)
  ensure (same_result same_cap_error same_unit real predicted) liveness_differs
  sweep_stash w stash

abbrev pub may : Result CapError (Unit {0}) → Result Failure Bool
may (ok u) = ok true
may (err e) = ok false
may panic = panic

-- Whether an entry of the stash is one of region `r` and may read it.
unfoldable pub audits : World → ℕ → CapModel → Result Failure Bool
unfolding predict_check
audits w r m =
    if same_obj m.obj (region r)
    then may (predict_check w.regions w.channel_objects m Rights.read)
    else ok false

-- The first entry that does.
abbrev pub find_auditor :
    World → ℕ → List (Capability × CapModel) → Result Failure (Option Capability)
find_auditor w r [] = ok none
find_auditor w r ((cap, m) ∷ stash) =
    let rest = find_auditor w r stash in
    audits w r m >>= λ passed. if passed then ok (some cap) else rest

unfoldable pub auditor : World → ℕ → Result Failure (Option Capability)
unfolding audits
auditor w r = find_auditor w r w.stash

abbrev pub sweep_bytes : World → RegionModel → Option Capability → Result Failure (Unit {0})
sweep_bytes w model none = ok tt
sweep_bytes w model (some cap) = do
  real ← answered (Memory.inspect w.mem w.k cap (λ bytes. bytes))
  ensure (same_result same_memory_error same_numbers real (ok model.bytes)) bytes_differ

-- The loop over the regions from number `r` on.
unfoldable pub sweep_regions : World → ℕ → List RegionModel → Result Failure (Unit {0})
unfolding auditor Memory.inspect same_memory_error same_numbers
sweep_regions w r [] = ok tt
sweep_regions w r (model ∷ models) = do
  cap ← auditor w r
  sweep_bytes w model cap
  sweep_regions w (suc r) models

unfoldable pub sweep : World → Result Failure (Unit {0})
unfolding sweep_procs sweep_stash sweep_regions Memory.region_count
sweep w = do
  sweep_procs w w.procs
  sweep_stash w w.stash
  ensure (Memory.region_count w.mem == length (filter (λ model. model.alive) w.regions))
      region_count_differs
  sweep_regions w 0 w.regions
