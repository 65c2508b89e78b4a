-- ===== src/Process/Scheduler.antt =====
-- crates/process/src/scheduler.rs: spawning, and the ready queue.
pub mod Spawning
pub mod Fairness
use muaddib.Prelude.{
  ℕ, Option, none, some, List, [], ◌∷◌, ◌++◌, Result, ok, err, panic, ◌>>=◌, ok_or, expect, map_err,
  next_u64,
}
use muaddib.Map.{Map}
use muaddib.Map
use muaddib.Capability.{Capability, Kernel}
use muaddib.Process.{Process}
use muaddib.Process
use muaddib.Process.Transfer.{Grant, GrantError, resolve_grants, apply_grants}

pub data ProcessError : Type 0 where
  unknown_process : ℕ → ProcessError
  grant : GrantError → ProcessError

pub record Scheduler : Type 0 where
  pub processes : Map Process
  pub next_process_id : ℕ
  pub ready_queue : List ℕ

abbrev pub new : Scheduler
new = record { processes = Map.empty; next_process_id = 0; ready_queue = [] }

unfoldable pub fresh_id : Scheduler → Scheduler × ℕ
fresh_id s = (record s { next_process_id = next_u64 s.next_process_id }, s.next_process_id)

-- `processes.insert`, then `ready_queue.push_back`.
unfoldable pub enroll : Scheduler → ℕ → Process → Scheduler
enroll s id p = record s {
  processes = Map.insert id p s.processes;
  ready_queue = s.ready_queue ++ id ∷ [];
}

unfoldable pub spawn : Scheduler → List Capability → Scheduler × ℕ
unfolding fresh_id Process.grant_all enroll
spawn s initial =
    let (s', id) = fresh_id s in (enroll s' id (Process.grant_all (Process.new id) initial).0, id)

unfoldable pub spawn_child :
    Scheduler → Kernel → ℕ → List Grant → Result ProcessError (Scheduler × Kernel × ℕ)
unfolding fresh_id Process.grant_all Process.record_send Process.record_receive enroll
spawn_child s k parent grants = do
  parent_proc ← ok_or (Map.get parent s.processes) (unknown_process parent)
  resolved ← map_err grant (resolve_grants k parent_proc grants)
  parent_proc₁ ← expect (Map.get parent s.processes)
  (k', parent_proc', delivered) ← map_err grant (apply_grants k parent_proc₁ grants resolved)
  let (parent_proc'', spawned_at) = Process.record_send parent_proc'
  let (s', child_id) =
      fresh_id (record s { processes = Map.insert parent parent_proc'' s.processes })
  let child = (Process.record_receive (Process.new child_id) spawned_at).0
  ok (enroll s' child_id (Process.grant_all child delivered).0, k', child_id)

unfoldable pub process : Scheduler → ℕ → Option Process
process s id = Map.get id s.processes

-- What a caller writes through `process_mut`.
unfoldable pub set_process : Scheduler → ℕ → Process → Scheduler
set_process s id p = record s { processes = Map.insert id p s.processes }

unfoldable pub process_count : Scheduler → ℕ
process_count s = Map.len s.processes

unfoldable pub schedule_next : Scheduler → Scheduler × Option ℕ
schedule_next s = elim s.ready_queue [
  | [] ↦ (s, none)
  | id ∷ rest ↦ (record s { ready_queue = rest ++ id ∷ [] }, some id)
]
