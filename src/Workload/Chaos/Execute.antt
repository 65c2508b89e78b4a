-- ===== src/Workload/Chaos/Execute.antt =====
-- crates/workload/src/chaos.rs: `World::execute`, with an arm for each operation.
pub mod Access
pub mod Exchange
use muaddib.Prelude.{ℕ, true, List, [], Result, ok, err, panic, ◌>>=◌}
use muaddib.Process
use muaddib.Workload.Chaos.Failures.{Failure}
use muaddib.Workload.Chaos.Ops.{Op, new_region_name, local_name}
use muaddib.Workload.Chaos.World.{
  World, Entry, new_region_at, local_at, new_region, log, outcome, record_event, real_process,
  pick_cap,
}
use Access.{read_with, write_with, revoke_with, destroy_with, if_picked}
use Exchange.{spawn, send, receive, set_real}

module _ (render : Entry → List ℕ) where
  unfoldable pub execute_new_region : World → ℕ → ℕ → Result Failure World
  unfolding new_region outcome log
  execute_new_region w p size = do
    w₁ ← new_region w p size
    ok (log render (outcome w₁ new_region_name true) (new_region_at p size))

  unfoldable pub execute_local : World → ℕ → Result Failure World
  unfolding real_process Process.record_local_event set_real record_event outcome log
  execute_local w p = do
    proc ← real_process w p
    let (proc', stamp) = Process.record_local_event proc
    w₁ ← set_real w p proc'
    (w₂, event) ← record_event w₁ p stamp []
    ok (log render (outcome w₂ local_name true) (local_at p))

  unfoldable pub execute : World → Op → Result Failure World
  unfolding execute_new_region execute_local spawn send receive pick_cap read_with write_with
      revoke_with destroy_with
  execute w (Op.new_region p size) = execute_new_region w p size
  execute w (Op.local_event p) = execute_local w p
  execute w (Op.spawn parent grants) = spawn render w parent grants
  execute w (Op.send p channel grants) = send render w p channel grants
  execute w (Op.receive p channel) = receive render w p channel
  execute w (Op.read p pick regions_only offset len) =
      pick_cap w p pick regions_only >>= if_picked w (read_with render w offset len)
  execute w (Op.write p pick regions_only offset len byte) =
      pick_cap w p pick regions_only >>= if_picked w (write_with render w offset len byte)
  execute w (Op.revoke p pick) = pick_cap w p pick true >>= if_picked w (revoke_with render w)
  execute w (Op.destroy p pick) = pick_cap w p pick true >>= if_picked w (destroy_with render w)
