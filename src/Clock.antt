-- ===== src/Clock.antt =====
-- crates/clock/src/lib.rs: the stamp of an event, and a process's pair of clocks. The identifiers
-- of processes are numbers (`ProcessId` in the kernel, `usize` in the baseline).
pub mod Lamport
pub mod Vector
pub mod Stamps
pub mod History
use muaddib.Prelude.{ℕ, Bool, ◌&&◌, ◌==◌}

pub record Stamp : Type 0 where
  pub process : ℕ
  pub lamport : ℕ
  pub vector : Vector.VectorClock

-- Lamport's total order compares this pair.
unfoldable pub total_order_key : Stamp → ℕ × ℕ
total_order_key s = (s.lamport, s.process)

unfoldable pub causality : Stamp → Stamp → Vector.Causality
causality a b = Vector.compare a.vector b.vector

unfoldable pub happened_before : Stamp → Stamp → Bool
unfolding Vector.happened_before
happened_before a b = Vector.happened_before a.vector b.vector

-- The derived `==`.
unfoldable pub same_stamp : Stamp → Stamp → Bool
unfolding Vector.eq
same_stamp a b = a.process == b.process && a.lamport == b.lamport && Vector.eq a.vector b.vector

pub record EventClock : Type 0 where
  pub process : ℕ
  pub lamport : Lamport.LamportClock
  pub vector : Vector.VectorClock

abbrev pub new : ℕ → EventClock
new process = record { process = process; lamport = Lamport.new; vector = Vector.new }

unfoldable pub current : EventClock → Stamp
current c = record { process = c.process; lamport = c.lamport.time; vector = c.vector }

unfoldable pub local_event : EventClock → EventClock × Stamp
unfolding current Lamport.tick
local_event c =
    let c' = record c {
      lamport = (Lamport.tick c.lamport).0;
      vector = Vector.tick c.vector c.process;
    } in
    (c', current c')

unfoldable pub send_event : EventClock → EventClock × Stamp
unfolding local_event
send_event c = local_event c

unfoldable pub receive_event : EventClock → Stamp → EventClock × Stamp
unfolding current Lamport.observe
receive_event c sent =
    let c' = record c {
      lamport = (Lamport.observe c.lamport sent.lamport).0;
      vector = Vector.tick (Vector.merge c.vector sent.vector) c.process;
    } in
    (c', current c')
