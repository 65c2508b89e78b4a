-- ===== src/Clock/Stamps.antt =====
-- crates/clock/src/lib.rs: the clocks of a process before and after one event.
use muaddib.Prelude.{
  ℕ, ◌+◌, ◌≤◌, ◌<◌, ◌≡◌, true, arith, max, next_u64, u64_mod, ◌==◌, if◌then◌else◌,
}
use muaddib.Clock.Vector.{VectorClock, get, tick, merge, before, compare, is_before}
use muaddib.Clock.Vector
use muaddib.Clock.Vector.Order.{below, compare_iff}
use muaddib.Clock.Vector.Merge.{IsValid, get-tick, get-merge}
use muaddib.Clock.{Stamp, EventClock, current, receive_event, happened_before}

-- A clock below another everywhere, and strictly at one process, happened before it.
pub happened_before_of_below :
    (a b : Stamp) (q : ℕ)
    → ((p : ℕ) → get a.vector p ≤ get b.vector p)
    → get a.vector q < get b.vector q
    → happened_before a b ≡ true
unfolding happened_before
happened_before_of_below a b q le lt =
    rw ((compare_iff a.vector b.vector before).1 (below le q lt), Vector.happened_before)

-- No counter that the next event of the clock would raise is at its limit.
abbrev pub HasRoom : EventClock → Stamp → Type 0
HasRoom c sent =
    (max (get c.vector c.process) (get sent.vector c.process) + 1 < u64_mod)
    × (max c.lamport.time sent.lamport + 1 < u64_mod)

-- A receive happened after the send that it answers and after the last event of its own process,
-- by the vector clocks and by the Lamport clocks.
pub receive_later :
    (c : EventClock) (sent : Stamp)
    → IsValid sent.vector
    → HasRoom c sent
    → let received = (receive_event c sent).1 in
      (happened_before sent received ≡ true)
      × (sent.lamport < received.lamport)
      × (happened_before (current c) received ≡ true)
      × ((current c).lamport < received.lamport)
unfolding receive_event
receive_later c sent v (room, room') = (
  happened_before_of_below sent (receive_event c sent).1 c.process
      (λ p. ground (arith, at p, at' p)) (ground (arith, at c.process, at' c.process)),
  omega arith,
  happened_before_of_below (current c) (receive_event c sent).1 c.process
      (λ p. ground (arith, at p, at' p)) (ground (arith, at c.process, at' c.process)),
  omega arith,
)
  where
    at :
        (p : ℕ)
        → get (tick (merge c.vector sent.vector) c.process) p ≡ (
            if p == c.process
            then next_u64 (get (merge c.vector sent.vector) c.process)
            else get (merge c.vector sent.vector) p)
    at p = get-tick (merge c.vector sent.vector) c.process p

    at' : (p : ℕ) → get (merge c.vector sent.vector) p ≡ max (get c.vector p) (get sent.vector p)
    at' p = get-merge c.vector sent.vector p v
