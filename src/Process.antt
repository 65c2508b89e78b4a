-- ===== src/Process.antt =====
-- crates/process/src/process.rs: a process, its private table of capabilities, and its clocks. A
-- `ProcessId` is its `u64`, and a `Handle` its `u32`.
pub mod Transfer
pub mod Scheduler
pub mod Table
use muaddib.Prelude.{ℕ, Option, List, [], ◌∷◌, next_u32}
use muaddib.Map.{Map}
use muaddib.Map
use muaddib.Capability.{Capability}
use muaddib.Clock.{Stamp, EventClock}
use muaddib.Clock

pub record Process : Type 0 where
  pub id : ℕ
  pub capabilities : Map Capability
  pub next_handle : ℕ
  pub clock : EventClock

abbrev pub new : ℕ → Process
new id = record { id = id; capabilities = Map.empty; next_handle = 0; clock = Clock.new id }

unfoldable pub grant : Process → Capability → Process × ℕ
grant p c = (
  record p {
    capabilities = Map.insert p.next_handle c p.capabilities;
    next_handle = next_u32 p.next_handle;
  },
  p.next_handle,
)

unfoldable pub capability : Process → ℕ → Option Capability
capability p handle = Map.get handle p.capabilities

unfoldable pub take : Process → ℕ → Process × Option Capability
unfolding capability
take p handle = (record p { capabilities = Map.remove handle p.capabilities }, capability p handle)

-- The handles of the table, in rising order.
unfoldable pub handles : Process → List ℕ
handles p = Map.keys p.capabilities

unfoldable pub handle_count : Process → ℕ
handle_count p = Map.len p.capabilities

unfoldable pub clock_stamp : Process → Stamp
unfolding Clock.current
clock_stamp p = Clock.current p.clock

unfoldable pub record_local_event : Process → Process × Stamp
unfolding Clock.local_event
record_local_event p = let (c, s) = Clock.local_event p.clock in (record p { clock = c }, s)

unfoldable pub record_send : Process → Process × Stamp
unfolding Clock.send_event
record_send p = let (c, s) = Clock.send_event p.clock in (record p { clock = c }, s)

unfoldable pub record_receive : Process → Stamp → Process × Stamp
unfolding Clock.receive_event
record_receive p sent = let (c, s) = Clock.receive_event p.clock sent in (record p { clock = c }, s)

-- The loop that grants a list of capabilities, with the handles that they get.
unfoldable pub grant_all : Process → List Capability → Process × List ℕ
unfolding grant
grant_all p [] = (p, [])
grant_all p (c ∷ cs) =
    let (p', handle) = grant p c in let (p'', rest) = grant_all p' cs in (p'', handle ∷ rest)
