-- ===== src/Clock/Lamport.antt =====
-- crates/clock/src/lamport.rs: a counter of one process, a wrapping `u64`.
use muaddib.Prelude.{ℕ, next_u64, max}

pub record LamportClock : Type 0 where
  pub time : ℕ

abbrev pub new : LamportClock
new = record { time = 0 }

unfoldable pub tick : LamportClock → LamportClock × ℕ
tick c = let t = next_u64 c.time in (record { time = t }, t)

unfoldable pub observe : LamportClock → ℕ → LamportClock × ℕ
observe c remote = let t = next_u64 (max c.time remote) in (record { time = t }, t)
