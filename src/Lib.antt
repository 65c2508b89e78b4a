-- ===== src/Lib.antt =====
-- A model of the muaddib microkernel: capabilities, processes, channels, regions and clocks.
--
-- The parts, and the file of each:
--   Capability (crates/capability/src/lib.rs) holds the kernel's table of objects, a map from an
--   object to its epoch. A capability is live when its epoch is that of the table; `check` is the
--   one test that every other part makes. Its rights are Capability/Rights
--   (crates/capability/src/rights.rs). Check, Derivation and Revocation are about its operations,
--   and Calls about sequences of them.
--   Clock (crates/clock/src) has a Lamport clock (Clock/Lamport, lamport.rs) and a vector clock
--   (Clock/Vector, vector.rs) for each process. Vector/Order and Vector/Merge are about the order
--   of clocks, Stamps about the events of lib.rs, and History about runs of many processes, with
--   the graph of the causes of their events.
--   Process (crates/process/src/process.rs) is a process with its private table of capabilities.
--   Process/Transfer (transfer.rs) validates a batch of grants, `resolve_grants`, and then commits
--   it, `apply_grants`. Process/Scheduler (scheduler.rs) spawns processes and schedules them.
--   Ipc (crates/ipc/src/lib.rs) sends messages through queues. A message carries a batch of grants.
--   Memory (crates/memory/src/lib.rs) has the regions of bytes that capabilities name.
--   Workload (crates/workload/src) has the programs that run on the kernel: Rng (rng.rs), the work
--   on a batch's bytes, Data (data.rs), the ring of processes with capabilities, Pipeline
--   (pipeline.rs, with `step` in Pipeline/Step, the producer's loop in Step/Drain and Step/Drained,
--   and `run` in Pipeline/Run), and the same ring without a kernel, Baseline (baseline.rs).
--   Baseline/Progress measures the work left in a ring, Baseline/Order has the order of its
--   batches, and Baseline/Results has the invariant of its runs. Chaos (chaos.rs) is the chaos
--   harness, which runs random operations on the kernel beside a shadow model: the predictions of
--   the model are in Chaos, the operations in Chaos/Ops, the world in Chaos/World, the model of a
--   batch of grants in Chaos/Batches, `execute` in Chaos/Execute with one file for the operations
--   on one capability, Execute/Access, and one for those that pass grants, Execute/Exchange, the
--   audit in Chaos/Sweep (with Sweep/Auditors and Sweep/Passed, about an audit that passes),
--   `check_causality` in Chaos/Causality, and the runs in Chaos/Run. Chaos/Tracking relates the
--   shadow model to the kernel: Answered and Access are about reads and writes, Ended about revokes
--   and destructions, Mirrors and Picked about the tables and the stash, Swept about the audit,
--   Accepted, Moved, Delivered and Exchanged about batches, Allocated, Installed, Recorded and
--   Started about fresh objects, events and the first world, and Reached about schedules.
--   Map is the map that all of them use. Prelude has the shared helpers, and Tests runs the model
--   on concrete states.
--
-- Conventions. A method on `&mut self` takes the old state and returns the new one. `Result` has a
-- third case, `panic`, for an `expect` that fails or an index out of range, so that a theorem can
-- exclude panics. On an error the state is the old one: each method of the kernel's crates writes
-- only after its last check, and a run of the ring ends at an error and drops its report. Numbers
-- are natural numbers; a `u64` or `u32` counter wraps at 2 ^ 64 or 2 ^ 32, as in a release build (a
-- debug build panics there instead), and theorems that need a counter not to wrap say so. `usize`
-- has 64 bits. A `HashMap` and a `BTreeMap` are both an association list in the order of its keys.
--
-- Fuel. The kernel's loops are structural in a list. `Rng.fill_chunks` has as much fuel as the
-- buffer has bytes, at least one for each chunk of eight. `Pipeline.Step.drain` says `none` when
-- its fuel is used up; `produce` gives it one turn more than messages wait in the channel, since
-- each turn but the last takes one. `Baseline.run_loop` ends within a round of turns for each hop
-- of each batch, and one more round. `Pipeline.Run.run_loop` takes any fuel, and `none` says that
-- it has not ended. The steps of a chaos run are structural in their number.
--
-- Texts. What `format!` makes of a line of the harness's log is a parameter, a function from the
-- values that the line shows to bytes, which the log's hash reads; the message of a failed check is
-- a constructor, and the text of an operation is the operation. The names of the operations in the
-- summary are numbers in the order of the names. A panic that `catch_unwind` turns into a failure
-- is the third case of `Result`.
--
-- Not modelled: texts of errors (their `Display` implementations), and the programs, benchmarks and
-- tests around the kernel. Of the chaos harness, what Tracking says of spawning, sending and
-- receiving is about their batches of grants, not about the whole operations.
mod Prelude
pub mod Map
pub mod Capability
pub mod Clock
pub mod Process
pub mod Ipc
pub mod Memory
pub mod Workload
mod Tests
