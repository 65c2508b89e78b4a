-- ===== src/Workload/Pipeline/Step.antt =====
-- crates/workload/src/pipeline.rs: `step`, one turn of one stage. A batch number in a
-- message is its bit pattern, so the casts from and to `i64` are the identity.
pub mod Drain
pub mod Drained
use muaddib.Prelude.{
  ℕ, zero, suc, ◌+◌, ◌%◌, Bool, true, false, Option, none, some, List, [], ◌∷◌, ◌++◌, Result, ok,
  err, panic, ◌>>=◌, ok_or, expect, map_err, get_elem?, length, ltb, ◌==◌, if◌then◌else◌, next_u64,
  u64_mod,
}
use muaddib.Map
use muaddib.Capability.{Capability}
use muaddib.Clock.{Stamp}
use muaddib.Process.Transfer.{Grant, move}
use muaddib.Process.Scheduler.{schedule_next}
use muaddib.Process.Scheduler
use muaddib.Ipc.{Message, Delivery, send, receive}
use muaddib.Memory.{update, inspect}
use muaddib.Workload.Data.{fill_batch, transform, checksum}
use muaddib.Workload.Pipeline.{
  Role, supervisor, producer, sink, transformer, Action, sends, receives, BatchResult, Stats,
  PipelineReport, PipelineError, ipc, memory, missing_region, stalled, Stage, KernelPipeline,
  PipelineConfig, cap_of,
}
use muaddib.Workload.Pipeline

abbrev same_role : Role → Role → Bool
same_role supervisor supervisor = true
same_role producer producer = true
same_role sink sink = true
same_role (transformer i) (transformer j) = i == j
same_role _ _ = false

abbrev pid_of : Role → List Stage → Option ℕ
pid_of role [] = none
pid_of role (s ∷ rest) = if same_role s.role role then some s.pid else pid_of role rest

unfoldable pub process_of : KernelPipeline → Role → Option ℕ
process_of p role = pid_of role p.stages

-- The two calls of a channel, by the process `pid`.
unfoldable pub receive_as :
    KernelPipeline → ℕ → Capability → Result PipelineError (KernelPipeline × Option Delivery)
unfolding receive Scheduler.process Scheduler.set_process
receive_as p pid channel = do
  proc ← expect (Scheduler.process p.sched pid)
  (channels, proc', d) ← map_err ipc (receive p.channels p.kernel channel proc)
  ok (record p { channels = channels; sched = Scheduler.set_process p.sched pid proc' }, d)

unfoldable pub send_as :
    KernelPipeline → ℕ → Capability → List Grant → ℕ → Result PipelineError (KernelPipeline × Stamp)
unfolding send Scheduler.process Scheduler.set_process
send_as p pid channel grants payload = do
  proc ← expect (Scheduler.process p.sched pid)
  (channels, k, proc', sent) ← map_err ipc (send p.channels p.kernel channel proc grants payload)
  ok (
    record p { channels = channels; kernel = k; sched = Scheduler.set_process p.sched pid proc' },
    sent,
  )

unfoldable pub try_send_as :
    KernelPipeline
    → Role
    → Capability
    → List Grant
    → ℕ
    → Result PipelineError (KernelPipeline × Stamp)
unfolding process_of send_as
try_send_as p role channel grants payload = do
  pid ← expect (process_of p role)
  send_as p pid channel grants payload

-- The closure `trace`.
unfoldable pub traced : PipelineConfig → Role → Action → ℕ → Stamp → PipelineReport → PipelineReport
traced config role action batch stamp report =
    if config.trace
    then record report {
      trace =
          report.trace
          ++ record { role = role; action = action; batch = batch; stamp = stamp } ∷ [];
    }
    else report

-- What a stage does with a region that it has worked on.
unfoldable pub hand_on :
    KernelPipeline
    → Stage
    → ℕ
    → ℕ
    → PipelineReport
    → Result PipelineError (KernelPipeline × PipelineReport)
unfolding cap_of send_as traced
hand_on p stage region batch report = do
  let stats = record report.stats {
    bytes_processed = (report.stats.bytes_processed + p.config.region_size) % u64_mod;
  }
  handle ← expect stage.output
  output ← cap_of p.sched stage.pid handle
  (p', sent) ← send_as p stage.pid output (move region ∷ []) batch
  ok (
    p',
    traced p.config stage.role sends batch sent
        (record report { stats = record stats { messages = next_u64 stats.messages } }),
  )

-- The loop of the producer over what has come back. `fuel` bounds its turns: `none` says that it is
-- used up before the loop has ended.
unfoldable pub drain :
    ℕ
    → KernelPipeline
    → Stage
    → Capability
    → PipelineReport
    → Bool
    → Option (Result PipelineError (KernelPipeline × Stage × PipelineReport × Bool))
unfolding receive_as traced
drain zero p stage input report progressed = none
drain (suc fuel) p stage input report progressed = elim (receive_as p stage.pid input) [
  | ok received ↦ elim received.1 [
    | none ↦ some (ok (received.0, stage, report, progressed))
    | some d ↦ elim (get_elem? d.handles 0) [
      | none ↦ some (err missing_region)
      | some region ↦
          drain fuel received.0 (record stage { free_regions = stage.free_regions ++ region ∷ [] })
            input (traced p.config stage.role receives d.payload d.received_at report) true
    ]
  ]
  | err e ↦ some (err e)
  | panic ↦ some panic
]

abbrev pub count_of : Option (List Message) → ℕ
count_of none = 0
count_of (some queue) = length queue

-- How many messages wait in a channel: each turn of `drain` but the last takes one.
unfoldable pub waiting : KernelPipeline → Capability → ℕ
waiting p channel = count_of (Map.get channel.object p.channels.queues)

abbrev set_stage : ℕ → Stage → List Stage → List Stage
set_stage i s [] = []
set_stage zero s (_ ∷ rest) = s ∷ rest
set_stage (suc i) s (t ∷ rest) = t ∷ set_stage i s rest

-- The producer emits its next batch in the region that has been free the longest.
unfoldable pub emit :
    KernelPipeline
    → Stage
    → PipelineReport
    → Bool
    → Result PipelineError (KernelPipeline × Stage × PipelineReport × Bool)
unfolding cap_of update fill_batch hand_on
emit p stage report progressed = elim stage.free_regions [
  | [] ↦ ok (p, stage, report, progressed)
  | region ∷ rest ↦
      if ltb stage.next_batch p.config.batches
      then (cap_of p.sched stage.pid region >>= λ c.
          map_err memory (
            update p.memory p.kernel c
              (λ bytes. (fill_batch p.config.seed stage.next_batch bytes, tt {0})))
          >>= λ updated.
              hand_on (record p { memory = updated.0 }) stage region stage.next_batch report
              >>= λ sent. ok (
                sent.0,
                record stage { free_regions = rest; next_batch = next_u64 stage.next_batch },
                sent.1,
                true,
              ))
      else ok (p, stage, report, progressed)
]

-- What a stage other than the producer does to the bytes of a batch.
unfoldable pub work :
    KernelPipeline
    → Role
    → Capability
    → ℕ
    → PipelineReport
    → Result PipelineError (KernelPipeline × PipelineReport)
unfolding update transform inspect checksum
work p (transformer i) region batch report = do
  (mem, _) ← map_err memory (update p.memory p.kernel region (λ bytes. (transform i bytes, tt {0})))
  ok (record p { memory = mem }, report)
work p _ region batch report = do
  sum ← map_err memory (inspect p.memory p.kernel region checksum)
  ok (
    p,
    record report { results = report.results ++ record { batch = batch; checksum = sum } ∷ [] },
  )

-- The fuel of `drain` is one turn more than messages wait, so the `expect` here, which the source
-- has not, always finds a result.
unfoldable pub produce :
    KernelPipeline
    → Stage
    → PipelineReport
    → Result PipelineError (KernelPipeline × Stage × PipelineReport × Bool)
unfolding cap_of drain waiting emit
produce p stage report = do
  handle ← expect stage.input
  input ← cap_of p.sched stage.pid handle
  drained ← expect (drain (suc (waiting p input)) p stage input report false)
  (p', stage', report', progressed) ← drained
  emit p' stage' report' progressed

unfoldable pub pass_on :
    KernelPipeline
    → Stage
    → PipelineReport
    → Result PipelineError (KernelPipeline × Stage × PipelineReport × Bool)
unfolding cap_of receive_as traced work hand_on
pass_on p stage report = do
  handle ← expect stage.input
  input ← cap_of p.sched stage.pid handle
  (p₁, arrived) ← receive_as p stage.pid input
  elim arrived [
    | none ↦ ok (p₁, stage, report, false)
    | some d ↦ ok_or (get_elem? d.handles 0) missing_region >>= λ region.
        cap_of p₁.sched stage.pid region >>= λ c.
        work p₁ stage.role c d.payload
          (traced p.config stage.role receives d.payload d.received_at report)
        >>= λ worked. hand_on worked.0 stage region d.payload worked.1 >>= λ sent.
            ok (sent.0, stage, sent.1, true)
  ]

-- One turn of the stage at `index`.
unfoldable pub step :
    KernelPipeline
    → ℕ
    → PipelineReport
    → Result PipelineError (KernelPipeline × PipelineReport × Bool)
unfolding produce pass_on
step p index report = do
  stage ← expect (get_elem? p.stages index)
  (p', stage', report', progressed) ← elim stage.role [
    | supervisor ↦ ok (p, stage, report, false)
    | producer ↦ produce p stage report
    | sink ↦ pass_on p stage report
    | transformer i ↦ pass_on p stage report
  ]
  ok (record p' { stages = set_stage index stage' p'.stages }, report', progressed)
