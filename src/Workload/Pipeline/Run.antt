-- ===== src/Workload/Pipeline/Run.antt =====
-- crates/workload/src/pipeline.rs: `run`, which gives turns to the stages until the sink has
-- finished every batch.
use muaddib.Prelude.{
  ℕ, zero, suc, Option, none, some, List, [], ◌∷◌, Result, ok, err, panic, ◌>>=◌, expect, length,
  ltb, ◌==◌, if◌then◌else◌, next_u64,
}
use muaddib.Process.Scheduler.{schedule_next}
use muaddib.Workload.Pipeline.{
  Role, supervisor, producer, sink, transformer, Action, sends, receives, BatchResult, Stats,
  PipelineReport, PipelineError, ipc, memory, missing_region, stalled, Stage, KernelPipeline,
  PipelineConfig, cap_of,
}
use muaddib.Workload.Pipeline
use muaddib.Workload.Pipeline.Step.{step}

abbrev position_from : ℕ → ℕ → List Stage → Option ℕ
position_from i pid [] = none
position_from i pid (s ∷ rest) = if s.pid == pid then some i else position_from (suc i) pid rest

-- One turn of `run`, with the streak of idle turns.
unfoldable pub turn :
    KernelPipeline → PipelineReport → ℕ → Result PipelineError (KernelPipeline × PipelineReport × ℕ)
unfolding schedule_next step
turn p report streak = do
  let (sched, next) = schedule_next p.sched
  pid ← expect next
  let stats = record report.stats { scheduler_turns = next_u64 report.stats.scheduler_turns }
  index ← expect (position_from 0 pid p.stages)
  (p', report', progressed) ←
      step (record p { sched = sched }) index (record report { stats = stats })
  if progressed
      then ok (p', report', 0)
      else (if ltb (length p.stages) (next_u64 streak)
          then err (stalled report'.stats.scheduler_turns)
          else ok (
            p',
            record report' {
              stats = record report'.stats { idle_turns = next_u64 report'.stats.idle_turns };
            },
            next_u64 streak,
          ))

-- The loop of `run`; `none` says that it has not ended after `fuel` turns.
unfoldable pub run_loop :
    ℕ
    → KernelPipeline
    → PipelineReport
    → ℕ
    → Option (Result PipelineError (KernelPipeline × PipelineReport))
unfolding turn
run_loop zero p report streak =
    if ltb (length report.results) p.config.batches then none else some (ok (p, report))
run_loop (suc fuel) p report streak =
    if ltb (length report.results) p.config.batches
    then elim (turn p report streak) [
      | ok (p', report', streak') ↦ run_loop fuel p' report' streak'
      | err e ↦ some (err e)
      | panic ↦ some panic
    ]
    else some (ok (p, report))

abbrev pub no_report : PipelineReport
no_report = record {
  results = [];
  trace = [];
  stats = record { scheduler_turns = 0; idle_turns = 0; messages = 0; bytes_processed = 0 };
}

unfoldable pub run :
    ℕ → KernelPipeline → Option (Result PipelineError (KernelPipeline × PipelineReport))
unfolding run_loop
run fuel p = run_loop fuel p no_report 0

unfoldable pub run_kernel_pipeline :
    ℕ → PipelineConfig → Option (Result PipelineError (KernelPipeline × PipelineReport))
unfolding run Pipeline.new
run_kernel_pipeline fuel config = elim (Pipeline.new config) [
  | ok p ↦ run fuel p
  | err e ↦ some (err e)
  | panic ↦ some panic
]
