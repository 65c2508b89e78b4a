-- ===== src/Tests/Runs.antt =====
-- Short runs of both pipelines.
use muaddib.Prelude.{
  ◌<◌, get_elem?, arith, ℕ, ◌≡◌, refl, true, false, some, none, Option, List, [], ◌∷◌, Result, ok,
  Bool, length, ◌+◌, ◌||◌, ltb,
}
use muaddib.Tests.Scene.{program, kernel, scheduler, channels, regions, endpoint}
use muaddib.Workload.Rng.{SplitMix64, below, fill, le_bytes}
use muaddib.Workload.Rng
use muaddib.Workload.Rng.Words.{below_lt}
use muaddib.Workload.Rng.Fill.{fill_at, nth_u64}
use muaddib.Workload.Data.Transform.{transform-injective}
use muaddib.Workload.Pipeline.Step.{drain, waiting}
use muaddib.Workload.Pipeline.Step.Drain.{drain_enough}
use muaddib.Workload.Pipeline.Step.Drained.{drain-eq_ok}
use muaddib.Workload.Baseline.Results.Turns.{Ends}
use muaddib.Workload.Baseline.Results.Runs.{run_baseline-Ends}
use muaddib.Workload.Data.{reference_checksum}
use muaddib.Clock
use muaddib.Workload.Pipeline.{
  PipelineConfig, PipelineError, BatchResult, KernelPipeline, PipelineReport, Stage, producer,
}
use muaddib.Workload.Pipeline.Run.{run_kernel_pipeline, no_report}
use muaddib.Workload.Baseline.{run_baseline}
use muaddib.Workload.Baseline

abbrev config : PipelineConfig
config = record { batches = 2; region_size = 3; pool = 1; stages = 1; seed = 5; trace = false }

below_lt_example : (r' : SplitMix64) × (i : ℕ) × (below (Rng.new 7) 10 ≡ ok (r', i)) × (i < 10)
below_lt_example = below_lt (Rng.new 7) 10 (omega arith)

fill_at_example :
    get_elem? (fill (Rng.new 42) (1 ∷ 2 ∷ 3 ∷ [])).1 2
    ≡ get_elem? (le_bytes 8 (nth_u64 (Rng.new 42) 0)) 2
fill_at_example = fill_at (Rng.new 42) (1 ∷ 2 ∷ 3 ∷ []) 2

transform-injective_example : ◌≡◌ {A = List ℕ} (1 ∷ 255 ∷ []) (1 ∷ 255 ∷ [])
transform-injective_example =
    transform-injective 3 (1 ∷ 255 ∷ []) (1 ∷ 255 ∷ []) (omega arith, (omega arith, tt))
      (omega arith, (omega arith, tt)) refl

abbrev pipeline : KernelPipeline
pipeline = record {
  config = config;
  kernel = kernel;
  sched = scheduler;
  channels = channels;
  memory = regions;
  stages = [];
}

abbrev return_stage : Stage
return_stage = record {
  pid = 0;
  role = producer;
  input = some 1;
  output = none;
  free_regions = [];
  next_batch = 0;
}

drain_enough_example :
    (result : Result PipelineError (KernelPipeline × Stage × PipelineReport × Bool)) × (drain 2
        pipeline return_stage endpoint no_report false
      ≡ some result)
    × (drain 4 pipeline return_stage endpoint no_report false ≡ some result)
unfolding program waiting
drain_enough_example =
    drain_enough 1 3 pipeline return_stage endpoint no_report false (omega arith) (omega arith)

abbrev Drained : Type 0
Drained = KernelPipeline × Stage × PipelineReport × Bool

abbrev or_start : Option (Result PipelineError Drained) → Drained
or_start (some (ok after)) = after
or_start _ = (pipeline, return_stage, no_report, false)

-- The loop over the one message of the channel.
abbrev after_drain : Drained
unfolding drain
after_drain = or_start (drain 2 pipeline return_stage endpoint no_report false)

drain-eq_ok_example :
    (waiting after_drain.0 endpoint ≡ 0)
    × (length after_drain.1.free_regions
        ≡ length return_stage.free_regions + waiting pipeline endpoint)
    × (after_drain.3 ≡ (false || ltb 0 (waiting pipeline endpoint)))
unfolding program drain
drain-eq_ok_example =
    drain-eq_ok 2 pipeline after_drain.0 return_stage after_drain.1 endpoint no_report after_drain.2
      false after_drain.3 refl

run_baseline-Ends_example : Ends config (run_baseline 45 config true)
run_baseline-Ends_example =
    run_baseline-Ends 45 config true (omega arith) (omega arith) (omega arith)

abbrev kernel_results :
    Option (Result PipelineError (KernelPipeline × PipelineReport)) → List BatchResult
kernel_results (some (ok (p, report))) = report.results
kernel_results _ = []

abbrev baseline_results : Option (Result PipelineError Baseline.State) → List BatchResult
baseline_results (some (ok s)) = s.report.results
baseline_results _ = []

baseline_run :
    baseline_results (run_baseline 30 config true)
    ≡ record { batch = 0; checksum = reference_checksum 5 0 3 1 }
      ∷ record { batch = 1; checksum = reference_checksum 5 1 3 1 }
      ∷ []
unfolding program run_baseline reference_checksum Clock.send_event
baseline_run = refl

kernel_run :
    kernel_results (run_kernel_pipeline 30 config) ≡ baseline_results (run_baseline 30 config true)
unfolding program run_baseline run_kernel_pipeline Clock.send_event
kernel_run = refl
