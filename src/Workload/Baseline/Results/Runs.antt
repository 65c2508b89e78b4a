-- ===== src/Workload/Baseline/Results/Runs.antt =====
-- crates/workload/src/baseline.rs: `run_baseline` from its start.
use muaddib.Prelude.{
  ◌∙◌, ℕ, zero, suc, ◌+◌, ◌-◌, ◌<◌, ◌≤◌, ◌≡◌, refl, Bool, some, List, [], ◌∷◌, ◌++◌, length,
  get_elem?, arith, All, replicate, length-replicate, length-append, u64_mod, eq_of_some,
}
use muaddib.Workload.Pipeline.{PipelineConfig}
use muaddib.Workload.Baseline.{
  Kind, supervisor, producer, sink, transformers, enumerate, start, run_baseline, Message,
}
use mathlib.Core.List.{append-nil}
use muaddib.Workload.Baseline.Order.{flow}
use muaddib.Workload.Baseline.Progress.{times, load, weigh}
use muaddib.Workload.Baseline.Results.{IsGood, IsWhole, KindFits, Fits}
use muaddib.Workload.Baseline.Results.Turns.{rounds, Ends, run_loop-Ends}

length-enumerate :
    (clocks : Bool) (i : ℕ) (kinds : List Kind) → length (enumerate clocks i kinds) ≡ length kinds
length-enumerate clocks i [] = refl
length-enumerate clocks i (k ∷ kinds) = omega (arith, length-enumerate clocks (suc i) kinds)

length-transformers : (n : ℕ) → length (transformers n) ≡ n
length-transformers zero = refl
length-transformers (suc n) = omega (arith, length-transformers n)

enumerate-Fits :
    (config : PipelineConfig) (clocks : Bool) (i : ℕ) (kinds : List Kind)
    → All (KindFits config) kinds
    → Fits config (enumerate clocks i kinds)
enumerate-Fits config clocks i [] h j s e = cc
enumerate-Fits config clocks i (k ∷ kinds) h zero s e = rw (← eq_of_some e) h.0
enumerate-Fits config clocks i (k ∷ kinds) h (suc j) s e =
    enumerate-Fits config clocks (suc i) kinds h.1 j s e

transformers_fit :
    (config : PipelineConfig) (n : ℕ)
    → n ≤ config.stages
    → All (KindFits config) (transformers n ++ producer ∷ [])
transformers_fit config zero h = (tt, tt)
transformers_fit config (suc n) h = (omega arith, transformers_fit config n (omega arith))

empty_queue : (n i : ℕ) (q : List Message) → get_elem? (replicate n []) i ≡ some q → q ≡ []
empty_queue zero i q e = cc
empty_queue (suc n) zero q e = ground arith
empty_queue (suc n) (suc i) q e = empty_queue n i q e

weigh-replicate : (w n : ℕ) → weigh w (replicate n []) ≡ 0
weigh-replicate w zero = refl
weigh-replicate w (suc n) = omega (arith, weigh-replicate (w - 1) n)

flow-replicate : (n : ℕ) → flow (replicate n []) ≡ []
flow-replicate zero = refl
flow-replicate (suc n) = append-nil (flow (replicate n [])) ∙ flow-replicate n

blank_pool :
    (config : PipelineConfig) (n : ℕ)
    → All (IsWhole config) (replicate n (replicate config.region_size 0))
blank_pool config zero = tt
blank_pool config (suc n) = (length-replicate config.region_size 0, blank_pool config n)

start-IsGood : (config : PipelineConfig) (clocks : Bool) → IsGood config (start config clocks)
unfolding start
start-IsGood config clocks = record {
  chan_count = length-replicate (config.stages + 1) [];
  stage_count = omega (
    arith,
    length-enumerate clocks 2 (transformers config.stages ++ producer ∷ []),
    length-append (transformers config.stages) (producer ∷ []),
    length-transformers config.stages,
  );
  fits =
      enumerate-Fits config clocks 0
        (supervisor ∷ sink ∷ (transformers config.stages ++ producer ∷ []))
        (tt, (tt, transformers_fit config config.stages (omega arith)));
  emitted = omega arith;
  travels = λ i q e. rw (empty_queue (config.stages + 1) i q e) tt;
  back = tt;
  free = blank_pool config config.pool;
  done = tt;
  in_order = flow-replicate (config.stages + 1);
}

load-start :
    (config : PipelineConfig) (clocks : Bool)
    → load config (start config clocks) ≤ times config.batches (config.stages + 3)
unfolding start
load-start config clocks =
    let all : config.batches - 0 ≡ config.batches = omega arith in
    rw all (omega (arith, weigh-replicate (config.stages + 2) (config.stages + 1)))

-- With fuel for a round of turns before every hop, a baseline run ends, and never in a panic:
-- either it stalls, or it returns exactly one result for each batch, in the order of the batches,
-- each with the checksum that `reference_checksum` computes for its batch.
pub run_baseline-Ends :
    (fuel : ℕ) (config : PipelineConfig) (clocks : Bool)
    → config.batches < u64_mod
    → config.stages + 4 < u64_mod
    → rounds (config.stages + 3) (times config.batches (config.stages + 3)) + (config.stages + 4)
      ≤ fuel
    → Ends config (run_baseline fuel config clocks)
unfolding run_baseline start
run_baseline-Ends fuel config clocks small few enough =
    run_loop-Ends fuel config (start config clocks) 0 0 (times config.batches (config.stages + 3))
      small few (start-IsGood config clocks) (load-start config clocks) (omega arith) (omega arith)
