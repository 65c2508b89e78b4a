-- ===== src/Workload/Baseline/Results/Turns.antt =====
-- crates/workload/src/baseline.rs: a turn of any stage, and runs of turns.
use muaddib.Prelude.{
  map, ℕ, zero, suc, ◌+◌, ◌-◌, ◌%◌, ◌<◌, ◌≤◌, ◌≡◌, refl, Bool, true, false, Option, some, Result,
  ok, err, length, get_elem?, arith, All, Bool-cases, inl, inr, ◌⊎◌, u64_mod, ltb, next_u64,
  if◌then◌else◌,
}
use native.Mathlib.Nat.{mod-lt}
use muaddib.Workload.Pipeline.{PipelineConfig, PipelineError, Stats, stalled}
use muaddib.Workload.Baseline.{
  State, Stage, Kind, supervisor, producer, sink, transformer, act, run_loop, with_turn, with_idle,
}
use muaddib.Workload.Baseline.Progress.{load, get_elem?-some}
use muaddib.Workload.Baseline.Order.{flow, upto, no_rest, length-map}
use muaddib.Workload.Baseline.Results.{IsGood, IsReference, Works}
use muaddib.Workload.Baseline.Results.Producer.{produce-Works}
use muaddib.Workload.Baseline.Results.Hops.{transform_one-Works, sink_one-Works}

-- In a good state, every stage's turn works.
pub act-Works :
    (config : PipelineConfig) (s : State) (index : ℕ)
    → config.batches < u64_mod
    → IsGood config s
    → index < config.stages + 3
    → Works config s (act config s index)
unfolding act
act-Works config s index small g l =
    let (stage, here) = get_elem?-some s.stages index (omega (arith, g.stage_count)) in
    by_kind stage here stage.kind refl
  where
    by_kind :
        (stage : Stage)
        → get_elem? s.stages index ≡ some stage
        → (kind : Kind) → stage.kind ≡ kind
        → Works config s (act config s index)
    by_kind stage here supervisor e = (s, false, rw (here, e) refl, g, omega arith)
    by_kind stage here producer e = rw (here, e) (produce-Works config s index stage small g here)
    by_kind stage here sink e = rw (here, e) (sink_one-Works config s index stage g here)
    by_kind stage here (transformer i) e =
        rw (here, e)
          (transform_one-Works config s index stage i g here (rw e at (g.fits index stage here)))

-- The turns that suffice for a load: one round of idle turns before each hop.
abbrev pub rounds : ℕ → ℕ → ℕ
rounds n zero = 0
rounds n (suc hops) = suc n + rounds n hops

rounds_le : (n i j : ℕ) → i ≤ j → rounds n i ≤ rounds n j
rounds_le n zero j h = omega arith
rounds_le n (suc i) zero h = absurd (omega arith)
rounds_le n (suc i) (suc j) h = omega (arith, rounds_le n i j (omega arith))

-- The statistics do not matter to a state's goodness.
with_stats-IsGood :
    {config : PipelineConfig} {s : State} (stats : Stats)
    → IsGood config s
    → IsGood config (record s { report = record s.report { stats = stats } })
with_stats-IsGood stats g = record {
  chan_count = g.chan_count;
  stage_count = g.stage_count;
  fits = g.fits;
  emitted = g.emitted;
  travels = g.travels;
  back = g.back;
  free = g.free;
  done = g.done;
  in_order = g.in_order;
}

-- How a run may end: with one result for each batch, in order and all of them right, or stalled.
abbrev pub Ends : PipelineConfig → Option (Result PipelineError State) → Type 0
Ends config r =
    ((s : State) × (r ≡ some (ok s))
      × (map (λ b. b.batch) s.report.results ≡ upto config.batches)
      × All (IsReference config) s.report.results)
    ⊎ ((turns : ℕ) × (r ≡ some (err (stalled turns))))

pub run_loop-Ends :
    (fuel : ℕ) (config : PipelineConfig) (s : State) (turn streak hops : ℕ)
    → config.batches < u64_mod
    → config.stages + 4 < u64_mod
    → IsGood config s
    → load config s ≤ hops
    → streak ≤ config.stages + 3
    → rounds (config.stages + 3) hops + (config.stages + 4 - streak) ≤ fuel
    → Ends config (run_loop fuel config s turn streak)
unfolding run_loop
run_loop-Ends zero config s turn streak hops small few g l idle enough = absurd (omega arith)
run_loop-Ends (suc fuel) config s turn streak hops small few g l idle enough =
    elim (Bool-cases (ltb (length s.report.results) config.batches)) [
      | inr over ↦ inl (s, rw over refl, ordered (ground arith), g.done)
      | inl more ↦
          let (s', b, acted, good, lowered) =
            act-Works config (with_turn s) (turn % length s.stages) small (with_stats-IsGood _ g)
              (rw (g.stage_count) (mod-lt turn (omega arith))) in
          by_progress
            (λ s'' turn' streak' hops' g'.
              run_loop-Ends fuel config s'' turn' streak' hops' small few g')
            more s' b acted good lowered
    ]
  where
    ordered :
        config.batches ≤ length s.report.results
        → map (λ b. b.batch) s.report.results ≡ upto config.batches
    ordered enough_results =
        no_rest (map (λ b. b.batch) s.report.results) (flow s.chan) s.next_batch config.batches
          g.in_order g.emitted (omega (arith, length-map (λ b. b.batch) s.report.results))

    by_progress :
        ((s'' : State) (turn' streak' hops' : ℕ)
          → IsGood config s''
          → load config s'' ≤ hops'
          → streak' ≤ config.stages + 3
          → rounds (config.stages + 3) hops' + (config.stages + 4 - streak') ≤ fuel
          → Ends config (run_loop fuel config s'' turn' streak'))
        → ltb (length s.report.results) config.batches ≡ true
        → (s' : State) (b : Bool) → act config (with_turn s) (turn % length s.stages) ≡ ok (s', b)
        → IsGood config s'
        → (if b then suc (load config s') else load config s') ≤ load config s
        → Ends config (run_loop (suc fuel) config s turn streak)
    by_progress later more s' true acted good lowered =
        let spent = rounds_le (config.stages + 3) (suc (load config s')) hops (omega arith) in
        rw (more, acted)
          (later s' (next_u64 turn) 0 (load config s') good (omega arith) (omega arith)
            (omega arith))
    by_progress later more s' false acted good lowered =
        elim (Bool-cases (ltb (length s.stages) (next_u64 streak))) [
          | inl long ↦ inr (s'.report.stats.scheduler_turns, rw (more, acted, long) refl)
          | inr short ↦
              let next : streak + 1 ≤ config.stages + 3 = ground (arith, g.stage_count) in
              let count : next_u64 streak ≡ streak + 1 = omega arith in
              rw (more, acted, short)
                (later (with_idle s') (next_u64 turn) (next_u64 streak) hops
                  (with_stats-IsGood _ good) (omega arith) (omega arith) (omega arith))
        ]
