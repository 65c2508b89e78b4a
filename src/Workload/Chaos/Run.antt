-- ===== src/Workload/Chaos/Run.antt =====
-- crates/workload/src/chaos.rs: `run_chaos`, a run of a seeded schedule. The text that a failure
-- shows of its operation stands here as a value.
use muaddib.Prelude.{
  ℕ, zero, suc, ◌-◌, Option, none, some, List, [], ◌∷◌, Result, ok, err, panic, ◌>>=◌, ◌>>◌, length,
  bit_xor, leb, if◌then◌else◌,
}
use muaddib.Workload.Rng.{SplitMix64}
use muaddib.Workload.Rng
use muaddib.Workload.Chaos.{RegionModel}
use muaddib.Workload.Chaos.Failures.{Failure, kernel_panicked}
use muaddib.Workload.Chaos.Ops.{Op, generate}
use muaddib.Workload.Chaos.World.{World, ChaosSummary, Entry, modify}
use muaddib.Workload.Chaos.World
use muaddib.Workload.Chaos.Causality.{check_causality}
use muaddib.Workload.Chaos.Execute.{execute}
use muaddib.Workload.Chaos.Sweep.{sweep, auditor}

-- `Fault::CorruptModelAt`.
pub data Fault : Type 0 where
  corrupt_model_at : (step : ℕ) → Fault

pub record ChaosConfig : Type 0 where
  pub seed : ℕ
  pub steps : ℕ
  pub fault : Option Fault

-- Where a run is: its setup, an operation at work or under audit, or the last check.
pub data Phase : Type 0 where
  setup causality_check : Phase
  executing sweeping : Op → Phase

pub record ChaosFailure : Type 0 where
  pub seed : ℕ
  pub steps : ℕ
  pub step : ℕ
  pub op : Phase
  pub message : Failure

-- What the loop changes: the generator, the world, and the fault that is pending.
pub record State : Type 0 where
  pub rng : SplitMix64
  pub world : World
  pub fault_pending : Option Fault

abbrev flip_first : List ℕ → List ℕ
flip_first [] = []
flip_first (b ∷ bs) = bit_xor b 0xFF ∷ bs

-- The first region from number `r` on that has a byte and an auditor.
unfoldable pub find_target : World → ℕ → List RegionModel → Result Failure (Option ℕ)
unfolding auditor
find_target w r [] = ok none
find_target w r (model ∷ models) =
    let rest = find_target w (suc r) models in
    elim model.bytes [
      | [] ↦ rest
      | b ∷ bs ↦ auditor w r >>= λ cap. elim cap [ none ↦ rest | some c ↦ ok (some r) ]
    ]

abbrev corrupt : State → Option ℕ → Result Failure State
corrupt s none = ok s
corrupt s (some r) = do
  regions ← modify (λ model. record model { bytes = flip_first model.bytes }) r s.world.regions
  ok (record s { world = record s.world { regions = regions }; fault_pending = none })

abbrev inject_pending : ℕ → State → Option Fault → Result Failure State
inject_pending step s none = ok s
inject_pending step s (some (corrupt_model_at at')) =
    if leb at' step then (find_target s.world 0 s.world.regions >>= corrupt s) else ok s

unfoldable pub inject : ℕ → State → Result Failure State
unfolding find_target modify
inject step s = inject_pending step s s.fault_pending

-- What a check says is a failure at a step, and a panic is a failure of the kernel.
abbrev pub at_step {ℓ} :
    {A : Type ℓ} → ChaosConfig → ℕ → Phase → Phase → Result Failure A → Result ChaosFailure A
at_step config step op progress (ok a) = ok a
at_step config step op progress (err message) =
    err
      (record { seed = config.seed; steps = config.steps; step = step; op = op; message = message })
at_step config step op progress panic = err (record {
  seed = config.seed;
  steps = config.steps;
  step = step;
  op = progress;
  message = kernel_panicked;
})

module _ (render : Entry → List ℕ) (config : ChaosConfig) where
  -- The steps from number `step` on, `n` of them.
  unfoldable pub run_loop : ℕ → ℕ → Phase → State → Result ChaosFailure State
  unfolding generate execute inject sweep
  run_loop zero step before s = ok s
  run_loop (suc n) step before s = do
    (rng, op) ← at_step config (step - 1) before before (generate (length s.world.procs) s.rng)
    let now = executing op
    w ← at_step config step now now (execute render s.world op)
    s' ← at_step config step now now (inject step (record s { rng = rng; world = w }))
    at_step config step (sweeping op) now (sweep s'.world)
    run_loop n (suc step) now s'

  abbrev summarise : World → ChaosSummary
  summarise w = record w.summary {
    seed = config.seed;
    steps = config.steps;
    events = length w.stamps;
    log_hash = w.log_hash;
  }

  unfoldable pub run_chaos : Result ChaosFailure ChaosSummary
  unfolding World.new run_loop check_causality
  run_chaos = do
    w ← at_step config 0 setup setup World.new
    s ←
        run_loop config.steps 0 setup
          (record { rng = Rng.new config.seed; world = w; fault_pending = config.fault })
    at_step config config.steps causality_check causality_check
        (check_causality s.world.stamps s.world.preds)
    ok (summarise s.world)
