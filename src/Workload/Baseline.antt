-- ===== src/Workload/Baseline.antt =====
-- crates/workload/src/baseline.rs: the ring of `Pipeline` without a kernel. Regions are lists of
-- bytes that move with the messages.
pub mod Order
pub mod Progress
pub mod Results
use muaddib.Prelude.{
  ℕ, zero, suc, ◌+◌, ◌%◌, Bool, true, false, Option, none, some, List, [], ◌∷◌, ◌++◌, map, Result,
  ok, err, panic, ◌>>=◌, expect, get_elem?, length, replicate, ltb, if◌then◌else◌, next_u64,
  u64_mod,
}
use muaddib.Clock.{Stamp, EventClock, send_event, receive_event}
use muaddib.Clock
use muaddib.Workload.Data.{fill_batch, transform, checksum}
use muaddib.Workload.Pipeline.{PipelineConfig, PipelineError, BatchResult, Stats, stalled}

pub record BaselineReport : Type 0 where
  pub results : List BatchResult
  pub stats : Stats

pub data Kind : Type 0 where
  supervisor producer sink : Kind
  transformer : ℕ → Kind

pub record Message : Type 0 where
  pub batch : ℕ
  pub region : List ℕ
  pub stamp : Option Stamp

pub record Stage : Type 0 where
  pub kind : Kind
  pub clock : Option EventClock

-- What the loop of `run_baseline` changes.
pub record State : Type 0 where
  pub stages : List Stage
  pub chan : List (List Message)
  pub returns : List Message
  pub pool : List (List ℕ)
  pub next_batch : ℕ
  pub report : BaselineReport

unfoldable pub send_stamp : Stage → Stage × Option Stamp
unfolding send_event
send_stamp s = elim s.clock [
  | none ↦ (s, none)
  | some c ↦ let (c', stamp) = send_event c in (record s { clock = some c' }, some stamp)
]

unfoldable pub receive_stamp : Stage → Option Stamp → Stage
unfolding receive_event
receive_stamp s none = s
receive_stamp s (some sent) = elim s.clock [
  | none ↦ s
  | some c ↦ record s { clock = some (receive_event c sent).0 }
]

-- `(0..n).rev().map(Kind::Transformer)`.
abbrev pub transformers : ℕ → List Kind
transformers zero = []
transformers (suc i) = transformer i ∷ transformers i

abbrev pub enumerate : Bool → ℕ → List Kind → List Stage
enumerate clocks i [] = []
enumerate clocks i (kind ∷ rest) =
    record { kind = kind; clock = if clocks then some (Clock.new i) else none }
    ∷ enumerate clocks (suc i) rest

unfoldable pub start : PipelineConfig → Bool → State
start config clocks = record {
  stages = enumerate clocks 0 (supervisor ∷ sink ∷ (transformers config.stages ++ producer ∷ []));
  chan = replicate (config.stages + 1) [];
  returns = [];
  pool = replicate config.pool (replicate config.region_size 0);
  next_batch = 0;
  report = record {
    results = [];
    stats = record { scheduler_turns = 0; idle_turns = 0; messages = 0; bytes_processed = 0 };
  };
}

unfoldable pub set {ℓ} : {A : Type ℓ} → ℕ → A → List A → List A
set i a [] = []
set zero a (_ ∷ rest) = a ∷ rest
set (suc i) a (b ∷ rest) = b ∷ set i a rest

-- One region more was worked on and sent.
unfoldable pub counted : PipelineConfig → BaselineReport → BaselineReport
counted config report = record report {
  stats = record report.stats {
    bytes_processed = (report.stats.bytes_processed + config.region_size) % u64_mod;
    messages = next_u64 report.stats.messages;
  };
}

-- The loop of the producer over what has come back.
unfoldable pub collect : Stage → List Message → List (List ℕ) → Stage × List (List ℕ)
unfolding receive_stamp
collect stage [] pool = (stage, pool)
collect stage (m ∷ returns) pool =
    collect (receive_stamp stage m.stamp) returns (pool ++ m.region ∷ [])

abbrev pub nonempty {ℓ} : {A : Type ℓ} → List A → Bool
nonempty [] = false
nonempty (_ ∷ _) = true

-- `chan[i].push_back(m)`.
unfoldable pub push : List (List Message) → ℕ → Message → Result PipelineError (List (List Message))
unfolding set
push chan i m = do queue ← expect (get_elem? chan i); ok (set i (queue ++ m ∷ []) chan)

unfoldable pub produce : PipelineConfig → State → ℕ → Stage → Result PipelineError (State × Bool)
unfolding set counted collect push send_stamp fill_batch
produce config s index stage =
    let (stage', pool) = collect stage s.returns s.pool in
    let drained = record s { stages = set index stage' s.stages; returns = []; pool = pool } in
    if ltb s.next_batch config.batches
    then elim pool [
      | [] ↦ ok (drained, nonempty s.returns)
      | region ∷ rest ↦
          push s.chan 0 (record {
            batch = s.next_batch;
            region = fill_batch config.seed s.next_batch region;
            stamp = (send_stamp stage').1;
          })
          >>= λ chan. ok (
            record s {
              stages = set index (send_stamp stage').0 s.stages;
              chan = chan;
              returns = [];
              pool = rest;
              next_batch = next_u64 s.next_batch;
              report = counted config s.report;
            },
            true,
          )
    ]
    else ok (drained, nonempty s.returns)

unfoldable pub transform_one :
    PipelineConfig → State → ℕ → Stage → ℕ → Result PipelineError (State × Bool)
unfolding set counted push send_stamp receive_stamp transform
transform_one config s index stage i = do
  queue ← expect (get_elem? s.chan i)
  elim queue [
    | [] ↦ ok (s, false)
    | m ∷ rest ↦
        let (stage', stamp) = send_stamp (receive_stamp stage m.stamp) in
        push (set i rest s.chan) (i + 1) (record m { region = transform i m.region; stamp = stamp })
        >>= λ chan. ok (
          record s {
            stages = set index stage' s.stages;
            chan = chan;
            report = counted config s.report;
          },
          true,
        )
  ]

unfoldable pub sink_one : PipelineConfig → State → ℕ → Stage → Result PipelineError (State × Bool)
unfolding set counted send_stamp receive_stamp checksum
sink_one config s index stage = do
  queue ← expect (get_elem? s.chan config.stages)
  elim queue [
    | [] ↦ ok (s, false)
    | m ∷ rest ↦
        let (stage', stamp) = send_stamp (receive_stamp stage m.stamp) in
        ok (
          record s {
            stages = set index stage' s.stages;
            chan = set config.stages rest s.chan;
            returns = s.returns ++ record m { stamp = stamp } ∷ [];
            report = counted config (record s.report {
              results =
                  s.report.results ++ record { batch = m.batch; checksum = checksum m.region } ∷ [];
            });
          },
          true,
        )
  ]

-- What the stage at `index` does in its turn.
unfoldable pub act : PipelineConfig → State → ℕ → Result PipelineError (State × Bool)
unfolding produce transform_one sink_one
act config s index = do
  stage ← expect (get_elem? s.stages index)
  elim stage.kind [
    | supervisor ↦ ok (s, false)
    | producer ↦ produce config s index stage
    | sink ↦ sink_one config s index stage
    | transformer i ↦ transform_one config s index stage i
  ]

abbrev pub with_turn : State → State
with_turn s = record s {
  report = record s.report {
    stats = record s.report.stats { scheduler_turns = next_u64 s.report.stats.scheduler_turns };
  };
}

abbrev pub with_idle : State → State
with_idle s = record s {
  report = record s.report {
    stats = record s.report.stats { idle_turns = next_u64 s.report.stats.idle_turns };
  };
}

-- The loop; `turn` counts the turns so far, and `none` says that it has not ended in `fuel` more.
unfoldable pub run_loop : ℕ → PipelineConfig → State → ℕ → ℕ → Option (Result PipelineError State)
unfolding act
run_loop zero config s turn streak =
    if ltb (length s.report.results) config.batches then none else some (ok s)
run_loop (suc fuel) config s turn streak =
    if ltb (length s.report.results) config.batches
    then elim (act config (with_turn s) (turn % length s.stages)) [
      | ok (s', true) ↦ run_loop fuel config s' (next_u64 turn) 0
      | ok (s', false) ↦
          (let rest = run_loop fuel config (with_idle s') (next_u64 turn) (next_u64 streak) in
            if ltb (length s.stages) (next_u64 streak)
            then some (err (stalled s'.report.stats.scheduler_turns))
            else rest)
      | err e ↦ some (err e)
      | panic ↦ some panic
    ]
    else some (ok s)

unfoldable pub run_baseline : ℕ → PipelineConfig → Bool → Option (Result PipelineError State)
unfolding start run_loop
run_baseline fuel config clocks = run_loop fuel config (start config clocks) 0 0
