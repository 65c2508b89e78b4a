-- ===== src/Workload/Baseline/Results.antt =====
-- crates/workload/src/baseline.rs: the invariant of a run.
pub mod Hops
pub mod Producer
pub mod Turns
pub mod Runs
use muaddib.Prelude.{
  map, ℕ, zero, suc, ◌+◌, ◌-◌, ◌<◌, ◌≤◌, ◌≡◌, refl, Bool, true, false, Option, none, some, List, [],
  ◌∷◌, ◌++◌, Result, ok, err, panic, ◌>>=◌, expect, length, get_elem?, arith, ◌==◌, if◌then◌else◌,
  All, All-append, eq_of_some, replicate, Bool-cases, inl, inr, ◌∙◌, sym, ap, subst, u64_mod, ltb,
  length-append, next_u64, length-replicate,
}
use muaddib.Workload.Data.{fill_batch, transforms, checksum, reference_checksum, transform}
use muaddib.Workload.Data.Transform.{length-transform}
use muaddib.Workload.Rng.{fill}
use muaddib.Workload.Rng.Fill.{fill_same, length-fill}
use muaddib.Workload.Pipeline.{PipelineConfig, BatchResult, PipelineError}
use muaddib.Workload.Baseline.{
  State, Stage, Message, Kind, transformer, set, push, act, transform_one, sink_one, produce,
  collect, send_stamp, receive_stamp, counted,
}
use muaddib.Workload.Baseline.Order.{flow, upto}
use muaddib.Workload.Baseline.Progress.{
  times, load, weigh, length-set, get_elem?-set, get_elem?-some, weigh-set, times-append,
  send_stamp-kind, receive_stamp-kind, collect-kind, collect-All, All-get,
}

-- The bytes of a batch before the first stage.
abbrev pub filled : PipelineConfig → ℕ → List ℕ
filled config batch = fill_batch config.seed batch (replicate config.region_size 0)

-- A message before stage `i` carries its batch's bytes after the stages below `i`.
abbrev pub IsAt : PipelineConfig → ℕ → Message → Type 0
IsAt config i m = m.region ≡ transforms i (filled config m.batch)

abbrev pub IsReference : PipelineConfig → BatchResult → Type 0
IsReference config b =
    b.checksum ≡ reference_checksum config.seed b.batch config.region_size config.stages

abbrev pub KindFits : PipelineConfig → Kind → Type 0
KindFits config (transformer i) = i < config.stages
KindFits config _ = Unit

abbrev pub Travels : PipelineConfig → List (List Message) → Type 0
Travels config chan = (i : ℕ) (q : List Message) → get_elem? chan i ≡ some q → All (IsAt config i) q

abbrev pub Fits : PipelineConfig → List Stage → Type 0
Fits config stages = (i : ℕ) (s : Stage) → get_elem? stages i ≡ some s → KindFits config s.kind

abbrev pub IsWhole : PipelineConfig → List ℕ → Type 0
IsWhole config region = length region ≡ config.region_size

pub record IsGood (config : PipelineConfig) (s : State) : Type 0 where
  pub chan_count : length s.chan ≡ config.stages + 1
  pub stage_count : length s.stages ≡ config.stages + 3
  pub fits : Fits config s.stages
  pub emitted : s.next_batch ≤ config.batches
  pub travels : Travels config s.chan
  pub back : All (λ m. IsWhole config m.region) s.returns
  pub free : All (IsWhole config) s.pool
  pub done : All (IsReference config) s.report.results
  pub in_order : map (λ b. b.batch) s.report.results ++ flow s.chan ≡ upto s.next_batch

-- A turn that works: it ends, keeps the state good, and lowers the load if it did anything.
abbrev pub Works : PipelineConfig → State → Result PipelineError (State × Bool) → Type 0
Works config s r =
    (s' : State) × (b : Bool) × (r ≡ ok (s', b))
    × IsGood config s'
    × ((if b then suc (load config s') else load config s') ≤ load config s)

pub Travels-set :
    (config : PipelineConfig) (chan : List (List Message)) (i : ℕ) (old new : List Message)
    → Travels config chan
    → get_elem? chan i ≡ some old
    → All (IsAt config i) new
    → Travels config (set i new chan)
Travels-set config chan i old new t at h j q e = elim (Bool-cases (j == i)) [
  | inl same ↦
      let j_i : j ≡ i = ground arith in
      let q_new : new ≡ q = eq_of_some (ground (arith, get_elem?-set i j new old chan at)) in
      rw (j_i, ← q_new) h
  | inr other ↦ t j q (ground (arith, get_elem?-set i j new old chan at))
]

pub Fits-set :
    (config : PipelineConfig) (stages : List Stage) (i : ℕ) (old new : Stage)
    → Fits config stages
    → get_elem? stages i ≡ some old
    → new.kind ≡ old.kind
    → Fits config (set i new stages)
Fits-set config stages i old new f at kind j s e = elim (Bool-cases (j == i)) [
  | inl same ↦
      let s_new : new ≡ s = eq_of_some (ground (arith, get_elem?-set i j new old stages at)) in
      rw (← s_new, kind) (f i old at)
  | inr other ↦ f j s (ground (arith, get_elem?-set i j new old stages at))
]

pub push_ok :
    (chan : List (List Message)) (i : ℕ) (m : Message) (q : List Message)
    → get_elem? chan i ≡ some q
    → push chan i m ≡ ok (set i (q ++ m ∷ []) chan)
unfolding push
push_ok chan i m q at = rw at refl

pub length-filled :
    (config : PipelineConfig) (batch : ℕ) → length (filled config batch) ≡ config.region_size
unfolding fill_batch
length-filled config batch = length-fill _ _ ∙ length-replicate config.region_size 0

pub length-transforms : (n : ℕ) (buf : List ℕ) → length (transforms n buf) ≡ length buf
unfolding transforms
length-transforms zero buf = refl
length-transforms (suc n) buf = length-transform n (transforms n buf) ∙ length-transforms n buf

-- A region of the right size is filled like a blank one.
pub filled_any :
    (config : PipelineConfig) (batch : ℕ) (region : List ℕ)
    → IsWhole config region
    → fill_batch config.seed batch region ≡ filled config batch
unfolding fill_batch
filled_any config batch region h =
    fill_same _ region (replicate config.region_size 0)
      (h ∙ sym (length-replicate config.region_size 0))
