-- ===== src/Workload/Pipeline.antt =====
-- crates/workload/src/pipeline.rs: a ring of processes that hand regions on by channels. This file
-- has the state and its construction, `KernelPipeline::new`. An error ends a run and drops its
-- report, so the state after an error is not modelled.
pub mod Step
pub mod Run
use muaddib.Prelude.{
  ℕ, zero, suc, ◌+◌, Bool, Option, none, some, List, [], ◌∷◌, ◌++◌, map, Result, ok, err, panic,
  ◌>>=◌, expect, map_err, get_elem?, drop,
}
use muaddib.Capability.Rights
use muaddib.Capability.{Capability, Kernel}
use muaddib.Capability
use muaddib.Clock.{Stamp}
use muaddib.Process.{Process, handles}
use muaddib.Process
use muaddib.Process.Transfer.{Grant, derive, move}
use muaddib.Process.Scheduler.{Scheduler, ProcessError, spawn, spawn_child}
use muaddib.Process.Scheduler
use muaddib.Ipc.{ChannelRegistry, IpcError, new_channel}
use muaddib.Ipc
use muaddib.Memory.{RegionRegistry, MemoryError, new_region}
use muaddib.Memory

pub record PipelineConfig : Type 0 where
  pub batches : ℕ
  pub region_size : ℕ
  pub pool : ℕ
  pub stages : ℕ
  pub seed : ℕ
  pub trace : Bool

pub data Role : Type 0 where
  supervisor producer sink : Role
  transformer : ℕ → Role

pub data Action : Type 0 where
  sends receives : Action

pub record TraceEvent : Type 0 where
  pub role : Role
  pub action : Action
  pub batch : ℕ
  pub stamp : Stamp

pub record BatchResult : Type 0 where
  pub batch : ℕ
  pub checksum : ℕ

pub record Stats : Type 0 where
  pub scheduler_turns : ℕ
  pub idle_turns : ℕ
  pub messages : ℕ
  pub bytes_processed : ℕ

pub record PipelineReport : Type 0 where
  pub results : List BatchResult
  pub trace : List TraceEvent
  pub stats : Stats

pub data PipelineError : Type 0 where
  ipc : IpcError → PipelineError
  memory : MemoryError → PipelineError
  process : ProcessError → PipelineError
  missing_region : PipelineError
  stalled : (turns : ℕ) → PipelineError

pub record Stage : Type 0 where
  pub pid : ℕ
  pub role : Role
  pub input : Option ℕ
  pub output : Option ℕ
  pub free_regions : List ℕ
  pub next_batch : ℕ

pub record KernelPipeline : Type 0 where
  pub config : PipelineConfig
  pub kernel : Kernel
  pub sched : Scheduler
  pub channels : ChannelRegistry
  pub memory : RegionRegistry
  pub stages : List Stage

unfoldable pub sorted_handles : Scheduler → ℕ → Result PipelineError (List ℕ)
unfolding handles Scheduler.process
sorted_handles sched pid = do p ← expect (Scheduler.process sched pid); ok (handles p)

unfoldable pub cap_of : Scheduler → ℕ → ℕ → Result PipelineError Capability
unfolding Scheduler.process Process.capability
cap_of sched pid handle = do
  p ← expect (Scheduler.process sched pid)
  expect (Process.capability p handle)

-- `n` calls of `new_channel`, and of `new_region`, with what they return.
unfoldable pub new_channels :
    ℕ → ChannelRegistry → Kernel → ChannelRegistry × Kernel × List Capability
unfolding new_channel
new_channels zero r k = (r, k, [])
new_channels (suc n) r k =
    let (r', k', c) = new_channel r k in
    let (r'', k'', cs) = new_channels n r' k' in (r'', k'', c ∷ cs)

unfoldable pub new_regions :
    ℕ → ℕ → RegionRegistry → Kernel → RegionRegistry × Kernel × List Capability
unfolding new_region
new_regions zero size r k = (r, k, [])
new_regions (suc n) size r k =
    let (r', k', c) = new_region r k size in
    let (r'', k'', cs) = new_regions n size r' k' in (r'', k'', c ∷ cs)

-- A child of the supervisor, with the handles that its grants arrived under.
unfoldable pub spawn_stage :
    Scheduler → Kernel → ℕ → List Grant → Result PipelineError (Scheduler × Kernel × ℕ × List ℕ)
unfolding spawn_child sorted_handles
spawn_stage sched k parent grants = do
  (sched', k', pid) ← map_err process (spawn_child sched k parent grants)
  h ← sorted_handles sched' pid
  ok (sched', k', pid, h)

-- A stage that reads its first handle's channel and writes the second's.
unfoldable pub reading_stage : ℕ → Role → List ℕ → Result PipelineError Stage
reading_stage pid role h = do
  input ← expect (get_elem? h 0)
  output ← expect (get_elem? h 1)
  ok (record {
    pid = pid;
    role = role;
    input = some input;
    output = some output;
    free_regions = [];
    next_batch = 0;
  })

-- The loop over the transformers, from the last to the first.
unfoldable pub spawn_transformers :
    ℕ → Scheduler → Kernel → ℕ → List ℕ → Result PipelineError (Scheduler × Kernel × List Stage)
unfolding spawn_stage reading_stage
spawn_transformers zero sched k parent chan = ok (sched, k, [])
spawn_transformers (suc i) sched k parent chan = do
  from ← expect (get_elem? chan i)
  onto ← expect (get_elem? chan (i + 1))
  (sched', k', pid, h) ←
      spawn_stage sched k parent (derive from Rights.read ∷ derive onto Rights.write ∷ [])
  stage ← reading_stage pid (transformer i) h
  (sched'', k'', rest) ← spawn_transformers i sched' k' parent chan
  ok (sched'', k'', stage ∷ rest)

unfoldable pub producer_stage : ℕ → List ℕ → Result PipelineError Stage
producer_stage pid h = do
  output ← expect (get_elem? h 0)
  input ← expect (get_elem? h 1)
  ok (record {
    pid = pid;
    role = producer;
    input = some input;
    output = some output;
    free_regions = drop 2 h;
    next_batch = 0;
  })

unfoldable pub supervisor_stage : ℕ → Stage
supervisor_stage pid = record {
  pid = pid;
  role = supervisor;
  input = none;
  output = none;
  free_regions = [];
  next_batch = 0;
}

-- `KernelPipeline::new`.
unfoldable pub new : PipelineConfig → Result PipelineError KernelPipeline
unfolding new_channels new_regions new_channel spawn Process.grant_all Process.grant
    Scheduler.process Scheduler.set_process spawn_stage reading_stage spawn_transformers
    producer_stage supervisor_stage
new config = do
  let (sched₀, parent) = spawn Scheduler.new []
  let (channels, k₁, chan_caps) = new_channels (config.stages + 1) Ipc.new Capability.new
  let (channels', k₂, return_cap) = new_channel channels k₁
  let (regions, k₃, region_caps) = new_regions config.pool config.region_size Memory.new k₂
  sup₀ ← expect (Scheduler.process sched₀ parent)
  let (sup₁, chan) = Process.grant_all sup₀ chan_caps
  let (sup₂, ret) = Process.grant sup₁ return_cap
  let (sup₃, owned) = Process.grant_all sup₂ region_caps
  let sched₁ = Scheduler.set_process sched₀ parent sup₃
  last ← expect (get_elem? chan config.stages)
  (sched₂, k₄, sink_pid, sink_h) ←
      spawn_stage sched₁ k₃ parent (derive last Rights.read ∷ derive ret Rights.write ∷ [])
  sink_stage ← reading_stage sink_pid sink sink_h
  (sched₃, k₅, transformers) ← spawn_transformers config.stages sched₂ k₄ parent chan
  first ← expect (get_elem? chan 0)
  (sched₄, k₆, pid, h) ←
      spawn_stage sched₃ k₅ parent
        (derive first Rights.write ∷ derive ret Rights.read ∷ map move owned)
  last_stage ← producer_stage pid h
  ok (record {
    config = config;
    kernel = k₆;
    sched = sched₄;
    channels = channels';
    memory = regions;
    stages = supervisor_stage parent ∷ sink_stage ∷ (transformers ++ last_stage ∷ []);
  })
