-- ===== src/Tests/Worlds.antt =====
-- A world of one process with a region of four bytes and an endpoint of a channel.
use muaddib.Prelude.{
  ℕ, zero, suc, ◌≡◌, refl, sym, ap, ◌∙◌, true, some, none, ok, List, [], ◌∷◌, get_elem?, arith,
}
use muaddib.Map
use muaddib.Capability.{Capability, Kernel}
use muaddib.Memory.{RegionRegistry}
use muaddib.Process.{Process}
use muaddib.Clock
use muaddib.Workload.Chaos.{CapModel, RegionModel, region, channel, predict_check}
use muaddib.Workload.Chaos.Ops.{Op, GrantKind, Pick}
use muaddib.Workload.Chaos.World.{World, ProcModel, Entry, blank_summary, is_region}
use muaddib.Workload.Chaos.Execute.{execute}
use muaddib.Workload.Chaos.Sweep.{sweep}
use muaddib.Workload.Chaos.Tracking.{IsTracked, models_region, models_channel}
use muaddib.Workload.Chaos.Tracking.Answered.{KeepsUp}
use muaddib.Workload.Chaos.Tracking.Mirrors.{Mirrors, nil, cons}
use muaddib.Workload.Chaos.Tracking.Picked.{IsMirrored, Survives, writes, execute-Uses}
use muaddib.Workload.Chaos.Tracking.Swept.{sweep-ok}
use muaddib.Workload.Chaos.Sweep.Passed.{TableAgrees, LivenessAgrees, sweep-eq_ok}
use muaddib.Capability.Rights
use muaddib.Memory
use muaddib.Workload.Chaos.World
use muaddib.Workload.Chaos.World.{empty_world}
use muaddib.Workload.Chaos.Failures.{Failure}
use muaddib.Workload.Chaos.Tracking.Reached.{Reached, start, uses, Reached-passes}
use muaddib.Prelude.{All, length, filter, Result, err, panic}
use muaddib.Workload.Chaos.Tracking.Picked.{revokes}
use muaddib.Workload.Chaos.Batches.{concrete_grants}
use muaddib.Workload.Chaos.Tracking.Exchanged.{Answers, HoldsGranted, concrete_grants-Answers}
use muaddib.Tests.Scene.{program}

abbrev model : RegionModel
model = record { object = 0; alive = true; epoch = 0; bytes = 5 ∷ 6 ∷ 7 ∷ 8 ∷ [] }

abbrev region_model : CapModel
region_model = record { obj = region 0; rights = 27; epoch = 0 }

abbrev channel_model : CapModel
channel_model = record { obj = channel 0; rights = 27; epoch = 0 }

abbrev region_cap : Capability
region_cap = record { object = 0; rights = 27; epoch = 0 }

abbrev channel_cap : Capability
channel_cap = record { object = 1; rights = 27; epoch = 0 }

abbrev kernel : Kernel
kernel = record { next_id = 2; epochs = (0, 0) ∷ (1, 0) ∷ [] }

abbrev memory : RegionRegistry
memory = record { regions = (0, 5 ∷ 6 ∷ 7 ∷ 8 ∷ []) ∷ [] }

abbrev root : Process
root = record {
  id = 0;
  capabilities = (0, region_cap) ∷ (1, channel_cap) ∷ [];
  next_handle = 2;
  clock = Clock.new 0;
}

abbrev mirror : ProcModel
mirror = record { pid = 0; table = (0, region_model) ∷ (1, channel_model) ∷ [] }

abbrev world : World
world = record {
  k = kernel;
  sched = record { processes = (0, root) ∷ []; next_process_id = 1; ready_queue = 0 ∷ [] };
  channels = record { queues = (1, []) ∷ [] };
  mem = memory;
  channel_objects = 1 ∷ [];
  regions = model ∷ [];
  procs = mirror ∷ [];
  in_flight = [] ∷ [];
  stash = (region_cap, region_model) ∷ (channel_cap, channel_model) ∷ [];
  stamps = [];
  preds = [];
  last_event = none ∷ [];
  summary = blank_summary;
  log_hash = 0;
}

-- The one index of a list of one item.
only {ℓ} : {A : Type ℓ} (i : ℕ) (x a : A) → get_elem? (x ∷ []) i ≡ some a → (i ≡ 0) × (x ≡ a)
only zero x a e = (refl, ground arith)
only (suc i) x a e = absurd (let f : none ≡ some a = e in cc)

world-IsTracked : IsTracked (model ∷ []) (1 ∷ []) kernel memory
unfolding program
world-IsTracked = record {
  region_epoch = λ i m e. let (_, same) = only i model m e in rw (sym same) refl;
  region_bytes = λ i m e. let (_, same) = only i model m e in rw (sym same) refl;
  channel_epoch = λ c o e. let (_, same) = only c 1 o e in rw (sym same) refl;
  channel_bytes = λ c o e. let (_, same) = only c 1 o e in rw (sym same) refl;
  regions_apart = λ i j m n e e' h. (only i model m e).0 ∙ sym (only j model n e').0;
  channels_apart = λ c d o e e'. (only c 1 o e).0 ∙ sym (only d 1 o e').0;
  kinds_apart = λ i c o m e e' h.
      let (_, same) = only i model m e in
      let (_, same') = only c 1 o e' in
      let f : 0 ≡ 1 = ap (λ x. RegionModel.object x) same ∙ h ∙ sym same' in omega (arith, f);
}

world-KeepsUp : KeepsUp (model ∷ []) (1 ∷ []) kernel memory
unfolding program
world-KeepsUp = record {
  tracked = world-IsTracked;
  stocked = record {
    rises = (omega arith, tt);
    counted = refl;
    unused = λ o h. ground arith;
    regions_below = λ i m e. let (_, same) = only i model m e in rw (sym same) (omega arith);
    channels_below = λ c o e. let (_, same) = only c 1 o e in rw (sym same) (omega arith);
  };
}

root-Mirrors : Mirrors (model ∷ []) (1 ∷ []) mirror.table root.capabilities
root-Mirrors =
    cons 0 region_model region_cap _ _ (models_region 0 model 27 0 refl)
      (cons 1 channel_model channel_cap _ _ (models_channel 0 1 27 refl) nil)

world-IsMirrored : IsMirrored world
unfolding program
world-IsMirrored = record {
  up = world-KeepsUp;
  stash = (models_region 0 model 27 0 refl, (models_channel 0 1 27 refl, tt));
  mirrors = λ p m e.
      let (_, same) = only p mirror m e in
      rw (sym same) (root, refl, (omega arith, (omega arith, tt)), root-Mirrors);
  pids_apart = λ p q m n e e' h. (only p mirror m e).0 ∙ sym (only q mirror n e').0;
  events = refl;
}

abbrev plain : Entry → List ℕ
plain e = 1 ∷ []

execute-Uses_example : Survives world (execute plain world (Op.write 0 (Pick.stash 0) true 1 2 9))
execute-Uses_example =
    execute-Uses plain world 0 mirror (Op.write 0 (Pick.stash 0) true 1 2 9) world-IsMirrored refl
      (writes (Pick.stash 0) true 1 2 9)

sweep-eq_ok_example :
    (j : ℕ) × (c : Capability) × (m : CapModel) × All (TableAgrees world) world.procs
    × All (LivenessAgrees world) world.stash
    × (Memory.region_count world.mem ≡ length (filter (λ x. x.alive) world.regions))
    × (get_elem? world.stash j ≡ some (c, m))
    × (m.obj ≡ region 0)
    × (predict_check world.regions world.channel_objects m Rights.read ≡ ok tt)
    × (Memory.inspect world.mem world.k c (λ bytes. bytes) ≡ ok model.bytes)
unfolding program predict_check
sweep-eq_ok_example =
    sweep-eq_ok world 0 0 model region_cap region_model (sweep-ok world world-IsMirrored) refl refl
      refl refl

-- A derived and a moved capability of the one region: a conflict.
abbrev batch : List (ℕ × GrantKind)
batch = (7, GrantKind.derive 1) ∷ (3, GrantKind.move) ∷ []

concrete_grants-Answers_example :
    (gs : List (ℕ × GrantKind)) × (proc : Process) × (concrete_grants world 0 batch ≡ ok gs)
    × (Map.get 0 world.sched.processes ≡ some proc)
    × All (HoldsGranted world mirror proc) gs
    × Answers world 0 mirror proc gs
concrete_grants-Answers_example = concrete_grants-Answers world 0 mirror batch world-IsMirrored refl

abbrev or_empty : Result Failure World → World
unfolding empty_world
or_empty (ok w) = w
or_empty (err e) = empty_world
or_empty panic = empty_world

-- The world that the harness starts from.
abbrev begun : World
unfolding World.new empty_world
begun = or_empty World.new

begun-Reached : Reached plain 0 begun
unfolding World.new empty_world program
begun-Reached = start begun refl

Reached-passes_example :
    (w' : World) × (execute plain begun (Op.revoke 0 (Pick.table 4)) ≡ ok w') × (sweep w' ≡ ok tt)
unfolding World.new empty_world program
Reached-passes_example =
    Reached-passes plain 0 0 (Op.revoke 0 (Pick.table 4)) begun begun-Reached (omega arith)
      (omega arith) (uses _ (revokes (Pick.table 4)))
