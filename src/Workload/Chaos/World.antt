-- ===== src/Workload/Chaos/World.antt =====
-- crates/workload/src/chaos.rs: the world of the harness, the kernel beside its shadow model, and
-- the helpers that draw from it and extend it. The lines of the log are values, and the text that
-- `format!` makes of them is a parameter.
use muaddib.Prelude.{
  ℕ, zero, suc, ◌*◌, ◌%◌, Bool, true, false, not, ◌||◌, Option, none, some, List, [], ◌∷◌, ◌++◌,
  Result, ok, panic, ◌>>=◌, expect, get_elem?, length, replicate, filter, find, ◌==◌, if◌then◌else◌,
  u64_mod, bit_xor, next_u64,
}
use muaddib.Map.{Map}
use muaddib.Map
use muaddib.Capability.{Capability, CapError, Kernel}
use muaddib.Capability
use muaddib.Clock.{Stamp}
use muaddib.Clock.History.{to_list}
use muaddib.Process.{Process}
use muaddib.Process
use muaddib.Process.Scheduler.{Scheduler}
use muaddib.Process.Scheduler
use muaddib.Ipc.{ChannelRegistry}
use muaddib.Ipc
use muaddib.Memory.{MemoryError, RegionRegistry}
use muaddib.Memory
use muaddib.Workload.Chaos.{Obj, region, channel, CapModel, RegionModel}
use muaddib.Workload.Chaos.Failures.{Failure}
use muaddib.Workload.Chaos.Ops.{GrantKind, Pick, channels}

pub record ProcModel : Type 0 where
  pub pid : ℕ
  pub table : Map CapModel

pub record MessageModel : Type 0 where
  pub send_event : ℕ
  pub caps : List CapModel

pub record ChaosSummary : Type 0 where
  pub seed : ℕ
  pub steps : ℕ
  pub outcomes : Map (ℕ × ℕ)
  pub events : ℕ
  pub stale_replays_refused : ℕ
  pub log_hash : ℕ

pub record World : Type 0 where
  pub k : Kernel
  pub sched : Scheduler
  pub channels : ChannelRegistry
  pub mem : RegionRegistry
  pub channel_objects : List ℕ
  pub regions : List RegionModel
  pub procs : List ProcModel
  pub in_flight : List (List MessageModel)
  pub stash : List (Capability × CapModel)
  pub stamps : List Stamp
  pub preds : List (List ℕ)
  pub last_event : List (Option ℕ)
  pub summary : ChaosSummary
  pub log_hash : ℕ

-- The lines of the log, with the values that each shows.
pub data Entry : Type 0 where
  new_region_at : (p size : ℕ) → Entry
  local_at : (p : ℕ) → Entry
  spawned : (parent : ℕ) → List (ℕ × GrantKind) → (accepted : Bool) → Entry
  sent : (p channel : ℕ) → List (ℕ × GrantKind) → (accepted : Bool) → Entry
  received : (p channel : ℕ) → (delivered : Bool) → Entry
  read_answered : (stale : Bool) → Result MemoryError (List ℕ) → Entry
  write_answered : (stale : Bool) → Result MemoryError (Unit {0}) → Entry
  revoke_answered : (stale : Bool) → Result CapError (Unit {0}) → Entry
  destroy_answered : (stale : Bool) → Result MemoryError (Unit {0}) → Entry

-- `items[i]` changed by `f`.
unfoldable pub modify {ℓ κ} : {E : Type ℓ} {A : Type κ} → (A → A) → ℕ → List A → Result E (List A)
modify f i [] = panic
modify f zero (a ∷ rest) = ok (f a ∷ rest)
modify f (suc i) (a ∷ rest) = do rest' ← modify f i rest; ok (a ∷ rest')

abbrev pub is_region : Obj → Bool
is_region (region r) = true
is_region (channel c) = false

abbrev pub is_channel : ℕ → Obj → Bool
is_channel c (region r) = false
is_channel c (channel d) = d == c

-- The process of the scheduler that `procs[p]` mirrors.
unfoldable pub real_process : World → ℕ → Result Failure Process
unfolding Scheduler.process
real_process w p = do
  model ← expect (get_elem? w.procs p)
  expect (Scheduler.process w.sched model.pid)

abbrev pub with_entry : ℕ → Capability → CapModel → World → Process → Result Failure (World × ℕ)
with_entry p cap model w proc = do
  mirror ← expect (get_elem? w.procs p)
  let (proc', handle) = Process.grant proc cap
  procs ←
      modify (λ mirror. record mirror { table = Map.insert handle model mirror.table }) p w.procs
  ok (
    record w {
      sched = Scheduler.set_process w.sched mirror.pid proc';
      procs = procs;
      stash = w.stash ++ (cap, model) ∷ [];
    },
    handle,
  )

unfoldable pub install : World → ℕ → Capability → CapModel → Result Failure (World × ℕ)
unfolding real_process modify Process.grant Scheduler.set_process Map.insert
install w p cap model = do proc ← real_process w p; with_entry p cap model w proc

unfoldable pub new_region : World → ℕ → ℕ → Result Failure World
unfolding install Memory.new_region
new_region w p size = do
  let (mem, k, cap) = Memory.new_region w.mem w.k size
  let model : RegionModel = record {
    object = cap.object;
    alive = true;
    epoch = 0;
    bytes = replicate size 0;
  }
  (w', handle) ←
      install (record w { mem = mem; k = k; regions = w.regions ++ model ∷ [] }) p cap
        (record { obj = region (length w.regions); rights = cap.rights; epoch = 0 })
  ok w'

abbrev pub blank_summary : ChaosSummary
blank_summary = record {
  seed = 0;
  steps = 0;
  outcomes = Map.empty;
  events = 0;
  stale_replays_refused = 0;
  log_hash = 0;
}

-- The world with the root process alone.
unfoldable pub empty_world : World
unfolding Scheduler.spawn
empty_world =
    let (sched, root) = Scheduler.spawn Scheduler.new [] in
    record {
      k = Capability.new;
      sched = sched;
      channels = Ipc.new;
      mem = Memory.new;
      channel_objects = [];
      regions = [];
      procs = record { pid = root; table = Map.empty } ∷ [];
      in_flight = replicate channels [];
      stash = [];
      stamps = [];
      preds = [];
      last_event = none ∷ [];
      summary = blank_summary;
      log_hash = 0xCBF29CE484222325;
    }

-- The loop that makes the channels from number `c` on, `n` of them.
unfoldable pub add_channels : ℕ → ℕ → World → Result Failure World
unfolding install Ipc.new_channel
add_channels zero c w = ok w
add_channels (suc n) c w = do
  let (registry, k, cap) = Ipc.new_channel w.channels w.k
  let w₁ : World = record w {
    channels = registry;
    k = k;
    channel_objects = w.channel_objects ++ cap.object ∷ [];
  }
  (w₂, handle) ← install w₁ 0 cap (record { obj = channel c; rights = cap.rights; epoch = 0 })
  add_channels n (suc c) w₂

unfoldable pub new : Result Failure World
unfolding empty_world add_channels new_region
new = do w₁ ← add_channels channels 0 empty_world; w₂ ← new_region w₁ 0 8; new_region w₂ 0 8

-- FNV-1a over the bytes of a text.
unfoldable pub hash_bytes : ℕ → List ℕ → ℕ
hash_bytes h [] = h
hash_bytes h (b ∷ bs) = hash_bytes (bit_xor h b * 0x100000001B3 % u64_mod) bs

unfoldable pub log : (Entry → List ℕ) → World → Entry → World
unfolding hash_bytes
log render w entry = record w { log_hash = hash_bytes w.log_hash (render entry) }

-- With the number of the event.
unfoldable pub record_event : World → ℕ → Stamp → List ℕ → Result Failure (World × ℕ)
unfolding modify
record_event w p stamp causes = do
  prev ← expect (get_elem? w.last_event p)
  let idx = length w.stamps
  last_event ← modify (λ _. some idx) p w.last_event
  ok (
    record w {
      last_event = last_event;
      stamps = w.stamps ++ stamp ∷ [];
      preds = w.preds ++ (causes ++ to_list prev) ∷ [];
    },
    idx,
  )

abbrev counts : Option (ℕ × ℕ) → ℕ × ℕ
counts none = (0, 0)
counts (some entry) = entry

unfoldable pub outcome : World → ℕ → Bool → World
unfolding Map.insert Map.get
outcome w name passed =
    let (succeeded, rejected) = counts (Map.get name w.summary.outcomes) in
    record w {
      summary = record w.summary {
        outcomes =
            Map.insert name
              (if passed then (next_u64 succeeded, rejected) else (succeeded, next_u64 rejected))
              w.summary.outcomes;
      };
    }

-- Whether an access may use a capability with this model.
abbrev pub wanted : Bool → CapModel → Bool
wanted want_region m = not want_region || is_region m.obj

abbrev pub pick_from :
    World → ℕ → ℕ → List (ℕ × CapModel) → Result Failure (Option (Capability × CapModel × Bool))
pick_from w p n [] = ok none
pick_from w p n (first ∷ rest) = do
  (h, m) ← expect (get_elem? (first ∷ rest) (n % length (first ∷ rest)))
  proc ← real_process w p
  cap ← expect (Process.capability proc h)
  ok (some (cap, m, false))

abbrev pub pick_stale :
    ℕ → List (Capability × CapModel) → Result Failure (Option (Capability × CapModel × Bool))
pick_stale n [] = ok none
pick_stale n (first ∷ rest) = do
  (cap, m) ← expect (get_elem? (first ∷ rest) (n % length (first ∷ rest)))
  ok (some (cap, m, true))

-- A capability, its model, and whether it comes from the stash.
unfoldable pub pick_cap :
    World → ℕ → Pick → Bool → Result Failure (Option (Capability × CapModel × Bool))
unfolding real_process Process.capability
pick_cap w p (Pick.table n) want_region = do
  mirror ← expect (get_elem? w.procs p)
  pick_from w p n (filter (λ e. wanted want_region e.1) mirror.table)
pick_cap w p (Pick.stash n) want_region =
    pick_stale n (filter (λ e. wanted want_region e.1) w.stash)

-- The handle of a channel in a mirror.
unfoldable pub channel_handle : World → ℕ → ℕ → Result Failure ℕ
channel_handle w p c = do
  mirror ← expect (get_elem? w.procs p)
  entry ← expect (find (λ e. is_channel c e.1.obj) mirror.table)
  ok entry.0

unfoldable pub channel_cap : World → ℕ → ℕ → Result Failure Capability
unfolding channel_handle real_process Process.capability
channel_cap w p c = do
  handle ← channel_handle w p c
  proc ← real_process w p
  expect (Process.capability proc handle)
