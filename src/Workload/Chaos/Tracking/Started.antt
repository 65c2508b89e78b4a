-- ===== src/Workload/Chaos/Tracking/Started.antt =====
-- crates/workload/src/chaos.rs: the world that `World::new` makes.
use muaddib.Prelude.{
  ℕ, zero, suc, ◌+◌, ◌<◌, ◌≤◌, ◌≡◌, refl, sym, subst, ◌∙◌, inl, inr, none, some, List, [], ◌∷◌,
  ◌++◌, ok, All-map, get_elem?, length, length-append, arith, Option-cases, length-le_of_none,
  u64_mod,
}
use muaddib.Map
use muaddib.Capability.{Capability}
use muaddib.Capability
use muaddib.Ipc
use muaddib.Process
use muaddib.Process.Scheduler
use muaddib.Workload.Chaos.{CapModel, channel}
use muaddib.Workload.Chaos.Ops.{channels}
use muaddib.Workload.Chaos.World.{World, ProcModel, empty_world, add_channels, install, new_region}
use muaddib.Workload.Chaos.World
use muaddib.Workload.Chaos.Tracking.{models_channel}
use muaddib.Workload.Chaos.Tracking.Mirrors.{nil, Mirrors-Keeps}
use muaddib.Workload.Chaos.Tracking.Picked.{IsMirrored}
use muaddib.Workload.Chaos.Tracking.Allocated.{
  KeepsUp-channel, Models-wider, get_elem?_new, allocated,
}
use muaddib.Workload.Chaos.Tracking.Installed.{install-IsMirrored, new_region-IsMirrored}

pub entry_at {ℓ} :
    {A : Type ℓ} (xs : List A) (i : ℕ) → i < length xs → (a : A) × (get_elem? xs i ≡ some a)
entry_at xs i h = elim (Option-cases (get_elem? xs i)) [
  | inl short ↦ absurd (omega (arith, length-le_of_none xs i short))
  | inr found ↦ found
]

absent {ℓ κ} : {A : Type ℓ} {B : Type κ} (i : ℕ) (a : A) → get_elem? [] i ≡ some a → B
absent i a e = absurd (let f : none ≡ some a = e in cc)

only_mirror : (p : ℕ) (x m : ProcModel) → get_elem? (x ∷ []) p ≡ some m → (p ≡ 0) × (x ≡ m)
only_mirror zero x m e = (refl, ground arith)
only_mirror (suc p) x m e = absent p m e

empty_world-IsMirrored : IsMirrored empty_world
unfolding empty_world Scheduler.spawn Scheduler.fresh_id Scheduler.enroll Process.grant_all
    Map.insert Map.get Map.len
empty_world-IsMirrored = record {
  up = record {
    tracked = record {
      region_epoch = λ i m e. absent i m e;
      region_bytes = λ i m e. absent i m e;
      channel_epoch = λ c o e. absent c o e;
      channel_bytes = λ c o e. absent c o e;
      regions_apart = λ i j m n e. absent i m e;
      channels_apart = λ c d o e. absent c o e;
      kinds_apart = λ i c o m e. absent i m e;
    };
    stocked = record {
      rises = tt;
      counted = refl;
      unused = λ o h. refl;
      regions_below = λ i m e. absent i m e;
      channels_below = λ c o e. absent c o e;
    };
  };
  stash = tt;
  mirrors = λ p m e.
      let (_, same) = only_mirror p (record { pid = 0; table = [] }) m e in
      rw (sym same) (_, refl, tt, nil);
  pids_apart = λ p q m n e e' h.
      (only_mirror p (record { pid = 0; table = [] }) m e).0
      ∙ sym (only_mirror q (record { pid = 0; table = [] }) n e').0;
  events = refl;
}

-- The loop over the channels.
add_channels-IsMirrored :
    (n c : ℕ) (w : World)
    → IsMirrored w
    → c ≡ length w.channel_objects
    → 0 < length w.procs
    → w.k.next_id + n < u64_mod
    → (w' : World) × (add_channels n c w ≡ ok w')
      × IsMirrored w'
      × (w'.k.next_id ≡ w.k.next_id + n)
      × (0 < length w'.procs)
unfolding add_channels Ipc.new_channel Capability.new_object
add_channels-IsMirrored zero c w mirrored count some_proc room =
    (w, refl, mirrored, omega arith, some_proc)
add_channels-IsMirrored (suc n) c w mirrored count some_proc room =
    let cap = (Ipc.new_channel w.channels w.k).2 in
    let grown : World = record w {
      channels = (Ipc.new_channel w.channels w.k).0;
      k = allocated w.k;
      channel_objects = w.channel_objects ++ w.k.next_id ∷ [];
    } in
    let wider =
      Models-wider {regions = w.regions} {channel_objects = w.channel_objects} w.k.next_id in
    let grown-IsMirrored : IsMirrored grown = record {
      up = KeepsUp-channel mirrored.up (omega (arith, room));
      stash = All-map (λ e h. wider e.1 e.0 h) w.stash mirrored.stash;
      mirrors = λ q m e.
          let (proc, found, rises, mirrors) = mirrored.mirrors q m e in
          (proc, found, rises, Mirrors-Keeps wider mirrors);
      pids_apart = mirrored.pids_apart;
      events = mirrored.events;
    } in
    let (mirror, at) = entry_at w.procs 0 some_proc in
    let model : CapModel = record { obj = channel c; rights = cap.rights; epoch = 0 } in
    let (handle, sched, procs, done, mirrored', long) =
      install-IsMirrored grown 0 cap model mirror grown-IsMirrored at (
        models_channel c w.k.next_id cap.rights (
          subst (λ i. get_elem? (w.channel_objects ++ w.k.next_id ∷ []) i ≡ some w.k.next_id)
            (sym count) (get_elem?_new w.channel_objects w.k.next_id))) in
    let next : World = record grown {
      sched = sched;
      procs = procs;
      stash = w.stash ++ (cap, model) ∷ [];
    } in
    let (w', done', mirrored'', id, some_proc') =
      add_channels-IsMirrored n (suc c) next mirrored'
        (omega (arith, count, length-append w.channel_objects (w.k.next_id ∷ [])))
        (omega (arith, long, some_proc)) (omega (arith, room)) in
    (w', rw done done', mirrored'', omega (arith, id, room), some_proc')

-- The harness's setup succeeds: the channels and the first regions are made without a panic, and
-- the world that it starts from is mirrored and has five objects at most.
pub new-IsMirrored : (w : World) × (World.new ≡ ok w) × IsMirrored w × (w.k.next_id ≤ 5)
unfolding World.new
new-IsMirrored =
    let (w₁, done₁, mirrored₁, id₁, some₁) =
      add_channels-IsMirrored channels 0 empty_world empty_world-IsMirrored refl (omega arith)
        (omega arith) in
    let (mirror₁, at₁) = entry_at w₁.procs 0 some₁ in
    let (w₂, done₂, mirrored₂, id₂, long₂) =
      new_region-IsMirrored w₁ 0 8 mirror₁ mirrored₁ (omega (arith, id₁)) at₁ in
    let (mirror₂, at₂) = entry_at w₂.procs 0 (omega (arith, long₂, some₁)) in
    let (w₃, done₃, mirrored₃, id₃, _) =
      new_region-IsMirrored w₂ 0 8 mirror₂ mirrored₂ (omega (arith, id₁, id₂)) at₂ in
    (w₃, rw (done₁, done₂) done₃, mirrored₃, omega (arith, id₁, id₂, id₃))
