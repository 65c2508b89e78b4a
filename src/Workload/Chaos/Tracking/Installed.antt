-- ===== src/Workload/Chaos/Tracking/Installed.antt =====
-- crates/workload/src/chaos.rs: what the harness does to a process's table and clock.
use muaddib.Prelude.{
  ℕ, suc, ◌<◌, ◌≡◌, ◌≢◌, refl, sym, ap, ◌∙◌, inl, inr, true, some, List, [], ◌∷◌, ◌++◌, ok, All-map,
  All-append, get_elem?, length, arith, Bool-cases, eq_of_some, ◌==◌, u64_mod, replicate,
}
use muaddib.Map
use muaddib.Map.Laws.{get-insert_self, get-insert_ne}
use muaddib.Map.Size.{RisesFrom, insert-RisesFrom}
use muaddib.Capability.{Capability, Kernel}
use muaddib.Capability
use muaddib.Memory
use muaddib.Process.{Process}
use muaddib.Process
use muaddib.Process.Scheduler
use muaddib.Workload.Chaos.{CapModel, RegionModel, region}
use muaddib.Workload.Chaos.Failures.{Failure}
use muaddib.Workload.Chaos.World.{World, ProcModel, install, new_region}
use muaddib.Workload.Chaos.Tracking.{Models, models_region, ReplacedAt, modify-ok}
use muaddib.Workload.Chaos.Tracking.Mirrors.{Mirrors, Mirrors-insert, Mirrors-Keeps}
use muaddib.Workload.Chaos.Tracking.Picked.{IsMirrored, real_process-ok}
use muaddib.Workload.Chaos.Tracking.Allocated.{KeepsUp-region, get_elem?_new, allocated}

pub ReplacedAt-same {ℓ} :
    {A : Type ℓ} (i : ℕ) (a : A) (xs : List A) → get_elem? xs i ≡ some a → ReplacedAt i a xs xs
ReplacedAt-same i a xs at j = elim (Bool-cases (j == i)) [
  | inl here ↦ let e : j ≡ i = ground arith in rw here (ap (get_elem? xs) e ∙ at)
  | inr other ↦ rw other refl
]

mirror_before :
    (p : ℕ) (mirror new_mirror : ProcModel) (old procs : List ProcModel)
    → get_elem? old p ≡ some mirror
    → new_mirror.pid ≡ mirror.pid
    → ReplacedAt p new_mirror old procs
    → (q : ℕ) (m : ProcModel) → get_elem? procs q ≡ some m
    → (n : ProcModel) × (get_elem? old q ≡ some n) × (n.pid ≡ m.pid)
mirror_before p mirror new_mirror old procs at pid put q m e = elim (Bool-cases (q == p)) [
  | inl here ↦
      let same : new_mirror ≡ m = eq_of_some (ground (arith, put q)) in
      let one : q ≡ p = ground arith in
      (mirror, ap (get_elem? old) one ∙ at, sym pid ∙ ap (λ x. ProcModel.pid x) same)
  | inr other ↦ (m, ground (arith, put q), refl)
]

-- A change of one process beside that of its mirror.
pub IsMirrored-put :
    (w : World) (p : ℕ) (mirror new_mirror : ProcModel) (proc : Process) (procs : List ProcModel)
    → IsMirrored w
    → get_elem? w.procs p ≡ some mirror
    → new_mirror.pid ≡ mirror.pid
    → ReplacedAt p new_mirror w.procs procs
    → length procs ≡ length w.procs
    → RisesFrom 0 new_mirror.table
    → Mirrors w.regions w.channel_objects new_mirror.table proc.capabilities
    → IsMirrored (record w { sched = Scheduler.set_process w.sched mirror.pid proc; procs = procs })
unfolding Scheduler.set_process
IsMirrored-put w p mirror new_mirror proc procs mirrored at pid put long rises mirrors = record {
  up = mirrored.up;
  stash = mirrored.stash;
  mirrors = λ q m e. elim (Bool-cases (q == p)) [
    | inl here ↦
        let same : new_mirror ≡ m = eq_of_some (ground (arith, put q)) in
        rw (sym same, pid) (proc, get-insert_self mirror.pid proc w.sched.processes, rises, mirrors)
    | inr other ↦
        let old : get_elem? w.procs q ≡ some m = ground (arith, put q) in
        let (proc', found, rises', mirrors') = mirrored.mirrors q m old in
        let apart : m.pid ≢ mirror.pid =
          λ h. let one : q ≡ p = mirrored.pids_apart q p m mirror old at h in ground arith in
        (
          proc',
          get-insert_ne m.pid mirror.pid proc w.sched.processes apart ∙ found,
          rises',
          mirrors',
        )
  ];
  pids_apart = λ q q' m m' e e' h.
      let (n, f, g) = mirror_before p mirror new_mirror w.procs procs at pid put q m e in
      let (n', f', g') = mirror_before p mirror new_mirror w.procs procs at pid put q' m' e' in
      mirrored.pids_apart q q' n n' f f' (g ∙ h ∙ sym g');
  events = mirrored.events ∙ sym long;
}

-- What `install` leaves: the process's table and its mirror with the new entry, and the stash.
pub install-IsMirrored :
    (w : World) (p : ℕ) (c : Capability) (m : CapModel) (mirror : ProcModel)
    → IsMirrored w
    → get_elem? w.procs p ≡ some mirror
    → Models w.regions w.channel_objects m c
    → (handle : ℕ) × (sched : Scheduler.Scheduler) × (procs : List ProcModel) × (install w p c m
        ≡ ok (record w { sched = sched; procs = procs; stash = w.stash ++ (c, m) ∷ [] }, handle))
      × IsMirrored (record w { sched = sched; procs = procs; stash = w.stash ++ (c, m) ∷ [] })
      × (length procs ≡ length w.procs)
unfolding install Process.grant
install-IsMirrored w p c m mirror mirrored at models =
    let (proc, found, rises, mirrors) = mirrored.mirrors p mirror at in
    let handle = proc.next_handle in
    let (proc', _) = Process.grant proc c in
    let (procs, done, put, long) =
      modify-ok {E = Failure} (λ n. record n { table = Map.insert handle m n.table }) p w.procs
        at in
    let put' =
      IsMirrored-put w p mirror (record mirror { table = Map.insert handle m mirror.table }) proc'
        procs mirrored at refl put long
        (insert-RisesFrom 0 handle m mirror.table (omega arith) rises)
        (Mirrors-insert handle m c models mirrors) in
    (
      handle,
      Scheduler.set_process w.sched mirror.pid proc',
      procs,
      rw (real_process-ok w p mirror proc at found, at, done) refl,
      record {
        up = put'.up;
        stash =
            All-append (λ e. Models w.regions w.channel_objects e.1 e.0) w.stash ((c, m) ∷ [])
              mirrored.stash (models, tt);
        mirrors = put'.mirrors;
        pids_apart = put'.pids_apart;
        events = put'.events;
      },
      long,
    )

new_region_grown :
    (w : World) (size : ℕ)
    → IsMirrored w
    → suc w.k.next_id < u64_mod
    → IsMirrored (record w {
      mem = record { regions = Map.insert w.k.next_id (replicate size 0) w.mem.regions };
      k = allocated w.k;
      regions =
          w.regions
          ++ record { object = w.k.next_id; alive = true; epoch = 0; bytes = replicate size 0 }
            ∷ [];
    })
new_region_grown w size mirrored room =
    let (up, keeps) = KeepsUp-region mirrored.up room (replicate size 0) in
    record {
      up = up;
      stash = All-map (λ e h. keeps e.1 e.0 h) w.stash mirrored.stash;
      mirrors = λ q m e.
          let (proc, found, rises, mirrors) = mirrored.mirrors q m e in
          (proc, found, rises, Mirrors-Keeps keeps mirrors);
      pids_apart = mirrored.pids_apart;
      events = mirrored.events;
    }

-- In a mirrored world a process can be given a fresh region, as long as the kernel's identifiers
-- do not run out, and the world stays mirrored.
pub new_region-IsMirrored :
    (w : World) (p size : ℕ) (mirror : ProcModel)
    → IsMirrored w
    → suc w.k.next_id < u64_mod
    → get_elem? w.procs p ≡ some mirror
    → (w' : World) × (new_region w p size ≡ ok w')
      × IsMirrored w'
      × (w'.k.next_id ≡ suc w.k.next_id)
      × (length w'.procs ≡ length w.procs)
unfolding new_region Memory.new_region Capability.new_object
new_region-IsMirrored w p size mirror mirrored room at =
    let model : RegionModel = record {
      object = w.k.next_id;
      alive = true;
      epoch = 0;
      bytes = replicate size 0;
    } in
    let grown : World = record w {
      mem = record { regions = Map.insert w.k.next_id (replicate size 0) w.mem.regions };
      k = allocated w.k;
      regions = w.regions ++ model ∷ [];
    } in
    let cap = (Memory.new_region w.mem w.k size).2 in
    let (handle, sched, procs, done, mirrored', long) =
      install-IsMirrored grown p cap
        (record { obj = region (length w.regions); rights = cap.rights; epoch = 0 }) mirror
        (new_region_grown w size mirrored room) at
        (models_region (length w.regions) model cap.rights 0 (get_elem?_new w.regions model)) in
    (
      record grown {
        sched = sched;
        procs = procs;
        stash =
            w.stash
            ++ (cap, record { obj = region (length w.regions); rights = cap.rights; epoch = 0 })
              ∷ [];
      },
      rw done refl,
      mirrored',
      omega (arith, room),
      long,
    )
