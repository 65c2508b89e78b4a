-- ===== src/Workload/Chaos/Tracking/Picked.antt =====
-- crates/workload/src/chaos.rs: the world with its mirrors and its stash, and the capabilities that
-- the harness picks from them.
use muaddib.Prelude.{
  ◌≤◌, arith, ℕ, suc, ◌%◌, ◌≡◌, refl, inl, inr, ◌⊎◌, Bool, true, false, Option, none, some, List,
  [], ◌∷◌, Result, ok, All, All-map, get_elem?, length, filter, ◌>>=◌,
}
use muaddib.Map.{Map}
use muaddib.Map
use muaddib.Map.Size.{RisesFrom}
use muaddib.Capability.{Capability}
use muaddib.Process.{Process}
use muaddib.Process
use muaddib.Process.Scheduler
use muaddib.Workload.Chaos.{CapModel}
use muaddib.Workload.Chaos.Failures.{Failure}
use muaddib.Workload.Chaos.Ops.{Op, Pick}
use muaddib.Workload.Chaos.World.{
  World, ProcModel, Entry, pick_cap, pick_from, pick_stale, wanted, real_process, is_region,
}
use muaddib.Workload.Chaos.Execute.{execute}
use muaddib.Workload.Chaos.Execute.Access.{if_picked}
use muaddib.Workload.Chaos.Tracking.{Models}
use muaddib.Workload.Chaos.Tracking.Answered.{KeepsUp, Tolerates, tolerated}
use muaddib.Workload.Chaos.Tracking.Access.{read_with-Tolerates, write_with-Tolerates}
use muaddib.Workload.Chaos.Tracking.Ended.{revoke_with-Tolerates, destroy_with-Tolerates}
use muaddib.Workload.Chaos.Tracking.Mirrors.{
  Mirrors, Mirrors-get, Mirrors-Keeps, get_of_entry, get_elem?-filter, All-get, get_elem?_mod,
}

-- The model keeps up, every process's table has its mirror, the stash pairs capabilities with
-- their models, and every process has a last event or none.
pub record IsMirrored (w : World) : Type 0 where
  pub up : KeepsUp w.regions w.channel_objects w.k w.mem
  pub stash : All (λ e. Models w.regions w.channel_objects e.1 e.0) w.stash
  pub mirrors :
      (p : ℕ) (mirror : ProcModel)
      → get_elem? w.procs p ≡ some mirror
      → (proc : Process) × (Map.get mirror.pid w.sched.processes ≡ some proc)
        × RisesFrom 0 mirror.table
        × Mirrors w.regions w.channel_objects mirror.table proc.capabilities
  pub pids_apart :
      (p q : ℕ) (mirror other : ProcModel)
      → get_elem? w.procs p ≡ some mirror
      → get_elem? w.procs q ≡ some other
      → mirror.pid ≡ other.pid
      → p ≡ q
  pub events : length w.last_event ≡ length w.procs

-- What a pick gives: nothing, or a capability with its model, of a region where one is wanted.
abbrev pub PicksWell :
    World → Bool → Result Failure (Option (Capability × CapModel × Bool)) → Type 0
PicksWell w want picked =
    (picked ≡ ok none)
    ⊎ ((c : Capability) × (m : CapModel) × (stale : Bool) × (picked ≡ ok (some (c, m, stale)))
        × Models w.regions w.channel_objects m c
        × (want ≡ true → is_region m.obj ≡ true))

pub real_process-ok :
    (w : World) (p : ℕ) (mirror : ProcModel) (proc : Process)
    → get_elem? w.procs p ≡ some mirror
    → Map.get mirror.pid w.sched.processes ≡ some proc
    → real_process w p ≡ ok proc
unfolding real_process Scheduler.process
real_process-ok w p mirror proc at found = rw (at, found)

wanted_region :
    (want : Bool) (m : CapModel) → wanted want m ≡ true → want ≡ true → is_region m.obj ≡ true
wanted_region true m h e = h
wanted_region false m h e = cc

pick_from-PicksWell :
    (w : World) (p n : ℕ) (want : Bool) (proc : Process) (items : List (ℕ × CapModel))
    → real_process w p ≡ ok proc
    → ((i h : ℕ) (m : CapModel)
        → get_elem? items i ≡ some (h, m)
        → (c : Capability) × (Map.get h proc.capabilities ≡ some c)
          × Models w.regions w.channel_objects m c
          × (want ≡ true → is_region m.obj ≡ true))
    → PicksWell w want (pick_from w p n items)
unfolding Process.capability
pick_from-PicksWell w p n want proc [] real each = inl refl
pick_from-PicksWell w p n want proc (first ∷ rest) real each =
    let ((h, m), at) = get_elem?_mod first rest n in
    let (c, found, models, isr) = each (n % suc (length rest)) h m at in
    inr (c, m, false, rw (at, real, found), models, isr)

pick_stale-PicksWell :
    (w : World) (n : ℕ) (want : Bool) (items : List (Capability × CapModel))
    → ((i : ℕ) (c : Capability) (m : CapModel)
        → get_elem? items i ≡ some (c, m)
        → Models w.regions w.channel_objects m c × (want ≡ true → is_region m.obj ≡ true))
    → PicksWell w want (pick_stale n items)
pick_stale-PicksWell w n want [] each = inl refl
pick_stale-PicksWell w n want (first ∷ rest) each =
    let ((c, m), at) = get_elem?_mod first rest n in
    let (models, isr) = each (n % suc (length rest)) c m at in inr (c, m, true, rw at, models, isr)

pub pick_cap-PicksWell :
    (w : World) (p : ℕ) (pick : Pick) (want : Bool) (mirror : ProcModel)
    → IsMirrored w
    → get_elem? w.procs p ≡ some mirror
    → PicksWell w want (pick_cap w p pick want)
unfolding pick_cap
pick_cap-PicksWell w p (Pick.table n) want mirror mirrored at =
    let (proc, found, rises, mirrors) = mirrored.mirrors p mirror at in
    let items = filter (λ e. wanted want e.1) mirror.table in
    let same : pick_cap w p (Pick.table n) want ≡ pick_from w p n items = rw at in
    rw same (
      pick_from-PicksWell w p n want proc items (real_process-ok w p mirror proc at found)
        λ i h m e.
          let (j, held, passed) = get_elem?-filter (λ e. wanted want e.1) mirror.table i (h, m) e in
          let (_, stands) = get_of_entry 0 mirror.table j h m rises held in
          let (c, real, models) = Mirrors-get mirrors h m stands in
          (c, real, models, wanted_region want m passed))
pick_cap-PicksWell w p (Pick.stash n) want mirror mirrored at =
    pick_stale-PicksWell w n want (filter (λ e. wanted want e.1) w.stash) λ i c m e.
      let (j, held, passed) = get_elem?-filter (λ e. wanted want e.1) w.stash i (c, m) e in
      (
        All-get (λ e. Models w.regions w.channel_objects e.1 e.0) w.stash j mirrored.stash held,
        wanted_region want m passed,
      )

-- The operation succeeds and makes one object at most, and the world is mirrored again.
abbrev pub Survives : World → Result Failure World → Type 0
Survives w r = (w' : World) × (r ≡ ok w') × IsMirrored w' × (w'.k.next_id ≤ suc w.k.next_id)

survives : (w : World) {r : Result Failure World} → IsMirrored w → Tolerates w r → Survives w r
survives w mirrored (tolerated k mem regions summary log_hash up keeps next) = (
  record w { k = k; mem = mem; regions = regions; summary = summary; log_hash = log_hash },
  refl,
  record {
    up = up;
    stash = All-map (λ e h. keeps e.1 e.0 h) w.stash mirrored.stash;
    mirrors = λ p mirror at.
        let (proc, found, rises, mirrors) = mirrored.mirrors p mirror at in
        (proc, found, rises, Mirrors-Keeps keeps mirrors);
    pids_apart = mirrored.pids_apart;
    events = mirrored.events;
  },
  omega (arith, next),
)

-- The four operations that use one capability, of process `p`.
pub data Uses (p : ℕ) : Op → Type 0 where
  reads :
      (pick : Pick) (regions_only : Bool) (offset len : ℕ)
      → Uses p (Op.read p pick regions_only offset len)
  writes :
      (pick : Pick) (regions_only : Bool) (offset len byte : ℕ)
      → Uses p (Op.write p pick regions_only offset len byte)
  revokes : (pick : Pick) → Uses p (Op.revoke p pick)
  destroys : (pick : Pick) → Uses p (Op.destroy p pick)

if_picked-Survives :
    (w : World) (want : Bool) (picked : Result Failure (Option (Capability × CapModel × Bool)))
    (f : Capability × CapModel × Bool → Result Failure World)
    → IsMirrored w
    → PicksWell w want picked
    → ((c : Capability) (m : CapModel) (stale : Bool)
        → Models w.regions w.channel_objects m c
        → (want ≡ true → is_region m.obj ≡ true)
        → Tolerates w (f (c, m, stale)))
    → Survives w (picked >>= if_picked w f)
if_picked-Survives w want picked f mirrored (inl e) each = rw e (w, refl, mirrored, omega arith)
if_picked-Survives w want picked f mirrored (inr (c, m, stale, e, models, isr)) each =
    rw e (survives w mirrored (each c m stale models isr))

-- In a mirrored world, every read, write, revoke and destruction that the harness tries, with a
-- held or a stale capability, a region's or a channel's, in or out of bounds, is answered by the
-- kernel exactly as the model predicts, errors included: the harness reports nothing, and the world
-- is mirrored afterwards.
pub execute-Uses :
    (render : Entry → List ℕ) (w : World) (p : ℕ) (mirror : ProcModel) (op : Op)
    → IsMirrored w
    → get_elem? w.procs p ≡ some mirror
    → Uses p op
    → Survives w (execute render w op)
unfolding execute
execute-Uses render w p mirror op mirrored at (reads pick regions_only offset len) =
    if_picked-Survives w regions_only _ _ mirrored
      (pick_cap-PicksWell w p pick regions_only mirror mirrored at)
      λ c m stale models isr. read_with-Tolerates render w offset len c m stale mirrored.up models
execute-Uses render w p mirror op mirrored at (writes pick regions_only offset len byte) =
    if_picked-Survives w regions_only _ _ mirrored
      (pick_cap-PicksWell w p pick regions_only mirror mirrored at)
      λ c m stale models isr.
        write_with-Tolerates render w offset len byte c m stale mirrored.up models
execute-Uses render w p mirror op mirrored at (revokes pick) =
    if_picked-Survives w true _ _ mirrored (pick_cap-PicksWell w p pick true mirror mirrored at)
      λ c m stale models isr. revoke_with-Tolerates render w c m stale mirrored.up models (isr refl)
execute-Uses render w p mirror op mirrored at (destroys pick) =
    if_picked-Survives w true _ _ mirrored (pick_cap-PicksWell w p pick true mirror mirrored at)
      λ c m stale models isr.
        destroy_with-Tolerates render w c m stale mirrored.up models (isr refl)
