-- ===== src/Workload/Chaos/Tracking/Exchanged.antt =====
-- crates/workload/src/chaos.rs: a batch that the harness draws, in its world and in the kernel.
use muaddib.Prelude.{
  ℕ, zero, suc, ◌≡◌, refl, subst, inl, inr, true, none, some, List, [], ◌∷◌, map, ok, err, All,
  All-map, All-get_elem?, get_elem?, filter, eq_of_some,
}
use muaddib.Map.{Map}
use muaddib.Map
use muaddib.Map.Size.{RisesFrom}
use muaddib.Capability.{Capability, Kernel}
use muaddib.Process.{Process}
use muaddib.Process.Scheduler
use muaddib.Process.Transfer.{GrantError, resolve_grants, apply_grants}
use muaddib.Process.Transfer.Applied.{moved, stripped, delivered}
use muaddib.Workload.Chaos.{CapModel}
use muaddib.Workload.Chaos.Ops.{GrantKind}
use muaddib.Workload.Chaos.World.{World, ProcModel, is_region}
use muaddib.Workload.Chaos.Batches.{
  concrete_grants, apply_grants_model, nth_handle, choose, to_grants,
}
use muaddib.Workload.Chaos.Tracking.{Models, modify-ok}
use muaddib.Workload.Chaos.Tracking.Mirrors.{
  Mirrors, Mirrors-Keeps, Mirrors-get, get_of_entry, get_elem?-filter, get_elem?_mod,
}
use muaddib.Workload.Chaos.Tracking.Accepted.{Pairs}
use muaddib.Workload.Chaos.Tracking.Delivered.{model_batch-Batched}
use muaddib.Workload.Chaos.Tracking.Picked.{IsMirrored}
use muaddib.Workload.Chaos.Tracking.Installed.{IsMirrored-put}

-- The handle holds a capability of a region.
abbrev pub HoldsRegion : Map CapModel → ℕ → Type 0
HoldsRegion table h = (m : CapModel) × (Map.get h table ≡ some m) × (is_region m.obj ≡ true)

abbrev AllHold : Map CapModel → List (ℕ × GrantKind) → Type 0
AllHold table gs =
    (i h : ℕ) (kind : GrantKind) → get_elem? gs i ≡ some (h, kind) → HoldsRegion table h

AllHold-cons :
    (table : Map CapModel) (j : ℕ) (kind : GrantKind) (gs : List (ℕ × GrantKind))
    → HoldsRegion table j
    → AllHold table gs
    → AllHold table ((j, kind) ∷ gs)
AllHold-cons table j kind gs first rest zero k kind' e =
    subst (λ g. HoldsRegion table g.0) (eq_of_some e) first
AllHold-cons table j kind gs first rest (suc i) k kind' e = rest i k kind' e

nth_handle-AllHold :
    (table : Map CapModel) (h : ℕ) (hs : List ℕ) (raw : List (ℕ × GrantKind))
    → ((i j : ℕ) → get_elem? (h ∷ hs) i ≡ some j → HoldsRegion table j)
    → (gs : List (ℕ × GrantKind)) × (nth_handle (h ∷ hs) raw ≡ ok gs) × AllHold table gs
nth_handle-AllHold table h hs [] each =
    ([], refl, λ i j kind e. absurd (let f : none ≡ some (j, kind) = e in cc))
nth_handle-AllHold table h hs ((n, kind) ∷ raw) each =
    let (j, at) = get_elem?_mod h hs n in
    let (gs, done, held) = nth_handle-AllHold table h hs raw each in
    ((j, kind) ∷ gs, rw (at, done) refl, AllHold-cons table j kind gs (each _ j at) held)

get_elem?-map {ℓ κ} :
    {A : Type ℓ} {B : Type κ} (f : A → B) (xs : List A) (i : ℕ) (b : B)
    → get_elem? (map f xs) i ≡ some b
    → (a : A) × (get_elem? xs i ≡ some a) × (f a ≡ b)
get_elem?-map f [] i b e = cc
get_elem?-map f (x ∷ xs) zero b e = (x, refl, eq_of_some e)
get_elem?-map f (x ∷ xs) (suc i) b e = get_elem?-map f xs i b e

choose-AllHold :
    (table : Map CapModel) (handles : List ℕ) (raw : List (ℕ × GrantKind))
    → ((i j : ℕ) → get_elem? handles i ≡ some j → HoldsRegion table j)
    → (gs : List (ℕ × GrantKind)) × (choose handles raw ≡ ok gs) × AllHold table gs
choose-AllHold table [] raw each =
    ([], refl, λ i j kind e. absurd (let f : none ≡ some (j, kind) = e in cc))
choose-AllHold table (h ∷ hs) raw each = nth_handle-AllHold table h hs raw each

concrete_grants-AllHold :
    (w : World) (p : ℕ) (mirror : ProcModel) (raw : List (ℕ × GrantKind))
    → IsMirrored w
    → get_elem? w.procs p ≡ some mirror
    → (gs : List (ℕ × GrantKind)) × (concrete_grants w p raw ≡ ok gs) × AllHold mirror.table gs
unfolding concrete_grants
concrete_grants-AllHold w p mirror raw mirrored at =
    let (_, _, rises, _) = mirrored.mirrors p mirror at in
    let (gs, done, held) =
      choose-AllHold mirror.table (Map.keys (filter (λ e. is_region e.1.obj) mirror.table)) raw
        (λ i j e.
          let ((h, m), found, same) =
            get_elem?-map (λ e. e.0) (filter (λ e. is_region e.1.obj) mirror.table) i j e in
          let (i', old, isr) =
            get_elem?-filter (λ e. is_region e.1.obj) mirror.table i (h, m) found in
          let (_, stands) = get_of_entry 0 mirror.table i' h m rises old in
          (m, subst (λ x. Map.get x mirror.table ≡ some m) same stands, isr)) in
    (gs, rw at done, held)

-- The harness's answer to a batch of process `p`, in the words of the kernel's: both reject it, or
-- the harness's world, with what the batch leaves of the kernel and the process, is mirrored, and
-- what is delivered has its models.
pub data Answers (w : World) (p : ℕ) (mirror : ProcModel) (proc : Process)
    (gs : List (ℕ × GrantKind)) : Type 0 where
  rejects :
      (e : GrantError)
      → apply_grants_model w p gs ≡ err tt
      → resolve_grants w.k proc (to_grants gs) ≡ err e
      → Answers w p mirror proc gs
  accepts :
      (w' : World) (models : List CapModel) (k : Kernel) (source : Process)
      (resolved arrived : List Capability)
      → apply_grants_model w p gs ≡ ok (w', models)
      → resolve_grants w.k proc (to_grants gs) ≡ ok resolved
      → apply_grants w.k proc (to_grants gs) resolved ≡ ok (k, source, arrived)
      → IsMirrored (record w' { k = k; sched = Scheduler.set_process w'.sched mirror.pid source })
      → Pairs w'.regions w'.channel_objects models arrived
      → Answers w p mirror proc gs

applied-Answers :
    (w : World) (p : ℕ) (mirror : ProcModel) (proc : Process) (gs : List (ℕ × GrantKind))
    → IsMirrored w
    → get_elem? w.procs p ≡ some mirror
    → RisesFrom 0 mirror.table
    → Mirrors w.regions w.channel_objects mirror.table proc.capabilities
    → AllHold mirror.table gs
    → Answers w p mirror proc gs
unfolding apply_grants_model
applied-Answers w p mirror proc gs mirrored at rises mirrors held =
    elim (model_batch-Batched proc mirror.table gs mirrored.up rises mirrors held) [
      | inl (x, e, e') ↦ rejects x (rw (at, e) refl) e'
      | inr (cs, e, e', a) ↦
          let f : ProcModel → ProcModel = λ n. record n { table = a.table' } in
          let (procs, done, put, long) = modify-ok {E = Unit {0}} f p w.procs at in
          let after : World = record w { k = moved w.k (to_grants gs) cs; regions = a.regions' } in
          let after-IsMirrored : IsMirrored after = record {
            up = a.up;
            stash = All-map (λ x h. a.keeps x.1 x.0 h) w.stash mirrored.stash;
            mirrors = λ q m found.
                let (real, here, rises', mirrors') = mirrored.mirrors q m found in
                (real, here, rises', Mirrors-Keeps a.keeps mirrors');
            pids_apart = mirrored.pids_apart;
            events = mirrored.events;
          } in
          accepts (record w { procs = procs; regions = a.regions' }) a.models
            (moved w.k (to_grants gs) cs) (stripped proc (to_grants gs)) cs
            (delivered (to_grants gs) cs) (rw (at, a.result, done) refl) e e'
            (IsMirrored-put after p mirror (f mirror) (stripped proc (to_grants gs)) procs
              after-IsMirrored at refl put long a.rises a.mirrors)
            a.pairs
    ]

-- The process holds a capability under the handle of the grant, and the mirror of its table has a
-- model of it, which is that of a region.
abbrev pub HoldsGranted : World → ProcModel → Process → ℕ × GrantKind → Type 0
HoldsGranted w mirror proc g =
    (m : CapModel) × (c : Capability) × (Map.get g.0 mirror.table ≡ some m)
    × (is_region m.obj ≡ true)
    × (Map.get g.0 proc.capabilities ≡ some c)
    × Models w.regions w.channel_objects m c

AllHold-Mirrors :
    (w : World) (mirror : ProcModel) (proc : Process) (gs : List (ℕ × GrantKind))
    → AllHold mirror.table gs
    → Mirrors w.regions w.channel_objects mirror.table proc.capabilities
    → All (HoldsGranted w mirror proc) gs
AllHold-Mirrors w mirror proc gs held mirrors = All-get_elem? gs (λ i g e.
    let (m, at, isr) = held i g.0 g.1 e in
    let (c, found, models) = Mirrors-get mirrors g.0 m at in (m, c, at, isr, found, models))

-- In a mirrored world, whatever batch the harness draws for a process, each of its grants names a
-- handle under which the process holds a capability, which the mirror of its table has for one of a
-- region; and the model's answer to the batch is the kernel's.
pub concrete_grants-Answers :
    (w : World) (p : ℕ) (mirror : ProcModel) (raw : List (ℕ × GrantKind))
    → IsMirrored w
    → get_elem? w.procs p ≡ some mirror
    → (gs : List (ℕ × GrantKind)) × (proc : Process) × (concrete_grants w p raw ≡ ok gs)
      × (Map.get mirror.pid w.sched.processes ≡ some proc)
      × All (HoldsGranted w mirror proc) gs
      × Answers w p mirror proc gs
concrete_grants-Answers w p mirror raw mirrored at =
    let (gs, done, held) = concrete_grants-AllHold w p mirror raw mirrored at in
    let (proc, found, rises, mirrors) = mirrored.mirrors p mirror at in
    (
      gs,
      proc,
      done,
      found,
      AllHold-Mirrors w mirror proc gs held mirrors,
      applied-Answers w p mirror proc gs mirrored at rises mirrors held,
    )
