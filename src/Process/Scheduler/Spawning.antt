-- ===== src/Process/Scheduler/Spawning.antt =====
-- crates/process/src/scheduler.rs: `spawn_child`, the parent before it and the child after it.
use muaddib.Prelude.{
  ℕ, ◌-◌, ◌<◌, ◌≡◌, refl, inl, inr, ◌⊎◌, Result-cases, true, none, some, List, ok, err, ok_or,
  map_err, >>=-eq_ok, map_err-eq_ok, ok_or-eq_ok, length, get_elem?, length-le_of_none,
  get_elem?_above, arith, u32_mod, Option-cases, eq_of_some, ◌∙◌, sym, ap, next_u64,
}
use muaddib.Map
use muaddib.Map.Laws.{get-insert_self}
use muaddib.Capability.Rights.{contains}
use muaddib.Capability.{Capability, Kernel}
use muaddib.Process.{Process, grant_all, record_send, record_receive, capability}
use muaddib.Process
use muaddib.Process.Table.{grant_all_exact, IsValid}
use muaddib.Process.Transfer.{Grant, GrantError, resolve_grants}
use muaddib.Process.Transfer.Resolved.{resolve_grants-ne_panic}
use muaddib.Process.Transfer.Applied.{apply-resolve, moved, stripped, delivered}
use muaddib.Process.Transfer.Delivery.{handle_of, delivered_attenuates, delivered_count}
use muaddib.Process.Scheduler.{Scheduler, unknown_process, grant, enroll, spawn_child, process}

-- The child before it is given anything: its birth receives the parent's send.
abbrev newborn : ℕ → Process → Process
newborn id parent_proc = (record_receive (Process.new id) (record_send parent_proc).1).0

newborn-IsValid : (id : ℕ) (parent_proc : Process) → IsValid (newborn id parent_proc)
unfolding record_receive Map.get
newborn-IsValid id parent_proc = record { rises = tt; free = λ h le. refl }

-- The processes after a spawn.
abbrev pub born : Scheduler → ℕ → Process → List Capability → Scheduler
born s parent parent_proc arriving =
    enroll
      (record s {
        processes = Map.insert parent (record_send parent_proc).0 s.processes;
        next_process_id = next_u64 s.next_process_id;
      })
      s.next_process_id (grant_all (newborn s.next_process_id parent_proc) arriving).0

spawn_child_done :
    (s : Scheduler) (k : Kernel) (parent : ℕ) (gs : List Grant) (parent_proc : Process)
    (cs : List Capability)
    → Map.get parent s.processes ≡ some parent_proc
    → resolve_grants k parent_proc gs ≡ ok cs
    → spawn_child s k parent gs
      ≡ ok (
        born s parent (stripped parent_proc gs) (delivered gs cs),
        moved k gs cs,
        s.next_process_id,
      )
unfolding spawn_child
spawn_child_done s k parent gs parent_proc cs found resolved =
    rw (found, resolved, apply-resolve k parent_proc gs cs resolved)

-- Every spawn ends in one of three ways, and never in a panic: the parent does not exist; or the
-- grants do not resolve, and the error is theirs; or it succeeds, with the side effects of the
-- batch at the kernel and the parent, and a child that is given what the batch delivers.
pub spawn_child_total :
    (s : Scheduler) (k : Kernel) (parent : ℕ) (gs : List Grant)
    → ((process s parent ≡ none) × (spawn_child s k parent gs ≡ err (unknown_process parent)))
      ⊎ ((parent_proc : Process) × (e : GrantError) × (process s parent ≡ some parent_proc)
          × (resolve_grants k parent_proc gs ≡ err e)
          × (spawn_child s k parent gs ≡ err (grant e)))
      ⊎ ((parent_proc : Process) × (cs : List Capability) × (process s parent ≡ some parent_proc)
          × (resolve_grants k parent_proc gs ≡ ok cs)
          × (spawn_child s k parent gs
              ≡ ok (
                born s parent (stripped parent_proc gs) (delivered gs cs),
                moved k gs cs,
                s.next_process_id,
              )))
unfolding spawn_child process
spawn_child_total s k parent gs = elim (Option-cases (Map.get parent s.processes)) [
  | inl missing ↦ inl (missing, rw missing)
  | inr (parent_proc, found) ↦
      elim (Result-cases (resolve_grants k parent_proc gs)
        (resolve_grants-ne_panic k parent_proc gs)) [
          | inl (cs, resolved) ↦ inr (
              inr (
                parent_proc,
                cs,
                found,
                resolved,
                spawn_child_done s k parent gs parent_proc cs found resolved,
              ))
          | inr (e, refused) ↦ inr (inl (parent_proc, e, found, refused, rw (found, refused)))
        ]
]

spawn_child-eq_ok :
    (s s' : Scheduler) (k k' : Kernel) (parent id : ℕ) (gs : List Grant)
    → spawn_child s k parent gs ≡ ok (s', k', id)
    → (parent_proc : Process) × (cs : List Capability) × (Map.get parent s.processes
        ≡ some parent_proc)
      × (resolve_grants k parent_proc gs ≡ ok cs)
      × (s' ≡ born s parent (stripped parent_proc gs) (delivered gs cs))
      × (k' ≡ moved k gs cs)
      × (id ≡ s.next_process_id)
unfolding spawn_child
spawn_child-eq_ok s s' k k' parent id gs h =
    let (parent_proc, found, h₁) =
      >>=-eq_ok (ok_or (Map.get parent s.processes) (unknown_process parent)) _ h in
    let (cs, resolved, _) = >>=-eq_ok (map_err grant (resolve_grants k parent_proc gs)) _ h₁ in
    let at = ok_or-eq_ok (Map.get parent s.processes) (unknown_process parent) found in
    let batch = map_err-eq_ok grant (resolve_grants k parent_proc gs) resolved in
    let same = spawn_child_done s k parent gs parent_proc cs at batch in
    (parent_proc, cs, at, batch, ground arith, ground arith, ground arith)

-- The table of a child holds the delivered capabilities in their order.
born_table :
    (id h : ℕ) (parent_proc : Process) (arriving : List Capability)
    → length arriving < u32_mod
    → capability (grant_all (newborn id parent_proc) arriving).0 h ≡ get_elem? arriving h
unfolding record_receive
born_table id h parent_proc arriving room =
    let (table, _, _) =
      grant_all_exact (newborn id parent_proc) arriving h 0 (newborn-IsValid id parent_proc)
        (omega arith) in
    let e : h - 0 ≡ h = omega arith in table ∙ ground (arith, ap (get_elem? arriving) e)

born_child :
    (s : Scheduler) (parent : ℕ) (parent_proc : Process) (arriving : List Capability)
    → process (born s parent parent_proc arriving) s.next_process_id
      ≡ some (grant_all (newborn s.next_process_id parent_proc) arriving).0
unfolding process enroll
born_child s parent parent_proc arriving = get-insert_self s.next_process_id _ _

beyond_end :
    (gs : List Grant) (ds : List Capability) (h : ℕ) (d : Capability)
    → length ds ≡ length gs
    → get_elem? gs h ≡ none
    → ¬ (get_elem? ds h ≡ some d)
beyond_end gs ds h d count beyond there =
    cc (get_elem?_above ds h (omega (arith, length-le_of_none gs h beyond)))

-- No ambient authority: whatever a freshly spawned child holds was delivered by the grant at its
-- handle's position; it names the object of a capability that the parent held under the handle
-- of that grant, and it has no right that this one lacks.
pub child_authority :
    (s s' : Scheduler) (k k' : Kernel) (parent id h : ℕ) (gs : List Grant) (child : Process)
    (d : Capability)
    → spawn_child s k parent gs ≡ ok (s', k', id)
    → length gs < u32_mod
    → process s' id ≡ some child
    → capability child h ≡ some d
    → (parent_proc : Process) × (g : Grant) × (held : Capability) × (process s parent
        ≡ some parent_proc)
      × (get_elem? gs h ≡ some g)
      × (capability parent_proc (handle_of g) ≡ some held)
      × (d.object ≡ held.object)
      × (contains held.rights d.rights ≡ true)
unfolding process enroll
child_authority s s' k k' parent id h gs child d spawned room at holds =
    let (parent_proc, cs, found, resolved, same, kernel, fresh) =
      spawn_child-eq_ok s s' k k' parent id gs spawned in
    let arriving = delivered gs cs in
    let source' = stripped parent_proc gs in
    let applied = apply-resolve k parent_proc gs cs resolved in
    let count =
      delivered_count k (moved k gs cs) parent_proc source' gs cs arriving resolved applied in
    let child_at : some child ≡ some (grant_all (newborn s.next_process_id source') arriving).0 =
      sym at ∙ (rw (same, fresh) (born_child s parent source' arriving)) in
    let there : get_elem? arriving h ≡ some d =
      sym (born_table s.next_process_id h source' arriving (omega arith))
      ∙ ap (λ p. capability p h) (sym (eq_of_some child_at))
      ∙ holds in
    elim (Option-cases (get_elem? gs h)) [
      | inl beyond ↦ absurd (beyond_end gs arriving h d count beyond there)
      | inr (g, at_g) ↦
          let (held, held_at, o, sub) =
            delivered_attenuates k (moved k gs cs) parent_proc source' gs cs arriving resolved
              applied h g d at_g there in
          (parent_proc, g, held, found, at_g, held_at, o, sub)
    ]
