-- ===== src/Tests/Grants.antt =====
-- A batch that moves the region and derives a view of the channel.
use muaddib.Prelude.{
  ◌≡◌, ◌≢◌, refl, ok, err, panic, true, none, some, [], ◌∷◌, List, arith, ◌⊎◌, get_elem?,
}
use muaddib.Capability.Rights.{contains}
use muaddib.Capability.Rights
use muaddib.Capability.{Capability, check, revoked}
use muaddib.Capability.Check.{IsLive}
use muaddib.Process.{Process, grant_all, capability}
use muaddib.Process.Table.{IsValid, grant_all_exact}
use muaddib.Process.Transfer.{Grant, GrantError, transfer, move, resolve_grants, apply_grants}
use muaddib.Process.Transfer
use muaddib.Process.Transfer.Resolved.{resolve_grants-ne_panic}
use muaddib.Process.Transfer.Applied.{apply-resolve, delivered, moved, stripped}
use muaddib.Process.Transfer.Delivery.{
  source_after, delivered_attenuates, move_exclusive, derive_arrives-IsLive, handle_of,
}
use muaddib.Process.Scheduler.{Scheduler, spawn_child, process, unknown_process}
use muaddib.Process.Scheduler
use muaddib.Process.Scheduler.Spawning.{born, spawn_child_total, child_authority}
use muaddib.Process.Scheduler.Fairness.{schedule, schedule_round}
use muaddib.Tests.Scene.{
  program, kernel, kernel_moved, owner_moved, view, receive_only, supervisor, batch, batch_resolved,
  batch_delivered, supervisor_stripped, scheduler,
}

apply-resolve_example :
    apply_grants kernel supervisor batch batch_resolved
    ≡ ok (kernel_moved, supervisor_stripped, batch_delivered)
unfolding program
apply-resolve_example = apply-resolve kernel supervisor batch batch_resolved refl

resolve_grants-ne_panic_example :
    resolve_grants kernel supervisor (move 0 ∷ transfer 0 ∷ []) ≢ panic
resolve_grants-ne_panic_example =
    resolve_grants-ne_panic kernel supervisor (move 0 ∷ transfer 0 ∷ [])

source_after_example :
    (capability supervisor_stripped 0 ≡ none)
    × (supervisor_stripped.id ≡ 0)
    × (supervisor_stripped.next_handle ≡ 2)
    × (supervisor_stripped.clock ≡ supervisor.clock)
unfolding program
source_after_example =
    source_after kernel kernel_moved supervisor supervisor_stripped batch batch_resolved
      batch_delivered refl refl 0

delivered_attenuates_example :
    (held : Capability) × (capability supervisor 1 ≡ some held)
    × (receive_only.object ≡ held.object)
    × (contains held.rights receive_only.rights ≡ true)
unfolding program
delivered_attenuates_example =
    delivered_attenuates kernel kernel_moved supervisor supervisor_stripped batch batch_resolved
      batch_delivered refl refl 1 (Transfer.derive 1 Rights.read) receive_only refl refl

move_exclusive_example :
    IsLive kernel_moved owner_moved × (check kernel_moved view Rights.read ≡ err (revoked 0))
unfolding program
move_exclusive_example =
    move_exclusive kernel kernel_moved supervisor supervisor_stripped batch batch_resolved
      batch_delivered refl refl 0 0 owner_moved view Rights.read refl refl refl refl

derive_arrives-IsLive_example : IsLive kernel_moved receive_only × (receive_only.rights ≡ 1)
unfolding program
derive_arrives-IsLive_example =
    derive_arrives-IsLive kernel kernel_moved supervisor supervisor_stripped batch batch_resolved
      batch_delivered refl refl 1 1 1 receive_only refl refl

supervisor-IsValid : IsValid supervisor
unfolding program
supervisor-IsValid = record { rises = omega arith; free = λ h le. ground arith }

grant_all_exact_example : capability (grant_all supervisor batch_delivered).0 3 ≡ some receive_only
unfolding program
grant_all_exact_example =
    (grant_all_exact supervisor batch_delivered 3 0 supervisor-IsValid (omega arith)).0

abbrev child : Process
child = record {
  id = 1;
  capabilities = (0, owner_moved) ∷ (1, receive_only) ∷ [];
  next_handle = 2;
  clock = record {
    process = 1;
    lamport = record { time = 2 };
    vector = record { entries = (0, 1) ∷ (1, 1) ∷ [] };
  };
}

child_authority_example :
    (parent_proc : Process) × (g : Grant) × (held : Capability) × (process scheduler 0
      ≡ some parent_proc)
    × (get_elem? batch 1 ≡ some g)
    × (capability parent_proc (handle_of g) ≡ some held)
    × (receive_only.object ≡ held.object)
    × (contains held.rights receive_only.rights ≡ true)
unfolding program
child_authority_example =
    child_authority scheduler (born scheduler 0 supervisor_stripped batch_delivered) kernel
      kernel_moved 0 1 1 batch child receive_only refl (omega arith) refl refl

spawn_child_total_example :
    ((process scheduler 0 ≡ none)
      × (spawn_child scheduler kernel 0 batch ≡ err (unknown_process 0)))
    ⊎ ((parent_proc : Process) × (e : GrantError) × (process scheduler 0 ≡ some parent_proc)
        × (resolve_grants kernel parent_proc batch ≡ err e)
        × (spawn_child scheduler kernel 0 batch ≡ err (Scheduler.grant e)))
    ⊎ ((parent_proc : Process) × (cs : List Capability) × (process scheduler 0 ≡ some parent_proc)
        × (resolve_grants kernel parent_proc batch ≡ ok cs)
        × (spawn_child scheduler kernel 0 batch
            ≡ ok (
              born scheduler 0 (stripped parent_proc batch) (delivered batch cs),
              moved kernel batch cs,
              1,
            )))
spawn_child_total_example = spawn_child_total scheduler kernel 0 batch

schedule_round_example : schedule 1 scheduler ≡ (scheduler, some 0 ∷ [])
schedule_round_example = schedule_round scheduler
