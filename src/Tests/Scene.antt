-- ===== src/Tests/Scene.antt =====
-- A supervisor that owns a region, object 0, and an endpoint of a channel, object 1.
use muaddib.Prelude.{List, [], ◌∷◌}
use muaddib.Map
use muaddib.Capability.Rights
use muaddib.Capability.{
  Capability, Kernel, check, revoke, reissue, derive, destroy_object, new_object, object_exists,
}
use muaddib.Clock.{Stamp, EventClock, happened_before, receive_event, current}
use muaddib.Clock.Vector
use muaddib.Clock
use muaddib.Process.{Process, grant_all, capability, handle_count, record_send, record_receive}
use muaddib.Process.Transfer.{Grant, transfer, move, resolve_grants, apply_grants}
use muaddib.Process.Transfer
use muaddib.Process.Transfer.Applied.{strip, bump_all, delivered}
use muaddib.Process.Scheduler.{Scheduler, spawn_child, process, enroll}
use muaddib.Ipc.{ChannelRegistry, Message, send, receive, deliver}
use muaddib.Memory.{RegionRegistry, read, write, destroy_region, reclaim, region_count}

-- What the tests compute with.
unfoldable pub program : Unit {0}
unfolding Map.get Map.insert Map.remove Map.retain Map.contains_key Map.len Rights.contains
    Rights.◌∪◌ check revoke reissue derive destroy_object new_object object_exists happened_before
    receive_event current Vector.get Vector.tick Vector.merge Vector.compare grant_all capability
    handle_count record_send record_receive resolve_grants apply_grants strip bump_all delivered
    spawn_child process enroll send receive deliver read write destroy_region reclaim region_count
program = tt

abbrev pub kernel : Kernel
kernel = record { next_id = 2; epochs = (0, 0) ∷ (1, 0) ∷ [] }

abbrev pub kernel_moved : Kernel
kernel_moved = record { next_id = 2; epochs = (0, 1) ∷ (1, 0) ∷ [] }

abbrev pub owner : Capability
owner = record { object = 0; rights = 27; epoch = 0 }

abbrev pub owner_moved : Capability
owner_moved = record { object = 0; rights = 27; epoch = 1 }

abbrev pub view : Capability
view = record { object = 0; rights = 1; epoch = 0 }

abbrev pub endpoint : Capability
endpoint = record { object = 1; rights = 11; epoch = 0 }

abbrev pub receive_only : Capability
receive_only = record { object = 1; rights = 1; epoch = 0 }

abbrev pub supervisor : Process
supervisor = record {
  id = 0;
  capabilities = (0, owner) ∷ (1, endpoint) ∷ [];
  next_handle = 2;
  clock = Clock.new 0;
}

abbrev pub batch : List Grant
batch = move 0 ∷ Transfer.derive 1 Rights.read ∷ []

abbrev pub batch_resolved : List Capability
batch_resolved = owner ∷ receive_only ∷ []

abbrev pub batch_delivered : List Capability
batch_delivered = owner_moved ∷ receive_only ∷ []

abbrev pub supervisor_stripped : Process
supervisor_stripped = record supervisor { capabilities = (1, endpoint) ∷ [] }

abbrev pub scheduler : Scheduler
scheduler = record { processes = (0, supervisor) ∷ []; next_process_id = 1; ready_queue = 0 ∷ [] }

abbrev pub stamp_sent : Stamp
stamp_sent = record { process = 0; lamport = 1; vector = record { entries = (0, 1) ∷ [] } }

abbrev pub message : Message
message = record { payload = 7; capabilities = batch_delivered; sent_at = stamp_sent }

abbrev pub channels : ChannelRegistry
channels = record { queues = (1, message ∷ []) ∷ [] }

abbrev pub regions : RegionRegistry
regions = record { regions = (0, 5 ∷ 6 ∷ 7 ∷ 8 ∷ []) ∷ (9, 1 ∷ []) ∷ [] }
