-- ===== src/Tests/Messages.antt =====
-- One channel that holds one message, sent by the supervisor.
use muaddib.Prelude.{
  ◌≡◌, refl, ok, err, true, none, some, List, [], ◌∷◌, ◌++◌, map, arith, ◌⊎◌, get_elem?, ◌<◌,
}
use muaddib.Map
use muaddib.Capability.Rights
use muaddib.Capability.{Capability, CapError, check}
use muaddib.Clock.{happened_before}
use muaddib.Clock.Vector
use muaddib.Clock.Vector.Merge
use muaddib.Process.{Process}
use muaddib.Process
use muaddib.Process.Table
use muaddib.Process.Transfer.{GrantError, resolve_grants, apply_grants}
use muaddib.Process.Transfer.Applied.{delivered}
use muaddib.Ipc.{
  ChannelRegistry, Message, Delivery, send, receive, unknown_channel, capability, grant,
}
use muaddib.Ipc.Send.{send_total, send_effect, after_send, message_of}
use muaddib.Ipc.Receive.{receive_delivers}
use muaddib.Ipc.Traffic.{Traffic, sent, received, done, sent_mark, channel_fifo}
use muaddib.Tests.Scene.{
  program, kernel, kernel_moved, endpoint, receive_only, owner_moved, supervisor, batch,
  supervisor_stripped, message, channels, stamp_sent,
}

abbrev worker : Process
worker = Process.new 1

abbrev supervisor_sent : Process
supervisor_sent = record supervisor_stripped {
  clock = record {
    process = 0;
    lamport = record { time = 1 };
    vector = record { entries = (0, 1) ∷ [] };
  };
}

abbrev channels_sent : ChannelRegistry
channels_sent = record { queues = (1, message ∷ message ∷ []) ∷ [] }

send_effect_example :
    (queue : List Message) × (cs : List Capability) × (check kernel endpoint Rights.write ≡ ok tt)
    × (Map.get 1 channels.queues ≡ some queue)
    × (resolve_grants kernel supervisor batch ≡ ok cs)
    × (apply_grants kernel supervisor batch cs
        ≡ ok (kernel_moved, supervisor_stripped, delivered batch cs))
    × (Map.get 1 channels_sent.queues ≡ some (queue ++ message_of supervisor batch cs 7 ∷ []))
    × ((supervisor_sent, stamp_sent) ≡ Process.record_send supervisor_stripped)
unfolding program
send_effect_example =
    send_effect channels channels_sent kernel kernel_moved endpoint supervisor supervisor_sent batch
      7 1 stamp_sent refl

send_total_example :
    ((e : CapError) × (check kernel receive_only Rights.write ≡ err e)
      × (send channels kernel receive_only supervisor batch 7 ≡ err (capability e)))
    ⊎ ((check kernel receive_only Rights.write ≡ ok tt)
        × (Map.get 1 channels.queues ≡ none)
        × (send channels kernel receive_only supervisor batch 7 ≡ err (unknown_channel 1)))
    ⊎ ((e : GrantError) × (check kernel receive_only Rights.write ≡ ok tt)
        × (resolve_grants kernel supervisor batch ≡ err e)
        × (send channels kernel receive_only supervisor batch 7 ≡ err (grant e)))
    ⊎ ((queue : List Message) × (cs : List Capability) × (check kernel receive_only Rights.write
          ≡ ok tt)
        × (Map.get 1 channels.queues ≡ some queue)
        × (resolve_grants kernel supervisor batch ≡ ok cs)
        × (send channels kernel receive_only supervisor batch 7
            ≡ ok (after_send channels kernel receive_only supervisor batch 7 queue cs)))
send_total_example = send_total channels kernel receive_only supervisor batch 7

worker-IsValid : Table.IsValid worker
unfolding program
worker-IsValid = record { rises = tt; free = λ h le. refl }

sent-IsValid : Merge.IsValid stamp_sent.vector
unfolding program Vector.tick
sent-IsValid = Merge.tick-IsValid Vector.new 0 (omega arith) Merge.new-IsValid

receive_delivers_example :
    (r' : ChannelRegistry) × (receiver' : Process) × (d : Delivery) × (receive channels kernel
        endpoint worker
      ≡ ok (r', receiver', some d))
    × (Map.get 1 r'.queues ≡ some [])
    × (d.payload ≡ 7)
    × (d.sent_at ≡ stamp_sent)
    × (Process.capability receiver' 1 ≡ some receive_only)
    × (get_elem? d.handles 1 ≡ some 1)
    × (happened_before d.sent_at d.received_at ≡ true)
    × (d.sent_at.lamport < d.received_at.lamport)
unfolding program
receive_delivers_example =
    receive_delivers channels kernel endpoint worker message [] 1 1 1 refl refl worker-IsValid
      (omega arith) sent-IsValid (omega arith, omega arith)

abbrev worker_received : Process × Delivery
worker_received = (
  record {
    id = 1;
    capabilities = (0, owner_moved) ∷ (1, receive_only) ∷ [];
    next_handle = 2;
    clock = record {
      process = 1;
      lamport = record { time = 2 };
      vector = record { entries = (0, 1) ∷ (1, 1) ∷ [] };
    };
  },
  record {
    payload = 7;
    handles = 0 ∷ 1 ∷ [];
    sent_at = stamp_sent;
    received_at = record {
      process = 1;
      lamport = 2;
      vector = record { entries = (0, 1) ∷ (1, 1) ∷ [] };
    };
  },
)

exchange : Traffic 1 channels ((7, stamp_sent) ∷ []) ((7, stamp_sent) ∷ []) channels
unfolding program
exchange =
    sent {r' = channels_sent} kernel kernel_moved endpoint supervisor supervisor_sent batch 7
      stamp_sent refl refl
      (received {r' = channels} kernel_moved endpoint worker worker_received.0 worker_received.1
        refl refl done)

channel_fifo_example :
    (queue' : List Message) × (Map.get 1 channels.queues ≡ some queue')
    × ((7, stamp_sent) ∷ (7, stamp_sent) ∷ [] ≡ (7, stamp_sent) ∷ map sent_mark queue')
unfolding program
channel_fifo_example = channel_fifo (message ∷ []) exchange refl
