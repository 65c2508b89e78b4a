-- ===== src/Ipc/Receive.antt =====
-- crates/ipc/src/lib.rs: `receive`.
use muaddib.Prelude.{
  ◌==◌, ℕ, ◌+◌, ◌-◌, ◌<◌, ◌≡◌, refl, true, Option, none, some, List, ◌∷◌, ok, ok_or, map_err,
  >>=-eq_ok, map_err-eq_ok, ok_or-eq_ok, arith, if◌then◌else◌, get_elem?, length, ltb, u32_mod,
}
use muaddib.Map
use muaddib.Map.Laws.{get-insert}
use muaddib.Capability.Rights
use muaddib.Capability.{Capability, CapError, Kernel}
use muaddib.Capability
use muaddib.Clock.{happened_before}
use muaddib.Clock.Vector.Merge
use muaddib.Clock.Stamps.{receive_later, HasRoom}
use muaddib.Process.{Process, grant_all, record_receive}
use muaddib.Process
use muaddib.Process.Table.{IsValid, grant_all_exact, grant_all-clock}
use muaddib.Ipc.{ChannelRegistry, Message, Delivery, receive, deliver, unknown_channel, capability}

receive_done :
    (r : ChannelRegistry) (k : Kernel) (channel : Capability) (receiver : Process)
    (queue : List Message)
    → Capability.check k channel Rights.read ≡ ok tt
    → Map.get channel.object r.queues ≡ some queue
    → receive r k channel receiver ≡ ok (deliver r channel.object receiver queue)
unfolding receive
receive_done r k channel receiver queue granted found = rw (granted, found)

-- Every receive that returns went through the check for READ and the queue of its channel.
pub receive-eq_ok :
    (r r' : ChannelRegistry) (k : Kernel) (channel : Capability) (receiver receiver' : Process)
    (d : Option Delivery)
    → receive r k channel receiver ≡ ok (r', receiver', d)
    → (queue : List Message) × (Capability.check k channel Rights.read ≡ ok tt)
      × (Map.get channel.object r.queues ≡ some queue)
      × ((r', receiver', d) ≡ deliver r channel.object receiver queue)
unfolding receive
receive-eq_ok r r' k channel receiver receiver' d h =
    let (_, checked, h₁) =
      >>=-eq_ok (map_err capability (Capability.check k channel Rights.read)) _ h in
    let (queue, found, h₂) =
      >>=-eq_ok (ok_or (Map.get channel.object r.queues) (unknown_channel channel.object)) _ h₁ in
    (
      queue,
      map_err-eq_ok capability (Capability.check k channel Rights.read) checked,
      ok_or-eq_ok (Map.get channel.object r.queues) (unknown_channel channel.object) found,
      ground arith,
    )

-- What a delivery does: the oldest message leaves the queue and no other queue changes; its
-- capabilities enter the receiver's table under the handles that the delivery names, in the
-- message's order, and nothing else does; and the receive is stamped later than the send.
pub receive_delivers :
    (r : ChannelRegistry) (k : Kernel) (channel : Capability) (receiver : Process)
    (message : Message) (queue : List Message) (o h i : ℕ)
    → Capability.check k channel Rights.read ≡ ok tt
    → Map.get channel.object r.queues ≡ some (message ∷ queue)
    → IsValid receiver
    → receiver.next_handle + length message.capabilities < u32_mod
    → Merge.IsValid message.sent_at.vector
    → HasRoom receiver.clock message.sent_at
    → (r' : ChannelRegistry) × (receiver' : Process) × (d : Delivery) × (receive r k channel
          receiver
        ≡ ok (r', receiver', some d))
      × (Map.get o r'.queues ≡ (if o == channel.object then some queue else Map.get o r.queues))
      × (d.payload ≡ message.payload)
      × (d.sent_at ≡ message.sent_at)
      × (Process.capability receiver' h ≡ (
          if ltb h receiver.next_handle
          then Process.capability receiver h
          else get_elem? message.capabilities (h - receiver.next_handle)))
      × (get_elem? d.handles i
          ≡ (if ltb i (length message.capabilities) then some (receiver.next_handle + i) else none))
      × (happened_before d.sent_at d.received_at ≡ true)
      × (d.sent_at.lamport < d.received_at.lamport)
unfolding deliver record_receive Process.capability
receive_delivers r k channel receiver message queue o h i granted found v room stamped clock_room =
    let given = grant_all receiver message.capabilities in
    let (table, handles, _) = grant_all_exact receiver message.capabilities h i v room in
    let same_clock = grant_all-clock receiver message.capabilities in
    let (later, later', _, _) =
      receive_later given.0.clock message.sent_at stamped (rw same_clock clock_room) in
    let (r', receiver', _) = deliver r channel.object receiver (message ∷ queue) in
    (
      r',
      receiver',
      record {
        payload = message.payload;
        handles = given.1;
        sent_at = message.sent_at;
        received_at = (record_receive given.0 message.sent_at).1;
      },
      receive_done r k channel receiver (message ∷ queue) granted found,
      get-insert o channel.object queue r.queues,
      refl,
      refl,
      table,
      handles,
      later,
      later',
    )
