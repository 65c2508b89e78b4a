-- ===== src/Ipc.antt =====
-- crates/ipc/src/lib.rs: channels and the messages in them. The `i64` of a message stands here as
-- its bit pattern, below 2 ^ 64, so the casts from and to `u64` are the identity.
pub mod Send
pub mod Receive
pub mod Traffic
use muaddib.Prelude.{
  ℕ, Option, none, some, List, [], ◌∷◌, ◌++◌, Result, ok, err, panic, ◌>>=◌, ◌>>◌, ok_or, map_err,
  length,
}
use muaddib.Map.{Map}
use muaddib.Map
use muaddib.Capability.Rights.{◌∪◌}
use muaddib.Capability.Rights
use muaddib.Capability.{Capability, CapError, Kernel}
use muaddib.Capability
use muaddib.Clock.{Stamp}
use muaddib.Process.{Process}
use muaddib.Process
use muaddib.Process.Transfer.{Grant, GrantError, resolve_grants, apply_grants}

pub record Message : Type 0 where
  pub payload : ℕ
  pub capabilities : List Capability
  pub sent_at : Stamp

pub record Delivery : Type 0 where
  pub payload : ℕ
  pub handles : List ℕ
  pub sent_at : Stamp
  pub received_at : Stamp

pub data IpcError : Type 0 where
  unknown_channel : (object : ℕ) → IpcError
  capability : CapError → IpcError
  grant : GrantError → IpcError

pub record ChannelRegistry : Type 0 where
  pub queues : Map (List Message)

abbrev pub new : ChannelRegistry
new = record { queues = Map.empty }

unfoldable pub new_channel : ChannelRegistry → Kernel → ChannelRegistry × Kernel × Capability
unfolding ◌∪◌ Capability.new_object
new_channel r k =
    let (k', c) =
      Capability.new_object k (Rights.read ∪ Rights.write ∪ Rights.grant ∪ Rights.destroy) in
    (record { queues = Map.insert c.object [] r.queues }, k', c)

-- `sender` is the process with its own table. The result holds what the call wrote to.
unfoldable pub send :
    ChannelRegistry
    → Kernel
    → Capability
    → Process
    → List Grant
    → ℕ
    → Result IpcError (ChannelRegistry × Kernel × Process × Stamp)
unfolding Process.record_send
send r k channel sender grants payload = do
  map_err capability (Capability.check k channel Rights.write)
  queue ← ok_or (Map.get channel.object r.queues) (unknown_channel channel.object)
  resolved ← map_err grant (resolve_grants k sender grants)
  (k', sender', delivered) ← map_err grant (apply_grants k sender grants resolved)
  let (sender'', sent_at) = Process.record_send sender'
  let message : Message = record { payload = payload; capabilities = delivered; sent_at = sent_at }
  ok (
    record { queues = Map.insert channel.object (queue ++ message ∷ []) r.queues },
    k',
    sender'',
    sent_at,
  )

-- The rest of `receive` at a queue, by its oldest message.
unfoldable pub deliver :
    ChannelRegistry → ℕ → Process → List Message → ChannelRegistry × Process × Option Delivery
unfolding Process.grant_all Process.record_receive
deliver r object receiver [] = (r, receiver, none)
deliver r object receiver (message ∷ queue) =
    let (receiver', handles) = Process.grant_all receiver message.capabilities in
    let (receiver'', received_at) = Process.record_receive receiver' message.sent_at in
    (
      record { queues = Map.insert object queue r.queues },
      receiver'',
      some (record {
        payload = message.payload;
        handles = handles;
        sent_at = message.sent_at;
        received_at = received_at;
      }),
    )

unfoldable pub receive :
    ChannelRegistry
    → Kernel
    → Capability
    → Process
    → Result IpcError (ChannelRegistry × Process × Option Delivery)
unfolding deliver
receive r k channel receiver = do
  map_err capability (Capability.check k channel Rights.read)
  queue ← ok_or (Map.get channel.object r.queues) (unknown_channel channel.object)
  ok (deliver r channel.object receiver queue)

abbrev length_of : Option (List Message) → Option ℕ
length_of none = none
length_of (some queue) = some (length queue)

unfoldable pub queue_len : ChannelRegistry → Capability → Option ℕ
queue_len r channel = length_of (Map.get channel.object r.queues)
