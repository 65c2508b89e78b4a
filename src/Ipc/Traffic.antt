-- ===== src/Ipc/Traffic.antt =====
-- crates/ipc/src/lib.rs: the queue of one channel under sends and receives, by any processes on any
-- channels.
use muaddib.Prelude.{
  ℕ, ◌≡◌, ◌≢◌, none, some, List, [], ◌∷◌, ◌++◌, map, ok, arith, ◌∙◌, sym, ap, eq_of_some,
}
use mathlib.Core.List.{append_assoc, append-nil, map-append}
use muaddib.Map
use muaddib.Map.Laws.{get-insert_self, get-insert_ne}
use muaddib.Capability.{Capability, Kernel}
use muaddib.Clock.{Stamp}
use muaddib.Process.{Process}
use muaddib.Process.Transfer.{Grant}
use muaddib.Ipc.{ChannelRegistry, Message, Delivery, send, receive, deliver}
use muaddib.Ipc.Send.{message_of, send_effect}
use muaddib.Ipc.Receive.{receive-eq_ok}

-- What a message and its delivery have in common.
abbrev pub sent_mark : Message → ℕ × Stamp
sent_mark m = (m.payload, m.sent_at)

abbrev pub got_mark : Delivery → ℕ × Stamp
got_mark d = (d.payload, d.sent_at)

-- A run of successful calls, with the marks sent and received on the channel `o`.
pub data Traffic (o : ℕ)
    : ChannelRegistry → List (ℕ × Stamp) → List (ℕ × Stamp) → ChannelRegistry → Type 0 where
  done : {r : ChannelRegistry} → Traffic o r [] [] r
  sent :
      {r r' r'' : ChannelRegistry} {ins outs : List (ℕ × Stamp)} (k k' : Kernel)
      (channel : Capability) (sender sender' : Process) (gs : List Grant) (payload : ℕ)
      (stamp : Stamp)
      → send r k channel sender gs payload ≡ ok (r', k', sender', stamp)
      → channel.object ≡ o
      → Traffic o r' ins outs r''
      → Traffic o r ((payload, stamp) ∷ ins) outs r''
  received :
      {r r' r'' : ChannelRegistry} {ins outs : List (ℕ × Stamp)} (k : Kernel) (channel : Capability)
      (receiver receiver' : Process) (d : Delivery)
      → receive r k channel receiver ≡ ok (r', receiver', some d)
      → channel.object ≡ o
      → Traffic o r' ins outs r''
      → Traffic o r ins (got_mark d ∷ outs) r''
  found_empty :
      {r r' r'' : ChannelRegistry} {ins outs : List (ℕ × Stamp)} (k : Kernel) (channel : Capability)
      (receiver receiver' : Process)
      → receive r k channel receiver ≡ ok (r', receiver', none)
      → Traffic o r' ins outs r''
      → Traffic o r ins outs r''
  sent_elsewhere :
      {r r' r'' : ChannelRegistry} {ins outs : List (ℕ × Stamp)} (k k' : Kernel)
      (channel : Capability) (sender sender' : Process) (gs : List Grant) (payload : ℕ)
      (stamp : Stamp)
      → send r k channel sender gs payload ≡ ok (r', k', sender', stamp)
      → o ≢ channel.object
      → Traffic o r' ins outs r''
      → Traffic o r ins outs r''
  received_elsewhere :
      {r r' r'' : ChannelRegistry} {ins outs : List (ℕ × Stamp)} (k : Kernel) (channel : Capability)
      (receiver receiver' : Process) (d : Delivery)
      → receive r k channel receiver ≡ ok (r', receiver', some d)
      → o ≢ channel.object
      → Traffic o r' ins outs r''
      → Traffic o r ins outs r''

-- A receive that delivers took the oldest message.
pub receive-some :
    (r r' : ChannelRegistry) (k : Kernel) (channel : Capability) (receiver receiver' : Process)
    (d : Delivery)
    → receive r k channel receiver ≡ ok (r', receiver', some d)
    → (m : Message) × (rest : List Message) × (Map.get channel.object r.queues ≡ some (m ∷ rest))
      × (got_mark d ≡ sent_mark m)
      × (r' ≡ record { queues = Map.insert channel.object rest r.queues })
unfolding deliver
receive-some r r' k channel receiver receiver' d h =
    let (queue, _, found, same) = receive-eq_ok r r' k channel receiver receiver' (some d) h in
    by_queue queue found same
  where
    by_queue :
        (queue : List Message)
        → Map.get channel.object r.queues ≡ some queue
        → (r', receiver', some d) ≡ deliver r channel.object receiver queue
        → (m : Message) × (rest : List Message) × (Map.get channel.object r.queues
            ≡ some (m ∷ rest))
          × (got_mark d ≡ sent_mark m)
          × (r' ≡ record { queues = Map.insert channel.object rest r.queues })
    by_queue [] found same = absurd (ground arith)
    by_queue (m ∷ rest) found same = (m, rest, found, ground arith, ground arith)

receive-none :
    (r r' : ChannelRegistry) (k : Kernel) (channel : Capability) (receiver receiver' : Process)
    → receive r k channel receiver ≡ ok (r', receiver', none)
    → r' ≡ r
unfolding deliver
receive-none r r' k channel receiver receiver' h =
    let (queue, _, found, same) = receive-eq_ok r r' k channel receiver receiver' none h in
    by_queue queue same
  where
    by_queue :
        (queue : List Message)
        → (r', receiver', none) ≡ deliver r channel.object receiver queue
        → r' ≡ r
    by_queue [] same = ground arith
    by_queue (m ∷ rest) same = absurd (ground arith)

send_appends :
    (o : ℕ) (r r' : ChannelRegistry) (k k' : Kernel) (channel : Capability)
    (sender sender' : Process) (gs : List Grant) (payload : ℕ) (stamp : Stamp)
    (queue : List Message)
    → send r k channel sender gs payload ≡ ok (r', k', sender', stamp)
    → channel.object ≡ o
    → Map.get o r.queues ≡ some queue
    → (m : Message) × (sent_mark m ≡ (payload, stamp))
      × (Map.get o r'.queues ≡ some (queue ++ m ∷ []))
send_appends o r r' k k' channel sender sender' gs payload stamp queue call here at =
    let (queue₀, cs, _, found, _, _, after, marks) =
      send_effect r r' k k' channel sender sender' gs payload channel.object stamp call in
    let same : queue₀ ≡ queue = eq_of_some (cc) in
    (message_of sender gs cs payload, ground arith, ground arith)

receive_pops :
    (o : ℕ) (r r' : ChannelRegistry) (k : Kernel) (channel : Capability)
    (receiver receiver' : Process) (d : Delivery) (queue : List Message)
    → receive r k channel receiver ≡ ok (r', receiver', some d)
    → channel.object ≡ o
    → Map.get o r.queues ≡ some queue
    → (m : Message) × (rest : List Message) × (queue ≡ m ∷ rest)
      × (got_mark d ≡ sent_mark m)
      × (Map.get o r'.queues ≡ some rest)
receive_pops o r r' k channel receiver receiver' d queue call here at =
    let (m, rest, found, mark, after) = receive-some r r' k channel receiver receiver' d call in
    (
      m,
      rest,
      eq_of_some (cc),
      mark,
      rw (after, ← here) (get-insert_self channel.object rest r.queues),
    )

-- Whatever is sent to a channel comes out of it in the same order, once: the messages that were
-- queued at first, followed by those sent, are those delivered, followed by those queued at the end.
pub channel_fifo :
    {o : ℕ} {r r' : ChannelRegistry} {ins outs : List (ℕ × Stamp)} (queue : List Message)
    → Traffic o r ins outs r'
    → Map.get o r.queues ≡ some queue
    → (queue' : List Message) × (Map.get o r'.queues ≡ some queue')
      × (map sent_mark queue ++ ins ≡ outs ++ map sent_mark queue')
channel_fifo queue done at = (queue, at, append-nil (map sent_mark queue))
channel_fifo {o} queue
      (sent {r = r} {r' = r₁} {ins = ins} k k' channel sender sender' gs payload stamp call here t)
      at =
    let (m, mark, after) =
      send_appends o r r₁ k k' channel sender sender' gs payload stamp queue call here at in
    let (queue', at', fifo) = channel_fifo (queue ++ m ∷ []) t after in
    (
      queue',
      at',
      rw (← mark) (sym (append_assoc (map sent_mark queue) (sent_mark m ∷ []) ins))
          ∙ ap (λ l. l ++ ins) (sym (map-append sent_mark queue (m ∷ [])))
          ∙ fifo,
    )
channel_fifo {o} queue (received {r = r} {r' = r₁} k channel receiver receiver' d call here t) at =
    let (m, rest, split, mark, after) =
      receive_pops o r r₁ k channel receiver receiver' d queue call here at in
    let (queue', at', fifo) = channel_fifo rest t after in (queue', at', rw (split, mark, fifo))
channel_fifo {o} queue (found_empty {r = r} {r' = r₁} k channel receiver receiver' call t) at =
    channel_fifo queue t (rw (receive-none r r₁ k channel receiver receiver' call) at)
channel_fifo {o} queue
      (sent_elsewhere {r = r} {r' = r₁} k k' channel sender sender' gs payload stamp call ne t) at =
    let (_, _, _, _, _, _, after, _) =
      send_effect r r₁ k k' channel sender sender' gs payload o stamp call in
    channel_fifo queue t (ground arith)
channel_fifo {o} queue
      (received_elsewhere {r = r} {r' = r₁} k channel receiver receiver' d call ne t) at =
    let (m, rest, _, _, after) = receive-some r r₁ k channel receiver receiver' d call in
    channel_fifo queue t (rw after (get-insert_ne o channel.object rest r.queues ne ∙ at))
