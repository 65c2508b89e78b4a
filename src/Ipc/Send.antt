-- ===== src/Ipc/Send.antt =====
-- crates/ipc/src/lib.rs: `send`.
use muaddib.Prelude.{
  ◌⊎◌, inl, inr, none, Option-cases, Result-cases, ◌==◌, if◌then◌else◌, ℕ, ◌≡◌, none, some, List,
  [], ◌∷◌, ◌++◌, ok, err, ok_or, map_err, >>=-eq_ok, map_err-eq_ok, ok_or-eq_ok, arith,
}
use muaddib.Map
use muaddib.Map.Laws.{get-insert}
use muaddib.Capability.Rights.{Rights, contains}
use muaddib.Capability.Rights
use muaddib.Capability.{Capability, CapError, Kernel}
use muaddib.Capability
use muaddib.Clock.{Stamp}
use muaddib.Process.{Process, record_send}
use muaddib.Process.Transfer.{Grant, GrantError, resolve_grants, apply_grants}
use muaddib.Process.Transfer.Resolved.{resolve_grants-ne_panic}
use muaddib.Capability.Check.{check_cases}
use muaddib.Process.Transfer.Applied.{apply-resolve, moved, stripped, delivered}
use muaddib.Ipc.{ChannelRegistry, Message, send, unknown_channel, capability, grant}

-- The message that a batch makes.
abbrev pub message_of : Process → List Grant → List Capability → ℕ → Message
message_of sender gs cs payload = record {
  payload = payload;
  capabilities = delivered gs cs;
  sent_at = (record_send (stripped sender gs)).1;
}

-- What a successful send returns.
abbrev pub after_send :
    ChannelRegistry
    → Kernel
    → Capability
    → Process
    → List Grant
    → ℕ
    → List Message
    → List Capability
    → ChannelRegistry × Kernel × Process × Stamp
after_send r k channel sender gs payload queue cs = (
  record {
    queues = Map.insert channel.object (queue ++ message_of sender gs cs payload ∷ []) r.queues;
  },
  moved k gs cs,
  (record_send (stripped sender gs)).0,
  (record_send (stripped sender gs)).1,
)

send_done :
    (r : ChannelRegistry) (k : Kernel) (channel : Capability) (sender : Process) (gs : List Grant)
    (payload : ℕ) (queue : List Message) (cs : List Capability)
    → Capability.check k channel Rights.write ≡ ok tt
    → Map.get channel.object r.queues ≡ some queue
    → resolve_grants k sender gs ≡ ok cs
    → send r k channel sender gs payload ≡ ok (after_send r k channel sender gs payload queue cs)
unfolding send
send_done r k channel sender gs payload queue cs granted found resolved =
    rw (granted, found, resolved, apply-resolve k sender gs cs resolved)

-- Every send ends in one of four ways, and never in a panic: the channel's capability fails its
-- check for WRITE; or there is no such channel; or the grants do not resolve; or it succeeds, with
-- the side effects of the batch, one event at the sender, and the message at the end of the queue.
pub send_total :
    (r : ChannelRegistry) (k : Kernel) (channel : Capability) (sender : Process) (gs : List Grant)
    (payload : ℕ)
    → ((e : CapError) × (Capability.check k channel Rights.write ≡ err e)
        × (send r k channel sender gs payload ≡ err (capability e)))
      ⊎ ((Capability.check k channel Rights.write ≡ ok tt)
          × (Map.get channel.object r.queues ≡ none)
          × (send r k channel sender gs payload ≡ err (unknown_channel channel.object)))
      ⊎ ((e : GrantError) × (Capability.check k channel Rights.write ≡ ok tt)
          × (resolve_grants k sender gs ≡ err e)
          × (send r k channel sender gs payload ≡ err (grant e)))
      ⊎ ((queue : List Message) × (cs : List Capability) × (Capability.check k channel Rights.write
            ≡ ok tt)
          × (Map.get channel.object r.queues ≡ some queue)
          × (resolve_grants k sender gs ≡ ok cs)
          × (send r k channel sender gs payload
              ≡ ok (after_send r k channel sender gs payload queue cs)))
unfolding send
send_total r k channel sender gs payload = elim (check_cases k channel Rights.write) [
  | inr (e, refused) ↦ inl (e, refused, rw refused)
  | inl (_, _, granted) ↦ inr (elim (Option-cases (Map.get channel.object r.queues)) [
    | inl missing ↦ inl (granted, missing, rw (granted, missing))
    | inr (queue, found) ↦
        inr
          (elim (Result-cases (resolve_grants k sender gs) (resolve_grants-ne_panic k sender gs)) [
            | inr (e, refused) ↦ inl (e, granted, refused, rw (granted, found, refused))
            | inl (cs, resolved) ↦ inr (
              queue,
              cs,
              granted,
              found,
              resolved,
              send_done r k channel sender gs payload queue cs granted found resolved,
            )
          ])
  ])
]

-- A send that succeeds put one message at the end of the queue of its channel and touched no other
-- queue; the message carries what the sender's grants delivered and the stamp that is returned.
pub send_effect :
    (r r' : ChannelRegistry) (k k' : Kernel) (channel : Capability) (sender sender' : Process)
    (gs : List Grant) (payload o : ℕ) (stamp : Stamp)
    → send r k channel sender gs payload ≡ ok (r', k', sender', stamp)
    → (queue : List Message) × (cs : List Capability) × (Capability.check k channel Rights.write
        ≡ ok tt)
      × (Map.get channel.object r.queues ≡ some queue)
      × (resolve_grants k sender gs ≡ ok cs)
      × (apply_grants k sender gs cs ≡ ok (k', stripped sender gs, delivered gs cs))
      × (Map.get o r'.queues ≡ (
          if o == channel.object
          then some (queue ++ message_of sender gs cs payload ∷ [])
          else Map.get o r.queues))
      × ((sender', stamp) ≡ record_send (stripped sender gs))
unfolding send
send_effect r r' k k' channel sender sender' gs payload o stamp h =
    let (_, checked, h₁) =
      >>=-eq_ok (map_err capability (Capability.check k channel Rights.write)) _ h in
    let (queue, found, h₂) =
      >>=-eq_ok (ok_or (Map.get channel.object r.queues) (unknown_channel channel.object)) _ h₁ in
    let (cs, resolved, _) = >>=-eq_ok (map_err grant (resolve_grants k sender gs)) _ h₂ in
    let granted = map_err-eq_ok capability (Capability.check k channel Rights.write) checked in
    let at = ok_or-eq_ok (Map.get channel.object r.queues) (unknown_channel channel.object) found in
    let batch = map_err-eq_ok grant (resolve_grants k sender gs) resolved in
    let same = send_done r k channel sender gs payload queue cs granted at batch in
    let new_queue = queue ++ message_of sender gs cs payload ∷ [] in
    let kernel : k' ≡ moved k gs cs = ground arith in
    (
      queue,
      cs,
      granted,
      at,
      batch,
      rw kernel (apply-resolve k sender gs cs batch),
      ground (arith, get-insert o channel.object new_queue r.queues),
      ground arith,
    )
