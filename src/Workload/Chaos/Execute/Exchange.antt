-- ===== src/Workload/Chaos/Execute/Exchange.antt =====
-- crates/workload/src/chaos.rs: spawning, sending and receiving, each tried on the kernel and
-- compared with the model's mirrors and its queues of messages in flight.
use muaddib.Prelude.{
  ℕ, zero, suc, Option, none, some, List, [], ◌∷◌, ◌++◌, Result, ok, err, panic, ◌>>=◌, ◌>>◌,
  expect, get_elem?, length, drop, is_some, if◌then◌else◌, ◌==◌,
}
use muaddib.Map
use muaddib.Capability.Rights.{◌∪◌}
use muaddib.Capability.Rights
use muaddib.Clock.{Stamp, same_stamp}
use muaddib.Process.{Process}
use muaddib.Process
use muaddib.Process.Transfer.{Grant}
use muaddib.Process.Scheduler.{Scheduler}
use muaddib.Process.Scheduler
use muaddib.Ipc
use muaddib.Capability.{Kernel}
use muaddib.Workload.Chaos.{channel, CapModel}
use muaddib.Workload.Chaos.Failures.{
  Failure, child_count, spawn_disagrees, send_disagrees, receive_failed, wrong_send_stamp,
  delivered_count, receive_disagrees,
}
use muaddib.Workload.Chaos.Ops.{
  GrantKind, max_processes, channels, spawn_name, send_name, receive_name,
}
use muaddib.Workload.Chaos.World.{
  World, MessageModel, Entry, spawned, sent, received, modify, log, outcome, record_event,
  real_process, channel_handle, channel_cap,
}
use muaddib.Workload.Chaos.Batches.{concrete_grants, apply_grants_model, to_grants}
use muaddib.Workload.Chaos.Execute.Access.{answered, is_ok, ensure}

-- What the model's batch leaves of the world, and the models that it delivers.
abbrev pub predicted_world : World → Result (Unit {0}) (World × List CapModel) → World
predicted_world w (ok (w', delivered)) = w'
predicted_world w (err e) = w
predicted_world w panic = w

unfoldable pub set_real : World → ℕ → Process → Result Failure World
unfolding Scheduler.set_process
set_real w p proc = do
  model ← expect (get_elem? w.procs p)
  ok (record w { sched = Scheduler.set_process w.sched model.pid proc })

-- The loop over the handles that a process got, zipped with their models.
unfoldable pub adopt : World → ℕ → List ℕ → List CapModel → Result Failure World
unfolding real_process Process.capability modify Map.insert
adopt w p [] models = ok w
adopt w p (h ∷ hs) [] = ok w
adopt w p (h ∷ hs) (m ∷ ms) = do
  proc ← real_process w p
  cap ← expect (Process.capability proc h)
  procs ← modify (λ mirror. record mirror { table = Map.insert h m mirror.table }) p w.procs
  adopt (record w { procs = procs; stash = w.stash ++ (cap, m) ∷ [] }) p hs ms

-- The grants of the channels from number `c` on, `n` of them, that every child gets.
unfoldable pub channel_grants : World → ℕ → ℕ → ℕ → Result Failure (List Grant)
unfolding channel_handle ◌∪◌
channel_grants w parent zero c = ok []
channel_grants w parent (suc n) c = do
  h ← channel_handle w parent c
  rest ← channel_grants w parent n (suc c)
  ok (Grant.derive h (Rights.read ∪ Rights.write ∪ Rights.grant) ∷ rest)

unfoldable pub channel_models : ℕ → ℕ → List CapModel
unfolding ◌∪◌
channel_models zero c = []
channel_models (suc n) c =
    record { obj = channel c; rights = Rights.read ∪ Rights.write ∪ Rights.grant; epoch = 0 }
    ∷ channel_models n (suc c)

-- The arm of an accepted spawn: the child's mirror, and the events of the spawn and the birth.
unfoldable pub add_child : World → ℕ → ℕ → List CapModel → Result Failure World
unfolding real_process record_event Process.clock_stamp Process.handles channel_models adopt
    Scheduler.process
add_child w parent child delivered = do
  parent_proc ← real_process w parent
  (w₁, spawn_event) ← record_event w parent (Process.clock_stamp parent_proc) []
  child_proc ← expect (Scheduler.process w₁.sched child)
  let handles = Process.handles child_proc
  let models = channel_models channels 0 ++ delivered
  ensure (length handles == length models) child_count
  let child_index = length w₁.procs
  let w₂ : World = record w₁ {
    procs = w₁.procs ++ record { pid = child; table = Map.empty } ∷ [];
    last_event = w₁.last_event ++ none ∷ [];
  }
  w₃ ← adopt w₂ child_index handles models
  (w₄, birth) ← record_event w₃ child_index (Process.clock_stamp child_proc) (spawn_event ∷ [])
  ok w₄

-- The world with what an accepted call left, else as it was.
abbrev pub spawned_world {ℓ} : {E : Type ℓ} → World → Result E (Scheduler × Kernel × ℕ) → World
spawned_world w (ok (sched, k, child)) = record w { sched = sched; k = k }
spawned_world w (err e) = w
spawned_world w panic = w

abbrev pub spawn_verdict {ℓ} :
    {E : Type ℓ}
    → World
    → ℕ
    → Result E (Scheduler × Kernel × ℕ)
    → Result (Unit {0}) (World × List CapModel)
    → Result Failure World
spawn_verdict w parent (err e) (err rejected) = ok w
spawn_verdict w parent (ok (sched, k, child)) (ok (_, delivered)) =
    add_child w parent child delivered
spawn_verdict w parent result predicted = err spawn_disagrees

module _ (render : Entry → List ℕ) where
  abbrev spawn_below_limit : World → ℕ → List (ℕ × GrantKind) → Result Failure World
  spawn_below_limit w parent grants = do
    concrete ← concrete_grants w parent grants
    predicted ← answered (apply_grants_model w parent concrete)
    let w₁ = predicted_world w predicted
    shared ← channel_grants w₁ parent channels 0
    mirror ← expect (get_elem? w₁.procs parent)
    result ←
        answered (Scheduler.spawn_child w₁.sched w₁.k mirror.pid (shared ++ to_grants concrete))
    let w₂ = log render (spawned_world w₁ result) (spawned parent concrete (is_ok result))
    spawn_verdict (outcome w₂ spawn_name (is_ok result)) parent result predicted

  unfoldable pub spawn : World → ℕ → List (ℕ × GrantKind) → Result Failure World
  unfolding concrete_grants apply_grants_model channel_grants to_grants Scheduler.spawn_child log
      outcome add_child
  spawn w parent grants =
      if length w.procs == max_processes then ok w else spawn_below_limit w parent grants

  abbrev sent_world {ℓ} :
      {E : Type ℓ}
      → World
      → ℕ
      → Result E (Ipc.ChannelRegistry × Kernel × Process × Stamp)
      → Result Failure World
  sent_world w p (ok (registry, k, proc, stamp)) =
      set_real (record w { channels = registry; k = k }) p proc
  sent_world w p (err e) = ok w
  sent_world w p panic = panic

  abbrev send_verdict {ℓ} :
      {E : Type ℓ}
      → World
      → ℕ
      → ℕ
      → Result E (Ipc.ChannelRegistry × Kernel × Process × Stamp)
      → Result (Unit {0}) (World × List CapModel)
      → Result Failure World
  send_verdict w p c (err e) (err rejected) = ok w
  send_verdict w p c (ok (registry, k, proc, stamp)) (ok (_, caps)) = do
    (w₁, send_event) ← record_event w p stamp []
    let message : MessageModel = record { send_event = send_event; caps = caps }
    in_flight ← modify (λ queue. queue ++ message ∷ []) c w₁.in_flight
    ok (record w₁ { in_flight = in_flight })
  send_verdict w p c result predicted = err send_disagrees

  unfoldable pub send : World → ℕ → ℕ → List (ℕ × GrantKind) → Result Failure World
  unfolding concrete_grants apply_grants_model channel_cap real_process set_real to_grants Ipc.send
      log outcome record_event modify
  send w p c grants = do
    concrete ← concrete_grants w p grants
    predicted ← answered (apply_grants_model w p concrete)
    let w₁ = predicted_world w predicted
    chan ← channel_cap w₁ p c
    proc ← real_process w₁ p
    result ← answered (Ipc.send w₁.channels w₁.k chan proc (to_grants concrete) 0)
    w₂ ← sent_world w₁ p result
    let w₃ = log render w₂ (sent p c concrete (is_ok result))
    send_verdict (outcome w₃ send_name (is_ok result)) p c result predicted

  -- `pop_front`.
  abbrev front {ℓ} : {A : Type ℓ} → List A → Option A
  front [] = none
  front (a ∷ rest) = some a

  abbrev receive_verdict :
      World → ℕ → Option Ipc.Delivery → Option MessageModel → Result Failure World
  receive_verdict w p none none = ok w
  receive_verdict w p (some d) (some msg) = do
    stamp ← expect (get_elem? w.stamps msg.send_event)
    ensure (same_stamp d.sent_at stamp) wrong_send_stamp
    ensure (length d.handles == length msg.caps) delivered_count
    w₁ ← adopt w p d.handles msg.caps
    (w₂, event) ← record_event w₁ p d.received_at (msg.send_event ∷ [])
    ok w₂
  receive_verdict w p d expected = err receive_disagrees

  unfoldable pub receive : World → ℕ → ℕ → Result Failure World
  unfolding channel_cap real_process set_real Ipc.receive modify log outcome same_stamp adopt
      record_event
  receive w p c = do
    chan ← channel_cap w p c
    proc ← real_process w p
    result ← answered (Ipc.receive w.channels w.k chan proc)
    queue ← expect (get_elem? w.in_flight c)
    in_flight ← modify (drop 1) c w.in_flight
    elim result [
      | err e ↦ err receive_failed
      | panic ↦ panic
      | ok answer ↦
          let (registry, proc', delivery) = answer in
          set_real (record w { channels = registry; in_flight = in_flight }) p proc' >>= λ w₁.
          let w₂ = log render w₁ (received p c (is_some delivery)) in
          receive_verdict (outcome w₂ receive_name (is_some delivery)) p delivery (front queue)
    ]
