-- ===== src/Tests/Histories.antt =====
-- Two processes: a local event and a send of the one, and the receive of the other.
use muaddib.Prelude.{◌≡◌, refl, ◌↔◌, ◌<◌, inl, true, ok, [], ◌∷◌, arith}
use muaddib.Clock.{Stamp, EventClock, local_event, send_event, receive_event, happened_before}
use muaddib.Clock
use muaddib.Clock.History.{
  History, Run, start, next, local_at, sends, receives, blank, append, Reaches, cause, chain,
}
use muaddib.Clock.History.Order.{happened_before_iff, Reaches-lamport}
use muaddib.Workload.Chaos.Causality.{check_causality}
use muaddib.Workload.Chaos.Causality.Graph.{check_causality-Run}
use muaddib.Tests.Scene.{program}

abbrev worked : History
unfolding program
worked = append blank 0 (local_event (Clock.new 0)) []

abbrev sent : History
unfolding program
sent = append worked 0 (send_event (worked.clocks 0)) []

abbrev first_stamp : Stamp
first_stamp = record { process = 0; lamport = 1; vector = record { entries = (0, 1) ∷ [] } }

abbrev send_stamp : Stamp
send_stamp = record { process = 0; lamport = 2; vector = record { entries = (0, 2) ∷ [] } }

abbrev receive_stamp : Stamp
receive_stamp = record {
  process = 1;
  lamport = 3;
  vector = record { entries = (0, 2) ∷ (1, 1) ∷ [] };
}

abbrev received : History
unfolding program
received = append sent 1 (receive_event (sent.clocks 1) send_stamp) (1 ∷ [])

received-Run : Run received
unfolding program
received-Run =
    next (next (next start (local_at blank 0)) (sends worked 0)) (receives sent 1 1 send_stamp refl)

first-Reaches : Reaches received.preds 0 2
unfolding program
first-Reaches = chain {k = 1} (1 ∷ []) (cause (0 ∷ []) refl (inl refl)) refl (inl refl)

happened_before_iff_example :
    (happened_before first_stamp receive_stamp ≡ true) ↔ Reaches received.preds 0 2
unfolding program
happened_before_iff_example =
    happened_before_iff received 0 2 first_stamp receive_stamp received-Run (omega arith) refl refl

Reaches-lamport_example : 1 < 3
unfolding program
Reaches-lamport_example =
    Reaches-lamport received 0 2 first_stamp receive_stamp received-Run (omega arith) refl refl
      first-Reaches

check_causality-Run_example : check_causality received.stamps received.preds ≡ ok tt
unfolding program
check_causality-Run_example = check_causality-Run received received-Run (omega arith)
