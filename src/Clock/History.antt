-- ===== src/Clock/History.antt =====
-- Events of many processes: each process has its clock (crates/clock/src/lib.rs), and an event is
-- recorded with its stamp and its direct causes, as `World::record_event` does in
-- crates/workload/src/chaos.rs: the send that a receive answers, and the process's last event.
pub mod Records
pub mod Causal
pub mod Incoming
pub mod Extend
pub mod Order
use muaddib.Prelude.{
  ℕ, ◌≡◌, ◌⊎◌, Option, none, some, List, [], ◌∷◌, ◌++◌, length, get_elem?, ◌==◌, if◌then◌else◌,
}
use muaddib.Clock.{Stamp, EventClock, local_event, send_event, receive_event}
use muaddib.Clock

pub record History : Type 0 where
  pub clocks : ℕ → EventClock
  pub last : ℕ → Option ℕ
  pub stamps : List Stamp
  pub preds : List (List ℕ)

abbrev pub blank : History
blank = record { clocks = λ p. Clock.new p; last = λ p. none; stamps = []; preds = [] }

abbrev pub to_list : Option ℕ → List ℕ
to_list none = []
to_list (some i) = i ∷ []

abbrev pub update {ℓ} : {A : Type ℓ} → (ℕ → A) → ℕ → A → ℕ → A
update f p a q = if q == p then a else f q

-- One more event of `p`, caused by the events of `causes` and the last one of `p`.
abbrev pub append : History → ℕ → EventClock × Stamp → List ℕ → History
append h p (c, s) causes = record {
  clocks = update h.clocks p c;
  last = update h.last p (some (length h.stamps));
  stamps = h.stamps ++ s ∷ [];
  preds = h.preds ++ (causes ++ to_list (h.last p)) ∷ [];
}

pub data Step : History → History → Type 0 where
  local_at : (h : History) (p : ℕ) → Step h (append h p (local_event (h.clocks p)) [])
  sends : (h : History) (p : ℕ) → Step h (append h p (send_event (h.clocks p)) [])
  receives :
      (h : History) (p i : ℕ) (sent : Stamp)
      → get_elem? h.stamps i ≡ some sent
      → Step h (append h p (receive_event (h.clocks p) sent) (i ∷ []))

pub data Run : History → Type 0 where
  start : Run blank
  next : {h h' : History} → Run h → Step h h' → Run h'

-- `k` is an entry of the list.
abbrev pub Among : ℕ → List ℕ → Type 0
Among k [] = ⊥
Among k (j ∷ js) = (k ≡ j) ⊎ Among k js

-- The causal order: the chains of direct causes from `i` to `j`.
pub data Reaches (preds : List (List ℕ)) (i : ℕ) : ℕ → Type 0 where
  cause : {j : ℕ} (ps : List ℕ) → get_elem? preds j ≡ some ps → Among i ps → Reaches preds i j
  chain :
      {k j : ℕ} (ps : List ℕ)
      → Reaches preds i k
      → get_elem? preds j ≡ some ps
      → Among k ps
      → Reaches preds i j
