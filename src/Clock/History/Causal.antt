-- ===== src/Clock/History/Causal.antt =====
-- crates/clock/src/lib.rs: histories whose counters have not wrapped.
use muaddib.Prelude.{
  ℕ, ◌≤◌, ◌<◌, ◌≡◌, refl, ◌⊎◌, Option, none, some, List, length, get_elem?, arith,
}
use muaddib.Clock.{Stamp, EventClock}
use muaddib.Clock.Vector.{get}
use muaddib.Clock.Vector.Merge.{IsValid, new-IsValid, get-new}
use muaddib.Clock.History.{History, blank, Among, Reaches}

abbrev pub own : Stamp → ℕ
own s = get s.vector s.process

-- Of a clock and the stamp of its last event.
pub record Agrees (c : EventClock) (s : Stamp) : Type 0 where
  pub process : c.process ≡ s.process
  pub vector : (q : ℕ) → get c.vector q ≡ get s.vector q
  pub lamport : c.lamport.time ≡ s.lamport

-- The clock of `p`: that of its last event, or a new one.
pub data LastOf (h : History) (p : ℕ) : Option ℕ → Type 0 where
  never :
      ((q : ℕ) → get (h.clocks p).vector q ≡ 0) → (h.clocks p).lamport.time ≡ 0 → LastOf h p none
  at_event :
      (k : ℕ) (s : Stamp)
      → get_elem? h.stamps k ≡ some s
      → s.process ≡ p
      → Agrees (h.clocks p) s
      → LastOf h p (some k)

-- The event that is counted as the `n`th of `q`, and is `j` or before it.
pub record Witness (h : History) (j q n : ℕ) : Type 0 where
  pub event : ℕ
  pub stamp : Stamp
  pub there : get_elem? h.stamps event ≡ some stamp
  pub process : stamp.process ≡ q
  pub count : own stamp ≡ n
  pub reaches : (event ≡ j) ⊎ Reaches h.preds event j

-- A cause is earlier by every clock.
pub record Earlier (a b : Stamp) : Type 0 where
  pub below : (q : ℕ) → get a.vector q ≤ get b.vector q
  pub strict : get a.vector b.process < get b.vector b.process
  pub lamport : a.lamport < b.lamport

pub record IsCausal (h : History) : Type 0 where
  pub count : length h.preds ≡ length h.stamps
  pub clock_valid : (p : ℕ) → IsValid (h.clocks p).vector
  pub clock_process : (p : ℕ) → (h.clocks p).process ≡ p
  pub clock_last : (p : ℕ) → LastOf h p (h.last p)
  pub clock_known : (p q : ℕ) → get (h.clocks p).vector q ≤ get (h.clocks q).vector q
  pub clock_bound :
      (p : ℕ)
      → (get (h.clocks p).vector p ≤ length h.stamps)
        × ((h.clocks p).lamport.time ≤ length h.stamps)
  pub valid : (j : ℕ) (s : Stamp) → get_elem? h.stamps j ≡ some s → IsValid s.vector
  pub known :
      (j : ℕ) (s : Stamp)
      → get_elem? h.stamps j ≡ some s
      → (q : ℕ) → get s.vector q ≤ get (h.clocks q).vector q
  pub bound : (j : ℕ) (s : Stamp) → get_elem? h.stamps j ≡ some s → s.lamport ≤ length h.stamps
  pub positive : (j : ℕ) (s : Stamp) → get_elem? h.stamps j ≡ some s → 0 < own s
  pub witness :
      (j : ℕ) (s : Stamp)
      → get_elem? h.stamps j ≡ some s
      → (q n : ℕ) → 0 < n
      → n ≤ get s.vector q
      → Witness h j q n
  pub unique :
      (i j : ℕ) (s t : Stamp)
      → get_elem? h.stamps i ≡ some s
      → get_elem? h.stamps j ≡ some t
      → s.process ≡ t.process
      → own s ≡ own t
      → i ≡ j
  pub cause_known :
      (j k : ℕ) (ps : List ℕ)
      → get_elem? h.preds j ≡ some ps
      → Among k ps
      → (s : Stamp) × (get_elem? h.stamps k ≡ some s)
  pub cause_lt : (j k : ℕ) (ps : List ℕ) → get_elem? h.preds j ≡ some ps → Among k ps → k < j
  pub cause_earlier :
      (j k : ℕ) (ps : List ℕ) (s t : Stamp)
      → get_elem? h.preds j ≡ some ps
      → Among k ps
      → get_elem? h.stamps k ≡ some s
      → get_elem? h.stamps j ≡ some t
      → Earlier s t

pub blank-IsCausal : IsCausal blank
blank-IsCausal = record {
  count = refl;
  clock_valid = λ p. new-IsValid;
  clock_process = λ p. refl;
  clock_last = λ p. never (λ q. get-new q) refl;
  clock_known = λ p q. omega (arith, get-new q);
  clock_bound = λ p. (omega (arith, get-new p), omega arith);
  valid = λ j s e. cc;
  known = λ j s e q. cc;
  bound = λ j s e. cc;
  positive = λ j s e. cc;
  witness = λ j s e. absurd (let f : none ≡ some s = e in cc);
  unique = λ i j s t e e' p o. cc;
  cause_known = λ j k ps e m. absurd (let f : none ≡ some ps = e in cc);
  cause_lt = λ j k ps e m. absurd (let f : none ≡ some ps = e in cc);
  cause_earlier = λ j k ps s t e m at at'. absurd (let f : none ≡ some ps = e in cc);
}
