-- ===== src/Clock/History/Incoming.antt =====
-- crates/clock/src/lib.rs: an event, and the event that it answers.
use muaddib.Prelude.{
  ℕ, suc, ◌≤◌, ◌<◌, ◌≡◌, refl, inl, inr, Option, none, some, List, [], ◌∷◌, length, get_elem?,
  arith, max, ◌==◌, if◌then◌else◌, eq_of_some,
}
use muaddib.Clock.{Stamp, EventClock}
use muaddib.Clock.Vector.{get}
use muaddib.Clock.Vector.Merge.{IsValid}
use muaddib.Clock.History.{History, to_list, Among}
use muaddib.Clock.History.Causal.{IsCausal, Agrees, LastOf, never, at_event, Witness}

-- What a new event learns from another: nothing, or a recorded stamp.
pub data Incoming (h : History) : Type 0 where
  nothing : Incoming h
  from : (i : ℕ) (s : Stamp) → get_elem? h.stamps i ≡ some s → Incoming h

abbrev pub causes_of : {h : History} → Incoming h → List ℕ
causes_of nothing = []
causes_of (from i s at) = i ∷ []

abbrev pub seen_of : {h : History} → Incoming h → ℕ → ℕ
seen_of nothing q = 0
seen_of (from i s at) q = get s.vector q

abbrev pub time_of : {h : History} → Incoming h → ℕ
time_of nothing = 0
time_of (from i s at) = s.lamport

-- What the new clock and stamp of `p` are.
pub record Joins (h : History) (p : ℕ) (inc : Incoming h) (c : EventClock) (s : Stamp)
    : Type 0 where
  pub process : s.process ≡ p
  pub agrees : Agrees c s
  pub clock_valid : IsValid c.vector
  pub valid : IsValid s.vector
  pub vector :
      (q : ℕ)
      → get s.vector q ≡ (
          if q == p
          then suc (max (get (h.clocks p).vector q) (seen_of inc q))
          else max (get (h.clocks p).vector q) (seen_of inc q))
  pub lamport : s.lamport ≡ suc (max (h.clocks p).lamport.time (time_of inc))

pub seen_le :
    (h : History)
    → IsCausal h
    → (inc : Incoming h) (q : ℕ) → seen_of inc q ≤ get (h.clocks q).vector q
seen_le h g nothing q = omega arith
seen_le h g (from i t at) q = g.known i t at q

pub LastOf-some :
    {h : History} {p : ℕ} {o : Option ℕ} (k : ℕ)
    → LastOf h p o
    → o ≡ some k
    → (s : Stamp) × (get_elem? h.stamps k ≡ some s) × (s.process ≡ p) × Agrees (h.clocks p) s
LastOf-some k (never z l) e = absurd (cc)
LastOf-some k (at_event k' s at own_event a) e =
    let same : k' ≡ k = eq_of_some e in (s, rw (← same) at, own_event, a)

pub Incoming-cause :
    (h : History) (inc : Incoming h) (k : ℕ)
    → Among k (causes_of inc)
    → (t : Stamp) × (get_elem? h.stamps k ≡ some t)
      × ((q : ℕ) → get t.vector q ≡ seen_of inc q)
      × (t.lamport ≡ time_of inc)
Incoming-cause h nothing k m = absurd m
Incoming-cause h (from i t at) k (inl e) = (t, rw e at, (λ q. refl), refl)
Incoming-cause h (from i t at) k (inr m) = absurd m

pub time_bound : (h : History) → IsCausal h → (inc : Incoming h) → time_of inc ≤ length h.stamps
time_bound h g nothing = omega arith
time_bound h g (from i t at) = g.bound i t at

pub Witness-seen :
    (h : History)
    → IsCausal h
    → (inc : Incoming h) (q n : ℕ) → 0 < n
    → n ≤ seen_of inc q
    → (k : ℕ) × Among k (causes_of inc) × Witness h k q n
Witness-seen h g nothing q n pos le = absurd (omega arith)
Witness-seen h g (from i t at) q n pos le = (i, inl refl, g.witness i t at q n pos le)

pub Witness-clock :
    (h : History)
    → IsCausal h
    → (p q n : ℕ) → 0 < n
    → n ≤ get (h.clocks p).vector q
    → (o : Option ℕ) → LastOf h p o
    → (k : ℕ) × Among k (to_list o) × Witness h k q n
Witness-clock h g p q n pos le none (never zero_ time) = absurd (omega (arith, zero_ q))
Witness-clock h g p q n pos le (some _) (at_event k t at who a) =
    (k, inl refl, g.witness k t at q n pos (omega (arith, a.vector q)))
