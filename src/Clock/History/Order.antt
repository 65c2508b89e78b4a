-- ===== src/Clock/History/Order.antt =====
-- crates/clock/src/lib.rs: the stamps of a history beside its causal order.
use muaddib.Prelude.{
  ℕ, ◌+◌, ◌≤◌, ◌<◌, ◌≡◌, refl, ◌↔◌, inl, inr, true, some, ◌∷◌, [], length, get_elem?, arith, sym,
  ◌∙◌, ap, u64_mod, eq_of_some, length-append,
}
use muaddib.Clock.{Stamp, local_event, send_event, receive_event, happened_before}
use muaddib.Clock.Vector.{
  get, tick, merge, before, compare, is_before, Causality, after, equal, concurrent,
}
use muaddib.Clock.Vector
use muaddib.Clock.Vector.Order.{Relates, below, compare_iff}
use muaddib.Clock.Vector.Merge.{get-tick, get-merge, tick-IsValid, merge-IsValid}
use muaddib.Clock.Stamps.{happened_before_of_below}
use muaddib.Clock.History.{
  History, Step, local_at, sends, receives, Run, start, next, Reaches, cause, chain,
}
use muaddib.Clock.History.Causal.{IsCausal, Earlier, blank-IsCausal, own}
use muaddib.Clock.History.Incoming.{nothing, from, Joins}
use muaddib.Clock.History.Extend.{after-IsCausal}

local-Joins :
    (h : History) (p : ℕ)
    → IsCausal h
    → length h.stamps + 1 < u64_mod
    → Joins h p nothing (local_event (h.clocks p)).0 (local_event (h.clocks p)).1
unfolding local_event
local-Joins h p g room =
    let valid =
      tick-IsValid (h.clocks p).vector (h.clocks p).process
        (rw (g.clock_process p) (omega (arith, g.clock_bound p))) (g.clock_valid p) in
    record {
      process = g.clock_process p;
      agrees = record { process = refl; vector = λ q. refl; lamport = refl };
      clock_valid = valid;
      valid = valid;
      vector = λ q. ground (
        arith,
        get-tick (h.clocks p).vector (h.clocks p).process q,
        g.clock_process p,
        g.clock_bound p,
      );
      lamport = omega (arith, g.clock_bound p);
    }

receive-Joins :
    (h : History) (p i : ℕ) (sent : Stamp) (at : get_elem? h.stamps i ≡ some sent)
    → IsCausal h
    → length h.stamps + 1 < u64_mod
    → Joins h p
        (from i sent at)
        (receive_event (h.clocks p) sent).0
        (receive_event (h.clocks p) sent).1
unfolding receive_event
receive-Joins h p i sent at g room =
    let merged = merge (h.clocks p).vector sent.vector in
    let known = g.known i sent at p in
    let at_p = get-merge (h.clocks p).vector sent.vector p (g.valid i sent at) in
    let valid =
      tick-IsValid merged (h.clocks p).process
        (rw (g.clock_process p) (omega (arith, g.clock_bound p, at_p)))
        (merge-IsValid (h.clocks p).vector sent.vector (g.clock_valid p) (g.valid i sent at)) in
    record {
      process = g.clock_process p;
      agrees = record { process = refl; vector = λ q. refl; lamport = refl };
      clock_valid = valid;
      valid = valid;
      vector = λ q. ground (
        arith,
        get-tick merged (h.clocks p).process q,
        get-merge (h.clocks p).vector sent.vector q (g.valid i sent at),
        at_p,
        g.clock_process p,
        g.clock_bound p,
      );
      lamport = omega (arith, g.clock_bound p, g.bound i sent at);
    }

Step-IsCausal : {h h' : History} → Step h h' → length h'.stamps < u64_mod → IsCausal h → IsCausal h'
unfolding send_event
Step-IsCausal (local_at h p) room g =
    let r : length h.stamps + 1 < u64_mod =
      omega (arith, length-append h.stamps ((local_event (h.clocks p)).1 ∷ [])) in
    after-IsCausal h g p nothing (local_event (h.clocks p)).0 (local_event (h.clocks p)).1
      (local-Joins h p g r)
Step-IsCausal (sends h p) room g =
    let r : length h.stamps + 1 < u64_mod =
      omega (arith, length-append h.stamps ((local_event (h.clocks p)).1 ∷ [])) in
    after-IsCausal h g p nothing (local_event (h.clocks p)).0 (local_event (h.clocks p)).1
      (local-Joins h p g r)
Step-IsCausal (receives h p i sent at) room g =
    let r : length h.stamps + 1 < u64_mod =
      omega (arith, length-append h.stamps ((receive_event (h.clocks p) sent).1 ∷ [])) in
    after-IsCausal h g p (from i sent at) (receive_event (h.clocks p) sent).0
      (receive_event (h.clocks p) sent).1 (receive-Joins h p i sent at g r)

Step-grows : {h h' : History} → Step h h' → length h'.stamps ≡ length h.stamps + 1
Step-grows (local_at h p) = length-append h.stamps ((local_event (h.clocks p)).1 ∷ [])
Step-grows (sends h p) = length-append h.stamps ((send_event (h.clocks p)).1 ∷ [])
Step-grows (receives h p i sent at) =
    length-append h.stamps ((receive_event (h.clocks p) sent).1 ∷ [])

pub Run-IsCausal : {h : History} → Run h → length h.stamps < u64_mod → IsCausal h
Run-IsCausal start room = blank-IsCausal
Run-IsCausal (next r st) room =
    Step-IsCausal st room (Run-IsCausal r (omega (arith, Step-grows st)))

-- What is reached is later by every clock.
Reaches-Earlier :
    {h : History} {i j : ℕ} (s t : Stamp)
    → IsCausal h
    → Reaches h.preds i j
    → get_elem? h.stamps i ≡ some s
    → get_elem? h.stamps j ≡ some t
    → Earlier s t
Reaches-Earlier {i = i} {j = j} s t g (cause ps at m) at_i at_j =
    g.cause_earlier j i ps s t at m at_i at_j
Reaches-Earlier {i = i} {j = j} s t g (chain {k = k} ps r at m) at_i at_j =
    let (u, at_k) = g.cause_known j k ps at m in
    let early = Reaches-Earlier s u g r at_i at_k in
    let late = g.cause_earlier j k ps u t at m at_k at_j in
    record {
      below = λ q. omega (arith, early.below q, late.below q);
      strict = omega (arith, early.below t.process, late.strict);
      lamport = omega (arith, early.lamport, late.lamport);
    }

is_before-before : (c : Causality) → is_before c ≡ true → c ≡ before
is_before-before before h = refl
is_before-before after h = cc
is_before-before equal h = cc
is_before-before concurrent h = cc

Relates-before :
    (s t : Stamp)
    → Relates s.vector t.vector before
    → ((q : ℕ) → get s.vector q ≤ get t.vector q) × ((q : ℕ) × (get s.vector q < get t.vector q))
Relates-before s t (below le q lt) = (le, (q, lt))

before-Reaches :
    (h : History) (i j : ℕ) (s t : Stamp)
    → IsCausal h
    → get_elem? h.stamps i ≡ some s
    → get_elem? h.stamps j ≡ some t
    → happened_before s t ≡ true
    → Reaches h.preds i j
unfolding happened_before Vector.happened_before
before-Reaches h i j s t g at_i at_j b =
    let related = (compare_iff s.vector t.vector before).0 (is_before-before _ b) in
    let (le, (q, lt)) = Relates-before s t related in
    let w = g.witness j t at_j s.process (own s) (g.positive i s at_i) (le s.process) in
    let event : w.event ≡ i = g.unique w.event i w.stamp s w.there at_i w.process w.count in
    elim w.reaches [
      | inl here ↦
          let same : s ≡ t =
            eq_of_some (sym at_i ∙ ap (get_elem? h.stamps) (sym event ∙ here) ∙ at_j) in
          absurd (omega (arith, ap (λ (x : Stamp). get x.vector q) same))
      | inr reaches ↦ rw event at reaches
    ]

-- In every history of local events, sends and receives of any processes, one event's vector stamp
-- is before another's exactly when a chain of direct causes leads from the one to the other.
pub happened_before_iff :
    (h : History) (i j : ℕ) (s t : Stamp)
    → Run h
    → length h.stamps < u64_mod
    → get_elem? h.stamps i ≡ some s
    → get_elem? h.stamps j ≡ some t
    → (happened_before s t ≡ true) ↔ Reaches h.preds i j
happened_before_iff h i j s t run room at_i at_j =
    let g = Run-IsCausal run room in
    (
      before-Reaches h i j s t g at_i at_j,
      λ r.
          let e = Reaches-Earlier s t g r at_i at_j in
          happened_before_of_below s t t.process e.below e.strict,
    )

-- Lamport's clock condition: an event that another causes, directly or not, has the later time.
pub Reaches-lamport :
    (h : History) (i j : ℕ) (s t : Stamp)
    → Run h
    → length h.stamps < u64_mod
    → get_elem? h.stamps i ≡ some s
    → get_elem? h.stamps j ≡ some t
    → Reaches h.preds i j
    → s.lamport < t.lamport
Reaches-lamport h i j s t run room at_i at_j r =
    (Reaches-Earlier s t (Run-IsCausal run room) r at_i at_j).lamport
