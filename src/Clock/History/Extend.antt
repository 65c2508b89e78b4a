-- ===== src/Clock/History/Extend.antt =====
-- crates/clock/src/lib.rs: a history of events with one more.
use muaddib.Prelude.{
  ℕ, suc, ◌≤◌, ◌<◌, ◌≡◌, refl, inl, inr, Option, none, some, List, [], ◌∷◌, ◌++◌, length, get_elem?,
  arith, sym, ◌∙◌, ap, leb, ◌==◌, Bool-cases, eq_of_some, false, length-append,
}
use muaddib.Clock.{Stamp, EventClock}
use muaddib.Clock.Vector.{get}
use muaddib.Clock.History.{History, append, update, to_list, Among, cause, chain}
use muaddib.Clock.History.Records.{
  get_elem?-append_old, get_elem?-append_new, get_elem?-append_cases, get_elem?-lt, Among-append,
  Among-append_left, Among-append_right, Among-to_list, Reaches-append,
}
use muaddib.Clock.History.Causal.{IsCausal, LastOf, never, at_event, Witness, Earlier, own}
use muaddib.Clock.History.Incoming.{
  Incoming, causes_of, seen_of, Joins, seen_le, LastOf-some, Incoming-cause, Witness-seen,
  Witness-clock, time_bound,
}

module _ (h : History) (g : IsCausal h) (p : ℕ) (inc : Incoming h) (c : EventClock) (s : Stamp)
    (j : Joins h p inc c s) where
  seen_known : (q : ℕ) → seen_of inc q ≤ get (h.clocks q).vector q
  seen_known q = seen_le h g inc q

  own_next : get s.vector p ≡ suc (get (h.clocks p).vector p)
  own_next = ground (arith, j.vector p, seen_known p)

  grows : (q : ℕ) → (get (h.clocks p).vector q ≤ get s.vector q) × (seen_of inc q ≤ get s.vector q)
  grows q = ground (arith, j.vector q)

  clocks_grow : (q : ℕ) → get (h.clocks q).vector q ≤ get (update h.clocks p c q).vector q
  clocks_grow q = elim (Bool-cases (q == p)) [
    | inl same ↦
        let e : q ≡ p = ground arith in rw same (rw e (omega (arith, j.agrees.vector p, own_next)))
    | inr other ↦ rw other (omega arith)
  ]

  new_known : (q : ℕ) → get s.vector q ≤ get (update h.clocks p c q).vector q
  new_known q = elim (Bool-cases (q == p)) [
    | inl same ↦ rw same (omega (arith, j.agrees.vector q))
    | inr other ↦ rw other (ground (arith, j.vector q, seen_known q, g.clock_known p q))
  ]

  abbrev new_causes : List ℕ
  new_causes = causes_of inc ++ to_list (h.last p)

  new_at : get_elem? (h.preds ++ new_causes ∷ []) (length h.stamps) ≡ some new_causes
  new_at = rw (← g.count) (get_elem?-append_new h.preds new_causes)

  abbrev pub after : History
  after = append h p (c, s) (causes_of inc)

  -- Every direct cause is an old event, earlier than the new one.
  cause_before :
      (k : ℕ) → Among k new_causes → (t : Stamp) × (get_elem? h.stamps k ≡ some t) × Earlier t s
  cause_before k m = elim (Among-append k (causes_of inc) (to_list (h.last p)) m) [
    | inl a ↦
        let (t, at, seen, time) = Incoming-cause h inc k a in
        (
          t,
          at,
          record {
            below = λ q. omega (arith, seen q, grows q);
            strict = rw (j.process) (omega (arith, seen p, seen_known p, own_next));
            lamport = omega (arith, time, j.lamport);
          },
        )
    | inr b ↦
        let (t, at, p_t, a) = LastOf-some k (g.clock_last p) (Among-to_list k (h.last p) b) in
        (
          t,
          at,
          record {
            below = λ q. omega (arith, a.vector q, grows q);
            strict = rw (j.process) (omega (arith, a.vector p, own_next));
            lamport = omega (arith, a.lamport, j.lamport);
          },
        )
  ]

  old_Witness : {i q n : ℕ} → Witness h i q n → Witness after i q n
  old_Witness w = record {
    event = w.event;
    stamp = w.stamp;
    there = get_elem?-append_old h.stamps s w.stamp w.event w.there;
    process = w.process;
    count = w.count;
    reaches = elim w.reaches [ inl e ↦ inl e | inr r ↦ inr (Reaches-append new_causes r) ];
  }

  lift_Witness :
      {k q n : ℕ} → Witness h k q n → Among k new_causes → Witness after (length h.stamps) q n
  lift_Witness w m = record {
    event = w.event;
    stamp = w.stamp;
    there = get_elem?-append_old h.stamps s w.stamp w.event w.there;
    process = w.process;
    count = w.count;
    reaches = inr (elim w.reaches [
      | inl e ↦ cause new_causes new_at (rw e m)
      | inr r ↦ chain new_causes (Reaches-append new_causes r) new_at m
    ]);
  }

  new_Witness : (q n : ℕ) → 0 < n → n ≤ get s.vector q → Witness after (length h.stamps) q n
  new_Witness q n pos le = elim (Bool-cases (leb n (seen_of inc q))) [
    | inl seen ↦
        let (k, m, w) = Witness-seen h g inc q n pos (ground arith) in
        lift_Witness w (Among-append_left k (causes_of inc) (to_list (h.last p)) m)
    | inr unseen ↦ elim (Bool-cases (leb n (get (h.clocks p).vector q))) [
      | inl old ↦
          let (k, m, w) = Witness-clock h g p q n pos (ground arith) (h.last p) (g.clock_last p) in
          lift_Witness w (Among-append_right k (causes_of inc) (to_list (h.last p)) m)
      | inr fresh ↦
          let here : q ≡ p = ground (arith, j.vector q) in
          record {
            event = length h.stamps;
            stamp = s;
            there = get_elem?-append_new h.stamps s;
            process = j.process ∙ sym here;
            count = rw (j.process) (ground (arith, own_next, j.vector q));
            reaches = inl refl;
          }
    ]
  ]

  own_lt : (i : ℕ) (t : Stamp) → get_elem? h.stamps i ≡ some t → t.process ≡ p → own t < own s
  own_lt i t at who = rw (who, j.process) (omega (arith, own_next, g.known i t at p))

  last_after : (q : ℕ) → LastOf after q (update h.last p (some (length h.stamps)) q)
  last_after q = elim (Bool-cases (q == p)) [
    | inl same ↦ rw same (
        at_event (length h.stamps) s (get_elem?-append_new h.stamps s) (ground (arith, j.process))
          (rw same (j.agrees)))
    | inr other ↦ rw other (keep other (h.last q) (g.clock_last q))
  ]
    where
      keep : (q == p) ≡ false → (o : Option ℕ) → LastOf h q o → LastOf after q o
      keep other none (never zero_ time) = never (rw other zero_) (rw other time)
      keep other (some _) (at_event k t at who a) =
          at_event k t (get_elem?-append_old h.stamps s t k at) who (rw other a)

  pub after-IsCausal : IsCausal after
  after-IsCausal = record {
    count =
        omega (
          arith,
          g.count,
          length-append h.preds (new_causes ∷ []),
          length-append h.stamps (s ∷ []),
        );
    clock_valid = λ q. elim (Bool-cases (q == p)) [
      | inl same ↦ rw same j.clock_valid
      | inr other ↦ rw other (g.clock_valid q)
    ];
    clock_process = λ q. elim (Bool-cases (q == p)) [
      | inl same ↦ rw same (j.agrees.process ∙ j.process ∙ ground arith)
      | inr other ↦ rw other (g.clock_process q)
    ];
    clock_last = last_after;
    clock_known = λ q r. elim (Bool-cases (q == p)) [
      | inl same ↦ rw same (omega (arith, j.agrees.vector r, new_known r))
      | inr other ↦ rw other (omega (arith, g.clock_known q r, clocks_grow r))
    ];
    clock_bound = λ q. elim (Bool-cases (q == p)) [
      | inl same ↦ rw same (
          omega (
            arith,
            j.agrees.vector p,
            ap (λ (x : ℕ). get s.vector x) (let e : q ≡ p = ground arith in e),
            j.agrees.vector q,
            own_next,
            j.agrees.lamport,
            j.lamport,
            g.clock_bound p,
            time_bound h g inc,
            length-append h.stamps (s ∷ []),
          ))
      | inr other ↦ rw other (omega (arith, g.clock_bound q, length-append h.stamps (s ∷ [])))
    ];
    valid = λ i t at. elim (get_elem?-append_cases h.stamps s t i at) [
      | inl old ↦ g.valid i t old
      | inr (e, same) ↦ rw (← same) j.valid
    ];
    known = λ i t at q. elim (get_elem?-append_cases h.stamps s t i at) [
      | inl old ↦ omega (arith, g.known i t old q, clocks_grow q)
      | inr (e, same) ↦ rw (← same) (new_known q)
    ];
    bound = λ i t at. elim (get_elem?-append_cases h.stamps s t i at) [
      | inl old ↦ omega (arith, g.bound i t old, length-append h.stamps (s ∷ []))
      | inr (e, same) ↦ rw (← same) (
          omega (
            arith,
            j.lamport,
            g.clock_bound p,
            time_bound h g inc,
            length-append h.stamps (s ∷ []),
          ))
    ];
    positive = λ i t at. elim (get_elem?-append_cases h.stamps s t i at) [
      | inl old ↦ g.positive i t old
      | inr (e, same) ↦ rw (← same, j.process) (omega (arith, own_next))
    ];
    witness = λ i t at q n pos le. elim (get_elem?-append_cases h.stamps s t i at) [
      | inl old ↦ old_Witness (g.witness i t old q n pos le)
      | inr (e, same) ↦ rw e (new_Witness q n pos (rw same le))
    ];
    unique = λ i k t u at at' who count. elim (get_elem?-append_cases h.stamps s t i at) [
      | inl old ↦ elim (get_elem?-append_cases h.stamps s u k at') [
        | inl old' ↦ g.unique i k t u old old' who count
        | inr (e', same') ↦ absurd (
            omega (
              arith,
              own_lt i t old (who ∙ ap (λ x. x.process) (sym same') ∙ j.process),
              ap own same',
            ))
      ]
      | inr (e, same) ↦ elim (get_elem?-append_cases h.stamps s u k at') [
        | inl old' ↦ absurd (
            omega (
              arith,
              own_lt k u old' (sym who ∙ ap (λ x. x.process) (sym same) ∙ j.process),
              ap own same,
            ))
        | inr (e', same') ↦ e ∙ sym e'
      ]
    ];
    cause_known = λ i k ps at m. elim (get_elem?-append_cases h.preds new_causes ps i at) [
      | inl old ↦
          let (t, at_t) = g.cause_known i k ps old m in
          (t, get_elem?-append_old h.stamps s t k at_t)
      | inr (e, same) ↦
          let (t, at_t, _) = cause_before k (rw same m) in
          (t, get_elem?-append_old h.stamps s t k at_t)
    ];
    cause_lt = λ i k ps at m. elim (get_elem?-append_cases h.preds new_causes ps i at) [
      | inl old ↦ g.cause_lt i k ps old m
      | inr (e, same) ↦
          let (t, at_t, _) = cause_before k (rw same m) in
          omega (arith, get_elem?-lt h.stamps k t at_t, g.count)
    ];
    cause_earlier = λ i k ps t u at m at_k at_i.
        elim (get_elem?-append_cases h.preds new_causes ps i at) [
          | inl old ↦
              let (t₀, at_t) = g.cause_known i k ps old m in
              let same_t : t₀ ≡ t =
                eq_of_some (sym (get_elem?-append_old h.stamps s t₀ k at_t) ∙ at_k) in
              elim (get_elem?-append_cases h.stamps s u i at_i) [
                | inl old_i ↦ g.cause_earlier i k ps t u old m (at_t ∙ ap some same_t) old_i
                | inr (e, _) ↦ absurd (omega (arith, get_elem?-lt h.preds i ps old, g.count))
              ]
          | inr (e, same) ↦
              let (t₀, at_t, earlier) = cause_before k (rw same m) in
              let same_t : t₀ ≡ t =
                eq_of_some (sym (get_elem?-append_old h.stamps s t₀ k at_t) ∙ at_k) in
              elim (get_elem?-append_cases h.stamps s u i at_i) [
                | inl old_i ↦ absurd (omega (arith, get_elem?-lt h.stamps i u old_i, g.count))
                | inr (_, same_u) ↦ rw (← same_t, ← same_u) earlier
              ]
        ];
  }
