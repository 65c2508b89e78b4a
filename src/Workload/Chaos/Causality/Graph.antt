-- ===== src/Workload/Chaos/Causality/Graph.antt =====
-- crates/workload/src/chaos.rs: `check_causality` on the histories of the clocks.
use muaddib.Prelude.{
  ℕ, suc, ◌+◌, ◌<◌, ◌≡◌, refl, ◌↔◌, inl, inr, Bool, true, false, not, ◌||◌, none, some, List, [],
  ◌∷◌, ok, get_elem?, length, ltb, ◌==◌, arith, Bool-cases, ◌∙◌, ap, u64_mod,
}
use muaddib.Clock.{Stamp, happened_before}
use muaddib.Clock.History.{History, Run}
use muaddib.Clock.History.Records.{get_elem?-lt}
use muaddib.Clock.History.Order.{Run-IsCausal, happened_before_iff, Reaches-lamport}
use muaddib.Workload.Baseline.Progress.{get_elem?-some}
use muaddib.Workload.Chaos.Failures.{same_bool}
use muaddib.Workload.Chaos.Causality.{check_pair, check_later, check_each, check_causality}
use muaddib.Workload.Chaos.Causality.Rows.{fill_rows_lem, or_false, Holds}

same_bool_of_iff :
    {A : Type 0} (b c : Bool) → (b ≡ true) ↔ A → (c ≡ true) ↔ A → same_bool b c ≡ true
same_bool_of_iff true true l r = refl
same_bool_of_iff true false l r = absurd (let f : false ≡ true = r.1 (l.0 refl) in cc)
same_bool_of_iff false true l r = absurd (let f : false ≡ true = l.1 (r.0 refl) in cc)
same_bool_of_iff false false l r = refl

module _ (h : History) (run : Run h) (room : length h.stamps < u64_mod) (reach : List (List Bool))
    (holds : Holds h.preds (length h.stamps) reach) (size : length reach ≡ length h.stamps) where
  check_pair_ok :
      (i j : ℕ) (s t : Stamp)
      → get_elem? h.stamps i ≡ some s
      → get_elem? h.stamps j ≡ some t
      → check_pair reach i s j t ≡ ok tt
  unfolding check_pair
  check_pair_ok i j s t at_i at_j =
      let (row, found) = get_elem?-some reach j (omega (arith, get_elem?-lt h.stamps j t at_j)) in
      let (truth, at) =
        get_elem?-some row i
          (omega (arith, get_elem?-lt h.stamps i s at_i, (holds j row found).0)) in
      let reached = (holds j row found).1 i in
      let agree : same_bool (happened_before s t) truth ≡ true =
        same_bool_of_iff (happened_before s t) truth
          (happened_before_iff h i j s t run room at_i at_j) (rw at at reached) in
      let later : (not truth || ltb s.lamport t.lamport) ≡ true = elim (Bool-cases truth) [
        | inl e ↦
            ground
              (arith, Reaches-lamport h i j s t run room at_i at_j (reached.0 (ap or_false at ∙ e)))
        | inr e ↦ ground arith
      ] in
      elim (Bool-cases (i == j)) [
        | inl same ↦ rw same refl
        | inr other ↦ rw (other, found, at, agree, later) refl
      ]

  check_later_ok :
      (i j : ℕ) (s : Stamp) (rest : List Stamp)
      → get_elem? h.stamps i ≡ some s
      → ((k : ℕ) (t : Stamp) → get_elem? rest k ≡ some t → get_elem? h.stamps (j + k) ≡ some t)
      → check_later reach i s j rest ≡ ok tt
  unfolding check_later
  check_later_ok i j s [] at_i at = refl
  check_later_ok i j s (t ∷ rest) at_i at =
      let here : get_elem? h.stamps j ≡ some t =
        rw (let e : j ≡ j + 0 = omega arith in e) (at 0 t refl) in
      rw (check_pair_ok i j s t at_i here) (
        check_later_ok i (suc j) s rest at_i
          (λ k u e. rw (let e' : suc j + k ≡ j + suc k = omega arith in e') (at (suc k) u e)))

  check_each_ok :
      (i : ℕ) (rest : List Stamp)
      → ((k : ℕ) (t : Stamp) → get_elem? rest k ≡ some t → get_elem? h.stamps (i + k) ≡ some t)
      → check_each reach h.stamps i rest ≡ ok tt
  unfolding check_each
  check_each_ok i [] at = refl
  check_each_ok i (s ∷ rest) at =
      let here : get_elem? h.stamps i ≡ some s =
        rw (let e : i ≡ i + 0 = omega arith in e) (at 0 s refl) in
      rw
        (check_later_ok i 0 s h.stamps here
          (λ k u e. rw (let e' : 0 + k ≡ k = omega arith in e') e))
        (check_each_ok (suc i) rest
          (λ k u e. rw (let e' : suc i + k ≡ i + suc k = omega arith in e') (at (suc k) u e)))

-- The check of the harness accepts every history of the clocks: for each pair of its events, the
-- vector stamps and the graph of causes agree, and Lamport's clock condition holds.
pub check_causality-Run :
    (h : History) → Run h → length h.stamps < u64_mod → check_causality h.stamps h.preds ≡ ok tt
unfolding check_causality
check_causality-Run h run room =
    let g = Run-IsCausal run room in
    let (reach, filled, holds, size) =
      fill_rows_lem h.preds (length h.stamps) [] h.preds
        (λ j row e. absurd (let f : none ≡ some row = e in cc)) g.cause_lt
        (λ k ps e. rw (let e' : 0 + k ≡ k = omega arith in e') e) (omega (arith, g.count)) in
    rw filled (
      check_each_ok h run room reach holds size 0 h.stamps
        (λ k t e. rw (let e' : 0 + k ≡ k = omega arith in e') e))
