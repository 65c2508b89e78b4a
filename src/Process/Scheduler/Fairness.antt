-- ===== src/Process/Scheduler/Fairness.antt =====
-- crates/process/src/scheduler.rs: rounds of the ready queue.
use muaddib.Prelude.{
  ℕ, zero, suc, ◌≡◌, refl, Option, some, List, [], ◌∷◌, ◌++◌, map, length, sym, arith,
}
use mathlib.Core.List.{append_assoc, append-nil}
use muaddib.Process.Scheduler.{Scheduler, schedule_next}

-- `turns` calls of `schedule_next`, and what they returned.
pub schedule : ℕ → Scheduler → Scheduler × List (Option ℕ)
unfolding schedule_next
schedule zero s = (s, [])
schedule (suc turns) s =
    let (s', id) = schedule_next s in let (s'', ids) = schedule turns s' in (s'', id ∷ ids)

schedule_part :
    (s : Scheduler) (xs ys : List ℕ)
    → s.ready_queue ≡ xs ++ ys
    → schedule (length xs) s ≡ (record s { ready_queue = ys ++ xs }, map some xs)
unfolding schedule
schedule_part s [] ys h = ground (arith, append-nil ys)
schedule_part s (x ∷ xs) ys h =
    let next = record s { ready_queue = (xs ++ ys) ++ x ∷ [] } in
    let turn : schedule_next s ≡ (next, some x) = rw (h, schedule_next) refl in
    rw (turn, schedule_part next xs (ys ++ x ∷ []) (append_assoc xs ys (x ∷ [])))
      (rw (append_assoc ys (x ∷ []) xs) refl)

-- One round of the scheduler runs every process of the ready queue once, in the queue's order, and
-- leaves the scheduler as it was.
pub schedule_round :
    (s : Scheduler) → schedule (length s.ready_queue) s ≡ (s, map some s.ready_queue)
schedule_round s = schedule_part s s.ready_queue [] (sym (append-nil s.ready_queue))
