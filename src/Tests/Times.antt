-- ===== src/Tests/Times.antt =====
-- Clocks of two processes.
use muaddib.Prelude.{ℕ, ◌≡◌, ◌≤◌, ◌↔◌, [], ◌∷◌, arith}
use muaddib.Clock.Vector.{VectorClock, get, merge, compare, concurrent}
use muaddib.Clock.Vector.Order.{Relates, compare_iff}
use muaddib.Clock.Vector.Merge.{IsValid, merge_least, tick-IsValid, new-IsValid}
use muaddib.Clock.Vector
use muaddib.Tests.Scene.{program}

abbrev first : VectorClock
first = record { entries = (0, 1) ∷ [] }

abbrev second : VectorClock
second = record { entries = (1, 4) ∷ [] }

compare_iff_example : (compare first second ≡ concurrent) ↔ Relates first second concurrent
unfolding program
compare_iff_example = compare_iff first second concurrent

first-IsValid : IsValid first
unfolding program Vector.tick
first-IsValid = tick-IsValid Vector.new 0 (omega arith) new-IsValid

merge_least_example :
    ((p : ℕ) → get (merge second first) p ≤ get second p)
    ↔ (((p : ℕ) → get second p ≤ get second p) × ((p : ℕ) → get first p ≤ get second p))
merge_least_example = merge_least second first second first-IsValid
