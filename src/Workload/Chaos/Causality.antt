-- ===== src/Workload/Chaos/Causality.antt =====
-- `World::check_causality` of crates/workload/src/chaos.rs: at the end of a run, every pair of
-- recorded events against the graph of their causes.
pub mod Rows
pub mod Graph
use muaddib.Prelude.{
  ℕ, zero, suc, ◌-◌, Bool, true, false, not, ◌||◌, Option, none, some, List, [], ◌∷◌, ◌++◌, Result,
  ok, err, panic, ◌>>=◌, ◌>>◌, guard, expect, get_elem?, length, replicate, ltb, ◌==◌,
  if◌then◌else◌,
}
use muaddib.Clock.{Stamp, happened_before}
use muaddib.Workload.Chaos.Failures.{Failure, clocks_disagree, lamport_violated, same_bool}

-- `row[p] = true`; `none` is an index out of range.
abbrev pub mark : ℕ → List Bool → Option (List Bool)
mark p [] = none
mark zero (b ∷ row) = some (true ∷ row)
mark (suc p) (b ∷ row) = elim (mark p row) [ none ↦ none | some row' ↦ some (b ∷ row') ]

-- `*dst |= *src`, for as long as both rows go on.
abbrev pub join : List Bool → List Bool → List Bool
join [] src = []
join (d ∷ dst) [] = d ∷ dst
join (d ∷ dst) (s ∷ src) = (d || s) ∷ join dst src

-- The loop over the direct causes of one event.
unfoldable pub fill_row : List (List Bool) → List Bool → List ℕ → Result Failure (List Bool)
fill_row earlier row [] = ok row
fill_row earlier row (p ∷ ps) = do
  row' ← expect (mark p row)
  src ← expect (get_elem? earlier p)
  fill_row earlier (join row' src) ps

-- The loop over the events; `earlier` has the rows that are filled, of `n`.
unfoldable pub fill_rows : ℕ → List (List Bool) → List (List ℕ) → Result Failure (List (List Bool))
unfolding fill_row
fill_rows n earlier [] = ok (earlier ++ replicate (n - length earlier) (replicate n false))
fill_rows n earlier (ps ∷ preds) = do
  expect (if ltb (length earlier) n then some (tt {0}) else none)
  row ← fill_row earlier (replicate n false) ps
  fill_rows n (earlier ++ row ∷ []) preds

-- The body of the loops over pairs.
unfoldable pub check_pair : List (List Bool) → ℕ → Stamp → ℕ → Stamp → Result Failure (Unit {0})
unfolding happened_before
check_pair reach i stamp_i j stamp_j =
    if i == j
    then ok tt
    else (expect (get_elem? reach j) >>= λ row. expect (get_elem? row i) >>= λ truth.
        guard (same_bool (happened_before stamp_i stamp_j) truth) clocks_disagree
        >> guard (not truth || ltb stamp_i.lamport stamp_j.lamport) lamport_violated)

unfoldable pub check_later :
    List (List Bool) → ℕ → Stamp → ℕ → List Stamp → Result Failure (Unit {0})
unfolding check_pair
check_later reach i stamp_i j [] = ok tt
check_later reach i stamp_i j (stamp_j ∷ rest) = do
  check_pair reach i stamp_i j stamp_j
  check_later reach i stamp_i (suc j) rest

unfoldable pub check_each :
    List (List Bool) → List Stamp → ℕ → List Stamp → Result Failure (Unit {0})
unfolding check_later
check_each reach stamps i [] = ok tt
check_each reach stamps i (stamp_i ∷ rest) = do
  check_later reach i stamp_i 0 stamps
  check_each reach stamps (suc i) rest

unfoldable pub check_causality : List Stamp → List (List ℕ) → Result Failure (Unit {0})
unfolding fill_rows check_each
check_causality stamps preds = do
  reach ← fill_rows (length stamps) [] preds
  check_each reach stamps 0 stamps
