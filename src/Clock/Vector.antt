-- ===== src/Clock/Vector.antt =====
-- crates/clock/src/vector.rs: one counter for each process, kept sparsely in a `BTreeMap`.
pub mod Order
pub mod Merge
use muaddib.Prelude.{
  ℕ, Bool, true, false, List, [], ◌∷◌, ◌++◌, Option, none, some, ltb, ◌||◌, max, next_u64,
}
use muaddib.Map.{Map}
use muaddib.Map

pub data Causality : Type 0 where
  before after equal concurrent : Causality

-- `std::cmp::Ordering`.
pub data Ordering : Type 0 where
  less greater same : Ordering

pub record VectorClock : Type 0 where
  pub entries : Map ℕ

abbrev pub new : VectorClock
new = record { entries = Map.empty }

abbrev pub or_zero : Option ℕ → ℕ
or_zero none = 0
or_zero (some n) = n

unfoldable pub get : VectorClock → ℕ → ℕ
get v process = or_zero (Map.get process v.entries)

unfoldable pub tick : VectorClock → ℕ → VectorClock
unfolding get
tick v process = record { entries = Map.insert process (next_u64 (get v process)) v.entries }

-- The loop of `merge` over the entries of the other clock.
unfoldable pub merge_entries : Map ℕ → Map ℕ → Map ℕ
merge_entries entries [] = entries
merge_entries entries ((process, count) ∷ rest) =
    merge_entries (Map.insert process (max (or_zero (Map.get process entries)) count) entries) rest

unfoldable pub merge : VectorClock → VectorClock → VectorClock
unfolding merge_entries
merge v other = record { entries = merge_entries v.entries other.entries }

-- The loop of `compare` over the processes of both clocks, with its two flags.
unfoldable pub compare_loop : VectorClock → VectorClock → List ℕ → Bool → Bool → Bool × Bool
unfolding get
compare_loop a b [] some_less some_greater = (some_less, some_greater)
compare_loop a b (process ∷ rest) some_less some_greater =
    compare_loop a b rest (some_less || ltb (get a process) (get b process))
      (some_greater || ltb (get b process) (get a process))

abbrev pub verdict : Bool × Bool → Causality
verdict (false, false) = equal
verdict (true, false) = before
verdict (false, true) = after
verdict (true, true) = concurrent

unfoldable pub compare : VectorClock → VectorClock → Causality
unfolding compare_loop
compare a b = verdict (compare_loop a b (Map.keys a.entries ++ Map.keys b.entries) false false)

abbrev pub is_before : Causality → Bool
is_before before = true
is_before _ = false

abbrev is_concurrent : Causality → Bool
is_concurrent concurrent = true
is_concurrent _ = false

abbrev is_equal : Causality → Bool
is_equal equal = true
is_equal _ = false

unfoldable pub happened_before : VectorClock → VectorClock → Bool
happened_before a b = is_before (compare a b)

unfoldable pub concurrent_with : VectorClock → VectorClock → Bool
concurrent_with a b = is_concurrent (compare a b)

-- `PartialEq::eq`.
unfoldable pub eq : VectorClock → VectorClock → Bool
eq a b = is_equal (compare a b)

abbrev order_of : Causality → Option Ordering
order_of before = some less
order_of after = some greater
order_of equal = some same
order_of concurrent = none

-- `PartialOrd::partial_cmp`.
unfoldable pub partial_cmp : VectorClock → VectorClock → Option Ordering
partial_cmp a b = order_of (compare a b)
