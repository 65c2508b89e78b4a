-- ===== src/Workload/Rng/Words.antt =====
-- crates/workload/src/rng.rs: `next_u64` and `below`.
use muaddib.Prelude.{ℕ, zero, suc, ◌+◌, ◌*◌, ◌/◌, ◌^◌, ◌<◌, ◌≤◌, ◌≡◌, refl, ok, arith, u64_mod}
use muaddib.Prelude.Xor.{bit_xor_lt}
use native.Mathlib.Nat.{div-le_self}
use native.Mathlib.Numerals.{unary_clauses}
use muaddib.Workload.Rng.{SplitMix64, next_u64, below, mix, xor_shift}

shift_le : (k z : ℕ) → z / 2 ^ k ≤ z
shift_le k z = div-le_self z (2 ^ k)

xor_shift_lt : (k z : ℕ) → z < u64_mod → xor_shift k z < u64_mod
unfolding xor_shift
xor_shift_lt k z h = bit_xor_lt 64 z (z / 2 ^ k) h (omega (arith, shift_le k z))

-- A number of the generator is a `u64`.
pub next_u64_lt : (r : SplitMix64) → (next_u64 r).1 < u64_mod
unfolding next_u64 mix
next_u64_lt r = xor_shift_lt 31 _ (omega arith)

mul_lt : (n z w : ℕ) → z < w → z * suc n < w * suc n
mul_lt zero z w h = omega arith
mul_lt (suc n) z w h =
    let a : z * suc (suc n) ≡ z * suc n + z = simp unary_clauses (omega arith) in
    let b : w * suc (suc n) ≡ w * suc n + w = simp unary_clauses (omega arith) in
    omega (arith, a, b, mul_lt n z w h)

-- For every bound but 0, `below` returns a number below it.
pub below_lt :
    (r : SplitMix64) (n : ℕ)
    → 0 < n
    → (r' : SplitMix64) × (i : ℕ) × (below r n ≡ ok (r', i)) × (i < n)
unfolding below
below_lt r zero h = absurd (omega arith)
below_lt r (suc n) h = (
  (next_u64 r).0,
  (next_u64 r).1 * suc n / 2 ^ 64,
  refl,
  omega (arith, mul_lt n (next_u64 r).1 u64_mod (next_u64_lt r)),
)
