-- ===== src/Prelude/Xor.antt =====
-- `bit_xor` at variables: the law of the lowest digit, a bound, and cancellation.
use Prim.Native.Nat.{
  ℕ, zero, suc, ◌+◌, ◌*◌, ◌/◌, ◌%◌, ◌^◌, ◌≤◌, ◌<◌, bit_xor, differ, bit_xor-bitwise,
}
use mathlib.Core.Path.{◌≡◌, refl}
use native.Mathlib.Omega.{arith}
use native.Mathlib.Numerals.{unary_clauses}
use muaddib.Prelude.Bits.{half_fuel}

differ_lt : (d e : ℕ) → d < 2 → e < 2 → differ d e < 2
differ_lt zero e h h' = h'
differ_lt (suc zero) zero h h' = h
differ_lt (suc zero) (suc zero) h h' = omega arith
differ_lt (suc zero) (suc (suc e)) h h' = absurd (omega arith)
differ_lt (suc (suc d)) e h h' = absurd (omega arith)

differ_cancel : (d e e' : ℕ) → d < 2 → e < 2 → e' < 2 → differ d e ≡ differ d e' → e ≡ e'
differ_cancel zero e e' h l l' same = same
differ_cancel (suc (suc d)) e e' h l l' same = absurd (omega arith)
differ_cancel (suc zero) zero zero h l l' same = refl
differ_cancel (suc zero) zero (suc zero) h l l' same = absurd (omega arith)
differ_cancel (suc zero) (suc zero) zero h l l' same = absurd (omega arith)
differ_cancel (suc zero) (suc zero) (suc zero) h l l' same = refl
differ_cancel (suc zero) (suc (suc e)) e' h l l' same = absurd (omega arith)
differ_cancel (suc zero) zero (suc (suc e')) h l l' same = absurd (omega arith)
differ_cancel (suc zero) (suc zero) (suc (suc e')) h l l' same = absurd (omega arith)

zero-bit_xor : (y : ℕ) → bit_xor 0 y ≡ y
zero-bit_xor y = bit_xor-bitwise 0 y

pub bit_xor_step : (x y : ℕ) → bit_xor x y ≡ bit_xor (x / 2) (y / 2) * 2 + differ (x % 2) (y % 2)
bit_xor_step zero y = omega (arith, zero-bit_xor y, zero-bit_xor (y / 2))
bit_xor_step (suc x) y =
    let unfolded = bit_xor-bitwise (suc x) y in
    let halved = bit_xor-bitwise (suc x / 2) (y / 2) in
    omega (arith, unfolded, halved, half_fuel (λ j. j) differ x (y / 2))

digit_lt : (x : ℕ) → x % 2 < 2
digit_lt x = omega arith

-- Words of `k` bits give a word of `k` bits.
pub bit_xor_lt : (k x y : ℕ) → x < 2 ^ k → y < 2 ^ k → bit_xor x y < 2 ^ k
bit_xor_lt zero x y h h' =
    let p : x ≡ 0 = omega arith in let q : y ≡ 0 = omega arith in rw (p, q) (omega arith)
bit_xor_lt (suc k) x y h h' =
    let double : 2 ^ suc k ≡ 2 ^ k * 2 = simp unary_clauses (omega arith) in
    omega (
      arith,
      double,
      bit_xor_lt k (x / 2) (y / 2) (omega (arith, double)) (omega (arith, double)),
      bit_xor_step x y,
      differ_lt (x % 2) (y % 2) (digit_lt x) (digit_lt y),
    )

cancel_fuel : (n z x y : ℕ) → x + y ≤ n → bit_xor z x ≡ bit_xor z y → x ≡ y
cancel_fuel zero z x y h same = omega arith
cancel_fuel (suc n) z x y h same =
    let dx = differ_lt (z % 2) (x % 2) (digit_lt z) (digit_lt x) in
    let dy = differ_lt (z % 2) (y % 2) (digit_lt z) (digit_lt y) in
    let digits : differ (z % 2) (x % 2) ≡ differ (z % 2) (y % 2) =
      omega (arith, bit_xor_step z x, bit_xor_step z y) in
    let halves : bit_xor (z / 2) (x / 2) ≡ bit_xor (z / 2) (y / 2) =
      omega (arith, bit_xor_step z x, bit_xor_step z y) in
    let low = differ_cancel (z % 2) (x % 2) (y % 2) (digit_lt z) (digit_lt x) (digit_lt y) digits in
    omega (arith, cancel_fuel n (z / 2) (x / 2) (y / 2) (omega arith) halves)

pub bit_xor_cancel : (z x y : ℕ) → bit_xor z x ≡ bit_xor z y → x ≡ y
bit_xor_cancel z x y = cancel_fuel (x + y) z x y (omega arith)
