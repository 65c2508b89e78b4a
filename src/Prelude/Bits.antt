-- ===== src/Prelude/Bits.antt =====
-- The bitwise operations at variables: the law of the lowest digit, and what follows from it by
-- strong induction.
use Prim.Native.Nat.{
  ℕ, zero, suc, ◌+◌, ◌*◌, ◌/◌, ◌%◌, ◌≤◌, min, max, bit_and, bit_or, digits, bit_and-bitwise,
  bit_or-bitwise,
}
use mathlib.Core.Path.{◌≡◌, refl}
use native.Mathlib.Omega.{arith}

-- The recursion on digits takes any fuel that reaches the left operand.
module _ (z : ℕ → ℕ) (f : ℕ → ℕ → ℕ) where
  same-digits :
      (x y fuel more : ℕ) → x ≤ fuel → x ≤ more → digits z f fuel x y ≡ digits z f more x y
  same-digits zero y zero zero l l' = refl
  same-digits zero y zero (suc more) l l' = refl
  same-digits zero y (suc fuel) zero l l' = refl
  same-digits zero y (suc fuel) (suc more) l l' = refl
  same-digits (suc x) y zero more l l' = absurd (omega arith)
  same-digits (suc x) y (suc fuel) zero l l' = absurd (omega arith)
  same-digits (suc x) y (suc fuel) (suc more) l l' =
      let half : suc x / 2 ≤ fuel = omega arith in
      omega (arith, same-digits (suc x / 2) (y / 2) fuel more half (omega arith))

  pub half_fuel : (x y : ℕ) → digits z f x (suc x / 2) y ≡ digits z f (suc x / 2) (suc x / 2) y
  half_fuel x y =
      let half : suc x / 2 ≤ x = omega arith in
      same-digits (suc x / 2) y x (suc x / 2) half (omega arith)

zero-bit_or : (y : ℕ) → bit_or 0 y ≡ y
zero-bit_or y = bit_or-bitwise 0 y

pub bit_or_step : (x y : ℕ) → bit_or x y ≡ bit_or (x / 2) (y / 2) * 2 + max (x % 2) (y % 2)
bit_or_step zero y = omega (arith, zero-bit_or y, zero-bit_or (y / 2))
bit_or_step (suc x) y =
    let unfolded = bit_or-bitwise (suc x) y in
    let halved = bit_or-bitwise (suc x / 2) (y / 2) in
    omega (arith, unfolded, halved, half_fuel (λ j. j) max x (y / 2))

zero-bit_and : (y : ℕ) → bit_and 0 y ≡ 0
zero-bit_and y = bit_and-bitwise 0 y

pub bit_and_step : (x y : ℕ) → bit_and x y ≡ bit_and (x / 2) (y / 2) * 2 + min (x % 2) (y % 2)
bit_and_step zero y = omega (arith, zero-bit_and y, zero-bit_and (y / 2))
bit_and_step (suc x) y =
    let unfolded = bit_and-bitwise (suc x) y in
    let halved = bit_and-bitwise (suc x / 2) (y / 2) in
    omega (arith, unfolded, halved, half_fuel (λ j. zero) min x (y / 2))

-- Every bit of `b` is a bit of `a`, read one digit at a time.
Has-half : (a b : ℕ) → bit_and a b ≡ b → (bit_and (a / 2) (b / 2) ≡ b / 2) × (b % 2 ≤ a % 2)
Has-half a b h = (omega (arith, bit_and_step a b), omega (arith, bit_and_step a b))

Has-double : (a b : ℕ) → bit_and (a / 2) (b / 2) ≡ b / 2 → b % 2 ≤ a % 2 → bit_and a b ≡ b
Has-double a b h d = omega (arith, bit_and_step a b)

Has-zero_fuel : (n a : ℕ) → a ≤ n → bit_and a 0 ≡ 0
Has-zero_fuel n zero h = zero-bit_and 0
Has-zero_fuel zero (suc a) h = absurd (omega arith)
Has-zero_fuel (suc n) (suc a) h =
    omega (arith, bit_and_step (suc a) 0, Has-zero_fuel n (suc a / 2) (omega arith))

pub bit_and-zero : (a : ℕ) → bit_and a 0 ≡ 0
bit_and-zero a = Has-zero_fuel a a (omega arith)

self_fuel : (n a : ℕ) → a ≤ n → bit_and a a ≡ a
self_fuel n zero h = zero-bit_and 0
self_fuel zero (suc a) h = absurd (omega arith)
self_fuel (suc n) (suc a) h =
    omega (arith, bit_and_step (suc a) (suc a), self_fuel n (suc a / 2) (omega arith))

pub bit_and_self : (a : ℕ) → bit_and a a ≡ a
bit_and_self a = self_fuel a a (omega arith)

trans_fuel : (n a b c : ℕ) → c ≤ n → bit_and a b ≡ b → bit_and b c ≡ c → bit_and a c ≡ c
trans_fuel n a b zero h p q = bit_and-zero a
trans_fuel zero a b (suc c) h p q = absurd (omega arith)
trans_fuel (suc n) a b (suc c) h p q =
    let (p', u) = Has-half a b p in
    let (q', v) = Has-half b (suc c) q in
    Has-double a (suc c) (trans_fuel n (a / 2) (b / 2) (suc c / 2) (omega arith) p' q')
      (omega arith)

pub bit_and_trans : (a b c : ℕ) → bit_and a b ≡ b → bit_and b c ≡ c → bit_and a c ≡ c
bit_and_trans a b c = trans_fuel c a b c (omega arith)

antisym_fuel : (n a b : ℕ) → a + b ≤ n → bit_and a b ≡ b → bit_and b a ≡ a → a ≡ b
antisym_fuel zero a b h p q = omega arith
antisym_fuel (suc n) zero zero h p q = refl
antisym_fuel (suc n) zero (suc b) h p q = omega (arith, zero-bit_and (suc b))
antisym_fuel (suc n) (suc a) b h p q =
    let (p', u) = Has-half (suc a) b p in
    let (q', v) = Has-half b (suc a) q in
    omega (arith, antisym_fuel n (suc a / 2) (b / 2) (omega arith) p' q')

pub bit_and_antisym : (a b : ℕ) → bit_and a b ≡ b → bit_and b a ≡ a → a ≡ b
bit_and_antisym a b = antisym_fuel (a + b) a b (omega arith)

or_half :
    (a b : ℕ) → (bit_or a b / 2 ≡ bit_or (a / 2) (b / 2)) × (bit_or a b % 2 ≡ max (a % 2) (b % 2))
or_half a b = (omega (arith, bit_or_step a b), omega (arith, bit_or_step a b))

-- A union is held exactly when both of its parts are.
or_join_fuel :
    (n a b c : ℕ)
    → b + c ≤ n
    → bit_and a b ≡ b
    → bit_and a c ≡ c
    → bit_and a (bit_or b c) ≡ bit_or b c
or_join_fuel n a zero c h p q = rw (zero-bit_or c) q
or_join_fuel zero a (suc b) c h p q = absurd (omega arith)
or_join_fuel (suc n) a (suc b) c h p q =
    let (p', u) = Has-half a (suc b) p in
    let (q', v) = Has-half a c q in
    let (d, m) = or_half (suc b) c in
    Has-double a (bit_or (suc b) c)
      (rw d (or_join_fuel n (a / 2) (suc b / 2) (c / 2) (omega arith) p' q')) (omega arith)

pub or_join : (a b c : ℕ) → bit_and a b ≡ b → bit_and a c ≡ c → bit_and a (bit_or b c) ≡ bit_or b c
or_join a b c = or_join_fuel (b + c) a b c (omega arith)

or_holds_fuel :
    (n a b : ℕ) → a + b ≤ n → (bit_and (bit_or a b) a ≡ a) × (bit_and (bit_or a b) b ≡ b)
or_holds_fuel n zero b h = rw (zero-bit_or b) (bit_and-zero b, bit_and_self b)
or_holds_fuel zero (suc a) b h = absurd (omega arith)
or_holds_fuel (suc n) (suc a) b h =
    let (p, q) = or_holds_fuel n (suc a / 2) (b / 2) (omega arith) in
    let (d, m) = or_half (suc a) b in
    (
      Has-double (bit_or (suc a) b) (suc a) (rw d p) (omega arith),
      Has-double (bit_or (suc a) b) b (rw d q) (omega arith),
    )

pub or_holds : (a b : ℕ) → (bit_and (bit_or a b) a ≡ a) × (bit_and (bit_or a b) b ≡ b)
or_holds a b = or_holds_fuel (a + b) a b (omega arith)

and_half :
    (a b : ℕ)
    → (bit_and a b / 2 ≡ bit_and (a / 2) (b / 2)) × (bit_and a b % 2 ≡ min (a % 2) (b % 2))
and_half a b = (omega (arith, bit_and_step a b), omega (arith, bit_and_step a b))

and_meet_fuel :
    (n a b c : ℕ) → c ≤ n → bit_and a c ≡ c → bit_and b c ≡ c → bit_and (bit_and a b) c ≡ c
and_meet_fuel n a b zero h p q = bit_and-zero (bit_and a b)
and_meet_fuel zero a b (suc c) h p q = absurd (omega arith)
and_meet_fuel (suc n) a b (suc c) h p q =
    let (p', u) = Has-half a (suc c) p in
    let (q', v) = Has-half b (suc c) q in
    let (d, m) = and_half a b in
    Has-double (bit_and a b) (suc c)
      (rw d (and_meet_fuel n (a / 2) (b / 2) (suc c / 2) (omega arith) p' q')) (omega arith)

pub and_meet : (a b c : ℕ) → bit_and a c ≡ c → bit_and b c ≡ c → bit_and (bit_and a b) c ≡ c
and_meet a b c = and_meet_fuel c a b c (omega arith)

and_below_fuel :
    (n a b : ℕ)
    → a ≤ n
    → (bit_and a (bit_and a b) ≡ bit_and a b) × (bit_and b (bit_and a b) ≡ bit_and a b)
and_below_fuel n zero b h = rw (zero-bit_and b) (zero-bit_and 0, bit_and-zero b)
and_below_fuel zero (suc a) b h = absurd (omega arith)
and_below_fuel (suc n) (suc a) b h =
    let (p, q) = and_below_fuel n (suc a / 2) (b / 2) (omega arith) in
    let (d, m) = and_half (suc a) b in
    (
      Has-double (suc a) (bit_and (suc a) b) (rw d p) (omega arith),
      Has-double b (bit_and (suc a) b) (rw d q) (omega arith),
    )

pub and_below :
    (a b : ℕ) → (bit_and a (bit_and a b) ≡ bit_and a b) × (bit_and b (bit_and a b) ≡ bit_and a b)
and_below a b = and_below_fuel a a b (omega arith)
