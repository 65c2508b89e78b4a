-- ===== src/Prelude/Outcome.antt =====
-- `Result`, with a third case for a panic (a failed `expect`, or an index out of range), and the
-- `?` operator as a bind.
use mathlib.Core.Path.{◌≡◌, refl}
use mathlib.Core.Logic.{◌⊎◌, inl, inr}
use mathlib.Core.Bool.{Bool, true, false}
use mathlib.Core.Option.{Option, none, some}
use native.Mathlib.Omega.{arith}

pub data Result {ℓ κ} (E : Type ℓ) (A : Type κ) : Type (ℓ ⊔ κ) where
  ok : A → Result E A
  err : E → Result E A
  panic : Result E A

infixl 5 ◌>>=◌ ◌>>◌
abbrev pub ◌>>=◌ {ℓ κ μ} :
    {E : Type ℓ} {A : Type κ} {B : Type μ} → Result E A → (A → Result E B) → Result E B
ok a >>= f = f a
err e >>= f = err e
panic >>= f = panic

abbrev pub ◌>>◌ {ℓ κ μ} :
    {E : Type ℓ} {A : Type κ} {B : Type μ} → Result E A → Result E B → Result E B
m >> n = m >>= λ _. n

module _ {ℓ} {E : Type ℓ} where
  -- `if !test { return Err(e) }`
  abbrev pub guard : Bool → E → Result E (Unit {0})
  guard true e = ok tt
  guard false e = err e

  abbrev pub ok_or {κ} : {A : Type κ} → Option A → E → Result E A
  ok_or none e = err e
  ok_or (some a) e = ok a

  abbrev pub expect {κ} : {A : Type κ} → Option A → Result E A
  expect none = panic
  expect (some a) = ok a

  -- The conversion of the error that `?` makes by `From`.
  abbrev pub map_err {κ μ} : {F : Type κ} {A : Type μ} → (F → E) → Result F A → Result E A
  map_err f (ok a) = ok a
  map_err f (err e) = err (f e)
  map_err f panic = panic

  -- `.expect(..)` on a `Result`.
  abbrev pub expect_ok {κ μ} : {F : Type κ} {A : Type μ} → Result F A → Result E A
  expect_ok (ok a) = ok a
  expect_ok (err e) = panic
  expect_ok panic = panic

-- The parts of a `do` block that returned.
pub >>=-eq_ok {ℓ κ μ} :
    {E : Type ℓ} {A : Type κ} {B : Type μ} (m : Result E A) (f : A → Result E B) {b : B}
    → (m >>= f) ≡ ok b
    → (a : A) × (m ≡ ok a) × (f a ≡ ok b)
>>=-eq_ok (ok a) f h = (a, refl, h)
>>=-eq_ok (err e) f h = cc
>>=-eq_ok panic f h = cc

pub map_err-eq_ok {ℓ κ μ} :
    {E : Type ℓ} {F : Type κ} {A : Type μ} (f : F → E) (m : Result F A) {a : A}
    → map_err f m ≡ ok a
    → m ≡ ok a
map_err-eq_ok f (ok a) h = ground arith
map_err-eq_ok f (err e) h = cc
map_err-eq_ok f panic h = cc

pub ok_or-eq_ok {ℓ κ} :
    {E : Type ℓ} {A : Type κ} (o : Option A) (e : E) {a : A} → ok_or o e ≡ ok a → o ≡ some a
ok_or-eq_ok none e h = cc
ok_or-eq_ok (some a) e h = ground arith

pub guard-eq_ok {ℓ} : {E : Type ℓ} (b : Bool) (e : E) {u : Unit {0}} → guard b e ≡ ok u → b ≡ true
guard-eq_ok true e h = refl
guard-eq_ok false e h = cc

pub expect-eq_ok {ℓ κ} :
    {E : Type ℓ} {A : Type κ} (o : Option A) {a : A} → expect {E = E} o ≡ ok a → o ≡ some a
expect-eq_ok none h = cc
expect-eq_ok (some a) h = ground arith

pub Result-cases {ℓ κ} :
    {E : Type ℓ} {A : Type κ} (m : Result E A)
    → ¬ (m ≡ panic)
    → ((a : A) × (m ≡ ok a)) ⊎ ((e : E) × (m ≡ err e))
Result-cases (ok a) h = inl (a, refl)
Result-cases (err e) h = inr (e, refl)
Result-cases panic h = absurd (h refl)
