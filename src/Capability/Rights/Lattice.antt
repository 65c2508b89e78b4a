-- ===== src/Capability/Rights/Lattice.antt =====
-- crates/capability/src/rights.rs: `contains`, `|` and `&`.
use muaddib.Prelude.{◌≡◌, ◌↔◌, true, ==_iff, bit_and}
use muaddib.Prelude.Bits.{
  bit_and-zero, bit_and_self, bit_and_trans, bit_and_antisym, or_join, or_holds, and_meet,
  and_below,
}
use muaddib.Capability.Rights.{Rights, none, ◌∪◌, ◌∩◌, contains}

pub contains_iff : (a b : Rights) → (contains a b ≡ true) ↔ (bit_and a b ≡ b)
unfolding contains
contains_iff a b = ==_iff (bit_and a b) b

pub contains_self : (a : Rights) → contains a a ≡ true
contains_self a = (contains_iff a a).1 (bit_and_self a)

pub contains-none : (a : Rights) → contains a none ≡ true
contains-none a = (contains_iff a none).1 (bit_and-zero a)

pub contains_trans :
    (a b c : Rights) → contains a b ≡ true → contains b c ≡ true → contains a c ≡ true
contains_trans a b c p q =
    (contains_iff a c).1 (bit_and_trans a b c ((contains_iff a b).0 p) ((contains_iff b c).0 q))

pub contains_antisym : (a b : Rights) → contains a b ≡ true → contains b a ≡ true → a ≡ b
contains_antisym a b p q = bit_and_antisym a b ((contains_iff a b).0 p) ((contains_iff b a).0 q)

contains-∪_left : (a b : Rights) → contains (a ∪ b) a ≡ true
unfolding ◌∪◌
contains-∪_left a b = (contains_iff (a ∪ b) a).1 (or_holds a b).0

contains-∪_right : (a b : Rights) → contains (a ∪ b) b ≡ true
unfolding ◌∪◌
contains-∪_right a b = (contains_iff (a ∪ b) b).1 (or_holds a b).1

contains_left-∩ : (a b : Rights) → contains a (a ∩ b) ≡ true
unfolding ◌∩◌
contains_left-∩ a b = (contains_iff a (a ∩ b)).1 (and_below a b).0

contains_right-∩ : (a b : Rights) → contains b (a ∩ b) ≡ true
unfolding ◌∩◌
contains_right-∩ a b = (contains_iff b (a ∩ b)).1 (and_below a b).1

-- A set of rights includes the union of two others exactly when it includes both.
pub contains-∪ :
    (r a b : Rights) → (contains r (a ∪ b) ≡ true) ↔ ((contains r a ≡ true) × (contains r b ≡ true))
unfolding ◌∪◌
contains-∪ r a b = (
  λ h. (
    contains_trans r (a ∪ b) a h (contains-∪_left a b),
    contains_trans r (a ∪ b) b h (contains-∪_right a b),
  ),
  λ h.
      (contains_iff r (a ∪ b)).1
        (or_join r a b ((contains_iff r a).0 h.0) ((contains_iff r b).0 h.1)),
)

-- The intersection of two sets of rights includes exactly what both of them include.
pub ∩-contains :
    (a b r : Rights) → (contains (a ∩ b) r ≡ true) ↔ ((contains a r ≡ true) × (contains b r ≡ true))
unfolding ◌∩◌
∩-contains a b r = (
  λ h. (
    contains_trans a (a ∩ b) r (contains_left-∩ a b) h,
    contains_trans b (a ∩ b) r (contains_right-∩ a b) h,
  ),
  λ h.
      (contains_iff (a ∩ b) r).1
        (and_meet a b r ((contains_iff a r).0 h.0) ((contains_iff b r).0 h.1)),
)
