-- ===== src/Capability/Derivation.antt =====
-- crates/capability/src/lib.rs: `Kernel::derive`, and chains of derivations.
use muaddib.Prelude.{◌≡◌, refl, ◌↔◌, true, ok, arith}
use muaddib.Capability.Rights.{Rights, contains}
use muaddib.Capability.Rights
use muaddib.Capability.Rights.Lattice.{contains_trans, contains_self}
use muaddib.Capability.{Capability, Kernel, check, derive}
use muaddib.Capability.Check.{IsLive, check_of_IsLive, check-eq_ok}

-- What a successful `derive` was given, and what it returns.
pub derive-eq_ok :
    (k : Kernel) (c d : Capability) (requested : Rights)
    → derive k c requested ≡ ok d
    → (check k c Rights.grant ≡ ok tt)
      × (contains c.rights requested ≡ true)
      × (d ≡ record c { rights = requested })
unfolding derive
derive-eq_ok k c d requested h = ground arith

pub derive_of_check :
    (k : Kernel) (c : Capability) (requested : Rights)
    → check k c Rights.grant ≡ ok tt
    → contains c.rights requested ≡ true
    → derive k c requested ≡ ok (record c { rights = requested })
unfolding derive
derive_of_check k c requested h held = ground arith

-- `derive` succeeds exactly for a live capability that holds GRANT and every requested right.
pub derive_iff :
    (k : Kernel) (c : Capability) (requested : Rights)
    → (derive k c requested ≡ ok (record c { rights = requested })) ↔ (
        IsLive k c × (contains c.rights Rights.grant ≡ true) × (contains c.rights requested ≡ true))
derive_iff k c requested = (
  λ h.
      let (checked, held, _) = derive-eq_ok k c _ requested h in
      let (live, grants) = check-eq_ok k c Rights.grant checked in (live, grants, held),
  λ h. derive_of_check k c requested (check_of_IsLive k c Rights.grant h.0 h.1) h.2,
)

-- A chain of derivations from one capability, each from the one before.
pub data Derives (k : Kernel) (c : Capability) : Capability → Type 0 where
  here : Derives k c c
  next :
      {d e : Capability} (requested : Rights)
      → Derives k c d
      → derive k d requested ≡ ok e
      → Derives k c e

pub Derives-shrinks :
    {k : Kernel} {c d : Capability}
    → Derives k c d
    → (d.object ≡ c.object) × (d.epoch ≡ c.epoch) × (contains c.rights d.rights ≡ true)
Derives-shrinks {k} {c} here = (refl, refl, contains_self c.rights)
Derives-shrinks {k} {c} (next {d = d} {e = e} requested r h) =
    let (o, p, held) = Derives-shrinks r in
    let (_, sub, same) = derive-eq_ok k d e requested h in
    rw same (o, p, contains_trans c.rights d.rights requested held sub)

-- Whatever a derived capability is good for, the one at the root of its chain is good for too.
pub Derives-attenuates :
    {k : Kernel} {c d : Capability} (k' : Kernel) (required : Rights)
    → Derives k c d
    → check k' d required ≡ ok tt
    → check k' c required ≡ ok tt
Derives-attenuates {k} {c} {d} k' required r h =
    let (o, p, held) = Derives-shrinks r in
    let (live, sub) = check-eq_ok k' d required h in
    check_of_IsLive k' c required (rw (← o, ← p) live)
      (contains_trans c.rights d.rights required held sub)
