-- ===== src/Capability/Check.antt =====
-- crates/capability/src/lib.rs: `check`, its conditions and its errors.
use muaddib.Prelude.{
  ℕ, ◌≡◌, ◌≢◌, ◌⊎◌, inl, inr, true, false, none, some, ok, err, arith, Bool-cases, Option-cases,
  ◌==◌,
}
use muaddib.Map
use muaddib.Capability.Rights.{Rights, contains}
use muaddib.Capability.{
  Capability, Kernel, CapError, check, unknown_object, revoked, insufficient_rights,
}

-- The object exists and is in the epoch of the capability.
abbrev pub IsLive : Kernel → Capability → Type 0
IsLive k c = Map.get c.object k.epochs ≡ some c.epoch

-- The object does not exist, or is in another epoch.
pub data IsDead (k : Kernel) (c : Capability) : CapError → Type 0 where
  gone : Map.get c.object k.epochs ≡ none → IsDead k c (unknown_object c.object)
  stale : (e : ℕ) → Map.get c.object k.epochs ≡ some e → e ≢ c.epoch → IsDead k c (revoked c.object)

pub check_of_IsLive :
    (k : Kernel) (c : Capability) (required : Rights)
    → IsLive k c
    → contains c.rights required ≡ true
    → check k c required ≡ ok tt
unfolding check
check_of_IsLive k c required live held = ground arith

pub check-eq_ok :
    (k : Kernel) (c : Capability) (required : Rights)
    → check k c required ≡ ok tt
    → IsLive k c × (contains c.rights required ≡ true)
unfolding check
check-eq_ok k c required h = ground arith

pub check_lacking :
    (k : Kernel) (c : Capability) (required : Rights)
    → IsLive k c
    → contains c.rights required ≡ false
    → check k c required ≡ err (insufficient_rights c.object c.rights required)
unfolding check
check_lacking k c required live held = ground arith

pub check_gone :
    (k : Kernel) (c : Capability) (required : Rights)
    → Map.get c.object k.epochs ≡ none
    → check k c required ≡ err (unknown_object c.object)
unfolding check
check_gone k c required h = ground arith

pub check_stale :
    (k : Kernel) (c : Capability) (required : Rights) (e : ℕ)
    → Map.get c.object k.epochs ≡ some e
    → e ≢ c.epoch
    → check k c required ≡ err (revoked c.object)
unfolding check
check_stale k c required e h ne = ground arith

pub check_of_IsDead :
    (k : Kernel) (c : Capability) (required : Rights) {e : CapError}
    → IsDead k c e
    → check k c required ≡ err e
check_of_IsDead k c required (gone h) = check_gone k c required h
check_of_IsDead k c required (stale e h ne) = check_stale k c required e h ne

-- The four outcomes, each with its cause.
pub check_cases :
    (k : Kernel) (c : Capability) (required : Rights)
    → (IsLive k c × (contains c.rights required ≡ true) × (check k c required ≡ ok tt))
      ⊎ ((e : CapError) × (check k c required ≡ err e))
unfolding check
check_cases k c required = elim (Option-cases (Map.get c.object k.epochs)) [
  | inl h ↦ inr (unknown_object c.object, check_gone k c required h)
  | inr (e, h) ↦ elim (Bool-cases (e == c.epoch)) [
    | inl same ↦ elim (Bool-cases (contains c.rights required)) [
      | inl held ↦ inl (ground arith, held, ground arith)
      | inr lack ↦ inr (insufficient_rights c.object c.rights required, ground arith)
    ]
    | inr other ↦ inr (revoked c.object, ground arith)
  ]
]

-- `check` reads of the kernel only the epoch of the capability's object.
pub check_local :
    (k k' : Kernel) (c : Capability) (required : Rights)
    → Map.get c.object k'.epochs ≡ Map.get c.object k.epochs
    → check k' c required ≡ check k c required
unfolding check
check_local k k' c required h = rw h

-- Two capabilities that are live, for one object and with the same rights, are checked alike.
pub check_same :
    (k k' : Kernel) (c d : Capability) (required : Rights)
    → IsLive k c
    → IsLive k' d
    → d.object ≡ c.object
    → d.rights ≡ c.rights
    → check k' d required ≡ check k c required
unfolding check
check_same k k' c d required live live' o r = ground arith
