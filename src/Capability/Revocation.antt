-- ===== src/Capability/Revocation.antt =====
-- crates/capability/src/lib.rs: `Kernel::revoke` and `Kernel::reissue`.
use muaddib.Prelude.{
  ℕ, ◌≡◌, refl, inl, inr, ok, err, arith, next_u64, ◌==◌, if◌then◌else◌, Bool-cases,
}
use muaddib.Map
use muaddib.Map.Laws.{get-insert_self, get-insert_ne}
use muaddib.Capability.Rights.{Rights, contains}
use muaddib.Capability.Rights
use muaddib.Capability.{Capability, Kernel, CapError, check, revoke, reissue, revoked}
use muaddib.Capability.Check.{IsLive, check-eq_ok, check_cases, check_stale, check_local}

-- The kernel after a successful `revoke` of the object `o`, which stood in epoch `e`.
abbrev pub bumped : Kernel → ℕ → ℕ → Kernel
bumped k o e = record k { epochs = Map.insert o (next_u64 e) k.epochs }

pub revoke_of_check :
    (k : Kernel) (c : Capability)
    → check k c Rights.destroy ≡ ok tt
    → revoke k c ≡ ok (bumped k c.object c.epoch)
unfolding revoke
revoke_of_check k c h = ground (arith, check-eq_ok k c Rights.destroy h)

pub revoke_refused :
    (k : Kernel) (c : Capability) (e : CapError)
    → check k c Rights.destroy ≡ err e
    → revoke k c ≡ err e
unfolding revoke
revoke_refused k c e h = rw h

-- A revoke that succeeds had a live capability with DESTROY, and bumps the epoch of its object.
pub revoke-eq_ok :
    (k k' : Kernel) (c : Capability)
    → revoke k c ≡ ok k'
    → (check k c Rights.destroy ≡ ok tt) × (k' ≡ bumped k c.object c.epoch)
revoke-eq_ok k k' c h = elim (check_cases k c Rights.destroy) [
  | inl (_, _, passed) ↦ (passed, ground (arith, revoke_of_check k c passed))
  | inr (e, refused) ↦ cc (revoke_refused k c e refused)
]

-- After a revoke, a capability that was live is refused every right as revoked if it is for the
-- same object, and is checked as before if it is for another.
pub revoke_final :
    (k k' : Kernel) (c d : Capability) (required : Rights)
    → revoke k c ≡ ok k'
    → IsLive k d
    → check k' d required
      ≡ (if d.object == c.object then err (revoked d.object) else check k d required)
revoke_final k k' c d required h l =
    let (passed, same) = revoke-eq_ok k k' c h in
    let (live, _) = check-eq_ok k c Rights.destroy passed in
    rw same (elim (Bool-cases (d.object == c.object)) [
      | inl here ↦ rw here (
          check_stale (bumped k c.object c.epoch) d required (next_u64 c.epoch)
            (ground (arith, get-insert_self c.object (next_u64 c.epoch) k.epochs)) (ground arith))
      | inr other ↦ rw other (
          check_local k (bumped k c.object c.epoch) d required
            (get-insert_ne d.object c.object (next_u64 c.epoch) k.epochs (ground arith)))
    ])

pub reissue_of_check :
    (k : Kernel) (c : Capability)
    → check k c Rights.destroy ≡ ok tt
    → reissue k c ≡ ok (bumped k c.object c.epoch, record c { epoch = next_u64 c.epoch })
unfolding reissue
reissue_of_check k c h =
    rw (revoke_of_check k c h) (rw (get-insert_self c.object (next_u64 c.epoch) k.epochs))

pub reissue_refused :
    (k : Kernel) (c : Capability) (e : CapError)
    → check k c Rights.destroy ≡ err e
    → reissue k c ≡ err e
unfolding reissue
reissue_refused k c e h = rw (revoke_refused k c e h)

pub reissue-eq_ok :
    (k k' : Kernel) (c d : Capability)
    → reissue k c ≡ ok (k', d)
    → (check k c Rights.destroy ≡ ok tt)
      × (k' ≡ bumped k c.object c.epoch)
      × (d ≡ record c { epoch = next_u64 c.epoch })
reissue-eq_ok k k' c d h = elim (check_cases k c Rights.destroy) [
  | inl (_, _, passed) ↦ (
    passed,
    ground (arith, reissue_of_check k c passed),
    ground (arith, reissue_of_check k c passed),
  )
  | inr (e, refused) ↦ cc (reissue_refused k c e refused)
]

-- The exclusive handoff: the capability that `reissue` returns is live and has the object and the
-- rights of the old one, and every capability that was live for the object is refused as revoked.
pub reissue_exclusive :
    (k k' : Kernel) (c d e : Capability) (required : Rights)
    → reissue k c ≡ ok (k', d)
    → e.object ≡ c.object
    → IsLive k e
    → (d.object ≡ c.object)
      × (d.rights ≡ c.rights)
      × IsLive k' d
      × (check k' e required ≡ err (revoked e.object))
reissue_exclusive k k' c d e required h o l =
    let (passed, same, fresh) = reissue-eq_ok k k' c d h in
    let (live, _) = check-eq_ok k c Rights.destroy passed in
    let now = get-insert_self c.object (next_u64 c.epoch) k.epochs in
    rw (same, fresh)
      (
        refl,
        refl,
        now,
        check_stale (bumped k c.object c.epoch) e required (next_u64 c.epoch) (rw o now)
            (ground arith),
      )
