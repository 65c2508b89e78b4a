-- ===== src/Process/Transfer/Delivery.antt =====
-- crates/process/src/transfer.rs: what leaves the source's table in a batch, and what arrives.
use muaddib.Prelude.{
  ℕ, zero, suc, ◌≡◌, refl, true, none, some, List, [], ◌∷◌, ok, err, any, get_elem?, length,
  if◌then◌else◌, ◌∙◌, arith, next_u64,
}
use muaddib.Capability.Rights.{Rights, contains}
use muaddib.Capability.Rights
use muaddib.Capability.Rights.Lattice.{contains_self}
use muaddib.Capability.{Capability, Kernel, check, revoked}
use muaddib.Capability.Check.{IsLive, check-eq_ok, check_stale}
use muaddib.Capability.Derivation.{derive-eq_ok}
use muaddib.Process.{Process}
use muaddib.Process
use muaddib.Process.Transfer.{Grant, transfer, derive, move, resolve_grants, apply_grants}
use muaddib.Process.Transfer.Resolved.{
  Resolves, by_transfer, by_derive, by_move, resolve_grants-eq_ok, length-ResolvesAll,
}
use muaddib.Process.Transfer.Applied.{
  delivered, stripped, moved, apply-resolve, ResolvesAll-at, takes, get-strip, get-bump_all_other,
  get-bump_all_moved, Resolves-move,
}

abbrev deliver_one : Grant → Capability → Capability
deliver_one (transfer h) c = c
deliver_one (derive h rights) c = c
deliver_one (move h) c = record c { epoch = next_u64 c.epoch }

abbrev pub handle_of : Grant → ℕ
handle_of (transfer h) = h
handle_of (derive h rights) = h
handle_of (move h) = h

length-delivered :
    (gs : List Grant) (cs : List Capability)
    → length gs ≡ length cs
    → length (delivered gs cs) ≡ length gs
unfolding delivered
length-delivered [] cs h = omega arith
length-delivered (g ∷ gs) [] h = absurd (omega arith)
length-delivered (transfer j ∷ gs) (c ∷ cs) h = omega (arith, length-delivered gs cs (omega arith))
length-delivered (derive j rights ∷ gs) (c ∷ cs) h =
    omega (arith, length-delivered gs cs (omega arith))
length-delivered (move j ∷ gs) (c ∷ cs) h = omega (arith, length-delivered gs cs (omega arith))

-- Each delivered capability comes from the resolved one at its position.
delivered-at :
    (gs : List Grant) (cs : List Capability) (i : ℕ) (g : Grant) (d : Capability)
    → get_elem? gs i ≡ some g
    → get_elem? (delivered gs cs) i ≡ some d
    → (c : Capability) × (get_elem? cs i ≡ some c) × (d ≡ deliver_one g c)
unfolding delivered
delivered-at [] cs i g d e e' = cc
delivered-at (g' ∷ gs) [] i g d e e' = cc
delivered-at (transfer h ∷ gs) (c ∷ cs) zero g d e e' = (c, refl, ground arith)
delivered-at (transfer h ∷ gs) (c ∷ cs) (suc i) g d e e' = delivered-at gs cs i g d e e'
delivered-at (derive h rights ∷ gs) (c ∷ cs) zero g d e e' = (c, refl, ground arith)
delivered-at (derive h rights ∷ gs) (c ∷ cs) (suc i) g d e e' = delivered-at gs cs i g d e e'
delivered-at (move h ∷ gs) (c ∷ cs) zero g d e e' = (c, refl, ground arith)
delivered-at (move h ∷ gs) (c ∷ cs) (suc i) g d e e' = delivered-at gs cs i g d e e'

Resolves-attenuates :
    {k : Kernel} {source : Process} {g : Grant} {c : Capability}
    → Resolves k source g c
    → (held : Capability) × (Process.capability source (handle_of g) ≡ some held)
      × ((deliver_one g c).object ≡ held.object)
      × (contains held.rights (deliver_one g c).rights ≡ true)
Resolves-attenuates (by_transfer {h = h} {c = c} e) = (c, e, refl, contains_self c.rights)
Resolves-attenuates {k} (by_derive {h = h} {rights = rights} {c = c} held e d) =
    let (_, within, same) = derive-eq_ok k held c rights d in (held, e, rw same, rw same within)
Resolves-attenuates (by_move {h = h} {c = c} e p) = (c, e, refl, contains_self c.rights)

Resolves-derive :
    {k : Kernel} {source : Process} {g : Grant} {h : ℕ} {rights : Rights} {c : Capability}
    → Resolves k source g c
    → g ≡ derive h rights
    → IsLive k c × (c.rights ≡ rights)
Resolves-derive (by_transfer e) p = cc
Resolves-derive {k} {rights = rights} (by_derive {rights = rights'} {c = c} held e d) p =
    let (checked, _, same) = derive-eq_ok k held c rights' d in
    let (live, _) = check-eq_ok k held Rights.grant checked in (ground arith, ground arith)
Resolves-derive (by_move e d) p = cc

module _ (k k' : Kernel) (source source' : Process) (gs : List Grant) (cs ds : List Capability)
    (resolved : resolve_grants k source gs ≡ ok cs)
    (applied : apply_grants k source gs cs ≡ ok (k', source', ds)) where
  outcome : (k' ≡ moved k gs cs) × (source' ≡ stripped source gs) × (ds ≡ delivered gs cs)
  outcome =
      let e = apply-resolve k source gs cs resolved in (ground arith, ground arith, ground arith)

  -- One capability arrives for each grant.
  pub delivered_count : length ds ≡ length gs
  delivered_count =
      let (_, _, same) = outcome in
      let (all, _) = resolve_grants-eq_ok k source gs cs resolved in
      rw same (length-delivered gs cs (length-ResolvesAll all))

  -- A batch takes out of the source's table exactly the handles that it transfers or moves, and
  -- changes nothing else of the process.
  pub source_after :
      (h : ℕ)
      → (Process.capability source' h
          ≡ (if any (takes h) gs then none else Process.capability source h))
        × (source'.id ≡ source.id)
        × (source'.next_handle ≡ source.next_handle)
        × (source'.clock ≡ source.clock)
  unfolding Process.capability
  source_after h =
      let (_, same, _) = outcome in rw same (get-strip h gs source.capabilities, refl, refl, refl)

  -- No batch amplifies: what a grant delivers names the object of the capability that the source
  -- held under the grant's handle, and has no right that this one lacks.
  pub delivered_attenuates :
      (i : ℕ) (g : Grant) (d : Capability)
      → get_elem? gs i ≡ some g
      → get_elem? ds i ≡ some d
      → (held : Capability) × (Process.capability source (handle_of g) ≡ some held)
        × (d.object ≡ held.object)
        × (contains held.rights d.rights ≡ true)
  delivered_attenuates i g d e e' =
      let (_, _, same) = outcome in
      let (all, _) = resolve_grants-eq_ok k source gs cs resolved in
      let (c, at, from) = delivered-at gs cs i g d e (rw same at e') in
      rw from (Resolves-attenuates (ResolvesAll-at i g c all e at))

  -- A move hands over exclusively: what it delivers is live afterwards, and every capability that
  -- was live for the object before, the source's own copies included, is refused as revoked.
  pub move_exclusive :
      (i h : ℕ) (d e : Capability) (required : Rights)
      → get_elem? gs i ≡ some (move h)
      → get_elem? ds i ≡ some d
      → e.object ≡ d.object
      → IsLive k e
      → IsLive k' d × (check k' e required ≡ err (revoked e.object))
  move_exclusive i h d e required at at' o l =
      let (kernel, _, same) = outcome in
      let (all, apart) = resolve_grants-eq_ok k source gs cs resolved in
      let (c, at'', from) = delivered-at gs cs i (move h) d at (rw same at at') in
      let now = get-bump_all_moved gs cs k.epochs i h c apart at at'' in
      let checked = Resolves-move (ResolvesAll-at i (move h) c all at at'') refl in
      let (live, _) = check-eq_ok k c Rights.destroy checked in
      rw kernel (
        rw from now,
        check_stale (moved k gs cs) e required (next_u64 c.epoch) (ground arith) (ground arith),
      )

  -- What a `derive` grant delivers is live afterwards: no move of the same batch kills it.
  pub derive_arrives-IsLive :
      (i h : ℕ) (rights : Rights) (d : Capability)
      → get_elem? gs i ≡ some (derive h rights)
      → get_elem? ds i ≡ some d
      → IsLive k' d × (d.rights ≡ rights)
  derive_arrives-IsLive i h rights d at at' =
      let (kernel, _, same) = outcome in
      let (all, apart) = resolve_grants-eq_ok k source gs cs resolved in
      let (c, at'', from) = delivered-at gs cs i (derive h rights) d at (rw same at at') in
      let (live, granted) =
        Resolves-derive (ResolvesAll-at i (derive h rights) c all at at'') refl in
      rw (kernel, from)
        (
          get-bump_all_other c.object gs cs k.epochs
                (λ j h' c' e e' q. apart j i h' c' c e e' at'' (λ p. cc) q)
              ∙ live,
          granted,
        )
