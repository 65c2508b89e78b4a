-- ===== src/Memory/Access.antt =====
-- crates/memory/src/lib.rs: `read` and `write`, one after the other and around a reissue.
use muaddib.Prelude.{
  ℕ, ◌+◌, ◌-◌, ◌≤◌, ◌≡◌, refl, ◌&&◌, some, List, ok, err, length, take, drop, ◌++◌, ◌∙◌, sym, ap,
  length-take, length-drop, length-append, get_elem?, ◌==◌, get_elem?-append, get_elem?-take,
  get_elem?-drop, get_elem?_above, eq_of_get_elem?, ◌==◌, ltb, leb, if◌then◌else◌, arith,
}
use muaddib.Map
use muaddib.Map.Laws.{get-insert_self, get-insert}
use muaddib.Capability.Rights
use muaddib.Capability.{Capability, Kernel, check, reissue, revoked}
use muaddib.Capability.Check.{IsLive, check_same, check-eq_ok}
use muaddib.Capability.Revocation.{reissue_exclusive, reissue-eq_ok}
use muaddib.Memory.{RegionRegistry, read, write, capability}
use muaddib.Memory.Bounds.{
  overwrite, read-access, write-access, access-eq_ok, access_inside, access_refused, access_local,
}

get_elem?-overwrite :
    (offset i : ℕ) (data' bytes : List ℕ)
    → offset + length data' ≤ length bytes
    → get_elem? (overwrite offset data' bytes) i ≡ (
        if leb offset i && ltb i (offset + length data')
        then get_elem? data' (i - offset)
        else get_elem? bytes i)
get_elem?-overwrite offset i data' bytes h = ground (
  arith,
  length-take offset bytes,
  get_elem?-append (take offset bytes) (data' ++ drop (offset + length data') bytes) i,
  get_elem?-append data' (drop (offset + length data') bytes) (i - offset),
  get_elem?-take offset bytes i,
  get_elem?-drop (offset + length data') bytes (i - offset - length data'),
)

length-overwrite :
    (offset : ℕ) (data' bytes : List ℕ)
    → offset + length data' ≤ length bytes
    → length (overwrite offset data' bytes) ≡ length bytes
length-overwrite offset data' bytes h = omega (
  arith,
  length-append (take offset bytes) (data' ++ drop (offset + length data') bytes),
  length-append data' (drop (offset + length data') bytes),
  length-take offset bytes (omega arith),
  length-drop (offset + length data') bytes,
)

-- A write that succeeds sets exactly the bytes of its range in the region of its capability: every
-- other byte, the region's size and every other region stay as they were.
pub write_effect :
    (r r' : RegionRegistry) (k : Kernel) (c : Capability) (offset : ℕ) (data' : List ℕ) (i o : ℕ)
    → write r k c offset data' ≡ ok r'
    → (bytes bytes' : List ℕ) × (Map.get c.object r.regions ≡ some bytes)
      × (length bytes' ≡ length bytes)
      × (get_elem? bytes' i ≡ (
          if leb offset i && ltb i (offset + length data')
          then get_elem? data' (i - offset)
          else get_elem? bytes i))
      × (Map.get o r'.regions ≡ (if o == c.object then some bytes' else Map.get o r.regions))
write_effect r r' k c offset data' i o h =
    let (bytes, granted, found, fits, _, same) =
      access-eq_ok r k c Rights.write offset (length data')
        (λ b. record { regions = Map.insert c.object (overwrite offset data' b) r.regions }) r'
        (rw (write-access r k c offset data') at h) in
    let new_bytes = overwrite offset data' bytes in
    (
      bytes,
      new_bytes,
      found,
      length-overwrite offset data' bytes fits,
      get_elem?-overwrite offset i data' bytes fits,
      rw same (get-insert o c.object new_bytes r.regions),
    )

slice-overwrite :
    (offset : ℕ) (data' bytes : List ℕ)
    → offset + length data' ≤ length bytes
    → take (length data') (drop offset (overwrite offset data' bytes)) ≡ data'
slice-overwrite offset data' bytes h = eq_of_get_elem? _ _ λ i. ground (
  arith,
  get_elem?-take (length data') (drop offset (overwrite offset data' bytes)) i,
  get_elem?-drop offset (overwrite offset data' bytes) i,
  get_elem?-overwrite offset (i + offset) data' bytes,
  get_elem?_above data' i,
  ap (get_elem? data') (let e : i + offset - offset ≡ i = omega arith in e),
)

-- What one capability wrote, any capability for the region that may read gets back.
pub read-write :
    (r r' : RegionRegistry) (k : Kernel) (c d : Capability) (offset : ℕ) (data' : List ℕ)
    → write r k c offset data' ≡ ok r'
    → d.object ≡ c.object
    → check k d Rights.read ≡ ok tt
    → read r' k d offset (length data') ≡ ok data'
read-write r r' k c d offset data' h o granted =
    let (bytes, _, found, fits, small, same) =
      access-eq_ok r k c Rights.write offset (length data')
        (λ b. record { regions = Map.insert c.object (overwrite offset data' b) r.regions }) r'
        (rw (write-access r k c offset data') at h) in
    let new_bytes = overwrite offset data' bytes in
    read-access r' k d offset (length data')
    ∙ access_inside r' k d Rights.read offset (length data')
        (λ b. take (length data') (drop offset b)) new_bytes granted
        (rw (same, o) (get-insert_self c.object new_bytes r.regions))
        (omega (arith, length-overwrite offset data' bytes fits)) small
    ∙ ap ok (slice-overwrite offset data' bytes fits)

-- Ownership of a region moves by `reissue`: the fresh capability reads what the old one did,
-- and every capability that was live for the region, the old owner's copies included, is refused
-- as revoked in every read and write, whatever the range.
pub reissue_moves_access :
    (r : RegionRegistry) (k k' : Kernel) (c d e : Capability) (offset len : ℕ) (data' : List ℕ)
    → reissue k c ≡ ok (k', d)
    → IsLive k e
    → e.object ≡ c.object
    → (read r k' d offset len ≡ read r k c offset len)
      × (read r k' e offset len ≡ err (capability (revoked e.object)))
      × (write r k' e offset data' ≡ err (capability (revoked e.object)))
reissue_moves_access r k k' c d e offset len data' h live o =
    let (passed, _, _) = reissue-eq_ok k k' c d h in
    let (alive, _) = check-eq_ok k c Rights.destroy passed in
    let (same, rights, fresh, _) = reissue_exclusive k k' c d c Rights.read h refl alive in
    let (_, _, _, refused) = reissue_exclusive k k' c d e Rights.read h o live in
    let (_, _, _, refused') = reissue_exclusive k k' c d e Rights.write h o live in
    (
      read-access r k' d offset len
          ∙ access_local r k k' c d Rights.read offset len (λ b. take len (drop offset b))
              (check_same k k' c d Rights.read alive fresh same rights) same
          ∙ sym (read-access r k c offset len),
      read-access r k' e offset len
          ∙ access_refused r k' e Rights.read offset len _ (revoked e.object) refused,
      write-access r k' e offset data'
          ∙ access_refused r k' e Rights.write offset (length data') _ (revoked e.object) refused',
    )
