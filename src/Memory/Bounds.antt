-- ===== src/Memory/Bounds.antt =====
-- crates/memory/src/lib.rs: the checks that `read` and `write` make.
use muaddib.Prelude.{
  ℕ, ◌+◌, ◌≤◌, ◌<◌, ◌≡◌, ◌⊎◌, inl, inr, ◌&&◌, Bool-cases, some, List, Result, ok, err, ◌>>=◌, ◌>>◌,
  ok_or, map_err, length, take, drop, length-take, length-drop, ltb, leb, if◌then◌else◌, u64_mod,
  arith, Option-cases, ◌++◌,
}
use muaddib.Map
use muaddib.Capability.Rights.{Rights, contains}
use muaddib.Capability.Rights
use muaddib.Capability.{Capability, CapError, Kernel, check}
use muaddib.Capability.Check.{check_cases}
use muaddib.Memory.{
  RegionRegistry, MemoryError, unknown_region, out_of_bounds, capability, read, write,
}

-- The answer to an access of `len` bytes: the checks in their order, and `inside` if all pass.
pub access {ℓ} :
    {A : Type ℓ}
    → RegionRegistry
    → Kernel
    → Capability
    → Rights
    → ℕ
    → ℕ
    → (List ℕ → A)
    → Result MemoryError A
access r k c required offset len inside = do
  map_err capability (check k c required)
  bytes ← ok_or (Map.get c.object r.regions) (unknown_region c.object)
  if ltb (offset + len) u64_mod && leb (offset + len) (length bytes)
      then ok (inside bytes)
      else err (out_of_bounds c.object offset len (length bytes))

-- For every state and every argument, `read` gives the bytes of the range, or the first of the
-- capability's error, an unknown region and a range out of bounds; it never panics.
pub read-access :
    (r : RegionRegistry) (k : Kernel) (c : Capability) (offset len : ℕ)
    → read r k c offset len
      ≡ access r k c Rights.read offset len (λ bytes. take len (drop offset bytes))
unfolding read access
read-access r k c offset len = elim (check_cases k c Rights.read) [
  | inl (_, _, granted) ↦ ground arith
  | inr (e, refused) ↦ rw refused
]

-- The bytes of a region after a write of `data'` at `offset`.
abbrev pub overwrite : ℕ → List ℕ → List ℕ → List ℕ
overwrite offset data' bytes = take offset bytes ++ (data' ++ drop (offset + length data') bytes)

-- So `write` either replaces the whole range or gives the first error, and never panics.
pub write-access :
    (r : RegionRegistry) (k : Kernel) (c : Capability) (offset : ℕ) (data' : List ℕ)
    → write r k c offset data'
      ≡ access r k c Rights.write offset (length data') (λ bytes. record {
        regions = Map.insert c.object (overwrite offset data' bytes) r.regions;
      })
unfolding write access
write-access r k c offset data' = elim (check_cases k c Rights.write) [
  | inl (_, _, granted) ↦ ground arith
  | inr (e, refused) ↦ rw refused
]

-- What a successful access had: authority, a region, and a range within it.
pub access-eq_ok {ℓ} :
    {A : Type ℓ} (r : RegionRegistry) (k : Kernel) (c : Capability) (required : Rights)
    (offset len : ℕ) (inside : List ℕ → A) (a : A)
    → access r k c required offset len inside ≡ ok a
    → (bytes : List ℕ) × (check k c required ≡ ok tt)
      × (Map.get c.object r.regions ≡ some bytes)
      × (offset + len ≤ length bytes)
      × (offset + len < u64_mod)
      × (a ≡ inside bytes)
unfolding access
access-eq_ok r k c required offset len inside a h = elim (check_cases k c required) [
  | inr (e, refused) ↦ absurd (ground arith)
  | inl (_, _, granted) ↦ elim (Option-cases (Map.get c.object r.regions)) [
    | inl missing ↦ absurd (ground arith)
    | inr (bytes, found) ↦ (bytes, granted, found, ground arith, ground arith, ground arith)
  ]
]

pub access_cases {ℓ} :
    {A : Type ℓ} (r : RegionRegistry) (k : Kernel) (c : Capability) (required : Rights)
    (offset len : ℕ) (inside : List ℕ → A)
    → ((a : A) × (access r k c required offset len inside ≡ ok a))
      ⊎ ((e : MemoryError) × (access r k c required offset len inside ≡ err e))
unfolding access
access_cases r k c required offset len inside = elim (check_cases k c required) [
  | inr (e, refused) ↦ inr (capability e, rw refused)
  | inl (_, _, granted) ↦ elim (Option-cases (Map.get c.object r.regions)) [
    | inl missing ↦ inr (unknown_region c.object, rw (granted, missing))
    | inr (bytes, found) ↦
        elim (Bool-cases (ltb (offset + len) u64_mod && leb (offset + len) (length bytes))) [
          | inl fits ↦ inl (inside bytes, rw (granted, found, fits))
          | inr outside ↦
              inr (out_of_bounds c.object offset len (length bytes), rw (granted, found, outside))
        ]
  ]
]

pub access_inside {ℓ} :
    {A : Type ℓ} (r : RegionRegistry) (k : Kernel) (c : Capability) (required offset len : ℕ)
    (inside : List ℕ → A) (bytes : List ℕ)
    → check k c required ≡ ok tt
    → Map.get c.object r.regions ≡ some bytes
    → offset + len ≤ length bytes
    → offset + len < u64_mod
    → access r k c required offset len inside ≡ ok (inside bytes)
unfolding access
access_inside r k c required offset len inside bytes granted found fits small = ground arith

pub access_refused {ℓ} :
    {A : Type ℓ} (r : RegionRegistry) (k : Kernel) (c : Capability) (required offset len : ℕ)
    (inside : List ℕ → A) (e : CapError)
    → check k c required ≡ err e
    → access r k c required offset len inside ≡ err (capability e)
unfolding access
access_refused r k c required offset len inside e h = rw h

pub access_local {ℓ} :
    {A : Type ℓ} (r : RegionRegistry) (k k' : Kernel) (c d : Capability) (required offset len : ℕ)
    (inside : List ℕ → A)
    → check k' d required ≡ check k c required
    → d.object ≡ c.object
    → access r k' d required offset len inside ≡ access r k c required offset len inside
unfolding access
access_local r k k' c d required offset len inside h o = rw (h, o)

-- A read that succeeds returns as many bytes as were asked for.
pub length-read :
    (r : RegionRegistry) (k : Kernel) (c : Capability) (offset len : ℕ) (bytes : List ℕ)
    → read r k c offset len ≡ ok bytes
    → length bytes ≡ len
length-read r k c offset len bytes h =
    let (all, _, _, fits, _, same) =
      access-eq_ok r k c Rights.read offset len (λ b. take len (drop offset b)) bytes
        (rw (read-access r k c offset len) at h) in
    rw same (length-take len (drop offset all) (omega (arith, length-drop offset all)))
