-- ===== src/Memory.antt =====
-- crates/memory/src/lib.rs: regions of bytes named by capability. A byte is a number below 256.
pub mod Bounds
pub mod Access
pub mod Lifetime
use muaddib.Prelude.{
  ℕ, ◌+◌, ◌-◌, Bool, true, false, Option, none, some, List, [], ◌∷◌, ◌++◌, Result, ok, err, panic,
  ◌>>=◌, ◌>>◌, guard, ok_or, expect, map_err, length, take, drop, replicate, ltb, leb, ◌==◌, ◌&&◌,
  if◌then◌else◌, u64_mod,
}
use muaddib.Map.{Map}
use muaddib.Map
use muaddib.Capability.Rights.{Rights, ◌∪◌}
use muaddib.Capability.Rights
use muaddib.Capability.{Capability, CapError, Kernel}
use muaddib.Capability

pub data MemoryError : Type 0 where
  unknown_region : (object : ℕ) → MemoryError
  out_of_bounds : (object offset len size : ℕ) → MemoryError
  capability : CapError → MemoryError

pub record RegionRegistry : Type 0 where
  pub regions : Map (List ℕ)

abbrev pub new : RegionRegistry
new = record { regions = Map.empty }

unfoldable pub new_region : RegionRegistry → Kernel → ℕ → RegionRegistry × Kernel × Capability
unfolding ◌∪◌ Capability.new_object
new_region r k size =
    let (k', c) =
      Capability.new_object k (Rights.read ∪ Rights.write ∪ Rights.grant ∪ Rights.destroy) in
    (record { regions = Map.insert c.object (replicate size 0) r.regions }, k', c)

-- `offset.checked_add(len)` on `usize`.
unfoldable pub checked_add : ℕ → ℕ → Option ℕ
checked_add a b = if ltb (a + b) u64_mod then some (a + b) else none

abbrev within : ℕ → ℕ → ℕ → ℕ → Option ℕ → Result MemoryError (ℕ × ℕ)
within object offset len size none = err (out_of_bounds object offset len size)
within object offset len size (some end) =
    if leb end size then ok (offset, end) else err (out_of_bounds object offset len size)

unfoldable pub checked_range :
    RegionRegistry → Kernel → Capability → Rights → ℕ → ℕ → Result MemoryError (ℕ × ℕ)
unfolding checked_add
checked_range r k c required offset len = do
  map_err capability (Capability.check k c required)
  bytes ← ok_or (Map.get c.object r.regions) (unknown_region c.object)
  within c.object offset len (length bytes) (checked_add offset len)

-- `bytes[start..end]`, and `bytes[start..end].copy_from_slice(data)`; `none` is a panic.
unfoldable pub slice : List ℕ → ℕ → ℕ → Option (List ℕ)
slice bytes start end =
    if leb start end && leb end (length bytes)
    then some (take (end - start) (drop start bytes))
    else none

unfoldable pub copy_from_slice : List ℕ → ℕ → ℕ → List ℕ → Option (List ℕ)
copy_from_slice bytes start end data' =
    if leb start end && leb end (length bytes) && (length data' == end - start)
    then some (take start bytes ++ (data' ++ drop end bytes))
    else none

unfoldable pub read : RegionRegistry → Kernel → Capability → ℕ → ℕ → Result MemoryError (List ℕ)
unfolding checked_range slice
read r k c offset len = do
  (start, end) ← checked_range r k c Rights.read offset len
  bytes ← expect (Map.get c.object r.regions)
  expect (slice bytes start end)

unfoldable pub write :
    RegionRegistry → Kernel → Capability → ℕ → List ℕ → Result MemoryError RegionRegistry
unfolding checked_range copy_from_slice
write r k c offset data' = do
  (start, end) ← checked_range r k c Rights.write offset (length data')
  bytes ← expect (Map.get c.object r.regions)
  bytes' ← expect (copy_from_slice bytes start end data')
  ok (record { regions = Map.insert c.object bytes' r.regions })

unfoldable pub inspect {ℓ} :
    {R : Type ℓ} → RegionRegistry → Kernel → Capability → (List ℕ → R) → Result MemoryError R
inspect r k c f = do
  map_err capability (Capability.check k c Rights.read)
  bytes ← ok_or (Map.get c.object r.regions) (unknown_region c.object)
  ok (f bytes)

-- `f` returns the bytes that it leaves in the slice beside its result.
unfoldable pub update {ℓ} :
    {R : Type ℓ}
    → RegionRegistry
    → Kernel
    → Capability
    → (List ℕ → List ℕ × R)
    → Result MemoryError (RegionRegistry × R)
unfolding ◌∪◌
update r k c f = do
  map_err capability (Capability.check k c (Rights.read ∪ Rights.write))
  bytes ← ok_or (Map.get c.object r.regions) (unknown_region c.object)
  let (bytes', result) = f bytes
  ok (record { regions = Map.insert c.object bytes' r.regions }, result)

unfoldable pub size : RegionRegistry → Kernel → Capability → Result MemoryError ℕ
unfolding checked_range
size r k c = do
  checked_range r k c Rights.none 0 0
  bytes ← expect (Map.get c.object r.regions)
  ok (length bytes)

unfoldable pub destroy_region :
    RegionRegistry → Kernel → Capability → Result MemoryError (RegionRegistry × Kernel)
destroy_region r k c = do
  map_err capability (Capability.check k c Rights.destroy)
  guard (Map.contains_key c.object r.regions) (unknown_region c.object)
  k' ← map_err capability (Capability.destroy_object k c)
  ok (record { regions = Map.remove c.object r.regions }, k')

unfoldable pub reclaim : RegionRegistry → Kernel → RegionRegistry × ℕ
reclaim r k =
    let kept = Map.retain (Capability.object_exists k) r.regions in
    (record { regions = kept }, Map.len r.regions - Map.len kept)

unfoldable pub region_count : RegionRegistry → ℕ
region_count r = Map.len r.regions
