-- ===== src/Memory/Lifetime.antt =====
-- crates/memory/src/lib.rs: regions beside the kernel's objects, `destroy_region` and `reclaim`.
use muaddib.Prelude.{
  ◌==◌, ℕ, ◌+◌, ◌≡◌, inl, inr, Bool, true, not, none, ok, err, if◌then◌else◌, arith, [], ◌∷◌,
}
use muaddib.Map.{Map}
use muaddib.Map
use muaddib.Map.Laws.{get-retain, get-remove_self, get-remove}
use muaddib.Capability.Rights
use muaddib.Capability.{Capability, Kernel, check, destroy_object, object_exists, unknown_object}
use muaddib.Capability.Rights.{Rights}
use muaddib.Capability.Check.{check_cases, check_gone}
use muaddib.Memory.{RegionRegistry, destroy_region, reclaim, region_count}

-- A region that is destroyed was live and its capability held DESTROY; afterwards every capability
-- for it is refused as unknown, its bytes are gone, and all other objects and regions stay.
pub destroy_region_effect :
    (r r' : RegionRegistry) (k k' : Kernel) (c d : Capability) (required : Rights) (o : ℕ)
    → destroy_region r k c ≡ ok (r', k')
    → d.object ≡ c.object
    → (check k c Rights.destroy ≡ ok tt)
      × (check k' d required ≡ err (unknown_object d.object))
      × (Map.get o r'.regions ≡ (if o == c.object then none else Map.get o r.regions))
      × (Map.get o k'.epochs ≡ (if o == c.object then none else Map.get o k.epochs))
unfolding destroy_region destroy_object
destroy_region_effect r r' k k' c d required o h same = elim (check_cases k c Rights.destroy) [
  | inr (e, refused) ↦ absurd (ground arith)
  | inl (_, _, granted) ↦ (
    granted,
    check_gone k' d required (ground (arith, get-remove_self c.object k.epochs)),
    ground (arith, get-remove o c.object r.regions),
    ground (arith, get-remove o c.object k.epochs),
  )
]

-- Every region is that of an object that exists.
abbrev pub IsBacked : RegionRegistry → Kernel → Type 0
IsBacked r k = (o : ℕ) → Map.contains_key o r.regions ≡ true → object_exists k o ≡ true

retain-count :
    {V : Type 0} (p : ℕ → Bool) (m : Map V)
    → Map.len m ≡ Map.len (Map.retain p m) + Map.len (Map.retain (λ o. not (p o)) m)
unfolding Map.len Map.retain
retain-count p [] = omega arith
retain-count p ((j, v) ∷ m) = ground (arith, retain-count p m)

-- `reclaim` keeps the bytes of every region whose object exists and drops all others, and it
-- returns how many entries it dropped.
pub reclaim_effect :
    (r : RegionRegistry) (k : Kernel) (o : ℕ)
    → (Map.get o (reclaim r k).0.regions
        ≡ (if object_exists k o then Map.get o r.regions else none))
      × IsBacked (reclaim r k).0 k
      × ((reclaim r k).1 ≡ Map.len (Map.retain (λ j. not (object_exists k j)) r.regions))
      × (region_count (reclaim r k).0 + (reclaim r k).1 ≡ region_count r)
unfolding reclaim region_count Map.contains_key
reclaim_effect r k o = (
  get-retain o (object_exists k) r.regions,
  (λ j h. ground (arith, get-retain j (object_exists k) r.regions)),
  omega (arith, retain-count (object_exists k) r.regions),
  omega (arith, retain-count (object_exists k) r.regions),
)
