-- ===== src/Tests/Regions.antt =====
-- Accesses to two regions.
use muaddib.Prelude.{
  ℕ, ◌+◌, ◌≡◌, refl, ok, err, none, some, List, [], ◌∷◌, length, get_elem?, take, drop,
}
use muaddib.Map
use muaddib.Capability.Rights
use muaddib.Capability.{Kernel, check, revoked, unknown_object}
use muaddib.Memory.{RegionRegistry, read, write, reclaim, region_count, capability}
use muaddib.Memory.Bounds.{access, read-access, write-access, overwrite}
use muaddib.Memory.Access.{write_effect, read-write, reissue_moves_access}
use muaddib.Memory.Lifetime.{destroy_region_effect, reclaim_effect, IsBacked}
use muaddib.Tests.Scene.{program, kernel, kernel_moved, owner, owner_moved, view, regions}

abbrev regions_written : RegionRegistry
regions_written = record { regions = (0, 5 ∷ 1 ∷ 2 ∷ 8 ∷ []) ∷ (9, 1 ∷ []) ∷ [] }

abbrev regions_destroyed : RegionRegistry
regions_destroyed = record { regions = (9, 1 ∷ []) ∷ [] }

abbrev kernel_destroyed : Kernel
kernel_destroyed = record { next_id = 2; epochs = (1, 0) ∷ [] }

read-access_example :
    read regions kernel view 3 4
    ≡ access regions kernel view Rights.read 3 4 (λ bytes. take 4 (drop 3 bytes))
read-access_example = read-access regions kernel view 3 4

write-access_example :
    write regions kernel owner 1 (1 ∷ 2 ∷ [])
    ≡ access regions kernel owner Rights.write 1 2 (λ bytes. record {
      regions = Map.insert 0 (overwrite 1 (1 ∷ 2 ∷ []) bytes) regions.regions;
    })
write-access_example = write-access regions kernel owner 1 (1 ∷ 2 ∷ [])

write_effect_example :
    (bytes bytes' : List ℕ) × (Map.get 0 regions.regions ≡ some bytes)
    × (length bytes' ≡ length bytes)
    × (get_elem? bytes' 2 ≡ some 2)
    × (Map.get 9 regions_written.regions ≡ some (1 ∷ []))
unfolding program
write_effect_example = write_effect regions regions_written kernel owner 1 (1 ∷ 2 ∷ []) 2 9 refl

read-write_example : read regions_written kernel view 1 2 ≡ ok (1 ∷ 2 ∷ [])
unfolding program
read-write_example =
    read-write regions regions_written kernel owner view 1 (1 ∷ 2 ∷ []) refl refl refl

reissue_moves_access_example :
    (read regions kernel_moved owner_moved 1 2 ≡ read regions kernel owner 1 2)
    × (read regions kernel_moved view 1 2 ≡ err (capability (revoked 0)))
    × (write regions kernel_moved view 1 (3 ∷ []) ≡ err (capability (revoked 0)))
unfolding program
reissue_moves_access_example =
    reissue_moves_access regions kernel kernel_moved owner owner_moved view 1 2 (3 ∷ []) refl refl
      refl

destroy_region_effect_example :
    (check kernel owner Rights.destroy ≡ ok tt)
    × (check kernel_destroyed view Rights.read ≡ err (unknown_object 0))
    × (Map.get 9 regions_destroyed.regions ≡ some (1 ∷ []))
    × (Map.get 9 kernel_destroyed.epochs ≡ none)
unfolding program
destroy_region_effect_example =
    destroy_region_effect regions regions_destroyed kernel kernel_destroyed owner view Rights.read 9
      refl refl

reclaim_effect_example :
    (Map.get 9 (reclaim regions kernel).0.regions ≡ none)
    × IsBacked (reclaim regions kernel).0 kernel
    × ((reclaim regions kernel).1 ≡ 1)
    × (region_count (reclaim regions kernel).0 + (reclaim regions kernel).1 ≡ 2)
unfolding program
reclaim_effect_example = reclaim_effect regions kernel 9
