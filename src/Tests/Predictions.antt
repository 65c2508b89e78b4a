-- ===== src/Tests/Predictions.antt =====
-- A shadow of the supervisor's region and of its channel.
use muaddib.Prelude.{◌≡◌, refl, true, ok, ◌>>◌, [], ◌∷◌}
use muaddib.Capability.Rights
use muaddib.Memory.{checked_range}
use muaddib.Workload.Chaos.{CapModel, RegionModel, region, predict_access}
use muaddib.Workload.Chaos.Predictions.{Shadows, of_region, predict_access-checked_range}
use muaddib.Tests.Scene.{program, kernel, regions, view}

abbrev model : RegionModel
model = record { object = 0; alive = true; epoch = 0; bytes = 5 ∷ 6 ∷ 7 ∷ 8 ∷ [] }

abbrev view_model : CapModel
view_model = record { obj = region 0; rights = 1; epoch = 0 }

view_shadow : Shadows (model ∷ []) (1 ∷ []) kernel regions view_model view
unfolding program
view_shadow = of_region 0 model 1 0 refl refl refl

predict_access-checked_range_example :
    predict_access (model ∷ []) (1 ∷ []) view_model Rights.read 3 2
    ≡ (checked_range regions kernel view Rights.read 3 2 >> ok tt)
predict_access-checked_range_example =
    predict_access-checked_range (model ∷ []) (1 ∷ []) kernel regions view_model view Rights.read 3
      2 view_shadow
