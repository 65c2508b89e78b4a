-- ===== src/Workload/Chaos/Batches.antt =====
-- crates/workload/src/chaos.rs: the harness's model of `resolve_grants` and `apply_grants`, written
-- from its own tables. The error of a `Result` here is the `None` that rejects a batch.
use muaddib.Prelude.{
  ℕ, suc, ◌%◌, Bool, true, false, not, ◌&&◌, List, [], ◌∷◌, Result, ok, panic, ◌>>=◌, ◌>>◌, guard,
  expect, map_err, any, filter, get_elem?, length, ◌==◌, next_u64,
}
use muaddib.Map.{Map}
use muaddib.Map
use muaddib.Capability.Rights.{Rights, contains}
use muaddib.Capability.Rights
use muaddib.Process.Transfer.{Grant}
use muaddib.Workload.Chaos.{Obj, region, channel, CapModel, RegionModel, predict_check}
use muaddib.Workload.Chaos.Failures.{Failure}
use muaddib.Workload.Chaos.Ops.{GrantKind}
use muaddib.Workload.Chaos.World.{World, modify, is_region, is_channel}

abbrev pub nth_handle : List ℕ → List (ℕ × GrantKind) → Result Failure (List (ℕ × GrantKind))
nth_handle handles [] = ok []
nth_handle handles ((n, kind) ∷ grants) = do
  h ← expect (get_elem? handles (n % length handles))
  rest ← nth_handle handles grants
  ok ((h, kind) ∷ rest)

abbrev pub choose : List ℕ → List (ℕ × GrantKind) → Result Failure (List (ℕ × GrantKind))
choose [] grants = ok []
choose (h ∷ hs) grants = nth_handle (h ∷ hs) grants

-- The pairs of a handle's place and a kind, with the handles of the process's regions.
unfoldable pub concrete_grants :
    World → ℕ → List (ℕ × GrantKind) → Result Failure (List (ℕ × GrantKind))
concrete_grants w p grants = do
  mirror ← expect (get_elem? w.procs p)
  choose (Map.keys (filter (λ e. is_region e.1.obj) mirror.table)) grants

abbrev pub same_obj : Obj → Obj → Bool
same_obj (region r) o = elim o [ region s ↦ r == s | channel c ↦ false ]
same_obj (channel c) o = is_channel c o

-- `seen.contains` and `seen.push`, for a grant that takes the handle out of the table.
unfoldable pub note_seen : List ℕ → ℕ → GrantKind → Result (Unit {0}) (List ℕ)
note_seen seen h (GrantKind.derive rights) = ok seen
note_seen seen h GrantKind.transfer = guard (not (any (λ j. h == j) seen)) tt >> ok (h ∷ seen)
note_seen seen h GrantKind.move = guard (not (any (λ j. h == j) seen)) tt >> ok (h ∷ seen)

module _ (regions : List RegionModel) (channel_objects : List ℕ) where
  unfoldable pub model_one : CapModel → GrantKind → Result (Unit {0}) CapModel
  unfolding predict_check contains
  model_one held GrantKind.transfer = ok held
  model_one held (GrantKind.derive rights) = do
    map_err (λ e. tt) (predict_check regions channel_objects held Rights.grant)
    guard (contains held.rights rights) tt
    ok (record held { rights = rights })
  model_one held GrantKind.move = do
    map_err (λ e. tt) (predict_check regions channel_objects held Rights.destroy)
    ok held

  -- The first loop.
  unfoldable pub model_each :
      Map CapModel → List ℕ → List (ℕ × GrantKind) → Result (Unit {0}) (List CapModel)
  unfolding note_seen model_one Map.get
  model_each table seen [] = ok []
  model_each table seen ((h, kind) ∷ grants) = do
    held ← expect (Map.get h table)
    seen' ← note_seen seen h kind
    m ← model_one held kind
    rest ← model_each table seen' grants
    ok (m ∷ rest)

-- Some entry from position `j` on, other than the one at `i`, models the object.
unfoldable pub model_conflicts : ℕ → Obj → ℕ → List CapModel → Bool
model_conflicts i obj j [] = false
model_conflicts i obj j (m ∷ ms) = elim (not (j == i) && same_obj m.obj obj) [
  | true ↦ true
  | false ↦ model_conflicts i obj (suc j) ms
]

-- The second loop, from position `i` on.
unfoldable pub model_moves : List CapModel → ℕ → List (ℕ × GrantKind) → Result (Unit {0}) (Unit {0})
unfolding model_conflicts
model_moves resolved i [] = ok tt
model_moves resolved i ((h, GrantKind.transfer) ∷ grants) = model_moves resolved (suc i) grants
model_moves resolved i ((h, GrantKind.derive rights) ∷ grants) = model_moves resolved (suc i) grants
model_moves resolved i ((h, GrantKind.move) ∷ grants) = do
  m ← expect (get_elem? resolved i)
  guard (not (model_conflicts i m.obj 0 resolved)) tt
  model_moves resolved (suc i) grants

-- A bump of the region that is moved, and the model of the capability that arrives.
unfoldable pub model_bump :
    List RegionModel → CapModel → Obj → Result (Unit {0}) (List RegionModel × CapModel)
unfolding modify
model_bump regions m (channel c) = panic
model_bump regions m (region r) = do
  regions' ← modify (λ model. record model { epoch = next_u64 model.epoch }) r regions
  model ← expect (get_elem? regions' r)
  ok (regions', record m { epoch = model.epoch })

-- The third loop, over the grants and the models that they resolved to, one for each.
unfoldable pub model_apply :
    Map CapModel
    → List RegionModel
    → List (ℕ × GrantKind)
    → List CapModel
    → Result (Unit {0}) (Map CapModel × List RegionModel × List CapModel)
unfolding model_bump Map.remove
model_apply table regions [] resolved = ok (table, regions, resolved)
model_apply table regions (g ∷ grants) [] = panic
model_apply table regions ((h, GrantKind.transfer) ∷ grants) (m ∷ ms) = do
  (table', regions', ms') ← model_apply (Map.remove h table) regions grants ms
  ok (table', regions', m ∷ ms')
model_apply table regions ((h, GrantKind.derive rights) ∷ grants) (m ∷ ms) = do
  (table', regions', ms') ← model_apply table regions grants ms
  ok (table', regions', m ∷ ms')
model_apply table regions ((h, GrantKind.move) ∷ grants) (m ∷ ms) = do
  (regions₁, m') ← model_bump regions m m.obj
  (table', regions', ms') ← model_apply (Map.remove h table) regions₁ grants ms
  ok (table', regions', m' ∷ ms')

-- The three loops on a table and the regions.
unfoldable pub model_batch :
    List RegionModel
    → List ℕ
    → Map CapModel
    → List (ℕ × GrantKind)
    → Result (Unit {0}) (Map CapModel × List RegionModel × List CapModel)
unfolding model_each model_moves model_apply
model_batch regions channel_objects table grants = do
  resolved ← model_each regions channel_objects table [] grants
  model_moves resolved 0 grants
  model_apply table regions grants resolved

unfoldable pub apply_grants_model :
    World → ℕ → List (ℕ × GrantKind) → Result (Unit {0}) (World × List CapModel)
unfolding model_batch modify
apply_grants_model w p grants = do
  mirror ← expect (get_elem? w.procs p)
  (table, regions, delivered) ← model_batch w.regions w.channel_objects mirror.table grants
  procs ← modify (λ mirror. record mirror { table = table }) p w.procs
  ok (record w { procs = procs; regions = regions }, delivered)

unfoldable pub to_grants : List (ℕ × GrantKind) → List Grant
to_grants [] = []
to_grants ((h, GrantKind.transfer) ∷ grants) = Grant.transfer h ∷ to_grants grants
to_grants ((h, GrantKind.derive rights) ∷ grants) = Grant.derive h rights ∷ to_grants grants
to_grants ((h, GrantKind.move) ∷ grants) = Grant.move h ∷ to_grants grants
