-- ===== src/Process/Transfer.antt =====
-- crates/process/src/transfer.rs: how a batch of capabilities leaves a process's table.
pub mod Resolved
pub mod Applied
pub mod Delivery
use muaddib.Prelude.{
  ℕ, suc, Bool, true, false, not, ◌&&◌, Option, none, some, List, [], ◌∷◌, Result, ok, err, panic,
  ◌>>=◌, ◌>>◌, guard, ok_or, expect, expect_ok, map_err, any, get_elem?, ◌==◌,
}
use muaddib.Capability.Rights.{Rights}
use muaddib.Capability.Rights
use muaddib.Capability.{Capability, Kernel, CapError}
use muaddib.Capability
use muaddib.Process.{Process}
use muaddib.Process

pub data Grant : Type 0 where
  transfer : (handle : ℕ) → Grant
  derive : (handle : ℕ) → Rights → Grant
  move : (handle : ℕ) → Grant

pub data GrantError : Type 0 where
  unknown_handle : GrantError
  duplicate_transfer : (handle : ℕ) → GrantError
  move_conflict : (object : ℕ) → GrantError
  capability : CapError → GrantError

-- Notes the handle that a grant takes out of the table, and refuses to take it out twice.
unfoldable pub note_transfer : List ℕ → Grant → Result GrantError (List ℕ)
note_transfer transferred (transfer h) =
    guard (not (any (λ j. h == j) transferred)) (duplicate_transfer h) >> ok (h ∷ transferred)
note_transfer transferred (derive h rights) = ok transferred
note_transfer transferred (move h) =
    guard (not (any (λ j. h == j) transferred)) (duplicate_transfer h) >> ok (h ∷ transferred)

unfoldable pub resolve_one : Kernel → Process → Grant → Result GrantError Capability
unfolding Process.capability
resolve_one k source (transfer h) = ok_or (Process.capability source h) unknown_handle
resolve_one k source (derive h rights) = do
  held ← ok_or (Process.capability source h) unknown_handle
  map_err capability (Capability.derive k held rights)
resolve_one k source (move h) = do
  held ← ok_or (Process.capability source h) unknown_handle
  map_err capability (Capability.check k held Rights.destroy)
  ok held

-- The first loop of `resolve_grants`.
unfoldable pub resolve_each :
    Kernel → Process → List ℕ → List Grant → Result GrantError (List Capability)
unfolding note_transfer resolve_one
resolve_each k source transferred [] = ok []
resolve_each k source transferred (g ∷ gs) = do
  transferred' ← note_transfer transferred g
  c ← resolve_one k source g
  rest ← resolve_each k source transferred' gs
  ok (c ∷ rest)

-- Some entry from position `j` on, other than the one at `i`, names the object.
unfoldable pub conflicts : ℕ → ℕ → ℕ → List Capability → Bool
conflicts i object j [] = false
conflicts i object j (c ∷ cs) = elim (not (j == i) && (c.object == object)) [
  | true ↦ true
  | false ↦ conflicts i object (suc j) cs
]

-- The second loop of `resolve_grants`, from position `i` on.
unfoldable pub check_moves : List Capability → ℕ → List Grant → Result GrantError (Unit {0})
unfolding conflicts
check_moves resolved i [] = ok tt
check_moves resolved i (transfer h ∷ gs) = check_moves resolved (suc i) gs
check_moves resolved i (derive h rights ∷ gs) = check_moves resolved (suc i) gs
check_moves resolved i (move h ∷ gs) = do
  c ← expect (get_elem? resolved i)
  guard (not (conflicts i c.object 0 resolved)) (move_conflict c.object)
  check_moves resolved (suc i) gs

unfoldable pub resolve_grants : Kernel → Process → List Grant → Result GrantError (List Capability)
unfolding resolve_each check_moves
resolve_grants k source grants = do
  resolved ← resolve_each k source [] grants
  check_moves resolved 0 grants
  ok resolved

unfoldable pub apply_one :
    Kernel → Process → Grant → Capability → Result GrantError (Kernel × Process × Capability)
unfolding Process.take
apply_one k source (transfer h) c = ok (k, (Process.take source h).0, c)
apply_one k source (derive h rights) c = ok (k, source, c)
apply_one k source (move h) c = do
  (k', fresh) ← expect_ok (Capability.reissue k c)
  ok (k', (Process.take source h).0, fresh)

-- The loop over the grants zipped with the resolved capabilities.
unfoldable pub apply_grants :
    Kernel
    → Process
    → List Grant
    → List Capability
    → Result GrantError (Kernel × Process × List Capability)
unfolding apply_one
apply_grants k source [] resolved = ok (k, source, resolved)
apply_grants k source (g ∷ gs) [] = ok (k, source, [])
apply_grants k source (g ∷ gs) (c ∷ cs) = do
  (k', source', c') ← apply_one k source g c
  (k'', source'', cs') ← apply_grants k' source' gs cs
  ok (k'', source'', c' ∷ cs')
