-- ===== src/Process/Table.antt =====
-- crates/process/src/process.rs: fresh handles, and a batch of grants.
use muaddib.Prelude.{
  ℕ, zero, suc, ◌+◌, ◌-◌, ◌≤◌, ◌<◌, ◌≡◌, refl, none, some, List, [], ◌∷◌, length, get_elem?, ltb,
  ◌==◌, if◌then◌else◌, arith, u32_mod, Bool-cases, inl, inr,
}
use muaddib.Map.{Map}
use muaddib.Map
use muaddib.Map.Laws.{get-insert, get-remove}
use muaddib.Map.Size.{RisesFrom, insert-RisesFrom, remove-RisesFrom, len-insert}
use muaddib.Capability.{Capability}
use muaddib.Process.{Process, new, grant, grant_all, capability, take, handle_count}

-- The keys of the table rise, and every handle at or above `next_handle` is free.
pub record IsValid (p : Process) : Type 0 where
  pub rises : RisesFrom 0 p.capabilities
  pub free : (h : ℕ) → p.next_handle ≤ h → Map.get h p.capabilities ≡ none

pub new-IsValid : (id : ℕ) → IsValid (new id)
unfolding Map.get
new-IsValid id = record { rises = tt; free = λ h le. refl }

-- The handle that a grant gives is fresh: it was empty, it now holds the capability, every other
-- handle is as before, and the table has one entry more.
pub grant_fresh :
    (p : Process) (c : Capability) (h : ℕ)
    → IsValid p
    → p.next_handle + 1 < u32_mod
    → let (p', handle) = grant p c in
      (capability p handle ≡ none)
      × (capability p' h ≡ (if h == handle then some c else capability p h))
      × (handle_count p' ≡ handle_count p + 1)
      × IsValid p'
unfolding grant capability handle_count
grant_fresh p c h v room = (
  v.free p.next_handle (omega arith),
  get-insert h p.next_handle c p.capabilities,
  ground (arith, len-insert 0 p.next_handle c p.capabilities v.rises, v.free p.next_handle),
  record {
    rises = insert-RisesFrom 0 p.next_handle c p.capabilities (omega arith) v.rises;
    free = λ j le. ground (arith, get-insert j p.next_handle c p.capabilities, v.free j);
  },
)

pub take-IsValid : (p : Process) (h : ℕ) → IsValid p → IsValid (take p h).0
unfolding take
take-IsValid p h v = record {
  rises = remove-RisesFrom 0 h p.capabilities v.rises;
  free = λ j le. ground (arith, get-remove j h p.capabilities, v.free j);
}

get_elem?-shift :
    (c : Capability) (cs : List Capability) (n h : ℕ)
    → n ≤ h
    → get_elem? (c ∷ cs) (h - n) ≡ (if h == n then some c else get_elem? cs (h - (n + 1)))
get_elem?-shift c cs n h le = elim (Bool-cases (h == n)) [
  | inl same ↦ let e : h - n ≡ 0 = ground arith in rw (same, e) refl
  | inr other ↦ let e : h - n ≡ suc (h - (n + 1)) = ground arith in rw (other, e) refl
]

grant_all_table :
    (p : Process) (cs : List Capability) (h : ℕ)
    → IsValid p
    → p.next_handle + length cs < u32_mod
    → capability (grant_all p cs).0 h
      ≡ (if ltb h p.next_handle then capability p h else get_elem? cs (h - p.next_handle))
unfolding grant_all capability grant
grant_all_table p [] h v room = ground (arith, v.free h)
grant_all_table p (c ∷ cs) h v room =
    let (_, at, _, v') = grant_fresh p c h v (omega arith) in
    ground (
      arith,
      at,
      grant_all_table (grant p c).0 cs h v' (omega arith),
      get_elem?-shift c cs p.next_handle h,
    )

grant_all_handles :
    (p : Process) (cs : List Capability) (i : ℕ)
    → p.next_handle + length cs < u32_mod
    → get_elem? (grant_all p cs).1 i
      ≡ (if ltb i (length cs) then some (p.next_handle + i) else none)
unfolding grant_all grant
grant_all_handles p [] i room = ground arith
grant_all_handles p (c ∷ cs) zero room = ground arith
grant_all_handles p (c ∷ cs) (suc i) room =
    ground (arith, grant_all_handles (grant p c).0 cs i (omega arith))

grant_all-IsValid :
    (p : Process) (cs : List Capability)
    → IsValid p
    → p.next_handle + length cs < u32_mod
    → IsValid (grant_all p cs).0
unfolding grant_all grant
grant_all-IsValid p [] v room = v
grant_all-IsValid p (c ∷ cs) v room =
    let (_, _, _, v') = grant_fresh p c 0 v (omega arith) in
    grant_all-IsValid (grant p c).0 cs v' (omega arith)

-- Granting a list of capabilities puts the i-th one under the i-th handle after `next_handle`
-- and leaves the handles below as they were; nothing else enters the table.
pub grant_all_exact :
    (p : Process) (cs : List Capability) (h i : ℕ)
    → IsValid p
    → p.next_handle + length cs < u32_mod
    → let (p', handles) = grant_all p cs in
      (capability p' h
        ≡ (if ltb h p.next_handle then capability p h else get_elem? cs (h - p.next_handle)))
      × (get_elem? handles i ≡ (if ltb i (length cs) then some (p.next_handle + i) else none))
      × IsValid p'
grant_all_exact p cs h i v room =
    (grant_all_table p cs h v room, grant_all_handles p cs i room, grant_all-IsValid p cs v room)

-- Grants are no events.
pub grant_all-clock : (p : Process) (cs : List Capability) → (grant_all p cs).0.clock ≡ p.clock
unfolding grant_all grant
grant_all-clock p [] = refl
grant_all-clock p (c ∷ cs) = grant_all-clock (grant p c).0 cs
