-- ===== src/Workload/Chaos/Ops.antt =====
-- crates/workload/src/chaos.rs: the operations that the harness tries, and how it draws them.
use muaddib.Prelude.{
  ℕ, zero, suc, ◌+◌, ◌%◌, ◌^◌, Bool, not, List, [], ◌∷◌, Result, ok, ◌>>=◌, expect_ok, ltb,
  if◌then◌else◌,
}
use muaddib.Capability.Rights.{Rights, ◌∪◌}
use muaddib.Capability.Rights
use muaddib.Workload.Rng.{SplitMix64, below, percent, next_u64}
use muaddib.Workload.Chaos.Failures.{Failure}

abbrev pub max_processes : ℕ
max_processes = 8

abbrev pub channels : ℕ
channels = 3

abbrev pub max_region_size : ℕ
max_region_size = 32

pub data GrantKind : Type 0 where
  transfer move : GrantKind
  derive : Rights → GrantKind

-- Which capability an access uses: one of the process's table, or one ever seen.
pub data Pick : Type 0 where
  table stash : ℕ → Pick

pub data Op : Type 0 where
  new_region : (p size : ℕ) → Op
  spawn : (parent : ℕ) → (grants : List (ℕ × GrantKind)) → Op
  send : (p channel : ℕ) → (grants : List (ℕ × GrantKind)) → Op
  receive : (p channel : ℕ) → Op
  read : (p : ℕ) → Pick → (regions_only : Bool) → (offset len : ℕ) → Op
  write : (p : ℕ) → Pick → (regions_only : Bool) → (offset len byte : ℕ) → Op
  revoke destroy : (p : ℕ) → Pick → Op
  local_event : (p : ℕ) → Op

-- The names of the operations, numbered in the order in which the summary's map sorts them.
abbrev pub destroy_name : ℕ
destroy_name = 0

abbrev pub local_name : ℕ
local_name = 1

abbrev pub new_region_name : ℕ
new_region_name = 2

abbrev pub read_name : ℕ
read_name = 3

abbrev pub receive_name : ℕ
receive_name = 4

abbrev pub revoke_name : ℕ
revoke_name = 5

abbrev pub send_name : ℕ
send_name = 6

abbrev pub spawn_name : ℕ
spawn_name = 7

abbrev pub write_name : ℕ
write_name = 8

abbrev pub name : Op → ℕ
name (new_region p size) = new_region_name
name (spawn parent grants) = spawn_name
name (send p channel grants) = send_name
name (receive p channel) = receive_name
name (read p pick regions_only offset len) = read_name
name (write p pick regions_only offset len byte) = write_name
name (revoke p pick) = revoke_name
name (destroy p pick) = destroy_name
name (local_event p) = local_name

-- `rng.below(n)`, which panics at 0.
abbrev draw : SplitMix64 → ℕ → Result Failure (SplitMix64 × ℕ)
draw rng n = expect_ok (below rng n)

-- The filter and the fold over the five rights, which draws for each in turn.
unfoldable pub pick_rights : SplitMix64 → Rights → List Rights → SplitMix64 × Rights
unfolding percent ◌∪◌
pick_rights rng acc [] = (rng, acc)
pick_rights rng acc (r ∷ rs) =
    let (rng', chosen) = percent rng 50 in pick_rights rng' (if chosen then acc ∪ r else acc) rs

unfoldable pub arb_rights : SplitMix64 → SplitMix64 × Rights
unfolding pick_rights
arb_rights rng =
    pick_rights rng Rights.none
      (Rights.read ∷ Rights.write ∷ Rights.execute ∷ Rights.grant ∷ Rights.destroy ∷ [])

-- The closures of `generate`.
unfoldable pub draw_pick : SplitMix64 → Result Failure (SplitMix64 × Pick)
unfolding percent below
draw_pick rng = do
  let (rng₁, stale) = percent rng 30
  (rng₂, n) ← draw rng₁ (2 ^ 16)
  ok (rng₂, if stale then stash n else table n)

unfoldable pub draw_span : SplitMix64 → Result Failure (SplitMix64 × ℕ × ℕ)
unfolding percent below
draw_span rng = do
  let (rng₁, small) = percent rng 75
  (rng₂, offset) ← draw rng₁ (if small then 4 else max_region_size + 8)
  (rng₃, len) ← draw rng₂ (if small then 5 else 10)
  ok (rng₃, offset, len)

unfoldable pub draw_kind : SplitMix64 → Result Failure (SplitMix64 × GrantKind)
unfolding below arb_rights
draw_kind rng = do
  (rng₁, n) ← draw rng 3
  elim n [
    | zero ↦ ok (rng₁, transfer)
    | suc m ↦ elim m [
      | zero ↦ let (rng₂, rights) = arb_rights rng₁ in ok (rng₂, derive rights)
      | suc more ↦ ok (rng₁, move)
    ]
  ]

unfoldable pub draw_grants_of : ℕ → SplitMix64 → Result Failure (SplitMix64 × List (ℕ × GrantKind))
unfolding draw_kind below
draw_grants_of zero rng = ok (rng, [])
draw_grants_of (suc n) rng = do
  (rng₁, kind) ← draw_kind rng
  (rng₂, i) ← draw rng₁ (2 ^ 16)
  (rng₃, rest) ← draw_grants_of n rng₂
  ok (rng₃, (i, kind) ∷ rest)

unfoldable pub draw_grants : SplitMix64 → Result Failure (SplitMix64 × List (ℕ × GrantKind))
unfolding draw_grants_of below
draw_grants rng = do (rng₁, n) ← draw rng 4; draw_grants_of n rng₁

unfoldable pub draw_read : SplitMix64 → ℕ → Result Failure (SplitMix64 × Op)
unfolding draw_span draw_pick percent
draw_read rng p = do
  (rng₁, offset, len) ← draw_span rng
  (rng₂, pick) ← draw_pick rng₁
  let (rng₃, wild) = percent rng₂ 15
  ok (rng₃, read p pick (not wild) offset len)

unfoldable pub draw_write : SplitMix64 → ℕ → Result Failure (SplitMix64 × Op)
unfolding draw_span draw_pick percent next_u64
draw_write rng p = do
  (rng₁, offset, len) ← draw_span rng
  (rng₂, pick) ← draw_pick rng₁
  let (rng₃, wild) = percent rng₂ 15
  let (rng₄, word) = next_u64 rng₃
  ok (rng₄, write p pick (not wild) offset len (word % 256))

-- The arms of `generate` by the number drawn below 100.
unfoldable pub draw_op : SplitMix64 → ℕ → ℕ → Result Failure (SplitMix64 × Op)
unfolding draw_grants draw_read draw_write draw_pick below
draw_op rng p d =
    if ltb d 6
    then (draw rng max_region_size >>= λ drawn. ok (drawn.0, new_region p (1 + drawn.1)))
    else if ltb d 11
    then (draw_grants rng >>= λ drawn. ok (drawn.0, spawn p drawn.1))
    else if ltb d 29
    then (draw rng channels >>= λ drawn.
        draw_grants drawn.0 >>= λ grants. ok (grants.0, send p drawn.1 grants.1))
    else if ltb d 47
    then (draw rng channels >>= λ drawn. ok (drawn.0, receive p drawn.1))
    else if ltb d 62
    then draw_read rng p
    else if ltb d 77
    then draw_write rng p
    else if ltb d 86
    then (draw_pick rng >>= λ drawn. ok (drawn.0, revoke p drawn.1))
    else if ltb d 92
    then (draw_pick rng >>= λ drawn. ok (drawn.0, destroy p drawn.1))
    else ok (rng, local_event p)

-- `World::generate`, in a world of `n` processes.
unfoldable pub generate : ℕ → SplitMix64 → Result Failure (SplitMix64 × Op)
unfolding draw_op below
generate n rng = do (rng₁, p) ← draw rng n; (rng₂, d) ← draw rng₁ 100; draw_op rng₂ p d
