-- ===== src/Workload/Chaos/Tracking/Reached.antt =====
-- crates/workload/src/chaos.rs: schedules of operations that stay within one process, in any order
-- and number.
use muaddib.Prelude.{ℕ, suc, ◌+◌, ◌<◌, ◌≤◌, ◌≡◌, sym, List, Result, ok, length, arith, u64_mod}
use muaddib.Workload.Chaos.Ops.{Op}
use muaddib.Workload.Chaos.World.{World, Entry}
use muaddib.Workload.Chaos.World
use muaddib.Workload.Chaos.Execute.{execute}
use muaddib.Workload.Chaos.Sweep.{sweep}
use muaddib.Workload.Chaos.Tracking.Picked.{IsMirrored, Survives, Uses, execute-Uses}
use muaddib.Workload.Chaos.Tracking.Swept.{sweep-ok}
use muaddib.Workload.Chaos.Tracking.Recorded.{
  execute_local-IsMirrored, execute_new_region-IsMirrored,
}
use muaddib.Workload.Chaos.Tracking.Started.{new-IsMirrored, entry_at}

-- The operations that pass no grants: accesses, new regions and local events.
pub data Alone (p : ℕ) : Op → Type 0 where
  uses : (op : Op) → Uses p op → Alone p op
  makes : (size : ℕ) → Alone p (Op.new_region p size)
  works : Alone p (Op.local_event p)

-- The worlds that the harness reaches by `n` of them.
pub data Reached (render : Entry → List ℕ) : ℕ → World → Type 0 where
  start : (w : World) → World.new ≡ ok w → Reached render 0 w
  step :
      (n p : ℕ) (op : Op) (w w' : World)
      → Reached render n w
      → p < length w.procs
      → Alone p op
      → execute render w op ≡ ok w'
      → Reached render (suc n) w'

execute-Alone :
    (render : Entry → List ℕ) (w : World) (p : ℕ) (op : Op)
    → IsMirrored w
    → suc w.k.next_id < u64_mod
    → p < length w.procs
    → Alone p op
    → Survives w (execute render w op)
unfolding execute
execute-Alone render w p op mirrored room inside (uses _ u) =
    let (mirror, at) = entry_at w.procs p inside in execute-Uses render w p mirror op mirrored at u
execute-Alone render w p op mirrored room inside (makes size) =
    let (mirror, at) = entry_at w.procs p inside in
    execute_new_region-IsMirrored render w p size mirror mirrored at room
execute-Alone render w p op mirrored room inside works =
    let (mirror, at) = entry_at w.procs p inside in
    execute_local-IsMirrored render w p mirror mirrored at inside

eq_of_ok {ℓ κ} : {E : Type ℓ} {A : Type κ} {a b : A} {r : Result E A} → r ≡ ok a → r ≡ ok b → a ≡ b
eq_of_ok e f = cc

Reached-IsMirrored :
    (render : Entry → List ℕ) (n : ℕ) (w : World)
    → Reached render n w
    → n + 6 < u64_mod
    → IsMirrored w × (w.k.next_id ≤ n + 5)
Reached-IsMirrored render n _ (start w e) room =
    let (w₀, made, mirrored, id) = new-IsMirrored in
    let same : w₀ ≡ w = eq_of_ok made e in rw (sym same) (mirrored, id)
Reached-IsMirrored render n _ (step m p op w w' before inside alone done) room =
    let (mirrored, id) = Reached-IsMirrored render m w before (omega arith) in
    let (w₁, done₁, mirrored₁, id₁) =
      execute-Alone render w p op mirrored (omega arith) inside alone in
    let same : w₁ ≡ w' = eq_of_ok done₁ done in rw (sym same) (mirrored₁, omega (arith, id, id₁))

-- In every world that the harness reaches from its setup by reads, writes, revokes, destructions,
-- new regions and local events, in any order and of any capabilities, every next such operation is
-- answered as the model predicts and the audit after it finds nothing, as long as the kernel's
-- identifiers do not run out.
pub Reached-passes :
    (render : Entry → List ℕ) (n p : ℕ) (op : Op) (w : World)
    → Reached render n w
    → n + 7 < u64_mod
    → p < length w.procs
    → Alone p op
    → (w' : World) × (execute render w op ≡ ok w') × (sweep w' ≡ ok tt)
Reached-passes render n p op w reached room inside alone =
    let (mirrored, id) = Reached-IsMirrored render n w reached (omega arith) in
    let (w', done, mirrored', _) =
      execute-Alone render w p op mirrored (omega arith) inside alone in
    (w', done, sweep-ok w' mirrored')
