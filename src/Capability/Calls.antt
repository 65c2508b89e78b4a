-- ===== src/Capability/Calls.antt =====
-- crates/capability/src/lib.rs: sequences of kernel calls, with any capabilities.
use muaddib.Prelude.{
  ℕ, suc, ◌+◌, ◌≤◌, ◌<◌, ◌≡◌, ◌⊎◌, inl, inr, none, some, Result, ok, err, panic, arith, next_u64,
  u64_mod, List, [], ◌∷◌, length, ◌==◌, Bool-cases,
}
use muaddib.Map
use muaddib.Map.Laws.{get-insert, get-remove}
use muaddib.Capability.Rights.{Rights}
use muaddib.Capability.Rights
use muaddib.Capability.{
  Capability, Kernel, CapError, new, new_object, check, revoke, reissue, destroy_object, revoked,
  unknown_object,
}
use muaddib.Capability.Check.{IsLive, check_gone, check_stale, check-eq_ok, check_cases}
use muaddib.Capability.Revocation.{
  bumped, revoke_of_check, revoke_refused, reissue_of_check, reissue_refused,
}

pub data Call : Type 0 where
  allocates : Rights → Call
  revokes reissues destroys : Capability → Call
  derives : Capability → Rights → Call

-- A call that is refused leaves the kernel as it was.
abbrev pub after : Kernel → Result CapError Kernel → Kernel
after k (ok k') = k'
after k (err e) = k
after k panic = k

abbrev after_reissue : Kernel → Result CapError (Kernel × Capability) → Kernel
after_reissue k (ok (k', c)) = k'
after_reissue k (err e) = k
after_reissue k panic = k

pub step : Kernel → Call → Kernel
step k (allocates rights) = (new_object k rights).0
step k (revokes c) = after k (revoke k c)
step k (reissues c) = after_reissue k (reissue k c)
step k (destroys c) = after k (destroy_object k c)
step k (derives c rights) = k

pub run : Kernel → List Call → Kernel
run k [] = k
run k (c ∷ cs) = run (step k c) cs

-- Every object was allocated, and neither the next id nor any epoch is above `n`.
pub record IsBounded (n : ℕ) (k : Kernel) : Type 0 where
  pub ids : k.next_id ≤ n
  pub allocated : (o e : ℕ) → Map.get o k.epochs ≡ some e → o < k.next_id
  pub epochs : (o e : ℕ) → Map.get o k.epochs ≡ some e → e ≤ n

-- The object is gone for good, or has moved past the epoch of the capability.
pub data IsSpent (k : Kernel) (c : Capability) : Type 0 where
  gone : Map.get c.object k.epochs ≡ none → c.object < k.next_id → IsSpent k c
  outrun : (e : ℕ) → Map.get c.object k.epochs ≡ some e → c.epoch < e → IsSpent k c

-- How a call changes the kernel: not at all, by a fresh object, a bump or a removal.
data Change (k : Kernel) : Kernel → Type 0 where
  keep : Change k k
  alloc :
      Change k (record { next_id = next_u64 k.next_id; epochs = Map.insert k.next_id 0 k.epochs })
  bump : (o e : ℕ) → Map.get o k.epochs ≡ some e → Change k (bumped k o e)
  drop : (o : ℕ) → Change k (record k { epochs = Map.remove o k.epochs })

destroy_cases :
    (k : Kernel) (c : Capability)
    → (destroy_object k c ≡ ok (record k { epochs = Map.remove c.object k.epochs }))
      ⊎ ((e : CapError) × (destroy_object k c ≡ err e))
unfolding destroy_object
destroy_cases k c = elim (check_cases k c Rights.destroy) [
  | inl (_, _, passed) ↦ inl (rw passed)
  | inr (e, refused) ↦ inr (e, rw refused)
]

destroy_allowed :
    (k : Kernel) (c : Capability) (e : CapError)
    → check k c Rights.destroy ≡ ok tt
    → ¬ (destroy_object k c ≡ err e)
unfolding destroy_object
destroy_allowed k c e allowed refused = ground arith

step-Change : (k : Kernel) (c : Call) → Change k (step k c)
unfolding step new_object
step-Change k (allocates rights) = alloc
step-Change k (revokes c) = elim (check_cases k c Rights.destroy) [
  | inl (live, _, passed) ↦ rw (revoke_of_check k c passed) (bump c.object c.epoch live)
  | inr (e, refused) ↦ rw (revoke_refused k c e refused) keep
]
step-Change k (reissues c) = elim (check_cases k c Rights.destroy) [
  | inl (live, _, passed) ↦ rw (reissue_of_check k c passed) (bump c.object c.epoch live)
  | inr (e, refused) ↦ rw (reissue_refused k c e refused) keep
]
step-Change k (destroys c) = elim (destroy_cases k c) [
  | inl done ↦ rw done (drop c.object)
  | inr (e, refused) ↦ rw refused keep
]
step-Change k (derives c rights) = keep

Change-IsBounded :
    (n : ℕ) {k k' : Kernel} → Change k k' → suc n < u64_mod → IsBounded n k → IsBounded (suc n) k'
Change-IsBounded n {k} keep h b = record {
  ids = ground (arith, b.ids);
  allocated = b.allocated;
  epochs = λ o e g. ground (arith, b.epochs o e g);
}
Change-IsBounded n {k} alloc h b = record {
  ids = ground (arith, b.ids);
  allocated = λ o e g. ground (arith, get-insert o k.next_id 0 k.epochs, b.allocated o e, b.ids);
  epochs = λ o e g. ground (arith, get-insert o k.next_id 0 k.epochs, b.epochs o e);
}
Change-IsBounded n {k} (bump o' e' live) h b = record {
  ids = ground (arith, b.ids);
  allocated = λ o e g.
      ground
        (arith, get-insert o o' (next_u64 e') k.epochs, b.allocated o e, b.allocated o' e' live);
  epochs = λ o e g.
      ground (arith, get-insert o o' (next_u64 e') k.epochs, b.epochs o e, b.epochs o' e' live);
}
Change-IsBounded n {k} (drop o') h b = record {
  ids = ground (arith, b.ids);
  allocated = λ o e g. ground (arith, get-remove o o' k.epochs, b.allocated o e);
  epochs = λ o e g. ground (arith, get-remove o o' k.epochs, b.epochs o e);
}

Change-IsSpent :
    (n : ℕ) {k k' : Kernel} (c : Capability)
    → Change k k'
    → suc n < u64_mod
    → IsBounded n k
    → IsSpent k c
    → IsSpent k' c
Change-IsSpent n c keep h b s = s
Change-IsSpent n {k} c alloc h b (gone g lt) =
    gone (ground (arith, get-insert c.object k.next_id 0 k.epochs)) (ground (arith, b.ids))
Change-IsSpent n {k} c alloc h b (outrun e g lt) =
    outrun e (ground (arith, get-insert c.object k.next_id 0 k.epochs, b.allocated c.object e g)) lt
Change-IsSpent n {k} c (bump o e live) h b (gone g lt) =
    gone (ground (arith, get-insert c.object o (next_u64 e) k.epochs)) lt
Change-IsSpent n {k} c (bump o e live) h b (outrun e' g lt) = elim (Bool-cases (c.object == o)) [
  | inl same ↦
      outrun (next_u64 e) (ground (arith, get-insert c.object o (next_u64 e) k.epochs))
        (ground (arith, b.epochs o e live))
  | inr other ↦ outrun e' (ground (arith, get-insert c.object o (next_u64 e) k.epochs)) lt
]
Change-IsSpent n {k} c (drop o) h b (gone g lt) =
    gone (ground (arith, get-remove c.object o k.epochs)) lt
Change-IsSpent n {k} c (drop o) h b (outrun e g lt) = elim (Bool-cases (c.object == o)) [
  | inl same ↦ gone (ground (arith, get-remove c.object o k.epochs)) (b.allocated c.object e g)
  | inr other ↦ outrun e (ground (arith, get-remove c.object o k.epochs)) lt
]

run-IsSpent :
    (n : ℕ) (k : Kernel) (c : Capability) (calls : List Call)
    → IsBounded n k
    → n + length calls < u64_mod
    → IsSpent k c
    → IsSpent (run k calls) c
unfolding run
run-IsSpent n k c [] b h s = s
run-IsSpent n k c (call ∷ calls) b h s =
    let change = step-Change k call in
    run-IsSpent (suc n) (step k call) c calls (Change-IsBounded n change (omega arith) b)
      (omega arith) (Change-IsSpent n c change (omega arith) b s)

check_spent :
    (k : Kernel) (c : Capability) (required : Rights)
    → IsSpent k c
    → (check k c required ≡ err (unknown_object c.object))
      ⊎ (check k c required ≡ err (revoked c.object))
check_spent k c required (gone g lt) = inl (check_gone k c required g)
check_spent k c required (outrun e g lt) = inr (check_stale k c required e g (omega arith))

-- The calls that end every capability for the object of `c`.
pub data Ends (c : Capability) : Call → Type 0 where
  by_revoke : Ends c (revokes c)
  by_reissue : Ends c (reissues c)
  by_destroy : Ends c (destroys c)

bumped-IsSpent :
    (n : ℕ) (k : Kernel) (c d : Capability)
    → IsBounded n k
    → suc n < u64_mod
    → IsLive k c
    → d.object ≡ c.object
    → IsLive k d
    → IsSpent (bumped k c.object c.epoch) d
bumped-IsSpent n k c d b h live o l =
    outrun (next_u64 c.epoch)
      (ground (arith, get-insert d.object c.object (next_u64 c.epoch) k.epochs))
      (ground (arith, b.epochs c.object c.epoch live))

Ends-IsSpent :
    (n : ℕ) (k : Kernel) (c d : Capability) {end : Call}
    → Ends c end
    → IsBounded n k
    → suc n < u64_mod
    → check k c Rights.destroy ≡ ok tt
    → d.object ≡ c.object
    → IsLive k d
    → IsSpent (step k end) d
unfolding step
Ends-IsSpent n k c d by_revoke b h allowed o l =
    rw (revoke_of_check k c allowed)
      (bumped-IsSpent n k c d b h (check-eq_ok k c Rights.destroy allowed).0 o l)
Ends-IsSpent n k c d by_reissue b h allowed o l =
    rw (reissue_of_check k c allowed)
      (bumped-IsSpent n k c d b h (check-eq_ok k c Rights.destroy allowed).0 o l)
Ends-IsSpent n k c d by_destroy b h allowed o l = elim (destroy_cases k c) [
  | inl done ↦ rw done (
      gone (ground (arith, get-remove d.object c.object k.epochs)) (b.allocated d.object d.epoch l))
  | inr (e, refused) ↦ absurd (destroy_allowed k c e allowed refused)
]

-- Once a revoke, a reissue or a destruction is allowed, every capability that was live for
-- its object is refused for any right, also after any further sequence of kernel calls with any
-- capabilities, if the bound on the counters leaves them no room to wrap.
pub dead_forever :
    (n : ℕ) (k : Kernel) (c d : Capability) {end : Call} (calls : List Call) (required : Rights)
    → IsBounded n k
    → suc n + length calls < u64_mod
    → check k c Rights.destroy ≡ ok tt
    → Ends c end
    → d.object ≡ c.object
    → IsLive k d
    → let k' = run (step k end) calls in
      (check k' d required ≡ err (unknown_object d.object))
      ⊎ (check k' d required ≡ err (revoked d.object))
dead_forever n k c d {end} calls required b h allowed ends o l =
    check_spent (run (step k end) calls) d required (
      run-IsSpent (suc n) (step k end) d calls
        (Change-IsBounded n (step-Change k end) (omega arith) b) h
        (Ends-IsSpent n k c d ends b (omega arith) allowed o l))

-- The fresh kernel is within every bound.
pub new-IsBounded : (n : ℕ) → IsBounded n new
unfolding Map.get
new-IsBounded n = record { ids = omega arith; allocated = λ o e g. cc; epochs = λ o e g. cc }
