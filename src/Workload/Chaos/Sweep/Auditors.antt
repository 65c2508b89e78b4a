-- ===== src/Workload/Chaos/Sweep/Auditors.antt =====
-- crates/workload/src/chaos.rs: the auditor that `World::sweep` looks for in the stash.
use muaddib.Prelude.{
  ℕ, zero, suc, ◌≡◌, refl, sym, ap, ◌∙◌, inl, inr, Bool, true, false, Option, some, List, [], ◌∷◌,
  Result, ok, err, panic, get_elem?, arith, if◌then◌else◌, Bool-cases, eq_of_some, >>=-eq_ok,
}
use muaddib.Capability.Rights
use muaddib.Capability.{Capability, CapError}
use muaddib.Workload.Chaos.{Obj, region, channel, CapModel, predict_check}
use muaddib.Workload.Chaos.Failures.{Failure}
use muaddib.Workload.Chaos.World.{World}
use muaddib.Workload.Chaos.Sweep.{audits, find_auditor, may}
use muaddib.Workload.Chaos.Batches.{same_obj}

same_obj-region : (r : ℕ) (o : Obj) → same_obj o (region r) ≡ true → o ≡ region r
same_obj-region r (region s) h = ground arith
same_obj-region r (channel c) h = cc

may-granted : (answer : Result CapError (Unit {0})) → may answer ≡ ok true → answer ≡ ok tt
may-granted (ok u) h = refl
may-granted (err e) h =
    absurd (let f : ◌≡◌ {A = Result Failure Bool} (ok false) (ok true) = h in cc)
may-granted panic h = cc

pub audits-granted :
    (w : World) (r : ℕ) (m : CapModel)
    → m.obj ≡ region r
    → predict_check w.regions w.channel_objects m Rights.read ≡ ok tt
    → audits w r m ≡ ok true
unfolding audits
audits-granted w r m obj granted =
    let same : same_obj m.obj (region r) ≡ true = rw obj (ground arith) in rw (same, granted) refl

pub audits-eq_ok :
    (w : World) (r : ℕ) (m : CapModel)
    → audits w r m ≡ ok true
    → (m.obj ≡ region r) × (predict_check w.regions w.channel_objects m Rights.read ≡ ok tt)
unfolding audits
audits-eq_ok w r m h = elim (Bool-cases (same_obj m.obj (region r))) [
  | inl same ↦ (same_obj-region r m.obj same, may-granted _ (rw same at h))
  | inr other ↦
      absurd (let f : ◌≡◌ {A = Result Failure Bool} (ok false) (ok true) = rw other at h in cc)
]

-- An entry of the stash that audits the region, and that is the one found.
abbrev pub FoundIn : World → ℕ → List (Capability × CapModel) → Option Capability → Type 0
FoundIn w r stash cap =
    (j : ℕ) × (e : Capability × CapModel) × (get_elem? stash j ≡ some e)
    × (audits w r e.1 ≡ ok true)
    × (cap ≡ some e.0)

find_first :
    (w : World) (r i : ℕ) (c : Capability) (m : CapModel) (stash : List (Capability × CapModel))
    (e : Capability × CapModel) (cap : Option Capability) (passed : Bool)
    → audits w r m ≡ ok passed
    → (if passed then ok (some c) else find_auditor w r stash) ≡ ok cap
    → get_elem? ((c, m) ∷ stash) i ≡ some e
    → audits w r e.1 ≡ ok true
    → ((k : ℕ)
        → find_auditor w r stash ≡ ok cap
        → get_elem? stash k ≡ some e
        → FoundIn w r stash cap)
    → FoundIn w r ((c, m) ∷ stash) cap
find_first w r i c m stash e cap true first h at passes later =
    (0, (c, m), refl, first, ground arith)
find_first w r zero c m stash e cap false first h at passes later =
    let same : (c, m) ≡ e = eq_of_some at in
    absurd (let f : ok false ≡ ok true = sym first ∙ ap (λ x. audits w r x.1) same ∙ passes in cc)
find_first w r (suc i) c m stash e cap false first h at passes later =
    let (j, e', there, granted, found) = later i h at in (suc j, e', there, granted, found)

-- Where an entry of the stash passes, the auditor is an entry that does.
pub find_auditor-some :
    (w : World) (r i : ℕ) (stash : List (Capability × CapModel)) (e : Capability × CapModel)
    (cap : Option Capability)
    → find_auditor w r stash ≡ ok cap
    → get_elem? stash i ≡ some e
    → audits w r e.1 ≡ ok true
    → FoundIn w r stash cap
find_auditor-some w r i [] e cap h at passes = cc
find_auditor-some w r i ((c, m) ∷ stash) e cap h at passes =
    let (passed, first, h₁) = >>=-eq_ok (audits w r m) _ h in
    find_first w r i c m stash e cap passed first h₁ at passes
      (λ k h' at'. find_auditor-some w r k stash e cap h' at' passes)
