-- ===== src/Process/Transfer/Applied.antt =====
-- crates/process/src/transfer.rs: `apply_grants` on an accepted batch, as plain functions of the
-- batch.
use muaddib.Prelude.{
  ℕ, zero, suc, ◌≡◌, refl, ◌≢◌, Bool, false, none, some, List, [], ◌∷◌, ok, any, get_elem?, length,
  ◌==◌, if◌then◌else◌, ◌∙◌, arith, next_u64,
}
use muaddib.Map.{Map}
use muaddib.Map
use muaddib.Map.Laws.{get-remove, get-insert_self, get-insert_ne}
use muaddib.Capability.Rights.{Rights, contains}
use muaddib.Capability.Rights
use muaddib.Capability.{Capability, Kernel, check}
use muaddib.Capability.Check.{check_local}
use muaddib.Capability.Revocation.{bumped, reissue_of_check}
use muaddib.Process.{Process}
use muaddib.Process
use muaddib.Process.Transfer.{Grant, transfer, derive, move, resolve_grants, apply_grants}
use muaddib.Process.Transfer.Resolved.{
  Resolves, ResolvesAll, by_transfer, by_derive, by_move, nil, cons, AreApart, resolve_grants-eq_ok,
  length-ResolvesAll,
}

-- The table without the handles that the batch takes.
unfoldable pub strip : List Grant → Map Capability → Map Capability
strip [] m = m
strip (transfer h ∷ gs) m = strip gs (Map.remove h m)
strip (derive h rights ∷ gs) m = strip gs m
strip (move h ∷ gs) m = strip gs (Map.remove h m)

-- The epochs after the reissue of every object that the batch moves.
unfoldable pub bump_all : List Grant → List Capability → Map ℕ → Map ℕ
bump_all [] cs m = m
bump_all (g ∷ gs) [] m = m
bump_all (transfer h ∷ gs) (c ∷ cs) m = bump_all gs cs m
bump_all (derive h rights ∷ gs) (c ∷ cs) m = bump_all gs cs m
bump_all (move h ∷ gs) (c ∷ cs) m = bump_all gs cs (Map.insert c.object (next_u64 c.epoch) m)

-- The capabilities that arrive.
unfoldable pub delivered : List Grant → List Capability → List Capability
delivered [] cs = cs
delivered (g ∷ gs) [] = []
delivered (transfer h ∷ gs) (c ∷ cs) = c ∷ delivered gs cs
delivered (derive h rights ∷ gs) (c ∷ cs) = c ∷ delivered gs cs
delivered (move h ∷ gs) (c ∷ cs) = record c { epoch = next_u64 c.epoch } ∷ delivered gs cs

abbrev pub stripped : Process → List Grant → Process
stripped source gs = record source { capabilities = strip gs source.capabilities }

abbrev pub moved : Kernel → List Grant → List Capability → Kernel
moved k gs cs = record k { epochs = bump_all gs cs k.epochs }

-- Every move of the batch passes the check of `reissue`.
abbrev pub MovesPass : Kernel → List Grant → List Capability → Type 0
MovesPass k gs cs =
    (i h : ℕ) (c : Capability)
    → get_elem? gs i ≡ some (move h)
    → get_elem? cs i ≡ some c
    → check k c Rights.destroy ≡ ok tt

pub AreApart-tail :
    (g : Grant) (c : Capability) (gs : List Grant) (cs : List Capability)
    → AreApart (g ∷ gs) (c ∷ cs)
    → AreApart gs cs
AreApart-tail g c gs cs a i j h c' d e e' e'' ne = a (suc i) (suc j) h c' d e e' e'' (omega arith)

pub MovesPass-bumped :
    (k : Kernel) (h : ℕ) (c : Capability) (gs : List Grant) (cs : List Capability)
    → AreApart (move h ∷ gs) (c ∷ cs)
    → MovesPass k (move h ∷ gs) (c ∷ cs)
    → MovesPass (bumped k c.object c.epoch) gs cs
MovesPass-bumped k h c gs cs a m i j c' e e' =
    check_local k (bumped k c.object c.epoch) c' Rights.destroy (
      get-insert_ne c'.object c.object (next_u64 c.epoch) k.epochs
        (a 0 (suc i) h c c' refl refl e' (omega arith)))
    ∙ m (suc i) j c' e e'

apply_grants_lem :
    (k : Kernel) (source : Process) (gs : List Grant) (cs : List Capability)
    → length gs ≡ length cs
    → AreApart gs cs
    → MovesPass k gs cs
    → apply_grants k source gs cs ≡ ok (moved k gs cs, stripped source gs, delivered gs cs)
unfolding apply_grants strip bump_all delivered
apply_grants_lem k source [] cs l a m = refl
apply_grants_lem k source (g ∷ gs) [] l a m = absurd (omega arith)
apply_grants_lem k source (transfer h ∷ gs) (c ∷ cs) l a m = rw (
    apply_grants_lem k (Process.take source h).0 gs cs (omega arith) (AreApart-tail _ c gs cs a)
      (λ i j c' e e'. m (suc i) j c' e e'))
apply_grants_lem k source (derive h rights ∷ gs) (c ∷ cs) l a m = rw (
    apply_grants_lem k source gs cs (omega arith) (AreApart-tail _ c gs cs a)
      (λ i j c' e e'. m (suc i) j c' e e'))
apply_grants_lem k source (move h ∷ gs) (c ∷ cs) l a m =
    rw (reissue_of_check k c (m 0 h c refl refl)) (
      rw (
        apply_grants_lem (bumped k c.object c.epoch) (Process.take source h).0 gs cs (omega arith)
          (AreApart-tail _ c gs cs a) (MovesPass-bumped k h c gs cs a m)))

-- The entry of an accepted batch at each position.
pub ResolvesAll-at :
    {k : Kernel} {source : Process} {gs : List Grant} {cs : List Capability} (i : ℕ) (g : Grant)
    (c : Capability)
    → ResolvesAll k source gs cs
    → get_elem? gs i ≡ some g
    → get_elem? cs i ≡ some c
    → Resolves k source g c
ResolvesAll-at i g c nil e e' = cc
ResolvesAll-at {k} {source} zero g c (cons {g = g'} {c = c'} r rs) e e' =
    let p : g ≡ g' = ground arith in let q : c ≡ c' = ground arith in rw (p, q) r
ResolvesAll-at (suc i) g c (cons r rs) e e' = ResolvesAll-at i g c rs e e'

pub Resolves-move :
    {k : Kernel} {source : Process} {g : Grant} {h : ℕ} {c : Capability}
    → Resolves k source g c
    → g ≡ move h
    → check k c Rights.destroy ≡ ok tt
Resolves-move (by_transfer e) p = cc
Resolves-move (by_derive held e d) p = cc
Resolves-move (by_move e d) p = d

pub ResolvesAll-MovesPass :
    {k : Kernel} {source : Process} {gs : List Grant} {cs : List Capability}
    → ResolvesAll k source gs cs
    → MovesPass k gs cs
ResolvesAll-MovesPass r i h c e e' = Resolves-move (ResolvesAll-at i (move h) c r e e') refl

-- The side effects of a batch that `resolve_grants` accepted never fail: `apply_grants` does not
-- panic, strips the table of exactly the handles that leave it, reissues every moved object, and
-- delivers one capability for each grant.
pub apply-resolve :
    (k : Kernel) (source : Process) (gs : List Grant) (cs : List Capability)
    → resolve_grants k source gs ≡ ok cs
    → apply_grants k source gs cs ≡ ok (moved k gs cs, stripped source gs, delivered gs cs)
apply-resolve k source gs cs e =
    let (all, apart) = resolve_grants-eq_ok k source gs cs e in
    apply_grants_lem k source gs cs (length-ResolvesAll all) apart (ResolvesAll-MovesPass all)

-- The grant takes the handle out of the table.
abbrev pub takes : ℕ → Grant → Bool
takes h (transfer j) = h == j
takes h (derive j rights) = false
takes h (move j) = h == j

-- After a batch, the handles that it transfers or moves are empty, and every other handle holds
-- what it held.
pub get-strip :
    (h : ℕ) (gs : List Grant) (m : Map Capability)
    → Map.get h (strip gs m) ≡ (if any (takes h) gs then none else Map.get h m)
unfolding strip
get-strip h [] m = refl
get-strip h (transfer j ∷ gs) m = ground (arith, get-strip h gs (Map.remove j m), get-remove h j m)
get-strip h (derive j rights ∷ gs) m = get-strip h gs m
get-strip h (move j ∷ gs) m = ground (arith, get-strip h gs (Map.remove j m), get-remove h j m)

-- An object that the batch does not move keeps its epoch.
pub get-bump_all_other :
    (o : ℕ) (gs : List Grant) (cs : List Capability) (m : Map ℕ)
    → ((i h : ℕ) (c : Capability)
        → get_elem? gs i ≡ some (move h)
        → get_elem? cs i ≡ some c
        → o ≢ c.object)
    → Map.get o (bump_all gs cs m) ≡ Map.get o m
unfolding bump_all
get-bump_all_other o [] cs m ne = refl
get-bump_all_other o (g ∷ gs) [] m ne = refl
get-bump_all_other o (transfer h ∷ gs) (c ∷ cs) m ne =
    get-bump_all_other o gs cs m (λ i. ne (suc i))
get-bump_all_other o (derive h rights ∷ gs) (c ∷ cs) m ne =
    get-bump_all_other o gs cs m (λ i. ne (suc i))
get-bump_all_other o (move h ∷ gs) (c ∷ cs) m ne =
    get-bump_all_other o gs cs (Map.insert c.object (next_u64 c.epoch) m) (λ i. ne (suc i))
    ∙ get-insert_ne o c.object (next_u64 c.epoch) m (ne 0 h c refl refl)

pub get-bump_all_moved :
    (gs : List Grant) (cs : List Capability) (m : Map ℕ) (i h : ℕ) (c : Capability)
    → AreApart gs cs
    → get_elem? gs i ≡ some (move h)
    → get_elem? cs i ≡ some c
    → Map.get c.object (bump_all gs cs m) ≡ some (next_u64 c.epoch)
unfolding bump_all
get-bump_all_moved [] cs m i h c a e e' = cc
get-bump_all_moved (g ∷ gs) [] m i h c a e e' = cc
get-bump_all_moved (transfer h' ∷ gs) (c' ∷ cs) m zero h c a e e' = cc
get-bump_all_moved (transfer h' ∷ gs) (c' ∷ cs) m (suc i) h c a e e' =
    get-bump_all_moved gs cs m i h c (AreApart-tail _ c' gs cs a) e e'
get-bump_all_moved (derive h' rights ∷ gs) (c' ∷ cs) m zero h c a e e' = cc
get-bump_all_moved (derive h' rights ∷ gs) (c' ∷ cs) m (suc i) h c a e e' =
    get-bump_all_moved gs cs m i h c (AreApart-tail _ c' gs cs a) e e'
get-bump_all_moved (move h' ∷ gs) (c' ∷ cs) m zero h c a e e' =
    let same : c ≡ c' = ground arith in
    rw same (
      get-bump_all_other c'.object gs cs (Map.insert c'.object (next_u64 c'.epoch) m)
        (λ i j d g f. λ q. a (suc i) 0 j d c' g f refl (omega arith) q)
      ∙ get-insert_self c'.object (next_u64 c'.epoch) m)
get-bump_all_moved (move h' ∷ gs) (c' ∷ cs) m (suc i) h c a e e' =
    get-bump_all_moved gs cs (Map.insert c'.object (next_u64 c'.epoch) m) i h c
      (AreApart-tail _ c' gs cs a) e e'
