-- ===== src/Process/Transfer/Resolved.antt =====
-- crates/process/src/transfer.rs: the batches that `resolve_grants` accepts.
use muaddib.Prelude.{
  ℕ, zero, suc, ◌+◌, ◌≡◌, refl, ◌≢◌, ◌⊎◌, inl, inr, false, not, some, List, [], ◌∷◌, Result, ok,
  err, panic, ◌>>=◌, guard, expect, >>=-eq_ok, guard-eq_ok, expect-eq_ok, get_elem?, length,
  length-le_of_none, ◌≤◌, arith, Bool-cases, Option-cases,
}
use muaddib.Capability.Rights.{Rights, contains}
use muaddib.Capability.Rights
use muaddib.Capability.{Capability, Kernel, CapError}
use muaddib.Capability.Check.{check_cases}
use muaddib.Capability
use muaddib.Process.{Process}
use muaddib.Process
use muaddib.Process.Transfer.{
  Grant, GrantError, transfer, derive, move, note_transfer, resolve_one, resolve_each, conflicts,
  check_moves, resolve_grants, unknown_handle, move_conflict, capability,
}

-- What each kind of grant resolves to, against the source's table.
pub data Resolves (k : Kernel) (source : Process) : Grant → Capability → Type 0 where
  by_transfer :
      {h : ℕ} {c : Capability}
      → Process.capability source h ≡ some c
      → Resolves k source (transfer h) c
  by_derive :
      {h : ℕ} {rights : Rights} {c : Capability} (held : Capability)
      → Process.capability source h ≡ some held
      → Capability.derive k held rights ≡ ok c
      → Resolves k source (derive h rights) c
  by_move :
      {h : ℕ} {c : Capability}
      → Process.capability source h ≡ some c
      → Capability.check k c Rights.destroy ≡ ok tt
      → Resolves k source (move h) c

pub data ResolvesAll (k : Kernel) (source : Process) : List Grant → List Capability → Type 0 where
  nil : ResolvesAll k source [] []
  cons :
      {g : Grant} {c : Capability} {gs : List Grant} {cs : List Capability}
      → Resolves k source g c
      → ResolvesAll k source gs cs
      → ResolvesAll k source (g ∷ gs) (c ∷ cs)

-- The object of a move is named by no other entry of the batch.
abbrev pub AreApart : List Grant → List Capability → Type 0
AreApart gs cs =
    (i j h : ℕ) (c d : Capability)
    → get_elem? gs i ≡ some (move h)
    → get_elem? cs i ≡ some c
    → get_elem? cs j ≡ some d
    → j ≢ i
    → d.object ≢ c.object

resolve_one-Resolves :
    (k : Kernel) (source : Process) (g : Grant) (c : Capability)
    → resolve_one k source g ≡ ok c
    → Resolves k source g c
unfolding resolve_one
resolve_one-Resolves k source (transfer h) c e = by_transfer (ground arith)
resolve_one-Resolves k source (derive h rights) c e =
    elim (Option-cases (Process.capability source h)) [
      | inl missing ↦ absurd (ground arith)
      | inr (held, found) ↦ by_derive held found (ground arith)
    ]
resolve_one-Resolves k source (move h) c e = elim (Option-cases (Process.capability source h)) [
  | inl missing ↦ absurd (ground arith)
  | inr (held, found) ↦ by_move (ground arith) (ground arith)
]

resolve_each-ResolvesAll :
    (k : Kernel) (source : Process) (seen : List ℕ) (gs : List Grant) (cs : List Capability)
    → resolve_each k source seen gs ≡ ok cs
    → ResolvesAll k source gs cs
unfolding resolve_each
resolve_each-ResolvesAll k source seen [] [] e = nil
resolve_each-ResolvesAll k source seen [] (c ∷ cs) e = absurd (ground arith)
resolve_each-ResolvesAll k source seen (g ∷ gs) cs e =
    let (seen', _, e₁) = >>=-eq_ok (note_transfer seen g) _ e in
    let (c, one, e₂) = >>=-eq_ok (resolve_one k source g) _ e₁ in
    let (rest, each, e₃) = >>=-eq_ok (resolve_each k source seen' gs) _ e₂ in
    let same : cs ≡ c ∷ rest = ground arith in
    rw same (
      cons (resolve_one-Resolves k source g c one)
        (resolve_each-ResolvesAll k source seen' gs rest each))

conflicts_apart :
    (i object j : ℕ) (cs : List Capability)
    → conflicts i object j cs ≡ false
    → (m : ℕ) (d : Capability) → get_elem? cs m ≡ some d
    → m + j ≢ i
    → d.object ≢ object
unfolding conflicts
conflicts_apart i object j [] h m d e ne = cc
conflicts_apart i object j (c ∷ cs) h zero d e ne = ground arith
conflicts_apart i object j (c ∷ cs) h (suc m) d e ne =
    conflicts_apart i object (suc j) cs (ground arith) m d e (omega arith)

check_moves-move :
    (resolved : List Capability) (i h : ℕ) (gs : List Grant)
    → check_moves resolved i (move h ∷ gs) ≡ ok tt
    → (c : Capability) × (get_elem? resolved i ≡ some c)
      × (conflicts i c.object 0 resolved ≡ false)
      × (check_moves resolved (suc i) gs ≡ ok tt)
unfolding check_moves
check_moves-move resolved i h gs p =
    let (c, e, p₁) = >>=-eq_ok (expect {E = GrantError} (get_elem? resolved i)) _ p in
    let (_, g, p₂) =
      >>=-eq_ok (guard (not (conflicts i c.object 0 resolved)) (move_conflict c.object)) _ p₁ in
    (
      c,
      expect-eq_ok {E = GrantError} (get_elem? resolved i) e,
      ground (arith, guard-eq_ok _ _ g),
      p₂,
    )

check_moves-apart :
    (resolved : List Capability) (i : ℕ) (gs : List Grant)
    → check_moves resolved i gs ≡ ok tt
    → (n q j h : ℕ) (c d : Capability) → q ≡ n + i
    → get_elem? gs n ≡ some (move h)
    → get_elem? resolved q ≡ some c
    → get_elem? resolved j ≡ some d
    → j ≢ q
    → d.object ≢ c.object
unfolding check_moves
check_moves-apart resolved i [] p n q j h c d at g e e' ne = cc
check_moves-apart resolved i (transfer h' ∷ gs) p zero q j h c d at g e e' ne = cc
check_moves-apart resolved i (transfer h' ∷ gs) p (suc n) q j h c d at g e e' ne =
    check_moves-apart resolved (suc i) gs p n q j h c d (omega arith) g e e' ne
check_moves-apart resolved i (derive h' rights ∷ gs) p zero q j h c d at g e e' ne = cc
check_moves-apart resolved i (derive h' rights ∷ gs) p (suc n) q j h c d at g e e' ne =
    check_moves-apart resolved (suc i) gs p n q j h c d (omega arith) g e e' ne
check_moves-apart resolved i (move h' ∷ gs) p zero q j h c d at g e e' ne =
    let (c', found, free, _) = check_moves-move resolved i h' gs p in
    let here : q ≡ i = omega arith in
    let same : c ≡ c' = let e₁ = rw here at e in ground arith in
    rw same (conflicts_apart i c'.object 0 resolved free j d e' (omega arith))
check_moves-apart resolved i (move h' ∷ gs) p (suc n) q j h c d at g e e' ne =
    let (_, _, _, rest) = check_moves-move resolved i h' gs p in
    check_moves-apart resolved (suc i) gs rest n q j h c d (omega arith) g e e' ne

-- A batch is accepted only if every grant resolves against the source's table as its kind asks,
-- and no object that it moves is named twice.
pub resolve_grants-eq_ok :
    (k : Kernel) (source : Process) (gs : List Grant) (cs : List Capability)
    → resolve_grants k source gs ≡ ok cs
    → ResolvesAll k source gs cs × AreApart gs cs
unfolding resolve_grants
resolve_grants-eq_ok k source gs cs e =
    let (resolved, each, e₁) = >>=-eq_ok (resolve_each k source [] gs) _ e in
    let (_, moves, e₂) = >>=-eq_ok (check_moves resolved 0 gs) _ e₁ in
    let same : cs ≡ resolved = ground arith in
    rw same (
      resolve_each-ResolvesAll k source [] gs resolved each,
      λ i j h c d g e' e'' ne.
          check_moves-apart resolved 0 gs moves i i j h c d (omega arith) g e' e'' ne,
    )

resolve_one_total :
    (k : Kernel) (source : Process) (g : Grant)
    → ((c : Capability) × (resolve_one k source g ≡ ok c))
      ⊎ ((e : GrantError) × (resolve_one k source g ≡ err e))
unfolding resolve_one Capability.derive
resolve_one_total k source (transfer h) = elim (Option-cases (Process.capability source h)) [
  | inl missing ↦ inr (unknown_handle, rw missing)
  | inr (held, found) ↦ inl (held, rw found)
]
resolve_one_total k source (derive h rights) = elim (Option-cases (Process.capability source h)) [
  | inl missing ↦ inr (unknown_handle, rw missing)
  | inr (held, found) ↦ elim (check_cases k held Rights.grant) [
    | inr (e, refused) ↦ inr (capability e, ground arith)
    | inl (_, _, granted) ↦ elim (Bool-cases (contains held.rights rights)) [
      | inl sub ↦ inl (record held { rights = rights }, ground arith)
      | inr more ↦
          inr (capability (Capability.cannot_amplify held.object held.rights rights), ground arith)
    ]
  ]
]
resolve_one_total k source (move h) = elim (Option-cases (Process.capability source h)) [
  | inl missing ↦ inr (unknown_handle, rw missing)
  | inr (held, found) ↦ elim (check_cases k held Rights.destroy) [
    | inr (e, refused) ↦ inr (capability e, ground arith)
    | inl (_, _, granted) ↦ inl (held, ground arith)
  ]
]

note_transfer-ne_panic : (seen : List ℕ) (g : Grant) → note_transfer seen g ≢ panic
unfolding note_transfer
note_transfer-ne_panic seen (transfer h) = ground arith
note_transfer-ne_panic seen (derive h rights) = ground arith
note_transfer-ne_panic seen (move h) = ground arith

>>=-ne_panic {ℓ κ μ} :
    {E : Type ℓ} {A : Type κ} {B : Type μ} (m : Result E A) (f : A → Result E B)
    → m ≢ panic
    → ((a : A) → m ≡ ok a → f a ≢ panic)
    → (m >>= f) ≢ panic
>>=-ne_panic (ok a) f p q = q a refl
>>=-ne_panic (err e) f p q = λ h. cc
>>=-ne_panic panic f p q = λ h. p refl

resolve_each-ne_panic :
    (k : Kernel) (source : Process) (seen : List ℕ) (gs : List Grant)
    → resolve_each k source seen gs ≢ panic
unfolding resolve_each
resolve_each-ne_panic k source seen [] = λ h. cc
resolve_each-ne_panic k source seen (g ∷ gs) =
    >>=-ne_panic (note_transfer seen g) _ (note_transfer-ne_panic seen g) λ seen' _.
      >>=-ne_panic (resolve_one k source g) _
        (λ h. elim (resolve_one_total k source g) [ inl (c, e) ↦ cc | inr (x, e) ↦ cc ])
        λ c _.
          >>=-ne_panic (resolve_each k source seen' gs) _ (resolve_each-ne_panic k source seen' gs)
            λ rest _ h. cc

check_moves-ne_panic :
    (resolved : List Capability) (i : ℕ) (gs : List Grant)
    → i + length gs ≤ length resolved
    → check_moves resolved i gs ≢ panic
unfolding check_moves
check_moves-ne_panic resolved i [] h = λ e. cc
check_moves-ne_panic resolved i (transfer j ∷ gs) h =
    check_moves-ne_panic resolved (suc i) gs (omega arith)
check_moves-ne_panic resolved i (derive j rights ∷ gs) h =
    check_moves-ne_panic resolved (suc i) gs (omega arith)
check_moves-ne_panic resolved i (move j ∷ gs) h = elim (Option-cases (get_elem? resolved i)) [
  | inl short ↦ absurd (omega (arith, length-le_of_none resolved i short))
  | inr (c, found) ↦ rw found (
      >>=-ne_panic (guard (not (conflicts i c.object 0 resolved)) (move_conflict c.object)) _
        (ground arith) λ _ _. check_moves-ne_panic resolved (suc i) gs (omega arith))
]

pub length-ResolvesAll :
    {k : Kernel} {source : Process} {gs : List Grant} {cs : List Capability}
    → ResolvesAll k source gs cs
    → length gs ≡ length cs
length-ResolvesAll nil = refl
length-ResolvesAll (cons r rs) = omega (arith, length-ResolvesAll rs)

-- The validation of a batch never panics, whatever the batch: the index that its second loop uses
-- is in range.
pub resolve_grants-ne_panic :
    (k : Kernel) (source : Process) (gs : List Grant) → resolve_grants k source gs ≢ panic
unfolding resolve_grants
resolve_grants-ne_panic k source gs =
    >>=-ne_panic (resolve_each k source [] gs) _ (resolve_each-ne_panic k source [] gs) λ cs e.
      >>=-ne_panic (check_moves cs 0 gs) _
        (check_moves-ne_panic cs 0 gs
          (omega (arith, length-ResolvesAll (resolve_each-ResolvesAll k source [] gs cs e))))
        λ _ _ h. cc
