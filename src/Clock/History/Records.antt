-- ===== src/Clock/History/Records.antt =====
-- Lists that grow at their end, for the events of a history and their causes.
use muaddib.Prelude.{
  ℕ, zero, suc, ◌<◌, ◌≡◌, refl, ◌⊎◌, inl, inr, none, some, List, [], ◌∷◌, ◌++◌, length, get_elem?,
  arith, eq_of_some, Option,
}
use muaddib.Clock.History.{Among, Reaches, cause, chain, to_list}

module _ {ℓ} {A : Type ℓ} where
  pub get_elem?-append_old :
      (xs : List A) (x y : A) (j : ℕ)
      → get_elem? xs j ≡ some y
      → get_elem? (xs ++ x ∷ []) j ≡ some y
  get_elem?-append_old [] x y j h = cc
  get_elem?-append_old (z ∷ xs) x y zero h = h
  get_elem?-append_old (z ∷ xs) x y (suc j) h = get_elem?-append_old xs x y j h

  pub get_elem?-append_new : (xs : List A) (x : A) → get_elem? (xs ++ x ∷ []) (length xs) ≡ some x
  get_elem?-append_new [] x = refl
  get_elem?-append_new (z ∷ xs) x = get_elem?-append_new xs x

  -- An entry of the longer list is an old one or the new one.
  pub get_elem?-append_cases :
      (xs : List A) (x y : A) (j : ℕ)
      → get_elem? (xs ++ x ∷ []) j ≡ some y
      → (get_elem? xs j ≡ some y) ⊎ ((j ≡ length xs) × (x ≡ y))
  get_elem?-append_cases [] x y zero h = inr (refl, eq_of_some h)
  get_elem?-append_cases [] x y (suc j) h = cc
  get_elem?-append_cases (z ∷ xs) x y zero h = inl h
  get_elem?-append_cases (z ∷ xs) x y (suc j) h = elim (get_elem?-append_cases xs x y j h) [
    | inl old ↦ inl old
    | inr (e, same) ↦ inr (omega arith, same)
  ]

  pub get_elem?-lt : (xs : List A) (j : ℕ) (y : A) → get_elem? xs j ≡ some y → j < length xs
  get_elem?-lt [] j y h = cc
  get_elem?-lt (x ∷ xs) zero y h = omega arith
  get_elem?-lt (x ∷ xs) (suc j) y h = omega (arith, get_elem?-lt xs j y h)

pub Among-append : (k : ℕ) (xs ys : List ℕ) → Among k (xs ++ ys) → Among k xs ⊎ Among k ys
Among-append k [] ys m = inr m
Among-append k (x ∷ xs) ys (inl e) = inl (inl e)
Among-append k (x ∷ xs) ys (inr m) = elim (Among-append k xs ys m) [
  | inl a ↦ inl (inr a)
  | inr b ↦ inr b
]

pub Among-append_left : (k : ℕ) (xs ys : List ℕ) → Among k xs → Among k (xs ++ ys)
Among-append_left k [] ys m = absurd m
Among-append_left k (x ∷ xs) ys (inl e) = inl e
Among-append_left k (x ∷ xs) ys (inr m) = inr (Among-append_left k xs ys m)

pub Among-append_right : (k : ℕ) (xs ys : List ℕ) → Among k ys → Among k (xs ++ ys)
Among-append_right k [] ys m = m
Among-append_right k (x ∷ xs) ys m = inr (Among-append_right k xs ys m)

pub Among-to_list : (k : ℕ) (o : Option ℕ) → Among k (to_list o) → o ≡ some k
Among-to_list k none m = absurd m
Among-to_list k (some i) (inl e) = rw e refl
Among-to_list k (some i) (inr m) = absurd m

pub Reaches-append :
    {preds : List (List ℕ)} {i j : ℕ} (new : List ℕ)
    → Reaches preds i j
    → Reaches (preds ++ new ∷ []) i j
Reaches-append {preds} {i} {j} new (cause ps at m) =
    cause ps (get_elem?-append_old preds new ps j at) m
Reaches-append {preds} {i} {j} new (chain ps r at m) =
    chain ps (Reaches-append new r) (get_elem?-append_old preds new ps j at) m
