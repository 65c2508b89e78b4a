-- ===== src/Workload/Chaos/Answers.antt =====
-- crates/capability/src/lib.rs, crates/memory/src/lib.rs: the derived `==` on the results of calls,
-- by which crates/workload/src/chaos.rs compares an answer with its prediction.
use muaddib.Prelude.{
  ℕ, ◌≡◌, refl, ap, ◌∙◌, Bool, true, false, ◌&&◌, List, [], ◌∷◌, Result, ok, err, panic, ◌==◌,
  arith,
}
use muaddib.Capability.{CapError, unknown_object, revoked, insufficient_rights, cannot_amplify}
use muaddib.Memory.{MemoryError, unknown_region, out_of_bounds, capability}

unfoldable pub same_cap_error : CapError → CapError → Bool
same_cap_error (unknown_object a) e = elim e [ unknown_object b ↦ a == b | _ ↦ false ]
same_cap_error (revoked a) e = elim e [ revoked b ↦ a == b | _ ↦ false ]
same_cap_error (insufficient_rights o h r) e = elim e [
  | insufficient_rights o' h' r' ↦ o == o' && h == h' && r == r'
  | _ ↦ false
]
same_cap_error (cannot_amplify o h r) e = elim e [
  | cannot_amplify o' h' r' ↦ o == o' && h == h' && r == r'
  | _ ↦ false
]

unfoldable pub same_memory_error : MemoryError → MemoryError → Bool
unfolding same_cap_error
same_memory_error (unknown_region a) e = elim e [ unknown_region b ↦ a == b | _ ↦ false ]
same_memory_error (out_of_bounds o s l n) e = elim e [
  | out_of_bounds o' s' l' n' ↦ o == o' && s == s' && l == l' && n == n'
  | _ ↦ false
]
same_memory_error (capability a) e = elim e [ capability b ↦ same_cap_error a b | _ ↦ false ]

-- `==` on two results, by that on the errors and that on the values.
abbrev pub same_result {ℓ κ} :
    {E : Type ℓ} {A : Type κ} → (E → E → Bool) → (A → A → Bool) → Result E A → Result E A → Bool
same_result same_err same_ok (ok a) r = elim r [ ok b ↦ same_ok a b | _ ↦ false ]
same_result same_err same_ok (err e) r = elim r [ err f ↦ same_err e f | _ ↦ false ]
same_result same_err same_ok panic r = elim r [ panic ↦ true | _ ↦ false ]

unfoldable pub same_numbers : List ℕ → List ℕ → Bool
same_numbers [] ys = elim ys [ [] ↦ true | _ ↦ false ]
same_numbers (x ∷ xs) [] = false
same_numbers (x ∷ xs) (y ∷ ys) = x == y && same_numbers xs ys

abbrev pub same_unit : Unit {0} → Unit {0} → Bool
same_unit a b = true

pub same_cap_error_refl : (e : CapError) → same_cap_error e e ≡ true
unfolding same_cap_error
same_cap_error_refl (unknown_object a) = ground arith
same_cap_error_refl (revoked a) = ground arith
same_cap_error_refl (insufficient_rights o h r) = ground arith
same_cap_error_refl (cannot_amplify o h r) = ground arith

pub same_memory_error_refl : (e : MemoryError) → same_memory_error e e ≡ true
unfolding same_memory_error
same_memory_error_refl (unknown_region a) = ground arith
same_memory_error_refl (out_of_bounds o s l n) = ground arith
same_memory_error_refl (capability e) = same_cap_error_refl e

pub same_numbers_refl : (xs : List ℕ) → same_numbers xs xs ≡ true
unfolding same_numbers
same_numbers_refl [] = refl
same_numbers_refl (x ∷ xs) = ground (arith, same_numbers_refl xs)

pub same_result_refl {ℓ κ} :
    {E : Type ℓ} {A : Type κ} (same_err : E → E → Bool) (same_ok : A → A → Bool)
    → ((e : E) → same_err e e ≡ true)
    → ((a : A) → same_ok a a ≡ true)
    → (r : Result E A) → same_result same_err same_ok r r ≡ true
same_result_refl same_err same_ok f g (ok a) = g a
same_result_refl same_err same_ok f g (err e) = f e
same_result_refl same_err same_ok f g panic = refl

-- What `==` finds equal is equal.
pub same_numbers-eq : (xs ys : List ℕ) → same_numbers xs ys ≡ true → xs ≡ ys
unfolding same_numbers
same_numbers-eq [] [] h = refl
same_numbers-eq [] (y ∷ ys) h = cc
same_numbers-eq (x ∷ xs) [] h = cc
same_numbers-eq (x ∷ xs) (y ∷ ys) h =
    let first : x ≡ y = ground arith in
    let rest = same_numbers-eq xs ys (ground arith) in ap (λ a. a ∷ xs) first ∙ ap (λ l. y ∷ l) rest

pub same_cap_error-eq : (e f : CapError) → same_cap_error e f ≡ true → e ≡ f
unfolding same_cap_error
same_cap_error-eq (unknown_object a) (unknown_object b) h = ground arith
same_cap_error-eq (revoked a) (revoked b) h = ground arith
same_cap_error-eq (insufficient_rights o x r) (insufficient_rights o' x' r') h = ground arith
same_cap_error-eq (cannot_amplify o x r) (cannot_amplify o' x' r') h = ground arith
same_cap_error-eq _ _ h = cc

pub same_result-eq {ℓ κ} :
    {E : Type ℓ} {A : Type κ} (same_err : E → E → Bool) (same_ok : A → A → Bool)
    → ((e f : E) → same_err e f ≡ true → e ≡ f)
    → ((a b : A) → same_ok a b ≡ true → a ≡ b)
    → (r s : Result E A) → same_result same_err same_ok r s ≡ true
    → r ≡ s
same_result-eq same_err same_ok f g (ok a) (ok b) h = ap ok (g a b h)
same_result-eq same_err same_ok f g (err e) (err e') h = ap err (f e e' h)
same_result-eq same_err same_ok f g panic panic h = refl
same_result-eq same_err same_ok f g _ _ h = cc
