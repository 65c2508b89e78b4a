-- ===== src/Workload/Data/Transform.antt =====
-- crates/workload/src/data.rs: `transform` on two buffers.
use muaddib.Prelude.{ℕ, ◌<◌, ◌≡◌, refl, List, [], ◌∷◌, length, All, arith, bit_xor}
use muaddib.Prelude.Xor.{bit_xor_lt, bit_xor_cancel}
use muaddib.Workload.Data.{transform, transform_loop, rotate_left}

abbrev pub IsByte : ℕ → Type 0
IsByte b = b < 256

rotate_left-IsByte : (acc : ℕ) → acc < 256 → rotate_left acc < 256
unfolding rotate_left
rotate_left-IsByte acc h = omega arith

length-transform_loop :
    (key acc : ℕ) (buf : List ℕ) → length (transform_loop key acc buf) ≡ length buf
unfolding transform_loop
length-transform_loop key acc [] = refl
length-transform_loop key acc (b ∷ buf) =
    omega (arith, length-transform_loop key (bit_xor (rotate_left acc) b) buf)

pub length-transform : (stage : ℕ) (buf : List ℕ) → length (transform stage buf) ≡ length buf
unfolding transform
length-transform stage buf = length-transform_loop _ _ buf

head_of : {x y : ℕ} {xs ys : List ℕ} → ◌≡◌ {A = List ℕ} (x ∷ xs) (y ∷ ys) → (x ≡ y) × (xs ≡ ys)
head_of h = (cc, cc)

loop-injective :
    (key acc : ℕ) (xs ys : List ℕ)
    → acc < 256
    → All IsByte xs
    → All IsByte ys
    → transform_loop key acc xs ≡ transform_loop key acc ys
    → xs ≡ ys
unfolding transform_loop
loop-injective key acc [] [] l hx hy h = refl
loop-injective key acc [] (y ∷ ys) l hx hy h = cc
loop-injective key acc (x ∷ xs) [] l hx hy h = cc
loop-injective key acc (x ∷ xs) (y ∷ ys) l hx hy h =
    let (heads, tails) = head_of h in
    let rotated = rotate_left-IsByte acc l in
    let bx = bit_xor_lt 8 (rotate_left acc) x rotated hx.0 in
    let by = bit_xor_lt 8 (rotate_left acc) y rotated hy.0 in
    let same : bit_xor (rotate_left acc) x ≡ bit_xor (rotate_left acc) y = omega arith in
    let first : x ≡ y = bit_xor_cancel (rotate_left acc) x y same in
    let rest : xs ≡ ys =
      loop-injective key (bit_xor (rotate_left acc) x) xs ys bx hx.1 hy.1 (rw (← same) at tails) in
    cc

-- Two buffers of bytes that a stage makes equal were equal.
pub transform-injective :
    (stage : ℕ) (xs ys : List ℕ)
    → All IsByte xs
    → All IsByte ys
    → transform stage xs ≡ transform stage ys
    → xs ≡ ys
unfolding transform
transform-injective stage xs ys hx hy h = loop-injective _ _ xs ys (omega arith) hx hy h
