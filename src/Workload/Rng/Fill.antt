-- ===== src/Workload/Rng/Fill.antt =====
-- crates/workload/src/rng.rs: `fill`.
use muaddib.Prelude.{
  ℕ, zero, suc, ◌-◌, ◌/◌, ◌%◌, ◌≤◌, ◌≡◌, refl, none, List, [], ◌∷◌, length, take, drop, get_elem?,
  arith, ltb, if◌then◌else◌, min, length-take, length-drop, get_elem?-append, get_elem?-take,
  length-append, eq_of_get_elem?, Bool-cases, inl, inr,
}
use muaddib.Workload.Rng.{SplitMix64, next_u64, le_bytes, fill, fill_chunks}

-- The number that the generator returns after `n` others.
unfoldable pub nth_u64 : SplitMix64 → ℕ → ℕ
nth_u64 r zero = (next_u64 r).1
nth_u64 r (suc n) = nth_u64 (next_u64 r).0 n

length-le_bytes : (n z : ℕ) → length (le_bytes n z) ≡ n
unfolding le_bytes
length-le_bytes zero z = refl
length-le_bytes (suc n) z = omega (arith, length-le_bytes n (z / 256))

fill_chunks_at :
    (fuel : ℕ) (r : SplitMix64) (buf : List ℕ) (i : ℕ)
    → length buf ≤ fuel
    → get_elem? (fill_chunks fuel r buf).1 i
      ≡ (if ltb i (length buf) then get_elem? (le_bytes 8 (nth_u64 r (i / 8))) (i % 8) else none)
unfolding fill_chunks nth_u64
fill_chunks_at zero r [] i h = ground arith
fill_chunks_at zero r (b ∷ buf) i h = absurd (omega arith)
fill_chunks_at (suc fuel) r [] i h = ground arith
fill_chunks_at (suc fuel) r (b ∷ buf) i h =
    let chunk = min 8 (length (b ∷ buf)) in
    let bytes = le_bytes 8 (next_u64 r).1 in
    let rest = (fill_chunks fuel (next_u64 r).0 (drop 8 (b ∷ buf))).1 in
    let full : length (take chunk bytes) ≡ chunk =
      length-take chunk bytes (omega (arith, length-le_bytes 8 (next_u64 r).1)) in
    let split = get_elem?-append (take chunk bytes) rest i in
    let left = length-drop 8 (b ∷ buf) in
    elim (Bool-cases (ltb i 8)) [
      | inl low ↦
          let q : i / 8 ≡ 0 = ground arith in
          let m : i % 8 ≡ i = ground arith in
          let empty =
            fill_chunks_at fuel (next_u64 r).0 (drop 8 (b ∷ buf)) (i - chunk) (omega arith) in
          rw (q, m) (ground (arith, split, full, empty, left, get_elem?-take chunk bytes i))
      | inr high ↦
          let q : i / 8 ≡ suc ((i - 8) / 8) = ground arith in
          let m : i % 8 ≡ (i - 8) % 8 = ground arith in
          let later =
            fill_chunks_at fuel (next_u64 r).0 (drop 8 (b ∷ buf)) (i - chunk) (omega arith) in
          rw (q, m) (ground (arith, split, full, later, left, get_elem?-take chunk bytes i))
    ]

-- The bytes of `fill` are those of the generator's numbers, the lowest first, eight of each; the
-- buffer keeps its length, and what it held does not matter.
pub fill_at :
    (r : SplitMix64) (buf : List ℕ) (i : ℕ)
    → get_elem? (fill r buf).1 i
      ≡ (if ltb i (length buf) then get_elem? (le_bytes 8 (nth_u64 r (i / 8))) (i % 8) else none)
unfolding fill
fill_at r buf i = fill_chunks_at (length buf) r buf i (omega arith)

length-fill_chunks :
    (fuel : ℕ) (r : SplitMix64) (buf : List ℕ) → length (fill_chunks fuel r buf).1 ≡ length buf
unfolding fill_chunks
length-fill_chunks zero r buf = refl
length-fill_chunks (suc fuel) r [] = refl
length-fill_chunks (suc fuel) r (b ∷ buf) =
    let chunk = min 8 (length (b ∷ buf)) in
    let bytes = le_bytes 8 (next_u64 r).1 in
    let full : length (take chunk bytes) ≡ chunk =
      length-take chunk bytes (omega (arith, length-le_bytes 8 (next_u64 r).1)) in
    omega (
      arith,
      full,
      length-append (take chunk bytes) (fill_chunks fuel (next_u64 r).0 (drop 8 (b ∷ buf))).1,
      length-fill_chunks fuel (next_u64 r).0 (drop 8 (b ∷ buf)),
      length-drop 8 (b ∷ buf),
    )

pub length-fill : (r : SplitMix64) (buf : List ℕ) → length (fill r buf).1 ≡ length buf
unfolding fill
length-fill r buf = length-fill_chunks (length buf) r buf

-- Two buffers of the same length are filled alike.
pub fill_same :
    (r : SplitMix64) (xs ys : List ℕ) → length xs ≡ length ys → (fill r xs).1 ≡ (fill r ys).1
fill_same r xs ys h = eq_of_get_elem? _ _ λ i. ground (arith, fill_at r xs i, fill_at r ys i)
