-- ===== src/Workload/Rng.antt =====
-- crates/workload/src/rng.rs: the pseudo-random numbers of the workloads.
pub mod Words
pub mod Fill
use muaddib.Prelude.{
  ℕ, zero, suc, ◌+◌, ◌*◌, ◌/◌, ◌%◌, ◌^◌, min, Bool, List, [], ◌∷◌, ◌++◌, length, take, drop, ltb,
  bit_xor, u64_mod, Result, ok, err, panic, if◌then◌else◌,
}

pub record SplitMix64 : Type 0 where
  pub state : ℕ

abbrev pub new : ℕ → SplitMix64
new seed = record { state = seed }

-- `z ^ (z >> k)`.
unfoldable pub xor_shift : ℕ → ℕ → ℕ
xor_shift k z = bit_xor z (z / 2 ^ k)

-- What the three rounds make of a state.
unfoldable pub mix : ℕ → ℕ
unfolding xor_shift
mix state =
    let z = xor_shift 30 state * 0xBF58476D1CE4E5B9 % u64_mod in
    xor_shift 31 (xor_shift 27 z * 0x94D049BB133111EB % u64_mod)

unfoldable pub next_u64 : SplitMix64 → SplitMix64 × ℕ
unfolding mix
next_u64 r =
    let state = (r.state + 0x9E3779B97F4A7C15) % u64_mod in (record { state = state }, mix state)

-- `assert!(n > 0)` panics at 0.
unfoldable pub below : SplitMix64 → ℕ → Result ⊥ (SplitMix64 × ℕ)
unfolding next_u64
below r zero = panic
below r (suc n) = let (r', z) = next_u64 r in ok (r', z * suc n / 2 ^ 64)

unfoldable pub percent : SplitMix64 → ℕ → SplitMix64 × Bool
unfolding next_u64
percent r p = let (r', z) = next_u64 r in (r', ltb (z % 100) p)

-- `n` bytes of a number, the lowest first.
unfoldable pub le_bytes : ℕ → ℕ → List ℕ
le_bytes zero z = []
le_bytes (suc n) z = z % 256 ∷ le_bytes n (z / 256)

-- The loop over the chunks of eight bytes, of which there are at most `fuel`.
unfoldable pub fill_chunks : ℕ → SplitMix64 → List ℕ → SplitMix64 × List ℕ
unfolding next_u64 le_bytes
fill_chunks zero r buf = (r, buf)
fill_chunks (suc fuel) r [] = (r, [])
fill_chunks (suc fuel) r (b ∷ buf) =
    let (r', z) = next_u64 r in
    let (r'', rest) = fill_chunks fuel r' (drop 8 (b ∷ buf)) in
    (r'', take (min 8 (length (b ∷ buf))) (le_bytes 8 z) ++ rest)

-- A buffer has at most as many chunks as bytes.
unfoldable pub fill : SplitMix64 → List ℕ → SplitMix64 × List ℕ
unfolding fill_chunks
fill r buf = fill_chunks (length buf) r buf
