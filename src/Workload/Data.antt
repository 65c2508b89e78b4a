-- ===== src/Workload/Data.antt =====
-- crates/workload/src/data.rs: the work that a pipeline does on the bytes of a batch.
pub mod Transform
use muaddib.Prelude.{ℕ, zero, suc, ◌+◌, ◌*◌, ◌/◌, ◌%◌, List, [], ◌∷◌, replicate, bit_xor, u64_mod}
use muaddib.Workload.Rng.{fill}
use muaddib.Workload.Rng

unfoldable pub fill_batch : ℕ → ℕ → List ℕ → List ℕ
unfolding fill
fill_batch seed batch buf =
    (fill (Rng.new (bit_xor seed (batch * 0xD6E8FEB86659FD93 % u64_mod))) buf).1

-- `u8::rotate_left(3)`.
unfoldable pub rotate_left : ℕ → ℕ
rotate_left acc = (acc * 8) % 256 + acc / 32

abbrev pub stage_key : ℕ → ℕ
stage_key stage = (stage % 256 * 0x9D % 256 + 0x3B) % 256

-- The loop of `transform`, with the accumulator.
unfoldable pub transform_loop : ℕ → ℕ → List ℕ → List ℕ
unfolding rotate_left
transform_loop key acc [] = []
transform_loop key acc (byte ∷ buf) =
    let acc' = bit_xor (rotate_left acc) byte in (acc' + key) % 256 ∷ transform_loop key acc' buf

unfoldable pub transform : ℕ → List ℕ → List ℕ
unfolding transform_loop
transform stage buf = transform_loop (stage_key stage) (stage_key stage) buf

abbrev pub checksum_from : ℕ → List ℕ → ℕ
checksum_from h [] = h
checksum_from h (b ∷ buf) = checksum_from (bit_xor h b * 0x100000001B3 % u64_mod) buf

unfoldable pub checksum : List ℕ → ℕ
checksum buf = checksum_from 0xCBF29CE484222325 buf

-- The stages from `0` up to `n`, in this order.
unfoldable pub transforms : ℕ → List ℕ → List ℕ
unfolding transform
transforms zero buf = buf
transforms (suc n) buf = transform n (transforms n buf)

unfoldable pub reference_checksum : ℕ → ℕ → ℕ → ℕ → ℕ
unfolding fill_batch transforms checksum
reference_checksum seed batch region_size stages =
    checksum (transforms stages (fill_batch seed batch (replicate region_size 0)))
