-- ===== src/Core/Varint/Zigzag.antt =====
-- Zig-zag encoding: the signed values in the order 0, -1, 1, -2, … as 0, 1, 2, 3, …
use protobluff.Common.{ℕ, ◌-◌, ◌*◌, ◌/◌, ◌%◌, ◌^◌, ◌<◌, ◌≡◌, arith, ltb, ◌==◌, if◌then◌else◌}
use native.Mathlib.Decide.{dec_lt}
use protobluff.Common.Bits.{bit_and_mask, bit_xor_ones, bit_xor-zero}
use protobluff.Core.Varint.{zigzag, unzigzag}

-- The code of an int32_t in plain arithmetic.
pub zigzag32_lem :
    (v : ℕ) → v < 2 ^ 32 → zigzag 32 v ≡ (if ltb v (2 ^ 31) then 2 * v else 2 ^ 33 - 1 - 2 * v)
unfolding zigzag
zigzag32_lem v h = elim (dec_lt v (2 ^ 31)) [
  | yes p ↦ ground (arith, bit_xor-zero (2 * v))
  | no p ↦ ground (arith, bit_xor_ones 32 (2 * v - 2 ^ 32))
]

pub zigzag64_lem :
    (v : ℕ) → v < 2 ^ 64 → zigzag 64 v ≡ (if ltb v (2 ^ 63) then 2 * v else 2 ^ 65 - 1 - 2 * v)
unfolding zigzag
zigzag64_lem v h = elim (dec_lt v (2 ^ 63)) [
  | yes p ↦ ground (arith, bit_xor-zero (2 * v))
  | no p ↦ ground (arith, bit_xor_ones 64 (2 * v - 2 ^ 64))
]

unzigzag32_lem :
    (t : ℕ) → t < 2 ^ 32 → unzigzag 32 t ≡ (if t % 2 == 0 then t / 2 else 2 ^ 32 - 1 - t / 2)
unfolding unzigzag
unzigzag32_lem t h = elim (dec_lt (t % 2) 1) [
  | yes p ↦ ground (arith, bit_and_mask 1 t, bit_xor-zero (t / 2))
  | no p ↦ ground (arith, bit_and_mask 1 t, bit_xor_ones 32 (t / 2))
]

unzigzag64_lem :
    (t : ℕ) → t < 2 ^ 64 → unzigzag 64 t ≡ (if t % 2 == 0 then t / 2 else 2 ^ 64 - 1 - t / 2)
unfolding unzigzag
unzigzag64_lem t h = elim (dec_lt (t % 2) 1) [
  | yes p ↦ ground (arith, bit_and_mask 1 t, bit_xor-zero (t / 2))
  | no p ↦ ground (arith, bit_and_mask 1 t, bit_xor_ones 64 (t / 2))
]

-- The code of an int32_t is a uint32_t, from which `unzigzag` recovers it.
pub unzigzag-zigzag32 :
    (v : ℕ) → v < 2 ^ 32 → (zigzag 32 v < 2 ^ 32) × (unzigzag 32 (zigzag 32 v) ≡ v)
unzigzag-zigzag32 v h = elim (dec_lt v (2 ^ 31)) [
  | yes p ↦ ground (arith, zigzag32_lem v h, unzigzag32_lem (2 * v))
  | no p ↦ ground (arith, zigzag32_lem v h, unzigzag32_lem (2 ^ 33 - 1 - 2 * v))
]

pub unzigzag-zigzag64 :
    (v : ℕ) → v < 2 ^ 64 → (zigzag 64 v < 2 ^ 64) × (unzigzag 64 (zigzag 64 v) ≡ v)
unzigzag-zigzag64 v h = elim (dec_lt v (2 ^ 63)) [
  | yes p ↦ ground (arith, zigzag64_lem v h, unzigzag64_lem (2 * v))
  | no p ↦ ground (arith, zigzag64_lem v h, unzigzag64_lem (2 ^ 65 - 1 - 2 * v))
]
