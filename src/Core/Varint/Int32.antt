-- ===== src/Core/Varint/Int32.antt =====
-- A negative int32_t is written in ten bytes, of which the unpack function reads six.
use protobluff.Common.{
  ℕ, ◌+◌, ◌-◌, ◌*◌, ◌%◌, ◌^◌, ◌≤◌, ◌<◌, ◌≡◌, ap, ◌∙◌, arith, bit_or, List, ◌∷◌, ◌++◌, length, IsU32,
  shl,
}
use native.Mathlib.Decide.{dec_lt}
use protobluff.Common.Bits.{bit_or_disjoint}
use protobluff.Core.Types.{ok, ◌>>=◌}
use protobluff.Core.Varint.{
  pack_int32, pack_uint32, unpack_uint32, unpack_int32, negative_size, byte_at, unpack_rounds,
  group, result,
}
use protobluff.Core.Varint.Base128.{all_groups, top_bit, negative_bytes, pack_int32_positive}
use protobluff.Core.Varint.Base128.{pack_uint32-base128}
use protobluff.Core.Varint.RoundTrip.{
  enter_inner, enter_first, Reads, length-base128_pos, unpack-pack_uint32,
}

fifth_byte :
    (t b : ℕ) (d : List ℕ) (left : ℕ)
    → t < 2 ^ 28
    → 128 ≤ b
    → b < 256
    → (unpack_rounds 32 0 b d 5 left (bit_or t (shl 32 (group 0 b) 28)) >>= λ s. ok (result s))
      ≡ ok (0, t + b % 16 * 2 ^ 28)
unfolding unpack_rounds group result
fifth_byte t b d left h k l =
    let e : shl 32 b 28 ≡ b % 16 * 2 ^ 28 = omega arith in
    rw (e, bit_or_disjoint 28 t (b % 16) h) (ground (arith, top_bit b))

-- Four bytes with the top bit over groups, and a fifth with the top bit: `pb_varint_unpack_uint32`
-- fails, and leaves the low 32 bits in `*value`.
five_bytes :
    (g h i j b : ℕ) (d : List ℕ) (left : ℕ)
    → g < 128
    → h < 128
    → i < 128
    → j < 128
    → 128 ≤ b
    → b < 256
    → 5 ≤ left
    → left < 2 ^ 64
    → unpack_uint32 ((g + 128) ∷ (h + 128) ∷ (i + 128) ∷ (j + 128) ∷ b ∷ d) left
      ≡ ok (0, g + h * 2 ^ 7 + i * 2 ^ 14 + j * 2 ^ 21 + b % 16 * 2 ^ 28)
unfolding unpack_uint32
five_bytes g h i j b d left hg hh hi hj hb hb' l m = rw (enter_first 32 3 _ left (omega arith)) (
    rw (enter_inner 32 3 g d₁ 0 left 0 hg (omega arith) (omega arith) (omega arith) m) (
      rw
        (enter_inner 32 2 h d₂ 1 (left - 1) (0 + g * 2 ^ 0) hh (omega arith) (omega arith)
          (omega arith) (omega arith))
        (rw
          (enter_inner 32 1 i d₃ 2 (left - 1 - 1) (0 + g * 2 ^ 0 + h * 2 ^ 7) hi (omega arith)
            (omega arith) (omega arith) (omega arith))
          (rw
            (enter_inner 32 0 j (b ∷ d) 3 (left - 1 - 1 - 1)
              (0 + g * 2 ^ 0 + h * 2 ^ 7 + i * 2 ^ 14) hj (omega arith) (omega arith) (omega arith)
              (omega arith))
            (fifth_byte _ b d (left - 1 - 1 - 1 - 1) (omega arith) hb hb'
              ∙ ap (λ t. ok (0, t)) (omega arith))))))
  where
    d₃ : List ℕ
    d₃ = (j + 128) ∷ b ∷ d

    d₂ : List ℕ
    d₂ = (i + 128) ∷ d₃

    d₁ : List ℕ
    d₁ = (h + 128) ∷ d₂

-- The test of the fifth and sixth byte.
negative_size_lem :
    (a b c d e : ℕ) (rest : List ℕ)
    → 128 ≤ e
    → e < 256
    → negative_size (a ∷ b ∷ c ∷ d ∷ e ∷ 0xFF ∷ rest) ≡ ok 10
unfolding negative_size byte_at
negative_size_lem a b c d e rest h k = ground (arith, top_bit e)

six_bytes :
    (g h i j b c : ℕ) (d : List ℕ) (left : ℕ)
    → g < 128
    → h < 128
    → i < 128
    → j < 128
    → 128 ≤ b
    → b < 256
    → c ≡ 0xFF
    → 5 ≤ left
    → left < 2 ^ 64
    → unpack_int32 ((g + 128) ∷ (h + 128) ∷ (i + 128) ∷ (j + 128) ∷ b ∷ c ∷ d) left
      ≡ ok (10, g + h * 2 ^ 7 + i * 2 ^ 14 + j * 2 ^ 21 + b % 16 * 2 ^ 28)
unfolding unpack_int32
six_bytes g h i j b c d left hg hh hi hj hb hb' hc l m = rw hc (
    rw (five_bytes g h i j b (0xFF ∷ d) left hg hh hi hj hb hb' l m)
      (rw (negative_size_lem (g + 128) (h + 128) (i + 128) (j + 128) b d hb hb')))

unpack-negative_bytes :
    (v : ℕ) (rest : List ℕ) (left : ℕ)
    → IsU32 v
    → 2 ^ 31 ≤ v
    → 10 ≤ left
    → left < 2 ^ 64
    → unpack_int32 (all_groups 9 (v + (2 ^ 64 - 2 ^ 32)) ++ rest) left ≡ ok (10, v)
unpack-negative_bytes v rest left h k l m =
    six_bytes _ _ _ _ _ _ _ left (omega arith) (omega arith) (omega arith) (omega arith)
      (omega arith) (omega arith) (omega arith) (omega arith) m
    ∙ ap (λ u. ok (10, u)) (omega arith)

-- Where the uint32_t is read, its size and value are the answer.
positive :
    (block : List ℕ) (left size v : ℕ)
    → 0 < size
    → unpack_uint32 block left ≡ ok (size, v)
    → unpack_int32 block left ≡ ok (size, v)
unfolding unpack_int32
positive block left size v h e = rw e (ground arith)

length-pack_uint32_pos : (v : ℕ) → IsU32 v → 0 < length (pack_uint32 v)
length-pack_uint32_pos v h = rw (pack_uint32-base128 v h) (length-base128_pos 4 v)

pub unpack-pack_int32 : (v : ℕ) → IsU32 v → Reads unpack_int32 (pack_int32 v) v
unpack-pack_int32 v h rest left k l = elim (dec_lt v (2 ^ 31)) [
  | yes p ↦
      let e = pack_int32_positive v p in
      rw e (
        positive (pack_uint32 v ++ rest) left (length (pack_uint32 v)) v
          (omega (arith, length-pack_uint32_pos v h))
          (unpack-pack_uint32 v h rest left (omega (arith, ap length e)) l))
  | no p ↦
      let e = negative_bytes v h (omega arith) in
      rw e (unpack-negative_bytes v rest left h (omega arith) (omega (arith, ap length e)) l)
]
