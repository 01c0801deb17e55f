-- ===== src/Core/Varint/RoundTrip.antt =====
-- What the unpack functions read from what the pack functions wrote.
use protobluff.Common.{
  ℕ, zero, suc, ◌+◌, ◌-◌, ◌*◌, ◌/◌, ◌%◌, ◌^◌, ◌≤◌, ◌<◌, ◌≡◌, refl, ap, ◌∙◌, arith, bit_and, bit_or,
  List, [], ◌∷◌, ◌++◌, length, shl, sub_size,
}
use native.Mathlib.Decide.{dec_lt}
use native.Mathlib.Nat.{pow-suc, mod-eq_of_lt, div-add-mod}
use native.Mathlib.Numerals.{towards_suc}
use protobluff.Common.Bits.{bit_or_disjoint}
use protobluff.Core.Types.{Outcome, ok, fault, ◌>>=◌}
use protobluff.Core.Varint.{group, unpack_rounds, result, unpack_width, Stop}
use protobluff.Common.{IsU32, IsU64}
use protobluff.Core.Varint.{pack_uint32, pack_uint64, unpack_uint32, unpack_uint64}
use protobluff.Core.Varint.Base128.{pack_uint32-base128, pack_uint64-base128}
use protobluff.Core.Varint.Base128.{base128, base128_small, base128_large, low_bits, top_bit}

-- Reading the byte at `d`, then the `n` tests behind it.
abbrev pub enter : ℕ → ℕ → List ℕ → ℕ → ℕ → ℕ → Outcome Stop
enter w n [] size left temp = fault
enter w n (c ∷ d) size left temp =
    unpack_rounds w n c d (size + 1) left (bit_or temp (shl w (group n c) (7 * size)))

rounds_last :
    (w n b : ℕ) (d : List ℕ) (size left temp : ℕ)
    → b < 128
    → unpack_rounds w n b d size left temp
      ≡ ok (record { last = b; read = size; left = left; temp = temp })
unfolding unpack_rounds
rounds_last w zero b d size left temp h = refl
rounds_last w (suc n) b [] size left temp h = ground (arith, top_bit b)
rounds_last w (suc n) b (c ∷ d) size left temp h = ground (arith, top_bit b)

rounds_next :
    (w n b : ℕ) (d : List ℕ) (size left temp : ℕ)
    → 128 ≤ b
    → b < 256
    → 2 ≤ left
    → left < 2 ^ 64
    → unpack_rounds w (suc n) b d size left temp ≡ enter w n d size (left - 1) temp
unfolding unpack_rounds
rounds_next w n b [] size left temp h k l m = ground (arith, top_bit b)
rounds_next w n b (c ∷ d) size left temp h k l m =
    let e : sub_size left 1 ≡ left - 1 = omega arith in rw e (ground (arith, top_bit b))

seven_more : (s : ℕ) → 2 ^ (7 * (s + 1)) ≡ 128 * 2 ^ (7 * s)
seven_more s =
    let e : 7 * (s + 1) ≡ 7 * s + 7 = omega arith in rw e (simp towards_suc (omega arith))

-- `temp |= g << k` is a sum.
pub add_group :
    (w g k temp : ℕ)
    → temp < 2 ^ k
    → temp + g * 2 ^ k < 2 ^ w
    → bit_or temp (shl w g k) ≡ temp + g * 2 ^ k
add_group w g k temp h l =
    let fits : shl w g k ≡ g * 2 ^ k = mod-eq_of_lt (omega arith) in
    rw fits (bit_or_disjoint k temp g h)

group_small : (n b : ℕ) → b < 128 → group n b ≡ b
unfolding group
group_small zero b h = refl
group_small (suc n) b h = omega (arith, low_bits b)

-- The lowest group of `u` and the rest, both shifted by `7 * s`.
pub split_group : (u s : ℕ) → u * 2 ^ (7 * s) ≡ u % 128 * 2 ^ (7 * s) + u / 128 * 2 ^ (7 * (s + 1))
split_group u s = omega (
  arith,
  ap (λ (t : ℕ). t * 2 ^ (7 * s)) (div-add-mod u 128),
  ap (λ (t : ℕ). u / 128 * t) (seven_more s),
)

result_last :
    (b size left temp : ℕ)
    → b < 128
    → 0 < left
    → result (record { last = b; read = size; left = left; temp = temp }) ≡ (size, temp)
unfolding result
result_last b size left temp h l = ground (arith, top_bit b)

-- A last byte.
enter_last :
    (w n u : ℕ) (rest : List ℕ) (size left temp : ℕ)
    → u < 128
    → temp < 2 ^ (7 * size)
    → temp + u * 2 ^ (7 * size) < 2 ^ w
    → 0 < left
    → (enter w n (u ∷ rest) size left temp >>= λ s. ok (result s))
      ≡ ok (size + 1, temp + u * 2 ^ (7 * size))
enter_last w n u rest size left temp h k l m =
    rw (group_small n u h, add_group w u (7 * size) temp k l)
      (rw (rounds_last w n u rest (size + 1) left (temp + u * 2 ^ (7 * size)) h)
        (ap ok (result_last u (size + 1) left _ h m)))

-- A byte with the top bit over the group `g`, when there is more.
pub enter_inner :
    (w n g : ℕ) (rest : List ℕ) (size left temp : ℕ)
    → g < 128
    → temp < 2 ^ (7 * size)
    → temp + g * 2 ^ (7 * size) < 2 ^ w
    → 2 ≤ left
    → left < 2 ^ 64
    → enter w (suc n) ((g + 128) ∷ rest) size left temp
      ≡ enter w n rest (size + 1) (left - 1) (temp + g * 2 ^ (7 * size))
unfolding group
enter_inner w n g rest size left temp h k l m o =
    let low : bit_and (g + 128) 0x7F ≡ g = omega (arith, low_bits (g + 128)) in
    rw (low, add_group w g (7 * size) temp k l)
      (rounds_next w n (g + 128) rest (size + 1) left _ (omega arith) (omega arith) m o)

pub length-base128_pos : (n u : ℕ) → 0 < length (base128 n u)
unfolding base128
length-base128_pos zero u = omega arith
length-base128_pos (suc n) u = ground arith

group_fits : (s g : ℕ) → g < 128 → g * 2 ^ (7 * s) ≤ 127 * 2 ^ (7 * s)
group_fits s g h = grind arith

-- `u` is what is still to be read, and counts from bit `7 * size` on.
enter-base128 :
    (w n u : ℕ) (rest : List ℕ) (size left temp : ℕ)
    → u < 128 * 128 ^ n
    → temp < 2 ^ (7 * size)
    → temp + u * 2 ^ (7 * size) < 2 ^ w
    → length (base128 n u) ≤ left
    → left < 2 ^ 64
    → (enter w n (base128 n u ++ rest) size left temp >>= λ s. ok (result s))
      ≡ ok (size + length (base128 n u), temp + u * 2 ^ (7 * size))
enter-base128 w zero u rest size left temp h k l m o =
    rw (base128_small 0 u (omega arith)) (
      enter_last w 0 u rest size left temp (omega arith) k l
        (omega (arith, length-base128_pos 0 u)))
enter-base128 w (suc n) u rest size left temp h k l m o = elim (dec_lt u 128) [
  | yes small ↦ rw (base128_small (suc n) u small) (
      enter_last w (suc n) u rest size left temp small k l
        (omega (arith, length-base128_pos (suc n) u)))
  | no large ↦
      let len : length (base128 (suc n) u) ≡ suc (length (base128 n (u / 128))) =
        ap length (base128_large n u (omega arith)) in
      let sum : temp + u % 128 * 2 ^ (7 * size) + u / 128 * 2 ^ (7 * (size + 1))
          ≡ temp + u * 2 ^ (7 * size) =
        omega (arith, split_group u size) in
      rw (base128_large n u (omega arith)) (
        rw
          (enter_inner w n (u % 128) (base128 n (u / 128) ++ rest) size left temp (omega arith) k
            (omega (arith, split_group u size)) (omega (arith, length-base128_pos n (u / 128))) o)
          (enter-base128 w n (u / 128) rest (size + 1) (left - 1) (temp + u % 128 * 2 ^ (7 * size))
              (omega (arith, pow-suc 128 n))
              (omega (arith, seven_more size, group_fits size (u % 128) (omega arith)))
              (omega (arith, split_group u size)) (omega arith) (omega arith)
            ∙ ground arith))
]

-- An unpack function starts with the first byte, at no number and no bits.
pub enter_first :
    (w n : ℕ) (block : List ℕ) (left : ℕ)
    → 128 ≤ 2 ^ w
    → unpack_width w (suc n) block left ≡ (enter w (suc n) block 0 left 0 >>= λ s. ok (result s))
unfolding unpack_width group
enter_first w n [] left h = refl
enter_first w n (b ∷ d) left h =
    let first : bit_or 0 (shl w (bit_and b 0x7F) (7 * 0)) ≡ bit_and b 0x7F =
      add_group w (bit_and b 0x7F) 0 0 (omega arith) (omega (arith, low_bits b)) ∙ omega arith in
    rw first refl

pub unpack_width-base128 :
    (w n u : ℕ) (rest : List ℕ) (left : ℕ)
    → 128 ≤ 2 ^ w
    → u < 128 * 128 ^ suc n
    → u < 2 ^ w
    → length (base128 (suc n) u) ≤ left
    → left < 2 ^ 64
    → unpack_width w (suc n) (base128 (suc n) u ++ rest) left ≡ ok (length (base128 (suc n) u), u)
unpack_width-base128 w n u rest left h k l m o =
    rw (enter_first w n (base128 (suc n) u ++ rest) left h)
      (enter-base128 w (suc n) u rest 0 left 0 k (omega arith) (omega arith) m o ∙ ground arith)

-- `f` reads `v` from the bytes `p`, whatever follows them, and takes them all.
abbrev pub Reads : (List ℕ → ℕ → Outcome (ℕ × ℕ)) → List ℕ → ℕ → Type 0
Reads f p v =
    (rest : List ℕ) (left : ℕ)
    → length p ≤ left
    → left < 2 ^ 64
    → f (p ++ rest) left ≡ ok (length p, v)

pub unpack-pack_uint32 : (v : ℕ) → IsU32 v → Reads unpack_uint32 (pack_uint32 v) v
unfolding unpack_uint32
unpack-pack_uint32 v h rest left k l =
    let e = pack_uint32-base128 v h in
    rw e (
      unpack_width-base128 32 3 v rest left (omega arith) (omega arith) h
        (omega (arith, ap length e)) l)

pub unpack-pack_uint64 : (v : ℕ) → IsU64 v → Reads unpack_uint64 (pack_uint64 v) v
unfolding unpack_uint64
unpack-pack_uint64 v h rest left k l =
    let e = pack_uint64-base128 v h in
    rw e (
      unpack_width-base128 64 8 v rest left (omega arith) (omega arith) h
        (omega (arith, ap length e)) l)
