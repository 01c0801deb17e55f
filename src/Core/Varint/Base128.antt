-- ===== src/Core/Varint/Base128.antt =====
-- Base 128, lowest group first, as plain arithmetic: what the pack functions write.
use protobluff.Common.{
  ℕ, zero, suc, ◌+◌, ◌-◌, ◌*◌, ◌/◌, ◌%◌, ◌^◌, ◌≤◌, ◌<◌, ◌≡◌, refl, ap, arith, bit_and, bit_or, List,
  [], ◌∷◌, ltb, if◌then◌else◌, IsU32, IsU64, u8, shr,
}
use native.Mathlib.Decide.{dec_lt}
use native.Mathlib.Nat.{pow-suc, one-le-pow}
use protobluff.Common.Bits.{bit_and_mask, bit_and_shifted, bit_or_shifted, bit_or-one}
use protobluff.Core.Varint.{pack_rounds, pack_uint32, pack_uint64, pack_int32}
use protobluff.Core.Varint.{int32_byte}

-- The groups of `v`, for `v` below `128 ^ (k + 1)`.
unfoldable pub base128 : ℕ → ℕ → List ℕ
base128 zero v = v ∷ []
base128 (suc k) v =
    let more = (v % 128 + 128) ∷ base128 k (v / 128) in if ltb v 128 then v ∷ [] else more

pub low_bits : (b : ℕ) → bit_and b 0x7F ≡ b % 128
low_bits b = bit_and_mask 7 b

pub top_bit : (b : ℕ) → bit_and b 0x80 ≡ b / 128 % 2 * 128
top_bit b = omega (arith, bit_and_shifted 7 b 1, bit_and_mask 1 (b / 128))

pub set_top_bit : (t : ℕ) → u8 (bit_or t 0x80) ≡ t % 128 + 128
set_top_bit t = omega (arith, bit_or_shifted 7 t 1, bit_or-one (t / 128))

high_bits32 : (t : ℕ) → IsU32 t → bit_and t 0xFFFFFF80 ≡ t / 128 * 128
high_bits32 t h = omega (arith, bit_and_shifted 7 t 0x1FFFFFF, bit_and_mask 25 (t / 128))

high_bits64 : (t : ℕ) → IsU64 t → bit_and t 0xFFFFFFFFFFFFFF80 ≡ t / 128 * 128
high_bits64 t h = omega (arith, bit_and_shifted 7 t 0x1FFFFFFFFFFFFFF, bit_and_mask 57 (t / 128))

-- The mask of an unrolled pack function keeps the bits that the low seven do not hold.
abbrev Masks : ℕ → ℕ → Type 0
Masks mask w = (t : ℕ) → t < 2 ^ w → bit_and t mask ≡ t / 128 * 128

pack_rounds-base128 :
    (mask w : ℕ)
    → Masks mask w
    → (n t : ℕ) → t < 2 ^ w
    → t < 128 * 128 ^ n
    → pack_rounds mask n t ≡ base128 n t
unfolding pack_rounds base128
pack_rounds-base128 mask w masks zero t h k = ap (λ b. b ∷ []) (omega arith)
pack_rounds-base128 mask w masks (suc n) t h k = ground (
  arith,
  masks t h,
  set_top_bit t,
  pow-suc 128 n,
  pack_rounds-base128 mask w masks n (t / 128) (omega arith) (omega (arith, pow-suc 128 n)),
)

-- On every uint32_t the unrolled tests write the groups of the number.
pub pack_uint32-base128 : (v : ℕ) → IsU32 v → pack_uint32 v ≡ base128 4 v
unfolding pack_uint32
pack_uint32-base128 v h = pack_rounds-base128 0xFFFFFF80 32 high_bits32 4 v h (omega arith)

pub pack_uint64-base128 : (v : ℕ) → IsU64 v → pack_uint64 v ≡ base128 9 v
unfolding pack_uint64
pack_uint64-base128 v h = pack_rounds-base128 0xFFFFFFFFFFFFFF80 64 high_bits64 9 v h (omega arith)

pub base128_small : (k v : ℕ) → v < 128 → base128 k v ≡ v ∷ []
unfolding base128
base128_small zero v h = refl
base128_small (suc k) v h = ground arith

pub base128_large : (k v : ℕ) → 128 ≤ v → base128 (suc k) v ≡ (v % 128 + 128) ∷ base128 k (v / 128)
unfolding base128
base128_large k v h = ground arith

-- More groups allowed than the number needs change nothing.
pub base128-add : (k m v : ℕ) → v < 128 * 128 ^ k → base128 (k + m) v ≡ base128 k v
unfolding base128
base128-add zero m v h = base128_small (0 + m) v (omega arith)
base128-add (suc k) m v h =
    let e : suc k + m ≡ suc (k + m) = omega arith in
    rw e (ground (arith, pow-suc 128 k, base128-add k m (v / 128) (omega (arith, pow-suc 128 k))))

-- A number that needs all of its groups: every byte but the last has the top bit.
abbrev pub all_groups : ℕ → ℕ → List ℕ
all_groups zero v = v ∷ []
all_groups (suc k) v = (v % 128 + 128) ∷ all_groups k (v / 128)

base128-all_groups : (k v : ℕ) → 128 ^ k ≤ v → base128 k v ≡ all_groups k v
unfolding base128
base128-all_groups zero v h = refl
base128-all_groups (suc k) v h = ground (
  arith,
  pow-suc 128 k,
  one-le-pow k 128 (omega arith),
  base128-all_groups k (v / 128) (omega (arith, pow-suc 128 k)),
)

-- The 64-bit pattern of an int32_t's value.
unfoldable pub sign_extend : ℕ → ℕ
sign_extend v = if ltb v (2 ^ 31) then v else v + (2 ^ 64 - 2 ^ 32)

int32_byte_negative :
    (v k : ℕ) → 2 ^ 31 ≤ v → int32_byte v k ≡ shr (v + 2 ^ 32 * (2 ^ k - 1)) k % 128 + 128
unfolding int32_byte
int32_byte_negative v k h = ground (arith, set_top_bit (shr (v + 2 ^ 32 * (2 ^ k - 1)) k))

pub negative_bytes :
    (v : ℕ) → IsU32 v → 2 ^ 31 ≤ v → pack_int32 v ≡ all_groups 9 (v + (2 ^ 64 - 2 ^ 32))
unfolding pack_int32
negative_bytes v h k = ground (
  arith,
  int32_byte_negative v 0,
  int32_byte_negative v 7,
  int32_byte_negative v 14,
  int32_byte_negative v 21,
  int32_byte_negative v 28,
)

pub pack_int32_positive : (v : ℕ) → v < 2 ^ 31 → pack_int32 v ≡ pack_uint32 v
unfolding pack_int32
pack_int32_positive v h = ground arith

-- An int32_t, negative or not, is written as its sign extension to 64 bits is.
pub pack_int32-sign_extend : (v : ℕ) → IsU32 v → pack_int32 v ≡ pack_uint64 (sign_extend v)
unfolding sign_extend
pack_int32-sign_extend v h = elim (dec_lt v (2 ^ 31)) [
  | yes small ↦ ground (
    arith,
    pack_int32_positive v small,
    pack_uint32-base128 v h,
    pack_uint64-base128 v (omega arith),
    base128-add 4 5 v (omega arith),
  )
  | no large ↦ ground (
    arith,
    negative_bytes v h (omega arith),
    pack_uint64-base128 (v + (2 ^ 64 - 2 ^ 32)) (omega arith),
    base128-all_groups 9 (v + (2 ^ 64 - 2 ^ 32)) (omega arith),
  )
]
