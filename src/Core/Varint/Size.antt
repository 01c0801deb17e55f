-- ===== src/Core/Varint/Size.antt =====
-- The size functions against the number of bytes that the pack functions write.
use protobluff.Common.{
  ℕ, zero, suc, ◌+◌, ◌-◌, ◌*◌, ◌/◌, ◌^◌, ◌≤◌, ◌<◌, ◌≡◌, refl, ap, ◌∙◌, arith, true, ◌==◌, ==_iff,
  each_below, each_holds, length, IsU32, IsU64,
}
use mathlib.Core.Path.{subst}
use native.Mathlib.Decide.{dec_lt}
use native.Mathlib.Nat.{one-le-pow, pow-le-pow_right}
use native.Mathlib.Numerals.{towards_suc}
use protobluff.Core.Types.{
  FieldType, int32, int64, uint32, uint64, sint32, sint64, bool, enum, ok, ◌>>=◌,
}
use protobluff.Core.Varint.{
  leading_zeros, clz, size_at, size_uint32, size_uint64, size_int32, size_int64, size_uint8,
  size_sint32, size_sint64, size, pack, pack_uint32, pack_uint64, pack_int32, pack_int64,
  pack_uint8, pack_sint32, pack_sint64, zigzag,
}
use protobluff.Core.Varint.Base128.{
  base128, base128_small, base128_large, pack_uint32-base128, pack_uint64-base128,
  pack_int32_positive, negative_bytes, top_bit,
}
use protobluff.Core.Varint.Zigzag.{unzigzag-zigzag32, unzigzag-zigzag64}
use protobluff.Core.Varint.Types.{IsVarint}

-- The position of the highest bit set.
leading_zeros_lem :
    (w v : ℕ)
    → 0 < v
    → v < 2 ^ w
    → (m : ℕ) × (leading_zeros w v + suc m ≡ w) × (2 ^ m ≤ v) × (v < 2 ^ suc m)
unfolding leading_zeros
leading_zeros_lem zero v h k = absurd (omega arith)
leading_zeros_lem (suc w) v h k = elim (dec_lt v (2 ^ w)) [
  | yes p ↦ let (m, a, b, c) = leading_zeros_lem w v h p in (m, ground (arith, a), b, c)
  | no p ↦ (w, ground arith, omega arith, k)
]

shift_seven : (j : ℕ) → 2 ^ (j + 7) ≡ 128 * 2 ^ j
shift_seven j = simp towards_suc (omega arith)

small_power : (m : ℕ) → m < 7 → 2 ^ suc m ≤ 128
small_power m h = pow-le-pow_right {n = 2} (omega arith) {i = suc m} {j = 7} (omega arith)

length-base128 :
    (k m v : ℕ) → 2 ^ m ≤ v → v < 2 ^ suc m → m < 7 * (k + 1) → length (base128 k v) ≡ m / 7 + 1
length-base128 zero m v h k l =
    ap length (base128_small 0 v (omega (arith, small_power m (omega arith)))) ∙ omega arith
length-base128 (suc n) m v h k l = elim (dec_lt m 7) [
  | yes p ↦ ap length (base128_small (suc n) v (omega (arith, small_power m p))) ∙ omega arith
  | no p ↦
      let e : m ≡ m - 7 + 7 = omega arith in
      let e' : suc m ≡ suc (m - 7) + 7 = omega arith in
      let lo : 128 * 2 ^ (m - 7) ≤ v =
        subst (λ t. t ≤ v) (ap (λ j. 2 ^ j) e ∙ shift_seven (m - 7)) h in
      let hi : v < 128 * 2 ^ suc (m - 7) =
        subst (λ t. v < t) (ap (λ j. 2 ^ j) e' ∙ shift_seven (suc (m - 7))) k in
      ap length (base128_large n v (omega (arith, one-le-pow (m - 7) 2)))
      ∙ ap suc (length-base128 n (m - 7) (v / 128) (omega arith) (omega arith) (omega arith))
      ∙ omega arith
]

size_map_table : each_below (λ m. size_at m == m / 7 + 1) 64 ≡ true
unfolding each_below size_at
size_map_table = refl

-- The table of sizes: seven bits to a byte.
size_at_lem : (m : ℕ) → m < 64 → size_at m ≡ m / 7 + 1
size_at_lem m h = (==_iff _ _).0 (each_holds (λ m. size_at m == m / 7 + 1) 64 size_map_table m h)

-- `size_map[w - 1 - clz(v)]` is the number of groups of `v`, for both widths.
size_groups :
    (w k v : ℕ)
    → 0 < w
    → w ≤ 64
    → w ≤ 7 * (k + 1)
    → v < 2 ^ w
    → size_at (w - 1 - clz w v) ≡ length (base128 k v)
unfolding clz
size_groups w k v h i j l = elim (dec_lt 0 v) [
  | yes p ↦
      let (m, a, b, c) = leading_zeros_lem w v p l in
      let e : w - 1 - leading_zeros w v ≡ m = omega arith in
      ground (arith, e, size_at_lem m (omega arith), length-base128 k m v b c (omega arith))
  | no p ↦
      let e : v ≡ 0 = omega arith in
      ground (arith, size_at_lem 0, ap length (base128_small k 0 (omega arith)))
]

pub size-pack_uint32 : (v : ℕ) → IsU32 v → size_uint32 v ≡ length (pack_uint32 v)
unfolding size_uint32
size-pack_uint32 v h =
    rw (pack_uint32-base128 v h) (size_groups 32 4 v (omega arith) (omega arith) (omega arith) h)

size-pack_uint64 : (v : ℕ) → IsU64 v → size_uint64 v ≡ length (pack_uint64 v)
unfolding size_uint64
size-pack_uint64 v h =
    rw (pack_uint64-base128 v h) (size_groups 64 9 v (omega arith) (omega arith) (omega arith) h)

size-pack_int32 : (v : ℕ) → IsU32 v → size_int32 v ≡ length (pack_int32 v)
unfolding size_int32
size-pack_int32 v h = elim (dec_lt v (2 ^ 31)) [
  | yes p ↦ ground (arith, ap length (pack_int32_positive v p), size-pack_uint32 v h)
  | no p ↦ ground (arith, ap length (negative_bytes v h (omega arith)))
]

size-pack_uint8 : (v : ℕ) → v < 2 ^ 8 → size_uint8 v ≡ length (pack_uint8 v)
unfolding size_uint8 pack_uint8
size-pack_uint8 v h = ground (arith, top_bit v)

size-pack_sint32 : (v : ℕ) → IsU32 v → size_sint32 v ≡ length (pack_sint32 v)
unfolding size_sint32 pack_sint32 size_uint32
size-pack_sint32 v h = size-pack_uint32 (zigzag 32 v) (unzigzag-zigzag32 v h).0

size-pack_sint64 : (v : ℕ) → IsU64 v → size_sint64 v ≡ length (pack_sint64 v)
unfolding size_sint64 pack_sint64 size_uint64
size-pack_sint64 v h = size-pack_uint64 (zigzag 64 v) (unzigzag-zigzag64 v h).0

-- For every type that the jump tables serve and every value of it, `pb_varint_size`, which looks
-- the position of the highest bit up in a table, is the number of bytes that `pb_varint_pack` writes.
pub size-pack :
    (t : FieldType) (v : ℕ) → IsVarint t v → size t v ≡ (pack t v >>= λ p. ok (length p))
unfolding size pack size_int64 pack_int64
size-pack int32 v h = ap ok (size-pack_int32 v h)
size-pack int64 v h = ap ok (size-pack_uint64 v h)
size-pack uint32 v h = ap ok (size-pack_uint32 v h)
size-pack uint64 v h = ap ok (size-pack_uint64 v h)
size-pack sint32 v h = ap ok (size-pack_sint32 v h)
size-pack sint64 v h = ap ok (size-pack_sint64 v h)
size-pack bool v h = ap ok (size-pack_uint8 v h)
size-pack enum v h = ap ok (size-pack_int32 v h)
size-pack _ v h = elim h [ ]
