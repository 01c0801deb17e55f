-- ===== src/Core/Varint/Types.antt =====
-- The round trip for every type that the jump tables serve.
use protobluff.Common.{
  ℕ, ◌+◌, ◌/◌, ◌%◌, ◌^◌, ◌≤◌, ◌<◌, ◌≡◌, refl, ap, arith, List, ◌++◌, length, IsU32, IsU64,
}
use mathlib.Core.Path.{subst}
use native.Mathlib.Decide.{dec_lt}
use protobluff.Core.Types.{FieldType, int32, int64, uint32, uint64, sint32, sint64, bool, enum, ok}
use protobluff.Core.Varint.{
  pack_uint32, pack_uint64, pack_int32, pack_uint8, pack, unpack_uint8, unpack, uint8_rounds,
  second_byte, result, pack_sint32, pack_sint64, unpack_sint32, unpack_sint64, unpack_int64,
  pack_int64, zigzag,
}
use protobluff.Core.Varint.Base128.{top_bit, low_bits, set_top_bit}
use protobluff.Core.Varint.RoundTrip.{add_group, Reads, unpack-pack_uint32, unpack-pack_uint64}
use protobluff.Core.Varint.Int32.{unpack-pack_int32}
use protobluff.Core.Varint.Zigzag.{unzigzag-zigzag32, unzigzag-zigzag64}

-- The values of a type that is written as a varint, by their bit patterns.
abbrev pub IsVarint : FieldType → ℕ → Type 0
IsVarint int32 v = v < 2 ^ 32
IsVarint int64 v = v < 2 ^ 64
IsVarint uint32 v = v < 2 ^ 32
IsVarint uint64 v = v < 2 ^ 64
IsVarint sint32 v = v < 2 ^ 32
IsVarint sint64 v = v < 2 ^ 64
IsVarint bool v = v < 2 ^ 8
IsVarint enum v = v < 2 ^ 32
IsVarint _ v = ⊥

unpack-pack_sint32 : (v : ℕ) → IsU32 v → Reads unpack_sint32 (pack_sint32 v) v
unfolding unpack_sint32 pack_sint32
unpack-pack_sint32 v h rest left k l =
    let (small, back) = unzigzag-zigzag32 v h in
    rw (unpack-pack_uint32 (zigzag 32 v) small rest left k l)
      (ap (λ u. ok (length (pack_uint32 (zigzag 32 v)), u)) back)

unpack-pack_sint64 : (v : ℕ) → IsU64 v → Reads unpack_sint64 (pack_sint64 v) v
unfolding unpack_sint64 pack_sint64
unpack-pack_sint64 v h rest left k l =
    let (small, back) = unzigzag-zigzag64 v h in
    rw (unpack-pack_uint64 (zigzag 64 v) small rest left k l)
      (ap (λ u. ok (length (pack_uint64 (zigzag 64 v)), u)) back)

unpack-pack_uint8 : (v : ℕ) → v < 2 ^ 8 → Reads unpack_uint8 (pack_uint8 v) v
unfolding unpack_uint8 pack_uint8 uint8_rounds second_byte result
unpack-pack_uint8 v h rest left k l = elim (dec_lt v 128) [
  | yes p ↦ ground (arith, top_bit v, low_bits v)
  | no p ↦ ground (
    arith,
    top_bit v,
    set_top_bit v,
    top_bit (v % 128 + 128),
    low_bits (v % 128 + 128),
    top_bit (v / 128),
    low_bits (v / 128),
    add_group 8 (v / 128) 7 (v % 128),
  )
]

unpack-pack-Reads :
    (t : FieldType) (v : ℕ) → IsVarint t v → (p : List ℕ) × (pack t v ≡ ok p) × Reads (unpack t) p v
unfolding pack unpack unpack_int64 pack_int64
unpack-pack-Reads int32 v h = (pack_int32 v, refl, unpack-pack_int32 v h)
unpack-pack-Reads int64 v h = (pack_uint64 v, refl, unpack-pack_uint64 v h)
unpack-pack-Reads uint32 v h = (pack_uint32 v, refl, unpack-pack_uint32 v h)
unpack-pack-Reads uint64 v h = (pack_uint64 v, refl, unpack-pack_uint64 v h)
unpack-pack-Reads sint32 v h = (pack_sint32 v, refl, unpack-pack_sint32 v h)
unpack-pack-Reads sint64 v h = (pack_sint64 v, refl, unpack-pack_sint64 v h)
unpack-pack-Reads bool v h = (pack_uint8 v, refl, unpack-pack_uint8 v h)
unpack-pack-Reads enum v h = (pack_int32 v, refl, unpack-pack_int32 v h)
unpack-pack-Reads _ v h = elim h [ ]

-- Every type that the jump tables serve: the bytes that `pb_varint_pack` writes of a value of the type,
-- `pb_varint_unpack` reads back as that value, with their number as the size, whatever bytes follow, if
-- that many bytes are left, and `left` is a size_t.
pub unpack-pack :
    (t : FieldType) (v : ℕ) (p rest : List ℕ) (left : ℕ)
    → IsVarint t v
    → pack t v ≡ ok p
    → length p ≤ left
    → left < 2 ^ 64
    → unpack t (p ++ rest) left ≡ ok (length p, v)
unpack-pack t v p rest left h e k l =
    let (p', e', reads) = unpack-pack-Reads t v h in
    let same : p' ≡ p = cc in
    subst (λ q. length q ≤ left → unpack t (q ++ rest) left ≡ ok (length q, v)) same
      (λ k'. reads rest left k' l) k
