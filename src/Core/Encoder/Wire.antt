-- ===== src/Core/Encoder/Wire.antt =====
-- The wire format of a field in plain arithmetic: what the encoder is to write.
use protobluff.Common.{
  ℕ, zero, suc, ◌+◌, ◌-◌, ◌*◌, ◌/◌, ◌^◌, ◌≤◌, ◌<◌, ◌≡◌, refl, ap, ◌∙◌, arith, List, [], ◌∷◌, ◌++◌,
  ltb, if◌then◌else◌, length, take, IsU32, shl, bit_or,
}
use protobluff.Common.Bits.{bit_or_low}
use protobluff.Core.Types.{
  FieldType, message, undefined, int32, int64, uint32, uint64, sint32, sint64, fixed32, fixed64,
  sfixed32, sfixed64, bool, enum, float, double, string, bytes, Wiretype, wire_varint, wire_64bit,
  wire_length, wire_32bit, wire_number, ok,
}
use protobluff.Core.Varint.{
  pack, pack_uint64, pack_uint8, pack_sint32, pack_sint64, pack_int64, zigzag,
}
use protobluff.Core.Varint.Base128.{
  base128, sign_extend, pack_uint32-base128, pack_uint64-base128, pack_int32-sign_extend, top_bit,
  low_bits, set_top_bit,
}
use protobluff.Core.Varint.Zigzag.{zigzag32_lem, zigzag64_lem, unzigzag-zigzag32, unzigzag-zigzag64}
use protobluff.Core.Varint.Types.{IsVarint}
use protobluff.Core.Buffer.Laws.{contents}
use protobluff.Core.Descriptor.{FieldDescriptor, wiretype_map}
use protobluff.Core.Encoder.{Input, number, text, encoder, le_bytes, key}

-- The bytes of a number of a type.
unfoldable pub wire_scalar : FieldType → ℕ → List ℕ
wire_scalar int32 v = base128 9 (sign_extend v)
wire_scalar int64 v = base128 9 v
wire_scalar uint32 v = base128 4 v
wire_scalar uint64 v = base128 9 v
wire_scalar sint32 v = base128 4 (if ltb v (2 ^ 31) then 2 * v else 2 ^ 33 - 1 - 2 * v)
wire_scalar sint64 v = base128 9 (if ltb v (2 ^ 63) then 2 * v else 2 ^ 65 - 1 - 2 * v)
wire_scalar fixed32 v = le_bytes 4 v
wire_scalar fixed64 v = le_bytes 8 v
wire_scalar sfixed32 v = le_bytes 4 v
wire_scalar sfixed64 v = le_bytes 8 v
wire_scalar bool v = base128 1 v
wire_scalar enum v = base128 9 (sign_extend v)
wire_scalar float v = le_bytes 4 v
wire_scalar double v = le_bytes 8 v
wire_scalar string v = []
wire_scalar bytes v = []
wire_scalar message v = []
wire_scalar undefined v = []

unfoldable pub wire_value : FieldType → Input → List ℕ
wire_value t (number v) = wire_scalar t v
wire_value t (text s n) = base128 4 n ++ take n s
wire_value t (encoder b) = base128 4 b.size ++ contents b

-- The key that a value begins with.
unfoldable pub wire_key : ℕ → Wiretype → List ℕ
wire_key tag w = base128 4 (8 * tag + wire_number w)

unfoldable pub wire_field : FieldDescriptor → Input → List ℕ
wire_field d v = wire_key d.tag (wiretype_map d.type) ++ wire_value d.type v

unfoldable pub wire_fields : FieldDescriptor → List Input → List ℕ
wire_fields d [] = []
wire_fields d (v ∷ vs) = wire_field d v ++ wire_fields d vs

unfoldable pub wire_values : FieldType → List Input → List ℕ
wire_values t [] = []
wire_values t (v ∷ vs) = wire_value t v ++ wire_values t vs

-- The packed form: one key, the length, and the values.
unfoldable pub wire_packed : FieldDescriptor → List Input → List ℕ
wire_packed d vs =
    wire_key d.tag wire_length
    ++ (base128 4 (length (wire_values d.type vs)) ++ wire_values d.type vs)

-- A number that a varint or a fixed-size type holds.
abbrev pub IsScalar : FieldType → ℕ → Type 0
IsScalar fixed32 v = v < 2 ^ 32
IsScalar sfixed32 v = v < 2 ^ 32
IsScalar float v = v < 2 ^ 32
IsScalar fixed64 v = v < 2 ^ 64
IsScalar sfixed64 v = v < 2 ^ 64
IsScalar double v = v < 2 ^ 64
IsScalar t v = IsVarint t v

-- What `value` may point to for a type: a string's memory holds it, and its length is a uint32_t.
abbrev pub IsInput : FieldType → Input → Type 0
IsInput t (number v) = IsScalar t v
IsInput string (text s n) = (n < 2 ^ 32) × (n ≤ length s)
IsInput bytes (text s n) = (n < 2 ^ 32) × (n ≤ length s)
IsInput message (encoder b) = (b.size < 2 ^ 32) × (b.size ≤ length b.block)
IsInput _ _ = ⊥

pub length-le_bytes : (n v : ℕ) → length (le_bytes n v) ≡ n
unfolding le_bytes
length-le_bytes zero v = refl
length-le_bytes (suc n) v = ap suc (length-le_bytes n (v / 256))

pack_uint8-base128 : (v : ℕ) → v < 2 ^ 8 → pack_uint8 v ≡ base128 1 v
unfolding pack_uint8 base128
pack_uint8-base128 v h = ground (arith, top_bit v, low_bits v, set_top_bit v)

extended : (v : ℕ) → IsU32 v → pack_uint64 (sign_extend v) ≡ base128 9 (sign_extend v)
unfolding sign_extend
extended v h = pack_uint64-base128 (sign_extend v) (ground arith)

shifted_key : (tag w : ℕ) → tag < 2 ^ 29 → w < 8 → bit_or (shl 32 tag 3) w ≡ 8 * tag + w
shifted_key tag w h k = ap (λ t. bit_or t w) (omega arith) ∙ bit_or_low tag w k

-- `pb_varint_pack` of a value of a varint type writes the base-128 groups of the number: of its sign
-- extension to 64 bits for int32 and enum, of its zigzag form for sint32 and sint64.
pub pack-wire_scalar : (t : FieldType) (v : ℕ) → IsVarint t v → pack t v ≡ ok (wire_scalar t v)
unfolding pack wire_scalar pack_sint32 pack_sint64 pack_int64
pack-wire_scalar int32 v h = ap ok (pack_int32-sign_extend v h ∙ extended v h)
pack-wire_scalar int64 v h = ap ok (pack_uint64-base128 v h)
pack-wire_scalar uint32 v h = ap ok (pack_uint32-base128 v h)
pack-wire_scalar uint64 v h = ap ok (pack_uint64-base128 v h)
pack-wire_scalar sint32 v h = ap ok (
    pack_uint32-base128 (zigzag 32 v) (unzigzag-zigzag32 v h).0 ∙ ap (base128 4) (zigzag32_lem v h))
pack-wire_scalar sint64 v h = ap ok (
    pack_uint64-base128 (zigzag 64 v) (unzigzag-zigzag64 v h).0 ∙ ap (base128 9) (zigzag64_lem v h))
pack-wire_scalar bool v h = ap ok (pack_uint8-base128 v h)
pack-wire_scalar enum v h = ap ok (pack_int32-sign_extend v h ∙ extended v h)
pack-wire_scalar _ v h = elim h [ ]

-- The key, by shifts, is that by arithmetic.
pub key_lem : (tag : ℕ) (w : Wiretype) → tag < 2 ^ 29 → key tag w ≡ 8 * tag + wire_number w
unfolding wire_number
key_lem tag wire_varint h = shifted_key tag 0 h (omega arith)
key_lem tag wire_64bit h = shifted_key tag 1 h (omega arith)
key_lem tag wire_length h = shifted_key tag 2 h (omega arith)
key_lem tag wire_32bit h = shifted_key tag 5 h (omega arith)

pub wire_number-lt : (w : Wiretype) → wire_number w < 8
unfolding wire_number
wire_number-lt wire_varint = omega arith
wire_number-lt wire_64bit = omega arith
wire_number-lt wire_length = omega arith
wire_number-lt wire_32bit = omega arith
