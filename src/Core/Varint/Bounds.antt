-- ===== src/Core/Varint/Bounds.antt =====
-- How many bytes the pack functions of src/core/varint.c write: the arrays that their callers give them,
-- of 10 bytes and of 5, are large enough.
use protobluff.Common.{
  ℕ, zero, suc, ◌^◌, ◌≤◌, ◌<◌, ◌≡◌, refl, arith, List, ltb, ◌==◌, if-elim, length, All, IsByte, shr,
  bit_and,
}
use protobluff.Core.Types.{FieldType, int32, int64, uint32, uint64, sint32, sint64, bool, enum, ok}
use protobluff.Core.Varint.Types.{IsVarint}
use protobluff.Core.Varint.{
  pack_rounds, pack_uint32, pack_uint64, pack_int32, pack_int64, pack_uint8, pack_sint32,
  pack_sint64, pack, zigzag, int32_byte,
}

-- At least one byte, and at most `n`; and each is a byte.
abbrev pub Fits : ℕ → List ℕ → Type 0
Fits n p = (0 < length p) × (length p ≤ n) × All IsByte p

pack_rounds-Fits : (mask n v : ℕ) → Fits (suc n) (pack_rounds mask n v)
unfolding pack_rounds
pack_rounds-Fits mask zero v = (omega arith, omega arith, omega arith)
pack_rounds-Fits mask (suc n) v =
    let (some_byte, few, all) = pack_rounds-Fits mask n (shr v 7) in
    if-elim (Fits (suc (suc n))) (bit_and v mask == 0) _ _ (omega arith, omega arith, omega arith)
      (omega arith, omega arith, (omega arith, all))

pub pack_uint32-Fits : (v : ℕ) → Fits 5 (pack_uint32 v)
unfolding pack_uint32
pack_uint32-Fits v = pack_rounds-Fits 0xFFFFFF80 4 v

pub pack_uint64-Fits : (v : ℕ) → Fits 10 (pack_uint64 v)
unfolding pack_uint64
pack_uint64-Fits v = pack_rounds-Fits 0xFFFFFFFFFFFFFF80 9 v

wider : (p : List ℕ) → Fits 5 p → Fits 10 p
wider p (a, b, c) = (a, omega arith, c)

pack_int32-Fits : (v : ℕ) → Fits 10 (pack_int32 v)
unfolding pack_int32 int32_byte
pack_int32-Fits v =
    if-elim (Fits 10) (ltb v (2 ^ 31)) _ _ (wider (pack_uint32 v) (pack_uint32-Fits v))
      (omega arith)

pack_uint8-Fits : (v : ℕ) → v < 2 ^ 8 → Fits 2 (pack_uint8 v)
unfolding pack_uint8
pack_uint8-Fits v h = if-elim (Fits 2) (bit_and v 0x80 == 0) _ _ (omega arith) (omega arith)

-- The room that a value of the type needs.
abbrev pub room : FieldType → ℕ
room uint32 = 5
room sint32 = 5
room bool = 2
room _ = 10

-- A value of a type that is written as a varint, in the range of the type, is written, in at least one byte
-- and at most 10 bytes; in at most 5 if it is unsigned or zigzag of 32 bits, and in at most 2 if it is a bool.
pub pack-Fits :
    (t : FieldType) (v : ℕ) → IsVarint t v → (p : List ℕ) × (pack t v ≡ ok p) × Fits (room t) p
unfolding pack pack_int64 pack_sint32 pack_sint64 pack_uint8
pack-Fits int32 v h = (pack_int32 v, refl, pack_int32-Fits v)
pack-Fits int64 v h = (pack_uint64 v, refl, pack_uint64-Fits v)
pack-Fits uint32 v h = (pack_uint32 v, refl, pack_uint32-Fits v)
pack-Fits uint64 v h = (pack_uint64 v, refl, pack_uint64-Fits v)
pack-Fits sint32 v h = (pack_sint32 v, refl, pack_uint32-Fits (zigzag 32 v))
pack-Fits sint64 v h = (pack_sint64 v, refl, pack_uint64-Fits (zigzag 64 v))
pack-Fits bool v h = (pack_uint8 v, refl, pack_uint8-Fits v h)
pack-Fits enum v h = (pack_int32 v, refl, pack_int32-Fits v)
pack-Fits _ v h = elim h [ ]
