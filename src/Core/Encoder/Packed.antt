-- ===== src/Core/Encoder/Packed.antt =====
-- `encode_packed` writes one key, the length of the values, and the values.
use protobluff.Common.{
  ℕ, ◌+◌, ◌*◌, ◌^◌, ◌<◌, ◌≡◌, refl, ap, ◌∙◌, arith, none, true, false, Bool-cases, List, [], ◌∷◌,
  ◌++◌, length, All, u32, add_size, length-append, inl, inr,
}
use native.Mathlib.Nat.{suc-mul}
use protobluff.Core.Types.{
  FieldType, message, undefined, int32, int64, uint32, uint64, sint32, sint64, fixed32, fixed64,
  sfixed32, sfixed64, bool, enum, float, double, string, bytes, wire_length, ok,
}
use protobluff.Core.Memory.{Allocator, IsAllocator}
use protobluff.Core.Buffer.{Buffer, AllocatorRef, grow}
use protobluff.Core.Buffer.Laws.{IsValid}
use protobluff.Core.Descriptor.{FieldDescriptor, wiretype_map, type_size}
use protobluff.Core.Varint
use protobluff.Core.Varint.Base128.{base128, pack_uint32-base128}
use protobluff.Core.Varint.Types.{IsVarint}
use protobluff.Core.Encoder.{
  Input, number, text, encoder, le_bytes, key, is_varint, packed_varints_size, packed_varints,
  packed_fixed, packed_length, packed_values, encode_packed,
}
use protobluff.Core.Encoder.Layout.{Appends, append-Appends}
use protobluff.Core.Encoder.Wire.{
  wire_scalar, wire_value, wire_values, wire_key, wire_packed, IsScalar, length-le_bytes,
  pack-wire_scalar,
}
use protobluff.Core.Encoder.Runs.{size-wire_scalar, size-base128, packed_key}

-- A number of a type, the only values that are packed.
abbrev pub IsNumber : FieldType → Input → Type 0
IsNumber t (number v) = IsScalar t v
IsNumber t (text s n) = ⊥
IsNumber t (encoder b) = ⊥

IsVarint-type :
    (t : FieldType) (v : ℕ) → is_varint (wiretype_map t) ≡ true → IsScalar t v → IsVarint t v
unfolding wiretype_map
IsVarint-type int32 v e h = h
IsVarint-type int64 v e h = h
IsVarint-type uint32 v e h = h
IsVarint-type uint64 v e h = h
IsVarint-type sint32 v e h = h
IsVarint-type sint64 v e h = h
IsVarint-type fixed32 v e h = cc
IsVarint-type fixed64 v e h = cc
IsVarint-type sfixed32 v e h = cc
IsVarint-type sfixed64 v e h = cc
IsVarint-type bool v e h = h
IsVarint-type enum v e h = h
IsVarint-type float v e h = cc
IsVarint-type double v e h = cc
IsVarint-type string v e h = elim h [ ]
IsVarint-type bytes v e h = elim h [ ]
IsVarint-type message v e h = elim h [ ]
IsVarint-type undefined v e h = elim h [ ]

fixed_type :
    (t : FieldType) (v : ℕ)
    → is_varint (wiretype_map t) ≡ false
    → IsScalar t v
    → wire_scalar t v ≡ le_bytes (type_size t) v
unfolding wiretype_map wire_scalar type_size
fixed_type int32 v e h = cc
fixed_type int64 v e h = cc
fixed_type uint32 v e h = cc
fixed_type uint64 v e h = cc
fixed_type sint32 v e h = cc
fixed_type sint64 v e h = cc
fixed_type fixed32 v e h = refl
fixed_type fixed64 v e h = refl
fixed_type sfixed32 v e h = refl
fixed_type sfixed64 v e h = refl
fixed_type bool v e h = cc
fixed_type enum v e h = cc
fixed_type float v e h = refl
fixed_type double v e h = refl
fixed_type string v e h = elim h [ ]
fixed_type bytes v e h = elim h [ ]
fixed_type message v e h = elim h [ ]
fixed_type undefined v e h = elim h [ ]

packed_varints_size_lem :
    (t : FieldType) (vs : List Input) (n : ℕ)
    → is_varint (wiretype_map t) ≡ true
    → All (IsNumber t) vs
    → n + length (wire_values t vs) < 2 ^ 64
    → packed_varints_size t vs n ≡ ok (n + length (wire_values t vs))
unfolding packed_varints_size wire_values wire_value
packed_varints_size_lem t [] n e h k = ap ok (omega arith)
packed_varints_size_lem t (number v ∷ vs) n e (h, hs) k =
    let l = length-append (wire_scalar t v) (wire_values t vs) in
    let step : add_size n (length (wire_scalar t v)) ≡ n + length (wire_scalar t v) =
      omega (arith, l) in
    rw (size-wire_scalar t v (IsVarint-type t v e h), step)
      (packed_varints_size_lem t vs (n + length (wire_scalar t v)) e hs (omega (arith, l))
        ∙ ap ok (omega (arith, l)))
packed_varints_size_lem t (text s l ∷ vs) n e (h, hs) k = elim h [ ]
packed_varints_size_lem t (encoder b ∷ vs) n e (h, hs) k = elim h [ ]

packed_varints_lem :
    (t : FieldType) (vs : List Input)
    → is_varint (wiretype_map t) ≡ true
    → All (IsNumber t) vs
    → packed_varints t vs ≡ ok (wire_values t vs)
unfolding packed_varints wire_values wire_value
packed_varints_lem t [] e h = refl
packed_varints_lem t (number v ∷ vs) e (h, hs) =
    rw (pack-wire_scalar t v (IsVarint-type t v e h), packed_varints_lem t vs e hs) refl
packed_varints_lem t (text s l ∷ vs) e (h, hs) = elim h [ ]
packed_varints_lem t (encoder b ∷ vs) e (h, hs) = elim h [ ]

packed_fixed_lem :
    (t : FieldType) (vs : List Input)
    → is_varint (wiretype_map t) ≡ false
    → All (IsNumber t) vs
    → (packed_fixed (type_size t) vs ≡ ok (wire_values t vs))
      × (length vs * type_size t ≡ length (wire_values t vs))
unfolding packed_fixed wire_values wire_value
packed_fixed_lem t [] e h = (refl, omega arith)
packed_fixed_lem t (number v ∷ vs) e (h, hs) =
    let (same, size) = packed_fixed_lem t vs e hs in
    let l = length-append (le_bytes (type_size t) v) (wire_values t vs) in
    rw (fixed_type t v e h, same)
      (
        refl,
        suc-mul (length vs) (type_size t) ∙ omega (arith, l, size, length-le_bytes (type_size t) v),
      )
packed_fixed_lem t (text s l ∷ vs) e (h, hs) = elim h [ ]
packed_fixed_lem t (encoder b ∷ vs) e (h, hs) = elim h [ ]

-- Both passes over the values agree: the length asked for is that of the bytes written.
packed_lem :
    (t : FieldType) (vs : List Input)
    → All (IsNumber t) vs
    → length (wire_values t vs) < 2 ^ 32
    → (packed_length t vs ≡ ok (length (wire_values t vs)))
      × (packed_values t vs ≡ ok (wire_values t vs))
unfolding packed_length packed_values
packed_lem t vs h k = elim (Bool-cases (is_varint (wiretype_map t))) [
  | inl e ↦ rw e (
    packed_varints_size_lem t vs 0 e h (omega arith) ∙ ap ok (omega arith),
    packed_varints_lem t vs e h,
  )
  | inr e ↦ let (same, size) = packed_fixed_lem t vs e h in rw e (ap ok (omega (arith, size)), same)
]

module _ {M : Type 0} (a : Allocator M) (laws : IsAllocator a) (R : AllocatorRef → Type 0)
    (refusal : (m : M) (b : Buffer) (n : ℕ) → (grow a m b n).0 ≡ none → R b.allocator) where
  -- `encode_packed` of numbers of the field's type, in a buffer that `size_t` can count: behind the
  -- contents it writes one key, the length in bytes and the values, or it reports PB_ERROR_ALLOC, which
  -- the allocator then refused, and leaves the buffer as it was.
  pub encode_packed-Appends :
      (m : M) (b : Buffer) (d : FieldDescriptor) (vs : List Input)
      → IsValid b
      → d.tag < 2 ^ 29
      → All (IsNumber d.type) vs
      → length (wire_values d.type vs) < 2 ^ 32
      → b.size + length (wire_packed d vs) < 2 ^ 64
      → Appends R b (wire_packed d vs) (encode_packed a m b d vs)
  unfolding encode_packed wire_packed
  encode_packed-Appends m b d vs w t h k l =
      let (size_eq, values_eq) = packed_lem d.type vs h k in
      let (key_bytes, key_size) = packed_key d.tag wire_length t in
      let sized : add_size
            (add_size (Varint.size_uint32 (key d.tag wire_length))
              (Varint.size_uint32 (length (wire_values d.type vs))))
            (length (wire_values d.type vs))
          ≡ length (wire_packed d vs) =
        omega (
          arith,
          key_size,
          size-base128 (length (wire_values d.type vs)) k,
          length-append (wire_key d.tag wire_length)
              (base128 4 (length (wire_values d.type vs)) ++ wire_values d.type vs),
          length-append (base128 4 (length (wire_values d.type vs))) (wire_values d.type vs),
        ) in
      let small : u32 (length (wire_values d.type vs)) ≡ length (wire_values d.type vs) =
        omega arith in
      rw
        (
          size_eq,
          values_eq,
          key_bytes,
          small,
          pack_uint32-base128 (length (wire_values d.type vs)) k,
        )
        (append-Appends a laws R refusal m b
          (add_size
            (add_size (Varint.size_uint32 (key d.tag wire_length))
              (Varint.size_uint32 (length (wire_values d.type vs))))
            (length (wire_values d.type vs)))
          (wire_packed d vs) w sized (omega (arith, sized, l)))
