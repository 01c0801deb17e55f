-- ===== src/Core/Encoder.antt =====
-- src/core/encoder.c: encoding values at the end of a buffer.
-- A call answers its error code beside the buffer and the state of the allocator, which change on an
-- error too. `fault` is undefined behaviour: a value that is not of the field's type, or a write
-- behind the block.
pub mod Layout
pub mod Wire
pub mod Runs
pub mod Packed
pub mod Encode
use protobluff.Common.{
  ℕ, zero, suc, ◌+◌, ◌-◌, ◌*◌, ◌/◌, ◌%◌, ◌^◌, Bool, true, false, not, ◌&&◌, Option, none, some,
  List, [], ◌∷◌, ◌++◌, ltb, ◌==◌, if◌then◌else◌, length, take, u32, u8, add_size, bit_or, shl,
}
use protobluff.Core.Types.{
  Error, no_error, alloc, invalid, Wiretype, wire_varint, wire_64bit, wire_length, wire_32bit,
  wire_number, FieldType, message, undefined, int32, int64, uint32, uint64, sint32, sint64, fixed32,
  fixed64, sfixed32, sfixed64, bool, enum, float, double, string, bytes, Outcome, ok, err, fault,
  ◌>>=◌,
}
use protobluff.Core.Varint
use protobluff.Core.Memory.{Allocator, store, load}
use protobluff.Core.Buffer.{
  Buffer, valid, grow, create_empty_with_allocator, create_invalid, destroy,
}
use protobluff.Core.Descriptor.{
  FieldDescriptor, Descriptor, field_by_tag, packed, type_size, wiretype_map,
}

-- What `value` points to: a number by its bit pattern, a `pb_string_t` with the memory at its data, or
-- an encoder for a nested message, of which the buffer is read.
pub data Input : Type 0 where
  number : ℕ → Input
  text : List ℕ → ℕ → Input
  encoder : Buffer → Input

-- The bytes of a number in memory, on a little-endian machine.
unfoldable pub le_bytes : ℕ → ℕ → List ℕ
le_bytes zero v = []
le_bytes (suc n) v = v % 256 ∷ le_bytes n (v / 256)

-- The answer of an encoding function.
abbrev pub Done : Type 0 → Type 0
Done M = Error × Buffer × M

-- `data` is what `pb_buffer_grow` answered: if it is not NULL, the bytes are written there.
unfoldable pub appended : {M : Type 0} → Outcome (List ℕ) → Option ℕ × Buffer × M → Outcome (Done M)
appended written (none, b, m) = ok (alloc, b, m)
appended written (some offset, b, m) = do
  raw ← written
  block ← store b.block offset raw
  ok (no_error, record b { block = block }, m)

-- `data` and `length` of a length-prefixed value.
unfoldable pub length_source : FieldType → Input → Outcome (List ℕ × ℕ)
length_source message (encoder b) = ok (b.block, u32 b.size)
length_source message (number v) = fault
length_source message (text s n) = fault
length_source _ (text s n) = ok (s, u32 n)
length_source _ (number v) = fault
length_source _ (encoder b) = fault

-- The loop that adds up the sizes of a packed field's values.
unfoldable pub packed_varints_size : FieldType → List Input → ℕ → Outcome ℕ
packed_varints_size t [] length = ok length
packed_varints_size t (number v ∷ vs) length = do
  n ← Varint.size t v
  packed_varints_size t vs (add_size length n)
packed_varints_size t (_ ∷ vs) length = fault

-- The loop that packs them.
unfoldable pub packed_varints : FieldType → List Input → Outcome (List ℕ)
packed_varints t [] = ok []
packed_varints t (number v ∷ vs) = do
  packed_value ← Varint.pack t v
  more ← packed_varints t vs
  ok (packed_value ++ more)
packed_varints t (_ ∷ vs) = fault

-- `memcpy(data, values, length)`: the values as they lie in memory.
unfoldable pub packed_fixed : ℕ → List Input → Outcome (List ℕ)
unfolding le_bytes
packed_fixed item [] = ok []
packed_fixed item (number v ∷ vs) = do more ← packed_fixed item vs; ok (le_bytes item v ++ more)
packed_fixed item (_ ∷ vs) = fault

-- `pb_field_descriptor_wiretype(descriptor) == PB_WIRETYPE_VARINT`.
abbrev pub is_varint : Wiretype → Bool
is_varint wire_varint = true
is_varint wire_64bit = false
is_varint wire_length = false
is_varint wire_32bit = false

unfoldable pub packed_length : FieldType → List Input → Outcome ℕ
packed_length t vs =
    if is_varint (wiretype_map t)
    then packed_varints_size t vs 0
    else ok (length vs * type_size t % 2 ^ 64)

unfoldable pub packed_values : FieldType → List Input → Outcome (List ℕ)
packed_values t vs =
    if is_varint (wiretype_map t) then packed_varints t vs else packed_fixed (type_size t) vs

-- `(tag << 3) | wiretype`.
abbrev pub key : ℕ → Wiretype → ℕ
key tag w = bit_or (shl 32 tag 3) (wire_number w)

-- `pb_encoder_t`.
pub record Encoder : Type 0 where
  pub descriptor : Option Descriptor
  pub buffer : Buffer

unfoldable pub create_with_allocator : Descriptor → Encoder
create_with_allocator d = record { descriptor = some d; buffer = create_empty_with_allocator }

unfoldable pub encoder_create_invalid : Encoder
encoder_create_invalid = record { descriptor = none; buffer = create_invalid }

module _ {M : Type 0} (a : Allocator M) where
  -- `data = pb_buffer_grow(buffer, n)`, then the bytes are written to it if it is not NULL.
  unfoldable pub append : M → Buffer → ℕ → Outcome (List ℕ) → Outcome (Done M)
  unfolding appended
  append m b n written = appended written (grow a m b n)

  unfoldable pub encode_varint : M → Buffer → FieldDescriptor → Input → Outcome (Done M)
  unfolding append
  encode_varint m b d (number v) = do n ← Varint.size d.type v; append m b n (Varint.pack d.type v)
  encode_varint m b d (text s n) = fault
  encode_varint m b d (encoder e) = fault

  unfoldable pub encode_64bit : M → Buffer → FieldDescriptor → Input → Outcome (Done M)
  unfolding append le_bytes
  encode_64bit m b d (number v) = append m b 8 (ok (le_bytes 8 v))
  encode_64bit m b d (text s n) = fault
  encode_64bit m b d (encoder e) = fault

  unfoldable pub encode_32bit : M → Buffer → FieldDescriptor → Input → Outcome (Done M)
  unfolding append le_bytes
  encode_32bit m b d (number v) = append m b 4 (ok (le_bytes 4 v))
  encode_32bit m b d (text s n) = fault
  encode_32bit m b d (encoder e) = fault

  unfoldable pub encode_length : M → Buffer → FieldDescriptor → Input → Outcome (Done M)
  unfolding append length_source
  encode_length m b d v = do
    (source, n) ← length_source d.type v
    append m b (add_size (Varint.size_uint32 n) n)
        (load source 0 n >>= λ s. ok (Varint.pack_uint32 n ++ s))

  -- `encode_jump`.
  unfoldable pub encode_value : Wiretype → M → Buffer → FieldDescriptor → Input → Outcome (Done M)
  unfolding encode_varint encode_64bit encode_length encode_32bit
  encode_value wire_varint m b d v = encode_varint m b d v
  encode_value wire_64bit m b d v = encode_64bit m b d v
  encode_value wire_length m b d v = encode_length m b d v
  encode_value wire_32bit m b d v = encode_32bit m b d v

  -- The end of `encode`, on how writing the tag went.
  unfoldable pub encode_after : Wiretype → FieldDescriptor → Input → Done M → Outcome (Done M)
  unfolding encode_value
  encode_after w d v (no_error, b, m) = encode_value w m b d v
  encode_after w d v (e, b, m) = ok (e, b, m)

  unfoldable pub encode : M → Buffer → FieldDescriptor → Input → Outcome (Done M)
  unfolding append encode_after
  encode m b d v = do
    done ←
        append m b (Varint.size_uint32 (key d.tag (wiretype_map d.type)))
          (ok (Varint.pack_uint32 (key d.tag (wiretype_map d.type))))
    encode_after (wiretype_map d.type) d v done

  unfoldable pub encode_packed : M → Buffer → FieldDescriptor → List Input → Outcome (Done M)
  unfolding append packed_length packed_values packed_varints_size packed_varints packed_fixed
  encode_packed m b d vs = do
    n ← packed_length d.type vs
    append m b
        (add_size
          (add_size (Varint.size_uint32 (key d.tag wire_length)) (Varint.size_uint32 (u32 n))) n)
        (packed_values d.type vs >>= λ s.
          ok (Varint.pack_uint32 (key d.tag wire_length) ++ (Varint.pack_uint32 (u32 n) ++ s)))

  -- The loop of `pb_encoder_encode`: `error` is assigned in every round, and no round is left out.
  unfoldable pub encode_each : M → Buffer → FieldDescriptor → List Input → Error → Outcome (Done M)
  unfolding encode
  encode_each m b d [] e = ok (e, b, m)
  encode_each m b d (v ∷ vs) e = do (e', b', m') ← encode m b d v; encode_each m' b' d vs e'

  -- `pb_encoder_encode` behind the search for the field, `size` values at `values`.
  unfoldable pub encode_field : M → Buffer → Option FieldDescriptor → List Input → Outcome (Done M)
  unfolding encode_packed encode_each
  encode_field m b none vs = fault
  encode_field m b (some d) vs =
      if ltb 1 (length vs) && packed d
      then encode_packed m b d vs
      else encode_each m b d vs no_error

  -- `pb_encoder_encode`.
  unfoldable pub encoder_encode : M → Encoder → ℕ → List Input → Outcome (Done M)
  unfolding encode_field
  encoder_encode m s tag vs =
      if valid s.buffer
      then (elim s.descriptor [
        | none ↦ fault
        | some d ↦ encode_field m s.buffer (field_by_tag d tag) vs
      ])
      else ok (invalid, s.buffer, m)

  unfoldable pub encoder_destroy : M → Encoder → Encoder × M
  encoder_destroy m s =
      if valid s.buffer
      then (record s { buffer = (destroy a m s.buffer).0 }, (destroy a m s.buffer).1)
      else (s, m)
