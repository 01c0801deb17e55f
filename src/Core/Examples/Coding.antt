-- ===== src/Core/Examples/Coding.antt =====
-- Runs of the encoder, the stream and the decoder at concrete inputs.
use protobluff.Common.{
  ℕ, sym, ap, ◌++◌, suc, ◌-◌, ◌^◌, ◌≡◌, refl, arith, true, some, List, [], ◌∷◌, length,
}
use protobluff.Core.Types.{
  no_error, varint, offset, ok, err, ◌>>=◌, uint32, sint32, optional, repeated, wire_number,
}
use protobluff.Core.Varint
use protobluff.Core.Varint.Base128.{base128}
use protobluff.Core.Heap.{heap, heap-IsAllocator, heap-ample}
use protobluff.Core.Buffer.{Buffer, custom, zero_copy, grow, valid, data_from}
use protobluff.Core.Buffer.Laws
use protobluff.Core.Buffer.Laws.{Grows, grow-Grows}
use protobluff.Core.Descriptor.{
  FieldDescriptor, nothing, Descriptor, last, field_by_tag, search_table, search_down, search_at,
  packed, wiretype_map,
}
use protobluff.Core.Stream.{
  Stream, create, left, number, read, skip, read_varint, skip_varint, advance,
}
use protobluff.Core.Stream.Progress
use protobluff.Core.Stream.RoundTrip.{behind, read-wire_scalar}
use protobluff.Core.Decoder.RoundTrip.{keyed-wire_field}
use protobluff.Core.Stream.Progress.{Ahead, read-Ahead, skip-Ahead}
use protobluff.Core.Encoder
use protobluff.Core.Encoder.{Encoder, encode, encode_each, encode_packed, encoder_encode}
use protobluff.Core.Encoder.Layout.{Appends}
use protobluff.Core.Encoder.Wire.{
  wire_packed, wire_field, wire_key, wire_value, wire_values, wire_scalar,
}
use protobluff.Core.Encoder.Runs.{Encodes, encode-Encodes}
use protobluff.Core.Encoder.Packed.{encode_packed-Appends}
use protobluff.Core.Encoder.Encode.{
  Writes, wire_call, AreInputs, encoder_encode-Writes, encode_each-last,
}
use protobluff.Core.Decoder.{
  Decoder, Handler, keyed, packed_rounds, rounds, decode, field, plain_field, packed_field,
  packed_value, handled,
}
use protobluff.Core.Decoder.Progress.{Moves, round-Moves}
use protobluff.Core.Decoder.Rounds.{
  Ended, before, is_left, packed_rounds-Ended, rounds-Ended, decode_complete,
}

abbrev id_field : FieldDescriptor
id_field = record {
  tag = 1;
  type = uint32;
  label = optional;
  refer = 0;
  value = nothing;
  flags = 0;
}

abbrev values_field : FieldDescriptor
values_field = record {
  tag = 3;
  type = sint32;
  label = repeated;
  refer = 0;
  value = nothing;
  flags = 1;
}

abbrev person : Descriptor
person = last (record { address = 100; fields = id_field ∷ values_field ∷ [] })

abbrev fresh : Buffer
fresh = record { allocator = custom; block = []; size = 0 }

fresh-IsValid : Laws.IsValid fresh
fresh-IsValid = record { holds = omega arith; small = omega arith; not_null = λ e. cc }

grow-Grows_example : Grows fresh 3 (grow heap tt fresh 3)
grow-Grows_example = grow-Grows heap heap-IsAllocator tt fresh 3 fresh-IsValid (omega arith)

-- The value 5 of field 1, and the values 1 and -1 of field 3.
abbrev five : Encoder.Input
five = Encoder.number 5

abbrev both : List Encoder.Input
both = Encoder.number 1 ∷ Encoder.number (2 ^ 32 - 1) ∷ []

length-five : length (wire_field id_field five) ≡ 2
unfolding wire_field wire_key wire_value wire_scalar base128 wire_number wiretype_map
length-five = refl

length-both : (length (wire_packed values_field both) ≡ 4) × (length (wire_values sint32 both) ≡ 2)
unfolding wire_packed wire_values wire_key wire_value wire_scalar base128 wire_number
length-both = (refl, refl)

encode-Encodes_example :
    Encodes (λ r. Unit) fresh id_field five (encode heap tt fresh id_field five)
encode-Encodes_example =
    encode-Encodes heap heap-IsAllocator (λ r. Unit) (λ m b n e. tt) tt fresh id_field five
      fresh-IsValid (omega arith) (omega arith) (omega (arith, length-five))

encode_packed-Appends_example :
    Appends
      (λ r. Unit)
      fresh
      (wire_packed values_field both)
      (encode_packed heap tt fresh values_field both)
encode_packed-Appends_example =
    encode_packed-Appends heap heap-IsAllocator (λ r. Unit) (λ m b n e. tt) tt fresh values_field
      both fresh-IsValid (omega arith) (omega arith, (omega arith, tt))
      (omega (arith, length-both.1)) (omega (arith, length-both.0))

abbrev writer : Encoder
writer = record { descriptor = some person; buffer = fresh }

both-AreInputs : AreInputs values_field both
both-AreInputs = record {
  typed = (omega arith, (omega arith, tt));
  numbers = λ e. (omega arith, (omega arith, tt));
  counted = omega (arith, length-both.1);
}

length-call : length (wire_call values_field both) ≡ 4
unfolding wire_call packed
length-call = length-both.0

find_values : field_by_tag person 3 ≡ some values_field
unfolding field_by_tag search_table search_down search_at
find_values = refl

encoder_encode-Writes_example :
    Writes fresh (wire_call values_field both) (encoder_encode heap tt writer 3 both)
encoder_encode-Writes_example =
    encoder_encode-Writes heap heap-IsAllocator heap-ample tt writer person values_field 3 both
      fresh-IsValid refl refl find_values (omega arith) both-AreInputs (omega (arith, length-call))

encode_each-last_example : encode_each heap tt fresh id_field (five ∷ five ∷ []) no_error ≡ (
    encode_each heap tt fresh id_field (five ∷ []) no_error >>= λ r.
    encode heap r.2 r.1 id_field five)
encode_each-last_example = encode_each-last heap tt fresh id_field (five ∷ []) five no_error

-- The message that these two fields make, and one that ends in a field.
abbrev message_bytes : Buffer
message_bytes = record {
  allocator = zero_copy;
  block = 0x08 ∷ 0x05 ∷ 0x1A ∷ 0x02 ∷ 0x02 ∷ 0x01 ∷ [];
  size = 6;
}

abbrev short_bytes : Buffer
short_bytes = record { allocator = zero_copy; block = 0x88 ∷ []; size = 1 }

abbrev start : Stream
start = record { buffer = message_bytes; position = 0 }

abbrev second : Stream
second = record { buffer = message_bytes; position = 1 }

abbrev short : Stream
short = record { buffer = short_bytes; position = 0 }

start-IsValid : Progress.IsValid start
start-IsValid = record { holds = omega arith; small = omega arith; inside = omega arith }

read_start : read start uint32 ≡ ok (number 8, second)
unfolding read read_varint Varint.unpack Varint.unpack_uint32 Varint.unpack_width
    Varint.unpack_rounds Varint.result data_from left advance
read_start = refl

skip_start : skip start 0 ≡ ok second
unfolding skip skip_varint Varint.scan Varint.scan_loop data_from left advance
skip_start = refl

read_short : read short uint32 ≡ err varint
unfolding read read_varint Varint.unpack Varint.unpack_uint32 Varint.unpack_width
    Varint.unpack_rounds Varint.result data_from left advance
read_short = refl

skip-short : skip short 1 ≡ err offset
unfolding skip advance
skip-short = refl

-- A handler that counts the values.
abbrev count : Handler ℕ
count d v n = (no_error, suc n)

round-Moves_example : Moves start (keyed count person (read start uint32) start 0)
round-Moves_example = round-Moves count person start 0 start-IsValid

left_start : left start ≡ 6
unfolding left
left_start = refl

packed_rounds-Ended_example :
    Ended (before 6) (packed_rounds count 6 values_field 6 no_error start 0)
packed_rounds-Ended_example =
    packed_rounds-Ended count 6 values_field 6 no_error start 0 start-IsValid (omega arith)
      (omega (arith, left_start))

rounds-Ended_example : Ended is_left (rounds count 6 person no_error start 0)
rounds-Ended_example =
    rounds-Ended count 6 person no_error start 0 start-IsValid (omega (arith, left_start))

abbrev reader : Decoder
reader = record { descriptor = person; buffer = message_bytes }

-- Three values are found: one, and two in packed encoding.
decode-reader : decode count reader 0 ≡ ok (no_error, 3)
unfolding decode rounds keyed field plain_field packed_field packed_rounds packed_value handled
    create left valid read read_varint advance data_from Varint.unpack Varint.unpack_uint32
    Varint.unpack_sint32 Varint.unzigzag Varint.unpack_width Varint.unpack_rounds Varint.result
    field_by_tag search_table search_down search_at wiretype_map wire_number
decode-reader = refl

create-IsValid : Progress.IsValid (create message_bytes)
unfolding create
create-IsValid = start-IsValid

valid_reader : valid message_bytes ≡ true
unfolding valid
valid_reader = refl

decode_complete_example :
    (s : Stream) × (rounds count
        (left (create message_bytes))
        person
        no_error
        (create message_bytes)
        0
      ≡ ok (no_error, s, 3))
    × (left s ≡ 0)
decode_complete_example = decode_complete count reader 0 3 create-IsValid valid_reader decode-reader

-- What the first byte of the message and its first field are.
key_bytes : wire_scalar uint32 8 ≡ 0x08 ∷ []
unfolding wire_scalar base128
key_bytes = refl

field_bytes : wire_field id_field five ≡ 0x08 ∷ 0x05 ∷ []
unfolding wire_field wire_key wire_value wire_scalar base128 wire_number wiretype_map
field_bytes = refl

read-wire_scalar_example :
    read start uint32 ≡ ok (number 8, behind start (length (wire_scalar uint32 8)))
read-wire_scalar_example =
    read-wire_scalar start uint32 8 (0x05 ∷ 0x1A ∷ 0x02 ∷ 0x02 ∷ 0x01 ∷ []) start-IsValid
      (omega arith) (sym (ap (λ p. p ++ (0x05 ∷ 0x1A ∷ 0x02 ∷ 0x02 ∷ 0x01 ∷ [])) key_bytes))
      (omega (arith, left_start, ap length key_bytes))

find_id : field_by_tag person 1 ≡ some id_field
unfolding field_by_tag search_table search_down search_at
find_id = refl

keyed-wire_field_example :
    keyed count person (read start uint32) start 0
    ≡ ok (no_error, behind start (length (wire_field id_field five)), 1)
keyed-wire_field_example =
    keyed-wire_field count person id_field start 0 5 (0x1A ∷ 0x02 ∷ 0x02 ∷ 0x01 ∷ []) start-IsValid
      (omega arith) find_id (omega arith)
      (sym (ap (λ p. p ++ (0x1A ∷ 0x02 ∷ 0x02 ∷ 0x01 ∷ [])) field_bytes))
      (omega (arith, left_start, ap length field_bytes))
