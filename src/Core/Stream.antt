-- ===== src/Core/Stream.antt =====
-- src/core/stream.c and src/core/stream.h: reading and skipping values in a buffer.
-- A stream is read through a constant buffer, so its state is the offset. Where a call reports an
-- error, the stream is as before it, and what it left in `*value` is not modelled: no caller reads it.
pub mod Progress
pub mod Errors
pub mod RoundTrip
use protobluff.Common.{
  ℕ, zero, suc, ◌+◌, ◌-◌, ◌*◌, ◌%◌, ◌/◌, ◌^◌, Bool, true, false, List, [], ◌∷◌, ltb, ◌==◌,
  if◌then◌else◌, length, take, drop, add_size, sub_size,
}
use protobluff.Core.Types.{
  Error, varint, offset, Wiretype, wire_varint, wire_64bit, wire_length, wire_32bit, FieldType,
  undefined, int32, int64, uint32, uint64, sint32, sint64, fixed32, fixed64, sfixed32, sfixed64,
  bool, enum, float, double, string, bytes, message, Outcome, ok, err, fault, ◌>>=◌,
}
use protobluff.Core.Varint
use protobluff.Core.Memory.{load}
use protobluff.Core.Buffer.{Buffer, data_from}

-- `pb_stream_t`, with the buffer that its pointer leads to.
pub record Stream : Type 0 where
  pub buffer : Buffer
  pub position : ℕ

unfoldable pub create : Buffer → Stream
create b = record { buffer = b; position = 0 }

unfoldable pub create_at : Buffer → ℕ → Stream
create_at b position = record { buffer = b; position = position }

unfoldable pub left : Stream → ℕ
left s = sub_size s.buffer.size s.position

unfoldable pub empty : Stream → Bool
empty s = s.buffer.size == 0

-- What `value` points to after a read: a number by its bit pattern, or a `pb_string_t`, which
-- is an offset into the buffer and a size.
pub data Value : Type 0 where
  number : ℕ → Value
  text : ℕ → ℕ → Value

unfoldable pub advance : Stream → ℕ → Outcome Stream
unfolding left
advance s n =
    if ltb (left s) n then err offset else ok (record s { position = add_size s.position n })

-- The number that bytes stand for on a little-endian machine.
abbrev pub little_endian : List ℕ → ℕ
little_endian [] = 0
little_endian (b ∷ bs) = b + 256 * little_endian bs

unfoldable pub read_varint : Stream → FieldType → Outcome (Value × Stream)
read_varint s t = do
  (size, v) ← Varint.unpack t (data_from s.buffer s.position) (left s)
  let done = advance s size >>= λ s'. ok (number v, s')
  if size == 0 then err varint else done

-- `read_64bit` and `read_32bit`: advance, and copy the bytes passed over.
unfoldable pub read_fixed : ℕ → Stream → Outcome (Value × Stream)
read_fixed n s = do
  s' ← advance s n
  raw ← load s'.buffer.block (sub_size s'.position n) n
  ok (number (little_endian raw), s')

unfoldable pub read_64bit : Stream → Outcome (Value × Stream)
unfolding read_fixed
read_64bit s = read_fixed 8 s

unfoldable pub read_32bit : Stream → Outcome (Value × Stream)
unfolding read_fixed
read_32bit s = read_fixed 4 s

unfoldable pub read_length : Stream → Outcome (Value × Stream)
read_length s = do
  (size, n) ← Varint.unpack_uint32 (data_from s.buffer s.position) (left s)
  let done = advance s (add_size size n) >>= λ s'. ok (text (add_size s.position size) n, s')
  if size == 0 then err varint else done

unfoldable pub skip_varint : Stream → Outcome Stream
skip_varint s = do
  size ← Varint.scan (data_from s.buffer s.position) (left s)
  if size == 0 then err varint else advance s size

unfoldable pub skip_length : Stream → Outcome Stream
skip_length s = do
  (size, n) ← Varint.unpack_uint32 (data_from s.buffer s.position) (left s)
  if size == 0 then err varint else advance s (add_size size n)

-- `pb_stream_read_jump`; `fault` is the call of a null pointer.
unfoldable pub read : Stream → FieldType → Outcome (Value × Stream)
read s int32 = read_varint s int32
read s int64 = read_varint s int64
read s uint32 = read_varint s uint32
read s uint64 = read_varint s uint64
read s sint32 = read_varint s sint32
read s sint64 = read_varint s sint64
read s fixed32 = read_32bit s
read s fixed64 = read_64bit s
read s sfixed32 = read_32bit s
read s sfixed64 = read_64bit s
read s bool = read_varint s bool
read s enum = read_varint s enum
read s float = read_32bit s
read s double = read_64bit s
read s string = read_length s
read s bytes = read_length s
read s message = read_length s
read s undefined = fault

-- `pb_stream_skip_jump`, at any three bits: 3, 4 and 6 are null, and 7 lies behind the table.
unfoldable pub skip : Stream → ℕ → Outcome Stream
skip s wiretype =
    if wiretype == 0
    then skip_varint s
    else if wiretype == 1
    then advance s 8
    else if wiretype == 2
    then skip_length s
    else if wiretype == 5
    then advance s 4
    else fault
