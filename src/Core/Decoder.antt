-- ===== src/Core/Decoder.antt =====
-- src/core/decoder.c: walking over the fields of a message and handing each value to a handler.
-- `U` is the state behind `user`, which the handler changes. A loop is run for a number of rounds, and
-- ends before if its condition is false; it is given as many rounds as the stream has bytes left.
pub mod Progress
pub mod Rounds
pub mod RoundTrip
use protobluff.Common.{
  ℕ, zero, suc, ◌+◌, ◌-◌, ◌*◌, ◌/◌, ◌%◌, Bool, true, false, not, ◌&&◌, Option, none, some, List, [],
  ◌∷◌, ltb, ◌==◌, if◌then◌else◌, add_size, shr, bit_and,
}
use protobluff.Core.Types.{
  Error, no_error, alloc, invalid, varint, offset, absent, eom, wire_number, FieldType, message,
  undefined, int32, int64, uint32, uint64, sint32, sint64, fixed32, fixed64, sfixed32, sfixed64,
  bool, enum, float, double, string, bytes, Outcome, ok, err, fault, ◌>>=◌,
}
use protobluff.Core.Buffer.{Buffer, valid, data_from, create_zero_copy_internal}
use protobluff.Core.Descriptor.{FieldDescriptor, Descriptor, field_by_tag, wiretype_map}
use protobluff.Core.Stream.{Stream, create, left, Value, number, text, read, skip}

-- `pb_decoder_t`.
pub record Decoder : Type 0 where
  pub descriptor : Descriptor
  pub buffer : Buffer

unfoldable pub create_decoder : Descriptor → Buffer → Decoder
create_decoder d b = record { descriptor = d; buffer = b }

-- What a handler is given: a pointer to a value, or a decoder for a nested message, which is the
-- reference to its descriptor and a zero-copy buffer.
pub data Decoded : Type 0 where
  value : Value → Decoded
  decoder : ℕ → Buffer → Decoded

-- `pb_decoder_handler_f`.
abbrev pub Handler : Type 0 → Type 0
Handler U = FieldDescriptor → Decoded → U → Error × U

-- `error`, `stream` and `*user` in the loops.
abbrev pub State : Type 0 → Type 0
State U = Error × Stream × U

abbrev pub no_failure : Error → Bool
no_failure no_error = true
no_failure alloc = false
no_failure invalid = false
no_failure varint = false
no_failure offset = false
no_failure absent = false
no_failure eom = false

-- `error = pb_stream_skip(&stream, wiretype)`.
unfoldable pub skipped : {U : Type 0} → Outcome Stream → Stream → U → Outcome (State U)
skipped (ok s') s u = ok (no_error, s', u)
skipped (err e) s u = ok (e, s, u)
skipped fault s u = fault

module _ {U : Type 0} (handler : Handler U) where
  -- The handler is called, with the stream behind the value.
  unfoldable pub handled : FieldDescriptor → Decoded → Stream → U → State U
  handled d v s u = ((handler d v u).0, s, (handler d v u).1)

  -- The body of the packed loop, on what the read comes to.
  unfoldable pub packed_value :
      FieldDescriptor → Outcome (Value × Stream) → Stream → U → Outcome (State U)
  unfolding handled
  packed_value d (ok (v, s')) s u = ok (handled d (value v) s' u)
  packed_value d (err e) s u = ok (e, s, u)
  packed_value d fault s u = fault

  -- `while (!error && pb_stream_offset(&stream) < offset + length)`, for at most `n` rounds.
  unfoldable pub packed_rounds : ℕ → FieldDescriptor → ℕ → Error → Stream → U → Outcome (State U)
  unfolding packed_value
  packed_rounds zero d stop e s u = ok (e, s, u)
  packed_rounds (suc n) d stop e s u =
      let more = packed_value d (read s d.type) s u >>= λ r. packed_rounds n d stop r.0 r.1 r.2 in
      if no_failure e && ltb s.position stop then more else ok (e, s, u)

  -- A field in packed encoding, on what the read of its length comes to.
  unfoldable pub packed_field :
      FieldDescriptor → Outcome (Value × Stream) → Stream → U → Outcome (State U)
  unfolding packed_rounds left
  packed_field d (ok (number n, s')) s u =
      let values = packed_rounds (left s') d (add_size s'.position n) no_error s' u in
      if ltb s'.buffer.size (add_size s'.position n) then ok (offset, s', u) else values
  packed_field d (ok (text from n, s')) s u = fault
  packed_field d (err e) s u = ok (e, s, u)
  packed_field d fault s u = fault

  -- Any other field, on what the read of its value comes to.
  unfoldable pub plain_field :
      FieldDescriptor → Outcome (Value × Stream) → Stream → U → Outcome (State U)
  unfolding handled data_from create_zero_copy_internal
  plain_field d (ok (text from n, s')) s u =
      let nested = decoder d.refer (create_zero_copy_internal (data_from s'.buffer from) n) in
      ok (handled d (if is_message d.type then nested else value (text from n)) s' u)
    where
      is_message : FieldType → Bool
      is_message message = true
      is_message _ = false
  plain_field d (ok (number v, s')) s u = ok (handled d (value (number v)) s' u)
  plain_field d (err e) s u = ok (e, s, u)
  plain_field d fault s u = fault

  -- A field behind its key, on what the search for its descriptor comes to.
  unfoldable pub field : Option FieldDescriptor → ℕ → Stream → U → Outcome (State U)
  unfolding skipped packed_field plain_field
  field none wiretype s u = skipped (skip s wiretype) s u
  field (some d) wiretype s u =
      if not (wiretype == wire_number (wiretype_map d.type)) && wiretype == 2
      then packed_field d (read s uint32) s u
      else plain_field d (read s d.type) s u

  -- One round of the loop, on what the read of the key comes to.
  unfoldable pub keyed : Descriptor → Outcome (Value × Stream) → Stream → U → Outcome (State U)
  unfolding field
  keyed r (ok (number key, s')) s u = field (field_by_tag r (shr key 3)) (bit_and key 7) s' u
  keyed r (ok (text from n, s')) s u = fault
  keyed r (err e) s u = ok (e, s, u)
  keyed r fault s u = fault

  -- `while (!error && pb_stream_left(&stream))`, for at most `n` rounds.
  unfoldable pub rounds : ℕ → Descriptor → Error → Stream → U → Outcome (State U)
  unfolding keyed left
  rounds zero r e s u = ok (e, s, u)
  rounds (suc n) r e s u =
      let more = keyed r (read s uint32) s u >>= λ x. rounds n r x.0 x.1 x.2 in
      if no_failure e && not (left s == 0) then more else ok (e, s, u)

  -- `pb_decoder_decode`.
  unfoldable pub decode : Decoder → U → Outcome (Error × U)
  unfolding rounds create left valid
  decode d u =
      if valid d.buffer
      then (rounds (left (create d.buffer)) d.descriptor no_error (create d.buffer) u >>= λ x.
          ok (x.0, x.2))
      else ok (invalid, u)
