-- ===== src/Message/Field.antt =====
-- src/message/field.c and field.h: reading and writing one field. What `value` points to is an `Input` of the
-- encoder: a number by its bit pattern, or a string. A function that aligns a cursor or a field answers it too.
pub mod RoundTrip
mod Examples
use protobluff.Common.{
  ℕ, ◌+◌, ◌*◌, ◌%◌, ◌^◌, Bool, true, false, not, ◌&&◌, Option, none, some, List, [], ◌==◌,
  if◌then◌else◌, length, drop,
}
use protobluff.Core.Types.{
  Error, no_error, invalid, FieldType, Wiretype, wire_varint, wire_64bit, wire_length, wire_32bit,
  Outcome, ok, err,
}
use protobluff.Core.Varint
use protobluff.Core.Memory.{Allocator}
use protobluff.Core.Text.{Text, text_init, equal_memory, text_equals}
use protobluff.Core.Descriptor.{FieldDescriptor, is_message, type_size, wiretype_map}
use protobluff.Core.Stream.{Stream, Value, number, text, read}
use protobluff.Core.Encoder.{Input, le_bytes}
use protobluff.Core.Encoder
use protobluff.Message.Journal.{Journal}
use protobluff.Message.Run.{Run, done, fault, Act, pure, ◌>>=◌, on_done}
use protobluff.Message.Part.{
  Part, part_create_invalid, part_valid, part_destroy, realign, create_from_part,
}
use protobluff.Message.Part.Edit.{part_write, part_clear}
use protobluff.Message.Cursor.{Cursor, is_none, cursor_version}
use protobluff.Message.Cursor.Next.{cursor_align}

-- `pb_field_t`. An invalid field has no descriptor.
pub record Field : Type 0 where
  pub descriptor : Option FieldDescriptor
  pub part : Part

unfoldable pub field_create_invalid : Field
field_create_invalid = record { descriptor = none; part = part_create_invalid }

unfoldable pub field_destroy : Field → Field
field_destroy f = record f { part = part_destroy f.part }

unfoldable pub field_valid : Field → Bool
field_valid f = part_valid f.part

unfoldable pub field_align : Journal → Field → Error × Field
field_align j f = let (e, p) = realign j f.part in (e, record f { part = p })

-- `pb_part_create_from_cursor`, behind the alignment of the cursor.
unfoldable pub part_at : Error × Cursor → Part
part_at (no_error, c) = record { version = cursor_version c; offset = c.offset }
part_at (e, c) = part_create_invalid

unfoldable pub part_create_from_cursor : Journal → Cursor → Run (Part × Cursor)
unfolding part_at
part_create_from_cursor j c =
    if is_none c.error
    then on_done (cursor_align j c) (λ r. done (part_at r, r.1))
    else done (part_create_invalid, c)

-- `pb_field_create_from_cursor`: not at a submessage.
unfoldable pub field_at : Journal → Cursor → Option FieldDescriptor → Run (Field × Cursor)
unfolding part_create_from_cursor
field_at j c none = done (field_create_invalid, c)
field_at j c (some d) =
    if is_message d.type
    then done (field_create_invalid, c)
    else on_done (part_create_from_cursor j c)
        (λ r. done (record { descriptor = some d; part = r.0 }, r.1))

unfoldable pub field_create_from_cursor : Journal → Cursor → Run (Field × Cursor)
unfolding field_at
field_create_from_cursor j c =
    if is_none c.error then field_at j c c.descriptor else done (field_create_invalid, c)

-- An answer with the value read.
abbrev pub Got : Type 0
Got = Error × Option Value

-- `error = pb_stream_read(…)`.
unfoldable pub got : Outcome (Value × Stream) → Run Got
got (ok (v, s)) = done (no_error, some v)
got (err e) = done (e, none)
got Outcome.fault = fault

unfoldable pub get_aligned : Journal → Error × Field → Option FieldDescriptor → Run Got
unfolding got
get_aligned j (no_error, f) (some d) = got (read (create_from_part j f.part) d.type)
get_aligned j (no_error, f) none = fault
get_aligned j (e, f) d = done (invalid, none)

unfoldable pub field_get : Journal → Field → Run (Got × Field)
unfolding get_aligned
field_get j f =
    if field_valid f
    then on_done (get_aligned j (field_align j f) f.descriptor) (λ r. done (r, (field_align j f).1))
    else done ((invalid, none), f)

-- The two blocks of a value that was read and of the one that it is compared with.
unfoldable pub equal_values : Journal → FieldDescriptor → Input → Value → Outcome Bool
equal_values j d (Input.number v) (number x) =
    equal_memory (le_bytes (type_size d.type) v) (le_bytes (type_size d.type) x) (type_size d.type)
equal_values j d (Input.text block n) (text from size) =
    text_equals (text_init block n) (text_init (drop from j.buffer.block) size)
equal_values j d _ _ = Outcome.fault

unfoldable pub matched : Outcome Bool → Run Bool
matched (ok b) = done b
matched (err e) = fault
matched Outcome.fault = fault

unfoldable pub match_got : Journal → Option FieldDescriptor → Input → Got → Run Bool
unfolding matched equal_values
match_got j (some d) v (no_error, some x) = matched (equal_values j d v x)
match_got j d v r = done false

-- `pb_field_match`: false too if the field cannot be read.
unfoldable pub field_match : Journal → Field → Input → Run (Bool × Field)
unfolding match_got field_get
field_match j f v =
    on_done (field_get j f) (λ (r, f'). on_done (match_got j f.descriptor v r) (λ b. done (b, f')))

-- The bytes with their number.
unfoldable pub with_length : Outcome (List ℕ) → Outcome (List ℕ × ℕ)
with_length (ok bytes) = ok (bytes, length bytes)
with_length (err e) = err e
with_length Outcome.fault = Outcome.fault

-- What is written of a value, by the wire type of its field.
unfoldable pub raw_value : FieldType → Wiretype → Input → Outcome (List ℕ × ℕ)
unfolding with_length
raw_value t wire_varint (Input.number v) = with_length (Varint.pack t v)
raw_value t wire_64bit (Input.number v) = ok (le_bytes 8 v, 8)
raw_value t wire_32bit (Input.number v) = ok (le_bytes 4 v, 4)
raw_value t wire_length (Input.text block n) = ok (block, n)
raw_value t _ _ = Outcome.fault

module _ {M : Type 0} (a : Allocator M) where
  unfoldable pub put_raw : Field → Outcome (List ℕ × ℕ) → Act M (Error × Field)
  put_raw f (ok (bytes, n)) =
      part_write a f.part bytes n >>= λ r. pure (r.0, record f { part = r.1 })
  put_raw f (err e) = λ s. fault
  put_raw f Outcome.fault = λ s. fault

  unfoldable pub put_described : Field → Option FieldDescriptor → Input → Act M (Error × Field)
  unfolding put_raw raw_value
  put_described f none v = λ s. fault
  put_described f (some d) v = put_raw f (raw_value d.type (wiretype_map d.type) v)

  unfoldable pub field_put : Field → Input → Act M (Error × Field)
  unfolding put_described
  field_put f v = if field_valid f then put_described f f.descriptor v else pure (invalid, f)

  unfoldable pub field_clear : Field → Act M (Error × Field)
  field_clear f = part_clear a f.part >>= λ r. pure (r.0, record f { part = r.1 })
