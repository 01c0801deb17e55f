-- ===== src/Message/Cursor/Next.antt =====
-- `next_packed`, `next`, `pb_cursor_align` and `pb_cursor_next` of src/message/cursor.c. Where a call
-- leaves the cursor with an error, what it leaves in the offsets is not modelled: no caller reads them.
use protobluff.Common.{
  ℕ, zero, suc, ◌+◌, ◌*◌, ◌%◌, ◌/◌, Bool, true, false, not, ◌&&◌, Option, none, some, ◌==◌,
  if◌then◌else◌, add_size, sub_size,
}
use protobluff.Core.Types.{Error, no_error, eom, wire_number, Outcome, ok, err}
use protobluff.Core.Buffer.{Buffer, data_from, create_zero_copy_internal}
use protobluff.Core.Descriptor.{FieldDescriptor, Descriptor, field_by_tag, packed, wiretype_map}
use protobluff.Core.Stream.{Stream, create, create_at, left, skip}
use protobluff.Message.Journal
use protobluff.Message.Journal.{Journal, Offset}
use protobluff.Message.Run.{Run, done, fault, out_of_fuel}
use protobluff.Message.Cursor.{
  Message, message_align, Cursor, is_none, cursor_version, cursor_aligned,
}
use protobluff.Message.Cursor.Scan.{scan_field}

-- The answer of a step: the test result and the cursor.
abbrev pub Moved : Type 0
Moved = Bool × Cursor

-- Back to the field behind the packed one.
unfoldable pub leave_packed : Cursor → Cursor
leave_packed c = record c { offset = c.packed; packed = record c.packed { end = 0 } }

-- A value of the packed field, on what the skip comes to.
unfoldable pub packed_step : Cursor → Outcome Stream → Run Moved
unfolding leave_packed
packed_step c (ok s) = done (
  true,
  record c {
    offset = record c.offset {
      start = c.offset.end;
      end = add_size c.offset.end s.position;
      diff_origin = sub_size c.offset.diff_origin (sub_size c.offset.end c.offset.start);
    };
    error = no_error;
  },
)
packed_step c (err e) = done (false, record (leave_packed c) { error = e })
packed_step c Outcome.fault = fault

-- The wire type of the current descriptor; a cursor in a packed field has one.
unfoldable pub packed_value : Cursor → Stream → Option FieldDescriptor → Run Moved
unfolding packed_step
packed_value c s none = fault
packed_value c s (some d) = packed_step c (skip s (wire_number (wiretype_map d.type)))

unfoldable pub next_packed : Journal → Cursor → Run Moved
unfolding packed_value leave_packed
next_packed j c =
    let s = create (
      create_zero_copy_internal (data_from j.buffer c.offset.end)
        (sub_size c.packed.end c.offset.end)) in
    if left s == 0 then done (false, leave_packed c) else packed_value c s c.descriptor

-- `pb_descriptor_field_by_tag(pb_message_descriptor(…), tag)`.
abbrev pub find_field : Option Descriptor → ℕ → Option FieldDescriptor
find_field none tag = none
find_field (some d) tag = field_by_tag d tag

-- The descriptor of the tag: the current one if it fits.
unfoldable pub field_for : Option FieldDescriptor → Option Descriptor → ℕ → Option FieldDescriptor
field_for none d tag = find_field d tag
field_for (some f) d tag = if f.tag == tag then some f else find_field d tag

-- A field with a descriptor is reached: a length-prefixed one of another wire type is packed.
unfoldable pub entered : Cursor → ℕ → FieldDescriptor → Moved
entered c wiretype d =
    if not (wiretype == wire_number (wiretype_map d.type)) && (wiretype == 2)
    then (
      c.offset.end == 0,
      record c {
        packed = c.offset;
        offset = record c.offset { end = c.offset.start; diff_tag = 0; diff_length = 0 };
      },
    )
    else (c.packed.end == 0, c)

-- One round of the loop of `next`, behind the search for the descriptor; `again` is the next round.
unfoldable pub described : (Cursor → Run Moved) → Cursor → ℕ → Option FieldDescriptor → Run Moved
unfolding entered
described again c wiretype none = again (record c { descriptor = none })
described again c wiretype (some d) = done (entered (record c { descriptor = some d }) wiretype d)

unfoldable pub next_step : (Cursor → Run Moved) → Cursor → Outcome (ℕ × Offset) → Run Moved
unfolding described field_for
next_step again c (ok (key, o)) =
    if not (c.tag == 0) && not (c.tag == key / 8)
    then again (record c { offset = o; error = no_error })
    else described again (record c { offset = o; error = no_error }) (key % 8)
        (field_for c.descriptor c.message.descriptor (key / 8))
next_step again c (err e) = done (false, record c { error = e })
next_step again c Outcome.fault = fault

-- The buffer of `next`: the journal's, up to the end of the message.
abbrev pub message_buffer : Journal → Cursor → Buffer
message_buffer j c = create_zero_copy_internal (data_from j.buffer 0) c.message.part.offset.end

-- `next`: a round begins where the last one ended. The fuel counts the rounds.
unfoldable pub next : ℕ → Journal → Cursor → Run Moved
unfolding next_step
next zero j c = out_of_fuel
next (suc fuel) j c =
    let s = create_at (message_buffer j c) c.offset.end in
    if left s == 0
    then done (false, record c { error = eom })
    else next_step (next fuel j) c (scan_field c.message.part.offset.start s)

-- `pb_cursor_align`, behind the alignment of the packed context and of the message.
unfoldable pub align_offset : Journal → ℕ → Cursor → Error × Message → Error × Cursor
align_offset j version c (no_error, w) =
    let (e, version', o) = Journal.align j version c.offset in
    (e, record c { message = w; offset = o })
align_offset j version c (e, w) = (e, record c { message = w })

abbrev align_packed : Journal → Cursor → FieldDescriptor → Cursor
align_packed j c d =
    if packed d then record c { packed = (Journal.align j (cursor_version c) c.packed).2 } else c

unfoldable pub align_described : Journal → Cursor → Option FieldDescriptor → Run (Error × Cursor)
unfolding align_offset
align_described j c none = fault
align_described j c (some d) =
    done (align_offset j (cursor_version c) (align_packed j c d) (message_align j c.message))

unfoldable pub cursor_align : Journal → Cursor → Run (Error × Cursor)
unfolding align_described
cursor_align j c =
    if cursor_aligned j c then done (no_error, c) else align_described j c c.descriptor

-- One step of the loop of `pb_cursor_next`.
unfoldable pub advance_cursor : Journal → Cursor → Run Moved
unfolding next_packed next
advance_cursor j c =
    if c.packed.end == 0 then next (c.message.part.offset.end + 1) j c else next_packed j c

-- Behind the step; `again` is the next one.
unfoldable pub stepped : (Cursor → Run Moved) → Run Moved → Run Moved
stepped again (done (true, c)) = done (true, record c { pos = add_size c.pos 1 })
stepped again (done (false, c)) = if is_none c.error then again c else done (false, c)
stepped again fault = fault
stepped again out_of_fuel = out_of_fuel

unfoldable pub cursor_steps : ℕ → Journal → Cursor → Run Moved
unfolding stepped advance_cursor
cursor_steps zero j c = out_of_fuel
cursor_steps (suc fuel) j c = stepped (cursor_steps fuel j) (advance_cursor j c)

-- Behind the alignment, whose error is not read.
unfoldable pub behind_align : Journal → Run (Error × Cursor) → Run Moved
unfolding cursor_steps
behind_align j (done (e, c)) = cursor_steps (2 * c.message.part.offset.end + 2) j c
behind_align j fault = fault
behind_align j out_of_fuel = out_of_fuel

unfoldable pub cursor_next : Journal → Cursor → Run Moved
unfolding behind_align cursor_align
cursor_next j c = if is_none c.error then behind_align j (cursor_align j c) else done (false, c)
