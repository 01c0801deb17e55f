-- ===== src/Message/Cursor/Create.antt =====
-- The functions of src/message/cursor.c that make a cursor, and `pb_cursor_rewind`. A message that is aligned
-- on the way is answered too.
use protobluff.Common.{
  ℕ, zero, suc, ◌+◌, ◌-◌, ◌^◌, true, false, Option, none, some, ◌==◌, if◌then◌else◌,
}
use protobluff.Core.Types.{Error, no_error, eom}
use protobluff.Core.Descriptor.{FieldDescriptor, is_oneof, is_repeated, oneof_of}
use protobluff.Message.Journal.{Journal}
use protobluff.Message.Run.{Run, done, fault, out_of_fuel, on_done}
use protobluff.Message.Cursor.{
  Message, message_valid, message_align, Cursor, zero_offset, cursor_create_invalid, is_none,
  cursor_tag,
}
use protobluff.Message.Cursor.Next.{Moved, find_field, cursor_next}

-- The cursor in front of the first field, at the start of the message.
unfoldable pub cursor_at_start : Message → ℕ → Cursor
cursor_at_start w tag = record {
  message = w;
  tag = tag;
  descriptor = if tag == 0 then none else find_field w.descriptor tag;
  offset = record zero_offset { start = w.part.offset.start; end = w.part.offset.start };
  packed = zero_offset;
  pos = 2 ^ 64 - 1;
  error = no_error;
}

-- `if (!pb_cursor_next(&cursor)) cursor.pos = 0`.
unfoldable pub first_field : Moved → Cursor
first_field (true, c) = c
first_field (false, c) = record c { pos = 0 }

unfoldable pub create_aligned : Journal → Error × Message → ℕ → Run (Cursor × Message)
unfolding cursor_at_start first_field
create_aligned j (no_error, w) tag =
    on_done (cursor_next j (cursor_at_start w tag)) (λ r. done (first_field r, w))
create_aligned j (e, w) tag = done (cursor_create_invalid, w)

unfoldable pub create_unsafe : Journal → Message → ℕ → Run (Cursor × Message)
unfolding create_aligned
create_unsafe j w tag =
    if message_valid w
    then create_aligned j (message_align j w) tag
    else done (cursor_create_invalid, w)

unfoldable pub create_without_tag : Journal → Message → Run (Cursor × Message)
unfolding create_unsafe
create_without_tag j w = create_unsafe j w 0

-- `while (pb_cursor_next(&temp)) if (tag == …) cursor = temp`, behind a call; `again` is the next round.
unfoldable pub keep_last : (Cursor → Cursor → Run Cursor) → ℕ → Cursor → Moved → Run Cursor
keep_last again tag c (true, temp) = again (if tag == cursor_tag temp then temp else c) temp
keep_last again tag c (false, temp) = done c

unfoldable pub last_occurrence : ℕ → Journal → ℕ → Cursor → Cursor → Run Cursor
unfolding keep_last
last_occurrence zero j tag c temp = out_of_fuel
last_occurrence (suc fuel) j tag c temp =
    on_done (cursor_next j temp) (keep_last (last_occurrence fuel j tag) tag c)

-- The oneof that a cursor's descriptor is in.
abbrev pub oneof_at : Option FieldDescriptor → ℕ
oneof_at none = 0
oneof_at (some d) = oneof_of d

-- The loop that looks for a later member of the oneof: it compares with the descriptor of `cursor`.
unfoldable pub mask_member : (Cursor → Run Cursor) → FieldDescriptor → Cursor → Moved → Run Cursor
mask_member again d c (true, temp) =
    if oneof_of d == oneof_at c.descriptor then done (record c { error = eom }) else again temp
mask_member again d c (false, temp) = done c

unfoldable pub mask_inactive : ℕ → Journal → FieldDescriptor → Cursor → Cursor → Run Cursor
unfolding mask_member
mask_inactive zero j d c temp = out_of_fuel
mask_inactive (suc fuel) j d c temp =
    on_done (cursor_next j temp) (mask_member (mask_inactive fuel j d c) d c)

-- How often a cursor can move: each time by a byte at least.
abbrev pub most_moves : Cursor → ℕ
most_moves c = c.message.part.offset.end + 1

unfoldable pub check_oneof : Journal → FieldDescriptor → Cursor → Run Cursor
unfolding mask_inactive
check_oneof j d c =
    if is_oneof d.label then mask_inactive (most_moves c) j d c (record c { tag = 0 }) else done c

-- `pb_cursor_create` on a valid cursor with a descriptor.
unfoldable pub active_occurrence : Journal → ℕ → Cursor → Option FieldDescriptor → Run Cursor
unfolding check_oneof last_occurrence
active_occurrence j tag c none = fault
active_occurrence j tag c (some d) =
    if is_repeated d.label
    then done c
    else on_done (last_occurrence (most_moves c) j tag c c) (check_oneof j d)

unfoldable pub cursor_active : Journal → ℕ → Cursor × Message → Run (Cursor × Message)
unfolding active_occurrence
cursor_active j tag (c, w) =
    if is_none c.error
    then on_done (active_occurrence j tag c c.descriptor) (λ c'. done (c', w))
    else done (c, w)

unfoldable pub cursor_create : Journal → Message → ℕ → Run (Cursor × Message)
unfolding cursor_active create_unsafe
cursor_create j w tag = on_done (create_unsafe j w tag) (cursor_active j tag)

-- The cursor's own message is destroyed with it.
unfoldable pub rewind : Journal → Cursor → Run Moved
unfolding create_unsafe
rewind j c = on_done (create_unsafe j c.message c.tag) (λ r. done (is_none (r.0).error, r.0))
