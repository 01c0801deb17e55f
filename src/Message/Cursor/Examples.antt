-- ===== src/Message/Cursor/Examples.antt =====
-- Runs of a cursor at concrete inputs.
use protobluff.Common.{ℕ, ◌+◌, ◌-◌, ◌^◌, ◌≡◌, refl, arith, true, false, inl, some, [], ◌∷◌}
use protobluff.Core.Types.{no_error, uint32, oneof, optional, eom}
use protobluff.Core.Buffer.{Buffer, custom}
use protobluff.Core.Descriptor.{FieldDescriptor, nothing, one_of, Descriptor, last}
use protobluff.Message.Journal.{Journal, Offset}
use protobluff.Message.Run.{done}
use protobluff.Message.Cursor.{Message, Cursor}
use protobluff.Message.Cursor.Next.{cursor_next}
use protobluff.Message.Cursor.Create.{create_unsafe, last_occurrence, cursor_create}
use protobluff.Message.Oneof.{Oneof, oneof_case}
use protobluff.Message.Oneof.Case.{Tells, visited, oneof_case-Tells}
use protobluff.Message.Cursor.Lands.{Lands, cursor_create-Lands}
use protobluff.Message.Cursor.Masked.{message_has-masked}
use protobluff.Message.Cursor.Moves.{Moves, cursor_next-Moves}
use protobluff.Message.Message.{message_has}
use protobluff.Core.Buffer.{data_from, create_zero_copy_internal, valid}
use protobluff.Core.Descriptor.{field_by_tag, search_table, search_down, search_at, wiretype_map}
use protobluff.Core.Memory.{load}
use protobluff.Core.Stream.{left, create_at, advance, read, read_varint, skip, skip_varint}
use protobluff.Core.Types.{wire_number}
use protobluff.Core.Varint
use protobluff.Message.Part.{part_valid, realign, part_aligned}
use protobluff.Message.Cursor.{
  message_valid, message_align, message_aligned, cursor_aligned, cursor_tag,
}
use protobluff.Message.Cursor.Scan.{scan_field, scan_value, at_break}
use protobluff.Message.Cursor.Next.{
  advance_cursor, stepped, cursor_steps, cursor_align, behind_align, next, next_step, field_for,
  described, entered,
}
use protobluff.Message.Cursor.Create.{create_aligned, cursor_at_start, first_field, keep_last}

-- A field 1 that is a member of a oneof, and a field 2 that is not; both have the value 5.
abbrev choice : FieldDescriptor
choice = record { tag = 1; type = uint32; label = oneof; refer = 0; value = one_of 200; flags = 0 }

abbrev count : FieldDescriptor
count = record { tag = 2; type = uint32; label = optional; refer = 0; value = nothing; flags = 0 }

abbrev kind : Descriptor
kind = last (record { address = 100; fields = choice ∷ count ∷ [] })

abbrev buffer : Buffer
buffer = record { allocator = custom; block = 0x08 ∷ 0x05 ∷ 0x10 ∷ 0x05 ∷ []; size = 4 }

abbrev journal : Journal
journal = record { buffer = buffer; room = []; entries = [] }

abbrev whole : Message
whole = record {
  descriptor = some kind;
  part = record {
    version = 0;
    offset = record { start = 0; end = 4; diff_origin = 0; diff_tag = 0; diff_length = 0 };
  };
}

-- Where a field with one byte at `start` is, with a key of one byte.
abbrev at_byte : ℕ → Offset
at_byte start = record {
  start = start;
  end = start + 1;
  diff_origin = 2 ^ 64 - start;
  diff_tag = 2 ^ 64 - 1;
  diff_length = 0;
}

abbrev nowhere : Offset
nowhere = record { start = 0; end = 0; diff_origin = 0; diff_tag = 0; diff_length = 0 }

-- The cursor at the first field, in search of `tag`, and at the second one, of any tag.
abbrev first_at : ℕ → Cursor
first_at tag = record {
  message = whole;
  tag = tag;
  descriptor = some choice;
  offset = at_byte 1;
  packed = nowhere;
  pos = 0;
  error = no_error;
}

abbrev second : Cursor
second = record {
  message = whole;
  tag = 0;
  descriptor = some count;
  offset = at_byte 3;
  packed = nowhere;
  pos = 1;
  error = no_error;
}

create-run : create_unsafe journal whole 1 ≡ done (first_at 1, whole)
unfolding create_unsafe message_valid part_valid message_align realign create_aligned
    cursor_at_start first_field cursor_next cursor_align behind_align cursor_aligned message_aligned
    part_aligned cursor_steps stepped advance_cursor next next_step described entered field_for
    scan_field scan_value at_break left create_at create_zero_copy_internal data_from read
    read_varint skip skip_varint advance Varint.unpack Varint.unpack_uint32 Varint.unpack_width
    Varint.unpack_rounds Varint.result Varint.scan Varint.scan_loop load valid field_by_tag
    search_table search_down search_at wiretype_map wire_number
create-run = refl

last-run : last_occurrence 5 journal 1 (first_at 1) (first_at 1) ≡ done (first_at 1)
unfolding last_occurrence keep_last cursor_tag cursor_next cursor_align behind_align cursor_aligned
    message_aligned part_aligned cursor_steps stepped advance_cursor next next_step described
    entered field_for scan_field scan_value at_break left create_at create_zero_copy_internal
    data_from read read_varint skip skip_varint advance Varint.unpack Varint.unpack_uint32
    Varint.unpack_width Varint.unpack_rounds Varint.result Varint.scan Varint.scan_loop load valid
    field_by_tag search_table search_down search_at wiretype_map wire_number
last-run = refl

next-run : cursor_next journal (first_at 0) ≡ done (true, second)
unfolding cursor_next cursor_align behind_align cursor_aligned message_aligned part_aligned
    cursor_steps stepped advance_cursor next next_step described entered field_for scan_field
    scan_value at_break left create_at create_zero_copy_internal data_from read read_varint skip
    skip_varint advance Varint.unpack Varint.unpack_uint32 Varint.unpack_width Varint.unpack_rounds
    Varint.result Varint.scan Varint.scan_loop load valid field_by_tag search_table search_down
    search_at wiretype_map wire_number
next-run = refl

cursor_next-Moves_example : Moves whole 0 2 (cursor_next journal (first_at 0))
unfolding cursor_aligned message_aligned part_aligned
cursor_next-Moves_example =
    cursor_next-Moves whole 0 2 journal
      (record { holds = omega arith; small = omega arith; order = omega arith }) (first_at 0) refl
      (record { same_message = refl; same_tag = refl }) refl (inl (refl, omega arith, omega arith))
      refl

message_has-masked_example :
    (cursor_create journal whole 1 ≡ done (record (first_at 1) { error = eom }, whole))
    × (message_has journal whole 1 ≡ done (false, whole))
message_has-masked_example =
    message_has-masked journal whole whole 1 choice (first_at 1) (first_at 1) second create-run refl
      refl refl last-run refl next-run

cursor_create-Lands_example : Lands whole (cursor_create journal whole 2)
unfolding message_aligned part_aligned message_valid part_valid
cursor_create-Lands_example =
    cursor_create-Lands journal whole
      (record { holds = omega arith; small = omega arith; order = omega arith }) refl 2 refl

-- The oneof of the first field.
abbrev alternatives : Oneof
alternatives = record { descriptor = 200; cursor = first_at 0 }

oneof_case-Tells_example :
    Tells journal (visited journal (first_at 0)) whole 200 (oneof_case journal alternatives)
unfolding message_aligned part_aligned message_valid part_valid
oneof_case-Tells_example =
    oneof_case-Tells journal whole
      (record { holds = omega arith; small = omega arith; order = omega arith }) refl alternatives
      refl refl refl
