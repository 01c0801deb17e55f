-- ===== src/Message/Cursor.antt =====
-- src/message/cursor.c and cursor.h, include/protobluff/message/cursor.h and message.h: messages, and cursors
-- over their fields. A cursor only reads, so its functions are given the journal.
pub mod Scan
pub mod Next
pub mod Create
pub mod Access
pub mod Shape
pub mod Progress
pub mod Moves
pub mod Masked
pub mod Lands
pub mod Walk
pub mod Seen
pub mod Comes
pub mod Complete
mod Examples
use protobluff.Common.{ℕ, ◌-◌, ◌^◌, Bool, true, false, Option, none, some, if◌then◌else◌}
use protobluff.Core.Types.{Error, no_error, invalid}
use protobluff.Core.Descriptor.{FieldDescriptor, Descriptor}
use protobluff.Message.Journal.{Journal, Offset}
use protobluff.Message.Part.{
  Part, part_create_invalid, part_version, part_valid, part_destroy, part_aligned, realign,
  part_create_from_journal,
}

-- `pb_message_t`. An invalid message has no descriptor.
pub record Message : Type 0 where
  pub descriptor : Option Descriptor
  pub part : Part

unfoldable pub message_create_invalid : Message
message_create_invalid = record { descriptor = none; part = part_create_invalid }

unfoldable pub message_create : Descriptor → Journal → Message
message_create d j = record { descriptor = some d; part = part_create_from_journal j }

unfoldable pub message_destroy : Message → Message
message_destroy w = record w { part = part_destroy w.part }

unfoldable pub message_valid : Message → Bool
message_valid w = part_valid w.part

unfoldable pub message_version : Message → ℕ
message_version w = part_version w.part

unfoldable pub message_aligned : Journal → Message → Bool
message_aligned j w = part_aligned j w.part

unfoldable pub message_align : Journal → Message → Error × Message
message_align j w = let (e, p) = realign j w.part in (e, record w { part = p })

-- `pb_cursor_t`, its fields `current` spread out.
pub record Cursor : Type 0 where
  pub message : Message
  pub tag : ℕ
  pub descriptor : Option FieldDescriptor
  pub offset : Offset
  pub packed : Offset
  pub pos : ℕ
  pub error : Error

abbrev pub zero_offset : Offset
zero_offset = record { start = 0; end = 0; diff_origin = 0; diff_tag = 0; diff_length = 0 }

unfoldable pub cursor_create_invalid : Cursor
cursor_create_invalid = record {
  message = message_create_invalid;
  tag = 0;
  descriptor = none;
  offset = zero_offset;
  packed = zero_offset;
  pos = 0;
  error = invalid;
}

abbrev pub is_none : Error → Bool
is_none no_error = true
is_none _ = false

unfoldable pub cursor_valid : Cursor → Bool
cursor_valid c = is_none c.error

unfoldable pub cursor_version : Cursor → ℕ
cursor_version c = message_version c.message

unfoldable pub cursor_aligned : Journal → Cursor → Bool
cursor_aligned j c = message_aligned j c.message

unfoldable pub cursor_destroy : Cursor → Cursor
cursor_destroy c = record c { message = message_destroy c.message; error = invalid }

-- The tag of a descriptor; a valid cursor has one.
abbrev pub tag_of : Option FieldDescriptor → ℕ
tag_of none = 0
tag_of (some d) = d.tag

unfoldable pub cursor_tag : Cursor → ℕ
cursor_tag c = if is_none c.error then tag_of c.descriptor else 0
