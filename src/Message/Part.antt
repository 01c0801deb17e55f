-- ===== src/Message/Part.antt =====
-- src/message/part.c and part.h: ranges of a journal that hold a field or a message. A write that changes
-- the size of a part updates the length prefixes of all messages around it.
-- A part's journal is the one of the state; a ptrdiff_t is its bit pattern.
pub mod Round
pub mod Prefix
pub mod Edit
pub mod Ends
pub mod Root
pub mod Shape
pub mod Own
pub mod Grown
pub mod Write
pub mod Further
mod Examples
use protobluff.Common.{
  ℕ, zero, suc, ◌+◌, ◌-◌, ◌*◌, ◌%◌, ◌^◌, Bool, true, false, not, ◌&&◌, ◌||◌, List, [], ◌∷◌, ◌++◌,
  ltb, leb, ◌==◌, if◌then◌else◌, length, bit_or, shl, u32, add_size, sub_size,
}
use protobluff.Core.Types.{Error, no_error, alloc, invalid, uint32, Outcome, ok, err}
use protobluff.Core.Varint
use protobluff.Core.Memory.{Allocator}
use protobluff.Core.Buffer.{Buffer, valid}
use protobluff.Core.Stream.{Stream, create_at, advance, Value, number, text, read, skip}
use protobluff.Message.Journal
use protobluff.Message.Journal.{Journal, Offset}
use protobluff.Message.Run.{Run, fault, out_of_fuel, State, Act, pure, and_then, ◌>>=◌, journaled}

-- `pb_part_t`, without the pointer to the journal.
pub record Part : Type 0 where
  pub version : ℕ
  pub offset : Offset

-- PB_PART_INVALID.
abbrev pub marker : ℕ
marker = 2 ^ 63

abbrev no_offset : Offset
no_offset = record { start = 0; end = 0; diff_origin = 0; diff_tag = 0; diff_length = 0 }

unfoldable pub part_create_invalid : Part
part_create_invalid = record { version = marker; offset = no_offset }

-- `version & ~PB_PART_INVALID`, and whether the bit is set.
unfoldable pub part_version : Part → ℕ
part_version p = p.version % marker

unfoldable pub part_error : Part → Error
part_error p = if leb marker p.version then invalid else no_error

unfoldable pub part_valid : Part → Bool
part_valid p = not (leb marker p.version)

-- `version |= PB_PART_INVALID`.
unfoldable pub invalidate : Part → Part
invalidate p = record p { version = if leb marker p.version then p.version else p.version + marker }

unfoldable pub part_destroy : Part → Part
unfolding invalidate
part_destroy p = invalidate p

unfoldable pub part_aligned : Journal → Part → Bool
part_aligned j p = p.version == length j.entries

unfoldable pub part_align : Journal → Part → Error × Part
part_align j p =
    let (e, version, o) = Journal.align j p.version p.offset in
    (e, record { version = version; offset = o })

-- `!pb_part_aligned(part) && pb_part_align(part)`: the part is aligned unless it is already.
unfoldable pub realign : Journal → Part → Error × Part
unfolding part_aligned part_align
realign j p = if part_aligned j p then (no_error, p) else part_align j p

unfoldable pub part_size : Offset → ℕ
part_size o = sub_size o.end o.start

unfoldable pub part_empty : Offset → Bool
unfolding part_size
part_empty o = part_size o == 0

-- `pb_stream_create_from_part`.
unfoldable pub create_from_part : Journal → Part → Stream
create_from_part j p = create_at j.buffer (add_size p.offset.start p.offset.diff_length)

unfoldable pub part_create_from_journal : Journal → Part
unfolding part_create_invalid
part_create_from_journal j =
    if valid j.buffer
    then record { version = length j.entries; offset = record no_offset { end = j.buffer.size } }
    else part_create_invalid
