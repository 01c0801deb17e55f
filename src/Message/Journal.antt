-- ===== src/Message/Journal.antt =====
-- src/message/journal.c: the changes to a buffer, so that parts of older versions can be aligned.
-- A ptrdiff_t is its bit pattern; in C it is converted to size_t where it meets one, so every sum and
-- comparison is one of size_t.
pub mod Laws
pub mod Rewrite
pub mod Follow
pub mod Steps
use protobluff.Common.{
  ℕ, zero, suc, ◌+◌, ◌-◌, ◌*◌, ◌^◌, Bool, true, false, not, ◌&&◌, ◌||◌, Option, none, some, List,
  [], ◌∷◌, ◌++◌, ltb, leb, ◌==◌, if◌then◌else◌, length, take, drop, add_size, sub_size,
}
use protobluff.Core.Types.{Error, no_error, alloc, invalid, Outcome, ok, err, fault, ◌>>=◌}
use protobluff.Core.Memory.{Allocator}
use protobluff.Core.Buffer
use protobluff.Core.Buffer.{Buffer, valid, is_zero_copy}
use protobluff.Message.Buffer as Edit

-- `pb_journal_entry_t`.
pub record Entry : Type 0 where
  pub origin : ℕ
  pub offset : ℕ
  pub delta : ℕ

-- `pb_journal_t`: `room` is the memory at `entry.data`, `entries` the first `entry.size` entries in it.
pub record Journal : Type 0 where
  pub buffer : Buffer
  pub room : List ℕ
  pub entries : List Entry

-- The answer of an editing function.
abbrev pub Journaled : Type 0 → Type 0
Journaled M = Error × Journal × M

-- `sizeof(pb_journal_entry_t)`.
abbrev entry_size : ℕ
entry_size = 24

unfoldable pub create_empty_with_allocator : Journal
create_empty_with_allocator = record {
  buffer = Buffer.create_empty_with_allocator;
  room = [];
  entries = [];
}

unfoldable pub create_zero_copy : List ℕ → ℕ → Journal
create_zero_copy block size = record {
  buffer = Buffer.create_zero_copy block size;
  room = [];
  entries = [];
}

-- The end of `pb_journal_create_with_allocator`, on the buffer.
unfoldable pub journal_of : {M : Type 0} → Buffer × M → Journal × M
journal_of (b, m) = (record { buffer = b; room = []; entries = [] }, m)

-- The end of `push`, on the answer of the allocator.
unfoldable pub pushed : {M : Type 0} → Journal → Entry → Option (List ℕ) × M → Journaled M
pushed j e (some room, m) = (no_error, record j { room = room; entries = j.entries ++ (e ∷ []) }, m)
pushed j e (none, m) = (alloc, j, m)

-- `pop`: the latest entry is given up, its memory is kept.
unfoldable pub pop : Journal → Journal
pop j = record j { entries = take (length j.entries - 1) j.entries }

-- The buffer's part of a change; the latest entry is removed again if it failed.
unfoldable pub settled : {M : Type 0} → Journal → Error × Buffer × M → Journaled M
unfolding pop
settled j (no_error, b, m) = (no_error, record j { buffer = b }, m)
settled j (e, b, m) = (e, pop (record j { buffer = b }), m)

-- `pb_offset_t`.
pub record Offset : Type 0 where
  pub start : ℕ
  pub end : ℕ
  pub diff_origin : ℕ
  pub diff_tag : ℕ
  pub diff_length : ℕ

-- One of the three rounds over the relative offsets, behind the update of `start`.
unfoldable pub align_diff : Entry → ℕ → ℕ → ℕ
align_diff e start diff =
    if ltb (sub_size (add_size start diff) e.delta) e.offset then sub_size diff e.delta else diff

-- The change happened before the part: move.
unfoldable pub align_move : Entry → Offset → Offset
unfolding align_diff
align_move e o = record {
  start = add_size o.start e.delta;
  end = add_size o.end e.delta;
  diff_origin = align_diff e (add_size o.start e.delta) o.diff_origin;
  diff_tag = align_diff e (add_size o.start e.delta) o.diff_tag;
  diff_length = align_diff e (add_size o.start e.delta) o.diff_length;
}

-- It happened within the part: resize, clear, or nothing; with `invalid`.
unfoldable pub align_within : Entry → Offset → Bool → Offset × Bool
align_within e o gone =
    if leb o.start e.origin
    then (
      record o { end = add_size o.end e.delta },
      gone
          || (not (o.diff_origin == 0)
              && ((o.diff_tag == 0) && (o.start == add_size o.end e.delta))),
    )
    else if leb (add_size o.end e.delta) (add_size o.start o.diff_tag)
    then (
      record {
        start = add_size o.start o.diff_tag;
        end = add_size o.end e.delta;
        diff_origin = 0;
        diff_tag = 0;
        diff_length = 0;
      },
      true,
    )
    else (o, gone)

-- One round of the loop of `pb_journal_align`.
unfoldable pub align_entry : Entry → Offset → Bool → Offset × Bool
unfolding align_move align_within
align_entry e o gone =
    if ltb e.origin o.start && ltb e.offset o.end
    then (align_move e o, gone)
    else if leb (add_size o.start o.diff_origin) e.origin && leb e.offset o.end
    then align_within e o gone
    else if leb e.origin (add_size o.start o.diff_origin) && (e.origin == add_size e.offset e.delta)
    then (
      record { start = e.origin; end = e.origin; diff_origin = 0; diff_tag = 0; diff_length = 0 },
      true,
    )
    else (o, gone)

-- The loop, over the entries from the version on, with `(*version)++` in each round.
unfoldable pub align_entries : List Entry → ℕ → Offset → Bool → Offset × ℕ × Bool
unfolding align_entry
align_entries [] version o gone = (o, version, gone)
align_entries (e ∷ es) version o gone =
    align_entries es (version + 1) (align_entry e o gone).0 (align_entry e o gone).1

-- SIZE_MAX.
abbrev pub size_max : ℕ
size_max = 2 ^ 64 - 1

-- `*version` of a part that is gone.
unfoldable pub aligned_version : ℕ → Bool → ℕ
aligned_version version gone = if gone then size_max else version

-- What is answered behind the loop.
unfoldable pub aligned : Offset × ℕ × Bool → Error × ℕ × Offset
unfolding aligned_version
aligned (o, version, gone) =
    let version' = aligned_version version gone in
    (if version' == size_max then invalid else no_error, version', o)

-- `pb_journal_align`: the error, and `*version` and `*offset`.
unfoldable pub align : Journal → ℕ → Offset → Error × ℕ × Offset
unfolding align_entries aligned
align j version o =
    if valid j.buffer
    then aligned (align_entries (drop version j.entries) version o false)
    else (invalid, version, o)

module _ {M : Type 0} (a : Allocator M) where
  unfoldable pub create_with_allocator : M → List ℕ → ℕ → Outcome (Journal × M)
  unfolding journal_of
  create_with_allocator m bytes size =
      Buffer.create_with_allocator a m bytes size >>= λ r. ok (journal_of r)

  -- The entries of `pb_journal_destroy`: freed if `entry.data` is not NULL.
  unfoldable pub free_entries : M → Journal → Journal × M
  free_entries m j =
      if length j.room == 0 then (j, m) else (record j { room = []; entries = [] }, a.free m j.room)

  unfoldable pub destroy : M → Journal → Journal × M
  unfolding free_entries
  destroy m j =
      let r = free_entries m j in
      if valid j.buffer
      then (
        record r.0 { buffer = (Buffer.destroy a r.1 r.0.buffer).0 },
        (Buffer.destroy a r.1 r.0.buffer).1,
      )
      else (j, m)

  unfoldable pub push : M → Journal → ℕ → ℕ → ℕ → Journaled M
  unfolding pushed
  push m j origin offset delta =
      if is_zero_copy j.buffer.allocator
      then (alloc, j, m)
      else pushed j (record { origin = origin; offset = offset; delta = delta })
          (a.resize m j.room (entry_size * (length j.entries + 1)))

  -- A change that alters the size, behind `push`.
  unfoldable pub journaled :
      (M → Buffer → Outcome (Error × Buffer × M)) → Journaled M → Outcome (Journaled M)
  unfolding settled
  journaled edit (no_error, j, m) = edit m j.buffer >>= λ r. ok (settled j r)
  journaled edit (e, j, m) = ok (e, j, m)

  -- An edit of the buffer, with an entry if `delta` is not 0.
  unfoldable pub edit_journal :
      (M → Buffer → Outcome (Error × Buffer × M)) → M → Journal → ℕ → ℕ → ℕ → Outcome (Journaled M)
  unfolding push journaled
  edit_journal edit m j origin end delta =
      if not (valid j.buffer)
      then ok (invalid, j, m)
      else if delta == 0
      then (edit m j.buffer >>= λ r. ok (r.0, record j { buffer = r.1 }, r.2))
      else journaled edit (push m j origin end delta)

  -- `pb_journal_write` and `pb_journal_clear`.
  unfoldable pub write : M → Journal → ℕ → ℕ → ℕ → List ℕ → ℕ → Outcome (Journaled M)
  unfolding edit_journal
  write m j origin start end bytes size =
      edit_journal (λ m' b. Edit.write a m' b start end bytes size) m j origin end
        (sub_size size (sub_size end start))

  unfoldable pub clear : M → Journal → ℕ → ℕ → ℕ → Outcome (Journaled M)
  unfolding edit_journal
  clear m j origin start end =
      edit_journal (λ m' b. Edit.clear a m' b start end) m j origin end (sub_size start end)
