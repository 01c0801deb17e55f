-- ===== src/Message/Cursor/Access.antt =====
-- The functions of src/message/cursor.c that read and change the value at a cursor, and
-- `pb_message_create_from_cursor` of src/message/message.c. `schema` is the memory that holds the nested
-- descriptors.
use protobluff.Common.{
  ℕ, zero, suc, Bool, true, false, Option, none, some, ◌==◌, if◌then◌else◌, not, ◌&&◌,
}
use protobluff.Core.Types.{Error, no_error, invalid}
use protobluff.Core.Memory.{Allocator}
use protobluff.Core.Buffer.{data_from}
use protobluff.Core.Descriptor.{FieldDescriptor, Descriptor, is_message, nested_of}
use protobluff.Core.Encoder.{Input}
use protobluff.Message.Journal.{Journal}
use protobluff.Message.Run.{Run, done, fault, out_of_fuel, Act, pure, ◌>>=◌, on_done}
use protobluff.Message.Part.{Part, part_size}
use protobluff.Message.Part.Edit.{part_write, part_clear}
use protobluff.Message.Cursor.{
  Message, message_create_invalid, message_valid, message_align, Cursor, is_none,
}
use protobluff.Message.Cursor.Next.{Moved, cursor_next}
use protobluff.Message.Cursor.Create.{most_moves}
use protobluff.Message.Field.{
  part_create_from_cursor, field_create_from_cursor, Got, field_get, field_match, field_put,
  field_clear,
}

-- A call that only reads the journal.
abbrev pub look : {M A : Type 0} → (Journal → Run A) → Act M A
look f s = on_done (f s.journal) (λ x. pure x s)

-- Whether the current descriptor is one of a submessage; a valid cursor has one.
abbrev pub at_message : Option FieldDescriptor → Bool
at_message none = false
at_message (some d) = is_message d.type

unfoldable pub match_here : Journal → Input → Cursor → Run (Bool × Cursor)
match_here j v c =
    on_done (field_create_from_cursor j c)
      (λ r. on_done (field_match j r.0 v) (λ b. done (b.0, r.1)))

unfoldable pub cursor_match : Journal → Cursor → Input → Run (Bool × Cursor)
unfolding match_here
cursor_match j c v =
    if is_none c.error && not (at_message c.descriptor) then match_here j v c else done (false, c)

-- A round of the loop of `pb_cursor_seek`, behind its calls; `again` is the next one.
unfoldable pub seek_matched : (Cursor → Run (Bool × Cursor)) → Bool × Cursor → Run (Bool × Cursor)
seek_matched again (true, c) = done (true, c)
seek_matched again (false, c) = again c

unfoldable pub seek_moved :
    (Cursor → Run (Bool × Cursor)) → Journal → Input → Moved → Run (Bool × Cursor)
unfolding seek_matched match_here
seek_moved again j v (true, c) = on_done (match_here j v c) (seek_matched again)
seek_moved again j v (false, c) = done (false, c)

unfoldable pub seek_rounds : ℕ → Journal → Input → Cursor → Run (Bool × Cursor)
unfolding seek_moved
seek_rounds zero j v c = out_of_fuel
seek_rounds (suc fuel) j v c = on_done (cursor_next j c) (seek_moved (seek_rounds fuel j v) j v)

unfoldable pub cursor_seek : Journal → Cursor → Input → Run (Bool × Cursor)
unfolding seek_rounds
cursor_seek j c v =
    if is_none c.error && (not (c.tag == 0) && not (at_message c.descriptor))
    then seek_rounds (most_moves c) j v c
    else done (false, c)

unfoldable pub get_here : Journal → Cursor → Run (Got × Cursor)
get_here j c =
    on_done (field_create_from_cursor j c) (λ r. on_done (field_get j r.0) (λ g. done (g.0, r.1)))

unfoldable pub cursor_get : Journal → Cursor → Run (Got × Cursor)
unfolding get_here
cursor_get j c =
    if is_none c.error && not (at_message c.descriptor)
    then get_here j c
    else done ((invalid, none), c)

module _ (schema : ℕ → Descriptor) where
  unfoldable pub message_at : Journal → Cursor → Option FieldDescriptor → Run (Message × Cursor)
  message_at j c none = done (message_create_invalid, c)
  message_at j c (some d) =
      if is_message d.type
      then on_done (part_create_from_cursor j c)
          (λ r. done (record { descriptor = some (schema (nested_of d)); part = r.0 }, r.1))
      else done (message_create_invalid, c)

  unfoldable pub message_create_from_cursor : Journal → Cursor → Run (Message × Cursor)
  unfolding message_at
  message_create_from_cursor j c =
      if is_none c.error then message_at j c c.descriptor else done (message_create_invalid, c)

-- What `value` points to in a write: a value, or a message with the journal that it lies in.
pub data Source : Type 0 where
  value : Input → Source
  submessage : Journal → Message → Source

-- The raw data of a message, and the message.
unfoldable pub copy_from :
    {M : Type 0} → Allocator M → Part → Journal → Message → Act M (Error × Part)
copy_from a p j w =
    part_write a p (data_from j.buffer w.part.offset.start) (part_size w.part.offset)

module _ {M : Type 0} (a : Allocator M) where
  unfoldable pub put_here : Input → Cursor → Act M (Error × Cursor)
  put_here v c =
      look (λ j. field_create_from_cursor j c) >>= λ r. field_put a r.0 v >>= λ x. pure (x.0, r.1)

  -- A submessage that lies in a journal of its own.
  unfoldable pub copy_here : Journal → Error × Message → Cursor → Act M (Error × Cursor)
  unfolding copy_from
  copy_here j (no_error, w) c =
      look (λ i. part_create_from_cursor i c) >>= λ r. copy_from a r.0 j w >>= λ x. pure (x.0, r.1)
  copy_here j (e, w) c = pure (invalid, c)

  unfoldable pub put_source : Bool → Source → Cursor → Act M (Error × Cursor)
  unfolding put_here copy_here
  put_source false (value v) c = put_here v c
  put_source true (submessage j w) c =
      if message_valid w then copy_here j (message_align j w) c else pure (invalid, c)
  put_source false (submessage j w) c = λ s. fault
  put_source true (value v) c = λ s. fault

  unfoldable pub cursor_put : Cursor → Source → Act M (Error × Cursor)
  unfolding put_source
  cursor_put c v =
      if is_none c.error then put_source (at_message c.descriptor) v c else pure (invalid, c)

  module _ (schema : ℕ → Descriptor) where
    unfoldable pub erase_here : Bool → Cursor → Act M (Error × Cursor)
    erase_here false c =
        look (λ j. field_create_from_cursor j c) >>= λ r. field_clear a r.0 >>= λ x. pure (x.0, r.1)
    erase_here true c = look (λ j. message_create_from_cursor schema j c) >>= λ r.
        part_clear a r.0.part >>= λ x. pure (x.0, r.1)

    unfoldable pub cursor_erase : Cursor → Act M (Error × Cursor)
    unfolding erase_here
    cursor_erase c =
        if is_none c.error then erase_here (at_message c.descriptor) c else pure (invalid, c)
