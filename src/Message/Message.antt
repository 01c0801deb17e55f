-- ===== src/Message/Message.antt =====
-- src/message/message.c: reading, writing and erasing the fields of a message by their tags. That the tag is
-- known to the descriptor is asserted there, so an unknown tag is undefined behaviour.
use protobluff.Common.{ℕ, zero, suc, Bool, true, false, Option, none, some, if◌then◌else◌}
use protobluff.Core.Types.{Error, no_error, invalid, absent, eom}
use protobluff.Core.Memory.{Allocator}
use protobluff.Core.Descriptor.{
  FieldDescriptor, Descriptor, Referent, default_number, default_text, is_oneof, is_message,
  oneof_of, default_of,
}
use protobluff.Core.Encoder.{Input}
use protobluff.Core.Stream.{Value}
use protobluff.Message.Journal.{Journal}
use protobluff.Message.Run.{Run, done, fault, out_of_fuel, Act, pure, ◌>>=◌, on_done}
use protobluff.Message.Part.Edit.{part_clear}
use protobluff.Message.Cursor.{
  Message, message_create_invalid, message_valid, message_align, Cursor, is_none, cursor_valid,
}
use protobluff.Message.Cursor.Next.{Moved, find_field, cursor_next}
use protobluff.Message.Cursor.Create.{create_unsafe, cursor_create, most_moves}
use protobluff.Message.Cursor.Access.{
  look, cursor_match, cursor_seek, cursor_get, cursor_erase, Source, value, submessage, copy_from,
}
use protobluff.Message.Field.{Field, field_valid, field_align, field_put}
use protobluff.Message.Create.{part_create, field_create_without_default, is_eom}
use protobluff.Message.Oneof.{oneof_create, oneof_clear}

-- `pb_message_create_from_field`.
unfoldable pub message_of_field : Descriptor → Error × Field → Message
message_of_field d (no_error, f) = record { descriptor = some d; part = f.part }
message_of_field d (e, f) = message_create_invalid

unfoldable pub create_from_field : Journal → Descriptor → Field → Message
unfolding message_of_field
create_from_field j d f =
    if field_valid f then message_of_field d (field_align j f) else message_create_invalid

unfoldable pub message_has : Journal → Message → ℕ → Run (Bool × Message)
message_has j w tag = on_done (cursor_create j w tag) (λ r. done (cursor_valid r.0, r.1))

-- `pb_cursor_match(…) || pb_cursor_seek(…)`.
unfoldable pub or_seek : Journal → Input → Bool × Cursor → Run (Bool × Cursor)
or_seek j v (true, c) = done (true, c)
or_seek j v (false, c) = cursor_seek j c v

unfoldable pub message_match : Journal → Message → ℕ → Input → Run (Bool × Message)
unfolding or_seek
message_match j w tag v =
    on_done (cursor_create j w tag)
      (λ r. on_done (cursor_match j r.0 v) (λ b. on_done (or_seek j v b) (λ x. done (x.0, r.1))))

-- What `*value` is after a read: a value of the journal, or the default.
pub data Answer : Type 0 where
  nothing_read : Answer
  read_value : Value → Answer
  default_value : Input → Answer

unfoldable pub default_answer : Referent → Error × Answer
default_answer (default_number v) = (no_error, default_value (Input.number v))
default_answer (default_text block n) = (no_error, default_value (Input.text block n))
default_answer _ = (absent, nothing_read)

abbrev answer : Option Value → Answer
answer none = nothing_read
answer (some v) = read_value v

-- Behind the creation of the cursor.
unfoldable pub get_at : Journal → FieldDescriptor → Cursor → Run (Error × Answer)
unfolding default_answer
get_at j d c =
    if cursor_valid c
    then on_done (cursor_get j c) (λ r. done (r.0.0, answer r.0.1))
    else done (if is_eom c.error then default_answer (default_of d) else (c.error, nothing_read))

unfoldable pub get_described :
    Journal → Message → ℕ → Option FieldDescriptor → Run ((Error × Answer) × Message)
unfolding get_at
get_described j w tag none = fault
get_described j w tag (some d) =
    on_done (cursor_create j w tag) (λ r. on_done (get_at j d r.0) (λ x. done (x, r.1)))

unfoldable pub message_get : Journal → Message → ℕ → Run ((Error × Answer) × Message)
unfolding get_described
message_get j w tag =
    if message_valid w
    then get_described j w tag (find_field w.descriptor tag)
    else done ((invalid, nothing_read), w)

-- The end of `pb_message_erase`: a cursor that is at the end or invalid is no error.
unfoldable pub erase_error : Error → Error → Error
erase_error no_error invalid = no_error
erase_error no_error eom = no_error
erase_error no_error e = e
erase_error e f = e

module _ {M : Type 0} (a : Allocator M) (schema : ℕ → Descriptor) where
  -- Raw data of a submessage that lies in another journal.
  unfoldable pub put_submessage : Message → ℕ → Journal → Error × Message → Act M (Error × Message)
  unfolding copy_from
  put_submessage w tag j (no_error, sub) =
      part_create a schema w tag >>= λ r. copy_from a r.0 j sub >>= λ x. pure (x.0, r.1)
  put_submessage w tag j (e, sub) = pure (invalid, w)

  unfoldable pub put_source : Bool → Message → ℕ → Source → Act M (Error × Message)
  unfolding put_submessage
  put_source false w tag (value v) = field_create_without_default a schema w tag >>= λ r.
      field_put a r.0 v >>= λ x. pure (x.0, r.1)
  put_source true w tag (submessage j sub) =
      if message_valid sub then put_submessage w tag j (message_align j sub) else pure (invalid, w)
  put_source _ w tag _ = λ s. fault

  unfoldable pub put_described :
      Message → ℕ → Source → Option FieldDescriptor → Act M (Error × Message)
  unfolding put_source
  put_described w tag v none = λ s. fault
  put_described w tag v (some d) = put_source (is_message d.type) w tag v

  unfoldable pub message_put : Message → ℕ → Source → Act M (Error × Message)
  unfolding put_described
  message_put w tag v =
      if message_valid w
      then put_described w tag v (find_field w.descriptor tag)
      else pure (invalid, w)

  -- The loop of `pb_message_erase`: the error, and the cursor behind it.
  unfoldable pub erase_moved : (Cursor → Act M (Error × Cursor)) → Moved → Act M (Error × Cursor)
  erase_moved again (true, c) = again c
  erase_moved again (false, c) = pure (no_error, c)

  unfoldable pub erase_erased :
      (Cursor → Act M (Error × Cursor)) → Error × Cursor → Act M (Error × Cursor)
  unfolding erase_moved
  erase_erased again (no_error, c) = look (λ j. cursor_next j c) >>= erase_moved again
  erase_erased again (e, c) = pure (e, c)

  unfoldable pub erase_rounds : ℕ → Cursor → Act M (Error × Cursor)
  unfolding erase_erased
  erase_rounds zero c = λ s. out_of_fuel
  erase_rounds (suc fuel) c = cursor_erase a schema c >>= erase_erased (erase_rounds fuel)

  unfoldable pub erase_from : Cursor × Message → Act M (Error × Message)
  unfolding erase_rounds erase_error
  erase_from (c, w) =
      (if is_none c.error then erase_rounds (most_moves c) c else pure (no_error, c)) >>= λ r.
      pure (erase_error r.0 r.1.error, w)

  unfoldable pub erase_described : Message → ℕ → Option FieldDescriptor → Act M (Error × Message)
  unfolding erase_from
  erase_described w tag none = λ s. fault
  erase_described w tag (some d) =
      if is_oneof d.label
      then (look (λ j. oneof_create j (oneof_of d) w) >>= λ r.
          oneof_clear a schema r.0 >>= λ x. pure (x.0, r.1))
      else (look (λ j. create_unsafe j w tag) >>= erase_from)

  unfoldable pub message_erase : Message → ℕ → Act M (Error × Message)
  unfolding erase_described
  message_erase w tag =
      if message_valid w
      then erase_described w tag (find_field w.descriptor tag)
      else pure (invalid, w)

  unfoldable pub message_clear : Message → Act M (Error × Message)
  message_clear w = part_clear a w.part >>= λ r. pure (r.0, record w { part = r.1 })
