-- ===== src/Message/Create.antt =====
-- `pb_part_create` of src/message/part.c, and the functions of field.c and message.c that create a field or a
-- submessage with it. Loops over a cursor have as much fuel as the message has bytes, and one more.
use protobluff.Common.{
  ℕ, zero, suc, Bool, true, false, not, ◌&&◌, Option, none, some, List, [], ◌∷◌, leb, ◌==◌,
  if◌then◌else◌, sub_size,
}
use protobluff.Core.Types.{
  Error, no_error, eom, wire_number, FieldType, undefined, string, bytes, message,
}
use protobluff.Core.Memory.{Allocator}
use protobluff.Core.Descriptor.{
  FieldDescriptor, Descriptor, Referent, nothing, one_of, default_number, default_text, is_oneof,
  is_repeated, oneof_of, nested_of, default_of, packed, wiretype_map,
}
use protobluff.Core.Encoder.{Input}
use protobluff.Message.Journal.{Journal}
use protobluff.Message.Run.{Run, done, fault, out_of_fuel, Act, pure, ◌>>=◌, on_done}
use protobluff.Message.Part.{Part, part_create_invalid, part_empty}
use protobluff.Message.Part.Edit.{init}
use protobluff.Message.Cursor.{
  Message, message_create_invalid, message_valid, message_align, message_version, Cursor, is_none,
  cursor_tag,
}
use protobluff.Message.Cursor.Next.{Moved, find_field, cursor_align, cursor_next}
use protobluff.Message.Cursor.Create.{create_without_tag, oneof_at, most_moves}
use protobluff.Message.Cursor.Access.{look, cursor_erase}
use protobluff.Message.Field.{
  Field, field_create_invalid, field_valid, part_create_from_cursor, field_put,
}

-- The loop that looks for the best matching field: `c` is the last cursor at a tag that is not greater, and
-- `temp` moves on. Both are answered.
unfoldable pub keep_closest :
    (Cursor → Cursor → Run (Cursor × Cursor)) → Cursor → Moved → Run (Cursor × Cursor)
keep_closest again c (true, temp) = again c temp
keep_closest again c (false, temp) = done (c, temp)

unfoldable pub closest : ℕ → Journal → ℕ → Cursor → Cursor → Run (Cursor × Cursor)
unfolding keep_closest
closest zero j tag c temp = out_of_fuel
closest (suc fuel) j tag c temp =
    on_done (cursor_next j temp)
      (keep_closest (closest fuel j tag) (if leb (cursor_tag temp) tag then temp else c))

unfoldable pub find_closest : Journal → ℕ → Cursor → Run (Cursor × Cursor)
unfolding closest
find_closest j tag c = if is_none c.error then closest (most_moves c) j tag c c else done (c, c)

-- An empty part at `start`.
unfoldable pub empty_part : Message → ℕ → Part
empty_part w start = record {
  version = message_version w;
  offset = record {
    start = start;
    end = start;
    diff_origin = sub_size w.part.offset.start start;
    diff_tag = 0;
    diff_length = 0;
  };
}

-- Where a new part begins; `start` is the message's start before anything is erased.
unfoldable pub insert_at : ℕ → ℕ → Cursor → ℕ
insert_at start tag c = if is_none c.error && leb (cursor_tag c) tag then c.offset.end else start

-- The offsets of a packed field's value have no tag.
abbrev without_header : Part → Part
without_header p = record p { offset = record p.offset { diff_tag = 0; diff_length = 0 } }

abbrev pub is_eom : Error → Bool
is_eom eom = true
is_eom _ = false

module _ {M : Type 0} (a : Allocator M) (schema : ℕ → Descriptor) where
  -- The loop that erases the other members of a oneof, from the cursor `temp` on.
  unfoldable pub erase_moved : (Cursor → Act M (Unit {0})) → Moved → Act M (Unit {0})
  erase_moved again (true, temp) = again temp
  erase_moved again (false, temp) = pure tt

  unfoldable pub erase_erased : (Cursor → Act M (Unit {0})) → Error × Cursor → Act M (Unit {0})
  unfolding erase_moved
  erase_erased again (no_error, temp) = look (λ j. cursor_next j temp) >>= erase_moved again
  erase_erased again (e, temp) = pure tt

  unfoldable pub erase_members : ℕ → FieldDescriptor → ℕ → Cursor → Act M (Unit {0})
  unfolding erase_erased
  erase_members zero d tag temp = λ s. out_of_fuel
  erase_members (suc fuel) d tag temp =
      let again = erase_members fuel d tag in
      if (oneof_of d == oneof_at temp.descriptor) && not (tag == cursor_tag temp)
      then (cursor_erase a schema temp >>= erase_erased again)
      else (look (λ j. cursor_next j temp) >>= erase_moved again)

  -- Behind it the cursor and the message are aligned.
  unfoldable pub clear_oneof :
      FieldDescriptor → ℕ → Cursor → Message → Act M (Cursor × Error × Message)
  unfolding erase_members
  clear_oneof d tag c w =
      if is_none c.error && is_oneof d.label
      then (erase_members (most_moves c) d tag c >>= λ u. look (λ j. cursor_align j c) >>= λ r.
          look (λ j. done (message_align j w)) >>= λ x. pure (r.1, x.0, x.1))
      else pure (c, no_error, w)

  unfoldable pub insert_part : FieldDescriptor → ℕ → ℕ → Cursor → Message → Act M Part
  unfolding empty_part insert_at
  insert_part d tag start c w =
      let p = empty_part w (insert_at start tag c) in
      if packed d
      then (if tag == cursor_tag c
          then pure p
          else (init a p 2 tag >>= λ q. pure (without_header q)))
      else init a p (wire_number (wiretype_map d.type)) tag

  -- An existing part is found, or a new one is inserted.
  unfoldable pub place_part :
      FieldDescriptor → ℕ → ℕ → Cursor × Error × Message → Act M (Part × Message)
  unfolding insert_part
  place_part d tag start (c, no_error, w) =
      if is_none c.error && ((cursor_tag c == tag) && not (is_repeated d.label))
      then (look (λ j. part_create_from_cursor j c) >>= λ r. pure (r.0, w))
      else (insert_part d tag start c w >>= λ p. pure (p, w))
  place_part d tag start (c, e, w) = pure (part_create_invalid, w)

  unfoldable pub create_closest :
      FieldDescriptor → ℕ → Message → Cursor × Cursor → Act M (Part × Message)
  unfolding clear_oneof place_part
  create_closest d tag w (c, temp) =
      if is_eom temp.error
      then (clear_oneof d tag c w >>= place_part d tag w.part.offset.start)
      else pure (part_create_invalid, w)

  -- `pb_part_create`, behind the alignment of the message; that the tag is known is asserted.
  unfoldable pub create_described :
      Error × Message → Option FieldDescriptor → ℕ → Act M (Part × Message)
  unfolding create_closest find_closest
  create_described (no_error, w) (some d) tag = look (λ j. create_without_tag j w) >>= λ r.
      look (λ j. find_closest j tag r.0) >>= create_closest d tag r.1
  create_described (no_error, w) none tag = λ s. fault
  create_described (e, w) d tag = pure (part_create_invalid, w)

  unfoldable pub part_create : Message → ℕ → Act M (Part × Message)
  unfolding create_described
  part_create w tag s =
      if message_valid w
      then create_described (message_align s.journal w) (find_field w.descriptor tag) tag s
      else pure (part_create_invalid, w) s

  -- `pb_message_create_within`.
  unfoldable pub create_within : Message → ℕ → Act M (Message × Message)
  unfolding part_create
  create_within w tag =
      if message_valid w
      then (part_create w tag >>= λ r. pure (
        record {
          descriptor = elim (find_field w.descriptor tag) [
            | none ↦ none
            | some d ↦ some (schema (nested_of d))
          ];
          part = r.0;
        },
        r.1,
      ))
      else pure (message_create_invalid, w)

  -- `pb_message_create_nested`: `this` is a copy, so the caller's message is not aligned.
  unfoldable pub create_branch : Message → List ℕ → Act M Message
  unfolding create_within
  create_branch this [] = pure this
  create_branch this (tag ∷ tags) =
      if message_valid this
      then (create_within this tag >>= λ r. create_branch r.0 tags)
      else pure this

  -- `pb_field_create_without_default`.
  unfoldable pub field_create_without_default : Message → ℕ → Act M (Field × Message)
  unfolding part_create
  field_create_without_default w tag =
      if message_valid w
      then (part_create w tag >>= λ r.
          pure (record { descriptor = find_field w.descriptor tag; part = r.0 }, r.1))
      else pure (field_create_invalid, w)

-- `default_map`: the implicit default of a type.
unfoldable pub implicit_default : FieldType → Option Input
implicit_default string = none
implicit_default bytes = none
implicit_default message = none
implicit_default undefined = none
implicit_default _ = some (Input.number 0)

-- The default that `pb_field_create` writes.
unfoldable pub default_input : FieldType → Referent → Option Input
unfolding implicit_default
default_input t nothing = implicit_default t
default_input t (default_number v) = some (Input.number v)
default_input t (default_text block n) = some (Input.text block n)
default_input t (one_of a) = none

module _ {M : Type 0} (a : Allocator M) (schema : ℕ → Descriptor) where
  -- The default is put; a field that cannot take it is destroyed.
  unfoldable pub put_done : Error × Field → Field
  put_done (no_error, f) = f
  put_done (e, f) = field_create_invalid

  unfoldable pub put_default : Field → Option Input → Act M Field
  unfolding put_done
  put_default f none = pure f
  put_default f (some v) = field_put a f v >>= λ r. pure (put_done r)

  unfoldable pub fill_field : Field → Option FieldDescriptor → Act M Field
  unfolding put_default default_input
  fill_field f none = λ s. fault
  fill_field f (some d) = put_default f (default_input d.type (default_of d))

  unfoldable pub field_create : Message → ℕ → Act M (Field × Message)
  unfolding fill_field field_create_without_default
  field_create w tag = field_create_without_default a schema w tag >>= λ r.
      if field_valid r.0 && part_empty r.0.part.offset
      then (fill_field r.0 (find_field r.1.descriptor tag) >>= λ f. pure (f, r.1))
      else pure (r.0, r.1)
