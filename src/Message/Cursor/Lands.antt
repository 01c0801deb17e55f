-- ===== src/Message/Cursor/Lands.antt =====
-- `pb_cursor_create` of src/message/cursor.c comes to an end, at a value of the message.
use protobluff.Common.{
  ℕ, zero, suc, ◌+◌, ◌≤◌, ◌<◌, ◌≡◌, refl, ap, ◌∙◌, arith, true, false, ◌⊎◌, inl, inr, Option, none,
  some, ◌==◌, if◌then◌else◌, if-elim,
}
use protobluff.Core.Types.{no_error}
use protobluff.Core.Descriptor.{FieldDescriptor, is_oneof, is_repeated, oneof_of}
use protobluff.Message.Journal.{Journal}
use protobluff.Message.Run.{Run, done, fault, out_of_fuel, on_done}
use protobluff.Message.Part.{realign}
use protobluff.Message.Cursor.{
  Message, message_valid, message_aligned, message_align, Cursor, is_none, cursor_tag,
  cursor_aligned,
}
use protobluff.Message.Cursor.Next.{Moved, cursor_next}
use protobluff.Message.Cursor.Create.{
  cursor_at_start, first_field, create_aligned, create_unsafe, keep_last, last_occurrence, oneof_at,
  mask_member, mask_inactive, most_moves, check_oneof, active_occurrence, cursor_active,
  cursor_create,
}
use protobluff.Message.Cursor.Progress.{Holds, Same}
use protobluff.Message.Cursor.Moves.{AtValue, Movable, Moves, cursor_next-Moves}

-- A cursor over the message at a value.
abbrev pub AtOne : Message → Cursor → Type 0
AtOne w c = (c.message ≡ w) × (c.error ≡ no_error) × AtValue w c

-- A cursor that has an error, or is at a value.
abbrev pub Found : Message → Cursor → Type 0
Found w c = (is_none c.error ≡ false) ⊎ AtOne w c

-- What is answered, if anything is; the run comes to an end.
abbrev Answers : (Cursor → Type 0) → Run Cursor → Type 0
Answers P (done c) = P c
Answers P fault = Unit
Answers P out_of_fuel = ⊥

Answers-on_done :
    (P Q : Cursor → Type 0) (r : Run Cursor) (k : Cursor → Run Cursor)
    → Answers P r
    → ((c : Cursor) → P c → Answers Q (k c))
    → Answers Q (on_done r k)
Answers-on_done P Q (done c) k h g = g c h
Answers-on_done P Q fault k h g = tt
Answers-on_done P Q out_of_fuel k h g = h

-- The same, with the message as it was.
abbrev pub Lands : Message → Run (Cursor × Message) → Type 0
Lands w (done (c, w')) = (w' ≡ w) × Found w c
Lands w fault = Unit
Lands w out_of_fuel = ⊥

-- The end of a value lies in the message.
pub landed-inside : (w : Message) (c : Cursor) → AtValue w c → c.offset.end ≤ w.part.offset.end
landed-inside w c (inl f) = let (tag_at, length_at, g) = f.field in g.inside
landed-inside w c (inr q) = let (tag_at, length_at, g) = q.field in omega (arith, q.ends, g.inside)

pub landed-Movable : (w : Message) (c : Cursor) → AtValue w c → Movable w c
landed-Movable w c (inl f) =
    let (tag_at, length_at, g) = f.field in
    inl (f.unpacked, omega (arith, g.after_start, g.key, g.prefix, g.order), g.inside)
landed-Movable w c (inr q) = inr q

-- The tag of a cursor has no part in where it is.
same_value : {w : Message} (c : Cursor) → AtValue w c → AtValue w (record c { tag = 0 })
same_value c (inl f) = inl (record { field = f.field; unpacked = f.unpacked })
same_value c (inr q) = inr (record {
  field = q.field;
  some_bytes = q.some_bytes;
  starts = q.starts;
  order = q.order;
  ends = q.ends;
  to_origin = q.to_origin;
  no_tag = q.no_tag;
  no_length = q.no_length;
})

-- What follows a move of a cursor.
moved-Answers :
    (P : Cursor → Type 0) (w : Message) (tag position : ℕ) (r : Run Moved) (k : Moved → Run Cursor)
    → Moves w tag position r
    → ((c : Cursor)
        → Same w tag c
        → c.error ≡ no_error
        → AtValue w c
        → position < c.offset.end
        → Answers P (k (true, c)))
    → ((c : Cursor) → Answers P (k (false, c)))
    → Answers P (on_done r k)
moved-Answers P w tag position (done (true, c)) k (s, e, v, l, p) h g = h c s e v p
moved-Answers P w tag position (done (false, c)) k m h g = g c
moved-Answers P w tag position fault k m h g = tt
moved-Answers P w tag position out_of_fuel k m h g = m

module _ (j : Journal) (w : Message) (h : Holds j w) (aligned : message_aligned j w ≡ true) where
  pub step-Moves :
      (tag : ℕ) (c : Cursor)
      → Same w tag c
      → c.error ≡ no_error
      → Movable w c
      → Moves w tag c.offset.end (cursor_next j c)
  unfolding cursor_aligned
  step-Moves tag c s e m =
      cursor_next-Moves w tag c.offset.end j h c (ap (message_aligned j) s.same_message ∙ aligned) s
        e m refl

  last_occurrence-AtOne :
      (tag fuel : ℕ) (c temp : Cursor)
      → AtOne w c
      → Same w tag temp
      → temp.error ≡ no_error
      → AtValue w temp
      → w.part.offset.end < temp.offset.end + fuel
      → Answers (AtOne w) (last_occurrence fuel j tag c temp)
  unfolding last_occurrence keep_last
  last_occurrence-AtOne tag zero c temp f s e v enough =
      absurd (omega (arith, landed-inside w temp v))
  last_occurrence-AtOne tag (suc fuel) c temp f s e v enough =
      moved-Answers (AtOne w) w tag temp.offset.end (cursor_next j temp) _
        (step-Moves tag temp s e (landed-Movable w temp v))
        (λ temp' s' e' v' p.
          last_occurrence-AtOne tag fuel (if tag == cursor_tag temp' then temp' else c) temp'
            (if-elim (AtOne w) (tag == cursor_tag temp') _ _ (s'.same_message, e', v') f) s' e' v'
            (omega arith))
        (λ temp'. f)

  mask_inactive-Found :
      (d : FieldDescriptor) (fuel : ℕ) (c temp : Cursor)
      → AtOne w c
      → Same w 0 temp
      → temp.error ≡ no_error
      → AtValue w temp
      → w.part.offset.end < temp.offset.end + fuel
      → Answers (Found w) (mask_inactive fuel j d c temp)
  unfolding mask_inactive mask_member
  mask_inactive-Found d zero c temp f s e v enough = absurd (omega (arith, landed-inside w temp v))
  mask_inactive-Found d (suc fuel) c temp f s e v enough =
      moved-Answers (Found w) w 0 temp.offset.end (cursor_next j temp) _
        (step-Moves 0 temp s e (landed-Movable w temp v))
        (λ temp' s' e' v' p.
          if-elim (Answers (Found w)) (oneof_of d == oneof_at c.descriptor) _ _ (inl refl)
            (mask_inactive-Found d fuel c temp' f s' e' v' (omega arith)))
        (λ temp'. inr f)

  check_oneof-Found :
      (d : FieldDescriptor) (c : Cursor) → AtOne w c → Answers (Found w) (check_oneof j d c)
  unfolding check_oneof
  check_oneof-Found d c (m, e, v) =
      let end : c.message.part.offset.end ≡ w.part.offset.end =
        ap (λ (x : Message). x.part.offset.end) m in
      if-elim (Answers (Found w)) (is_oneof d.label) _ _
        (mask_inactive-Found d (most_moves c) c (record c { tag = 0 }) (m, e, v)
          (record { same_message = m; same_tag = refl }) e (same_value c v) (omega arith))
        (inr (m, e, v))

  active-Found :
      (tag : ℕ) (c : Cursor) (d : Option FieldDescriptor)
      → Same w tag c
      → c.error ≡ no_error
      → AtValue w c
      → Answers (Found w) (active_occurrence j tag c d)
  unfolding active_occurrence
  active-Found tag c none s e v = tt
  active-Found tag c (some d) s e v =
      let end : c.message.part.offset.end ≡ w.part.offset.end =
        ap (λ (x : Message). x.part.offset.end) s.same_message in
      if-elim (Answers (Found w)) (is_repeated d.label) _ _ (inr (s.same_message, e, v)) (
        Answers-on_done (AtOne w) (Found w) (last_occurrence (most_moves c) j tag c c)
          (check_oneof j d)
          (last_occurrence-AtOne tag (most_moves c) c c (s.same_message, e, v) s e v (omega arith))
          (check_oneof-Found d))

  answered-Lands : (r : Run Cursor) → Answers (Found w) r → Lands w (on_done r (λ c. done (c, w)))
  answered-Lands (done c) f = (refl, f)
  answered-Lands fault f = tt
  answered-Lands out_of_fuel f = f

  created-Lands :
      (tag position : ℕ) (r : Run Moved)
      → Moves w tag position r
      → Lands w (on_done (on_done r (λ m. done (first_field m, w))) (cursor_active j tag))
  unfolding first_field cursor_active
  created-Lands tag position (done (true, c)) (s, e, v, l, p) =
      let valid : is_none c.error ≡ true = ap is_none e in
      rw valid (answered-Lands _ (active-Found tag c c.descriptor s e v))
  created-Lands tag position (done (false, c)) (s, e) = rw e (refl, inl e)
  created-Lands tag position fault m = tt
  created-Lands tag position out_of_fuel m = m

  -- `pb_cursor_create` on an aligned message that is not invalid and lies in the journal's block comes to an
  -- end, for a field that occurs any number of times and for a member of a oneof. The message is as it was, and
  -- the cursor has an error, or is over the message, without an error, at a field or around a value of a packed
  -- field, which lies within the message with its key, its length prefix and its origin where the offsets say.
  -- Its behaviour may be undefined, at a group for one.
  pub cursor_create-Lands : (tag : ℕ) → message_valid w ≡ true → Lands w (cursor_create j w tag)
  unfolding cursor_create create_unsafe create_aligned message_align realign message_aligned
      cursor_at_start
  cursor_create-Lands tag valid =
      rw (valid, aligned)
        (created-Lands tag w.part.offset.start (cursor_next j (cursor_at_start w tag)) (
          step-Moves tag (cursor_at_start w tag) (record { same_message = refl; same_tag = refl })
            refl (inl (refl, omega arith, h.order))))
