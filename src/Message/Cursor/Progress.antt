-- ===== src/Message/Cursor/Progress.antt =====
-- `next` of src/message/cursor.c comes to an end, and stops in front of a field of the message: at it, or at
-- the start of a packed one.
use protobluff.Common.{
  ℕ, zero, suc, ◌+◌, ◌%◌, ◌/◌, ◌^◌, ◌≤◌, ◌<◌, ◌≡◌, refl, sym, ap, arith, true, false, not, ◌&&◌,
  ◌⊎◌, inl, inr, Option, none, some, ◌==◌, if-elim, length, sub_size,
}
use mathlib.Core.Path.{subst}
use protobluff.Core.Types.{no_error, wire_number, Outcome, ok, err}
use protobluff.Core.Descriptor.{FieldDescriptor, wiretype_map}
use protobluff.Core.Buffer.{data_from, create_zero_copy_internal}
use protobluff.Core.Stream.{Stream, create_at, left}
use protobluff.Core.Stream.Progress.{IsValid}
use protobluff.Message.Journal.{Journal, Offset}
use protobluff.Message.Run.{Run, done, fault, out_of_fuel}
use protobluff.Message.Part.Shape.{IsField}
use protobluff.Message.Cursor.{Message, Cursor, is_none}
use protobluff.Message.Cursor.Scan.{scan_field}
use protobluff.Message.Cursor.Shape.{Scans, scan_field-Scans}
use protobluff.Message.Cursor.Next.{
  Moved, field_for, entered, described, next_step, message_buffer, next,
}

-- The message lies in the journal's block.
pub record Holds (j : Journal) (w : Message) : Type 0 where
  pub holds : w.part.offset.end ≤ length j.buffer.block
  pub small : w.part.offset.end < 2 ^ 64
  pub order : w.part.offset.start ≤ w.part.offset.end

-- `o` is a field of the message.
abbrev pub FieldOf : Message → Offset → Type 0
FieldOf w o =
    (tag_at : ℕ) × (length_at : ℕ) × IsField w.part.offset.start tag_at length_at w.part.offset.end
      o

-- The cursor is in a packed field, around a value of it, or in front of the first one.
pub record InPacked (w : Message) (c : Cursor) : Type 0 where
  pub field : FieldOf w c.packed
  pub some_bytes : 0 < c.packed.end
  pub starts : c.packed.start ≤ c.offset.start
  pub order : c.offset.start ≤ c.offset.end
  pub ends : c.offset.end ≤ c.packed.end
  pub to_origin : c.offset.diff_origin ≡ sub_size w.part.offset.start c.offset.start
  pub no_tag : c.offset.diff_tag ≡ 0
  pub no_length : c.offset.diff_length ≡ 0

-- It is at a field that is not packed.
pub record AtField (w : Message) (c : Cursor) : Type 0 where
  pub field : FieldOf w c.offset
  pub unpacked : c.packed.end ≡ 0

-- What the moved cursor has kept.
pub record Same (w : Message) (tag : ℕ) (c : Cursor) : Type 0 where
  pub same_message : c.message ≡ w
  pub same_tag : c.tag ≡ tag

-- What a move of a cursor without an error, from `position` on, comes to.
abbrev pub Nexts : Message → ℕ → ℕ → Run Moved → Type 0
Nexts w tag position (done (true, c)) =
    Same w tag c × (c.error ≡ no_error) × AtField w c × (position < c.offset.start)
Nexts w tag position (done (false, c)) =
    Same w tag c
    × ((is_none c.error ≡ false)
        ⊎ ((c.error ≡ no_error) × InPacked w c × (position < c.offset.start)))
Nexts w tag position fault = Unit
Nexts w tag position out_of_fuel = ⊥

module _ (w : Message) (tag position : ℕ) where
  entered-Nexts :
      (c : Cursor) (wiretype : ℕ) (d : FieldDescriptor)
      → w.part.offset.end < 2 ^ 64
      → Same w tag c
      → c.error ≡ no_error
      → c.packed.end ≡ 0
      → FieldOf w c.offset
      → position < c.offset.start
      → Nexts w tag position (done (entered c wiretype d))
  unfolding entered
  entered-Nexts c wiretype d small s e u (tag_at, length_at, f) h =
      let some_end : (c.offset.end == 0) ≡ false = ground (arith, f.order) in
      let no_packed : (c.packed.end == 0) ≡ true = ground arith in
      rw (some_end, no_packed)
        (if-elim (λ (r : Moved). Nexts w tag position (done r))
          (not (wiretype == wire_number (wiretype_map d.type)) && (wiretype == 2)) _ _
          (
            record { same_message = s.same_message; same_tag = s.same_tag },
            inr (
              e,
              record {
                field = (tag_at, length_at, f);
                some_bytes = omega (arith, f.order);
                starts = omega arith;
                order = omega arith;
                ends = f.order;
                to_origin = f.to_origin;
                no_tag = refl;
                no_length = refl;
              },
              h,
            ),
          )
          (s, e, record { field = (tag_at, length_at, f); unpacked = u }, h))

  described-Nexts :
      (again : Cursor → Run Moved) (c : Cursor) (wiretype : ℕ) (d : Option FieldDescriptor)
      → w.part.offset.end < 2 ^ 64
      → Same w tag c
      → c.error ≡ no_error
      → c.packed.end ≡ 0
      → FieldOf w c.offset
      → position < c.offset.start
      → Nexts w tag position (again (record c { descriptor = none }))
      → Nexts w tag position (described again c wiretype d)
  unfolding described
  described-Nexts again c wiretype none small s e u f h k = k
  described-Nexts again c wiretype (some d) small s e u f h k =
      entered-Nexts (record c { descriptor = some d }) wiretype d small
        (record { same_message = s.same_message; same_tag = s.same_tag }) e u f h

  next_step-Nexts :
      (again : Cursor → Run Moved) (c : Cursor) (s : Stream) (r : Outcome (ℕ × Offset))
      → w.part.offset.end < 2 ^ 64
      → Same w tag c
      → c.packed.end ≡ 0
      → position ≤ c.offset.end
      → s.position ≡ c.offset.end
      → s.buffer.size ≡ w.part.offset.end
      → Scans w.part.offset.start s r
      → ((c' : Cursor)
          → Same w tag c'
          → c'.packed.end ≡ 0
          → c.offset.end < c'.offset.end
          → c'.offset.end ≤ w.part.offset.end
          → Nexts w tag position (again c'))
      → Nexts w tag position (next_step again c r)
  unfolding next_step
  next_step-Nexts again c s (ok (key, o)) small t u h p q (length_at, f, m) k =
      let c' : Cursor = record c { offset = o; error = no_error } in
      let t' : Same w tag c' = record { same_message = t.same_message; same_tag = t.same_tag } in
      let f' = subst (λ n. IsField w.part.offset.start s.position length_at n o) q f in
      if-elim (Nexts w tag position) (not (c.tag == 0) && not (c.tag == key / 8)) _ _
        (k c' t' u (omega arith) f'.inside)
        (described-Nexts again c' (key % 8) (field_for c.descriptor c.message.descriptor (key / 8))
          small t' refl u (s.position, length_at, f') (omega (arith, f.key, f.prefix))
          (k (record c' { descriptor = none })
            (record { same_message = t.same_message; same_tag = t.same_tag }) u (omega arith)
            f'.inside))
  next_step-Nexts again c s (err e) small t u h p q f k =
      (record { same_message = t.same_message; same_tag = t.same_tag }, inl f)
  next_step-Nexts again c s Outcome.fault small t u h p q f k = tt

  -- `next`, in as many rounds as there are bytes of the message behind the cursor, and one more.
  pub next-Nexts :
      (fuel : ℕ) (j : Journal) (c : Cursor)
      → Holds j w
      → Same w tag c
      → c.packed.end ≡ 0
      → w.part.offset.start ≤ c.offset.end
      → c.offset.end ≤ w.part.offset.end
      → position ≤ c.offset.end
      → w.part.offset.end < c.offset.end + fuel
      → Nexts w tag position (next fuel j c)
  unfolding next create_at create_zero_copy_internal data_from
  next-Nexts zero j c v t u b i h enough = absurd (omega arith)
  next-Nexts (suc fuel) j c v t u b i h enough =
      let s = create_at (message_buffer j c) c.offset.end in
      let end : c.message.part.offset.end ≡ w.part.offset.end =
        ap (λ (x : Message). x.part.offset.end) t.same_message in
      let start : c.message.part.offset.start ≡ w.part.offset.start =
        ap (λ (x : Message). x.part.offset.start) t.same_message in
      let valid : IsValid (create_at (message_buffer j c) c.offset.end) = record {
        holds = omega (arith, v.holds);
        small = omega (arith, v.small);
        inside = omega arith;
      } in
      if-elim (Nexts w tag position) (left (create_at (message_buffer j c) c.offset.end) == 0) _ _
        (record { same_message = t.same_message; same_tag = t.same_tag }, inl refl)
        (next_step-Nexts (next fuel j) c (create_at (message_buffer j c) c.offset.end) _ v.small t u
          h refl end
          (subst
            (λ n.
              Scans w.part.offset.start (create_at (message_buffer j c) c.offset.end)
                (scan_field n (create_at (message_buffer j c) c.offset.end)))
            (sym start)
            (scan_field-Scans w.part.offset.start (create_at (message_buffer j c) c.offset.end) b
              valid))
          (λ c' t' u' m i'.
            next-Nexts fuel j c' v t' u' (omega arith) i' (omega arith) (omega arith)))
