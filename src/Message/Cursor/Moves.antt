-- ===== src/Message/Cursor/Moves.antt =====
-- `pb_cursor_next` of src/message/cursor.c: it comes to an end, and goes from field to field.
use protobluff.Common.{
  ℕ, zero, suc, ◌+◌, ◌-◌, ◌*◌, ◌^◌, ◌≤◌, ◌<◌, ◌≡◌, refl, ap, arith, true, false, ◌⊎◌, inl, inr,
  Option, none, some, ◌==◌, if◌then◌else◌, if-elim, sub_size, length-drop,
}
use protobluff.Core.Types.{Error, no_error, wire_number, Outcome, ok, err}
use protobluff.Core.Descriptor.{FieldDescriptor, wiretype_map}
use protobluff.Core.Buffer.{data_from, create_zero_copy_internal}
use protobluff.Core.Stream.{Stream, create, left, skip}
use protobluff.Core.Stream.Progress.{IsValid, skip-Ahead}
use protobluff.Core.Stream.Errors.{IsReadError, skip-err}
use protobluff.Message.Journal.{Journal}
use protobluff.Message.Run.{Run, done, fault, out_of_fuel}
use protobluff.Message.Cursor.{Message, Cursor, is_none, cursor_aligned}
use protobluff.Message.Cursor.Next.{
  Moved, leave_packed, packed_step, packed_value, next_packed, advance_cursor, stepped,
  cursor_steps, cursor_align, behind_align, cursor_next,
}
use protobluff.Message.Cursor.Progress.{Holds, InPacked, AtField, Same, Nexts, next-Nexts}

-- The next value of the packed field; or the end of the packed field, of which the cursor is at the end then.
abbrev PackedNexts : Message → ℕ → Cursor → Run Moved → Type 0
PackedNexts w tag c (done (true, c')) =
    Same w tag c'
    × (c'.error ≡ no_error)
    × InPacked w c'
    × (c.offset.end ≡ c'.offset.start)
    × (c'.offset.start < c'.offset.end)
PackedNexts w tag c (done (false, c')) =
    Same w tag c'
    × ((is_none c'.error ≡ false) ⊎ ((c'.error ≡ no_error) × AtField w c' × (c'.offset ≡ c.packed)))
PackedNexts w tag c fault = Unit
PackedNexts w tag c out_of_fuel = ⊥

failed : (e : Error) → IsReadError e → is_none e ≡ false
failed e (inl x) = rw x refl
failed e (inr x) = rw x refl

module _ (w : Message) (tag : ℕ) (c : Cursor) (same : Same w tag c) (fine : c.error ≡ no_error)
    (within : InPacked w c) (small : w.part.offset.end < 2 ^ 64) where
  packed_step-PackedNexts :
      (s : Stream) (o : Outcome Stream)
      → ((s' : Stream)
          → o ≡ ok s'
          → (0 < s'.position) × (c.offset.end + s'.position ≤ c.packed.end))
      → ((e : Error) → o ≡ err e → IsReadError e)
      → PackedNexts w tag c (packed_step c o)
  unfolding packed_step leave_packed
  packed_step-PackedNexts s (ok s') h k =
      let (some_bytes, inside) = h s' refl in
      let (tag_at, length_at, f) = within.field in
      (
        record { same_message = same.same_message; same_tag = same.same_tag },
        refl,
        record {
          field = within.field;
          some_bytes = within.some_bytes;
          starts = omega (arith, within.starts, within.order);
          order = omega (arith, f.inside);
          ends = omega (arith, f.inside);
          to_origin = omega (
            arith, within.to_origin, within.starts, within.order, within.ends, f.inside,
            f.after_start, f.key, f.prefix,
          );
          no_tag = within.no_tag;
          no_length = within.no_length;
        },
        refl,
        omega (arith, f.inside),
      )
  packed_step-PackedNexts s (err e) h k = (
    record { same_message = same.same_message; same_tag = same.same_tag },
    inl (failed e (k e refl)),
  )
  packed_step-PackedNexts s Outcome.fault h k = tt

  packed_value-PackedNexts :
      (s : Stream) (d : Option FieldDescriptor)
      → IsValid s
      → s.position ≡ 0
      → s.buffer.size ≡ c.packed.end - c.offset.end
      → PackedNexts w tag c (packed_value c s d)
  unfolding packed_value
  packed_value-PackedNexts s none v p q = tt
  packed_value-PackedNexts s (some d) v p q =
      packed_step-PackedNexts s (skip s (wire_number (wiretype_map d.type)))
        (λ s' e.
          let a = skip-Ahead s s' (wire_number (wiretype_map d.type)) v e in
          (omega (arith, a.further), omega (arith, a.further, a.inside, within.ends)))
        (λ e x. skip-err s (wire_number (wiretype_map d.type)) e x)

  next_packed-PackedNexts : (j : Journal) → Holds j w → PackedNexts w tag c (next_packed j c)
  unfolding next_packed create create_zero_copy_internal data_from leave_packed
  next_packed-PackedNexts j h =
      let (tag_at, length_at, f) = within.field in
      let s = create (
        create_zero_copy_internal (data_from j.buffer c.offset.end)
          (sub_size c.packed.end c.offset.end)) in
      let size : sub_size c.packed.end c.offset.end ≡ c.packed.end - c.offset.end =
        omega (arith, within.ends, f.inside) in
      if-elim (PackedNexts w tag c) (left s == 0) _ _
        (
          record { same_message = same.same_message; same_tag = same.same_tag },
          inr (fine, record { field = within.field; unpacked = refl }, refl),
        )
        (packed_value-PackedNexts s c.descriptor
          (record {
            holds = omega (arith, size, length-drop c.offset.end j.buffer.block, h.holds, f.inside);
            small = omega arith;
            inside = omega arith;
          })
          refl size)

-- The cursor is at a field, or around a value of a packed one.
abbrev pub AtValue : Message → Cursor → Type 0
AtValue w c = AtField w c ⊎ InPacked w c

-- What a move comes to: without an error the cursor is at a value that lies behind `position`.
abbrev pub Moves : Message → ℕ → ℕ → Run Moved → Type 0
Moves w tag position (done (true, c)) =
    Same w tag c
    × (c.error ≡ no_error)
    × AtValue w c
    × (position ≤ c.offset.start)
    × (position < c.offset.end)
Moves w tag position (done (false, c)) = Same w tag c × (is_none c.error ≡ false)
Moves w tag position fault = Unit
Moves w tag position out_of_fuel = ⊥

-- Where a cursor may be moved from: a field's end, or a packed field.
abbrev pub Movable : Message → Cursor → Type 0
Movable w c =
    ((c.packed.end ≡ 0) × (w.part.offset.start ≤ c.offset.end) × (c.offset.end ≤ w.part.offset.end))
    ⊎ InPacked w c

-- How many steps there can be.
abbrev steps_left : Message → Cursor → ℕ
steps_left w c =
    if c.packed.end == 0
    then 2 * (w.part.offset.end - c.offset.end) + 1
    else 2 * (w.part.offset.end - c.packed.end) + 2

module _ (w : Message) (tag position : ℕ) (j : Journal) (h : Holds j w) where
  plain_step-Moves :
      (again : Cursor → Run Moved) (c : Cursor) (r : Run Moved)
      → c.packed.end ≡ 0
      → position ≤ c.offset.end
      → Nexts w tag c.offset.end r
      → ((c' : Cursor)
          → Same w tag c'
          → c'.error ≡ no_error
          → InPacked w c'
          → c.offset.end < c'.offset.start
          → Moves w tag position (again c'))
      → Moves w tag position (stepped again r)
  unfolding stepped
  plain_step-Moves again c (done (true, c')) z p (s, e, a, m) k =
      let (tag_at, length_at, f) = a.field in
      (
        record { same_message = s.same_message; same_tag = s.same_tag },
        e,
        inl (record { field = a.field; unpacked = a.unpacked }),
        omega arith,
        omega (arith, f.order),
      )
  plain_step-Moves again c (done (false, c')) z p (s, inl e) k = rw e (s, e)
  plain_step-Moves again c (done (false, c')) z p (s, inr (e, q, m)) k =
      let valid : is_none c'.error ≡ true = rw e refl in rw valid (k c' s e q m)
  plain_step-Moves again c fault z p n k = tt
  plain_step-Moves again c out_of_fuel z p n k = n

  packed_step-Moves :
      (again : Cursor → Run Moved) (c : Cursor) (r : Run Moved)
      → position ≤ c.offset.end
      → PackedNexts w tag c r
      → ((c' : Cursor)
          → Same w tag c'
          → c'.error ≡ no_error
          → AtField w c'
          → c'.offset ≡ c.packed
          → Moves w tag position (again c'))
      → Moves w tag position (stepped again r)
  unfolding stepped
  packed_step-Moves again c (done (true, c')) p (s, e, q, b, m) k = (
    record { same_message = s.same_message; same_tag = s.same_tag },
    e,
    inr (record {
      field = q.field;
      some_bytes = q.some_bytes;
      starts = q.starts;
      order = q.order;
      ends = q.ends;
      to_origin = q.to_origin;
      no_tag = q.no_tag;
      no_length = q.no_length;
    }),
    omega arith,
    omega arith,
  )
  packed_step-Moves again c (done (false, c')) p (s, inl e) k = rw e (s, e)
  packed_step-Moves again c (done (false, c')) p (s, inr (e, a, m)) k =
      let valid : is_none c'.error ≡ true = rw e refl in rw valid (k c' s e a m)
  packed_step-Moves again c fault p n k = tt
  packed_step-Moves again c out_of_fuel p n k = n

  cursor_steps-Moves :
      (fuel : ℕ) (c : Cursor)
      → Same w tag c
      → c.error ≡ no_error
      → Movable w c
      → position ≤ c.offset.end
      → steps_left w c ≤ fuel
      → Moves w tag position (cursor_steps fuel j c)
  unfolding cursor_steps advance_cursor
  cursor_steps-Moves zero c s e m p enough = absurd (ground arith)
  cursor_steps-Moves (suc fuel) c s e (inl (z, b, i)) p enough =
      let unpacked : (c.packed.end == 0) ≡ true = ground arith in
      let end : c.message.part.offset.end ≡ w.part.offset.end =
        ap (λ (x : Message). x.part.offset.end) s.same_message in
      rw unpacked (
        plain_step-Moves (cursor_steps fuel j) c _ z p
          (next-Nexts w tag c.offset.end (c.message.part.offset.end + 1) j c h s z b i (omega arith)
            (omega arith))
          (λ c' s' e' q m.
            let (tag_at, length_at, f) = q.field in
            cursor_steps-Moves fuel c' s' e' (inr q) (omega (arith, q.order))
              (ground (arith, q.some_bytes, q.ends, q.order, f.inside))))
  cursor_steps-Moves (suc fuel) c s e (inr q) p enough =
      let (tag_at, length_at, f) = q.field in
      let in_packed : (c.packed.end == 0) ≡ false = ground (arith, q.some_bytes) in
      rw in_packed (
        packed_step-Moves (cursor_steps fuel j) c _ p
          (next_packed-PackedNexts w tag c s e q h.small j h)
          (λ c' s' e' a m.
            let (tag_at', length_at', f') = a.field in
            cursor_steps-Moves fuel c' s' e'
              (inl
                (a.unpacked, omega (arith, f'.after_start, f'.key, f'.prefix, f'.order), f'.inside))
              (omega (arith, ap (λ o. o.end) m, q.ends))
              (ground (arith, ap (λ o. o.end) m, q.some_bytes, a.unpacked, f.inside))))

  -- `pb_cursor_next` on an aligned cursor without an error, at a field of the message or in a packed one:
  -- it comes to an end. If it succeeds, the cursor is without an error at a field, or around a value of a
  -- packed field, that begins at or behind the old end, ends behind it, and lies within the message with its
  -- key, its length prefix and its origin where the offsets say; if it fails, the cursor has an error.
  -- Its behaviour may be undefined, at a group for one.
  pub cursor_next-Moves :
      (c : Cursor)
      → cursor_aligned j c ≡ true
      → Same w tag c
      → c.error ≡ no_error
      → Movable w c
      → position ≡ c.offset.end
      → Moves w tag position (cursor_next j c)
  unfolding cursor_next cursor_align behind_align
  cursor_next-Moves c aligned s e m p =
      let valid : is_none c.error ≡ true = rw e refl in
      let end : c.message.part.offset.end ≡ w.part.offset.end =
        ap (λ (x : Message). x.part.offset.end) s.same_message in
      rw (valid, aligned)
        (cursor_steps-Moves (2 * c.message.part.offset.end + 2) c s e m (omega arith)
          (ground arith))
