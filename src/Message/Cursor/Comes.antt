-- ===== src/Message/Cursor/Comes.antt =====
-- Where `pb_cursor_next` of src/message/cursor.c goes from a cursor of any tag: to the next field with a
-- descriptor, or the next value of a packed one.
use protobluff.Common.{
  ℕ, zero, suc, ◌+◌, ◌*◌, ◌≤◌, ◌<◌, ◌≡◌, refl, sym, ap, ◌∙◌, arith, true, false, ◌⊎◌, inl, inr,
  Option, none, some, ◌==◌, Bool-cases, sub_size,
}
use mathlib.Core.Path.{subst}
use protobluff.Core.Types.{Error, no_error, wire_number, Outcome, ok, err}
use protobluff.Core.Descriptor.{FieldDescriptor, wiretype_map}
use protobluff.Core.Buffer.{data_from, create_zero_copy_internal}
use protobluff.Core.Stream.{Stream, create, left, skip}
use protobluff.Core.Stream.Errors.{IsReadError, skip-err}
use protobluff.Message.Journal.{Journal, Offset}
use protobluff.Message.Run.{Run, done, fault, out_of_fuel}
use protobluff.Message.Cursor.{Message, message_aligned, Cursor, is_none, cursor_aligned}
use protobluff.Message.Cursor.Next.{
  Moved, leave_packed, packed_step, packed_value, next_packed, advance_cursor, stepped,
  cursor_steps, cursor_align, behind_align, cursor_next,
}
use protobluff.Message.Cursor.Progress.{Holds, Same, InPacked, Nexts, next-Nexts}
use protobluff.Message.Cursor.Moves.{Movable}
use protobluff.Message.Cursor.Seen.{Skipped, hollow, here, behind, Sees, Ends, Finds, next-Finds}

-- The values of a packed field from `q` to `end`.
abbrev pub values_from : Journal → ℕ → ℕ → Stream
values_from j q end = create (create_zero_copy_internal (data_from j.buffer q) (sub_size end q))

-- The cursor `c` is at the first value behind `c₀`: at a field, around the first value of a packed field, or
-- around the next value of the same one.
abbrev pub Comes : Journal → Message → Cursor → Cursor → Type 0
Comes j w c₀ c =
    Sees j w c₀.offset.end c.descriptor c.offset false
    ⊎ ((Sees j w c₀.offset.end c.descriptor c.packed true × (c.offset.start ≡ c.packed.start))
        ⊎ ((c.packed ≡ c₀.packed)
            × (c.descriptor ≡ c₀.descriptor)
            × (c.offset.start ≡ c₀.offset.end)
            × (0 < c.packed.end)))

-- A value of the packed field that the cursor is in, or of the next one, cannot be skipped.
abbrev pub Stuck : Journal → Message → Cursor → Type 0
Stuck j w c₀ =
    (d : FieldDescriptor) × (o : Offset) × (q : ℕ) × (e : Error) × (0 < o.end)
    × (skip (values_from j q o.end) (wire_number (wiretype_map d.type)) ≡ err e)
    × (((c₀.packed ≡ o) × (c₀.descriptor ≡ some d) × (q ≡ c₀.offset.end))
        ⊎ (Sees j w c₀.offset.end (some d) o true × (q ≡ o.start)))

-- There is no value behind `c₀`.
abbrev pub Stops : Journal → Message → Cursor → Type 0
Stops j w c₀ = Ends j w c₀.offset.end ⊎ Stuck j w c₀

abbrev pub Goes : Journal → Message → Cursor → Run Moved → Type 0
Goes j w c₀ (done (true, c)) = Comes j w c₀ c
Goes j w c₀ (done (false, c)) = Stops j w c₀
Goes j w c₀ fault = Unit
Goes j w c₀ out_of_fuel = Unit

-- A cursor in the packed field of `c₀`, or at the start of the next one.
abbrev Linked : Journal → Message → Cursor → Cursor → Type 0
Linked j w c₀ c =
    ((c.packed ≡ c₀.packed) × (c.descriptor ≡ c₀.descriptor) × (c.offset.end ≡ c₀.offset.end))
    ⊎ (Sees j w c₀.offset.end c.descriptor c.packed true × (c.offset.end ≡ c.packed.start))

-- What is left of the loop.
abbrev Stands : Journal → Message → Cursor → Cursor → Type 0
Stands j w c₀ c =
    ((c.packed.end ≡ 0)
      × (w.part.offset.start ≤ c.offset.end)
      × (c.offset.end ≤ w.part.offset.end)
      × Skipped j w c₀.offset.end c.offset.end)
    ⊎ (InPacked w c × Linked j w c₀ c)

read_error : (e : Error) → IsReadError e → is_none e ≡ false
read_error e (inl x) = rw x refl
read_error e (inr x) = rw x refl

module _ (j : Journal) (w : Message) (c₀ : Cursor) (h : Holds j w) where
  plain_step-Goes :
      (again : Cursor → Run Moved) (position : ℕ) (r : Run Moved)
      → Nexts w 0 position r
      → Finds j w c₀.offset.end r
      → ((c' : Cursor)
          → Same w 0 c'
          → c'.error ≡ no_error
          → Stands j w c₀ c'
          → Goes j w c₀ (again c'))
      → Goes j w c₀ (stepped again r)
  unfolding stepped
  plain_step-Goes again position (done (true, c)) n f k = inl f
  plain_step-Goes again position (done (false, c)) (s, n) (inl (e, f)) k = rw e (inl f)
  plain_step-Goes again position (done (false, c)) (s, inl e) (inr (x, f, y)) k =
      let z : is_none c.error ≡ true = ap is_none x in cc
  plain_step-Goes again position (done (false, c)) (s, inr (e, q, m)) (inr (x, f, y)) k =
      let valid : is_none c.error ≡ true = ap is_none e in rw valid (k c s e (inr (q, inr (f, y))))
  plain_step-Goes again position fault n f k = tt
  plain_step-Goes again position out_of_fuel n f k = tt

  -- A value of the packed field, or an error.
  packed_step-Goes :
      (again : Cursor → Run Moved) (c : Cursor) (d : FieldDescriptor) (r : Outcome Stream)
      → r ≡ skip (values_from j c.offset.end c.packed.end) (wire_number (wiretype_map d.type))
      → c.descriptor ≡ some d
      → 0 < c.packed.end
      → Linked j w c₀ c
      → Goes j w c₀ (stepped again (packed_step c r))
  unfolding stepped packed_step leave_packed
  packed_step-Goes again c d (ok s) x y z (inl (p, q, o)) = inr (inr (p, q, o, z))
  packed_step-Goes again c d (ok s) x y z (inr (f, o)) = inr (inl (f, o))
  packed_step-Goes again c d (err e) x y z l =
      let failed : is_none e ≡ false = read_error e (
        skip-err (values_from j c.offset.end c.packed.end) (wire_number (wiretype_map d.type)) e
          (sym x)) in
      rw failed (inr (d, c.packed, c.offset.end, e, z, sym x, stuck l))
    where
      stuck :
          Linked j w c₀ c
          → ((c₀.packed ≡ c.packed) × (c₀.descriptor ≡ some d) × (c.offset.end ≡ c₀.offset.end))
            ⊎ (Sees j w c₀.offset.end (some d) c.packed true × (c.offset.end ≡ c.packed.start))
      stuck (inl (p, q, o)) = inl (sym p, sym q ∙ y, o)
      stuck (inr (f, o)) = inr (subst (λ a. Sees j w c₀.offset.end a c.packed true) y f, o)
  packed_step-Goes again c d Outcome.fault x y z l = tt

  packed_value-Goes :
      (again : Cursor → Run Moved) (c : Cursor) (d : Option FieldDescriptor)
      → c.descriptor ≡ d
      → 0 < c.packed.end
      → Linked j w c₀ c
      → Goes j w c₀ (stepped again (packed_value c (values_from j c.offset.end c.packed.end) d))
  unfolding packed_value stepped
  packed_value-Goes again c none y z l = tt
  packed_value-Goes again c (some d) y z l = packed_step-Goes again c d _ refl y z l

  -- Behind the last value of a packed field.
  left_behind :
      (c : Cursor)
      → Linked j w c₀ c
      → c.offset.end ≡ c.packed.end
      → Skipped j w c₀.offset.end c.packed.end
  left_behind c (inl (p, q, o)) e = subst (λ n. Skipped j w c₀.offset.end n) (sym o ∙ e) here
  left_behind c (inr (f, o)) e =
      behind f.skipped (hollow f.found f.field f.same_tag f.is_b (sym o ∙ e))

  next_packed-Goes :
      (again : Cursor → Run Moved) (c : Cursor)
      → Same w 0 c
      → c.error ≡ no_error
      → InPacked w c
      → Linked j w c₀ c
      → ((c' : Cursor)
          → Same w 0 c'
          → c'.error ≡ no_error
          → Stands j w c₀ c'
          → Goes j w c₀ (again c'))
      → Goes j w c₀ (stepped again (next_packed j c))
  unfolding next_packed stepped leave_packed create create_zero_copy_internal data_from left
  next_packed-Goes again c s e q l k =
      let (tag_at, length_at, f) = q.field in
      let valid : is_none c.error ≡ true = ap is_none e in
      elim (Bool-cases (left (values_from j c.offset.end c.packed.end) == 0)) [
        | inl z ↦
            let ended : c.offset.end ≡ c.packed.end = ground (arith, q.ends, f.inside, h.small) in
            rw (z, valid)
              (k (leave_packed c) (record { same_message = s.same_message; same_tag = s.same_tag })
                e
                (inl (
                  refl,
                  omega (arith, f.after_start, f.key, f.prefix, f.order),
                  f.inside,
                  left_behind c l ended,
                )))
        | inr z ↦ rw z (packed_value-Goes again c c.descriptor refl q.some_bytes l)
      ]

  cursor_steps-Goes :
      (fuel : ℕ) (c : Cursor)
      → Same w 0 c
      → c.error ≡ no_error
      → Stands j w c₀ c
      → Goes j w c₀ (cursor_steps fuel j c)
  unfolding cursor_steps advance_cursor
  cursor_steps-Goes zero c s e m = tt
  cursor_steps-Goes (suc fuel) c s e (inl (z, b, i, r)) =
      let unpacked : (c.packed.end == 0) ≡ true = ground arith in
      let end : c.message.part.offset.end ≡ w.part.offset.end =
        ap (λ (x : Message). x.part.offset.end) s.same_message in
      rw unpacked (
        plain_step-Goes (cursor_steps fuel j) c.offset.end _
          (next-Nexts w 0 c.offset.end (c.message.part.offset.end + 1) j c h s z b i (omega arith)
            (omega arith))
          (next-Finds j w c₀.offset.end (c.message.part.offset.end + 1) c h s.same_message
            s.same_tag z b i r)
          (λ c' s' e' m. cursor_steps-Goes fuel c' s' e' m))
  cursor_steps-Goes (suc fuel) c s e (inr (q, l)) =
      let in_packed : (c.packed.end == 0) ≡ false = ground (arith, q.some_bytes) in
      rw in_packed (
        next_packed-Goes (cursor_steps fuel j) c s e q l
          (λ c' s' e' m. cursor_steps-Goes fuel c' s' e' m))

module _ (j : Journal) (w : Message) (h : Holds j w) (aligned : message_aligned j w ≡ true) where
  pub cursor_next-Goes :
      (c : Cursor) → Same w 0 c → c.error ≡ no_error → Movable w c → Goes j w c (cursor_next j c)
  unfolding cursor_next cursor_align behind_align cursor_aligned
  cursor_next-Goes c s e m =
      let valid : is_none c.error ≡ true = ap is_none e in
      let same : message_aligned j c.message ≡ true =
        ap (message_aligned j) s.same_message ∙ aligned in
      rw (valid, same)
        (cursor_steps-Goes j w c h (2 * c.message.part.offset.end + 2) c s e (stands m))
    where
      stands : Movable w c → Stands j w c c
      stands (inl (z, b, i)) = inl (z, b, i, here)
      stands (inr q) = inr (q, inl (refl, refl, refl))
