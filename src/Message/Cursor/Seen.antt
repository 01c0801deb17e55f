-- ===== src/Message/Cursor/Seen.antt =====
-- Which fields `next` of src/message/cursor.c passes over where it looks for any tag: those without a descriptor.
-- What stands at a position is read from the bytes, apart from any cursor.
use protobluff.Common.{
  ℕ, zero, suc, ◌%◌, ◌/◌, ◌≤◌, ◌<◌, ◌≡◌, refl, sym, ap, ◌∙◌, arith, Bool, true, false, not, ◌&&◌,
  ◌⊎◌, inl, inr, Option, none, some, ◌==◌, if◌then◌else◌, Bool-cases,
}
use mathlib.Core.Path.{subst}
use protobluff.Core.Types.{Error, no_error, wire_number, Outcome, ok, err}
use protobluff.Core.Descriptor.{FieldDescriptor, Descriptor, wiretype_map}
use protobluff.Core.Descriptor.Tag.{field_by_tag_tag}
use protobluff.Core.Buffer.{data_from, create_zero_copy_internal}
use protobluff.Core.Stream.{Stream, create_at, left}
use protobluff.Core.Stream.Progress.{IsValid}
use protobluff.Message.Journal.{Journal, Offset}
use protobluff.Message.Run.{Run, done, fault, out_of_fuel}
use protobluff.Message.Cursor.{Message, Cursor, is_none}
use protobluff.Message.Cursor.Scan.{scan_field}
use protobluff.Message.Cursor.Shape.{Scans, scan_field-Scans}
use protobluff.Message.Cursor.Next.{
  Moved, find_field, field_for, entered, described, next_step, message_buffer, next,
}
use protobluff.Message.Cursor.Progress.{Holds}

-- The stream of the message at a position, and the field that the bytes there make: its key and its offsets.
abbrev pub stream_from : Journal → Message → ℕ → Stream
stream_from j w p = create_at (create_zero_copy_internal (data_from j.buffer 0) w.part.offset.end) p

abbrev pub field_from : Journal → Message → ℕ → Outcome (ℕ × Offset)
field_from j w p = scan_field w.part.offset.start (stream_from j w p)

-- The field is length-prefixed, and its values are not.
abbrev pub is_packed : ℕ → FieldDescriptor → Bool
is_packed key d = not (key % 8 == wire_number (wiretype_map d.type)) && (key % 8 == 2)

-- A field at `p` that is no value of a known field: it has no descriptor, or it is packed and empty.
pub data Skip (j : Journal) (w : Message) : ℕ → ℕ → Type 0 where
  unknown :
      {p key : ℕ} {o : Offset}
      → field_from j w p ≡ ok (key, o)
      → find_field w.descriptor (key / 8) ≡ none
      → Skip j w p o.end
  hollow :
      {p key : ℕ} {o : Offset} (d : FieldDescriptor)
      → field_from j w p ≡ ok (key, o)
      → d.tag ≡ key / 8
      → is_packed key d ≡ true
      → o.start ≡ o.end
      → Skip j w p o.end

-- Any number of them, one behind the other.
pub data Skipped (j : Journal) (w : Message) (p : ℕ) : ℕ → Type 0 where
  here : Skipped j w p p
  behind : {q r : ℕ} → Skipped j w p q → Skip j w q r → Skipped j w p r

-- Behind such fields, from `p` on, there is the field `o`, with a descriptor that has the tag of its key.
pub record Sees (j : Journal) (w : Message) (p : ℕ) (x : Option FieldDescriptor) (o : Offset)
    (b : Bool) : Type 0 where
  pub tag_at : ℕ
  pub key : ℕ
  pub found : FieldDescriptor
  pub skipped : Skipped j w p tag_at
  pub field : field_from j w tag_at ≡ ok (key, o)
  pub described_by : x ≡ some found
  pub same_tag : found.tag ≡ key / 8
  pub is_b : is_packed key found ≡ b

-- Behind such fields there is the end of the message, or something that is no field.
abbrev pub Ends : Journal → Message → ℕ → Type 0
Ends j w p =
    (q : ℕ) × Skipped j w p q
    × (((left (stream_from j w q) == 0) ≡ true) ⊎ ((e : Error) × (field_from j w q ≡ err e)))

-- What `next` comes to, if it comes to an end.
abbrev pub Finds : Journal → Message → ℕ → Run Moved → Type 0
Finds j w p (done (true, c)) = Sees j w p c.descriptor c.offset false
Finds j w p (done (false, c)) =
    ((is_none c.error ≡ false) × Ends j w p)
    ⊎ ((c.error ≡ no_error)
        × Sees j w p c.descriptor c.packed true
        × (c.offset.end ≡ c.packed.start))
Finds j w p fault = Unit
Finds j w p out_of_fuel = Unit

find_field_tag :
    (d : Option Descriptor) (tag : ℕ) (f : FieldDescriptor)
    → find_field d tag ≡ some f
    → f.tag ≡ tag
find_field_tag none tag f e = cc
find_field_tag (some d) tag f e = field_by_tag_tag d tag f e

-- The descriptor in use has the tag, and there is one if the message has one.
field_for_tag :
    (c : Option FieldDescriptor) (d : Option Descriptor) (tag : ℕ) (f : FieldDescriptor)
    → field_for c d tag ≡ some f
    → f.tag ≡ tag
unfolding field_for
field_for_tag none d tag f e = find_field_tag d tag f e
field_for_tag (some g) d tag f e = elim (Bool-cases (g.tag == tag)) [
  | inl x ↦
      let y : some g ≡ some f =
        subst (λ b. (if b then some g else find_field d tag) ≡ some f) x e in
      let same : g ≡ f = cc in subst (λ h. h.tag ≡ tag) same (ground arith)
  | inr x ↦
      find_field_tag d tag f (subst (λ b. (if b then some g else find_field d tag) ≡ some f) x e)
]

field_for-none :
    (c : Option FieldDescriptor) (d : Option Descriptor) (tag : ℕ)
    → field_for c d tag ≡ none
    → find_field d tag ≡ none
unfolding field_for
field_for-none none d tag e = e
field_for-none (some g) d tag e = elim (Bool-cases (g.tag == tag)) [
  | inl x ↦
      let y : some g ≡ none = subst (λ b. (if b then some g else find_field d tag) ≡ none) x e in cc
  | inr x ↦ subst (λ b. (if b then some g else find_field d tag) ≡ none) x e
]

module _ (j : Journal) (w : Message) (p : ℕ) where
  -- A field with a descriptor is reached.
  entered-Finds :
      (q key : ℕ) (c : Cursor) (d : FieldDescriptor)
      → c.descriptor ≡ some d
      → c.error ≡ no_error
      → c.packed.end ≡ 0
      → 0 < c.offset.end
      → Skipped j w p q
      → field_from j w q ≡ ok (key, c.offset)
      → d.tag ≡ key / 8
      → Finds j w p (done (entered c (key % 8) d))
  unfolding entered
  entered-Finds q key c d x e u some_end r f t =
      let some_bytes : (c.offset.end == 0) ≡ false = ground arith in
      let no_packed : (c.packed.end == 0) ≡ true = ground arith in
      elim (Bool-cases (is_packed key d)) [
        | inl z ↦
            rw (z, some_bytes)
              (inr (
                e,
                record {
                  tag_at = q;
                  key = key;
                  found = d;
                  skipped = r;
                  field = f;
                  described_by = x;
                  same_tag = t;
                  is_b = z;
                },
                refl,
              ))
        | inr z ↦
            rw (z, no_packed)
              (record {
                tag_at = q;
                key = key;
                found = d;
                skipped = r;
                field = f;
                described_by = x;
                same_tag = t;
                is_b = z;
              })
      ]

  -- What comes behind the search for the descriptor.
  described-Finds :
      (again : Cursor → Run Moved) (q key : ℕ) (c c₀ : Cursor) (x : Option FieldDescriptor)
      → field_for c₀.descriptor w.descriptor (key / 8) ≡ x
      → c.error ≡ no_error
      → c.packed.end ≡ 0
      → 0 < c.offset.end
      → Skipped j w p q
      → field_from j w q ≡ ok (key, c.offset)
      → (Skipped j w p c.offset.end → Finds j w p (again (record c { descriptor = none })))
      → Finds j w p (described again c (key % 8) x)
  unfolding described
  described-Finds again q key c c₀ none y e u s r f k =
      k (behind r (unknown f (field_for-none c₀.descriptor w.descriptor (key / 8) y)))
  described-Finds again q key c c₀ (some d) y e u s r f k =
      entered-Finds q key (record c { descriptor = some d }) d refl e u s r f
        (field_for_tag c₀.descriptor w.descriptor (key / 8) d y)

  next_step-Finds :
      (again : Cursor → Run Moved) (q : ℕ) (c : Cursor) (r : Outcome (ℕ × Offset))
      → r ≡ field_from j w q
      → Scans w.part.offset.start (stream_from j w q) r
      → c.message ≡ w
      → c.tag ≡ 0
      → c.packed.end ≡ 0
      → Skipped j w p q
      → ((c' : Cursor)
          → c'.message ≡ w
          → c'.tag ≡ 0
          → c'.packed.end ≡ 0
          → q < c'.offset.end
          → c'.offset.end ≤ w.part.offset.end
          → Skipped j w p c'.offset.end
          → Finds j w p (again c'))
      → Finds j w p (next_step again c r)
  unfolding next_step create_at create_zero_copy_internal
  next_step-Finds again q c (ok (key, o)) e (length_at, f, m) s t u r k =
      let c' : Cursor = record c { offset = o; error = no_error } in
      let any : (c.tag == 0) ≡ true = ground arith in
      let here_for : field_for c.descriptor w.descriptor (key / 8)
          ≡ field_for c.descriptor c.message.descriptor (key / 8) =
        ap (λ (x : Message). field_for c.descriptor x.descriptor (key / 8)) (sym s) in
      rw any (
        described-Finds again q key c' c (field_for c.descriptor c.message.descriptor (key / 8))
          here_for refl u (omega (arith, m)) r (sym e)
          (λ r'. k (record c' { descriptor = none }) s t u (omega (arith, m)) f.inside r'))
  next_step-Finds again q c (err e) y f s t u r k = inl (f, (q, r, inr (e, sym y)))
  next_step-Finds again q c Outcome.fault y f s t u r k = tt

  -- `next`, where it looks for any tag.
  pub next-Finds :
      (fuel : ℕ) (c : Cursor)
      → Holds j w
      → c.message ≡ w
      → c.tag ≡ 0
      → c.packed.end ≡ 0
      → w.part.offset.start ≤ c.offset.end
      → c.offset.end ≤ w.part.offset.end
      → Skipped j w p c.offset.end
      → Finds j w p (next fuel j c)
  unfolding next create_at create_zero_copy_internal data_from
  next-Finds zero c v s t u b i r = tt
  next-Finds (suc fuel) c v s t u b i r =
      let scanned : scan_field c.message.part.offset.start
            (create_at (message_buffer j c) c.offset.end)
          ≡ field_from j w c.offset.end =
        ap (λ x. field_from j x c.offset.end) s in
      let valid : IsValid (stream_from j w c.offset.end) = record {
        holds = omega (arith, v.holds);
        small = omega (arith, v.small);
        inside = omega arith;
      } in
      elim (Bool-cases (left (create_at (message_buffer j c) c.offset.end) == 0)) [
        | inl z ↦
            let none_left : (left (stream_from j w c.offset.end) == 0) ≡ true =
              sym (ap (λ x. left (stream_from j x c.offset.end) == 0) s) ∙ z in
            rw z (inl (refl, (c.offset.end, r, inl none_left)))
        | inr z ↦ rw z (
            next_step-Finds (next fuel j) c.offset.end c _ scanned
              (subst (λ x. Scans w.part.offset.start (stream_from j w c.offset.end) x) (sym scanned)
                (scan_field-Scans w.part.offset.start (stream_from j w c.offset.end) b valid))
              s t u r (λ c' s' t' u' m i' r'. next-Finds fuel c' v s' t' u' (omega arith) i' r'))
      ]
