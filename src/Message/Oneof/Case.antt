-- ===== src/Message/Oneof/Case.antt =====
-- `pb_oneof_case` of src/message/oneof.c: the active member.
use protobluff.Common.{
  ℕ, zero, suc, ◌≡◌, refl, ap, ◌∙◌, arith, true, false, inl, inr, Bool-cases, List, [], ◌∷◌, ◌==◌,
  if◌then◌else◌,
}
use protobluff.Message.Journal.{Journal}
use protobluff.Message.Run.{Run, done, fault, out_of_fuel, on_done}
use protobluff.Message.Part.{realign}
use protobluff.Message.Cursor.{
  Message, message_valid, message_aligned, message_align, Cursor, is_none, cursor_tag,
}
use protobluff.Message.Cursor.Next.{Moved, cursor_next}
use protobluff.Message.Cursor.Create.{
  cursor_at_start, first_field, create_aligned, create_unsafe, oneof_at, most_moves, rewind,
}
use protobluff.Message.Cursor.Progress.{Holds}
use protobluff.Message.Cursor.Moves.{Moves}
use protobluff.Message.Cursor.Lands.{step-Moves}
use protobluff.Message.Cursor.Comes.{Goes, cursor_next-Goes}
use protobluff.Message.Cursor.Complete.{Complete, Completes, walk-Completes}
use protobluff.Message.Cursor.Walk.{Walk, behind_first, walk_on, walk, Ordered, Walks, walk-Walks}
use protobluff.Message.Oneof.{Oneof, case_moved, case_rounds, case_rewound, oneof_case}

-- The tags of the members of a oneof among the fields.
abbrev pub member_tags : ℕ → List Cursor → List ℕ
member_tags d [] = []
member_tags d (c ∷ cs) =
    if oneof_at c.descriptor == d then cursor_tag c ∷ member_tags d cs else member_tags d cs

-- The last of some tags.
abbrev pub last_tag : ℕ → List ℕ → ℕ
last_tag tag [] = tag
last_tag tag (t ∷ ts) = last_tag t ts

-- All fields of the message of a cursor.
abbrev walk_from : Journal → Moved → Run Walk
walk_from j (true, c) = walk (most_moves c) j c
walk_from j (false, c) = done ([], c)

abbrev pub visited : Journal → Cursor → Run Walk
visited j c = on_done (rewind j c) (walk_from j)

-- `pb_cursor_rewind`, behind the first move.
abbrev opened_at : Message → Run Moved → Run (Cursor × Message)
opened_at w r = on_done r (λ m. done (first_field m, w))

abbrev rewound : Message → Run Moved → Run Moved
rewound w r = on_done (opened_at w r) (λ x. done (is_none (x.0).error, x.0))

-- What `pb_oneof_case` is to answer: 0 or the tag of the last member among the fields, which are in
-- order, and all that the message has.
abbrev pub Tells : Journal → Run Walk → Message → ℕ → Run (ℕ × Oneof) → Type 0
Tells j fields w d (done (tag, o)) =
    (cs : List Cursor) × (fields ≡ done (cs, o.cursor))
    × Ordered w w.part.offset.start cs
    × Complete j w (cursor_at_start w 0) cs
    × (tag ≡ last_tag 0 (member_tags d cs))
Tells j fields w d fault = Unit
Tells j fields w d out_of_fuel = ⊥

-- What the loop answers behind a walk.
abbrev told : ℕ → ℕ → Walk → ℕ × Cursor
told d tag x = (last_tag tag (member_tags d x.0), x.1)

module _ (j : Journal) (d : ℕ) where
  one_more :
      (tag : ℕ) (c : Cursor) (r : Run Walk)
      → on_done r (λ x. done (told d (if oneof_at c.descriptor == d then cursor_tag c else tag) x))
        ≡ on_done (on_done r (λ x. done (behind_first c x))) (λ x. done (told d tag x))
  one_more tag c (done (cs, e)) = elim (Bool-cases (oneof_at c.descriptor == d)) [
    | inl z ↦ rw z refl
    | inr z ↦ rw z refl
  ]
  one_more tag c fault = refl
  one_more tag c out_of_fuel = refl

  moved-walk :
      (fuel tag : ℕ) (c : Cursor) (r : Run Moved)
      → ((t : ℕ) (c' : Cursor)
          → case_rounds fuel j d t c' ≡ on_done (walk fuel j c') (λ x. done (told d t x)))
      → on_done r (
          case_moved
            (case_rounds fuel j d)
            (if oneof_at c.descriptor == d then cursor_tag c else tag))
        ≡ on_done (on_done r (walk_on (walk fuel j) c)) (λ x. done (told d tag x))
  unfolding case_moved
  moved-walk fuel tag c (done (true, c')) h = h _ c' ∙ one_more tag c (walk fuel j c')
  moved-walk fuel tag c (done (false, e)) h = one_more tag c (done ([], e))
  moved-walk fuel tag c fault h = refl
  moved-walk fuel tag c out_of_fuel h = refl

  case_rounds-walk :
      (fuel tag : ℕ) (c : Cursor)
      → case_rounds fuel j d tag c ≡ on_done (walk fuel j c) (λ x. done (told d tag x))
  unfolding case_rounds walk
  case_rounds-walk zero tag c = refl
  case_rounds-walk (suc fuel) tag c =
      moved-walk fuel tag c (cursor_next j c) (λ t c'. case_rounds-walk fuel t c')

module _ (j : Journal) (w : Message) (h : Holds j w) (aligned : message_aligned j w ≡ true)
    (o : Oneof) where
  walked-Tells :
      (r : Run Walk)
      → Walks w w.part.offset.start r
      → Completes j w (cursor_at_start w 0) r
      → Tells j r w o.descriptor (
          on_done
            (on_done r (λ x. done (told o.descriptor 0 x)))
            (λ x. done (x.0, record o { cursor = x.1 })))
  walked-Tells (done (cs, e)) (s, x) f = (cs, refl, s, f, refl)
  walked-Tells fault x f = tt
  walked-Tells out_of_fuel x f = x

  -- Behind the move to the first field.
  rewound-Tells :
      (r : Run Moved)
      → Moves w 0 w.part.offset.start r
      → Goes j w (cursor_at_start w 0) r
      → Tells j (on_done (rewound w r) (walk_from j)) w o.descriptor (
          on_done (rewound w r) (λ m.
            on_done (case_rewound j o.descriptor m) (λ y. done (y.0, record o { cursor = y.1 }))))
  unfolding first_field case_rewound
  rewound-Tells (done (true, c)) (s, e, v, l, p) g =
      let valid : is_none c.error ≡ true = ap is_none e in
      let end : c.message.part.offset.end ≡ w.part.offset.end =
        ap (λ (x : Message). x.part.offset.end) s.same_message in
      rw (valid, case_rounds-walk j o.descriptor (most_moves c) 0 c)
        (walked-Tells (walk (most_moves c) j c)
          (walk-Walks j w h aligned 0 (most_moves c) w.part.offset.start c s e v l p (omega arith))
          (walk-Completes j w h aligned (most_moves c) (cursor_at_start w 0) c s e v g))
  rewound-Tells (done (false, c)) (s, e) g = rw e ([], refl, tt, g, refl)
  rewound-Tells fault m g = tt
  rewound-Tells out_of_fuel m g = m

  -- `pb_oneof_case` on a oneof whose cursor is over any tag of an aligned message that is not invalid and lies
  -- in the journal's block comes to an end, unless its behaviour is undefined, at a group for one. The answer is
  -- the tag of the last value whose field is a member of the oneof, or 0 if there is none, among the values that
  -- the cursor goes through. These are in order, and they are all that the bytes of the message hold: between
  -- two of them, and in front of the first, there are only fields without a descriptor and packed fields without
  -- values, each at a field is described by the tag of its key, and behind the last one comes the end of the
  -- message, or something that cannot be read as a field or as a value of a packed one.
  pub oneof_case-Tells :
      message_valid w ≡ true
      → o.cursor.message ≡ w
      → o.cursor.tag ≡ 0
      → Tells j (visited j o.cursor) w o.descriptor (oneof_case j o)
  unfolding oneof_case rewind create_unsafe create_aligned message_align realign message_aligned
      cursor_at_start
  oneof_case-Tells valid m t =
      rw (m, t, valid, aligned)
        (rewound-Tells (cursor_next j (cursor_at_start w 0))
          (step-Moves j w h aligned 0 (cursor_at_start w 0)
            (record { same_message = refl; same_tag = refl }) refl
            (inl (refl, omega arith, h.order)))
          (cursor_next-Goes j w h aligned (cursor_at_start w 0)
            (record { same_message = refl; same_tag = refl }) refl
            (inl (refl, omega arith, h.order))))
