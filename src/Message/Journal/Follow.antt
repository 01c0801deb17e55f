-- ===== src/Message/Journal/Follow.antt =====
-- `pb_journal_align` of src/message/journal.c behind `pb_journal_write`: parts beside the change.
use protobluff.Common.{
  ℕ, ◌+◌, ◌-◌, ◌^◌, ◌≤◌, ◌<◌, ◌≡◌, ◌⊎◌, refl, sym, ap, ◌∙◌, arith, Bool, true, false, ◌&&◌, inl,
  inr, Bool-cases, List, [], ◌∷◌, ◌++◌, ltb, leb, ◌==◌, length, take, drop, add_size, sub_size,
  take-take, take-drop, drop-drop, take-append, take_all, length-take, length-append,
  drop-append_length, drop_all,
}
use mathlib.Core.Path.{subst}
use protobluff.Core.Types.{
  no_error, alloc, invalid, varint, offset, absent, eom, Outcome, ok, err, fault,
}
use protobluff.Core.Memory.{Allocator, IsAllocator}
use protobluff.Core.Buffer.{valid}
use protobluff.Core.Buffer.Laws.{contents, IsValid, valid_lem, length-contents}
use protobluff.Message.Journal.{
  Entry, Offset, Journal, Journaled, size_max, align_move, align_entry, align_entries, aligned,
  aligned_version, align, write,
}
use protobluff.Message.Journal.Laws.{again}
use protobluff.Message.Journal.Rewrite.{Rewrites, write-Rewrites}

-- The bytes of a part.
abbrev pub slice : Offset → List ℕ → List ℕ
slice o c = take (o.end - o.start) (drop o.start c)

-- The part lies behind the range, or in front of it.
abbrev pub Beside : (origin start end : ℕ) → Offset → Type 0
Beside origin start end o =
    ((end ≤ o.start) × (end < o.end) × (origin < o.start)) ⊎ ((o.end ≤ start) × (o.end < end))

-- The part of the old journal is aligned with the new one, and its bytes are the same.
abbrev pub Follows : Offset → Journal → Journal → Type 0
Follows o j j' =
    (o' : Offset) × (align j' (length j.entries) o ≡ (no_error, length j'.entries, o'))
    × (slice o' (contents j'.buffer) ≡ slice o (contents j.buffer))

abbrev pub FollowsIn : {M : Type 0} → Offset → Journal → Outcome (Journaled M) → Type 0
FollowsIn o j (ok (no_error, j', m)) = Follows o j j'
FollowsIn o j (ok (alloc, j', m)) = Follows o j j'
FollowsIn o j _ = ⊥

-- No entry is new.
align_none :
    (j j' : Journal) (o : Offset)
    → valid j'.buffer ≡ true
    → j'.entries ≡ j.entries
    → length j.entries < 2 ^ 63
    → align j' (length j.entries) o ≡ (no_error, length j'.entries, o)
align_none j j' o fine e few =
    let same : length j.entries ≡ length j'.entries = ap length (sym e) in
    let small : (length j'.entries == size_max) ≡ false = ground (arith, same) in
    rw same (
      again j' (length j'.entries) o fine refl small (drop_all (length j'.entries) j'.entries refl))

-- One is.
align_one :
    (j' : Journal) (es : List Entry) (e : Entry) (o o' : Offset)
    → valid j'.buffer ≡ true
    → j'.entries ≡ es ++ (e ∷ [])
    → align_entry e o false ≡ (o', false)
    → length es + 1 < 2 ^ 63
    → align j' (length es) o ≡ (no_error, length j'.entries, o')
unfolding align align_entries aligned aligned_version
align_one j' es e o o' fine t a few =
    let count : length j'.entries ≡ length es + 1 = ap length t ∙ length-append es (e ∷ []) in
    let one : drop (length es + 0) (es ++ (e ∷ [])) ≡ e ∷ [] = drop-append_length 0 es (e ∷ []) in
    let zero_more : length es + 0 ≡ length es = omega arith in
    let new : drop (length es) j'.entries ≡ e ∷ [] =
      ap (drop (length es)) t ∙ (ap (λ n. drop n (es ++ (e ∷ []))) (sym zero_more) ∙ one) in
    let next : length es + 1 ≡ length j'.entries = sym count in
    let small : (length j'.entries == size_max) ≡ false = ground (arith, count) in
    rw (new, a, next, fine, small) refl

and-false : (b : Bool) → (b && false) ≡ false
and-false true = refl
and-false false = refl

-- The bytes in front of `start` are those of any list with the same beginning.
slice-front :
    (o : Offset) (start : ℕ) (c d : List ℕ)
    → o.start ≤ o.end
    → o.end ≤ start
    → take start d ≡ take start c
    → slice o d ≡ slice o c
slice-front o start c d h k e =
    let upto : o.start + (o.end - o.start) ≤ start = omega arith in
    take-drop (o.end - o.start) o.start d
    ∙ (ap (drop o.start) (
          sym (take-take (o.start + (o.end - o.start)) start d upto)
          ∙ (ap (take (o.start + (o.end - o.start))) e
              ∙ take-take (o.start + (o.end - o.start)) start c upto))
        ∙ sym (take-drop (o.end - o.start) o.start c))

-- The bytes behind the range are those of the list with the range replaced.
slice-behind :
    (o o' : Offset) (start end n : ℕ) (c front bytes : List ℕ)
    → length front ≡ start
    → length bytes ≡ n
    → o.start ≤ o.end
    → end ≤ o.start
    → o'.start ≡ start + n + (o.start - end)
    → o'.end ≡ start + n + (o.end - end)
    → slice o' (front ++ (bytes ++ drop end c)) ≡ slice o c
slice-behind o o' start end n c front bytes f b h k s t =
    let size : o'.end - o'.start ≡ o.end - o.start = omega arith in
    let at : o'.start ≡ length front + (length bytes + (o.start - end)) = omega arith in
    let back : end + (o.start - end) ≡ o.start = omega arith in
    rw (size, at)
      (ap (take (o.end - o.start)) (
        drop-append_length (length bytes + (o.start - end)) front (bytes ++ drop end c)
        ∙ (drop-append_length (o.start - end) bytes (drop end c)
            ∙ (drop-drop (o.start - end) end c ∙ ap (λ m. drop m c) back))))

module _ (e : Entry) (start n : ℕ) (o : Offset) (order : o.start ≤ o.end)
    (origin : e.origin ≤ start) (range : start ≤ e.offset)
    (change : e.delta ≡ sub_size n (sub_size e.offset start)) (some_bytes : 0 < n)
    (small : e.offset + n < 2 ^ 63) where
  align_entry-front : o.end ≤ start → o.end < e.offset → align_entry e o false ≡ (o, false)
  unfolding align_entry
  align_entry-front h k =
      let not_behind : ltb e.offset o.end ≡ false = ground arith in
      let not_within : leb e.offset o.end ≡ false = ground arith in
      let kept : (e.origin == add_size e.offset e.delta) ≡ false = ground (arith, change) in
      rw
        (
          not_behind,
          not_within,
          kept,
          and-false (ltb e.origin o.start),
          and-false (leb (add_size o.start o.diff_origin) e.origin),
          and-false (leb e.origin (add_size o.start o.diff_origin)),
        )
        refl

  align_entry-behind :
      e.offset ≤ o.start
      → e.offset < o.end
      → e.origin < o.start
      → align_entry e o false ≡ (align_move e o, false)
  unfolding align_entry
  align_entry-behind h k l =
      let behind : ltb e.origin o.start ≡ true = ground arith in
      let ends : ltb e.offset o.end ≡ true = ground arith in rw (behind, ends) refl

module _ (j : Journal) (e : Entry) (start n : ℕ) (bytes : List ℕ) (o : Offset)
    (v : IsValid j.buffer) (order : o.start ≤ o.end) (inside : o.end ≤ j.buffer.size)
    (origin : e.origin ≤ start) (range : start ≤ e.offset) (within : e.offset ≤ j.buffer.size)
    (change : e.delta ≡ sub_size n (sub_size e.offset start)) (size : length bytes ≡ n)
    (some_bytes : 0 < n) (room : j.buffer.size + n < 2 ^ 63) (few : length j.entries + 1 < 2 ^ 63)
    (beside : Beside e.origin start e.offset o) where
  front-size : length (take start (contents j.buffer)) ≡ start
  front-size = omega (arith, length-take start (contents j.buffer), length-contents j.buffer v)

  -- The parts in front, wherever the change is of size.
  front-take :
      (c : List ℕ)
      → c ≡ take start (contents j.buffer) ++ (bytes ++ drop e.offset (contents j.buffer))
      → take start c ≡ take start (contents j.buffer)
  front-take c h =
      let all : start ≤ length (take start (contents j.buffer)) = omega (arith, front-size) in
      ap (take start) h
      ∙ (take-append start (take start (contents j.buffer)) _ all
          ∙ take-take start start (contents j.buffer) (omega arith))

  same-Follows :
      (j' : Journal)
      → valid j'.buffer ≡ true
      → contents j'.buffer
        ≡ take start (contents j.buffer) ++ (bytes ++ drop e.offset (contents j.buffer))
      → (e.delta == 0) ≡ true
      → j'.entries ≡ j.entries
      → Follows o j j'
  same-Follows j' fine c z t = (
    o,
    align_none j j' o fine t (omega arith),
    elim beside [
      | inl (h, k, l) ↦
          let zero_delta : e.delta ≡ 0 = ground arith in
          let as_long : start + n ≡ e.offset = omega (arith, change) in
          ap (slice o) c
          ∙ slice-behind o o start e.offset n (contents j.buffer) (take start (contents j.buffer))
              bytes front-size size order h (omega arith) (omega arith)
      | inr (h, k) ↦
          slice-front o start (contents j.buffer) (contents j'.buffer) order h (front-take _ c)
    ],
  )

  changed-Follows :
      (j' : Journal)
      → valid j'.buffer ≡ true
      → contents j'.buffer
        ≡ take start (contents j.buffer) ++ (bytes ++ drop e.offset (contents j.buffer))
      → j'.entries ≡ j.entries ++ (e ∷ [])
      → Follows o j j'
  unfolding align_move
  changed-Follows j' fine c t = elim beside [
    | inl (h, k, l) ↦ (
      align_move e o,
      align_one j' j.entries e o (align_move e o) fine t
          (align_entry-behind e start n o order origin range change some_bytes (omega arith) h k l)
          few,
      ap (slice (align_move e o)) c
          ∙ slice-behind o (align_move e o) start e.offset n (contents j.buffer)
              (take start (contents j.buffer)) bytes front-size size order h (omega (arith, change))
              (omega (arith, change)),
    )
    | inr (h, k) ↦ (
      o,
      align_one j' j.entries e o o fine t
          (align_entry-front e start n o order origin range change some_bytes (omega arith) h k)
          few,
      slice-front o start (contents j.buffer) (contents j'.buffer) order h (front-take _ c),
    )
  ]

  written-Follows :
      {M : Type 0} (r : Outcome (Journaled M)) → Rewrites j e start bytes r → FollowsIn o j r
  written-Follows (ok (no_error, j', m)) ((c, s, h, al), t) =
      let fine : valid j'.buffer ≡ true = valid_lem j'.buffer (record {
        holds = h;
        small = omega (arith, s, range, within);
        not_null = λ x. v.not_null (sym al ∙ x);
      }) in
      elim (Bool-cases (e.delta == 0)) [
        | inl z ↦ same-Follows j' fine c z (t ∙ rw z refl)
        | inr z ↦ changed-Follows j' fine c (t ∙ rw z refl)
      ]
  written-Follows (ok (alloc, j', m)) (b, t) = (
    o,
    align_none j j' o (ap valid b ∙ valid_lem j.buffer v) t (omega arith),
    ap (λ x. slice o (contents x)) b,
  )
  written-Follows (ok (invalid, j', m)) h = elim h [ ]
  written-Follows (ok (varint, j', m)) h = elim h [ ]
  written-Follows (ok (offset, j', m)) h = elim h [ ]
  written-Follows (ok (absent, j', m)) h = elim h [ ]
  written-Follows (ok (eom, j', m)) h = elim h [ ]
  written-Follows (err x) h = elim h [ ]
  written-Follows fault h = elim h [ ]

-- A part that is up to date, in a valid journal, lies behind a range and behind the origin of the change, or in
-- front of the range. Behind `pb_journal_write` of some bytes over the range, with an allocator that keeps its
-- promises, and whether it answers PB_ERROR_NONE or PB_ERROR_ALLOC, `pb_journal_align` answers PB_ERROR_NONE
-- and the version of the new journal, and the aligned part has the bytes that it had.
pub align-write :
    {M : Type 0} (a : Allocator M) (laws : IsAllocator a) (m : M) (j : Journal) (o : Offset)
    (origin start end : ℕ) (bytes : List ℕ)
    → IsValid j.buffer
    → o.start ≤ o.end
    → o.end ≤ j.buffer.size
    → origin ≤ start
    → start ≤ end
    → end ≤ j.buffer.size
    → 0 < length bytes
    → j.buffer.size + length bytes < 2 ^ 63
    → length j.entries + 1 < 2 ^ 63
    → Beside origin start end o
    → FollowsIn o j (write a m j origin start end bytes (length bytes))
align-write a laws m j o origin start end bytes v order inside before range within some_bytes room
      few beside =
    let e : Entry = record {
      origin = origin;
      offset = end;
      delta = sub_size (length bytes) (sub_size end start);
    } in
    let written =
      write-Rewrites a laws m j origin start end bytes (length bytes) v range within (omega arith)
        (omega arith) in
    written-Follows j e start (length bytes) bytes o v order inside before range within refl refl
      some_bytes room few beside (write a m j origin start end bytes (length bytes))
      (subst (λ d. Rewrites j e start d (write a m j origin start end bytes (length bytes)))
        (take_all (length bytes) bytes refl) written)
