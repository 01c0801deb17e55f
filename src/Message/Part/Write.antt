-- ===== src/Message/Part/Write.antt =====
-- `pb_part_write` of src/message/part.c on a field of the outermost message.
use protobluff.Common.{
  ℕ, ◌+◌, ◌^◌, ◌<◌, ◌≡◌, refl, sym, ap, ◌∙◌, arith, true, false, List, ◌++◌, ◌==◌, leb, Bool-cases,
  inl, inr, length, take, drop, sub_size, take_all, length-take,
}
use mathlib.Core.Path.{subst}
use protobluff.Core.Types.{no_error, alloc, invalid, varint, offset, absent, eom, Outcome, ok, err}
use protobluff.Core.Memory.{Allocator, IsAllocator}
use protobluff.Core.Buffer.Laws.{contents, IsValid}
use protobluff.Message.Journal
use protobluff.Message.Journal.{Entry, Journal, Journaled}
use protobluff.Message.Journal.Rewrite.{Rewrites, write-Rewrites}
use protobluff.Message.Run.{State, and_then, journaled}
use protobluff.Message.Part.{Part, marker, part_size, part_valid, realign, part_aligned}
use protobluff.Message.Part.Shape.{IsField}
use protobluff.Message.Part.Own.{recorded}
use protobluff.Message.Part.Edit.{behind_write, write_aligned, part_write}
use protobluff.Message.Part.Grown.{or-true, front_of, Written, grown-Written}

-- The answer of the journal, behind the write of the new bytes.
module _ {M : Type 0} (a : Allocator M) (laws : IsAllocator a) (p : Part) (tag_at at n : ℕ)
    (bytes : List ℕ) (j : Journal) (valid : IsValid j.buffer)
    (field : IsField 0 tag_at at j.buffer.size p.offset) (long : length bytes ≡ n)
    (room : j.buffer.size + n + 5 < 2 ^ 63) (few : length j.entries + 2 < 2 ^ 63)
    (current : p.version ≡ length j.entries) where
  behind-Written :
      (o : Outcome (Journaled M))
      → Rewrites j
          (record {
            origin = p.offset.start;
            offset = p.offset.end;
            delta = sub_size n (sub_size p.offset.end p.offset.start);
          })
          p.offset.start
          bytes
          o
      → Written at
          (front_of p at n (contents j.buffer))
          (bytes ++ drop p.offset.end (contents j.buffer))
          n
          p
          j
          (and_then (journaled o) (λ e. behind_write a e p (sub_size n (part_size p.offset))))
  unfolding behind_write part_size
  behind-Written (ok (no_error, j', m)) ((c, s, h, al), t) =
      let rest = bytes ++ drop p.offset.end (contents j.buffer) in
      let s₁ : State M = record { journal = j'; memory = m } in
      elim (Bool-cases (sub_size n (sub_size p.offset.end p.offset.start) == 0)) [
        | inl z ↦
            let same : length (take p.offset.start (contents j.buffer)) ≡ p.offset.start = omega (
              arith,
              length-take p.offset.start (contents j.buffer),
              length-take j.buffer.size j.buffer.block,
              field.order,
              field.inside,
              valid.holds,
            ) in
            let zero_delta : sub_size n (sub_size p.offset.end p.offset.start) ≡ 0 = ground arith in
            let t' : j'.entries ≡ j.entries = t ∙ rw z refl in
            rw (z, or-true (p.offset.diff_length == 0))
              (
                c,
                sym same,
                omega (arith, field.order, field.inside, valid.small),
                omega
                    (arith, field.to_length, field.prefix, field.order, field.inside, valid.small),
                current ∙ sym (ap length t'),
                h,
              )
        | inr z ↦
            let t' : length j'.entries ≡ length j.entries + 1 =
              recorded j.entries j'.entries _ _ t ∙ rw z refl in
            grown-Written a laws p tag_at at n rest j s₁ _ field valid.holds refl z room few current
              c (s ∙ rw long refl)
              (record {
                holds = h;
                small = omega (arith, s, field.order, field.inside);
                not_null = λ e. valid.not_null (sym al ∙ e);
              })
              t'
      ]
  behind-Written (ok (alloc, j', m)) (b, e) = inl (refl, b, e)
  behind-Written (ok (invalid, j', m)) h = elim h [ ]
  behind-Written (ok (varint, j', m)) h = elim h [ ]
  behind-Written (ok (offset, j', m)) h = elim h [ ]
  behind-Written (ok (absent, j', m)) h = elim h [ ]
  behind-Written (ok (eom, j', m)) h = elim h [ ]
  behind-Written (err e) h = elim h [ ]
  behind-Written Outcome.fault h = elim h [ ]

-- `pb_part_write` of all of `bytes` to an up-to-date field of the outermost message, in a valid journal with
-- an allocator that keeps its promises, below half of the range of `size_t`. It comes to an end, or its
-- behaviour is undefined, at a group in front of the field for one. Where it answers PB_ERROR_NONE, exactly
-- the field's contents are replaced by the bytes, its length prefix is the new length if there is one and the
-- size changed, all else is as it was, and the part is up to date and around the bytes. Where it answers
-- PB_ERROR_ALLOC nothing changed, or all but the prefix was written; with any other error all was written, and
-- the part is invalid.
pub part_write-Written :
    {M : Type 0} (a : Allocator M) (laws : IsAllocator a) (p : Part) (tag_at at : ℕ)
    (bytes : List ℕ) (s : State M)
    → IsValid s.journal.buffer
    → IsField 0 tag_at at s.journal.buffer.size p.offset
    → p.version ≡ length s.journal.entries
    → s.journal.buffer.size + length bytes + 5 < 2 ^ 63
    → length s.journal.entries + 2 < 2 ^ 63
    → Written at
        (front_of p at (length bytes) (contents s.journal.buffer))
        (bytes ++ drop p.offset.end (contents s.journal.buffer))
        (length bytes)
        p
        s.journal
        (part_write a p bytes (length bytes) s)
unfolding part_write part_valid realign part_aligned write_aligned
part_write-Written a laws p tag_at at bytes s v f w room few =
    let fine : leb marker p.version ≡ false = ground arith in
    let aligned : (p.version == length s.journal.entries) ≡ true = ground arith in
    rw (fine, aligned)
      (behind-Written a laws p tag_at at (length bytes) bytes s.journal v f refl room few w _ (
        subst
          (λ d.
            Rewrites s.journal
              (record {
                origin = p.offset.start;
                offset = p.offset.end;
                delta = sub_size (length bytes) (sub_size p.offset.end p.offset.start);
              })
              p.offset.start d
              (Journal.write a s.memory s.journal p.offset.start p.offset.start p.offset.end bytes
                (length bytes)))
          (take_all (length bytes) bytes refl)
          (write-Rewrites a laws s.memory s.journal p.offset.start p.offset.start p.offset.end bytes
            (length bytes) v f.order f.inside (omega arith) (omega arith))))
