-- ===== src/Message/Part/Root.antt =====
-- A field of the outermost message: there is no length prefix around it, and the update of the messages
-- around it in src/message/part.c leaves the journal alone.
use protobluff.Common.{
  ℕ, zero, suc, ◌+◌, ◌^◌, ◌≤◌, ◌<◌, ◌≡◌, ◌⊎◌, inl, inr, refl, arith, false, true, not, ◌&&◌, ◌||◌,
  ltb, ◌==◌, ◌%◌, if-elim, length, add_size, sub_size,
}
use protobluff.Core.Types.{
  Error, no_error, alloc, invalid, varint, offset, absent, eom, uint32, Outcome, ok, err, >>=-elim,
}
use protobluff.Core.Memory.{Allocator}
use protobluff.Core.Buffer.{Buffer}
use protobluff.Core.Stream.{Stream, create_at, Value, read, skip}
use protobluff.Core.Stream.Progress.{IsValid, read-Ahead, Ahead-IsValid}
use protobluff.Core.Stream.Errors.{IsReadError, read-err, skip-err}
use protobluff.Message.Journal.{Offset}
use protobluff.Message.Run.{Run, done, fault, out_of_fuel, State, Act, pure, and_then}
use protobluff.Message.Part.{Part, part_empty, invalidate}
use protobluff.Message.Part.Prefix.{closed, adjust_step, adjust_recursive, adjust}
use protobluff.Message.Part.Further.{Further, adjust_round-Further}
use protobluff.Message.Part.Round.{
  Round, stop, again, around, scalar, field_offset, judge, length_round, tag_round, adjust_round,
}

-- The field begins at its message's start, which is the start of the journal, and has a tag.
pub record IsRoot (p : Part) : Type 0 where
  pub at_root : add_size p.offset.start p.offset.diff_origin ≡ 0
  pub has_tag : (p.offset.diff_tag == 0) ≡ false

-- The round finds no field around the part, and fails only by what it reads.
abbrev pub Alone : Outcome Round → Type 0
Alone (ok (around o)) = ⊥
Alone (err e) = IsReadError e
Alone _ = Unit

module _ (p : Part) (delta : ℕ) (root : IsRoot p) where
  judge-Alone :
      (s : Stream) (temp : Offset) (n : ℕ) → 0 < temp.start → Alone (judge p delta s temp n)
  unfolding judge
  judge-Alone s temp n h =
      let behind : ltb 0 temp.start ≡ true = ground arith in
      rw (root.at_root, root.has_tag, behind) tt

  tag_round-Alone :
      (position : ℕ) (r : Value × Stream) → IsValid r.1 → Alone (tag_round p delta position r)
  unfolding tag_round length_round field_offset
  tag_round-Alone position (x, s) v =
      if-elim Alone (scalar x % 8 == 2) _ _
        (>>=-elim Alone (read s uint32) _
          (λ (y, s') e.
            let a = read-Ahead s s' uint32 y v e in
            judge-Alone s' _ (scalar y) (omega (arith, a.further)))
          (λ e y. read-err s uint32 e y) tt)
        (>>=-elim Alone (skip s (scalar x % 8)) _ (λ s' e. tt)
          (λ e y. skip-err s (scalar x % 8) e y) tt)

  adjust_round-Alone :
      (b : Buffer) (position : ℕ)
      → b.size ≤ length b.block
      → b.size < 2 ^ 64
      → position ≤ b.size
      → Alone (adjust_round b p delta position)
  unfolding adjust_round create_at
  adjust_round-Alone b position holds small inside =
      let v : IsValid (create_at b position) = record {
        holds = holds;
        small = small;
        inside = inside;
      } in
      if-elim Alone
        (not (ltb position p.offset.end)
          || ((position == sub_size p.offset.start delta) && part_empty p.offset))
        _ _ tt
        (>>=-elim Alone (read (create_at b position) uint32) _
          (λ (x, s') e.
            tag_round-Alone position (x, s')
              (Ahead-IsValid (create_at b position) s' v
                (read-Ahead (create_at b position) s' uint32 x v e)))
          (λ e y. read-err (create_at b position) uint32 e y) tt)

-- Nothing of the state is altered, and the part is as it was, or invalidated with an error.
abbrev pub Untouched : {M : Type 0} → Part → State M → Run ((Error × Part) × State M) → Type 0
Untouched p s (done ((e, p'), s')) =
    (s' ≡ s) × (((e ≡ no_error) × (p' ≡ p)) ⊎ (IsReadError e × (p' ≡ invalidate p)))
Untouched p s fault = Unit
Untouched p s out_of_fuel = ⊥

-- The same, before the adjusted delta is dropped.
abbrev Steady : {M : Type 0} → Part → State M → Run ((Error × Part × ℕ) × State M) → Type 0
Steady p s r = Untouched p s (and_then r (λ x. pure (x.0, x.1)))

failed-Steady :
    {M : Type 0} (e : Error) (p : Part) (delta : ℕ) (s : State M)
    → IsReadError e
    → Steady p s (pure (closed e p delta) s)
unfolding closed
failed-Steady varint p delta s r = (refl, inr (r, refl))
failed-Steady offset p delta s r = (refl, inr (r, refl))
failed-Steady no_error p delta s r = (refl, inl (refl, refl))
failed-Steady alloc p delta s r = (refl, inr (r, refl))
failed-Steady invalid p delta s r = (refl, inr (r, refl))
failed-Steady absent p delta s r = (refl, inr (r, refl))
failed-Steady eom p delta s r = (refl, inr (r, refl))

module _ {M : Type 0} (a : Allocator M) (p : Part) (delta : ℕ) (root : IsRoot p) (s : State M)
    (holds : s.journal.buffer.size ≤ length s.journal.buffer.block)
    (small : s.journal.buffer.size < 2 ^ 64) where
  adjust_step-Steady :
      (recur : Part → ℕ → ℕ → Act M (Error × Part × ℕ)) (position : ℕ) (o : Outcome Round)
      → Alone o
      → Further s.journal.buffer.size position o
      → ((next : ℕ)
          → position < next
          → next ≤ s.journal.buffer.size
          → Steady p s (recur p delta next s))
      → Steady p s (adjust_step a recur p delta o s)
  unfolding adjust_step closed
  adjust_step-Steady recur position (ok stop) n f h = (refl, inl (refl, refl))
  adjust_step-Steady recur position (ok (again next)) n f h = h next f.0 f.1
  adjust_step-Steady recur position (ok (around o)) n f h = elim n [ ]
  adjust_step-Steady recur position (err e) n f h = failed-Steady e p delta s n
  adjust_step-Steady recur position Outcome.fault n f h = tt

  adjust_recursive-Steady :
      (fuel position : ℕ)
      → position ≤ s.journal.buffer.size
      → s.journal.buffer.size < position + fuel
      → Steady p s (adjust_recursive a fuel p delta position s)
  unfolding adjust_recursive
  adjust_recursive-Steady zero position inside enough = absurd (omega arith)
  adjust_recursive-Steady (suc fuel) position inside enough =
      adjust_step-Steady (adjust_recursive a fuel) position
        (adjust_round s.journal.buffer p delta position)
        (adjust_round-Alone p delta root s.journal.buffer position holds small inside)
        (adjust_round-Further s.journal.buffer p delta position holds small inside)
        (λ next h i. adjust_recursive-Steady fuel next i (omega arith))

  -- For a field of the outermost message, in a journal whose block holds its buffer, `adjust` comes to an end
  -- and alters nothing: the journal and its memory are as they were, and so is the part if PB_ERROR_NONE is
  -- answered; else the error is PB_ERROR_VARINT or PB_ERROR_OFFSET, and the part is invalidated. Only its
  -- behaviour may be undefined.
  pub adjust-Untouched : Untouched p s (adjust a p delta s)
  unfolding adjust
  adjust-Untouched =
      adjust_recursive-Steady (s.journal.buffer.size + 1) 0 (omega arith) (omega arith)
