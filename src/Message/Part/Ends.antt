-- ===== src/Message/Part/Ends.antt =====
-- The loop and the recursion of `adjust_recursive` in src/message/part.c come to an end: every round, and
-- every recursive call, is at a later position of the journal's buffer.
use protobluff.Common.{
  ℕ, zero, suc, ◌+◌, ◌^◌, ◌≤◌, ◌<◌, ◌≢◌, arith, ◌&&◌, ltb, leb, ◌==◌, if-elim, length, add_size,
}
use protobluff.Core.Types.{Error, no_error, Outcome, ok, err}
use protobluff.Core.Memory.{Allocator}
use protobluff.Message.Journal.{Journaled}
use protobluff.Message.Run.{out_of_fuel, State, Act, pure, journaled, and_then-≢-out_of_fuel}
use protobluff.Message.Part.{Part, part_empty, realign}
use protobluff.Message.Part.Prefix.{
  adjust_prefix, closed, prefix_around, behind_align, behind_recursion, contained, adjust_step,
  adjust_recursive, adjust,
}
use protobluff.Message.Part.Round.{Round, stop, again, around, adjust_round}
use protobluff.Message.Part.Further.{Further, adjust_round-Further}

journaled-ends : {M : Type 0} (o : Outcome (Journaled M)) → journaled o ≢ out_of_fuel
journaled-ends (ok (e, j, m)) x = cc
journaled-ends (err e) x = cc
journaled-ends Outcome.fault x = cc

pure-ends : {M A : Type 0} (x : A) (s : State M) → pure x s ≢ out_of_fuel
pure-ends x s e = cc

module _ {M : Type 0} (a : Allocator M) where
  prefix_around-ends :
      (p temp : Part) (delta : ℕ) (s : State M) → prefix_around a p temp delta s ≢ out_of_fuel
  unfolding prefix_around adjust_prefix
  prefix_around-ends p temp delta s =
      and_then-≢-out_of_fuel (adjust_prefix a temp delta s) _
        (and_then-≢-out_of_fuel _ _ (journaled-ends _) (λ e s'. pure-ends _ s'))
        (λ r s'. pure-ends _ s')

  behind_align-ends :
      (r : Error × Part) (p : Part) (delta : ℕ) (s : State M)
      → behind_align a r p delta s ≢ out_of_fuel
  unfolding behind_align
  behind_align-ends (no_error, temp) p delta s = prefix_around-ends p temp delta s
  behind_align-ends (x, temp) p delta s = pure-ends (closed x p delta) s

  behind_recursion-ends :
      (temp : Part) (r : Error × Part × ℕ) (s : State M) → behind_recursion a temp r s ≢ out_of_fuel
  unfolding behind_recursion
  behind_recursion-ends temp (no_error, p, delta) s =
      behind_align-ends (realign s.journal temp) p delta s
  behind_recursion-ends temp (x, p, delta) s = pure-ends (closed x p delta) s

  module _ (recur : Part → ℕ → ℕ → Act M (Error × Part × ℕ)) (p : Part) (delta : ℕ)
      (s : State M) where
    contained-ends :
        (temp : Part)
        → recur p delta temp.offset.start s ≢ out_of_fuel
        → contained a recur p delta temp s ≢ out_of_fuel
    unfolding contained
    contained-ends temp h =
        let P = λ (m : Act M (Error × Part × ℕ)). m s ≢ out_of_fuel in
        if-elim P
          (ltb (add_size temp.offset.start temp.offset.diff_origin)
            (add_size p.offset.start p.offset.diff_origin))
          _ _
          (if-elim P ((temp.offset.start == p.offset.start) && (temp.offset.end == p.offset.end)) _
            _ (prefix_around-ends p temp delta s)
            (and_then-≢-out_of_fuel (recur p delta temp.offset.start s) (behind_recursion a temp) h
              (behind_recursion-ends temp)))
          (if-elim P (leb (2 ^ 63) delta && part_empty temp.offset) _ _
            (and_then-≢-out_of_fuel _ _ (journaled-ends _) (λ e s'. pure-ends _ s'))
            (prefix_around-ends p temp delta s))

    adjust_step-ends :
        (size position : ℕ) (o : Outcome Round)
        → Further size position o
        → ((next : ℕ) → position < next → next ≤ size → recur p delta next s ≢ out_of_fuel)
        → adjust_step a recur p delta o s ≢ out_of_fuel
    unfolding adjust_step
    adjust_step-ends size position (ok stop) f h = pure-ends _ s
    adjust_step-ends size position (ok (again next)) f h = h next f.0 f.1
    adjust_step-ends size position (ok (around o)) f h = contained-ends _ (h o.start f.0 f.1)
    adjust_step-ends size position (err x) f h = pure-ends _ s
    adjust_step-ends size position Outcome.fault f h = λ e. cc

  -- In a journal whose block holds its buffer, `adjust_recursive` at a position comes to an end within as
  -- many rounds and recursive calls as there are bytes behind the position, and one more.
  pub adjust_recursive-ends :
      (fuel : ℕ) (p : Part) (delta position : ℕ) (s : State M)
      → s.journal.buffer.size ≤ length s.journal.buffer.block
      → s.journal.buffer.size < 2 ^ 64
      → position ≤ s.journal.buffer.size
      → s.journal.buffer.size < position + fuel
      → adjust_recursive a fuel p delta position s ≢ out_of_fuel
  unfolding adjust_recursive
  adjust_recursive-ends zero p delta position s holds small inside enough = absurd (omega arith)
  adjust_recursive-ends (suc fuel) p delta position s holds small inside enough =
      adjust_step-ends (adjust_recursive a fuel) p delta s s.journal.buffer.size position
        (adjust_round s.journal.buffer p delta position)
        (adjust_round-Further s.journal.buffer p delta position holds small inside)
        (λ next h i. adjust_recursive-ends fuel p delta next s holds small i (omega arith))

  -- `adjust`, in a journal whose block holds its buffer, comes to an end, unless its behaviour is undefined, at a
  -- group for one.
  pub adjust-ends :
      (p : Part) (delta : ℕ) (s : State M)
      → s.journal.buffer.size ≤ length s.journal.buffer.block
      → s.journal.buffer.size < 2 ^ 64
      → adjust a p delta s ≢ out_of_fuel
  unfolding adjust
  adjust-ends p delta s holds small =
      and_then-≢-out_of_fuel _ _
        (adjust_recursive-ends (s.journal.buffer.size + 1) p delta 0 s holds small (omega arith)
          (omega arith))
        (λ r s'. pure-ends _ s')
