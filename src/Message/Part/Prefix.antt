-- ===== src/Message/Part/Prefix.antt =====
-- `adjust_prefix`, `adjust_recursive` and `adjust` of src/message/part.c: the length prefixes around a part.
use protobluff.Common.{
  ℕ, zero, suc, ◌+◌, ◌^◌, ◌&&◌, List, ltb, leb, ◌==◌, if◌then◌else◌, length, u32, add_size,
  sub_size,
}
use protobluff.Core.Types.{Error, no_error, Outcome, ok, err}
use protobluff.Core.Varint
use protobluff.Core.Memory.{Allocator}
use protobluff.Message.Journal
use protobluff.Message.Journal.{Journal, Offset}
use protobluff.Message.Run.{fault, out_of_fuel, Act, pure, and_then, ◌>>=◌, journaled}
use protobluff.Message.Part.{Part, part_version, invalidate, realign, part_size, part_empty}
use protobluff.Message.Part.Round.{Round, stop, again, around, adjust_round}

-- A part whose header has become longer by `adjust` bytes.
unfoldable pub moved : Part → ℕ → Part
moved p adjust = record {
  version = add_size p.version 1;
  offset = record {
    start = add_size p.offset.start adjust;
    end = add_size p.offset.end adjust;
    diff_origin = sub_size p.offset.diff_origin adjust;
    diff_tag = sub_size p.offset.diff_tag adjust;
    diff_length = sub_size p.offset.diff_length adjust;
  };
}

-- `adjust_prefix` behind its write, with `*delta`.
unfoldable pub prefixed : Error → Part → ℕ → ℕ → Error × Part × ℕ
unfolding moved
prefixed no_error p adjust delta =
    if adjust == 0 then (no_error, p, delta) else (no_error, moved p adjust, add_size delta adjust)
prefixed e p adjust delta = (e, p, delta)

-- The end of `adjust_recursive`: the part is invalidated on an error.
unfoldable pub closed : Error → Part → ℕ → Error × Part × ℕ
closed no_error p delta = (no_error, p, delta)
closed e p delta = (e, invalidate p, delta)

module _ {M : Type 0} (a : Allocator M) where
  -- `pb_journal_write` and `pb_journal_clear` on the journal of the state.
  abbrev pub journal_write : ℕ → ℕ → ℕ → List ℕ → ℕ → Act M Error
  journal_write origin start end bytes size s =
      journaled (Journal.write a s.memory s.journal origin start end bytes size)

  abbrev pub journal_clear : ℕ → ℕ → ℕ → Act M Error
  journal_clear origin start end s = journaled (Journal.clear a s.memory s.journal origin start end)

  unfoldable pub adjust_prefix : Part → ℕ → Act M (Error × Part × ℕ)
  unfolding prefixed part_size
  adjust_prefix p delta =
      let bytes = Varint.pack_uint32 (u32 (part_size p.offset)) in
      let prefix = add_size p.offset.start p.offset.diff_length in
      journal_write prefix prefix p.offset.start bytes (length bytes) >>= λ e.
      pure (prefixed e p (add_size (length bytes) p.offset.diff_length) delta)

  unfoldable pub prefix_around : Part → Part → ℕ → Act M (Error × Part × ℕ)
  unfolding adjust_prefix closed
  prefix_around p temp delta = do r ← adjust_prefix temp delta; pure (closed r.0 p r.2)

  -- `temp` may have moved by the updates of the messages in it.
  unfoldable pub behind_align : Error × Part → Part → ℕ → Act M (Error × Part × ℕ)
  unfolding prefix_around closed
  behind_align (no_error, temp) p delta = prefix_around p temp delta
  behind_align (e, temp) p delta = pure (closed e p delta)

  unfoldable pub behind_recursion : Part → Error × Part × ℕ → Act M (Error × Part × ℕ)
  unfolding behind_align closed realign
  behind_recursion temp (no_error, p, delta) s = behind_align (realign s.journal temp) p delta s
  behind_recursion temp (e, p, delta) s = pure (closed e p delta) s

  -- The part lies within `temp`; `recur` is the recursive call.
  unfoldable pub contained :
      (Part → ℕ → ℕ → Act M (Error × Part × ℕ)) → Part → ℕ → Part → Act M (Error × Part × ℕ)
  unfolding behind_recursion prefix_around closed part_empty
  contained recur p delta temp =
      let origin = add_size p.offset.start p.offset.diff_origin in
      let temp_origin = add_size temp.offset.start temp.offset.diff_origin in
      if ltb temp_origin origin
      then (if (temp.offset.start == p.offset.start) && (temp.offset.end == p.offset.end)
          then prefix_around p temp delta
          else recur p delta temp.offset.start >>= behind_recursion temp)
      else if leb (2 ^ 63) delta && part_empty temp.offset
      then (journal_clear temp_origin temp_origin temp.offset.end >>= λ e. pure (closed e p delta))
      else prefix_around p temp delta

  unfoldable pub adjust_step :
      (Part → ℕ → ℕ → Act M (Error × Part × ℕ))
      → Part
      → ℕ
      → Outcome Round
      → Act M (Error × Part × ℕ)
  unfolding contained closed part_version
  adjust_step recur p delta (ok stop) = pure (closed no_error p delta)
  adjust_step recur p delta (ok (again position)) = recur p delta position
  adjust_step recur p delta (ok (around o)) =
      contained recur p delta (record { version = part_version p; offset = o })
  adjust_step recur p delta (err e) = pure (closed e p delta)
  adjust_step recur p delta Outcome.fault = λ s. fault

  -- `adjust_recursive`, at a position of its stream; the fuel counts rounds and recursive calls.
  unfoldable pub adjust_recursive : ℕ → Part → ℕ → ℕ → Act M (Error × Part × ℕ)
  unfolding adjust_step adjust_round
  adjust_recursive zero p delta position s = out_of_fuel
  adjust_recursive (suc fuel) p delta position s =
      adjust_step (adjust_recursive fuel) p delta (adjust_round s.journal.buffer p delta position) s

  unfoldable pub adjust : Part → ℕ → Act M (Error × Part)
  unfolding adjust_recursive
  adjust p delta s =
      and_then (adjust_recursive (s.journal.buffer.size + 1) p delta 0 s) (λ r. pure (r.0, r.1))
