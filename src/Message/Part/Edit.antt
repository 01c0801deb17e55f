-- ===== src/Message/Part/Edit.antt =====
-- `init`, `pb_part_write` and `pb_part_clear` of src/message/part.c.
use protobluff.Common.{
  ℕ, List, [], ◌++◌, ◌==◌, if◌then◌else◌, length, bit_or, shl, add_size, sub_size,
}
use protobluff.Core.Types.{Error, no_error, invalid}
use protobluff.Core.Varint
use protobluff.Core.Memory.{Allocator}
use protobluff.Message.Run.{Act, pure, ◌>>=◌}
use protobluff.Message.Part.{Part, part_valid, invalidate, realign, part_size}
use protobluff.Message.Part.Prefix.{journal_write, journal_clear, adjust_prefix, adjust}

-- The header of a new part: the key, and a length prefix of zero.
unfoldable pub header : ℕ → ℕ → List ℕ
header wiretype tag =
    Varint.pack_uint32 (bit_or wiretype (shl 32 tag 3))
    ++ (if wiretype == 2 then Varint.pack_uint32 0 else [])

-- The part that `init` has written, and `key` bytes of its header are the key.
unfoldable pub opened : Part → ℕ → ℕ → Part
opened p key size =
    let start = add_size p.offset.start size in
    record {
      version = add_size p.version 1;
      offset = record {
        start = start;
        end = add_size p.offset.end size;
        diff_origin = sub_size p.offset.diff_origin size;
        diff_tag = sub_size p.offset.start start;
        diff_length = sub_size (add_size p.offset.start key) start;
      };
    }

-- What `pb_part_clear` makes of the part behind the change of the journal.
unfoldable pub shortened : Part → ℕ → Part
shortened p delta = record {
  version = add_size p.version 1;
  offset = record p.offset {
    start = add_size delta p.offset.end;
    end = add_size p.offset.end delta;
    diff_origin = if p.offset.diff_tag == 0 then p.offset.diff_origin else 0;
  };
}

-- The alignment at the end of `pb_part_write`.
unfoldable pub aligned_again : {M : Type 0} → Error × Part → Act M (Error × Part)
unfolding realign
aligned_again (no_error, p) s = pure (realign s.journal p) s
aligned_again (e, p) s = pure (e, p) s

module _ {M : Type 0} (a : Allocator M) where
  -- `init` behind its write, and behind the update of the messages around.
  unfoldable pub initialized : Error × Part → Part
  initialized (no_error, p) = p
  initialized (e, p) = invalidate p

  unfoldable pub behind_init : Error → Part → ℕ → ℕ → Act M Part
  unfolding adjust opened initialized
  behind_init no_error p key size = do r ← adjust a (opened p key size) size; pure (initialized r)
  behind_init e p key size = pure (
      initialized (
        e,
        record p {
          offset = record p.offset {
            diff_tag = p.offset.start;
            diff_length = add_size p.offset.start key;
          };
        },
      ))

  unfoldable pub init : Part → ℕ → ℕ → Act M Part
  unfolding behind_init header
  init p wiretype tag =
      let bytes = header wiretype tag in
      let key = length (Varint.pack_uint32 (bit_or wiretype (shl 32 tag 3))) in
      journal_write a (add_size p.offset.start p.offset.diff_origin) p.offset.start p.offset.end
        bytes (length bytes)
      >>= λ e. behind_init e p key (length bytes)

  -- `pb_part_write`: the part's own length prefix, the messages around it, and the alignment at the end.
  unfoldable pub own_prefix : Part → ℕ → Act M (Error × Part × ℕ)
  unfolding adjust_prefix
  own_prefix p delta =
      if p.offset.diff_length == 0 then pure (no_error, p, delta) else adjust_prefix a p delta

  unfoldable pub others : Error × Part × ℕ → Act M (Error × Part)
  unfolding adjust
  others (no_error, p, delta) = adjust a p delta
  others (e, p, delta) = pure (e, p)

  unfoldable pub behind_write : Error → Part → ℕ → Act M (Error × Part)
  unfolding own_prefix others aligned_again
  behind_write no_error p delta =
      if delta == 0
      then pure (no_error, p)
      else own_prefix
          (record {
            version = add_size p.version 1;
            offset = record p.offset { end = add_size p.offset.end delta };
          })
          delta
        >>= others
        >>= aligned_again
  behind_write e p delta = pure (e, p)

  unfoldable pub write_aligned : List ℕ → ℕ → Error × Part → Act M (Error × Part)
  unfolding behind_write part_size
  write_aligned bytes size (no_error, p) =
      journal_write a p.offset.start p.offset.start p.offset.end bytes size >>= λ e.
      behind_write e p (sub_size size (part_size p.offset))
  write_aligned bytes size (e, p) = pure (invalid, p)

  unfoldable pub part_write : Part → List ℕ → ℕ → Act M (Error × Part)
  unfolding write_aligned realign part_valid
  part_write p bytes size s =
      if part_valid p then write_aligned bytes size (realign s.journal p) s else pure (invalid, p) s

  -- `pb_part_clear`.
  unfoldable pub behind_clear : Error → Part → ℕ → Act M (Error × Part)
  unfolding adjust shortened
  behind_clear no_error p delta =
      if delta == 0
      then pure (no_error, invalidate p)
      else do r ← adjust a (shortened p delta) delta; pure (r.0, invalidate r.1)
  behind_clear e p delta = pure (e, p)

  unfoldable pub clear_aligned : Error × Part → Act M (Error × Part)
  unfolding behind_clear part_size
  clear_aligned (no_error, p) =
      let origin = if p.offset.diff_tag == 0 then 0 else p.offset.diff_origin in
      journal_clear a (add_size p.offset.start origin) (add_size p.offset.start p.offset.diff_tag)
        p.offset.end
      >>= λ e. behind_clear e p (sub_size p.offset.diff_tag (part_size p.offset))
  clear_aligned (e, p) = pure (invalid, p)

  unfoldable pub part_clear : Part → Act M (Error × Part)
  unfolding clear_aligned realign part_valid
  part_clear p s =
      if part_valid p then clear_aligned (realign s.journal p) s else pure (invalid, p) s
