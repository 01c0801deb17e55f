-- ===== src/Message/Buffer.antt =====
-- src/message/buffer.c: replacing and removing bytes inside a buffer.
-- `delta` is a ptrdiff_t, as its bit pattern: adding it to a size_t wraps.
pub mod Recovery
pub mod Blocks
pub mod Splice
pub mod Clear
use protobluff.Common.{
  ℕ, ◌+◌, ◌-◌, ◌^◌, Bool, true, false, not, ◌||◌, Option, none, some, List, [], ◌∷◌, ltb, ◌==◌,
  if◌then◌else◌, length, add_size, sub_size,
}
use protobluff.Core.Types.{Error, no_error, alloc, invalid, offset, Outcome, ok, err, fault, ◌>>=◌}
use protobluff.Core.Memory.{Allocator, load, store}
use protobluff.Core.Buffer.{Buffer, valid, is_zero_copy}

-- The answer of an editing function.
abbrev pub Edited : Type 0 → Type 0
Edited M = Error × Buffer × M

-- memmove in a block: the bytes are read before they are written.
unfoldable pub memmove : List ℕ → ℕ → ℕ → ℕ → Outcome (List ℕ)
unfolding load store
memmove block to from n = do raw ← load block from n; store block to raw

-- The bytes behind `end` are moved by `delta`, if there are any.
unfoldable pub shifted : Buffer → ℕ → ℕ → List ℕ → Outcome (List ℕ)
unfolding memmove
shifted b end delta block =
    if ltb end b.size
    then memmove block (add_size end delta) end (sub_size b.size end)
    else ok block

-- The end of `pb_buffer_write`: `memcpy(&(buffer->data[start]), data, size)`.
unfoldable pub copied : {M : Type 0} → ℕ → List ℕ → ℕ → M → Buffer → Outcome (Edited M)
copied start bytes size m b = do
  raw ← load bytes 0 size
  block ← store b.block start raw
  ok (no_error, record b { block = block }, m)

-- The branch in which the buffer grows, on the answer of the allocator.
unfoldable pub write_grown :
    {M : Type 0} → ℕ → ℕ → ℕ → List ℕ → ℕ → Buffer → Option (List ℕ) × M → Outcome (Edited M)
unfolding shifted copied
write_grown start end delta bytes size b (some new, m) = do
  block ← shifted b end delta new
  copied start bytes size m (record b { block = block; size = add_size b.size delta })
write_grown start end delta bytes size b (none, m) = ok (alloc, b, m)

-- The block to go on with when it shrinks: the old one if the allocator answers NULL.
unfoldable pub shrunk : List ℕ → Option (List ℕ) → List ℕ
shrunk moved (some new) = new
shrunk moved none = moved

module _ {M : Type 0} (a : Allocator M) where
  -- The branch in which the buffer shrinks: data is moved first.
  unfoldable pub write_shrunk : M → ℕ → ℕ → ℕ → List ℕ → ℕ → Buffer → Outcome (Edited M)
  unfolding shifted copied shrunk
  write_shrunk m start end delta bytes size b = do
    moved ← shifted b end delta b.block
    copied start bytes size (a.resize m moved (add_size b.size delta)).1 (record b {
      block = shrunk moved (a.resize m moved (add_size b.size delta)).0;
      size = add_size b.size delta;
    })

  -- `pb_buffer_write` in a valid range, by the value of `delta`.
  unfoldable pub write_range : M → ℕ → ℕ → ℕ → List ℕ → ℕ → Buffer → Outcome (Edited M)
  unfolding copied write_grown write_shrunk
  write_range m start end delta bytes size b =
      if delta == 0
      then copied start bytes size m b
      else if is_zero_copy b.allocator
      then ok (alloc, b, m)
      else if ltb delta (2 ^ 63)
      then write_grown start end delta bytes size b (a.resize m b.block (add_size b.size delta))
      else write_shrunk m start end delta bytes size b

  -- `pb_buffer_write`.
  unfoldable pub write : M → Buffer → ℕ → ℕ → List ℕ → ℕ → Outcome (Edited M)
  unfolding write_range
  write m b start end bytes size =
      if not (valid b)
      then ok (invalid, b, m)
      else if ltb end start || ltb b.size end
      then ok (offset, b, m)
      else write_range m start end (sub_size size (sub_size end start)) bytes size b

  -- The branch of `pb_buffer_clear` that keeps a part of the buffer.
  unfoldable pub clear_part : M → ℕ → ℕ → Buffer → Outcome (Edited M)
  unfolding shifted shrunk
  clear_part m end delta b = do
    moved ← shifted b end delta b.block
    ok (
      no_error,
      record b {
        block = shrunk moved (a.resize m moved (add_size b.size delta)).0;
        size = add_size b.size delta;
      },
      (a.resize m moved (add_size b.size delta)).1,
    )

  unfoldable pub clear_range : M → ℕ → ℕ → Buffer → Outcome (Edited M)
  unfolding clear_part
  clear_range m end delta b =
      if delta == 0
      then ok (no_error, b, m)
      else if is_zero_copy b.allocator
      then ok (alloc, b, m)
      else if add_size b.size delta == 0
      then ok (no_error, record b { block = []; size = 0 }, a.free m b.block)
      else clear_part m end delta b

  -- `pb_buffer_clear`.
  unfoldable pub clear : M → Buffer → ℕ → ℕ → Outcome (Edited M)
  unfolding clear_range
  clear m b start end =
      if not (valid b)
      then ok (invalid, b, m)
      else if ltb end start || ltb b.size end
      then ok (offset, b, m)
      else clear_range m end (sub_size start end) b
