-- ===== src/Core/Buffer.antt =====
-- src/core/buffer.c, src/core/buffer.h and include/protobluff/core/buffer.h: growable buffers.
-- `assert` is compiled out: what it demands of a caller is a hypothesis of the theorems.
pub mod Laws
use protobluff.Common.{
  ℕ, ◌+◌, ◌-◌, ◌≤◌, Bool, true, false, not, ◌&&◌, Option, none, some, List, [], ◌∷◌, ◌++◌, ◌==◌,
  if◌then◌else◌, length, take, drop, add_size, sub_size,
}
use protobluff.Core.Types.{Error, no_error, alloc, Outcome, ok, fault, ◌>>=◌}
use protobluff.Core.Memory.{Allocator, load, store}

-- The field `allocator`: NULL, `&allocator_zero_copy`, or an allocator with its procedures.
pub data AllocatorRef : Type 0 where
  null zero_copy custom : AllocatorRef

-- `pb_buffer_t`. `block` is the memory from `data` on.
pub record Buffer : Type 0 where
  pub allocator : AllocatorRef
  pub block : List ℕ
  pub size : ℕ

abbrev pub is_null : AllocatorRef → Bool
is_null null = true
is_null zero_copy = false
is_null custom = false

abbrev pub is_zero_copy : AllocatorRef → Bool
is_zero_copy null = false
is_zero_copy zero_copy = true
is_zero_copy custom = false

unfoldable pub error : Buffer → Error
error b = if is_null b.allocator then alloc else no_error

unfoldable pub valid : Buffer → Bool
valid b = not (is_null b.allocator)

unfoldable pub empty : Buffer → Bool
empty b = b.size == 0

unfoldable pub create_invalid : Buffer
create_invalid = record { allocator = null; block = []; size = 0 }

unfoldable pub create_empty_with_allocator : Buffer
create_empty_with_allocator = record { allocator = custom; block = []; size = 0 }

unfoldable pub create_zero_copy_internal : List ℕ → ℕ → Buffer
create_zero_copy_internal block size = record { allocator = zero_copy; block = block; size = size }

unfoldable pub create_zero_copy : List ℕ → ℕ → Buffer
create_zero_copy block size = create_zero_copy_internal block size

-- `&(buffer->data[offset])`, as the memory from there on.
unfoldable pub data_from : Buffer → ℕ → List ℕ
data_from b offset = drop offset b.block

-- The end of `pb_buffer_create_with_allocator`: `memcpy(copy, data, size)` into the new block.
unfoldable pub created : {M : Type 0} → List ℕ → ℕ → Option (List ℕ) × M → Outcome (Buffer × M)
unfolding load store
created bytes size (some copy, m) = do
  from ← load bytes 0 size
  block ← store copy 0 from
  ok (record { allocator = custom; block = block; size = size }, m)
created bytes size (none, m) = ok (create_invalid, m)

-- The end of `pb_buffer_grow`, on the answer of the allocator. The pointer to the new space is its
-- offset in the block.
unfoldable pub grown : {M : Type 0} → Buffer → ℕ → Option (List ℕ) × M → Option ℕ × Buffer × M
grown b n (some block', m) = (
  some (sub_size (add_size b.size n) n),
  record b { block = block'; size = add_size b.size n },
  m,
)
grown b n (none, m) = (none, b, m)

module _ {M : Type 0} (a : Allocator M) where
  unfoldable pub create_with_allocator : M → List ℕ → ℕ → Outcome (Buffer × M)
  unfolding created
  create_with_allocator m bytes size = created bytes size (a.allocate m size)

  unfoldable pub destroy : M → Buffer → Buffer × M
  destroy m b =
      if not (is_null b.allocator) && not (is_zero_copy b.allocator)
      then (if length b.block == 0
          then (record b { allocator = null }, m)
          else (record { allocator = null; block = []; size = 0 }, a.free m b.block))
      else (b, m)

  unfoldable pub grow : M → Buffer → ℕ → Option ℕ × Buffer × M
  unfolding grown
  grow m b n =
      if valid b
      then (if is_zero_copy b.allocator
          then (none, b, m)
          else grown b n (a.resize m b.block (add_size b.size n)))
      else (none, b, m)
