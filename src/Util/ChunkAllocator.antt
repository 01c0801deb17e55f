-- ===== src/Util/ChunkAllocator.antt =====
-- src/util/chunk_allocator.c: an allocator that keeps its blocks in chunks with room to grow.
-- A chunk is known by its address, and a block by its chunk's: the header in front of it has a fixed size. What
-- malloc and realloc answer is an argument: the address of the new chunk, or `none` for NULL. A pointer that
-- is not one of a chunk in the list is undefined behaviour.
pub mod Laws
use protobluff.Common.{
  ℕ, ◌+◌, ◌*◌, ◌/◌, ◌%◌, ◌^◌, Bool, true, false, Option, none, some, List, [], ◌∷◌, ◌++◌, ltb, ◌==◌,
  if◌then◌else◌,
}
use protobluff.Core.Types.{Outcome, ok, fault, ◌>>=◌}

-- `pb_chunk_allocator_t`, of a block; `bytes` is what malloc or realloc was asked for, the header included.
pub record Chunk : Type 0 where
  pub address : ℕ
  pub capacity : ℕ
  pub bytes : ℕ

-- sizeof(pb_chunk_allocator_t): a pointer and a size_t.
abbrev pub header : ℕ
header = 16

-- `data`: the first chunk, which only has the minimum capacity, and the chunks linked behind it.
pub record Pool : Type 0 where
  pub minimum : ℕ
  pub chunks : List Chunk

-- What an allocating function answers: a block or NULL, and the list behind the call. `none` for the pool is
-- an allocator whose `data` is NULL.
abbrev pub Allocated : Type 0
Allocated = Option ℕ × Option Pool

-- The multiple of the minimum capacity above the size.
unfoldable pub capacity_for : ℕ → ℕ → ℕ
capacity_for minimum size = minimum * (size / minimum + 1) % 2 ^ 64

-- A new chunk for a size, at an address: its header and its capacity are asked for.
unfoldable pub chunk_for : ℕ → ℕ → ℕ → Chunk
unfolding capacity_for
chunk_for minimum size address = record {
  address = address;
  capacity = capacity_for minimum size;
  bytes = (header + capacity_for minimum size) % 2 ^ 64;
}

unfoldable pub linked : Pool → ℕ → Option ℕ → Allocated
unfolding chunk_for
linked p size none = (none, some p)
linked p size (some fresh) =
    (some fresh, some (record p { chunks = p.chunks ++ (chunk_for p.minimum size fresh ∷ []) }))

unfoldable pub allocator_allocate : Option ℕ → Option Pool → ℕ → Allocated
unfolding linked
allocator_allocate fresh none size = (none, none)
allocator_allocate fresh (some p) size = linked p size fresh

-- The chunk of a block.
unfoldable pub find_chunk : List Chunk → ℕ → Outcome Chunk
find_chunk [] block = fault
find_chunk (c ∷ cs) block =
    let rest = find_chunk cs block in if c.address == block then ok c else rest

-- The chunk of the block is replaced in the list.
unfoldable pub replace_chunk : List Chunk → ℕ → Chunk → List Chunk
replace_chunk [] block new = []
replace_chunk (c ∷ cs) block new =
    if c.address == block then new ∷ cs else c ∷ replace_chunk cs block new

unfoldable pub remove_chunk : List Chunk → ℕ → List Chunk
remove_chunk [] block = []
remove_chunk (c ∷ cs) block = if c.address == block then cs else c ∷ remove_chunk cs block

-- The block's chunk has to grow: with no memory the block is answered as it is.
unfoldable pub regrown : Pool → ℕ → ℕ → Option ℕ → Allocated
unfolding replace_chunk chunk_for
regrown p block size none = (some block, some p)
regrown p block size (some fresh) = (
  some fresh,
  some (record p { chunks = replace_chunk p.chunks block (chunk_for p.minimum size fresh) }),
)

unfoldable pub resize_block : Option ℕ → Pool → ℕ → ℕ → Chunk → Allocated
unfolding regrown
resize_block fresh p block size c =
    if ltb c.capacity size then regrown p block size fresh else (some block, some p)

-- `block` is `none` for NULL.
unfoldable pub allocator_resize : Option ℕ → Option Pool → Option ℕ → ℕ → Outcome Allocated
unfolding allocator_allocate resize_block find_chunk
allocator_resize fresh none block size = ok (none, none)
allocator_resize fresh (some p) none size = ok (allocator_allocate fresh (some p) size)
allocator_resize fresh (some p) (some block) size = do
  c ← find_chunk p.chunks block
  ok (resize_block fresh p block size c)

unfoldable pub allocator_free : Option Pool → ℕ → Outcome (Option Pool)
unfolding find_chunk remove_chunk
allocator_free none block = ok none
allocator_free (some p) block = do
  c ← find_chunk p.chunks block
  ok (some (record p { chunks = remove_chunk p.chunks block }))

-- `pb_chunk_allocator_create_with_capacity`; whether malloc answers a first chunk is an argument.
unfoldable pub create_with_capacity : Bool → ℕ → Option Pool
create_with_capacity true capacity = some (record { minimum = capacity; chunks = [] })
create_with_capacity false capacity = none

unfoldable pub pool_create : Bool → Option Pool
unfolding create_with_capacity
pool_create memory = create_with_capacity memory 4096

-- The chunks that `pb_chunk_allocator_destroy` frees, in order; the first one is freed behind them.
unfoldable pub freed_chunks : Option Pool → List Chunk
freed_chunks none = []
freed_chunks (some p) = p.chunks
