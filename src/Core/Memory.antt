-- ===== src/Core/Memory.antt =====
-- include/protobluff/core/allocator.h and src/core/allocator.c: blocks of memory and allocators.
-- A block is the list of its bytes; the empty list stands for NULL, since no block of size 0 is
-- asked for. `M` is the state behind an allocator, its `data`.
use protobluff.Common.{
  ℕ, ◌+◌, ◌≡◌, Option, some, List, ◌++◌, ltb, if◌then◌else◌, length, take, drop, min,
}
use protobluff.Core.Types.{Outcome, ok, fault}

-- `pb_allocator_t`: `none` is the answer NULL.
pub record Allocator (M : Type 0) : Type 0 where
  pub allocate : M → ℕ → Option (List ℕ) × M
  pub resize : M → List ℕ → ℕ → Option (List ℕ) × M
  pub free : M → List ℕ → M

-- What malloc and realloc promise: a block of the size asked for, which starts with the bytes of the
-- old block that fit.
pub record IsAllocator {M : Type 0} (a : Allocator M) : Type 0 where
  pub allocate_size : (m : M) (n : ℕ) (b : List ℕ) → (a.allocate m n).0 ≡ some b → length b ≡ n
  pub resize_size :
      (m : M) (old : List ℕ) (n : ℕ) (b : List ℕ) → (a.resize m old n).0 ≡ some b → length b ≡ n
  pub resize_keeps :
      (m : M) (old : List ℕ) (n : ℕ) (b : List ℕ)
      → (a.resize m old n).0 ≡ some b
      → take (min n (length old)) b ≡ take (min n (length old)) old

-- memcpy to an offset of a block; behind its end the behaviour is undefined.
unfoldable pub store : List ℕ → ℕ → List ℕ → Outcome (List ℕ)
store block offset bytes =
    if ltb (length block) (offset + length bytes)
    then fault
    else ok (take offset block ++ (bytes ++ drop (offset + length bytes) block))

-- memcpy from an offset of a block.
unfoldable pub load : List ℕ → ℕ → ℕ → Outcome (List ℕ)
load block offset n =
    if ltb (length block) (offset + n) then fault else ok (take n (drop offset block))
