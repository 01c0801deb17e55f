-- ===== src/Core/Buffer/Laws.antt =====
-- What growing and filling does to the contents of a buffer.
use protobluff.Common.{
  ℕ, ◌+◌, ◌^◌, ◌≤◌, ◌<◌, ◌≡◌, refl, sym, ap, ◌∙◌, arith, true, not, Option, none, some, ◌≢◌, List,
  ◌++◌, length, take, drop, add_size, length-take, length-append, length-drop, take-append-drop,
  drop-append_length, take-append_self, take-take, min,
}
use mathlib.Core.Path.{subst}
use protobluff.Core.Types.{ok}
use protobluff.Core.Memory.{Allocator, IsAllocator, store}
use protobluff.Core.Buffer.{
  Buffer, AllocatorRef, null, zero_copy, custom, valid, is_null, grow, grown,
}

-- The bytes of the buffer.
abbrev pub contents : Buffer → List ℕ
contents b = take b.size b.block

-- The block holds the buffer, and `size_t` its size.
pub record IsValid (b : Buffer) : Type 0 where
  pub holds : b.size ≤ length b.block
  pub small : b.size < 2 ^ 64
  pub not_null : b.allocator ≢ null

pub length-contents : (b : Buffer) → IsValid b → length (contents b) ≡ b.size
length-contents b v = omega (arith, length-take b.size b.block)

pub valid_lem : (b : Buffer) → IsValid b → valid b ≡ true
unfolding valid
valid_lem b v = go b.allocator refl
  where
    go : (r : AllocatorRef) → b.allocator ≡ r → not (is_null b.allocator) ≡ true
    go null e = absurd (v.not_null e)
    go zero_copy e = rw e refl
    go custom e = rw e refl

-- What a call of `pb_buffer_grow` by `n` comes to: NULL, and the buffer is the same; or the end of the
-- old contents, behind which the block has `n` more bytes.
abbrev pub Grows : {M : Type 0} → Buffer → ℕ → Option ℕ × Buffer × M → Type 0
Grows b n (none, b', m) = b' ≡ b
Grows b n (some offset, b', m) =
    (offset ≡ b.size)
    × (b'.size ≡ b.size + n)
    × (take b.size b'.block ≡ contents b)
    × (length b'.block ≡ b.size + n)
    × (b'.allocator ≡ b.allocator)

grown-Grows :
    {M : Type 0} (b : Buffer) (n : ℕ) (r : Option (List ℕ) × M)
    → IsValid b
    → b.size + n < 2 ^ 64
    → ((block : List ℕ) → r.0 ≡ some block → length block ≡ b.size + n)
    → ((block : List ℕ)
        → r.0 ≡ some block
        → take (min (b.size + n) (length b.block)) block
          ≡ take (min (b.size + n) (length b.block)) b.block)
    → Grows b n (grown b n r)
unfolding grown
grown-Grows b n (none, m) v h size keeps = refl
grown-Grows b n (some block, m) v h size keeps = (
  omega arith,
  omega arith,
  sym (take-take b.size k block (omega arith))
      ∙ ap (take b.size) (keeps block refl)
      ∙ take-take b.size k b.block (omega arith),
  size block refl,
  refl,
)
  where
    k : ℕ
    k = min (b.size + n) (length b.block)

grown-none :
    {M : Type 0} (b : Buffer) (n : ℕ) (r : Option (List ℕ) × M)
    → (grown b n r).0 ≡ none
    → r.0 ≡ none
unfolding grown
grown-none b n (none, m) e = refl
grown-none b n (some block, m) e = cc

module _ {M : Type 0} (a : Allocator M) (laws : IsAllocator a) where
  -- On a valid buffer that fits `size_t` after it has grown, `pb_buffer_grow` either returns NULL and
  -- alters nothing of the buffer, or it returns the offset of the old end, keeps the old contents and
  -- the allocator, and makes room for exactly `n` more bytes.
  pub grow-Grows :
      (m : M) (b : Buffer) (n : ℕ) → IsValid b → b.size + n < 2 ^ 64 → Grows b n (grow a m b n)
  unfolding grow valid
  grow-Grows m b n v h = go b.allocator refl
    where
      fits : add_size b.size n ≡ b.size + n
      fits = omega arith

      go : (r : AllocatorRef) → b.allocator ≡ r → Grows b n (grow a m b n)
      go null e = absurd (v.not_null e)
      go zero_copy e =
          let same : grow a m b n ≡ (none, b, m) = simp e in subst (Grows b n) (sym same) refl
      go custom e =
          let same : grow a m b n ≡ grown b n (a.resize m b.block (b.size + n)) = simp (e, fits) in
          subst (Grows b n) (sym same) (
            grown-Grows b n (a.resize m b.block (b.size + n)) v h
              (laws.resize_size m b.block (b.size + n)) (laws.resize_keeps m b.block (b.size + n)))

  -- Where the allocator answers NULL, and only there, a buffer that has one cannot grow.
  pub grow-none :
      (m : M) (b : Buffer) (n : ℕ)
      → b.allocator ≡ custom
      → (grow a m b n).0 ≡ none
      → (a.resize m b.block (add_size b.size n)).0 ≡ none
  unfolding grow valid
  grow-none m b n c e =
      let same : grow a m b n ≡ grown b n (a.resize m b.block (add_size b.size n)) = simp c in
      grown-none b n (a.resize m b.block (add_size b.size n)) (sym (ap (λ r. r.0) same) ∙ e)

  -- A zero-copy buffer cannot grow.
  grow-zero_copy :
      (m : M) (b : Buffer) (n : ℕ) → b.allocator ≡ zero_copy → grow a m b n ≡ (none, b, m)
  unfolding grow valid
  grow-zero_copy m b n e = simp e

-- Filling room behind `old`.
pub store-room :
    (old room bytes : List ℕ)
    → length bytes ≤ length room
    → store (old ++ room) (length old) bytes ≡ ok (old ++ (bytes ++ drop (length bytes) room))
unfolding store
store-room old room bytes h =
    rw (drop-append_length (length bytes) old room, take-append_self old room)
      (ground (arith, length-append old room))

pub grown_block :
    (b b' : Buffer) (n : ℕ)
    → take b.size b'.block ≡ contents b
    → length b'.block ≡ b.size + n
    → (room : List ℕ) × (b'.block ≡ contents b ++ room) × (length room ≡ n)
grown_block b b' n e l = (
  drop b.size b'.block,
  sym (take-append-drop b.size b'.block) ∙ ap (λ xs. xs ++ drop b.size b'.block) e,
  omega (arith, length-drop b.size b'.block),
)
