-- ===== src/Util/ChunkAllocator/Laws.antt =====
-- The chunks of the chunk allocator are large enough and distinct; where realloc fails one is too small.
use protobluff.Common.{
  ℕ, ◌+◌, ◌*◌, ◌/◌, ◌%◌, ◌^◌, ◌≤◌, ◌<◌, ◌≡◌, ◌⊎◌, refl, arith, All, true, false, Bool-cases,
  if-elim, inl, inr, some, List, [], ◌∷◌, ◌++◌, ltb, ◌==◌, if◌then◌else◌,
}
use mathlib.Core.Path.{subst}
use protobluff.Core.Types.{ok}
use protobluff.Util.ChunkAllocator.{
  Chunk, header, Pool, Allocated, capacity_for, chunk_for, find_chunk, replace_chunk, remove_chunk,
  regrown, resize_block, allocator_resize, allocator_free,
}

-- The capacity for a size is above it, by at most the minimum.
capacity_for-lt :
    (minimum size : ℕ)
    → 0 < minimum
    → size + minimum < 2 ^ 64
    → (size < capacity_for minimum size) × (capacity_for minimum size ≤ size + minimum)
unfolding capacity_for
capacity_for-lt minimum size h k =
    let whole : size ≡ minimum * (size / minimum) + size % minimum = grind arith in
    let below : size % minimum < minimum = grind arith in
    let fits : minimum * (size / minimum + 1) < 2 ^ 64 = grind arith in
    let same : minimum * (size / minimum + 1) % 2 ^ 64 ≡ minimum * (size / minimum + 1) =
      grind arith in
    rw same (grind arith, grind arith)

-- What was asked for holds the header and the capacity.
abbrev pub IsSound : List Chunk → Type 0
IsSound cs = All (λ c. header + c.capacity ≤ c.bytes) cs

chunk_for_sound :
    (minimum size address : ℕ)
    → 0 < minimum
    → header + size + minimum < 2 ^ 64
    → header + (chunk_for minimum size address).capacity ≤ (chunk_for minimum size address).bytes
unfolding chunk_for
chunk_for_sound minimum size address h k =
    let (above, near) = capacity_for-lt minimum size h (omega arith) in omega (arith, near)

replace_chunk-IsSound :
    (cs : List Chunk) (block : ℕ) (new : Chunk)
    → IsSound cs
    → header + new.capacity ≤ new.bytes
    → IsSound (replace_chunk cs block new)
unfolding replace_chunk
replace_chunk-IsSound [] block new h k = tt
replace_chunk-IsSound (c ∷ cs) block new (h, t) k =
    if-elim IsSound (c.address == block) _ _ (k, t) (h, replace_chunk-IsSound cs block new t k)

find_chunk_sound :
    (cs : List Chunk) (block : ℕ) (c : Chunk)
    → IsSound cs
    → find_chunk cs block ≡ ok c
    → header + c.capacity ≤ c.bytes
unfolding find_chunk
find_chunk_sound [] block c h e = cc
find_chunk_sound (d ∷ cs) block c (h, t) e = elim (Bool-cases (d.address == block)) [
  | inl x ↦
      let found : ok d ≡ ok c = subst (λ b. (if b then ok d else find_chunk cs block) ≡ ok c) x e in
      let same : d ≡ c = cc in subst (λ y. header + y.capacity ≤ y.bytes) same h
  | inr x ↦
      find_chunk_sound cs block c t
        (subst (λ b. (if b then ok d else find_chunk cs block) ≡ ok c) x e)
]

-- No chunk has the address.
abbrev pub Unused : ℕ → List Chunk → Type 0
Unused a cs = All (λ c. (c.address == a) ≡ false) cs

found-append :
    (cs : List Chunk) (new : Chunk)
    → Unused new.address cs
    → find_chunk (cs ++ (new ∷ [])) new.address ≡ ok new
unfolding find_chunk
found-append [] new h =
    let same : (new.address == new.address) ≡ true = ground arith in rw same refl
found-append (c ∷ cs) new (h, k) = rw h (found-append cs new k)

found-replace :
    (cs : List Chunk) (block : ℕ) (c new : Chunk)
    → (new.address ≡ block) ⊎ Unused new.address cs
    → find_chunk cs block ≡ ok c
    → find_chunk (replace_chunk cs block new) new.address ≡ ok new
unfolding find_chunk replace_chunk
found-replace [] block c new h e = cc
found-replace (d ∷ cs) block c new h e =
    let same : (new.address == new.address) ≡ true = ground arith in
    elim (Bool-cases (d.address == block)) [
      | inl x ↦ rw (x, same) refl
      | inr x ↦
          let tail : find_chunk cs block ≡ ok c =
            subst (λ b. (if b then ok d else find_chunk cs block) ≡ ok c) x e in
          elim h [
            | inl y ↦
                let other : (d.address == new.address) ≡ false = rw y x in
                rw (x, other) (found-replace cs block c new (inl y) tail)
            | inr (y, z) ↦ rw (x, y) (found-replace cs block c new (inr z) tail)
          ]
    ]

-- Another block's chunk stays where it is.
other-replace :
    (cs : List Chunk) (block other : ℕ) (new : Chunk)
    → (block == other) ≡ false
    → (new.address == other) ≡ false
    → find_chunk (replace_chunk cs block new) other ≡ find_chunk cs other
unfolding find_chunk replace_chunk
other-replace [] block other new h k = refl
other-replace (c ∷ cs) block other new h k = elim (Bool-cases (c.address == block)) [
  | inl x ↦ let differs : (c.address == other) ≡ false = ground arith in rw (x, k, differs) refl
  | inr x ↦ elim (Bool-cases (c.address == other)) [
    | inl y ↦ rw (x, y) refl
    | inr y ↦ rw (x, y) (other-replace cs block other new h k)
  ]
]

other-remove :
    (cs : List Chunk) (block other : ℕ)
    → (block == other) ≡ false
    → find_chunk (remove_chunk cs block) other ≡ find_chunk cs other
unfolding find_chunk remove_chunk
other-remove [] block other h = refl
other-remove (c ∷ cs) block other h = elim (Bool-cases (c.address == block)) [
  | inl x ↦ let differs : (c.address == other) ≡ false = ground arith in rw (x, differs) refl
  | inr x ↦ elim (Bool-cases (c.address == other)) [
    | inl y ↦ rw (x, y) refl
    | inr y ↦ rw (x, y) (other-remove cs block other h)
  ]
]

-- The memory of the block that is answered holds the header and `size` bytes, every block but the two keeps
-- its chunk, and the memory of every chunk still holds its capacity.
abbrev pub Serves : Pool → ℕ → ℕ → Allocated → Type 0
Serves p block size (some b, some p') =
    ((c : Chunk) × (find_chunk p'.chunks b ≡ ok c)
      × (header + size ≤ c.bytes)
      × (size ≤ c.capacity))
    × ((other : ℕ)
        → (block == other) ≡ false
        → (b == other) ≡ false
        → find_chunk p'.chunks other ≡ find_chunk p.chunks other)
    × IsSound p'.chunks
Serves p block size _ = ⊥

-- `allocator_resize` of a block of a pool in which the memory of every chunk holds its header and its capacity,
-- where realloc answers an address that is the block's or unused, and the size with the minimum capacity and the
-- header is below the range of size_t: the memory of the block it answers has room for the size behind the
-- header, every other block keeps its chunk, and the memory of every chunk still holds header and capacity.
pub resize-Serves :
    (p : Pool) (block size fresh : ℕ) (c : Chunk)
    → IsSound p.chunks
    → 0 < p.minimum
    → header + size + p.minimum < 2 ^ 64
    → find_chunk p.chunks block ≡ ok c
    → (fresh ≡ block) ⊎ Unused fresh p.chunks
    → (r : Allocated) × (allocator_resize (some fresh) (some p) (some block) size ≡ ok r)
      × Serves p block size r
unfolding allocator_resize resize_block regrown chunk_for
resize-Serves p block size fresh c sound h k e f =
    let new = chunk_for p.minimum size fresh in
    let fits = chunk_for_sound p.minimum size fresh h k in
    let (above, near) = capacity_for-lt p.minimum size h (omega arith) in
    (
      resize_block (some fresh) p block size c,
      rw e refl,
      elim (Bool-cases (ltb c.capacity size)) [
        | inl x ↦ rw x (
          (
            new,
            found-replace p.chunks block c new f e,
            omega (arith, above, near),
            omega (arith, above),
          ),
          (λ other y z. other-replace p.chunks block other new y z),
          replace_chunk-IsSound p.chunks block new sound fits,
        )
        | inr x ↦
            let enough : size ≤ c.capacity = ground arith in
            let holds = find_chunk_sound p.chunks block c sound e in
            rw x ((c, e, omega (arith, holds), enough), (λ other y z. refl), sound)
      ],
    )

-- `allocator_free` of a block leaves every other block its chunk.
pub free-others :
    (p : Pool) (block other : ℕ) (c : Chunk)
    → find_chunk p.chunks block ≡ ok c
    → (block == other) ≡ false
    → (p' : Pool) × (allocator_free (some p) block ≡ ok (some p'))
      × (find_chunk p'.chunks other ≡ find_chunk p.chunks other)
unfolding allocator_free
free-others p block other c e h = (
  record p { chunks = remove_chunk p.chunks block },
  rw e refl,
  other-remove p.chunks block other h,
)
