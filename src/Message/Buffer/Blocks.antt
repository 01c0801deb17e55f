-- ===== src/Message/Buffer/Blocks.antt =====
-- Copying and moving inside a block, by what stands before and behind.
use protobluff.Common.{
  ℕ, ◌+◌, ◌≤◌, ◌≡◌, refl, sym, ap, ap₂, ◌∙◌, arith, List, ◌++◌, length, take, drop, length-take,
  length-drop, length-append, take-append, drop-append_length, take-append_self, take-append-drop,
}
use mathlib.Core.Path.{subst}
use mathlib.Core.List.{append_assoc}
use protobluff.Core.Types.{ok}
use protobluff.Core.Memory.{load, store}
use protobluff.Message.Buffer.{memmove}

pub loaded :
    (block : List ℕ) (from n : ℕ)
    → from + n ≤ length block
    → load block from n ≡ ok (take n (drop from block))
unfolding load
loaded block from n h = ground arith

stored :
    (block : List ℕ) (to : ℕ) (d : List ℕ)
    → to + length d ≤ length block
    → store block to d ≡ ok (take to block ++ (d ++ drop (to + length d) block))
unfolding store
stored block to d h = ground arith

joined :
    (block g z r d : List ℕ) (start : ℕ)
    → block ≡ g ++ (z ++ r)
    → start + length d ≡ length g
    → take start block ++ (d ++ drop (start + length d) block) ≡ (take start g ++ (d ++ z)) ++ r
joined block g z r d start e h =
    let kept : take start block ≡ take start g =
      ap (take start) e ∙ take-append start g (z ++ r) (omega arith) in
    let rest : drop (start + length d) block ≡ z ++ r =
      ap₂ drop h e
      ∙ (ap (λ k. drop k (g ++ (z ++ r))) (omega arith) ∙ drop-append_length 0 g (z ++ r)) in
    rw (kept, rest, append_assoc (take start g) (d ++ z) r, append_assoc d z r) refl

-- A store over the end of `g`, of which `start` bytes stay: what follows `g` is not touched.
pub placed :
    (block g z d : List ℕ) (start n : ℕ)
    → take n block ≡ g ++ z
    → n ≤ length block
    → start + length d ≡ length g
    → (block' : List ℕ) × (store block start d ≡ ok block')
      × (take n block' ≡ take start g ++ (d ++ z))
      × (length block' ≡ length block)
placed block g z d start n e l h =
    let r = drop n block in
    let size : length (g ++ z) ≡ n = omega (arith, ap length (sym e), length-take n block) in
    let lz = length-append g z in
    let front = take start g ++ (d ++ z) in
    let long : length front ≡ n =
      omega
        (arith, length-append (take start g) (d ++ z), length-append d z, length-take start g) in
    let split : block ≡ g ++ (z ++ r) =
      sym (take-append-drop n block) ∙ (ap (λ x. x ++ r) e ∙ append_assoc g z r) in
    (
      front ++ r,
      stored block start d (omega arith) ∙ ap ok (joined block g z r d start split h),
      subst (λ k. take k (front ++ r) ≡ front) long (take-append_self front r),
      omega (arith, length-append front r, length-drop n block),
    )

-- Moving `n` bytes.
pub memmove_lem :
    (block : List ℕ) (to from n : ℕ)
    → to + n ≤ length block
    → from + n ≤ length block
    → (block' : List ℕ) × (memmove block to from n ≡ ok block')
      × (take (to + n) block' ≡ take to block ++ take n (drop from block))
      × (length block' ≡ length block)
unfolding memmove
memmove_lem block to from n h k =
    let raw = take n (drop from block) in
    let long : length raw ≡ n =
      omega (arith, length-take n (drop from block), length-drop from block) in
    let front = take to block ++ raw in
    let rest = drop (to + length raw) block in
    let size : length front ≡ to + n =
      omega (arith, length-append (take to block) raw, length-take to block) in
    (
      take to block ++ (raw ++ rest),
      rw (loaded block from n k) (stored block to raw (omega arith)),
      rw (sym (append_assoc (take to block) raw rest), sym size) (take-append_self front rest),
      omega (
        arith,
        length-append (take to block) (raw ++ rest),
        length-append raw rest,
        length-take to block,
        length-drop (to + length raw) block,
      ),
    )
