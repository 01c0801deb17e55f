-- ===== src/Message/Buffer/Splice.antt =====
-- `pb_buffer_write` replaces a range of the contents.
use protobluff.Common.{
  ℕ, ◌+◌, ◌-◌, ◌^◌, ◌≤◌, ◌<◌, ◌≡◌, refl, sym, ap, ◌∙◌, arith, true, false, Bool-cases, Option-cases,
  ◌||◌, Option, none, some, List, ◌++◌, inl, inr, ltb, ◌==◌, length, take, drop, min, add_size,
  sub_size, length-take, take-append-drop, take-take, take-drop, drop_all,
}
use mathlib.Core.Path.{subst}
use mathlib.Core.List.{append-nil}
use protobluff.Core.Types.{no_error, alloc, Outcome, ok}
use protobluff.Core.Memory.{Allocator, IsAllocator}
use protobluff.Core.Buffer.{Buffer, is_zero_copy}
use protobluff.Core.Buffer.Laws.{contents, IsValid, valid_lem}
use protobluff.Message.Buffer.Blocks.{placed, loaded, memmove_lem}
use protobluff.Message.Buffer.{
  Edited, memmove, shifted, copied, write_grown, shrunk, write_shrunk, write_range, write,
}

-- Moving what lies behind `end` to `to`, if anything does.
pub shifted_lem :
    (b : Buffer) (end delta to : ℕ) (block : List ℕ)
    → b.size < 2 ^ 64
    → end ≤ b.size
    → add_size end delta ≡ to
    → b.size ≤ length block
    → to + (b.size - end) ≤ length block
    → (block' : List ℕ) × (shifted b end delta block ≡ ok block')
      × (take (to + (b.size - end)) block' ≡ take to block ++ drop end (take b.size block))
      × (length block' ≡ length block)
unfolding shifted
shifted_lem b end delta to block s h e k l = elim (Bool-cases (ltb end b.size)) [
  | inl x ↦
      let same : shifted b end delta block ≡ memmove block to end (b.size - end) =
        rw (x, e) (ap (λ n. memmove block to end n) (omega arith)) in
      let (block', moved, front, long) = memmove_lem block to end (b.size - end) l (omega arith) in
      (
        block',
        same ∙ moved,
        front
            ∙ ap (λ t. take to block ++ t)
                (take-drop (b.size - end) end block
                  ∙ ap (λ n. drop end (take n block)) (omega arith)),
        long,
      )
  | inr x ↦
      let same : b.size ≡ end = ground (arith, x) in
      (
        block,
        rw x refl,
        ap (λ n. take n block) (omega arith)
            ∙ (sym (append-nil (take to block))
                ∙ ap (λ t. take to block ++ t)
                    (sym (
                      drop_all end (take b.size block) (omega (arith, length-take b.size block))))),
        refl,
      )
]

-- What `pb_buffer_write` comes to: the range is replaced by `d`; or there is no memory, and the buffer is
-- the same.
abbrev pub Splices : {M : Type 0} → Buffer → ℕ → ℕ → List ℕ → Outcome (Edited M) → Type 0
Splices b start end d (ok (no_error, b', m)) =
    (contents b' ≡ take start (contents b) ++ (d ++ drop end (contents b)))
    × (b'.size ≡ start + (length d + (b.size - end)))
    × (b'.size ≤ length b'.block)
    × (b'.allocator ≡ b.allocator)
Splices b start end d (ok (alloc, b', m)) = b' ≡ b
Splices b start end d _ = ⊥

-- The end of the call: the bytes are copied over the end of `g`.
copied-Splices :
    {M : Type 0} (b c : Buffer) (start end : ℕ) (bytes : List ℕ) (size : ℕ) (m : M) (g : List ℕ)
    → end ≤ b.size
    → size ≤ length bytes
    → take c.size c.block ≡ g ++ drop end (contents b)
    → c.size ≤ length c.block
    → start + size ≡ length g
    → take start g ≡ take start (contents b)
    → c.size ≡ start + (size + (b.size - end))
    → c.allocator ≡ b.allocator
    → Splices b start end (take size bytes) (copied start bytes size m c)
unfolding copied
copied-Splices b c start end bytes size m g h k e l f t n al =
    let long : length (take size bytes) ≡ size = omega (arith, length-take size bytes) in
    let (block', into, front, whole) =
      placed c.block g (drop end (contents b)) (take size bytes) start c.size e l (omega arith) in
    rw (loaded bytes 0 size (omega arith), into)
      (
        front ∙ ap (λ x. x ++ (take size bytes ++ drop end (contents b))) t,
        omega arith,
        omega arith,
        al,
      )

grown_head :
    (new old : List ℕ) (start n to : ℕ)
    → take n new ≡ take n old
    → start ≤ n
    → start ≤ to
    → take start (take to new) ≡ take start (take n old)
grown_head new old start n to e h k =
    take-take start to new k ∙ (sym (take-take start n new h) ∙ ap (take start) e)

-- The sign of `delta`.
grows :
    (start end size delta : ℕ)
    → start ≤ end
    → end + size < 2 ^ 63
    → sub_size size (sub_size end start) ≡ delta
    → ltb delta (2 ^ 63) ≡ true
    → delta + (end - start) ≡ size
grows start end size delta h k e x = ground arith

shrinks :
    (start end size delta : ℕ)
    → start ≤ end
    → end + size < 2 ^ 63
    → sub_size size (sub_size end start) ≡ delta
    → ltb delta (2 ^ 63) ≡ false
    → (size + (end - start - size) ≡ end - start)
      × (delta + (end - start - size) ≡ 2 ^ 64)
      × (0 < end - start - size)
shrinks start end size delta h k e x = ground arith

kept_prefix :
    (n k : ℕ) (new old : List ℕ) → n ≤ k → take k new ≡ take k old → take n new ≡ take n old
kept_prefix n k new old h e = sym (take-take n k new h) ∙ (ap (take n) e ∙ take-take n k old h)

split_contents :
    (block : List ℕ) (n end : ℕ)
    → end ≤ n
    → take n block ≡ take end block ++ drop end (take n block)
split_contents block n end h =
    sym (take-append-drop end (take n block))
    ∙ ap (λ t. t ++ drop end (take n block)) (take-take end n block h)

write_grown-Splices :
    {M : Type 0} (start end delta : ℕ) (bytes : List ℕ) (size : ℕ) (b : Buffer)
    (r : Option (List ℕ) × M)
    → IsValid b
    → start ≤ end
    → end ≤ b.size
    → size ≤ length bytes
    → b.size + size < 2 ^ 63
    → delta + (end - start) ≡ size
    → ((new : List ℕ) → r.0 ≡ some new → length new ≡ b.size + delta)
    → ((new : List ℕ) → r.0 ≡ some new → take b.size new ≡ take b.size b.block)
    → Splices b start end (take size bytes) (write_grown start end delta bytes size b r)
unfolding write_grown
write_grown-Splices start end delta bytes size b (none, m) v h k l f e long keeps = refl
write_grown-Splices start end delta bytes size b (some new, m) v h k l f e long keeps =
    let (block, moved, front, whole) =
      shifted_lem b end delta (end + delta) new (omega arith) k (omega arith)
        (omega (arith, long new refl)) (omega (arith, long new refl)) in
    let size' : add_size b.size delta ≡ (end + delta) + (b.size - end) = omega arith in
    rw moved (
      copied-Splices b (record b { block = block; size = add_size b.size delta }) start end bytes
        size m (take (end + delta) new) k l
        (ap (λ n. take n block) size'
          ∙ (front ∙ ap (λ t. take (end + delta) new ++ drop end t) (keeps new refl)))
        (omega (arith, whole, long new refl))
        (omega (arith, length-take (end + delta) new, long new refl))
        (grown_head new b.block start b.size (end + delta) (keeps new refl) (omega arith)
          (omega arith))
        (omega arith) refl)

module _ {M : Type 0} (a : Allocator M) (laws : IsAllocator a) where
  -- Resizing to less keeps the bytes that are needed, whether or not it succeeds.
  pub shrunk_lem :
      (m : M) (moved : List ℕ) (n : ℕ)
      → n ≤ length moved
      → (n ≤ length (shrunk moved (a.resize m moved n).0))
        × (take n (shrunk moved (a.resize m moved n).0) ≡ take n moved)
  unfolding shrunk
  shrunk_lem m moved n h = elim (Option-cases (a.resize m moved n).0) [
    | inl e ↦ rw e (h, refl)
    | inr (new, e) ↦
        let size = laws.resize_size m moved n new e in
        let small : min n (length moved) ≡ n = omega arith in
        let keeps = laws.resize_keeps m moved n new e in
        rw e (omega (arith, size), subst (λ k. take k new ≡ take k moved) small keeps)
  ]

  write_shrunk-Splices :
      (m : M) (start end delta back : ℕ) (bytes : List ℕ) (size : ℕ) (b : Buffer)
      → IsValid b
      → start ≤ end
      → end ≤ b.size
      → size ≤ length bytes
      → b.size + size < 2 ^ 63
      → size + back ≡ end - start
      → delta + back ≡ 2 ^ 64
      → 0 < back
      → Splices b start end (take size bytes) (write_shrunk a m start end delta bytes size b)
  unfolding write_shrunk
  write_shrunk-Splices m start end delta back bytes size b v h k l f e g i =
      let to = end - back in
      let (moved, eq, front, whole) =
        shifted_lem b end delta to b.block (omega arith) k (omega arith) v.holds (omega arith) in
      let size' : add_size b.size delta ≡ to + (b.size - end) = omega arith in
      let (fits, kept) = shrunk_lem m moved (to + (b.size - end)) (omega arith) in
      rw (eq, size')
        (copied-Splices b
          (record b {
            block = shrunk moved (a.resize m moved (to + (b.size - end))).0;
            size = to + (b.size - end);
          })
          start end bytes size (a.resize m moved (to + (b.size - end))).1 (take to b.block) k l
          (kept ∙ front) fits (omega (arith, length-take to b.block))
          (take-take start to b.block (omega arith)
            ∙ sym (take-take start b.size b.block (omega arith)))
          (omega arith) refl)

  range-Splices :
      (m : M) (b : Buffer) (start end : ℕ) (bytes : List ℕ) (size delta : ℕ)
      → IsValid b
      → start ≤ end
      → end ≤ b.size
      → size ≤ length bytes
      → b.size + size < 2 ^ 63
      → sub_size size (sub_size end start) ≡ delta
      → Splices b start end (take size bytes) (write_range a m start end delta bytes size b)
  unfolding write_range
  range-Splices m b start end bytes size delta v h k l f e = elim (Bool-cases (delta == 0)) [
    | inl x ↦
        let same : start + size ≡ end = ground (arith, x) in
        rw x (
          copied-Splices b b start end bytes size m (take end b.block) k l
            (split_contents b.block b.size end k) v.holds
            (omega (arith, length-take end b.block, v.holds))
            (take-take start end b.block h ∙ sym (take-take start b.size b.block (omega arith)))
            (omega arith) refl)
    | inr x ↦ rw x (elim (Bool-cases (is_zero_copy b.allocator)) [
      | inl y ↦ rw y refl
      | inr y ↦ rw y (elim (Bool-cases (ltb delta (2 ^ 63))) [
        | inl z ↦
            let g = grows start end size delta h (omega arith) e z in
            rw z (
              write_grown-Splices start end delta bytes size b
                (a.resize m b.block (add_size b.size delta)) v h k l f g
                (λ new r.
                  laws.resize_size m b.block (add_size b.size delta) new r ∙ omega (arith, g))
                (λ new r.
                  kept_prefix b.size (min (add_size b.size delta) (length b.block)) new b.block
                    (omega (arith, g, v.holds))
                    (laws.resize_keeps m b.block (add_size b.size delta) new r)))
        | inr z ↦
            let (s₁, s₂, s₃) = shrinks start end size delta h (omega arith) e z in
            rw z (
              write_shrunk-Splices m start end delta (end - start - size) bytes size b v h k l f s₁
                s₂ s₃)
      ])
    ])
  ]

  -- `pb_buffer_write` on a valid buffer and a range in it, with `size` bytes of `bytes`: it answers
  -- PB_ERROR_NONE, and the contents are the old ones with exactly the range replaced by these bytes,
  -- whether the buffer grows, shrinks or keeps its size; or it answers PB_ERROR_ALLOC, and the buffer is
  -- the same. It never reads or writes behind a block.
  pub write-Splices :
      (m : M) (b : Buffer) (start end : ℕ) (bytes : List ℕ) (size : ℕ)
      → IsValid b
      → start ≤ end
      → end ≤ b.size
      → size ≤ length bytes
      → b.size + size < 2 ^ 63
      → Splices b start end (take size bytes) (write a m b start end bytes size)
  unfolding write write_range
  write-Splices m b start end bytes size v h k l f =
      let delta = sub_size size (sub_size end start) in
      let inside : (ltb end start || ltb b.size end) ≡ false = ground arith in
      let same : write a m b start end bytes size ≡ write_range a m start end delta bytes size b =
        rw (valid_lem b v, inside) refl in
      subst (Splices b start end (take size bytes)) (sym same)
        (range-Splices m b start end bytes size delta v h k l f refl)
