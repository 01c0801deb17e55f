-- ===== src/Message/Buffer/Clear.antt =====
-- `pb_buffer_clear` removes a range of the contents.
use protobluff.Common.{
  ℕ, ◌+◌, ◌-◌, ◌^◌, ◌≤◌, ◌<◌, ◌≡◌, refl, sym, ap, ◌∙◌, arith, true, false, Bool-cases, ◌||◌, List,
  [], ◌++◌, inl, inr, ltb, ◌==◌, length, take, drop, add_size, sub_size, take-take,
  take-append-drop, drop_all,
}
use mathlib.Core.Path.{subst}
use protobluff.Core.Types.{no_error, alloc, Outcome, ok}
use protobluff.Core.Memory.{Allocator, IsAllocator}
use protobluff.Core.Buffer.{Buffer, is_zero_copy}
use protobluff.Core.Buffer.Laws.{contents, IsValid, length-contents, valid_lem}
use protobluff.Message.Buffer.{Edited, clear_part, clear_range, clear}
use protobluff.Message.Buffer.Splice.{shifted_lem, shrunk_lem}

-- What `pb_buffer_clear` comes to: the range is removed, and the buffer is still in its block; or the
-- buffer is zero-copy, and the same.
abbrev pub Removes : {M : Type 0} → Buffer → ℕ → ℕ → Outcome (Edited M) → Type 0
Removes b start end (ok (no_error, b', m)) =
    (contents b' ≡ take start (contents b) ++ drop end (contents b))
    × (b'.size ≡ start + (b.size - end))
    × (b'.size ≤ length b'.block)
    × (b'.allocator ≡ b.allocator)
Removes b start end (ok (alloc, b', m)) = (is_zero_copy b.allocator ≡ true) × (b' ≡ b)
Removes b start end _ = ⊥

nothing_left :
    (c : List ℕ) (start end : ℕ) → start ≡ 0 → end ≡ length c → [] ≡ take start c ++ drop end c
nothing_left c start end s e = rw s (sym (drop_all end c e))

module _ {M : Type 0} (a : Allocator M) (laws : IsAllocator a) where
  clear_part-Removes :
      (m : M) (b : Buffer) (start end delta : ℕ)
      → IsValid b
      → start ≤ end
      → end ≤ b.size
      → add_size end delta ≡ start
      → delta < 2 ^ 64
      → Removes b start end (clear_part a m end delta b)
  unfolding clear_part
  clear_part-Removes m b start end delta v h k e f =
      let (moved, eq, front, whole) =
        shifted_lem b end delta start b.block v.small k e v.holds (omega arith) in
      let size' : add_size b.size delta ≡ start + (b.size - end) = omega arith in
      let (fits, kept) = shrunk_lem a laws m moved (start + (b.size - end)) (omega arith) in
      rw (eq, size')
        (
          kept
              ∙ (front
                  ∙ ap (λ t. t ++ drop end (contents b))
                      (sym (take-take start b.size b.block (omega arith)))),
          refl,
          fits,
          refl,
        )

  range-Removes :
      (m : M) (b : Buffer) (start end delta : ℕ)
      → IsValid b
      → start ≤ end
      → end ≤ b.size
      → b.size < 2 ^ 63
      → sub_size start end ≡ delta
      → Removes b start end (clear_range a m end delta b)
  unfolding clear_range
  range-Removes m b start end delta v h k f e = elim (Bool-cases (delta == 0)) [
    | inl x ↦
        let same : start ≡ end = ground (arith, x) in
        rw x (
          sym (take-append-drop end (contents b))
              ∙ ap (λ t. take t (contents b) ++ drop end (contents b)) (sym same),
          omega arith,
          v.holds,
          refl,
        )
    | inr x ↦ rw x (elim (Bool-cases (is_zero_copy b.allocator)) [
      | inl y ↦ rw y (y, refl)
      | inr y ↦ rw y (elim (Bool-cases (add_size b.size delta == 0)) [
        | inl z ↦
            let all : (start ≡ 0) × (end ≡ b.size) = ground (arith, z, x) in
            rw z (
              nothing_left (contents b) start end all.0 (all.1 ∙ sym (length-contents b v)),
              omega (arith, all.0, all.1),
              omega arith,
              refl,
            )
        | inr z ↦ rw z (clear_part-Removes m b start end delta v h k (omega arith) (omega arith))
      ])
    ])
  ]

  -- `pb_buffer_clear` on a valid buffer and a range in it: it answers PB_ERROR_NONE, and the contents are the
  -- old ones without the range, whether a part is kept, all of it is freed or the range is empty; or it
  -- answers PB_ERROR_ALLOC, the buffer is zero-copy, and it is the same. It never fails for want of memory,
  -- and never reads or writes behind a block.
  pub clear-Removes :
      (m : M) (b : Buffer) (start end : ℕ)
      → IsValid b
      → start ≤ end
      → end ≤ b.size
      → b.size < 2 ^ 63
      → Removes b start end (clear a m b start end)
  unfolding clear
  clear-Removes m b start end v h k f =
      let delta = sub_size start end in
      let inside : (ltb end start || ltb b.size end) ≡ false = ground arith in
      let same : clear a m b start end ≡ clear_range a m end delta b =
        rw (valid_lem b v, inside) refl in
      subst (Removes b start end) (sym same) (range-Removes m b start end delta v h k f refl)
