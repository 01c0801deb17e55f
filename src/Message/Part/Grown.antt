-- ===== src/Message/Part/Grown.antt =====
-- What `pb_part_write` of src/message/part.c comes to, and its length prefix on a field of the outermost message.
use protobluff.Common.{
  ℕ, ◌+◌, ◌-◌, ◌^◌, ◌≤◌, ◌<◌, ◌≡◌, refl, sym, ap, ◌∙◌, arith, Bool, true, false, ◌⊎◌, List, ◌++◌,
  ◌==◌, ◌||◌, if◌then◌else◌, Bool-cases, inl, inr, length, take, drop, u32, add_size, sub_size,
  length-take, length-append, take-append, take-take, drop-append_length,
}
use mathlib.Core.List.{append_assoc}
use protobluff.Core.Types.{Error, no_error, alloc, invalid, varint, offset, absent, eom}
use protobluff.Core.Memory.{Allocator, IsAllocator}
use protobluff.Core.Varint.{pack_uint32}
use protobluff.Core.Varint.Bounds.{pack_uint32-Fits}
use protobluff.Core.Buffer.Laws.{contents, IsValid}
use protobluff.Message.Journal.{Journal}
use protobluff.Message.Run.{Run, done, fault, out_of_fuel, State, and_then}
use protobluff.Message.Part.{Part, part_size, part_valid, invalidate, realign, part_aligned}
use protobluff.Message.Part.Prefix.{adjust_prefix, adjust}
use protobluff.Message.Part.Root.{Untouched, adjust-Untouched}
use protobluff.Message.Part.Shape.{IsField, IsField-IsRoot}
use protobluff.Message.Part.Own.{prefix_of, Prefixed, adjust_prefix-Prefixed}
use protobluff.Message.Part.Edit.{own_prefix, others, aligned_again, behind_write}

-- What a write comes to, where `front` and `rest` are the contents in front of the new bytes and from them
-- on, `n` is their number, and `p` is the part in `j`.
abbrev pub Written :
    {M : Type 0} (at : ℕ) (front rest : List ℕ)
    → ℕ
    → Part
    → Journal
    → Run ((Error × Part) × State M)
    → Type 0
Written at front rest n p j (done ((no_error, p'), s)) =
    (contents s.journal.buffer ≡ front ++ rest)
    × (p'.offset.start ≡ length front)
    × (p'.offset.end ≡ length front + n)
    × (add_size p'.offset.start p'.offset.diff_length ≡ at)
    × (p'.version ≡ length s.journal.entries)
    × (s.journal.buffer.size ≤ length s.journal.buffer.block)
Written at front rest n p j (done ((alloc, p'), s)) =
    ((p' ≡ p) × (s.journal.buffer ≡ j.buffer) × (s.journal.entries ≡ j.entries))
    ⊎ (contents s.journal.buffer ≡ take p.offset.start (contents j.buffer) ++ rest)
Written at front rest n p j (done ((_, p'), s)) =
    (part_valid p' ≡ false) × (contents s.journal.buffer ≡ front ++ rest)
Written at front rest n p j fault = Unit
Written at front rest n p j out_of_fuel = ⊥

invalidate-not_valid : (p : Part) → part_valid (invalidate p) ≡ false
unfolding part_valid invalidate
invalidate-not_valid p = ground arith

-- The update of the messages around, and the alignment.
finish :
    {M : Type 0} (at : ℕ) (front rest : List ℕ) (n : ℕ) (p : Part) (j : Journal) (p' : Part)
    (s : State M) (r : Run ((Error × Part) × State M))
    → Untouched p' s r
    → contents s.journal.buffer ≡ front ++ rest
    → p'.offset.start ≡ length front
    → p'.offset.end ≡ length front + n
    → add_size p'.offset.start p'.offset.diff_length ≡ at
    → p'.version ≡ length s.journal.entries
    → s.journal.buffer.size ≤ length s.journal.buffer.block
    → Written at front rest n p j (and_then r aligned_again)
unfolding aligned_again realign part_aligned
finish at front rest n p j p' s (done ((e, q), s')) (t, inl (none, same)) c b d l v m =
    let up_to_date : (p'.version == length s.journal.entries) ≡ true = ground arith in
    rw (none, same, t, up_to_date) (c, b, d, l, v, m)
finish at front rest n p j p' s (done ((e, q), s')) (t, inr (inl x, same)) c b d l v m =
    rw (x, same, t) (invalidate-not_valid p', c)
finish at front rest n p j p' s (done ((e, q), s')) (t, inr (inr x, same)) c b d l v m =
    rw (x, same, t) (invalidate-not_valid p', c)
finish at front rest n p j p' s fault u c b d l v m = tt
finish at front rest n p j p' s out_of_fuel u c b d l v m = u

-- The contents in front of the new bytes: the length prefix is new if there is one and the size changes.
abbrev pub front_of : Part → ℕ → ℕ → List ℕ → List ℕ
front_of p at n c =
    if (p.offset.diff_length == 0) || (sub_size n (part_size p.offset) == 0)
    then take p.offset.start c
    else take at c ++ pack_uint32 (u32 n)

-- The contents with the prefix written, from those with the new bytes.
prefix_contents :
    (c front rest : List ℕ) (at start : ℕ)
    → at ≤ start
    → start ≤ length c
    → take at (take start c ++ rest) ++ (front ++ drop start (take start c ++ rest))
      ≡ (take at c ++ front) ++ rest
prefix_contents c front rest at start h k =
    let long : length (take start c) ≡ start = omega (arith, length-take start c) in
    let head : take at (take start c ++ rest) ≡ take at c =
      take-append at (take start c) rest (omega arith) ∙ take-take at start c h in
    let tail : drop start (take start c ++ rest) ≡ rest =
      ap (λ n. drop n (take start c ++ rest)) (omega arith)
      ∙ drop-append_length 0 (take start c) rest in
    rw (head, tail) (sym (append_assoc (take at c) front rest))

module _ {M : Type 0} (a : Allocator M) (laws : IsAllocator a) (p : Part) (tag_at at n : ℕ)
    (rest : List ℕ) (j : Journal) where
  -- Behind the part's own length prefix.
  own-Written :
      (p₁ : Part) (j₁ : Journal) (r : Run ((Error × Part × ℕ) × State M))
      → Prefixed at p₁ j₁ r
      → contents j₁.buffer ≡ take p.offset.start (contents j.buffer) ++ rest
      → p₁.offset.start ≡ p.offset.start
      → at ≤ p.offset.start
      → p.offset.start ≤ length (contents j.buffer)
      → p₁.offset.end ≡ p.offset.start + n
      → prefix_of p₁ ≡ pack_uint32 (u32 n)
      → at + (5 + (j₁.buffer.size - p.offset.start)) < 2 ^ 63
      → Written at
          (take at (contents j.buffer) ++ pack_uint32 (u32 n))
          rest
          n
          p
          j
          (and_then (and_then r (others a)) aligned_again)
  unfolding others aligned_again
  own-Written p₁ j₁ (done ((no_error, p', delta), s)) (c, b, d, v, root, h, z, q) c₁ b₁ o k e x f =
      let fits = pack_uint32-Fits (u32 n) in
      let at_bound : length (take at (contents j.buffer)) ≡ at =
        omega (arith, length-take at (contents j.buffer)) in
      finish at (take at (contents j.buffer) ++ pack_uint32 (u32 n)) rest n p j p' s
        (adjust a p' delta s)
        (adjust-Untouched a p' delta root s h (omega (arith, ap length x, fits.1, z)))
        (c
          ∙ rw (x, b₁, c₁)
              (prefix_contents (contents j.buffer) (pack_uint32 (u32 n)) rest at p.offset.start o
                k))
        (omega (
          arith,
          b,
          ap length x,
          length-append (take at (contents j.buffer)) (pack_uint32 (u32 n)),
        ))
        (omega (
          arith,
          b,
          d,
          ap length x,
          length-append (take at (contents j.buffer)) (pack_uint32 (u32 n)),
        ))
        q v h
  own-Written p₁ j₁ (done ((alloc, p', delta), s)) h c₁ b₁ o k e x f = inr (ap contents h.0 ∙ c₁)
  own-Written p₁ j₁ (done ((invalid, p', delta), s)) h c₁ b₁ o k e x f = elim h [ ]
  own-Written p₁ j₁ (done ((varint, p', delta), s)) h c₁ b₁ o k e x f = elim h [ ]
  own-Written p₁ j₁ (done ((offset, p', delta), s)) h c₁ b₁ o k e x f = elim h [ ]
  own-Written p₁ j₁ (done ((absent, p', delta), s)) h c₁ b₁ o k e x f = elim h [ ]
  own-Written p₁ j₁ (done ((eom, p', delta), s)) h c₁ b₁ o k e x f = elim h [ ]
  own-Written p₁ j₁ fault h c₁ b₁ o k e x f = elim h [ ]
  own-Written p₁ j₁ out_of_fuel h c₁ b₁ o k e x f = elim h [ ]

  -- Behind the write of the new bytes, if it succeeds and the size changes.
  pub grown-Written :
      (s₁ : State M) (delta : ℕ)
      → IsField 0 tag_at at j.buffer.size p.offset
      → j.buffer.size ≤ length j.buffer.block
      → delta ≡ sub_size n (part_size p.offset)
      → (delta == 0) ≡ false
      → j.buffer.size + n + 5 < 2 ^ 63
      → length j.entries + 2 < 2 ^ 63
      → p.version ≡ length j.entries
      → contents s₁.journal.buffer ≡ take p.offset.start (contents j.buffer) ++ rest
      → s₁.journal.buffer.size ≡ p.offset.start + (n + (j.buffer.size - p.offset.end))
      → IsValid s₁.journal.buffer
      → length s₁.journal.entries ≡ length j.entries + 1
      → Written at
          (front_of p at n (contents j.buffer))
          rest
          n
          p
          j
          (behind_write a no_error p delta s₁)
  unfolding behind_write own_prefix others part_size
  grown-Written s₁ delta f block e z room few w c b v l =
      let p₁ : Part = record {
        version = add_size p.version 1;
        offset = record p.offset { end = add_size p.offset.end delta };
      } in
      let e' : add_size p.offset.end delta ≡ p.offset.start + n =
        omega (arith, f.order, f.inside) in
      let f₁ : IsField 0 tag_at at s₁.journal.buffer.size p₁.offset = record {
        after_start = f.after_start;
        key = f.key;
        prefix = f.prefix;
        order = omega arith;
        inside = omega arith;
        to_origin = f.to_origin;
        to_tag = f.to_tag;
        to_length = f.to_length;
      } in
      let w₁ : add_size p.version 1 ≡ length s₁.journal.entries = omega arith in
      let z' : (sub_size n (sub_size p.offset.end p.offset.start) == 0) ≡ false = rw (← e) z in
      let full : length (contents j.buffer) ≡ j.buffer.size =
        omega (arith, length-take j.buffer.size j.buffer.block) in
      elim (Bool-cases (p.offset.diff_length == 0)) [
        | inl y ↦
            rw (z, y)
              (finish at (take p.offset.start (contents j.buffer)) rest n p j p₁ s₁
                (adjust a p₁ delta s₁)
                (adjust-Untouched a p₁ delta
                  (IsField-IsRoot p₁ tag_at at s₁.journal.buffer.size v.small f₁) s₁ v.holds
                  v.small)
                c (omega (arith, length-take p.offset.start (contents j.buffer), f.order, f.inside))
                (omega (arith, length-take p.offset.start (contents j.buffer), f.order, f.inside))
                (omega (arith, f.to_length, f.prefix, f.order, f.inside)) w₁ v.holds)
        | inr y ↦
            rw (z, y, z')
              (own-Written p₁ s₁.journal (adjust_prefix a p₁ delta s₁)
                (adjust_prefix-Prefixed a laws p₁ tag_at at delta s₁ v
                  (omega (arith, f.order, f.inside)) (omega arith) f₁ w₁)
                c refl f.prefix (omega (arith, f.order, f.inside)) e'
                (ap (λ x. pack_uint32 (u32 x)) (omega arith))
                (omega (arith, f.prefix, f.order, f.inside)))
      ]

pub or-true : (b : Bool) → (b || true) ≡ true
or-true true = refl
or-true false = refl
