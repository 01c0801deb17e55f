-- ===== src/Message/Part/Own.antt =====
-- `adjust_prefix` of src/message/part.c: the length prefix of a field of the outermost message.
use protobluff.Common.{
  ℕ, ◌+◌, ◌-◌, ◌^◌, ◌≤◌, ◌<◌, ◌≡◌, refl, sym, ap, ◌∙◌, arith, List, [], ◌∷◌, ◌++◌, ◌==◌,
  if◌then◌else◌, Bool-cases, inl, inr, length, take, drop, u32, add_size, sub_size, take_all,
  length-append,
}
use mathlib.Core.Path.{subst}
use protobluff.Core.Types.{
  Error, no_error, alloc, invalid, varint, offset, absent, eom, Outcome, ok, err, fault,
}
use protobluff.Core.Memory.{Allocator, IsAllocator}
use protobluff.Core.Varint.{pack_uint32}
use protobluff.Core.Varint.Bounds.{pack_uint32-Fits}
use protobluff.Core.Buffer.Laws.{contents, IsValid}
use protobluff.Message.Journal
use protobluff.Message.Journal.{Entry, Journal, Journaled}
use protobluff.Message.Journal.Rewrite.{Rewrites, write-Rewrites}
use protobluff.Message.Run.{Run, done, State, pure, and_then, journaled}
use protobluff.Message.Part.{Part, part_size}
use protobluff.Message.Part.Prefix.{moved, prefixed, adjust_prefix}
use protobluff.Message.Part.Root.{IsRoot}
use protobluff.Message.Part.Shape.{IsField, IsField-IsRoot}

-- The length prefix of a part.
abbrev pub prefix_of : Part → List ℕ
prefix_of p = pack_uint32 (u32 (part_size p.offset))

-- The bytes from `at` to the part are its length prefix now, and the part begins behind it; or there is no
-- memory, and the buffer and the entries are as they were.
abbrev pub Prefixed :
    {M : Type 0} → ℕ → Part → Journal → Run ((Error × Part × ℕ) × State M) → Type 0
Prefixed at p j (done ((no_error, p', delta), s)) =
    (contents s.journal.buffer
      ≡ take at (contents j.buffer) ++ (prefix_of p ++ drop p.offset.start (contents j.buffer)))
    × (p'.offset.start ≡ at + length (prefix_of p))
    × (p'.offset.end ≡ p'.offset.start + (p.offset.end - p.offset.start))
    × (p'.version ≡ length s.journal.entries)
    × IsRoot p'
    × (s.journal.buffer.size ≤ length s.journal.buffer.block)
    × (s.journal.buffer.size ≡ at + (length (prefix_of p) + (j.buffer.size - p.offset.start)))
    × (add_size p'.offset.start p'.offset.diff_length ≡ at)
Prefixed at p j (done ((alloc, p', delta), s)) =
    (s.journal.buffer ≡ j.buffer) × (s.journal.entries ≡ j.entries)
Prefixed at p j _ = ⊥

module _ (p : Part) (tag_at at size adjust : ℕ) (small : size + 5 < 2 ^ 63)
    (field : IsField 0 tag_at at size p.offset) where
  moved-IsRoot :
      (n : ℕ) → n ≤ 5 → adjust ≡ add_size n p.offset.diff_length → IsRoot (moved p adjust)
  unfolding moved
  moved-IsRoot n few e = record {
    at_root =
        omega (arith, field.to_origin, field.to_length, field.prefix, field.order, field.inside);
    has_tag =
        let behind : sub_size p.offset.diff_tag adjust ≡ 2 ^ 64 + tag_at - (at + n) = omega (
          arith, field.to_tag, field.to_length, field.key, field.prefix, field.order, field.inside,
        ) in
        let some_bytes : 0 < sub_size p.offset.diff_tag adjust =
          omega (arith, field.key, field.prefix, field.order, field.inside) in
        ground arith;
  }

-- How many entries there are behind a change by `d`.
pub recorded :
    (es es' : List Entry) (e : Entry) (d : ℕ)
    → es' ≡ (if d == 0 then es else es ++ (e ∷ []))
    → length es' ≡ (if d == 0 then length es else length es + 1)
recorded es es' e d h = elim (Bool-cases (d == 0)) [
  | inl z ↦ rw z (ap length (h ∙ rw z refl))
  | inr z ↦ rw z (ap length (h ∙ rw z refl) ∙ length-append es (e ∷ []))
]

-- `adjust_prefix` behind its write.
prefixed-Prefixed :
    {M : Type 0} (p : Part) (tag_at at delta : ℕ) (j : Journal) (o : Outcome (Journaled M))
    → j.buffer.size + 5 < 2 ^ 63
    → length j.entries + 1 < 2 ^ 63
    → IsField 0 tag_at at j.buffer.size p.offset
    → p.version ≡ length j.entries
    → Rewrites j
        (record {
          origin = at;
          offset = p.offset.start;
          delta = sub_size (length (prefix_of p)) (sub_size p.offset.start at);
        })
        at
        (prefix_of p)
        o
    → Prefixed at p j (
        and_then
          (journaled o)
          (λ e. pure (prefixed e p (add_size (length (prefix_of p)) p.offset.diff_length) delta)))
unfolding prefixed moved
prefixed-Prefixed p tag_at at delta j (ok (no_error, j', m)) small few f v ((c, s, h, al), n) =
    let fits = pack_uint32-Fits (u32 (part_size p.offset)) in
    let adjust = add_size (length (prefix_of p)) p.offset.diff_length in
    let same : sub_size (length (prefix_of p)) (sub_size p.offset.start at) ≡ adjust =
      omega (arith, f.to_length, f.prefix, f.order, f.inside) in
    let count : length j'.entries
        ≡ (if adjust == 0 then length j.entries else length j.entries + 1) =
      subst (λ d. length j'.entries ≡ (if d == 0 then length j.entries else length j.entries + 1))
        same (recorded j.entries j'.entries _ _ n) in
    elim (Bool-cases (adjust == 0)) [
      | inl z ↦
          let zero_adjust : adjust ≡ 0 = ground arith in
          let count' : length j'.entries ≡ length j.entries = count ∙ rw z refl in
          rw z (
            c,
            omega (arith, f.to_length, f.prefix, f.order, f.inside, fits.1),
            omega (arith, f.order),
            v ∙ sym count',
            IsField-IsRoot p tag_at at j.buffer.size (omega arith) f,
            h,
            s,
            omega (arith, f.to_length, f.prefix, f.order, f.inside),
          )
      | inr z ↦
          let count' : length j'.entries ≡ length j.entries + 1 = count ∙ rw z refl in
          rw z (
            c,
            omega (arith, f.to_length, f.prefix, f.order, f.inside, fits.1),
            omega (arith, f.to_length, f.prefix, f.order, f.inside, fits.1),
            omega arith,
            moved-IsRoot p tag_at at j.buffer.size adjust small f (length (prefix_of p)) fits.1
                refl,
            h,
            s,
            omega (arith, f.to_length, f.prefix, f.order, f.inside),
          )
    ]
prefixed-Prefixed p tag_at at delta j (ok (alloc, j', m)) small few f v h = h
prefixed-Prefixed p tag_at at delta j (ok (invalid, j', m)) small few f v h = elim h [ ]
prefixed-Prefixed p tag_at at delta j (ok (varint, j', m)) small few f v h = elim h [ ]
prefixed-Prefixed p tag_at at delta j (ok (offset, j', m)) small few f v h = elim h [ ]
prefixed-Prefixed p tag_at at delta j (ok (absent, j', m)) small few f v h = elim h [ ]
prefixed-Prefixed p tag_at at delta j (ok (eom, j', m)) small few f v h = elim h [ ]
prefixed-Prefixed p tag_at at delta j (err x) small few f v h = elim h [ ]
prefixed-Prefixed p tag_at at delta j fault small few f v h = elim h [ ]

module _ {M : Type 0} (a : Allocator M) (laws : IsAllocator a) where
  -- `adjust_prefix` on a field of the outermost message, if it has a length prefix.
  pub adjust_prefix-Prefixed :
      (p : Part) (tag_at at delta : ℕ) (s : State M)
      → IsValid s.journal.buffer
      → s.journal.buffer.size + 5 < 2 ^ 63
      → length s.journal.entries + 1 < 2 ^ 63
      → IsField 0 tag_at at s.journal.buffer.size p.offset
      → p.version ≡ length s.journal.entries
      → Prefixed at p s.journal (adjust_prefix a p delta s)
  unfolding adjust_prefix
  adjust_prefix-Prefixed p tag_at at delta s v small few f w =
      let fits = pack_uint32-Fits (u32 (part_size p.offset)) in
      let at_length : add_size p.offset.start p.offset.diff_length ≡ at =
        omega (arith, f.to_length, f.prefix, f.order, f.inside) in
      rw at_length (
        prefixed-Prefixed p tag_at at delta s.journal _ small few f w (
          subst
            (λ d.
              Rewrites s.journal
                (record {
                  origin = at;
                  offset = p.offset.start;
                  delta = sub_size (length (prefix_of p)) (sub_size p.offset.start at);
                })
                at d
                (Journal.write a s.memory s.journal at at p.offset.start (prefix_of p)
                  (length (prefix_of p))))
            (take_all (length (prefix_of p)) (prefix_of p) refl)
            (write-Rewrites a laws s.memory s.journal at at p.offset.start (prefix_of p)
              (length (prefix_of p)) v f.prefix (omega (arith, f.order, f.inside)) (omega arith)
              (omega (arith, fits.1)))))
