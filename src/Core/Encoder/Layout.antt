-- ===== src/Core/Encoder/Layout.antt =====
-- Growing a buffer and filling the new room, the step that every encoding function ends in.
use protobluff.Common.{
  ℕ, ◌+◌, ◌^◌, ◌≤◌, ◌<◌, ◌≡◌, refl, sym, ap, ◌∙◌, arith, Option, none, some, List, ◌++◌, length,
  take, drop, length-append, length-drop, take-append_self,
}
use mathlib.Core.Path.{subst}
use mathlib.Core.List.{append_assoc}
use protobluff.Core.Types.{no_error, alloc, Outcome, ok, ◌>>=◌}
use protobluff.Core.Memory.{Allocator, IsAllocator, store}
use protobluff.Core.Buffer.{Buffer, AllocatorRef, grow}
use protobluff.Core.Buffer.Laws.{
  contents, IsValid, Grows, grow-Grows, grown_block, store-room, length-contents,
}
use protobluff.Core.Encoder.{Done, append, appended}

-- `b'` is `b` with `p` behind its contents.
pub record Extends (b : Buffer) (p : List ℕ) (b' : Buffer) : Type 0 where
  pub written : contents b' ≡ contents b ++ p
  pub valid : IsValid b'
  pub longer : b'.size ≡ b.size + length p
  pub same : b'.allocator ≡ b.allocator

pub Extends-trans :
    (b b' b'' : Buffer) (p q : List ℕ) → Extends b p b' → Extends b' q b'' → Extends b (p ++ q) b''
Extends-trans b b' b'' p q x y = record {
  written = y.written ∙ ap (λ c. c ++ q) x.written ∙ append_assoc (contents b) p q;
  valid = y.valid;
  longer = omega (arith, x.longer, y.longer, length-append p q);
  same = y.same ∙ x.same;
}

-- The call wrote `p` behind the contents; or it reports that there is no memory, which `R` holds of,
-- and left the buffer as it was.
abbrev pub Appends :
    {M : Type 0} → (AllocatorRef → Type 0) → Buffer → List ℕ → Outcome (Done M) → Type 0
Appends R b p (ok (no_error, b', m)) = Extends b p b'
Appends R b p (ok (alloc, b', m)) = R b.allocator × (b' ≡ b)
Appends R b p _ = ⊥

store_at :
    (block old room p : List ℕ) (offset : ℕ)
    → block ≡ old ++ room
    → offset ≡ length old
    → length p ≤ length room
    → store block offset p ≡ ok (old ++ (p ++ drop (length p) room))
store_at block old room p offset e at_end h = rw (e, at_end) (store-room old room p h)

take_front :
    (n : ℕ) (old p rest : List ℕ) → n ≡ length (old ++ p) → take n (old ++ (p ++ rest)) ≡ old ++ p
take_front n old p rest e = rw (sym (append_assoc old p rest), e) (take-append_self (old ++ p) rest)

appended-Appends :
    {M : Type 0} (R : AllocatorRef → Type 0) (b : Buffer) (n : ℕ) (p : List ℕ)
    (r : Option ℕ × Buffer × M)
    → IsValid b
    → n ≡ length p
    → b.size + n < 2 ^ 64
    → (r.0 ≡ none → R b.allocator)
    → Grows b n r
    → Appends R b p (appended (ok p) r)
unfolding appended
appended-Appends R b n p (none, b', m) v e h f g = (f refl, g)
appended-Appends R b n p (some offset, b', m) v e h f (at_end, size, old, long, same) =
    let (room, block, l) = grown_block b b' n old long in
    let stored : store b'.block offset p ≡ ok (contents b ++ (p ++ drop (length p) room)) =
      store_at b'.block (contents b) room p offset block (at_end ∙ sym (length-contents b v))
        (omega arith) in
    let full : b'.size ≡ length (contents b ++ p) =
      omega (arith, length-append (contents b) p, length-contents b v) in
    let filled : List ℕ = contents b ++ (p ++ drop (length p) room) in
    let long' : length filled ≡ b.size + n = omega (
      arith,
      length-append (contents b) (p ++ drop (length p) room),
      length-append p (drop (length p) room),
      length-drop (length p) room,
      length-contents b v,
    ) in
    let fine : IsValid (record b' { block = filled }) = record {
      holds = omega arith;
      small = omega arith;
      not_null = λ x. v.not_null (sym same ∙ x);
    } in
    subst (λ o. Appends R b p (o >>= λ block'. ok (no_error, record b' { block = block' }, m)))
      (sym stored)
      (record {
        written = take_front b'.size (contents b) p (drop (length p) room) full;
        valid = fine;
        longer = omega arith;
        same = same;
      })

module _ {M : Type 0} (a : Allocator M) (laws : IsAllocator a) (R : AllocatorRef → Type 0)
    (refusal : (m : M) (b : Buffer) (n : ℕ) → (grow a m b n).0 ≡ none → R b.allocator) where
  -- With the size asked for being that of `p`.
  pub append-Appends :
      (m : M) (b : Buffer) (n : ℕ) (p : List ℕ)
      → IsValid b
      → n ≡ length p
      → b.size + n < 2 ^ 64
      → Appends R b p (append a m b n (ok p))
  unfolding append
  append-Appends m b n p v e h =
      appended-Appends R b n p (grow a m b n) v e h (refusal m b n) (grow-Grows a laws m b n v h)
