-- ===== src/Message/Journal/Rewrite.antt =====
-- `pb_journal_write` in src/message/journal.c: the buffer is rewritten, and the change is recorded.
use protobluff.Common.{
  ℕ, ◌+◌, ◌^◌, ◌≤◌, ◌<◌, ◌≡◌, refl, ap, ◌∙◌, true, false, List, [], ◌∷◌, ◌++◌, ◌==◌, if◌then◌else◌,
  Bool-cases, inl, inr, length, take, sub_size,
}
use protobluff.Core.Types.{
  Error, no_error, alloc, invalid, varint, offset, absent, eom, Outcome, ok, err, fault, ◌>>=◌,
}
use protobluff.Core.Memory.{Allocator, IsAllocator}
use protobluff.Core.Buffer.{Buffer}
use protobluff.Core.Buffer.Laws.{IsValid, valid_lem}
use protobluff.Message.Buffer as Edit
use protobluff.Message.Buffer.Splice.{Splices, write-Splices}
use protobluff.Message.Journal.{
  Entry, Journal, Journaled, settled, pop, push, journaled, edit_journal, write,
}
use protobluff.Message.Journal.Laws.{Pushed, push-Pushed, pop_last}

-- The range is replaced, and `e` is recorded if it changes the size; or there is no memory, and the buffer
-- and the entries are as they were.
abbrev pub Rewrites : {M : Type 0} → Journal → Entry → ℕ → List ℕ → Outcome (Journaled M) → Type 0
Rewrites j e start bytes (ok (no_error, j', m)) =
    Splices j.buffer start e.offset bytes (ok (no_error, j'.buffer, m))
    × (j'.entries ≡ (if e.delta == 0 then j.entries else j.entries ++ (e ∷ [])))
Rewrites j e start bytes (ok (alloc, j', m)) = (j'.buffer ≡ j.buffer) × (j'.entries ≡ j.entries)
Rewrites j e start bytes _ = ⊥

module _ {M : Type 0} (j : Journal) (e : Entry) (start : ℕ) (bytes : List ℕ) where
  same_size :
      (o : Outcome (Error × Buffer × M))
      → (e.delta == 0) ≡ true
      → Splices j.buffer start e.offset bytes o
      → Rewrites j e start bytes (o >>= λ r. ok (r.0, record j { buffer = r.1 }, r.2))
  same_size (ok (no_error, b, m)) z h = (h, rw z refl)
  same_size (ok (alloc, b, m)) z h = (h, refl)
  same_size (ok (invalid, b, m)) z h = elim h [ ]
  same_size (ok (varint, b, m)) z h = elim h [ ]
  same_size (ok (offset, b, m)) z h = elim h [ ]
  same_size (ok (absent, b, m)) z h = elim h [ ]
  same_size (ok (eom, b, m)) z h = elim h [ ]
  same_size (err x) z h = elim h [ ]
  same_size fault z h = elim h [ ]

  settled-Rewrites :
      (j' : Journal) (o : Outcome (Error × Buffer × M))
      → (e.delta == 0) ≡ false
      → j'.buffer ≡ j.buffer
      → j'.entries ≡ j.entries ++ (e ∷ [])
      → Splices j'.buffer start e.offset bytes o
      → Rewrites j e start bytes (o >>= λ r. ok (settled j' r))
  unfolding settled pop
  settled-Rewrites j' (ok (no_error, b, m)) z s t h = rw (← s) (h, rw z t)
  settled-Rewrites j' (ok (alloc, b, m)) z s t h = (h ∙ s, rw t (pop_last j.entries e))
  settled-Rewrites j' (ok (invalid, b, m)) z s t h = elim h [ ]
  settled-Rewrites j' (ok (varint, b, m)) z s t h = elim h [ ]
  settled-Rewrites j' (ok (offset, b, m)) z s t h = elim h [ ]
  settled-Rewrites j' (ok (absent, b, m)) z s t h = elim h [ ]
  settled-Rewrites j' (ok (eom, b, m)) z s t h = elim h [ ]
  settled-Rewrites j' (err x) z s t h = elim h [ ]
  settled-Rewrites j' fault z s t h = elim h [ ]

  journaled-Rewrites :
      (a : Allocator M) (edit : M → Buffer → Outcome (Error × Buffer × M)) (r : Journaled M)
      → (e.delta == 0) ≡ false
      → ((m : M) → Splices j.buffer start e.offset bytes (edit m j.buffer))
      → Pushed j e r
      → Rewrites j e start bytes (journaled a edit r)
  unfolding journaled
  journaled-Rewrites a edit (no_error, j', m) z h (s, t) =
      settled-Rewrites j' (edit m j'.buffer) z s t (rw s (h m))
  journaled-Rewrites a edit (alloc, j', m) z h s = (ap (λ x. x.buffer) s, ap (λ x. x.entries) s)
  journaled-Rewrites a edit (invalid, j', m) z h s = elim s [ ]
  journaled-Rewrites a edit (varint, j', m) z h s = elim s [ ]
  journaled-Rewrites a edit (offset, j', m) z h s = elim s [ ]
  journaled-Rewrites a edit (absent, j', m) z h s = elim s [ ]
  journaled-Rewrites a edit (eom, j', m) z h s = elim s [ ]

module _ {M : Type 0} (a : Allocator M) (laws : IsAllocator a) where
  -- `pb_journal_write` on a valid buffer and a range in it: it answers PB_ERROR_NONE, exactly the range is
  -- replaced by the bytes, and one entry with the origin, the end and the change of the size is recorded, or
  -- none if the size is the same; or it answers PB_ERROR_ALLOC with the buffer and the entries as they were.
  pub write-Rewrites :
      (m : M) (j : Journal) (origin start end : ℕ) (bytes : List ℕ) (size : ℕ)
      → IsValid j.buffer
      → start ≤ end
      → end ≤ j.buffer.size
      → size ≤ length bytes
      → j.buffer.size + size < 2 ^ 63
      → Rewrites j
          (record { origin = origin; offset = end; delta = sub_size size (sub_size end start) })
          start
          (take size bytes)
          (write a m j origin start end bytes size)
  unfolding write edit_journal
  write-Rewrites m j origin start end bytes size v h k l f =
      let e : Entry = record {
        origin = origin;
        offset = end;
        delta = sub_size size (sub_size end start);
      } in
      let edit = λ (m' : M) (b : Buffer). Edit.write a m' b start end bytes size in
      let edited = λ (m' : M). write-Splices a laws m' j.buffer start end bytes size v h k l f in
      rw (valid_lem j.buffer v) (elim (Bool-cases (sub_size size (sub_size end start) == 0)) [
        | inl z ↦ rw z (same_size j e start (take size bytes) (edit m j.buffer) z (edited m))
        | inr z ↦ rw z (
            journaled-Rewrites j e start (take size bytes) a edit (push a m j origin end e.delta) z
              edited (push-Pushed a m j origin end e.delta))
      ])
