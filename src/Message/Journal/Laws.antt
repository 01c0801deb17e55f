-- ===== src/Message/Journal/Laws.antt =====
-- Edits of a journal, and alignment.
use protobluff.Common.{
  ℕ, ◌-◌, ◌≡◌, refl, ap, ◌∙◌, arith, true, false, not, Option, none, some, List, [], ◌∷◌, ◌++◌, ◌⊎◌,
  inl, inr, ◌==◌, if-elim, length, take, drop, sub_size, length-append, take-append_self,
}
use protobluff.Core.Types.{Error, no_error, alloc, Outcome, ok, err, fault, ◌>>=◌}
use protobluff.Core.Memory.{Allocator}
use protobluff.Core.Buffer.{Buffer, valid, is_zero_copy}
use protobluff.Message.Buffer as Edit
use protobluff.Message.Buffer.Recovery.{Recovers, write-Recovers, clear-Recovers}
use protobluff.Message.Journal.{
  Entry, Journal, Journaled, Offset, pushed, pop, settled, push, journaled, edit_journal, write,
  clear, align_entries, aligned, aligned_version, size_max, align,
}

-- The edit succeeds, or fails with the buffer and the entries as they were.
abbrev pub Kept : {M : Type 0} → Journal → Outcome (Journaled M) → Type 0
Kept j (ok (e, j', m)) = (e ≡ no_error) ⊎ ((j'.buffer ≡ j.buffer) × (j'.entries ≡ j.entries))
Kept j (err e) = ⊥
Kept j fault = Unit

-- The entry that was pushed is the one that is popped.
pub pop_last :
    (es : List Entry) (e : Entry) → take (length (es ++ (e ∷ [])) - 1) (es ++ (e ∷ [])) ≡ es
pop_last es e =
    ap (λ n. take n (es ++ (e ∷ []))) (omega (arith, length-append es (e ∷ [])))
    ∙ take-append_self es (e ∷ [])

settled-Kept :
    {M : Type 0} (j j' : Journal) (e : Entry) (o : Outcome (Error × Buffer × M))
    → j'.buffer ≡ j.buffer
    → j'.entries ≡ j.entries ++ (e ∷ [])
    → Recovers j'.buffer o
    → Kept j (o >>= λ r. ok (settled j' r))
unfolding settled pop
settled-Kept j j' e (ok (no_error, b, m)) s t h = inl refl
settled-Kept j j' e (ok (x, b, m)) s t (inl h) = inl h
settled-Kept j j' e (ok (x, b, m)) s t (inr h) = inr (h ∙ s, rw t (pop_last j.entries e))
settled-Kept j j' e (err x) s t h = h
settled-Kept j j' e fault s t h = h

-- What `push` comes to.
abbrev pub Pushed : {M : Type 0} → Journal → Entry → Journaled M → Type 0
Pushed j e (no_error, j', m) = (j'.buffer ≡ j.buffer) × (j'.entries ≡ j.entries ++ (e ∷ []))
Pushed j e (alloc, j', m) = j' ≡ j
Pushed j e _ = ⊥

pushed-Pushed :
    {M : Type 0} (j : Journal) (e : Entry) (r : Option (List ℕ) × M) → Pushed j e (pushed j e r)
unfolding pushed
pushed-Pushed j e (some room, m) = (refl, refl)
pushed-Pushed j e (none, m) = refl

unchanged :
    {M : Type 0} (j : Journal) (o : Outcome (Error × Buffer × M))
    → Recovers j.buffer o
    → Kept j (o >>= λ r. ok (r.0, record j { buffer = r.1 }, r.2))
unchanged j (ok (e, b, m)) (inl h) = inl h
unchanged j (ok (e, b, m)) (inr h) = inr (h, refl)
unchanged j (err e) h = h
unchanged j fault h = h

module _ {M : Type 0} (a : Allocator M) where
  pub push-Pushed :
      (m : M) (j : Journal) (origin end delta : ℕ)
      → Pushed j
          (record { origin = origin; offset = end; delta = delta })
          (push a m j origin end delta)
  unfolding push
  push-Pushed m j origin end delta =
      if-elim (Pushed j (record { origin = origin; offset = end; delta = delta }))
        (is_zero_copy j.buffer.allocator) _ _ refl (pushed-Pushed j _ _)

  journaled-Kept :
      (j : Journal) (e : Entry) (edit : M → Buffer → Outcome (Error × Buffer × M)) (r : Journaled M)
      → ((m : M) (b : Buffer) → Recovers b (edit m b))
      → Pushed j e r
      → Kept j (journaled a edit r)
  unfolding journaled
  journaled-Kept j e edit (no_error, j', m) h (s, t) =
      settled-Kept j j' e (edit m j'.buffer) s t (h m j'.buffer)
  journaled-Kept j e edit (alloc, j', m) h s = inr (ap (λ x. x.buffer) s, ap (λ x. x.entries) s)
  journaled-Kept j e edit (_, j', m) h s = elim s [ ]

  edit_journal-Kept :
      (edit : M → Buffer → Outcome (Error × Buffer × M)) (m : M) (j : Journal)
      (origin end delta : ℕ)
      → ((m' : M) (b : Buffer) → Recovers b (edit m' b))
      → Kept j (edit_journal a edit m j origin end delta)
  unfolding edit_journal
  edit_journal-Kept edit m j origin end delta h =
      if-elim (Kept j) (not (valid j.buffer)) _ _ (inr (refl, refl)) (
        if-elim (Kept j) (delta == 0) _ _ (unchanged j (edit m j.buffer) (h m j.buffer)) (
          journaled-Kept j _ edit (push a m j origin end delta) h
            (push-Pushed m j origin end delta)))

  -- `pb_journal_write`, whatever its arguments and the allocator: it answers PB_ERROR_NONE, or the buffer
  -- and the entries are exactly what they were; unless its behaviour is undefined.
  pub write-Kept :
      (m : M) (j : Journal) (origin start end : ℕ) (bytes : List ℕ) (size : ℕ)
      → Kept j (write a m j origin start end bytes size)
  unfolding write
  write-Kept m j origin start end bytes size =
      edit_journal-Kept (λ m' b. Edit.write a m' b start end bytes size) m j origin end
        (sub_size size (sub_size end start)) (λ m' b. write-Recovers a m' b start end bytes size)

  -- `pb_journal_clear`, whatever its arguments and the allocator: it answers PB_ERROR_NONE, or the buffer
  -- and the entries are exactly what they were; unless its behaviour is undefined.
  pub clear-Kept :
      (m : M) (j : Journal) (origin start end : ℕ) → Kept j (clear a m j origin start end)
  unfolding clear
  clear-Kept m j origin start end =
      edit_journal-Kept (λ m' b. Edit.clear a m' b start end) m j origin end (sub_size start end)
        (λ m' b. clear-Recovers a m' b start end)

pub again :
    (j : Journal) (version : ℕ) (o : Offset)
    → valid j.buffer ≡ true
    → version ≡ length j.entries
    → (version == size_max) ≡ false
    → drop version j.entries ≡ []
    → align j version o ≡ (no_error, version, o)
unfolding align align_entries aligned aligned_version
again j version o fine same small none_left = rw (fine, none_left, small) refl
