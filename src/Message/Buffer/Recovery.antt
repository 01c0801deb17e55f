-- ===== src/Message/Buffer/Recovery.antt =====
-- An edit that fails leaves the buffer as it was.
use protobluff.Common.{
  ℕ, ◌+◌, ◌^◌, ◌≡◌, ◌⊎◌, inl, inr, refl, not, ◌||◌, Option, none, some, List, ltb, ◌==◌, if-elim,
  length, add_size, sub_size,
}
use protobluff.Core.Types.{no_error, Outcome, ok, err, fault, ◌>>=◌}
use protobluff.Core.Memory.{Allocator, load, store}
use protobluff.Core.Buffer.{Buffer, valid, is_zero_copy}
use protobluff.Message.Buffer.{
  Edited, memmove, shifted, copied, write_grown, write_shrunk, write_range, write, clear_part,
  clear_range, clear,
}

-- The call succeeds, or fails with the buffer as it was.
abbrev pub Recovers : {M : Type 0} → Buffer → Outcome (Edited M) → Type 0
Recovers b (ok (e, b', m)) = (e ≡ no_error) ⊎ (b' ≡ b)
Recovers b (err e) = ⊥
Recovers b fault = Unit

-- The call succeeds, unless its behaviour is undefined.
abbrev Works : {M : Type 0} → Outcome (Edited M) → Type 0
Works (ok (e, b, m)) = e ≡ no_error
Works (err e) = ⊥
Works fault = Unit

-- A part that reports no error.
abbrev Quiet : {A : Type 0} → Outcome A → Type 0
Quiet (ok a) = Unit
Quiet (err e) = ⊥
Quiet fault = Unit

Quiet->>= :
    {A B : Type 0} (m : Outcome A) (f : A → Outcome B)
    → Quiet m
    → ((x : A) → Quiet (f x))
    → Quiet (m >>= f)
Quiet->>= (ok x) f h k = k x
Quiet->>= (err e) f h k = h
Quiet->>= fault f h k = tt

Works->>= :
    {A M : Type 0} (m : Outcome A) (f : A → Outcome (Edited M))
    → Quiet m
    → ((x : A) → Works (f x))
    → Works (m >>= f)
Works->>= (ok x) f h k = k x
Works->>= (err e) f h k = h
Works->>= fault f h k = tt

load-Quiet : (block : List ℕ) (offset n : ℕ) → Quiet (load block offset n)
unfolding load
load-Quiet block offset n = if-elim Quiet (ltb (length block) (offset + n)) _ _ tt tt

store-Quiet : (block : List ℕ) (offset : ℕ) (raw : List ℕ) → Quiet (store block offset raw)
unfolding store
store-Quiet block offset raw = if-elim Quiet (ltb (length block) (offset + length raw)) _ _ tt tt

shifted-Quiet : (b : Buffer) (end delta : ℕ) (block : List ℕ) → Quiet (shifted b end delta block)
unfolding shifted memmove
shifted-Quiet b end delta block =
    if-elim Quiet (ltb end b.size) _ _
      (Quiet->>= (load block end (sub_size b.size end)) _
        (load-Quiet block end (sub_size b.size end))
        (λ raw. store-Quiet block (add_size end delta) raw))
      tt

copied-Works :
    {M : Type 0} (start : ℕ) (bytes : List ℕ) (size : ℕ) (m : M) (b : Buffer)
    → Works (copied start bytes size m b)
unfolding copied
copied-Works start bytes size m b =
    Works->>= (load bytes 0 size) _ (load-Quiet bytes 0 size) (λ raw.
      Works->>= (store b.block start raw) (λ block. ok (no_error, record b { block = block }, m))
        (store-Quiet b.block start raw) (λ block. refl))

Works-Recovers : {M : Type 0} (b : Buffer) (o : Outcome (Edited M)) → Works o → Recovers b o
Works-Recovers b (ok (e, b', m)) h = inl h
Works-Recovers b (err e) h = h
Works-Recovers b fault h = h

write_grown-Recovers :
    {M : Type 0} (start end delta : ℕ) (bytes : List ℕ) (size : ℕ) (b : Buffer)
    (r : Option (List ℕ) × M)
    → Recovers b (write_grown start end delta bytes size b r)
unfolding write_grown
write_grown-Recovers start end delta bytes size b (none, m) = inr refl
write_grown-Recovers start end delta bytes size b (some new, m) = Works-Recovers b _ (
    Works->>= (shifted b end delta new) _ (shifted-Quiet b end delta new) (λ block.
      copied-Works start bytes size m (record b { block = block; size = add_size b.size delta })))

module _ {M : Type 0} (a : Allocator M) where
  -- `pb_buffer_write`, whatever its arguments and the allocator: it answers PB_ERROR_NONE, or the buffer
  -- is exactly what it was, its block included; unless its behaviour is undefined.
  pub write-Recovers :
      (m : M) (b : Buffer) (start end : ℕ) (bytes : List ℕ) (size : ℕ)
      → Recovers b (write a m b start end bytes size)
  unfolding write write_range write_shrunk
  write-Recovers m b start end bytes size =
      let delta = sub_size size (sub_size end start) in
      if-elim (Recovers b) (not (valid b)) _ _ (inr refl) (
        if-elim (Recovers b) (ltb end start || ltb b.size end) _ _ (inr refl) (
          if-elim (Recovers b) (delta == 0) _ _
            (Works-Recovers b _ (copied-Works start bytes size m b))
            (if-elim (Recovers b) (is_zero_copy b.allocator) _ _ (inr refl) (
              if-elim (Recovers b) (ltb delta (2 ^ 63)) _ _
                (write_grown-Recovers start end delta bytes size b
                  (a.resize m b.block (add_size b.size delta)))
                (Works-Recovers b _ (
                  Works->>= (shifted b end delta b.block) _ (shifted-Quiet b end delta b.block)
                    (λ moved. copied-Works start bytes size _ _)))))))

  -- `pb_buffer_clear`, whatever its arguments and the allocator: it answers PB_ERROR_NONE, or the buffer
  -- is exactly what it was, its block included; unless its behaviour is undefined.
  pub clear-Recovers : (m : M) (b : Buffer) (start end : ℕ) → Recovers b (clear a m b start end)
  unfolding clear clear_range clear_part
  clear-Recovers m b start end =
      let delta = sub_size start end in
      if-elim (Recovers b) (not (valid b)) _ _ (inr refl) (
        if-elim (Recovers b) (ltb end start || ltb b.size end) _ _ (inr refl) (
          if-elim (Recovers b) (delta == 0) _ _ (inl refl) (
            if-elim (Recovers b) (is_zero_copy b.allocator) _ _ (inr refl) (
              if-elim (Recovers b) (add_size b.size delta == 0) _ _ (inl refl) (
                Works-Recovers b _ (
                  Works->>= (shifted b end delta b.block) _ (shifted-Quiet b end delta b.block)
                    (λ moved. refl)))))))
