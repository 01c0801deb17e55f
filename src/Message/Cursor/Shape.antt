-- ===== src/Message/Cursor/Shape.antt =====
-- What `next` reads at a position is the shape of a field: its key, its length prefix and its value, in this
-- order, within the message.
use protobluff.Common.{
  ℕ, ◌%◌, ◌≤◌, ◌<◌, ◌≡◌, refl, ap, arith, ◌==◌, if◌then◌else◌, sub_size, if-elim, false, inl, inr,
}
use protobluff.Core.Types.{Error, eom, uint32, Outcome, ok, err, fault, ◌>>=◌}
use protobluff.Core.Stream.{Stream, left, advance, read, skip}
use protobluff.Core.Stream.Progress.{
  IsValid, Ahead, advance_lem, read-Ahead, skip-Ahead, Ahead-IsValid,
}
use protobluff.Core.Stream.Errors.{IsReadError, advance-err, read-err, skip-err}
use protobluff.Message.Journal.{Offset}
use protobluff.Message.Part.Round.{scalar}
use protobluff.Message.Part.Shape.{IsField}
use protobluff.Message.Cursor.{is_none}
use protobluff.Message.Cursor.Scan.{at_break, scan_value, scan_field}

-- What holds of a read behind which the loop goes on, and of a break.
at_break-elim {ℓ κ μ} :
    {A : Type ℓ} {B : Type κ} (P : Outcome B → Type μ) (s : Stream) (m : Outcome A)
    (f : A → Outcome B)
    → ((a : A) → m ≡ ok a → P (f a))
    → ((e : Error) → m ≡ err e → P (err (if left s == 0 then eom else e)))
    → P fault
    → P (at_break s m >>= f)
unfolding at_break
at_break-elim P s (ok a) f h k l = h a refl
at_break-elim P s (err e) f h k l = k e refl
at_break-elim P s fault f h k l = l

-- The error behind a break is one.
broken : (s : Stream) (e : Error) → IsReadError e → is_none (if left s == 0 then eom else e) ≡ false
broken s e (inl x) = if-elim (λ y. is_none y ≡ false) (left s == 0) eom e refl (rw x refl)
broken s e (inr x) = if-elim (λ y. is_none y ≡ false) (left s == 0) eom e refl (rw x refl)

-- The value starts at or behind the position, and ends within the buffer, behind the position.
abbrev Spans : Stream → Outcome (ℕ × ℕ) → Type 0
Spans s (ok (start, end)) =
    (s.position ≤ start) × (start ≤ end) × (s.position < end) × (end ≤ s.buffer.size)
Spans s (err e) = is_none e ≡ false
Spans s fault = Unit

scan_value-Spans : (s : Stream) (wiretype : ℕ) → IsValid s → Spans s (scan_value s wiretype)
unfolding scan_value
scan_value-Spans s wiretype v =
    if-elim (Spans s) (wiretype == 2) _ _
      (at_break-elim (Spans s) s (read s uint32) _
        (λ (n, s₁) e.
          let a = read-Ahead s s₁ uint32 n v e in
          at_break-elim (Spans s) s₁ (advance s₁ (scalar n)) _
            (λ s₂ x.
              let (b, q, i) = advance_lem s₁ s₂ (scalar n) (Ahead-IsValid s s₁ v a) x in
              let size = ap (λ c. c.size) a.same in
              (omega (arith, a.further), omega arith, omega (arith, a.further), omega arith))
            (λ e x. broken s₁ e (inr (advance-err s₁ (scalar n) e x))) tt)
        (λ e x. broken s e (read-err s uint32 e x)) tt)
      (at_break-elim (Spans s) s (skip s wiretype) _
        (λ s₁ e.
          let a = skip-Ahead s s₁ wiretype v e in
          (omega arith, omega (arith, a.further), a.further, a.inside))
        (λ e x. broken s e (skip-err s wiretype e x)) tt)

-- The field at the stream: its key stands at the position, and its value ends within the buffer.
abbrev pub Scans : ℕ → Stream → Outcome (ℕ × Offset) → Type 0
Scans from s (ok (key, o)) =
    (length_at : ℕ) × IsField from s.position length_at s.buffer.size o × (s.position < o.end)
Scans from s (err e) = is_none e ≡ false
Scans from s fault = Unit

laid_out-Scans :
    (from : ℕ) (s s₁ : Stream) (key : ℕ) (r : Outcome (ℕ × ℕ))
    → from ≤ s.position
    → Ahead s s₁
    → Spans s₁ r
    → Scans from s (
        r >>= λ (start, end). ok (
          key,
          record {
            start = start;
            end = end;
            diff_origin = sub_size from start;
            diff_tag = sub_size s.position start;
            diff_length = sub_size s₁.position start;
          },
        ))
laid_out-Scans from s s₁ key (ok (start, end)) h a (p, q, r, t) = (
  s₁.position,
  record {
    after_start = h;
    key = a.further;
    prefix = p;
    order = q;
    inside = omega (arith, ap (λ b. b.size) a.same);
    to_origin = refl;
    to_tag = refl;
    to_length = refl;
  },
  omega (arith, a.further),
)
laid_out-Scans from s s₁ key (err e) h a r = r
laid_out-Scans from s s₁ key fault h a r = tt

pub scan_field-Scans :
    (from : ℕ) (s : Stream) → from ≤ s.position → IsValid s → Scans from s (scan_field from s)
unfolding scan_field
scan_field-Scans from s h v =
    at_break-elim (Scans from s) s (read s uint32) _
      (λ (x, s₁) e.
        let a = read-Ahead s s₁ uint32 x v e in
        laid_out-Scans from s s₁ (scalar x) (scan_value s₁ (scalar x % 8)) h a
          (scan_value-Spans s₁ (scalar x % 8) (Ahead-IsValid s s₁ v a)))
      (λ e x. broken s e (read-err s uint32 e x)) tt
