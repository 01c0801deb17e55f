-- ===== src/Message/Cursor/Scan.antt =====
-- Reading one field in `next`, and one value of a packed field in `next_packed`, of src/message/cursor.c.
use protobluff.Common.{ℕ, ◌%◌, ◌==◌, if◌then◌else◌, sub_size}
use protobluff.Core.Types.{eom, uint32, Outcome, ok, err, fault, ◌>>=◌}
use protobluff.Core.Stream.{Stream, left, advance, read, skip}
use protobluff.Message.Journal.{Offset}
use protobluff.Message.Part.Round.{scalar}

-- `cursor->error` behind a loop that was left with an error: at the end of the stream it is PB_ERROR_EOM.
unfoldable pub at_break {ℓ} : {A : Type ℓ} → Stream → Outcome A → Outcome A
at_break s (ok x) = ok x
at_break s (err e) = err (if left s == 0 then eom else e)
at_break s fault = fault

-- Behind the key: where the value starts and where it ends.
unfoldable pub scan_value : Stream → ℕ → Outcome (ℕ × ℕ)
unfolding at_break
scan_value s wiretype =
    if wiretype == 2
    then (do
      (n, s₁) ← at_break s (read s uint32)
      s₂ ← at_break s₁ (advance s₁ (scalar n))
      ok (s₁.position, s₂.position))
    else (do s₁ ← at_break s (skip s wiretype); ok (s.position, s₁.position))

-- The key and the offsets of the field at the stream, in a message that starts at `from`.
unfoldable pub scan_field : ℕ → Stream → Outcome (ℕ × Offset)
unfolding at_break scan_value
scan_field from s = do
  (key, s₁) ← at_break s (read s uint32)
  (start, end) ← scan_value s₁ (scalar key % 8)
  ok (
    scalar key,
    record {
      start = start;
      end = end;
      diff_origin = sub_size from start;
      diff_tag = sub_size s.position start;
      diff_length = sub_size s₁.position start;
    },
  )
