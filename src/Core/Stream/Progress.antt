-- ===== src/Core/Stream/Progress.antt =====
-- Every read and skip that succeeds moves the stream forward, and not past its end.
use protobluff.Common.{
  ℕ, zero, suc, ◌+◌, ◌^◌, ◌≤◌, ◌<◌, ◌≡◌, ap, arith, ◌==◌, if◌then◌else◌, length, add_size, sub_size,
}
use protobluff.Core.Types.{
  FieldType, varint, undefined, int32, int64, uint32, uint64, sint32, sint64, fixed32, fixed64,
  sfixed32, sfixed64, bool, enum, float, double, string, bytes, message, Outcome, ok, err, ◌>>=◌,
}
use mathlib.Core.Path.{subst}
use protobluff.Core.Types.{>>=-eq-ok}
use protobluff.Core.Varint
use protobluff.Core.Varint.Safety.{unpack_uint32-bound}
use protobluff.Core.Memory.{load}
use protobluff.Core.Buffer.{data_from}
use protobluff.Core.Stream.{
  Stream, left, advance, Value, number, text, read_varint, read_fixed, read_length, skip_varint,
  skip_length, read, skip, little_endian, read_32bit, read_64bit,
}

-- The buffer's block holds it, and the position is not past the end.
pub record IsValid (s : Stream) : Type 0 where
  pub holds : s.buffer.size ≤ length s.buffer.block
  pub small : s.buffer.size < 2 ^ 64
  pub inside : s.position ≤ s.buffer.size

-- `s'` is `s` moved forward in its buffer, by one byte at least.
pub record Ahead (s s' : Stream) : Type 0 where
  pub same : s'.buffer ≡ s.buffer
  pub further : s.position < s'.position
  pub inside : s'.position ≤ s.buffer.size

pub advance_lem :
    (s s' : Stream) (n : ℕ)
    → IsValid s
    → advance s n ≡ ok s'
    → (s'.buffer ≡ s.buffer) × (s'.position ≡ s.position + n) × (s'.position ≤ s.buffer.size)
unfolding advance
advance_lem s s' n v e = ground arith

advance-Ahead : (s s' : Stream) (n : ℕ) → 0 < n → IsValid s → advance s n ≡ ok s' → Ahead s s'
advance-Ahead s s' n h v e =
    let (a, b, c) = advance_lem s s' n v e in record { same = a; further = omega arith; inside = c }

-- Behind the test of the size.
tested {ℓ} :
    {A : Type ℓ} (size : ℕ) (m : Outcome A) {y : A}
    → (if size == 0 then err varint else m) ≡ ok y
    → (0 < size) × (m ≡ ok y)
tested zero m e = cc
tested (suc n) m e = (omega arith, ground arith)

moved :
    (s s' s₁ : Stream) (x y : Value)
    → Ahead s s₁
    → ◌≡◌ {A = Outcome (Value × Stream)} (ok (y, s₁)) (ok (x, s'))
    → Ahead s s'
moved s s' s₁ x y a e = let same : s₁ ≡ s' = ground arith in subst (Ahead s) same a

read_varint-Ahead :
    (s s' : Stream) (t : FieldType) (x : Value)
    → IsValid s
    → read_varint s t ≡ ok (x, s')
    → Ahead s s'
unfolding read_varint
read_varint-Ahead s s' t x v e =
    let ((size, u), eq, rest) =
      >>=-eq-ok (Varint.unpack t (data_from s.buffer s.position) (left s)) _ e in
    let (pos, e₁) = tested size (advance s size >>= λ s₁. ok (number u, s₁)) rest in
    let (s₁, e₂, e₃) = >>=-eq-ok (advance s size) (λ s₁. ok (number u, s₁)) e₁ in
    moved s s' s₁ x (number u) (advance-Ahead s s₁ size pos v e₂) e₃

read_fixed-Ahead :
    (n : ℕ) (s s' : Stream) (x : Value)
    → 0 < n
    → IsValid s
    → read_fixed n s ≡ ok (x, s')
    → Ahead s s'
unfolding read_fixed
read_fixed-Ahead n s s' x h v e =
    let (s₁, eq, rest) = >>=-eq-ok (advance s n) _ e in
    let (raw, e₁, e₂) = >>=-eq-ok (load s₁.buffer.block (sub_size s₁.position n) n) _ rest in
    moved s s' s₁ x (number (little_endian raw)) (advance-Ahead s s₁ n h v eq) e₂

read_length-Ahead :
    (s s' : Stream) (x : Value) → IsValid s → read_length s ≡ ok (x, s') → Ahead s s'
unfolding read_length
read_length-Ahead s s' x v e =
    let ((size, n), eq, rest) =
      >>=-eq-ok (Varint.unpack_uint32 (data_from s.buffer s.position) (left s)) _ e in
    let (few, small) = unpack_uint32-bound (data_from s.buffer s.position) (left s) eq in
    let (pos, e₁) =
      tested size (advance s (add_size size n) >>= λ s₁. ok (text (add_size s.position size) n, s₁))
        rest in
    let (s₁, e₂, e₃) =
      >>=-eq-ok (advance s (add_size size n)) (λ s₁. ok (text (add_size s.position size) n, s₁))
        e₁ in
    moved s s' s₁ x (text (add_size s.position size) n)
      (advance-Ahead s s₁ (add_size size n) (omega arith) v e₂) e₃

-- A read that succeeds, of any type, leaves the stream in the same buffer, at least one byte further
-- and not past the end.
pub read-Ahead :
    (s s' : Stream) (t : FieldType) (x : Value) → IsValid s → read s t ≡ ok (x, s') → Ahead s s'
unfolding read read_32bit read_64bit
read-Ahead s s' int32 x v e = read_varint-Ahead s s' int32 x v e
read-Ahead s s' int64 x v e = read_varint-Ahead s s' int64 x v e
read-Ahead s s' uint32 x v e = read_varint-Ahead s s' uint32 x v e
read-Ahead s s' uint64 x v e = read_varint-Ahead s s' uint64 x v e
read-Ahead s s' sint32 x v e = read_varint-Ahead s s' sint32 x v e
read-Ahead s s' sint64 x v e = read_varint-Ahead s s' sint64 x v e
read-Ahead s s' fixed32 x v e = read_fixed-Ahead 4 s s' x (omega arith) v e
read-Ahead s s' fixed64 x v e = read_fixed-Ahead 8 s s' x (omega arith) v e
read-Ahead s s' sfixed32 x v e = read_fixed-Ahead 4 s s' x (omega arith) v e
read-Ahead s s' sfixed64 x v e = read_fixed-Ahead 8 s s' x (omega arith) v e
read-Ahead s s' bool x v e = read_varint-Ahead s s' bool x v e
read-Ahead s s' enum x v e = read_varint-Ahead s s' enum x v e
read-Ahead s s' float x v e = read_fixed-Ahead 4 s s' x (omega arith) v e
read-Ahead s s' double x v e = read_fixed-Ahead 8 s s' x (omega arith) v e
read-Ahead s s' string x v e = read_length-Ahead s s' x v e
read-Ahead s s' bytes x v e = read_length-Ahead s s' x v e
read-Ahead s s' message x v e = read_length-Ahead s s' x v e
read-Ahead s s' undefined x v e = cc

skip_varint-Ahead : (s s' : Stream) → IsValid s → skip_varint s ≡ ok s' → Ahead s s'
unfolding skip_varint
skip_varint-Ahead s s' v e =
    let (size, eq, rest) = >>=-eq-ok (Varint.scan (data_from s.buffer s.position) (left s)) _ e in
    let (pos, e₁) = tested size (advance s size) rest in advance-Ahead s s' size pos v e₁

skip_length-Ahead : (s s' : Stream) → IsValid s → skip_length s ≡ ok s' → Ahead s s'
unfolding skip_length
skip_length-Ahead s s' v e =
    let ((size, n), eq, rest) =
      >>=-eq-ok (Varint.unpack_uint32 (data_from s.buffer s.position) (left s)) _ e in
    let (few, small) = unpack_uint32-bound (data_from s.buffer s.position) (left s) eq in
    let (pos, e₁) = tested size (advance s (add_size size n)) rest in
    advance-Ahead s s' (add_size size n) (omega arith) v e₁

-- A skip that succeeds, by any wire type, leaves the stream in the same buffer, at least one byte
-- further and not past the end.
pub skip-Ahead : (s s' : Stream) (wiretype : ℕ) → IsValid s → skip s wiretype ≡ ok s' → Ahead s s'
unfolding skip
skip-Ahead s s' wiretype v e = ground (
  arith,
  λ (x : skip_varint s ≡ ok s'). skip_varint-Ahead s s' v x,
  λ (x : skip_length s ≡ ok s'). skip_length-Ahead s s' v x,
  λ (x : advance s 8 ≡ ok s'). advance-Ahead s s' 8 (omega arith) v x,
  λ (x : advance s 4 ≡ ok s'). advance-Ahead s s' 4 (omega arith) v x,
)

pub Ahead-IsValid : (s s' : Stream) → IsValid s → Ahead s s' → IsValid s'
Ahead-IsValid s s' v a = record {
  holds = omega (arith, ap (λ b. b.size) a.same, ap (λ b. length b.block) a.same);
  small = omega (arith, ap (λ b. b.size) a.same);
  inside = omega (arith, ap (λ b. b.size) a.same);
}
