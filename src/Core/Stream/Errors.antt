-- ===== src/Core/Stream/Errors.antt =====
-- The errors that reading and skipping report.
use protobluff.Common.{Bool, true, false, ℕ, ◌≡◌, ◌⊎◌, inr, arith, ◌==◌, if◌then◌else◌}
use protobluff.Core.Types.{
  Error, varint, offset, FieldType, undefined, int32, int64, uint32, uint64, sint32, sint64,
  fixed32, fixed64, sfixed32, sfixed64, bool, enum, float, double, string, bytes, message, err,
}
use protobluff.Core.Varint.Errors.{unpack-err, unpack_uint32-err, scan-err}
use protobluff.Core.Memory.{load}
use protobluff.Core.Buffer.{data_from}
use protobluff.Core.Stream.{
  Stream, left, advance, read_varint, read_fixed, read_64bit, read_32bit, read_length, skip_varint,
  skip_length, read, skip,
}

-- A varint that is not complete, or a value that ends behind the buffer.
abbrev pub IsReadError : Error → Type 0
IsReadError e = (e ≡ varint) ⊎ (e ≡ offset)

pub advance-err : (s : Stream) (n : ℕ) (e : Error) → advance s n ≡ err e → e ≡ offset
unfolding advance
advance-err s n e x = ground arith

read_varint-err : (s : Stream) (t : FieldType) (e : Error) → read_varint s t ≡ err e → IsReadError e
unfolding read_varint advance
read_varint-err s t e x = ground (arith, unpack-err t (data_from s.buffer s.position) (left s) e)

read_fixed-err : (n : ℕ) (s : Stream) (e : Error) → read_fixed n s ≡ err e → IsReadError e
unfolding read_fixed load
read_fixed-err n s e x = ground (arith, advance-err s n e)

read_length-err : (s : Stream) (e : Error) → read_length s ≡ err e → IsReadError e
unfolding read_length advance
read_length-err s e x = ground (arith, unpack_uint32-err (data_from s.buffer s.position) (left s) e)

-- A read that fails reports PB_ERROR_VARINT or PB_ERROR_OFFSET.
pub read-err : (s : Stream) (t : FieldType) (e : Error) → read s t ≡ err e → IsReadError e
unfolding read read_64bit read_32bit
read-err s int32 e x = read_varint-err s int32 e x
read-err s int64 e x = read_varint-err s int64 e x
read-err s uint32 e x = read_varint-err s uint32 e x
read-err s uint64 e x = read_varint-err s uint64 e x
read-err s sint32 e x = read_varint-err s sint32 e x
read-err s sint64 e x = read_varint-err s sint64 e x
read-err s fixed32 e x = read_fixed-err 4 s e x
read-err s fixed64 e x = read_fixed-err 8 s e x
read-err s sfixed32 e x = read_fixed-err 4 s e x
read-err s sfixed64 e x = read_fixed-err 8 s e x
read-err s bool e x = read_varint-err s bool e x
read-err s enum e x = read_varint-err s enum e x
read-err s float e x = read_fixed-err 4 s e x
read-err s double e x = read_fixed-err 8 s e x
read-err s string e x = read_length-err s e x
read-err s bytes e x = read_length-err s e x
read-err s message e x = read_length-err s e x
read-err s undefined e x = cc

skip_varint-err : (s : Stream) (e : Error) → skip_varint s ≡ err e → IsReadError e
unfolding skip_varint advance
skip_varint-err s e x = ground (arith, scan-err (data_from s.buffer s.position) (left s) e)

skip_length-err : (s : Stream) (e : Error) → skip_length s ≡ err e → IsReadError e
unfolding skip_length advance
skip_length-err s e x = ground (arith, unpack_uint32-err (data_from s.buffer s.position) (left s) e)

either {ℓ} :
    {P : Type ℓ} {A : Type 0} (c : Bool) (x y : A) {z : A}
    → (x ≡ z → P)
    → (y ≡ z → P)
    → (if c then x else y) ≡ z
    → P
either true x y f g e = f e
either false x y f g e = g e

-- A skip that fails, by any wire type, reports PB_ERROR_VARINT or PB_ERROR_OFFSET.
pub skip-err : (s : Stream) (wiretype : ℕ) (e : Error) → skip s wiretype ≡ err e → IsReadError e
unfolding skip
skip-err s wiretype e x =
    either (wiretype == 0) _ _ (skip_varint-err s e)
      (either (wiretype == 1) _ _ (λ y. inr (advance-err s 8 e y))
        (either (wiretype == 2) _ _ (skip_length-err s e)
          (either (wiretype == 5) _ _ (λ y. inr (advance-err s 4 e y)) (λ y. absurd cc))))
      x
