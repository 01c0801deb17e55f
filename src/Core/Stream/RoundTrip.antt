-- ===== src/Core/Stream/RoundTrip.antt =====
-- Reading what the encoder writes.
use protobluff.Common.{
  ℕ, zero, suc, ◌+◌, ◌/◌, ◌^◌, ◌≤◌, ◌<◌, ◌≡◌, refl, sym, ap, ◌∙◌, arith, false, List, ◌++◌, ltb,
  ◌==◌, length, take, drop, sub_size, take-append_self,
}
use mathlib.Core.Path.{subst}
use native.Mathlib.Nat.{pow-suc}
use protobluff.Core.Types.{
  FieldType, int32, int64, uint32, uint64, sint32, sint64, fixed32, fixed64, sfixed32, sfixed64,
  bool, enum, float, double, ok,
}
use protobluff.Core.Varint.Types.{IsVarint, unpack-pack}
use protobluff.Core.Varint.Base128.{base128}
use protobluff.Core.Memory.{load}
use protobluff.Core.Buffer.{data_from}
use protobluff.Core.Stream.{
  Stream, left, advance, number, little_endian, read_varint, read_fixed, read_64bit, read_32bit,
  read,
}
use protobluff.Core.Stream.Progress.{IsValid}
use protobluff.Core.Encoder.{le_bytes}
use protobluff.Core.Encoder.Wire.{wire_scalar, pack-wire_scalar, length-le_bytes, IsScalar}

-- The stream behind `n` more bytes.
abbrev pub behind : Stream → ℕ → Stream
behind s n = record s { position = s.position + n }

advanced : (s : Stream) (n : ℕ) → IsValid s → n ≤ left s → advance s n ≡ ok (behind s n)
unfolding advance left
advanced s n v h =
    let fits : ltb (left s) n ≡ false = ground arith in
    rw fits (ap (λ p. ok (record s { position = p })) (omega arith))

read_varint_lem :
    (s : Stream) (t : FieldType) (v : ℕ) (rest : List ℕ)
    → IsValid s
    → IsVarint t v
    → drop s.position s.buffer.block ≡ wire_scalar t v ++ rest
    → length (wire_scalar t v) ≤ left s
    → 0 < length (wire_scalar t v)
    → left s < 2 ^ 64
    → read_varint s t ≡ ok (number v, behind s (length (wire_scalar t v)))
unfolding read_varint data_from
read_varint_lem s t v rest w h e l p small =
    let some_read : (length (wire_scalar t v) == 0) ≡ false = ground arith in
    rw
      (
        e,
        unpack-pack t v (wire_scalar t v) rest (left s) h (pack-wire_scalar t v h) l small,
        some_read,
        advanced s (length (wire_scalar t v)) w l,
      )
      refl

little_endian-le_bytes : (n v : ℕ) → v < 256 ^ n → little_endian (le_bytes n v) ≡ v
unfolding le_bytes
little_endian-le_bytes zero v h = omega arith
little_endian-le_bytes (suc n) v h =
    omega (arith, pow-suc 256 n, little_endian-le_bytes n (v / 256) (omega (arith, pow-suc 256 n)))

loaded_at :
    (s : Stream) (n : ℕ)
    → IsValid s
    → n ≤ left s
    → load s.buffer.block s.position n ≡ ok (take n (drop s.position s.buffer.block))
unfolding load left
loaded_at s n v h = ground (arith, v.holds, v.small, v.inside)

left-lt : (s : Stream) → left s < 2 ^ 64
unfolding left
left-lt s = omega arith

read_fixed_lem :
    (n : ℕ) (s : Stream) (v : ℕ) (rest : List ℕ)
    → IsValid s
    → v < 256 ^ n
    → drop s.position s.buffer.block ≡ le_bytes n v ++ rest
    → n ≤ left s
    → n < 2 ^ 32
    → read_fixed n s ≡ ok (number v, behind s (length (le_bytes n v)))
unfolding read_fixed
read_fixed_lem n s v rest w h e l small =
    let back : sub_size (s.position + n) n ≡ s.position = omega (arith, w.inside, w.small) in
    let raw : take n (le_bytes n v ++ rest) ≡ le_bytes n v =
      ap (λ k. take k (le_bytes n v ++ rest)) (sym (length-le_bytes n v))
      ∙ take-append_self (le_bytes n v) rest in
    rw
      (
        advanced s n w l,
        back,
        loaded_at s n w l,
        e,
        raw,
        little_endian-le_bytes n v h,
        length-le_bytes n v,
      )
      refl

wire_scalar_positive : (k v : ℕ) → 0 < length (base128 k v)
unfolding base128
wire_scalar_positive zero v = omega arith
wire_scalar_positive (suc k) v = ground arith

-- A stream that stands at the bytes that the encoder writes of a number of a type, all of them left,
-- reads that number, and then stands behind these bytes: for every type of a number, varint or fixed,
-- and whatever bytes follow.
pub read-wire_scalar :
    (s : Stream) (t : FieldType) (v : ℕ) (rest : List ℕ)
    → IsValid s
    → IsScalar t v
    → drop s.position s.buffer.block ≡ wire_scalar t v ++ rest
    → length (wire_scalar t v) ≤ left s
    → read s t ≡ ok (number v, behind s (length (wire_scalar t v)))
unfolding read read_64bit read_32bit wire_scalar
read-wire_scalar s int32 v rest w h e l =
    read_varint_lem s int32 v rest w h e l (wire_scalar_positive 9 _) (left-lt s)
read-wire_scalar s int64 v rest w h e l =
    read_varint_lem s int64 v rest w h e l (wire_scalar_positive 9 _) (left-lt s)
read-wire_scalar s uint32 v rest w h e l =
    read_varint_lem s uint32 v rest w h e l (wire_scalar_positive 4 _) (left-lt s)
read-wire_scalar s uint64 v rest w h e l =
    read_varint_lem s uint64 v rest w h e l (wire_scalar_positive 9 _) (left-lt s)
read-wire_scalar s sint32 v rest w h e l =
    read_varint_lem s sint32 v rest w h e l (wire_scalar_positive 4 _) (left-lt s)
read-wire_scalar s sint64 v rest w h e l =
    read_varint_lem s sint64 v rest w h e l (wire_scalar_positive 9 _) (left-lt s)
read-wire_scalar s bool v rest w h e l =
    read_varint_lem s bool v rest w h e l (wire_scalar_positive 1 _) (left-lt s)
read-wire_scalar s enum v rest w h e l =
    read_varint_lem s enum v rest w h e l (wire_scalar_positive 9 _) (left-lt s)
read-wire_scalar s fixed32 v rest w h e l =
    read_fixed_lem 4 s v rest w h e (subst (λ n. n ≤ left s) (length-le_bytes 4 v) l) (omega arith)
read-wire_scalar s sfixed32 v rest w h e l =
    read_fixed_lem 4 s v rest w h e (subst (λ n. n ≤ left s) (length-le_bytes 4 v) l) (omega arith)
read-wire_scalar s float v rest w h e l =
    read_fixed_lem 4 s v rest w h e (subst (λ n. n ≤ left s) (length-le_bytes 4 v) l) (omega arith)
read-wire_scalar s fixed64 v rest w h e l =
    read_fixed_lem 8 s v rest w h e (subst (λ n. n ≤ left s) (length-le_bytes 8 v) l) (omega arith)
read-wire_scalar s sfixed64 v rest w h e l =
    read_fixed_lem 8 s v rest w h e (subst (λ n. n ≤ left s) (length-le_bytes 8 v) l) (omega arith)
read-wire_scalar s double v rest w h e l =
    read_fixed_lem 8 s v rest w h e (subst (λ n. n ≤ left s) (length-le_bytes 8 v) l) (omega arith)
read-wire_scalar s _ v rest w h e l = elim h [ ]
