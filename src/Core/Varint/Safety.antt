-- ===== src/Core/Varint/Safety.antt =====
-- The unpack functions on any bytes: what they read, how far, and what they return.
use protobluff.Common.{
  ℕ, zero, suc, ◌+◌, ◌-◌, ◌*◌, ◌/◌, ◌^◌, ◌≤◌, ◌<◌, ◌≡◌, refl, ap, ◌∙◌, arith, false, bit_and,
  bit_or, List, [], ◌∷◌, ◌++◌, ◌==◌, length, shl, sub_size, All, get_elem?-none,
}
use native.Mathlib.Nat.{le_trans, mod-lt, one-le-pow}
use protobluff.Common.Bits.{bit_or-lt, bit_xor-lt}
use protobluff.Core.Types.{
  FieldType, int64, uint32, uint64, sint32, sint64, bool, Outcome, ok, fault, ◌>>=◌, >>=-eq-ok,
}
use protobluff.Core.Varint.{
  Stop, group, unpack_rounds, result, unpack_width, unpack_uint32, unpack_uint64, unpack_uint8,
  uint8_rounds, second_byte, unpack_int64, unpack_sint32, unpack_sint64, unpack_int32, unpack,
  unzigzag, negative_size, byte_at,
}
use protobluff.Core.Varint.Base128.{low_bits, top_bit}
use protobluff.Core.Varint.Types.{IsVarint}
use protobluff.Core.Varint.Rounds.{rounds_append, inner_step, StopsIn, rounds_total}

-- An unpack function `f` of a type returns, whatever bytes lie behind the block: it reads none of
-- them. Its size is at most `limit` and `left`, 0 for a failure, and the value is of the type.
abbrev pub ReadsWithin : (List ℕ → ℕ → Outcome (ℕ × ℕ)) → ℕ → (ℕ → Type 0) → List ℕ → ℕ → Type 0
ReadsWithin f limit IsValue block left =
    (size : ℕ) × (v : ℕ) × ((more : List ℕ) → f (block ++ more) left ≡ ok (size, v))
    × (size ≤ limit)
    × (size ≤ left)
    × IsValue v

result-StopsIn :
    (w n left : ℕ) (s : Stop)
    → StopsIn w n 1 left s
    → ((result s).0 ≤ suc n) × ((result s).0 ≤ left)
unfolding result
result-StopsIn w n left s stop = ground arith

result_value : (s : Stop) → result s ≡ ((result s).0, s.temp)
unfolding result
result_value s = refl

unpack_width_safe :
    (w n : ℕ) (block : List ℕ) (left : ℕ)
    → 128 ≤ 2 ^ w
    → 0 < left
    → left < 2 ^ 64
    → left ≤ length block
    → ReadsWithin (unpack_width w n) (suc n) (λ v. v < 2 ^ w) block left
unfolding unpack_width
unpack_width_safe w n [] left h i j k = absurd (omega arith)
unpack_width_safe w n (b ∷ d) left h i j k =
    let (s, e, stop) =
      rounds_total w n b d 1 left (bit_and b 0x7F) i j k (omega (arith, low_bits b)) in
    let (few, fit) = result-StopsIn w n left s stop in
    (
      (result s).0,
      s.temp,
      (λ more. rw (rounds_append w n b d more 1 left (bit_and b 0x7F) e) (ap ok (result_value s))),
      few,
      fit,
      stop.fits,
    )

-- A function of the value keeps what is read.
ReadsWithin-map :
    (f : List ℕ → ℕ → Outcome (ℕ × ℕ)) (g : ℕ → ℕ) (limit w : ℕ) (block : List ℕ) (left : ℕ)
    → ((v : ℕ) → v < 2 ^ w → g v < 2 ^ w)
    → ReadsWithin f limit (λ v. v < 2 ^ w) block left
    → ReadsWithin (λ b l. f b l >>= λ x. ok (x.0, g x.1)) limit (λ v. v < 2 ^ w) block left
ReadsWithin-map f g limit w block left keep (size, v, e, few, fit, small) =
    (size, g v, (λ more. rw (e more)), few, fit, keep v small)

unzigzag-lt : (w v : ℕ) → v < 2 ^ w → unzigzag w v < 2 ^ w
unfolding unzigzag
unzigzag-lt w v h =
    bit_xor-lt w (v / 2) _ (omega arith) (mod-lt _ {m = 2 ^ w} (one-le-pow w 2 (omega arith)))

-- `pb_varint_unpack_uint8` is the same nest of one test, at 8 bits.
unpack_uint8-width :
    (block : List ℕ) (left : ℕ) → unpack_uint8 block left ≡ unpack_width 8 1 block left
unfolding unpack_uint8 uint8_rounds second_byte unpack_width unpack_rounds group
unpack_uint8-width [] left = refl
unpack_uint8-width (b ∷ []) left = ground arith
unpack_uint8-width (b ∷ c ∷ d) left =
    let same : shl 8 (bit_and c 0x7F) 7 ≡ shl 8 c 7 = omega (arith, low_bits c) in
    ground (arith, same)

ReadsWithin-le :
    (f : List ℕ → ℕ → Outcome (ℕ × ℕ)) (limit : ℕ) (P : ℕ → Type 0) (block : List ℕ) (left : ℕ)
    → limit ≤ 10
    → ReadsWithin f limit P block left
    → ReadsWithin f 10 P block left
ReadsWithin-le f limit P block left h (size, v, e, few, fit, p) =
    (size, v, e, le_trans few h, fit, p)

-- The types whose unpack function looks at no more than `left` says: all but int32 and enum.
abbrev pub IsBounded : FieldType → Type 0
IsBounded int64 = Unit
IsBounded uint32 = Unit
IsBounded uint64 = Unit
IsBounded sint32 = Unit
IsBounded sint64 = Unit
IsBounded bool = Unit
IsBounded _ = ⊥

-- On any block of bytes of at least `left` bytes, `left` not 0, `pb_varint_unpack` of these types
-- returns, reads nothing behind the block, reports a size of at most 10 and of at most `left`, and
-- stores a value of the type.
pub unpack_safe :
    (t : FieldType) (block : List ℕ) (left : ℕ)
    → IsBounded t
    → 0 < left
    → left < 2 ^ 64
    → left ≤ length block
    → ReadsWithin (unpack t) 10 (IsVarint t) block left
unfolding unpack unpack_int64 unpack_sint32 unpack_sint64 unpack_uint32 unpack_uint64
unpack_safe int64 block left b h i j = unpack_width_safe 64 9 block left (omega arith) h i j
unpack_safe uint32 block left b h i j =
    ReadsWithin-le unpack_uint32 5 _ block left (omega arith)
      (unpack_width_safe 32 4 block left (omega arith) h i j)
unpack_safe uint64 block left b h i j = unpack_width_safe 64 9 block left (omega arith) h i j
unpack_safe sint32 block left b h i j = ReadsWithin-le unpack_sint32 5 _ block left (omega arith) (
    ReadsWithin-map unpack_uint32 (unzigzag 32) 5 32 block left (unzigzag-lt 32)
      (unpack_width_safe 32 4 block left (omega arith) h i j))
unpack_safe sint64 block left b h i j =
    ReadsWithin-map unpack_uint64 (unzigzag 64) 10 64 block left (unzigzag-lt 64)
      (unpack_width_safe 64 9 block left (omega arith) h i j)
unpack_safe bool block left b h i j =
    let (size, v, e, few, fit, p) = unpack_width_safe 8 1 block left (omega arith) h i j in
    (size, v, (λ more. unpack_uint8-width (block ++ more) left ∙ e more), omega arith, fit, p)
unpack_safe _ block left b h i j = elim b [ ]

abbrev pub HighByte : ℕ → Type 0
HighByte b = (128 ≤ b) × (b < 256)

-- Where every byte left has the top bit, the tests run out of bytes.
rounds_exhausted :
    (w n b : ℕ) (d : List ℕ) (size left temp : ℕ)
    → HighByte b
    → All HighByte d
    → left ≡ suc (length d)
    → length d < n
    → left < 2 ^ 64
    → (s : Stop) × (unpack_rounds w n b d size left temp ≡ ok s) × (s.left ≡ 0)
unfolding unpack_rounds
rounds_exhausted w zero b d size left temp h a e k l = absurd (omega arith)
rounds_exhausted w (suc n) b [] size left temp h a e k l =
    let none_left : sub_size left 1 ≡ 0 = omega arith in
    (
      record { last = b; read = size; left = 0; temp = temp },
      rw none_left (ground (arith, top_bit b)),
      refl,
    )
rounds_exhausted w (suc n) b (c ∷ d) size left temp h (hc, a) e k l =
    let high : (bit_and b 0x80 == 0) ≡ false = ground (arith, top_bit b) in
    let (s, eq, z) =
      rounds_exhausted w n c d (size + 1) (left - 1) (bit_or temp (shl w (group n c) (7 * size))) hc
        a (omega arith) (omega arith) (omega arith) in
    (s, inner_step w n b c d size left temp high (omega arith) l ∙ eq, z)

-- On a block of one to four bytes that all have the top bit, `pb_varint_unpack_int32` reads behind
-- the block when it is told that exactly the block is left.
pub unpack_int32-fault :
    (block : List ℕ) (left : ℕ)
    → All HighByte block
    → 0 < length block
    → length block ≤ 4
    → left ≡ length block
    → unpack_int32 block left ≡ fault
unfolding unpack_int32 negative_size byte_at unpack_uint32 unpack_width result
unpack_int32-fault [] left a h i e = absurd (omega arith)
unpack_int32-fault (b ∷ d) left (hb, a) h i e =
    let (s, eq, z) =
      rounds_exhausted 32 4 b d 1 left (bit_and b 0x7F) hb a e (omega arith) (omega arith) in
    rw eq (ground (arith, z, get_elem?-none (b ∷ d) 4 i))

rounds_bound :
    (w n b : ℕ) (d : List ℕ) (size left temp : ℕ) {s : Stop}
    → unpack_rounds w n b d size left temp ≡ ok s
    → temp < 2 ^ w
    → (s.read ≤ size + n) × (s.temp < 2 ^ w)
unfolding unpack_rounds
rounds_bound w zero b d size left temp e f = ground arith
rounds_bound w (suc n) b [] size left temp e f = ground arith
rounds_bound w (suc n) b (c ∷ d) size left temp {s} e f =
    let temp' = bit_or temp (shl w (group n c) (7 * size)) in
    let fits : temp' < 2 ^ w =
      bit_or-lt w temp (shl w (group n c) (7 * size)) f
        (mod-lt (group n c * 2 ^ (7 * size)) {m = 2 ^ w} (one-le-pow w 2 (omega arith))) in
    ground (
      arith,
      λ (x : unpack_rounds w n c d (size + 1) (sub_size left 1) temp' ≡ ok s).
          rounds_bound w n c d (size + 1) (sub_size left 1) temp' x fits,
    )

-- A successful `pb_varint_unpack_uint32` reports at most five bytes, and a uint32_t.
pub unpack_uint32-bound :
    (block : List ℕ) (left : ℕ) {size v : ℕ}
    → unpack_uint32 block left ≡ ok (size, v)
    → (size ≤ 5) × (v < 2 ^ 32)
unfolding unpack_uint32 unpack_width
unpack_uint32-bound [] left e = cc
unpack_uint32-bound (b ∷ d) left e =
    let (s, eq, r) =
      >>=-eq-ok (unpack_rounds 32 4 b d 1 left (bit_and b 0x7F)) (λ s. ok (result s)) e in
    unfold result in
    ground (arith, rounds_bound 32 4 b d 1 left (bit_and b 0x7F) eq (omega (arith, low_bits b)), r)
