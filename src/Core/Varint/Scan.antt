-- ===== src/Core/Varint/Scan.antt =====
-- The two compilations of `pb_varint_scan` against one another.
use protobluff.Common.{
  ℕ, zero, suc, ◌+◌, ◌-◌, ◌*◌, ◌/◌, ◌%◌, ◌^◌, ◌≤◌, ◌<◌, ◌≡◌, refl, ap, arith, Bool, true, false,
  each_below, each_holds, Bool-cases, inl, inr, bit_and, bit_xor, List, [], ◌∷◌, ltb, ◌==◌,
  if◌then◌else◌, length, sub_size,
}
use native.Mathlib.Nat.{one-le-pow, pow-suc, mod-lt}
use protobluff.Common.Bits.{bit_and_mask, bit_xor_ones, mod-two-pow-suc}
use protobluff.Core.Types.{Outcome, ok, err, fault, ◌>>=◌}
use protobluff.Core.Varint.{scan_loop, scan, scan_sse2, movemask, mask_map, byte_at, trailing_zeros}

-- The complement of the low `k` bits of the mask.
abbrev low_clear : ℕ → ℕ → ℕ
low_clear k m = 2 ^ k - 1 - m % 2 ^ k

answer : ℕ → ℕ → ℕ → ℕ
answer f x size = if x == 0 then 0 else size + trailing_zeros f x + 1

-- The high bit of a byte, as a digit.
abbrev high : ℕ → ℕ
high b = if bit_and b 0x80 == 0 then 0 else 1

digit_cons :
    (o : Outcome ℕ) (h : ℕ) {m : ℕ}
    → (o >>= λ m'. ok (h + 2 * m')) ≡ ok m
    → (m' : ℕ) × (o ≡ ok m') × (m ≡ h + 2 * m')
digit_cons (ok m') h e = (m', refl, ground arith)
digit_cons (err x) h e = cc
digit_cons fault h e = cc

low_clear_set : (k m' : ℕ) → low_clear (suc k) (1 + 2 * m') ≡ 2 * low_clear k m'
low_clear_set k m' =
    let half : (1 + 2 * m') / 2 ≡ m' = omega arith in
    omega (
      arith,
      mod-two-pow-suc (1 + 2 * m') k,
      ap (λ t. t % 2 ^ k) half,
      pow-suc 2 k,
      mod-lt m' {m = 2 ^ k} (one-le-pow k 2 (omega arith)),
    )

low_clear_clear : (k m' : ℕ) → low_clear (suc k) (0 + 2 * m') ≡ 2 * low_clear k m' + 1
low_clear_clear k m' =
    let half : (0 + 2 * m') / 2 ≡ m' = omega arith in
    omega (
      arith,
      mod-two-pow-suc (0 + 2 * m') k,
      ap (λ t. t % 2 ^ k) half,
      pow-suc 2 k,
      mod-lt m' {m = 2 ^ k} (one-le-pow k 2 (omega arith)),
    )

answer_odd : (f x size : ℕ) → answer (suc f) (2 * x + 1) size ≡ size + 1
unfolding answer trailing_zeros
answer_odd f x size = ground arith

answer_even : (f x size : ℕ) → answer (suc f) (2 * x) size ≡ answer f x (size + 1)
unfolding answer trailing_zeros
answer_even f x size = let half : 2 * x / 2 ≡ x = omega arith in rw half (ground arith)

answer_step :
    (b k f m' size : ℕ)
    → answer (suc f) (low_clear (suc k) (high b + 2 * m')) size
      ≡ (if bit_and b 0x80 == 0 then size + 1 else answer f (low_clear k m') (size + 1))
answer_step b k f m' size = elim (Bool-cases (bit_and b 0x80 == 0)) [
  | inl e ↦ rw e (rw (low_clear_clear k m') (answer_odd f (low_clear k m') size))
  | inr e ↦ rw e (rw (low_clear_set k m') (answer_even f (low_clear k m') size))
]

answer_none : (f m size : ℕ) → answer f (low_clear 0 m) size ≡ 0
unfolding answer
answer_none f m size = ground arith

scan_loop-movemask :
    (k n f : ℕ) (block : List ℕ) (size m : ℕ)
    → suc k ≤ n
    → suc k ≤ f
    → suc k < 2 ^ 64
    → movemask n block ≡ ok m
    → scan_loop block (suc k) size ≡ ok (answer f (low_clear (suc k) m) size)
unfolding scan_loop movemask
scan_loop-movemask k zero f block size m hn hf hk e = absurd (omega arith)
scan_loop-movemask k (suc n) zero block size m hn hf hk e = absurd (omega arith)
scan_loop-movemask k (suc n) (suc f) [] size m hn hf hk e = cc
scan_loop-movemask zero (suc n) (suc f) (b ∷ d) size m hn hf hk e =
    let (m', e', v) = digit_cons (movemask n d) (high b) e in
    ground (arith, v, answer_step b 0 f m' size, answer_none f m' (size + 1))
scan_loop-movemask (suc k) (suc n) (suc f) (b ∷ d) size m hn hf hk e =
    let (m', e', v) = digit_cons (movemask n d) (high b) e in
    let less : sub_size (suc (suc k)) 1 ≡ suc k = omega arith in
    let ih =
      scan_loop-movemask k n f d (size + 1) m' (omega arith) (omega arith) (omega arith) e' in
    rw (less, ih, v) (rw (answer_step b (suc k) f m' size) (ground arith))

movemask_total : (n : ℕ) (d : List ℕ) → n ≤ length d → (m : ℕ) × (movemask n d ≡ ok m)
unfolding movemask
movemask_total zero d h = (0, refl)
movemask_total (suc n) [] h = absurd (omega arith)
movemask_total (suc n) (b ∷ d) h =
    let (m, e) = movemask_total n d (omega arith) in (high b + 2 * m, rw e)

abbrev holds : Outcome ℕ → ℕ → Bool
holds (ok b) c = b == c
holds (err e) c = false
holds fault c = false

mask_map_table : each_below (λ i. holds (byte_at mask_map i) (2 ^ i - 1)) 11 ≡ true
unfolding each_below byte_at
mask_map_table = refl

mask_map_lem : (k : ℕ) → k ≤ 10 → byte_at mask_map k ≡ ok (2 ^ k - 1)
mask_map_lem k h =
    ground (arith, each_holds (λ i. holds (byte_at mask_map i) (2 ^ i - 1)) 11 mask_map_table k)

-- The mask that the vector code makes of the high bits.
mask-low_clear : (k m : ℕ) → bit_xor (bit_and m (2 ^ k - 1)) (2 ^ k - 1) ≡ low_clear k m
mask-low_clear k m =
    rw (bit_and_mask k m)
      (bit_xor_ones k (m % 2 ^ k) (mod-lt m {m = 2 ^ k} (one-le-pow k 2 (omega arith))))

-- Both at a count of 1 to 10.
scan_at :
    (block : List ℕ) (c m : ℕ)
    → 0 < c
    → c ≤ 10
    → movemask 16 block ≡ ok m
    → scan_loop block c 0 ≡ ok (answer 32 (low_clear c m) 0)
scan_at block zero m h k e = absurd (omega arith)
scan_at block (suc c) m h k e =
    scan_loop-movemask c 16 32 block 0 m (omega arith) (omega arith) (omega arith) e

-- Where 16 bytes can be loaded, the vector code of `pb_varint_scan` and its portable loop agree, for
-- every count of bytes left but 0.
pub scan_sse2-scan :
    (block : List ℕ) (left : ℕ)
    → 16 ≤ length block
    → 0 < left
    → scan_sse2 block left ≡ scan block left
unfolding scan_sse2 scan answer
scan_sse2-scan block left h k =
    let c : ℕ = if ltb 10 left then 10 else left in
    let small : c ≤ 10 = ground arith in
    let pos : 0 < c = ground arith in
    let (m, e) = movemask_total 16 block h in
    rw (scan_at block c m pos small e, e, mask_map_lem c small, mask-low_clear c m) (ground arith)
