-- ===== src/Common/Bits.antt =====
-- Masks, disjoint `|` and complements as arithmetic, at every width.
mod Step
use Step.{bit_or_step, bit_and_step, bit_xor_step}
use Prim.Native.Nat.{ℕ, zero, suc, ◌+◌, ◌-◌, ◌*◌, ◌/◌, ◌%◌, ◌^◌, ◌≤◌, ◌<◌, bit_and, bit_or, bit_xor}
use Prim.Native.Nat.{bit_or-bitwise, bit_xor-bitwise}
use mathlib.Core.Path.{◌≡◌, refl, ap, ◌∙◌}
use native.Mathlib.Nat.{pow-suc, one-le-pow, add-mul-div_left, add-mul-mod_self_left}
use native.Mathlib.Nat.{div-eq_of_lt, mod-eq_of_lt, mod-lt, div-add-mod}
use native.Mathlib.Decide.{dec_lt}
use native.Mathlib.Omega.{arith}

-- The operations with 0, for numbers up to `n`.
with_zero : (n a : ℕ) → a ≤ n → (bit_or a 0 ≡ a) × ((bit_and a 0 ≡ 0) × (bit_xor a 0 ≡ a))
with_zero zero zero h = (refl, (refl, bit_xor-bitwise 0 0))
with_zero zero (suc a) h = absurd (omega arith)
with_zero (suc n) a h = elim (dec_lt 0 a) [
  | yes p ↦
      let (o, (i, x)) = with_zero n (a / 2) (omega arith) in
      (
        omega (arith, bit_or_step a 0, o),
        (omega (arith, bit_and_step a 0, i), omega (arith, bit_xor_step a 0, x)),
      )
  | no p ↦ with_zero n a (omega arith)
]

bit_or-zero : (a : ℕ) → bit_or a 0 ≡ a
bit_or-zero a = (with_zero a a (omega arith)).0

pub bit_xor-zero : (a : ℕ) → bit_xor a 0 ≡ a
bit_xor-zero a = (with_zero a a (omega arith)).1.1

zero-bit_or : (b : ℕ) → bit_or 0 b ≡ b
zero-bit_or b = bit_or-bitwise 0 b

-- Shifting by one place more.
place : (k q : ℕ) → q * 2 ^ suc k ≡ q * 2 ^ k * 2
place k q = omega (arith, ap (λ p. q * p) (pow-suc 2 k))

-- `a | (q << k)` is a sum when `a` fits `k` bits.
pub bit_or_disjoint : (k a q : ℕ) → a < 2 ^ k → bit_or a (q * 2 ^ k) ≡ a + q * 2 ^ k
bit_or_disjoint zero zero q h = omega (arith, zero-bit_or (q * 2 ^ 0))
bit_or_disjoint zero (suc a) q h = absurd (omega arith)
bit_or_disjoint (suc k) a q h = ground (
  arith,
  bit_or_step a (q * 2 ^ suc k),
  place k q,
  pow-suc 2 k,
  bit_or_disjoint k (a / 2) q (omega (arith, pow-suc 2 k)),
)

-- Quotient and remainder are determined by what they make up.
pub div_unique : (n q r d : ℕ) → n ≡ r + d * q → r < d → (n / d ≡ q) × (n % d ≡ r)
div_unique n q r d e h = (
  rw e (add-mul-div_left r q (omega arith) ∙ omega (arith, div-eq_of_lt h)),
  rw e (add-mul-mod_self_left r d q ∙ mod-eq_of_lt h),
)

halve : (a k : ℕ) → (a / 2 ^ suc k ≡ a / 2 / 2 ^ k) × (a % 2 ^ suc k ≡ 2 * (a / 2 % 2 ^ k) + a % 2)
halve a k =
    div_unique a (a / 2 / 2 ^ k) (2 * (a / 2 % 2 ^ k) + a % 2) (2 ^ suc k) split
      (omega (arith, pow-suc 2 k, mod-lt (a / 2) {m = 2 ^ k} (one-le-pow k 2 (omega arith))))
  where
    split : a ≡ 2 * (a / 2 % 2 ^ k) + a % 2 + 2 ^ suc k * (a / 2 / 2 ^ k)
    split =
        omega
          (arith, div-add-mod (a / 2) (2 ^ k), ap (λ (t : ℕ). t * (a / 2 / 2 ^ k)) (pow-suc 2 k))

div-two-pow-suc : (a k : ℕ) → a / 2 ^ suc k ≡ a / 2 / 2 ^ k
div-two-pow-suc a k = (halve a k).0

pub mod-two-pow-suc : (a k : ℕ) → a % 2 ^ suc k ≡ 2 * (a / 2 % 2 ^ k) + a % 2
mod-two-pow-suc a k = (halve a k).1

-- A mask of `k` low bits takes the remainder by `2 ^ k`.
pub bit_and_mask : (k a : ℕ) → bit_and a (2 ^ k - 1) ≡ a % 2 ^ k
bit_and_mask zero a = omega (arith, (with_zero a a (omega arith)).1.0)
bit_and_mask (suc k) a = ground (
  arith,
  bit_and_step a (2 ^ suc k - 1),
  pow-suc 2 k,
  one-le-pow k 2,
  mod-two-pow-suc a k,
  bit_and_mask k (a / 2),
)

-- A mask with `k` low zeros acts on the bits from `k` on.
pub bit_and_shifted : (k a m : ℕ) → bit_and a (m * 2 ^ k) ≡ bit_and (a / 2 ^ k) m * 2 ^ k
bit_and_shifted zero a m = ground arith
bit_and_shifted (suc k) a m = ground (
  arith,
  bit_and_step a (m * 2 ^ suc k),
  place k m,
  place k (bit_and (a / 2 ^ suc k) m),
  div-two-pow-suc a k,
  bit_and_shifted k (a / 2) m,
)

pub bit_or_shifted : (k a m : ℕ) → bit_or a (m * 2 ^ k) ≡ bit_or (a / 2 ^ k) m * 2 ^ k + a % 2 ^ k
bit_or_shifted zero a m = ground arith
bit_or_shifted (suc k) a m = ground (
  arith,
  bit_or_step a (m * 2 ^ suc k),
  place k m,
  place k (bit_or (a / 2 ^ suc k) m),
  div-two-pow-suc a k,
  mod-two-pow-suc a k,
  bit_or_shifted k (a / 2) m,
)

pub bit_or-one : (a : ℕ) → bit_or a 1 ≡ a / 2 * 2 + 1
bit_or-one a = omega (arith, bit_or_step a 1, bit_or-zero (a / 2))

-- `a ^ (2 ^ k - 1)` is the complement in `k` bits.
pub bit_xor_ones : (k a : ℕ) → a < 2 ^ k → bit_xor a (2 ^ k - 1) ≡ 2 ^ k - 1 - a
bit_xor_ones zero zero h = bit_xor-bitwise 0 0
bit_xor_ones zero (suc a) h = absurd (omega arith)
bit_xor_ones (suc k) a h = ground (
  arith,
  bit_xor_step a (2 ^ suc k - 1),
  pow-suc 2 k,
  bit_xor_ones k (a / 2) (omega (arith, pow-suc 2 k)),
)

pub bit_or-lt : (k a b : ℕ) → a < 2 ^ k → b < 2 ^ k → bit_or a b < 2 ^ k
bit_or-lt zero zero b h l = omega (arith, zero-bit_or b)
bit_or-lt zero (suc a) b h l = absurd (omega arith)
bit_or-lt (suc k) a b h l = omega (
  arith,
  bit_or_step a b,
  pow-suc 2 k,
  bit_or-lt k (a / 2) (b / 2) (omega (arith, pow-suc 2 k)) (omega (arith, pow-suc 2 k)),
)

pub bit_xor-lt : (k a b : ℕ) → a < 2 ^ k → b < 2 ^ k → bit_xor a b < 2 ^ k
bit_xor-lt zero zero zero h l = omega (arith, bit_xor-zero 0)
bit_xor-lt zero zero (suc b) h l = absurd (omega arith)
bit_xor-lt zero (suc a) b h l = absurd (omega arith)
bit_xor-lt (suc k) a b h l = omega (
  arith,
  bit_xor_step a b,
  pow-suc 2 k,
  bit_xor-lt k (a / 2) (b / 2) (omega (arith, pow-suc 2 k)) (omega (arith, pow-suc 2 k)),
)

pub bit_or_low : (t w : ℕ) → w < 8 → bit_or (8 * t) w ≡ 8 * t + w
bit_or_low t w h = ground (
  arith,
  bit_or_step (8 * t) w,
  bit_or_step (4 * t) (w / 2),
  bit_or_step (2 * t) (w / 4),
  bit_or-zero t,
)
