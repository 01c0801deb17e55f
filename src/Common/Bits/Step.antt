-- ===== src/Common/Bits/Step.antt =====
-- One binary digit of `&`, `|` and `^`: the library's recursion has fuel, which is shown not to matter.
use Prim.Native.Nat.{
  ℕ, zero, suc, ◌+◌, ◌-◌, ◌*◌, ◌/◌, ◌%◌, ◌≤◌, ◌<◌, min, max, differ, digits, bitwise, bit_and,
  bit_or, bit_xor, bit_and-bitwise, bit_or-bitwise, bit_xor-bitwise,
}
use mathlib.Core.Path.{◌≡◌, refl, ap, ◌∙◌}
use native.Mathlib.Omega.{arith}

module _ (base : ℕ → ℕ) (digit : ℕ → ℕ → ℕ) where
  -- Fuel that is at least the first number may be one more.
  one_more :
      (fuel a b : ℕ) → a ≤ fuel → digits base digit (suc fuel) a b ≡ digits base digit fuel a b
  one_more zero zero b h = refl
  one_more zero (suc a) b h = absurd (omega arith)
  one_more (suc fuel) zero b h = refl
  one_more (suc fuel) (suc a) b h = rw (one_more fuel (suc a / 2) (b / 2) (omega arith)) refl

  enough : (extra a b : ℕ) → digits base digit (extra + a) a b ≡ bitwise base digit a b
  enough zero a b = ap (λ fuel. digits base digit fuel a b) (omega arith)
  enough (suc extra) a b =
      let e : suc extra + a ≡ suc (extra + a) = omega arith in
      ap (λ fuel. digits base digit fuel a b) e
      ∙ (one_more (extra + a) a b (omega arith) ∙ enough extra a b)

  -- Where the base case agrees, the operation is one on the halves and one on the last digits.
  halves :
      ((b : ℕ) → base b ≡ base (b / 2) * 2 + digit 0 (b % 2))
      → (a b : ℕ)
      → bitwise base digit a b ≡ bitwise base digit (a / 2) (b / 2) * 2 + digit (a % 2) (b % 2)
  halves agree zero b = agree b
  halves agree (suc a) b =
      let h = suc a / 2 in
      let e : a - h + h ≡ a = omega arith in
      let rest : digits base digit a h (b / 2) ≡ bitwise base digit h (b / 2) =
        ap (λ fuel. digits base digit fuel h (b / 2)) (omega arith) ∙ enough (a - h) h (b / 2) in
      ap (λ t. t * 2 + digit (suc a % 2) (b % 2)) rest

pub bit_and_step : (a b : ℕ) → bit_and a b ≡ bit_and (a / 2) (b / 2) * 2 + min (a % 2) (b % 2)
bit_and_step a b = simp bit_and-bitwise (halves (λ y. 0) min (λ y. omega arith) a b)

pub bit_or_step : (a b : ℕ) → bit_or a b ≡ bit_or (a / 2) (b / 2) * 2 + max (a % 2) (b % 2)
bit_or_step a b = simp bit_or-bitwise (halves (λ y. y) max (λ y. omega arith) a b)

-- Two digits differ if their sum is odd.
differ_lem : (x y : ℕ) → x < 2 → y < 2 → differ x y ≡ (x + y) % 2
differ_lem zero y h k = omega arith
differ_lem (suc zero) zero h k = refl
differ_lem (suc zero) (suc zero) h k = refl
differ_lem (suc zero) (suc (suc y)) h k = absurd (omega arith)
differ_lem (suc (suc x)) y h k = absurd (omega arith)

pub bit_xor_step : (a b : ℕ) → bit_xor a b ≡ bit_xor (a / 2) (b / 2) * 2 + (a % 2 + b % 2) % 2
bit_xor_step a b = simp bit_xor-bitwise (
    halves (λ y. y) differ (λ y. omega arith) a b
    ∙ ap (λ t. bitwise (λ y. y) differ (a / 2) (b / 2) * 2 + t)
        (differ_lem (a % 2) (b % 2) (omega arith) (omega arith)))
