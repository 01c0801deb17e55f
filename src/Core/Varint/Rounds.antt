-- ===== src/Core/Varint/Rounds.antt =====
-- The unrolled tests of the unpack functions: when they stop, and that they do.
use protobluff.Common.{
  ℕ, zero, suc, ◌+◌, ◌-◌, ◌*◌, ◌^◌, ◌≤◌, ◌<◌, ◌≡◌, refl, ◌∙◌, arith, Bool, true, false, inl, inr,
  Bool-cases, bit_and, bit_or, List, [], ◌∷◌, ◌++◌, ◌==◌, if◌then◌else◌, length, shl, sub_size,
}
use native.Mathlib.Decide.{dec_lt}
use native.Mathlib.Nat.{mod-lt, one-le-pow}
use protobluff.Common.Bits.{bit_or-lt}
use protobluff.Core.Types.{Outcome, ok}
use protobluff.Core.Varint.{Stop, group, unpack_rounds}

-- Of three ways to stop only the last looks further.
last_way :
    (t u : Bool) (x y : Outcome Stop) {r r' : Outcome Stop} {s : Stop}
    → (r ≡ ok s → r' ≡ ok s)
    → (if t then x else if u then y else r) ≡ ok s
    → (if t then x else if u then y else r') ≡ ok s
last_way true u x y f e = e
last_way false true x y f e = e
last_way false false x y f e = f e

-- More bytes behind the block change no answer.
pub rounds_append :
    (w n b : ℕ) (d more : List ℕ) (size left temp : ℕ) {s : Stop}
    → unpack_rounds w n b d size left temp ≡ ok s
    → unpack_rounds w n b (d ++ more) size left temp ≡ ok s
unfolding unpack_rounds
rounds_append w zero b d more size left temp e = e
rounds_append w (suc n) b [] [] size left temp e = e
rounds_append w (suc n) b [] (c ∷ more) size left temp e =
    last_way (bit_and b 0x80 == 0) (sub_size left 1 == 0) _ _ (λ x. cc) e
rounds_append w (suc n) b (c ∷ d) more size left temp e =
    last_way (bit_and b 0x80 == 0) (sub_size left 1 == 0) _ _
      (rounds_append w n c d more (size + 1) (sub_size left 1)
        (bit_or temp (shl w (group n c) (7 * size))))
      e

-- Where the tests stop, started with `size` bytes read and `left` bytes left, the last included.
pub record StopsIn (w n size left : ℕ) (s : Stop) : Type 0 where
  pub read_in : s.read ≤ size + n
  pub fewer : s.left ≤ left
  pub counted : 0 < s.left → s.read + s.left ≡ size + left
  pub fits : s.temp < 2 ^ w

pub inner_step :
    (w n b c : ℕ) (d : List ℕ) (size left temp : ℕ)
    → (bit_and b 0x80 == 0) ≡ false
    → 1 < left
    → left < 2 ^ 64
    → unpack_rounds w (suc n) b (c ∷ d) size left temp
      ≡ unpack_rounds w n c d (size + 1) (left - 1) (bit_or temp (shl w (group n c) (7 * size)))
unfolding unpack_rounds
inner_step w n b c d size left temp e h k =
    let less : sub_size left 1 ≡ left - 1 = omega arith in rw (e, less) (ground arith)

pub rounds_total :
    (w n b : ℕ) (d : List ℕ) (size left temp : ℕ)
    → 0 < left
    → left < 2 ^ 64
    → left ≤ suc (length d)
    → temp < 2 ^ w
    → (s : Stop) × (unpack_rounds w n b d size left temp ≡ ok s) × StopsIn w n size left s
unfolding unpack_rounds
rounds_total w zero b d size left temp h k l f =
    (record { last = b; read = size; left = left; temp = temp }, refl, omega arith)
rounds_total w (suc n) b [] size left temp h k l f = elim (Bool-cases (bit_and b 0x80 == 0)) [
  | inl e ↦ (record { last = b; read = size; left = left; temp = temp }, rw e, omega arith)
  | inr e ↦
      let none_left : sub_size left 1 ≡ 0 = omega arith in
      (record { last = b; read = size; left = 0; temp = temp }, rw (e, none_left), omega arith)
]
rounds_total w (suc n) b (c ∷ d) size left temp h k l f = elim (Bool-cases (bit_and b 0x80 == 0)) [
  | inl e ↦ (record { last = b; read = size; left = left; temp = temp }, rw e, omega arith)
  | inr e ↦ elim (dec_lt 1 left) [
    | yes p ↦
        let temp' = bit_or temp (shl w (group n c) (7 * size)) in
        let fits : temp' < 2 ^ w =
          bit_or-lt w temp _ f
            (mod-lt (group n c * 2 ^ (7 * size)) {m = 2 ^ w} (one-le-pow w 2 (omega arith))) in
        let (s, eq, v) =
          rounds_total w n c d (size + 1) (left - 1) temp' (omega arith) (omega arith) (omega arith)
            fits in
        (s, inner_step w n b c d size left temp e p k ∙ eq, omega arith)
    | no p ↦
        let none_left : sub_size left 1 ≡ 0 = omega arith in
        (record { last = b; read = size; left = 0; temp = temp }, rw (e, none_left), omega arith)
  ]
]
