-- ===== src/Core/Text.antt =====
-- include/protobluff/core/string.h: strings with a size, and memcmp.
use protobluff.Common.{
  ℕ, ◌+◌, ◌≤◌, ◌≡◌, refl, ap, arith, Bool, true, false, ◌&&◌, List, [], ◌∷◌, ◌++◌, ltb, ◌==◌,
  length, take, length-append, take-append_self, take_all,
}
use protobluff.Core.Types.{Outcome, ok, ◌>>=◌}
use protobluff.Core.Memory.{load}

-- `pb_string_t`: the memory at `data`, and the size.
pub record Text : Type 0 where
  pub memory : List ℕ
  pub size : ℕ

unfoldable pub text_init : List ℕ → ℕ → Text
text_init memory size = record { memory = memory; size = size }

unfoldable pub text_init_empty : Text
unfolding text_init
text_init_empty = text_init [] 0

unfoldable pub text_empty : Text → Bool
text_empty t = t.size == 0

-- Whether two blocks are the same.
abbrev pub same_bytes : List ℕ → List ℕ → Bool
same_bytes [] [] = true
same_bytes [] (y ∷ ys) = false
same_bytes (x ∷ xs) [] = false
same_bytes (x ∷ xs) (y ∷ ys) = (x == y) && same_bytes xs ys

-- `!memcmp(p, q, n)`.
unfoldable pub equal_memory : List ℕ → List ℕ → ℕ → Outcome Bool
equal_memory p q n = do x ← load p 0 n; y ← load q 0 n; ok (same_bytes x y)

-- `pb_string_equals`: the size of the first is not read.
unfoldable pub text_equals : Text → Text → Outcome Bool
unfolding equal_memory
text_equals x y = equal_memory x.memory y.memory y.size

same_bytes_refl : (xs : List ℕ) → same_bytes xs xs ≡ true
same_bytes_refl [] = refl
same_bytes_refl (x ∷ xs) = ground (arith, same_bytes_refl xs)

loaded : (block : List ℕ) (n : ℕ) → n ≤ length block → load block 0 n ≡ ok (take n block)
unfolding load
loaded block n h = let within : ltb (length block) (0 + n) ≡ false = ground arith in rw within refl

-- A string that begins with another one is the same to `pb_string_equals`, whatever comes behind it.
pub text_equals-prefix :
    (xs more : List ℕ)
    → text_equals
        (record { memory = xs ++ more; size = length xs + length more })
        (record { memory = xs; size = length xs })
      ≡ ok true
unfolding text_equals equal_memory
text_equals-prefix xs more =
    let longer : length xs ≤ length (xs ++ more) = omega (arith, length-append xs more) in
    rw
      (
        loaded (xs ++ more) (length xs) longer,
        loaded xs (length xs) (omega arith),
        take-append_self xs more,
        take_all (length xs) xs refl,
      )
      (ap ok (same_bytes_refl xs))
