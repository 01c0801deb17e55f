-- ===== src/Core/Descriptor/Iterator.antt =====
-- The iterators of include/protobluff/core/descriptor.h over the fields of a descriptor and over the values
-- of an enum. An iterator holds the items that its descriptor leads to and a position; a call answers
-- its test result with the iterator.
use protobluff.Common.{
  ℕ, zero, suc, ◌+◌, ◌-◌, ◌^◌, ◌≤◌, ◌<◌, ◌≡◌, refl, sym, ap, ◌∙◌, arith, drop_all, Bool, true,
  false, not, Option, none, some, List, [], ◌∷◌, ◌++◌, take, take_all, ltb, ◌==◌, if◌then◌else◌,
  length, drop, get_elem?, get_elem?-some, sub_size,
}
use mathlib.Core.List.{reverse, reverse-cons}
use native.Mathlib.Decide.{dec_lt}
use protobluff.Core.Descriptor.{FieldDescriptor, EnumValue, Descriptor, table}

pub record Iterator (A : Type 0) : Type 0 where
  pub items : List A
  pub position : ℕ

module _ {A : Type 0} where
  -- SIZE_MAX is no position.
  unfoldable pub iter_create : List A → Iterator A
  iter_create items = record { items = items; position = 2 ^ 64 - 1 }

  unfoldable pub iter_begin : Iterator A → Bool × Iterator A
  iter_begin it = if length it.items == 0 then (false, it) else (true, record it { position = 0 })

  -- `!!(it->pos = size - 1)`: the test result is the position's.
  unfoldable pub iter_end : Iterator A → Bool × Iterator A
  iter_end it =
      if length it.items == 0
      then (false, it)
      else (not (length it.items - 1 == 0), record it { position = length it.items - 1 })

  -- `it->pos > 0 ? !!(it->pos--) : 0`.
  unfoldable pub iter_prev : Iterator A → Bool × Iterator A
  iter_prev it =
      if ltb 0 it.position then (true, record it { position = it.position - 1 }) else (false, it)

  -- `it->pos < size - 1 ? !!(++it->pos) : 0`.
  unfoldable pub iter_next : Iterator A → Bool × Iterator A
  iter_next it =
      if ltb it.position (sub_size (length it.items) 1)
      then (true, record it { position = it.position + 1 })
      else (false, it)

  -- `&(data[it->pos])`.
  unfoldable pub iter_current : Iterator A → Option A
  iter_current it = get_elem? it.items it.position

  unfoldable sees : Option A → List A → List A
  sees none rest = rest
  sees (some x) rest = x ∷ rest

  -- The loop `do { … } while (iter_next(&it))`, for at most `n` rounds: the items it sees.
  unfoldable pub iter_forward : ℕ → Iterator A → List A
  unfolding iter_next iter_current sees
  iter_forward zero it = []
  iter_forward (suc n) it =
      let rest = iter_forward n (iter_next it).1 in
      let seen = if (iter_next it).0 then rest else [] in sees (iter_current it) seen

  pub drop-get_elem? :
      (xs : List A) (i : ℕ) (x : A) → get_elem? xs i ≡ some x → drop i xs ≡ x ∷ drop (suc i) xs
  drop-get_elem? [] i x e = cc
  drop-get_elem? (y ∷ ys) zero x e = let same : y ≡ x = cc in ap (λ z. z ∷ ys) same
  drop-get_elem? (y ∷ ys) (suc i) x e = drop-get_elem? ys i x e

  iter_forward-drop :
      (n : ℕ) (xs : List A) (i : ℕ)
      → i < length xs
      → length xs < 2 ^ 64
      → length xs - i ≤ n
      → iter_forward n (record { items = xs; position = i }) ≡ drop i xs
  unfolding iter_forward iter_next iter_current sees
  iter_forward-drop zero xs i h k l = absurd (omega arith)
  iter_forward-drop (suc n) xs i h k l =
      let (x, e) = get_elem?-some xs i h in
      let size : sub_size (length xs) 1 ≡ length xs - 1 = omega arith in
      elim (dec_lt i (length xs - 1)) [
        | yes p ↦
            let more : ltb i (length xs - 1) ≡ true = ground arith in
            let e' : i + 1 ≡ suc i = omega arith in
            rw (e, size, more, e')
              (ap (λ r. x ∷ r) (iter_forward-drop n xs (suc i) (omega arith) k (omega arith))
                ∙ sym (drop-get_elem? xs i x e))
        | no p ↦
            let more : ltb i (length xs - 1) ≡ false = ground arith in
            rw (e, size, more)
              (ap (λ r. x ∷ r) (sym (drop_all (suc i) xs (omega arith)))
                ∙ sym (drop-get_elem? xs i x e))
      ]

  -- From `iter_begin`, the loop sees every item once and in order, in as many rounds as there are items; and
  -- `iter_begin` fails only if there are none.
  pub iter_begin-forward :
      (it : Iterator A)
      → length it.items < 2 ^ 64
      → (if (iter_begin it).0 then iter_forward (length it.items) (iter_begin it).1 else [])
        ≡ it.items
  unfolding iter_begin
  iter_begin-forward it k = visit it.items it.position k
    where
      visit :
          (xs : List A) (i : ℕ)
          → length xs < 2 ^ 64
          → (if (iter_begin (record { items = xs; position = i })).0
              then iter_forward (length xs) (iter_begin (record { items = xs; position = i })).1
              else [])
            ≡ xs
      visit [] i k = refl
      visit (x ∷ xs) i k =
          let some_left : (length (x ∷ xs) == 0) ≡ false = ground arith in
          rw some_left
            (iter_forward-drop (suc (length xs)) (x ∷ xs) 0 (omega arith) k (omega arith))

  -- The loop `do { … } while (iter_prev(&it))`.
  unfoldable pub iter_backward : ℕ → Iterator A → List A
  unfolding iter_prev iter_current sees
  iter_backward zero it = []
  iter_backward (suc n) it =
      let rest = iter_backward n (iter_prev it).1 in
      let seen = if (iter_prev it).0 then rest else [] in sees (iter_current it) seen

  reverse-take :
      (xs : List A) (i : ℕ) (x : A)
      → get_elem? xs i ≡ some x
      → reverse (take (suc i) xs) ≡ x ∷ reverse (take i xs)
  reverse-take [] i x e = cc
  reverse-take (y ∷ ys) zero x e = let same : y ≡ x = cc in ap (λ z. z ∷ []) same
  reverse-take (y ∷ ys) (suc i) x e =
      reverse-cons y (take (suc i) ys)
      ∙ (ap (λ r. r ++ (y ∷ [])) (reverse-take ys i x e)
          ∙ ap (λ r. x ∷ r) (sym (reverse-cons y (take i ys))))

  iter_backward-take :
      (n : ℕ) (xs : List A) (i : ℕ)
      → i < length xs
      → i < n
      → iter_backward n (record { items = xs; position = i }) ≡ reverse (take (suc i) xs)
  unfolding iter_backward iter_prev iter_current sees
  iter_backward-take zero xs i h k = absurd (omega arith)
  iter_backward-take (suc n) xs zero h k =
      let (x, e) = get_elem?-some xs zero h in rw e (sym (reverse-take xs zero x e))
  iter_backward-take (suc n) xs (suc i) h k =
      let (x, e) = get_elem?-some xs (suc i) h in
      let before : suc i - 1 ≡ i = omega arith in
      let some_before : ltb 0 (suc i) ≡ true = ground arith in
      rw (e, some_before, before)
        (ap (λ r. x ∷ r) (iter_backward-take n xs i (omega arith) (omega arith))
          ∙ sym (reverse-take xs (suc i) x e))

  -- From `iter_end`, a backward loop in as many rounds as there are items sees every item once, from the last
  -- to the first; but it sees none if there is exactly one, since the test result of `iter_end` is the
  -- position.
  pub iter_end-backward :
      (it : Iterator A)
      → (if (iter_end it).0 then iter_backward (length it.items) (iter_end it).1 else [])
        ≡ (if length it.items == 1 then [] else reverse it.items)
  unfolding iter_end
  iter_end-backward it = visit it.items it.position
    where
      visit :
          (xs : List A) (i : ℕ)
          → (if (iter_end (record { items = xs; position = i })).0
              then iter_backward (length xs) (iter_end (record { items = xs; position = i })).1
              else [])
            ≡ (if length xs == 1 then [] else reverse xs)
      visit [] i = refl
      visit (x ∷ []) i = refl
      visit (x ∷ y ∷ xs) i =
          let some_items : (length (x ∷ y ∷ xs) == 0) ≡ false = ground arith in
          let several : (length (x ∷ y ∷ xs) == 1) ≡ false = ground arith in
          let later : (length (x ∷ y ∷ xs) - 1 == 0) ≡ false = ground arith in
          rw (some_items, several, later)
            (iter_backward-take (length (x ∷ y ∷ xs)) (x ∷ y ∷ xs) (length (x ∷ y ∷ xs) - 1)
                (omega arith) (omega arith)
              ∙ ap reverse (take_all (suc (length (x ∷ y ∷ xs) - 1)) (x ∷ y ∷ xs) (omega arith)))

-- `pb_descriptor_size`, which leaves the extensions out, and `pb_descriptor_empty`.
unfoldable pub descriptor_size : Descriptor → ℕ
descriptor_size d = length (table d).fields

unfoldable pub descriptor_empty : Descriptor → Bool
unfolding descriptor_size
descriptor_empty d = descriptor_size d == 0

-- The iterators of the two kinds of descriptor.
unfoldable pub descriptor_iter_create : Descriptor → Iterator FieldDescriptor
unfolding iter_create
descriptor_iter_create d = iter_create (table d).fields

unfoldable pub enum_iter_create : List EnumValue → Iterator EnumValue
unfolding iter_create
enum_iter_create values = iter_create values

unfoldable pub enum_iter_begin : Iterator EnumValue → Bool × Iterator EnumValue
unfolding iter_begin
enum_iter_begin it = iter_begin it

unfoldable pub enum_iter_end : Iterator EnumValue → Bool × Iterator EnumValue
unfolding iter_end
enum_iter_end it = iter_end it

unfoldable pub enum_iter_prev : Iterator EnumValue → Bool × Iterator EnumValue
unfolding iter_prev
enum_iter_prev it = iter_prev it

unfoldable pub enum_iter_next : Iterator EnumValue → Bool × Iterator EnumValue
unfolding iter_next
enum_iter_next it = iter_next it

unfoldable pub enum_iter_current : Iterator EnumValue → Option EnumValue
unfolding iter_current
enum_iter_current it = iter_current it
