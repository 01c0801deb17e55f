-- ===== src/Util/Validator/Laws.antt =====
-- The validator reports a required field that was not seen.
use protobluff.Common.{
  ℕ, zero, suc, ◌+◌, ◌-◌, ◌^◌, ◌≤◌, ◌<◌, ◌≡◌, refl, arith, Bool, true, false, not, ◌&&◌, List, [],
  ◌∷◌, some, ◌==◌, if◌then◌else◌, length, drop, ltb, sub_size, sym, ◌∙◌, Bool-cases, inl, inr,
  get_elem?-some, drop_all,
}
use native.Mathlib.Decide.{dec_lt}
use protobluff.Core.Types.{Error, no_error, absent}
use protobluff.Core.Descriptor.{FieldDescriptor, Descriptor, table}
use protobluff.Core.Descriptor.Iterator.{
  iter_create, iter_begin, iter_next, iter_current, descriptor_iter_create, descriptor_size,
  drop-get_elem?,
}
use protobluff.Core.Decoder.{no_failure}
use protobluff.Util.Validator.{has_tag, is_required, field_error, field_rounds, missing_field}

-- What the loop over the fields is for: the first required field without a tag.
abbrev pub first_missing : List ℕ → List FieldDescriptor → Error
first_missing seen [] = no_error
first_missing seen (d ∷ ds) =
    if is_required d.label && not (has_tag d.tag seen) then absent else first_missing seen ds

field_error-first :
    (seen : List ℕ) (d : FieldDescriptor) (ds : List FieldDescriptor)
    → (if no_failure (field_error seen (some d)) && true
        then first_missing seen ds
        else field_error seen (some d))
      ≡ first_missing seen (d ∷ ds)
unfolding field_error
field_error-first seen d ds = elim (Bool-cases (is_required d.label && not (has_tag d.tag seen))) [
  | inl x ↦ rw x refl
  | inr x ↦ rw x refl
]

field_error-last :
    (seen : List ℕ) (d : FieldDescriptor)
    → (if no_failure (field_error seen (some d)) && false
        then no_error
        else field_error seen (some d))
      ≡ first_missing seen (d ∷ [])
unfolding field_error
field_error-last seen d = elim (Bool-cases (is_required d.label && not (has_tag d.tag seen))) [
  | inl x ↦ rw x refl
  | inr x ↦ rw x refl
]

and-false : (b : Bool) (x y : Error) → (if b && false then x else y) ≡ y
and-false true x y = refl
and-false false x y = refl

field_rounds-first :
    (n : ℕ) (seen : List ℕ) (xs : List FieldDescriptor) (i : ℕ)
    → i < length xs
    → length xs < 2 ^ 64
    → length xs - i ≤ n
    → field_rounds n seen (record { items = xs; position = i }) ≡ first_missing seen (drop i xs)
unfolding field_rounds iter_next iter_current
field_rounds-first zero seen xs i h k l = absurd (omega arith)
field_rounds-first (suc n) seen xs i h k l =
    let (d, e) = get_elem?-some xs i h in
    let size : sub_size (length xs) 1 ≡ length xs - 1 = omega arith in
    let split : drop i xs ≡ d ∷ drop (suc i) xs = drop-get_elem? xs i d e in
    elim (dec_lt i (length xs - 1)) [
      | yes p ↦
          let more : ltb i (length xs - 1) ≡ true = ground arith in
          let e' : i + 1 ≡ suc i = omega arith in
          rw
            (
              e,
              size,
              more,
              split,
              e',
              field_rounds-first n seen xs (suc i) (omega arith) k (omega arith),
            )
            (field_error-first seen d (drop (suc i) xs))
      | no p ↦
          let more : ltb i (length xs - 1) ≡ false = ground arith in
          let nothing_left : drop (suc i) xs ≡ [] = drop_all (suc i) xs (omega arith) in
          rw (e, size, more, split, nothing_left)
            (and-false (no_failure (field_error seen (some d))) _ _
              ∙ sym (and-false (no_failure (field_error seen (some d))) no_error _)
              ∙ field_error-last seen d)
    ]

-- The loop over the fields of a descriptor reports PB_ERROR_ABSENT for the first required field, in the order
-- of the descriptor, whose tag was not seen, and PB_ERROR_NONE if there is none.
pub missing_field-first :
    (d : Descriptor) (seen : List ℕ)
    → length (table d).fields < 2 ^ 64
    → missing_field d seen ≡ first_missing seen (table d).fields
unfolding missing_field iter_begin descriptor_iter_create descriptor_size iter_create
missing_field-first d seen k = visit (table d).fields k
  where
    visit :
        (xs : List FieldDescriptor)
        → length xs < 2 ^ 64
        → (if (iter_begin (iter_create xs)).0
            then field_rounds (length xs) seen (iter_begin (iter_create xs)).1
            else no_error)
          ≡ first_missing seen xs
    visit [] k = refl
    visit (x ∷ xs) k =
        let some_left : (length (x ∷ xs) == 0) ≡ false = ground arith in
        rw some_left
          (field_rounds-first (suc (length xs)) seen (x ∷ xs) 0 (omega arith) k (omega arith))
