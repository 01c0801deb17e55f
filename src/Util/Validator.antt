-- ===== src/Util/Validator.antt =====
-- src/util/validator.c: checking that a message and its submessages can be decoded and have their required
-- fields. The handler cannot fault, so what goes wrong in it is carried by the state behind `user`. `schema`
-- is the memory that holds the nested descriptors; the fuel bounds the depth of submessages.
pub mod Laws
use protobluff.Common.{
  ℕ, zero, suc, ◌+◌, Bool, true, false, not, ◌&&◌, List, [], ◌∷◌, ◌++◌, Option, none, some, ◌==◌,
  leb, if◌then◌else◌, length,
}
use protobluff.Core.Types.{
  Error, no_error, invalid, absent, Label, required, undefined_label, optional, repeated, oneof,
  Outcome, ok, err,
}
use protobluff.Core.Buffer.{Buffer, valid}
use protobluff.Core.Descriptor.{FieldDescriptor, Descriptor, is_message}
use protobluff.Core.Descriptor.Iterator.{
  Iterator, iter_begin, iter_next, iter_current, descriptor_iter_create, descriptor_size,
}
use protobluff.Core.Decoder.{
  Decoder, create_decoder, Decoded, value, decoder, Handler, no_failure, decode,
}
use protobluff.Message.Run.{Run, done, fault, out_of_fuel, on_done}

-- `pb_validator_tags_t`: `room` tags fit at `data`. `trouble` is not `done` once the behaviour is undefined.
pub record Tags : Type 0 where
  pub room : ℕ
  pub seen : List ℕ
  pub trouble : Run (Unit {0})

abbrev pub has_tag : ℕ → List ℕ → Bool
has_tag tag [] = false
has_tag tag (t ∷ ts) = if t == tag then true else has_tag tag ts

-- A tag that was missed so far is stored behind the others; the room is not checked.
unfoldable pub count_tag : Tags → ℕ → Tags
count_tag u tag =
    if has_tag tag u.seen
    then u
    else if leb u.room (length u.seen)
    then record u { trouble = fault }
    else record u { seen = u.seen ++ (tag ∷ []) }

-- The answer of the check of a submessage.
unfoldable pub checked : Tags → Run Error → Error × Tags
checked u (done e) = (e, u)
checked u fault = (invalid, record u { trouble = fault })
checked u out_of_fuel = (invalid, record u { trouble = out_of_fuel })

unfoldable pub check_value : (ℕ → Buffer → Run Error) → Decoded → Tags → Error × Tags
unfolding checked
check_value nested (decoder refer b) u = checked u (nested refer b)
check_value nested (value v) u = (invalid, record u { trouble = fault })

unfoldable pub after_count :
    (ℕ → Buffer → Run Error) → FieldDescriptor → Decoded → Run (Unit {0}) → Tags → Error × Tags
unfolding check_value
after_count nested d v (done x) u =
    if is_message d.type then check_value nested v u else (no_error, u)
after_count nested d v fault u = (invalid, u)
after_count nested d v out_of_fuel u = (invalid, u)

-- `handler`; `nested` checks a submessage.
unfoldable pub handler : (ℕ → Buffer → Run Error) → Handler Tags
unfolding count_tag after_count
handler nested d v u = after_count nested d v (count_tag u d.tag).trouble (count_tag u d.tag)

abbrev pub is_required : Label → Bool
is_required required = true
is_required _ = false

-- A round of the loop over the fields of the descriptor.
unfoldable pub field_error : List ℕ → Option FieldDescriptor → Error
field_error seen none = no_error
field_error seen (some d) =
    if is_required d.label && not (has_tag d.tag seen) then absent else no_error

-- `do … while (!error && pb_descriptor_iter_next(&it))`.
unfoldable pub field_rounds : ℕ → List ℕ → Iterator FieldDescriptor → Error
unfolding field_error iter_next iter_current
field_rounds zero seen it = no_error
field_rounds (suc n) seen it =
    let rest = field_rounds n seen (iter_next it).1 in
    let e = field_error seen (iter_current it) in
    if no_failure e && (iter_next it).0 then rest else e

unfoldable pub missing_field : Descriptor → List ℕ → Error
unfolding field_rounds iter_begin descriptor_iter_create descriptor_size
missing_field d seen =
    let (some_field, it) = iter_begin (descriptor_iter_create d) in
    if some_field then field_rounds (descriptor_size d) seen it else no_error

-- `check` behind the decoding.
unfoldable pub check_fields : Descriptor → Error → Tags → Run (Unit {0}) → Run Error
unfolding missing_field
check_fields d no_error u (done x) = done (missing_field d u.seen)
check_fields d e u (done x) = done e
check_fields d e u fault = fault
check_fields d e u out_of_fuel = out_of_fuel

unfoldable pub check_decoded : Descriptor → Outcome (Error × Tags) → Run Error
unfolding check_fields
check_decoded d (ok (e, u)) = check_fields d e u u.trouble
check_decoded d (err e) = fault
check_decoded d Outcome.fault = fault

module _ (schema : ℕ → Descriptor) where
  unfoldable pub check : ℕ → Descriptor → Buffer → Run Error
  unfolding check_decoded handler
  check zero d b = out_of_fuel
  check (suc fuel) d b =
      let nested = λ (refer : ℕ) (inner : Buffer). check fuel (schema refer) inner in
      check_decoded d (
        decode (handler nested) (create_decoder d b)
          (record { room = descriptor_size d; seen = []; trouble = done tt }))

  unfoldable pub validator_check : Descriptor → Buffer → Run Error
  unfolding check
  validator_check d b = if valid b then check (b.size + 1) d b else done invalid
