-- ===== src/Core/Examples.antt =====
-- Runs of the varint functions and of the descriptors at concrete inputs.
mod Coding
use protobluff.Common.{
  ℕ, ◌+◌, ◌-◌, ◌^◌, ◌≤◌, ◌<◌, ◌≡◌, refl, arith, none, List, [], ◌∷◌, ◌++◌, length,
}
use protobluff.Core.Types.{
  Outcome, ok, err, fault, ◌>>=◌, FieldType, uint32, int32, sint32, string, optional, repeated,
}
use protobluff.Core.Varint
use protobluff.Core.Varint.Base128.{base128, sign_extend, pack_int32-sign_extend}
use protobluff.Core.Varint.Types.{unpack-pack}
use protobluff.Core.Varint.Bounds.{room, Fits, pack-Fits}
use protobluff.Core.Text.{text_equals, text_equals-prefix}
use protobluff.Core.Varint.Size.{size-pack}
use protobluff.Core.Varint.Scan.{scan_sse2-scan}
use protobluff.Core.Varint.Safety.{ReadsWithin, unpack_safe, unpack_int32-fault}
use protobluff.Core.Encoder.Wire.{wire_scalar, pack-wire_scalar}
use protobluff.Core.Descriptor.{
  FieldDescriptor, nothing, Descriptor, Table, last, extended, EnumValue, field_by_tag, extend,
  value_by_number,
}
use protobluff.Core.Descriptor.Search.{
  IsSorted, find, or_else, all_fields, field_by_tag-find, field_by_tag-extend, extend_twice,
}
use protobluff.Core.Descriptor.Iterator.{
  Iterator, iter_begin, iter_end, iter_backward, iter_end-backward,
}
use protobluff.Common.{Bool, true, false, if◌then◌else◌}
use protobluff.Core.Descriptor.Enum.{value_by_number-negative}

-- 300 as an sint32 and as a uint32.
pack_300 : Varint.pack sint32 300 ≡ ok (0xD8 ∷ 0x04 ∷ [])
unfolding wire_scalar base128
pack_300 = pack-wire_scalar sint32 300 (omega arith)

unpack-pack_example : Varint.unpack sint32 (0xD8 ∷ 0x04 ∷ 0x07 ∷ []) 3 ≡ ok (2, 300)
unpack-pack_example =
    unpack-pack sint32 300 (0xD8 ∷ 0x04 ∷ []) (0x07 ∷ []) 3 (omega arith) pack_300 (omega arith)
      (omega arith)

size-pack_example : Varint.size uint32 300 ≡ (Varint.pack uint32 300 >>= λ p. ok (length p))
size-pack_example = size-pack uint32 300 (omega arith)

pack-wire_scalar_example : Varint.pack int32 (2 ^ 32 - 1) ≡ ok (wire_scalar int32 (2 ^ 32 - 1))
pack-wire_scalar_example = pack-wire_scalar int32 (2 ^ 32 - 1) (omega arith)

abbrev sixteen : List ℕ
sixteen = 0xAC ∷ 0x02 ∷ 0 ∷ 0 ∷ 0 ∷ 0 ∷ 0 ∷ 0 ∷ 0 ∷ 0 ∷ 0 ∷ 0 ∷ 0 ∷ 0 ∷ 0 ∷ 0 ∷ []

scan_sse2-scan_example : Varint.scan_sse2 sixteen 16 ≡ Varint.scan sixteen 16
scan_sse2-scan_example = scan_sse2-scan sixteen 16 (omega arith) (omega arith)

unpack_safe_example : ReadsWithin (Varint.unpack uint32) 10 (λ v. v < 2 ^ 32) (0xAC ∷ 0x02 ∷ []) 2
unpack_safe_example =
    unpack_safe uint32 (0xAC ∷ 0x02 ∷ []) 2 tt (omega arith) (omega arith) (omega arith)

unpack_int32-fault_example : Varint.unpack_int32 (0xFF ∷ 0xFF ∷ []) 2 ≡ fault
unpack_int32-fault_example =
    unpack_int32-fault (0xFF ∷ 0xFF ∷ []) 2
      ((omega arith, omega arith), ((omega arith, omega arith), tt)) (omega arith) (omega arith)
      (omega arith)

-- Descriptors.
abbrev id_field : FieldDescriptor
id_field = record {
  tag = 1;
  type = uint32;
  label = optional;
  refer = 0;
  value = nothing;
  flags = 0;
}

abbrev values_field : FieldDescriptor
values_field = record {
  tag = 3;
  type = sint32;
  label = repeated;
  refer = 0;
  value = nothing;
  flags = 1;
}

abbrev person : Descriptor
person = last (record { address = 100; fields = id_field ∷ values_field ∷ [] })

abbrev extra_field : FieldDescriptor
extra_field = record {
  tag = 7;
  type = string;
  label = optional;
  refer = 0;
  value = nothing;
  flags = 0;
}

abbrev extra : Descriptor
extra = last (record { address = 200; fields = extra_field ∷ [] })

person-IsSorted : IsSorted person
person-IsSorted = (omega arith, (omega arith, tt))

extra-IsSorted : IsSorted extra
extra-IsSorted = (omega arith, tt)

field_by_tag-find_example : field_by_tag person 3 ≡ find (all_fields person) 3
field_by_tag-find_example = field_by_tag-find person 3 person-IsSorted

field_by_tag-extend_example :
    field_by_tag (extend person extra) 7 ≡ or_else (field_by_tag person 7) (field_by_tag extra 7)
field_by_tag-extend_example =
    field_by_tag-extend person extra 7 person-IsSorted extra-IsSorted (λ h. h)

abbrev minus_one : EnumValue
minus_one = record { number = 2 ^ 32 - 1 }

abbrev nought : EnumValue
nought = record { number = 0 }

value_by_number-negative_example : value_by_number (minus_one ∷ nought ∷ []) 0 ≡ none
value_by_number-negative_example =
    value_by_number-negative minus_one nought [] (omega arith) (omega arith) refl

abbrev fields_iter : Iterator FieldDescriptor
fields_iter = record { items = id_field ∷ values_field ∷ []; position = 0 }

abbrev pair_iter : Iterator FieldDescriptor
pair_iter = record { items = id_field ∷ values_field ∷ []; position = 5 }

iter_end-backward_example :
    (if (iter_end pair_iter).0 then iter_backward 2 (iter_end pair_iter).1 else [])
    ≡ values_field ∷ id_field ∷ []
iter_end-backward_example = iter_end-backward pair_iter

pack-Fits_example : (p : List ℕ) × (Varint.pack int32 (2 ^ 32 - 1) ≡ ok p) × Fits (room int32) p
pack-Fits_example = pack-Fits int32 (2 ^ 32 - 1) (omega arith)

text_equals-prefix_example :
    text_equals
      (record { memory = 1 ∷ 2 ∷ 3 ∷ []; size = 3 })
      (record { memory = 1 ∷ 2 ∷ []; size = 2 })
    ≡ ok true
text_equals-prefix_example = text_equals-prefix (1 ∷ 2 ∷ []) (3 ∷ [])
