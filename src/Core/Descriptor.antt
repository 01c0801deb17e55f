-- ===== src/Core/Descriptor.antt =====
-- src/core/descriptor.c and include/protobluff/core/descriptor.h: what a schema compiles to.
-- A descriptor is its table of fields with the chain of its extensions; where the code compares
-- pointers, the model compares addresses. `refer` is the address of the nested descriptor.
pub mod Search
pub mod Tag
pub mod Enum
pub mod Iterator
pub mod Oneof
use protobluff.Common.{
  ℕ, zero, suc, ◌+◌, ◌-◌, ◌%◌, ◌^◌, min, Bool, true, false, not, Option, none, some, List, [], ◌∷◌,
  ltb, ◌==◌, if◌then◌else◌, length, get_elem?, bit_and, u32, shl, bit_or,
}
use protobluff.Core.Types.{
  FieldType, undefined, int32, int64, uint32, uint64, sint32, sint64, fixed32, fixed64, sfixed32,
  sfixed64, bool, enum, float, double, string, bytes, message, Label, undefined_label, required,
  optional, repeated, oneof, Wiretype, wire_varint, wire_64bit, wire_length, wire_32bit, Outcome,
  ok, fault,
}

-- What `value` of a field descriptor points to: nothing, the descriptor of a oneof, by its address, or a
-- default value, which is a number by its bit pattern or the memory and the size of a string.
pub data Referent : Type 0 where
  nothing : Referent
  one_of : ℕ → Referent
  default_number : ℕ → Referent
  default_text : List ℕ → ℕ → Referent

-- `pb_field_descriptor_t`, without the name.
pub record FieldDescriptor : Type 0 where
  pub tag : ℕ
  pub type : FieldType
  pub label : Label
  pub refer : ℕ
  pub value : Referent
  pub flags : ℕ

-- `descriptor->field` and the descriptor's own address.
pub record Table : Type 0 where
  pub address : ℕ
  pub fields : List FieldDescriptor

-- `pb_descriptor_t`: `descriptor->extension` is NULL or another descriptor.
pub data Descriptor : Type 0 where
  last : Table → Descriptor
  extended : Table → Descriptor → Descriptor

abbrev pub table : Descriptor → Table
table (last t) = t
table (extended t d) = t

-- `pb_field_descriptor_packed`, by PB_FLAG_PACKED.
unfoldable pub packed : FieldDescriptor → Bool
packed d = not (bit_and d.flags 1 == 0)

abbrev pub is_oneof : Label → Bool
is_oneof oneof = true
is_oneof _ = false

abbrev pub is_repeated : Label → Bool
is_repeated repeated = true
is_repeated _ = false

-- The address of the oneof that a referent leads to.
abbrev referent_address : Referent → ℕ
referent_address (one_of a) = a
referent_address _ = 0

-- `pb_field_descriptor_oneof`, 0 for NULL, and `pb_field_descriptor_default`.
unfoldable pub oneof_of : FieldDescriptor → ℕ
oneof_of d = if is_oneof d.label then referent_address d.value else 0

unfoldable pub default_of : FieldDescriptor → Referent
default_of d = if is_oneof d.label then nothing else d.value

abbrev pub is_message : FieldType → Bool
is_message message = true
is_message _ = false

-- `pb_field_descriptor_nested`, 0 for NULL.
unfoldable pub nested_of : FieldDescriptor → ℕ
nested_of d = if is_message d.type then d.refer else 0

-- `pb_field_descriptor_type_size_map`, on a 64-bit machine; the entry of PB_TYPE_UNDEFINED is not
-- set, hence 0.
unfoldable pub type_size : FieldType → ℕ
type_size int32 = 4
type_size int64 = 8
type_size uint32 = 4
type_size uint64 = 8
type_size sint32 = 4
type_size sint64 = 8
type_size fixed32 = 4
type_size fixed64 = 8
type_size sfixed32 = 4
type_size sfixed64 = 8
type_size bool = 1
type_size enum = 4
type_size float = 4
type_size double = 8
type_size string = 16
type_size bytes = 16
type_size message = 16
type_size undefined = 0

-- `pb_field_descriptor_wiretype_map`; the entry of PB_TYPE_UNDEFINED is not set, hence 0.
unfoldable pub wiretype_map : FieldType → Wiretype
wiretype_map int32 = wire_varint
wiretype_map int64 = wire_varint
wiretype_map uint32 = wire_varint
wiretype_map uint64 = wire_varint
wiretype_map sint32 = wire_varint
wiretype_map sint64 = wire_varint
wiretype_map fixed32 = wire_32bit
wiretype_map fixed64 = wire_64bit
wiretype_map sfixed32 = wire_32bit
wiretype_map sfixed64 = wire_64bit
wiretype_map bool = wire_varint
wiretype_map enum = wire_varint
wiretype_map float = wire_32bit
wiretype_map double = wire_64bit
wiretype_map string = wire_length
wiretype_map bytes = wire_length
wiretype_map message = wire_length
wiretype_map undefined = wire_varint

-- One round of the loop of `pb_descriptor_field_by_tag`, on the field read and what further rounds give.
unfoldable pub search_at :
    Option FieldDescriptor → ℕ → Option FieldDescriptor → Option FieldDescriptor
search_at none tag further = none
search_at (some d) tag further =
    if d.tag == tag then some d else if ltb d.tag tag then none else further

-- The loop, at `f`: the field is `data[--f]`.
unfoldable pub search_down : List FieldDescriptor → ℕ → ℕ → Option FieldDescriptor
search_down fields tag zero = none
search_down fields tag (suc f) =
    let further = search_down fields tag f in search_at (get_elem? fields f) tag further

unfoldable pub search_table : List FieldDescriptor → ℕ → Option FieldDescriptor
unfolding search_down search_at
search_table fields tag = search_down fields tag (min tag (length fields))

unfoldable pub field_by_tag : Descriptor → ℕ → Option FieldDescriptor
field_by_tag (last t) tag = search_table t.fields tag
field_by_tag (extended t d) tag =
    let further = field_by_tag d tag in
    elim (search_table t.fields tag) [ some f ↦ some f | none ↦ further ]

-- `pb_descriptor_extend`: an extension that is there already is not added again.
unfoldable pub extend : Descriptor → Descriptor → Descriptor
extend (last t) extension = extended t extension
extend (extended t d) extension =
    let further = extended t (extend d extension) in
    if (table d).address == (table extension).address then extended t d else further

-- `pb_enum_value_descriptor_t`: the number is an int32_t, as its bit pattern.
pub record EnumValue : Type 0 where
  pub number : ℕ

-- `a < b` of two int32_t.
abbrev pub less32 : ℕ → ℕ → Bool
less32 a b = ltb ((a + 2 ^ 31) % 2 ^ 32) ((b + 2 ^ 31) % 2 ^ 32)

-- An int32_t converted to size_t.
abbrev pub to_size : ℕ → ℕ
to_size v = if ltb v (2 ^ 31) then v else v + (2 ^ 64 - 2 ^ 32)

-- One round of `pb_enum_descriptor_value_by_number`.
unfoldable pub enum_at : Option EnumValue → ℕ → Option EnumValue → Option EnumValue
enum_at none number further = none
enum_at (some e) number further =
    if e.number == number then some e else if less32 e.number number then none else further

-- `do … while (v--)`.
unfoldable pub enum_down : List EnumValue → ℕ → ℕ → Option EnumValue
enum_down values number zero = enum_at (get_elem? values 0) number none
enum_down values number (suc v) =
    let further = enum_down values number v in enum_at (get_elem? values (suc v)) number further

unfoldable pub value_by_number : List EnumValue → ℕ → Option EnumValue
unfolding enum_down enum_at
value_by_number values number =
    if length values == 0
    then none
    else enum_down values number (min (to_size number) (length values - 1))
