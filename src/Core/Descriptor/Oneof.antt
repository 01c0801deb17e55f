-- ===== src/Core/Descriptor/Oneof.antt =====
-- `pb_oneof_descriptor_t` of include/protobluff/core/descriptor.h: the members of a oneof, by their indexes in
-- the fields of a descriptor, and the iterator over them.
use protobluff.Common.{ℕ, Bool, Option, none, some, List, ◌==◌, length, get_elem?}
use protobluff.Core.Descriptor.{FieldDescriptor, Descriptor, table}
use protobluff.Core.Descriptor.Iterator.{
  Iterator, iter_create, iter_begin, iter_end, iter_prev, iter_next, iter_current,
}

pub record OneofDescriptor : Type 0 where
  pub descriptor : Descriptor
  pub indexes : List ℕ

unfoldable pub oneof_size : OneofDescriptor → ℕ
oneof_size o = length o.indexes

unfoldable pub oneof_empty : OneofDescriptor → Bool
unfolding oneof_size
oneof_empty o = oneof_size o == 0

-- The iterator, without its oneof.
unfoldable pub oneof_iter_create : OneofDescriptor → Iterator ℕ
unfolding iter_create
oneof_iter_create o = iter_create o.indexes

unfoldable pub oneof_iter_begin : Iterator ℕ → Bool × Iterator ℕ
unfolding iter_begin
oneof_iter_begin it = iter_begin it

unfoldable pub oneof_iter_end : Iterator ℕ → Bool × Iterator ℕ
unfolding iter_end
oneof_iter_end it = iter_end it

unfoldable pub oneof_iter_prev : Iterator ℕ → Bool × Iterator ℕ
unfolding iter_prev
oneof_iter_prev it = iter_prev it

unfoldable pub oneof_iter_next : Iterator ℕ → Bool × Iterator ℕ
unfolding iter_next
oneof_iter_next it = iter_next it

-- The field with an index; an index behind the table is undefined behaviour.
unfoldable pub member_at : Descriptor → Option ℕ → Option FieldDescriptor
member_at d none = none
member_at d (some i) = get_elem? (table d).fields i

unfoldable pub oneof_iter_current : OneofDescriptor → Iterator ℕ → Option FieldDescriptor
unfolding member_at iter_current
oneof_iter_current o it = member_at o.descriptor (iter_current it)
