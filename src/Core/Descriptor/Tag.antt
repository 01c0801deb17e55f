-- ===== src/Core/Descriptor/Tag.antt =====
-- A field that `pb_descriptor_field_by_tag` of src/core/descriptor.c finds has the tag, in any tables.
use protobluff.Common.{
  ℕ, zero, suc, ◌≡◌, refl, ◌∙◌, arith, Bool, true, false, Option, none, some, List, ltb, ◌==◌,
  if◌then◌else◌, get_elem?, Bool-cases, inl, inr,
}
use mathlib.Core.Path.{subst}
use protobluff.Core.Descriptor.{
  FieldDescriptor, Descriptor, last, extended, search_at, search_down, search_table, field_by_tag,
}

search_at_tag :
    (x further : Option FieldDescriptor) (tag : ℕ) (d : FieldDescriptor)
    → (further ≡ some d → d.tag ≡ tag)
    → search_at x tag further ≡ some d
    → d.tag ≡ tag
unfolding search_at
search_at_tag none further tag d h e = cc
search_at_tag (some f) further tag d h e = elim (Bool-cases (f.tag == tag)) [
  | inl y ↦
      let z : some f ≡ some d =
        subst (λ b. (if b then some f else if ltb f.tag tag then none else further) ≡ some d) y e in
      let same : f ≡ d = cc in subst (λ (g : FieldDescriptor). g.tag ≡ tag) same (ground arith)
  | inr y ↦
      below (ltb f.tag tag)
        (subst (λ b. (if b then some f else if ltb f.tag tag then none else further) ≡ some d) y e)
]
  where
    below : (b : Bool) → (if b then none else further) ≡ some d → d.tag ≡ tag
    below true e = cc
    below false e = h e

search_down_tag :
    (fs : List FieldDescriptor) (tag n : ℕ) (d : FieldDescriptor)
    → search_down fs tag n ≡ some d
    → d.tag ≡ tag
unfolding search_down
search_down_tag fs tag zero d e = cc
search_down_tag fs tag (suc n) d e =
    search_at_tag (get_elem? fs n) (search_down fs tag n) tag d (search_down_tag fs tag n d) e

pub field_by_tag_tag :
    (r : Descriptor) (tag : ℕ) (d : FieldDescriptor) → field_by_tag r tag ≡ some d → d.tag ≡ tag
unfolding field_by_tag search_table
field_by_tag_tag (last t) tag d e = search_down_tag t.fields tag _ d e
field_by_tag_tag (extended t r) tag d e =
    at (search_table t.fields tag) refl (field_by_tag_tag r tag d) e
  where
    at :
        (x : Option FieldDescriptor)
        → search_table t.fields tag ≡ x
        → (field_by_tag r tag ≡ some d → d.tag ≡ tag)
        → (elim x [ some f ↦ some f | none ↦ field_by_tag r tag ]) ≡ some d
        → d.tag ≡ tag
    at none y h e = h e
    at (some f) y h e = search_down_tag t.fields tag _ d (y ∙ e)
