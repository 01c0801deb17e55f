-- ===== src/Core/Descriptor/Search.antt =====
-- The search for a field by its tag, against a search through all fields.
use protobluff.Common.{
  ℕ, zero, suc, ◌+◌, ◌≤◌, ◌<◌, ◌≡◌, refl, ap, ◌∙◌, arith, min, Option, none, some, List, [], ◌∷◌,
  ◌++◌, ◌⊎◌, inl, inr, ◌==◌, if◌then◌else◌, length, get_elem?, Bool-cases,
}
use mathlib.Core.List.{append_assoc}
use native.Mathlib.Decide.{dec_le}
use protobluff.Common.{sym, get_elem?-some}
use protobluff.Core.Descriptor.{search_at}
use protobluff.Core.Descriptor.{
  FieldDescriptor, Descriptor, last, extended, table, search_down, search_table, field_by_tag,
  extend,
}

-- The tags ascend, from above `lo`.
abbrev pub Ascends : ℕ → List FieldDescriptor → Type 0
Ascends lo [] = Unit {0}
Ascends lo (d ∷ ds) = (lo < d.tag) × Ascends d.tag ds

-- The first field with the tag.
abbrev pub find : List FieldDescriptor → ℕ → Option FieldDescriptor
find [] tag = none
find (d ∷ ds) tag = if d.tag == tag then some d else find ds tag

abbrev pub or_else : {A : Type 0} → Option A → Option A → Option A
or_else (some a) o = some a
or_else none o = o

find_below :
    (lo tag : ℕ) (ds : List FieldDescriptor) → Ascends lo ds → tag ≤ lo → find ds tag ≡ none
find_below lo tag [] a h = refl
find_below lo tag (d ∷ ds) (h, a) k = ground (arith, find_below d.tag tag ds a (omega arith))

Ascends-get_elem? :
    (lo i : ℕ) (ds : List FieldDescriptor) {d : FieldDescriptor}
    → Ascends lo ds
    → get_elem? ds i ≡ some d
    → lo < d.tag
Ascends-get_elem? lo i [] a e = cc
Ascends-get_elem? lo zero (c ∷ ds) (h, a) e = ground arith
Ascends-get_elem? lo (suc i) (c ∷ ds) (h, a) e = omega (arith, Ascends-get_elem? c.tag i ds a e)

search_at-or_else :
    (x d : FieldDescriptor) (tag : ℕ) (r : Option FieldDescriptor)
    → x.tag < d.tag
    → search_at (some d) tag (or_else r (if x.tag == tag then some x else none))
      ≡ or_else (search_at (some d) tag r) (if x.tag == tag then some x else none)
unfolding search_at
search_at-or_else x d tag r h = ground arith

search_down-cons :
    (x : FieldDescriptor) (xs : List FieldDescriptor) (tag f : ℕ)
    → Ascends x.tag xs
    → f ≤ length xs
    → search_down (x ∷ xs) tag (suc f)
      ≡ or_else (search_down xs tag f) (if x.tag == tag then some x else none)
unfolding search_down
search_down-cons x xs tag zero a h = unfold search_at in ground arith
search_down-cons x xs tag (suc f) a h =
    let (d, e) = get_elem?-some xs f h in
    ap (search_at (get_elem? xs f) tag) (search_down-cons x xs tag f a (omega arith))
    ∙ rw e (search_at-or_else x d tag (search_down xs tag f) (Ascends-get_elem? x.tag f xs a e))

search_down-find :
    (lo tag f : ℕ) (ds : List FieldDescriptor)
    → Ascends lo ds
    → f ≤ length ds
    → (tag ≤ lo + f) ⊎ (f ≡ length ds)
    → search_down ds tag f ≡ find ds tag
search_down-find lo tag zero [] a h c = unfold search_down in refl
search_down-find lo tag zero (d ∷ ds) a h (inl c) =
    unfold search_down in sym (find_below lo tag (d ∷ ds) a (omega arith))
search_down-find lo tag zero (d ∷ ds) a h (inr c) = absurd (omega arith)
search_down-find lo tag (suc f) [] a h c = absurd (omega arith)
search_down-find lo tag (suc f) (d ∷ ds) (k, a) h c =
    rw
      (
        search_down-cons d ds tag f a (omega arith),
        search_down-find d.tag tag f ds a (omega arith) (further c),
      )
      (ground (arith, find_below d.tag tag ds a))
  where
    further : (tag ≤ lo + suc f) ⊎ (suc f ≡ length (d ∷ ds)) → (tag ≤ d.tag + f) ⊎ (f ≡ length ds)
    further (inl e) = inl (omega arith)
    further (inr e) = inr (omega arith)

-- In a table whose tags ascend from 1 on, the search downwards from the index `min(tag, size)`, which
-- stops at the first lower tag, finds what a search through all fields finds.
search_table-find :
    (ds : List FieldDescriptor) (tag : ℕ) → Ascends 0 ds → search_table ds tag ≡ find ds tag
unfolding search_table
search_table-find ds tag a = elim (dec_le tag (length ds)) [
  | yes p ↦
      let e : min tag (length ds) ≡ tag = omega arith in
      rw e (search_down-find 0 tag tag ds a p (inl (omega arith)))
  | no p ↦
      let e : min tag (length ds) ≡ length ds = omega arith in
      rw e (search_down-find 0 tag (length ds) ds a (omega arith) (inr refl))
]

-- All fields of a descriptor, its own before those of its extensions.
abbrev pub all_fields : Descriptor → List FieldDescriptor
all_fields (last t) = t.fields
all_fields (extended t d) = t.fields ++ all_fields d

-- Each table of the chain is in the order of its tags.
abbrev pub IsSorted : Descriptor → Type 0
IsSorted (last t) = Ascends 0 t.fields
IsSorted (extended t d) = Ascends 0 t.fields × IsSorted d

find-append :
    (xs ys : List FieldDescriptor) (tag : ℕ)
    → find (xs ++ ys) tag ≡ or_else (find xs tag) (find ys tag)
find-append [] ys tag = refl
find-append (x ∷ xs) ys tag = ground (arith, find-append xs ys tag)

-- On a descriptor whose tables are each in ascending order of tags, `pb_descriptor_field_by_tag`
-- returns the first field with the tag in the descriptor and then its extensions, and NULL only if no
-- field of them has it.
pub field_by_tag-find :
    (d : Descriptor) (tag : ℕ) → IsSorted d → field_by_tag d tag ≡ find (all_fields d) tag
unfolding field_by_tag
field_by_tag-find (last t) tag a = search_table-find t.fields tag a
field_by_tag-find (extended t d) tag (a, rest) = ground (
  arith,
  search_table-find t.fields tag a,
  find-append t.fields (all_fields d) tag,
  field_by_tag-find d tag rest,
)

-- Whether a descriptor has an address among its extensions.
abbrev pub HasExtension : ℕ → Descriptor → Type 0
HasExtension address (last t) = ⊥
HasExtension address (extended t d) = ((table d).address ≡ address) ⊎ HasExtension address d

extend-all_fields :
    (d e : Descriptor)
    → ¬ HasExtension (table e).address d
    → all_fields (extend d e) ≡ all_fields d ++ all_fields e
unfolding extend
extend-all_fields (last t) e h = refl
extend-all_fields (extended t d) e h = ground (
  arith,
  append_assoc t.fields (all_fields d) (all_fields e),
  extend-all_fields d e (λ x. h (inr x)),
  λ (x : (table d).address ≡ (table e).address). h (inl x),
)

extend-IsSorted : (d e : Descriptor) → IsSorted d → IsSorted e → IsSorted (extend d e)
unfolding extend
extend-IsSorted (last t) e h k = (h, k)
extend-IsSorted (extended t d) e (h, hs) k =
    elim (Bool-cases ((table d).address == (table e).address)) [
      | inl same ↦ rw same (h, hs)
      | inr other ↦ rw other (h, extend-IsSorted d e hs k)
    ]

-- After `pb_descriptor_extend` by an extension that is not yet in the chain, a lookup in sorted tables
-- gives what it gave before, and what it gives in the extension where it gave NULL.
pub field_by_tag-extend :
    (d e : Descriptor) (tag : ℕ)
    → IsSorted d
    → IsSorted e
    → ¬ HasExtension (table e).address d
    → field_by_tag (extend d e) tag ≡ or_else (field_by_tag d tag) (field_by_tag e tag)
field_by_tag-extend d e tag h k new =
    rw
      (
        field_by_tag-find (extend d e) tag (extend-IsSorted d e h k),
        extend-all_fields d e new,
        field_by_tag-find d tag h,
        field_by_tag-find e tag k,
      )
      (find-append (all_fields d) (all_fields e) tag)

table-extend : (d e : Descriptor) → table (extend d e) ≡ table d
unfolding extend
table-extend (last t) e = refl
table-extend (extended t d) e = ground arith

-- Extending a second time by the same extension changes nothing.
pub extend_twice : (d e : Descriptor) → extend (extend d e) e ≡ extend d e
unfolding extend
extend_twice (last t) e = ground arith
extend_twice (extended t d) e = elim (Bool-cases ((table d).address == (table e).address)) [
  | inl same ↦ rw same (rw same)
  | inr other ↦ rw other (rw (table-extend d e, other) (ap (extended t) (extend_twice d e)))
]
