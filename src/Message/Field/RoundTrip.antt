-- ===== src/Message/Field/RoundTrip.antt =====
-- `pb_field_put` and `pb_field_get` of src/message/field.c on a field of the outermost message.
use protobluff.Common.{
  ℕ, ◌+◌, ◌^◌, ◌≤◌, ◌<◌, ◌≡◌, refl, sym, ap, ◌∙◌, arith, true, false, not, List, ◌++◌, ◌==◌, leb,
  some, if◌then◌else◌, length, take, drop, add_size, sub_size, length-take, length-append,
  length-drop, u32, ◌||◌, take-append-drop, drop-append_length,
}
use mathlib.Core.Path.{subst}
use mathlib.Core.List.{append_assoc}
use protobluff.Core.Types.{
  Error, no_error, FieldType, undefined, int32, int64, uint32, uint64, sint32, sint64, fixed32,
  fixed64, sfixed32, sfixed64, bool, enum, float, double, string, bytes, message, ok,
}
use protobluff.Core.Varint.{pack_uint32}
use protobluff.Core.Memory.{Allocator, IsAllocator}
use protobluff.Core.Buffer.Laws.{contents, IsValid}
use protobluff.Core.Descriptor.{FieldDescriptor, wiretype_map}
use protobluff.Core.Stream.{Stream, number, create_at, left, read}
use protobluff.Core.Stream.RoundTrip.{behind, read-wire_scalar}
use protobluff.Core.Encoder.{Input}
use protobluff.Core.Encoder.Wire.{wire_scalar, pack-wire_scalar, length-le_bytes, IsScalar}
use protobluff.Message.Journal.{Journal}
use protobluff.Message.Run.{Run, done, fault, out_of_fuel, State, Act, pure, and_then}
use protobluff.Message.Part.{
  Part, marker, part_size, part_valid, part_aligned, realign, create_from_part,
}
use protobluff.Message.Part.Shape.{IsField}
use protobluff.Message.Part.Grown.{front_of, Written}
use protobluff.Message.Part.Write.{part_write-Written}
use protobluff.Message.Part.Edit.{part_write}
use protobluff.Message.Field.{
  Field, field_valid, field_align, got, get_aligned, field_get, with_length, raw_value, put_raw,
  put_described, field_put,
}

-- What is written of a number is its bytes on the wire.
raw_value-wire_scalar :
    (t : FieldType) (v : ℕ)
    → IsScalar t v
    → raw_value t (wiretype_map t) (Input.number v) ≡ ok (wire_scalar t v, length (wire_scalar t v))
unfolding raw_value wiretype_map with_length wire_scalar
raw_value-wire_scalar int32 v h = rw (pack-wire_scalar int32 v h) refl
raw_value-wire_scalar int64 v h = rw (pack-wire_scalar int64 v h) refl
raw_value-wire_scalar uint32 v h = rw (pack-wire_scalar uint32 v h) refl
raw_value-wire_scalar uint64 v h = rw (pack-wire_scalar uint64 v h) refl
raw_value-wire_scalar sint32 v h = rw (pack-wire_scalar sint32 v h) refl
raw_value-wire_scalar sint64 v h = rw (pack-wire_scalar sint64 v h) refl
raw_value-wire_scalar bool v h = rw (pack-wire_scalar bool v h) refl
raw_value-wire_scalar enum v h = rw (pack-wire_scalar enum v h) refl
raw_value-wire_scalar fixed32 v h = rw (length-le_bytes 4 v) refl
raw_value-wire_scalar sfixed32 v h = rw (length-le_bytes 4 v) refl
raw_value-wire_scalar float v h = rw (length-le_bytes 4 v) refl
raw_value-wire_scalar fixed64 v h = rw (length-le_bytes 8 v) refl
raw_value-wire_scalar sfixed64 v h = rw (length-le_bytes 8 v) refl
raw_value-wire_scalar double v h = rw (length-le_bytes 8 v) refl
raw_value-wire_scalar string v h = elim h [ ]
raw_value-wire_scalar bytes v h = elim h [ ]
raw_value-wire_scalar message v h = elim h [ ]
raw_value-wire_scalar undefined v h = elim h [ ]

-- A stream at bytes that stand in a buffer reads them.
read_contents :
    (s : Stream) (t : FieldType) (v : ℕ) (front tail : List ℕ)
    → IsScalar t v
    → s.buffer.size ≤ length s.buffer.block
    → length front + (length (wire_scalar t v) + length tail) < 2 ^ 64
    → s.position ≡ length front
    → contents s.buffer ≡ front ++ (wire_scalar t v ++ tail)
    → read s t ≡ ok (number v, behind s (length (wire_scalar t v)))
unfolding left
read_contents s t v front tail h holds small at c =
    let bytes = wire_scalar t v in
    let size : s.buffer.size ≡ length front + (length (wire_scalar t v) + length tail) = omega (
      arith,
      length-take s.buffer.size s.buffer.block,
      ap length c,
      length-append front (wire_scalar t v ++ tail),
      length-append (wire_scalar t v) tail,
    ) in
    let there : drop s.position s.buffer.block
        ≡ wire_scalar t v ++ (tail ++ drop s.buffer.size s.buffer.block) =
      ap (λ n. drop n s.buffer.block) at
      ∙ ap (drop (length front)) (sym (take-append-drop s.buffer.size s.buffer.block))
      ∙ ap (λ b. drop (length front) (b ++ drop s.buffer.size s.buffer.block)) c
      ∙ ap (drop (length front)) (append_assoc front (wire_scalar t v ++ tail) _)
      ∙ ap (λ n. drop n (front ++ ((wire_scalar t v ++ tail) ++ drop s.buffer.size s.buffer.block)))
          (omega arith)
      ∙ drop-append_length 0 front ((wire_scalar t v ++ tail) ++ drop s.buffer.size s.buffer.block)
      ∙ append_assoc (wire_scalar t v) tail (drop s.buffer.size s.buffer.block) in
    read-wire_scalar s t v (tail ++ drop s.buffer.size s.buffer.block)
      (record { holds = holds; small = omega arith; inside = omega arith }) h there (omega arith)

module _ (f' : Field) (d : FieldDescriptor) (v : ℕ) (j j' : Journal) (same : f'.descriptor ≡ some d)
    (scalar : IsScalar d.type v)
    (small : j.buffer.size + length (wire_scalar d.type v) + 5 < 2 ^ 63)
    (few : length j'.entries < 2 ^ 63) where
  get_written :
      (front tail : List ℕ)
      → contents j'.buffer ≡ front ++ (wire_scalar d.type v ++ tail)
      → length front + length tail ≤ j.buffer.size
      → add_size f'.part.offset.start f'.part.offset.diff_length ≡ length front
      → f'.part.version ≡ length j'.entries
      → j'.buffer.size ≤ length j'.buffer.block
      → field_get j' f' ≡ done ((no_error, some (number v)), f')
  unfolding field_get field_valid part_valid field_align realign part_aligned get_aligned got
      create_from_part create_at
  get_written front tail c l at w holds =
      let fine : leb marker f'.part.version ≡ false = ground arith in
      let aligned : (f'.part.version == length j'.entries) ≡ true = ground arith in
      let answer =
        read_contents (create_from_part j' f'.part) d.type v front tail scalar holds (omega arith)
          at c in
      rw (fine, aligned, same, answer) refl

-- The end of `field_put`, on the answer for the part.
abbrev with_part : {M : Type 0} → Field → Error × Part → Act M (Error × Field)
with_part f r = pure (r.0, record f { part = r.1 })

with_part-inverse :
    {M : Type 0} (f f' : Field) (s' : State M) (r : Run ((Error × Part) × State M))
    → and_then r (with_part f) ≡ done ((no_error, f'), s')
    → (p : Part) × (r ≡ done ((no_error, p), s')) × (f' ≡ record f { part = p })
with_part-inverse f f' s' (done ((e, p), s)) x = (p, ground arith, ground arith)
with_part-inverse f f' s' fault x = absurd cc
with_part-inverse f f' s' out_of_fuel x = absurd cc

-- What a write to a field without a length prefix leaves can be read.
put_bytes-get :
    {M : Type 0} (f : Field) (p : Part) (d : FieldDescriptor) (v tag_at : ℕ) (j : Journal)
    (s' : State M)
    → f.descriptor ≡ some d
    → IsScalar d.type v
    → IsValid j.buffer
    → IsField 0 tag_at f.part.offset.start j.buffer.size f.part.offset
    → j.buffer.size + length (wire_scalar d.type v) + 5 < 2 ^ 63
    → length s'.journal.entries < 2 ^ 63
    → Written f.part.offset.start
        (front_of f.part f.part.offset.start (length (wire_scalar d.type v)) (contents j.buffer))
        (wire_scalar d.type v ++ drop f.part.offset.end (contents j.buffer))
        (length (wire_scalar d.type v))
        f.part
        j
        (done ((no_error, p), s'))
    → field_get s'.journal (record f { part = p })
      ≡ done ((no_error, some (number v)), record f { part = p })
put_bytes-get f p d v tag_at j s' e h valid shape room few w =
    let none_there : f.part.offset.diff_length ≡ 0 =
      omega (arith, shape.to_length, shape.order, shape.inside) in
    let no_prefix : (f.part.offset.diff_length == 0) ≡ true = ground arith in
    let (c, b, t, at, version, holds) =
      subst
        (λ x.
          Written f.part.offset.start
            (if x || (sub_size (length (wire_scalar d.type v)) (part_size f.part.offset) == 0)
              then take f.part.offset.start (contents j.buffer)
              else take f.part.offset.start (contents j.buffer)
                ++ pack_uint32 (u32 (length (wire_scalar d.type v))))
            (wire_scalar d.type v ++ drop f.part.offset.end (contents j.buffer))
            (length (wire_scalar d.type v)) f.part j (done ((no_error, p), s')))
        no_prefix w in
    let whole : length (contents j.buffer) ≡ j.buffer.size =
      omega (arith, length-take j.buffer.size j.buffer.block, valid.holds) in
    let front : length (take f.part.offset.start (contents j.buffer)) ≡ f.part.offset.start =
      omega
        (arith, length-take f.part.offset.start (contents j.buffer), shape.order, shape.inside) in
    get_written (record f { part = p }) d v j s'.journal e h room few
      (take f.part.offset.start (contents j.buffer)) (drop f.part.offset.end (contents j.buffer)) c
      (omega (arith, length-drop f.part.offset.end (contents j.buffer), shape.order, shape.inside))
      (at ∙ sym front) version holds

module _ {M : Type 0} (a : Allocator M) (laws : IsAllocator a) where
  field_put-part :
      (f : Field) (d : FieldDescriptor) (v : ℕ) (s : State M)
      → f.descriptor ≡ some d
      → field_valid f ≡ true
      → IsScalar d.type v
      → field_put a f (Input.number v) s
        ≡ and_then
            (part_write a f.part (wire_scalar d.type v) (length (wire_scalar d.type v)) s)
            (with_part f)
  unfolding field_put put_described put_raw
  field_put-part f d v s e fine h =
      let described : put_described a f f.descriptor (Input.number v)
          ≡ put_described a f (some d) (Input.number v) =
        ap (λ x. put_described a f x (Input.number v)) e in
      let raw = ap (put_raw a f) (raw_value-wire_scalar d.type v h) in
      rw (fine, described, raw) refl

  -- A field of the outermost message that has a number as its type, is up to date and has no length prefix,
  -- in a valid journal with an allocator that keeps its promises: if `pb_field_put` of a number in the range of
  -- the type answers PB_ERROR_NONE, then `pb_field_get` on the field reads exactly that number.
  pub field_put-get :
      (f f' : Field) (d : FieldDescriptor) (v tag_at : ℕ) (s s' : State M)
      → f.descriptor ≡ some d
      → IsScalar d.type v
      → IsValid s.journal.buffer
      → IsField 0 tag_at f.part.offset.start s.journal.buffer.size f.part.offset
      → f.part.version ≡ length s.journal.entries
      → s.journal.buffer.size + length (wire_scalar d.type v) + 5 < 2 ^ 63
      → length s.journal.entries + 2 < 2 ^ 63
      → length s'.journal.entries < 2 ^ 63
      → field_put a f (Input.number v) s ≡ done ((no_error, f'), s')
      → field_get s'.journal f' ≡ done ((no_error, some (number v)), f')
  unfolding field_valid part_valid
  field_put-get f f' d v tag_at s s' e h valid shape w room few few' x =
      let fine : not (leb marker f.part.version) ≡ true = ground arith in
      let (p, y, z) = with_part-inverse f f' s' _ (sym (field_put-part f d v s e fine h) ∙ x) in
      rw z (
        put_bytes-get f p d v tag_at s.journal s' e h valid shape room few' (
          subst
            (Written f.part.offset.start
              (front_of f.part f.part.offset.start (length (wire_scalar d.type v))
                (contents s.journal.buffer))
              (wire_scalar d.type v ++ drop f.part.offset.end (contents s.journal.buffer))
              (length (wire_scalar d.type v)) f.part s.journal)
            y
            (part_write-Written a laws f.part tag_at f.part.offset.start (wire_scalar d.type v) s
              valid shape w room few)))
