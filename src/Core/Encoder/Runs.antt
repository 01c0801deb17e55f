-- ===== src/Core/Encoder/Runs.antt =====
-- The encoding functions write the wire format.
use protobluff.Common.{
  ℕ, ◌+◌, ◌*◌, ◌^◌, ◌≤◌, ◌<◌, ◌≡◌, refl, sym, ap, ◌∙◌, arith, none, List, ◌++◌, length, take, IsU32,
  add_size, length-append, length-take, ◌⊎◌, inl, inr,
}
use mathlib.Core.Path.{subst}
use protobluff.Core.Types.{
  no_error, alloc, FieldType, message, int32, int64, uint32, uint64, sint32, sint64, fixed32,
  fixed64, sfixed32, sfixed64, bool, enum, float, double, string, bytes, Wiretype, wire_number,
  Outcome, ok, ◌>>=◌,
}
use protobluff.Core.Memory.{Allocator, IsAllocator, load}
use protobluff.Core.Buffer.{Buffer, AllocatorRef, grow}
use protobluff.Core.Buffer.Laws.{IsValid}
use protobluff.Core.Descriptor.{FieldDescriptor, wiretype_map}
use protobluff.Core.Varint
use protobluff.Core.Varint.Base128.{base128, pack_uint32-base128}
use protobluff.Core.Varint.Size.{size-pack, size-pack_uint32}
use protobluff.Core.Varint.Types.{IsVarint}
use protobluff.Core.Encoder.{
  Input, number, text, encoder, Done, le_bytes, key, append, length_source, encode_varint,
  encode_64bit, encode_32bit, encode_length, encode_value, encode_after, encode,
}
use protobluff.Core.Encoder.Layout.{Extends, Extends-trans, Appends, append-Appends}
use protobluff.Core.Encoder.Wire.{
  wire_scalar, wire_value, wire_key, wire_field, IsInput, length-le_bytes, pack-wire_scalar,
  key_lem, wire_number-lt,
}

pub size-wire_scalar :
    (t : FieldType) (v : ℕ) → IsVarint t v → Varint.size t v ≡ ok (length (wire_scalar t v))
size-wire_scalar t v h =
    size-pack t v h ∙ ap (λ o. o >>= λ p. ok (length p)) (pack-wire_scalar t v h)

pub size-base128 : (v : ℕ) → IsU32 v → Varint.size_uint32 v ≡ length (base128 4 v)
size-base128 v h = size-pack_uint32 v h ∙ ap length (pack_uint32-base128 v h)

loaded : (s : List ℕ) (n : ℕ) → n ≤ length s → load s 0 n ≡ ok (take n s)
unfolding load
loaded s n l = ground arith

pub packed_key :
    (tag : ℕ) (w : Wiretype)
    → tag < 2 ^ 29
    → (Varint.pack_uint32 (key tag w) ≡ wire_key tag w)
      × (Varint.size_uint32 (key tag w) ≡ length (wire_key tag w))
unfolding wire_key
packed_key tag w h =
    let small : IsU32 (8 * tag + wire_number w) = omega (arith, wire_number-lt w) in
    (
      rw (key_lem tag w h) (pack_uint32-base128 (8 * tag + wire_number w) small),
      rw (key_lem tag w h) (size-base128 (8 * tag + wire_number w) small),
    )

length-wire_field :
    (d : FieldDescriptor) (v : Input)
    → length (wire_field d v)
      ≡ length (wire_key d.tag (wiretype_map d.type)) + length (wire_value d.type v)
unfolding wire_field
length-wire_field d v = length-append (wire_key d.tag (wiretype_map d.type)) (wire_value d.type v)

-- What `encode` comes to: the field is written, or there is no memory, which `R` holds of, and the
-- contents are as they were or end in the key alone.
abbrev pub Encodes :
    {M : Type 0}
    → (AllocatorRef → Type 0)
    → Buffer
    → FieldDescriptor
    → Input
    → Outcome (Done M)
    → Type 0
Encodes R b d v (ok (no_error, b', m)) = Extends b (wire_field d v) b'
Encodes R b d v (ok (alloc, b', m)) =
    R b.allocator × ((b' ≡ b) ⊎ Extends b (wire_key d.tag (wiretype_map d.type)) b')
Encodes R b d v _ = ⊥

module _ {M : Type 0} (a : Allocator M) (laws : IsAllocator a) (R : AllocatorRef → Type 0)
    (refusal : (m : M) (b : Buffer) (n : ℕ) → (grow a m b n).0 ≡ none → R b.allocator) where
  encode_varint-Appends :
      (m : M) (b : Buffer) (d : FieldDescriptor) (v : ℕ)
      → IsValid b
      → IsVarint d.type v
      → b.size + length (wire_scalar d.type v) < 2 ^ 64
      → Appends R b (wire_scalar d.type v) (encode_varint a m b d (number v))
  unfolding encode_varint
  encode_varint-Appends m b d v w h k =
      rw (size-wire_scalar d.type v h, pack-wire_scalar d.type v h)
        (append-Appends a laws R refusal m b (length (wire_scalar d.type v)) (wire_scalar d.type v)
          w refl k)

  encode_length-Appends :
      (m : M) (b : Buffer) (d : FieldDescriptor) (v : Input) (s : List ℕ) (n : ℕ)
      → IsValid b
      → length_source d.type v ≡ ok (s, n)
      → IsU32 n
      → n ≤ length s
      → b.size + length (base128 4 n ++ take n s) < 2 ^ 64
      → Appends R b (base128 4 n ++ take n s) (encode_length a m b d v)
  unfolding encode_length
  encode_length-Appends m b d v s n w e h l k =
      let full : length (base128 4 n ++ take n s) ≡ length (base128 4 n) + n =
        omega (arith, length-append (base128 4 n) (take n s), length-take n s) in
      rw (e, loaded s n l, pack_uint32-base128 n h)
        (append-Appends a laws R refusal m b (add_size (Varint.size_uint32 n) n)
          (base128 4 n ++ take n s) w (omega (arith, size-base128 n h))
          (omega (arith, size-base128 n h)))

  number-Appends :
      (m : M) (b : Buffer) (d : FieldDescriptor) (t : FieldType) (v : ℕ)
      → IsValid b
      → IsInput t (number v)
      → b.size + length (wire_value t (number v)) < 2 ^ 64
      → Appends R b
          (wire_value t (number v))
          (encode_value a (wiretype_map t) m b (record d { type = t }) (number v))
  unfolding encode_value encode_64bit encode_32bit wire_value wire_scalar wiretype_map length_source
  number-Appends m b d int32 v w h k = encode_varint-Appends m b (record d { type = int32 }) v w h k
  number-Appends m b d int64 v w h k = encode_varint-Appends m b (record d { type = int64 }) v w h k
  number-Appends m b d uint32 v w h k =
      encode_varint-Appends m b (record d { type = uint32 }) v w h k
  number-Appends m b d uint64 v w h k =
      encode_varint-Appends m b (record d { type = uint64 }) v w h k
  number-Appends m b d sint32 v w h k =
      encode_varint-Appends m b (record d { type = sint32 }) v w h k
  number-Appends m b d sint64 v w h k =
      encode_varint-Appends m b (record d { type = sint64 }) v w h k
  number-Appends m b d bool v w h k = encode_varint-Appends m b (record d { type = bool }) v w h k
  number-Appends m b d enum v w h k = encode_varint-Appends m b (record d { type = enum }) v w h k
  number-Appends m b d fixed32 v w h k =
      append-Appends a laws R refusal m b 4 (le_bytes 4 v) w (sym (length-le_bytes 4 v))
        (omega (arith, length-le_bytes 4 v))
  number-Appends m b d sfixed32 v w h k =
      append-Appends a laws R refusal m b 4 (le_bytes 4 v) w (sym (length-le_bytes 4 v))
        (omega (arith, length-le_bytes 4 v))
  number-Appends m b d float v w h k =
      append-Appends a laws R refusal m b 4 (le_bytes 4 v) w (sym (length-le_bytes 4 v))
        (omega (arith, length-le_bytes 4 v))
  number-Appends m b d fixed64 v w h k =
      append-Appends a laws R refusal m b 8 (le_bytes 8 v) w (sym (length-le_bytes 8 v))
        (omega (arith, length-le_bytes 8 v))
  number-Appends m b d sfixed64 v w h k =
      append-Appends a laws R refusal m b 8 (le_bytes 8 v) w (sym (length-le_bytes 8 v))
        (omega (arith, length-le_bytes 8 v))
  number-Appends m b d double v w h k =
      append-Appends a laws R refusal m b 8 (le_bytes 8 v) w (sym (length-le_bytes 8 v))
        (omega (arith, length-le_bytes 8 v))
  number-Appends m b d _ v w h k = elim h [ ]

  text-Appends :
      (m : M) (b : Buffer) (d : FieldDescriptor) (t : FieldType) (s : List ℕ) (n : ℕ)
      → IsValid b
      → IsInput t (text s n)
      → b.size + length (wire_value t (text s n)) < 2 ^ 64
      → Appends R b
          (wire_value t (text s n))
          (encode_value a (wiretype_map t) m b (record d { type = t }) (text s n))
  unfolding encode_value encode_64bit encode_32bit wire_value wire_scalar wiretype_map length_source
  text-Appends m b d string s n w (h, l) k =
      encode_length-Appends m b (record d { type = string }) (text s n) s n w
        (ap (λ c. ok (s, c)) (omega arith)) h l k
  text-Appends m b d bytes s n w (h, l) k =
      encode_length-Appends m b (record d { type = bytes }) (text s n) s n w
        (ap (λ c. ok (s, c)) (omega arith)) h l k
  text-Appends m b d _ s n w h k = elim h [ ]

  encoder-Appends :
      (m : M) (b : Buffer) (d : FieldDescriptor) (t : FieldType) (e : Buffer)
      → IsValid b
      → IsInput t (encoder e)
      → b.size + length (wire_value t (encoder e)) < 2 ^ 64
      → Appends R b
          (wire_value t (encoder e))
          (encode_value a (wiretype_map t) m b (record d { type = t }) (encoder e))
  unfolding encode_value encode_64bit encode_32bit wire_value wire_scalar wiretype_map length_source
  encoder-Appends m b d message e w (h, l) k =
      encode_length-Appends m b (record d { type = message }) (encoder e) e.block e.size w
        (ap (λ c. ok (e.block, c)) (omega arith)) h l k
  encoder-Appends m b d _ e w h k = elim h [ ]

  pub value-Appends :
      (m : M) (b : Buffer) (d : FieldDescriptor) (v : Input)
      → IsValid b
      → IsInput d.type v
      → b.size + length (wire_value d.type v) < 2 ^ 64
      → Appends R b (wire_value d.type v) (encode_value a (wiretype_map d.type) m b d v)
  value-Appends m b d (number v) w h k = number-Appends m b d d.type v w h k
  value-Appends m b d (text s n) w h k = text-Appends m b d d.type s n w h k
  value-Appends m b d (encoder e) w h k = encoder-Appends m b d d.type e w h k

  then_value :
      (b b' : Buffer) (d : FieldDescriptor) (v : Input) (o : Outcome (Done M))
      → Extends b (wire_key d.tag (wiretype_map d.type)) b'
      → Appends R b' (wire_value d.type v) o
      → Encodes R b d v o
  unfolding wire_field
  then_value b b' d v (ok (no_error, b'', m)) x y =
      Extends-trans b b' b'' (wire_key d.tag (wiretype_map d.type)) (wire_value d.type v) x y
  then_value b b' d v (ok (alloc, b'', m)) x (r, y) =
      (subst R x.same r, inr (subst (Extends b (wire_key d.tag (wiretype_map d.type))) (sym y) x))
  then_value b b' d v _ x y = elim y [ ]

  after_key :
      (b : Buffer) (d : FieldDescriptor) (v : Input) (o : Outcome (Done M))
      → IsInput d.type v
      → b.size + length (wire_field d v) < 2 ^ 64
      → Appends R b (wire_key d.tag (wiretype_map d.type)) o
      → Encodes R b d v (o >>= encode_after a (wiretype_map d.type) d v)
  unfolding encode_after
  after_key b d v (ok (no_error, b', m)) h k x =
      then_value b b' d v (encode_value a (wiretype_map d.type) m b' d v) x
        (value-Appends m b' d v x.valid h (omega (arith, x.longer, length-wire_field d v)))
  after_key b d v (ok (alloc, b', m)) h k (r, x) = (r, inl x)
  after_key b d v _ h k x = elim x [ ]

  -- `encode` of a value of the field's type, in a buffer that `size_t` can count: behind the contents it
  -- writes the key and the value; or it reports PB_ERROR_ALLOC, the allocator then refused, and the
  -- contents are as they were or end in the key alone.
  pub encode-Encodes :
      (m : M) (b : Buffer) (d : FieldDescriptor) (v : Input)
      → IsValid b
      → d.tag < 2 ^ 29
      → IsInput d.type v
      → b.size + length (wire_field d v) < 2 ^ 64
      → Encodes R b d v (encode a m b d v)
  unfolding encode
  encode-Encodes m b d v w t h k =
      let (bytes_eq, size_eq) = packed_key d.tag (wiretype_map d.type) t in
      after_key b d v
        (append a m b (Varint.size_uint32 (key d.tag (wiretype_map d.type)))
          (ok (Varint.pack_uint32 (key d.tag (wiretype_map d.type)))))
        h k
        (rw bytes_eq (
          append-Appends a laws R refusal m b (Varint.size_uint32 (key d.tag (wiretype_map d.type)))
            (wire_key d.tag (wiretype_map d.type)) w size_eq
            (omega (arith, size_eq, length-wire_field d v))))
