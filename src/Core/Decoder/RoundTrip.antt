-- ===== src/Core/Decoder/RoundTrip.antt =====
-- Decoding a field that the encoder wrote.
use protobluff.Common.{
  ℕ, ◌+◌, ◌*◌, ◌^◌, ◌≤◌, ◌<◌, ◌≡◌, refl, sym, ap, ◌∙◌, arith, true, some, List, ◌++◌, ◌==◌, length,
  drop, length-append, drop-append_length, drop-drop, shr, bit_and, ==_iff,
}
use mathlib.Core.List.{append_assoc}
use protobluff.Common.Bits.{bit_and_mask}
use protobluff.Core.Types.{Wiretype, wire_number, uint32, ok}
use protobluff.Core.Descriptor.{FieldDescriptor, Descriptor, field_by_tag, wiretype_map}
use protobluff.Core.Stream.{Stream, left, number, read}
use protobluff.Core.Stream.Progress.{IsValid}
use protobluff.Core.Stream.RoundTrip.{behind, read-wire_scalar}
use protobluff.Core.Encoder
use protobluff.Core.Encoder.Wire.{
  wire_scalar, wire_value, wire_key, wire_field, IsScalar, wire_number-lt,
}
use protobluff.Core.Decoder.{Handler, value, handled, plain_field, field, keyed}
use protobluff.Core.Decoder.Rounds.{left_lem}

behind-IsValid : (s : Stream) (n : ℕ) → IsValid s → n ≤ left s → IsValid (behind s n)
behind-IsValid s n v h = record {
  holds = v.holds;
  small = v.small;
  inside = omega (arith, left_lem s v, v.inside);
}

-- The two parts of a key.
key_parts : (tag w : ℕ) → w < 8 → (shr (8 * tag + w) 3 ≡ tag) × (bit_and (8 * tag + w) 7 ≡ w)
key_parts tag w h = (omega arith, bit_and_mask 3 (8 * tag + w) ∙ omega arith)

read_key :
    (s : Stream) (tag : ℕ) (w : Wiretype) (rest : List ℕ)
    → IsValid s
    → tag < 2 ^ 29
    → drop s.position s.buffer.block ≡ wire_key tag w ++ rest
    → length (wire_key tag w) ≤ left s
    → read s uint32 ≡ ok (number (8 * tag + wire_number w), behind s (length (wire_key tag w)))
unfolding wire_key wire_scalar
read_key s tag w rest v h e l =
    read-wire_scalar s uint32 (8 * tag + wire_number w) rest v (omega (arith, wire_number-lt w)) e l

next_bytes :
    (s : Stream) (xs ys : List ℕ)
    → drop s.position s.buffer.block ≡ xs ++ ys
    → drop (s.position + length xs) s.buffer.block ≡ ys
next_bytes s xs ys e =
    sym (drop-drop (length xs) s.position s.buffer.block)
    ∙ (ap (drop (length xs)) e
        ∙ (ap (λ n. drop n (xs ++ ys)) (omega arith) ∙ drop-append_length 0 xs ys))

module _ {U : Type 0} (handler : Handler U) where
  plain_number :
      (d : FieldDescriptor) (s s' : Stream) (u : U) (v : ℕ) (w : ℕ)
      → w ≡ wire_number (wiretype_map d.type)
      → read s d.type ≡ ok (number v, s')
      → field handler (some d) w s u ≡ ok (handled handler d (value (number v)) s' u)
  unfolding field plain_field
  plain_number d s s' u v w e r =
      let same : (w == wire_number (wiretype_map d.type)) ≡ true = (==_iff _ _).1 e in
      rw (same, r) refl

  -- A round of the decoder's loop on a stream that stands at the bytes of the wire format of a number of a
  -- known field, which are those that the encoder writes, all of them left: the handler is called once,
  -- with the field's descriptor and exactly that number, and the stream then stands behind these
  -- bytes; for every type of a number, and whatever bytes follow.
  pub keyed-wire_field :
      (r : Descriptor) (d : FieldDescriptor) (s : Stream) (u : U) (v : ℕ) (rest : List ℕ)
      → IsValid s
      → d.tag < 2 ^ 29
      → field_by_tag r d.tag ≡ some d
      → IsScalar d.type v
      → drop s.position s.buffer.block ≡ wire_field d (Encoder.number v) ++ rest
      → length (wire_field d (Encoder.number v)) ≤ left s
      → keyed handler r (read s uint32) s u
        ≡ ok (
          (handler d (value (number v)) u).0,
          behind s (length (wire_field d (Encoder.number v))),
          (handler d (value (number v)) u).1,
        )
  unfolding keyed wire_field wire_value handled
  keyed-wire_field r d s u v rest w t f h e l =
      let k = wire_key d.tag (wiretype_map d.type) in
      let p = wire_scalar d.type v in
      let size = length-append k p in
      let e' : drop s.position s.buffer.block ≡ k ++ (p ++ rest) = e ∙ append_assoc k p rest in
      let few : length k ≤ left s = omega (arith, size, l) in
      let s' = behind s (length k) in
      let w' = behind-IsValid s (length k) w few in
      let (tag, wiretype) =
        key_parts d.tag (wire_number (wiretype_map d.type))
          (wire_number-lt (wiretype_map d.type)) in
      let reads =
        read-wire_scalar s' d.type v rest w' h (next_bytes s k (p ++ rest) e')
          (omega (arith, size, l, left_lem s w, left_lem s' w')) in
      let place : (s.position + length k) + length p ≡ s.position + length (k ++ p) =
        omega (arith, size) in
      rw (read_key s d.tag (wiretype_map d.type) (p ++ rest) w t e' few, tag, f)
        (plain_number d s' (behind s' (length p)) u v
            (bit_and (8 * d.tag + wire_number (wiretype_map d.type)) 7) wiretype reads
          ∙ ap
              (λ n. ok (
                (handler d (value (number v)) u).0,
                record s { position = n },
                (handler d (value (number v)) u).1,
              ))
              place)
