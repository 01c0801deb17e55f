-- ===== src/Core/Encoder/Encode.antt =====
-- `pb_encoder_encode`: what it writes, and what becomes of its error.
use protobluff.Common.{
  ℕ, ◌+◌, ◌^◌, ◌<◌, ◌≡◌, refl, sym, ap, ◌∙◌, arith, none, some, true, Bool-cases, ◌&&◌, List, [],
  ◌∷◌, ◌++◌, ltb, if◌then◌else◌, length, add_size, All, length-append, inl, inr, ◌≢◌,
}
use mathlib.Core.List.{append-nil}
use protobluff.Core.Types.{Error, no_error, alloc, Outcome, ok, err, fault, ◌>>=◌, >>=-split}
use protobluff.Core.Memory.{Allocator, IsAllocator}
use protobluff.Core.Buffer.{Buffer, custom, valid, grow}
use protobluff.Core.Buffer.Laws.{contents, IsValid, grow-none}
use protobluff.Core.Descriptor.{FieldDescriptor, Descriptor, field_by_tag, packed}
use protobluff.Core.Encoder.{
  Input, Done, Encoder, encode, encode_each, encode_packed, encode_field, encoder_encode,
}
use protobluff.Core.Encoder.Layout.{Extends, Extends-trans, Appends}
use protobluff.Core.Encoder.Wire.{IsInput, wire_field, wire_fields, wire_values, wire_packed}
use protobluff.Core.Encoder.Runs.{Encodes, encode-Encodes}
use protobluff.Core.Encoder.Packed.{IsNumber, encode_packed-Appends}

-- The call succeeded and wrote `p`.
abbrev pub Writes : {M : Type 0} → Buffer → List ℕ → Outcome (Done M) → Type 0
Writes b p (ok (no_error, b', m)) = Extends b p b'
Writes b p _ = ⊥

-- What `pb_encoder_encode` is to write of the values of a field.
unfoldable pub wire_call : FieldDescriptor → List Input → List ℕ
wire_call d vs = if ltb 1 (length vs) && packed d then wire_packed d vs else wire_fields d vs

-- The values are of the field's type; those of a packed field are numbers, and their bytes can be
-- counted by a uint32_t.
pub record AreInputs (d : FieldDescriptor) (vs : List Input) : Type 0 where
  pub typed : All (IsInput d.type) vs
  pub numbers : packed d ≡ true → All (IsNumber d.type) vs
  pub counted : length (wire_values d.type vs) < 2 ^ 32

-- An allocator that always has memory.
abbrev pub IsAmple : {M : Type 0} → Allocator M → Type 0
IsAmple {M} a = (m : M) (block : List ℕ) (n : ℕ) → (a.resize m block n).0 ≢ none

grow-ample :
    {M : Type 0} (a : Allocator M)
    → IsAllocator a
    → IsAmple a
    → (m : M) (b : Buffer) (n : ℕ) → (grow a m b n).0 ≡ none
    → b.allocator ≢ custom
grow-ample a laws ample m b n e c = ample m b.block (add_size b.size n) (grow-none a laws m b n c e)

module _ {M : Type 0} (a : Allocator M) (laws : IsAllocator a) (ample : IsAmple a) where
  Writes-packed :
      (b : Buffer) (p : List ℕ) (o : Outcome (Done M))
      → b.allocator ≡ custom
      → Appends (λ r. r ≢ custom) b p o
      → Writes b p o
  Writes-packed b p (ok (no_error, b', m)) c x = x
  Writes-packed b p (ok (alloc, b', m)) c (r, x) = absurd (r c)
  Writes-packed b p _ c x = elim x [ ]

  Writes-field :
      (b : Buffer) (d : FieldDescriptor) (v : Input) (o : Outcome (Done M))
      → b.allocator ≡ custom
      → Encodes (λ r. r ≢ custom) b d v o
      → Writes b (wire_field d v) o
  Writes-field b d v (ok (no_error, b', m)) c x = x
  Writes-field b d v (ok (alloc, b', m)) c (r, x) = absurd (r c)
  Writes-field b d v _ c x = elim x [ ]

  Writes-after :
      (b b' : Buffer) (p q : List ℕ) (o : Outcome (Done M))
      → Extends b p b'
      → Writes b' q o
      → Writes b (p ++ q) o
  Writes-after b b' p q (ok (no_error, b'', m)) x y = Extends-trans b b' b'' p q x y
  Writes-after b b' p q _ x y = elim y [ ]

  then_rest :
      (b : Buffer) (d : FieldDescriptor) (v : Input) (vs : List Input) (o : Outcome (Done M))
      → Writes b (wire_field d v) o
      → ((b' : Buffer) (m' : M)
          → Extends b (wire_field d v) b'
          → Writes b' (wire_fields d vs) (encode_each a m' b' d vs no_error))
      → Writes b (wire_fields d (v ∷ vs)) (o >>= λ r. encode_each a r.2 r.1 d vs r.0)
  unfolding wire_fields
  then_rest b d v vs (ok (no_error, b', m)) x f =
      Writes-after b b' (wire_field d v) (wire_fields d vs) (encode_each a m b' d vs no_error) x
        (f b' m x)
  then_rest b d v vs _ x f = elim x [ ]

  encode_each-Writes :
      (m : M) (b : Buffer) (d : FieldDescriptor) (vs : List Input)
      → IsValid b
      → b.allocator ≡ custom
      → d.tag < 2 ^ 29
      → All (IsInput d.type) vs
      → b.size + length (wire_fields d vs) < 2 ^ 64
      → Writes b (wire_fields d vs) (encode_each a m b d vs no_error)
  unfolding encode_each wire_fields
  encode_each-Writes m b d [] w c t h k = record {
    written = sym (append-nil (contents b));
    valid = w;
    longer = omega arith;
    same = refl;
  }
  encode_each-Writes m b d (v ∷ vs) w c t (h, hs) k =
      let l = length-append (wire_field d v) (wire_fields d vs) in
      then_rest b d v vs (encode a m b d v)
        (Writes-field b d v (encode a m b d v) c (
          encode-Encodes a laws (λ r. r ≢ custom) (grow-ample a laws ample) m b d v w t h
            (omega (arith, l))))
        (λ b' m' x.
          encode_each-Writes m' b' d vs x.valid (x.same ∙ c) t hs (omega (arith, l, x.longer)))

  field-Writes :
      (m : M) (b : Buffer) (d : FieldDescriptor) (vs : List Input)
      → IsValid b
      → b.allocator ≡ custom
      → d.tag < 2 ^ 29
      → AreInputs d vs
      → b.size + length (wire_call d vs) < 2 ^ 64
      → Writes b (wire_call d vs) (encode_field a m b (some d) vs)
  unfolding encode_field wire_call
  field-Writes m b d vs w c t i k = elim (Bool-cases (ltb 1 (length vs) && packed d)) [
    | inl e ↦
        let is_packed : packed d ≡ true = ground arith in
        let l : length (wire_call d vs) ≡ length (wire_packed d vs) = ap length (simp e) in
        rw e (
          Writes-packed b (wire_packed d vs) (encode_packed a m b d vs) c (
            encode_packed-Appends a laws (λ r. r ≢ custom) (grow-ample a laws ample) m b d vs w t
              (i.numbers is_packed) i.counted (omega (arith, l))))
    | inr e ↦
        let l : length (wire_call d vs) ≡ length (wire_fields d vs) = ap length (simp e) in
        rw e (encode_each-Writes m b d vs w c t i.typed (omega (arith, l)))
  ]

  -- `pb_encoder_encode` with an allocator that has memory, of values of the type of a field that the
  -- descriptor has: it answers PB_ERROR_NONE, and behind the old contents of the buffer, which stays
  -- valid, are exactly the bytes of the wire format: a key and a value for each, or for several values
  -- of a packed field one key, the length and the values. No call behaves undefined.
  pub encoder_encode-Writes :
      (m : M) (s : Encoder) (r : Descriptor) (d : FieldDescriptor) (tag : ℕ) (vs : List Input)
      → IsValid s.buffer
      → s.buffer.allocator ≡ custom
      → s.descriptor ≡ some r
      → field_by_tag r tag ≡ some d
      → d.tag < 2 ^ 29
      → AreInputs d vs
      → s.buffer.size + length (wire_call d vs) < 2 ^ 64
      → Writes s.buffer (wire_call d vs) (encoder_encode a m s tag vs)
  unfolding encoder_encode valid
  encoder_encode-Writes m s r d tag vs w c e f t i k =
      simp (c, e, f) (field-Writes m s.buffer d vs w c t i k)

answered : {A : Type 0} (r : Outcome A) → (r >>= λ x. ok x) ≡ r
answered (ok x) = refl
answered (err e) = refl
answered fault = refl

module _ {M : Type 0} (a : Allocator M) where
  -- The loop over the values goes on behind an error: with any values in front of it, what is answered, the
  -- error, the buffer and the state of the allocator, is what `encode` answers for the last value on whatever
  -- the others left. An error of the others is not answered.
  pub encode_each-last :
      (m : M) (b : Buffer) (d : FieldDescriptor) (vs : List Input) (v : Input) (e : Error)
      → encode_each a m b d (vs ++ (v ∷ [])) e
        ≡ (encode_each a m b d vs e >>= λ r. encode a r.2 r.1 d v)
  unfolding encode_each
  encode_each-last m b d [] v e = answered (encode a m b d v)
  encode_each-last m b d (w ∷ vs) v e =
      >>=-split (encode a m b d w) (λ x. encode_each a x.2 x.1 d vs x.0) (λ r. encode a r.2 r.1 d v)
        (λ x. encode_each a x.2 x.1 d (vs ++ (v ∷ [])) x.0)
        (λ x. encode_each-last x.2 x.1 d vs v x.0)
