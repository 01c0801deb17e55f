-- ===== src/Core/Decoder/Progress.antt =====
-- Every round of the decoder's loops fails or moves the stream forward.
use protobluff.Common.{
  ℕ, zero, suc, ◌≤◌, ◌≡◌, refl, sym, ap, ◌∙◌, arith, false, not, ◌&&◌, Option, none, some, ◌⊎◌, inl,
  inr, ltb, ◌==◌, if-elim, add_size, shr, bit_and,
}
use mathlib.Core.Path.{subst}
use protobluff.Core.Types.{Error, no_error, wire_number, uint32, Outcome, ok, err, fault, ◌>>=◌}
use protobluff.Core.Descriptor.{FieldDescriptor, Descriptor, field_by_tag, wiretype_map}
use protobluff.Core.Stream.{Stream, Value, number, text, read, skip, left}
use protobluff.Core.Stream.Progress.{IsValid, Ahead, Ahead-IsValid, read-Ahead, skip-Ahead}
use protobluff.Core.Stream.Errors.{IsReadError, read-err, skip-err}
use protobluff.Core.Decoder.{
  Handler, State, no_failure, skipped, handled, packed_value, packed_rounds, packed_field,
  plain_field, field, keyed,
}

-- `s'` is `s`, or further on in its buffer.
pub record Beyond (s s' : Stream) : Type 0 where
  pub same : s'.buffer ≡ s.buffer
  pub further : s.position ≤ s'.position
  pub inside : s'.position ≤ s.buffer.size

-- A step that fails, or moves the stream forward; or one that fails, or does not move it backward.
abbrev pub Moves : {U : Type 0} → Stream → Outcome (State U) → Type 0
Moves s (ok (e, s', u)) = (no_failure e ≡ false) ⊎ Ahead s s'
Moves s (err e) = ⊥
Moves s fault = Unit

abbrev pub Stays : {U : Type 0} → Stream → Outcome (State U) → Type 0
Stays s (ok (e, s', u)) = (no_failure e ≡ false) ⊎ Beyond s s'
Stays s (err e) = ⊥
Stays s fault = Unit

failed : (e : Error) → IsReadError e → no_failure e ≡ false
failed e (inl x) = ap no_failure x
failed e (inr x) = ap no_failure x

Beyond-refl : (s : Stream) → IsValid s → Beyond s s
Beyond-refl s v = record { same = refl; further = omega arith; inside = v.inside }

Ahead-Beyond : (s s' s'' : Stream) → Ahead s s' → Beyond s' s'' → Ahead s s''
Ahead-Beyond s s' s'' x y = record {
  same = y.same ∙ x.same;
  further = omega (arith, x.further, y.further);
  inside = omega (arith, y.inside, ap (λ b. b.size) x.same);
}

Moves-after :
    {U : Type 0} (s s' : Stream) (o : Outcome (State U)) → Ahead s s' → Stays s' o → Moves s o
Moves-after s s' (ok (e, s'', u)) x (inl y) = inl y
Moves-after s s' (ok (e, s'', u)) x (inr y) = inr (Ahead-Beyond s s' s'' x y)
Moves-after s s' (err e) x y = y
Moves-after s s' fault x y = y

Stays-Moves : {U : Type 0} (s : Stream) (o : Outcome (State U)) → Moves s o → Stays s o
Stays-Moves s (ok (e, s', u)) (inl x) = inl x
Stays-Moves s (ok (e, s', u)) (inr x) =
    inr record { same = x.same; further = omega (arith, x.further); inside = x.inside }
Stays-Moves s (err e) x = x
Stays-Moves s fault x = x

Moves-trans :
    {U : Type 0} (s s' : Stream) (o : Outcome (State U)) → Ahead s s' → Moves s' o → Moves s o
Moves-trans s s' o x y = Moves-after s s' o x (Stays-Moves s' o y)

-- A loop whose rounds are `step`: behind a failure it ends, and behind a move it goes on.
pub Stays->>= :
    {U : Type 0} (s : Stream) (o : Outcome (State U))
    (rest : Error → Stream → U → Outcome (State U))
    → ((e : Error) (s' : Stream) (u : U) → no_failure e ≡ false → rest e s' u ≡ ok (e, s', u))
    → ((e : Error) (s' : Stream) (u : U) → Ahead s s' → Stays s' (rest e s' u))
    → Moves s o
    → Stays s (o >>= λ r. rest r.0 r.1 r.2)
Stays->>= s (ok (e, s', u)) rest f g (inl x) = subst (Stays s) (sym (f e s' u x)) (inl x)
Stays->>= s (ok (e, s', u)) rest f g (inr x) =
    Stays-Moves s (rest e s' u) (Moves-after s s' (rest e s' u) x (g e s' u x))
Stays->>= s (err e) rest f g x = x
Stays->>= s fault rest f g x = x

module _ {U : Type 0} (handler : Handler U) where
  packed_value-Moves :
      (d : FieldDescriptor) (s : Stream) (u : U) (o : Outcome (Value × Stream))
      → IsValid s
      → read s d.type ≡ o
      → Moves s (packed_value handler d o s u)
  unfolding packed_value handled
  packed_value-Moves d s u (ok (v, s')) w e = inr (read-Ahead s s' d.type v w e)
  packed_value-Moves d s u (err x) w e = inl (failed x (read-err s d.type x e))
  packed_value-Moves d s u fault w e = tt

  plain_field-Moves :
      (d : FieldDescriptor) (s : Stream) (u : U) (o : Outcome (Value × Stream))
      → IsValid s
      → read s d.type ≡ o
      → Moves s (plain_field handler d o s u)
  unfolding plain_field handled
  plain_field-Moves d s u (ok (number n, s')) w e = inr (read-Ahead s s' d.type (number n) w e)
  plain_field-Moves d s u (ok (text from n, s')) w e =
      inr (read-Ahead s s' d.type (text from n) w e)
  plain_field-Moves d s u (err x) w e = inl (failed x (read-err s d.type x e))
  plain_field-Moves d s u fault w e = tt

  skipped-Moves :
      (wiretype : ℕ) (s : Stream) (u : U) (o : Outcome Stream)
      → IsValid s
      → skip s wiretype ≡ o
      → Moves s (skipped o s u)
  unfolding skipped
  skipped-Moves wiretype s u (ok s') w e = inr (skip-Ahead s s' wiretype w e)
  skipped-Moves wiretype s u (err x) w e = inl (failed x (skip-err s wiretype x e))
  skipped-Moves wiretype s u fault w e = tt

  pub packed_rounds-failed :
      (n : ℕ) (d : FieldDescriptor) (stop : ℕ) (e : Error) (s : Stream) (u : U)
      → no_failure e ≡ false
      → packed_rounds handler n d stop e s u ≡ ok (e, s, u)
  unfolding packed_rounds
  packed_rounds-failed zero d stop e s u h = refl
  packed_rounds-failed (suc n) d stop e s u h = rw h refl

  pub packed_step-Moves :
      (d : FieldDescriptor) (s : Stream) (u : U)
      → IsValid s
      → Moves s (packed_value handler d (read s d.type) s u)
  packed_step-Moves d s u w = packed_value-Moves d s u (read s d.type) w refl

  pub packed_rounds-Stays :
      (n : ℕ) (d : FieldDescriptor) (stop : ℕ) (e : Error) (s : Stream) (u : U)
      → IsValid s
      → Stays s (packed_rounds handler n d stop e s u)
  unfolding packed_rounds
  packed_rounds-Stays zero d stop e s u w = inr (Beyond-refl s w)
  packed_rounds-Stays (suc n) d stop e s u w =
      if-elim (Stays s) (no_failure e && ltb s.position stop) _ _
        (Stays->>= s (packed_value handler d (read s d.type) s u) (packed_rounds handler n d stop)
          (packed_rounds-failed n d stop)
          (λ e' s' u' x. packed_rounds-Stays n d stop e' s' u' (Ahead-IsValid s s' w x))
          (packed_step-Moves d s u w))
        (inr (Beyond-refl s w))

  packed_field-Moves :
      (d : FieldDescriptor) (s : Stream) (u : U) (o : Outcome (Value × Stream))
      → IsValid s
      → read s uint32 ≡ o
      → Moves s (packed_field handler d o s u)
  unfolding packed_field
  packed_field-Moves d s u (ok (number n, s')) w e =
      let x = read-Ahead s s' uint32 (number n) w e in
      let w' = Ahead-IsValid s s' w x in
      if-elim (Moves s) (ltb s'.buffer.size (add_size s'.position n)) _ _ (inl refl) (
        Moves-after s s' _ x
          (packed_rounds-Stays (left s') d (add_size s'.position n) no_error s' u w'))
  packed_field-Moves d s u (ok (text from n, s')) w e = tt
  packed_field-Moves d s u (err x) w e = inl (failed x (read-err s uint32 x e))
  packed_field-Moves d s u fault w e = tt

  field-Moves :
      (o : Option FieldDescriptor) (wiretype : ℕ) (s : Stream) (u : U)
      → IsValid s
      → Moves s (field handler o wiretype s u)
  unfolding field
  field-Moves none wiretype s u w = skipped-Moves wiretype s u (skip s wiretype) w refl
  field-Moves (some d) wiretype s u w =
      if-elim (Moves s) (not (wiretype == wire_number (wiretype_map d.type)) && wiretype == 2) _ _
        (packed_field-Moves d s u (read s uint32) w refl)
        (plain_field-Moves d s u (read s d.type) w refl)

  keyed-Moves :
      (r : Descriptor) (s : Stream) (u : U) (o : Outcome (Value × Stream))
      → IsValid s
      → read s uint32 ≡ o
      → Moves s (keyed handler r o s u)
  unfolding keyed
  keyed-Moves r s u (ok (number key, s')) w e =
      let x = read-Ahead s s' uint32 (number key) w e in
      Moves-trans s s' _ x
        (field-Moves (field_by_tag r (shr key 3)) (bit_and key 7) s' u (Ahead-IsValid s s' w x))
  keyed-Moves r s u (ok (text from n, s')) w e = tt
  keyed-Moves r s u (err x) w e = inl (failed x (read-err s uint32 x e))
  keyed-Moves r s u fault w e = tt

  -- A round of `pb_decoder_decode` on a valid stream, whatever the bytes and the handler: it fails, or
  -- it leaves the stream at least one byte further on in the same buffer and not past its end, unless
  -- its behaviour is undefined.
  pub round-Moves :
      (r : Descriptor) (s : Stream) (u : U)
      → IsValid s
      → Moves s (keyed handler r (read s uint32) s u)
  round-Moves r s u w = keyed-Moves r s u (read s uint32) w refl
