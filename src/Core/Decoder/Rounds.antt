-- ===== src/Core/Decoder/Rounds.antt =====
-- As many rounds as there are bytes left are enough for the decoder's loops.
use protobluff.Common.{
  ℕ, zero, suc, ◌-◌, ◌≤◌, ◌≡◌, refl, sym, ap, ◌∙◌, arith, Bool, true, false, not, ◌&&◌, Bool-cases,
  inl, inr, ltb, ◌==◌, if◌then◌else◌,
}
use mathlib.Core.Path.{subst}
use protobluff.Core.Types.{
  Error, no_error, alloc, invalid, varint, offset, absent, eom, uint32, Outcome, ok, err, fault,
  ◌>>=◌,
}
use protobluff.Core.Descriptor.{FieldDescriptor, Descriptor}
use protobluff.Core.Buffer.{valid}
use protobluff.Core.Stream.{Stream, create, left, read}
use protobluff.Core.Stream.Progress.{IsValid, Ahead, Ahead-IsValid}
use protobluff.Core.Decoder.{
  Decoder, decode, Handler, State, no_failure, packed_value, packed_rounds, keyed, rounds,
}
use protobluff.Core.Decoder.Progress.{Moves, packed_step-Moves, packed_rounds-failed, round-Moves}

-- The loop has ended: its condition, read off the state it left, is false.
abbrev pub Ended : {U : Type 0} → (Stream → Bool) → Outcome (State U) → Type 0
Ended goes_on (ok (e, s, u)) = (no_failure e && goes_on s) ≡ false
Ended goes_on (err e) = ⊥
Ended goes_on fault = Unit

-- The conditions of the two loops, beside `!error`.
abbrev pub before : ℕ → Stream → Bool
before stop s = ltb s.position stop

abbrev pub is_left : Stream → Bool
is_left s = not (left s == 0)

pub left_lem : (s : Stream) → IsValid s → left s ≡ s.buffer.size - s.position
unfolding left
left_lem s v = omega (arith, v.small, v.inside)

Ended-failed :
    {U : Type 0} (f : Stream → Bool) (e : Error) (s : Stream) (u : U)
    → no_failure e ≡ false
    → Ended f (ok (e, s, u))
Ended-failed f e s u h = rw h refl

Ended->>= :
    {U : Type 0} (goes_on : Stream → Bool) (s : Stream) (o : Outcome (State U))
    (rest : Error → Stream → U → Outcome (State U))
    → ((e : Error) (s' : Stream) (u : U) → no_failure e ≡ false → rest e s' u ≡ ok (e, s', u))
    → ((e : Error) (s' : Stream) (u : U) → Ahead s s' → Ended goes_on (rest e s' u))
    → Moves s o
    → Ended goes_on (o >>= λ r. rest r.0 r.1 r.2)
Ended->>= goes_on s (ok (e, s', u)) rest f g (inl x) =
    subst (Ended goes_on) (sym (f e s' u x)) (Ended-failed goes_on e s' u x)
Ended->>= goes_on s (ok (e, s', u)) rest f g (inr x) = g e s' u x
Ended->>= goes_on s (err e) rest f g x = x
Ended->>= goes_on s fault rest f g x = x

-- The test of the condition, before a round.
Ended-if :
    {U : Type 0} (goes_on : Stream → Bool) (more : Outcome (State U)) (e : Error) (s : Stream)
    (u : U)
    → Ended goes_on more
    → Ended goes_on (if no_failure e && goes_on s then more else ok (e, s, u))
Ended-if goes_on more e s u h = elim (Bool-cases (no_failure e && goes_on s)) [
  | inl x ↦ rw x h
  | inr x ↦ rw x x
]

complete :
    {U : Type 0} (u' : U) (o : Outcome (State U))
    → Ended is_left o
    → ◌≡◌ {A = Outcome (Error × U)} (o >>= λ x. ok (x.0, x.2)) (ok (no_error, u'))
    → (s : Stream) × (o ≡ ok (no_error, s, u')) × (left s ≡ 0)
complete u' (ok (no_error, s, u)) h e =
    let same : u ≡ u' = cc in (s, ap (λ w. ok (no_error, s, w)) same, ground (arith, h))
complete u' (ok (alloc, s, u)) h e = cc
complete u' (ok (invalid, s, u)) h e = cc
complete u' (ok (varint, s, u)) h e = cc
complete u' (ok (offset, s, u)) h e = cc
complete u' (ok (absent, s, u)) h e = cc
complete u' (ok (eom, s, u)) h e = cc
complete u' (err x) h e = cc
complete u' fault h e = cc

module _ {U : Type 0} (handler : Handler U) where
  -- The loop over the values of a packed field, up to a place inside the buffer, has ended after as
  -- many rounds as the stream has bytes left.
  pub packed_rounds-Ended :
      (n : ℕ) (d : FieldDescriptor) (stop : ℕ) (e : Error) (s : Stream) (u : U)
      → IsValid s
      → stop ≤ s.buffer.size
      → left s ≤ n
      → Ended (before stop) (packed_rounds handler n d stop e s u)
  unfolding packed_rounds
  packed_rounds-Ended zero d stop e s u v h k = ground (arith, left_lem s v)
  packed_rounds-Ended (suc n) d stop e s u v h k = Ended-if (before stop) _ e s u (
      Ended->>= (before stop) s (packed_value handler d (read s d.type) s u)
        (packed_rounds handler n d stop) (packed_rounds-failed handler n d stop)
        (λ e' s' u' x.
          let v' = Ahead-IsValid s s' v x in
          packed_rounds-Ended n d stop e' s' u' v' (omega (arith, ap (λ b. b.size) x.same))
            (omega (arith, ap (λ b. b.size) x.same, x.further, left_lem s v, left_lem s' v')))
        (packed_step-Moves handler d s u v))

  rounds-failed :
      (n : ℕ) (r : Descriptor) (e : Error) (s : Stream) (u : U)
      → no_failure e ≡ false
      → rounds handler n r e s u ≡ ok (e, s, u)
  unfolding rounds
  rounds-failed zero r e s u h = refl
  rounds-failed (suc n) r e s u h = rw h refl

  -- The loop of `pb_decoder_decode` on a valid stream has ended after as many rounds as there are bytes
  -- left, whatever the bytes, the descriptor and the handler: the state it leaves has an error, or the
  -- whole buffer is read; unless a round's behaviour is undefined.
  pub rounds-Ended :
      (n : ℕ) (r : Descriptor) (e : Error) (s : Stream) (u : U)
      → IsValid s
      → left s ≤ n
      → Ended is_left (rounds handler n r e s u)
  unfolding rounds
  rounds-Ended zero r e s u v k = ground (arith, left_lem s v)
  rounds-Ended (suc n) r e s u v k = Ended-if is_left _ e s u (
      Ended->>= is_left s (keyed handler r (read s uint32) s u) (rounds handler n r)
        (rounds-failed n r)
        (λ e' s' u' x.
          let v' = Ahead-IsValid s s' v x in
          rounds-Ended n r e' s' u' v'
            (omega (arith, ap (λ b. b.size) x.same, x.further, left_lem s v, left_lem s' v')))
        (round-Moves handler r s u v))

  -- `pb_decoder_decode` of a valid decoder answers PB_ERROR_NONE only if its loop read the buffer to the
  -- end without an error.
  pub decode_complete :
      (c : Decoder) (u u' : U)
      → IsValid (create c.buffer)
      → valid c.buffer ≡ true
      → decode handler c u ≡ ok (no_error, u')
      → (s : Stream) × (rounds handler
            (left (create c.buffer))
            c.descriptor
            no_error
            (create c.buffer)
            u
          ≡ ok (no_error, s, u'))
        × (left s ≡ 0)
  unfolding decode
  decode_complete c u u' v h e =
      let run = rounds handler (left (create c.buffer)) c.descriptor no_error (create c.buffer) u in
      let answer : Outcome (Error × U) = run >>= λ x. ok (x.0, x.2) in
      let e' : answer ≡ ok (no_error, u') =
        sym (ap (λ b. if b then answer else ok (invalid, u)) h) ∙ e in
      complete u' run
        (rounds-Ended (left (create c.buffer)) c.descriptor no_error (create c.buffer) u v
          (omega arith))
        e'
