-- ===== src/Message/Part/Further.antt =====
-- A round of `adjust_recursive` in src/message/part.c goes on at a later position of the journal's buffer.
use protobluff.Common.{
  ℕ, ◌^◌, ◌≤◌, ◌<◌, ◌≡◌, refl, ap, arith, not, ◌&&◌, ◌||◌, ltb, leb, ◌==◌, ◌%◌, if-elim, length,
  add_size, sub_size,
}
use protobluff.Core.Types.{uint32, Outcome, ok, ◌>>=◌, >>=-elim}
use protobluff.Core.Buffer.{Buffer}
use protobluff.Core.Stream.{Stream, create_at, advance, Value, read, skip}
use protobluff.Core.Stream.Progress.{IsValid, advance_lem, read-Ahead, skip-Ahead, Ahead-IsValid}
use protobluff.Message.Journal.{Offset}
use protobluff.Message.Part.{Part, part_empty}
use protobluff.Message.Part.Round.{
  Round, stop, again, around, scalar, field_offset, judge, length_round, tag_round, adjust_round,
}

-- The round goes on behind the position, and not past the end of the buffer.
abbrev pub Further : ℕ → ℕ → Outcome Round → Type 0
Further size position (ok stop) = Unit
Further size position (ok (again next)) = (position < next) × (next ≤ size)
Further size position (ok (around o)) = (position < o.start) × (o.start ≤ size)
Further size position _ = Unit

>>=-Further {ℓ} :
    {A : Type ℓ} (size position : ℕ) (o : Outcome A) (k : A → Outcome Round)
    → ((x : A) → o ≡ ok x → Further size position (k x))
    → Further size position (o >>= k)
>>=-Further size position o k h = >>=-elim (Further size position) o k h (λ e x. tt) tt

module _ (p : Part) (delta size position : ℕ) where
  judge-Further :
      (s : Stream) (temp : Offset) (n : ℕ)
      → IsValid s
      → s.buffer.size ≡ size
      → position < s.position
      → temp.start ≡ s.position
      → Further size position (judge p delta s temp n)
  unfolding judge
  judge-Further s temp n v same h e =
      let P = Further size position in
      if-elim P
        (not (p.offset.diff_tag == 0)
          && ltb (add_size p.offset.start p.offset.diff_origin) temp.start)
        _ _ tt
        (if-elim P (leb temp.start p.offset.start && leb (sub_size p.offset.end delta) temp.end) _ _
          (omega (arith, v.inside), omega (arith, v.inside))
          (>>=-Further size position (advance s n) (λ s'. ok (again s'.position))
            (λ s' x. let (b, q, i) = advance_lem s s' n v x in (omega arith, omega arith))))

  length_round-Further :
      (s : Stream)
      → IsValid s
      → s.buffer.size ≡ size
      → position < s.position
      → Further size position (length_round p delta position s)
  unfolding length_round field_offset
  length_round-Further s v same h = >>=-Further size position (read s uint32) _ (λ (x, s') e.
      let a = read-Ahead s s' uint32 x v e in
      judge-Further s' _ (scalar x) (Ahead-IsValid s s' v a)
        (omega (arith, ap (λ b. b.size) a.same)) (omega (arith, a.further)) refl)

  tag_round-Further :
      (r : Value × Stream)
      → IsValid r.1
      → r.1.buffer.size ≡ size
      → position < r.1.position
      → Further size position (tag_round p delta position r)
  unfolding tag_round
  tag_round-Further (x, s) v same h =
      if-elim (Further size position) (scalar x % 8 == 2) _ _ (length_round-Further s v same h) (
        >>=-Further size position (skip s (scalar x % 8)) (λ s'. ok (again s'.position))
          (λ s' e.
            let a = skip-Ahead s s' (scalar x % 8) v e in
            (omega (arith, a.further), omega (arith, a.inside))))

pub adjust_round-Further :
    (b : Buffer) (p : Part) (delta position : ℕ)
    → b.size ≤ length b.block
    → b.size < 2 ^ 64
    → position ≤ b.size
    → Further b.size position (adjust_round b p delta position)
unfolding adjust_round create_at
adjust_round-Further b p delta position holds small inside =
    let s = create_at b position in
    let v : IsValid (create_at b position) = record {
      holds = holds;
      small = small;
      inside = inside;
    } in
    if-elim (Further b.size position)
      (not (ltb position p.offset.end)
        || ((position == sub_size p.offset.start delta) && part_empty p.offset))
      _ _ tt
      (>>=-Further b.size position (read (create_at b position) uint32) _ (λ (x, s') e.
        let a = read-Ahead (create_at b position) s' uint32 x v e in
        tag_round-Further p delta b.size position (x, s')
          (Ahead-IsValid (create_at b position) s' v a) (ap (λ c. c.size) a.same) a.further))
