-- ===== src/Message/Part/Round.antt =====
-- One round of the loop of `adjust_recursive` in src/message/part.c: what it reads and how it goes on.
use protobluff.Common.{ℕ, ◌%◌, not, ◌&&◌, ◌||◌, ltb, leb, ◌==◌, if◌then◌else◌, add_size, sub_size}
use protobluff.Core.Types.{uint32, Outcome, ok, ◌>>=◌}
use protobluff.Core.Buffer.{Buffer}
use protobluff.Core.Stream.{Stream, create_at, advance, Value, number, text, read, skip}
use protobluff.Message.Journal.{Offset}
use protobluff.Message.Part.{Part, part_empty}

-- What a round of the loop of `adjust_recursive` comes to: a break, a jump to the next round at a position,
-- or a field around the part, with the offsets of `temp`. A break with an error is the outcome `err`.
pub data Round : Type 0 where
  stop : Round
  again : ℕ → Round
  around : Offset → Round

-- The uint32_t that was read.
abbrev pub scalar : Value → ℕ
scalar (number v) = v
scalar (text from n) = n

-- `temp.offset` of a field whose tag is at `tag_at`, its length at `length_at` and its contents at `start`.
unfoldable pub field_offset : ℕ → ℕ → ℕ → ℕ → Offset
field_offset tag_at length_at start n = record {
  start = start;
  end = add_size start n;
  diff_origin = sub_size tag_at start;
  diff_tag = sub_size tag_at start;
  diff_length = sub_size length_at start;
}

-- The round behind the read of the length, on the stream `s` and with `temp`.
unfoldable pub judge : Part → ℕ → Stream → Offset → ℕ → Outcome Round
judge p delta s temp n =
    if not (p.offset.diff_tag == 0) && ltb (add_size p.offset.start p.offset.diff_origin) temp.start
    then ok stop
    else if leb temp.start p.offset.start && leb (sub_size p.offset.end delta) temp.end
    then ok (around (record temp { end = add_size temp.end delta }))
    else advance s n >>= λ s'. ok (again s'.position)

-- The round behind the read of the tag at `tag_at`.
unfoldable pub length_round : Part → ℕ → ℕ → Stream → Outcome Round
unfolding judge field_offset
length_round p delta tag_at s = read s uint32 >>= λ r.
    judge p delta r.1 (field_offset tag_at s.position r.1.position (scalar r.0)) (scalar r.0)

unfoldable pub tag_round : Part → ℕ → ℕ → Value × Stream → Outcome Round
unfolding length_round
tag_round p delta tag_at (v, s) =
    if scalar v % 8 == 2
    then length_round p delta tag_at s
    else skip s (scalar v % 8) >>= λ s'. ok (again s'.position)

unfoldable pub adjust_round : Buffer → Part → ℕ → ℕ → Outcome Round
unfolding tag_round part_empty
adjust_round b p delta position =
    if not (ltb position p.offset.end)
      || ((position == sub_size p.offset.start delta) && part_empty p.offset)
    then ok stop
    else read (create_at b position) uint32 >>= tag_round p delta position
