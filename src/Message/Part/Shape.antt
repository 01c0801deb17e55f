-- ===== src/Message/Part/Shape.antt =====
-- The offsets of a field of a message, with its key and its length prefix in front of it.
use protobluff.Common.{ℕ, ◌+◌, ◌-◌, ◌^◌, ◌≤◌, ◌<◌, ◌≡◌, arith, sub_size}
use protobluff.Message.Journal.{Offset}
use protobluff.Message.Part.{Part}
use protobluff.Message.Part.Root.{IsRoot}

-- The field `o` of a message that starts at `from`, with the key at `tag_at` and the length prefix, if it has
-- one, at `length_at`; it ends at or before `size`.
pub record IsField (from tag_at length_at size : ℕ) (o : Offset) : Type 0 where
  pub after_start : from ≤ tag_at
  pub key : tag_at < length_at
  pub prefix : length_at ≤ o.start
  pub order : o.start ≤ o.end
  pub inside : o.end ≤ size
  pub to_origin : o.diff_origin ≡ sub_size from o.start
  pub to_tag : o.diff_tag ≡ sub_size tag_at o.start
  pub to_length : o.diff_length ≡ sub_size length_at o.start

-- A field of the outermost message.
pub IsField-IsRoot :
    (p : Part) (tag_at length_at size : ℕ)
    → size < 2 ^ 64
    → IsField 0 tag_at length_at size p.offset
    → IsRoot p
IsField-IsRoot p tag_at length_at size small f = record {
  at_root = omega (arith, f.to_origin, f.order, f.inside);
  has_tag =
      let behind : p.offset.diff_tag ≡ 2 ^ 64 + tag_at - p.offset.start =
        omega (arith, f.to_tag, f.key, f.prefix, f.order, f.inside) in
      let some_bytes : 0 < p.offset.diff_tag = omega (arith, f.key, f.prefix, f.order, f.inside) in
      ground arith;
}
