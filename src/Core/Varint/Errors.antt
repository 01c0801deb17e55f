-- ===== src/Core/Varint/Errors.antt =====
-- The varint functions report a failure by a size of 0, and nothing else.
use protobluff.Common.{
  ℕ, zero, suc, ◌+◌, ◌≢◌, List, [], ◌∷◌, ltb, ◌*◌, if◌then◌else◌, bit_and, bit_or, shl, sub_size,
  arith,
}
use protobluff.Core.Types.{
  Error, FieldType, int32, int64, uint32, uint64, sint32, sint64, bool, enum, ok, err, >>=-≢-err,
}
use protobluff.Core.Varint.{
  group, unpack_rounds, unpack_width, result, unpack_uint32, unpack_uint64, second_byte,
  uint8_rounds, unpack_uint8, byte_at, negative_size, unpack_int32, unpack_int64, unpack_sint32,
  unpack_sint64, unpack, scan_loop, scan,
}

unpack_rounds-err :
    (w n b : ℕ) (d : List ℕ) (size left temp : ℕ) (e : Error)
    → unpack_rounds w n b d size left temp ≢ err e
unfolding unpack_rounds
unpack_rounds-err w zero b d size left temp e x = cc
unpack_rounds-err w (suc n) b [] size left temp e x = ground arith
unpack_rounds-err w (suc n) b (c ∷ d) size left temp e x = ground (
  arith,
  unpack_rounds-err w n c d (size + 1) (sub_size left 1)
      (bit_or temp (shl w (group n c) (7 * size))) e,
)

unpack_width-err :
    (w n : ℕ) (block : List ℕ) (left : ℕ) (e : Error) → unpack_width w n block left ≢ err e
unfolding unpack_width
unpack_width-err w n [] left e x = cc
unpack_width-err w n (b ∷ d) left e x =
    >>=-≢-err (unpack_rounds w n b d 1 left (bit_and b 0x7F)) (λ s. ok (result s))
      (unpack_rounds-err w n b d 1 left (bit_and b 0x7F) e) (λ s y. cc) x

unpack_uint8-err : (block : List ℕ) (left : ℕ) (e : Error) → unpack_uint8 block left ≢ err e
unfolding unpack_uint8 uint8_rounds second_byte
unpack_uint8-err [] left e x = cc
unpack_uint8-err (b ∷ []) left e x =
    >>=-≢-err (uint8_rounds b [] left) (λ s. ok (result s)) (λ y. ground arith) (λ s y. cc) x
unpack_uint8-err (b ∷ (c ∷ d)) left e x =
    >>=-≢-err (uint8_rounds b (c ∷ d) left) (λ s. ok (result s)) (λ y. ground arith) (λ s y. cc) x

byte_at-err : (block : List ℕ) (i : ℕ) (e : Error) → byte_at block i ≢ err e
unfolding byte_at
byte_at-err block i e x = ground arith

negative_size-err : (block : List ℕ) (e : Error) → negative_size block ≢ err e
unfolding negative_size
negative_size-err block e x = ground (arith, byte_at-err block 4 e, byte_at-err block 5 e)

unpack_int32-err : (block : List ℕ) (left : ℕ) (e : Error) → unpack_int32 block left ≢ err e
unfolding unpack_int32 unpack_uint32
unpack_int32-err block left e x =
    ground (arith, unpack_width-err 32 4 block left e, negative_size-err block e)

-- `pb_varint_unpack` reports no error code, for any type.
pub unpack-err :
    (t : FieldType) (block : List ℕ) (left : ℕ) (e : Error) → unpack t block left ≢ err e
unfolding unpack unpack_int64 unpack_uint32 unpack_uint64 unpack_sint32 unpack_sint64
unpack-err int32 block left e x = unpack_int32-err block left e x
unpack-err int64 block left e x = unpack_width-err 64 9 block left e x
unpack-err uint32 block left e x = unpack_width-err 32 4 block left e x
unpack-err uint64 block left e x = unpack_width-err 64 9 block left e x
unpack-err sint32 block left e x = ground (arith, unpack_width-err 32 4 block left e)
unpack-err sint64 block left e x = ground (arith, unpack_width-err 64 9 block left e)
unpack-err bool block left e x = unpack_uint8-err block left e x
unpack-err enum block left e x = unpack_int32-err block left e x
unpack-err _ block left e x = cc

pub unpack_uint32-err : (block : List ℕ) (left : ℕ) (e : Error) → unpack_uint32 block left ≢ err e
unfolding unpack_uint32
unpack_uint32-err block left e x = unpack_width-err 32 4 block left e x

scan_loop-err : (block : List ℕ) (left size : ℕ) (e : Error) → scan_loop block left size ≢ err e
unfolding scan_loop
scan_loop-err [] left size e x = cc
scan_loop-err (b ∷ d) left size e x = ground (arith, scan_loop-err d (sub_size left 1) (size + 1) e)

pub scan-err : (block : List ℕ) (left : ℕ) (e : Error) → scan block left ≢ err e
unfolding scan
scan-err block left e x = scan_loop-err block (if ltb 10 left then 10 else left) 0 e x
