-- ===== src/Core/Varint.antt =====
-- src/core/varint.c and src/core/varint.h: variable-sized integers.
-- A value is the bit pattern of its C type. `pack_*` returns the bytes that the C function writes to
-- `data[0]`, `data[1]`, …; the size that it returns is their number. `data` is what the block holds
-- from the pointer on, and `none` is a read behind the block.
pub mod Base128
pub mod Bounds
pub mod RoundTrip
pub mod Zigzag
pub mod Int32
pub mod Types
pub mod Size
pub mod Scan
pub mod Rounds
pub mod Safety
pub mod Errors
use protobluff.Common.{
  ℕ, zero, suc, ◌+◌, ◌-◌, ◌*◌, ◌/◌, ◌%◌, ◌^◌, bit_and, bit_or, bit_xor, none, some, List, [], ◌∷◌,
  ltb, leb, ◌==◌, if◌then◌else◌, u8, shl, shr, sub_size, get_elem?,
}
use protobluff.Core.Types.{
  FieldType, int32, int64, uint32, uint64, sint32, sint64, bool, enum, Outcome, ok, fault, ◌>>=◌,
}

-- `__builtin_clz` on a type of `w` bits: the leading zeros.
pub leading_zeros : ℕ → ℕ → ℕ
leading_zeros zero v = 0
leading_zeros (suc w) v = let more = suc (leading_zeros w v) in if leb (2 ^ w) v then 0 else more

-- The macros `clz` and `clzll`: `w - 1` for zero.
pub clz : ℕ → ℕ → ℕ
clz w v = if v == 0 then w - 1 else leading_zeros w v

abbrev size_map : List ℕ
size_map =
    1 ∷ 1 ∷ 1 ∷ 1 ∷ 1 ∷ 1 ∷ 1 ∷ 2 ∷ 2 ∷ 2 ∷ 2 ∷ 2 ∷ 2 ∷ 2 ∷ 3 ∷ 3 ∷ 3 ∷ 3 ∷ 3 ∷ 3 ∷ 3 ∷ 4 ∷ 4 ∷ 4
    ∷ 4 ∷ 4 ∷ 4 ∷ 4 ∷ 5 ∷ 5 ∷ 5 ∷ 5 ∷ 5 ∷ 5 ∷ 5 ∷ 6 ∷ 6 ∷ 6 ∷ 6 ∷ 6 ∷ 6 ∷ 6 ∷ 7 ∷ 7 ∷ 7 ∷ 7 ∷ 7 ∷ 7
    ∷ 7 ∷ 8 ∷ 8 ∷ 8 ∷ 8 ∷ 8 ∷ 8 ∷ 8 ∷ 9 ∷ 9 ∷ 9 ∷ 9 ∷ 9 ∷ 9 ∷ 9 ∷ 10 ∷ []

-- `size_map[i]`; the index is at most 63.
pub size_at : ℕ → ℕ
size_at i = elim (get_elem? size_map i) [ none ↦ 0 | some n ↦ n ]

pub size_uint32 : ℕ → ℕ
size_uint32 v = size_at (31 - clz 32 v)

pub size_uint64 : ℕ → ℕ
size_uint64 v = size_at (63 - clz 64 v)

-- `value >= 0` of an int32_t: the top bit is not set.
pub size_int32 : ℕ → ℕ
size_int32 v = if ltb v (2 ^ 31) then size_uint32 v else 10

pub size_int64 : ℕ → ℕ
size_int64 v = size_uint64 v

pub size_uint8 : ℕ → ℕ
size_uint8 v = if ltb 127 v then 2 else 1

-- `value >> k` of a signed type of `w` bits, on two's complement: the sign is shifted in.
abbrev asr : ℕ → ℕ → ℕ → ℕ
asr w v k = if ltb v (2 ^ (w - 1)) then shr v k else shr (v + 2 ^ w * (2 ^ k - 1)) k

-- `(value << 1) ^ (value >> (w - 1))`, zig-zag encoding.
pub zigzag : ℕ → ℕ → ℕ
zigzag w v = bit_xor (shl w v 1) (asr w v (w - 1))

pub size_sint32 : ℕ → ℕ
size_sint32 v = size_at (31 - clz 32 (zigzag 32 v))

pub size_sint64 : ℕ → ℕ
size_sint64 v = size_at (63 - clz 64 (zigzag 64 v))

-- The nested tests of `pb_varint_pack_uint32` and `pb_varint_pack_uint64`, `n` of them to go.
unfoldable pub pack_rounds : ℕ → ℕ → ℕ → List ℕ
pack_rounds mask zero temp = u8 temp ∷ []
pack_rounds mask (suc n) temp =
    let more = u8 (bit_or temp 0x80) ∷ pack_rounds mask n (shr temp 7) in
    if bit_and temp mask == 0 then u8 temp ∷ [] else more

unfoldable pub pack_uint32 : ℕ → List ℕ
pack_uint32 v = pack_rounds 0xFFFFFF80 4 v

pub pack_uint64 : ℕ → List ℕ
pack_uint64 v = pack_rounds 0xFFFFFFFFFFFFFF80 9 v

-- `(temp >> k) | 0x80`, stored in a byte.
int32_byte : ℕ → ℕ → ℕ
int32_byte v k = u8 (bit_or (asr 32 v k) 0x80)

pub pack_int32 : ℕ → List ℕ
pack_int32 v =
    if ltb v (2 ^ 31)
    then pack_uint32 v
    else int32_byte v 0
      ∷ int32_byte v 7
      ∷ int32_byte v 14
      ∷ int32_byte v 21
      ∷ int32_byte v 28
      ∷ 0xFF
      ∷ 0xFF
      ∷ 0xFF
      ∷ 0xFF
      ∷ 0x01
      ∷ []

unfoldable pub pack_int64 : ℕ → List ℕ
pack_int64 v = pack_uint64 v

unfoldable pub pack_uint8 : ℕ → List ℕ
pack_uint8 v = if bit_and v 0x80 == 0 then v ∷ [] else u8 (bit_or v 0x80) ∷ shr v 7 ∷ []

unfoldable pub pack_sint32 : ℕ → List ℕ
pack_sint32 v = pack_uint32 (zigzag 32 v)

unfoldable pub pack_sint64 : ℕ → List ℕ
pack_sint64 v = pack_uint64 (zigzag 64 v)

-- Where the nested tests of an unpack function stop: the last byte read, how many are read, the
-- count of bytes left, and the number so far.
pub record Stop : Type 0 where
  pub last : ℕ
  pub read : ℕ
  pub left : ℕ
  pub temp : ℕ

-- The bits that a byte adds: the last test's byte is not masked.
pub group : ℕ → ℕ → ℕ
group zero c = c
group (suc n) c = bit_and c 0x7F

-- The `n` nested tests behind the byte `b`; `d` is what follows it, and `w` the width of `temp`.
-- `--left` is made only if the high bit is set, and wraps.
unfoldable pub unpack_rounds : ℕ → ℕ → ℕ → List ℕ → ℕ → ℕ → ℕ → Outcome Stop
unpack_rounds w zero b d size left temp =
    ok (record { last = b; read = size; left = left; temp = temp })
unpack_rounds w (suc n) b [] size left temp =
    let left' = sub_size left 1 in
    if bit_and b 0x80 == 0
    then ok (record { last = b; read = size; left = left; temp = temp })
    else if left' == 0
    then ok (record { last = b; read = size; left = left'; temp = temp })
    else fault
unpack_rounds w (suc n) b (c ∷ d) size left temp =
    let left' = sub_size left 1 in
    let temp' = bit_or temp (shl w (group n c) (7 * size)) in
    let more = unpack_rounds w n c d (size + 1) left' temp' in
    if bit_and b 0x80 == 0
    then ok (record { last = b; read = size; left = left; temp = temp })
    else if left' == 0
    then ok (record { last = b; read = size; left = left'; temp = temp })
    else more

-- `!left || data[size - 1] & 0x80 ? 0 : size`, with the number.
unfoldable pub result : Stop → ℕ × ℕ
result s = ((if s.left == 0 then 0 else if bit_and s.last 0x80 == 0 then s.read else 0), s.temp)

-- The size and the value; a size of 0 is a failure.
unfoldable pub unpack_width : ℕ → ℕ → List ℕ → ℕ → Outcome (ℕ × ℕ)
unpack_width w n [] left = fault
unpack_width w n (b ∷ d) left = do s ← unpack_rounds w n b d 1 left (bit_and b 0x7F); ok (result s)

unfoldable pub unpack_uint32 : List ℕ → ℕ → Outcome (ℕ × ℕ)
unpack_uint32 block left = unpack_width 32 4 block left

pub unpack_uint64 : List ℕ → ℕ → Outcome (ℕ × ℕ)
unpack_uint64 block left = unpack_width 64 9 block left

-- The second byte of `pb_varint_unpack_uint8`: `temp |= (data[size++] & 0x7F) << 7`.
second_byte : List ℕ → ℕ → ℕ → Outcome Stop
second_byte [] left temp = fault
second_byte (c ∷ d) left temp =
    let temp' = bit_or temp (shl 8 (bit_and c 0x7F) 7) in
    ok (record { last = c; read = 2; left = left; temp = temp' })

uint8_rounds : ℕ → List ℕ → ℕ → Outcome Stop
uint8_rounds b d left =
    let temp = bit_and b 0x7F in
    let left' = sub_size left 1 in
    if bit_and b 0x80 == 0
    then ok (record { last = b; read = 1; left = left; temp = temp })
    else if left' == 0
    then ok (record { last = b; read = 1; left = left'; temp = temp })
    else second_byte d left' temp

pub unpack_uint8 : List ℕ → ℕ → Outcome (ℕ × ℕ)
unpack_uint8 [] left = fault
unpack_uint8 (b ∷ d) left = do s ← uint8_rounds b d left; ok (result s)

-- `data[i]`.
pub byte_at : List ℕ → ℕ → Outcome ℕ
byte_at block i = elim (get_elem? block i) [ none ↦ fault | some b ↦ ok b ]

-- `data[4] & 0x80 && data[5] == 0xFF ? 10 : 0`, whatever is left.
pub negative_size : List ℕ → Outcome ℕ
negative_size block = do
  b ← byte_at block 4
  let sixth = byte_at block 5 >>= λ c. ok (if c == 0xFF then 10 else 0)
  if bit_and b 0x80 == 0 then ok 0 else sixth

pub unpack_int32 : List ℕ → ℕ → Outcome (ℕ × ℕ)
unpack_int32 block left = do
  (size, value) ← unpack_uint32 block left
  let negative = negative_size block >>= λ size'. ok (size', value)
  if size == 0 then negative else ok (size, value)

pub unpack_int64 : List ℕ → ℕ → Outcome (ℕ × ℕ)
unpack_int64 block left = unpack_uint64 block left

-- `(temp >> 1) ^ -(temp & 1)` in `w` bits.
unfoldable pub unzigzag : ℕ → ℕ → ℕ
unzigzag w temp = bit_xor (shr temp 1) ((2 ^ w - bit_and temp 1) % 2 ^ w)

unfoldable pub unpack_sint32 : List ℕ → ℕ → Outcome (ℕ × ℕ)
unpack_sint32 block left = do (size, temp) ← unpack_uint32 block left; ok (size, unzigzag 32 temp)

pub unpack_sint64 : List ℕ → ℕ → Outcome (ℕ × ℕ)
unpack_sint64 block left = do (size, temp) ← unpack_uint64 block left; ok (size, unzigzag 64 temp)

-- The loop of the portable `pb_varint_scan`: a byte is read, then `--left`.
unfoldable pub scan_loop : List ℕ → ℕ → ℕ → Outcome ℕ
scan_loop [] left size = fault
scan_loop (b ∷ d) left size =
    let more = scan_loop d (sub_size left 1) (size + 1) in
    if bit_and b 0x80 == 0 then ok (size + 1) else if sub_size left 1 == 0 then ok 0 else more

unfoldable pub scan : List ℕ → ℕ → Outcome ℕ
scan block left = scan_loop block (if ltb 10 left then 10 else left) 0

-- `_mm_movemask_epi8` of the high bits of `n` bytes, lowest first.
movemask : ℕ → List ℕ → Outcome ℕ
movemask zero d = ok 0
movemask (suc n) [] = fault
movemask (suc n) (b ∷ d) = do m ← movemask n d; ok ((if bit_and b 0x80 == 0 then 0 else 1) + 2 * m)

abbrev mask_map : List ℕ
mask_map =
    0x0000 ∷ 0x0001 ∷ 0x0003 ∷ 0x0007 ∷ 0x000F ∷ 0x001F ∷ 0x003F ∷ 0x007F ∷ 0x00FF ∷ 0x01FF ∷ 0x03FF
    ∷ []

-- `__builtin_ctz` of a number that is not 0, of at most `n` bits.
trailing_zeros : ℕ → ℕ → ℕ
trailing_zeros zero m = 0
trailing_zeros (suc n) m =
    let more = suc (trailing_zeros n (m / 2)) in if m % 2 == 0 then more else 0

-- `pb_varint_scan` where the compiler has SSE2: 16 bytes are loaded.
pub scan_sse2 : List ℕ → ℕ → Outcome ℕ
scan_sse2 block left = do
  high ← movemask 16 block
  bits ← byte_at mask_map (if ltb 10 left then 10 else left)
  let mask = bit_xor (bit_and high bits) bits
  ok (if mask == 0 then 0 else trailing_zeros 32 mask + 1)

-- The jump tables; `fault` is the call of a null pointer.
pub size : FieldType → ℕ → Outcome ℕ
size int32 v = ok (size_int32 v)
size int64 v = ok (size_int64 v)
size uint32 v = ok (size_uint32 v)
size uint64 v = ok (size_uint64 v)
size sint32 v = ok (size_sint32 v)
size sint64 v = ok (size_sint64 v)
size bool v = ok (size_uint8 v)
size enum v = ok (size_int32 v)
size _ v = fault

unfoldable pub pack : FieldType → ℕ → Outcome (List ℕ)
pack int32 v = ok (pack_int32 v)
pack int64 v = ok (pack_int64 v)
pack uint32 v = ok (pack_uint32 v)
pack uint64 v = ok (pack_uint64 v)
pack sint32 v = ok (pack_sint32 v)
pack sint64 v = ok (pack_sint64 v)
pack bool v = ok (pack_uint8 v)
pack enum v = ok (pack_int32 v)
pack _ v = fault

unfoldable pub unpack : FieldType → List ℕ → ℕ → Outcome (ℕ × ℕ)
unpack int32 block left = unpack_int32 block left
unpack int64 block left = unpack_int64 block left
unpack uint32 block left = unpack_uint32 block left
unpack uint64 block left = unpack_uint64 block left
unpack sint32 block left = unpack_sint32 block left
unpack sint64 block left = unpack_sint64 block left
unpack bool block left = unpack_uint8 block left
unpack enum block left = unpack_int32 block left
unpack _ block left = fault
