-- ===== src/VarInt.antt =====
-- src/utils/VarInt.cpp: integers of 64 bits in groups of seven bits, lowest group first.
-- A buffer is a list of bytes, a `uint64_t` a number, an `int64_t` its bit pattern.
pub mod Encode
pub mod Decode
pub mod RoundTrip
pub mod ZigZag
mod Tests
use mathlib.Core.Logic.{dite}
use mathlib.Core.WellFounded.{Acc}
use native.Mathlib.Decide.{dec_lt}
use nebula_fs.Common.{
  ℕ, zero, suc, ◌+◌, ◌-◌, ◌*◌, ◌/◌, ◌%◌, ◌^◌, ◌<◌, Bool, true, false, List, [], ◌∷◌, ◌++◌, bit_and,
  bit_or, bit_xor, ltb, leb, ◌==◌, if◌then◌else◌, length, arith,
}
use nebula_fs.Common.Order.{lt_wf}
use nebula_fs.Outcome.{Outcome, ok, fail, throws, undefined, ◌>>=◌}

abbrev pub u64 : ℕ
u64 = 2 ^ 64

abbrev pub IsU64 : ℕ → Type 0
IsU64 value = value < u64

abbrev pub IsByte : ℕ → Type 0
IsByte byte = byte < 256

shift_shrinks : (value : ℕ) → 0 < value / 128 → value / 128 < value
shift_shrinks value more = omega arith

-- The byte of one round: the low seven bits, marked if more of the value is left.
abbrev group : ℕ → ℕ
group value = bit_and (value % 256) 0x7f

-- `encode(value, buf)`: the do-while loop, appending to `buf`.
encode_loop : (value : ℕ) → List ℕ → Acc ◌<◌ value → List ℕ
encode_loop value buf (Acc.intro _ smaller) =
    dite (dec_lt 0 (value / 128))
      (λ more.
        encode_loop (value / 128) (buf ++ bit_or (group value) 0x80 ∷ [])
          (smaller _ (shift_shrinks value more)))
      (λ _. buf ++ group value ∷ [])

unfoldable pub encode : ℕ → List ℕ → List ℕ
unfolding encode_loop shift_shrinks
encode value buf = encode_loop value buf (lt_wf.apply value)

-- The bytes that `encode` appends.
abbrev pub varint : ℕ → List ℕ
varint value = encode value []

-- `encode(value, buf, bufSize)`: the bytes written into a buffer that has `room` bytes left.
-- The count that the function returns is their number.
encode_into_loop : (value : ℕ) → ℕ → Acc ◌<◌ value → List ℕ
encode_into_loop value zero w = []
encode_into_loop value (suc room) (Acc.intro _ smaller) =
    dite (dec_lt 0 (value / 128))
      (λ more.
        bit_or (group value) 0x80
        ∷ encode_into_loop (value / 128) room (smaller _ (shift_shrinks value more)))
      (λ _. group value ∷ [])

unfoldable pub encode_into : ℕ → ℕ → List ℕ
unfolding encode_into_loop shift_shrinks
encode_into value room = encode_into_loop value room (lt_wf.apply value)

pub record DecodeResult : Type 0 where
  pub value : ℕ
  pub consumed : ℕ
  pub valid : Bool

abbrev pub invalid : ℕ → DecodeResult
invalid consumed = record { value = 0; consumed = consumed; valid = false }

-- Behind the `break`: a marked last byte is told from bytes that are left over.
after_break : List ℕ → ℕ → Outcome DecodeResult
after_break [] i = ok (invalid 0)
after_break (byte ∷ rest) i = ok (invalid i)

-- `value |= (uint64_t)(byte & 0x7F) << shift`
abbrev pub add_group : ℕ → ℕ → ℕ → ℕ
add_group value byte shift = bit_or value (bit_and byte 0x7f * 2 ^ shift % 2 ^ 64)

-- The list holds the bytes from `i` on. When it is used up, the last byte read was marked. A shift
-- of a 64-bit value by 64 or more is undefined.
decode_loop : List ℕ → ℕ → ℕ → ℕ → Outcome DecodeResult
unfolding after_break
decode_loop [] value shift i = ok (invalid 0)
decode_loop (byte ∷ rest) value shift i =
    let value' = add_group value byte shift in
    let more = decode_loop rest value' (shift + 7) (i + 1) in
    if leb 64 shift
    then undefined
    else if bit_and byte 0x80 == 0
    then ok (record { value = value'; consumed = i + 1; valid = true })
    else if ltb 70 (shift + 7)
    then after_break rest (i + 1)
    else more

-- `decode(buf, bufSize)` and `decode(data)`; an empty buffer is answered before the loop.
unfoldable pub decode : List ℕ → Outcome DecodeResult
unfolding decode_loop
decode [] = ok (invalid 0)
decode (byte ∷ rest) = decode_loop (byte ∷ rest) 0 0 0

-- `encodedSize`: `while (value >= 0x80)`, by fuel; eight rounds and one more leave nothing of a
-- `uint64_t`, and `encoded_size-length` shows that ten suffice.
encoded_size_loop : ℕ → ℕ → ℕ → ℕ
encoded_size_loop zero value size = size
encoded_size_loop (suc fuel) value size =
    let rest = encoded_size_loop fuel (value / 128) (size + 1) in
    if leb 0x80 value then rest else size

unfoldable pub encoded_size : ℕ → ℕ
unfolding encoded_size_loop
encoded_size value = encoded_size_loop 10 value 1

-- `value >> 63` of an `int64_t`: all ones for a negative number.
abbrev sign_mask : ℕ → ℕ
sign_mask value = if leb (2 ^ 63) value then 2 ^ 64 - 1 else 0

unfoldable pub zigzag_encode : ℕ → ℕ
zigzag_encode value = bit_xor (value * 2 % 2 ^ 64) (sign_mask value)

-- `~(value & 1) + 1`
abbrev minus_low_bit : ℕ → ℕ
minus_low_bit value = (2 ^ 64 - 1 - value % 2 + 1) % 2 ^ 64

unfoldable pub zigzag_decode : ℕ → ℕ
zigzag_decode value = bit_xor (value / 2) (minus_low_bit value)

unfoldable pub encode_signed : ℕ → ℕ → List ℕ
encode_signed value room = encode_into (zigzag_encode value) room

unfoldable pub decode_signed : List ℕ → Outcome DecodeResult
decode_signed buf = do
  result ← decode buf
  ok (if result.valid then record result { value = zigzag_decode result.value } else result)
