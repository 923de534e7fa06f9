-- ===== src/VarInt/Tests.antt =====
-- Runs of the encoder and the decoder, and the theorems at concrete inputs.
use native.Mathlib.Decide.{dec_lt}
use nebula_fs.Common.{ℕ, ◌-◌, ◌^◌, ◌≡◌, refl, ◌↔◌, true, List, [], ◌∷◌, ◌++◌, length, take, arith}
use nebula_fs.Common.Order.{lt_wf}
use nebula_fs.Outcome.{ok, undefined}
use nebula_fs.VarInt.{encode, varint, decode, zigzag_encode, encode_signed, decode_signed, invalid}
use nebula_fs.VarInt.Decode.{overlong, decode_undefined}
use nebula_fs.VarInt.RoundTrip.{read, decode-encode}
use nebula_fs.VarInt.ZigZag.{decode_signed-encode_signed}

varint_300 : varint 300 ≡ 0xac ∷ 0x02 ∷ []
unfolding encode lt_wf dec_lt
varint_300 = refl

-- The last byte is marked.
decode_cut : decode (0xac ∷ []) ≡ ok (invalid 0)
unfolding decode
decode_cut = refl

decode_two : decode (0xac ∷ 0x02 ∷ 0x07 ∷ []) ≡ ok (read 300 2)
unfolding decode
decode_two = refl

-- -2 as a bit pattern.
zigzag_minus_two : zigzag_encode (2 ^ 64 - 2) ≡ 3
unfolding zigzag_encode
zigzag_minus_two = refl

abbrev marked_ten : List ℕ
marked_ten = 0x80 ∷ 0x80 ∷ 0x80 ∷ 0x80 ∷ 0x80 ∷ 0x80 ∷ 0x80 ∷ 0x80 ∷ 0x80 ∷ 0x80 ∷ []

decode_eleven : decode (marked_ten ++ 0x00 ∷ []) ≡ undefined
unfolding decode
decode_eleven = refl

-- The tenth byte holds more than the one bit that is left, and the value is cut.
decode_wraps : decode (take 9 marked_ten ++ 0x02 ∷ []) ≡ ok (read 0 10)
unfolding decode
decode_wraps = refl

decode-encode_example : decode (varint 300 ++ 0x07 ∷ []) ≡ ok (read 300 (length (varint 300)))
decode-encode_example = decode-encode 300 (0x07 ∷ []) (omega arith)

decode_undefined_example :
    (decode (marked_ten ++ 0x00 ∷ []) ≡ undefined) ↔ (overlong 10 (marked_ten ++ 0x00 ∷ []) ≡ true)
decode_undefined_example = decode_undefined (marked_ten ++ 0x00 ∷ []) (omega arith)

decode_signed-encode_signed_example :
    decode_signed (encode_signed (2 ^ 64 - 2) 10 ++ 0x07 ∷ [])
    ≡ ok (read (2 ^ 64 - 2) (length (varint (zigzag_encode (2 ^ 64 - 2)))))
decode_signed-encode_signed_example =
    decode_signed-encode_signed (2 ^ 64 - 2) 10 (0x07 ∷ []) (omega arith) (omega arith)
