-- ===== src/VarInt/Decode.antt =====
-- `decode` on any input, well formed or not.
use nebula_fs.Common.{
  ℕ, zero, suc, ◌+◌, ◌*◌, ◌≤◌, ◌<◌, ◌≡◌, refl, Bool, true, false, inl, inr, ◌⊎◌, List, [], ◌∷◌,
  length, All, leb, ltb, ◌==◌, if_both, ◌↔◌, if◌then◌else◌, arith,
}
use Prim.Native.Nat.{bit_and}
use nebula_fs.Common.Bits.{top_bit}
use nebula_fs.Outcome.{Outcome, ok, undefined}
use nebula_fs.VarInt.{IsByte, DecodeResult, add_group, after_break, decode_loop, decode}

-- What a round leaves: a valid result has taken a byte at least, and none behind the buffer.
decode_loop_consumed :
    (bytes : List ℕ) (value shift i : ℕ) (r : DecodeResult)
    → decode_loop bytes value shift i ≡ ok r
    → r.valid ≡ true
    → (i < r.consumed) × (r.consumed ≤ i + length bytes)
unfolding decode_loop
decode_loop_consumed [] value shift i r e valid = ground arith
decode_loop_consumed (b ∷ bs) value shift i r e valid =
    ground (arith, decode_loop_consumed bs (add_group value b shift) (shift + 7) (i + 1) r)

-- A valid decode has consumed between one byte and the whole buffer.
pub decode_consumed :
    (bytes : List ℕ) (r : DecodeResult)
    → decode bytes ≡ ok r
    → r.valid ≡ true
    → (1 ≤ r.consumed) × (r.consumed ≤ length bytes)
unfolding decode
decode_consumed [] r e valid = ground arith
decode_consumed (b ∷ bs) r e valid = omega (arith, decode_loop_consumed (b ∷ bs) 0 0 0 r e valid)

-- A result, or the undefined shift.
IsEither : Outcome DecodeResult → Type 0
IsEither o = ((r : DecodeResult) × (o ≡ ok r)) ⊎ (o ≡ undefined)

after_break-IsEither : (rest : List ℕ) (n : ℕ) → IsEither (after_break rest n)
unfolding IsEither after_break
after_break-IsEither [] n = inl (_, refl)
after_break-IsEither (b ∷ bs) n = inl (_, refl)

decode_loop-IsEither :
    (bytes : List ℕ) (value shift i : ℕ) → IsEither (decode_loop bytes value shift i)
unfolding decode_loop IsEither
decode_loop-IsEither [] value shift i = inl (_, refl)
decode_loop-IsEither (b ∷ bs) value shift i =
    let further = decode_loop-IsEither bs (add_group value b shift) (shift + 7) (i + 1) in
    if_both IsEither (leb 64 shift) (inr refl) (
      if_both IsEither (bit_and b 0x80 == 0) (inl (_, refl))
        (if_both IsEither (ltb 70 (shift + 7)) (after_break-IsEither bs (i + 1)) further))

-- `decode` returns, or shifts too far.
pub decode_either :
    (bytes : List ℕ) → ((r : DecodeResult) × (decode bytes ≡ ok r)) ⊎ (decode bytes ≡ undefined)
unfolding decode IsEither
decode_either [] = inl (_, refl)
decode_either (b ∷ bs) = decode_loop-IsEither (b ∷ bs) 0 0 0

-- Whether `n` marked bytes are followed by another byte.
pub overlong : ℕ → List ℕ → Bool
overlong n [] = false
overlong zero (b ∷ bs) = true
overlong (suc n) (b ∷ bs) = if leb 128 b then overlong n bs else false

decode_loop-overlong :
    (n : ℕ) (bytes : List ℕ) (value shift i : ℕ)
    → All IsByte bytes
    → shift + 7 * n ≡ 70
    → (decode_loop bytes value shift i ≡ undefined) ↔ (overlong n bytes ≡ true)
unfolding decode_loop overlong
decode_loop-overlong n [] value shift i h e = ground arith
decode_loop-overlong zero (b ∷ bs) value shift i h e = ground arith
decode_loop-overlong (suc n) (b ∷ bs) value shift i h e = ground (
  arith,
  top_bit b h.0,
  decode_loop-overlong n bs (add_group value b shift) (shift + 7) (i + 1) h.1 (omega arith),
)

-- `decode` shifts by 70 bits, which C++ leaves undefined, exactly on the buffers in which ten marked
-- bytes are followed by an eleventh byte.
pub decode_undefined :
    (bytes : List ℕ) → All IsByte bytes → (decode bytes ≡ undefined) ↔ (overlong 10 bytes ≡ true)
unfolding decode
decode_undefined [] h = unfold overlong in ground arith
decode_undefined (b ∷ bs) h = decode_loop-overlong 10 (b ∷ bs) 0 0 0 h refl
