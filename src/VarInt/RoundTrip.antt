-- ===== src/VarInt/RoundTrip.antt =====
-- `decode` reads back what `encode` wrote.
use native.Mathlib.Decide.{dec_lt}
use native.Mathlib.Nat.{div-add-mod}
use native.Mathlib.Numerals.{towards_suc}
use nebula_fs.Common.{
  ℕ, zero, suc, ◌+◌, ◌*◌, ◌/◌, ◌%◌, ◌^◌, ◌≤◌, ◌<◌, ◌≡◌, refl, ap, ap₂, ◌∙◌, true, List, [], ◌∷◌,
  ◌++◌, bit_or, length, arith,
}
use nebula_fs.Common.Bits.{low_bits, top_bit, bit_or_field}
use nebula_fs.Outcome.{ok}
use nebula_fs.VarInt.{IsU64, DecodeResult, add_group, decode_loop, decode, varint}
use nebula_fs.VarInt.Encode.{varint_small, varint_large}

abbrev pub read : ℕ → ℕ → DecodeResult
read value consumed = record { value = value; consumed = consumed; valid = true }

shift_seven : (s : ℕ) → 2 ^ (s + 7) ≡ 128 * 2 ^ s
shift_seven s = simp towards_suc (omega arith)

-- The value below the shift and a group of seven bits add up.
add_group_sum :
    (acc b shift : ℕ)
    → acc < 2 ^ shift
    → b < 256
    → b % 128 * 2 ^ shift < 2 ^ 64
    → add_group acc b shift ≡ acc + b % 128 * 2 ^ shift
add_group_sum acc b shift below byte fits =
    rw (low_bits b byte)
      (ap (λ t. bit_or acc t) (omega arith) ∙ bit_or_field shift acc (b % 128) below)

-- The lowest group and the rest, both shifted.
split_group : (v s : ℕ) → v * 2 ^ s ≡ v % 128 * 2 ^ s + v / 128 * 2 ^ (s + 7)
split_group v s = rw (shift_seven s) (omega (arith, ap (λ (t : ℕ). t * 2 ^ s) (div-add-mod v 128)))

decode_last :
    (v acc shift i : ℕ) (rest : List ℕ)
    → v < 128
    → shift ≤ 63
    → acc < 2 ^ shift
    → acc + v * 2 ^ shift < 2 ^ 64
    → decode_loop (v ∷ rest) acc shift i ≡ ok (read (acc + v * 2 ^ shift) (i + 1))
unfolding decode_loop
decode_last v acc shift i rest hv hs below fits =
    ground (arith, top_bit v, add_group_sum acc v shift)

decode_marked :
    (g acc shift i : ℕ) (rest : List ℕ)
    → g < 128
    → shift ≤ 63
    → acc < 2 ^ shift
    → g * 2 ^ shift < 2 ^ 64
    → decode_loop ((g + 128) ∷ rest) acc shift i
      ≡ decode_loop rest (acc + g * 2 ^ shift) (shift + 7) (i + 1)
unfolding decode_loop
decode_marked g acc shift i rest hg hs below fits =
    ground (arith, top_bit (g + 128), add_group_sum acc (g + 128) shift)

low_below : (acc g p : ℕ) → acc < p → g < 128 → acc + g * p < 128 * p
low_below acc g p h hg = grind arith

-- `acc` holds the groups below the shift `s`, and `v` is what is left of the value.
decode_loop-varint :
    (k s v acc i : ℕ) (rest : List ℕ)
    → s + 7 * k ≡ 63
    → v < 128 ^ suc k
    → acc < 2 ^ s
    → acc + v * 2 ^ s < 2 ^ 64
    → decode_loop (varint v ++ rest) acc s i ≡ ok (read (acc + v * 2 ^ s) (i + length (varint v)))
decode_loop-varint zero s v acc i rest sk hv below fits =
    rw (varint_small v (omega arith))
      (decode_last v acc s i rest (omega arith) (omega arith) below fits)
decode_loop-varint (suc k) s v acc i rest sk hv below fits = elim (dec_lt v 128) [
  | yes p ↦ rw (varint_small v p) (decode_last v acc s i rest p (omega arith) below fits)
  | no p ↦
      let split = split_group v s in
      let ih =
        decode_loop-varint k (s + 7) (v / 128) (acc + v % 128 * 2 ^ s) (i + 1) rest (omega arith)
          (omega arith) (rw (shift_seven s) (low_below acc (v % 128) (2 ^ s) below (omega arith)))
          (omega arith) in
      rw (varint_large v (omega arith)) (
        decode_marked (v % 128) acc s i (varint (v / 128) ++ rest) (omega arith) (omega arith) below
          (omega arith)
        ∙ ih
        ∙ ap₂ (λ a c. ok (read a c)) (omega arith) (omega arith))
]

decode-decode_loop : (bytes : List ℕ) → decode bytes ≡ decode_loop bytes 0 0 0
unfolding decode decode_loop
decode-decode_loop [] = refl
decode-decode_loop (b ∷ bs) = refl

-- Whatever follows the encoding of a `uint64_t`, `decode` returns the value and the number of bytes
-- that `encode` wrote.
pub decode-encode :
    (v : ℕ) (rest : List ℕ) → IsU64 v → decode (varint v ++ rest) ≡ ok (read v (length (varint v)))
decode-encode v rest h =
    decode-decode_loop (varint v ++ rest)
    ∙ decode_loop-varint 9 0 v 0 0 rest refl (omega arith) (omega arith) (omega arith)
    ∙ ap₂ (λ a c. ok (read a c)) (omega arith) (omega arith)
