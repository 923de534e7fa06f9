-- ===== src/VarInt/Encode.antt =====
-- `encode` as a plain recursion on the value.
use mathlib.Core.WellFounded.{Acc, Acc-prop}
use mathlib.Core.Logic.{dif_pos, dif_neg}
use native.Mathlib.Decide.{dec_lt}
use native.Mathlib.Bridge.{le_prop}
use nebula_fs.Common.{
  ℕ, zero, suc, ◌+◌, ◌/◌, ◌%◌, ◌^◌, ◌≤◌, ◌<◌, ◌≡◌, refl, sym, ap, ap₂, ◌∙◌, List, [], ◌∷◌, ◌++◌,
  bit_or, length, take, take-nil, All, append_assoc, arith, leb-false, le→leb,
}
use nebula_fs.Common.Bits.{low_bits, mark_bit}
use nebula_fs.Common.Order.{lt_wf}
use nebula_fs.VarInt.{
  IsByte, IsU64, shift_shrinks, group, encode_loop, encode, varint, encode_into_loop, encode_into,
  encoded_size_loop, encoded_size,
}

group_low : (v : ℕ) → group v ≡ v % 128
group_low v = low_bits (v % 256) (omega arith) ∙ omega arith

group_marked : (v : ℕ) → bit_or (group v) 0x80 ≡ v % 128 + 128
group_marked v = ap (λ t. bit_or t 0x80) (group_low v) ∙ mark_bit _ (omega arith)

encode_loop_irrelevant :
    (v : ℕ) (buf : List ℕ) (w u : Acc ◌<◌ v) → encode_loop v buf w ≡ encode_loop v buf u
encode_loop_irrelevant v buf w u = ap (encode_loop v buf) (Acc-prop w u)

encode_loop_buf :
    (v : ℕ) (buf : List ℕ) (w : Acc ◌<◌ v) → encode_loop v buf w ≡ buf ++ encode_loop v [] w
unfolding encode_loop
encode_loop_buf v buf (Acc.intro _ f) = elim (dec_lt 0 (v / 128)) [
  | yes p ↦ rw (dif_pos _ le_prop p) (
      rw (dif_pos _ le_prop p) (
        encode_loop_buf (v / 128) (buf ++ bit_or (group v) 0x80 ∷ []) (f _ (shift_shrinks v p))
        ∙ append_assoc buf _ _
        ∙ ap (λ t. buf ++ t)
            (sym
              (encode_loop_buf (v / 128) (bit_or (group v) 0x80 ∷ []) (f _ (shift_shrinks v p))))))
  | no p ↦ rw (dif_neg _ p) (rw (dif_neg _ p))
]

-- `encode` only appends.
pub encode-append : (v : ℕ) (buf : List ℕ) → encode v buf ≡ buf ++ varint v
unfolding encode
encode-append v buf = encode_loop_buf v buf (lt_wf.apply v)

varint_small_loop : (v : ℕ) (w : Acc ◌<◌ v) → v < 128 → encode_loop v [] w ≡ v ∷ []
unfolding encode_loop
varint_small_loop v (Acc.intro _ f) h =
    let p : ¬ (0 < v / 128) = omega arith in
    rw (dif_neg _ p) (ap (λ t. t ∷ []) (group_low v ∙ omega arith))

varint_large_loop :
    (v : ℕ) (w : Acc ◌<◌ v) (u : Acc ◌<◌ (v / 128))
    → 128 ≤ v
    → encode_loop v [] w ≡ (v % 128 + 128) ∷ encode_loop (v / 128) [] u
unfolding encode_loop
varint_large_loop v (Acc.intro _ f) u h =
    let p : 0 < v / 128 = omega arith in
    rw (dif_pos _ le_prop p, group_marked v)
      (encode_loop_buf (v / 128) ((v % 128 + 128) ∷ []) (f _ (shift_shrinks v p))
        ∙ ap (λ t. (v % 128 + 128) ∷ t)
            (encode_loop_irrelevant (v / 128) [] (f _ (shift_shrinks v p)) u))

-- The do-while loop as a recursion: one plain byte, or a marked one and the rest.
pub varint_small : (v : ℕ) → v < 128 → varint v ≡ v ∷ []
unfolding encode
varint_small v h = varint_small_loop v (lt_wf.apply v) h

pub varint_large : (v : ℕ) → 128 ≤ v → varint v ≡ (v % 128 + 128) ∷ varint (v / 128)
unfolding encode
varint_large v h = varint_large_loop v (lt_wf.apply v) (lt_wf.apply (v / 128)) h

-- Induction on the rounds that a value takes.
pub varint_shape :
    (k v : ℕ)
    → v < 128 ^ suc k
    → All IsByte (varint v) × (1 ≤ length (varint v)) × (length (varint v) ≤ k + 1)
varint_shape zero v h = rw (varint_small v (omega arith)) (omega arith)
varint_shape (suc k) v h = elim (dec_lt v 128) [
  | yes p ↦ rw (varint_small v p) (omega arith)
  | no p ↦
      let (bytes, lo, hi) = varint_shape k (v / 128) (omega arith) in
      rw (varint_large v (omega arith)) ((omega arith, bytes), omega arith, omega arith)
]

-- Every element of an encoding is a byte.
pub varint-IsByte : (v : ℕ) → IsU64 v → All IsByte (varint v)
varint-IsByte v h = (varint_shape 9 v (omega arith)).0

-- A `uint64_t` takes 1 to 10 bytes.
pub length-varint : (v : ℕ) → IsU64 v → (1 ≤ length (varint v)) × (length (varint v) ≤ 10)
length-varint v h = let (_, lo, hi) = varint_shape 9 v (omega arith) in (lo, hi)

encode_into_loop-take :
    (room v : ℕ) (w : Acc ◌<◌ v) → encode_into_loop v room w ≡ take room (encode_loop v [] w)
unfolding encode_into_loop
encode_into_loop-take zero v w = refl
encode_into_loop-take (suc room) v (Acc.intro _ f) = elim (dec_lt 0 (v / 128)) [
  | yes p ↦
      let u = f _ (shift_shrinks v p) in
      rw (dif_pos _ le_prop p) (
        ap₂ (λ b t. b ∷ t) (group_marked v) (encode_into_loop-take room (v / 128) u)
        ∙ sym (ap (take (suc room)) (varint_large_loop v (Acc.intro v f) u (omega arith))))
  | no p ↦ rw (dif_neg _ p) (
      ap₂ (λ b t. b ∷ t) (group_low v ∙ omega arith) (sym (take-nil room))
      ∙ sym (ap (take (suc room)) (varint_small_loop v (Acc.intro v f) (omega arith))))
]

-- A bounded buffer takes the front of the encoding, as much as fits.
pub encode_into-take : (v room : ℕ) → encode_into v room ≡ take room (varint v)
unfolding encode_into encode
encode_into-take v room = encode_into_loop-take room v (lt_wf.apply v)

encoded_size_loop-length :
    (k v size : ℕ)
    → v < 128 ^ suc k
    → encoded_size_loop (suc k) v size + 1 ≡ size + length (varint v)
unfolding encoded_size_loop
encoded_size_loop-length zero v size h =
    ground (arith, varint_small v (omega arith), ap length (varint_small v (omega arith)))
encoded_size_loop-length (suc k) v size h = elim (dec_lt v 128) [
  | yes p ↦ rw (leb-false 128 v p, varint_small v p) (omega arith)
  | no p ↦
      rw (le→leb 128 v (omega arith), varint_large v (omega arith))
        (omega (arith, encoded_size_loop-length k (v / 128) (size + 1) (omega arith)))
]

-- `encodedSize` is the number of bytes that `encode` appends.
pub encoded_size-length : (v : ℕ) → IsU64 v → encoded_size v ≡ length (varint v)
unfolding encoded_size
encoded_size-length v h = omega (arith, encoded_size_loop-length 9 v 1 (omega arith))
