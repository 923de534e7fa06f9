-- ===== src/VarInt/ZigZag.antt =====
-- The zigzag map between `int64_t` and `uint64_t`.
use Prim.Native.Nat.{digits, differ, bit_xor-bitwise}
use native.Mathlib.Nat.{pow-suc}
use nebula_fs.Common.{
  ℕ, zero, suc, ◌+◌, ◌-◌, ◌*◌, ◌/◌, ◌%◌, ◌^◌, ◌≤◌, ◌<◌, ◌≡◌, refl, sym, ap, ap₂, ◌∙◌, bit_xor,
  leb-false, le→leb, List, ◌++◌, length, take-all, arith,
}
use native.Mathlib.Decide.{dec_lt}
use nebula_fs.Outcome.{ok, ◌>>=◌}
use nebula_fs.VarInt.{
  IsU64, zigzag_encode, zigzag_decode, minus_low_bit, varint, encode_signed, decode_signed,
}
use nebula_fs.VarInt.Encode.{encode_into-take, length-varint}
use nebula_fs.VarInt.RoundTrip.{read, decode-encode}

abbrev xor_digits : ℕ → ℕ → ℕ → ℕ
xor_digits fuel x y = digits (λ v. v) differ fuel x y

xor_digits-zero : (k y : ℕ) → xor_digits k 0 y ≡ y
xor_digits-zero zero y = refl
xor_digits-zero (suc k) y = refl

xor_digits_fuel : (k l x y : ℕ) → x ≤ k → x ≤ l → xor_digits k x y ≡ xor_digits l x y
xor_digits_fuel k l zero y enough also = xor_digits-zero k y ∙ sym (xor_digits-zero l y)
xor_digits_fuel zero l (suc x) y enough also = absurd (omega arith)
xor_digits_fuel (suc k) zero (suc x) y enough also = absurd (omega arith)
xor_digits_fuel (suc k) (suc l) (suc x) y enough also =
    ap (λ half. half * 2 + differ (suc x % 2) (y % 2))
      (xor_digits_fuel k l (suc x / 2) (y / 2) (omega arith) (omega arith))

-- The lowest digit of an exclusive or.
bit_xor-half : (a b : ℕ) → bit_xor a b ≡ bit_xor (a / 2) (b / 2) * 2 + differ (a % 2) (b % 2)
bit_xor-half zero b = simp bit_xor-bitwise (omega arith)
bit_xor-half (suc a) b =
    bit_xor-bitwise (suc a) b
    ∙ ap (λ t. t * 2 + differ (suc a % 2) (b % 2))
        (xor_digits_fuel a (suc a / 2) (suc a / 2) (b / 2) (omega arith) (omega arith)
          ∙ sym (bit_xor-bitwise (suc a / 2) (b / 2)))

differ_one : (d : ℕ) → d < 2 → differ d 1 ≡ 1 - d
differ_one zero h = refl
differ_one (suc zero) h = refl
differ_one (suc (suc d)) h = absurd (omega arith)

differ_zero : (d : ℕ) → differ d 0 ≡ d
differ_zero zero = refl
differ_zero (suc d) = refl

-- With all ones it is the complement, with none the number.
bit_xor-ones : (k x : ℕ) → x < 2 ^ k → bit_xor x (2 ^ k - 1) ≡ 2 ^ k - 1 - x
bit_xor-ones zero x h = let e : x ≡ 0 = omega arith in rw e
bit_xor-ones (suc k) x h =
    let p = pow-suc 2 k in
    let pos : 0 < 2 ^ k = omega arith in
    let half : (2 ^ suc k - 1) / 2 ≡ 2 ^ k - 1 = omega arith in
    let odd : (2 ^ suc k - 1) % 2 ≡ 1 = omega arith in
    bit_xor-half x (2 ^ suc k - 1)
    ∙ ap₂ (λ h d. bit_xor (x / 2) h * 2 + differ (x % 2) d) half odd
    ∙ omega (arith, bit_xor-ones k (x / 2) (omega arith), differ_one (x % 2) (omega arith))

bit_xor-zero : (k x : ℕ) → x < 2 ^ k → bit_xor x 0 ≡ x
bit_xor-zero zero x h = let e : x ≡ 0 = omega arith in rw e
bit_xor-zero (suc k) x h = omega (
  arith,
  bit_xor-half x 0,
  pow-suc 2 k,
  bit_xor-zero k (x / 2) (omega arith),
  differ_zero (x % 2),
)

-- In plain arithmetic: `2 v` for `0 ≤ v`, and `-2 v - 1` for a negative pattern `v`.
zigzag_encode_nonneg : (v : ℕ) → v < 2 ^ 63 → zigzag_encode v ≡ 2 * v
unfolding zigzag_encode
zigzag_encode_nonneg v h =
    rw (leb-false (2 ^ 63) v h) (bit_xor-zero 64 (v * 2 % 2 ^ 64) (omega arith) ∙ omega arith)

zigzag_encode_neg : (v : ℕ) → 2 ^ 63 ≤ v → IsU64 v → zigzag_encode v ≡ 2 * (2 ^ 64 - v) - 1
unfolding zigzag_encode
zigzag_encode_neg v lo hi =
    rw (le→leb (2 ^ 63) v lo) (bit_xor-ones 64 (v * 2 % 2 ^ 64) (omega arith) ∙ omega arith)

zigzag_decode_even : (n : ℕ) → n < 2 ^ 63 → zigzag_decode (2 * n) ≡ n
unfolding zigzag_decode
zigzag_decode_even n h =
    let e : minus_low_bit (2 * n) ≡ 0 = omega arith in
    rw e (bit_xor-zero 64 (2 * n / 2) (omega arith) ∙ omega arith)

zigzag_decode_odd : (n : ℕ) → n < 2 ^ 63 → zigzag_decode (2 * n + 1) ≡ 2 ^ 64 - 1 - n
unfolding zigzag_decode
zigzag_decode_odd n h =
    let e : minus_low_bit (2 * n + 1) ≡ 2 ^ 64 - 1 = omega arith in
    rw e (bit_xor-ones 64 ((2 * n + 1) / 2) (omega arith) ∙ omega arith)

-- `zigzagEncode` sends small magnitudes of either sign to small numbers, and `zigzagDecode` returns
-- every `int64_t`.
pub zigzag_decode-zigzag_encode :
    (v : ℕ) → IsU64 v → IsU64 (zigzag_encode v) × (zigzag_decode (zigzag_encode v) ≡ v)
zigzag_decode-zigzag_encode v h = elim (dec_lt v (2 ^ 63)) [
  | yes p ↦ rw (zigzag_encode_nonneg v p) (omega arith, zigzag_decode_even v p)
  | no p ↦
      let n = 2 ^ 64 - 1 - v in
      let e : zigzag_encode v ≡ 2 * n + 1 = zigzag_encode_neg v (omega arith) h ∙ omega arith in
      rw e (omega arith, zigzag_decode_odd n (omega arith) ∙ omega arith)
]

-- `decodeSigned` reads back the `int64_t` that `encodeSigned` wrote into a buffer of ten bytes or
-- more, whatever follows it.
pub decode_signed-encode_signed :
    (v room : ℕ) (rest : List ℕ)
    → IsU64 v
    → 10 ≤ room
    → decode_signed (encode_signed v room ++ rest) ≡ ok (read v (length (varint (zigzag_encode v))))
unfolding encode_signed decode_signed
decode_signed-encode_signed v room rest h wide =
    let (fits, back) = zigzag_decode-zigzag_encode v h in
    let whole =
      take-all room (varint (zigzag_encode v))
        (omega (arith, length-varint (zigzag_encode v) fits)) in
    rw (encode_into-take, whole, decode-encode (zigzag_encode v) rest fits, ◌>>=◌)
      (ap (λ a. ok (read a (length (varint (zigzag_encode v))))) back)
