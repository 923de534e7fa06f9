-- ===== src/Common/Bits.antt =====
-- `|` of disjoint fields and `&` with the masks of the program, as arithmetic.
use Prim.Native.Nat.{
  ℕ, zero, suc, ◌+◌, ◌*◌, ◌/◌, ◌%◌, ◌^◌, ◌≤◌, ◌<◌, max, bit_and, bit_or, digits, bit_or-bitwise,
}
use mathlib.Core.Path.{◌≡◌, refl, sym, ap, ◌∙◌}
use mathlib.Core.Bool.{Bool, true, false}
use native.Mathlib.Omega.{arith}
use native.Mathlib.Nat.{pow-suc}
use nebula_fs.Common.Tests.{◌==◌, ==_iff, if◌then◌else◌}

-- A table over a small range is checked by evaluation.
pub all_below : ℕ → (ℕ → Bool) → Bool
all_below zero test = true
all_below (suc k) test = if test k then all_below k test else false

pub all_below_sound :
    (k : ℕ) (test : ℕ → Bool) (b : ℕ) → b < k → all_below k test ≡ true → test b ≡ true
unfolding all_below
all_below_sound zero test b small table = absurd (omega arith)
all_below_sound (suc k) test b small table = ground (arith, all_below_sound k test b)

low_table : all_below 256 (λ b. bit_and b 0x7f == b % 128) ≡ true
unfolding all_below
low_table = refl

top_table : all_below 256 (λ b. bit_and b 0x80 == b / 128 * 128) ≡ true
unfolding all_below
top_table = refl

mark_table : all_below 128 (λ b. bit_or b 0x80 == b + 128) ≡ true
unfolding all_below
mark_table = refl

pub low_bits : (b : ℕ) → b < 256 → bit_and b 0x7f ≡ b % 128
low_bits b h = (==_iff _ _).0 (all_below_sound 256 _ b h low_table)

pub top_bit : (b : ℕ) → b < 256 → bit_and b 0x80 ≡ b / 128 * 128
top_bit b h = (==_iff _ _).0 (all_below_sound 256 _ b h top_table)

pub mark_bit : (b : ℕ) → b < 128 → bit_or b 0x80 ≡ b + 128
mark_bit b h = (==_iff _ _).0 (all_below_sound 128 _ b h mark_table)

-- The native `|` stands for a recursion on binary digits; its fuel does not matter.
abbrev or_digits : ℕ → ℕ → ℕ → ℕ
or_digits fuel x y = digits (λ v. v) max fuel x y

or_digits-zero : (k y : ℕ) → or_digits k 0 y ≡ y
or_digits-zero zero y = refl
or_digits-zero (suc k) y = refl

or_digits_fuel : (k l x y : ℕ) → x ≤ k → x ≤ l → or_digits k x y ≡ or_digits l x y
or_digits_fuel k l zero y enough also = or_digits-zero k y ∙ sym (or_digits-zero l y)
or_digits_fuel zero l (suc x) y enough also = absurd (omega arith)
or_digits_fuel (suc k) zero (suc x) y enough also = absurd (omega arith)
or_digits_fuel (suc k) (suc l) (suc x) y enough also =
    let halves = or_digits_fuel k l (suc x / 2) (y / 2) (omega arith) (omega arith) in
    omega (arith, halves)

bit_or-half : (x y : ℕ) → bit_or x y ≡ bit_or (x / 2) (y / 2) * 2 + max (x % 2) (y % 2)
bit_or-half zero y = simp bit_or-bitwise (omega arith)
bit_or-half (suc x) y =
    let fuel = or_digits_fuel x (suc x / 2) (suc x / 2) (y / 2) (omega arith) (omega arith) in
    omega (arith, fuel, bit_or-bitwise (suc x) y, bit_or-bitwise (suc x / 2) (y / 2))

zero-bit_or : (b : ℕ) → bit_or 0 b ≡ b
zero-bit_or b = bit_or-bitwise 0 b

-- `x | (q << k)` is a sum when `x` fits below the field.
pub bit_or_field : (k x q : ℕ) → x < 2 ^ k → bit_or x (q * 2 ^ k) ≡ x + q * 2 ^ k
bit_or_field zero x q h =
    let e : x ≡ 0 = omega arith in rw e (omega (arith, zero-bit_or (q * 2 ^ 0)))
bit_or_field (suc k) x q h = ground (
  arith,
  bit_or-half x (q * 2 ^ suc k),
  ap (λ (t : ℕ). q * t) (pow-suc 2 k),
  pow-suc 2 k,
  bit_or_field k (x / 2) q,
)
