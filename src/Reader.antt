-- ===== src/Reader.antt =====
-- The deserialisers' way through a span: an offset, and `subspan(offset)` as the list of the bytes
-- that are left. The offset counts, because `offset + n` wraps at 64 bits.
pub mod Laws
use nebula_fs.Common.{
  ℕ, zero, suc, ◌+◌, ◌%◌, ◌^◌, ◌≡◌, Bool, true, false, List, [], ◌∷◌, ◌++◌, ltb, leb, if◌then◌else◌,
  length, take, drop,
}
use nebula_fs.Outcome.{Outcome, ok, fail, throws, undefined}
use nebula_fs.VarInt.{decode, DecodeResult}

abbrev pub Cursor : Type 0
Cursor = ℕ × List ℕ

abbrev pub Reader {ℓ} : Type ℓ → Type ℓ
Reader A = Cursor → Outcome (A × Cursor)

infixl 5 ◌>>=◌ ◌>>◌
abbrev pub ◌>>=◌ {ℓ κ} : {A : Type ℓ} {B : Type κ} → Reader A → (A → Reader B) → Reader B
◌>>=◌ m f c = elim (m c) [
  | ok (a, c') ↦ f a c'
  | fail ↦ fail
  | throws ↦ throws
  | undefined ↦ undefined
]

abbrev pub ◌>>◌ {ℓ} : {B : Type ℓ} → Reader (Unit {0}) → Reader B → Reader B
m >> k = m >>= λ _. k

abbrev pub pure {ℓ} : {A : Type ℓ} → A → Reader A
pure a c = ok (a, c)

abbrev pub failure {ℓ} : {A : Type ℓ} → Reader A
failure c = fail

abbrev advance : ℕ → List ℕ → DecodeResult → Outcome (ℕ × Cursor)
advance pos bytes r =
    if r.valid then ok (r.value, (pos + r.consumed, drop r.consumed bytes)) else fail

-- `res = VarInt::decode(bytes.subspan(offset)); if (!res.valid) return …; offset += res.consumed;`
unfoldable pub read_varint : Reader ℕ
read_varint (pos, bytes) = elim (decode bytes) [
  | ok r ↦ advance pos bytes r
  | fail ↦ fail
  | throws ↦ throws
  | undefined ↦ undefined
]

-- `if (offset >= bytes.size()) return …;`
unfoldable pub need_more : Reader (Unit {0})
need_more (pos, []) = fail
need_more (pos, b ∷ bs) = ok (tt, (pos, b ∷ bs))

-- `bytes[offset++]`
unfoldable pub read_byte : Reader ℕ
read_byte (pos, []) = undefined
read_byte (pos, b ∷ bs) = ok (b, (pos + 1, bs))

-- `if (offset + n > bytes.size()) return …; std::string(bytes.data() + offset, n); offset += n;`
-- The sum wraps. A count that passes the test by the wrap is above the largest size of a string,
-- whose constructor then throws.
unfoldable pub read_text : ℕ → Reader (List ℕ)
read_text n (pos, bytes) =
    if ltb (pos + length bytes) ((pos + n) % 2 ^ 64)
    then fail
    else if ltb (length bytes) n
    then throws
    else ok (take n bytes, (pos + n, drop n bytes))

-- A counted loop that pushes back what each round reads.
unfoldable pub repeat {ℓ} : {A : Type ℓ} → ℕ → Reader A → Reader (List A)
repeat zero m = pure []
repeat (suc n) m = do x ← m; xs ← repeat n m; pure (x ∷ xs)

-- A deserialiser starts at offset 0, and the bytes that it leaves are not looked at.
abbrev pub run {ℓ} : {A : Type ℓ} → Reader A → List ℕ → Outcome A
run m bytes = elim (m (0, bytes)) [
  | ok (a, c) ↦ ok a
  | fail ↦ fail
  | throws ↦ throws
  | undefined ↦ undefined
]

-- `v.reserve(n)`: a count above the largest size throws. Memory for a smaller one is there.
abbrev pub reserve : ℕ → ℕ → Reader (Unit {0})
reserve max_size n c = if ltb max_size n then throws else ok (tt, c)
