-- ===== src/Packed.antt =====
-- Structs under `#pragma pack(1)` that are copied by `memcpy`, as include/nebula/BinaryFormat.hpp
-- lays them out: the numbers one after the other, each in the bytes of its width, lowest byte first.
mod Tests
use nebula_fs.Common.{
  ℕ, zero, suc, ◌+◌, ◌*◌, ◌/◌, ◌%◌, ◌^◌, ◌<◌, ◌≡◌, refl, ap, ap₂, ◌∙◌, List, [], ◌∷◌, ◌++◌,
  append_assoc, length, length-append, take, drop, take-append, drop-append, sum, arith,
}

-- Bytes of a number, lowest first, as they lie in memory.
abbrev pub le_bytes : ℕ → ℕ → List ℕ
le_bytes zero v = []
le_bytes (suc n) v = (v % 256) ∷ le_bytes n (v / 256)

abbrev pub le_value : List ℕ → ℕ
le_value [] = 0
le_value (b ∷ bs) = b + 256 * le_value bs

-- The fields of a struct, by their widths. Numbers that are missing are left out.
unfoldable pub pack : List ℕ → List ℕ → List ℕ
pack [] vs = []
pack (w ∷ ws) [] = []
pack (w ∷ ws) (v ∷ vs) = le_bytes w v ++ pack ws vs

unfoldable pub unpack : List ℕ → List ℕ → List ℕ
unpack [] bytes = []
unpack (w ∷ ws) bytes = le_value (take w bytes) ∷ unpack ws (drop w bytes)

-- One number for each width, within it.
abbrev pub Fit : List ℕ → List ℕ → Type 0
Fit [] [] = Unit {0}
Fit [] (v ∷ vs) = ⊥
Fit (w ∷ ws) [] = ⊥
Fit (w ∷ ws) (v ∷ vs) = (v < 256 ^ w) × Fit ws vs

pub length-le_bytes : (n v : ℕ) → length (le_bytes n v) ≡ n
length-le_bytes zero v = refl
length-le_bytes (suc n) v = ap suc (length-le_bytes n (v / 256))

pub le_value-le_bytes : (n v : ℕ) → v < 256 ^ n → le_value (le_bytes n v) ≡ v
le_value-le_bytes zero v h = omega arith
le_value-le_bytes (suc n) v h = omega (arith, le_value-le_bytes n (v / 256) (omega arith))

take-le_bytes : (n v : ℕ) (rest : List ℕ) → take n (le_bytes n v ++ rest) ≡ le_bytes n v
take-le_bytes zero v rest = refl
take-le_bytes (suc n) v rest = ap (λ t. (v % 256) ∷ t) (take-le_bytes n (v / 256) rest)

drop-le_bytes : (n v : ℕ) (rest : List ℕ) → drop n (le_bytes n v ++ rest) ≡ rest
drop-le_bytes zero v rest = refl
drop-le_bytes (suc n) v rest = drop-le_bytes n (v / 256) rest

pub length-pack : (ws vs : List ℕ) → Fit ws vs → length (pack ws vs) ≡ sum ws
unfolding pack
length-pack [] [] h = refl
length-pack [] (v ∷ vs) h = absurd h
length-pack (w ∷ ws) [] h = absurd h
length-pack (w ∷ ws) (v ∷ vs) h =
    omega
      (arith, length-append (le_bytes w v) (pack ws vs), length-le_bytes w v, length-pack ws vs h.1)

-- What was packed is unpacked, whatever follows.
pub unpack-pack : (ws vs rest : List ℕ) → Fit ws vs → unpack ws (pack ws vs ++ rest) ≡ vs
unfolding unpack pack
unpack-pack [] [] rest h = refl
unpack-pack [] (v ∷ vs) rest h = absurd h
unpack-pack (w ∷ ws) [] rest h = absurd h
unpack-pack (w ∷ ws) (v ∷ vs) rest h = rw (
  append_assoc (le_bytes w v) (pack ws vs) rest,
  take-le_bytes w v (pack ws vs ++ rest),
  drop-le_bytes w v (pack ws vs ++ rest),
  le_value-le_bytes w v h.0,
  unpack-pack ws vs rest h.1,
)
