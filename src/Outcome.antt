-- ===== src/Outcome.antt =====
-- What a call of the C++ code can end in.

-- `fail` is the error return of the function at hand (an error code, `nullopt`); `throws` is an
-- exception that the code does not catch; `undefined` is undefined behaviour.
pub data Outcome {ℓ} (A : Type ℓ) : Type ℓ where
  ok : A → Outcome A
  fail throws undefined : Outcome A

infixl 5 ◌>>=◌ ◌>>◌
abbrev pub ◌>>=◌ {ℓ κ} : {A : Type ℓ} {B : Type κ} → Outcome A → (A → Outcome B) → Outcome B
m >>= k = elim m [ ok a ↦ k a | fail ↦ fail | throws ↦ throws | undefined ↦ undefined ]

abbrev pub ◌>>◌ {ℓ} : {B : Type ℓ} → Outcome (Unit {0}) → Outcome B → Outcome B
m >> k = m >>= λ _. k
