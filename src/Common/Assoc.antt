-- ===== src/Common/Assoc.antt =====
-- Maps from numbers as lists, each value with its key.
use Prim.Native.Nat.{ℕ}
use mathlib.Core.Path.{◌≡◌, refl, sym, ap, ◌∙◌, subst}
use mathlib.Core.Bool.{false}
use mathlib.Core.Logic.{◌≢◌, inl, inr}
use mathlib.Core.Option.{Option, none, some}
use mathlib.Core.List.{List, [], ◌∷◌, ◌++◌, append-nil, append_assoc}
use native.Mathlib.Omega.{arith}
use nebula_fs.Common.Tests.{◌==◌, ==_refl, if◌then◌else◌, Bool-cases}

module _ {ℓ} {A : Type ℓ} where
  -- `map[key] = a`
  abbrev pub assoc_store : ℕ → A → List (ℕ × A) → List (ℕ × A)
  assoc_store key a [] = (key, a) ∷ []
  assoc_store key a ((k, x) ∷ rest) =
      let kept = (k, x) ∷ assoc_store key a rest in if k == key then (key, a) ∷ rest else kept

  -- `map.find(key)`
  abbrev pub assoc_find : ℕ → List (ℕ × A) → Option A
  assoc_find key [] = none
  assoc_find key ((k, x) ∷ rest) =
      let found = assoc_find key rest in if k == key then some x else found

  -- `map.erase(key)`
  abbrev pub assoc_erase : ℕ → List (ℕ × A) → List (ℕ × A)
  assoc_erase key [] = []
  assoc_erase key ((k, x) ∷ rest) =
      let kept = assoc_erase key rest in if k == key then kept else (k, x) ∷ kept

  pub assoc_find-assoc_store :
      (key : ℕ) (a : A) (m : List (ℕ × A)) → assoc_find key (assoc_store key a m) ≡ some a
  assoc_find-assoc_store key a [] = rw (==_refl key) refl
  assoc_find-assoc_store key a ((k, x) ∷ rest) = elim (Bool-cases (k == key)) [
    | inl same ↦ rw (same, ==_refl key) refl
    | inr other ↦ rw (other, other) (assoc_find-assoc_store key a rest)
  ]

  pub assoc_find-assoc_store_other :
      (key j : ℕ) (a : A) (m : List (ℕ × A))
      → (key == j) ≡ false
      → assoc_find j (assoc_store key a m) ≡ assoc_find j m
  assoc_find-assoc_store_other key j a [] differ = rw differ refl
  assoc_find-assoc_store_other key j a ((k, x) ∷ rest) differ = elim (Bool-cases (k == key)) [
    | inl same ↦ let apart : (k == j) ≡ false = ground arith in rw (same, differ, apart) refl
    | inr other ↦ elim (Bool-cases (k == j)) [
      | inl here ↦ rw (other, here) refl
      | inr away ↦ rw (other, away) (assoc_find-assoc_store_other key j a rest differ)
    ]
  ]

  pub assoc_find-assoc_erase_other :
      (key j : ℕ) (m : List (ℕ × A))
      → (key == j) ≡ false
      → assoc_find j (assoc_erase key m) ≡ assoc_find j m
  assoc_find-assoc_erase_other key j [] differ = refl
  assoc_find-assoc_erase_other key j ((k, x) ∷ rest) differ = elim (Bool-cases (k == key)) [
    | inl same ↦
        let apart : (k == j) ≡ false = ground arith in
        rw (same, apart) (assoc_find-assoc_erase_other key j rest differ)
    | inr other ↦ elim (Bool-cases (k == j)) [
      | inl here ↦ rw (other, here) refl
      | inr away ↦ rw (other, away) (assoc_find-assoc_erase_other key j rest differ)
    ]
  ]

  -- Every key at most once, as in a map.
  abbrev pub IsNumbered : List (ℕ × A) → Type ℓ
  IsNumbered [] = Unit {ℓ}
  IsNumbered ((k, x) ∷ rest) = (assoc_find k rest ≡ none) × IsNumbered rest

  -- A map's values stored into another, one after the other.
  abbrev pub assoc_store_all : List (ℕ × A) → List (ℕ × A) → List (ℕ × A)
  assoc_store_all [] m = m
  assoc_store_all ((k, x) ∷ rest) m = assoc_store_all rest (assoc_store k x m)

  assoc_store_new :
      (key : ℕ) (a : A) (m : List (ℕ × A))
      → assoc_find key m ≡ none
      → assoc_store key a m ≡ m ++ ((key, a) ∷ [])
  assoc_store_new key a [] new = refl
  assoc_store_new key a ((k, x) ∷ rest) new = elim (Bool-cases (k == key)) [
    | inl same ↦ cc (rw same at new)
    | inr other ↦ rw other (ap (λ m. (k, x) ∷ m) (assoc_store_new key a rest (rw other at new)))
  ]

  assoc_find-append :
      (q : ℕ) (a : A) (front back : List (ℕ × A)) → assoc_find q (front ++ ((q, a) ∷ back)) ≢ none
  assoc_find-append q a [] back none_found = cc (rw ==_refl at none_found)
  assoc_find-append q a ((k, x) ∷ front) back none_found = elim (Bool-cases (k == q)) [
    | inl same ↦ cc (rw same at none_found)
    | inr other ↦ assoc_find-append q a front back (rw other at none_found)
  ]

  IsNumbered-front :
      (key : ℕ) (a : A) (front back : List (ℕ × A))
      → IsNumbered (front ++ ((key, a) ∷ back))
      → assoc_find key front ≡ none
  IsNumbered-front key a [] back d = refl
  IsNumbered-front key a ((k, x) ∷ front) back d = elim (Bool-cases (k == key)) [
    | inl same ↦
        let here : k ≡ key = ground arith in
        absurd (
          assoc_find-append key a front back
            (subst (λ q. assoc_find q (front ++ ((key, a) ∷ back)) ≡ none) here d.0))
    | inr other ↦ rw other (IsNumbered-front key a front back d.1)
  ]

  pub assoc_store_all-append :
      (es m : List (ℕ × A)) → IsNumbered (m ++ es) → assoc_store_all es m ≡ m ++ es
  assoc_store_all-append [] m d = sym (append-nil m)
  assoc_store_all-append ((k, x) ∷ rest) m d =
      let moved = append_assoc m ((k, x) ∷ []) rest in
      ap (assoc_store_all rest) (assoc_store_new k x m (IsNumbered-front k x m rest d))
      ∙ assoc_store_all-append rest (m ++ ((k, x) ∷ [])) (subst IsNumbered (sym moved) d)
      ∙ moved
