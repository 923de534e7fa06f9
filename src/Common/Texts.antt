-- ===== src/Common/Texts.antt =====
-- Maps from strings as lists, each value with its key.
use Prim.Native.Nat.{ℕ}
use mathlib.Core.Path.{◌≡◌, refl, sym, ap, ◌∙◌, subst}
use mathlib.Core.Logic.{◌≢◌, inl, inr}
use mathlib.Core.Option.{Option, none, some}
use mathlib.Core.List.{List, [], ◌∷◌, ◌++◌, append-nil, append_assoc}
use nebula_fs.Common.Tests.{if◌then◌else◌, Bool-cases}
use nebula_fs.Common.Lists.{list_eq, list_eq→eq, list_eq_refl}

module _ {ℓ} {A : Type ℓ} where
  -- `map[key] = a`
  abbrev pub text_store : List ℕ → A → List (List ℕ × A) → List (List ℕ × A)
  text_store key a [] = (key, a) ∷ []
  text_store key a ((k, x) ∷ rest) =
      let kept = (k, x) ∷ text_store key a rest in if list_eq k key then (key, a) ∷ rest else kept

  -- `map.find(key)`
  abbrev pub text_find : List ℕ → List (List ℕ × A) → Option A
  text_find key [] = none
  text_find key ((k, x) ∷ rest) =
      let found = text_find key rest in if list_eq k key then some x else found

  -- `map.erase(key)`
  abbrev pub text_erase : List ℕ → List (List ℕ × A) → List (List ℕ × A)
  text_erase key [] = []
  text_erase key ((k, x) ∷ rest) =
      let kept = text_erase key rest in if list_eq k key then rest else (k, x) ∷ kept

  pub text_find-text_store :
      (q key : List ℕ) (a : A) (m : List (List ℕ × A))
      → text_find q (text_store key a m) ≡ (if list_eq key q then some a else text_find q m)
  text_find-text_store q key a [] = refl
  text_find-text_store q key a ((k, v) ∷ rest) = elim (Bool-cases (list_eq k key)) [
    | inl same ↦
        rw (same, list_eq→eq k key same)
          (elim (Bool-cases (list_eq key q)) [ inl here ↦ rw here | inr gone ↦ rw gone ])
    | inr other ↦ rw other (elim (Bool-cases (list_eq k q)) [
      | inl here ↦
          let e = list_eq→eq k q here in
          elim (Bool-cases (list_eq key q)) [
            | inl both ↦ cc (rw (e, list_eq→eq key q both, list_eq_refl) at other)
            | inr apart ↦ rw (here, apart)
          ]
      | inr gone ↦ rw gone (text_find-text_store q key a rest)
    ])
  ]

  -- Every key at most once, as in a map.
  abbrev pub IsKeyed : List (List ℕ × A) → Type ℓ
  IsKeyed [] = Unit {ℓ}
  IsKeyed ((k, x) ∷ rest) = (text_find k rest ≡ none) × IsKeyed rest

  -- A map's values stored into another, one after the other.
  abbrev pub text_store_all : List (List ℕ × A) → List (List ℕ × A) → List (List ℕ × A)
  text_store_all [] m = m
  text_store_all ((k, x) ∷ rest) m = text_store_all rest (text_store k x m)

  text_store_new :
      (key : List ℕ) (a : A) (m : List (List ℕ × A))
      → text_find key m ≡ none
      → text_store key a m ≡ m ++ ((key, a) ∷ [])
  text_store_new key a [] new = refl
  text_store_new key a ((k, x) ∷ rest) new = elim (Bool-cases (list_eq k key)) [
    | inl same ↦ cc (rw same at new)
    | inr other ↦ rw other (ap (λ m. (k, x) ∷ m) (text_store_new key a rest (rw other at new)))
  ]

  text_find-append :
      (q : List ℕ) (a : A) (front back : List (List ℕ × A))
      → text_find q (front ++ ((q, a) ∷ back)) ≢ none
  text_find-append q a [] back none_found = cc (rw list_eq_refl at none_found)
  text_find-append q a ((k, x) ∷ front) back none_found = elim (Bool-cases (list_eq k q)) [
    | inl same ↦ cc (rw same at none_found)
    | inr other ↦ text_find-append q a front back (rw other at none_found)
  ]

  IsKeyed-front :
      (key : List ℕ) (a : A) (front back : List (List ℕ × A))
      → IsKeyed (front ++ ((key, a) ∷ back))
      → text_find key front ≡ none
  IsKeyed-front key a [] back d = refl
  IsKeyed-front key a ((k, x) ∷ front) back d = elim (Bool-cases (list_eq k key)) [
    | inl same ↦ absurd (
        text_find-append key a front back (
          subst (λ q. text_find q (front ++ ((key, a) ∷ back)) ≡ none) (list_eq→eq k key same) d.0))
    | inr other ↦ rw other (IsKeyed-front key a front back d.1)
  ]

  pub text_store_all-append :
      (es m : List (List ℕ × A)) → IsKeyed (m ++ es) → text_store_all es m ≡ m ++ es
  text_store_all-append [] m d = sym (append-nil m)
  text_store_all-append ((k, x) ∷ rest) m d =
      let moved = append_assoc m ((k, x) ∷ []) rest in
      ap (text_store_all rest) (text_store_new k x m (IsKeyed-front k x m rest d))
      ∙ text_store_all-append rest (m ++ ((k, x) ∷ [])) (subst IsKeyed (sym moved) d)
      ∙ moved
