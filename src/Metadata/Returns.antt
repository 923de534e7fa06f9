-- ===== src/Metadata/Returns.antt =====
-- The loops of src/metadata/MetadataStore.cpp and src/parser/MetadataParser.cpp end.
use nebula_fs.Common.{
  text_store, ℕ, zero, suc, ◌<◌, ◌≡◌, refl, Bool, true, false, Bool-cases, inl, inr, Option, none,
  some, List, [], ◌∷◌, length, take, drop, length-drop, drop-drop, sym, ap, ◌∙◌, ◌+◌, ◌⊎◌, arith,
}
use nebula_fs.Outcome.{Outcome, ok, fail, throws, undefined}
use nebula_fs.VarInt.{decode}
use nebula_fs.VarInt.Decode.{decode_consumed, decode_either}
use nebula_fs.Metadata.{Entries, Sizes}
use nebula_fs.Metadata.Store.{
  is_corrupt, value_sizes, key_sizes, read_sizes, after_sizes, load_loop, deserialize,
}

-- The bytes from some place on.
Tail : List ℕ → List ℕ → Type 0
Tail bytes left = (n : ℕ) × (left ≡ drop n bytes)

Tail-drop : (bytes left : List ℕ) (m : ℕ) → Tail bytes left → Tail bytes (drop m left)
unfolding Tail
Tail-drop bytes left m (n, same) = (n + m, ap (drop m) same ∙ drop-drop n m bytes)

-- A number somewhere in the bytes that `decode` shifts too far for.
pub HasOverlong : List ℕ → Type 0
HasOverlong bytes = (n : ℕ) × (decode (drop n bytes) ≡ undefined)

HasOverlong-Tail : (bytes left : List ℕ) → Tail bytes left → HasOverlong left → HasOverlong bytes
unfolding Tail HasOverlong
HasOverlong-Tail bytes left (n, same) (m, over) =
    (n + m, ap decode (sym (drop-drop n m bytes)) ∙ ap (λ l. decode (drop m l)) (sym same) ∙ over)

-- What the lengths of an entry are read from: what is left is shorter, or they are too long.
Shorter : List ℕ → Outcome (Option Sizes) → Type 0
Shorter bytes (ok none) = Unit {0}
Shorter bytes (ok (some s)) = (length s.left < length bytes) × Tail bytes s.left
Shorter bytes fail = true ≡ false
Shorter bytes throws = true ≡ false
Shorter bytes undefined = HasOverlong bytes

value_sizes-Shorter :
    (key : ℕ) (bytes behind : List ℕ)
    → length behind < length bytes
    → Tail bytes behind
    → Shorter bytes (value_sizes key behind (decode behind))
unfolding Shorter
value_sizes-Shorter key bytes behind shorter tail = elim (decode_either behind) [
  | inr over ↦ rw over (HasOverlong-Tail bytes behind tail (unfold HasOverlong in (0, over)))
  | inl (v, is) ↦ elim (Bool-cases v.valid) [
    | inl valid ↦
        rw (is, valid)
          (omega (arith, length-drop v.consumed behind), Tail-drop bytes behind v.consumed tail)
    | inr invalid ↦ rw (is, invalid) tt
  ]
]

key_sizes-Shorter : (bytes : List ℕ) → Shorter bytes (key_sizes bytes (decode bytes))
unfolding Shorter
key_sizes-Shorter bytes = elim (decode_either bytes) [
  | inr over ↦ rw over (unfold HasOverlong in (0, over))
  | inl (k, is) ↦ elim (Bool-cases k.valid) [
    | inl valid ↦
        let consumed = decode_consumed bytes k is valid in
        rw (is, valid)
          (value_sizes-Shorter k.value bytes (drop k.consumed bytes)
            (omega (arith, length-drop k.consumed bytes)) (unfold Tail in (k.consumed, refl)))
    | inr invalid ↦ rw (is, invalid) tt
  ]
]

-- An answer, or the shift of a number in the bytes.
Ends : List ℕ → Option (Outcome (Entries × Bool)) → Type 0
Ends bytes o =
    ((r : Entries × Bool) × (o ≡ some (ok r))) ⊎ ((o ≡ some undefined) × HasOverlong bytes)

Ends-Tail :
    (bytes left : List ℕ) (o : Option (Outcome (Entries × Bool)))
    → Tail bytes left
    → Ends left o
    → Ends bytes o
unfolding Ends
Ends-Tail bytes left o tail (inl answer) = inl answer
Ends-Tail bytes left o tail (inr (is, over)) = inr (is, HasOverlong-Tail bytes left tail over)

after_sizes-Ends :
    (bytes : List ℕ) (o : Outcome (Option Sizes)) (es : Entries)
    (again : List ℕ → Entries → Option (Outcome (Entries × Bool)))
    → Shorter bytes o
    → ((left : List ℕ) (es' : Entries) → length left < length bytes → Ends left (again left es'))
    → Ends bytes (after_sizes o es again)
unfolding after_sizes Shorter Ends
after_sizes-Ends bytes (ok none) es again shorter later = inl ((es, false), refl)
after_sizes-Ends bytes (ok (some s)) es again shorter later = elim (Bool-cases (is_corrupt s)) [
  | inl corrupt ↦ inl ((es, true), rw corrupt refl)
  | inr sound ↦
      let left = drop s.value (drop s.key s.left) in
      let es' = text_store (take s.key s.left) (take s.value (drop s.key s.left)) es in
      let tail =
        Tail-drop bytes (drop s.key s.left) s.value (Tail-drop bytes s.left s.key shorter.1) in
      rw sound (
        Ends-Tail bytes left (again left es') tail (
          later left es' (
            omega (
              arith,
              shorter.0,
              length-drop s.value (drop s.key s.left),
              length-drop s.key s.left,
            ))))
]
after_sizes-Ends bytes fail es again shorter later = absurd (cc shorter)
after_sizes-Ends bytes throws es again shorter later = absurd (cc shorter)
after_sizes-Ends bytes undefined es again shorter later = inr (refl, shorter)

load_loop-Ends :
    (fuel : ℕ) (bytes : List ℕ) (es : Entries)
    → length bytes < fuel
    → Ends bytes (load_loop fuel bytes es)
unfolding load_loop read_sizes Ends
load_loop-Ends zero bytes es enough = absurd (omega arith)
load_loop-Ends (suc fuel) [] es enough = inl ((es, false), refl)
load_loop-Ends (suc fuel) (b ∷ bs) es enough =
    after_sizes-Ends (b ∷ bs) (read_sizes (b ∷ bs)) es (λ left es'. load_loop fuel left es')
      (key_sizes-Shorter (b ∷ bs)) (λ left es' shorter. load_loop-Ends fuel left es' (omega arith))

-- `deserialize` of the metadata store ends for every span. It returns, with an error or without; or
-- else it shifts too far, and then a number that `decode` does so for stands somewhere in the span.
pub deserialize_returns :
    (bytes : List ℕ)
    → ((r : Entries × Bool) × (deserialize bytes ≡ some (ok r)))
      ⊎ ((deserialize bytes ≡ some undefined) × HasOverlong bytes)
unfolding deserialize Ends
deserialize_returns bytes = load_loop-Ends (suc (length bytes)) bytes [] (omega arith)
