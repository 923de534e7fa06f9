-- ===== src/Metadata/Lookup.antt =====
-- What is found in a store after its operations.
use nebula_fs.Common.{
  IsKeyed, text_store, text_find, text_find-text_store, ℕ, ◌≡◌, refl, sym, ap, ◌∙◌, Bool, true,
  false, Bool-cases, inl, inr, Option, none, some, List, [], ◌∷◌, if◌then◌else◌, list_eq,
  list_eq→eq, list_eq_refl,
}
use nebula_fs.Metadata.{Entries}
use nebula_fs.Metadata.Store.{MetadataStore, get, is_some, merge_entries, merge}

pub text_store-IsKeyed :
    (key value : List ℕ) (es : Entries) → IsKeyed es → IsKeyed (text_store key value es)
text_store-IsKeyed key value [] d = (refl, tt)
text_store-IsKeyed key value ((k, v) ∷ rest) d = elim (Bool-cases (list_eq k key)) [
  | inl same ↦ rw same (rw (list_eq→eq k key same) at d.0, d.1)
  | inr other ↦
      let apart : list_eq key k ≡ false = elim (Bool-cases (list_eq key k)) [
        | inl both ↦ cc (rw (list_eq→eq key k both, list_eq_refl) at other)
        | inr different ↦ different
      ] in
      rw other (
        text_find-text_store k key value rest ∙ rw apart d.0,
        text_store-IsKeyed key value rest d.1,
      )
]

-- The first store that has the key has the value.
abbrev pub first_some : Option (List ℕ) → Option (List ℕ) → Option (List ℕ)
first_some none other = other
first_some (some v) other = some v

first_some-none : (o : Option (List ℕ)) → first_some o none ≡ o
first_some-none none = refl
first_some-none (some v) = refl

first_some_assoc :
    (a b c : Option (List ℕ)) → first_some (first_some a b) c ≡ first_some a (first_some b c)
first_some_assoc none b c = refl
first_some_assoc (some v) b c = refl

first_some-if :
    (test : Bool) (v : List ℕ) (o : Option (List ℕ))
    → first_some (if test then some v else none) o ≡ (if test then some v else o)
first_some-if true v o = refl
first_some-if false v o = refl

-- What `merge` does with one entry; `o` is what is there.
kept_or_put :
    (q key value : List ℕ) (es : Entries) (o : Option (List ℕ))
    → text_find key es ≡ o
    → text_find q (if is_some o then es else text_store key value es)
      ≡ first_some (text_find q es) (if list_eq key q then some value else none)
kept_or_put q key value es none absent =
    text_find-text_store q key value es ∙ elim (Bool-cases (list_eq key q)) [
      | inl same ↦ rw (same, ← list_eq→eq key q same, absent) refl
      | inr other ↦ rw other (sym (first_some-none (text_find q es)))
    ]
kept_or_put q key value es (some v) there = elim (Bool-cases (list_eq key q)) [
  | inl same ↦ rw (same, ← list_eq→eq key q same, there) refl
  | inr other ↦ rw other (sym (first_some-none (text_find q es)))
]

text_find-merge_entries :
    (q : List ℕ) (others es : Entries)
    → text_find q (merge_entries others es) ≡ first_some (text_find q es) (text_find q others)
text_find-merge_entries q [] es = sym (first_some-none (text_find q es))
text_find-merge_entries q ((k, v) ∷ rest) es =
    text_find-merge_entries q rest (if is_some (text_find k es) then es else text_store k v es)
    ∙ ap (λ o. first_some o (text_find q rest)) (kept_or_put q k v es (text_find k es) refl)
    ∙ first_some_assoc (text_find q es) (if list_eq k q then some v else none) (text_find q rest)
    ∙ ap (first_some (text_find q es)) (first_some-if (list_eq k q) v (text_find q rest))

-- After `merge` the store has, under every key, the value it had before, and where it had none that
-- of the other store.
pub get-merge :
    (q : List ℕ) (other s : MetadataStore)
    → get q (merge other s) ≡ first_some (get q s) (get q other)
unfolding merge
get-merge q other s = text_find-merge_entries q other.entries s.entries
