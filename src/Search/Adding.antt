-- ===== src/Search/Adding.antt =====
-- What the tokens of a document add to a dictionary.
use nebula_fs.Common.{
  ℕ, ◌≡◌, refl, ap, ◌∙◌, Bool, true, false, Bool-cases, inl, inr, Option, none, some, List, [], ◌∷◌,
  ◌++◌, append-nil, append_assoc, ◌==◌, if◌then◌else◌, list_eq, list_eq→eq, list_eq_refl, text_find,
  text_store, text_find-text_store, arith,
}
use mathlib.Core.Option
use nebula_fs.PostingList.{
  Posting, PostingList, empty, bump, first_posting, add_occurrence, find_doc,
}
use nebula_fs.PostingList.Occurrences.{Distinct, find_doc-add_to, add_occurrence-Distinct}
use nebula_fs.Search.Tokenizer.{Token}
use nebula_fs.Search.InvertedIndex.{Dictionary, add_tokens}
use nebula_fs.Search.Removal.{positions_of, positions_in, lookup, IsOrderly}

-- The positions at which tokens have a term.
abbrev pub places : List ℕ → List Token → List ℕ
places term [] = []
places term (token ∷ rest) =
    let more = places term rest in if list_eq token.term term then token.position ∷ more else more

-- The postings of a term in the dictionary.
abbrev list_of : Option PostingList → PostingList
list_of o = Option.get_or o empty

positions_in-list_of :
    (q : ℕ) (o : Option PostingList) → positions_of (find_doc q (list_of o)) ≡ positions_in q o
unfolding find_doc
positions_in-list_of q none = refl
positions_in-list_of q (some l) = refl

bumped :
    (doc position : ℕ) (o : Option Posting)
    → positions_of (some (elim o [ none ↦ first_posting doc position | some p ↦ bump position p ]))
      ≡ positions_of o ++ (position ∷ [])
bumped doc position none = refl
bumped doc position (some p) = refl

positions_of-add_occurrence :
    (doc position q : ℕ) (l : PostingList)
    → Distinct l.postings
    → positions_of (find_doc q (add_occurrence doc position l)) ≡ (
        if doc == q
        then positions_of (find_doc q l) ++ (position ∷ [])
        else positions_of (find_doc q l))
positions_of-add_occurrence doc position q l distinct =
    ap positions_of (find_doc-add_to doc position q l distinct) ∙ elim (Bool-cases (doc == q)) [
      | inl same ↦
          let there : doc ≡ q = ground arith in
          rw same (
            bumped doc position (find_doc doc l)
            ∙ ap (λ k. positions_of (find_doc k l) ++ (position ∷ [])) there)
      | inr other ↦ rw other refl
    ]

list_of-Distinct :
    (term : List ℕ) (d : Dictionary) → IsOrderly d → Distinct (list_of (text_find term d)).postings
list_of-Distinct term [] orderly = tt
list_of-Distinct term ((t, l) ∷ rest) orderly = elim (Bool-cases (list_eq t term)) [
  | inl same ↦ rw same orderly.1
  | inr other ↦ rw other (list_of-Distinct term rest orderly.2)
]

text_store-IsOrderly :
    (term : List ℕ) (l : PostingList) (d : Dictionary)
    → Distinct l.postings
    → IsOrderly d
    → IsOrderly (text_store term l d)
text_store-IsOrderly term l [] distinct orderly = (refl, distinct, tt)
text_store-IsOrderly term l ((t, m) ∷ rest) distinct orderly = elim (Bool-cases (list_eq t term)) [
  | inl same ↦ rw same (rw (list_eq→eq t term same) at orderly.0, distinct, orderly.2)
  | inr other ↦
      let apart : list_eq term t ≡ false = elim (Bool-cases (list_eq term t)) [
        | inl both ↦ cc (rw (list_eq→eq term t both, list_eq_refl) at other)
        | inr different ↦ different
      ] in
      rw other (
        text_find-text_store t term l rest ∙ rw apart orderly.0,
        orderly.1,
        text_store-IsOrderly term l rest distinct orderly.2,
      )
]

positions_in-if :
    (q : ℕ) (test : Bool) (l : PostingList) (o : Option PostingList)
    → positions_in q (if test then some l else o)
      ≡ (if test then positions_of (find_doc q l) else positions_in q o)
positions_in-if q true l o = refl
positions_in-if q false l o = refl

-- One occurrence of a token.
lookup-token :
    (doc q : ℕ) (token : Token) (term : List ℕ) (d : Dictionary)
    → IsOrderly d
    → lookup q term (
        text_store token.term
          (add_occurrence doc token.position (list_of (text_find token.term d)))
          d)
      ≡ (if doc == q then lookup q term d ++ places term (token ∷ []) else lookup q term d)
lookup-token doc q token term d orderly =
    let l = list_of (text_find token.term d) in
    let added = add_occurrence doc token.position l in
    ap (positions_in q) (text_find-text_store term token.term added d)
    ∙ positions_in-if q (list_eq token.term term) added (text_find term d)
    ∙ elim (Bool-cases (list_eq token.term term)) [
      | inl same ↦
          rw (same, ← list_eq→eq token.term term same, ← positions_in-list_of)
            (positions_of-add_occurrence doc token.position q l
              (list_of-Distinct token.term d orderly))
      | inr other ↦
          rw (other, append-nil)
            (elim (Bool-cases (doc == q)) [ inl here ↦ rw here refl | inr away ↦ rw away refl ])
    ]

places-append :
    (term : List ℕ) (token : Token) (rest : List Token)
    → places term (token ∷ []) ++ places term rest ≡ places term (token ∷ rest)
places-append term token rest = elim (Bool-cases (list_eq token.term term)) [
  | inl same ↦ rw same refl
  | inr other ↦ rw other refl
]

-- All tokens of a document.
pub add_tokens-lookup :
    (doc : ℕ) (tokens : List Token) (d : Dictionary)
    → IsOrderly d
    → IsOrderly (add_tokens doc tokens d)
      × ((q : ℕ) (term : List ℕ)
          → lookup q term (add_tokens doc tokens d)
            ≡ (if doc == q then lookup q term d ++ places term tokens else lookup q term d))
add_tokens-lookup doc [] d orderly = (
  orderly,
  λ q term.
      rw append-nil
        (elim (Bool-cases (doc == q)) [ inl here ↦ rw here refl | inr away ↦ rw away refl ]),
)
add_tokens-lookup doc (token ∷ rest) d orderly =
    let l = list_of (text_find token.term d) in
    let added = add_occurrence doc token.position l in
    let stored : IsOrderly (text_store token.term added d) =
      text_store-IsOrderly token.term added d
        (add_occurrence-Distinct doc token.position l (list_of-Distinct token.term d orderly))
        orderly in
    let behind = add_tokens-lookup doc rest (text_store token.term added d) stored in
    (
      behind.0,
      λ q term.
          behind.1 q term
          ∙ rw (lookup-token doc q token term d orderly) (elim (Bool-cases (doc == q)) [
            | inl here ↦ rw here (
                append_assoc (lookup q term d) (places term (token ∷ [])) (places term rest)
                ∙ ap (λ ps. lookup q term d ++ ps) (places-append term token rest))
            | inr away ↦ rw away refl
          ]),
    )
