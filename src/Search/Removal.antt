-- ===== src/Search/Removal.antt =====
-- Where a term stands in a document, by the dictionary of an index, and what a removal makes of it.
use nebula_fs.Common.{
  ℕ, ◌≡◌, refl, Bool, sym, ap, ◌∙◌, true, false, Bool-cases, inl, inr, Option, none, some, List, [],
  ◌∷◌, ◌++◌, append-nil, append_assoc, ◌==◌, if◌then◌else◌, list_eq, list_eq→eq, text_find, arith,
}
use mathlib.Core.Path.{subst}
use nebula_fs.PostingList.{Posting, PostingList, empty, add_posting, find_doc, doc_frequency}
use nebula_fs.PostingList.Occurrences.{Distinct}
use nebula_fs.PostingList.Others.{without, find_doc-without, find_doc_nothing, Distinct-without}
use nebula_fs.Search.InvertedIndex.{Dictionary, strip_postings, strip_dictionary}

abbrev pub positions_of : Option Posting → List ℕ
positions_of none = []
positions_of (some p) = p.positions

abbrev pub positions_in : ℕ → Option PostingList → List ℕ
positions_in doc none = []
positions_in doc (some l) = positions_of (find_doc doc l)

-- The positions of a term in a document.
abbrev pub lookup : ℕ → List ℕ → Dictionary → List ℕ
lookup doc term d = positions_in doc (text_find term d)

-- Every term once, with one posting for each document.
abbrev pub IsOrderly : Dictionary → Type 0
IsOrderly [] = Unit {0}
IsOrderly ((term, l) ∷ rest) = (text_find term rest ≡ none) × Distinct l.postings × IsOrderly rest

strip_postings-without :
    (doc : ℕ) (ps : List Posting) (updated : PostingList)
    → (strip_postings doc ps updated).postings ≡ updated.postings ++ without doc ps
unfolding add_posting
strip_postings-without doc [] updated = sym (append-nil updated.postings)
strip_postings-without doc (p ∷ ps) updated = elim (Bool-cases (p.doc_id == doc)) [
  | inl same ↦ rw (same, strip_postings) (strip_postings-without doc ps updated)
  | inr other ↦
      rw (other, strip_postings)
        (strip_postings-without doc ps (add_posting p updated)
          ∙ append_assoc updated.postings (p ∷ []) (without doc ps))
]

-- A term that is not there is not there after the removal.
strip_dictionary-absent :
    (doc : ℕ) (term : List ℕ) (d : Dictionary)
    → text_find term d ≡ none
    → text_find term (strip_dictionary doc d) ≡ none
strip_dictionary-absent doc term [] absent = refl
strip_dictionary-absent doc term ((t, l) ∷ rest) absent = elim (Bool-cases (list_eq t term)) [
  | inl same ↦ cc (rw same at absent)
  | inr other ↦
      let behind = strip_dictionary-absent doc term rest (rw other at absent) in
      elim (Bool-cases (doc_frequency (strip_postings doc l.postings empty) == 0)) [
        | inl gone ↦ rw gone behind
        | inr left ↦ rw (left, other) behind
      ]
]

positions_of-if :
    (test : Bool) (o : Option Posting)
    → positions_of (if test then none else o) ≡ (if test then [] else positions_of o)
positions_of-if true o = refl
positions_of-if false o = refl

-- What is left of the postings of one term.
stripped :
    (doc q : ℕ) (l : PostingList)
    → positions_of (find_doc q (strip_postings doc l.postings empty))
      ≡ (if doc == q then [] else positions_of (find_doc q l))
stripped doc q l =
    ap positions_of (
      find_doc-without doc q l (strip_postings doc l.postings empty)
        (strip_postings-without doc l.postings empty))
    ∙ positions_of-if (doc == q) (find_doc q l)

pub lookup-strip_dictionary :
    (doc q : ℕ) (term : List ℕ) (d : Dictionary)
    → IsOrderly d
    → lookup q term (strip_dictionary doc d) ≡ (if doc == q then [] else lookup q term d)
lookup-strip_dictionary doc q term [] orderly = ground arith
lookup-strip_dictionary doc q term ((t, l) ∷ rest) orderly =
    let updated = strip_postings doc l.postings empty in
    elim (Bool-cases (list_eq t term)) [
      | inl same ↦
          let absent : text_find term (strip_dictionary doc rest) ≡ none =
            strip_dictionary-absent doc term rest
              (ap (λ k. text_find k rest) (sym (list_eq→eq t term same)) ∙ orderly.0) in
          elim (Bool-cases (doc_frequency updated == 0)) [
            | inl gone ↦
                rw (gone, same, absent)
                  (sym (ap positions_of (find_doc_nothing q updated gone)) ∙ stripped doc q l)
            | inr left ↦ rw (left, same) (stripped doc q l)
          ]
      | inr other ↦
          let behind = lookup-strip_dictionary doc q term rest orderly.2 in
          elim (Bool-cases (doc_frequency updated == 0)) [
            | inl gone ↦ rw (gone, other) behind
            | inr left ↦ rw (left, other) behind
          ]
    ]

pub strip_dictionary-IsOrderly :
    (doc : ℕ) (d : Dictionary) → IsOrderly d → IsOrderly (strip_dictionary doc d)
strip_dictionary-IsOrderly doc [] orderly = tt
strip_dictionary-IsOrderly doc ((t, l) ∷ rest) orderly =
    let behind = strip_dictionary-IsOrderly doc rest orderly.2 in
    elim (Bool-cases (doc_frequency (strip_postings doc l.postings empty) == 0)) [
      | inl gone ↦ rw gone behind
      | inr left ↦ rw left (
        strip_dictionary-absent doc t rest orderly.0,
        subst Distinct (sym (strip_postings-without doc l.postings empty))
            (Distinct-without doc l.postings orderly.1),
        behind,
      )
    ]
