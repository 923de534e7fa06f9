-- ===== src/PostingList/Occurrences.antt =====
-- `addOccurrence` and `findDoc`.
use mathlib.Core.Path.{subst}
use nebula_fs.Common.{
  ℕ, ◌+◌, ◌%◌, ◌^◌, ◌≡◌, ◌≢◌, refl, sym, inl, inr, List, [], ◌∷◌, ◌++◌, none, some, Option-cases,
  ◌==◌, if◌then◌else◌, length, length-append, All, arith,
}
use nebula_fs.PostingList.{
  Posting, PostingList, bump, bump_last, bump_first, first_posting, add_to, add_occurrence, find_in,
  find_doc,
}

abbrev pub Fresh : ℕ → List Posting → Type 0
Fresh doc ps = All (λ p. p.doc_id ≢ doc) ps

abbrev pub Distinct : List Posting → Type 0
Distinct [] = Unit {0}
Distinct (p ∷ ps) = Fresh p.doc_id ps × Distinct ps

-- The positions of all postings.
abbrev occurrences : List Posting → ℕ
occurrences [] = 0
occurrences (p ∷ ps) = length p.positions + occurrences ps

abbrev IsCounted : Posting → Type 0
IsCounted p = p.term_frequency ≡ length p.positions % 2 ^ 32

-- One posting for each document, and counters that agree with the positions.
pub record IsValid (l : PostingList) : Type 0 where
  pub distinct : Distinct l.postings
  pub counted : All IsCounted l.postings
  pub total : l.total_tf ≡ occurrences l.postings % 2 ^ 64

-- What `addOccurrence` means: the document's posting grows, or a new one is appended.
update : ℕ → ℕ → List Posting → List Posting
update doc position [] = first_posting doc position ∷ []
update doc position (p ∷ ps) =
    let rest = p ∷ update doc position ps in if p.doc_id == doc then bump position p ∷ ps else rest

bump_last-Fresh :
    (doc position : ℕ) (ps : List Posting) {t : List Posting}
    → bump_last doc position ps ≡ some t
    → ¬ Fresh doc ps
unfolding bump_last
bump_last-Fresh doc position [] e h = cc
bump_last-Fresh doc position (p ∷ []) e h = ground arith
bump_last-Fresh doc position (p ∷ q ∷ ps) e h =
    elim (Option-cases (bump_last doc position (q ∷ ps))) [
      | inl n ↦ cc (rw n at e)
      | inr (t, s) ↦ bump_last-Fresh doc position (q ∷ ps) s h.1
    ]

bump_last-update :
    (doc position : ℕ) (ps : List Posting) {t : List Posting}
    → Distinct ps
    → bump_last doc position ps ≡ some t
    → update doc position ps ≡ t
unfolding bump_last update
bump_last-update doc position [] d e = cc
bump_last-update doc position (p ∷ []) d e = ground arith
bump_last-update doc position (p ∷ q ∷ ps) {t} d e =
    elim (Option-cases (bump_last doc position (q ∷ ps))) [
      | inl n ↦ cc (rw n at e)
      | inr (u, s) ↦
          let apart : p.doc_id ≢ doc = λ same.
            bump_last-Fresh doc position (q ∷ ps) s (subst (λ k. Fresh k (q ∷ ps)) same d.0) in
          ground (arith, apart, rw s at e, bump_last-update doc position (q ∷ ps) {t = u} d.1 s)
    ]

bump_first-update :
    (doc position : ℕ) (ps : List Posting) {t : List Posting}
    → bump_first doc position ps ≡ some t
    → update doc position ps ≡ t
unfolding bump_first update
bump_first-update doc position [] e = cc
bump_first-update doc position (p ∷ ps) {t} e = elim (Option-cases (bump_first doc position ps)) [
  | inl n ↦ ground (arith, n)
  | inr (u, s) ↦ ground (arith, s, bump_first-update doc position ps {t = u} s)
]

bump_first-none :
    (doc position : ℕ) (ps : List Posting)
    → bump_first doc position ps ≡ none
    → update doc position ps ≡ ps ++ first_posting doc position ∷ []
unfolding bump_first update
bump_first-none doc position [] e = refl
bump_first-none doc position (p ∷ ps) e = ground (arith, bump_first-none doc position ps)

add_to-update :
    (doc position : ℕ) (ps : List Posting)
    → Distinct ps
    → add_to doc position ps ≡ update doc position ps
unfolding add_to
add_to-update doc position ps d = elim (Option-cases (bump_last doc position ps)) [
  | inr (t, e) ↦ rw (e, add_to) (sym (bump_last-update doc position ps d e))
  | inl e ↦ elim (Option-cases (bump_first doc position ps)) [
    | inr (t, f) ↦ rw (e, add_to, f) (sym (bump_first-update doc position ps f))
    | inl f ↦ rw (e, add_to, f) (sym (bump_first-none doc position ps f))
  ]
]

Fresh-update :
    (doc position k : ℕ) (ps : List Posting)
    → k ≢ doc
    → Fresh k ps
    → Fresh k (update doc position ps)
unfolding update
Fresh-update doc position k [] apart h = ground (arith, apart)
Fresh-update doc position k (p ∷ ps) apart h =
    ground (arith, Fresh-update doc position k ps apart h.1)

Distinct-update :
    (doc position : ℕ) (ps : List Posting) → Distinct ps → Distinct (update doc position ps)
unfolding update
Distinct-update doc position [] d = ground arith
Distinct-update doc position (p ∷ ps) d =
    ground (arith, Distinct-update doc position ps d.1, Fresh-update doc position p.doc_id ps)

IsCounted-update :
    (doc position : ℕ) (ps : List Posting)
    → All IsCounted ps
    → All IsCounted (update doc position ps)
      × (occurrences (update doc position ps) ≡ occurrences ps + 1)
unfolding update
IsCounted-update doc position [] h = ground arith
IsCounted-update doc position (p ∷ ps) h =
    ground (arith, length-append p.positions (position ∷ []), IsCounted-update doc position ps h.1)

-- `addOccurrence` keeps one posting for each document, each with its own frequency, and the total.
pub add_occurrence-IsValid :
    (doc position : ℕ) (l : PostingList) → IsValid l → IsValid (add_occurrence doc position l)
unfolding add_occurrence
add_occurrence-IsValid doc position l v =
    let (counted, more) = IsCounted-update doc position l.postings v.counted in
    rw (add_to-update doc position l.postings v.distinct) (record {
      distinct = Distinct-update doc position l.postings v.distinct;
      counted = counted;
      total = omega (arith, v.total);
    })

find_in-update :
    (doc position q : ℕ) (ps : List Posting)
    → find_in q (update doc position ps) ≡ (
        if doc == q
        then some
            (elim (find_in doc ps) [ none ↦ first_posting doc position | some p ↦ bump position p ])
        else find_in q ps)
unfolding find_in update
find_in-update doc position q [] = ground arith
find_in-update doc position q (p ∷ ps) = ground (arith, find_in-update doc position q ps)

-- Where one posting for each document is all that is known.
pub find_doc-add_to :
    (doc position q : ℕ) (l : PostingList)
    → Distinct l.postings
    → find_doc q (add_occurrence doc position l) ≡ (
        if doc == q
        then some
            (elim (find_doc doc l) [ none ↦ first_posting doc position | some p ↦ bump position p ])
        else find_doc q l)
unfolding find_doc add_occurrence
find_doc-add_to doc position q l distinct =
    rw (add_to-update doc position l.postings distinct) (find_in-update doc position q l.postings)

pub add_occurrence-Distinct :
    (doc position : ℕ) (l : PostingList)
    → Distinct l.postings
    → Distinct (add_occurrence doc position l).postings
unfolding add_occurrence
add_occurrence-Distinct doc position l distinct =
    rw (add_to-update doc position l.postings distinct)
      (Distinct-update doc position l.postings distinct)

-- After `addOccurrence`, `findDoc` finds the document's posting with the position appended and the
-- frequency counted up, or a new posting of that one position; other documents are found as before.
pub find_doc-add_occurrence :
    (doc position q : ℕ) (l : PostingList)
    → IsValid l
    → find_doc q (add_occurrence doc position l) ≡ (
        if doc == q
        then some
            (elim (find_doc doc l) [ none ↦ first_posting doc position | some p ↦ bump position p ])
        else find_doc q l)
find_doc-add_occurrence doc position q l v = find_doc-add_to doc position q l v.distinct
