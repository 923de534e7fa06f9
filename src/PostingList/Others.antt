-- ===== src/PostingList/Others.antt =====
-- The postings of the documents but one.
use nebula_fs.Common.{
  ℕ, ◌≡◌, refl, ap, ◌∙◌, true, false, none, List, [], ◌∷◌, ◌==◌, if◌then◌else◌, length, arith,
}
use nebula_fs.PostingList.{Posting, PostingList, find_in, find_doc, doc_frequency}
use nebula_fs.PostingList.Occurrences.{Fresh, Distinct}

abbrev pub without : ℕ → List Posting → List Posting
without doc [] = []
without doc (p ∷ ps) = let rest = without doc ps in if p.doc_id == doc then rest else p ∷ rest

find_in-without :
    (doc q : ℕ) (ps : List Posting)
    → find_in q (without doc ps) ≡ (if doc == q then none else find_in q ps)
unfolding find_in
find_in-without doc q [] = ground arith
find_in-without doc q (p ∷ ps) = ground (arith, find_in-without doc q ps)

pub find_doc-without :
    (doc q : ℕ) (l stripped : PostingList)
    → stripped.postings ≡ without doc l.postings
    → find_doc q stripped ≡ (if doc == q then none else find_doc q l)
unfolding find_doc
find_doc-without doc q l stripped is = ap (find_in q) is ∙ find_in-without doc q l.postings

Fresh-without : (doc k : ℕ) (ps : List Posting) → Fresh k ps → Fresh k (without doc ps)
Fresh-without doc k [] h = tt
Fresh-without doc k (p ∷ ps) h = ground (arith, Fresh-without doc k ps h.1)

pub Distinct-without : (doc : ℕ) (ps : List Posting) → Distinct ps → Distinct (without doc ps)
Distinct-without doc [] d = tt
Distinct-without doc (p ∷ ps) d =
    ground (arith, Distinct-without doc ps d.1, Fresh-without doc p.doc_id ps d.0)

find_in_nothing : (q : ℕ) (ps : List Posting) → (length ps == 0) ≡ true → find_in q ps ≡ none
unfolding find_in
find_in_nothing q [] nothing = refl
find_in_nothing q (p ∷ ps) nothing = ground arith

pub find_doc_nothing :
    (q : ℕ) (l : PostingList) → (doc_frequency l == 0) ≡ true → find_doc q l ≡ none
unfolding find_doc doc_frequency
find_doc_nothing q l nothing = find_in_nothing q l.postings nothing

pub find_doc_other :
    (q total : ℕ) (p : Posting)
    → (p.doc_id == q) ≡ false
    → find_doc q (record { postings = p ∷ []; total_tf = total }) ≡ none
unfolding find_doc find_in
find_doc_other q total p other = rw other refl
