-- ===== src/PostingList.antt =====
-- src/search/PostingList.cpp and include/nebula/search/PostingList.hpp: the postings of one term.
pub mod Occurrences
pub mod Others
pub mod Wire
mod Tests
use mathlib.Core.Option
use nebula_fs.Common.{
  ℕ, zero, suc, ◌+◌, ◌-◌, ◌%◌, ◌^◌, ◌≡◌, Bool, List, [], ◌∷◌, ◌++◌, Option, none, some, ◌==◌,
  if◌then◌else◌, length,
}
use nebula_fs.Outcome.{Outcome, ok, fail, throws, undefined}
use nebula_fs.VarInt.{varint}
use nebula_fs.Reader.{Reader, ◌>>=◌, ◌>>◌, pure, read_varint, need_more, run, reserve}

pub record Posting : Type 0 where
  pub doc_id : ℕ
  pub term_frequency : ℕ
  pub positions : List ℕ

pub record PostingList : Type 0 where
  pub postings : List Posting
  pub total_tf : ℕ

abbrev pub empty : PostingList
empty = record { postings = []; total_tf = 0 }

-- `termFrequency++; positions.push_back(position);`
abbrev pub bump : ℕ → Posting → Posting
bump position p = record p {
  term_frequency = (p.term_frequency + 1) % 2 ^ 32;
  positions = p.positions ++ position ∷ [];
}

-- `if (!postings_.empty() && postings_.back().docId == docId)`
bump_last : ℕ → ℕ → List Posting → Option (List Posting)
bump_last doc position [] = none
bump_last doc position (p ∷ []) = if p.doc_id == doc then some (bump position p ∷ []) else none
bump_last doc position (p ∷ q ∷ ps) = Option.map (λ t. p ∷ t) (bump_last doc position (q ∷ ps))

-- `std::find_if` over all postings
bump_first : ℕ → ℕ → List Posting → Option (List Posting)
bump_first doc position [] = none
bump_first doc position (p ∷ ps) =
    let rest = Option.map (λ t. p ∷ t) (bump_first doc position ps) in
    if p.doc_id == doc then some (bump position p ∷ ps) else rest

abbrev pub first_posting : ℕ → ℕ → Posting
first_posting doc position = record { doc_id = doc; term_frequency = 1; positions = position ∷ [] }

add_to : ℕ → ℕ → List Posting → List Posting
add_to doc position ps = elim (bump_last doc position ps) [
  | some ps' ↦ ps'
  | none ↦ elim (bump_first doc position ps) [
    | some ps' ↦ ps'
    | none ↦ ps ++ first_posting doc position ∷ []
  ]
]

unfoldable pub add_occurrence : ℕ → ℕ → PostingList → PostingList
unfolding add_to bump_last bump_first
add_occurrence doc position l = record {
  postings = add_to doc position l.postings;
  total_tf = (l.total_tf + 1) % 2 ^ 64;
}

unfoldable pub add_posting : Posting → PostingList → PostingList
add_posting p l = record {
  postings = l.postings ++ p ∷ [];
  total_tf = (l.total_tf + p.term_frequency) % 2 ^ 64;
}

find_in : ℕ → List Posting → Option Posting
find_in doc [] = none
find_in doc (p ∷ ps) = let rest = find_in doc ps in if p.doc_id == doc then some p else rest

unfoldable pub find_doc : ℕ → PostingList → Option Posting
unfolding find_in
find_doc doc l = find_in doc l.postings

unfoldable pub doc_frequency : PostingList → ℕ
doc_frequency l = length l.postings

unfoldable pub clear : PostingList → PostingList
clear l = empty

-- The positions as differences of `uint32_t`s, and the documents as differences of `uint64_t`s.
code_positions : ℕ → List ℕ → List ℕ
code_positions prev [] = []
code_positions prev (pos ∷ rest) =
    varint ((pos + 2 ^ 32 - prev) % 2 ^ 32) ++ code_positions pos rest

code_posting : ℕ → Posting → List ℕ
code_posting prev p =
    varint ((p.doc_id + 2 ^ 64 - prev) % 2 ^ 64)
    ++ (varint p.term_frequency ++ code_positions 0 p.positions)

code_postings : ℕ → List Posting → List ℕ
code_postings prev [] = []
code_postings prev (p ∷ ps) = code_posting prev p ++ code_postings p.doc_id ps

unfoldable pub serialize : PostingList → List ℕ
unfolding code_postings code_posting code_positions
serialize l = varint (length l.postings) ++ code_postings 0 l.postings

-- The inner loop, `count` rounds from `current` on.
read_positions : ℕ → ℕ → Reader (List ℕ)
read_positions zero current = pure []
read_positions (suc count) current = do
  need_more
  delta ← read_varint
  let pos = (current + delta % 2 ^ 32) % 2 ^ 32
  rest ← read_positions count pos
  pure (pos ∷ rest)

read_posting : ℕ → Reader Posting
read_posting current = do
  need_more
  delta ← read_varint
  need_more
  tf ← read_varint
  positions ← read_positions (tf % 2 ^ 32) 0
  pure (record {
    doc_id = (current + delta) % 2 ^ 64;
    term_frequency = tf % 2 ^ 32;
    positions = positions;
  })

-- The outer loop; `current` is the document before.
read_postings : ℕ → ℕ → PostingList → Reader PostingList
read_postings zero current l = pure l
read_postings (suc count) current l = do
  p ← read_posting current
  read_postings count p.doc_id (add_posting p l)

-- `max_size` is that of a vector of postings. An empty span stands for the empty list.
read_list : ℕ → Reader PostingList
read_list max_size = do count ← read_varint; reserve max_size count; read_postings count 0 empty

unfoldable pub deserialize : ℕ → List ℕ → Outcome PostingList
unfolding read_list read_postings read_posting read_positions
deserialize max_size [] = ok empty
deserialize max_size (b ∷ bs) = run (read_list max_size) (b ∷ bs)
