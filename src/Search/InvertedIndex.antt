-- ===== src/Search/InvertedIndex.antt =====
-- src/search/InvertedIndex.cpp and include/nebula/search/InvertedIndex.hpp, each call as one step
-- under its lock: between the removal and the adding of an `indexDocument` no other call comes in.
-- The scorer, and `search`, which sorts by scores, are left out.
use nebula_fs.Common.{
  ℕ, ◌+◌, ◌-◌, ◌%◌, ◌^◌, Bool, true, false, Option, none, some, List, [], ◌∷◌, ◌==◌, if◌then◌else◌,
  length, assoc_find, assoc_store, assoc_erase, text_find, text_store,
}
use mathlib.Core.Option
use nebula_fs.PostingList.{Posting, PostingList, empty, add_occurrence, add_posting, doc_frequency}
use nebula_fs.Search.Tokenizer.{Token, TokenizerOptions, Tokenizer, new_tokenizer, tokenize}

abbrev pub Dictionary : Type 0
Dictionary = List (List ℕ × PostingList)

pub record InvertedIndex : Type 0 where
  pub tokenizer : Tokenizer
  pub dictionary : Dictionary
  pub doc_lengths : List (ℕ × ℕ)
  pub total_tokens : ℕ

abbrev pub new_index : TokenizerOptions → InvertedIndex
new_index options = record {
  tokenizer = new_tokenizer options;
  dictionary = [];
  doc_lengths = [];
  total_tokens = 0;
}

-- The postings of the other documents.
abbrev pub strip_postings : ℕ → List Posting → PostingList → PostingList
strip_postings doc [] updated = updated
strip_postings doc (p ∷ ps) updated =
    strip_postings doc ps (if p.doc_id == doc then updated else add_posting p updated)

abbrev pub strip_dictionary : ℕ → Dictionary → Dictionary
strip_dictionary doc [] = []
strip_dictionary doc ((term, l) ∷ rest) =
    let left = strip_dictionary doc rest in
    let updated = strip_postings doc l.postings empty in
    if doc_frequency updated == 0 then left else (term, updated) ∷ left

-- With the length of the document, if it is there.
abbrev pub remove_found : ℕ → InvertedIndex → Option ℕ → InvertedIndex × Bool
remove_found doc s none = (s, false)
remove_found doc s (some len) = (
  record s {
    total_tokens = (s.total_tokens + (2 ^ 64 - len)) % 2 ^ 64;
    doc_lengths = assoc_erase doc s.doc_lengths;
    dictionary = strip_dictionary doc s.dictionary;
  },
  true,
)

unfoldable pub remove_document : ℕ → InvertedIndex → InvertedIndex × Bool
remove_document doc s = remove_found doc s (assoc_find doc s.doc_lengths)

abbrev pub is_indexed : Option ℕ → Bool
is_indexed none = false
is_indexed (some len) = true

abbrev pub has_document : ℕ → InvertedIndex → Bool
has_document doc s = is_indexed (assoc_find doc s.doc_lengths)

abbrev pub add_tokens : ℕ → List Token → Dictionary → Dictionary
add_tokens doc [] d = d
add_tokens doc (token ∷ rest) d = add_tokens doc rest (
    text_store token.term
      (add_occurrence doc token.position (Option.get_or (text_find token.term d) empty)) d)

-- The document's tokens, in an index that does not have it.
abbrev pub add_document : ℕ → InvertedIndex → List Token → InvertedIndex
add_document doc s tokens = record s {
  doc_lengths = assoc_store doc (length tokens) s.doc_lengths;
  total_tokens = (s.total_tokens + length tokens) % 2 ^ 64;
  dictionary = add_tokens doc tokens s.dictionary;
}

unfoldable pub index_document : ℕ → List ℕ → InvertedIndex → Option InvertedIndex
index_document doc content s =
    let ready = if has_document doc s then (remove_document doc s).0 else s in
    Option.map (add_document doc ready) (tokenize ready.tokenizer content)

abbrev pub total_documents : InvertedIndex → ℕ
total_documents s = length s.doc_lengths

abbrev pub total_terms : InvertedIndex → ℕ
total_terms s = length s.dictionary

abbrev pub document_length : ℕ → InvertedIndex → ℕ
document_length doc s = Option.get_or (assoc_find doc s.doc_lengths) 0

abbrev pub clear : InvertedIndex → InvertedIndex
clear s = record s { dictionary = []; doc_lengths = []; total_tokens = 0 }
