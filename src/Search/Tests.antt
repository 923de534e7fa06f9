-- ===== src/Search/Tests.antt =====
-- A small index, and the theorems at it.
use nebula_fs.Common.{
  arith, ℕ, ◌≡◌, refl, ap, Bool-cases, inl, inr, list_eq, some, List, [], ◌∷◌, ◌==◌, if◌then◌else◌,
}
use native.Mathlib.Decide.{dec_lt}
use nebula_fs.Common.Order.{lt_wf}
use nebula_fs.Outcome.{ok}
use nebula_fs.VarInt.{encode}
use nebula_fs.PostingList.{Posting, PostingList, serialize}
use nebula_fs.PostingList.Wire.{IsSerializable}
use nebula_fs.Search.Wire.{serialize_index, deserialize_index}
use nebula_fs.Search.Wire.RoundTrip.{IsStorable, reloaded, deserialize-serialize_index}
use nebula_fs.PostingList.Others.{find_doc_other}
use nebula_fs.Search.Tokenizer.{Tokenizer, default_options, token_of, tokenize}
use nebula_fs.Search.Pieces.{words, IsRead, tokenize-IsRead}
use nebula_fs.Search.InvertedIndex.{InvertedIndex, remove_document, index_document}
use nebula_fs.Search.Removal.{positions_of, lookup}
use nebula_fs.Search.Indexing.{IsSound, IsIndexed, remove_document-lookup, index_document-IsIndexed}

-- One stop word, "the".
abbrev tokenizer : Tokenizer
tokenizer = record { options = default_options; stopwords = (116 ∷ 104 ∷ 101 ∷ []) ∷ [] }

-- "The cat, a Cat!"
abbrev text : List ℕ
text = 84 ∷ 104 ∷ 101 ∷ 32 ∷ 99 ∷ 97 ∷ 116 ∷ 44 ∷ 32 ∷ 97 ∷ 32 ∷ 67 ∷ 97 ∷ 116 ∷ 33 ∷ []

-- "cat"
abbrev cat : List ℕ
cat = 99 ∷ 97 ∷ 116 ∷ []

two_cats :
    tokenize tokenizer text
    ≡ some (
        record { term = cat; position = 0; byte_offset = 4; byte_length = 3 }
        ∷ record { term = cat; position = 1; byte_offset = 11; byte_length = 3 }
        ∷ [])
unfolding tokenize token_of
two_cats = refl

abbrev at_seven : Posting
at_seven = record { doc_id = 7; term_frequency = 1; positions = 0 ∷ [] }

-- "cat" stands in document 7.
abbrev index : InvertedIndex
index = record {
  tokenizer = tokenizer;
  dictionary = (cat, record { postings = at_seven ∷ []; total_tf = 1 }) ∷ [];
  doc_lengths = (7, 1) ∷ [];
  total_tokens = 1;
}

index-IsSound : IsSound index
index-IsSound = record {
  orderly = (refl, (tt, tt), tt);
  indexed = λ doc term absent. elim (Bool-cases (7 == doc)) [
    | inl here ↦ cc (rw here at absent)
    | inr away ↦ elim (Bool-cases (list_eq cat term)) [
      | inl same ↦ rw same (ap positions_of (find_doc_other doc 1 at_seven away))
      | inr other ↦ rw other refl
    ]
  ];
}

tokenize-IsRead_example : IsRead tokenizer 0 (words default_options text) (tokenize tokenizer text)
tokenize-IsRead_example = tokenize-IsRead tokenizer text

remove_document-lookup_example :
    IsSound (remove_document 7 index).0
    × ((q : ℕ) (term : List ℕ)
        → lookup q term (remove_document 7 index).0.dictionary
          ≡ (if 7 == q then [] else lookup q term index.dictionary))
remove_document-lookup_example = remove_document-lookup 7 index index-IsSound

index_document-IsIndexed_example : IsIndexed 8 text index (index_document 8 text index)
index_document-IsIndexed_example = index_document-IsIndexed 8 text index index-IsSound

-- The postings of "cat".
abbrev cats : PostingList
cats = record { postings = at_seven ∷ []; total_tf = 1 }

cats-IsSerializable : IsSerializable 100 cats
unfolding serialize encode lt_wf dec_lt
cats-IsSerializable = record {
  wire = omega arith;
  total = refl;
  few = omega arith;
  machine = omega arith;
  short = omega arith;
}

index-IsStorable : IsStorable 100 index
unfolding serialize_index serialize encode lt_wf dec_lt
index-IsStorable = record {
  documents = (refl, tt);
  lengths = omega arith;
  count = omega arith;
  keys = (refl, tt);
  terms = ((omega arith, cats-IsSerializable), tt);
  term_count = omega arith;
  short = omega arith;
}

deserialize-serialize_index_example :
    deserialize_index 100 (serialize_index index) ≡ ok (reloaded index)
deserialize-serialize_index_example = deserialize-serialize_index 100 index index-IsStorable
