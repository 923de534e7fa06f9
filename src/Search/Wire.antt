-- ===== src/Search/Wire.antt =====
-- `InvertedIndex::serialize` and `deserialize` of src/search/InvertedIndex.cpp. `max_size` is the
-- largest size of a vector that is reserved.
pub mod RoundTrip
use nebula_fs.Common.{
  ℕ, zero, suc, ◌+◌, ◌%◌, ◌^◌, List, [], ◌∷◌, ◌++◌, ltb, if◌then◌else◌, length, take, drop,
  assoc_store, text_store,
}
use nebula_fs.Outcome.{Outcome, ok, fail, throws, undefined}
use nebula_fs.VarInt.{varint}
use nebula_fs.Reader.{Cursor, Reader, ◌>>=◌, ◌>>◌, pure, read_varint, need_more, read_text, run}
use nebula_fs.Reader.Laws.{encode_all}
use nebula_fs.PostingList.{PostingList}
use nebula_fs.PostingList
use nebula_fs.Search.Tokenizer.{default_options}
use nebula_fs.Search.InvertedIndex.{InvertedIndex, new_index}

abbrev pub code_length : ℕ × ℕ → List ℕ
code_length (doc, len) = varint doc ++ varint len

abbrev pub code_term : List ℕ × PostingList → List ℕ
code_term (term, l) =
    varint (length term)
    ++ (term ++ (varint (length (PostingList.serialize l)) ++ PostingList.serialize l))

unfoldable pub serialize_index : InvertedIndex → List ℕ
serialize_index s =
    varint (length s.doc_lengths)
    ++ (encode_all code_length s.doc_lengths
        ++ (varint (length s.dictionary) ++ encode_all code_term s.dictionary))

abbrev pub put_length : ℕ → ℕ → InvertedIndex → InvertedIndex
put_length doc len s = record s {
  doc_lengths = assoc_store doc len s.doc_lengths;
  total_tokens = (s.total_tokens + len) % 2 ^ 64;
}

unfoldable pub read_lengths : ℕ → InvertedIndex → Reader InvertedIndex
read_lengths zero s = pure s
read_lengths (suc n) s = do
  need_more
  doc ← read_varint
  need_more
  len ← read_varint
  read_lengths n (put_length doc len s)

-- What the posting list of a subspan is deserialised to, and the cursor behind it.
abbrev pub with_cursor : Outcome PostingList → Cursor → Outcome (PostingList × Cursor)
with_cursor (ok l) c = ok (l, c)
with_cursor fail c = fail
with_cursor throws c = throws
with_cursor undefined c = undefined

-- `if (offset + n > bytes.size()) return nullopt; … bytes.subspan(offset, n)`. The sum wraps.
abbrev pub read_postings : ℕ → ℕ → Reader PostingList
read_postings max_size n (pos, bytes) =
    if ltb (pos + length bytes) ((pos + n) % 2 ^ 64)
    then fail
    else if ltb (length bytes) n
    then undefined
    else with_cursor (PostingList.deserialize max_size (take n bytes)) (pos + n, drop n bytes)

abbrev pub put_term : List ℕ → PostingList → InvertedIndex → InvertedIndex
put_term term l s = record s { dictionary = text_store term l s.dictionary }

unfoldable pub read_terms : ℕ → ℕ → InvertedIndex → Reader InvertedIndex
read_terms max_size zero s = pure s
read_terms max_size (suc n) s = do
  need_more
  term_len ← read_varint
  term ← read_text term_len
  need_more
  bytes_len ← read_varint
  l ← read_postings max_size bytes_len
  read_terms max_size n (put_term term l s)

unfoldable pub read_index : ℕ → Reader InvertedIndex
read_index max_size = do
  num_docs ← read_varint
  s ← read_lengths num_docs (new_index default_options)
  need_more
  num_terms ← read_varint
  read_terms max_size num_terms s

unfoldable pub deserialize_index : ℕ → List ℕ → Outcome InvertedIndex
deserialize_index max_size [] = ok (new_index default_options)
deserialize_index max_size (b ∷ bs) = run (read_index max_size) (b ∷ bs)
