-- ===== src/Search/Wire/RoundTrip.antt =====
-- An index that is stored and loaded.
use nebula_fs.Common.{
  ℕ, ◌+◌, ◌%◌, ◌^◌, ◌≤◌, ◌<◌, ◌≡◌, refl, sym, ap, ◌∙◌, List, [], ◌∷◌, ◌++◌, append_assoc, ltb-false,
  length, length-append, take-append, drop-append, All, IsKeyed, IsNumbered, assoc_store_all,
  assoc_store_all-append, text_store_all, text_store_all-append, arith,
}
use nebula_fs.Outcome.{ok}
use nebula_fs.VarInt.{IsU64, varint}
use nebula_fs.VarInt.Encode.{length-varint}
use nebula_fs.Reader.{read_varint, read_text, run}
use nebula_fs.Reader.Laws.{
  Reads, Reads-pure, Reads-bind, Reads-read_varint, Reads-read_text, Reads-run, Reads-number,
  Reads-value, Reads-bytes, encode_all,
}
use nebula_fs.PostingList.{PostingList, serialize}
use nebula_fs.PostingList.Wire.{IsSerializable, deserialize-serialize_postings}
use nebula_fs.Search.Tokenizer.{default_options}
use nebula_fs.Search.InvertedIndex.{InvertedIndex, Dictionary, new_index}
use nebula_fs.Search.Wire.{
  code_length, code_term, serialize_index, put_length, read_lengths, read_postings, put_term,
  read_terms, read_index, deserialize_index,
}

abbrev put_lengths : List (ℕ × ℕ) → InvertedIndex → InvertedIndex
put_lengths [] s = s
put_lengths ((doc, len) ∷ rest) s = put_lengths rest (put_length doc len s)

abbrev put_terms : Dictionary → InvertedIndex → InvertedIndex
put_terms [] s = s
put_terms ((term, l) ∷ rest) s = put_terms rest (put_term term l s)

abbrev pub IsLength : ℕ × ℕ → Type 0
IsLength (doc, len) = IsU64 doc × IsU64 len

-- A term and its postings fit their types and the machine.
abbrev pub IsTerm : ℕ → List ℕ × PostingList → Type 0
IsTerm max_size (term, l) = IsU64 (length term) × IsSerializable max_size l

Reads-read_lengths :
    (es : List (ℕ × ℕ)) (s : InvertedIndex)
    → All IsLength es
    → Reads (read_lengths (length es) s) (encode_all code_length es) (put_lengths es s)
unfolding read_lengths
Reads-read_lengths [] s h = Reads-pure s
Reads-read_lengths ((doc, len) ∷ rest) s h =
    Reads-bytes (sym (append_assoc (varint doc) (varint len) (encode_all code_length rest))) (
      Reads-number _ doc h.0.0
        (Reads-number _ len h.0.1 (Reads-read_lengths rest (put_length doc len s) h.1)))

Reads-read_postings :
    (max_size : ℕ) (l : PostingList)
    → IsSerializable max_size l
    → Reads (read_postings max_size (length (serialize l))) (serialize l) l
Reads-read_postings max_size l v = record {
  at = λ pos rest fits.
      let bytes = serialize l in
      let len = length-append bytes rest in
      rw
        (
          ltb-false (pos + length (bytes ++ rest)) ((pos + length bytes) % 2 ^ 64)
              (omega (arith, len)),
          ltb-false (length (bytes ++ rest)) (length bytes) (omega (arith, len)),
          take-append bytes rest,
          drop-append bytes rest,
          deserialize-serialize_postings max_size l v,
        )
        refl;
}

Reads-read_terms :
    (max_size : ℕ) (d : Dictionary) (s : InvertedIndex)
    → All (IsTerm max_size) d
    → Reads (read_terms max_size (length d) s) (encode_all code_term d) (put_terms d s)
unfolding read_terms
Reads-read_terms max_size [] s h = Reads-pure s
Reads-read_terms max_size ((term, l) ∷ rest) s h =
    let bytes = serialize l in
    Reads-bytes (rw (append_assoc, append_assoc, append_assoc) refl) (
      Reads-number _ (length term) h.0.0 (
        Reads-bind (read_text (length term)) _ (Reads-read_text term) (
          Reads-number _ (length bytes) h.0.1.short (
            Reads-bind (read_postings max_size (length bytes)) _
              (Reads-read_postings max_size l h.0.1)
              (Reads-read_terms max_size rest (put_term term l s) h.1)))))

-- The lengths of the documents added up.
abbrev pub total_of : List (ℕ × ℕ) → ℕ → ℕ
total_of [] total = total
total_of ((doc, len) ∷ rest) total = total_of rest ((total + len) % 2 ^ 64)

put_lengths_all :
    (es : List (ℕ × ℕ)) (s : InvertedIndex)
    → put_lengths es s ≡ record s {
      doc_lengths = assoc_store_all es s.doc_lengths;
      total_tokens = total_of es s.total_tokens;
    }
put_lengths_all [] s = refl
put_lengths_all ((doc, len) ∷ rest) s = put_lengths_all rest (put_length doc len s)

put_terms_all :
    (d : Dictionary) (s : InvertedIndex)
    → put_terms d s ≡ record s { dictionary = text_store_all d s.dictionary }
put_terms_all [] s = refl
put_terms_all ((term, l) ∷ rest) s = put_terms_all rest (put_term term l s)

-- The index that is read back.
abbrev pub reloaded : InvertedIndex → InvertedIndex
reloaded s = record (new_index default_options) {
  dictionary = s.dictionary;
  doc_lengths = s.doc_lengths;
  total_tokens = total_of s.doc_lengths 0;
}

-- Documents and terms that differ and fit their types.
pub record IsStorable (max_size : ℕ) (s : InvertedIndex) : Type 0 where
  pub documents : IsNumbered s.doc_lengths
  pub lengths : All IsLength s.doc_lengths
  pub count : IsU64 (length s.doc_lengths)
  pub keys : IsKeyed s.dictionary
  pub terms : All (IsTerm max_size) s.dictionary
  pub term_count : IsU64 (length s.dictionary)
  pub short : length (serialize_index s) < 2 ^ 64

put_all_reloaded :
    (s : InvertedIndex)
    → IsNumbered s.doc_lengths
    → IsKeyed s.dictionary
    → put_terms s.dictionary (put_lengths s.doc_lengths (new_index default_options)) ≡ reloaded s
put_all_reloaded s documents keys =
    let fresh = new_index default_options in
    let with_terms : InvertedIndex → InvertedIndex =
      λ k. record k { dictionary = text_store_all s.dictionary k.dictionary } in
    let with_lengths : List (ℕ × ℕ) → InvertedIndex =
      λ e. record (reloaded s) { doc_lengths = e; dictionary = text_store_all s.dictionary [] } in
    let with_dictionary : Dictionary → InvertedIndex =
      λ d. record (reloaded s) { dictionary = d } in
    put_terms_all s.dictionary (put_lengths s.doc_lengths fresh)
    ∙ ap with_terms (put_lengths_all s.doc_lengths fresh)
    ∙ ap with_lengths (assoc_store_all-append s.doc_lengths [] documents)
    ∙ ap with_dictionary (text_store_all-append s.dictionary [] keys)

Reads-read_index :
    (max_size : ℕ) (s : InvertedIndex)
    → IsStorable max_size s
    → Reads (read_index max_size) (serialize_index s) (reloaded s)
unfolding read_index serialize_index
Reads-read_index max_size s v = Reads-value (put_all_reloaded s v.documents v.keys) (
    Reads-bind read_varint _ (Reads-read_varint (length s.doc_lengths) v.count) (
      Reads-bind (read_lengths (length s.doc_lengths) (new_index default_options)) _
        (Reads-read_lengths s.doc_lengths (new_index default_options) v.lengths)
        (Reads-number _ (length s.dictionary) v.term_count (
          Reads-read_terms max_size s.dictionary
            (put_lengths s.doc_lengths (new_index default_options)) v.terms))))

deserialize_index-run :
    (max_size : ℕ) (bytes : List ℕ)
    → 1 ≤ length bytes
    → deserialize_index max_size bytes ≡ run (read_index max_size) bytes
unfolding deserialize_index
deserialize_index-run max_size [] some_byte = absurd (omega arith)
deserialize_index-run max_size (b ∷ bs) some_byte = refl

-- An index is loaded with the same documents, lengths, terms and postings; the options and the stop
-- words of its tokenizer are those of a new one, and the count of tokens is that of the documents.
pub deserialize-serialize_index :
    (max_size : ℕ) (s : InvertedIndex)
    → IsStorable max_size s
    → deserialize_index max_size (serialize_index s) ≡ ok (reloaded s)
unfolding serialize_index
deserialize-serialize_index max_size s v =
    let behind =
      encode_all code_length s.doc_lengths
      ++ (varint (length s.dictionary) ++ encode_all code_term s.dictionary) in
    deserialize_index-run max_size (serialize_index s) (
      omega (
        arith,
        length-append (varint (length s.doc_lengths)) behind,
        length-varint (length s.doc_lengths) v.count,
      ))
    ∙ Reads-run (read_index max_size) (Reads-read_index max_size s v) v.short
