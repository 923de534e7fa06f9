-- ===== src/Search/Indexing.antt =====
-- What an index holds after `indexDocument` and `removeDocument`.
use nebula_fs.Common.{
  ℕ, ◌≡◌, refl, sym, ap, ◌∙◌, false, Bool-cases, inl, inr, Option, none, some, Option-cases, List,
  [], ◌==◌, if◌then◌else◌, length, assoc_find, assoc_find-assoc_store, assoc_find-assoc_store_other,
  assoc_find-assoc_erase_other, arith,
}
use mathlib.Core.Option
use mathlib.Core.Path.{subst}
use nebula_fs.Search.Tokenizer.{Token, tokenize}
use nebula_fs.Search.Pieces.{tokenize-IsRead}
use nebula_fs.Search.InvertedIndex.{
  InvertedIndex, remove_document, has_document, add_tokens, add_document, index_document,
  document_length,
}
use nebula_fs.Search.Removal.{
  lookup, IsOrderly, lookup-strip_dictionary, strip_dictionary-IsOrderly,
}
use nebula_fs.Search.Adding.{places, add_tokens-lookup}

-- The dictionary is orderly, and a document that is not there has no postings.
pub record IsSound (s : InvertedIndex) : Type 0 where
  pub orderly : IsOrderly s.dictionary
  pub indexed :
      (doc : ℕ) (term : List ℕ)
      → assoc_find doc s.doc_lengths ≡ none
      → lookup doc term s.dictionary ≡ []

-- An index without the document.
record IsReady (doc : ℕ) (s ready : InvertedIndex) : Type 0 where
  orderly : IsOrderly ready.dictionary
  tokenizer : ready.tokenizer ≡ s.tokenizer
  lookups :
      (q : ℕ) (term : List ℕ)
      → lookup q term ready.dictionary ≡ (if doc == q then [] else lookup q term s.dictionary)
  lengths :
      (q : ℕ) → (doc == q) ≡ false → assoc_find q ready.doc_lengths ≡ assoc_find q s.doc_lengths

remove_document-IsReady :
    (doc : ℕ) (s : InvertedIndex) → IsSound s → IsReady doc s (remove_document doc s).0
unfolding remove_document
remove_document-IsReady doc s sound = elim (Option-cases (assoc_find doc s.doc_lengths)) [
  | inl absent ↦ rw absent (record {
    orderly = sound.orderly;
    tokenizer = refl;
    lookups = λ q term. elim (Bool-cases (doc == q)) [
      | inl here ↦
          let there : doc ≡ q = ground arith in
          rw here (sound.indexed q term (ap (λ k. assoc_find k s.doc_lengths) (sym there) ∙ absent))
      | inr away ↦ rw away refl
    ];
    lengths = λ q away. refl;
  })
  | inr (len, there) ↦ rw there (record {
    orderly = strip_dictionary-IsOrderly doc s.dictionary sound.orderly;
    tokenizer = refl;
    lookups = λ q term. lookup-strip_dictionary doc q term s.dictionary sound.orderly;
    lengths = λ q away. assoc_find-assoc_erase_other doc q s.doc_lengths away;
  })
]

-- What `removeDocument` leaves: the document stands nowhere, and every other term and document as
-- before; a sound index stays sound.
pub remove_document-lookup :
    (doc : ℕ) (s : InvertedIndex)
    → IsSound s
    → IsSound (remove_document doc s).0
      × ((q : ℕ) (term : List ℕ)
          → lookup q term (remove_document doc s).0.dictionary
            ≡ (if doc == q then [] else lookup q term s.dictionary))
remove_document-lookup doc s sound =
    let ready = remove_document-IsReady doc s sound in
    (
      record {
        orderly = ready.orderly;
        indexed = λ q term absent. ready.lookups q term ∙ elim (Bool-cases (doc == q)) [
          | inl here ↦ rw here refl
          | inr away ↦ rw away (sound.indexed q term (sym (ready.lengths q away) ∙ absent))
        ];
      },
      ready.lookups,
    )

-- The index that `indexDocument` takes the tokens into.
ready_index : ℕ → InvertedIndex → InvertedIndex
ready_index doc s = if has_document doc s then (remove_document doc s).0 else s

ready_index-IsReady : (doc : ℕ) (s : InvertedIndex) → IsSound s → IsReady doc s (ready_index doc s)
unfolding ready_index remove_document
ready_index-IsReady doc s sound =
    subst (IsReady doc s)
      (elim (Option-cases (assoc_find doc s.doc_lengths)) [
        | inl absent ↦ rw absent refl
        | inr (len, there) ↦ rw there refl
      ])
      (remove_document-IsReady doc s sound)

-- What `indexDocument` leaves.
pub record IsIndexed (doc : ℕ) (content : List ℕ) (s : InvertedIndex) (found : Option InvertedIndex)
    : Type 0 where
  pub index : InvertedIndex
  pub tokens : List Token
  pub found_is : found ≡ some index
  pub tokens_are : tokenize s.tokenizer content ≡ some tokens
  pub sound : IsSound index
  pub length_is : document_length doc index ≡ length tokens
  pub lookups :
      (q : ℕ) (term : List ℕ)
      → lookup q term index.dictionary
        ≡ (if doc == q then places term tokens else lookup q term s.dictionary)

-- `indexDocument` returns for every text, and then the document stands under every term at the
-- positions of the tokens of its text that have the term, and under no other; its length is the
-- number of the tokens; every other document stands where it stood; and a sound index stays sound.
pub index_document-IsIndexed :
    (doc : ℕ) (content : List ℕ) (s : InvertedIndex)
    → IsSound s
    → IsIndexed doc content s (index_document doc content s)
unfolding index_document ready_index
index_document-IsIndexed doc content s sound =
    let ready = ready_index doc s in
    let is_ready = ready_index-IsReady doc s sound in
    let read = tokenize-IsRead s.tokenizer content in
    let added = add_tokens-lookup doc read.tokens ready.dictionary is_ready.orderly in
    let lookups : (q : ℕ) (term : List ℕ)
        → lookup q term (add_tokens doc read.tokens ready.dictionary)
          ≡ (if doc == q then places term read.tokens else lookup q term s.dictionary) =
      λ q term.
        added.1 q term
        ∙ rw (is_ready.lookups q term)
            (elim (Bool-cases (doc == q)) [ inl here ↦ rw here refl | inr away ↦ rw away refl ]) in
    record {
      index = add_document doc ready read.tokens;
      tokens = read.tokens;
      found_is =
          ap (λ t. Option.map (add_document doc ready) (tokenize t content)) is_ready.tokenizer
          ∙ ap (Option.map (add_document doc ready)) read.found_is;
      tokens_are = read.found_is;
      sound = record {
        orderly = added.0;
        indexed = λ q term absent. elim (Bool-cases (doc == q)) [
          | inl here ↦
              let there : doc ≡ q = ground arith in
              cc (rw (← there, assoc_find-assoc_store) at absent)
          | inr away ↦
              lookups q term
              ∙ rw away (
                  sound.indexed q term (
                    sym (
                      assoc_find-assoc_store_other doc q (length read.tokens) ready.doc_lengths away
                      ∙ is_ready.lengths q away)
                    ∙ absent))
        ];
      };
      length_is =
          ap (λ o. Option.get_or o 0)
            (assoc_find-assoc_store doc (length read.tokens) ready.doc_lengths);
      lookups = lookups;
    }
