-- ===== src/Search/Pieces.antt =====
-- `Tokenizer::tokenize` against the text cut at every delimiter.
use nebula_fs.Common.{
  ℕ, zero, suc, ◌+◌, ◌%◌, ◌^◌, ◌≤◌, ◌<◌, ◌≡◌, refl, sym, ap, ◌∙◌, Bool, true, false, not, ◌&&◌,
  ◌||◌, Bool-cases, inl, inr, Option, none, some, List, [], ◌∷◌, map, leb, ◌==◌, if◌then◌else◌,
  length, take, drop, length-drop, arith,
}
use mathlib.Core.Option
use mathlib.Core.Path.{subst}
use nebula_fs.Search.Tokenizer.{
  Token, TokenizerOptions, Tokenizer, is_stopword, is_delimiter, count_delimiters, term_length,
  made_term, token_of, push_token, next_position, tokenize_loop, tokenize,
}

-- The text before the first delimiter, and between and behind the others.
abbrev cut : TokenizerOptions → List ℕ → List ℕ × List (List ℕ)
cut o [] = ([], [])
cut o (c ∷ rest) =
    let r = cut o rest in if is_delimiter o c then ([], r.0 ∷ r.1) else (c ∷ r.0, r.1)

abbrev drop_empty : List (List ℕ) → List (List ℕ)
drop_empty [] = []
drop_empty ([] ∷ ps) = drop_empty ps
drop_empty ((c ∷ p) ∷ ps) = (c ∷ p) ∷ drop_empty ps

-- The words of a text: the pieces between its delimiters that are not empty.
abbrev pub words : TokenizerOptions → List ℕ → List (List ℕ)
words o text = drop_empty ((cut o text).0 ∷ (cut o text).1)

-- Whether a word has a length that is asked for and is no stop word.
abbrev pub is_kept : Tokenizer → List ℕ → Bool
is_kept t w =
    (leb t.options.min_term_length (length w) && leb (length w) t.options.max_term_length)
    && (not t.options.filter_stopwords || not (is_stopword t (made_term t.options w)))

abbrev pub terms_of : Tokenizer → List (List ℕ) → List (List ℕ)
terms_of t [] = []
terms_of t (w ∷ ws) =
    let rest = terms_of t ws in if is_kept t w then made_term t.options w ∷ rest else rest

-- `n` positions of a `uint32_t`.
abbrev pub positions_from : ℕ → ℕ → List ℕ
positions_from start zero = []
positions_from start (suc n) = start ∷ positions_from ((start + 1) % 2 ^ 32) n

words-skipped :
    (o : TokenizerOptions) (text : List ℕ)
    → words o text ≡ words o (drop (count_delimiters o text) text)
words-skipped o [] = refl
words-skipped o (c ∷ rest) = elim (Bool-cases (is_delimiter o c)) [
  | inl between_words ↦ rw between_words (words-skipped o rest)
  | inr in_word ↦ rw (in_word, in_word) refl
]

cut-take : (o : TokenizerOptions) (text : List ℕ) → (cut o text).0 ≡ take (term_length o text) text
cut-take o [] = refl
cut-take o (c ∷ rest) = elim (Bool-cases (is_delimiter o c)) [
  | inl between_words ↦ rw between_words refl
  | inr in_word ↦ rw in_word (ap (λ p. c ∷ p) (cut-take o rest))
]

cut-drop :
    (o : TokenizerOptions) (text : List ℕ)
    → drop_empty (cut o text).1 ≡ words o (drop (term_length o text) text)
cut-drop o [] = refl
cut-drop o (c ∷ rest) = elim (Bool-cases (is_delimiter o c)) [
  | inl between_words ↦ rw (between_words, between_words) refl
  | inr in_word ↦ rw in_word (cut-drop o rest)
]

-- A text is empty after its delimiters or begins with a word.
data Start (o : TokenizerOptions) (left : List ℕ) : Type 0 where
  ends : left ≡ [] → Start o left
  begins : (c : ℕ) (rest : List ℕ) → left ≡ c ∷ rest → is_delimiter o c ≡ false → Start o left

start : (o : TokenizerOptions) (text : List ℕ) → Start o (drop (count_delimiters o text) text)
start o [] = ends refl
start o (c ∷ rest) = elim (Bool-cases (is_delimiter o c)) [
  | inl between_words ↦ rw between_words (start o rest)
  | inr in_word ↦ rw in_word (begins c rest refl in_word)
]

words-begins :
    (o : TokenizerOptions) (c : ℕ) (rest : List ℕ)
    → is_delimiter o c ≡ false
    → words o (c ∷ rest)
      ≡ take (term_length o (c ∷ rest)) (c ∷ rest)
        ∷ words o (drop (term_length o (c ∷ rest)) (c ∷ rest))
words-begins o c rest in_word = rw in_word (
    ap (λ p. (c ∷ p) ∷ drop_empty (cut o rest).1) (cut-take o rest)
    ∙ ap (λ ws. (c ∷ take (term_length o rest) rest) ∷ ws) (cut-drop o rest))

nested_if :
    {A : Type 0} (a b : Bool) (x y : A)
    → (if a then (if b then x else y) else y) ≡ (if a && b then x else y)
nested_if true b x y = refl
nested_if false b x y = refl

token_at : Tokenizer → ℕ → ℕ → List ℕ → Token
token_at t position offset w = record {
  term = made_term t.options w;
  position = position;
  byte_offset = offset % 2 ^ 32;
  byte_length = length w % 2 ^ 32;
}

token_of-is_kept :
    (t : Tokenizer) (position offset : ℕ) (w : List ℕ)
    → token_of t position offset w
      ≡ (if is_kept t w then some (token_at t position offset w) else none)
unfolding token_of token_at
token_of-is_kept t position offset w =
    nested_if (leb t.options.min_term_length (length w) && leb (length w) t.options.max_term_length)
      (not t.options.filter_stopwords || not (is_stopword t (made_term t.options w)))
      (some (token_at t position offset w)) none

-- What is read of a list of words: their terms, with positions one after the other.
pub record IsRead (t : Tokenizer) (position : ℕ) (ws : List (List ℕ)) (found : Option (List Token))
    : Type 0 where
  pub tokens : List Token
  pub found_is : found ≡ some tokens
  pub terms : map (λ k. k.term) tokens ≡ terms_of t ws
  pub positions : map (λ k. k.position) tokens ≡ positions_from position (length tokens)

-- A word more in front.
IsRead-word :
    (t : Tokenizer) (position offset : ℕ) (w : List ℕ) (ws : List (List ℕ))
    (rest : Option (List Token))
    → IsRead t (next_position position (token_of t position offset w)) ws rest
    → IsRead t position (w ∷ ws) (Option.map (push_token (token_of t position offset w)) rest)
unfolding token_at
IsRead-word t position offset w ws rest read = elim (Bool-cases (is_kept t w)) [
  | inl kept ↦
      let made : token_of t position offset w ≡ some (token_at t position offset w) =
        rw (token_of-is_kept, kept) refl in
      let behind : map (λ k. k.position) read.tokens
          ≡ positions_from ((position + 1) % 2 ^ 32) (length read.tokens) =
        read.positions
        ∙ ap (λ o. positions_from (next_position position o) (length read.tokens)) made in
      record {
        tokens = token_at t position offset w ∷ read.tokens;
        found_is = rw (made, read.found_is) refl;
        terms = rw (kept, read.terms) refl;
        positions = ap (λ ps. position ∷ ps) behind;
      }
  | inr left_out ↦
      let made : token_of t position offset w ≡ none = rw (token_of-is_kept, left_out) refl in
      record {
        tokens = read.tokens;
        found_is = rw (made, read.found_is) refl;
        terms = rw (left_out, read.terms) refl;
        positions =
            read.positions
            ∙ ap (λ o. positions_from (next_position position o) (length read.tokens)) made;
      }
]

some_byte : (n : ℕ) → (suc n == 0) ≡ false
some_byte n = ground arith

-- A round that finds a word.
tokenize_loop_begins :
    (fuel : ℕ) (t : Tokenizer) (position offset : ℕ) (text : List ℕ) (c : ℕ) (rest : List ℕ)
    → drop (count_delimiters t.options text) text ≡ c ∷ rest
    → tokenize_loop (suc fuel) t position offset text ≡ (
        let start = offset + count_delimiters t.options text in
        let size = term_length t.options (c ∷ rest) in
        let token = token_of t position start (take size (c ∷ rest)) in
        Option.map (push_token token) (
          tokenize_loop fuel t
            (next_position position token)
            (start + size)
            (drop size (c ∷ rest))))
unfolding tokenize_loop
tokenize_loop_begins fuel t position offset text c rest is = rw (is, some_byte (length rest)) refl

tokenize_loop_reads :
    (fuel : ℕ) (t : Tokenizer) (position offset : ℕ) (text : List ℕ)
    → length text < fuel
    → IsRead t position (words t.options text) (tokenize_loop fuel t position offset text)
unfolding tokenize_loop
tokenize_loop_reads zero t position offset text enough = absurd (omega arith)
tokenize_loop_reads (suc fuel) t position offset text enough =
    let o = t.options in
    let skipped = count_delimiters o text in
    elim (start o text) [
      | ends nothing ↦ record {
        tokens = [];
        found_is = rw nothing refl;
        terms = ap (terms_of t) (sym (words-skipped o text ∙ ap (words o) nothing));
        positions = refl;
      }
      | begins c rest is in_word ↦
          let size = term_length o (c ∷ rest) in
          let left = drop size (c ∷ rest) in
          let token = token_of t position (offset + skipped) (take size (c ∷ rest)) in
          let longer : 1 ≤ size = rw in_word (omega arith) in
          let whole : length (drop skipped text) ≡ suc (length rest) = ap length is in
          let read =
            tokenize_loop_reads fuel t (next_position position token) (offset + skipped + size) left
              (omega (arith, length-drop size (c ∷ rest), length-drop skipped text)) in
          subst (λ f. IsRead t position (words o text) f)
            (sym (tokenize_loop_begins fuel t position offset text c rest is))
            (subst
              (λ ws. IsRead t position ws (
                Option.map (push_token token) (
                  tokenize_loop fuel t (next_position position token) (offset + skipped + size)
                    left)))
              (sym (words-skipped o text ∙ ap (words o) is ∙ words-begins o c rest in_word))
              (IsRead-word t position (offset + skipped) (take size (c ∷ rest)) (words o left)
                (tokenize_loop fuel t (next_position position token) (offset + skipped + size) left)
                read))
    ]

-- `tokenize` returns for every text: the terms of the words of the text, in their order, that have a
-- length that is asked for and are no stop words, at positions one after the other from 0 on.
pub tokenize-IsRead :
    (t : Tokenizer) (text : List ℕ) → IsRead t 0 (words t.options text) (tokenize t text)
unfolding tokenize
tokenize-IsRead t text = tokenize_loop_reads (suc (length text)) t 0 0 text (omega arith)
