-- ===== src/Search/Tokenizer.antt =====
-- src/search/Tokenizer.cpp and include/nebula/search/Tokenizer.hpp, with the character classes of the
-- C locale.
use nebula_fs.Common.{
  ℕ, zero, suc, ◌+◌, ◌%◌, ◌^◌, Bool, true, false, not, ◌&&◌, ◌||◌, Option, none, some, List, [],
  ◌∷◌, map, leb, ◌==◌, if◌then◌else◌, length, take, drop, list_eq, text_store, text_find,
}
use mathlib.Core.Option
use nebula_fs.Search.Stopwords.{default_words}

pub record Token : Type 0 where
  pub term : List ℕ
  pub position : ℕ
  pub byte_offset : ℕ
  pub byte_length : ℕ

pub record TokenizerOptions : Type 0 where
  pub to_lower : Bool
  pub remove_punctuation : Bool
  pub filter_stopwords : Bool
  pub min_term_length : ℕ
  pub max_term_length : ℕ

abbrev pub default_options : TokenizerOptions
default_options = record {
  to_lower = true;
  remove_punctuation = true;
  filter_stopwords = true;
  min_term_length = 2;
  max_term_length = 64;
}

-- The stop words, a set, are a list.
pub record Tokenizer : Type 0 where
  pub options : TokenizerOptions
  pub stopwords : List (List ℕ)

abbrev pub new_tokenizer : TokenizerOptions → Tokenizer
new_tokenizer options = record { options = options; stopwords = default_words }

abbrev pub between : ℕ → ℕ → ℕ → Bool
between low high c = leb low c && leb c high

-- `std::isspace`, `std::ispunct` and `std::tolower`
abbrev pub is_space : ℕ → Bool
is_space c = (c == 32) || between 9 13 c

abbrev pub is_punctuation : ℕ → Bool
is_punctuation c = (between 33 47 c || between 58 64 c) || (between 91 96 c || between 123 126 c)

abbrev pub lower : ℕ → ℕ
lower c = if between 65 90 c then c + 32 else c

abbrev pub contains_word : List ℕ → List (List ℕ) → Bool
contains_word word [] = false
contains_word word (w ∷ ws) =
    let rest = contains_word word ws in if list_eq w word then true else rest

abbrev pub is_stopword : Tokenizer → List ℕ → Bool
is_stopword t term = contains_word term t.stopwords

abbrev pub add_stopword : List ℕ → Tokenizer → Tokenizer
add_stopword term t =
    let word = if t.options.to_lower then map lower term else term in
    record t {
      stopwords = if contains_word word t.stopwords then t.stopwords else word ∷ t.stopwords;
    }

abbrev erase_word : List ℕ → List (List ℕ) → List (List ℕ)
erase_word word [] = []
erase_word word (w ∷ ws) =
    let rest = erase_word word ws in if list_eq w word then rest else w ∷ rest

abbrev pub remove_stopword : List ℕ → Tokenizer → Tokenizer
remove_stopword term t = record t { stopwords = erase_word term t.stopwords }

-- What stands between the terms.
abbrev pub is_delimiter : TokenizerOptions → ℕ → Bool
is_delimiter o c = is_space c || (o.remove_punctuation && is_punctuation c)

-- The first inner loop: the delimiters that are skipped, as their number.
abbrev pub count_delimiters : TokenizerOptions → List ℕ → ℕ
count_delimiters o [] = 0
count_delimiters o (c ∷ rest) =
    let more = count_delimiters o rest in if is_delimiter o c then suc more else 0

-- The second: the length of the term.
abbrev pub term_length : TokenizerOptions → List ℕ → ℕ
term_length o [] = 0
term_length o (c ∷ rest) = let more = term_length o rest in if is_delimiter o c then 0 else suc more

abbrev pub made_term : TokenizerOptions → List ℕ → List ℕ
made_term o piece = if o.to_lower then map lower piece else piece

-- The token of a piece of the text, if it has one.
unfoldable pub token_of : Tokenizer → ℕ → ℕ → List ℕ → Option Token
token_of t position offset piece =
    let o = t.options in
    if leb o.min_term_length (length piece) && leb (length piece) o.max_term_length
    then (if not o.filter_stopwords || not (is_stopword t (made_term o piece))
        then some (record {
          term = made_term o piece;
          position = position;
          byte_offset = offset % 2 ^ 32;
          byte_length = length piece % 2 ^ 32;
        })
        else none)
    else none

abbrev pub push_token : Option Token → List Token → List Token
push_token none tokens = tokens
push_token (some token) tokens = token ∷ tokens

abbrev pub next_position : ℕ → Option Token → ℕ
next_position position none = position
next_position position (some token) = (position + 1) % 2 ^ 32

-- The outer loop, from an offset on; `text` is what is left. None when the fuel ends.
unfoldable pub tokenize_loop : ℕ → Tokenizer → ℕ → ℕ → List ℕ → Option (List Token)
tokenize_loop zero t position offset text = none
tokenize_loop (suc fuel) t position offset text =
    let skipped = count_delimiters t.options text in
    let left = drop skipped text in
    let size = term_length t.options left in
    let start = offset + skipped in
    let token = token_of t position start (take size left) in
    let rest =
      tokenize_loop fuel t (next_position position token) (start + size) (drop size left) in
    if length left == 0 then some [] else Option.map (push_token token) rest

unfoldable pub tokenize : Tokenizer → List ℕ → Option (List Token)
unfolding tokenize_loop
tokenize t text = tokenize_loop (suc (length text)) t 0 0 text

-- `tf[term]++`, of a `uint32_t`
abbrev count_terms : List Token → List (List ℕ × ℕ) → List (List ℕ × ℕ)
count_terms [] tf = tf
count_terms (token ∷ rest) tf =
    count_terms rest
      (text_store token.term ((Option.get_or (text_find token.term tf) 0 + 1) % 2 ^ 32) tf)

unfoldable pub term_frequencies : Tokenizer → List ℕ → Option (List (List ℕ × ℕ))
term_frequencies t text = Option.map (λ tokens. count_terms tokens []) (tokenize t text)
