-- ===== src/Metadata.antt =====
-- src/metadata/MetadataStore.cpp and src/parser/MetadataParser.cpp: the values of an archive under
-- keys. Here is what the two share: the map, and an entry's bytes.
pub mod Store
pub mod Parser
pub mod Lookup
pub mod Returns
pub mod RoundTrip
pub mod Section
mod Tests
use nebula_fs.Common.{
  text_store, text_find, text_erase, text_find-text_store, ℕ, ◌*◌, ◌≡◌, Bool, true, false, Option,
  none, some, List, [], ◌∷◌, ◌++◌, if◌then◌else◌, length, drop, list_eq,
}
use nebula_fs.Outcome.{Outcome, ok, ◌>>=◌}
use nebula_fs.VarInt.{encode, decode}

-- `unordered_map<string, vector<uint8_t>>`; the order stands for the order in which it is walked.
abbrev pub Entries : Type 0
Entries = List (List ℕ × List ℕ)

-- `kMaxEntrySize`
abbrev pub max_entry_size : ℕ
max_entry_size = 1024 * 1024

-- The loop of `serialize`, which both classes have.
unfoldable pub encode_entries : Entries → List ℕ → List ℕ
encode_entries [] buf = buf
encode_entries ((key, value) ∷ rest) buf =
    encode_entries rest (encode (length value) (encode (length key) buf) ++ key ++ value)

-- The lengths of a key and a value, and the bytes behind them.
pub record Sizes : Type 0 where
  pub key : ℕ
  pub value : ℕ
  pub left : List ℕ
