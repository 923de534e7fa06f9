-- ===== src/Metadata/Store.antt =====
-- src/metadata/MetadataStore.cpp. The address one past the end of the span, which an empty key at its
-- end takes, is harmless.
use nebula_fs.Common.{
  text_store, text_find, text_erase, ℕ, zero, suc, ◌-◌, Bool, true, false, ◌||◌, Option, none, some,
  List, [], ◌∷◌, map, ltb, ◌==◌, if◌then◌else◌, length, take, drop,
}
use nebula_fs.Outcome.{Outcome, ok, fail, throws, undefined}
use nebula_fs.VarInt.{DecodeResult, decode}
use nebula_fs.Metadata.{Entries, max_entry_size, encode_entries, Sizes}

pub record MetadataStore : Type 0 where
  pub entries : Entries

abbrev pub no_entries : MetadataStore
no_entries = record { entries = [] }

-- Both forms of `set`: a string is its bytes.
abbrev pub set : List ℕ → List ℕ → MetadataStore → MetadataStore
set key value s = record { entries = text_store key value s.entries }

-- `getString` and `getBinary`
abbrev pub get : List ℕ → MetadataStore → Option (List ℕ)
get key s = text_find key s.entries

abbrev pub is_some : {A : Type 0} → Option A → Bool
is_some none = false
is_some (some x) = true

abbrev pub contains : List ℕ → MetadataStore → Bool
contains key s = is_some (text_find key s.entries)

abbrev pub remove : List ℕ → MetadataStore → MetadataStore × Bool
remove key s = (record { entries = text_erase key s.entries }, is_some (text_find key s.entries))

abbrev pub keys : MetadataStore → List (List ℕ)
keys s = map (λ e. e.0) s.entries

abbrev pub clear : MetadataStore → MetadataStore
clear s = no_entries

abbrev pub serialize : MetadataStore → List ℕ
serialize s = encode_entries s.entries []

-- The length of the value, and what is behind it; none if it is invalid.
abbrev pub value_sizes : ℕ → List ℕ → Outcome DecodeResult → Outcome (Option Sizes)
value_sizes key bytes (ok v) = ok (
    if v.valid
    then some (record { key = key; value = v.value; left = drop v.consumed bytes })
    else none)
value_sizes key bytes fail = fail
value_sizes key bytes throws = throws
value_sizes key bytes undefined = undefined

-- The two lengths, with what the length of the key was decoded to.
abbrev pub key_sizes : List ℕ → Outcome DecodeResult → Outcome (Option Sizes)
key_sizes bytes (ok k) =
    let behind = drop k.consumed bytes in
    if k.valid then value_sizes k.value behind (decode behind) else ok none
key_sizes bytes fail = fail
key_sizes bytes throws = throws
key_sizes bytes undefined = undefined

unfoldable pub read_sizes : List ℕ → Outcome (Option Sizes)
read_sizes bytes = key_sizes bytes (decode bytes)

abbrev pub is_corrupt : Sizes → Bool
is_corrupt s =
    (ltb (length s.left) s.key || ltb (length s.left - s.key) s.value)
    || (ltb max_entry_size s.key || ltb max_entry_size s.value)

-- The rest of a round; `again` is the loop. A length that is invalid ends the loop without an error.
unfoldable pub after_sizes :
    Outcome (Option Sizes)
    → Entries
    → (List ℕ → Entries → Option (Outcome (Entries × Bool)))
    → Option (Outcome (Entries × Bool))
after_sizes (ok none) es again = some (ok (es, false))
after_sizes (ok (some s)) es again =
    if is_corrupt s
    then some (ok (es, true))
    else again (drop s.value (drop s.key s.left))
        (text_store (take s.key s.left) (take s.value (drop s.key s.left)) es)
after_sizes fail es again = some fail
after_sizes throws es again = some throws
after_sizes undefined es again = some undefined

-- The loop of `deserialize`; none when the fuel ends.
unfoldable pub load_loop : ℕ → List ℕ → Entries → Option (Outcome (Entries × Bool))
unfolding after_sizes
load_loop zero bytes es = none
load_loop (suc fuel) [] es = some (ok (es, false))
load_loop (suc fuel) (b ∷ bs) es =
    after_sizes (read_sizes (b ∷ bs)) es (λ left es'. load_loop fuel left es')

-- The entries that are read, with an error or without.
unfoldable pub deserialize : List ℕ → Option (Outcome (Entries × Bool))
deserialize bytes = load_loop (suc (length bytes)) bytes []

abbrev all_valid : Entries → Bool
all_valid [] = true
all_valid ((k, v) ∷ rest) =
    let others = all_valid rest in
    if length k == 0 then false else if ltb 1048576 (length v) then false else others

abbrev pub validate : MetadataStore → Bool
validate s = all_valid s.entries

-- Keys that are there keep their values.
abbrev pub merge_entries : Entries → Entries → Entries
merge_entries [] es = es
merge_entries ((k, v) ∷ rest) es =
    merge_entries rest (if is_some (text_find k es) then es else text_store k v es)

unfoldable pub merge : MetadataStore → MetadataStore → MetadataStore
merge other s = record { entries = merge_entries other.entries s.entries }
