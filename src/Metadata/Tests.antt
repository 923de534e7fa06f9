-- ===== src/Metadata/Tests.antt =====
-- A store of two entries, and the theorems at it.
use nebula_fs.Common.{◌≡◌, ◌⊎◌, refl, Bool, false, some, [], ◌∷◌, ◌++◌, length, arith}
use nebula_fs.Outcome.{ok, undefined}
use nebula_fs.VarInt.{decode}
use nebula_fs.Parsing.{value}
use nebula_fs.Metadata.{Entries}
use nebula_fs.Metadata.Store.{MetadataStore, get, serialize, deserialize, merge}
use nebula_fs.Metadata.Parser.{parse, parse_value_safe}
use nebula_fs.Metadata.Lookup.{get-merge, first_some}
use nebula_fs.Metadata.Returns.{HasOverlong, deserialize_returns}
use nebula_fs.Metadata.RoundTrip.{deserialize-serialize_store}
use nebula_fs.Metadata.Section.{parse-serialize_store}

-- "k" and "tool"
abbrev store : MetadataStore
store = record { entries = (107 ∷ [], 3 ∷ []) ∷ (116 ∷ 111 ∷ 111 ∷ 108 ∷ [], 7 ∷ 8 ∷ []) ∷ [] }

abbrev other : MetadataStore
other = record { entries = (107 ∷ [], 9 ∷ []) ∷ (110 ∷ [], 5 ∷ []) ∷ [] }

-- A length of 5 with one byte behind it.
reads_outside : parse_value_safe (5 ∷ 1 ∷ []) 0 ≡ undefined
unfolding parse_value_safe decode
reads_outside = refl

get-merge_example :
    get (107 ∷ []) (merge other store) ≡ first_some (get (107 ∷ []) store) (get (107 ∷ []) other)
get-merge_example = get-merge (107 ∷ []) other store

deserialize_returns_example :
    ((r : Entries × Bool) × (deserialize (1 ∷ 0 ∷ 107 ∷ 255 ∷ []) ≡ some (ok r)))
    ⊎ ((deserialize (1 ∷ 0 ∷ 107 ∷ 255 ∷ []) ≡ some undefined)
        × HasOverlong (1 ∷ 0 ∷ 107 ∷ 255 ∷ []))
deserialize_returns_example = deserialize_returns (1 ∷ 0 ∷ 107 ∷ 255 ∷ [])

deserialize-serialize_store_example :
    deserialize (serialize store) ≡ some (ok (store.entries, false))
deserialize-serialize_store_example =
    deserialize-serialize_store store (refl, (refl, tt)) (omega arith)

parse-serialize_store_example :
    parse (serialize store ++ (1 ∷ 0 ∷ 107 ∷ [])) (length (serialize store))
    ≡ some (ok (value store))
parse-serialize_store_example =
    parse-serialize_store store (1 ∷ 0 ∷ 107 ∷ []) (refl, (refl, tt)) (omega arith)
