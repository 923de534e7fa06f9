-- ===== src/Metadata/Parser.antt =====
-- src/parser/MetadataParser.cpp, but for the member that only keeps the last error. The address one
-- past the end of the span, which an empty key at its end takes, is harmless.
use nebula_fs.Common.{
  ℕ, zero, suc, ◌+◌, ◌-◌, Bool, true, false, not, ◌||◌, Option, none, some, List, [], ltb, ◌==◌,
  if◌then◌else◌, length, take, drop,
}
use nebula_fs.Outcome.{Outcome, ok, fail, throws, undefined, ◌>>=◌}
use nebula_fs.VarInt.{DecodeResult, decode}
use nebula_fs.Parsing.{ParserState, corrupt_metadata, to_parse_error, Result, value, failure}
use nebula_fs.Metadata.{max_entry_size, Sizes}
use nebula_fs.Metadata.Store.{MetadataStore, no_entries, set}

-- `kMaxFileNameLength` and `kMaxMetadataSize`
abbrev pub max_file_name_length : ℕ
max_file_name_length = 4096

abbrev pub max_metadata_size : ℕ
max_metadata_size = 1048576

abbrev pub corrupt : {A : Type 0} → ℕ → Result A
corrupt offset = failure (to_parse_error corrupt_metadata ParserState.metadata offset)

-- An entry, and where the next begins: its offset and the bytes from there on.
pub record Parsed : Type 0 where
  pub key : List ℕ
  pub value : List ℕ
  pub offset : ℕ
  pub left : List ℕ

-- What follows the lengths, which end `pos` bytes behind the start of the entry.
unfoldable pub parse_body : ℕ → ℕ → Sizes → Result Parsed
parse_body offset pos s =
    if ltb (length s.left) s.key
    then corrupt pos
    else if ltb (length s.left - s.key) s.value
    then corrupt (pos + s.key)
    else if ltb max_entry_size s.value
    then corrupt (pos + s.key)
    else value (record {
      key = take s.key s.left;
      value = take s.value (drop s.key s.left);
      offset = offset + (pos + s.key + s.value);
      left = drop s.value (drop s.key s.left);
    })

-- The length of the value, with what it was decoded to, and the rest of the entry.
unfoldable pub parse_value :
    ℕ → DecodeResult → List ℕ → Outcome DecodeResult → Outcome (Result Parsed)
parse_value offset k bytes (ok v) = ok (
    if not v.valid
    then corrupt offset
    else if ltb max_metadata_size v.value
    then corrupt offset
    else parse_body offset (k.consumed + v.consumed)
        (record { key = k.value; value = v.value; left = drop v.consumed bytes }))
parse_value offset k bytes fail = fail
parse_value offset k bytes throws = throws
parse_value offset k bytes undefined = undefined

-- The length of the key, with what it was decoded to, and the rest of the entry.
unfoldable pub parse_key : ℕ → List ℕ → Outcome DecodeResult → Outcome (Result Parsed)
parse_key offset left (ok k) =
    let behind = drop k.consumed left in
    if not k.valid || (k.consumed == 0)
    then ok (corrupt offset)
    else if ltb max_file_name_length k.value
    then ok (corrupt offset)
    else parse_value offset k behind (decode behind)
parse_key offset left fail = fail
parse_key offset left throws = throws
parse_key offset left undefined = undefined

-- An entry at `offset`; `left` are the bytes from there on.
unfoldable pub parse_entry : ℕ → List ℕ → Outcome (Result Parsed)
parse_entry offset left = parse_key offset left (decode left)

-- The rest of a round; `again` is the loop. An error behind the first entry ends the loop.
unfoldable pub after_entry :
    ℕ
    → Outcome (Result Parsed)
    → MetadataStore
    → (ℕ → List ℕ → MetadataStore → Option (Outcome (Result MetadataStore)))
    → Option (Outcome (Result MetadataStore))
after_entry offset (ok (value e)) s again = again e.offset e.left (set e.key e.value s)
after_entry offset (ok (failure err)) s again =
    some (ok (if offset == 0 then failure err else value s))
after_entry offset fail s again = some fail
after_entry offset throws s again = some throws
after_entry offset undefined s again = some undefined

-- The loop of `parse`; none when the fuel ends.
unfoldable pub parse_loop :
    ℕ → ℕ → ℕ → List ℕ → MetadataStore → Option (Outcome (Result MetadataStore))
unfolding after_entry
parse_loop zero size offset left s = none
parse_loop (suc fuel) size offset left s =
    let rest =
      after_entry offset (parse_entry offset left) s (λ o l s'. parse_loop fuel size o l s') in
    if ltb offset size then rest else some (ok (value s))

unfoldable pub parse : List ℕ → ℕ → Option (Outcome (Result MetadataStore))
unfolding parse_loop
parse bytes size =
    if ltb (length bytes) size
    then some (ok (corrupt (length bytes)))
    else parse_loop (suc size) size 0 bytes no_entries

unfoldable pub validated : Option (Outcome (Result MetadataStore)) → Option (Outcome Bool)
validated none = none
validated (some (ok (value s))) = some (ok true)
validated (some (ok (failure e))) = some (ok false)
validated (some fail) = some fail
validated (some throws) = some throws
validated (some undefined) = some undefined

-- Whether there is no error.
unfoldable pub validate : List ℕ → ℕ → Option (Outcome Bool)
validate bytes size =
    if ltb (length bytes) size then some (ok false) else validated (parse bytes size)

-- `tryParseValue` and `parseValueSafe`: the string and the offset behind its length. A length that
-- is invalid leaves a null pointer, of which nothing is read; another length is not compared with
-- the bytes that are there.
unfoldable pub parse_value_safe : List ℕ → ℕ → Outcome (List ℕ × ℕ)
parse_value_safe bytes offset = decode (drop offset bytes) >>= λ r.
    if not r.valid
    then ok ([], offset)
    else let left = drop r.consumed (drop offset bytes) in
      if ltb (length left) r.value then undefined else ok (take r.value left, offset + r.consumed)

unfoldable pub quick_validate : List ℕ → Bool
quick_validate bytes = if length bytes == 0 then true else not (ltb (length bytes) 2)
