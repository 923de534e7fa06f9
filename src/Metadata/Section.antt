-- ===== src/Metadata/Section.antt =====
-- The metadata section of an archive, which src/parser/MetadataParser.cpp reads from the bytes that
-- begin with it.
use nebula_fs.Common.{
  IsKeyed, text_store_all, text_store_all-append, ℕ, zero, suc, ◌+◌, ◌-◌, ◌<◌, ◌≡◌, refl, ap, ◌∙◌,
  false, ◌==◌, some, List, [], ◌∷◌, ◌++◌, append_assoc, ltb-false, lt→ltb, length, length-append,
  take-append, drop-append, All, arith,
}
use nebula_fs.Outcome.{ok}
use nebula_fs.VarInt.{varint, decode}
use nebula_fs.VarInt.Encode.{length-varint}
use nebula_fs.VarInt.RoundTrip.{read, decode-encode}
use nebula_fs.Parsing.{value}
use nebula_fs.Metadata.{Entries, max_entry_size}
use nebula_fs.Metadata.Store.{MetadataStore, no_entries, set, serialize}
use nebula_fs.Metadata.Parser.{
  max_file_name_length, max_metadata_size, parse_body, parse_value, parse_key, parse_entry,
  after_entry, parse_loop, parse,
}
use nebula_fs.Metadata.RoundTrip.{
  Fits, entry_bytes, entries_bytes, encode_entries-append, entry_bytes-append, value_of,
  behind_entry, length-entry_bytes,
}

parse_body-entry :
    (offset pos : ℕ) (k v rest : List ℕ)
    → Fits max_file_name_length (k, v)
    → parse_body offset pos (record { key = length k; value = length v; left = k ++ (v ++ rest) })
      ≡ value (record {
        key = k;
        value = v;
        offset = offset + (pos + length k + length v);
        left = rest;
      })
unfolding parse_body
parse_body-entry offset pos k v rest fits =
    let whole = length-append k (v ++ rest) in
    let behind = length-append v rest in
    rw
      (
        ltb-false (length (k ++ (v ++ rest))) (length k) (omega (arith, whole)),
        ltb-false (length (k ++ (v ++ rest)) - length k) (length v) (omega (arith, whole, behind)),
        ltb-false max_entry_size (length v) fits.1,
        take-append,
        value_of,
        behind_entry,
      )
      refl

parse_value-entry :
    (offset consumed : ℕ) (k v rest : List ℕ)
    → Fits max_file_name_length (k, v)
    → parse_value offset
        (read (length k) consumed)
        (varint (length v) ++ (k ++ (v ++ rest)))
        (ok (read (length v) (length (varint (length v)))))
      ≡ ok (
          value (record {
            key = k;
            value = v;
            offset = offset + (consumed + length (varint (length v)) + length k + length v);
            left = rest;
          }))
unfolding parse_value
parse_value-entry offset consumed k v rest fits =
    rw (ltb-false max_metadata_size (length v) fits.1, drop-append)
      (ap ok (parse_body-entry offset (consumed + length (varint (length v))) k v rest fits))

varint_consumed :
    (k v : List ℕ) → Fits max_file_name_length (k, v) → (length (varint (length k)) == 0) ≡ false
varint_consumed k v fits = ground (arith, length-varint (length k) (omega (arith, fits.0)))

parse_entry-entry_bytes :
    (offset : ℕ) (k v rest : List ℕ)
    → Fits max_file_name_length (k, v)
    → parse_entry offset (entry_bytes k v ++ rest)
      ≡ ok (
          value (record {
            key = k;
            value = v;
            offset = offset + length (entry_bytes k v);
            left = rest;
          }))
unfolding parse_entry parse_key
parse_entry-entry_bytes offset k v rest fits =
    let left = k ++ (v ++ rest) in
    let behind = varint (length v) ++ left in
    let consumed = length (varint (length k)) in
    ap (λ b. parse_key offset b (decode b)) (entry_bytes-append k v rest)
    ∙ ap (parse_key offset (varint (length k) ++ behind))
        (decode-encode (length k) behind (omega (arith, fits.0)))
    ∙ rw (varint_consumed k v fits, ltb-false max_file_name_length (length k) fits.0, drop-append)
        (ap (parse_value offset (read (length k) consumed) behind)
            (decode-encode (length v) left (omega (arith, fits.1)))
          ∙ parse_value-entry offset consumed k v rest fits
          ∙ ap (λ n. ok (value (record { key = k; value = v; offset = offset + n; left = rest })))
              (omega (
                arith,
                length-append (varint (length k)) (varint (length v) ++ (k ++ v)),
                length-append (varint (length v)) (k ++ v),
                length-append k v,
              )))

parse_loop-entry :
    (fuel size offset : ℕ) (k v rest : List ℕ) (s : MetadataStore)
    → Fits max_file_name_length (k, v)
    → offset < size
    → parse_loop (suc fuel) size offset (entry_bytes k v ++ rest) s
      ≡ parse_loop fuel size (offset + length (entry_bytes k v)) rest (set k v s)
unfolding parse_loop after_entry
parse_loop-entry fuel size offset k v rest s fits more =
    rw (lt→ltb offset size more, parse_entry-entry_bytes offset k v rest fits) refl

-- A limit of a key is at most that of a value.
Fits-entry : (k v : List ℕ) → Fits max_file_name_length (k, v) → Fits max_entry_size (k, v)
Fits-entry k v fits = omega (arith, fits.0, fits.1)

parse_loop-entries :
    (es : Entries) (fuel size offset : ℕ) (rest : List ℕ) (s : MetadataStore)
    → size < offset + fuel
    → size ≡ offset + length (entries_bytes es)
    → All (Fits max_file_name_length) es
    → parse_loop fuel size offset (entries_bytes es ++ rest) s
      ≡ some (ok (value (record { entries = text_store_all es s.entries })))
unfolding parse_loop
parse_loop-entries [] zero size offset rest s enough ends fit = absurd (omega arith)
parse_loop-entries [] (suc fuel) size offset rest s enough ends fit =
    rw (ltb-false offset size (omega arith)) refl
parse_loop-entries ((k, v) ∷ es) zero size offset rest s enough ends fit = absurd (omega arith)
parse_loop-entries ((k, v) ∷ es) (suc fuel) size offset rest s enough ends fit =
    let sized = length-append (entry_bytes k v) (entries_bytes es) in
    let two = length-entry_bytes k v (Fits-entry k v fit.0) in
    ap (λ b. parse_loop (suc fuel) size offset b s)
      (append_assoc (entry_bytes k v) (entries_bytes es) rest)
    ∙ parse_loop-entry fuel size offset k v (entries_bytes es ++ rest) s fit.0
        (omega (arith, sized, two))
    ∙ parse_loop-entries es fuel size (offset + length (entry_bytes k v)) rest (set k v s)
        (omega (arith, sized, two)) (omega (arith, sized)) fit.1

-- A store whose keys differ and have at most 4096 bytes, and whose values have at most 1 MB, is read
-- back from what `serialize` writes, whatever stands behind it.
pub parse-serialize_store :
    (s : MetadataStore) (rest : List ℕ)
    → IsKeyed s.entries
    → All (Fits max_file_name_length) s.entries
    → parse (serialize s ++ rest) (length (serialize s)) ≡ some (ok (value s))
unfolding parse
parse-serialize_store s rest distinct fit =
    let written = encode_entries-append s.entries [] in
    let bytes = entries_bytes s.entries in
    rw
      (
        written,
        ltb-false (length (bytes ++ rest)) (length bytes) (omega (arith, length-append bytes rest)),
      )
      (parse_loop-entries s.entries (suc (length bytes)) (length bytes) 0 rest no_entries
        (omega arith) (omega arith) fit)
    ∙ ap (λ es. some (ok (value (record { entries = es }))))
        (text_store_all-append s.entries [] distinct)
