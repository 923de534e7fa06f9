-- ===== src/Metadata/RoundTrip.antt =====
-- What `serialize` writes is read back, by src/metadata/MetadataStore.cpp and by
-- src/parser/MetadataParser.cpp.
use nebula_fs.Common.{
  IsKeyed, text_store_all, text_store_all-append, text_store, ℕ, zero, suc, ◌-◌, ◌≤◌, ◌<◌, ◌≡◌,
  refl, sym, ap, ◌∙◌, false, some, List, [], ◌∷◌, ◌++◌, append-nil, append_assoc, ltb-false, length,
  take, drop, length-append, take-append, drop-append, All, arith,
}
use nebula_fs.Outcome.{ok}
use nebula_fs.VarInt.{IsU64, encode, varint, decode}
use nebula_fs.VarInt.Encode.{encode-append, length-varint}
use nebula_fs.VarInt.RoundTrip.{decode-encode}
use nebula_fs.Metadata.{Entries, max_entry_size, encode_entries}
use nebula_fs.Metadata.Store.{
  MetadataStore, serialize, value_sizes, key_sizes, read_sizes, is_corrupt, after_sizes, load_loop,
  deserialize,
}

-- The bytes of an entry, and of all.
abbrev pub entry_bytes : List ℕ → List ℕ → List ℕ
entry_bytes key v = varint (length key) ++ (varint (length v) ++ (key ++ v))

abbrev pub entries_bytes : Entries → List ℕ
entries_bytes [] = []
entries_bytes ((k, v) ∷ rest) = entry_bytes k v ++ entries_bytes rest

pub encode_entries-append :
    (es : Entries) (buf : List ℕ) → encode_entries es buf ≡ buf ++ entries_bytes es
unfolding encode_entries
encode_entries-append [] buf = sym (append-nil buf)
encode_entries-append ((k, v) ∷ rest) buf =
    encode_entries-append rest (encode (length v) (encode (length k) buf) ++ k ++ v)
    ∙ rw
        (
          encode-append, encode-append, append_assoc, append_assoc, append_assoc, append_assoc,
          append_assoc, append_assoc, append_assoc,
        )
        refl

-- Sizes that both readers take: `key_limit` is the limit of a key.
abbrev pub Fits : ℕ → List ℕ × List ℕ → Type 0
Fits key_limit e = (length e.0 ≤ key_limit) × (length e.1 ≤ max_entry_size)

pub entry_bytes-append :
    (k v rest : List ℕ)
    → entry_bytes k v ++ rest ≡ varint (length k) ++ (varint (length v) ++ (k ++ (v ++ rest)))
entry_bytes-append k v rest = rw (append_assoc, append_assoc, append_assoc) refl

read_sizes-entry_bytes :
    (k v rest : List ℕ)
    → IsU64 (length k)
    → IsU64 (length v)
    → read_sizes (entry_bytes k v ++ rest)
      ≡ ok (some (record { key = length k; value = length v; left = k ++ (v ++ rest) }))
unfolding read_sizes
read_sizes-entry_bytes k v rest small_key small_value =
    let left = k ++ (v ++ rest) in
    let behind = varint (length v) ++ left in
    ap (λ b. key_sizes b (decode b)) (entry_bytes-append k v rest)
    ∙ ap (key_sizes (varint (length k) ++ behind)) (decode-encode (length k) behind small_key)
    ∙ ap (λ b. value_sizes (length k) b (decode b)) (drop-append (varint (length k)) behind)
    ∙ ap (value_sizes (length k) behind) (decode-encode (length v) left small_value)
    ∙ ap (λ b. ok (some (record { key = length k; value = length v; left = b })))
        (drop-append (varint (length v)) left)

is_corrupt-entry :
    (k v rest : List ℕ)
    → Fits max_entry_size (k, v)
    → is_corrupt (record { key = length k; value = length v; left = k ++ (v ++ rest) }) ≡ false
is_corrupt-entry k v rest fits =
    let whole = length-append k (v ++ rest) in
    let behind = length-append v rest in
    rw
      (
        ltb-false (length (k ++ (v ++ rest))) (length k) (omega (arith, whole)),
        ltb-false (length (k ++ (v ++ rest)) - length k) (length v) (omega (arith, whole, behind)),
        ltb-false max_entry_size (length k) fits.0,
        ltb-false max_entry_size (length v) fits.1,
      )
      refl

-- The two parts of the bytes of an entry, and what is behind them.
pub value_of : (k v rest : List ℕ) → take (length v) (drop (length k) (k ++ (v ++ rest))) ≡ v
value_of k v rest = rw drop-append (take-append v rest)

pub behind_entry : (k v rest : List ℕ) → drop (length v) (drop (length k) (k ++ (v ++ rest))) ≡ rest
behind_entry k v rest = rw drop-append (drop-append v rest)

load_loop_some :
    (fuel : ℕ) (bytes : List ℕ) (es : Entries)
    → 1 ≤ length bytes
    → load_loop (suc fuel) bytes es
      ≡ after_sizes (read_sizes bytes) es (λ left es'. load_loop fuel left es')
unfolding load_loop
load_loop_some fuel [] es some_byte = absurd (omega arith)
load_loop_some fuel (b ∷ bs) es some_byte = refl

pub length-entry_bytes : (k v : List ℕ) → Fits max_entry_size (k, v) → 2 ≤ length (entry_bytes k v)
length-entry_bytes k v fits = omega (
  arith,
  length-append (varint (length k)) (varint (length v) ++ (k ++ v)),
  length-append (varint (length v)) (k ++ v),
  length-varint (length k) (omega (arith, fits.0)),
  length-varint (length v) (omega (arith, fits.1)),
)

load_loop-entry :
    (fuel : ℕ) (k v rest : List ℕ) (es : Entries)
    → Fits max_entry_size (k, v)
    → load_loop (suc fuel) (entry_bytes k v ++ rest) es ≡ load_loop fuel rest (text_store k v es)
unfolding after_sizes
load_loop-entry fuel k v rest es fits =
    load_loop_some fuel (entry_bytes k v ++ rest) es
      (omega (arith, length-append (entry_bytes k v) rest, length-entry_bytes k v fits))
    ∙ ap (λ o. after_sizes o es (λ left es'. load_loop fuel left es'))
        (read_sizes-entry_bytes k v rest (omega (arith, fits.0)) (omega (arith, fits.1)))
    ∙ rw (is_corrupt-entry k v rest fits, take-append, value_of, behind_entry) refl

load_loop-entries :
    (es acc : Entries) (fuel : ℕ)
    → length (entries_bytes es) < fuel
    → All (Fits max_entry_size) es
    → load_loop fuel (entries_bytes es) acc ≡ some (ok (text_store_all es acc, false))
unfolding load_loop
load_loop-entries [] acc zero enough fit = absurd (omega arith)
load_loop-entries [] acc (suc fuel) enough fit = refl
load_loop-entries ((k, v) ∷ rest) acc zero enough fit = absurd (omega arith)
load_loop-entries ((k, v) ∷ rest) acc (suc fuel) enough fit =
    let sized = length-append (entry_bytes k v) (entries_bytes rest) in
    load_loop-entry fuel k v (entries_bytes rest) acc fit.0
    ∙ load_loop-entries rest (text_store k v acc) fuel
        (omega (arith, sized, length-entry_bytes k v fit.0)) fit.1

-- A store whose keys differ, and whose keys and values have at most 1 MB each, is read back from what
-- `serialize` writes, without an error.
pub deserialize-serialize_store :
    (s : MetadataStore)
    → IsKeyed s.entries
    → All (Fits max_entry_size) s.entries
    → deserialize (serialize s) ≡ some (ok (s.entries, false))
unfolding deserialize
deserialize-serialize_store s distinct fit =
    rw (encode_entries-append s.entries [])
      (load_loop-entries s.entries [] (suc (length (entries_bytes s.entries))) (omega arith) fit)
    ∙ ap (λ es. some (ok (es, false))) (text_store_all-append s.entries [] distinct)
