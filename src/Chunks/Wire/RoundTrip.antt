-- ===== src/Chunks/Wire/RoundTrip.antt =====
-- A table of chunks that is stored and loaded.
use nebula_fs.Common.{
  ℕ, ◌+◌, ◌*◌, ◌/◌, ◌%◌, ◌^◌, ◌≤◌, ◌<◌, ◌≡◌, refl, sym, ap, ◌∙◌, Bool, true, false, not, none, List,
  [], ◌∷◌, ◌++◌, append-nil, append_assoc, ltb-false, ◌==◌, length, take, drop, length-append,
  take-append, drop-append, All, assoc_find, assoc_store, assoc_find-assoc_store_other, arith,
}
use nebula_fs.Outcome.{ok}
use nebula_fs.VarInt.{IsU64, varint}
use nebula_fs.VarInt.Encode.{length-varint}
use nebula_fs.Reader.{Reader, ◌>>=◌, read_varint, read_byte}
use nebula_fs.Reader.Laws.{
  Reads, Reads-pure, Reads-bind, Reads-read_varint, Reads-read_byte, Reads-run, Reads-last,
  Reads-value, encode_all,
}
use nebula_fs.Chunks.{ChunkDescriptor, ChunkManager, key_of, push_chunk, register_chunk, clear}
use nebula_fs.Chunks.Wire.{
  flag, code_chunk, serialize, max_chunks, limited, read_hash, read_chunk, read_chunks, read_table,
  deserialize,
}

-- A descriptor whose fields fit their types.
pub record IsStored (c : ChunkDescriptor) : Type 0 where
  pub hash : length c.hash ≡ 32
  pub offset : IsU64 c.offset
  pub compressed_size : IsU64 c.compressed_size
  pub original_size : IsU64 c.original_size

Reads-read_hash : (hash : List ℕ) → length hash ≡ 32 → Reads read_hash hash hash
Reads-read_hash hash sized = record {
  at = λ pos rest fits.
      let len = length-append hash rest in
      let bytes = hash ++ rest in
      let front : take 32 bytes ≡ hash =
        ap (λ n. take n bytes) (sym sized) ∙ take-append hash rest in
      let back : drop 32 bytes ≡ rest =
        ap (λ n. drop n bytes) (sym sized) ∙ drop-append hash rest in
      rw
        (
          ltb-false (pos + length bytes) ((pos + 32) % 2 ^ 64) (omega (arith, len, sized)),
          ltb-false (length bytes) 32 (omega (arith, len, sized)),
          front,
          back,
        )
        (ap (λ n. ok (hash, (pos + n, rest))) (sym sized));
}

flag-not : (b : Bool) → not (flag b == 0) ≡ b
flag-not true = refl
flag-not false = refl

Reads-read_chunk : (c : ChunkDescriptor) → IsStored c → Reads read_chunk (code_chunk c) c
unfolding read_chunk
Reads-read_chunk c s = Reads-value (ap (λ b. record c { encrypted = b }) (flag-not c.encrypted)) (
    Reads-bind read_hash _ (Reads-read_hash c.hash s.hash) (
      Reads-bind read_varint _ (Reads-read_varint c.offset s.offset) (
        Reads-bind read_varint _ (Reads-read_varint c.compressed_size s.compressed_size) (
          Reads-bind read_varint _ (Reads-read_varint c.original_size s.original_size) (
            Reads-bind read_byte _ (Reads-read_byte c.compression) (
              Reads-last read_byte (λ b. record c { encrypted = not (b == 0) })
                (Reads-read_byte (flag c.encrypted))))))))

abbrev pub register_all : List ChunkDescriptor → ChunkManager → ChunkManager
register_all [] m = m
register_all (c ∷ cs) m = register_all cs (register_chunk c m)

Reads-read_chunks :
    (cs : List ChunkDescriptor) (m : ChunkManager)
    → All IsStored cs
    → Reads (read_chunks (length cs) m) (encode_all code_chunk cs) (register_all cs m)
unfolding read_chunks
Reads-read_chunks [] m h = Reads-pure m
Reads-read_chunks (c ∷ cs) m h =
    Reads-bind read_chunk (λ x. read_chunks (length cs) (register_chunk x m))
      (Reads-read_chunk c h.0) (Reads-read_chunks cs (register_chunk c m) h.1)

-- A descriptor takes 37 bytes at least.
length-chunks :
    (cs : List ChunkDescriptor)
    → All IsStored cs
    → 37 * length cs ≤ length (encode_all code_chunk cs)
length-chunks [] h = omega arith
length-chunks (c ∷ cs) h =
    let s = h.0 in
    let flags = (c.compression ∷ []) ++ (flag c.encrypted ∷ []) in
    let tail = varint c.original_size ++ flags in
    let middle = varint c.compressed_size ++ tail in
    omega (
      arith,
      length-append (code_chunk c) (encode_all code_chunk cs),
      length-append c.hash (varint c.offset ++ middle),
      length-append (varint c.offset) middle,
      length-append (varint c.compressed_size) tail,
      length-append (varint c.original_size) flags,
      s.hash,
      length-varint c.offset s.offset,
      length-varint c.compressed_size s.compressed_size,
      length-varint c.original_size s.original_size,
      length-chunks cs h.1,
    )

Reads-limited :
    (count : ℕ) (m : Reader ChunkManager) {bytes : List ℕ} {a : ChunkManager}
    → count ≤ max_chunks
    → 37 * count ≤ length bytes
    → Reads m bytes a
    → Reads (limited count >>= λ _. m) bytes a
Reads-limited count m {bytes} few enough h = record {
  at = λ pos rest fits.
      rw
        (
          ltb-false max_chunks count few,
          ltb-false (length (bytes ++ rest) / 37) count (omega (arith, length-append bytes rest)),
          ◌>>=◌,
        )
        (h.at pos rest fits);
}

Reads-read_table :
    (m old : ChunkManager)
    → All IsStored m.chunks
    → length m.chunks ≤ max_chunks
    → Reads (read_table old) (serialize m) (register_all m.chunks old)
unfolding read_table serialize
Reads-read_table m old stored few =
    Reads-bind read_varint _ (Reads-read_varint (length m.chunks) (omega arith)) (
      Reads-limited (length m.chunks) (read_chunks (length m.chunks) old) few
        (length-chunks m.chunks stored) (Reads-read_chunks m.chunks old stored))

-- Descriptors whose keys differ, and are not in an index.
abbrev Apart : ℕ → List ChunkDescriptor → Type 0
Apart key cs = All (λ c. (key == key_of c.hash) ≡ false) cs

abbrev pub HaveKeys : List ChunkDescriptor → Type 0
HaveKeys [] = Unit {0}
HaveKeys (c ∷ cs) = Apart (key_of c.hash) cs × HaveKeys cs

abbrev AreNew : List (ℕ × ℕ) → List ChunkDescriptor → Type 0
AreNew index cs = All (λ c. assoc_find (key_of c.hash) index ≡ none) cs

AreNew-assoc_store :
    (key i : ℕ) (index : List (ℕ × ℕ)) (cs : List ChunkDescriptor)
    → Apart key cs
    → AreNew index cs
    → AreNew (assoc_store key i index) cs
AreNew-assoc_store key i index [] apart new = tt
AreNew-assoc_store key i index (c ∷ cs) apart new = (
  assoc_find-assoc_store_other key (key_of c.hash) i index apart.0 ∙ new.0,
  AreNew-assoc_store key i index cs apart.1 new.1,
)

abbrev sizes : (ChunkDescriptor → ℕ) → List ChunkDescriptor → ℕ → ℕ
sizes of [] total = total
sizes of (c ∷ cs) total = sizes of cs ((total + of c) % 2 ^ 64)

-- A table of exactly those descriptors, with the totals of their sizes.
pub record IsTable (cs : List ChunkDescriptor) (data_size stored_size : ℕ) (m : ChunkManager)
    : Type 0 where
  pub chunks : m.chunks ≡ cs
  pub total_data_size : m.total_data_size ≡ data_size
  pub total_stored_size : m.total_stored_size ≡ stored_size

register_all-IsTable :
    (cs : List ChunkDescriptor) (m : ChunkManager)
    → HaveKeys cs
    → AreNew m.hash_index cs
    → IsTable
        (m.chunks ++ cs)
        (sizes (λ c. c.original_size) cs m.total_data_size)
        (sizes (λ c. c.compressed_size) cs m.total_stored_size)
        (register_all cs m)
unfolding register_chunk
register_all-IsTable [] m keys new = record {
  chunks = sym (append-nil m.chunks);
  total_data_size = refl;
  total_stored_size = refl;
}
register_all-IsTable (c ∷ cs) m keys new =
    let pushed = push_chunk c c.compressed_size m in
    let rest =
      register_all-IsTable cs pushed keys.1
        (AreNew-assoc_store (key_of c.hash) (length m.chunks) m.hash_index cs keys.0 new.1) in
    let one : register_chunk c m ≡ pushed = rw (new.0, register_chunk) in
    record {
      chunks =
          ap (λ k. (register_all cs k).chunks) one
          ∙ rest.chunks
          ∙ append_assoc m.chunks (c ∷ []) cs;
      total_data_size = ap (λ k. (register_all cs k).total_data_size) one ∙ rest.total_data_size;
      total_stored_size =
          ap (λ k. (register_all cs k).total_stored_size) one ∙ rest.total_stored_size;
    }

AreNew-all : (cs : List ChunkDescriptor) → AreNew [] cs
AreNew-all [] = tt
AreNew-all (c ∷ cs) = (refl, AreNew-all cs)

-- A table of at most 2 ^ 20 chunks with 32 bytes of hash and different keys is loaded with the same
-- chunks, whatever was in the table it is loaded into; the totals are then the sums of the original
-- and of the compressed sizes.
pub deserialize-serialize-IsTable :
    (m old : ChunkManager)
    → All IsStored m.chunks
    → HaveKeys m.chunks
    → length m.chunks ≤ max_chunks
    → length (serialize m) < 2 ^ 64
    → (loaded : ChunkManager) × (deserialize (serialize m) old ≡ ok loaded)
      × IsTable m.chunks
          (sizes (λ c. c.original_size) m.chunks 0)
          (sizes (λ c. c.compressed_size) m.chunks 0)
          loaded
unfolding clear
deserialize-serialize-IsTable m old stored keys few short = (
  register_all m.chunks (clear old),
  Reads-run (read_table (clear old)) (Reads-read_table m (clear old) stored few) short,
  register_all-IsTable m.chunks (clear old) keys (AreNew-all m.chunks),
)
