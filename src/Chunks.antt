-- ===== src/Chunks.antt =====
-- src/storage/ChunkManager.cpp: data cut into chunks, and the table of the chunks that are stored. The
-- hash of a chunk is a parameter; the cache of pointers, which is global, is not modelled.
mod Table
pub mod Cutting
pub mod Wire
mod Tests
use nebula_fs.Common.{
  ℕ, zero, suc, ◌+◌, ◌-◌, ◌*◌, ◌/◌, ◌%◌, ◌^◌, Bool, true, false, Option, none, some, List, [], ◌∷◌,
  ◌++◌, bit_and, bit_or, bit_xor, ltb, leb, ◌==◌, if◌then◌else◌, length, take, drop, assoc_store,
  assoc_find,
}
use mathlib.Core.Option
use nebula_fs.Packed.{le_value}
use nebula_fs.Chunks.Table.{table}

pub data DedupStrategy : Type 0 where
  no_dedup fixed content : DedupStrategy

pub record ChunkConfig : Type 0 where
  pub dedup_strategy : DedupStrategy
  pub min_chunk_size : ℕ
  pub max_chunk_size : ℕ
  pub avg_chunk_size : ℕ

pub record ChunkDescriptor : Type 0 where
  pub hash : List ℕ
  pub offset : ℕ
  pub compressed_size : ℕ
  pub original_size : ℕ
  pub compression : ℕ
  pub encrypted : Bool

pub record ChunkManager : Type 0 where
  pub config : ChunkConfig
  pub chunks : List ChunkDescriptor
  pub hash_index : List (ℕ × ℕ)
  pub total_data_size : ℕ
  pub total_stored_size : ℕ

abbrev pub entry : ℕ → List ℕ → ℕ
entry n [] = 0
entry zero (x ∷ xs) = x
entry (suc n) (x ∷ xs) = entry n xs

-- `hash = (hash << 1) | (hash >> 31); hash ^= table[byte];` in 32 bits.
unfoldable pub buzhash_from : ℕ → List ℕ → ℕ
buzhash_from hash [] = hash
buzhash_from hash (byte ∷ bytes) =
    buzhash_from (bit_xor (bit_or (hash * 2 % 2 ^ 32) (hash / 2 ^ 31)) (entry byte table)) bytes

abbrev pub buzhash : List ℕ → ℕ
buzhash bytes = buzhash_from 0 bytes

abbrev pub window_size : ℕ
window_size = 48

-- The hash of the bytes before i, 48 of them where there are so many.
unfoldable pub window_hash : ℕ → List ℕ → ℕ
unfolding buzhash_from
window_hash i bytes =
    let start = if leb window_size i then i - window_size else 0 in
    let left = length bytes - start in
    let size = if ltb left window_size then left else window_size in
    buzhash (take size (drop start bytes))

abbrev pub mask : ChunkConfig → ℕ
mask c = (c.avg_chunk_size % 2 ^ 32 + 2 ^ 32 - 1) % 2 ^ 32

-- The loop over i, with the last boundary; the fuel is what is left of the data.
unfoldable pub boundaries_loop : ChunkConfig → List ℕ → ℕ → ℕ → ℕ → List ℕ
unfolding window_hash
boundaries_loop c bytes zero i last = []
boundaries_loop c bytes (suc left) i last =
    let cut = i ∷ boundaries_loop c bytes left (i + 1) i in
    let pass = boundaries_loop c bytes left (i + 1) last in
    if leb c.max_chunk_size (i - last)
    then cut
    else if ltb (i - last) c.min_chunk_size
    then pass
    else if bit_and (window_hash i bytes) (mask c) == 0
    then cut
    else pass

unfoldable pub find_chunk_boundaries : ChunkConfig → List ℕ → List ℕ
unfolding boundaries_loop
find_chunk_boundaries c bytes =
    if leb (length bytes) c.max_chunk_size
    then []
    else boundaries_loop c bytes (length bytes - c.min_chunk_size) c.min_chunk_size 0

-- Fuel of the size of the data is enough unless the chunks are of size 0, when the code does not end
-- and this stands for nothing it does.
unfoldable pub fixed_loop : ℕ → ℕ → ℕ → ℕ → List ℕ
fixed_loop step size zero i = []
fixed_loop step size (suc fuel) i =
    let rest = fixed_loop step size fuel (i + step) in if ltb i size then i ∷ rest else []

unfoldable pub find_fixed_boundaries : ChunkConfig → ℕ → List ℕ
unfolding fixed_loop
find_fixed_boundaries c size = fixed_loop c.max_chunk_size size size c.max_chunk_size

unfoldable pub boundaries : ChunkConfig → List ℕ → List ℕ
unfolding find_chunk_boundaries find_fixed_boundaries
boundaries c bytes = elim c.dedup_strategy [
  | content ↦ find_chunk_boundaries c bytes
  | _ ↦ find_fixed_boundaries c (length bytes)
]

-- The chunks that `chunkData` goes through.
unfoldable pub pieces : ℕ → List ℕ → List ℕ → List (List ℕ)
pieces start [] bytes = if ltb start (length bytes) then drop start bytes ∷ [] else []
pieces start (b ∷ bs) bytes = take (b - start) (drop start bytes) ∷ pieces b bs bytes

-- `*reinterpret_cast<const uint64_t*>(hash.data())`
abbrev pub key_of : List ℕ → ℕ
key_of hash = le_value (take 8 hash)

abbrev pub blank_descriptor : ChunkDescriptor
blank_descriptor = record {
  hash = [];
  offset = 0;
  compressed_size = 0;
  original_size = 0;
  compression = 0;
  encrypted = false;
}

-- `chunks_[i]`, which is there for an index of the table.
abbrev pub chunk_at : ℕ → List ChunkDescriptor → ChunkDescriptor
chunk_at n [] = blank_descriptor
chunk_at zero (c ∷ cs) = c
chunk_at (suc n) (c ∷ cs) = chunk_at n cs

abbrev pub push_chunk : ChunkDescriptor → ℕ → ChunkManager → ChunkManager
push_chunk chunk stored m = record m {
  chunks = m.chunks ++ (chunk ∷ []);
  hash_index = assoc_store (key_of chunk.hash) (length m.chunks) m.hash_index;
  total_data_size = (m.total_data_size + chunk.original_size) % 2 ^ 64;
  total_stored_size = (m.total_stored_size + stored) % 2 ^ 64;
}

unfoldable pub has_chunk : List ℕ → ChunkManager → Bool
has_chunk hash m = elim (assoc_find (key_of hash) m.hash_index) [ none ↦ false | some i ↦ true ]

unfoldable pub get_chunk : List ℕ → ChunkManager → Option ChunkDescriptor
get_chunk hash m = Option.map (λ i. chunk_at i m.chunks) (assoc_find (key_of hash) m.hash_index)

unfoldable pub register_chunk : ChunkDescriptor → ChunkManager → ChunkManager
register_chunk chunk m = elim (assoc_find (key_of chunk.hash) m.hash_index) [
  | some i ↦ m
  | none ↦ push_chunk chunk chunk.compressed_size m
]

unfoldable pub clear : ChunkManager → ChunkManager
clear m = record m { chunks = []; hash_index = []; total_data_size = 0; total_stored_size = 0 }

module _ (compute : List ℕ → List ℕ) where
  abbrev pub new_descriptor : List ℕ → ChunkDescriptor
  new_descriptor bytes = record blank_descriptor {
    hash = compute bytes;
    original_size = length bytes;
  }

  unfoldable pub find_or_create_chunk : List ℕ → ChunkManager → ChunkManager × ChunkDescriptor
  find_or_create_chunk bytes m = elim (assoc_find (key_of (compute bytes)) m.hash_index) [
    | some i ↦ (m, chunk_at i m.chunks)
    | none ↦ (push_chunk (new_descriptor bytes) (length bytes) m, new_descriptor bytes)
  ]

  unfoldable pub create_all : List (List ℕ) → ChunkManager → ChunkManager × List ChunkDescriptor
  unfolding find_or_create_chunk
  create_all [] m = (m, [])
  create_all (p ∷ ps) m =
      let one = find_or_create_chunk p m in
      let rest = create_all ps one.0 in (rest.0, one.1 ∷ rest.1)

  unfoldable pub chunk_data : List ℕ → ChunkManager → ChunkManager × List ChunkDescriptor
  unfolding create_all pieces boundaries
  chunk_data bytes m = create_all (pieces 0 (boundaries m.config bytes) bytes) m
