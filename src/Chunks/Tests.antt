-- ===== src/Chunks/Tests.antt =====
-- Five bytes cut into chunks of two or three, and the theorem at them.
use nebula_fs.Common.{ℕ, ◌≡◌, refl, true, false, List, [], ◌∷◌, replicate, joined, arith}
use native.Mathlib.Decide.{dec_lt}
use nebula_fs.Common.Order.{lt_wf}
use nebula_fs.Outcome.{ok}
use nebula_fs.VarInt.{encode}
use nebula_fs.Chunks.Wire.{serialize, deserialize}
use nebula_fs.Chunks.Wire.RoundTrip.{IsTable, deserialize-serialize-IsTable}
use nebula_fs.Chunks.{
  DedupStrategy, ChunkConfig, ChunkManager, buzhash, buzhash_from, find_chunk_boundaries,
  find_fixed_boundaries, pieces, find_or_create_chunk, new_descriptor,
}
use nebula_fs.Chunks.Cutting.{Sized, chunks-Sized}

abbrev small : ChunkConfig
small = record {
  dedup_strategy = DedupStrategy.content;
  min_chunk_size = 2;
  max_chunk_size = 3;
  avg_chunk_size = 65536;
}

abbrev bytes : List ℕ
bytes = 1 ∷ 2 ∷ 3 ∷ 4 ∷ 5 ∷ []

fixed : find_fixed_boundaries small 7 ≡ 3 ∷ 6 ∷ []
unfolding find_fixed_boundaries
fixed = refl

-- The table has no entries for the bytes from 214 on.
last_entry : buzhash (213 ∷ []) ≡ 941954292
unfolding buzhash_from
last_entry = refl

no_entry : buzhash (214 ∷ 255 ∷ []) ≡ 0
unfolding buzhash_from
no_entry = refl

abbrev empty : ChunkManager
empty = record {
  config = small;
  chunks = [];
  hash_index = [];
  total_data_size = 0;
  total_stored_size = 0;
}

-- Two hashes that agree in their first eight bytes.
abbrev alike : List ℕ → List ℕ
alike bytes = 1 ∷ 2 ∷ 3 ∷ 4 ∷ 5 ∷ 6 ∷ 7 ∷ 8 ∷ bytes

-- The second chunk is answered with the descriptor of the first.
mistaken :
    (find_or_create_chunk alike (9 ∷ []) (find_or_create_chunk alike (7 ∷ 7 ∷ []) empty).0).1
    ≡ new_descriptor alike (7 ∷ 7 ∷ [])
unfolding find_or_create_chunk
mistaken = refl

chunks-Sized_example :
    (joined (pieces 0 (find_chunk_boundaries small bytes) bytes) ≡ bytes)
    × Sized 2 3 (pieces 0 (find_chunk_boundaries small bytes) bytes)
chunks-Sized_example = chunks-Sized small bytes (omega arith) (omega arith)

abbrev hash : ℕ → List ℕ
hash first = first ∷ replicate 31 0

-- Two chunks whose keys are 1 and 2.
abbrev stored : ChunkManager
stored = record empty {
  chunks =
      record {
        hash = hash 1;
        offset = 0;
        compressed_size = 5;
        original_size = 300;
        compression = 1;
        encrypted = true;
      }
      ∷ record {
        hash = hash 2;
        offset = 5;
        compressed_size = 9;
        original_size = 9;
        compression = 0;
        encrypted = false;
      }
      ∷ [];
}

deserialize-serialize-IsTable_example :
    (loaded : ChunkManager) × (deserialize (serialize stored) stored ≡ ok loaded)
    × IsTable stored.chunks 309 14 loaded
unfolding serialize encode lt_wf dec_lt
deserialize-serialize-IsTable_example =
    deserialize-serialize-IsTable stored stored
      (
        record {
          hash = refl;
          offset = omega arith;
          compressed_size = omega arith;
          original_size = omega arith;
        },
        (
          record {
            hash = refl;
            offset = omega arith;
            compressed_size = omega arith;
            original_size = omega arith;
          },
          tt,
        ),
      )
      ((refl, tt), (tt, tt)) (omega arith) (omega arith)
