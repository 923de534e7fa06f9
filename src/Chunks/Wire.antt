-- ===== src/Chunks/Wire.antt =====
-- `ChunkManager::serialize` and `deserialize` of src/storage/ChunkManager.cpp. What is in the table
-- behind an error is left out; memory for the descriptors that are reserved, at most 2 ^ 20, is there.
pub mod RoundTrip
use nebula_fs.Common.{
  ℕ, zero, suc, ◌+◌, ◌/◌, ◌%◌, ◌^◌, ◌*◌, Bool, true, false, not, List, [], ◌∷◌, ◌++◌, ltb, ◌==◌,
  if◌then◌else◌, length, take, drop,
}
use nebula_fs.Outcome.{Outcome, ok, fail, undefined}
use nebula_fs.VarInt.{varint}
use nebula_fs.Reader.{Cursor, Reader, ◌>>=◌, ◌>>◌, pure, read_varint, read_byte, run}
use nebula_fs.Reader.Laws.{encode_all}
use nebula_fs.Chunks.{ChunkDescriptor, ChunkManager, register_chunk, clear}

abbrev pub flag : Bool → ℕ
flag encrypted = if encrypted then 1 else 0

abbrev pub code_chunk : ChunkDescriptor → List ℕ
code_chunk c =
    c.hash
    ++ (varint c.offset
        ++ (varint c.compressed_size
            ++ (varint c.original_size ++ ((c.compression ∷ []) ++ (flag c.encrypted ∷ [])))))

unfoldable pub serialize : ChunkManager → List ℕ
serialize m = varint (length m.chunks) ++ encode_all code_chunk m.chunks

abbrev pub max_chunks : ℕ
max_chunks = 1024 * 1024

-- A count that is too large for the limit or for the bytes that are left.
abbrev pub limited : ℕ → Reader (Unit {0})
limited count (pos, bytes) =
    if ltb max_chunks count
    then fail
    else if ltb (length bytes / 37) count
    then fail
    else ok (tt, (pos, bytes))

-- `if (offset + 32 > data.size()) return …;` and the copy of 32 bytes. The sum wraps.
abbrev pub read_hash : Reader (List ℕ)
read_hash (pos, bytes) =
    if ltb (pos + length bytes) ((pos + 32) % 2 ^ 64)
    then fail
    else if ltb (length bytes) 32
    then undefined
    else ok (take 32 bytes, (pos + 32, drop 32 bytes))

-- The last two bytes are read without a look at the size of the span.
unfoldable pub read_chunk : Reader ChunkDescriptor
read_chunk = do
  hash ← read_hash
  offset ← read_varint
  compressed_size ← read_varint
  original_size ← read_varint
  compression ← read_byte
  encrypted ← read_byte
  pure (record {
    hash = hash;
    offset = offset;
    compressed_size = compressed_size;
    original_size = original_size;
    compression = compression;
    encrypted = not (encrypted == 0);
  })

unfoldable pub read_chunks : ℕ → ChunkManager → Reader ChunkManager
read_chunks zero m = pure m
read_chunks (suc n) m = do c ← read_chunk; read_chunks n (register_chunk c m)

unfoldable pub read_table : ChunkManager → Reader ChunkManager
read_table m = do count ← read_varint; limited count; read_chunks count m

abbrev pub deserialize : List ℕ → ChunkManager → Outcome ChunkManager
deserialize bytes m = run (read_table (clear m)) bytes
