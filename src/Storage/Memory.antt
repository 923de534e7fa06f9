-- ===== src/Storage/Memory.antt =====
-- src/storage/backend/MemoryStorageBackend.cpp: blocks in memory, each with its CRC-32, which is a
-- parameter.
pub mod Laws
use nebula_fs.Common.{
  ℕ, ◌+◌, ◌-◌, ◌%◌, ◌^◌, Bool, true, false, Option, none, some, List, [], ltb, ◌==◌, if◌then◌else◌,
  length, take, drop, assoc_store, assoc_find, assoc_erase,
}
use nebula_fs.Outcome.{Outcome, ok, undefined}
use nebula_fs.Storage.{
  StorageError, success, not_found, capacity_exceeded, corrupt_block, invalid_offset, StorageResult,
  found, refused, StorageStats, Backend,
}

pub record InternalBlock : Type 0 where
  pub bytes : List ℕ
  pub checksum : ℕ

pub record MemoryStorage : Type 0 where
  pub max_capacity_bytes : ℕ
  pub blocks : List (ℕ × InternalBlock)
  pub current_bytes : ℕ
  pub counters : StorageStats

abbrev pub no_stats : StorageStats
no_stats = record {
  total_blocks = 0;
  total_bytes = 0;
  capacity_bytes = 0;
  read_ops = 0;
  write_ops = 0;
  delete_ops = 0;
}

abbrev pub new_memory : ℕ → MemoryStorage
new_memory capacity = record {
  max_capacity_bytes = capacity;
  blocks = [];
  current_bytes = 0;
  counters = record no_stats { capacity_bytes = capacity };
}

abbrev pub set_capacity : ℕ → MemoryStorage → MemoryStorage
set_capacity capacity s = record s {
  max_capacity_bytes = capacity;
  counters = record s.counters { capacity_bytes = capacity };
}

abbrev pub size_of : Option InternalBlock → ℕ
size_of none = 0
size_of (some b) = length b.bytes

-- `currentBytes_ + bytes.size() - existingSize`, which wraps at 64 bits.
abbrev pub bytes_with : ℕ → List ℕ → MemoryStorage → ℕ
bytes_with id bytes s =
    (s.current_bytes + length bytes + 2 ^ 64 - size_of (assoc_find id s.blocks)) % 2 ^ 64

abbrev pub count_read : MemoryStorage → MemoryStorage
count_read s = record s {
  counters = record s.counters { read_ops = (s.counters.read_ops + 1) % 2 ^ 64 };
}

-- The sum of the test wraps; a span that passes it by the wrap is no range of the block.
unfoldable pub memory_read_span :
    ℕ → ℕ → ℕ → MemoryStorage → Outcome (MemoryStorage × StorageResult)
memory_read_span id offset size s = elim (assoc_find id s.blocks) [
  | none ↦ ok (s, refused not_found)
  | some b ↦
      if ltb (length b.bytes) ((offset + size) % 2 ^ 64)
      then ok (s, refused invalid_offset)
      else if ltb (length b.bytes) (offset + size)
      then undefined
      else ok (count_read s, found (take size (drop offset b.bytes)))
]

-- What is done with the block found under the id.
unfoldable pub delete_entry :
    ℕ → Option InternalBlock → MemoryStorage → MemoryStorage × StorageError
delete_entry id none s = (s, not_found)
delete_entry id (some b) s =
    let left = assoc_erase id s.blocks in
    let total = (s.current_bytes + 2 ^ 64 - length b.bytes) % 2 ^ 64 in
    (
      record s {
        blocks = left;
        current_bytes = total;
        counters = record s.counters {
          delete_ops = (s.counters.delete_ops + 1) % 2 ^ 64;
          total_blocks = length left;
          total_bytes = total;
        };
      },
      success,
    )

unfoldable pub memory_delete_block : ℕ → MemoryStorage → MemoryStorage × StorageError
unfolding delete_entry
memory_delete_block id s = delete_entry id (assoc_find id s.blocks) s

abbrev pub memory_has_block : ℕ → MemoryStorage → Bool
memory_has_block id s = elim (assoc_find id s.blocks) [ none ↦ false | some b ↦ true ]

abbrev pub memory_stats : MemoryStorage → StorageStats
memory_stats s = record s.counters {
  total_blocks = length s.blocks;
  total_bytes = s.current_bytes;
  capacity_bytes = s.max_capacity_bytes;
}

abbrev pub memory_sync : MemoryStorage → MemoryStorage × StorageError
memory_sync s = (s, success)

unfoldable pub memory_clear : MemoryStorage → MemoryStorage
memory_clear s = record s {
  blocks = [];
  current_bytes = 0;
  counters = record s.counters { total_blocks = 0; total_bytes = 0 };
}

module _ (crc32 : List ℕ → ℕ) where
  unfoldable pub memory_write_block : ℕ → List ℕ → MemoryStorage → MemoryStorage × StorageError
  memory_write_block id bytes s =
      let total = bytes_with id bytes s in
      let blocks = assoc_store id (record { bytes = bytes; checksum = crc32 bytes }) s.blocks in
      if ltb s.max_capacity_bytes total then (s, capacity_exceeded) else (
        record s {
          blocks = blocks;
          current_bytes = total;
          counters = record s.counters {
            write_ops = (s.counters.write_ops + 1) % 2 ^ 64;
            total_blocks = length blocks;
            total_bytes = total;
          };
        },
        success,
      )

  unfoldable pub read_entry : Option InternalBlock → MemoryStorage → MemoryStorage × StorageResult
  read_entry none s = (s, refused not_found)
  read_entry (some b) s =
      if crc32 b.bytes == b.checksum
      then (count_read s, found b.bytes)
      else (s, refused corrupt_block)

  unfoldable pub memory_read_block : ℕ → MemoryStorage → MemoryStorage × StorageResult
  unfolding read_entry
  memory_read_block id s = read_entry (assoc_find id s.blocks) s

  abbrev pub memory_backend : Backend MemoryStorage
  memory_backend = record {
    write_block = memory_write_block;
    read_block = memory_read_block;
    read_span = memory_read_span;
    delete_block = memory_delete_block;
    has_block = memory_has_block;
    stats = memory_stats;
    sync = memory_sync;
    clear = memory_clear;
  }
