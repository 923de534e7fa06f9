-- ===== src/Storage/Tests.antt =====
-- A tier of one block over a cold one, both in memory, and the theorems at it.
use nebula_fs.Common.{ℕ, ◌-◌, ◌^◌, ◌≡◌, refl, true, some, List, [], ◌∷◌, assoc_find}
use nebula_fs.Archive.Tests.{sum32}
use nebula_fs.Outcome.{undefined}
use nebula_fs.Storage.{StorageError, success, not_found, StorageResult, found, refused}
use nebula_fs.Storage.Memory.{
  MemoryStorage, new_memory, memory_write_block, memory_read_block, memory_read_span,
  memory_delete_block, memory_backend,
}
use nebula_fs.Storage.Memory.Laws.{memory_backend-IsKeeping}
use nebula_fs.Storage.Tiered.{
  hot_memory, cold_disk, TieredStorage, demote_block, write_block, read_block,
}
use nebula_fs.Storage.Tiered.Contents.{
  IsKeeping, contents, demote_block-contents, read_block-write_block,
}

abbrev Two : Type 0
Two = TieredStorage MemoryStorage MemoryStorage

abbrev tiers : ℕ → ℕ → Two
tiers hot_capacity cold_capacity = record {
  hot_tier = new_memory hot_capacity;
  cold_tier = new_memory cold_capacity;
  max_hot_blocks = 1;
  block_tiers = [];
  hot_lru_queue = [];
  migrations_to_cold = 0;
  migrations_to_hot = 0;
}

abbrev write : ℕ → List ℕ → Two → Two × StorageError
write id bytes t = write_block (memory_backend sum32) (memory_backend sum32) id bytes t

abbrev reading : ℕ → Two → StorageResult
reading id t = (read_block (memory_backend sum32) (memory_backend sum32) id true t).1

-- The second block moves the first one to the cold tier.
abbrev one : Two
one = (write 1 (5 ∷ 6 ∷ []) (tiers 100 100)).0

abbrev two : Two
two = (write 2 (7 ∷ []) one).0

moved : assoc_find 1 two.block_tiers ≡ some cold_disk
unfolding write_block memory_write_block memory_read_block memory_delete_block
moved = refl

-- With a cold tier that is full, the first block is lost.
lost : reading 1 (write 2 (7 ∷ []) (write 1 (5 ∷ 6 ∷ []) (tiers 100 1)).0).0 ≡ refused not_found
unfolding write_block read_block memory_write_block memory_read_block memory_delete_block
lost = refl

-- A block that is cold is lost when the hot tier does not take its new bytes.
lost_again :
    reading 1 (write 1 (1 ∷ 2 ∷ 3 ∷ []) (write 2 (7 ∷ []) (write 1 (5 ∷ 6 ∷ []) (tiers 2 9)).0).0).0
    ≡ refused not_found
unfolding write_block read_block memory_write_block memory_read_block memory_delete_block
lost_again = refl

-- The end of the span wraps to 0.
span_wraps :
    memory_read_span 1 (2 ^ 64 - 1) 1 (memory_write_block sum32 1 (5 ∷ []) (new_memory 9)).0
    ≡ undefined
unfolding memory_read_span memory_write_block
span_wraps = refl

in_hot : assoc_find 1 one.block_tiers ≡ some hot_memory
unfolding write_block memory_write_block
in_hot = refl

reads : contents (memory_backend sum32) (memory_backend sum32) 1 one ≡ found (5 ∷ 6 ∷ [])
unfolding contents write_block memory_write_block memory_read_block
reads = refl

taken : (write 2 (7 ∷ []) one).1 ≡ success
unfolding write_block memory_write_block memory_read_block memory_delete_block
taken = refl

demoted : (demote_block (memory_backend sum32) (memory_backend sum32) 1 one).1 ≡ success
unfolding demote_block write_block memory_write_block memory_read_block memory_delete_block
demoted = refl

memory_backend-IsKeeping_example : IsKeeping (memory_backend sum32)
memory_backend-IsKeeping_example = memory_backend-IsKeeping sum32

demote_block-contents_example :
    (assoc_find 1 (demote_block (memory_backend sum32) (memory_backend sum32) 1 one).0.block_tiers
      ≡ some cold_disk)
    × ((j : ℕ)
        → contents
            (memory_backend sum32)
            (memory_backend sum32)
            j
            (demote_block (memory_backend sum32) (memory_backend sum32) 1 one).0
          ≡ contents (memory_backend sum32) (memory_backend sum32) j one)
demote_block-contents_example =
    demote_block-contents (memory_backend sum32) (memory_backend sum32)
      (memory_backend-IsKeeping sum32) (memory_backend-IsKeeping sum32) 1 (5 ∷ 6 ∷ []) one in_hot
      reads demoted

read_block-write_block_example : reading 2 (write 2 (7 ∷ []) one).0 ≡ found (7 ∷ [])
read_block-write_block_example =
    read_block-write_block (memory_backend sum32) (memory_backend sum32)
      (memory_backend-IsKeeping sum32) (memory_backend-IsKeeping sum32) 2 (7 ∷ []) true one taken
