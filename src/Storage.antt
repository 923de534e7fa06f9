-- ===== src/Storage.antt =====
-- src/storage/backend and include/nebula/storage/backend: where blocks are kept. A backend is a record
-- of operations; each call of one holds its lock, so it is one step.
pub mod Memory
pub mod Tiered
mod Tests
use nebula_fs.Common.{ℕ, Bool, List}
use nebula_fs.Outcome.{Outcome}

pub data StorageError : Type 0 where
  success not_found already_exists capacity_exceeded io_error corrupt_block : StorageError
  invalid_offset invalid_parameter : StorageError

-- `StorageResult<std::vector<uint8_t>>`
pub data StorageResult : Type 0 where
  found : List ℕ → StorageResult
  refused : StorageError → StorageResult

pub record StorageStats : Type 0 where
  pub total_blocks : ℕ
  pub total_bytes : ℕ
  pub capacity_bytes : ℕ
  pub read_ops : ℕ
  pub write_ops : ℕ
  pub delete_ops : ℕ

-- `IStorageBackend`, over the state of the object behind the pointer.
pub record Backend (S : Type 0) : Type 0 where
  pub write_block : ℕ → List ℕ → S → S × StorageError
  pub read_block : ℕ → S → S × StorageResult
  pub read_span : ℕ → ℕ → ℕ → S → Outcome (S × StorageResult)
  pub delete_block : ℕ → S → S × StorageError
  pub has_block : ℕ → S → Bool
  pub stats : S → StorageStats
  pub sync : S → S × StorageError
  pub clear : S → S
