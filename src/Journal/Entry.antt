-- ===== src/Journal/Entry.antt =====
-- include/nebula/Types.hpp and include/nebula/filesystem/JournalManager.hpp: the entries of the
-- journal and its configuration.
use nebula_fs.Common.{ℕ, ◌+◌, Bool, List, [], ◌∷◌, length}

-- `enum class JournalEntryType : uint8_t`; `unnamed` is a byte that no name stands for.
pub data JournalEntryType : Type 0 where
  begin_checkpoint end_checkpoint create_entry update_entry delete_entry : JournalEntryType
  rename_entry write_block commit abort : JournalEntryType
  unnamed : ℕ → JournalEntryType

-- The seconds are the bit pattern of an `int64_t`.
pub record Timestamp : Type 0 where
  pub seconds : ℕ
  pub nanos : ℕ

pub record JournalEntry : Type 0 where
  pub type : JournalEntryType
  pub sequence : ℕ
  pub timestamp : Timestamp
  pub payload : List ℕ
  pub checksum : List ℕ

pub data JournalMode : Type 0 where
  disabled memory file embedded : JournalMode

pub record JournalConfig : Type 0 where
  pub mode : JournalMode
  pub max_entry_size : ℕ
  pub max_journal_size : ℕ
  pub enable_checksums : Bool

-- The bytes of data that the entries hold.
abbrev pub payload_total : List JournalEntry → ℕ
payload_total [] = 0
payload_total (e ∷ es) = length e.payload + payload_total es
