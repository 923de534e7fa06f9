-- ===== src/Journal/Manager.antt =====
-- src/filesystem/JournalManager.cpp: the manager's state and its operations.
use nebula_fs.Common.{
  ℕ, ◌+◌, ◌%◌, ◌^◌, Bool, true, false, List, [], ◌∷◌, ◌++◌, Option, none, some, leb, if◌then◌else◌,
  length, list_eq,
}
use nebula_fs.Checksum.{ChecksumEngine, crc32, zero_hash}
use nebula_fs.Checksum
use nebula_fs.VarInt.{varint}
use nebula_fs.Packed.{le_bytes}
use nebula_fs.Journal.Entry.{JournalEntryType, JournalEntry, JournalConfig, JournalMode, Timestamp}

-- `file_open` says whether `journalFd_` is a file descriptor.
pub record JournalManager : Type 0 where
  pub config : JournalConfig
  pub entries : List JournalEntry
  pub sequence : ℕ
  pub total_journal_size : ℕ
  pub in_checkpoint : Bool
  pub needs_recovery : Bool
  pub checksum : ChecksumEngine
  pub file_open : Bool

pub data ErrorCode : Type 0 where
  invalid_operation journal_full journal_corrupt : ErrorCode

-- A method's new state and its `std::error_code`, `none` for success.
abbrev pub Answer : Type 0
Answer = JournalManager × Option ErrorCode

-- `JournalManager(config)`; `opened` is whether a file of file mode could be opened.
unfoldable pub new : JournalConfig → Bool → JournalManager
new config opened = record {
  config = config;
  entries = [];
  sequence = 0;
  total_journal_size = 0;
  in_checkpoint = false;
  needs_recovery = false;
  checksum = Checksum.new crc32;
  file_open = elim config.mode [ JournalMode.file ↦ opened | _ ↦ false ];
}

-- `createEntry`: the entry takes the next sequence number.
abbrev pub make_entry : JournalEntryType → List ℕ → Timestamp → JournalManager → JournalEntry
make_entry type payload now j = record {
  type = type;
  sequence = j.sequence;
  timestamp = now;
  payload = payload;
  checksum = zero_hash;
}

abbrev pub next_sequence : JournalManager → JournalManager
next_sequence j = record j { sequence = (j.sequence + 1) % 2 ^ 64 }

-- `writeToFile` succeeds, with an open file and without.
abbrev write_to_file : JournalEntry → JournalManager → Option ErrorCode
write_to_file entry j = none

-- `entries_.push_back(createEntry(type, {}))`
append_mark : JournalEntryType → Timestamp → JournalManager → JournalManager
append_mark type now j = record (next_sequence j) {
  entries = j.entries ++ make_entry type [] now j ∷ [];
}

abbrev written : JournalEntryType → Timestamp → JournalManager → Option ErrorCode
written type now j = if j.file_open then write_to_file (make_entry type [] now j) j else none

unfoldable pub begin_checkpoint : Timestamp → JournalManager → Answer
unfolding append_mark
begin_checkpoint now j = if j.in_checkpoint then (j, some invalid_operation) else (
  record (append_mark JournalEntryType.begin_checkpoint now j) {
    in_checkpoint = true;
    needs_recovery = true;
  },
  written JournalEntryType.begin_checkpoint now j,
)

unfoldable pub end_checkpoint : Timestamp → JournalManager → Answer
unfolding append_mark
end_checkpoint now j =
    if j.in_checkpoint
    then (
      record (append_mark JournalEntryType.end_checkpoint now j) { in_checkpoint = false },
      written JournalEntryType.end_checkpoint now j,
    )
    else (j, some invalid_operation)

unfoldable pub type_byte : JournalEntryType → ℕ
type_byte JournalEntryType.begin_checkpoint = 0x01
type_byte JournalEntryType.end_checkpoint = 0x02
type_byte JournalEntryType.create_entry = 0x03
type_byte JournalEntryType.update_entry = 0x04
type_byte JournalEntryType.delete_entry = 0x05
type_byte JournalEntryType.rename_entry = 0x06
type_byte JournalEntryType.write_block = 0x07
type_byte JournalEntryType.commit = 0x08
type_byte JournalEntryType.abort = 0x09
type_byte (JournalEntryType.unnamed b) = b

-- The engine after it was reset and fed an entry's type, sequence and data.
unfoldable pub feed_entry : JournalEntry → ChecksumEngine → ChecksumEngine
unfolding type_byte
feed_entry e engine =
    Checksum.update
      (Checksum.update (Checksum.update (Checksum.reset engine) (type_byte e.type ∷ []))
        (le_bytes 8 e.sequence))
      e.payload

unfoldable pub is_journal_full : JournalManager → Bool
is_journal_full j = leb j.config.max_journal_size j.total_journal_size

module _ (sha256 : List ℕ → List ℕ) where
  abbrev pub checked_entry : JournalEntry → JournalManager → JournalEntry
  checked_entry e j =
      if j.config.enable_checksums
      then record e { checksum = Checksum.finalize sha256 (feed_entry e j.checksum) }
      else e

  abbrev checked_engine : JournalEntry → JournalManager → ChecksumEngine
  checked_engine e j = if j.config.enable_checksums then feed_entry e j.checksum else j.checksum

  unfoldable pub log : JournalEntry → JournalManager → Answer
  unfolding is_journal_full
  log e j = if is_journal_full j then (j, some journal_full) else (
    record j {
      entries = j.entries ++ checked_entry e j ∷ [];
      total_journal_size = (j.total_journal_size + length e.payload) % 2 ^ 64;
      checksum = checked_engine e j;
    },
    (if j.file_open then write_to_file (checked_entry e j) j else none),
  )

  -- `log(createEntry(type, entryData))`: the number is taken also where `log` refuses the entry.
  unfoldable pub log_new : JournalEntryType → List ℕ → Timestamp → JournalManager → Answer
  log_new type payload now j = log (make_entry type payload now j) (next_sequence j)

  unfoldable pub log_create : ℕ → List ℕ → Timestamp → JournalManager → Answer
  unfolding log_new
  log_create id bytes now j = log_new JournalEntryType.create_entry (varint id ++ bytes) now j

  unfoldable pub log_update : ℕ → List ℕ → Timestamp → JournalManager → Answer
  unfolding log_new
  log_update id bytes now j = log_new JournalEntryType.update_entry (varint id ++ bytes) now j

  unfoldable pub log_delete : ℕ → Timestamp → JournalManager → Answer
  unfolding log_new
  log_delete id now j = log_new JournalEntryType.delete_entry (varint id) now j

  -- The fields of the chunk descriptor that the entry holds.
  unfoldable pub log_write_block : List ℕ → ℕ → ℕ → ℕ → Timestamp → JournalManager → Answer
  unfolding log_new
  log_write_block hash offset compressed_size original_size now j =
      log_new JournalEntryType.write_block
        (hash ++ (varint offset ++ (varint compressed_size ++ varint original_size))) now j

  -- The loop of `verifyIntegrity`; the engine is shared state.
  unfoldable pub verify_loop : List JournalEntry → ChecksumEngine → Bool × ChecksumEngine
  verify_loop [] engine = (true, engine)
  verify_loop (e ∷ es) engine =
      let fed = feed_entry e engine in
      let rest = verify_loop es fed in
      if list_eq (Checksum.finalize sha256 fed) e.checksum then rest else (false, fed)

  unfoldable pub verify_integrity : JournalManager → Bool × JournalManager
  unfolding verify_loop
  verify_integrity j =
      let (intact, engine) = verify_loop j.entries j.checksum in
      (intact, record j { checksum = engine })

-- The end entry that `commit` writes first when a checkpoint is open.
unfoldable pub close_checkpoint : Timestamp → JournalManager → JournalManager
unfolding append_mark
close_checkpoint now j =
    if j.in_checkpoint
    then record (append_mark JournalEntryType.end_checkpoint now j) { in_checkpoint = false }
    else j

-- `writeToFile` returns no error, so the early return between the two entries is not taken.
unfoldable pub commit : Timestamp → JournalManager → Answer
unfolding append_mark close_checkpoint
commit now j =
    let j' = close_checkpoint now j in
    (
      record (append_mark JournalEntryType.commit now j') { needs_recovery = false },
      written JournalEntryType.commit now j',
    )

unfoldable pub abort : Timestamp → JournalManager → Answer
unfolding append_mark
abort now j = (
  record (append_mark JournalEntryType.abort now j) {
    in_checkpoint = false;
    needs_recovery = true;
  },
  written JournalEntryType.abort now j,
)

unfoldable pub recover : JournalManager → Answer
recover j = if j.needs_recovery then (record j { needs_recovery = false }, none) else (j, none)

abbrev pub replay_flag : JournalEntryType → Bool → Bool
replay_flag JournalEntryType.begin_checkpoint open_now = true
replay_flag JournalEntryType.end_checkpoint open_now = false
replay_flag JournalEntryType.commit open_now = false
replay_flag JournalEntryType.abort open_now = false
replay_flag _ open_now = open_now

unfoldable pub replay_entry : JournalEntry → JournalManager → Answer
replay_entry e j = (record j { in_checkpoint = replay_flag e.type j.in_checkpoint }, none)

unfoldable pub clear : JournalManager → JournalManager
clear j = record j {
  entries = [];
  sequence = 0;
  total_journal_size = 0;
  in_checkpoint = false;
  needs_recovery = false;
}

unfoldable pub has_uncommitted : JournalManager → Bool
has_uncommitted j = j.in_checkpoint
