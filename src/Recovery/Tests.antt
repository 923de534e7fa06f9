-- ===== src/Recovery/Tests.antt =====
-- A committed journal, its recovery, and the theorems at them.
use nebula_fs.Common.{
  ℕ, ◌+◌, ◌%◌, ◌≡◌, refl, Bool, true, false, List, [], ◌∷◌, none, sum, replicate,
}
use nebula_fs.Checksum
use nebula_fs.Journal.Entry.{JournalEntryType, JournalEntry, JournalMode}
use nebula_fs.Journal.Manager
use nebula_fs.Journal.Manager.{JournalManager}
use nebula_fs.Recovery.{RecoveryStrategy, RecoveryConfig, find_incomplete_transactions, recover}
use nebula_fs.Recovery.Consistency.{find_incomplete_transactions_committed}
use nebula_fs.Recovery.Corrupt.{IsCorrupt, Reports, recover_corrupt}
use nebula_fs.Recovery.Replay.{apply_all, operations, recover_applies}

abbrev toy_sha256 : List ℕ → List ℕ
toy_sha256 bytes = replicate 32 (sum bytes % 256)

abbrev entry : JournalEntryType → ℕ → List ℕ → JournalEntry
entry type sequence checksum = record {
  type = type;
  sequence = sequence;
  timestamp = record { seconds = 0; nanos = 0 };
  payload = sequence ∷ [];
  checksum = checksum;
}

abbrev began : JournalEntry
began = entry JournalEntryType.begin_checkpoint 0 []

abbrev created : JournalEntry
created = entry JournalEntryType.create_entry 1 []

abbrev ended : JournalEntry
ended = entry JournalEntryType.end_checkpoint 2 []

abbrev committed : JournalEntry
committed = entry JournalEntryType.commit 3 []

abbrev committed_entries : List JournalEntry
committed_entries = began ∷ created ∷ ended ∷ committed ∷ []

abbrev journal : JournalManager
journal = record {
  config = record {
    mode = JournalMode.memory;
    max_entry_size = 524288;
    max_journal_size = 64;
    enable_checksums = true;
  };
  entries = committed_entries;
  sequence = 4;
  total_journal_size = 4;
  in_checkpoint = false;
  needs_recovery = false;
  checksum = record { algo = Checksum.crc32; ctx = none };
  file_open = false;
}

-- The caller counts the applied sequence numbers, and never fails.
abbrev count_up : JournalEntry → ℕ → Bool × ℕ
count_up e w = (false, w + e.sequence)

abbrev lenient : RecoveryConfig
lenient = record { strategy = RecoveryStrategy.automatic; validate_checksums = false }

abbrev reviewing : RecoveryConfig
reviewing = record { strategy = RecoveryStrategy.manual; validate_checksums = false }

recovered : (recover toy_sha256 count_up lenient journal 10).world ≡ 11
unfolding recover
recovered = refl

-- The entries with their checksums of 32 bytes, of which one is not zero.
abbrev tampered : JournalManager
tampered = record journal {
  entries =
      entry JournalEntryType.begin_checkpoint 0 (replicate 32 0)
      ∷ entry JournalEntryType.create_entry 1 (replicate 32 1)
      ∷ [];
}

tampered-IsCorrupt : IsCorrupt tampered
unfolding Checksum.zero_hash
tampered-IsCorrupt = record { engine = (refl, refl); entries = λ zero_sums. cc zero_sums.1.0 }

find_incomplete_transactions_committed_example :
    find_incomplete_transactions committed_entries ≡ created ∷ []
find_incomplete_transactions_committed_example =
    find_incomplete_transactions_committed began (created ∷ []) ended committed refl (refl, tt) refl
      refl

recover_applies_example :
    let r = recover toy_sha256 count_up reviewing journal 10 in
    (r.result.success ≡ true)
    × (r.world ≡ apply_all count_up (operations [] journal.entries) 10)
    × (r.journal ≡ elim reviewing.strategy [
      | RecoveryStrategy.automatic ↦ Manager.clear journal
      | _ ↦ journal
    ])
recover_applies_example = recover_applies toy_sha256 count_up reviewing refl journal 10

abbrev checking : RecoveryConfig
checking = record { strategy = RecoveryStrategy.manual; validate_checksums = true }

recover_corrupt_example :
    let r = recover toy_sha256 count_up checking tampered 10 in
    (r.world ≡ 10)
    × (r.journal.entries ≡ tampered.entries)
    × Reports checking.strategy tampered.entries r.result
recover_corrupt_example =
    recover_corrupt toy_sha256 count_up checking refl tampered 10 tampered-IsCorrupt
