-- ===== src/Journal/Tests.antt =====
-- A journal with an open checkpoint, and the theorems at it.
use native.Mathlib.Decide.{dec_lt}
use nebula_fs.Common.{
  ℕ, ◌%◌, ◌≡◌, refl, true, false, none, some, List, [], ◌∷◌, sum, replicate, arith,
}
use nebula_fs.Common.Order.{lt_wf}
use nebula_fs.Checksum
use nebula_fs.Outcome.{ok}
use nebula_fs.VarInt.{encode}
use nebula_fs.Journal.Entry.{JournalEntryType, JournalEntry, JournalConfig, JournalMode, Timestamp}
use nebula_fs.Journal.Manager
use nebula_fs.Journal.Manager.{JournalManager}
use nebula_fs.Journal.Calls.{Call, step}
use nebula_fs.Journal.Checkpoints.{IsBracketed, run_entries, step-IsBracketed}
use nebula_fs.Journal.Sequence.{IsAccounted, step-IsAccounted}
use nebula_fs.Journal.Wire.{serialize, deserialize}
use nebula_fs.Journal.Wire.RoundTrip.{IsSerializable, deserialize-serialize_journal}

-- Some function of 32 bytes in place of SHA-256.
abbrev toy_sha256 : List ℕ → List ℕ
toy_sha256 bytes = replicate 32 (sum bytes % 256)

abbrev noon : Timestamp
noon = record { seconds = 43200; nanos = 5 }

abbrev config : JournalConfig
config = record {
  mode = JournalMode.memory;
  max_entry_size = 524288;
  max_journal_size = 64;
  enable_checksums = true;
}

abbrev fresh : JournalManager
fresh = Manager.new config false

abbrev begun : JournalManager
begun = (step toy_sha256 noon Call.begins fresh).0

abbrev logged : JournalManager
logged = (step toy_sha256 noon (Call.creates 300 (9 ∷ [])) begun).0

-- An entry that the caller makes: no other method logs a renaming.
abbrev renamed : JournalEntry
renamed = record {
  type = JournalEntryType.rename_entry;
  sequence = 1;
  timestamp = noon;
  payload = 7 ∷ [];
  checksum = replicate 32 0;
}

program : Unit {0}
unfolding step encode lt_wf dec_lt Manager.new Manager.begin_checkpoint Manager.log_create
    Manager.log Manager.is_journal_full Manager.feed_entry Manager.commit Checksum.new
    Checksum.update Checksum.reset Checksum.finalize Checksum.zero_hash serialize run_entries
program = tt

logged_flags :
    (logged.in_checkpoint ≡ true) × (logged.sequence ≡ 2) × (logged.total_journal_size ≡ 3)
unfolding program
logged_flags = (refl, refl, refl)

-- A second begin is refused.
begin_twice : (step toy_sha256 noon Call.begins begun).1 ≡ some Manager.invalid_operation
unfolding program
begin_twice = refl

logged-IsBracketed : IsBracketed logged
unfolding program
logged-IsBracketed = refl

logged-IsAccounted : IsAccounted logged
unfolding program
logged-IsAccounted = omega arith

logged_room : logged.sequence ≡ 2
unfolding program
logged_room = refl

logged-IsSerializable : IsSerializable logged
unfolding program
logged-IsSerializable = omega arith

step-IsBracketed_example : IsBracketed (step toy_sha256 noon (Call.logs renamed) logged).0
step-IsBracketed_example =
    step-IsBracketed toy_sha256 noon (Call.logs renamed) logged refl logged-IsBracketed

step-IsAccounted_example : IsAccounted (step toy_sha256 noon Call.commits logged).0
step-IsAccounted_example =
    step-IsAccounted toy_sha256 noon logged (omega (arith, logged_room)) logged-IsAccounted
      Call.commits (tt)

deserialize-serialize_journal_example :
    deserialize (serialize logged) fresh
    ≡ ok (
      record (Manager.clear fresh) {
        entries = logged.entries;
        sequence = logged.sequence;
        total_journal_size = logged.total_journal_size;
      },
      none,
    )
deserialize-serialize_journal_example =
    deserialize-serialize_journal logged fresh logged-IsSerializable
