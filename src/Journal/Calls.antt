-- ===== src/Journal/Calls.antt =====
-- The calls of the manager's public methods that change it, as data: all but `deserialize`, which
-- puts another journal in its place.
use nebula_fs.Common.{ℕ, List, none}
use nebula_fs.Journal.Entry.{Timestamp, JournalEntry}
use nebula_fs.Journal.Manager
use nebula_fs.Journal.Manager.{JournalManager, Answer}

pub data Call : Type 0 where
  begins ends commits aborts recovers clears verifies : Call
  creates updates : ℕ → List ℕ → Call
  deletes : ℕ → Call
  logs replays : JournalEntry → Call
  writes : List ℕ → ℕ → ℕ → ℕ → Call

-- A call at a time, with the state that it leaves and its error code.
unfoldable pub step : (List ℕ → List ℕ) → Timestamp → Call → JournalManager → Answer
step sha256 now Call.begins j = Manager.begin_checkpoint now j
step sha256 now Call.ends j = Manager.end_checkpoint now j
step sha256 now Call.commits j = Manager.commit now j
step sha256 now Call.aborts j = Manager.abort now j
step sha256 now Call.recovers j = Manager.recover j
step sha256 now Call.clears j = (Manager.clear j, none)
step sha256 now Call.verifies j = ((Manager.verify_integrity sha256 j).1, none)
step sha256 now (Call.creates id bytes) j = Manager.log_create sha256 id bytes now j
step sha256 now (Call.updates id bytes) j = Manager.log_update sha256 id bytes now j
step sha256 now (Call.deletes id) j = Manager.log_delete sha256 id now j
step sha256 now (Call.logs e) j = Manager.log sha256 e j
step sha256 now (Call.replays e) j = Manager.replay_entry e j
step sha256 now (Call.writes hash offset packed size) j =
    Manager.log_write_block sha256 hash offset packed size now j
