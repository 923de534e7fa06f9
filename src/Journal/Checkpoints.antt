-- ===== src/Journal/Checkpoints.antt =====
-- The checkpoints of a journal as a state machine: open and closed.
use nebula_fs.Common.{
  ℕ, ◌+◌, ◌%◌, ◌^◌, ◌≡◌, refl, sym, ap, ◌∙◌, Bool, true, false, Bool-cases, inl, inr, List, [], ◌∷◌,
  ◌++◌, Option, none, some, Option-cases, if◌then◌else◌, arith,
}
use nebula_fs.Journal.Entry.{JournalEntryType, JournalEntry, Timestamp}
use nebula_fs.Journal.Manager.{
  JournalManager, make_entry, checked_entry, begin_checkpoint, end_checkpoint, commit, abort,
  recover, clear, log, log_create, log_update, log_delete, log_write_block, verify_integrity,
  replay_entry, replay_flag,
}
use nebula_fs.Journal.Calls.{Call, step}

-- One entry's effect on the checkpoint: it opens only a closed one, ends and commits close properly,
-- and an abort closes whatever is open.
abbrev pub next : Bool → JournalEntryType → Option Bool
next open_now JournalEntryType.begin_checkpoint = if open_now then none else some true
next open_now JournalEntryType.end_checkpoint = if open_now then some false else none
next open_now JournalEntryType.commit = if open_now then none else some false
next open_now JournalEntryType.abort = some false
next open_now _ = some open_now

-- What is asked of the entries that the caller makes: one that is logged neither opens nor closes a
-- checkpoint where the journal stands, and one that is replayed leaves the flag as it is.
abbrev pub IsInPlace : JournalManager → Call → Type 0
IsInPlace j (Call.logs e) = next j.in_checkpoint e.type ≡ some j.in_checkpoint
IsInPlace j (Call.replays e) = replay_flag e.type j.in_checkpoint ≡ j.in_checkpoint
IsInPlace j _ = Unit

-- All entries in order; `none` if one does not fit.
unfoldable pub run_entries : Bool → List JournalEntry → Option Bool
run_entries open_now [] = some open_now
run_entries open_now (e ∷ es) = elim (next open_now e.type) [
  | none ↦ none
  | some open_next ↦ run_entries open_next es
]

abbrev pub IsBracketed : JournalManager → Type 0
IsBracketed j = run_entries false j.entries ≡ some j.in_checkpoint

run_entries-append :
    (open_now : Bool) (es : List JournalEntry) (e : JournalEntry) {mid : Bool}
    → run_entries open_now es ≡ some mid
    → run_entries open_now (es ++ e ∷ []) ≡ next mid e.type
unfolding run_entries
run_entries-append open_now [] e {mid} h = ground arith
run_entries-append open_now (x ∷ es) e {mid} h = elim (Option-cases (next open_now x.type)) [
  | inl n ↦ cc (rw (n, run_entries) at h)
  | inr (o, n) ↦ rw (n, run_entries) (run_entries-append o es e (rw (n, run_entries) at h))
]

module _ (now : Timestamp) (j : JournalManager) (h : IsBracketed j) where
  mark :
      (t : JournalEntryType)
      → run_entries false (j.entries ++ make_entry t [] now j ∷ []) ≡ next j.in_checkpoint t
  mark t = run_entries-append false j.entries (make_entry t [] now j) h

  begin_checkpoint-IsBracketed : IsBracketed (begin_checkpoint now j).0
  unfolding begin_checkpoint
  begin_checkpoint-IsBracketed = ground (arith, mark JournalEntryType.begin_checkpoint)

  end_checkpoint-IsBracketed : IsBracketed (end_checkpoint now j).0
  unfolding end_checkpoint
  end_checkpoint-IsBracketed = ground (arith, mark JournalEntryType.end_checkpoint)

  abort-IsBracketed : IsBracketed (abort now j).0
  unfolding abort
  abort-IsBracketed = ground (arith, mark JournalEntryType.abort)

module _ (sha256 : List ℕ → List ℕ) (e : JournalEntry) (j : JournalManager) where
  log-IsBracketed :
      next j.in_checkpoint e.type ≡ some j.in_checkpoint
      → IsBracketed j
      → IsBracketed (log sha256 e j).0
  unfolding log
  log-IsBracketed plain h =
      ground (arith, plain, run_entries-append false j.entries (checked_entry sha256 e j) h)

commit-IsBracketed :
    (now : Timestamp) (j : JournalManager) → IsBracketed j → IsBracketed (commit now j).0
unfolding commit
commit-IsBracketed now j h = elim (Bool-cases j.in_checkpoint) [
  | inr closed ↦ ground (arith, mark now j h JournalEntryType.commit)
  | inl opened ↦
      let first : JournalEntry = make_entry JournalEntryType.end_checkpoint [] now j in
      let ended : run_entries false (j.entries ++ first ∷ []) ≡ some false =
        mark now j h JournalEntryType.end_checkpoint ∙ ground arith in
      let second : JournalEntry = record first {
        type = JournalEntryType.commit;
        sequence = (j.sequence + 1) % 2 ^ 64;
      } in
      ground (arith, run_entries-append false (j.entries ++ first ∷ []) second ended)
]

module _ (sha256 : List ℕ → List ℕ) (now : Timestamp) where
  -- Each call but `deserialize` keeps the entries a run of the state machine from closed, with the
  -- flag `inCheckpoint_` the state that the run ends in, if an entry given to `log` is no mark that
  -- changes that state, or does not fit it, and one given to `replayEntry` leaves the flag as it is.
  pub step-IsBracketed :
      (c : Call) (j : JournalManager)
      → IsInPlace j c
      → IsBracketed j
      → IsBracketed (step sha256 now c j).0
  unfolding step
  step-IsBracketed Call.begins j fits h = begin_checkpoint-IsBracketed now j h
  step-IsBracketed Call.ends j fits h = end_checkpoint-IsBracketed now j h
  step-IsBracketed Call.commits j fits h = commit-IsBracketed now j h
  step-IsBracketed Call.aborts j fits h = abort-IsBracketed now j h
  step-IsBracketed Call.recovers j fits h = unfold recover in ground arith
  step-IsBracketed Call.clears j fits h = unfold clear run_entries in refl
  step-IsBracketed Call.verifies j fits h = unfold verify_integrity in h
  step-IsBracketed (Call.creates id bytes) j fits h =
      unfold log_create in log-IsBracketed sha256 _ _ refl h
  step-IsBracketed (Call.updates id bytes) j fits h =
      unfold log_update in log-IsBracketed sha256 _ _ refl h
  step-IsBracketed (Call.deletes id) j fits h =
      unfold log_delete in log-IsBracketed sha256 _ _ refl h
  step-IsBracketed (Call.writes hash offset packed size) j fits h =
      unfold log_write_block in log-IsBracketed sha256 _ _ refl h
  step-IsBracketed (Call.logs e) j fits h = log-IsBracketed sha256 e j fits h
  step-IsBracketed (Call.replays e) j fits h = unfold replay_entry in h ∙ ap some (sym fits)

-- `replayEntry` for each entry in turn.
pub replay_all : List JournalEntry → JournalManager → JournalManager
replay_all [] k = k
replay_all (e ∷ es) k = replay_all es (replay_entry e k).0

replay_flag-next :
    (t : JournalEntryType) (open_now : Bool) {open_next : Bool}
    → next open_now t ≡ some open_next
    → replay_flag t open_now ≡ open_next
replay_flag-next JournalEntryType.begin_checkpoint open_now h = ground arith
replay_flag-next JournalEntryType.end_checkpoint open_now h = ground arith
replay_flag-next _ open_now h = ground arith

replay_all_run :
    (es : List JournalEntry) (k : JournalManager) {final : Bool}
    → run_entries k.in_checkpoint es ≡ some final
    → (replay_all es k).in_checkpoint ≡ final
unfolding replay_all run_entries replay_entry
replay_all_run [] k h = cc
replay_all_run (e ∷ es) k {final} h = elim (Option-cases (next k.in_checkpoint e.type)) [
  | inl n ↦ cc (rw (n, run_entries) at h)
  | inr (o, n) ↦
      replay_all_run es (record k { in_checkpoint = _ })
        (rw (replay_flag-next e.type k.in_checkpoint n) (rw (n, run_entries) at h))
]

-- Replaying the entries of a journal in a manager with no open checkpoint, as after `deserialize`,
-- restores the flag `inCheckpoint_`.
pub replay_all-in_checkpoint :
    (j k : JournalManager)
    → IsBracketed j
    → k.in_checkpoint ≡ false
    → (replay_all j.entries k).in_checkpoint ≡ j.in_checkpoint
replay_all-in_checkpoint j k h closed = replay_all_run j.entries k (rw closed h)
