-- ===== src/Journal/Sequence.antt =====
-- The sequence numbers and the size that the manager accounts for.
use nebula_fs.Common.{
  ℕ, ◌+◌, ◌%◌, ◌^◌, ◌≤◌, ◌<◌, ◌≡◌, refl, sym, All, List, [], ◌∷◌, ◌++◌, length, if_both, arith,
}
use mathlib.Core.Path.{subst}
use nebula_fs.Journal.Entry.{JournalEntryType, JournalEntry, Timestamp, payload_total}
use nebula_fs.Journal.Manager.{
  JournalManager, Answer, close_checkpoint, make_entry, next_sequence, is_journal_full,
  replay_entry, checked_entry, begin_checkpoint, end_checkpoint, commit, abort, recover, clear, log,
  log_new, log_create, log_update, log_delete, log_write_block, verify_integrity,
}
use nebula_fs.Journal.Calls.{Call, step}

-- The sequence numbers of the entries increase, from `lo` on and below `hi`.
abbrev Ascending : ℕ → List JournalEntry → ℕ → Type 0
Ascending lo [] hi = lo ≤ hi
Ascending lo (e ∷ es) hi = (lo ≤ e.sequence) × Ascending (e.sequence + 1) es hi

pub record IsAccounted (j : JournalManager) : Type 0 where
  pub ascending : Ascending 0 j.entries j.sequence
  pub total : j.total_journal_size ≡ payload_total j.entries % 2 ^ 64

-- What is asked of an entry that the caller makes and logs: its number was not used, and lies behind
-- those of the entries and below the next one.
abbrev pub IsNumbered : JournalManager → Call → Type 0
IsNumbered j (Call.logs e) =
    All (λ x. x.sequence < e.sequence) j.entries × (e.sequence < j.sequence)
IsNumbered j _ = Unit

Ascending-between :
    (lo : ℕ) (es : List JournalEntry) (e : JournalEntry) (hi : ℕ)
    → lo ≤ e.sequence
    → All (λ x. x.sequence < e.sequence) es
    → e.sequence < hi
    → Ascending lo es hi
    → Ascending lo (es ++ e ∷ []) hi
Ascending-between lo [] e hi from before below h = omega arith
Ascending-between lo (x ∷ es) e hi from before below h =
    (h.0, Ascending-between (x.sequence + 1) es e hi (omega (arith, before.0)) before.1 below h.1)

Ascending-weaken :
    (lo : ℕ) (es : List JournalEntry) (hi hi' : ℕ)
    → hi ≤ hi'
    → Ascending lo es hi
    → Ascending lo es hi'
Ascending-weaken lo [] hi hi' w h = omega arith
Ascending-weaken lo (e ∷ es) hi hi' w h = (h.0, Ascending-weaken (e.sequence + 1) es hi hi' w h.1)

Ascending-append :
    (lo : ℕ) (es : List JournalEntry) (e : JournalEntry) (hi : ℕ)
    → e.sequence ≡ hi
    → Ascending lo es hi
    → Ascending lo (es ++ e ∷ []) (hi + 1)
Ascending-append lo [] e hi s h = omega arith
Ascending-append lo (x ∷ es) e hi s h = (h.0, Ascending-append (x.sequence + 1) es e hi s h.1)

payload_total-append :
    (es : List JournalEntry) (e : JournalEntry)
    → payload_total (es ++ e ∷ []) ≡ payload_total es + length e.payload
payload_total-append [] e = omega arith
payload_total-append (x ∷ es) e = omega (arith, payload_total-append es e)

-- One entry with the manager's number, and the number counted up.
pushed :
    (j k : JournalManager) (e : JournalEntry)
    → e.sequence ≡ j.sequence
    → k.entries ≡ j.entries ++ e ∷ []
    → k.sequence ≡ j.sequence + 1
    → k.total_journal_size ≡ (j.total_journal_size + length e.payload) % 2 ^ 64
    → IsAccounted j
    → IsAccounted k
pushed j k e number entries sequence total a = record {
  ascending = rw (entries, sequence) (Ascending-append 0 j.entries e j.sequence number a.ascending);
  total = rw entries (omega (arith, payload_total-append j.entries e, a.total));
}

module _ (now : Timestamp) (j : JournalManager) (room : j.sequence + 1 < 2 ^ 64)
    (a : IsAccounted j) where
  next-number : (j.sequence + 1) % 2 ^ 64 ≡ j.sequence + 1
  next-number = omega arith

  -- An entry without data, whatever becomes of the flags.
  marked :
      (t : JournalEntryType) (k : JournalManager)
      → k.entries ≡ j.entries ++ make_entry t [] now j ∷ []
      → k.sequence ≡ (j.sequence + 1) % 2 ^ 64
      → k.total_journal_size ≡ j.total_journal_size
      → IsAccounted k
  marked t k entries sequence total =
      pushed j k (make_entry t [] now j) refl entries (omega arith) (omega (arith, a.total)) a

  begin_checkpoint-IsAccounted : IsAccounted (begin_checkpoint now j).0
  unfolding begin_checkpoint
  begin_checkpoint-IsAccounted =
      if_both (λ (r : Answer). IsAccounted r.0) j.in_checkpoint a
        (marked JournalEntryType.begin_checkpoint _ refl refl refl)

  end_checkpoint-IsAccounted : IsAccounted (end_checkpoint now j).0
  unfolding end_checkpoint
  end_checkpoint-IsAccounted =
      if_both (λ (r : Answer). IsAccounted r.0) j.in_checkpoint
        (marked JournalEntryType.end_checkpoint _ refl refl refl) a

  abort-IsAccounted : IsAccounted (abort now j).0
  unfolding abort
  abort-IsAccounted = marked JournalEntryType.abort _ refl refl refl

  close_checkpoint-IsAccounted :
      IsAccounted (close_checkpoint now j) × ((close_checkpoint now j).sequence ≤ j.sequence + 1)
  unfolding close_checkpoint
  close_checkpoint-IsAccounted =
      if_both (λ (k : JournalManager). IsAccounted k × (k.sequence ≤ j.sequence + 1))
        j.in_checkpoint (marked JournalEntryType.end_checkpoint _ refl refl refl, omega arith)
        (a, omega arith)

-- One number for the end entry, and one for the commit.
commit-IsAccounted :
    (now : Timestamp) (j : JournalManager)
    → j.sequence + 2 < 2 ^ 64
    → IsAccounted j
    → IsAccounted (commit now j).0
unfolding commit
commit-IsAccounted now j room a =
    let (closed, bound) = close_checkpoint-IsAccounted now j (omega arith) a in
    marked now (close_checkpoint now j) (omega arith) closed JournalEntryType.commit _ refl refl
      refl

module _ (sha256 : List ℕ → List ℕ) (now : Timestamp) (j : JournalManager)
    (room : j.sequence + 2 < 2 ^ 64) (a : IsAccounted j) where
  log_new-IsAccounted :
      (t : JournalEntryType) (payload : List ℕ) → IsAccounted (log_new sha256 t payload now j).0
  unfolding log_new log
  log_new-IsAccounted t payload =
      if_both (λ (r : Answer). IsAccounted r.0) (is_journal_full (next_sequence j))
        (record {
          ascending = Ascending-weaken 0 j.entries j.sequence _ (omega arith) a.ascending;
          total = a.total;
        })
        (pushed j _ (checked_entry sha256 (make_entry t payload now j) (next_sequence j))
          (ground arith) refl (omega arith) (ground arith) a)

  log-IsAccounted : (e : JournalEntry) → IsNumbered j (Call.logs e) → IsAccounted (log sha256 e j).0
  unfolding log
  log-IsAccounted e numbered =
      let entry = checked_entry sha256 e j in
      let same : entry.sequence ≡ e.sequence = ground arith in
      let sized : length entry.payload ≡ length e.payload = ground arith in
      if_both (λ (r : Answer). IsAccounted r.0) (is_journal_full j) a
        (record {
          ascending =
              Ascending-between 0 j.entries entry j.sequence (omega arith)
                (subst (λ n. All (λ x. x.sequence < n) j.entries) (sym same) numbered.0)
                (rw same numbered.1) a.ascending;
          total = omega (arith, payload_total-append j.entries entry, a.total, sized);
        })

  -- While sequence numbers last, every call but `deserialize` keeps the entries' numbers increasing and below the next
  -- one, and the journal's size equal to the data that the entries hold, modulo 2 ^ 64, if an
  -- entry given to `log` has an unused number behind those of the entries and below the next one.
  pub step-IsAccounted : (c : Call) → IsNumbered j c → IsAccounted (step sha256 now c j).0
  unfolding step
  step-IsAccounted Call.begins numbered = begin_checkpoint-IsAccounted now j (omega arith) a
  step-IsAccounted Call.ends numbered = end_checkpoint-IsAccounted now j (omega arith) a
  step-IsAccounted Call.commits numbered = commit-IsAccounted now j room a
  step-IsAccounted Call.aborts numbered = abort-IsAccounted now j (omega arith) a
  step-IsAccounted Call.recovers numbered =
      unfold recover in
      if_both (λ (r : Answer). IsAccounted r.0) j.needs_recovery
        (record { ascending = a.ascending; total = a.total }) a
  step-IsAccounted Call.clears numbered = unfold clear in omega arith
  step-IsAccounted Call.verifies numbered =
      unfold verify_integrity in record { ascending = a.ascending; total = a.total }
  step-IsAccounted (Call.creates id bytes) numbered =
      unfold log_create in log_new-IsAccounted JournalEntryType.create_entry _
  step-IsAccounted (Call.updates id bytes) numbered =
      unfold log_update in log_new-IsAccounted JournalEntryType.update_entry _
  step-IsAccounted (Call.deletes id) numbered =
      unfold log_delete in log_new-IsAccounted JournalEntryType.delete_entry _
  step-IsAccounted (Call.writes hash offset packed size) numbered =
      unfold log_write_block in log_new-IsAccounted JournalEntryType.write_block _
  step-IsAccounted (Call.logs e) numbered = log-IsAccounted e numbered
  step-IsAccounted (Call.replays e) numbered =
      unfold replay_entry in record { ascending = a.ascending; total = a.total }
