-- ===== src/Recovery.antt =====
-- src/filesystem/Recovery.cpp: analysis and replay of a journal. `applyEntry` is the caller's: the
-- parameter `apply`, over the caller's state `W`. The counters count entries of one journal and do
-- not wrap; the summary texts are left out.
pub mod Consistency
pub mod Replay
pub mod Corrupt
mod Tests
use nebula_fs.Common.{
  ℕ, zero, suc, ◌+◌, ◌-◌, ◌/◌, ◌≡◌, Bool, true, false, not, ◌&&◌, ◌||◌, List, [], ◌∷◌, ◌++◌, Option,
  none, some, ltb, ◌==◌, if◌then◌else◌, length,
}
use nebula_fs.Journal.Entry.{JournalEntryType, JournalEntry}
use nebula_fs.Journal.Manager
use nebula_fs.Journal.Manager.{JournalManager}

pub data RecoveryStrategy : Type 0 where
  automatic manual best_effort : RecoveryStrategy

pub record RecoveryConfig : Type 0 where
  pub strategy : RecoveryStrategy
  pub validate_checksums : Bool

-- The error codes of the parse errors, each with the entry's sequence number as its offset.
pub data RecoveryError : Type 0 where
  journal_corrupt io_error : ℕ → RecoveryError

pub record RecoveryResult : Type 0 where
  pub success : Bool
  pub entries_replayed : ℕ
  pub entries_skipped : ℕ
  pub entries_corrupt : ℕ
  pub errors : List RecoveryError

abbrev pub no_result : RecoveryResult
no_result = record {
  success = false;
  entries_replayed = 0;
  entries_skipped = 0;
  entries_corrupt = 0;
  errors = [];
}

-- An `int` that counts open checkpoints; `negsuc n` is -(n + 1).
pub data ℤ : Type 0 where
  pos negsuc : ℕ → ℤ

abbrev pub increment : ℤ → ℤ
increment (pos n) = pos (suc n)
increment (negsuc zero) = pos 0
increment (negsuc (suc n)) = negsuc n

abbrev pub decrement : ℤ → ℤ
decrement (pos zero) = negsuc 0
decrement (pos (suc n)) = pos n
decrement (negsuc n) = negsuc (suc n)

abbrev pub is_zero : ℤ → Bool
is_zero (pos zero) = true
is_zero (pos (suc n)) = false
is_zero (negsuc n) = false

abbrev pub next_depth : JournalEntryType → ℤ → ℤ
next_depth JournalEntryType.begin_checkpoint depth = increment depth
next_depth JournalEntryType.end_checkpoint depth = decrement depth
next_depth _ depth = depth

abbrev pub next_commit : JournalEntryType → Bool → Bool
next_commit JournalEntryType.commit has_commit = true
next_commit JournalEntryType.abort has_commit = true
next_commit _ has_commit = has_commit

consistent_loop : List JournalEntry → ℤ → Bool → Bool
consistent_loop [] depth has_commit = is_zero depth && has_commit
consistent_loop (e ∷ es) depth has_commit =
    consistent_loop es (next_depth e.type depth) (next_commit e.type has_commit)

unfoldable pub is_checkpoint_consistent : List JournalEntry → Bool
unfolding consistent_loop
is_checkpoint_consistent entries = consistent_loop entries (pos 0) false

-- The three kinds of entries that the loops tell apart: those that open, that close, and the rest.
pub data Mark : Type 0 where
  opens closes plain : Mark

abbrev pub mark_of : JournalEntryType → Mark
mark_of JournalEntryType.begin_checkpoint = opens
mark_of JournalEntryType.end_checkpoint = closes
mark_of JournalEntryType.commit = closes
mark_of JournalEntryType.abort = closes
mark_of _ = plain

-- `depth` is an `int` that is never negative here.
incomplete_loop : List JournalEntry → ℕ → List JournalEntry
incomplete_loop [] depth = []
incomplete_loop (e ∷ es) depth =
    let pushed = e ∷ incomplete_loop es depth in
    let kept = incomplete_loop es depth in
    elim (mark_of e.type) [
      | opens ↦ incomplete_loop es (depth + 1)
      | closes ↦ incomplete_loop es (depth - 1)
      | plain ↦ if ltb 0 depth then pushed else kept
    ]

unfoldable pub find_incomplete_transactions : List JournalEntry → List JournalEntry
unfolding incomplete_loop
find_incomplete_transactions entries = incomplete_loop entries 0

is_checkpoint_mark : JournalEntryType → Bool
is_checkpoint_mark JournalEntryType.begin_checkpoint = true
is_checkpoint_mark JournalEntryType.end_checkpoint = true
is_checkpoint_mark _ = false

count_replayed : List JournalEntry → ℕ
unfolding is_checkpoint_mark
count_replayed [] = 0
count_replayed (e ∷ es) =
    let rest = count_replayed es in if is_checkpoint_mark e.type then rest else rest + 1

unfoldable pub analyze : JournalManager → RecoveryResult
unfolding is_checkpoint_consistent find_incomplete_transactions count_replayed
analyze journal = elim journal.entries [
  | [] ↦ record no_result { success = true }
  | e ∷ es ↦ record {
    success = is_checkpoint_consistent (e ∷ es);
    entries_replayed = count_replayed (e ∷ es);
    entries_skipped = length (find_incomplete_transactions (e ∷ es));
    entries_corrupt = 0;
    errors = [];
  }
]

unfoldable pub needs_recovery : JournalManager → Bool
needs_recovery journal = journal.needs_recovery || Manager.has_uncommitted journal

-- Seconds.
unfoldable pub estimate_recovery_time : JournalManager → ℕ
estimate_recovery_time journal =
    if length journal.entries == 0 then 0 else length journal.entries / 10000 + 1

-- The state of the loop of `recover`.
pub record Progress {ℓ} (W : Type ℓ) : Type ℓ where
  pub result : RecoveryResult
  pub journal : JournalManager
  pub in_active_transaction : Bool
  pub world : W

-- Whether the loop goes on or the function returns.
pub data Flow {ℓ} (A : Type ℓ) : Type ℓ where
  go_on stop : A → Flow A

module _ {ℓ} {W : Type ℓ} (sha256 : List ℕ → List ℕ) (apply : JournalEntry → W → Bool × W)
    (config : RecoveryConfig) where
  -- A corrupt journal: the strategies differ.
  corrupt_entry : JournalEntry → Progress W → Flow (Progress W)
  corrupt_entry e p =
      let r = record p.result { entries_corrupt = p.result.entries_corrupt + 1 } in
      elim config.strategy [
        | best_effort ↦ go_on (record p { result = r })
        | manual ↦ go_on (record p {
          result = record r { errors = r.errors ++ journal_corrupt e.sequence ∷ [] };
        })
        | automatic ↦ stop (record p { result = record r { success = false } })
      ]

  replayed : Progress W → Progress W
  replayed p = record p {
    result = record p.result { entries_replayed = p.result.entries_replayed + 1 };
  }

  -- `applyEntry` answered with an error.
  refused : JournalEntry → Progress W → Progress W
  refused e p = elim config.strategy [
    | best_effort ↦ record p {
      result = record p.result { entries_skipped = p.result.entries_skipped + 1 };
    }
    | _ ↦ record p {
      result = record p.result {
        errors = p.result.errors ++ io_error e.sequence ∷ [];
        entries_corrupt = p.result.entries_corrupt + 1;
      };
    }
  ]

  apply_entry : JournalEntry → Progress W → Progress W
  unfolding refused replayed
  apply_entry e p =
      let (failed, world) = apply e p.world in
      if failed
      then refused e (record p { world = world })
      else replayed (record p { world = world })

  sound_entry : JournalEntry → Progress W → Progress W
  unfolding apply_entry replayed
  sound_entry e p = elim (mark_of e.type) [
    | opens ↦ record p { in_active_transaction = true }
    | closes ↦ record p { in_active_transaction = false }
    | plain ↦ if p.in_active_transaction then apply_entry e p else replayed p
  ]

  -- `validateChecksums && !journal.verifyIntegrity()`, a call that may touch the engine.
  finds_corruption : JournalManager → Bool × JournalManager
  finds_corruption journal =
      if config.validate_checksums
      then (let (intact, journal') = Manager.verify_integrity sha256 journal in
          (not intact, journal'))
      else (false, journal)

  recover_entry : JournalEntry → Progress W → Flow (Progress W)
  unfolding finds_corruption corrupt_entry sound_entry
  recover_entry e p =
      let (corrupt, journal) = finds_corruption p.journal in
      let p' = record p { journal = journal } in
      if corrupt then corrupt_entry e p' else go_on (sound_entry e p')

  recover_loop : List JournalEntry → Progress W → Flow (Progress W)
  recover_loop [] p = go_on p
  recover_loop (e ∷ es) p = elim (recover_entry e p) [
    | stop p' ↦ stop p'
    | go_on p' ↦ recover_loop es p'
  ]

  -- Behind the loop.
  finish : Progress W → Progress W
  finish p =
      let cleared : JournalManager = elim config.strategy [
        | automatic ↦ Manager.clear p.journal
        | _ ↦ p.journal
      ] in
      record p { journal = cleared; result = record p.result { success = true } }

  -- The result so far holds the counts of the analysis.
  start_progress : JournalManager → W → Progress W
  start_progress journal world =
      let analysis = analyze journal in
      record {
        result = record no_result {
          entries_skipped = analysis.entries_skipped;
          entries_corrupt = analysis.entries_corrupt;
        };
        journal = journal;
        in_active_transaction = false;
        world = world;
      }

  unfoldable pub recover : JournalManager → W → Progress W
  unfolding recover_loop recover_entry finish analyze start_progress
  recover journal world = elim (recover_loop journal.entries (start_progress journal world)) [
    | stop p ↦ p
    | go_on p ↦ finish p
  ]
