-- ===== src/Recovery/Corrupt.antt =====
-- What `recover` does with a journal whose integrity check fails.
use nebula_fs.Common.{
  ℕ, ◌+◌, ◌≡◌, refl, sym, ap, ◌∙◌, Bool, true, false, Bool-cases, inl, inr, List, [], ◌∷◌, ◌++◌,
  append_assoc, append-nil, length, All, arith,
}
use mathlib.Core.Path.{subst}
use nebula_fs.Checksum.{ChecksumEngine}
use nebula_fs.Journal.Entry.{JournalEntry}
use nebula_fs.Journal.Manager.{JournalManager, feed_entry, verify_integrity, verify_loop}
use nebula_fs.Journal.Integrity.{IsInert, IsZeroSum, feed_entry-IsInert, verify_integrity_inert}
use nebula_fs.Recovery.{
  RecoveryStrategy, automatic, manual, best_effort, RecoveryConfig, RecoveryError, journal_corrupt,
  RecoveryResult, Progress, go_on, stop, analyze, corrupt_entry, finds_corruption, recover_entry,
  recover_loop, finish, start_progress, recover,
}

-- A journal with the engine of the constructor, in which some checksum is not zero.
pub record IsCorrupt (j : JournalManager) : Type 0 where
  pub engine : IsInert j.checksum
  pub entries : ¬ All IsZeroSum j.entries

-- An error for each entry.
abbrev pub corrupt_errors : List JournalEntry → List RecoveryError
corrupt_errors [] = []
corrupt_errors (e ∷ es) = journal_corrupt e.sequence ∷ corrupt_errors es

-- The errors that a strategy which goes on collects.
abbrev noted : RecoveryStrategy → List JournalEntry → List RecoveryError
noted manual es = corrupt_errors es
noted automatic es = []
noted best_effort es = []

-- What the strategies report: the automatic one fails at the first entry, the others find every entry
-- corrupt and succeed.
pub Reports : RecoveryStrategy → List JournalEntry → RecoveryResult → Type 0
Reports automatic es r = (r.success ≡ false) × (r.entries_corrupt ≡ 1) × (r.errors ≡ [])
Reports manual es r =
    (r.success ≡ true) × (r.entries_corrupt ≡ length es) × (r.errors ≡ corrupt_errors es)
Reports best_effort es r = (r.success ≡ true) × (r.entries_corrupt ≡ length es) × (r.errors ≡ [])

module _ (sha256 : List ℕ → List ℕ) where
  verify_loop-IsInert :
      (es : List JournalEntry) (engine : ChecksumEngine)
      → IsInert engine
      → IsInert (verify_loop sha256 es engine).1
  unfolding verify_loop
  verify_loop-IsInert [] engine h = h
  verify_loop-IsInert (e ∷ es) engine h = ground (
    arith,
    feed_entry-IsInert e engine h,
    verify_loop-IsInert es (feed_entry e engine) (feed_entry-IsInert e engine h),
  )

  -- The check fails, and leaves a journal of which it fails again.
  verify_integrity-IsCorrupt :
      (j : JournalManager)
      → IsCorrupt j
      → ((verify_integrity sha256 j).0 ≡ false)
        × IsCorrupt (verify_integrity sha256 j).1
        × ((verify_integrity sha256 j).1.entries ≡ j.entries)
  verify_integrity-IsCorrupt j corrupt = (
    elim (Bool-cases (verify_integrity sha256 j).0) [
      | inl intact ↦
          absurd (corrupt.entries ((verify_integrity_inert sha256 j corrupt.engine).0 intact))
      | inr fails ↦ fails
    ],
    unfold verify_integrity in
        record {
          engine = verify_loop-IsInert j.entries j.checksum corrupt.engine;
          entries = corrupt.entries;
        },
    unfold verify_integrity in refl,
  )

  module _ {W : Type 0} (apply : JournalEntry → W → Bool × W) (config : RecoveryConfig)
      (checks : config.validate_checksums ≡ true) where
    -- The progress after the check that a round begins with.
    abbrev checked : Progress W → Progress W
    checked p = record p { journal = (verify_integrity sha256 p.journal).1 }

    recover_entry-IsCorrupt :
        (e : JournalEntry) (p : Progress W)
        → IsCorrupt p.journal
        → recover_entry sha256 apply config e p ≡ corrupt_entry sha256 apply config e (checked p)
    unfolding recover_entry finds_corruption
    recover_entry-IsCorrupt e p corrupt =
        rw (checks, (verify_integrity-IsCorrupt p.journal corrupt).0) refl

    abbrev counted : RecoveryStrategy → JournalEntry → RecoveryResult → RecoveryResult
    counted s e r = record r {
      entries_corrupt = r.entries_corrupt + 1;
      errors = r.errors ++ noted s (e ∷ []);
    }

    corrupt_entry_goes_on :
        (s : RecoveryStrategy) (e : JournalEntry) (p : Progress W)
        → config.strategy ≡ s
        → ¬ (s ≡ automatic)
        → corrupt_entry sha256 apply config e p ≡ go_on (record p { result = counted s e p.result })
    unfolding corrupt_entry
    corrupt_entry_goes_on automatic e p same on = absurd (on refl)
    corrupt_entry_goes_on manual e p same on = rw same refl
    corrupt_entry_goes_on best_effort e p same on = rw same (
        ap
          (λ es. go_on (record p {
            result = record p.result {
              entries_corrupt = p.result.entries_corrupt + 1;
              errors = es;
            };
          }))
          (sym (append-nil p.result.errors)))

    noted-cons :
        (s : RecoveryStrategy) (e : JournalEntry) (es : List JournalEntry)
        → noted s (e ∷ []) ++ noted s es ≡ noted s (e ∷ es)
    noted-cons automatic e es = refl
    noted-cons manual e es = refl
    noted-cons best_effort e es = refl

    noted-nil : (s : RecoveryStrategy) → noted s [] ≡ []
    noted-nil automatic = refl
    noted-nil manual = refl
    noted-nil best_effort = refl

    -- What the rest of the loop leaves, in a strategy that goes on.
    record GoesOn (s : RecoveryStrategy) (es : List JournalEntry) (p : Progress W) : Type 0 where
      left : Progress W
      runs : recover_loop sha256 apply config es p ≡ go_on left
      world : left.world ≡ p.world
      entries : left.journal.entries ≡ p.journal.entries
      count : left.result.entries_corrupt ≡ p.result.entries_corrupt + length es
      errors : left.result.errors ≡ p.result.errors ++ noted s es

    recover_loop-GoesOn :
        (s : RecoveryStrategy) (es : List JournalEntry) (p : Progress W)
        → config.strategy ≡ s
        → ¬ (s ≡ automatic)
        → IsCorrupt p.journal
        → GoesOn s es p
    unfolding recover_loop
    recover_loop-GoesOn s [] p same on corrupt = record {
      left = p;
      runs = refl;
      world = refl;
      entries = refl;
      count = omega arith;
      errors = sym (ap (λ l. p.result.errors ++ l) (noted-nil s) ∙ append-nil p.result.errors);
    }
    recover_loop-GoesOn s (e ∷ es) p same on corrupt =
        let p' = record (checked p) { result = counted s e p.result } in
        let (fails, corrupt', entries) = verify_integrity-IsCorrupt p.journal corrupt in
        let entered : recover_entry sha256 apply config e p ≡ go_on p' =
          recover_entry-IsCorrupt e p corrupt ∙ corrupt_entry_goes_on s e (checked p) same on in
        let rest = recover_loop-GoesOn s es p' same on corrupt' in
        record {
          left = rest.left;
          runs = rw (entered, recover_loop) rest.runs;
          world = rest.world;
          entries = rest.entries ∙ entries;
          count = rest.count ∙ omega arith;
          errors =
              rest.errors
              ∙ append_assoc p.result.errors (noted s (e ∷ [])) (noted s es)
              ∙ ap (λ l. p.result.errors ++ l) (noted-cons s e es);
        }

    start_corrupt :
        (j : JournalManager) (w : W)
        → (start_progress sha256 apply config j w).result.entries_corrupt ≡ 0
    unfolding start_progress analyze
    start_corrupt j w = ground arith

    abbrev Concludes : RecoveryStrategy → JournalManager → W → Progress W → Type 0
    Concludes s journal w r =
        (r.world ≡ w) × (r.journal.entries ≡ journal.entries) × Reports s journal.entries r.result

    recover_loop-stops :
        (es : List JournalEntry) (p : Progress W)
        → config.strategy ≡ automatic
        → IsCorrupt p.journal
        → ¬ (es ≡ [])
        → recover_loop sha256 apply config es p
          ≡ stop (record (checked p) {
            result = record p.result {
              entries_corrupt = p.result.entries_corrupt + 1;
              success = false;
            };
          })
    unfolding recover_loop corrupt_entry
    recover_loop-stops [] p same corrupt some_entry = absurd (some_entry refl)
    recover_loop-stops (e ∷ es) p same corrupt some_entry =
        let stopped : recover_entry sha256 apply config e p
            ≡ stop (record (checked p) {
              result = record p.result {
                entries_corrupt = p.result.entries_corrupt + 1;
                success = false;
              };
            }) =
          rw (recover_entry-IsCorrupt e p corrupt, same) refl in
        rw (stopped, recover_loop) refl

    recover-goes_on :
        (s : RecoveryStrategy) (journal : JournalManager) (w : W)
        → config.strategy ≡ s
        → ¬ (s ≡ automatic)
        → IsCorrupt journal
        → let r = recover sha256 apply config journal w in
          (r.world ≡ w)
          × (r.journal.entries ≡ journal.entries)
          × (r.result.success ≡ true)
          × (r.result.entries_corrupt ≡ length journal.entries)
          × (r.result.errors ≡ noted s journal.entries)
    unfolding recover finish start_progress
    recover-goes_on automatic journal w same on corrupt = absurd (on refl)
    recover-goes_on manual journal w same on corrupt =
        let start = start_progress sha256 apply config journal w in
        let rest = recover_loop-GoesOn manual journal.entries start same on corrupt in
        rw (rest.runs, recover, same)
          (
            rest.world,
            rest.entries,
            refl,
            rest.count ∙ omega (arith, start_corrupt journal w),
            rest.errors,
          )
    recover-goes_on best_effort journal w same on corrupt =
        let start = start_progress sha256 apply config journal w in
        let rest = recover_loop-GoesOn best_effort journal.entries start same on corrupt in
        rw (rest.runs, recover, same)
          (
            rest.world,
            rest.entries,
            refl,
            rest.count ∙ omega (arith, start_corrupt journal w),
            rest.errors,
          )

    concluded :
        (s : RecoveryStrategy) (journal : JournalManager) (w : W)
        → config.strategy ≡ s
        → IsCorrupt journal
        → Concludes s journal w (recover sha256 apply config journal w)
    unfolding recover Reports start_progress
    concluded automatic journal w same corrupt =
        let start = start_progress sha256 apply config journal w in
        let stops =
          recover_loop-stops journal.entries start same corrupt
            (λ empty. corrupt.entries (subst (All IsZeroSum) (sym empty) tt)) in
        rw (stops, recover)
          (
            refl,
            (verify_integrity-IsCorrupt journal corrupt).2,
            (refl, omega (arith, start_corrupt journal w), refl),
          )
    concluded manual journal w same corrupt =
        let (world, entries, success, count, errors) =
          recover-goes_on manual journal w same (λ e. cc e) corrupt in
        (world, entries, (success, count, errors))
    concluded best_effort journal w same corrupt =
        let (world, entries, success, count, errors) =
          recover-goes_on best_effort journal w same (λ e. cc e) corrupt in
        (world, entries, (success, count, errors))

    -- With validation, a journal in which some checksum is not zero, and whose engine is the one that
    -- the constructor makes, is not replayed, whatever the strategy: the caller's function is not
    -- called, and the entries stay. The automatic strategy fails, with one corrupt entry counted; the
    -- other two count every entry as corrupt and report success, the manual one with an error for each
    -- entry and the other with none.
    pub recover_corrupt :
        (journal : JournalManager) (w : W)
        → IsCorrupt journal
        → let r = recover sha256 apply config journal w in
          (r.world ≡ w)
          × (r.journal.entries ≡ journal.entries)
          × Reports config.strategy journal.entries r.result
    recover_corrupt journal w corrupt = concluded config.strategy journal w refl corrupt
