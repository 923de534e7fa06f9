-- ===== src/Recovery/Consistency.antt =====
-- The analysis of journals whose checkpoints are well bracketed.
use nebula_fs.Common.{
  ◌≡◌, ◌≢◌, refl, ap, ◌∙◌, Bool, true, false, not, ◌&&◌, ◌||◌, List, [], ◌∷◌, ◌++◌, some,
  Option-cases, append-nil, inl, inr, All, arith,
}
use nebula_fs.Journal.Entry.{JournalEntryType, JournalEntry}
use nebula_fs.Journal.Checkpoints.{next, run_entries}
use nebula_fs.Recovery.{
  ℤ, pos, next_depth, next_commit, plain, mark_of, is_checkpoint_consistent, consistent_loop,
  find_incomplete_transactions, incomplete_loop,
}

-- Whether a commit stands among the entries.
abbrev is_commit : JournalEntryType → Bool
is_commit JournalEntryType.commit = true
is_commit _ = false

abbrev pub has_commit : List JournalEntry → Bool
has_commit [] = false
has_commit (e ∷ es) = is_commit e.type || has_commit es

abbrev pub IsNotAbort : JournalEntry → Type 0
IsNotAbort e = e.type ≢ JournalEntryType.abort

abbrev depth_of : Bool → ℤ
depth_of true = pos 1
depth_of false = pos 0

depth_step :
    (t : JournalEntryType) (open_now : Bool) {open_next : Bool}
    → next open_now t ≡ some open_next
    → t ≢ JournalEntryType.abort
    → next_depth t (depth_of open_now) ≡ depth_of open_next
depth_step JournalEntryType.begin_checkpoint open_now h a = ground arith
depth_step JournalEntryType.abort open_now h a = absurd (a refl)
depth_step _ open_now h a = ground arith

commit_step :
    (t : JournalEntryType) (c : Bool)
    → t ≢ JournalEntryType.abort
    → next_commit t c ≡ (is_commit t || c)
commit_step JournalEntryType.begin_checkpoint c a = refl
commit_step JournalEntryType.abort c a = absurd (a refl)
commit_step _ c a = refl

consistent_loop_run :
    (es : List JournalEntry) (open_now : Bool) (c : Bool) {final : Bool}
    → All IsNotAbort es
    → run_entries open_now es ≡ some final
    → consistent_loop es (depth_of open_now) c ≡ (not final && (has_commit es || c))
unfolding consistent_loop run_entries
consistent_loop_run [] open_now c a h = ground arith
consistent_loop_run (e ∷ es) open_now c {final} a h = elim (Option-cases (next open_now e.type)) [
  | inl n ↦ cc (rw (n, run_entries) at h)
  | inr (o, n) ↦
      rw (depth_step e.type open_now n a.0, commit_step e.type c a.0)
        (consistent_loop_run es o (is_commit e.type || c) a.1 (rw (n, run_entries) at h)
          ∙ ground arith)
]

-- On entries that are well bracketed, none of them an abort, a journal is found consistent exactly if
-- no checkpoint is open at its end and a commit stands in it.
pub is_checkpoint_consistent-run :
    (es : List JournalEntry) (open_now : Bool)
    → All IsNotAbort es
    → run_entries false es ≡ some open_now
    → is_checkpoint_consistent es ≡ (not open_now && has_commit es)
unfolding is_checkpoint_consistent
is_checkpoint_consistent-run es open_now a h = consistent_loop_run es false false a h ∙ ground arith

abbrev pub IsPlain : JournalEntry → Type 0
IsPlain e = mark_of e.type ≡ plain

incomplete_loop_plain :
    (ops rest : List JournalEntry)
    → All IsPlain ops
    → incomplete_loop (ops ++ rest) 1 ≡ ops ++ incomplete_loop rest 1
unfolding incomplete_loop
incomplete_loop_plain [] rest h = refl
incomplete_loop_plain (e ∷ ops) rest h =
    rw (h.0, incomplete_loop) (ap (λ t. e ∷ t) (incomplete_loop_plain ops rest h.1))

-- The operations of a transaction that was begun, ended and committed are reported as incomplete.
pub find_incomplete_transactions_committed :
    (b : JournalEntry) (ops : List JournalEntry) (e c : JournalEntry)
    → b.type ≡ JournalEntryType.begin_checkpoint
    → All IsPlain ops
    → e.type ≡ JournalEntryType.end_checkpoint
    → c.type ≡ JournalEntryType.commit
    → find_incomplete_transactions (b ∷ (ops ++ e ∷ c ∷ [])) ≡ ops
unfolding find_incomplete_transactions incomplete_loop
find_incomplete_transactions_committed b ops e c hb hops he hc =
    rw (hb, incomplete_loop)
      (incomplete_loop_plain ops (e ∷ c ∷ []) hops
        ∙ rw (he, incomplete_loop) (rw (hc, incomplete_loop) (append-nil ops)))
