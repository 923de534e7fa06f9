-- ===== src/Recovery/Replay.antt =====
-- What `recover` applies, and what it leaves alone.
use nebula_fs.Common.{
  ℕ, ◌≡◌, refl, sym, ap, ◌∙◌, Bool, true, false, ◌&&◌, inl, inr, Bool-cases, List, [], ◌∷◌, ◌++◌,
  if◌then◌else◌, arith,
}
use nebula_fs.Journal.Entry.{JournalEntry}
use nebula_fs.Journal.Manager
use nebula_fs.Journal.Manager.{JournalManager, verify_integrity, verify_loop}
use nebula_fs.Recovery.{
  RecoveryStrategy, RecoveryConfig, Progress, go_on, Mark, opens, closes, plain, mark_of, refused,
  replayed, apply_entry, sound_entry, finds_corruption, recover_entry, recover_loop, finish,
  start_progress, recover,
}

-- The last of the entries that open or close a checkpoint; `closes` if there is none.
abbrev last_mark : Mark → List JournalEntry → Mark
last_mark m [] = m
last_mark m (e ∷ es) = elim (mark_of e.type) [
  | opens ↦ last_mark opens es
  | closes ↦ last_mark closes es
  | plain ↦ last_mark m es
]

abbrev is_open : Mark → Bool
is_open opens = true
is_open closes = false
is_open plain = false

abbrev is_plain : Mark → Bool
is_plain opens = false
is_plain closes = false
is_plain plain = true

-- The operations inside checkpoints: those behind which, in the entries `done` before them, a begin
-- was the last mark.
pub operations : List JournalEntry → List JournalEntry → List JournalEntry
operations done [] = []
operations done (e ∷ es) =
    let rest = operations (done ++ e ∷ []) es in
    if is_plain (mark_of e.type)
    then (if is_open (last_mark closes done) then e ∷ rest else rest)
    else rest

module _ {ℓ} {W : Type ℓ} (apply : JournalEntry → W → Bool × W) where
  -- The caller's function on each of the entries in order.
  pub apply_all : List JournalEntry → W → W
  apply_all [] w = w
  apply_all (e ∷ es) w = apply_all es (apply e w).1

last_mark-append :
    (m : Mark) (es : List JournalEntry) (e : JournalEntry)
    → last_mark m (es ++ e ∷ [])
      ≡ elim (mark_of e.type) [ opens ↦ opens | closes ↦ closes | plain ↦ last_mark m es ]
last_mark-append m [] e = ground arith
last_mark-append m (x ∷ es) e =
    elim (mark_of x.type)
      as (λ k.
        elim k [
          | opens ↦ last_mark opens (es ++ e ∷ [])
          | closes ↦ last_mark closes (es ++ e ∷ [])
          | plain ↦ last_mark m (es ++ e ∷ [])
        ]
        ≡ elim (mark_of e.type) [
          | opens ↦ opens
          | closes ↦ closes
          | plain ↦ (elim k [
            | opens ↦ last_mark opens es
            | closes ↦ last_mark closes es
            | plain ↦ last_mark m es
          ])
        ]) [
          | opens ↦ last_mark-append opens es e
          | closes ↦ last_mark-append closes es e
          | plain ↦ last_mark-append m es e
        ]

mark_flag :
    (m l : Mark) (b : Bool)
    → b ≡ is_open l
    → elim m [ opens ↦ true | closes ↦ false | plain ↦ b ]
      ≡ is_open (elim m [ opens ↦ opens | closes ↦ closes | plain ↦ l ])
mark_flag opens l b h = refl
mark_flag closes l b h = refl
mark_flag plain l b h = h

module _ {W : Type 0} (sha256 : List ℕ → List ℕ) (apply : JournalEntry → W → Bool × W)
    (config : RecoveryConfig) where
  -- What `p` becomes by an entry that calls the caller's function, or does not.
  abbrev Follows : JournalEntry → Bool → Bool → Progress W → Progress W → Type 0
  Follows e active called p q =
      (q.in_active_transaction ≡ active)
      × (q.world ≡ (if called then (apply e p.world).1 else p.world))
      × (q.journal ≡ p.journal)

  apply_entry_step :
      (e : JournalEntry) (p : Progress W)
      → Follows e p.in_active_transaction true p (apply_entry sha256 apply config e p)
  unfolding apply_entry refused replayed
  apply_entry_step e p = ground arith

  sound_entry_step :
      (e : JournalEntry) (p : Progress W) (m : Mark)
      → mark_of e.type ≡ m
      → Follows e
          (elim m [ opens ↦ true | closes ↦ false | plain ↦ p.in_active_transaction ])
          (is_plain m && p.in_active_transaction)
          p
          (sound_entry sha256 apply config e p)
  unfolding sound_entry replayed
  sound_entry_step e p opens h = rw (h, sound_entry) (refl, refl, refl)
  sound_entry_step e p closes h = rw (h, sound_entry) (refl, refl, refl)
  sound_entry_step e p plain h = ground (arith, h, apply_entry_step e p)

  apply_all-operations :
      (done es : List JournalEntry) (e : JournalEntry) (w : W)
      → apply_all apply (operations done (e ∷ es)) w
        ≡ apply_all apply (operations (done ++ e ∷ []) es) (
            if is_plain (mark_of e.type) && is_open (last_mark closes done)
            then (apply e w).1
            else w)
  unfolding operations apply_all
  apply_all-operations done es e w = elim (Bool-cases (is_plain (mark_of e.type))) [
    | inr no_op ↦ rw (no_op, operations) refl
    | inl op ↦ elim (Bool-cases (is_open (last_mark closes done))) [
      | inr closed ↦ rw (op, closed, operations) refl
      | inl opened ↦ rw (op, opened, operations) refl
    ]
  ]

  module _ (unchecked : config.validate_checksums ≡ false) where
    recover_entry_sound :
        (e : JournalEntry) (p : Progress W)
        → recover_entry sha256 apply config e p ≡ go_on (sound_entry sha256 apply config e p)
    unfolding recover_entry finds_corruption
    recover_entry_sound e p = rw unchecked

    recover_loop_runs :
        (es done : List JournalEntry) (p : Progress W)
        → p.in_active_transaction ≡ is_open (last_mark closes done)
        → (q : Progress W) × (recover_loop sha256 apply config es p ≡ go_on q)
          × (q.world ≡ apply_all apply (operations done es) p.world)
          × (q.journal ≡ p.journal)
    unfolding recover_loop
    recover_loop_runs [] done p h = (p, refl, unfold operations apply_all in refl, refl)
    recover_loop_runs (e ∷ es) done p h =
        let p' : Progress W = sound_entry sha256 apply config e p in
        let (active, world, journal) = sound_entry_step e p (mark_of e.type) refl in
        let h' : p'.in_active_transaction ≡ is_open (last_mark closes (done ++ e ∷ [])) =
          active
          ∙ mark_flag (mark_of e.type) (last_mark closes done) p.in_active_transaction h
          ∙ ap is_open (sym (last_mark-append closes done e)) in
        let called : Bool → W =
          λ b. if is_plain (mark_of e.type) && b then (apply e p.world).1 else p.world in
        let (q, run, w, j) = recover_loop_runs es (done ++ e ∷ []) p' h' in
        (
          q,
          rw (recover_entry_sound e p, recover_loop) run,
          w
              ∙ ap (apply_all apply (operations (done ++ e ∷ []) es)) (world ∙ ap called h)
              ∙ sym (apply_all-operations done es e p.world),
          j ∙ journal,
        )

    -- Without validation, and in every strategy, the manual one too, `recover` succeeds and calls the
    -- caller's function exactly on the operations inside checkpoints, in order, whatever it answers; the
    -- journal is cleared by the automatic strategy, and by no other.
    pub recover_applies :
        (journal : JournalManager) (w : W)
        → let r = recover sha256 apply config journal w in
          (r.result.success ≡ true)
          × (r.world ≡ apply_all apply (operations [] journal.entries) w)
          × (r.journal ≡ elim config.strategy [
            | RecoveryStrategy.automatic ↦ Manager.clear journal
            | _ ↦ journal
          ])
    unfolding recover finish
    recover_applies journal w =
        let start : Progress W = start_progress sha256 apply config journal w in
        let (q, run, world, j) = recover_loop_runs journal.entries [] start refl in
        rw (run, recover)
          (
            refl,
            world,
            ap
                (λ (k : JournalManager).
                  let r : JournalManager = elim config.strategy [
                    | RecoveryStrategy.automatic ↦ Manager.clear k
                    | _ ↦ k
                  ] in
                  r)
                j,
          )
