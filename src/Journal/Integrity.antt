-- ===== src/Journal/Integrity.antt =====
-- `verifyIntegrity` with the engine that the constructor makes.
use nebula_fs.Common.{
  ℕ, ◌≡◌, refl, Bool, true, List, [], ◌∷◌, none, ◌↔◌, list_eq→eq, list_eq_refl, All, arith,
}
use nebula_fs.Checksum
use nebula_fs.Checksum.{ChecksumEngine, crc32, zero_hash, finalize}
use nebula_fs.Journal.Entry.{JournalEntry, JournalConfig}
use nebula_fs.Journal.Manager.{JournalManager, new, feed_entry, verify_loop, verify_integrity}

-- The engine of the constructor: CRC32, for which `initContext` makes no context.
abbrev pub IsInert : ChecksumEngine → Type 0
IsInert e = (e.algo ≡ crc32) × (e.ctx ≡ none)

new-IsInert : (c : JournalConfig) (opened : Bool) → IsInert (new c opened).checksum
unfolding new Checksum.new
new-IsInert c opened = (refl, refl)

pub feed_entry-IsInert :
    (e : JournalEntry) (engine : ChecksumEngine) → IsInert engine → IsInert (feed_entry e engine)
unfolding feed_entry Checksum.reset Checksum.update
feed_entry-IsInert e engine h = ground arith

abbrev pub IsZeroSum : JournalEntry → Type 0
IsZeroSum e = e.checksum ≡ zero_hash

module _ (sha256 : List ℕ → List ℕ) where
  verify_loop-inert :
      (es : List JournalEntry) (engine : ChecksumEngine)
      → IsInert engine
      → ((verify_loop sha256 es engine).0 ≡ true) ↔ All IsZeroSum es
  unfolding verify_loop finalize
  verify_loop-inert [] engine h = ((λ e. tt), (λ t. refl))
  verify_loop-inert (e ∷ es) engine h =
      let fed = feed_entry-IsInert e engine h in
      let none_left : finalize sha256 (feed_entry e engine) ≡ zero_hash = ground (arith, fed.1) in
      ground (
        arith,
        fed.1,
        list_eq→eq zero_hash e.checksum,
        list_eq_refl zero_hash,
        verify_loop-inert es (feed_entry e engine) fed,
      )

  -- Journals check nothing: with the engine of the constructor, `verifyIntegrity` holds exactly if
  -- all checksums are zero, whatever the types, numbers and data of the entries are.
  pub verify_integrity_inert :
      (j : JournalManager)
      → IsInert j.checksum
      → ((verify_integrity sha256 j).0 ≡ true) ↔ All IsZeroSum j.entries
  unfolding verify_integrity
  verify_integrity_inert j h = verify_loop-inert j.entries j.checksum h
