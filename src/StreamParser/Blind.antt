-- ===== src/StreamParser/Blind.antt =====
-- What src/parser/StreamParser.cpp does does not depend on the metadata that it has read.
use nebula_fs.Common.{
  ℕ, zero, suc, ◌+◌, ◌%◌, ◌^◌, ◌≡◌, refl, sym, ap, true, false, Bool-cases, ◌&&◌, inl, inr, Option,
  none, some, List, ltb, ◌==◌, length,
}
use mathlib.Core.Option
use mathlib.Core.Path.{subst}
use nebula_fs.Archive.Header.{ArchiveHeader, HeaderError, header_size, parse}
use nebula_fs.StreamParser.{
  ParserState, init, header, metadata, directory_tree, index_table, chunk_table, compressed_blocks,
  object_recon, complete, error, code, corrupt_metadata, denies, to_parse_error, Escape, Sections,
  StreamParser, Consumed, consumed, failed, escaped, ended, leave_read, pass, read_metadata,
  read_directory, read_index, read_chunks, read_blocks, blank_header, take_header, process_header,
  process_metadata, process_directory_tree, process_index_table, process_chunk_table,
  process_compressed_blocks, finalize, process, after_round, loop,
}
use nebula_fs.StreamParser.Local.{IsLocal}

-- Two results that are the same.
pub same_pair {ℓ} : {A : Type ℓ} {t u : A} → some t ≡ some u → t ≡ u
same_pair {t = t} e = ap (λ o. Option.get_or o t) e

-- A call or a round that no reader escapes from.
abbrev pub Returned : Consumed → Type 0
Returned (consumed n) = Unit
Returned (failed e) = Unit
Returned (escaped e) = true ≡ false

module _ {M D I C : Type 0} (crc32 : List ℕ → ℕ) (sections : Sections M D I C) where
  -- The parser without the metadata.
  abbrev pub blind : StreamParser M D I C → StreamParser M D I C
  blind p = record p { result = record p.result { metadata = sections.no_metadata } }

  -- The same readers, but no metadata is read.
  abbrev pub unread : Sections M D I C
  unread = record sections {
    parse_metadata = λ bytes size. denies (to_parse_error corrupt_metadata metadata 0);
  }

  pub unread-IsLocal : IsLocal unread
  unread-IsLocal bytes more size enough = refl

  abbrev pub outcome : StreamParser M D I C × Consumed → StreamParser M D I C × Consumed
  outcome done = (blind done.0, done.1)

  pass-blind :
      (size : ℕ) (next : ParserState) (l : StreamParser M D I C × Option Escape)
      (p : StreamParser M D I C)
      → pass size next (blind l.0, l.1) (blind p) ≡ outcome (pass size next l p)
  unfolding pass leave_read
  pass-blind size next (l, none) p = elim (Bool-cases (size == 0)) [
    | inl empty ↦ rw empty refl
    | inr some_bytes ↦ elim (Bool-cases (ltb (length p.buffer) size)) [
      | inl short ↦ rw (some_bytes, short) refl
      | inr enough ↦ rw (some_bytes, enough) refl
    ]
  ]
  pass-blind size next (l, some e) p = elim (Bool-cases (size == 0)) [
    | inl empty ↦ rw empty refl
    | inr some_bytes ↦ elim (Bool-cases (ltb (length p.buffer) size)) [
      | inl short ↦ rw (some_bytes, short) refl
      | inr enough ↦ rw (some_bytes, enough) refl
    ]
  ]

  -- The metadata's reader may escape where the blind one does not.
  pass-calm :
      (size : ℕ) (next : ParserState) (l : StreamParser M D I C) (o : Option Escape)
      (p : StreamParser M D I C)
      → Returned (pass size next (l, o) p).1
      → pass size next (blind l, none) (blind p) ≡ outcome (pass size next (l, o) p)
  unfolding pass leave_read
  pass-calm size next l none p returned = pass-blind size next (l, none) p
  pass-calm size next l (some e) p returned = elim (Bool-cases (size == 0)) [
    | inl empty ↦ rw empty refl
    | inr some_bytes ↦ elim (Bool-cases (ltb (length p.buffer) size)) [
      | inl short ↦ rw (some_bytes, short) refl
      | inr enough ↦ absurd (cc (rw (some_bytes, enough) at returned))
    ]
  ]

  take_header-blind :
      (p : StreamParser M D I C) (found : ArchiveHeader) (e : Option HeaderError)
      → take_header crc32 unread (blind p) found e ≡ outcome (take_header crc32 sections p found e)
  unfolding take_header
  take_header-blind p found none = refl
  take_header-blind p found (some e) = refl

  header-blind :
      (p : StreamParser M D I C)
      → process_header crc32 unread (blind p) ≡ outcome (process_header crc32 sections p)
  unfolding process_header
  header-blind p = elim (Bool-cases (ltb (length p.buffer) header_size)) [
    | inl short ↦ rw short
    | inr enough ↦
        let parsed = parse crc32 p.buffer blank_header in
        rw enough (take_header-blind p parsed.0 parsed.1)
  ]

  pub process-blind :
      (s : ParserState) (p : StreamParser M D I C)
      → Returned (process crc32 sections s p).1
      → process crc32 unread s (blind p) ≡ outcome (process crc32 sections s p)
  unfolding process process_metadata process_directory_tree process_index_table process_chunk_table
      process_compressed_blocks finalize
  process-blind init p returned = header-blind p
  process-blind header p returned = header-blind p
  process-blind metadata p returned =
      let l = read_metadata crc32 sections p in
      pass-calm p.result.header.metadata_size directory_tree l.0 l.1 p returned
  process-blind directory_tree p returned =
      pass-blind p.result.header.directory_size index_table (read_directory crc32 sections p) p
  process-blind index_table p returned =
      pass-blind p.result.header.index_size chunk_table (read_index crc32 sections p) p
  process-blind chunk_table p returned =
      pass-blind p.result.header.chunk_size compressed_blocks (read_chunks crc32 sections p) p
  process-blind compressed_blocks p returned =
      pass-blind p.result.header.blocks_size object_recon (read_blocks crc32 sections p) p
  process-blind object_recon p returned = refl
  process-blind complete p returned = refl
  process-blind error p returned = refl

  after_round-Returned :
      (old p q : StreamParser M D I C) (c d : Consumed) (total : ℕ)
      (again : ℕ → StreamParser M D I C → Option (StreamParser M D I C × Consumed))
      → after_round crc32 sections old p d total again ≡ some (q, c)
      → Returned c
      → Returned d
  unfolding after_round
  after_round-Returned old p q c (consumed n) total again is returned = tt
  after_round-Returned old p q c (failed e) total again is returned = tt
  after_round-Returned old p q c (escaped e) total again is returned =
      subst Returned (sym (ap (λ t. t.1) (same_pair is))) returned

  after_round-blind :
      (old p q : StreamParser M D I C) (c d : Consumed) (total : ℕ)
      (again again' : ℕ → StreamParser M D I C → Option (StreamParser M D I C × Consumed))
      → ((sum : ℕ) (r : StreamParser M D I C)
          → again sum r ≡ some (q, c)
          → again' sum (blind r) ≡ some (blind q, c))
      → after_round crc32 sections old p d total again ≡ some (q, c)
      → after_round crc32 unread (blind old) (blind p) d total again' ≡ some (blind q, c)
  unfolding after_round
  after_round-blind old p q c (failed e) total again again' same is =
      ap (λ t. some (outcome t)) (same_pair is)
  after_round-blind old p q c (escaped e) total again again' same is =
      ap (λ t. some (outcome t)) (same_pair is)
  after_round-blind old p q c (consumed n) total again again' same is =
      elim (Bool-cases ((n == 0) && (code old.state == code p.state))) [
        | inl still ↦ rw still (ap (λ t. some (outcome t)) (same_pair (rw still at is)))
        | inr moved ↦ rw moved (same ((total + n) % 2 ^ 64) p (rw moved at is))
      ]

  pub loop-blind :
      (fuel total : ℕ) (p q : StreamParser M D I C) (c : Consumed)
      → Returned c
      → loop crc32 sections fuel total p ≡ some (q, c)
      → loop crc32 unread fuel total (blind p) ≡ some (blind q, c)
  unfolding loop
  loop-blind zero total p q c returned is = absurd (cc is)
  loop-blind (suc fuel) total p q c returned is = elim (Bool-cases (ended p)) [
    | inl off ↦ rw off (ap (λ t. some (outcome t)) (same_pair (rw off at is)))
    | inr on ↦
        let done = process crc32 sections p.state p in
        let further : ℕ → StreamParser M D I C → Option (StreamParser M D I C × Consumed) =
          λ sum r. loop crc32 sections fuel sum r in
        let is' : after_round crc32 sections p done.0 done.1 total further ≡ some (q, c) =
          rw on at is in
        let calm = after_round-Returned p done.0 q c done.1 total further is' returned in
        rw (on, process-blind p.state p calm)
          (after_round-blind p done.0 q c done.1 total further
            (λ sum r. loop crc32 unread fuel sum r)
            (λ sum r rest. loop-blind fuel sum r q c returned rest) is')
  ]
