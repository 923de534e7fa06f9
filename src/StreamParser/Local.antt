-- ===== src/StreamParser/Local.antt =====
-- What one round of the loop of src/parser/StreamParser.cpp does with more bytes behind the buffer.
use nebula_fs.Common.{
  ℕ, zero, suc, ◌≤◌, ◌<◌, ◌≡◌, refl, ap, ◌∙◌, false, Bool-cases, inl, inr, Option, none, some, List,
  ◌++◌, ltb, ltb-false, ltb→lt, length, take, length-append, take-append_within, drop-append_within,
  arith,
}
use nebula_fs.Archive.Header.{ArchiveHeader, HeaderError, header_size, parse}
use nebula_fs.Archive.Header.Stored.{parse-append}
use nebula_fs.StreamParser.{
  ParserState, init, header, metadata, directory_tree, index_table, chunk_table, compressed_blocks,
  object_recon, complete, error, code, ErrorCode, corrupt_header, ParseError, to_parse_error,
  Escape, escape_of, flight, given_or, Sections, StreamParser, Consumed, consumed, failed, escaped,
  blank_header, leave, leave_read, pass, warn, ended, read_metadata, read_directory, read_index,
  read_chunks, read_blocks, take_header, process_header, process_metadata, process_directory_tree,
  process_index_table, process_chunk_table, process_compressed_blocks, finalize, process,
}
use nebula_fs.StreamParser.Rounds.{pass_empty, pass_short, pass_read}

-- A reader of the metadata that looks at the bytes of its section alone.
abbrev pub IsLocal : {M D I C : Type 0} → Sections M D I C → Type 0
IsLocal sections =
    (bytes more : List ℕ) (size : ℕ)
    → size ≤ length bytes
    → sections.parse_metadata (bytes ++ more) size ≡ sections.parse_metadata bytes size

module _ {M D I C : Type 0} where
  -- More bytes behind the buffer.
  abbrev pub extend : List ℕ → StreamParser M D I C → StreamParser M D I C
  extend more p = record p { buffer = p.buffer ++ more }

  -- What is done at p, and what is done at p with more bytes, unless a reader escapes.
  pub data LocalRound (p : StreamParser M D I C) (now : StreamParser M D I C × Consumed)
      (with_more : List ℕ → StreamParser M D I C × Consumed) : Type 0 where
    waits : now ≡ (p, consumed 0) → LocalRound p now with_more
    goes :
        (n : ℕ) (q : StreamParser M D I C)
        → now ≡ (q, consumed n)
        → code p.state < code q.state
        → code q.state ≤ 8
        → ((more : List ℕ) → with_more more ≡ (extend more q, consumed n))
        → LocalRound p now with_more
    fails :
        (e : ParseError)
        → now ≡ (p, failed e)
        → ((more : List ℕ) → with_more more ≡ (extend more p, failed e))
        → LocalRound p now with_more
    leaves :
        (e : Escape) (q : StreamParser M D I C) → now ≡ (q, escaped e) → LocalRound p now with_more

  along :
      {p : StreamParser M D I C} {now now' : StreamParser M D I C × Consumed}
      {with_more with_more' : List ℕ → StreamParser M D I C × Consumed}
      → now' ≡ now
      → ((more : List ℕ) → with_more' more ≡ with_more more)
      → LocalRound p now with_more
      → LocalRound p now' with_more'
  along same same_more (waits e) = waits (same ∙ e)
  along same same_more (goes n q e later last more) =
      goes n q (same ∙ e) later last (λ m. same_more m ∙ more m)
  along same same_more (fails e is more) = fails e (same ∙ is) (λ m. same_more m ∙ more m)
  along same same_more (leaves e q is) = leaves e q (same ∙ is)

  leave-extend :
      (size : ℕ) (next : ParserState) (l : StreamParser M D I C) (more : List ℕ)
      → size ≤ length l.buffer
      → leave size next (extend more l) ≡ extend more (leave size next l)
  leave-extend size next l more enough =
      ap (λ b. record (leave size next l) { buffer = b })
        (drop-append_within size l.buffer more enough)

  read-LocalRound :
      (size : ℕ) (next : ParserState) (p : StreamParser M D I C)
      (l : StreamParser M D I C × Option Escape)
      (l' : List ℕ → StreamParser M D I C × Option Escape)
      → code p.state < code next
      → code next ≤ 8
      → size ≤ length l.0.buffer
      → ((more : List ℕ) → l' more ≡ (extend more l.0, l.1))
      → LocalRound p (leave_read size next l) (λ more. leave_read size next (l' more))
  unfolding leave_read
  read-LocalRound size next p (l, none) l' later last enough same =
      goes size (leave size next l) refl later last (λ more.
        ap (leave_read size next) (same more)
        ∙ ap (λ q. (q, consumed size)) (leave-extend size next l more enough))
  read-LocalRound size next p (l, some e) l' later last enough same = leaves e l refl

  -- A section whose reader looks at its bytes alone, and does not change the buffer.
  pass-LocalRound :
      (size : ℕ) (next : ParserState)
      (load : StreamParser M D I C → StreamParser M D I C × Option Escape)
      (p : StreamParser M D I C)
      → code p.state < code next
      → code next ≤ 8
      → (load p).0.buffer ≡ p.buffer
      → ((more : List ℕ)
          → size ≤ length p.buffer
          → load (extend more p) ≡ (extend more (load p).0, (load p).1))
      → LocalRound p
          (pass size next (load p) p)
          (λ more. pass size next (load (extend more p)) (extend more p))
  pass-LocalRound zero next load p later last same local =
      goes 0 (record p { state = next }) (pass_empty next 0 (load p) p refl) later last
        (λ more. pass_empty next 0 (load (extend more p)) (extend more p) refl)
  pass-LocalRound (suc size) next load p later last same local =
      elim (Bool-cases (ltb (length p.buffer) (suc size))) [
        | inl short ↦
            waits
              (pass_short next (suc size) (load p) p (ltb→lt (length p.buffer) (suc size) short))
        | inr enough ↦
            let there : suc size ≤ length p.buffer = ground arith in
            along (pass_read next size (load p) p there)
              (λ more.
                pass_read next size (load (extend more p)) (extend more p)
                  (omega (arith, length-append p.buffer more)))
              (read-LocalRound (suc size) next p (load p) (λ more. load (extend more p)) later last
                (rw same there) (λ more. local more there))
      ]

  suffix :
      (size : ℕ) (p : StreamParser M D I C) (more : List ℕ)
      → size ≤ length p.buffer
      → take size (p.buffer ++ more) ≡ take size p.buffer
  suffix size p more enough = take-append_within size p.buffer more enough

module _ {M D I C : Type 0} (crc32 : List ℕ → ℕ) (sections : Sections M D I C) where
  take_header-LocalRound :
      (p : StreamParser M D I C) (found : ArchiveHeader) (e : Option HeaderError)
      → code p.state ≤ 1
      → header_size ≤ length p.buffer
      → LocalRound p
          (take_header crc32 sections p found e)
          (λ more. take_header crc32 sections (extend more p) found e)
  unfolding take_header
  take_header-LocalRound p found (some e) early enough =
      fails (to_parse_error corrupt_header header 0) refl (λ more. refl)
  take_header-LocalRound p found none early enough =
      let read = record p {
        result = record p.result { header = found };
        expected_size = found.archive_size;
      } in
      goes header_size (leave header_size metadata read) refl (omega arith) (omega arith) (λ more.
        ap (λ q. (q, consumed header_size)) (leave-extend header_size metadata read more enough))

  header-LocalRound :
      (p : StreamParser M D I C)
      → code p.state ≤ 1
      → LocalRound p
          (process_header crc32 sections p)
          (λ more. process_header crc32 sections (extend more p))
  unfolding process_header
  header-LocalRound p early = elim (Bool-cases (ltb (length p.buffer) header_size)) [
    | inl short ↦ waits (rw short)
    | inr enough ↦
        let there : header_size ≤ length p.buffer = ground arith in
        let parsed = parse crc32 p.buffer blank_header in
        along (rw enough)
          (λ more.
            rw
              (ltb-false (length (p.buffer ++ more)) header_size
                (omega (arith, length-append p.buffer more)))
              (ap (λ d. take_header crc32 sections (extend more p) d.0 d.1)
                (parse-append crc32 p.buffer more blank_header there)))
          (take_header-LocalRound p parsed.0 parsed.1 early there)
  ]

  -- Every state that the loop goes on in.
  pub process-LocalRound :
      IsLocal sections
      → (s : ParserState) (p : StreamParser M D I C) → p.state ≡ s
      → ended p ≡ false
      → LocalRound p (process crc32 sections s p) (λ more. process crc32 sections s (extend more p))
  unfolding process process_metadata process_directory_tree process_index_table process_chunk_table
      process_compressed_blocks finalize
  process-LocalRound local init p here on = header-LocalRound p (rw here (omega arith))
  process-LocalRound local header p here on = header-LocalRound p (rw here (omega arith))
  process-LocalRound local metadata p here on =
      pass-LocalRound p.result.header.metadata_size directory_tree (read_metadata crc32 sections) p
        (rw here (omega arith)) (omega arith) refl
        (λ more enough.
          ap
            (λ m. (
              record (extend more p) {
                result = record p.result { metadata = given_or m p.result.metadata };
              },
              escape_of m,
            ))
            (local p.buffer more p.result.header.metadata_size enough))
  process-LocalRound local directory_tree p here on =
      pass-LocalRound p.result.header.directory_size index_table (read_directory crc32 sections) p
        (rw here (omega arith)) (omega arith) refl
        (λ more enough.
          ap
            (λ b.
              let read = sections.load_directory b p.result.directory_tree in
              (
                record (extend more p) {
                  result = record p.result { directory_tree = read.0 };
                  warnings = warn read.1 ErrorCode.corrupt_directory ParserState.directory_tree p;
                },
                flight read.1,
              ))
            (suffix p.result.header.directory_size p more enough))
  process-LocalRound local index_table p here on =
      pass-LocalRound p.result.header.index_size chunk_table (read_index crc32 sections) p
        (rw here (omega arith)) (omega arith) refl
        (λ more enough.
          ap
            (λ b.
              let read = sections.load_index b p.result.index_manager in
              (
                record (extend more p) {
                  result = record p.result { index_manager = read.0 };
                  warnings = warn read.1 ErrorCode.corrupt_index ParserState.index_table p;
                },
                flight read.1,
              ))
            (suffix p.result.header.index_size p more enough))
  process-LocalRound local chunk_table p here on =
      pass-LocalRound p.result.header.chunk_size compressed_blocks (read_chunks crc32 sections) p
        (rw here (omega arith)) (omega arith) refl
        (λ more enough.
          ap
            (λ b.
              let read = sections.load_chunks b p.result.chunk_manager in
              (
                record (extend more p) {
                  result = record p.result { chunk_manager = read.0 };
                  warnings = warn read.1 ErrorCode.corrupt_chunk_table ParserState.chunk_table p;
                },
                flight read.1,
              ))
            (suffix p.result.header.chunk_size p more enough))
  process-LocalRound local compressed_blocks p here on =
      pass-LocalRound p.result.header.blocks_size object_recon (read_blocks crc32 sections) p
        (rw here (omega arith)) (omega arith) refl
        (λ more enough.
          ap (λ b. (record (extend more p) { result = record p.result { blocks_data = b } }, none))
            (suffix p.result.header.blocks_size p more enough))
  process-LocalRound local object_recon p here on =
      goes 0 _ refl (rw here (omega arith)) (omega arith) (λ more. refl)
  process-LocalRound local complete p here on = cc (rw here at on)
  process-LocalRound local error p here on = cc (rw here at on)
