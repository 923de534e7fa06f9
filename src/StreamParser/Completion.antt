-- ===== src/StreamParser/Completion.antt =====
-- An archive that `StreamParser::feed` is given as a whole.
use nebula_fs.Common.{
  ℕ, zero, suc, ◌+◌, ◌%◌, ◌^◌, ◌≤◌, ◌<◌, ◌≡◌, refl, sym, ap, ◌∙◌, true, false, Option, none, some,
  List, ◌++◌, ltb-false, length, length-append, length-drop, take, drop, drop-append, drop-drop,
  arith,
}
use mathlib.Core.Path.{subst}
use nebula_fs.Archive.Header.{ArchiveHeader, header_size, serialize, is_valid, update_checksum}
use nebula_fs.Archive.Header.Stored.{IsPacked, length-serialize, parse-serialize}
use nebula_fs.StreamParser.{
  ParserState, init, metadata, directory_tree, index_table, chunk_table, compressed_blocks,
  object_recon, complete, code, Escape, escape_of, flight, Sections, StreamParser, Consumed,
  consumed, ended, pass, leave, blank_header, reset, read_metadata, read_directory, read_index,
  read_chunks, read_blocks, take_header, process_header, process_metadata, process_directory_tree,
  process_index_table, process_chunk_table, process_compressed_blocks, finalize, process, loop,
  feed,
}
use nebula_fs.StreamParser.Rounds.{pass_empty, pass_there}
use nebula_fs.StreamParser.Runs.{loop_moves}

-- The sizes of the sections that a header announces.
abbrev pub sections_size : ArchiveHeader → ℕ
sections_size h =
    h.metadata_size + (h.directory_size + (h.index_size + (h.chunk_size + h.blocks_size)))

module _ {M D I C : Type 0} where
  -- A section that is there as a whole is passed, empty or not.
  record Passed (size : ℕ) (next : ParserState) (p : StreamParser M D I C)
      (round : StreamParser M D I C × Consumed) : Type 0 where
    parser : StreamParser M D I C
    count : ℕ
    done : round ≡ (parser, consumed count)
    state : parser.state ≡ next
    header : parser.result.header ≡ p.result.header
    buffer : parser.buffer ≡ drop size p.buffer

  pass-Passed :
      (size : ℕ) (next : ParserState) (l : StreamParser M D I C × Option Escape)
      (p : StreamParser M D I C)
      → l.1 ≡ none
      → l.0.buffer ≡ p.buffer
      → l.0.result.header ≡ p.result.header
      → size ≤ length p.buffer
      → Passed size next p (pass size next l p)
  pass-Passed zero next l p returned same_buffer same_header enough = record {
    parser = record p { state = next };
    count = 0;
    done = pass_empty next 0 l p refl;
    state = refl;
    header = refl;
    buffer = refl;
  }
  pass-Passed (suc size) next l p returned same_buffer same_header enough = record {
    parser = leave (suc size) next l.0;
    count = suc size;
    done = pass_there next size l p returned enough;
    state = refl;
    header = same_header;
    buffer = ap (drop (suc size)) same_buffer;
  }

module _ {M D I C : Type 0} (crc32 : List ℕ → ℕ) (sections : Sections M D I C) where
  -- The parser has read everything: `size` bytes and no more.
  pub record IsComplete (h : ArchiveHeader) (left : List ℕ) (q : StreamParser M D I C)
      : Type 0 where
    pub state : q.state ≡ complete
    pub valid : q.result.valid ≡ true
    pub header : q.result.header ≡ h
    pub buffer : q.buffer ≡ left

  -- The readers return for the sections that the bytes begin with, from the chunk table on.
  abbrev ReturnFromChunks : ArchiveHeader → List ℕ → Type 0
  ReturnFromChunks h bytes =
      (c : C) → flight (sections.load_chunks (take h.chunk_size bytes) c).1 ≡ none

  abbrev ReturnFromIndex : ArchiveHeader → List ℕ → Type 0
  ReturnFromIndex h bytes =
      ((i : I) → flight (sections.load_index (take h.index_size bytes) i).1 ≡ none)
      × ReturnFromChunks h (drop h.index_size bytes)

  abbrev ReturnFromDirectory : ArchiveHeader → List ℕ → Type 0
  ReturnFromDirectory h bytes =
      ((d : D) → flight (sections.load_directory (take h.directory_size bytes) d).1 ≡ none)
      × ReturnFromIndex h (drop h.directory_size bytes)

  -- No reader ends in an exception or in undefined behaviour on the body of an archive: the directory,
  -- the index and the chunk table on their sections, the metadata on the whole body.
  abbrev pub ReturnOn : ArchiveHeader → List ℕ → Type 0
  ReturnOn h bytes =
      (escape_of (sections.parse_metadata bytes h.metadata_size) ≡ none)
      × ReturnFromDirectory h (drop h.metadata_size bytes)

  Completes : ℕ → ℕ → StreamParser M D I C → Type 0
  Completes fuel size p =
      (total : ℕ)
      → (q : StreamParser M D I C) × (c : Consumed) × (loop crc32 sections fuel total p
          ≡ some (q, c))
        × IsComplete p.result.header (drop size p.buffer) q

  section_Completes :
      (fuel size rest : ℕ) (next : ParserState) (p : StreamParser M D I C)
      → ended p ≡ false
      → Passed size next p (process crc32 sections p.state p)
      → code p.state < code next
      → size + rest ≤ length p.buffer
      → ((q : StreamParser M D I C)
          → q.state ≡ next
          → q.result.header ≡ p.result.header
          → q.buffer ≡ drop size p.buffer
          → rest ≤ length q.buffer
          → Completes fuel rest q)
      → Completes (suc fuel) (size + rest) p
  unfolding Completes
  section_Completes fuel size rest next p on passed later enough after total =
      let sum = (total + passed.count) % 2 ^ 64 in
      let there : rest ≤ length passed.parser.buffer =
        subst (λ b. rest ≤ length b) (sym passed.buffer)
          (omega (arith, length-drop size p.buffer)) in
      let further = after passed.parser passed.state passed.header passed.buffer there sum in
      let moved =
        loop_moves crc32 sections fuel total p passed.parser passed.count on passed.done
          (rw passed.state later) in
      (
        further.0,
        further.1,
        moved ∙ further.2,
        subst (λ h. IsComplete h (drop (size + rest) p.buffer) further.0) passed.header
            (subst (λ b. IsComplete passed.parser.result.header b further.0)
              (ap (drop rest) passed.buffer ∙ drop-drop size rest p.buffer) further.3),
      )

  recon_Completes :
      (fuel : ℕ) (p : StreamParser M D I C)
      → p.state ≡ object_recon
      → Completes (suc (suc fuel)) 0 p
  unfolding Completes process finalize loop
  recon_Completes fuel p here total =
      let q = record p {
        result = record p.result { valid = true; warnings = p.warnings };
        state = complete;
      } in
      let done : process crc32 sections p.state p ≡ (q, consumed 0) =
        ap (λ s. process crc32 sections s p) here in
      (
        q,
        consumed ((total + 0) % 2 ^ 64),
        loop_moves crc32 sections (suc fuel) total p q 0 (rw here refl) done
            (rw here (omega arith)),
        record { state = refl; valid = refl; header = refl; buffer = refl },
      )

  -- One section and those behind it.
  stage :
      (fuel size rest : ℕ) (s next : ParserState) (l : StreamParser M D I C × Option Escape)
      (p : StreamParser M D I C)
      → l.1 ≡ none
      → p.state ≡ s
      → ended p ≡ false
      → process crc32 sections s p ≡ pass size next l p
      → l.0.buffer ≡ p.buffer
      → l.0.result.header ≡ p.result.header
      → code s < code next
      → size + rest ≤ length p.buffer
      → ((q : StreamParser M D I C)
          → q.state ≡ next
          → q.result.header ≡ p.result.header
          → q.buffer ≡ drop size p.buffer
          → rest ≤ length q.buffer
          → Completes fuel rest q)
      → Completes (suc fuel) (size + rest) p
  stage fuel size rest s next l p returned here on computes same_buffer same_header later enough =
      section_Completes fuel size rest next p on
        (subst (Passed size next p) (sym (ap (λ t. process crc32 sections t p) here ∙ computes))
          (pass-Passed size next l p returned same_buffer same_header (omega arith)))
        (subst (λ t. code t < code next) (sym here) later) enough

  blocks_Completes :
      (h : ArchiveHeader) (p : StreamParser M D I C)
      → p.state ≡ compressed_blocks
      → p.result.header ≡ h
      → h.blocks_size ≤ length p.buffer
      → Completes 4 h.blocks_size p
  unfolding process process_compressed_blocks
  blocks_Completes h p here same enough =
      let whole : h.blocks_size + 0 ≡ h.blocks_size = omega arith in
      subst (λ k. Completes 4 k p) whole
        (stage 3 h.blocks_size 0 compressed_blocks object_recon (read_blocks crc32 sections p) p
          refl here (rw here refl)
          (ap (λ k. pass k.blocks_size object_recon (read_blocks crc32 sections p) p) same) refl
          refl (omega arith) (omega arith)
          (λ q at_next kept left there. recon_Completes 1 q at_next))

  chunks_Completes :
      (h : ArchiveHeader) (p : StreamParser M D I C)
      → p.state ≡ chunk_table
      → p.result.header ≡ h
      → ReturnFromChunks h p.buffer
      → h.chunk_size + h.blocks_size ≤ length p.buffer
      → Completes 5 (h.chunk_size + h.blocks_size) p
  unfolding process process_chunk_table
  chunks_Completes h p here same returns enough =
      stage 4 h.chunk_size (h.blocks_size) chunk_table compressed_blocks
        (read_chunks crc32 sections p) p (rw same (returns p.result.chunk_manager)) here
        (rw here refl)
        (ap (λ k. pass k.chunk_size compressed_blocks (read_chunks crc32 sections p) p) same) refl
        refl (omega arith) enough
        (λ q at_next kept left there. blocks_Completes h q at_next (kept ∙ same) there)

  index_Completes :
      (h : ArchiveHeader) (p : StreamParser M D I C)
      → p.state ≡ index_table
      → p.result.header ≡ h
      → ReturnFromIndex h p.buffer
      → h.index_size + (h.chunk_size + h.blocks_size) ≤ length p.buffer
      → Completes 6 (h.index_size + (h.chunk_size + h.blocks_size)) p
  unfolding process process_index_table
  index_Completes h p here same returns enough =
      stage 5 h.index_size (h.chunk_size + h.blocks_size) index_table chunk_table
        (read_index crc32 sections p) p (rw same (returns.0 p.result.index_manager)) here
        (rw here refl)
        (ap (λ k. pass k.index_size chunk_table (read_index crc32 sections p) p) same) refl refl
        (omega arith) enough
        (λ q at_next kept left there.
          chunks_Completes h q at_next (kept ∙ same)
            (subst (ReturnFromChunks h) (sym left) returns.1) there)

  directory_Completes :
      (h : ArchiveHeader) (p : StreamParser M D I C)
      → p.state ≡ directory_tree
      → p.result.header ≡ h
      → ReturnFromDirectory h p.buffer
      → h.directory_size + (h.index_size + (h.chunk_size + h.blocks_size)) ≤ length p.buffer
      → Completes 7 (h.directory_size + (h.index_size + (h.chunk_size + h.blocks_size))) p
  unfolding process process_directory_tree
  directory_Completes h p here same returns enough =
      stage 6 h.directory_size (h.index_size + (h.chunk_size + h.blocks_size)) directory_tree
        index_table (read_directory crc32 sections p) p
        (rw same (returns.0 p.result.directory_tree)) here (rw here refl)
        (ap (λ k. pass k.directory_size index_table (read_directory crc32 sections p) p) same) refl
        refl (omega arith) enough
        (λ q at_next kept left there.
          index_Completes h q at_next (kept ∙ same) (subst (ReturnFromIndex h) (sym left) returns.1)
            there)

  metadata_Completes :
      (h : ArchiveHeader) (p : StreamParser M D I C)
      → p.state ≡ metadata
      → p.result.header ≡ h
      → ReturnOn h p.buffer
      → h.metadata_size + (h.directory_size + (h.index_size + (h.chunk_size + h.blocks_size)))
        ≤ length p.buffer
      → Completes 8
          (h.metadata_size + (h.directory_size + (h.index_size + (h.chunk_size + h.blocks_size))))
          p
  unfolding process process_metadata
  metadata_Completes h p here same returns enough =
      stage 7 h.metadata_size (h.directory_size + (h.index_size + (h.chunk_size + h.blocks_size)))
        metadata directory_tree (read_metadata crc32 sections p) p (rw same returns.0) here
        (rw here refl)
        (ap (λ k. pass k.metadata_size directory_tree (read_metadata crc32 sections p) p) same) refl
        refl (omega arith) enough
        (λ q at_next kept left there.
          directory_Completes h q at_next (kept ∙ same)
            (subst (ReturnFromDirectory h) (sym left) returns.1) there)

  -- A whole archive with a good header, for whose sections the readers return, with success or with an
  -- error, is read to its end by a fresh parser that is given it at once: the parser is complete, its result is valid, it has the header, and the bytes behind the sections are
  -- those that are left.
  pub feed-IsComplete :
      (h : ArchiveHeader) (body : List ℕ) (p : StreamParser M D I C)
      → is_valid h ≡ true
      → IsPacked (update_checksum crc32 h)
      → sections_size h ≤ length body
      → ReturnOn h body
      → (q : StreamParser M D I C) × (c : Consumed) × (feed crc32 sections
            (serialize (update_checksum crc32 h) ++ body)
            (reset crc32 sections p)
          ≡ some (q, c))
        × IsComplete (update_checksum crc32 h) (drop (sections_size h) body) q
  unfolding Completes feed process process_header take_header update_checksum
  feed-IsComplete h body p valid packed enough returns =
      let h' = update_checksum crc32 h in
      let bytes = serialize h' ++ body in
      let start = record (reset crc32 sections p) { buffer = bytes } in
      let read = leave header_size metadata (record start {
        result = record start.result { header = h' };
        expected_size = h'.archive_size;
      }) in
      let sized : length (serialize h') ≡ header_size = length-serialize h' packed in
      let remains : drop header_size bytes ≡ body =
        rw (← sized) (drop-append (serialize h') body) in
      let parsed = parse-serialize crc32 h blank_header body valid packed in
      let done : process crc32 sections init start ≡ (read, consumed header_size) =
        rw
          (ltb-false (length bytes) header_size
            (omega (arith, length-append (serialize h') body, sized)))
          (ap (λ d. take_header crc32 sections start d.0 d.1) parsed) in
      let further =
        metadata_Completes h' read refl refl (rw remains returns) (rw remains enough)
          ((0 + header_size) % 2 ^ 64) in
      (
        further.0,
        further.1,
        loop_moves crc32 sections 8 0 start read header_size refl done (omega arith) ∙ further.2,
        subst (λ b. IsComplete h' (drop (sections_size h) b) further.0) remains further.3,
      )
