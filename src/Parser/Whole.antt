-- ===== src/Parser/Whole.antt =====
-- `Parser::parse` against `StreamParser::feed`, on a whole archive whose sections stand one behind
-- the other.
use nebula_fs.Common.{
  ℕ, ◌+◌, ◌^◌, ◌≤◌, ◌<◌, ◌≡◌, refl, sym, ap, ◌∙◌, Bool, true, false, some, List, [], ◌++◌,
  ltb-false, length, drop, length-append, arith,
}
use nebula_fs.Archive.Header.{ArchiveHeader, is_valid, header_size, serialize, update_checksum}
use nebula_fs.Archive.Header.Stored.{IsPacked, length-serialize, parse-serialize}
use nebula_fs.Parsing.{
  init, header, metadata, complete, value, gives, Sections, blank_header, no_result,
}
use nebula_fs.StreamParser.{
  StreamParser, Consumed, consumed, pass, leave, ended, read_blocks, take_header, process_header,
  process_compressed_blocks, finalize, process, loop, feed,
}
use nebula_fs.StreamParser
use nebula_fs.StreamParser.Completion.{sections_size}
use nebula_fs.Parser.{Parser, max_blocks_size, header_result, parse_sections, parse_internal, parse}
use nebula_fs.Parser.Lockstep.{Side}
use nebula_fs.Parser.Agreement.{IsContiguous, staged}
use nebula_fs.Parser.Rounds.{Reaches-moves}
use nebula_fs.Parser.Stages.{IsReadable, metadata_Agree}

module _ {M D I C : Type 0} (crc32 : List ℕ → ℕ) (sections : Sections M D I C) where
  module _ (h : ArchiveHeader) (body : List ℕ) (valid : is_valid h ≡ true)
      (packed : IsPacked (update_checksum crc32 h)) where
    length_archive :
        length (serialize (update_checksum crc32 h) ++ body) ≡ header_size + length body
    length_archive =
        length-append (serialize (update_checksum crc32 h)) body
        ∙ ap (λ n. n + length body) (length-serialize (update_checksum crc32 h) packed)

    parse_opens :
        (allocates : ℕ → Bool) (b : Parser)
        → parse crc32 allocates sections (serialize (update_checksum crc32 h) ++ body) b
          ≡ parse_sections allocates sections
              (serialize (update_checksum crc32 h) ++ body)
              (record b { state = header; warnings = [] })
              (value (update_checksum crc32 h))
    unfolding parse parse_internal
    parse_opens allocates b =
        let bytes = serialize (update_checksum crc32 h) ++ body in
        rw (ltb-false (length bytes) header_size (omega (arith, length_archive))) (
          ap
            (λ d.
              parse_sections allocates sections bytes (record b { state = header; warnings = [] })
                (header_result d))
            (parse-serialize crc32 h blank_header body valid packed))

    -- The stream parser, with all the bytes, and after the header.
    abbrev given : StreamParser M D I C → StreamParser M D I C
    given p = record (StreamParser.reset crc32 sections p) {
      buffer = serialize (update_checksum crc32 h) ++ body;
    }

    abbrev headed : StreamParser M D I C → StreamParser M D I C
    headed p = leave header_size metadata (record (given p) {
      result = record (no_result sections) { header = update_checksum crc32 h };
      expected_size = (update_checksum crc32 h).archive_size;
    })

    process-headed :
        (p : StreamParser M D I C)
        → process crc32 sections init (given p) ≡ (headed p, consumed header_size)
    unfolding process process_header take_header
    process-headed p =
        let bytes = serialize (update_checksum crc32 h) ++ body in
        rw (ltb-false (length bytes) header_size (omega (arith, length_archive))) (
          ap (λ d. take_header crc32 sections (given p) d.0 d.1)
            (parse-serialize crc32 h blank_header body valid packed))

  -- A lenient parser and a fresh stream parser that are given the same whole archive, whose header is
  -- good, whose sections stand one behind the other and are there, whose metadata is read alike from
  -- its section and from all that follows, each other section of which is read or ends in an error that
  -- leaves the new object as it was, and whose blocks are within the limit of the parser and can be
  -- allocated, end with the same result, the warnings included.
  pub parse-feed :
      (allocates : ℕ → Bool) (h : ArchiveHeader) (body : List ℕ) (m : M) (p : StreamParser M D I C)
      (b : Parser)
      → is_valid h ≡ true
      → IsPacked (update_checksum crc32 h)
      → IsContiguous h
      → sections_size h ≤ length body
      → header_size + length body < 2 ^ 64
      → h.blocks_size ≤ max_blocks_size
      → allocates h.blocks_size ≡ true
      → IsReadable crc32 sections m
          (serialize (update_checksum crc32 h) ++ body)
          (update_checksum crc32 h)
      → b.config.strict_mode ≡ false
      → (b' : Parser) × (q : StreamParser M D I C) × (c : Consumed) × (feed crc32 sections
            (serialize (update_checksum crc32 h) ++ body)
            (StreamParser.reset crc32 sections p)
          ≡ some (q, c))
        × (parse crc32 allocates sections (serialize (update_checksum crc32 h) ++ body) b
            ≡ (b', gives q.result))
        × (b'.state ≡ complete)
        × (q.state ≡ complete)
  unfolding feed parse_sections update_checksum is_valid
  parse-feed allocates h body m p b valid packed contiguous enough fits small room readable
        lenient =
      let h' = update_checksum crc32 h in
      let bytes = serialize h' ++ body in
      let sized = length_archive h body valid packed in
      let start = headed h body valid packed p in
      let b' = record b { state = metadata; warnings = [] } in
      let valid' : is_valid h' ≡ true = valid in
      let contiguous' : IsContiguous h' = record {
        metadata = contiguous.metadata;
        directory = contiguous.directory;
        index = contiguous.index;
        chunks = contiguous.chunks;
        blocks = contiguous.blocks;
      } in
      let side : Side bytes h'.metadata_offset metadata
          (staged sections h' sections.no_metadata sections.no_directory sections.no_index
            sections.no_chunks)
          start b' =
        record {
          state = refl;
          result = refl;
          warnings = refl;
          buffer = ap (λ n. drop n bytes) (sym contiguous.metadata);
          bytes_processed = omega arith;
          lenient = lenient;
        } in
      let agree =
        metadata_Agree crc32 sections allocates bytes h' valid' (omega arith) contiguous'
          (omega arith) small room m start b' readable side in
      let run =
        Reaches-moves crc32 sections 8 init (given h body valid packed p) start agree.stream
          header_size refl refl (process-headed h body valid packed p) (omega arith) agree.reaches
          0 in
      (
        agree.bulk,
        agree.stream,
        run.0,
        run.1,
        parse_opens h body valid packed allocates b
            ∙ agree.parsed_is
            ∙ ap (λ r. (agree.bulk, gives r)) (sym agree.same),
        agree.bulk_state,
        agree.stream_state,
      )
