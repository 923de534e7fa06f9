-- ===== src/StreamParser.antt =====
-- src/parser/StreamParser.cpp: an archive that is parsed as its bytes arrive.
pub mod Rounds
pub mod Runs
pub mod Local
pub mod Blind
pub mod Ends
pub mod Joined
pub mod Chunks
pub mod Completion
mod Tests
use nebula_fs.Common.{
  ℕ, zero, suc, ◌+◌, ◌%◌, ◌^◌, Bool, true, false, ◌&&◌, Option, none, some, List, [], ◌∷◌, ◌++◌,
  ltb, ◌==◌, if◌then◌else◌, length, take, drop, replicate,
}
use nebula_fs.Archive.Header.{ArchiveHeader, HeaderError, header_size, parse}
pub use nebula_fs.Parsing.{
  ParserState, init, header, metadata, directory_tree, index_table, chunk_table, compressed_blocks,
  object_recon, complete, error, code, ErrorCode, corrupt_header, corrupt_directory, corrupt_index,
  corrupt_chunk_table, internal_error, corrupt_metadata, ParseError, to_parse_error, Result, value,
  failure, Escape, Ended, Loading, loads, breaks, flees, gives, denies, escapes, given_or,
  escape_of, flight, Sections, ParseResult, blank_header, no_result,
}

pub record StreamParser (Metadata Directory Index Chunks : Type 0) : Type 0 where
  pub state : ParserState
  pub result : ParseResult Metadata Directory Index Chunks
  pub buffer : List ℕ
  pub warnings : List ParseError
  pub bytes_processed : ℕ
  pub expected_size : ℕ

-- `Result<size_t>`, or the escape of a reader.
pub data Consumed : Type 0 where
  consumed : ℕ → Consumed
  failed : ParseError → Consumed
  escaped : Escape → Consumed

module _ {Metadata Directory Index Chunks : Type 0} where
  -- Erases `size` bytes of the buffer, counts them and changes the state.
  abbrev pub leave :
      ℕ
      → ParserState
      → StreamParser Metadata Directory Index Chunks
      → StreamParser Metadata Directory Index Chunks
  leave size next p = record p {
    buffer = drop size p.buffer;
    bytes_processed = (p.bytes_processed + size) % 2 ^ 64;
    state = next;
  }

  -- A section that is there, after its reader.
  unfoldable pub leave_read :
      ℕ
      → ParserState
      → StreamParser Metadata Directory Index Chunks × Option Escape
      → StreamParser Metadata Directory Index Chunks × Consumed
  leave_read size next (l, none) = (leave size next l, consumed size)
  leave_read size next (l, some e) = (l, escaped e)

  -- What the five functions for a section share: an empty section is passed over, and a section that
  -- is not there as a whole is waited for.
  unfoldable pub pass :
      ℕ
      → ParserState
      → StreamParser Metadata Directory Index Chunks × Option Escape
      → StreamParser Metadata Directory Index Chunks
      → StreamParser Metadata Directory Index Chunks × Consumed
  unfolding leave_read
  pass size next loaded p =
      if size == 0
      then (record p { state = next }, consumed 0)
      else if ltb (length p.buffer) size
      then (p, consumed 0)
      else leave_read size next loaded

  -- A warning if a reader failed.
  abbrev pub warn :
      Loading
      → ErrorCode
      → ParserState
      → StreamParser Metadata Directory Index Chunks
      → List ParseError
  warn loading why state p = elim loading [
    | breaks ↦ p.warnings ++ (to_parse_error why state p.bytes_processed ∷ [])
    | _ ↦ p.warnings
  ]

  abbrev pub ended : StreamParser Metadata Directory Index Chunks → Bool
  ended p = elim p.state [ complete ↦ true | error ↦ true | _ ↦ false ]

module _ {Metadata Directory Index Chunks : Type 0} (crc32 : List ℕ → ℕ)
    (sections : Sections Metadata Directory Index Chunks) where
  -- Also what the constructor makes.
  abbrev pub reset :
      StreamParser Metadata Directory Index Chunks → StreamParser Metadata Directory Index Chunks
  reset p = record {
    state = init;
    result = no_result sections;
    buffer = [];
    warnings = [];
    bytes_processed = 0;
    expected_size = 0;
  }

  -- The header as it was parsed, and its error.
  unfoldable pub take_header :
      StreamParser Metadata Directory Index Chunks
      → ArchiveHeader
      → Option HeaderError
      → StreamParser Metadata Directory Index Chunks × Consumed
  take_header p found (some e) = (p, failed (to_parse_error corrupt_header header 0))
  take_header p found none = (
    leave header_size metadata (record p {
      result = record p.result { header = found };
      expected_size = found.archive_size;
    }),
    consumed header_size,
  )

  unfoldable pub process_header :
      StreamParser Metadata Directory Index Chunks
      → StreamParser Metadata Directory Index Chunks × Consumed
  unfolding take_header
  process_header p =
      let parsed = parse crc32 p.buffer blank_header in
      if ltb (length p.buffer) header_size then (p, consumed 0) else take_header p parsed.0 parsed.1

  -- A section that does not parse leaves the metadata as it is, without a warning.
  abbrev pub read_metadata :
      StreamParser Metadata Directory Index Chunks
      → StreamParser Metadata Directory Index Chunks × Option Escape
  read_metadata p =
      let size = p.result.header.metadata_size in
      let found = sections.parse_metadata p.buffer size in
      (
        record p { result = record p.result { metadata = given_or found p.result.metadata } },
        escape_of found,
      )

  unfoldable pub process_metadata :
      StreamParser Metadata Directory Index Chunks
      → StreamParser Metadata Directory Index Chunks × Consumed
  unfolding pass
  process_metadata p = pass p.result.header.metadata_size directory_tree (read_metadata p) p

  abbrev pub read_directory :
      StreamParser Metadata Directory Index Chunks
      → StreamParser Metadata Directory Index Chunks × Option Escape
  read_directory p =
      let size = p.result.header.directory_size in
      let read = sections.load_directory (take size p.buffer) p.result.directory_tree in
      (
        record p {
          result = record p.result { directory_tree = read.0 };
          warnings = warn read.1 corrupt_directory ParserState.directory_tree p;
        },
        flight read.1,
      )

  unfoldable pub process_directory_tree :
      StreamParser Metadata Directory Index Chunks
      → StreamParser Metadata Directory Index Chunks × Consumed
  unfolding pass
  process_directory_tree p = pass p.result.header.directory_size index_table (read_directory p) p

  abbrev pub read_index :
      StreamParser Metadata Directory Index Chunks
      → StreamParser Metadata Directory Index Chunks × Option Escape
  read_index p =
      let size = p.result.header.index_size in
      let read = sections.load_index (take size p.buffer) p.result.index_manager in
      (
        record p {
          result = record p.result { index_manager = read.0 };
          warnings = warn read.1 corrupt_index ParserState.index_table p;
        },
        flight read.1,
      )

  unfoldable pub process_index_table :
      StreamParser Metadata Directory Index Chunks
      → StreamParser Metadata Directory Index Chunks × Consumed
  unfolding pass
  process_index_table p = pass p.result.header.index_size chunk_table (read_index p) p

  abbrev pub read_chunks :
      StreamParser Metadata Directory Index Chunks
      → StreamParser Metadata Directory Index Chunks × Option Escape
  read_chunks p =
      let size = p.result.header.chunk_size in
      let read = sections.load_chunks (take size p.buffer) p.result.chunk_manager in
      (
        record p {
          result = record p.result { chunk_manager = read.0 };
          warnings = warn read.1 corrupt_chunk_table ParserState.chunk_table p;
        },
        flight read.1,
      )

  unfoldable pub process_chunk_table :
      StreamParser Metadata Directory Index Chunks
      → StreamParser Metadata Directory Index Chunks × Consumed
  unfolding pass
  process_chunk_table p = pass p.result.header.chunk_size compressed_blocks (read_chunks p) p

  abbrev pub read_blocks :
      StreamParser Metadata Directory Index Chunks
      → StreamParser Metadata Directory Index Chunks × Option Escape
  read_blocks p =
      let size = p.result.header.blocks_size in
      (record p { result = record p.result { blocks_data = take size p.buffer } }, none)

  unfoldable pub process_compressed_blocks :
      StreamParser Metadata Directory Index Chunks
      → StreamParser Metadata Directory Index Chunks × Consumed
  unfolding pass
  process_compressed_blocks p = pass p.result.header.blocks_size object_recon (read_blocks p) p

  unfoldable pub finalize :
      StreamParser Metadata Directory Index Chunks
      → StreamParser Metadata Directory Index Chunks × Consumed
  finalize p = (
    record p { result = record p.result { valid = true; warnings = p.warnings }; state = complete },
    consumed 0,
  )

  -- The switch of the loop. Its default is met in no state that the loop goes on in.
  unfoldable pub process :
      ParserState
      → StreamParser Metadata Directory Index Chunks
      → StreamParser Metadata Directory Index Chunks × Consumed
  process init p = process_header p
  process header p = process_header p
  process metadata p = process_metadata p
  process directory_tree p = process_directory_tree p
  process index_table p = process_index_table p
  process chunk_table p = process_chunk_table p
  process compressed_blocks p = process_compressed_blocks p
  process object_recon p = finalize p
  process complete p = (p, failed (to_parse_error internal_error p.state p.bytes_processed))
  process error p = (p, failed (to_parse_error internal_error p.state p.bytes_processed))

  -- What follows the switch; `again` is the rest of the loop. An escape leaves `feed` at once.
  unfoldable pub after_round :
      StreamParser Metadata Directory Index Chunks
      → StreamParser Metadata Directory Index Chunks
      → Consumed
      → ℕ
      → (ℕ
          → StreamParser Metadata Directory Index Chunks
          → Option (StreamParser Metadata Directory Index Chunks × Consumed))
      → Option (StreamParser Metadata Directory Index Chunks × Consumed)
  after_round old p (failed e) total again = some (record p { state = error }, failed e)
  after_round old p (escaped e) total again = some (p, escaped e)
  after_round old p (consumed n) total again =
      let sum = (total + n) % 2 ^ 64 in
      if (n == 0) && (code old.state == code p.state) then some (p, consumed sum) else again sum p

  -- The loop of `feed`; none when the fuel ends.
  unfoldable pub loop :
      ℕ
      → ℕ
      → StreamParser Metadata Directory Index Chunks
      → Option (StreamParser Metadata Directory Index Chunks × Consumed)
  unfolding process after_round
  loop zero total p = none
  loop (suc fuel) total p =
      let done = process p.state p in
      if ended p
      then some (p, consumed total)
      else after_round p done.0 done.1 total (λ sum q. loop fuel sum q)

  -- Nine rounds are enough.
  unfoldable pub feed :
      List ℕ
      → StreamParser Metadata Directory Index Chunks
      → Option (StreamParser Metadata Directory Index Chunks × Consumed)
  unfolding loop
  feed chunk p = loop 9 0 (record p { buffer = p.buffer ++ chunk })
