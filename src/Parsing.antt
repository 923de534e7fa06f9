-- ===== src/Parsing.antt =====
-- What src/parser/StreamParser.cpp and src/parser/Parser.cpp share: ParserState, ErrorSeverity,
-- ParseError and Result of include/nebula/Types.hpp, toParseError of include/nebula/Error.hpp and
-- ParseResult of include/nebula/parser/Parser.hpp. The readers of the sections are a record of
-- operations.
use nebula_fs.Common.{ℕ, Bool, false, Option, none, some, List, [], replicate}
use nebula_fs.Archive.Header.{ArchiveHeader, magic_bytes}

pub data ParserState : Type 0 where
  init header metadata directory_tree index_table chunk_table compressed_blocks : ParserState
  object_recon complete error : ParserState

-- Comparison of states: their codes.
abbrev pub code : ParserState → ℕ
code init = 0
code header = 1
code metadata = 2
code directory_tree = 3
code index_table = 4
code chunk_table = 5
code compressed_blocks = 6
code object_recon = 7
code complete = 8
code error = 255

pub data ErrorCode : Type 0 where
  corrupt_header corrupt_metadata corrupt_directory corrupt_index corrupt_chunk_table : ErrorCode
  out_of_range out_of_memory io_error internal_error : ErrorCode

pub data ErrorSeverity : Type 0 where
  warning recoverable fatal : ErrorSeverity

-- The code stands for the message.
pub record ParseError : Type 0 where
  pub code : ErrorCode
  pub severity : ErrorSeverity
  pub state : ParserState
  pub offset : ℕ

-- No caller passes `ChecksumMismatch`, the other code that is fatal.
abbrev severity_of : ErrorCode → ErrorSeverity
severity_of corrupt_header = fatal
severity_of corrupt_metadata = recoverable
severity_of corrupt_directory = recoverable
severity_of corrupt_index = recoverable
severity_of corrupt_chunk_table = recoverable
severity_of out_of_range = recoverable
severity_of out_of_memory = recoverable
severity_of io_error = recoverable
severity_of internal_error = recoverable

abbrev pub to_parse_error : ErrorCode → ParserState → ℕ → ParseError
to_parse_error ec state offset = record {
  code = ec;
  severity = severity_of ec;
  state = state;
  offset = offset;
}

-- `Result<T>`
pub data Result (A : Type 0) : Type 0 where
  value : A → Result A
  failure : ParseError → Result A

-- How a call ends that does not return: in an exception that the parsers do not catch, or in
-- undefined behaviour.
pub data Escape : Type 0 where
  thrown undefined : Escape

-- What a call that answers `Result<T>` ends in.
pub data Ended (A : Type 0) : Type 0 where
  gives : A → Ended A
  denies : ParseError → Ended A
  escapes : Escape → Ended A

-- What a call of an object's `deserialize` ends in.
pub data Loading : Type 0 where
  loads breaks : Loading
  flees : Escape → Loading

abbrev pub given_or : {A : Type 0} → Ended A → A → A
given_or (gives x) other = x
given_or (denies e) other = other
given_or (escapes e) other = other

abbrev pub escape_of : {A : Type 0} → Ended A → Option Escape
escape_of (gives x) = none
escape_of (denies e) = none
escape_of (escapes e) = some e

abbrev pub flight : Loading → Option Escape
flight loads = none
flight breaks = none
flight (flees e) = some e

-- A section's reader changes the object that it is called on, also where it does not return with
-- success. The reader of the metadata is called with the whole buffer and the size of the section.
pub record Sections (Metadata Directory Index Chunks : Type 0) : Type 0 where
  pub no_metadata : Metadata
  pub parse_metadata : List ℕ → ℕ → Ended Metadata
  pub no_directory : Directory
  pub load_directory : List ℕ → Directory → Directory × Loading
  pub no_index : Index
  pub load_index : List ℕ → Index → Index × Loading
  pub no_chunks : Chunks
  pub load_chunks : List ℕ → Chunks → Chunks × Loading

pub record ParseResult (Metadata Directory Index Chunks : Type 0) : Type 0 where
  pub header : ArchiveHeader
  pub metadata : Metadata
  pub directory_tree : Directory
  pub index_manager : Index
  pub chunk_manager : Chunks
  pub blocks_data : List ℕ
  pub valid : Bool
  pub warnings : List ParseError

-- The member initialisers of the struct.
abbrev pub blank_header : ArchiveHeader
blank_header = record {
  magic = magic_bytes;
  version_major = 1;
  version_minor = 0;
  flags = 0;
  archive_size = 0;
  metadata_offset = 0;
  directory_offset = 0;
  index_offset = 0;
  chunk_offset = 0;
  blocks_offset = 0;
  journal_offset = 0;
  entry_count = 0;
  metadata_size = 0;
  directory_size = 0;
  index_size = 0;
  chunk_size = 0;
  blocks_size = 0;
  journal_size = 0;
  header_checksum = 0;
  archive_checksum = replicate 32 0;
}

-- The members of a result that nothing is parsed into.
abbrev pub no_result :
    {Metadata Directory Index Chunks : Type 0}
    → Sections Metadata Directory Index Chunks
    → ParseResult Metadata Directory Index Chunks
no_result sections = record {
  header = blank_header;
  metadata = sections.no_metadata;
  directory_tree = sections.no_directory;
  index_manager = sections.no_index;
  chunk_manager = sections.no_chunks;
  blocks_data = [];
  valid = false;
  warnings = [];
}
