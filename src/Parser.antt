-- ===== src/Parser.antt =====
-- src/parser/Parser.cpp and include/nebula/parser/Parser.hpp: an archive that is parsed from a span
-- that holds all of it. The messages, the progress callback and what reads bytes without using them
-- (parseChunk, processSection) are left out. Whether the blocks can be allocated and what a file
-- holds are parameters.
pub mod Lockstep
pub mod Agreement
pub mod Rounds
pub mod Stages
pub mod Whole
pub mod Strictness
mod Tests
use nebula_fs.Common.{
  ℕ, ◌+◌, ◌-◌, ◌*◌, ◌%◌, ◌^◌, Bool, true, false, not, Option, none, some, List, [], ◌∷◌, ◌++◌, ltb,
  if◌then◌else◌, length, take, drop,
}
use nebula_fs.Archive.Header.{ArchiveHeader, HeaderError, header_size, is_valid}
use nebula_fs.Archive.Header
use nebula_fs.Parsing.{
  ParserState, init, header, metadata, directory_tree, index_table, chunk_table, compressed_blocks,
  complete, error, ErrorCode, corrupt_header, corrupt_directory, corrupt_index, corrupt_chunk_table,
  out_of_range, out_of_memory, io_error, ErrorSeverity, warning, recoverable, fatal, ParseError,
  to_parse_error, Result, value, failure, Escape, Ended, gives, denies, escapes, Loading, loads,
  breaks, flees, Sections, ParseResult, blank_header, no_result,
}

pub record ParserConfig : Type 0 where
  pub verify_checksums : Bool
  pub lazy_mode : Bool
  pub strict_mode : Bool
  pub max_metadata_size : ℕ
  pub max_directory_depth : ℕ

abbrev pub default_config : ParserConfig
default_config = record {
  verify_checksums = true;
  lazy_mode = true;
  strict_mode = false;
  max_metadata_size = 1048576;
  max_directory_depth = 255;
}

pub record Parser : Type 0 where
  pub config : ParserConfig
  pub state : ParserState
  pub warnings : List ParseError

abbrev pub new_parser : ParserConfig → Parser
new_parser config = record { config = config; state = init; warnings = [] }

abbrev pub reset : Parser → Parser
reset p = record p { state = init; warnings = [] }

abbrev is_warning : ErrorSeverity → Bool
is_warning warning = true
is_warning recoverable = false
is_warning fatal = false

abbrev pub escalated : Bool → ParseError → ParseError
escalated strict err =
    if strict
    then (if is_warning err.severity then record err { severity = recoverable } else err)
    else err

abbrev pub add_warning : ParseError → Parser → Parser
add_warning err p = record p { warnings = p.warnings ++ (escalated p.config.strict_mode err ∷ []) }

-- 64 MB
abbrev pub max_blocks_size : ℕ
max_blocks_size = 64 * 1024 * 1024

module _ {A : Type 0} where
  -- What the functions for a section share: the checks, and the part of the span that is read.
  unfoldable pub section :
      List ℕ → ArchiveHeader → ℕ → ℕ → ParserState → (List ℕ → Ended A) → Ended A
  section bytes h offset size state read =
      if not (is_valid h)
      then denies (to_parse_error corrupt_header header 0)
      else if ltb (length bytes) offset
      then denies (to_parse_error out_of_range state offset)
      else if ltb (length bytes - offset) size
      then denies (to_parse_error out_of_range state offset)
      else read (take size (drop offset bytes))

  -- An object that its reader failed on is dropped.
  abbrev pub loaded : ErrorCode → ParserState → ℕ → A × Loading → Ended A
  loaded ec state offset (x, loads) = gives x
  loaded ec state offset (x, breaks) = denies (to_parse_error ec state offset)
  loaded ec state offset (x, flees e) = escapes e

module _ {A M D I C : Type 0} where
  -- An error of a section is a warning; in strict mode it is also the end. An exception leaves the
  -- function at once.
  unfoldable pub settle :
      ParserState
      → Ended A
      → (A → ParseResult M D I C)
      → Parser
      → ParseResult M D I C
      → Parser × Ended (ParseResult M D I C)
  settle next (gives a) keep p r = (record p { state = next }, gives (keep a))
  settle next (denies e) keep p r =
      if p.config.strict_mode
      then (record (add_warning e p) { state = error }, denies e)
      else (record (add_warning e p) { state = next }, gives r)
  settle next (escapes e) keep p r = (p, escapes e)

  -- An empty section is passed over.
  unfoldable pub visit :
      ℕ
      → ParserState
      → Ended A
      → (A → ParseResult M D I C)
      → Parser
      → ParseResult M D I C
      → Parser × Ended (ParseResult M D I C)
  unfolding settle
  visit size next found keep p r =
      if ltb 0 size then settle next found keep p r else (record p { state = next }, gives r)

module _ {M D I C : Type 0} where
  unfoldable pub continue :
      Parser
      → Ended (ParseResult M D I C)
      → (Parser → ParseResult M D I C → Parser × Ended (ParseResult M D I C))
      → Parser × Ended (ParseResult M D I C)
  continue p (gives r) rest = rest p r
  continue p (denies e) rest = (p, denies e)
  continue p (escapes e) rest = (p, escapes e)

  -- A failed allocation leaves the state as it is.
  unfoldable pub finish :
      Option (List ℕ) → Parser → ParseResult M D I C → Parser × Ended (ParseResult M D I C)
  finish none p r = (p, denies (to_parse_error out_of_memory compressed_blocks 0))
  finish (some blocks) p r = (
    record p { state = complete },
    gives (record r { blocks_data = blocks; valid = true; warnings = p.warnings }),
  )

-- The blocks, none when they cannot be allocated.
unfoldable pub blocks_of : (ℕ → Bool) → List ℕ → ArchiveHeader → Option (List ℕ)
blocks_of allocates bytes h =
    if ltb (length bytes) h.blocks_offset
    then some []
    else if ltb (length bytes - h.blocks_offset) h.blocks_size
    then some []
    else if ltb max_blocks_size h.blocks_size
    then some []
    else if ltb 0 h.blocks_size
    then (if allocates h.blocks_size
        then some (take h.blocks_size (drop h.blocks_offset bytes))
        else none)
    else some []

unfoldable pub validate_section_bounds : ℕ → ℕ → ℕ → Bool
validate_section_bounds offset size archive_size =
    if ltb archive_size ((offset + size) % 2 ^ 64) then false else not (ltb offset header_size)

abbrev pub header_result : ArchiveHeader × Option HeaderError → Result ArchiveHeader
header_result parsed = elim parsed.1 [
  | none ↦ value parsed.0
  | some e ↦ failure (to_parse_error corrupt_header header 0)
]

abbrev pub parse_header : (List ℕ → ℕ) → List ℕ → Result ArchiveHeader
parse_header crc32 bytes = header_result (Header.parse crc32 bytes blank_header)

module _ {Metadata Directory Index Chunks : Type 0}
    (sections : Sections Metadata Directory Index Chunks) where
  abbrev pub parse_metadata : List ℕ → ArchiveHeader → Ended Metadata
  parse_metadata bytes h =
      section bytes h h.metadata_offset h.metadata_size metadata
        (λ span. sections.parse_metadata span h.metadata_size)

  abbrev pub parse_directory_tree : List ℕ → ArchiveHeader → Ended Directory
  parse_directory_tree bytes h =
      section bytes h h.directory_offset h.directory_size directory_tree (λ span.
        loaded corrupt_directory directory_tree h.directory_offset
          (sections.load_directory span sections.no_directory))

  abbrev pub parse_index_table : List ℕ → ArchiveHeader → Ended Index
  parse_index_table bytes h = section bytes h h.index_offset h.index_size index_table (λ span.
      loaded corrupt_index index_table h.index_offset (sections.load_index span sections.no_index))

  abbrev pub parse_chunk_table : List ℕ → ArchiveHeader → Ended Chunks
  parse_chunk_table bytes h = section bytes h h.chunk_offset h.chunk_size chunk_table (λ span.
      loaded corrupt_chunk_table chunk_table h.chunk_offset
        (sections.load_chunks span sections.no_chunks))

  abbrev pub visit_metadata :
      List ℕ
      → Parser
      → ParseResult Metadata Directory Index Chunks
      → Parser × Ended (ParseResult Metadata Directory Index Chunks)
  visit_metadata bytes p r =
      visit r.header.metadata_size directory_tree (parse_metadata bytes r.header)
        (λ m. record r { metadata = m }) p r

  abbrev pub visit_directory_tree :
      List ℕ
      → Parser
      → ParseResult Metadata Directory Index Chunks
      → Parser × Ended (ParseResult Metadata Directory Index Chunks)
  visit_directory_tree bytes p r =
      visit r.header.directory_size index_table (parse_directory_tree bytes r.header)
        (λ d. record r { directory_tree = d }) p r

  abbrev pub visit_index_table :
      List ℕ
      → Parser
      → ParseResult Metadata Directory Index Chunks
      → Parser × Ended (ParseResult Metadata Directory Index Chunks)
  visit_index_table bytes p r =
      visit r.header.index_size chunk_table (parse_index_table bytes r.header)
        (λ i. record r { index_manager = i }) p r

  abbrev pub visit_chunk_table :
      List ℕ
      → Parser
      → ParseResult Metadata Directory Index Chunks
      → Parser × Ended (ParseResult Metadata Directory Index Chunks)
  visit_chunk_table bytes p r =
      visit r.header.chunk_size compressed_blocks (parse_chunk_table bytes r.header)
        (λ c. record r { chunk_manager = c }) p r

module _ {Metadata Directory Index Chunks : Type 0} (allocates : ℕ → Bool)
    (sections : Sections Metadata Directory Index Chunks) where
  unfoldable pub from_blocks :
      List ℕ
      → Parser
      → ParseResult Metadata Directory Index Chunks
      → Parser × Ended (ParseResult Metadata Directory Index Chunks)
  unfolding finish blocks_of
  from_blocks bytes p r = finish (blocks_of allocates bytes r.header) p r

  -- The rest of `parseInternal`, from the section on that the name says.
  unfoldable pub from_chunk_table :
      List ℕ
      → Parser
      → ParseResult Metadata Directory Index Chunks
      → Parser × Ended (ParseResult Metadata Directory Index Chunks)
  unfolding continue
  from_chunk_table bytes p r =
      let done = visit_chunk_table sections bytes p r in
      continue done.0 done.1 (λ p' r'. from_blocks bytes p' r')

  unfoldable pub from_index_table :
      List ℕ
      → Parser
      → ParseResult Metadata Directory Index Chunks
      → Parser × Ended (ParseResult Metadata Directory Index Chunks)
  unfolding continue
  from_index_table bytes p r =
      let done = visit_index_table sections bytes p r in
      continue done.0 done.1 (λ p' r'. from_chunk_table bytes p' r')

  unfoldable pub from_directory_tree :
      List ℕ
      → Parser
      → ParseResult Metadata Directory Index Chunks
      → Parser × Ended (ParseResult Metadata Directory Index Chunks)
  unfolding continue
  from_directory_tree bytes p r =
      let done = visit_directory_tree sections bytes p r in
      continue done.0 done.1 (λ p' r'. from_index_table bytes p' r')

  unfoldable pub from_metadata :
      List ℕ
      → Parser
      → ParseResult Metadata Directory Index Chunks
      → Parser × Ended (ParseResult Metadata Directory Index Chunks)
  unfolding continue
  from_metadata bytes p r =
      let done = visit_metadata sections bytes p r in
      continue done.0 done.1 (λ p' r'. from_directory_tree bytes p' r')

  -- What follows the header.
  unfoldable pub parse_sections :
      List ℕ
      → Parser
      → Result ArchiveHeader
      → Parser × Ended (ParseResult Metadata Directory Index Chunks)
  unfolding from_metadata
  parse_sections bytes p (failure e) = (record p { state = error }, denies e)
  parse_sections bytes p (value h) =
      from_metadata bytes (record p { state = metadata })
        (record (no_result sections) { header = h })

module _ {Metadata Directory Index Chunks : Type 0} (crc32 : List ℕ → ℕ) (allocates : ℕ → Bool)
    (sections : Sections Metadata Directory Index Chunks) where
  unfoldable pub parse_internal :
      List ℕ → Parser → Parser × Ended (ParseResult Metadata Directory Index Chunks)
  unfolding parse_sections
  parse_internal bytes p =
      if ltb (length bytes) header_size
      then (
        record p { state = error },
        denies (to_parse_error corrupt_header header (length bytes)),
      )
      else parse_sections allocates sections bytes (record p { state = header })
          (parse_header crc32 bytes)

  unfoldable pub parse :
      List ℕ → Parser → Parser × Ended (ParseResult Metadata Directory Index Chunks)
  unfolding parse_internal
  parse bytes p = parse_internal bytes (reset p)

  -- The bytes that the file is mapped to, none when it cannot be opened.
  unfoldable pub parse_file :
      Option (List ℕ) → Parser → Parser × Ended (ParseResult Metadata Directory Index Chunks)
  unfolding parse_internal
  parse_file none p = (reset p, denies (to_parse_error io_error init 0))
  parse_file (some bytes) p = parse_internal bytes (reset p)
