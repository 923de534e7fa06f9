-- ===== src/Parser/Agreement.antt =====
-- A whole archive, given to src/parser/Parser.cpp and to src/parser/StreamParser.cpp.
use nebula_fs.Common.{
  ℕ, ◌+◌, ◌-◌, ◌^◌, ◌≤◌, ◌<◌, ◌≡◌, refl, inl, inr, ◌⊎◌, Option, none, sym, ap, ◌∙◌, true, List, [],
  ◌∷◌, ◌++◌, ltb-false, length, drop, take, arith,
}
use mathlib.Core.Path.{subst}
use nebula_fs.Archive.Header.{ArchiveHeader, is_valid, header_size}
use nebula_fs.Parsing.{
  ParserState, metadata, directory_tree, index_table, chunk_table, compressed_blocks, ErrorCode,
  corrupt_directory, corrupt_index, corrupt_chunk_table, to_parse_error, Escape, Loading, loads,
  breaks, flees, flight, escape_of, Ended, gives, given_or, Sections, ParseResult, no_result,
}
use nebula_fs.StreamParser.{
  StreamParser, pass, warn, read_metadata, read_directory, read_index, read_chunks,
  process_metadata, process_directory_tree, process_index_table, process_chunk_table, process,
}
use nebula_fs.Parser.{
  Parser, section, loaded, visit, visit_metadata, visit_directory_tree, visit_index_table,
  visit_chunk_table,
}
use nebula_fs.Parser.Lockstep.{warned, Side, Read, Both, pass-visit}

-- One section stands behind the other.
pub record IsContiguous (h : ArchiveHeader) : Type 0 where
  pub metadata : h.metadata_offset ≡ header_size
  pub directory : h.directory_offset ≡ h.metadata_offset + h.metadata_size
  pub index : h.index_offset ≡ h.directory_offset + h.directory_size
  pub chunks : h.chunk_offset ≡ h.index_offset + h.index_size
  pub blocks : h.blocks_offset ≡ h.chunk_offset + h.chunk_size

-- What a reader makes of a new object: it reads it, or its error leaves it as it was.
abbrev pub IsRead : {A : Type 0} → A × Loading → A → Type 0
IsRead read new = (read.1 ≡ loads) ⊎ ((read.1 ≡ breaks) × (read.0 ≡ new))

pub section_there :
    {A : Type 0} (bytes : List ℕ) (h : ArchiveHeader) (offset size : ℕ) (state : ParserState)
    (read : List ℕ → Ended A)
    → is_valid h ≡ true
    → offset + size ≤ length bytes
    → section bytes h offset size state read ≡ read (take size (drop offset bytes))
unfolding section
section_there bytes h offset size state read valid within =
    rw
      (
        valid,
        ltb-false (length bytes) offset (omega arith),
        ltb-false (length bytes - offset) size (omega arith),
      )
      refl

module _ {A : Type 0} (ec : ErrorCode) (state : ParserState) (offset : ℕ) where
  given_or-loaded :
      (read : A × Loading) (old : A)
      → IsRead read old
      → read.0 ≡ given_or (loaded ec state offset read) old
  given_or-loaded (x, loads) old is = refl
  given_or-loaded (x, breaks) old (inl e) = absurd (cc e)
  given_or-loaded (x, breaks) old (inr (e, same)) = same
  given_or-loaded (x, flees f) old (inl e) = absurd (cc e)
  given_or-loaded (x, flees f) old (inr (e, same)) = absurd (cc e)

  escape_of-loaded :
      (read : A × Loading) (old : A)
      → IsRead read old
      → (flight read.1 ≡ none) × (escape_of (loaded ec state offset read) ≡ none)
  escape_of-loaded (x, loads) old is = (refl, refl)
  escape_of-loaded (x, breaks) old is = (refl, refl)
  escape_of-loaded (x, flees f) old (inl e) = absurd (cc e)
  escape_of-loaded (x, flees f) old (inr (e, same)) = absurd (cc e)

  warned-loaded :
      {M D I C : Type 0} (p : StreamParser M D I C) (read : A × Loading)
      → p.bytes_processed ≡ offset
      → warn read.1 ec state p ≡ warned (loaded ec state offset read) p.warnings
  warned-loaded p (x, loads) at_offset = refl
  warned-loaded p (x, breaks) at_offset =
      ap (λ n. p.warnings ++ (to_parse_error ec state n ∷ [])) at_offset
  warned-loaded p (x, flees f) at_offset = refl

module _ {M D I C A : Type 0} (bytes : List ℕ) (h : ArchiveHeader) where
  -- A section that an object is loaded from.
  object_Both :
      (offset size : ℕ) (s next : ParserState) (ec : ErrorCode) (keep : A → ParseResult M D I C)
      (load : List ℕ → A → A × Loading) (new : A) (p : StreamParser M D I C)
      (l : StreamParser M D I C × Option Escape) (b : Parser)
      → is_valid h ≡ true
      → length bytes < 2 ^ 64
      → offset + size ≤ length bytes
      → (1 ≤ size → IsRead (load (take size (drop offset bytes)) new) new)
      → Side bytes offset s (keep new) p b
      → l.0.result ≡ keep (load (take size (drop offset bytes)) new).0
      → l.0.warnings ≡ warn (load (take size (drop offset bytes)) new).1 ec s p
      → l.0.buffer ≡ p.buffer
      → l.0.bytes_processed ≡ p.bytes_processed
      → l.1 ≡ flight (load (take size (drop offset bytes)) new).1
      → Both bytes offset size next keep (pass size next l p) (
          visit size next
            (section bytes h offset size s (λ span. loaded ec s offset (load span new)))
            keep
            b
            (keep new))
  object_Both offset size s next ec keep load new p l b valid fits within reads side result warnings
        buffer processed leaves =
      let span = take size (drop offset bytes) in
      let there =
        section_there bytes h offset size s (λ x. loaded ec s offset (load x new)) valid within in
      let found = loaded ec s offset (load span new) in
      let read : 1 ≤ size → Read found keep new p l = λ there. record {
        result = result ∙ ap keep (given_or-loaded ec s offset (load span new) new (reads there));
        warnings = warnings ∙ warned-loaded ec s offset p (load span new) side.bytes_processed;
        buffer = buffer;
        bytes_processed = processed;
        returns = leaves ∙ (escape_of-loaded ec s offset (load span new) new (reads there)).0;
        finds = (escape_of-loaded ec s offset (load span new) new (reads there)).1;
      } in
      subst
        (λ f.
          Both bytes offset size next keep (pass size next l p)
            (visit size next f keep b (keep new)))
        (sym there) (pass-visit bytes offset s next keep new p l b size found side read within fits)

module _ {M D I C : Type 0} (sections : Sections M D I C) (h : ArchiveHeader) where
  abbrev pub staged : M → D → I → C → ParseResult M D I C
  staged m d i c = record (no_result sections) {
    header = h;
    metadata = m;
    directory_tree = d;
    index_manager = i;
    chunk_manager = c;
  }

module _ {M D I C : Type 0} (crc32 : List ℕ → ℕ) (sections : Sections M D I C) (bytes : List ℕ)
    (h : ArchiveHeader) (valid : is_valid h ≡ true) (fits : length bytes < 2 ^ 64) where
  pub metadata_Both :
      (m : M) (p : StreamParser M D I C) (b : Parser)
      → sections.parse_metadata (drop h.metadata_offset bytes) h.metadata_size ≡ gives m
      → sections.parse_metadata
          (take h.metadata_size (drop h.metadata_offset bytes))
          h.metadata_size
        ≡ gives m
      → h.metadata_offset + h.metadata_size ≤ length bytes
      → Side bytes h.metadata_offset metadata
          (staged sections h sections.no_metadata sections.no_directory sections.no_index
            sections.no_chunks)
          p
          b
      → Both bytes h.metadata_offset h.metadata_size directory_tree
          (λ x. staged sections h x sections.no_directory sections.no_index sections.no_chunks)
          (process crc32 sections metadata p)
          (visit_metadata sections bytes b (
            staged sections h sections.no_metadata sections.no_directory sections.no_index
              sections.no_chunks))
  unfolding process process_metadata
  metadata_Both m p b ahead alone within side =
      let size = h.metadata_size in
      let offset = h.metadata_offset in
      let l = read_metadata crc32 sections p in
      let keep : M → ParseResult M D I C =
        λ x. staged sections h x sections.no_directory sections.no_index sections.no_chunks in
      let there =
        section_there bytes h offset size metadata (λ x. sections.parse_metadata x size) valid
          within in
      let read : Read (gives m) keep sections.no_metadata p l = record {
        result = rw (side.result, side.buffer, ahead) refl;
        warnings = refl;
        buffer = refl;
        bytes_processed = refl;
        returns = rw (side.result, side.buffer, ahead) refl;
        finds = refl;
      } in
      subst
        (λ f.
          Both bytes offset size directory_tree keep (process_metadata crc32 sections p)
            (visit size directory_tree f keep b (keep sections.no_metadata)))
        (sym (there ∙ alone))
        (subst
          (λ r.
            Both bytes offset size directory_tree keep
              (pass r.header.metadata_size directory_tree l p)
              (visit size directory_tree (gives m) keep b (keep sections.no_metadata)))
          (sym side.result)
          (pass-visit bytes offset metadata directory_tree keep sections.no_metadata p l b size
            (gives m) side (λ there. read) within fits))

  pub directory_Both :
      (m : M) (p : StreamParser M D I C) (b : Parser)
      → (1 ≤ h.directory_size
          → IsRead
              (sections.load_directory
                (take h.directory_size (drop h.directory_offset bytes))
                sections.no_directory)
              sections.no_directory)
      → h.directory_offset + h.directory_size ≤ length bytes
      → Side bytes h.directory_offset directory_tree
          (staged sections h m sections.no_directory sections.no_index sections.no_chunks)
          p
          b
      → Both bytes h.directory_offset h.directory_size index_table
          (λ x. staged sections h m x sections.no_index sections.no_chunks)
          (process crc32 sections directory_tree p)
          (visit_directory_tree sections bytes b
            (staged sections h m sections.no_directory sections.no_index sections.no_chunks))
  unfolding process process_directory_tree
  directory_Both m p b reads within side =
      let l = read_directory crc32 sections p in
      let keep : D → ParseResult M D I C =
        λ x. staged sections h m x sections.no_index sections.no_chunks in
      let found = section bytes h h.directory_offset h.directory_size directory_tree (λ span.
        loaded corrupt_directory directory_tree h.directory_offset
          (sections.load_directory span sections.no_directory)) in
      subst
        (λ r.
          Both bytes h.directory_offset h.directory_size index_table keep
            (pass r.header.directory_size index_table l p)
            (visit h.directory_size index_table found keep b (keep sections.no_directory)))
        (sym side.result)
        (object_Both bytes h h.directory_offset h.directory_size directory_tree index_table
          corrupt_directory keep sections.load_directory sections.no_directory p l b valid fits
          within reads side (rw (side.result, side.buffer) refl)
          (rw (side.result, side.buffer) refl) refl refl (rw (side.result, side.buffer) refl))

  pub index_Both :
      (m : M) (d : D) (p : StreamParser M D I C) (b : Parser)
      → (1 ≤ h.index_size
          → IsRead
              (sections.load_index
                (take h.index_size (drop h.index_offset bytes))
                sections.no_index)
              sections.no_index)
      → h.index_offset + h.index_size ≤ length bytes
      → Side bytes h.index_offset index_table
          (staged sections h m d sections.no_index sections.no_chunks)
          p
          b
      → Both bytes h.index_offset h.index_size chunk_table
          (λ x. staged sections h m d x sections.no_chunks)
          (process crc32 sections index_table p)
          (visit_index_table sections bytes b
            (staged sections h m d sections.no_index sections.no_chunks))
  unfolding process process_index_table
  index_Both m d p b reads within side =
      let l = read_index crc32 sections p in
      let keep : I → ParseResult M D I C = λ x. staged sections h m d x sections.no_chunks in
      let found = section bytes h h.index_offset h.index_size index_table (λ span.
        loaded corrupt_index index_table h.index_offset
          (sections.load_index span sections.no_index)) in
      subst
        (λ r.
          Both bytes h.index_offset h.index_size chunk_table keep
            (pass r.header.index_size chunk_table l p)
            (visit h.index_size chunk_table found keep b (keep sections.no_index)))
        (sym side.result)
        (object_Both bytes h h.index_offset h.index_size index_table chunk_table corrupt_index keep
          sections.load_index sections.no_index p l b valid fits within reads side
          (rw (side.result, side.buffer) refl) (rw (side.result, side.buffer) refl) refl refl
          (rw (side.result, side.buffer) refl))

  pub chunks_Both :
      (m : M) (d : D) (i : I) (p : StreamParser M D I C) (b : Parser)
      → (1 ≤ h.chunk_size
          → IsRead
              (sections.load_chunks
                (take h.chunk_size (drop h.chunk_offset bytes))
                sections.no_chunks)
              sections.no_chunks)
      → h.chunk_offset + h.chunk_size ≤ length bytes
      → Side bytes h.chunk_offset chunk_table (staged sections h m d i sections.no_chunks) p b
      → Both bytes h.chunk_offset h.chunk_size compressed_blocks
          (λ x. staged sections h m d i x)
          (process crc32 sections chunk_table p)
          (visit_chunk_table sections bytes b (staged sections h m d i sections.no_chunks))
  unfolding process process_chunk_table
  chunks_Both m d i p b reads within side =
      let l = read_chunks crc32 sections p in
      let keep : C → ParseResult M D I C = λ x. staged sections h m d i x in
      let found = section bytes h h.chunk_offset h.chunk_size chunk_table (λ span.
        loaded corrupt_chunk_table chunk_table h.chunk_offset
          (sections.load_chunks span sections.no_chunks)) in
      subst
        (λ r.
          Both bytes h.chunk_offset h.chunk_size compressed_blocks keep
            (pass r.header.chunk_size compressed_blocks l p)
            (visit h.chunk_size compressed_blocks found keep b (keep sections.no_chunks)))
        (sym side.result)
        (object_Both bytes h h.chunk_offset h.chunk_size chunk_table compressed_blocks
          corrupt_chunk_table keep sections.load_chunks sections.no_chunks p l b valid fits within
          reads side (rw (side.result, side.buffer) refl) (rw (side.result, side.buffer) refl) refl
          refl (rw (side.result, side.buffer) refl))
