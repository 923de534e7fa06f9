-- ===== src/Parser/Stages.antt =====
-- The parsers of src/parser side by side, from each section of a whole archive to its end.
use nebula_fs.Common.{
  ℕ, suc, ◌+◌, ◌^◌, ◌≤◌, ◌<◌, ◌≡◌, refl, ap, ◌∙◌, Bool, true, false, some, List, [], length, drop,
  take, arith,
}
use nebula_fs.Archive.Header.{ArchiveHeader, is_valid}
use nebula_fs.Parsing.{
  ParserState, metadata, directory_tree, index_table, chunk_table, compressed_blocks, complete,
  code, Ended, gives, Sections, ParseResult,
}
use nebula_fs.StreamParser.{StreamParser, ended, process}
use nebula_fs.Parser.{
  Parser, continue, finish, blocks_of, max_blocks_size, visit_metadata, visit_directory_tree,
  visit_index_table, visit_chunk_table, from_blocks, from_chunk_table, from_index_table,
  from_directory_tree, from_metadata,
}
use nebula_fs.Parser.Lockstep.{Side, Side-at, Both}
use nebula_fs.Parser.Agreement.{
  IsContiguous, IsRead, staged, metadata_Both, directory_Both, index_Both, chunks_Both,
}
use nebula_fs.Parser.Rounds.{blocks_of-some, Reaches, Both-moves, blocks_Reaches}

module _ {M D I C : Type 0} (crc32 : List ℕ → ℕ) (sections : Sections M D I C) where
  -- The sections that objects are loaded from, where they are not empty, are read, or end in an error
  -- that leaves the new object as it was.
  pub record AreRead (bytes : List ℕ) (h : ArchiveHeader) : Type 0 where
    pub directory :
        1 ≤ h.directory_size
        → IsRead
            (sections.load_directory
              (take h.directory_size (drop h.directory_offset bytes))
              sections.no_directory)
            sections.no_directory
    pub index :
        1 ≤ h.index_size
        → IsRead
            (sections.load_index (take h.index_size (drop h.index_offset bytes)) sections.no_index)
            sections.no_index
    pub chunks :
        1 ≤ h.chunk_size
        → IsRead
            (sections.load_chunks
              (take h.chunk_size (drop h.chunk_offset bytes))
              sections.no_chunks)
            sections.no_chunks

  -- What is asked of the readers at an archive's sections: the metadata is read, from what is left of
  -- the archive as from its section alone, and so are the objects.
  pub record IsReadable (m : M) (bytes : List ℕ) (h : ArchiveHeader) : Type 0 where
    pub ahead : sections.parse_metadata (drop h.metadata_offset bytes) h.metadata_size ≡ gives m
    pub alone :
        sections.parse_metadata
          (take h.metadata_size (drop h.metadata_offset bytes))
          h.metadata_size
        ≡ gives m
    pub objects : AreRead bytes h

  -- The parsers agree: the parser answers r, and the stream parser ends with it.
  pub record Agree (parsed : Parser × Ended (ParseResult M D I C)) (fuel : ℕ)
      (p : StreamParser M D I C) : Type 0 where
    pub bulk : Parser
    pub result : ParseResult M D I C
    pub stream : StreamParser M D I C
    pub parsed_is : parsed ≡ (bulk, gives result)
    pub bulk_state : bulk.state ≡ complete
    pub stream_state : stream.state ≡ complete
    pub same : stream.result ≡ result
    pub reaches : Reaches crc32 sections fuel p stream

  Agree-continue :
      {A : Type 0} (fuel : ℕ) (bytes : List ℕ) (n size : ℕ) (s next : ParserState)
      (keep : A → ParseResult M D I C) (visited : Parser × Ended (ParseResult M D I C))
      (rest : Parser → ParseResult M D I C → Parser × Ended (ParseResult M D I C))
      (p : StreamParser M D I C)
      (both : Both bytes n size next keep (process crc32 sections s p) visited)
      → p.state ≡ s
      → ended p ≡ false
      → code s < code next
      → Agree (rest both.bulk (keep both.read)) fuel both.stream
      → Agree (continue visited.0 visited.1 rest) (suc fuel) p
  unfolding continue
  Agree-continue fuel bytes n size s next keep visited rest p both here on later after = record {
    bulk = after.bulk;
    result = after.result;
    stream = after.stream;
    parsed_is = ap (λ v. continue v.0 v.1 rest) both.visited_is ∙ after.parsed_is;
    bulk_state = after.bulk_state;
    stream_state = after.stream_state;
    same = after.same;
    reaches =
        Both-moves crc32 sections fuel bytes n size s next keep visited p after.stream both here on
          later after.reaches;
  }

  module _ (allocates : ℕ → Bool) (bytes : List ℕ) (h : ArchiveHeader) (valid : is_valid h ≡ true)
      (fits : length bytes < 2 ^ 64) (contiguous : IsContiguous h)
      (within : h.blocks_offset + h.blocks_size ≤ length bytes)
      (small : h.blocks_size ≤ max_blocks_size) (room : allocates h.blocks_size ≡ true) where
    blocks_Agree :
        (r : ParseResult M D I C) (p : StreamParser M D I C) (b : Parser)
        → r.header ≡ h
        → r.blocks_data ≡ []
        → Side bytes h.blocks_offset compressed_blocks r p b
        → Agree (from_blocks allocates sections bytes b r) 4 p
    unfolding from_blocks finish
    blocks_Agree r p b same empty side =
        let ends = blocks_Reaches crc32 sections bytes h r p b same empty within side in
        let blocks = take h.blocks_size (drop h.blocks_offset bytes) in
        let found : blocks_of allocates bytes r.header ≡ some blocks =
          ap (blocks_of allocates bytes) same
          ∙ blocks_of-some allocates bytes h within small room in
        record {
          bulk = record b { state = complete };
          result = record r { blocks_data = blocks; valid = true; warnings = b.warnings };
          stream = ends.0;
          parsed_is = ap (λ o. finish o b r) found;
          bulk_state = refl;
          stream_state = ends.2;
          same = ends.1;
          reaches = ends.3;
        }

    chunks_Agree :
        (m : M) (d : D) (i : I) (p : StreamParser M D I C) (b : Parser)
        → AreRead bytes h
        → Side bytes h.chunk_offset chunk_table (staged sections h m d i sections.no_chunks) p b
        → Agree
            (from_chunk_table allocates sections bytes b
              (staged sections h m d i sections.no_chunks))
            5
            p
    unfolding from_chunk_table
    chunks_Agree m d i p b readable side =
        let both =
          chunks_Both crc32 sections bytes h valid fits m d i p b readable.chunks (omega arith)
            side in
        Agree-continue 4 bytes h.chunk_offset h.chunk_size chunk_table compressed_blocks
          (λ x. staged sections h m d i x)
          (visit_chunk_table sections bytes b (staged sections h m d i sections.no_chunks))
          (from_blocks allocates sections bytes) p both side.state (rw side.state refl)
          (omega arith)
          (blocks_Agree (staged sections h m d i both.read) both.stream both.bulk refl refl
            (Side-at contiguous.blocks both.side))

    index_Agree :
        (m : M) (d : D) (p : StreamParser M D I C) (b : Parser)
        → AreRead bytes h
        → Side bytes h.index_offset index_table
            (staged sections h m d sections.no_index sections.no_chunks)
            p
            b
        → Agree
            (from_index_table allocates sections bytes b
              (staged sections h m d sections.no_index sections.no_chunks))
            6
            p
    unfolding from_index_table
    index_Agree m d p b readable side =
        let both =
          index_Both crc32 sections bytes h valid fits m d p b readable.index (omega arith) side in
        Agree-continue 5 bytes h.index_offset h.index_size index_table chunk_table
          (λ x. staged sections h m d x sections.no_chunks)
          (visit_index_table sections bytes b
            (staged sections h m d sections.no_index sections.no_chunks))
          (from_chunk_table allocates sections bytes) p both side.state (rw side.state refl)
          (omega arith)
          (chunks_Agree m d both.read both.stream both.bulk readable
            (Side-at contiguous.chunks both.side))

    directory_Agree :
        (m : M) (p : StreamParser M D I C) (b : Parser)
        → AreRead bytes h
        → Side bytes h.directory_offset directory_tree
            (staged sections h m sections.no_directory sections.no_index sections.no_chunks)
            p
            b
        → Agree
            (from_directory_tree allocates sections bytes b
              (staged sections h m sections.no_directory sections.no_index sections.no_chunks))
            7
            p
    unfolding from_directory_tree
    directory_Agree m p b readable side =
        let both =
          directory_Both crc32 sections bytes h valid fits m p b readable.directory (omega arith)
            side in
        Agree-continue 6 bytes h.directory_offset h.directory_size directory_tree index_table
          (λ x. staged sections h m x sections.no_index sections.no_chunks)
          (visit_directory_tree sections bytes b
            (staged sections h m sections.no_directory sections.no_index sections.no_chunks))
          (from_index_table allocates sections bytes) p both side.state (rw side.state refl)
          (omega arith)
          (index_Agree m both.read both.stream both.bulk readable
            (Side-at contiguous.index both.side))

    pub metadata_Agree :
        (m : M) (p : StreamParser M D I C) (b : Parser)
        → IsReadable m bytes h
        → Side bytes h.metadata_offset metadata
            (staged sections h sections.no_metadata sections.no_directory sections.no_index
              sections.no_chunks)
            p
            b
        → Agree
            (from_metadata allocates sections bytes b (
              staged sections h sections.no_metadata sections.no_directory sections.no_index
                sections.no_chunks))
            8
            p
    unfolding from_metadata
    metadata_Agree m p b readable side =
        let both =
          metadata_Both crc32 sections bytes h valid fits m p b readable.ahead readable.alone
            (omega arith) side in
        Agree-continue 7 bytes h.metadata_offset h.metadata_size metadata directory_tree
          (λ x. staged sections h x sections.no_directory sections.no_index sections.no_chunks)
          (visit_metadata sections bytes b (
            staged sections h sections.no_metadata sections.no_directory sections.no_index
              sections.no_chunks))
          (from_directory_tree allocates sections bytes) p both side.state (rw side.state refl)
          (omega arith)
          (directory_Agree both.read both.stream both.bulk readable.objects
            (Side-at contiguous.directory both.side))
