-- ===== src/StreamParser/Rounds.antt =====
-- What one round of the loop of src/parser/StreamParser.cpp does.
use nebula_fs.Common.{
  ℕ, zero, suc, ◌≤◌, ◌<◌, ◌≡◌, refl, ap, ◌∙◌, false, Bool-cases, inl, inr, Option, none, some, List,
  ltb, ltb-false, lt→ltb, ltb→lt, ◌==◌, length, arith,
}
use nebula_fs.Archive.Header.{ArchiveHeader, HeaderError, header_size, parse}
use nebula_fs.StreamParser.{
  ParserState, init, header, metadata, directory_tree, index_table, chunk_table, compressed_blocks,
  object_recon, complete, error, code, corrupt_header, ParseError, to_parse_error, Escape, Sections,
  StreamParser, Consumed, consumed, failed, escaped, blank_header, leave, leave_read, pass, ended,
  read_metadata, read_directory, read_index, read_chunks, read_blocks, take_header, process_header,
  process_metadata, process_directory_tree, process_index_table, process_chunk_table,
  process_compressed_blocks, finalize, process,
}

suc-==_zero : (n : ℕ) → (suc n == 0) ≡ false
suc-==_zero n = ground arith

module _ {M D I C : Type 0} where
  -- A round at p whose reader, if it has one, ends in l.
  pub data Round (p : StreamParser M D I C) (l : StreamParser M D I C × Option Escape)
      (now : StreamParser M D I C × Consumed) : Type 0 where
    waits : now ≡ (p, consumed 0) → Round p l now
    goes :
        (n : ℕ) (q : StreamParser M D I C)
        → now ≡ (q, consumed n)
        → code p.state < code q.state
        → code q.state ≤ 8
        → Round p l now
    fails : (e : ParseError) → now ≡ (p, failed e) → Round p l now
    leaves : (e : Escape) → now ≡ (l.0, escaped e) → l.1 ≡ some e → Round p l now

  along :
      {p : StreamParser M D I C} {l : StreamParser M D I C × Option Escape}
      {now now' : StreamParser M D I C × Consumed}
      → now' ≡ now
      → Round p l now
      → Round p l now'
  along same (waits e) = waits (same ∙ e)
  along same (goes n q e later last) = goes n q (same ∙ e) later last
  along same (fails e is) = fails e (same ∙ is)
  along same (leaves e is why) = leaves e (same ∙ is) why

  pub pass_empty :
      (next : ParserState) (size : ℕ) (l : StreamParser M D I C × Option Escape)
      (p : StreamParser M D I C)
      → size ≡ 0
      → pass size next l p ≡ (record p { state = next }, consumed 0)
  unfolding pass
  pass_empty next size l p e = rw e

  pub pass_short :
      (next : ParserState) (size : ℕ) (l : StreamParser M D I C × Option Escape)
      (p : StreamParser M D I C)
      → length p.buffer < size
      → pass size next l p ≡ (p, consumed 0)
  unfolding pass
  pass_short next zero l p short = absurd (omega arith)
  pass_short next (suc size) l p short =
      rw (suc-==_zero size, lt→ltb (length p.buffer) (suc size) short)

  pub pass_read :
      (next : ParserState) (size : ℕ) (l : StreamParser M D I C × Option Escape)
      (p : StreamParser M D I C)
      → suc size ≤ length p.buffer
      → pass (suc size) next l p ≡ leave_read (suc size) next l
  unfolding pass
  pass_read next size l p enough =
      rw (suc-==_zero size, ltb-false (length p.buffer) (suc size) enough)

  pub pass_there :
      (next : ParserState) (size : ℕ) (l : StreamParser M D I C × Option Escape)
      (p : StreamParser M D I C)
      → l.1 ≡ none
      → suc size ≤ length p.buffer
      → pass (suc size) next l p ≡ (leave (suc size) next l.0, consumed (suc size))
  unfolding leave_read
  pass_there next size l p returned enough =
      pass_read next size l p enough ∙ ap (λ o. leave_read (suc size) next (l.0, o)) returned

  read-Round :
      (size : ℕ) (next : ParserState) (l : StreamParser M D I C × Option Escape)
      (p : StreamParser M D I C)
      → code p.state < code next
      → code next ≤ 8
      → Round p l (leave_read size next l)
  unfolding leave_read
  read-Round size next (l, none) p later last = goes size (leave size next l) refl later last
  read-Round size next (l, some e) p later last = leaves e refl refl

  -- The round for a section.
  pass-Round :
      (size : ℕ) (next : ParserState) (l : StreamParser M D I C × Option Escape)
      (p : StreamParser M D I C)
      → code p.state < code next
      → code next ≤ 8
      → Round p l (pass size next l p)
  pass-Round zero next l p later last =
      goes 0 (record p { state = next }) (pass_empty next 0 l p refl) later last
  pass-Round (suc size) next l p later last = elim (Bool-cases (ltb (length p.buffer) (suc size))) [
    | inl short ↦ waits (pass_short next (suc size) l p (ltb→lt (length p.buffer) (suc size) short))
    | inr enough ↦
        along (pass_read next size l p (ground arith)) (read-Round (suc size) next l p later last)
  ]

module _ {M D I C : Type 0} (crc32 : List ℕ → ℕ) (sections : Sections M D I C) where
  -- What the reader of the section that a state stands for makes of the parser.
  pub reads : ParserState → StreamParser M D I C → StreamParser M D I C × Option Escape
  reads metadata p = read_metadata crc32 sections p
  reads directory_tree p = read_directory crc32 sections p
  reads index_table p = read_index crc32 sections p
  reads chunk_table p = read_chunks crc32 sections p
  reads compressed_blocks p = read_blocks crc32 sections p
  reads _ p = (p, none)

  take_header-Round :
      (p : StreamParser M D I C) (found : ArchiveHeader) (e : Option HeaderError)
      → code p.state ≤ 1
      → Round p (p, none) (take_header crc32 sections p found e)
  unfolding take_header
  take_header-Round p found (some e) early = fails (to_parse_error corrupt_header header 0) refl
  take_header-Round p found none early = goes header_size _ refl (omega arith) (omega arith)

  header-Round :
      (p : StreamParser M D I C)
      → code p.state ≤ 1
      → Round p (p, none) (process_header crc32 sections p)
  unfolding process_header
  header-Round p early = elim (Bool-cases (ltb (length p.buffer) header_size)) [
    | inl short ↦ waits (rw short)
    | inr enough ↦
        let parsed = parse crc32 p.buffer blank_header in
        along (rw enough) (take_header-Round p parsed.0 parsed.1 early)
  ]

  -- Every state that the loop goes on in.
  pub process-Round :
      (s : ParserState) (p : StreamParser M D I C)
      → p.state ≡ s
      → ended p ≡ false
      → Round p (reads s p) (process crc32 sections s p)
  unfolding reads process process_metadata process_directory_tree process_index_table
      process_chunk_table process_compressed_blocks finalize
  process-Round init p here on = header-Round p (rw here (omega arith))
  process-Round header p here on = header-Round p (rw here (omega arith))
  process-Round metadata p here on =
      pass-Round p.result.header.metadata_size directory_tree (read_metadata crc32 sections p) p
        (rw here (omega arith)) (omega arith)
  process-Round directory_tree p here on =
      pass-Round p.result.header.directory_size index_table (read_directory crc32 sections p) p
        (rw here (omega arith)) (omega arith)
  process-Round index_table p here on =
      pass-Round p.result.header.index_size chunk_table (read_index crc32 sections p) p
        (rw here (omega arith)) (omega arith)
  process-Round chunk_table p here on =
      pass-Round p.result.header.chunk_size compressed_blocks (read_chunks crc32 sections p) p
        (rw here (omega arith)) (omega arith)
  process-Round compressed_blocks p here on =
      pass-Round p.result.header.blocks_size object_recon (read_blocks crc32 sections p) p
        (rw here (omega arith)) (omega arith)
  process-Round object_recon p here on = goes 0 _ refl (rw here (omega arith)) (omega arith)
  process-Round complete p here on = cc (rw here at on)
  process-Round error p here on = cc (rw here at on)
