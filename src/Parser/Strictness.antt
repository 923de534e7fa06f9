-- ===== src/Parser/Strictness.antt =====
-- The strict mode of src/parser/Parser.cpp against the lenient one.
use nebula_fs.Common.{
  ℕ, ◌≤◌, ◌≡◌, refl, sym, Bool, true, false, Bool-cases, inl, inr, Option, none, some, List, [],
  ◌∷◌, ltb, length, length-append, arith,
}
use mathlib.Core.Path.{subst}
use nebula_fs.Archive.Header.{ArchiveHeader, header_size}
use nebula_fs.Parsing.{
  ParserState, header, metadata, directory_tree, index_table, chunk_table, corrupt_header,
  out_of_memory, compressed_blocks, ParseError, to_parse_error, Result, value, failure, Escape,
  Ended, gives, denies, escapes, Sections, ParseResult, no_result,
}
use nebula_fs.Parser.{
  Parser, add_warning, escalated, settle, visit, continue, finish, blocks_of, parse_header,
  parse_metadata, parse_directory_tree, parse_index_table, parse_chunk_table, from_blocks,
  from_chunk_table, from_index_table, from_directory_tree, from_metadata, parse_sections,
  parse_internal, parse,
}

-- A parser of that mode without warnings.
pub record IsClean (strict : Bool) (p : Parser) : Type 0 where
  pub mode : p.config.strict_mode ≡ strict
  pub warnings : p.warnings ≡ []

module _ {M D I C : Type 0} where
  -- A result with warnings, or none.
  abbrev pub Doubted : Ended (ParseResult M D I C) → Type 0
  Doubted (gives r) = 1 ≤ length r.warnings
  Doubted (escapes e) = Unit
  Doubted (denies e) = Unit

  -- How the answers of a strict and of a lenient parser differ.
  pub data Stricter (strict lenient : Ended (ParseResult M D I C)) : Type 0 where
    answers :
        (r : ParseResult M D I C)
        → strict ≡ gives r
        → lenient ≡ gives r
        → r.warnings ≡ []
        → Stricter strict lenient
    stops : (e : Escape) → strict ≡ escapes e → lenient ≡ escapes e → Stricter strict lenient
    refuses : (e : ParseError) → strict ≡ denies e → Doubted lenient → Stricter strict lenient

  pub record Compares (rest : Parser → ParseResult M D I C → Parser × Ended (ParseResult M D I C))
      : Type 0 where
    pub clean :
        (p q : Parser) (r : ParseResult M D I C)
        → IsClean true p
        → IsClean false q
        → Stricter (rest p r).1 (rest q r).1
    pub doubted :
        (q : Parser) (r : ParseResult M D I C)
        → q.config.strict_mode ≡ false
        → 1 ≤ length q.warnings
        → Doubted (rest q r).1

  module _ (next : ParserState)
      (rest : Parser → ParseResult M D I C → Parser × Ended (ParseResult M D I C))
      (compares : Compares rest) where
    passed-Stricter :
        (r : ParseResult M D I C) (p q : Parser)
        → IsClean true p
        → IsClean false q
        → Stricter (rest (record p { state = next }) r).1 (rest (record q { state = next }) r).1
    passed-Stricter r p q strict lenient =
        compares.clean (record p { state = next }) (record q { state = next }) r
          (record { mode = strict.mode; warnings = strict.warnings })
          (record { mode = lenient.mode; warnings = lenient.warnings })

  module _ {A : Type 0} (next : ParserState)
      (rest : Parser → ParseResult M D I C → Parser × Ended (ParseResult M D I C))
      (compares : Compares rest) where
    -- A warning more.
    noted-Doubted :
        (e : ParseError) (found : Ended A) (keep : A → ParseResult M D I C)
        (r : ParseResult M D I C) (q : Parser)
        → found ≡ denies e
        → q.config.strict_mode ≡ false
        → Doubted (continue (settle next found keep q r).0 (settle next found keep q r).1 rest).1
    unfolding settle continue
    noted-Doubted e found keep r q failed lenient =
        let noted = record (add_warning e q) { state = next } in
        let goes_on : settle next found keep q r ≡ (noted, gives r) = rw (failed, lenient) refl in
        let more = length-append q.warnings (escalated q.config.strict_mode e ∷ []) in
        subst (λ s. Doubted (continue s.0 s.1 rest).1) (sym goes_on)
          (compares.doubted noted r lenient (omega (arith, more)))

    settle-Stricter :
        (found : Ended A) (keep : A → ParseResult M D I C) (r : ParseResult M D I C) (p q : Parser)
        → IsClean true p
        → IsClean false q
        → Stricter
            (continue (settle next found keep p r).0 (settle next found keep p r).1 rest).1
            (continue (settle next found keep q r).0 (settle next found keep q r).1 rest).1
    unfolding settle continue
    settle-Stricter (gives a) keep r p q strict lenient =
        passed-Stricter next rest compares (keep a) p q strict lenient
    settle-Stricter (denies e) keep r p q strict lenient =
        refuses e (rw strict.mode refl) (noted-Doubted e (denies e) keep r q refl lenient.mode)
    settle-Stricter (escapes e) keep r p q strict lenient = stops e refl refl

    settle-Doubted :
        (found : Ended A) (keep : A → ParseResult M D I C) (r : ParseResult M D I C) (q : Parser)
        → q.config.strict_mode ≡ false
        → 1 ≤ length q.warnings
        → Doubted (continue (settle next found keep q r).0 (settle next found keep q r).1 rest).1
    unfolding settle continue
    settle-Doubted (gives a) keep r q lenient some_warning =
        compares.doubted (record q { state = next }) (keep a) lenient some_warning
    settle-Doubted (denies e) keep r q lenient some_warning =
        noted-Doubted e (denies e) keep r q refl lenient
    settle-Doubted (escapes e) keep r q lenient some_warning = tt

    -- A section, and then the rest.
    pub visit-Compares :
        (size : ParseResult M D I C → ℕ) (found : ParseResult M D I C → Ended A)
        (keep : ParseResult M D I C → A → ParseResult M D I C)
        → Compares (λ p r.
          let done = visit (size r) next (found r) (keep r) p r in continue done.0 done.1 rest)
    unfolding visit continue
    visit-Compares size found keep = record {
      clean = λ p q r strict lenient. elim (Bool-cases (ltb 0 (size r))) [
        | inl there ↦ rw there (settle-Stricter (found r) (keep r) r p q strict lenient)
        | inr empty ↦ rw empty (passed-Stricter next rest compares r p q strict lenient)
      ];
      doubted = λ q r lenient some_warning. elim (Bool-cases (ltb 0 (size r))) [
        | inl there ↦ rw there (settle-Doubted (found r) (keep r) r q lenient some_warning)
        | inr empty ↦ rw empty (compares.doubted (record q { state = next }) r lenient some_warning)
      ];
    }

  finish-Stricter :
      (blocks : Option (List ℕ)) (p q : Parser) (r : ParseResult M D I C)
      → IsClean true p
      → IsClean false q
      → Stricter (finish blocks p r).1 (finish blocks q r).1
  unfolding finish
  finish-Stricter none p q r strict lenient =
      refuses (to_parse_error out_of_memory compressed_blocks 0) refl (tt)
  finish-Stricter (some blocks) p q r strict lenient =
      answers (record r { blocks_data = blocks; valid = true; warnings = [] })
        (rw strict.warnings refl) (rw lenient.warnings refl) refl

  finish-Doubted :
      (blocks : Option (List ℕ)) (q : Parser) (r : ParseResult M D I C)
      → 1 ≤ length q.warnings
      → Doubted (finish blocks q r).1
  unfolding finish
  finish-Doubted none q r some_warning = tt
  finish-Doubted (some blocks) q r some_warning = some_warning

module _ {M D I C : Type 0} (allocates : ℕ → Bool) (sections : Sections M D I C)
    (bytes : List ℕ) where
  from_blocks-Compares : Compares (from_blocks allocates sections bytes)
  unfolding from_blocks
  from_blocks-Compares = record {
    clean = λ p q r strict lenient.
        finish-Stricter (blocks_of allocates bytes r.header) p q r strict lenient;
    doubted = λ q r lenient some_warning.
        finish-Doubted (blocks_of allocates bytes r.header) q r some_warning;
  }

  from_chunk_table-Compares : Compares (from_chunk_table allocates sections bytes)
  unfolding from_chunk_table
  from_chunk_table-Compares =
      visit-Compares compressed_blocks (from_blocks allocates sections bytes) from_blocks-Compares
        (λ r. r.header.chunk_size) (λ r. parse_chunk_table sections bytes r.header)
        (λ r c. record r { chunk_manager = c })

  from_index_table-Compares : Compares (from_index_table allocates sections bytes)
  unfolding from_index_table
  from_index_table-Compares =
      visit-Compares chunk_table (from_chunk_table allocates sections bytes)
        from_chunk_table-Compares (λ r. r.header.index_size)
        (λ r. parse_index_table sections bytes r.header) (λ r i. record r { index_manager = i })

  from_directory_tree-Compares : Compares (from_directory_tree allocates sections bytes)
  unfolding from_directory_tree
  from_directory_tree-Compares =
      visit-Compares index_table (from_index_table allocates sections bytes)
        from_index_table-Compares (λ r. r.header.directory_size)
        (λ r. parse_directory_tree sections bytes r.header) (λ r d. record r { directory_tree = d })

  from_metadata-Compares : Compares (from_metadata allocates sections bytes)
  unfolding from_metadata
  from_metadata-Compares =
      visit-Compares directory_tree (from_directory_tree allocates sections bytes)
        from_directory_tree-Compares (λ r. r.header.metadata_size)
        (λ r. parse_metadata sections bytes r.header) (λ r m. record r { metadata = m })

  sections-Stricter :
      (p q : Parser) (found : Result ArchiveHeader)
      → IsClean true p
      → IsClean false q
      → Stricter
          (parse_sections allocates sections bytes p found).1
          (parse_sections allocates sections bytes q found).1
  unfolding parse_sections
  sections-Stricter p q (failure e) strict lenient = refuses e refl (tt)
  sections-Stricter p q (value h) strict lenient =
      from_metadata-Compares.clean (record p { state = metadata }) (record q { state = metadata })
        (record (no_result sections) { header = h })
        (record { mode = strict.mode; warnings = strict.warnings })
        (record { mode = lenient.mode; warnings = lenient.warnings })

-- A strict parser and a lenient one that are given the same bytes: either both answer with the same
-- result, which has no warning, or the same exception or undefined behaviour of a reader ends both, or
-- the strict one fails, and the lenient one fails too, answers with a warning, or is ended by a reader.
pub parse-Stricter :
    {M D I C : Type 0} (crc32 : List ℕ → ℕ) (allocates : ℕ → Bool) (sections : Sections M D I C)
    (bytes : List ℕ) (p q : Parser)
    → p.config.strict_mode ≡ true
    → q.config.strict_mode ≡ false
    → Stricter (parse crc32 allocates sections bytes p).1 (parse crc32 allocates sections bytes q).1
unfolding parse parse_internal
parse-Stricter crc32 allocates sections bytes p q strict lenient =
    elim (Bool-cases (ltb (length bytes) header_size)) [
      | inl short ↦
          rw short (refuses (to_parse_error corrupt_header header (length bytes)) refl (tt))
      | inr enough ↦ rw enough (
          sections-Stricter allocates sections bytes (record p { state = header; warnings = [] })
            (record q { state = header; warnings = [] }) (parse_header crc32 bytes)
            (record { mode = strict; warnings = refl })
            (record { mode = lenient; warnings = refl }))
    ]
