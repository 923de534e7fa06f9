-- ===== src/Parser/Rounds.antt =====
-- The last rounds of a whole archive, in src/parser/Parser.cpp and src/parser/StreamParser.cpp.
use nebula_fs.Common.{
  ℕ, zero, suc, ◌+◌, ◌-◌, ◌%◌, ◌^◌, ◌≤◌, ◌<◌, ◌≡◌, refl, sym, ap, ◌∙◌, Bool, true, false,
  Bool-cases, inl, inr, Option, none, some, List, [], ltb, ltb-false, length, drop, take,
  length-drop, arith,
}
use mathlib.Core.Path.{subst}
use nebula_fs.Archive.Header.{ArchiveHeader}
use nebula_fs.Parsing.{
  ParserState, compressed_blocks, object_recon, complete, code, Escape, Ended, Sections,
  ParseResult,
}
use nebula_fs.StreamParser.{
  StreamParser, Consumed, consumed, pass, leave, ended, read_blocks, process_compressed_blocks,
  finalize, process, loop,
}
use nebula_fs.StreamParser.Rounds.{pass_empty, pass_there}
use nebula_fs.StreamParser.Runs.{loop_moves}
use nebula_fs.Parser.{Parser, blocks_of, max_blocks_size}
use nebula_fs.Parser.Lockstep.{Side, Both}

-- The blocks are there, and the parser does not leave them out.
pub blocks_of-some :
    (allocates : ℕ → Bool) (bytes : List ℕ) (h : ArchiveHeader)
    → h.blocks_offset + h.blocks_size ≤ length bytes
    → h.blocks_size ≤ max_blocks_size
    → allocates h.blocks_size ≡ true
    → blocks_of allocates bytes h ≡ some (take h.blocks_size (drop h.blocks_offset bytes))
unfolding blocks_of
blocks_of-some allocates bytes h within small room =
    let size = h.blocks_size in
    let inside = ltb-false (length bytes) h.blocks_offset (omega arith) in
    let whole = ltb-false (length bytes - h.blocks_offset) size (omega arith) in
    let allowed = ltb-false max_blocks_size size small in
    elim (Bool-cases (ltb 0 size)) [
      | inl there ↦ rw (inside, whole, allowed, there, room) refl
      | inr not_there ↦
          let nothing : size ≡ 0 = ground arith in
          rw (inside, whole, allowed, not_there)
            (ap (λ k. some (take k (drop h.blocks_offset bytes))) (sym nothing))
    ]

module _ {M D I C : Type 0} (crc32 : List ℕ → ℕ) (sections : Sections M D I C) where
  abbrev pub Reaches : ℕ → StreamParser M D I C → StreamParser M D I C → Type 0
  Reaches fuel p q = (total : ℕ) → (c : Consumed) × (loop crc32 sections fuel total p ≡ some (q, c))

  pub Reaches-moves :
      (fuel : ℕ) (s : ParserState) (p q r : StreamParser M D I C) (n : ℕ)
      → p.state ≡ s
      → ended p ≡ false
      → process crc32 sections s p ≡ (q, consumed n)
      → code s < code q.state
      → Reaches fuel q r
      → Reaches (suc fuel) p r
  Reaches-moves fuel s p q r n here on done later further total =
      let rest = further ((total + n) % 2 ^ 64) in
      (
        rest.0,
        loop_moves crc32 sections fuel total p q n on
              (ap (λ t. process crc32 sections t p) here ∙ done)
              (subst (λ t. code t < code q.state) (sym here) later)
            ∙ rest.1,
      )

  pub Both-moves :
      {A : Type 0} (fuel : ℕ) (bytes : List ℕ) (n size : ℕ) (s next : ParserState)
      (keep : A → ParseResult M D I C) (visited : Parser × Ended (ParseResult M D I C))
      (p r : StreamParser M D I C)
      (both : Both bytes n size next keep (process crc32 sections s p) visited)
      → p.state ≡ s
      → ended p ≡ false
      → code s < code next
      → Reaches fuel both.stream r
      → Reaches (suc fuel) p r
  Both-moves fuel bytes n size s next keep visited p r both here on later =
      Reaches-moves fuel s p both.stream r size here on both.round_is
        (subst (λ t. code s < code t) (sym both.side.state) later)

  -- What the round for the blocks ends in.
  record Kept (size : ℕ) (r : ParseResult M D I C) (p : StreamParser M D I C)
      (round : StreamParser M D I C × Consumed) : Type 0 where
    parser : StreamParser M D I C
    done : round ≡ (parser, consumed size)
    state : parser.state ≡ object_recon
    result : parser.result ≡ r
    warnings : parser.warnings ≡ p.warnings

  pass-Kept :
      (size : ℕ) (r : ParseResult M D I C) (l : StreamParser M D I C × Option Escape)
      (p : StreamParser M D I C)
      → l.1 ≡ none
      → l.0.result ≡ r
      → l.0.warnings ≡ p.warnings
      → (size ≡ 0 → p.result ≡ r)
      → size ≤ length p.buffer
      → Kept size r p (pass size object_recon l p)
  pass-Kept zero r l p returns result warnings unread enough = record {
    parser = record p { state = object_recon };
    done = pass_empty object_recon 0 l p refl;
    state = refl;
    result = unread refl;
    warnings = refl;
  }
  pass-Kept (suc size) r l p returns result warnings unread enough = record {
    parser = leave (suc size) object_recon l.0;
    done = pass_there object_recon size l p returns enough;
    state = refl;
    result = result;
    warnings = warnings;
  }

  recon_on : (p : StreamParser M D I C) → p.state ≡ object_recon → ended p ≡ false
  recon_on p here = rw here refl

  -- The rounds for the blocks and for the end.
  pub blocks_Reaches :
      (bytes : List ℕ) (h : ArchiveHeader) (r : ParseResult M D I C) (p : StreamParser M D I C)
      (b : Parser)
      → r.header ≡ h
      → r.blocks_data ≡ []
      → h.blocks_offset + h.blocks_size ≤ length bytes
      → Side bytes h.blocks_offset compressed_blocks r p b
      → (q : StreamParser M D I C) × (q.result ≡ record r {
        blocks_data = take h.blocks_size (drop h.blocks_offset bytes);
        valid = true;
        warnings = b.warnings;
      })
        × (q.state ≡ complete)
        × Reaches 4 p q
  unfolding process process_compressed_blocks finalize loop
  blocks_Reaches bytes h r p b same empty within side =
      let blocks = take h.blocks_size (drop h.blocks_offset bytes) in
      let full = record r { blocks_data = blocks } in
      let l = read_blocks crc32 sections p in
      let sized : p.result.header.blocks_size ≡ h.blocks_size =
        ap (λ k. k.header.blocks_size) side.result ∙ ap (λ k. k.blocks_size) same in
      let kept : Kept h.blocks_size full p (pass h.blocks_size object_recon l p) =
        pass-Kept h.blocks_size full l p refl (rw (side.result, same, side.buffer) refl) refl
          (λ nothing. side.result ∙ rw (nothing, ← empty) refl)
          (rw side.buffer (omega (arith, length-drop h.blocks_offset bytes))) in
      let done : process crc32 sections compressed_blocks p
          ≡ (kept.parser, consumed h.blocks_size) =
        ap (λ k. pass k object_recon l p) sized ∙ kept.done in
      let q = kept.parser in
      let end = record q {
        result = record q.result { valid = true; warnings = q.warnings };
        state = complete;
      } in
      (
        end,
        rw (kept.result, kept.warnings, side.warnings) refl,
        refl,
        Reaches-moves 3 compressed_blocks p q end h.blocks_size side.state (rw side.state refl) done
            (rw kept.state (omega arith))
            (Reaches-moves 2 object_recon q end end 0 kept.state (recon_on q kept.state) refl
              (omega arith) (λ total. (consumed total, refl))),
      )
