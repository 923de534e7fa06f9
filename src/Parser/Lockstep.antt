-- ===== src/Parser/Lockstep.antt =====
-- One section in src/parser/Parser.cpp and in src/parser/StreamParser.cpp side by side.
use nebula_fs.Common.{
  ℕ, zero, suc, ◌+◌, ◌%◌, ◌^◌, ◌≤◌, ◌<◌, ◌≡◌, refl, sym, ap, ◌∙◌, false, Option, none, List, [],
  ◌∷◌, ◌++◌, lt→ltb, length, drop, length-drop, drop-drop, arith,
}
use mathlib.Core.Path.{subst}
use nebula_fs.Parsing.{
  ParserState, ParseError, Escape, Ended, gives, denies, escapes, given_or, escape_of, ParseResult,
}
use nebula_fs.StreamParser.{StreamParser, Consumed, consumed, pass, leave}
use nebula_fs.StreamParser.Rounds.{pass_empty, pass_there}
use nebula_fs.Parser.{Parser, add_warning, settle, visit}

-- The warnings after a section.
abbrev pub warned : {A : Type 0} → Ended A → List ParseError → List ParseError
warned (gives a) ws = ws
warned (denies e) ws = ws ++ (e ∷ [])
warned (escapes e) ws = ws

module _ {M D I C : Type 0} where
  -- The stream parser and the parser at the byte n of the same archive.
  pub record Side (bytes : List ℕ) (n : ℕ) (s : ParserState) (r : ParseResult M D I C)
      (p : StreamParser M D I C) (b : Parser) : Type 0 where
    pub state : p.state ≡ s
    pub result : p.result ≡ r
    pub warnings : p.warnings ≡ b.warnings
    pub buffer : p.buffer ≡ drop n bytes
    pub bytes_processed : p.bytes_processed ≡ n
    pub lenient : b.config.strict_mode ≡ false

  pub Side-at :
      {bytes : List ℕ} {n m : ℕ} {s : ParserState} {r : ParseResult M D I C}
      {p : StreamParser M D I C} {b : Parser}
      → m ≡ n
      → Side bytes n s r p b
      → Side bytes m s r p b
  Side-at {bytes} {n} {m} {s} {r} {p} {b} same side =
      subst (λ k. Side bytes k s r p b) (sym same) side

  -- What the stream parser has read of a section, before it leaves it.
  pub record Read {A : Type 0} (found : Ended A) (keep : A → ParseResult M D I C) (old : A)
      (p : StreamParser M D I C) (l : StreamParser M D I C × Option Escape) : Type 0 where
    pub result : l.0.result ≡ keep (given_or found old)
    pub warnings : l.0.warnings ≡ warned found p.warnings
    pub buffer : l.0.buffer ≡ p.buffer
    pub bytes_processed : l.0.bytes_processed ≡ p.bytes_processed
    pub returns : l.1 ≡ none
    pub finds : escape_of found ≡ none

  -- Both have done the section.
  pub record Both {A : Type 0} (bytes : List ℕ) (n size : ℕ) (next : ParserState)
      (keep : A → ParseResult M D I C) (round : StreamParser M D I C × Consumed)
      (visited : Parser × Ended (ParseResult M D I C)) : Type 0 where
    pub read : A
    pub stream : StreamParser M D I C
    pub bulk : Parser
    pub round_is : round ≡ (stream, consumed size)
    pub visited_is : visited ≡ (bulk, gives (keep read))
    pub side : Side bytes (n + size) next (keep read) stream bulk

  module _ {A : Type 0} (bytes : List ℕ) (n : ℕ) (s next : ParserState)
      (keep : A → ParseResult M D I C) (old : A) (p : StreamParser M D I C)
      (l : StreamParser M D I C × Option Escape) (b : Parser) where
    leave-Side :
        (size : ℕ) (found : Ended A) (b' : Parser)
        → Side bytes n s (keep old) p b
        → Read found keep old p l
        → n + size < 2 ^ 64
        → b'.warnings ≡ warned found b.warnings
        → b'.config.strict_mode ≡ false
        → Side bytes (n + size) next (keep (given_or found old)) (leave size next l.0) b'
    leave-Side size found b' side read fits same lenient = record {
      state = refl;
      result = read.result;
      warnings = rw (read.warnings, side.warnings, same) refl;
      buffer = ap (drop size) read.buffer ∙ ap (drop size) side.buffer ∙ drop-drop n size bytes;
      bytes_processed =
          ap (λ k. (k + size) % 2 ^ 64) (read.bytes_processed ∙ side.bytes_processed) ∙ omega arith;
      lenient = lenient;
    }

    visit_there :
        (size : ℕ) (found : Ended A)
        → visit (suc size) next found keep b (keep old) ≡ settle next found keep b (keep old)
    unfolding visit
    visit_there size found = rw (lt→ltb 0 (suc size) (omega arith)) refl

    pub pass-visit :
        (size : ℕ) (found : Ended A)
        → Side bytes n s (keep old) p b
        → (1 ≤ size → Read found keep old p l)
        → n + size ≤ length bytes
        → length bytes < 2 ^ 64
        → Both bytes n size next keep (pass size next l p) (visit size next found keep b (keep old))
    unfolding visit settle
    pass-visit zero found side read enough fits = record {
      read = old;
      stream = record p { state = next };
      bulk = record b { state = next };
      round_is = pass_empty next 0 l p refl;
      visited_is = refl;
      side = record {
        state = refl;
        result = side.result;
        warnings = side.warnings;
        buffer = rw (side.buffer) (ap (λ k. drop k bytes) (omega arith));
        bytes_processed = side.bytes_processed ∙ omega arith;
        lenient = side.lenient;
      };
    }
    pass-visit (suc size) (gives a) side read enough fits = record {
      read = a;
      stream = leave (suc size) next l.0;
      bulk = record b { state = next };
      round_is =
          pass_there next size l p (read (omega arith)).returns
            (rw side.buffer (omega (arith, length-drop n bytes)));
      visited_is = visit_there size (gives a);
      side =
          leave-Side (suc size) (gives a) (record b { state = next }) side (read (omega arith))
            (omega arith) refl side.lenient;
    }
    pass-visit (suc size) (denies e) side read enough fits = record {
      read = old;
      stream = leave (suc size) next l.0;
      bulk = record (add_warning e b) { state = next };
      round_is =
          pass_there next size l p (read (omega arith)).returns
            (rw side.buffer (omega (arith, length-drop n bytes)));
      visited_is = visit_there size (denies e) ∙ rw side.lenient refl;
      side =
          leave-Side (suc size) (denies e) (record (add_warning e b) { state = next }) side
            (read (omega arith)) (omega arith) (rw side.lenient refl) side.lenient;
    }
    pass-visit (suc size) (escapes e) side read enough fits = absurd (cc (read (omega arith)).finds)
