-- ===== src/Parser/Tests.antt =====
-- Readers that keep the bytes of their sections, one that fails on its own, and the theorems at them.
use nebula_fs.Common.{
  ℕ, ◌≡◌, refl, inl, inr, Bool, true, some, List, [], ◌++◌, take, replicate, arith,
}
use nebula_fs.Packed.{pack}
use nebula_fs.Archive.Header.{serialize, update_checksum}
use nebula_fs.Archive.Tests.{sum32, plain, plain-IsPacked, plain-is_valid}
use nebula_fs.Parsing.{ParserState, complete, gives, loads, breaks, Sections, no_result}
use nebula_fs.StreamParser.{StreamParser, Consumed, feed}
use nebula_fs.StreamParser
use nebula_fs.Parser.{Parser, default_config, new_parser, parse}
use nebula_fs.Parser.Agreement.{IsContiguous}
use nebula_fs.Parser.Stages.{IsReadable}
use nebula_fs.Parser.Whole.{parse-feed}
use nebula_fs.Parser.Strictness.{Stricter, parse-Stricter}

abbrev picky : Sections (List ℕ) (List ℕ) (List ℕ) (List ℕ)
picky = record {
  no_metadata = [];
  parse_metadata = λ bytes size. gives (take size bytes);
  no_directory = [];
  load_directory = λ bytes old. (old, breaks);
  no_index = [];
  load_index = λ bytes old. (bytes, loads);
  no_chunks = [];
  load_chunks = λ bytes old. (bytes, loads);
}

abbrev body : List ℕ
body = replicate 145 1

abbrev archive : List ℕ
archive = serialize (update_checksum sum32 plain) ++ body

abbrev everything : ℕ → Bool
everything n = true

abbrev lenient : Parser
lenient = new_parser default_config

abbrev strict : Parser
strict = new_parser (record default_config { strict_mode = true })

abbrev streaming : StreamParser (List ℕ) (List ℕ) (List ℕ) (List ℕ)
streaming = record {
  state = ParserState.init;
  result = no_result picky;
  buffer = [];
  warnings = [];
  bytes_processed = 0;
  expected_size = 0;
}

plain-IsContiguous : IsContiguous plain
plain-IsContiguous = record {
  metadata = refl;
  directory = refl;
  index = refl;
  chunks = refl;
  blocks = refl;
}

archive-IsReadable : IsReadable sum32 picky (replicate 12 1) archive (update_checksum sum32 plain)
unfolding update_checksum serialize pack
archive-IsReadable = record {
  ahead = refl;
  alone = refl;
  objects = record {
    directory = λ there. inr (refl, refl);
    index = λ there. inl refl;
    chunks = λ there. inl refl;
  };
}

parse-feed_example :
    (b' : Parser) × (q : StreamParser (List ℕ) (List ℕ) (List ℕ) (List ℕ)) × (c : Consumed) × (feed
        sum32 picky archive
        (StreamParser.reset sum32 picky streaming)
      ≡ some (q, c))
    × (parse sum32 everything picky archive lenient ≡ (b', gives q.result))
    × (b'.state ≡ complete)
    × (q.state ≡ complete)
parse-feed_example =
    parse-feed sum32 picky everything plain body (replicate 12 1) streaming lenient plain-is_valid
      plain-IsPacked plain-IsContiguous (omega arith) (omega arith) (omega arith) refl
      archive-IsReadable refl

parse-Stricter_example :
    Stricter
      (parse sum32 everything picky archive strict).1
      (parse sum32 everything picky archive lenient).1
parse-Stricter_example = parse-Stricter sum32 everything picky archive strict lenient refl refl
