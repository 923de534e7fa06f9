-- ===== src/StreamParser/Tests.antt =====
-- A parser whose readers keep the bytes of their sections, that of the directory with an error, and the
-- theorems at it.
use nebula_fs.Common.{
  joined, ℕ, ◌≡◌, refl, ◌⊎◌, some, List, [], ◌∷◌, ◌++◌, take, drop, replicate, arith,
}
use mathlib.Core.Option
use nebula_fs.Archive.Header.{serialize, update_checksum}
use nebula_fs.Archive.Tests.{sum32, plain, plain-IsPacked, plain-is_valid}
use nebula_fs.StreamParser.{
  ParserState, directory_tree, gives, loads, breaks, Sections, StreamParser, Consumed, no_result,
  reset, feed, compressed_blocks, corrupt_directory, to_parse_error, loop, process, after_round,
  process_directory_tree, process_index_table, process_chunk_table, process_compressed_blocks, pass,
  leave_read,
}
use nebula_fs.StreamParser.Blind.{blind}
use nebula_fs.StreamParser.Joined.{fed, fed_all, fed_all-joined}
use nebula_fs.StreamParser.Chunks.{IsSettled, IsLeft, feed-IsSettled}
use nebula_fs.StreamParser.Completion.{sections_size, IsComplete, feed-IsComplete}

abbrev keeper : Sections (List ℕ) (List ℕ) (List ℕ) (List ℕ)
keeper = record {
  no_metadata = [];
  parse_metadata = λ bytes size. gives (take size bytes);
  no_directory = [];
  load_directory = λ bytes old. (bytes, breaks);
  no_index = [];
  load_index = λ bytes old. (bytes, loads);
  no_chunks = [];
  load_chunks = λ bytes old. (bytes, loads);
}

abbrev Keeper : Type 0
Keeper = StreamParser (List ℕ) (List ℕ) (List ℕ) (List ℕ)

abbrev fresh : Keeper
fresh = record {
  state = ParserState.init;
  result = no_result keeper;
  buffer = [];
  warnings = [];
  bytes_processed = 0;
  expected_size = 0;
}

-- Two of the thirty bytes of the directory are not enough.
abbrev waiting : Keeper
waiting = record fresh {
  state = directory_tree;
  result = record (no_result keeper) { header = plain };
}

abbrev body : List ℕ
body = replicate 145 1

feed-IsSettled_example :
    (q : Keeper) × (c : Consumed) × (feed sum32 keeper (1 ∷ 2 ∷ []) waiting ≡ some (q, c))
    × (IsSettled sum32 keeper q ⊎ IsLeft sum32 keeper q c)
feed-IsSettled_example = feed-IsSettled sum32 keeper (1 ∷ 2 ∷ []) waiting

feed-IsComplete_example :
    (q : Keeper) × (c : Consumed) × (feed sum32 keeper
        (serialize (update_checksum sum32 plain) ++ body)
        (reset sum32 keeper fresh)
      ≡ some (q, c))
    × IsComplete sum32 keeper (update_checksum sum32 plain) (drop (sections_size plain) body) q
feed-IsComplete_example =
    feed-IsComplete sum32 keeper plain body fresh plain-is_valid plain-IsPacked (omega arith)
      (refl, ((λ d. refl), ((λ i. refl), (λ c. refl))))

-- The directory of thirty bytes, and ten of the blocks.
abbrev beyond : Keeper
beyond = record waiting {
  state = compressed_blocks;
  result = record waiting.result { directory_tree = replicate 20 1 ++ replicate 10 2 };
  buffer = replicate 10 2;
  warnings = to_parse_error corrupt_directory directory_tree 0 ∷ [];
  bytes_processed = 30;
}

beyond_pieces : fed_all sum32 keeper (replicate 20 1) (replicate 20 2 ∷ []) waiting ≡ some beyond
unfolding fed_all feed loop process after_round process_directory_tree process_index_table
    process_chunk_table process_compressed_blocks pass leave_read Option.bind
beyond_pieces = refl

beyond_whole :
    fed sum32 keeper (replicate 20 1 ++ joined (replicate 20 2 ∷ [])) waiting ≡ some beyond
unfolding feed loop process after_round process_directory_tree process_index_table
    process_chunk_table process_compressed_blocks pass leave_read Option.bind
beyond_whole = refl

fed_all-joined_example : blind sum32 keeper beyond ≡ blind sum32 keeper beyond
fed_all-joined_example =
    fed_all-joined sum32 keeper (replicate 20 1) (replicate 20 2 ∷ []) waiting beyond beyond
      beyond_pieces beyond_whole
