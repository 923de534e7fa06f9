-- ===== src/StreamParser/Runs.antt =====
-- Two rounds of the loop of src/parser/StreamParser.cpp, one behind the other.
use nebula_fs.Common.{
  ℕ, suc, ◌+◌, ◌%◌, ◌^◌, ◌<◌, ◌≡◌, refl, true, false, ◌&&◌, List, ◌==◌, ==_refl, arith,
}
use nebula_fs.StreamParser.{
  ParserState, code, Sections, StreamParser, consumed, ended, process, after_round, loop,
}

pub same_code : (s : ParserState) → (code s == code s) ≡ true
same_code s = ==_refl (code s)

new_code : (n : ℕ) (s t : ParserState) → code s < code t → ((n == 0) && (code s == code t)) ≡ false
new_code n s t later = ground arith

-- A round that changes the state is followed by another.
pub loop_moves :
    {M D I C : Type 0} (crc32 : List ℕ → ℕ) (sections : Sections M D I C) (fuel total : ℕ)
    (p q : StreamParser M D I C) (n : ℕ)
    → ended p ≡ false
    → process crc32 sections p.state p ≡ (q, consumed n)
    → code p.state < code q.state
    → loop crc32 sections (suc fuel) total p ≡ loop crc32 sections fuel ((total + n) % 2 ^ 64) q
unfolding loop after_round
loop_moves crc32 sections fuel total p q n on is later =
    rw (on, is, new_code n p.state q.state later) refl
