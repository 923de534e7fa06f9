-- ===== src/StreamParser/Chunks.antt =====
-- How a call of `StreamParser::feed` ends.
use nebula_fs.Common.{
  ℕ, zero, suc, ◌+◌, ◌%◌, ◌^◌, ◌≤◌, ◌≡◌, refl, ap, ◌∙◌, true, Bool-cases, inl, inr, ◌⊎◌, Option,
  some, List, ◌++◌, arith,
}
use nebula_fs.StreamParser.{
  error, code, Escape, Sections, StreamParser, Consumed, consumed, failed, escaped, ended, process,
  after_round, loop, feed,
}
use nebula_fs.StreamParser.Rounds.{waits, goes, fails, leaves, reads, process-Round}
use nebula_fs.StreamParser.Runs.{same_code, loop_moves}

module _ {M D I C : Type 0} (crc32 : List ℕ → ℕ) (sections : Sections M D I C) where
  -- The loop goes no further: the parser has ended, or its round would leave it as it is and consume
  -- no byte.
  pub IsSettled : StreamParser M D I C → Type 0
  IsSettled q = (ended q ≡ true) ⊎ (process crc32 sections q.state q ≡ (q, consumed 0))

  -- A reader has left the parser so, in an escape that went through `feed`.
  pub record IsLeft (q : StreamParser M D I C) (c : Consumed) : Type 0 where
    pub why : Escape
    pub before : StreamParser M D I C
    pub answer : c ≡ escaped why
    pub left : reads crc32 sections before.state before ≡ (q, some why)

  -- A call that returns, or that a reader ends.
  Returns : Option (StreamParser M D I C × Consumed) → Type 0
  Returns o =
      (q : StreamParser M D I C) × (c : Consumed) × (o ≡ some (q, c)) × (IsSettled q ⊎ IsLeft q c)

  loop-Returns :
      (fuel total : ℕ) (p : StreamParser M D I C)
      → 1 ≤ fuel
      → 9 ≤ code p.state + fuel
      → Returns (loop crc32 sections fuel total p)
  unfolding Returns IsSettled loop after_round
  loop-Returns zero total p some_fuel enough = absurd (omega arith)
  loop-Returns (suc fuel) total p some_fuel enough = elim (Bool-cases (ended p)) [
    | inl off ↦ (p, consumed total, rw off, inl (inl off))
    | inr on ↦ elim (process-Round crc32 sections p.state p refl on) [
      | waits is ↦
          (p, consumed ((total + 0) % 2 ^ 64), rw (on, is, same_code p.state), inl (inr is))
      | fails e is ↦ (record p { state = error }, failed e, rw (on, is), inl (inl refl))
      | leaves e is why ↦
          let l = reads crc32 sections p.state p in
          (
            l.0,
            escaped e,
            rw (on, is),
            inr (record { why = e; before = p; answer = refl; left = ap (λ o. (l.0, o)) why }),
          )
      | goes n q is later last ↦
          let rest = loop-Returns fuel ((total + n) % 2 ^ 64) q (omega arith) (omega arith) in
          (rest.0, rest.1, loop_moves crc32 sections fuel total p q n on is later ∙ rest.2, rest.3)
    ]
  ]

  -- A call of `feed` ends within nine rounds, whatever the parser and the bytes. The parser that it
  -- leaves has ended or waits for more bytes, so that a further round would change nothing; or else
  -- the call ended in the exception or the undefined behaviour of a section's reader.
  pub feed-IsSettled :
      (chunk : List ℕ) (p : StreamParser M D I C)
      → (q : StreamParser M D I C) × (c : Consumed) × (feed crc32 sections chunk p ≡ some (q, c))
        × (IsSettled q ⊎ IsLeft q c)
  unfolding feed Returns
  feed-IsSettled chunk p =
      loop-Returns 9 0 (record p { buffer = p.buffer ++ chunk }) (omega arith) (omega arith)
