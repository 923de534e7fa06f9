-- ===== src/StreamParser/Ends.antt =====
-- The runs of the loop of src/parser/StreamParser.cpp that no reader escapes from, as a relation.
use nebula_fs.Common.{
  ℕ, zero, suc, ◌+◌, ◌%◌, ◌^◌, ◌≤◌, ◌<◌, ◌≡◌, refl, sym, ap, ◌∙◌, true, false, Bool-cases, inl, inr,
  some, List, ◌++◌, append_assoc, arith,
}
use mathlib.Core.Path.{subst}
use nebula_fs.StreamParser.{
  error, code, ParseError, Sections, StreamParser, Consumed, consumed, failed, escaped, ended,
  process, after_round, loop,
}
use nebula_fs.StreamParser.Runs.{same_code, loop_moves}
use nebula_fs.StreamParser.Local.{IsLocal, extend, waits, goes, fails, leaves, process-LocalRound}
use nebula_fs.StreamParser.Blind.{Returned, same_pair}

module _ {M D I C : Type 0} (crc32 : List ℕ → ℕ) (sections : Sections M D I C) where
  -- A run of the loop from one parser to another that no reader escapes from.
  pub data Ends : StreamParser M D I C → StreamParser M D I C → Type 0 where
    stops : {p q : StreamParser M D I C} → ended p ≡ true → q ≡ p → Ends p q
    pauses :
        {p q : StreamParser M D I C}
        → ended p ≡ false
        → process crc32 sections p.state p ≡ (p, consumed 0)
        → q ≡ p
        → Ends p q
    breaks :
        {p q : StreamParser M D I C} (e : ParseError)
        → ended p ≡ false
        → process crc32 sections p.state p ≡ (p, failed e)
        → ((more : List ℕ)
            → process crc32 sections p.state (extend more p) ≡ (extend more p, failed e))
        → q ≡ record p { state = error }
        → Ends p q
    moves :
        {p r : StreamParser M D I C} (n : ℕ) (q : StreamParser M D I C)
        → ended p ≡ false
        → process crc32 sections p.state p ≡ (q, consumed n)
        → code p.state < code q.state
        → code q.state ≤ 8
        → ((more : List ℕ)
            → process crc32 sections p.state (extend more p) ≡ (extend more q, consumed n))
        → Ends q r
        → Ends p r

  -- A call that returns makes such a run.
  pub Ends-loop :
      IsLocal sections
      → (fuel total : ℕ) (p q : StreamParser M D I C) (c : Consumed)
      → loop crc32 sections fuel total p ≡ some (q, c)
      → Returned c
      → Ends p q
  unfolding loop after_round
  Ends-loop local zero total p q c is returned = absurd (cc is)
  Ends-loop local (suc fuel) total p q c is returned = elim (Bool-cases (ended p)) [
    | inl off ↦
        let there : loop crc32 sections (suc fuel) total p ≡ some (p, consumed total) =
          rw off refl in
        stops off (ap (λ t. t.0) (same_pair (sym is ∙ there)))
    | inr on ↦ elim (process-LocalRound crc32 sections local p.state p refl on) [
      | waits e ↦
          let there : loop crc32 sections (suc fuel) total p
              ≡ some (p, consumed ((total + 0) % 2 ^ 64)) =
            rw (on, e, same_code p.state) refl in
          pauses on e (ap (λ t. t.0) (same_pair (sym is ∙ there)))
      | fails e fail more ↦
          let there : loop crc32 sections (suc fuel) total p
              ≡ some (record p { state = error }, failed e) =
            rw (on, fail) refl in
          breaks e on fail more (ap (λ t. t.0) (same_pair (sym is ∙ there)))
      | leaves e r left ↦
          let there : loop crc32 sections (suc fuel) total p ≡ some (r, escaped e) =
            rw (on, left) refl in
          let same = ap (λ t. t.1) (same_pair (sym is ∙ there)) in
          absurd (cc (subst Returned same returned))
      | goes n r gone later last more ↦ moves n r on gone later last more (
          Ends-loop local fuel ((total + n) % 2 ^ 64) r q c
            (sym (loop_moves crc32 sections fuel total p r n on gone later) ∙ is) returned)
    ]
  ]

  pub extend-extend :
      (a b : List ℕ) (p : StreamParser M D I C) → extend b (extend a p) ≡ extend (a ++ b) p
  extend-extend a b p = ap (λ t. record p { buffer = t }) (append_assoc p.buffer a b)

  -- The loop computes where a run ends.
  pub loop-Ends :
      (fuel total : ℕ) (p q : StreamParser M D I C)
      → 1 ≤ fuel
      → 9 ≤ code p.state + fuel
      → Ends p q
      → (c : Consumed) × (loop crc32 sections fuel total p ≡ some (q, c))
  unfolding loop after_round
  loop-Ends zero total p q some_fuel enough run = absurd (omega arith)
  loop-Ends (suc fuel) total p q some_fuel enough (stops off e) = (consumed total, rw (off, e))
  loop-Ends (suc fuel) total p q some_fuel enough (pauses on is e) =
      (consumed ((total + 0) % 2 ^ 64), rw (on, is, same_code p.state, e))
  loop-Ends (suc fuel) total p q some_fuel enough (breaks e on is more same) =
      (failed e, rw (on, is, same))
  loop-Ends (suc fuel) total p q some_fuel enough (moves n r on is later last more run) =
      let rest = loop-Ends fuel ((total + n) % 2 ^ 64) r q (omega arith) (omega arith) run in
      (rest.0, loop_moves crc32 sections fuel total p r n on is later ∙ rest.1)

  Ends-stopped : (p r : StreamParser M D I C) → ended p ≡ true → Ends p r → r ≡ p
  Ends-stopped p r off (stops e same) = same
  Ends-stopped p r off (pauses on is same) = same
  Ends-stopped p r off (breaks e on is more same) = cc
  Ends-stopped p r off (moves n m on is later last more run) = cc

  -- A round that does the same with more bytes does so with more of them again.
  again :
      (b : List ℕ) (p q : StreamParser M D I C) (c : Consumed)
      → ((more : List ℕ) → process crc32 sections p.state (extend more p) ≡ (extend more q, c))
      → (more : List ℕ)
      → process crc32 sections p.state (extend more (extend b p)) ≡ (extend more (extend b q), c)
  again b p q c same more =
      ap (process crc32 sections p.state) (extend-extend b more p)
      ∙ same (b ++ more)
      ∙ ap (λ x. (x, c)) (sym (extend-extend b more q))

  -- More bytes after a run, or from its start.
  pub Ends-extend :
      (b : List ℕ) (p q r : StreamParser M D I C)
      → Ends p q
      → Ends (extend b q) r
      → Ends (extend b p) r
  Ends-extend b p q r (stops off e) after = subst (λ x. Ends (extend b x) r) e after
  Ends-extend b p q r (pauses on is e) after = subst (λ x. Ends (extend b x) r) e after
  Ends-extend b p q r (breaks e on is more same) after =
      let stopped = subst (λ x. Ends (extend b x) r) same after in
      breaks {p = extend b p} e on (more b) (again b p p (failed e) more)
        (Ends-stopped (extend b (record p { state = error })) r refl stopped)
  Ends-extend b p q r (moves n m on is later last more run) after =
      moves {p = extend b p} n (extend b m) on (more b) later last (again b p m (consumed n) more)
        (Ends-extend b m q r run after)
