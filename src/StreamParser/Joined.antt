-- ===== src/StreamParser/Joined.antt =====
-- `StreamParser::feed`, called with an archive's bytes in one piece or in several.
use nebula_fs.Common.{
  ℕ, ◌≡◌, refl, sym, ap, ◌∙◌, Option, none, some, List, [], ◌∷◌, ◌++◌, append-nil, joined, arith,
}
use mathlib.Core.Option
use mathlib.Core.Path.{subst}
use nebula_fs.StreamParser.{Sections, StreamParser, Consumed, consumed, failed, escaped, loop, feed}
use nebula_fs.StreamParser.Local.{IsLocal, extend}
use nebula_fs.StreamParser.Ends.{Ends, Ends-loop, loop-Ends, Ends-extend, extend-extend}
use nebula_fs.StreamParser.Blind.{same_pair, loop-blind, Returned, blind, unread, unread-IsLocal}

module _ {M D I C : Type 0} (crc32 : List ℕ → ℕ) (sections : Sections M D I C) where
  -- The parser after a call that returns.
  abbrev kept : StreamParser M D I C × Consumed → Option (StreamParser M D I C)
  kept (q, consumed n) = some q
  kept (q, failed e) = some q
  kept (q, escaped e) = none

  abbrev pub fed : List ℕ → StreamParser M D I C → Option (StreamParser M D I C)
  fed chunk p = Option.bind (feed crc32 sections chunk p) kept

  -- The parser after a first call and more of them, each of which returns.
  unfoldable pub fed_all :
      List ℕ → List (List ℕ) → StreamParser M D I C → Option (StreamParser M D I C)
  fed_all chunk [] p = fed chunk p
  fed_all chunk (next ∷ chunks) p = Option.bind (fed chunk p) (λ q. fed_all next chunks q)

  bound :
      {A B : Type 0} (o : Option A) (f : A → Option B) (b : B)
      → Option.bind o f ≡ some b
      → (a : A) × (o ≡ some a) × (f a ≡ some b)
  unfolding Option.bind
  bound none f b is = absurd (cc is)
  bound (some a) f b is = (a, refl, is)

  kept-Returned :
      (t : StreamParser M D I C × Consumed) (q : StreamParser M D I C)
      → kept t ≡ some q
      → (t.0 ≡ q) × Returned t.1
  kept-Returned (p, consumed n) q is = (ap (λ o. Option.get_or o p) is, tt)
  kept-Returned (p, failed e) q is = (ap (λ o. Option.get_or o p) is, tt)
  kept-Returned (p, escaped e) q is = absurd (cc is)

  Returned-kept : (q : StreamParser M D I C) (c : Consumed) → Returned c → kept (q, c) ≡ some q
  Returned-kept q (consumed n) returned = refl
  Returned-kept q (failed e) returned = refl
  Returned-kept q (escaped e) returned = absurd (cc returned)

  fed-loop :
      (chunk : List ℕ) (p q : StreamParser M D I C)
      → fed chunk p ≡ some q
      → (c : Consumed) × (loop crc32 sections 9 0 (extend chunk p) ≡ some (q, c)) × Returned c
  unfolding feed
  fed-loop chunk p q is =
      let (t, looped, keeps) = bound (loop crc32 sections 9 0 (extend chunk p)) kept q is in
      let (same, returned) = kept-Returned t q keeps in
      (t.1, looped ∙ ap (λ r. some (r, t.1)) same, returned)

module _ {M D I C : Type 0} (crc32 : List ℕ → ℕ) (sections : Sections M D I C) where
  -- However the bytes are cut, the calls make the run of the call with all of them.
  fed_all-Ends :
      IsLocal sections
      → (chunk : List ℕ) (chunks : List (List ℕ)) (p q : StreamParser M D I C)
      → fed_all crc32 sections chunk chunks p ≡ some q
      → Ends crc32 sections (extend (chunk ++ joined chunks) p) q
  unfolding fed_all
  fed_all-Ends local chunk [] p q is =
      let (c, looped, returned) = fed-loop crc32 sections chunk p q is in
      subst (λ b. Ends crc32 sections (extend b p) q) (sym (append-nil chunk))
        (Ends-loop crc32 sections local 9 0 (extend chunk p) q c looped returned)
  fed_all-Ends local chunk (next ∷ chunks) p q is =
      let (r, first, others) =
        bound crc32 sections (fed crc32 sections chunk p)
          (λ r. fed_all crc32 sections next chunks r) q is in
      let (c, looped, returned) = fed-loop crc32 sections chunk p r first in
      let run = Ends-loop crc32 sections local 9 0 (extend chunk p) r c looped returned in
      let rest = fed_all-Ends local next chunks r q others in
      subst (λ x. Ends crc32 sections x q)
        (extend-extend crc32 sections chunk (next ++ joined chunks) p)
        (Ends-extend crc32 sections (next ++ joined chunks) (extend chunk p) r q run rest)

module _ {M D I C : Type 0} (crc32 : List ℕ → ℕ) (sections : Sections M D I C) where
  blind_Ends :
      (chunk : List ℕ) (chunks : List (List ℕ)) (p q : StreamParser M D I C)
      → fed_all crc32 (unread crc32 sections) chunk chunks p ≡ some q
      → Ends crc32 (unread crc32 sections) (extend (chunk ++ joined chunks) p) q
  blind_Ends chunk chunks p q is =
      fed_all-Ends crc32 (unread crc32 sections) (unread-IsLocal crc32 sections) chunk chunks p q is

  fed-blind :
      (chunk : List ℕ) (p q : StreamParser M D I C)
      → fed crc32 sections chunk p ≡ some q
      → fed crc32 (unread crc32 sections) chunk (blind crc32 sections p)
        ≡ some (blind crc32 sections q)
  unfolding feed Option.bind
  fed-blind chunk p q is =
      let (c, looped, returned) = fed-loop crc32 sections chunk p q is in
      rw (loop-blind crc32 sections 9 0 (extend chunk p) q c returned looped)
        (Returned-kept crc32 sections (blind crc32 sections q) c returned)

  fed_all-blind :
      (chunk : List ℕ) (chunks : List (List ℕ)) (p q : StreamParser M D I C)
      → fed_all crc32 sections chunk chunks p ≡ some q
      → fed_all crc32 (unread crc32 sections) chunk chunks (blind crc32 sections p)
        ≡ some (blind crc32 sections q)
  unfolding fed_all Option.bind
  fed_all-blind chunk [] p q is = fed-blind chunk p q is
  fed_all-blind chunk (next ∷ chunks) p q is =
      let (r, first, others) =
        bound crc32 sections (fed crc32 sections chunk p)
          (λ r. fed_all crc32 sections next chunks r) q is in
      rw (fed-blind chunk p r first) (fed_all-blind next chunks r q others)

  -- However the bytes are cut into pieces, if every call returns, and so does the call with all the
  -- bytes at once, the parser that is fed the pieces one after the other ends as the parser that is fed
  -- them at once, but for the metadata that it has read.
  pub fed_all-joined :
      (chunk : List ℕ) (chunks : List (List ℕ)) (p q r : StreamParser M D I C)
      → fed_all crc32 sections chunk chunks p ≡ some q
      → fed crc32 sections (chunk ++ joined chunks) p ≡ some r
      → blind crc32 sections q ≡ blind crc32 sections r
  fed_all-joined chunk chunks p q r pieces whole =
      let all = chunk ++ joined chunks in
      let p' = blind crc32 sections p in
      let run =
        blind_Ends chunk chunks p' (blind crc32 sections q)
          (fed_all-blind chunk chunks p q pieces) in
      let ends =
        loop-Ends crc32 (unread crc32 sections) 9 0 (extend all p') (blind crc32 sections q)
          (omega arith) (omega arith) run in
      let (c, looped, returned) =
        fed-loop crc32 (unread crc32 sections) all p' (blind crc32 sections r)
          (fed-blind all p r whole) in
      ap (λ t. t.0) (same_pair (sym ends.1 ∙ looped))
