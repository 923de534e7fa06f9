-- ===== src/PostingList/Wire.antt =====
-- `deserialize` reads back what `serialize` wrote.
use mathlib.Core.List.{foldl}
use native.Mathlib.Nat.{add-zero}
use nebula_fs.Common.{
  ℕ, ◌+◌, ◌-◌, ◌%◌, ◌^◌, ◌≤◌, ◌<◌, ◌≡◌, refl, ap, ap₂, ◌∙◌, List, [], ◌∷◌, ◌++◌, append-nil,
  append_assoc, length, length-append, All, sum, arith,
}
use nebula_fs.Outcome.{ok}
use nebula_fs.VarInt.{IsU64}
use nebula_fs.VarInt.Encode.{length-varint}
use nebula_fs.Reader.{read_varint, run}
use nebula_fs.Reader.Laws.{
  Reads, Reads-pure, Reads-bind, Reads-read_varint, Reads-run, Reads-reserve, Reads-number,
  Reads-last, Reads-value,
}
use nebula_fs.PostingList.{
  Posting, PostingList, empty, add_posting, code_positions, code_posting, code_postings, serialize,
  read_positions, read_posting, read_postings, read_list, deserialize,
}

-- The frequency is that of the positions, and every number fits its type.
abbrev pub IsWire : Posting → Type 0
IsWire p =
    IsU64 p.doc_id
    × (p.term_frequency ≡ length p.positions)
    × (length p.positions < 2 ^ 32)
    × All (λ x. x < 2 ^ 32) p.positions

Reads-positions :
    (prev : ℕ) (ps : List ℕ)
    → prev < 2 ^ 32
    → All (λ x. x < 2 ^ 32) ps
    → Reads (read_positions (length ps) prev) (code_positions prev ps) ps
unfolding read_positions code_positions
Reads-positions prev [] small h = Reads-pure []
Reads-positions prev (p ∷ ps) small h =
    let back : (prev + (p + 2 ^ 32 - prev) % 2 ^ 32 % 2 ^ 32) % 2 ^ 32 ≡ p = omega arith in
    Reads-number _ ((p + 2 ^ 32 - prev) % 2 ^ 32) (omega arith) (
      rw back
        (Reads-last (read_positions (length ps) p) (λ t. p ∷ t) (Reads-positions p ps h.0 h.1)))

module _ (current : ℕ) (p : Posting) (small : IsU64 current) (h : IsWire p) where
  Reads-posting : Reads (read_posting current) (code_posting current p) p
  unfolding read_posting code_posting
  Reads-posting =
      let (doc, tf, few, bounds) = h in
      let count : p.term_frequency % 2 ^ 32 ≡ length p.positions = omega arith in
      let doc_id = (current + (p.doc_id + 2 ^ 64 - current) % 2 ^ 64) % 2 ^ 64 in
      let build : List ℕ → Posting = λ t. record {
        doc_id = doc_id;
        term_frequency = p.term_frequency % 2 ^ 32;
        positions = t;
      } in
      let same : build p.positions ≡ p = ground arith in
      Reads-value same (
        Reads-number _ ((p.doc_id + 2 ^ 64 - current) % 2 ^ 64) (omega arith) (
          Reads-number _ p.term_frequency (omega arith) (
            Reads-last (read_positions (p.term_frequency % 2 ^ 32) 0) build
              (rw count (Reads-positions 0 p.positions (omega arith) bounds)))))

Reads-postings :
    (current : ℕ) (ps : List Posting) (l : PostingList)
    → IsU64 current
    → All IsWire ps
    → Reads
        (read_postings (length ps) current l)
        (code_postings current ps)
        (foldl (λ l p. add_posting p l) l ps)
unfolding read_postings code_postings
Reads-postings current [] l small h = Reads-pure l
Reads-postings current (p ∷ ps) l small h =
    Reads-bind (read_posting current) (λ q. read_postings (length ps) q.doc_id (add_posting q l))
      (Reads-posting current p small h.0) (Reads-postings p.doc_id ps (add_posting p l) h.0.0 h.1)

abbrev frequencies : List Posting → List ℕ
frequencies [] = []
frequencies (p ∷ ps) = p.term_frequency ∷ frequencies ps

rebuild :
    (ps done : List Posting) (t : ℕ)
    → foldl (λ l p. add_posting p l) (record { postings = done; total_tf = t % 2 ^ 64 }) ps
      ≡ record { postings = done ++ ps; total_tf = (t + sum (frequencies ps)) % 2 ^ 64 }
unfolding add_posting
rebuild [] done t = rw (append-nil done, add-zero t)
rebuild (p ∷ ps) done t =
    let next : (t % 2 ^ 64 + p.term_frequency) % 2 ^ 64 ≡ (t + p.term_frequency) % 2 ^ 64 =
      omega arith in
    rw next (
      rebuild ps (done ++ p ∷ []) (t + p.term_frequency)
      ∙ ap₂ (λ a b. record { postings = a; total_tf = b % 2 ^ 64 }) (append_assoc done (p ∷ []) ps)
          (omega arith))

-- A list that `serialize` keeps whole: every posting is, the total is that of the postings, and the
-- counts and the encoding are within the sizes of the machine and of the vector.
pub record IsSerializable (max_size : ℕ) (l : PostingList) : Type 0 where
  pub wire : All IsWire l.postings
  pub total : l.total_tf ≡ sum (frequencies l.postings) % 2 ^ 64
  pub few : length l.postings ≤ max_size
  pub machine : max_size < 2 ^ 64
  pub short : length (serialize l) < 2 ^ 64

deserialize-run :
    (max_size : ℕ) (bytes : List ℕ)
    → 1 ≤ length bytes
    → deserialize max_size bytes ≡ run (read_list max_size) bytes
unfolding deserialize
deserialize-run max_size [] h = absurd (omega arith)
deserialize-run max_size (b ∷ bs) h = refl

serialize-nonempty : (l : PostingList) → length l.postings < 2 ^ 64 → 1 ≤ length (serialize l)
unfolding serialize
serialize-nonempty l few = omega (arith, length-append {0}, length-varint (length l.postings) few)

Reads-list :
    (max_size : ℕ) (l : PostingList)
    → IsSerializable max_size l
    → Reads (read_list max_size) (serialize l) (foldl (λ l p. add_posting p l) empty l.postings)
unfolding serialize read_list
Reads-list max_size l v =
    Reads-bind read_varint _ (Reads-read_varint (length l.postings) (omega arith)) (
      Reads-reserve max_size (length l.postings) _ v.few
        (Reads-postings 0 l.postings empty (omega arith) v.wire))

-- `deserialize` returns the very list that was serialized: postings, positions and total.
pub deserialize-serialize_postings :
    (max_size : ℕ) (l : PostingList)
    → IsSerializable max_size l
    → deserialize max_size (serialize l) ≡ ok l
deserialize-serialize_postings max_size l v =
    deserialize-run max_size (serialize l) (serialize-nonempty l (omega arith))
    ∙ Reads-run (read_list max_size) (Reads-list max_size l v) v.short
    ∙ ap ok (rebuild l.postings [] 0 ∙ ground (arith, v.total))
