-- ===== src/Chunks/Cutting.antt =====
-- Where src/storage/ChunkManager.cpp cuts data into chunks.
use nebula_fs.Common.{
  ℕ, zero, suc, ◌+◌, ◌-◌, ◌≤◌, ◌<◌, ◌≡◌, refl, sym, ap, ◌∙◌, Bool-cases, if_both, inl, inr, List,
  [], ◌∷◌, ◌++◌, append-nil, ltb, leb, ltb-false, le→leb, bit_and, ◌==◌, if◌then◌else◌, length,
  take, drop, length-drop, drop-drop, take-drop, length-take, drop-all, joined, lt→ltb, arith,
}
use nebula_fs.Chunks.{
  ChunkConfig, window_hash, mask, boundaries_loop, find_chunk_boundaries, fixed_loop, pieces,
}

-- Every chunk but the last has at least `min` and at most `max` bytes, the last at most `max`.
unfoldable pub Spaced : ℕ → ℕ → ℕ → ℕ → List ℕ → Type 0
Spaced min max size last [] = size ≤ last + max
Spaced min max size last (b ∷ bs) =
    (last + min ≤ b) × (b ≤ last + max) × (b < size) × Spaced min max size b bs

module _ (c : ChunkConfig) (bytes : List ℕ) (some_bytes : 1 ≤ c.max_chunk_size)
    (ordered : c.min_chunk_size ≤ c.max_chunk_size) where
  loop-Spaced :
      (left i last : ℕ)
      → i + left ≡ length bytes
      → last ≤ i
      → i ≤ last + c.max_chunk_size
      → Spaced c.min_chunk_size c.max_chunk_size
          (length bytes)
          last
          (boundaries_loop c bytes left i last)
  unfolding boundaries_loop Spaced
  loop-Spaced zero i last whole after near = omega arith
  loop-Spaced (suc left) i last whole after near =
      let cut : c.min_chunk_size ≤ i - last
          → Spaced c.min_chunk_size c.max_chunk_size (length bytes) last
              (i ∷ boundaries_loop c bytes left (i + 1) i) =
        λ far. (
          omega arith,
          near,
          omega arith,
          loop-Spaced left (i + 1) i (omega arith) (omega arith) (omega arith),
        ) in
      elim (Bool-cases (leb c.max_chunk_size (i - last))) [
        | inl far ↦ rw far (cut (ground arith))
        | inr fine ↦
            let pass = loop-Spaced left (i + 1) last (omega arith) (omega arith) (ground arith) in
            elim (Bool-cases (ltb (i - last) c.min_chunk_size)) [
              | inl small ↦ rw (fine, small) pass
              | inr large ↦
                  rw (fine, large)
                    (if_both (Spaced c.min_chunk_size c.max_chunk_size (length bytes) last)
                      (bit_and (window_hash i bytes) (mask c) == 0) (cut (ground arith)) pass)
            ]
      ]

  boundaries-Spaced :
      Spaced c.min_chunk_size c.max_chunk_size (length bytes) 0 (find_chunk_boundaries c bytes)
  unfolding find_chunk_boundaries Spaced
  boundaries-Spaced = elim (Bool-cases (leb (length bytes) c.max_chunk_size)) [
    | inl small ↦ rw small (ground arith)
    | inr large ↦
        let long : c.max_chunk_size < length bytes = ground arith in
        rw large (
          loop-Spaced (length bytes - c.min_chunk_size) c.min_chunk_size 0 (omega arith)
            (omega arith) (omega arith))
  ]

-- The sizes of the chunks.
unfoldable pub Sized : ℕ → ℕ → List (List ℕ) → Type 0
Sized min max [] = Unit {0}
Sized min max (p ∷ []) = length p ≤ max
Sized min max (p ∷ q ∷ ps) = (min ≤ length p) × (length p ≤ max) × Sized min max (q ∷ ps)

module _ (min max : ℕ) (bytes : List ℕ) where
  joined-pieces :
      (start : ℕ) (bs : List ℕ)
      → Spaced min max (length bytes) start bs
      → joined (pieces start bs bytes) ≡ drop start bytes
  unfolding pieces Spaced
  joined-pieces start [] spaced = elim (Bool-cases (ltb start (length bytes))) [
    | inl some_left ↦ rw some_left (append-nil (drop start bytes))
    | inr none_left ↦ rw none_left (sym (drop-all start bytes (ground arith)))
  ]
  joined-pieces start (b ∷ bs) spaced =
      let whole : start + (b - start) ≡ b = omega arith in
      let rest : drop (b - start) (drop start bytes) ≡ drop b bytes =
        drop-drop start (b - start) bytes ∙ ap (λ k. drop k bytes) whole in
      ap (λ t. take (b - start) (drop start bytes) ++ t) (joined-pieces b bs spaced.3 ∙ sym rest)
      ∙ take-drop (b - start) (drop start bytes)

  -- There is a piece behind every boundary.
  Sized-pieces :
      (p : List ℕ) (b : ℕ) (bs : List ℕ)
      → min ≤ length p
      → length p ≤ max
      → Sized min max (pieces b bs bytes)
      → b < length bytes
      → Sized min max (p ∷ pieces b bs bytes)
  unfolding pieces Sized
  Sized-pieces p b [] least most rest inside =
      let one = lt→ltb b (length bytes) inside in rw one (least, most, rw one at rest)
  Sized-pieces p b (next ∷ bs) least most rest inside = (least, most, rest)

  pieces-Sized :
      (start : ℕ) (bs : List ℕ)
      → start < length bytes
      → Spaced min max (length bytes) start bs
      → Sized min max (pieces start bs bytes)
  unfolding pieces Spaced Sized
  pieces-Sized start [] inside spaced =
      rw (lt→ltb start (length bytes) inside) (omega (arith, length-drop start bytes))
  pieces-Sized start (b ∷ bs) inside spaced =
      let size : length (take (b - start) (drop start bytes)) ≡ b - start =
        length-take (b - start) (drop start bytes) (omega (arith, length-drop start bytes)) in
      Sized-pieces (take (b - start) (drop start bytes)) b bs (omega (arith, size))
        (omega (arith, size)) (pieces-Sized b bs spaced.2 spaced.3) spaced.2

first_pieces-Sized :
    (c : ChunkConfig) (bytes : List ℕ)
    → Spaced c.min_chunk_size c.max_chunk_size (length bytes) 0 (find_chunk_boundaries c bytes)
    → Sized c.min_chunk_size c.max_chunk_size (pieces 0 (find_chunk_boundaries c bytes) bytes)
unfolding find_chunk_boundaries pieces Sized
first_pieces-Sized c [] spaced = rw (le→leb 0 c.max_chunk_size (omega arith)) tt
first_pieces-Sized c (b ∷ bs) spaced =
    pieces-Sized c.min_chunk_size c.max_chunk_size (b ∷ bs) 0 (find_chunk_boundaries c (b ∷ bs))
      (omega arith) spaced

-- More fuel than the data has bytes changes nothing: the loop has ended.
pub fixed_loop-enough :
    (step size fuel more i : ℕ)
    → 1 ≤ step
    → size ≤ i + fuel
    → size ≤ i + more
    → fixed_loop step size fuel i ≡ fixed_loop step size more i
unfolding fixed_loop
fixed_loop-enough step size zero zero i moves h k = refl
fixed_loop-enough step size zero (suc more) i moves h k = rw (ltb-false i size (omega arith)) refl
fixed_loop-enough step size (suc fuel) zero i moves h k = rw (ltb-false i size (omega arith)) refl
fixed_loop-enough step size (suc fuel) (suc more) i moves h k =
    ap (λ t. if ltb i size then i ∷ t else [])
      (fixed_loop-enough step size fuel more (i + step) moves (omega arith) (omega arith))

-- With content-defined cutting, and sizes that allow a chunk, the chunks one after the other are the
-- data, each has at most the largest size, and each but the last at least the smallest.
pub chunks-Sized :
    (c : ChunkConfig) (bytes : List ℕ)
    → 1 ≤ c.max_chunk_size
    → c.min_chunk_size ≤ c.max_chunk_size
    → (joined (pieces 0 (find_chunk_boundaries c bytes) bytes) ≡ bytes)
      × Sized c.min_chunk_size c.max_chunk_size (pieces 0 (find_chunk_boundaries c bytes) bytes)
chunks-Sized c bytes some_bytes ordered =
    let spaced = boundaries-Spaced c bytes some_bytes ordered in
    (
      joined-pieces c.min_chunk_size c.max_chunk_size bytes 0 (find_chunk_boundaries c bytes)
          spaced,
      first_pieces-Sized c bytes spaced,
    )
