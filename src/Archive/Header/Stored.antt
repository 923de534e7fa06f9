-- ===== src/Archive/Header/Stored.antt =====
-- A header that is written is read again.
use nebula_fs.Common.{
  ℕ, ◌≡◌, ◌≤◌, sym, ap, ◌∙◌, true, Bool-cases, inl, inr, none, List, [], ◌++◌, append_assoc,
  append-nil, ltb-false, ◌==◌, ==_refl, length, length-append, take, drop, take-append, drop-append,
  take-append_within, list_eq, arith,
}
use nebula_fs.Packed.{Fit, pack, unpack, length-pack, unpack-pack}
use nebula_fs.Archive.Header.{
  ArchiveHeader, header_size, widths, numbers, of_numbers, serialize, header_of, is_valid,
  is_version_supported, verify_checksum, update_checksum, computed, judge, parse, magic_bytes,
}

-- Every number fits its field.
pub record IsPacked (h : ArchiveHeader) : Type 0 where
  pub magic : length h.magic ≡ 4
  pub numbers : Fit widths (numbers h)
  pub archive_checksum : length h.archive_checksum ≡ 32

length-numbers : (h : ArchiveHeader) → IsPacked h → length (pack widths (numbers h)) ≡ 122
length-numbers h p = length-pack widths (numbers h) p.numbers

pub length-serialize : (h : ArchiveHeader) → IsPacked h → length (serialize h) ≡ header_size
unfolding serialize
length-serialize h p = omega (
  arith,
  length-append h.magic (pack widths (numbers h) ++ h.archive_checksum),
  length-append (pack widths (numbers h)) h.archive_checksum,
  length-numbers h p,
  p.magic,
  p.archive_checksum,
)

take_front {ℓ} : {A : Type ℓ} (n : ℕ) (xs ys : List A) → length xs ≡ n → take n (xs ++ ys) ≡ xs
take_front n xs ys e = rw (← e) (take-append xs ys)

drop_front {ℓ} : {A : Type ℓ} (n : ℕ) (xs ys : List A) → length xs ≡ n → drop n (xs ++ ys) ≡ ys
drop_front n xs ys e = rw (← e) (drop-append xs ys)

pub header_of-serialize : (h : ArchiveHeader) → IsPacked h → header_of (serialize h) ≡ h
unfolding serialize header_of
header_of-serialize h p =
    let packed = pack widths (numbers h) in
    let tail = packed ++ h.archive_checksum in
    let front : take 4 (h.magic ++ tail) ≡ h.magic = take_front 4 h.magic tail p.magic in
    let middle : unpack widths (drop 4 (h.magic ++ tail)) ≡ numbers h =
      ap (unpack widths) (drop_front 4 h.magic tail p.magic)
      ∙ unpack-pack widths (numbers h) h.archive_checksum p.numbers in
    let before : length (h.magic ++ packed) ≡ 126 =
      omega (arith, length-append h.magic packed, length-numbers h p, p.magic) in
    let back : drop 126 (h.magic ++ tail) ≡ h.archive_checksum =
      ap (drop 126) (sym (append_assoc h.magic packed h.archive_checksum))
      ∙ drop_front 126 (h.magic ++ packed) h.archive_checksum before in
    let last : take 32 (drop 126 (h.magic ++ tail)) ≡ h.archive_checksum =
      ap (take 32) (back ∙ sym (append-nil h.archive_checksum))
      ∙ take_front 32 h.archive_checksum [] p.archive_checksum in
    λ i. of_numbers (front i) (middle i) (last i)

module _ (crc32 : List ℕ → ℕ) where
  -- The first 158 bytes decide.
  pub parse-append :
      (bytes more : List ℕ) (old : ArchiveHeader)
      → header_size ≤ length bytes
      → parse crc32 (bytes ++ more) old ≡ parse crc32 bytes old
  unfolding parse
  parse-append bytes more old enough = rw (
    ltb-false (length (bytes ++ more)) header_size (omega (arith, length-append bytes more)),
    ltb-false (length bytes) header_size enough,
    take-append_within header_size bytes more enough,
  )

  -- An updated header verifies, whatever its checksum was.
  verify_checksum-update_checksum :
      (h : ArchiveHeader) → verify_checksum crc32 (update_checksum crc32 h) ≡ true
  unfolding verify_checksum update_checksum
  verify_checksum-update_checksum h = elim (Bool-cases (computed crc32 h == 0)) [
    | inl none_at_all ↦ rw none_at_all
    | inr some_bits ↦ rw some_bits (==_refl (computed crc32 h))
  ]

  is_version_supported-is_valid :
      (h : ArchiveHeader) → is_valid h ≡ true → is_version_supported h ≡ true
  unfolding is_valid
  is_version_supported-is_valid h valid = elim (Bool-cases (is_version_supported h)) [
    | inl supported ↦ supported
    | inr other ↦ elim (Bool-cases (list_eq h.magic magic_bytes)) [
      | inl right ↦ cc (rw (right, other) at valid)
      | inr wrong ↦ cc (rw wrong at valid)
    ]
  ]

  judge-none :
      (h : ArchiveHeader)
      → is_valid h ≡ true
      → verify_checksum crc32 h ≡ true
      → judge crc32 h ≡ none
  unfolding judge
  judge-none h valid verified = rw (valid, is_version_supported-is_valid h valid, verified, judge)

  parse_found :
      (bytes : List ℕ) (h old : ArchiveHeader)
      → length bytes ≡ header_size
      → header_of bytes ≡ h
      → (rest : List ℕ) → parse crc32 (bytes ++ rest) old ≡ (h, judge crc32 h)
  unfolding parse
  parse_found bytes h old size found rest =
      let front : take header_size (bytes ++ rest) ≡ bytes =
        take_front header_size bytes rest size in
      rw
        (
          ltb-false (length (bytes ++ rest)) header_size (omega (arith, length-append bytes rest)),
          front,
        )
        (ap (λ k. (k, judge crc32 k)) found)

  -- A header of the supported version whose checksum is updated is read back from its bytes without
  -- an error, whatever stands behind them, and with every field.
  pub parse-serialize :
      (h old : ArchiveHeader) (rest : List ℕ)
      → is_valid h ≡ true
      → IsPacked (update_checksum crc32 h)
      → parse crc32 (serialize (update_checksum crc32 h) ++ rest) old
        ≡ (update_checksum crc32 h, none)
  parse-serialize h old rest valid p =
      let h' = update_checksum crc32 h in
      parse_found (serialize h') h' old (length-serialize h' p) (header_of-serialize h' p) rest
      ∙ ap (λ e. (h', e))
          (judge-none h' (unfold update_checksum is_valid in valid)
            (verify_checksum-update_checksum h))
