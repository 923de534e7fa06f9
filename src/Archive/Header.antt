-- ===== src/Archive/Header.antt =====
-- src/archive/ArchiveHeader.cpp, with the struct of include/nebula/BinaryFormat.hpp: the 158 bytes
-- that an archive begins with. `crc32` is zlib's, of a whole span.
pub mod Stored
use nebula_fs.Common.{
  ℕ, zero, suc, ◌*◌, Bool, true, false, ◌&&◌, Option, none, some, List, [], ◌∷◌, ◌++◌, ltb, leb,
  ◌==◌, if◌then◌else◌, length, take, drop, list_eq,
}
use nebula_fs.Packed.{pack, unpack}

pub record ArchiveHeader : Type 0 where
  pub magic : List ℕ
  pub version_major : ℕ
  pub version_minor : ℕ
  pub flags : ℕ
  pub archive_size : ℕ
  pub metadata_offset : ℕ
  pub directory_offset : ℕ
  pub index_offset : ℕ
  pub chunk_offset : ℕ
  pub blocks_offset : ℕ
  pub journal_offset : ℕ
  pub entry_count : ℕ
  pub metadata_size : ℕ
  pub directory_size : ℕ
  pub index_size : ℕ
  pub chunk_size : ℕ
  pub blocks_size : ℕ
  pub journal_size : ℕ
  pub header_checksum : ℕ
  pub archive_checksum : List ℕ

pub data HeaderError : Type 0 where
  corrupt_header invalid_magic unsupported_version checksum_mismatch : HeaderError

-- `sizeof(format::ArchiveHeader)`
abbrev pub header_size : ℕ
header_size = 158

-- The widths of the numbers between the magic and the checksum of the archive.
abbrev pub widths : List ℕ
widths = 2 ∷ 2 ∷ 2 ∷ 8 ∷ 8 ∷ 8 ∷ 8 ∷ 8 ∷ 8 ∷ 8 ∷ 8 ∷ 8 ∷ 8 ∷ 8 ∷ 8 ∷ 8 ∷ 8 ∷ 4 ∷ []

abbrev pub numbers : ArchiveHeader → List ℕ
numbers h =
    h.version_major ∷ h.version_minor ∷ h.flags ∷ h.archive_size ∷ h.metadata_offset
    ∷ h.directory_offset ∷ h.index_offset ∷ h.chunk_offset ∷ h.blocks_offset ∷ h.journal_offset
    ∷ h.entry_count ∷ h.metadata_size ∷ h.directory_size ∷ h.index_size ∷ h.chunk_size
    ∷ h.blocks_size ∷ h.journal_size ∷ h.header_checksum ∷ []

-- The n-th number of a list, which is there.
abbrev pub nth : ℕ → List ℕ → ℕ
nth n [] = 0
nth zero (v ∷ vs) = v
nth (suc n) (v ∷ vs) = nth n vs

abbrev pub of_numbers : List ℕ → List ℕ → List ℕ → ArchiveHeader
of_numbers magic vs archive_checksum = record {
  magic = magic;
  version_major = nth 0 vs;
  version_minor = nth 1 vs;
  flags = nth 2 vs;
  archive_size = nth 3 vs;
  metadata_offset = nth 4 vs;
  directory_offset = nth 5 vs;
  index_offset = nth 6 vs;
  chunk_offset = nth 7 vs;
  blocks_offset = nth 8 vs;
  journal_offset = nth 9 vs;
  entry_count = nth 10 vs;
  metadata_size = nth 11 vs;
  directory_size = nth 12 vs;
  index_size = nth 13 vs;
  chunk_size = nth 14 vs;
  blocks_size = nth 15 vs;
  journal_size = nth 16 vs;
  header_checksum = nth 17 vs;
  archive_checksum = archive_checksum;
}

-- `memcpy` of the struct into bytes.
unfoldable pub serialize : ArchiveHeader → List ℕ
serialize h = h.magic ++ (pack widths (numbers h) ++ h.archive_checksum)

-- `memcpy` of 158 bytes into the struct.
unfoldable pub header_of : List ℕ → ArchiveHeader
header_of bytes =
    of_numbers (take 4 bytes) (unpack widths (drop 4 bytes)) (take 32 (drop 126 bytes))

-- "NBF\x01"
abbrev pub magic_bytes : List ℕ
magic_bytes = 78 ∷ 66 ∷ 70 ∷ 1 ∷ []

abbrev pub is_valid_magic : ArchiveHeader → Bool
is_valid_magic h = list_eq h.magic magic_bytes

-- Major version 1, and minor versions up to 0.
abbrev pub is_version_supported : ArchiveHeader → Bool
is_version_supported h = (h.version_major == 1) && leb h.version_minor 0

unfoldable pub is_valid : ArchiveHeader → Bool
is_valid h = is_valid_magic h && is_version_supported h

module _ (crc32 : List ℕ → ℕ) where
  -- The checksum of the header with 0 in the place of its checksum.
  abbrev pub computed : ArchiveHeader → ℕ
  computed h = crc32 (serialize (record h { header_checksum = 0 }))

  unfoldable pub verify_checksum : ArchiveHeader → Bool
  verify_checksum h = if h.header_checksum == 0 then true else computed h == h.header_checksum

  unfoldable pub update_checksum : ArchiveHeader → ArchiveHeader
  update_checksum h = record h { header_checksum = computed h }

  -- The struct as it is after `memcpy`, and what is found wrong with it.
  unfoldable pub judge : ArchiveHeader → Option HeaderError
  unfolding is_valid verify_checksum
  judge h =
      if is_valid h
      then if is_version_supported h
        then if verify_checksum h then none else some checksum_mismatch
        else some unsupported_version
      else some invalid_magic

  -- A span that is too short leaves the object as it is.
  unfoldable pub parse : List ℕ → ArchiveHeader → ArchiveHeader × Option HeaderError
  parse bytes old =
      if ltb (length bytes) header_size
      then (old, some corrupt_header)
      else (header_of (take header_size bytes), judge (header_of (take header_size bytes)))
