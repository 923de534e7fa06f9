-- ===== src/Archive/Tests.antt =====
-- A header, and the theorem at it.
use nebula_fs.Common.{
  ℕ, ◌%◌, ◌^◌, ◌≡◌, refl, true, ◌++◌, none, some, List, [], ◌∷◌, replicate, sum, arith,
}
use nebula_fs.Packed.{pack, unpack}
use nebula_fs.Archive.Header.{
  ArchiveHeader, HeaderError, magic_bytes, serialize, header_of, is_valid, parse, judge,
  update_checksum,
}
use nebula_fs.Archive.Header.Stored.{IsPacked, parse-serialize}

-- A function of the bytes in the place of zlib's.
abbrev pub sum32 : List ℕ → ℕ
sum32 bytes = sum bytes % 2 ^ 32

abbrev pub plain : ArchiveHeader
plain = record {
  magic = magic_bytes;
  version_major = 1;
  version_minor = 0;
  flags = 5;
  archive_size = 300;
  metadata_offset = 158;
  directory_offset = 170;
  index_offset = 200;
  chunk_offset = 200;
  blocks_offset = 200;
  journal_offset = 0;
  entry_count = 2;
  metadata_size = 12;
  directory_size = 30;
  index_size = 0;
  chunk_size = 0;
  blocks_size = 100;
  journal_size = 0;
  header_checksum = 9;
  archive_checksum = replicate 32 7;
}

pub plain-IsPacked : IsPacked (update_checksum sum32 plain)
unfolding update_checksum serialize pack
plain-IsPacked = omega arith

wrong_magic :
    (parse sum32 (serialize (record plain { magic = 0 ∷ 66 ∷ 70 ∷ 1 ∷ [] })) plain).1
    ≡ some HeaderError.invalid_magic
unfolding parse serialize judge header_of pack unpack
wrong_magic = refl

wrong_checksum : (parse sum32 (serialize plain) plain).1 ≡ some HeaderError.checksum_mismatch
unfolding parse serialize judge header_of pack unpack
wrong_checksum = refl

pub plain-is_valid : is_valid plain ≡ true
unfolding is_valid
plain-is_valid = refl

parse-serialize_example :
    parse sum32 (serialize (update_checksum sum32 plain) ++ (1 ∷ 2 ∷ [])) plain
    ≡ (update_checksum sum32 plain, none)
parse-serialize_example =
    parse-serialize sum32 plain plain (1 ∷ 2 ∷ []) plain-is_valid plain-IsPacked
