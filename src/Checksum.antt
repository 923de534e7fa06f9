-- ===== src/Checksum.antt =====
-- src/utils/Checksum.cpp, in the build without OpenSSL: the streaming checksum of the archive.
-- SHA-256 is third-party code: it is the parameter `sha256`, the digest of the bytes fed to a
-- context since it was made, and a context stands for these bytes.
use nebula_fs.Common.{ℕ, Bool, List, [], ◌∷◌, ◌++◌, Option, none, some, replicate, list_eq}

pub data HashAlgorithm : Type 0 where
  crc32 sha_256 blake3 : HashAlgorithm

pub record ChecksumEngine : Type 0 where
  pub algo : HashAlgorithm
  pub ctx : Option (List ℕ)

-- `initContext`: only two of the algorithms have a context.
abbrev pub init_context : HashAlgorithm → Option (List ℕ)
init_context crc32 = none
init_context sha_256 = some []
init_context blake3 = some []

unfoldable pub new : HashAlgorithm → ChecksumEngine
new algo = record { algo = algo; ctx = init_context algo }

unfoldable pub reset : ChecksumEngine → ChecksumEngine
reset e = record e { ctx = init_context e.algo }

-- An update with no bytes feeds nothing, as one without a context.
unfoldable pub update : ChecksumEngine → List ℕ → ChecksumEngine
update e bytes = elim e.ctx [ none ↦ e | some fed ↦ record e { ctx = some (fed ++ bytes) } ]

unfoldable pub hash_size : ChecksumEngine → ℕ
hash_size e = elim e.algo [ crc32 ↦ 4 | sha_256 ↦ 32 | blake3 ↦ 64 ]

-- `ChecksumValue hash{}`
unfoldable pub zero_hash : List ℕ
zero_hash = replicate 32 0

module _ (sha256 : List ℕ → List ℕ) where
  -- What the context holds afterwards is not used: every caller resets or drops the engine.
  unfoldable pub finalize : ChecksumEngine → List ℕ
  finalize e = elim e.ctx [ none ↦ zero_hash | some fed ↦ sha256 fed ]

  unfoldable pub compute : List ℕ → HashAlgorithm → List ℕ
  unfolding new update finalize
  compute bytes algo = finalize (update (new algo) bytes)

  feed : ChecksumEngine → List (List ℕ) → ChecksumEngine
  feed e [] = e
  feed e (b ∷ bs) = feed (update e b) bs

  -- `compute` over several buffers.
  unfoldable pub compute_all : List (List ℕ) → HashAlgorithm → List ℕ
  unfolding new update finalize feed
  compute_all buffers algo = finalize (feed (new algo) buffers)

  unfoldable pub verify : List ℕ → List ℕ → HashAlgorithm → Bool
  unfolding compute
  verify bytes expected algo = list_eq (compute bytes algo) expected
