-- ===== src/Storage/Memory/Laws.antt =====
-- The backend of src/storage/backend/MemoryStorageBackend.cpp keeps what it is given.
use nebula_fs.Common.{
  ℕ, ◌≡◌, refl, sym, ap, ◌∙◌, false, Bool-cases, ◌⊎◌, inl, inr, Option, none, some, List, ltb, ◌==◌,
  ==_refl, if◌then◌else◌, assoc_store, assoc_find, assoc_find-assoc_store,
  assoc_find-assoc_store_other, assoc_find-assoc_erase_other,
}
use nebula_fs.Storage.{success, not_found, corrupt_block, StorageResult, found, refused}
use nebula_fs.Storage.Memory.{
  InternalBlock, MemoryStorage, bytes_with, memory_write_block, memory_read_block, read_entry,
  delete_entry, memory_delete_block, memory_backend,
}
use nebula_fs.Storage.Tiered.Contents.{content, IsKeeping}

module _ (crc32 : List ℕ → ℕ) where
  -- A read looks at the map alone.
  abbrev answer : Option InternalBlock → StorageResult
  answer none = refused not_found
  answer (some b) = if crc32 b.bytes == b.checksum then found b.bytes else refused corrupt_block

  read_entry-answer :
      (o : Option InternalBlock) (s : MemoryStorage) → (read_entry crc32 o s).1 ≡ answer o
  unfolding read_entry
  read_entry-answer none s = refl
  read_entry-answer (some b) s = elim (Bool-cases (crc32 b.bytes == b.checksum)) [
    | inl sound ↦ rw sound refl
    | inr corrupt ↦ rw corrupt refl
  ]

  read_entry_blocks :
      (o : Option InternalBlock) (s : MemoryStorage) → (read_entry crc32 o s).0.blocks ≡ s.blocks
  unfolding read_entry
  read_entry_blocks none s = refl
  read_entry_blocks (some b) s = elim (Bool-cases (crc32 b.bytes == b.checksum)) [
    | inl sound ↦ rw sound refl
    | inr corrupt ↦ rw corrupt refl
  ]

  content-answer :
      (id : ℕ) (s : MemoryStorage)
      → content (memory_backend crc32) id s ≡ answer (assoc_find id s.blocks)
  unfolding memory_read_block
  content-answer id s = read_entry-answer (assoc_find id s.blocks) s

  -- Two states with the same block under an id answer the same.
  content_same :
      (id : ℕ) (s s' : MemoryStorage)
      → assoc_find id s'.blocks ≡ assoc_find id s.blocks
      → content (memory_backend crc32) id s' ≡ content (memory_backend crc32) id s
  content_same id s s' same = content-answer id s' ∙ ap answer same ∙ sym (content-answer id s)

  module _ (id : ℕ) (bytes : List ℕ) (s : MemoryStorage) where
    abbrev written : InternalBlock
    written = record { bytes = bytes; checksum = crc32 bytes }

    -- A write stores the block, or leaves the blocks.
    write_blocks :
        ((memory_write_block crc32 id bytes s).1 ≡ success
          → (memory_write_block crc32 id bytes s).0.blocks ≡ assoc_store id written s.blocks)
        × (((memory_write_block crc32 id bytes s).0.blocks ≡ assoc_store id written s.blocks)
            ⊎ ((memory_write_block crc32 id bytes s).0.blocks ≡ s.blocks))
    unfolding memory_write_block
    write_blocks = elim (Bool-cases (ltb s.max_capacity_bytes (bytes_with id bytes s))) [
      | inl full ↦ rw full (λ ok. cc, inr refl)
      | inr room ↦ rw room (λ ok. refl, inl refl)
    ]

  write_read :
      (id : ℕ) (bytes : List ℕ) (s : MemoryStorage)
      → (memory_write_block crc32 id bytes s).1 ≡ success
      → content (memory_backend crc32) id (memory_write_block crc32 id bytes s).0 ≡ found bytes
  write_read id bytes s ok =
      let s' = (memory_write_block crc32 id bytes s).0 in
      content-answer id s'
      ∙ ap (λ m. answer (assoc_find id m)) ((write_blocks id bytes s).0 ok)
      ∙ ap answer (assoc_find-assoc_store id (written id bytes s) s.blocks)
      ∙ rw (==_refl (crc32 bytes)) refl

  write_other :
      (id j : ℕ) (bytes : List ℕ) (s : MemoryStorage)
      → (id == j) ≡ false
      → content (memory_backend crc32) j (memory_write_block crc32 id bytes s).0
        ≡ content (memory_backend crc32) j s
  write_other id j bytes s differ =
      let s' = (memory_write_block crc32 id bytes s).0 in
      content_same j s s' (elim ((write_blocks id bytes s).1) [
        | inl stored ↦
            ap (assoc_find j) stored
            ∙ assoc_find-assoc_store_other id j (written id bytes s) s.blocks differ
        | inr kept ↦ ap (assoc_find j) kept
      ])

  delete_entry_other :
      (id j : ℕ) (o : Option InternalBlock) (s : MemoryStorage)
      → (id == j) ≡ false
      → assoc_find j (delete_entry id o s).0.blocks ≡ assoc_find j s.blocks
  unfolding delete_entry
  delete_entry_other id j none s differ = refl
  delete_entry_other id j (some b) s differ = assoc_find-assoc_erase_other id j s.blocks differ

  -- The memory backend is one that keeps what it is given: a block whose write succeeds is read with
  -- the bytes written, and writing, reading or deleting one block does not change what another reads as.
  pub memory_backend-IsKeeping : IsKeeping (memory_backend crc32)
  memory_backend-IsKeeping = record {
    write_read = write_read;
    write_other = write_other;
    read_any = λ id j s. content_same j s (memory_read_block crc32 id s).0 (
        ap (assoc_find j)
          (unfold memory_read_block in read_entry_blocks (assoc_find id s.blocks) s));
    delete_other = λ id j s differ.
        content_same j s (memory_delete_block id s).0
          (unfold memory_delete_block in delete_entry_other id j (assoc_find id s.blocks) s differ);
  }
