-- ===== src/Storage/Tiered/Contents.antt =====
-- What the blocks of src/storage/backend/TieredStorageManager.cpp read as, over backends that keep what
-- they are given.
use nebula_fs.Common.{
  ℕ, ◌+◌, ◌%◌, ◌^◌, ◌≡◌, refl, sym, ap, ◌∙◌, Bool, false, Bool-cases, inl, inr, ◌⊎◌, Option, none,
  some, List, ◌==◌, assoc_store, assoc_find, assoc_find-assoc_store, assoc_find-assoc_store_other,
  arith,
}
use mathlib.Core.Path.{subst}
use nebula_fs.Storage.{
  StorageError, success, not_found, already_exists, capacity_exceeded, io_error, corrupt_block,
  invalid_offset, invalid_parameter, StorageResult, found, refused, Backend,
}
use nebula_fs.Storage.Tiered.{
  TierLevel, hot_memory, cold_disk, TieredStorage, settle, erase_first, touch_hot, demote_read,
  demote_block, make_room, write_hot, drop_cold, write_block, read_block,
}

settle_answer {ℓ} : {A : Type ℓ} (good bad : A) (e : StorageError) → (settle good bad e).1 ≡ e
settle_answer good bad success = refl
settle_answer good bad not_found = refl
settle_answer good bad already_exists = refl
settle_answer good bad capacity_exceeded = refl
settle_answer good bad io_error = refl
settle_answer good bad corrupt_block = refl
settle_answer good bad invalid_offset = refl
settle_answer good bad invalid_parameter = refl

settle_success {ℓ} :
    {A : Type ℓ} (good bad : A) (e : StorageError)
    → (settle good bad e).1 ≡ success
    → (settle good bad e).0 ≡ good
settle_success good bad e ok = ap (λ x. (settle good bad x).0) (sym (settle_answer good bad e) ∙ ok)

module _ {S : Type 0} where
  -- What a read answers.
  abbrev pub content : Backend S → ℕ → S → StorageResult
  content b id s = (b.read_block id s).1

  -- A backend keeps what it is given: a block that is written is read, and the calls for one block
  -- leave the others.
  pub record IsKeeping (b : Backend S) : Type 0 where
    pub write_read :
        (id : ℕ) (bytes : List ℕ) (s : S)
        → (b.write_block id bytes s).1 ≡ success
        → content b id (b.write_block id bytes s).0 ≡ found bytes
    pub write_other :
        (id j : ℕ) (bytes : List ℕ) (s : S)
        → (id == j) ≡ false
        → content b j (b.write_block id bytes s).0 ≡ content b j s
    pub read_any : (id j : ℕ) (s : S) → content b j (b.read_block id s).0 ≡ content b j s
    pub delete_other :
        (id j : ℕ) (s : S) → (id == j) ≡ false → content b j (b.delete_block id s).0 ≡ content b j s

assoc_cases : (o : Option TierLevel) → (o ≡ none) ⊎ ((o ≡ some hot_memory) ⊎ (o ≡ some cold_disk))
assoc_cases none = inl refl
assoc_cases (some hot_memory) = inr (inl refl)
assoc_cases (some cold_disk) = inr (inr refl)

-- What a block of a tier reads as.
abbrev tier_content :
    {H C : Type 0} → Backend H → Backend C → ℕ → H → C → Option TierLevel → StorageResult
tier_content hot cold id h c none = refused not_found
tier_content hot cold id h c (some hot_memory) = content hot id h
tier_content hot cold id h c (some cold_disk) = content cold id c

module _ {H C : Type 0} (hot : Backend H) (cold : Backend C) where
  -- What a block reads as: through the table, from the tier that it names.
  unfoldable pub contents : ℕ → TieredStorage H C → StorageResult
  contents id t = tier_content hot cold id t.hot_tier t.cold_tier (assoc_find id t.block_tiers)

  -- `readBlock` answers it.
  read_block-contents :
      (id : ℕ) (promote : Bool) (t : TieredStorage H C)
      → (read_block hot cold id promote t).1 ≡ contents id t
  unfolding read_block contents
  read_block-contents id promote t = elim (assoc_cases (assoc_find id t.block_tiers)) [
    | inl absent ↦ rw (absent, read_block) refl
    | inr (inl in_hot) ↦ rw (in_hot, read_block) refl
    | inr (inr in_cold) ↦ rw (in_cold, read_block) refl
  ]

module _ {H C : Type 0} (hot : Backend H) (cold : Backend C) (hot_keeps : IsKeeping hot)
    (cold_keeps : IsKeeping cold) where
  -- A block whose bytes are moved to the cold tier, and the others.
  demote_moved :
      (id : ℕ) (bytes : List ℕ) (t : TieredStorage H C)
      → content hot id t.hot_tier ≡ found bytes
      → assoc_find id t.block_tiers ≡ some hot_memory
      → (cold.write_block id bytes t.cold_tier).1 ≡ success
      → (j : ℕ)
      → tier_content hot cold j
          (hot.delete_block id t.hot_tier).0
          (cold.write_block id bytes t.cold_tier).0
          (assoc_find j (assoc_store id cold_disk t.block_tiers))
        ≡ tier_content hot cold j t.hot_tier t.cold_tier (assoc_find j t.block_tiers)
  demote_moved id bytes t there in_hot ok j = elim (Bool-cases (id == j)) [
    | inl same ↦
        let eq : id ≡ j = ground arith in
        subst
          (λ k.
            tier_content hot cold k (hot.delete_block id t.hot_tier).0
              (cold.write_block id bytes t.cold_tier).0
              (assoc_find k (assoc_store id cold_disk t.block_tiers))
            ≡ tier_content hot cold k t.hot_tier t.cold_tier (assoc_find k t.block_tiers))
          eq
          (rw (assoc_find-assoc_store id cold_disk t.block_tiers, in_hot)
            (cold_keeps.write_read id bytes t.cold_tier ok ∙ sym there))
    | inr differ ↦
        rw (assoc_find-assoc_store_other id j cold_disk t.block_tiers differ)
          (elim (assoc_cases (assoc_find j t.block_tiers)) [
            | inl absent ↦ rw absent refl
            | inr (inl at_hot) ↦ rw at_hot (hot_keeps.delete_other id j t.hot_tier differ)
            | inr (inr at_cold) ↦ rw at_cold (cold_keeps.write_other id j bytes t.cold_tier differ)
          ])
  ]

  demoted :
      (id : ℕ) (bytes : List ℕ) (t : TieredStorage H C)
      → (demote_read hot cold id (found bytes) t).1 ≡ success
      → ((cold.write_block id bytes t.cold_tier).1 ≡ success)
        × ((demote_read hot cold id (found bytes) t).0 ≡ record t {
          hot_tier = (hot.delete_block id t.hot_tier).0;
          cold_tier = (cold.write_block id bytes t.cold_tier).0;
          block_tiers = assoc_store id cold_disk t.block_tiers;
          hot_lru_queue = erase_first id t.hot_lru_queue;
          migrations_to_cold = (t.migrations_to_cold + 1) % 2 ^ 64;
        })
  unfolding demote_read
  demoted id bytes t ok =
      let written = cold.write_block id bytes t.cold_tier in
      (sym (settle_answer _ _ written.1) ∙ ok, settle_success _ _ written.1 ok)

  read_kept :
      (id j : ℕ) (t : TieredStorage H C)
      → contents hot cold j (record t { hot_tier = (hot.read_block id t.hot_tier).0 })
        ≡ contents hot cold j t
  unfolding contents
  read_kept id j t = elim (assoc_cases (assoc_find j t.block_tiers)) [
    | inl absent ↦ rw absent refl
    | inr (inl at_hot) ↦ rw at_hot (hot_keeps.read_any id j t.hot_tier)
    | inr (inr at_cold) ↦ rw at_cold refl
  ]

  -- A block of the hot tier that can be read and is demoted is found in the cold tier afterwards, and it
  -- and every other block read as before.
  pub demote_block-contents :
      (id : ℕ) (bytes : List ℕ) (t : TieredStorage H C)
      → assoc_find id t.block_tiers ≡ some hot_memory
      → contents hot cold id t ≡ found bytes
      → (demote_block hot cold id t).1 ≡ success
      → (assoc_find id (demote_block hot cold id t).0.block_tiers ≡ some cold_disk)
        × ((j : ℕ) → contents hot cold j (demote_block hot cold id t).0 ≡ contents hot cold j t)
  unfolding contents
  demote_block-contents id bytes t in_hot there ok =
      let read = hot.read_block id t.hot_tier in
      let start = record t { hot_tier = read.0 } in
      let reads : read.1 ≡ found bytes = rw in_hot at there in
      let is : demote_block hot cold id t ≡ demote_read hot cold id (found bytes) start =
        unfold demote_block in ap (λ r. demote_read hot cold id r start) reads in
      let moved = demoted id bytes start (ap (λ r. r.1) (sym is) ∙ ok) in
      let done = ap (λ r. r.0) is ∙ moved.1 in
      (
        ap (λ x. assoc_find id x.block_tiers) done
            ∙ assoc_find-assoc_store id cold_disk t.block_tiers,
        λ j.
            ap (contents hot cold j) done
            ∙ demote_moved id bytes start (hot_keeps.read_any id id t.hot_tier ∙ reads) in_hot
                moved.0 j
            ∙ read_kept id j t,
      )

  -- A block that is written without an error is read with the bytes that were written, whatever was
  -- moved to make room for it, and whether the read may promote it or not.
  pub read_block-write_block :
      (id : ℕ) (bytes : List ℕ) (promote : Bool) (t : TieredStorage H C)
      → (write_block hot cold id bytes t).1 ≡ success
      → (read_block hot cold id promote (write_block hot cold id bytes t).0).1 ≡ found bytes
  unfolding write_block write_hot
  read_block-write_block id bytes promote t ok =
      let room = make_room hot cold (drop_cold hot cold id t) in
      let written = hot.write_block id bytes room.hot_tier in
      let good = touch_hot id (record room {
        hot_tier = written.0;
        block_tiers = assoc_store id hot_memory room.block_tiers;
      }) in
      let bad = record room { hot_tier = written.0 } in
      let accepted : written.1 ≡ success = sym (settle_answer good bad written.1) ∙ ok in
      let stored : contents hot cold id good ≡ found bytes =
        unfold contents in
        rw (assoc_find-assoc_store id hot_memory room.block_tiers)
          (hot_keeps.write_read id bytes room.hot_tier accepted) in
      read_block-contents hot cold id promote (settle good bad written.1).0
      ∙ ap (contents hot cold id) (settle_success good bad written.1 ok)
      ∙ stored
