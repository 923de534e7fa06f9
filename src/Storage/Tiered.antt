-- ===== src/Storage/Tiered.antt =====
-- src/storage/backend/TieredStorageManager.cpp: blocks in a hot backend, with the cold one behind it.
pub mod Contents
pub mod Spilling
use nebula_fs.Common.{
  ℕ, zero, suc, ◌+◌, ◌-◌, ◌%◌, ◌^◌, Bool, true, false, Option, none, some, List, [], ◌∷◌, leb, ◌==◌,
  if◌then◌else◌, length, assoc_store, assoc_find, assoc_erase,
}
use nebula_fs.Outcome.{Outcome, ok, ◌>>=◌}
use nebula_fs.Storage.{
  StorageError, success, not_found, StorageResult, found, refused, StorageStats, Backend,
}

pub data TierLevel : Type 0 where
  hot_memory cold_disk : TierLevel

-- The queue of the hot blocks has the one used last in front.
pub record TieredStorage (H C : Type 0) : Type 0 where
  pub hot_tier : H
  pub cold_tier : C
  pub max_hot_blocks : ℕ
  pub block_tiers : List (ℕ × TierLevel)
  pub hot_lru_queue : List ℕ
  pub migrations_to_cold : ℕ
  pub migrations_to_hot : ℕ

pub record TieredStorageStats : Type 0 where
  pub hot_blocks : ℕ
  pub cold_blocks : ℕ
  pub hot_bytes : ℕ
  pub cold_bytes : ℕ
  pub migrations_to_cold : ℕ
  pub migrations_to_hot : ℕ

-- The state after a success or after an error, with the error code.
abbrev pub settle {ℓ} : {A : Type ℓ} → A → A → StorageError → A × StorageError
settle good bad success = (good, success)
settle good bad e = (bad, e)

-- `std::find` and `erase`.
abbrev pub erase_first : ℕ → List ℕ → List ℕ
erase_first id [] = []
erase_first id (x ∷ xs) = let later = x ∷ erase_first id xs in if x == id then xs else later

-- `back()`
abbrev pub last : List ℕ → Option ℕ
last [] = none
last (x ∷ []) = some x
last (x ∷ y ∷ ys) = last (y ∷ ys)

-- `pop_back()`
abbrev pub pop_back : List ℕ → List ℕ
pop_back [] = []
pop_back (x ∷ []) = []
pop_back (x ∷ y ∷ ys) = x ∷ pop_back (y ∷ ys)

abbrev pub touched : ℕ → List ℕ → List ℕ
touched id queue = id ∷ erase_first id queue

module _ {H C : Type 0} where
  abbrev pub touch_hot : ℕ → TieredStorage H C → TieredStorage H C
  touch_hot id t = record t { hot_lru_queue = touched id t.hot_lru_queue }

  -- A victim that cannot be moved is forgotten.
  abbrev pub forget : ℕ → TieredStorage H C → TieredStorage H C
  forget id t = record t {
    hot_lru_queue = pop_back t.hot_lru_queue;
    block_tiers = assoc_erase id t.block_tiers;
  }

module _ {H C : Type 0} (hot : Backend H) (cold : Backend C) where
  -- The moves of `demoteBlock`, with what the hot tier answered.
  unfoldable pub demote_read :
      ℕ → StorageResult → TieredStorage H C → TieredStorage H C × StorageError
  demote_read id (refused e) t = (t, e)
  demote_read id (found bytes) t =
      let written = cold.write_block id bytes t.cold_tier in
      settle
        (record t {
          hot_tier = (hot.delete_block id t.hot_tier).0;
          cold_tier = written.0;
          block_tiers = assoc_store id cold_disk t.block_tiers;
          hot_lru_queue = erase_first id t.hot_lru_queue;
          migrations_to_cold = (t.migrations_to_cold + 1) % 2 ^ 64;
        })
        (record t { cold_tier = written.0 }) written.1

  unfoldable pub demote_block : ℕ → TieredStorage H C → TieredStorage H C × StorageError
  unfolding demote_read
  demote_block id t =
      let read = hot.read_block id t.hot_tier in
      demote_read id read.1 (record t { hot_tier = read.0 })

  -- The loop of `spillHotToCold`; every round takes a block off the queue.
  unfoldable pub spill : ℕ → ℕ → TieredStorage H C → TieredStorage H C
  unfolding demote_block
  spill zero count t = t
  spill (suc fuel) zero t = t
  spill (suc fuel) (suc count) t = elim (last t.hot_lru_queue) [
    | none ↦ t
    | some victim ↦
        let tried = demote_block victim t in
        let next = spill fuel count tried.0 in
        let again = spill fuel (suc count) (forget victim tried.0) in
        elim tried.1 [ success ↦ next | _ ↦ again ]
  ]

  unfoldable pub spill_hot_to_cold : ℕ → TieredStorage H C → TieredStorage H C
  unfolding spill
  spill_hot_to_cold count t = spill (length t.hot_lru_queue) count t

  -- `if (hotLruQueue_.size() >= maxHotBlocks_) spillHotToCold(1);`
  unfoldable pub make_room : TieredStorage H C → TieredStorage H C
  unfolding spill_hot_to_cold
  make_room t = if leb t.max_hot_blocks (length t.hot_lru_queue) then spill_hot_to_cold 1 t else t

  -- A write to the hot tier, recorded if it succeeds.
  unfoldable pub write_hot : ℕ → List ℕ → TieredStorage H C → TieredStorage H C × StorageError
  write_hot id bytes t =
      let written = hot.write_block id bytes t.hot_tier in
      settle
        (touch_hot id (record t {
          hot_tier = written.0;
          block_tiers = assoc_store id hot_memory t.block_tiers;
        }))
        (record t { hot_tier = written.0 }) written.1

  -- The moves of `promoteBlock`, with what the cold tier answered.
  unfoldable pub promote_read :
      ℕ → StorageResult → TieredStorage H C → TieredStorage H C × StorageError
  unfolding make_room write_hot
  promote_read id (refused e) t = (t, e)
  promote_read id (found bytes) t =
      let written = write_hot id bytes (make_room t) in
      let moved = written.0 in
      settle
        (record moved {
          cold_tier = (cold.delete_block id moved.cold_tier).0;
          migrations_to_hot = (moved.migrations_to_hot + 1) % 2 ^ 64;
        })
        moved written.1

  unfoldable pub promote_block : ℕ → TieredStorage H C → TieredStorage H C × StorageError
  unfolding promote_read
  promote_block id t =
      let read = cold.read_block id t.cold_tier in
      promote_read id read.1 (record t { cold_tier = read.0 })

  -- What the cold tier has of the block goes before it is written.
  abbrev pub drop_cold : ℕ → TieredStorage H C → TieredStorage H C
  drop_cold id t =
      if cold.has_block id t.cold_tier
      then record t { cold_tier = (cold.delete_block id t.cold_tier).0 }
      else t

  unfoldable pub write_block : ℕ → List ℕ → TieredStorage H C → TieredStorage H C × StorageError
  unfolding make_room write_hot
  write_block id bytes t = write_hot id bytes (make_room (drop_cold id t))

  -- What `readBlock` does after a read of the hot tier, and of the cold one.
  abbrev pub after_hot : ℕ → StorageResult → TieredStorage H C → TieredStorage H C
  after_hot id (found bytes) t = touch_hot id t
  after_hot id (refused e) t = t

  abbrev pub after_cold : ℕ → Bool → StorageResult → TieredStorage H C → TieredStorage H C
  after_cold id true (found bytes) t = (promote_block id t).0
  after_cold id true (refused e) t = t
  after_cold id false answer t = t

  unfoldable pub read_block : ℕ → Bool → TieredStorage H C → TieredStorage H C × StorageResult
  unfolding promote_block
  read_block id promote_to_hot t =
      let from_hot = hot.read_block id t.hot_tier in
      let from_cold = cold.read_block id t.cold_tier in
      elim (assoc_find id t.block_tiers) [
        | none ↦ (t, refused not_found)
        | some hot_memory ↦
            (after_hot id from_hot.1 (record t { hot_tier = from_hot.0 }), from_hot.1)
        | some cold_disk ↦ (
          after_cold id promote_to_hot from_cold.1 (record t { cold_tier = from_cold.0 }),
          from_cold.1,
        )
      ]

  unfoldable pub read_span :
      ℕ → ℕ → ℕ → TieredStorage H C → Outcome (TieredStorage H C × StorageResult)
  read_span id offset size t =
      let from_hot = hot.read_span id offset size t.hot_tier in
      let from_cold = cold.read_span id offset size t.cold_tier in
      elim (assoc_find id t.block_tiers) [
        | none ↦ ok (t, refused not_found)
        | some hot_memory ↦ from_hot >>= λ r. ok (record t { hot_tier = r.0 }, r.1)
        | some cold_disk ↦ from_cold >>= λ r. ok (record t { cold_tier = r.0 }, r.1)
      ]

  unfoldable pub delete_block : ℕ → TieredStorage H C → TieredStorage H C × StorageError
  delete_block id t =
      let from_hot = hot.delete_block id t.hot_tier in
      let from_cold = cold.delete_block id t.cold_tier in
      let left = assoc_erase id t.block_tiers in
      elim (assoc_find id t.block_tiers) [
        | none ↦ (t, not_found)
        | some hot_memory ↦ (
          record t {
            hot_tier = from_hot.0;
            hot_lru_queue = erase_first id t.hot_lru_queue;
            block_tiers = left;
          },
          from_hot.1,
        )
        | some cold_disk ↦ (record t { cold_tier = from_cold.0; block_tiers = left }, from_cold.1)
      ]

  abbrev pub has_block : ℕ → TieredStorage H C → Bool
  has_block id t = elim (assoc_find id t.block_tiers) [ none ↦ false | some l ↦ true ]

  abbrev pub get_block_tier : ℕ → TieredStorage H C → TierLevel
  get_block_tier id t = elim (assoc_find id t.block_tiers) [ none ↦ cold_disk | some l ↦ l ]

  abbrev pub tiered_stats : TieredStorage H C → TieredStorageStats
  tiered_stats t = record {
    hot_blocks = (hot.stats t.hot_tier).total_blocks;
    cold_blocks = (cold.stats t.cold_tier).total_blocks;
    hot_bytes = (hot.stats t.hot_tier).total_bytes;
    cold_bytes = (cold.stats t.cold_tier).total_bytes;
    migrations_to_cold = t.migrations_to_cold;
    migrations_to_hot = t.migrations_to_hot;
  }

  abbrev pub tiered_sync : TieredStorage H C → TieredStorage H C × StorageError
  tiered_sync t =
      let synced_hot = hot.sync t.hot_tier in
      let synced_cold = cold.sync t.cold_tier in
      (
        record t { hot_tier = synced_hot.0; cold_tier = synced_cold.0 },
        elim synced_hot.1 [ success ↦ synced_cold.1 | e ↦ e ],
      )

  unfoldable pub tiered_clear : TieredStorage H C → TieredStorage H C
  tiered_clear t = record t {
    hot_tier = hot.clear t.hot_tier;
    cold_tier = cold.clear t.cold_tier;
    block_tiers = [];
    hot_lru_queue = [];
    migrations_to_cold = 0;
    migrations_to_hot = 0;
  }
