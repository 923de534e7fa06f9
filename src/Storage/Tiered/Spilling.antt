-- ===== src/Storage/Tiered/Spilling.antt =====
-- `spillHotToCold` of src/storage/backend/TieredStorageManager.cpp ends: every round takes a block off
-- the queue.
use nebula_fs.Common.{
  ℕ, zero, suc, ◌≤◌, ◌≡◌, ◌≢◌, ◌⊎◌, refl, sym, ap, ◌∙◌, Bool-cases, inl, inr, some, Option-cases,
  List, [], ◌∷◌, ◌==◌, ==_refl, length, arith,
}
use mathlib.Core.Option
use nebula_fs.Storage.{
  StorageError, success, not_found, already_exists, capacity_exceeded, io_error, corrupt_block,
  invalid_offset, invalid_parameter, StorageResult, found, refused, Backend,
}
use nebula_fs.Storage.Tiered.{
  TieredStorage, settle, erase_first, last, pop_back, forget, demote_read, demote_block, spill,
}

length-erase_first :
    (x : ℕ) (xs : List ℕ) → last xs ≡ some x → suc (length (erase_first x xs)) ≡ length xs
length-erase_first x [] h = cc
length-erase_first x (y ∷ []) h =
    let same : y ≡ x = ap (λ o. Option.get_or o y) h in rw (same, ==_refl x) refl
length-erase_first x (y ∷ z ∷ zs) h = elim (Bool-cases (y == x)) [
  | inl same ↦ rw same refl
  | inr other ↦ rw other (ap suc (length-erase_first x (z ∷ zs) h))
]

length-pop_back : (x : ℕ) (xs : List ℕ) → last xs ≡ some x → suc (length (pop_back xs)) ≡ length xs
length-pop_back x [] h = cc
length-pop_back x (y ∷ []) h = refl
length-pop_back x (y ∷ z ∷ zs) h = ap suc (length-pop_back x (z ∷ zs) h)

length-pop_back_le : (xs : List ℕ) → length (pop_back xs) ≤ length xs
length-pop_back_le [] = omega arith
length-pop_back_le (x ∷ []) = omega arith
length-pop_back_le (x ∷ y ∷ ys) = omega (arith, length-pop_back_le (y ∷ ys))

settle_either {ℓ κ} :
    {A : Type ℓ} {B : Type κ} (f : A → B) (good bad : A) (e : StorageError)
    → (f (settle good bad e).0 ≡ f good)
      ⊎ ((f (settle good bad e).0 ≡ f bad) × ((settle good bad e).1 ≢ success))
settle_either f good bad success = inl refl
settle_either f good bad already_exists = inr (refl, λ h. cc)
settle_either f good bad capacity_exceeded = inr (refl, λ h. cc)
settle_either f good bad corrupt_block = inr (refl, λ h. cc)
settle_either f good bad invalid_offset = inr (refl, λ h. cc)
settle_either f good bad invalid_parameter = inr (refl, λ h. cc)
settle_either f good bad io_error = inr (refl, λ h. cc)
settle_either f good bad not_found = inr (refl, λ h. cc)

-- Two runs of which the answer picks one.
on_answer {ℓ} :
    {A : Type ℓ} (e : StorageError) {a b a' b' : A}
    → (e ≡ success → a ≡ a')
    → b ≡ b'
    → elim e as (λ _. A) [ success ↦ a | _ ↦ b ] ≡ elim e as (λ _. A) [ success ↦ a' | _ ↦ b' ]
on_answer success same other = same refl
on_answer not_found same other = other
on_answer already_exists same other = other
on_answer capacity_exceeded same other = other
on_answer io_error same other = other
on_answer corrupt_block same other = other
on_answer invalid_offset same other = other
on_answer invalid_parameter same other = other

module _ {H C : Type 0} (hot : Backend H) (cold : Backend C)
    (honest : (id : ℕ) (s : H) → (hot.read_block id s).1 ≢ refused success) where
  -- A demotion that succeeds takes the block off the queue; another leaves the queue.
  demote_read_queue :
      (id : ℕ) (r : StorageResult) (t : TieredStorage H C)
      → r ≢ refused success
      → ((demote_read hot cold id r t).0.hot_lru_queue ≡ erase_first id t.hot_lru_queue)
        ⊎ (((demote_read hot cold id r t).0.hot_lru_queue ≡ t.hot_lru_queue)
            × ((demote_read hot cold id r t).1 ≢ success))
  unfolding demote_read
  demote_read_queue id (refused e) t sound = inr (refl, λ ok. sound (ap refused ok))
  demote_read_queue id (found bytes) t sound =
      settle_either (λ x. x.hot_lru_queue) _ _ (cold.write_block id bytes t.cold_tier).1

  demote_queue :
      (id : ℕ) (t : TieredStorage H C)
      → ((demote_block hot cold id t).0.hot_lru_queue ≡ erase_first id t.hot_lru_queue)
        ⊎ (((demote_block hot cold id t).0.hot_lru_queue ≡ t.hot_lru_queue)
            × ((demote_block hot cold id t).1 ≢ success))
  unfolding demote_block
  demote_queue id t =
      let read = hot.read_block id t.hot_tier in
      demote_read_queue id read.1 (record t { hot_tier = read.0 }) (honest id t.hot_tier)

  -- What is left of the queue after a round, either way.
  next_queue :
      (id : ℕ) (t : TieredStorage H C)
      → last t.hot_lru_queue ≡ some id
      → ((demote_block hot cold id t).1 ≡ success
          → suc (length (demote_block hot cold id t).0.hot_lru_queue) ≡ length t.hot_lru_queue)
        × (suc (length (pop_back (demote_block hot cold id t).0.hot_lru_queue))
            ≤ length t.hot_lru_queue)
  next_queue id t there =
      let tried = demote_block hot cold id t in
      let shorter = length-erase_first id t.hot_lru_queue there in
      elim (demote_queue id t) [
        | inl gone ↦ (
          λ ok. ap (λ q. suc (length q)) gone ∙ shorter,
          rw gone (omega (arith, shorter, length-pop_back_le (erase_first id t.hot_lru_queue))),
        )
        | inr kept ↦ (
          λ ok. absurd (kept.1 ok),
          rw kept.0 (omega (arith, length-pop_back id t.hot_lru_queue there)),
        )
      ]

  spill_empty :
      (fuel count : ℕ) (t : TieredStorage H C)
      → length t.hot_lru_queue ≡ 0
      → spill hot cold fuel count t ≡ t
  unfolding spill
  spill_empty zero count t none_left = refl
  spill_empty (suc fuel) zero t none_left = refl
  spill_empty (suc fuel) (suc count) t none_left = elim (Option-cases (last t.hot_lru_queue)) [
    | inl empty ↦ rw (empty, spill) refl
    | inr some_left ↦
        absurd (omega (arith, none_left, length-pop_back some_left.0 t.hot_lru_queue some_left.1))
  ]

  -- More fuel than the length of the queue changes nothing: the loop has ended.
  pub spill-enough :
      (fuel more count : ℕ) (t : TieredStorage H C)
      → length t.hot_lru_queue ≤ fuel
      → length t.hot_lru_queue ≤ more
      → spill hot cold fuel count t ≡ spill hot cold more count t
  unfolding spill
  spill-enough zero more count t h k = sym (spill_empty more count t (omega arith))
  spill-enough (suc fuel) zero count t h k = spill_empty (suc fuel) count t (omega arith)
  spill-enough (suc fuel) (suc more) zero t h k = refl
  spill-enough (suc fuel) (suc more) (suc count) t h k =
      elim (Option-cases (last t.hot_lru_queue)) [
        | inl empty ↦ rw (empty, spill) refl
        | inr (victim, there) ↦
            let tried = demote_block hot cold victim t in
            let left = next_queue victim t there in
            rw (there, spill)
              (on_answer tried.1
                (λ ok.
                  let fewer = left.0 ok in
                  spill-enough fuel more count tried.0 (omega arith) (omega arith))
                (spill-enough fuel more (suc count) (forget victim tried.0) (omega (arith, left.1))
                  (omega (arith, left.1))))
      ]
