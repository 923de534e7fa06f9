-- ===== src/Snapshot/Delta.antt =====
-- src/snapshot/DeltaEngine.cpp: the difference of two manifests.
use nebula_fs.Common.{
  ℕ, ◌+◌, ◌-◌, ◌%◌, ◌^◌, Bool, true, false, not, ◌||◌, Option, none, some, List, [], ◌∷◌, ◌++◌,
  ◌==◌, if◌then◌else◌,
}
use nebula_fs.Snapshot.Manifest.{SnapshotNode, SnapshotManifest, find_node, has_node}

-- `enum class DeltaAction : uint8_t`; `unnamed` is a byte that no name stands for.
pub data DeltaAction : Type 0 where
  unchanged added modified deleted : DeltaAction
  unnamed : ℕ → DeltaAction

pub record DeltaEntry : Type 0 where
  pub path : List ℕ
  pub action : DeltaAction
  pub old_node : Option SnapshotNode
  pub new_node : Option SnapshotNode
  pub new_block_ids : List ℕ

pub record SnapshotDelta : Type 0 where
  pub base_snapshot_id : ℕ
  pub target_snapshot_id : ℕ
  pub entries : List DeltaEntry

abbrev pub is_in : ℕ → List ℕ → Bool
is_in id [] = false
is_in id (b ∷ bs) = if b == id then true else is_in id bs

-- The ids of the second list that are in the first, and those that are not.
unfoldable pub reused_ids : List ℕ → List ℕ → List ℕ
reused_ids base [] = []
reused_ids base (b ∷ bs) = let rest = reused_ids base bs in if is_in b base then b ∷ rest else rest

unfoldable pub new_ids : List ℕ → List ℕ → List ℕ
new_ids base [] = []
new_ids base (b ∷ bs) = let rest = new_ids base bs in if is_in b base then rest else b ∷ rest

abbrev pub added_entry : SnapshotNode → DeltaEntry
added_entry node = record {
  path = node.path;
  action = DeltaAction.added;
  old_node = none;
  new_node = some node;
  new_block_ids = node.block_ids;
}

-- `checksum` and `size` are all that is compared.
unfoldable pub differs : SnapshotNode → SnapshotNode → Bool
differs old new = not (old.checksum == new.checksum) || not (old.size == new.size)

unfoldable pub modified_entry : SnapshotNode → SnapshotNode → DeltaEntry
unfolding new_ids
modified_entry old new = record {
  path = new.path;
  action = DeltaAction.modified;
  old_node = some old;
  new_node = some new;
  new_block_ids = new_ids old.block_ids new.block_ids;
}

abbrev pub deleted_entry : SnapshotNode → DeltaEntry
deleted_entry node = record {
  path = node.path;
  action = DeltaAction.deleted;
  old_node = some node;
  new_node = none;
  new_block_ids = [];
}

-- The loop over the target's nodes.
unfoldable pub changes : SnapshotManifest → List SnapshotNode → List DeltaEntry
unfolding find_node differs modified_entry
changes base [] = []
changes base (n ∷ ns) =
    let rest = changes base ns in
    elim (find_node n.path base) [
      | none ↦ added_entry n ∷ rest
      | some old ↦ if differs old n then modified_entry old n ∷ rest else rest
    ]

-- The loop over the base's nodes.
unfoldable pub deletions : SnapshotManifest → List SnapshotNode → List DeltaEntry
unfolding has_node
deletions target [] = []
deletions target (n ∷ ns) =
    let rest = deletions target ns in
    if has_node n.path target then rest else deleted_entry n ∷ rest

unfoldable pub compute_delta : SnapshotManifest → SnapshotManifest → SnapshotDelta
unfolding changes deletions
compute_delta base target = record {
  base_snapshot_id = base.id;
  target_snapshot_id = target.id;
  entries = changes base target.nodes ++ deletions target base.nodes;
}

is_modified : DeltaAction → Bool
is_modified DeltaAction.modified = true
is_modified _ = false

reused_of : DeltaEntry → List ℕ
unfolding is_modified reused_ids
reused_of e =
    if is_modified e.action
    then (elim e.old_node [
      | none ↦ []
      | some old ↦ elim e.new_node [ none ↦ [] | some new ↦ reused_ids old.block_ids new.block_ids ]
    ])
    else []

unfoldable pub compute_reused_blocks : List DeltaEntry → List ℕ
unfolding reused_of
compute_reused_blocks [] = []
compute_reused_blocks (e ∷ es) = reused_of e ++ compute_reused_blocks es

unfoldable pub growth : DeltaEntry → ℕ
growth e = elim e.action [
  | DeltaAction.added ↦ elim e.new_node [ none ↦ 0 | some new ↦ new.size ]
  | DeltaAction.modified ↦ elim e.new_node [
    | none ↦ 0
    | some new ↦ elim e.old_node [ none ↦ 0 | some old ↦ new.size - old.size ]
  ]
  | _ ↦ 0
]

unfoldable pub shrinkage : DeltaEntry → ℕ
shrinkage e = elim e.action [
  | DeltaAction.deleted ↦ elim e.old_node [ none ↦ 0 | some old ↦ old.size ]
  | DeltaAction.modified ↦ elim e.new_node [
    | none ↦ 0
    | some new ↦ elim e.old_node [ none ↦ 0 | some old ↦ old.size - new.size ]
  ]
  | _ ↦ 0
]

unfoldable pub added_bytes : List DeltaEntry → ℕ
unfolding growth
added_bytes [] = 0
added_bytes (e ∷ es) = (growth e + added_bytes es) % 2 ^ 64

unfoldable pub deleted_bytes : List DeltaEntry → ℕ
unfolding shrinkage
deleted_bytes [] = 0
deleted_bytes (e ∷ es) = (shrinkage e + deleted_bytes es) % 2 ^ 64
