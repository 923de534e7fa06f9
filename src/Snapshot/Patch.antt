-- ===== src/Snapshot/Patch.antt =====
-- src/snapshot/PatchApplier.cpp: a manifest from its parent and a delta.
use nebula_fs.Common.{
  ℕ, zero, suc, ◌+◌, ◌/◌, ◌%◌, ◌==◌, Option, none, some, List, [], ◌∷◌, ◌++◌, ltb, if◌then◌else◌,
}
use nebula_fs.Snapshot.Manifest.{
  SnapshotNode, SnapshotManifest, new_manifest, add_node, remove_node,
}
use nebula_fs.Snapshot.Delta.{DeltaAction, DeltaEntry, SnapshotDelta}

-- `std::to_string` of a `uint64_t`, which has at most twenty digits.
decimal : ℕ → ℕ → List ℕ
decimal zero v = []
decimal (suc fuel) v =
    let front = decimal fuel (v / 10) in
    if ltb v 10 then (48 + v) ∷ [] else front ++ (48 + v % 10) ∷ []

-- "reconstructed_snap_"
abbrev label_prefix : List ℕ
label_prefix =
    114 ∷ 101 ∷ 99 ∷ 111 ∷ 110 ∷ 115 ∷ 116 ∷ 114 ∷ 117 ∷ 99 ∷ 116 ∷ 101 ∷ 100 ∷ 95 ∷ 115 ∷ 110 ∷ 97
    ∷ 112 ∷ 95 ∷ []

unfoldable pub default_label : ℕ → List ℕ → List ℕ
unfolding decimal
default_label id [] = label_prefix ++ decimal 20 id
default_label id (c ∷ cs) = c ∷ cs

unfoldable pub add_all : List SnapshotNode → SnapshotManifest → SnapshotManifest
unfolding add_node
add_all [] target = target
add_all (n ∷ ns) target = add_all ns (add_node n target)

abbrev pub add_new : Option SnapshotNode → SnapshotManifest → SnapshotManifest
add_new none target = target
add_new (some n) target = add_node n target

-- The `switch`; an action without a name is none of its cases.
unfoldable pub apply_action : DeltaEntry → SnapshotManifest → SnapshotManifest
unfolding add_node remove_node
apply_action e target = elim e.action [
  | DeltaAction.added ↦ add_new e.new_node target
  | DeltaAction.modified ↦ add_new e.new_node target
  | DeltaAction.deleted ↦ (remove_node e.path target).0
  | _ ↦ target
]

unfoldable pub apply_entries : List DeltaEntry → SnapshotManifest → SnapshotManifest
unfolding apply_action
apply_entries [] target = target
apply_entries (e ∷ es) target = apply_entries es (apply_action e target)

unfoldable pub apply_patch : ℕ → SnapshotManifest → SnapshotDelta → List ℕ → Option SnapshotManifest
unfolding new_manifest add_all apply_entries default_label
apply_patch now base delta target_label =
    if delta.base_snapshot_id == base.id
    then some (
        apply_entries delta.entries (
          add_all base.nodes (
            new_manifest now delta.target_snapshot_id base.id
              (default_label delta.target_snapshot_id target_label) 0)))
    else none
