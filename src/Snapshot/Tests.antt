-- ===== src/Snapshot/Tests.antt =====
-- Two snapshots of a small tree: one file changes, one goes and one comes.
use native.Mathlib.Decide.{dec_lt}
use nebula_fs.Common.Order.{lt_wf}
use nebula_fs.Outcome.{ok}
use nebula_fs.VarInt.{encode}
use nebula_fs.Snapshot.Wire.{
  code_delta_entry, action_byte, action_of, serialize_delta, deserialize_delta, serialize_manifest,
  deserialize_manifest,
}
use nebula_fs.Snapshot.Wire.RoundTrip.{IsWireNode, IsWireDelta, stored, deserialize-serialize_delta}
use nebula_fs.Snapshot.Wire.Nodes.{
  IsStorable, IsStorableManifest, without_nodes, deserialize-serialize_manifest,
}
use nebula_fs.Common.{◌≡◌, refl, inr, none, some, [], ◌∷◌, length, arith}
use nebula_fs.Snapshot.Manager.{SnapshotManager, Call, step, look_up}
use nebula_fs.Snapshot.Registry.{IsConsistent, step-IsConsistent}
use nebula_fs.Snapshot.Manifest.{SnapshotNode, SnapshotManifest, find_node, find_in_nodes}
use nebula_fs.Snapshot.Delta.{
  SnapshotDelta, DeltaAction, compute_delta, added_bytes, compute_reused_blocks,
}
use nebula_fs.Snapshot.Patch.{apply_patch}
use nebula_fs.Snapshot.Lookup.{Distinct}
use nebula_fs.Snapshot.Reconstruct.{patched, apply_patch-compute_delta}

abbrev kept : SnapshotNode
kept = record {
  entry_id = 1;
  path = 97 ∷ [];
  size = 10;
  checksum = 4;
  modified_time = 100;
  block_ids = 1 ∷ 2 ∷ [];
}

abbrev gone : SnapshotNode
gone = record kept { entry_id = 2; path = 98 ∷ [] }

abbrev came : SnapshotNode
came = record kept { entry_id = 3; path = 99 ∷ [] }

abbrev grown : SnapshotNode
grown = record kept { size = 15; block_ids = 2 ∷ 3 ∷ [] }

abbrev before : SnapshotManifest
before = record { id = 1; parent_id = 0; label = 120 ∷ []; timestamp = 5; nodes = kept ∷ gone ∷ [] }

abbrev after : SnapshotManifest
after = record before { id = 2; parent_id = 1; nodes = came ∷ grown ∷ [] }

sizes : added_bytes (compute_delta before after).entries ≡ 15
unfolding added_bytes compute_delta
sizes = refl

reused : compute_reused_blocks (compute_delta before after).entries ≡ 2 ∷ []
unfolding compute_reused_blocks compute_delta
reused = refl

before-Distinct : Distinct before.nodes
unfolding find_in_nodes
before-Distinct = (refl, (refl, tt))

after-Distinct : Distinct after.nodes
unfolding find_in_nodes
after-Distinct = (refl, (refl, tt))

apply_patch-compute_delta_example :
    (m : SnapshotManifest) × (apply_patch 7 before (compute_delta before after) [] ≡ some m)
    × (m.id ≡ after.id)
    × ((q : _) → find_node q m ≡ patched (find_node q after) (find_node q before))
apply_patch-compute_delta_example =
    apply_patch-compute_delta 7 before after [] before-Distinct after-Distinct

abbrev change : SnapshotDelta
change = record {
  base_snapshot_id = 1;
  target_snapshot_id = 2;
  entries =
      record {
        path = 97 ∷ [];
        action = DeltaAction.modified;
        old_node = some kept;
        new_node = some grown;
        new_block_ids = 3 ∷ [];
      }
      ∷ record {
        path = 98 ∷ [];
        action = DeltaAction.deleted;
        old_node = some gone;
        new_node = none;
        new_block_ids = [];
      }
      ∷ [];
}

change_bytes : length (serialize_delta change) ≡ 18
unfolding serialize_delta code_delta_entry action_byte encode lt_wf dec_lt
change_bytes = refl

grown-IsWireNode : IsWireNode grown
grown-IsWireNode = omega arith

change-IsWireDelta : IsWireDelta 100 change
unfolding action_of action_byte
change-IsWireDelta = record {
  base = omega arith;
  target = omega arith;
  few = omega arith;
  machine = omega arith;
  entries = (
    record { path = omega arith; action = refl; new_node = (grown-IsWireNode, refl) },
    (record { path = omega arith; action = refl; new_node = tt }, tt),
  );
  short = omega (arith, change_bytes);
}

deserialize-serialize_delta_example :
    deserialize_delta 100 (serialize_delta change) ≡ ok (stored change)
deserialize-serialize_delta_example = deserialize-serialize_delta 100 change change-IsWireDelta

before_bytes : length (serialize_manifest before) ≡ 24
unfolding serialize_manifest encode lt_wf dec_lt
before_bytes = refl

before-IsStorable : IsStorable 100 kept × IsStorable 100 gone
before-IsStorable = omega arith

before-IsStorableManifest : IsStorableManifest 100 before
before-IsStorableManifest = record {
  id = omega arith;
  parent_id = omega arith;
  dated = omega arith;
  timestamp = omega arith;
  label = omega arith;
  count = omega arith;
  nodes = (before-IsStorable.0, (before-IsStorable.1, tt));
  distinct = before-Distinct;
  short = omega (arith, before_bytes);
}

deserialize-serialize_manifest_example :
    (k : SnapshotManifest) × (deserialize_manifest 9 100 (serialize_manifest before) ≡ ok k)
    × (without_nodes k ≡ without_nodes before)
    × ((q : _) → find_node q k ≡ find_node q before)
deserialize-serialize_manifest_example =
    deserialize-serialize_manifest 9 100 before before-IsStorableManifest

abbrev registry : SnapshotManager
registry = record {
  manifests = (2, after) ∷ (1, before) ∷ [];
  current_snapshot_id = 2;
  next_snapshot_id = 3;
}

registry-IsConsistent : IsConsistent registry
registry-IsConsistent =
    unfold look_up in
    record { keyed = ((refl, omega arith), ((refl, omega arith), tt)); current = inr (after, refl) }

-- The first snapshot of the walk becomes the current one.
deleted_current : (step (Call.deletes 2) registry).current_snapshot_id ≡ 1
unfolding step
deleted_current = refl

step-IsConsistent_example : IsConsistent (step (Call.deletes 2) registry)
step-IsConsistent_example = step-IsConsistent (Call.deletes 2) registry tt registry-IsConsistent
