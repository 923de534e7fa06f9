-- ===== src/Snapshot/Manager.antt =====
-- src/snapshot/SnapshotManager.cpp: the manifests of a repository, by id, and the current one. The
-- map is a list, each manifest with its key; its order stands for the order in which the map is
-- walked. Every method holds the lock from its first line on, so a call is one step.
use nebula_fs.Common.{
  ℕ, ◌+◌, ◌%◌, ◌^◌, Bool, true, false, Option, none, some, List, [], ◌∷◌, leb, ◌==◌, if◌then◌else◌,
}
use nebula_fs.Snapshot.Manifest.{SnapshotNode, SnapshotManifest, new_manifest}
use nebula_fs.Snapshot.Delta.{SnapshotDelta, compute_delta}
use nebula_fs.Snapshot.Patch.{add_all}

abbrev pub Manifests : Type 0
Manifests = List (ℕ × SnapshotManifest)

pub record SnapshotManager : Type 0 where
  pub manifests : Manifests
  pub current_snapshot_id : ℕ
  pub next_snapshot_id : ℕ

-- The member initialisers.
abbrev pub new_manager : SnapshotManager
new_manager = record { manifests = []; current_snapshot_id = 0; next_snapshot_id = 1 }

-- `manifests_[id] = m`
unfoldable pub store : ℕ → SnapshotManifest → Manifests → Manifests
store id m [] = (id, m) ∷ []
store id m ((k, x) ∷ rest) =
    let kept = (k, x) ∷ store id m rest in if k == id then (id, m) ∷ rest else kept

-- `manifests_.find(id)`
unfoldable pub look_up : ℕ → Manifests → Option SnapshotManifest
look_up id [] = none
look_up id ((k, x) ∷ rest) = let found = look_up id rest in if k == id then some x else found

-- `manifests_.erase(it)`
unfoldable pub erase : ℕ → Manifests → Manifests
erase id [] = []
erase id ((k, x) ∷ rest) = let kept = erase id rest in if k == id then kept else (k, x) ∷ kept

-- `manifests_.empty() ? 0 : manifests_.begin()->first`
abbrev pub first_id : Manifests → ℕ
first_id [] = 0
first_id ((k, x) ∷ rest) = k

-- The new manager and the id of the snapshot.
unfoldable pub create_snapshot :
    ℕ → List ℕ → List SnapshotNode → SnapshotManager → SnapshotManager × ℕ
unfolding store new_manifest add_all
create_snapshot now label current_nodes s =
    let id = s.next_snapshot_id in
    let manifest = add_all current_nodes (new_manifest now id s.current_snapshot_id label 0) in
    (
      record {
        manifests = store id manifest s.manifests;
        current_snapshot_id = id;
        next_snapshot_id = (id + 1) % 2 ^ 64;
      },
      id,
    )

unfoldable pub register_snapshot : SnapshotManifest → SnapshotManager → SnapshotManager × Bool
unfolding store look_up
register_snapshot manifest s = elim (look_up manifest.id s.manifests) [
  | some m ↦ (s, false)
  | none ↦ (
    record {
      manifests = store manifest.id manifest s.manifests;
      current_snapshot_id = manifest.id;
      next_snapshot_id =
          if leb s.next_snapshot_id manifest.id
          then (manifest.id + 1) % 2 ^ 64
          else s.next_snapshot_id;
    },
    true,
  )
]

unfoldable pub get_snapshot : ℕ → SnapshotManager → Option SnapshotManifest
unfolding look_up
get_snapshot id s = look_up id s.manifests

unfoldable pub current_snapshot : SnapshotManager → Option SnapshotManifest
unfolding look_up
current_snapshot s = look_up s.current_snapshot_id s.manifests

unfoldable pub checkout_snapshot : ℕ → SnapshotManager → SnapshotManager × Bool
unfolding look_up
checkout_snapshot id s = elim (look_up id s.manifests) [
  | none ↦ (s, false)
  | some m ↦ (record s { current_snapshot_id = id }, true)
]

unfoldable pub delete_snapshot : ℕ → SnapshotManager → SnapshotManager × Bool
unfolding look_up erase
delete_snapshot id s = elim (look_up id s.manifests) [
  | none ↦ (s, false)
  | some m ↦
      let rest = erase id s.manifests in
      let current = if s.current_snapshot_id == id then first_id rest else s.current_snapshot_id in
      (record s { manifests = rest; current_snapshot_id = current }, true)
]

unfoldable pub create_delta : ℕ → ℕ → SnapshotManager → Option SnapshotDelta
unfolding look_up compute_delta
create_delta from to s = elim (look_up from s.manifests) [
  | none ↦ none
  | some base ↦ elim (look_up to s.manifests) [
    | none ↦ none
    | some target ↦ some (compute_delta base target)
  ]
]

unfoldable pub clear : SnapshotManager → SnapshotManager
clear s = new_manager

-- The calls that change the manager.
pub data Call : Type 0 where
  creates : ℕ → List ℕ → List SnapshotNode → Call
  registers : SnapshotManifest → Call
  checks_out deletes : ℕ → Call
  clears : Call

unfoldable pub step : Call → SnapshotManager → SnapshotManager
unfolding create_snapshot register_snapshot checkout_snapshot delete_snapshot clear
step (creates now label current_nodes) s = (create_snapshot now label current_nodes s).0
step (registers manifest) s = (register_snapshot manifest s).0
step (checks_out id) s = (checkout_snapshot id s).0
step (deletes id) s = (delete_snapshot id s).0
step clears s = clear s
