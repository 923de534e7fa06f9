-- ===== src/Snapshot/Manifest.antt =====
-- src/snapshot/SnapshotManifest.cpp: the files of one snapshot. The map `nodes_` is the list of its
-- nodes, each under its own path (`addNode` is what fills it); the order of the list stands for the
-- order in which the map is walked.
use nebula_fs.Common.{
  ℕ, ◌+◌, ◌%◌, ◌^◌, Bool, true, false, Option, none, some, List, [], ◌∷◌, ◌==◌, if◌then◌else◌,
  list_eq,
}

pub record SnapshotNode : Type 0 where
  pub entry_id : ℕ
  pub path : List ℕ
  pub size : ℕ
  pub checksum : ℕ
  pub modified_time : ℕ
  pub block_ids : List ℕ

pub record SnapshotManifest : Type 0 where
  pub id : ℕ
  pub parent_id : ℕ
  pub label : List ℕ
  pub timestamp : ℕ
  pub nodes : List SnapshotNode

-- The constructor, at the clock's time `now` in seconds.
unfoldable pub new_manifest : ℕ → ℕ → ℕ → List ℕ → ℕ → SnapshotManifest
new_manifest now id parent_id label timestamp = record {
  id = id;
  parent_id = parent_id;
  label = label;
  timestamp = if timestamp == 0 then now else timestamp;
  nodes = [];
}

-- `nodes_[node.path] = node`
unfoldable pub put_node : SnapshotNode → List SnapshotNode → List SnapshotNode
put_node node [] = node ∷ []
put_node node (n ∷ ns) =
    let rest = n ∷ put_node node ns in if list_eq n.path node.path then node ∷ ns else rest

unfoldable pub add_node : SnapshotNode → SnapshotManifest → SnapshotManifest
unfolding put_node
add_node node manifest = record manifest { nodes = put_node node manifest.nodes }

-- `nodes_.erase(path)`
unfoldable pub erase_node : List ℕ → List SnapshotNode → List SnapshotNode
erase_node path [] = []
erase_node path (n ∷ ns) =
    let rest = erase_node path ns in if list_eq n.path path then rest else n ∷ rest

unfoldable pub find_in_nodes : List ℕ → List SnapshotNode → Option SnapshotNode
find_in_nodes path [] = none
find_in_nodes path (n ∷ ns) =
    let rest = find_in_nodes path ns in if list_eq n.path path then some n else rest

unfoldable pub find_node : List ℕ → SnapshotManifest → Option SnapshotNode
unfolding find_in_nodes
find_node path manifest = find_in_nodes path manifest.nodes

abbrev pub is_some : Option SnapshotNode → Bool
is_some none = false
is_some (some n) = true

unfoldable pub has_node : List ℕ → SnapshotManifest → Bool
unfolding find_node
has_node path manifest = is_some (find_node path manifest)

-- The manifest without the path, and whether it was there.
unfoldable pub remove_node : List ℕ → SnapshotManifest → SnapshotManifest × Bool
unfolding erase_node has_node
remove_node path manifest =
    (record manifest { nodes = erase_node path manifest.nodes }, has_node path manifest)

unfoldable pub total_size : List SnapshotNode → ℕ
total_size [] = 0
total_size (n ∷ ns) = (n.size + total_size ns) % 2 ^ 64

unfoldable pub clear : SnapshotManifest → SnapshotManifest
clear manifest = record manifest { nodes = [] }
