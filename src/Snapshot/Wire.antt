-- ===== src/Snapshot/Wire.antt =====
-- src/snapshot/SnapshotManifest.cpp and src/snapshot/DeltaEngine.cpp: the binary forms of manifests
-- and of deltas. `max_size` is the largest size of a vector that is reserved.
pub mod RoundTrip
pub mod Nodes
use nebula_fs.Common.{
  ℕ, zero, suc, ◌%◌, ◌^◌, List, [], ◌∷◌, ◌++◌, Option, none, some, ◌==◌, if◌then◌else◌, length,
}
use nebula_fs.Outcome.{Outcome, ok, fail, throws, undefined}
use nebula_fs.VarInt.{varint}
use nebula_fs.Reader.{
  Cursor, Reader, ◌>>=◌, ◌>>◌, pure, read_varint, need_more, read_byte, read_text, repeat, run,
  reserve,
}
use nebula_fs.Reader.Laws.{encode_all}
use nebula_fs.Snapshot.Manifest.{SnapshotNode, SnapshotManifest, new_manifest, add_node}
use nebula_fs.Snapshot.Delta.{DeltaAction, DeltaEntry, SnapshotDelta}

-- A node's fields behind its path, the same in both forms.
abbrev pub code_fields : SnapshotNode → List ℕ
code_fields node =
    varint node.entry_id
    ++ (varint node.size
        ++ (varint node.checksum
            ++ (varint node.modified_time
                ++ (varint (length node.block_ids) ++ encode_all varint node.block_ids))))

abbrev pub code_node : SnapshotNode → List ℕ
code_node node = varint (length node.path) ++ (node.path ++ code_fields node)

unfoldable pub serialize_manifest : SnapshotManifest → List ℕ
serialize_manifest m =
    varint m.id
    ++ (varint m.parent_id
        ++ (varint m.timestamp
            ++ (varint (length m.label)
                ++ (m.label ++ (varint (length m.nodes) ++ encode_all code_node m.nodes)))))

-- A block id with a test of the offset before it.
abbrev pub checked : Reader ℕ
checked = do need_more; read_varint

-- The inner loop over the block ids.
abbrev pub read_ids : Reader ℕ → ℕ → Reader (List ℕ)
read_ids number count = repeat count number

unfoldable pub read_node : ℕ → Reader SnapshotNode
read_node max_size = do
  need_more
  path_len ← read_varint
  path ← read_text path_len
  need_more
  entry_id ← read_varint
  need_more
  size ← read_varint
  need_more
  checksum ← read_varint
  need_more
  modified_time ← read_varint
  need_more
  num_blocks ← read_varint
  reserve max_size num_blocks
  block_ids ← read_ids checked num_blocks
  pure (record {
    entry_id = entry_id;
    path = path;
    size = size;
    checksum = checksum % 2 ^ 32;
    modified_time = modified_time;
    block_ids = block_ids;
  })

-- The outer loop: `addNode` for each node read.
unfoldable pub read_nodes : ℕ → ℕ → SnapshotManifest → Reader SnapshotManifest
unfolding read_node
read_nodes max_size zero m = pure m
read_nodes max_size (suc count) m = do
  node ← read_node max_size
  read_nodes max_size count (add_node node m)

-- Behind the label, the end of the span stands for no nodes.
unfoldable pub read_rest : ℕ → SnapshotManifest → Reader SnapshotManifest
unfolding read_nodes
read_rest max_size m (pos, []) = ok (m, (pos, []))
read_rest max_size m (pos, b ∷ bs) =
    (read_varint >>= λ count. read_nodes max_size count m) (pos, b ∷ bs)

unfoldable pub read_manifest : ℕ → ℕ → Reader SnapshotManifest
unfolding read_rest
read_manifest now max_size = do
  need_more
  id ← read_varint
  need_more
  parent_id ← read_varint
  need_more
  timestamp ← read_varint
  need_more
  label_len ← read_varint
  label ← read_text label_len
  read_rest max_size (new_manifest now id parent_id label timestamp)

unfoldable pub deserialize_manifest : ℕ → ℕ → List ℕ → Outcome SnapshotManifest
unfolding read_manifest
deserialize_manifest now max_size bytes = run (read_manifest now max_size) bytes

unfoldable pub action_byte : DeltaAction → ℕ
action_byte DeltaAction.unchanged = 0
action_byte DeltaAction.added = 1
action_byte DeltaAction.modified = 2
action_byte DeltaAction.deleted = 3
action_byte (DeltaAction.unnamed b) = b

abbrev pub has_new_node : Option SnapshotNode → ℕ
has_new_node none = 0
has_new_node (some node) = 1

abbrev pub code_new_node : Option SnapshotNode → List ℕ
code_new_node none = []
code_new_node (some node) = code_fields node

unfoldable pub code_delta_entry : DeltaEntry → List ℕ
unfolding action_byte
code_delta_entry e =
    varint (length e.path)
    ++ (e.path
        ++ ((action_byte e.action ∷ [])
            ++ ((has_new_node e.new_node ∷ []) ++ code_new_node e.new_node)))

unfoldable pub serialize_delta : SnapshotDelta → List ℕ
unfolding code_delta_entry
serialize_delta d =
    varint d.base_snapshot_id
    ++ (varint d.target_snapshot_id
        ++ (varint (length d.entries) ++ encode_all code_delta_entry d.entries))

-- `static_cast<DeltaAction>(actionByte)`
unfoldable pub action_of : ℕ → DeltaAction
action_of b =
    if b == 0
    then DeltaAction.unchanged
    else if b == 1
    then DeltaAction.added
    else if b == 2
    then DeltaAction.modified
    else if b == 3
    then DeltaAction.deleted
    else DeltaAction.unnamed b

-- The node of an entry; its numbers are read without a test of the offset.
unfoldable pub read_new_node : List ℕ → Reader SnapshotNode
read_new_node path = do
  entry_id ← read_varint
  size ← read_varint
  checksum ← read_varint
  modified_time ← read_varint
  num_blocks ← read_varint
  block_ids ← read_ids read_varint num_blocks
  pure (record {
    entry_id = entry_id;
    path = path;
    size = size;
    checksum = checksum % 2 ^ 32;
    modified_time = modified_time;
    block_ids = block_ids;
  })

-- `if (hasNewNode)`
unfoldable pub read_optional : ℕ → List ℕ → Reader (Option SnapshotNode)
unfolding read_new_node
read_optional zero path = pure none
read_optional (suc flag) path = do node ← read_new_node path; pure (some node)

unfoldable pub read_delta_entry : Reader DeltaEntry
unfolding read_optional action_of
read_delta_entry = do
  need_more
  path_len ← read_varint
  path ← read_text path_len
  need_more
  action ← read_byte
  need_more
  has_new_node ← read_byte
  new_node ← read_optional has_new_node path
  pure (record {
    path = path;
    action = action_of action;
    old_node = none;
    new_node = new_node;
    new_block_ids = [];
  })

unfoldable pub read_delta : ℕ → Reader SnapshotDelta
unfolding read_delta_entry
read_delta max_size = do
  need_more
  base_snapshot_id ← read_varint
  need_more
  target_snapshot_id ← read_varint
  need_more
  num_entries ← read_varint
  reserve max_size num_entries
  entries ← repeat num_entries read_delta_entry
  pure (record {
    base_snapshot_id = base_snapshot_id;
    target_snapshot_id = target_snapshot_id;
    entries = entries;
  })

unfoldable pub deserialize_delta : ℕ → List ℕ → Outcome SnapshotDelta
unfolding read_delta
deserialize_delta max_size bytes = run (read_delta max_size) bytes
