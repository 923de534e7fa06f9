-- ===== src/Snapshot/Wire/Nodes.antt =====
-- A manifest that is stored and loaded is the same manifest, up to the order of its nodes.
use nebula_fs.Common.{
  ℕ, ◌%◌, ◌^◌, ◌≤◌, ◌<◌, ◌≡◌, refl, ap, ◌∙◌, List, [], ◌∷◌, length, length-append, All, arith,
}
use nebula_fs.Outcome.{ok}
use nebula_fs.VarInt.{IsU64, varint}
use nebula_fs.VarInt.Encode.{length-varint}
use nebula_fs.Reader.{◌>>=◌, read_varint, read_text}
use nebula_fs.Reader.Laws.{
  Reads, Reads-pure, Reads-bind, Reads-read_varint, Reads-read_text, Reads-repeat, Reads-run,
  Reads-reserve, Reads-number, Reads-last, Reads-value, Reads-need_more, encode_all,
}
use nebula_fs.Snapshot.Manifest.{
  SnapshotNode, SnapshotManifest, new_manifest, add_node, find_node, find_in_nodes,
}
use nebula_fs.Snapshot.Patch.{add_all}
use nebula_fs.Snapshot.Lookup.{Distinct}
use nebula_fs.Snapshot.Applied.{or_else-none, find_node-add_all}
use nebula_fs.Snapshot.Wire.{
  code_node, checked, read_ids, read_node, read_nodes, read_rest, read_manifest, serialize_manifest,
  deserialize_manifest,
}
use nebula_fs.Snapshot.Wire.RoundTrip.{IsWireNode}

-- The node fits its types, and its vectors the machine.
pub record IsStorable (max_size : ℕ) (n : SnapshotNode) : Type 0 where
  pub fields : IsWireNode n
  pub path : IsU64 (length n.path)
  pub few : length n.block_ids ≤ max_size

Reads-checked : (v : ℕ) → IsU64 v → Reads checked (varint v) v
Reads-checked v h =
    Reads-need_more read_varint (omega (arith, length-varint v h)) (Reads-read_varint v h)

Reads-node :
    (max_size : ℕ) (n : SnapshotNode)
    → IsStorable max_size n
    → Reads (read_node max_size) (code_node n) n
unfolding read_node
Reads-node max_size n s =
    let w = s.fields in
    let build : List ℕ → SnapshotNode =
      λ ids. record n { checksum = n.checksum % 2 ^ 32; block_ids = ids } in
    let small : n.checksum % 2 ^ 32 ≡ n.checksum = omega (arith, w.checksum) in
    let same : build n.block_ids ≡ n = ap (λ c. record n { checksum = c }) small in
    Reads-value same (
      Reads-number _ (length n.path) s.path (
        Reads-bind (read_text (length n.path)) _ (Reads-read_text n.path) (
          Reads-number _ n.entry_id w.entry_id (
            Reads-number _ n.size w.size (
              Reads-number _ n.checksum (omega (arith, w.checksum)) (
                Reads-number _ n.modified_time w.modified_time (
                  Reads-number _ (length n.block_ids) w.count (
                    Reads-reserve max_size (length n.block_ids) _ s.few (
                      Reads-last (read_ids checked (length n.block_ids)) build (
                        Reads-repeat IsU64 checked varint Reads-checked n.block_ids
                          w.block_ids))))))))))

Reads-nodes :
    (max_size : ℕ) (ns : List SnapshotNode) (m : SnapshotManifest)
    → All (IsStorable max_size) ns
    → Reads (read_nodes max_size (length ns) m) (encode_all code_node ns) (add_all ns m)
unfolding read_nodes add_all
Reads-nodes max_size [] m h = Reads-pure m
Reads-nodes max_size (n ∷ ns) m h =
    Reads-bind (read_node max_size) (λ x. read_nodes max_size (length ns) (add_node x m))
      (Reads-node max_size n h.0) (Reads-nodes max_size ns (add_node n m) h.1)

Reads-rest :
    (max_size : ℕ) (m k : SnapshotManifest) {bytes : List ℕ}
    → 1 ≤ length bytes
    → Reads (read_varint >>= λ count. read_nodes max_size count m) bytes k
    → Reads (read_rest max_size m) bytes k
unfolding read_rest
Reads-rest max_size m k {bytes = []} more h = absurd (omega arith)
Reads-rest max_size m k {bytes = b ∷ bs} more h = record { at = h.at }

pub record IsStorableManifest (max_size : ℕ) (m : SnapshotManifest) : Type 0 where
  pub id : IsU64 m.id
  pub parent_id : IsU64 m.parent_id
  pub dated : 1 ≤ m.timestamp
  pub timestamp : IsU64 m.timestamp
  pub label : IsU64 (length m.label)
  pub count : IsU64 (length m.nodes)
  pub nodes : All (IsStorable max_size) m.nodes
  pub distinct : Distinct m.nodes
  pub short : length (serialize_manifest m) < 2 ^ 64

abbrev pub without_nodes : SnapshotManifest → SnapshotManifest
without_nodes m = record m { nodes = [] }

new_manifest-dated :
    (now : ℕ) (m : SnapshotManifest)
    → 1 ≤ m.timestamp
    → new_manifest now m.id m.parent_id m.label m.timestamp ≡ without_nodes m
unfolding new_manifest
new_manifest-dated now m h = ground arith

pub add_all-without_nodes :
    (ns : List SnapshotNode) (m : SnapshotManifest) → without_nodes (add_all ns m) ≡ without_nodes m
unfolding add_all add_node
add_all-without_nodes [] m = refl
add_all-without_nodes (n ∷ ns) m = add_all-without_nodes ns (add_node n m)

Reads-manifest :
    (now max_size : ℕ) (m : SnapshotManifest)
    → IsStorableManifest max_size m
    → Reads (read_manifest now max_size) (serialize_manifest m) (add_all m.nodes (without_nodes m))
unfolding read_manifest serialize_manifest
Reads-manifest now max_size m s =
    let start = new_manifest now m.id m.parent_id m.label m.timestamp in
    Reads-value (ap (add_all m.nodes) (new_manifest-dated now m s.dated)) (
      Reads-number _ m.id s.id (
        Reads-number _ m.parent_id s.parent_id (
          Reads-number _ m.timestamp s.timestamp (
            Reads-number _ (length m.label) s.label (
              Reads-bind (read_text (length m.label)) _ (Reads-read_text m.label) (
                Reads-rest max_size start (add_all m.nodes start)
                  (omega (arith, length-append {0}, length-varint (length m.nodes) s.count))
                  (Reads-bind read_varint _ (Reads-read_varint (length m.nodes) s.count)
                    (Reads-nodes max_size m.nodes start s.nodes))))))))

-- A manifest with a time other than 0 that is stored is loaded with the same ids, label and time, and
-- with the same node at every path.
pub deserialize-serialize_manifest :
    (now max_size : ℕ) (m : SnapshotManifest)
    → IsStorableManifest max_size m
    → (k : SnapshotManifest) × (deserialize_manifest now max_size (serialize_manifest m) ≡ ok k)
      × (without_nodes k ≡ without_nodes m)
      × ((q : List ℕ) → find_node q k ≡ find_node q m)
unfolding deserialize_manifest find_node
deserialize-serialize_manifest now max_size m s = (
  add_all m.nodes (without_nodes m),
  Reads-run (read_manifest now max_size) (Reads-manifest now max_size m s) s.short,
  add_all-without_nodes m.nodes (without_nodes m),
  λ q.
      find_node-add_all q m.nodes (without_nodes m) s.distinct
      ∙ or_else-none (find_in_nodes q m.nodes),
)
