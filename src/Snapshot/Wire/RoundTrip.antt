-- ===== src/Snapshot/Wire/RoundTrip.antt =====
-- A delta that is stored and loaded keeps its entries' actions and new nodes.
use nebula_fs.Common.{
  ℕ, ◌%◌, ◌^◌, ◌≤◌, ◌<◌, ◌≡◌, ap, List, [], Option, none, some, length, All, map, arith,
}
use nebula_fs.Outcome.{ok}
use nebula_fs.VarInt.{IsU64, varint}
use nebula_fs.Reader.{read_varint, read_byte, read_text, repeat}
use nebula_fs.Reader.Laws.{
  Reads, Reads-pure, Reads-bind, Reads-read_varint, Reads-read_text, Reads-read_byte, Reads-repeat,
  Reads-repeat-map, Reads-run, Reads-reserve, Reads-number, Reads-last, Reads-value,
  Reads-need_more,
}
use nebula_fs.Snapshot.Manifest.{SnapshotNode}
use nebula_fs.Snapshot.Delta.{DeltaEntry, SnapshotDelta}
use nebula_fs.Snapshot.Wire.{
  code_fields, has_new_node, code_new_node, code_delta_entry, action_byte, action_of, read_ids,
  read_new_node, read_optional, read_delta_entry, read_delta, serialize_delta, deserialize_delta,
}

-- Every field of a node fits its type.
pub record IsWireNode (n : SnapshotNode) : Type 0 where
  pub entry_id : IsU64 n.entry_id
  pub size : IsU64 n.size
  pub checksum : n.checksum < 2 ^ 32
  pub modified_time : IsU64 n.modified_time
  pub count : IsU64 (length n.block_ids)
  pub block_ids : All IsU64 n.block_ids

Reads-new_node : (n : SnapshotNode) → IsWireNode n → Reads (read_new_node n.path) (code_fields n) n
unfolding read_new_node
Reads-new_node n w =
    let small : n.checksum % 2 ^ 32 ≡ n.checksum = omega (arith, w.checksum) in
    let build : List ℕ → SnapshotNode =
      λ ids. record n { checksum = n.checksum % 2 ^ 32; block_ids = ids } in
    let same : build n.block_ids ≡ n = ap (λ c. record n { checksum = c }) small in
    Reads-value same (
      Reads-bind read_varint _ (Reads-read_varint n.entry_id w.entry_id) (
        Reads-bind read_varint _ (Reads-read_varint n.size w.size) (
          Reads-bind read_varint _ (Reads-read_varint n.checksum (omega (arith, w.checksum))) (
            Reads-bind read_varint _ (Reads-read_varint n.modified_time w.modified_time) (
              Reads-bind read_varint _ (Reads-read_varint (length n.block_ids) w.count) (
                Reads-last (read_ids read_varint (length n.block_ids)) build (
                  Reads-repeat IsU64 read_varint varint (λ v h. Reads-read_varint v h) n.block_ids
                    w.block_ids)))))))

-- What the binary form keeps of an entry.
abbrev pub stored_entry : DeltaEntry → DeltaEntry
stored_entry e = record e { old_node = none; new_block_ids = [] }

abbrev pub IsWireOption : Option SnapshotNode → List ℕ → Type 0
IsWireOption none path = Unit {0}
IsWireOption (some n) path = IsWireNode n × (n.path ≡ path)

-- The action has a name, and the new node stands under the entry's path.
pub record IsWireEntry (e : DeltaEntry) : Type 0 where
  pub path : IsU64 (length e.path)
  pub action : action_of (action_byte e.action) ≡ e.action
  pub new_node : IsWireOption e.new_node e.path

Reads-optional :
    (o : Option SnapshotNode) (path : List ℕ)
    → IsWireOption o path
    → Reads (read_optional (has_new_node o) path) (code_new_node o) o
unfolding read_optional
Reads-optional none path w = Reads-pure none
Reads-optional (some n) path w =
    Reads-last (read_new_node path) some (rw⁻¹ w.1 (Reads-new_node n w.0))

Reads-delta_entry :
    (e : DeltaEntry) → IsWireEntry e → Reads read_delta_entry (code_delta_entry e) (stored_entry e)
unfolding read_delta_entry code_delta_entry
Reads-delta_entry e w =
    let build : Option SnapshotNode → DeltaEntry = λ o. record {
      path = e.path;
      action = action_of (action_byte e.action);
      old_node = none;
      new_node = o;
      new_block_ids = [];
    } in
    let same : build e.new_node ≡ stored_entry e =
      ap (λ a. record (stored_entry e) { action = a }) w.action in
    Reads-value same (
      Reads-number _ (length e.path) w.path (
        Reads-bind (read_text (length e.path)) _ (Reads-read_text e.path) (
          Reads-need_more _ (omega arith) (
            Reads-bind read_byte _ (Reads-read_byte (action_byte e.action)) (
              Reads-need_more _ (omega arith) (
                Reads-bind read_byte _ (Reads-read_byte (has_new_node e.new_node)) (
                  Reads-last (read_optional (has_new_node e.new_node) e.path) build
                    (Reads-optional e.new_node e.path w.new_node))))))))

pub record IsWireDelta (max_size : ℕ) (d : SnapshotDelta) : Type 0 where
  pub base : IsU64 d.base_snapshot_id
  pub target : IsU64 d.target_snapshot_id
  pub few : length d.entries ≤ max_size
  pub machine : max_size < 2 ^ 64
  pub entries : All IsWireEntry d.entries
  pub short : length (serialize_delta d) < 2 ^ 64

-- What the binary form keeps of a delta.
abbrev pub stored : SnapshotDelta → SnapshotDelta
stored d = record d { entries = map stored_entry d.entries }

Reads-delta :
    (max_size : ℕ) (d : SnapshotDelta)
    → IsWireDelta max_size d
    → Reads (read_delta max_size) (serialize_delta d) (stored d)
unfolding read_delta serialize_delta
Reads-delta max_size d w = Reads-number _ d.base_snapshot_id w.base (
    Reads-number _ d.target_snapshot_id w.target (
      Reads-number _ (length d.entries) (omega (arith, w.few, w.machine)) (
        Reads-reserve max_size (length d.entries) _ w.few (
          Reads-last (repeat (length d.entries) read_delta_entry) (λ es. record d { entries = es })
            (Reads-repeat-map IsWireEntry read_delta_entry code_delta_entry stored_entry
              Reads-delta_entry d.entries w.entries)))))

-- A stored delta is loaded with both ids and, for each entry, its path, action and new node; the old
-- nodes and the lists of new blocks are not kept.
pub deserialize-serialize_delta :
    (max_size : ℕ) (d : SnapshotDelta)
    → IsWireDelta max_size d
    → deserialize_delta max_size (serialize_delta d) ≡ ok (stored d)
unfolding deserialize_delta
deserialize-serialize_delta max_size d w =
    Reads-run (read_delta max_size) (Reads-delta max_size d w) w.short
