-- ===== src/DirectoryTree/Wire/RoundTrip.antt =====
-- `deserialize` reads back what `serialize` wrote.
use nebula_fs.Common.{
  ℕ, zero, suc, ◌+◌, ◌^◌, ◌≤◌, ◌<◌, ◌≡◌, refl, ap, List, [], ◌∷◌, ◌++◌, length, length-append, All,
  arith,
}
use Prim.Native.Nat.{max}
use nebula_fs.Outcome.{ok}
use nebula_fs.VarInt.{IsU64, varint}
use nebula_fs.VarInt.Encode.{length-varint}
use nebula_fs.Reader.{Reader, ◌>>=◌, read_varint, read_text, repeat}
use nebula_fs.Reader.Laws.{
  Reads, Reads-pure, Reads-bind, Reads-read_varint, Reads-read_text, Reads-repeat, Reads-run,
  Reads-last, Reads-value,
}
use nebula_fs.DirectoryTree.{
  NodeInfo, DirectoryNode, node, Children, childless, child, DirectoryTree, default_permissions,
}
use nebula_fs.DirectoryTree.Wire.{
  child_count, serialize_node, serialize_children, serialize, read_name, children_of,
  deserialize_node, read_tree, deserialize,
}

-- What the binary form keeps of a node: neither its time nor its permissions.
abbrev pub stored_info : NodeInfo → NodeInfo
stored_info i = record i { modified_at = 0; permissions = default_permissions }

pub record IsWireInfo (i : NodeInfo) : Type 0 where
  pub name : IsU64 (length i.name)
  pub id : IsU64 i.id
  pub parent_id : IsU64 i.parent_id
  pub count : IsU64 (length i.files)
  pub files : All IsU64 i.files

unfoldable mutual
  pub stored_node : DirectoryNode → DirectoryNode
  stored_node (node i cs) = node (stored_info i) (stored_children cs)

  pub stored_children : Children → Children
  stored_children childless = childless
  stored_children (child n cs) = child (stored_node n) (stored_children cs)

-- Every number of every node fits its type.
unfoldable mutual
  pub IsWireNode : DirectoryNode → Type 0
  IsWireNode (node i cs) = IsWireInfo i × IsU64 (child_count cs) × IsWireChildren cs

  pub IsWireChildren : Children → Type 0
  IsWireChildren childless = Unit {0}
  IsWireChildren (child n cs) = IsWireNode n × IsWireChildren cs

mutual
  depth : DirectoryNode → ℕ
  depth (node i cs) = suc (depth_children cs)

  depth_children : Children → ℕ
  depth_children childless = 0
  depth_children (child n cs) = max (depth n) (depth_children cs)

-- A level takes a byte at least.
mutual
  unfolding depth serialize_node IsWireNode

  depth-le : (n : DirectoryNode) → IsWireNode n → depth n ≤ length (serialize_node n)
  depth-le (node i cs) w =
      omega
        (arith, length-append {0}, length-varint (length i.name) w.0.name, depth_children-le cs w.2)

  depth_children-le :
      (cs : Children) → IsWireChildren cs → depth_children cs ≤ length (serialize_children cs)
  depth_children-le childless w = omega arith
  depth_children-le (child n cs) w = omega (
    arith,
    length-append (serialize_node n) (serialize_children cs),
    depth-le n w.0,
    depth_children-le cs w.1,
  )

read_name_text :
    (n pos : ℕ) (bytes : List ℕ)
    → 1 ≤ length bytes
    → read_name n (pos, bytes) ≡ read_text n (pos, bytes)
unfolding read_name
read_name_text n pos [] more = absurd (omega arith)
read_name_text n pos (b ∷ bs) more = refl

-- Behind the name of a node there are bytes.
Reads-read_name :
    {A : Type 0} (name : List ℕ) (f : List ℕ → Reader A) {ys : List ℕ} {a : A}
    → 1 ≤ length ys
    → Reads (f name) ys a
    → Reads (read_name (length name) >>= f) (name ++ ys) a
Reads-read_name name f {ys} {a} more h =
    let texted = Reads-bind (read_text (length name)) f (Reads-read_text name) h in
    record {
      at = λ pos rest fits.
          rw
            (
              read_name_text (length name) pos ((name ++ ys) ++ rest)
                  (omega (arith, length-append (name ++ ys) rest, length-append name ys)),
              ◌>>=◌,
            )
            (texted.at pos rest fits);
    }

abbrev Kids : ℕ → Children → Type 0
Kids fuel cs =
    (ns : List DirectoryNode) × Reads (repeat (child_count cs) (λ d. deserialize_node fuel d))
      (serialize_children cs) ns
    × (children_of ns ≡ stored_children cs)

Reads-level :
    (fuel : ℕ) (i : NodeInfo) (cs : Children)
    → IsWireInfo i
    → IsU64 (child_count cs)
    → suc (depth_children cs) ≤ fuel
    → ((less : ℕ) → depth_children cs ≤ less → Kids less cs)
    → Reads (deserialize_node fuel) (serialize_node (node i cs)) (stored_node (node i cs))
unfolding serialize_node stored_node deserialize_node
Reads-level zero i cs w few deep kids = absurd (omega arith)
Reads-level (suc fuel) i cs w few deep kids =
    let below = kids fuel (omega arith) in
    let build : List DirectoryNode → DirectoryNode = λ ns. node (stored_info i) (children_of ns) in
    record {
      at = λ pos rest fits.
          (Reads-value (ap (node (stored_info i)) below.2) (
              Reads-bind read_varint _ (Reads-read_varint (length i.name) w.name) (
                Reads-read_name i.name _ (omega (arith, length-append {0}, length-varint i.id w.id))
                  (Reads-bind read_varint _ (Reads-read_varint i.id w.id) (
                    Reads-bind read_varint _ (Reads-read_varint i.parent_id w.parent_id) (
                      Reads-bind read_varint _ (Reads-read_varint (length i.files) w.count) (
                        Reads-bind (repeat (length i.files) read_varint) _
                          (Reads-repeat IsU64 read_varint varint (λ v h. Reads-read_varint v h)
                            i.files w.files)
                          (Reads-bind read_varint _ (Reads-read_varint (child_count cs) few) (
                            Reads-last (repeat (child_count cs) (λ d. deserialize_node fuel d))
                              build below.1))))))))).at
            pos rest fits;
    }

mutual
  unfolding serialize_node stored_node IsWireNode depth repeat

  Reads-node :
      (fuel : ℕ) (n : DirectoryNode)
      → IsWireNode n
      → depth n ≤ fuel
      → Reads (deserialize_node fuel) (serialize_node n) (stored_node n)
  Reads-node fuel (node i cs) w deep =
      Reads-level fuel i cs w.0 w.1 deep (λ less enough. Reads-children less cs w.2 enough)

  Reads-children :
      (fuel : ℕ) (cs : Children) → IsWireChildren cs → depth_children cs ≤ fuel → Kids fuel cs
  Reads-children fuel childless w deep = ([], Reads-pure [], refl)
  Reads-children fuel (child n cs) w deep =
      let one = Reads-node fuel n w.0 (omega arith) in
      let others = Reads-children fuel cs w.1 (omega arith) in
      (
        stored_node n ∷ others.0,
        Reads-bind (λ d. deserialize_node fuel d) _ one
            (Reads-last (repeat (child_count cs) (λ d. deserialize_node fuel d))
              (λ ns. stored_node n ∷ ns) others.1),
        ap (child (stored_node n)) others.2,
      )

pub record IsStorable (t : DirectoryTree) : Type 0 where
  pub root : IsWireNode t.root
  pub node_count : IsU64 t.node_count
  pub short : length (serialize t) < 2 ^ 64

abbrev pub stored : DirectoryTree → DirectoryTree
stored t = record t { root = stored_node t.root }

Reads-tree :
    (fuel : ℕ) (t : DirectoryTree)
    → IsStorable t
    → depth t.root ≤ fuel
    → Reads (read_tree fuel) (serialize t) (stored t)
unfolding read_tree serialize
Reads-tree fuel t s deep = Reads-bind read_varint _ (Reads-read_varint t.node_count s.node_count) (
    Reads-last (deserialize_node fuel) (λ root. record { root = root; node_count = t.node_count })
      (Reads-node fuel t.root s.root deep))

-- A tree whose numbers fit their types, of any shape and depth, is read back with every name, id,
-- file and child in its place; the times and the permissions are the default ones.
pub deserialize-serialize_tree :
    (t : DirectoryTree) → IsStorable t → deserialize (serialize t) ≡ ok (stored t)
unfolding deserialize
deserialize-serialize_tree t s =
    let bytes = varint t.node_count ++ serialize_node t.root in
    let whole : length bytes ≡ length (varint t.node_count) + length (serialize_node t.root) =
      length-append (varint t.node_count) (serialize_node t.root) in
    let deep : depth t.root ≤ length (serialize t) =
      unfold serialize in omega (arith, whole, depth-le t.root s.root) in
    Reads-run (read_tree (length (serialize t))) (Reads-tree (length (serialize t)) t s deep)
      s.short
