-- ===== src/DirectoryTree/Wire.antt =====
-- src/filesystem/DirectoryTree.cpp, serialize and deserialize: the binary form of the directories. A
-- tree that `deserialize` leaves behind an error is not modelled.
pub mod RoundTrip
use nebula_fs.Common.{ℕ, zero, suc, ◌+◌, ◌%◌, ◌^◌, List, [], ◌∷◌, ◌++◌, ltb, if◌then◌else◌, length}
use nebula_fs.Outcome.{Outcome, ok, fail, throws, undefined}
use nebula_fs.VarInt.{varint}
use nebula_fs.Reader.{Cursor, Reader, ◌>>=◌, pure, read_varint, read_text, repeat, run}
use nebula_fs.Reader.Laws.{encode_all}
use nebula_fs.DirectoryTree.{
  NodeInfo, DirectoryNode, node, Children, childless, child, DirectoryTree, new_info,
}

abbrev pub child_count : Children → ℕ
child_count childless = 0
child_count (child n cs) = suc (child_count cs)

-- What `serializeNode` writes before the children.
abbrev pub code_info : NodeInfo → List ℕ → List ℕ
code_info i rest =
    varint (length i.name)
    ++ (i.name
        ++ (varint i.id
            ++ (varint i.parent_id
                ++ (varint (length i.files) ++ (encode_all varint i.files ++ rest)))))

unfoldable mutual
  pub serialize_node : DirectoryNode → List ℕ
  serialize_node (node i cs) = code_info i (varint (child_count cs) ++ serialize_children cs)

  pub serialize_children : Children → List ℕ
  serialize_children childless = []
  serialize_children (child n cs) = serialize_node n ++ serialize_children cs

unfoldable pub serialize : DirectoryTree → List ℕ
unfolding serialize_node
serialize t = varint t.node_count ++ serialize_node t.root

-- `node.name.assign(&data[offset], nameLen)`, which has no byte to point at behind the last one.
unfoldable pub read_name : ℕ → Reader (List ℕ)
unfolding read_text
read_name n (pos, []) = if ltb pos ((pos + n) % 2 ^ 64) then fail else undefined
read_name n (pos, b ∷ bs) = read_text n (pos, b ∷ bs)

abbrev pub children_of : List DirectoryNode → Children
children_of [] = childless
children_of (n ∷ ns) = child n (children_of ns)

-- The recursion ends with the bytes: each level reads one at least. Without fuel it would overflow.
unfoldable pub deserialize_node : ℕ → Reader DirectoryNode
unfolding read_varint read_name repeat
deserialize_node zero c = undefined
deserialize_node (suc fuel) c =
    (do
      name_len ← read_varint
      name ← read_name name_len
      id ← read_varint
      parent_id ← read_varint
      file_count ← read_varint
      files ← repeat file_count read_varint
      child_count ← read_varint
      nodes ← repeat child_count (λ d. deserialize_node fuel d)
      pure (
          node (record new_info { name = name; id = id; parent_id = parent_id; files = files })
            (children_of nodes)))
      c

unfoldable pub read_tree : ℕ → Reader DirectoryTree
unfolding deserialize_node
read_tree fuel = do
  count ← read_varint
  root ← deserialize_node fuel
  pure (record { root = root; node_count = count })

unfoldable pub deserialize : List ℕ → Outcome DirectoryTree
unfolding read_tree
deserialize bytes = run (read_tree (length bytes)) bytes
