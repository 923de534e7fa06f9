-- ===== src/DirectoryTree/Tests.antt =====
-- A tree with "/a/b", and the theorems at it.
use nebula_fs.Common.{ℕ, ◌+◌, ◌-◌, ◌%◌, ◌^◌, ◌≤◌, ◌≡◌, refl, true, none, some, List, [], ◌∷◌, arith}
use mathlib.Core.Option
use native.Mathlib.Decide.{dec_lt}
use nebula_fs.Common.Order.{lt_wf}
use nebula_fs.Outcome.{ok}
use nebula_fs.VarInt.{encode}
use nebula_fs.DirectoryTree.{
  EntryType, ArchiveEntry, NodeInfo, DirectoryNode, node, childless, child, DirectoryTree, new_info,
  normalize_path, find, insert, remove, path_depth, collect_entries, get_all_entries,
}
use nebula_fs.DirectoryTree.Lookup.{Same, find-insert, find-insert_keeps}
use nebula_fs.DirectoryTree.Count.{IsCounted, insert-IsCounted}
use nebula_fs.DirectoryTree.Removal.{IsCut, remove_found}
use nebula_fs.DirectoryTree.Wire.{serialize, deserialize}
use nebula_fs.DirectoryTree.Wire.RoundTrip.{
  IsStorable, IsWireNode, stored, deserialize-serialize_tree,
}

-- "/a/b"
abbrev path : List ℕ
path = 47 ∷ 97 ∷ 47 ∷ 98 ∷ []

abbrev entry : ArchiveEntry
entry = record { id = 7; type = EntryType.file; path = path; modified_at = 5; permissions = 420 }

abbrev empty : DirectoryTree
empty = record { root = node (record new_info { name = 47 ∷ [] }) childless; node_count = 0 }

abbrev named : List ℕ → ℕ → ℕ → List ℕ → NodeInfo
named name id parent_id files = record new_info {
  name = name;
  id = id;
  parent_id = parent_id;
  files = files;
}

abbrev leaf : DirectoryNode
leaf = node (record (named (98 ∷ []) 7 8 []) { modified_at = 5 }) childless

abbrev filled : DirectoryTree
filled = record {
  root =
      node (named (47 ∷ []) 0 0 [])
        (child (node (named (97 ∷ []) 8 0 (7 ∷ [])) (child leaf childless)) childless);
  node_count = 2;
}

-- The directory that is made has the id behind the entry's.
insert_runs : insert entry empty ≡ (filled, true)
unfolding insert
insert_runs = refl

-- "a//./b" is normalised to "/a/b".
normalize_runs : normalize_path (97 ∷ 47 ∷ 47 ∷ 46 ∷ 47 ∷ 98 ∷ []) ≡ path
unfolding normalize_path
normalize_runs = refl

remove_runs : (remove (47 ∷ 97 ∷ []) filled).0.node_count ≡ 1
unfolding remove
remove_runs = refl

absent : find path empty ≡ none
unfolding find Option.bind
absent = refl

there : find path filled ≡ some leaf
unfolding find Option.bind
there = refl

deep : 1 ≤ path_depth path
unfolding path_depth
deep = omega arith

empty-IsCounted : IsCounted empty
unfolding IsCounted collect_entries
empty-IsCounted = refl

filled-IsStorable : IsStorable filled
unfolding IsWireNode serialize encode lt_wf dec_lt
filled-IsStorable = record { root = omega arith; node_count = omega arith; short = omega arith }

deserialize-serialize_tree_example : deserialize (serialize filled) ≡ ok (stored filled)
deserialize-serialize_tree_example = deserialize-serialize_tree filled filled-IsStorable

find-insert_example :
    (i : NodeInfo) × ((insert entry empty).1 ≡ true)
    × (find path (insert entry empty).0 ≡ some (node i childless))
    × (i.id ≡ 7)
    × (i.modified_at ≡ 5)
    × (i.permissions ≡ 420)
find-insert_example = find-insert entry empty absent

find-insert_keeps_example : Same (find path (insert entry filled).0) leaf
find-insert_keeps_example = find-insert_keeps entry filled path leaf refl there

insert-IsCounted_example : IsCounted (insert entry empty).0
insert-IsCounted_example = insert-IsCounted entry empty refl empty-IsCounted

remove_found_example :
    ((remove path filled).1 ≡ true)
    × IsCut (get_all_entries filled) (collect_entries leaf) (get_all_entries (remove path filled).0)
    × ((remove path filled).0.node_count ≡ (2 + 2 ^ 64 - 1) % 2 ^ 64)
remove_found_example = remove_found path filled leaf refl deep there
