-- ===== src/DirectoryTree/Count.antt =====
-- `nodeCount_` of src/filesystem/DirectoryTree.cpp against the nodes below the root.
use nebula_fs.Common.{
  ℕ, suc, ◌+◌, ◌%◌, ◌^◌, ◌≡◌, refl, sym, ap, false, Bool-cases, inl, inr, none, some, Option-cases,
  List, [], ◌∷◌, list_eq, length, length-append, arith,
}
use mathlib.Core.Option
use mathlib.Core.Path.{subst}
use nebula_fs.DirectoryTree.{
  ArchiveEntry, NodeInfo, DirectoryNode, node, Children, childless, child, DirectoryTree, info,
  children, is_root, find_child, split_path, push_child, change_child, entry_node, middle_node,
  collect_entries, collect_below, insert_at, count_new, insert_parts, insert,
}
use nebula_fs.DirectoryTree.Lookup.{insert_below}

-- The nodes of a subtree, and of several.
abbrev pub nodes : DirectoryNode → ℕ
nodes n = length (collect_entries n)

abbrev pub nodes_below : Children → ℕ
nodes_below cs = length (collect_below cs)

pub nodes_none : nodes_below childless ≡ 0
unfolding collect_entries
nodes_none = refl

nodes-push_child :
    (cs : Children) (c : DirectoryNode) → nodes_below (push_child cs c) ≡ nodes_below cs + nodes c
unfolding collect_entries
nodes-push_child childless c = omega (arith, length-append (collect_entries c) [])
nodes-push_child (child n cs) c = omega (
  arith,
  length-append (collect_entries n) (collect_below cs),
  length-append (collect_entries n) (collect_below (push_child cs c)),
  nodes-push_child cs c,
)

nodes-change_child :
    (name : List ℕ) (f : DirectoryNode → DirectoryNode) (cs : Children) (c : DirectoryNode) (k : ℕ)
    → find_child name cs ≡ some c
    → nodes (f c) ≡ nodes c + k
    → nodes_below (change_child name f cs) ≡ nodes_below cs + k
unfolding collect_entries find_child
nodes-change_child name f childless c k there more = cc
nodes-change_child name f (child n cs) c k there more =
    elim (Bool-cases (list_eq (info n).name name)) [
      | inl same ↦
          let here : n ≡ c = ap (λ o. Option.get_or o n) (rw same at there) in
          let grown : nodes (f n) ≡ nodes n + k = rw here more in
          rw same (
            omega (
              arith,
              length-append (collect_entries n) (collect_below cs),
              length-append (collect_entries (f n)) (collect_below cs),
              grown,
            ))
      | inr other ↦
          let rest = nodes-change_child name f cs c k (rw other at there) more in
          rw other (
            omega (
              arith,
              length-append (collect_entries n) (collect_below cs),
              length-append (collect_entries n) (collect_below (change_child name f cs)),
              rest,
            ))
    ]

pub nodes_all : (n : DirectoryNode) → nodes n ≡ suc (nodes_below (children n))
unfolding collect_entries
nodes_all (node i cs) = refl

module _ (entry : ArchiveEntry) (part next : List ℕ) (parts : List (List ℕ)) (i : NodeInfo)
    (cs : Children) where
  below_new :
      find_child part cs ≡ none
      → (children (insert_at entry (part ∷ next ∷ parts) (node i cs))
          ≡ push_child cs (insert_at entry (next ∷ parts) (middle_node entry part i)))
        × (count_new entry (part ∷ next ∷ parts) (node i cs)
            ≡ 1 + count_new entry (next ∷ parts) (middle_node entry part i))
  unfolding insert_at count_new
  below_new new = (rw new refl, rw (new, count_new) refl)

  below_old :
      (c : DirectoryNode)
      → find_child part cs ≡ some c
      → (children (insert_at entry (part ∷ next ∷ parts) (node i cs))
          ≡ change_child part (λ x. insert_at entry (next ∷ parts) x) cs)
        × (count_new entry (part ∷ next ∷ parts) (node i cs) ≡ count_new entry (next ∷ parts) c)
  unfolding insert_at count_new
  below_old c old = (rw old refl, rw (old, count_new) refl)

nodes-insert_one :
    (entry : ArchiveEntry) (part : List ℕ) (n : DirectoryNode)
    → nodes (insert_at entry (part ∷ []) n) ≡ nodes n + count_new entry (part ∷ []) n
unfolding insert_at count_new collect_entries
nodes-insert_one entry part (node i cs) =
    omega (arith, nodes-push_child cs (entry_node entry part i))

nodes-insert_at :
    (entry : ArchiveEntry) (parts : List (List ℕ)) (n : DirectoryNode)
    → nodes (insert_at entry parts n) ≡ nodes n + count_new entry parts n
nodes-insert_at entry [] n = unfold insert_at count_new in omega arith
nodes-insert_at entry (part ∷ []) n = nodes-insert_one entry part n
nodes-insert_at entry (part ∷ next ∷ parts) (node i cs) = elim (Option-cases (find_child part cs)) [
  | inl new ↦
      let middle = middle_node entry part i in
      let step = below_new entry part next parts i cs new in
      omega (
        arith,
        nodes_all (insert_at entry (part ∷ next ∷ parts) (node i cs)),
        ap nodes_below step.0,
        step.1,
        nodes-push_child cs (insert_at entry (next ∷ parts) middle),
        nodes-insert_at entry (next ∷ parts) middle,
        nodes_all middle,
        nodes_all (node i cs),
        nodes_none,
      )
  | inr old ↦
      let step = below_old entry part next parts i cs old.0 old.1 in
      omega (
        arith,
        nodes_all (insert_at entry (part ∷ next ∷ parts) (node i cs)),
        ap nodes_below step.0,
        step.1,
        nodes_all (node i cs),
        nodes-change_child part (λ c. insert_at entry (next ∷ parts) c) cs old.0
            (count_new entry (next ∷ parts) old.0) old.1
            (nodes-insert_at entry (next ∷ parts) old.0),
      )
]

-- The count is that of the nodes below the root.
unfoldable pub IsCounted : DirectoryTree → Type 0
IsCounted t = t.node_count ≡ nodes_below (children t.root) % 2 ^ 64

inserted-IsCounted :
    (entry : ArchiveEntry) (parts : List (List ℕ)) (t : DirectoryTree)
    → IsCounted t
    → IsCounted (insert_parts entry parts t).0
unfolding IsCounted
inserted-IsCounted entry [] t h = h
inserted-IsCounted entry (part ∷ parts) t h = omega (
  arith,
  h,
  nodes_all t.root,
  nodes_all (insert_at entry (part ∷ parts) t.root),
  nodes-insert_at entry (part ∷ parts) t.root,
)

-- An entry inserted below the root keeps the count that of the nodes below the root, however many
-- directories of its path have to be made.
pub insert-IsCounted :
    (entry : ArchiveEntry) (t : DirectoryTree)
    → is_root entry.path ≡ false
    → IsCounted t
    → IsCounted (insert entry t).0
insert-IsCounted entry t below h =
    subst (λ r. IsCounted r.0) (sym (insert_below entry t below))
      (inserted-IsCounted entry (split_path entry.path) t h)
