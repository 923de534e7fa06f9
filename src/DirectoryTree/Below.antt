-- ===== src/DirectoryTree/Below.antt =====
-- The children of a node of src/filesystem/DirectoryTree.cpp, before and after an insertion.
use nebula_fs.Common.{
  ℕ, ◌≡◌, refl, ap, ◌∙◌, false, Bool-cases, inl, inr, none, some, Option-cases, List, [], ◌∷◌,
  list_eq, list_eq_refl, list_eq→eq, if◌then◌else◌,
}
use mathlib.Core.Option
use nebula_fs.DirectoryTree.{
  ArchiveEntry, NodeInfo, DirectoryNode, node, Children, childless, child, info, children,
  find_child, push_child, change_child, middle_node, insert_at,
}

-- A new last child is found if there was none of its name.
pub find_child-push_child :
    (name : List ℕ) (cs : Children) (c : DirectoryNode)
    → find_child name cs ≡ none
    → (info c).name ≡ name
    → find_child name (push_child cs c) ≡ some c
unfolding find_child
find_child-push_child name childless c absent named = rw (named, list_eq_refl name) refl
find_child-push_child name (child n cs) c absent named =
    elim (Bool-cases (list_eq (info n).name name)) [
      | inl same ↦ cc (rw same at absent)
      | inr other ↦ rw other (find_child-push_child name cs c (rw other at absent) named)
    ]

pub find_child-push_child_kept :
    (name : List ℕ) (cs : Children) (c n : DirectoryNode)
    → find_child name cs ≡ some n
    → find_child name (push_child cs c) ≡ some n
unfolding find_child
find_child-push_child_kept name childless c n h = cc
find_child-push_child_kept name (child k cs) c n h =
    elim (Bool-cases (list_eq (info k).name name)) [
      | inl same ↦ rw same (rw same at h)
      | inr other ↦ rw other (find_child-push_child_kept name cs c n (rw other at h))
    ]

-- A change that keeps the names.
find_child-change_child :
    (name : List ℕ) (f : DirectoryNode → DirectoryNode) (cs : Children) (n : DirectoryNode)
    → ((c : DirectoryNode) → (info (f c)).name ≡ (info c).name)
    → find_child name cs ≡ some n
    → find_child name (change_child name f cs) ≡ some (f n)
unfolding find_child
find_child-change_child name f childless n keeps h = cc
find_child-change_child name f (child k cs) n keeps h =
    elim (Bool-cases (list_eq (info k).name name)) [
      | inl same ↦ rw (same, keeps k, same) (ap (Option.map f) (rw same at h))
      | inr other ↦ rw (other, other) (find_child-change_child name f cs n keeps (rw other at h))
    ]

find_child-change_child_other :
    (name part : List ℕ) (f : DirectoryNode → DirectoryNode) (cs : Children)
    → ((c : DirectoryNode) → (info (f c)).name ≡ (info c).name)
    → list_eq part name ≡ false
    → find_child name (change_child part f cs) ≡ find_child name cs
unfolding find_child
find_child-change_child_other name part f childless keeps differ = refl
find_child-change_child_other name part f (child k cs) keeps differ =
    elim (Bool-cases (list_eq (info k).name part)) [
      | inl same ↦
          let named = list_eq→eq (info k).name part same in
          let apart : list_eq (info k).name name ≡ false = rw named differ in
          rw (same, keeps k, apart) refl
      | inr other ↦ rw other (
          ap (λ t. if list_eq (info k).name name then some k else t)
            (find_child-change_child_other name part f cs keeps differ))
    ]

pub insert_at_name :
    (entry : ArchiveEntry) (parts : List (List ℕ)) (n : DirectoryNode)
    → (info (insert_at entry parts n)).name ≡ (info n).name
unfolding insert_at
insert_at_name entry [] n = refl
insert_at_name entry (part ∷ []) (node i cs) = refl
insert_at_name entry (part ∷ next ∷ parts) (node i cs) = refl

pub insert_at_id :
    (entry : ArchiveEntry) (parts : List (List ℕ)) (n : DirectoryNode)
    → (info (insert_at entry parts n)).id ≡ (info n).id
unfolding insert_at
insert_at_id entry [] n = refl
insert_at_id entry (part ∷ []) (node i cs) = refl
insert_at_id entry (part ∷ next ∷ parts) (node i cs) = refl

-- The child that the loop of `insert` goes on in, after the rest of the loop.
module _ (entry : ArchiveEntry) (part next : List ℕ) (parts : List (List ℕ)) (i : NodeInfo)
    (cs : Children) where
  pub below_new :
      find_child part cs ≡ none
      → find_child part (children (insert_at entry (part ∷ next ∷ parts) (node i cs)))
        ≡ some (insert_at entry (next ∷ parts) (middle_node entry part i))
  unfolding insert_at
  below_new absent = rw absent (
      find_child-push_child part cs (insert_at entry (next ∷ parts) (middle_node entry part i))
        absent (insert_at_name entry (next ∷ parts) (middle_node entry part i)))

  pub below_old :
      (c : DirectoryNode)
      → find_child part cs ≡ some c
      → find_child part (children (insert_at entry (part ∷ next ∷ parts) (node i cs)))
        ≡ some (insert_at entry (next ∷ parts) c)
  unfolding insert_at
  below_old c there = rw there (
      find_child-change_child part (λ x. insert_at entry (next ∷ parts) x) cs c
        (insert_at_name entry (next ∷ parts)) there)

  -- Another child is the same.
  pub below_other :
      (name : List ℕ) (c : DirectoryNode)
      → list_eq part name ≡ false
      → find_child name cs ≡ some c
      → find_child name (children (insert_at entry (part ∷ next ∷ parts) (node i cs))) ≡ some c
  unfolding insert_at
  below_other name c differ there = elim (Option-cases (find_child part cs)) [
    | inl absent ↦ rw absent (find_child-push_child_kept name cs _ c there)
    | inr old ↦ rw old.1 (
        find_child-change_child_other name part (λ x. insert_at entry (next ∷ parts) x) cs
          (insert_at_name entry (next ∷ parts)) differ
        ∙ there)
  ]
