-- ===== src/DirectoryTree/Lookup.antt =====
-- What `insert` and `remove` do to the directories that `find` answers.
use nebula_fs.Common.{
  ℕ, ◌≡◌, refl, sym, ap, ◌∙◌, true, false, Bool-cases, inl, inr, Option, none, some, Option-cases,
  List, [], ◌∷◌, list_eq, list_eq→eq,
}
use mathlib.Core.Option
use mathlib.Core.Path.{subst}
use nebula_fs.DirectoryTree.{
  ArchiveEntry, NodeInfo, DirectoryNode, node, childless, DirectoryTree, info, children, is_root,
  find_child, descend, split_path, find, entry_node, middle_node, insert_at, insert_parts, insert,
}
use nebula_fs.DirectoryTree.Below.{
  find_child-push_child, find_child-push_child_kept, insert_at_name, insert_at_id, below_new,
  below_old, below_other,
}

descend_step :
    (part : List ℕ) (parts : List (List ℕ)) (n c : DirectoryNode)
    → find_child part (children n) ≡ some c
    → descend (part ∷ parts) n ≡ descend parts c
unfolding descend Option.bind
descend_step part parts n c there = rw there refl

descend_last :
    (part : List ℕ) (n : DirectoryNode)
    → descend (part ∷ []) n ≡ none
    → find_child part (children n) ≡ none
unfolding descend Option.bind
descend_last part n absent = elim (Option-cases (find_child part (children n))) [
  | inl none_there ↦ none_there
  | inr there ↦ cc (rw there.1 at absent)
]

descend_one :
    (part : List ℕ) (n c : DirectoryNode)
    → find_child part (children n) ≡ some c
    → descend (part ∷ []) n ≡ some c
unfolding descend Option.bind
descend_one part n c there = rw there refl

-- The path of an entry that was not there leads to its node.
pub descend-insert_at :
    (entry : ArchiveEntry) (part : List ℕ) (parts : List (List ℕ)) (n : DirectoryNode)
    → descend (part ∷ parts) n ≡ none
    → (i : NodeInfo) × (descend (part ∷ parts) (insert_at entry (part ∷ parts) n)
        ≡ some (node i childless))
      × (i.id ≡ entry.id)
      × (i.modified_at ≡ entry.modified_at)
      × (i.permissions ≡ entry.permissions)
descend-insert_at entry part [] (node i cs) absent =
    let placed : find_child part (children (insert_at entry (part ∷ []) (node i cs)))
        ≡ some (entry_node entry part i) =
      unfold insert_at in
      find_child-push_child part cs (entry_node entry part i) (descend_last part (node i cs) absent)
        refl in
    (
      info (entry_node entry part i),
      descend_one part (insert_at entry (part ∷ []) (node i cs)) (entry_node entry part i) placed,
      refl,
      refl,
      refl,
    )
descend-insert_at entry part (next ∷ parts) (node i cs) absent =
    elim (Option-cases (find_child part cs)) [
      | inl new ↦
          let middle = middle_node entry part i in
          let rest =
            descend-insert_at entry next parts middle
              (unfold descend Option.bind find_child in refl) in
          (
            rest.0,
            descend_step part (next ∷ parts) (insert_at entry (part ∷ next ∷ parts) (node i cs)) _
                  (below_new entry part next parts i cs new)
                ∙ rest.1,
            rest.2,
            rest.3,
            rest.4,
          )
      | inr old ↦
          let rest =
            descend-insert_at entry next parts old.0
              (sym (descend_step part (next ∷ parts) (node i cs) old.0 old.1) ∙ absent) in
          (
            rest.0,
            descend_step part (next ∷ parts) (insert_at entry (part ∷ next ∷ parts) (node i cs)) _
                  (below_old entry part next parts i cs old.0 old.1)
                ∙ rest.1,
            rest.2,
            rest.3,
            rest.4,
          )
    ]

-- A path that leads to a node still leads to a node of its id and name.
abbrev pub Same : Option DirectoryNode → DirectoryNode → Type 0
Same o n =
    (k : DirectoryNode) × (o ≡ some k)
    × ((info k).id ≡ (info n).id)
    × ((info k).name ≡ (info n).name)

pub descend_first :
    (q : List ℕ) (qs : List (List ℕ)) (n k : DirectoryNode)
    → descend (q ∷ qs) n ≡ some k
    → (c : DirectoryNode) × (find_child q (children n) ≡ some c) × (descend qs c ≡ some k)
unfolding descend Option.bind
descend_first q qs n k there = elim (Option-cases (find_child q (children n))) [
  | inl none_there ↦ cc (rw none_there at there)
  | inr c ↦ (c.0, c.1, rw c.1 at there)
]

kept_at :
    (q : List ℕ) (qs : List (List ℕ)) (n n' k c : DirectoryNode)
    → descend (q ∷ qs) n ≡ some k
    → find_child q (children n) ≡ some c
    → find_child q (children n') ≡ some c
    → Same (descend (q ∷ qs) n') k
kept_at q qs n n' k c there before after =
    (k, descend_step q qs n' c after ∙ sym (descend_step q qs n c before) ∙ there, refl, refl)

descend_here : (n k : DirectoryNode) → descend [] n ≡ some k → n ≡ k
unfolding descend
descend_here n k there = ap (λ o. Option.get_or o n) there

pub descend-insert_at_keeps :
    (entry : ArchiveEntry) (ps qs : List (List ℕ)) (n k : DirectoryNode)
    → descend qs n ≡ some k
    → Same (descend qs (insert_at entry ps n)) k
descend-insert_at_keeps entry [] qs n k there = unfold insert_at in (k, there, refl, refl)
descend-insert_at_keeps entry (p ∷ ps) [] n k there =
    let same : n ≡ k = descend_here n k there in
    (
      insert_at entry (p ∷ ps) n,
      unfold descend in refl,
      insert_at_id entry (p ∷ ps) n ∙ ap (λ x. (info x).id) same,
      insert_at_name entry (p ∷ ps) n ∙ ap (λ x. (info x).name) same,
    )
descend-insert_at_keeps entry (p ∷ []) (q ∷ qs) (node i cs) k there =
    let first = descend_first q qs (node i cs) k there in
    kept_at q qs (node i cs) (insert_at entry (p ∷ []) (node i cs)) k first.0 there first.1
      (unfold insert_at in find_child-push_child_kept q cs (entry_node entry p i) first.0 first.1)
descend-insert_at_keeps entry (p ∷ next ∷ ps) (q ∷ qs) (node i cs) k there =
    let first = descend_first q qs (node i cs) k there in
    elim (Bool-cases (list_eq p q)) [
      | inl same ↦
          let at_p : find_child p cs ≡ some first.0 = rw (list_eq→eq p q same) first.1 in
          let rest = descend-insert_at_keeps entry (next ∷ ps) qs first.0 k first.2 in
          let n' = insert_at entry (p ∷ next ∷ ps) (node i cs) in
          let found : find_child q (children n') ≡ some (insert_at entry (next ∷ ps) first.0) =
            subst (λ x. find_child x (children n') ≡ some (insert_at entry (next ∷ ps) first.0))
              (list_eq→eq p q same) (below_old entry p next ps i cs first.0 at_p) in
          (rest.0, descend_step q qs n' _ found ∙ rest.1, rest.2, rest.3)
      | inr differ ↦
          kept_at q qs (node i cs) (insert_at entry (p ∷ next ∷ ps) (node i cs)) k first.0 there
            first.1 (below_other entry p next ps i cs q first.0 differ first.1)
    ]

pub insert_below :
    (entry : ArchiveEntry) (t : DirectoryTree)
    → is_root entry.path ≡ false
    → insert entry t ≡ insert_parts entry (split_path entry.path) t
unfolding insert
insert_below entry t below = rw below refl

insert_parts_root :
    (entry : ArchiveEntry) (parts : List (List ℕ)) (t : DirectoryTree)
    → (insert_parts entry parts t).0.root ≡ insert_at entry parts t.root
insert_parts_root entry [] t = unfold insert_at in refl
insert_parts_root entry (part ∷ parts) t = refl

-- `find` is the loop on the parts of a path.
pub find_by_parts :
    (path : List ℕ)
    → (parts : List (List ℕ)) × ((t : DirectoryTree) → find path t ≡ descend parts t.root)
unfolding find descend
find_by_parts path = elim (Bool-cases (is_root path)) [
  | inl root ↦ ([], λ t. rw root refl)
  | inr below ↦ (split_path path, λ t. rw below refl)
]

pub find_below :
    (path : List ℕ) (t : DirectoryTree)
    → is_root path ≡ false
    → find path t ≡ descend (split_path path) t.root
unfolding find
find_below path t below = rw below refl

find_root : (path : List ℕ) (t : DirectoryTree) → is_root path ≡ true → find path t ≡ some t.root
unfolding find
find_root path t root = rw root refl

inserted_parts :
    (entry : ArchiveEntry) (parts : List (List ℕ)) (t : DirectoryTree)
    → descend parts t.root ≡ none
    → (i : NodeInfo) × ((insert_parts entry parts t).1 ≡ true)
      × (descend parts (insert_parts entry parts t).0.root ≡ some (node i childless))
      × (i.id ≡ entry.id)
      × (i.modified_at ≡ entry.modified_at)
      × (i.permissions ≡ entry.permissions)
inserted_parts entry [] t absent = absurd (unfold descend in cc)
inserted_parts entry (part ∷ parts) t absent =
    let there = descend-insert_at entry part parts t.root absent in
    (there.0, refl, there.1, there.2, there.3, there.4)

-- An entry whose path leads nowhere is found under its path after `insert`, which succeeds: with its
-- id, time and permissions, and without children.
pub find-insert :
    (entry : ArchiveEntry) (t : DirectoryTree)
    → find entry.path t ≡ none
    → (i : NodeInfo) × ((insert entry t).1 ≡ true)
      × (find entry.path (insert entry t).0 ≡ some (node i childless))
      × (i.id ≡ entry.id)
      × (i.modified_at ≡ entry.modified_at)
      × (i.permissions ≡ entry.permissions)
find-insert entry t absent = elim (Bool-cases (is_root entry.path)) [
  | inl root ↦ let found = find_root entry.path t root in cc
  | inr below ↦
      let parts = split_path entry.path in
      let done = insert_below entry t below in
      let there = inserted_parts entry parts t (sym (find_below entry.path t below) ∙ absent) in
      (
        there.0,
        ap (λ r. r.1) done ∙ there.1,
        find_below entry.path (insert entry t).0 below
            ∙ ap (λ r. descend parts r.0.root) done
            ∙ there.2,
        there.3,
        there.4,
        there.5,
      )
]

-- Whatever is inserted, unless at the root, every path that led to a node leads to a node of the same
-- id and name.
pub find-insert_keeps :
    (entry : ArchiveEntry) (t : DirectoryTree) (path : List ℕ) (n : DirectoryNode)
    → is_root entry.path ≡ false
    → find path t ≡ some n
    → Same (find path (insert entry t).0) n
find-insert_keeps entry t path n below there =
    let parts = split_path entry.path in
    let way = find_by_parts path in
    let after : find path (insert entry t).0 ≡ descend way.0 (insert_at entry parts t.root) =
      way.1 (insert entry t).0
      ∙ ap (λ r. descend way.0 r.0.root) (insert_below entry t below)
      ∙ ap (descend way.0) (insert_parts_root entry parts t) in
    let kept = descend-insert_at_keeps entry parts way.0 t.root n (sym (way.1 t) ∙ there) in
    (kept.0, after ∙ kept.1, kept.2, kept.3)
