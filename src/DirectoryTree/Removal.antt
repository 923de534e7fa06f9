-- ===== src/DirectoryTree/Removal.antt =====
-- What `remove` of src/filesystem/DirectoryTree.cpp takes out of the tree.
use nebula_fs.Common.{
  ℕ, suc, ◌+◌, ◌-◌, ◌%◌, ◌^◌, ◌≤◌, ◌≡◌, refl, sym, ap, ◌∙◌, true, false, Bool-cases, inl, inr, some,
  List, [], ◌∷◌, ◌++◌, list_eq, append_assoc, length, length-append, arith,
}
use mathlib.Core.Option
use mathlib.Core.Path.{subst}
use nebula_fs.DirectoryTree.{
  NodeInfo, DirectoryNode, node, Children, childless, child, DirectoryTree, info, children, is_root,
  find_child, descend, split_path, find, change_child, erase_child, collect_entries, collect_below,
  get_all_entries, remove_at, remove, erase_file, path_depth,
}
use nebula_fs.DirectoryTree.Lookup.{descend_first, find_below}
use nebula_fs.DirectoryTree.Count.{nodes, nodes_below, nodes_none, nodes_all, IsCounted}

-- A list, a part of it in one piece, and the rest of it in its order.
pub record IsCut (whole part rest : List ℕ) : Type 0 where
  pub before : List ℕ
  pub behind : List ℕ
  pub whole_is : whole ≡ before ++ (part ++ behind)
  pub rest_is : rest ≡ before ++ behind

IsCut-first : (part behind : List ℕ) → IsCut (part ++ behind) part behind
IsCut-first part behind = record { before = []; behind = behind; whole_is = refl; rest_is = refl }

IsCut-before :
    (xs : List ℕ) {whole part rest : List ℕ}
    → IsCut whole part rest
    → IsCut (xs ++ whole) part (xs ++ rest)
IsCut-before xs {whole} {part} {rest} cut = record {
  before = xs ++ cut.before;
  behind = cut.behind;
  whole_is = ap (λ l. xs ++ l) cut.whole_is ∙ sym (append_assoc xs cut.before (part ++ cut.behind));
  rest_is = ap (λ l. xs ++ l) cut.rest_is ∙ sym (append_assoc xs cut.before cut.behind);
}

IsCut-behind :
    (xs : List ℕ) {whole part rest : List ℕ}
    → IsCut whole part rest
    → IsCut (whole ++ xs) part (rest ++ xs)
IsCut-behind xs {whole} {part} {rest} cut = record {
  before = cut.before;
  behind = cut.behind ++ xs;
  whole_is =
      ap (λ l. l ++ xs) cut.whole_is
      ∙ append_assoc cut.before (part ++ cut.behind) xs
      ∙ ap (λ l. cut.before ++ l) (append_assoc part cut.behind xs);
  rest_is = ap (λ l. l ++ xs) cut.rest_is ∙ append_assoc cut.before cut.behind xs;
}

length-IsCut :
    {whole part rest : List ℕ} → IsCut whole part rest → length whole ≡ length rest + length part
length-IsCut {whole} {part} {rest} cut = omega (
  arith,
  ap length cut.whole_is,
  ap length cut.rest_is,
  length-append cut.before (part ++ cut.behind),
  length-append part cut.behind,
  length-append cut.before cut.behind,
)

erase_child-IsCut :
    (name : List ℕ) (cs : Children) (c : DirectoryNode)
    → find_child name cs ≡ some c
    → IsCut (collect_below cs) (collect_entries c) (collect_below (erase_child name cs))
unfolding collect_entries find_child
erase_child-IsCut name childless c there = cc
erase_child-IsCut name (child n cs) c there = elim (Bool-cases (list_eq (info n).name name)) [
  | inl same ↦
      let here : n ≡ c = ap (λ o. Option.get_or o n) (rw same at there) in
      rw (same, ← here) (IsCut-first (collect_entries n) (collect_below cs))
  | inr other ↦
      rw other (IsCut-before (collect_entries n) (erase_child-IsCut name cs c (rw other at there)))
]

-- What `remove` makes of a node, when the path leads to a node below it.
removed_last :
    (part : List ℕ) (i : NodeInfo) (cs : Children) (c : DirectoryNode)
    → find_child part cs ≡ some c
    → (files : List ℕ) × (remove_at (part ∷ []) (node i cs)
        ≡ some (node (record i { files = files }) (erase_child part cs)))
unfolding remove_at
removed_last part i cs c there = (erase_file (info c).id i.files, rw there refl)

removed_deep :
    (part next : List ℕ) (parts : List (List ℕ)) (i : NodeInfo) (cs : Children)
    (c c' : DirectoryNode)
    → find_child part cs ≡ some c
    → remove_at (next ∷ parts) c ≡ some c'
    → remove_at (part ∷ next ∷ parts) (node i cs) ≡ some (node i (change_child part (λ _. c') cs))
unfolding remove_at Option.bind
removed_deep part next parts i cs c c' there gone = rw (there, gone) refl

-- A child that is changed into one without a part of its entries.
replace_child-IsCut :
    (name : List ℕ) (cs : Children) (c c' : DirectoryNode) {part : List ℕ}
    → find_child name cs ≡ some c
    → IsCut (collect_entries c) part (collect_entries c')
    → IsCut (collect_below cs) part (collect_below (change_child name (λ _. c') cs))
unfolding collect_entries find_child
replace_child-IsCut name childless c c' there less = cc
replace_child-IsCut name (child n cs) c c' {part} there less =
    elim (Bool-cases (list_eq (info n).name name)) [
      | inl same ↦
          let here : n ≡ c = ap (λ o. Option.get_or o n) (rw same at there) in
          rw (same, here) (IsCut-behind (collect_below cs) less)
      | inr other ↦ rw other (
          IsCut-before (collect_entries n)
            (replace_child-IsCut name cs c c' (rw other at there) less))
    ]

remove_at-IsCut :
    (part : List ℕ) (parts : List (List ℕ)) (n c : DirectoryNode)
    → descend (part ∷ parts) n ≡ some c
    → (n' : DirectoryNode) × (remove_at (part ∷ parts) n ≡ some n')
      × IsCut (collect_entries n) (collect_entries c) (collect_entries n')
unfolding collect_entries
remove_at-IsCut part [] (node i cs) c there =
    let first = descend_first part [] (node i cs) c there in
    let at_c : find_child part cs ≡ some c = first.1 ∙ unfold descend in first.2 in
    let gone = removed_last part i cs c at_c in
    (
      node (record i { files = gone.0 }) (erase_child part cs),
      gone.1,
      IsCut-before (i.id ∷ []) (erase_child-IsCut part cs c at_c),
    )
remove_at-IsCut part (next ∷ parts) (node i cs) c there =
    let first = descend_first part (next ∷ parts) (node i cs) c there in
    let rest = remove_at-IsCut next parts first.0 c first.2 in
    (
      node i (change_child part (λ _. rest.0) cs),
      removed_deep part next parts i cs first.0 rest.0 first.1 rest.1,
      IsCut-before (i.id ∷ []) (replace_child-IsCut part cs first.0 rest.0 first.1 rest.2),
    )

removed_found :
    (parts : List (List ℕ)) (n c : DirectoryNode)
    → 1 ≤ length parts
    → descend parts n ≡ some c
    → (n' : DirectoryNode) × (remove_at parts n ≡ some n')
      × IsCut (collect_entries n) (collect_entries c) (collect_entries n')
removed_found [] n c some_part there = absurd (omega arith)
removed_found (part ∷ parts) n c some_part there = remove_at-IsCut part parts n c there

module _ (path : List ℕ) (t : DirectoryTree) (c : DirectoryNode) (below : is_root path ≡ false)
    (deep : 1 ≤ path_depth path) (there : find path t ≡ some c) where
  removed :
      (root : DirectoryNode) × (remove path t
        ≡ (record { root = root; node_count = (t.node_count + 2 ^ 64 - 1) % 2 ^ 64 }, true))
      × IsCut (collect_entries t.root) (collect_entries c) (collect_entries root)
  unfolding remove path_depth
  removed =
      let gone =
        removed_found (split_path path) t.root c deep (sym (find_below path t below) ∙ there) in
      (gone.0, rw (below, gone.1) refl, gone.2)

  -- Removing a path below the root that leads to a node succeeds. The entries of that node and of
  -- everything below it, which stand in one piece in the list of all entries, are taken out of it; the
  -- others stay, in their order, and the count goes down by one.
  pub remove_found :
      ((remove path t).1 ≡ true)
      × IsCut (get_all_entries t) (collect_entries c) (get_all_entries (remove path t).0)
      × ((remove path t).0.node_count ≡ (t.node_count + 2 ^ 64 - 1) % 2 ^ 64)
  unfolding get_all_entries
  remove_found =
      let done = removed in
      (
        ap (λ r. r.1) done.1,
        subst (λ r. IsCut (collect_entries t.root) (collect_entries c) (collect_entries r.0.root))
            (sym done.1) done.2,
        ap (λ r. r.0.node_count) done.1,
      )

  -- Removing a path below the root that leads to a node without children keeps the count that of the
  -- nodes below the root.
  pub remove-IsCounted : IsCounted t → children c ≡ childless → IsCounted (remove path t).0
  unfolding IsCounted
  remove-IsCounted h leaf =
      let done = removed in
      let one : nodes c ≡ 1 =
        nodes_all c ∙ ap (λ cs. suc (nodes_below cs)) leaf ∙ ap suc nodes_none in
      subst IsCounted (sym (ap (λ r. r.0) done.1))
        (omega (arith, h, length-IsCut done.2, one, nodes_all t.root, nodes_all done.0))
