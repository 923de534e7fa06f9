-- ===== src/Snapshot/Lookup.antt =====
-- What lookups in a manifest find after its operations.
use nebula_fs.Common.{
  ℕ, ◌≡◌, refl, sym, ap, ◌∙◌, false, none, some, Bool-cases, inl, inr, List, [], ◌∷◌, if◌then◌else◌,
  list_eq, list_eq→eq, list_eq_refl, arith,
}
use nebula_fs.Snapshot.Manifest.{
  SnapshotNode, SnapshotManifest, put_node, add_node, erase_node, remove_node, find_in_nodes,
  find_node,
}

find_in_nodes-put_node :
    (q : List ℕ) (node : SnapshotNode) (ns : List SnapshotNode)
    → find_in_nodes q (put_node node ns)
      ≡ (if list_eq node.path q then some node else find_in_nodes q ns)
unfolding find_in_nodes put_node
find_in_nodes-put_node q node [] = refl
find_in_nodes-put_node q node (n ∷ ns) = elim (Bool-cases (list_eq n.path node.path)) [
  | inl same ↦
      rw (same, list_eq→eq n.path node.path same)
        (elim (Bool-cases (list_eq node.path q)) [ inl here ↦ rw here | inr gone ↦ rw gone ])
  | inr other ↦ rw other (elim (Bool-cases (list_eq n.path q)) [
    | inl here ↦
        let e = list_eq→eq n.path q here in
        elim (Bool-cases (list_eq node.path q)) [
          | inl both ↦ cc (rw (e, list_eq→eq node.path q both, list_eq_refl) at other)
          | inr apart ↦ rw (here, apart)
        ]
    | inr gone ↦ rw gone (find_in_nodes-put_node q node ns)
  ])
]

find_in_nodes-erase_node :
    (q path : List ℕ) (ns : List SnapshotNode)
    → find_in_nodes q (erase_node path ns) ≡ (if list_eq path q then none else find_in_nodes q ns)
unfolding find_in_nodes erase_node
find_in_nodes-erase_node q path [] = ground arith
find_in_nodes-erase_node q path (n ∷ ns) = elim (Bool-cases (list_eq n.path path)) [
  | inl same ↦
      rw (same, find_in_nodes-erase_node q path ns, list_eq→eq n.path path same)
        (elim (Bool-cases (list_eq path q)) [ inl here ↦ rw here | inr gone ↦ rw gone ])
  | inr other ↦
      rw (other, find_in_nodes-erase_node q path ns)
        (elim (Bool-cases (list_eq n.path q)) [
          | inl here ↦
              let e = list_eq→eq n.path q here in
              elim (Bool-cases (list_eq path q)) [
                | inl both ↦ cc (rw (e, list_eq→eq path q both, list_eq_refl) at other)
                | inr apart ↦ rw (here, apart)
              ]
          | inr gone ↦ rw gone
        ])
]

-- Every path at most once, as in a map.
abbrev pub Distinct : List SnapshotNode → Type 0
Distinct [] = Unit {0}
Distinct (n ∷ ns) = (find_in_nodes n.path ns ≡ none) × Distinct ns

-- After `addNode`, `findNode` finds the node at its path and every other path as before.
pub find_node-add_node :
    (q : List ℕ) (n : SnapshotNode) (m : SnapshotManifest)
    → find_node q (add_node n m) ≡ (if list_eq n.path q then some n else find_node q m)
unfolding find_node add_node
find_node-add_node q n m = find_in_nodes-put_node q n m.nodes

-- After `removeNode`, `findNode` finds nothing at the path and every other path as before.
pub find_node-remove_node :
    (q path : List ℕ) (m : SnapshotManifest)
    → find_node q (remove_node path m).0 ≡ (if list_eq path q then none else find_node q m)
unfolding find_node remove_node
find_node-remove_node q path m = find_in_nodes-erase_node q path m.nodes

put_node-Fresh :
    (path : List ℕ) (node : SnapshotNode) (ns : List SnapshotNode)
    → list_eq node.path path ≡ false
    → find_in_nodes path ns ≡ none
    → find_in_nodes path (put_node node ns) ≡ none
put_node-Fresh path node ns apart fresh = find_in_nodes-put_node path node ns ∙ rw (apart, fresh)

list_eq-sym : (xs ys : List ℕ) → list_eq xs ys ≡ false → list_eq ys xs ≡ false
list_eq-sym xs ys h = elim (Bool-cases (list_eq ys xs)) [
  | inl same ↦ cc (rw (list_eq→eq ys xs same, list_eq_refl) at h)
  | inr apart ↦ apart
]

put_node-Distinct :
    (node : SnapshotNode) (ns : List SnapshotNode) → Distinct ns → Distinct (put_node node ns)
unfolding put_node
put_node-Distinct node [] d = unfold find_in_nodes in (refl, tt)
put_node-Distinct node (n ∷ ns) d = elim (Bool-cases (list_eq n.path node.path)) [
  | inl same ↦
      let last = ap (λ p. find_in_nodes p ns) (sym (list_eq→eq n.path node.path same)) ∙ d.0 in
      rw same (last, d.1)
  | inr other ↦ rw other (
    put_node-Fresh n.path node ns (list_eq-sym n.path node.path other) d.0,
    put_node-Distinct node ns d.1,
  )
]

erase_node-Distinct :
    (path : List ℕ) (ns : List SnapshotNode) → Distinct ns → Distinct (erase_node path ns)
unfolding erase_node
erase_node-Distinct path [] d = tt
erase_node-Distinct path (n ∷ ns) d = elim (Bool-cases (list_eq n.path path)) [
  | inl same ↦ rw same (erase_node-Distinct path ns d.1)
  | inr other ↦ rw other (
    find_in_nodes-erase_node n.path path ns ∙ rw (list_eq-sym n.path path other, d.0),
    erase_node-Distinct path ns d.1,
  )
]

-- `addNode` and `removeNode` keep the paths apart.
pub nodes-Distinct :
    (node : SnapshotNode) (path : List ℕ) (m : SnapshotManifest)
    → Distinct m.nodes
    → Distinct (add_node node m).nodes × Distinct (remove_node path m).0.nodes
unfolding add_node remove_node
nodes-Distinct node path m d =
    (put_node-Distinct node m.nodes d, erase_node-Distinct path m.nodes d)
