-- ===== src/Snapshot/Applied.antt =====
-- What the parts of a patch do to lookups: the base's nodes, the changes and the deletions.
use nebula_fs.Common.{
  ℕ, ◌≡◌, refl, sym, ap, ◌∙◌, Option, none, some, Option-cases, Bool-cases, inl, inr, List, [], ◌∷◌,
  if◌then◌else◌, list_eq, list_eq→eq,
}
use nebula_fs.Snapshot.Manifest.{
  SnapshotNode, SnapshotManifest, add_node, remove_node, find_in_nodes, find_node, has_node,
  is_some,
}
use nebula_fs.Snapshot.Delta.{changes, deletions, differs, modified_entry}
use nebula_fs.Snapshot.Patch.{add_all, apply_action, apply_entries}
use nebula_fs.Snapshot.Lookup.{Distinct, find_node-add_node, find_node-remove_node}

abbrev pub or_else : Option SnapshotNode → Option SnapshotNode → Option SnapshotNode
or_else none o = o
or_else (some n) o = some n

pub or_else-none : (o : Option SnapshotNode) → or_else o none ≡ o
or_else-none none = refl
or_else-none (some n) = refl

pub find_node-add_all :
    (q : List ℕ) (ns : List SnapshotNode) (m : SnapshotManifest)
    → Distinct ns
    → find_node q (add_all ns m) ≡ or_else (find_in_nodes q ns) (find_node q m)
unfolding add_all find_in_nodes
find_node-add_all q [] m d = refl
find_node-add_all q (n ∷ ns) m d =
    find_node-add_all q ns (add_node n m) d.1
    ∙ ap (or_else (find_in_nodes q ns)) (find_node-add_node q n m)
    ∙ elim (Bool-cases (list_eq n.path q)) [
      | inl here ↦ rw (here, sym (list_eq→eq n.path q here), d.0)
      | inr gone ↦ rw gone
    ]

-- What a delta leaves at a path: from the target's node, the base's node and the node found.
abbrev pub merged :
    Option SnapshotNode → Option SnapshotNode → Option SnapshotNode → Option SnapshotNode
merged none base found = found
merged (some t) none found = some t
merged (some t) (some b) found = if differs b t then some t else found

abbrev touched : SnapshotNode → Option SnapshotNode → SnapshotManifest → SnapshotManifest
touched n none m = add_node n m
touched n (some old) m = if differs old n then add_node n m else m

apply_entries-changes_step :
    (n : SnapshotNode) (ns : List SnapshotNode) (base m : SnapshotManifest)
    → apply_entries (changes base (n ∷ ns)) m
      ≡ apply_entries (changes base ns) (touched n (find_node n.path base) m)
unfolding changes apply_entries apply_action modified_entry
apply_entries-changes_step n ns base m = elim (Option-cases (find_node n.path base)) [
  | inl absent ↦ rw (absent, changes, apply_entries)
  | inr (old, present) ↦ elim (Bool-cases (differs old n)) [
    | inl changed ↦ rw (present, changed, changes, apply_entries)
    | inr same ↦ rw (present, same, changes, apply_entries)
  ]
]

find_node-touched :
    (q : List ℕ) (n : SnapshotNode) (base m : SnapshotManifest)
    → find_node q (touched n (find_node n.path base) m) ≡ (
        if list_eq n.path q
        then merged (some n) (find_node q base) (find_node q m)
        else find_node q m)
find_node-touched q n base m = elim (Bool-cases (list_eq n.path q)) [
  | inl here ↦
      let e = list_eq→eq n.path q here in
      let added : find_node q (add_node n m) ≡ some n = find_node-add_node q n m ∙ rw here in
      let at_q = ap (λ p. find_node p base) e in
      elim (Option-cases (find_node q base)) [
        | inl absent ↦ rw (here, at_q ∙ absent, absent) added
        | inr (old, present) ↦ elim (Bool-cases (differs old n)) [
          | inl changed ↦ rw (here, at_q ∙ present, present, changed) added
          | inr same ↦ rw (here, at_q ∙ present, present, same)
        ]
      ]
  | inr gone ↦
      let kept : find_node q (add_node n m) ≡ find_node q m = find_node-add_node q n m ∙ rw gone in
      rw gone (elim (Option-cases (find_node n.path base)) [
        | inl absent ↦ rw absent kept
        | inr (old, present) ↦ rw present (elim (Bool-cases (differs old n)) [
          | inl changed ↦ rw changed kept
          | inr same ↦ rw same
        ])
      ])
]

pub find_node-changes :
    (q : List ℕ) (ns : List SnapshotNode) (base m : SnapshotManifest)
    → Distinct ns
    → find_node q (apply_entries (changes base ns) m)
      ≡ merged (find_in_nodes q ns) (find_node q base) (find_node q m)
unfolding find_in_nodes
find_node-changes q [] base m d = unfold changes apply_entries in refl
find_node-changes q (n ∷ ns) base m d =
    ap (find_node q) (apply_entries-changes_step n ns base m)
    ∙ find_node-changes q ns base (touched n (find_node n.path base) m) d.1
    ∙ ap (merged (find_in_nodes q ns) (find_node q base)) (find_node-touched q n base m)
    ∙ elim (Bool-cases (list_eq n.path q)) [
      | inl here ↦
          let last = ap (λ p. find_in_nodes p ns) (sym (list_eq→eq n.path q here)) ∙ d.0 in
          rw (here, last)
      | inr gone ↦ rw gone
    ]

-- What the deletions leave: nothing at a path of the base that the target lacks.
abbrev pub pruned :
    Option SnapshotNode → Option SnapshotNode → Option SnapshotNode → Option SnapshotNode
pruned (some t) base found = found
pruned none none found = found
pruned none (some b) found = none

pruned-none : (o found : Option SnapshotNode) → found ≡ pruned o none found
pruned-none none found = refl
pruned-none (some t) found = refl

pruned-empty : (b : Option SnapshotNode) → pruned none b none ≡ none
pruned-empty none = refl
pruned-empty (some b) = refl

apply_entries-deletions_step :
    (n : SnapshotNode) (ns : List SnapshotNode) (target m : SnapshotManifest)
    → apply_entries (deletions target (n ∷ ns)) m
      ≡ apply_entries
          (deletions target ns)
          (if has_node n.path target then m else (remove_node n.path m).0)
unfolding deletions apply_entries apply_action
apply_entries-deletions_step n ns target m = elim (Bool-cases (has_node n.path target)) [
  | inl here ↦ rw (here, deletions, apply_entries)
  | inr gone ↦ rw (gone, deletions, apply_entries)
]

find_node-kept_or_removed :
    (q : List ℕ) (n : SnapshotNode) (b : Option SnapshotNode) (target m : SnapshotManifest)
    → pruned
        (find_node q target)
        b
        (find_node q (if has_node n.path target then m else (remove_node n.path m).0))
      ≡ pruned (find_node q target) (if list_eq n.path q then some n else b) (find_node q m)
unfolding has_node
find_node-kept_or_removed q n b target m = elim (Bool-cases (list_eq n.path q)) [
  | inl here ↦
      let at_q = ap (λ p. find_node p target) (list_eq→eq n.path q here) in
      let removed : find_node q (remove_node n.path m).0 ≡ none =
        find_node-remove_node q n.path m ∙ rw here in
      elim (Option-cases (find_node q target)) [
        | inl absent ↦ rw (ap is_some (at_q ∙ absent), absent, here, removed) (pruned-empty b)
        | inr (t, present) ↦ rw (ap is_some (at_q ∙ present), present)
      ]
  | inr gone ↦
      let kept : find_node q (remove_node n.path m).0 ≡ find_node q m =
        find_node-remove_node q n.path m ∙ rw gone in
      elim (Option-cases (find_node n.path target)) [
        | inl absent ↦ rw (ap is_some absent, gone, kept)
        | inr (t, present) ↦ rw (ap is_some present, gone)
      ]
]

pub find_node-deletions :
    (q : List ℕ) (ns : List SnapshotNode) (target m : SnapshotManifest)
    → find_node q (apply_entries (deletions target ns) m)
      ≡ pruned (find_node q target) (find_in_nodes q ns) (find_node q m)
unfolding find_in_nodes
find_node-deletions q [] target m =
    unfold deletions apply_entries in pruned-none (find_node q target) (find_node q m)
find_node-deletions q (n ∷ ns) target m =
    ap (find_node q) (apply_entries-deletions_step n ns target m)
    ∙ find_node-deletions q ns target _
    ∙ find_node-kept_or_removed q n (find_in_nodes q ns) target m
