-- ===== src/Snapshot/Reconstruct.antt =====
-- What applying the delta of two manifests to the first gives.
use nebula_fs.Common.{
  ◌&&◌, ◌==◌, ℕ, ◌≡◌, refl, ap, ◌∙◌, Option, none, some, Bool-cases, inl, inr, List, [], ◌∷◌, ◌++◌,
  if◌then◌else◌, ==_refl,
}
use nebula_fs.Snapshot.Manifest.{
  SnapshotNode, SnapshotManifest, add_node, remove_node, find_in_nodes, find_node, new_manifest,
}
use nebula_fs.Snapshot.Delta.{DeltaAction, DeltaEntry, changes, deletions, differs, compute_delta}
use nebula_fs.Snapshot.Patch.{
  add_all, add_new, default_label, apply_action, apply_entries, apply_patch,
}
use nebula_fs.Snapshot.Lookup.{Distinct}
use nebula_fs.Snapshot.Applied.{
  or_else, or_else-none, find_node-add_all, merged, pruned, find_node-changes, find_node-deletions,
}

apply_entries-append :
    (ds es : List DeltaEntry) (m : SnapshotManifest)
    → apply_entries (ds ++ es) m ≡ apply_entries es (apply_entries ds m)
unfolding apply_entries
apply_entries-append [] es m = refl
apply_entries-append (d ∷ ds) es m = apply_entries-append ds es (apply_action d m)

pub add_all-id : (ns : List SnapshotNode) (m : SnapshotManifest) → (add_all ns m).id ≡ m.id
unfolding add_all add_node
add_all-id [] m = refl
add_all-id (n ∷ ns) m = add_all-id ns (add_node n m)

add_new-id : (o : Option SnapshotNode) (m : SnapshotManifest) → (add_new o m).id ≡ m.id
unfolding add_node
add_new-id none m = refl
add_new-id (some n) m = refl

apply_action-id : (e : DeltaEntry) (m : SnapshotManifest) → (apply_action e m).id ≡ m.id
unfolding apply_action remove_node
apply_action-id e m = elim e.action as (λ a. (apply_action (record e { action = a }) m).id ≡ m.id) [
  | DeltaAction.added ↦ add_new-id e.new_node m
  | DeltaAction.modified ↦ add_new-id e.new_node m
  | DeltaAction.deleted ↦ refl
  | _ ↦ refl
]

apply_entries-id : (es : List DeltaEntry) (m : SnapshotManifest) → (apply_entries es m).id ≡ m.id
unfolding apply_entries
apply_entries-id [] m = refl
apply_entries-id (e ∷ es) m = apply_entries-id es (apply_action e m) ∙ apply_action-id e m

-- What stands at a path when the delta of two manifests was applied to the first.
abbrev pub patched : Option SnapshotNode → Option SnapshotNode → Option SnapshotNode
patched none base = none
patched (some t) none = some t
patched (some t) (some b) = if b.checksum == t.checksum && b.size == t.size then some b else some t

differs-patched :
    (b t : SnapshotNode) → (if differs b t then some t else some b) ≡ patched (some t) (some b)
unfolding differs
differs-patched b t = elim (Bool-cases (b.checksum == t.checksum)) [
  | inl same ↦ elim (Bool-cases (b.size == t.size)) [
    | inl also ↦ rw (same, also)
    | inr other ↦ rw (same, other)
  ]
  | inr other ↦ rw other
]

pruned-patched : (t b : Option SnapshotNode) → pruned t b (merged t b b) ≡ patched t b
pruned-patched none none = refl
pruned-patched none (some b) = refl
pruned-patched (some t) none = refl
pruned-patched (some t) (some b) = differs-patched b t

find_node-rebuilt :
    (q : List ℕ) (base target start : SnapshotManifest)
    → start.nodes ≡ []
    → Distinct base.nodes
    → Distinct target.nodes
    → find_node q (
        apply_entries
          (changes base target.nodes ++ deletions target base.nodes)
          (add_all base.nodes start))
      ≡ patched (find_node q target) (find_node q base)
unfolding find_node find_in_nodes
find_node-rebuilt q base target start fresh bd td =
    let begun = add_all base.nodes start in
    let nothing : find_node q start ≡ none = ap (find_in_nodes q) fresh in
    let first : find_node q begun ≡ find_node q base =
      find_node-add_all q base.nodes start bd
      ∙ ap (or_else (find_node q base)) nothing
      ∙ or_else-none (find_node q base) in
    ap (find_node q)
      (apply_entries-append (changes base target.nodes) (deletions target base.nodes) begun)
    ∙ find_node-deletions q base.nodes target (apply_entries (changes base target.nodes) begun)
    ∙ ap (pruned (find_node q target) (find_node q base)) (
        find_node-changes q target.nodes base begun td
        ∙ ap (merged (find_node q target) (find_node q base)) first)
    ∙ pruned-patched (find_node q target) (find_node q base)

-- Applying the delta of two manifests to the first succeeds and gives a manifest with the second
-- one's id and paths. At a path it has the second one's node, but keeps the first one's node where
-- both have the same checksum and size.
pub apply_patch-compute_delta :
    (now : ℕ) (base target : SnapshotManifest) (label : List ℕ)
    → Distinct base.nodes
    → Distinct target.nodes
    → (m : SnapshotManifest) × (apply_patch now base (compute_delta base target) label ≡ some m)
      × (m.id ≡ target.id)
      × ((q : List ℕ) → find_node q m ≡ patched (find_node q target) (find_node q base))
unfolding apply_patch compute_delta new_manifest
apply_patch-compute_delta now base target label bd td =
    let start = new_manifest now target.id base.id (default_label target.id label) 0 in
    let entries = changes base target.nodes ++ deletions target base.nodes in
    let m = apply_entries entries (add_all base.nodes start) in
    (
      m,
      rw (==_refl base.id),
      apply_entries-id entries (add_all base.nodes start) ∙ add_all-id base.nodes start,
      λ q. find_node-rebuilt q base target start refl bd td,
    )
