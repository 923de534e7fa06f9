-- ===== src/Snapshot/Registry.antt =====
-- The registry of manifests: what its calls keep.
use nebula_fs.Common.{
  ℕ, ◌+◌, ◌%◌, ◌^◌, ◌≤◌, ◌<◌, ◌≡◌, refl, ap, ◌∙◌, none, some, Option-cases, Bool-cases, inl, inr,
  ◌⊎◌, List, [], ◌∷◌, ◌==◌, ==_refl, leb, if◌then◌else◌, All, arith,
}
use nebula_fs.Snapshot.Manifest.{SnapshotNode, SnapshotManifest, new_manifest}
use nebula_fs.Snapshot.Patch.{add_all}
use nebula_fs.Snapshot.Reconstruct.{add_all-id}
use nebula_fs.Snapshot.Wire.Nodes.{add_all-without_nodes}
use nebula_fs.Snapshot.Manager.{
  SnapshotManager, Manifests, Call, step, store, look_up, erase, first_id, create_snapshot,
  register_snapshot, checkout_snapshot, delete_snapshot, get_snapshot, current_snapshot, clear,
}

look_up-store :
    (q id : ℕ) (m : SnapshotManifest) (ms : Manifests)
    → look_up q (store id m ms) ≡ (if id == q then some m else look_up q ms)
unfolding look_up store
look_up-store q id m [] = refl
look_up-store q id m ((k, x) ∷ rest) = ground (arith, look_up-store q id m rest)

look_up-erase :
    (q id : ℕ) (ms : Manifests) → look_up q (erase id ms) ≡ (if id == q then none else look_up q ms)
unfolding look_up erase
look_up-erase q id [] = ground arith
look_up-erase q id ((k, x) ∷ rest) = ground (arith, look_up-erase q id rest)

-- Each manifest stands under its own id, and the ids are below the next one.
abbrev pub IsKeyed : ℕ → ℕ × SnapshotManifest → Type 0
IsKeyed next e = (e.1.id ≡ e.0) × (e.0 < next)

All-IsKeyed-weaken :
    (low high : ℕ) (ms : Manifests) → low ≤ high → All (IsKeyed low) ms → All (IsKeyed high) ms
All-IsKeyed-weaken low high [] h a = tt
All-IsKeyed-weaken low high ((k, x) ∷ rest) h a =
    ((a.0.0, omega arith), All-IsKeyed-weaken low high rest h a.1)

All-IsKeyed-store :
    (next id : ℕ) (m : SnapshotManifest) (ms : Manifests)
    → IsKeyed next (id, m)
    → All (IsKeyed next) ms
    → All (IsKeyed next) (store id m ms)
unfolding store
All-IsKeyed-store next id m [] one a = (one, tt)
All-IsKeyed-store next id m ((k, x) ∷ rest) one a = elim (Bool-cases (k == id)) [
  | inl same ↦ rw same (one, a.1)
  | inr other ↦ rw other (a.0, All-IsKeyed-store next id m rest one a.1)
]

All-IsKeyed-erase :
    (next id : ℕ) (ms : Manifests) → All (IsKeyed next) ms → All (IsKeyed next) (erase id ms)
unfolding erase
All-IsKeyed-erase next id [] a = tt
All-IsKeyed-erase next id ((k, x) ∷ rest) a = elim (Bool-cases (k == id)) [
  | inl same ↦ rw same (All-IsKeyed-erase next id rest a.1)
  | inr other ↦ rw other (a.0, All-IsKeyed-erase next id rest a.1)
]

-- No snapshot is current, or one that is there.
abbrev pub IsCurrent : ℕ → Manifests → Type 0
IsCurrent id ms = (id ≡ 0) ⊎ ((m : SnapshotManifest) × (look_up id ms ≡ some m))

pub record IsConsistent (s : SnapshotManager) : Type 0 where
  pub keyed : All (IsKeyed s.next_snapshot_id) s.manifests
  pub current : IsCurrent s.current_snapshot_id s.manifests

-- The next id does not wrap.
abbrev pub Fits : Call → SnapshotManager → Type 0
Fits (Call.creates now label nodes) s = s.next_snapshot_id + 1 < 2 ^ 64
Fits (Call.registers manifest) s = manifest.id + 1 < 2 ^ 64
Fits _ s = Unit {0}

IsCurrent-store : (id : ℕ) (m : SnapshotManifest) (ms : Manifests) → IsCurrent id (store id m ms)
IsCurrent-store id m ms = inr (m, look_up-store id id m ms ∙ rw (==_refl id))

IsCurrent-first_id : (ms : Manifests) → IsCurrent (first_id ms) ms
unfolding look_up
IsCurrent-first_id [] = inl refl
IsCurrent-first_id ((k, x) ∷ rest) = inr (x, rw (==_refl k))

created-id :
    (now : ℕ) (label : List ℕ) (nodes : List SnapshotNode) (s : SnapshotManager)
    → (add_all nodes (new_manifest now s.next_snapshot_id s.current_snapshot_id label 0)).id
      ≡ s.next_snapshot_id
created-id now label nodes s = unfold new_manifest in add_all-id nodes _

create_snapshot-IsConsistent :
    (now : ℕ) (label : List ℕ) (nodes : List SnapshotNode) (s : SnapshotManager)
    → s.next_snapshot_id + 1 < 2 ^ 64
    → IsConsistent s
    → IsConsistent (create_snapshot now label nodes s).0
unfolding create_snapshot
create_snapshot-IsConsistent now label nodes s fits c =
    let next : (s.next_snapshot_id + 1) % 2 ^ 64 ≡ s.next_snapshot_id + 1 = omega arith in
    record {
      keyed = rw next (
          All-IsKeyed-store (s.next_snapshot_id + 1) s.next_snapshot_id _ s.manifests
            (created-id now label nodes s, omega arith)
            (All-IsKeyed-weaken s.next_snapshot_id (s.next_snapshot_id + 1) s.manifests
              (omega arith) c.keyed));
      current = IsCurrent-store s.next_snapshot_id _ s.manifests;
    }

register_snapshot-IsConsistent :
    (manifest : SnapshotManifest) (s : SnapshotManager)
    → manifest.id + 1 < 2 ^ 64
    → IsConsistent s
    → IsConsistent (register_snapshot manifest s).0
unfolding register_snapshot
register_snapshot-IsConsistent manifest s fits c =
    elim (Option-cases (look_up manifest.id s.manifests)) [
      | inr (m, present) ↦ rw (present, register_snapshot) c
      | inl absent ↦
          let next =
            if leb s.next_snapshot_id manifest.id
            then (manifest.id + 1) % 2 ^ 64
            else s.next_snapshot_id in
          let more : s.next_snapshot_id ≤ next = ground arith in
          let above : manifest.id < next = ground arith in
          rw (absent, register_snapshot)
            (record {
              keyed =
                  All-IsKeyed-store next manifest.id manifest s.manifests (refl, above)
                    (All-IsKeyed-weaken s.next_snapshot_id next s.manifests more c.keyed);
              current = IsCurrent-store manifest.id manifest s.manifests;
            })
    ]

delete_snapshot-IsConsistent :
    (id : ℕ) (s : SnapshotManager) → IsConsistent s → IsConsistent (delete_snapshot id s).0
unfolding delete_snapshot
delete_snapshot-IsConsistent id s c = elim (Option-cases (look_up id s.manifests)) [
  | inl absent ↦ rw (absent, delete_snapshot) c
  | inr (m, present) ↦
      rw (present, delete_snapshot)
        (record {
          keyed = All-IsKeyed-erase s.next_snapshot_id id s.manifests c.keyed;
          current = elim (Bool-cases (s.current_snapshot_id == id)) [
            | inl same ↦ rw same (IsCurrent-first_id (erase id s.manifests))
            | inr other ↦ rw other (elim c.current [
              | inl nothing ↦ inl nothing
              | inr (x, found) ↦
                  inr
                    (x, look_up-erase s.current_snapshot_id id s.manifests ∙ ground (arith, found))
            ])
          ];
        })
]

checkout_snapshot-IsConsistent :
    (id : ℕ) (s : SnapshotManager) → IsConsistent s → IsConsistent (checkout_snapshot id s).0
unfolding checkout_snapshot
checkout_snapshot-IsConsistent id s c = elim (Option-cases (look_up id s.manifests)) [
  | inl absent ↦ rw (absent, checkout_snapshot) c
  | inr (m, present) ↦
      rw (present, checkout_snapshot) (record { keyed = c.keyed; current = inr (m, present) })
]

-- Every call that changes the manager keeps each manifest under its own id, below the next id, and
-- the current snapshot among them, as long as the next id does not wrap.
pub step-IsConsistent :
    (c : Call) (s : SnapshotManager) → Fits c s → IsConsistent s → IsConsistent (step c s)
unfolding step clear
step-IsConsistent (Call.creates now label nodes) s fits c =
    create_snapshot-IsConsistent now label nodes s fits c
step-IsConsistent (Call.registers manifest) s fits c =
    register_snapshot-IsConsistent manifest s fits c
step-IsConsistent (Call.checks_out id) s fits c = checkout_snapshot-IsConsistent id s c
step-IsConsistent (Call.deletes id) s fits c = delete_snapshot-IsConsistent id s c
step-IsConsistent Call.clears s fits c = record { keyed = tt; current = inl refl }

look_up_fresh : (next : ℕ) (ms : Manifests) → All (IsKeyed next) ms → look_up next ms ≡ none
unfolding look_up
look_up_fresh next [] a = refl
look_up_fresh next ((k, x) ∷ rest) a = ground (arith, a.0.1, look_up_fresh next rest a.1)

-- In a consistent manager `createSnapshot` answers an id that no snapshot had. There it keeps a
-- manifest of that id whose parent is the snapshot that was current, which is now the current one;
-- every other snapshot is found as before.
pub create_snapshot-fresh :
    (now : ℕ) (label : List ℕ) (nodes : List SnapshotNode) (s : SnapshotManager)
    → IsConsistent s
    → let (s', id) = create_snapshot now label nodes s in
      (m : SnapshotManifest) × (get_snapshot id s ≡ none)
      × (m.id ≡ id)
      × (m.parent_id ≡ s.current_snapshot_id)
      × (current_snapshot s' ≡ some m)
      × ((q : ℕ) → get_snapshot q s' ≡ (if id == q then some m else get_snapshot q s))
unfolding create_snapshot get_snapshot current_snapshot new_manifest
create_snapshot-fresh now label nodes s c =
    let id = s.next_snapshot_id in
    let start = new_manifest now id s.current_snapshot_id label 0 in
    let made = add_all nodes start in
    let head = add_all-without_nodes nodes start in
    (
      made,
      look_up_fresh id s.manifests c.keyed,
      ap (λ (k : SnapshotManifest). k.id) head,
      ap (λ (k : SnapshotManifest). k.parent_id) head,
      look_up-store id id made s.manifests ∙ rw (==_refl id),
      λ q. look_up-store q id made s.manifests,
    )
