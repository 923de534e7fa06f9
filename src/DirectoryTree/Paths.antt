-- ===== src/DirectoryTree/Paths.antt =====
-- `splitPath` and `normalizePath` of src/filesystem/DirectoryTree.cpp.
use nebula_fs.Common.{
  ℕ, ◌≡◌, refl, sym, ap, ◌∙◌, true, false, Bool-cases, inl, inr, ◌⊎◌, List, [], ◌∷◌, ◌++◌,
  append-nil, ◌==◌, list_eq, list_eq→eq, All,
}
use nebula_fs.DirectoryTree.{
  DirectoryTree, slash, push, fields, is_part, keep_parts, split_path, join_parts, rooted,
  normalize_path, is_root, descend, find,
}
use nebula_fs.DirectoryTree.Lookup.{find_below}

abbrev NoSlash : List ℕ → Type 0
NoSlash part = All (λ c. (c == slash) ≡ false) part

fields-append :
    (part rest field : List ℕ) (others : List (List ℕ))
    → NoSlash part
    → fields rest ≡ field ∷ others
    → fields (part ++ rest) ≡ (part ++ field) ∷ others
unfolding fields
fields-append [] rest field others none_there h = h
fields-append (c ∷ part) rest field others none_there h =
    rw none_there.0 (ap (push c) (fields-append part rest field others none_there.1 h))

fields-join_parts :
    (parts : List (List ℕ)) → All NoSlash parts → fields (join_parts parts) ≡ [] ∷ parts
unfolding fields join_parts
fields-join_parts [] h = refl
fields-join_parts (part ∷ parts) h =
    ap (λ t. [] ∷ t)
      (fields-append part (join_parts parts) [] parts h.0 (fields-join_parts parts h.1)
        ∙ ap (λ t. t ∷ parts) (append-nil part))

push-NoSlash :
    (c : ℕ) (parts : List (List ℕ))
    → (c == slash) ≡ false
    → All NoSlash parts
    → All NoSlash (push c parts)
push-NoSlash c [] h hs = ((h, tt), tt)
push-NoSlash c (part ∷ parts) h hs = ((h, hs.0), hs.1)

fields-NoSlash : (path : List ℕ) → All NoSlash (fields path)
unfolding fields
fields-NoSlash [] = (tt, tt)
fields-NoSlash (c ∷ cs) = elim (Bool-cases (c == slash)) [
  | inl cut ↦ rw cut (tt, fields-NoSlash cs)
  | inr other ↦ rw other (push-NoSlash c (fields cs) other (fields-NoSlash cs))
]

keep_parts-NoSlash : (parts : List (List ℕ)) → All NoSlash parts → All NoSlash (keep_parts parts)
keep_parts-NoSlash [] h = tt
keep_parts-NoSlash (part ∷ parts) h = elim (Bool-cases (is_part part)) [
  | inl kept ↦ rw kept (h.0, keep_parts-NoSlash parts h.1)
  | inr dropped ↦ rw dropped (keep_parts-NoSlash parts h.1)
]

keep_parts-keep_parts : (parts : List (List ℕ)) → keep_parts (keep_parts parts) ≡ keep_parts parts
keep_parts-keep_parts [] = refl
keep_parts-keep_parts (part ∷ parts) = elim (Bool-cases (is_part part)) [
  | inl kept ↦ rw (kept, kept) (ap (λ t. part ∷ t) (keep_parts-keep_parts parts))
  | inr dropped ↦ rw dropped (keep_parts-keep_parts parts)
]

split_path-rooted :
    (parts : List (List ℕ))
    → All NoSlash parts
    → keep_parts parts ≡ parts
    → split_path (rooted parts) ≡ parts
unfolding split_path
split_path-rooted [] h same = unfold fields in refl
split_path-rooted (part ∷ parts) h same = ap keep_parts (fields-join_parts (part ∷ parts) h) ∙ same

split_path-normalize_path : (path : List ℕ) → split_path (normalize_path path) ≡ split_path path
unfolding normalize_path split_path
split_path-normalize_path path =
    split_path-rooted (split_path path) (keep_parts-NoSlash (fields path) (fields-NoSlash path))
      (keep_parts-keep_parts (fields path))

root_path : (path : List ℕ) → is_root path ≡ true → (path ≡ []) ⊎ (path ≡ slash ∷ [])
root_path path root = elim (Bool-cases (list_eq path [])) [
  | inl empty ↦ inl (list_eq→eq path [] empty)
  | inr other ↦ inr (list_eq→eq path (slash ∷ []) (rw other at root))
]

-- The test for the root is no exception: it is the path of no parts.
find-descend : (path : List ℕ) (t : DirectoryTree) → find path t ≡ descend (split_path path) t.root
find-descend path t = elim (Bool-cases (is_root path)) [
  | inr below ↦ find_below path t below
  | inl root ↦ elim (root_path path root) [
    | inl empty ↦ rw empty (unfold find descend split_path fields in refl)
    | inr only ↦ rw only (unfold find descend split_path fields in refl)
  ]
]

-- A path and its normal form have the same parts, and lead to the same node of every tree.
pub find-normalize_path :
    (path : List ℕ) (t : DirectoryTree)
    → (split_path (normalize_path path) ≡ split_path path)
      × (find (normalize_path path) t ≡ find path t)
find-normalize_path path t =
    let same = split_path-normalize_path path in
    (
      same,
      find-descend (normalize_path path) t
          ∙ ap (λ parts. descend parts t.root) same
          ∙ sym (find-descend path t),
    )
