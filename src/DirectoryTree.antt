-- ===== src/DirectoryTree.antt =====
-- src/filesystem/DirectoryTree.cpp, with DirectoryNode and ArchiveEntry of include/nebula/Types.hpp:
-- the directories of an archive. A string is the list of its bytes; times and permissions are
-- numbers.
pub mod Wire
pub mod Below
pub mod Lookup
pub mod Paths
pub mod Count
pub mod Removal
mod Tests
use nebula_fs.Common.{
  ℕ, zero, suc, ◌+◌, ◌-◌, ◌%◌, ◌^◌, Bool, true, false, not, ◌&&◌, ◌||◌, Option, none, some, List,
  [], ◌∷◌, ◌++◌, ◌==◌, if◌then◌else◌, list_eq, length,
}
use mathlib.Core.Option

pub data EntryType : Type 0 where
  file directory symlink hardlink block reserved : EntryType

-- The fields of an entry that the tree reads.
pub record ArchiveEntry : Type 0 where
  pub id : ℕ
  pub type : EntryType
  pub path : List ℕ
  pub modified_at : ℕ
  pub permissions : ℕ

-- A node without its children.
pub record NodeInfo : Type 0 where
  pub name : List ℕ
  pub id : ℕ
  pub parent_id : ℕ
  pub files : List ℕ
  pub modified_at : ℕ
  pub permissions : ℕ

mutual
  pub data DirectoryNode : Type 0 where
    node : NodeInfo → Children → DirectoryNode

  pub data Children : Type 0 where
    childless : Children
    child : DirectoryNode → Children → Children

pub record DirectoryTree : Type 0 where
  pub root : DirectoryNode
  pub node_count : ℕ

abbrev pub info : DirectoryNode → NodeInfo
info (node i cs) = i

abbrev pub children : DirectoryNode → Children
children (node i cs) = cs

-- "rw-r--r--"
abbrev pub default_permissions : ℕ
default_permissions = 420

abbrev pub new_info : NodeInfo
new_info = record {
  name = [];
  id = 0;
  parent_id = 0;
  files = [];
  modified_at = 0;
  permissions = default_permissions;
}

abbrev pub slash : ℕ
slash = 47

abbrev pub dot : ℕ
dot = 46

-- A byte in front of the first field.
abbrev pub push : ℕ → List (List ℕ) → List (List ℕ)
push c [] = (c ∷ []) ∷ []
push c (field ∷ fields) = (c ∷ field) ∷ fields

-- What `std::getline(stream, part, '/')` reads; an empty field at the end is none there.
unfoldable pub fields : List ℕ → List (List ℕ)
fields [] = [] ∷ []
fields (c ∷ cs) = let rest = fields cs in if c == slash then [] ∷ rest else push c rest

-- `!part.empty() && part != "." && part != ".."`
abbrev pub is_part : List ℕ → Bool
is_part part =
    not (list_eq part []) && (not (list_eq part (dot ∷ [])) && not (list_eq part (dot ∷ dot ∷ [])))

abbrev pub keep_parts : List (List ℕ) → List (List ℕ)
keep_parts [] = []
keep_parts (part ∷ parts) =
    let rest = keep_parts parts in if is_part part then part ∷ rest else rest

unfoldable pub split_path : List ℕ → List (List ℕ)
unfolding fields
split_path path = keep_parts (fields path)

-- `result += "/" + part` for every part.
unfoldable pub join_parts : List (List ℕ) → List ℕ
join_parts [] = []
join_parts (part ∷ parts) = (slash ∷ part) ++ join_parts parts

abbrev pub rooted : List (List ℕ) → List ℕ
rooted [] = slash ∷ []
rooted (part ∷ parts) = join_parts (part ∷ parts)

unfoldable pub normalize_path : List ℕ → List ℕ
unfolding split_path join_parts
normalize_path path = rooted (split_path path)

unfoldable pub path_depth : List ℕ → ℕ
unfolding split_path
path_depth path = length (split_path path)

-- `path.empty() || path == "/"`
abbrev pub is_root : List ℕ → Bool
is_root path = list_eq path [] || list_eq path (slash ∷ [])

-- The first child of a name.
unfoldable pub find_child : List ℕ → Children → Option DirectoryNode
find_child name childless = none
find_child name (child n cs) =
    let later = find_child name cs in if list_eq (info n).name name then some n else later

-- The loop of `find`.
unfoldable pub descend : List (List ℕ) → DirectoryNode → Option DirectoryNode
unfolding find_child
descend [] n = some n
descend (part ∷ parts) n = Option.bind (find_child part (children n)) (λ c. descend parts c)

unfoldable pub find : List ℕ → DirectoryTree → Option DirectoryNode
unfolding split_path descend
find path t = if is_root path then some t.root else descend (split_path path) t.root

unfoldable pub exists : List ℕ → DirectoryTree → Bool
unfolding find
exists path t = elim (find path t) [ none ↦ false | some n ↦ true ]

abbrev pub ids : Children → List ℕ
ids childless = []
ids (child n cs) = (info n).id ∷ ids cs

unfoldable pub list_directory : List ℕ → DirectoryTree → List ℕ
unfolding find
list_directory path t = elim (find path t) [ none ↦ [] | some n ↦ ids (children n) ]

unfoldable mutual
  pub collect_entries : DirectoryNode → List ℕ
  collect_entries (node i cs) = i.id ∷ collect_below cs

  pub collect_below : Children → List ℕ
  collect_below childless = []
  collect_below (child n cs) = collect_entries n ++ collect_below cs

unfoldable pub get_all_entries : DirectoryTree → List ℕ
unfolding collect_entries
get_all_entries t = collect_entries t.root

-- `children.push_back`
abbrev pub push_child : Children → DirectoryNode → Children
push_child childless c = child c childless
push_child (child n cs) c = child n (push_child cs c)

-- The first child of a name is changed in its place.
abbrev pub change_child : List ℕ → (DirectoryNode → DirectoryNode) → Children → Children
change_child name f childless = childless
change_child name f (child n cs) =
    let later = change_child name f cs in
    if list_eq (info n).name name then child (f n) cs else child n later

-- The node of the entry, under `current`.
abbrev pub entry_node : ArchiveEntry → List ℕ → NodeInfo → DirectoryNode
entry_node entry part current =
    node
      (record {
        name = part;
        id = entry.id;
        parent_id = current.id;
        files = [];
        modified_at = entry.modified_at;
        permissions = entry.permissions;
      })
      childless

-- A directory of the path that is not there.
abbrev pub middle_node : ArchiveEntry → List ℕ → NodeInfo → DirectoryNode
middle_node entry part current =
    node (record new_info { name = part; id = (entry.id + 1) % 2 ^ 64; parent_id = current.id })
      childless

abbrev pub is_directory : EntryType → Bool
is_directory EntryType.directory = true
is_directory _ = false

-- The loop of `insert`, from the node at hand.
unfoldable pub insert_at : ArchiveEntry → List (List ℕ) → DirectoryNode → DirectoryNode
unfolding find_child
insert_at entry [] n = n
insert_at entry (part ∷ []) (node i cs) =
    let files = if is_directory entry.type then i.files else i.files ++ (entry.id ∷ []) in
    node (record i { files = files }) (push_child cs (entry_node entry part i))
insert_at entry (part ∷ next ∷ parts) (node i cs) =
    let made = insert_at entry (next ∷ parts) (middle_node entry part i) in
    let changed = change_child part (λ c. insert_at entry (next ∷ parts) c) cs in
    node i (elim (find_child part cs) [ none ↦ push_child cs made | some c ↦ changed ])

-- How often that loop counts a node.
unfoldable pub count_new : ArchiveEntry → List (List ℕ) → DirectoryNode → ℕ
unfolding find_child
count_new entry [] n = 0
count_new entry (part ∷ []) n = 1
count_new entry (part ∷ next ∷ parts) n =
    let made = count_new entry (next ∷ parts) (middle_node entry part (info n)) in
    elim (find_child part (children n)) [
      | none ↦ 1 + made
      | some c ↦ count_new entry (next ∷ parts) c
    ]

abbrev pub is_stored_at_root : EntryType → Bool
is_stored_at_root EntryType.file = true
is_stored_at_root EntryType.block = true
is_stored_at_root _ = false

abbrev pub rename_root : ArchiveEntry → DirectoryNode → DirectoryNode
rename_root entry (node i cs) =
    node
      (record {
        name = slash ∷ [];
        id = entry.id;
        parent_id = 0;
        files = if is_stored_at_root entry.type then i.files ++ (entry.id ∷ []) else i.files;
        modified_at = entry.modified_at;
        permissions = entry.permissions;
      })
      cs

-- The tree, and whether the path was good.
abbrev pub insert_parts : ArchiveEntry → List (List ℕ) → DirectoryTree → DirectoryTree × Bool
insert_parts entry [] t = (t, false)
insert_parts entry (part ∷ parts) t = (
  record {
    root = insert_at entry (part ∷ parts) t.root;
    node_count = (t.node_count + count_new entry (part ∷ parts) t.root) % 2 ^ 64;
  },
  true,
)

unfoldable pub insert : ArchiveEntry → DirectoryTree → DirectoryTree × Bool
unfolding split_path insert_at count_new
insert entry t =
    if is_root entry.path
    then (record { root = rename_root entry t.root; node_count = 1 }, true)
    else insert_parts entry (split_path entry.path) t

-- False stands for `NotImplemented`.
unfoldable pub insert_node : DirectoryNode → DirectoryTree → DirectoryTree × Bool
insert_node n t =
    if ((info n).parent_id == 0) || list_eq (info n).name (slash ∷ [])
    then (record { root = n; node_count = 1 }, true)
    else (t, false)

abbrev pub erase_child : List ℕ → Children → Children
erase_child name childless = childless
erase_child name (child n cs) =
    let later = erase_child name cs in if list_eq (info n).name name then cs else child n later

-- The first of the files with the id.
abbrev pub erase_file : ℕ → List ℕ → List ℕ
erase_file id [] = []
erase_file id (f ∷ fs) = let later = erase_file id fs in if f == id then fs else f ∷ later

-- The loops of `remove`; none where it returns false.
unfoldable pub remove_at : List (List ℕ) → DirectoryNode → Option DirectoryNode
unfolding find_child
remove_at [] n = none
remove_at (part ∷ []) (node i cs) =
    Option.map
      (λ c. node (record i { files = erase_file (info c).id i.files }) (erase_child part cs))
      (find_child part cs)
remove_at (part ∷ next ∷ parts) (node i cs) =
    Option.bind (find_child part cs)
      (λ c. Option.map (λ c'. node i (change_child part (λ _. c') cs)) (remove_at (next ∷ parts) c))

unfoldable pub clear : DirectoryTree → DirectoryTree
clear t = record { root = node (record new_info { name = slash ∷ [] }) childless; node_count = 0 }

unfoldable pub remove : List ℕ → DirectoryTree → DirectoryTree × Bool
unfolding split_path remove_at clear
remove path t =
    if is_root path then (clear t, true) else elim (remove_at (split_path path) t.root) [
      | none ↦ (t, false)
      | some root ↦
          (record { root = root; node_count = (t.node_count + 2 ^ 64 - 1) % 2 ^ 64 }, true)
    ]
