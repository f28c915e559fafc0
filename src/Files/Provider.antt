-- ===== src/Files/Provider.antt =====
-- The operations of InMemoryFileStorageProvider. A node is a value, so that a deep copy of it is itself;
-- an operation that writes returns the tree it leaves, and an error if it throws one.
use cli_server_node.Common.{
  ℕ, Bool, true, false, not, ◌&&◌, Option, none, some, List, [], ◌∷◌, Text, codes, text_eq,
  if◌then◌else◌, is_some,
}
use cli_server_node.Files.{
  NodeInfo, FileNode, file, directory, Children, FileError, file_not_found, is_a_directory,
  not_a_directory, file_exists, Result, ok, err, get, set, delete, byte_length, create_dir_node,
  create_file_node, normalize, parent_and_name, parts, walk,
}

unfoldable pub resolve : FileNode → Text → Option FileNode
resolve root p =
    let n = normalize p in if text_eq n (codes "/") then some root else walk root (parts n)

-- The change of the children of the directory that `resolve` finds.
unfoldable pub update : List Text → (Children → Children) → FileNode → FileNode
update ps f (file info content) = file info content
update [] f (directory info cs) = directory info (f cs)
update (part ∷ ps) f (directory info cs) = elim (get part cs) [
  | none ↦ directory info cs
  | some node ↦ directory info (set part (update ps f node) cs)
]

abbrev pub change_at : FileNode → Text → (Children → Children) → FileNode
change_at root p f = update (parts (normalize p)) f root

abbrev pub content_of : Text → Option FileNode → Result Text
content_of n none = err (file_not_found n)
content_of n (some (directory info cs)) = err (is_a_directory n)
content_of n (some (file info content)) = ok content

unfoldable pub read_file : FileNode → Text → Result Text
read_file root p = let n = normalize p in content_of n (resolve root n)

abbrev pub info_of : FileNode → NodeInfo
info_of (file info content) = info
info_of (directory info cs) = info

-- `stat`, whose fields are those of the node; a file is told from a directory by the second part.
abbrev pub is_directory : FileNode → Bool
is_directory (file info content) = false
is_directory (directory info cs) = true

unfoldable pub stat : FileNode → Text → Result (NodeInfo × Bool)
stat root p =
    let n = normalize p in
    elim (resolve root n) [
      | none ↦ err (file_not_found n)
      | some node ↦ ok (info_of node, is_directory node)
    ]

unfoldable pub exists : FileNode → Text → Bool
exists root p = is_some (resolve root (normalize p))

-- The tree that an operation leaves, with what it throws.
abbrev pub Written : Type 0
Written = FileNode × Option FileError

-- `writeFile` in the children of the parent, at the node of that name.
abbrev pub write_node : FileNode → Text → Text → Text → Text → ℕ → Option FileNode → Written
write_node root parent name n content now none =
    (change_at root parent (set name (create_file_node now name content)), none)
write_node root parent name n content now (some (directory info cs)) =
    (root, some (is_a_directory n))
write_node root parent name n content now (some (file info old)) = (
  change_at root parent
      (set name (file (record info { size = byte_length content; modified_at = now }) content)),
  none,
)

abbrev pub write_in : FileNode → Text → Text → Text → Text → ℕ → Option FileNode → Written
write_in root parent name n content now none = (root, some (file_not_found parent))
write_in root parent name n content now (some (file info old)) =
    (root, some (not_a_directory parent))
write_in root parent name n content now (some (directory info cs)) =
    write_node root parent name n content now (get name cs)

unfoldable pub write_file : FileNode → Text → Text → ℕ → Written
write_file root p content now =
    let n = normalize p in
    let place = parent_and_name n in
    write_in root place.0 place.1 n content now (resolve root place.0)

abbrev pub mkdir_in : FileNode → Text → Text → Text → ℕ → Option FileNode → Written
mkdir_in root parent name n now none = (root, some (file_not_found parent))
mkdir_in root parent name n now (some (file info old)) = (root, some (not_a_directory parent))
mkdir_in root parent name n now (some (directory info cs)) =
    if is_some (get name cs)
    then (root, some (file_exists n))
    else (change_at root parent (set name (create_dir_node now name)), none)

-- The directory with what became of a child.
abbrev pub placed : Text → NodeInfo → Children → Result FileNode → Result FileNode
placed part info cs (err e) = err e
placed part info cs (ok node) = ok (directory info (set part node cs))

-- `mkdir` with `recursive`, from a node on. A tree with an error is left as it was: nothing is created
-- before what exists of the path is passed.
unfoldable pub make_dirs : ℕ → FileNode → List Text → Result FileNode
make_dirs now node [] = ok node
make_dirs now (file info content) (part ∷ ps) = err (not_a_directory part)
make_dirs now (directory info cs) (part ∷ ps) = elim (get part cs) [
  | none ↦ placed part info cs (make_dirs now (create_dir_node now part) ps)
  | some node ↦ elim node [
    | file i content ↦ err (file_exists part)
    | directory i ds ↦ placed part info cs (make_dirs now (directory i ds) ps)
  ]
]

abbrev pub made : FileNode → Result FileNode → Written
made root (err e) = (root, some e)
made root (ok root') = (root', none)

unfoldable pub mkdir_recursive : FileNode → Text → ℕ → Written
mkdir_recursive root p now = made root (make_dirs now root (parts (normalize p)))

unfoldable pub mkdir : FileNode → Text → ℕ → Written
mkdir root p now =
    let n = normalize p in
    let place = parent_and_name n in mkdir_in root place.0 place.1 n now (resolve root place.0)

abbrev pub remove_node : FileNode → Text → Bool → Option FileNode → Written
remove_node root n recursive none = (root, some (file_not_found n))
remove_node root n recursive (some node) =
    let place = parent_and_name n in
    if is_directory node && not recursive
    then (root, some (is_a_directory n))
    else (change_at root place.0 (delete place.1), none)

unfoldable pub remove : FileNode → Text → Bool → Written
remove root p recursive = let n = normalize p in remove_node root n recursive (resolve root n)

abbrev pub renamed : Text → FileNode → FileNode
renamed name (file info content) = file (record info { name = name }) content
renamed name (directory info cs) = directory (record info { name = name }) cs

abbrev pub copy_in : FileNode → Text → Text → FileNode → Option FileNode → Written
copy_in root parent name node none = (root, some (file_not_found parent))
copy_in root parent name node (some (file info old)) = (root, some (not_a_directory parent))
copy_in root parent name node (some (directory info cs)) =
    (change_at root parent (set name (renamed name node)), none)

abbrev pub copy_node : FileNode → Text → Text → Option FileNode → Written
copy_node root src dest none = (root, some (file_not_found src))
copy_node root src dest (some node) =
    let place = parent_and_name dest in copy_in root place.0 place.1 node (resolve root place.0)

unfoldable pub copy : FileNode → Text → Text → Written
copy root src dest = copy_node root (normalize src) (normalize dest) (resolve root (normalize src))

abbrev pub move_copied : Text → Written → Written
move_copied src (root, some e) = (root, some e)
move_copied src (root, none) = remove root src true

unfoldable pub move : FileNode → Text → Text → Written
move root src dest = move_copied src (copy root src dest)
