-- ===== src/Files/Tests.antt =====
-- Runs of the file provider, and instances of its theorems.
use cli_server_node.Common.{
  true, false, none, [], codes, text_eq, starts_with, split_on, split_on_from, ◌≡◌, refl, ap,
  length, arith,
}
use cli_server_node.Files.{
  FileNode, ok, err, is_a_directory, get, set, delete, byte_length, utf8_length, create_dir_node,
  collapse, strip, normalize, split_last, parent_and_name, parts, walk,
}
use cli_server_node.Files.Provider.{
  resolve, update, read_file, stat, exists, write_file, make_dirs, mkdir_recursive, mkdir,
  mkdir_recursive, remove, copy, move,
}
use cli_server_node.Files.Written.{read_file-write_file}
use cli_server_node.Files.Untouched.{holds_directory, read_file-write_file_other}
use cli_server_node.Files.Directories.{mkdir_recursive_lem}
use cli_server_node.Files.Removed.{exists-remove, exists-move_self}

runs : Unit {0}
unfolding text_eq starts_with split_on split_on_from get set delete byte_length utf8_length collapse
    strip normalize split_last parent_and_name parts walk resolve update read_file stat exists
    write_file mkdir make_dirs mkdir_recursive remove copy move
runs = tt

abbrev home : FileNode
home = (mkdir (create_dir_node 0 []) (codes "//home/") 1).0

abbrev notes : FileNode
notes = (write_file home (codes "home/notes") (codes "hi") 2).0

read_test : read_file notes (codes "/home//notes/") ≡ ok (codes "hi")
unfolding runs
read_test = refl

move_test :
    read_file (move notes (codes "/home/notes") (codes "/b")).0 (codes "/b") ≡ ok (codes "hi")
unfolding runs
move_test = refl

-- A file that is written to the root gets an empty name.
root_test :
    ((write_file home (codes "/") (codes "x") 3).1 ≡ none)
    × (read_file (write_file home (codes "/") (codes "x") 3).0 (codes "/")
        ≡ err (is_a_directory (codes "/")))
unfolding runs
root_test = (refl, refl)

read_file-write_file_example :
    read_file (write_file home (codes "home/notes") (codes "hi") 2).0 (codes "home/notes")
    ≡ ok (codes "hi")
unfolding runs
read_file-write_file_example =
    read_file-write_file home (codes "home/notes") (codes "hi") 2 refl refl

read_file-write_file_other_example :
    read_file (write_file notes (codes "/other") (codes "x") 3).0 (codes "/home/notes")
    ≡ read_file notes (codes "/home/notes")
unfolding runs
read_file-write_file_other_example =
    read_file-write_file_other notes (codes "/other") (codes "/home/notes") (codes "x") 3 refl
      (λ e. omega (arith, ap length e))

mkdir_recursive_lem_example :
    holds_directory (resolve (mkdir_recursive home (codes "home/a/b") 4).0 (codes "home/a/b"))
    ≡ true
unfolding runs
mkdir_recursive_lem_example = mkdir_recursive_lem home (codes "home/a/b") 4 refl refl

exists-remove_example :
    ((remove notes (codes "/home") true).1 ≡ none)
    × (exists (remove notes (codes "/home") true).0 (codes "/home") ≡ false)
unfolding runs
exists-remove_example = exists-remove notes (codes "/home") refl refl

exists-move_self_example :
    ((move notes (codes "/home/notes") (codes "/home/notes")).1 ≡ none)
    × (exists (move notes (codes "/home/notes") (codes "/home/notes")).0 (codes "/home/notes")
        ≡ false)
unfolding runs
exists-move_self_example = exists-move_self notes (codes "/home/notes") refl refl
