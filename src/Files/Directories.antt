-- ===== src/Files/Directories.antt =====
-- What is there after directories are made.
use cli_server_node.Common.{
  ℕ, true, none, List, [], ◌∷◌, Text, text_eq_refl, Option-cases, inl, inr, ◌≡◌, refl, sym, ap, ◌∙◌,
}
use cli_server_node.Files.{
  NodeInfo, FileNode, file, directory, Children, Result, ok, err, get, set, create_dir_node,
  normalize, parts, walk,
}
use cli_server_node.Files.Paths.{parts-normalize}
use cli_server_node.Files.Provider.{resolve, is_directory, placed, make_dirs, made, mkdir_recursive}
use cli_server_node.Files.Written.{get-set, resolve-parts}
use cli_server_node.Files.Untouched.{holds_directory, walk-found, walk_nil}

-- What is made leads to a directory.
abbrev LeadsTo : List Text → Result FileNode → Type 0
LeadsTo ps (err e) = Unit
LeadsTo ps (ok node) = holds_directory (walk node ps) ≡ true

placed-LeadsTo :
    (part : Text) (ps : List Text) (info : NodeInfo) (cs : Children) (r : Result FileNode)
    → LeadsTo ps r
    → LeadsTo (part ∷ ps) (placed part info cs r)
placed-LeadsTo part ps info cs (err e) h = tt
placed-LeadsTo part ps info cs (ok node) h =
    ap holds_directory (
      walk-found part ps info (set part node cs) node
        (get-set part part node cs ∙ rw text_eq_refl refl))
    ∙ h

make_dirs-LeadsTo :
    (now : ℕ) (node : FileNode) (ps : List Text)
    → is_directory node ≡ true
    → LeadsTo ps (make_dirs now node ps)
unfolding make_dirs
make_dirs-LeadsTo now node [] h = ap holds_directory (walk_nil node) ∙ h
make_dirs-LeadsTo now (file info content) (part ∷ ps) h = tt
make_dirs-LeadsTo now (directory info cs) (part ∷ ps) h = elim (Option-cases (get part cs)) [
  | inl e ↦
      rw (e, make_dirs)
        (placed-LeadsTo part ps info cs _
          (make_dirs-LeadsTo now (create_dir_node now part) ps refl))
  | inr (file i content, e) ↦ rw (e, make_dirs) tt
  | inr (directory i ds, e) ↦
      rw (e, make_dirs)
        (placed-LeadsTo part ps info cs _ (make_dirs-LeadsTo now (directory i ds) ps refl))
]

-- Where the root is a directory: if making the directories of a path does not throw, the path leads to a
-- directory.
pub mkdir_recursive_lem :
    (root : FileNode) (p : Text) (now : ℕ)
    → is_directory root ≡ true
    → (mkdir_recursive root p now).1 ≡ none
    → holds_directory (resolve (mkdir_recursive root p now).0 p) ≡ true
unfolding mkdir_recursive
mkdir_recursive_lem root p now h e =
    leads (make_dirs now root (parts (normalize p)))
      (make_dirs-LeadsTo now root (parts (normalize p)) h) e
  where
    leads :
        (r : Result FileNode)
        → LeadsTo (parts (normalize p)) r
        → (made root r).1 ≡ none
        → holds_directory (resolve (made root r).0 p) ≡ true
    leads (err x) l e = absurd (cc)
    leads (ok node) l e =
        ap holds_directory (resolve-parts node p ∙ ap (walk node) (sym (parts-normalize p))) ∙ l
