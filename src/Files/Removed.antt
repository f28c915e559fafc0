-- ===== src/Files/Removed.antt =====
-- What is there after a node is removed or moved.
use cli_server_node.Common.{
  true, false, Option, none, some, Text, codes, text_eq, is_some, Option-cases, inl, inr, ◌≡◌, refl,
  sym, ap, ◌∙◌, arith,
}
use cli_server_node.Files.{
  NodeInfo, FileNode, file, directory, Children, set, delete, normalize, parent_and_name,
}
use cli_server_node.Files.Provider.{
  resolve, change_at, exists, remove_node, remove, copy_in, copy_node, copy, move_copied, move,
  renamed,
}
use cli_server_node.Files.Written.{
  child_of, parent, name_of, resolve-child_of, child_of-set, child_of-delete, resolve-normalize,
}

-- A path that resolves has a directory as its parent.
parent-directory :
    (root : FileNode) (p : Text) (node : FileNode)
    → text_eq (normalize p) (codes "/") ≡ false
    → resolve root p ≡ some node
    → (info : NodeInfo) × (cs : Children) × (resolve root (parent p) ≡ some (directory info cs))
parent-directory root p node h e =
    directory_of (resolve root (parent p)) refl (sym (resolve-child_of root p h) ∙ e)
  where
    directory_of :
        (o : Option FileNode)
        → resolve root (parent p) ≡ o
        → child_of (name_of p) o ≡ some node
        → (info : NodeInfo) × (cs : Children) × (resolve root (parent p) ≡ some (directory info cs))
    directory_of none q f = absurd (cc)
    directory_of (some (file info content)) q f = absurd (cc)
    directory_of (some (directory info cs)) q f = (info, cs, q)

exists_none : (root : FileNode) (p : Text) → resolve root p ≡ none → exists root p ≡ false
unfolding exists
exists_none root p e = ap is_some (resolve-normalize root p ∙ e)

exists_there :
    (root : FileNode) (p : Text) (node : FileNode)
    → resolve root p ≡ some node
    → exists root p ≡ true
unfolding exists
exists_there root p node e = ap is_some (resolve-normalize root p ∙ e)

exists_some :
    (root : FileNode) (p : Text)
    → exists root p ≡ true
    → (node : FileNode) × (resolve root p ≡ some node)
unfolding exists
exists_some root p e = elim (Option-cases (resolve root p)) [
  | inr q ↦ q
  | inl q ↦
      let no : false ≡ true = sym (ap is_some (resolve-normalize root p ∙ q)) ∙ e in
      absurd (ground (arith, no))
]

remove_node_all :
    (root : FileNode) (n : Text) (o : Option FileNode) (node : FileNode)
    → o ≡ some node
    → remove_node root n true o
      ≡ (change_at root (parent_and_name n).0 (delete (parent_and_name n).1), none)
remove_node_all root n none node e = absurd (cc)
remove_node_all root n (some (file info content)) node e = refl
remove_node_all root n (some (directory info cs)) node e = refl

-- What resolves, other than the root, can be removed with all below it: that does not throw, and the path
-- is gone.
pub exists-remove :
    (root : FileNode) (p : Text)
    → text_eq (normalize p) (codes "/") ≡ false
    → exists root p ≡ true
    → ((remove root p true).1 ≡ none) × (exists (remove root p true).0 p ≡ false)
unfolding remove
exists-remove root p h e =
    let node = exists_some root p e in
    let up = parent-directory root p node.0 h node.1 in
    let done =
      remove_node_all root (normalize p) (resolve root (normalize p)) node.0
        (resolve-normalize root p ∙ node.1) in
    let after : FileNode = change_at root (parent p) (delete (name_of p)) in
    (
      ap (λ v. v.1) done,
      ap (λ v. exists v.0 p) done
          ∙ exists_none after p (
              resolve-child_of after p h
              ∙ child_of-delete root (parent p) (name_of p) up.0 up.1 up.2),
    )

-- A path that exists, other than the root: moving it to itself does not throw, and the path is gone.
pub exists-move_self :
    (root : FileNode) (p : Text)
    → text_eq (normalize p) (codes "/") ≡ false
    → exists root p ≡ true
    → ((move root p p).1 ≡ none) × (exists (move root p p).0 p ≡ false)
unfolding move copy
exists-move_self root p h e =
    let node = exists_some root p e in
    let up = parent-directory root p node.0 h node.1 in
    let copied : FileNode =
      change_at root (parent p) (set (name_of p) (renamed (name_of p) node.0)) in
    let done : copy root p p ≡ (copied, none) =
      ap (copy_node root (normalize p) (normalize p)) (resolve-normalize root p ∙ node.1)
      ∙ ap (copy_in root (parent p) (name_of p) node.0) up.2 in
    let there : exists copied p ≡ true = exists_there copied p (renamed (name_of p) node.0) (
      resolve-child_of copied p h
      ∙ child_of-set root (parent p) (name_of p) (renamed (name_of p) node.0) up.0 up.1 up.2) in
    let removed = exists-remove copied p h there in
    (
      ap (λ v. (move_copied p v).1) done ∙ removed.0,
      ap (λ v. exists (move_copied p v).0 p) done ∙ removed.1,
    )
