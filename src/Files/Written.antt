-- ===== src/Files/Written.antt =====
-- What is read after a file is written or moved.
use cli_server_node.Common.{
  ℕ, true, false, Option, none, some, List, [], ◌∷◌, ◌++◌, Text, codes, text_eq, text_eq_iff,
  text_eq_refl, starts_with, split_on, split_on_from, if◌then◌else◌, Bool-cases, Option-cases, inl,
  inr, ◌≡◌, refl, sym, ap, ◌∙◌, arith,
}
use cli_server_node.Files.{
  NodeInfo, FileNode, file, directory, Children, no_child, child, ok, get, set, delete, byte_length,
  create_file_node, normalize, parent_and_name, parts, walk, strip, collapse,
}
use cli_server_node.Files.Paths.{parts-normalize, parts-parent_and_name, normalize_ends}
use cli_server_node.Files.Provider.{
  resolve, update, change_at, content_of, read_file, write_node, write_in, write_file,
}

pub get-set :
    (j k : Text) (v : FileNode) (cs : Children)
    → get j (set k v cs) ≡ (if text_eq k j then some v else get j cs)
unfolding get set
get-set j k v no_child = refl
get-set j k v (child i w cs) =
    ground (arith, text_eq_iff k j, text_eq_iff i k, text_eq_iff i j, get-set j k v cs)

get-delete :
    (j k : Text) (cs : Children) → get j (delete k cs) ≡ (if text_eq k j then none else get j cs)
unfolding get delete
get-delete j k no_child = ground arith
get-delete j k (child i w cs) =
    ground (arith, text_eq_iff k j, text_eq_iff i k, text_eq_iff i j, get-delete j k cs)

abbrev pub child_of : Text → Option FileNode → Option FileNode
child_of name none = none
child_of name (some (file info content)) = none
child_of name (some (directory info cs)) = get name cs

pub walk-snoc :
    (node : FileNode) (ps : List Text) (name : Text)
    → walk node (ps ++ name ∷ []) ≡ child_of name (walk node ps)
unfolding walk
walk-snoc (file info content) [] name = refl
walk-snoc (directory info cs) [] name = elim (Option-cases (get name cs)) [
  | inl e ↦ rw (e, walk) refl
  | inr (c, e) ↦ rw (e, walk) refl
]
walk-snoc (file info content) (part ∷ ps) name = refl
walk-snoc (directory info cs) (part ∷ ps) name = elim (Option-cases (get part cs)) [
  | inl e ↦ rw (e, walk) refl
  | inr (c, e) ↦ rw (e, walk) (walk-snoc c ps name)
]

walk-update :
    (node : FileNode) (ps : List Text) (f : Children → Children) (info : NodeInfo) (cs : Children)
    → walk node ps ≡ some (directory info cs)
    → walk (update ps f node) ps ≡ some (directory info (f cs))
unfolding walk update
walk-update (file i c) [] f info cs e = cc
walk-update (directory i ds) [] f info cs e = cc
walk-update (file i c) (part ∷ ps) f info cs e = cc
walk-update (directory i ds) (part ∷ ps) f info cs e = elim (Option-cases (get part ds)) [
  | inl q ↦ let no : none ≡ some (directory info cs) = rw (q, walk) at e in cc
  | inr (c, q) ↦
      let there : walk c ps ≡ some (directory info cs) = rw (q, walk) at e in
      let self : get part (set part (update ps f c) ds) ≡ some (update ps f c) =
        get-set part part (update ps f c) ds ∙ rw text_eq_refl refl in
      rw (q, update) (rw (self, walk) (walk-update c ps f info cs there))
]

pub normalize_starts : (p : Text) → starts_with (normalize p) (codes "/") ≡ true
unfolding normalize starts_with
normalize_starts p = elim (Bool-cases (starts_with (strip (collapse false p)) (codes "/"))) [
  | inl e ↦ rw e e
  | inr e ↦ rw e refl
]

parts_of_root : parts (codes "/") ≡ []
unfolding parts split_on split_on_from
parts_of_root = refl

-- A path resolves to what its parts lead to.
pub resolve-parts : (root : FileNode) (p : Text) → resolve root p ≡ walk root (parts p)
unfolding resolve walk
resolve-parts root p = elim (Bool-cases (text_eq (normalize p) (codes "/"))) [
  | inr e ↦ rw e (ap (walk root) (parts-normalize p))
  | inl e ↦
      let none_left : parts p ≡ [] =
        sym (parts-normalize p)
        ∙ ap parts ((text_eq_iff (normalize p) (codes "/")).0 e)
        ∙ parts_of_root in
      rw (e, none_left) (whole root)
]
  where
    whole : (root : FileNode) → some root ≡ walk root []
    whole (file info content) = refl
    whole (directory info cs) = refl

pub resolve-normalize : (root : FileNode) (p : Text) → resolve root (normalize p) ≡ resolve root p
resolve-normalize root p =
    resolve-parts root (normalize p)
    ∙ ap (walk root) (parts-normalize p)
    ∙ sym (resolve-parts root p)

abbrev pub parent : Text → Text
parent p = (parent_and_name (normalize p)).0

abbrev pub name_of : Text → Text
name_of p = (parent_and_name (normalize p)).1

-- Other than the root, a path resolves to the child of that name of what its parent resolves to.
pub resolve-child_of :
    (root : FileNode) (p : Text)
    → text_eq (normalize p) (codes "/") ≡ false
    → resolve root p ≡ child_of (name_of p) (resolve root (parent p))
resolve-child_of root p h =
    let cut : parts p ≡ parts (parent p) ++ name_of p ∷ [] =
      sym (parts-normalize p)
      ∙ parts-parent_and_name (normalize p) h (normalize_ends p h) (normalize_starts p) in
    resolve-parts root p
    ∙ ap (walk root) cut
    ∙ walk-snoc root (parts (parent p)) (name_of p)
    ∙ ap (child_of (name_of p)) (sym (resolve-parts root (parent p)))

resolve-change_at :
    (root : FileNode) (q : Text) (f : Children → Children) (info : NodeInfo) (cs : Children)
    → resolve root q ≡ some (directory info cs)
    → resolve (change_at root q f) q ≡ some (directory info (f cs))
resolve-change_at root q f info cs e =
    resolve-parts (change_at root q f) q
    ∙ ap (λ ps. walk (update ps f root) (parts q)) (parts-normalize q)
    ∙ walk-update root (parts q) f info cs (sym (resolve-parts root q) ∙ e)

-- The node of a name after it is set in the directory of a path.
pub child_of-set :
    (root : FileNode) (q name : Text) (node : FileNode) (info : NodeInfo) (cs : Children)
    → resolve root q ≡ some (directory info cs)
    → child_of name (resolve (change_at root q (set name node)) q) ≡ some node
child_of-set root q name node info cs e =
    ap (child_of name) (resolve-change_at root q (set name node) info cs e)
    ∙ get-set name name node cs
    ∙ rw text_eq_refl refl

pub child_of-delete :
    (root : FileNode) (q name : Text) (info : NodeInfo) (cs : Children)
    → resolve root q ≡ some (directory info cs)
    → child_of name (resolve (change_at root q (delete name)) q) ≡ none
child_of-delete root q name info cs e =
    ap (child_of name) (resolve-change_at root q (delete name) info cs e)
    ∙ get-delete name name cs
    ∙ rw text_eq_refl refl

write_in_lem :
    (root : FileNode) (q name n content : Text) (now : ℕ) (o : Option FileNode)
    → resolve root q ≡ o
    → (write_in root q name n content now o).1 ≡ none
    → (info : NodeInfo) × (child_of name (resolve (write_in root q name n content now o).0 q)
        ≡ some (file info content))
write_in_lem root q name n content now none e h = absurd (cc)
write_in_lem root q name n content now (some (file info old)) e h = absurd (cc)
write_in_lem root q name n content now (some (directory info cs)) e h =
    write_node_lem (get name cs) h
  where
    write_node_lem :
        (o : Option FileNode)
        → (write_node root q name n content now o).1 ≡ none
        → (i : NodeInfo) × (child_of name (resolve (write_node root q name n content now o).0 q)
            ≡ some (file i content))
    write_node_lem none h =
        (_, child_of-set root q name (create_file_node now name content) info cs e)
    write_node_lem (some (directory i ds)) h = absurd (cc)
    write_node_lem (some (file i old)) h = (
      _,
      child_of-set root q name
          (file (record i { size = byte_length content; modified_at = now }) content) info cs e,
    )

-- Where a path is not the root: if writing a file does not throw, then reading it gives the content.
pub read_file-write_file :
    (root : FileNode) (p content : Text) (now : ℕ)
    → text_eq (normalize p) (codes "/") ≡ false
    → (write_file root p content now).1 ≡ none
    → read_file (write_file root p content now).0 p ≡ ok content
unfolding write_file read_file
read_file-write_file root p content now h e =
    let w =
      write_in_lem root (parent p) (name_of p) (normalize p) content now (resolve root (parent p))
        refl e in
    let after : FileNode =
      (write_in root (parent p) (name_of p) (normalize p) content now
        (resolve root (parent p))).0 in
    ap (content_of (normalize p)) (resolve-normalize after p ∙ resolve-child_of after p h ∙ w.1)
