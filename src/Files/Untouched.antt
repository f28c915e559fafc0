-- ===== src/Files/Untouched.antt =====
-- Writing a file leaves what is read at other paths.
use cli_server_node.Common.{
  ℕ, Bool, false, Option, none, some, List, [], ◌∷◌, ◌++◌, Text, codes, text_eq, text_eq_iff,
  text_eq_refl, Bool-cases, Option-cases, inl, inr, ◌≡◌, ◌≢◌, refl, sym, ap, subst, ◌∙◌,
}
use cli_server_node.Files.{
  NodeInfo, FileNode, file, directory, Children, get, set, byte_length, normalize, parts, walk,
}
use cli_server_node.Files.Paths.{parts-normalize, parts-parent_and_name, normalize_ends}
use cli_server_node.Files.Provider.{
  resolve, update, change_at, content_of, read_file, write_node, write_in, write_file, is_directory,
}
use cli_server_node.Files.Written.{
  get-set, parent, name_of, resolve-parts, resolve-normalize, normalize_starts,
}

abbrev pub holds_directory : Option FileNode → Bool
holds_directory none = false
holds_directory (some node) = is_directory node

-- Nothing is below what is not a directory.
walk-below :
    (name x : Text) (qs : List Text) (info : NodeInfo) (cs : Children)
    → holds_directory (get name cs) ≡ false
    → walk (directory info cs) (name ∷ x ∷ qs) ≡ none
unfolding walk
walk-below name x qs info cs h = elim (Option-cases (get name cs)) [
  | inl e ↦ rw (e, walk) refl
  | inr (node, e) ↦ rw (e, walk) (below node (sym (ap holds_directory e) ∙ h))
]
  where
    below : (node : FileNode) → is_directory node ≡ false → walk node (x ∷ qs) ≡ none
    below (file i c) h = refl
    below (directory i ds) h = cc

walk_same :
    (q : Text) (qs : List Text) (info : NodeInfo) (cs ds : Children)
    → get q cs ≡ get q ds
    → walk (directory info cs) (q ∷ qs) ≡ walk (directory info ds) (q ∷ qs)
unfolding walk
walk_same q qs info cs ds e = rw (e, walk) refl

pub walk-found :
    (q : Text) (qs : List Text) (info : NodeInfo) (cs : Children) (node : FileNode)
    → get q cs ≡ some node
    → walk (directory info cs) (q ∷ qs) ≡ walk node qs
unfolding walk
walk-found q qs info cs node e = rw (e, walk) refl

pub walk_nil : (node : FileNode) → walk node [] ≡ some node
unfolding walk
walk_nil (file i c) = refl
walk_nil (directory i cs) = refl

module _ (n name content : Text) (info : NodeInfo) where
  abbrev written : FileNode
  written = file info content

  content-set :
      (i : NodeInfo) (cs : Children) (qs : List Text)
      → holds_directory (get name cs) ≡ false
      → qs ≢ name ∷ []
      → content_of n (walk (directory i (set name written cs)) qs)
        ≡ content_of n (walk (directory i cs) qs)
  unfolding walk
  content-set i cs [] h other =
      ap (content_of n) (walk_nil (directory i (set name written cs)))
      ∙ sym (ap (content_of n) (walk_nil (directory i cs)))
  content-set i cs (q ∷ qs) h other = elim (Bool-cases (text_eq name q)) [
    | inr e ↦
        ap (content_of n)
          (walk_same q qs i (set name written cs) cs (get-set q name written cs ∙ rw e refl))
    | inl e ↦ ap (content_of n) (same_name q qs ((text_eq_iff name q).0 e) other)
  ]
    where
      same_name :
          (q : Text) (qs : List Text)
          → name ≡ q
          → q ∷ qs ≢ name ∷ []
          → walk (directory i (set name written cs)) (q ∷ qs) ≡ walk (directory i cs) (q ∷ qs)
      same_name q [] e other = absurd (other (ap (λ v. v ∷ []) (sym e)))
      same_name q (x ∷ qs) e other =
          subst
            (λ v.
              walk (directory i (set name written cs)) (v ∷ x ∷ qs)
              ≡ walk (directory i cs) (v ∷ x ∷ qs))
            e
            (walk-found name (x ∷ qs) i (set name written cs) written
                (get-set name name written cs ∙ rw text_eq_refl refl)
              ∙ sym (walk-below name x qs i cs h))

  content-update :
      (node : FileNode) (ps qs : List Text) (i : NodeInfo) (cs : Children)
      → walk node ps ≡ some (directory i cs)
      → holds_directory (get name cs) ≡ false
      → qs ≢ ps ++ name ∷ []
      → content_of n (walk (update ps (set name written) node) qs) ≡ content_of n (walk node qs)
  unfolding update
  content-update (file i' c) ps qs i cs e h other = refl
  content-update (directory i' ds) [] qs i cs e h other =
      content-set i' ds qs
        (subst (λ v. holds_directory (get name v) ≡ false)
          (sym (same_children (sym (walk_nil (directory i' ds)) ∙ e))) h)
        other
    where
      same_children : some (directory i' ds) ≡ some (directory i cs) → ds ≡ cs
      same_children e = cc
  content-update (directory i' ds) (part ∷ ps) qs i cs e h other =
      elim (Option-cases (get part ds)) [
        | inl f ↦ rw (f, update) refl
        | inr (c, f) ↦
            rw (f, update)
              (let there = sym (walk-found part ps i' ds c f) ∙ e in
                below c f (λ qs' other'. content-update c ps qs' i cs there h other') qs other)
      ]
    where
      below :
          (c : FileNode)
          → get part ds ≡ some c
          → ((qs' : List Text)
              → qs' ≢ ps ++ name ∷ []
              → content_of n (walk (update ps (set name written) c) qs')
                ≡ content_of n (walk c qs'))
          → (qs : List Text) → qs ≢ part ∷ ps ++ name ∷ []
          → content_of n (walk (directory i' (set part (update ps (set name written) c) ds)) qs)
            ≡ content_of n (walk (directory i' ds) qs)
      below c f ih [] other =
          ap (content_of n) (walk_nil (directory i' (set part (update ps (set name written) c) ds)))
          ∙ sym (ap (content_of n) (walk_nil (directory i' ds)))
      below c f ih (q ∷ qs) other =
          let c' : FileNode = update ps (set name written) c in
          let got = get-set q part c' ds in
          elim (Bool-cases (text_eq part q)) [
            | inr d ↦ ap (content_of n) (walk_same q qs i' (set part c' ds) ds (got ∙ rw d refl))
            | inl d ↦
                let same : part ≡ q = (text_eq_iff part q).0 d in
                ap (content_of n) (walk-found q qs i' (set part c' ds) c' (got ∙ rw d refl))
                ∙ ih qs (λ t. other (ap (λ v. q ∷ v) t ∙ ap (λ v. v ∷ ps ++ name ∷ []) (sym same)))
                ∙ sym (
                    ap (content_of n) (walk-found q qs i' ds c (ap (λ v. get v ds) (sym same) ∙ f)))
          ]

module _ (root : FileNode) (n read q name content : Text) (now : ℕ) (qs : List Text) where
  set-content :
      (info i : NodeInfo) (cs : Children)
      → resolve root q ≡ some (directory i cs)
      → qs ≢ parts q ++ name ∷ []
      → holds_directory (get name cs) ≡ false
      → content_of read (walk (change_at root q (set name (file info content))) qs)
        ≡ content_of read (walk root qs)
  set-content info i cs e other h =
      content-update read name content info root (parts (normalize q)) qs i cs
        (ap (walk root) (parts-normalize q) ∙ sym (resolve-parts root q) ∙ e) h
        (λ t. other (t ∙ ap (λ v. v ++ name ∷ []) (parts-normalize q)))

  -- Whatever becomes of the write, in the directory of the path `q`.
  write_node-content :
      (i : NodeInfo) (cs : Children)
      → resolve root q ≡ some (directory i cs)
      → qs ≢ parts q ++ name ∷ []
      → (o : Option FileNode) → get name cs ≡ o
      → content_of read (walk (write_node root q name n content now o).0 qs)
        ≡ content_of read (walk root qs)
  write_node-content i cs e other none g =
      set-content
        (record {
          name = name;
          created_at = now;
          modified_at = now;
          size = byte_length content;
          permissions = codes "644";
        })
        i cs e other (ap holds_directory g)
  write_node-content i cs e other (some (directory i' ds)) g = refl
  write_node-content i cs e other (some (file i' old)) g =
      set-content (record i' { size = byte_length content; modified_at = now }) i cs e other
        (ap holds_directory g)

  write_in-content :
      qs ≢ parts q ++ name ∷ []
      → (o : Option FileNode) → resolve root q ≡ o
      → content_of read (walk (write_in root q name n content now o).0 qs)
        ≡ content_of read (walk root qs)
  write_in-content other none e = refl
  write_in-content other (some (file i old)) e = refl
  write_in-content other (some (directory i cs)) e =
      write_node-content i cs e other (get name cs) refl

-- Where the path written is not the root: whether or not the write throws, every path with other parts is
-- read as before.
pub read_file-write_file_other :
    (root : FileNode) (p q content : Text) (now : ℕ)
    → text_eq (normalize p) (codes "/") ≡ false
    → parts q ≢ parts p
    → read_file (write_file root p content now).0 q ≡ read_file root q
unfolding write_file read_file
read_file-write_file_other root p q content now h other =
    let after : FileNode =
      (write_in root (parent p) (name_of p) (normalize p) content now
        (resolve root (parent p))).0 in
    let cut : parts p ≡ parts (parent p) ++ name_of p ∷ [] =
      sym (parts-normalize p)
      ∙ parts-parent_and_name (normalize p) h (normalize_ends p h) (normalize_starts p) in
    let same =
      write_in-content root (normalize p) (normalize q) (parent p) (name_of p) content now (parts q)
        (λ t. other (t ∙ sym cut)) (resolve root (parent p)) refl in
    ap (content_of (normalize q)) (resolve-normalize after q ∙ resolve-parts after q)
    ∙ same
    ∙ sym (ap (content_of (normalize q)) (resolve-normalize root q ∙ resolve-parts root q))
