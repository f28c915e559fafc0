-- ===== src/Users/Granted.antt =====
-- The permissions that groups give: of a user by the names of its groups, and of the groups that a list
-- of names resolves to.
use cli_server_node.Common.{
  Bool, true, false, not, ◌&&◌, ◌||◌, Option, none, some, List, [], ◌∷◌, ◌++◌, Text, Map, map_get,
  to_lower, trim, is_nil, text_eq_iff, map, any, any-append, map-append, All, Bool-cases, ◌≡◌, refl,
  sym, ap, subst, ◌∙◌, arith, inl, inr, if_intro,
}
use cli_server_node.Permissions.{
  segments, permission_matches, has_permission, uncovered_permissions, same_name, in_group,
}
use cli_server_node.Permissions.Matching.{EndsInOneStar}
use cli_server_node.Permissions.Merge.{held_in_some, has_permission-merge_permissions}
use cli_server_node.Permissions.Grants.{has_permission_of_covered}
use cli_server_node.Users.{User, Group, UsersState, Env}
use cli_server_node.Users.Actions.{ok}
use cli_server_node.Users.Stores.{look_up_group, get_group}
use cli_server_node.Users.Access.{
  given, group_permissions, permissions_with, get_effective_permissions,
}
use cli_server_node.Users.Directory
use cli_server_node.Users.Directory.{
  Caller, permissions_of_groups, names_of, add_group, added_groups, same_group,
}
use cli_server_node.Users.Laws.{
  Reads-returned, or_raise-Reads, or_raise_returned, raise_if_returned, ok_injective,
}
use cli_server_node.Users.Reading

-- A list of permissions that counts for a requirement, blank ones left out.
abbrev pub counts : Text → List Text → Bool
counts p ps = any (λ q. not (is_nil (trim q)) && permission_matches q p) ps

abbrev pub allows : Text → Option Group → Bool
allows p none = false
allows p (some g) = counts p g.permissions

-- A group of a name in the list gives the permission.
unfoldable pub granted : Map Group → List Text → Text → Bool
granted groups names p = any (λ n. allows p (look_up_group n groups)) names

pub has_permission_of_counts :
    (p : Text) (ps : List Text) → counts p ps ≡ true → has_permission (some ps) p ≡ true
unfolding has_permission
has_permission_of_counts p [] h = cc
has_permission_of_counts p (q ∷ ps) h = elim (Bool-cases (permission_matches q p)) [
  | inl e ↦ rw e refl
  | inr n ↦ ground (arith, has_permission_of_counts p ps (ground (arith, n)))
]

held_in_some-given :
    (p : Text) (o : Option Group) (lists : List (Option (List Text)))
    → held_in_some p (given o lists) ≡ (allows p o || held_in_some p lists)
held_in_some-given p none lists = refl
held_in_some-given p (some g) lists = refl

group_permissions_returned :
    (names : List Text) (p : Text) (env : Env) (s : UsersState) (lists : List (Option (List Text)))
    → (group_permissions names env s).0 ≡ ok lists
    → held_in_some p lists ≡ granted s.groups names p
unfolding group_permissions granted get_group
group_permissions_returned [] p env s lists h =
    subst (λ l. held_in_some p l ≡ false) (ok_injective h) refl
group_permissions_returned (n ∷ names) p env s lists h =
    let (g, found, h) = Reads-returned _ _ env s lists (λ env s. refl) h in
    let (rest, more, h) =
      Reads-returned _ _ env s lists (Reading.group_permissions-Reads names) h in
    let is_g : look_up_group n s.groups ≡ g = ok_injective found in
    let so : given g rest ≡ lists = ok_injective h in
    subst (λ l. held_in_some p l ≡ granted s.groups (n ∷ names) p) so
      (ground (
        arith,
        held_in_some-given p g rest,
        group_permissions_returned names p env s rest more,
        ap (allows p) is_g,
      ))

-- What a user has by the groups.
pub effective_returned :
    (u : User) (p : Text) (env : Env) (s : UsersState) (ps : List Text)
    → (get_effective_permissions u env s).0 ≡ ok ps
    → has_permission (some ps) p ≡ (env.has_group_store && granted s.groups u.groups p)
unfolding get_effective_permissions has_permission
effective_returned u p env s ps h =
    let (b, is_b, h) = Reads-returned _ _ env s ps (λ env s. refl) h in
    subst (λ c. has_permission (some ps) p ≡ (c && granted s.groups u.groups p))
      (sym (ok_injective is_b)) (by b h)
  where
    by :
        (b : Bool)
        → (permissions_with b u env s).0 ≡ ok ps
        → has_permission (some ps) p ≡ (b && granted s.groups u.groups p)
    by false h = subst (λ l. has_permission (some l) p ≡ false) (ok_injective h) refl
    by true h =
        let (lists, got, h) =
          Reads-returned _ _ env s ps (Reading.group_permissions-Reads u.groups) h in
        subst (λ l. has_permission (some l) p ≡ granted s.groups u.groups p) (ok_injective h)
          (has_permission-merge_permissions lists p
            ∙ group_permissions_returned u.groups p env s lists got)

-- The groups are stored under their names in lower case.
abbrev pub AreNamed : Map Group → Type 0
AreNamed groups = (k : Text) (g : Group) → map_get k groups ≡ some g → to_lower g.name ≡ k

-- Under the name of a group that was found, the same group is found.
found_again :
    (n : Text) (g : Group) (groups : Map Group)
    → AreNamed groups
    → look_up_group n groups ≡ some g
    → look_up_group g.name groups ≡ some g
found_again n g groups w at = ap (λ k. map_get k groups) (w (to_lower n) g at) ∙ at

add_group-granted :
    (g : Group) (out : List Group) (groups : Map Group) (p : Text)
    → granted groups (names_of (add_group g out)) p ≡ true
    → (granted groups (names_of out) p || allows p (look_up_group g.name groups)) ≡ true
unfolding granted
add_group-granted g out groups p h =
    if_intro
      (λ l.
        granted groups (names_of l) p ≡ true
        → (granted groups (names_of out) p || allows p (look_up_group g.name groups)) ≡ true)
      (any (λ x. same_group x g) out) (λ k. ground (arith, k))
      (λ k.
        let split : names_of (out ++ g ∷ []) ≡ names_of out ++ g.name ∷ [] =
          map-append (λ (x : Group). x.name) out (g ∷ []) in
        let both =
          any-append (λ n. allows p (look_up_group n groups)) (names_of out) (g.name ∷ []) in
        ground (arith, both, subst (λ l. granted groups l p ≡ true) split k))
      h

-- What the groups that a list of names resolves to give, the names give.
resolve_from_granted :
    (out : List Group) (names : List Text) (p : Text) (env : Env) (s : UsersState) (gs : List Group)
    → AreNamed s.groups
    → (Directory.resolve_groups_from out names env s).0 ≡ ok gs
    → granted s.groups (names_of gs) p ≡ true
    → (granted s.groups (names_of out) p || granted s.groups names p) ≡ true
unfolding Directory.resolve_groups_from granted get_group
resolve_from_granted out [] p env s gs w h k =
    let same : out ≡ gs = ok_injective h in
    ground (arith, subst (λ l. granted s.groups (names_of l) p ≡ true) (sym same) k)
resolve_from_granted out (n ∷ names) p env s gs w h k =
    let (o, found, h) = Reads-returned _ _ env s gs (λ env s. refl) h in
    let (g, is_g, h) = Reads-returned _ _ env s gs (or_raise-Reads o _) h in
    let at : look_up_group n s.groups ≡ some g =
      ok_injective found ∙ or_raise_returned o _ env s g is_g in
    let rest = resolve_from_granted (add_group g out) names p env s gs w h k in
    elim (Bool-cases (granted s.groups (names_of (add_group g out)) p)) [
      | inl e ↦ ground (
        arith,
        add_group-granted g out s.groups p e,
        ap (allows p) (found_again n g s.groups w at ∙ sym at),
      )
      | inr e ↦ ground (arith, rest, e)
    ]

pub resolve_groups-granted :
    (names : List Text) (p : Text) (env : Env) (s : UsersState) (gs : List Group)
    → AreNamed s.groups
    → (Directory.resolve_groups names env s).0 ≡ ok gs
    → granted s.groups (names_of gs) p ≡ true
    → granted s.groups names p ≡ true
unfolding Directory.resolve_groups granted
resolve_groups-granted names p env s gs w h k = resolve_from_granted [] names p env s gs w h k

-- Each group of the list is the one stored under its name.
abbrev pub AreFound : Map Group → List Group → Type 0
AreFound groups gs = All (λ (g : Group). look_up_group g.name groups ≡ some g) gs

AreFound-snoc :
    (groups : Map Group) (g : Group) (gs : List Group)
    → look_up_group g.name groups ≡ some g
    → AreFound groups gs
    → AreFound groups (gs ++ g ∷ [])
AreFound-snoc groups g [] at h = (at, tt)
AreFound-snoc groups g (x ∷ gs) at (f, h) = (f, AreFound-snoc groups g gs at h)

resolve_from-AreFound :
    (out : List Group) (names : List Text) (env : Env) (s : UsersState) (gs : List Group)
    → AreNamed s.groups
    → AreFound s.groups out
    → (Directory.resolve_groups_from out names env s).0 ≡ ok gs
    → AreFound s.groups gs
unfolding Directory.resolve_groups_from get_group
resolve_from-AreFound out [] env s gs w f h = subst (AreFound s.groups) (ok_injective h) f
resolve_from-AreFound out (n ∷ names) env s gs w f h =
    let (o, found, h) = Reads-returned _ _ env s gs (λ env s. refl) h in
    let (g, is_g, h) = Reads-returned _ _ env s gs (or_raise-Reads o _) h in
    let at = found_again n g s.groups w (ok_injective found ∙ or_raise_returned o _ env s g is_g) in
    resolve_from-AreFound (add_group g out) names env s gs w
      (if_intro (AreFound s.groups) (any (λ x. same_group x g) out) f
        (AreFound-snoc s.groups g out at f))
      h

pub resolve_groups-AreFound :
    (names : List Text) (env : Env) (s : UsersState) (gs : List Group)
    → AreNamed s.groups
    → (Directory.resolve_groups names env s).0 ≡ ok gs
    → AreFound s.groups gs
unfolding Directory.resolve_groups
resolve_groups-AreFound names env s gs w h = resolve_from-AreFound [] names env s gs w tt h

abbrev pub lists_of : List Group → List (Option (List Text))
lists_of gs = map (λ (g : Group). some g.permissions) gs

pub found_granted :
    (groups : Map Group) (gs : List Group) (p : Text)
    → AreFound groups gs
    → granted groups (names_of gs) p ≡ true
    → held_in_some p (lists_of gs) ≡ true
unfolding granted
found_granted groups [] p f h = cc
found_granted groups (g ∷ gs) p (at, f) h = elim (Bool-cases (counts p g.permissions)) [
  | inl e ↦ ground (arith, e)
  | inr n ↦
      ground
        (arith, n, ap (allows p) at, found_granted groups gs p f (ground (arith, ap (allows p) at)))
]

-- What a group gives that the list names, whatever the case of its name, the list gives.
in_group-granted :
    (groups : Map Group) (names : List Text) (m p : Text)
    → in_group (some names) m ≡ true
    → allows p (look_up_group m groups) ≡ true
    → granted groups names p ≡ true
unfolding granted in_group same_name
in_group-granted groups [] m p h k = cc
in_group-granted groups (n ∷ names) m p h k = elim (Bool-cases (same_name (some n) (some m))) [
  | inl e ↦
      let same = (text_eq_iff (to_lower n) (to_lower m)).0 (ground (arith, e)) in
      ground (arith, k, ap (λ i. allows p (map_get i groups)) same)
  | inr d ↦ ground (arith, in_group-granted groups names m p (ground (arith, d)) k)
]

-- What resolved groups give, the groups of the target give already, or those of them that are new to it.
pub added_granted :
    (groups : Map Group) (t : User) (gs : List Group) (p : Text)
    → AreFound groups gs
    → granted groups (names_of gs) p ≡ true
    → (granted groups t.groups p || held_in_some p (lists_of (added_groups t gs))) ≡ true
unfolding granted
added_granted groups t [] p f h = cc
added_granted groups t (g ∷ gs) p (at, f) h = elim (Bool-cases (counts p g.permissions)) [
  | inl c ↦ elim (Bool-cases (in_group (some t.groups) g.name)) [
    | inl e ↦ ground (arith, in_group-granted groups t.groups g.name p e (ap (allows p) at ∙ c))
    | inr d ↦ ground (arith, c, d)
  ]
  | inr n ↦
      let later = added_granted groups t gs p f (ground (arith, ap (allows p) at, n)) in
      elim (Bool-cases (in_group (some t.groups) g.name)) [
        | inl e ↦ ground (arith, later, e)
        | inr d ↦ ground (arith, later, d, n)
      ]
]

-- What a list of permissions gives that a caller may grant, the caller has.
pub assert_can_grant_returned :
    (caller : Caller) (ps : List Text) (p : Text) (env : Env) (s : UsersState)
    → All (λ c. EndsInOneStar (segments c)) caller.permissions
    → (Directory.assert_can_grant caller ps env s).0 ≡ ok tt
    → has_permission (some ps) p ≡ true
    → has_permission (some caller.permissions) p ≡ true
unfolding Directory.assert_can_grant
assert_can_grant_returned caller ps p env s w h k =
    has_permission_of_covered caller.permissions ps p w
      (all_covered (uncovered_permissions caller.permissions ps) (raise_if_returned _ _ env s h)) k
  where
    all_covered : (ms : List Text) → not (is_nil ms) ≡ false → ms ≡ []
    all_covered [] e = refl
    all_covered (m ∷ ms) e = cc

pub assert_can_add_groups_returned :
    (caller : Caller) (gs : List Group) (p : Text) (env : Env) (s : UsersState)
    → All (λ c. EndsInOneStar (segments c)) caller.permissions
    → (Directory.assert_can_add_groups caller gs env s).0 ≡ ok tt
    → held_in_some p (lists_of gs) ≡ true
    → has_permission (some caller.permissions) p ≡ true
unfolding Directory.assert_can_add_groups
assert_can_add_groups_returned caller gs p env s w h k =
    assert_can_grant_returned caller (permissions_of_groups gs) p env s w h
      (has_permission-merge_permissions (lists_of gs) p ∙ k)
