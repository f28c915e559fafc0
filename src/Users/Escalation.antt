-- ===== src/Users/Escalation.antt =====
-- Requests to the directory do not escalate: what a user may do after one, it might do before or its
-- caller may.
use cli_server_node.Common.{
  Bool, true, false, ◌&&◌, Option, none, some, List, [], ◌∷◌, Text, Map, map_get, Option-cases, ◌≡◌,
  refl, sym, ap, ◌∙◌, arith, inl, inr, ◌⊎◌,
}
use cli_server_node.Permissions.{has_permission, users_group}
use cli_server_node.Users.{User, Group, AuthContext, UsersState, Env}
use cli_server_node.Users.Json.{Json}
use cli_server_node.Users.Actions.{ok}
use cli_server_node.Users.Stores.{look_up_group, get_group}
use cli_server_node.Users.Access.{group_permissions, permissions_with, get_effective_permissions}
use cli_server_node.Users.Directory.{caller_of}
use cli_server_node.Users.Requests.{
  DirectoryRequest, post_user, put_user, delete_user_of, post_group, put_group, delete_group_of,
  post_member, delete_member, answer, put_user_request, users_update,
}
use cli_server_node.Users.Laws.{bind_elim}
use cli_server_node.Users.Reading
use cli_server_node.Users.Changes.{IsKeyed}
use cli_server_node.Users.Membership.{get_user_returned}
use cli_server_node.Users.History.{resolve_self_or-Reads, resolve_self_or_returned}
use cli_server_node.Users.Returning.{Returns, Returns-bind}
use cli_server_node.Users.Granted.{
  granted, allows, AreNamed, effective_returned, has_permission_of_counts,
}
use cli_server_node.Users.Entitled.{IsEntitled, bind-IsEntitled}
use cli_server_node.Users.Entitled.Managing.{
  AreOneStar, create_user-IsEntitled, update_user-IsEntitled, delete_user-IsEntitled,
}
use cli_server_node.Users.Entitled.Membership.{add_member-IsEntitled, remove_member-IsEntitled}
use cli_server_node.Users.Entitled.Groups.{
  create_group-IsEntitled, update_group-IsEntitled, delete_group-IsEntitled,
}

-- The user's effective permissions give a permission.
abbrev pub Has : Env → UsersState → User → Text → Type 0
Has env s u p =
    (ps : List Text) × ((get_effective_permissions u env s).0 ≡ ok ps)
    × (has_permission (some ps) p ≡ true)

group_permissions-Returns : (names : List Text) → Returns (group_permissions names)
unfolding group_permissions get_group
group_permissions-Returns [] env s = ([], refl)
group_permissions-Returns (n ∷ names) env s =
    Returns-bind _ _ (λ env s. (_, refl))
      (λ g. Returns-bind _ _ (group_permissions-Returns names) (λ rest env s. (_, refl))) env s

permissions_with-Returns : (b : Bool) (u : User) → Returns (permissions_with b u)
permissions_with-Returns false u env s = ([], refl)
permissions_with-Returns true u env s =
    Returns-bind _ _ (group_permissions-Returns u.groups) (λ ls env s. (_, refl)) env s

effective-Returns : (u : User) → Returns (get_effective_permissions u)
unfolding get_effective_permissions
effective-Returns u =
    Returns-bind _ _ (λ env s. (env.has_group_store, refl)) (λ b. permissions_with-Returns b u)

granted-Has :
    (u : User) (p : Text) (env : Env) (s : UsersState)
    → env.has_group_store ≡ true
    → granted s.groups u.groups p ≡ true
    → Has env s u p
granted-Has u p env s h g =
    let (ps, e) = effective-Returns u env s in
    (ps, e, effective_returned u p env s ps e ∙ ground (arith, h, g))

put_user-IsEntitled :
    (ctx : AuthContext) (x : Text) (json : Option Json) (env : Env) (s : UsersState)
    → IsKeyed s.users
    → AreNamed s.groups
    → AreOneStar (caller_of ctx)
    → IsEntitled s (caller_of ctx) (put_user_request ctx x json env s).1
unfolding put_user_request
put_user-IsEntitled ctx x json env s keyed named one =
    let caller = caller_of ctx in
    bind-IsEntitled caller _ _ env s (Reading.body_of-Reads json) λ body q.
      bind-IsEntitled caller _ _ env s (resolve_self_or-Reads ctx users_update x) λ t who.
        bind-IsEntitled caller _ _ env s (λ env s. refl)
          λ _ q.
            let base =
              update_user-IsEntitled t body caller env s named one
                (resolve_self_or_returned ctx users_update x env s t keyed who) in
            bind_elim _ _ env s (λ q. IsEntitled s caller q.1) (λ e q. base) (λ u q. base)

answer-IsEntitled :
    (ctx : AuthContext) (request : DirectoryRequest) (env : Env) (s : UsersState)
    → IsKeyed s.users
    → AreNamed s.groups
    → AreOneStar (caller_of ctx)
    → map_get env.new_id s.users ≡ none
    → IsEntitled s (caller_of ctx) (answer ctx request env s).1
unfolding answer
answer-IsEntitled ctx (post_user external json) env s keyed named one fresh =
    let caller = caller_of ctx in
    bind-IsEntitled caller _ _ env s (λ env s. refl)
      λ _ q. bind-IsEntitled caller _ _ env s (Reading.body_of-Reads json) λ body q.
        let base = create_user-IsEntitled body caller external env s named one fresh in
        bind_elim _ _ env s (λ q. IsEntitled s caller q.1) (λ e q. base) (λ u q. base)
answer-IsEntitled ctx (put_user x json) env s keyed named one fresh =
    put_user-IsEntitled ctx x json env s keyed named one
answer-IsEntitled ctx (delete_user_of x) env s keyed named one fresh =
    bind-IsEntitled (caller_of ctx) _ _ env s (λ env s. refl)
      λ _ q.
        bind-IsEntitled (caller_of ctx) _ _ env s (Reading.get_user_or_404-Reads x)
          λ t q. delete_user-IsEntitled t (caller_of ctx) env s
answer-IsEntitled ctx (post_group json) env s keyed named one fresh =
    let caller = caller_of ctx in
    bind-IsEntitled caller _ _ env s (λ env s. refl)
      λ _ q. bind-IsEntitled caller _ _ env s (Reading.body_of-Reads json) λ body q.
        let base = create_group-IsEntitled body caller env s one in
        bind_elim _ _ env s (λ q. IsEntitled s caller q.1) (λ e q. base) (λ u q. base)
answer-IsEntitled ctx (put_group name json) env s keyed named one fresh =
    let caller = caller_of ctx in
    bind-IsEntitled caller _ _ env s (λ env s. refl)
      λ _ q. bind-IsEntitled caller _ _ env s (Reading.body_of-Reads json) λ body q.
        bind-IsEntitled caller _ _ env s (Reading.get_group_or_404-Reads name) λ g q.
          let base = update_group-IsEntitled g body caller env s one in
          bind_elim _ _ env s (λ q. IsEntitled s caller q.1) (λ e q. base) (λ u q. base)
answer-IsEntitled ctx (delete_group_of name) env s keyed named one fresh =
    bind-IsEntitled (caller_of ctx) _ _ env s (λ env s. refl)
      λ _ q.
        bind-IsEntitled (caller_of ctx) _ _ env s (Reading.get_group_or_404-Reads name)
          λ g q. delete_group-IsEntitled g (caller_of ctx) env s keyed
answer-IsEntitled ctx (post_member name x) env s keyed named one fresh =
    bind-IsEntitled (caller_of ctx) _ _ env s (λ env s. refl)
      λ _ q. add_member-IsEntitled name x (caller_of ctx) env s named one keyed
answer-IsEntitled ctx (delete_member name x) env s keyed named one fresh =
    bind-IsEntitled (caller_of ctx) _ _ env s (λ env s. refl)
      λ _ q. bind-IsEntitled (caller_of ctx) _ _ env s (Reading.get_group_or_404-Reads name) λ g q.
        bind-IsEntitled (caller_of ctx) _ _ env s (Reading.get_user_or_404-Reads x) λ t who.
          remove_member-IsEntitled g t (caller_of ctx) env s (get_user_returned x env s t keyed who)

-- The group of a name gives a permission.
abbrev pub GroupGives : Map Group → Text → Text → Type 0
GroupGives groups name p =
    (g : Group) × (look_up_group name groups ≡ some g)
    × (has_permission (some g.permissions) p ≡ true)

granted-GroupGives :
    (groups : Map Group) (name p : Text)
    → granted groups (name ∷ []) p ≡ true
    → GroupGives groups name p
unfolding granted
granted-GroupGives groups name p h = elim (Option-cases (look_up_group name groups)) [
  | inl e ↦ absurd (cc (ap (allows p) e, the_one))
  | inr (g, e) ↦ (g, e, has_permission_of_counts p g.permissions (sym (ap (allows p) e) ∙ the_one))
]
  where
    the_one : allows p (look_up_group name groups) ≡ true
    the_one = ground (arith, h)

-- Where users are stored by their ids and groups by their names in lower case, a UUID that is drawn is
-- new and none of the caller's permissions ends in `*:*`: whatever a request to the directory does, also
-- where it throws, every permission that a user has after it is one that the caller has, or that the user
-- had before, or that the group `users` gives, where the user is new.
pub no_escalation :
    (ctx : AuthContext) (request : DirectoryRequest) (env : Env) (s : UsersState)
    → IsKeyed s.users
    → AreNamed s.groups
    → AreOneStar (caller_of ctx)
    → map_get env.new_id s.users ≡ none
    → (k : Text) (u : User) (p : Text) → map_get k (answer ctx request env s).1.users ≡ some u
    → Has env (answer ctx request env s).1 u p
    → (has_permission (some ctx.permissions) p ≡ true)
      ⊎ (((v : User) × (map_get k s.users ≡ some v) × Has env s v p)
          ⊎ ((map_get k s.users ≡ none) × GroupGives s.groups users_group p))
no_escalation ctx request env s keyed named one fresh k u p at (ps, e, h) =
    let both : (env.has_group_store && granted (answer ctx request env s).1.groups u.groups p)
        ≡ true =
      sym (effective_returned u p env (answer ctx request env s).1 ps e) ∙ h in
    let stored : env.has_group_store ≡ true = ground (arith, both) in
    elim (answer-IsEntitled ctx request env s keyed named one fresh k u p at
      (ground (arith, both))) [
        | inl c ↦ inl c
        | inr (inl (v, was, g)) ↦ inr (inl (v, was, granted-Has v p env s stored g))
        | inr (inr (new, g)) ↦ inr (inr (new, granted-GroupGives s.groups users_group p g))
      ]
