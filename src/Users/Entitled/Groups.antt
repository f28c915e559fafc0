-- ===== src/Users/Entitled/Groups.antt =====
-- Groups that are created, changed and deleted give no one a permission that the caller has not.
use cli_server_node.Common.{
  true, false, none, some, Option-cases, List, [], ◌∷◌, Text, map_get, to_lower, ◌≡◌, refl, ap,
  subst, ◌∙◌, inl, inr, ◌⊎◌, if_intro,
}
use mathlib.Core.Option
use cli_server_node.Permissions.{in_group, admin_group, same_name}
use cli_server_node.Users.{User, Group, CreateGroupDto, UpdateGroupDto, UsersState, Env}
use cli_server_node.Users.Json.{Fields}
use cli_server_node.Users.Actions.{ok, Action, for_some, ◌>>=◌}
use cli_server_node.Users.Stores
use cli_server_node.Users.Stores.{look_up_group, given_or}
use cli_server_node.Users.Directory
use cli_server_node.Users.Directory.{Caller, names_of}
use cli_server_node.Users.Groups
use cli_server_node.Users.Groups.{without_group, member_left, remove_members, set_groups}
use cli_server_node.Users.Laws.{
  bind_elim, reads_bind, bind-Keeps, for_each-Keeps, for_some-Reads, raise_if_returned,
  ok_injective,
}
use cli_server_node.Users.Reading
use cli_server_node.Users.Changes.{IsKeyed}
use cli_server_node.Users.Membership.{regrouped}
use cli_server_node.Users.Leaving.{
  AreStored, none-AreStored, head-AreStored, values-AreStored, member_left-AreStored, not_admin,
}
use cli_server_node.Users.Granted.{
  allows, counts, has_permission_of_counts, assert_can_grant_returned,
}
use cli_server_node.Users.Entitled.{
  IsEntitled, start-IsEntitled, store_update_user-IsEntitled, store_delete_group-IsEntitled,
  put_group-IsEntitled, bind-IsEntitled, granted-without_group,
}
use cli_server_node.Users.Entitled.Managing.{
  AreOneStar, CallerHas, audit-Stays, publish_user_event-Stays,
}
use cli_server_node.Users.Entitled.Membership.{publish_group_event-Stays}

store_create_group-IsEntitled :
    (dto : CreateGroupDto) (caller : Caller) (env : Env) (s : UsersState)
    → ((p : Text) → counts p (Option.get_or dto.permissions []) ≡ true → CallerHas caller p)
    → IsEntitled s caller (Stores.store_create_group dto env s).1
unfolding Stores.store_create_group Stores.get_group ◌>>=◌
store_create_group-IsEntitled dto caller env s f =
    elim (Option-cases (map_get (to_lower dto.name) s.groups)) [
      | inl e ↦ rw e (
          put_group-IsEntitled s caller (to_lower dto.name) _ s (λ p h. inl (f p h))
            (start-IsEntitled s caller))
      | inr (g, e) ↦ rw e (start-IsEntitled s caller)
    ]

pub create_group-IsEntitled :
    (body : Fields) (caller : Caller) (env : Env) (s : UsersState)
    → AreOneStar caller
    → IsEntitled s caller (Groups.create_group body caller env s).1
unfolding Groups.create_group Stores.get_group
create_group-IsEntitled body caller env s one =
    bind-IsEntitled caller _ _ env s (Reading.required_string-Reads body _) λ name_in q.
      bind-IsEntitled caller _ _ env s (Reading.validate_name-Reads name_in _) λ name q.
        bind-IsEntitled caller _ _ env s (Reading.optional_string-Reads body _) λ d_in q.
          bind-IsEntitled caller _ _ env s
            (Reading.checked-Reads _ (λ a. Reading.validate_free_text-Reads a _ _ _) d_in)
            λ d q.
              bind-IsEntitled caller _ _ env s (Reading.optional_string_array-Reads body _)
                λ p_in q.
                  bind-IsEntitled caller _ _ env s (Reading.validate_permissions-Reads _) λ ps q.
                    bind-IsEntitled caller _ _ env s (Reading.assert_can_grant-Reads caller ps)
                      λ _ may.
                        bind-IsEntitled caller _ _ env s (λ env s. refl)
                          λ found q.
                            bind-IsEntitled caller _ _ env s (λ env s. refl)
                              λ _ q.
                                let base = store_create_group-IsEntitled _ caller env s (λ p h.
                                  assert_can_grant_returned caller ps p env s one may
                                    (has_permission_of_counts p ps h)) in
                                bind_elim _ _ env s (λ q. IsEntitled s caller q.1) (λ e q. base)
                                  (λ g q.
                                    bind-Keeps (IsEntitled s caller) _ _ (audit-Stays s caller _)
                                      (λ _.
                                        bind-Keeps (IsEntitled s caller) _ _
                                          (publish_group_event-Stays s caller _ g.name caller)
                                          (λ _ env s p. p))
                                      env _ base)

store_update_group-IsEntitled :
    (name : Text) (dto : UpdateGroupDto) (caller : Caller) (env : Env) (s : UsersState)
    → ((ps : List Text) (p : Text)
        → dto.permissions ≡ some ps
        → counts p ps ≡ true
        → CallerHas caller p)
    → IsEntitled s caller (Stores.store_update_group name dto env s).1
unfolding Stores.store_update_group Stores.get_group ◌>>=◌
store_update_group-IsEntitled name dto caller env s f =
    elim (Option-cases (map_get (to_lower name) s.groups)) [
      | inl e ↦ rw e (start-IsEntitled s caller)
      | inr (g, e) ↦ rw e (
          put_group-IsEntitled s caller (to_lower name) _ s
            (λ p h. given p g e (Option-cases dto.permissions) h) (start-IsEntitled s caller))
    ]
  where
    given :
        (p : Text) (g : Group)
        → map_get (to_lower name) s.groups ≡ some g
        → (dto.permissions ≡ none) ⊎ ((ps : List Text) × (dto.permissions ≡ some ps))
        → counts p (given_or dto.permissions g.permissions) ≡ true
        → CallerHas caller p ⊎ (allows p (map_get (to_lower name) s.groups) ≡ true)
    given p g e (inl n) h =
        inr (ap (allows p) e ∙ subst (λ o. counts p (given_or o g.permissions) ≡ true) n h)
    given p g e (inr (ps, k)) h =
        inl (f ps p k (subst (λ o. counts p (given_or o g.permissions) ≡ true) k h))

pub update_group-IsEntitled :
    (g : Group) (body : Fields) (caller : Caller) (env : Env) (s : UsersState)
    → AreOneStar caller
    → IsEntitled s caller (Groups.update_group g body caller env s).1
unfolding Groups.update_group
update_group-IsEntitled g body caller env s one =
    bind-IsEntitled caller _ _ env s (Reading.optional_string-Reads body _) λ d_in q.
      bind-IsEntitled caller _ _ env s
        (Reading.checked-Reads _ (λ a. Reading.validate_free_text-Reads a _ _ _) d_in)
        λ d q.
          bind-IsEntitled caller _ _ env s (Reading.optional_string_array-Reads body _) λ p_in q.
            bind-IsEntitled caller _ _ env s
              (Reading.checked-Reads _ Reading.validate_permissions-Reads p_in)
              λ ps q.
                bind-IsEntitled caller _ _ env s (λ env s. refl)
                  λ _ q.
                    bind-IsEntitled caller _ _ env s
                      (for_some-Reads ps _ (λ a. Reading.assert_can_grant-Reads caller a))
                      λ _ may.
                        let base =
                          store_update_group-IsEntitled g.name
                            (record { description = d; permissions = ps }) caller env s
                            (λ l p k h.
                              assert_can_grant_returned caller l p env s one
                                (subst
                                  (λ o.
                                    (for_some o (Directory.assert_can_grant caller) env s).0
                                    ≡ ok tt)
                                  k may)
                                (has_permission_of_counts p l h)) in
                        bind_elim _ _ env s (λ q. IsEntitled s caller q.1) (λ e q. base)
                          (λ u q.
                            bind-Keeps (IsEntitled s caller) _ _ (audit-Stays s caller _)
                              (λ _.
                                bind-Keeps (IsEntitled s caller) _ _
                                  (publish_group_event-Stays s caller _ g.name caller)
                                  (λ _ env s p. p))
                              env _ base)

-- A member that leaves a group that is deleted has no more than before.
member_left-IsEntitled :
    (s : UsersState) (caller : Caller) (name : Text) (t : User) (us : List User) (env : Env)
    (s' : UsersState)
    → AreStored (t ∷ us) s'.users
    → IsEntitled s caller s'
    → IsEntitled s caller (member_left name t env s').1
member_left-IsEntitled s caller name t us env s' h i =
    let base =
      store_update_user-IsEntitled s caller t (regrouped (without_group name t.groups)) env s'
        (head-AreStored t us s'.users h)
        (λ p k. inr (granted-without_group s'.groups name t.groups p k)) i in
    if_intro (λ (m : Action (List User)). IsEntitled s caller (m env s').1)
      (in_group (some t.groups) name)
      (bind_elim _ _ env s' (λ q. IsEntitled s caller q.1) (λ e q. base) (λ u q. base)) i

remove_members-IsEntitled :
    (s : UsersState) (caller : Caller) (name : Text)
    → same_name (some name) (some admin_group) ≡ false
    → (us : List User) (env : Env) (s' : UsersState) → AreStored us s'.users
    → IsEntitled s caller s'
    → IsEntitled s caller (remove_members name us env s').1
unfolding remove_members
remove_members-IsEntitled s caller name other [] env s' h i = i
remove_members-IsEntitled s caller name other (t ∷ us) env s' h i =
    let base = member_left-IsEntitled s caller name t us env s' h i in
    bind_elim _ _ env s' (λ q. IsEntitled s caller q.1) (λ e q. base)
      (λ left q.
        let rest =
          remove_members-IsEntitled s caller name other us env _
            (member_left-AreStored name other t us env s' h) base in
        bind_elim _ _ env _ (λ q. IsEntitled s caller q.1) (λ e q. rest) (λ r q. rest))

pub delete_group-IsEntitled :
    (g : Group) (caller : Caller) (env : Env) (s : UsersState)
    → IsKeyed s.users
    → IsEntitled s caller (Groups.delete_group g caller env s).1
unfolding Groups.delete_group Stores.store_delete_group
delete_group-IsEntitled g caller env s keyed =
    bind-IsEntitled caller _ _ env s (λ env s. refl)
      λ _ built.
        let P : UsersState → Type 0 = IsEntitled s caller in
        let gone =
          store_delete_group-IsEntitled s caller g.name env s (start-IsEntitled s caller) in
        let s₁ : UsersState = (Stores.store_delete_group g.name env s).1 in
        bind_elim _ _ env s (λ q. P q.1) (λ e q. gone)
          λ _ q.
            reads_bind _ _ env s₁ (λ q. P q.1) (λ env s. refl) (λ e q. gone)
              λ read_only q.
                reads_bind _ _ env s₁ (λ q. P q.1) (λ env s. refl) (λ e q. gone)
                  λ users got.
                    let left =
                      remove_members-IsEntitled s caller g.name
                        (not_admin g (raise_if_returned _ _ env s built)) _ env s₁
                        (if_intro (λ us. AreStored us s₁.users) read_only (none-AreStored s₁.users)
                          (all_stored users got))
                        gone in
                    bind_elim _ _ env s₁ (λ q. P q.1) (λ e q. left)
                      λ members q.
                        bind-Keeps P _ _ (audit-Stays s caller _)
                          (λ _.
                            bind-Keeps P _ _ (publish_group_event-Stays s caller _ g.name caller)
                              (λ _.
                                for_each-Keeps P _
                                  (λ m. publish_user_event-Stays s caller _ m caller) members))
                          env _ left
  where
    all_stored :
        (users : List User)
        → (Stores.get_users env (Stores.store_delete_group g.name env s).1).0 ≡ ok users
        → AreStored users (Stores.store_delete_group g.name env s).1.users
    all_stored users got =
        subst (λ us. AreStored us s.users) (ok_injective got) (values-AreStored s.users keyed)
