-- ===== src/Users/Refusals.antt =====
-- What an operation on groups and members, and a request to the directory, leaves where it throws: the
-- state as it was.
use cli_server_node.Common.{
  false, not, Option, none, some, List, [], ◌∷◌, Text, map_get, map_values, ◌≡◌, refl, ap, subst,
  ◌∙◌, arith, if_intro,
}
use cli_server_node.Permissions.{same_name, in_group, admin_group}
use cli_server_node.Users.{
  User, Group, CreateGroupDto, UpdateGroupDto, AuthContext, UsersState, Env, UsersError,
}
use cli_server_node.Users.Json.{Json, Fields}
use cli_server_node.Users.Actions.{ok, err, Action, Done, ◌>>=◌}
use cli_server_node.Users.Stores
use cli_server_node.Users.Stores.{store_clash}
use cli_server_node.Users.Directory.{Caller, caller_of}
use cli_server_node.Users.Groups
use cli_server_node.Users.Groups.{without_group, member_left, remove_members, set_groups}
use cli_server_node.Users.Requests.{
  DirectoryRequest, post_user, put_user, delete_user_of, post_group, put_group, delete_group_of,
  post_member, delete_member, answer, put_user_request, users_update,
}
use cli_server_node.Users.Laws.{
  bind_ok_lem, for_some-Reads, or_raise-Reads, raise_if_returned, ok_injective,
}
use cli_server_node.Users.Reading
use cli_server_node.Users.Changes.{IsKeyed}
use cli_server_node.Users.Membership.{regrouped}
use cli_server_node.Users.Leaving.{
  AreStored, none-AreStored, head-AreStored, values-AreStored, member_left-AreStored, not_admin,
}
use cli_server_node.Users.History.{resolve_self_or-Reads}
use cli_server_node.Users.Returning.{
  Returns-bind, Returns-for_each, Returns-pure, audit-Returns, publish_user_event-Returns,
  publish_group_event-Returns,
}
use cli_server_node.Users.Refusing.{
  Clean, Given, Given-Clean, Clean-bind, Clean-then, Returns-bind-Clean, store_update_user-Clean,
  create_user-Clean, update_user-Clean, delete_user-Clean,
}

store_create_group-Clean :
    (dto : CreateGroupDto) (env : Env) (s : UsersState)
    → Clean s (Stores.store_create_group dto env s)
unfolding Stores.store_create_group Stores.get_group
store_create_group-Clean dto env s =
    Clean-bind _ _ env s (λ env s. refl)
      λ found q. Clean-bind _ _ env s (for_some-Reads found _ (λ g env s. refl)) λ _ q.
        Returns-bind-Clean _ _ env s (λ env s. (_, refl))
          λ g. Returns-bind _ _ (λ env s. (tt, refl)) λ _. Returns-pure g

store_update_group-Clean :
    (name : Text) (dto : UpdateGroupDto) (env : Env) (s : UsersState)
    → Clean s (Stores.store_update_group name dto env s)
unfolding Stores.store_update_group Stores.get_group
store_update_group-Clean name dto env s =
    Clean-bind _ _ env s (λ env s. refl)
      λ found q. Clean-bind _ _ env s (or_raise-Reads found _) λ group q.
        Returns-bind-Clean _ _ env s (λ env s. (_, refl))
          λ g. Returns-bind _ _ (λ env s. (tt, refl)) λ _. Returns-pure g

create_group-Clean :
    (body : Fields) (caller : Caller) (env : Env) (s : UsersState)
    → Clean s (Groups.create_group body caller env s)
unfolding Groups.create_group Stores.get_group
create_group-Clean body caller env s =
    Clean-bind _ _ env s (Reading.required_string-Reads body _) λ name_in q.
      Clean-bind _ _ env s (Reading.validate_name-Reads name_in _) λ name q.
        Clean-bind _ _ env s (Reading.optional_string-Reads body _) λ d_in q.
          Clean-bind _ _ env s
            (Reading.checked-Reads _ (λ a. Reading.validate_free_text-Reads a _ _ _) d_in)
            λ d q. Clean-bind _ _ env s (Reading.optional_string_array-Reads body _) λ p_in q.
              Clean-bind _ _ env s (Reading.validate_permissions-Reads _) λ ps q.
                Clean-bind _ _ env s (Reading.assert_can_grant-Reads caller ps) λ _ q.
                  Clean-bind _ _ env s (λ env s. refl)
                    λ found q.
                      Clean-bind _ _ env s (λ env s. refl)
                        λ _ q. Clean-then _ _ env s (store_create_group-Clean _ env s) λ g.
                          Returns-bind _ _ (audit-Returns _) λ _.
                            Returns-bind _ _ (publish_group_event-Returns _ g.name caller)
                              λ _. Returns-pure g

update_group-Clean :
    (g : Group) (body : Fields) (caller : Caller) (env : Env) (s : UsersState)
    → Clean s (Groups.update_group g body caller env s)
unfolding Groups.update_group
update_group-Clean g body caller env s =
    Clean-bind _ _ env s (Reading.optional_string-Reads body _) λ d_in q.
      Clean-bind _ _ env s
        (Reading.checked-Reads _ (λ a. Reading.validate_free_text-Reads a _ _ _) d_in)
        λ d q. Clean-bind _ _ env s (Reading.optional_string_array-Reads body _) λ p_in q.
          Clean-bind _ _ env s (Reading.checked-Reads _ Reading.validate_permissions-Reads p_in)
            λ ps q.
              Clean-bind _ _ env s (λ env s. refl)
                λ _ q.
                  Clean-bind _ _ env s
                    (for_some-Reads ps _ (λ a. Reading.assert_can_grant-Reads caller a))
                    λ _ q. Clean-then _ _ env s (store_update_group-Clean g.name _ env s) λ u.
                      Returns-bind _ _ (audit-Returns _) λ _.
                        Returns-bind _ _ (publish_group_event-Returns _ g.name caller)
                          λ _. Returns-pure u

set_groups-Clean :
    (t : User) (groups : List Text) (env : Env) (s : UsersState)
    → Clean s (set_groups t groups env s)
set_groups-Clean t groups env s =
    Clean-then _ _ env s (store_update_user-Clean t.id (regrouped groups) env s)
      λ _. Returns-pure tt

join_group-Clean :
    (g : Group) (t : User) (caller : Caller) (env : Env) (s : UsersState)
    → Clean s (Groups.join_group g t caller env s)
unfolding Groups.join_group
join_group-Clean g t caller env s =
    Clean-bind _ _ env s (Reading.assert_can_act_on-Reads caller t) λ _ q.
      Clean-bind _ _ env s (Reading.assert_can_add_groups-Reads caller _) λ _ q.
        Clean-then _ _ env s (set_groups-Clean t _ env s)
          λ _. Returns-bind _ _ (audit-Returns _) λ _. publish_user_event-Returns _ t caller

first_group-Clean :
    (gs : List Group) (f : Group → Action Done) (env : Env) (s : UsersState)
    → ((g : Group) → Clean s (f g env s))
    → Clean s (Groups.first_group gs f env s)
first_group-Clean [] f env s h = λ e k. refl
first_group-Clean (g ∷ gs) f env s h = h g

add_member-Clean :
    (name x : Text) (caller : Caller) (env : Env) (s : UsersState)
    → Clean s (Groups.add_member name x caller env s)
unfolding Groups.add_member
add_member-Clean name x caller env s = Clean-bind _ _ env s (Reading.resolve_groups-Reads _) λ gs q.
    first_group-Clean gs _ env s λ g.
      Clean-bind _ _ env s (Reading.get_user_or_404-Reads x) λ user q.
        if_intro (Clean s) (not (in_group (some user.groups) g.name))
          (join_group-Clean g user caller env s) (λ e k. refl)

remove_member-Clean :
    (g : Group) (t : User) (caller : Caller) (env : Env) (s : UsersState)
    → Clean s (Groups.remove_member g t caller env s)
unfolding Groups.remove_member Groups.leave_group
remove_member-Clean g t caller env s =
    if_intro (Clean s) (in_group (some t.groups) g.name)
      (Clean-bind _ _ env s (Reading.assert_can_act_on-Reads caller t) λ _ q.
        Clean-bind _ _ env s (Reading.is_last_enabled_admin-Reads t) λ l q.
          Clean-bind _ _ env s (λ env s. refl)
            λ _ q.
              Clean-then _ _ env s (set_groups-Clean t _ env s)
                λ _. Returns-bind _ _ (audit-Returns _) λ _. publish_user_event-Returns _ t caller)
      (λ e k. refl)

-- Where neither a name nor an email is given, the store finds no clash.
store_clash_nothing :
    (except : Option Text) (users : List User) → store_clash none none except users ≡ none
unfolding store_clash
store_clash_nothing except [] = refl
store_clash_nothing except (u ∷ users) = ground (arith, store_clash_nothing except users)

regrouped-Given :
    (t : User) (groups : List Text) (env : Env) (s : UsersState)
    → map_get t.id s.users ≡ some t
    → Given (Stores.store_update_user t.id (regrouped groups) env s)
unfolding Stores.store_update_user ◌>>=◌
regrouped-Given t groups env s at =
    rw (at, store_clash_nothing (some t.id) (map_values s.users)) (_, refl)

bind-Given :
    {A B : Type 0} (m : Action A) (f : A → Action B) (env : Env) (s : UsersState)
    → Given (m env s)
    → ((a : A) → (m env s).0 ≡ ok a → Given (f a env (m env s).1))
    → Given ((m >>= f) env s)
bind-Given m f env s (a, e) h =
    let (b, k) = h a e in (b, ap (λ q. q.0) (bind_ok_lem m f env s a e) ∙ k)

member_left-Given :
    (name : Text) (t : User) (us : List User) (env : Env) (s : UsersState)
    → AreStored (t ∷ us) s.users
    → Given (member_left name t env s)
member_left-Given name t us env s h =
    if_intro (λ (m : Action (List User)). Given (m env s)) (in_group (some t.groups) name)
      (bind-Given _ _ env s (regrouped-Given t _ env s (head-AreStored t us s.users h))
        (λ u q. (_, refl)))
      (_, refl)

-- The loop of the deletion of a group does not throw.
remove_members-Given :
    (name : Text)
    → same_name (some name) (some admin_group) ≡ false
    → (us : List User) (env : Env) (s : UsersState) → AreStored us s.users
    → Given (remove_members name us env s)
unfolding remove_members
remove_members-Given name other [] env s h = (_, refl)
remove_members-Given name other (t ∷ us) env s h =
    bind-Given _ _ env s (member_left-Given name t us env s h) λ left q.
      bind-Given _ _ env _
        (remove_members-Given name other us env _ (member_left-AreStored name other t us env s h))
        (λ rest q. (_, refl))

delete_group-Clean :
    (g : Group) (caller : Caller) (env : Env) (s : UsersState)
    → IsKeyed s.users
    → Clean s (Groups.delete_group g caller env s)
unfolding Groups.delete_group Stores.store_delete_group
delete_group-Clean g caller env s w =
    Clean-bind _ _ env s (λ env s. refl)
      λ _ built. Given-Clean s _ (
        bind-Given _ _ env s (tt, refl)
          λ _ q.
            bind-Given _ _ env _ (_, refl)
              λ read_only q.
                bind-Given _ _ env _ (_, refl)
                  λ users got.
                    bind-Given _ _ env _
                      (remove_members-Given g.name (not_admin g (raise_if_returned _ _ env s built))
                        _ env _
                        (if_intro (λ us. AreStored us s.users) read_only (none-AreStored s.users)
                          (subst (λ us. AreStored us s.users) (ok_injective got)
                            (values-AreStored s.users w))))
                      λ members q.
                        Returns-bind _ _ (audit-Returns _)
                          (λ _. Returns-bind _ _ (publish_group_event-Returns _ g.name caller) λ _.
                            Returns-for_each _ (λ m. publish_user_event-Returns _ m caller) members)
                          env _)

put_user-Clean :
    (ctx : AuthContext) (x : Text) (json : Option Json) (env : Env) (s : UsersState)
    → Clean s (put_user_request ctx x json env s)
unfolding put_user_request
put_user-Clean ctx x json env s = Clean-bind _ _ env s (Reading.body_of-Reads json) λ body q.
    Clean-bind _ _ env s (resolve_self_or-Reads ctx users_update x) λ t q.
      Clean-bind _ _ env s (λ env s. refl)
        λ _ q.
          Clean-then _ _ env s (update_user-Clean t body (caller_of ctx) env s) λ u. Returns-pure tt

-- Where the store keeps users by their ids: a request to the directory that throws leaves the whole state
-- as it was; nothing is stored, revoked, logged or published.
pub answer_refused :
    (ctx : AuthContext) (request : DirectoryRequest) (env : Env) (s : UsersState) (e : UsersError)
    → IsKeyed s.users
    → (answer ctx request env s).0 ≡ err e
    → (answer ctx request env s).1 ≡ s
unfolding answer
answer_refused ctx request env s e w h = clean request e h
  where
    caller : Caller
    caller = caller_of ctx

    clean : (r : DirectoryRequest) → Clean s (answer ctx r env s)
    clean (post_user external json) =
        Clean-bind _ _ env s (λ env s. refl)
          λ _ q. Clean-bind _ _ env s (Reading.body_of-Reads json) λ body q.
            Clean-then _ _ env s (create_user-Clean body caller external env s) λ u. Returns-pure tt
    clean (put_user x json) = put_user-Clean ctx x json env s
    clean (delete_user_of x) =
        Clean-bind _ _ env s (λ env s. refl)
          λ _ q.
            Clean-bind _ _ env s (Reading.get_user_or_404-Reads x)
              λ t q. delete_user-Clean t caller env s
    clean (post_group json) =
        Clean-bind _ _ env s (λ env s. refl)
          λ _ q. Clean-bind _ _ env s (Reading.body_of-Reads json) λ body q.
            Clean-then _ _ env s (create_group-Clean body caller env s) λ u. Returns-pure tt
    clean (put_group name json) =
        Clean-bind _ _ env s (λ env s. refl)
          λ _ q. Clean-bind _ _ env s (Reading.body_of-Reads json) λ body q.
            Clean-bind _ _ env s (Reading.get_group_or_404-Reads name) λ g q.
              Clean-then _ _ env s (update_group-Clean g body caller env s) λ u. Returns-pure tt
    clean (delete_group_of name) =
        Clean-bind _ _ env s (λ env s. refl)
          λ _ q.
            Clean-bind _ _ env s (Reading.get_group_or_404-Reads name)
              λ g q. delete_group-Clean g caller env s w
    clean (post_member name x) =
        Clean-bind _ _ env s (λ env s. refl) λ _ q. add_member-Clean name x caller env s
    clean (delete_member name x) =
        Clean-bind _ _ env s (λ env s. refl)
          λ _ q. Clean-bind _ _ env s (Reading.get_group_or_404-Reads name) λ g q.
            Clean-bind _ _ env s (Reading.get_user_or_404-Reads x)
              λ t q. remove_member-Clean g t caller env s
