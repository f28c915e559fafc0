-- ===== src/Users/Entitled/Managing.antt =====
-- createUser, updateUser and deleteUser give no one a permission that the caller has not.
use cli_server_node.Common.{
  Bool, true, false, Option, none, some, List, [], ◌∷◌, Text, map_get, map_values, All, Bool-cases,
  Option-cases, ◌≡◌, refl, subst, arith, inl, inr, ◌⊎◌, if◌then◌else◌, some_injective,
}
use mathlib.Core.Option
use cli_server_node.Permissions.{segments, has_permission, users_group}
use cli_server_node.Permissions.Matching.{EndsInOneStar}
use cli_server_node.Audit.{AuditEntry}
use cli_server_node.Users.{User, Group, CreateUserDto, UpdateUserDto, UsersState, Env}
use cli_server_node.Users.Json.{Fields}
use cli_server_node.Users.Actions.{ok, audit, when, for_some, ◌>>=◌}
use cli_server_node.Users.Stores
use cli_server_node.Users.Stores.{store_clash, created_user, given_or}
use cli_server_node.Users.Access.{set_password, delete_credentials, clear_user_lockout}
use cli_server_node.Users.Sessions.{Revocation, revoke_user_sessions}
use cli_server_node.Users.Tokens.{delete_user_tokens}
use cli_server_node.Users.Directory
use cli_server_node.Users.Directory.{Caller, Details, names_of, added_groups, explicit}
use cli_server_node.Users.Laws.{
  Keeps, bind_elim, bind-Keeps, when-Keeps, for_some-Keeps, Reads-returned, when-Reads,
  for_some-Reads, ok_injective,
}
use cli_server_node.Users.Reading
use cli_server_node.Users.Outside.{
  audit-Keeps, publish_user_event-Keeps, revoke_user_sessions-Keeps, delete_user_tokens_after,
}
use cli_server_node.Users.Granted.{
  granted, AreNamed, resolve_groups-granted, resolve_groups-AreFound, AreFound, found_granted,
  added_granted, assert_can_add_groups_returned,
}
use cli_server_node.Users.Entitled.{
  IsEntitled, start-IsEntitled, put-IsEntitled, store_update_user-IsEntitled,
  store_delete_user-IsEntitled, bind-IsEntitled,
}

-- None of the caller's permissions ends in `*:*`.
abbrev pub AreOneStar : Caller → Type 0
AreOneStar caller = All (λ c. EndsInOneStar (segments c)) caller.permissions

abbrev pub CallerHas : Caller → Text → Type 0
CallerHas caller p = has_permission (some caller.permissions) p ≡ true

-- What the groups of a new user give.
created_granted :
    (named : Bool) (names : List Text) (gs : List Group) (caller : Caller) (p : Text) (env : Env)
    (s : UsersState)
    → AreNamed s.groups
    → AreOneStar caller
    → (Directory.resolve_groups (if named then names else users_group ∷ []) env s).0 ≡ ok gs
    → (when named (Directory.assert_can_add_groups caller gs) env s).0 ≡ ok tt
    → granted s.groups (names_of gs) p ≡ true
    → CallerHas caller p ⊎ (granted s.groups (users_group ∷ []) p ≡ true)
created_granted true names gs caller p env s w o h k g = inl (
    assert_can_add_groups_returned caller gs p env s o k
      (found_granted s.groups gs p (resolve_groups-AreFound names env s gs w h) g))
created_granted false names gs caller p env s w o h k g =
    inr (resolve_groups-granted (users_group ∷ []) p env s gs w h g)

-- What the groups of a user give after an update.
update_granted :
    (o : Option (List Text)) (gs : Option (List Group)) (t : User) (caller : Caller) (p : Text)
    (env : Env) (s : UsersState)
    → AreNamed s.groups
    → AreOneStar caller
    → (Directory.resolved o env s).0 ≡ ok gs
    → (for_some gs (λ g. Directory.assert_can_add_groups caller (added_groups t g)) env s).0 ≡ ok tt
    → granted s.groups (given_or (Option.map names_of gs) t.groups) p ≡ true
    → CallerHas caller p ⊎ (granted s.groups t.groups p ≡ true)
update_granted o none t caller p env s w one h k g = inr g
update_granted none (some gs) t caller p env s w one h k g = absurd (cc (ok_injective h))
update_granted (some names) (some gs) t caller p env s w one h k g =
    let (found, got, so) =
      Reads-returned _ _ env s (some gs) (Reading.resolve_groups-Reads names) h in
    let same : found ≡ gs = some_injective (ok_injective so) in
    let are =
      subst (λ l. AreFound s.groups l) same (resolve_groups-AreFound names env s found w got) in
    elim (Bool-cases (granted s.groups t.groups p)) [
      | inl e ↦ inr e
      | inr d ↦ inl (
          assert_can_add_groups_returned caller (added_groups t gs) p env s one k
            (ground (arith, added_granted s.groups t gs p are g, d)))
    ]

assert_can_update_grants :
    (t : User) (name email : Option Text) (d : Details) (gs : Option (List Group)) (caller : Caller)
    (env : Env) (s : UsersState)
    → (Directory.assert_can_update t name email d gs caller env s).0 ≡ ok tt
    → (for_some gs (λ g. Directory.assert_can_add_groups caller (added_groups t g)) env s).0 ≡ ok tt
unfolding Directory.assert_can_update
assert_can_update_grants t name email d gs caller env s h =
    let (_, _, h) =
      Reads-returned _ _ env s tt (when-Reads _ _ (Reading.assert_can_act_on-Reads caller t)) h in
    let (_, grants, h) =
      Reads-returned _ _ env s tt
        (for_some-Reads gs _ (λ g. Reading.assert_can_add_groups-Reads caller _)) h in
    grants

store_create_user-IsEntitled :
    (dto : CreateUserDto) (caller : Caller) (env : Env) (s : UsersState)
    → map_get env.new_id s.users ≡ none
    → ((p : Text)
        → granted s.groups (Option.get_or dto.groups []) p ≡ true
        → CallerHas caller p ⊎ (granted s.groups (users_group ∷ []) p ≡ true))
    → IsEntitled s caller (Stores.store_create_user dto env s).1
unfolding Stores.store_create_user ◌>>=◌
store_create_user-IsEntitled dto caller env s fresh f =
    elim (Option-cases (store_clash (some dto.name) (some dto.email) none (map_values s.users))) [
      | inl e ↦ rw e (
          put-IsEntitled s caller env.new_id (created_user env dto) s (start-IsEntitled s caller)
            (λ p g. elim (f p g) [ inl c ↦ inl c | inr d ↦ inr (inr (fresh, d)) ]))
      | inr (x, e) ↦ rw e (start-IsEntitled s caller)
    ]

-- What follows a change of users changes neither users nor groups.
module _ (s : UsersState) (caller : Caller) where
  abbrev pub Stays : UsersState → Type 0
  Stays = IsEntitled s caller

  set_password-Stays : (id password : Text) → Keeps Stays (set_password id password)
  unfolding set_password Stores.store_set_password
  set_password-Stays id password =
      bind-Keeps Stays _ _ (λ env s p. p)
        (λ e. bind-Keeps Stays _ _ (λ env s p. p) (λ now env s p. p))

  delete_credentials-Stays : (id : Text) → Keeps Stays (delete_credentials id)
  unfolding delete_credentials Stores.store_delete_credentials clear_user_lockout
  delete_credentials-Stays id = bind-Keeps Stays _ _ (λ env s p. p) (λ _ env s p. p)

  pub audit-Stays : (e : AuditEntry) → Keeps Stays (audit e)
  audit-Stays = audit-Keeps Stays (λ s es p. p)

  pub publish_user_event-Stays :
      (type : Text) (u : User) (by : Caller) → Keeps Stays (Directory.publish_user_event type u by)
  publish_user_event-Stays = publish_user_event-Keeps Stays (λ s es p. p)

  revoke_user_sessions-Stays :
      (id reason : Text) (by : Revocation) → Keeps Stays (revoke_user_sessions id reason by)
  unfolding Stores.delete_session_by_id
  revoke_user_sessions-Stays id reason by =
      revoke_user_sessions-Keeps Stays (λ s es p. p) id reason by (λ id env s p. p)

  delete_user_tokens-Stays :
      (id : Text) (actor : Option Text) → Keeps Stays (delete_user_tokens id actor)
  unfolding Stores.store_delete_user_tokens
  delete_user_tokens-Stays id actor env s p =
      delete_user_tokens_after Stays (λ s es p. p) id actor env s p

add_user-IsEntitled :
    (dto : CreateUserDto) (password : Option Text) (caller : Caller) (env : Env) (s : UsersState)
    → map_get env.new_id s.users ≡ none
    → ((p : Text)
        → granted s.groups (Option.get_or dto.groups []) p ≡ true
        → CallerHas caller p ⊎ (granted s.groups (users_group ∷ []) p ≡ true))
    → IsEntitled s caller (Directory.add_user dto password caller env s).1
unfolding Directory.add_user
add_user-IsEntitled dto password caller env s fresh f =
    let P : UsersState → Type 0 = IsEntitled s caller in
    let base = store_create_user-IsEntitled dto caller env s fresh f in
    bind_elim _ _ env s (λ q. P q.1) (λ e q. base)
      (λ u q.
        bind-Keeps P _ _
          (for_some-Keeps P password _ (λ text. set_password-Stays s caller u.id text))
          (λ _.
            bind-Keeps P _ _ (audit-Stays s caller _) (λ _.
              bind-Keeps P _ _ (publish_user_event-Stays s caller _ u caller) (λ _ env s p. p)))
          env _ base)

pub create_user-IsEntitled :
    (body : Fields) (caller : Caller) (external : Bool) (env : Env) (s : UsersState)
    → AreNamed s.groups
    → AreOneStar caller
    → map_get env.new_id s.users ≡ none
    → IsEntitled s caller (Directory.create_user body caller external env s).1
unfolding Directory.create_user
create_user-IsEntitled body caller external env s w one fresh =
    bind-IsEntitled caller _ _ env s (Reading.required_string-Reads body _) λ name_in q.
      bind-IsEntitled caller _ _ env s (Reading.validate_name-Reads name_in _) λ name q.
        bind-IsEntitled caller _ _ env s (Reading.required_string-Reads body _) λ email_in q.
          bind-IsEntitled caller _ _ env s (Reading.validate_email-Reads email_in) λ email q.
            bind-IsEntitled caller _ _ env s (Reading.read_details-Reads body) λ d q.
              bind-IsEntitled caller _ _ env s (Reading.password_given-Reads external _ _)
                λ password q.
                  bind-IsEntitled caller _ _ env s (Reading.resolve_groups-Reads _) λ gs got.
                    bind-IsEntitled caller _ _ env s
                      (when-Reads _ _ (Reading.assert_can_add_groups-Reads caller gs))
                      λ _ may.
                        bind-IsEntitled caller _ _ env s (Reading.assert_unique_user-Reads _ _ _)
                          λ _ q. add_user-IsEntitled _ password caller env s fresh (λ p.
                            created_granted (explicit d.groups_in) _ gs caller p env s w one got
                              may)

change_user-IsEntitled :
    (t : User) (dto : UpdateUserDto) (caller : Caller) (env : Env) (s : UsersState)
    → map_get t.id s.users ≡ some t
    → ((p : Text)
        → granted s.groups (given_or dto.groups t.groups) p ≡ true
        → CallerHas caller p ⊎ (granted s.groups t.groups p ≡ true))
    → IsEntitled s caller (Directory.change_user t dto caller env s).1
unfolding Directory.change_user
change_user-IsEntitled t dto caller env s at f =
    let P : UsersState → Type 0 = IsEntitled s caller in
    let base = store_update_user-IsEntitled s caller t dto env s at f (start-IsEntitled s caller) in
    bind_elim _ _ env s (λ q. P q.1) (λ e q. base)
      (λ u q.
        bind-Keeps P _ _
          (when-Keeps P _ _
            (bind-Keeps P _ _ (revoke_user_sessions-Stays s caller t.id _ _) (λ _ env s p. p)))
          (λ _. bind-Keeps P _ _ (when-Keeps P _ _ (audit-Stays s caller _)) (λ _.
            bind-Keeps P _ _ (when-Keeps P _ _ (audit-Stays s caller _)) (λ _.
              bind-Keeps P _ _ (when-Keeps P _ _ (publish_user_event-Stays s caller _ u caller))
                (λ _ env s p. p))))
          env _ base)

pub update_user-IsEntitled :
    (t : User) (body : Fields) (caller : Caller) (env : Env) (s : UsersState)
    → AreNamed s.groups
    → AreOneStar caller
    → map_get t.id s.users ≡ some t
    → IsEntitled s caller (Directory.update_user t body caller env s).1
unfolding Directory.update_user
update_user-IsEntitled t body caller env s w one at =
    bind-IsEntitled caller _ _ env s (Reading.optional_string-Reads body _) λ name_in q.
      bind-IsEntitled caller _ _ env s
        (Reading.checked-Reads _ (λ a. Reading.validate_name-Reads a _) name_in)
        λ name q.
          bind-IsEntitled caller _ _ env s (Reading.optional_string-Reads body _) λ email_in q.
            bind-IsEntitled caller _ _ env s
              (Reading.checked-Reads _ Reading.validate_email-Reads email_in)
              λ email q. bind-IsEntitled caller _ _ env s (Reading.read_details-Reads body) λ d q.
                bind-IsEntitled caller _ _ env s (Reading.resolved-Reads d.groups_in) λ gs got.
                  bind-IsEntitled caller _ _ env s
                    (Reading.assert_can_update-Reads t name email d gs caller)
                    λ _ q.
                      change_user-IsEntitled t (Directory.update_of name email d gs) caller env s at
                        (λ p.
                          update_granted d.groups_in gs t caller p env s w one got
                            (assert_can_update_grants t name email d gs caller env s q))

drop_user-IsEntitled :
    (t : User) (caller : Caller) (env : Env) (s : UsersState)
    → IsEntitled s caller (Directory.drop_user t caller env s).1
unfolding Directory.drop_user Directory.drop_tokens
drop_user-IsEntitled t caller env s =
    let P : UsersState → Type 0 = IsEntitled s caller in
    bind-Keeps P _ _ (store_delete_user-IsEntitled s caller t.id)
      (λ _. bind-Keeps P _ _ (delete_credentials-Stays s caller t.id) (λ _.
        bind-Keeps P _ _ (revoke_user_sessions-Stays s caller t.id _ _) (λ _.
          bind-Keeps P _ _ (delete_user_tokens-Stays s caller t.id _) (λ _.
            bind-Keeps P _ _ (audit-Stays s caller _)
              (λ _. publish_user_event-Stays s caller _ t caller)))))
      env s (start-IsEntitled s caller)

pub delete_user-IsEntitled :
    (t : User) (caller : Caller) (env : Env) (s : UsersState)
    → IsEntitled s caller (Directory.delete_user t caller env s).1
unfolding Directory.delete_user
delete_user-IsEntitled t caller env s =
    bind-IsEntitled caller _ _ env s (λ env s. refl)
      λ _ q. bind-IsEntitled caller _ _ env s (Reading.assert_can_act_on-Reads caller t) λ _ q.
        bind-IsEntitled caller _ _ env s (Reading.is_last_enabled_admin-Reads t) λ l q.
          bind-IsEntitled caller _ _ env s (λ env s. refl)
            λ _ q. drop_user-IsEntitled t caller env s
