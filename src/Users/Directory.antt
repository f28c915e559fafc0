-- ===== src/Users/Directory.antt =====
-- plugins/users/services/directory-service.ts: who may change what, and the management of users.
use cli_server_node.Common.{
  Bool, true, false, not, ◌||◌, ◌&&◌, Option, none, some, List, [], ◌∷◌, ◌++◌, map, String, Text,
  codes, text_eq, join, is_nil, is_some, if◌then◌else◌, any, filter, take,
}
use mathlib.Core.Option
use cli_server_node.Permissions.{
  in_group, same_name, merge_permissions, uncovered_permissions, admin_group, users_group,
}
use cli_server_node.Audit.{AuditEntry}
use cli_server_node.Users.{User, Group, CreateUserDto, UpdateUserDto, AuthContext, UsersError}
use cli_server_node.Users.Json.{Json, Fields, field_of}
use cli_server_node.Users.Actions.{
  refuse, Action, Done, done, pure, raise_if, or_raise, when, for_some, ◌>>=◌, ◌>>◌, bad_request,
  forbidden, not_found, conflict, audit, entry_of, publish_event, strip_controls,
}
use cli_server_node.Users.Stores.{
  is_id, get_user, get_users, get_group, store_create_user, store_update_user, store_delete_user,
}
use cli_server_node.Users.Validation.{
  required_string, optional_string, optional_string_array, optional_boolean, optional_object,
  checked, validate_name, validate_email, validate_free_text, validate_data, max_home_dir_length,
  max_name_length, is_missing,
}
use cli_server_node.Users.Access.{
  validate_password, set_password, delete_credentials, get_effective_permissions,
}
use cli_server_node.Users.Sessions.{Revocation, revoke_user_sessions, for_holders}
use cli_server_node.Users.Tokens.{delete_user_tokens}

-- The caller of a management operation.
pub record Caller : Type 0 where
  pub id : Text
  pub name : Text
  pub permissions : List Text

abbrev pub caller_of : AuthContext → Caller
caller_of ctx = record { id = ctx.user.id; name = ctx.user.name; permissions = ctx.permissions }

unfoldable pub get_user_or_404 : Text → Action User
get_user_or_404 id_or_name = do
  found ← get_user id_or_name
  or_raise found (not_found (codes "user not found"))

unfoldable pub get_group_or_404 : Text → Action Group
get_group_or_404 name = do
  found ← get_group name
  or_raise found (not_found (codes "group not found"))

abbrev pub same_group : Group → Group → Bool
same_group g h = same_name (some g.name) (some h.name)

-- A round of the loop of `resolveGroups`, after the group was found.
abbrev pub add_group : Group → List Group → List Group
add_group g out = if any (λ h. same_group h g) out then out else out ++ g ∷ []

unfoldable pub resolve_groups_from : List Group → List Text → Action (List Group)
resolve_groups_from out [] = pure out
resolve_groups_from out (name ∷ names) = do
  found ← get_group name
  group ←
      or_raise found
        (bad_request (codes "unknown group: " ++ take max_name_length (strip_controls name)))
  resolve_groups_from (add_group group out) names

unfoldable pub resolve_groups : List Text → Action (List Group)
unfolding resolve_groups_from
resolve_groups names = resolve_groups_from [] names

abbrev pub takes : Option Text → User → Bool
takes none u = false
takes (some t) u = same_name (some u.name) (some t) || same_name (some u.email) (some t)

-- The error of `assertUniqueUser`, if it throws.
unfoldable pub user_clash : Option Text → Option Text → Option Text → List User → Option UsersError
user_clash name email except [] = none
user_clash name email except (u ∷ users) =
    let rest = user_clash name email except users in
    if is_id except u.id
    then rest
    else if takes name u
    then some (conflict (codes "user '" ++ (Option.get_or name [] ++ codes "' already exists")))
    else if takes email u
    then some
        (conflict (codes "email '" ++ (Option.get_or email [] ++ codes "' is already in use")))
    else rest

unfoldable pub assert_unique_user : Option Text → Option Text → Option Text → Action Done
assert_unique_user name email except = do
  users ← get_users
  refuse (user_clash name email except users)

-- An enabled member of `admin`.
abbrev pub is_enabled_admin : User → Bool
is_enabled_admin u = not u.disabled && in_group (some u.groups) admin_group

abbrev pub is_last_of : User → List User → Bool
is_last_of user users =
    is_enabled_admin user
    && not (any (λ (u : User). not (text_eq u.id user.id) && is_enabled_admin u) users)

unfoldable pub is_last_enabled_admin : User → Action Bool
is_last_enabled_admin user = get_users >>= λ users. pure (is_last_of user users)

unfoldable pub assert_can_grant : Caller → List Text → Action Done
assert_can_grant caller permissions =
    let missing = uncovered_permissions caller.permissions permissions in
    raise_if (not (is_nil missing)) (
      forbidden (
        codes "cannot grant permissions you do not hold: "
        ++ join (codes ", ") (merge_permissions (some missing ∷ []))))

abbrev pub permissions_of_groups : List Group → List Text
permissions_of_groups groups = merge_permissions (map (λ (g : Group). some g.permissions) groups)

unfoldable pub assert_can_add_groups : Caller → List Group → Action Done
unfolding assert_can_grant
assert_can_add_groups caller groups = assert_can_grant caller (permissions_of_groups groups)

abbrev pub unless_covered : Caller → List Text → Action Done
unless_covered caller permissions =
    raise_if (not (is_nil (uncovered_permissions caller.permissions permissions)))
      (forbidden (codes "insufficient privileges for this user"))

unfoldable pub assert_can_act_on : Caller → User → Action Done
assert_can_act_on caller target =
    when (not (text_eq caller.id target.id))
      (get_effective_permissions target >>= unless_covered caller)

abbrev pub users_read : Text
users_read = codes "users:read"

unfoldable pub publish_user_event : Text → User → Caller → Action Done
publish_user_event type user caller =
    publish_event type
      ((codes "userId", user.id)
        ∷ (codes "username", user.name)
        ∷ (codes "actor", caller.name)
        ∷ [])
      (for_holders users_read)

-- What the body of `createUser` and of `updateUser` says apart from its name, email and password.
pub record Details : Type 0 where
  pub groups_in : Option (List Text)
  pub disabled : Option Bool
  pub home_dir : Option Text
  pub user_data : Option Fields

abbrev pub free_home_dir : Text → Action Text
free_home_dir t = validate_free_text t (codes "homeDir") max_home_dir_length "1024"

unfoldable pub read_details : Fields → Action Details
read_details body = do
  groups_in ← optional_string_array body (codes "groups")
  disabled ← optional_boolean body (codes "disabled")
  home_dir_in ← optional_string body (codes "homeDir")
  home_dir ← checked free_home_dir home_dir_in
  data_in ← optional_object body (codes "data")
  user_data ← checked validate_data data_in
  pure (record {
    groups_in = groups_in;
    disabled = disabled;
    home_dir = home_dir;
    user_data = user_data;
  })

-- The password of the body, where one is given.
abbrev pub password_given : Bool → Option Json → Bool → Action (Option Text)
password_given external_auth password true = pure none
password_given external_auth password false = do
  raise_if external_auth (bad_request (codes "passwords are managed by the host application"))
  text ← validate_password password
  pure (some text)

abbrev pub explicit : Option (List Text) → Bool
explicit none = false
explicit (some names) = not (is_nil names)

abbrev pub names_of : List Group → List Text
names_of groups = map (λ (g : Group). g.name) groups

abbrev pub about_user : Text → User → Caller → AuditEntry
about_user event user caller = record (entry_of (codes "") user.name) {
  event = event;
  user_id = some user.id;
  actor = some caller.name;
  actor_id = some caller.id;
}

-- The part of `createUser` after the body was read and every check passed.
unfoldable pub add_user : CreateUserDto → Option Text → Caller → Action User
add_user dto password caller = do
  user ← store_create_user dto
  for_some password (λ text. set_password user.id text)
  audit (about_user (codes "user_created") user caller)
  publish_user_event (codes "user:created") user caller
  pure user

unfoldable pub create_user : Fields → Caller → Bool → Action User
unfolding add_user read_details
create_user body caller external_auth = do
  name_in ← required_string body (codes "name")
  name ← validate_name name_in (codes "name")
  email_in ← required_string body (codes "email")
  email ← validate_email email_in
  details ← read_details body
  let password_in = field_of (codes "password") body
  password ← password_given external_auth password_in (is_missing password_in)
  let named = explicit details.groups_in
  groups ← resolve_groups (if named then Option.get_or details.groups_in [] else users_group ∷ [])
  when named (assert_can_add_groups caller groups)
  assert_unique_user (some name) (some email) none
  add_user
      (record {
        name = name;
        email = email;
        groups = some (names_of groups);
        disabled = some (Option.get_or details.disabled false);
        must_change_password = some false;
        home_dir = details.home_dir;
        user_data = details.user_data;
      })
      password caller

abbrev pub resolved : Option (List Text) → Action (Option (List Group))
resolved none = pure none
resolved (some names) = resolve_groups names >>= λ groups. pure (some groups)

-- The groups that the target is not in yet.
abbrev pub added_groups : User → List Group → List Group
added_groups target groups =
    filter (λ (g : Group). not (in_group (some target.groups) g.name)) groups

abbrev pub leaves_admin : Option (List Group) → Bool
leaves_admin none = false
leaves_admin (some groups) = not (in_group (some (names_of groups)) admin_group)

abbrev pub is_true : Option Bool → Bool
is_true none = false
is_true (some b) = b

-- The checks of `updateUser` that depend on the caller and on the other users.
unfoldable pub assert_can_update :
    User → Option Text → Option Text → Details → Option (List Group) → Caller → Action Done
assert_can_update target name email details groups caller = do
  when (is_some name || is_some groups || is_some details.disabled)
      (assert_can_act_on caller target)
  for_some groups (λ gs. assert_can_add_groups caller (added_groups target gs))
  assert_unique_user name email (some target.id)
  last_admin ← is_last_enabled_admin target
  raise_if (last_admin && is_true details.disabled)
      (conflict (codes "cannot disable the last enabled member of admin"))
  raise_if (last_admin && leaves_admin groups)
      (conflict (codes "cannot remove the last enabled member of admin from admin"))

abbrev pub field_if : {A : Type 0} → String → Option A → List Text
field_if name none = []
field_if name (some a) = codes name ∷ []

-- `otherFields`
abbrev pub other_fields : UpdateUserDto → List Text
other_fields dto =
    field_if "name" dto.name
    ++ (field_if "email" dto.email
        ++ (field_if "groups" dto.groups
            ++ (field_if "homeDir" dto.home_dir ++ field_if "data" dto.user_data)))

abbrev pub differs : Option Bool → Bool → Bool
differs none b = false
differs (some a) b = if a then not b else b

abbrev pub by_caller : Caller → Text → Revocation
by_caller caller user_name = record {
  actor = some caller.name;
  actor_id = some caller.id;
  except_session_id = none;
  user_name = some user_name;
}

-- The part of `updateUser` after every check passed.
unfoldable pub change_user : User → UpdateUserDto → Caller → Action User
change_user target dto caller = do
  updated ← store_update_user target.id dto
  let disabled_changed = differs dto.disabled target.disabled
  let disables = is_true dto.disabled
  when (disabled_changed && disables) (
      revoke_user_sessions target.id (codes "user disabled") (by_caller caller updated.name)
      >> done)
  let others = other_fields dto
  when (not (is_nil others)) (
      audit (record (about_user (codes "user_updated") updated caller) {
        details = some (join (codes ", ") others);
      }))
  when disabled_changed (
      audit (
        about_user (if disables then codes "user_disabled" else codes "user_enabled") updated
          caller))
  when (not (is_nil others) || disabled_changed)
      (publish_user_event (codes "user:updated") updated caller)
  pure updated

abbrev pub checked_name : Text → Action Text
checked_name t = validate_name t (codes "name")

-- The fields that an update is given.
abbrev pub update_of : Option Text → Option Text → Details → Option (List Group) → UpdateUserDto
update_of name email details groups = record {
  name = name;
  email = email;
  groups = Option.map names_of groups;
  disabled = details.disabled;
  must_change_password = none;
  home_dir = details.home_dir;
  user_data = details.user_data;
  last_login_at = none;
}

unfoldable pub update_user : User → Fields → Caller → Action User
unfolding change_user assert_can_update read_details
update_user target body caller = do
  name_in ← optional_string body (codes "name")
  name ← checked checked_name name_in
  email_in ← optional_string body (codes "email")
  email ← checked validate_email email_in
  details ← read_details body
  groups ← resolved details.groups_in
  assert_can_update target name email details groups caller
  change_user target (update_of name email details groups) caller

-- The last part of `deleteUser`, after the sessions were revoked.
unfoldable pub drop_tokens : User → Caller → Action Done
drop_tokens target caller = do
  delete_user_tokens target.id (some caller.name)
  audit (about_user (codes "user_deleted") target caller)
  publish_user_event (codes "user:deleted") target caller

-- The part of `deleteUser` after the checks.
unfoldable pub drop_user : User → Caller → Action Done
unfolding drop_tokens
drop_user target caller = do
  store_delete_user target.id
  delete_credentials target.id
  revoke_user_sessions target.id (codes "user deleted") (by_caller caller target.name)
  drop_tokens target caller

unfoldable pub delete_user : User → Caller → Action Done
unfolding drop_user
delete_user target caller = do
  raise_if (text_eq target.id caller.id) (conflict (codes "cannot delete yourself"))
  assert_can_act_on caller target
  last_admin ← is_last_enabled_admin target
  raise_if last_admin (conflict (codes "cannot delete the last enabled member of admin"))
  drop_user target caller

abbrev pub nothing_new : UpdateUserDto
nothing_new = record {
  name = none;
  email = none;
  groups = none;
  disabled = none;
  must_change_password = none;
  home_dir = none;
  user_data = none;
  last_login_at = none;
}

unfoldable pub set_must_change_password : User → Bool → Action Done
set_must_change_password user value =
    when (if user.must_change_password then not value else value)
      (store_update_user user.id (record nothing_new { must_change_password = some value }) >> done)
