-- ===== src/Users/Groups.antt =====
-- plugins/users/services/directory-service.ts: the management of groups and their members.
use cli_server_node.Common.{
  Bool, false, not, ◌||◌, ◌&&◌, some, List, [], ◌∷◌, ◌++◌, Text, codes, is_some, if◌then◌else◌, any,
  filter,
}
use mathlib.Core.Option
use cli_server_node.Permissions.{in_group, same_name, admin_group, built_in_groups}
use cli_server_node.Audit.{AuditEntry}
use cli_server_node.Users.{User, Group}
use cli_server_node.Users.Json.{Fields}
use cli_server_node.Users.Actions.{
  Action, Done, done, pure, raise_if, asks, when, for_some, for_each, ◌>>=◌, ◌>>◌, conflict, audit,
  entry_of, publish_event,
}
use cli_server_node.Users.Stores.{
  get_users, get_group, store_update_user, store_create_group, store_update_group,
  store_delete_group,
}
use cli_server_node.Users.Validation.{
  required_string, optional_string, optional_string_array, checked, validate_name,
  validate_free_text, validate_permissions, max_description_length,
}
use cli_server_node.Users.Sessions.{for_holders}
use cli_server_node.Users.Directory.{
  Caller, get_user_or_404, resolve_groups, assert_can_grant, assert_can_act_on,
  assert_can_add_groups, is_last_enabled_admin, publish_user_event, nothing_new,
}

abbrev pub groups_read : Text
groups_read = codes "groups:read"

unfoldable pub publish_group_event : Text → Text → Caller → Action Done
publish_group_event type group caller =
    publish_event type ((codes "group", group) ∷ (codes "actor", caller.name) ∷ [])
      (for_holders groups_read)

-- `group:` and the name.
abbrev pub group_target : Text → Text
group_target name = codes "group:" ++ name

abbrev pub about_group : Text → Text → Caller → AuditEntry
about_group event name caller = record (entry_of event caller.name) {
  user_id = some caller.id;
  actor = some caller.name;
  actor_id = some caller.id;
  details = some name;
  target = some (group_target name);
}

abbrev pub free_description : Text → Action Text
free_description t = validate_free_text t (codes "description") max_description_length "256"

unfoldable pub create_group : Fields → Caller → Action Group
create_group body caller = do
  name_in ← required_string body (codes "name")
  name ← validate_name name_in (codes "name")
  description_in ← optional_string body (codes "description")
  description ← checked free_description description_in
  permissions_in ← optional_string_array body (codes "permissions")
  permissions ← validate_permissions (Option.get_or permissions_in [])
  assert_can_grant caller permissions
  found ← get_group name
  raise_if (is_some found) (conflict (codes "group '" ++ (name ++ codes "' already exists")))
  group ← store_create_group (record {
    name = name;
    description = description;
    permissions = some permissions;
    built_in = some false;
  })
  audit (about_group (codes "group_created") group.name caller)
  publish_group_event (codes "group:created") group.name caller
  pure group

unfoldable pub update_group : Group → Fields → Caller → Action Group
update_group group body caller = do
  description_in ← optional_string body (codes "description")
  description ← checked free_description description_in
  permissions_in ← optional_string_array body (codes "permissions")
  permissions ← checked validate_permissions permissions_in
  raise_if (is_some permissions && same_name (some group.name) (some admin_group))
      (conflict (codes "admin group permissions cannot be changed"))
  for_some permissions (assert_can_grant caller)
  updated ←
      store_update_group group.name
        (record { description = description; permissions = permissions })
  audit (about_group (codes "group_updated") group.name caller)
  publish_group_event (codes "group:updated") group.name caller
  pure updated

-- The groups of a user without those of a name.
abbrev pub without_group : Text → List Text → List Text
without_group name groups = filter (λ g. not (same_name (some g) (some name))) groups

abbrev pub member_left : Text → User → Action (List User)
member_left name user =
    if in_group (some user.groups) name
    then (store_update_user user.id
          (record nothing_new { groups = some (without_group name user.groups) })
        >>= λ updated. pure (updated ∷ []))
    else pure []

-- The loop of `deleteGroup`, which returns the members that were updated.
unfoldable pub remove_members : Text → List User → Action (List User)
remove_members name [] = pure []
remove_members name (u ∷ users) = do
  left ← member_left name u
  rest ← remove_members name users
  pure (left ++ rest)

abbrev pub is_built_in : Group → Bool
is_built_in group =
    group.built_in || any (λ g. same_name (some g) (some group.name)) built_in_groups

unfoldable pub delete_group : Group → Caller → Action Done
unfolding remove_members
delete_group group caller = do
  raise_if (is_built_in group)
      (conflict (codes "built-in group '" ++ (group.name ++ codes "' cannot be deleted")))
  store_delete_group group.name
  read_only ← asks (λ env. env.users_read_only)
  users ← get_users
  members ← remove_members group.name (if read_only then [] else users)
  audit (about_group (codes "group_deleted") group.name caller)
  publish_group_event (codes "group:deleted") group.name caller
  for_each (λ member. publish_user_event (codes "user:updated") member caller) members

unfoldable pub get_members : Group → Action (List User)
get_members group =
    get_users >>= λ users. pure (filter (λ (u : User). in_group (some u.groups) group.name) users)

abbrev pub about_member : Text → Text → User → Caller → AuditEntry
about_member event name user caller = record (entry_of event user.name) {
  user_id = some user.id;
  actor = some caller.name;
  actor_id = some caller.id;
  details = some name;
  target = some (group_target name);
}

abbrev pub set_groups : User → List Text → Action Done
set_groups user groups =
    store_update_user user.id (record nothing_new { groups = some groups }) >> done

unfoldable pub join_group : Group → User → Caller → Action Done
join_group group user caller = do
  assert_can_act_on caller user
  assert_can_add_groups caller (group ∷ [])
  set_groups user (user.groups ++ group.name ∷ [])
  audit (about_member (codes "group_member_added") group.name user caller)
  publish_user_event (codes "user:updated") user caller

-- `const [group] = …` of a list that holds one.
abbrev pub first_group : List Group → (Group → Action Done) → Action Done
first_group [] f = done
first_group (g ∷ gs) f = f g

unfoldable pub add_member : Text → Text → Caller → Action Done
unfolding join_group
add_member group_name user_id_or_name caller = do
  groups ← resolve_groups (group_name ∷ [])
  first_group groups (λ group. get_user_or_404 user_id_or_name >>= λ user.
      when (not (in_group (some user.groups) group.name)) (join_group group user caller))

unfoldable pub leave_group : Group → User → Caller → Action Done
leave_group group user caller = do
  assert_can_act_on caller user
  last_admin ← is_last_enabled_admin user
  raise_if (same_name (some group.name) (some admin_group) && last_admin)
      (conflict (codes "cannot remove the last enabled member of admin from admin"))
  set_groups user (without_group group.name user.groups)
  audit (about_member (codes "group_member_removed") group.name user caller)
  publish_user_event (codes "user:updated") user caller

unfoldable pub remove_member : Group → User → Caller → Action Done
unfolding leave_group
remove_member group user caller =
    when (in_group (some user.groups) group.name) (leave_group group user caller)
