-- ===== src/Users/Stores.antt =====
-- plugins/users/stores: the in-memory stores of users, groups, credentials, sessions and API tokens.
use cli_server_node.Common.{
  ℕ, ◌+◌, Bool, false, Option, none, some, List, [], ◌∷◌, ◌++◌, String, Text, codes, text_eq,
  to_lower, Map, map_get, map_set, map_delete, map_update, map_values, ltb, if◌then◌else◌, filter,
  find?,
}
use mathlib.Core.Option
use cli_server_node.Users.{
  User, CreateUserDto, UpdateUserDto, Credentials, Session, SessionMetadata, ApiToken, Group,
  CreateGroupDto, UpdateGroupDto, Env, UsersError, plain,
}
use cli_server_node.Users.Actions.{
  refuse, Action, Done, pure, raise, asks, gets, or_raise, modify, for_some, ◌>>=◌, ◌>>◌,
}

-- Two texts with the same lower case.
abbrev pub same_text : Text → Text → Bool
same_text a b = text_eq (to_lower a) (to_lower b)

abbrev pub quoted : String → Text → String → Text
quoted before t after = codes before ++ (t ++ codes after)

abbrev pub get_users : Action (List User)
get_users = gets (λ s. map_values s.users)

-- The user with an id, or else the first with a name.
unfoldable pub look_up : Text → Map User → Option User
look_up id_or_name users = elim (map_get id_or_name users) [
  | none ↦ find? (λ u. same_text u.name id_or_name) (map_values users)
  | some u ↦ some u
]

unfoldable pub get_user : Text → Action (Option User)
get_user id_or_name = gets (λ s. look_up id_or_name s.users)

abbrev clashes : Option Text → Text → Bool
clashes none t = false
clashes (some x) t = same_text t x

-- `value === undefined ? undefined : …` tested against an id.
abbrev pub is_id : Option Text → Text → Bool
is_id none id = false
is_id (some x) id = text_eq id x

-- The error of `assertUnique`, if it throws.
unfoldable pub store_clash : Option Text → Option Text → Option Text → List User → Option UsersError
store_clash name email except [] = none
store_clash name email except (u ∷ users) =
    let rest = store_clash name email except users in
    if is_id except u.id
    then rest
    else if clashes name u.name
    then some (plain (quoted "User with name '" (Option.get_or name []) "' already exists"))
    else if clashes email u.email
    then some (plain (quoted "User with email '" (Option.get_or email []) "' already exists"))
    else rest

abbrev pub put_user : User → Action Done
put_user u = modify (λ s. record s { users = map_set u.id u s.users })

abbrev pub created_user : Env → CreateUserDto → User
created_user env dto = record {
  id = env.new_id;
  name = dto.name;
  email = dto.email;
  groups = Option.get_or dto.groups [];
  disabled = Option.get_or dto.disabled false;
  must_change_password = Option.get_or dto.must_change_password false;
  home_dir = dto.home_dir;
  user_data = dto.user_data;
  last_login_at = none;
  created_at = env.now;
  updated_at = env.now;
}

unfoldable pub store_create_user : CreateUserDto → Action User
store_create_user dto = do
  users ← get_users
  refuse (store_clash (some dto.name) (some dto.email) none users)
  user ← asks (λ env. created_user env dto)
  put_user user
  pure user

-- A field that is replaced where a value is given.
abbrev pub given_or : {A : Type 0} → Option A → A → A
given_or none a = a
given_or (some b) a = b

abbrev pub given_or_some : {A : Type 0} → Option A → Option A → Option A
given_or_some none o = o
given_or_some (some b) o = some b

abbrev pub updated_user : ℕ → UpdateUserDto → User → User
updated_user now dto u = record {
  id = u.id;
  name = given_or dto.name u.name;
  email = given_or dto.email u.email;
  groups = given_or dto.groups u.groups;
  disabled = given_or dto.disabled u.disabled;
  must_change_password = given_or dto.must_change_password u.must_change_password;
  home_dir = given_or_some dto.home_dir u.home_dir;
  user_data = given_or_some dto.user_data u.user_data;
  last_login_at = given_or_some dto.last_login_at u.last_login_at;
  created_at = u.created_at;
  updated_at = now;
}

unfoldable pub store_update_user : Text → UpdateUserDto → Action User
store_update_user id dto = do
  stored ← gets (λ s. map_get id s.users)
  user ← or_raise stored (plain (quoted "User with id '" id "' not found"))
  users ← get_users
  refuse (store_clash dto.name dto.email (some id) users)
  updated ← asks (λ env. updated_user env.now dto user)
  modify (λ s. record s { users = map_set id updated s.users })
  pure updated

unfoldable pub store_delete_user : Text → Action Done
store_delete_user id = modify (λ s. record s { users = map_delete id s.users })

abbrev pub get_groups : Action (List Group)
get_groups = gets (λ s. map_values s.groups)

abbrev pub look_up_group : Text → Map Group → Option Group
look_up_group name groups = map_get (to_lower name) groups

unfoldable pub get_group : Text → Action (Option Group)
get_group name = gets (λ s. look_up_group name s.groups)

abbrev put_group : Text → Group → Action Done
put_group key group = modify (λ s. record s { groups = map_set key group s.groups })

unfoldable pub store_create_group : CreateGroupDto → Action Group
store_create_group dto = do
  found ← get_group dto.name
  for_some found (λ g. raise (plain (quoted "Group '" dto.name "' already exists")))
  group ← asks (λ env. record {
    id = env.new_id;
    name = dto.name;
    description = dto.description;
    permissions = Option.get_or dto.permissions [];
    built_in = Option.get_or dto.built_in false;
    created_at = env.now;
    updated_at = env.now;
  })
  put_group (to_lower dto.name) group
  pure group

unfoldable pub store_update_group : Text → UpdateGroupDto → Action Group
store_update_group name dto = do
  found ← get_group name
  group ← or_raise found (plain (quoted "Group '" name "' not found"))
  updated ← asks (λ env. record group {
    description = given_or_some dto.description group.description;
    permissions = given_or dto.permissions group.permissions;
    updated_at = env.now;
  })
  put_group (to_lower name) updated
  pure updated

unfoldable pub store_delete_group : Text → Action Done
store_delete_group name = modify (λ s. record s { groups = map_delete (to_lower name) s.groups })

unfoldable pub store_set_password : Text → Text → Text → Action Done
store_set_password user_id hash salt = do
  now ← asks (λ env. env.now)
  modify (λ s. record s {
    credentials =
        map_set user_id
          (record { user_id = user_id; password_hash = hash; salt = salt; last_changed = now })
          s.credentials;
  })

unfoldable pub get_credentials : Text → Action (Option Credentials)
get_credentials user_id = gets (λ s. map_get user_id s.credentials)

unfoldable pub store_delete_credentials : Text → Action Done
store_delete_credentials user_id =
    modify (λ s. record s { credentials = map_delete user_id s.credentials })

unfoldable pub create_session : Text → Text → SessionMetadata → Action Session
create_session user_id token_hash metadata = do
  session ← asks (λ env. record {
    id = env.new_id;
    token_hash = token_hash;
    user_id = user_id;
    created_at = env.now;
    last_activity = env.now;
    metadata = metadata;
  })
  modify (λ s. record s { sessions = map_set token_hash session s.sessions })
  pure session

unfoldable pub get_session : Text → Action (Option Session)
get_session token_hash = gets (λ s. map_get token_hash s.sessions)

unfoldable pub get_session_by_id : Text → Action (Option Session)
get_session_by_id id = gets (λ s. find? (λ x. text_eq x.id id) (map_values s.sessions))

abbrev pub get_active_sessions : Action (List Session)
get_active_sessions = gets (λ s. map_values s.sessions)

unfoldable pub delete_session : Text → Action Done
delete_session token_hash = modify (λ s. record s { sessions = map_delete token_hash s.sessions })

-- The first session with an id is deleted.
unfoldable pub without_session : Text → Map Session → Map Session
without_session id [] = []
without_session id ((key, x) ∷ m) =
    let rest = without_session id m in if text_eq x.id id then m else (key, x) ∷ rest

unfoldable pub delete_session_by_id : Text → Action Done
delete_session_by_id id = modify (λ s. record s { sessions = without_session id s.sessions })

unfoldable pub delete_user_sessions : Text → Action Done
delete_user_sessions user_id = modify (λ s. record s {
  sessions =
      map_update (λ (x : Session). if text_eq x.user_id user_id then none else some x) s.sessions;
})

unfoldable pub update_last_activity : Text → Action Done
update_last_activity token_hash = do
  now ← asks (λ env. env.now)
  found ← get_session token_hash
  for_some found (λ x. modify (λ s. record s {
    sessions = map_set token_hash (record x { last_activity = now }) s.sessions;
  }))

unfoldable pub cleanup : ℕ → Action Done
cleanup max_age_ms = do
  now ← asks (λ env. env.now)
  modify (λ s. record s {
    sessions =
        map_update
          (λ (x : Session). if ltb (x.last_activity + max_age_ms) now then none else some x)
          s.sessions;
  })

unfoldable pub create_token : ApiToken → Action ApiToken
create_token token =
    modify (λ s. record s { tokens = map_set token.id token s.tokens }) >> pure token

unfoldable pub get_token_by_hash : Text → Action (Option ApiToken)
get_token_by_hash token_hash =
    gets (λ s. find? (λ t. text_eq t.token_hash token_hash) (map_values s.tokens))

unfoldable pub get_token : Text → Action (Option ApiToken)
get_token id = gets (λ s. map_get id s.tokens)

unfoldable pub get_tokens : Option Text → Action (List ApiToken)
get_tokens none = gets (λ s. map_values s.tokens)
get_tokens (some user_id) =
    gets (λ s. filter (λ t. text_eq t.user_id user_id) (map_values s.tokens))

unfoldable pub delete_token : Text → Action Done
delete_token id = modify (λ s. record s { tokens = map_delete id s.tokens })

unfoldable pub store_delete_user_tokens : Text → Action Done
store_delete_user_tokens user_id = modify (λ s. record s {
  tokens =
      map_update (λ (t : ApiToken). if text_eq t.user_id user_id then none else some t) s.tokens;
})

unfoldable pub update_last_used : Text → ℕ → Action Done
update_last_used id at = do
  found ← get_token id
  for_some found (λ t.
      modify (λ s. record s { tokens = map_set id (record t { last_used_at = some at }) s.tokens }))
