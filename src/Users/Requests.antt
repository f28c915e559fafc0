-- ===== src/Users/Requests.antt =====
-- plugins/users/controllers/users-controller.ts and groups-controller.ts: the requests that change users,
-- groups and memberships, once their caller is authenticated and has the permission of the route.
use cli_server_node.Common.{
  Bool, not, ◌&&◌, Option, none, some, List, [], ◌∷◌, ◌++◌, Text, codes, text_eq, join, is_nil,
  if◌then◌else◌,
}
use cli_server_node.Permissions.{has_permission}
use cli_server_node.Users.{User, AuthContext, UsersError}
use cli_server_node.Users.Json.{Json, Fields, no_fields, field}
use cli_server_node.Users.Actions.{
  Action, Done, done, pure, raise, raise_if, ◌>>=◌, ◌>>◌, forbidden, attempt,
}
use cli_server_node.Users.Validation.{body_of}
use cli_server_node.Users.Directory.{
  caller_of, get_user_or_404, get_group_or_404, create_user, update_user, delete_user,
}
use cli_server_node.Users.Groups.{
  create_group, update_group, delete_group, add_member, remove_member,
}

abbrev pub can : AuthContext → Text → Bool
can ctx permission = has_permission (some ctx.permissions) permission

-- The middleware `requirePermission`.
abbrev pub require_permission : AuthContext → Text → Action Done
require_permission ctx permission =
    raise_if (not (can ctx permission))
      (forbidden (codes "forbidden: missing permission " ++ permission))

abbrev pub missing_permission : Text → UsersError
missing_permission permission = forbidden (codes "forbidden: missing permission " ++ permission)

abbrev pub only_self : AuthContext → Text → Option User → Action User
only_self ctx permission none = raise (missing_permission permission)
only_self ctx permission (some target) =
    raise_if (not (text_eq target.id ctx.user.id)) (missing_permission permission) >> pure target

-- `resolveSelfOr`: the target, which is the caller where the permission is missing.
unfoldable pub resolve_self_or : AuthContext → Text → Text → Action User
resolve_self_or ctx permission id_or_name =
    if can ctx permission
    then get_user_or_404 id_or_name
    else attempt (get_user_or_404 id_or_name) >>= only_self ctx permission

-- The keys of a body that only a holder of `users:update` may change.
unfoldable pub restricted_keys : Fields → List Text
restricted_keys no_fields = []
restricted_keys (field key v rest) =
    let others = restricted_keys rest in
    if not (text_eq key (codes "email")) && not (text_eq key (codes "data"))
    then key ∷ others
    else others

abbrev pub users_update : Text
users_update = codes "users:update"

unfoldable pub put_user_request : AuthContext → Text → Option Json → Action Done
unfolding resolve_self_or restricted_keys
put_user_request ctx id_or_name json = do
  body ← body_of json
  target ← resolve_self_or ctx users_update id_or_name
  raise_if (not (can ctx users_update) && not (is_nil (restricted_keys body))) (
      forbidden (
        codes "forbidden: cannot change "
        ++ (join (codes ", ") (restricted_keys body) ++ codes " without users:update")))
  update_user target body (caller_of ctx)
  done

-- A request that changes the directory, of an authenticated caller.
pub data DirectoryRequest : Type 0 where
  post_user : Bool → Option Json → DirectoryRequest
  put_user : Text → Option Json → DirectoryRequest
  delete_user_of : Text → DirectoryRequest
  post_group : Option Json → DirectoryRequest
  put_group : Text → Option Json → DirectoryRequest
  delete_group_of : Text → DirectoryRequest
  post_member : Text → Text → DirectoryRequest
  delete_member : Text → Text → DirectoryRequest

unfoldable pub answer : AuthContext → DirectoryRequest → Action Done
unfolding put_user_request
answer ctx (post_user external_auth json) = do
  require_permission ctx (codes "users:create")
  body ← body_of json
  create_user body (caller_of ctx) external_auth
  done
answer ctx (put_user id_or_name json) = put_user_request ctx id_or_name json
answer ctx (delete_user_of id_or_name) = do
  require_permission ctx (codes "users:delete")
  target ← get_user_or_404 id_or_name
  delete_user target (caller_of ctx)
answer ctx (post_group json) = do
  require_permission ctx (codes "groups:create")
  body ← body_of json
  create_group body (caller_of ctx)
  done
answer ctx (put_group name json) = do
  require_permission ctx (codes "groups:update")
  body ← body_of json
  group ← get_group_or_404 name
  update_group group body (caller_of ctx)
  done
answer ctx (delete_group_of name) = do
  require_permission ctx (codes "groups:delete")
  group ← get_group_or_404 name
  delete_group group (caller_of ctx)
answer ctx (post_member name id_or_name) = do
  require_permission ctx (codes "groups:update")
  add_member name id_or_name (caller_of ctx)
answer ctx (delete_member name id_or_name) = do
  require_permission ctx (codes "groups:update")
  group ← get_group_or_404 name
  user ← get_user_or_404 id_or_name
  remove_member group user (caller_of ctx)
