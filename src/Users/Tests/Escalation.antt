-- ===== src/Users/Tests/Escalation.antt =====
-- The theorem on permissions that requests give, at a change of a group.
use cli_server_node.Common.{
  true, none, some, [], ◌∷◌, Text, codes, Map, map_get, text_eq, text_eq_iff, to_lower, Bool-cases,
  some_injective, ◌≡◌, refl, sym, ap, ◌∙◌, inl, inr, ◌⊎◌,
}
use cli_server_node.Permissions.{has_permission}
use cli_server_node.Users.{User, Group}
use cli_server_node.Users.Json.{object, field, no_fields, array, item, no_items, string}
use cli_server_node.Users.Stores
use cli_server_node.Users.Validation
use cli_server_node.Users.Directory
use cli_server_node.Users.Groups
use cli_server_node.Users.Requests.{DirectoryRequest, put_group}
use cli_server_node.Users.Granted.{AreNamed}
use cli_server_node.Users.Entitled.Managing.{AreOneStar}
use cli_server_node.Users.Escalation.{Has, GroupGives, no_escalation}
use cli_server_node.Users.Tests.{
  bob, group_of, directory, directory_IsKeyed, as_root, env_at, maps, operations,
}

-- The operations on groups compute.
group_operations : Unit {0}
unfolding operations Stores.store_update_group Validation.validate_permissions
    Validation.check_permissions Directory.get_group_or_404 Directory.assert_can_grant
    Groups.update_group Groups.publish_group_event
group_operations = tt

cons-AreNamed :
    (k : Text) (g : Group) (groups : Map Group)
    → to_lower g.name ≡ k
    → AreNamed groups
    → AreNamed ((k, g) ∷ groups)
unfolding map_get
cons-AreNamed k g groups n w j h at = elim (Bool-cases (text_eq k j)) [
  | inl e ↦
      let same : some g ≡ some h = sym (rw e refl) ∙ at in
      sym (ap (λ (x : Group). to_lower x.name) (some_injective same)) ∙ (n ∙ (text_eq_iff k j).0 e)
  | inr d ↦ w j h (sym (rw d refl) ∙ at)
]

no-AreNamed : AreNamed []
unfolding map_get
no-AreNamed k g at = cc

abbrev admins : Group
admins = group_of (codes "admin") (codes "*" ∷ [])

abbrev everyone : Group
everyone = group_of (codes "users") (codes "commands:execute" ∷ [])

directory-AreNamed : AreNamed directory.groups
unfolding maps
directory-AreNamed =
    cons-AreNamed (codes "admin") admins ((codes "users", everyone) ∷ []) refl
      (cons-AreNamed (codes "users") everyone [] refl no-AreNamed)

root-AreOneStar : AreOneStar (Directory.caller_of as_root)
unfolding maps
root-AreOneStar = (((λ e f. cc), tt), tt)

-- Root lets the members of `users` list users.
abbrev let_users_read : DirectoryRequest
let_users_read = put_group (codes "users") (
    some (
      object (
        field (codes "permissions") (array (item (string (codes "users:read")) no_items))
          no_fields)))

no_escalation_example :
    (has_permission (some as_root.permissions) (codes "users:read") ≡ true)
    ⊎ (((v : User) × (map_get (codes "b") directory.users ≡ some v)
          × Has (env_at 200) directory v (codes "users:read"))
        ⊎ ((map_get (codes "b") directory.users ≡ none)
            × GroupGives directory.groups (codes "users") (codes "users:read")))
unfolding group_operations
no_escalation_example =
    no_escalation as_root let_users_read (env_at 200) directory directory_IsKeyed directory-AreNamed
      root-AreOneStar refl (codes "b") bob (codes "users:read") refl
      (codes "users:read" ∷ [], refl, refl)
