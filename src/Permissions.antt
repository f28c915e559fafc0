-- ===== src/Permissions.antt =====
-- plugins/users/permissions.ts, and `uncoveredPermissions` of plugins/users/security.ts:
-- permission strings `resource:action` with `*` segments, and group names.
pub mod Matching
pub mod Merge
pub mod Grants
mod Tests
use cli_server_node.Common.{
  ℕ, Bool, true, false, not, ◌&&◌, ◌||◌, Option, none, some, List, [], ◌∷◌, ◌++◌, Text, codes,
  text_eq, trim, to_lower, split_on, is_nil, if◌then◌else◌, any, filter,
}

abbrev pub star : Text
star = codes "*"

-- The loop of `permissionMatches` over the segments of both sides, from index `i` on.
unfoldable pub segments_match : List Text → List Text → Bool
segments_match [] r = is_nil r
segments_match (g ∷ gs) [] = text_eq g star && is_nil gs
segments_match (g ∷ gs) (r ∷ rs) =
    let rest = segments_match gs rs in
    if text_eq g star && is_nil gs
    then true
    else if not (text_eq g star) && not (text_eq g r)
    then false
    else rest

-- `p.trim().toLowerCase().split(':')`
unfoldable pub segments : Text → List Text
segments p = split_on b':' (to_lower (trim p))

unfoldable pub permission_matches : Text → Text → Bool
unfolding segments_match segments
permission_matches granted required = segments_match (segments granted) (segments required)

unfoldable pub has_permission : Option (List Text) → Text → Bool
unfolding permission_matches
has_permission none required = false
has_permission (some granted) required = any (λ p. permission_matches p required) granted

-- The set of keys seen and the permissions kept.
pub record Merged : Type 0 where
  pub seen : List Text
  pub out : List Text

-- A round of the loop of `mergePermissions`.
unfoldable pub merge_one : Merged → Text → Merged
merge_one m p =
    let key = trim p in
    if not (is_nil key) && not (any (text_eq (to_lower key)) m.seen)
    then record { seen = m.seen ++ to_lower key ∷ []; out = m.out ++ key ∷ [] }
    else m

unfoldable pub merge_list : Merged → List Text → Merged
unfolding merge_one
merge_list m [] = m
merge_list m (p ∷ ps) = merge_list (merge_one m p) ps

unfoldable pub merge_lists : Merged → List (Option (List Text)) → Merged
unfolding merge_list
merge_lists m [] = m
merge_lists m (none ∷ lists) = merge_lists m lists
merge_lists m (some list ∷ lists) = merge_lists (merge_list m list) lists

unfoldable pub merge_permissions : List (Option (List Text)) → List Text
unfolding merge_lists
merge_permissions lists = (merge_lists (record { seen = []; out = [] }) lists).out

abbrev pub admin_group : Text
admin_group = codes "admin"

abbrev pub users_group : Text
users_group = codes "users"

abbrev pub built_in_groups : List Text
built_in_groups = admin_group ∷ users_group ∷ []

unfoldable pub same_name : Option Text → Option Text → Bool
same_name (some a) (some b) = not (is_nil a) && not (is_nil b) && text_eq (to_lower a) (to_lower b)
same_name _ _ = false

unfoldable pub in_group : Option (List Text) → Text → Bool
unfolding same_name
in_group none group = false
in_group (some groups) group = any (λ g. same_name (some g) (some group)) groups

-- The permissions of `target` that no permission of `caller` covers.
unfoldable pub uncovered_permissions : List Text → List Text → List Text
unfolding permission_matches
uncovered_permissions caller target =
    filter (λ t. not (any (λ c. permission_matches c t) caller)) target
