-- ===== src/Permissions/Tests.antt =====
-- Runs of the permission functions, and instances of their theorems.
use cli_server_node.Common.{
  true, false, Option, none, some, List, [], ◌∷◌, Text, codes, text_eq, trim, trim_start, trim_end,
  is_space, split_on, lower_code, map, All, ◌≡◌, ◌↔◌, refl,
}
use cli_server_node.Permissions.{
  star, segments, segments_match, permission_matches, has_permission, merge_permissions, in_group,
  uncovered_permissions,
}
use cli_server_node.Permissions.Matching.{
  Covers, EndsInOneStar, permission_matches_iff, double_star_gap,
}
use cli_server_node.Permissions.Merge.{
  AllDistinct, held_in_some, has_permission-merge_permissions, merge_permissions-AllDistinct,
}
use cli_server_node.Permissions.Grants.{has_permission_of_covered}

strings : Unit {0}
unfolding text_eq trim trim_start trim_end is_space split_on lower_code
strings = tt

matching_tests :
    (permission_matches (codes " Users:*") (codes "users:read:own") ≡ true)
    × (permission_matches (codes "*:read") (codes "users:read") ≡ true)
    × (permission_matches (codes "*:read") (codes "users:delete") ≡ false)
    × (permission_matches (codes "users") (codes "users:read") ≡ false)
    × (permission_matches (codes "x:*:*") (codes "x") ≡ false)
unfolding permission_matches strings
matching_tests = (refl, refl, refl, refl, refl)

abbrev lists : List (Option (List Text))
lists =
    some (codes "users:read" ∷ codes "  " ∷ [])
    ∷ none
    ∷ some (codes " USERS:read" ∷ codes "jobs:*" ∷ [])
    ∷ []

merge_tests :
    (merge_permissions lists ≡ codes "users:read" ∷ codes "jobs:*" ∷ [])
    × (in_group (some (codes "Admin" ∷ [])) (codes "admin") ≡ true)
unfolding merge_permissions in_group strings
merge_tests = (refl, refl)

permission_matches_iff_example :
    (permission_matches (codes "users:*") (codes "users:read") ≡ true)
    ↔ Covers (segments (codes "users:*")) (segments (codes "users:read"))
permission_matches_iff_example = permission_matches_iff (codes "users:*") (codes "users:read")

double_star_gap_example :
    (segments_match (codes "x" ∷ star ∷ star ∷ []) (codes "x" ∷ star ∷ []) ≡ true)
    × (segments_match (codes "x" ∷ star ∷ []) (codes "x" ∷ []) ≡ true)
    × (segments_match (codes "x" ∷ star ∷ star ∷ []) (codes "x" ∷ []) ≡ false)
double_star_gap_example = double_star_gap (codes "x" ∷ [])

has_permission-merge_permissions_example :
    has_permission (some (merge_permissions lists)) (codes "jobs:run")
    ≡ held_in_some (codes "jobs:run") lists
has_permission-merge_permissions_example = has_permission-merge_permissions lists (codes "jobs:run")

merge_permissions-AllDistinct_example :
    AllDistinct (map lower_code (codes "users:read") ∷ map lower_code (codes "jobs:*") ∷ [])
    × All (λ q. trim q ≡ q) (codes "users:read" ∷ codes "jobs:*" ∷ [])
unfolding merge_permissions strings
merge_permissions-AllDistinct_example = merge_permissions-AllDistinct lists

caller_EndsInOneStar : All (λ c. EndsInOneStar (segments c)) (codes "users:*" ∷ [])
unfolding segments strings
caller_EndsInOneStar = (((λ e f. cc), ((λ e f. cc), tt)), tt)

has_permission_of_covered_example :
    has_permission (some (codes "users:*" ∷ [])) (codes "users:read") ≡ true
unfolding uncovered_permissions has_permission strings
has_permission_of_covered_example =
    has_permission_of_covered (codes "users:*" ∷ []) (codes "users:read" ∷ []) (codes "users:read")
      caller_EndsInOneStar refl refl
