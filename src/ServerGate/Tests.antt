-- ===== src/ServerGate/Tests.antt =====
-- Requests at the gate, and instances of its theorems.
use cli_server_node.Common.{
  true, false, some, List, [], ◌∷◌, Text, codes, text_eq, lower_code, to_lower, upper_code, String,
  is_space, trim, trim_start, trim_end, starts_with, join, split_on, split_on_from, map_get,
  map_set, All, ◌≡◌, ◌↔◌, refl,
}
use cli_server_node.Permissions.{has_permission, permission_matches, segments_match, segments}
use cli_server_node.Users.Json.{string, array, item, no_items}
use cli_server_node.Commands.{
  returned, plain, ICliCommandProcessor, processor, no_more, register, register_all, find_child,
  resolve_chain,
}
use cli_server_node.Commands.Values.{characters, resolve_items, follow, find_for_body}
use cli_server_node.Commands.Gate.{
  chain_permissions, processor_permissions, ValuesLead, permissions_along,
}
use cli_server_node.ServerGate.{
  Request, accepted, ICliServerAuth, ServerAuthGateOptions, passes, responds, commands_execute,
  single_slashes, strip_slashes, normalize_path, is_route, route_permissions,
  required_server_permissions, is_exempt, gate,
}
use cli_server_node.ServerGate.Passes.{gate-passes_iff, gate_execute}

runs : Unit {0}
unfolding map_get map_set text_eq lower_code upper_code is_space trim trim_start trim_end
    starts_with split_on split_on_from has_permission permission_matches segments_match segments
    register register_all find_child resolve_chain characters resolve_items follow find_for_body
    chain_permissions processor_permissions single_slashes strip_slashes normalize_path is_route
    route_permissions required_server_permissions is_exempt gate join
runs = tt

abbrev echo : ICliCommandProcessor
echo =
    processor (codes "echo") true (codes "text:write" ∷ []) (plain (λ c. returned (codes "")))
      no_more

-- Identities are lists of permissions; every request authenticates as the same one.
abbrev auth : List Text → ICliServerAuth (List Text)
auth identity = record {
  protect_server = true;
  handles_path = λ path method. false;
  authenticate_request = λ req. accepted identity;
  has_permission = λ granted p. has_permission (some granted) p;
}

abbrev options : ServerAuthGateOptions
options = record {
  registry = register_all [] (echo ∷ []);
  cli_prefixes = codes "/api/v1/qcli" ∷ [];
  public_routes = [];
  mcp_paths = [];
}

abbrev request : String → Request
request path = record {
  method = codes "post";
  path = codes path;
  command = some (string (codes "ECHO"));
  chain_commands = some (array (item (string (codes "hi")) no_items));
}

abbrev weak : List Text
weak = codes "commands:*" ∷ codes "text" ∷ []

abbrev strong : List Text
strong = codes "commands:*" ∷ codes "text:*" ∷ []

denied_test :
    gate (some (auth weak)) options (request "/api/v1/qcli//execute/")
    ≡ responds 403 (codes "forbidden: missing permission text:write")
unfolding runs
denied_test = refl

jobs_test :
    required_server_permissions (codes "POST") (codes "/api/v1/qcli/jobs/1") (request "") options
    ≡ codes "jobs:manage" ∷ []
unfolding runs
jobs_test = refl

gate-passes_iff_example :
    (gate (some (auth strong)) options (request "/api/v1/qcli//execute/") ≡ passes (some strong))
    ↔ ((accepted strong ≡ accepted strong)
        × All
            (λ p. has_permission (some strong) p ≡ true)
            (codes "commands:execute" ∷ codes "text:write" ∷ []))
unfolding runs
gate-passes_iff_example =
    gate-passes_iff (auth strong) options (request "/api/v1/qcli//execute/") strong refl refl

gate_execute_example :
    (ctx : List Text) × (name : Text) × (root : ICliCommandProcessor) × (way : List
      ICliCommandProcessor)
    × (some strong ≡ some ctx)
    × (accepted strong ≡ accepted ctx)
    × (some (string (codes "ECHO")) ≡ some (string name))
    × (map_get (to_lower name) (register_all [] (echo ∷ [])) ≡ some root)
    × ValuesLead root (some (array (item (string (codes "hi")) no_items))) way echo
    × (has_permission (some ctx) commands_execute ≡ true)
    × All (λ p. has_permission (some ctx) p ≡ true) (permissions_along way)
unfolding runs
gate_execute_example =
    gate_execute (auth strong) options (request "/api/v1/qcli//execute/") (echo ∷ []) echo
      (some strong) refl refl refl refl refl refl refl
