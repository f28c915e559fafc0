-- ===== src/ServerGate.antt =====
-- src/auth/cli-server-auth-gate.ts: which requests reach the API of a protected server. The provider of
-- authentication (ICliServerAuth of src/auth/cli-server-auth.ts) is a record of its operations, for any
-- type of identities.
pub mod Passes
mod Tests
use cli_server_node.Common.{
  ℕ, suc, ◌+◌, Bool, true, false, not, ◌&&◌, ◌||◌, Option, none, some, List, [], ◌∷◌, ◌++◌, Text,
  codes, text_eq, to_lower, to_upper, starts_with, join, is_nil, any, filter, drop, length, ◌==◌,
  if◌then◌else◌,
}
use mathlib.Core.Option
use cli_server_node.Users.Json.{Json}
use cli_server_node.Commands.{CliCommandRegistry}
use cli_server_node.Commands.Gate.{processor_permissions}

-- What the gate reads of a request: `command` and `chainCommands` are the JSON values of the body, where
-- it has them.
pub record Request : Type 0 where
  pub method : Text
  pub path : Text
  pub command : Option Json
  pub chain_commands : Option Json

-- How `authenticateRequest` ends: an identity, an error with a status, or another error.
pub data Authentication (C : Type 0) : Type 0 where
  accepted : C → Authentication C
  refused : ℕ → Text → Authentication C
  failed : Authentication C

pub record ICliServerAuth (C : Type 0) : Type 0 where
  pub protect_server : Bool
  pub handles_path : Text → Text → Bool
  pub authenticate_request : Request → Authentication C
  pub has_permission : C → Text → Bool

pub record ServerAuthGateOptions : Type 0 where
  pub registry : CliCommandRegistry
  pub cli_prefixes : List Text
  pub public_routes : List Text
  pub mcp_paths : List Text

-- `next()`, with the identity that the request got, or a status and an error.
pub data Answer (C : Type 0) : Type 0 where
  passes : Option C → Answer C
  responds : ℕ → Text → Answer C

abbrev pub commands_execute : Text
commands_execute = codes "commands:execute"

-- `replace(/\/{2,}/g, '/')`, after a slash or not.
unfoldable pub single_slashes : Bool → Text → Text
single_slashes after [] = []
single_slashes after (c ∷ s) =
    let rest = single_slashes (c == b'/') s in if c == b'/' && after then rest else c ∷ rest

-- `replace(/\/+$/, '')`
unfoldable pub strip_slashes : Text → Text
strip_slashes [] = []
strip_slashes (c ∷ s) =
    let rest = strip_slashes s in if c == b'/' && is_nil rest then [] else c ∷ rest

unfoldable pub normalize_path : Text → Text
normalize_path path =
    let p = strip_slashes (single_slashes false (to_lower path)) in
    if is_nil p then codes "/" else p

-- Whether a `Set` of strings has one.
abbrev pub has_text : Text → List Text → Bool
has_text t set = any (λ u. text_eq u t) set

abbrev pub public_get : List Text
public_get =
    codes "/api/qcli/versions"
    ∷ codes "/api/qcli/version"
    ∷ codes "/api/qcli/capabilities"
    ∷ codes "/api/cli/versions"
    ∷ codes "/api/v1/qcli/version"
    ∷ codes "/api/v1/qcli/capabilities"
    ∷ codes "/health"
    ∷ codes "/healthz"
    ∷ codes "/api/health"
    ∷ []

abbrev pub fs_read : List Text
fs_read = codes "ls" ∷ codes "cat" ∷ codes "stat" ∷ codes "download" ∷ []

-- The path is the route, or below it.
unfoldable pub is_route : Text → Text → Bool
is_route route path = text_eq path route || starts_with path (route ++ codes "/")

abbrev pub is_execute : Text → Text → Bool
is_execute prefix path =
    text_eq path (prefix ++ codes "/execute") || text_eq path (prefix ++ codes "/execute/stream")

-- The routes after those that execute commands.
unfoldable pub route_permissions : Text → Text → ServerAuthGateOptions → List Text
route_permissions method path o =
    if has_text path o.mcp_paths
    then commands_execute ∷ []
    else if is_route (codes "/api/qcli/fs") path
    then (if text_eq method (codes "GET")
          && has_text (drop (length (codes "/api/qcli/fs/")) path) fs_read
        then codes "files:read" ∷ []
        else codes "files:write" ∷ [])
    else if is_route (codes "/api/qcli/data-explorer") path
    then codes "data:query" ∷ []
    else if is_route (codes "/api/v1/qcli/jobs") path
    then (if text_eq method (codes "GET") then codes "jobs:read" ∷ [] else codes "jobs:manage" ∷ [])
    else if is_route (codes "/api/v1/qcli/audit") path
    then (if text_eq method (codes "GET")
        then codes "audit:read" ∷ []
        else codes "audit:clear" ∷ [])
    else []

unfoldable pub required_server_permissions :
    Text → Text → Request → ServerAuthGateOptions → List Text
required_server_permissions method path req o =
    if any (λ prefix. is_execute prefix path) o.cli_prefixes
    then commands_execute ∷ processor_permissions o.registry req.command req.chain_commands
    else route_permissions method path o

-- The requests that pass without authentication.
unfoldable pub is_exempt :
    {C : Type 0} → ICliServerAuth C → ServerAuthGateOptions → Text → Text → Bool
is_exempt auth o method path =
    text_eq method (codes "OPTIONS")
    || not (starts_with path (codes "/api/") || text_eq path (codes "/api"))
    || ((text_eq method (codes "GET") || text_eq method (codes "HEAD")) && has_text path public_get)
    || has_text (method ++ codes " " ++ path) o.public_routes
    || auth.handles_path path method

-- The error where a permission is missing, and otherwise `next()`.
abbrev pub admit : {C : Type 0} → C → List Text → Answer C
admit ctx missing =
    if is_nil missing
    then passes (some ctx)
    else responds 403 (codes "forbidden: missing permission " ++ join (codes ", ") missing)

-- `err.message || 'unauthorized'`, and for other states `'forbidden'`.
abbrev pub refusal : ℕ → Text → Text
refusal status message =
    if not (is_nil message)
    then message
    else if status == 401
    then codes "unauthorized"
    else codes "forbidden"

abbrev pub authenticated : {C : Type 0} → ICliServerAuth C → List Text → Authentication C → Answer C
authenticated auth required (accepted ctx) =
    admit ctx (filter (λ p. not (auth.has_permission ctx p)) required)
authenticated auth required (refused status message) = responds status (refusal status message)
authenticated auth required failed = responds 500 (codes "internal server error")

unfoldable pub gate :
    {C : Type 0} → Option (ICliServerAuth C) → ServerAuthGateOptions → Request → Answer C
gate none o req = passes none
gate (some auth) o req =
    let method = to_upper req.method in
    let path = normalize_path req.path in
    if not auth.protect_server || is_exempt auth o method path
    then passes none
    else authenticated auth (required_server_permissions method path req o)
        (auth.authenticate_request req)
