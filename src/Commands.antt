-- ===== src/Commands.antt =====
-- The commands of the server: packages/abstractions/src/cli-command-processor.ts with the commands and
-- responses that processors handle, and src/services/cli-command-registry.ts, which finds a processor.
-- A processor's handler is a function of the command; what it does elsewhere is not followed.
pub mod Values
pub mod Ways
pub mod Gate
pub mod Execution
pub mod Usage
mod Tests
use cli_server_node.Common.{
  ℕ, Bool, true, false, Option, none, some, List, [], ◌∷◌, Text, text_eq, to_lower, Map, map_get,
  map_set, map_values, if◌then◌else◌, is_nil,
}

pub record CliProcessCommand : Type 0 where
  pub command : Text
  pub chain_commands : List Text
  pub raw_command : Text
  pub value : Option Text
  pub positionals : Option (List Text)
  pub args : Map Text

pub record CliTablePage : Type 0 where
  pub skip : ℕ
  pub page_take : ℕ
  pub total : Option ℕ
  pub has_more : Bool
  pub truncated : Bool

pub data Style : Type 0 where
  success error info warning : Style

pub data CliStructuredOutput : Type 0 where
  text_output : Text → Option Style → CliStructuredOutput
  table_output : List Text → List (List Text) → Option CliTablePage → CliStructuredOutput
  list_output : List Text → Bool → CliStructuredOutput
  json_output : Text → CliStructuredOutput
  key_value_output : List (Text × Text) → CliStructuredOutput

pub record CliStructuredResponse : Type 0 where
  pub exit_code : ℕ
  pub outputs : List CliStructuredOutput

-- What an awaited call ends with: a value, or an error with its message.
pub data Outcome {ℓ} (A : Type ℓ) : Type ℓ where
  returned : A → Outcome A
  thrown : Text → Outcome A

-- `handleStructuredAsync`, where a processor has it, and otherwise `handleAsync`.
pub data Handler : Type 0 where
  structured : (CliProcessCommand → Outcome CliStructuredResponse) → Handler
  plain : (CliProcessCommand → Outcome Text) → Handler

-- A processor: its keyword, `allowUnlistedCommands`, the required permissions, the handler and the
-- processors of its sub-commands.
mutual
  pub data ICliCommandProcessor : Type 0 where
    processor : Text → Bool → List Text → Handler → Processors → ICliCommandProcessor

  pub data Processors : Type 0 where
    no_more : Processors
    more : ICliCommandProcessor → Processors → Processors

abbrev pub command_of : ICliCommandProcessor → Text
command_of (processor name unlisted permissions handler children) = name

abbrev pub allow_unlisted_commands : ICliCommandProcessor → Bool
allow_unlisted_commands (processor name unlisted permissions handler children) = unlisted

abbrev pub required_permissions : ICliCommandProcessor → List Text
required_permissions (processor name unlisted permissions handler children) = permissions

abbrev pub handler_of : ICliCommandProcessor → Handler
handler_of (processor name unlisted permissions handler children) = handler

abbrev pub processors_of : ICliCommandProcessor → Processors
processors_of (processor name unlisted permissions handler children) = children

-- `processors.find` by keyword, whatever the case.
unfoldable pub find_child : Text → Processors → Option ICliCommandProcessor
find_child sub no_more = none
find_child sub (more p ps) =
    if text_eq (to_lower (command_of p)) (to_lower sub) then some p else find_child sub ps

abbrev pub CliCommandRegistry : Type 0
CliCommandRegistry = Map ICliCommandProcessor

unfoldable pub register : CliCommandRegistry → ICliCommandProcessor → CliCommandRegistry
register registry p = map_set (to_lower (command_of p)) p registry

unfoldable pub resolve_chain : ICliCommandProcessor → List Text → Option ICliCommandProcessor
resolve_chain current [] = some current
resolve_chain current (sub ∷ chain) = elim (find_child sub (processors_of current)) [
  | none ↦ if allow_unlisted_commands current then some current else none
  | some child ↦ resolve_chain child chain
]

unfoldable pub find_processor : CliCommandRegistry → Text → List Text → Option ICliCommandProcessor
find_processor registry command chain_commands = elim (map_get (to_lower command) registry) [
  | none ↦ none
  | some p ↦ if is_nil chain_commands then some p else resolve_chain p chain_commands
]

-- A registry of registered processors alone.
unfoldable pub register_all : CliCommandRegistry → List ICliCommandProcessor → CliCommandRegistry
register_all registry [] = registry
register_all registry (p ∷ ps) = register_all (register registry p) ps
