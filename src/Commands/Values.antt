-- ===== src/Commands/Values.antt =====
-- findProcessor of src/services/cli-command-registry.ts on the JSON values that a request really holds:
-- neither `command` nor `chainCommands` need have the type that is declared.
use cli_server_node.Common.{
  Bool, true, false, not, ◌&&◌, Option, none, some, List, [], ◌∷◌, Text, codes, text_eq, to_lower,
  map_get, leb, ltb, if◌then◌else◌, is_nil,
}
use cli_server_node.Users.Json.{
  Json, null, boolean, number, string, array, object, Items, no_items, item, field_of,
}
use cli_server_node.Commands.{
  ICliCommandProcessor, allow_unlisted_commands, processors_of, no_more, more, find_child,
  CliCommandRegistry, resolve_chain,
}

-- How a lookup ends: with a processor, without one, or with a TypeError.
pub data Lookup : Type 0 where
  found : ICliCommandProcessor → Lookup
  missing : Lookup
  type_error : Lookup

abbrev pub lookup_of : Option ICliCommandProcessor → Lookup
lookup_of none = missing
lookup_of (some p) = found p

-- The characters of a string, as `for … of` gives them: a surrogate pair is one.
unfoldable pub characters : Text → List Text
characters [] = []
characters (c ∷ []) = (c ∷ []) ∷ []
characters (c ∷ d ∷ t) =
    let pair = (c ∷ d ∷ []) ∷ characters t in
    let single = (c ∷ []) ∷ characters (d ∷ t) in
    if leb 55296 c && ltb c 56320 && (leb 56320 d && ltb d 57344) then pair else single

-- A sub-command that is no string has no `toLowerCase`, which is called where there is a child.
abbrev pub child_less : ICliCommandProcessor → Lookup
child_less p = elim (processors_of p) [
  | no_more ↦ if allow_unlisted_commands p then found p else missing
  | more q qs ↦ type_error
]

-- `resolveChain` on an array.
unfoldable pub resolve_items : ICliCommandProcessor → Items → Lookup
resolve_items current no_items = found current
resolve_items current (item (string sub) chain) = elim (find_child sub (processors_of current)) [
  | none ↦ if allow_unlisted_commands current then found current else missing
  | some child ↦ resolve_items child chain
]
resolve_items current (item _ chain) = child_less current

-- Whether a value counts as true.
abbrev pub is_truthy : Json → Bool
is_truthy null = false
is_truthy (boolean b) = b
is_truthy (number n) = not (text_eq n (codes "0"))
is_truthy (string t) = not (is_nil t)
is_truthy (array xs) = true
is_truthy (object fs) = true

abbrev pub has_length : Option Json → Bool
has_length none = false
has_length (some length) = is_truthy length

-- The rest of `findProcessor`, from the processor of the command on; an object with a `length` is not
-- iterable.
unfoldable pub follow : ICliCommandProcessor → Option Json → Lookup
unfolding characters resolve_items
follow p none = found p
follow p (some null) = found p
follow p (some (boolean b)) = found p
follow p (some (number n)) = found p
follow p (some (string t)) =
    if is_nil t then found p else lookup_of (resolve_chain p (characters t))
follow p (some (array items)) = resolve_items p items
follow p (some (object fs)) =
    if has_length (field_of (codes "length") fs) then type_error else found p

unfoldable pub find_for_body : CliCommandRegistry → Option Json → Option Json → Lookup
unfolding follow
find_for_body registry (some (string command)) chain = elim (map_get (to_lower command) registry) [
  | none ↦ missing
  | some p ↦ follow p chain
]
find_for_body registry _ chain = type_error
