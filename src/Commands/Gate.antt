-- ===== src/Commands/Gate.antt =====
-- src/auth/cli-server-auth-gate.ts: the permissions that a command needs, and the processors that run it.
use cli_server_node.Common.{
  Bool, true, false, Option, none, some, List, [], ◌∷◌, ◌++◌, append-nil, Text, codes, text_eq,
  to_lower, map_get, map_set, map_values, find?, if◌then◌else◌, is_nil, Bool-cases, Option-cases,
  inl, inr, ◌≡◌, refl, sym, ap, subst, ◌∙◌,
}
use cli_server_node.Users.Json.{
  Json, null, boolean, number, string, array, object, Items, no_items, item, field_of,
}
use cli_server_node.Commands.{
  ICliCommandProcessor, processor, command_of, allow_unlisted_commands, required_permissions,
  processors_of, no_more, more, find_child, CliCommandRegistry, register, register_all,
}
use cli_server_node.Commands.Values.{
  found, missing, type_error, lookup_of, characters, child_less, resolve_items, has_length, follow,
  find_for_body,
}
use cli_server_node.Commands.Ways.{
  NoneNamed, Walk, arrives, descends, Leads, find_child-FirstNamed, find_child-NoneNamed,
  resolve_chain_iff,
}

-- The permissions that what follows of the chain adds, up to a value that is no string or names no child.
unfoldable pub chain_permissions : ICliCommandProcessor → Items → List Text
chain_permissions current no_items = []
chain_permissions current (item (string sub) chain) =
    elim (find_child sub (processors_of current)) [
      | none ↦ []
      | some child ↦ required_permissions child ++ chain_permissions child chain
    ]
chain_permissions current (item _ chain) = []

-- Those of the body's `chainCommands`, where it is an array.
abbrev pub permissions_below : ICliCommandProcessor → Option Json → List Text
permissions_below root (some (array items)) = chain_permissions root items
permissions_below root _ = []

unfoldable pub processor_permissions : CliCommandRegistry → Option Json → Option Json → List Text
unfolding chain_permissions
processor_permissions registry (some (string command)) chain =
    elim (find? (λ p. text_eq (to_lower (command_of p)) (to_lower command)) (map_values registry)) [
      | none ↦ []
      | some root ↦ required_permissions root ++ permissions_below root chain
    ]
processor_permissions registry _ chain = []

abbrev pub permissions_along : List ICliCommandProcessor → List Text
permissions_along [] = []
permissions_along (p ∷ path) = required_permissions p ++ permissions_along path

-- Strings before the other values of an array.
abbrev pub prepend : List Text → Items → Items
prepend [] rest = rest
prepend (name ∷ names) rest = item (string name) (prepend names rest)

-- A processor may be left with values that follow: there are none, or it takes any that is a string and
-- that no child has as its name; where it has no children, any value.
abbrev pub TakesItems : ICliCommandProcessor → Items → Type 0
TakesItems r no_items = Unit
TakesItems r (item (string name) rest) =
    NoneNamed name (processors_of r) × (allow_unlisted_commands r ≡ true)
TakesItems r (item v rest) = (processors_of r ≡ no_more) × (allow_unlisted_commands r ≡ true)

-- The values of `chainCommands` lead from a processor to another, along the path: an array by the strings
-- at its front, and whatever else is iterated over by no step.
abbrev pub ValuesLead :
    ICliCommandProcessor → Option Json → List ICliCommandProcessor → ICliCommandProcessor → Type 0
ValuesLead p (some (array items)) path r =
    (taken : List Text) × (rest : Items) × (items ≡ prepend taken rest)
    × Walk p taken path r
    × TakesItems r rest
ValuesLead p chain path r = (path ≡ p ∷ []) × (r ≡ p)

abbrev ItemsWay : ICliCommandProcessor → Items → ICliCommandProcessor → Type 0
ItemsWay p items r =
    (path : List ICliCommandProcessor) × ValuesLead p (some (array items)) path r
    × (permissions_along path ≡ required_permissions p ++ chain_permissions p items)

found_injective : {p r : ICliCommandProcessor} → found p ≡ found r → p ≡ r
found_injective e = cc

-- The way that ends where it begins.
stays :
    (p r : ICliCommandProcessor) (rest : Items)
    → p ≡ r
    → TakesItems p rest
    → chain_permissions p rest ≡ []
    → ItemsWay p rest r
stays p r rest e t n =
    subst (λ q. ItemsWay p rest q) e
      (p ∷ [], ([], rest, refl, arrives, t), ap (λ v. required_permissions p ++ v) (sym n))

-- A value that is no string ends the way at a processor that has no children.
child_less_found :
    (p r : ICliCommandProcessor)
    → child_less p ≡ found r
    → (p ≡ r) × (processors_of p ≡ no_more) × (allow_unlisted_commands p ≡ true)
child_less_found (processor name true permissions handler no_more) r e =
    (found_injective e, refl, refl)
child_less_found (processor name false permissions handler no_more) r e = absurd (cc e)
child_less_found (processor name unlisted permissions handler (more q qs)) r e = absurd (cc e)

resolve_items-ItemsWay :
    (p r : ICliCommandProcessor) (items : Items)
    → resolve_items p items ≡ found r
    → ItemsWay p items r
unfolding resolve_items chain_permissions
resolve_items-ItemsWay p r no_items e = stays p r no_items (found_injective e) tt refl
resolve_items-ItemsWay p r (item (string name) items) e =
    elim (Option-cases (find_child name (processors_of p))) [
      | inr (c, f) ↦
          let (path, (taken, rest, split, walk, takes), same) =
            resolve_items-ItemsWay c r items (rw (f, resolve_items) at e) in
          (
            p ∷ path,
            (
              name ∷ taken,
              rest,
              ap (λ v. item (string name) v) split,
              descends (find_child-FirstNamed name (processors_of p) c f) walk,
              takes,
            ),
            rw (f, chain_permissions) (ap (λ v. required_permissions p ++ v) same),
          )
      | inl f ↦ elim (Bool-cases (allow_unlisted_commands p)) [
        | inl u ↦
            stays p r (item (string name) items) (found_injective (rw (f, u, resolve_items) at e))
              (find_child-NoneNamed name (processors_of p) f, u) (rw (f, chain_permissions) refl)
        | inr u ↦ let no : missing ≡ found r = rw (f, u, resolve_items) at e in absurd (cc no)
      ]
    ]
resolve_items-ItemsWay p r (item null items) e =
    let (same, bare, takes) = child_less_found p r e in
    stays p r (item null items) same (bare, takes) refl
resolve_items-ItemsWay p r (item (boolean b) items) e =
    let (same, bare, takes) = child_less_found p r e in
    stays p r (item (boolean b) items) same (bare, takes) refl
resolve_items-ItemsWay p r (item (number n) items) e =
    let (same, bare, takes) = child_less_found p r e in
    stays p r (item (number n) items) same (bare, takes) refl
resolve_items-ItemsWay p r (item (array xs) items) e =
    let (same, bare, takes) = child_less_found p r e in
    stays p r (item (array xs) items) same (bare, takes) refl
resolve_items-ItemsWay p r (item (object fs) items) e =
    let (same, bare, takes) = child_less_found p r e in
    stays p r (item (object fs) items) same (bare, takes) refl

-- Each entry stands under its own keyword, in lower case.
abbrev IsKeyed : CliCommandRegistry → Type 0
IsKeyed [] = Unit
IsKeyed ((key, p) ∷ registry) = (key ≡ to_lower (command_of p)) × IsKeyed registry

register-IsKeyed :
    (registry : CliCommandRegistry) (p : ICliCommandProcessor)
    → IsKeyed registry
    → IsKeyed (register registry p)
unfolding register map_set
register-IsKeyed [] p k = (refl, tt)
register-IsKeyed ((key, q) ∷ registry) p k =
    elim (Bool-cases (text_eq key (to_lower (command_of p)))) [
      | inl e ↦ rw e (refl, k.1)
      | inr n ↦ rw n (k.0, register-IsKeyed registry p k.1)
    ]

register_all-IsKeyed :
    (registry : CliCommandRegistry) (ps : List ICliCommandProcessor)
    → IsKeyed registry
    → IsKeyed (register_all registry ps)
unfolding register_all
register_all-IsKeyed registry [] k = k
register_all-IsKeyed registry (p ∷ ps) k =
    register_all-IsKeyed (register registry p) ps (register-IsKeyed registry p k)

-- Where entries stand under their keywords, the gate and the registry find the same processor.
find?-map_get :
    (registry : CliCommandRegistry) (command : Text)
    → IsKeyed registry
    → find? (λ p. text_eq (to_lower (command_of p)) (to_lower command)) (map_values registry)
      ≡ map_get (to_lower command) registry
unfolding map_get
find?-map_get [] command k = refl
find?-map_get ((key, p) ∷ registry) command k =
    rw k.0 (rw (find?-map_get registry command k.1) refl)

abbrev pub is_text : Option Json → Bool
is_text (some (string t)) = true
is_text v = false

abbrev BodyWay : ICliCommandProcessor → Option Json → ICliCommandProcessor → Type 0
BodyWay p chain r =
    (path : List ICliCommandProcessor) × ValuesLead p chain path r
    × (permissions_along path ≡ required_permissions p ++ permissions_below p chain)

object_found :
    (b : Bool) (p r : ICliCommandProcessor) → (if b then type_error else found p) ≡ found r → r ≡ p
object_found true p r e = absurd (cc e)
object_found false p r e = sym (found_injective e)

follow-BodyWay :
    (p r : ICliCommandProcessor) (chain : Option Json)
    → is_text chain ≡ false
    → follow p chain ≡ found r
    → BodyWay p chain r
unfolding follow
follow-BodyWay p r none n e = (p ∷ [], (refl, sym (found_injective e)), refl)
follow-BodyWay p r (some null) n e = (p ∷ [], (refl, sym (found_injective e)), refl)
follow-BodyWay p r (some (boolean b)) n e = (p ∷ [], (refl, sym (found_injective e)), refl)
follow-BodyWay p r (some (number k)) n e = (p ∷ [], (refl, sym (found_injective e)), refl)
follow-BodyWay p r (some (string t)) n e = absurd (cc n)
follow-BodyWay p r (some (array items)) n e = resolve_items-ItemsWay p r items e
follow-BodyWay p r (some (object fs)) n e =
    (p ∷ [], (refl, object_found (has_length (field_of (codes "length") fs)) p r e), refl)

-- However the processors were registered, and whatever JSON values the body has as `command` and as
-- `chainCommands`, the latter no string: if the registry finds a processor, then `command` is a string,
-- the chain leads to the processor from the one that is registered under that keyword, each string of it
-- naming the first child of its keyword in whatever case; and the gate asks for the permissions of every
-- processor on the way, and for no others.
pub processor_permissions_complete :
    (ps : List ICliCommandProcessor) (command chain : Option Json) (r : ICliCommandProcessor)
    → is_text chain ≡ false
    → find_for_body (register_all [] ps) command chain ≡ found r
    → (name : Text) × (root : ICliCommandProcessor) × (path : List ICliCommandProcessor) × (command
        ≡ some (string name))
      × (map_get (to_lower name) (register_all [] ps) ≡ some root)
      × ValuesLead root chain path r
      × (processor_permissions (register_all [] ps) command chain ≡ permissions_along path)
unfolding find_for_body processor_permissions
processor_permissions_complete ps (some (string name)) chain r n e =
    let keyed = find?-map_get (register_all [] ps) name (register_all-IsKeyed [] ps tt) in
    elim (Option-cases (map_get (to_lower name) (register_all [] ps))) [
      | inl q ↦ let no : missing ≡ found r = rw (q, find_for_body) at e in absurd (cc no)
      | inr (root, q) ↦
          let (path, lead, same) = follow-BodyWay root r chain n (rw (q, find_for_body) at e) in
          (name, root, path, refl, q, lead, rw (keyed ∙ q, processor_permissions) (sym same))
    ]
processor_permissions_complete ps none chain r n e = absurd (cc e)
processor_permissions_complete ps (some null) chain r n e = absurd (cc e)
processor_permissions_complete ps (some (boolean b)) chain r n e = absurd (cc e)
processor_permissions_complete ps (some (number k)) chain r n e = absurd (cc e)
processor_permissions_complete ps (some (array xs)) chain r n e = absurd (cc e)
processor_permissions_complete ps (some (object fs)) chain r n e = absurd (cc e)

follow_text :
    (root r : ICliCommandProcessor) (t : Text) (path : List ICliCommandProcessor)
    → is_nil t ≡ false
    → Leads root (characters t) path r
    → follow root (some (string t)) ≡ found r
unfolding follow
follow_text root r t path n w =
    rw n (ap lookup_of ((resolve_chain_iff root r (characters t)).1 (path, w)))

-- Where `chainCommands` is a string, its characters lead the registry as the strings of an array do; but
-- the gate asks for the permissions of the command's own processor alone, wherever they lead.
pub string_chain_gap :
    (ps : List ICliCommandProcessor) (command t : Text) (root r : ICliCommandProcessor)
    (path : List ICliCommandProcessor)
    → is_nil t ≡ false
    → map_get (to_lower command) (register_all [] ps) ≡ some root
    → Leads root (characters t) path r
    → (find_for_body (register_all [] ps) (some (string command)) (some (string t)) ≡ found r)
      × (processor_permissions (register_all [] ps) (some (string command)) (some (string t))
          ≡ required_permissions root)
unfolding find_for_body processor_permissions
string_chain_gap ps command t root r path n q w =
    let keyed = find?-map_get (register_all [] ps) command (register_all-IsKeyed [] ps tt) in
    (
      rw (q, find_for_body) (follow_text root r t path n w),
      rw (keyed ∙ q, processor_permissions) (append-nil (required_permissions root)),
    )
