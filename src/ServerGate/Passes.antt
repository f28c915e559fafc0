-- ===== src/ServerGate/Passes.antt =====
-- What a request that the gate lets through has shown.
use cli_server_node.Common.{
  ℕ, true, false, not, ◌||◌, Option, none, some, List, [], ◌∷◌, Text, to_lower, map_get, to_upper,
  is_nil, any, filter, All, if◌then◌else◌, Bool-cases, inl, inr, ◌≡◌, ◌↔◌, refl, sym, ap, subst,
  ◌∙◌, arith,
}
use cli_server_node.Users.Json.{string}
use cli_server_node.Commands.{ICliCommandProcessor, register_all}
use cli_server_node.Commands.Values.{find_for_body, found}
use cli_server_node.Commands.Gate.{
  processor_permissions, is_text, ValuesLead, permissions_along, processor_permissions_complete,
}
use cli_server_node.ServerGate.{
  Request, Authentication, accepted, refused, failed, ICliServerAuth, ServerAuthGateOptions, passes,
  responds, commands_execute, normalize_path, is_execute, required_server_permissions, is_exempt,
  authenticated, gate,
}

module _ {C : Type 0} (auth : ICliServerAuth C) where
  abbrev Has : C → Text → Type 0
  Has ctx p = auth.has_permission ctx p ≡ true

  -- No permission is missing exactly when each is held.
  none_missing :
      (ctx : C) (required : List Text)
      → (is_nil (filter (λ p. not (auth.has_permission ctx p)) required) ≡ true)
        ↔ All (Has ctx) required
  none_missing ctx [] = (λ e. tt, λ h. refl)
  none_missing ctx (p ∷ required) = ground (arith, none_missing ctx required)

  passes_not_responds :
      (o : Option C) (status : ℕ) (message : Text) → responds status message ≡ passes o → ⊥
  passes_not_responds o status message e = cc

  some_injective : (a b : C) → some a ≡ some b → a ≡ b
  some_injective a b e = cc

  passes_injective : (o o' : Option C) → passes o ≡ passes o' → o ≡ o'
  passes_injective o o' e = cc

  authenticated-passes :
      (required : List Text) (a : Authentication C) (o : Option C)
      → authenticated auth required a ≡ passes o
      → (ctx : C) × (o ≡ some ctx) × (a ≡ accepted ctx) × All (Has ctx) required
  authenticated-passes required (accepted ctx) o e =
      elim (Bool-cases (is_nil (filter (λ p. not (auth.has_permission ctx p)) required))) [
        | inl n ↦
            let here : passes (some ctx) ≡ passes o = rw n at e in
            (ctx, sym (passes_injective (some ctx) o here), refl, (none_missing ctx required).0 n)
        | inr n ↦ let no = rw n at e in absurd (passes_not_responds o _ _ no)
      ]
  authenticated-passes required (refused status message) o e = absurd (passes_not_responds o _ _ e)
  authenticated-passes required failed o e = absurd (passes_not_responds o _ _ e)

  authenticated-All :
      (required : List Text) (a : Authentication C) (ctx : C)
      → a ≡ accepted ctx
      → All (Has ctx) required
      → authenticated auth required a ≡ passes (some ctx)
  authenticated-All required a ctx e h = rw e (rw ((none_missing ctx required).1 h) refl)

  module _ (o : ServerAuthGateOptions) (req : Request) where
    abbrev method : Text
    method = to_upper req.method

    abbrev path : Text
    path = normalize_path req.path

    abbrev required : List Text
    required = required_server_permissions method path req o

    execute_permissions :
        any (λ prefix. is_execute prefix path) o.cli_prefixes ≡ true
        → required
          ≡ commands_execute ∷ processor_permissions o.registry req.command req.chain_commands
    unfolding required_server_permissions
    execute_permissions route = rw route refl

    gate_eq :
        auth.protect_server ≡ true
        → is_exempt auth o method path ≡ false
        → gate (some auth) o req ≡ authenticated auth required (auth.authenticate_request req)
    unfolding gate
    gate_eq protected exempt =
        let closed : (not auth.protect_server || is_exempt auth o method path) ≡ false =
          ap (λ b. not b || is_exempt auth o method path) protected ∙ exempt in
        ap
          (λ b.
            if b then passes none else authenticated auth required (auth.authenticate_request req))
          closed

    -- On a server that is protected, a request that is not exempt is let through with an identity exactly
    -- when it authenticates as that identity and this has every permission that its route needs.
    pub gate-passes_iff :
        (ctx : C)
        → auth.protect_server ≡ true
        → is_exempt auth o method path ≡ false
        → (gate (some auth) o req ≡ passes (some ctx))
          ↔ ((auth.authenticate_request req ≡ accepted ctx) × All (Has ctx) required)
    gate-passes_iff ctx protected exempt = (
      λ e.
          let got =
            authenticated-passes required (auth.authenticate_request req) (some ctx)
              (sym (gate_eq protected exempt) ∙ e) in
          let same : ctx ≡ got.0 = some_injective ctx got.0 got.1 in
          subst (λ c. (auth.authenticate_request req ≡ accepted c) × All (Has c) required)
            (sym same) (got.2, got.3),
      λ (a, h).
          gate_eq protected exempt
          ∙ authenticated-All required (auth.authenticate_request req) ctx a h,
    )

    -- On a server that is protected, a request to execute a command, that is not exempt, whose
    -- `chainCommands` is no string, and that is let through with whatever answer: if the registry, filled
    -- by whatever registrations, finds a processor for the JSON values of its body, then the request
    -- authenticated as an identity that may execute commands and has the permissions of every processor
    -- on the way to that one, from the one that is registered under the body's command.
    pub gate_execute :
        (ps : List ICliCommandProcessor) (r : ICliCommandProcessor) (answer : Option C)
        → auth.protect_server ≡ true
        → is_exempt auth o method path ≡ false
        → o.registry ≡ register_all [] ps
        → any (λ prefix. is_execute prefix path) o.cli_prefixes ≡ true
        → is_text req.chain_commands ≡ false
        → find_for_body o.registry req.command req.chain_commands ≡ found r
        → gate (some auth) o req ≡ passes answer
        → (ctx : C) × (name : Text) × (root : ICliCommandProcessor) × (way : List
            ICliCommandProcessor)
          × (answer ≡ some ctx)
          × (auth.authenticate_request req ≡ accepted ctx)
          × (req.command ≡ some (string name))
          × (map_get (to_lower name) o.registry ≡ some root)
          × ValuesLead root req.chain_commands way r
          × (auth.has_permission ctx commands_execute ≡ true)
          × All (λ p. auth.has_permission ctx p ≡ true) (permissions_along way)
    gate_execute ps r answer protected exempt built route listed here e =
        let got =
          authenticated-passes required (auth.authenticate_request req) answer
            (sym (gate_eq protected exempt) ∙ e) in
        let (name, root, way, named, at, lead, same) =
          processor_permissions_complete ps req.command req.chain_commands r listed
            (ap (λ v. find_for_body v req.command req.chain_commands) (sym built) ∙ here) in
        let needed : required ≡ commands_execute ∷ permissions_along way =
          execute_permissions route
          ∙ ap (λ v. commands_execute ∷ v)
              (ap (λ v. processor_permissions v req.command req.chain_commands) built ∙ same) in
        let held = subst (All (Has got.0)) needed got.3 in
        (
          got.0,
          name,
          root,
          way,
          got.1,
          got.2,
          named,
          ap (map_get (to_lower name)) built ∙ at,
          lead,
          held.0,
          held.1,
        )
