-- ===== src/Commands/Ways.antt =====
-- What a chain of sub-commands means, without the loop that follows it: each sub-command names the first
-- child of its keyword, whatever the case, and a processor that takes any arguments may end the way.
use cli_server_node.Common.{
  true, false, none, some, List, [], ◌∷◌, ◌++◌, Text, text_eq, text_eq_iff, to_lower, Bool-cases,
  Option-cases, inl, inr, ◌≡◌, ◌↔◌, refl, sym, ap, subst,
}
use cli_server_node.Commands.{
  ICliCommandProcessor, command_of, allow_unlisted_commands, processors_of, Processors, no_more,
  more, find_child, resolve_chain,
}

-- The keyword of the processor is the name, whatever the case of both.
abbrev pub IsNamed : Text → ICliCommandProcessor → Type 0
IsNamed name p = to_lower (command_of p) ≡ to_lower name

-- The first of the processors that has the name, and that none has it.
pub data FirstNamed (name : Text) : Processors → ICliCommandProcessor → Type 0 where
  here :
      {p : ICliCommandProcessor} {ps : Processors} → IsNamed name p → FirstNamed name (more p ps) p
  later :
      {p c : ICliCommandProcessor} {ps : Processors}
      → ¬ (IsNamed name p)
      → FirstNamed name ps c
      → FirstNamed name (more p ps) c

pub data NoneNamed (name : Text) : Processors → Type 0 where
  none_left : NoneNamed name no_more
  others :
      {p : ICliCommandProcessor} {ps : Processors}
      → ¬ (IsNamed name p)
      → NoneNamed name ps
      → NoneNamed name (more p ps)

-- The way down from a processor by names, with every processor on it.
pub data Walk
    : ICliCommandProcessor
      → List Text
      → List ICliCommandProcessor
      → ICliCommandProcessor
      → Type 0 where
  arrives : {p : ICliCommandProcessor} → Walk p [] (p ∷ []) p
  descends :
      {p c r : ICliCommandProcessor} {name : Text} {names : List Text}
      {path : List ICliCommandProcessor}
      → FirstNamed name (processors_of p) c
      → Walk c names path r
      → Walk p (name ∷ names) (p ∷ path) r

-- A processor may be left with names that follow: there are none, or it takes any that no child has.
abbrev pub Takes : ICliCommandProcessor → List Text → Type 0
Takes r [] = Unit
Takes r (name ∷ names) = NoneNamed name (processors_of r) × (allow_unlisted_commands r ≡ true)

-- The names lead from a processor to another, along the path.
pub record Leads (p : ICliCommandProcessor) (chain : List Text) (path : List ICliCommandProcessor)
    (r : ICliCommandProcessor) : Type 0 where
  pub taken : List Text
  pub rest : List Text
  pub split : chain ≡ taken ++ rest
  pub walk : Walk p taken path r
  pub takes : Takes r rest

pub find_child-FirstNamed :
    (name : Text) (ps : Processors) (c : ICliCommandProcessor)
    → find_child name ps ≡ some c
    → FirstNamed name ps c
unfolding find_child
find_child-FirstNamed name no_more c e = absurd (cc e)
find_child-FirstNamed name (more p ps) c e =
    elim (Bool-cases (text_eq (to_lower (command_of p)) (to_lower name))) [
      | inl h ↦
          let same : some p ≡ some c = rw h at e in
          subst (FirstNamed name (more p ps)) (cc same)
            (here ((text_eq_iff (to_lower (command_of p)) (to_lower name)).0 h))
      | inr h ↦
          later (λ k. cc (h, (text_eq_iff (to_lower (command_of p)) (to_lower name)).1 k))
            (find_child-FirstNamed name ps c (rw h at e))
    ]

pub find_child-NoneNamed :
    (name : Text) (ps : Processors) → find_child name ps ≡ none → NoneNamed name ps
unfolding find_child
find_child-NoneNamed name no_more e = none_left
find_child-NoneNamed name (more p ps) e =
    elim (Bool-cases (text_eq (to_lower (command_of p)) (to_lower name))) [
      | inl h ↦ let no : some p ≡ none = rw h at e in absurd (cc no)
      | inr h ↦
          others (λ k. cc (h, (text_eq_iff (to_lower (command_of p)) (to_lower name)).1 k))
            (find_child-NoneNamed name ps (rw h at e))
    ]

not_same :
    (name : Text) (p : ICliCommandProcessor)
    → ¬ (IsNamed name p)
    → text_eq (to_lower (command_of p)) (to_lower name) ≡ false
not_same name p n = elim (Bool-cases (text_eq (to_lower (command_of p)) (to_lower name))) [
  | inl h ↦ absurd (n ((text_eq_iff (to_lower (command_of p)) (to_lower name)).0 h))
  | inr h ↦ h
]

pub FirstNamed-find_child :
    {name : Text} {ps : Processors} {c : ICliCommandProcessor}
    → FirstNamed name ps c
    → find_child name ps ≡ some c
unfolding find_child
FirstNamed-find_child {name} {c = c} (here h) =
    rw ((text_eq_iff (to_lower (command_of c)) (to_lower name)).1 h) refl
FirstNamed-find_child {name} (later {p} n f) = rw (not_same name p n) (FirstNamed-find_child f)

pub NoneNamed-find_child :
    {name : Text} {ps : Processors} → NoneNamed name ps → find_child name ps ≡ none
unfolding find_child
NoneNamed-find_child none_left = refl
NoneNamed-find_child {name} (others {p} n f) = rw (not_same name p n) (NoneNamed-find_child f)

abbrev pub LeadsOn : ICliCommandProcessor → List Text → ICliCommandProcessor → Type 0
LeadsOn p chain r = (path : List ICliCommandProcessor) × Leads p chain path r

resolve_chain-Leads :
    (p r : ICliCommandProcessor) (chain : List Text)
    → resolve_chain p chain ≡ some r
    → LeadsOn p chain r
unfolding resolve_chain
resolve_chain-Leads p r [] e =
    subst (λ q. LeadsOn p [] q) (cc e)
      (p ∷ [], record { taken = []; rest = []; split = refl; walk = arrives; takes = tt })
resolve_chain-Leads p r (name ∷ chain) e = elim (Option-cases (find_child name (processors_of p))) [
  | inr (c, f) ↦
      let (path, w) = resolve_chain-Leads c r chain (rw (f, resolve_chain) at e) in
      (
        p ∷ path,
        record {
          taken = name ∷ w.taken;
          rest = w.rest;
          split = ap (λ v. name ∷ v) w.split;
          walk = descends (find_child-FirstNamed name (processors_of p) c f) w.walk;
          takes = w.takes;
        },
      )
  | inl f ↦ elim (Bool-cases (allow_unlisted_commands p)) [
    | inl u ↦
        let here : some p ≡ some r = rw (f, u, resolve_chain) at e in
        subst (λ q. LeadsOn p (name ∷ chain) q) (cc here)
          (
            p ∷ [],
            record {
              taken = [];
              rest = name ∷ chain;
              split = refl;
              walk = arrives;
              takes = (find_child-NoneNamed name (processors_of p) f, u);
            },
          )
    | inr u ↦ let no : none ≡ some r = rw (f, u, resolve_chain) at e in absurd (cc no)
  ]
]

resolve_chain_taken :
    {p r : ICliCommandProcessor} {taken : List Text} {path : List ICliCommandProcessor}
    → Walk p taken path r
    → (rest : List Text) → Takes r rest
    → resolve_chain p (taken ++ rest) ≡ some r
unfolding resolve_chain
resolve_chain_taken arrives [] t = refl
resolve_chain_taken arrives (name ∷ rest) (n, u) =
    rw (NoneNamed-find_child n, resolve_chain) (rw u refl)
resolve_chain_taken (descends f w) rest t =
    rw (FirstNamed-find_child f, resolve_chain) (resolve_chain_taken w rest t)

-- The registry finds a processor for a chain of sub-commands exactly when the chain leads to it: part of
-- the chain names it, step by step, each time as the first child of the name in whatever case, and what
-- follows is nothing, or something that it takes and whose head no child of it has as its name.
pub resolve_chain_iff :
    (p r : ICliCommandProcessor) (chain : List Text)
    → (resolve_chain p chain ≡ some r) ↔ LeadsOn p chain r
resolve_chain_iff p r chain = (
  resolve_chain-Leads p r chain,
  λ (path, w).
      subst (λ v. resolve_chain p v ≡ some r) (sym w.split)
        (resolve_chain_taken w.walk w.rest w.takes),
)
