-- ===== src/Commands/Execution.antt =====
-- src/services/cli-command-executor-service.ts and cli-output-limits.ts: a command is run by its
-- processor, unless a filter blocks it, and the tables of its response are cut.
use cli_server_node.Common.{
  ℕ, zero, suc, ◌<◌, ◌≤◌, Bool, true, false, not, ◌||◌, Option, none, some, List, [], ◌∷◌, ◌++◌,
  map, Text, codes, leb, ◌==◌, if◌then◌else◌, length, take, drop, any, All, Bool-cases, inl, inr,
  ◌⊎◌, ◌≡◌, refl, sym, ap, subst, ◌∙◌, arith,
}
use mathlib.Core.Option
use cli_server_node.Commands.{
  CliProcessCommand, CliTablePage, error, CliStructuredOutput, text_output, table_output,
  list_output, json_output, key_value_output, CliStructuredResponse, Outcome, returned, thrown,
  Handler, structured, plain, ICliCommandProcessor, handler_of, CliCommandRegistry, find_processor,
}

abbrev pub default_max_table_rows : ℕ
default_max_table_rows = 200

abbrev pub truncated_page : ℕ → ℕ → CliTablePage
truncated_page max_rows total = record {
  skip = 0;
  page_take = max_rows;
  total = some total;
  has_more = true;
  truncated = true;
}

-- `CliOutputLimits.apply`; no limit where `max_rows` is 0.
unfoldable pub apply : ℕ → CliStructuredOutput → CliStructuredOutput
apply max_rows (table_output headers rows none) =
    if max_rows == 0 || leb (length rows) max_rows
    then table_output headers rows none
    else table_output headers (take max_rows rows) (some (truncated_page max_rows (length rows)))
apply max_rows output = output

unfoldable pub apply_response : ℕ → CliStructuredResponse → CliStructuredResponse
apply_response max_rows response =
    if max_rows == 0
    then response
    else record response { outputs = map (apply max_rows) response.outputs }

pub record CliCommandExecutorService : Type 0 where
  pub registry : CliCommandRegistry
  -- `isAllowed` of each filter.
  pub filters : List (ICliCommandProcessor → Bool)
  pub max_table_rows : ℕ

abbrev pub new_executor : CliCommandRegistry → Option ℕ → CliCommandExecutorService
new_executor registry max_table_rows = record {
  registry = registry;
  filters = [];
  max_table_rows = Option.get_or max_table_rows default_max_table_rows;
}

unfoldable pub add_filter :
    CliCommandExecutorService → (ICliCommandProcessor → Bool) → CliCommandExecutorService
add_filter s f = record s { filters = s.filters ++ f ∷ [] }

unfoldable pub is_blocked : CliCommandExecutorService → ICliCommandProcessor → Bool
is_blocked s p = any (λ f. not (f p)) s.filters

abbrev pub failure : Text → CliStructuredResponse
failure message = record { exit_code = 1; outputs = text_output message (some error) ∷ [] }

abbrev pub unknown_command : Text → CliStructuredResponse
unknown_command command = failure (codes "Unknown command: " ++ command)

abbrev pub disabled_command : Text → CliStructuredResponse
disabled_command command =
    failure (codes "Command '" ++ command ++ codes "' is currently disabled.")

abbrev pub failed_command : Text → CliStructuredResponse
failed_command message = failure (codes "Error executing command: " ++ message)

-- What the client gets for the outcome of `handleStructuredAsync` and of `handleAsync`.
abbrev pub structured_answer : ℕ → Outcome CliStructuredResponse → CliStructuredResponse
structured_answer max_rows (returned response) = apply_response max_rows response
structured_answer max_rows (thrown message) = failed_command message

abbrev pub plain_answer : Outcome Text → CliStructuredResponse
plain_answer (returned result) = record { exit_code = 0; outputs = text_output result none ∷ [] }
plain_answer (thrown message) = failed_command message

unfoldable pub handle : ℕ → Handler → CliProcessCommand → CliStructuredResponse
handle max_rows (structured f) command = structured_answer max_rows (f command)
handle max_rows (plain f) command = plain_answer (f command)

abbrev pub run_found :
    CliCommandExecutorService
    → CliProcessCommand
    → Option ICliCommandProcessor
    → CliStructuredResponse
run_found s command none = unknown_command command.command
run_found s command (some p) =
    if is_blocked s p
    then disabled_command command.command
    else handle s.max_table_rows (handler_of p) command

unfoldable pub run : CliCommandExecutorService → CliProcessCommand → CliStructuredResponse
run s command =
    run_found s command (find_processor s.registry command.command command.chain_commands)

-- What the client gets for an output of a handler: a table that does not page and is longer than the limit
-- is cut to its first rows, with a page that says so, and all else is as it was.
abbrev pub IsCut : ℕ → CliStructuredOutput → CliStructuredOutput → Type 0
IsCut m (table_output headers rows none) after =
    ((length rows ≤ m) × (after ≡ table_output headers rows none))
    ⊎ ((kept : List (List Text)) × (dropped : List (List Text)) × (m < length rows)
        × (rows ≡ kept ++ dropped)
        × (length kept ≡ m)
        × (after
            ≡ table_output headers kept (
                some (record {
                  skip = 0;
                  page_take = m;
                  total = some (length rows);
                  has_more = true;
                  truncated = true;
                }))))
IsCut m before after = after ≡ before

-- The same of the outputs of two responses, one by one.
abbrev pub AreCut : ℕ → List CliStructuredOutput → List CliStructuredOutput → Type 0
AreCut m [] [] = Unit
AreCut m (o ∷ os) (a ∷ answers) = IsCut m o a × AreCut m os answers
AreCut m [] (a ∷ answers) = ⊥
AreCut m (o ∷ os) [] = ⊥

abbrev pub IsNoTable : CliStructuredOutput → Type 0
IsNoTable (table_output headers rows page) = ⊥
IsNoTable o = Unit

abbrev pub HasNoTable : CliStructuredResponse → Type 0
HasNoTable response = All IsNoTable response.outputs

take_split :
    {A : Type 0} (m : ℕ) (xs : List A)
    → m ≤ length xs
    → (xs ≡ take m xs ++ drop m xs) × (length (take m xs) ≡ m)
take_split zero xs h = (refl, refl)
take_split (suc m) [] h = absurd (omega (arith, h))
take_split (suc m) (x ∷ xs) h =
    let (split, exact) = take_split m xs (omega (arith, h)) in (ap (λ v. x ∷ v) split, ap suc exact)

apply-IsCut : (m : ℕ) (o : CliStructuredOutput) → 0 < m → IsCut m o (apply m o)
unfolding apply
apply-IsCut m (table_output headers rows none) h =
    elim (Bool-cases (m == 0 || leb (length rows) m)) [
      | inl e ↦ rw e (inl (ground (arith, e, h), refl))
      | inr e ↦
          let (split, exact) = take_split m rows (ground (arith, e)) in
          rw e (inr (take m rows, drop m rows, ground (arith, e), split, exact, refl))
    ]
apply-IsCut m (table_output headers rows (some page)) h = refl
apply-IsCut m (text_output t s) h = refl
apply-IsCut m (list_output items ordered) h = refl
apply-IsCut m (json_output value) h = refl
apply-IsCut m (key_value_output entries) h = refl

map-apply-AreCut : (m : ℕ) (os : List CliStructuredOutput) → 0 < m → AreCut m os (map (apply m) os)
map-apply-AreCut m [] h = tt
map-apply-AreCut m (o ∷ os) h = (apply-IsCut m o h, map-apply-AreCut m os h)

apply_response-AreCut :
    (m : ℕ) (response : CliStructuredResponse)
    → 0 < m
    → ((apply_response m response).exit_code ≡ response.exit_code)
      × AreCut m response.outputs (apply_response m response).outputs
unfolding apply_response
apply_response-AreCut m response h =
    let positive : (m == 0) ≡ false = ground arith in
    rw positive (refl, map-apply-AreCut m response.outputs h)

-- How a handler, and a command, is answered: with no table, or with what a structured handler returned,
-- each output of it cut.
abbrev HandlerAnswered : ℕ → Handler → CliProcessCommand → CliStructuredResponse → Type 0
HandlerAnswered m h command answer =
    HasNoTable answer
    ⊎ ((f : CliProcessCommand → Outcome CliStructuredResponse) × (response : CliStructuredResponse)
        × (h ≡ structured f)
        × (f command ≡ returned response)
        × (answer.exit_code ≡ response.exit_code)
        × AreCut m response.outputs answer.outputs)

abbrev pub Answered : CliCommandExecutorService → CliProcessCommand → CliStructuredResponse → Type 0
Answered s command answer =
    HasNoTable answer
    ⊎ ((p : ICliCommandProcessor) × (f : CliProcessCommand → Outcome CliStructuredResponse)
        × (response : CliStructuredResponse) × (find_processor s.registry command.command
              command.chain_commands
            ≡ some p)
        × (handler_of p ≡ structured f)
        × (All (λ allows. allows p ≡ true) s.filters)
        × (f command ≡ returned response)
        × (answer.exit_code ≡ response.exit_code)
        × AreCut s.max_table_rows response.outputs answer.outputs)

structured_answer-HandlerAnswered :
    (m : ℕ) (f : CliProcessCommand → Outcome CliStructuredResponse) (command : CliProcessCommand)
    (o : Outcome CliStructuredResponse)
    → f command ≡ o
    → 0 < m
    → HandlerAnswered m (structured f) command (structured_answer m o)
structured_answer-HandlerAnswered m f command (returned response) e h =
    let (code, cut) = apply_response-AreCut m response h in inr (f, response, refl, e, code, cut)
structured_answer-HandlerAnswered m f command (thrown message) e h = inl (tt, tt)

plain_answer-HasNoTable : (o : Outcome Text) → HasNoTable (plain_answer o)
plain_answer-HasNoTable (returned result) = (tt, tt)
plain_answer-HasNoTable (thrown message) = (tt, tt)

handle-HandlerAnswered :
    (m : ℕ) (h : Handler) (command : CliProcessCommand)
    → 0 < m
    → HandlerAnswered m h command (handle m h command)
unfolding handle
handle-HandlerAnswered m (structured f) command h =
    structured_answer-HandlerAnswered m f command (f command) refl h
handle-HandlerAnswered m (plain f) command h = inl (plain_answer-HasNoTable (f command))

-- No filter blocks the processor exactly where each allows it.
not_blocked :
    (p : ICliCommandProcessor) (fs : List (ICliCommandProcessor → Bool))
    → any (λ f. not (f p)) fs ≡ false
    → All (λ allows. allows p ≡ true) fs
not_blocked p [] e = tt
not_blocked p (f ∷ fs) e = (ground (arith, e), not_blocked p fs (ground (arith, e)))

run_found-Answered :
    (s : CliCommandExecutorService) (command : CliProcessCommand) (o : Option ICliCommandProcessor)
    → find_processor s.registry command.command command.chain_commands ≡ o
    → 0 < s.max_table_rows
    → Answered s command (run_found s command o)
unfolding is_blocked
run_found-Answered s command none e h = inl (tt, tt)
run_found-Answered s command (some p) e h = elim (Bool-cases (is_blocked s p)) [
  | inl b ↦ rw b (inl (tt, tt))
  | inr b ↦ rw b (elim (handle-HandlerAnswered s.max_table_rows (handler_of p) command h) [
    | inl plainly ↦ inl plainly
    | inr (f, response, same, got, code, cut) ↦
        inr (p, f, response, e, same, not_blocked p s.filters b, got, code, cut)
  ])
]

-- Whatever the command, where there is a limit: the response has no table, or it is what the structured
-- handler returned of the processor that the registry finds and that every filter allows, with the same
-- exit code and the same outputs, but that each table that does not page and is longer than the limit is
-- cut to as many of its first rows, with a page that says how many there were.
pub run-Answered :
    (s : CliCommandExecutorService) (command : CliProcessCommand)
    → 0 < s.max_table_rows
    → Answered s command (run s command)
unfolding run
run-Answered s command h = run_found-Answered s command _ refl h

none_blocks :
    (p : ICliCommandProcessor) (fs : List (ICliCommandProcessor → Bool))
    → All (λ allows. allows p ≡ true) fs
    → any (λ f. not (f p)) fs ≡ false
none_blocks p [] a = refl
none_blocks p (f ∷ fs) a = ground (arith, a.0, none_blocks p fs a.1)

-- Where there is a limit: if the registry finds a processor, every filter allows it and its structured
-- handler returns a response, then the client gets that response, with the same exit code and the same
-- outputs, but that each table that does not page and is longer than the limit is cut to as many of its
-- first rows, with a page that says how many there were.
pub run_returned :
    (s : CliCommandExecutorService) (command : CliProcessCommand) (p : ICliCommandProcessor)
    (f : CliProcessCommand → Outcome CliStructuredResponse) (response : CliStructuredResponse)
    → 0 < s.max_table_rows
    → find_processor s.registry command.command command.chain_commands ≡ some p
    → All (λ allows. allows p ≡ true) s.filters
    → handler_of p ≡ structured f
    → f command ≡ returned response
    → ((run s command).exit_code ≡ response.exit_code)
      × AreCut s.max_table_rows response.outputs (run s command).outputs
unfolding run is_blocked handle
run_returned s command p f response h here allowed same got =
    let m = s.max_table_rows in
    let answer : run s command ≡ apply_response m response =
      ap (run_found s command) here
      ∙ (ap (λ b. if b then disabled_command command.command else handle m (handler_of p) command)
            (none_blocks p s.filters allowed)
          ∙ (ap (λ k. handle m k command) same ∙ ap (structured_answer m) got)) in
    subst (λ r. (r.exit_code ≡ response.exit_code) × AreCut m response.outputs r.outputs)
      (sym answer) (apply_response-AreCut m response h)
