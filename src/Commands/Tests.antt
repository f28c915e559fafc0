-- ===== src/Commands/Tests.antt =====
-- Commands found, guarded, run and counted, and instances of the theorems.
use cli_server_node.Common.{
  ℕ, Bool, true, false, not, Option, none, some, List, [], ◌∷◌, Text, codes, text_eq, to_lower,
  lower_code, is_space, trim, trim_start, trim_end, map_get, map_set, ◌≡◌, ◌↔◌, refl, arith,
}
use cli_server_node.Commands.{
  CliProcessCommand, table_output, CliStructuredResponse, returned, structured, plain,
  ICliCommandProcessor, processor, no_more, more, command_of, CliCommandRegistry, register,
  register_all, find_child, resolve_chain, find_processor,
}
use cli_server_node.Users.Json.{Json, number, string, array, item, no_items}
use cli_server_node.Commands.Values.{
  found, type_error, characters, resolve_items, follow, find_for_body,
}
use cli_server_node.Commands.Ways.{here, arrives, descends, Leads, LeadsOn, resolve_chain_iff}
use cli_server_node.Commands.Gate.{
  chain_permissions, processor_permissions, ValuesLead, permissions_along,
  processor_permissions_complete, string_chain_gap,
}
use cli_server_node.Commands.Execution.{
  CliCommandExecutorService, new_executor, add_filter, is_blocked, handle, apply, apply_response,
  run, AreCut, Answered, run-Answered, run_returned, disabled_command,
}
use cli_server_node.Commands.Usage.{
  key_of, first_word, record_execution, execute, Call, record_all, executions_of, failures_of,
  calls_of, failed_calls_of, counters_exact,
}

runs : Unit {0}
unfolding map_get map_set text_eq lower_code is_space trim trim_start trim_end register register_all
    find_child resolve_chain find_processor characters resolve_items follow find_for_body
    chain_permissions processor_permissions add_filter is_blocked handle apply apply_response run
    key_of first_word record_execution execute record_all calls_of failed_calls_of
runs = tt

abbrev get_user : ICliCommandProcessor
get_user =
    processor (codes "get") true (codes "users:read" ∷ []) (plain (λ c. returned (codes "found")))
      no_more

abbrev three_rows : CliStructuredResponse
three_rows = record {
  exit_code = 0;
  outputs =
      table_output (codes "name" ∷ []) ((codes "a" ∷ []) ∷ (codes "b" ∷ []) ∷ (codes "c" ∷ []) ∷ [])
        none
      ∷ [];
}

abbrev users : ICliCommandProcessor
users =
    processor (codes "Users") false (codes "users:list" ∷ [])
      (structured (λ c. returned three_rows)) (more get_user no_more)

abbrev command : List Text → CliProcessCommand
command chain = record {
  command = codes "users";
  chain_commands = chain;
  raw_command = codes "users";
  value = none;
  positionals = none;
  args = [];
}

abbrev service : CliCommandExecutorService
service = new_executor (register_all [] (users ∷ [])) (some 2)

abbrev to_ann : List Text
to_ann = codes "GET" ∷ codes "ann" ∷ []

abbrev body_chain : Option Json
body_chain = some (array (item (string (codes "GET")) (item (string (codes "ann")) no_items)))

abbrev registry : CliCommandRegistry
registry = register_all [] (users ∷ [])

permissions_test :
    processor_permissions registry (some (string (codes "users"))) body_chain
    ≡ codes "users:list" ∷ codes "users:read" ∷ []
unfolding runs
permissions_test = refl

-- A number in the chain: the gate stops at it, the registry throws.
number_test :
    (processor_permissions registry
        (some (string (codes "users")))
        (some (array (item (number (codes "1")) no_items)))
      ≡ codes "users:list" ∷ [])
    × (find_for_body registry
          (some (string (codes "users")))
          (some (array (item (number (codes "1")) no_items)))
        ≡ type_error)
unfolding runs
number_test = (refl, refl)

unknown_test :
    find_processor (register_all [] (users ∷ [])) (codes "users") (codes "ann" ∷ []) ≡ none
unfolding runs
unknown_test = refl

blocked_test :
    run (add_filter service (λ p. not (text_eq (command_of p) (codes "Users")))) (command [])
    ≡ disabled_command (codes "users")
unfolding runs
blocked_test = refl

processor_permissions_complete_example :
    (name : Text) × (root : ICliCommandProcessor) × (path : List ICliCommandProcessor) × (some
        (string (codes "users"))
      ≡ some (string name))
    × (map_get (to_lower name) registry ≡ some root)
    × ValuesLead root body_chain path get_user
    × (processor_permissions registry (some (string (codes "users"))) body_chain
        ≡ permissions_along path)
unfolding runs
processor_permissions_complete_example =
    processor_permissions_complete (users ∷ []) (some (string (codes "users"))) body_chain get_user
      refl refl

-- A processor with a child of one letter.
abbrev short : ICliCommandProcessor
short = processor (codes "x") false [] (plain (λ c. returned (codes ""))) (
    more
      (processor (codes "g") false (codes "users:delete" ∷ []) (plain (λ c. returned (codes "")))
        no_more)
      no_more)

abbrev deleter : ICliCommandProcessor
deleter =
    processor (codes "g") false (codes "users:delete" ∷ []) (plain (λ c. returned (codes "")))
      no_more

short-Leads : Leads short (characters (codes "g")) (short ∷ deleter ∷ []) deleter
unfolding runs
short-Leads = record {
  taken = codes "g" ∷ [];
  rest = [];
  split = refl;
  walk = descends (here refl) arrives;
  takes = tt;
}

string_chain_gap_example :
    (find_for_body
        (register_all [] (short ∷ []))
        (some (string (codes "x")))
        (some (string (codes "g")))
      ≡ found deleter)
    × (processor_permissions
          (register_all [] (short ∷ []))
          (some (string (codes "x")))
          (some (string (codes "g")))
        ≡ [])
unfolding runs
string_chain_gap_example =
    string_chain_gap (short ∷ []) (codes "x") (codes "g") short deleter (short ∷ deleter ∷ []) refl
      refl short-Leads

resolve_chain_iff_example :
    (resolve_chain users to_ann ≡ some get_user) ↔ LeadsOn users to_ann get_user
resolve_chain_iff_example = resolve_chain_iff users get_user to_ann

run-Answered_example : Answered service (command []) (run service (command []))
run-Answered_example = run-Answered service (command []) (omega arith)

run_returned_example :
    ((run service (command [])).exit_code ≡ 0)
    × AreCut 2 three_rows.outputs (run service (command [])).outputs
unfolding runs
run_returned_example =
    run_returned service (command []) users (λ c. returned three_rows) three_rows (omega arith) refl
      tt refl refl

abbrev call : Bool → ℕ → Call
call failed at = record {
  command = codes " Users list";
  known = true;
  duration = 3;
  failed = failed;
  at = at;
}

counters_exact_example :
    (executions_of (codes "users") (record_all [] (call true 1 ∷ call false 2 ∷ []))
      ≡ calls_of (codes "users") (call true 1 ∷ call false 2 ∷ []))
    × (failures_of (codes "users") (record_all [] (call true 1 ∷ call false 2 ∷ []))
        ≡ failed_calls_of (codes "users") (call true 1 ∷ call false 2 ∷ []))
counters_exact_example = counters_exact (call true 1 ∷ call false 2 ∷ []) (codes "users") refl

failures_test : failures_of (codes "users") (record_all [] (call true 1 ∷ call false 2 ∷ [])) ≡ 1
unfolding runs
failures_test = refl
