-- ===== src/Jobs/Interval.antt =====
-- plugins/jobs/interval-parser.ts: `30s`, `5m`, `1h`, `1d`.
use cli_server_node.Common.{
  ℕ, ◌+◌, ◌-◌, ◌*◌, Bool, true, false, not, ◌&&◌, Option, none, some, [], ◌∷◌, Text, ◌==◌, leb,
  if◌then◌else◌, is_nil,
}

abbrev pub is_digit : ℕ → Bool
is_digit c = leb b'0' c && leb c b'9'

unfoldable pub unit_to_ms : ℕ → Option ℕ
unit_to_ms c =
    if c == b's'
    then some 1000
    else if c == b'm'
    then some 60000
    else if c == b'h'
    then some 3600000
    else if c == b'd'
    then some 86400000
    else none

-- The match of `/^(\d+)(s|m|h|d)$/`, with the value of the digits read so far; `seen` says that there
-- are some. `parseInt` of the digits is taken exactly.
unfoldable pub parse_from : ℕ → Bool → Text → Option ℕ
parse_from value seen [] = none
parse_from value seen (c ∷ s) =
    let rest = parse_from (value * 10 + (c - b'0')) true s in
    if is_digit c
    then rest
    else if seen && is_nil s && not (value == 0)
    then elim (unit_to_ms c) [ none ↦ none | some ms ↦ some (value * ms) ]
    else none

unfoldable pub parse_interval : Text → Option ℕ
parse_interval s = parse_from 0 false s
