-- ===== src/Users/Decimal.antt =====
-- The decimal text of a natural number, as a template literal writes it.
use cli_server_node.Common.{ℕ, zero, suc, ◌+◌, ◌/◌, ◌%◌, [], ◌∷◌, Text, ltb, if◌then◌else◌}

-- The digits of a number before those that follow; fuel of the number itself is enough, since a
-- division by ten lowers it.
unfoldable pub decimal_from : ℕ → ℕ → Text → Text
decimal_from zero n after = (b'0' + n % 10) ∷ after
decimal_from (suc fuel) n after =
    let rest = decimal_from fuel (n / 10) ((b'0' + n % 10) ∷ after) in
    if ltb n 10 then (b'0' + n % 10) ∷ after else rest

unfoldable pub decimal : ℕ → Text
unfolding decimal_from
decimal n = decimal_from n n []
