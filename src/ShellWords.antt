-- ===== src/ShellWords.antt =====
-- packages/abstractions/src/shell-words.ts: shell words split and quoted. A string is a list of code
-- units; an index that jumps ahead in the source is a number of code units to skip here.
pub mod RoundTrip
mod Tests
use cli_server_node.Common.{
  ℕ, zero, suc, ◌-◌, Bool, true, false, not, ◌&&◌, ◌||◌, Option, none, some, List, [], ◌∷◌, ◌++◌,
  Text, codes, is_space, ◌==◌, if◌then◌else◌, length, all, has_code, join,
}
use mathlib.Core.Option

abbrev pub double_quote : ℕ
double_quote = b'"'

abbrev pub single_quote : ℕ
single_quote = 39

abbrev pub backslash : ℕ
backslash = 92

-- `text[i + 1] === '"' || text[i + 1] === '\\'`, of the text from `i + 1`.
abbrev pub next_escapes : Text → Bool
next_escapes [] = false
next_escapes (d ∷ s) = d == double_quote || d == backslash

-- The text up to the quote that closes, of the text behind the opening `quote`; `skipped` is set
-- where the loop has passed over an escaped code unit by its own `i++`.
unfoldable pub closing_quote : ℕ → Bool → Text → Option Text
closing_quote quote skipped [] = none
closing_quote quote true (c ∷ s) = Option.map (λ t. c ∷ t) (closing_quote quote false s)
closing_quote quote false (c ∷ s) =
    let escape = quote == double_quote && c == backslash && next_escapes s in
    let rest = Option.map (λ t. c ∷ t) (closing_quote quote escape s) in
    if escape then rest else if c == quote then some [] else rest

-- `inner.replace(/\\(["\\])/g, '$1')`
unfoldable pub unescape : Bool → Text → Text
unescape kept [] = []
unescape true (c ∷ s) = c ∷ unescape false s
unescape false (c ∷ s) =
    let escape = c == backslash && next_escapes s in
    let rest = unescape escape s in if escape then rest else c ∷ rest

-- The variables of the loop of `splitShellWords`, and how far `i` runs ahead.
pub record Split : Type 0 where
  pub words : List Text
  pub current : Text
  pub in_word : Bool
  pub skip : ℕ

abbrev pub is_quote : ℕ → Bool
is_quote ch = ch == double_quote || ch == single_quote

-- What follows the test for an escape in a round of the loop.
unfoldable pub split_char : Split → ℕ → Text → Split
split_char st ch s = elim (if is_quote ch then closing_quote ch false s else none) [
  | some inner ↦ record st {
    current = st.current ++ (if ch == double_quote then unescape false inner else inner);
    in_word = true;
    skip = suc (length inner);
  }
  | none ↦
      if is_space ch
      then record st {
        words = if st.in_word then st.words ++ st.current ∷ [] else st.words;
        current = [];
        in_word = false;
      }
      else record st { current = st.current ++ ch ∷ []; in_word = true }
]

-- A round at `ch`, with the text behind it.
unfoldable pub split_round : Split → ℕ → Text → Split
unfolding split_char
split_round st ch [] = split_char st ch []
split_round st ch (d ∷ s) =
    if ch == backslash
    then record st { current = st.current ++ d ∷ []; in_word = true; skip = 1 }
    else split_char st ch (d ∷ s)

abbrev pub split_step : ℕ → Split → ℕ → Text → Split
split_step (suc k) st ch s = record st { skip = k }
split_step zero st ch s = split_round st ch s

unfoldable pub split_loop : Split → Text → List Text
unfolding split_round
split_loop st [] = if st.in_word then st.words ++ st.current ∷ [] else st.words
split_loop st (ch ∷ s) = split_loop (split_step st.skip st ch s) s

unfoldable pub split_shell_words : Text → List Text
unfolding split_loop
split_shell_words text =
    split_loop (record { words = []; current = []; in_word = false; skip = 0 }) text

unfoldable pub join_shell_words : Text → Text
unfolding split_shell_words join
join_shell_words text = join (codes " ") (split_shell_words text)

-- `[\s"'\\=|&;<>()$`*?#~]`
unfoldable pub is_special : ℕ → Bool
unfolding is_space
is_special c =
    is_space c || has_code c (double_quote ∷ single_quote ∷ backslash ∷ codes "=|&;<>()$`*?#~")

unfoldable pub is_plain_word : Text → Bool
unfolding is_special
is_plain_word [] = false
is_plain_word (c ∷ s) = not (is_special c) && not (c == b'-') && all (λ d. not (is_special d)) s

-- `value.replace(/[…]/g, '\\$&')`
unfoldable pub escape : (ℕ → Bool) → Text → Text
escape p [] = []
escape p (c ∷ s) = if p c then backslash ∷ c ∷ escape p s else c ∷ escape p s

abbrev pub enclose : ℕ → Text → Text
enclose quote s = quote ∷ s ++ quote ∷ []

unfoldable pub quote_shell_word : Text → Text
unfolding is_plain_word escape
quote_shell_word value =
    if is_plain_word value
    then value
    else if not (has_code double_quote value)
    then enclose double_quote (escape (λ c. c == backslash) value)
    else if not (has_code single_quote value)
    then enclose single_quote value
    else enclose double_quote (escape (λ c. c == backslash || c == double_quote) value)

-- The command's fields that the functions below read.
pub record CommandText : Type 0 where
  pub positionals : Option (List Text)
  pub value : Option Text

unfoldable pub get_positionals : CommandText → List Text
unfolding split_shell_words
get_positionals command = elim command.positionals [
  | some ps ↦ ps
  | none ↦ split_shell_words (Option.get_or command.value [])
]

unfoldable pub get_positional_text : CommandText → Text
unfolding get_positionals join
get_positional_text command = join (codes " ") (get_positionals command)
