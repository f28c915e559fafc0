-- ===== src/ShellWords/Tests.antt =====
-- Runs of the shell-word functions, and instances of their theorems.
use cli_server_node.Common.{[], ◌∷◌, codes, is_space, ◌≡◌, refl}
use cli_server_node.ShellWords.RoundTrip.{split_shell_words-quote_shell_word}
use cli_server_node.ShellWords.{
  closing_quote, unescape, split_shell_words, quote_shell_word, join_shell_words,
}

split_tests :
    (split_shell_words (codes "a \"b c\"  d\\ e") ≡ codes "a" ∷ codes "b c" ∷ codes "d e" ∷ [])
    × (split_shell_words (codes "it's \"x\\\"y\"") ≡ codes "it's" ∷ codes "x\"y" ∷ [])
    × (split_shell_words (quote_shell_word (codes "a\"b'c\\")) ≡ codes "a\"b'c\\" ∷ [])
    × (join_shell_words (codes "\"a\" \"b\"") ≡ codes "a b")
unfolding split_shell_words quote_shell_word join_shell_words closing_quote unescape is_space
split_tests = (refl, refl, refl, refl)

split_shell_words-quote_shell_word_example :
    split_shell_words (quote_shell_word (codes "a\"b'c\\")) ≡ codes "a\"b'c\\" ∷ []
split_shell_words-quote_shell_word_example = split_shell_words-quote_shell_word (codes "a\"b'c\\")
