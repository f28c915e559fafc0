-- ===== src/ShellWords/RoundTrip.antt =====
-- `splitShellWords` reads back what `quoteShellWord` writes.
use cli_server_node.Common.{
  ℕ, zero, suc, Bool, true, false, not, ◌||◌, some, List, [], ◌∷◌, ◌++◌, Text, ◌≡◌, refl, ap, ◌∙◌,
  arith, is_space, ◌==◌, if◌then◌else◌, length, length-append, all, has_code, not_true, Bool-cases,
  inl, inr, append_assoc, append-nil,
}
use cli_server_node.ShellWords.{
  double_quote, single_quote, backslash, closing_quote, unescape, Split, split_char, split_round,
  split_loop, split_shell_words, is_special, is_plain_word, escape, enclose, quote_shell_word,
  is_quote,
}

abbrev state : List Text → Text → Bool → ℕ → Split
state ws cur w k = record { words = ws; current = cur; in_word = w; skip = k }

abbrev IsPlain : ℕ → Type 0
IsPlain c =
    (is_space c ≡ false)
    × ((c == double_quote) ≡ false)
    × ((c == single_quote) ≡ false)
    × ((c == backslash) ≡ false)

IsPlain-of_not_special : (c : ℕ) → is_special c ≡ false → IsPlain c
unfolding is_special
IsPlain-of_not_special c h = (ground arith, ground arith, ground arith, ground arith)

split_char_plain :
    (ws : List Text) (cur : Text) (w : Bool) (c : ℕ) (s : Text)
    → IsPlain c
    → split_char (state ws cur w 0) c s ≡ state ws (cur ++ c ∷ []) true 0
unfolding split_char
split_char_plain ws cur w c s (a, b, d, e) = ground arith

split_round_plain :
    (ws : List Text) (cur : Text) (w : Bool) (c : ℕ) (s : Text)
    → IsPlain c
    → split_round (state ws cur w 0) c s ≡ state ws (cur ++ c ∷ []) true 0
unfolding split_round
split_round_plain ws cur w c [] h = split_char_plain ws cur w c [] h
split_round_plain ws cur w c (d ∷ s) h = rw h.3 (split_char_plain ws cur w c (d ∷ s) h)

split_loop_plain :
    (ws : List Text) (cur s : Text)
    → all (λ c. not (is_special c)) s ≡ true
    → split_loop (state ws cur true 0) s ≡ ws ++ (cur ++ s) ∷ []
unfolding split_loop
split_loop_plain ws cur [] h = rw append-nil refl
split_loop_plain ws cur (c ∷ s) h =
    let plain = IsPlain-of_not_special c (ground arith) in
    rw (split_round_plain ws cur true c s plain)
      (split_loop_plain ws (cur ++ c ∷ []) s (ground arith) ∙ rw append_assoc refl)

-- A quoted part adds its content to the current word, and the loop skips it.
split_char_quoted :
    (ws : List Text) (cur : Text) (w : Bool) (q : ℕ) (s inner : Text)
    → is_quote q ≡ true
    → closing_quote q false s ≡ some inner
    → split_char (state ws cur w 0) q s
      ≡ state ws
          (cur ++ (if q == double_quote then unescape false inner else inner))
          true
          (suc (length inner))
unfolding split_char
split_char_quoted ws cur w q s inner h e = ground arith

split_round_quoted :
    (ws : List Text) (cur : Text) (w : Bool) (q : ℕ) (s : Text)
    → is_quote q ≡ true
    → split_round (state ws cur w 0) q s ≡ split_char (state ws cur w 0) q s
unfolding split_round
split_round_quoted ws cur w q [] h = refl
split_round_quoted ws cur w q (d ∷ s) h = rw (not_true (q == backslash) (λ e. ground arith)) refl

split_loop-drop :
    (ws : List Text) (cur s : Text) (k : ℕ)
    → k ≡ length s
    → split_loop (state ws cur true k) s ≡ ws ++ cur ∷ []
unfolding split_loop
split_loop-drop ws cur [] zero h = refl
split_loop-drop ws cur [] (suc k) h = refl
split_loop-drop ws cur (c ∷ s) zero h = absurd (omega arith)
split_loop-drop ws cur (c ∷ s) (suc k) h = split_loop-drop ws cur s k (omega arith)

split_shell_words-enclose :
    (q : ℕ) (s : Text)
    → is_quote q ≡ true
    → closing_quote q false (s ++ q ∷ []) ≡ some s
    → split_shell_words (enclose q s) ≡ (if q == double_quote then unescape false s else s) ∷ []
unfolding split_shell_words split_loop
split_shell_words-enclose q s h e =
    ap (λ st. split_loop st (s ++ q ∷ []))
      (split_round_quoted [] [] false q (s ++ q ∷ []) h
        ∙ split_char_quoted [] [] false q (s ++ q ∷ []) s h e)
    ∙ split_loop-drop [] _ (s ++ q ∷ []) (suc (length s)) (omega (arith, length-append s (q ∷ [])))

abbrev is_escaped : ℕ → Bool
is_escaped c = c == backslash || c == double_quote

closing_quote-escape :
    (s : Text)
    → closing_quote double_quote false (escape is_escaped s ++ double_quote ∷ [])
      ≡ some (escape is_escaped s)
unfolding closing_quote escape
closing_quote-escape [] = refl
closing_quote-escape (c ∷ s) = ground (arith, closing_quote-escape s)

unescape-escape : (s : Text) → unescape false (escape is_escaped s) ≡ s
unfolding unescape escape
unescape-escape [] = refl
unescape-escape (c ∷ s) = ground (arith, unescape-escape s)

closing_quote_single :
    (s : Text)
    → has_code single_quote s ≡ false
    → closing_quote single_quote false (s ++ single_quote ∷ []) ≡ some s
unfolding closing_quote
closing_quote_single [] h = refl
closing_quote_single (c ∷ s) h = ground (arith, closing_quote_single s)

escape-backslash :
    (s : Text)
    → has_code double_quote s ≡ false
    → escape (λ c. c == backslash) s ≡ escape is_escaped s
unfolding escape
escape-backslash [] h = refl
escape-backslash (c ∷ s) h = ground (arith, escape-backslash s)

split_shell_words_plain : (s : Text) → is_plain_word s ≡ true → split_shell_words s ≡ s ∷ []
unfolding split_shell_words split_loop is_plain_word
split_shell_words_plain [] h = cc
split_shell_words_plain (c ∷ s) h =
    ap (λ st. split_loop st s)
      (split_round_plain [] [] false c s (IsPlain-of_not_special c (ground arith)))
    ∙ split_loop_plain [] (c ∷ []) s (ground arith)

split_shell_words_escaped :
    (s : Text) → split_shell_words (enclose double_quote (escape is_escaped s)) ≡ s ∷ []
split_shell_words_escaped s =
    split_shell_words-enclose double_quote (escape is_escaped s) refl (closing_quote-escape s)
    ∙ ap (λ t. t ∷ []) (unescape-escape s)

-- Quoting a word and splitting the result gives back that word alone.
pub split_shell_words-quote_shell_word :
    (value : Text) → split_shell_words (quote_shell_word value) ≡ value ∷ []
unfolding quote_shell_word
split_shell_words-quote_shell_word value = elim (Bool-cases (is_plain_word value)) [
  | inl plain ↦ rw plain (split_shell_words_plain value plain)
  | inr quoted ↦ elim (Bool-cases (has_code double_quote value)) [
    | inr no_double ↦
        rw (quoted, no_double, escape-backslash value no_double) (split_shell_words_escaped value)
    | inl has_double ↦ elim (Bool-cases (has_code single_quote value)) [
      | inr no_single ↦
          rw (quoted, has_double, no_single)
            (split_shell_words-enclose single_quote value refl
              (closing_quote_single value no_single))
      | inl has_single ↦ rw (quoted, has_double, has_single) (split_shell_words_escaped value)
    ]
  ]
]
