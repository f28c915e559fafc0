-- ===== src/Users/Secrets.antt =====
-- A password that was set is the one that is accepted.
use cli_server_node.Common.{
  ℕ, suc, true, false, not, Option, [], ◌∷◌, ◌++◌, Text, codes, append-nil, append_assoc,
  map_get-map_set_at, text_eq, text_eq_refl, split_on, split_on_from, starts_with, all, is_nil,
  length, ◌==◌, ◌≡◌, refl, sym, ap, ◌∙◌, arith, trim_start, is_space,
}
use cli_server_node.Users.{UsersState, Env}
use cli_server_node.Users.Passwords.{
  Crypto, Bytes, hash_password, verify_parts, verify_password_hash, positive_int, leading_digits,
  pbkdf2_iterations, key_bytes,
}
use cli_server_node.Users.Actions.{ok, ◌>>=◌}
use cli_server_node.Users.Stores.{store_set_password, get_credentials}
use cli_server_node.Users.Access.{set_password, verify_password}

-- What is relied on of node's crypto and Buffer: base64 is read back, it has no dollar sign, and a key
-- has the length asked for.
pub record IsReliable (c : Crypto) : Type 0 where
  pub reads_back : (b : Bytes) → c.from_base64 (c.base64 b) ≡ b
  pub no_dollar : (b : Bytes) → all (λ x. not (x == b'$')) (c.base64 b) ≡ true
  pub key_length : (p : Text) (salt : Bytes) (i n : ℕ) → length (c.pbkdf2 p salt i n) ≡ n

split_last :
    (sep : ℕ) (cur a : Text)
    → all (λ x. not (x == sep)) a ≡ true
    → split_on_from sep cur a ≡ (cur ++ a) ∷ []
unfolding split_on_from
split_last sep cur [] h = ap (λ t. t ∷ []) (sym (append-nil cur))
split_last sep cur (x ∷ a) h =
    let other : (x == sep) ≡ false = ground arith in
    let rest : all (λ x. not (x == sep)) a ≡ true = ground arith in
    rw other
      (split_last sep (cur ++ x ∷ []) a rest ∙ ap (λ t. t ∷ []) (append_assoc cur (x ∷ []) a))

split_first :
    (sep : ℕ) (cur a rest : Text)
    → all (λ x. not (x == sep)) a ≡ true
    → split_on_from sep cur (a ++ sep ∷ rest) ≡ (cur ++ a) ∷ split_on_from sep [] rest
unfolding split_on_from
split_first sep cur [] rest h =
    let same : (sep == sep) ≡ true = ground arith in
    rw same (ap (λ t. t ∷ split_on_from sep [] rest) (sym (append-nil cur)))
split_first sep cur (x ∷ a) rest h =
    let other : (x == sep) ≡ false = ground arith in
    let clean : all (λ x. not (x == sep)) a ≡ true = ground arith in
    rw other (
      split_first sep (cur ++ x ∷ []) a rest clean
      ∙ ap (λ t. t ∷ split_on_from sep [] rest) (append_assoc cur (x ∷ []) a))

module _ (c : Crypto) (w : IsReliable c) where
  -- The parts of an encoded password.
  parts_of_hash :
      (salt : Bytes) (p : Text)
      → split_on b'$' (hash_password c salt p).hash
        ≡ codes "pbkdf2"
          ∷ codes "100000"
          ∷ c.base64 salt
          ∷ c.base64 (c.pbkdf2 p salt pbkdf2_iterations key_bytes)
          ∷ []
  unfolding split_on hash_password
  parts_of_hash salt p =
      let last = c.base64 (c.pbkdf2 p salt pbkdf2_iterations key_bytes) in
      let salted = c.base64 salt ++ (codes "$" ++ last) in
      split_first b'$' [] (codes "pbkdf2") (codes "100000$" ++ salted) refl
      ∙ ap (λ ps. codes "pbkdf2" ∷ ps)
          (split_first b'$' [] (codes "100000") salted refl
            ∙ ap (λ ps. codes "100000" ∷ ps)
                (split_first b'$' [] (c.base64 salt) last (w.no_dollar salt)
                  ∙ ap (λ ps. c.base64 salt ∷ ps) (split_last b'$' [] last (w.no_dollar _))))

  not_nil : (b : Bytes) (n : ℕ) → length b ≡ suc n → is_nil b ≡ false
  not_nil [] n h = absurd (omega (arith, h))
  not_nil (x ∷ b) n h = refl

  -- The parts of an encoded password are compared by the key that the password gives.
  verify_parts_lem :
      (salt : Bytes) (key : Bytes) (q : Text)
      → length key ≡ 32
      → verify_parts c q (codes "pbkdf2" ∷ codes "100000" ∷ c.base64 salt ∷ c.base64 key ∷ [])
        ≡ text_eq (c.pbkdf2 q salt pbkdf2_iterations key_bytes) key
  unfolding verify_parts positive_int leading_digits trim_start is_space
  verify_parts_lem salt key q n = rw (w.reads_back key, w.reads_back salt, not_nil key 31 n, n) refl

  -- A password is checked against a hash by the key that it gives with the salt.
  verify-hash :
      (salt : Bytes) (p q : Text) (legacy : Option Text)
      → verify_password_hash c q (hash_password c salt p).hash legacy
        ≡ text_eq
            (c.pbkdf2 q salt pbkdf2_iterations key_bytes)
            (c.pbkdf2 p salt pbkdf2_iterations key_bytes)
  unfolding verify_password_hash starts_with hash_password
  verify-hash salt p q legacy =
      ap (verify_parts c q) (parts_of_hash salt p)
      ∙ verify_parts_lem salt (c.pbkdf2 p salt pbkdf2_iterations key_bytes) q (w.key_length _ _ _ _)

-- With base64 and PBKDF2 as documented: after a user's password is set, the check of a password is the
-- comparison of the keys that both give with the new salt; so the password itself is accepted, and no
-- other but one that gives the same key.
pub verify_password-set_password :
    (id p q : Text) (env env' : Env) (s : UsersState)
    → env'.crypto ≡ env.crypto
    → IsReliable env.crypto
    → (verify_password id q env' (set_password id p env s).1).0
      ≡ ok (
          text_eq
            (env.crypto.pbkdf2 q env.random pbkdf2_iterations key_bytes)
            (env.crypto.pbkdf2 p env.random pbkdf2_iterations key_bytes))
unfolding verify_password set_password store_set_password get_credentials ◌>>=◌
verify_password-set_password id p q env env' s same w =
    rw (map_get-map_set_at id id s.credentials _ (text_eq_refl id), same)
      (ap ok (verify-hash env.crypto w env.random p q _))
