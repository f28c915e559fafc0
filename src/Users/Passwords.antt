-- ===== src/Users/Passwords.antt =====
-- plugins/users/services/password-hasher.ts: the encoding of a password and its check. The functions of
-- node's crypto and Buffer are parameters; the queue of computations is not modelled.
use cli_server_node.Common.{
  ℕ, ◌+◌, ◌*◌, ◌-◌, Bool, false, ◌&&◌, Option, none, some, List, [], ◌∷◌, ◌++◌, Text, codes,
  text_eq, starts_with, split_on, leb, ◌==◌, if◌then◌else◌, is_nil, length, trim_start,
}

abbrev pub Bytes : Type 0
Bytes = List ℕ

-- `pbkdf2` (sha256) of a password, a salt, an iteration count and a key length, the digest `sha256` of a
-- text, and Buffer's encodings.
pub record Crypto : Type 0 where
  pub pbkdf2 : Text → Bytes → ℕ → ℕ → Bytes
  pub sha256 : Text → Bytes
  pub base64 : Bytes → Text
  pub base64url : Bytes → Text
  pub from_base64 : Text → Bytes
  pub hex : Bytes → Text
  pub from_hex : Text → Bytes

abbrev pub pbkdf2_iterations : ℕ
pbkdf2_iterations = 100000

abbrev pub key_bytes : ℕ
key_bytes = 32

pub record EncodedPassword : Type 0 where
  pub hash : Text
  pub salt : Text

abbrev dollar : Text
dollar = codes "$"

-- `hashPassword`, with the salt that it draws.
unfoldable pub hash_password : Crypto → Bytes → Text → EncodedPassword
hash_password c salt password =
    let key = c.pbkdf2 password salt pbkdf2_iterations key_bytes in
    let salt_b64 = c.base64 salt in
    record {
      hash = codes "pbkdf2$100000$" ++ (salt_b64 ++ (codes "$" ++ c.base64 key));
      salt = salt_b64;
    }

-- The digits that `parseInt` reads, after one was read.
unfoldable pub leading_digits : ℕ → Text → ℕ
leading_digits n [] = n
leading_digits n (c ∷ s) =
    let rest = leading_digits (n * 10 + (c - b'0')) s in
    if leb b'0' c && leb c b'9' then rest else n

-- `parseInt(s, 10)`, where 0 stands for NaN and for what is not positive.
unfoldable pub positive_int : Text → ℕ
positive_int s = elim (trim_start s) [
  | [] ↦ 0
  | c ∷ r ↦ leading_digits 0 (if c == b'+' then r else c ∷ r)
]

-- The constant-time comparison of buffers of one length.
abbrev bytes_eq : Bytes → Bytes → Bool
bytes_eq = text_eq

-- The parts of an encoded hash of the current format.
unfoldable pub verify_parts : Crypto → Text → List Text → Bool
unfolding positive_int
verify_parts c password (scheme ∷ rounds ∷ salt_b64 ∷ hash_b64 ∷ []) =
    let iterations = positive_int rounds in
    let expected = c.from_base64 hash_b64 in
    if iterations == 0
    then false
    else if is_nil expected
    then false
    else bytes_eq (c.pbkdf2 password (c.from_base64 salt_b64) iterations (length expected)) expected
verify_parts c password _ = false

unfoldable pub verify_password_hash : Crypto → Text → Text → Option Text → Bool
unfolding verify_parts
verify_password_hash c password encoded legacy_salt =
    if starts_with encoded (codes "pbkdf2$")
    then verify_parts c password (split_on b'$' encoded)
    else elim legacy_salt [
      | none ↦ false
      | some salt ↦ bytes_eq (c.sha256 (salt ++ password)) (c.from_hex encoded)
    ]
