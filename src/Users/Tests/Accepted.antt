-- ===== src/Users/Tests/Accepted.antt =====
-- The theorem on signing in and authenticating, at a user with a password.
use cli_server_node.Common.{none, some, [], ◌∷◌, codes, ◌≡◌, refl}
use cli_server_node.Lockout
use cli_server_node.Users.{SessionMetadata, UsersState}
use cli_server_node.Users.Actions.{ok}
use cli_server_node.Users.Passwords
use cli_server_node.Users.Stores
use cli_server_node.Users.Access
use cli_server_node.Users.Sessions
use cli_server_node.Users.Sessions.{LoginResult, login}
use cli_server_node.Users.Tokens.{authenticate_token}
use cli_server_node.Users.SignedIn.Accepted.{Admits, at_time, authenticate_token-login}
use cli_server_node.Users.Tests.{bob, directory, directory_IsKeyed, env_at, operations}

abbrev nowhere : SessionMetadata
nowhere = record { remote_address = none; user_agent = none }

-- The directory where bob has a password.
abbrev with_password : UsersState
with_password = (Access.set_password (codes "b") (codes "secret12") (env_at 100) directory).1

abbrev bob_signed_in : LoginResult
bob_signed_in = record {
  token = codes "random";
  session = record {
    id = codes "new";
    token_hash = codes "random";
    user_id = codes "b";
    created_at = 200;
    last_activity = 200;
    metadata = nowhere;
  };
  user = record bob { last_login_at = some 200; updated_at = 200 };
  permissions = codes "commands:execute" ∷ [];
  expires_at = 1800200;
}

-- Passwords and sign-ins compute.
sign_ins : Unit {0}
unfolding operations Access.set_password Access.find_user Access.verify_password_with_lockout
    Access.verify_password Passwords.hash_password Passwords.verify_password_hash
    Passwords.verify_parts Stores.store_set_password Stores.get_credentials Stores.create_session
    Sessions.login Sessions.open_session Sessions.open_unless_disabled Lockout.reserve_attempt
    Lockout.reserve_in Lockout.open_entry Passwords.leading_digits
sign_ins = tt

signed_in_test :
    (login (codes "BOB") (codes "secret12") nowhere (env_at 200) with_password).0 ≡ ok bob_signed_in
unfolding sign_ins
signed_in_test = refl

authenticate_token-login_example : Admits bob_signed_in.user bob_signed_in.permissions (
    authenticate_token
      (codes "random")
      (at_time 1000 (env_at 200))
      (login (codes "BOB") (codes "secret12") nowhere (env_at 200) with_password).1)
unfolding sign_ins
authenticate_token-login_example =
    authenticate_token-login (codes "BOB") (codes "secret12") nowhere (env_at 200) with_password
      bob_signed_in 1000 directory_IsKeyed signed_in_test refl refl
