-- ===== src/Users.antt =====
-- plugins/users: the models (models.ts, errors.ts) and the state of the authentication service and of
-- the directory with the in-memory stores. An operation is an action: it reads the environment of its
-- call, and changes the state also where it throws. The clock and random values are in the environment.
pub mod Json
pub mod Passwords
pub mod Actions
pub mod Stores
pub mod Validation
pub mod Decimal
pub mod Access
pub mod Sessions
pub mod Tokens
pub mod Tickets
pub mod Directory
pub mod Groups
pub mod Requests
pub mod Laws
pub mod Reading
pub mod Outside
pub mod Changes
pub mod Admins
pub mod Apart
pub mod Stored
pub mod Managing
pub mod Membership
pub mod Leaving
pub mod SigningIn
pub mod History
pub mod Authenticated
pub mod Erased
pub mod Secrets
pub mod SingleUse
pub mod Steps
pub mod Returning
pub mod Refusing
pub mod Refusals
pub mod Granted
pub mod Entitled
pub mod Escalation
pub mod SignedIn
mod Tests
use cli_server_node.Common.{ℕ, Bool, Option, List, Text, Map}
use cli_server_node.Audit.{AuditEntry}
use cli_server_node.Lockout.{LockoutState}
use cli_server_node.Users.Json.{Fields}
use cli_server_node.Users.Passwords.{Crypto, Bytes}

pub record User : Type 0 where
  pub id : Text
  pub name : Text
  pub email : Text
  pub groups : List Text
  pub disabled : Bool
  pub must_change_password : Bool
  pub home_dir : Option Text
  pub user_data : Option Fields
  pub last_login_at : Option ℕ
  pub created_at : ℕ
  pub updated_at : ℕ

pub record CreateUserDto : Type 0 where
  pub name : Text
  pub email : Text
  pub groups : Option (List Text)
  pub disabled : Option Bool
  pub must_change_password : Option Bool
  pub home_dir : Option Text
  pub user_data : Option Fields

pub record UpdateUserDto : Type 0 where
  pub name : Option Text
  pub email : Option Text
  pub groups : Option (List Text)
  pub disabled : Option Bool
  pub must_change_password : Option Bool
  pub home_dir : Option Text
  pub user_data : Option Fields
  pub last_login_at : Option ℕ

pub record Credentials : Type 0 where
  pub user_id : Text
  pub password_hash : Text
  pub salt : Text
  pub last_changed : ℕ

pub record SessionMetadata : Type 0 where
  pub remote_address : Option Text
  pub user_agent : Option Text

pub record Session : Type 0 where
  pub id : Text
  pub token_hash : Text
  pub user_id : Text
  pub created_at : ℕ
  pub last_activity : ℕ
  pub metadata : SessionMetadata

pub record ApiToken : Type 0 where
  pub id : Text
  pub user_id : Text
  pub name : Text
  pub token_hash : Text
  pub created_at : ℕ
  pub expires_at : Option ℕ
  pub last_used_at : Option ℕ
  pub permissions : Option (List Text)

pub record Group : Type 0 where
  pub id : Text
  pub name : Text
  pub description : Option Text
  pub permissions : List Text
  pub built_in : Bool
  pub created_at : ℕ
  pub updated_at : ℕ

pub record CreateGroupDto : Type 0 where
  pub name : Text
  pub description : Option Text
  pub permissions : Option (List Text)
  pub built_in : Option Bool

pub record UpdateGroupDto : Type 0 where
  pub description : Option Text
  pub permissions : Option (List Text)

-- The resolved identity of a request. The request that an adapter accepted is not followed.
pub record AuthContext : Type 0 where
  pub user : User
  pub permissions : List Text
  pub session : Option Session
  pub token_hash : Option Text
  pub api_token : Option ApiToken

pub record TicketEntry : Type 0 where
  pub expires_at : ℕ
  pub user_id : Text
  pub session_id : Option Text
  pub api_token_id : Option Text
  pub adapter_context : Option AuthContext

pub record SessionEnded : Type 0 where
  pub session_id : Text
  pub user_id : Text
  pub reason : Text
  pub revoked : Bool

pub data UsersSessionEvent : Type 0 where
  session_ended : SessionEnded → UsersSessionEvent
  access_changed : Option Text → UsersSessionEvent

-- Who gets an event of the event bus.
pub record Audience : Type 0 where
  pub permission : Option Text
  pub user_id : Option Text

-- What the services call outside: the audit store, the listeners of session events, the broadcast
-- function of the events socket and the event bus.
pub data Effect : Type 0 where
  logged : AuditEntry → Effect
  emitted : UsersSessionEvent → Effect
  kicked : Map Text → Effect
  published : Text → Map Text → Audience → Effect

pub record UsersState : Type 0 where
  pub users : Map User
  pub groups : Map Group
  pub credentials : Map Credentials
  pub sessions : Map Session
  pub tokens : Map ApiToken
  pub tickets : Map TicketEntry
  pub lockouts : Map LockoutState
  pub effects : List Effect

-- The options of the service, and what a call draws: the time, a UUID, random bytes.
pub record Env : Type 0 where
  pub crypto : Crypto
  pub has_group_store : Bool
  pub has_broadcast : Bool
  pub has_event_bus : Bool
  pub session_timeout_ms : ℕ
  pub max_login_attempts : ℕ
  pub lockout_ms : ℕ
  pub min_password_length : ℕ
  pub max_session_lifetime_ms : ℕ
  pub allow_non_expiring_tokens : Bool
  pub users_read_only : Bool
  pub now : ℕ
  pub new_id : Text
  pub random : Bytes

-- An error with an HTTP status, or a plain one.
pub data UsersError : Type 0 where
  http : ℕ → Text → UsersError
  plain : Text → UsersError
