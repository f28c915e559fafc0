-- ===== src/Users/Actions.antt =====
-- The monad of the operations, sanitize and hashToken of plugins/users/security.ts, and what the
-- authentication service (auth-service.ts) tells the outside: audit entries, session events, events of the bus.
use cli_server_node.Common.{
  ℕ, Bool, not, ◌||◌, Option, none, some, List, [], ◌∷◌, ◌++◌, Text, codes, text_eq, starts_with,
  Map, ltb, ◌==◌, if◌then◌else◌, length, take, filter, any,
}
use mathlib.Core.Option
use cli_server_node.Audit.{AuditEntry}
use cli_server_node.Users.Passwords.{Crypto}
use cli_server_node.Users.{
  UsersState, Env, UsersError, http, Effect, logged, emitted, published, UsersSessionEvent,
  access_changed, Audience,
}

pub data Result (A : Type 0) : Type 0 where
  ok : A → Result A
  err : UsersError → Result A

-- What was written before an error stays written.
abbrev pub Action : Type 0 → Type 0
Action A = Env → UsersState → Result A × UsersState

module _ {A : Type 0} where
  abbrev pub pure : A → Action A
  pure a env s = (ok a, s)

  abbrev pub raise : UsersError → Action A
  raise e env s = (err e, s)

  abbrev pub asks : (Env → A) → Action A
  asks f env s = (ok (f env), s)

  abbrev pub gets : (UsersState → A) → Action A
  gets f env s = (ok (f s), s)

  abbrev pub or_raise : Option A → UsersError → Action A
  or_raise none e = raise e
  or_raise (some a) e = pure a

  -- `try { … } catch { return undefined }`.
  abbrev pub caught : Result A → Option A
  caught (ok a) = some a
  caught (err e) = none

  abbrev pub attempt : Action A → Action (Option A)
  attempt m env s = let (r, s') = m env s in (ok (caught r), s')

infixl 5 ◌>>=◌ ◌>>◌
unfoldable pub ◌>>=◌ : {A B : Type 0} → Action A → (A → Action B) → Action B
◌>>=◌ m f env s = let (r, s') = m env s in elim r [ ok a ↦ f a env s' | err e ↦ (err e, s') ]

abbrev pub ◌>>◌ : {A B : Type 0} → Action A → Action B → Action B
m >> k = m >>= λ _. k

abbrev pub Done : Type 0
Done = Unit

abbrev pub done : Action Done
done = pure tt

abbrev pub raise_if : Bool → UsersError → Action Done
raise_if b e env s = (if b then err e else ok tt, s)

abbrev pub modify : (UsersState → UsersState) → Action Done
modify f env s = (ok tt, f s)

abbrev pub when : Bool → Action Done → Action Done
when b m env s = if b then m env s else (ok tt, s)

-- Whether an optional value is given, and the action on it.
abbrev pub for_some : {A : Type 0} → Option A → (A → Action Done) → Action Done
for_some none f = done
for_some (some a) f = f a

-- The loop over a list.
unfoldable pub for_each : {A : Type 0} → (A → Action Done) → List A → Action Done
for_each f [] = done
for_each f (x ∷ xs) = f x >> for_each f xs

abbrev pub bad_request : Text → UsersError
bad_request = http 400

abbrev pub unauthorized : Text → UsersError
unauthorized = http 401

abbrev pub forbidden : Text → UsersError
forbidden = http 403

abbrev pub not_found : Text → UsersError
not_found = http 404

abbrev pub conflict : Text → UsersError
conflict = http 409

abbrev pub is_control : ℕ → Bool
is_control c = ltb c 32 || c == 127

unfoldable pub has_control_chars : Text → Bool
has_control_chars value = any is_control value

-- `value.replace(CONTROL_CHARS_GLOBAL, '')`
abbrev pub strip_controls : Text → Text
strip_controls value = filter (λ c. not (is_control c)) value

unfoldable pub sanitize : Text → Option ℕ → Text
sanitize value none = strip_controls value
sanitize value (some max) =
    let clean = strip_controls value in if ltb max (length clean) then take max clean else clean

abbrev pub hash_token : Crypto → Text → Text
hash_token c token = c.hex (c.sha256 token)

abbrev pub tell : Effect → Action Done
tell e = modify (λ s. record s { effects = s.effects ++ e ∷ [] })

-- The error of a check, where it has one.
abbrev pub refuse : Option UsersError → Action Done
refuse none = done
refuse (some e) = raise e

unfoldable pub emit_session_event : UsersSessionEvent → Action Done
emit_session_event event = tell (emitted event)

-- `publishEvent`, which never throws.
unfoldable pub publish_event : Text → Map Text → Audience → Action Done
publish_event type details audience =
    asks (λ env. env.has_event_bus) >>= λ bus. when bus (tell (published type details audience))

abbrev pub is_access_changing : Text → Bool
is_access_changing event =
    starts_with event (codes "user_")
    || starts_with event (codes "group_")
    || starts_with event (codes "password_")

abbrev pub is_group_wide : Text → Bool
is_group_wide event =
    text_eq event (codes "group_created")
    || text_eq event (codes "group_updated")
    || text_eq event (codes "group_deleted")

abbrev bounded : ℕ → Text → Text
bounded max t = sanitize t (some max)

-- The entry as it is logged.
unfoldable pub clean_entry : ℕ → AuditEntry → AuditEntry
unfolding sanitize
clean_entry now e = record {
  id = e.id;
  timestamp = some (Option.get_or e.timestamp now);
  event = e.event;
  username = sanitize e.username none;
  details = Option.map (bounded 1024) e.details;
  user_id = e.user_id;
  actor = Option.map (λ t. sanitize t none) e.actor;
  actor_id = e.actor_id;
  target = Option.map (bounded 256) e.target;
  properties = e.properties;
  metadata = e.metadata;
}

unfoldable pub audit : AuditEntry → Action Done
audit entry = do
  now ← asks (λ env. env.now)
  tell (logged (clean_entry now entry))
  when (is_access_changing entry.event) (
      emit_session_event
        (access_changed (if is_group_wide entry.event then none else entry.user_id)))

-- An entry with nothing but its event and user name.
abbrev pub entry_of : Text → Text → AuditEntry
entry_of event username = record {
  id = none;
  timestamp = none;
  event = event;
  username = username;
  details = none;
  user_id = none;
  actor = none;
  actor_id = none;
  target = none;
  properties = [];
  metadata = [];
}
