-- ===== src/Lockout.antt =====
-- plugins/users/services/auth-service.ts: the lockout of sign-ins. The clock is an argument; an attempt
-- is reserved before the password is checked, and fails or succeeds later.
pub mod Entries
pub mod Changes
pub mod Counts
pub mod Bound
pub mod Locked
mod Tests
use cli_server_node.Common.{
  ℕ, suc, ◌+◌, Bool, true, false, not, ◌||◌, Option, none, some, List, [], Text, codes, to_lower,
  ◌++◌, Map, map_get, map_set, map_delete, map_update, ltb, leb, ◌==◌, if◌then◌else◌, length,
}
use mathlib.Core.Option

pub record LockoutState : Type 0 where
  pub failures : ℕ
  pub locked_until : ℕ
  pub last_attempt : ℕ

pub record Lockouts : Type 0 where
  pub max_login_attempts : ℕ
  pub lockout_ms : ℕ
  pub lockouts : Map LockoutState

abbrev pub lockout_sweep_threshold : ℕ
lockout_sweep_threshold = 1000

abbrev pub user_key : Text → Text
user_key id = codes "id:" ++ id

abbrev pub name_key : Text → Text
name_key name = codes "name:" ++ to_lower name

unfoldable pub is_lockout_expired : ℕ → LockoutState → ℕ → Bool
is_lockout_expired lockout_ms st now =
    if not (st.locked_until == 0)
    then leb st.locked_until now
    else leb (st.last_attempt + lockout_ms) now

-- What is left of an entry whose expiry is looked at.
abbrev pub unexpired : ℕ → ℕ → LockoutState → Option LockoutState
unexpired lockout_ms now st = if is_lockout_expired lockout_ms st now then none else some st

unfoldable pub sweep_lockouts : Lockouts → ℕ → Lockouts
sweep_lockouts l now = record l { lockouts = map_update (unexpired l.lockout_ms now) l.lockouts }

-- `isKeyLocked`, which deletes an expired entry.
unfoldable pub is_key_locked : Lockouts → Text → ℕ → Bool × Lockouts
is_key_locked l key now = elim (map_get key l.lockouts) [
  | none ↦ (false, l)
  | some st ↦
      if is_lockout_expired l.lockout_ms st now
      then (false, record l { lockouts = map_delete key l.lockouts })
      else (not (st.locked_until == 0), l)
]

-- `lockouts.delete`.
abbrev pub delete_key : Lockouts → Text → Lockouts
delete_key l key = record l { lockouts = map_delete key l.lockouts }

unfoldable pub clear_lockout : Lockouts → Text → Lockouts
clear_lockout l user_id = delete_key l (user_key user_id)

unfoldable pub is_locked : Lockouts → Text → ℕ → Bool × Lockouts
is_locked l user_id now = is_key_locked l (user_key user_id) now

abbrev pub fresh : ℕ → LockoutState
fresh now = record { failures = 0; locked_until = 0; last_attempt = now }

-- A new entry, after a sweep where the map is large.
unfoldable pub open_entry : Lockouts → Text → ℕ → Lockouts
open_entry l key now =
    let l' = if leb lockout_sweep_threshold (length l.lockouts) then sweep_lockouts l now else l in
    record l' { lockouts = map_set key (fresh now) l'.lockouts }

-- The rest of `reserveAttempt`, at the entry of the key: `false` is the error 429.
unfoldable pub reserve_in : Lockouts → Text → ℕ → LockoutState → Bool × Lockouts
reserve_in l key now st =
    if ltb now st.locked_until || leb l.max_login_attempts st.failures then (false, l) else (
      true,
      record l {
        lockouts =
            map_set key (record st { failures = suc st.failures; last_attempt = now }) l.lockouts;
      },
    )

unfoldable pub reserve_attempt : Lockouts → Text → ℕ → Bool × Lockouts
reserve_attempt l key now = elim (map_get key l.lockouts) [
  | none ↦ reserve_in (open_entry l key now) key now (fresh now)
  | some st ↦
      if is_lockout_expired l.lockout_ms st now
      then reserve_in (open_entry (delete_key l key) key now) key now (fresh now)
      else reserve_in l key now st
]

-- The entry that `attemptFailed` leaves.
abbrev pub failed_entry : Lockouts → ℕ → Option LockoutState → LockoutState
failed_entry l now o =
    let st = Option.get_or o (record { failures = 1; locked_until = 0; last_attempt = now }) in
    record st {
      locked_until =
          if leb l.max_login_attempts st.failures
          then (if st.locked_until == 0 then now + l.lockout_ms else st.locked_until)
          else st.locked_until;
      last_attempt = now;
    }

unfoldable pub attempt_failed : Lockouts → Text → ℕ → Lockouts
attempt_failed l key now = record l {
  lockouts = map_set key (failed_entry l now (map_get key l.lockouts)) l.lockouts;
}

unfoldable pub attempt_succeeded : Lockouts → Text → Lockouts
attempt_succeeded l key = record l { lockouts = map_delete key l.lockouts }

-- What happens to the lockouts, with the key or, for `clears`, the user it happens to.
pub data Event : Type 0 where
  reserves fails succeeds clears checks : Text → Event
  sweeps : Event

unfoldable pub step : Lockouts → ℕ → Event → Lockouts
step l now (reserves key) = (reserve_attempt l key now).1
step l now (fails key) = attempt_failed l key now
step l now (succeeds key) = attempt_succeeded l key
step l now (clears user_id) = clear_lockout l user_id
step l now (checks key) = (is_key_locked l key now).1
step l now sweeps = sweep_lockouts l now
