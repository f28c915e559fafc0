-- ===== src/Users/Membership.antt =====
-- The management of groups and of their members makes only changes to the users that the directory allows.
use cli_server_node.Common.{
  true, false, not, Option, some, List, [], ◌∷◌, ◌++◌, Text, Map, map_get, map_values, ◌≡◌, refl,
  arith, if_intro,
}
use cli_server_node.Permissions.{in_group, admin_group}
use cli_server_node.Users.{User, Group, UpdateUserDto, UsersState, Env}
use cli_server_node.Users.Json.{Fields}
use cli_server_node.Users.Actions.{ok, Action, Done, when, ◌>>=◌}
use cli_server_node.Users.Stores.{
  store_create_group, store_update_group, get_group, get_user, look_up,
}
use cli_server_node.Users.Directory
use cli_server_node.Users.Directory.{Caller, user_clash, is_enabled_admin, is_last_of, nothing_new}
use cli_server_node.Users.Groups
use cli_server_node.Users.Groups.{
  without_group, member_left, remove_members, set_groups, is_built_in,
}
use cli_server_node.Users.Laws.{
  Keeps, bind_elim, bind-Keeps, for_some-Keeps, for_some-Reads, raise_if_returned, Reads-bind-Keeps,
  or_raise_returned, or_raise-Reads,
}
use cli_server_node.Users.Reading
use cli_server_node.Users.Outside.{
  OfUsers, audit-users, publish_user_event-users, publish_group_event-users,
}
use cli_server_node.Users.Changes.{Changes, unchanged, IsKeyed}
use cli_server_node.Users.Stored.{
  store_update_user-Changes, user_clash_nothing, without_group-admin, in_group-append,
  look_up_stored,
}
use cli_server_node.Users.Managing.{Allowed, Allowed-bind, last_returned}

-- An update of the groups alone.
abbrev pub regrouped : List Text → UpdateUserDto
regrouped groups = record nothing_new { groups = some groups }

set_groups-Changes :
    (t : User) (groups : List Text) (env : Env) (s : UsersState)
    → map_get t.id s.users ≡ some t
    → (is_last_of t (map_values s.users) ≡ true → in_group (some groups) admin_group ≡ true)
    → Allowed s.users (set_groups t groups env s)
set_groups-Changes t groups env s at stays =
    let I : Map User → Type 0 = Changes s.users in
    let base =
      store_update_user-Changes t (regrouped groups) env s at
        (user_clash_nothing (some t.id) (map_values s.users))
        (λ last. ground (arith, stays last, last)) in
    bind_elim _ _ env s (Allowed s.users) (λ e q. base) (λ u q. base)

-- What follows a change of groups.
told-Changes :
    {users : Map User} (m : Action Done) (e : Action Done) (f : Action Done) (env : Env)
    (s : UsersState)
    → Allowed users (m env s)
    → Keeps (OfUsers (Changes users)) e
    → Keeps (OfUsers (Changes users)) f
    → Allowed users ((m >>= λ _. e >>= λ _. f) env s)
told-Changes {users} m e f env s base k h =
    bind_elim _ _ env s (Allowed users) (λ e q. base)
      (λ _ q. bind-Keeps (OfUsers (Changes users)) _ _ k (λ _. h) env _ base)

join_group-Changes :
    (g : Group) (t : User) (caller : Caller) (env : Env) (s : UsersState)
    → map_get t.id s.users ≡ some t
    → Allowed s.users (Groups.join_group g t caller env s)
unfolding Groups.join_group
join_group-Changes g t caller env s at =
    let I : Map User → Type 0 = Changes s.users in
    Allowed-bind _ _ env s (Reading.assert_can_act_on-Reads caller t) λ _ q.
      Allowed-bind _ _ env s (Reading.assert_can_add_groups-Reads caller _) λ _ q.
        told-Changes _ _ _ env s
          (set_groups-Changes t (t.groups ++ g.name ∷ []) env s at
            (λ last. in_group-append t.groups (g.name ∷ []) admin_group (ground (arith, last))))
          (audit-users I _) (publish_user_event-users I _ t caller)

pub get_user_returned :
    (x : Text) (env : Env) (s : UsersState) (u : User)
    → IsKeyed s.users
    → (Directory.get_user_or_404 x env s).0 ≡ ok u
    → map_get u.id s.users ≡ some u
unfolding Directory.get_user_or_404 get_user ◌>>=◌
get_user_returned x env s u w h =
    look_up_stored x s.users u w (or_raise_returned (look_up x s.users) _ env s u h)

pub add_member-Changes :
    (name x : Text) (caller : Caller) (env : Env) (s : UsersState)
    → IsKeyed s.users
    → Allowed s.users (Groups.add_member name x caller env s)
unfolding Groups.add_member
add_member-Changes name x caller env s w =
    Allowed-bind _ _ env s (Reading.resolve_groups-Reads _) λ gs q. first gs
  where
    joins :
        (g : Group)
        → Allowed s.users (
            (Directory.get_user_or_404 x >>= λ user.
            when (not (in_group (some user.groups) g.name)) (Groups.join_group g user caller))
              env s)
    joins g = Allowed-bind _ _ env s (Reading.get_user_or_404-Reads x) λ user q.
        if_intro (Allowed s.users) (not (in_group (some user.groups) g.name))
          (join_group-Changes g user caller env s (get_user_returned x env s user w q))
          (unchanged refl)

    first :
        (gs : List Group)
        → Allowed s.users (
            Groups.first_group gs
              (λ g. Directory.get_user_or_404 x >>= λ user.
                when (not (in_group (some user.groups) g.name)) (Groups.join_group g user caller))
              env
              s)
    first [] = unchanged refl
    first (g ∷ gs) = joins g

leave_group-Changes :
    (g : Group) (t : User) (caller : Caller) (env : Env) (s : UsersState)
    → map_get t.id s.users ≡ some t
    → Allowed s.users (Groups.leave_group g t caller env s)
unfolding Groups.leave_group
leave_group-Changes g t caller env s at =
    let I : Map User → Type 0 = Changes s.users in
    Allowed-bind _ _ env s (Reading.assert_can_act_on-Reads caller t) λ _ q.
      Allowed-bind _ _ env s (Reading.is_last_enabled_admin-Reads t) λ l is_l.
        Allowed-bind _ _ env s (λ env s. refl)
          λ _ q.
            let other = raise_if_returned _ _ env s q in
            told-Changes _ _ _ env s
              (set_groups-Changes t (without_group g.name t.groups) env s at (λ last.
                without_group-admin g.name t.groups
                  (ground (arith, other, last_returned t env s l is_l, last))
                  (ground (arith, last))))
              (audit-users I _) (publish_user_event-users I _ t caller)

pub remove_member-Changes :
    (g : Group) (t : User) (caller : Caller) (env : Env) (s : UsersState)
    → map_get t.id s.users ≡ some t
    → Allowed s.users (Groups.remove_member g t caller env s)
unfolding Groups.remove_member
remove_member-Changes g t caller env s at =
    if_intro (Allowed s.users) (in_group (some t.groups) g.name)
      (leave_group-Changes g t caller env s at) (unchanged refl)

pub create_group-users :
    (I : Map User → Type 0) (body : Fields) (caller : Caller)
    → Keeps (OfUsers I) (Groups.create_group body caller)
unfolding Groups.create_group get_group store_create_group
create_group-users I body caller =
    Reads-bind-Keeps P _ _ (Reading.required_string-Reads body _) λ name_in.
      Reads-bind-Keeps P _ _ (Reading.validate_name-Reads name_in _) λ name.
        Reads-bind-Keeps P _ _ (Reading.optional_string-Reads body _) λ d_in.
          Reads-bind-Keeps P _ _
            (Reading.checked-Reads _ (λ a. Reading.validate_free_text-Reads a _ _ _) d_in)
            λ d. Reads-bind-Keeps P _ _ (Reading.optional_string_array-Reads body _) λ p_in.
              Reads-bind-Keeps P _ _ (Reading.validate_permissions-Reads _) λ ps.
                Reads-bind-Keeps P _ _ (Reading.assert_can_grant-Reads caller ps) λ _.
                  bind-Keeps P _ _ (λ env s p. p)
                    λ found.
                      bind-Keeps P _ _ (λ env s p. p)
                        λ _. bind-Keeps P _ _ (stored name d ps) λ g.
                          bind-Keeps P _ _ (audit-users I _) λ _.
                            bind-Keeps P _ _ (publish_group_event-users I _ _ caller) λ _ env s p. p
  where
    P : UsersState → Type 0
    P = OfUsers I

    stored :
        (name : Text) (d : Option Text) (ps : List Text)
        → Keeps P (
            store_create_group (record {
              name = name;
              description = d;
              permissions = some ps;
              built_in = some false;
            }))
    stored name d ps =
        bind-Keeps P _ _ (λ env s p. p)
          λ found.
            bind-Keeps P _ _ (for_some-Keeps P found _ (λ g env s p. p)) λ _.
              bind-Keeps P _ _ (λ env s p. p) λ g. bind-Keeps P _ _ (λ env s p. p) λ _ env s p. p

pub update_group-users :
    (I : Map User → Type 0) (g : Group) (body : Fields) (caller : Caller)
    → Keeps (OfUsers I) (Groups.update_group g body caller)
unfolding Groups.update_group get_group store_update_group
update_group-users I g body caller =
    Reads-bind-Keeps P _ _ (Reading.optional_string-Reads body _) λ d_in.
      Reads-bind-Keeps P _ _
        (Reading.checked-Reads _ (λ a. Reading.validate_free_text-Reads a _ _ _) d_in)
        λ d. Reads-bind-Keeps P _ _ (Reading.optional_string_array-Reads body _) λ p_in.
          Reads-bind-Keeps P _ _ (Reading.checked-Reads _ Reading.validate_permissions-Reads p_in)
            λ ps.
              bind-Keeps P _ _ (λ env s p. p)
                λ _.
                  Reads-bind-Keeps P _ _
                    (for_some-Reads ps _ (λ a. Reading.assert_can_grant-Reads caller a))
                    λ _. bind-Keeps P _ _ (stored d ps) λ u.
                      bind-Keeps P _ _ (audit-users I _) λ _.
                        bind-Keeps P _ _ (publish_group_event-users I _ _ caller) λ _ env s p. p
  where
    P : UsersState → Type 0
    P = OfUsers I

    stored :
        (d : Option Text) (ps : Option (List Text))
        → Keeps P (store_update_group g.name (record { description = d; permissions = ps }))
    stored d ps =
        bind-Keeps P _ _ (λ env s p. p)
          λ found. Reads-bind-Keeps P _ _ (or_raise-Reads found _) λ h.
            bind-Keeps P _ _ (λ env s p. p) λ h'. bind-Keeps P _ _ (λ env s p. p) λ _ env s p. p
