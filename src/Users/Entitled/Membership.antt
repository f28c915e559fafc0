-- ===== src/Users/Entitled/Membership.antt =====
-- The management of groups and of their members gives no one a permission that the caller has not.
use cli_server_node.Common.{
  true, not, some, List, [], ◌∷◌, ◌++◌, Text, Map, map_get, any-append, ◌≡◌, refl, arith, inl, inr,
  ◌⊎◌, Bool-cases, if_intro,
}
use cli_server_node.Permissions.{in_group}
use cli_server_node.Users.{User, Group, UsersState, Env}
use cli_server_node.Users.Actions.{Result, Action, Done}
use cli_server_node.Users.Stores.{look_up_group}
use cli_server_node.Users.Directory.{Caller}
use cli_server_node.Users.Groups
use cli_server_node.Users.Groups.{without_group, member_left, remove_members, set_groups}
use cli_server_node.Users.Laws.{Keeps, bind_elim, bind-Keeps}
use cli_server_node.Users.Reading
use cli_server_node.Users.Outside.{publish_group_event-Keeps}
use cli_server_node.Users.Changes.{IsKeyed}
use cli_server_node.Users.Membership.{regrouped, get_user_returned}
use cli_server_node.Users.Granted.{
  granted, allows, AreNamed, AreFound, resolve_groups-AreFound, found_granted,
  assert_can_add_groups_returned,
}
use cli_server_node.Users.Entitled.{
  IsEntitled, start-IsEntitled, store_update_user-IsEntitled, bind-IsEntitled,
  granted-without_group,
}
use cli_server_node.Users.Entitled.Managing.{
  AreOneStar, CallerHas, audit-Stays, publish_user_event-Stays,
}

pub publish_group_event-Stays :
    (s : UsersState) (caller : Caller) (type g : Text) (by : Caller)
    → Keeps (IsEntitled s caller) (Groups.publish_group_event type g by)
publish_group_event-Stays s caller = publish_group_event-Keeps (IsEntitled s caller) (λ s es p. p)

set_groups-IsEntitled :
    (t : User) (groups : List Text) (caller : Caller) (env : Env) (s : UsersState)
    → map_get t.id s.users ≡ some t
    → ((p : Text)
        → granted s.groups groups p ≡ true
        → CallerHas caller p ⊎ (granted s.groups t.groups p ≡ true))
    → IsEntitled s caller (set_groups t groups env s).1
set_groups-IsEntitled t groups caller env s at f =
    let base =
      store_update_user-IsEntitled s caller t (regrouped groups) env s at f
        (start-IsEntitled s caller) in
    bind_elim _ _ env s (λ q. IsEntitled s caller q.1) (λ e q. base) (λ u q. base)

-- What the groups of a user give after one is added.
joined_granted :
    (groups : Map Group) (old : List Text) (g : Group) (p : Text) (C : Type 0)
    → (granted groups (g.name ∷ []) p ≡ true → C)
    → granted groups (old ++ g.name ∷ []) p ≡ true
    → C ⊎ (granted groups old p ≡ true)
unfolding granted
joined_granted groups old g p C f h =
    let both = any-append (λ n. allows p (look_up_group n groups)) old (g.name ∷ []) in
    elim (Bool-cases (granted groups old p)) [
      | inl e ↦ inr e
      | inr d ↦ inl (f (ground (arith, both, h, d)))
    ]

join_group-IsEntitled :
    (g : Group) (t : User) (caller : Caller) (env : Env) (s : UsersState)
    → AreOneStar caller
    → look_up_group g.name s.groups ≡ some g
    → map_get t.id s.users ≡ some t
    → IsEntitled s caller (Groups.join_group g t caller env s).1
unfolding Groups.join_group
join_group-IsEntitled g t caller env s one found at =
    bind-IsEntitled caller _ _ env s (Reading.assert_can_act_on-Reads caller t) λ _ q.
      bind-IsEntitled caller _ _ env s (Reading.assert_can_add_groups-Reads caller _) λ _ may.
        let base = set_groups-IsEntitled t (t.groups ++ g.name ∷ []) caller env s at (λ p.
          joined_granted s.groups t.groups g p (CallerHas caller p) (λ h.
            assert_can_add_groups_returned caller (g ∷ []) p env s one may
              (found_granted s.groups (g ∷ []) p (found, tt) h))) in
        bind_elim _ _ env s (λ q. IsEntitled s caller q.1) (λ e q. base)
          (λ _ q.
            bind-Keeps (IsEntitled s caller) _ _ (audit-Stays s caller _)
              (λ _. publish_user_event-Stays s caller _ t caller) env _ base)

first_group-IsEntitled :
    (gs : List Group) (f : Group → Action Done) (caller : Caller) (env : Env) (s : UsersState)
    → AreFound s.groups gs
    → ((g : Group) → look_up_group g.name s.groups ≡ some g → IsEntitled s caller (f g env s).1)
    → IsEntitled s caller (Groups.first_group gs f env s).1
first_group-IsEntitled [] f caller env s a h = start-IsEntitled s caller
first_group-IsEntitled (g ∷ gs) f caller env s (a, _) h = h g a

pub add_member-IsEntitled :
    (name x : Text) (caller : Caller) (env : Env) (s : UsersState)
    → AreNamed s.groups
    → AreOneStar caller
    → IsKeyed s.users
    → IsEntitled s caller (Groups.add_member name x caller env s).1
unfolding Groups.add_member
add_member-IsEntitled name x caller env s w one keyed =
    bind-IsEntitled caller _ _ env s (Reading.resolve_groups-Reads _) λ gs got.
      first_group-IsEntitled gs _ caller env s (resolve_groups-AreFound _ env s gs w got) λ g found.
        bind-IsEntitled caller _ _ env s (Reading.get_user_or_404-Reads x) λ user who.
          if_intro (λ (q : Result Done × UsersState). IsEntitled s caller q.1)
            (not (in_group (some user.groups) g.name))
            (join_group-IsEntitled g user caller env s one found
              (get_user_returned x env s user keyed who))
            (start-IsEntitled s caller)

pub remove_member-IsEntitled :
    (g : Group) (t : User) (caller : Caller) (env : Env) (s : UsersState)
    → map_get t.id s.users ≡ some t
    → IsEntitled s caller (Groups.remove_member g t caller env s).1
unfolding Groups.remove_member Groups.leave_group
remove_member-IsEntitled g t caller env s at =
    let base =
      set_groups-IsEntitled t (without_group g.name t.groups) caller env s at
        (λ p h. inr (granted-without_group s.groups g.name t.groups p h)) in
    if_intro (λ (q : Result Done × UsersState). IsEntitled s caller q.1)
      (in_group (some t.groups) g.name)
      (bind-IsEntitled caller _ _ env s (Reading.assert_can_act_on-Reads caller t) λ _ q.
        bind-IsEntitled caller _ _ env s (Reading.is_last_enabled_admin-Reads t) λ l q.
          bind-IsEntitled caller _ _ env s (λ env s. refl)
            λ _ q.
              bind_elim _ _ env s (λ q. IsEntitled s caller q.1) (λ e q. base)
                (λ _ q.
                  bind-Keeps (IsEntitled s caller) _ _ (audit-Stays s caller _)
                    (λ _. publish_user_event-Stays s caller _ t caller) env _ base))
      (start-IsEntitled s caller)
