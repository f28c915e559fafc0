-- ===== src/Users/Steps.antt =====
-- What a request may do to the users, said without the checks of the code: names and emails that are given
-- are no one else's, and an enabled admin is disabled, moved or removed only where there is another.
use cli_server_node.Common.{
  ℕ, true, false, Option, none, some, [], ◌∷◌, Text, Map, map_get, map_set, map_delete, map_values,
  text_eq, text_eq_iff, text_eq_comm, to_lower, Bool-cases, ◌≡◌, refl, sym, subst, ◌∙◌, arith, inl,
  inr, ◌⊎◌,
}
use cli_server_node.Permissions.{same_name}
use cli_server_node.Users.{User, UpdateUserDto, AuthContext, UsersState, Env}
use cli_server_node.Users.Stores.{updated_user, given_or}
use cli_server_node.Users.Directory.{user_clash, takes, is_enabled_admin, is_last_of}
use cli_server_node.Users.Requests.{DirectoryRequest, answer}
use cli_server_node.Users.Changes.{
  Change, adds, alters, removes, Changes, unchanged, changed, IsKeyed, Change-IsKeyed,
}
use cli_server_node.Users.Admins.{HasOther, other_unless_last}
use cli_server_node.Users.Apart.{free_elsewhere}
use cli_server_node.Users.History.{answer-Changes}

-- The text, not an empty one, is the user's name or email, whatever the case.
abbrev pub Names : Text → User → Type 0
Names t v = ¬ (t ≡ []) × ((to_lower v.name ≡ to_lower t) ⊎ (to_lower v.email ≡ to_lower t))

-- The user is no enabled admin, or not the only one.
abbrev pub IsSpare : User → Map User → Type 0
IsSpare t users = (is_enabled_admin t ≡ false) ⊎ HasOther t users

pub data Step (users : Map User) : Map User → Type 0 where
  added :
      (u : User)
      → map_get u.id users ≡ none
      → ((k : Text) (v : User)
          → map_get k users ≡ some v
          → ¬ (Names u.name v) × ¬ (Names u.email v))
      → Step users (map_set u.id u users)
  updated :
      (t u : User)
      → map_get t.id users ≡ some t
      → u.id ≡ t.id
      → u.created_at ≡ t.created_at
      → ((k : Text) (v : User)
          → map_get k users ≡ some v
          → text_eq t.id k ≡ false
          → ((u.name ≡ t.name) ⊎ ¬ (Names u.name v)) × ((u.email ≡ t.email) ⊎ ¬ (Names u.email v)))
      → (is_enabled_admin u ≡ true) ⊎ IsSpare t users
      → Step users (map_set t.id u users)
  removed :
      (t : User)
      → map_get t.id users ≡ some t
      → IsSpare t users
      → Step users (map_delete t.id users)

pub data Steps (users : Map User) : Map User → Type 0 where
  no_step : Steps users users
  then : {next last : Map User} → Steps users next → Step next last → Steps users last

lower_nil : (t : Text) → to_lower t ≡ [] → t ≡ []
lower_nil [] e = refl
lower_nil (c ∷ t) e = absurd (cc e)

same_lower :
    (a t : Text) → ¬ (t ≡ []) → to_lower a ≡ to_lower t → same_name (some a) (some t) ≡ true
unfolding same_name
same_lower [] t n e = absurd (n (lower_nil t (sym e)))
same_lower (c ∷ a) [] n e = absurd (n refl)
same_lower (c ∷ a) (d ∷ t) n e =
    ground (arith, (text_eq_iff (to_lower (c ∷ a)) (to_lower (d ∷ t))).1 e)

free_unnamed : (t : Text) (v : User) → takes (some t) v ≡ false → ¬ (Names t v)
free_unnamed t v free (n, inl e) = absurd (ground (arith, free, same_lower v.name t n e))
free_unnamed t v free (n, inr e) = absurd (ground (arith, free, same_lower v.email t n e))

-- A name or an email is kept, or a free one is given.
kept_or_free :
    (o : Option Text) (old : Text) (v : User)
    → takes o v ≡ false
    → (given_or o old ≡ old) ⊎ ¬ (Names (given_or o old) v)
kept_or_free none old v h = inl refl
kept_or_free (some t) old v h = inr (free_unnamed t v h)

alters-updated :
    (users : Map User) (t : User) (dto : UpdateUserDto) (now : ℕ)
    → map_get t.id users ≡ some t
    → user_clash dto.name dto.email (some t.id) (map_values users) ≡ none
    → (is_last_of t (map_values users) ≡ true → is_enabled_admin (updated_user now dto t) ≡ true)
    → IsKeyed users
    → Step users (map_set t.id (updated_user now dto t) users)
alters-updated users t dto now at clash last w =
    updated t (updated_user now dto t) at refl refl
      (λ k v there off.
        let other : text_eq v.id t.id ≡ false =
          text_eq_comm v.id t.id
          ∙ subst (λ i. text_eq t.id i ≡ false) (sym (w.ids k v there)) off in
        let (n, q) = free_elsewhere dto.name dto.email (some t.id) users k v clash there other in
        (kept_or_free dto.name t.name v n, kept_or_free dto.email t.email v q))
      (elim (Bool-cases (is_last_of t (map_values users))) [
        | inl only ↦ inl (last only)
        | inr spare ↦ inr (other_unless_last t users w spare)
      ])

Change-Step : {users users' : Map User} → Change users users' → IsKeyed users → Step users users'
Change-Step (adds {users = m} u new clash e) w = subst (Step m) (sym e) (
    added u new (λ k v at.
      let (n, q) = free_elsewhere (some u.name) (some u.email) none m k v clash at refl in
      (free_unnamed u.name v n, free_unnamed u.email v q)))
Change-Step (alters {users = m} t dto now at clash last e) w =
    subst (Step m) (sym e) (alters-updated m t dto now at clash last w)
Change-Step (removes {users = m} t at last e) w =
    subst (Step m) (sym e) (removed t at (other_unless_last t m w last))

Changes-Steps :
    {start users users' : Map User}
    → Changes users users'
    → IsKeyed users
    → Steps start users
    → Steps start users'
Changes-Steps {start} (unchanged e) w so = subst (Steps start) (sym e) so
Changes-Steps (changed c cs) w so =
    Changes-Steps cs (Change-IsKeyed c w) (then so (Change-Step c w))

-- Where the store keeps users by their ids and a UUID that is drawn is new: whatever a request to the
-- directory does, and also where it throws, it changes the users only in such steps: a user is added under
-- a new id, whose name and email are no one's; a user is changed that keeps its id and its time of
-- creation, and whose name and email stay or are no one else's, an enabled admin that is no longer one
-- only where there is another; or a user is removed, an enabled admin only where there is another.
pub answer-Steps :
    (ctx : AuthContext) (request : DirectoryRequest) (env : Env) (s : UsersState)
    → IsKeyed s.users
    → map_get env.new_id s.users ≡ none
    → Steps s.users (answer ctx request env s).1.users
answer-Steps ctx request env s w fresh =
    Changes-Steps (answer-Changes ctx request env s w fresh) w no_step
