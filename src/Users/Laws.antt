-- ===== src/Users/Laws.antt =====
-- Rules for the actions of the services: which of them only read the state, what a chain of actions
-- keeps, and what is known after each part of it returned.
use cli_server_node.Common.{
  Bool, true, false, Option, none, some, List, [], ◌∷◌, ◌≡◌, refl, sym, ap, subst, ◌∙◌, inl, inr,
  ◌⊎◌,
}
use cli_server_node.Users.{UsersState, Env, UsersError}
use cli_server_node.Users.Actions.{
  Result, ok, err, Action, Done, raise_if, or_raise, when, for_some, for_each, ◌>>=◌,
}

-- The action leaves the state as it is.
abbrev pub Reads : {A : Type 0} → Action A → Type 0
Reads m = (env : Env) (s : UsersState) → (m env s).1 ≡ s

-- What holds of a state holds of the one after the action.
abbrev pub Keeps : {A : Type 0} → (UsersState → Type 0) → Action A → Type 0
Keeps P m = (env : Env) (s : UsersState) → P s → P (m env s).1

pub Result-cases :
    {A : Type 0} (r : Result A) → ((a : A) × (r ≡ ok a)) ⊎ ((e : UsersError) × (r ≡ err e))
Result-cases (ok a) = inl (a, refl)
Result-cases (err e) = inr (e, refl)

abbrev after : {A B : Type 0} → (A → Action B) → Env → UsersState → Result A → Result B × UsersState
after f env s r = elim r [ ok a ↦ f a env s | err e ↦ (err e, s) ]

module _ {A B : Type 0} (m : Action A) (f : A → Action B) (env : Env) (s : UsersState) where
  -- The chain after a part that returned a value, and after one that threw.
  pub bind_ok_lem : (a : A) → (m env s).0 ≡ ok a → (m >>= f) env s ≡ f a env (m env s).1
  unfolding ◌>>=◌
  bind_ok_lem a e = ap (after f env (m env s).1) e

  pub bind_err_lem : (e : UsersError) → (m env s).0 ≡ err e → (m >>= f) env s ≡ (err e, (m env s).1)
  unfolding ◌>>=◌
  bind_err_lem e q = ap (after f env (m env s).1) q

  -- If a chain returned, so did its parts.
  pub bind_returned :
      (b : B)
      → ((m >>= f) env s).0 ≡ ok b
      → (a : A) × ((m env s).0 ≡ ok a) × ((m >>= f) env s ≡ f a env (m env s).1)
  bind_returned b h = elim (Result-cases (m env s).0) [
    | inl (a, e) ↦ (a, e, bind_ok_lem a e)
    | inr (e, q) ↦ absurd (cc (ap (λ p. p.0) (bind_err_lem e q), h))
  ]

  -- Of a chain: what holds after the first part if that threw, and after the second if it returned.
  pub bind_elim :
      (P : Result B × UsersState → Type 0)
      → ((e : UsersError) → (m env s).0 ≡ err e → P (err e, (m env s).1))
      → ((a : A) → (m env s).0 ≡ ok a → P (f a env (m env s).1))
      → P ((m >>= f) env s)
  bind_elim P g h = elim (Result-cases (m env s).0) [
    | inl (a, e) ↦ subst P (sym (bind_ok_lem a e)) (h a e)
    | inr (e, q) ↦ subst P (sym (bind_err_lem e q)) (g e q)
  ]

  -- The same where the first part only reads.
  pub reads_bind :
      (P : Result B × UsersState → Type 0)
      → Reads m
      → ((e : UsersError) → (m env s).0 ≡ err e → P (err e, s))
      → ((a : A) → (m env s).0 ≡ ok a → P (f a env s))
      → P ((m >>= f) env s)
  reads_bind P r g h =
      bind_elim P (λ e q. subst (λ t. P (err e, t)) (sym (r env s)) (g e q))
        (λ a q. subst (λ t. P (f a env t)) (sym (r env s)) (h a q))

  -- If a chain whose first part only reads returned, so did its parts, in the same state.
  pub Reads-returned :
      (b : B)
      → Reads m
      → ((m >>= f) env s).0 ≡ ok b
      → (a : A) × ((m env s).0 ≡ ok a) × ((f a env s).0 ≡ ok b)
  Reads-returned b r h =
      let (a, e, q) = bind_returned b h in
      (a, e, ap (λ t. (f a env t).0) (sym (r env s)) ∙ (sym (ap (λ o. o.0) q) ∙ h))

pub bind-Reads :
    {A B : Type 0} (m : Action A) (f : A → Action B)
    → Reads m
    → ((a : A) → Reads (f a))
    → Reads (m >>= f)
bind-Reads m f r h env s = reads_bind m f env s (λ q. q.1 ≡ s) r (λ e q. refl) (λ a q. h a env s)

pub bind-Keeps :
    {A B : Type 0} (P : UsersState → Type 0) (m : Action A) (f : A → Action B)
    → Keeps P m
    → ((a : A) → Keeps P (f a))
    → Keeps P (m >>= f)
bind-Keeps P m f k h env s p =
    bind_elim m f env s (λ q. P q.1) (λ e q. k env s p) (λ a q. h a env _ (k env s p))

pub when-Keeps :
    (P : UsersState → Type 0) (b : Bool) (m : Action Done) → Keeps P m → Keeps P (when b m)
when-Keeps P true m k env s p = k env s p
when-Keeps P false m k env s p = p

pub for_some-Keeps :
    {A : Type 0} (P : UsersState → Type 0) (o : Option A) (f : A → Action Done)
    → ((a : A) → Keeps P (f a))
    → Keeps P (for_some o f)
for_some-Keeps P none f k env s p = p
for_some-Keeps P (some a) f k env s p = k a env s p

pub for_each-Keeps :
    {A : Type 0} (P : UsersState → Type 0) (f : A → Action Done)
    → ((a : A) → Keeps P (f a))
    → (xs : List A) → Keeps P (for_each f xs)
unfolding for_each
for_each-Keeps P f k [] env s p = p
for_each-Keeps P f k (x ∷ xs) env s p =
    bind-Keeps P _ _ (k x) (λ _. for_each-Keeps P f k xs) env s p

pub Reads-Keeps : {A : Type 0} (P : UsersState → Type 0) (m : Action A) → Reads m → Keeps P m
Reads-Keeps P m r env s p = subst P (sym (r env s)) p

pub when-Reads : (b : Bool) (m : Action Done) → Reads m → Reads (when b m)
when-Reads true m k env s = k env s
when-Reads false m k env s = refl

pub for_some-Reads :
    {A : Type 0} (o : Option A) (f : A → Action Done)
    → ((a : A) → Reads (f a))
    → Reads (for_some o f)
for_some-Reads none f k env s = refl
for_some-Reads (some a) f k env s = k a env s

pub raise_if_returned :
    (b : Bool) (e : UsersError) (env : Env) (s : UsersState)
    → (raise_if b e env s).0 ≡ ok tt
    → b ≡ false
raise_if_returned true e env s h = cc
raise_if_returned false e env s h = refl

pub or_raise-Reads : {A : Type 0} (o : Option A) (e : UsersError) → Reads (or_raise o e)
or_raise-Reads none e env s = refl
or_raise-Reads (some a) e env s = refl

pub or_raise_returned :
    {A : Type 0} (o : Option A) (e : UsersError) (env : Env) (s : UsersState) (a : A)
    → (or_raise o e env s).0 ≡ ok a
    → o ≡ some a
or_raise_returned none e env s a h = cc
or_raise_returned (some b) e env s a h = cc

-- A chain whose first part only reads.
pub Reads-bind-Keeps :
    {A B : Type 0} (P : UsersState → Type 0) (m : Action A) (f : A → Action B)
    → Reads m
    → ((a : A) → Keeps P (f a))
    → Keeps P (m >>= f)
Reads-bind-Keeps P m f r h = bind-Keeps P m f (Reads-Keeps P m r) h

pub ok_injective : {A : Type 0} {a b : A} → ok a ≡ ok b → a ≡ b
ok_injective e = cc
