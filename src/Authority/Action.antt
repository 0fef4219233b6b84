-- ===== src/Authority/Action.antt =====
-- Methods of the authority as actions: each takes the state and leaves a state, whether it returns or
-- raises, and an exception ends the method.
use endbot.Prelude.{
  Bool, true, false, Option, none, some, Result, ok, attempt, attempt_keeps, Outcome, if◌then◌else◌,
}
use endbot.Enrollment.{ControllerEnrollment}
use endbot.Policy.{ControllerPolicy}
use endbot.Revisions.{GrantRevisions}
use endbot.Roles.{ControllerRoles}
use endbot.Authority.State.{Authority}

abbrev pub Action : Type 0 → Type 0
Action A = Authority → Outcome Authority A

infixl 5 ◌>>=◌ ◌>>◌
unfoldable pub ◌>>=◌ : {A B : Type 0} → Action A → (A → Action B) → Action B
◌>>=◌ m f a = attempt (m a).1 (m a).0 (λ x. f x (m a).0)

abbrev pub ◌>>◌ : {A B : Type 0} → Action A → Action B → Action B
m >> k = m >>= λ _. k

module _ {A : Type 0} where
  unfoldable pub pure : A → Action A
  pure x a = (a, ok x)

  -- A pure computation that may raise.
  unfoldable pub lift : Result A → Action A
  lift r a = (a, r)

  unfoldable pub gets : (Authority → A) → Action A
  gets f a = (a, ok (f a))

  -- A computation on the state that may raise, and changes nothing.
  unfoldable pub reads : (Authority → Result A) → Action A
  reads f a = (a, f a)

  -- A method of one of the parts.
  unfoldable pub on_policy : (ControllerPolicy → Outcome ControllerPolicy A) → Action A
  on_policy m a = let (p, r) = m a.policy in (record a { policy = p }, r)

  unfoldable pub on_controllers : (ControllerEnrollment → Outcome ControllerEnrollment A) → Action A
  on_controllers m a = let (c, r) = m a.controllers in (record a { controllers = c }, r)

  unfoldable pub on_revisions : (GrantRevisions → Outcome GrantRevisions A) → Action A
  on_revisions m a = let (g, r) = m a.grant_revisions in (record a { grant_revisions = g }, r)

  unfoldable pub on_roles : (ControllerRoles → Outcome ControllerRoles A) → Action A
  on_roles m a = let (r, x) = m a.roles in (record a { roles = r }, x)

unfoldable pub modify : (Authority → Authority) → Action (Unit {0})
modify f a = (f a, ok tt)

-- A branch on a value that may be absent.
abbrev pub on_option : {A B : Type 0} → Option A → Action B → (A → Action B) → Action B
on_option none m f = m
on_option (some x) m f = f x

-- `m` keeps `P`, whether it returns or raises.
pub record Keeps {ℓ} {A : Type 0} (P : Authority → Type ℓ) (m : Action A) : Type ℓ where
  pub at : (a : Authority) → P a → P (m a).0

module _ {ℓ} {P : Authority → Type ℓ} where
  pub Keeps-bind :
      {A B : Type 0} (m : Action A) (f : A → Action B)
      → Keeps P m
      → ((x : A) → Keeps P (f x))
      → Keeps P (m >>= f)
  unfolding ◌>>=◌
  Keeps-bind m f km kf = record {
    at = λ a h.
        attempt_keeps P (m a).1 (m a).0 (λ x. f x (m a).0) (km.at a h)
          λ x _. (kf x).at _ (km.at a h);
  }

  pub Keeps-pure : {A : Type 0} (x : A) → Keeps P (pure x)
  unfolding pure
  Keeps-pure x = record { at = λ a h. h }

  pub Keeps-lift : {A : Type 0} (r : Result A) → Keeps P (lift r)
  unfolding lift
  Keeps-lift r = record { at = λ a h. h }

  pub Keeps-gets : {A : Type 0} (f : Authority → A) → Keeps P (gets f)
  unfolding gets
  Keeps-gets f = record { at = λ a h. h }

  pub Keeps-reads : {A : Type 0} (f : Authority → Result A) → Keeps P (reads f)
  unfolding reads
  Keeps-reads f = record { at = λ a h. h }

  pub Keeps-if :
      {A : Type 0} (b : Bool) (m n : Action A)
      → Keeps P m
      → Keeps P n
      → Keeps P (if b then m else n)
  Keeps-if true m n km kn = km
  Keeps-if false m n km kn = kn

  pub Keeps-on_option :
      {A B : Type 0} (o : Option A) (m : Action B) (f : A → Action B)
      → Keeps P m
      → ((x : A) → Keeps P (f x))
      → Keeps P (on_option o m f)
  Keeps-on_option none m f km kf = km
  Keeps-on_option (some x) m f km kf = kf x

pub ruleset keeps_rules =
    (Keeps-bind, Keeps-pure, Keeps-lift, Keeps-gets, Keeps-reads, Keeps-if, Keeps-on_option)
