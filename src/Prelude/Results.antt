-- ===== src/Prelude/Results.antt =====
-- Python's exceptions as values: the class that is raised, not its message.
use Prim.Native.String.{String}
use mathlib.Core.Path.{◌≡◌, refl}
use mathlib.Core.Logic.{◌⊎◌, inl, inr}
use endbot.Prelude.Tests.{if◌then◌else◌}
use mathlib.Core.Bool.{Bool, true, false}
use mathlib.Core.List.{List, [], ◌∷◌}
use mathlib.Core.Option.{Option, none, some}

-- `localized` is `LocalizedError`, a refusal that the player reads; `invalid` and `unavailable` are
-- the `LinkError`s with these codes, and `link_error` one with any other code. `no_fuel` is the model's
-- own, where a loop has not come to its end.
pub data Error : Type 0 where
  value_error type_error key_error os_error index_error attribute_error level_dat_error
        invalid_state localized invalid unavailable no_fuel :
      Error
  link_error : String → Error

pub data Result {ℓ} (A : Type ℓ) : Type ℓ where
  err : Error → Result A
  ok : A → Result A

-- The statements behind one that raises do not run.
infixl 5 ◌>>=◌
abbrev pub ◌>>=◌ {ℓ κ} : {V : Type ℓ} {W : Type κ} → Result V → (V → Result W) → Result W
err raised >>= next = err raised
ok v >>= next = next v

-- `if test: raise error`
abbrev pub raise_if : Bool → Error → Result (Unit {0})
raise_if true e = err e
raise_if false e = ok tt

abbrev pub or_raise {ℓ} : {A : Type ℓ} → Option A → Error → Result A
or_raise none e = err e
or_raise (some a) e = ok a

infixl 5 ◌>>◌
abbrev pub ◌>>◌ {κ} : {W : Type κ} → Result (Unit {0}) → Result W → Result W
check >> next = check >>= λ _. next

-- A method's outcome: the object after the call, and what the call returned or raised.
abbrev pub Outcome {ℓ} : Type ℓ → Type 0 → Type ℓ
Outcome S A = S × Result A

-- A step that raises ends the method and leaves the object as it is.
abbrev pub attempt {ℓ} :
    {S : Type ℓ} {A : Type 0} {B : Type 0} → Result A → S → (A → Outcome S B) → Outcome S B
attempt (ok a) s f = f a
attempt (err e) s f = (s, err e)

pub ok_inj : {A : Type 0} (x y : A) → ◌≡◌ {A = Result A} (ok x) (ok y) → x ≡ y
ok_inj x y h = cc

pub Result-cases {ℓ} :
    {A : Type ℓ} (r : Result A) → ((a : A) × (r ≡ ok a)) ⊎ ((e : Error) × (r ≡ err e))
Result-cases (ok a) = inl (a, refl)
Result-cases (err e) = inr (e, refl)

-- What the object satisfies before a step that may raise, and after the steps behind it.
pub attempt_keeps {ℓ κ} :
    {S : Type ℓ} {A B : Type 0} (P : S → Type κ) (r : Result A) (s : S) (f : A → Outcome S B)
    → P s
    → ((a : A) → r ≡ ok a → P (f a).0)
    → P (attempt r s f).0
attempt_keeps P (ok a) s f h k = k a refl
attempt_keeps P (err e) s f h k = h

-- What a call gives, where a step may raise.
pub attempt-cases {ℓ κ} :
    {S : Type ℓ} {A B : Type 0} (P : Outcome S B → Type κ) (r : Result A) (s : S)
    (f : A → Outcome S B)
    → ((e : Error) → r ≡ err e → P (s, err e))
    → ((a : A) → r ≡ ok a → P (f a))
    → P (attempt r s f)
attempt-cases P (ok a) s f h k = k a refl
attempt-cases P (err e) s f h k = h e refl

-- A call that returned has passed each of its steps.
pub attempt-eq-ok {ℓ} :
    {S : Type ℓ} {A B : Type 0} (r : Result A) (s : S) (f : A → Outcome S B) {b : B}
    → (attempt r s f).1 ≡ ok b
    → (a : A) × (r ≡ ok a) × (attempt r s f ≡ f a)
attempt-eq-ok (ok a) s f h = (a, refl, refl)
attempt-eq-ok (err e) s f h = cc

-- A loop that converts each element, or raises at the first that it cannot convert.
abbrev pub traverse {ℓ κ} : {A : Type ℓ} {B : Type κ} → (A → Result B) → List A → Result (List B)
traverse f [] = ok []
traverse f (x ∷ xs) = do y ← f x; ys ← traverse f xs; ok (y ∷ ys)

-- A chain that returned has passed each of its steps.
pub bind_returned {ℓ κ} :
    {V : Type ℓ} {W : Type κ} (r : Result V) (next : V → Result W) {w : W}
    → (r >>= next) ≡ ok w
    → (v : V) × (r ≡ ok v) × (next v ≡ ok w)
bind_returned (ok v) next h = (v, refl, h)
bind_returned (err e) next h = absurd (cc)

pub raise_if_returned : (b : Bool) (e : Error) {u : Unit {0}} → raise_if b e ≡ ok u → b ≡ false
raise_if_returned true e h = absurd (cc)
raise_if_returned false e h = refl

pub or_raise_returned {ℓ} :
    {A : Type ℓ} (o : Option A) (e : Error) {a : A} → or_raise o e ≡ ok a → o ≡ some a
or_raise_returned none e h = absurd (cc)
or_raise_returned (some a) e h = cc

pub guard_returned {ℓ} :
    {A : Type ℓ} (b : Bool) (e : Error) (s t : A)
    → (if b then ok s else err e) ≡ ok t
    → (b ≡ true) × (s ≡ t)
guard_returned true e s t h = (refl, cc)
guard_returned false e s t h = absurd (cc)
