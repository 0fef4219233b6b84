-- ===== src/Prelude/Lists.antt =====
-- Lists with Boolean tests, and lists of texts used as sets.
use Prim.Native.Nat.{ℕ, suc}
use Prim.Native.String.{String}
use mathlib.Core.Path.{◌≡◌, refl, sym, subst, ◌∙◌}
use mathlib.Core.Logic.{inl, inr}
use mathlib.Core.Bool.{Bool, true, false, ◌&&◌, ◌||◌}
use mathlib.Core.List.{List, [], ◌∷◌, ◌++◌}
use mathlib.Core.Option.{Option, none, some}
use native.Mathlib.Omega.{arith}
use text.Mathlib.Text.{◌==◌}
use text.Mathlib.TextEquality.{eq_iff}
use endbot.Prelude.Tests.{Bool-cases, if◌then◌else◌, str_leb}

module _ {ℓ} {A : Type ℓ} where
  abbrev pub length : List A → ℕ
  length [] = 0
  length (x ∷ xs) = suc (length xs)

  abbrev pub any : (A → Bool) → List A → Bool
  any p [] = false
  any p (x ∷ xs) = p x || any p xs

  abbrev pub all : (A → Bool) → List A → Bool
  all p [] = true
  all p (x ∷ xs) = p x && all p xs

  abbrev pub filter : (A → Bool) → List A → List A
  filter p [] = []
  filter p (x ∷ xs) = let rest = filter p xs in if p x then x ∷ rest else rest

  -- `next((x for x in xs if p(x)), None)`
  abbrev pub find_first : (A → Bool) → List A → Option A
  find_first p [] = none
  find_first p (x ∷ xs) = if p x then some x else find_first p xs

  abbrev pub All {κ} : (A → Type κ) → List A → Type κ
  All P [] = Unit
  All P (x ∷ xs) = P x × All P xs

  pub any-append : (p : A → Bool) (xs ys : List A) → any p (xs ++ ys) ≡ any p xs || any p ys
  any-append p [] ys = refl
  any-append p (x ∷ xs) ys = ground (arith, any-append p xs ys)

  pub any-filter : (p q : A → Bool) (xs : List A) → any p (filter q xs) ≡ any (λ x. q x && p x) xs
  any-filter p q [] = refl
  any-filter p q (x ∷ xs) = ground (arith, any-filter p q xs)

  pub All-filter {κ} :
      (P : A → Type κ) (q : A → Bool) (xs : List A) → All P xs → All P (filter q xs)
  All-filter P q [] h = tt
  All-filter P q (x ∷ xs) h = ground (arith, All-filter P q xs h.1)

  pub All-append {κ} : (P : A → Type κ) (xs ys : List A) → All P xs → All P ys → All P (xs ++ ys)
  All-append P [] ys h k = k
  All-append P (x ∷ xs) ys h k = (h.0, All-append P xs ys h.1 k)

-- What `find_first` gives is in the list, and passes the test.
pub All-find_first {ℓ κ} :
    {A : Type ℓ} (P : A → Type κ) (p : A → Bool) (xs : List A) {a : A}
    → All P xs
    → find_first p xs ≡ some a
    → P a × (p a ≡ true)
All-find_first P p [] h e = absurd (cc)
All-find_first P p (x ∷ xs) {a} h e = elim (Bool-cases (p x)) [
  | inl yes_x ↦
      let same : x ≡ a = ground arith in (subst P same h.0, subst (λ b. p b ≡ true) same yes_x)
  | inr no_x ↦ All-find_first P p xs h.1 (sym (rw no_x) ∙ e)
]

pub find_first_holds {ℓ} :
    {A : Type ℓ} (p : A → Bool) (xs : List A) {a : A} → find_first p xs ≡ some a → p a ≡ true
find_first_holds p [] e = absurd (cc)
find_first_holds p (x ∷ xs) {a} e = elim (Bool-cases (p x)) [
  | inl yes_x ↦ let same : x ≡ a = ground arith in subst (λ b. p b ≡ true) same yes_x
  | inr no_x ↦ find_first_holds p xs (sym (rw no_x) ∙ e)
]

-- `k in xs`
abbrev pub contains : String → List String → Bool
contains k = any (λ x. x == k)

-- `sorted(set(xs))`
pub place : String → List String → List String
place x [] = x ∷ []
place x (y ∷ ys) =
    let rest = place x ys in if x == y then y ∷ ys else if str_leb x y then x ∷ y ∷ ys else y ∷ rest

unfoldable pub sorted_set : List String → List String
unfolding place
sorted_set [] = []
sorted_set (x ∷ xs) = place x (sorted_set xs)

contains-place :
    (k x : String) (ys : List String) → contains k (place x ys) ≡ ((x == k) || contains k ys)
unfolding place
contains-place k x [] = refl
contains-place k x (y ∷ ys) =
    ground (arith, contains-place k x ys, eq_iff x y, eq_iff x k, eq_iff y k)

pub contains-sorted_set :
    (k : String) (xs : List String) → contains k (sorted_set xs) ≡ contains k xs
unfolding sorted_set
contains-sorted_set k [] = refl
contains-sorted_set k (x ∷ xs) =
    ground (arith, contains-place k x (sorted_set xs), contains-sorted_set k xs)

All-place {κ} :
    (P : String → Type κ) (x : String) (ys : List String) → P x → All P ys → All P (place x ys)
unfolding place
All-place P x [] h k = (h, tt)
All-place P x (y ∷ ys) h k = ground (arith, All-place P x ys h k.1)

pub All-sorted_set {κ} : (P : String → Type κ) (xs : List String) → All P xs → All P (sorted_set xs)
unfolding sorted_set
All-sorted_set P [] h = tt
All-sorted_set P (x ∷ xs) h = All-place P x (sorted_set xs) h.0 (All-sorted_set P xs h.1)

module _ {ℓ κ} {A : Type ℓ} {B : Type κ} where
  -- `[y for x in xs if (y := f(x)) is not None]`
  abbrev pub filter_map : (A → Option B) → List A → List B
  filter_map f [] = []
  filter_map f (x ∷ xs) =
      let rest = filter_map f xs in elim (f x) [ none ↦ rest | some y ↦ y ∷ rest ]
