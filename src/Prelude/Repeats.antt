-- ===== src/Prelude/Repeats.antt =====
-- Lists of texts without repetition: `len(set(xs)) == len(xs)`.
use Prim.Native.String.{String}
use mathlib.Core.Path.{◌≡◌, refl}
use mathlib.Core.Bool.{Bool, false, ◌||◌}
use mathlib.Core.List.{List, [], ◌∷◌, ◌++◌, map}
use native.Mathlib.Omega.{arith}
use text.Mathlib.Text.{◌==◌}
use text.Mathlib.TextEquality.{eq_iff}
use endbot.Prelude.Lists.{any-append, filter, contains}

abbrev pub has_repeat : List String → Bool
has_repeat [] = false
has_repeat (x ∷ xs) = contains x xs || has_repeat xs

-- Only a text that is there makes a repetition when it is put at the end.
pub has_repeat-snoc :
    (xs : List String) (x : String)
    → has_repeat xs ≡ false
    → contains x xs ≡ false
    → has_repeat (xs ++ x ∷ []) ≡ false
has_repeat-snoc [] x h k = refl
has_repeat-snoc (y ∷ ys) x h k =
    ground
      (arith, has_repeat-snoc ys x, any-append (λ z. z == y) ys (x ∷ []), eq_iff x y, eq_iff y x)

contains-map-filter :
    {A : Type 0} (k : String) (f : A → String) (p : A → Bool) (xs : List A)
    → contains k (map f xs) ≡ false
    → contains k (map f (filter p xs)) ≡ false
contains-map-filter k f p [] h = refl
contains-map-filter k f p (x ∷ xs) h = ground (arith, contains-map-filter k f p xs)

-- Leaving elements out makes no repetition.
pub has_repeat-filter :
    {A : Type 0} (f : A → String) (p : A → Bool) (xs : List A)
    → has_repeat (map f xs) ≡ false
    → has_repeat (map f (filter p xs)) ≡ false
has_repeat-filter f p [] h = refl
has_repeat-filter f p (x ∷ xs) h =
    ground (arith, has_repeat-filter f p xs, contains-map-filter (f x) f p xs)

contains-filter_absent :
    (k : String) (p : String → Bool) (xs : List String)
    → contains k xs ≡ false
    → contains k (filter p xs) ≡ false
contains-filter_absent k p [] h = refl
contains-filter_absent k p (x ∷ xs) h = ground (arith, contains-filter_absent k p xs)

pub has_repeat_kept :
    (p : String → Bool) (xs : List String)
    → has_repeat xs ≡ false
    → has_repeat (filter p xs) ≡ false
has_repeat_kept p [] h = refl
has_repeat_kept p (x ∷ xs) h = ground (arith, has_repeat_kept p xs, contains-filter_absent x p xs)
