-- ===== src/Prelude/Documents.antt =====
-- JSON documents, as `json.loads` returns them. An `obj` holds the fields of a dict in order.
use Prim.Native.Nat.{ℕ}
use Prim.Native.String.{String}
use mathlib.Core.Path.{◌≡◌, refl, ap}
use mathlib.Core.Bool.{Bool, false, not}
use mathlib.Core.List.{List, [], ◌∷◌}
use mathlib.Core.Option.{Option, none, some}
use endbot.Prelude.Tests.{nat_eq}
use endbot.Prelude.Lists.{any, contains}
use endbot.Prelude.Dicts.{Dict, lookup}

-- `negsuc n` is -(n + 1).
pub data ℤ : Type 0 where
  pos : ℕ → ℤ
  negsuc : ℕ → ℤ

-- `real` is a number that is not integral; the stores never compute with one.
mutual
  pub data Json : Type 0 where
    null : Json
    bool : Bool → Json
    int : ℤ → Json
    real : Json
    str : String → Json
    arr : Items → Json
    obj : Fields → Json

  pub data Items : Type 0 where
    nil : Items
    cons : Json → Items → Items

  pub data Fields : Type 0 where
    end : Fields
    field : String → Json → Fields → Fields

abbrev pub to_list : Items → List Json
to_list nil = []
to_list (cons j js) = j ∷ to_list js

abbrev pub of_list : List Json → Items
of_list [] = nil
of_list (j ∷ js) = cons j (of_list js)

abbrev pub to_dict : Fields → Dict Json
to_dict end = []
to_dict (field k j fs) = (k, j) ∷ to_dict fs

abbrev pub of_dict : Dict Json → Fields
of_dict [] = end
of_dict ((k, j) ∷ d) = field k j (of_dict d)

pub to_list-of_list : (js : List Json) → to_list (of_list js) ≡ js
to_list-of_list [] = refl
to_list-of_list (j ∷ js) = ap (◌∷◌ j) (to_list-of_list js)

pub to_dict-of_dict : (d : Dict Json) → to_dict (of_dict d) ≡ d
to_dict-of_dict [] = refl
to_dict-of_dict (e ∷ d) = ap (◌∷◌ e) (to_dict-of_dict d)

-- `isinstance(j, dict)`, `isinstance(j, list)` and `isinstance(j, str)`, with the value.
abbrev pub as_dict : Json → Option (Dict Json)
as_dict (obj fs) = some (to_dict fs)
as_dict _ = none

abbrev pub as_list : Json → Option (List Json)
as_list (arr js) = some (to_list js)
as_list _ = none

abbrev pub as_str : Json → Option String
as_str (str s) = some s
as_str _ = none

-- `document.get(key)`: a missing key reads as `None`.
abbrev pub get_json : String → Dict Json → Json
get_json k d = elim (lookup k d) [ none ↦ null | some j ↦ j ]

-- `document.get("version") == 1`, which in Python also holds of `True`.
abbrev pub is_version_1 : Json → Bool
is_version_1 (int (pos n)) = nat_eq n 1
is_version_1 (bool b) = b
is_version_1 _ = false

-- `set(document) - {allowed}` is not empty.
abbrev pub has_unknown : List String → Dict Json → Bool
has_unknown allowed = any (λ e. not (contains e.0 allowed))
