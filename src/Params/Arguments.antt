-- ===== src/Params/Arguments.antt =====
-- core/src/endbot_core/script_params.py: the arguments of a run, checked against the declarations (`arguments`).
use Prim.Native.Char.{code}
use endbot.Prelude.{
  ℕ, Bool, true, false, not, ◌||◌, Option, none, some, List, [], ◌∷◌, String, ◌==◌, leb, any,
  nat_eq, find_first, concat, if◌then◌else◌, Dict, lookup, has_key, Json, null, bool, as_str,
  get_json, Error, value_error, type_error, localized, Result, ok, err, raise_if, or_raise, PyText,
  to_dict, obj, arr, to_list, ◌>>=◌, ◌>>◌,
}
use endbot.Registry.{utf8_length}
use endbot.Params.{declarations, split_named, is_choice}

-- Python's floats, as far as the code uses them: `float` of a text and of any other value, the sum,
-- and `math.isfinite` of a float and of a JSON number. Nothing is assumed of them.
pub record Floats : Type 1 where
  pub Float : Type 0
  pub of_text : String → Result Float
  pub of_json : Json → Result Float
  pub add : Float → Float → Float
  pub zero : Float
  pub is_finite : Float → Bool
  pub is_finite_json : Json → Bool

-- What the caller has: the groups and the Bots that it sees, by name, and where it stands.
pub record Scene (Float : Type 0) : Type 0 where
  pub group_named : String → Result String
  pub bots : List String
  pub origin : Option (Float × Float × Float)

-- A checked argument.
pub data Value (Float : Type 0) : Type 0 where
  text : String → Value Float
  flag : Bool → Value Float
  number : Float → Value Float
  position : Float → Float → Float → Value Float

-- `value.startswith(mark)`, of one character, with what stands behind it.
abbrev pub behind : ℕ → String → Option String
behind mark String.[] = none
behind mark (String.◌∷◌ c s) = if nat_eq (code c) mark then some s else none

-- `except (ValueError, TypeError, StopIteration, AttributeError)`; `LocalizedError` is a `ValueError`.
unfoldable pub refused_as : Error → Error
refused_as value_error = localized
refused_as type_error = localized
refused_as e = e

unfoldable pub refuse : {A : Type 0} → Result A → Result A
refuse (ok a) = ok a
refuse (err e) = err (refused_as e)

-- `split` is the method of `str` without an argument.
module _ (py : PyText) (split : String → List String) (floats : Floats) where
  -- The test that a result is finite.
  unfoldable pub finite : floats.Float → Result floats.Float
  finite f = if floats.is_finite f then ok f else err value_error

  -- A coordinate, relative to the caller if it starts with `~`.
  unfoldable pub axis_value : Option floats.Float → String → Result floats.Float
  axis_value start token = elim (behind b'~' token) [
    | none ↦ floats.of_text token >>= λ f. ok (floats.add f floats.zero)
    | some offset ↦ do
      from ← or_raise start value_error
      f ← floats.of_text (if offset == "" then "0" else offset)
      ok (floats.add f from)
  ]

  unfoldable pub coordinate : Option floats.Float → String → Result floats.Float
  coordinate start token = axis_value start token >>= finite

  unfoldable pub position_of : Scene floats.Float → List String → Result (Value floats.Float)
  position_of scene (a ∷ b ∷ c ∷ []) = do
    x ← coordinate (elim scene.origin [ none ↦ none | some o ↦ some o.0 ]) a
    y ← coordinate (elim scene.origin [ none ↦ none | some o ↦ some o.1 ]) b
    z ← coordinate (elim scene.origin [ none ↦ none | some o ↦ some o.2 ]) c
    ok (position x y z)
  position_of scene _ = err value_error

  unfoldable pub group_of : Scene floats.Float → Json → Result (Value floats.Float)
  group_of scene v = do
    t ← or_raise (as_str v) value_error
    given ← or_raise (behind b'#' t) value_error
    name ← scene.group_named given
    ok (text (concat "#" name))

  unfoldable pub bot_of : Scene floats.Float → Json → Result (Value floats.Float)
  bot_of scene v = do
    t ← or_raise (as_str v) value_error
    name ← or_raise (find_first (λ b. py.casefold b == py.casefold t) scene.bots) value_error
    ok (text name)

  abbrev pub is_number_kind : Json → Bool
  is_number_kind null = false
  is_number_kind (bool _) = false
  is_number_kind _ = true

  unfoldable pub number_of : Json → Result (Value floats.Float)
  number_of v = do
    raise_if (not (is_number_kind v)) value_error
    given ← elim (as_str v) [ none ↦ floats.of_json v | some t ↦ floats.of_text t ]
    f ← finite given
    ok (number f)

  unfoldable pub boolean_of : Json → Result (Value floats.Float)
  boolean_of (bool b) = ok (flag b)
  boolean_of v = do
    t ← or_raise (as_str v) value_error
    raise_if (not (py.lower t == "true" || py.lower t == "false")) value_error
    ok (flag (py.lower t == "true"))

  unfoldable pub choice_of : Dict Json → Json → Result (Value floats.Float)
  choice_of spec v = do
    t ← or_raise (as_str v) value_error
    raise_if (not (is_choice v spec)) value_error
    ok (text t)

  unfoldable pub string_of : Json → Result (Value floats.Float)
  string_of v = do
    t ← or_raise (as_str v) value_error
    raise_if (not (leb (utf8_length t) 4096)) value_error
    ok (text t)

  -- The branches on the kind.
  unfoldable pub convert_kind :
      String → Scene floats.Float → Dict Json → Json → Result (Value floats.Float)
  convert_kind kind scene spec v =
      if kind == "group"
      then group_of scene v
      else if kind == "bot"
      then bot_of scene v
      else if kind == "pos"
      then position_of scene (elim (as_str v) [ none ↦ [] | some t ↦ split t ])
      else if kind == "number"
      then number_of v
      else if kind == "boolean"
      then boolean_of v
      else if kind == "choice"
      then choice_of spec v
      else string_of v

  unfoldable pub convert : Scene floats.Float → Dict Json → Json → Result (Value floats.Float)
  convert scene spec v =
      or_raise (as_str (get_json "type" spec)) type_error >>= λ kind. convert_kind kind scene spec v

  -- `supplied.get(name, spec.get("default"))`
  abbrev pub value_of : Dict Json → String → Dict Json → Json
  value_of supplied name spec = elim (lookup name supplied) [
    | none ↦ get_json "default" spec
    | some v ↦ v
  ]

  unfoldable pub convert_all :
      Scene floats.Float → Dict Json → Dict (Dict Json) → Result (Dict (Value floats.Float))
  convert_all scene supplied [] = ok []
  convert_all scene supplied ((name, spec) ∷ d) = do
    v ← refuse (convert scene spec (value_of supplied name spec))
    rest ← convert_all scene supplied d
    ok ((name, v) ∷ rest)

  -- The supplied values by name: a list is split, a dict is taken as it is.
  unfoldable pub by_name : Dict (Dict Json) → Json → Result (Dict Json)
  by_name schema (arr vs) = split_named schema (to_list vs)
  by_name schema (obj fs) = ok (to_dict fs)
  by_name schema _ = err localized

  unfoldable pub arguments : Scene floats.Float → Json → Json → Result (Dict (Value floats.Float))
  arguments scene schema supplied = do
    declared ← declarations floats.is_finite_json schema
    given ← by_name declared supplied
    raise_if (any (λ e. not (has_key e.0 declared)) given) localized
    convert_all scene given declared
