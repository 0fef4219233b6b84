-- ===== src/Params.antt =====
-- core/src/endbot_core/script_params.py: the parameters that a script declares, and the arguments of a run.
mod Assigned
mod Placing
mod Declared
mod Arguments
mod Fitting
mod Tests
use Prim.Native.Char.{code}
use Prim.Native.String
use endbot.Prelude.{
  ℕ, Bool, true, false, not, ◌&&◌, ◌||◌, Option, none, some, List, [], ◌∷◌, ◌++◌, map, String, ◌==◌,
  leb, ltb, nat_eq, length, any, all, contains, filter_map, filter, has_repeat, sorted_set, chars,
  if◌then◌else◌, Dict, lookup, insert, has_key, Json, null, bool, int, str, real, as_dict, as_list,
  as_str, get_json, has_unknown, Result, ok, err, localized, raise_if, or_raise, traverse, is_some,
  ◌>>=◌, ◌>>◌,
}
use endbot.Groups.{is_letter, is_word}
use endbot.Scripts.{take}

-- `KINDS`, `BASIC_CAPABILITIES`; `DECLARED_CAPABILITIES` is empty.
abbrev pub kinds : List String
kinds = "group" ∷ "bot" ∷ "pos" ∷ "number" ∷ "boolean" ∷ "string" ∷ "choice" ∷ []

abbrev pub basic_capabilities : List String
basic_capabilities = "act.bot" ∷ "read.world" ∷ "wait" ∷ "log" ∷ []

-- A list whose elements are all texts.
abbrev pub all_texts : List Json → Option (List String)
all_texts js =
    let texts = filter_map as_str js in
    if nat_eq (length texts) (length js) then some texts else none

-- `required` of a value other than `None`, and of any.
unfoldable pub required_of : Json → Result (List String)
required_of j = do
  given ← or_raise (as_list j) localized
  raise_if (not (leb (length given) 32)) localized
  names ← or_raise (all_texts given) localized
  raise_if (has_repeat names) localized
  raise_if (any (λ n. not (contains n basic_capabilities)) names) localized
  ok (sorted_set (filter (λ n. not (contains n basic_capabilities)) names))

unfoldable pub required : Json → Result (List String)
required null = ok []
required j = required_of j

-- `[A-Za-z_][A-Za-z0-9_]{0,31}`
unfoldable pub is_param_name : String → Bool
is_param_name String.[] = false
is_param_name (String.◌∷◌ c s) = is_letter (code c) && is_word s && leb (chars s) 31

-- The options of a choice.
unfoldable pub check_choices : Dict Json → Result (Unit {0})
check_choices spec = do
  given ← or_raise (as_list (get_json "choices" spec)) localized
  raise_if (not (leb 1 (length given) && leb (length given) 32)) localized
  choices ← or_raise (all_texts given) localized
  raise_if (any (λ c. not (leb 1 (chars c) && leb (chars c) 64)) choices) localized
  raise_if (has_repeat choices) localized

abbrev pub is_number : Json → Bool
is_number (int _) = true
is_number real = true
is_number _ = false

abbrev pub is_bool : Json → Bool
is_bool (bool _) = true
is_bool _ = false

-- `default in spec["choices"]`
abbrev pub is_choice : Json → Dict Json → Bool
is_choice default spec = elim (as_str default) [
  | none ↦ false
  | some d ↦ elim (as_list (get_json "choices" spec)) [
    | none ↦ false
    | some cs ↦ contains d (filter_map as_str cs)
  ]
]

-- `finite` is `math.isfinite` of a JSON number.
module _ (finite : Json → Bool) where
  unfoldable pub is_default : String → Json → Dict Json → Bool
  is_default kind default spec =
      kind == "number" && is_number default && finite default
      || kind == "boolean" && is_bool default
      || contains kind ("group" ∷ "bot" ∷ "pos" ∷ "string" ∷ []) && is_some (as_str default)
      || kind == "choice" && is_choice default spec

  -- The keys that a declaration may have.
  abbrev pub allowed_keys : Dict Json → List String
  allowed_keys spec = elim (as_str (get_json "type" spec)) [
    | none ↦ "name" ∷ "type" ∷ "default" ∷ []
    | some kind ↦
        if kind == "choice"
        then "name" ∷ "type" ∷ "default" ∷ "choices" ∷ []
        else "name" ∷ "type" ∷ "default" ∷ []
  ]

  -- A turn of the loop of `declarations`.
  unfoldable pub declare : Dict (Dict Json) → Json → Result (Dict (Dict Json))
  declare d j = do
    spec ← or_raise (as_dict j) localized
    raise_if (has_unknown (allowed_keys spec) spec) localized
    name ← or_raise (as_str (get_json "name" spec)) localized
    raise_if (not (is_param_name name)) localized
    raise_if (has_key name d) localized
    kind ← or_raise (as_str (get_json "type" spec)) localized
    raise_if (not (contains kind kinds)) localized
    if kind == "choice" then check_choices spec else ok tt
    raise_if
        (elim (lookup "default" spec) [
          | none ↦ false
          | some default ↦ not (is_default kind default spec)
        ])
        localized
    ok (insert name spec d)

  unfoldable pub declare_all : Dict (Dict Json) → List Json → Result (Dict (Dict Json))
  declare_all d [] = ok d
  declare_all d (j ∷ js) = declare d j >>= λ d'. declare_all d' js

  unfoldable pub declarations : Json → Result (Dict (Dict Json))
  declarations schema = do
    specs ← or_raise (as_list schema) localized
    raise_if (ltb 32 (length specs)) localized
    declare_all [] specs

-- What stands before the first `=` of a text, and what behind it.
unfoldable pub cut : String → Option (String × String)
cut String.[] = none
cut (String.◌∷◌ c s) =
    let rest = cut s in
    if nat_eq (code c) b'='
    then some (String.[], s)
    else elim rest [ none ↦ none | some (name, value) ↦ some (String.◌∷◌ c name, value) ]

-- `NAMED.fullmatch(value)`, of a declared name.
abbrev pub named_in : {V : Type 0} → Dict V → Json → Option (String × String)
named_in schema v = elim (as_str v) [
  | none ↦ none
  | some t ↦ elim (cut t) [
    | none ↦ none
    | some (name, value) ↦
        if is_param_name name && has_key name schema then some (name, value) else none
  ]
]

-- The positional values and the named ones.
abbrev pub Split : Type 0
Split = List Json × Dict Json

-- A turn of the loop of `split_named`, for a value that names a parameter or not.
unfoldable pub split_value : Json → Split → Option (String × String) → Result Split
split_value v (positional, named) (some (name, value)) =
    if has_key name named then err localized else ok (positional, insert name (str value) named)
split_value v (positional, []) none = ok (positional ++ v ∷ [], [])
split_value v (positional, _ ∷ _) none = err localized

module _ {V : Type 0} (schema : Dict V) where
  unfoldable pub split_values : Split → List Json → Result Split
  split_values s [] = ok s
  split_values s (v ∷ vs) = split_value v s (named_in schema v) >>= λ s'. split_values s' vs

-- `dict(zip(schema, positional))`
unfoldable pub zip_names : {V : Type 0} → Dict V → List Json → Dict Json
zip_names [] vs = []
zip_names (e ∷ d) [] = []
zip_names (e ∷ d) (v ∷ vs) = (e.0, v) ∷ zip_names d vs

-- `{**d, **e}`
unfoldable pub update : Dict Json → Dict Json → Dict Json
update d [] = d
update d ((k, v) ∷ e) = update (insert k v d) e

-- `split_named`
unfoldable pub split_named : {V : Type 0} → Dict V → List Json → Result (Dict Json)
split_named schema values = do
  s ← split_values schema ([], []) values
  raise_if (ltb (length schema) (length s.0)) localized
  raise_if (any (λ e. has_key e.0 s.1) (take (length s.0) schema)) localized
  ok (update (zip_names schema s.0) s.1)
