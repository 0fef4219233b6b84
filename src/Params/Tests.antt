-- ===== src/Params/Tests.antt =====
-- The parameters of a script on concrete values.
use endbot.Prelude.{
  ◌≡◌, refl, true, false, some, none, [], ◌∷◌, ◌≤◌, ◌+◌, ℕ, Bool, String, List, ok, err, localized,
  Dict, Json, str, bool, arr, obj, cons, nil, field, end, length, Entries, pos, int,
}
use endbot.Samples.{plain_text}
use endbot.Params.{required, declarations, split_named}
use endbot.Params.Placing.{AreAssigned}
use endbot.Params.Assigned.{AreDeclared, split_named-AreDeclared}
use endbot.Params.Declared.{IsDeclaration, declarations-IsDeclaration}
use endbot.Params.Arguments.{Floats, Scene, Value, text, flag, arguments}
use endbot.Params.Fitting.{agree, arguments-agree}

abbrev who_spec : Dict Json
who_spec = ("name", str "who") ∷ ("type", str "string") ∷ []

abbrev dry_spec : Dict Json
dry_spec = ("name", str "dry") ∷ ("type", str "boolean") ∷ ("default", bool false) ∷ []

abbrev schema : Json
schema = arr (
    cons (obj (field "name" (str "who") (field "type" (str "string") end))) (
      cons
        (obj (
          field "name" (str "dry")
            (field "type" (str "boolean") (field "default" (bool false) end))))
        nil))

abbrev declared : Dict (Dict Json)
declared = ("who", who_spec) ∷ ("dry", dry_spec) ∷ []

schema_accepted : declarations (λ _. true) schema ≡ ok declared
unfolding declarations endbot.Params.declare_all endbot.Params.declare endbot.Prelude.lookup
    endbot.Params.is_param_name endbot.Groups.is_word endbot.Prelude.insert endbot.Params.is_default
schema_accepted = refl

declarations_hold : Entries (IsDeclaration (λ _. true)) declared × (2 ≤ 32)
declarations_hold = declarations-IsDeclaration (λ _. true) schema declared schema_accepted

abbrev values : List Json
values = str "Steve" ∷ str "dry=true" ∷ []

abbrev given : Dict Json
given = ("who", str "Steve") ∷ ("dry", str "true") ∷ []

values_split : split_named declared values ≡ ok given
unfolding split_named endbot.Params.split_values endbot.Params.split_value endbot.Params.cut
    endbot.Params.is_param_name endbot.Groups.is_word endbot.Prelude.lookup endbot.Prelude.insert
    endbot.Params.update endbot.Params.zip_names
values_split = refl

split_named-AreDeclared_example :
    AreAssigned declared given declared values
    × AreDeclared declared given
    × (length given ≡ length values)
unfolding endbot.Prelude.lookup
split_named-AreDeclared_example =
    split_named-AreDeclared declared values given (tt, refl, (tt, refl, tt)) values_split

given_twice : split_named declared (str "Steve" ∷ str "who=Alex" ∷ []) ≡ err localized
unfolding split_named endbot.Params.split_values endbot.Params.split_value endbot.Params.cut
    endbot.Params.is_param_name endbot.Groups.is_word endbot.Prelude.lookup endbot.Prelude.insert
given_twice = refl

abbrev whole : Floats
whole = record {
  Float = ℕ;
  of_text = λ _. err localized;
  of_json = λ _. ok 1;
  add = λ a b. a + b;
  zero = 0;
  is_finite = λ _. true;
  is_finite_json = λ _. true;
}

abbrev scene : Scene ℕ
scene = record { group_named = λ n. ok n; bots = "Digger" ∷ []; origin = none }

run_arguments :
    arguments plain_text
      (λ t. t ∷ [])
      whole
      scene
      schema
      (arr (cons (str "Steve") (cons (str "dry=true") nil)))
    ≡ ok (("who", text "Steve") ∷ ("dry", flag true) ∷ [])
unfolding arguments declarations endbot.Params.declare_all endbot.Params.declare
    endbot.Prelude.lookup endbot.Params.is_param_name endbot.Groups.is_word endbot.Prelude.insert
    endbot.Params.is_default endbot.Params.Arguments.by_name split_named endbot.Params.split_values
    endbot.Params.split_value endbot.Params.cut endbot.Params.update endbot.Params.zip_names
    endbot.Params.Arguments.convert_all endbot.Params.Arguments.boolean_of
    endbot.Params.Arguments.convert endbot.Params.Arguments.convert_kind
    endbot.Params.Arguments.refuse endbot.Params.Arguments.string_of endbot.Registry.utf8_length
run_arguments = refl

arguments-agree_example :
    (d : Dict (Dict Json)) × (declarations (λ _. true) schema ≡ ok d)
    × (agree plain_text
          (λ t. t ∷ [])
          whole
          scene
          d
          (("who", text "Steve") ∷ ("dry", flag true) ∷ [])
        ≡ true)
arguments-agree_example =
    arguments-agree plain_text (λ t. t ∷ []) whole scene schema
      (arr (cons (str "Steve") (cons (str "dry=true") nil)))
      (("who", text "Steve") ∷ ("dry", flag true) ∷ []) run_arguments

nothing_required : required (arr (cons (str "wait") (cons (str "log") nil))) ≡ ok []
unfolding required endbot.Params.required_of endbot.Prelude.sorted_set
nothing_required = refl

required_unknown : required (arr (cons (str "observe.chat") nil)) ≡ err localized
unfolding required endbot.Params.required_of
required_unknown = refl
