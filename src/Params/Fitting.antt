-- ===== src/Params/Fitting.antt =====
-- The arguments that a run gets suit the declarations.
use endbot.Prelude.{
  ◌≡◌, refl, sym, subst, ◌∙◌, inl, inr, Bool, true, false, not, ◌&&◌, ◌||◌, Option, some, none,
  List, [], ◌∷◌, String, ◌==◌, arith, leb, any, contains, find_first, eq_refl, if◌then◌else◌,
  concat, Dict, has_key, Json, bool, str, null, int, real, arr, obj, as_str, get_json, value_error,
  type_error, localized, Result, ok, ok_inj, err, guard_returned, or_raise, or_raise_returned,
  raise_if, bind_returned, Bool-cases, PyText,
}
use endbot.Registry.{utf8_length}
use endbot.Params.{declarations, is_choice}
use endbot.Params.Arguments.{
  Floats, Scene, Value, text, flag, number, position, behind, refuse, finite, axis_value,
  coordinate, position_of, group_of, bot_of, is_number_kind, number_of, boolean_of, choice_of,
  string_of, convert_kind, convert, value_of, convert_all, by_name, arguments,
}

module _ (py : PyText) (split : String → List String) (floats : Floats) where
  abbrev is_text : (String → Bool) → Value floats.Float → Bool
  is_text p (text t) = p t
  is_text p _ = false

  abbrev is_flag : Value floats.Float → Bool
  is_flag (flag _) = true
  is_flag _ = false

  abbrev is_finite_number : Value floats.Float → Bool
  is_finite_number (number f) = floats.is_finite f
  is_finite_number _ = false

  abbrev is_finite_position : Value floats.Float → Bool
  is_finite_position (position x y z) =
      floats.is_finite x && floats.is_finite y && floats.is_finite z
  is_finite_position _ = false

  -- What a value of a kind is: the name of a Bot of the scene, a finite position or number, a truth
  -- value, one of the options, or a text of at most 4096 bytes.
  unfoldable pub fits : String → Scene floats.Float → Dict Json → Value floats.Float → Bool
  fits kind scene spec v =
      if kind == "group"
      then is_text (λ t. true) v
      else if kind == "bot"
      then is_text (λ t. contains t scene.bots) v
      else if kind == "pos"
      then is_finite_position v
      else if kind == "number"
      then is_finite_number v
      else if kind == "boolean"
      then is_flag v
      else if kind == "choice"
      then is_text (λ t. is_choice (str t) spec) v
      else is_text (λ t. leb (utf8_length t) 4096) v

  -- The arguments are those declared, in the order of the declarations, and fit.
  abbrev pub agree : Scene floats.Float → Dict (Dict Json) → Dict (Value floats.Float) → Bool
  agree scene [] [] = true
  agree scene ((n, spec) ∷ d) ((m, v) ∷ r) =
      n == m
      && elim (as_str (get_json "type" spec)) [ none ↦ false | some kind ↦ fits kind scene spec v ]
      && agree scene d r
  agree scene _ _ = false

  contains_found :
      (p : String → Bool) (bs : List String) (b : String)
      → find_first p bs ≡ some b
      → contains b bs ≡ true
  contains_found p [] b h = absurd (cc)
  contains_found p (x ∷ bs) b h = elim (Bool-cases (p x)) [
    | inl here ↦
        let first : ◌≡◌ {A = Option String} (some x) (some b) = sym (rw here refl) ∙ h in
        let same : x ≡ b = cc in subst (λ y. contains y (x ∷ bs) ≡ true) same (rw eq_refl refl)
    | inr there ↦
        let later : find_first p bs ≡ some b = sym (rw there refl) ∙ h in
        let rest = contains_found p bs b later in ground arith
  ]

  text_fits :
      (p : String → Bool) (t : String) (v : Value floats.Float)
      → ok (text t) ≡ ok v
      → p t ≡ true
      → is_text p v ≡ true
  text_fits p t v h k = subst (λ x. is_text p x ≡ true) (ok_inj (text t) v h) k

  holds : (b : Bool) {u : Unit {0}} → raise_if (not b) value_error ≡ ok u → b ≡ true
  holds true h = refl
  holds false h = absurd (cc)

  group_fits :
      (scene : Scene floats.Float) (j : Json) (v : Value floats.Float)
      → group_of py split floats scene j ≡ ok v
      → is_text (λ t. true) v ≡ true
  unfolding group_of
  group_fits scene j v h =
      let (t, _, h1) = bind_returned (or_raise (as_str j) value_error) _ h in
      let (given, _, h2) = bind_returned (or_raise (behind b'#' t) value_error) _ h1 in
      let (name, _, h3) = bind_returned (scene.group_named given) _ h2 in
      text_fits (λ t. true) (concat "#" name) v h3 refl

  bot_fits :
      (scene : Scene floats.Float) (j : Json) (v : Value floats.Float)
      → bot_of py split floats scene j ≡ ok v
      → is_text (λ t. contains t scene.bots) v ≡ true
  unfolding bot_of
  bot_fits scene j v h =
      let (t, _, h1) = bind_returned (or_raise (as_str j) value_error) _ h in
      let found = λ (b : String). py.casefold b == py.casefold t in
      let (name, f, h2) = bind_returned (or_raise (find_first found scene.bots) value_error) _ h1 in
      text_fits (λ x. contains x scene.bots) name v h2
        (contains_found found scene.bots name (or_raise_returned _ value_error f))

  finite_returned :
      (f g : floats.Float) → finite py split floats f ≡ ok g → floats.is_finite g ≡ true
  unfolding finite
  finite_returned f g h =
      let (fine, same) = guard_returned (floats.is_finite f) value_error f g h in
      subst (λ x. floats.is_finite x ≡ true) same fine

  coordinate_finite :
      (start : Option floats.Float) (token : String) (c : floats.Float)
      → coordinate py split floats start token ≡ ok c
      → floats.is_finite c ≡ true
  unfolding coordinate
  coordinate_finite start token c h =
      let (d, _, f) = bind_returned (axis_value py split floats start token) _ h in
      finite_returned d c f

  position_fits :
      (scene : Scene floats.Float) (tokens : List String) (v : Value floats.Float)
      → position_of py split floats scene tokens ≡ ok v
      → is_finite_position v ≡ true
  unfolding position_of
  position_fits scene [] v h = absurd (cc)
  position_fits scene (a ∷ []) v h = absurd (cc)
  position_fits scene (a ∷ b ∷ []) v h = absurd (cc)
  position_fits scene (a ∷ b ∷ c ∷ d ∷ more) v h = absurd (cc)
  position_fits scene (a ∷ b ∷ c ∷ []) v h =
      let (x, fx, h1) = bind_returned (coordinate py split floats _ a) _ h in
      let (y, fy, h2) = bind_returned (coordinate py split floats _ b) _ h1 in
      let (z, fz, h3) = bind_returned (coordinate py split floats _ c) _ h2 in
      let x_ok = coordinate_finite _ a x fx in
      let y_ok = coordinate_finite _ b y fy in
      let z_ok = coordinate_finite _ c z fz in
      subst (λ w. is_finite_position w ≡ true) (ok_inj (position x y z) v h3)
        (rw (x_ok, y_ok, z_ok) refl)

  number_fits :
      (j : Json) (v : Value floats.Float)
      → number_of py split floats j ≡ ok v
      → is_finite_number v ≡ true
  unfolding number_of
  number_fits j v h =
      let (_, _, h1) =
        bind_returned (raise_if (not (is_number_kind py split floats j)) value_error) _ h in
      let (given, _, h2) =
        bind_returned (elim (as_str j) [ none ↦ floats.of_json j | some t ↦ floats.of_text t ]) _
          h1 in
      let (f, fine, h3) = bind_returned (finite py split floats given) _ h2 in
      subst (λ w. is_finite_number w ≡ true) (ok_inj (number f) v h3) (finite_returned given f fine)

  flag_fits : (b : Bool) (v : Value floats.Float) → ok (flag b) ≡ ok v → is_flag v ≡ true
  flag_fits b v h = subst (λ w. is_flag w ≡ true) (ok_inj (flag b) v h) refl

  boolean_fits :
      (j : Json) (v : Value floats.Float) → boolean_of py split floats j ≡ ok v → is_flag v ≡ true
  unfolding boolean_of
  boolean_fits (bool b) v h = flag_fits b v h
  boolean_fits (str t) v h =
      let (_, _, h2) =
        bind_returned (raise_if (not (py.lower t == "true" || py.lower t == "false")) value_error) _
          h in
      flag_fits (py.lower t == "true") v h2
  boolean_fits null v h = absurd (cc)
  boolean_fits (int n) v h = absurd (cc)
  boolean_fits real v h = absurd (cc)
  boolean_fits (arr js) v h = absurd (cc)
  boolean_fits (obj fs) v h = absurd (cc)

  choice_fits :
      (spec : Dict Json) (j : Json) (v : Value floats.Float)
      → choice_of py split floats spec j ≡ ok v
      → is_text (λ t. is_choice (str t) spec) v ≡ true
  unfolding choice_of
  choice_fits spec j v h =
      let (t, given, h1) = bind_returned (or_raise (as_str j) value_error) _ h in
      let (_, known, h2) = bind_returned (raise_if (not (is_choice j spec)) value_error) _ h1 in
      let same = or_raise_returned (as_str j) value_error given in
      text_fits (λ x. is_choice (str x) spec) t v h2
        (same_choice j t spec same ∙ holds (is_choice j spec) known)
    where
      same_choice :
          (j : Json) (t : String) (spec : Dict Json)
          → as_str j ≡ some t
          → is_choice (str t) spec ≡ is_choice j spec
      same_choice j t spec e = rw (is_choice, e) refl

  string_fits :
      (j : Json) (v : Value floats.Float)
      → string_of py split floats j ≡ ok v
      → is_text (λ t. leb (utf8_length t) 4096) v ≡ true
  unfolding string_of
  string_fits j v h =
      let (t, _, h1) = bind_returned (or_raise (as_str j) value_error) _ h in
      let (_, short, h2) =
        bind_returned (raise_if (not (leb (utf8_length t) 4096)) value_error) _ h1 in
      text_fits (λ x. leb (utf8_length x) 4096) t v h2 (holds (leb (utf8_length t) 4096) short)

  -- Taking a branch on both sides.
  branch :
      (b : Bool) (r r' : Result (Value floats.Float)) (p p' : Bool) (v : Value floats.Float)
      → (r ≡ ok v → p ≡ true)
      → (r' ≡ ok v → p' ≡ true)
      → (if b then r else r') ≡ ok v
      → (if b then p else p') ≡ true
  branch true r r' p p' v k k' h = k h
  branch false r r' p p' v k k' h = k' h

  convert_kind-fits :
      (kind : String) (scene : Scene floats.Float) (spec : Dict Json) (j : Json)
      (v : Value floats.Float)
      → convert_kind py split floats kind scene spec j ≡ ok v
      → fits kind scene spec v ≡ true
  unfolding convert_kind fits
  convert_kind-fits kind scene spec j v =
      branch (kind == "group") _ _ _ _ v (group_fits scene j v) (
        branch (kind == "bot") _ _ _ _ v (bot_fits scene j v) (
          branch (kind == "pos") _ _ _ _ v (position_fits scene _ v) (
            branch (kind == "number") _ _ _ _ v (number_fits j v) (
              branch (kind == "boolean") _ _ _ _ v (boolean_fits j v)
                (branch (kind == "choice") _ _ _ _ v (choice_fits spec j v) (string_fits j v))))))

  refuse_returned :
      (r : Result (Value floats.Float)) (v : Value floats.Float) → refuse r ≡ ok v → r ≡ ok v
  unfolding refuse
  refuse_returned (ok a) v h = h
  refuse_returned (err e) v h = absurd (cc)

  convert_all-agree :
      (scene : Scene floats.Float) (supplied : Dict Json) (d : Dict (Dict Json))
      (r : Dict (Value floats.Float))
      → convert_all py split floats scene supplied d ≡ ok r
      → agree scene d r ≡ true
  unfolding convert_all convert
  convert_all-agree scene supplied [] r h =
      subst (λ x. agree scene [] x ≡ true) (ok_inj [] r h) refl
  convert_all-agree scene supplied ((n, spec) ∷ d) r h =
      let j = value_of py split floats supplied n spec in
      let (v, c, h1) = bind_returned (refuse (convert py split floats scene spec j)) _ h in
      let (rest, cs, h2) = bind_returned (convert_all py split floats scene supplied d) _ h1 in
      let (kind, typed, converted) =
        bind_returned (or_raise (as_str (get_json "type" spec)) type_error) _
          (refuse_returned (convert py split floats scene spec j) v c) in
      let of_kind = or_raise_returned (as_str (get_json "type" spec)) type_error typed in
      let fit = convert_kind-fits kind scene spec j v converted in
      let others = convert_all-agree scene supplied d rest cs in
      subst (λ x. agree scene ((n, spec) ∷ d) x ≡ true) (ok_inj ((n, v) ∷ rest) r h2)
        (ground (arith, eq_refl n))

  -- If `arguments` returns, the script's declarations are accepted, and the run gets exactly one argument for each
  -- of them, in their order, that suits its kind: a text for a group, the name of a Bot of the scene, a
  -- finite position or number, a truth value, one of the declared options, or a text of at most
  -- 4096 bytes, whatever was supplied.
  pub arguments-agree :
      (scene : Scene floats.Float) (schema supplied : Json) (r : Dict (Value floats.Float))
      → arguments py split floats scene schema supplied ≡ ok r
      → (d : Dict (Dict Json)) × (declarations floats.is_finite_json schema ≡ ok d)
        × (agree scene d r ≡ true)
  unfolding arguments
  arguments-agree scene schema supplied r h =
      let (d, declared, h1) = bind_returned (declarations floats.is_finite_json schema) _ h in
      let (given, _, h2) = bind_returned (by_name py split floats d supplied) _ h1 in
      let (_, _, h3) =
        bind_returned (raise_if (any (λ e. not (has_key e.0 d)) given) localized) _ h2 in
      (d, declared, convert_all-agree scene given d r h3)
