-- ===== src/Params/Declared.antt =====
-- What a script's declarations are once they are accepted.
use endbot.Prelude.{
  ◌≡◌, refl, subst, inl, inr, suc, ◌+◌, ◌≤◌, Bool, true, false, not, some, none, List, [], ◌∷◌,
  String, ◌==◌, arith, ltb, length, contains, if◌then◌else◌, Dict, lookup, has_key, has_unknown,
  Json, as_dict, as_list, as_str, get_json, ok, ok_inj, localized, or_raise, or_raise_returned,
  raise_if, raise_if_returned, bind_returned, Option-cases, Entries, Entries-insert,
}
use endbot.Params.{
  kinds, is_param_name, check_choices, is_default, allowed_keys, declare, declare_all, declarations,
}
use endbot.Params.Assigned.{length-insert_absent}

-- `default` of a declaration, or none, suits the kind.
abbrev pub suits : (Json → Bool) → String → Dict Json → Bool
suits finite kind spec = elim (lookup "default" spec) [
  | none ↦ true
  | some default ↦ is_default finite kind default spec
]

-- A declaration under its name: the name is a valid one, the kind is known, its default suits it,
-- and the options of a choice are in order.
pub record IsDeclaration (finite : Json → Bool) (name : String) (spec : Dict Json) : Type 0 where
  pub kind : String
  pub named : as_str (get_json "name" spec) ≡ some name
  pub name_ok : is_param_name name ≡ true
  pub of_kind : as_str (get_json "type" spec) ≡ some kind
  pub kind_ok : contains kind kinds ≡ true
  pub keys_ok : has_unknown (allowed_keys finite spec) spec ≡ false
  pub choices_ok : (if kind == "choice" then check_choices spec else ok tt) ≡ ok tt
  pub default_ok : suits finite kind spec ≡ true

holds : (b : Bool) (u : Unit {0}) → raise_if (not b) localized ≡ ok u → b ≡ true
holds true u h = refl
holds false u h = absurd (cc)

module _ (finite : Json → Bool) where
  default_suits :
      (kind : String) (spec : Dict Json)
      → (elim (lookup "default" spec) [
        | none ↦ false
        | some default ↦ not (is_default finite kind default spec)
      ])
        ≡ false
      → suits finite kind spec ≡ true
  default_suits kind spec h = elim (Option-cases (lookup "default" spec)) [
    | inl absent ↦ rw (suits, absent) refl
    | inr (default, given) ↦
        let fine : not (is_default finite kind default spec) ≡ false = rw given at h in
        rw (suits, given) (ground arith)
  ]

  declare-IsDeclaration :
      (d d' : Dict (Dict Json)) (j : Json)
      → declare finite d j ≡ ok d'
      → Entries (IsDeclaration finite) d
      → Entries (IsDeclaration finite) d' × (length d' ≡ suc (length d))
  unfolding declare
  declare-IsDeclaration d d' j h k =
      let (spec, _, h1) = bind_returned (or_raise (as_dict j) localized) _ h in
      let (_, keys, h2) =
        bind_returned (raise_if (has_unknown (allowed_keys finite spec) spec) localized) _ h1 in
      let (name, named, h3) =
        bind_returned (or_raise (as_str (get_json "name" spec)) localized) _ h2 in
      let (_, valid, h4) = bind_returned (raise_if (not (is_param_name name)) localized) _ h3 in
      let (_, new, h5) = bind_returned (raise_if (has_key name d) localized) _ h4 in
      let (kind, typed, h6) =
        bind_returned (or_raise (as_str (get_json "type" spec)) localized) _ h5 in
      let (_, known, h7) = bind_returned (raise_if (not (contains kind kinds)) localized) _ h6 in
      let (_, choices, h8) =
        bind_returned (if kind == "choice" then check_choices spec else ok tt) _ h7 in
      let (_, default, h9) = bind_returned (raise_if _ localized) _ h8 in
      let absent = raise_if_returned (has_key name d) localized new in
      subst (λ x. Entries (IsDeclaration finite) x × (length x ≡ suc (length d))) (ok_inj _ d' h9)
        (
          Entries-insert (IsDeclaration finite) name spec d
              (record {
                kind = kind;
                named = or_raise_returned (as_str (get_json "name" spec)) localized named;
                name_ok = holds (is_param_name name) _ valid;
                of_kind = or_raise_returned (as_str (get_json "type" spec)) localized typed;
                kind_ok = holds (contains kind kinds) _ known;
                keys_ok = raise_if_returned _ localized keys;
                choices_ok = choices;
                default_ok = default_suits kind spec (raise_if_returned _ localized default);
              })
              k,
          length-insert_absent name spec d absent,
        )

  declare_all-IsDeclaration :
      (js : List Json) (d d' : Dict (Dict Json))
      → declare_all finite d js ≡ ok d'
      → Entries (IsDeclaration finite) d
      → Entries (IsDeclaration finite) d' × (length d' ≡ length d + length js)
  unfolding declare_all
  declare_all-IsDeclaration [] d d' h k =
      subst (λ x. Entries (IsDeclaration finite) x × (length x ≡ length d + 0)) (ok_inj d d' h)
        (k, omega arith)
  declare_all-IsDeclaration (j ∷ js) d d' h k =
      let (d1, first, rest) = bind_returned (declare finite d j) _ h in
      let (valid, longer) = declare-IsDeclaration d d1 j first k in
      let (all_valid, total) = declare_all-IsDeclaration js d1 d' rest valid in
      (all_valid, omega arith)

  -- If a script's declarations are accepted, they are at most 32, each under its own valid name that
  -- no other has, of a known kind, with no unknown field, with options in order if it is a choice,
  -- and with a default that suits the kind if it has one.
  pub declarations-IsDeclaration :
      (schema : Json) (d : Dict (Dict Json))
      → declarations finite schema ≡ ok d
      → Entries (IsDeclaration finite) d × (length d ≤ 32)
  unfolding declarations
  declarations-IsDeclaration schema d h =
      let (specs, _, h1) = bind_returned (or_raise (as_list schema) localized) _ h in
      let (_, few, h2) = bind_returned (raise_if (ltb 32 (length specs)) localized) _ h1 in
      let bounded = raise_if_returned (ltb 32 (length specs)) localized few in
      let fits : length specs ≤ 32 = ground arith in
      let (valid, total) = declare_all-IsDeclaration specs [] d h2 tt in (valid, omega arith)
