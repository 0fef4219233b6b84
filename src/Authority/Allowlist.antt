-- ===== src/Authority/Allowlist.antt =====
-- core/src/endbot_core/authorization.py: the allowlists of the configuration.
use endbot.Prelude.{
  ◌≡◌, inl, inr, Bool, true, not, ◌&&◌, ◌||◌, none, some, List, [], ◌∷◌, ◌++◌, String, ◌==◌, arith,
  eq_refl, is_decimal, contains, Dict, lookup, Json, str, as_str, as_list, Result, Result-cases,
  Option-cases, ok, value_error, type_error, raise_if, or_raise, ◌>>=◌, ◌>>◌, PyText,
}
use endbot.Authority.State.{AllowedPlayers, or_empty}

-- `config.get(key, [])`, which must be a list.
unfoldable pub list_at : String → Dict Json → Result (List Json)
list_at key d = elim (lookup key d) [ none ↦ ok [] | some j ↦ or_raise (as_list j) type_error ]

-- The loop over the XUIDs.
unfoldable pub parse_xuids : List Json → Result (List String)
parse_xuids [] = ok []
parse_xuids (j ∷ js) = do
  s ← or_raise (as_str j) type_error
  raise_if (not (is_decimal s)) value_error
  rest ← parse_xuids js
  ok (s ∷ rest)

module _ (py : PyText) where
  -- The loop over the UUIDs.
  unfoldable pub parse_uuids : List Json → Result (List String)
  parse_uuids [] = ok []
  parse_uuids (j ∷ js) = do
    s ← or_raise (as_str j) type_error
    i ← or_raise (py.uuid s) value_error
    rest ← parse_uuids js
    ok (i ∷ rest)

  unfoldable pub from_config : Dict Json → Result AllowedPlayers
  from_config d = do
    configured_uuids ← list_at "allowed-uuids" d
    configured_xuids ← list_at "allowed-xuids" d
    uuids ← parse_uuids configured_uuids
    xuids ← parse_xuids configured_xuids
    ok (record { uuids = uuids; xuids = xuids })

  -- `allows`
  unfoldable pub is_listed : String → String → AllowedPlayers → Bool
  is_listed player_uuid player_xuid p =
      contains (or_empty (py.uuid player_uuid)) p.uuids
      || not (player_xuid == "") && contains player_xuid p.xuids

  parse_uuids_lists :
      (js ks : List Json) (u : String) (is : List String)
      → parse_uuids (js ++ str u ∷ ks) ≡ ok is
      → contains (or_empty (py.uuid u)) is ≡ true
  unfolding parse_uuids
  parse_uuids_lists [] ks u is h = elim (Option-cases (py.uuid u)) [
    | inl absent ↦ absurd (ground arith)
    | inr (i, found) ↦ elim (Result-cases (parse_uuids ks)) [
      | inr (e, x) ↦ absurd (ground arith)
      | inl (rest, x) ↦ ground (arith, eq_refl i)
    ]
  ]
  parse_uuids_lists (j ∷ js) ks u is h = elim (Option-cases (as_str j)) [
    | inl absent ↦ absurd (ground arith)
    | inr (s, at_s) ↦ elim (Option-cases (py.uuid s)) [
      | inl absent ↦ absurd (ground arith)
      | inr (i, found) ↦ elim (Result-cases (parse_uuids (js ++ str u ∷ ks))) [
        | inr (e, x) ↦ absurd (ground arith)
        | inl (rest, x) ↦ ground (arith, parse_uuids_lists js ks u rest x)
      ]
    ]
  ]

  -- A player whose UUID the configuration lists, in any form that denotes it, is listed.
  pub from_config_lists :
      (d : Dict Json) (p : AllowedPlayers) (js ks : List Json) (u v xuid : String)
      → list_at "allowed-uuids" d ≡ ok (js ++ str u ∷ ks)
      → from_config d ≡ ok p
      → py.uuid v ≡ py.uuid u
      → is_listed v xuid p ≡ true
  unfolding from_config is_listed
  from_config_lists d p js ks u v xuid at_u h same =
      elim (Result-cases (list_at "allowed-xuids" d)) [
        | inr (e, x) ↦ absurd (ground arith)
        | inl (xs, x) ↦ elim (Result-cases (parse_uuids (js ++ str u ∷ ks))) [
          | inr (e, y) ↦ absurd (ground arith)
          | inl (is, y) ↦ elim (Result-cases (parse_xuids xs)) [
            | inr (e, z) ↦ absurd (ground arith)
            | inl (ys, z) ↦ rw same (ground (arith, parse_uuids_lists js ks u is y))
          ]
        ]
      ]
