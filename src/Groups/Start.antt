-- ===== src/Groups/Start.antt =====
-- A start of the group store (`GroupStore.__init__`) accepts only valid groups.
use endbot.Prelude.{
  ◌≡◌, refl, sym, ap, subst, ◌∙◌, inl, inr, true, Option, none, some, List, [], ◌∷◌, map, String,
  arith, has_repeat, value_error, All, Json, as_str, as_dict, as_list, get_json, is_version_1,
  Result, Result-cases, ok, ok_inj, or_raise, traverse, bind_returned, guard_returned, raise_if,
  raise_if_returned, or_raise_returned, not, PyText, StoreFile, read_document,
}
use endbot.Groups.{
  Group, GroupStore, is_group_name, group_name, uuid_of_json, parse_group, key_of, parse_document,
  document_groups, init,
}
use endbot.Groups.Written.{IsCanonical, IsGroup, AreGroups, IsStored}

All-traverse :
    {A B : Type 0} (P : B → Type 0) (f : A → Result B)
    → ((x : A) (y : B) → f x ≡ ok y → P y)
    → (xs : List A) (ys : List B) → traverse f xs ≡ ok ys
    → All P ys
All-traverse P f k [] [] e = tt
All-traverse P f k [] (y ∷ ys) e = absurd (cc)
All-traverse P f k (x ∷ xs) ys e = elim (Result-cases (f x)) [
  | inr (raised, h) ↦ absurd (ground arith)
  | inl (z, h) ↦ elim (Result-cases (traverse f xs)) [
    | inr (raised, h') ↦ absurd (ground arith)
    | inl (zs, h') ↦
        let same : z ∷ zs ≡ ys = ground arith in
        subst (All P) same (k x z h, All-traverse P f k xs zs h')
  ]
]

module _ (py : PyText) where
  uuid_of_json-IsCanonical : (j : Json) (u : String) → uuid_of_json py j ≡ ok u → IsCanonical py u
  unfolding uuid_of_json
  uuid_of_json-IsCanonical j u e =
      let (v, _, parsed) = bind_returned (or_raise (as_str j) value_error) _ e in
      py.uuid_canonical v u (or_raise_returned (py.uuid v) value_error parsed)

  group_name-is_group_name : (s t : String) → group_name s ≡ ok t → is_group_name t ≡ true
  unfolding group_name
  group_name-is_group_name s t e =
      let (valid, same) = guard_returned (is_group_name s) value_error s t e in
      subst (λ x. is_group_name x ≡ true) same valid

  parse_group-IsGroup : (j : Json) (g : Group) → parse_group py j ≡ ok g → IsGroup py g
  unfolding parse_group
  parse_group-IsGroup j g e0 =
      let (row, _, e1) = bind_returned (or_raise (as_dict j) value_error) _ e0 in
      let (given, _, e2) =
        bind_returned (or_raise (as_list (get_json "members" row)) value_error) _ e1 in
      let (identity, i, e3) = bind_returned (uuid_of_json py (get_json "identityId" row)) _ e2 in
      let (given_name, _, e4) =
        bind_returned (or_raise (as_str (get_json "name" row)) value_error) _ e3 in
      let (name, n, e5) = bind_returned (group_name given_name) _ e4 in
      let (members, m, e6) = bind_returned (traverse (uuid_of_json py) given) _ e5 in
      let (_, r, e7) = bind_returned (raise_if (has_repeat members) value_error) _ e6 in
      subst (IsGroup py) (ok_inj _ _ e7) (record {
        identity_ok = uuid_of_json-IsCanonical (get_json "identityId" row) identity i;
        name_ok = group_name-is_group_name given_name name n;
        members_ok =
            All-traverse (IsCanonical py) (uuid_of_json py) uuid_of_json-IsCanonical given members
              m;
        members_differ = raise_if_returned (has_repeat members) value_error r;
      })

  parse_document-AreGroups :
      (j : Json) (gs : List Group) → parse_document py j ≡ ok gs → AreGroups py gs
  unfolding parse_document
  parse_document-AreGroups j gs e0 =
      let (d, _, e1) = bind_returned (or_raise (as_dict j) value_error) _ e0 in
      let (_, _, e2) =
        bind_returned (raise_if (not (is_version_1 (get_json "version" d))) value_error) _ e1 in
      let (rows, _, e3) =
        bind_returned (or_raise (as_list (get_json "groups" d)) value_error) _ e2 in
      let (groups, g, e4) = bind_returned (traverse (parse_group py) rows) _ e3 in
      let (_, n, e5) =
        bind_returned (raise_if (has_repeat (map (key_of py) groups)) value_error) _ e4 in
      let (_, i, e6) =
        bind_returned (raise_if (has_repeat (map (λ h. h.identity) groups)) value_error) _ e5 in
      subst (AreGroups py) (ok_inj _ _ e6) (record {
        each = All-traverse (IsGroup py) (parse_group py) parse_group-IsGroup rows groups g;
        names_differ = raise_if_returned _ value_error n;
        identities_differ = raise_if_returned _ value_error i;
      })

  document_groups-AreGroups :
      (o : Option Json) (gs : List Group) → document_groups py o ≡ ok gs → AreGroups py gs
  unfolding document_groups
  document_groups-AreGroups none gs e =
      subst (AreGroups py) (ok_inj _ _ e)
        (record { each = tt; names_differ = refl; identities_differ = refl })
  document_groups-AreGroups (some j) gs e = parse_document-AreGroups j gs e

  pub init-IsStored : (f : StoreFile) (s : GroupStore) → init py f ≡ ok s → IsStored py s
  unfolding init
  init-IsStored f s e0 =
      let (document, _, e1) = bind_returned (read_document f) _ e0 in
      let (groups, g, e2) = bind_returned (document_groups py document) _ e1 in
      let same = ok_inj _ _ e2 in
      subst (IsStored py) same (record {
        valid = document_groups-AreGroups document groups g;
        read_back = e0 ∙ ap ok (sym same);
      })
