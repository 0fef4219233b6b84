-- ===== src/Groups/Written.antt =====
-- The file of groups: what is written is read back, and a store that is its file.
use endbot.Prelude.{
  ◌≡◌, refl, sym, subst, ◌⊎◌, inl, inr, true, false, some, List, [], ◌∷◌, map, String, arith,
  has_repeat, All, str, to_list-of_list, ok, traverse, PyText, StoreFile, document, Bool-cases,
  read_document, replace_document, lookup,
}
use endbot.Groups.{
  Group, GroupStore, is_group_name, group_name, group_to_json, to_document, save, uuid_of_json,
  parse_group, key_of, parse_document, document_groups, init,
}

module _ (py : PyText) where
  abbrev pub IsCanonical : String → Type 0
  IsCanonical u = py.uuid u ≡ some u

  -- A group that the file format accepts.
  pub record IsGroup (g : Group) : Type 0 where
    pub identity_ok : py.uuid g.identity ≡ some g.identity
    pub name_ok : is_group_name g.name ≡ true
    pub members_ok : All IsCanonical g.members
    pub members_differ : has_repeat g.members ≡ false

  -- Groups that the file format accepts: no two have a name, in any case, or an identity in common.
  pub record AreGroups (gs : List Group) : Type 0 where
    pub each : All IsGroup gs
    pub names_differ : has_repeat (map (key_of py) gs) ≡ false
    pub identities_differ : has_repeat (map (λ g. g.identity) gs) ≡ false

  parse_members-write :
      (us : List String) → All IsCanonical us → traverse (uuid_of_json py) (map str us) ≡ ok us
  unfolding uuid_of_json
  parse_members-write [] h = refl
  parse_members-write (u ∷ us) h = rw (h.0, parse_members-write us h.1)

  parse_group-write : (g : Group) → IsGroup g → parse_group py (group_to_json g) ≡ ok g
  unfolding parse_group group_to_json lookup uuid_of_json group_name
  parse_group-write g h = rw (
    to_list-of_list,
    h.identity_ok,
    h.name_ok,
    parse_members-write g.members h.members_ok,
    h.members_differ,
  )

  parse_groups-write :
      (gs : List Group) → All IsGroup gs → traverse (parse_group py) (map group_to_json gs) ≡ ok gs
  parse_groups-write [] h = refl
  parse_groups-write (g ∷ gs) h = rw (parse_group-write g h.0, parse_groups-write gs h.1)

  -- What is written is read back, in the same order.
  pub parse_document_written :
      (gs : List Group) → AreGroups gs → parse_document py (to_document gs) ≡ ok gs
  unfolding parse_document to_document lookup
  parse_document_written gs h =
      rw (to_list-of_list, parse_groups-write gs h.each, h.names_differ, h.identities_differ)

  -- The groups are valid, and the next start reads exactly the store.
  pub record IsStored (s : GroupStore) : Type 0 where
    pub valid : AreGroups s.groups
    pub read_back : init py s.path ≡ ok s

  init_written :
      (gs : List Group) (f : StoreFile)
      → AreGroups gs
      → f.symlink ≡ false
      → init py (record f { content = document (to_document gs) })
        ≡ ok (record { path = record f { content = document (to_document gs) }; groups = gs })
  unfolding init read_document document_groups
  init_written gs f v plain = rw (plain, parse_document_written gs v)

  -- Saving leaves the store as it is, or has written the groups to the file.
  save_cases :
      (gs : List Group) (s : GroupStore)
      → ((save gs s).0 ≡ s)
        ⊎ ((s.path.symlink ≡ false)
            × ((save gs s).0 ≡ record {
              path = record s.path { content = document (to_document gs) };
              groups = gs;
            }))
  unfolding save replace_document
  save_cases gs s = elim (Bool-cases s.path.symlink) [
    | inl link ↦ inl (ground arith)
    | inr plain ↦ elim (Bool-cases s.path.writable) [
      | inl writable ↦ inr (plain, ground arith)
      | inr refused ↦ inl (ground arith)
    ]
  ]

  pub save-IsStored :
      (gs : List Group) (s : GroupStore) → AreGroups gs → IsStored s → IsStored (save gs s).0
  save-IsStored gs s v h = elim (save_cases gs s) [
    | inl e ↦ subst IsStored (sym e) h
    | inr (plain, e) ↦
        subst IsStored (sym e) (record { valid = v; read_back = init_written gs s.path v plain })
  ]
