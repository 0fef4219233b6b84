-- ===== src/Groups/Invariant.antt =====
-- The groups in memory are at any time what the next start reads from the file.
use endbot.Prelude.{
  ◌≡◌, refl, subst, inl, inr, false, not, some, [], ◌∷◌, ◌++◌, map, String, ◌==◌, arith, any,
  filter, find_first, contains, has_repeat-snoc, has_repeat_kept, value_error, All-append,
  All-filter, All-find_first, ok, attempt_keeps, or_raise, PyText, StoreFile, Bool-cases,
  Option-cases,
}
use endbot.Groups.{
  Group, GroupStore, is_group_name, group_name, is_named, get, create, delete, replace, add, remove,
  init,
}
use endbot.Groups.Start.{init-IsStored}
use endbot.Groups.Written.{IsCanonical, IsGroup, IsStored, save-IsStored}
use endbot.Groups.Changes.{put, AreGroups-snoc, AreGroups-filter, replace-AreGroups}

module _ (py : PyText) where
  -- `get` finds a group of the list.
  get_found :
      (name : String) (s : GroupStore) {g : Group}
      → get py name s ≡ ok g
      → find_first (is_named py name) s.groups ≡ some g
  unfolding get group_name
  get_found name s h = ground arith

  pub create-IsStored :
      (fresh name : String) (s : GroupStore)
      → py.uuid fresh ≡ some fresh
      → contains fresh (map (λ g. g.identity) s.groups) ≡ false
      → IsStored py s
      → IsStored py (create py fresh name s).0
  unfolding create group_name
  create-IsStored fresh name s canonical unused h = elim (Bool-cases (is_group_name name)) [
    | inr bad ↦ rw bad h
    | inl good ↦ elim (Bool-cases (any (is_named py name) s.groups)) [
      | inl taken ↦ rw (good, taken) h
      | inr free ↦
          let g : Group = record { identity = fresh; name = name; members = [] } in
          rw (good, free)
            (save-IsStored py (s.groups ++ g ∷ []) s
              (AreGroups-snoc py s.groups g h.valid
                (record {
                  identity_ok = canonical;
                  name_ok = good;
                  members_ok = tt;
                  members_differ = refl;
                })
                free unused)
              h)
    ]
  ]

  pub delete-IsStored :
      (name : String) (s : GroupStore) → IsStored py s → IsStored py (delete py name s).0
  unfolding delete
  delete-IsStored name s h =
      attempt_keeps (IsStored py) (get py name s) s _ h
        (λ g _. save-IsStored py _ s (AreGroups-filter py _ s.groups h.valid) h)

  -- Putting a changed group back under its name and identity.
  replace-IsStored :
      (name : String) (g g' : Group) (s : GroupStore)
      → IsStored py s
      → get py name s ≡ ok g
      → g'.identity ≡ g.identity
      → g'.name ≡ g.name
      → IsGroup py g'
      → IsStored py (replace py g' s).0
  unfolding replace put
  replace-IsStored name g g' s h found i n k =
      save-IsStored py _ s
        (replace-AreGroups py (is_named py name) g g' s.groups h.valid (get_found name s found) i n
          k)
        h

  get-IsGroup :
      (name : String) (s : GroupStore) {g : Group}
      → IsStored py s
      → get py name s ≡ ok g
      → IsGroup py g
  get-IsGroup name s h found =
      (All-find_first (IsGroup py) (is_named py name) s.groups h.valid.each
        (get_found name s found)).0

  canonical_parsed : (v u : String) → or_raise (py.uuid v) value_error ≡ ok u → py.uuid u ≡ some u
  canonical_parsed v u e = elim (Option-cases (py.uuid v)) [
    | inl n ↦ absurd (ground arith)
    | inr (t, h) ↦
        let same : t ≡ u = ground arith in
        subst (λ x. py.uuid x ≡ some x) same (py.uuid_canonical v t h)
  ]

  pub add-IsStored :
      (name given : String) (s : GroupStore) → IsStored py s → IsStored py (add py name given s).0
  unfolding add
  add-IsStored name given s h = attempt_keeps (IsStored py) (get py name s) s _ h λ g found.
      attempt_keeps (IsStored py) (or_raise (py.uuid given) _) s _ h λ u parsed.
        elim (Bool-cases (contains u g.members)) [
          | inl there ↦ rw there h
          | inr new ↦
              let k = get-IsGroup name s h found in
              rw new (
                replace-IsStored name g (record g { members = g.members ++ u ∷ [] }) s h found refl
                  refl
                  (record {
                    identity_ok = k.identity_ok;
                    name_ok = k.name_ok;
                    members_ok =
                        All-append (IsCanonical py) g.members (u ∷ []) k.members_ok
                          (canonical_parsed given u parsed, tt);
                    members_differ = has_repeat-snoc g.members u k.members_differ new;
                  }))
        ]

  pub remove-IsStored :
      (name given : String) (s : GroupStore)
      → IsStored py s
      → IsStored py (remove py name given s).0
  unfolding remove
  remove-IsStored name given s h = attempt_keeps (IsStored py) (get py name s) s _ h λ g found.
      attempt_keeps (IsStored py) (or_raise (py.uuid given) _) s _ h λ u parsed.
        elim (Bool-cases (contains u g.members)) [
          | inr absent ↦ rw absent h
          | inl there ↦
              let k = get-IsGroup name s h found in
              rw there (
                replace-IsStored name g
                  (record g { members = filter (λ m. not (m == u)) g.members }) s h found refl refl
                  (record {
                    identity_ok = k.identity_ok;
                    name_ok = k.name_ok;
                    members_ok =
                        All-filter (IsCanonical py) (λ m. not (m == u)) g.members k.members_ok;
                    members_differ = has_repeat_kept (λ m. not (m == u)) g.members k.members_differ;
                  }))
        ]

  -- A store that has been started on some file and has since run calls, each of which returned or
  -- raised. A UUID that `uuid4` gives is written canonically and identifies no other group.
  pub data Reached : GroupStore → Type 0 where
    started : (f : StoreFile) (s : GroupStore) → init py f ≡ ok s → Reached s
    created :
        (fresh name : String) (s : GroupStore)
        → py.uuid fresh ≡ some fresh
        → contains fresh (map (λ g. g.identity) s.groups) ≡ false
        → Reached s
        → Reached (create py fresh name s).0
    deleted : (name : String) (s : GroupStore) → Reached s → Reached (delete py name s).0
    added : (name given : String) (s : GroupStore) → Reached s → Reached (add py name given s).0
    removed :
        (name given : String) (s : GroupStore) → Reached s → Reached (remove py name given s).0

  -- However a store was reached from a start on any file that loads, by `create`, `delete`, `add` and
  -- `remove` calls that returned or raised: no two of its groups share a name, in any case, or an
  -- identity, no group has a member twice, and a new start on its file gives exactly this store.
  pub Reached-IsStored : {s : GroupStore} → Reached s → IsStored py s
  Reached-IsStored (started f s e) = init-IsStored py f s e
  Reached-IsStored (created fresh name s canonical unused r) =
      create-IsStored fresh name s canonical unused (Reached-IsStored r)
  Reached-IsStored (deleted name s r) = delete-IsStored name s (Reached-IsStored r)
  Reached-IsStored (added name given s r) = add-IsStored name given s (Reached-IsStored r)
  Reached-IsStored (removed name given s r) = remove-IsStored name given s (Reached-IsStored r)
