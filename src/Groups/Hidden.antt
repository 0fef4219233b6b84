-- ===== src/Groups/Hidden.antt =====
-- What a principal does through `_VisibleGroups` leaves the groups that it does not see alone.
use endbot.Prelude.{
  find_first_holds, ok_inj, raise_if_returned, Result-cases, replace_document, ◌≡◌, refl, sym,
  subst, ◌∙◌, inl, inr, Bool, true, not, ◌&&◌, Option, some, List, [], ◌∷◌, ◌++◌, map, String, ◌==◌,
  eq_iff, any, filter, find_first, if◌then◌else◌, ok, localized, value_error, raise_if, or_raise,
  contains, attempt_keeps, or_raise_returned, bind_returned, PyText, arith,
}
use endbot.Groups.{
  Group, GroupStore, to_document, group_name, is_named, key_of, get, save, create, delete, replace,
  add, remove,
}
use endbot.Groups.Visible.{
  is_visible, visible_get, visible_create, visible_delete, visible_add, visible_remove,
}

-- `visible` is `visible_to` of a group's identity for the principal.
some_inj : (x y : Group) → ◌≡◌ {A = Option Group} (some x) (some y) → x ≡ y
some_inj x y e = cc

module _ (py : PyText) (visible : String → Bool) where
  -- The groups that the principal does not see.
  abbrev pub hidden_groups : List Group → List Group
  hidden_groups gs = filter (λ g. not (is_visible py visible g)) gs

  hidden-delete :
      (gs : List Group) (identity : String)
      → visible identity ≡ true
      → hidden_groups (filter (λ e. not (e.identity == identity)) gs) ≡ hidden_groups gs
  hidden-delete [] identity v = refl
  hidden-delete (e ∷ gs) identity v =
      ground (arith, eq_iff e.identity identity, hidden-delete gs identity v)

  hidden-replace :
      (gs : List Group) (g : Group)
      → visible g.identity ≡ true
      → hidden_groups (map (λ e. if e.identity == g.identity then g else e) gs) ≡ hidden_groups gs
  hidden-replace [] g v = refl
  hidden-replace (e ∷ gs) g v = ground (arith, eq_iff e.identity g.identity, hidden-replace gs g v)

  hidden-create :
      (gs : List Group) (g : Group)
      → visible g.identity ≡ true
      → hidden_groups (gs ++ g ∷ []) ≡ hidden_groups gs
  hidden-create [] g v = rw v
  hidden-create (e ∷ gs) g v = ground (arith, hidden-create gs g v)

  -- Writing groups keeps the hidden ones if the list does.
  save_hides :
      (gs : List Group) (s : GroupStore)
      → hidden_groups gs ≡ hidden_groups s.groups
      → hidden_groups (save gs s).0.groups ≡ hidden_groups s.groups
  unfolding save
  save_hides gs s h = elim (Result-cases (replace_document (to_document gs) s.path).1) [
    | inl (_, e) ↦ rw (save, e) h
    | inr (_, e) ↦ rw (save, e)
  ]

  get-found :
      (name : String) (s : GroupStore) {g : Group}
      → get py name s ≡ ok g
      → find_first (is_named py name) s.groups ≡ some g
  unfolding get group_name
  get-found name s {g} e =
      let (checked, _, e') = bind_returned (group_name name) _ e in
      or_raise_returned (find_first (is_named py name) s.groups) localized e'

  -- The name of a group that was found finds no other group.
  get-get :
      (name : String) (s : GroupStore) {g h : Group}
      → get py name s ≡ ok g
      → get py g.name s ≡ ok h
      → h ≡ g
  get-get name s {g} {h} e f =
      let found = get-found name s e in
      let named = find_first_holds (is_named py name) s.groups found in
      let fold : key_of py g ≡ py.casefold name =
        (eq_iff (key_of py g) (py.casefold name)).0 named in
      let other : find_first (is_named py name) s.groups ≡ some h =
        subst (λ k. find_first (λ x. key_of py x == k) s.groups ≡ some h) fold
          (get-found g.name s f) in
      some_inj h g (sym other ∙ found)

  visible_get_returned :
      (name : String) (s : GroupStore) {g : Group}
      → visible_get py visible name s ≡ ok g
      → (get py name s ≡ ok g) × (visible g.identity ≡ true)
  unfolding visible_get
  visible_get_returned name s {g} e =
      let (x, found, e') = bind_returned (get py name s) _ e in
      let (_, seen, e'') =
        bind_returned (raise_if (not (is_visible py visible x)) localized) _ e' in
      let same = ok_inj _ _ e'' in
      subst (λ y. (get py name s ≡ ok y) × (visible y.identity ≡ true)) same
        (found, ground (arith, raise_if_returned (not (is_visible py visible x)) localized seen))

  replace_hides :
      (g : Group) (s : GroupStore)
      → visible g.identity ≡ true
      → hidden_groups (replace py g s).0.groups ≡ hidden_groups s.groups
  unfolding replace
  replace_hides g s v = save_hides _ s (hidden-replace s.groups g v)

  -- The store after a call, compared in what the principal does not see.
  Hides : GroupStore → GroupStore → Type 0
  Hides s t = hidden_groups t.groups ≡ hidden_groups s.groups

  create-Hides :
      (fresh name : String) (s : GroupStore)
      → visible fresh ≡ true
      → Hides s (create py fresh name s).0
  unfolding create Hides
  create-Hides fresh name s v = attempt_keeps (Hides s) (group_name name) s _ refl λ _ _.
      attempt_keeps (Hides s) (raise_if (any (is_named py name) s.groups) localized) s _ refl λ _ _.
        save_hides _ s
          (hidden-create s.groups (record { identity = fresh; name = name; members = [] }) v)

  -- The change of the members of a group that is seen.
  add-Hides :
      (name given : String) (s : GroupStore)
      → ((g : Group) → get py name s ≡ ok g → visible g.identity ≡ true)
      → Hides s (add py name given s).0
  unfolding add Hides
  add-Hides name given s seen = attempt_keeps (Hides s) (get py name s) s _ refl λ g e.
      attempt_keeps (Hides s) (or_raise (py.uuid given) value_error) s _ refl λ u _.
        attempt_keeps (Hides s) (raise_if (contains u g.members) value_error) s _ refl
          λ _ _. replace_hides _ s (seen g e)

  remove-Hides :
      (name given : String) (s : GroupStore)
      → ((g : Group) → get py name s ≡ ok g → visible g.identity ≡ true)
      → Hides s (remove py name given s).0
  unfolding remove Hides
  remove-Hides name given s seen = attempt_keeps (Hides s) (get py name s) s _ refl λ g e.
      attempt_keeps (Hides s) (or_raise (py.uuid given) value_error) s _ refl λ u _.
        attempt_keeps (Hides s) (raise_if (not (contains u g.members)) value_error) s _ refl
          λ _ _. replace_hides _ s (seen g e)

  delete-Hides :
      (name : String) (s : GroupStore)
      → ((g : Group) → get py name s ≡ ok g → visible g.identity ≡ true)
      → Hides s (delete py name s).0
  unfolding delete Hides
  delete-Hides name s seen =
      attempt_keeps (Hides s) (get py name s) s _ refl
        λ g e. save_hides _ s (hidden-delete s.groups g.identity (seen g e))

  -- Whatever the name of a group that the principal sees finds is seen.
  own_name_seen :
      (name : String) (s : GroupStore) (g : Group)
      → visible_get py visible name s ≡ ok g
      → (h : Group) → get py g.name s ≡ ok h
      → visible h.identity ≡ true
  own_name_seen name s g e h f =
      let (found, seen) = visible_get_returned name s e in
      subst (λ x. visible x.identity ≡ true) (sym (get-get name s found f)) seen

  -- A call through `_VisibleGroups`. The identity of a new group has no owner yet, so it is seen.
  pub data Step : GroupStore → GroupStore → Type 0 where
    creating :
        (fresh name : String) (s : GroupStore)
        → visible fresh ≡ true
        → Step s (visible_create py visible fresh name s).0
    deleting : (name : String) (s : GroupStore) → Step s (visible_delete py visible name s).0
    adding : (name given : String) (s : GroupStore) → Step s (visible_add py visible name given s).0
    removing :
        (name given : String) (s : GroupStore) → Step s (visible_remove py visible name given s).0

  Step-Hides : {s t : GroupStore} → Step s t → Hides s t
  unfolding Hides visible_create visible_delete visible_add visible_remove
  Step-Hides (creating fresh name s v) =
      attempt_keeps (Hides s)
        (raise_if (any (λ g. is_named py name g && not (is_visible py visible g)) s.groups)
          localized)
        s _ refl λ _ _. create-Hides fresh name s v
  Step-Hides (deleting name s) =
      attempt_keeps (Hides s) (visible_get py visible name s) s _ refl
        λ g e. delete-Hides g.name s (own_name_seen name s g e)
  Step-Hides (adding name given s) =
      attempt_keeps (Hides s) (visible_get py visible name s) s _ refl
        λ g e. add-Hides g.name given s (own_name_seen name s g e)
  Step-Hides (removing name given s) =
      attempt_keeps (Hides s) (visible_get py visible name s) s _ refl
        λ g e. remove-Hides g.name given s (own_name_seen name s g e)

  pub data Steps : GroupStore → GroupStore → Type 0 where
    done : (s : GroupStore) → Steps s s
    then_step : {s t u : GroupStore} → Steps s t → Step t u → Steps s u

  -- Any sequence of calls that a principal makes, returning or raising, leaves the groups that it does
  -- not see as they are: none is deleted, renamed, reordered among them, or changed in its members.
  pub Steps-hidden_groups :
      {s t : GroupStore} → Steps s t → hidden_groups t.groups ≡ hidden_groups s.groups
  unfolding Hides
  Steps-hidden_groups (done s) = refl
  Steps-hidden_groups (then_step r q) = Step-Hides q ∙ Steps-hidden_groups r
