-- ===== src/Ownership/Rules.antt =====
-- What the ownership store promises: who owns what, and who may see it.
use endbot.Prelude.{
  ◌≡◌, ap, ◌∙◌, eq_refl, inl, inr, true, Option, none, some, String, ◌==◌, arith, ◌>>=◌, contains,
  if◌then◌else◌, Dict, lookup, has_key, insert, lookup-insert, lookup-erase, Result-cases, ok,
  attempt, PyText, Bool-cases, Option-cases,
}
use endbot.Principal.{Principal}
use endbot.Ownership.{
  visibilities, Kind, bots, groups, parse_kind, owner_key, is_owner_name, Ownership, table,
  set_table, OwnershipStore, default_of, save, parse_identity, get, record_owner, set_visibility,
  forget, visible_to, is_owner, owns,
}
use endbot.Ownership.Invariant.{entries-save}

module _ (py : PyText) where
  -- Who owns an item may see it.
  pub is_owner-visible_to :
      (kind identity : String) (p : Option Principal) (s : OwnershipStore)
      → is_owner py kind identity p s ≡ ok true
      → visible_to py kind identity p s ≡ ok true
  unfolding is_owner visible_to get
  is_owner-visible_to kind identity p s h = ground arith

  get-written :
      (kind identity : String) (k : Kind) (i : String) (d : Dict Ownership) (s : OwnershipStore)
      → parse_kind kind ≡ ok k
      → parse_identity py identity ≡ ok i
      → get py kind identity (save (record s { entries = set_table k d s.entries })).0
        ≡ ok (lookup i d)
  unfolding get
  get-written kind identity bots i d s ek ei = rw (entries-save py, ek, ei)
  get-written kind identity groups i d s ek ei = rw (entries-save py, ek, ei)

  lookup-insert_self :
      (i : String) (e : Ownership) (d : Dict Ownership) → lookup i (insert i e d) ≡ some e
  lookup-insert_self i e d = rw (lookup-insert, eq_refl)

  set_visibility-eq-save :
      (kind identity visibility : String) (s : OwnershipStore) {k : Kind} {i : String}
      {e : Ownership}
      → parse_kind kind ≡ ok k
      → parse_identity py identity ≡ ok i
      → lookup i (table k s.entries) ≡ some e
      → contains visibility visibilities ≡ true
      → set_visibility py kind identity visibility s
        ≡ save (record s {
          entries =
              set_table k
                (insert i (record e { visibility = visibility }) (table k s.entries))
                s.entries;
        })
  unfolding set_visibility
  set_visibility-eq-save kind identity visibility s ek ei x named = rw (ek, named, ei, x, attempt)

  set_visibility_returned :
      (kind identity visibility : String) (s : OwnershipStore)
      → (set_visibility py kind identity visibility s).1 ≡ ok tt
      → (k : Kind) × (i : String) × (e : Ownership) × (parse_kind kind ≡ ok k)
        × (parse_identity py identity ≡ ok i)
        × (lookup i (table k s.entries) ≡ some e)
        × (contains visibility visibilities ≡ true)
  unfolding set_visibility
  set_visibility_returned kind identity visibility s h = elim (Result-cases (parse_kind kind)) [
    | inr (e, x) ↦ absurd (ground arith)
    | inl (k, ek) ↦ elim (Result-cases (parse_identity py identity)) [
      | inr (e, x) ↦ absurd (ground arith)
      | inl (i, ei) ↦ elim (Option-cases (lookup i (table k s.entries))) [
        | inl x ↦ absurd (ground arith)
        | inr (e, x) ↦ (k, i, e, ek, ei, x, ground arith)
      ]
    ]
  ]

  forgotten :
      (kind identity : String) (s : OwnershipStore)
      → (forget py kind identity s).1 ≡ ok tt
      → get py kind identity (forget py kind identity s).0 ≡ ok none
  unfolding forget
  forgotten kind identity s h = elim (Result-cases (parse_kind kind)) [
    | inr (e, x) ↦ absurd (ground arith)
    | inl (k, ek) ↦ elim (Result-cases (parse_identity py identity)) [
      | inr (e, x) ↦ absurd (ground arith)
      | inl (i, ei) ↦ elim (Bool-cases (has_key i (table k s.entries))) [
        | inl x ↦
            rw (ek, ei, x, attempt)
              (get-written kind identity k i _ s ek ei ∙ ap ok (rw (lookup-erase, eq_refl)))
        | inr x ↦ rw (ek, ei, x, attempt) (unfold get in rw (ek, ei) (ground arith))
      ]
    ]
  ]

  -- A change of visibility that returned found an entry, and replaced its visibility alone.
  pub get-set_visibility :
      (kind identity visibility : String) (s : OwnershipStore)
      → (set_visibility py kind identity visibility s).1 ≡ ok tt
      → (e : Ownership) × (get py kind identity s ≡ ok (some e))
        × (get py kind identity (set_visibility py kind identity visibility s).0
            ≡ ok (some (record e { visibility = visibility })))
  get-set_visibility kind identity visibility s h =
      let (k, i, e, ek, ei, x, named) = set_visibility_returned kind identity visibility s h in
      (
        e,
        unfold get in rw (ek, ei, x),
        rw (set_visibility-eq-save kind identity visibility s ek ei x named)
            (get-written kind identity k i _ s ek ei ∙ ap ok (lookup-insert_self i _ _)),
      )

  -- After a change of visibility that returned, everyone sees a shared item, and a private item is
  -- seen by exactly those who count as its owner.
  pub visible_to-set_visibility :
      (kind identity visibility : String) (p : Option Principal) (s : OwnershipStore)
      → (set_visibility py kind identity visibility s).1 ≡ ok tt
      → visible_to py kind identity p (set_visibility py kind identity visibility s).0
        ≡ (if visibility == "shared" then ok true else is_owner py kind identity p s)
  unfolding visible_to is_owner
  visible_to-set_visibility kind identity visibility p s h =
      let (e, found, shown) = get-set_visibility kind identity visibility s h in
      rw (found, shown) (ground arith)

  -- An item that has an entry keeps it: recording another creator changes nothing.
  record_owner_known :
      (kind identity : String) (p : Option Principal) (s : OwnershipStore) {e : Ownership}
      → get py kind identity s ≡ ok (some e)
      → record_owner py kind identity p s ≡ (s, ok tt)
  unfolding get record_owner
  record_owner_known kind identity p s h = elim (Result-cases (parse_kind kind)) [
    | inr (e, x) ↦ absurd (ground arith)
    | inl (k, ek) ↦ elim (Result-cases (parse_identity py identity)) [
      | inr (e, x) ↦ absurd (ground arith)
      | inl (i, ei) ↦ ground arith
    ]
  ]

  created : (principal : Principal) (key visibility : String) → Ownership
  created p key visibility = record {
    owner = key;
    owner_name = if is_owner_name p.name then p.name else none;
    visibility = visibility;
  }

  record_owner-eq-save :
      (kind identity : String) (p : Principal) (s : OwnershipStore) {k : Kind} {i key : String}
      → parse_kind kind ≡ ok k
      → parse_identity py identity ≡ ok i
      → owner_key (some p) ≡ some key
      → lookup i (table k s.entries) ≡ none
      → record_owner py kind identity (some p) s
        ≡ save (record s {
          entries =
              set_table k (insert i (created p key (default_of k s)) (table k s.entries)) s.entries;
        })
  unfolding record_owner created
  record_owner-eq-save kind identity p s ek ei keyed fresh = rw (ek, keyed, ei, fresh, attempt)

  absent_item :
      (kind identity : String) (s : OwnershipStore)
      → get py kind identity s ≡ ok none
      → (k : Kind) × (i : String) × (parse_kind kind ≡ ok k)
        × (parse_identity py identity ≡ ok i)
        × (lookup i (table k s.entries) ≡ none)
  unfolding get
  absent_item kind identity s h = elim (Result-cases (parse_kind kind)) [
    | inr (e, x) ↦ absurd (ground arith)
    | inl (k, ek) ↦ elim (Result-cases (parse_identity py identity)) [
      | inr (e, x) ↦ absurd (ground arith)
      | inl (i, ei) ↦ (k, i, ek, ei, ground arith)
    ]
  ]

  record_owner_new :
      (kind identity : String) (p : Principal) (s : OwnershipStore) {key : String}
      → get py kind identity s ≡ ok none
      → owner_key (some p) ≡ some key
      → (visibility : String) × (get py kind identity (record_owner py kind identity (some p) s).0
          ≡ ok (some (created p key visibility)))
  record_owner_new kind identity p s h keyed =
      let (k, i, ek, ei, fresh) = absent_item kind identity s h in
      (
        default_of k s,
        rw (record_owner-eq-save kind identity p s ek ei keyed fresh)
            (get-written kind identity k i _ s ek ei ∙ ap ok (lookup-insert_self i _ _)),
      )

  -- On an item without an owner, the first principal with a key becomes the owner, also where the
  -- file cannot be written: afterwards a principal with a key counts as the owner exactly if its key
  -- is the creator's, and a later creator changes nothing.
  pub record_owner_first :
      (kind identity : String) (p q : Principal) (s : OwnershipStore) {key other : String}
      → get py kind identity s ≡ ok none
      → owner_key (some p) ≡ some key
      → owner_key (some q) ≡ some other
      → let s' = (record_owner py kind identity (some p) s).0 in
        (is_owner py kind identity (some q) s' ≡ ok (key == other))
        × (record_owner py kind identity (some q) s' ≡ (s', ok tt))
  unfolding is_owner created
  record_owner_first kind identity p q s h keyed other_keyed =
      let (v, found) = record_owner_new kind identity p s h keyed in
      (rw (found, other_keyed, owns, ◌>>=◌), record_owner_known kind identity (some q) _ found)

  -- A forgotten item has no entry, so everyone counts as its owner and sees it.
  pub get-forget :
      (kind identity : String) (p : Option Principal) (s : OwnershipStore)
      → (forget py kind identity s).1 ≡ ok tt
      → let s' = (forget py kind identity s).0 in
        (get py kind identity s' ≡ ok none)
        × (visible_to py kind identity p s' ≡ ok true)
        × (is_owner py kind identity p s' ≡ ok true)
  unfolding visible_to is_owner
  get-forget kind identity p s h =
      let gone = forgotten kind identity s h in (gone, rw gone, rw gone)
