-- ===== src/Ownership/Invariant.antt =====
-- The invariant of the ownership store: every entry is one that the file format accepts.
use endbot.Prelude.{
  ◌≡◌, refl, ◌⊎◌, inl, inr, true, Option, none, some, String, arith, contains, if◌then◌else◌, Dict,
  lookup, has_key, insert, Entries, Entries-insert, Entries-erase, Entries-lookup, ok,
  attempt_keeps, PyText, replace_document, Bool-cases, Option-cases,
}
use endbot.Principal.{Principal}
use endbot.Ownership.{
  visibilities, Kind, bots, groups, parse_kind, owner_key, is_owner_text, is_owner_name, Ownership,
  Tables, table, set_table, OwnershipStore, default_of, save, parse_identity, record_owner,
  set_visibility, set_owner, forget,
}

module _ (py : PyText) where
  -- An identity in canonical form, with an entry that `parse_entry` accepts.
  pub record IsEntry (i : String) (e : Ownership) : Type 0 where
    pub canonical : py.uuid i ≡ some i
    pub owner_ok : is_owner_text e.owner ≡ true
    pub name_ok : is_owner_name e.owner_name ≡ true
    pub visibility_ok : contains e.visibility visibilities ≡ true

  pub record IsValid (s : OwnershipStore) : Type 0 where
    pub bots_default_ok : contains s.bots_default visibilities ≡ true
    pub groups_default_ok : contains s.groups_default visibilities ≡ true
    pub bots_ok : Entries IsEntry s.entries.bots_table
    pub groups_ok : Entries IsEntry s.entries.groups_table

  -- `_save` changes the file and nothing else.
  pub entries-save : (s : OwnershipStore) → (save s).0.entries ≡ s.entries
  unfolding save replace_document
  entries-save s = ground arith

  save-IsValid : (s : OwnershipStore) → IsValid s → IsValid (save s).0
  unfolding save replace_document
  save-IsValid s h = ground arith

  set_table-IsValid :
      (k : Kind) (d : Dict Ownership) (s : OwnershipStore)
      → Entries IsEntry d
      → IsValid s
      → IsValid (record s { entries = set_table k d s.entries })
  set_table-IsValid bots d s e h = ground arith
  set_table-IsValid groups d s e h = ground arith

  table-IsValid : (k : Kind) (s : OwnershipStore) → IsValid s → Entries IsEntry (table k s.entries)
  table-IsValid bots s h = h.bots_ok
  table-IsValid groups s h = h.groups_ok

  default_of-IsValid :
      (k : Kind) (s : OwnershipStore) → IsValid s → contains (default_of k s) visibilities ≡ true
  default_of-IsValid bots s h = h.bots_default_ok
  default_of-IsValid groups s h = h.groups_default_ok

  -- The store that a call leaves is the one it found, or valid tables were put in and saved.
  abbrev pub Written : OwnershipStore → OwnershipStore → Type 0
  Written s s' =
      (s' ≡ s)
      ⊎ ((t : Tables) × IsValid (record s { entries = t })
          × (s' ≡ (save (record s { entries = t })).0))

  pub Written-IsValid : (s s' : OwnershipStore) → IsValid s → Written s s' → IsValid s'
  Written-IsValid s s' h (inl e) = rw e h
  Written-IsValid s s' h (inr (t, valid, e)) = rw e (save-IsValid _ valid)

  unchanged : (s : OwnershipStore) → Written s s
  unchanged s = inl refl

  write-Written :
      (k : Kind) (d : Dict Ownership) (s : OwnershipStore)
      → Entries IsEntry d
      → IsValid s
      → Written s (save (record s { entries = set_table k d s.entries })).0
  write-Written k d s e h = inr (set_table k d s.entries, set_table-IsValid k d s e h, refl)

  write_entry :
      (k : Kind) (i : String) (e : Ownership) (s : OwnershipStore)
      → IsEntry i e
      → IsValid s
      → Written s
          (save (record s { entries = set_table k (insert i e (table k s.entries)) s.entries })).0
  write_entry k i e s p h =
      write-Written k _ s (Entries-insert IsEntry i e _ p (table-IsValid k s h)) h

  entry :
      (k : Kind) (i : String) (e : Ownership) (s : OwnershipStore)
      → IsValid s
      → lookup i (table k s.entries) ≡ some e
      → IsEntry i e
  entry k i e s h = Entries-lookup IsEntry i e _ (table-IsValid k s h)

  shown :
      (i : String) (e : Ownership) (visibility : String)
      → contains visibility visibilities ≡ true
      → IsEntry i e
      → IsEntry i (record e { visibility = visibility })
  shown i e visibility named h = ground arith

  kept_visibility :
      (k : Kind) (i : String) (s : OwnershipStore)
      → IsValid s
      → contains
          (elim (lookup i (table k s.entries)) [ none ↦ default_of k s | some e ↦ e.visibility ])
          visibilities
        ≡ true
  kept_visibility k i s h = elim (Option-cases (lookup i (table k s.entries))) [
    | inl e ↦ rw e (default_of-IsValid k s h)
    | inr (o, e) ↦ rw e (entry k i o s h e).visibility_ok
  ]

  recorded_name :
      (principal : Option Principal)
      → let name : Option String = elim principal [ none ↦ none | some p ↦ p.name ] in
        is_owner_name (if is_owner_name name then name else none) ≡ true
  unfolding is_owner_name
  recorded_name principal = ground arith

  identity_canonical :
      (identity i : String) → parse_identity py identity ≡ ok i → py.uuid i ≡ some i
  unfolding parse_identity
  identity_canonical identity i e = py.uuid_canonical identity i (ground arith)

  pub forget-Written :
      (kind identity : String) (s : OwnershipStore)
      → IsValid s
      → Written s (forget py kind identity s).0
  unfolding forget
  forget-Written kind identity s h =
      attempt_keeps (Written s) (parse_kind kind) s _ (unchanged s) λ k _.
        attempt_keeps (Written s) (parse_identity py identity) s _ (unchanged s) λ i _.
          elim (Bool-cases (has_key i (table k s.entries))) [
            | inl e ↦ rw e (write-Written k _ s (Entries-erase IsEntry i _ (table-IsValid k s h)) h)
            | inr e ↦ rw e (unchanged s)
          ]

  pub set_visibility-Written :
      (kind identity visibility : String) (s : OwnershipStore)
      → IsValid s
      → Written s (set_visibility py kind identity visibility s).0
  unfolding set_visibility
  set_visibility-Written kind identity visibility s h =
      attempt_keeps (Written s) (parse_kind kind) s _ (unchanged s) λ k _.
        elim (Bool-cases (contains visibility visibilities)) [
          | inr e ↦ rw e (unchanged s)
          | inl named ↦ rw named (
              attempt_keeps (Written s) (parse_identity py identity) s _ (unchanged s) λ i _.
                elim (Option-cases (lookup i (table k s.entries))) [
                  | inl e ↦ rw e (unchanged s)
                  | inr (o, e) ↦
                      rw e (write_entry k i _ s (shown i o visibility named (entry k i o s h e)) h)
                ])
        ]

  pub set_owner-Written :
      (kind identity owner : String) (owner_name : Option String) (s : OwnershipStore)
      → IsValid s
      → Written s (set_owner py kind identity owner owner_name s).0
  unfolding set_owner
  set_owner-Written kind identity owner owner_name s h =
      attempt_keeps (Written s) (parse_kind kind) s _ (unchanged s) λ k _.
        elim (Bool-cases (is_owner_text owner)) [
          | inr e ↦ rw e (unchanged s)
          | inl valid_owner ↦ rw valid_owner (elim (Bool-cases (is_owner_name owner_name)) [
            | inr e ↦ rw e (unchanged s)
            | inl valid_name ↦ rw valid_name (
                attempt_keeps (Written s) (parse_identity py identity) s _ (unchanged s) λ i parsed.
                  write_entry k i _ s
                    (record {
                      canonical = identity_canonical identity i parsed;
                      owner_ok = valid_owner;
                      name_ok = valid_name;
                      visibility_ok = kept_visibility k i s h;
                    })
                    h)
          ])
        ]

  -- The first owner is recorded only under a key that the file format accepts.
  pub record_owner-Written :
      (kind identity : String) (principal : Option Principal) (s : OwnershipStore)
      → ((key : String) → owner_key principal ≡ some key → is_owner_text key ≡ true)
      → IsValid s
      → Written s (record_owner py kind identity principal s).0
  unfolding record_owner
  record_owner-Written kind identity principal s keyed h =
      attempt_keeps (Written s) (parse_kind kind) s _ (unchanged s) λ k _.
        elim (Option-cases (owner_key principal)) [
          | inl e ↦ rw e (unchanged s)
          | inr (key, e) ↦ rw e (
              attempt_keeps (Written s) (parse_identity py identity) s _ (unchanged s) λ i parsed.
                elim (Bool-cases (has_key i (table k s.entries))) [
                  | inl known ↦ rw known (unchanged s)
                  | inr new ↦ rw new (
                      write_entry k i _ s
                        (record {
                          canonical = identity_canonical identity i parsed;
                          owner_ok = keyed key e;
                          name_ok = recorded_name principal;
                          visibility_ok = default_of-IsValid k s h;
                        })
                        h)
                ])
        ]
