-- ===== src/Ownership/Restart.antt =====
-- What `_save` writes, the next start reads back.
use endbot.Prelude.{
  ◌≡◌, subst, refl, ap, ◌∙◌, inl, inr, true, false, Option, none, some, List, [], ◌∷◌, ◌++◌, map,
  String, arith, append_assoc, All, append-nil, Dict, lookup, sort_items, insert_absent, Entries,
  Entries-before, Entries-sort_items, lookup-sort_items, to_dict-of_dict, Json, of_dict, to_dict,
  ok, PyText, StoreFile, document, replace_document, read_document,
}
use endbot.Principal.{Principal}
use endbot.Ownership
use endbot.Ownership.{
  owner_key, is_owner_text, Ownership, Tables, name_of_json, name_to_json, entry_to_json,
  parse_entry, parse_table, table_of, parse_document, to_document, load_ownership, Kind, bots,
  groups, table, OwnershipStore, save, parse_identity,
}
use endbot.Ownership.Invariant.{
  IsEntry, IsValid, entries-save, Written, Written-IsValid, forget-Written, set_visibility-Written,
  set_owner-Written, record_owner-Written,
}

abbrev write : Dict Ownership → Dict Json
write = map (λ e. (e.0, entry_to_json e.1))

name_of_json-name_to_json : (n : Option String) → name_of_json (name_to_json n) ≡ ok n
name_of_json-name_to_json none = refl
name_of_json-name_to_json (some n) = refl

module _ (py : PyText) where
  parse_entry-entry_to_json :
      {i : String} (e : Ownership) → IsEntry py i e → parse_entry (entry_to_json e) ≡ ok e
  unfolding parse_entry lookup
  parse_entry-entry_to_json e h =
      rw (h.owner_ok, name_of_json-name_to_json e.owner_name, h.name_ok, h.visibility_ok)

  parse_table-write :
      (d c : Dict Ownership)
      → Entries (IsEntry py) (c ++ d)
      → Entries (IsEntry py) d
      → parse_table py (write d) c ≡ ok (c ++ d)
  unfolding parse_table parse_identity
  parse_table-write [] c h k = rw append-nil
  parse_table-write ((k, e) ∷ d) c h (p, fresh, rest) =
      let before : lookup k c ≡ none = Entries-before (IsEntry py) k e c d h in
      let moved : (c ++ (k, e) ∷ []) ++ d ≡ c ++ (k, e) ∷ d = append_assoc c _ d in
      simp (p.canonical, before, parse_entry-entry_to_json e p, insert_absent k e c before)
        (parse_table-write d (c ++ (k, e) ∷ []) (rw moved h) rest ∙ ap ok moved)

  parse_fields-write :
      (d : Dict Ownership)
      → Entries (IsEntry py) d
      → parse_table py (to_dict (of_dict (write (sort_items d)))) [] ≡ ok (sort_items d)
  parse_fields-write d h =
      let sorted = Entries-sort_items (IsEntry py) d h in
      rw to_dict-of_dict (parse_table-write (sort_items d) [] sorted sorted)

  -- Reading a written document gives the tables, each sorted by identity.
  pub parse_document-to_document :
      (t : Tables)
      → Entries (IsEntry py) t.bots_table
      → Entries (IsEntry py) t.groups_table
      → parse_document py (to_document t)
        ≡ ok (record {
          bots_table = sort_items t.bots_table;
          groups_table = sort_items t.groups_table;
        })
  unfolding parse_document to_document table_of lookup
  parse_document-to_document t b g =
      rw (parse_fields-write t.bots_table b, parse_fields-write t.groups_table g)

  -- Two pairs of tables with the same entries, in any order.
  abbrev pub SameTables : Tables → Tables → Type 0
  SameTables t u = (k : Kind) (i : String) → lookup i (table k t) ≡ lookup i (table k u)

  -- The store has a file that can be replaced, and reading it gives the entries in memory.
  abbrev pub IsSynced : OwnershipStore → Type 0
  IsSynced s =
      (f : StoreFile) × (t : Tables) × (s.path ≡ some f)
      × (f.symlink ≡ false)
      × (f.writable ≡ true)
      × (load_ownership py f ≡ ok t)
      × SameTables t s.entries

  sorted_tables : Tables → Tables
  sorted_tables t = record {
    bots_table = sort_items t.bots_table;
    groups_table = sort_items t.groups_table;
  }

  sorted_tables-SameTables : (t : Tables) → SameTables (sorted_tables t) t
  unfolding sorted_tables
  sorted_tables-SameTables t bots i = lookup-sort_items i t.bots_table
  sorted_tables-SameTables t groups i = lookup-sort_items i t.groups_table

  load-written :
      (s : OwnershipStore) (f : StoreFile)
      → IsValid py s
      → f.symlink ≡ false
      → load_ownership py (record f { content = document (to_document s.entries) })
        ≡ ok (sorted_tables s.entries)
  unfolding load_ownership sorted_tables read_document
  load-written s f h plain = rw plain (parse_document-to_document s.entries h.bots_ok h.groups_ok)

  -- The file after `_save`.
  saved_file : OwnershipStore → StoreFile → StoreFile
  saved_file s f = record f { content = document (to_document s.entries) }

  save-path :
      (s : OwnershipStore) (f : StoreFile)
      → s.path ≡ some f
      → f.symlink ≡ false
      → f.writable ≡ true
      → (save s).0.path ≡ some (saved_file s f)
  unfolding save replace_document saved_file
  save-path s f path plain writable = ground arith

  save-IsSynced :
      (s : OwnershipStore) (f : StoreFile)
      → IsValid py s
      → s.path ≡ some f
      → f.symlink ≡ false
      → f.writable ≡ true
      → IsSynced (save s).0
  unfolding sorted_tables saved_file
  save-IsSynced s f h path plain writable = (
    saved_file s f,
    sorted_tables s.entries,
    save-path s f path plain writable,
    plain,
    writable,
    load-written s f h plain,
    rw (entries-save py s) (sorted_tables-SameTables s.entries),
  )

  Written-IsSynced : (s s' : OwnershipStore) → IsSynced s → Written py s s' → IsSynced s'
  Written-IsSynced s s' h (inl e) = rw e h
  Written-IsSynced s s' (f, _, path, plain, writable, _, _) (inr (t, valid, e)) =
      rw e (save-IsSynced _ f valid path plain writable)

-- The methods that change the store, as calls.
pub data Call : Type 0 where
  record_owner : String → String → Option Principal → Call
  set_visibility : String → String → String → Call
  set_owner : String → String → String → Option String → Call
  forget : String → String → Call

-- The store after a call, whether it returned or raised.
abbrev pub after : PyText → Call → OwnershipStore → OwnershipStore
after py (record_owner k i p) s = (Ownership.record_owner py k i p s).0
after py (set_visibility k i v) s = (Ownership.set_visibility py k i v s).0
after py (set_owner k i o n) s = (Ownership.set_owner py k i o n s).0
after py (forget k i) s = (Ownership.forget py k i s).0

abbrev pub after_all : PyText → List Call → OwnershipStore → OwnershipStore
after_all py [] s = s
after_all py (c ∷ cs) s = after_all py cs (after py c s)

abbrev pub IsAcceptedKey : Option String → Type 0
IsAcceptedKey none = Unit
IsAcceptedKey (some key) = is_owner_text key ≡ true

-- A creator whose key the file format accepts.
abbrev pub IsAccepted : Call → Type 0
IsAccepted (record_owner k i p) = IsAcceptedKey (owner_key p)
IsAccepted _ = Unit

accepted_key :
    (o : Option String) → IsAcceptedKey o → (key : String) → o ≡ some key → is_owner_text key ≡ true
accepted_key none a key e = absurd cc
accepted_key (some k) a key e = subst (λ o. IsAcceptedKey o) e a

after-Written :
    (py : PyText) (c : Call) (s : OwnershipStore)
    → IsValid py s
    → IsAccepted c
    → Written py s (after py c s)
after-Written py (record_owner k i p) s h a =
    record_owner-Written py k i p s (accepted_key (owner_key p) a) h
after-Written py (set_visibility k i v) s h a = set_visibility-Written py k i v s h
after-Written py (set_owner k i o n) s h a = set_owner-Written py k i o n s h
after-Written py (forget k i) s h a = forget-Written py k i s h

-- Through any calls, returning or raising, every entry stays one that the file format accepts, and
-- the store's file goes on holding the entries in memory, if it did at first and can be replaced: the
-- next start reads exactly what the store knows. The creators' keys are such as the format accepts.
pub after_all-IsSynced :
    (py : PyText) (cs : List Call) (s : OwnershipStore)
    → All IsAccepted cs
    → IsValid py s
    → IsSynced py s
    → IsValid py (after_all py cs s) × IsSynced py (after_all py cs s)
after_all-IsSynced py [] s a h k = (h, k)
after_all-IsSynced py (c ∷ cs) s a h k =
    let w = after-Written py c s h a.0 in
    after_all-IsSynced py cs (after py c s) a.1 (Written-IsValid py s _ h w)
      (Written-IsSynced py s _ k w)
