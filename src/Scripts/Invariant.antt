-- ===== src/Scripts/Invariant.antt =====
-- The stored scripts are at any time what the next start reads from the file.
use endbot.Prelude.{
  ◌≡◌, refl, sym, ap, subst, ◌∙◌, inl, inr, Bool, true, false, not, ◌&&◌, Option, some, none, [],
  ◌∷◌, ◌==◌, String, arith, ℕ, zero, suc, ◌≤◌, List, length, leb, contains, is_some, eq_iff, filter,
  localized, ok, attempt, attempt_keeps, raise_if, raise_if_returned, or_raise, bind_returned,
  PyText, Bool-cases, Option-cases, eq-cases, lookup, insert, erase, lookup-insert, lookup-erase,
  has_key, Dict, Entries, Entries-insert, Entries-erase, ℤ, ◌>>=◌,
}
use endbot.Groups.{is_group_name}
use endbot.Scripts.{Script, ScriptStore, is_file, take, script_name, visibilities, save_all}
use endbot.Scripts.Calls.{
  Bounds, get, find_stored, stored, revision_of, same_revision, entry_at, saved_script, is_accepted,
  check_save, save, restore, set_visibility, set_owner, is_taken, rename, delete,
}
use endbot.Scripts.Written.{IsScript, IsStored, save_all-IsStored}
use endbot.Scripts.Found.{
  first_of, script_name_returned, lookup-all_scripts, stored_found, get_found_stored, stored_folded,
}
use endbot.Scripts.Run.{Call, saving, restoring, showing, giving, renaming, deleting, run}

pub length-take {ℓ} : {A : Type ℓ} (n : ℕ) (xs : List A) → length (take n xs) ≤ n
length-take zero xs = omega arith
length-take (suc n) [] = omega arith
length-take (suc n) (x ∷ xs) = let rest = length-take n xs in omega arith

-- What `check_save` has tested when it returns.
pub check_save_returned :
    (py : PyText) (config : Bounds) (name source : String) (expected : Option String)
    (s : ScriptStore) {current : Option Script}
    → check_save py config name source expected s ≡ ok current
    → (is_group_name name ≡ true)
      × (has_key (py.casefold name) s.files ≡ false)
      × (lookup (py.casefold name) s.scripts ≡ current)
      × (same_revision expected (revision_of current) ≡ true)
unfolding check_save find_stored
check_save_returned py config name source expected s {current} e0 =
    let (_, n, e1) = bind_returned (script_name name) _ e0 in
    let (_, _, e2) = bind_returned (raise_if (not (is_accepted py config source)) localized) _ e1 in
    let (found, f, e3) = bind_returned (find_stored py name s) _ e2 in
    let (_, r, f') = bind_returned (raise_if (has_key (py.casefold name) s.files) localized) _ f in
    let same_found = endbot.Prelude.ok_inj _ _ f' in
    let (_, m, e4) =
      bind_returned (raise_if (not (same_revision expected (revision_of found))) localized) _ e3 in
    let (_, _, e5) =
      bind_returned
        (raise_if (not (is_some found) && leb config.max_scripts (length s.scripts)) localized) _
        e4 in
    let same = endbot.Prelude.ok_inj _ _ e5 in
    let matches : same_revision expected (revision_of found) ≡ true =
      ground (arith, raise_if_returned _ localized m) in
    (
      script_name_returned name _ n,
      raise_if_returned _ localized r,
      same_found ∙ same,
      subst (λ c. same_revision expected (revision_of c) ≡ true) same matches,
    )

module _ (py : PyText) where
  insert-IsStored :
      (k : String) (c : Script) (d : Dict Script) (s : ScriptStore)
      → IsStored py s
      → IsScript py k c
      → has_key k s.files ≡ false
      → Entries (IsScript py) d
      → ((j : String) → has_key j s.files ≡ true → lookup j d ≡ none)
      → IsStored py (save_all (insert k c d) s).0
  insert-IsStored k c d s h p free v apart =
      save_all-IsStored py (insert k c d) s (Entries-insert (IsScript py) k c d p v)
        (λ j in_files. elim (eq-cases k j) [
          | inl same ↦ absurd (ground arith)
          | inr other ↦ rw (lookup-insert k j c d, other) (apart j in_files)
        ])
        h

  erase-apart :
      (k : String) (s : ScriptStore)
      → IsStored py s
      → (j : String) → has_key j s.files ≡ true
      → lookup j (erase k s.scripts) ≡ none
  erase-apart k s h j in_files = ground (arith, lookup-erase k j s.scripts, h.apart j in_files)

  saved_script-IsScript :
      (fresh : String) (now : ℤ) (name source : String) (owner owner_name : Option String)
      (current : Option Script)
      → is_group_name name ≡ true
      → ((c : Script) → current ≡ some c → IsScript py (py.casefold name) c)
      → IsScript py (py.casefold name) (saved_script fresh now name source owner owner_name current)
  unfolding saved_script
  saved_script-IsScript fresh now name source owner owner_name none n h = record {
    folded = refl;
    name_ok = n;
    visibility_ok = refl;
    history_bounded = omega arith;
  }
  saved_script-IsScript fresh now name source owner owner_name (some c) n h =
      let old = h c refl in
      record {
        folded = old.folded;
        name_ok = old.name_ok;
        visibility_ok = old.visibility_ok;
        history_bounded = length-take 10 (
            record { revision = c.revision; source = c.source; saved_at = c.saved_at } ∷ c.history);
      }

  pub save-IsStored :
      (config : Bounds) (fresh : String) (now : ℤ) (name source : String)
      (expected owner owner_name : Option String) (s : ScriptStore)
      → IsStored py s
      → IsStored py (save py config fresh now name source expected owner owner_name s).0
  unfolding save
  save-IsStored config fresh now name source expected owner owner_name s h =
      attempt_keeps (IsStored py) (check_save py config name source expected s) s _ h λ current e.
        let (n, free, found, _) = check_save_returned py config name source expected s e in
        insert-IsStored _ _ s.scripts s h
          (saved_script-IsScript fresh now name source owner owner_name current n
            (λ c same. stored_folded py _ s h (found ∙ same)))
          free h.valid h.apart

  restore-IsStored :
      (config : Bounds) (fresh : String) (now : ℤ) (name : String) (index : ℕ)
      (expected : Option String) (s : ScriptStore)
      → IsStored py s
      → IsStored py (restore py config fresh now name index expected s).0
  unfolding restore
  restore-IsStored config fresh now name index expected s h =
      attempt_keeps (IsStored py) (stored py name s) s _ h λ c _.
        attempt_keeps (IsStored py) (or_raise (entry_at index c.history) localized) s _ h
          λ r _. save-IsStored config fresh now c.name r.source expected none none s h

  set_visibility-IsStored :
      (name visibility expected : String) (s : ScriptStore)
      → IsStored py s
      → IsStored py (set_visibility py name visibility expected s).0
  unfolding set_visibility
  set_visibility-IsStored name visibility expected s h =
      attempt_keeps (IsStored py) (raise_if (not (contains visibility visibilities)) localized) s _
        h
        λ _ v. attempt_keeps (IsStored py) (stored py name s) s _ h λ c e.
          attempt_keeps (IsStored py) (raise_if (not (c.revision == expected)) localized) s _ h
            λ _ _.
              let (free, found) = stored_found py name s h e in
              let old = stored_folded py _ s h found in
              let known = raise_if_returned _ localized v in
              insert-IsStored _ _ s.scripts s h
                (record {
                  folded = old.folded;
                  name_ok = old.name_ok;
                  visibility_ok = ground arith;
                  history_bounded = old.history_bounded;
                })
                free h.valid h.apart

  set_owner-IsStored :
      (name : String) (owner owner_name : Option String) (revision : String) (s : ScriptStore)
      → IsStored py s
      → IsStored py (set_owner py name owner owner_name revision s).0
  unfolding set_owner
  set_owner-IsStored name owner owner_name revision s h =
      attempt_keeps (IsStored py) (get py name s) s _ h λ c e.
        attempt_keeps (IsStored py) (raise_if (is_file c) localized) s _ h λ _ own.
          attempt_keeps (IsStored py) (raise_if (not (c.revision == revision)) localized) s _ h
            λ _ _.
              let (free, found) =
                get_found_stored py name s h e (raise_if_returned _ localized own) in
              let old = stored_folded py _ s h found in
              insert-IsStored _ _ s.scripts s h
                (record {
                  folded = refl;
                  name_ok = old.name_ok;
                  visibility_ok = old.visibility_ok;
                  history_bounded = old.history_bounded;
                })
                (subst (λ k. has_key k s.files ≡ false) old.folded free) h.valid h.apart

  -- A new name that is not taken is no name of a file.
  new_name_free :
      (name new_name : String) (s : ScriptStore)
      → IsStored py s
      → has_key (py.casefold name) s.files ≡ false
      → is_taken py name new_name s ≡ false
      → has_key (py.casefold new_name) s.files ≡ false
  unfolding first_of
  new_name_free name new_name s h free t =
      elim (eq-cases (py.casefold new_name) (py.casefold name)) [
        | inl same ↦ rw same free
        | inr other ↦ elim (Option-cases (lookup (py.casefold new_name) s.files)) [
          | inl n ↦ rw n refl
          | inr (c, e) ↦ absurd (
              ground (
                arith,
                lookup-all_scripts py (py.casefold new_name) s h,
                h.apart (py.casefold new_name),
              ))
        ]
      ]

  rename-IsStored :
      (name new_name expected : String) (s : ScriptStore)
      → IsStored py s
      → IsStored py (rename py name new_name expected s).0
  unfolding rename
  rename-IsStored name new_name expected s h =
      attempt_keeps (IsStored py) (script_name new_name) s _ h λ _ n.
        attempt_keeps (IsStored py) (stored py name s) s _ h λ c e.
          attempt_keeps (IsStored py) (raise_if (not (c.revision == expected)) localized) s _ h
            λ _ _.
              attempt_keeps (IsStored py) (raise_if (is_taken py name new_name s) localized) s _ h
                λ _ t.
                  let (free, found) = stored_found py name s h e in
                  let old = stored_folded py _ s h found in
                  insert-IsStored _ _ _ s h
                    (record {
                      folded = refl;
                      name_ok = script_name_returned new_name _ n;
                      visibility_ok = old.visibility_ok;
                      history_bounded = old.history_bounded;
                    })
                    (new_name_free name new_name s h free (raise_if_returned _ localized t))
                    (Entries-erase (IsScript py) _ s.scripts h.valid) (erase-apart _ s h)

  delete-IsStored :
      (name expected : String) (s : ScriptStore)
      → IsStored py s
      → IsStored py (delete py name expected s).0
  unfolding delete
  delete-IsStored name expected s h = attempt_keeps (IsStored py) (stored py name s) s _ h λ c _.
      attempt_keeps (IsStored py) (raise_if (not (c.revision == expected)) localized) s _ h λ _ _.
        save_all-IsStored py _ s (Entries-erase (IsScript py) _ s.scripts h.valid)
          (erase-apart _ s h) h

  pub run-IsStored :
      (config : Bounds) (call : Call) (s : ScriptStore)
      → IsStored py s
      → IsStored py (run py config call s).0
  unfolding run
  run-IsStored config (saving fresh now name source expected owner owner_name) s h =
      save-IsStored config fresh now name source expected owner owner_name s h
  run-IsStored config (restoring fresh now name index expected) s h =
      restore-IsStored config fresh now name index expected s h
  run-IsStored config (showing name visibility expected) s h =
      set_visibility-IsStored name visibility expected s h
  run-IsStored config (giving name owner owner_name revision) s h =
      set_owner-IsStored name owner owner_name revision s h
  run-IsStored config (renaming name new_name expected) s h =
      rename-IsStored name new_name expected s h
  run-IsStored config (deleting name expected) s h = delete-IsStored name expected s h
