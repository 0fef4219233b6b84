-- ===== src/Scripts/Refines.antt =====
-- The calls of the script store as changes of a map from folded names to scripts.
use endbot.Prelude.{
  ◌≡◌, refl, sym, ap, ◌∙◌, ◌⊎◌, inl, inr, not, Option, some, none, String, ◌==◌, arith,
  if◌then◌else◌, contains, Error, Result, localized, ok, err, Outcome, attempt-cases, raise_if,
  raise_if_returned, or_raise, or_raise_returned, PyText, lookup, insert, erase, lookup-insert,
  lookup-erase, Dict, ℕ, ℤ,
}
use endbot.Scripts.{Revision, Script, ScriptStore, is_file, visibilities, script_name, save_all}
use endbot.Scripts.Calls.{
  Bounds, get, stored, entry_at, saved_script, check_save, save, restore, set_visibility, set_owner,
  is_taken, rename, delete,
}
use endbot.Scripts.Written.{IsStored, save_all_cases}
use endbot.Scripts.Found.{stored_found, get_found_stored, stored_folded}
use endbot.Scripts.Run.{Call, saving, restoring, showing, giving, renaming, deleting, run}
use endbot.Scripts.Invariant.{check_save_returned}

-- What the store promises to hold: the script of each folded name.
abbrev pub Table : Type 0
Table = String → Option Script

abbrev pub put : String → Option Script → Table → Table
put k o t j = if k == j then o else t j

abbrev pub change : (Script → Script) → Option Script → Option Script
change f none = none
change f (some c) = some (f c)

-- The source of a history entry saved again, as a new revision.
unfoldable pub brought_back : String → ℤ → ℕ → Script → Script
brought_back fresh now index c = elim (entry_at index c.history) [
  | none ↦ c
  | some r ↦ saved_script fresh now c.name r.source none none (some c)
]

-- What a call that returns does.
unfoldable pub changed : PyText → Call → Table → Table
changed py (saving fresh now name source expected owner owner_name) t =
    put (py.casefold name)
      (some (saved_script fresh now name source owner owner_name (t (py.casefold name)))) t
changed py (restoring fresh now name index expected) t =
    put (py.casefold name) (change (brought_back fresh now index) (t (py.casefold name))) t
changed py (showing name visibility expected) t =
    put (py.casefold name)
      (change (λ c. record c { visibility = visibility }) (t (py.casefold name))) t
changed py (giving name owner owner_name revision) t =
    put (py.casefold name)
      (change (λ c. record c { owner = owner; owner_name = owner_name }) (t (py.casefold name))) t
changed py (renaming name new_name expected) t =
    put (py.casefold new_name) (change (λ c. record c { name = new_name }) (t (py.casefold name)))
      (put (py.casefold name) none t)
changed py (deleting name expected) t = put (py.casefold name) none t

abbrev pub table : ScriptStore → Table
table s k = lookup k s.scripts

-- A call has raised and left the store as it is.
abbrev pub Raised : ScriptStore → Outcome ScriptStore (Unit {0}) → Type 0
Raised s o = (e : Error) × (o ≡ (s, err e))

-- A call has raised and left the store as it is, or has returned with `o` as the script of
-- the name `k`, and with the same scripts of the folder.
abbrev pub Does : ScriptStore → Option Script → String → Outcome ScriptStore (Unit {0}) → Type 0
Does s o k r = Raised s r ⊎ ((r.1 ≡ ok tt) × (table r.0 k ≡ o) × (r.0.files ≡ s.files))

restored :
    (fresh : String) (now : ℤ) (index : ℕ) (c : Script) (r : Revision) (current o : Option Script)
    → entry_at index c.history ≡ some r
    → current ≡ some c
    → o ≡ some c
    → some (saved_script fresh now c.name r.source none none current)
      ≡ change (brought_back fresh now index) o
unfolding brought_back
restored fresh now index c r current o entry same found = rw (same, found, brought_back, entry) refl

module _ (py : PyText) (k : String) where
  save_all-Does :
      (d : Dict Script) (s : ScriptStore) (o : Option Script)
      → lookup k d ≡ o
      → Does s o k (save_all d s)
  save_all-Does d s o h = elim (save_all_cases py d s) [
    | inl (e, raised) ↦ inl (e, raised)
    | inr saved ↦
        inr
          (ap (λ r. r.1) saved, ap (λ r. lookup k r.0.scripts) saved ∙ h, ap (λ r. r.0.files) saved)
  ]

  insert-Does :
      (i j : String) (c : Script) (s : ScriptStore) (o : Option Script)
      → i ≡ j
      → some c ≡ o
      → Does s (put i o (table s) k) k (save_all (insert j c s.scripts) s)
  insert-Does i j c s o same h = save_all-Does _ s _ (
      lookup-insert j k c s.scripts
      ∙ ap (λ v. if j == k then v else lookup k s.scripts) h
      ∙ ap (λ x. if x == k then o else lookup k s.scripts) (sym same))

  -- A step that raises leaves the store as it is.
  raised :
      (s : ScriptStore) (o : Option Script) {A : Type 0} {r : Result A} (e : Error)
      → r ≡ err e
      → Does s o k (s, err e)
  raised s o e h = inl (e, refl)

  save-Does :
      (config : Bounds) (fresh : String) (now : ℤ) (name source : String)
      (expected owner owner_name : Option String) (s : ScriptStore)
      → Does s
          (changed py (saving fresh now name source expected owner owner_name) (table s) k)
          k
          (save py config fresh now name source expected owner owner_name s)
  unfolding save changed
  save-Does config fresh now name source expected owner owner_name s =
      attempt-cases (Does s _ k) (check_save py config name source expected s) s _ (raised s _)
        λ current e.
          let (_, _, found, _) = check_save_returned py config name source expected s e in
          insert-Does _ _ _ s _ refl
            (ap (λ o. some (saved_script fresh now name source owner owner_name o)) (sym found))

  restore-Does :
      (config : Bounds) (fresh : String) (now : ℤ) (name : String) (index : ℕ)
      (expected : Option String) (s : ScriptStore)
      → IsStored py s
      → Does s
          (changed py (restoring fresh now name index expected) (table s) k)
          k
          (restore py config fresh now name index expected s)
  unfolding restore save changed
  restore-Does config fresh now name index expected s h =
      attempt-cases (Does s _ k) (stored py name s) s _ (raised s _) λ c e.
        attempt-cases (Does s _ k) (or_raise (entry_at index c.history) localized) s _ (raised s _)
          λ r e'.
            let (_, found) = stored_found py name s h e in
            let entry = or_raise_returned (entry_at index c.history) localized e' in
            let folded = (stored_folded py _ s h found).folded in
            attempt-cases (Does s _ k) (check_save py config c.name r.source expected s) s _
              (raised s _)
              λ current e''.
                let (_, _, found', _) =
                  check_save_returned py config c.name r.source expected s e'' in
                insert-Does _ _ _ s _ folded (
                  restored fresh now index c r current _ entry
                    (sym found' ∙ ap (λ i. lookup i s.scripts) (sym folded) ∙ found) found)

  set_visibility-Does :
      (name visibility expected : String) (s : ScriptStore)
      → IsStored py s
      → Does s
          (changed py (showing name visibility expected) (table s) k)
          k
          (set_visibility py name visibility expected s)
  unfolding set_visibility changed
  set_visibility-Does name visibility expected s h =
      attempt-cases (Does s _ k) (raise_if (not (contains visibility visibilities)) localized) s _
        (raised s _)
        λ _ _. attempt-cases (Does s _ k) (stored py name s) s _ (raised s _) λ c e.
          attempt-cases (Does s _ k) (raise_if (not (c.revision == expected)) localized) s _
            (raised s _)
            λ _ _.
              let (_, found) = stored_found py name s h e in
              insert-Does _ _ _ s _ refl
                (sym (ap (change (λ d. record d { visibility = visibility })) found))

  set_owner-Does :
      (name : String) (owner owner_name : Option String) (revision : String) (s : ScriptStore)
      → IsStored py s
      → Does s
          (changed py (giving name owner owner_name revision) (table s) k)
          k
          (set_owner py name owner owner_name revision s)
  unfolding set_owner changed
  set_owner-Does name owner owner_name revision s h =
      attempt-cases (Does s _ k) (get py name s) s _ (raised s _) λ c e.
        attempt-cases (Does s _ k) (raise_if (is_file c) localized) s _ (raised s _) λ _ own.
          attempt-cases (Does s _ k) (raise_if (not (c.revision == revision)) localized) s _
            (raised s _)
            λ _ _.
              let (_, found) = get_found_stored py name s h e (raise_if_returned _ localized own) in
              insert-Does _ _ _ s _ (stored_folded py _ s h found).folded
                (sym (ap (change (λ d. record d { owner = owner; owner_name = owner_name })) found))

  rename-Does :
      (name new_name expected : String) (s : ScriptStore)
      → IsStored py s
      → Does s
          (changed py (renaming name new_name expected) (table s) k)
          k
          (rename py name new_name expected s)
  unfolding rename changed
  rename-Does name new_name expected s h =
      attempt-cases (Does s _ k) (script_name new_name) s _ (raised s _) λ _ _.
        attempt-cases (Does s _ k) (stored py name s) s _ (raised s _) λ c e.
          attempt-cases (Does s _ k) (raise_if (not (c.revision == expected)) localized) s _
            (raised s _)
            λ _ _.
              attempt-cases (Does s _ k) (raise_if (is_taken py name new_name s) localized) s _
                (raised s _)
                λ _ _.
                  let (_, found) = stored_found py name s h e in
                  save_all-Does _ s _ (
                    ground (
                      arith,
                      found,
                      lookup-insert (py.casefold new_name) k (record c { name = new_name })
                          (erase (py.casefold name) s.scripts),
                      lookup-erase (py.casefold name) k s.scripts,
                    ))

  delete-Does :
      (name expected : String) (s : ScriptStore)
      → Does s (changed py (deleting name expected) (table s) k) k (delete py name expected s)
  unfolding delete changed
  delete-Does name expected s =
      attempt-cases (Does s _ k) (stored py name s) s _ (raised s _) λ c _.
        attempt-cases (Does s _ k) (raise_if (not (c.revision == expected)) localized) s _
          (raised s _) λ _ _. save_all-Does _ s _ (lookup-erase (py.casefold name) k s.scripts)

  -- On a store that satisfies `IsStored`, as every reached one does, each call has raised and left the whole store, its file
  -- included, as it was, or has returned, changed no script of the folder, and the stored scripts
  -- are, name for name, those that `changed` makes of them: nothing but the named script (and, for a
  -- rename, the new name) is touched.
  pub run-refines :
      (config : Bounds) (call : Call) (s : ScriptStore)
      → IsStored py s
      → Does s (changed py call (table s) k) k (run py config call s)
  unfolding run
  run-refines config (saving fresh now name source expected owner owner_name) s h =
      save-Does config fresh now name source expected owner owner_name s
  run-refines config (restoring fresh now name index expected) s h =
      restore-Does config fresh now name index expected s h
  run-refines config (showing name visibility expected) s h =
      set_visibility-Does name visibility expected s h
  run-refines config (giving name owner owner_name revision) s h =
      set_owner-Does name owner owner_name revision s h
  run-refines config (renaming name new_name expected) s h = rename-Does name new_name expected s h
  run-refines config (deleting name expected) s h = delete-Does name expected s
