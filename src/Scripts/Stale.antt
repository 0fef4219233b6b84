-- ===== src/Scripts/Stale.antt =====
-- A menu that was opened before a script changed cannot change it any more.
use endbot.Prelude.{
  ◌≡◌, refl, sym, ap, subst, ◌∙◌, Bool, true, false, not, Option, some, none, String, ◌==◌, arith,
  contains, err, localized, attempt-cases, raise_if, raise_if_returned, or_raise, Result, Error,
  PyText, lookup, ℕ, ℤ,
}
use endbot.Scripts.{Script, ScriptStore, is_file, visibilities, script_name}
use endbot.Scripts.Calls.{
  Bounds, get, stored, revision_of, same_revision, entry_at, check_save, save, restore,
  set_visibility, set_owner, rename, delete,
}
use endbot.Scripts.Written.{IsStored}
use endbot.Scripts.Found.{stored_found, get_found_stored, stored_folded}
use endbot.Scripts.Run.{Call, saving, restoring, showing, giving, renaming, deleting, run}
use endbot.Scripts.Invariant.{check_save_returned}
use endbot.Scripts.Refines.{Raised}

-- The script that a call is about, and the revision that its caller has seen.
abbrev pub target : Call → String
target (saving _ _ name _ _ _ _) = name
target (restoring _ _ name _ _) = name
target (showing name _ _) = name
target (giving name _ _ _) = name
target (renaming name _ _) = name
target (deleting name _) = name

abbrev pub seen : Call → Option String
seen (saving _ _ _ _ expected _ _) = expected
seen (restoring _ _ _ _ expected) = expected
seen (showing _ _ expected) = some expected
seen (giving _ _ _ revision) = some revision
seen (renaming _ _ expected) = some expected
seen (deleting _ expected) = some expected

module _ (py : PyText) (s : ScriptStore) where
  -- The revision that the store has under a name is another than `expected`.
  abbrev is_current : Option String → String → Bool
  is_current expected name =
      same_revision expected (revision_of (lookup (py.casefold name) s.scripts))

  raised : {A : Type 0} {r : Result A} (e : Error) → r ≡ err e → Raised s (s, err e)
  raised e h = (e, refl)

  not_current :
      (name expected : String) (c : Script)
      → lookup (py.casefold name) s.scripts ≡ some c
      → is_current (some expected) name ≡ false
      → (c.revision == expected) ≡ false
  not_current name expected c found h =
      endbot.Prelude.eq_comm c.revision expected
      ∙ sym (ap (λ o. same_revision (some expected) (revision_of o)) found)
      ∙ h

  -- A call that tests the revision of the script that it found does not pass.
  refused :
      (name expected : String) (c : Script)
      → lookup (py.casefold name) s.scripts ≡ some c
      → is_current (some expected) name ≡ false
      → raise_if (not (c.revision == expected)) localized ≡ err localized
  refused name expected c found h = rw (not_current name expected c found h) refl

  save-stale :
      (config : Bounds) (fresh : String) (now : ℤ) (name source : String)
      (expected owner owner_name : Option String)
      → is_current expected name ≡ false
      → Raised s (save py config fresh now name source expected owner owner_name s)
  unfolding save
  save-stale config fresh now name source expected owner owner_name h =
      attempt-cases (Raised s) (check_save py config name source expected s) s _ raised λ current e.
        let (_, _, found, same) = check_save_returned py config name source expected s e in
        absurd (ground (arith, found))

  -- On a store that satisfies `IsStored`, as every reached one does: if the revision that the caller has seen (none for a script that it means to
  -- create) is not the one that the store holds under the name, every kind of call raises and leaves
  -- the whole store, its file included, as it was.
  pub run-stale :
      (config : Bounds) (call : Call)
      → IsStored py s
      → is_current (seen call) (target call) ≡ false
      → Raised s (run py config call s)
  unfolding run restore set_visibility set_owner rename delete
  run-stale config (saving fresh now name source expected owner owner_name) w h =
      save-stale config fresh now name source expected owner owner_name h
  run-stale config (restoring fresh now name index expected) w h =
      attempt-cases (Raised s) (stored py name s) s _ raised λ c e.
        attempt-cases (Raised s) (or_raise (entry_at index c.history) localized) s _ raised λ r _.
          let (_, found) = stored_found py name s w e in
          save-stale config fresh now c.name r.source expected none none (
            subst (λ k. same_revision expected (revision_of (lookup k s.scripts)) ≡ false)
              (stored_folded py _ s w found).folded h)
  run-stale config (showing name visibility expected) w h =
      attempt-cases (Raised s) (raise_if (not (contains visibility visibilities)) localized) s _
        raised
        λ _ _.
          attempt-cases (Raised s) (stored py name s) s _ raised
            λ c e. rw (refused name expected c (stored_found py name s w e).1 h) (localized, refl)
  run-stale config (giving name owner owner_name expected) w h =
      attempt-cases (Raised s) (get py name s) s _ raised λ c e.
        attempt-cases (Raised s) (raise_if (is_file c) localized) s _ raised λ _ own.
          let found = (get_found_stored py name s w e (raise_if_returned _ localized own)).1 in
          rw (refused name expected c found h) (localized, refl)
  run-stale config (renaming name new_name expected) w h =
      attempt-cases (Raised s) (script_name new_name) s _ raised λ _ _.
        attempt-cases (Raised s) (stored py name s) s _ raised
          λ c e. rw (refused name expected c (stored_found py name s w e).1 h) (localized, refl)
  run-stale config (deleting name expected) w h =
      attempt-cases (Raised s) (stored py name s) s _ raised
        λ c e. rw (refused name expected c (stored_found py name s w e).1 h) (localized, refl)
