-- ===== src/Scripts/Restored.antt =====
-- The history of a script: an overwritten source can be brought back.
use endbot.Prelude.{
  ◌≡◌, refl, sym, ap, subst, ◌∙◌, inl, inr, Bool, true, false, not, ◌&&◌, Option, some, none,
  String, arith, eq_refl, has_key, ok, attempt-eq-ok, PyText, lookup, insert, lookup-insert, Dict,
  ℤ, Bool-cases, overwrite_document,
}
use endbot.Groups.{is_group_name}
use endbot.Scripts.{Revision, Script, ScriptStore, script_name, save_all}
use endbot.Scripts.Calls.{
  Bounds, get, stored, find_stored, entry_at, saved_script, is_accepted, check_save, save, restore,
}
use endbot.Scripts.Written.{IsStored}
use endbot.Scripts.Found.{first_of, lookup-all_scripts, stored_folded}
use endbot.Scripts.Invariant.{check_save_returned, save-IsStored}

-- A store whose file can be written.
abbrev pub is_writable : ScriptStore → Bool
is_writable s = not s.path.symlink && s.path.writable

-- A save that returned has put the scripts into memory, and its file stays writable.
save_all_returned :
    (d : Dict Script) (s : ScriptStore)
    → (save_all d s).1 ≡ ok tt
    → ((save_all d s).0.scripts ≡ d)
      × ((save_all d s).0.files ≡ s.files)
      × (is_writable (save_all d s).0 ≡ true)
unfolding save_all overwrite_document
save_all_returned d s h = elim (Bool-cases s.path.symlink) [
  | inl link ↦ absurd (ground arith)
  | inr plain ↦ elim (Bool-cases s.path.writable) [
    | inl writable ↦ (ground arith, ground arith, ground arith)
    | inr refused ↦ absurd (ground arith)
  ]
]

save_all_writable :
    (d : Dict Script) (s : ScriptStore)
    → is_writable s ≡ true
    → ((save_all d s).1 ≡ ok tt) × ((save_all d s).0.scripts ≡ d)
unfolding save_all overwrite_document
save_all_writable d s h = elim (Bool-cases s.path.symlink) [
  | inl link ↦ absurd (ground arith)
  | inr plain ↦ elim (Bool-cases s.path.writable) [
    | inl writable ↦ rw (plain, writable) (refl, refl)
    | inr refused ↦ absurd (ground arith)
  ]
]

module _ (py : PyText) (config : Bounds) where
  -- A stored script is found by the name that it has.
  stored_of_lookup :
      (name : String) (c : Script) (s : ScriptStore)
      → IsStored py s
      → is_group_name name ≡ true
      → has_key (py.casefold name) s.files ≡ false
      → lookup (py.casefold name) s.scripts ≡ some c
      → stored py name s ≡ ok c
  unfolding stored get script_name first_of
  stored_of_lookup name c s h n free found =
      rw (free, n, lookup-all_scripts py (py.casefold name) s h, found) refl

  -- Restoring the newest entry of a script under its current revision returns.
  restore_newest :
      (fresh : String) (now : ℤ) (name : String) (c : Script) (r : Revision) (s : ScriptStore)
      → IsStored py s
      → is_group_name name ≡ true
      → has_key (py.casefold name) s.files ≡ false
      → lookup (py.casefold name) s.scripts ≡ some c
      → entry_at 1 c.history ≡ some r
      → is_accepted py config r.source ≡ true
      → is_writable s ≡ true
      → ((restore py config fresh now name 1 (some c.revision) s).1 ≡ ok tt)
        × (lookup
              (py.casefold name)
              (restore py config fresh now name 1 (some c.revision) s).0.scripts
            ≡ some (saved_script fresh now c.name r.source none none (some c)))
  unfolding restore save check_save find_stored script_name
  restore_newest fresh now name c r s h n free found entry accepted writable =
      let old = stored_folded py (py.casefold name) s h found in
      let free' = subst (λ k. has_key k s.files ≡ false) old.folded free in
      let found' = subst (λ k. lookup k s.scripts ≡ some c) old.folded found in
      let d =
        insert (py.casefold c.name) (saved_script fresh now c.name r.source none none (some c))
          s.scripts in
      let (returned, memory) = save_all_writable d s writable in
      rw
        (
          stored_of_lookup name c s h n free found,
          entry,
          old.name_ok,
          accepted,
          free',
          found',
          eq_refl c.revision,
        )
        (
          returned,
          rw
              (
                memory,
                lookup-insert (py.casefold c.name) (py.casefold name),
                old.folded,
                eq_refl (py.casefold c.name),
              )
              refl,
        )

  -- What a save of a script with the current revision `c.revision` stores, and that it leaves the
  -- file writable.
  save_returned :
      (fresh : String) (now : ℤ) (name source : String) (owner owner_name : Option String)
      (c : Script) (s : ScriptStore)
      → lookup (py.casefold name) s.scripts ≡ some c
      → (save py config fresh now name source (some c.revision) owner owner_name s).1 ≡ ok tt
      → (is_group_name name ≡ true)
        × (has_key
              (py.casefold name)
              (save py config fresh now name source (some c.revision) owner owner_name s).0.files
            ≡ false)
        × (lookup
              (py.casefold name)
              (save py config fresh now name source (some c.revision) owner owner_name s).0.scripts
            ≡ some (saved_script fresh now name source owner owner_name (some c)))
        × (is_writable (save py config fresh now name source (some c.revision) owner owner_name s).0
            ≡ true)
  unfolding save
  save_returned fresh now name source owner owner_name c s found h =
      let (current, e, same) =
        attempt-eq-ok (check_save py config name source (some c.revision) s) s _ h in
      let (n, free, found', _) = check_save_returned py config name source (some c.revision) s e in
      let d =
        insert (py.casefold name) (saved_script fresh now name source owner owner_name current)
          s.scripts in
      let (memory, files, writable) = save_all_returned d s (sym (ap (λ o. o.1) same) ∙ h) in
      let value : current ≡ some c = sym found' ∙ found in
      rw same (
        n,
        rw files free,
        rw
            (
              memory,
              lookup-insert (py.casefold name) (py.casefold name),
              eq_refl (py.casefold name),
              value,
            )
            refl,
        writable,
      )

  -- If a call of `save` has updated a stored script that was `c`, and the source of `c` still
  -- passes the checks on sources, then `restore` of entry 1 under the new revision returns, and the script has
  -- the source of `c` again, its visibility unchanged, a new revision, and the overwritten
  -- source as the newest entry of its history.
  pub save-restore :
      (fresh fresh' : String) (now now' : ℤ) (name source : String)
      (owner owner_name : Option String) (c : Script) (s : ScriptStore)
      → IsStored py s
      → lookup (py.casefold name) s.scripts ≡ some c
      → is_accepted py config c.source ≡ true
      → (save py config fresh now name source (some c.revision) owner owner_name s).1 ≡ ok tt
      → let saved = (save py config fresh now name source (some c.revision) owner owner_name s).0 in
        let after = restore py config fresh' now' name 1 (some fresh) saved in
        (after.1 ≡ ok tt)
        × (c' : Script) × (lookup (py.casefold name) after.0.scripts ≡ some c')
        × (c'.source ≡ c.source)
        × (c'.visibility ≡ c.visibility)
        × (c'.revision ≡ fresh')
        × (entry_at 1 c'.history
            ≡ some (record { revision = fresh; source = source; saved_at = now }))
  unfolding saved_script
  save-restore fresh fresh' now now' name source owner owner_name c s h found accepted returned =
      let (n, free, stored_now, writable) =
        save_returned fresh now name source owner owner_name c s found returned in
      let (done, result) =
        restore_newest fresh' now' name _ _ _
          (save-IsStored py config fresh now name source (some c.revision) owner owner_name s h) n
          free stored_now refl accepted writable in
      (done, _, result, refl, refl, refl, refl)
