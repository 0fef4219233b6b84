-- ===== src/Scripts/Found.antt =====
-- What the methods of the script store find: the stored script of a name, or a script of the folder.
use endbot.Prelude.{
  ◌≡◌, refl, sym, ap, subst, ◌∙◌, inl, inr, Bool, true, false, not, Option, some, none, [], ◌∷◌,
  ◌==◌, String, arith, if◌then◌else◌, is_some, eq_iff, filter, localized, Result, ok, err, ok_inj,
  or_raise, bind_returned, raise_if, raise_if_returned, or_raise_returned, guard_returned, PyText,
  Bool-cases, Option-cases, eq-cases, lookup, insert, lookup-insert, has_key, Dict, Entries,
  Entries-lookup,
}
use endbot.Groups.{is_group_name}
use endbot.Scripts.{Script, ScriptStore, is_file, script_name}
use endbot.Scripts.Calls.{merge, all_scripts, get, stored}
use endbot.Scripts.Written.{IsScript, IsStored}

-- `a` if it is there, else `b`.
unfoldable pub first_of : Option Script → Option Script → Option Script
first_of none b = b
first_of (some a) b = some a

pub has_key_found :
    (k : String) (d : Dict Script) {c : Script} → lookup k d ≡ some c → has_key k d ≡ true
has_key_found k d h = rw h refl

pub has_key_absent : (k : String) (d : Dict Script) → lookup k d ≡ none → has_key k d ≡ false
has_key_absent k d h = rw h refl

pub absent_of_has_key : (k : String) (d : Dict Script) → has_key k d ≡ false → lookup k d ≡ none
absent_of_has_key k d h = elim (Option-cases (lookup k d)) [
  | inl e ↦ e
  | inr (c, e) ↦ absurd (ground arith)
]

-- A key of the second table hides the same key of the first.
lookup-merge :
    (j : String) (d e : Dict Script) (P : String → Script → Type 0)
    → Entries P e
    → lookup j (merge d e) ≡ first_of (lookup j e) (lookup j d)
unfolding merge first_of lookup
lookup-merge j d [] P h = refl
lookup-merge j d ((k, s) ∷ e) P h = elim (eq-cases k j) [
  | inl same ↦
      rw
        (
          lookup-merge j (insert k s d) e P h.2,
          lookup-insert k j s d,
          ← same,
          h.1,
          endbot.Prelude.eq_refl k,
        )
        refl
  | inr other ↦ rw (lookup-merge j (insert k s d) e P h.2, lookup-insert k j s d, other) refl
]

pub script_name_returned : (s t : String) → script_name s ≡ ok t → is_group_name s ≡ true
unfolding script_name
script_name_returned s t e = (guard_returned (is_group_name s) localized s t e).0

module _ (py : PyText) where
  pub lookup-all_scripts :
      (j : String) (s : ScriptStore)
      → IsStored py s
      → lookup j (all_scripts s) ≡ first_of (lookup j s.scripts) (lookup j s.files)
  unfolding all_scripts
  lookup-all_scripts j s h = lookup-merge j s.files s.scripts (IsScript py) h.valid

  get_found :
      (name : String) (s : ScriptStore) {c : Script}
      → IsStored py s
      → get py name s ≡ ok c
      → first_of (lookup (py.casefold name) s.scripts) (lookup (py.casefold name) s.files) ≡ some c
  unfolding get
  get_found name s h e0 =
      let (_, _, e1) = bind_returned (script_name name) _ e0 in
      sym (lookup-all_scripts (py.casefold name) s h) ∙ or_raise_returned _ localized e1

  -- A stored script that `_stored` finds is the one in the table of stored scripts.
  pub stored_found :
      (name : String) (s : ScriptStore) {c : Script}
      → IsStored py s
      → stored py name s ≡ ok c
      → (has_key (py.casefold name) s.files ≡ false)
        × (lookup (py.casefold name) s.scripts ≡ some c)
  unfolding stored first_of
  stored_found name s {c} h e0 =
      let (_, r, e1) =
        bind_returned (raise_if (has_key (py.casefold name) s.files) localized) _ e0 in
      let apart : has_key (py.casefold name) s.files ≡ false = raise_if_returned _ localized r in
      let found = get_found name s {c = c} h e1 in
      elim (Option-cases (lookup (py.casefold name) s.scripts)) [
        | inl n ↦ absurd (ground (arith, absent_of_has_key (py.casefold name) s.files apart))
        | inr (a, e) ↦ (apart, ground arith)
      ]

  -- A script that `get` finds and that is no file is a stored one.
  pub get_found_stored :
      (name : String) (s : ScriptStore) {c : Script}
      → IsStored py s
      → get py name s ≡ ok c
      → is_file c ≡ false
      → (has_key (py.casefold name) s.files ≡ false)
        × (lookup (py.casefold name) s.scripts ≡ some c)
  unfolding first_of
  get_found_stored name s {c} h e0 own =
      let found = get_found name s {c = c} h e0 in
      elim (Option-cases (lookup (py.casefold name) s.scripts)) [
        | inl n ↦
            let file : lookup (py.casefold name) s.files ≡ some c = sym (rw n) ∙ found in
            let yes_file = Entries-lookup (λ k f. is_file f ≡ true) _ _ s.files h.folder file in
            absurd (cc)
        | inr (a, e) ↦ elim (Bool-cases (has_key (py.casefold name) s.files)) [
          | inl in_files ↦ absurd (ground (arith, h.apart (py.casefold name) in_files))
          | inr apart ↦ (apart, ground arith)
        ]
      ]

  -- The key of a stored script is its folded name.
  pub stored_folded :
      (k : String) (s : ScriptStore) {c : Script}
      → IsStored py s
      → lookup k s.scripts ≡ some c
      → IsScript py k c
  stored_folded k s h e = Entries-lookup (IsScript py) k _ s.scripts h.valid e
