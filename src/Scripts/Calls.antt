-- ===== src/Scripts/Calls.antt =====
-- core/src/endbot_core/script_store.py: the methods of `ScriptStore`.
use endbot.Prelude.{
  ℕ, zero, suc, Bool, not, ◌&&◌, true, false, Option, none, some, List, [], ◌∷◌, map, String, ◌==◌,
  leb, length, filter, contains, if◌then◌else◌, str_leb, is_some, ℤ, Dict, lookup, insert, erase,
  has_key, Result, ok, localized, raise_if, or_raise, Outcome, attempt, PyText, ◌>>=◌, ◌>>◌,
}
use endbot.Registry.{utf8_length}
use endbot.Scripts.{
  Revision, Script, ScriptStore, history_limit, visibilities, is_file, take, script_name, save_all,
}

-- What the store reads of `ScriptConfig`.
pub record Bounds : Type 0 where
  pub max_script_bytes : ℕ
  pub max_scripts : ℕ

-- `{**d, **e}`
unfoldable pub merge : Dict Script → Dict Script → Dict Script
merge d [] = d
merge d ((k, s) ∷ e) = merge (insert k s d) e

-- `_all`
unfoldable pub all_scripts : ScriptStore → Dict Script
all_scripts s = merge s.files s.scripts

-- `set_files`, and the names that it skips.
unfoldable pub set_files : Dict Script → ScriptStore → ScriptStore × List String
set_files files s = (
  record s { files = filter (λ e. not (has_key e.0 s.scripts)) files },
  map (λ e. e.1.name) (filter (λ e. has_key e.0 s.scripts) files),
)

-- `current.revision if current else None`
abbrev pub revision_of : Option Script → Option String
revision_of none = none
revision_of (some s) = some s.revision

abbrev pub same_revision : Option String → Option String → Bool
same_revision none none = true
same_revision none (some _) = false
same_revision (some _) none = false
same_revision (some a) (some b) = a == b

-- `a or b`: an empty text counts as missing.
abbrev pub or_else : Option String → Option String → Option String
or_else none b = b
or_else (some a) b = if a == "" then b else some a

-- `history[index - 1]`, counted from 1.
abbrev pub entry_at : ℕ → List Revision → Option Revision
entry_at n [] = none
entry_at zero (r ∷ rs) = none
entry_at (suc zero) (r ∷ rs) = some r
entry_at (suc (suc n)) (r ∷ rs) = entry_at (suc n) rs

-- What `save` stores: `fresh` is the text that `uuid4` gives, `now` the time.
unfoldable pub saved_script :
    String → ℤ → String → String → Option String → Option String → Option Script → Script
saved_script fresh now name source owner owner_name none = record {
  name = name;
  source = source;
  revision = fresh;
  owner = owner;
  owner_name = owner_name;
  visibility = "private";
  history = [];
  saved_at = now;
}
saved_script fresh now name source owner owner_name (some c) = record c {
  source = source;
  saved_at = now;
  revision = fresh;
  history =
      take history_limit
        (record { revision = c.revision; source = c.source; saved_at = c.saved_at } ∷ c.history);
  owner = or_else c.owner owner;
  owner_name = or_else c.owner_name owner_name;
}

module _ (py : PyText) where
  abbrev key_of : Script → String
  key_of s = py.casefold s.name

  -- `list`: by the folded name.
  unfoldable place_script : Script → List Script → List Script
  place_script x [] = x ∷ []
  place_script x (y ∷ ys) =
      let rest = place_script x ys in if str_leb (key_of x) (key_of y) then x ∷ y ∷ ys else y ∷ rest

  unfoldable sort_scripts : Dict Script → List Script
  sort_scripts [] = []
  sort_scripts ((k, s) ∷ d) = place_script s (sort_scripts d)

  unfoldable list_scripts : ScriptStore → List Script
  list_scripts s = sort_scripts (all_scripts s)

  unfoldable pub get : String → ScriptStore → Result Script
  get name s = do
    checked ← script_name name
    or_raise (lookup (py.casefold name) (all_scripts s)) localized

  -- `_stored(name, must_exist=False)` and `_stored(name)`; a script of a file is never changed.
  unfoldable pub find_stored : String → ScriptStore → Result (Option Script)
  find_stored name s = do
    raise_if (has_key (py.casefold name) s.files) localized
    ok (lookup (py.casefold name) s.scripts)

  unfoldable pub stored : String → ScriptStore → Result Script
  stored name s = do raise_if (has_key (py.casefold name) s.files) localized; get name s

  unfoldable pub set_visibility :
      String → String → String → ScriptStore → Outcome ScriptStore (Unit {0})
  set_visibility name visibility expected s =
      attempt (raise_if (not (contains visibility visibilities)) localized) s λ _.
        attempt (stored name s) s λ c.
          attempt (raise_if (not (c.revision == expected)) localized) s λ _.
            save_all (insert (py.casefold name) (record c { visibility = visibility }) s.scripts) s

  unfoldable pub set_owner :
      String → Option String → Option String → String → ScriptStore → Outcome ScriptStore (Unit {0})
  set_owner name owner owner_name revision s = attempt (get name s) s λ c.
      attempt (raise_if (is_file c) localized) s λ _.
        attempt (raise_if (not (c.revision == revision)) localized) s λ _.
          save_all
            (insert (py.casefold c.name) (record c { owner = owner; owner_name = owner_name })
              s.scripts)
            s

  -- Whether another script has the new name.
  abbrev pub is_taken : String → String → ScriptStore → Bool
  is_taken name new_name s =
      not (py.casefold new_name == py.casefold name)
      && has_key (py.casefold new_name) (all_scripts s)

  unfoldable pub rename : String → String → String → ScriptStore → Outcome ScriptStore (Unit {0})
  rename name new_name expected s = attempt (script_name new_name) s λ _.
      attempt (stored name s) s λ c.
        attempt (raise_if (not (c.revision == expected)) localized) s λ _.
          attempt (raise_if (is_taken name new_name s) localized) s λ _.
            save_all
              (insert (py.casefold new_name) (record c { name = new_name })
                (erase (py.casefold name) s.scripts))
              s

  unfoldable pub delete : String → String → ScriptStore → Outcome ScriptStore (Unit {0})
  delete name expected s = attempt (stored name s) s λ c.
      attempt (raise_if (not (c.revision == expected)) localized) s
        λ _. save_all (erase (py.casefold name) s.scripts) s

module _ (py : PyText) (config : Bounds) where
  -- `_checked`
  unfoldable pub is_accepted : String → Bool
  is_accepted source =
      not (py.strip source == "") && leb (utf8_length source) config.max_script_bytes

  -- The checks of `save`, and the script that it replaces.
  unfoldable pub check_save : String → String → Option String → ScriptStore → Result (Option Script)
  check_save name source expected s = do
    checked ← script_name name
    raise_if (not (is_accepted source)) localized
    current ← find_stored py name s
    raise_if (not (same_revision expected (revision_of current))) localized
    raise_if (not (is_some current) && leb config.max_scripts (length s.scripts)) localized
    ok current

  -- `save`; the script that it returns is the one stored then.
  unfoldable pub save :
      String
      → ℤ
      → String
      → String
      → Option String
      → Option String
      → Option String
      → ScriptStore
      → Outcome ScriptStore (Unit {0})
  save fresh now name source expected owner owner_name s =
      attempt (check_save name source expected s) s λ current.
        save_all
          (insert (py.casefold name) (saved_script fresh now name source owner owner_name current)
            s.scripts)
          s

  -- `restore`; the index of history entries starts at 1.
  unfoldable pub restore :
      String → ℤ → String → ℕ → Option String → ScriptStore → Outcome ScriptStore (Unit {0})
  restore fresh now name index expected s = attempt (stored py name s) s λ c.
      attempt (or_raise (entry_at index c.history) localized) s
        λ r. save fresh now c.name r.source expected none none s
