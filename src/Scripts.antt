-- ===== src/Scripts.antt =====
-- core/src/endbot_core/script_store.py: the stored scripts and their file (`ScriptStore`).
mod Calls
mod Written
mod Found
mod Run
mod Invariant
mod Start
mod Refines
mod Stale
mod Restored
mod Folder
mod Reported
mod Tests
use endbot.Prelude.{
  ℕ, zero, suc, Bool, not, ◌&&◌, true, false, Option, none, some, List, [], ◌∷◌, map, String, ◌==◌,
  nat_eq, if◌then◌else◌, ℤ, pos, Json, null, bool, int, str, arr, obj, of_dict, of_list, as_dict,
  as_list, as_str, get_json, Dict, lookup, insert, has_key, Result, ok, err, value_error,
  type_error, key_error, localized, raise_if, or_raise, Outcome, attempt, traverse, ◌>>=◌, ◌>>◌,
  PyText, StoreFile, read_document, overwrite_document, contains,
}
use endbot.Groups.{is_group_name}

-- `HISTORY`, `FILE_OWNER` and `VISIBILITIES`
abbrev pub history_limit : ℕ
history_limit = 10

abbrev pub file_owner : String
file_owner = "file"

abbrev pub visibilities : List String
visibilities = "private" ∷ "shared" ∷ []

pub record Revision : Type 0 where
  pub revision : String
  pub source : String
  pub saved_at : ℤ

pub record Script : Type 0 where
  pub name : String
  pub source : String
  pub revision : String
  pub owner : Option String
  pub owner_name : Option String
  pub visibility : String
  pub history : List Revision
  pub saved_at : ℤ

-- `Script.file`
abbrev pub is_file : Script → Bool
is_file s = elim s.owner [ none ↦ false | some o ↦ o == file_owner ]

-- `scripts` are the stored ones, `files` those of the operator's folder.
pub record ScriptStore : Type 0 where
  pub path : StoreFile
  pub scripts : Dict Script
  pub files : Dict Script

-- `xs[:n]`
abbrev pub take {ℓ} : {A : Type ℓ} → ℕ → List A → List A
take zero xs = []
take (suc n) [] = []
take (suc n) (x ∷ xs) = x ∷ take n xs

-- `script_name` of a text; `script_name_of_json` of the value of a row.
unfoldable pub script_name : String → Result String
script_name s = if is_group_name s then ok s else err localized

unfoldable pub script_name_of_json : Option Json → Result String
script_name_of_json none = err key_error
script_name_of_json (some j) = elim (as_str j) [ none ↦ err localized | some s ↦ script_name s ]

abbrev pub int_of_json : Json → Option ℤ
int_of_json (int n) = some n
int_of_json _ = none

-- `_revision`
unfoldable pub parse_revision : Json → Result Revision
parse_revision j = do
  row ← or_raise (as_dict j) value_error
  revision ← or_raise (as_str (get_json "revision" row)) value_error
  source ← or_raise (as_str (get_json "source" row)) value_error
  saved_at ← or_raise (int_of_json (get_json "savedAt" row)) value_error
  ok (record { revision = revision; source = source; saved_at = saved_at })

-- A value that is a text or `None`.
abbrev pub str_or_none : Json → Result (Option String)
str_or_none null = ok none
str_or_none (str s) = ok (some s)
str_or_none _ = err value_error

-- `row.get("visibility", "shared")`, which must be one of `VISIBILITIES`.
unfoldable pub visibility_of_json : Option Json → Result String
visibility_of_json none = ok "shared"
visibility_of_json (some j) = do
  v ← or_raise (as_str j) value_error
  raise_if (not (contains v visibilities)) value_error
  ok v

-- `row.get("history", [])`, which must be a list.
abbrev pub history_of_json : Option Json → Result (List Json)
history_of_json none = ok []
history_of_json (some j) = or_raise (as_list j) value_error

-- The time of a row; a missing one, or one that is no `int`, is 0.
abbrev pub saved_at_of_json : Json → ℤ
saved_at_of_json (int n) = n
saved_at_of_json _ = pos 0

-- `document.get("version") not in {1, 2}`; looking for a list or a dict in a set raises `TypeError`.
unfoldable pub check_version : Json → Result (Unit {0})
check_version (int (pos n)) =
    if nat_eq n 1 then ok tt else if nat_eq n 2 then ok tt else err value_error
check_version (bool b) = if b then ok tt else err value_error
check_version (arr _) = err type_error
check_version (obj _) = err type_error
check_version _ = err value_error

unfoldable pub revision_to_json : Revision → Json
revision_to_json r = obj (
    of_dict
      (("revision", str r.revision) ∷ ("source", str r.source) ∷ ("savedAt", int r.saved_at) ∷ []))

abbrev pub str_to_json : Option String → Json
str_to_json none = null
str_to_json (some s) = str s

unfoldable pub script_to_json : Script → Json
script_to_json s = obj (
    of_dict (
      ("name", str s.name)
      ∷ ("source", str s.source)
      ∷ ("revision", str s.revision)
      ∷ ("owner", str_to_json s.owner)
      ∷ ("ownerName", str_to_json s.owner_name)
      ∷ ("visibility", str s.visibility)
      ∷ ("savedAt", int s.saved_at)
      ∷ ("history", arr (of_list (map revision_to_json s.history)))
      ∷ []))

-- The document that `_save` writes.
unfoldable pub to_document : Dict Script → Json
to_document d = obj (
    of_dict (
      ("version", int (pos 2)) ∷ ("scripts", arr (of_list (map (λ e. script_to_json e.1) d))) ∷ []))

-- `_save`: the memory changes only once the file is written.
unfoldable pub save_all : Dict Script → ScriptStore → Outcome ScriptStore (Unit {0})
save_all d s = attempt (raise_if s.path.symlink localized) s λ _.
    let (f', r) = overwrite_document (to_document d) s.path in
    (elim r [ ok _ ↦ record s { path = f'; scripts = d } | err _ ↦ record s { path = f' } ], r)

module _ (py : PyText) where
  -- A row of the file, behind the rows that made `d`.
  unfoldable pub parse_row : Dict Script → Json → Result (Dict Script)
  parse_row d j = do
    row ← or_raise (as_dict j) value_error
    source ← or_raise (as_str (get_json "source" row)) value_error
    revision ← or_raise (as_str (get_json "revision" row)) value_error
    owner ← str_or_none (get_json "owner" row)
    owner_name ← str_or_none (get_json "ownerName" row)
    visibility ← visibility_of_json (lookup "visibility" row)
    entries ← history_of_json (lookup "history" row)
    name ← script_name_of_json (lookup "name" row)
    raise_if (has_key (py.casefold name) d) value_error
    history ← traverse parse_revision (take history_limit entries)
    ok (
        insert (py.casefold name)
          (record {
            name = name;
            source = source;
            revision = revision;
            owner = owner;
            owner_name = owner_name;
            visibility = visibility;
            history = history;
            saved_at = saved_at_of_json (get_json "savedAt" row);
          })
          d)

  unfoldable pub parse_rows : Dict Script → List Json → Result (Dict Script)
  parse_rows d [] = ok d
  parse_rows d (j ∷ js) = parse_row d j >>= λ d'. parse_rows d' js

  unfoldable pub parse_document : Json → Result (Dict Script)
  parse_document j = do
    d ← or_raise (as_dict j) value_error
    check_version (get_json "version" d)
    rows ← or_raise (as_list (get_json "scripts" d)) value_error
    parse_rows [] rows

  -- A missing file holds no scripts.
  unfoldable pub document_scripts : Option Json → Result (Dict Script)
  document_scripts none = ok []
  document_scripts (some j) = parse_document j

  -- `ScriptStore(path, config)`
  unfoldable pub init : StoreFile → Result ScriptStore
  init f = do
    document ← read_document f
    scripts ← document_scripts document
    ok (record { path = f; scripts = scripts; files = [] })
