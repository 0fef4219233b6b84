-- ===== src/Scripts/Folder.antt =====
-- core/src/endbot_core/script_store.py: the operator's folder of scripts (`load_files`).
use Prim.Native.Char.{code}
use endbot.Prelude.{
  ℕ, Bool, false, not, ◌&&◌, ◌||◌, Option, some, none, List, [], ◌∷◌, ◌++◌, String, ◌==◌, leb, ltb,
  length, nat_eq, concat, if◌then◌else◌, str_leb, ℤ, Dict, insert, has_key, Error, Result, ok, err,
  localized, raise_if, or_raise, PyText, ◌>>=◌, ◌>>◌,
}
use endbot.Scripts.{Script, file_owner, script_name}
use endbot.Scripts.Calls.{Bounds}

-- What `load_files` reads of a path of the folder: `name`, `stem` and `suffix`, what it is, its size, the text
-- that its bytes decode to, `none` where they are no UTF-8, and its time.
pub record Entry : Type 0 where
  pub name : String
  pub stem : String
  pub suffix : String
  pub symlink : Bool
  pub regular : Bool
  pub size : ℕ
  pub text : Option String
  pub modified : ℤ

pub record Folder : Type 0 where
  pub symlink : Bool
  pub present : Bool
  pub is_dir : Bool
  pub entries : List Entry

-- `source.replace("\r\n", "\n").replace("\r", "\n")`, behind a carriage return or not.
unfoldable pub newlines : Bool → String → String
newlines behind String.[] = String.[]
newlines behind (String.◌∷◌ c s) =
    let rest = newlines (nat_eq (code c) 13) s in
    if nat_eq (code c) 13
    then String.◌∷◌ "\n" rest
    else if behind && nat_eq (code c) 10
    then rest
    else String.◌∷◌ c rest

-- The scripts by folded name, and the problems: the files that are skipped.
abbrev pub Loaded : Type 0
Loaded = Dict Script × List (String × Error)

-- `digest` gives the first 16 hexadecimal digits of the SHA-256 of a text.
module _ (py : PyText) (digest : String → String) (config : Bounds) where
  unfoldable pub place_entry : Entry → List Entry → List Entry
  place_entry x [] = x ∷ []
  place_entry x (y ∷ ys) =
      let rest = place_entry x ys in
      if str_leb (py.casefold x.name) (py.casefold y.name) then x ∷ y ∷ ys else y ∷ rest

  -- `sorted(directory.iterdir(), key=lambda entry: entry.name.casefold())`
  unfoldable pub sort_entries : List Entry → List Entry
  sort_entries [] = []
  sort_entries (x ∷ xs) = place_entry x (sort_entries xs)

  abbrev pub is_script_file : Entry → Bool
  is_script_file e = py.lower e.suffix == ".luau"

  -- A file of the folder, behind those that gave `scripts`.
  unfoldable pub load_file : Dict Script → Entry → Result Script
  load_file scripts e = do
    name ← script_name e.stem
    raise_if (e.symlink || not e.regular) localized
    raise_if (ltb config.max_script_bytes e.size) localized
    text ← or_raise e.text localized
    raise_if (py.strip (newlines false text) == "") localized
    raise_if (has_key (py.casefold name) scripts) localized
    raise_if (leb config.max_scripts (length scripts)) localized
    ok (record {
      name = name;
      source = newlines false text;
      revision = concat "file:" (digest (newlines false text));
      owner = some file_owner;
      owner_name = none;
      visibility = "shared";
      history = [];
      saved_at = e.modified;
    })

  -- The turn of the loop, once the file is loaded or refused.
  unfoldable pub note_file : Entry → Loaded → Result Script → Loaded
  note_file e l (err raised) = (l.0, l.1 ++ (e.name, raised) ∷ [])
  note_file e l (ok s) = (insert (py.casefold s.name) s l.0, l.1)

  unfoldable pub load_entry : Loaded → Entry → Loaded
  load_entry l e = if is_script_file e then note_file e l (load_file l.0 e) else l

  unfoldable pub load_entries : Loaded → List Entry → Loaded
  load_entries l [] = l
  load_entries l (e ∷ es) = load_entries (load_entry l e) es

  unfoldable pub load_files : Folder → Result Loaded
  load_files f =
      if f.symlink || f.present && not f.is_dir
      then err localized
      else if f.present
      then ok (load_entries ([], []) (sort_entries f.entries))
      else ok ([], [])
