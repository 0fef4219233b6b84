-- ===== src/Groups.antt =====
-- core/src/endbot_core/groups.py: named groups of Bots and their file (`GroupStore`).
mod Written
mod Changes
mod Start
mod Select
mod Visible
mod Hidden
mod Invariant
mod Tests
use Prim.Native.Char.{code}
use Prim.Native.Nat.{◌*◌}
use Prim.Native.String
use endbot.Prelude.{
  ℕ, zero, suc, ◌+◌, ◌-◌, Bool, true, false, not, ◌&&◌, ◌||◌, Option, none, some, List, [], ◌∷◌,
  ◌++◌, map, String, ◌==◌, leb, ltb, nat_eq, any, filter, find_first, contains, has_repeat, length,
  chars, concat, if◌then◌else◌, Json, str, int, pos, obj, arr, of_dict, of_list, as_dict, as_list,
  as_str, get_json, is_version_1, Result, ok, err, value_error, localized, raise_if, or_raise,
  Outcome, attempt, traverse, ◌>>=◌, ◌>>◌, PyText, StoreFile, read_document, replace_document,
}

abbrev pub is_letter : ℕ → Bool
is_letter c = leb b'a' c && leb c b'z' || leb b'A' c && leb c b'Z' || nat_eq c b'_'

abbrev is_digit : ℕ → Bool
is_digit c = leb b'0' c && leb c b'9'

-- `[A-Za-z0-9_]*`
unfoldable pub is_word : String → Bool
is_word String.[] = true
is_word (String.◌∷◌ c s) = (is_letter (code c) || is_digit (code c)) && is_word s

-- `GROUP_NAME.fullmatch`
unfoldable pub is_group_name : String → Bool
is_group_name String.[] = false
is_group_name (String.◌∷◌ c s) = is_letter (code c) && is_word s && leb (chars s) 15

pub record Group : Type 0 where
  pub identity : String
  pub name : String
  pub members : List String

pub record GroupStore : Type 0 where
  pub path : StoreFile
  pub groups : List Group

-- `group_name` of a text; any other value raises the same error.
unfoldable pub group_name : String → Result String
group_name s = if is_group_name s then ok s else err value_error

unfoldable pub group_to_json : Group → Json
group_to_json g = obj (
    of_dict (
      ("identityId", str g.identity)
      ∷ ("name", str g.name)
      ∷ ("members", arr (of_list (map str g.members)))
      ∷ []))

-- The document that `_save` writes.
unfoldable pub to_document : List Group → Json
to_document gs =
    obj (of_dict (("version", int (pos 1)) ∷ ("groups", arr (of_list (map group_to_json gs))) ∷ []))

-- `_save`: the memory changes only once the file is written.
unfoldable pub save : List Group → GroupStore → Outcome GroupStore (Unit {0})
save gs s =
    let (f', r) = replace_document (to_document gs) s.path in
    (elim r [ ok _ ↦ record { path = f'; groups = gs } | err _ ↦ record s { path = f' } ], r)

module _ (py : PyText) where
  -- `str(UUID(value))`, all of whose exceptions become a `ValueError`.
  unfoldable pub uuid_of_json : Json → Result String
  uuid_of_json j = do s ← or_raise (as_str j) value_error; or_raise (py.uuid s) value_error

  -- A row of the file.
  unfoldable pub parse_group : Json → Result Group
  parse_group j = do
    row ← or_raise (as_dict j) value_error
    given ← or_raise (as_list (get_json "members" row)) value_error
    identity ← uuid_of_json (get_json "identityId" row)
    given_name ← or_raise (as_str (get_json "name" row)) value_error
    name ← group_name given_name
    members ← traverse uuid_of_json given
    raise_if (has_repeat members) value_error
    ok (record { identity = identity; name = name; members = members })

  abbrev pub key_of : Group → String
  key_of g = py.casefold g.name

  unfoldable pub parse_document : Json → Result (List Group)
  parse_document j = do
    d ← or_raise (as_dict j) value_error
    raise_if (not (is_version_1 (get_json "version" d))) value_error
    rows ← or_raise (as_list (get_json "groups" d)) value_error
    groups ← traverse parse_group rows
    raise_if (has_repeat (map key_of groups)) value_error
    raise_if (has_repeat (map (λ g. g.identity) groups)) value_error
    ok groups

  -- A missing file holds no groups.
  unfoldable pub document_groups : Option Json → Result (List Group)
  document_groups none = ok []
  document_groups (some j) = parse_document j

  -- `GroupStore(path)`
  unfoldable pub init : StoreFile → Result GroupStore
  init f = do
    document ← read_document f
    groups ← document_groups document
    ok (record { path = f; groups = groups })

  -- Whether a group has the name, in any case.
  abbrev pub is_named : String → Group → Bool
  is_named name g = key_of g == py.casefold name

  unfoldable pub get : String → GroupStore → Result Group
  get name s = do
    checked ← group_name name
    or_raise (find_first (is_named name) s.groups) localized

  -- `create`; `fresh` is the text of the UUID that `uuid4` gives. The group that is
  -- returned is the last one then.
  unfoldable pub create : String → String → GroupStore → Outcome GroupStore (Unit {0})
  create fresh name s = attempt (group_name name) s λ _.
      attempt (raise_if (any (is_named name) s.groups) localized) s
        λ _. save (s.groups ++ record { identity = fresh; name = name; members = [] } ∷ []) s

  unfoldable pub delete : String → GroupStore → Outcome GroupStore (Unit {0})
  delete name s =
      attempt (get name s) s λ g. save (filter (λ e. not (e.identity == g.identity)) s.groups) s

  -- `_replace`
  unfoldable pub replace : Group → GroupStore → Outcome GroupStore (Unit {0})
  replace g s = save (map (λ e. if e.identity == g.identity then g else e) s.groups) s

  unfoldable pub add : String → String → GroupStore → Outcome GroupStore (Unit {0})
  add name given s = attempt (get name s) s λ g.
      attempt (or_raise (py.uuid given) value_error) s λ identity.
        attempt (raise_if (contains identity g.members) value_error) s
          λ _. replace (record g { members = g.members ++ identity ∷ [] }) s

  unfoldable pub remove : String → String → GroupStore → Outcome GroupStore (Unit {0})
  remove name given s = attempt (get name s) s λ g.
      attempt (or_raise (py.uuid given) value_error) s λ identity.
        attempt (raise_if (not (contains identity g.members)) value_error) s
          λ _. replace (record g { members = filter (λ m. not (m == identity)) g.members }) s
