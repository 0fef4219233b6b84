-- ===== src/Roles.antt =====
-- core/src/endbot_core/controller_roles.py: roles by XUID, and roles that wait for their GamerTag.
use endbot.Prelude.{
  Bool, false, not, ◌&&◌, ◌||◌, Option, none, some, List, [], ◌∷◌, map, String, ◌==◌, leb, contains,
  if◌then◌else◌, Dict, lookup, has_key, insert, erase, sort_items, Json, int, str, obj, pos,
  of_dict, as_dict, as_str, get_json, is_version_1, has_unknown, Result, ok, value_error,
  type_error, raise_if, or_raise, attempt, Outcome, ◌>>=◌, ◌>>◌, PyText, chars, StoreFile,
  read_document, replace_document,
}
use endbot.Enrollment.{is_xuid}

abbrev pub roles : List String
roles = "scripter" ∷ "controller" ∷ []

pub record ControllerRoles : Type 0 where
  pub path : Option StoreFile
  pub by_xuid : Dict String
  pub waiting : Dict String

unfoldable pub to_document : Dict String → Dict String → Json
to_document by_xuid waiting =
    let texts = λ (d : Dict String). obj (of_dict (map (λ e. (e.0, str e.1)) (sort_items d))) in
    let written = texts waiting in
    let tail : Dict Json = elim waiting [ [] ↦ [] | _ ∷ _ ↦ ("pending", written) ∷ [] ] in
    obj (of_dict (("version", int (pos 1)) ∷ ("roles", texts by_xuid) ∷ tail))

unfoldable pub save : ControllerRoles → Outcome ControllerRoles (Unit {0})
save r = elim r.path [
  | none ↦ (r, ok tt)
  | some f ↦
      let (f', w) = replace_document (to_document r.by_xuid r.waiting) f in
      (record r { path = some f' }, w)
]

unfoldable pub role : String → ControllerRoles → String
role xuid r = elim (lookup xuid r.by_xuid) [ none ↦ "scripter" | some name ↦ name ]

unfoldable pub set : String → String → ControllerRoles → Outcome ControllerRoles (Unit {0})
set xuid name r = attempt (raise_if (not (is_xuid xuid)) value_error) r λ _.
    attempt (raise_if (not (contains name roles)) value_error) r
      λ _. save (record r { by_xuid = insert xuid name r.by_xuid })

-- The loops of `forget` and `forget_pending` over the keys to remove.
unfoldable pub erase_all : List String → Dict String → Dict String
erase_all [] d = d
erase_all (k ∷ ks) d = erase_all ks (erase k d)

abbrev pub has_any : List String → Dict String → Bool
has_any [] d = false
has_any (k ∷ ks) d = has_key k d || has_any ks d

unfoldable pub forget : List String → ControllerRoles → Outcome ControllerRoles (Unit {0})
forget xuids r =
    if has_any xuids r.by_xuid
    then save (record r { by_xuid = erase_all xuids r.by_xuid })
    else (r, ok tt)

module _ (py : PyText) where
  unfoldable pub is_gamertag : String → Bool
  is_gamertag s = not (s == "") && leb (chars s) 256 && py.is_printable s

  unfoldable pub set_pending :
      String → String → ControllerRoles → Outcome ControllerRoles (Unit {0})
  set_pending gamertag name r = attempt (raise_if (not (is_gamertag gamertag)) value_error) r λ _.
      attempt (raise_if (not (contains name roles)) value_error) r
        λ _. save (record r { waiting = insert (py.casefold gamertag) name r.waiting })

  unfoldable pub forget_pending : List String → ControllerRoles → Outcome ControllerRoles (Unit {0})
  forget_pending gamertags r =
      let keys = map py.casefold gamertags in
      if has_any keys r.waiting
      then save (record r { waiting = erase_all keys r.waiting })
      else (r, ok tt)

  unfoldable pub pending_role : String → ControllerRoles → Option String
  pending_role gamertag r = lookup (py.casefold gamertag) r.waiting

  -- A role in the file.
  abbrev role_of_json : Json → Result String
  role_of_json j = do
    name ← or_raise (as_str j) value_error
    raise_if (not (contains name roles)) value_error
    ok name

  -- The first loop of `_load`.
  unfoldable pub parse_roles : Dict Json → Dict String → Result (Dict String)
  parse_roles [] parsed = ok parsed
  parse_roles ((xuid, value) ∷ rest) parsed = do
    raise_if (not (is_xuid xuid)) value_error
    name ← role_of_json value
    parse_roles rest (insert xuid name parsed)

  -- The second loop of `_load`.
  unfoldable pub parse_pending : Dict Json → Dict String → Result (Dict String)
  parse_pending [] parsed = ok parsed
  parse_pending ((gamertag, value) ∷ rest) parsed = do
    raise_if (not (is_gamertag gamertag)) value_error
    name ← role_of_json value
    parse_pending rest (insert (py.casefold gamertag) name parsed)

  -- `document.get(key, {})`, which must be a dict.
  abbrev table_at : String → Dict Json → Result (Dict Json)
  table_at key d = elim (lookup key d) [ none ↦ ok [] | some j ↦ or_raise (as_dict j) type_error ]

  unfoldable pub parse_document : Json → Result (Dict String × Dict String)
  parse_document j = do
    d ← or_raise (as_dict j) value_error
    raise_if (not (is_version_1 (get_json "version" d))) value_error
    raise_if (has_unknown ("version" ∷ "roles" ∷ "pending" ∷ []) d) value_error
    given_roles ← table_at "roles" d
    by_xuid ← parse_roles given_roles []
    given_pending ← table_at "pending" d
    waiting ← parse_pending given_pending []
    ok (by_xuid, waiting)

  -- `_load`
  unfoldable pub load : StoreFile → Result (Dict String × Dict String)
  load f = do
    document ← read_document f
    elim document [ none ↦ ok ([], []) | some j ↦ parse_document j ]

  -- `ControllerRoles(path)`
  unfoldable pub init : Option StoreFile → Result ControllerRoles
  init path = do
    (by_xuid, waiting) ← elim path [ none ↦ ok ([], []) | some f ↦ load f ]
    ok (record { path = path; by_xuid = by_xuid; waiting = waiting })
