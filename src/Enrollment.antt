-- ===== src/Enrollment.antt =====
-- core/src/endbot_core/enrollment.py: GamerTags that bind to an XUID at the first authenticated
-- join. The time of a binding is an argument.
pub mod Permanence
mod Tests
use endbot.Prelude.{
  Bool, true, false, not, ◌&&◌, ◌||◌, Option, none, some, List, [], ◌∷◌, map, String, ◌==◌, any,
  filter, find_first, contains, if◌then◌else◌, Dict, has_key, insert, Json, str, int, arr, obj, pos,
  of_dict, of_list, as_dict, as_list, as_str, get_json, is_version_1, Result, ok, value_error,
  type_error, raise_if, or_raise, attempt, traverse, Outcome, ◌>>=◌, ◌>>◌, PyText, is_decimal,
  StoreFile, read_text_document, overwrite_document,
}

pub record Binding : Type 0 where
  pub gamertag : String
  pub xuid : String
  pub uuid : String
  pub bound_at : String

-- `Binding.to_json`
unfoldable pub to_json : Binding → Json
to_json b = obj (
    of_dict (
      ("gamertag", str b.gamertag)
      ∷ ("xuid", str b.xuid)
      ∷ ("uuid", str b.uuid)
      ∷ ("boundAt", str b.bound_at)
      ∷ []))

-- `_is_xuid`
unfoldable pub is_xuid : String → Bool
is_xuid s = is_decimal s && not (s == "0")

pub record ControllerEnrollment : Type 0 where
  pub gamertags : List String
  pub bindings_path : Option StoreFile
  pub bindings_by_name : Dict Binding

-- `self._bindings.values()`
abbrev pub values : Dict Binding → List Binding
values = map (λ e. e.1)

unfoldable pub bindings : ControllerEnrollment → List Binding
bindings e = values e.bindings_by_name

-- The document of `_write_bindings`.
unfoldable pub bindings_document : List Binding → Json
bindings_document bs =
    obj (of_dict (("version", int (pos 1)) ∷ ("bindings", arr (of_list (map to_json bs))) ∷ []))

module _ (py : PyText) where
  -- The loop of `parse_gamertags`, with the keys that it has seen.
  unfoldable pub parse_gamertags_from : List Json → List String → Result (List String)
  parse_gamertags_from [] seen = ok []
  parse_gamertags_from (value ∷ rest) seen = do
    text ← or_raise (as_str value) type_error
    raise_if (py.strip text == "") type_error
    let key = py.casefold (py.strip text)
    raise_if (contains key seen) value_error
    tags ← parse_gamertags_from rest (key ∷ seen)
    ok (py.strip text ∷ tags)

  unfoldable pub parse_gamertags : Json → Result (List String)
  unfolding parse_gamertags_from
  parse_gamertags values = do vs ← or_raise (as_list values) type_error; parse_gamertags_from vs []

  -- The body of the loop of `load_bindings`.
  unfoldable pub parse_binding : Json → Result Binding
  parse_binding entry = do
    d ← or_raise (as_dict entry) value_error
    gamertag ← or_raise (as_str (get_json "gamertag" d)) value_error
    raise_if (gamertag == "") value_error
    xuid ← or_raise (as_str (get_json "xuid" d)) value_error
    raise_if (not (is_xuid xuid)) value_error
    bound_at ← or_raise (as_str (get_json "boundAt" d)) value_error
    text ← or_raise (as_str (get_json "uuid" d)) value_error
    uuid ← or_raise (py.uuid text) value_error
    ok (record { gamertag = gamertag; xuid = xuid; uuid = uuid; bound_at = bound_at })

  unfoldable pub load_bindings : StoreFile → Result (List Binding)
  unfolding read_text_document parse_binding
  load_bindings f = do
    document ← read_text_document f
    elim document [
      | none ↦ ok []
      | some j ↦ (do
        d ← or_raise (as_dict j) value_error
        raise_if (not (is_version_1 (get_json "version" d))) value_error
        entries ← or_raise (as_list (get_json "bindings" d)) value_error
        traverse parse_binding entries)
    ]

  abbrev pub keys_of : List String → List String
  keys_of = map py.casefold

  -- The dict comprehension of `__init__`: of two bindings of one name the later stays.
  abbrev index_bindings : List Binding → Dict Binding → Dict Binding
  index_bindings [] d = d
  index_bindings (b ∷ bs) d = index_bindings bs (insert (py.casefold b.gamertag) b d)

  -- `__init__`
  unfoldable pub init : List String → Option StoreFile → Result ControllerEnrollment
  init gamertags path = do
    stored ← elim path [ none ↦ ok [] | some f ↦ load_bindings f ]
    let honoured = filter (λ b. contains (py.casefold b.gamertag) (keys_of gamertags)) stored
    ok (record {
      gamertags = gamertags;
      bindings_path = path;
      bindings_by_name = index_bindings honoured [];
    })

  unfoldable pub pending : ControllerEnrollment → List String
  pending e = filter (λ tag. not (has_key (py.casefold tag) e.bindings_by_name)) e.gamertags

  -- The end of `authorize`: a new binding, kept only once it is written.
  unfoldable pub bind_new :
      String
      → String
      → String
      → String
      → StoreFile
      → ControllerEnrollment
      → Outcome ControllerEnrollment (Bool × Option Binding)
  bind_new now tag xuid player_uuid f e =
      attempt (or_raise (py.uuid player_uuid) value_error) e λ uuid.
        let b : Binding = record { gamertag = tag; xuid = xuid; uuid = uuid; bound_at = now } in
        let updated = insert (py.casefold tag) b e.bindings_by_name in
        let (f', r) = overwrite_document (bindings_document (values updated)) f in
        attempt r (record e { bindings_path = some f' })
          λ _. (record e { bindings_path = some f'; bindings_by_name = updated }, ok (true, some b))

  unfoldable pub authorize :
      String
      → String
      → String
      → String
      → ControllerEnrollment
      → Outcome ControllerEnrollment (Bool × Option Binding)
  authorize now name xuid player_uuid e =
      let key = py.casefold name in
      if not (is_xuid xuid)
      then (e, ok (false, none))
      else if any (λ b. b.xuid == xuid) (bindings e)
      then (e, ok (true, none))
      else if has_key key e.bindings_by_name || not (contains key (keys_of e.gamertags))
      then (e, ok (false, none))
      else elim e.bindings_path [
        | none ↦ (e, ok (false, none))
        | some f ↦ elim (find_first (λ tag. py.casefold tag == key) e.gamertags) [
          | none ↦ (e, ok (false, none))
          | some tag ↦ bind_new now tag xuid player_uuid f e
        ]
      ]
