-- ===== src/Policy.antt =====
-- core/src/endbot_core/controller_policy.py: the console's grants and revocations. The time of a
-- grant is an argument.
pub mod Revocation
pub mod Grants
mod Tests
use text.Mathlib.Text.{starts_with}
use endbot.Prelude.{
  Bool, true, false, not, ◌&&◌, ◌||◌, Option, none, some, List, [], ◌∷◌, ◌++◌, map, String, ◌==◌,
  any, filter, length, nat_eq, find_first, contains, sorted_set, if◌then◌else◌, Dict, lookup, Json,
  str, int, arr, obj, pos, of_dict, of_list, as_dict, as_list, as_str, get_json, is_version_1,
  has_unknown, Result, ok, value_error, type_error, attribute_error, null, Error, raise_if,
  or_raise, attempt, traverse, Outcome, ◌>>=◌, ◌>>◌, PyText, drop_chars, StoreFile, read_document,
  replace_document,
}
use endbot.Enrollment.{Binding, to_json, is_xuid}

pub record Policy : Type 0 where
  pub grants : List Binding
  pub pending : List String
  pub denied_names : List String
  pub denied_xuids : List String
  pub denied_uuids : List String

pub record ControllerPolicy : Type 0 where
  pub path : StoreFile
  pub state : Policy

abbrev pub empty_policy : Policy
empty_policy = record {
  grants = [];
  pending = [];
  denied_names = [];
  denied_xuids = [];
  denied_uuids = [];
}

-- `_strings`
unfoldable pub strings : String → Dict Json → Result (List String)
strings key d = elim (lookup key d) [
  | none ↦ ok []
  | some j ↦ (do
    values ← or_raise (as_list j) value_error
    traverse (λ v. or_raise (as_str v) value_error) values)
]

-- The document of `_save`.
unfoldable pub to_document : Policy → Json
to_document s =
    let texts = λ (xs : List String). arr (of_list (map str xs)) in
    obj (
      of_dict (
        ("version", int (pos 1))
        ∷ ("grants", arr (of_list (map to_json s.grants)))
        ∷ ("pending", texts s.pending)
        ∷ ("deniedNames", texts s.denied_names)
        ∷ ("deniedXuids", texts s.denied_xuids)
        ∷ ("deniedUuids", texts s.denied_uuids)
        ∷ []))

-- `_save`: the new state counts only once it is written.
unfoldable pub save : Policy → ControllerPolicy → Outcome ControllerPolicy (Unit {0})
save state p =
    let (f, r) = replace_document (to_document state) p.path in
    attempt r (record p { path = f }) λ _. (record { path = f; state = state }, ok tt)

-- `remove`'s sets of names, XUIDs and UUIDs.
pub record Aliases : Type 0 where
  pub names : List String
  pub xuids : List String
  pub uuids : List String

module _ (py : PyText) where
  unfoldable pub controller_name : String → Result String
  controller_name value = do
    raise_if (py.strip value == "" || not (py.is_printable value)) value_error
    ok (py.strip value)

  -- What `UUID` raises for a value that is no text.
  abbrev no_uuid : Json → Error
  no_uuid null = type_error
  no_uuid _ = attribute_error

  -- The body of the loop over `grants`.
  unfoldable pub parse_grant : Json → Result Binding
  parse_grant entry = do
    d ← or_raise (as_dict entry) value_error
    raise_if
        (has_unknown ("gamertag" ∷ "xuid" ∷ "uuid" ∷ "boundAt" ∷ []) d || not (nat_eq (length d) 4))
        value_error
    xuid ← or_raise (as_str (get_json "xuid" d)) value_error
    raise_if (not (is_xuid xuid)) value_error
    bound_at ← or_raise (as_str (get_json "boundAt" d)) value_error
    text ← or_raise (as_str (get_json "gamertag" d)) value_error
    gamertag ← controller_name text
    given ← or_raise (as_str (get_json "uuid" d)) (no_uuid (get_json "uuid" d))
    uuid ← or_raise (py.uuid given) value_error
    ok (record { gamertag = gamertag; xuid = xuid; uuid = uuid; bound_at = bound_at })

  -- Whether an XUID stands twice among the grants.
  abbrev pub has_duplicate : List Binding → Bool
  has_duplicate [] = false
  has_duplicate (b ∷ bs) = any (λ c. c.xuid == b.xuid) bs || has_duplicate bs

  unfoldable pub parse_policy : Json → Result Policy
  parse_policy j = do
    d ← or_raise (as_dict j) value_error
    raise_if (not (is_version_1 (get_json "version" d))) value_error
    raise_if
        (has_unknown
          ("version" ∷ "grants" ∷ "pending" ∷ "deniedNames" ∷ "deniedXuids" ∷ "deniedUuids" ∷ []) d)
        value_error
    entries ← elim (lookup "grants" d) [ none ↦ ok [] | some g ↦ or_raise (as_list g) type_error ]
    grants ← traverse parse_grant entries
    raise_if (has_duplicate grants) value_error
    given_pending ← strings "pending" d
    pending ← traverse controller_name given_pending
    given_names ← strings "deniedNames" d
    denied_names ← traverse controller_name given_names
    denied_xuids ← strings "deniedXuids" d
    raise_if (any (λ x. not (is_xuid x)) denied_xuids) value_error
    given_uuids ← strings "deniedUuids" d
    denied_uuids ← traverse (λ u. or_raise (py.uuid u) value_error) given_uuids
    ok (record {
      grants = grants;
      pending = pending;
      denied_names = denied_names;
      denied_xuids = denied_xuids;
      denied_uuids = denied_uuids;
    })

  unfoldable pub load_policy : StoreFile → Result Policy
  load_policy f = do
    document ← read_document f
    elim document [ none ↦ ok empty_policy | some j ↦ parse_policy j ]

  -- `ControllerPolicy(path)`
  unfoldable pub init : StoreFile → Result ControllerPolicy
  unfolding load_policy
  init f = do state ← load_policy f; ok (record { path = f; state = state })

  -- `x.casefold() == y.casefold()`
  abbrev pub same_name : String → String → Bool
  same_name x y = py.casefold x == py.casefold y

  -- A malformed UUID raises, unless the XUID already decides.
  unfoldable pub denied : String → String → Policy → Result Bool
  denied xuid player_uuid s =
      if contains xuid s.denied_xuids
      then ok true
      else (do uuid ← or_raise (py.uuid player_uuid) value_error; ok (contains uuid s.denied_uuids))

  unfoldable pub name_denied : String → Policy → Bool
  name_denied name s = contains (py.casefold name) (map py.casefold s.denied_names)

  -- The `any` of `grants`.
  unfoldable pub granted_among : String → List Binding → Policy → Result Bool
  granted_among xuid [] s = ok false
  granted_among xuid (b ∷ bs) s =
      let rest = granted_among xuid bs s in
      if b.xuid == xuid then (do d ← denied b.xuid b.uuid s; if d then rest else ok true) else rest

  -- `grants`
  unfoldable pub grants_xuid : String → Policy → Result Bool
  grants_xuid xuid s = if is_xuid xuid then granted_among xuid s.grants s else ok false

  unfoldable pub is_selector : String → Bool
  is_selector name = starts_with (py.lower name) "xuid:" || starts_with (py.lower name) "uuid:"

  abbrev pub without_name : String → List String → List String
  without_name name = filter (λ v. not (same_name v name))

  abbrev pub without : String → List String → List String
  without x = filter (λ v. not (v == x))

  -- The state that a grant to a known account leaves.
  unfoldable pub with_grant : Binding → Policy → Policy
  with_grant b s = record {
    grants = filter (λ c. not (c.xuid == b.xuid)) s.grants ++ b ∷ [];
    pending = without_name b.gamertag s.pending;
    denied_names = without_name b.gamertag s.denied_names;
    denied_xuids = without b.xuid s.denied_xuids;
    denied_uuids = without b.uuid s.denied_uuids;
  }

  -- `add` of a known account, from the second line on.
  unfoldable pub add_account :
      String
      → String
      → String
      → Option String
      → ControllerPolicy
      → Outcome ControllerPolicy (Unit {0})
  add_account now name xuid player_uuid p =
      attempt (raise_if (not (is_xuid xuid)) value_error) p λ _.
        attempt (or_raise player_uuid value_error) p λ given.
          attempt (or_raise (py.uuid given) value_error) p λ uuid.
            save
              (with_grant (record { gamertag = name; xuid = xuid; uuid = uuid; bound_at = now })
                p.state)
              p

  -- A name that an existing grant carries is granted again to that grant's account.
  unfoldable pub add :
      String
      → String
      → Option String
      → Option String
      → ControllerPolicy
      → Outcome ControllerPolicy (Unit {0})
  add now given xuid player_uuid p = attempt (controller_name given) p λ name.
      attempt (raise_if (is_selector name) value_error) p λ _. elim xuid [
        | some x ↦ add_account now name x player_uuid p
        | none ↦ elim (find_first (λ b. same_name b.gamertag name) p.state.grants) [
          | some b ↦ attempt (controller_name name) p λ again.
              attempt (raise_if (is_selector again) value_error) p
                λ _. add_account now again b.xuid (some b.uuid) p
          | none ↦
              save
                (record (p.state) {
                  pending = without_name name p.state.pending ++ name ∷ [];
                  denied_names = without_name name p.state.denied_names;
                })
                p
        ]
      ]

  unfoldable pub enroll :
      String → String → String → String → ControllerPolicy → Outcome ControllerPolicy Bool
  enroll now name xuid player_uuid p =
      if not (is_xuid xuid) || not (contains (py.casefold name) (map py.casefold p.state.pending))
      then (p, ok false)
      else attempt (denied xuid player_uuid p.state) p λ revoked.
        if revoked
        then (p, ok false)
        else let (p', r) = add now name (some xuid) (some player_uuid) p in
          attempt r p' λ _. (p', ok true)

  -- The names, XUIDs and UUIDs that the target and the arguments give.
  unfoldable pub selected : String → Option String → Option String → Result Aliases
  selected target xuid player_uuid = do
    base ←
        (if starts_with (py.lower target) "xuid:"
          then (do
            raise_if (not (is_xuid (drop_chars 5 target))) value_error
            ok (record { names = []; xuids = drop_chars 5 target ∷ []; uuids = [] }))
          else if starts_with (py.lower target) "uuid:"
          then (do
            u ← or_raise (py.uuid (drop_chars 5 target)) value_error
            ok (record { names = []; xuids = []; uuids = u ∷ [] }))
          else ok (record { names = py.casefold target ∷ []; xuids = []; uuids = [] }))
    elim xuid [
      | none ↦ ok base
      | some x ↦ (do
        raise_if (not (is_xuid x)) value_error
        given ← or_raise player_uuid value_error
        u ← or_raise (py.uuid given) value_error
        ok (record base { xuids = x ∷ base.xuids; uuids = u ∷ base.uuids }))
    ]

  -- The body of the loop that resolves aliases.
  unfoldable pub absorb : Binding → Aliases → Aliases
  absorb b a =
      if contains (py.casefold b.gamertag) a.names
        || contains b.xuid a.xuids
        || contains b.uuid a.uuids
      then record {
        names = py.casefold b.gamertag ∷ a.names;
        xuids = b.xuid ∷ a.xuids;
        uuids = b.uuid ∷ a.uuids;
      }
      else a

  unfoldable pub absorb_all : List Binding → Aliases → Aliases
  absorb_all [] a = a
  absorb_all (b ∷ bs) a = absorb_all bs (absorb b a)

  -- The state that a revocation leaves. The grants stay.
  unfoldable pub revoked_state : Aliases → Policy → Policy
  revoked_state a s = record s {
    pending = filter (λ v. not (contains (py.casefold v) a.names)) s.pending;
    denied_names = sorted_set (s.denied_names ++ a.names);
    denied_xuids = sorted_set (s.denied_xuids ++ a.xuids);
    denied_uuids = sorted_set (s.denied_uuids ++ a.uuids);
  }

  unfoldable pub remove :
      String
      → List Binding
      → List String
      → Option String
      → Option String
      → ControllerPolicy
      → Outcome ControllerPolicy (Unit {0})
  remove given known configured xuid player_uuid p = attempt (controller_name given) p λ target.
      attempt (selected target xuid player_uuid) p λ start.
        let all_bindings = known ++ p.state.grants in
        let a = absorb_all all_bindings (absorb_all all_bindings start) in
        let names = map py.casefold (configured ++ p.state.pending ++ p.state.denied_names) in
        let unknown =
          nat_eq (length a.xuids) 0
          && nat_eq (length a.uuids) 0
          && not (contains (py.casefold target) names) in
        attempt (raise_if unknown value_error) p λ _. save (revoked_state a p.state) p
