-- ===== src/Revisions.antt =====
-- core/src/endbot_core/grant_revisions.py: a counter for each identity, which a revocation raises.
pub mod Bump
mod Tests
use endbot.Prelude.{
  ℕ, ◌+◌, not, Option, none, some, List, [], ◌∷◌, map, String, nat_eq, length, contains,
  if◌then◌else◌, Dict, lookup, insert, sort_items, Json, int, obj, pos, of_dict, as_dict, get_json,
  is_version_1, has_unknown, Result, ok, err, value_error, type_error, raise_if, or_raise, Outcome,
  ◌>>=◌, ◌>>◌, PyText, StoreFile, read_document, replace_document,
}

pub record GrantRevisions : Type 0 where
  pub path : Option StoreFile
  pub revisions : Dict ℕ

abbrev pub or_zero : Option ℕ → ℕ
or_zero none = 0
or_zero (some n) = n

-- `self._revisions.get(identity, 0)`
abbrev pub revision_in : String → Dict ℕ → ℕ
revision_in i d = or_zero (lookup i d)

unfoldable pub get : String → GrantRevisions → ℕ
get i g = revision_in i g.revisions

unfoldable pub to_document : Dict ℕ → Json
to_document d = obj (
    of_dict (
      ("version", int (pos 1))
      ∷ ("revisions", obj (of_dict (map (λ e. (e.0, int (pos e.1))) (sort_items d))))
      ∷ []))

unfoldable pub save : GrantRevisions → Outcome GrantRevisions (Unit {0})
save g = elim g.path [
  | none ↦ (g, ok tt)
  | some f ↦
      let (f', r) = replace_document (to_document g.revisions) f in (record g { path = some f' }, r)
]

-- `set(identities)`
unfoldable pub distinct : List String → List String
distinct [] = []
distinct (x ∷ xs) = let rest = distinct xs in if contains x rest then rest else x ∷ rest

unfoldable pub raise_all : List String → Dict ℕ → Dict ℕ
raise_all [] d = d
raise_all (i ∷ is) d = raise_all is (insert i (revision_in i d + 1) d)

-- `bump` with the set of the identities.
unfoldable pub bump_each : List String → GrantRevisions → Outcome GrantRevisions (Unit {0})
bump_each [] g = (g, ok tt)
bump_each (i ∷ is) g = save (record g { revisions = raise_all (i ∷ is) g.revisions })

unfoldable pub bump : List String → GrantRevisions → Outcome GrantRevisions (Unit {0})
unfolding bump_each
bump identities g = bump_each (distinct identities) g

-- A revision in the file: an integer of 1 or more.
abbrev revision_of_json : Json → Result ℕ
revision_of_json (int (pos n)) = if nat_eq n 0 then err value_error else ok n
revision_of_json _ = err value_error

module _ (py : PyText) where
  -- The loop of `load_grant_revisions`; a repeated identity overwrites, and is found by the count.
  unfoldable pub parse_entries : Dict Json → Dict ℕ → Result (Dict ℕ)
  parse_entries [] parsed = ok parsed
  parse_entries ((key, value) ∷ rest) parsed = do
    n ← revision_of_json value
    i ← or_raise (py.uuid key) value_error
    parse_entries rest (insert i n parsed)

  unfoldable pub parse_document : Json → Result (Dict ℕ)
  parse_document j = do
    d ← or_raise (as_dict j) value_error
    raise_if (not (is_version_1 (get_json "version" d))) value_error
    raise_if (has_unknown ("version" ∷ "revisions" ∷ []) d) value_error
    entries ← elim (lookup "revisions" d) [
      | none ↦ ok []
      | some r ↦ or_raise (as_dict r) type_error
    ]
    revisions ← parse_entries entries []
    raise_if (not (nat_eq (length revisions) (length entries))) value_error
    ok revisions

  unfoldable pub load_grant_revisions : StoreFile → Result (Dict ℕ)
  load_grant_revisions f = do
    document ← read_document f
    elim document [ none ↦ ok [] | some j ↦ parse_document j ]

  -- `GrantRevisions(path)`
  unfoldable pub init : Option StoreFile → Result GrantRevisions
  init path = do
    revisions ← elim path [ none ↦ ok [] | some f ↦ load_grant_revisions f ]
    ok (record { path = path; revisions = revisions })
