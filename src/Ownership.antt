-- ===== src/Ownership.antt =====
-- core/src/endbot_core/ownership.py: who owns a Bot or a Group, and who may see it. Each method
-- takes and returns the store; the file that it writes is a field of the store.
pub mod Invariant
pub mod Restart
pub mod Rules
pub mod Keys
mod Tests
use text.Mathlib.Text.{starts_with}
use endbot.Prelude.{
  ℕ, suc, Bool, true, false, not, ◌&&◌, ◌||◌, Option, none, some, List, [], ◌∷◌, map, String, ◌==◌,
  contains, if◌then◌else◌, leb, Dict, lookup, has_key, insert, erase, sort_items, Json, null, int,
  str, obj, pos, of_dict, as_dict, as_str, get_json, is_version_1, has_unknown, Result, ok, err,
  value_error, type_error, localized, raise_if, or_raise, attempt, Outcome, ◌>>=◌, ◌>>◌, PyText,
  concat, chars, StoreFile, read_document, replace_document,
}
use endbot.Principal.{Principal, console}

abbrev pub visibilities : List String
visibilities = "shared" ∷ "private" ∷ []

-- `KINDS`
pub data Kind : Type 0 where
  bots groups : Kind

-- `_kind`
unfoldable pub parse_kind : String → Result Kind
parse_kind k = if k == "bots" then ok bots else if k == "groups" then ok groups else err value_error

-- An absent principal is the console.
unfoldable pub owner_key : Option Principal → Option String
unfolding console
owner_key none = none
owner_key (some p) =
    let player = concat "player:" (elim p.player_id [ none ↦ "None" | some i ↦ i ]) in
    if console p then none else elim p.xuid [
      | none ↦ some player
      | some x ↦ if x == "" then some player else some (concat "xuid:" x)
    ]

-- The resolver is the plugin's lookup of a player by GamerTag.
unfoldable pub owner_for_gamertag :
    Option (String → Option (String × String)) → String → Result (String × String)
owner_for_gamertag resolver gamertag =
    or_raise (elim resolver [ none ↦ none | some f ↦ f gamertag ]) localized

-- `_is_owner`
unfoldable pub is_owner_text : String → Bool
is_owner_text o =
    not (o == "")
    && leb (chars o) 128
    && (starts_with o "xuid:" || starts_with o "player:")
    && not (contains o ("xuid:" ∷ "player:" ∷ []))

-- `_is_owner_name`
unfoldable pub is_owner_name : Option String → Bool
is_owner_name none = true
is_owner_name (some n) = leb (chars n) 64

pub record Ownership : Type 0 where
  pub owner : String
  pub owner_name : Option String
  pub visibility : String

-- The value of `ownerName`: a text, or null or no such key, which read as no name.
abbrev name_of_json : Json → Result (Option String)
name_of_json (str n) = ok (some n)
name_of_json null = ok none
name_of_json _ = err value_error

abbrev name_to_json : Option String → Json
name_to_json none = null
name_to_json (some n) = str n

-- `_entry`
unfoldable pub parse_entry : Json → Result Ownership
parse_entry value = do
  d ← or_raise (as_dict value) type_error
  raise_if (has_unknown ("owner" ∷ "ownerName" ∷ "visibility" ∷ []) d) value_error
  owner ← or_raise (as_str (get_json "owner" d)) value_error
  raise_if (not (is_owner_text owner)) value_error
  owner_name ← name_of_json (get_json "ownerName" d)
  raise_if (not (is_owner_name owner_name)) value_error
  visibility ← or_raise (as_str (get_json "visibility" d)) value_error
  raise_if (not (contains visibility visibilities)) value_error
  ok (record { owner = owner; owner_name = owner_name; visibility = visibility })

abbrev entry_to_json : Ownership → Json
entry_to_json e = obj (
    of_dict (
      ("owner", str e.owner)
      ∷ ("ownerName", name_to_json e.owner_name)
      ∷ ("visibility", str e.visibility)
      ∷ []))

pub record Tables : Type 0 where
  pub bots_table : Dict Ownership
  pub groups_table : Dict Ownership

abbrev pub table : Kind → Tables → Dict Ownership
table bots t = t.bots_table
table groups t = t.groups_table

abbrev pub set_table : Kind → Dict Ownership → Tables → Tables
set_table bots d t = record t { bots_table = d }
set_table groups d t = record t { groups_table = d }

pub record OwnershipStore : Type 0 where
  pub path : Option StoreFile
  pub bots_default : String
  pub groups_default : String
  pub entries : Tables

abbrev pub default_of : Kind → OwnershipStore → String
default_of bots s = s.bots_default
default_of groups s = s.groups_default

-- The document that `_save` writes, its entries sorted by identity.
unfoldable pub to_document : Tables → Json
to_document t =
    let write =
      λ (d : Dict Ownership). obj (of_dict (map (λ e. (e.0, entry_to_json e.1)) (sort_items d))) in
    obj (
      of_dict (
        ("version", int (pos 1))
        ∷ ("bots", write t.bots_table)
        ∷ ("groups", write t.groups_table)
        ∷ []))

unfoldable pub save : OwnershipStore → Outcome OwnershipStore (Unit {0})
save s = elim s.path [
  | none ↦ (s, ok tt)
  | some f ↦
      let (f', r) = replace_document (to_document s.entries) f in (record s { path = some f' }, r)
]

module _ (py : PyText) where
  -- `_identity`
  unfoldable pub parse_identity : String → Result String
  parse_identity i = or_raise (py.uuid i) value_error

  -- The loop of `load_ownership` over one table, with what it has parsed so far.
  unfoldable pub parse_table : Dict Json → Dict Ownership → Result (Dict Ownership)
  parse_table [] parsed = ok parsed
  parse_table ((key, value) ∷ rest) parsed = do
    identity ← parse_identity key
    raise_if (has_key identity parsed) value_error
    entry ← parse_entry value
    parse_table rest (insert identity entry parsed)

  -- A table that the document leaves out is empty.
  unfoldable pub table_of : String → Dict Json → Result (Dict Ownership)
  table_of kind d = elim (lookup kind d) [
    | none ↦ ok []
    | some j ↦ (do fields ← or_raise (as_dict j) type_error; parse_table fields [])
  ]

  unfoldable pub parse_document : Json → Result Tables
  parse_document j = do
    d ← or_raise (as_dict j) value_error
    raise_if (not (is_version_1 (get_json "version" d))) value_error
    raise_if (has_unknown ("version" ∷ "bots" ∷ "groups" ∷ []) d) value_error
    b ← table_of "bots" d
    g ← table_of "groups" d
    ok (record { bots_table = b; groups_table = g })

  unfoldable pub load_ownership : StoreFile → Result Tables
  unfolding read_document
  load_ownership f = do
    document ← read_document f
    elim document [
      | none ↦ ok (record { bots_table = []; groups_table = [] })
      | some j ↦ parse_document j
    ]

  -- `OwnershipStore(path, bots_default=…, groups_default=…)`
  unfoldable pub init : Option StoreFile → String → String → Result OwnershipStore
  init path bots_default groups_default = do
    raise_if (not (contains bots_default visibilities)) value_error
    raise_if (not (contains groups_default visibilities)) value_error
    t ← elim path [
      | none ↦ ok (record { bots_table = []; groups_table = [] })
      | some f ↦ load_ownership f
    ]
    ok (record {
      path = path;
      bots_default = bots_default;
      groups_default = groups_default;
      entries = t;
    })

  unfoldable pub get : String → String → OwnershipStore → Result (Option Ownership)
  get kind identity s = do
    k ← parse_kind kind
    i ← parse_identity identity
    ok (lookup i (table k s.entries))

  -- `record`
  unfoldable pub record_owner :
      String → String → Option Principal → OwnershipStore → Outcome OwnershipStore (Unit {0})
  record_owner kind identity principal s = attempt (parse_kind kind) s λ k.
      elim (owner_key principal) [
        | none ↦ (s, ok tt)
        | some owner ↦ attempt (parse_identity identity) s λ i.
            if has_key i (table k s.entries)
            then (s, ok tt)
            else let name : Option String = elim principal [ none ↦ none | some p ↦ p.name ] in
              let entry : Ownership = record {
                owner = owner;
                owner_name = if is_owner_name name then name else none;
                visibility = default_of k s;
              } in
              save
                (record s { entries = set_table k (insert i entry (table k s.entries)) s.entries })
      ]

  unfoldable pub set_visibility :
      String → String → String → OwnershipStore → Outcome OwnershipStore (Unit {0})
  set_visibility kind identity visibility s = attempt (parse_kind kind) s λ k.
      attempt (raise_if (not (contains visibility visibilities)) value_error) s λ _.
        attempt (parse_identity identity) s λ i. elim (lookup i (table k s.entries)) [
          | none ↦ (s, err value_error)
          | some e ↦
              let d = insert i (record e { visibility = visibility }) (table k s.entries) in
              save (record s { entries = set_table k d s.entries })
        ]

  unfoldable pub set_owner :
      String → String → String → Option String → OwnershipStore → Outcome OwnershipStore (Unit {0})
  set_owner kind identity owner owner_name s = attempt (parse_kind kind) s λ k.
      attempt (raise_if (not (is_owner_text owner)) value_error) s λ _.
        attempt (raise_if (not (is_owner_name owner_name)) value_error) s λ _.
          attempt (parse_identity identity) s λ i.
            let old = lookup i (table k s.entries) in
            let entry : Ownership = record {
              owner = owner;
              owner_name = owner_name;
              visibility = elim old [ none ↦ default_of k s | some e ↦ e.visibility ];
            } in
            save (record s { entries = set_table k (insert i entry (table k s.entries)) s.entries })

  unfoldable pub forget : String → String → OwnershipStore → Outcome OwnershipStore (Unit {0})
  forget kind identity s = attempt (parse_kind kind) s λ k. attempt (parse_identity identity) s λ i.
      let s' = record s { entries = set_table k (erase i (table k s.entries)) s.entries } in
      if has_key i (table k s.entries) then save s' else (s, ok tt)

  -- The principal is the console or has the entry's owner key.
  abbrev pub owns : Option Principal → Ownership → Bool
  owns principal e = elim (owner_key principal) [ none ↦ true | some key ↦ e.owner == key ]

  unfoldable pub visible_to : String → String → Option Principal → OwnershipStore → Result Bool
  unfolding get
  visible_to kind identity principal s = do
    entry ← get kind identity s
    elim entry [ none ↦ ok true | some e ↦ ok (e.visibility == "shared" || owns principal e) ]

  unfoldable pub is_owner : String → String → Option Principal → OwnershipStore → Result Bool
  unfolding get
  is_owner kind identity principal s = do
    entry ← get kind identity s
    elim entry [ none ↦ ok true | some e ↦ ok (owns principal e) ]

-- `has_entries`
unfoldable pub has_entries : String → OwnershipStore → Result Bool
has_entries kind s = do
  k ← parse_kind kind
  ok (elim (table k s.entries) [ [] ↦ false | _ ∷ _ ↦ true ])

abbrev count_owned : String → Dict Ownership → ℕ
count_owned owner [] = 0
count_owned owner ((i, e) ∷ d) =
    let rest = count_owned owner d in if e.owner == owner then suc rest else rest

unfoldable pub count : String → Option String → OwnershipStore → Result ℕ
count kind owner s = do
  k ← parse_kind kind
  ok (elim owner [ none ↦ 0 | some o ↦ count_owned o (table k s.entries) ])
