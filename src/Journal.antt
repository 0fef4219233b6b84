-- ===== src/Journal.antt =====
-- core/src/endbotd/journal.py: what `RunJournal.load` takes from the file of an earlier process.
pub mod Bounds
mod Tests
use Prim.Native.Nat.{zero, suc}
use Prim.Native.String
use endbot.Prelude.{
  ℕ, Bool, true, false, Option, none, some, List, [], ◌∷◌, String, ◌==◌, contains, if◌then◌else◌,
  Dict, Json, str, arr, obj, as_dict, as_list, get_json, is_version_1, Result, ok, err, type_error,
  value_error, or_raise, raise_if, ◌>>=◌, ◌>>◌,
}

abbrev pub max_runs : ℕ
max_runs = 64

abbrev pub max_channels : ℕ
max_channels = 256

abbrev pub max_text : ℕ
max_text = 128

abbrev pub channels : List String
channels = "move" ∷ "jump" ∷ "attack" ∷ "use" ∷ "sprint" ∷ "sneak" ∷ "mine" ∷ []

pub record Channel : Type 0 where
  pub identity_id : String
  pub channel : String
  pub name : Option String
  pub loop_id : Option String

pub record Owner : Type 0 where
  pub player_id : Option String
  pub xuid : Option String
  pub name : Option String
  pub language : String

pub record Run : Type 0 where
  pub run : String
  pub name : String
  pub owner : Owner
  pub run_channels : List Channel

-- `text[:n]`
unfoldable pub take_chars : ℕ → String → String
take_chars zero s = ""
take_chars (suc n) String.[] = ""
take_chars (suc n) (String.◌∷◌ c s) = String.◌∷◌ c (take_chars n s)

-- `items[:n]`
unfoldable pub take : {A : Type 0} → ℕ → List A → List A
take zero xs = []
take (suc n) [] = []
take (suc n) (x ∷ xs) = x ∷ take n xs

-- `_text`
unfoldable pub text_of : Json → Option String
text_of (str s) = if s == "" then none else some (take_chars max_text s)
text_of _ = none

-- `value in names` on a set of names, which raises if the value is a list or a dict.
unfoldable pub named_in : List String → Json → Result (Option String)
named_in names (str s) = ok (if contains s names then some s else none)
named_in names (arr js) = err type_error
named_in names (obj d) = err type_error
named_in names _ = ok none

-- `_channel`
unfoldable pub channel_of : Json → Result (Option Channel)
channel_of j = elim (as_dict j) [
  | none ↦ ok none
  | some d ↦ elim (text_of (get_json "identityId" d)) [
    | none ↦ ok none
    | some i ↦ do
      channel ← named_in channels (get_json "channel" d)
      ok (elim channel [
        | none ↦ none
        | some c ↦ some (record {
          identity_id = i;
          channel = c;
          name = text_of (get_json "name" d);
          loop_id = text_of (get_json "loopId" d);
        })
      ])
  ]
]

-- `_owner`
unfoldable pub owner_of : Json → Result Owner
owner_of j = do
  let d : Dict Json = elim (as_dict j) [ none ↦ [] | some d ↦ d ]
  language ← named_in ("en" ∷ "ja" ∷ []) (get_json "language" d)
  ok (record {
    player_id = text_of (get_json "playerId" d);
    xuid = text_of (get_json "xuid" d);
    name = text_of (get_json "name" d);
    language = elim language [ none ↦ "en" | some l ↦ l ];
  })

-- `[y for y in map(f, items) if y is not None]`
unfoldable pub collect : {A : Type 0} → (Json → Result (Option A)) → List Json → Result (List A)
collect f [] = ok []
collect f (j ∷ js) = do y ← f j; ys ← collect f js; ok (elim y [ none ↦ ys | some x ↦ x ∷ ys ])

-- The channels of a run, where they are a list.
unfoldable pub channels_in : Dict Json → Result (List Channel)
channels_in d = elim (as_list (get_json "channels" d)) [
  | none ↦ ok []
  | some js ↦ collect channel_of (take max_channels js)
]

-- `_run`
unfoldable pub run_of : Json → Result (Option Run)
run_of j = elim (as_dict j) [
  | none ↦ ok none
  | some d ↦ elim (text_of (get_json "run" d)) [
    | none ↦ ok none
    | some i ↦ elim (text_of (get_json "name" d)) [
      | none ↦ ok none
      | some n ↦ do
        found ← channels_in d
        owner ← owner_of (get_json "owner" d)
        ok (some (record { run = i; name = n; owner = owner; run_channels = found }))
    ]
  ]
]

-- The file: `unreadable` is an error of the system, `corrupt` is larger than the bound or no JSON.
pub data JournalFile : Type 0 where
  missing unreadable corrupt : JournalFile
  document : Json → JournalFile

-- The test of the document in `load`.
unfoldable pub checked_runs : Json → Result (List Json)
checked_runs j = do
  d ← or_raise (as_dict j) value_error
  raise_if (if is_version_1 (get_json "version" d) then false else true) value_error
  or_raise (as_list (get_json "runs" d)) value_error

-- `load`; a corrupt file is put aside, which is left out, and reads as no runs.
unfoldable pub load : JournalFile → Result (List Run)
load missing = ok []
load unreadable = ok []
load corrupt = ok []
load (document j) = elim (checked_runs j) [
  | err e ↦ ok []
  | ok js ↦ collect run_of (take max_runs js)
]
