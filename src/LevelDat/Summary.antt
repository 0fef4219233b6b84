-- ===== src/LevelDat/Summary.antt =====
-- cli/endbot/src/endbot_cli/leveldat.py: the history flags of a decoded `level.dat`.
use endbot.Prelude.{
  Bool, true, false, not, ◌&&◌, ◌||◌, Option, none, some, List, [], ◌∷◌, ◌++◌, String, ◌==◌, ltb,
  nat_eq, filter, length, contains, map, if◌then◌else◌, ℤ, pos, negsuc, Dict, lookup, has_key,
  sorted_set, Result, ok, err, level_dat_error, raise_if, ◌>>=◌, ◌>>◌,
}
use endbot.LevelDat.{
  Bytes, Nbt, number, real, raw, text, items, compound, nil, cons, end, field, to_fields, signed_at,
  read_document,
}

pub record LevelSummary : Type 0 where
  pub storage_version : ℤ
  pub commands_enabled : Option Bool
  pub has_been_loaded_in_creative : Option Bool
  pub game_type : Option ℤ
  pub cheats_enabled : Option Bool
  pub experiments_ever_used : Option Bool
  pub saved_with_toggled_experiments : Option Bool
  pub other_experiment_keys : List String
  pub level_name : Option String

-- `bool` of a float: its bytes are zero, but for the sign.
unfoldable pub is_zero_real : Bytes → Bool
is_zero_real [] = true
is_zero_real (b ∷ []) = nat_eq b 0 || nat_eq b 128
is_zero_real (b ∷ c ∷ bs) = nat_eq b 0 && is_zero_real (c ∷ bs)

-- `bool(value)`
unfoldable pub is_truthy : Nbt → Bool
is_truthy (number (pos n)) = not (nat_eq n 0)
is_truthy (number (negsuc n)) = true
is_truthy (real bs) = not (is_zero_real bs)
is_truthy (raw bs) = not (nat_eq (length bs) 0)
is_truthy (text s) = not (s == "")
is_truthy (items nil) = false
is_truthy (items (cons v vs)) = true
is_truthy (compound end) = false
is_truthy (compound (field k v fs)) = true

-- `_flag`
unfoldable pub flag : Option Nbt → Option Bool
flag none = none
flag (some v) = some (is_truthy v)

-- The fields of a compound; anything else has none.
unfoldable pub fields_or_none : Option Nbt → Dict Nbt
fields_or_none (some (compound fs)) = to_fields fs
fields_or_none _ = []

-- `_lookup`
unfoldable pub root_lookup : Dict Nbt → String → Option Nbt
root_lookup root name =
    if has_key name root
    then lookup name root
    else lookup name (fields_or_none (lookup "Data" root))

-- The `experiments` compound, empty if there is none.
unfoldable pub experiments_of : Dict Nbt → Dict Nbt
experiments_of root = fields_or_none (root_lookup root "experiments")

-- `experiment_flag`
unfoldable pub experiment_flag : Dict Nbt → String → Option Bool
experiment_flag root name =
    if has_key name (experiments_of root)
    then flag (lookup name (experiments_of root))
    else flag (root_lookup root name)

unfoldable pub number_of : Option Nbt → Option ℤ
number_of (some (number z)) = some z
number_of _ = none

unfoldable pub text_of : Option Nbt → Option String
text_of (some (text s)) = if s == "" then none else some s
text_of _ = none

-- `_NAMED_EXPERIMENT_FLAGS`
abbrev pub named_experiment_flags : List String
named_experiment_flags = "experiments_ever_used" ∷ "saved_with_toggled_experiments" ∷ []

unfoldable pub other_keys : Dict Nbt → List String
other_keys experiments =
    sorted_set (filter (λ k. not (contains k named_experiment_flags)) (map (λ e. e.0) experiments))

-- The summary that `parse_level_dat` returns.
unfoldable pub summary_of : ℤ → Dict Nbt → LevelSummary
summary_of version root = record {
  storage_version = version;
  commands_enabled = flag (root_lookup root "commandsEnabled");
  has_been_loaded_in_creative = flag (root_lookup root "hasBeenLoadedInCreative");
  game_type = number_of (root_lookup root "GameType");
  cheats_enabled = flag (root_lookup root "cheatsEnabled");
  experiments_ever_used = experiment_flag root "experiments_ever_used";
  saved_with_toggled_experiments = experiment_flag root "saved_with_toggled_experiments";
  other_experiment_keys = other_keys (experiments_of root);
  level_name = text_of (root_lookup root "LevelName");
}

-- A name whose flag is set.
unfoldable pub named_if : String → Option Bool → List String
named_if name (some true) = name ∷ []
named_if name (some false) = []
named_if name none = []

-- `unsafe_flags`
unfoldable pub unsafe_flags : LevelSummary → List String
unsafe_flags s =
    named_if "hasBeenLoadedInCreative" s.has_been_loaded_in_creative
    ++ named_if "commandsEnabled" s.commands_enabled
    ++ named_if "experiments_ever_used" s.experiments_ever_used
    ++ named_if "saved_with_toggled_experiments" s.saved_with_toggled_experiments

-- The length of the header must be that of the body.
unfoldable pub check_length : ℤ → Bytes → Result (Unit {0})
check_length (negsuc n) body = err level_dat_error
check_length (pos n) body = raise_if (not (nat_eq (length body) n)) level_dat_error

module _ (decode : Bytes → Option String) where
  -- `parse_level_dat`
  unfoldable pub parse_level_dat : Bytes → Result LevelSummary
  parse_level_dat data_bytes = do
    raise_if (ltb (length data_bytes) 8) level_dat_error
    version ← signed_at 4 data_bytes
    size ← signed_at 4 version.1
    check_length size.0 size.1
    root ← read_document decode size.1
    ok (summary_of version.0 root)
