-- ===== src/LevelDat/Tests.antt =====
-- A `level.dat` on concrete values.
use endbot.Prelude.{
  ◌≡◌, ◌⊎◌, refl, Bool, true, false, [], ◌∷◌, List, ℕ, String, Option, some, pos, ℤ, Dict, Result,
  ok, err, level_dat_error, lookup,
}
use endbot.LevelDat.{Bytes, Nbt, number, compound, field, end}
use endbot.LevelDat.Summary.{
  LevelSummary, summary_of, unsafe_flags, parse_level_dat, experiments_of,
}
use endbot.LevelDat.Total.{parse_level_dat-cases}
use endbot.LevelDat.Flags.{is_set, unsafe_flags-eq-nil}

-- Every name reads as the same text.
abbrev one_name : Bytes → Option String
one_name _ = some "commandsEnabled"

-- The root compound with a byte tag of value 1.
abbrev commands_file : Bytes
commands_file = 9 ∷ 0 ∷ 0 ∷ 0 ∷ 9 ∷ 0 ∷ 0 ∷ 0 ∷ 10 ∷ 0 ∷ 0 ∷ 1 ∷ 1 ∷ 0 ∷ 99 ∷ 1 ∷ 0 ∷ []

-- Its length is one byte short of what the header says.
abbrev short_file : Bytes
short_file = 9 ∷ 0 ∷ 0 ∷ 0 ∷ 9 ∷ 0 ∷ 0 ∷ 0 ∷ 10 ∷ 0 ∷ 0 ∷ 1 ∷ 1 ∷ 0 ∷ 99 ∷ 1 ∷ []

commands_read :
    parse_level_dat one_name commands_file
    ≡ ok (summary_of (pos 9) (("commandsEnabled", number (pos 1)) ∷ []))
unfolding parse_level_dat endbot.LevelDat.signed_at endbot.LevelDat.take
    endbot.LevelDat.Summary.check_length endbot.LevelDat.signed endbot.LevelDat.from_le
    endbot.LevelDat.read_document endbot.LevelDat.unsigned_at endbot.LevelDat.string_at
    endbot.LevelDat.payload endbot.LevelDat.payload_of endbot.LevelDat.tag_of
    endbot.LevelDat.entries endbot.LevelDat.turn endbot.LevelDat.number_at endbot.LevelDat.fields_of
    endbot.Prelude.insert
commands_read = refl

short_refused : parse_level_dat one_name short_file ≡ err level_dat_error
unfolding parse_level_dat endbot.LevelDat.signed_at endbot.LevelDat.take
    endbot.LevelDat.Summary.check_length endbot.LevelDat.signed endbot.LevelDat.from_le
short_refused = refl

commands_unsafe :
    unsafe_flags (summary_of (pos 9) (("commandsEnabled", number (pos 1)) ∷ []))
    ≡ "commandsEnabled" ∷ []
unfolding unsafe_flags endbot.LevelDat.Summary.named_if summary_of endbot.LevelDat.Summary.flag
    endbot.LevelDat.Summary.root_lookup lookup endbot.LevelDat.Summary.fields_or_none
    endbot.LevelDat.Summary.is_truthy endbot.LevelDat.Summary.experiment_flag experiments_of
commands_unsafe = refl

parse_level_dat-cases_example :
    (parse_level_dat one_name commands_file ≡ err level_dat_error)
    ⊎ ((s : LevelSummary) × (parse_level_dat one_name commands_file ≡ ok s))
parse_level_dat-cases_example = parse_level_dat-cases one_name commands_file

abbrev safe_root : Dict Nbt
safe_root =
    ("commandsEnabled", number (pos 0))
    ∷ ("experiments", compound (field "experiments_ever_used" (number (pos 0)) end))
    ∷ []

nothing_unsafe : unsafe_flags (summary_of (pos 9) safe_root) ≡ []
unfolding unsafe_flags endbot.LevelDat.Summary.named_if summary_of endbot.LevelDat.Summary.flag
    endbot.LevelDat.Summary.root_lookup lookup endbot.LevelDat.Summary.fields_or_none
    endbot.LevelDat.Summary.is_truthy endbot.LevelDat.Summary.experiment_flag experiments_of
nothing_unsafe = refl

unsafe_flags-eq-nil_example :
    (is_set (lookup "hasBeenLoadedInCreative" safe_root) ≡ false)
    × (is_set (lookup "commandsEnabled" safe_root) ≡ false)
    × (is_set (lookup "experiments_ever_used" (experiments_of safe_root)) ≡ false)
    × (is_set (lookup "saved_with_toggled_experiments" (experiments_of safe_root)) ≡ false)
unsafe_flags-eq-nil_example = unsafe_flags-eq-nil (pos 9) safe_root nothing_unsafe

-- A zero in `experiments` hides a flag of the root.
abbrev hidden_root : Dict Nbt
hidden_root = ("experiments_ever_used", number (pos 1)) ∷ safe_root

nothing_seen : unsafe_flags (summary_of (pos 9) hidden_root) ≡ []
unfolding unsafe_flags endbot.LevelDat.Summary.named_if summary_of endbot.LevelDat.Summary.flag
    endbot.LevelDat.Summary.root_lookup lookup endbot.LevelDat.Summary.fields_or_none
    endbot.LevelDat.Summary.is_truthy endbot.LevelDat.Summary.experiment_flag experiments_of
nothing_seen = refl
