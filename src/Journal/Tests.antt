-- ===== src/Journal/Tests.antt =====
-- The journal on concrete values.
use endbot.Prelude.{
  ◌≤◌, ◌≡◌, refl, List, [], ◌∷◌, length, Json, str, int, arr, obj, pos, of_dict, of_list, none,
  Error, type_error, Result, ok, err,
}
use endbot.Journal.{Run, JournalFile, document, max_runs, load}
use endbot.Journal.Bounds.{load_bounded}

abbrev run_json : Json → Json
run_json channel = obj (
    of_dict (
      ("run", str "run-1")
      ∷ ("name", str "dig")
      ∷ (
        "channels",
        arr (
            of_list
              (obj (of_dict (("identityId", str "uuid-1") ∷ ("channel", channel) ∷ [])) ∷ [])),
      )
      ∷ []))

abbrev file_of : Json → JournalFile
file_of channel = document (
    obj (of_dict (("version", int (pos 1)) ∷ ("runs", arr (of_list (run_json channel ∷ []))) ∷ [])))

abbrev loaded : List Run
loaded =
    record {
      run = "run-1";
      name = "dig";
      owner = record { player_id = none; xuid = none; name = none; language = "en" };
      run_channels =
          record { identity_id = "uuid-1"; channel = "mine"; name = none; loop_id = none } ∷ [];
    }
    ∷ []

one_loaded : load (file_of (str "mine")) ≡ ok loaded
unfolding load endbot.Journal.checked_runs endbot.Prelude.lookup endbot.Journal.collect
    endbot.Journal.take endbot.Journal.run_of endbot.Journal.text_of endbot.Journal.channels_in
    endbot.Journal.channel_of endbot.Journal.named_in endbot.Journal.owner_of
    endbot.Journal.take_chars
one_loaded = refl

load_bounded_example : length loaded ≤ max_runs
load_bounded_example = load_bounded (file_of (str "mine")) loaded one_loaded

-- A list in the place of a channel's name makes the load raise.
load_raises : load (file_of (arr (of_list []))) ≡ err type_error
unfolding load endbot.Journal.checked_runs endbot.Prelude.lookup endbot.Journal.collect
    endbot.Journal.take endbot.Journal.run_of endbot.Journal.text_of endbot.Journal.channels_in
    endbot.Journal.channel_of endbot.Journal.named_in
load_raises = refl
