-- ===== src/Scripts/Tests.antt =====
-- The script store on concrete values.
use endbot.Prelude.{
  ◌≡◌, refl, true, false, some, none, [], ◌∷◌, ℕ, Bool, String, List, ok, pos, insert, erase,
  lookup,
}
use endbot.Samples.{plain_text, new_file}
use endbot.Scripts.{Script, Revision, ScriptStore, init}
use endbot.Scripts.Calls.{Bounds, save, restore, is_accepted, entry_at}
use endbot.Scripts.Written.{IsStored}
use endbot.Scripts.Run.{saving, showing, renaming, run}
use endbot.Scripts.Start.{IsReached, started, called, loaded, IsReached-IsStored}
use endbot.Scripts.Refines.{Does, Raised, changed, table, run-refines}
use endbot.Scripts.Stale.{run-stale}
use endbot.Scripts.Restored.{save-restore}
use endbot.Scripts.Folder.{Entry, Folder, Loaded, load_files}
use endbot.Scripts.Reported.{IsLoaded, script_files, load_files-IsLoaded}

abbrev bounds : Bounds
bounds = record { max_script_bytes = 100; max_scripts = 2 }

abbrev no_scripts : ScriptStore
no_scripts = record { path = new_file; scripts = []; files = [] }

started_empty : init plain_text new_file ≡ ok no_scripts
unfolding init endbot.Prelude.read_document endbot.Scripts.document_scripts
started_empty = refl

abbrev farm_file : Script
farm_file = record {
  name = "farm";
  source = "dig()";
  revision = "file:1";
  owner = some "file";
  owner_name = none;
  visibility = "shared";
  history = [];
  saved_at = pos 5;
}

abbrev with_file : ScriptStore
with_file = (endbot.Scripts.Calls.set_files (("farm", farm_file) ∷ []) no_scripts).0

abbrev with_mine : ScriptStore
with_mine =
    (run plain_text bounds (saving "r1" (pos 7) "mine" "go()" none (some "xuid:1") none)
      with_file).0

mine_reached : IsReached plain_text bounds with_mine
unfolding lookup
mine_reached = called (saving "r1" (pos 7) "mine" "go()" none (some "xuid:1") none) with_file (
    loaded (("farm", farm_file) ∷ []) no_scripts (refl, refl, tt)
      (started new_file no_scripts started_empty))

IsReached-IsStored_example : IsStored plain_text with_mine
IsReached-IsStored_example = IsReached-IsStored plain_text bounds mine_reached

abbrev mine : Script
mine = record {
  name = "mine";
  source = "go()";
  revision = "r1";
  owner = some "xuid:1";
  owner_name = none;
  visibility = "private";
  history = [];
  saved_at = pos 7;
}

mine_saved : lookup "mine" with_mine.scripts ≡ some mine
unfolding lookup run save endbot.Scripts.Calls.check_save endbot.Scripts.script_name
    endbot.Groups.is_group_name endbot.Groups.is_word is_accepted endbot.Registry.utf8_length
    endbot.Scripts.Calls.find_stored endbot.Scripts.Calls.set_files endbot.Scripts.save_all
    endbot.Prelude.overwrite_document insert endbot.Scripts.Calls.saved_script
mine_saved = refl

with_mine-IsStored : IsStored plain_text with_mine
with_mine-IsStored = IsReached-IsStored plain_text bounds mine_reached

run-refines_example :
    Does with_mine
      (changed plain_text (renaming "mine" "quarry" "r1") (table with_mine) "quarry")
      "quarry"
      (run plain_text bounds (renaming "mine" "quarry" "r1") with_mine)
run-refines_example =
    run-refines plain_text "quarry" bounds (renaming "mine" "quarry" "r1") with_mine
      with_mine-IsStored

run-stale_example :
    Raised with_mine (run plain_text bounds (showing "mine" "shared" "r0") with_mine)
unfolding lookup run save endbot.Scripts.Calls.check_save endbot.Scripts.script_name
    endbot.Groups.is_group_name endbot.Groups.is_word is_accepted endbot.Registry.utf8_length
    endbot.Scripts.Calls.find_stored endbot.Scripts.Calls.set_files endbot.Scripts.save_all
    endbot.Prelude.overwrite_document insert endbot.Scripts.Calls.saved_script
run-stale_example =
    run-stale plain_text with_mine bounds (showing "mine" "shared" "r0") with_mine-IsStored refl

saved_twice :
    (save plain_text bounds "r2" (pos 8) "mine" "stop()" (some "r1") none none with_mine).1 ≡ ok tt
unfolding save endbot.Scripts.Calls.check_save endbot.Scripts.script_name
    endbot.Groups.is_group_name endbot.Groups.is_word is_accepted endbot.Registry.utf8_length
    endbot.Scripts.Calls.find_stored lookup run endbot.Scripts.Calls.set_files
    endbot.Scripts.save_all endbot.Prelude.overwrite_document insert
    endbot.Scripts.Calls.saved_script
saved_twice = refl

save-restore_example :
    let saved =
      (save plain_text bounds "r2" (pos 8) "mine" "stop()" (some "r1") none none with_mine).0 in
    let after = restore plain_text bounds "r3" (pos 9) "mine" 1 (some "r2") saved in
    (after.1 ≡ ok tt)
    × (c' : Script) × (lookup "mine" after.0.scripts ≡ some c')
    × (c'.source ≡ "go()")
    × (c'.visibility ≡ "private")
    × (c'.revision ≡ "r3")
    × (entry_at 1 c'.history
        ≡ some (record { revision = "r2"; source = "stop()"; saved_at = pos 8 }))
unfolding is_accepted endbot.Registry.utf8_length
save-restore_example =
    save-restore plain_text bounds "r2" "r3" (pos 8) (pos 9) "mine" "stop()" none none mine
      with_mine with_mine-IsStored mine_saved refl saved_twice

-- One script, one file that is no text, and one that is no script.
abbrev folder : Folder
folder = record {
  symlink = false;
  present = true;
  is_dir = true;
  entries =
      record {
        name = "farm.luau";
        stem = "farm";
        suffix = ".luau";
        symlink = false;
        regular = true;
        size = 7;
        text = some "dig()\r\n";
        modified = pos 5;
      }
      ∷ record {
        name = "a.luau";
        stem = "a";
        suffix = ".luau";
        symlink = false;
        regular = true;
        size = 2;
        text = none;
        modified = pos 5;
      }
      ∷ record {
        name = "notes.txt";
        stem = "notes";
        suffix = ".txt";
        symlink = false;
        regular = true;
        size = 2;
        text = some "hi";
        modified = pos 5;
      }
      ∷ [];
}

abbrev farm_loaded : Script
farm_loaded = record farm_file { source = "dig()\n"; revision = "file:d" }

folder_loaded :
    load_files plain_text (λ _. "d") bounds folder
    ≡ ok (("farm", farm_loaded) ∷ [], ("a.luau", endbot.Prelude.localized) ∷ [])
unfolding load_files endbot.Scripts.Folder.load_entries endbot.Scripts.Folder.sort_entries
    endbot.Scripts.Folder.place_entry endbot.Scripts.Folder.load_entry
    endbot.Scripts.Folder.note_file endbot.Scripts.Folder.load_file endbot.Scripts.script_name
    endbot.Groups.is_group_name endbot.Groups.is_word endbot.Scripts.Folder.newlines lookup insert
folder_loaded = refl

load_files-IsLoaded_example :
    IsLoaded plain_text
      (λ _. "d")
      bounds
      (script_files plain_text (λ _. "d") bounds folder.entries)
      (("farm", farm_loaded) ∷ [], ("a.luau", endbot.Prelude.localized) ∷ [])
load_files-IsLoaded_example =
    load_files-IsLoaded plain_text (λ _. "d") bounds folder _ refl folder_loaded
