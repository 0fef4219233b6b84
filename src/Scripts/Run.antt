-- ===== src/Scripts/Run.antt =====
-- core/src/endbot_core/script_store.py: the calls of `ScriptStore` that change the stored scripts.
use endbot.Prelude.{ℕ, Option, String, ℤ, Outcome, PyText}
use endbot.Scripts.{ScriptStore}
use endbot.Scripts.Calls.{Bounds, save, restore, set_visibility, set_owner, rename, delete}

-- The arguments are those of the methods, behind the UUID and the time that a new revision takes.
pub data Call : Type 0 where
  saving : String → ℤ → String → String → Option String → Option String → Option String → Call
  restoring : String → ℤ → String → ℕ → Option String → Call
  showing : String → String → String → Call
  giving : String → Option String → Option String → String → Call
  renaming : String → String → String → Call
  deleting : String → String → Call

unfoldable pub run : PyText → Bounds → Call → ScriptStore → Outcome ScriptStore (Unit {0})
run py config (saving fresh now name source expected owner owner_name) s =
    save py config fresh now name source expected owner owner_name s
run py config (restoring fresh now name index expected) s =
    restore py config fresh now name index expected s
run py config (showing name visibility expected) s = set_visibility py name visibility expected s
run py config (giving name owner owner_name revision) s =
    set_owner py name owner owner_name revision s
run py config (renaming name new_name expected) s = rename py name new_name expected s
run py config (deleting name expected) s = delete py name expected s
