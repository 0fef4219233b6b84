-- ===== src/Registry.antt =====
-- core/src/endbot_core/registry.py: the Bots by UUID and by name. A UUID is its canonical text.
pub mod Lookup
mod Tests
use Prim.Native.Char.{code}
use Prim.Native.String
use endbot.Prelude.{
  ℕ, ◌+◌, Bool, not, ◌&&◌, ◌||◌, Option, none, some, [], String, ◌==◌, ltb, leb, if◌then◌else◌,
  Dict, lookup, has_key, insert, ok, value_error, raise_if, Outcome, attempt, PyText,
}

pub record BotIdentity : Type 0 where
  pub identity_id : String
  pub name : String

pub record BotRegistry : Type 0 where
  pub by_id : Dict BotIdentity
  pub name_to_id : Dict String

abbrev pub init : BotRegistry
init = record { by_id = []; name_to_id = [] }

-- `len(text.encode("utf-8"))`
unfoldable pub utf8_length : String → ℕ
utf8_length String.[] = 0
utf8_length (String.◌∷◌ c s) =
    (if ltb (code c) 128
      then 1
      else if ltb (code c) 2048
      then 2
      else if ltb (code c) 65536
      then 3
      else 4)
    + utf8_length s

module _ (py : PyText) where
  unfoldable pub register : BotIdentity → BotRegistry → Outcome BotRegistry (Unit {0})
  register b r =
      attempt (raise_if (b.name == "" || not (leb (utf8_length b.name) 64)) value_error) r λ _.
        attempt (raise_if (has_key b.identity_id r.by_id) value_error) r λ _.
          attempt (raise_if (has_key (py.casefold b.name) r.name_to_id) value_error) r λ _. (
            record {
              by_id = insert b.identity_id b r.by_id;
              name_to_id = insert (py.casefold b.name) b.identity_id r.name_to_id;
            },
            ok tt,
          )

  unfoldable pub get_by_name : String → BotRegistry → Option BotIdentity
  get_by_name name r = elim (lookup (py.casefold name) r.name_to_id) [
    | none ↦ none
    | some i ↦ lookup i r.by_id
  ]

unfoldable pub get_by_id : String → BotRegistry → Option BotIdentity
get_by_id i r = lookup i r.by_id
