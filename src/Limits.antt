-- ===== src/Limits.antt =====
-- core/src/endbot_core/limits.py: the slots that Bots may take.
use endbot.Prelude.{
  ℕ, Bool, not, ◌||◌, none, some, [], ◌∷◌, String, nat_eq, Dict, lookup, Json, int, null, ℤ, pos,
  negsuc, as_dict, has_unknown, Result, ok, err, value_error, raise_if, or_raise, ◌>>=◌, ◌>>◌, ltb,
}

pub record BotLimits : Type 0 where
  pub max_bots : ℕ
  pub reserved_player_slots : ℕ
  pub max_bots_per_controller : ℕ

abbrev pub default_limits : BotLimits
default_limits = record { max_bots = 0; reserved_player_slots = 1; max_bots_per_controller = 0 }

-- `whole`
unfoldable pub whole : String → ℤ → Dict Json → Result ℤ
whole key default d = elim (lookup key d) [
  | none ↦ ok default
  | some (int n) ↦ ok n
  | some _ ↦ err value_error
]

-- The test that a number is not negative.
abbrev natural : ℤ → Result ℕ
natural (pos n) = ok n
natural (negsuc n) = err value_error

-- `from_config` of a value that is there.
unfoldable pub limits_of : Json → Result BotLimits
limits_of j = do
  d ← or_raise (as_dict j) value_error
  raise_if (has_unknown ("max-bots" ∷ "reserved-player-slots" ∷ "max-bots-per-controller" ∷ []) d)
      value_error
  max_bots ← whole "max-bots" (pos 0) d
  reserved ← whole "reserved-player-slots" (pos 1) d
  per_controller ← whole "max-bots-per-controller" (pos 0) d
  max_bots_n ← natural max_bots
  reserved_n ← natural reserved
  per_controller_n ← natural per_controller
  ok (record {
    max_bots = max_bots_n;
    reserved_player_slots = reserved_n;
    max_bots_per_controller = per_controller_n;
  })

unfoldable pub from_config : Json → Result BotLimits
from_config null = ok default_limits
from_config j = limits_of j

unfoldable pub enabled : BotLimits → Bool
enabled l = not (nat_eq l.max_bots 0) || ltb 0 l.reserved_player_slots
