-- ===== src/Principal.antt =====
-- core/src/endbot_core/principal.py: who an operation acts for. `group_guard`, which the
-- program only carries, is left out.
use endbot.Prelude.{
  ℕ, Bool, true, false, not, ◌&&◌, ◌||◌, Option, none, some, List, [], ◌∷◌, String, ◌==◌, contains,
  if◌then◌else◌, Dict, Json, Result, value_error, raise_if, ◌>>◌,
}

abbrev pub kinds : List String
kinds = "player" ∷ "console" ∷ "run" ∷ "job" ∷ "web" ∷ []

abbrev pub principal_roles : List String
principal_roles = "scripter" ∷ "controller" ∷ []

-- A session revision is the link's epoch with the number of the join.
pub record Principal : Type 0 where
  pub kind : String
  pub name : Option String
  pub xuid : Option String
  pub grant_revision : Option ℕ
  pub language : String
  pub origin : Option (Dict Json)
  pub player_id : Option String
  pub authorization_revision : Option (Option String × ℕ)
  pub run_id : Option String
  pub role : Option String

abbrev pub is_none {ℓ} : {A : Type ℓ} → Option A → Bool
is_none none = true
is_none (some _) = false

-- `__post_init__`; the role `None` is in `ROLES`.
unfoldable pub post_init : Principal → Result (Unit {0})
post_init p = do
  raise_if (not (contains p.kind kinds)) value_error
  raise_if (elim p.role [ none ↦ false | some r ↦ not (contains r principal_roles) ]) value_error

unfoldable pub console : Principal → Bool
console p = is_none p.player_id && is_none p.xuid

unfoldable pub can_author : Principal → Bool
unfolding console
can_author p = console p || elim p.role [ none ↦ true | some r ↦ not (r == "controller") ]

unfoldable pub as_job : Principal → Principal
as_job p = if p.kind == "player" then record p { kind = "job" } else p
