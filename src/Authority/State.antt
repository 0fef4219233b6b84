-- ===== src/Authority/State.antt =====
-- core/src/endbotd/authority.py: the state, and the decision whether an account may control Bots.
use endbot.Prelude.{
  ℕ, Bool, true, false, not, ◌&&◌, Option, none, some, List, String, ◌==◌, nat_eq, any, contains,
  if◌then◌else◌, Dict, Result, ok, ◌>>=◌, PyText,
}
use endbot.Principal.{Principal, console}
use endbot.Enrollment.{ControllerEnrollment, bindings, is_xuid}
use endbot.Policy.{ControllerPolicy, name_denied, grants_xuid}
use endbot.Revisions
use endbot.Revisions.{GrantRevisions}
use endbot.Roles.{ControllerRoles}
use endbot.Presence.{Presence, Player, player}

-- authorization.py, `AllowedPlayers`
pub record AllowedPlayers : Type 0 where
  pub uuids : List String
  pub xuids : List String

-- `granted` is the control permission last sent for each online player.
pub record Authority : Type 0 where
  pub presence : Presence
  pub allowed : AllowedPlayers
  pub controllers : ControllerEnrollment
  pub policy : ControllerPolicy
  pub grant_revisions : GrantRevisions
  pub roles : ControllerRoles
  pub granted : Dict Bool

-- `value or ""`
abbrev pub or_empty : Option String → String
or_empty none = ""
or_empty (some s) = s

-- Equality of session revisions.
unfoldable pub same_revision : Option String × ℕ → Option String × ℕ → Bool
same_revision (some e, n) (some f, m) = e == f && nat_eq n m
same_revision (none, n) (none, m) = nat_eq n m
same_revision _ _ = false

module _ (py : PyText) where
  -- Whether the account may control Bots, and why.
  unfoldable pub control_decision : String → String → String → Authority → Result (Bool × String)
  control_decision name xuid player_id a =
      let s = a.policy.state in
      if not (is_xuid xuid)
      then ok (false, "Xbox authentication required")
      else if contains xuid s.denied_xuids
      then ok (false, "revoked XUID")
      else if contains player_id s.denied_uuids
      then ok (false, "revoked UUID")
      else (do
        granted ← grants_xuid py xuid s
        ok (
            if granted
            then (true, "runtime grant")
            else if name_denied py name s
            then (false, "revoked GamerTag")
            else if any (λ b. b.xuid == xuid) (bindings a.controllers)
            then (true, "bootstrap binding")
            else if contains xuid a.allowed.xuids
            then (true, "legacy XUID allowlist")
            else if contains player_id a.allowed.uuids
            then (true, "legacy UUID allowlist")
            else (false, "not enrolled")))

  unfoldable pub allows : Player → Authority → Result Bool
  allows r a = do
    decision ← control_decision (or_empty r.name) (or_empty r.xuid) r.player_id a
    ok decision.0

  -- `principal.grant_revision != self.grant_revisions.get(principal.player_id)`, negated.
  abbrev pub is_current : Principal → String → Authority → Bool
  is_current p player_id a = elim p.grant_revision [
    | none ↦ false
    | some n ↦ nat_eq n (Revisions.get player_id a.grant_revisions)
  ]

  -- The last part of `authorize`, for a player UUID whose grant revision is current.
  unfoldable pub authorize_identity : Principal → String → Authority → Result Bool
  authorize_identity p player_id a = elim (player player_id a.presence) [
    | some r ↦
        if p.kind == "player"
        then (do
          allowed ← allows r a
          ok (
              allowed && elim p.authorization_revision [
                | none ↦ false
                | some v ↦ same_revision v r.revision
              ]))
        else allows r a
    | none ↦ if p.kind == "player" then ok false else (do
      decision ← control_decision (or_empty p.name) (or_empty p.xuid) player_id a
      ok decision.0)
  ]

  unfoldable pub authorize : Principal → Authority → Result Bool
  authorize p a = if console p then ok true else elim p.player_id [
    | none ↦ ok false
    | some player_id ↦
        if is_current p player_id a then authorize_identity p player_id a else ok false
  ]
