-- ===== src/Authority/Decision.antt =====
-- What a positive answer of core/src/endbotd/authority.py means.
use endbot.Prelude.{
  ℕ, ◌≡◌, ◌⊎◌, inl, inr, true, false, Option, some, String, ◌==◌, Result-cases, arith, any,
  contains, ok, PyText,
}
use endbot.Principal.{Principal, console}
use endbot.Enrollment.{bindings, is_xuid}
use endbot.Policy.{name_denied, grants_xuid}
use endbot.Presence.{Player, player}
use endbot.Revisions
use endbot.Authority.State.{
  Authority, or_empty, same_revision, control_decision, allows, authorize_identity, authorize,
}

module _ (py : PyText) where
  -- The account is enrolled by a binding or by a list of the configuration.
  abbrev pub IsBootstrapped : String → String → Authority → Type 0
  IsBootstrapped x player_id a =
      (any (λ b. b.xuid == x) (bindings a.controllers) ≡ true)
      ⊎ (contains x a.allowed.xuids ≡ true)
      ⊎ (contains player_id a.allowed.uuids ≡ true)

  -- An account that may control Bots has an XUID, neither its XUID nor its player UUID is denied, and
  -- either a runtime grant names it, or its GamerTag is not denied and a binding or a list of the
  -- configuration names it.
  pub allows_sound :
      (r : Player) (a : Authority)
      → allows py r a ≡ ok true
      → let x = or_empty r.xuid in
        (is_xuid x ≡ true)
        × (contains x a.policy.state.denied_xuids ≡ false)
        × (contains r.player_id a.policy.state.denied_uuids ≡ false)
        × ((grants_xuid py x a.policy.state ≡ ok true)
            ⊎ ((name_denied py (or_empty r.name) a.policy.state ≡ false)
                × IsBootstrapped x r.player_id a))
  unfolding allows control_decision
  allows_sound r a h = elim (Result-cases (grants_xuid py (or_empty r.xuid) a.policy.state)) [
    | inl (true, e) ↦ ground arith
    | inl (false, e) ↦ ground arith
    | inr (_, e) ↦ ground arith
  ]

  -- A current player's work is let through only where the player is online, may control Bots now, and
  -- both the grant revision and the session revision that the work captured are the ones now.
  pub authorize_sound :
      (p : Principal) (a : Authority)
      → authorize py p a ≡ ok true
      → console p ≡ false
      → (p.kind == "player") ≡ true
      → (i : String) × (r : Player) × (v : Option String × ℕ) × (p.player_id ≡ some i)
        × (p.grant_revision ≡ some (Revisions.get i a.grant_revisions))
        × (player i a.presence ≡ some r)
        × (allows py r a ≡ ok true)
        × (p.authorization_revision ≡ some v)
        × (same_revision v r.revision ≡ true)
  unfolding authorize authorize_identity
  authorize_sound p a h not_console is_player = ground arith
