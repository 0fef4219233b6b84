-- ===== src/Authority/Changes.antt =====
-- core/src/endbotd/authority.py: the methods that change who may control Bots. The lock that each
-- runs under is what lets a call be one action here; the log lines are left out.
use mathlib.Core.Bool.{xor}
use mathlib.Core.Option
use endbot.Prelude.{
  map, Bool, false, not, ◌&&◌, ◌||◌, Option, none, some, List, [], ◌∷◌, ◌++◌, String, ◌==◌,
  find_first, filter_map, contains, if◌then◌else◌, lookup, insert, erase, ok, Outcome, PyText,
}
use endbot.Enrollment
use endbot.Enrollment.{Binding, is_xuid, bindings}
use endbot.Policy
use endbot.Policy.{Policy, ControllerPolicy, denied, name_denied, enroll}
use endbot.Revisions
use endbot.Roles
use endbot.Roles.{pending_role}
use endbot.Presence
use endbot.Presence.{Player, player, online}
use endbot.Authority.Action.{
  Action, ◌>>=◌, ◌>>◌, pure, gets, reads, modify, on_option, on_policy, on_controllers,
  on_revisions, on_roles,
}
use endbot.Authority.State.{Authority, or_empty, allows}
use endbot.Authority.Report.{Row, report}

abbrev skip : Action (Unit {0})
skip = pure tt

-- In `_apply`: the record of what was sent, and a new session revision where it changed.
unfoldable pub apply_change : String → Bool → Authority → Authority
apply_change player_id allowed a =
    let sent : Bool = elim (lookup player_id a.granted) [ none ↦ false | some b ↦ b ] in
    record a {
      presence = if xor sent allowed then Presence.bump player_id a.presence else a.presence;
      granted = insert player_id allowed a.granted;
    }

-- A text that Python counts as true.
abbrev pub non_empty : Option String → Option String
non_empty none = none
non_empty (some s) = if s == "" then none else some s

module _ (py : PyText) where
  -- `_apply`: the permission of one player; a change of it starts a new session revision.
  unfoldable pub apply_permission : String → Action (String × Bool)
  apply_permission player_id = do
    allowed ←
        reads (λ a. elim (player player_id a.presence) [ none ↦ ok false | some r ↦ allows py r a ])
    modify (apply_change player_id allowed)
    pure (player_id, allowed)

  unfoldable pub apply_permissions : List String → Action (List (String × Bool))
  apply_permissions [] = pure []
  apply_permissions (i ∷ is) = do p ← apply_permission i; ps ← apply_permissions is; pure (p ∷ ps)

  unfoldable pub refresh : Action (List (String × Bool))
  refresh = do
    players ← gets (λ a. online a.presence)
    apply_permissions (map (λ r. r.player_id) players)

  -- In `joined`: the first authenticated join binds a configured GamerTag.
  unfoldable pub bind_controller : String → String → String → String → Action (Unit {0})
  bind_controller now name xuid player_id = if not (is_xuid xuid) then skip else (do
    revoked ← reads (λ a. denied py xuid player_id a.policy.state)
    named ← gets (λ a. name_denied py name a.policy.state)
    (if revoked || named
        then skip
        else (on_controllers (Enrollment.authorize py now name xuid player_id) >> skip)))

  -- In `joined`: a role that waits for the GamerTag goes to its XUID.
  unfoldable pub settle_role : Player → Action (Unit {0})
  settle_role r =
      let name = or_empty r.name in
      let xuid = or_empty r.xuid in
      if not (is_xuid xuid) then skip else (do
        waiting ← gets (λ a. pending_role py name a.roles)
        on_option waiting skip λ role. do
          allowed ← reads (allows py r)
          (if allowed
              then (on_roles (Roles.set xuid role)
                  >> on_roles (Roles.forget_pending py (name ∷ [])))
              else skip))

  -- The body of the loop of `joined`.
  unfoldable pub joined_one : String → Player → Action (String × Bool)
  joined_one now r = do
    on_policy (enroll py now (or_empty r.name) (or_empty r.xuid) r.player_id)
    bind_controller now (or_empty r.name) (or_empty r.xuid) r.player_id
    settle_role r
    apply_permission r.player_id

  unfoldable pub joined_all : String → List Player → Action (List (String × Bool))
  joined_all now [] = pure []
  joined_all now (r ∷ rs) = do p ← joined_one now r; ps ← joined_all now rs; pure (p ∷ ps)

  unfoldable pub joined : String → List Player → Bool → Action (List (String × Bool))
  joined now records snapshot = do
    modify (λ a. if snapshot then record a { granted = [] } else a)
    joined_all now records

  unfoldable pub quit : String → Action (Unit {0})
  quit player_id = modify (λ a. record a { granted = erase player_id a.granted })

  -- `x.casefold() == y.casefold()`
  abbrev same_name : String → String → Bool
  same_name x y = py.casefold x == py.casefold y

  abbrev pub find_player : String → Authority → Option Player
  find_player target a = find_first (λ r. same_name (or_empty r.name) target) (online a.presence)

  -- In `operation`, for `add`: the role is written before the grant.
  unfoldable pub write_role : String → Option String → Option String → Action (Unit {0})
  write_role target xuid effective = on_option effective skip λ role.
      on_option xuid (on_roles (Roles.set_pending py target role)) λ x.
        if is_xuid x
        then (on_roles (Roles.set x role) >> on_roles (Roles.forget_pending py (target ∷ [])))
        else on_roles (Roles.set_pending py target role)

  -- In `operation`, for `add`: whom the grant names.
  unfoldable pub write_grant : String → String → Option Player → Option Binding → Action (Unit {0})
  write_grant now target found bound =
      let by_binding =
        on_option bound (on_policy (Policy.add py now target none none))
          λ b. on_policy (Policy.add py now target (some b.xuid) (some b.uuid)) in
      on_option found by_binding
        λ r. on_policy (Policy.add py now target (some (or_empty r.xuid)) (some r.player_id))

  unfoldable pub add_controller : String → String → Option String → Action (Unit {0})
  add_controller now target role = do
    found ← gets (find_player target)
    bound ← gets (λ a.
        find_first (λ b. same_name b.gamertag target)
          (bindings a.controllers ++ a.policy.state.grants))
    rows ← reads (report py)
    let existing = find_first (λ w. same_name w.name target && w.state == "allowed") rows
    let xuid : Option String = elim found [
      | some r ↦ r.xuid
      | none ↦ elim bound [ none ↦ none | some b ↦ some b.xuid ]
    ]
    let effective : Option String = elim role [
      | some r ↦ some r
      | none ↦ elim existing [ none ↦ some "controller" | some _ ↦ none ]
    ]
    write_role target xuid effective
    write_grant now target found bound

  -- A row of the report that the policy denies.
  unfoldable pub is_denied_row : Policy → Row → Bool
  is_denied_row s w =
      elim w.xuid [ none ↦ false | some x ↦ contains x s.denied_xuids ]
      || elim w.uuid [ none ↦ false | some u ↦ contains u s.denied_uuids ]
      || contains (py.casefold w.name) s.denied_names

  -- The roles of every denied account, and the role that waits for the GamerTag.
  unfoldable pub drop_roles : String → List Row → Action (Unit {0})
  drop_roles target before = do
    xuids ← gets (λ a.
        filter_map (λ w. if is_denied_row a.policy.state w then non_empty w.xuid else none) before)
    on_roles (Roles.forget xuids)
    on_roles (Roles.forget_pending py (target ∷ []))

  -- The last part of `remove`: the grant revision of every denied account is raised, and its role goes.
  unfoldable pub record_removal : String → List Row → Action (Unit {0})
  record_removal target before = do
    uuids ← gets (λ a.
        filter_map (λ w. if is_denied_row a.policy.state w then non_empty w.uuid else none) before)
    on_revisions (Revisions.bump uuids)
    drop_roles target before

  -- `policy.remove` as `remove` calls it, with what the caller knows of the target.
  unfoldable pub remove_from_policy : String → Authority → Outcome ControllerPolicy (Unit {0})
  remove_from_policy target a =
      let found = find_player target a in
      Policy.remove py target (bindings a.controllers) a.controllers.gamertags
        (Option.map (λ r. or_empty r.xuid) found) (Option.map (λ r. r.player_id) found) a.policy

  -- In `operation`, for `remove`.
  unfoldable pub remove_controller : String → Action (Unit {0})
  remove_controller target = do
    before ← reads (report py)
    reading ← gets (λ a. a)
    on_policy (λ _. remove_from_policy target reading)
    record_removal target before
