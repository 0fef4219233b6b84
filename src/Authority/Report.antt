-- ===== src/Authority/Report.antt =====
-- core/src/endbotd/authority.py, `report`: one row for each account, name and identity that the
-- policy, the configuration or the presence knows.
use endbot.Prelude.{
  Bool, true, false, not, ◌||◌, Option, none, some, List, [], ◌∷◌, ◌++◌, map, String, ◌==◌,
  find_first, filter, is_some, contains, sorted_set, str_leb, if◌then◌else◌, Result, ok, ◌>>=◌,
  PyText, concat,
}
use mathlib.Core.List.{reverse}
use endbot.Enrollment
use endbot.Enrollment.{Binding, is_xuid, bindings}
use endbot.Policy.{name_denied}
use endbot.Roles.{role, pending_role}
use endbot.Presence.{Player, online}
use endbot.Authority.State.{Authority, or_empty, control_decision}

pub record Row : Type 0 where
  pub name : String
  pub state : String
  pub reason : String
  pub xuid : Option String
  pub uuid : Option String
  pub is_online : Bool
  pub granted_role : Option String

-- The rows, and what the earlier rows have shown.
pub record Seen : Type 0 where
  pub rows : List Row
  pub xuids : List String
  pub names : List String
  pub uuids : List String

-- `entry.get("xuid") == xuid`
abbrev pub has_xuid : String → Player → Bool
has_xuid xuid r = elim r.xuid [ none ↦ false | some x ↦ x == xuid ]

-- The texts of the last loop, for XUIDs and for UUIDs.
pub record Labels : Type 0 where
  pub kind : String
  pub revoked : String
  pub conditional : String

abbrev xuid_labels : Labels
xuid_labels = record {
  kind = "xuid:";
  revoked = "revoked XUID";
  conditional = "legacy XUID allowlist; requires Xbox authentication and identity checks";
}

abbrev uuid_labels : Labels
uuid_labels = record {
  kind = "uuid:";
  revoked = "revoked UUID";
  conditional = "legacy UUID allowlist; requires Xbox authentication and identity checks";
}

unfoldable pub identity_row : Labels → List String → String → Row
identity_row labels denied identity =
    let revoked = contains identity denied in
    record {
      name = concat labels.kind identity;
      state = if revoked then "revoked" else "conditional";
      reason = if revoked then labels.revoked else labels.conditional;
      xuid = none;
      uuid = none;
      is_online = false;
      granted_role = none;
    }

-- The last loop: identities of the allowlist or the denials that no earlier row has shown.
unfoldable pub identity_rows : Labels → List String → List String → List String → List Row
identity_rows labels configured denied seen =
    map (identity_row labels denied)
      (filter (λ i. not (contains i seen)) (sorted_set (configured ++ denied)))

module _ (py : PyText) where
  -- The row of a binding, and of an online player without one.
  unfoldable pub account_row : String → String → String → Bool → String → Authority → Result Row
  account_row name xuid uuid is_online refused a = do
    (allowed, reason) ← control_decision py name xuid uuid a
    ok (record {
      name = name;
      state = if allowed then "allowed" else refused;
      reason = reason;
      xuid = some xuid;
      uuid = some uuid;
      is_online = is_online;
      granted_role = if allowed then some (role xuid a.roles) else none;
    })

  -- The body of the first loop.
  unfoldable pub add_binding : Binding → Authority → Seen → Result Seen
  add_binding b a seen =
      let player = find_first (λ r. has_xuid b.xuid r) (online a.presence) in
      let name : String = elim player [
        | none ↦ b.gamertag
        | some r ↦ if or_empty r.name == "" then b.gamertag else or_empty r.name
      ] in
      let uuid : String = elim player [ none ↦ b.uuid | some r ↦ r.player_id ] in
      if contains b.xuid seen.xuids then ok seen else (do
        row ← account_row name b.xuid uuid (is_some player) "revoked" a
        ok (record {
          rows = seen.rows ++ row ∷ [];
          xuids = b.xuid ∷ seen.xuids;
          names = py.casefold name ∷ py.casefold b.gamertag ∷ seen.names;
          uuids = uuid ∷ seen.uuids;
        }))

  unfoldable pub binding_rows : List Binding → Authority → Seen → Result Seen
  binding_rows [] a seen = ok seen
  binding_rows (b ∷ bs) a seen = do next ← add_binding b a seen; binding_rows bs a next

  -- The body of the second loop: online players whose XUID no binding has.
  unfoldable pub add_online : Player → Authority → Seen → Result Seen
  add_online r a seen =
      let xuid = or_empty r.xuid in
      let name = or_empty r.name in
      if not (is_xuid xuid) || contains xuid seen.xuids then ok seen else (do
        row ← account_row name xuid r.player_id true "denied" a
        ok (record {
          rows = seen.rows ++ row ∷ [];
          xuids = xuid ∷ seen.xuids;
          names = py.casefold name ∷ seen.names;
          uuids = r.player_id ∷ seen.uuids;
        }))

  unfoldable pub online_rows : List Player → Authority → Seen → Result Seen
  online_rows [] a seen = ok seen
  online_rows (r ∷ rs) a seen = do next ← add_online r a seen; online_rows rs a next

  -- The body of the third loop: GamerTags that wait or are revoked.
  unfoldable pub add_name : String → Authority → Seen → Seen
  add_name name a seen =
      let revoked = name_denied py name a.policy.state in
      let waiting_role : String = elim (pending_role py name a.roles) [
        | none ↦ "scripter"
        | some r ↦ if r == "" then "scripter" else r
      ] in
      let row : Row = record {
        name = name;
        state = if revoked then "revoked" else "pending";
        reason = if revoked then "revoked GamerTag" else "awaiting first Xbox-authenticated join";
        xuid = none;
        uuid = none;
        is_online = false;
        granted_role = if revoked then none else some waiting_role;
      } in
      if contains (py.casefold name) seen.names
      then seen
      else record seen { rows = seen.rows ++ row ∷ []; names = py.casefold name ∷ seen.names }

  unfoldable pub name_rows : List String → Authority → Seen → Seen
  name_rows [] a seen = seen
  name_rows (n ∷ ns) a seen = name_rows ns a (add_name n a seen)

  -- `sorted(rows, key=lambda row: row["name"].casefold())`, which keeps the order of equal keys.
  unfoldable pub place_row : Row → List Row → List Row
  place_row r [] = r ∷ []
  place_row r (x ∷ xs) =
      let rest = place_row r xs in
      if str_leb (py.casefold r.name) (py.casefold x.name) then r ∷ x ∷ xs else x ∷ rest

  unfoldable pub sort_rows : List Row → List Row
  sort_rows [] = []
  sort_rows (r ∷ rs) = place_row r (sort_rows rs)

  unfoldable pub report : Authority → Result (List Row)
  report a = do
    let s = a.policy.state
    let start : Seen = record { rows = []; xuids = []; names = []; uuids = [] }
    bound ← binding_rows (reverse (bindings a.controllers ++ s.grants)) a start
    present ← online_rows (online a.presence) a bound
    let named =
        name_rows (Enrollment.pending py a.controllers ++ s.pending ++ s.denied_names) a present
    let by_xuid = identity_rows xuid_labels a.allowed.xuids s.denied_xuids named.xuids
    let by_uuid = identity_rows uuid_labels a.allowed.uuids s.denied_uuids named.uuids
    ok (sort_rows (named.rows ++ by_xuid ++ by_uuid))
