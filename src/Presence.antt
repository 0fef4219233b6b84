-- ===== src/Presence.antt =====
-- core/src/endbot_core/link.py, `Presence`: who is online, as the connected plugin reported it.
use endbot.Prelude.{
  ℕ, ◌+◌, not, Option, none, some, List, [], ◌∷◌, map, String, ◌==◌, contains, if◌then◌else◌, Dict,
  lookup, insert, erase, Json, str, arr, obj, type_error, as_dict, as_list, as_str, get_json,
  Result, ok, err, invalid, unavailable, raise_if, or_raise, attempt, Outcome, ◌>>=◌, ◌>>◌,
}

-- A session revision is the link's epoch with the number of the join.
pub record Player : Type 0 where
  pub player_id : String
  pub name : Option String
  pub xuid : Option String
  pub locale : Option String
  pub revision : Option String × ℕ

pub record Presence : Type 0 where
  pub epoch : Option String
  pub joins : ℕ
  pub players : Dict Player

-- A value that is looked up in a set of texts: a list or an object raises, and only a text may be in it.
unfoldable pub set_member : Json → Result String
set_member (str s) = ok s
set_member (arr js) = err type_error
set_member (obj fs) = err type_error
set_member _ = err invalid

unfoldable pub reset : Option String → Presence → Presence
reset epoch p = record { epoch = epoch; joins = 0; players = [] }

-- `_player_record`, with the revision that `_join` gives.
unfoldable pub player_record : Json → Option String × ℕ → Result Player
player_record j revision = do
  d ← or_raise (as_dict j) invalid
  player_id ← or_raise (as_str (get_json "playerId" d)) invalid
  raise_if (player_id == "") invalid
  ok (record {
    player_id = player_id;
    name = as_str (get_json "name" d);
    xuid = as_str (get_json "xuid" d);
    locale = as_str (get_json "locale" d);
    revision = revision;
  })

-- `_join`
unfoldable pub join : Player → Presence → Presence × Player
join r p =
    let r' = record r { revision = (p.epoch, p.joins + 1) } in
    (record p { joins = p.joins + 1; players = insert r.player_id r' p.players }, r')

-- A player of a report joins; a malformed one raises.
unfoldable pub join_report : Json → Presence → Outcome Presence Player
unfolding player_record
join_report j p =
    attempt (player_record j (p.epoch, p.joins)) p λ r. let (p', r') = join r p in (p', ok r')

-- The players of a snapshot join in turn, up to the first malformed one.
unfoldable pub join_reports : List Json → Presence → Outcome Presence (List Player)
join_reports [] p = (p, ok [])
join_reports (j ∷ js) p =
    let (p', r) = join_report j p in
    let (p'', rs) = join_reports js p' in
    elim r [ err e ↦ (p', err e) | ok x ↦ (p'', (do xs ← rs; ok (x ∷ xs))) ]

-- `apply`, which returns the records that the report touched.
unfoldable pub apply : Dict Json → Presence → Outcome Presence (List Player)
apply body p = attempt (set_member (get_json "kind" body)) p λ kind.
    attempt (raise_if (not (contains kind ("snapshot" ∷ "join" ∷ "quit" ∷ "locale" ∷ []))) invalid)
      p
      λ _. attempt (or_raise p.epoch unavailable) p λ _.
        if kind == "snapshot"
        then attempt (or_raise (as_list (get_json "players" body)) invalid) p
            (λ js. join_reports js (record p { players = [] }))
        else if kind == "join"
        then (let (p', r) = join_report (get_json "player" body) p in (p', (do x ← r; ok (x ∷ []))))
        else attempt (or_raise (as_str (get_json "playerId" body)) invalid) p λ player_id.
          if kind == "quit"
          then (
            record p { players = erase player_id p.players },
            ok (elim (lookup player_id p.players) [ none ↦ [] | some r ↦ r ∷ [] ]),
          )
          else elim (lookup player_id p.players) [
            | none ↦ (p, ok [])
            | some r ↦
                let r' = record r { locale = as_str (get_json "locale" body) } in
                (record p { players = insert player_id r' p.players }, ok (r' ∷ []))
          ]

unfoldable pub player : String → Presence → Option Player
player player_id p = lookup player_id p.players

-- A permission change: the player's session revision becomes a new one.
unfoldable pub bump : String → Presence → Presence
bump player_id p = elim (lookup player_id p.players) [ none ↦ p | some r ↦ (join r p).0 ]

unfoldable pub session_revision : String → Presence → Option (Option String × ℕ)
session_revision player_id p = elim (lookup player_id p.players) [
  | none ↦ none
  | some r ↦ some r.revision
]

unfoldable pub online : Presence → List Player
online p = map (λ e. e.1) p.players
