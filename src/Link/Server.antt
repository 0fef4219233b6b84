-- ===== src/Link/Server.antt =====
-- core/src/endbot_core/link.py: `LinkServer`, endbotd's listener, and `Presence` under its links.
use endbot.Prelude.{
  ℕ, ◌+◌, Bool, true, false, not, Option, none, some, List, [], ◌∷◌, ◌++◌, String, ◌==◌, leb,
  nat_eq, filter, length, contains, Json, null, int, pos, Dict, as_dict, as_list, as_str, get_json,
  Result, ok, err, invalid, unavailable, link_error, or_raise, raise_if, Outcome, attempt,
  if◌then◌else◌, traverse, ◌>>=◌, ◌>>◌,
}
use endbot.Principal.{Principal, post_init}
use endbot.Presence.{set_member, Presence, Player, reset, apply, player}

-- `MAX_CLI_CONNECTIONS`
abbrev pub max_cli_connections : ℕ
max_cli_connections = 4

-- Connections are numbered as they open; `link` and `cli` hold those that are in use.
pub record LinkServer : Type 0 where
  pub token : String
  pub registry : String
  pub takes_cli : Bool
  pub opened : ℕ
  pub link : Option ℕ
  pub cli : List ℕ
  pub stopped : Bool
  pub presence : Presence

abbrev pub no_presence : Presence
no_presence = record { epoch = none; joins = 0; players = [] }

unfoldable pub init : String → String → Bool → LinkServer
init token registry takes_cli = record {
  token = token;
  registry = registry;
  takes_cli = takes_cli;
  opened = 0;
  link = none;
  cli = [];
  stopped = false;
  presence = no_presence;
}

-- `token_matches`
unfoldable pub token_matches : String → Json → Bool
token_matches expected supplied = elim (as_str supplied) [ none ↦ false | some t ↦ expected == t ]

-- `body.get("protocol") == PROTOCOL`
unfoldable pub is_protocol : Json → Bool
is_protocol (int (pos n)) = nat_eq n 2
is_protocol _ = false

-- What a `hello` opens: a CLI connection, or the plugin's link with its epoch.
pub data Peer : Type 0 where
  cli_peer : Peer
  plugin_peer : String → Peer

unfoldable pub cli_hello : LinkServer → Result Peer
cli_hello s = if s.takes_cli then ok cli_peer else err (link_error "unsupported")

unfoldable pub plugin_hello : LinkServer → Dict Json → Result Peer
plugin_hello s body = do
  raise_if (not (token_matches s.registry (get_json "registryHash" body)))
      (link_error "registry_mismatch")
  epoch ← or_raise (as_str (get_json "epoch" body)) invalid
  raise_if (epoch == "") invalid
  ok (plugin_peer epoch)

-- The checks of `_handshake` on its first message.
unfoldable pub check_hello : LinkServer → Dict Json → Result Peer
check_hello s message = do
  raise_if (not (token_matches "hello" (get_json "type" message))) (link_error "protocol")
  body ← or_raise (as_dict (get_json "body" message)) (link_error "protocol")
  raise_if (not (token_matches s.token (get_json "token" body))) (link_error "unauthorized")
  raise_if (not (is_protocol (get_json "protocol" body))) (link_error "protocol_mismatch")
  if token_matches "cli" (get_json "client" body) then cli_hello s else plugin_hello s body

-- `_accept_cli`
unfoldable pub accept_cli : LinkServer → Outcome LinkServer (Unit {0})
accept_cli s = attempt (raise_if s.stopped unavailable) s λ _.
    attempt (raise_if (leb max_cli_connections (length s.cli)) (link_error "busy")) s
      λ _. (record s { cli = s.cli ++ s.opened ∷ []; opened = s.opened + 1 }, ok tt)

-- The end of `_handshake`: the new link replaces the one before, unless the server has stopped.
unfoldable pub take_link : String → LinkServer → Outcome LinkServer (Unit {0})
take_link epoch s = if s.stopped then (s, err unavailable) else (
  record s {
    link = some s.opened;
    opened = s.opened + 1;
    presence = reset (some epoch) s.presence;
  },
  ok tt,
)

unfoldable pub open_peer : Peer → LinkServer → Outcome LinkServer (Unit {0})
open_peer cli_peer s = accept_cli s
open_peer (plugin_peer epoch) s = take_link epoch s

-- `_handshake`; an error stands for a peer that is turned away, with its socket closed.
unfoldable pub handshake : Dict Json → LinkServer → Outcome LinkServer (Unit {0})
handshake message s = attempt (check_hello s message) s λ peer. open_peer peer s

abbrev pub is_link : ℕ → Option ℕ → Bool
is_link n none = false
is_link n (some current) = nat_eq current n

-- `_closed`: only the link that is in use takes the presence with it.
unfoldable pub link_closed : ℕ → LinkServer → LinkServer
link_closed n s =
    if is_link n s.link then record s { link = none; presence = reset none s.presence } else s

-- `_cli_closed`
unfoldable pub cli_closed : ℕ → LinkServer → LinkServer
cli_closed n s = record s { cli = filter (λ m. not (nat_eq m n)) s.cli }

-- `stop` up to its last statement, which `end_stop` is: the connections are closed in between.
unfoldable pub stop : LinkServer → LinkServer
stop s = record s { stopped = true; link = none; cli = [] }

unfoldable pub end_stop : LinkServer → LinkServer
end_stop s = record s { presence = reset none s.presence }

-- `_presence`
unfoldable pub report : Dict Json → LinkServer → Outcome LinkServer (List Player)
report body s =
    let (after, records) = apply body s.presence in (record s { presence = after }, records)

-- `ROOTS`
abbrev pub roots : List String
roots = "bot" ∷ "botgroup" ∷ "botscript" ∷ "botcontrollers" ∷ "botweb" ∷ []

pub record Submission : Type 0 where
  pub root : String
  pub principal : Principal
  pub argv : Option (List String)
  pub operation : Option (Dict Json)
  pub guard : Option (Dict Json)

abbrev is_null : Json → Bool
is_null null = true
is_null _ = false

abbrev same_test : Bool → Bool → Bool
same_test true b = b
same_test false b = not b

-- A list of texts or `None`, and an object or `None`; anything else raises.
unfoldable pub argv_of : Json → Result (Option (List String))
argv_of null = ok none
argv_of j = do
  items ← or_raise (as_list j) invalid
  argv ← traverse (λ i. or_raise (as_str i) invalid) items
  ok (some argv)

unfoldable pub dict_or_none : Json → Result (Option (Dict Json))
dict_or_none null = ok none
dict_or_none j = do d ← or_raise (as_dict j) invalid; ok (some d)

abbrev pub language_of : Json → String
language_of j = elim (as_str j) [ none ↦ "en" | some l ↦ l ]

unfoldable pub console_sender : Option (Dict Json) → Principal
console_sender origin = record {
  kind = "console";
  name = none;
  xuid = none;
  grant_revision = none;
  language = "en";
  player_id = none;
  origin = origin;
  authorization_revision = none;
  run_id = none;
  role = none;
}

-- What `LinkServer` was given: the grant revision of a player, and the role of an XUID.
module _ (grant_revision : String → ℕ) (role : String → Option String) where
  -- A player, as the presence has it; one that is not there has no name, XUID or session.
  unfoldable pub player_sender : String → String → Option (Dict Json) → Option Player → Principal
  player_sender player_id language origin none = record {
    kind = "player";
    name = none;
    xuid = none;
    grant_revision = some (grant_revision player_id);
    language = language;
    player_id = some player_id;
    origin = origin;
    authorization_revision = none;
    run_id = none;
    role = none;
  }
  player_sender player_id language origin (some r) = record {
    kind = "player";
    name = r.name;
    xuid = r.xuid;
    grant_revision = some (grant_revision player_id);
    language = language;
    player_id = some player_id;
    origin = origin;
    authorization_revision = some r.revision;
    run_id = none;
    role = elim r.xuid [ none ↦ none | some x ↦ if x == "" then none else role x ];
  }

  -- A player that a wire sender names.
  unfoldable pub named_sender : Dict Json → LinkServer → Result Principal
  named_sender d s = do
    player_id ← or_raise (as_str (get_json "playerId" d)) invalid
    raise_if (player_id == "") invalid
    ok (
        player_sender player_id (language_of (get_json "language" d))
          (as_dict (get_json "origin" d)) (player player_id s.presence))

  -- `_sender`
  unfoldable pub sender : Json → LinkServer → Result Principal
  sender wire s = do
    d ← or_raise (as_dict wire) invalid
    kind ← set_member (get_json "kind" d)
    raise_if (not (contains kind ("player" ∷ "console" ∷ []))) invalid
    p ←
        if kind == "console"
        then ok (console_sender (as_dict (get_json "origin" d)))
        else named_sender d s
    post_init p
    ok p

  -- `_submit` up to its call of `on_submit`, which takes what is returned here.
  unfoldable pub submission : Dict Json → LinkServer → Result Submission
  submission body s = do
    root ← set_member (get_json "root" body)
    raise_if (not (contains root roots)) invalid
    raise_if (same_test (is_null (get_json "argv" body)) (is_null (get_json "operation" body)))
        invalid
    argv ← argv_of (get_json "argv" body)
    operation ← dict_or_none (get_json "operation" body)
    guard ← dict_or_none (get_json "guard" body)
    p ← sender (get_json "sender" body) s
    ok (record { root = root; principal = p; argv = argv; operation = operation; guard = guard })
