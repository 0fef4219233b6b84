-- ===== src/Web/Signing.antt =====
-- core/src/endbotd/web_auth.py: ceremonies and sessions (`WebAuth`).
use endbot.Prelude.{
  ℕ, ◌+◌, ◌-◌, Bool, true, false, not, ◌&&◌, ◌||◌, Option, none, some, String, ◌==◌, leb, ltb,
  length, filter, find_first, if◌then◌else◌, Dict, lookup, insert, erase, Result, ok, err,
  link_error, Outcome, attempt, raise_if, PyText, Json, as_str, get_json, ◌>>=◌,
}
use endbot.Principal.{Principal}
use endbot.Revisions
use endbot.Roles
use endbot.Authority.State.{Authority, authorize}
use endbot.Web.Codes.{LinkIdentity}
use endbot.Web.Store.{
  Account, Session, WebStore, after, account, find_session, sessions_of, add_session,
  update_session, delete_session,
}

-- `CEREMONY_SECONDS`, `MAX_CEREMONIES`, `RECENT_ASSERTION_SECONDS`, `SESSION_IDLE_SECONDS`,
-- `SESSION_ABSOLUTE_SECONDS` and `LAST_SEEN_SECONDS`
abbrev pub ceremony_seconds : ℕ
ceremony_seconds = 120

abbrev pub max_ceremonies : ℕ
max_ceremonies = 100

abbrev pub recent_assertion_seconds : ℕ
recent_assertion_seconds = 300

abbrev pub session_idle_seconds : ℕ
session_idle_seconds = 604800

abbrev pub session_absolute_seconds : ℕ
session_absolute_seconds = 2592000

abbrev pub last_seen_seconds : ℕ
last_seen_seconds = 3600

pub record Ceremony : Type 0 where
  pub kind : String
  pub challenge : String
  pub expires : ℕ
  pub identity : Option LinkIdentity
  pub via : String

-- `_ceremonies`
abbrev pub Ceremonies : Type 0
Ceremonies = Dict Ceremony

abbrev pub live_ceremonies : ℕ → Ceremonies → Ceremonies
live_ceremonies now = filter (λ e. ltb now e.1.expires)

-- `_begin`; `key` is drawn at random. An `AuthError` is named by its code.
unfoldable pub begin :
    String
    → String
    → String
    → Option LinkIdentity
    → String
    → ℕ
    → Ceremonies
    → Outcome Ceremonies String
begin key kind challenge identity via now cs =
    let live = live_ceremonies now cs in
    attempt (raise_if (leb max_ceremonies (length live)) (link_error "busy")) live λ _. (
      insert key
          (record {
            kind = kind;
            challenge = challenge;
            expires = now + ceremony_seconds;
            identity = identity;
            via = via;
          })
          live,
      ok key,
    )

-- `self._ceremonies.pop(key, None) if isinstance(key, str) else None`
abbrev pub pop_ceremony : Option String → Ceremonies → Ceremonies × Option Ceremony
pop_ceremony none cs = (cs, none)
pop_ceremony (some key) cs = (erase key cs, lookup key cs)

unfoldable pub check_ceremony : String → ℕ → Option Ceremony → Result Ceremony
check_ceremony kind now none = err (link_error "expired")
check_ceremony kind now (some c) =
    if not (c.kind == kind) || leb c.expires now then err (link_error "expired") else ok c

-- `_finish`
unfoldable pub finish : Dict Json → String → ℕ → Ceremonies → Outcome Ceremonies Ceremony
finish body kind now cs =
    let (cs', c) = pop_ceremony (as_str (get_json "ceremony" body)) cs in
    (cs', check_ceremony kind now c)

-- `account.get("sessionsFrom", 0)`
abbrev pub sessions_from : Account → ℕ
sessions_from a = elim a.sessions_from [ none ↦ 0 | some t ↦ t ]

-- The tests of `session` on a session that is found, and its account.
unfoldable pub is_expired : ℕ → Session → Option Account → Bool
is_expired now e none = true
is_expired now e (some a) =
    leb session_idle_seconds (now - e.last_seen)
    || leb session_absolute_seconds (now - e.created)
    || ltb e.created (sessions_from a)

-- `end_session`, with the hash that `on_sessions_removed` is told.
unfoldable pub end_session : Session → WebStore → Outcome WebStore (Unit {0})
end_session e s = delete_session e.hash s

-- `session` for a session that is found.
unfoldable pub visit : Bool → ℕ → Session → WebStore → Outcome WebStore (Option Session)
visit active now e s =
    if is_expired now e (account e.account s)
    then (after (end_session e s) λ s' _. (s', ok none))
    else if active && leb last_seen_seconds (now - e.last_seen)
    then (after (update_session e.hash now s) λ s' _. (s', ok (some e)))
    else (s, ok (some e))

-- The principal of a session.
unfoldable pub web_principal : Account → Session → String → Authority → Principal
web_principal a e language authority = record {
  kind = "web";
  name = some a.gamertag;
  xuid = some a.xuid;
  grant_revision = some e.grant_revision;
  language = language;
  player_id = some a.uuid;
  origin = none;
  authorization_revision = none;
  run_id = none;
  role = some (Roles.role a.xuid authority.roles);
}

-- `_token_hash` is the parameter `digest`.
module _ (digest : String → String) where
  -- `session`; a token that is no text is `none`.
  unfoldable pub session : Option String → Bool → ℕ → WebStore → Outcome WebStore (Option Session)
  session none active now s = (s, ok none)
  session (some token) active now s =
      if token == "" then (s, ok none) else elim (find_session (digest token) s) [
        | none ↦ (s, ok none)
        | some e ↦ visit active now e s
      ]

  -- `issue_session`; `token` and `id` are drawn at random.
  unfoldable pub issue_session :
      String
      → String
      → Account
      → String
      → String
      → ℕ
      → Authority
      → WebStore
      → Outcome WebStore String
  issue_session token id a via label now authority s =
      after
        (add_session
          (record {
            id = id;
            hash = digest token;
            account = a.id;
            via = via;
            label = label;
            created = now;
            last_seen = now;
            asserted_at = now;
            grant_revision = Revisions.get a.uuid authority.grant_revisions;
          })
          s)
        λ s' _. (s', ok token)

module _ (py : PyText) where
  unfoldable pub authorized : Principal → Authority → Result (Option Principal)
  authorized p authority = do
    granted ← authorize py p authority
    ok (if granted then some p else none)

  -- The last part of `principal`, for a session that `session` gave.
  unfoldable pub principal_of :
      String → Authority → WebStore → Option Session → Result (Option Principal)
  principal_of language authority s none = ok none
  principal_of language authority s (some e) = elim (account e.account s) [
    | none ↦ ok none
    | some a ↦ authorized (web_principal a e language authority) authority
  ]

module _ (py : PyText) (digest : String → String) where
  -- `principal`
  unfoldable pub principal :
      Option String → String → Bool → ℕ → Authority → WebStore → Outcome WebStore (Option Principal)
  principal token language active now authority s =
      after (session digest token active now s)
        λ s' e. (s', principal_of py language authority s' e)

  -- `_required_session`, `_recent_session`
  unfoldable pub required_session :
      Option String → ℕ → Authority → WebStore → Outcome WebStore Session
  required_session token now authority s = after (session digest token true now s) λ s1 found.
      elim found [
        | none ↦ (s1, err (link_error "signed_out"))
        | some e ↦
            after (principal token "en" true now authority s1)
              λ s2 p. (s2, elim p [ none ↦ err (link_error "signed_out") | some _ ↦ ok e ])
      ]

  unfoldable pub recent_session :
      Option String → ℕ → Authority → WebStore → Outcome WebStore Session
  recent_session token now authority s = after (required_session token now authority s) λ s' e. (
    s',
    if leb recent_assertion_seconds (now - e.asserted_at)
        then err (link_error "reauthenticate")
        else ok e,
  )

  -- `_remove_session`, with whether the browser is to forget its cookie.
  unfoldable pub remove_session :
      Option String → Option String → ℕ → Authority → WebStore → Outcome WebStore Bool
  remove_session token id now authority s = after (required_session token now authority s) λ s1 e.
      elim (find_first (λ x. elim id [ none ↦ false | some i ↦ x.id == i ])
        (sessions_of e.account s1)) [
          | none ↦ (s1, err (link_error "not_found"))
          | some target ↦ after (end_session target s1) λ s2 _. (s2, ok (target.hash == e.hash))
        ]
