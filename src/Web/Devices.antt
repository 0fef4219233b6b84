-- ===== src/Web/Devices.antt =====
-- core/src/endbotd/web_auth.py: signing out, and the devices of an account (`WebAuth`).
use endbot.Prelude.{
  ℕ, Bool, true, false, Option, none, some, List, String, ◌==◌, map, find_first, ok, err, os_error,
  link_error, Outcome, PyText,
}
use endbot.Authority.State.{Authority}
use endbot.Web.Store.{Passkey, Session, WebStore, after, passkeys_of, sessions_of, delete_passkey}
use endbot.Web.Signing.{end_session, session, required_session, recent_session}

-- A row of the sessions, and one of the passkeys.
pub record SessionRow : Type 0 where
  pub id : String
  pub label : String
  pub via : String
  pub created : ℕ
  pub last_seen : ℕ
  pub current : Bool

pub record PasskeyRow : Type 0 where
  pub id : String
  pub label : String
  pub created : ℕ
  pub last_used : Option ℕ

abbrev pub session_row : Session → Session → SessionRow
session_row current e = record {
  id = e.id;
  label = e.label;
  via = e.via;
  created = e.created;
  last_seen = e.last_seen;
  current = e.hash == current.hash;
}

abbrev pub passkey_row : Passkey → PasskeyRow
passkey_row e = record { id = e.id; label = e.label; created = e.created; last_used = e.last_used }

-- The answer to a sign-out that ends a session; a file that cannot be written is told, and the
-- browser forgets the session all the same.
unfoldable pub signed_out : Outcome WebStore (Unit {0}) → Outcome WebStore ℕ
signed_out (s, ok _) = (s, ok 200)
signed_out (s, err os_error) = (s, ok 503)
signed_out (s, err e) = (s, err e)

module _ (digest : String → String) where
  -- `_logout`, with the status that it answers.
  unfoldable pub logout : Option String → ℕ → WebStore → Outcome WebStore ℕ
  logout token now s =
      after (session digest token true now s)
        λ s1 found. elim found [ none ↦ (s1, ok 200) | some e ↦ signed_out (end_session e s1) ]

module _ (py : PyText) (digest : String → String) where
  -- `_devices`
  unfoldable pub devices :
      Option String
      → ℕ
      → Authority
      → WebStore
      → Outcome WebStore (List SessionRow × List PasskeyRow)
  devices token now authority s = after (required_session py digest token now authority s) λ s1 e. (
    s1,
    ok (map (session_row e) (sessions_of e.account s1), map passkey_row (passkeys_of e.account s1)),
  )

  -- `_remove_passkey`
  unfoldable pub remove_passkey :
      Option String → Option String → ℕ → Authority → WebStore → Outcome WebStore (Unit {0})
  remove_passkey token id now authority s =
      after (recent_session py digest token now authority s) λ s1 e.
        elim (find_first (λ x. elim id [ none ↦ false | some i ↦ x.id == i ])
          (passkeys_of e.account s1)) [
            | none ↦ (s1, err (link_error "not_found"))
            | some target ↦ delete_passkey target.id s1
          ]
