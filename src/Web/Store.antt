-- ===== src/Web/Store.antt =====
-- core/src/endbotd/web_store.py: the accounts of the web page with their passkeys and sessions (`WebStore`).
use endbot.Prelude.{
  ℕ, Bool, true, false, not, ◌&&◌, Option, none, some, List, [], ◌∷◌, ◌++◌, map, String, ◌==◌,
  length, filter, find_first, if◌then◌else◌, nat_eq, ok, err, value_error, os_error, Outcome,
  PyText, ◌-◌,
}

-- A time is a number of seconds.
pub record Account : Type 0 where
  pub id : String
  pub xuid : String
  pub uuid : String
  pub gamertag : String
  pub user_handle : String
  pub created : ℕ
  pub sessions_from : Option ℕ

pub record Passkey : Type 0 where
  pub id : String
  pub account : String
  pub public_key : String
  pub sign_count : ℕ
  pub rp_id : String
  pub transports : List String
  pub label : String
  pub created : ℕ
  pub last_used : Option ℕ
  pub via : String

pub record Session : Type 0 where
  pub id : String
  pub hash : String
  pub account : String
  pub via : String
  pub label : String
  pub created : ℕ
  pub last_seen : ℕ
  pub asserted_at : ℕ
  pub grant_revision : ℕ

-- A file with a list of entries, and the list in memory.
pub record Kept (A : Type 0) : Type 0 where
  pub symlink : Bool
  pub writable : Bool
  pub on_disk : List A
  pub entries : List A

pub record WebStore : Type 0 where
  pub accounts : Kept Account
  pub passkeys : Kept Passkey
  pub sessions : Kept Session

-- `_save`, then the memory.
unfoldable pub commit : {A : Type 0} → List A → Kept A → Outcome (Kept A) (Unit {0})
commit es k =
    if k.symlink
    then (k, err value_error)
    else if k.writable
    then (record k { on_disk = es; entries = es }, ok tt)
    else (k, err os_error)

-- `_commit_accounts`, `_commit_passkeys` and `_commit_sessions`
unfoldable pub commit_accounts : List Account → WebStore → Outcome WebStore (Unit {0})
commit_accounts es s = let (k, r) = commit es s.accounts in (record s { accounts = k }, r)

unfoldable pub commit_passkeys : List Passkey → WebStore → Outcome WebStore (Unit {0})
commit_passkeys es s = let (k, r) = commit es s.passkeys in (record s { passkeys = k }, r)

unfoldable pub commit_sessions : List Session → WebStore → Outcome WebStore (Unit {0})
commit_sessions es s = let (k, r) = commit es s.sessions in (record s { sessions = k }, r)

-- What follows a step that has returned; a step that raises ends the method.
abbrev pub after {ℓ} :
    {S : Type ℓ} {A B : Type 0} → Outcome S A → (S → A → Outcome S B) → Outcome S B
after (s, ok a) f = f s a
after (s, err e) f = (s, err e)

unfoldable pub account : String → WebStore → Option Account
account id s = find_first (λ a. a.id == id) s.accounts.entries

unfoldable pub account_for_xuid : String → WebStore → Option Account
account_for_xuid xuid s = find_first (λ a. a.xuid == xuid) s.accounts.entries

unfoldable pub account_for_gamertag : PyText → String → WebStore → Option Account
account_for_gamertag py gamertag s =
    find_first (λ a. py.casefold a.gamertag == py.casefold gamertag) s.accounts.entries

-- The entry of an XUID, replaced.
abbrev pub put_account : Account → String → List Account → List Account
put_account a xuid = map (λ e. if e.xuid == xuid then a else e)

-- `ensure_account`; `id` and `handle` are drawn at random.
unfoldable pub ensure_account :
    String → String → ℕ → String → String → String → WebStore → Outcome WebStore Account
ensure_account id handle now xuid player_id gamertag s = elim (account_for_xuid xuid s) [
  | none ↦
      let a : Account = record {
        id = id;
        xuid = xuid;
        uuid = player_id;
        gamertag = gamertag;
        user_handle = handle;
        created = now;
        sessions_from = none;
      } in
      after (commit_accounts (s.accounts.entries ++ a ∷ []) s) λ s' _. (s', ok a)
  | some a ↦
      if a.uuid == player_id && a.gamertag == gamertag
      then (s, ok a)
      else let a' = record a { uuid = player_id; gamertag = gamertag } in
        after (commit_accounts (put_account a' xuid s.accounts.entries) s) λ s' _. (s', ok a')
]

-- Sessions of an account and the others.
abbrev pub of_account : String → List Session → List Session
of_account id = filter (λ e. e.account == id)

abbrev pub not_of_account : String → List Session → List Session
not_of_account id = filter (λ e. not (e.account == id))

abbrev pub is_empty {ℓ} : {A : Type ℓ} → List A → Bool
is_empty [] = true
is_empty (_ ∷ _) = false

abbrev pub hashes : List Session → List String
hashes = map (λ e. e.hash)

-- `delete_sessions` for an account that is there.
unfoldable pub delete_sessions_of : Account → WebStore → Outcome WebStore (List String)
delete_sessions_of a s =
    if is_empty (of_account a.id s.sessions.entries)
    then (s, ok [])
    else after (commit_sessions (not_of_account a.id s.sessions.entries) s)
        λ s' _. (s', ok (hashes (of_account a.id s.sessions.entries)))

unfoldable pub delete_sessions : String → WebStore → Outcome WebStore (List String)
delete_sessions xuid s = elim (account_for_xuid xuid s) [
  | none ↦ (s, ok [])
  | some a ↦ delete_sessions_of a s
]

unfoldable pub delete_account : String → WebStore → Outcome WebStore (List String)
delete_account xuid s = elim (account_for_xuid xuid s) [
  | none ↦ (s, ok [])
  | some a ↦ after (delete_sessions xuid s) λ s1 removed.
      after (commit_passkeys (filter (λ e. not (e.account == a.id)) s1.passkeys.entries) s1) λ s2 _.
        after (commit_accounts (filter (λ e. not (e.xuid == xuid)) s2.accounts.entries) s2)
          λ s3 _. (s3, ok removed)
]

unfoldable pub delete_credentials : WebStore → Outcome WebStore (List String)
delete_credentials s =
    after (commit_sessions [] s)
      λ s1 _. after (commit_passkeys [] s1) λ s2 _. (s2, ok (hashes s.sessions.entries))

-- `passkeys` and `sessions`
unfoldable pub passkeys_of : String → WebStore → List Passkey
passkeys_of id s = filter (λ e. e.account == id) s.passkeys.entries

unfoldable pub sessions_of : String → WebStore → List Session
sessions_of id s = of_account id s.sessions.entries

unfoldable pub find_passkey : String → WebStore → Option Passkey
find_passkey id s = find_first (λ e. e.id == id) s.passkeys.entries

unfoldable pub add_passkey : Passkey → WebStore → Outcome WebStore (Unit {0})
add_passkey p s = commit_passkeys (s.passkeys.entries ++ p ∷ []) s

-- `update_passkey` with the fields that a sign-in writes.
unfoldable pub update_passkey : String → ℕ → ℕ → WebStore → Outcome WebStore (Unit {0})
update_passkey id count now s =
    commit_passkeys
      (map (λ e. if e.id == id then record e { sign_count = count; last_used = some now } else e)
        s.passkeys.entries)
      s

unfoldable pub delete_passkey : String → WebStore → Outcome WebStore (Unit {0})
delete_passkey id s = commit_passkeys (filter (λ e. not (e.id == id)) s.passkeys.entries) s

unfoldable pub find_session : String → WebStore → Option Session
find_session hash s = find_first (λ e. e.hash == hash) s.sessions.entries

unfoldable pub add_session : Session → WebStore → Outcome WebStore (Unit {0})
add_session e s = commit_sessions (s.sessions.entries ++ e ∷ []) s

-- `update_session` with the field that a visit writes.
unfoldable pub update_session : String → ℕ → WebStore → Outcome WebStore (Unit {0})
update_session hash now s =
    commit_sessions
      (map (λ e. if e.hash == hash then record e { last_seen = now } else e) s.sessions.entries) s

unfoldable pub delete_session : String → WebStore → Outcome WebStore (Unit {0})
delete_session hash s = commit_sessions (filter (λ e. not (e.hash == hash)) s.sessions.entries) s

unfoldable pub delete_sessions_via : String → WebStore → Outcome WebStore (List String)
delete_sessions_via via s =
    let removed = filter (λ e. e.via == via) s.sessions.entries in
    if is_empty removed
    then (s, ok [])
    else after (commit_sessions (filter (λ e. not (e.via == via)) s.sessions.entries) s)
        λ s' _. (s', ok (hashes removed))

unfoldable pub delete_passkeys_via : String → WebStore → Outcome WebStore ℕ
delete_passkeys_via via s =
    let kept = filter (λ e. not (e.via == via)) s.passkeys.entries in
    let count = length s.passkeys.entries - length kept in
    if nat_eq count 0 then (s, ok 0) else after (commit_passkeys kept s) λ s' _. (s', ok count)

unfoldable pub end_sessions_for_revoke : String → ℕ → WebStore → Outcome WebStore (List String)
end_sessions_for_revoke xuid now s = elim (account_for_xuid xuid s) [
  | none ↦ (s, ok [])
  | some a ↦
      if is_empty (of_account a.id s.sessions.entries)
      then (s, ok [])
      else after
          (commit_accounts
            (put_account (record a { sessions_from = some now }) xuid s.accounts.entries) s)
          λ s1 _.
            after (delete_sessions xuid s1)
              λ s2 _. (s2, ok (hashes (of_account a.id s.sessions.entries)))
]
