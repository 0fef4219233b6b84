-- ===== src/Web/Changes.antt =====
-- The calls of the store of the web page, and what holds after them.
use endbot.Prelude.{
  ◌≡◌, inl, inr, ℕ, ◌-◌, Bool, true, false, not, ◌&&◌, List, [], ◌∷◌, String, ◌==◌, arith,
  if◌then◌else◌, filter, all, length, nat_eq, Result, err, ok, Outcome, Option-cases,
}
use endbot.Web.Store.{
  Account, Passkey, Session, WebStore, commit_accounts, commit_passkeys, commit_sessions, after,
  account_for_xuid, ensure_account, of_account, is_empty, delete_sessions_of, delete_sessions,
  delete_account, delete_credentials, add_passkey, update_passkey, delete_passkey, add_session,
  update_session, delete_session, delete_sessions_via, delete_passkeys_via, end_sessions_for_revoke,
}

-- The calls of the store that change it.
pub data Call : Type 0 where
  ensuring : String → String → ℕ → String → String → String → Call
  deleting_account : String → Call
  deleting_credentials : Call
  adding_passkey : Passkey → Call
  updating_passkey : String → ℕ → ℕ → Call
  deleting_passkey : String → Call
  adding_session : Session → Call
  updating_session : String → ℕ → Call
  deleting_session : String → Call
  deleting_sessions_via : String → Call
  deleting_passkeys_via : String → Call
  revoking : String → ℕ → Call
  deleting_sessions : String → Call

-- The store after a call, whether it returned or raised.
unfoldable pub run : Call → WebStore → WebStore
run (ensuring id handle now xuid player_id gamertag) s =
    (ensure_account id handle now xuid player_id gamertag s).0
run (deleting_account xuid) s = (delete_account xuid s).0
run deleting_credentials s = (delete_credentials s).0
run (adding_passkey p) s = (add_passkey p s).0
run (updating_passkey id count now) s = (update_passkey id count now s).0
run (deleting_passkey id) s = (delete_passkey id s).0
run (adding_session e) s = (add_session e s).0
run (updating_session hash now) s = (update_session hash now s).0
run (deleting_session hash) s = (delete_session hash s).0
run (deleting_sessions_via via) s = (delete_sessions_via via s).0
run (deleting_passkeys_via via) s = (delete_passkeys_via via s).0
run (revoking xuid now) s = (end_sessions_for_revoke xuid now s).0
run (deleting_sessions xuid) s = (delete_sessions xuid s).0

-- The sessions that a call adds.
abbrev pub added : Call → List Session
added (adding_session e) = e ∷ []
added _ = []

-- What holds after a step and after the steps behind it.
pub after_keeps {κ} :
    {S A B : Type 0} (P : S → Type κ) (o : Outcome S A) (f : S → A → Outcome S B)
    → P o.0
    → ((s : S) (a : A) → P s → P (f s a).0)
    → P (after o f).0
after_keeps P (s, ok a) f h k = k s a h
after_keeps P (s, err e) f h k = h

-- What holds after either branch.
pub if_keeps {κ} :
    {A : Type 0} (P : WebStore → Type κ) (b : Bool) (x y : Outcome WebStore A)
    → P x.0
    → P y.0
    → P (if b then x else y).0
if_keeps P true x y h k = h
if_keeps P false x y h k = k

-- What no commit of the store breaks, if the sessions that are added pass the test `fine`.
pub record Closed (P : WebStore → Type 0) (fine : Session → Bool) : Type 0 where
  pub by_accounts : (es : List Account) (s : WebStore) → P s → P (commit_accounts es s).0
  pub by_passkeys : (es : List Passkey) (s : WebStore) → P s → P (commit_passkeys es s).0
  pub by_clearing : (s : WebStore) → P s → P (commit_sessions [] s).0
  pub by_filter :
      (p : Session → Bool) (s : WebStore)
      → P s
      → P (commit_sessions (filter p s.sessions.entries) s).0
  pub by_adding : (e : Session) (s : WebStore) → fine e ≡ true → P s → P (add_session e s).0
  pub by_visit : (hash : String) (now : ℕ) (s : WebStore) → P s → P (update_session hash now s).0

module _ (P : WebStore → Type 0) (fine : Session → Bool) (k : Closed P fine) where
  -- A commit and what follows it that changes nothing.
  done_accounts :
      {B : Type 0} (es : List Account) (s : WebStore) (r : Result B)
      → P s
      → P (after (commit_accounts es s) λ s' _. (s', r)).0
  done_accounts es s r h =
      after_keeps P (commit_accounts es s) (λ s' _. (s', r)) (k.by_accounts es s h) (λ s' _ p. p)

  done_passkeys :
      {B : Type 0} (es : List Passkey) (s : WebStore) (r : Result B)
      → P s
      → P (after (commit_passkeys es s) λ s' _. (s', r)).0
  done_passkeys es s r h =
      after_keeps P (commit_passkeys es s) (λ s' _. (s', r)) (k.by_passkeys es s h) (λ s' _ p. p)

  done_sessions :
      {B : Type 0} (p : Session → Bool) (s : WebStore) (r : Result B)
      → P s
      → P (after (commit_sessions (filter p s.sessions.entries) s) λ s' _. (s', r)).0
  done_sessions p s r h =
      after_keeps P (commit_sessions (filter p s.sessions.entries) s) (λ s' _. (s', r))
        (k.by_filter p s h) (λ s' _ q. q)

  delete_sessions_keeps : (xuid : String) (s : WebStore) → P s → P (delete_sessions xuid s).0
  unfolding delete_sessions delete_sessions_of
  delete_sessions_keeps xuid s h = elim (Option-cases (account_for_xuid xuid s)) [
    | inl e ↦ rw (delete_sessions, e) h
    | inr (a, e) ↦
        rw (delete_sessions, e)
          (if_keeps P (is_empty (of_account a.id s.sessions.entries)) _ _ h
            (done_sessions _ s (ok _) h))
  ]

  ensure_account_keeps :
      (id handle : String) (now : ℕ) (xuid player_id gamertag : String) (s : WebStore)
      → P s
      → P (ensure_account id handle now xuid player_id gamertag s).0
  unfolding ensure_account
  ensure_account_keeps id handle now xuid player_id gamertag s h =
      elim (Option-cases (account_for_xuid xuid s)) [
        | inl e ↦ rw (ensure_account, e) (done_accounts _ s (ok _) h)
        | inr (a, e) ↦
            rw (ensure_account, e)
              (if_keeps P (a.uuid == player_id && a.gamertag == gamertag) _ _ h
                (done_accounts _ s (ok _) h))
      ]

  delete_account_keeps : (xuid : String) (s : WebStore) → P s → P (delete_account xuid s).0
  unfolding delete_account
  delete_account_keeps xuid s h = elim (Option-cases (account_for_xuid xuid s)) [
    | inl e ↦ rw (delete_account, e) h
    | inr (a, e) ↦
        rw (delete_account, e)
          (after_keeps P (delete_sessions xuid s) _ (delete_sessions_keeps xuid s h)
            λ s1 removed h1.
              after_keeps P (commit_passkeys _ s1) _ (k.by_passkeys _ s1 h1)
                λ s2 _ h2. done_accounts _ s2 (ok removed) h2)
  ]

  end_sessions_for_revoke_keeps :
      (xuid : String) (now : ℕ) (s : WebStore) → P s → P (end_sessions_for_revoke xuid now s).0
  unfolding end_sessions_for_revoke
  end_sessions_for_revoke_keeps xuid now s h = elim (Option-cases (account_for_xuid xuid s)) [
    | inl e ↦ rw (end_sessions_for_revoke, e) h
    | inr (a, e) ↦
        rw (end_sessions_for_revoke, e)
          (if_keeps P (is_empty (of_account a.id s.sessions.entries)) _ _ h (
            after_keeps P (commit_accounts _ s) _ (k.by_accounts _ s h) λ s1 _ h1.
              after_keeps P (delete_sessions xuid s1) _ (delete_sessions_keeps xuid s1 h1)
                λ s2 _ h2. h2))
  ]

  pub run_keeps : (c : Call) (s : WebStore) → all fine (added c) ≡ true → P s → P (run c s)
  unfolding run delete_credentials add_passkey update_passkey delete_passkey add_session
      update_session delete_session delete_sessions_via delete_passkeys_via
  run_keeps (ensuring id handle now xuid player_id gamertag) s f h =
      ensure_account_keeps id handle now xuid player_id gamertag s h
  run_keeps (deleting_account xuid) s f h = delete_account_keeps xuid s h
  run_keeps deleting_credentials s f h =
      after_keeps P (commit_sessions [] s) _ (k.by_clearing s h)
        λ s1 _ h1. done_passkeys [] s1 (ok _) h1
  run_keeps (adding_passkey p) s f h = k.by_passkeys _ s h
  run_keeps (updating_passkey id count now) s f h = k.by_passkeys _ s h
  run_keeps (deleting_passkey id) s f h = k.by_passkeys _ s h
  run_keeps (adding_session e) s f h = k.by_adding e s (ground arith) h
  run_keeps (updating_session hash now) s f h = k.by_visit hash now s h
  run_keeps (deleting_session hash) s f h = k.by_filter (λ e. not (e.hash == hash)) s h
  run_keeps (deleting_sessions_via via) s f h =
      let removed = filter (λ e. e.via == via) s.sessions.entries in
      if_keeps P (is_empty removed) _ _ h (done_sessions _ s (ok _) h)
  run_keeps (deleting_passkeys_via via) s f h =
      let kept = filter (λ e. not (e.via == via)) s.passkeys.entries in
      if_keeps P (nat_eq (length s.passkeys.entries - length kept) 0) _ _ h
        (done_passkeys _ s (ok _) h)
  run_keeps (revoking xuid now) s f h = end_sessions_for_revoke_keeps xuid now s h
  run_keeps (deleting_sessions xuid) s f h = delete_sessions_keeps xuid s h
