-- ===== src/Web/Synced.antt =====
-- The files of the web page hold what the memory holds.
use endbot.Prelude.{◌≡◌, refl, true, List, [], ◌∷◌, arith, filter, all}
use endbot.Web.Changes.{Call, added, run, Closed, run_keeps}
use endbot.Web.Store.{
  Account, Passkey, Session, Kept, WebStore, commit, commit_accounts, commit_passkeys,
  commit_sessions, add_session, update_session,
}

-- Each file holds what the memory holds.
pub record IsSynced (s : WebStore) : Type 0 where
  pub accounts_ok : s.accounts.on_disk ≡ s.accounts.entries
  pub passkeys_ok : s.passkeys.on_disk ≡ s.passkeys.entries
  pub sessions_ok : s.sessions.on_disk ≡ s.sessions.entries

commit-synced :
    {A : Type 0} (es : List A) (k : Kept A)
    → k.on_disk ≡ k.entries
    → (commit es k).0.on_disk ≡ (commit es k).0.entries
unfolding commit
commit-synced es k h = ground arith

commit_accounts-IsSynced :
    (es : List Account) (s : WebStore) → IsSynced s → IsSynced (commit_accounts es s).0
unfolding commit_accounts
commit_accounts-IsSynced es s h = record {
  accounts_ok = commit-synced es s.accounts h.accounts_ok;
  passkeys_ok = h.passkeys_ok;
  sessions_ok = h.sessions_ok;
}

commit_passkeys-IsSynced :
    (es : List Passkey) (s : WebStore) → IsSynced s → IsSynced (commit_passkeys es s).0
unfolding commit_passkeys
commit_passkeys-IsSynced es s h = record {
  accounts_ok = h.accounts_ok;
  passkeys_ok = commit-synced es s.passkeys h.passkeys_ok;
  sessions_ok = h.sessions_ok;
}

commit_sessions-IsSynced :
    (es : List Session) (s : WebStore) → IsSynced s → IsSynced (commit_sessions es s).0
unfolding commit_sessions
commit_sessions-IsSynced es s h = record {
  accounts_ok = h.accounts_ok;
  passkeys_ok = h.passkeys_ok;
  sessions_ok = commit-synced es s.sessions h.sessions_ok;
}

closed : Closed IsSynced (λ _. true)
unfolding add_session update_session
closed = record {
  by_accounts = commit_accounts-IsSynced;
  by_passkeys = commit_passkeys-IsSynced;
  by_clearing = commit_sessions-IsSynced [];
  by_filter = λ p s. commit_sessions-IsSynced (filter p s.sessions.entries) s;
  by_adding = λ e s _. commit_sessions-IsSynced _ s;
  by_visit = λ hash now s. commit_sessions-IsSynced _ s;
}

all_pass : (es : List Session) → all (λ _. true) es ≡ true
all_pass [] = refl
all_pass (e ∷ es) = all_pass es

-- Whatever call of the store has been made, and whether it returned, raised at its first step, or
-- raised half-way with one file written and another not: if every file held what the memory
-- holds, every file still does.
pub run-IsSynced : (c : Call) (s : WebStore) → IsSynced s → IsSynced (run c s)
run-IsSynced c s h = run_keeps IsSynced (λ _. true) closed c s (all_pass (added c)) h
