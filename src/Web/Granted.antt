-- ===== src/Web/Granted.antt =====
-- Whom the web page acts for.
use endbot.Prelude.{
  ◌≡◌, ◌<◌, ◌≤◌, ◌+◌, refl, sym, ap, subst, ◌∙◌, inl, inr, ℕ, Bool, true, false, some, none, String,
  arith, nat_eq, ok, bind_returned, Bool-cases, Option-cases, PyText, ◌==◌,
}
use endbot.Principal.{Principal, console}
use endbot.Revisions
use endbot.Authority.State.{Authority, authorize}
use endbot.Web.Store.{
  Account, Session, WebStore, account, find_session, commit_sessions, update_session,
  delete_session,
}
use endbot.Web.Signing.{
  is_expired, end_session, sessions_from, visit, session, web_principal, authorized, principal_of,
  principal,
}
use endbot.Web.Lifetimes.{session_gives, after_gives}
use endbot.Web.Changes.{after_keeps, if_keeps}

-- A live session, its account and the principal that acts for it, which the authority allows now.
pub record IsGranted (py : PyText) (digest : String → String) (token : String) (now : ℕ)
    (authority : Authority) (s : WebStore) (p : Principal) : Type 0 where
  pub e : Session
  pub a : Account
  pub known : find_session (digest token) s ≡ some e
  pub owned : account e.account s ≡ some a
  pub visited_lately : now < e.last_seen + 604800
  pub begun_lately : now < e.created + 2592000
  pub unrevoked : sessions_from a ≤ e.created
  pub acts_for : p.xuid ≡ some a.xuid
  pub current : nat_eq e.grant_revision (Revisions.get a.uuid authority.grant_revisions) ≡ true
  pub allowed : authorize py p authority ≡ ok true

-- The limits of a session that has not expired.
unexpired_limits :
    (now : ℕ) (e : Session) (a : Account)
    → is_expired now e (some a) ≡ false
    → (now < e.last_seen + 604800) × (now < e.created + 2592000) × (sessions_from a ≤ e.created)
unfolding is_expired
unexpired_limits now e a h = ground arith

-- A visit does not change the accounts.
visit_accounts :
    (active : Bool) (now : ℕ) (e : Session) (s : WebStore) (id : String)
    → account id (visit active now e s).0 ≡ account id s
unfolding visit end_session delete_session update_session commit_sessions account
visit_accounts active now e s id =
    if_keeps (λ x. account id x ≡ account id s) (is_expired now e (account e.account s)) _ _
      (after_keeps (λ x. account id x ≡ account id s) (delete_session e.hash s)
        (λ s' _. (s', ok none)) refl (λ s' _ p. p))
      (if_keeps (λ x. account id x ≡ account id s) _ _ _
        (after_keeps (λ x. account id x ≡ account id s) (update_session e.hash now s)
          (λ s' _. (s', ok (some e))) refl (λ s' _ p. p))
        refl)

session_accounts :
    (digest : String → String) (token : String) (active : Bool) (now : ℕ) (s : WebStore)
    (id : String)
    → account id (session digest (some token) active now s).0 ≡ account id s
unfolding session
session_accounts digest token active now s id = elim (Bool-cases (token == "")) [
  | inl blank ↦ rw (session, blank) refl
  | inr given ↦ elim (Option-cases (find_session (digest token) s)) [
    | inl unknown ↦ rw (session, given, unknown) refl
    | inr (e, known) ↦ rw (session, given, known) (visit_accounts active now e s id)
  ]
]

module _ (py : PyText) where
  authorized_gives :
      (p q : Principal) (authority : Authority)
      → authorized py p authority ≡ ok (some q)
      → (authorize py p authority ≡ ok true) × (p ≡ q)
  unfolding authorized
  authorized_gives p q authority h =
      let (granted, g, e) = bind_returned (authorize py p authority) _ h in
      elim (Bool-cases granted) [
        | inl yes_granted ↦ (g ∙ ap ok yes_granted, ground arith)
        | inr refused ↦ absurd (ground arith)
      ]

  -- An authorized principal of the web has the current grant revision of its player.
  authorize_current :
      (a : Account) (e : Session) (language : String) (authority : Authority)
      → authorize py (web_principal a e language authority) authority ≡ ok true
      → nat_eq e.grant_revision (Revisions.get a.uuid authority.grant_revisions) ≡ true
  unfolding authorize web_principal console
  authorize_current a e language authority h =
      elim (Bool-cases (nat_eq e.grant_revision (Revisions.get a.uuid authority.grant_revisions))) [
        | inl same ↦ same
        | inr other ↦ absurd (ground arith)
      ]

  -- A request for a token gets a principal only if the token belongs to a session of the store, the session has an account and is
  -- within its limits (less than 7 days after its last visit and less than 30 days after its start,
  -- and not begun before the account's last revocation), the session's grant revision is the current one of the account's player, and the authority allows
  -- that principal at this moment; the principal acts for the account's XUID.
  pub principal-IsGranted :
      (digest : String → String) (token language : String) (active : Bool) (now : ℕ)
      (authority : Authority) (s : WebStore) (p : Principal)
      → (principal py digest (some token) language active now authority s).1 ≡ ok (some p)
      → IsGranted py digest token now authority s p
  unfolding principal principal_of web_principal
  principal-IsGranted digest token language active now authority s p h =
      let (s', found, visited, _, given) =
        after_gives (session digest (some token) active now s)
          (λ x e. (x, principal_of py language authority x e)) h in
      elim (Option-cases found) [
        | inl nobody ↦ absurd (cc)
        | inr (e, some_e) ↦
            let returned : (session digest (some token) active now s).1 ≡ ok (some e) =
              ap (λ o. o.1) visited ∙ ap ok some_e in
            let (known, live) = session_gives digest token active now s {found = e} returned in
            let same_accounts : account e.account s' ≡ account e.account s =
              ap (λ o. account e.account o.0) (sym visited)
              ∙ session_accounts digest token active now s e.account in
            let given' : principal_of py language authority s' (some e) ≡ ok (some p) =
              ap (principal_of py language authority s') (sym some_e) ∙ given in
            elim (Option-cases (account e.account s)) [
              | inl no_account ↦ absurd (ground arith)
              | inr (a, owned) ↦
                  let stored = same_accounts ∙ owned in
                  let allowed : authorized py (web_principal a e language authority) authority
                      ≡ ok (some p) =
                    sym (rw (principal_of, stored) refl) ∙ given' in
                  let (yes_allowed, same) =
                    authorized_gives (web_principal a e language authority) p authority allowed in
                  let (lately, begun, from) =
                    unexpired_limits now e a (subst (λ o. is_expired now e o ≡ false) owned live) in
                  record {
                    e = e;
                    a = a;
                    known = known;
                    owned = owned;
                    visited_lately = lately;
                    begun_lately = begun;
                    unrevoked = from;
                    acts_for = sym (ap (λ q. q.xuid) same);
                    current = authorize_current a e language authority yes_allowed;
                    allowed = subst (λ q. authorize py q authority ≡ ok true) same yes_allowed;
                  }
            ]
      ]
