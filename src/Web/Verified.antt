-- ===== src/Web/Verified.antt =====
-- What a registration or a sign-in that returned has checked.
use endbot.Prelude.{
  ◌≡◌, refl, sym, ap, subst, ◌∙◌, inl, inr, ℕ, true, false, not, ◌||◌, Option, some, none, String,
  ◌==◌, arith, leb, Dict, Json, as_str, get_json, lookup, ok, ok_inj, link_error, or_raise,
  or_raise_returned, raise_if, raise_if_returned, bind_returned, attempt-eq-ok, Bool-cases,
  Option-cases, PyText,
}
use endbot.Authority.State.{Authority, control_decision}
use endbot.Web.Store.{Account, Passkey, WebStore, account, find_passkey}
use endbot.Web.Signing.{Ceremony, finish, check_ceremony}
use endbot.Web.Verify.{
  WebAuth, WebAuthn, Draws, credential_of, check_allowed, check_login, login_verify,
}

module _ (py : PyText) (digest : String → String) (authn : WebAuthn) where
  -- The ceremony that the body names is open, of the kind and not over.
  pub record IsOpen (kind : String) (body : Dict Json) (now : ℕ) (w : WebAuth) (c : Ceremony)
      : Type 0 where
    pub key : String
    pub named : as_str (get_json "ceremony" body) ≡ some key
    pub held : lookup key w.ceremonies ≡ some c
    pub of_kind : (c.kind == kind) ≡ true
    pub in_time : leb c.expires now ≡ false

  check_ceremony_returned :
      (kind : String) (now : ℕ) (o : Option Ceremony) (c : Ceremony)
      → check_ceremony kind now o ≡ ok c
      → (o ≡ some c) × ((c.kind == kind) ≡ true) × (leb c.expires now ≡ false)
  unfolding check_ceremony
  check_ceremony_returned kind now none c h = absurd (cc)
  check_ceremony_returned kind now (some d) c h =
      elim (Bool-cases (not (d.kind == kind) || leb d.expires now)) [
        | inl refused ↦ absurd (ground arith)
        | inr fine ↦
            let same : d ≡ c = ok_inj d c (sym (rw (check_ceremony, fine) refl) ∙ h) in
            (
              ap some same,
              subst (λ x. (x.kind == kind) ≡ true) same (ground arith),
              subst (λ x. leb x.expires now ≡ false) same (ground arith),
            )
      ]

  finish-IsOpen :
      (body : Dict Json) (kind : String) (now : ℕ) (w : WebAuth) (c : Ceremony)
      → (finish body kind now w.ceremonies).1 ≡ ok c
      → IsOpen kind body now w c
  unfolding finish
  finish-IsOpen body kind now w c h = elim (Option-cases (as_str (get_json "ceremony" body))) [
    | inl no_text ↦
        let (nothing, _, _) =
          check_ceremony_returned kind now none c (sym (rw (finish, no_text) refl) ∙ h) in
        absurd (cc)
    | inr (k, text) ↦
        let (held, kind_ok, time_ok) =
          check_ceremony_returned kind now (lookup k w.ceremonies) c
            (sym (rw (finish, text) refl) ∙ h) in
        record { key = k; named = text; held = held; of_kind = kind_ok; in_time = time_ok }
  ]

  allowed_returned :
      (gamertag xuid player_id : String) (authority : Authority) {u : Unit {0}}
      → check_allowed py digest authn gamertag xuid player_id authority ≡ ok u
      → (reason : String) × (control_decision py gamertag xuid player_id authority
          ≡ ok (true, reason))
  unfolding check_allowed
  allowed_returned gamertag xuid player_id authority h =
      let ((granted, reason), d, r) =
        bind_returned (control_decision py gamertag xuid player_id authority) _ h in
      let refused = raise_if_returned (not granted) (link_error "no_access") r in
      let yes_granted : granted ≡ true = ground arith in
      (reason, d ∙ ap (λ b. ok (b, reason)) yes_granted)

  -- `p` is a passkey of this site that belongs to the account `a`, the assertion for the ceremony's
  -- challenge verifies by its key, and the authority lets the account control Bots now.
  pub record IsLogin (c : Ceremony) (credential : Dict Json) (id : String) (authority : Authority)
      (s : WebStore) : Type 0 where
    pub p : Passkey
    pub registered : find_passkey id s ≡ some p
    pub of_site : (p.rp_id == authn.rp_id) ≡ true
    pub a : Account
    pub owned : account p.account s ≡ some a
    pub count : ℕ
    pub asserted :
        authn.verify_authentication credential c.challenge p.public_key p.sign_count ≡ some count
    pub reason : String
    pub allowed : control_decision py a.gamertag a.xuid a.uuid authority ≡ ok (true, reason)

  check_login-IsLogin :
      (c : Ceremony) (credential : Dict Json) (id : String) (authority : Authority) (s : WebStore)
      {r : Passkey × Account × ℕ}
      → check_login py digest authn c credential id authority s ≡ ok r
      → IsLogin c credential id authority s
  unfolding check_login
  check_login-IsLogin c credential id authority s h =
      let refused = link_error "passkey_refused" in
      let (p, found, l1) = bind_returned (or_raise (find_passkey id s) refused) _ h in
      let (_, site, l2) = bind_returned (raise_if (not (p.rp_id == authn.rp_id)) refused) _ l1 in
      let (a, owner, l3) = bind_returned (or_raise (account p.account s) refused) _ l2 in
      let (count, verified, l4) =
        bind_returned
          (or_raise (authn.verify_authentication credential c.challenge p.public_key p.sign_count)
            refused)
          _ l3 in
      let (_, permitted, _) =
        bind_returned (check_allowed py digest authn a.gamertag a.xuid a.uuid authority) _ l4 in
      let (reason, allowed) = allowed_returned a.gamertag a.xuid a.uuid authority permitted in
      let site' = raise_if_returned (not (p.rp_id == authn.rp_id)) refused site in
      record {
        p = p;
        registered = or_raise_returned (find_passkey id s) refused found;
        of_site = ground arith;
        a = a;
        owned = or_raise_returned (account p.account s) refused owner;
        count = count;
        asserted =
            or_raise_returned
              (authn.verify_authentication credential c.challenge p.public_key p.sign_count) refused
              verified;
        reason = reason;
        allowed = allowed;
      }

  -- A sign-in that the checks allow.
  pub record IsSignIn (body : Dict Json) (now : ℕ) (authority : Authority) (w : WebAuth)
      : Type 0 where
    pub c : Ceremony
    pub is_open : IsOpen "login" body now w c
    pub credential : Dict Json
    pub id : String
    pub of_body : credential_of body ≡ ok (credential, id)
    pub login : IsLogin c credential id authority w.store

  -- A sign-in gives the token of a session only if the body names a ceremony for signing in that is held and not over,
  -- its credential is a registered passkey of this site, the assertion for the ceremony's challenge
  -- verifies by that passkey's key and count, and the authority lets the passkey's account
  -- control Bots at this moment.
  pub login_verify-IsSignIn :
      (draws : Draws) (body : Dict Json) (token : Option String) (now : ℕ) (authority : Authority)
      (w : WebAuth) (new_token : String)
      → (login_verify py digest authn draws body token now authority w).1 ≡ ok new_token
      → IsSignIn body now authority w
  unfolding login_verify
  login_verify-IsSignIn draws body token now authority w new_token h =
      let w1 : WebAuth = record w { ceremonies = (finish body "login" now w.ceremonies).0 } in
      let (c, opened, e1) = attempt-eq-ok (finish body "login" now w.ceremonies).1 w1 _ h in
      let h1 = sym (ap (λ o. o.1) e1) ∙ h in
      let (credential, credited, e2) = attempt-eq-ok (credential_of body) w1 _ h1 in
      let h2 = sym (ap (λ o. o.1) e2) ∙ h1 in
      let (_, login, _) =
        attempt-eq-ok (check_login py digest authn c credential.0 credential.1 authority w.store) w1
          _ h2 in
      record {
        c = c;
        is_open = finish-IsOpen body "login" now w c opened;
        credential = credential.0;
        id = credential.1;
        of_body = credited;
        login = check_login-IsLogin c credential.0 credential.1 authority w.store login;
      }
