-- ===== src/Web/Verify.antt =====
-- core/src/endbotd/web_auth.py: registering a passkey and signing in with one (`WebAuth`).
use endbot.Prelude.{
  ℕ, Bool, true, not, Option, none, some, List, [], String, ◌==◌, leb, length, contains, filter_map,
  filter, is_some, if◌then◌else◌, Dict, Json, as_dict, as_list, as_str, get_json, Result, ok, err,
  type_error, link_error, or_raise, raise_if, Outcome, attempt, PyText, chars, ◌>>=◌, ◌>>◌,
}
use endbot.Histories.{first_chars}
use endbot.Authority.State.{Authority, control_decision}
use endbot.Web.Codes.{LinkIdentity, LinkCodes, redeem}
use endbot.Web.Store.{
  Account, Passkey, Session, WebStore, after, account, account_for_xuid, ensure_account,
  passkeys_of, find_passkey, add_passkey, update_passkey,
}
use endbot.Web.Signing.{Ceremony, Ceremonies, begin, finish, end_session, session, issue_session}

-- `MAX_PASSKEYS_PER_ACCOUNT` and `LABEL_CHARACTERS`
abbrev pub max_passkeys : ℕ
max_passkeys = 10

abbrev pub label_characters : ℕ
label_characters = 64

pub record WebAuth : Type 0 where
  pub store : WebStore
  pub codes : LinkCodes
  pub ceremonies : Ceremonies

-- A call of the store.
abbrev pub on_store : {A : Type 0} → (WebStore → Outcome WebStore A) → WebAuth → Outcome WebAuth A
on_store f w = let (s, r) = f w.store in (record w { store = s }, r)

-- What the verification of a new passkey gives.
pub record Registration : Type 0 where
  pub credential_id : String
  pub public_key : String
  pub sign_count : ℕ

-- The package webauthn, with the origin and the RP ID that it is given: a registration of a
-- credential for a challenge, and the sign count of an assertion by a public key with an earlier
-- count. `none` is any of the exceptions that the code catches. `known` are the values of
-- `AuthenticatorTransport`.
pub record WebAuthn : Type 0 where
  pub rp_id : String
  pub verify_registration : Dict Json → String → Option Registration
  pub verify_authentication : Dict Json → String → String → ℕ → Option ℕ
  pub known : List String

-- `_credential`, with its `id`.
unfoldable pub credential_of : Dict Json → Result (Dict Json × String)
credential_of body = do
  credential ← or_raise (as_dict (get_json "credential" body)) (link_error "invalid_request")
  id ← or_raise (as_str (get_json "id" credential)) (link_error "invalid_request")
  ok (credential, id)

-- `transports` of the response, of which only known texts are kept.
unfoldable pub transports_of : List String → Dict Json → List String
transports_of known credential = elim (as_dict (get_json "response" credential)) [
  | none ↦ []
  | some response ↦ elim (as_list (get_json "transports" response)) [
    | none ↦ []
    | some given ↦ filter (λ t. contains t known) (filter_map as_str given)
  ]
]

-- What is drawn at random for a new session.
pub record Draws : Type 0 where
  pub token : String
  pub id : String

module _ (py : PyText) (digest : String → String) (authn : WebAuthn) where
  -- `_label`
  unfoldable pub label_of : Dict Json → String
  label_of body = elim (as_str (get_json "label" body)) [
    | none ↦ ""
    | some l ↦ if py.is_printable l then first_chars label_characters l else ""
  ]

  -- `_allowed`, as a refusal.
  unfoldable pub check_allowed : String → String → String → Authority → Result (Unit {0})
  check_allowed gamertag xuid player_id authority = do
    decision ← control_decision py gamertag xuid player_id authority
    raise_if (not decision.0) (link_error "no_access")

  -- `_signed_in`, with the token of the new session.
  unfoldable pub signed_in_as :
      Draws → Account → String → Dict Json → ℕ → Authority → WebAuth → Outcome WebAuth String
  signed_in_as draws a via body now authority =
      on_store (issue_session digest draws.token draws.id a via (label_of body) now authority)

  -- The checks of `_link_verify` behind the ceremony: the account, the registration.
  unfoldable pub check_registration :
      Ceremony → LinkIdentity → Dict Json → Authority → WebStore → Result (Account × Registration)
  check_registration c identity credential authority s = do
    a ← or_raise (account_for_xuid identity.xuid s) (link_error "no_access")
    check_allowed identity.gamertag identity.xuid identity.player_id authority
    verified ←
        or_raise (authn.verify_registration credential c.challenge) (link_error "passkey_refused")
    raise_if (leb max_passkeys (length (passkeys_of a.id s))) (link_error "passkey_limit")
    raise_if (is_some (find_passkey verified.credential_id s)) (link_error "passkey_refused")
    ok (a, verified)

  abbrev new_passkey : Account → Registration → Ceremony → Dict Json → Dict Json → ℕ → Passkey
  new_passkey a verified c credential body now = record {
    id = verified.credential_id;
    account = a.id;
    public_key = verified.public_key;
    sign_count = verified.sign_count;
    rp_id = authn.rp_id;
    transports = transports_of authn.known credential;
    label = label_of body;
    created = now;
    last_used = none;
    via = c.via;
  }

  -- `_link_verify`; a ceremony without a player, on which the code reads `None.xuid`, is `type_error`.
  unfoldable pub link_verify : Draws → Dict Json → ℕ → Authority → WebAuth → Outcome WebAuth String
  link_verify draws body now authority w =
      let (cs, finished) = finish body "register" now w.ceremonies in
      let w1 = record w { ceremonies = cs } in
      attempt finished w1 λ c. attempt (credential_of body) w1 λ credential.
        attempt (or_raise c.identity type_error) w1 λ identity.
          attempt (check_registration c identity credential.0 authority w1.store) w1 λ checked.
            after
              (on_store (add_passkey (new_passkey checked.0 checked.1 c credential.0 body now)) w1)
              λ w2 _. signed_in_as draws checked.0 c.via body now authority w2

  -- The checks of `_login_verify` behind the ceremony: the passkey, its account, the new count.
  unfoldable pub check_login :
      Ceremony → Dict Json → String → Authority → WebStore → Result (Passkey × Account × ℕ)
  check_login c credential id authority s = do
    p ← or_raise (find_passkey id s) (link_error "passkey_refused")
    raise_if (not (p.rp_id == authn.rp_id)) (link_error "passkey_refused")
    a ← or_raise (account p.account s) (link_error "passkey_refused")
    count ←
        or_raise (authn.verify_authentication credential c.challenge p.public_key p.sign_count)
          (link_error "passkey_refused")
    check_allowed a.gamertag a.xuid a.uuid authority
    ok (p, a, count)

  -- The session that the sign-in replaces ends.
  unfoldable pub end_previous : Account → Option Session → WebStore → Outcome WebStore (Unit {0})
  end_previous a none s = (s, ok tt)
  end_previous a (some e) s = if e.account == a.id then end_session e s else (s, ok tt)

  -- `_login_verify`
  unfoldable pub login_verify :
      Draws → Dict Json → Option String → ℕ → Authority → WebAuth → Outcome WebAuth String
  login_verify draws body token now authority w =
      let (cs, finished) = finish body "login" now w.ceremonies in
      let w1 = record w { ceremonies = cs } in
      attempt finished w1 λ c. attempt (credential_of body) w1 λ credential.
        attempt (check_login c credential.0 credential.1 authority w1.store) w1 λ checked.
          after (on_store (update_passkey checked.0.id checked.2 now) w1) λ w2 _.
            after (on_store (session digest token true now) w2) λ w3 previous.
              after (on_store (end_previous checked.1 previous) w3)
                λ w4 _. signed_in_as draws checked.1 "passkey" body now authority w4

  -- `registration_options`; the options of webauthn give the challenge, `key`, `id` and `handle` are
  -- drawn at random.
  unfoldable pub registration_options :
      String
      → String
      → String
      → String
      → LinkIdentity
      → String
      → ℕ
      → WebAuth
      → Outcome WebAuth String
  registration_options key id handle challenge identity via now w =
      after
        (on_store (ensure_account id handle now identity.xuid identity.player_id identity.gamertag)
          w)
        λ w1 a.
          attempt
            (raise_if (leb max_passkeys (length (passkeys_of a.id w1.store)))
              (link_error "passkey_limit"))
            w1
            λ _.
              let (cs, begun) =
                begin key "register" challenge (some identity) via now w1.ceremonies in
              (record w1 { ceremonies = cs }, begun)

  -- The code of a body, of at most 32 characters.
  unfoldable pub code_of : Dict Json → Result String
  code_of body = do
    code ← or_raise (as_str (get_json "code" body)) (link_error "invalid_code")
    raise_if (not (leb (chars code) 32)) (link_error "invalid_code")
    ok code

  -- The answer of `redeem`, of which an exception closes the entry.
  unfoldable pub redeemed_identity : Result (Option LinkIdentity × Bool) → Result LinkIdentity
  redeemed_identity (err e) = err (link_error "link_closed")
  redeemed_identity (ok (none, _)) = err (link_error "invalid_code")
  redeemed_identity (ok (some identity, _)) = ok identity

  -- `_link_options`; the two clocks are those of the codes and of the ceremonies.
  unfoldable pub link_options :
      (String → String)
      → String
      → String
      → String
      → String
      → Dict Json
      → ℕ
      → ℕ
      → Authority
      → WebAuth
      → Outcome WebAuth String
  link_options upper key id handle challenge body ticks now authority w =
      attempt (code_of body) w λ code.
        let (codes, answer) = redeem py upper code ticks w.codes in
        let w1 = record w { codes = codes } in
        attempt (redeemed_identity answer) w1 λ identity.
          attempt (check_allowed identity.gamertag identity.xuid identity.player_id authority) w1
            λ _. registration_options key id handle challenge identity "passkey" now w1

  -- `_login_options`
  unfoldable pub login_options : String → String → ℕ → WebAuth → Outcome WebAuth String
  login_options key challenge now w =
      let (cs, begun) = begin key "login" challenge none "passkey" now w.ceremonies in
      (record w { ceremonies = cs }, begun)
