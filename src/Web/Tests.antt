-- ===== src/Web/Tests.antt =====
-- The web page on concrete values.
use endbot.Prelude.{
  ◌≡◌, refl, true, false, some, none, [], ◌∷◌, ◌≤◌, ℕ, Bool, String, List, ok, err, link_error, map,
  length, arith, ◌+◌, has_repeat, Dict, Json, str, obj, field, end,
}
use endbot.Samples.{plain_text, new_file, alice_xuid}
use endbot.Policy.{empty_policy}
use endbot.Authority.State.{Authority}
use endbot.Principal.{Principal}
use endbot.Web.Codes.{LinkIdentity, LinkCodes, new_codes, issue, redeem, reading}
use endbot.Web.Guesses.{Steps, nothing, issued, redeemed, in_window, Steps-bounded}
use endbot.Web.Redeemed.{Without, nothing, redeemed, gives_player, Without-gives_player}
use endbot.Web.Holders.{Steps-has_repeat}
use endbot.Web.Store.{
  Account, Session, Passkey, Kept, WebStore, account, account_for_xuid, end_sessions_for_revoke,
  of_account,
}
use endbot.Web.Signing.{Ceremony, Ceremonies, begin, finish, session, principal, issue_session}
use endbot.Web.Changes.{run, revoking}
use endbot.Web.Synced.{IsSynced, run-IsSynced}
use endbot.Web.Lifetimes.{visited, begun, signed_in, Steps-signed_in}
use endbot.Web.Granted.{IsGranted, principal-IsGranted}
use endbot.Web.Revoked.{end_sessions_for_revoke_returned}
use endbot.Web.Devices.{logout, remove_passkey}
use endbot.Web.Verify.{WebAuth, WebAuthn, Draws, login_verify, link_verify}
use endbot.Web.Verified.{IsSignIn, login_verify-IsSignIn}
use endbot.Web.Passkeys.{AreFew, link_verify-AreFew}
use endbot.Web.Ceremonies.{finished, unchanged, began, started, Without-finish, Begun-bounded}

abbrev same : String → String
same s = s

abbrev steve : LinkIdentity
steve = record { xuid = "25354"; player_id = "u1"; gamertag = "Steve" }

abbrev with_code : LinkCodes
with_code = (issue steve 5 ("K7Q4M2" ∷ []) new_codes).0

code_read : reading plain_text same "K7Q-4M2" ≡ "K7Q4M2"
unfolding endbot.Web.Codes.read_symbols
code_read = refl

since_start : Steps plain_text same (λ _. true) new_codes 0 with_code
since_start =
    endbot.Web.Guesses.issued steve 5 ("K7Q4M2" ∷ []) new_codes 0 refl endbot.Web.Guesses.nothing

abbrev after_guess : LinkCodes
after_guess = (redeem plain_text same "K7Q4M3" 9 with_code).0

one_guess : Steps plain_text same (in_window 7) with_code 1 after_guess
unfolding redeem issue endbot.Prelude.lookup endbot.Web.Codes.purge endbot.Web.Codes.redeem_code
    endbot.Prelude.insert endbot.Web.Codes.read_symbols
one_guess = endbot.Web.Guesses.redeemed "K7Q4M3" 9 with_code 0 refl endbot.Web.Guesses.nothing

Steps-bounded_example : 1 ≤ 10
Steps-bounded_example = Steps-bounded plain_text same 7 since_start one_guess

Steps-has_repeat_example : has_repeat (map (λ e. e.1.0.xuid) with_code.codes) ≡ false
Steps-has_repeat_example = Steps-has_repeat plain_text same since_start

abbrev linked : LinkCodes
linked = (redeem plain_text same "K7Q-4M2" 9 with_code).0

abbrev guessed_again : LinkCodes
guessed_again = (redeem plain_text same "AAAAAA" 10 linked).0

code_gives_player : gives_player plain_text same "K7Q-4M2" 9 with_code ≡ true
unfolding redeem issue endbot.Prelude.lookup endbot.Web.Codes.purge endbot.Web.Codes.redeem_code
    endbot.Prelude.insert endbot.Web.Codes.read_symbols
code_gives_player = refl

Without-gives_player_example : gives_player plain_text same "K7Q4M2" 11 guessed_again ≡ false
unfolding endbot.Web.Codes.read_symbols
Without-gives_player_example =
    Without-gives_player plain_text same "K7Q-4M2" "K7Q4M2" 9 11 with_code guessed_again
      code_gives_player
      (endbot.Web.Redeemed.redeemed "AAAAAA" 10 linked endbot.Web.Redeemed.nothing) refl

abbrev alice_account : Account
alice_account = record {
  id = "a1";
  xuid = alice_xuid;
  uuid = "uuid-a";
  gamertag = "Alice";
  user_handle = "h1";
  created = 100;
  sessions_from = none;
}

abbrev alice_session : Session
alice_session = record {
  id = "s1";
  hash = "t1";
  account = "a1";
  via = "passkey";
  label = "";
  created = 1000;
  last_seen = 1000;
  asserted_at = 1000;
  grant_revision = 0;
}

abbrev one_session : WebStore
one_session = record {
  accounts = record {
    symlink = false;
    writable = true;
    on_disk = alice_account ∷ [];
    entries = alice_account ∷ [];
  };
  passkeys = record { symlink = false; writable = true; on_disk = []; entries = [] };
  sessions = record {
    symlink = false;
    writable = true;
    on_disk = alice_session ∷ [];
    entries = alice_session ∷ [];
  };
}

one_session-IsSynced : IsSynced one_session
one_session-IsSynced = record { accounts_ok = refl; passkeys_ok = refl; sessions_ok = refl }

run-IsSynced_example : IsSynced (run (revoking alice_xuid 2000) one_session)
run-IsSynced_example = run-IsSynced (revoking alice_xuid 2000) one_session one_session-IsSynced

abbrev after_visit : WebStore
after_visit = (session same (some "t1") true 9000 one_session).0

still_signed_in :
    signed_in same "t1" true 9001 after_visit ≡ some (record alice_session { last_seen = 9000 })
unfolding session endbot.Web.Store.find_session endbot.Web.Signing.visit
    endbot.Web.Signing.is_expired account endbot.Web.Store.update_session
    endbot.Web.Store.commit_sessions endbot.Web.Store.commit
still_signed_in = refl

long_after : 1000 + 2592000 ≤ 2600000
long_after = omega arith

Steps-signed_in_example : signed_in same "t1" true 2600000 after_visit ≡ none
Steps-signed_in_example =
    Steps-signed_in same "t1" true 2600000 1000 one_session after_visit (refl, tt)
      (visited (some "t1") true 9000 one_session begun) long_after

abbrev attempt_body : Dict Json
attempt_body = ("ceremony", str "c1") ∷ []

abbrev one_ceremony : Ceremonies
one_ceremony = (begin "c1" "login" "challenge" none "passkey" 10 []).0

abbrev after_attempt : Ceremonies
after_attempt = (finish attempt_body "register" 20 one_ceremony).0

Without-finish_example :
    (finish attempt_body "login" 30 after_attempt).1 ≡ err (link_error "expired")
unfolding endbot.Prelude.lookup
Without-finish_example =
    Without-finish "c1" attempt_body attempt_body "register" "login" 20 30 one_ceremony
      after_attempt refl unchanged refl

Begun-bounded_example : length one_ceremony ≤ 100
Begun-bounded_example =
    Begun-bounded
      (endbot.Web.Ceremonies.began "c1" "login" "challenge" none "passkey" 10 [] started)

abbrev web_authority : Authority
web_authority = record {
  presence = record { epoch = none; joins = 0; players = [] };
  allowed = record { uuids = []; xuids = alice_xuid ∷ [] };
  controllers = record { gamertags = []; bindings_path = none; bindings_by_name = [] };
  policy = record { path = new_file; state = empty_policy };
  grant_revisions = record { path = none; revisions = [] };
  roles = record { path = none; by_xuid = []; waiting = [] };
  granted = [];
}

abbrev web_alice : Principal
web_alice = record {
  kind = "web";
  name = some "Alice";
  xuid = some alice_xuid;
  grant_revision = some 0;
  language = "en";
  player_id = some "uuid-a";
  origin = none;
  authorization_revision = none;
  run_id = none;
  role = some "scripter";
}

alice_acts :
    (principal plain_text same (some "t1") "en" true 2000 web_authority one_session).1
    ≡ ok (some web_alice)
unfolding principal session endbot.Web.Store.find_session endbot.Web.Signing.visit
    endbot.Web.Signing.is_expired account endbot.Web.Signing.principal_of
    endbot.Web.Signing.authorized endbot.Authority.State.authorize endbot.Principal.console
    endbot.Web.Signing.web_principal endbot.Revisions.get endbot.Prelude.lookup
    endbot.Authority.State.authorize_identity endbot.Presence.player
    endbot.Authority.State.control_decision endbot.Enrollment.is_xuid endbot.Prelude.is_decimal
    endbot.Policy.grants_xuid endbot.Policy.granted_among endbot.Policy.name_denied
    endbot.Enrollment.bindings endbot.Roles.role
alice_acts = refl

principal-IsGranted_example :
    IsGranted plain_text same "t1" 2000 web_authority one_session web_alice
principal-IsGranted_example =
    principal-IsGranted plain_text same "t1" "en" true 2000 web_authority one_session web_alice
      alice_acts

-- A package that takes every registration and every assertion.
abbrev trusting : WebAuthn
trusting = record {
  rp_id = "bots.example";
  verify_registration =
      λ _ _. some (record { credential_id = "k2"; public_key = "pk2"; sign_count = 0 });
  verify_authentication = λ _ _ _ count. some (count + 1);
  known = "internal" ∷ [];
}

abbrev alice_passkey : Passkey
alice_passkey = record {
  id = "k1";
  account = "a1";
  public_key = "pk1";
  sign_count = 3;
  rp_id = "bots.example";
  transports = [];
  label = "";
  created = 500;
  last_used = none;
  via = "passkey";
}

abbrev web_auth : WebAuth
web_auth = record {
  store = record one_session {
    passkeys = record {
      symlink = false;
      writable = true;
      on_disk = alice_passkey ∷ [];
      entries = alice_passkey ∷ [];
    };
  };
  codes = new_codes;
  ceremonies = one_ceremony;
}

abbrev login_body : Dict Json
login_body = ("ceremony", str "c1") ∷ ("credential", obj (field "id" (str "k1") end)) ∷ []

abbrev draws : Draws
draws = record { token = "t2"; id = "s2" }

alice_signs_in :
    (login_verify plain_text same trusting draws login_body none 20 web_authority web_auth).1
    ≡ ok "t2"
unfolding login_verify begin endbot.Web.Signing.finish endbot.Web.Signing.check_ceremony
    endbot.Web.Verify.credential_of endbot.Web.Verify.check_login endbot.Web.Verify.check_allowed
    endbot.Web.Store.find_passkey account endbot.Web.Store.update_passkey
    endbot.Web.Store.commit_passkeys endbot.Web.Store.commit session endbot.Web.Verify.end_previous
    endbot.Web.Verify.signed_in_as endbot.Web.Signing.issue_session endbot.Web.Verify.label_of
    endbot.Web.Store.add_session endbot.Web.Store.commit_sessions endbot.Revisions.get
    endbot.Prelude.lookup endbot.Prelude.erase endbot.Prelude.insert
    endbot.Authority.State.control_decision endbot.Enrollment.is_xuid endbot.Prelude.is_decimal
    endbot.Policy.grants_xuid endbot.Policy.granted_among endbot.Policy.name_denied
    endbot.Enrollment.bindings
alice_signs_in = refl

login_verify-IsSignIn_example :
    IsSignIn plain_text same trusting login_body 20 web_authority web_auth
login_verify-IsSignIn_example =
    login_verify-IsSignIn plain_text same trusting draws login_body none 20 web_authority web_auth
      "t2" alice_signs_in

link_verify-AreFew_example :
    AreFew "a1"
      (link_verify plain_text same trusting draws login_body 20 web_authority
        web_auth).0.store.passkeys.entries
link_verify-AreFew_example =
    link_verify-AreFew "a1" plain_text same trusting draws login_body 20 web_authority web_auth
      (record { bounded = omega arith; distinct = refl })

alice_found : account_for_xuid alice_xuid one_session ≡ some alice_account
unfolding account_for_xuid
alice_found = refl

alice_revoked : (end_sessions_for_revoke alice_xuid 2000 one_session).1 ≡ ok ("t1" ∷ [])
unfolding end_sessions_for_revoke account_for_xuid endbot.Web.Store.commit_accounts
    endbot.Web.Store.commit endbot.Web.Store.delete_sessions endbot.Web.Store.delete_sessions_of
    endbot.Web.Store.commit_sessions
alice_revoked = refl

end_sessions_for_revoke_returned_example :
    (of_account "a1" (end_sessions_for_revoke alice_xuid 2000 one_session).0.sessions.entries ≡ [])
    × (◌≡◌ {A = List String} ("t1" ∷ []) ("t1" ∷ []))
end_sessions_for_revoke_returned_example =
    end_sessions_for_revoke_returned alice_xuid 2000 alice_account one_session ("t1" ∷ [])
      alice_found alice_revoked

-- After a sign-out, the token is not signed in.
signed_out_after_logout :
    signed_in same "t1" true 2001 (logout same (some "t1") 2000 one_session).0 ≡ none
unfolding session endbot.Web.Store.find_session logout endbot.Web.Signing.visit
    endbot.Web.Signing.is_expired account endbot.Web.Devices.signed_out
    endbot.Web.Signing.end_session endbot.Web.Store.delete_session endbot.Web.Store.commit_sessions
    endbot.Web.Store.commit
signed_out_after_logout = refl

-- Removing a passkey asks for a recent sign-in.
not_recent :
    (remove_passkey plain_text same (some "t1") (some "k1") 1500 web_authority web_auth.store).1
    ≡ err (link_error "reauthenticate")
unfolding remove_passkey begin endbot.Web.Signing.recent_session endbot.Web.Signing.required_session
    principal session endbot.Web.Store.find_session endbot.Web.Signing.visit
    endbot.Web.Signing.is_expired account endbot.Web.Signing.principal_of
    endbot.Web.Signing.authorized endbot.Authority.State.authorize endbot.Principal.console
    endbot.Web.Signing.web_principal endbot.Revisions.get endbot.Prelude.lookup
    endbot.Authority.State.authorize_identity endbot.Presence.player
    endbot.Authority.State.control_decision endbot.Enrollment.is_xuid endbot.Prelude.is_decimal
    endbot.Policy.grants_xuid endbot.Policy.granted_among endbot.Policy.name_denied
    endbot.Enrollment.bindings endbot.Roles.role
not_recent = refl
