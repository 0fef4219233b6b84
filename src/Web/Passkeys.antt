-- ===== src/Web/Passkeys.antt =====
-- How many passkeys an account has.
use endbot.Prelude.{
  ◌≡◌, refl, sym, subst, ◌⊎◌, inl, inr, eq_iff, ℕ, ◌+◌, ◌≤◌, Bool, false, List, [], ◌∷◌, ◌++◌,
  String, ◌==◌, arith, leb, length, filter, map, find_first, contains, has_repeat, has_repeat-snoc,
  is_some, if◌then◌else◌, Dict, Json, or_raise, ok_inj, type_error, link_error, raise_if,
  raise_if_returned, bind_returned, ok, attempt_keeps, Bool-cases, PyText,
}
use mathlib.Core.List.{map-append}
use endbot.Authority.State.{Authority}
use endbot.Web.Codes.{LinkIdentity}
use endbot.Web.Store.{
  Account, Passkey, WebStore, account_for_xuid, passkeys_of, find_passkey, add_passkey, add_session,
  commit, commit_passkeys, commit_sessions,
}
use endbot.Web.Signing.{Ceremony, finish, issue_session}
use endbot.Web.Verify.{
  WebAuth, WebAuthn, Registration, Draws, max_passkeys, credential_of, check_allowed,
  check_registration, signed_in_as, link_verify,
}
use endbot.Web.Changes.{after_keeps}

abbrev of_id : String → List Passkey → List Passkey
of_id id = filter (λ e. e.account == id)

length-filter_snoc :
    (p : Passkey → Bool) (es : List Passkey) (e : Passkey)
    → length (filter p (es ++ e ∷ [])) ≡ length (filter p es) + (if p e then 1 else 0)
length-filter_snoc p [] e = ground arith
length-filter_snoc p (x ∷ es) e = ground (arith, length-filter_snoc p es e)

contains_unfound :
    (k : String) (es : List Passkey)
    → is_some (find_first (λ e. e.id == k) es) ≡ false
    → contains k (map (λ e. e.id) es) ≡ false
contains_unfound k [] h = refl
contains_unfound k (e ∷ es) h = ground (arith, contains_unfound k es)

-- No account has more passkeys than the limit, and no two passkeys have the same credential.
pub record AreFew (id : String) (es : List Passkey) : Type 0 where
  pub bounded : length (of_id id es) ≤ 10
  pub distinct : has_repeat (map (λ e. e.id) es) ≡ false

-- A commit has put the entries into memory or has changed nothing.
commit_passkeys-entries :
    (es : List Passkey) (s : WebStore)
    → ((commit_passkeys es s).0.passkeys.entries ≡ s.passkeys.entries)
      ⊎ ((commit_passkeys es s).0.passkeys.entries ≡ es)
unfolding commit_passkeys commit
commit_passkeys-entries es s = elim (Bool-cases s.passkeys.symlink) [
  | inl link ↦ inl (ground arith)
  | inr plain ↦ elim (Bool-cases s.passkeys.writable) [
    | inl writable ↦ inr (ground arith)
    | inr refused ↦ inl (ground arith)
  ]
]

module _ (id : String) where
  add_passkey-AreFew :
      (e : Passkey) (s : WebStore)
      → leb 10 (length (passkeys_of e.account s)) ≡ false
      → is_some (find_passkey e.id s) ≡ false
      → AreFew id s.passkeys.entries
      → AreFew id (add_passkey e s).0.passkeys.entries
  unfolding add_passkey passkeys_of find_passkey
  add_passkey-AreFew e s room new h =
      elim (commit_passkeys-entries (s.passkeys.entries ++ e ∷ []) s) [
        | inl same ↦ subst (AreFew id) (sym same) h
        | inr grown ↦
            let longer = length-filter_snoc (λ x. x.account == id) s.passkeys.entries e in
            let few = h.bounded in
            subst (AreFew id) (sym grown) (record {
              bounded = ground (arith, eq_iff e.account id);
              distinct = rw map-append (
                  has_repeat-snoc (map (λ x. x.id) s.passkeys.entries) e.id h.distinct
                    (contains_unfound e.id s.passkeys.entries new));
            })
      ]

  module _ (py : PyText) (digest : String → String) (authn : WebAuthn) where
    check_registration_returned :
        (c : Ceremony) (identity : LinkIdentity) (credential : Dict Json) (authority : Authority)
        (s : WebStore) {a : Account} {r : Registration}
        → check_registration py digest authn c identity credential authority s ≡ ok (a, r)
        → (leb 10 (length (passkeys_of a.id s)) ≡ false)
          × (is_some (find_passkey r.credential_id s) ≡ false)
    unfolding check_registration
    check_registration_returned c identity credential authority s {a} {r} h =
        let (a', _, l1) =
          bind_returned (or_raise (account_for_xuid identity.xuid s) (link_error "no_access")) _
            h in
        let (_, _, l2) =
          bind_returned
            (check_allowed py digest authn identity.gamertag identity.xuid identity.player_id
              authority)
            _ l1 in
        let (r', _, l3) =
          bind_returned
            (or_raise (authn.verify_registration credential c.challenge)
              (link_error "passkey_refused"))
            _ l2 in
        let (_, room, l4) =
          bind_returned
            (raise_if (leb max_passkeys (length (passkeys_of a'.id s)))
              (link_error "passkey_limit"))
            _ l3 in
        let (_, new, l5) =
          bind_returned
            (raise_if (is_some (find_passkey r'.credential_id s)) (link_error "passkey_refused")) _
            l4 in
        let same = ok_inj (a', r') (a, r) l5 in
        (
          subst (λ x. leb 10 (length (passkeys_of x.0.id s)) ≡ false) same
              (raise_if_returned _ (link_error "passkey_limit") room),
          subst (λ x. is_some (find_passkey x.1.credential_id s) ≡ false) same
              (raise_if_returned _ (link_error "passkey_refused") new),
        )

    -- The session of a sign-in changes no passkey.
    signed_in_as-AreFew :
        (draws : Draws) (a : Account) (via : String) (body : Dict Json) (now : ℕ)
        (authority : Authority) (w : WebAuth)
        → AreFew id w.store.passkeys.entries
        → AreFew id
            (signed_in_as py digest authn draws a via body now authority w).0.store.passkeys.entries
    unfolding signed_in_as issue_session add_session commit_sessions
    signed_in_as-AreFew draws a via body now authority w h =
        after_keeps (λ x. AreFew id x.passkeys.entries) (add_session _ w.store)
          (λ s' _. (s', ok draws.token)) h (λ s' _ p. p)

    -- Whether a registration returns or raises, and where: if no two passkeys of the store have the same credential and
    -- an account has at most 10, both still hold after a call that no other call overlaps.
    pub link_verify-AreFew :
        (draws : Draws) (body : Dict Json) (now : ℕ) (authority : Authority) (w : WebAuth)
        → AreFew id w.store.passkeys.entries
        → AreFew id
            (link_verify py digest authn draws body now authority w).0.store.passkeys.entries
    unfolding link_verify
    link_verify-AreFew draws body now authority w h =
        let P = λ (x : WebAuth). AreFew id x.store.passkeys.entries in
        let w1 : WebAuth = record w { ceremonies = (finish body "register" now w.ceremonies).0 } in
        attempt_keeps P (finish body "register" now w.ceremonies).1 w1 _ h λ c _.
          attempt_keeps P (credential_of body) w1 _ h λ credential _.
            attempt_keeps P (or_raise c.identity type_error) w1 _ h λ identity _.
              attempt_keeps P
                (check_registration py digest authn c identity credential.0 authority w.store) w1 _
                h
                λ checked e.
                  let (room, new) =
                    check_registration_returned c identity credential.0 authority w.store
                      {a = checked.0} {r = checked.1} e in
                  after_keeps P _ _ (add_passkey-AreFew _ w.store room new h)
                    λ w2 _ k. signed_in_as-AreFew draws checked.0 c.via body now authority w2 k
