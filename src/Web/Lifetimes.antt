-- ===== src/Web/Lifetimes.antt =====
-- How long a session lasts.
use endbot.Prelude.{
  ◌≡◌, refl, sym, subst, ◌∙◌, inl, inr, ℕ, ◌+◌, ◌-◌, ◌≤◌, Bool, true, false, not, ◌&&◌, ◌||◌,
  Option, some, none, List, [], ◌∷◌, String, ◌==◌, arith, leb, if◌then◌else◌, filter, map, all, All,
  All-append, All-filter, All-find_first, Result-cases, err, ok, Outcome, Bool-cases, Option-cases,
}
use endbot.Web.Store.{
  Account, Session, WebStore, commit, commit_accounts, commit_passkeys, commit_sessions, after,
  account, find_session, add_session, update_session, delete_session,
}
use endbot.Web.Signing.{is_expired, end_session, visit, session, session_absolute_seconds}
use endbot.Web.Changes.{Call, run, added, Closed, run_keeps, after_keeps, if_keeps}

-- A session of the hash has been made at the time or before.
abbrev pub is_made_by : String → ℕ → Session → Bool
is_made_by hash t e = not (e.hash == hash) || leb e.created t

-- Every session of the hash has.
abbrev pub MadeBy : String → ℕ → WebStore → Type 0
MadeBy hash t s = All (λ e. is_made_by hash t e ≡ true) s.sessions.entries

module _ (hash : String) (t : ℕ) where
  commit_sessions-MadeBy :
      (es : List Session) (s : WebStore)
      → All (λ e. is_made_by hash t e ≡ true) es
      → MadeBy hash t s
      → MadeBy hash t (commit_sessions es s).0
  unfolding commit_sessions commit
  commit_sessions-MadeBy es s h k = elim (Bool-cases s.sessions.symlink) [
    | inl link ↦ rw link k
    | inr plain ↦ elim (Bool-cases s.sessions.writable) [
      | inl writable ↦ rw (plain, writable) h
      | inr refused ↦ rw (plain, refused) k
    ]
  ]

  seen_again :
      (seen : String) (now : ℕ) (es : List Session)
      → All (λ e. is_made_by hash t e ≡ true) es
      → All
          (λ e. is_made_by hash t e ≡ true)
          (map (λ e. if e.hash == seen then record e { last_seen = now } else e) es)
  seen_again seen now [] h = tt
  seen_again seen now (e ∷ es) h = (ground arith, seen_again seen now es h.1)

  closed : Closed (MadeBy hash t) (is_made_by hash t)
  unfolding commit_accounts commit_passkeys add_session update_session
  closed = record {
    by_accounts = λ es s h. h;
    by_passkeys = λ es s h. h;
    by_clearing = λ s h. commit_sessions-MadeBy [] s tt h;
    by_filter = λ p s h.
        commit_sessions-MadeBy (filter p s.sessions.entries) s
          (All-filter (λ e. is_made_by hash t e ≡ true) p s.sessions.entries h) h;
    by_adding = λ e s f h.
        commit_sessions-MadeBy _ s
          (All-append (λ x. is_made_by hash t x ≡ true) s.sessions.entries (e ∷ []) h (f, tt)) h;
    by_visit =
        λ seen now s h. commit_sessions-MadeBy _ s (seen_again seen now s.sessions.entries h) h;
  }

-- What has happened when a step and what follows it have returned.
pub after_gives :
    {S A B : Type 0} (o : Outcome S A) (f : S → A → Outcome S B) {b : B}
    → (after o f).1 ≡ ok b
    → (s : S) × (a : A) × (o ≡ (s, ok a)) × (after o f ≡ f s a) × ((f s a).1 ≡ ok b)
after_gives (s, ok a) f h = (s, a, refl, refl, h)
after_gives (s, err e) f h = absurd (cc)

-- A session that a visit gives has passed the tests.
visit_gives :
    (active : Bool) (now : ℕ) (e : Session) (s : WebStore) {found : Session}
    → (visit active now e s).1 ≡ ok (some found)
    → (is_expired now e (account e.account s) ≡ false) × (e ≡ found)
unfolding visit
visit_gives active now e s {found} h = elim (Bool-cases (is_expired now e (account e.account s))) [
  | inl over ↦
      let ended : (after (end_session e s) λ s' _. (s', ok none)).1 ≡ ok (some found) =
        sym (rw (visit, over) refl) ∙ h in
      let (_, _, _, _, given) = after_gives (end_session e s) (λ s' _. (s', ok none)) ended in
      absurd (cc)
  | inr live ↦ elim (Bool-cases (active && leb 3600 (now - e.last_seen))) [
    | inl noted ↦
        let seen : (after (update_session e.hash now s) λ s' _. (s', ok (some e))).1
            ≡ ok (some found) =
          sym (rw (visit, live, noted) refl) ∙ h in
        let (_, _, _, _, given) =
          after_gives (update_session e.hash now s) (λ s' _. (s', ok (some e))) seen in
        (live, cc)
    | inr quiet ↦
        let given : ok (some e) ≡ ok (some found) = sym (rw (visit, live, quiet) refl) ∙ h in
        (live, cc)
  ]
]

visit_keeps :
    (P : WebStore → Type 0) (fine : Session → Bool) (k : Closed P fine) (active : Bool) (now : ℕ)
    (e : Session) (s : WebStore)
    → P s
    → P (visit active now e s).0
unfolding visit end_session delete_session
visit_keeps P fine k active now e s h =
    if_keeps P (is_expired now e (account e.account s)) _ _
      (after_keeps P (delete_session e.hash s) (λ s' _. (s', ok none))
        (k.by_filter (λ x. not (x.hash == e.hash)) s h) (λ s' _ p. p))
      (if_keeps P (active && leb 3600 (now - e.last_seen)) _ _
        (after_keeps P (update_session e.hash now s) (λ s' _. (s', ok (some e)))
          (k.by_visit e.hash now s h) (λ s' _ p. p))
        h)

over_after_all :
    (now t : ℕ) (e : Session) (a : Option Account)
    → e.created ≤ t
    → t + session_absolute_seconds ≤ now
    → is_expired now e a ≡ true
unfolding is_expired
over_after_all now t e none h w = refl
over_after_all now t e (some a) h w = ground arith

module _ (digest : String → String) where
  pub session_gives :
      (token : String) (active : Bool) (now : ℕ) (s : WebStore) {found : Session}
      → (session digest (some token) active now s).1 ≡ ok (some found)
      → (find_session (digest token) s ≡ some found)
        × (is_expired now found (account found.account s) ≡ false)
  unfolding session
  session_gives token active now s {found} h = elim (Bool-cases (token == "")) [
    | inl blank ↦ absurd (ground arith)
    | inr given ↦ elim (Option-cases (find_session (digest token) s)) [
      | inl unknown ↦
          let nobody : ok none ≡ ok (some found) = sym (rw (session, given, unknown) refl) ∙ h in
          absurd (cc)
      | inr (e, known) ↦
          let visited : (visit active now e s).1 ≡ ok (some found) =
            sym (rw (session, given, known) refl) ∙ h in
          let (live, same) = visit_gives active now e s visited in
          subst
            (λ x.
              (find_session (digest token) s ≡ some x)
              × (is_expired now x (account x.account s) ≡ false))
            same (known, live)
    ]
  ]

  session_keeps :
      (P : WebStore → Type 0) (fine : Session → Bool) (k : Closed P fine) (token : Option String)
      (active : Bool) (now : ℕ) (s : WebStore)
      → P s
      → P (session digest token active now s).0
  unfolding session
  session_keeps P fine k none active now s h = h
  session_keeps P fine k (some token) active now s h = elim (Bool-cases (token == "")) [
    | inl blank ↦ rw (session, blank) h
    | inr given ↦ elim (Option-cases (find_session (digest token) s)) [
      | inl unknown ↦ rw (session, given, unknown) h
      | inr (e, known) ↦ rw (session, given, known) (visit_keeps P fine k active now e s h)
    ]
  ]

  -- The calls of the store and the visits of a token, in any order, each of which returned or raised;
  -- none adds a session of the hash that is made later than `t`.
  pub data Steps (hash : String) (t : ℕ) (s : WebStore) : WebStore → Type 0 where
    begun : Steps hash t s s
    called :
        (c : Call) (s' : WebStore)
        → all (is_made_by hash t) (added c) ≡ true
        → Steps hash t s s'
        → Steps hash t s (run c s')
    visited :
        (token : Option String) (active : Bool) (now : ℕ) (s' : WebStore)
        → Steps hash t s s'
        → Steps hash t s (session digest token active now s').0

  Steps-MadeBy :
      (hash : String) (t : ℕ) {s s' : WebStore}
      → MadeBy hash t s
      → Steps hash t s s'
      → MadeBy hash t s'
  Steps-MadeBy hash t h begun = h
  Steps-MadeBy hash t h (called c s' a r) =
      run_keeps (MadeBy hash t) (is_made_by hash t) (closed hash t) c s' a (Steps-MadeBy hash t h r)
  Steps-MadeBy hash t h (visited token active now s' r) =
      session_keeps (MadeBy hash t) (is_made_by hash t) (closed hash t) token active now s'
        (Steps-MadeBy hash t h r)

  -- The session that a token is signed in with.
  abbrev pub signed_in : String → Bool → ℕ → WebStore → Option Session
  signed_in token active now s = elim (session digest (some token) active now s).1 [
    | err _ ↦ none
    | ok found ↦ found
  ]

  -- If every session of a token's hash has been made at the time `t` or before, then 30 days after `t` and
  -- later the token is not signed in, whatever calls of the store and visits have come between,
  -- returned or raised, that add no session of that hash made after `t`. No visit prolongs it.
  pub Steps-signed_in :
      (token : String) (active : Bool) (now t : ℕ) (s s' : WebStore)
      → MadeBy (digest token) t s
      → Steps (digest token) t s s'
      → t + session_absolute_seconds ≤ now
      → signed_in token active now s' ≡ none
  unfolding find_session
  Steps-signed_in token active now t s s' h r w =
      elim (Result-cases (session digest (some token) active now s').1) [
        | inr (e, raised) ↦ rw (signed_in, raised) refl
        | inl (none, nobody) ↦ rw (signed_in, nobody) refl
        | inl (some e, given) ↦
            let (known, live) = session_gives token active now s' {found = e} given in
            let (made, same) : (is_made_by (digest token) t e ≡ true)
                × ((e.hash == digest token) ≡ true) =
              All-find_first (λ x. is_made_by (digest token) t x ≡ true)
                (λ x. x.hash == digest token) s'.sessions.entries
                (Steps-MadeBy (digest token) t h r) known in
            let over = over_after_all now t e (account e.account s') (ground arith) w in absurd (cc)
      ]
