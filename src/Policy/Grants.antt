-- ===== src/Policy/Grants.antt =====
-- Grants: what `add` gives, and that enrolment takes no revocation away.
use endbot.Prelude.{
  ◌≡◌, refl, sym, inl, inr, ◌⊎◌, true, false, not, ◌||◌, Option, some, List, [], ◌∷◌, ◌++◌, map,
  String, ◌==◌, filter, arith, eq_iff, eq_refl, eq-cases, contains, if◌then◌else◌, ok, attempt,
  PyText, Bool-cases, Option-cases, Result-cases, attempt_keeps,
}
use endbot.Enrollment.{Binding, is_xuid}
use endbot.Policy.{
  Policy, ControllerPolicy, denied, name_denied, granted_among, grants_xuid, controller_name,
  is_selector, without, without_name, with_grant, add_account, add, enroll,
}
use endbot.Policy.Revocation.{save_returned, save_raised}

module _ (py : PyText) where
  contains-without :
      (x k : String) (xs : List String)
      → contains k (without py x xs) ≡ (if x == k then false else contains k xs)
  contains-without x k [] = ground arith
  contains-without x k (y ∷ ys) =
      ground (arith, contains-without x k ys, eq_iff y x, eq_iff y k, eq_iff x k)

  contains-without_absent :
      (x k : String) (xs : List String)
      → contains x xs ≡ false
      → contains k (without py x xs) ≡ contains k xs
  contains-without_absent x k xs h = elim (eq-cases x k) [
    | inl e ↦ rw (contains-without x k xs, e, eq_refl) (sym (rw e at h))
    | inr e ↦ rw (contains-without x k xs, e)
  ]

  name_denied-without_name :
      (name : String) (xs : List String)
      → contains (py.casefold name) (map py.casefold (without_name py name xs)) ≡ false
  name_denied-without_name name [] = refl
  name_denied-without_name name (y ∷ ys) = ground (arith, name_denied-without_name name ys)

  granted_among-append :
      (x : String) (bs : List Binding) (b : Binding) (s : Policy)
      → b.xuid ≡ x
      → denied py b.xuid b.uuid s ≡ ok false
      → granted_among py x (filter (λ c. not (c.xuid == x)) bs ++ b ∷ []) s ≡ ok true
  unfolding granted_among
  granted_among-append x [] b s e d = rw (d, e, eq_refl)
  granted_among-append x (c ∷ cs) b s e d = elim (Bool-cases (c.xuid == x)) [
    | inl same ↦ rw same (granted_among-append x cs b s e d)
    | inr other ↦ rw (other, other) (granted_among-append x cs b s e d)
  ]

  with_grant-denied :
      (b : Binding) (s : Policy)
      → py.uuid b.uuid ≡ some b.uuid
      → denied py b.xuid b.uuid (with_grant py b s) ≡ ok false
  unfolding denied with_grant
  with_grant-denied b s canonical = rw (
    contains-without b.xuid b.xuid s.denied_xuids,
    eq_refl,
    canonical,
    contains-without b.uuid b.uuid s.denied_uuids,
    eq_refl,
  )

  -- After `add` of an account: nothing has changed, or the account has been granted.
  Granted : String → Option String → Policy → Policy → Type 0
  Granted xuid player_uuid s s' =
      (s' ≡ s)
      ⊎ ((b : Binding) × (given : String) × (b.xuid ≡ xuid)
          × (player_uuid ≡ some given)
          × (py.uuid given ≡ some b.uuid)
          × (s' ≡ with_grant py b s))

  add_account-Granted :
      (now name xuid : String) (player_uuid : Option String) (p : ControllerPolicy)
      → Granted xuid player_uuid p.state (add_account py now name xuid player_uuid p).0.state
  unfolding add_account Granted
  add_account-Granted now name xuid player_uuid p = elim (Bool-cases (is_xuid xuid)) [
    | inr e ↦ rw e (inl refl)
    | inl genuine ↦ rw genuine (elim (Option-cases player_uuid) [
      | inl e ↦ rw e (inl refl)
      | inr (given, e) ↦ rw e (elim (Option-cases (py.uuid given)) [
        | inl f ↦ rw f (inl refl)
        | inr (uuid, f) ↦
            rw f
              (elim (save_raised
                (with_grant py
                  (record { gamertag = name; xuid = xuid; uuid = uuid; bound_at = now }) p.state)
                p) [
                  | inl w ↦ inr (
                    record { gamertag = name; xuid = xuid; uuid = uuid; bound_at = now },
                    given,
                    refl,
                    refl,
                    f,
                    w,
                  )
                  | inr w ↦ inl w
                ])
      ])
    ])
  ]

  add-Granted :
      (now name xuid : String) (player_uuid : Option String) (p : ControllerPolicy)
      → Granted xuid player_uuid p.state (add py now name (some xuid) player_uuid p).0.state
  unfolding add
  add-Granted now name xuid player_uuid p =
      attempt_keeps (λ q. Granted xuid player_uuid p.state q.state) (controller_name py name) p _
        (unfold Granted in inl refl)
        λ n _. elim (Bool-cases (is_selector py n)) [
          | inl e ↦ rw e (unfold Granted in inl refl)
          | inr e ↦ rw e (add_account-Granted now n xuid player_uuid p)
        ]

  -- A grant to an account that is not denied lifts no denial of any account.
  with_grant-keeps_denied :
      (b : Binding) (s : Policy) (x u : String)
      → contains b.xuid s.denied_xuids ≡ false
      → contains b.uuid s.denied_uuids ≡ false
      → denied py x u (with_grant py b s) ≡ denied py x u s
  unfolding denied with_grant
  with_grant-keeps_denied b s x u h k = elim (Option-cases (py.uuid u)) [
    | inl e ↦ rw (contains-without_absent b.xuid x s.denied_xuids h, e)
    | inr (v, e) ↦ rw (
      contains-without_absent b.xuid x s.denied_xuids h,
      e,
      contains-without_absent b.uuid v s.denied_uuids k,
    )
  ]

  denied-eq-false :
      (x u v : String) (s : Policy)
      → py.uuid u ≡ some v
      → denied py x u s ≡ ok false
      → (contains x s.denied_xuids ≡ false) × (contains v s.denied_uuids ≡ false)
  unfolding denied
  denied-eq-false x u v s e h = ground arith

  -- The policy after `enroll` is the one before it, or the one that `add` leaves for an account
  -- that is not denied.
  pub enroll_cases :
      (now name xuid player_uuid : String) (p : ControllerPolicy)
      → ((enroll py now name xuid player_uuid p).0 ≡ p)
        ⊎ ((denied py xuid player_uuid p.state ≡ ok false)
            × ((enroll py now name xuid player_uuid p).0
                ≡ (add py now name (some xuid) (some player_uuid) p).0))
  unfolding enroll
  enroll_cases now name xuid player_uuid p =
      elim (Bool-cases (
        not (is_xuid xuid)
        || not (contains (py.casefold name) (map py.casefold p.state.pending)))) [
          | inl e ↦ rw e (inl refl)
          | inr e ↦ rw e (elim (Result-cases (denied py xuid player_uuid p.state)) [
            | inr (x, f) ↦ rw f (inl refl)
            | inl (true, f) ↦ rw f (inl refl)
            | inl (false, f) ↦
                rw f (elim (Result-cases (add py now name (some xuid) (some player_uuid) p).1) [
                  | inl (u, g) ↦ rw g (inr (refl, refl))
                  | inr (x, g) ↦ rw g (inr (refl, refl))
                ])
          ])
        ]

  -- Enrolment of a pending GamerTag, whoever joins under it and however it ends, changes for no
  -- account whether the account is denied.
  pub enroll_keeps_denied :
      (now name xuid player_uuid : String) (p : ControllerPolicy) (x u : String)
      → denied py x u (enroll py now name xuid player_uuid p).0.state ≡ denied py x u p.state
  unfolding Granted
  enroll_keeps_denied now name xuid player_uuid p x u =
      elim (enroll_cases now name xuid player_uuid p) [
        | inl e ↦ rw e
        | inr (allowed, e) ↦ rw e (elim (add-Granted now name xuid (some player_uuid) p) [
          | inl f ↦ rw f
          | inr (b, given, own, is_given, parsed, f) ↦
              let same : player_uuid ≡ given = cc in
              let free = denied-eq-false xuid given b.uuid p.state parsed (rw same at allowed) in
              rw f (with_grant-keeps_denied b p.state x u (rw own free.0) free.1)
        ])
      ]

  account : String → String → String → String → Binding
  account now name xuid uuid = record { gamertag = name; xuid = xuid; uuid = uuid; bound_at = now }

  add_account_returned :
      (now name xuid : String) (player_uuid : Option String) (p : ControllerPolicy)
      → (add_account py now name xuid player_uuid p).1 ≡ ok tt
      → (uuid : String) × (is_xuid xuid ≡ true)
        × (py.uuid uuid ≡ some uuid)
        × ((add_account py now name xuid player_uuid p).0.state
            ≡ with_grant py (account now name xuid uuid) p.state)
  unfolding add_account account
  add_account_returned now name xuid player_uuid p h = elim (Option-cases player_uuid) [
    | inl e ↦ absurd (ground arith)
    | inr (given, e) ↦ elim (Option-cases (py.uuid given)) [
      | inl f ↦ absurd (ground arith)
      | inr (uuid, f) ↦ (
        uuid,
        ground arith,
        py.uuid_canonical given uuid f,
        ground (arith, save_returned (with_grant py (account now name xuid uuid) p.state) p),
      )
    ]
  ]

  with_grant-grants :
      (b : Binding) (s : Policy)
      → is_xuid b.xuid ≡ true
      → py.uuid b.uuid ≡ some b.uuid
      → (grants_xuid py b.xuid (with_grant py b s) ≡ ok true)
        × (contains b.xuid (with_grant py b s).denied_xuids ≡ false)
        × (name_denied py b.gamertag (with_grant py b s) ≡ false)
  unfolding grants_xuid name_denied
  with_grant-grants b s genuine canonical = (
    rw genuine (
        unfold with_grant in
        granted_among-append b.xuid s.grants b _ refl (with_grant-denied b s canonical)),
    unfold with_grant in rw (contains-without b.xuid b.xuid s.denied_xuids, eq_refl),
    unfold with_grant in name_denied-without_name b.gamertag s.denied_names,
  )

  -- A grant to an account with an XUID, once it returned, holds at once: the XUID has a grant, and
  -- neither it nor the GamerTag is denied any more.
  pub add_grants :
      (now given name xuid : String) (player_uuid : Option String) (p : ControllerPolicy)
      → controller_name py given ≡ ok name
      → (add py now given (some xuid) player_uuid p).1 ≡ ok tt
      → let s' = (add py now given (some xuid) player_uuid p).0.state in
        (grants_xuid py xuid s' ≡ ok true)
        × (contains xuid s'.denied_xuids ≡ false)
        × (name_denied py name s' ≡ false)
  unfolding add
  add_grants now given name xuid player_uuid p named h = elim (Bool-cases (is_selector py name)) [
    | inl e ↦ absurd (ground arith)
    | inr e ↦
        let done : add py now given (some xuid) player_uuid p
            ≡ add_account py now name xuid player_uuid p =
          rw (named, e, attempt) in
        let (uuid, genuine, canonical, state) =
          add_account_returned now name xuid player_uuid p (rw done at h) in
        rw (done, state)
          (unfold account in
            with_grant-grants (account now name xuid uuid) p.state genuine canonical)
  ]
