-- ===== src/Web/Redeemed.antt =====
-- A code links one browser, and a player has one code at most.
use endbot.Prelude.{
  ◌≡◌, refl, sym, ap, subst, ◌∙◌, ◌⊎◌, inl, inr, ℕ, ◌+◌, Bool, true, false, not, ◌||◌, Option, none,
  some, List, [], ◌∷◌, String, ◌==◌, ltb, find_first, filter, contains, map, any, has_repeat, arith,
  eq_iff, eq_comm, eq-cases, Bool-cases, Option-cases, lookup, insert, insert_absent, erase,
  lookup-insert, lookup-erase, has_key, Dict, ok, err, no_fuel, or_raise, or_raise_returned,
  attempt, attempt-cases, attempt_keeps, PyText, if◌then◌else◌, has_repeat-snoc, has_repeat-filter,
}
use endbot.Web.Codes.{
  LinkIdentity, LinkCodes, purge, issue, note_wrong, reading, redeem_code, redeem, live, void,
}

-- The codes with their players and times.
abbrev pub Table : Type 0
Table = Dict (LinkIdentity × ℕ)

filter_absent :
    (p : String × (LinkIdentity × ℕ) → Bool) (k : String) (d : Table)
    → lookup k d ≡ none
    → lookup k (filter p d) ≡ none
unfolding lookup
filter_absent p k [] h = refl
filter_absent p k ((j, v) ∷ d) h = ground (arith, filter_absent p k d)

purge_absent :
    (k : String) (now : ℕ) (c : LinkCodes)
    → lookup k c.codes ≡ none
    → lookup k (purge now c).codes ≡ none
unfolding purge
purge_absent k now c h = filter_absent (λ e. ltb now e.1.1) k c.codes h

pub note_wrong-codes : (now : ℕ) (c : LinkCodes) → (note_wrong now c).0.codes ≡ c.codes
unfolding note_wrong
note_wrong-codes now c = ground arith

-- The code that a call of `issue` has given.
abbrev pub gives : String → LinkIdentity → ℕ → List String → LinkCodes → Bool
gives k i now draws c = elim (issue i now draws c).1 [ err _ ↦ false | ok drawn ↦ drawn == k ]

issue_absent :
    (k : String) (i : LinkIdentity) (now : ℕ) (draws : List String) (c : LinkCodes)
    → gives k i now draws c ≡ false
    → lookup k c.codes ≡ none
    → lookup k (issue i now draws c).0.codes ≡ none
unfolding issue
issue_absent k i now draws c g h =
    let others = filter (λ e. not (e.1.0.xuid == i.xuid)) (purge now c).codes in
    let absent : lookup k others ≡ none =
      filter_absent (λ e. not (e.1.0.xuid == i.xuid)) k (purge now c).codes
        (purge_absent k now c h) in
    elim (Option-cases (find_first (λ d. not (has_key d others)) draws)) [
      | inl none_free ↦ rw none_free absent
      | inr (drawn, free) ↦
          let other : (drawn == k) ≡ false = sym (rw (gives, issue, free) refl) ∙ g in
          rw free (rw (lookup-insert drawn k (i, now + 300) others, other) absent)
    ]

module _ (py : PyText) (upper : String → String) where
  redeem_absent :
      (k text : String) (now : ℕ) (c : LinkCodes)
      → lookup k c.codes ≡ none
      → lookup k (redeem py upper text now c).0.codes ≡ none
  unfolding redeem redeem_code
  redeem_absent k text now c h = elim (Bool-cases (ltb now c.closed_until)) [
    | inl closed ↦ rw closed h
    | inr entered ↦ elim (Option-cases (lookup (reading py upper text) (purge now c).codes)) [
      | inl e ↦
          rw (redeem_code, entered, e)
            (ap (lookup k) (note_wrong-codes now (purge now c)) ∙ purge_absent k now c h)
      | inr (v, e) ↦
          rw (redeem_code, entered, e)
            (rw (lookup-erase (reading py upper text) k (purge now c).codes, purge_absent k now c h)
              (ground arith))
    ]
  ]

  -- Calls of the codes in any order, none of which issues the code `k`.
  pub data Without (k : String) (c : LinkCodes) : LinkCodes → Type 0 where
    nothing : Without k c c
    issued :
        (i : LinkIdentity) (now : ℕ) (draws : List String) (c' : LinkCodes)
        → gives k i now draws c' ≡ false
        → Without k c c'
        → Without k c (issue i now draws c').0
    redeemed :
        (text : String) (now : ℕ) (c' : LinkCodes)
        → Without k c c'
        → Without k c (redeem py upper text now c').0
    listed : (now : ℕ) (c' : LinkCodes) → Without k c c' → Without k c (live now c').0
    voided : (xuids : List String) (c' : LinkCodes) → Without k c c' → Without k c (void xuids c')

  Without-absent :
      {k : String} {c c' : LinkCodes}
      → lookup k c.codes ≡ none
      → Without k c c'
      → lookup k c'.codes ≡ none
  unfolding live void
  Without-absent h nothing = h
  Without-absent {k} h (issued i now draws c' g r) =
      issue_absent k i now draws c' g (Without-absent h r)
  Without-absent {k} h (redeemed text now c' r) = redeem_absent k text now c' (Without-absent h r)
  Without-absent {k} h (listed now c' r) = purge_absent k now c' (Without-absent h r)
  Without-absent {k} h (voided xuids c' r) =
      filter_absent (λ e. not (contains e.1.0.xuid xuids)) k c'.codes (Without-absent h r)

  -- Whether a call of `redeem` has given a player.
  abbrev pub gives_player : String → ℕ → LinkCodes → Bool
  gives_player text now c = elim (redeem py upper text now c).1 [
    | err _ ↦ false
    | ok (none, _) ↦ false
    | ok (some _, _) ↦ true
  ]

  redeem_consumes :
      (text : String) (now : ℕ) (c : LinkCodes)
      → gives_player text now c ≡ true
      → lookup (reading py upper text) (redeem py upper text now c).0.codes ≡ none
  unfolding redeem redeem_code
  redeem_consumes text now c h = elim (Bool-cases (ltb now c.closed_until)) [
    | inl closed ↦ absurd (ground arith)
    | inr entered ↦ elim (Option-cases (lookup (reading py upper text) (purge now c).codes)) [
      | inl e ↦
          let missed : gives_player text now c ≡ false =
            rw (gives_player, redeem_code, entered, e) refl in
          absurd (ground arith)
      | inr (v, e) ↦
          rw (redeem_code, entered, e)
            (rw
              (
                lookup-erase (reading py upper text) (reading py upper text) (purge now c).codes,
                endbot.Prelude.eq_refl (reading py upper text),
              )
              refl)
    ]
  ]

  absent_refused :
      (text : String) (now : ℕ) (c : LinkCodes)
      → lookup (reading py upper text) c.codes ≡ none
      → gives_player text now c ≡ false
  unfolding redeem redeem_code
  absent_refused text now c h = elim (Bool-cases (ltb now c.closed_until)) [
    | inl closed ↦ rw (gives_player, closed) refl
    | inr entered ↦
        rw (gives_player, redeem_code, entered, purge_absent (reading py upper text) now c h) refl
  ]

  -- Once a code has been redeemed by a call that gave its player, no text that is read as the same code gives a
  -- player again, after whatever calls, as long as none of them issues that very code anew.
  pub Without-gives_player :
      (text text' : String) (now now' : ℕ) (c c' : LinkCodes)
      → gives_player text now c ≡ true
      → Without (reading py upper text) (redeem py upper text now c).0 c'
      → reading py upper text' ≡ reading py upper text
      → gives_player text' now' c' ≡ false
  Without-gives_player text text' now now' c c' h steps same =
      absent_refused text' now' c' (rw same (Without-absent (redeem_consumes text now c h) steps))
