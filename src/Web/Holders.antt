-- ===== src/Web/Holders.antt =====
-- Each player has one code at most.
use endbot.Prelude.{
  ◌≡◌, refl, sym, subst, inl, inr, ℕ, ◌+◌, Bool, false, not, none, List, [], ◌∷◌, String, ◌==◌, ltb,
  find_first, filter, contains, map, has_repeat, arith, Bool-cases, Option-cases, lookup,
  insert_absent, erase, has_key, PyText, has_repeat-snoc, has_repeat-filter, find_first_holds,
}
use mathlib.Core.List.{map-append}
use endbot.Web.Codes.{
  LinkIdentity, LinkCodes, new_codes, purge, issue, reading, redeem_code, redeem, live, void,
}
use endbot.Web.Redeemed.{Table, note_wrong-codes}
use endbot.Web.Guesses.{Steps, nothing, issued, redeemed, listed, voided}

abbrev holders : Table → List String
holders = map (λ e. e.1.0.xuid)

erase_as_filter : (k : String) (d : Table) → erase k d ≡ filter (λ e. not (e.0 == k)) d
unfolding erase
erase_as_filter k [] = refl
erase_as_filter k ((j, v) ∷ d) = ground (arith, erase_as_filter k d)

contains_dropped :
    (x : String) (d : Table) → contains x (holders (filter (λ e. not (e.1.0.xuid == x)) d)) ≡ false
contains_dropped x [] = refl
contains_dropped x ((j, v) ∷ d) = ground (arith, contains_dropped x d)

issue-holders :
    (i : LinkIdentity) (now : ℕ) (draws : List String) (c : LinkCodes)
    → has_repeat (holders c.codes) ≡ false
    → has_repeat (holders (issue i now draws c).0.codes) ≡ false
unfolding issue purge
issue-holders i now draws c h =
    let recent = filter (λ e. ltb now e.1.1) c.codes in
    let others = filter (λ e. not (e.1.0.xuid == i.xuid)) recent in
    let kept : has_repeat (holders others) ≡ false =
      has_repeat-filter (λ e. e.1.0.xuid) (λ e. not (e.1.0.xuid == i.xuid)) recent
        (has_repeat-filter (λ e. e.1.0.xuid) (λ e. ltb now e.1.1) c.codes h) in
    elim (Option-cases (find_first (λ d. not (has_key d others)) draws)) [
      | inl none_free ↦ rw none_free kept
      | inr (drawn, free) ↦
          let unused = find_first_holds (λ d. not (has_key d others)) draws free in
          let absent : lookup drawn others ≡ none = elim (Option-cases (lookup drawn others)) [
            | inl e ↦ e
            | inr (v, e) ↦ absurd (ground arith)
          ] in
          rw (free, insert_absent drawn (i, now + 300) others absent)
            (rw map-append
              (has_repeat-snoc (holders others) i.xuid kept (contains_dropped i.xuid recent)))
    ]

module _ (py : PyText) (upper : String → String) where
  redeem-holders :
      (text : String) (now : ℕ) (c : LinkCodes)
      → has_repeat (holders c.codes) ≡ false
      → has_repeat (holders (redeem py upper text now c).0.codes) ≡ false
  unfolding redeem purge redeem_code
  redeem-holders text now c h =
      let recent = has_repeat-filter (λ e. e.1.0.xuid) (λ e. ltb now e.1.1) c.codes h in
      elim (Bool-cases (ltb now c.closed_until)) [
        | inl closed ↦ rw closed h
        | inr entered ↦ elim (Option-cases (lookup (reading py upper text) (purge now c).codes)) [
          | inl e ↦
              rw (redeem_code, entered, e)
                (subst (λ d. has_repeat (holders d) ≡ false)
                  (sym (note_wrong-codes now (purge now c))) recent)
          | inr (v, e) ↦
              rw (redeem_code, entered, e)
                (subst (λ d. has_repeat (holders d) ≡ false)
                  (sym (erase_as_filter (reading py upper text) (purge now c).codes))
                  (has_repeat-filter (λ e. e.1.0.xuid) (λ e. not (e.0 == reading py upper text))
                    (purge now c).codes recent))
        ]
      ]

  -- After any calls of the link codes since the start, at whatever times, no two of the codes that
  -- are held belong to the same XUID.
  pub Steps-has_repeat :
      {allowed : ℕ → Bool} {n : ℕ} {c : LinkCodes}
      → Steps py upper allowed new_codes n c
      → has_repeat (map (λ e. e.1.0.xuid) c.codes) ≡ false
  unfolding live void purge
  Steps-has_repeat nothing = refl
  Steps-has_repeat (issued i now draws c n w r) = issue-holders i now draws c (Steps-has_repeat r)
  Steps-has_repeat (redeemed text now c n w r) = redeem-holders text now c (Steps-has_repeat r)
  Steps-has_repeat (listed now c n w r) =
      has_repeat-filter (λ e. e.1.0.xuid) (λ e. ltb now e.1.1) c.codes (Steps-has_repeat r)
  Steps-has_repeat (voided xuids c n r) =
      has_repeat-filter (λ e. e.1.0.xuid) (λ e. not (contains e.1.0.xuid xuids)) c.codes
        (Steps-has_repeat r)
