-- ===== src/Web/Guesses.antt =====
-- How often a code can be guessed.
use endbot.Prelude.{
  ◌≡◌, refl, sym, ap, subst, ◌⊎◌, inl, inr, ℕ, suc, ◌+◌, ◌≤◌, ◌<◌, Bool, true, false, not, ◌&&◌,
  Option, none, List, [], ◌∷◌, ◌++◌, String, leb, ltb, length, filter, arith, Bool-cases,
  Option-cases, lookup, attempt_keeps, or_raise, find_first, has_key, insert, erase, no_fuel, ◌==◌,
  Dict, ok, PyText, if◌then◌else◌, Outcome,
}
use endbot.Web.Codes.{
  LinkIdentity, LinkCodes, new_codes, purge, issue, note_wrong, reading, redeem_code, redeem, live,
  void, wrong_code_window, wrong_code_limit,
}

-- Whether a call of `redeem` has looked up a code and not found it.
abbrev pub is_wrong : Outcome LinkCodes (Option LinkIdentity × Bool) → Bool
is_wrong (_, ok (none, _)) = true
is_wrong _ = false

-- How many of the moments are not before `from`.
unfoldable since : ℕ → List ℕ → ℕ
since from [] = 0
since from (m ∷ ms) = (if leb from m then 1 else 0) + since from ms

since-snoc :
    (from now : ℕ) (ms : List ℕ) → from ≤ now → since from (ms ++ now ∷ []) ≡ suc (since from ms)
unfolding since
since-snoc from now [] h = ground arith
since-snoc from now (m ∷ ms) h = ground (arith, since-snoc from now ms h)

since-bounded : (from : ℕ) (ms : List ℕ) → since from ms ≤ length ms
unfolding since
since-bounded from [] = omega arith
since-bounded from (m ∷ ms) = ground (arith, since-bounded from ms)

length-snoc : (ms : List ℕ) (m : ℕ) → length (ms ++ m ∷ []) ≡ suc (length ms)
length-snoc [] m = refl
length-snoc (x ∷ ms) m = ap suc (length-snoc ms m)

-- Forgetting what is older than the window keeps what is in it.
since-recent :
    (from now : ℕ) (ms : List ℕ)
    → now < from + 600
    → since from (filter (λ m. ltb now (m + wrong_code_window)) ms) ≡ since from ms
unfolding since
since-recent from now [] h = refl
since-recent from now (m ∷ ms) h = ground (arith, since-recent from now ms h)

length-filter : (p : ℕ → Bool) (ms : List ℕ) → length (filter p ms) ≤ length ms
length-filter p [] = omega arith
length-filter p (m ∷ ms) = ground (arith, length-filter p ms)

-- Issuing a code leaves everything but the codes as `purge` makes it.
pub issue_keeps :
    (P : LinkCodes → Type 0) (i : LinkIdentity) (now : ℕ) (draws : List String) (c : LinkCodes)
    → ((d : Dict (LinkIdentity × ℕ)) → P (record (purge now c) { codes = d }))
    → P (issue i now draws c).0
unfolding issue
issue_keeps P i now draws c h =
    let others = filter (λ e. not (e.1.0.xuid == i.xuid)) (purge now c).codes in
    attempt_keeps {B = String} P (or_raise (find_first (λ d. not (has_key d others)) draws) no_fuel)
      (record (purge now c) { codes = others })
      (λ drawn. (record (purge now c) { codes = insert drawn (i, now + 300) others }, ok drawn))
      (h others) (λ drawn _. h (insert drawn (i, now + 300) others))

-- The calls of the codes, in any order, each at a time that passes the test `allowed`. The number
-- counts the wrong codes that `redeem` has looked up.
module _ (py : PyText) (upper : String → String) where
  pub data Steps (allowed : ℕ → Bool) (c : LinkCodes) : ℕ → LinkCodes → Type 0 where
    nothing : Steps allowed c 0 c
    issued :
        (i : LinkIdentity) (now : ℕ) (draws : List String) (c' : LinkCodes) (n : ℕ)
        → allowed now ≡ true
        → Steps allowed c n c'
        → Steps allowed c n (issue i now draws c').0
    redeemed :
        (text : String) (now : ℕ) (c' : LinkCodes) (n : ℕ)
        → allowed now ≡ true
        → Steps allowed c n c'
        → Steps allowed c
            ((if is_wrong (redeem py upper text now c') then 1 else 0) + n)
            (redeem py upper text now c').0
    listed :
        (now : ℕ) (c' : LinkCodes) (n : ℕ)
        → allowed now ≡ true
        → Steps allowed c n c'
        → Steps allowed c n (live now c').0
    voided :
        (xuids : List String) (c' : LinkCodes) (n : ℕ)
        → Steps allowed c n c'
        → Steps allowed c n (void xuids c')

-- The times of the window that starts at `from`.
abbrev pub in_window : ℕ → ℕ → Bool
in_window from now = leb from now && ltb now (from + wrong_code_window)

module _ (py : PyText) (upper : String → String) (from : ℕ) where
  -- Fewer wrong codes than the limit are remembered; the wrong codes of the window are, or the entry
  -- is closed until its end.
  record Counted (n : ℕ) (c : LinkCodes) : Type 0 where
    few : length c.wrong ≤ 9
    at_most : n ≤ 10
    remembered : (from + 600 ≤ c.closed_until) ⊎ (n ≤ since from c.wrong)

  recoded :
      (n : ℕ) (c : LinkCodes) (d : Dict (LinkIdentity × ℕ))
      → Counted n c
      → Counted n (record c { codes = d })
  recoded n c d k = record { few = k.few; at_most = k.at_most; remembered = k.remembered }

  purge-Counted :
      (now n : ℕ) (c : LinkCodes)
      → in_window from now ≡ true
      → Counted n c
      → Counted n (purge now c)
  unfolding purge
  purge-Counted now n c h k = record {
    few =
        let l = length-filter (λ m. ltb now (m + wrong_code_window)) c.wrong in
        let f = k.few in omega arith;
    at_most = k.at_most;
    remembered = elim k.remembered [
      | inl closed ↦ inl closed
      | inr kept ↦
          inr (subst (λ x. n ≤ x) (sym (since-recent from now c.wrong (ground arith))) kept)
    ];
  }

  note_wrong-Counted :
      (now n : ℕ) (c : LinkCodes)
      → in_window from now ≡ true
      → c.closed_until ≤ now
      → Counted n c
      → Counted (suc n) (note_wrong now c).0
  unfolding note_wrong
  note_wrong-Counted now n c h o k =
      let after : from ≤ now = ground arith in
      let before : now < from + 600 = ground arith in
      let more = since-snoc from now c.wrong after in
      let longer = length-snoc c.wrong now in
      let bounded = since-bounded from c.wrong in
      let f = k.few in
      let kept : n ≤ since from c.wrong = elim k.remembered [
        | inl closed ↦ absurd (omega arith)
        | inr r ↦ r
      ] in
      elim (Bool-cases (leb wrong_code_limit (length (c.wrong ++ now ∷ [])))) [
        | inl full ↦
            rw full
              (record { few = omega arith; at_most = omega arith; remembered = inl (omega arith) })
        | inr room ↦
            rw room
              (record { few = ground arith; at_most = omega arith; remembered = inr (omega arith) })
      ]

  redeem_code-Counted :
      (symbols : String) (now n : ℕ) (c : LinkCodes)
      → in_window from now ≡ true
      → c.closed_until ≤ now
      → Counted n c
      → Counted
          ((if is_wrong (redeem_code py upper symbols now c) then 1 else 0) + n)
          (redeem_code py upper symbols now c).0
  unfolding redeem_code
  redeem_code-Counted symbols now n c w o k = elim (Option-cases (lookup symbols c.codes)) [
    | inr ((i, t), e) ↦
        rw (redeem_code, e)
          (subst (λ m. Counted m (record c { codes = erase symbols c.codes })) (omega arith)
            (recoded n c (erase symbols c.codes) k))
    | inl e ↦
        rw (redeem_code, e)
          (subst (λ m. Counted m (note_wrong now c).0) (omega arith)
            (note_wrong-Counted now n c w o k))
  ]

  redeem-Counted :
      (text : String) (now n : ℕ) (c : LinkCodes)
      → in_window from now ≡ true
      → Counted n c
      → Counted
          ((if is_wrong (redeem py upper text now c) then 1 else 0) + n)
          (redeem py upper text now c).0
  unfolding redeem purge
  redeem-Counted text now n c w k = elim (Bool-cases (ltb now c.closed_until)) [
    | inl closed ↦ rw closed (subst (λ m. Counted m c) (omega arith) k)
    | inr entered ↦ rw entered (
        redeem_code-Counted (reading py upper text) now n (purge now c) w (ground arith)
          (purge-Counted now n c w k))
  ]

  Steps-Counted :
      {c c' : LinkCodes} {n : ℕ}
      → length c.wrong ≤ 9
      → Steps py upper (in_window from) c n c'
      → Counted n c'
  unfolding issue live void
  Steps-Counted h nothing = record {
    few = h;
    at_most = omega arith;
    remembered = inr (omega arith);
  }
  Steps-Counted h (issued i now draws c' n w r) =
      let k = purge-Counted now n c' w (Steps-Counted h r) in
      issue_keeps (Counted n) i now draws c' (λ d. recoded n _ d k)
  Steps-Counted h (redeemed text now c' n w r) = redeem-Counted text now n c' w (Steps-Counted h r)
  Steps-Counted h (listed now c' n w r) = purge-Counted now n c' w (Steps-Counted h r)
  Steps-Counted h (voided xuids c' n r) =
      let k = Steps-Counted h r in
      record { few = k.few; at_most = k.at_most; remembered = k.remembered }

module _ (py : PyText) (upper : String → String) where
  note_wrong-few : (now : ℕ) (c : LinkCodes) → length (note_wrong now c).0.wrong ≤ 9
  unfolding note_wrong
  note_wrong-few now c = ground arith

  redeem-few :
      (text : String) (now : ℕ) (c : LinkCodes)
      → length c.wrong ≤ 9
      → length (redeem py upper text now c).0.wrong ≤ 9
  unfolding redeem redeem_code purge
  redeem-few text now c h =
      let l = length-filter (λ m. ltb now (m + wrong_code_window)) c.wrong in
      ground (arith, note_wrong-few now (purge now c))

  Steps-few :
      {allowed : ℕ → Bool} {c c' : LinkCodes} {n : ℕ}
      → length c.wrong ≤ 9
      → Steps py upper allowed c n c'
      → length c'.wrong ≤ 9
  unfolding issue live void purge
  Steps-few h nothing = h
  Steps-few h (issued i now draws c' n w r) =
      let l = length-filter (λ m. ltb now (m + wrong_code_window)) c'.wrong in
      let k = Steps-few h r in
      issue_keeps (λ s. length s.wrong ≤ 9) i now draws c' (λ d. omega arith)
  Steps-few h (redeemed text now c' n w r) = redeem-few text now c' (Steps-few h r)
  Steps-few h (listed now c' n w r) =
      let l = length-filter (λ m. ltb now (m + wrong_code_window)) c'.wrong in
      let k = Steps-few h r in omega arith
  Steps-few h (voided xuids c' n r) = Steps-few h r

  -- Whatever calls of the link codes have been made since the start, at whatever times: among the
  -- calls that then follow within any window of 600 seconds, at most 10 calls of `redeem` look up a
  -- code and do not find it.
  pub Steps-bounded :
      (from : ℕ) {allowed : ℕ → Bool} {c c' : LinkCodes} {m n : ℕ}
      → Steps py upper allowed new_codes m c
      → Steps py upper (in_window from) c n c'
      → n ≤ 10
  Steps-bounded from before window =
      (Steps-Counted py upper from (Steps-few (omega arith) before) window).at_most
