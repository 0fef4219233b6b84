-- ===== src/Inputs/Cleanup.antt =====
-- What the cleanup of a run (core/src/endbot_core/script_inputs.py) leaves.
use endbot.Prelude.{
  ◌≡◌, sym, subst, ◌∙◌, Bool, true, false, not, ◌&&◌, List, [], ◌∷◌, ◌++◌, String, ◌==◌, eq_refl,
  any, any-append, any-filter, filter, arith, Bool-cases, inl, inr, append_assoc, Result, ok, err,
  ◌>>=◌, refl,
}
use endbot.Inputs.{
  Held, Request, Sending, sent, failed, unavailable, raised, is_at, pop, stop_request, cleanup_each,
  cleanup,
}

-- An entry of the run, for the same input, is among the entries.
covered : String → List Held → Held → Bool
unfolding is_at
covered run es h = any (λ e. e.run == run && is_at e.identity e.channel h) es

-- An entry of the run that is not among the entries.
uncovered : String → List Held → Held → Bool
unfolding covered
uncovered run es h = h.run == run && not (covered run es h)

any_cong : {A : Type 0} (p q : A → Bool) (xs : List A) → ((x : A) → p x ≡ q x) → any p xs ≡ any q xs
any_cong p q [] e = refl
any_cong p q (x ∷ xs) e = rw (e x, any_cong p q xs e)

any_none : {A : Type 0} (p : A → Bool) (xs : List A) → ((x : A) → p x ≡ false) → any p xs ≡ false
any_none p [] e = refl
any_none p (x ∷ xs) e = rw (e x, any_none p xs e)

abbrev pub is_ok : {A : Type 0} → Result A → Bool
is_ok (ok a) = true
is_ok (err e) = false

-- The request ends with an error that the cleanup does not catch.
abbrev pub is_raised : Sending → Bool
is_raised (raised e) = true
is_raised _ = false

module _ (run : String) where
  abbrev is_run : Held → Bool
  is_run h = h.run == run

  uncovered_skip :
      (e : Held) (es hs : List Held)
      → (e.run == run) ≡ false
      → any (uncovered run (e ∷ es)) hs ≡ any (uncovered run es) hs
  unfolding uncovered covered
  uncovered_skip e es hs other = any_cong _ _ hs (λ h. rw other)

  uncovered-pop :
      (e : Held) (es hs : List Held)
      → (e.run == run) ≡ true
      → any (uncovered run es) (pop e.identity e.channel hs) ≡ any (uncovered run (e ∷ es)) hs
  unfolding uncovered covered pop
  uncovered-pop e es hs own =
      any-filter _ _ hs
      ∙ any_cong (λ x. not (is_at e.identity e.channel x) && uncovered run es x)
          (uncovered run (e ∷ es)) hs (λ h. rw own (ground arith))

  covered_self : (zs hs : List Held) → any (uncovered run (zs ++ hs)) hs ≡ false
  unfolding uncovered covered is_at
  covered_self zs [] = refl
  covered_self zs (h ∷ hs) =
      let rest : any (uncovered run (zs ++ h ∷ hs)) hs ≡ false =
        subst (λ es. any (uncovered run es) hs ≡ false) (append_assoc zs (h ∷ []) hs)
          (covered_self (zs ++ h ∷ []) hs) in
      rw (rest, any-append, eq_refl h.identity, eq_refl h.channel) (ground arith)

  uncovered_nil : (hs : List Held) → any (uncovered run []) hs ≡ any is_run hs
  unfolding uncovered covered
  uncovered_nil hs = any_cong _ _ hs (λ h. ground arith)

  dropped : (hs : List Held) → any is_run (filter (λ h. not (h.run == run)) hs) ≡ false
  dropped hs =
      any-filter _ _ hs ∙ any_none (λ x. not (x.run == run) && is_run x) hs (λ h. ground arith)

  -- The loop has returned, and the run owns nothing.
  AreReleased : {S : Type 0} → List Held × S × Result (List String) → Type 0
  AreReleased o = (is_ok o.2 ≡ true) × (any is_run o.0 ≡ false)

  finished :
      {S : Type 0} (sending : Sending) (rest : List Held × S × Result (List String))
      (hs : List Held) (s : S)
      → is_raised sending ≡ false
      → AreReleased rest
      → AreReleased (elim sending as (λ _. List Held × S × Result (List String)) [
        | sent ↦ rest
        | failed m ↦ (rest.0, rest.1, rest.2 >>= λ ms. ok (m ∷ ms))
        | unavailable m ↦ (filter (λ h. not (h.run == run)) hs, s, ok (m ∷ []))
        | raised e ↦ (hs, s, err e)
      ])
  unfolding AreReleased
  finished sent rest hs s caught h = h
  finished (failed m) (held, s', ok ms) hs s caught h = h
  finished (failed m) (held, s', err e) hs s caught h = absurd (ground arith)
  finished (unavailable m) rest hs s caught h = (refl, dropped hs)
  finished (raised e) rest hs s caught h = absurd (ground arith)

  module _ {S : Type 0} (send : Request → S → S × Sending)
      (none_raised : (q : Request) (s : S) → is_raised (send q s).1 ≡ false) where
    cleanup_each_releases :
        (es held : List Held) (s : S)
        → any (uncovered run es) held ≡ false
        → AreReleased (cleanup_each send run es held s)
    unfolding cleanup_each AreReleased
    cleanup_each_releases [] held s h = (refl, sym (uncovered_nil held) ∙ h)
    cleanup_each_releases (e ∷ es) held s h = elim (Bool-cases (e.run == run)) [
      | inr other ↦
          rw (other, cleanup_each)
            (cleanup_each_releases es held s (sym (uncovered_skip e es held other) ∙ h))
      | inl own ↦
          let popped = pop e.identity e.channel held in
          let next = (send (stop_request e) s).0 in
          rw (own, cleanup_each)
            (finished (send (stop_request e) s).1 (cleanup_each send run es popped next) popped next
              (none_raised (stop_request e) s)
              (cleanup_each_releases es popped next (uncovered-pop e es held own ∙ h)))
    ]

    -- If every request of the cleanup ends with a reply, a `RuntimeError` or a `ValueError`, also where the runtime is gone,
    -- then the cleanup of a run returns, and the run owns no input after it.
    pub cleanup_releases :
        (held : List Held) (s : S)
        → let (held', _, failures) = cleanup send run held s in
          (is_ok failures ≡ true) × (any is_run held' ≡ false)
    unfolding cleanup AreReleased
    cleanup_releases held s = cleanup_each_releases held held s (covered_self [] held)
