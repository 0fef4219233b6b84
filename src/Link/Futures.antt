-- ===== src/Link/Futures.antt =====
-- What becomes of the futures of `LinkConnection.send`.
use endbot.Prelude.{
  ◌≡◌, refl, sym, ap, subst, ◌∙◌, inl, inr, ℕ, Bool, true, false, ◌||◌, Option, none, some, List,
  [], ◌∷◌, arith, nat_eq, any, is_some, unavailable, Option-cases, Bool-cases, if◌then◌else◌,
}
use endbot.Link.Connection.{Resolution, exception_of, find_key, settle, settle_all}

find_key-found :
    {A : Type 0} (k j : ℕ) (a : A) (rest : List (ℕ × A))
    → find_key k ((j, a) ∷ rest) ≡ (if nat_eq j k then some a else find_key k rest)
unfolding find_key
find_key-found k j a rest = refl

-- Settling gives a value to its own key, unless that is settled.
find_key-settle :
    (k future : ℕ) (r : Resolution) (rs : List (ℕ × Resolution))
    → find_key k (settle future r rs) ≡ (
        if is_some (find_key k rs) then find_key k rs else if nat_eq future k then some r else none)
unfolding settle
find_key-settle k future r rs = elim (Option-cases (find_key future rs)) [
  | inr (q, e) ↦ rw e (elim (Option-cases (find_key k rs)) [
    | inr (p, f) ↦ rw f
    | inl f ↦ elim (Bool-cases (nat_eq future k)) [
      | inr ne ↦ rw (f, ne)
      | inl same ↦
          let eq : future ≡ k = ground arith in
          absurd (ground (arith, sym (subst (λ x. find_key x rs ≡ some q) eq e) ∙ f))
    ]
  ])
  | inl e ↦ rw e (
      find_key-found k future r rs ∙ (elim (Bool-cases (nat_eq future k)) [
        | inr ne ↦ rw ne (elim (Option-cases (find_key k rs)) [ inl f ↦ rw f | inr (p, f) ↦ rw f ])
        | inl same ↦
            let eq : future ≡ k = ground arith in rw (same, subst (λ x. find_key x rs ≡ none) eq e)
      ]))
]

-- Whether a future has been resolved, and whether it waits for a reply.
abbrev pub is_resolved : ℕ → List (ℕ × Resolution) → Bool
is_resolved k rs = is_some (find_key k rs)

abbrev pub is_waiting : ℕ → List (ℕ × ℕ) → Bool
is_waiting k = any (λ e. nat_eq e.1 k)

is_some_chosen :
    {A : Type 0} (o : Option A) (b : Bool) (a : A)
    → is_some (if is_some o then o else if b then some a else none) ≡ is_some o || b
is_some_chosen (some x) b a = refl
is_some_chosen none true a = refl
is_some_chosen none false a = refl

pub is_resolved-settle :
    (k future : ℕ) (r : Resolution) (rs : List (ℕ × Resolution))
    → is_resolved k (settle future r rs) ≡ is_resolved k rs || nat_eq future k
is_resolved-settle k future r rs =
    ap is_some (find_key-settle k future r rs) ∙ is_some_chosen (find_key k rs) (nat_eq future k) r

pub is_resolved-settle_all :
    (k : ℕ) (ps : List (ℕ × ℕ)) (rs : List (ℕ × Resolution))
    → is_resolved k (settle_all ps rs) ≡ is_resolved k rs || is_waiting k ps
unfolding settle_all
is_resolved-settle_all k [] rs = ground arith
is_resolved-settle_all k ((i, future) ∷ ps) rs =
    is_resolved-settle_all k ps (settle future (exception_of unavailable) rs)
    ∙ rw is_resolved-settle (ground arith)
