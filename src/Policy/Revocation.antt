-- ===== src/Policy/Revocation.antt =====
-- Revocations: what `remove` denies, and that enrolment lifts none of it.
use endbot.Prelude.{
  ◌≡◌, refl, sym, subst, eq-cases, inl, inr, ◌⊎◌, Bool, true, false, ◌||◌, Option, List, [], ◌∷◌,
  ◌++◌, map, String, ◌==◌, arith, eq_iff, eq_refl, any-append, contains, contains-sorted_set,
  sorted_set, ok, PyText, Bool-cases,
}
use endbot.Enrollment.{Binding}
use endbot.Policy.{
  Policy, ControllerPolicy, Aliases, save, denied, name_denied, granted_among, grants_xuid,
  selected, absorb, absorb_all, revoked_state, remove, controller_name,
}

-- Writing either returned, with the new state, or raised, with the old one.
pub save_returned :
    (t : Policy) (p : ControllerPolicy) → (save t p).1 ≡ ok tt → (save t p).0.state ≡ t
unfolding save
save_returned t p h = ground arith

pub save_raised :
    (t : Policy) (p : ControllerPolicy) → ((save t p).0.state ≡ t) ⊎ ((save t p).0.state ≡ p.state)
unfolding save
save_raised t p = ground arith

module _ (py : PyText) where
  -- The three sets of `a` are within those of `c`.
  record Below (a c : Aliases) : Type 0 where
    names : (x : String) → contains x a.names ≡ true → contains x c.names ≡ true
    xuids : (x : String) → contains x a.xuids ≡ true → contains x c.xuids ≡ true
    uuids : (x : String) → contains x a.uuids ≡ true → contains x c.uuids ≡ true

  absorb-Below : (b : Binding) (a : Aliases) → Below a (absorb py b a)
  unfolding absorb
  absorb-Below b a = record {
    names = λ x h. ground arith;
    xuids = λ x h. ground arith;
    uuids = λ x h. ground arith;
  }

  absorb_all-Below : (bs : List Binding) (a : Aliases) → Below a (absorb_all py bs a)
  unfolding absorb_all
  absorb_all-Below [] a = record { names = λ x h. h; xuids = λ x h. h; uuids = λ x h. h }
  absorb_all-Below (b ∷ bs) a =
      let one = absorb-Below b a in
      let rest = absorb_all-Below bs (absorb py b a) in
      record {
        names = λ x h. rest.names x (one.names x h);
        xuids = λ x h. rest.xuids x (one.xuids x h);
        uuids = λ x h. rest.uuids x (one.uuids x h);
      }

  -- A binding is touched by the sets if one of them holds its name, its XUID or its UUID.
  abbrev pub touches : Aliases → Binding → Bool
  touches a b =
      contains (py.casefold b.gamertag) a.names
      || contains b.xuid a.xuids
      || contains b.uuid a.uuids

  -- Everything of a binding is in the sets.
  pub record Holds (a : Aliases) (b : Binding) : Type 0 where
    pub name : contains (py.casefold b.gamertag) a.names ≡ true
    pub xuid : contains b.xuid a.xuids ≡ true
    pub uuid : contains b.uuid a.uuids ≡ true

  Holds-Below : (a c : Aliases) (b : Binding) → Below a c → Holds a b → Holds c b
  Holds-Below a c b m h = record {
    name = m.names _ h.name;
    xuid = m.xuids _ h.xuid;
    uuid = m.uuids _ h.uuid;
  }

  touches-Below :
      (a c : Aliases) (b : Binding) → Below a c → touches a b ≡ true → touches c b ≡ true
  touches-Below a c b m h =
      ground (arith, m.names (py.casefold b.gamertag), m.xuids b.xuid, m.uuids b.uuid)

  absorb-Holds : (b : Binding) (a : Aliases) → touches a b ≡ true → Holds (absorb py b a) b
  unfolding absorb
  absorb-Holds b a h = rw h (record { name = rw eq_refl; xuid = rw eq_refl; uuid = rw eq_refl })

  absorb_all-Holds :
      (xs ys : List Binding) (b : Binding) (a : Aliases)
      → touches a b ≡ true
      → Holds (absorb_all py (xs ++ b ∷ ys) a) b
  unfolding absorb_all
  absorb_all-Holds [] ys b a h = Holds-Below _ _ b (absorb_all-Below ys _) (absorb-Holds b a h)
  absorb_all-Holds (x ∷ xs) ys b a h =
      absorb_all-Holds xs ys b (absorb py x a) (touches-Below a _ b (absorb-Below x a) h)

  -- Two bindings that share their name, their XUID or their UUID.
  abbrev pub Linked : Binding → Binding → Type 0
  Linked b c =
      (py.casefold b.gamertag ≡ py.casefold c.gamertag) ⊎ (b.xuid ≡ c.xuid) ⊎ (b.uuid ≡ c.uuid)

  Linked-touches : (a : Aliases) (b c : Binding) → Linked b c → Holds a b → touches a c ≡ true
  Linked-touches a b c (inl e) h = rw (← e, h.name)
  Linked-touches a b c (inr (inl e)) h = rw (← e, h.xuid) (ground arith)
  Linked-touches a b c (inr (inr e)) h = rw (← e, h.uuid) (ground arith)

  -- The revocation of a binding: its XUID, its UUID and its GamerTag are denied.
  pub record Revoked (s : Policy) (b : Binding) : Type 0 where
    pub xuid : contains b.xuid s.denied_xuids ≡ true
    pub uuid : contains b.uuid s.denied_uuids ≡ true
    pub name : name_denied py b.gamertag s ≡ true

  contains-map_casefold :
      (k : String) (xs : List String)
      → contains k xs ≡ true
      → contains (py.casefold k) (map py.casefold xs) ≡ true
  contains-map_casefold k [] h = h
  contains-map_casefold k (x ∷ xs) h = elim (Bool-cases (x == k)) [
    | inl e ↦ rw ((eq_iff x k).0 e, eq_refl)
    | inr e ↦ rw (contains-map_casefold k xs (rw e at h)) (ground arith)
  ]

  contains-append_right :
      (k : String) (xs ys : List String)
      → contains k ys ≡ true
      → contains k (sorted_set (xs ++ ys)) ≡ true
  contains-append_right k xs ys h = rw (contains-sorted_set, any-append, h) (ground arith)

  contains-append_left :
      (k : String) (xs ys : List String)
      → contains k xs ≡ true
      → contains k (sorted_set (xs ++ ys)) ≡ true
  contains-append_left k xs ys h = rw (contains-sorted_set, any-append, h)

  Holds-Revoked :
      (a : Aliases) (s : Policy) (b : Binding) → Holds a b → Revoked (revoked_state py a s) b
  unfolding revoked_state name_denied
  Holds-Revoked a s b h = record {
    xuid = contains-append_right b.xuid s.denied_xuids a.xuids h.xuid;
    uuid = contains-append_right b.uuid s.denied_uuids a.uuids h.uuid;
    name =
        rw (← py.casefold_idem b.gamertag)
          (contains-map_casefold _ _ (contains-append_right _ s.denied_names a.names h.name));
  }

  -- Both passes over the bindings.
  abbrev resolved : List Binding → Aliases → Aliases
  resolved bs a = absorb_all py bs (absorb_all py bs a)

  remove_returned :
      (given : String) (known : List Binding) (configured : List String)
      (xuid player_uuid : Option String) (p : ControllerPolicy) {target : String} {start : Aliases}
      → controller_name py given ≡ ok target
      → selected py target xuid player_uuid ≡ ok start
      → (remove py given known configured xuid player_uuid p).1 ≡ ok tt
      → (remove py given known configured xuid player_uuid p).0.state
        ≡ revoked_state py (resolved (known ++ p.state.grants) start) p.state
  unfolding remove
  remove_returned given known configured xuid player_uuid p {target} {start} named chosen h =
      ground (
        arith,
        save_returned (revoked_state py (resolved (known ++ p.state.grants) start) p.state) p,
      )

  -- A linked pair of bindings, whichever stands first: the first pass takes the one that the sets
  -- touch, the second the other.
  resolved-Holds :
      (bs : List Binding) (start : Aliases) (b c : Binding) (ws xs ys zs : List Binding)
      → bs ≡ ws ++ b ∷ xs
      → bs ≡ ys ++ c ∷ zs
      → touches start b ≡ true
      → Linked b c
      → Holds (resolved bs start) c
  resolved-Holds bs start b c ws xs ys zs at_b at_c touched linked =
      let first : Holds (absorb_all py bs start) b =
        rw at_b (absorb_all-Holds ws xs b start touched) in
      let second : Holds (absorb_all py (ys ++ c ∷ zs) (absorb_all py bs start)) c =
        absorb_all-Holds ys zs c _ (Linked-touches _ b c linked first) in
      subst (λ l. Holds (absorb_all py l (absorb_all py bs start)) c) (sym at_c) second

  -- An account all of whose grants are denied by XUID has no grant.
  granted_among_denied :
      (x : String) (bs : List Binding) (s : Policy)
      → contains x s.denied_xuids ≡ true
      → granted_among py x bs s ≡ ok false
  unfolding granted_among denied
  granted_among_denied x [] s h = refl
  granted_among_denied x (b ∷ bs) s h = elim (eq-cases b.xuid x) [
    | inl e ↦ rw (granted_among_denied x bs s h, e, h, eq_refl)
    | inr e ↦ rw (e, granted_among_denied x bs s h)
  ]

  grants_xuid_denied :
      (x : String) (s : Policy) → contains x s.denied_xuids ≡ true → grants_xuid py x s ≡ ok false
  unfolding grants_xuid
  grants_xuid_denied x s h = ground (arith, granted_among_denied x s.grants s h)

  -- A removal that returned revokes every known account or grant that the target selects, and every
  -- one that shares its GamerTag, its XUID or its UUID: the XUID, the UUID and the GamerTag are
  -- denied, and the XUID has no grant any more.
  pub remove_revokes :
      (given : String) (known : List Binding) (configured : List String)
      (xuid player_uuid : Option String) (p : ControllerPolicy) {target : String} {start : Aliases}
      (b c : Binding) (ws xs ys zs : List Binding)
      → controller_name py given ≡ ok target
      → selected py target xuid player_uuid ≡ ok start
      → known ++ p.state.grants ≡ ws ++ b ∷ xs
      → known ++ p.state.grants ≡ ys ++ c ∷ zs
      → touches start b ≡ true
      → Linked b c
      → (remove py given known configured xuid player_uuid p).1 ≡ ok tt
      → let s' = (remove py given known configured xuid player_uuid p).0.state in
        Revoked s' c × (grants_xuid py c.xuid s' ≡ ok false)
  remove_revokes given known configured xuid player_uuid p {start = start} b c ws xs ys zs named
        chosen at_b at_c touched linked returned =
      let revoked =
        Holds-Revoked _ p.state c (
          resolved-Holds (known ++ p.state.grants) start b c ws xs ys zs at_b at_c touched
            linked) in
      rw (remove_returned given known configured xuid player_uuid p named chosen returned)
        (revoked, grants_xuid_denied c.xuid _ revoked.xuid)
