-- ===== src/Enrollment/Permanence.antt =====
-- A binding is permanent: the XUID keeps control, and the GamerTag is taken.
use mathlib.Core.List.{map-append}
use endbot.Prelude.{
  is_some, ◌≡◌, refl, sym, ap, ◌∙◌, inl, inr, ◌≢◌, Bool, true, false, Option, none, some, List, [],
  ◌∷◌, ◌++◌, String, ◌==◌, any, arith, eq_iff, eq_refl, any-append, ne→eq_false, Dict, lookup,
  has_key, insert, insert_absent, lookup-insert, ok, PyText, Bool-cases, Option-cases, find_first,
  overwrite_document, StoreFile, attempt_keeps, or_raise, value_error,
}
use endbot.Enrollment.{
  Binding, is_xuid, ControllerEnrollment, values, bindings, bind_new, bindings_document, authorize,
}

find_first_holds {ℓ} :
    {A : Type ℓ} (p : A → Bool) (xs : List A) {x : A} → find_first p xs ≡ some x → p x ≡ true
find_first_holds p [] h = absurd (ground arith)
find_first_holds p (y ∷ ys) h = elim (Bool-cases (p y)) [
  | inl e ↦ ground arith
  | inr e ↦ find_first_holds p ys (rw e at h)
]

is_some-eq-false {ℓ} : {A : Type ℓ} (o : Option A) → is_some o ≡ false → o ≡ none
is_some-eq-false none h = refl
is_some-eq-false (some a) h = absurd (ground arith)

values-insert_absent :
    (k : String) (b : Binding) (d : Dict Binding)
    → has_key k d ≡ false
    → values (insert k b d) ≡ values d ++ b ∷ []
values-insert_absent k b d h =
    rw (insert_absent k b d (is_some-eq-false (lookup k d) h)) (map-append _ d (_ ∷ []))

module _ (py : PyText) (now name xuid player_uuid : String) (e : ControllerEnrollment) where
  -- What an authorisation that bound has found and stored.
  pub record Bound (b : Binding) (e' : ControllerEnrollment) : Type 0 where
    pub own : b.xuid ≡ xuid
    pub genuine : is_xuid xuid ≡ true
    pub unbound : any (λ c. c.xuid == xuid) (bindings e) ≡ false
    pub free : has_key (py.casefold name) e.bindings_by_name ≡ false
    pub stored : e'.bindings_by_name ≡ insert (py.casefold name) b e.bindings_by_name
    pub tags : e'.gamertags ≡ e.gamertags

  authorize-Bound :
      {b : Binding}
      → (authorize py now name xuid player_uuid e).1 ≡ ok (true, some b)
      → Bound b (authorize py now name xuid player_uuid e).0
  unfolding authorize bind_new overwrite_document
  authorize-Bound {b} h =
      elim (Option-cases (find_first (λ tag. py.casefold tag == py.casefold name) e.gamertags)) [
        | inl x ↦ absurd (ground arith)
        | inr (tag, x) ↦
            let same : py.casefold tag ≡ py.casefold name =
              (eq_iff _ _).0 (find_first_holds _ e.gamertags x) in
            ground arith
      ]

module _ (py : PyText) (e : ControllerEnrollment) (now name xuid player_uuid : String) (b : Binding)
    (e' : ControllerEnrollment) (bound : Bound py now name xuid player_uuid e b e') where
  bound_values : bindings e' ≡ bindings e ++ b ∷ []
  unfolding bindings
  bound_values = ap values bound.stored ∙ values-insert_absent _ b e.bindings_by_name bound.free

  taken :
      (now' name' other uuid' : String)
      → py.casefold name' ≡ py.casefold name
      → other ≢ xuid
      → any (λ c. c.xuid == other) (bindings e) ≡ false
      → authorize py now' name' other uuid' e' ≡ (e', ok (false, none))
  unfolding authorize
  taken now' name' other uuid' same differs absent =
      let unbound : any (λ c. c.xuid == other) (bindings e') ≡ false = rw (
        bound_values,
        any-append,
        absent,
        bound.own,
        ne→eq_false xuid other (λ p. differs (sym p)),
      ) in
      let free : has_key (py.casefold name') e'.bindings_by_name ≡ true =
        rw (same, bound.stored, lookup-insert, eq_refl) in
      elim (Bool-cases (is_xuid other)) [ inl x ↦ rw (x, unbound, free) | inr x ↦ rw x ]

module _ (py : PyText) where
  -- Joins, each with whatever name, XUID and player UUID.
  pub data Later (e : ControllerEnrollment) : ControllerEnrollment → Type 0 where
    unchanged : Later e e
    joined :
        (now name xuid player_uuid : String) (e' : ControllerEnrollment)
        → Later e e'
        → Later e (authorize py now name xuid player_uuid e').0

  HasXuid : String → ControllerEnrollment → Type 0
  HasXuid xuid e = any (λ c. c.xuid == xuid) (bindings e) ≡ true

  bind_new-HasXuid :
      (x now tag xuid player_uuid : String) (f : StoreFile) (e : ControllerEnrollment)
      → has_key (py.casefold tag) e.bindings_by_name ≡ false
      → HasXuid x e
      → HasXuid x (bind_new py now tag xuid player_uuid f e).0
  unfolding bind_new HasXuid bindings
  bind_new-HasXuid x now tag xuid player_uuid f e free h =
      attempt_keeps (HasXuid x) (or_raise (py.uuid player_uuid) value_error) e _ h λ uuid _.
        let b : Binding = record { gamertag = tag; xuid = xuid; uuid = uuid; bound_at = now } in
        let updated = insert (py.casefold tag) b e.bindings_by_name in
        let (f', r) = overwrite_document (bindings_document (values updated)) f in
        attempt_keeps (HasXuid x) r (record e { bindings_path = some f' }) _ h
          λ _ _.
            ap (any (λ c. c.xuid == x))
              (values-insert_absent (py.casefold tag) b e.bindings_by_name free)
            ∙ rw (any-append, h) refl

  authorize-HasXuid :
      (x now name xuid player_uuid : String) (e : ControllerEnrollment)
      → HasXuid x e
      → HasXuid x (authorize py now name xuid player_uuid e).0
  unfolding authorize HasXuid
  authorize-HasXuid x now name xuid player_uuid e h = elim (Option-cases e.bindings_path) [
    | inl no_path ↦ rw no_path (ground arith)
    | inr (f, path) ↦
        elim (Option-cases (find_first (λ tag. py.casefold tag == py.casefold name) e.gamertags)) [
          | inl no_tag ↦ rw (path, no_tag) (ground arith)
          | inr (tag, listed) ↦
              let same : py.casefold tag ≡ py.casefold name =
                (eq_iff _ _).0 (find_first_holds _ e.gamertags listed) in
              elim (Bool-cases (has_key (py.casefold name) e.bindings_by_name)) [
                | inl has ↦ rw (path, listed, has) (ground arith)
                | inr free ↦
                    let free' : has_key (py.casefold tag) e.bindings_by_name ≡ false =
                      ap (λ k. has_key k e.bindings_by_name) same ∙ free in
                    let bound = bind_new-HasXuid x now tag xuid player_uuid f e free' h in
                    rw (path, listed) (ground (arith, bound))
              ]
        ]
  ]

  Later-HasXuid :
      (x : String) {e e' : ControllerEnrollment} → HasXuid x e → Later e e' → HasXuid x e'
  Later-HasXuid x h unchanged = h
  Later-HasXuid x h (joined now name xuid player_uuid e' r) =
      authorize-HasXuid x now name xuid player_uuid e' (Later-HasXuid x h r)

  Bound-HasXuid :
      (now name xuid player_uuid : String) (e : ControllerEnrollment) (b : Binding)
      (e' : ControllerEnrollment)
      → Bound py now name xuid player_uuid e b e'
      → HasXuid xuid e'
  unfolding HasXuid
  Bound-HasXuid now name xuid player_uuid e b e' bound =
      ap (any (λ c. c.xuid == xuid)) (bound_values py e now name xuid player_uuid b e' bound)
      ∙ rw (any-append, bound.own, bound.unbound, eq_refl) refl

  known :
      (now name xuid player_uuid : String) (e : ControllerEnrollment)
      → is_xuid xuid ≡ true
      → HasXuid xuid e
      → authorize py now name xuid player_uuid e ≡ (e, ok (true, none))
  unfolding authorize HasXuid
  known now name xuid player_uuid e genuine h = rw (genuine, h) refl

-- A new binding is permanent until a restart. A binding is made only for an authentic XUID and carries the XUID that
-- joined, and after it and whatever joins come next, with any names, XUIDs and player UUIDs, a join with that XUID is
-- authorized, whatever its name and player UUID, and binds nothing.
pub authorize_permanent :
    (py : PyText) (now name xuid player_uuid : String) (e e' : ControllerEnrollment) {b : Binding}
    (now' name' uuid' : String)
    → (authorize py now name xuid player_uuid e).1 ≡ ok (true, some b)
    → Later py (authorize py now name xuid player_uuid e).0 e'
    → (is_xuid xuid ≡ true)
      × (b.xuid ≡ xuid)
      × (authorize py now' name' xuid uuid' e' ≡ (e', ok (true, none)))
authorize_permanent py now name xuid player_uuid e e' {b} now' name' uuid' h later =
    let bound = authorize-Bound py now name xuid player_uuid e h in
    let kept =
      Later-HasXuid py xuid (Bound-HasXuid py now name xuid player_uuid e b _ bound) later in
    (bound.genuine, bound.own, known py now' name' xuid uuid' e' bound.genuine kept)

-- Once a call has bound an XUID under a GamerTag, a join under the same GamerTag, in any case, with
-- another XUID that has no binding is refused, and binds nothing.
pub authorize_taken :
    (py : PyText) (now name xuid player_uuid : String) (e : ControllerEnrollment) {b : Binding}
    (now' name' other uuid' : String)
    → (authorize py now name xuid player_uuid e).1 ≡ ok (true, some b)
    → py.casefold name' ≡ py.casefold name
    → other ≢ xuid
    → any (λ c. c.xuid == other) (bindings e) ≡ false
    → let e' = (authorize py now name xuid player_uuid e).0 in
      authorize py now' name' other uuid' e' ≡ (e', ok (false, none))
authorize_taken py now name xuid player_uuid e {b} now' name' other uuid' h same differs absent =
    taken py e now name xuid player_uuid b _ (authorize-Bound py now name xuid player_uuid e h) now'
      name' other uuid' same differs absent
