-- ===== src/Groups/Changes.antt =====
-- The lists of groups that the methods build are as the file format wants them.
use endbot.Prelude.{
  ◌≡◌, refl, sym, ap, subst, ◌∙◌, inl, inr, Bool, true, false, ◌||◌, some, List, [], ◌∷◌, ◌++◌, map,
  String, ◌==◌, arith, eq_refl, eq_iff, any, filter, find_first, contains, has_repeat,
  has_repeat-snoc, has_repeat-filter, All, All-append, All-filter, if◌then◌else◌, PyText,
  Bool-cases,
}
use mathlib.Core.List.{map-append}
use endbot.Groups.{Group, key_of, is_named}
use endbot.Groups.Written.{IsGroup, AreGroups}

contains-map :
    (f : Group → String) (k : String) (gs : List Group)
    → contains k (map f gs) ≡ any (λ g. f g == k) gs
contains-map f k [] = refl
contains-map f k (g ∷ gs) = ap (◌||◌ (f g == k)) (contains-map f k gs)

module _ (py : PyText) where
  pub AreGroups-snoc :
      (gs : List Group) (g : Group)
      → AreGroups py gs
      → IsGroup py g
      → any (is_named py g.name) gs ≡ false
      → contains g.identity (map (λ h. h.identity) gs) ≡ false
      → AreGroups py (gs ++ g ∷ [])
  AreGroups-snoc gs g v h unnamed fresh = record {
    each = All-append (IsGroup py) gs (g ∷ []) v.each (h, tt);
    names_differ = rw map-append (
        has_repeat-snoc (map (key_of py) gs) (key_of py g) v.names_differ
          (contains-map (key_of py) (key_of py g) gs ∙ unnamed));
    identities_differ =
        rw map-append
          (has_repeat-snoc (map (λ h. h.identity) gs) g.identity v.identities_differ fresh);
  }

  pub AreGroups-filter :
      (p : Group → Bool) (gs : List Group) → AreGroups py gs → AreGroups py (filter p gs)
  AreGroups-filter p gs v = record {
    each = All-filter (IsGroup py) p gs v.each;
    names_differ = has_repeat-filter (key_of py) p gs v.names_differ;
    identities_differ = has_repeat-filter (λ g. g.identity) p gs v.identities_differ;
  }

  unfoldable pub put : Group → Group → Group
  put g e = if e.identity == g.identity then g else e

  put-IsGroup :
      (g : Group) (gs : List Group)
      → IsGroup py g
      → All (IsGroup py) gs
      → All (IsGroup py) (map (put g) gs)
  unfolding put
  put-IsGroup g [] k h = tt
  put-IsGroup g (e ∷ gs) k h = (ground arith, put-IsGroup g gs k h.1)

  put-absent :
      (g : Group) (gs : List Group)
      → contains g.identity (map (λ h. h.identity) gs) ≡ false
      → map (put g) gs ≡ gs
  unfolding put
  put-absent g [] h = refl
  put-absent g (e ∷ gs) h = ground (arith, put-absent g gs)

  put-identities :
      (g : Group) (gs : List Group)
      → map (λ h. h.identity) (map (put g) gs) ≡ map (λ h. h.identity) gs
  unfolding put
  put-identities g [] = refl
  put-identities g (e ∷ gs) = ground (arith, put-identities g gs, eq_iff e.identity g.identity)

  contains-found :
      (p : Group → Bool) (gs : List Group) {g : Group}
      → find_first p gs ≡ some g
      → contains g.identity (map (λ h. h.identity) gs) ≡ true
  contains-found p [] e = absurd (cc)
  contains-found p (x ∷ gs) {g} e = elim (Bool-cases (p x)) [
    | inl here ↦
        let same : x ≡ g = ground arith in
        subst (λ y. contains y.identity (map (λ h. h.identity) (x ∷ gs)) ≡ true) same (rw eq_refl)
    | inr there ↦ ground (arith, contains-found p gs {g = g} (sym (rw there) ∙ e))
  ]

  -- Writing a group back under its own name and identity keeps the names.
  put-names :
      (p : Group → Bool) (g g' : Group) (gs : List Group)
      → find_first p gs ≡ some g
      → has_repeat (map (λ h. h.identity) gs) ≡ false
      → g'.identity ≡ g.identity
      → g'.name ≡ g.name
      → map (key_of py) (map (put g') gs) ≡ map (key_of py) gs
  unfolding put
  put-names p g g' [] e d i n = refl
  put-names p g g' (x ∷ gs) e d i n = elim (Bool-cases (p x)) [
    | inl here ↦
        let same : x ≡ g = ground arith in
        ground (arith, put-absent g' gs, eq_iff x.identity g'.identity)
    | inr there ↦
        let found : find_first p gs ≡ some g = sym (rw there) ∙ e in
        ground (
          arith,
          contains-found p gs {g = g} found,
          eq_iff x.identity g'.identity,
          put-names p g g' gs found,
        )
  ]

  pub replace-AreGroups :
      (p : Group → Bool) (g g' : Group) (gs : List Group)
      → AreGroups py gs
      → find_first p gs ≡ some g
      → g'.identity ≡ g.identity
      → g'.name ≡ g.name
      → IsGroup py g'
      → AreGroups py (map (put g') gs)
  replace-AreGroups p g g' gs v e i n h = record {
    each = put-IsGroup g' gs h v.each;
    names_differ = ap has_repeat (put-names p g g' gs e v.identities_differ i n) ∙ v.names_differ;
    identities_differ = ap has_repeat (put-identities g' gs) ∙ v.identities_differ;
  }
