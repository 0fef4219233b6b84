-- ===== src/LevelDat/Flags.antt =====
-- A world whose summary names no unsafe flag has none of them set.
use endbot.Prelude.{
  ◌≡◌, refl, sym, ap, subst, ◌∙◌, Bool, true, false, Option, none, some, List, [], ◌∷◌, ◌++◌,
  String, ℤ, Dict, lookup, Option-cases, inl, inr,
}
use endbot.LevelDat.{Nbt}
use endbot.LevelDat.Summary.{
  is_truthy, flag, root_lookup, experiments_of, experiment_flag, named_if, unsafe_flags, summary_of,
}

append-eq-nil : (xs ys : List String) → xs ++ ys ≡ [] → (xs ≡ []) × (ys ≡ [])
append-eq-nil [] ys e = (refl, e)
append-eq-nil (x ∷ xs) ys e = absurd (cc)

root_lookup-found :
    (root : Dict Nbt) (name : String) (v : Nbt)
    → lookup name root ≡ some v
    → root_lookup root name ≡ some v
unfolding root_lookup
root_lookup-found root name v e = rw (root_lookup, e)

experiment_flag-found :
    (root : Dict Nbt) (name : String) (v : Nbt)
    → lookup name (experiments_of root) ≡ some v
    → experiment_flag root name ≡ flag (some v)
unfolding experiment_flag
experiment_flag-found root name v e = rw (experiment_flag, e)

-- A flag that is there and truthy.
abbrev pub is_set : Option Nbt → Bool
is_set none = false
is_set (some v) = is_truthy v

unnamed : (name : String) (b : Bool) → named_if name (some b) ≡ [] → b ≡ false
unfolding named_if
unnamed name true e = absurd (cc)
unnamed name false e = refl

named_if-eq-nil : (name : String) (o : Option Nbt) → named_if name (flag o) ≡ [] → is_set o ≡ false
unfolding flag
named_if-eq-nil name none e = refl
named_if-eq-nil name (some v) e = unnamed name (is_truthy v) e

-- What is not named is not set.
root_not_set :
    (root : Dict Nbt) (name : String)
    → named_if name (flag (root_lookup root name)) ≡ []
    → is_set (lookup name root) ≡ false
unfolding root_lookup
root_not_set root name e = elim (Option-cases (lookup name root)) [
  | inl absent ↦ rw absent
  | inr (v, found) ↦
      subst (λ o. is_set o ≡ false) (sym found)
        (named_if-eq-nil name (some v)
          (sym (ap (λ o. named_if name (flag o)) (root_lookup-found root name v found)) ∙ e))
]

experiment_not_set :
    (root : Dict Nbt) (name : String)
    → named_if name (experiment_flag root name) ≡ []
    → is_set (lookup name (experiments_of root)) ≡ false
experiment_not_set root name e = elim (Option-cases (lookup name (experiments_of root))) [
  | inl absent ↦ rw absent
  | inr (v, found) ↦
      subst (λ o. is_set o ≡ false) (sym found)
        (named_if-eq-nil name (some v)
          (sym (ap (named_if name) (experiment_flag-found root name v found)) ∙ e))
]

-- If the summary of a root compound names no unsafe flag, then neither of the two flags of the root is
-- there and truthy, nor are the two of its `experiments`.
pub unsafe_flags-eq-nil :
    (version : ℤ) (root : Dict Nbt)
    → unsafe_flags (summary_of version root) ≡ []
    → (is_set (lookup "hasBeenLoadedInCreative" root) ≡ false)
      × (is_set (lookup "commandsEnabled" root) ≡ false)
      × (is_set (lookup "experiments_ever_used" (experiments_of root)) ≡ false)
      × (is_set (lookup "saved_with_toggled_experiments" (experiments_of root)) ≡ false)
unfolding unsafe_flags summary_of
unsafe_flags-eq-nil version root e =
    let (e3, toggled) = append-eq-nil _ _ e in
    let (e2, used) = append-eq-nil _ _ e3 in
    let (creative, commands) = append-eq-nil _ _ e2 in
    (
      root_not_set root "hasBeenLoadedInCreative" creative,
      root_not_set root "commandsEnabled" commands,
      experiment_not_set root "experiments_ever_used" used,
      experiment_not_set root "saved_with_toggled_experiments" toggled,
    )
