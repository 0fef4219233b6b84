-- ===== src/Prelude/Dicts.antt =====
-- Python's `dict` with `str` keys, as an association list in insertion order.
use Prim.Native.String.{String}
use mathlib.Core.Path.{◌≡◌, refl, ap, subst₂}
use mathlib.Core.Bool.{Bool, true, false}
use mathlib.Core.List.{List, [], ◌∷◌, ◌++◌}
use mathlib.Core.Option.{Option, none, some}
use native.Mathlib.Omega.{arith}
use text.Mathlib.Text.{◌==◌}
use text.Mathlib.TextEquality.{eq_iff}
use text.Mathlib.TextPositions.{eq_refl}
use mathlib.Core.Logic.{◌≢◌, inl, inr}
use endbot.Prelude.Tests.{if◌then◌else◌, str_leb, str_leb_refl, eq-cases, eq_comm, Bool-cases}

abbrev pub is_some {ℓ} : {A : Type ℓ} → Option A → Bool
is_some none = false
is_some (some _) = true

abbrev pub Dict {ℓ} : Type ℓ → Type ℓ
Dict V = List (String × V)

module _ {ℓ} {V : Type ℓ} where
  -- `d.get(k)`
  unfoldable pub lookup : String → Dict V → Option V
  lookup k [] = none
  lookup k ((j, v) ∷ d) = if j == k then some v else lookup k d

  -- `k in d`
  abbrev pub has_key : String → Dict V → Bool
  has_key k d = is_some (lookup k d)

  -- `d[k] = v`
  unfoldable pub insert : String → V → Dict V → Dict V
  insert k v [] = (k, v) ∷ []
  insert k v ((j, w) ∷ d) = let rest = insert k v d in if j == k then (j, v) ∷ d else (j, w) ∷ rest

  -- `d.pop(k, None)`
  unfoldable pub erase : String → Dict V → Dict V
  erase k [] = []
  erase k ((j, w) ∷ d) = let rest = erase k d in if j == k then rest else (j, w) ∷ rest

  -- `dict(sorted(d.items()))`
  place_item : String → V → Dict V → Dict V
  place_item k v [] = (k, v) ∷ []
  place_item k v ((j, w) ∷ d) =
      let rest = place_item k v d in if str_leb k j then (k, v) ∷ (j, w) ∷ d else (j, w) ∷ rest

  unfoldable pub sort_items : Dict V → Dict V
  unfolding place_item
  sort_items [] = []
  sort_items ((k, v) ∷ d) = place_item k v (sort_items d)

  pub lookup-insert :
      (k j : String) (v : V) (d : Dict V)
      → lookup j (insert k v d) ≡ (if k == j then some v else lookup j d)
  unfolding lookup insert
  lookup-insert k j v [] = refl
  lookup-insert k j v ((i, w) ∷ d) =
      ground (arith, eq_iff k j, eq_iff i k, eq_iff i j, lookup-insert k j v d)

  pub lookup-erase :
      (k j : String) (d : Dict V) → lookup j (erase k d) ≡ (if k == j then none else lookup j d)
  unfolding lookup erase
  lookup-erase k j [] = ground arith
  lookup-erase k j ((i, w) ∷ d) =
      ground (arith, eq_iff k j, eq_iff i k, eq_iff i j, lookup-erase k j d)

  lookup-place_item :
      (k j : String) (v : V) (d : Dict V)
      → lookup j (place_item k v d) ≡ (if k == j then some v else lookup j d)
  unfolding lookup place_item
  lookup-place_item k j v [] = refl
  lookup-place_item k j v ((i, w) ∷ d) =
      ground (arith, str_leb_refl k, eq_iff k j, eq_iff i k, eq_iff i j, lookup-place_item k j v d)

  pub lookup-sort_items : (j : String) (d : Dict V) → lookup j (sort_items d) ≡ lookup j d
  unfolding lookup sort_items
  lookup-sort_items j [] = refl
  lookup-sort_items j ((k, v) ∷ d) =
      ground (arith, lookup-place_item k j v (sort_items d), lookup-sort_items j d)

module _ {ℓ} {V : Type ℓ} where
  -- A new key goes to the end.
  pub insert_absent :
      (k : String) (v : V) (d : Dict V) → lookup k d ≡ none → insert k v d ≡ d ++ (k, v) ∷ []
  unfolding lookup insert
  insert_absent k v [] h = refl
  insert_absent k v ((j, w) ∷ d) h = elim (Bool-cases (j == k)) [
    | inl e ↦ absurd (ground arith)
    | inr e ↦ rw e (ap (◌∷◌ (j, w)) (insert_absent k v d (rw e at h)))
  ]

  pub lookup-middle : (k : String) (v : V) (c d : Dict V) → lookup k (c ++ (k, v) ∷ d) ≢ none
  unfolding lookup
  lookup-middle k v [] d = ground (arith, eq_refl k)
  lookup-middle k v ((j, w) ∷ c) d = ground (arith, lookup-middle k v c d)

module _ {ℓ κ} {V : Type ℓ} (P : String → V → Type κ) where
  -- Every entry satisfies `P`, and no key stands twice.
  abbrev pub Entries : Dict V → Type (ℓ ⊔ κ)
  Entries [] = Unit
  Entries ((k, v) ∷ d) = P k v × (lookup k d ≡ none) × Entries d

  pub Entries-insert :
      (k : String) (v : V) (d : Dict V) → P k v → Entries d → Entries (insert k v d)
  unfolding lookup insert
  Entries-insert k v [] p h = (p, refl, tt)
  Entries-insert k v ((j, w) ∷ d) p h = elim (eq-cases j k) [
    | inl e ↦ rw (e, eq_refl) (p, rw (← e) h.1, h.2)
    | inr ne ↦
        rw ne (h.0, rw (lookup-insert k j v d, eq_comm k j, ne) h.1, Entries-insert k v d p h.2)
  ]

  pub Entries-erase : (k : String) (d : Dict V) → Entries d → Entries (erase k d)
  unfolding erase
  Entries-erase k [] h = tt
  Entries-erase k ((j, w) ∷ d) h = ground (arith, Entries-erase k d h.2, lookup-erase k j d)

  Entries-place_item :
      (k : String) (v : V) (d : Dict V)
      → P k v
      → lookup k d ≡ none
      → Entries d
      → Entries (place_item k v d)
  unfolding lookup place_item
  Entries-place_item k v [] p n h = (p, refl, tt)
  Entries-place_item k v ((j, w) ∷ d) p n h =
      ground
        (arith, Entries-place_item k v d p, lookup-place_item k j v d, eq_iff j k, eq_iff k j, h.2)

  pub Entries-sort_items : (d : Dict V) → Entries d → Entries (sort_items d)
  unfolding sort_items
  Entries-sort_items [] h = tt
  Entries-sort_items ((k, v) ∷ d) h =
      Entries-place_item k v (sort_items d) h.0 (rw lookup-sort_items h.1)
        (Entries-sort_items d h.2)

  pub Entries-lookup : (k : String) (v : V) (d : Dict V) → Entries d → lookup k d ≡ some v → P k v
  unfolding lookup
  Entries-lookup k v [] h e = absurd (cc)
  Entries-lookup k v ((j, w) ∷ d) h e = elim (eq-cases j k) [
    | inl same ↦ let value : w ≡ v = ground (arith, eq_iff j k) in subst₂ P same value h.0
    | inr ne ↦ Entries-lookup k v d h.2 (rw ne at e)
  ]

  -- In a table without repeated keys, a key is absent from what stands before it.
  pub Entries-before :
      (k : String) (v : V) (c d : Dict V) → Entries (c ++ (k, v) ∷ d) → lookup k c ≡ none
  unfolding lookup
  Entries-before k v [] d h = refl
  Entries-before k v ((j, w) ∷ c) d h = elim (eq-cases j k) [
    | inl e ↦ absurd (lookup-middle k v c d (rw e at h.1))
    | inr e ↦ rw e (Entries-before k v c d h.2)
  ]
