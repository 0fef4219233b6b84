-- ===== src/Params/Placing.antt =====
-- Which parameter each argument of a run is for.
use endbot.Prelude.{
  ◌≡◌, refl, sym, ap, ◌∙◌, subst, inl, inr, Option, none, some, List, [], ◌∷◌, ◌++◌, String, arith,
  length, ◌≤◌, eq_refl, eq-cases, Dict, lookup, insert, has_key, lookup-insert, Json, str, ok,
  ok_inj, bind_returned, Bool-cases, Option-cases, Entries, append_assoc, append-nil,
}
use endbot.Params.{named_in, Split, split_value, split_values, zip_names, update}

module _ {V : Type 0} (schema : Dict V) where
  -- The table gives each value to a parameter: a text `name=value` with a declared name gives the text
  -- behind the sign to that name, and the other values go in order to the first of the names.
  pub data AreAssigned (d : Dict Json) : Dict V → List Json → Type 0 where
    all_given : (rest : Dict V) → AreAssigned d rest []
    by_name :
        (v : Json) (name text : String) (rest : Dict V) (vs : List Json)
        → named_in schema v ≡ some (name, text)
        → lookup name d ≡ some (str text)
        → AreAssigned d rest vs
        → AreAssigned d rest (v ∷ vs)
    by_place :
        (v : Json) (name : String) (s : V) (rest : Dict V) (vs : List Json)
        → named_in schema v ≡ none
        → lookup name d ≡ some v
        → AreAssigned d rest vs
        → AreAssigned d ((name, s) ∷ rest) (v ∷ vs)

  -- The values are those that name a parameter, which have it, and the positional ones.
  pub data Parted (named : Dict Json) : List Json → List Json → Type 0 where
    none_left : Parted named [] []
    naming :
        (v : Json) (name text : String) (vs more : List Json)
        → named_in schema v ≡ some (name, text)
        → lookup name named ≡ some (str text)
        → Parted named vs more
        → Parted named (v ∷ vs) more
    placed :
        (v : Json) (vs more : List Json)
        → named_in schema v ≡ none
        → Parted named vs more
        → Parted named (v ∷ vs) (v ∷ more)

  pub record Splitting (s s' : Split) (vs : List Json) : Type 0 where
    pub more : List Json
    pub appended : s'.0 ≡ s.0 ++ more
    pub parted : Parted s'.1 vs more

  split_value-keeps :
      (v : Json) (k : String) (x : Json) (positional : List Json) (named : Dict Json)
      (o : Option (String × String)) (s' : Split)
      → split_value v (positional, named) o ≡ ok s'
      → lookup k named ≡ some x
      → lookup k s'.1 ≡ some x
  unfolding split_value lookup
  split_value-keeps v k x positional named (some (name, text)) s' h there =
      elim (Bool-cases (has_key name named)) [
        | inl twice ↦ absurd (ground arith)
        | inr new ↦
            let same : (positional, insert name (str text) named) ≡ s' =
              ok_inj _ s' (sym (rw (split_value, new) refl) ∙ h) in
            elim (eq-cases name k) [
              | inl own ↦ absurd (ground arith)
              | inr other ↦
                  sym (ap (λ s. lookup k s.1) same)
                  ∙ lookup-insert name k (str text) named
                  ∙ rw other there
            ]
      ]
  split_value-keeps v k x positional [] none s' h there = absurd (ground arith)
  split_value-keeps v k x positional (e ∷ named) none s' h there = absurd (cc)

  split_values-keeps :
      (vs : List Json) (k : String) (x : Json) (s s' : Split)
      → split_values schema s vs ≡ ok s'
      → lookup k s.1 ≡ some x
      → lookup k s'.1 ≡ some x
  unfolding split_values
  split_values-keeps [] k x s s' h there = ap (λ o. lookup k o.1) (sym (ok_inj s s' h)) ∙ there
  split_values-keeps (v ∷ vs) k x s s' h there =
      let (s1, first, rest) = bind_returned (split_value v s (named_in schema v)) _ h in
      split_values-keeps vs k x s1 s' rest
        (split_value-keeps v k x s.0 s.1 (named_in schema v) s1 first there)

  split_value_naming :
      (v : Json) (name text : String) (positional : List Json) (named : Dict Json) (s' : Split)
      → split_value v (positional, named) (some (name, text)) ≡ ok s'
      → (s'.0 ≡ positional) × (lookup name s'.1 ≡ some (str text))
  unfolding split_value
  split_value_naming v name text positional named s' h = elim (Bool-cases (has_key name named)) [
    | inl twice ↦ absurd (ground arith)
    | inr new ↦
        let same : (positional, insert name (str text) named) ≡ s' =
          ok_inj _ s' (sym (rw (split_value, new) refl) ∙ h) in
        (
          sym (ap (λ s. s.0) same),
          sym (ap (λ s. lookup name s.1) same)
              ∙ lookup-insert name name (str text) named
              ∙ rw eq_refl refl,
        )
  ]

  split_value_placed :
      (v : Json) (positional : List Json) (named : Dict Json) (s' : Split)
      → split_value v (positional, named) none ≡ ok s'
      → s'.0 ≡ positional ++ v ∷ []
  unfolding split_value
  split_value_placed v positional [] s' h = sym (ap (λ s. s.0) (ok_inj _ s' h))
  split_value_placed v positional (e ∷ named) s' h = absurd (cc)

  pub split_values-Splitting :
      (vs : List Json) (s s' : Split) → split_values schema s vs ≡ ok s' → Splitting s s' vs
  unfolding split_values
  split_values-Splitting [] s s' h = record {
    more = [];
    appended = ap (λ o. o.0) (sym (ok_inj s s' h)) ∙ sym (append-nil s.0);
    parted = none_left;
  }
  split_values-Splitting (v ∷ vs) s s' h =
      let (s1, first, rest) = bind_returned (split_value v s (named_in schema v)) _ h in
      let k = split_values-Splitting vs s1 s' rest in
      elim (Option-cases (named_in schema v)) [
        | inl plain ↦
            let step = split_value_placed v s.0 s.1 s1 (sym (rw plain refl) ∙ first) in
            record {
              more = v ∷ k.more;
              appended = k.appended ∙ ap (λ x. x ++ k.more) step ∙ append_assoc s.0 (v ∷ []) k.more;
              parted = placed v vs k.more plain k.parted;
            }
        | inr ((name, text), names) ↦
            let step = split_value_naming v name text s.0 s.1 s1 (sym (rw names refl) ∙ first) in
            record {
              more = k.more;
              appended = k.appended ∙ ap (λ x. x ++ k.more) step.0;
              parted =
                  naming v name text vs k.more names
                    (split_values-keeps vs name (str text) s1 s' rest step.1) k.parted;
            }
      ]

pub zip_names-absent :
    {V : Type 0} (k : String) (schema : Dict V) (vs : List Json)
    → lookup k schema ≡ none
    → lookup k (zip_names schema vs) ≡ none
unfolding zip_names lookup
zip_names-absent k [] vs h = refl
zip_names-absent k (e ∷ schema) [] h = refl
zip_names-absent k ((j, s) ∷ schema) (v ∷ vs) h = ground (arith, zip_names-absent k schema vs)

module _ {V : Type 0} (schema : Dict V) (d named : Dict Json)
    (kept : (k : String) (x : Json) → lookup k named ≡ some x → lookup k d ≡ some x) where
  -- A table that has what the positional and the named values give.
  pub Parted-AreAssigned :
      (rest : Dict V) {vs more : List Json}
      → Entries (λ k s. Unit {0}) rest
      → length more ≤ length rest
      → ((k : String) (x : Json) → lookup k (zip_names rest more) ≡ some x → lookup k d ≡ some x)
      → Parted schema named vs more
      → AreAssigned schema d rest vs
  unfolding zip_names lookup
  Parted-AreAssigned rest distinct few there none_left = all_given rest
  Parted-AreAssigned rest distinct few there (naming v name text vs more names its p) =
      by_name v name text rest vs names (kept name (str text) its)
        (Parted-AreAssigned rest distinct few there p)
  Parted-AreAssigned [] distinct few there (placed v vs more plain p) = absurd (omega arith)
  Parted-AreAssigned ((k, s) ∷ rest) distinct few there (placed v vs more plain p) =
      by_place v k s rest vs plain (there k v (rw eq_refl refl)) (
        Parted-AreAssigned rest distinct.2 (omega arith)
          (λ j x found. elim (eq-cases k j) [
            | inl same ↦
                let gone = zip_names-absent k rest more distinct.1 in
                let gone' : lookup j (zip_names rest more) ≡ none =
                  subst (λ i. lookup i (zip_names rest more) ≡ none) same gone in
                absurd (ground arith)
            | inr other ↦ there j x (rw other found)
          ])
          p)

-- What is not among the keys of the update stays.
pub lookup-update_old :
    (d e : Dict Json) (k : String) → lookup k e ≡ none → lookup k (update d e) ≡ lookup k d
unfolding update lookup
lookup-update_old d [] k h = refl
lookup-update_old d ((i, v) ∷ e) k h = elim (eq-cases i k) [
  | inl same ↦
      let here : ◌≡◌ {A = Option Json} (some v) none = rw (same, eq_refl) at h in absurd (cc)
  | inr other ↦
      lookup-update_old (insert i v d) e k (rw other at h) ∙ lookup-insert i k v d ∙ rw other refl
]

-- What a table without a repeated key is updated with is in the result.
pub lookup-update_new :
    (P : String → Json → Type 0) (d e : Dict Json) (k : String) (x : Json)
    → Entries P e
    → lookup k e ≡ some x
    → lookup k (update d e) ≡ some x
unfolding update lookup
lookup-update_new P d [] k x h there = absurd (ground arith)
lookup-update_new P d ((i, v) ∷ e) k x h there = elim (eq-cases i k) [
  | inl same ↦
      let value : ◌≡◌ {A = Option Json} (some v) (some x) = rw (same, eq_refl) at there in
      lookup-update_old (insert i v d) e k (subst (λ j. lookup j e ≡ none) same h.1)
      ∙ lookup-insert i k v d
      ∙ rw (same, eq_refl) value
  | inr other ↦ lookup-update_new P (insert i v d) e k x h.2 (rw other at there)
]
