-- ===== src/Params/Assigned.antt =====
-- Each argument of a run goes to one declared parameter.
use endbot.Prelude.{
  ◌≡◌, refl, sym, ap, subst, ◌∙◌, inl, inr, ℕ, suc, ◌+◌, ◌≤◌, true, false, ◌&&◌, Option, some, none,
  List, [], ◌∷◌, ◌++◌, String, arith, ltb, length, any, eq_refl, eq-cases, Dict, lookup, insert,
  has_key, lookup-insert, Json, str, ok, ok_inj, localized, as_str, is_some, raise_if,
  raise_if_returned, bind_returned, Bool-cases, Option-cases, Entries, Entries-insert,
}
use endbot.Scripts.{take}
use endbot.Params.Placing.{
  AreAssigned, Parted, split_values-Splitting, zip_names-absent, Parted-AreAssigned,
  lookup-update_new, lookup-update_old,
}
use endbot.Params.{
  cut, is_param_name, named_in, Split, split_value, split_values, zip_names, update, split_named,
}

-- A table in which each key is declared, and no key stands twice.
abbrev pub AreDeclared : {V : Type 0} → Dict V → Dict Json → Type 0
AreDeclared schema d = Entries (λ k v. has_key k schema ≡ true) d

pub length-insert_absent :
    {V : Type 0} (k : String) (v : V) (d : Dict V)
    → has_key k d ≡ false
    → length (insert k v d) ≡ suc (length d)
unfolding lookup insert
length-insert_absent k v [] h = refl
length-insert_absent k v ((j, w) ∷ d) h = ground (arith, length-insert_absent k v d)

length-snoc : {A : Type 0} (xs : List A) (x : A) → length (xs ++ x ∷ []) ≡ suc (length xs)
length-snoc [] x = refl
length-snoc (y ∷ ys) x = ap suc (length-snoc ys x)

module _ {V : Type 0} (schema : Dict V) where
  -- The values so far, each taken once.
  record Taken (n : ℕ) (s : Split) : Type 0 where
    named_ok : AreDeclared schema s.1
    counted : length s.0 + length s.1 ≡ n

  named_in-declared :
      (v : Json) (name value : String)
      → named_in schema v ≡ some (name, value)
      → has_key name schema ≡ true
  named_in-declared v name value h = elim (Option-cases (as_str v)) [
    | inl no_text ↦ absurd (ground arith)
    | inr (t, text) ↦ elim (Option-cases (cut t)) [
      | inl no_sign ↦
          let missed : ◌≡◌ {A = Option (String × String)} none (some (name, value)) =
            sym (rw (named_in, text, no_sign) refl) ∙ h in
          absurd (cc)
      | inr ((k, w), split) ↦ elim (Bool-cases (is_param_name k && has_key k schema)) [
        | inl declared ↦
            let same : ◌≡◌ {A = Option (String × String)} (some (k, w)) (some (name, value)) =
              sym (rw (named_in, text, split, declared) refl) ∙ h in
            let key : k ≡ name = cc in subst (λ x. has_key x schema ≡ true) key (ground arith)
        | inr undeclared ↦
            let missed : ◌≡◌ {A = Option (String × String)} none (some (name, value)) =
              sym (rw (named_in, text, split, undeclared) refl) ∙ h in
            absurd (cc)
      ]
    ]
  ]

  split_value-Taken :
      (v : Json) (n : ℕ) (positional : List Json) (named : Dict Json) (o : Option (String × String))
      (s' : Split)
      → split_value v (positional, named) o ≡ ok s'
      → ((name value : String) → o ≡ some (name, value) → has_key name schema ≡ true)
      → Taken n (positional, named)
      → Taken (suc n) s'
  unfolding split_value
  split_value-Taken v n positional named (some (name, value)) s' h d k =
      elim (Bool-cases (has_key name named)) [
        | inl twice ↦ absurd (ground arith)
        | inr new ↦
            let same : (positional, insert name (str value) named) ≡ s' =
              ok_inj _ s' (sym (rw (split_value, new) refl) ∙ h) in
            let longer = length-insert_absent name (str value) named new in
            let c = k.counted in
            subst (Taken (suc n)) same (record {
              named_ok =
                  Entries-insert (λ i v. has_key i schema ≡ true) name (str value) named
                    (d name value refl) k.named_ok;
              counted = omega arith;
            })
      ]
  split_value-Taken v n positional [] none s' h d k =
      let same : (positional ++ v ∷ [], []) ≡ s' = ok_inj _ s' h in
      let longer = length-snoc positional v in
      let c = k.counted in
      subst (Taken (suc n)) same (record { named_ok = tt; counted = omega arith })
  split_value-Taken v n positional (e ∷ named) none s' h d k = absurd (cc)

  split_values-Taken :
      (vs : List Json) (n : ℕ) (s s' : Split)
      → split_values schema s vs ≡ ok s'
      → Taken n s
      → Taken (n + length vs) s'
  unfolding split_values
  split_values-Taken [] n s s' h k =
      subst (λ m. Taken m s') (omega arith) (subst (Taken n) (ok_inj s s' h) k)
  split_values-Taken (v ∷ vs) n s s' h k =
      let (s1, first, rest) = bind_returned (split_value v s (named_in schema v)) _ h in
      subst (λ m. Taken m s') (omega arith)
        (split_values-Taken vs (suc n) s1 s' rest (
          split_value-Taken v n s.0 s.1 (named_in schema v) s1 first
            (λ name value. named_in-declared v name value) k))

  AreDeclared-weaken :
      (e : String × V) (d : Dict Json) → AreDeclared schema d → AreDeclared (e ∷ schema) d
  unfolding lookup
  AreDeclared-weaken e [] h = tt
  AreDeclared-weaken e ((k, v) ∷ d) h = (ground arith, h.1, AreDeclared-weaken e d h.2)

zip_names-AreDeclared :
    {V : Type 0} (schema : Dict V) (vs : List Json)
    → Entries (λ k s. Unit {0}) schema
    → AreDeclared schema (zip_names schema vs)
unfolding zip_names lookup
zip_names-AreDeclared [] vs h = tt
zip_names-AreDeclared (e ∷ schema) [] h = tt
zip_names-AreDeclared ((k, s) ∷ schema) (v ∷ vs) h = (
  rw eq_refl refl,
  zip_names-absent k schema vs h.1,
  AreDeclared-weaken schema (k, s) (zip_names schema vs) (zip_names-AreDeclared schema vs h.2),
)

length-zip_names :
    {V : Type 0} (schema : Dict V) (vs : List Json)
    → length vs ≤ length schema
    → length (zip_names schema vs) ≡ length vs
unfolding zip_names
length-zip_names [] [] h = refl
length-zip_names [] (v ∷ vs) h = absurd (omega arith)
length-zip_names (e ∷ schema) [] h = refl
length-zip_names (e ∷ schema) (v ∷ vs) h = ap suc (length-zip_names schema vs (omega arith))

-- A name that is not among the first declared ones has no positional value.
zip_names-untaken :
    {V : Type 0} (k : String) (schema : Dict V) (vs : List Json) (named : Dict Json)
    → any (λ e. has_key e.0 named) (take (length vs) schema) ≡ false
    → has_key k named ≡ true
    → lookup k (zip_names schema vs) ≡ none
unfolding zip_names lookup
zip_names-untaken k [] vs named h t = refl
zip_names-untaken k (e ∷ schema) [] named h t = refl
zip_names-untaken k ((j, s) ∷ schema) (v ∷ vs) named h t = elim (eq-cases j k) [
  | inl same ↦ absurd (ground arith)
  | inr other ↦ rw other (zip_names-untaken k schema vs named (ground arith) t)
]

module _ {V : Type 0} (schema : Dict V) where
  -- Adding a table that shares no key.
  update-AreDeclared :
      (d e : Dict Json)
      → AreDeclared schema d
      → AreDeclared schema e
      → ((k : String) → has_key k e ≡ true → lookup k d ≡ none)
      → AreDeclared schema (update d e) × (length (update d e) ≡ length d + length e)
  unfolding update lookup
  update-AreDeclared d [] h k apart = (h, omega arith)
  update-AreDeclared d ((i, v) ∷ e) h k apart =
      let absent : lookup i d ≡ none = apart i (rw eq_refl refl) in
      let longer = length-insert_absent i v d (ap is_some absent) in
      let (declared, counted) =
        update-AreDeclared (insert i v d) e
          (Entries-insert (λ j w. has_key j schema ≡ true) i v d k.0 h) k.2
          (λ j there. elim (eq-cases i j) [
            | inl same ↦ absurd (ground (arith, k.1))
            | inr other ↦ rw (lookup-insert i j v d, other) (apart j (rw other there))
          ]) in
      (declared, omega arith)

  split_values-AreAssigned :
      (values : List Json) (s : Split)
      → Entries (λ k s. Unit {0}) schema
      → length s.0 ≤ length schema
      → AreDeclared schema s.1
      → any (λ e. has_key e.0 s.1) (take (length s.0) schema) ≡ false
      → split_values schema ([], []) values ≡ ok s
      → AreAssigned schema (update (zip_names schema s.0) s.1) schema values
  split_values-AreAssigned values s distinct fits named_ok untaken h =
      let parts = split_values-Splitting schema values ([], []) s h in
      let same : parts.more ≡ s.0 = sym parts.appended in
      Parted-AreAssigned schema (update (zip_names schema s.0) s.1) s.1
        (λ k x there. lookup-update_new _ (zip_names schema s.0) s.1 k x named_ok there) schema
        distinct fits
        (λ k x there. elim (Option-cases (lookup k s.1)) [
          | inl absent ↦ lookup-update_old (zip_names schema s.0) s.1 k absent ∙ there
          | inr (w, named) ↦
              let gone = zip_names-untaken k schema s.0 s.1 untaken (ap is_some named) in
              absurd (cc)
        ])
        (subst (Parted schema s.1 values) same parts.parted)

  -- If the names of the declarations differ and `split_named` returns, then every value is in the table under exactly one name:
  -- a text `name=value` with a declared name gives the text behind the sign to that name, and the other values are given in order to
  -- the first of the declared names. The table has as many entries as there are values, no name twice, and declared names only.
  pub split_named-AreDeclared :
      (values : List Json) (d : Dict Json)
      → Entries (λ k s. Unit {0}) schema
      → split_named schema values ≡ ok d
      → AreAssigned schema d schema values × AreDeclared schema d × (length d ≡ length values)
  unfolding split_named
  split_named-AreDeclared values d distinct h =
      let (s, taken, h1) = bind_returned (split_values schema ([], []) values) _ h in
      let (_, few, h2) =
        bind_returned (raise_if (ltb (length schema) (length s.0)) localized) _ h1 in
      let (_, untaken, h3) =
        bind_returned (raise_if (any (λ e. has_key e.0 s.1) (take (length s.0) schema)) localized) _
          h2 in
      let all_taken =
        split_values-Taken schema values 0 ([], []) s taken
          (record { named_ok = tt; counted = refl }) in
      let enough = raise_if_returned (ltb (length schema) (length s.0)) localized few in
      let fits : length s.0 ≤ length schema = ground arith in
      let zipped = length-zip_names schema s.0 fits in
      let counted = all_taken.counted in
      let (declared, total) =
        update-AreDeclared (zip_names schema s.0) s.1 (zip_names-AreDeclared schema s.0 distinct)
          all_taken.named_ok
          (λ k there.
            zip_names-untaken k schema s.0 s.1 (raise_if_returned _ localized untaken) there) in
      let same = ok_inj (update (zip_names schema s.0) s.1) d h3 in
      let assigned =
        split_values-AreAssigned values s distinct fits all_taken.named_ok
          (raise_if_returned _ localized untaken) taken in
      subst
        (λ x.
          AreAssigned schema x schema values × AreDeclared schema x × (length x ≡ length values))
        same (assigned, declared, omega arith)
