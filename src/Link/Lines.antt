-- ===== src/Link/Lines.antt =====
-- Byte sequences, and lines in them.
use endbot.Prelude.{
  ◌≡◌, refl, ap, sym, ◌∙◌, ◌⊎◌, inl, inr, ℕ, ◌+◌, true, false, Option, none, some, List, [], ◌∷◌,
  ◌++◌, length, leb, nat_eq, arith, Option-cases, if◌then◌else◌, Bool-cases,
}

abbrev pub Bytes : Type 0
Bytes = List ℕ

-- `find(b"\n")`: what stands before the first newline and what stands after it.
unfoldable pub split_line : Bytes → Option (Bytes × Bytes)
split_line [] = none
split_line (b ∷ bs) =
    let rest = split_line bs in
    if nat_eq b 10
    then some ([], bs)
    else elim rest [ none ↦ none | some (line, more) ↦ some (b ∷ line, more) ]

pub length-append : (a b : Bytes) → length (a ++ b) ≡ length a + length b
length-append [] b = omega arith
length-append (x ∷ a) b = ground (arith, length-append a b)

-- The first byte is a newline, or the line goes on.
split_line-newline_here :
    (x : ℕ) (a : Bytes) → nat_eq x 10 ≡ true → split_line (x ∷ a) ≡ some ([], a)
unfolding split_line
split_line-newline_here x a h = rw h

split_line-goes_on :
    (x : ℕ) (a : Bytes)
    → nat_eq x 10 ≡ false
    → split_line (x ∷ a)
      ≡ (elim (split_line a) [ none ↦ none | some (line, more) ↦ some (x ∷ line, more) ])
unfolding split_line
split_line-goes_on x a h = rw h

some_inj : {A : Type 0} (x y : A) → ◌≡◌ {A = Option A} (some x) (some y) → x ≡ y
some_inj x y e = cc

-- How a line of at least one byte was found.
split_line_found :
    (x : ℕ) (a line rest : Bytes)
    → split_line (x ∷ a) ≡ some (line, rest)
    → ((nat_eq x 10 ≡ true) × (line ≡ []) × (rest ≡ a))
      ⊎ ((nat_eq x 10 ≡ false) × (l : Bytes) × (split_line a ≡ some (l, rest)) × (line ≡ x ∷ l))
split_line_found x a line rest h = elim (Bool-cases (nat_eq x 10)) [
  | inl here ↦
      let same = some_inj _ _ (sym (split_line-newline_here x a here) ∙ h) in
      inl (here, ap (λ p. p.0) (sym same), ap (λ p. p.1) (sym same))
  | inr there ↦ elim (Option-cases (split_line a)) [
    | inl e ↦ absurd (ground (arith, split_line-goes_on x a there))
    | inr ((l, r), e) ↦
        let same : (x ∷ l, r) ≡ (line, rest) =
          some_inj (x ∷ l, r) (line, rest) (sym (split_line-goes_on x a there ∙ rw e) ∙ h) in
        inr (there, l, e ∙ ap (λ q. some (l, q)) (ap (λ p. p.1) same), ap (λ p. p.0) (sym same))
  ]
]

-- More bytes at the end change nothing where a newline has been seen.
pub split_line-append :
    (a b line rest : Bytes)
    → split_line a ≡ some (line, rest)
    → split_line (a ++ b) ≡ some (line, rest ++ b)
unfolding split_line
split_line-append [] b line rest h = absurd (cc)
split_line-append (x ∷ a) b line rest h = elim (split_line_found x a line rest h) [
  | inl (here, l, r) ↦ rw (l, r) (split_line-newline_here x (a ++ b) here)
  | inr (there, l, e, eq) ↦
      rw eq (split_line-goes_on x (a ++ b) there ∙ rw (split_line-append a b l rest e))
]

-- A line that ends behind bytes without a newline is at least as long as they are.
pub split_line_long :
    (a b line rest : Bytes)
    → split_line a ≡ none
    → split_line (a ++ b) ≡ some (line, rest)
    → leb (length a) (length line) ≡ true
split_line_long [] b line rest h e = ground arith
split_line_long (x ∷ a) b line rest h e = elim (split_line_found x (a ++ b) line rest e) [
  | inl (here, l, r) ↦ absurd (ground (arith, split_line-newline_here x a here))
  | inr (there, l, f, eq) ↦ elim (Option-cases (split_line a)) [
    | inl n ↦ rw eq (ground (arith, split_line_long a b l rest n f))
    | inr (p, n) ↦ absurd (ground (arith, split_line-goes_on x a there))
  ]
]

-- A line and what follows it make up the bytes.
pub split_line-eq-some :
    (a line rest : Bytes) → split_line a ≡ some (line, rest) → a ≡ line ++ 10 ∷ rest
unfolding split_line
split_line-eq-some [] line rest h = absurd (cc)
split_line-eq-some (x ∷ a) line rest h = elim (split_line_found x a line rest h) [
  | inl (here, l, r) ↦ rw (l, r) (let ten : x ≡ 10 = ground arith in rw ten)
  | inr (there, l, f, eq) ↦ rw eq (ap (◌∷◌ x) (split_line-eq-some a l rest f))
]

-- A line without a newline, found again.
pub split_line-newline :
    (line rest : Bytes)
    → split_line line ≡ none
    → split_line (line ++ 10 ∷ rest) ≡ some (line, rest)
split_line-newline [] rest h = split_line-newline_here 10 rest refl
split_line-newline (x ∷ line) rest h = elim (Bool-cases (nat_eq x 10)) [
  | inl here ↦ absurd (ground (arith, split_line-newline_here x line here))
  | inr there ↦ elim (Option-cases (split_line line)) [
    | inl n ↦ split_line-goes_on x (line ++ 10 ∷ rest) there ∙ rw (split_line-newline line rest n)
    | inr (p, n) ↦ absurd (ground (arith, split_line-goes_on x line there))
  ]
]
