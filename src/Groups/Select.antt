-- ===== src/Groups/Select.antt =====
-- core/src/endbot_core/groups.py: `GroupStore.select` and the targets it reads.
use Prim.Native.Char.{code}
use Prim.Native.Nat.{◌*◌}
use endbot.Prelude.{
  ◌≡◌, refl, sym, ap, subst, ◌⊎◌, ◌>>=◌, ◌∙◌, inl, inr, ℕ, zero, suc, ◌+◌, ◌-◌, ◌≤◌, Bool, true,
  false, ◌&&◌, Option, none, some, List, [], ◌∷◌, String, leb, ltb, nat_eq, All, length, chars,
  is_digits, if◌then◌else◌, Result, ok, err, value_error, index_error, localized, or_raise, PyText,
  arith, Bool-cases, Option-cases, find_first,
}
use endbot.Groups.{Group, GroupStore, is_group_name, group_name, is_named, get}

-- What stands before the first character with the code, and what stands after it if there is one.
unfoldable pub cut : ℕ → String → String × Option String
cut n String.[] = (String.[], none)
cut n (String.◌∷◌ c s) =
    let (before, behind) = cut n s in
    if nat_eq (code c) n then (String.[], some s) else (String.◌∷◌ c before, behind)

-- `[1-9][0-9]{0,8}`
unfoldable pub is_index : String → Bool
is_index String.[] = false
is_index (String.◌∷◌ c s) = leb b'1' (code c) && leb (code c) b'9' && is_digits s && leb (chars s) 8

-- `int` of decimal digits, behind those that were read.
unfoldable pub number_from : ℕ → String → ℕ
number_from n String.[] = n
number_from n (String.◌∷◌ c s) = number_from (n * 10 + (code c - b'0')) s

-- The index, when its bracket closes the target.
unfoldable pub closed : String → Option String → Option ℕ
closed digits none = none
closed digits (some t) =
    if is_index digits && nat_eq (chars t) 0 then some (number_from 0 digits) else none

-- `[index]` behind its opening bracket.
unfoldable pub bracketed : String → Option ℕ
bracketed s = let (digits, behind) = cut b']' s in closed digits behind

-- `(?:\[…\])?` behind the name.
unfoldable pub index_behind : String → Option String → Option (String × Option ℕ)
index_behind name none = some (name, none)
index_behind name (some t) = elim (bracketed t) [
  | none ↦ none
  | some index ↦ some (name, some index)
]

-- `GROUP_TARGET.fullmatch`, as the name and the index if there is one.
unfoldable pub parse_target : String → Option (String × Option ℕ)
parse_target String.[] = none
parse_target (String.◌∷◌ c s) =
    let (name, behind) = cut b'[' s in
    if nat_eq (code c) b'#' && is_group_name name then index_behind name behind else none

-- `members[i]`, `none` where it raises `IndexError`.
unfoldable pub member_at : List String → ℕ → Option String
member_at [] i = none
member_at (m ∷ ms) zero = some m
member_at (m ∷ ms) (suc i) = member_at ms i

-- `enumerate(members, start=i)`
unfoldable pub enumerate : ℕ → List String → List (ℕ × String)
enumerate i [] = []
enumerate i (m ∷ ms) = (i, m) ∷ enumerate (suc i) ms

-- The members that a target stands for, with their one-based indexes.
unfoldable pub selected : Option ℕ → Group → Result (Group × List (ℕ × String) × Bool)
selected none g = ok (g, enumerate 1 g.members, false)
selected (some index) g = if ltb (length g.members) index then err localized else (do
  m ← or_raise (member_at g.members (index - 1)) index_error
  ok (g, (index, m) ∷ [], true))

module _ (py : PyText) where
  unfoldable pub select : String → GroupStore → Result (Group × List (ℕ × String) × Bool)
  select target s = do
    m ← or_raise (parse_target target) value_error
    group ← get py m.0 s
    selected m.1 group

-- `group_reference`: a whole group, `#name`.
unfoldable pub group_reference : String → Result String
group_reference String.[] = err localized
group_reference (String.◌∷◌ c s) =
    if nat_eq (code c) b'#' && is_group_name s then ok s else err localized

-- A number that is read is at least the one that its digits are put behind.
number_from-le : (n : ℕ) (s : String) → n ≤ number_from n s
unfolding number_from
number_from-le n String.[] = omega arith
number_from-le n (String.◌∷◌ c s) =
    let rest = number_from-le (n * 10 + (code c - b'0')) s in omega arith

is_index-positive : (s : String) → is_index s ≡ true → leb 1 (number_from 0 s) ≡ true
unfolding is_index number_from
is_index-positive String.[] h = absurd (cc)
is_index-positive (String.◌∷◌ c s) h =
    let rest = number_from-le (0 * 10 + (code c - b'0')) s in grind arith

closed-positive : (s : String) (o : Option String) (i : ℕ) → closed s o ≡ some i → leb 1 i ≡ true
unfolding closed
closed-positive s none i h = absurd (cc)
closed-positive s (some t) i h =
    ground (arith, Bool-cases (is_index s && nat_eq (chars t) 0), is_index-positive s)

index_behind-positive :
    (name : String) (o : Option String) (n : String) (i : ℕ)
    → index_behind name o ≡ some (n, some i)
    → leb 1 i ≡ true
unfolding index_behind bracketed
index_behind-positive name none n i h = absurd (cc)
index_behind-positive name (some t) n i h = elim (Option-cases (bracketed t)) [
  | inl e ↦ absurd (ground arith)
  | inr (k, e) ↦
      let same : k ≡ i = ground arith in
      closed-positive (cut b']' t).0 (cut b']' t).1 i (e ∙ ap some same)
]

parse_target-positive : (t n : String) (i : ℕ) → parse_target t ≡ some (n, some i) → leb 1 i ≡ true
unfolding parse_target
parse_target-positive String.[] n i h = absurd (cc)
parse_target-positive (String.◌∷◌ c s) n i h = ground (
  arith,
  Bool-cases (nat_eq (code c) b'#' && is_group_name (cut b'[' s).0),
  index_behind-positive (cut b'[' s).0 (cut b'[' s).1 n i,
)

member_at_inside :
    (ms : List String) (i : ℕ) → ltb i (length ms) ≡ true → (m : String) × (member_at ms i ≡ some m)
unfolding member_at
member_at_inside [] i h = absurd (ground arith)
member_at_inside (m ∷ ms) zero h = (m, refl)
member_at_inside (m ∷ ms) (suc i) h = member_at_inside ms i (ground arith)

-- An index with a member.
abbrev pub IsEntry : Group → ℕ × String → Type 0
IsEntry g e = (leb 1 e.0 ≡ true) × (member_at g.members (e.0 - 1) ≡ some e.1)

selected_index :
    (i : ℕ) (g : Group)
    → leb 1 i ≡ true
    → (selected (some i) g ≡ err localized)
      ⊎ ((m : String) × (selected (some i) g ≡ ok (g, (i, m) ∷ [], true))
          × (member_at g.members (i - 1) ≡ some m))
unfolding selected
selected_index i g h = elim (Bool-cases (ltb (length g.members) i)) [
  | inl beyond ↦ inl (rw beyond)
  | inr within ↦
      let (m, e) = member_at_inside g.members (i - 1) (ground arith) in inr (m, rw (within, e), e)
]

All-enumerate :
    (g : Group) (k : ℕ) (ms : List String)
    → ((j : ℕ) → member_at g.members (k + j) ≡ member_at ms j)
    → All (IsEntry g) (enumerate (suc k) ms)
unfolding enumerate member_at
All-enumerate g k [] h = tt
All-enumerate g k (m ∷ ms) h = (
  (ground arith, subst (λ n. member_at g.members n ≡ some m) (omega arith) (h 0)),
  All-enumerate g (suc k) ms
      (λ j. subst (λ n. member_at g.members n ≡ member_at ms j) (omega arith) (h (suc j))),
)

-- The outcomes of a selection: refused as a `ValueError`, one that the player reads, or groups and members.
module _ (r : Result (Group × List (ℕ × String) × Bool)) where
  abbrev pub IsSelection : Type 0
  IsSelection =
      (r ≡ err value_error)
      ⊎ (r ≡ err localized)
      ⊎ ((g : Group) × (es : List (ℕ × String)) × (indexed : Bool) × (r ≡ ok (g, es, indexed))
          × All (IsEntry g) es)

selected-IsSelection :
    (o : Option ℕ) (g : Group)
    → ((i : ℕ) → o ≡ some i → leb 1 i ≡ true)
    → IsSelection (selected o g)
unfolding selected
selected-IsSelection none g h = inr (
    inr (
      g,
      enumerate 1 g.members,
      false,
      refl,
      All-enumerate g 0 g.members (λ j. ap (member_at g.members) (omega arith)),
    ))
selected-IsSelection (some i) g h = elim (selected_index i g (h i refl)) [
  | inl beyond ↦ inr (inl beyond)
  | inr (m, e, there) ↦ inr (inr (g, (i, m) ∷ [], true, e, ((h i refl, there), tt)))
]

get-cases :
    (py : PyText) (name : String) (s : GroupStore)
    → (get py name s ≡ err value_error)
      ⊎ (get py name s ≡ err localized)
      ⊎ ((g : Group) × (get py name s ≡ ok g))
unfolding get group_name
get-cases py name s =
    ground (
      arith,
      Bool-cases (is_group_name name),
      Option-cases (find_first (is_named py name) s.groups),
    )

-- `select` of any text raises a `ValueError` or an error that the player reads, never an `IndexError`;
-- or it returns a group and some of its members, each with its one-based position in the group.
pub select-IsSelection :
    (py : PyText) (target : String) (s : GroupStore) → IsSelection (select py target s)
unfolding select
select-IsSelection py target s = elim (Option-cases (parse_target target)) [
  | inl e ↦ inl (rw e)
  | inr ((name, o), e) ↦ elim (get-cases py name s) [
    | inl f ↦ inl (rw (e, f))
    | inr (inl f) ↦ inr (inl (rw (e, f)))
    | inr (inr (g, f)) ↦ subst IsSelection (sym (rw (e, f))) (
        selected-IsSelection o g
          (λ i same. parse_target-positive target name i (e ∙ ap (λ p. some (name, p)) same)))
  ]
]
