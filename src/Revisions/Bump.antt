-- ===== src/Revisions/Bump.antt =====
-- What `bump` changes, and what a restart reads back.
use endbot.Prelude.{
  ℕ, suc, ◌+◌, ◌≤◌, ◌≡◌, refl, ap, ◌∙◌, true, false, none, some, List, [], ◌∷◌, ◌++◌, map, String,
  ◌==◌, arith, All, Entries-insert, append-nil, append_assoc, eq_iff, eq_refl, nat_eq, length,
  contains, if◌then◌else◌, Dict, lookup, insert, sort_items, lookup-sort_items, insert_absent,
  lookup-insert, Entries, Entries-before, Entries-sort_items, to_dict-of_dict, Json, int, pos, ok,
  PyText, StoreFile, document, read_document, replace_document,
}
use endbot.Revisions.{
  GrantRevisions, revision_in, get, to_document, save, distinct, raise_all, bump, bump_each,
  parse_entries, parse_document, load_grant_revisions,
}

times : String → List String → ℕ
times i [] = 0
times i (x ∷ xs) = let rest = times i xs in if x == i then suc rest else rest

revision_in-insert :
    (i j : String) (n : ℕ) (d : Dict ℕ)
    → revision_in i (insert j n d) ≡ (if j == i then n else revision_in i d)
revision_in-insert i j n d = ground (arith, lookup-insert j i n d)

revision_in-raise_all :
    (i : String) (is : List String) (d : Dict ℕ)
    → revision_in i (raise_all is d) ≡ revision_in i d + times i is
unfolding raise_all times
revision_in-raise_all i [] d = omega arith
revision_in-raise_all i (j ∷ is) d = ground (
  arith,
  revision_in-raise_all i is (insert j (revision_in j d + 1) d),
  revision_in-insert i j (revision_in j d + 1) d,
  eq_iff j i,
)

contains-distinct : (i : String) (is : List String) → contains i (distinct is) ≡ contains i is
unfolding distinct
contains-distinct i [] = refl
contains-distinct i (x ∷ xs) =
    ground (arith, contains-distinct i xs, contains-distinct x xs, eq_iff x i)

times-distinct :
    (i : String) (is : List String) → times i (distinct is) ≡ (if contains i is then 1 else 0)
unfolding distinct times
times-distinct i [] = refl
times-distinct i (x ∷ xs) =
    ground (arith, times-distinct i xs, contains-distinct i xs, contains-distinct x xs, eq_iff x i)

get-save : (i : String) (g : GrantRevisions) → get i (save g).0 ≡ get i g
unfolding get save
get-save i g = ground arith

get-bump_each :
    (i : String) (is : List String) (g : GrantRevisions)
    → get i (bump_each is g).0 ≡ get i g + times i is
unfolding bump_each times
get-bump_each i [] g = omega arith
get-bump_each i (j ∷ is) g =
    get-save i _ ∙ unfold get in revision_in-raise_all i (j ∷ is) g.revisions

-- A bump raises the revision of each identity that it names by exactly one, however often it names
-- it, and of no other; also where the file cannot be written.
pub get-bump :
    (i : String) (is : List String) (g : GrantRevisions)
    → get i (bump is g).0 ≡ (if contains i is then get i g + 1 else get i g)
unfolding bump
get-bump i is g =
    get-bump_each i (distinct is) g ∙ ap (λ n. get i g + n) (times-distinct i is) ∙ ground arith

-- The entries that the file format accepts: canonical identities with revisions of 1 or more.
abbrev pub IsValid : PyText → GrantRevisions → Type 0
IsValid py g = Entries (λ i n. (py.uuid i ≡ some i) × (1 ≤ n)) g.revisions

module _ (py : PyText) where
  abbrev IsEntry : String → ℕ → Type 0
  IsEntry i n = (py.uuid i ≡ some i) × (1 ≤ n)

  abbrev write : Dict ℕ → Dict Json
  write = map (λ e. (e.0, int (pos e.1)))

  parse_entries-write :
      (d c : Dict ℕ)
      → Entries IsEntry (c ++ d)
      → Entries IsEntry d
      → parse_entries py (write d) c ≡ ok (c ++ d)
  unfolding parse_entries
  parse_entries-write [] c h k = rw append-nil
  parse_entries-write ((i, n) ∷ d) c h (p, fresh, rest) =
      let before : lookup i c ≡ none = Entries-before IsEntry i n c d h in
      let moved : (c ++ (i, n) ∷ []) ++ d ≡ c ++ (i, n) ∷ d = append_assoc c _ d in
      let positive : nat_eq n 0 ≡ false = ground (arith, p.1) in
      simp (positive, p.0, insert_absent i n c before)
        (parse_entries-write d (c ++ (i, n) ∷ []) (rw moved h) rest ∙ ap ok moved)

  length-write : (d : Dict ℕ) → length (write d) ≡ length d
  length-write [] = refl
  length-write (e ∷ d) = ap suc (length-write d)

  -- What is written under valid entries is read back, sorted by identity.
  pub parse_document-to_document :
      (d : Dict ℕ) → Entries IsEntry d → parse_document py (to_document d) ≡ ok (sort_items d)
  unfolding parse_document to_document lookup
  parse_document-to_document d h =
      let sorted = Entries-sort_items IsEntry d h in
      rw (to_dict-of_dict, parse_entries-write (sort_items d) [] sorted sorted, length-write)
        (ground arith)

  raise_all-Entries :
      (is : List String) (d : Dict ℕ)
      → All (λ i. py.uuid i ≡ some i) is
      → Entries IsEntry d
      → Entries IsEntry (raise_all is d)
  unfolding raise_all
  raise_all-Entries [] d a h = h
  raise_all-Entries (i ∷ is) d a h =
      raise_all-Entries is _ a.1 (Entries-insert IsEntry i _ d (a.0, omega arith) h)

  distinct-All : (P : String → Type 0) (is : List String) → All P is → All P (distinct is)
  unfolding distinct
  distinct-All P [] a = tt
  distinct-All P (i ∷ is) a = ground (arith, distinct-All P is a.1)

  -- After the write of a bump, a start reads exactly the revisions in memory.
  restart_bump_each :
      (i : String) (is : List String) (g : GrantRevisions) (f : StoreFile)
      → All (λ i. py.uuid i ≡ some i) (i ∷ is)
      → Entries IsEntry g.revisions
      → g.path ≡ some f
      → f.symlink ≡ false
      → f.writable ≡ true
      → (f' : StoreFile) × ((bump_each (i ∷ is) g).0.path ≡ some f')
        × (load_grant_revisions py f' ≡ ok (sort_items (bump_each (i ∷ is) g).0.revisions))
  unfolding bump_each save replace_document load_grant_revisions read_document
  restart_bump_each i is g f a h path plain writable = (
    record f { content = document (to_document (raise_all (i ∷ is) g.revisions)) },
    ground arith,
    ground (
      arith,
      parse_document-to_document (raise_all (i ∷ is) g.revisions)
          (raise_all-Entries (i ∷ is) g.revisions a h),
    ),
  )

  -- On a valid store whose file can be replaced, a bump of canonical identities, one at least, is durable: the
  -- next start finds for every identity the revision that it had in memory after the bump.
  pub bump_durable :
      (i : String) (is : List String) (g : GrantRevisions) (f : StoreFile)
      → All (λ j. py.uuid j ≡ some j) (i ∷ is)
      → IsValid py g
      → g.path ≡ some f
      → f.symlink ≡ false
      → f.writable ≡ true
      → (f' : StoreFile) × (d : Dict ℕ) × ((bump (i ∷ is) g).0.path ≡ some f')
        × (load_grant_revisions py f' ≡ ok d)
        × ((j : String) → revision_in j d ≡ get j (bump (i ∷ is) g).0)
  unfolding bump get
  bump_durable i is g f a h path plain writable =
      go (distinct (i ∷ is)) refl (distinct-All _ (i ∷ is) a)
    where
      go :
          (l : List String)
          → distinct (i ∷ is) ≡ l
          → All (λ j. py.uuid j ≡ some j) l
          → (f' : StoreFile) × (d : Dict ℕ) × ((bump_each l g).0.path ≡ some f')
            × (load_grant_revisions py f' ≡ ok d)
            × ((j : String) → revision_in j d ≡ revision_in j (bump_each l g).0.revisions)
      go [] e _ =
          absurd (ground (arith, contains-distinct i (i ∷ is), eq_refl i, ap (contains i) e))
      go (k ∷ ks) e valid =
          let (f', written, loaded) = restart_bump_each k ks g f valid h path plain writable in
          (f', _, written, loaded, λ j. rw lookup-sort_items)
