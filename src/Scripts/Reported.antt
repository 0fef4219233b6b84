-- ===== src/Scripts/Reported.antt =====
-- What `load_files` gives: each script file of the folder is a valid script or a problem.
use Prim.Native.Char.{code}
use endbot.Prelude.{
  ◌≡◌, refl, sym, ap, subst, ◌∙◌, inl, inr, ℕ, suc, ◌+◌, ◌≤◌, Bool, true, false, not, ◌&&◌, ◌||◌,
  List, [], ◌∷◌, ◌++◌, String, ◌==◌, leb, ltb, length, nat_eq, arith, Dict, insert_absent, has_key,
  Entries, Entries-insert, Result-cases, ok, ok_inj, localized, raise_if, raise_if_returned,
  guard_returned, or_raise, bind_returned, PyText, Bool-cases, if◌then◌else◌,
}
use endbot.Groups.{is_group_name}
use endbot.Scripts.{Script, is_file, script_name}
use endbot.Scripts.Calls.{Bounds}
use endbot.Scripts.Found.{absent_of_has_key}
use endbot.Scripts.Folder.{
  Entry, Folder, newlines, Loaded, place_entry, sort_entries, is_script_file, load_file, note_file,
  load_entry, load_entries, load_files,
}

abbrev pub has_return : String → Bool
has_return String.[] = false
has_return (String.◌∷◌ c s) = nat_eq (code c) 13 || has_return s

newlines_plain : (behind : Bool) (s : String) → has_return (newlines behind s) ≡ false
unfolding newlines
newlines_plain behind String.[] = refl
newlines_plain behind (String.◌∷◌ c s) = elim (Bool-cases (nat_eq (code c) 13)) [
  | inl cr ↦ rw cr (newlines_plain true s)
  | inr other ↦ elim (Bool-cases (behind && nat_eq (code c) 10)) [
    | inl skipped ↦ rw (other, skipped) (newlines_plain false s)
    | inr kept ↦ rw (other, kept, other) (newlines_plain false s)
  ]
]

length-snoc {ℓ} : {A : Type ℓ} (xs : List A) (x : A) → length (xs ++ x ∷ []) ≡ suc (length xs)
length-snoc [] x = refl
length-snoc (y ∷ ys) x = ap suc (length-snoc ys x)

checked_name : (s t : String) → script_name s ≡ ok t → is_group_name t ≡ true
unfolding script_name
checked_name s t e =
    let (valid, same) = guard_returned (is_group_name s) localized s t e in
    subst (λ x. is_group_name x ≡ true) same valid

module _ (py : PyText) (digest : String → String) (config : Bounds) where
  -- A script of the folder, under its key.
  pub record IsFolderScript (k : String) (s : Script) : Type 0 where
    pub folded : k ≡ py.casefold s.name
    pub name_ok : is_group_name s.name ≡ true
    pub read_only : is_file s ≡ true
    pub not_blank : (py.strip s.source == "") ≡ false
    pub plain_lines : has_return s.source ≡ false

  -- The scripts are valid and not too many, and with the problems they are `n`.
  pub record IsLoaded (n : ℕ) (l : Loaded) : Type 0 where
    pub valid : Entries IsFolderScript l.0
    pub bounded : length l.0 ≤ config.max_scripts
    pub complete : length l.0 + length l.1 ≡ n

  load_file_returned :
      (scripts : Dict Script) (e : Entry) (s : Script)
      → load_file py digest config scripts e ≡ ok s
      → IsFolderScript (py.casefold s.name) s
        × (has_key (py.casefold s.name) scripts ≡ false)
        × (leb config.max_scripts (length scripts) ≡ false)
  unfolding load_file
  load_file_returned scripts e s e0 =
      let (name, n, e1) = bind_returned (script_name e.stem) _ e0 in
      let (_, _, e2) = bind_returned (raise_if (e.symlink || not e.regular) localized) _ e1 in
      let (_, _, e3) =
        bind_returned (raise_if (ltb config.max_script_bytes e.size) localized) _ e2 in
      let (text, _, e4) = bind_returned (or_raise e.text localized) _ e3 in
      let (_, b, e5) =
        bind_returned (raise_if (py.strip (newlines false text) == "") localized) _ e4 in
      let (_, k, e6) =
        bind_returned (raise_if (has_key (py.casefold name) scripts) localized) _ e5 in
      let (_, m, e7) =
        bind_returned (raise_if (leb config.max_scripts (length scripts)) localized) _ e6 in
      subst
        (λ x.
          IsFolderScript (py.casefold x.name) x
          × (has_key (py.casefold x.name) scripts ≡ false)
          × (leb config.max_scripts (length scripts) ≡ false))
        (ok_inj _ s e7)
        (
          record {
            folded = refl;
            name_ok = checked_name e.stem name n;
            read_only = refl;
            not_blank = raise_if_returned _ localized b;
            plain_lines = newlines_plain false text;
          },
          raise_if_returned _ localized k,
          raise_if_returned _ localized m,
        )

  note_file-IsLoaded :
      (e : Entry) (l : Loaded) (n : ℕ)
      → IsLoaded n l
      → IsLoaded (suc n) (note_file py digest config e l (load_file py digest config l.0 e))
  unfolding note_file
  note_file-IsLoaded e l n h = elim (Result-cases (load_file py digest config l.0 e)) [
    | inr (raised, r) ↦ rw r (record {
      valid = h.valid;
      bounded = h.bounded;
      complete = let more = length-snoc l.1 (e.name, raised) in let c = h.complete in omega arith;
    })
    | inl (s, r) ↦
        let (p, free, room) = load_file_returned l.0 e s r in
        let added =
          ap length (insert_absent (py.casefold s.name) s l.0 (absent_of_has_key _ l.0 free))
          ∙ length-snoc l.0 _ in
        rw r (record {
          valid = Entries-insert IsFolderScript (py.casefold s.name) s l.0 p h.valid;
          bounded = ground arith;
          complete = let c = h.complete in omega arith;
        })
  ]

  -- The script files among the entries.
  unfoldable pub script_files : List Entry → ℕ
  script_files [] = 0
  script_files (e ∷ es) = (if is_script_file py digest config e then 1 else 0) + script_files es

  load_entries-IsLoaded :
      (es : List Entry) (l : Loaded) (n m : ℕ)
      → script_files es + n ≡ m
      → IsLoaded n l
      → IsLoaded m (load_entries py digest config l es)
  unfolding load_entries load_entry script_files
  load_entries-IsLoaded [] l n m c h = subst (λ k. IsLoaded k l) (omega arith) h
  load_entries-IsLoaded (e ∷ es) l n m c h = elim (Bool-cases (is_script_file py digest config e)) [
    | inl script ↦
        rw script (load_entries-IsLoaded es _ (suc n) m (ground arith) (note_file-IsLoaded e l n h))
    | inr other ↦ rw other (load_entries-IsLoaded es l n m (ground arith) h)
  ]

  script_files-place_entry :
      (e : Entry) (es : List Entry)
      → script_files (place_entry py digest config e es) ≡ script_files (e ∷ es)
  unfolding script_files place_entry
  script_files-place_entry e [] = refl
  script_files-place_entry e (x ∷ xs) = ground (arith, script_files-place_entry e xs)

  script_files-sort_entries :
      (es : List Entry) → script_files (sort_entries py digest config es) ≡ script_files es
  unfolding script_files sort_entries
  script_files-sort_entries [] = refl
  script_files-sort_entries (e ∷ es) =
      script_files-place_entry e (sort_entries py digest config es)
      ∙ ap (λ n. (if is_script_file py digest config e then 1 else 0) + n)
          (script_files-sort_entries es)

  -- If `load_files` returns on a folder that is there, no two scripts that it gives have a name in common, each has a
  -- valid name and stands under it in folded form, is marked as a file's and so read-only, and has a source that is not
  -- blank and has no carriage return; they are at most `max_scripts`; and the scripts and the
  -- problems are together as many as the `.luau` files of the folder, so that none is dropped unreported.
  pub load_files-IsLoaded :
      (f : Folder) (l : Loaded)
      → f.present ≡ true
      → load_files py digest config f ≡ ok l
      → IsLoaded (script_files f.entries) l
  unfolding load_files
  load_files-IsLoaded f l there e = elim (Bool-cases (f.symlink || f.present && not f.is_dir)) [
    | inl refused ↦ absurd (ground arith)
    | inr fine ↦
        let given : ok
              (load_entries py digest config ([], []) (sort_entries py digest config f.entries))
            ≡ ok l =
          sym (rw (fine, there) refl) ∙ e in
        subst (IsLoaded (script_files f.entries)) (ok_inj _ l given) (
          load_entries-IsLoaded (sort_entries py digest config f.entries) ([], []) 0 _
            (ground (arith, script_files-sort_entries f.entries))
            (record { valid = tt; bounded = omega arith; complete = refl }))
  ]
