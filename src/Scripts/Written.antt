-- ===== src/Scripts/Written.antt =====
-- The file of scripts: what is written is read back, and a store that is its file.
use endbot.Prelude.{
  ◌≡◌, refl, sym, ap, subst, ◌∙◌, ◌⊎◌, inl, inr, true, false, some, none, Option, List, [], ◌∷◌,
  ◌++◌, map, String, arith, ℕ, zero, suc, ◌≤◌, append-nil, append_assoc, length, contains, Json,
  to_list-of_list, Error, err, localized, os_error, ok, traverse, PyText, StoreFile, document,
  Bool-cases, read_document, overwrite_document, lookup, insert, has_key, Dict, Entries,
  Entries-before, insert_absent,
}
use endbot.Groups.{is_group_name}
use endbot.Scripts.{
  Revision, Script, ScriptStore, visibilities, is_file, take, script_name, script_name_of_json,
  parse_revision, str_or_none, str_to_json, visibility_of_json, check_version, revision_to_json,
  script_to_json, to_document, save_all, parse_row, parse_rows, parse_document, document_scripts,
  init,
}

pub take_all {ℓ} : {A : Type ℓ} (n : ℕ) (xs : List A) → length xs ≤ n → take n xs ≡ xs
take_all zero [] h = refl
take_all (suc n) [] h = refl
take_all zero (x ∷ xs) h = absurd (omega arith)
take_all (suc n) (x ∷ xs) h = ap (◌∷◌ x) (take_all n xs (omega arith))

length-map : (f : Revision → Json) (xs : List Revision) → length (map f xs) ≡ length xs
length-map f [] = refl
length-map f (x ∷ xs) = ap suc (length-map f xs)

parse_revisions-write :
    (rs : List Revision) → traverse parse_revision (map revision_to_json rs) ≡ ok rs
unfolding parse_revision revision_to_json lookup
parse_revisions-write [] = refl
parse_revisions-write (r ∷ rs) = rw (parse_revisions-write rs) refl

str_or_none-write : (o : Option String) → str_or_none (str_to_json o) ≡ ok o
str_or_none-write none = refl
str_or_none-write (some s) = refl

module _ (py : PyText) where
  -- A script that the file format accepts, under its key.
  pub record IsScript (k : String) (s : Script) : Type 0 where
    pub folded : k ≡ py.casefold s.name
    pub name_ok : is_group_name s.name ≡ true
    pub visibility_ok : contains s.visibility visibilities ≡ true
    pub history_bounded : length s.history ≤ 10

  parse_row-write :
      (k : String) (s : Script) (d : Dict Script)
      → IsScript k s
      → lookup k d ≡ none
      → parse_row py d (script_to_json s) ≡ ok (insert k s d)
  unfolding parse_row script_to_json script_name_of_json script_name visibility_of_json lookup
  parse_row-write k s d h absent =
      let absent' : lookup (py.casefold s.name) d ≡ none = rw (← h.folded) absent in
      rw (
        str_or_none-write s.owner,
        str_or_none-write s.owner_name,
        h.visibility_ok,
        to_list-of_list,
        h.name_ok,
        absent',
        take_all 10 (map revision_to_json s.history)
            (rw (length-map revision_to_json s.history) h.history_bounded),
        parse_revisions-write s.history,
        h.folded,
      )

  parse_rows-write :
      (c d : Dict Script)
      → Entries IsScript (c ++ d)
      → Entries IsScript d
      → parse_rows py c (map (λ e. script_to_json e.1) d) ≡ ok (c ++ d)
  unfolding parse_rows
  parse_rows-write c [] h k = rw (append-nil c) refl
  parse_rows-write c ((i, s) ∷ d) h k =
      let before : lookup i c ≡ none = Entries-before IsScript i s c d h in
      rw (parse_row-write i s c k.0 before, insert_absent i s c before)
        (parse_rows-write (c ++ (i, s) ∷ []) d (rw append_assoc h) k.2 ∙ ap ok (append_assoc c _ d))

  pub parse_document_written :
      (d : Dict Script) → Entries IsScript d → parse_document py (to_document d) ≡ ok d
  unfolding parse_document to_document check_version lookup
  parse_document_written d h = rw to_list-of_list (parse_rows-write [] d h h)

  -- The scripts of the folder: what `load_files` gives.
  abbrev pub IsFolder : Dict Script → Type 0
  IsFolder files = Entries (λ k s. is_file s ≡ true) files

  -- The scripts are valid, none of them has the name of a script of a file, and the next start
  -- reads exactly them.
  pub record IsStored (s : ScriptStore) : Type 0 where
    pub valid : Entries IsScript s.scripts
    pub folder : IsFolder s.files
    pub apart : (k : String) → has_key k s.files ≡ true → lookup k s.scripts ≡ none
    pub read_back : init py s.path ≡ ok (record s { files = [] })

  init_written :
      (d : Dict Script) (f : StoreFile)
      → Entries IsScript d
      → init py (record f { symlink = false; content = document (to_document d) })
        ≡ ok (record {
          path = record f { symlink = false; content = document (to_document d) };
          scripts = d;
          files = [];
        })
  unfolding init read_document document_scripts
  init_written d f v = rw (parse_document_written d v)

  -- Saving leaves the store as it is and raises, or has written the scripts to the file.
  pub save_all_cases :
      (d : Dict Script) (s : ScriptStore)
      → ((e : Error) × (save_all d s ≡ (s, err e)))
        ⊎ (save_all d s ≡ (
          record s {
            path = record s.path { symlink = false; content = document (to_document d) };
            scripts = d;
          },
          ok tt,
        ))
  unfolding save_all overwrite_document
  save_all_cases d s = elim (Bool-cases s.path.symlink) [
    | inl link ↦ inl (localized, rw link refl)
    | inr plain ↦ elim (Bool-cases s.path.writable) [
      | inl writable ↦ inr (ground arith)
      | inr refused ↦ inl (os_error, ground arith)
    ]
  ]

  pub save_all-IsStored :
      (d : Dict Script) (s : ScriptStore)
      → Entries IsScript d
      → ((k : String) → has_key k s.files ≡ true → lookup k d ≡ none)
      → IsStored s
      → IsStored (save_all d s).0
  save_all-IsStored d s v a h = elim (save_all_cases d s) [
    | inl (e, raised) ↦ subst IsStored (sym (ap (λ o. o.0) raised)) h
    | inr saved ↦
        subst IsStored (sym (ap (λ o. o.0) saved))
          (record { valid = v; folder = h.folder; apart = a; read_back = init_written d s.path v })
  ]
