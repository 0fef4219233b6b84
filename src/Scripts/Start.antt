-- ===== src/Scripts/Start.antt =====
-- A start of the script store (`ScriptStore.__init__`) and its scripts of the folder (`set_files`).
use endbot.Prelude.{
  ◌≡◌, refl, sym, ap, subst, ◌∙◌, inl, inr, Bool, true, not, Option, some, none, List, [], ◌∷◌,
  String, arith, ◌≤◌, length, contains, eq_iff, filter, localized, value_error, Json, as_dict,
  as_str, as_list, get_json, Result, ok, err, ok_inj, raise_if, raise_if_returned, or_raise,
  bind_returned, guard_returned, traverse, PyText, StoreFile, read_document, Bool-cases, eq-cases,
  Option-cases, suc, lookup, has_key, Dict, Entries, Entries-insert, if◌then◌else◌,
}
use endbot.Groups.{is_group_name}
use endbot.Scripts.{
  Script, ScriptStore, take, history_limit, script_name, script_name_of_json, parse_revision,
  str_or_none, visibilities, visibility_of_json, history_of_json, check_version, parse_row,
  parse_rows, parse_document, document_scripts, init,
}
use endbot.Scripts.Calls.{Bounds, set_files}
use endbot.Scripts.Written.{IsScript, IsStored, IsFolder}
use endbot.Scripts.Run.{Call, run}
use endbot.Scripts.Invariant.{length-take, run-IsStored}

length-traverse :
    {A B : Type 0} (f : A → Result B) (xs : List A) (ys : List B)
    → traverse f xs ≡ ok ys
    → length ys ≡ length xs
length-traverse f [] ys e = sym (ap length (ok_inj _ _ e))
length-traverse f (x ∷ xs) ys e0 =
    let (z, _, e1) = bind_returned (f x) _ e0 in
    let (zs, t, e2) = bind_returned (traverse f xs) _ e1 in
    sym (ap length (ok_inj (z ∷ zs) ys e2)) ∙ ap suc (length-traverse f xs zs t)

visibility_returned :
    (o : Option Json) (v : String) → visibility_of_json o ≡ ok v → contains v visibilities ≡ true
unfolding visibility_of_json
visibility_returned none v e =
    subst (λ x. contains x visibilities ≡ true) (ok_inj "shared" v e) refl
visibility_returned (some j) v e0 =
    let (w, _, e1) = bind_returned (or_raise (as_str j) value_error) _ e0 in
    let (_, r, e2) = bind_returned (raise_if (not (contains w visibilities)) value_error) _ e1 in
    let known = raise_if_returned _ value_error r in
    let valid : contains w visibilities ≡ true = ground arith in
    subst (λ x. contains x visibilities ≡ true) (ok_inj w v e2) valid

name_returned :
    (o : Option Json) (n : String) → script_name_of_json o ≡ ok n → is_group_name n ≡ true
unfolding script_name_of_json script_name
name_returned none n e = absurd (cc)
name_returned (some j) n e = elim (Option-cases (as_str j)) [
  | inl no_text ↦ absurd (ground arith)
  | inr (s, text) ↦
      let named : (if is_group_name s then ok s else err localized) ≡ ok n = ground arith in
      let (valid, same) = guard_returned (is_group_name s) localized s n named in
      subst (λ x. is_group_name x ≡ true) same valid
]

lookup-filter :
    (p : String → Bool) (k : String) (d : Dict Script)
    → lookup k (filter (λ e. p e.0) d) ≡ (if p k then lookup k d else none)
unfolding lookup
lookup-filter p k [] = ground arith
lookup-filter p k ((j, s) ∷ d) = elim (eq-cases j k) [
  | inl same ↦ ground (arith, lookup-filter p k d, eq_iff j k)
  | inr other ↦ ground (arith, lookup-filter p k d)
]

Entries-filter :
    (P : String → Script → Type 0) (p : String → Bool) (d : Dict Script)
    → Entries P d
    → Entries P (filter (λ e. p e.0) d)
Entries-filter P p [] h = tt
Entries-filter P p ((j, s) ∷ d) h = elim (Bool-cases (p j)) [
  | inl kept ↦ rw kept (h.0, rw (lookup-filter p j d, kept) h.1, Entries-filter P p d h.2)
  | inr gone ↦ rw gone (Entries-filter P p d h.2)
]

module _ (py : PyText) where
  parse_row-Entries :
      (d d' : Dict Script) (j : Json)
      → parse_row py d j ≡ ok d'
      → Entries (IsScript py) d
      → Entries (IsScript py) d'
  unfolding parse_row
  parse_row-Entries d d' j e0 h =
      let (row, _, e1) = bind_returned (or_raise (as_dict j) value_error) _ e0 in
      let (source, _, e2) =
        bind_returned (or_raise (as_str (get_json "source" row)) value_error) _ e1 in
      let (revision, _, e3) =
        bind_returned (or_raise (as_str (get_json "revision" row)) value_error) _ e2 in
      let (owner, _, e4) = bind_returned (str_or_none (get_json "owner" row)) _ e3 in
      let (owner_name, _, e5) = bind_returned (str_or_none (get_json "ownerName" row)) _ e4 in
      let (visibility, v, e6) = bind_returned (visibility_of_json (lookup "visibility" row)) _ e5 in
      let (entries, _, e7) = bind_returned (history_of_json (lookup "history" row)) _ e6 in
      let (name, n, e8) = bind_returned (script_name_of_json (lookup "name" row)) _ e7 in
      let (_, _, e9) = bind_returned (raise_if (has_key (py.casefold name) d) value_error) _ e8 in
      let (history, t, e10) =
        bind_returned (traverse parse_revision (take history_limit entries)) _ e9 in
      let bounded : length history ≤ 10 =
        subst (λ x. x ≤ 10) (sym (length-traverse parse_revision (take 10 entries) history t))
          (length-take 10 entries) in
      subst (Entries (IsScript py)) (ok_inj _ _ e10) (
        Entries-insert (IsScript py) (py.casefold name) _ d
          (record {
            folded = refl;
            name_ok = name_returned _ name n;
            visibility_ok = visibility_returned _ visibility v;
            history_bounded = bounded;
          })
          h)

  parse_rows-Entries :
      (js : List Json) (d d' : Dict Script)
      → parse_rows py d js ≡ ok d'
      → Entries (IsScript py) d
      → Entries (IsScript py) d'
  unfolding parse_rows
  parse_rows-Entries [] d d' e h = subst (Entries (IsScript py)) (ok_inj _ _ e) h
  parse_rows-Entries (j ∷ js) d d' e0 h =
      let (d1, r, e1) = bind_returned (parse_row py d j) _ e0 in
      parse_rows-Entries js d1 d' e1 (parse_row-Entries d d1 j r h)

  document_scripts-Entries :
      (o : Option Json) (d : Dict Script) → document_scripts py o ≡ ok d → Entries (IsScript py) d
  unfolding document_scripts parse_document
  document_scripts-Entries none d e = subst (Entries (IsScript py)) (ok_inj _ _ e) tt
  document_scripts-Entries (some j) d e0 =
      let (fields, _, e1) = bind_returned (or_raise (as_dict j) value_error) _ e0 in
      let (_, _, e2) = bind_returned (check_version (get_json "version" fields)) _ e1 in
      let (rows, _, e3) =
        bind_returned (or_raise (as_list (get_json "scripts" fields)) value_error) _ e2 in
      parse_rows-Entries rows [] d e3 tt

  init-IsStored : (f : StoreFile) (s : ScriptStore) → init py f ≡ ok s → IsStored py s
  unfolding init lookup
  init-IsStored f s e0 =
      let (document, _, e1) = bind_returned (read_document f) _ e0 in
      let (scripts, d, e2) = bind_returned (document_scripts py document) _ e1 in
      let same = ok_inj _ _ e2 in
      subst (IsStored py) same (record {
        valid = document_scripts-Entries document scripts d;
        folder = tt;
        apart = λ k in_files. absurd (cc);
        read_back = e0 ∙ ap ok (sym same);
      })

  set_files-IsStored :
      (files : Dict Script) (s : ScriptStore)
      → IsFolder py files
      → IsStored py s
      → IsStored py (set_files files s).0
  unfolding set_files
  set_files-IsStored files s folder h = record {
    valid = h.valid;
    folder = Entries-filter _ (λ k. not (has_key k s.scripts)) files folder;
    apart = λ k in_files. elim (Option-cases (lookup k s.scripts)) [
      | inl absent ↦ absent
      | inr (c, e) ↦ absurd (ground (arith, lookup-filter (λ i. not (has_key i s.scripts)) k files))
    ];
    read_back = h.read_back;
  }

  -- A store that has been started on some file and has since run calls, each of which returned or
  -- raised, and taken scripts of the folder.
  pub data IsReached (config : Bounds) : ScriptStore → Type 0 where
    started : (f : StoreFile) (s : ScriptStore) → init py f ≡ ok s → IsReached config s
    called :
        (c : Call) (s : ScriptStore) → IsReached config s → IsReached config (run py config c s).0
    loaded :
        (files : Dict Script) (s : ScriptStore)
        → IsFolder py files
        → IsReached config s
        → IsReached config (set_files files s).0

  -- However a store was reached from a start on any file that loads, by calls that returned or
  -- raised and by `set_files` of tables that hold scripts of files only: each stored script has a valid
  -- name and stands under that name in folded form, no name has two, each has a known visibility and at most 10 earlier
  -- revisions, no stored script has the name of a script of the folder, and a new start on the
  -- file gives exactly the stored scripts, in their order.
  pub IsReached-IsStored : (config : Bounds) {s : ScriptStore} → IsReached config s → IsStored py s
  IsReached-IsStored config (started f s e) = init-IsStored f s e
  IsReached-IsStored config (called c s r) =
      run-IsStored py config c s (IsReached-IsStored config r)
  IsReached-IsStored config (loaded files s folder r) =
      set_files-IsStored files s folder (IsReached-IsStored config r)
