-- ===== src/Histories/Latest.antt =====
-- The result that was saved last is the first of the history.
use endbot.Prelude.{
  ◌≡◌, refl, sym, ap, subst, ◌∙◌, inl, inr, ℕ, ◌+◌, ◌-◌, Bool, true, false, ◌&&◌, List, [], ◌∷◌,
  ◌++◌, map, String, arith, leb, ltb, eq_refl, any, filter, length, Bool-cases, ok,
}
use endbot.Histories.Bounds.{length-save, count_of-save, save_all, save_all-bounded}
use endbot.Histories.{
  GroupResult, Entry, cache_size, history_size, is_of, same_key, put, count_of, drop_matching,
  pop_oldest, trim, save, reversed, history_of, history, item_at, get,
}

module _ {Row : Type 0} where
  is_of_self : (e : Entry Row) → is_of e.owner e.result.group_id e ≡ true
  is_of_self e = ground (arith, eq_refl e.owner, eq_refl e.result.group_id)

  put_new :
      (e : Entry Row) (es : List (Entry Row))
      → any (λ f. same_key f e) es ≡ false
      → put e es ≡ es ++ e ∷ []
  unfolding put
  put_new e [] h = refl
  put_new e (f ∷ fs) h = ground (arith, put_new e fs)

  -- Dropping fewer entries than match before it, or the oldest, leaves the last one.
  abbrev Ends : Entry Row → List (Entry Row) → Type 0
  Ends e es = (before : List (Entry Row)) × (es ≡ before ++ e ∷ [])

  drop_matching-Ends :
      (p : Entry Row → Bool) (n : ℕ) (e : Entry Row) (es : List (Entry Row))
      → leb n (count_of p es) ≡ true
      → Ends e (drop_matching p n (es ++ e ∷ []))
  unfolding drop_matching count_of
  drop_matching-Ends p n e [] h = ([], ground arith)
  drop_matching-Ends p n e (f ∷ fs) h = elim (Bool-cases (p f && ltb 0 n)) [
    | inl drops ↦ rw drops (drop_matching-Ends p (n - 1) e fs (ground arith))
    | inr keeps ↦
        let (before, same) = drop_matching-Ends p n e fs (ground arith) in
        rw keeps (f ∷ before, ap (◌∷◌ f) same)
  ]

  pop_oldest-Ends : (e : Entry Row) (es : List (Entry Row)) → Ends e (pop_oldest (es ++ e ∷ []))
  unfolding pop_oldest
  pop_oldest-Ends e [] = ([], refl)
  pop_oldest-Ends e (f ∷ fs) = elim (Bool-cases (ltb cache_size (length ((f ∷ fs) ++ e ∷ [])))) [
    | inl many ↦ rw many (pop_oldest-Ends e fs)
    | inr few ↦ rw few (f ∷ fs, refl)
  ]

  filter-snoc :
      (p : Entry Row → Bool) (e : Entry Row) (es : List (Entry Row))
      → p e ≡ true
      → filter p (es ++ e ∷ []) ≡ filter p es ++ e ∷ []
  filter-snoc p e [] h = rw h
  filter-snoc p e (f ∷ fs) h = ground (arith, filter-snoc p e fs)

  reversed-snoc :
      (e : Entry Row) (es : List (Entry Row)) → reversed (es ++ e ∷ []) ≡ e ∷ reversed es
  unfolding reversed
  reversed-snoc e [] = refl
  reversed-snoc e (f ∷ fs) = ap (λ r. r ++ f ∷ []) (reversed-snoc e fs)

  count_of-snoc :
      (p : Entry Row → Bool) (e : Entry Row) (es : List (Entry Row))
      → p e ≡ true
      → count_of p (es ++ e ∷ []) ≡ count_of p es + 1
  unfolding count_of
  count_of-snoc p e [] h = rw h (omega arith)
  count_of-snoc p e (f ∷ fs) h = ground (arith, count_of-snoc p e fs)

  get-first :
      (owner group_id : String) (es : List (Entry Row)) (r : GroupResult Row)
      (rs : List (GroupResult Row))
      → history_of owner group_id es ≡ r ∷ rs
      → get owner group_id 1 es ≡ ok r
  unfolding get history item_at
  get-first owner group_id es r rs h = rw h (ground arith)

  history_of-Ends :
      (owner : String) (r : GroupResult Row) (es : List (Entry Row))
      → Ends (record { owner = owner; result = r }) es
      → (rs : List (GroupResult Row)) × (history_of owner r.group_id es ≡ r ∷ rs)
  history_of-Ends owner r es (before, same) =
      let e : Entry Row = record { owner = owner; result = r } in
      let p = is_of owner r.group_id in
      (
        map (λ x. x.result) (reversed (filter p before)),
        ap (λ l. map (λ x. x.result) (reversed (filter p l))) same
            ∙ ap (λ l. map (λ x. x.result) (reversed l)) (filter-snoc p e before (is_of_self e))
            ∙ ap (map (λ x. x.result)) (reversed-snoc e (filter p before)),
      )

  -- After `save` with an identity that no result of the owner and the group has, number 1 of the
  -- history is the result that was saved, whatever was dropped to make room.
  get-save :
      (owner : String) (r : GroupResult Row) (records : List (Entry Row))
      → any (λ f. same_key f (record { owner = owner; result = r })) records ≡ false
      → get owner r.group_id 1 (save owner r records) ≡ ok r
  unfolding save trim
  get-save owner r records new =
      let e : Entry Row = record { owner = owner; result = r } in
      let p = is_of owner r.group_id in
      let n = count_of p (records ++ e ∷ []) - history_size in
      let (trimmed, same) =
        drop_matching-Ends p n e records
          (ground (arith, count_of-snoc p e records (is_of_self e))) in
      let popped = pop_oldest-Ends e trimmed in
      let stored = subst (λ l. Ends e (pop_oldest l)) (sym same) popped in
      let (rs, first) = history_of-Ends owner r _ (
        subst (λ l. Ends e (pop_oldest (drop_matching p (count_of p l - history_size) l)))
          (sym (put_new e records new)) stored) in
      get-first owner r.group_id _ r rs first

  -- However many results have been saved since the start, and for whomever: after one more, with an
  -- identity that no result of its owner and group has, the store holds 128 at most, 20 at most of any
  -- owner for any group, and number 1 of the history is the result that was saved.
  pub save-save_all :
      (calls : List (String × GroupResult Row)) (owner : String) (r : GroupResult Row)
      (o g : String)
      → any (λ f. same_key f (record { owner = owner; result = r })) (save_all calls []) ≡ false
      → (leb (length (save owner r (save_all calls []))) 128 ≡ true)
        × (leb (count_of (is_of o g) (save owner r (save_all calls []))) 20 ≡ true)
        × (get owner r.group_id 1 (save owner r (save_all calls [])) ≡ ok r)
  save-save_all calls owner r o g new = (
    length-save owner r (save_all calls []),
    count_of-save o g owner r (save_all calls []) (save_all-bounded calls o g).1,
    get-save owner r (save_all calls []) new,
  )
