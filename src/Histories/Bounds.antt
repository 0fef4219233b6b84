-- ===== src/Histories/Bounds.antt =====
-- The history of group results stays small.
use mathlib.Core.Path.{subst₂}
use endbot.Prelude.{
  ◌≡◌, inl, inr, ℕ, ◌-◌, Bool, true, false, List, [], ◌∷◌, String, arith, leb, eq_iff, length,
  Bool-cases,
}
use endbot.Histories.{
  GroupResult, Entry, cache_size, history_size, is_of, put, count_of, drop_matching, pop_oldest,
  trim, save,
}

le_trans : (a b c : ℕ) → leb a b ≡ true → leb b c ≡ true → leb a c ≡ true
le_trans a b c h k = ground arith

module _ {Row : Type 0} where
  length-pop_oldest : (es : List (Entry Row)) → leb (length (pop_oldest es)) cache_size ≡ true
  unfolding pop_oldest
  length-pop_oldest [] = ground arith
  length-pop_oldest (e ∷ es) = ground (arith, length-pop_oldest es)

  count_of-pop_oldest :
      (q : Entry Row → Bool) (es : List (Entry Row))
      → leb (count_of q (pop_oldest es)) (count_of q es) ≡ true
  unfolding pop_oldest count_of
  count_of-pop_oldest q [] = ground arith
  count_of-pop_oldest q (e ∷ es) = ground (arith, count_of-pop_oldest q es)

  count_of-drop_matching :
      (p : Entry Row → Bool) (n : ℕ) (es : List (Entry Row))
      → count_of p (drop_matching p n es) ≡ count_of p es - n
  unfolding drop_matching count_of
  count_of-drop_matching p n [] = omega arith
  count_of-drop_matching p n (e ∷ es) =
      ground (arith, count_of-drop_matching p n es, count_of-drop_matching p (n - 1) es)

  count_of-drop_le :
      (q p : Entry Row → Bool) (n : ℕ) (es : List (Entry Row))
      → leb (count_of q (drop_matching p n es)) (count_of q es) ≡ true
  unfolding drop_matching count_of
  count_of-drop_le q p n [] = ground arith
  count_of-drop_le q p n (e ∷ es) =
      ground (arith, count_of-drop_le q p n es, count_of-drop_le q p (n - 1) es)

  -- An entry for another owner or group changes no count.
  count_of-put :
      (o g : String) (e : Entry Row) (es : List (Entry Row))
      → is_of o g e ≡ false
      → count_of (is_of o g) (put e es) ≡ count_of (is_of o g) es
  unfolding put count_of
  count_of-put o g e [] h = ground arith
  count_of-put o g e (f ∷ fs) h = ground (
    arith,
    count_of-put o g e fs,
    eq_iff f.owner e.owner,
    eq_iff f.result.group_id e.result.group_id,
    eq_iff f.owner o,
    eq_iff e.owner o,
    eq_iff f.result.group_id g,
    eq_iff e.result.group_id g,
  )

  count_of-trim :
      (p : Entry Row → Bool) (es : List (Entry Row))
      → leb (count_of p (trim p es)) history_size ≡ true
  unfolding trim
  count_of-trim p es = ground (arith, count_of-drop_matching p (count_of p es - history_size) es)

  -- What `save` leaves of an owner's results for a group.
  pub count_of-save :
      (o g owner : String) (r : GroupResult Row) (es : List (Entry Row))
      → leb (count_of (is_of o g) es) history_size ≡ true
      → leb (count_of (is_of o g) (save owner r es)) history_size ≡ true
  unfolding save trim
  count_of-save o g owner r es h =
      elim (Bool-cases (is_of o g (record { owner = owner; result = r }))) [
        | inr other ↦
            let stored = put (record { owner = owner; result = r }) es in
            let p = is_of owner r.group_id in
            le_trans _ _ _
              (count_of-pop_oldest (is_of o g)
                (drop_matching p (count_of p stored - history_size) stored))
              (le_trans _ _ _
                (count_of-drop_le (is_of o g) p (count_of p stored - history_size) stored)
                (rw (count_of-put o g (record { owner = owner; result = r }) es other) h))
        | inl mine ↦
            let stored = put (record { owner = owner; result = r }) es in
            let same_owner : owner ≡ o = ground (arith, eq_iff owner o) in
            let same_group : r.group_id ≡ g = ground (arith, eq_iff r.group_id g) in
            subst₂ (λ x y. leb (count_of (is_of x y) (save owner r es)) history_size ≡ true)
              same_owner same_group
              (le_trans _ _ _
                (count_of-pop_oldest (is_of owner r.group_id)
                  (trim (is_of owner r.group_id) stored))
                (count_of-trim (is_of owner r.group_id) stored))
      ]

  -- The records after results have been saved, each for its owner.
  unfoldable pub save_all : List (String × GroupResult Row) → List (Entry Row) → List (Entry Row)
  save_all [] es = es
  save_all ((owner, r) ∷ rest) es = save_all rest (save owner r es)

  pub length-save :
      (owner : String) (r : GroupResult Row) (es : List (Entry Row))
      → leb (length (save owner r es)) cache_size ≡ true
  unfolding save
  length-save owner r es =
      length-pop_oldest
        (trim (is_of owner r.group_id) (put (record { owner = owner; result = r }) es))

  length-save_all :
      (calls : List (String × GroupResult Row)) (es : List (Entry Row))
      → leb (length es) cache_size ≡ true
      → leb (length (save_all calls es)) cache_size ≡ true
  unfolding save_all
  length-save_all [] es h = h
  length-save_all ((owner, r) ∷ rest) es h =
      length-save_all rest (save owner r es) (length-save owner r es)

  count_of-save_all :
      (o g : String) (calls : List (String × GroupResult Row)) (es : List (Entry Row))
      → leb (count_of (is_of o g) es) history_size ≡ true
      → leb (count_of (is_of o g) (save_all calls es)) history_size ≡ true
  unfolding save_all
  count_of-save_all o g [] es h = h
  count_of-save_all o g ((owner, r) ∷ rest) es h =
      count_of-save_all o g rest (save owner r es) (count_of-save o g owner r es h)

  pub save_all-bounded :
      (calls : List (String × GroupResult Row)) (owner group_id : String)
      → (leb (length (save_all calls [])) cache_size ≡ true)
        × (leb (count_of (is_of owner group_id) (save_all calls [])) history_size ≡ true)
  unfolding count_of
  save_all-bounded calls owner group_id = (
    length-save_all calls [] (ground arith),
    count_of-save_all owner group_id calls [] (ground arith),
  )
