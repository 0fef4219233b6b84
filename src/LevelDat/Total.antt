-- ===== src/LevelDat/Total.antt =====
-- Reading a `level.dat` ends, and whatever the bytes are it gives a value or a `LevelDatError`.
use Prim.Native.Nat.{◌*◌}
use endbot.Prelude.{
  ◌≡◌, refl, ◌⊎◌, inl, inr, ℕ, zero, suc, ◌+◌, Bool, true, false, not, ◌&&◌, Option, [], ◌∷◌,
  String, arith, leb, ltb, nat_eq, length, ℤ, pos, negsuc, Dict, insert, Result, ok, err,
  level_dat_error, raise_if, Bool-cases, Option-cases, ◌>>=◌, ◌>>◌,
}
use endbot.LevelDat.{
  Bytes, Nbt, Read, Tag, number, real, raw, text, items, compound, of_items, of_fields, to_fields,
  integer, floating, array, byte_array, string_tag, list_tag, compound_tag, unknown, tag_of, take,
  from_le, signed, unsigned_at, signed_at, number_at, checked_length, length_at, elements,
  string_at, turn, entries, payload_of, payload, fields_of, read_document, max_depth,
}
use endbot.LevelDat.Summary.{LevelSummary, summary_of, check_length, parse_level_dat}

module _ {A : Type 0} (n : ℕ) (r : Read A) where
  -- A value with at most `n` bytes left, or the error of a file that is truncated or corrupt.
  abbrev Reads : Type 0
  Reads =
      (r ≡ err level_dat_error)
      ⊎ ((a : A) × (rest : Bytes) × (r ≡ ok (a, rest)) × (leb (length rest) n ≡ true))

-- A read, and what goes on with its value.
Reads-then :
    {A B : Type 0} (n : ℕ) (r : Read A) (next : A × Bytes → Read B)
    → Reads n r
    → ((a : A) (rest : Bytes) → leb (length rest) n ≡ true → Reads n (next (a, rest)))
    → Reads n (r >>= next)
Reads-then n r next (inl e) k = inl (rw e)
Reads-then n r next (inr (a, rest, e, short)) k = rw e (k a rest short)

Reads-weaken : {A : Type 0} (m n : ℕ) (r : Read A) → leb m n ≡ true → Reads m r → Reads n r
Reads-weaken m n r le (inl e) = inl e
Reads-weaken m n r le (inr (a, rest, e, short)) = inr (a, rest, e, ground arith)

Reads-ok :
    {A : Type 0} (n : ℕ) (a : A) (rest : Bytes)
    → leb (length rest) n ≡ true
    → Reads n (ok (a, rest))
Reads-ok n a rest short = inr (a, rest, refl, short)

Reads-raise_if :
    {A : Type 0} (n : ℕ) (b : Bool) (r : Read A)
    → Reads n r
    → Reads n (raise_if b level_dat_error >> r)
Reads-raise_if n true r h = inl refl
Reads-raise_if n false r h = h

take-Reads : (k : ℕ) (bs : Bytes) → Reads (length bs) (take k bs)
unfolding take
take-Reads zero bs = Reads-ok (length bs) [] bs (ground arith)
take-Reads (suc k) [] = inl refl
take-Reads (suc k) (b ∷ bs) =
    Reads-then (length (b ∷ bs)) (take k bs) _
      (Reads-weaken (length bs) (length (b ∷ bs)) (take k bs) (ground arith) (take-Reads k bs))
      (λ a rest short. Reads-ok (length (b ∷ bs)) (b ∷ a) rest short)

unsigned_at-Reads : (width : ℕ) (bs : Bytes) → Reads (length bs) (unsigned_at width bs)
unfolding unsigned_at
unsigned_at-Reads width bs =
    Reads-then (length bs) (take width bs) _ (take-Reads width bs)
      (λ a rest short. Reads-ok (length bs) (from_le a) rest short)

signed_at-Reads : (width : ℕ) (bs : Bytes) → Reads (length bs) (signed_at width bs)
unfolding signed_at
signed_at-Reads width bs =
    Reads-then (length bs) (take width bs) _ (take-Reads width bs)
      (λ a rest short. Reads-ok (length bs) (signed width (from_le a)) rest short)

number_at-Reads : (width : ℕ) (bs : Bytes) → Reads (length bs) (number_at width bs)
unfolding number_at
number_at-Reads width bs =
    Reads-then (length bs) (signed_at width bs) _ (signed_at-Reads width bs)
      (λ z rest short. Reads-ok (length bs) (number z) rest short)

checked_length-Reads :
    (size : ℕ) (z : ℤ) (rest : Bytes) → Reads (length rest) (checked_length size z rest)
unfolding checked_length
checked_length-Reads size (negsuc n) rest = inl refl
checked_length-Reads size (pos n) rest = elim (Bool-cases (ltb (length rest) (n * size))) [
  | inl beyond ↦ inl (rw beyond)
  | inr within ↦ rw within (Reads-ok (length rest) n rest (ground arith))
]

length_at-Reads : (size : ℕ) (bs : Bytes) → Reads (length bs) (length_at size bs)
unfolding length_at
length_at-Reads size bs =
    Reads-then (length bs) (signed_at 4 bs) _ (signed_at-Reads 4 bs) λ z rest short.
      Reads-weaken (length rest) (length bs) (checked_length size z rest) short
        (checked_length-Reads size z rest)

elements-Reads :
    (element : Bytes → Read Nbt) (n : ℕ) (bs : Bytes)
    → ((b : Bytes) → Reads (length b) (element b))
    → Reads (length bs) (elements element n bs)
unfolding elements
elements-Reads element zero bs h = Reads-ok (length bs) [] bs (ground arith)
elements-Reads element (suc n) bs h = Reads-then (length bs) (element bs) _ (h bs) λ v rest short.
    Reads-then (length bs) (elements element n rest) _
      (Reads-weaken (length rest) (length bs) (elements element n rest) short
        (elements-Reads element n rest h))
      (λ vs rest' short'. Reads-ok (length bs) (v ∷ vs) rest' short')

module _ (decode : Bytes → Option String) where
  string_at-Reads : (bs : Bytes) → Reads (length bs) (string_at decode bs)
  unfolding string_at
  string_at-Reads bs =
      Reads-then (length bs) (unsigned_at 2 bs) _ (unsigned_at-Reads 2 bs) λ n rest short.
        Reads-then (length bs) (take n rest) _
          (Reads-weaken (length rest) (length bs) (take n rest) short (take-Reads n rest))
          λ chunk rest' short'. elim (Option-cases (decode chunk)) [
            | inl none_there ↦ inl (rw none_there)
            | inr (s, there) ↦ rw there (Reads-ok (length bs) s rest' short')
          ]

  module _ (child : ℕ → Bytes → Read Nbt)
      (child_reads : (t : ℕ) (b : Bytes) → Reads (length b) (child t b)) where
    turn-Reads :
        (more : Dict Nbt → Bytes → Read (Dict Nbt)) (d : Dict Nbt) (last : Bool) (t : ℕ)
        (bs : Bytes)
        → ((d' : Dict Nbt) (b : Bytes)
            → leb (length b) (length bs) ≡ true
            → Reads (length b) (more d' b))
        → Reads (length bs) (turn decode child more d last t bs)
    unfolding turn
    turn-Reads more d true t bs h = Reads-ok (length bs) d bs (ground arith)
    turn-Reads more d false t bs h = Reads-raise_if (length bs) (ltb 12 t) _ (
        Reads-then (length bs) (string_at decode bs) _ (string_at-Reads bs) λ name rest short.
          Reads-then (length bs) (child t rest) _
            (Reads-weaken (length rest) (length bs) (child t rest) short (child_reads t rest))
            λ v rest' short'.
              Reads-weaken (length rest') (length bs) (more (insert name v d) rest') short'
                (h (insert name v d) rest' short'))

    -- A turn takes a byte, so as many turns as bytes are enough.
    entries-Reads :
        (fuel : ℕ) (d : Dict Nbt) (bs : Bytes)
        → ltb (length bs) fuel ≡ true
        → Reads (length bs) (entries decode child fuel d bs)
    unfolding entries unsigned_at take
    entries-Reads zero d bs enough = absurd (ground arith)
    entries-Reads (suc fuel) d [] enough = inl refl
    entries-Reads (suc fuel) d (b ∷ bs) enough =
        Reads-weaken (length bs) (length (b ∷ bs)) _ (ground arith) (
          turn-Reads (entries decode child fuel) d (nat_eq (from_le (b ∷ [])) 0) (from_le (b ∷ []))
            bs λ d' rest short. entries-Reads fuel d' rest (ground arith))

    payload_of-Reads : (tag : Tag) (bs : Bytes) → Reads (length bs) (payload_of decode child tag bs)
    unfolding payload_of
    payload_of-Reads (integer width) bs = number_at-Reads width bs
    payload_of-Reads (floating width) bs =
        Reads-then (length bs) (take width bs) _ (take-Reads width bs)
          (λ a rest short. Reads-ok (length bs) (real a) rest short)
    payload_of-Reads byte_array bs =
        Reads-then (length bs) (length_at 1 bs) _ (length_at-Reads 1 bs) λ n rest short.
          Reads-then (length bs) (take n rest) _
            (Reads-weaken (length rest) (length bs) (take n rest) short (take-Reads n rest))
            (λ a rest' short'. Reads-ok (length bs) (raw a) rest' short')
    payload_of-Reads string_tag bs =
        Reads-then (length bs) (string_at decode bs) _ (string_at-Reads bs)
          (λ s rest short. Reads-ok (length bs) (text s) rest short)
    payload_of-Reads list_tag bs =
        Reads-then (length bs) (unsigned_at 1 bs) _ (unsigned_at-Reads 1 bs) λ t rest short.
          Reads-then (length bs) (length_at 1 rest) _
            (Reads-weaken (length rest) (length bs) (length_at 1 rest) short
              (length_at-Reads 1 rest))
            λ n rest' short'. Reads-raise_if (length bs) (nat_eq t 0 && not (nat_eq n 0)) _ (
              Reads-then (length bs) (elements (child t) n rest') _
                (Reads-weaken (length rest') (length bs) (elements (child t) n rest') short'
                  (elements-Reads (child t) n rest' (child_reads t)))
                (λ vs rest'' short''. Reads-ok (length bs) (items (of_items vs)) rest'' short''))
    payload_of-Reads compound_tag bs =
        Reads-then (length bs) (entries decode child (length bs + 1) [] bs) _
          (entries-Reads (length bs + 1) [] bs (ground arith))
          (λ d rest short. Reads-ok (length bs) (compound (of_fields d)) rest short)
    payload_of-Reads (array width) bs =
        Reads-then (length bs) (length_at width bs) _ (length_at-Reads width bs) λ n rest short.
          Reads-then (length bs) (elements (number_at width) n rest) _
            (Reads-weaken (length rest) (length bs) (elements (number_at width) n rest) short
              (elements-Reads (number_at width) n rest (number_at-Reads width)))
            (λ vs rest' short'. Reads-ok (length bs) (items (of_items vs)) rest' short')
    payload_of-Reads unknown bs = inl refl

  payload-Reads : (left t : ℕ) (bs : Bytes) → Reads (length bs) (payload decode left t bs)
  unfolding payload
  payload-Reads zero t bs = inl refl
  payload-Reads (suc left) t bs =
      payload_of-Reads (payload decode left) (payload-Reads left) (tag_of t) bs

  -- A chain of reads whose last result has no bytes left to speak of.
  IsRefused : {A : Type 0} → Result A → Type 0
  IsRefused {A} r = (r ≡ err level_dat_error) ⊎ ((a : A) × (r ≡ ok a))

  Reads-last :
      {A B : Type 0} (n : ℕ) (r : Read A) (next : A × Bytes → Result B)
      → Reads n r
      → ((a : A) (rest : Bytes) → IsRefused (next (a, rest)))
      → IsRefused (r >>= next)
  unfolding IsRefused
  Reads-last n r next (inl e) k = inl (rw e)
  Reads-last n r next (inr (a, rest, e, short)) k = rw e (k a rest)

  fields_of-IsRefused : (v : Nbt) → IsRefused (fields_of v)
  unfolding IsRefused fields_of
  fields_of-IsRefused (number z) = inl refl
  fields_of-IsRefused (real bs) = inl refl
  fields_of-IsRefused (raw bs) = inl refl
  fields_of-IsRefused (text s) = inl refl
  fields_of-IsRefused (items vs) = inl refl
  fields_of-IsRefused (compound fs) = inr (to_fields fs, refl)

  raise_if-IsRefused :
      {A : Type 0} (b : Bool) (r : Result A)
      → IsRefused r
      → IsRefused (raise_if b level_dat_error >> r)
  unfolding IsRefused
  raise_if-IsRefused true r h = inl refl
  raise_if-IsRefused false r h = h

  read_document-IsRefused : (bs : Bytes) → IsRefused (read_document decode bs)
  unfolding read_document
  read_document-IsRefused bs =
      Reads-last (length bs) (unsigned_at 1 bs) _ (unsigned_at-Reads 1 bs) λ t rest.
        raise_if-IsRefused (not (nat_eq t 10)) _ (
          Reads-last (length rest) (string_at decode rest) _ (string_at-Reads rest) λ name rest'.
            Reads-last (length rest') (payload decode (max_depth + 1) t rest') _
              (payload-Reads (max_depth + 1) t rest') λ root _. fields_of-IsRefused root)

  check_length-cases :
      (z : ℤ) (body : Bytes)
      → (check_length z body ≡ err level_dat_error) ⊎ (check_length z body ≡ ok tt)
  unfolding check_length
  check_length-cases (negsuc n) body = inl refl
  check_length-cases (pos n) body = elim (Bool-cases (not (nat_eq (length body) n))) [
    | inl e ↦ inl (rw e)
    | inr e ↦ inr (rw e)
  ]

  -- For every sequence of bytes the reading of a `level.dat` ends: it gives a summary, or it raises a
  -- `LevelDatError` and nothing else, at any nesting and whatever the lengths in the file say.
  pub parse_level_dat-cases :
      (file : Bytes)
      → (parse_level_dat decode file ≡ err level_dat_error)
        ⊎ ((s : LevelSummary) × (parse_level_dat decode file ≡ ok s))
  unfolding parse_level_dat IsRefused
  parse_level_dat-cases file = raise_if-IsRefused (ltb (length file) 8) _ (
      Reads-last (length file) (signed_at 4 file) _ (signed_at-Reads 4 file) λ version rest.
        Reads-last (length rest) (signed_at 4 rest) _ (signed_at-Reads 4 rest) λ size body.
          elim (check_length-cases size body) [
            | inl e ↦ inl (rw e)
            | inr e ↦ rw e (elim (read_document-IsRefused body) [
              | inl f ↦ inl (rw f)
              | inr (root, f) ↦ inr (summary_of version root, rw f)
            ])
          ])
