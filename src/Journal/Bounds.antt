-- ===== src/Journal/Bounds.antt =====
-- The bounds of what the journal (core/src/endbotd/journal.py) gives back.
use Prim.Native.Nat.{zero, suc}
use endbot.Prelude.{
  ℕ, ◌≤◌, ◌≡◌, ap, sym, ◌∙◌, Option, List, [], ◌∷◌, arith, length, Json, Result, Result-cases,
  ok_inj, ok, inl, inr,
}
use endbot.Journal.{
  Run, JournalFile, missing, unreadable, corrupt, document, take, collect, run_of, checked_runs,
  max_runs, load,
}

length-take : {A : Type 0} (n : ℕ) (xs : List A) → length (take n xs) ≤ n
unfolding take
length-take zero xs = omega arith
length-take (suc n) [] = omega arith
length-take (suc n) (x ∷ xs) = omega (arith, length-take n xs)

length-collect :
    {A : Type 0} (f : Json → Result (Option A)) (js : List Json) (ys : List A)
    → collect f js ≡ ok ys
    → length ys ≤ length js
unfolding collect
length-collect f [] [] h = omega arith
length-collect f [] (y ∷ ys) h = absurd cc
length-collect f (j ∷ js) ys h = elim (Result-cases (f j)) [
  | inr (e, x) ↦ absurd (ground arith)
  | inl (y, x) ↦ elim (Result-cases (collect f js)) [
    | inr (e, z) ↦ absurd (ground arith)
    | inl (rest, z) ↦ ground (arith, length-collect f js rest z)
  ]
]

-- However long the file is, no more than 64 runs are taken from it.
pub load_bounded :
    (file : JournalFile) (runs : List Run) → load file ≡ ok runs → length runs ≤ max_runs
unfolding load
load_bounded missing runs h = omega (arith, ap length (ok_inj _ _ h))
load_bounded unreadable runs h = omega (arith, ap length (ok_inj _ _ h))
load_bounded corrupt runs h = omega (arith, ap length (ok_inj _ _ h))
load_bounded (document j) runs h = elim (Result-cases (checked_runs j)) [
  | inr (e, x) ↦ omega (arith, ap length (ok_inj [] runs (sym (rw (x, load)) ∙ h)))
  | inl (js, x) ↦
      let taken : collect run_of (take max_runs js) ≡ ok runs = sym (rw (x, load)) ∙ h in
      omega (arith, length-collect run_of (take max_runs js) runs taken, length-take max_runs js)
]
