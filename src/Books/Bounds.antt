-- ===== src/Books/Bounds.antt =====
-- The bounds of a book that a script is written into (core/src/endbot_core/script_books.py).
use text.Mathlib.TextLemmas.{length-append}
use endbot.Prelude.{
  ◌+◌, ◌≤◌, ◌≡◌, subst, inl, inr, Option, none, some, List, [], ◌∷◌, String, arith, ltb, leb,
  length, chars, concat, All, Result-cases, ok_inj, Bool-cases, ok,
}
use endbot.Books.{book_page_chars, book_pages, pack, source_to_pages}

abbrev IsPage : String → Type 0
IsPage p = chars p ≤ book_page_chars

chars-joined :
    (page line : String) → chars (concat page (concat "\n" line)) ≡ chars page + 1 + chars line
chars-joined page line =
    omega (arith, length-append page (concat "\n" line), length-append "\n" line)

abbrev IsFilling : Option String → Type 0
IsFilling none = Unit
IsFilling (some page) = IsPage page

pack-IsPage :
    (lines : List String) (page : Option String) (pages : List String)
    → IsFilling page
    → pack lines page ≡ ok pages
    → All IsPage pages
unfolding pack
pack-IsPage [] none pages f h = subst (All IsPage) (ok_inj _ _ h) tt
pack-IsPage [] (some page) pages f h = subst (All IsPage) (ok_inj _ _ h) (f, tt)
pack-IsPage (line ∷ lines) none pages f h = elim (Bool-cases (ltb book_page_chars (chars line))) [
  | inl long ↦ absurd (ground arith)
  | inr fits ↦ pack-IsPage lines (some line) pages (ground arith) (ground arith)
]
pack-IsPage (line ∷ lines) (some page) pages f h =
    elim (Bool-cases (ltb book_page_chars (chars line))) [
      | inl long ↦ absurd (ground arith)
      | inr fits ↦ elim (Bool-cases (leb (chars page + 1 + chars line) book_page_chars)) [
        | inl room ↦
            pack-IsPage lines (some (concat page (concat "\n" line))) pages
              (ground (arith, chars-joined page line)) (ground arith)
        | inr full ↦ elim (Result-cases (pack lines (some line))) [
          | inr (e, x) ↦ absurd (ground arith)
          | inl (rest, x) ↦
              subst (All IsPage) (ok_inj (page ∷ rest) pages (ground arith))
                (f, pack-IsPage lines (some line) rest (ground arith) x)
        ]
      ]
    ]

-- A script that is accepted fills between 1 and 50 pages, of 256 characters at most each.
pub source_to_pages_bounded :
    (lines pages : List String)
    → source_to_pages lines ≡ ok pages
    → All IsPage pages × (1 ≤ length pages) × (length pages ≤ book_pages)
unfolding source_to_pages
source_to_pages_bounded lines pages h = elim (Result-cases (pack lines none)) [
  | inr (e, x) ↦ absurd (ground arith)
  | inl (found, x) ↦
      let same : found ≡ pages = ground arith in
      (subst (All IsPage) same (pack-IsPage lines none found tt x), ground arith, ground arith)
]
