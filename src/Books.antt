-- ===== src/Books.antt =====
-- core/src/endbot_core/script_books.py: a script written into the pages of a book.
pub mod Bounds
mod Tests
use endbot.Prelude.{
  ℕ, ◌+◌, Bool, not, Option, none, some, List, [], ◌∷◌, String, ltb, leb, nat_eq, length, chars,
  concat, if◌then◌else◌, localized, Result, ok, err, raise_if, ◌>>=◌, ◌>>◌,
}

abbrev pub book_page_chars : ℕ
book_page_chars = 256

abbrev pub book_pages : ℕ
book_pages = 50

-- The loop of `source_to_pages` over the lines, with the page that is being filled.
unfoldable pub pack : List String → Option String → Result (List String)
pack [] none = ok []
pack [] (some page) = ok (page ∷ [])
pack (line ∷ lines) none =
    if ltb book_page_chars (chars line) then err localized else pack lines (some line)
pack (line ∷ lines) (some page) =
    let joined = pack lines (some (concat page (concat "\n" line))) in
    let begun = pack lines (some line) in
    if ltb book_page_chars (chars line)
    then err localized
    else if leb (chars page + 1 + chars line) book_page_chars
    then joined
    else (do rest ← begun; ok (page ∷ rest))

-- `source_to_pages`, of the lines that `splitlines` gives.
unfoldable pub source_to_pages : List String → Result (List String)
source_to_pages lines = do
  pages ← pack lines none
  raise_if (nat_eq (length pages) 0) localized
  raise_if (ltb book_pages (length pages)) localized
  ok pages
