-- ===== src/Books/Tests.antt =====
-- A short book.
use endbot.Prelude.{◌≤◌, ◌≡◌, refl, [], ◌∷◌, All, chars, ok}
use endbot.Books.{book_page_chars, book_pages, pack, source_to_pages}
use endbot.Books.Bounds.{source_to_pages_bounded}

two_lines : source_to_pages ("a" ∷ "b" ∷ []) ≡ ok ("a\nb" ∷ [])
unfolding source_to_pages pack
two_lines = refl

source_to_pages_bounded_example :
    All (λ p. chars p ≤ book_page_chars) ("a\nb" ∷ []) × (1 ≤ 1) × (1 ≤ book_pages)
source_to_pages_bounded_example = source_to_pages_bounded ("a" ∷ "b" ∷ []) ("a\nb" ∷ []) two_lines
