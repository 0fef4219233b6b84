-- ===== src/Prelude/Files.antt =====
-- A JSON file on disk: what a start-up reads, and the atomic replacement that every store writes.
use mathlib.Core.Bool.{Bool, false}
use mathlib.Core.Option.{Option, none, some}
use endbot.Prelude.Tests.{if◌then◌else◌}
use endbot.Prelude.Results.{Result, ok, err, value_error, os_error}
use endbot.Prelude.Documents.{Json}

-- `special` exists and is no regular file; `garbage` is a file that `json.loads` refuses.
pub data Content : Type 0 where
  missing special garbage : Content
  document : Json → Content

-- `writable` says whether creating and replacing the file succeeds.
pub record StoreFile : Type 0 where
  pub symlink : Bool
  pub writable : Bool
  pub content : Content

-- The document, `none` if the file is missing; a symlink or an irregular file is refused.
unfoldable pub read_document : StoreFile → Result (Option Json)
read_document f = if f.symlink then err value_error else elim f.content [
  | missing ↦ ok none
  | special ↦ err value_error
  | garbage ↦ err value_error
  | document j ↦ ok (some j)
]

-- A `_save`: refuses a symlink, else replaces the whole file or raises and leaves it as it was.
unfoldable pub replace_document : Json → StoreFile → StoreFile × Result (Unit {0})
replace_document j f =
    if f.symlink
    then (f, err value_error)
    else if f.writable
    then (record f { content = document j }, ok tt)
    else (f, err os_error)

-- Reading with no test of what the path is; a directory cannot be read.
unfoldable pub read_text_document : StoreFile → Result (Option Json)
read_text_document f = elim f.content [
  | missing ↦ ok none
  | special ↦ err os_error
  | garbage ↦ err value_error
  | document j ↦ ok (some j)
]

-- An atomic replacement with no test for a symlink, which it replaces by a file.
unfoldable pub overwrite_document : Json → StoreFile → StoreFile × Result (Unit {0})
overwrite_document j f =
    if f.writable
    then (record f { symlink = false; content = document j }, ok tt)
    else (f, err os_error)
