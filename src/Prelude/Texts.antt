-- ===== src/Prelude/Texts.antt =====
-- What the program uses of Python's texts.
use Prim.Native.Char.{code}
use Prim.Native.Nat.{ℕ, zero, suc}
use Prim.Native.String
use Prim.Native.String.{String}
use mathlib.Core.Path.{◌≡◌}
use mathlib.Core.Bool.{Bool, true, not, ◌&&◌}
use mathlib.Core.Option.{Option, some}
use text.Mathlib.Text.{◌==◌}
use endbot.Prelude.Tests.{leb}

-- Methods of `str` that rest on the tables of Unicode, and `str(uuid.UUID(s))`, which is `none`
-- where the constructor raises `ValueError`. The fields below them state documented behaviour.
pub record PyText : Type 0 where
  pub casefold : String → String
  pub lower : String → String
  pub strip : String → String
  pub is_printable : String → Bool
  pub uuid : String → Option String
  -- Case folding is stable.
  pub casefold_idem : (s : String) → casefold (casefold s) ≡ casefold s
  -- A stripped text has no blank at its ends, and is printable if the whole text was.
  pub strip_idem : (s : String) → strip (strip s) ≡ strip s
  pub strip-is_printable : (s : String) → is_printable s ≡ true → is_printable (strip s) ≡ true
  -- `str` of a UUID is the canonical text, which denotes the same UUID.
  pub uuid_canonical : (s t : String) → uuid s ≡ some t → uuid t ≡ some t

abbrev pub is_digits : String → Bool
is_digits String.[] = true
is_digits (String.◌∷◌ c s) = leb b'0' (code c) && leb (code c) b'9' && is_digits s

-- `value.isascii() and value.isdecimal()`: one ASCII digit at least, and nothing else.
unfoldable pub is_decimal : String → Bool
is_decimal s = not (s == "") && is_digits s

-- `s + t`, and `len(s)`, which counts characters.
abbrev pub concat : String → String → String
concat s t = String.◌++◌ s t

abbrev pub chars : String → ℕ
chars s = String.count s

-- `s[n:]`
abbrev pub drop_chars : ℕ → String → String
drop_chars zero s = s
drop_chars (suc n) String.[] = String.[]
drop_chars (suc n) (String.◌∷◌ c s) = drop_chars n s
