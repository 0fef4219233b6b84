-- ===== src/Authority/Words.antt =====
-- core/src/endbotd/authority.py: the words of `botcontrollers` on the console.
use mathlib.Core.List.{reverse}
use endbot.Prelude.{
  Bool, true, false, not, ◌&&◌, ◌||◌, Option, none, some, List, [], ◌∷◌, String, ◌==◌, concat,
  contains, if◌then◌else◌, value_error, Result, ok, raise_if, ◌>>=◌, ◌>>◌,
}
use endbot.Roles.{roles}
use endbot.Authority.State.{or_empty}

-- `" ".join(words)`
unfoldable pub join_words : List String → String
join_words [] = ""
join_words (w ∷ ws) =
    let rest = join_words ws in elim ws [ [] ↦ w | _ ∷ _ ↦ concat w (concat " " rest) ]

-- The role that follows `--role` at the end of the words of `add`, and the words before it; the
-- argument is the reversed words.
unfoldable pub role_option : Bool → List String → Option String × List String
role_option true (r ∷ o ∷ w ∷ ws) =
    if o == "--role" then (some r, reverse (w ∷ ws)) else (none, reverse (r ∷ o ∷ w ∷ ws))
role_option _ words = (none, reverse words)

-- `shlex.split` is outside.
module _ (split : String → Result (List String)) where
  -- The target and the role, from the words of the console if no target is given.
  unfoldable pub console_words :
      String → List String → Option String → Option String → Result (Option String × Option String)
  console_words operation [] target role = ok (target, role)
  console_words operation (w ∷ ws) (some target) role = ok (some target, role)
  console_words operation (w ∷ ws) none role = do
    words ← split (join_words (w ∷ ws))
    let (given, rest) = role_option (operation == "add") (reverse words)
    ok (some (join_words rest), elim role [ none ↦ given | some r ↦ some r ])

-- `operation not in {"add", "remove"} or not target`, where it is not so.
unfoldable pub checked : String → Option String → Option String → Result String
checked operation target role = do
  raise_if (operation == "add" && elim role [ none ↦ false | some r ↦ not (contains r roles) ])
      value_error
  raise_if (not (operation == "add" || operation == "remove") || or_empty target == "") value_error
  ok (or_empty target)
