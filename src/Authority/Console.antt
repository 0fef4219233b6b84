-- ===== src/Authority/Console.antt =====
-- core/src/endbotd/authority.py: `botcontrollers`, as the console and the tools of the operator run it. The
-- texts of the answer are left out.
use endbot.Prelude.{
  Bool, true, false, Option, List, [], ◌∷◌, String, ◌==◌, if◌then◌else◌, Error, value_error,
  type_error, os_error, Result, ok, err, PyText,
}
use endbot.Authority.Action.{Action, ◌>>=◌, ◌>>◌, pure, lift, reads}
use endbot.Authority.Words.{console_words, checked}
use endbot.Authority.Report.{Row, report}
use endbot.Authority.Changes.{refresh, add_controller, remove_controller}

pub record Answer : Type 0 where
  pub is_ok : Bool
  pub entries : List Row

-- The exceptions that `operation` answers.
unfoldable pub is_answered : Error → Bool
is_answered value_error = true
is_answered type_error = true
is_answered os_error = true
is_answered _ = false

-- `try: ... except ...: return answer`
unfoldable pub answered : {A : Type 0} → A → Action A → Action A
answered x m a =
    let (a', r) = m a in
    (a', elim r [ ok y ↦ ok y | err e ↦ if is_answered e then ok x else err e ])

-- `shlex.split` is outside.
module _ (py : PyText) (split : String → Result (List String)) where
  -- The last part of `_operation`.
  unfoldable pub change :
      String → String → String → Option String → Action (Answer × List (String × Bool))
  change now operation target role = do
    (if operation == "add" then add_controller py now target role else remove_controller py target)
    permissions ← refresh py
    rows ← reads (report py)
    pure (record { is_ok = true; entries = rows }, permissions)

  unfoldable pub list_rows : Action (Answer × List (String × Bool))
  list_rows = do rows ← reads (report py); pure (record { is_ok = true; entries = rows }, [])

  unfoldable pub run_words :
      String
      → String
      → List String
      → Option String
      → Option String
      → Action (Answer × List (String × Bool))
  run_words now operation rest target role = do
    words ← lift (console_words split operation rest target role)
    name ← lift (checked operation words.0 words.1)
    change now operation name words.1

  -- `_operation`
  unfoldable pub run_operation :
      String → List String → Option String → Option String → Action (Answer × List (String × Bool))
  run_operation now [] target role = list_rows
  run_operation now (w ∷ []) target role =
      if w == "list" then list_rows else run_words now (py.lower w) [] target role
  run_operation now (w ∷ v ∷ ws) target role = run_words now (py.lower w) (v ∷ ws) target role

  -- `operation`
  unfoldable pub operation :
      String → List String → Option String → Option String → Action (Answer × List (String × Bool))
  operation now args target role =
      answered (record { is_ok = false; entries = [] }, []) (run_operation now args target role)
