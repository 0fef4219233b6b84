-- ===== src/Authority/Revoked.antt =====
-- Grant revisions: work captured before a revocation is refused from then on.
use endbot.Prelude.{
  ℕ, ◌<◌, ◌≡◌, Bool, true, false, Option, some, List, [], ◌∷◌, String, arith, if◌then◌else◌, ok,
  Result, PyText, Outcome, nat_eq,
}
use endbot.Principal.{Principal, console}
use endbot.Policy.{ControllerPolicy}
use endbot.Enrollment.{ControllerEnrollment, Binding}
use endbot.Roles.{ControllerRoles}
use endbot.Presence.{Player}
use endbot.Revisions
use endbot.Revisions.{GrantRevisions}
use endbot.Revisions.Bump.{get-bump}
use endbot.Authority.Action.{
  Keeps-gets, Keeps-pure, Action, ◌>>◌, pure, modify, on_policy, on_controllers, on_revisions,
  on_roles, Keeps, keeps_rules, Keeps-bind,
}
use endbot.Authority.Report.{Row}
use endbot.Authority.Console.{answered, list_rows, change, run_words, run_operation, operation}
use endbot.Authority.State.{Authority, authorize}
use endbot.Authority.Changes.{
  apply_change, apply_permission, apply_permissions, refresh, bind_controller, settle_role,
  joined_one, joined_all, joined, quit, write_role, write_grant, add_controller, remove_controller,
  record_removal, drop_roles,
}

-- A call of the authority, with the time that it reads.
pub data Call : Type 0 where
  on_joined : String → List Player → Bool → Call
  on_quit : String → Call
  on_refresh : Call
  on_operation : String → List String → Option String → Option String → Call

module _ (py : PyText) (split : String → Result (List String)) where
  unfoldable pub run : Call → Action (Unit {0})
  run (on_joined now rs snapshot) = joined py now rs snapshot >> pure tt
  run (on_quit player_id) = quit py player_id
  run on_refresh = refresh py >> pure tt
  run (on_operation now args target role) = operation py split now args target role >> pure tt

  unfoldable pub after_all : List Call → Authority → Authority
  after_all [] a = a
  after_all (c ∷ cs) a = after_all cs (run c a).0

module _ (i : String) (n : ℕ) where
  -- The identity's grant revision is above `n`.
  abbrev pub IsPast : Authority → Type 0
  IsPast a = n < Revisions.get i a.grant_revisions

  Keeps-on_policy :
      {A : Type 0} (m : ControllerPolicy → Outcome ControllerPolicy A) → Keeps IsPast (on_policy m)
  unfolding on_policy
  Keeps-on_policy m = record { at = λ a h. h }

  Keeps-on_controllers :
      {A : Type 0} (m : ControllerEnrollment → Outcome ControllerEnrollment A)
      → Keeps IsPast (on_controllers m)
  unfolding on_controllers
  Keeps-on_controllers m = record { at = λ a h. h }

  Keeps-on_roles :
      {A : Type 0} (m : ControllerRoles → Outcome ControllerRoles A) → Keeps IsPast (on_roles m)
  unfolding on_roles
  Keeps-on_roles m = record { at = λ a h. h }

  Keeps-bump : (is : List String) → Keeps IsPast (on_revisions (Revisions.bump is))
  unfolding on_revisions
  Keeps-bump is = record { at = λ a h. ground (arith, get-bump i is a.grant_revisions) }

  Keeps-apply_change :
      (player_id : String) (allowed : Bool) → Keeps IsPast (modify (apply_change player_id allowed))
  unfolding modify apply_change
  Keeps-apply_change player_id allowed = record { at = λ a h. h }

  ruleset past_rules = (
    keeps_rules, Keeps-on_policy, Keeps-on_controllers, Keeps-on_roles, Keeps-bump,
    Keeps-apply_change,
  )

  module _ (py : PyText) where
    Keeps-apply_permission : (player_id : String) → Keeps IsPast (apply_permission py player_id)
    unfolding apply_permission
    Keeps-apply_permission player_id = search past_rules

    Keeps-apply_permissions : (is : List String) → Keeps IsPast (apply_permissions py is)
    unfolding apply_permissions
    Keeps-apply_permissions [] = search past_rules
    Keeps-apply_permissions (j ∷ js) =
        Keeps-bind _ _ (Keeps-apply_permission j)
          (λ p. Keeps-bind _ _ (Keeps-apply_permissions js) (λ ps. search past_rules))

    Keeps-bind_controller :
        (now name xuid player_id : String)
        → Keeps IsPast (bind_controller py now name xuid player_id)
    unfolding bind_controller
    Keeps-bind_controller now name xuid player_id = search past_rules depth 14

    Keeps-settle_role : (r : Player) → Keeps IsPast (settle_role py r)
    unfolding settle_role
    Keeps-settle_role r = search past_rules depth 14

    Keeps-joined_one : (now : String) (r : Player) → Keeps IsPast (joined_one py now r)
    unfolding joined_one
    Keeps-joined_one now r =
        search (past_rules, Keeps-bind_controller, Keeps-settle_role, Keeps-apply_permission) depth
          10

    Keeps-joined_all : (now : String) (rs : List Player) → Keeps IsPast (joined_all py now rs)
    unfolding joined_all
    Keeps-joined_all now [] = search past_rules
    Keeps-joined_all now (r ∷ rs) =
        Keeps-bind _ _ (Keeps-joined_one now r)
          (λ p. Keeps-bind _ _ (Keeps-joined_all now rs) (λ ps. search past_rules))

    Keeps-snapshot :
        (snapshot : Bool)
        → Keeps IsPast (modify (λ a. if snapshot then record a { granted = [] } else a))
    unfolding modify
    Keeps-snapshot true = record { at = λ a h. h }
    Keeps-snapshot false = record { at = λ a h. h }

    Keeps-joined :
        (now : String) (rs : List Player) (snapshot : Bool)
        → Keeps IsPast (joined py now rs snapshot)
    unfolding joined
    Keeps-joined now rs snapshot =
        Keeps-bind _ _ (Keeps-snapshot snapshot) (λ _. Keeps-joined_all now rs)

    Keeps-refresh : Keeps IsPast (refresh py)
    unfolding refresh
    Keeps-refresh = Keeps-bind _ _ (Keeps-gets _) (λ players. Keeps-apply_permissions _)

    Keeps-quit : (player_id : String) → Keeps IsPast (quit py player_id)
    unfolding quit modify
    Keeps-quit player_id = record { at = λ a h. h }

    Keeps-write_role :
        (target : String) (xuid effective : Option String)
        → Keeps IsPast (write_role py target xuid effective)
    unfolding write_role
    Keeps-write_role target xuid effective = search past_rules depth 14

    Keeps-write_grant :
        (now target : String) (found : Option Player) (bound : Option Binding)
        → Keeps IsPast (write_grant py now target found bound)
    unfolding write_grant
    Keeps-write_grant now target found bound = search past_rules depth 10

    Keeps-add_controller :
        (now target : String) (role : Option String)
        → Keeps IsPast (add_controller py now target role)
    unfolding add_controller
    Keeps-add_controller now target role =
        search (past_rules, Keeps-write_role, Keeps-write_grant) depth 20

    pub Keeps-drop_roles :
        (target : String) (before : List Row) → Keeps IsPast (drop_roles py target before)
    unfolding drop_roles
    Keeps-drop_roles target before = search past_rules depth 20

    Keeps-record_removal :
        (target : String) (before : List Row) → Keeps IsPast (record_removal py target before)
    unfolding record_removal
    Keeps-record_removal target before = search (past_rules, Keeps-drop_roles) depth 20

    Keeps-remove_controller : (target : String) → Keeps IsPast (remove_controller py target)
    unfolding remove_controller
    Keeps-remove_controller target = search (past_rules, Keeps-record_removal) depth 14

    Keeps-answered :
        {A : Type 0} (x : A) (m : Action A) → Keeps IsPast m → Keeps IsPast (answered x m)
    unfolding answered
    Keeps-answered x m k = record { at = λ a h. k.at a h }

    module _ (split : String → Result (List String)) where
      Keeps-list_rows : Keeps IsPast (list_rows py split)
      unfolding list_rows
      Keeps-list_rows = search past_rules

      Keeps-change :
          (now operation target : String) (role : Option String)
          → Keeps IsPast (change py split now operation target role)
      unfolding change
      Keeps-change now operation target role =
          search (past_rules, Keeps-add_controller, Keeps-remove_controller, Keeps-refresh) depth 14

      Keeps-run_words :
          (now operation : String) (rest : List String) (target role : Option String)
          → Keeps IsPast (run_words py split now operation rest target role)
      unfolding run_words
      Keeps-run_words now operation rest target role = search (past_rules, Keeps-change) depth 10

      Keeps-run_operation :
          (now : String) (args : List String) (target role : Option String)
          → Keeps IsPast (run_operation py split now args target role)
      unfolding run_operation
      Keeps-run_operation now [] target role = Keeps-list_rows
      Keeps-run_operation now (w ∷ []) target role =
          search (past_rules, Keeps-list_rows, Keeps-run_words)
      Keeps-run_operation now (w ∷ v ∷ ws) target role =
          Keeps-run_words now (py.lower w) (v ∷ ws) target role

      Keeps-operation :
          (now : String) (args : List String) (target role : Option String)
          → Keeps IsPast (operation py split now args target role)
      unfolding operation
      Keeps-operation now args target role =
          Keeps-answered _ _ (Keeps-run_operation now args target role)

      Keeps-run : (c : Call) → Keeps IsPast (run py split c)
      unfolding run
      Keeps-run (on_joined now rs snapshot) =
          Keeps-bind _ _ (Keeps-joined now rs snapshot) (λ _. Keeps-pure _)
      Keeps-run (on_quit player_id) = Keeps-quit player_id
      Keeps-run on_refresh = Keeps-bind _ _ Keeps-refresh (λ _. Keeps-pure _)
      Keeps-run (on_operation now args target role) =
          Keeps-bind _ _ (Keeps-operation now args target role) (λ _. Keeps-pure _)

      after_all-IsPast :
          (cs : List Call) (a : Authority) → IsPast a → IsPast (after_all py split cs a)
      unfolding after_all
      after_all-IsPast [] a h = h
      after_all-IsPast (c ∷ cs) a h =
          after_all-IsPast cs (run py split c a).0 ((Keeps-run c).at a h)

-- The revision that the work captured is not the one now.
stale : (m n : ℕ) → n < m → nat_eq n m ≡ false
stale m n h = ground arith

module _ (py : PyText) (split : String → Result (List String)) where
  -- Work of a player UUID that captured a grant revision below the current one is refused by
  -- `authorize` after any sequence of joins, quits, refreshes and operations of the console, whether
  -- each of them returns or raises, unless it is the console's.
  pub authorize_stale :
      (p : Principal) (i : String) (n : ℕ) (cs : List Call) (a : Authority)
      → console p ≡ false
      → p.player_id ≡ some i
      → p.grant_revision ≡ some n
      → n < Revisions.get i a.grant_revisions
      → authorize py p (after_all py split cs a) ≡ ok false
  unfolding authorize
  authorize_stale p i n cs a not_console is_i is_n past =
      rw (not_console, is_i, is_n, stale _ n (after_all-IsPast i n py split cs a past))
