-- ===== src/Authority/Removal.antt =====
-- What `remove` of `botcontrollers` (core/src/endbotd/authority.py) leaves behind.
use endbot.Prelude.{
  ◌≡◌, refl, sym, ap, subst, ◌∙◌, true, false, Option, none, some, List, [], ◌∷◌, ◌++◌, String,
  ◌==◌, inl, inr, Bool-cases, arith, eq_refl, contains, attempt_keeps, filter_map, if◌then◌else◌,
  ok, Result, PyText, Outcome, attempt-eq-ok,
}
use mathlib.Core.Option
use endbot.Principal.{Principal, console}
use endbot.Enrollment.{Binding, bindings, is_xuid}
use endbot.Policy.{Policy, ControllerPolicy, Aliases, controller_name, selected}
use endbot.Policy.Revocation.{touches, Linked, remove_revokes}
use endbot.Presence.{Player}
use endbot.Revisions
use endbot.Revisions.{GrantRevisions}
use endbot.Revisions.Bump.{get-bump}
use endbot.Roles.{ControllerRoles}
use endbot.Authority.Action.{
  ◌>>=◌, gets, reads, on_policy, on_revisions, on_roles, Keeps, keeps_rules,
}
use endbot.Authority.Report.{Row, report}
use endbot.Authority.State.{Authority, or_empty, control_decision, allows, authorize}
use endbot.Authority.Changes.{
  non_empty, find_player, is_denied_row, drop_roles, record_removal, remove_from_policy,
  remove_controller,
}
use endbot.Authority.Revoked.{Call, after_all, authorize_stale, IsPast, Keeps-drop_roles}

module _ (p : ControllerPolicy) where
  HasPolicy : Authority → Type 0
  HasPolicy a = a.policy ≡ p

  Keeps-policy_revisions :
      {A : Type 0} (m : GrantRevisions → Outcome GrantRevisions A)
      → Keeps HasPolicy (on_revisions m)
  unfolding on_revisions HasPolicy
  Keeps-policy_revisions m = record { at = λ a h. h }

  Keeps-policy_roles :
      {A : Type 0} (m : ControllerRoles → Outcome ControllerRoles A) → Keeps HasPolicy (on_roles m)
  unfolding on_roles HasPolicy
  Keeps-policy_roles m = record { at = λ a h. h }

  Keeps-policy_removal :
      (py : PyText) (target : String) (before : List Row)
      → Keeps HasPolicy (record_removal py target before)
  unfolding record_removal drop_roles
  Keeps-policy_removal py target before =
      search (keeps_rules, Keeps-policy_revisions, Keeps-policy_roles) depth 20

module _ (py : PyText) where
  abbrev removed : String → Authority → Authority
  removed target a = record a { policy = (remove_from_policy py target a).0 }

  remove_controller_returned :
      (target : String) (a : Authority)
      → (remove_controller py target a).1 ≡ ok tt
      → (before : List Row) × (report py a ≡ ok before)
        × ((remove_from_policy py target a).1 ≡ ok tt)
        × (remove_controller py target a ≡ record_removal py target before (removed target a))
  unfolding remove_controller ◌>>=◌ reads gets on_policy
  remove_controller_returned target a h =
      let (before, reported, e) = attempt-eq-ok (report py a) a _ h in
      let (_, done, e') =
        attempt-eq-ok (remove_from_policy py target a).1 (removed target a) _
          (sym (ap (λ o. o.1) e) ∙ h) in
      (before, reported, done, e ∙ e')

  -- The policy after a removal that returned is the one that `policy.remove` left.
  removed_policy :
      (target : String) (a : Authority)
      → (remove_controller py target a).1 ≡ ok tt
      → (remove_controller py target a).0.policy ≡ (remove_from_policy py target a).0
  unfolding HasPolicy
  removed_policy target a h =
      let (before, _, _, e) = remove_controller_returned target a h in
      ap (λ o. o.0.policy) e
      ∙ (Keeps-policy_removal (remove_from_policy py target a).0 py target before).at _ refl

  decision_revoked :
      (r : Player) (x : String) (a : Authority)
      → r.xuid ≡ some x
      → contains x a.policy.state.denied_xuids ≡ true
      → allows py r a ≡ ok false
  unfolding allows control_decision
  decision_revoked r x a is_x revoked = elim (Bool-cases (is_xuid x)) [
    | inl e ↦ rw (is_x, e, revoked, ◌>>=◌)
    | inr e ↦ rw (is_x, e, ◌>>=◌)
  ]

  -- If a removal returned, and the target selects an account among the bindings and the grants, then the
  -- decision about a player is no where the player has the XUID of an account among the bindings and the grants that is linked to the
  -- selected one.
  pub remove_controller_denies :
      (given : String) (a : Authority) {target : String} {start : Aliases} (b c : Binding)
      (ws xs ys zs : List Binding) (r : Player)
      → controller_name py given ≡ ok target
      → selected py target
          (Option.map (λ r. or_empty r.xuid) (find_player py given a))
          (Option.map (λ r. r.player_id) (find_player py given a))
        ≡ ok start
      → bindings a.controllers ++ a.policy.state.grants ≡ ws ++ b ∷ xs
      → bindings a.controllers ++ a.policy.state.grants ≡ ys ++ c ∷ zs
      → touches py start b ≡ true
      → Linked py b c
      → r.xuid ≡ some c.xuid
      → (remove_controller py given a).1 ≡ ok tt
      → allows py r (remove_controller py given a).0 ≡ ok false
  unfolding remove_from_policy
  remove_controller_denies given a b c ws xs ys zs r named chosen at_b at_c touched linked is_c
        returned =
      let (_, _, done, _) = remove_controller_returned given a returned in
      let (revoked, _) =
        remove_revokes py given (bindings a.controllers) a.controllers.gamertags
          (Option.map (λ r. or_empty r.xuid) (find_player py given a))
          (Option.map (λ r. r.player_id) (find_player py given a)) a.policy b c ws xs ys zs named
          chosen at_b at_c touched linked done in
      decision_revoked r _ _ is_c (
        ap (λ p. contains c.xuid p.state.denied_xuids) (removed_policy given a returned)
        ∙ revoked.xuid)

  filter_map-middle :
      {A : Type 0} (f : A → Option String) (ws xs : List A) (w : A) {u : String}
      → f w ≡ some u
      → contains u (filter_map f (ws ++ w ∷ xs)) ≡ true
  filter_map-middle f [] xs w {u = u} e = rw (e, eq_refl u)
  filter_map-middle f (v ∷ ws) xs w e = ground (arith, filter_map-middle f ws xs w e)

  -- Raised or not in the middle, the last part of a removal leaves the bumped revisions.
  record_removal-IsPast :
      (target : String) (before : List Row) (u : String) (a : Authority)
      → contains u (
          filter_map
            (λ w. if is_denied_row py a.policy.state w then non_empty w.uuid else none)
            before)
        ≡ true
      → IsPast u (Revisions.get u a.grant_revisions) (record_removal py target before a).0
  unfolding record_removal ◌>>=◌ gets on_revisions
  record_removal-IsPast target before u a h =
      let uuids =
        filter_map (λ w. if is_denied_row py a.policy.state w then non_empty w.uuid else none)
          before in
      let bumped : Authority = record a {
        grant_revisions = (Revisions.bump uuids a.grant_revisions).0;
      } in
      let past : IsPast u (Revisions.get u a.grant_revisions) bumped =
        ground (arith, get-bump u uuids a.grant_revisions) in
      attempt_keeps (IsPast u (Revisions.get u a.grant_revisions))
        (Revisions.bump uuids a.grant_revisions).1 bumped (λ _. drop_roles py target before bumped)
        past
        (λ _ _.
          (Keeps-drop_roles u (Revisions.get u a.grant_revisions) py target before).at bumped past)

  listed :
      (s : Policy) (w : Row) (u : String)
      → w.uuid ≡ some u
      → (u == "") ≡ false
      → is_denied_row py s w ≡ true
      → (if is_denied_row py s w then non_empty w.uuid else none) ≡ some u
  listed s w u is_u not_empty denied = rw (denied, is_u, not_empty)

  removed-IsPast :
      (given : String) (a : Authority) (ws xs : List Row) (w : Row) (u : String)
      → report py a ≡ ok (ws ++ w ∷ xs)
      → w.uuid ≡ some u
      → (u == "") ≡ false
      → (remove_controller py given a).1 ≡ ok tt
      → is_denied_row py (remove_controller py given a).0.policy.state w ≡ true
      → IsPast u (Revisions.get u a.grant_revisions) (remove_controller py given a).0
  removed-IsPast given a ws xs w u reported is_u not_empty returned denied =
      let (before, reported', _, e) = remove_controller_returned given a returned in
      let same : before ≡ ws ++ w ∷ xs = cc in
      let denied' : is_denied_row py (removed given a).policy.state w ≡ true =
        subst (λ p. is_denied_row py p.state w ≡ true) (removed_policy given a returned) denied in
      subst (λ o. IsPast u (Revisions.get u a.grant_revisions) o.0) (sym e)
        (record_removal-IsPast given before u (removed given a)
          (rw (same) (filter_map-middle _ ws xs w (listed _ w u is_u not_empty denied'))))

  -- Every account of the report that is denied after a removal that returned has a grant revision
  -- above the one before, so what its player's work captured before the removal is refused for good,
  -- whatever joins, quits, refreshes and operations of the console follow; the console's work excepted.
  pub removed_forever :
      (split : String → Result (List String)) (given : String) (a : Authority) (ws xs : List Row)
      (w : Row) (u : String) (p : Principal) (cs : List Call)
      → report py a ≡ ok (ws ++ w ∷ xs)
      → w.uuid ≡ some u
      → (u == "") ≡ false
      → (remove_controller py given a).1 ≡ ok tt
      → is_denied_row py (remove_controller py given a).0.policy.state w ≡ true
      → console p ≡ false
      → p.player_id ≡ some u
      → p.grant_revision ≡ some (Revisions.get u a.grant_revisions)
      → authorize py p (after_all py split cs (remove_controller py given a).0) ≡ ok false
  removed_forever split given a ws xs w u p cs reported is_u not_empty returned denied not_console
        of_u captured =
      authorize_stale py split p u (Revisions.get u a.grant_revisions) cs
        (remove_controller py given a).0 not_console of_u captured
        (removed-IsPast given a ws xs w u reported is_u not_empty returned denied)
