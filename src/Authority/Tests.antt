-- ===== src/Authority/Tests.antt =====
-- The authority on concrete values.
use endbot.Prelude.{
  ℕ, ◌≡◌, ◌⊎◌, refl, true, false, inl, inr, Option, none, some, List, [], ◌∷◌, ◌++◌, ◌<◌, String,
  ◌==◌, arith, ok, Result, contains,
}
use mathlib.Core.Option
use endbot.Samples.{plain_text, new_file, alice, alice_xuid, alice_binding, alice_player}
use endbot.Principal.{console}
use endbot.Enrollment.{Binding, bindings, is_xuid}
use endbot.Policy.{Aliases, empty_policy, controller_name, name_denied, grants_xuid, selected}
use endbot.Presence.{Player, player}
use endbot.Revisions
use endbot.Prelude.{Dict, Json, str, arr, of_list}
use endbot.Authority.Allowlist.{list_at, from_config, is_listed, from_config_lists}
use endbot.Authority.Report.{Row, report}
use endbot.Authority.State.{AllowedPlayers, Authority, or_empty, same_revision, allows, authorize}
use endbot.Authority.Changes.{find_player, is_denied_row, remove_controller}
use endbot.Authority.Revoked.{on_operation, on_refresh, after_all, authorize_stale}
use endbot.Authority.Removal.{remove_controller_denies, removed_forever}
use endbot.Authority.Decision.{IsBootstrapped, allows_sound, authorize_sound}

-- A text without blanks and quotes is one word.
abbrev one_word : String → Result (List String)
one_word s = ok (s ∷ [])

-- Alice has a binding and is online.
abbrev with_alice : Authority
with_alice = record {
  presence = record { epoch = some "e"; joins = 1; players = ("uuid-a", alice_player) ∷ [] };
  allowed = record { uuids = []; xuids = [] };
  controllers = record {
    gamertags = "Alice" ∷ [];
    bindings_path = none;
    bindings_by_name = ("Alice", alice_binding) ∷ [];
  };
  policy = record { path = new_file; state = empty_policy };
  grant_revisions = record { path = none; revisions = [] };
  roles = record { path = none; by_xuid = []; waiting = [] };
  granted = [];
}

alice_allowed : allows plain_text alice_player with_alice ≡ ok true
unfolding allows endbot.Authority.State.control_decision is_xuid endbot.Prelude.is_decimal
    grants_xuid endbot.Policy.granted_among name_denied bindings
alice_allowed = refl

allows_sound_example :
    let s = with_alice.policy.state in
    (is_xuid alice_xuid ≡ true)
    × (contains alice_xuid s.denied_xuids ≡ false)
    × (contains "uuid-a" s.denied_uuids ≡ false)
    × ((grants_xuid plain_text alice_xuid s ≡ ok true)
        ⊎ ((name_denied plain_text "Alice" s ≡ false)
            × IsBootstrapped plain_text alice_xuid "uuid-a" with_alice))
allows_sound_example = allows_sound plain_text alice_player with_alice alice_allowed

alice_authorized : authorize plain_text alice with_alice ≡ ok true
unfolding authorize console Revisions.get endbot.Prelude.lookup
    endbot.Authority.State.authorize_identity player allows endbot.Authority.State.control_decision
    is_xuid endbot.Prelude.is_decimal grants_xuid endbot.Policy.granted_among name_denied bindings
    same_revision
alice_authorized = refl

not_console : console alice ≡ false
unfolding console
not_console = refl

authorize_sound_holds :
    (i : String) × (r : Player) × (v : Option String × ℕ) × (alice.player_id ≡ some i)
    × (alice.grant_revision ≡ some (Revisions.get i with_alice.grant_revisions))
    × (player i with_alice.presence ≡ some r)
    × (allows plain_text r with_alice ≡ ok true)
    × (alice.authorization_revision ≡ some v)
    × (same_revision v r.revision ≡ true)
authorize_sound_holds =
    authorize_sound plain_text alice with_alice alice_authorized not_console refl

abbrev bumped : Authority
bumped = record with_alice {
  grant_revisions = record { path = none; revisions = ("uuid-a", 1) ∷ [] };
}

bumped_above : 0 < Revisions.get "uuid-a" bumped.grant_revisions
unfolding Revisions.get endbot.Prelude.lookup
bumped_above = omega arith

authorize_stale_example :
    authorize plain_text alice (
      after_all plain_text one_word
        (on_operation "2026-01-01" ("add" ∷ "Alice" ∷ []) none none ∷ on_refresh ∷ [])
        bumped)
    ≡ ok false
authorize_stale_example =
    authorize_stale plain_text one_word alice "uuid-a" 0
      (on_operation "2026-01-01" ("add" ∷ "Alice" ∷ []) none none ∷ on_refresh ∷ []) bumped
      not_console refl refl bumped_above

abbrev alice_target : Aliases
alice_target = record { names = "Alice" ∷ []; xuids = alice_xuid ∷ []; uuids = "uuid-a" ∷ [] }

alice_named : controller_name plain_text "Alice" ≡ ok "Alice"
unfolding controller_name
alice_named = refl

alice_selected :
    selected plain_text "Alice"
      (Option.map (λ r. or_empty r.xuid) (find_player plain_text "Alice" with_alice))
      (Option.map (λ r. r.player_id) (find_player plain_text "Alice" with_alice))
    ≡ ok alice_target
unfolding selected endbot.Presence.online is_xuid endbot.Prelude.is_decimal
alice_selected = refl

alice_bound : bindings with_alice.controllers ++ [] ≡ alice_binding ∷ []
unfolding bindings
alice_bound = refl

abbrev alice_row : Row
alice_row = record {
  name = "Alice";
  state = "allowed";
  reason = "bootstrap binding";
  xuid = some alice_xuid;
  uuid = some "uuid-a";
  is_online = true;
  granted_role = some "scripter";
}

alice_removal :
    ((remove_controller plain_text "Alice" with_alice).1 ≡ ok tt)
    × (is_denied_row plain_text
          (remove_controller plain_text "Alice" with_alice).0.policy.state
          alice_row
        ≡ true)
unfolding remove_controller is_denied_row report endbot.Authority.Action.◌>>=◌
    endbot.Authority.Action.reads endbot.Authority.Action.gets endbot.Authority.Action.on_policy
    endbot.Authority.Action.on_revisions endbot.Authority.Action.on_roles
    endbot.Authority.Changes.drop_roles endbot.Authority.Changes.record_removal
    endbot.Authority.Changes.remove_from_policy endbot.Policy.absorb endbot.Policy.absorb_all
    endbot.Policy.remove endbot.Policy.revoked_state endbot.Policy.save controller_name selected
    endbot.Prelude.erase endbot.Prelude.insert endbot.Prelude.replace_document Revisions.bump
    Revisions.bump_each Revisions.distinct Revisions.raise_all Revisions.save endbot.Roles.erase_all
    endbot.Roles.forget endbot.Roles.forget_pending endbot.Roles.save
    endbot.Authority.Report.binding_rows endbot.Authority.Report.add_binding
    endbot.Authority.Report.account_row endbot.Authority.Report.online_rows
    endbot.Authority.Report.add_online endbot.Authority.Report.add_name
    endbot.Authority.Report.identity_row endbot.Authority.Report.identity_rows
    endbot.Authority.Report.name_rows endbot.Authority.Report.place_row
    endbot.Authority.Report.sort_rows endbot.Authority.State.control_decision is_xuid bindings
    grants_xuid name_denied endbot.Policy.granted_among endbot.Policy.denied endbot.Presence.online
    endbot.Prelude.is_decimal endbot.Prelude.lookup endbot.Prelude.sorted_set
    endbot.Enrollment.pending endbot.Roles.pending_role endbot.Roles.role
alice_removal = (refl, refl)

remove_controller_denies_example :
    allows plain_text alice_player (remove_controller plain_text "Alice" with_alice).0 ≡ ok false
remove_controller_denies_example =
    remove_controller_denies plain_text "Alice" with_alice alice_binding alice_binding [] [] [] []
      alice_player alice_named alice_selected alice_bound alice_bound refl (inl refl) refl
      alice_removal.0

alice_reported : report plain_text with_alice ≡ ok (alice_row ∷ [])
unfolding report endbot.Authority.Report.binding_rows endbot.Authority.Report.add_binding
    endbot.Authority.Report.account_row endbot.Authority.Report.online_rows
    endbot.Authority.Report.add_online endbot.Authority.Report.add_name
    endbot.Authority.Report.identity_row endbot.Authority.Report.identity_rows
    endbot.Authority.Report.name_rows endbot.Authority.Report.place_row
    endbot.Authority.Report.sort_rows endbot.Authority.State.control_decision is_xuid bindings
    grants_xuid name_denied endbot.Policy.granted_among endbot.Policy.denied endbot.Presence.online
    endbot.Prelude.is_decimal endbot.Prelude.lookup endbot.Prelude.sorted_set
    endbot.Enrollment.pending endbot.Roles.pending_role endbot.Roles.role
alice_reported = refl

alice_current : alice.grant_revision ≡ some (Revisions.get "uuid-a" with_alice.grant_revisions)
unfolding Revisions.get endbot.Prelude.lookup
alice_current = refl

removed_forever_example :
    authorize plain_text alice (
      after_all plain_text one_word
        (on_operation "2026-01-01" ("add" ∷ "Alice" ∷ []) none none ∷ on_refresh ∷ [])
        (remove_controller plain_text "Alice" with_alice).0)
    ≡ ok false
removed_forever_example =
    removed_forever plain_text one_word "Alice" with_alice [] [] alice_row "uuid-a" alice
      (on_operation "2026-01-01" ("add" ∷ "Alice" ∷ []) none none ∷ on_refresh ∷ []) alice_reported
      refl refl alice_removal.0 alice_removal.1 not_console refl alice_current

abbrev listing : Dict Json
listing = ("allowed-uuids", arr (of_list (str "uuid-a" ∷ str "uuid-b" ∷ []))) ∷ []

abbrev listed : AllowedPlayers
listed = record { uuids = "uuid-a" ∷ "uuid-b" ∷ []; xuids = [] }

listing_uuids : list_at "allowed-uuids" listing ≡ ok (str "uuid-a" ∷ str "uuid-b" ∷ [])
unfolding list_at endbot.Prelude.lookup
listing_uuids = refl

listing_read : from_config plain_text listing ≡ ok listed
unfolding from_config list_at endbot.Prelude.lookup endbot.Authority.Allowlist.parse_uuids
    endbot.Authority.Allowlist.parse_xuids
listing_read = refl

from_config_lists_holds : is_listed plain_text "uuid-b" "" listed ≡ true
from_config_lists_holds =
    from_config_lists plain_text listing listed (str "uuid-a" ∷ []) [] "uuid-b" "uuid-b" ""
      listing_uuids listing_read refl
