-- ===== src/Policy/Tests.antt =====
-- The controller policy on concrete values.
use endbot.Prelude.{
  ◌≡◌, refl, true, false, inl, inr, Option, none, some, [], ◌∷◌, String, ok, contains,
}
use endbot.Samples.{plain_text, new_file, alice_xuid, bob_xuid, alice_binding}
use endbot.Enrollment.{Binding}
use endbot.Policy.{
  Policy, ControllerPolicy, Aliases, empty_policy, controller_name, denied, name_denied,
  grants_xuid, selected, add, enroll, remove,
}
use endbot.Policy.Revocation.{Revoked, remove_revokes}
use endbot.Policy.Grants.{enroll_keeps_denied, add_grants}

abbrev pending_alice : ControllerPolicy
pending_alice = record {
  path = new_file;
  state = record empty_policy { pending = "Alice" ∷ []; denied_xuids = bob_xuid ∷ [] };
}

enroll_keeps_denied_holds :
    denied plain_text bob_xuid "uuid-b"
      (enroll plain_text "2026-01-01" "Alice" alice_xuid "uuid-a" pending_alice).0.state
    ≡ denied plain_text bob_xuid "uuid-b" pending_alice.state
enroll_keeps_denied_holds =
    enroll_keeps_denied plain_text "2026-01-01" "Alice" alice_xuid "uuid-a" pending_alice bob_xuid
      "uuid-b"

bob_named : controller_name plain_text "Bob" ≡ ok "Bob"
unfolding controller_name
bob_named = refl

bob_added :
    (add plain_text "2026-01-01" "Bob" (some bob_xuid) (some "uuid-b") pending_alice).1 ≡ ok tt
unfolding add controller_name endbot.Policy.is_selector endbot.Policy.add_account
    endbot.Enrollment.is_xuid endbot.Prelude.is_decimal endbot.Policy.save
    endbot.Prelude.replace_document
bob_added = refl

add_grants_holds :
    let s' =
      (add plain_text "2026-01-01" "Bob" (some bob_xuid) (some "uuid-b") pending_alice).0.state in
    (grants_xuid plain_text bob_xuid s' ≡ ok true)
    × (contains bob_xuid s'.denied_xuids ≡ false)
    × (name_denied plain_text "Bob" s' ≡ false)
add_grants_holds =
    add_grants plain_text "2026-01-01" "Bob" "Bob" bob_xuid (some "uuid-b") pending_alice bob_named
      bob_added

-- Alice under another GamerTag, with the same XUID.
abbrev renamed : Binding
renamed = record alice_binding { gamertag = "Alicia"; uuid = "uuid-r" }

abbrev granted_alice : ControllerPolicy
granted_alice = record { path = new_file; state = record empty_policy { grants = renamed ∷ [] } }

abbrev alice_target : Aliases
alice_target = record { names = "Alice" ∷ []; xuids = []; uuids = [] }

alice_named : controller_name plain_text "Alice" ≡ ok "Alice"
unfolding controller_name
alice_named = refl

alice_selected : selected plain_text "Alice" none none ≡ ok alice_target
unfolding selected
alice_selected = refl

alice_removed :
    (remove plain_text "Alice" (alice_binding ∷ []) [] none none granted_alice).1 ≡ ok tt
unfolding remove controller_name selected endbot.Policy.absorb_all endbot.Policy.absorb
    endbot.Policy.save endbot.Prelude.replace_document
alice_removed = refl

remove_revokes_example :
    let s' = (remove plain_text "Alice" (alice_binding ∷ []) [] none none granted_alice).0.state in
    Revoked plain_text s' renamed × (grants_xuid plain_text alice_xuid s' ≡ ok false)
remove_revokes_example =
    remove_revokes plain_text "Alice" (alice_binding ∷ []) [] none none granted_alice alice_binding
      renamed [] (renamed ∷ []) (alice_binding ∷ []) [] alice_named alice_selected refl refl refl
      (inr (inl refl)) alice_removed
