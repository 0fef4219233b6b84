-- ===== src/Enrollment/Tests.antt =====
-- Enrolment on concrete values.
use endbot.Prelude.{
  ◌≡◌, ◌≢◌, refl, true, false, Option, none, some, String, arith, ◌==◌, any, eq_iff, ok, lookup,
}
use endbot.Samples.{plain_text, alice_binding, alice_xuid, bob_xuid, no_bindings}
use endbot.Enrollment.{Binding, ControllerEnrollment, bindings, is_xuid, authorize}
use endbot.Enrollment.Permanence.{joined, unchanged, authorize_permanent, authorize_taken}

bound_now :
    (authorize plain_text "2026-01-01" "Alice" alice_xuid "uuid-a" no_bindings).1
    ≡ ok (true, some alice_binding)
unfolding authorize is_xuid endbot.Prelude.is_decimal bindings lookup endbot.Enrollment.bind_new
    endbot.Prelude.overwrite_document
bound_now = refl

abbrev joined_twice : ControllerEnrollment
joined_twice =
    let e = (authorize plain_text "2026-01-01" "Alice" alice_xuid "uuid-a" no_bindings).0 in
    (authorize plain_text "2026-01-02" "Alice" bob_xuid "uuid-b" e).0

authorize_permanent_example :
    let e' = joined_twice in
    (is_xuid alice_xuid ≡ true)
    × (alice_xuid ≡ alice_xuid)
    × (authorize plain_text "2026-02-01" "Renamed" alice_xuid "uuid-2" e' ≡ (e', ok (true, none)))
authorize_permanent_example =
    authorize_permanent plain_text "2026-01-01" "Alice" alice_xuid "uuid-a" no_bindings joined_twice
      "2026-02-01" "Renamed" "uuid-2" bound_now
      (joined "2026-01-02" "Alice" bob_xuid "uuid-b"
        (authorize plain_text "2026-01-01" "Alice" alice_xuid "uuid-a" no_bindings).0 unchanged)

bob_unbound : any (λ c. c.xuid == bob_xuid) (bindings no_bindings) ≡ false
unfolding bindings
bob_unbound = refl

bob_differs : bob_xuid ≢ alice_xuid
bob_differs e = ground (arith, (eq_iff bob_xuid alice_xuid).1 e)

authorize_taken_holds :
    let e' = (authorize plain_text "2026-01-01" "Alice" alice_xuid "uuid-a" no_bindings).0 in
    authorize plain_text "2026-02-01" "Alice" bob_xuid "uuid-b" e' ≡ (e', ok (false, none))
authorize_taken_holds =
    authorize_taken plain_text "2026-01-01" "Alice" alice_xuid "uuid-a" no_bindings "2026-02-01"
      "Alice" bob_xuid "uuid-b" bound_now refl bob_differs bob_unbound
