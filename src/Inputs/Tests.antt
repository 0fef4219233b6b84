-- ===== src/Inputs/Tests.antt =====
-- The owned inputs on concrete values.
use endbot.Prelude.{
  ℕ, ◌+◌, ◌≡◌, Bool-cases, inl, inr, err, attribute_error, refl, true, false, none, some, List, [],
  ◌∷◌, ◌==◌, any, nat_eq, if◌then◌else◌,
}
use endbot.Inputs.{Held, Request, Sending, sent, unavailable, raised, cleanup}
use endbot.Inputs.Cleanup.{is_ok, is_raised, cleanup_releases}

abbrev walking : Held
walking = record {
  identity = "uuid-1";
  channel = "move";
  run = "run-1";
  name = some "Bot";
  loop_id = none;
}

abbrev inputs : List Held
inputs =
    walking
    ∷ record walking { channel = "mine"; loop_id = some "l" }
    ∷ record walking { run = "run-2"; channel = "use" }
    ∷ []

-- A runtime that answers once and is gone then; its state counts the requests.
abbrev once : Request → ℕ → ℕ × Sending
once q n = if nat_eq n 0 then (1, sent) else (n + 1, unavailable "gone")

once_raises_nothing : (q : Request) (n : ℕ) → is_raised (once q n).1 ≡ false
once_raises_nothing q n = elim (Bool-cases (nat_eq n 0)) [ inl e ↦ rw e refl | inr e ↦ rw e refl ]

cleanup_releases_example :
    let (held, _, failures) = cleanup once "run-1" inputs 0 in
    (is_ok failures ≡ true) × (any (λ h. h.run == "run-1") held ≡ false)
cleanup_releases_example = cleanup_releases "run-1" once once_raises_nothing inputs 0

-- A reply that is no object leaves the inputs behind it with the run.
abbrev no_object : Request → ℕ → ℕ × Sending
no_object q n = (n + 1, raised attribute_error)

cleanup_aborts :
    let (held, _, failures) = cleanup no_object "run-1" inputs 0 in
    (failures ≡ err attribute_error) × (any (λ h. h.run == "run-1") held ≡ true)
unfolding cleanup endbot.Inputs.cleanup_each endbot.Inputs.pop endbot.Inputs.is_at
    endbot.Inputs.stop_request
cleanup_aborts = (refl, refl)
