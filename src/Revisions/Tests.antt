-- ===== src/Revisions/Tests.antt =====
-- Grant revisions on concrete values.
use endbot.Prelude.{ℕ, ◌+◌, arith, lookup, ◌≡◌, refl, some, [], ◌∷◌, String, Dict, ok, StoreFile}
use endbot.Samples.{plain_text, new_file}
use endbot.Revisions.{GrantRevisions, revision_in, get, bump, load_grant_revisions}
use endbot.Revisions.Bump.{IsValid, get-bump, bump_durable}

abbrev once : GrantRevisions
once = record { path = some new_file; revisions = ("uuid-a", 1) ∷ [] }

get-bump_holds :
    get "uuid-a" (bump ("uuid-a" ∷ "uuid-b" ∷ "uuid-a" ∷ []) once).0 ≡ get "uuid-a" once + 1
get-bump_holds = get-bump "uuid-a" ("uuid-a" ∷ "uuid-b" ∷ "uuid-a" ∷ []) once

once-IsValid : IsValid plain_text once
unfolding lookup
once-IsValid = ((refl, omega arith), refl, tt)

bump_durable_example :
    (f' : StoreFile) × (d : Dict ℕ) × ((bump ("uuid-a" ∷ "uuid-b" ∷ []) once).0.path ≡ some f')
    × (load_grant_revisions plain_text f' ≡ ok d)
    × ((j : String) → revision_in j d ≡ get j (bump ("uuid-a" ∷ "uuid-b" ∷ []) once).0)
bump_durable_example =
    bump_durable plain_text "uuid-a" ("uuid-b" ∷ []) once new_file (refl, (refl, tt)) once-IsValid
      refl refl refl
