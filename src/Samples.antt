-- ===== src/Samples.antt =====
-- Concrete values for the tests of the components: texts that are their own normal form, files, and
-- accounts.
use endbot.Prelude.{refl, true, false, none, some, [], ◌∷◌, String, PyText, StoreFile, missing}
use endbot.Principal.{Principal}
use endbot.Enrollment.{Binding, ControllerEnrollment}
use endbot.Presence.{Player}

abbrev pub plain_text : PyText
plain_text = record {
  casefold = λ s. s;
  lower = λ s. s;
  strip = λ s. s;
  is_printable = λ _. true;
  uuid = λ s. some s;
  casefold_idem = λ s. refl;
  strip_idem = λ s. refl;
  strip-is_printable = λ s h. h;
  uuid_canonical = λ s t h. refl;
}

abbrev pub new_file : StoreFile
new_file = record { symlink = false; writable = true; content = missing }

abbrev pub alice_xuid : String
alice_xuid = "2535400000000001"

abbrev pub bob_xuid : String
bob_xuid = "2535400000000002"

abbrev pub alice : Principal
alice = record {
  kind = "player";
  name = some "Alice";
  xuid = some alice_xuid;
  grant_revision = some 0;
  language = "en";
  player_id = some "uuid-a";
  origin = none;
  authorization_revision = some (some "e", 1);
  run_id = none;
  role = some "scripter";
}

abbrev pub bob : Principal
bob = record alice { name = some "Bob"; xuid = some bob_xuid; player_id = some "uuid-b" }

-- A player that is not signed in to Xbox.
abbrev pub guest : Principal
guest = record alice { name = some "Guest"; xuid = none; player_id = some "uuid-g" }

abbrev pub alice_binding : Binding
alice_binding = record {
  gamertag = "Alice";
  xuid = alice_xuid;
  uuid = "uuid-a";
  bound_at = "2026-01-01";
}

abbrev pub alice_player : Player
alice_player = record {
  player_id = "uuid-a";
  name = some "Alice";
  xuid = some alice_xuid;
  locale = some "en_US";
  revision = (some "e", 1);
}

abbrev pub no_bindings : ControllerEnrollment
no_bindings = record {
  gamertags = "Alice" ∷ [];
  bindings_path = some new_file;
  bindings_by_name = [];
}
