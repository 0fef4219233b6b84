-- ===== src/Registry/Tests.antt =====
-- The registry on concrete values.
use endbot.Prelude.{◌≡◌, refl, some, ok, lookup, insert}
use endbot.Samples.{plain_text}
use endbot.Registry.{BotIdentity, init, utf8_length, register, get_by_name, get_by_id}
use endbot.Registry.Lookup.{register_finds, register_keeps}

abbrev miner : BotIdentity
miner = record { identity_id = "uuid-1"; name = "Miner" }

abbrev guard_bot : BotIdentity
guard_bot = record { identity_id = "uuid-2"; name = "Guard" }

miner_registered : (register plain_text miner init).1 ≡ ok tt
unfolding register utf8_length lookup
miner_registered = refl

register_finds_holds :
    let r' = (register plain_text miner init).0 in
    (get_by_id "uuid-1" r' ≡ some miner) × (get_by_name plain_text "Miner" r' ≡ some miner)
register_finds_holds = register_finds plain_text miner init "Miner" miner_registered refl

miner_found : get_by_name plain_text "Miner" (register plain_text miner init).0 ≡ some miner
unfolding register utf8_length lookup insert get_by_name
miner_found = refl

register_keeps_holds :
    get_by_name plain_text "Miner"
      (register plain_text guard_bot (register plain_text miner init).0).0
    ≡ some miner
register_keeps_holds =
    register_keeps plain_text guard_bot miner (register plain_text miner init).0 "Miner" miner_found
