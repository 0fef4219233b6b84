-- ===== src/Ownership/Tests.antt =====
-- The ownership store on concrete values.
use endbot.Prelude.{
  ◌≡◌, ◌≢◌, refl, true, false, Option, none, some, [], ◌∷◌, String, arith, eq_iff, Dict, ok, All,
}
use endbot.Samples.{plain_text, new_file, alice, bob, guest, alice_xuid}
use endbot.Ownership
use endbot.Ownership.{
  owner_key, is_owner_text, is_owner_name, Ownership, Tables, OwnershipStore, bots, groups, save,
  parse_kind, parse_identity, get, visible_to, is_owner, load_ownership, parse_document,
  to_document, owns,
}
use endbot.Ownership.Invariant.{IsEntry, IsValid}
use endbot.Ownership.Restart.{
  IsSynced, IsAccepted, after_all, after_all-IsSynced, parse_document-to_document, record_owner,
  set_visibility, forget,
}
use endbot.Ownership.Rules.{
  is_owner-visible_to, get-set_visibility, visible_to-set_visibility, record_owner_first,
  get-forget,
}
use endbot.Ownership.Keys.{owner_key_identifies, owner_key_separates}

abbrev empty_store : OwnershipStore
empty_store = record {
  path = some new_file;
  bots_default = "private";
  groups_default = "shared";
  entries = record { bots_table = []; groups_table = [] };
}

abbrev alice_entry : Ownership
alice_entry = record {
  owner = "xuid:2535400000000001";
  owner_name = some "Alice";
  visibility = "private";
}

abbrev alice_store : OwnershipStore
alice_store = record empty_store {
  entries = record { bots_table = ("bot-1", alice_entry) ∷ []; groups_table = [] };
}

alice_key : owner_key (some alice) ≡ some "xuid:2535400000000001"
unfolding owner_key
alice_key = refl

bob_key : owner_key (some bob) ≡ some "xuid:2535400000000002"
unfolding owner_key
bob_key = refl

alice_owns : is_owner plain_text "bots" "bot-1" (some alice) alice_store ≡ ok true
unfolding is_owner get owner_key parse_kind parse_identity endbot.Prelude.lookup
alice_owns = refl

is_owner-visible_to_holds : visible_to plain_text "bots" "bot-1" (some alice) alice_store ≡ ok true
is_owner-visible_to_holds =
    is_owner-visible_to plain_text "bots" "bot-1" (some alice) alice_store alice_owns

shared_returned :
    (Ownership.set_visibility plain_text "bots" "bot-1" "shared" alice_store).1 ≡ ok tt
unfolding Ownership.set_visibility parse_kind parse_identity endbot.Prelude.lookup
    endbot.Prelude.insert save endbot.Prelude.replace_document
shared_returned = refl

get-set_visibility_holds :
    (e : Ownership) × (get plain_text "bots" "bot-1" alice_store ≡ ok (some e))
    × (get plain_text "bots" "bot-1"
          (Ownership.set_visibility plain_text "bots" "bot-1" "shared" alice_store).0
        ≡ ok (some (record e { visibility = "shared" })))
get-set_visibility_holds =
    get-set_visibility plain_text "bots" "bot-1" "shared" alice_store shared_returned

visible_to-set_visibility_holds :
    visible_to plain_text "bots" "bot-1"
      (some bob)
      (Ownership.set_visibility plain_text "bots" "bot-1" "shared" alice_store).0
    ≡ ok true
visible_to-set_visibility_holds =
    visible_to-set_visibility plain_text "bots" "bot-1" "shared" (some bob) alice_store
      shared_returned

unowned : get plain_text "groups" "group-1" empty_store ≡ ok none
unfolding get parse_kind parse_identity endbot.Prelude.lookup
unowned = refl

record_owner_first_holds :
    let s' = (Ownership.record_owner plain_text "groups" "group-1" (some alice) empty_store).0 in
    (is_owner plain_text "groups" "group-1" (some bob) s' ≡ ok false)
    × (Ownership.record_owner plain_text "groups" "group-1" (some bob) s' ≡ (s', ok tt))
record_owner_first_holds =
    record_owner_first plain_text "groups" "group-1" alice bob empty_store unowned alice_key bob_key

forgotten_returned : (Ownership.forget plain_text "bots" "bot-1" alice_store).1 ≡ ok tt
unfolding Ownership.forget parse_kind parse_identity endbot.Prelude.lookup endbot.Prelude.insert
    save endbot.Prelude.replace_document endbot.Prelude.erase
forgotten_returned = refl

get-forget_holds :
    let s' = (Ownership.forget plain_text "bots" "bot-1" alice_store).0 in
    (get plain_text "bots" "bot-1" s' ≡ ok none)
    × (visible_to plain_text "bots" "bot-1" (some bob) s' ≡ ok true)
    × (is_owner plain_text "bots" "bot-1" (some bob) s' ≡ ok true)
get-forget_holds = get-forget plain_text "bots" "bot-1" (some bob) alice_store forgotten_returned

alice_IsEntry : IsEntry plain_text "bot-1" alice_entry
unfolding is_owner_text is_owner_name
alice_IsEntry = record { canonical = refl; owner_ok = refl; name_ok = refl; visibility_ok = refl }

parse_document-to_document_holds :
    parse_document plain_text (to_document alice_store.entries) ≡ ok alice_store.entries
unfolding endbot.Prelude.sort_items endbot.Prelude.lookup
parse_document-to_document_holds =
    parse_document-to_document plain_text alice_store.entries (alice_IsEntry, refl, tt) tt

empty-IsValid : IsValid plain_text empty_store
empty-IsValid = record {
  bots_default_ok = refl;
  groups_default_ok = refl;
  bots_ok = tt;
  groups_ok = tt;
}

empty-IsSynced : IsSynced plain_text empty_store
unfolding load_ownership endbot.Prelude.read_document
empty-IsSynced = (new_file, empty_store.entries, refl, refl, refl, refl, λ k i. refl)

alice-IsAccepted : IsAccepted (record_owner "bots" "bot-2" (some alice))
unfolding owner_key is_owner_text
alice-IsAccepted = refl

after_all-IsSynced_example :
    let s' =
      after_all plain_text
        (record_owner "bots" "bot-2" (some alice)
          ∷ set_visibility "bots" "bot-2" "shared"
          ∷ forget "bots" "bot-3"
          ∷ [])
        empty_store in
    IsValid plain_text s' × IsSynced plain_text s'
after_all-IsSynced_example =
    after_all-IsSynced plain_text
      (record_owner "bots" "bot-2" (some alice)
        ∷ set_visibility "bots" "bot-2" "shared"
        ∷ forget "bots" "bot-3"
        ∷ [])
      empty_store (alice-IsAccepted, (tt, (tt, tt))) empty-IsValid empty-IsSynced

named : alice_xuid ≢ ""
named e = ground (arith, (eq_iff alice_xuid "").1 e)

same_key : owner_key (some alice) ≡ owner_key (some (record alice { player_id = some "uuid-2" }))
unfolding owner_key
same_key = refl

owner_key_identifies_holds : alice_xuid ≡ alice_xuid
owner_key_identifies_holds =
    owner_key_identifies alice (record alice { player_id = some "uuid-2" }) alice_xuid alice_xuid
      refl named refl named same_key

owner_key_separates_holds : owner_key (some alice) ≢ owner_key (some guest)
owner_key_separates_holds = owner_key_separates alice guest alice_xuid "uuid-g" refl named refl refl
