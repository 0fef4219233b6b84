-- ===== src/Link/Tests.antt =====
-- The link on concrete values.
use endbot.Prelude.{
  ◌≡◌, refl, ap, true, false, inl, inr, [], ◌∷◌, ◌++◌, ℕ, ◌+◌, ◌-◌, Bool, String, List, Option,
  none, some, ok, err, ◌==◌, Json, Fields, Items, null, bool, int, real, str, arr, obj, field, end,
  pos, negsuc, Dict, arith, if◌then◌else◌, unavailable, length, leb, nat_eq, as_dict, is_some,
  get_json, Error, eq_iff, eq_refl, eq-cases, sym, subst, ◌∙◌, ℤ, map, key_error, Outcome,
}
use endbot.Samples.{alice_player}
use endbot.Principal.{Principal}
use endbot.Presence.{Presence}
use endbot.Link.{as_int, FrameReader, read, encode}
use endbot.Link.Lines.{Bytes, split_line}
use endbot.Link.Stream.{stream}
use endbot.Link.Messaging.{read_many, parse_stream, read_many-parse_stream, read-encode}
use endbot.Link.Connection.{
  WireText, entry, stop, Queued, Request, LinkConnection, Resolution, result_of, exception_of,
  find_key, init, register, transmit, accept_reply, close, give_up,
}
use endbot.Link.Requests.{accept, accept_all, run}
use endbot.Link.Futures.{is_resolved}
use endbot.Link.Lifecycle.{done, then_step}
use endbot.Link.Unique.{run_all, call_firsts, accept_all-run_all}
use endbot.Link.Server
use endbot.Link.Presences
use endbot.Link.Server.{LinkServer, handshake, link_closed, player_sender, sender, token_matches}
use endbot.Link.Presences.{IsCoherent, greeted, lost_link, Steps-IsCoherent}
use endbot.Link.Senders.{sender-player_id, handshake-token_matches}

-- A codec for `{"id": n}` alone: one byte.
abbrev id_field : Fields → Option ℕ
id_field (field k (int (pos n)) end) = if k == "id" then some n else none
id_field _ = none

abbrev one_byte : Option ℕ → Option Bytes
one_byte none = none
one_byte (some n) = some ((n + 100) ∷ [])

abbrev dumps : Json → Option Bytes
dumps (obj fs) = one_byte (id_field fs)
dumps _ = none

abbrev loads : Bytes → Option Json
loads (b ∷ []) = some (obj (field "id" (int (pos (b - 100))) end))
loads _ = none

abbrev IsInverse : Json → Bytes → Type 0
IsInverse j b = (loads b ≡ some j) × (split_line b ≡ none)

nothing : (b : Bytes) → ◌≡◌ {A = Option Bytes} none (some b) → ⊥
nothing b e = cc

one : (b : Bytes) (m : ℕ) → ◌≡◌ {A = Option Bytes} (some (m ∷ [])) (some b) → m ∷ [] ≡ b
one b m e = cc

inverse_fields : (fs : Fields) (b : Bytes) → one_byte (id_field fs) ≡ some b → IsInverse (obj fs) b
unfolding split_line
inverse_fields end b h = absurd (cc)
inverse_fields (field k null fs) b h = absurd (cc)
inverse_fields (field k (bool x) fs) b h = absurd (cc)
inverse_fields (field k (int (negsuc n)) fs) b h = absurd (cc)
inverse_fields (field k real fs) b h = absurd (cc)
inverse_fields (field k (str s) fs) b h = absurd (cc)
inverse_fields (field k (arr js) fs) b h = absurd (cc)
inverse_fields (field k (obj gs) fs) b h = absurd (cc)
inverse_fields (field k (int (pos n)) (field j v fs)) b h = absurd (cc)
inverse_fields (field k (int (pos n)) end) b h = elim (eq-cases k "id") [
  | inr other ↦ absurd (nothing b (sym (rw other) ∙ h))
  | inl same ↦
      let e : (k == "id") ≡ true = ground (arith, eq_iff k "id") in
      subst (IsInverse (obj (field k (int (pos n)) end))) (one b (n + 100) (sym (rw e) ∙ h))
        (rw same (ap (λ m. some (obj (field "id" (int (pos m)) end))) (omega arith)), ground arith)
]

inverse : (j : Json) (b : Bytes) → dumps j ≡ some b → IsInverse j b
inverse null b h = absurd (cc)
inverse (bool x) b h = absurd (cc)
inverse (int z) b h = absurd (cc)
inverse real b h = absurd (cc)
inverse (str s) b h = absurd (cc)
inverse (arr js) b h = absurd (cc)
inverse (obj fs) b h = inverse_fields fs b h

abbrev seven : Dict Json
seven = ("id", int (pos 7)) ∷ []

abbrev seven_json : Json
seven_json = obj (field "id" (int (pos 7)) end)

-- Its frame arrives in two chunks, before the start of another one.
abbrev two_chunks : FrameReader
two_chunks = record { buffer = []; incoming = (107 ∷ []) ∷ (10 ∷ 108 ∷ []) ∷ [] }

seven_has_id : is_some (as_int (get_json "id" seven)) ≡ true
unfolding endbot.Prelude.lookup
seven_has_id = refl

seven_encoded : encode dumps seven_json ≡ ok (107 ∷ 10 ∷ [])
unfolding encode
seven_encoded = refl

seven_streamed : stream two_chunks ≡ (107 ∷ 10 ∷ []) ++ 108 ∷ []
unfolding stream endbot.Link.Stream.received
seven_streamed = refl

read-encode_example :
    ((read loads two_chunks).1 ≡ ok seven) × (stream (read loads two_chunks).0 ≡ 108 ∷ [])
read-encode_example =
    read-encode dumps loads inverse seven_json seven two_chunks (107 ∷ 10 ∷ []) (108 ∷ []) refl
      seven_has_id seven_encoded seven_streamed

read_many-parse_stream_example :
    read_many loads 3 two_chunks ≡ parse_stream loads 3 (stream two_chunks)
read_many-parse_stream_example = read_many-parse_stream loads 3 two_chunks

-- One request and its reply, and then the close with a second request outstanding.
abbrev fresh_link : LinkConnection
fresh_link = init 1 false

abbrev reply_1 : Dict Json
reply_1 = ("id", int (pos 1)) ∷ ("ok", bool true) ∷ ("result", str "done") ∷ []

abbrev no_text : WireText
no_text = record { str_of = λ _. ""; formats = λ _ _. false }

abbrev one_sent : LinkConnection
one_sent = (register fresh_link).0

abbrev both_sent : LinkConnection
both_sent = (register one_sent).0

abbrev answered_1 : LinkConnection
answered_1 = (accept no_text (λ _. false) (pos 1) reply_1 both_sent).0

abbrev all_patient : ℕ → Bool
all_patient _ = true

-- A refusal whose template cannot be formatted: its future is neither pending nor resolved, also after the close.
abbrev reply_lost : Dict Json
reply_lost =
    ("id", int (pos 1))
    ∷ ("ok", bool false)
    ∷ (
      "error",
      obj (
          field "code" (str "invalid")
            (field "template" (str "{x}") (field "params" (obj end) end))),
    )
    ∷ []

abbrev lost_1 : LinkConnection
lost_1 = (accept no_text (λ _. false) (pos 1) reply_lost both_sent).0

reply_lost_raises :
    ((accept no_text (λ _. false) (pos 1) reply_lost both_sent).1 ≡ err key_error)
    × (is_resolved 0 (close lost_1).resolutions ≡ false)
unfolding close accept endbot.Prelude.lookup accept_reply endbot.Link.Connection.reply_to find_key
    endbot.Link.Connection.own_id register init endbot.Link.Connection.resolution_of
    endbot.Link.Connection.error_from_wire endbot.Link.Connection.refusal
    endbot.Link.Connection.wire_code endbot.Link.Connection.settle_all endbot.Link.Connection.settle
    endbot.Link.Connection.pop_key
reply_lost_raises = (refl, refl)

-- A CLI connection on which an id comes twice.
abbrev is_duplicate : Queued Request → Bool
is_duplicate stop = false
is_duplicate (entry r) = r.duplicate

abbrev ask : Dict Json
ask = ("id", int (pos 5)) ∷ ("type", str "status") ∷ ("body", obj end) ∷ []

abbrev asks : List (ℤ × Dict Json)
asks = (pos 5, ask) ∷ (pos 5, ask) ∷ []

asked_once :
    map is_duplicate (accept_all no_text (λ _. false) asks (init 1 true)).0.ordered
    ≡ false ∷ true ∷ []
unfolding accept_all init accept endbot.Prelude.lookup endbot.Link.Requests.accept_request
    endbot.Link.Requests.note_id endbot.Link.Requests.queue_request endbot.Link.Requests.int_eq
asked_once = refl

abbrev counting : String → Option (Dict Json → ℕ → Outcome ℕ Json)
counting _ = some (λ _ n. (n + 1, ok null))

asks_read : as_int (get_json "id" ask) ≡ some (pos 5)
unfolding endbot.Prelude.lookup
asks_read = refl

asks_counted : run_all counting (accept_all no_text (λ _. false) asks (init 1 true)).0.ordered 0 ≡ 1
unfolding run_all run accept_all init accept endbot.Prelude.lookup
    endbot.Link.Requests.accept_request endbot.Link.Requests.note_id
    endbot.Link.Requests.queue_request endbot.Link.Requests.int_eq
asks_counted = refl

accept_all-run_all_example :
    let queue = (accept_all no_text (λ _. false) asks (init 1 true)).0.ordered in
    run_all counting queue 0 ≡ call_firsts counting [] queue 0
accept_all-run_all_example =
    accept_all-run_all counting no_text asks 1 0 (asks_read, (asks_read, tt))

-- The plugin links, with Alice online, and a peer with a wrong token knocks.
abbrev hello : Dict Json
hello =
    ("id", int (pos 0))
    ∷ ("type", str "hello")
    ∷ (
      "body",
      obj (
          field "token" (str "secret") (
            field "protocol" (int (pos 2))
              (field "registryHash" (str "r") (field "epoch" (str "e") end)))),
    )
    ∷ []

abbrev bad_body : Dict Json
bad_body = ("token", str "guess") ∷ ("protocol", int (pos 2)) ∷ []

abbrev bad_hello : Dict Json
bad_hello =
    ("id", int (pos 0))
    ∷ ("type", str "hello")
    ∷ ("body", obj (field "token" (str "guess") (field "protocol" (int (pos 2)) end)))
    ∷ []

abbrev waiting_server : LinkServer
waiting_server = Server.init "secret" "r" true

abbrev linked_server : LinkServer
linked_server = (handshake hello waiting_server).0

hello_links : linked_server.link ≡ some 0
unfolding handshake Server.check_hello token_matches endbot.Prelude.lookup Server.init
    Server.is_protocol Server.plugin_hello Server.open_peer Server.take_link
hello_links = refl

Steps-IsCoherent_example : IsCoherent (link_closed 0 linked_server)
Steps-IsCoherent_example = Steps-IsCoherent "secret" "r" true (
    Presences.then_step
      (Presences.then_step (Presences.done waiting_server) (greeted hello waiting_server))
      (lost_link 0 linked_server))

bad_hello_body : as_dict (get_json "body" bad_hello) ≡ some bad_body
unfolding endbot.Prelude.lookup
bad_hello_body = refl

bad_token : token_matches waiting_server.token (get_json "token" bad_body) ≡ false
unfolding token_matches endbot.Prelude.lookup Server.init
bad_token = refl

bad_hello_refused :
    ((handshake bad_hello waiting_server).0 ≡ waiting_server)
    × ((e : Error) × ((handshake bad_hello waiting_server).1 ≡ err e))
bad_hello_refused =
    handshake-token_matches bad_hello bad_body waiting_server bad_hello_body bad_token

abbrev alice_online : LinkServer
alice_online = record waiting_server {
  presence = record {
    epoch = some "e";
    joins = 1;
    players = (alice_player.player_id, alice_player) ∷ [];
  };
}

abbrev no_grants : String → ℕ
no_grants _ = 0

abbrev scripters : String → Option String
scripters _ = some "scripter"

-- The second sender claims another name and XUID.
abbrev alice_wire : Json
alice_wire = obj (field "kind" (str "player") (field "playerId" (str alice_player.player_id) end))

abbrev mallory_wire : Json
mallory_wire = obj (
    field "kind" (str "player") (
      field "playerId" (str alice_player.player_id)
        (field "xuid" (str "1") (field "language" (str "de") end))))

abbrev alice_sends : Principal
alice_sends = player_sender no_grants scripters alice_player.player_id "en" none (some alice_player)

abbrev mallory_sends : Principal
mallory_sends =
    player_sender no_grants scripters alice_player.player_id "de" none (some alice_player)

alice_sent : sender no_grants scripters alice_wire alice_online ≡ ok alice_sends
unfolding sender endbot.Prelude.lookup Server.named_sender endbot.Principal.post_init player_sender
    endbot.Presence.player endbot.Presence.set_member
alice_sent = refl

mallory_sent : sender no_grants scripters mallory_wire alice_online ≡ ok mallory_sends
unfolding sender endbot.Prelude.lookup Server.named_sender endbot.Principal.post_init player_sender
    endbot.Presence.player endbot.Presence.set_member
mallory_sent = refl

same_player_id : alice_sends.player_id ≡ mallory_sends.player_id
unfolding player_sender
same_player_id = refl

sender-player_id_example :
    mallory_sends
    ≡ (record alice_sends { language = mallory_sends.language; origin = mallory_sends.origin })
sender-player_id_example =
    sender-player_id no_grants scripters alice_online alice_wire mallory_wire alice_sends
      mallory_sends alice_sent mallory_sent same_player_id
