-- ===== src/Link/Senders.antt =====
-- Who a forwarded command is for, and which peers `LinkServer` turns away.
use mathlib.Core.Path.{subst₂}
use endbot.Prelude.{
  ◌≡◌, refl, sym, ap, subst, ◌∙◌, ◌⊎◌, inl, inr, ℕ, false, not, Option, none, some, [], ◌∷◌, String,
  ◌==◌, contains, Json, Dict, as_dict, as_str, get_json, ok, err, ok_inj, Error, invalid,
  link_error, or_raise, raise_if, if◌then◌else◌, Bool-cases, bind_returned,
}
use endbot.Principal.{Principal, post_init}
use endbot.Presence.{set_member, Player, player}
use endbot.Link.Server.{
  LinkServer, console_sender, player_sender, language_of, named_sender, sender, token_matches,
  check_hello, handshake,
}

none-some : {x : String} → ◌≡◌ {A = Option String} none (some x) → ⊥
none-some e = cc

some_inj : (x y : String) → ◌≡◌ {A = Option String} (some x) (some y) → x ≡ y
some_inj x y e = cc

-- The second principal is the first but for its language and its origin.
abbrev pub Alike : Principal → Principal → Type 0
Alike p q = q ≡ (record p { language = q.language; origin = q.origin })

module _ (grant_revision : String → ℕ) (role : String → Option String) (s : LinkServer) where
  named_sender_returned :
      (d : Dict Json) (p : Principal)
      → named_sender grant_revision role d s ≡ ok p
      → (id : String) × (language : String) × (origin : Option (Dict Json)) × (p
          ≡ player_sender grant_revision role id language origin (player id s.presence))
  unfolding named_sender
  named_sender_returned d p h =
      let (id, _, e) = bind_returned (or_raise (as_str (get_json "playerId" d)) invalid) _ h in
      let (_, _, e') = bind_returned (raise_if (id == "") invalid) _ e in
      (id, language_of (get_json "language" d), as_dict (get_json "origin" d), sym (ok_inj _ _ e'))

  -- The console, or a player whose id and language alone come from the wire.
  sender_returned :
      (wire : Json) (p : Principal)
      → sender grant_revision role wire s ≡ ok p
      → ((origin : Option (Dict Json)) × (p ≡ console_sender origin))
        ⊎ ((id : String) × (language : String) × (origin : Option (Dict Json)) × (p
              ≡ player_sender grant_revision role id language origin (player id s.presence)))
  unfolding sender
  sender_returned wire p h =
      let (d, _, e) = bind_returned (or_raise (as_dict wire) invalid) _ h in
      let (kind, _, e') = bind_returned (set_member (get_json "kind" d)) _ e in
      let (_, _, e'') =
        bind_returned (raise_if (not (contains kind ("player" ∷ "console" ∷ []))) invalid) _ e' in
      let (q, made, e3) =
        bind_returned
          (if kind == "console"
            then ok (console_sender (as_dict (get_json "origin" d)))
            else named_sender grant_revision role d s)
          _ e'' in
      let (_, _, e4) = bind_returned (post_init q) _ e3 in
      subst
        (λ x.
          ((origin : Option (Dict Json)) × (x ≡ console_sender origin))
          ⊎ ((id : String) × (language : String) × (origin : Option (Dict Json)) × (x
                ≡ player_sender grant_revision role id language origin (player id s.presence))))
        (ok_inj _ _ e4)
        (elim (Bool-cases (kind == "console")) [
          | inl is_console ↦
              inl (as_dict (get_json "origin" d), sym (ok_inj _ _ (sym (rw is_console) ∙ made)))
          | inr not_console ↦ inr (named_sender_returned d q (sym (rw not_console) ∙ made))
        ])

  player_sender-player_id :
      (id language : String) (origin : Option (Dict Json)) (o : Option Player)
      → (player_sender grant_revision role id language origin o).player_id ≡ some id
  unfolding player_sender
  player_sender-player_id id language origin none = refl
  player_sender-player_id id language origin (some r) = refl

  -- The language and the origin change nothing else.
  player_sender-language :
      (id language language' : String) (origin origin' : Option (Dict Json)) (o : Option Player)
      → Alike
          (player_sender grant_revision role id language origin o)
          (player_sender grant_revision role id language' origin' o)
  unfolding player_sender
  player_sender-language id language language' origin origin' none = refl
  player_sender-language id language language' origin origin' (some r) = refl

  -- Two forwarded senders with one player id, or without one, are the same principal up to the
  -- language and the origin: the name, the XUID, the role and the revisions are endbotd's own, whatever the wire says.
  pub sender-player_id :
      (wire wire' : Json) (p q : Principal)
      → sender grant_revision role wire s ≡ ok p
      → sender grant_revision role wire' s ≡ ok q
      → p.player_id ≡ q.player_id
      → q ≡ (record p { language = q.language; origin = q.origin })
  unfolding console_sender
  sender-player_id wire wire' p q h k same = elim (sender_returned wire p h) [
    | inl (_, c) ↦ elim (sender_returned wire' q k) [
      | inl (_, c') ↦ subst₂ Alike (sym c) (sym c') refl
      | inr (id', l', o', e') ↦ absurd (
          none-some (
            sym (ap (λ r. r.player_id) c)
            ∙ same
            ∙ ap (λ r. r.player_id) e'
            ∙ player_sender-player_id id' l' o' (player id' s.presence)))
    ]
    | inr (id, l, o, e) ↦ elim (sender_returned wire' q k) [
      | inl (_, c') ↦ absurd (
          none-some (
            sym (ap (λ r. r.player_id) c')
            ∙ sym same
            ∙ ap (λ r. r.player_id) e
            ∙ player_sender-player_id id l o (player id s.presence)))
      | inr (id', l', o', e') ↦
          let ids : id ≡ id' = some_inj id id' (
            sym (player_sender-player_id id l o (player id s.presence))
            ∙ sym (ap (λ r. r.player_id) e)
            ∙ same
            ∙ ap (λ r. r.player_id) e'
            ∙ player_sender-player_id id' l' o' (player id' s.presence)) in
          subst₂ Alike (sym e) (sym e') (
            subst
              (λ x.
                Alike (player_sender grant_revision role id l o (player id s.presence))
                  (player_sender grant_revision role x l' o' (player x s.presence)))
              ids (player_sender-language id l l' o o' (player id s.presence)))
    ]
  ]

-- A peer with a wrong token is turned away, and the server stays as it is: its link, its presence and
-- its CLI connections.
pub handshake-token_matches :
    (message body : Dict Json) (s : LinkServer)
    → as_dict (get_json "body" message) ≡ some body
    → token_matches s.token (get_json "token" body) ≡ false
    → ((handshake message s).0 ≡ s) × ((e : Error) × ((handshake message s).1 ≡ err e))
unfolding handshake check_hello
handshake-token_matches message body s b wrong =
    elim (Bool-cases (token_matches "hello" (get_json "type" message))) [
      | inl hello ↦ (rw (hello, b, wrong), (link_error "unauthorized", rw (hello, b, wrong)))
      | inr other ↦ (rw other, (link_error "protocol", rw other))
    ]
