-- ===== src/Link/Presences.antt =====
-- The presence of `LinkServer` is the link's, and what it says of a sender is endbotd's own.
use endbot.Prelude.{
  ◌≡◌, refl, sym, ap, subst, ◌∙◌, ◌⊎◌, inl, inr, ℕ, ◌+◌, Bool, true, not, Option, none, some, List,
  [], ◌∷◌, ◌++◌, String, ◌==◌, arith, leb, nat_eq, filter, length, contains, lookup, Json, Dict,
  as_list, as_str, get_json, invalid, unavailable, link_error, or_raise, raise_if, attempt_keeps,
  Bool-cases, Option-cases, Result-cases, raise_if_returned,
}
use endbot.Presence.{
  set_member, Presence, reset, apply, join, join_report, join_reports, player_record,
}
use endbot.Link.Server.{
  LinkServer, Peer, cli_peer, plugin_peer, no_presence, init, check_hello, accept_cli, take_link,
  is_link, open_peer, handshake, link_closed, cli_closed, stop, end_stop, report,
  max_cli_connections,
}

module _ (e : Option String) where
  HasEpoch : Presence → Type 0
  HasEpoch p = p.epoch ≡ e

  join_report-HasEpoch : (j : Json) (p : Presence) → HasEpoch p → HasEpoch (join_report j p).0
  unfolding HasEpoch join_report join
  join_report-HasEpoch j p h =
      attempt_keeps HasEpoch (player_record j (p.epoch, p.joins)) p _ h (λ r _. h)

  join_reports-HasEpoch :
      (js : List Json) (p : Presence) → HasEpoch p → HasEpoch (join_reports js p).0
  unfolding join_reports
  join_reports-HasEpoch [] p h = h
  join_reports-HasEpoch (j ∷ js) p h = elim (Result-cases (join_report j p).1) [
    | inr (_, r) ↦ rw (join_reports, r) (join_report-HasEpoch j p h)
    | inl (_, r) ↦
        rw (join_reports, r)
          (join_reports-HasEpoch js (join_report j p).0 (join_report-HasEpoch j p h))
  ]

  -- A report is about players only.
  apply-HasEpoch : (body : Dict Json) (p : Presence) → HasEpoch p → HasEpoch (apply body p).0
  unfolding apply HasEpoch
  apply-HasEpoch body p h =
      attempt_keeps HasEpoch (set_member (get_json "kind" body)) p _ h λ kind _.
        attempt_keeps HasEpoch
          (raise_if (not (contains kind ("snapshot" ∷ "join" ∷ "quit" ∷ "locale" ∷ []))) invalid) p
          _ h
          λ _ _. attempt_keeps HasEpoch (or_raise p.epoch unavailable) p _ h λ _ _.
            elim (Bool-cases (kind == "snapshot")) [
              | inl snapshot ↦ rw snapshot (
                  attempt_keeps HasEpoch (or_raise (as_list (get_json "players" body)) invalid) p _
                    h λ js _. join_reports-HasEpoch js (record p { players = [] }) h)
              | inr other ↦ rw other (elim (Bool-cases (kind == "join")) [
                | inl joins ↦ rw joins (join_report-HasEpoch (get_json "player" body) p h)
                | inr leaves ↦ rw leaves (
                    attempt_keeps HasEpoch (or_raise (as_str (get_json "playerId" body)) invalid) p
                      _ h
                      λ id _. elim (Bool-cases (kind == "quit")) [
                        | inl quits ↦ rw quits h
                        | inr speaks ↦ rw speaks (elim (Option-cases (lookup id p.players)) [
                          | inl absent ↦ rw absent h
                          | inr (r, found) ↦ rw found h
                        ])
                      ])
              ])
            ]

-- Without a link a report raises and changes nothing.
apply-no_presence : (body : Dict Json) → (apply body no_presence).0 ≡ no_presence
unfolding apply
apply-no_presence body =
    attempt_keeps (λ p. p ≡ no_presence) (set_member (get_json "kind" body)) no_presence _ refl
      λ kind _.
        attempt_keeps (λ p. p ≡ no_presence)
          (raise_if (not (contains kind ("snapshot" ∷ "join" ∷ "quit" ∷ "locale" ∷ []))) invalid)
          no_presence _ refl λ _ _. refl

-- A server with a link has its epoch, one without that has not stopped has no presence at all; few CLI connections are
-- open.
pub record IsCoherent (s : LinkServer) : Type 0 where
  pub linked :
      ((s.link ≡ none) × (s.presence ≡ no_presence))
      ⊎ ((s.link ≡ none) × (s.stopped ≡ true))
      ⊎ ((n : ℕ) × (epoch : String) × (s.link ≡ some n) × (s.presence.epoch ≡ some epoch))
  pub bounded : leb (length s.cli) max_cli_connections ≡ true

report-IsCoherent :
    (body : Dict Json) (s : LinkServer) → IsCoherent s → IsCoherent (report body s).0
unfolding report HasEpoch
report-IsCoherent body s h = record {
  linked = elim h.linked [
    | inl (no_link, empty) ↦
        inl (no_link, ap (λ p. (apply body p).0) empty ∙ apply-no_presence body)
    | inr (inl stopping) ↦ inr (inl stopping)
    | inr (inr (n, epoch, current, e)) ↦
        inr (inr (n, epoch, current, apply-HasEpoch (some epoch) body s.presence e))
  ];
  bounded = h.bounded;
}

take_link-IsCoherent :
    (epoch : String) (s : LinkServer) → IsCoherent s → IsCoherent (take_link epoch s).0
unfolding take_link reset
take_link-IsCoherent epoch s h = elim (Bool-cases s.stopped) [
  | inl stopped ↦ subst IsCoherent (sym (rw (take_link, stopped))) h
  | inr runs ↦
      rw (take_link, runs)
        (record { linked = inr (inr (s.opened, epoch, refl, refl)); bounded = h.bounded })
]

length-snoc : (ns : List ℕ) (n : ℕ) → length (ns ++ n ∷ []) ≡ length ns + 1
length-snoc [] n = omega arith
length-snoc (m ∷ ns) n = ground (arith, length-snoc ns n)

accept_cli-IsCoherent : (s : LinkServer) → IsCoherent s → IsCoherent (accept_cli s).0
unfolding accept_cli
accept_cli-IsCoherent s h = attempt_keeps IsCoherent (raise_if s.stopped unavailable) s _ h λ _ _.
    attempt_keeps IsCoherent (raise_if (leb max_cli_connections (length s.cli)) (link_error "busy"))
      s _ h
      λ _ room. record {
        linked = h.linked;
        bounded = ground (arith, length-snoc s.cli s.opened, raise_if_returned _ _ room);
      }

open_peer-IsCoherent :
    (peer : Peer) (s : LinkServer) → IsCoherent s → IsCoherent (open_peer peer s).0
unfolding open_peer
open_peer-IsCoherent cli_peer s h = accept_cli-IsCoherent s h
open_peer-IsCoherent (plugin_peer epoch) s h = take_link-IsCoherent epoch s h

handshake-IsCoherent :
    (message : Dict Json) (s : LinkServer) → IsCoherent s → IsCoherent (handshake message s).0
unfolding handshake
handshake-IsCoherent message s h =
    attempt_keeps IsCoherent (check_hello s message) s _ h (λ peer _. open_peer-IsCoherent peer s h)

link_closed-IsCoherent : (n : ℕ) (s : LinkServer) → IsCoherent s → IsCoherent (link_closed n s)
unfolding link_closed reset
link_closed-IsCoherent n s h = elim (Bool-cases (is_link n s.link)) [
  | inl same ↦ rw (link_closed, same) (record { linked = inl (refl, refl); bounded = h.bounded })
  | inr other ↦ subst IsCoherent (sym (rw (link_closed, other))) h
]

length-filter :
    (n : ℕ) (ns : List ℕ) → leb (length (filter (λ m. not (nat_eq m n)) ns)) (length ns) ≡ true
length-filter n [] = ground arith
length-filter n (m ∷ ns) = ground (arith, length-filter n ns)

cli_closed-IsCoherent : (n : ℕ) (s : LinkServer) → IsCoherent s → IsCoherent (cli_closed n s)
unfolding cli_closed
cli_closed-IsCoherent n s h = record {
  linked = h.linked;
  bounded = ground (arith, h.bounded, length-filter n s.cli);
}

-- What happens to a server: handshakes, reports of any connection's handler, closed connections, the stop and, at
-- any time after it, its last statement.
pub data Step : LinkServer → LinkServer → Type 0 where
  greeted : (message : Dict Json) (s : LinkServer) → Step s (handshake message s).0
  reported : (body : Dict Json) (s : LinkServer) → Step s (report body s).0
  lost_link : (n : ℕ) (s : LinkServer) → Step s (link_closed n s)
  lost_cli : (n : ℕ) (s : LinkServer) → Step s (cli_closed n s)
  stopping : (s : LinkServer) → Step s (stop s)
  ended : (s : LinkServer) → s.stopped ≡ true → s.link ≡ none → Step s (end_stop s)

pub data Steps : LinkServer → LinkServer → Type 0 where
  done : (s : LinkServer) → Steps s s
  then_step : {s t u : LinkServer} → Steps s t → Step t u → Steps s u

Step-IsCoherent : {s t : LinkServer} → Step s t → IsCoherent s → IsCoherent t
unfolding stop end_stop reset
Step-IsCoherent (greeted message s) h = handshake-IsCoherent message s h
Step-IsCoherent (reported body s) h = report-IsCoherent body s h
Step-IsCoherent (lost_link n s) h = link_closed-IsCoherent n s h
Step-IsCoherent (lost_cli n s) h = cli_closed-IsCoherent n s h
Step-IsCoherent (stopping s) h = record { linked = inr (inl (refl, refl)); bounded = ground arith }
Step-IsCoherent (ended s _ unlinked) h = record {
  linked = inl (unlinked, refl);
  bounded = h.bounded;
}

started : (token registry : String) (takes_cli : Bool) → IsCoherent (init token registry takes_cli)
unfolding init
started token registry takes_cli = record { linked = inl (refl, refl); bounded = ground arith }

followed : {s t : LinkServer} → Steps s t → IsCoherent s → IsCoherent t
followed (done s) h = h
followed (then_step r q) h = Step-IsCoherent q (followed r h)

-- In every state that a server comes to from its start: with a link its presence has an epoch, without one its
-- presence is empty and has no epoch unless the server has stopped, and at most 4 CLI connections are open.
pub Steps-IsCoherent :
    {s : LinkServer} (token registry : String) (takes_cli : Bool)
    → Steps (init token registry takes_cli) s
    → IsCoherent s
Steps-IsCoherent token registry takes_cli r = followed r (started token registry takes_cli)
