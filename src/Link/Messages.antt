-- ===== src/Link/Messages.antt =====
-- What a message that `LinkConnection` reads changes: a reply its future, a request the queues.
use endbot.Prelude.{
  attempt_keeps, as_str, as_dict, get_json, or_raise, link_error, ◌≡◌, refl, ◌⊎◌, inl, inr, Bool,
  true, false, Option, List, String, has_key, Json, ℤ, Dict, Result-cases, Bool-cases,
}
use endbot.Link.Connection.{WireText, LinkConnection, Request, close, accept_reply}
use endbot.Link.Requests.{accept, accept_request, queue_request, note_id}

-- Two states of a connection that agree in all but the queues and the ids seen.
pub record AgreesWith (c d : LinkConnection) : Type 0 where
  pub closed_same : d.closed ≡ c.closed
  pub next_same : d.next_id ≡ c.next_id
  pub made_same : d.made ≡ c.made
  pub pending_same : d.pending ≡ c.pending
  pub resolutions_same : d.resolutions ≡ c.resolutions

agrees : (c : LinkConnection) → AgreesWith c c
agrees c = record {
  closed_same = refl;
  next_same = refl;
  made_same = refl;
  pending_same = refl;
  resolutions_same = refl;
}

queue_request-AgreesWith :
    (pooled : Bool) (r : Request) (seen : Option (List ℤ)) (c : LinkConnection)
    → AgreesWith c (queue_request pooled r (record c { seen = seen }))
unfolding queue_request
queue_request-AgreesWith true r seen c = elim (Bool-cases c.closed) [
  | inl closed ↦
      rw (queue_request, closed)
        (record {
          closed_same = refl;
          next_same = refl;
          made_same = refl;
          pending_same = refl;
          resolutions_same = refl;
        })
  | inr live ↦
      rw (queue_request, live)
        (record {
          closed_same = refl;
          next_same = refl;
          made_same = refl;
          pending_same = refl;
          resolutions_same = refl;
        })
]
queue_request-AgreesWith false r seen c = record {
  closed_same = refl;
  next_same = refl;
  made_same = refl;
  pending_same = refl;
  resolutions_same = refl;
}

accept_request-AgreesWith :
    (concurrent : String → Bool) (i : ℤ) (message : Dict Json) (c : LinkConnection)
    → AgreesWith c (accept_request concurrent i message c).0
unfolding accept_request
accept_request-AgreesWith concurrent i message c =
    attempt_keeps (AgreesWith c)
      (or_raise (as_str (get_json "type" message)) (link_error "protocol")) c _ (agrees c)
      λ kind _.
        attempt_keeps (AgreesWith c)
          (or_raise (as_dict (get_json "body" message)) (link_error "protocol")) c _ (agrees c)
          λ body _.
            attempt_keeps (AgreesWith c) (note_id i c.seen) c _ (agrees c)
              λ noted _. queue_request-AgreesWith (concurrent kind) _ noted.1 c

-- A message is a reply, or a request that is queued or closes the link.
pub accept-cases :
    (wire : WireText) (concurrent : String → Bool) (i : ℤ) (message : Dict Json)
    (c : LinkConnection)
    → (accept wire concurrent i message c ≡ accept_reply wire message c)
      ⊎ ((d : LinkConnection) × AgreesWith c d
          × (((accept wire concurrent i message c).0 ≡ d)
              ⊎ ((accept wire concurrent i message c).0 ≡ close d)))
unfolding accept
accept-cases wire concurrent i message c = elim (Bool-cases (has_key "type" message)) [
  | inr reply ↦ inl (rw (accept, reply))
  | inl request ↦ inr (
    (accept_request concurrent i message c).0,
    accept_request-AgreesWith concurrent i message c,
    (elim (Result-cases (accept_request concurrent i message c).1) [
      | inl (_, e) ↦ inl (rw (accept, request, e))
      | inr (_, e) ↦ inr (rw (accept, request, e))
    ]),
  )
]
