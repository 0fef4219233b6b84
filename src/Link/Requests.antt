-- ===== src/Link/Requests.antt =====
-- core/src/endbot_core/link.py: the requests that a `LinkConnection` receives and answers.
use endbot.Prelude.{
  Bool, true, false, Option, none, some, List, [], ◌∷◌, ◌++◌, String, leb, nat_eq, any, length,
  Json, ℤ, bool, pos, negsuc, obj, of_dict, Dict, has_key, as_dict, as_str, get_json, Result, ok,
  err, Error, link_error, or_raise, Outcome, attempt, if◌then◌else◌,
}
use endbot.Link.Lines.{Bytes}
use endbot.Link.{encode}
use endbot.Link.Connection.{
  WireText, LinkConnection, Request, entry, max_cli_requests, close, enqueue, accept_reply,
}

unfoldable pub int_eq : ℤ → ℤ → Bool
int_eq (pos m) (pos n) = nat_eq m n
int_eq (negsuc m) (negsuc n) = nat_eq m n
int_eq _ _ = false

-- `id in self._seen`
abbrev pub is_seen : ℤ → List ℤ → Bool
is_seen i = any (λ j. int_eq j i)

-- Whether the id is a duplicate, and the ids seen then; raises on one id too many.
unfoldable pub note_id : ℤ → Option (List ℤ) → Result (Bool × Option (List ℤ))
note_id i none = ok (false, none)
note_id i (some ids) =
    if is_seen i ids
    then ok (true, some ids)
    else if leb max_cli_requests (length ids)
    then err (link_error "protocol")
    else ok (false, some (ids ++ i ∷ []))

-- To the pool, which takes nothing once it is shut down, or behind the other ordered requests.
unfoldable pub queue_request : Bool → Request → LinkConnection → LinkConnection
queue_request true r c = if c.closed then c else record c { pooled = c.pooled ++ r ∷ [] }
queue_request false r c = record c { ordered = c.ordered ++ entry r ∷ [] }

-- `_accept_request`; `concurrent` holds of the types that go to the pool.
unfoldable pub accept_request :
    (String → Bool) → ℤ → Dict Json → LinkConnection → Outcome LinkConnection (Unit {0})
accept_request concurrent i message c =
    attempt (or_raise (as_str (get_json "type" message)) (link_error "protocol")) c λ kind.
      attempt (or_raise (as_dict (get_json "body" message)) (link_error "protocol")) c λ body.
        attempt (note_id i c.seen) c λ noted.
          let request : Request = record {
            identity = get_json "id" message;
            kind = kind;
            body = body;
            duplicate = noted.0;
          } in
          (queue_request (concurrent kind) request (record c { seen = noted.1 }), ok tt)

-- A turn of `_read_loop` with a message that was read, whose id is `i`: a `LinkError` closes the link. An error
-- that a reply raises is none, and ends the loop alone.
unfoldable pub accept :
    WireText → (String → Bool) → ℤ → Dict Json → LinkConnection → Outcome LinkConnection (Unit {0})
accept wire concurrent i message c =
    if has_key "type" message
    then (let (after, outcome) = accept_request concurrent i message c in
        elim outcome [ ok _ ↦ (after, ok tt) | err _ ↦ (close after, ok tt) ])
    else accept_reply wire message c

-- `error_to_wire` is written out by the caller; handlers act on a world `W`.
module _ {W : Type 0} (handlers : String → Option (Dict Json → W → Outcome W Json)) where
  -- What a request leads to: the handler of its type runs, unless the request is a duplicate.
  unfoldable pub run : Request → W → Outcome W Json
  run r w = if r.duplicate then (w, err (link_error "duplicate")) else elim (handlers r.kind) [
    | none ↦ (w, err (link_error "unsupported"))
    | some handler ↦ handler r.body w
  ]

module _ {W : Type 0} (dumps : Json → Option Bytes) (to_wire : Error → Json)
    (handlers : String → Option (Dict Json → W → Outcome W Json)) where
  unfoldable pub reply_to_json : Json → Result Json → Json
  reply_to_json i (ok result) =
      obj (of_dict (("id", i) ∷ ("ok", bool true) ∷ ("result", result) ∷ []))
  reply_to_json i (err e) =
      obj (of_dict (("id", i) ∷ ("ok", bool false) ∷ ("error", to_wire e) ∷ []))

  -- The frame of a reply; a reply that cannot be encoded is replaced by its error.
  unfoldable pub reply_frame : Json → Result Json → Result Bytes
  reply_frame i outcome = elim (encode dumps (reply_to_json i outcome)) [
    | ok frame ↦ ok frame
    | err e ↦ encode dumps (reply_to_json i (err e))
  ]

  -- `_handle`
  unfoldable pub handle : Request → LinkConnection → W → W × Outcome LinkConnection (Unit {0})
  handle r c w =
      let (after, outcome) = run handlers r w in
      (
        after,
        attempt (reply_frame r.identity outcome) c
            λ frame. (if c.closed then c else enqueue frame c, ok tt),
      )

-- `_read_loop` over messages that have been read, with their ids; it ends with the connection.
unfoldable pub accept_all :
    WireText
    → (String → Bool)
    → List (ℤ × Dict Json)
    → LinkConnection
    → Outcome LinkConnection (Unit {0})
accept_all wire concurrent [] c = (c, ok tt)
accept_all wire concurrent ((i, message) ∷ rest) c =
    if c.closed
    then (c, ok tt)
    else (let (c', outcome) = accept wire concurrent i message c in
        elim outcome [ ok _ ↦ accept_all wire concurrent rest c' | err e ↦ (c', err e) ])
