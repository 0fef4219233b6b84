-- ===== src/Link/Connection.antt =====
-- core/src/endbot_core/link.py: `LinkConnection`, its requests, replies and queues.
use endbot.Prelude.{
  ℕ, ◌+◌, Bool, true, false, not, Option, none, some, List, [], ◌∷◌, ◌++◌, String, ◌==◌, leb,
  nat_eq, filter, length, Json, ℤ, int, bool, str, pos, negsuc, obj, of_dict, Dict, lookup, is_some,
  as_dict, as_str, get_json, Result, ok, err, Error, value_error, invalid_state, localized,
  unavailable, link_error, key_error, attempt, ◌>>=◌, Outcome, if◌then◌else◌,
}
use endbot.Link.Lines.{Bytes}
use endbot.Link.{as_int, encode}

-- `MAX_QUEUED_FRAMES` and `MAX_CLI_REQUESTS`
abbrev pub max_queued_frames : ℕ
max_queued_frames = 4096

abbrev pub max_cli_requests : ℕ
max_cli_requests = 64

-- What a `Future` is resolved with.
pub data Resolution : Type 0 where
  result_of : Json → Resolution
  exception_of : Error → Resolution

-- An entry of a queue, or `_STOP`.
pub data Queued (A : Type 0) : Type 0 where
  entry : A → Queued A
  stop : Queued A

-- A request for the ordered thread or the pool.
pub record Request : Type 0 where
  pub identity : Json
  pub kind : String
  pub body : Dict Json
  pub duplicate : Bool

-- A `Future` is its number among the `made` ones; the resolved ones stand in `resolutions`. `seen` is
-- kept only where ids must be unique.
pub record LinkConnection : Type 0 where
  pub closed : Bool
  pub next_id : ℕ
  pub made : ℕ
  pub resolutions : List (ℕ × Resolution)
  pub pending : List (ℕ × ℕ)
  pub outbound : List (Queued Bytes)
  pub ordered : List (Queued Request)
  pub pooled : List Request
  pub seen : Option (List ℤ)

-- A new connection, before `start`.
unfoldable pub init : ℕ → Bool → LinkConnection
init first_id unique_ids = record {
  closed = false;
  next_id = first_id;
  made = 0;
  resolutions = [];
  pending = [];
  outbound = [];
  ordered = [];
  pooled = [];
  seen = if unique_ids then some [] else none;
}

-- The entry of a key.
unfoldable pub find_key : {A : Type 0} → ℕ → List (ℕ × A) → Option A
find_key k [] = none
find_key k ((j, a) ∷ rest) = if nat_eq j k then some a else find_key k rest

-- `pop(key, None)` of a dict
unfoldable pub pop_key : {A : Type 0} → ℕ → List (ℕ × A) → List (ℕ × A)
pop_key k [] = []
pop_key k ((j, a) ∷ rest) =
    let popped = pop_key k rest in if nat_eq j k then popped else (j, a) ∷ popped

-- `Future.done`
abbrev pub is_done : ℕ → LinkConnection → Bool
is_done future c = is_some (find_key future c.resolutions)

-- Resolves a `Future` unless it is done.
unfoldable pub settle : ℕ → Resolution → List (ℕ × Resolution) → List (ℕ × Resolution)
settle future r rs = if is_some (find_key future rs) then rs else (future, r) ∷ rs

unfoldable pub settle_all : List (ℕ × ℕ) → List (ℕ × Resolution) → List (ℕ × Resolution)
settle_all [] rs = rs
settle_all ((_, future) ∷ rest) rs = settle_all rest (settle future (exception_of unavailable) rs)

-- `put_nowait`, `none` where it raises `queue.Full`.
unfoldable pub put_nowait : Queued Bytes → List (Queued Bytes) → Option (List (Queued Bytes))
put_nowait e q = if leb max_queued_frames (length q) then none else some (q ++ e ∷ [])

-- `close`, up to its callback `on_close`, which for endbotd is `link_closed` or `cli_closed` of Server.
unfoldable pub close : LinkConnection → LinkConnection
close c = if c.closed then c else record c {
  closed = true;
  pending = [];
  resolutions = settle_all c.pending c.resolutions;
  outbound = (elim (put_nowait stop c.outbound) [ none ↦ c.outbound | some q ↦ q ]);
  ordered = c.ordered ++ stop ∷ [];
}

-- `_enqueue`
unfoldable pub enqueue : Bytes → LinkConnection → LinkConnection
enqueue frame c = elim (put_nowait (entry frame) c.outbound) [
  | none ↦ close c
  | some q ↦ record c { outbound = q }
]

-- `send` under its lock: the `Future`, and the id of its request unless the link is closed.
unfoldable pub register : LinkConnection → LinkConnection × ℕ × Option ℕ
register c =
    if c.closed
    then (
      record c {
        made = c.made + 1;
        resolutions = settle c.made (exception_of unavailable) c.resolutions;
      },
      c.made,
      none,
    )
    else (
      record c {
        made = c.made + 1;
        next_id = c.next_id + 1;
        pending = c.pending ++ (c.next_id, c.made) ∷ [];
      },
      c.made,
      some c.next_id,
    )

abbrev pub request_to_json : ℕ → String → Dict Json → Json
request_to_json request_id kind body = obj (
    of_dict (("id", int (pos request_id)) ∷ ("type", str kind) ∷ ("body", obj (of_dict body)) ∷ []))

-- The rest of `send`, behind its lock. Setting the exception of a `Future` that a close has resolved
-- in between raises `InvalidStateError`.
unfoldable pub transmit : Result Bytes → ℕ → ℕ → LinkConnection → Outcome LinkConnection ℕ
transmit (ok frame) request_id future c = (enqueue frame c, ok future)
transmit (err e) request_id future c = (
  record c {
    pending = pop_key request_id c.pending;
    resolutions = settle future (exception_of e) c.resolutions;
  },
  if is_done future c then err invalid_state else ok future,
)

-- The two parts of `send` with nothing in between.
unfoldable pub send :
    (Json → Option Bytes) → String → Dict Json → LinkConnection → Outcome LinkConnection ℕ
send dumps kind body c =
    let (registered, future, request_id) = register c in
    elim request_id [
      | none ↦ (registered, ok future)
      | some i ↦ transmit (encode dumps (request_to_json i kind body)) i future registered
    ]

-- The timeout of `request`: the `Future` is taken off the pending ones.
unfoldable pub give_up : ℕ → LinkConnection → LinkConnection
give_up future c = record c { pending = filter (λ e. not (nat_eq e.1 future)) c.pending }

-- What Python's library does with values from the wire: `str` of a JSON value, and whether a template can be
-- formatted with keyword arguments, which raises otherwise.
pub record WireText : Type 0 where
  pub str_of : Json → String
  pub formats : String → Dict Json → Bool

module _ (wire : WireText) where
  -- `str(detail.get("code", "internal"))`
  unfoldable pub wire_code : Option Json → String
  wire_code none = "internal"
  wire_code (some (str s)) = s
  wire_code (some j) = wire.str_of j

  -- A refusal with its template, or another `ValueError`. Making a `LocalizedError` formats its template, which may
  -- raise a `KeyError` or another error.
  unfoldable pub refusal : Dict Json → Result Error
  refusal d = elim (as_str (get_json "template" d)) [
    | none ↦ ok value_error
    | some template ↦ elim (as_dict (get_json "params" d)) [
      | none ↦ ok value_error
      | some params ↦ if wire.formats template params then ok localized else err key_error
    ]
  ]

  -- `error_from_wire`, as the class and the code of the exception.
  unfoldable pub error_from_wire : Json → Result Error
  error_from_wire detail = elim (as_dict detail) [
    | none ↦ ok (link_error "protocol")
    | some d ↦
        if wire_code (lookup "code" d) == "invalid"
        then refusal d
        else if wire_code (lookup "code" d) == "unavailable"
        then ok unavailable
        else ok (link_error (wire_code (lookup "code" d)))
  ]

  -- What a reply resolves its `Future` with.
  unfoldable pub resolution_of : Dict Json → Result Resolution
  resolution_of message = elim (get_json "ok" message) [
    | bool true ↦ ok (result_of (get_json "result" message))
    | _ ↦ error_from_wire (get_json "error" message) >>= λ e. ok (exception_of e)
  ]

  -- The id of a message as a key of `_pending`.
  unfoldable pub own_id : Option ℤ → Option ℕ
  own_id (some (pos n)) = some n
  own_id (some (negsuc n)) = none
  own_id none = none

  -- The end of `_accept_reply`, for a future that has been taken off the pending ones: where the error of the reply
  -- cannot be made, it is not resolved.
  unfoldable pub reply_to : Dict Json → ℕ → LinkConnection → Outcome LinkConnection (Unit {0})
  reply_to message future c =
      if is_done future c
      then (c, ok tt)
      else attempt (resolution_of message) c
          λ r. (record c { resolutions = settle future r c.resolutions }, ok tt)

  -- `_accept_reply`
  unfoldable pub accept_reply : Dict Json → LinkConnection → Outcome LinkConnection (Unit {0})
  accept_reply message c = elim (own_id (as_int (get_json "id" message))) [
    | none ↦ (c, ok tt)
    | some i ↦ elim (find_key i c.pending) [
      | none ↦ (c, ok tt)
      | some future ↦ reply_to message future (record c { pending = pop_key i c.pending })
    ]
  ]
