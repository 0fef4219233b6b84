-- ===== src/Inputs.antt =====
-- core/src/endbot_core/script_inputs.py: which run owns which input channel of a Bot (`OwnedInputs`).
-- The keys of `_owners`, pairs of an identity and a channel, are two fields of an entry.
pub mod Cleanup
mod Tests
use endbot.Prelude.{
  Bool, true, false, not, ◌&&◌, ◌||◌, Option, none, some, List, [], ◌∷◌, map, String, ◌==◌, filter,
  find_first, contains, Error, Result, ok, err, ◌>>=◌, if◌then◌else◌,
}

pub record Held : Type 0 where
  pub identity : String
  pub channel : String
  pub run : String
  pub name : Option String
  pub loop_id : Option String

-- The parameters of a request that are read here. `action` and `flag` are given where the method is
-- the one that they belong to; `value` is the truth of the flag's value.
pub record Request : Type 0 where
  pub method : String
  pub name : Option String
  pub expected_identity_id : Option String
  pub mode : Option String
  pub direction : Option String
  pub action : String
  pub flag : String
  pub value : Bool
  pub loop_id : Option String
  pub has_hold_ticks : Bool

-- A reply that is a dict; `name` is `none` where it has no such key.
pub record Reply : Type 0 where
  pub identity_id : Option String
  pub name : Option (Option String)
  pub mining_loop_id : Option String

unfoldable pub is_at : String → String → Held → Bool
is_at identity channel h = h.identity == identity && h.channel == channel

-- `self._owners.pop((identity, channel), None)`
unfoldable pub pop : String → String → List Held → List Held
pop identity channel = filter (λ h. not (is_at identity channel h))

-- `self._owners[(identity, channel)] = ...`
unfoldable pub put : Held → List Held → List Held
put h [] = h ∷ []
put h (x ∷ xs) = let rest = put h xs in if is_at h.identity h.channel x then h ∷ xs else x ∷ rest

-- Equality with an optional text.
abbrev pub is_text : Option String → String → Bool
is_text none s = false
is_text (some t) s = t == s

-- `a or b`, for texts that may be missing or empty.
abbrev pub or_else : Option String → Option String → Option String
or_else (some a) b = if a == "" then b else some a
or_else none b = b

abbrev pub truthy : Option String → Option String
truthy none = none
truthy (some s) = if s == "" then none else some s

abbrev pub all_channels : List String
all_channels = "move" ∷ "jump" ∷ "attack" ∷ "use" ∷ "sprint" ∷ "sneak" ∷ "mine" ∷ []

abbrev pub ending_methods : List String
ending_methods = "stop" ∷ "despawn" ∷ "reconnect" ∷ "forget" ∷ "rename" ∷ []

-- The channels that a request sets.
unfoldable pub channels_of : Request → List String
channels_of q =
    if q.method == "move"
    then "move" ∷ []
    else if q.method == "action"
    then q.action ∷ []
    else if q.method == "flag"
    then q.flag ∷ []
    else if q.method == "mine" && not (is_text q.mode "continue")
    then "mine" ∷ []
    else if contains q.method ending_methods
    then all_channels
    else []

-- A request that starts mining takes over other channels.
unfoldable pub starts_mining : Request → Bool
starts_mining q =
    q.method == "mine" && not (is_text q.mode "continue") && not (is_text q.mode "stop")

-- A request that leaves its channels without an owner.
unfoldable pub releases : Request → Bool
releases q =
    contains q.method ending_methods
    || q.method == "move" && is_text q.direction "stop"
    || q.method == "action"
      && (is_text q.mode "stop" || is_text q.mode "once" && not q.has_hold_ticks)
    || q.method == "flag" && not q.value
    || q.method == "mine" && is_text q.mode "stop"

-- A conditional stop of mining that names another loop than the one that is owned now.
unfoldable pub is_stale_stop : Request → String → List Held → Bool
is_stale_stop q identity held = elim (truthy q.loop_id) [
  | none ↦ false
  | some l ↦
      q.method == "mine"
      && is_text q.mode "stop"
      && elim (find_first (is_at identity "mine") held) [
        | none ↦ false
        | some h ↦ not (is_text h.loop_id l)
      ]
]

-- The loop over the channels at the end of `_record`.
unfoldable pub settle :
    Option String → String → Option String → Option String → List String → List Held → List Held
settle owner identity name loop_id [] held = held
settle none identity name loop_id (c ∷ cs) held =
    settle none identity name loop_id cs (pop identity c held)
settle (some run) identity name loop_id (c ∷ cs) held = settle (some run) identity name loop_id cs (
    put (record { identity = identity; channel = c; run = run; name = name; loop_id = loop_id })
      held)

-- `_record` once the identity is known and the stop is not stale.
unfoldable pub record_at : Bool → Request → Reply → String → Option String → List Held → List Held
record_at uncertain q r identity scope held =
    let cleared =
      if starts_mining q && not uncertain
      then pop identity "use" (pop identity "attack" (pop identity "move" held))
      else held in
    let owner : Option String = if releases q then none else scope in
    let name : Option String = elim r.name [ none ↦ q.name | some n ↦ n ] in
    let settled = settle owner identity name r.mining_loop_id (channels_of q) cleared in
    elim owner [ none ↦ if uncertain then cleared else settled | some _ ↦ settled ]

-- `_record`; `scope` is the run of the scope, `reply` is `none` if the result is no dict.
unfoldable pub record_input : Bool → Request → Option Reply → Option String → List Held → List Held
record_input uncertain q none scope held = held
record_input uncertain q (some r) scope held =
    elim (truthy (or_else r.identity_id q.expected_identity_id)) [
      | none ↦ held
      | some identity ↦
          if is_stale_stop q identity held
          then held
          else record_at uncertain q r identity scope held
    ]

unfoldable pub owned : String → List Held → List Held
owned run = filter (λ h. h.run == run)

-- `adopt`, of entries as `owned` lists them.
unfoldable pub adopt : String → List Held → List Held → List Held
adopt run [] held = held
adopt run (h ∷ hs) held = adopt run hs (put (record h { run = run }) held)

-- The request by which `cleanup` ends the input of an entry.
unfoldable pub stop_request : Held → Request
stop_request h =
    let q : Request = record {
      method = "action";
      name = h.name;
      expected_identity_id = some h.identity;
      mode = none;
      direction = none;
      action = "";
      flag = "";
      value = false;
      loop_id = none;
      has_hold_ticks = false;
    } in
    if h.channel == "move"
    then record q { method = "move"; direction = some "stop" }
    else if h.channel == "mine"
    then record q { method = "mine"; mode = some "stop"; loop_id = truthy h.loop_id }
    else if h.channel == "sprint" || h.channel == "sneak"
    then record q { method = "flag"; flag = h.channel }
    else record q { action = h.channel; mode = some "stop" }

-- How `control.request` ends: with a reply, with a `RuntimeError` or `ValueError`, without a connection, or
-- with another error, as the `AttributeError` on a reply that is no object.
pub data Sending : Type 0 where
  sent : Sending
  failed unavailable : String → Sending
  raised : Error → Sending

-- The runtime is outside: it takes a request in a state of its own.
module _ {S : Type 0} (send : Request → S → S × Sending) where
  -- The loop of `cleanup` over the entries that it found at first. An error that it does not catch
  -- ends it.
  unfoldable pub cleanup_each :
      String → List Held → List Held → S → List Held × S × Result (List String)
  cleanup_each run [] held s = (held, s, ok [])
  cleanup_each run (e ∷ es) held s = elim (e.run == run) [
    | false ↦ cleanup_each run es held s
    | true ↦
        let popped = pop e.identity e.channel held in
        let (s', sending) = send (stop_request e) s in
        elim sending [
          | sent ↦ cleanup_each run es popped s'
          | failed m ↦
              let (held', s'', failures) = cleanup_each run es popped s' in
              (held', s'', failures >>= λ ms. ok (m ∷ ms))
          | unavailable m ↦ (filter (λ h. not (h.run == run)) popped, s', ok (m ∷ []))
          | raised e ↦ (popped, s', err e)
        ]
  ]

  unfoldable pub cleanup : String → List Held → S → List Held × S × Result (List String)
  cleanup run held s = cleanup_each run held held s
