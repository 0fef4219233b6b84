-- ===== src/Link/Unique.antt =====
-- The requests of a connection with `unique_ids`, the endbot CLI's, run once.
use endbot.Prelude.{
  ok_inj, All, ◌≡◌, refl, sym, ap, subst, ◌∙◌, inl, inr, Bool, true, false, Option, none, some,
  List, [], ◌∷◌, ◌++◌, String, leb, length, has_key, Json, ℤ, pos, Dict, as_dict, as_str, get_json,
  Result, ok, err, or_raise, link_error, attempt_keeps, Result-cases, Outcome, Option-cases,
  Bool-cases, if◌then◌else◌, ℕ,
}
use endbot.Link.{as_int}
use endbot.Link.Connection.{
  WireText, LinkConnection, Request, Queued, entry, stop, init, close, own_id, find_key, pop_key,
  is_done, resolution_of, reply_to, accept_reply, max_cli_requests,
}
use endbot.Link.Requests.{accept, accept_all, accept_request, queue_request, note_id, is_seen, run}

abbrev pub int_of : Json → ℤ
int_of j = elim (as_int j) [ none ↦ pos 0 | some i ↦ i ]

abbrev Handlers : Type 0 → Type 0
Handlers W = String → Option (Dict Json → W → Outcome W Json)

-- `_ordered_loop` over the queue, as it changes the world of the handlers.
unfoldable pub run_all : {W : Type 0} → Handlers W → List (Queued Request) → W → W
run_all handlers [] w = w
run_all handlers (stop ∷ q) w = w
run_all handlers (entry r ∷ q) w = run_all handlers q (run handlers r w).0

abbrev pub call : {W : Type 0} → Handlers W → Request → W → W
call handlers r w = elim (handlers r.kind) [ none ↦ w | some handler ↦ (handler r.body w).0 ]

-- The handlers of the requests up to the stop, each called for the first request with its id alone.
unfoldable pub call_firsts : {W : Type 0} → Handlers W → List ℤ → List (Queued Request) → W → W
call_firsts handlers seen [] w = w
call_firsts handlers seen (stop ∷ q) w = w
call_firsts handlers seen (entry r ∷ q) w =
    let i = int_of r.identity in
    elim (is_seen i seen) [
      | true ↦ call_firsts handlers seen q w
      | false ↦ call_firsts handlers (seen ++ i ∷ []) q (call handlers r w)
    ]

note : Bool → ℤ → List ℤ → List ℤ
note true i seen = seen
note false i seen = seen ++ i ∷ []

-- Each request is marked by whether its id was seen before, and the ids seen at the end are the last.
Flagged : List ℤ → List (Queued Request) → List ℤ → Type 0
Flagged seen [] last = seen ≡ last
Flagged seen (stop ∷ q) last = Flagged seen q last
Flagged seen (entry r ∷ q) last =
    (r.duplicate ≡ is_seen (int_of r.identity) seen)
    × Flagged (note r.duplicate (int_of r.identity) seen) q last

Flagged-request :
    (seen last : List ℤ) (q : List (Queued Request)) (r : Request)
    → Flagged seen q last
    → r.duplicate ≡ is_seen (int_of r.identity) last
    → Flagged seen (q ++ entry r ∷ []) (note r.duplicate (int_of r.identity) last)
unfolding Flagged note
Flagged-request seen last [] r h dup = (
  subst (λ s. r.duplicate ≡ is_seen (int_of r.identity) s) (sym h) dup,
  ap (note r.duplicate (int_of r.identity)) h,
)
Flagged-request seen last (stop ∷ q) r h dup = Flagged-request seen last q r h dup
Flagged-request seen last (entry s ∷ q) r h dup = (h.0, Flagged-request _ last q r h.1 dup)

Flagged-stop :
    (seen last : List ℤ) (q : List (Queued Request))
    → Flagged seen q last
    → Flagged seen (q ++ stop ∷ []) last
unfolding Flagged note
Flagged-stop seen last [] h = h
Flagged-stop seen last (stop ∷ q) h = Flagged-stop seen last q h
Flagged-stop seen last (entry s ∷ q) h = (h.0, Flagged-stop _ last q h.1)

run_duplicate :
    {W : Type 0} (handlers : Handlers W) (r : Request) (w : W)
    → r.duplicate ≡ true
    → (run handlers r w).0 ≡ w
unfolding run
run_duplicate handlers r w dup = rw dup refl

run-call :
    {W : Type 0} (handlers : Handlers W) (r : Request) (w : W)
    → r.duplicate ≡ false
    → (run handlers r w).0 ≡ call handlers r w
unfolding run
run-call {W} handlers r w new =
    let handled = elim (handlers r.kind) as (λ _. Outcome W Json) [
      | none ↦ (w, err (link_error "unsupported"))
      | some handler ↦ handler r.body w
    ] in
    subst (λ b. (if b then (w, err (link_error "duplicate")) else handled).0 ≡ call handlers r w)
      (sym new)
      (elim (Option-cases (handlers r.kind)) [
        | inl unknown ↦ rw (call, unknown) refl
        | inr (handler, known) ↦ rw (call, known) refl
      ])

run_all-call_firsts :
    {W : Type 0} (handlers : Handlers W) (last : List ℤ) (q : List (Queued Request)) (seen : List ℤ)
    (w : W)
    → Flagged seen q last
    → run_all handlers q w ≡ call_firsts handlers seen q w
unfolding run_all call_firsts Flagged note
run_all-call_firsts handlers last [] seen w h = refl
run_all-call_firsts handlers last (stop ∷ q) seen w h = refl
run_all-call_firsts handlers last (entry r ∷ q) seen w h =
    let i = int_of r.identity in
    let step = λ (b : Bool). run_all handlers q (run handlers r w).0 ≡ (elim b [
      | true ↦ call_firsts handlers seen q w
      | false ↦ call_firsts handlers (seen ++ i ∷ []) q (call handlers r w)
    ]) in
    elim (Bool-cases r.duplicate) [
      | inl dup ↦
          let rest : Flagged seen q last = subst (λ b. Flagged (note b i seen) q last) dup h.1 in
          subst step (sym dup ∙ h.0) (
            ap (run_all handlers q) (run_duplicate handlers r w dup)
            ∙ run_all-call_firsts handlers last q seen w rest)
      | inr new ↦
          let rest : Flagged (seen ++ i ∷ []) q last =
            subst (λ b. Flagged (note b i seen) q last) new h.1 in
          subst step (sym new ∙ h.0) (
            ap (run_all handlers q) (run-call handlers r w new)
            ∙ run_all-call_firsts handlers last q (seen ++ i ∷ []) (call handlers r w) rest)
    ]

-- The ids seen are those that the queue accounts for.
record IsOnce (c : LinkConnection) : Type 0 where
  ids : List ℤ
  seen_same : c.seen ≡ some ids
  flagged : Flagged [] c.ordered ids

-- An id that is noted is a duplicate where it was seen, and is seen then.
note_id_returned :
    (i : ℤ) (ids : List ℤ) (noted : Bool × Option (List ℤ))
    → note_id i (some ids) ≡ ok noted
    → (noted.0 ≡ is_seen i ids) × (noted.1 ≡ some (note noted.0 i ids))
unfolding note_id note
note_id_returned i ids noted h = elim (Bool-cases (is_seen i ids)) [
  | inl seen ↦
      let same = ok_inj (true, some ids) noted (sym (rw (note_id, seen) refl) ∙ h) in
      subst (λ p. (p.0 ≡ is_seen i ids) × (p.1 ≡ some (note p.0 i ids))) same (sym seen, refl)
  | inr new ↦ elim (Bool-cases (leb max_cli_requests (length ids))) [
    | inl full ↦
        let raised : ◌≡◌ {A = Result (Bool × Option (List ℤ))} (err (link_error "protocol"))
            (ok noted) =
          sym (rw (note_id, new, full) refl) ∙ h in
        absurd (cc)
    | inr room ↦
        let same =
          ok_inj (false, some (ids ++ i ∷ [])) noted (sym (rw (note_id, new, room) refl) ∙ h) in
        subst (λ p. (p.0 ≡ is_seen i ids) × (p.1 ≡ some (note p.0 i ids))) same (sym new, refl)
  ]
]

ordered-IsOnce :
    (c : LinkConnection) (i : ℤ) (noted : Bool × Option (List ℤ)) (r : Request)
    → IsOnce c
    → note_id i c.seen ≡ ok noted
    → r.duplicate ≡ noted.0
    → int_of r.identity ≡ i
    → IsOnce (queue_request false r (record c { seen = noted.1 }))
unfolding queue_request
ordered-IsOnce c i noted r h e dup same =
    let (flag, next) = note_id_returned i h.ids noted (ap (note_id i) (sym h.seen_same) ∙ e) in
    record {
      ids = note r.duplicate (int_of r.identity) h.ids;
      seen_same = rw (dup, same) next;
      flagged = Flagged-request [] h.ids c.ordered r h.flagged (rw (dup, same) flag);
    }

accept_request-IsOnce :
    (i : ℤ) (message : Dict Json) (c : LinkConnection)
    → as_int (get_json "id" message) ≡ some i
    → IsOnce c
    → IsOnce (accept_request (λ _. false) i message c).0
unfolding accept_request
accept_request-IsOnce i message c e h =
    attempt_keeps IsOnce (or_raise (as_str (get_json "type" message)) (link_error "protocol")) c _ h
      λ kind _.
        attempt_keeps IsOnce (or_raise (as_dict (get_json "body" message)) (link_error "protocol"))
          c _ h
          λ body _.
            attempt_keeps IsOnce (note_id i c.seen) c _ h
              λ noted noting. ordered-IsOnce c i noted _ h noting refl (rw (int_of, e))

close-IsOnce : (c : LinkConnection) → IsOnce c → IsOnce (close c)
unfolding close
close-IsOnce c h = elim (Bool-cases c.closed) [
  | inl closed ↦ subst IsOnce (sym (rw (close, closed))) h
  | inr live ↦
      rw (close, live)
        (record {
          ids = h.ids;
          seen_same = h.seen_same;
          flagged = Flagged-stop [] h.ids c.ordered h.flagged;
        })
]

reply_to-IsOnce :
    (wire : WireText) (message : Dict Json) (future : ℕ) (c : LinkConnection)
    → IsOnce c
    → IsOnce (reply_to wire message future c).0
unfolding reply_to
reply_to-IsOnce wire message future c h = elim (Bool-cases (is_done future c)) [
  | inl finished ↦ rw (reply_to, finished) h
  | inr waits ↦
      rw (reply_to, waits)
        (attempt_keeps IsOnce (resolution_of wire message) c _ h
          (λ r _. record { ids = h.ids; seen_same = h.seen_same; flagged = h.flagged }))
]

accept_reply-IsOnce :
    (wire : WireText) (message : Dict Json) (c : LinkConnection)
    → IsOnce c
    → IsOnce (accept_reply wire message c).0
unfolding accept_reply
accept_reply-IsOnce wire message c h =
    elim (Option-cases (own_id wire (as_int (get_json "id" message)))) [
      | inl n ↦ subst IsOnce (sym (rw (accept_reply, n))) h
      | inr (i, e) ↦ elim (Option-cases (find_key i c.pending)) [
        | inl n ↦ subst IsOnce (sym (rw (accept_reply, e, n))) h
        | inr (future, f) ↦
            rw (accept_reply, e, f)
              (reply_to-IsOnce wire message future (record c { pending = pop_key i c.pending })
                (record { ids = h.ids; seen_same = h.seen_same; flagged = h.flagged }))
      ]
    ]

accept-IsOnce :
    (wire : WireText) (i : ℤ) (message : Dict Json) (c : LinkConnection)
    → as_int (get_json "id" message) ≡ some i
    → IsOnce c
    → IsOnce (accept wire (λ _. false) i message c).0
unfolding accept
accept-IsOnce wire i message c e h = elim (Bool-cases (has_key "type" message)) [
  | inr reply ↦ rw (accept, reply) (accept_reply-IsOnce wire message c h)
  | inl request ↦ elim (Result-cases (accept_request (λ _. false) i message c).1) [
    | inl (_, f) ↦ rw (accept, request, f) (accept_request-IsOnce i message c e h)
    | inr (_, f) ↦ rw (accept, request, f) (close-IsOnce _ (accept_request-IsOnce i message c e h))
  ]
]

abbrev pub HasId : ℤ × Dict Json → Type 0
HasId m = as_int (get_json "id" m.1) ≡ some m.0

accept_all-IsOnce :
    (wire : WireText) (messages : List (ℤ × Dict Json)) (c : LinkConnection)
    → All HasId messages
    → IsOnce c
    → IsOnce (accept_all wire (λ _. false) messages c).0
unfolding accept_all
accept_all-IsOnce wire [] c ids h = h
accept_all-IsOnce wire ((i, message) ∷ rest) c ids h =
    let next = accept-IsOnce wire i message c ids.0 h in
    let (c', outcome) = accept wire (λ _. false) i message c in
    let taken = elim outcome as (λ _. Outcome LinkConnection (Unit {0})) [
      | ok _ ↦ accept_all wire (λ _. false) rest c'
      | err x ↦ (c', err x)
    ] in
    elim (Bool-cases c.closed) [
      | inl closed ↦ subst (λ b. IsOnce (if b then (c, ok tt) else taken).0) (sym closed) h
      | inr live ↦
          subst (λ b. IsOnce (if b then (c, ok tt) else taken).0) (sym live)
            (elim (Result-cases (accept wire (λ _. false) i message c).1) [
              | inl (_, f) ↦
                  rw f (
                    accept_all-IsOnce wire rest (accept wire (λ _. false) i message c).0 ids.1 next)
              | inr (_, f) ↦ rw f next
            ])
    ]

-- On a connection with `unique_ids` and no concurrent types, whatever requests and replies arrive, with their ids and in any
-- order: the loop over its queue changes the world as it would if it called, in order, the handlers of those requests alone
-- whose id no earlier request has, so that a handler runs once for an id at most.
pub accept_all-run_all :
    {W : Type 0} (handlers : Handlers W) (wire : WireText) (messages : List (ℤ × Dict Json))
    (first_id : ℕ) (w : W)
    → All HasId messages
    → let queue = (accept_all wire (λ _. false) messages (init first_id true)).0.ordered in
      run_all handlers queue w ≡ call_firsts handlers [] queue w
unfolding init Flagged
accept_all-run_all handlers wire messages first_id w ids =
    let h =
      accept_all-IsOnce wire messages (init first_id true) ids
        (record { ids = []; seen_same = refl; flagged = refl }) in
    run_all-call_firsts handlers h.ids _ [] w h.flagged
