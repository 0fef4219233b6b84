-- ===== src/Link/Lifecycle.antt =====
-- `LinkConnection` over its life, as the steps of its threads.
use endbot.Prelude.{◌≡◌, ℕ, ◌+◌, Bool, false, List, String, Json, ℤ, Dict, Result, ok}
use endbot.Link.Lines.{Bytes}
use endbot.Link.Connection.{
  WireText, LinkConnection, Request, Queued, close, enqueue, register, transmit, give_up,
}
use endbot.Link.Requests.{accept}

-- `first` is the connection's `first_id`; the requests of the futures that are not `patient` may time out.
module _ (first : ℕ) (patient : ℕ → Bool) where
  -- What one thread does to a connection at a time: the two parts of `send` are separate steps, and the
  -- id that `transmit` has is the one that `register` gave to its future. `moved` is the taking of
  -- entries from the queues by the writer, the ordered thread and the pool. A message is `accepted` without an
  -- error, and a step that takes futures off the pending ones counts with the resolution that follows it.
  pub data Step : LinkConnection → LinkConnection → Type 0 where
    registered : (c : LinkConnection) → Step c (register c).0
    transmitted :
        (frame : Result Bytes) (i future : ℕ) (c : LinkConnection)
        → i ≡ first + future
        → Step c (transmit frame i future c).0
    gave_up : (future : ℕ) (c : LinkConnection) → patient future ≡ false → Step c (give_up future c)
    accepted :
        (wire : WireText) (concurrent : String → Bool) (i : ℤ) (message : Dict Json)
        (c : LinkConnection)
        → (accept wire concurrent i message c).1 ≡ ok tt
        → Step c (accept wire concurrent i message c).0
    answered : (frame : Bytes) (c : LinkConnection) → Step c (enqueue frame c)
    ended : (c : LinkConnection) → Step c (close c)
    moved :
        (outbound : List (Queued Bytes)) (ordered : List (Queued Request)) (pooled : List Request)
        (c : LinkConnection)
        → Step c (record c { outbound = outbound; ordered = ordered; pooled = pooled })

  pub data Steps : LinkConnection → LinkConnection → Type 0 where
    done : (c : LinkConnection) → Steps c c
    then_step : {c d e : LinkConnection} → Steps c d → Step d e → Steps c e
