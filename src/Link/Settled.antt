-- ===== src/Link/Settled.antt =====
-- No future of a `LinkConnection` is lost: what is not resolved waits for a reply until the close.
use endbot.Prelude.{
  get_json, ◌≡◌, ◌⊎◌, ℕ, ◌+◌, Bool, true, false, not, ◌||◌, [], ltb, All, get_json,
}
use endbot.Link.{as_int}
use endbot.Link.{as_int}
use endbot.Link.Connection.{LinkConnection}
use endbot.Link.Futures.{is_resolved, is_waiting}

-- The keys of the pending futures are the ids that they were given.
module _ (first : ℕ) where
  abbrev IsOwn : ℕ × ℕ → Type 0
  IsOwn e = e.0 ≡ first + e.1

module _ (first : ℕ) (patient : ℕ → Bool) where
  -- A future that was made, and whose request does not time out, waits or is resolved.
  abbrev is_accounted : ℕ → LinkConnection → Bool
  is_accounted k c =
      not (ltb k c.made) || not (patient k) || is_waiting k c.pending || is_resolved k c.resolutions

  -- A closed connection has nothing pending; the ids of an open one go with its futures.
  abbrev IsShaped : LinkConnection → Type 0
  IsShaped c =
      ((c.closed ≡ true) × (c.pending ≡ []))
      ⊎ ((c.closed ≡ false) × (c.next_id ≡ first + c.made) × All (IsOwn first) c.pending)

  pub record IsSound (c : LinkConnection) : Type 0 where
    pub accounted : (k : ℕ) → is_accounted k c ≡ true
    pub shaped : IsShaped c
