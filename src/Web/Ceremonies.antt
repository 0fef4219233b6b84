-- ===== src/Web/Ceremonies.antt =====
-- A ceremony is for one attempt.
use endbot.Prelude.{
  ◌≡◌, refl, inl, inr, ℕ, suc, ◌+◌, ◌≤◌, Bool, false, Option, some, none, [], ◌∷◌, String, ◌==◌,
  arith, leb, ltb, length, filter, eq_refl, Dict, lookup, insert, erase, lookup-insert,
  lookup-erase, Json, as_str, get_json, err, link_error, Bool-cases, Option-cases,
}
use endbot.Web.Codes.{LinkIdentity}
use endbot.Web.Signing.{
  Ceremony, Ceremonies, live_ceremonies, begin, check_ceremony, finish, max_ceremonies,
}

length-filter : (p : String × Ceremony → Bool) (cs : Ceremonies) → length (filter p cs) ≤ length cs
length-filter p [] = omega arith
length-filter p (c ∷ cs) = ground (arith, length-filter p cs)

length-insert :
    (k : String) (c : Ceremony) (cs : Ceremonies) → length (insert k c cs) ≤ suc (length cs)
unfolding insert
length-insert k c [] = omega arith
length-insert k c ((j, d) ∷ cs) = ground (arith, length-insert k c cs)

length-erase : (k : String) (cs : Ceremonies) → length (erase k cs) ≤ length cs
unfolding erase
length-erase k [] = omega arith
length-erase k ((j, d) ∷ cs) = ground (arith, length-erase k cs)

filter_absent :
    (p : String × Ceremony → Bool) (k : String) (cs : Ceremonies)
    → lookup k cs ≡ none
    → lookup k (filter p cs) ≡ none
unfolding lookup
filter_absent p k [] h = refl
filter_absent p k ((j, c) ∷ cs) h = ground (arith, filter_absent p k cs)

begin_bounded :
    (key kind challenge : String) (identity : Option LinkIdentity) (via : String) (now : ℕ)
    (cs : Ceremonies)
    → length cs ≤ 100
    → length (begin key kind challenge identity via now cs).0 ≤ 100
unfolding begin
begin_bounded key kind challenge identity via now cs h =
    let fewer = length-filter (λ e. ltb now e.1.expires) cs in
    elim (Bool-cases (leb max_ceremonies (length (live_ceremonies now cs)))) [
      | inl busy ↦ rw busy (omega arith)
      | inr room ↦
          let few : length (live_ceremonies now cs) ≤ 99 = ground arith in
          let more =
            length-insert key
              (record {
                kind = kind;
                challenge = challenge;
                expires = now + 120;
                identity = identity;
                via = via;
              })
              (live_ceremonies now cs) in
          rw room (omega arith)
    ]

finish_bounded :
    (body : Dict Json) (kind : String) (now : ℕ) (cs : Ceremonies)
    → length cs ≤ 100
    → length (finish body kind now cs).0 ≤ 100
unfolding finish
finish_bounded body kind now cs h = elim (Option-cases (as_str (get_json "ceremony" body))) [
  | inl no_text ↦ rw no_text h
  | inr (k, text) ↦ let fewer = length-erase k cs in rw text (omega arith)
]

-- Calls of `_begin` and `_finish` in any order and at any times, each after the one before it has ended, none of which begins a
-- ceremony `k`.
pub data Without (k : String) (cs : Ceremonies) : Ceremonies → Type 0 where
  unchanged : Without k cs cs
  began :
      (key kind challenge : String) (identity : Option LinkIdentity) (via : String) (now : ℕ)
      (cs' : Ceremonies)
      → (key == k) ≡ false
      → Without k cs cs'
      → Without k cs (begin key kind challenge identity via now cs').0
  finished :
      (body : Dict Json) (kind : String) (now : ℕ) (cs' : Ceremonies)
      → Without k cs cs'
      → Without k cs (finish body kind now cs').0

begin_absent :
    (k key kind challenge : String) (identity : Option LinkIdentity) (via : String) (now : ℕ)
    (cs : Ceremonies)
    → (key == k) ≡ false
    → lookup k cs ≡ none
    → lookup k (begin key kind challenge identity via now cs).0 ≡ none
unfolding begin
begin_absent k key kind challenge identity via now cs other h =
    let absent = filter_absent (λ e. ltb now e.1.expires) k cs h in
    elim (Bool-cases (leb max_ceremonies (length (live_ceremonies now cs)))) [
      | inl busy ↦ rw busy absent
      | inr room ↦ rw room (rw (lookup-insert key k _ (live_ceremonies now cs), other) absent)
    ]

finish_absent :
    (k : String) (body : Dict Json) (kind : String) (now : ℕ) (cs : Ceremonies)
    → lookup k cs ≡ none
    → lookup k (finish body kind now cs).0 ≡ none
unfolding finish
finish_absent k body kind now cs h = elim (Option-cases (as_str (get_json "ceremony" body))) [
  | inl no_text ↦ rw no_text h
  | inr (j, text) ↦ rw text (rw (lookup-erase j k cs, h) (ground arith))
]

Without-absent :
    {k : String} {cs cs' : Ceremonies} → lookup k cs ≡ none → Without k cs cs' → lookup k cs' ≡ none
Without-absent h unchanged = h
Without-absent {k} h (began key kind challenge identity via now cs' other r) =
    begin_absent k key kind challenge identity via now cs' other (Without-absent h r)
Without-absent {k} h (finished body kind now cs' r) =
    finish_absent k body kind now cs' (Without-absent h r)

-- Once an attempt has named a ceremony, whether the attempt succeeded or was refused, every later attempt that names the
-- same ceremony is refused, after whatever calls of `_begin` and `_finish` that do not overlap and that begin no ceremony of that very
-- key.
pub Without-finish :
    (k : String) (body body' : Dict Json) (kind kind' : String) (now now' : ℕ) (cs cs' : Ceremonies)
    → as_str (get_json "ceremony" body) ≡ some k
    → Without k (finish body kind now cs).0 cs'
    → as_str (get_json "ceremony" body') ≡ some k
    → (finish body' kind' now' cs').1 ≡ err (link_error "expired")
unfolding finish check_ceremony
Without-finish k body body' kind kind' now now' cs cs' named steps again =
    let consumed : lookup k (finish body kind now cs).0 ≡ none =
      rw (finish, named) (rw (lookup-erase k k cs, eq_refl k) refl) in
    rw (again, Without-absent consumed steps) refl

-- The calls since the start.
pub data Begun : Ceremonies → Type 0 where
  started : Begun []
  began :
      (key kind challenge : String) (identity : Option LinkIdentity) (via : String) (now : ℕ)
      (cs : Ceremonies)
      → Begun cs
      → Begun (begin key kind challenge identity via now cs).0
  finished :
      (body : Dict Json) (kind : String) (now : ℕ) (cs : Ceremonies)
      → Begun cs
      → Begun (finish body kind now cs).0

-- However many ceremonies are begun and finished, at whatever times and with no two calls at once, at most 100 are open at once.
pub Begun-bounded : {cs : Ceremonies} → Begun cs → length cs ≤ max_ceremonies
Begun-bounded started = omega arith
Begun-bounded (began key kind challenge identity via now cs r) =
    begin_bounded key kind challenge identity via now cs (Begun-bounded r)
Begun-bounded (finished body kind now cs r) = finish_bounded body kind now cs (Begun-bounded r)
