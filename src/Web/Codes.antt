-- ===== src/Web/Codes.antt =====
-- core/src/endbotd/web_store.py: the codes by which a player in the game links a browser (`LinkCodes`).
use Prim.Native.Char.{code}
use endbot.Prelude.{
  ℕ, ◌+◌, Bool, true, false, not, ◌||◌, Option, none, some, List, [], ◌∷◌, ◌++◌, map, String, ◌==◌,
  leb, ltb, nat_eq, length, filter, find_first, contains, if◌then◌else◌, Dict, lookup, insert,
  erase, has_key, ok, err, value_error, no_fuel, or_raise, Outcome, attempt, PyText,
}

-- `CODE_SECONDS`, `WRONG_CODE_LIMIT` and `WRONG_CODE_WINDOW`
abbrev pub code_seconds : ℕ
code_seconds = 300

abbrev pub wrong_code_limit : ℕ
wrong_code_limit = 10

abbrev pub wrong_code_window : ℕ
wrong_code_window = 600

pub record LinkIdentity : Type 0 where
  pub xuid : String
  pub player_id : String
  pub gamertag : String

-- `codes` has for each code the player and the time at which it expires, `wrong` the times of wrong
-- codes.
pub record LinkCodes : Type 0 where
  pub codes : Dict (LinkIdentity × ℕ)
  pub wrong : List ℕ
  pub closed_until : ℕ

-- `LinkCodes()`
abbrev pub new_codes : LinkCodes
new_codes = record { codes = []; wrong = []; closed_until = 0 }

-- `_purge`
unfoldable pub purge : ℕ → LinkCodes → LinkCodes
purge now c = record c {
  codes = filter (λ e. ltb now e.1.1) c.codes;
  wrong = filter (λ moment. ltb now (moment + wrong_code_window)) c.wrong;
}

-- `issue`; `draws` are the codes that the loop draws, until one is free.
unfoldable pub issue : LinkIdentity → ℕ → List String → LinkCodes → Outcome LinkCodes String
issue identity now draws c =
    let live = purge now c in
    let others = filter (λ e. not (e.1.0.xuid == identity.xuid)) live.codes in
    attempt (or_raise (find_first (λ d. not (has_key d others)) draws) no_fuel)
      (record live { codes = others })
      λ drawn.
        (record live { codes = insert drawn (identity, now + code_seconds) others }, ok drawn)

-- `replace("-", "").replace(" ", "").translate(_CODE_READING)`
unfoldable pub read_symbols : String → String
read_symbols String.[] = String.[]
read_symbols (String.◌∷◌ c s) =
    let rest = read_symbols s in
    if nat_eq (code c) b'-' || nat_eq (code c) b' '
    then rest
    else if nat_eq (code c) b'O'
    then String.◌∷◌ "0" rest
    else if nat_eq (code c) b'I' || nat_eq (code c) b'L'
    then String.◌∷◌ "1" rest
    else String.◌∷◌ c rest

-- A wrong code is noted, and too many of them close the entry; with whether `on_closed` is called.
unfoldable pub note_wrong : ℕ → LinkCodes → LinkCodes × Bool
note_wrong now c =
    if leb wrong_code_limit (length (c.wrong ++ now ∷ []))
    then (record c { wrong = []; closed_until = now + wrong_code_window }, true)
    else (record c { wrong = c.wrong ++ now ∷ [] }, false)

-- `upper` is the method of `str`.
module _ (py : PyText) (upper : String → String) where
  abbrev pub reading : String → String
  reading text = read_symbols (upper (py.strip text))

  -- The code that is looked up, in the codes that are live.
  unfoldable pub redeem_code :
      String → ℕ → LinkCodes → Outcome LinkCodes (Option LinkIdentity × Bool)
  redeem_code symbols now c = elim (lookup symbols c.codes) [
    | some (identity, _) ↦ (record c { codes = erase symbols c.codes }, ok (some identity, false))
    | none ↦ let (c', closed) = note_wrong now c in (c', ok (none, closed))
  ]

  -- `redeem`; a wrong code gives no player.
  unfoldable pub redeem : String → ℕ → LinkCodes → Outcome LinkCodes (Option LinkIdentity × Bool)
  redeem text now c =
      if ltb now c.closed_until
      then (c, err value_error)
      else redeem_code (reading text) now (purge now c)

-- `live`
unfoldable pub live : ℕ → LinkCodes → LinkCodes × List LinkIdentity
live now c = let c' = purge now c in (c', map (λ e. e.1.0) c'.codes)

-- `void`
unfoldable pub void : List String → LinkCodes → LinkCodes
void xuids c = record c { codes = filter (λ e. not (contains e.1.0.xuid xuids)) c.codes }
