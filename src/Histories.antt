-- ===== src/Histories.antt =====
-- core/src/endbot_core/group_results.py: `ResultStore`, the history of group results per controller.
mod Bounds
mod Latest
mod Tests
use Prim.Native.Char.{code}
use Prim.Native.String
use endbot.Prelude.{
  ℕ, zero, suc, ◌+◌, ◌-◌, Bool, true, false, not, ◌&&◌, ◌||◌, Option, none, some, List, [], ◌∷◌,
  ◌++◌, String, ◌==◌, leb, ltb, nat_eq, filter, find_first, length, map, if◌then◌else◌, Result, ok,
  err, localized, or_raise, raise_if, ◌>>=◌, ◌>>◌,
}

-- `CACHE_SIZE` and `HISTORY_SIZE`
abbrev pub cache_size : ℕ
cache_size = 128

abbrev pub history_size : ℕ
history_size = 20

-- `rows` are of the type that the commands of a group make.
pub record GroupResult (Row : Type 0) : Type 0 where
  pub identity : String
  pub group_id : String
  pub group_name : String
  pub target : String
  pub operation : String
  pub rows : List Row

-- An entry of `records`: its key is the owner with the identities of the group and of the result.
pub record Entry (Row : Type 0) : Type 0 where
  pub owner : String
  pub result : GroupResult Row

-- `replace("\n", " ").replace("\r", " ")`
unfoldable pub one_line : String → String
one_line String.[] = String.[]
one_line (String.◌∷◌ c s) =
    if nat_eq (code c) 10 || nat_eq (code c) 13
    then String.◌∷◌ " " (one_line s)
    else String.◌∷◌ c (one_line s)

-- `s[:n]`
unfoldable pub first_chars : ℕ → String → String
first_chars zero s = String.[]
first_chars (suc n) String.[] = String.[]
first_chars (suc n) (String.◌∷◌ c s) = String.◌∷◌ c (first_chars n s)

-- `reversed`
unfoldable pub reversed : {A : Type 0} → List A → List A
reversed [] = []
reversed (x ∷ xs) = reversed xs ++ x ∷ []

module _ {Row : Type 0} where
  -- `key[:2] == (owner, group_id)`
  abbrev pub is_of : String → String → Entry Row → Bool
  is_of owner group_id e = e.owner == owner && e.result.group_id == group_id

  abbrev pub same_key : Entry Row → Entry Row → Bool
  same_key e f = is_of f.owner f.result.group_id e && e.result.identity == f.result.identity

  -- `self.records[key] = result`
  unfoldable pub put : Entry Row → List (Entry Row) → List (Entry Row)
  put e [] = e ∷ []
  put e (f ∷ fs) = let rest = put e fs in if same_key f e then e ∷ fs else f ∷ rest

  unfoldable pub count_of : (Entry Row → Bool) → List (Entry Row) → ℕ
  count_of p es = length (filter p es)

  -- The first `n` entries that match are deleted.
  unfoldable pub drop_matching : (Entry Row → Bool) → ℕ → List (Entry Row) → List (Entry Row)
  drop_matching p n [] = []
  drop_matching p n (e ∷ es) =
      let drops = p e && ltb 0 n in
      let rest = drop_matching p (if drops then n - 1 else n) es in if drops then rest else e ∷ rest

  -- `popitem(last=False)` while there are more than the limit.
  unfoldable pub pop_oldest : List (Entry Row) → List (Entry Row)
  pop_oldest [] = []
  pop_oldest (e ∷ es) =
      let rest = pop_oldest es in if ltb cache_size (length (e ∷ es)) then rest else e ∷ es

  -- `for old in matching[:-HISTORY_SIZE]: del self.records[old]`
  unfoldable pub trim : (Entry Row → Bool) → List (Entry Row) → List (Entry Row)
  trim p es = drop_matching p (count_of p es - history_size) es

  -- `save`; the identity of the result is the text of the UUID that `uuid4` gives.
  unfoldable pub result_of : String → String → String → String → String → List Row → GroupResult Row
  result_of fresh group_id group_name target operation rows = record {
    identity = fresh;
    group_id = group_id;
    group_name = group_name;
    target = target;
    operation = first_chars 128 (one_line operation);
    rows = rows;
  }

  unfoldable pub save : String → GroupResult Row → List (Entry Row) → List (Entry Row)
  save owner result records =
      pop_oldest (
        trim (is_of owner result.group_id)
          (put (record { owner = owner; result = result }) records))

  abbrev pub history_of : String → String → List (Entry Row) → List (GroupResult Row)
  history_of owner group_id records =
      map (λ e. e.result) (reversed (filter (is_of owner group_id) records))

  -- `history`
  unfoldable pub history : String → String → List (Entry Row) → Result (List (GroupResult Row))
  history owner group_id records = do
    raise_if (nat_eq (length (history_of owner group_id records)) 0) localized
    ok (history_of owner group_id records)

  unfoldable pub item_at : List (GroupResult Row) → ℕ → Option (GroupResult Row)
  item_at [] i = none
  item_at (r ∷ rs) zero = some r
  item_at (r ∷ rs) (suc i) = item_at rs i

  -- `get`; the number of a history is one-based.
  unfoldable pub get : String → String → ℕ → List (Entry Row) → Result (GroupResult Row)
  get owner group_id number records = do
    results ← history owner group_id records
    raise_if (not (leb 1 number && leb number (length results))) localized
    or_raise (item_at results (number - 1)) localized

  -- `find`
  unfoldable pub find : String → String → String → List (Entry Row) → Result (GroupResult Row)
  find owner group_id identity records = do
    results ← history owner group_id records
    or_raise (find_first (λ r. r.identity == identity) results) localized
