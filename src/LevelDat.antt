-- ===== src/LevelDat.antt =====
-- cli/endbot/src/endbot_cli/leveldat.py: the little-endian NBT of a world's `level.dat`.
mod Summary
mod Total
mod Flags
mod Tests
use Prim.Native.Nat.{◌*◌, ◌^◌}
use endbot.Prelude.{
  ℕ, zero, suc, ◌+◌, ◌-◌, Bool, true, false, not, ◌&&◌, ◌||◌, Option, none, some, List, [], ◌∷◌,
  String, ◌==◌, leb, ltb, nat_eq, all, filter, length, contains, if◌then◌else◌, ℤ, pos, negsuc,
  Dict, lookup, has_key, insert, is_some, map, sorted_set, Result, ok, err, level_dat_error,
  no_fuel, or_raise, raise_if, ◌>>=◌, ◌>>◌,
}

abbrev pub Bytes : Type 0
Bytes = List ℕ

-- A value as `_payload` returns it: `real` keeps the bytes of a float or a double.
mutual
  pub data Nbt : Type 0 where
    number : ℤ → Nbt
    real : Bytes → Nbt
    raw : Bytes → Nbt
    text : String → Nbt
    items : NbtItems → Nbt
    compound : NbtFields → Nbt

  pub data NbtItems : Type 0 where
    nil : NbtItems
    cons : Nbt → NbtItems → NbtItems

  pub data NbtFields : Type 0 where
    end : NbtFields
    field : String → Nbt → NbtFields → NbtFields

abbrev pub of_items : List Nbt → NbtItems
of_items [] = nil
of_items (v ∷ vs) = cons v (of_items vs)

abbrev pub of_fields : Dict Nbt → NbtFields
of_fields [] = end
of_fields ((k, v) ∷ d) = field k v (of_fields d)

abbrev pub to_fields : NbtFields → Dict Nbt
to_fields end = []
to_fields (field k v fs) = (k, v) ∷ to_fields fs

-- What a read gives, and the bytes behind it.
abbrev pub Read : Type 0 → Type 0
Read A = Result (A × Bytes)

-- `_take`
unfoldable pub take : ℕ → Bytes → Read Bytes
take zero bs = ok ([], bs)
take (suc n) [] = err level_dat_error
take (suc n) (b ∷ bs) = take n bs >>= λ r. ok (b ∷ r.0, r.1)

-- `struct.unpack` of little-endian integers, without and with a sign.
unfoldable pub from_le : Bytes → ℕ
from_le [] = 0
from_le (b ∷ bs) = b + 256 * from_le bs

unfoldable pub signed : ℕ → ℕ → ℤ
signed width n = if ltb n (2 ^ (8 * width - 1)) then pos n else negsuc (2 ^ (8 * width) - 1 - n)

unfoldable pub unsigned_at : ℕ → Bytes → Read ℕ
unsigned_at width bs = take width bs >>= λ r. ok (from_le r.0, r.1)

unfoldable pub signed_at : ℕ → Bytes → Read ℤ
signed_at width bs = take width bs >>= λ r. ok (signed width (from_le r.0), r.1)

unfoldable pub number_at : ℕ → Bytes → Read Nbt
number_at width bs = signed_at width bs >>= λ r. ok (number r.0, r.1)

-- A length that is negative or, at `size` bytes each, runs past the payload is refused.
unfoldable pub checked_length : ℕ → ℤ → Bytes → Read ℕ
checked_length size (negsuc n) rest = err level_dat_error
checked_length size (pos n) rest =
    if ltb (length rest) (n * size) then err level_dat_error else ok (n, rest)

unfoldable pub length_at : ℕ → Bytes → Read ℕ
length_at size bs = signed_at 4 bs >>= λ r. checked_length size r.0 r.1

-- `[… for _ in range(n)]`
unfoldable pub elements : (Bytes → Read Nbt) → ℕ → Bytes → Read (List Nbt)
elements element zero bs = ok ([], bs)
elements element (suc n) bs =
    element bs >>= λ v. elements element n v.1 >>= λ vs. ok (v.0 ∷ vs.0, vs.1)

-- What a tag type asks for.
pub data Tag : Type 0 where
  integer : ℕ → Tag
  floating : ℕ → Tag
  array : ℕ → Tag
  byte_array string_tag list_tag compound_tag unknown : Tag

unfoldable pub tag_of : ℕ → Tag
tag_of t =
    if nat_eq t 1
    then integer 1
    else if nat_eq t 2
    then integer 2
    else if nat_eq t 3
    then integer 4
    else if nat_eq t 4
    then integer 8
    else if nat_eq t 5
    then floating 4
    else if nat_eq t 6
    then floating 8
    else if nat_eq t 7
    then byte_array
    else if nat_eq t 8
    then string_tag
    else if nat_eq t 9
    then list_tag
    else if nat_eq t 10
    then compound_tag
    else if nat_eq t 11
    then array 4
    else if nat_eq t 12
    then array 8
    else unknown

-- `_MAX_DEPTH`
abbrev pub max_depth : ℕ
max_depth = 64

-- The root is a compound.
unfoldable pub fields_of : Nbt → Result (Dict Nbt)
fields_of (compound fs) = ok (to_fields fs)
fields_of _ = err level_dat_error

-- `decode` is UTF-8, `none` where it raises.
module _ (decode : Bytes → Option String) where
  -- `_string`
  unfoldable pub string_at : Bytes → Read String
  string_at bs = do
    n ← unsigned_at 2 bs
    chunk ← take n.0 n.1
    s ← or_raise (decode chunk.0) level_dat_error
    ok (s, chunk.1)

  -- A turn of the loop of a compound, behind the tag type; `more` is the next turn.
  unfoldable pub turn :
      (ℕ → Bytes → Read Nbt)
      → (Dict Nbt → Bytes → Read (Dict Nbt))
      → Dict Nbt
      → Bool
      → ℕ
      → Bytes
      → Read (Dict Nbt)
  turn child more d true t bs = ok (d, bs)
  turn child more d false t bs =
      raise_if (ltb 12 t) level_dat_error
      >> (string_at bs >>= λ name. child t name.1 >>= λ v. more (insert name.0 v.0 d) v.1)

  -- The loop of a compound, with `fuel` turns at most.
  unfoldable pub entries : (ℕ → Bytes → Read Nbt) → ℕ → Dict Nbt → Bytes → Read (Dict Nbt)
  entries child zero d bs = err no_fuel
  entries child (suc fuel) d bs =
      unsigned_at 1 bs >>= λ t. turn child (entries child fuel) d (nat_eq t.0 0) t.0 t.1

  -- `_payload`; `child` reads a value one level down. Each turn of a compound takes a byte at least.
  unfoldable pub payload_of : (ℕ → Bytes → Read Nbt) → Tag → Bytes → Read Nbt
  payload_of child (integer width) bs = number_at width bs
  payload_of child (floating width) bs = take width bs >>= λ r. ok (real r.0, r.1)
  payload_of child byte_array bs = length_at 1 bs >>= λ n. take n.0 n.1 >>= λ r. ok (raw r.0, r.1)
  payload_of child string_tag bs = string_at bs >>= λ s. ok (text s.0, s.1)
  payload_of child list_tag bs = unsigned_at 1 bs >>= λ t. length_at 1 t.1 >>= λ n.
      raise_if (nat_eq t.0 0 && not (nat_eq n.0 0)) level_dat_error
      >> (elements (child t.0) n.0 n.1 >>= λ vs. ok (items (of_items vs.0), vs.1))
  payload_of child compound_tag bs =
      entries child (length bs + 1) [] bs >>= λ d. ok (compound (of_fields d.0), d.1)
  payload_of child (array width) bs = length_at width bs >>= λ n.
      elements (number_at width) n.0 n.1 >>= λ vs. ok (items (of_items vs.0), vs.1)
  payload_of child unknown bs = err level_dat_error

  -- `_payload` at a depth from which `left - 1` further levels are allowed.
  unfoldable pub payload : ℕ → ℕ → Bytes → Read Nbt
  payload zero t bs = err level_dat_error
  payload (suc left) t bs = payload_of (payload left) (tag_of t) bs

  -- `read_document`, without the name of the root.
  unfoldable pub read_document : Bytes → Result (Dict Nbt)
  read_document bs = do
    t ← unsigned_at 1 bs
    raise_if (not (nat_eq t.0 10)) level_dat_error
    name ← string_at t.1
    root ← payload (max_depth + 1) t.0 name.1
    fields_of root.0
