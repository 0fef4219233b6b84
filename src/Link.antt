-- ===== src/Link.antt =====
-- core/src/endbot_core/link.py: the frames of the duplex link between the plugin and endbotd.
mod Lines
mod Stream
mod Messaging
mod Connection
mod Requests
mod Futures
mod Messages
mod Settled
mod Server
mod Presences
mod Senders
mod Lifecycle
mod Unique
mod Tests
use endbot.Prelude.{
  ℕ, ◌+◌, Bool, true, false, Option, none, some, List, [], ◌∷◌, ◌++◌, String, leb, ltb, length,
  Json, ℤ, int, bool, pos, obj, of_dict, Dict, as_dict, get_json, Result, ok, err, invalid,
  unavailable, link_error, or_raise, raise_if, Outcome, if◌then◌else◌, is_some, not, ◌>>=◌, ◌>>◌,
}
use endbot.Link.Lines.{Bytes, split_line}

-- `MAX_FRAME_BYTES`
abbrev pub max_frame_bytes : ℕ
max_frame_bytes = 1048576

abbrev pub newline : ℕ
newline = 10

-- `FrameReader`: its buffer, and what each `recv` of its socket will return. An empty chunk, or none
-- left, is a closed connection.
pub record FrameReader : Type 0 where
  pub buffer : Bytes
  pub incoming : List Bytes

-- An integer; a `bool` is one in Python.
abbrev pub as_int : Json → Option ℤ
as_int (int z) = some z
as_int (bool b) = some (pos (if b then 1 else 0))
as_int _ = none

-- The loop of `read`: a line without its newline.
unfoldable pub read_line : List Bytes → Bytes → Outcome FrameReader Bytes
read_line [] buffer = elim (split_line buffer) [
  | some (line, rest) ↦ (record { buffer = rest; incoming = [] }, ok line)
  | none ↦ (
    record { buffer = buffer; incoming = [] },
    err (if leb max_frame_bytes (length buffer) then link_error "protocol" else unavailable),
  )
]
read_line (chunk ∷ more) buffer = elim (split_line buffer) [
  | some (line, rest) ↦ (record { buffer = rest; incoming = chunk ∷ more }, ok line)
  | none ↦ elim (leb max_frame_bytes (length buffer)) [
    | true ↦ (record { buffer = buffer; incoming = chunk ∷ more }, err (link_error "protocol"))
    | false ↦ elim chunk [
      | [] ↦ (record { buffer = buffer; incoming = more }, err unavailable)
      | b ∷ bs ↦ read_line more (buffer ++ b ∷ bs)
    ]
  ]
]

-- A line within the limit.
unfoldable pub limited : Bytes → Result Bytes
limited line =
    if ltb max_frame_bytes (length line + 1) then err (link_error "protocol") else ok line

unfoldable pub read_frame : FrameReader → Outcome FrameReader Bytes
read_frame reader =
    let (after, line) = read_line reader.incoming reader.buffer in (after, line >>= limited)

-- `loads` decodes UTF-8 and JSON, `none` where one of them raises.
module _ (loads : Bytes → Option Json) where
  -- The message of a line: an object with an integer `id`.
  unfoldable pub message_of : Bytes → Result (Dict Json)
  message_of line = do
    document ← or_raise (loads line) (link_error "protocol")
    message ← or_raise (as_dict document) (link_error "protocol")
    raise_if (not (is_some (as_int (get_json "id" message)))) (link_error "protocol")
    ok message

  -- `FrameReader.read`
  unfoldable pub read : FrameReader → Outcome FrameReader (Dict Json)
  read reader = let (after, line) = read_frame reader in (after, line >>= message_of)

-- `encode`; `dumps` writes JSON, `none` where it raises.
unfoldable pub encode : (Json → Option Bytes) → Json → Result Bytes
encode dumps message = do
  body ← or_raise (dumps message) invalid
  raise_if (ltb max_frame_bytes (length body + 1)) (link_error "too_large")
  ok (body ++ newline ∷ [])
