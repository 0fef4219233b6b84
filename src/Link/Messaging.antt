-- ===== src/Link/Messaging.antt =====
-- The messages that `FrameReader.read` gives are those of the whole stream, and `encode` is read back.
use endbot.Prelude.{
  ok_inj, or_raise_returned, raise_if_returned, raise_if, or_raise, invalid, bind_returned, as_dict,
  is_some, get_json, ◌≡◌, refl, sym, ap, ◌∙◌, inl, inr, ℕ, zero, suc, ◌+◌, true, false, Option,
  none, some, List, [], ◌∷◌, ◌++◌, append_assoc, ltb, length, Json, Dict, Result, ok, err,
  link_error, ◌>>=◌, Result-cases,
}
use endbot.Link.Lines.{Bytes, split_line, split_line-newline}
use endbot.Link.{
  FrameReader, max_frame_bytes, as_int, read_line, limited, read_frame, message_of, read, encode,
}
use endbot.Link.Stream.{stream, line_of, line_of-found, read_line-line_of, split_line_read}

-- What stands behind the first newline.
behind : Bytes → Bytes
behind s = elim (split_line s) [ none ↦ [] | some (line, rest) ↦ rest ]

behind-found : (s line rest : Bytes) → split_line s ≡ some (line, rest) → behind s ≡ rest
unfolding behind
behind-found s line rest e = rw (behind, e)

module _ (loads : Bytes → Option Json) where
  -- `_read_loop` goes on behind a message, and ends at an error.
  then_more : Result (Dict Json) → List (Result (Dict Json)) → List (Result (Dict Json))
  then_more (ok m) more = ok m ∷ more
  then_more (err e) more = err e ∷ []

  -- The messages of `_read_loop`, `n` at most.
  pub read_many : ℕ → FrameReader → List (Result (Dict Json))
  unfolding then_more
  read_many zero reader = []
  read_many (suc n) reader = then_more (read loads reader).1 (read_many n (read loads reader).0)

  -- The messages of a whole stream: its lines, each as a message, up to the first error.
  pub parse_stream : ℕ → Bytes → List (Result (Dict Json))
  unfolding then_more
  parse_stream zero s = []
  parse_stream (suc n) s = then_more (line_of s >>= message_of loads) (parse_stream n (behind s))

  read-line_of :
      (reader : FrameReader)
      → (read loads reader).1 ≡ (line_of (stream reader) >>= message_of loads)
  unfolding read read_frame stream
  read-line_of reader = rw (read_line-line_of reader.incoming reader.buffer)

  -- A message that was read was the first line, and the reader keeps what follows it.
  read-split_line :
      (reader : FrameReader) (m : Dict Json)
      → (read loads reader).1 ≡ ok m
      → (line : Bytes) × (split_line (stream reader) ≡ some (line, stream (read loads reader).0))
  unfolding read read_frame stream
  read-split_line reader m h =
      let (bytes, h', _) =
        bind_returned ((read_line reader.incoming reader.buffer).1 >>= limited) _ h in
      let (line, e, _) = bind_returned (read_line reader.incoming reader.buffer).1 limited h' in
      (line, split_line_read reader.incoming reader.buffer line e)

  -- A reader gives, message by message, what its whole stream gives when it is cut at the newlines,
  -- whatever the chunks in which the bytes arrive and up to the first error, which is the same too.
  pub read_many-parse_stream :
      (n : ℕ) (reader : FrameReader) → read_many n reader ≡ parse_stream n (stream reader)
  unfolding read_many parse_stream
  read_many-parse_stream zero reader = refl
  read_many-parse_stream (suc n) reader =
      elim (Result-cases (line_of (stream reader) >>= message_of loads)) [
        | inr (e, h) ↦ rw (read-line_of reader, h)
        | inl (m, h) ↦
            let (line, e) = read-split_line reader m (read-line_of reader ∙ h) in
            rw (read-line_of reader, h)
              (ap (◌∷◌ (ok m)) (
                read_many-parse_stream n (read loads reader).0
                ∙ ap (parse_stream n) (sym (behind-found (stream reader) line _ e))))
      ]

message_of-decoded :
    (loads : Bytes → Option Json) (body : Bytes) (message : Json) (d : Dict Json)
    → loads body ≡ some message
    → as_dict message ≡ some d
    → is_some (as_int (get_json "id" d)) ≡ true
    → message_of loads body ≡ ok d
unfolding message_of
message_of-decoded loads body message d e is_object has_id = rw (e, is_object, has_id)

limited_short :
    (body : Bytes) → ltb max_frame_bytes (length body + 1) ≡ false → limited body ≡ ok body
unfolding limited
limited_short body h = rw h

some_inj : (x y : Bytes × Bytes) → ◌≡◌ {A = Option (Bytes × Bytes)} (some x) (some y) → x ≡ y
some_inj x y e = cc

-- `encode` followed by `read`, whatever else follows in the stream.
pub read-encode :
    (dumps : Json → Option Bytes) (loads : Bytes → Option Json)
    (inverse : (j : Json) (b : Bytes)
      → dumps j ≡ some b
      → (loads b ≡ some j) × (split_line b ≡ none))
    (message : Json) (d : Dict Json) (reader : FrameReader) (frame rest : Bytes)
    → as_dict message ≡ some d
    → is_some (as_int (get_json "id" d)) ≡ true
    → encode dumps message ≡ ok frame
    → stream reader ≡ frame ++ rest
    → ((read loads reader).1 ≡ ok d) × (stream (read loads reader).0 ≡ rest)
unfolding encode
read-encode dumps loads inverse message d reader frame rest is_object has_id e s =
    let (body, b, e') = bind_returned (or_raise (dumps message) invalid) _ e in
    let written = or_raise_returned (dumps message) invalid b in
    let (_, g, e'') =
      bind_returned (raise_if (ltb max_frame_bytes (length body + 1)) (link_error "too_large")) _
        e' in
    let short = raise_if_returned _ _ g in
    let line : split_line (stream reader) ≡ some (body, rest) =
      ap split_line
        (s ∙ ap (λ f. f ++ rest) (sym (ok_inj _ _ e'')) ∙ append_assoc body (10 ∷ []) rest)
      ∙ split_line-newline body rest (inverse message body written).1 in
    let decoded =
      message_of-decoded loads body message d (inverse message body written).0 is_object has_id in
    let first : (read loads reader).1 ≡ ok d =
      read-line_of loads reader
      ∙ ap (λ r. r >>= message_of loads) (line_of-found (stream reader) body rest line)
      ∙ rw (limited_short body short) decoded in
    let (_, again) = read-split_line loads reader d first in
    (first, ap (λ p. p.1) (some_inj _ _ (sym again ∙ line)))
