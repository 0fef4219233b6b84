-- ===== src/Link/Stream.antt =====
-- What `FrameReader.read` gives depends on the bytes of the stream only, not on how they arrive.
use endbot.Prelude.{
  ok_inj, Error, ◌≡◌, sym, ap, subst, ◌∙◌, inl, inr, ℕ, true, false, none, some, List, [], ◌∷◌,
  ◌++◌, append-nil, append_assoc, arith, leb, length, Result, ok, err, unavailable, link_error,
  if◌then◌else◌, Bool-cases, Option-cases, ◌>>=◌,
}
use endbot.Link.Lines.{Bytes, split_line, length-append, split_line-append, split_line_long}
use endbot.Link.{FrameReader, max_frame_bytes, read_line, limited}

-- What a socket gives until it closes.
unfoldable pub received : List Bytes → Bytes
received [] = []
received ([] ∷ more) = []
received ((b ∷ bs) ∷ more) = (b ∷ bs) ++ received more

-- All the bytes that a reader has not handed out.
unfoldable pub stream : FrameReader → Bytes
stream reader = reader.buffer ++ received reader.incoming

-- The first line of a whole stream, and why there is none.
pub line_of : Bytes → Result Bytes
line_of s = elim (split_line s) [
  | some (line, rest) ↦ limited line
  | none ↦ err (if leb max_frame_bytes (length s) then link_error "protocol" else unavailable)
]

pub line_of-found :
    (s line rest : Bytes) → split_line s ≡ some (line, rest) → line_of s ≡ limited line
unfolding line_of
line_of-found s line rest e = rw (line_of, e)

line_of-none :
    (s : Bytes)
    → split_line s ≡ none
    → line_of s
      ≡ err (if leb max_frame_bytes (length s) then link_error "protocol" else unavailable)
unfolding line_of
line_of-none s e = rw (line_of, e)

-- With a full buffer that holds no newline, the line is too long whatever follows.
line_of_full :
    (buffer more : Bytes)
    → split_line buffer ≡ none
    → leb max_frame_bytes (length buffer) ≡ true
    → line_of (buffer ++ more) ≡ err (link_error "protocol")
unfolding limited
line_of_full buffer more n full = elim (Option-cases (split_line (buffer ++ more))) [
  | inl none_at_all ↦
      line_of-none (buffer ++ more) none_at_all ∙ ground (arith, length-append buffer more)
  | inr ((line, rest), e) ↦
      line_of-found (buffer ++ more) line rest e
      ∙ ground (arith, split_line_long buffer more line rest n e)
]

-- The branches of the loop.
read_line-found :
    (incoming : List Bytes) (buffer line rest : Bytes)
    → split_line buffer ≡ some (line, rest)
    → read_line incoming buffer ≡ (record { buffer = rest; incoming = incoming }, ok line)
unfolding read_line
read_line-found [] buffer line rest e = rw (read_line, e)
read_line-found (chunk ∷ more) buffer line rest e = rw (read_line, e)

read_line-full :
    (incoming : List Bytes) (buffer : Bytes)
    → split_line buffer ≡ none
    → leb max_frame_bytes (length buffer) ≡ true
    → (read_line incoming buffer).1 ≡ err (link_error "protocol")
unfolding read_line
read_line-full [] buffer n full = rw (read_line, n, full)
read_line-full (chunk ∷ more) buffer n full = rw (read_line, n, full)

read_line-closed :
    (more : List Bytes) (buffer : Bytes)
    → split_line buffer ≡ none
    → leb max_frame_bytes (length buffer) ≡ false
    → (read_line ([] ∷ more) buffer).1 ≡ err unavailable
unfolding read_line
read_line-closed more buffer n room = rw (read_line, n, room)

read_line-more :
    (b : ℕ) (bs : Bytes) (more : List Bytes) (buffer : Bytes)
    → split_line buffer ≡ none
    → leb max_frame_bytes (length buffer) ≡ false
    → read_line ((b ∷ bs) ∷ more) buffer ≡ read_line more (buffer ++ b ∷ bs)
unfolding read_line
read_line-more b bs more buffer n room = rw (read_line, n, room)

read_line-end :
    (buffer : Bytes)
    → split_line buffer ≡ none
    → leb max_frame_bytes (length buffer) ≡ false
    → (read_line [] buffer).1 ≡ err unavailable
unfolding read_line
read_line-end buffer n room = rw (read_line, n, room)

-- The buffer alone decides, or the loop goes on.
unless_decided :
    (incoming : List Bytes) (buffer : Bytes)
    → (split_line buffer ≡ none
        → leb max_frame_bytes (length buffer) ≡ false
        → ((read_line incoming buffer).1 >>= limited) ≡ line_of (buffer ++ received incoming))
    → ((read_line incoming buffer).1 >>= limited) ≡ line_of (buffer ++ received incoming)
unless_decided incoming buffer go_on = elim (Option-cases (split_line buffer)) [
  | inr ((line, rest), e) ↦ rw (read_line-found incoming buffer line rest e) (
      sym (
        line_of-found (buffer ++ received incoming) line (rest ++ received incoming)
          (split_line-append buffer (received incoming) line rest e)))
  | inl n ↦ elim (Bool-cases (leb max_frame_bytes (length buffer))) [
    | inl full ↦
        rw (read_line-full incoming buffer n full)
          (sym (line_of_full buffer (received incoming) n full))
    | inr room ↦ go_on n room
  ]
]

line_of_ended :
    (buffer : Bytes)
    → split_line buffer ≡ none
    → leb max_frame_bytes (length buffer) ≡ false
    → err unavailable ≡ line_of (buffer ++ [])
line_of_ended buffer n room = rw append-nil (sym (line_of-none buffer n ∙ rw room))

-- The loop gives the first line of the stream, or the reason why there is none.
pub read_line-line_of :
    (incoming : List Bytes) (buffer : Bytes)
    → ((read_line incoming buffer).1 >>= limited) ≡ line_of (buffer ++ received incoming)
unfolding received
read_line-line_of [] buffer =
    unless_decided [] buffer
      λ n room. rw (read_line-end buffer n room) (line_of_ended buffer n room)
read_line-line_of ([] ∷ more) buffer =
    unless_decided ([] ∷ more) buffer
      λ n room. rw (read_line-closed more buffer n room) (line_of_ended buffer n room)
read_line-line_of ((b ∷ bs) ∷ more) buffer = unless_decided ((b ∷ bs) ∷ more) buffer λ n room.
    rw (read_line-more b bs more buffer n room) (
      read_line-line_of more (buffer ++ b ∷ bs)
      ∙ ap line_of (append_assoc buffer (b ∷ bs) (received more)))

raised : {r : Result Bytes} {e : Error} {b : Bytes} → r ≡ err e → r ≡ ok b → ⊥
raised p q = cc

-- What the loop returned was in the buffer, or the loop has gone on.
unless_found :
    (incoming : List Bytes) (buffer line : Bytes)
    → (read_line incoming buffer).1 ≡ ok line
    → (split_line buffer ≡ none
        → leb max_frame_bytes (length buffer) ≡ false
        → split_line (buffer ++ received incoming)
          ≡ some (line, stream (read_line incoming buffer).0))
    → split_line (buffer ++ received incoming) ≡ some (line, stream (read_line incoming buffer).0)
unfolding stream
unless_found incoming buffer line h go_on = elim (Option-cases (split_line buffer)) [
  | inr ((l, rest), e) ↦
      let same = ok_inj l line (sym (rw (read_line-found incoming buffer l rest e)) ∙ h) in
      rw (read_line-found incoming buffer l rest e) (
        subst (λ x. split_line (buffer ++ received incoming) ≡ some (x, rest ++ received incoming))
          same (split_line-append buffer (received incoming) l rest e))
  | inl n ↦ elim (Bool-cases (leb max_frame_bytes (length buffer))) [
    | inl full ↦ absurd (raised (read_line-full incoming buffer n full) h)
    | inr room ↦ go_on n room
  ]
]

-- A line that was read stands at the front of the stream, and the reader keeps what follows it.
pub split_line_read :
    (incoming : List Bytes) (buffer line : Bytes)
    → (read_line incoming buffer).1 ≡ ok line
    → split_line (buffer ++ received incoming) ≡ some (line, stream (read_line incoming buffer).0)
unfolding received
split_line_read [] buffer line h =
    unless_found [] buffer line h λ n room. absurd (raised (read_line-end buffer n room) h)
split_line_read ([] ∷ more) buffer line h =
    unless_found ([] ∷ more) buffer line h
      λ n room. absurd (raised (read_line-closed more buffer n room) h)
split_line_read ((b ∷ bs) ∷ more) buffer line h =
    unless_found ((b ∷ bs) ∷ more) buffer line h λ n room.
      rw (read_line-more b bs more buffer n room) (
        subst (λ s. split_line s ≡ some (line, stream (read_line more (buffer ++ b ∷ bs)).0))
          (append_assoc buffer (b ∷ bs) (received more))
          (split_line_read more (buffer ++ b ∷ bs) line
            (sym (rw (read_line-more b bs more buffer n room)) ∙ h)))
