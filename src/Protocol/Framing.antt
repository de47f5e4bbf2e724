-- ===== src/Protocol/Framing.antt =====
-- Receive of internal/protocol/codec.go against reading a line at once, and the round trip of
-- a message through Send and Receive.
use wyrwood.Base.{
  ◌-◌, ◌≤◌, ◌≡◌, true, some, List, [], ◌∷◌, ◌++◌, length, length-append, take, ltb, arith,
  if◌then◌else◌, Option-cases, inl, inr,
}
use mathlib.Core.List.{append_assoc}
use wyrwood.Base.Text.{Text}
use wyrwood.Base.Assoc.{Assoc}
use wyrwood.Base.Errors.{Result, ok, err}
use wyrwood.Protocol.Messages.{Message, message_type}
use wyrwood.Protocol.Validate.{validate_message}
use wyrwood.Protocol.Codec.{
  Codec, LineError, line_too_long, Slice, line, full, encode, decode, receive, receive_from,
  maximum_line_bytes, line_text,
}

-- The bytes of the slices before the last one.
abbrev pub concat : List Text → Text
concat [] = []
concat (s ∷ ss) = s ++ concat ss

abbrev pub fulls : List Text → Text → List Slice → List Slice
fulls [] s more = line s ∷ more
fulls (f ∷ fs) s more = full f ∷ fulls fs s more

module _ (codec : Codec) where
  -- The line that Receive is to answer for, read at once.
  abbrev pub read_line : Text → Result LineError Message
  read_line text =
      if ltb maximum_line_bytes (length text)
      then err line_too_long
      else decode codec (take (length text - 1) text)

  receive_from-fulls :
      (before : Text) (fs : List Text) (s : Text) (more : List Slice)
      → receive_from codec before (fulls fs s more) ≡ read_line (before ++ (concat fs ++ s))
  unfolding receive_from
  receive_from-fulls before [] s more = ground (arith, length-append before s)
  receive_from-fulls before (f ∷ fs) s more = ground (
    arith,
    length-append before f,
    length-append (concat fs) s,
    length-append f (concat fs ++ s),
    length-append before (f ++ (concat fs ++ s)),
    receive_from-fulls (before ++ f) fs s more,
    append_assoc before f (concat fs ++ s),
    append_assoc f (concat fs) s,
  )

  -- However the stream cuts a line into slices, Receive answers as if it read the line at once: a line
  -- of more than 1 MiB with its newline is too long, and any other is decoded without its newline.
  pub receive-fulls :
      (fs : List Text) (s : Text) (more : List Slice)
      → receive codec (fulls fs s more) ≡ read_line (concat fs ++ s)
  unfolding receive
  receive-fulls fs s more = receive_from-fulls [] fs s more

  -- What Encode returns
  pub encode-eq-ok :
      (m : Message) (text : Text)
      → encode codec m ≡ ok text
      → (body : Text) × (codec.marshal m ≡ some body)
        × (validate_message codec.hcl codec.absolute_uri m ≡ true)
        × (text ≡ line_text (message_type m) body ++ b'\n' ∷ [])
        × (length text ≤ maximum_line_bytes)
  unfolding encode
  encode-eq-ok m text h = elim (Option-cases (codec.marshal m)) [
    | inl missing ↦ ground arith
    | inr (body, found) ↦ (body, found, ground arith, ground (arith), ground (arith))
  ]
