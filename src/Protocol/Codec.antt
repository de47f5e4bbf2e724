-- ===== src/Protocol/Codec.antt =====
-- internal/protocol/codec.go: a message as one line, and a line as a message. encoding/json is a
-- parameter.
use wyrwood.Base.{
  ℕ, ◌+◌, ◌-◌, Bool, true, false, not, Option, none, some, List, [], ◌∷◌, ◌++◌, length, all, ltb,
  leb, ◌==◌, take, drop, if◌then◌else◌,
}
use wyrwood.Base.Text.{Text, codes, ◌==t◌, or_else}
use wyrwood.Base.Assoc.{Assoc, lookup, remove}
use wyrwood.Base.Errors.{Result, ok, err, ◌>>=◌, ◌>>◌, require}
use wyrwood.Base.Sort.{has}
use wyrwood.Policy.Hcl.{Hcl}
use wyrwood.Protocol.Messages.{Message, message_type}
use wyrwood.Protocol.Validate.{validate_message}

abbrev pub maximum_line_bytes : ℕ
maximum_line_bytes = 1048576

-- ErrLineTooLong, ErrInvalid, and what a reader returns.
pub data LineError : Type 0 where
  line_too_long invalid ended cut_off broken : LineError

-- What the package calls: encoding/json, net/url and the HCL parser.
pub record Codec : Type 0 where
  pub hcl : Hcl
  pub absolute_uri : Text → Bool
  -- json.Marshal of a message and of a map of fields, none on an error.
  pub marshal : Message → Option Text
  pub marshal_fields : Assoc Text → Option Text
  -- json.Unmarshal into a map of fields, into a number and into a string.
  pub unmarshal_fields : Text → Option (Assoc Text)
  pub unmarshal_int : Text → Option ℕ
  pub unmarshal_string : Text → Option Text
  -- A decoder that refuses unknown fields, into an empty message of a type.
  pub decode_strict : Text → Text → Option Message

abbrev pub version_name : Text
version_name = codes "version"

abbrev pub type_name : Text
type_name = codes "type"

abbrev pub version_text : Text
version_text = codes "2"

-- %q of a message type, which has only letters and dashes
abbrev pub quoted : Text → Text
quoted t = b'"' ∷ (t ++ b'"' ∷ [])

abbrev header : Text → Text
header t =
    (b'{' ∷ quoted version_name)
    ++ (b':' ∷ version_text)
    ++ (b',' ∷ quoted type_name)
    ++ (b':' ∷ quoted t)

-- The fields of an object behind those of the header.
unfoldable pub joined : Text → Text
joined body = if ltb 2 (length body) then b',' ∷ take (length body - 2) (drop 1 body) else []

-- The line of a message without its newline.
unfoldable pub line_text : Text → Text → Text
unfolding joined
line_text t body = header t ++ joined body ++ b'}' ∷ []

unfoldable pub types : List Text
types =
    codes "hello"
    ∷ codes "inventory"
    ∷ codes "contract-result"
    ∷ codes "credential-request"
    ∷ codes "policy-set"
    ∷ codes "credential"
    ∷ codes "recreate-request"
    ∷ codes "unbind"
    ∷ codes "result-recorded"
    ∷ codes "token-accessor"
    ∷ codes "accessor-recorded"
    ∷ codes "binding-status"
    ∷ []

abbrev required_table : Assoc (List Text)
required_table =
    (codes "hello", codes "allow-recreate" ∷ [])
    ∷ (codes "inventory", codes "containers" ∷ [])
    ∷ (codes "contract-result", codes "binding" ∷ codes "outcome" ∷ [])
    ∷ (codes "credential-request", codes "binding" ∷ [])
    ∷ (codes "policy-set", codes "openbao" ∷ codes "bindings" ∷ [])
    ∷ (
      codes "credential",
      codes "binding"
          ∷ codes "assignment"
          ∷ codes "approle-mount"
          ∷ codes "role-id"
          ∷ codes "wrapped-secret-id"
          ∷ [],
    )
    ∷ (codes "recreate-request", codes "binding" ∷ [])
    ∷ (codes "unbind", codes "binding" ∷ [])
    ∷ (codes "result-recorded", codes "binding" ∷ codes "outcome" ∷ [])
    ∷ (codes "token-accessor", codes "binding" ∷ codes "assignment" ∷ codes "accessor" ∷ [])
    ∷ (codes "accessor-recorded", codes "binding" ∷ codes "assignment" ∷ codes "accessor" ∷ [])
    ∷ (
      codes "binding-status",
      codes "binding" ∷ codes "assignment" ∷ codes "token" ∷ codes "consumers" ∷ [],
    )
    ∷ []

unfoldable pub required_fields : Text → List Text
unfolding lookup
required_fields t = or_else [] (lookup t required_table)

abbrev pub present : Assoc Text → Text → Bool
present fields n = elim (lookup n fields) [ none ↦ false | some _ ↦ true ]

-- requireFields
unfoldable pub has_required : Text → Assoc Text → Bool
has_required t fields = all (present fields) (required_fields t)

abbrev or_invalid {ℓ} : {A : Type ℓ} → Option A → Result LineError A
or_invalid none = err invalid
or_invalid (some a) = ok a

-- What bufio.Reader.ReadSlice returns: bytes up to a newline, a full buffer without one, the
-- bytes before the end of the stream, or any other error.
pub data Slice : Type 0 where
  line : Text → Slice
  full : Text → Slice
  last : Text → Slice
  failed : Text → Slice

abbrev without_last : Text → Text
without_last s = take (length s - 1) s

abbrev at_end : Text → LineError
at_end [] = ended
at_end (_ ∷ _) = cut_off

abbrev too_long : Text → Text → Bool
too_long before slice = ltb maximum_line_bytes (length before + length slice)

module _ (codec : Codec) where
  -- Encode
  unfoldable pub encode : Message → Result LineError Text
  encode m =
      require (validate_message codec.hcl codec.absolute_uri m) invalid >> elim (codec.marshal m) [
        | none ↦ err invalid
        | some body ↦
            let text = line_text (message_type m) body ++ b'\n' ∷ [] in
            require (leb (length text) maximum_line_bytes) line_too_long >> ok text
      ]

  -- The version of a line: the number 2, written so.
  unfoldable pub good_version : Assoc Text → Bool
  good_version fields = elim (lookup version_name fields) [
    | none ↦ false
    | some raw ↦ elim (codec.unmarshal_int raw) [
      | none ↦ false
      | some version ↦ if version == 2 then raw ==t version_text else false
    ]
  ]

  -- Decode; dereference makes a nil slice empty, which are the same list here.
  unfoldable pub decode : Text → Result LineError Message
  decode text = do
    require (not (leb maximum_line_bytes (length text))) line_too_long
    fields ← or_invalid (codec.unmarshal_fields text)
    require (good_version fields) invalid
    raw ← or_invalid (lookup type_name fields)
    t ← or_invalid (codec.unmarshal_string raw)
    let left = remove type_name (remove version_name fields)
    require (has t types) invalid
    body ← or_invalid (codec.marshal_fields left)
    m ← or_invalid (codec.decode_strict t body)
    require (has_required t left) invalid
    require (validate_message codec.hcl codec.absolute_uri m) invalid
    ok m

  -- The loop of Receive over the slices that the stream gives, with the bytes read before.
  unfoldable pub receive_from : Text → List Slice → Result LineError Message
  receive_from before [] = err (at_end before)
  receive_from before (line s ∷ slices) =
      if too_long before s then err line_too_long else decode (without_last (before ++ s))
  receive_from before (full s ∷ slices) =
      let rest = receive_from (before ++ s) slices in
      if too_long before s then err line_too_long else rest
  receive_from before (last s ∷ slices) =
      if too_long before s then err line_too_long else err (at_end (before ++ s))
  receive_from before (failed s ∷ slices) =
      if too_long before s then err line_too_long else err broken

  -- Receive
  unfoldable pub receive : List Slice → Result LineError Message
  receive slices = receive_from [] slices
