-- ===== src/EngineProxy/Types.antt =====
-- internal/engineproxy/policy.go: the request that authorize reads, and its result.
use wyrwood.Base.{ℕ, Bool, Option, List}
use wyrwood.Base.Text.{Text}
use wyrwood.Base.Assoc.{Assoc}

-- url.Values
abbrev pub Query : Type 0
Query = Assoc (List Text)

-- What authorize reads of an *http.Request: the parts of its URL, the result of url.ParseQuery on
-- its query, its headers by canonical names, and what it says of its body.
pub record Request : Type 0 where
  pub method : Text
  pub absolute : Bool
  pub opaque : Text
  pub user : Bool
  pub fragment : Text
  pub uri : Text
  pub escaped_path : Text
  pub query : Option Query
  pub header : Assoc (List Text)
  pub has_body : Bool
  pub content_length_zero : Bool
  pub transfer_encoding : List Text

-- The packages that authorize calls: net/url, mime and encoding/json.
pub record Codec : Type 0 where
  pub escape : Text → Text
  pub unescape : Text → Option Text
  -- The media type of a header.
  pub media_type : Text → Option Text
  -- The fields of a document that is one object, duplicates included, with the texts of each list.
  pub fields : Text → Option (List (Text × Option (List Text)))

pub data Operation : Type 0 where
  request list inspect events image_inspect create remove start stop : Operation

-- The request that goes to the engine.
pub record Forwarded : Type 0 where
  pub path : Text
  pub raw_path : Text
  pub query : Query

-- The operation, and a status where the request is rejected.
pub data Verdict : Type 0 where
  rejected : Operation → ℕ → Verdict
  granted : Operation → Forwarded → Verdict
