-- ===== src/VaultProxy/Types.antt =====
-- internal/vaultproxy/proxy.go, internal/binding/binding.go and internal/events/event.go: a request
-- to a vault socket, the binding that it is served for, and what comes of it.
use wyrwood.Base.{ℕ, Bool, Option, List}
use wyrwood.Base.Text.{Text}
use wyrwood.Base.Assoc.{Assoc}
use wyrwood.Base.Errors.{Result}

-- http.Header, by canonical names.
abbrev pub Header : Type 0
Header = Assoc (List Text)

pub record Request : Type 0 where
  pub method : Text
  -- URL.Path and URL.RawQuery
  pub path : Text
  pub query : Text
  pub header : Header
  pub body : Text

-- openbao.Token
pub record Token : Type 0 where
  pub value : Text
  pub policies : List Text
  -- The seconds until it expires, where it does.
  pub ttl : Option ℕ

pub record Mounts : Type 0 where
  pub transit : Text
  pub ssh : Text

-- What the proxy reads of a binding.View.
pub record View : Type 0 where
  pub id : Text
  pub address : Text
  pub namespace : Text
  pub ca_pem : Text
  pub mounts : Mounts
  pub token : Token
  pub has_token : Bool

-- The request that goes to OpenBao. The path is the one behind the base path of the address.
pub record Upstream : Type 0 where
  pub address : Text
  pub method : Text
  pub base : Text
  pub path : Text
  pub query : Text
  pub header : Header
  pub body : Text

pub record Response : Type 0 where
  pub status : ℕ
  pub header : Header
  pub content_length : Option ℕ
  pub body : Text
  -- Whether reading the body ends in an error.
  pub broken : Bool

-- An *http.MaxBytesError, a timeout, or any other error of a round trip.
pub data Failure : Type 0 where
  too_large timed_out unreachable : Failure

-- The fields that renewSelf reads of a token lookup.
pub record Looked : Type 0 where
  pub accessor : Text
  pub policies : List Text
  pub ttl : ℕ
  pub renewable : Bool

-- OpenBao, and the packages that the proxy calls: net/url, encoding/json, crypto/sha256 and
-- crypto/x509.
pub record Outside : Type 0 where
  pub round_trip : Upstream → Result Failure Response
  -- The path of a parsed address.
  pub base_path : Text → Option Text
  -- One parameter of a query, empty where it has none.
  pub query_get : Text → Text → Text
  pub valid_ca : Text → Bool
  -- The field "token" of a document, empty where it has none.
  pub token_field : Text → Text
  -- The token and the seconds of the field "wrap_info" of a document; the seconds are an int, by its
  -- 64 bits.
  pub wrap_info : Text → Option (Text × ℕ)
  -- The field "data" of a lookup without its "id", encoded.
  pub lookup_data : Text → Option Text
  pub looked_up : Text → Option Looked
  -- A string as JSON writes it, without the quotes.
  pub json_text : Text → Text
  -- The SHA-256 sum of a text, as bytes.
  pub sum256 : Text → Text

pub data Outcome : Type 0 where
  done denied failed timeout : Outcome

pub data ErrorCode : Type 0 where
  none openbao_unavailable openbao_denied openbao_timeout no_token not_bound policy_denied
        protocol :
      ErrorCode

pub data Mount : Type 0 where
  kv transit ssh sys auth other : Mount

pub data Method : Type 0 where
  none list get post put delete : Method

-- The fields of syntheticAuth that depend on anything.
pub record Auth : Type 0 where
  pub client_token : Text
  pub accessor : Text
  pub policies : List Text
  pub lease_duration : ℕ
  pub renewable : Bool

pub data Answer : Type 0 where
  -- writeErrors and writeUnavailable
  errors : ℕ → Answer
  unavailable : Text → Answer
  synthetic : Auth → Answer
  looked_data : Text → Answer
  -- What forward writes.
  passed : ℕ → Header → Text → Answer

abbrev pub Wrapped : Type 0
Wrapped = Assoc (Assoc ℕ)

-- What one call of the handler does: its answer, the event that it records, the requests that it
-- sends, and the wrapping tokens that the proxy remembers then.
pub record Exchange : Type 0 where
  pub answer : Answer
  pub outcome : Outcome
  pub code : ErrorCode
  pub sent : List Upstream
  pub wrapped : Wrapped
