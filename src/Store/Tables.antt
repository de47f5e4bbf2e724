-- ===== src/Store/Tables.antt =====
-- internal/controller/store/store.go, operators.go and operator_keys.go: the tables. A table with
-- a primary key is an association list by that key, and a nullable column an Option. Times are
-- nanoseconds since 1970, and a JSON column holds the value that it encodes.
use wyrwood.Base.{ℕ, Bool, Option, List, []}
use wyrwood.Base.Text.{Text}
use wyrwood.Base.Assoc.{Assoc}
use wyrwood.Base.Errors.{Result}
use wyrwood.Policy.Types.{Policy, Settings, Effective}
use wyrwood.Protocol.Types.{Key, Container}

-- ErrNotFound, ErrConflict, a constraint that SQLite reports and the caller passes on, and any
-- other error of the package.
pub data StoreError : Type 0 where
  not_found conflict constraint invalid : StoreError

pub data AgentState : Type 0 where
  pending approved rejected : AgentState

pub record Agent : Type 0 where
  pub name : Text
  pub public_key : Text
  pub state : AgentState
  pub first_seen : ℕ
  pub decided_at : Option ℕ
  pub decided_by : Text
  pub agent_version : Text
  pub allow_recreate : Bool
  pub last_connected : Option ℕ
  pub last_report : Option ℕ

pub data OperatorKeyState : Type 0 where
  pending approved rejected revoked : OperatorKeyState

-- operator.Grant
pub record Grant : Type 0 where
  pub agents : List Text
  pub policies : List Text
  pub actions : List Text

pub record OperatorKey : Type 0 where
  pub label : Text
  pub public_key : Text
  pub state : OperatorKeyState
  pub grant : Grant
  pub first_seen : ℕ
  pub decided_at : Option ℕ
  pub decided_by : Text
  pub revoked_at : Option ℕ
  pub revoked_by : Text
  pub last_used : Option ℕ

pub record PolicyRow : Type 0 where
  pub revision : ℕ
  pub document : Policy
  pub saved_at : ℕ
  pub saved_by : Text
  pub generation : ℕ

pub record BindingRow : Type 0 where
  pub agent : Text
  pub key : Key
  pub settings : Settings
  pub revision : ℕ
  pub effective : Effective
  pub applied : Bool
  pub role : Text
  pub created_at : ℕ
  pub created_by : Text

pub record InventoryRow : Type 0 where
  pub containers : List Container
  pub reported_at : ℕ

pub record RetiredRow : Type 0 where
  pub agent : Text
  pub retired_at : ℕ

pub record TokenRow : Type 0 where
  pub accessor : Text
  pub updated_at : ℕ

pub record ResultRow : Type 0 where
  pub outcome : Text
  pub failed_items : List Text
  pub container_id : Text
  pub reason : Text
  pub updated_at : ℕ

pub record OperatorRow : Type 0 where
  pub display_name : Text
  pub email : Text
  pub last_sign_in : ℕ

pub record WebSession : Type 0 where
  pub subject : Text
  pub admitted_group : Text
  pub csrf : Text
  pub created_at : ℕ
  pub expires_at : ℕ

pub record Store : Type 0 where
  pub agents : Assoc Agent
  pub policies : Assoc PolicyRow
  pub generations : Assoc ℕ
  pub retirements : Assoc ℕ
  pub bindings : Assoc BindingRow
  -- The rows (binding_id, policy_name) of binding_policies.
  pub members : List (Text × Text)
  pub inventories : Assoc InventoryRow
  pub retired : Assoc RetiredRow
  pub tokens : Assoc TokenRow
  pub results : Assoc ResultRow
  pub operators : Assoc OperatorRow
  pub sessions : Assoc WebSession
  pub operator_keys : Assoc OperatorKey

-- A database that Open has just created.
abbrev pub empty : Store
empty = record {
  agents = [];
  policies = [];
  generations = [];
  retirements = [];
  bindings = [];
  members = [];
  inventories = [];
  retired = [];
  tokens = [];
  results = [];
  operators = [];
  sessions = [];
  operator_keys = [];
}

-- A read, and a call that may change the database: a failed one leaves it as it was, because its
-- transaction is rolled back or because the statement before the failure changed no row.
abbrev pub Read {ℓ} : Type ℓ → Type ℓ
Read A = Result StoreError A

abbrev pub Write : Type 0 → Type 0
Write A = Result StoreError (A × Store)
