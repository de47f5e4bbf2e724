-- ===== src/Operator/Messages.antt =====
-- operator/types.go and internal/controller/operator_session.go: what a request and an answer hold, and
-- the tests of a request that read no state.
use wyrwood.Base.{
  ℕ, Bool, not, ◌&&◌, ◌||◌, Option, none, some, List, [], ◌∷◌, ◌++◌, any, keep, length, ◌==◌,
  if◌then◌else◌,
}
use wyrwood.Base.Text.{Text, codes, ◌==t◌}
use wyrwood.Base.Sort.{has}
use wyrwood.Policy.Types.{Policy, Settings, Ssh, SshIdentityNames}
use wyrwood.Protocol.Types.{Key}
use wyrwood.Store.Tables.{StoreError, not_found, OperatorKey}
use wyrwood.Store.Bindings.{Binding, has_policy, same_key}
use wyrwood.Controller.Errors.{OperationError, operation_error, internal, not_bound, outside_grant}
use wyrwood.Operator.Grants.{covers, allows_agent}

-- What operatorWireError tells apart.
pub data RequestError : Type 0 where
  not_approved invalid_request binding_differs : RequestError
  operation : OperationError → RequestError
  pending : OperationError → RequestError

-- outsideGrant
abbrev pub outside : RequestError
outside = operation (operation_error outside_grant)

abbrev pub failed : RequestError
failed = operation (operation_error internal)

-- operator.PolicySSH
pub record PolicySsh : Type 0 where
  pub transit_keys : List Text
  pub ca_roles : List Text

-- operator.PolicyPut
pub record PolicyPut : Type 0 where
  pub name : Text
  pub hcl : Text
  pub ssh : Option PolicySsh

-- operator.Policy
pub record PublicPolicy : Type 0 where
  pub name : Text
  pub revision : ℕ
  pub hcl : Text
  pub ssh : Option PolicySsh
  pub value_names : List Text

-- operator.BindRequest, with the key and the settings in the controller's types
pub record BindRequest : Type 0 where
  pub agent : Text
  pub key : Key
  pub policies : List Text
  pub settings : Settings

-- operator.UnbindRequest
pub record UnbindRequest : Type 0 where
  pub id : Text
  pub agent : Text
  pub key : Option Key

-- operator.UnbindResult, with whether it carries a warning
pub record UnbindResult : Type 0 where
  pub removed : Bool
  pub token_live : Bool
  pub warned : Bool

abbrev pub public_ssh : Option Ssh → Option PolicySsh
public_ssh none = none
public_ssh (some s) = some (record { transit_keys = s.transit_keys; ca_roles = s.ca_roles })

-- The loops of replaceSSH: the restricted names that are still offered.
unfoldable pub still_offered : Option SshIdentityNames → PolicySsh → Option SshIdentityNames
unfolding has
still_offered none put = none
still_offered (some names) put =
    let kept : SshIdentityNames = record {
      transit_keys = keep (λ n. has n put.transit_keys) names.transit_keys;
      ca_roles = keep (λ n. has n put.ca_roles) names.ca_roles;
    } in
    if (length kept.transit_keys == 0) && (length kept.ca_roles == 0) then none else some kept

abbrev pub restricted : Option Ssh → Option SshIdentityNames
restricted none = none
restricted (some s) = s.not_forwardable

-- replaceSSH
unfoldable pub replace_ssh : Option Ssh → PolicySsh → Option Ssh
unfolding still_offered
replace_ssh previous put =
    if (length put.transit_keys == 0) && (length put.ca_roles == 0)
    then none
    else some (record {
      transit_keys = put.transit_keys;
      ca_roles = put.ca_roles;
      not_forwardable = still_offered (restricted previous) put;
    })

abbrev pub with_ssh : Option PolicySsh → Policy → Policy
with_ssh none document = document
with_ssh (some put) document = record document { ssh = replace_ssh document.ssh put }

abbrev pub find_key : Key → List Binding → Option Binding
find_key k [] = none
find_key k (b ∷ bs) = let rest = find_key k bs in if same_key b.key k then some b else rest

-- The operations of a request that decodes, and one that does not.
pub data Request : Type 0 where
  whoami policy_list malformed : Request
  policy_get : Text → Request
  policy_put : PolicyPut → Request
  binding_list : Text → Request
  binding_get : Text → Request
  bind : BindRequest → Request
  unbind : UnbindRequest → Request

pub data Answer : Type 0 where
  key_answer : OperatorKey → Answer
  policies_answer : List PublicPolicy → Answer
  policy_answer : PublicPolicy → Answer
  bindings_answer : List Binding → Answer
  binding_answer : Binding → Answer
  unbound_answer : UnbindResult → Answer

abbrev pub missing : StoreError → RequestError
missing not_found = operation (operation_error not_bound)
missing _ = failed

-- The bindings that hold a policy and that the grant does not cover.
unfoldable pub reaches_outside : OperatorKey → Text → List Binding → Bool
reaches_outside k name bs =
    any (λ (b : Binding). has_policy b name && not (covers k.grant b.agent b.policies)) bs

-- Whether an unbind request selects by the id, or by the agent and the key, and not by both.
unfoldable pub well_selected : UnbindRequest → Bool
well_selected request = elim request.key [
  | none ↦ not (request.id ==t []) && (request.agent ==t [])
  | some k ↦ (request.id ==t []) && not (request.agent ==t [])
]

abbrev pub by_key_allowed : OperatorKey → UnbindRequest → Bool
by_key_allowed k request = (request.agent ==t []) || allows_agent k.grant request.agent

abbrev pub unreadable : StoreError → RequestError
unreadable not_found = not_approved
unreadable _ = failed

-- OperatorSubject
abbrev pub operator_subject : Text → Text
operator_subject label = codes "key:" ++ label
