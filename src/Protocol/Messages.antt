-- ===== src/Protocol/Messages.antt =====
-- internal/protocol/protocol.go: the messages. A pointer or an omitted object is an Option; a nil
-- slice and an empty one are the same list, but for the groups of a hello, which tell them apart.
use wyrwood.Base.{◌∷◌, ℕ, Bool, true, Option, none, some, List, [], any, ◌==◌, if◌then◌else◌}
use wyrwood.Base.Text.{Text, codes}
use wyrwood.Policy.Types.{Effective}
use wyrwood.Protocol.Types.{Key, Container, ContractResult}

pub record Group : Type 0 where
  pub gid : ℕ
  pub name : Text

pub record AssignableGroups : Type 0 where
  pub groups : Option (List Group)
  pub any_group : Bool

abbrev group_list : Option (List Group) → List Group
group_list none = []
group_list (some gs) = gs

-- Allows
unfoldable pub allows : AssignableGroups → ℕ → Bool
allows g gid =
    if g.any_group then true else any (λ (group : Group). group.gid == gid) (group_list g.groups)

pub record Hello : Type 0 where
  pub assignable_groups : Option AssignableGroups
  pub agent_version : Text
  pub allow_recreate : Bool

pub record OpenBao : Type 0 where
  pub address : Text
  pub ca_pem : Text
  pub namespace : Text
  pub transit_mount : Text
  pub ssh_mount : Text

-- protocol.Binding
pub record WireBinding : Type 0 where
  pub binding : Text
  pub key : Key
  pub policy : Effective
  pub assignment : Text

pub record PolicySet : Type 0 where
  pub open_bao : OpenBao
  pub bindings : List WireBinding

pub record Credential : Type 0 where
  pub assignment : Text
  pub binding : Text
  pub approle_mount : Text
  pub role_id : Text
  pub wrapped_secret_id : Text

pub record TokenAccessor : Type 0 where
  pub assignment : Text
  pub binding : Text
  pub accessor : Text

pub record ResultRecorded : Type 0 where
  pub binding : Text
  pub outcome : Text
  pub reason : Text

pub record ConsumerStatus : Type 0 where
  pub directory : Text
  pub container_id : Text
  pub access_group : Option ℕ
  pub sockets : List Text
  pub failed : Text

pub record BindingStatus : Type 0 where
  pub binding : Text
  pub assignment : Text
  pub token : Text
  pub consumers : List ConsumerStatus
  pub outcome : Text
  pub failed_items : List Text
  pub reason : Text
  pub last_error : Text

pub data Message : Type 0 where
  hello : Hello → Message
  inventory : List Container → Message
  contract_result : ContractResult → Message
  credential_request : Text → Message
  policy_set : PolicySet → Message
  credential : Credential → Message
  recreate_request : Text → Message
  unbind : Text → Message
  result_recorded : ResultRecorded → Message
  token_accessor : TokenAccessor → Message
  accessor_recorded : TokenAccessor → Message
  binding_status : BindingStatus → Message

-- MessageType
unfoldable pub message_type : Message → Text
message_type (hello _) = codes "hello"
message_type (inventory _) = codes "inventory"
message_type (contract_result _) = codes "contract-result"
message_type (credential_request _) = codes "credential-request"
message_type (policy_set _) = codes "policy-set"
message_type (credential _) = codes "credential"
message_type (recreate_request _) = codes "recreate-request"
message_type (unbind _) = codes "unbind"
message_type (result_recorded _) = codes "result-recorded"
message_type (token_accessor _) = codes "token-accessor"
message_type (accessor_recorded _) = codes "accessor-recorded"
message_type (binding_status _) = codes "binding-status"

-- The fields that a message is always written with: those of its struct without omitempty in their
-- tags.
unfoldable pub always_written : Message → List Text
always_written (hello _) = codes "allow-recreate" ∷ []
always_written (inventory _) = codes "containers" ∷ []
always_written (contract_result _) = codes "binding" ∷ codes "outcome" ∷ []
always_written (credential_request _) = codes "binding" ∷ []
always_written (policy_set _) = codes "openbao" ∷ codes "bindings" ∷ []
always_written (credential _) =
    codes "assignment"
    ∷ codes "binding"
    ∷ codes "approle-mount"
    ∷ codes "role-id"
    ∷ codes "wrapped-secret-id"
    ∷ []
always_written (recreate_request _) = codes "binding" ∷ []
always_written (unbind _) = codes "binding" ∷ []
always_written (result_recorded _) = codes "binding" ∷ codes "outcome" ∷ []
always_written (token_accessor _) = codes "assignment" ∷ codes "binding" ∷ codes "accessor" ∷ []
always_written (accessor_recorded _) = codes "assignment" ∷ codes "binding" ∷ codes "accessor" ∷ []
always_written (binding_status _) =
    codes "binding" ∷ codes "assignment" ∷ codes "token" ∷ codes "consumers" ∷ []

-- The fields that are left out where they are empty.
unfoldable pub omitted_empty : Message → List Text
omitted_empty (hello _) = codes "assignable-groups" ∷ codes "agent-version" ∷ []
omitted_empty (contract_result _) =
    codes "failed-items" ∷ codes "container-id" ∷ codes "reason" ∷ []
omitted_empty (result_recorded _) = codes "reason" ∷ []
omitted_empty (binding_status _) =
    codes "outcome" ∷ codes "failed-items" ∷ codes "reason" ∷ codes "last-error" ∷ []
omitted_empty _ = []

-- Acknowledge of a TokenAccessor
abbrev pub acknowledge_accessor : TokenAccessor → Message
acknowledge_accessor report = accessor_recorded report

-- Acknowledge of a ContractResult
abbrev pub acknowledge_result : ContractResult → Message
acknowledge_result r =
    result_recorded (record { binding = r.binding; outcome = r.outcome; reason = r.reason })
