-- ===== src/Protocol/Validate.antt =====
-- internal/protocol/protocol.go: the validation of the messages. Every refusal becomes ErrInvalid,
-- so a validation is a test.
use wyrwood.Base.{
  ℕ, Bool, true, false, not, ◌&&◌, ◌||◌, Option, none, some, List, [], ◌∷◌, length, all, leb, ◌==◌,
}
use wyrwood.Base.Text.{Text, codes, ◌==t◌}
use wyrwood.Base.Errors.{Result, ok, err}
use wyrwood.Base.Sort.{has}
use wyrwood.Policy.Hcl.{Hcl}
use wyrwood.Policy.Patterns.{is_lower, is_upper, is_digit}
use wyrwood.Policy.Compose.{validate_effective}
use wyrwood.Protocol.Types.{Key, Container, ContractResult}
use wyrwood.Protocol.Messages.{
  AssignableGroups, Group, Hello, WireBinding, PolicySet, Credential, TokenAccessor, ResultRecorded,
  ConsumerStatus, BindingStatus, Message, hello, inventory, contract_result, credential_request,
  policy_set, credential, recreate_request, unbind, result_recorded, token_accessor,
  accessor_recorded, binding_status,
}

abbrev maximum_key_value_bytes : ℕ
maximum_key_value_bytes = 512

abbrev maximum_name_bytes : ℕ
maximum_name_bytes = 256

abbrev maximum_image_bytes : ℕ
maximum_image_bytes = 512

abbrev maximum_containers : ℕ
maximum_containers = 1024

abbrev maximum_keys : ℕ
maximum_keys = 3

abbrev maximum_path_bytes : ℕ
maximum_path_bytes = 4096

abbrev between : ℕ → ℕ → ℕ → Bool
between low high n = leb low n && leb n high

-- ^[a-z0-9-]{1,64}$
unfoldable pub valid_id : Text → Bool
valid_id s = between 1 64 (length s) && all (λ c. is_lower c || is_digit c || (c == b'-')) s

-- ^[A-Za-z0-9.]{1,128}$
unfoldable pub valid_accessor : Text → Bool
valid_accessor s =
    between 1 128 (length s) && all (λ c. is_upper c || is_lower c || is_digit c || (c == b'.')) s

-- ^[0-9a-f]{64}$
unfoldable pub container_id_pattern : Text → Bool
container_id_pattern s = (length s == 64) && all (λ c. is_digit c || between b'a' b'f' c) s

abbrev pub key_devcontainer : Text
key_devcontainer = codes "devcontainer"

abbrev pub key_compose : Text
key_compose = codes "compose"

abbrev pub key_name : Text
key_name = codes "name"

abbrev pub key_kinds : List Text
key_kinds = key_devcontainer ∷ key_compose ∷ key_name ∷ []

-- Key.Validate
unfoldable pub validate_key : Key → Bool
unfolding has
validate_key k = has k.kind key_kinds && between 1 maximum_key_value_bytes (length k.value)

abbrev states : List Text
states =
    codes "created"
    ∷ codes "running"
    ∷ codes "paused"
    ∷ codes "restarting"
    ∷ codes "exited"
    ∷ codes "dead"
    ∷ []

-- Container.Validate
unfoldable pub validate_container : Container → Bool
unfolding has container_id_pattern validate_key
validate_container c =
    container_id_pattern c.id
    && leb (length c.name) maximum_name_bytes
    && has c.state states
    && leb (length c.image) maximum_image_bytes
    && between 1 maximum_keys (length c.keys)
    && all validate_key c.keys

abbrev unassignable_group : ℕ
unassignable_group = 4294967295

abbrev groups_ok : Option AssignableGroups → Bool
groups_ok none = true
groups_ok (some g) = elim g.groups [
  | none ↦ false
  | some gs ↦ all (λ (group : Group). not (group.gid == unassignable_group)) gs
]

-- Hello.Validate
unfoldable pub validate_hello : Hello → Bool
validate_hello h = groups_ok h.assignable_groups

-- Inventory.Validate
unfoldable pub validate_inventory : List Container → Bool
unfolding validate_container
validate_inventory cs = leb (length cs) maximum_containers && all validate_container cs

abbrev outcomes : List Text
outcomes =
    codes "conforming"
    ∷ codes "non-conforming"
    ∷ codes "recreating"
    ∷ codes "recreated"
    ∷ codes "recreate-failed"
    ∷ []

abbrev failed_item_names : List Text
failed_item_names =
    codes "mount"
    ∷ codes "env"
    ∷ codes "access-group"
    ∷ codes "consumer-directory"
    ∷ codes "socket-access"
    ∷ codes "recreate-not-allowed"
    ∷ []

abbrev reasons : List Text
reasons = codes "engine-error" ∷ codes "create-failed" ∷ codes "start-failed" ∷ []

-- A field that may be empty, and else has to be one of a vocabulary.
unfoldable pub empty_or : (Text → Bool) → Text → Bool
empty_or p s = (s ==t []) || p s

-- ContractResult.Validate
unfoldable pub validate_contract_result : ContractResult → Bool
unfolding valid_id has empty_or container_id_pattern
validate_contract_result r =
    valid_id r.binding
    && has r.outcome outcomes
    && all (λ i. has i failed_item_names) r.failed_items
    && empty_or container_id_pattern r.container_id
    && empty_or (λ s. has s reasons) r.reason

abbrev is_ok {ℓ κ} : {E : Type κ} {A : Type ℓ} → Result E A → Bool
is_ok (ok _) = true
is_ok (err _) = false

-- Credential.Validate
unfoldable pub validate_credential : Credential → Bool
unfolding valid_id
validate_credential c =
    valid_id c.binding
    && valid_id c.assignment
    && not ((c.approle_mount ==t []) || (c.role_id ==t []) || (c.wrapped_secret_id ==t []))

-- TokenAccessor.Validate, which AccessorRecorded.Validate calls
unfoldable pub validate_token_accessor : TokenAccessor → Bool
unfolding valid_id valid_accessor
validate_token_accessor a = valid_id a.binding && valid_id a.assignment && valid_accessor a.accessor

abbrev socket_names : List Text
socket_names = codes "vault.sock" ∷ codes "ssh-agent.sock" ∷ []

abbrev token_states : List Text
token_states = codes "valid" ∷ codes "expired" ∷ codes "none" ∷ []

abbrev credential_errors : List Text
credential_errors =
    codes "openbao-denied" ∷ codes "openbao-timeout" ∷ codes "openbao-unavailable" ∷ []

abbrev assignable : Option ℕ → Bool
assignable none = true
assignable (some g) = not (g == unassignable_group)

-- ConsumerStatus.validate
unfoldable pub validate_consumer : ConsumerStatus → Bool
unfolding has empty_or container_id_pattern
validate_consumer c =
    leb (length c.directory) maximum_path_bytes
    && empty_or container_id_pattern c.container_id
    && assignable c.access_group
    && all (λ s. has s socket_names) c.sockets
    && empty_or (λ s. has s failed_item_names) c.failed

-- BindingStatus.Validate
unfoldable pub validate_binding_status : BindingStatus → Bool
unfolding valid_id has empty_or validate_consumer
validate_binding_status s =
    valid_id s.binding
    && valid_id s.assignment
    && has s.token token_states
    && leb (length s.consumers) maximum_containers
    && all validate_consumer s.consumers
    && empty_or (λ o. has o outcomes) s.outcome
    && all (λ i. has i failed_item_names) s.failed_items
    && empty_or (λ r. has r reasons) s.reason
    && empty_or (λ e. has e credential_errors) s.last_error

-- ResultRecorded.Validate
unfoldable pub validate_result_recorded : ResultRecorded → Bool
unfolding validate_contract_result
validate_result_recorded r = validate_contract_result (record {
  binding = r.binding;
  outcome = r.outcome;
  failed_items = [];
  container_id = [];
  reason = r.reason;
})

-- The HCL parser, and whether net/url reads an address as an absolute URI with a scheme.
module _ (hcl : Hcl) (absolute_uri : Text → Bool) where
  -- The body of the loop of PolicySet.Validate.
  unfoldable pub validate_wire_binding : WireBinding → Bool
  unfolding valid_id validate_key
  validate_wire_binding b =
      valid_id b.binding
      && validate_key b.key
      && valid_id b.assignment
      && is_ok (validate_effective hcl b.policy)

  -- PolicySet.Validate
  unfoldable pub validate_policy_set : PolicySet → Bool
  unfolding validate_wire_binding
  validate_policy_set m = absolute_uri m.open_bao.address && all validate_wire_binding m.bindings

  -- Message.Validate
  unfoldable pub validate_message : Message → Bool
  unfolding validate_hello validate_inventory validate_contract_result valid_id validate_policy_set
      validate_credential validate_result_recorded validate_token_accessor validate_binding_status
  validate_message (hello m) = validate_hello m
  validate_message (inventory m) = validate_inventory m
  validate_message (contract_result m) = validate_contract_result m
  validate_message (credential_request m) = valid_id m
  validate_message (policy_set m) = validate_policy_set m
  validate_message (credential m) = validate_credential m
  validate_message (recreate_request m) = valid_id m
  validate_message (unbind m) = valid_id m
  validate_message (result_recorded m) = validate_result_recorded m
  validate_message (token_accessor m) = validate_token_accessor m
  validate_message (accessor_recorded m) = validate_token_accessor m
  validate_message (binding_status m) = validate_binding_status m
