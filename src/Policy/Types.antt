-- ===== src/Policy/Types.antt =====
-- internal/policy/policy.go, composition.go and part.go: the documents and the located errors.
-- Go's counters are natural numbers here, a pointer or an omitted field is an Option, and an
-- error keeps its part and not its text.
use wyrwood.Base.{ℕ, Bool, true, Option, none, some, List, []}
use wyrwood.Base.Text.{Text, codes}
use wyrwood.Base.Assoc.{Assoc, insert}

pub data Part : Type 0 where
  name open_bao ssh contract key selection settings : Part

-- `located` is a *PartError.
pub data Problem : Type 0 where
  located : Part → Problem
  unlocated : Problem

abbrev pub part_of : Problem → Option Part
part_of (located p) = some p
part_of unlocated = none

pub record OpenBao : Type 0 where
  pub policy : Text
  pub agent_token_renewal : Option Bool

pub record Requirements : Type 0 where
  pub mount_target : Text
  pub env : Assoc Text

pub record SshIdentityNames : Type 0 where
  pub transit_keys : List Text
  pub ca_roles : List Text

pub record Ssh : Type 0 where
  pub transit_keys : List Text
  pub ca_roles : List Text
  pub not_forwardable : Option SshIdentityNames

pub record Policy : Type 0 where
  pub name : Text
  pub revision : ℕ
  pub open_bao : OpenBao
  pub ssh : Option Ssh
  pub contract : Requirements
  pub generation : ℕ

pub record Contract : Type 0 where
  pub mount_target : Text
  pub env : Assoc Text
  pub access_group : Option ℕ
  pub enforcement : Text

pub record Settings : Type 0 where
  pub token_ttl : Text
  pub token_max_ttl : Text
  pub access_group : Option ℕ
  pub enforcement : Text
  pub values : Assoc Text

pub record Source : Type 0 where
  pub name : Text
  pub revision : ℕ
  pub hcl : Text
  pub generation : ℕ

pub record Effective : Type 0 where
  pub sources : List Source
  pub open_bao : OpenBao
  pub ssh : Option Ssh
  pub contract : Contract
  pub settings : Settings

abbrev pub enforcement_report : Text
enforcement_report = codes "report"

abbrev pub enforcement_recreate : Text
enforcement_recreate = codes "recreate"

abbrev pub default_token_ttl : Text
default_token_ttl = codes "1h"

abbrev pub default_token_max_ttl : Text
default_token_max_ttl = codes "8h"

abbrev pub default_mount_target : Text
default_mount_target = codes "/run/wyrwood"

abbrev pub mount_target_token : Text
mount_target_token = codes "{mount-target}"

unfoldable pub default_contract : Contract
unfolding insert
default_contract = record {
  mount_target = default_mount_target;
  env =
      insert (codes "SSH_AUTH_SOCK") (codes "{mount-target}/ssh-agent.sock")
        (insert (codes "VAULT_ADDR") (codes "unix://{mount-target}/vault.sock") []);
  access_group = none;
  enforcement = enforcement_report;
}

-- New
unfoldable pub new_policy : Text → Text → Policy
unfolding default_contract
new_policy n hcl = record {
  name = n;
  revision = 0;
  open_bao = record { policy = hcl; agent_token_renewal = some true };
  ssh = none;
  contract = record { mount_target = default_contract.mount_target; env = default_contract.env };
  generation = 0;
}

abbrev ssh_transit_keys : Option Ssh → List Text
ssh_transit_keys none = []
ssh_transit_keys (some s) = s.transit_keys

abbrev ssh_ca_roles : Option Ssh → List Text
ssh_ca_roles none = []
ssh_ca_roles (some s) = s.ca_roles

abbrev pub transit_keys : Policy → List Text
transit_keys p = ssh_transit_keys p.ssh

abbrev pub ca_roles : Policy → List Text
ca_roles p = ssh_ca_roles p.ssh

abbrev pub effective_transit_keys : Effective → List Text
effective_transit_keys e = ssh_transit_keys e.ssh

abbrev pub effective_ca_roles : Effective → List Text
effective_ca_roles e = ssh_ca_roles e.ssh
