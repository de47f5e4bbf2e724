-- ===== src/Policy/Validate.antt =====
-- internal/policy/policy.go and composition.go: validation of policies, contracts and settings.
use wyrwood.Base.{
  ℕ, Bool, true, not, ◌&&◌, ◌||◌, Option, none, some, List, [], ◌∷◌, length, any, all, leb, ◌==◌,
}
use wyrwood.Base.Text.{Text, codes, ◌==t◌, has_prefix}
use wyrwood.Base.Errors.{Result, ok, err, ◌>>=◌, ◌>>◌, require}
use wyrwood.Base.Sort.{has}
use wyrwood.Policy.Types.{
  Policy, Contract, Settings, Ssh, Problem, located, unlocated, name, ssh, open_bao, contract,
  settings, enforcement_report, enforcement_recreate, default_token_ttl, default_token_max_ttl,
  default_mount_target,
}
use wyrwood.Policy.Patterns.{matches_identity, matches_env_name, valid_name}
use wyrwood.Policy.CleanPath.{clean}
use wyrwood.Policy.Ttl.{parse_ttl}
use wyrwood.Policy.Hcl.{Hcl}
use wyrwood.Policy.BindingValues.{validate_binding_placeholders, validate_binding_values}

abbrev pub Check : Type 0
Check = Result Problem (Unit {0})

abbrev maximum_hcl_bytes : ℕ
maximum_hcl_bytes = 65536

abbrev pub maximum_identity_names : ℕ
maximum_identity_names = 64

abbrev maximum_identity_bytes : ℕ
maximum_identity_bytes = 128

abbrev maximum_env_entries : ℕ
maximum_env_entries = 64

abbrev maximum_env_value_bytes : ℕ
maximum_env_value_bytes = 4096

abbrev maximum_access_group : ℕ
maximum_access_group = 4294967294

-- The loop of validateIdentities over the names that are left and those seen.
unfoldable pub identities_from : List Text → List Text → Check
unfolding matches_identity has
identities_from [] seen = ok tt
identities_from (n ∷ ns) seen =
    require (leb (length n) maximum_identity_bytes && matches_identity n) (located ssh)
    >> require (not (has n seen)) (located ssh)
    >> identities_from ns (n ∷ seen)

-- validateIdentities
unfoldable pub validate_identities : List Text → Check
unfolding identities_from
validate_identities names =
    require (leb (length names) maximum_identity_names) (located ssh) >> identities_from names []

unfoldable pub validate_ssh : Option Ssh → Check
unfolding validate_identities
validate_ssh none = ok tt
validate_ssh (some s) =
    validate_identities s.transit_keys >> validate_identities s.ca_roles >> elim s.not_forwardable [
      | none ↦ ok tt
      | some selected ↦
          validate_identities selected.transit_keys >> validate_identities selected.ca_roles
    ]

-- The condition on a mount target.
unfoldable pub canonical_target : Text → Bool
unfolding has_prefix clean
canonical_target target =
    has_prefix target (codes "/")
    && (clean target ==t target)
    && not (target ==t codes "/")
    && not (any (λ c. (c == 0) || (c == b':') || (c == b',')) target)

abbrev env_ok : Text × Text → Bool
env_ok (n, v) =
    matches_env_name n && leb (length v) maximum_env_value_bytes && not (any (λ c. c == 0) v)

abbrev group_ok : Option ℕ → Bool
group_ok none = true
group_ok (some g) = leb g maximum_access_group

-- Contract.Validate
unfoldable pub validate_contract : Contract → Check
unfolding canonical_target
validate_contract c =
    require (canonical_target c.mount_target) unlocated
    >> require (leb (length c.env) maximum_env_entries) unlocated
    >> require (all env_ok c.env) unlocated
    >> require (group_ok c.access_group) unlocated
    >> require ((c.enforcement ==t enforcement_report) || (c.enforcement ==t enforcement_recreate))
        unlocated

-- partError(part, "%s", err)
abbrev pub locate : Check → Problem → Check
locate (ok u) p = ok u
locate (err _) p = err p

module _ (hcl : Hcl) where
  -- Policy.Validate
  unfoldable pub validate_policy : Policy → Check
  unfolding validate_contract validate_ssh valid_name
  validate_policy p =
      require (valid_name p.name) (located name)
      >> require (leb (length p.open_bao.policy) maximum_hcl_bytes) (located open_bao)
      >> validate_binding_placeholders hcl p.open_bao.policy
      >> validate_ssh p.ssh
      >> locate
          (validate_contract (record {
            mount_target = p.contract.mount_target;
            env = p.contract.env;
            access_group = none;
            enforcement = enforcement_report;
          }))
          (located contract)

abbrev pub or_text : Text → Text → Text
or_text [] fallback = fallback
or_text (c ∷ s) fallback = c ∷ s

-- Settings.Defaults
unfoldable pub defaults : Settings → Settings
defaults s = record s {
  token_ttl = or_text s.token_ttl default_token_ttl;
  token_max_ttl = or_text s.token_max_ttl default_token_max_ttl;
  enforcement = or_text s.enforcement enforcement_report;
}

-- parseTTL with its error located in the settings
unfoldable pub settings_ttl : Text → Result Problem ℕ
unfolding parse_ttl
settings_ttl t = elim (parse_ttl t) [ none ↦ err (located settings) | some d ↦ ok d ]

-- Settings.Validate
unfoldable pub validate_settings : Settings → Check
unfolding defaults settings_ttl validate_contract
validate_settings given = do
  let s = defaults given
  validate_binding_values s.values
  ttl ← settings_ttl s.token_ttl
  max ← settings_ttl s.token_max_ttl
  require (leb ttl max) (located settings)
  locate
      (validate_contract (record {
        mount_target = default_mount_target;
        env = [];
        access_group = s.access_group;
        enforcement = s.enforcement;
      }))
      (located settings)
