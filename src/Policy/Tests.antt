-- ===== src/Policy/Tests.antt =====
-- Runs of the policy package on small documents.
use wyrwood.Base.{
  ℕ, ◌≤◌, ◌<◌, ◌^◌, ◌≡◌, ◌≢◌, ◌↔◌, refl, true, false, ◌&&◌, none, some, List, [], ◌∷◌, any,
}
use wyrwood.Base.Text.{Text, codes, ◌==t◌, lt_text}
use wyrwood.Base.Assoc.{lookup, insert}
use wyrwood.Base.Errors.{Result, ok, err}
use wyrwood.Base.Sort.{has, add_name, sort_by, sort_names, Distinct}
use wyrwood.Policy.Types.{
  Policy, Settings, Effective, Problem, new_policy, transit_keys, ca_roles, effective_transit_keys,
  effective_ca_roles,
}
use wyrwood.Policy.Hcl.{Hcl}
use wyrwood.Policy.Patterns.{valid_name, identity_name, matches_env_name}
use wyrwood.Policy.Types.{default_token_ttl, default_token_max_ttl}
use wyrwood.Policy.Lifetimes.{accepted_lifetimes}
use wyrwood.Policy.Ttl.{duration_or, parse_ttl}
use wyrwood.Policy.Identity.{SameGeneration, identity_name-injective}
use wyrwood.Policy.Lifecycle.{agent_renewal, effective_renewal, published_hcl}
use wyrwood.Policy.BindingValues.{
  validate_binding_placeholders, validate_binding_values, value_names,
}
use wyrwood.Policy.Validate.{validate_policy, validate_settings, defaults}
use wyrwood.Policy.Compose.{
  compose, compose_sorted, assemble, validate_effective, validate_sources, equal_group, names_of,
}
use wyrwood.Policy.Compose.Loop.{
  merge, merge_all, merge_env, source_of, section_hcl, add_names, selected_names,
}
use wyrwood.Policy.Compose.Env.{sets}
use wyrwood.Policy.Compose.Correct.{
  compose_env, compose_identities, compose_restrictions, compose_renewal, compose_sources,
}

-- A parser that finds no stanza.
abbrev no_stanzas : Hcl
no_stanzas = record {
  parse = λ s. some [];
  unquote = λ s. none;
  decode_rules = λ s. some [];
  print = λ is. none;
}

abbrev first : Policy
first = record {
  name = codes "deploy";
  revision = 3;
  open_bao = record { policy = []; agent_token_renewal = some true };
  ssh = some (record {
    transit_keys = codes "k1" ∷ codes "k2" ∷ [];
    ca_roles = [];
    not_forwardable = none;
  });
  contract = record {
    mount_target = codes "/run/w";
    env = (codes "VAULT_ADDR", codes "unix://{mount-target}/vault.sock") ∷ [];
  };
  generation = 1;
}

abbrev second : Policy
second = record {
  name = codes "app";
  revision = 1;
  open_bao = record { policy = []; agent_token_renewal = some false };
  ssh = some (record {
    transit_keys = codes "k2" ∷ [];
    ca_roles = codes "r" ∷ [];
    not_forwardable = some (record { transit_keys = codes "k1" ∷ codes "k9" ∷ []; ca_roles = [] });
  });
  contract = record {
    mount_target = codes "/run/w";
    env = (codes "VAULT_ADDR", codes "unix:///run/w/vault.sock") ∷ (codes "APP", codes "1") ∷ [];
  };
  generation = 2;
}

abbrev chosen : Settings
chosen = record {
  token_ttl = [];
  token_max_ttl = codes "2h";
  access_group = some 100;
  enforcement = [];
  values = [];
}

abbrev the_result : Result Problem Effective → Effective
the_result (ok e) = e
the_result (err _) = record {
  sources = [];
  open_bao = record { policy = []; agent_token_renewal = none };
  ssh = none;
  contract = record { mount_target = []; env = []; access_group = none; enforcement = [] };
  settings = chosen;
}

abbrev both : List Policy
both = first ∷ second ∷ []

abbrev result : Effective
result = the_result (compose no_stanzas both chosen)

composes : compose no_stanzas both chosen ≡ ok result
unfolding compose compose_sorted merge_all merge merge_env source_of section_hcl add_names assemble
    validate_effective validate_policy validate_binding_placeholders sort_by has add_name sort_names
    lookup insert ◌==t◌ defaults equal_group validate_sources new_policy value_names published_hcl
    validate_settings lt_text matches_env_name validate_binding_values
composes = refl

compose_env_example :
    (any (λ p. sets p.contract.mount_target p.contract.env (codes "APP") (codes "1")) both ≡ true)
    ↔ (lookup (codes "APP") result.contract.env ≡ some (codes "1"))
compose_env_example = compose_env no_stanzas both chosen result composes (codes "APP") (codes "1")

compose_identities_example :
    (has (codes "k2") (effective_transit_keys result)
      ≡ any (λ p. has (codes "k2") (transit_keys p)) both)
    × (has (codes "k2") (effective_ca_roles result) ≡ any (λ p. has (codes "k2") (ca_roles p)) both)
compose_identities_example = compose_identities no_stanzas both chosen result composes (codes "k2")

compose_restrictions_example :
    (has (codes "k1") (selected_names result.ssh (λ s. s.transit_keys)) ≡ (
      any (λ p. has (codes "k1") (transit_keys p)) both
      && any (λ p. has (codes "k1") (selected_names p.ssh (λ s. s.transit_keys))) both))
    × (has (codes "k1") (selected_names result.ssh (λ s. s.ca_roles)) ≡ (
        any (λ p. has (codes "k1") (ca_roles p)) both
        && any (λ p. has (codes "k1") (selected_names p.ssh (λ s. s.ca_roles))) both))
compose_restrictions_example =
    compose_restrictions no_stanzas both chosen result composes (codes "k1")

compose_renewal_example : effective_renewal no_stanzas result ≡ any (agent_renewal no_stanzas) both
compose_renewal_example = compose_renewal no_stanzas both chosen result composes

compose_sources_example :
    ((n : Text) → has n (names_of result) ≡ any (λ p. p.name ==t n) both)
    × Distinct (names_of result)
compose_sources_example = compose_sources no_stanzas both chosen result composes

identity_name-injective_example : (codes "app" ≡ codes "app") × SameGeneration 0 1
unfolding valid_name identity_name
identity_name-injective_example =
    identity_name-injective (codes "app") (codes "app") 0 1 refl refl refl

accepted_lifetimes_example :
    (ttl : ℕ) × (max : ℕ) × (duration_or chosen.token_ttl default_token_ttl ≡ some ttl)
    × (duration_or chosen.token_max_ttl default_token_max_ttl ≡ some max)
    × (chosen.token_ttl ≡ [] → parse_ttl default_token_ttl ≡ some ttl)
    × (chosen.token_ttl ≢ [] → parse_ttl chosen.token_ttl ≡ some ttl)
    × (chosen.token_max_ttl ≡ [] → parse_ttl default_token_max_ttl ≡ some max)
    × (chosen.token_max_ttl ≢ [] → parse_ttl chosen.token_max_ttl ≡ some max)
    × (60000000000 ≤ ttl)
    × (ttl ≤ max)
    × (max < 2 ^ 63)
unfolding validate_settings validate_binding_values ◌==t◌
accepted_lifetimes_example = accepted_lifetimes chosen refl
