-- ===== src/Policy/Compose.antt =====
-- internal/policy/composition.go: validation of an effective assignment, and its composition
-- from the policies that a binding selects.
pub mod Loop
pub mod Union
pub mod Env
pub mod Correct
use wyrwood.Base.{
  ℕ, ◌≡◌, Bool, true, false, not, ◌&&◌, ◌||◌, Option, none, some, List, [], ◌∷◌, ◌++◌, length, leb,
  keep, map, ◌==◌,
}
use wyrwood.Base.Text.{Text, codes, ◌==t◌}
use wyrwood.Base.Assoc.{Assoc}
use wyrwood.Base.Errors.{Result, ok, err, ◌>>=◌, ◌>>◌, require}
use wyrwood.Base.Sort.{has, sort_by, sort_names}
use wyrwood.Policy.Types.{
  Policy, Settings, Contract, Source, Effective, Ssh, Problem, located, unlocated, selection, ssh,
  new_policy, transit_keys, ca_roles,
}
use wyrwood.Policy.Patterns.{source_generation, identity_name}
use wyrwood.Policy.Hcl.{Hcl}
use wyrwood.Policy.Lifecycle.{agent_renewal, published_hcl}
use wyrwood.Policy.Validate.{
  Check, validate_policy, validate_contract, validate_settings, defaults, maximum_identity_names,
}
use Loop.{Build, start, merge_all, source_of}

-- Names
abbrev pub names_of : Effective → List Text
names_of e = map (λ (s : Source). s.name) e.sources

-- OpenBaoPolicies
unfoldable pub open_bao_policies : Effective → List Text
unfolding identity_name
open_bao_policies e = map (λ (s : Source). identity_name s.name s.generation) e.sources

-- equalGroup
unfoldable pub equal_group : Option ℕ → Option ℕ → Bool
equal_group none none = true
equal_group (some a) (some b) = a == b
equal_group _ _ = false

module _ (hcl : Hcl) where
  -- The loop of Effective.Validate over the sources.
  unfoldable pub validate_sources : List Source → List Text → Check
  unfolding validate_policy new_policy has
  validate_sources [] seen = ok tt
  validate_sources (s ∷ ss) seen =
      require (not (has s.name seen)) unlocated
      >> require (not (s.generation == 1)) unlocated
      >> validate_policy hcl (record (new_policy s.name s.hcl) { revision = s.revision })
      >> validate_sources ss (s.name ∷ seen)

  abbrev non_empty : List Source → Bool
  non_empty [] = false
  non_empty (_ ∷ _) = true

  -- Effective.Validate
  unfoldable pub validate_effective : Effective → Check
  validate_effective e =
      require (non_empty e.sources) unlocated
      >> validate_settings e.settings
      >> validate_contract e.contract
      >> require
          ((e.contract.enforcement ==t (defaults e.settings).enforcement)
            && equal_group e.contract.access_group e.settings.access_group)
          unlocated
      >> validate_policy hcl (record (new_policy (codes "effective") []) { ssh = e.ssh })
      >> validate_sources e.sources []

  -- Runtime
  unfoldable pub runtime : Policy → Settings → Effective
  unfolding published_hcl source_of defaults
  runtime p given =
      let settings = defaults given in
      record {
        sources = source_of p ∷ [];
        open_bao = record {
          policy = published_hcl hcl p;
          agent_token_renewal = some (agent_renewal hcl p);
        };
        ssh = p.ssh;
        contract = record {
          mount_target = p.contract.mount_target;
          env = p.contract.env;
          access_group = settings.access_group;
          enforcement = settings.enforcement;
        };
        settings = settings;
      }

  -- What Compose makes of the loop's result.
  unfoldable pub assemble : Text → Settings → Build → Effective
  assemble target given b =
      let settings = defaults given in
      record {
        sources = b.sources;
        open_bao = record { policy = b.hcl; agent_token_renewal = some b.renew };
        ssh = some (record {
          transit_keys = sort_names b.keys;
          ca_roles = sort_names b.roles;
          not_forwardable = some (record {
            transit_keys = sort_names (keep (λ k. has k b.keys) b.restricted_keys);
            ca_roles = sort_names (keep (λ k. has k b.roles) b.restricted_roles);
          });
        });
        contract = record {
          mount_target = target;
          env = b.env;
          access_group = settings.access_group;
          enforcement = settings.enforcement;
        };
        settings = settings;
      }

  -- Compose over the policies in the order of their names.
  unfoldable pub compose_sorted : List Policy → Settings → Result Problem Effective
  compose_sorted [] settings = err (located selection)
  compose_sorted (p ∷ ps) settings = do
    let target = p.contract.mount_target
    b ← merge_all hcl target settings (p ∷ ps) start
    require
        (leb (length b.keys) maximum_identity_names && leb (length b.roles) maximum_identity_names)
        (located ssh)
    validate_effective (assemble target settings b)
    ok (assemble target settings b)

  -- Compose
  unfoldable pub compose : List Policy → Settings → Result Problem Effective
  compose policies settings = compose_sorted (sort_by (λ p. p.name) policies) settings
