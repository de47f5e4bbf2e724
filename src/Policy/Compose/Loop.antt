-- ===== src/Policy/Compose/Loop.antt =====
-- internal/policy/composition.go: the loop of Compose over the selected policies.
use wyrwood.Base.{
  ℕ, zero, suc, ◌-◌, Bool, true, false, not, ◌||◌, Option, none, some, List, [], ◌∷◌, ◌++◌, length,
  all,
}
use wyrwood.Base.Text.{Text, codes, ◌==t◌, strip_prefix}
use wyrwood.Base.Assoc.{Assoc, lookup, insert}
use wyrwood.Base.Errors.{Result, ok, ◌>>=◌, ◌>>◌, require}
use wyrwood.Base.Sort.{has, add_name}
use wyrwood.Policy.Types.{
  Policy, Settings, Source, Ssh, SshIdentityNames, Problem, located, contract, selection,
  transit_keys, ca_roles, mount_target_token,
}
use wyrwood.Policy.Patterns.{source_generation, itoa}
use wyrwood.Policy.Hcl.{Hcl}
use wyrwood.Policy.BindingValues.{value_names, expand_binding_values}
use wyrwood.Policy.Lifecycle.{agent_renewal, published_hcl}
use wyrwood.Policy.Validate.{validate_policy}

-- strings.ReplaceAll of a non-empty text; `skip` bytes belong to the last match.
unfoldable pub replace_from : Text → Text → ℕ → Text → Text
unfolding strip_prefix
replace_from old new skip [] = []
replace_from old new (suc skip) (c ∷ s) = replace_from old new skip s
replace_from old new zero (c ∷ s) = elim (strip_prefix old (c ∷ s)) [
  | none ↦ c ∷ replace_from old new zero s
  | some _ ↦ new ++ replace_from old new (length old - 1) s
]

unfoldable pub replace_all : Text → Text → Text → Text
unfolding replace_from
replace_all s old new = replace_from old new zero s

-- The variables of the loop.
pub record Build : Type 0 where
  pub env : Assoc Text
  pub sources : List Source
  pub hcl : Text
  pub renew : Bool
  pub keys : List Text
  pub roles : List Text
  pub restricted_keys : List Text
  pub restricted_roles : List Text
  pub seen : List Text

abbrev pub start : Build
start = record {
  env = [];
  sources = [];
  hcl = [];
  renew = false;
  keys = [];
  roles = [];
  restricted_keys = [];
  restricted_roles = [];
  seen = [];
}

-- The Source of a policy, as Runtime and Compose write it.
unfoldable pub source_of : Policy → Source
unfolding source_generation
source_of p = record {
  name = p.name;
  revision = p.revision;
  hcl = p.open_bao.policy;
  generation = source_generation p;
}

unfoldable pub expand_target : Text → Text → Text
unfolding replace_all
expand_target target value = replace_all value mount_target_token target

abbrev agrees : Option Text → Text → Bool
agrees none value = true
agrees (some old) value = old ==t value

-- The loop over one policy's environment: a conflict is an error.
unfoldable pub merge_env : Text → Assoc Text → Assoc Text → Result Problem (Assoc Text)
unfolding expand_target lookup insert
merge_env target [] env = ok env
merge_env target ((n, v) ∷ more) env =
    require (agrees (lookup n env) (expand_target target v)) (located contract)
    >> merge_env target more (insert n (expand_target target v) env)

abbrev pub has_value : Assoc Text → Text → Bool
has_value values n = elim (lookup n values) [ none ↦ false | some _ ↦ true ]

unfoldable pub add_names : List Text → List Text → List Text
unfolding add_name
add_names [] set = set
add_names (n ∷ ns) set = add_names ns (add_name n set)

abbrev pub selected_names : Option Ssh → (SshIdentityNames → List Text) → List Text
selected_names none f = []
selected_names (some s) f = elim s.not_forwardable [ none ↦ [] | some names ↦ f names ]

module _ (hcl : Hcl) where
  -- The header line and the published HCL of one policy.
  unfoldable pub section_hcl : Policy → Settings → Text
  unfolding itoa published_hcl expand_binding_values
  section_hcl p settings =
      codes "# Policy "
      ++ (p.name
          ++ (codes " (revision "
              ++ (itoa p.revision
                  ++ (codes ")\n"
                      ++ (expand_binding_values (published_hcl hcl p) settings.values
                          ++ codes "\n")))))

  -- One round of the loop.
  unfoldable pub merge : Text → Settings → Policy → Build → Result Problem Build
  merge target settings p b = do
    validate_policy hcl p
    require (not (has p.name b.seen)) (located selection)
    require (p.contract.mount_target ==t target) (located contract)
    env ← merge_env p.contract.mount_target p.contract.env b.env
    require (all (has_value settings.values) (value_names hcl p)) (located selection)
    ok (record {
      env = env;
      sources = b.sources ++ source_of p ∷ [];
      hcl = b.hcl ++ section_hcl p settings;
      renew = b.renew || agent_renewal hcl p;
      keys = add_names (transit_keys p) b.keys;
      roles = add_names (ca_roles p) b.roles;
      restricted_keys = add_names (selected_names p.ssh (λ s. s.transit_keys)) b.restricted_keys;
      restricted_roles = add_names (selected_names p.ssh (λ s. s.ca_roles)) b.restricted_roles;
      seen = p.name ∷ b.seen;
    })

  unfoldable pub merge_all : Text → Settings → List Policy → Build → Result Problem Build
  merge_all target settings [] b = ok b
  merge_all target settings (p ∷ ps) b = merge target settings p b >>= merge_all target settings ps
