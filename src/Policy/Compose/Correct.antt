-- ===== src/Policy/Compose/Correct.antt =====
-- Compose against the set of selected policies, whatever their order.
use wyrwood.Base.{
  ◌≡◌, ◌↔◌, refl, sym, ap, subst, ◌∙◌, inl, inr, Bool, true, ◌&&◌, ◌||◌, some, List, [], ◌∷◌, arith,
  any, All, map, Bool-cases,
}
use mathlib.Core.Path.{ap₂}
use mathlib.Core.Bool.{or-false}
use wyrwood.Base.Text.{Text, ◌==t◌, ==t_iff}
use wyrwood.Base.Assoc.{Assoc, lookup}
use wyrwood.Base.Errors.{ok, >>=-eq-ok}
use wyrwood.Base.Sort.{has, sort_by, any-sort_by, has-sort_names, has-keep, Distinct}
use wyrwood.Policy.Types.{
  Policy, Settings, Source, Effective, transit_keys, ca_roles, effective_transit_keys,
  effective_ca_roles,
}
use wyrwood.Policy.Hcl.{Hcl}
use wyrwood.Policy.Lifecycle.{agent_renewal, effective_renewal}
use wyrwood.Policy.Compose.{names_of, assemble, compose_sorted, compose}
use wyrwood.Policy.Compose.Loop.{
  Build, start, source_of, expand_target, selected_names, add_names, merge_all,
}
use wyrwood.Policy.Compose.Union.{
  Merged, set_union, merge_all-sources, merge_all-renew, merge_all-targets, merge_all-Distinct,
}
use wyrwood.Policy.Compose.Env.{sets, merge_all-takes, merge_all-origin}

map-source_of :
    (ps : List Policy)
    → map (λ (s : Source). s.name) (map source_of ps) ≡ map (λ (p : Policy). p.name) ps
unfolding source_of
map-source_of [] = refl
map-source_of (p ∷ ps) = ap (λ (l : List Text). p.name ∷ l) (map-source_of ps)

has-map_name :
    (n : Text) (ps : List Policy)
    → has n (map (λ (p : Policy). p.name) ps) ≡ any (λ (p : Policy). p.name ==t n) ps
unfolding has
has-map_name n [] = refl
has-map_name n (p ∷ ps) = ap (λ (b : Bool). (p.name ==t n) || b) (has-map_name n ps)

-- A variable that one environment sets is in a result that takes all of its variables.
taken_entries :
    (target : Text) (env : Assoc Text) (n w : Text) (entries : Assoc Text)
    → All (λ x. lookup x.0 env ≡ some (expand_target target x.1)) entries
    → sets target entries n w ≡ true
    → lookup n env ≡ some w
taken_entries target env n w [] a h = cc
taken_entries target env n w ((m, x) ∷ more) a h = ground (
  arith,
  a.0,
  taken_entries target env n w more a.1,
  ==t_iff m n,
  ==t_iff (expand_target target x) w,
)

taken :
    (target : Text) (env : Assoc Text) (n w : Text) (ps : List Policy)
    → All (λ p. All (λ x. lookup x.0 env ≡ some (expand_target target x.1)) p.contract.env) ps
    → All (λ p. p.contract.mount_target ≡ target) ps
    → any (λ p. sets p.contract.mount_target p.contract.env n w) ps ≡ true
    → lookup n env ≡ some w
taken target env n w [] a t h = cc
taken target env n w (p ∷ ps) a t h =
    elim (Bool-cases (sets p.contract.mount_target p.contract.env n w)) [
      | inl here ↦
          taken_entries target env n w p.contract.env a.0
            (subst (λ x. sets x p.contract.env n w ≡ true) t.0 here)
      | inr there ↦ taken target env n w ps a.1 t.1 (rw there at h)
    ]

module _ (hcl : Hcl) where
  -- A composition that succeeds: the loop's result, over a common mount target.
  record Composed (ps : List Policy) (settings : Settings) (e : Effective) : Type 0 where
    pub target : Text
    pub build : Build
    pub loop : merge_all hcl target settings ps start ≡ ok build
    pub result : e ≡ assemble hcl target settings build

  compose_sorted-Composed :
      (ps : List Policy) (settings : Settings) (e : Effective)
      → compose_sorted hcl ps settings ≡ ok e
      → Composed ps settings e
  unfolding compose_sorted
  compose_sorted-Composed [] settings e h = cc
  compose_sorted-Composed (p ∷ ps) settings e h =
      let (b, loop, rest) =
        >>=-eq-ok (merge_all hcl p.contract.mount_target settings (p ∷ ps) start) _ h in
      record { target = p.contract.mount_target; build = b; loop = loop; result = ground arith }

  module _ (ps : List Policy) (settings : Settings) (e : Effective)
      (h : compose hcl ps settings ≡ ok e) where
    sorted : List Policy
    sorted = sort_by (λ p. p.name) ps

    composed : Composed sorted settings e
    unfolding compose sorted
    composed = compose_sorted-Composed (sort_by (λ p. p.name) ps) settings e h

    any-sorted : (f : Policy → Bool) → any f sorted ≡ any f ps
    unfolding sorted
    any-sorted f = any-sort_by (λ p. p.name) f ps

    -- One of the four sets of names that the loop collects.
    collected :
        (f : Policy → List Text) (set : Build → List Text)
        → ((target : Text) (p : Policy) (b c : Build)
            → Merged hcl target p b c
            → set c ≡ add_names (f p) (set b))
        → set start ≡ []
        → (k : Text) → has k (set composed.build) ≡ any (λ p. has k (f p)) ps
    unfolding has
    collected f set step empty k =
        set_union hcl composed.target settings f set (step composed.target) k sorted start
          composed.build composed.loop
        ∙ ap₂ (λ (x y : Bool). x || y) (any-sorted (λ p. has k (f p))) (ap (has k) empty)
        ∙ or-false (any (λ p. has k (f p)) ps)

    build_keys : (k : Text) → has k composed.build.keys ≡ any (λ p. has k (transit_keys p)) ps
    build_keys = collected transit_keys (λ b. b.keys) (λ t p b c m. m.keys) refl

    build_roles : (k : Text) → has k composed.build.roles ≡ any (λ p. has k (ca_roles p)) ps
    build_roles = collected ca_roles (λ b. b.roles) (λ t p b c m. m.roles) refl

    build_restricted_keys :
        (k : Text)
        → has k composed.build.restricted_keys
          ≡ any (λ p. has k (selected_names p.ssh (λ s. s.transit_keys))) ps
    build_restricted_keys =
        collected (λ p. selected_names p.ssh (λ s. s.transit_keys)) (λ b. b.restricted_keys)
          (λ t p b c m. m.restricted_keys) refl

    build_restricted_roles :
        (k : Text)
        → has k composed.build.restricted_roles
          ≡ any (λ p. has k (selected_names p.ssh (λ s. s.ca_roles))) ps
    build_restricted_roles =
        collected (λ p. selected_names p.ssh (λ s. s.ca_roles)) (λ b. b.restricted_roles)
          (λ t p b c m. m.restricted_roles) refl

    -- A composed assignment offers exactly the Transit keys and the SSH roles that some selected
    -- policy offers.
    pub compose_identities :
        (k : Text)
        → (has k (effective_transit_keys e) ≡ any (λ p. has k (transit_keys p)) ps)
          × (has k (effective_ca_roles e) ≡ any (λ p. has k (ca_roles p)) ps)
    unfolding assemble
    compose_identities k = (
      ap (λ (x : Effective). has k (effective_transit_keys x)) composed.result
          ∙ has-sort_names k composed.build.keys
          ∙ build_keys k,
      ap (λ (x : Effective). has k (effective_ca_roles x)) composed.result
          ∙ has-sort_names k composed.build.roles
          ∙ build_roles k,
    )

    -- An identity is kept from forwarding exactly where some selected policy offers it and some
    -- selected policy, the same or another, restricts it.
    pub compose_restrictions :
        (k : Text)
        → (has k (selected_names e.ssh (λ s. s.transit_keys)) ≡ (
            any (λ p. has k (transit_keys p)) ps
            && any (λ p. has k (selected_names p.ssh (λ s. s.transit_keys))) ps))
          × (has k (selected_names e.ssh (λ s. s.ca_roles)) ≡ (
              any (λ p. has k (ca_roles p)) ps
              && any (λ p. has k (selected_names p.ssh (λ s. s.ca_roles))) ps))
    unfolding assemble
    compose_restrictions k = (
      ap (λ (x : Effective). has k (selected_names x.ssh (λ s. s.transit_keys))) composed.result
          ∙ has-sort_names k _
          ∙ has-keep k (λ j. has j composed.build.keys) composed.build.restricted_keys
          ∙ ap₂ (λ (x y : Bool). x && y) (build_keys k) (build_restricted_keys k),
      ap (λ (x : Effective). has k (selected_names x.ssh (λ s. s.ca_roles))) composed.result
          ∙ has-sort_names k _
          ∙ has-keep k (λ j. has j composed.build.roles) composed.build.restricted_roles
          ∙ ap₂ (λ (x y : Bool). x && y) (build_roles k) (build_restricted_roles k),
    )

    -- The agent renews the composed token exactly where some selected policy asks for it.
    pub compose_renewal : effective_renewal hcl e ≡ any (agent_renewal hcl) ps
    unfolding assemble effective_renewal
    compose_renewal =
        ap (effective_renewal hcl) composed.result
        ∙ merge_all-renew hcl composed.target settings sorted start composed.build composed.loop
        ∙ any-sorted (agent_renewal hcl)

    names_sorted : names_of e ≡ map (λ (p : Policy). p.name) sorted
    unfolding assemble
    names_sorted =
        ap names_of composed.result
        ∙ ap (map (λ (s : Source). s.name)) (
            merge_all-sources hcl composed.target settings sorted start composed.build
              composed.loop)
        ∙ map-source_of sorted

    -- The assignment names each selected policy, and no policy twice.
    pub compose_sources :
        ((n : Text) → has n (names_of e) ≡ any (λ p. p.name ==t n) ps) × Distinct (names_of e)
    compose_sources = (
      λ n. rw names_sorted (has-map_name n sorted ∙ any-sorted (λ p. p.name ==t n)),
      rw names_sorted
          (merge_all-Distinct hcl composed.target settings sorted start composed.build
            composed.loop).0,
    )

    -- The environment sets a name to a value exactly where some selected policy does, with the
    -- mount target written out: two policies that disagree do not compose.
    pub compose_env :
        (n w : Text)
        → (any (λ p. sets p.contract.mount_target p.contract.env n w) ps ≡ true)
          ↔ (lookup n e.contract.env ≡ some w)
    unfolding assemble lookup
    compose_env n w = (
      λ found.
          ap (λ (x : Effective). lookup n x.contract.env) composed.result
          ∙ taken composed.target composed.build.env n w sorted
              (merge_all-takes hcl composed.target settings sorted start composed.build
                composed.loop)
              (merge_all-targets hcl composed.target settings sorted start composed.build
                composed.loop)
              (any-sorted (λ p. sets p.contract.mount_target p.contract.env n w) ∙ found),
      λ set.
          elim (merge_all-origin hcl composed.target settings sorted start composed.build n w
            composed.loop
            (sym (ap (λ (x : Effective). lookup n x.contract.env) composed.result) ∙ set)) [
              | inl early ↦ cc
              | inr found ↦
                  sym (any-sorted (λ p. sets p.contract.mount_target p.contract.env n w)) ∙ found
            ],
    )
