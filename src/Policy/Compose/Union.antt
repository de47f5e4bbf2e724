-- ===== src/Policy/Compose/Union.antt =====
-- What Compose takes from the selected policies: nothing is lost and nothing is added.
use wyrwood.Base.{
  ◌≡◌, refl, sym, ap, subst, ◌∙◌, false, ◌||◌, List, [], ◌∷◌, ◌++◌, arith, any, All, map,
}
use mathlib.Core.List.{append_assoc, append-nil}
use wyrwood.Base.Text.{Text, ==t_iff}
use wyrwood.Base.Errors.{ok, >>=-eq-ok, ok-injective}
use wyrwood.Base.Sort.{has, add_name, has-add_name, Distinct}
use wyrwood.Policy.Types.{Policy, Settings, Source, transit_keys, ca_roles}
use wyrwood.Policy.Hcl.{Hcl}
use wyrwood.Policy.Lifecycle.{agent_renewal}
use wyrwood.Policy.Validate.{validate_policy}
use wyrwood.Policy.Compose.Loop.{
  Build, source_of, merge_env, add_names, selected_names, merge, merge_all,
}

pub has-add_names :
    (k : Text) (ns set : List Text) → has k (add_names ns set) ≡ (has k ns || has k set)
unfolding add_names has
has-add_names k [] set = refl
has-add_names k (n ∷ ns) set =
    ground (arith, has-add_names k ns (add_name n set), has-add_name k n set)

unseen_split :
    (n : Text) (seen : List Text) (ps : List Policy)
    → All (λ (p : Policy). has p.name (n ∷ seen) ≡ false) ps
    → (has n (map (λ (p : Policy). p.name) ps) ≡ false)
      × All (λ (p : Policy). has p.name seen ≡ false) ps
unfolding has
unseen_split n seen [] h = (refl, tt)
unseen_split n seen (p ∷ ps) h =
    let (other, before) = unseen_split n seen ps h.1 in
    (ground (arith, h.0, other, ==t_iff p.name n, ==t_iff n p.name), (ground (arith, h.0), before))

module _ (hcl : Hcl) where
  -- A round that succeeds.
  pub record Merged (target : Text) (p : Policy) (b c : Build) : Type 0 where
    pub valid : validate_policy hcl p ≡ ok tt
    pub fresh : has p.name b.seen ≡ false
    pub same_target : p.contract.mount_target ≡ target
    pub env : merge_env p.contract.mount_target p.contract.env b.env ≡ ok c.env
    pub sources : c.sources ≡ b.sources ++ source_of p ∷ []
    pub renew : c.renew ≡ (b.renew || agent_renewal hcl p)
    pub keys : c.keys ≡ add_names (transit_keys p) b.keys
    pub roles : c.roles ≡ add_names (ca_roles p) b.roles
    pub restricted_keys :
        c.restricted_keys ≡ add_names (selected_names p.ssh (λ s. s.transit_keys)) b.restricted_keys
    pub restricted_roles :
        c.restricted_roles ≡ add_names (selected_names p.ssh (λ s. s.ca_roles)) b.restricted_roles
    pub seen : c.seen ≡ p.name ∷ b.seen

  pub merge-Merged :
      (target : Text) (settings : Settings) (p : Policy) (b c : Build)
      → merge hcl target settings p b ≡ ok c
      → Merged target p b c
  unfolding merge
  merge-Merged target settings p b c h = ground (arith, ==t_iff p.contract.mount_target target)

  module _ (target : Text) (settings : Settings) where
    pub merge_all-cons :
        (p : Policy) (ps : List Policy) (b c : Build)
        → merge_all hcl target settings (p ∷ ps) b ≡ ok c
        → (d : Build) × (merge hcl target settings p b ≡ ok d)
          × (merge_all hcl target settings ps d ≡ ok c)
    unfolding merge_all
    merge_all-cons p ps b c h = >>=-eq-ok (merge hcl target settings p b) _ h

    -- A set that each round unites with the names of its policy.
    pub set_union :
        (f : Policy → List Text) (set : Build → List Text)
        → ((p : Policy) (b c : Build) → Merged target p b c → set c ≡ add_names (f p) (set b))
        → (k : Text) (ps : List Policy) (b c : Build) → merge_all hcl target settings ps b ≡ ok c
        → has k (set c) ≡ (any (λ p. has k (f p)) ps || has k (set b))
    unfolding merge_all
    set_union f set step k [] b c h = ap (λ (s : Build). has k (set s)) (sym (ok-injective h))
    set_union f set step k (p ∷ ps) b c h =
        let (d, one, rest) = merge_all-cons p ps b c h in
        ground (
          arith,
          set_union f set step k ps d c rest,
          step p b d (merge-Merged target settings p b d one),
          has-add_names k (f p) (set b),
        )

    pub merge_all-sources :
        (ps : List Policy) (b c : Build)
        → merge_all hcl target settings ps b ≡ ok c
        → c.sources ≡ b.sources ++ map source_of ps
    unfolding merge_all
    merge_all-sources [] b c h =
        sym (ap (λ (s : Build). s.sources) (ok-injective h)) ∙ sym (append-nil b.sources)
    merge_all-sources (p ∷ ps) b c h =
        let (d, one, rest) = merge_all-cons p ps b c h in
        merge_all-sources ps d c rest
        ∙ ap (λ (l : List Source). l ++ map source_of ps)
            (merge-Merged target settings p b d one).sources
        ∙ append_assoc b.sources (source_of p ∷ []) (map source_of ps)

    pub merge_all-renew :
        (ps : List Policy) (b c : Build)
        → merge_all hcl target settings ps b ≡ ok c
        → c.renew ≡ (b.renew || any (agent_renewal hcl) ps)
    unfolding merge_all
    merge_all-renew [] b c h = ground arith
    merge_all-renew (p ∷ ps) b c h =
        let (d, one, rest) = merge_all-cons p ps b c h in
        ground (arith, merge_all-renew ps d c rest, (merge-Merged target settings p b d one).renew)

    pub merge_all-targets :
        (ps : List Policy) (b c : Build)
        → merge_all hcl target settings ps b ≡ ok c
        → All (λ p. p.contract.mount_target ≡ target) ps
    unfolding merge_all
    merge_all-targets [] b c h = tt
    merge_all-targets (p ∷ ps) b c h =
        let (d, one, rest) = merge_all-cons p ps b c h in
        ((merge-Merged target settings p b d one).same_target, merge_all-targets ps d c rest)

    pub merge_all-Distinct :
        (ps : List Policy) (b c : Build)
        → merge_all hcl target settings ps b ≡ ok c
        → Distinct (map (λ p. p.name) ps) × All (λ p. has p.name b.seen ≡ false) ps
    unfolding merge_all
    merge_all-Distinct [] b c h = (tt, tt)
    merge_all-Distinct (p ∷ ps) b c h =
        let (d, one, rest) = merge_all-cons p ps b c h in
        let m = merge-Merged target settings p b d one in
        let (distinct, unseen) = merge_all-Distinct ps d c rest in
        let (other, before) = unseen_split p.name b.seen ps (
          subst (λ (l : List Text). All (λ (q : Policy). has q.name l ≡ false) ps) m.seen unseen) in
        ((other, distinct), (m.fresh, before))
