-- ===== src/Policy/Compose/Env.antt =====
-- The environment that Compose builds: a conflict between two policies never chooses a winner.
use wyrwood.Base.{
  ◌≡◌, refl, sym, subst, ◌⊎◌, inl, Bool, true, ◌&&◌, some, List, [], ◌∷◌, arith, any, All,
}
use wyrwood.Base.Text.{Text, ◌==t◌, ==t_iff, ==t_refl}
use wyrwood.Base.Assoc.{Assoc, lookup, insert, lookup-insert}
use wyrwood.Base.Errors.{ok, ok-injective}
use wyrwood.Policy.Types.{Policy, Settings}
use wyrwood.Policy.Hcl.{Hcl}
use wyrwood.Policy.Compose.Loop.{Build, expand_target, merge_env, merge_all}
use wyrwood.Policy.Compose.Union.{merge-Merged, merge_all-cons}

-- Whether an environment sets a name to a value, the token replaced.
abbrev pub sets : Text → Assoc Text → Text → Text → Bool
sets target entries n w = any (λ e. (e.0 ==t n) && (expand_target target e.1 ==t w)) entries

module _ (target : Text) where
  merge_env-keeps :
      (entries env out : Assoc Text) (n v : Text)
      → merge_env target entries env ≡ ok out
      → lookup n env ≡ some v
      → lookup n out ≡ some v
  unfolding merge_env
  merge_env-keeps [] env out n v h e = ground arith
  merge_env-keeps ((m, x) ∷ more) env out n v h e = ground (
    arith,
    merge_env-keeps more (insert m (expand_target target x) env) out n v,
    lookup-insert m n (expand_target target x) env,
    ==t_iff m n,
    ==t_iff v (expand_target target x),
  )

  merge_env-cons :
      (m x : Text) (more env out : Assoc Text)
      → merge_env target ((m, x) ∷ more) env ≡ ok out
      → merge_env target more (insert m (expand_target target x) env) ≡ ok out
  unfolding merge_env
  merge_env-cons m x more env out h = ground arith

  merge_env-takes :
      (entries env out : Assoc Text)
      → merge_env target entries env ≡ ok out
      → All (λ e. lookup e.0 out ≡ some (expand_target target e.1)) entries
  unfolding merge_env
  merge_env-takes [] env out h = tt
  merge_env-takes ((m, x) ∷ more) env out h =
      let rest = merge_env-cons m x more env out h in
      (
        merge_env-keeps more _ out m (expand_target target x) rest
            (rw (lookup-insert, ==t_refl m) refl),
        merge_env-takes more _ out rest,
      )

  merge_env-origin :
      (entries env out : Assoc Text) (n w : Text)
      → merge_env target entries env ≡ ok out
      → lookup n out ≡ some w
      → (lookup n env ≡ some w) ⊎ (sets target entries n w ≡ true)
  unfolding merge_env
  merge_env-origin [] env out n w h e = inl (ground arith)
  merge_env-origin ((m, x) ∷ more) env out n w h e = ground (
    arith,
    merge_env-origin more (insert m (expand_target target x) env) out n w,
    lookup-insert m n (expand_target target x) env,
    ==t_iff m n,
    ==t_iff (expand_target target x) w,
  )

module _ (hcl : Hcl) (target : Text) (settings : Settings) where
  merge_all-keeps :
      (ps : List Policy) (b c : Build) (n v : Text)
      → merge_all hcl target settings ps b ≡ ok c
      → lookup n b.env ≡ some v
      → lookup n c.env ≡ some v
  unfolding merge_all
  merge_all-keeps [] b c n v h e = rw (sym (ok-injective h)) e
  merge_all-keeps (p ∷ ps) b c n v h e =
      let (d, one, rest) = merge_all-cons hcl target settings p ps b c h in
      merge_all-keeps ps d c n v rest (
        merge_env-keeps p.contract.mount_target p.contract.env b.env d.env n v
          (merge-Merged hcl target settings p b d one).env e)

  -- Every variable of every policy has its value in the result.
  pub merge_all-takes :
      (ps : List Policy) (b c : Build)
      → merge_all hcl target settings ps b ≡ ok c
      → All (λ p. All (λ e. lookup e.0 c.env ≡ some (expand_target target e.1)) p.contract.env) ps
  unfolding merge_all
  merge_all-takes [] b c h = tt
  merge_all-takes (p ∷ ps) b c h =
      let (d, one, rest) = merge_all-cons hcl target settings p ps b c h in
      let m = merge-Merged hcl target settings p b d one in
      (
        kept ps d c rest p.contract.env (
            subst (λ t. All (λ e. lookup e.0 d.env ≡ some (expand_target t e.1)) p.contract.env)
              m.same_target
              (merge_env-takes p.contract.mount_target p.contract.env b.env d.env m.env)),
        merge_all-takes ps d c rest,
      )
    where
      kept :
          (qs : List Policy) (d e : Build)
          → merge_all hcl target settings qs d ≡ ok e
          → (entries : Assoc Text)
          → All (λ x. lookup x.0 d.env ≡ some (expand_target target x.1)) entries
          → All (λ x. lookup x.0 e.env ≡ some (expand_target target x.1)) entries
      kept qs d e h [] a = tt
      kept qs d e h ((n, v) ∷ more) a =
          (merge_all-keeps qs d e n (expand_target target v) h a.0, kept qs d e h more a.1)

  -- Every variable of the result comes from a policy.
  pub merge_all-origin :
      (ps : List Policy) (b c : Build) (n w : Text)
      → merge_all hcl target settings ps b ≡ ok c
      → lookup n c.env ≡ some w
      → (lookup n b.env ≡ some w)
        ⊎ (any (λ p. sets p.contract.mount_target p.contract.env n w) ps ≡ true)
  unfolding merge_all
  merge_all-origin [] b c n w h e = inl (rw (ok-injective h) e)
  merge_all-origin (p ∷ ps) b c n w h e =
      let (d, one, rest) = merge_all-cons hcl target settings p ps b c h in
      let m = merge-Merged hcl target settings p b d one in
      ground (
        arith,
        merge_all-origin ps d c n w rest e,
        merge_env-origin p.contract.mount_target p.contract.env b.env d.env n w m.env,
      )
