-- ===== src/Controller/Published/Synced.antt =====
-- What a write and a deletion of one policy in OpenBao leave of the published policies.
use wyrwood.Base.{
  ◌≡◌, inl, inr, refl, sym, ap, ◌∙◌, subst, true, false, Option, none, some, arith, Bool-cases,
}
use wyrwood.Base.Text.{Text, ◌==t◌, ==t_iff}
use wyrwood.Base.Assoc.{lookup}
use wyrwood.Base.Errors.{Result, ok, err}
use wyrwood.Policy.Types.{Policy}
use wyrwood.Policy.Patterns.{valid_name, open_bao_policy_name}
use wyrwood.Policy.Identity.{identity_name-injective}
use wyrwood.Policy.Lifecycle.{published_hcl}
use wyrwood.Store.Tables.{PolicyRow}
use wyrwood.Controller.Errors.{Category}
use wyrwood.Controller.World.{Outside, World, bao_call}
use wyrwood.Controller.Publishing.{publish, restore_policy, after_restore}
use wyrwood.Controller.Published.{Documented, document_of, Shown, Synced, SyncedBut, Quiet, Named}

-- Policies with other valid names have other names in OpenBao.
pub names_apart :
    (p q : Policy)
    → valid_name p.name ≡ true
    → valid_name q.name ≡ true
    → (p.name ==t q.name) ≡ false
    → (open_bao_policy_name p ==t open_bao_policy_name q) ≡ false
unfolding open_bao_policy_name
names_apart p q vp vq apart =
    elim (Bool-cases (open_bao_policy_name p ==t open_bao_policy_name q)) [
      | inr other ↦ other
      | inl same ↦ ground (
        arith,
        identity_name-injective p.name q.name p.generation q.generation vp vq
            ((==t_iff _ _).0 same),
        ==t_iff p.name q.name,
      )
    ]

module _ (out : Outside) (law : Documented out.manager) where
  pub Quiet-Synced : (w v : World out) → Quiet out law w v → Synced out law w → Synced out law v
  unfolding Quiet
  Quiet-Synced w v (rows, gens, flag, shown, faults) (inl pending) = inl (flag ∙ pending)
  Quiet-Synced w v (rows, gens, flag, shown, faults) (inr all) =
      inr (λ k r found. shown _ ∙ all k r (ap (lookup k) (sym rows) ∙ found))

  -- A write that OpenBao refuses changes nothing.
  pub refused-Synced :
      (p : Policy) (w : World out)
      → (publish out p w).0 ≡ err Category.invalid
      → Synced out law w
      → Synced out law (publish out p w).1
  unfolding publish
  refused-Synced p w refused (inl pending) = inl pending
  refused-Synced p w refused (inr all) = inr (λ k r found.
      law.write-invalid (open_bao_policy_name p) (published_hcl out.codec.hcl p) _ w.bao refused
      ∙ all k r found)

  pub Synced-SyncedBut : (name : Text) (w : World out) → Synced out law w → SyncedBut out law name w
  Synced-SyncedBut name w (inl pending) = inl pending
  Synced-SyncedBut name w (inr all) = inr (λ k r other. all k r)

  -- Without a row of the name, nothing is left to publish.
  pub SyncedBut-none :
      (name : Text) (w : World out)
      → lookup name w.db.policies ≡ none
      → SyncedBut out law name w
      → Synced out law w
  SyncedBut-none name w missing (inl pending) = inl pending
  SyncedBut-none name w missing (inr rest) = inr (λ k r found. elim (Bool-cases (name ==t k)) [
    | inl same ↦ ground (arith, ==t_iff name k)
    | inr other ↦ rest k r other found
  ])

  -- With the row of the name published, all are.
  pub SyncedBut-some :
      (name : Text) (w : World out) (r : PolicyRow)
      → lookup name w.db.policies ≡ some r
      → Shown out law r w
      → SyncedBut out law name w
      → Synced out law w
  SyncedBut-some name w r found shown (inl pending) = inl pending
  SyncedBut-some name w r found shown (inr rest) = inr (λ k q there.
      elim (Bool-cases (name ==t k)) [
        | inl same ↦ ground (arith, ==t_iff name k)
        | inr other ↦ rest k q other there
      ])

  pub SyncedBut-rows :
      (name : Text) (w v : World out)
      → ((k : Text) (r : PolicyRow)
          → (name ==t k) ≡ false
          → lookup k v.db.policies ≡ some r
          → lookup k w.db.policies ≡ some r)
      → v.sync_pending ≡ w.sync_pending
      → v.bao ≡ w.bao
      → SyncedBut out law name w
      → SyncedBut out law name v
  SyncedBut-rows name w v rows flag bao (inl pending) = inl (flag ∙ pending)
  SyncedBut-rows name w v rows flag bao (inr rest) = inr (λ k r other found.
      ap (λ s. law.view s (open_bao_policy_name (document_of r))) bao
      ∙ rest k r other (rows k r other found))

  -- A write or a deletion under the name of a policy leaves the others as they are.
  touched-SyncedBut :
      (p : Policy) (w v : World out)
      → Named w.db
      → valid_name p.name ≡ true
      → v.db.policies ≡ w.db.policies
      → v.sync_pending ≡ w.sync_pending
      → ((k : Text) → (open_bao_policy_name p ==t k) ≡ false → law.view v.bao k ≡ law.view w.bao k)
      → SyncedBut out law p.name w
      → SyncedBut out law p.name v
  touched-SyncedBut p w v named vp rows flag kept (inl pending) = inl (flag ∙ pending)
  touched-SyncedBut p w v named vp rows flag kept (inr rest) = inr (λ k r other found.
      let there : lookup k w.db.policies ≡ some r = ap (lookup k) (sym rows) ∙ found in
      let (same, vk) = named k r there in
      kept _ (
        names_apart p (document_of r) vp (subst (λ n. valid_name n ≡ true) (sym same) vk)
          (subst (λ n. (p.name ==t n) ≡ false) (sym same) other))
      ∙ rest k r other there)

  pub publish-SyncedBut :
      (p : Policy) (w : World out)
      → Named w.db
      → valid_name p.name ≡ true
      → SyncedBut out law p.name w
      → SyncedBut out law p.name (publish out p w).1
  unfolding publish
  publish-SyncedBut p w named vp h =
      touched-SyncedBut p w (publish out p w).1 named vp refl refl
        (λ k other.
          law.write-other (open_bao_policy_name p) (published_hcl out.codec.hcl p) k w.bao other)
        h

  pub delete-SyncedBut :
      (p : Policy) (w : World out)
      → Named w.db
      → valid_name p.name ≡ true
      → SyncedBut out law p.name w
      → SyncedBut out law p.name (bao_call (out.manager.delete_policy (open_bao_policy_name p)) w).1
  delete-SyncedBut p w named vp h =
      touched-SyncedBut p w (bao_call (out.manager.delete_policy (open_bao_policy_name p)) w).1
        named vp refl refl (λ k other. law.delete-other (open_bao_policy_name p) k w.bao other) h

  pub publish-Shown :
      (p : Policy) (w : World out)
      → (publish out p w).0 ≡ ok tt
      → law.view (publish out p w).1.bao (open_bao_policy_name p)
        ≡ some (published_hcl out.codec.hcl p)
  unfolding publish
  publish-Shown p w done =
      law.write-ok (open_bao_policy_name p) (published_hcl out.codec.hcl p) w.bao done

  after_restore-Synced :
      (x : Result Category (Unit {0}) × World out)
      → (x.0 ≡ ok tt → Synced out law x.1)
      → Synced out law (after_restore out x).1
  unfolding after_restore
  after_restore-Synced (ok u, v) h = h refl
  after_restore-Synced (err e, v) h = inl refl

  after_restore-db :
      (x : Result Category (Unit {0}) × World out) → (after_restore out x).1.db ≡ x.1.db
  unfolding after_restore
  after_restore-db (ok u, v) = refl
  after_restore-db (err e, v) = refl

  -- Restoring a stored policy publishes every stored one again, or sets the flag.
  pub restore-some-Synced :
      (attempted p : Policy) (r : PolicyRow) (w : World out)
      → Named w.db
      → valid_name p.name ≡ true
      → lookup p.name w.db.policies ≡ some r
      → document_of r ≡ p
      → SyncedBut out law p.name w
      → Synced out law (restore_policy out attempted (some p) w).1
  unfolding restore_policy publish
  restore-some-Synced attempted p r w named vp found same h =
      after_restore-Synced (publish out p w) λ done.
        SyncedBut-some p.name (publish out p w).1 r found
          (subst
            (λ d.
              law.view (publish out p w).1.bao (open_bao_policy_name d)
              ≡ some (published_hcl out.codec.hcl d))
            (sym same) (publish-Shown p w done))
          (publish-SyncedBut p w named vp h)

  -- Removing what an attempt left, where no policy of the name is stored.
  pub restore-none-Synced :
      (p : Policy) (w : World out)
      → Named w.db
      → valid_name p.name ≡ true
      → lookup p.name w.db.policies ≡ none
      → SyncedBut out law p.name w
      → Synced out law (restore_policy out p none w).1
  unfolding restore_policy
  restore-none-Synced p w named vp missing h =
      let v = bao_call (out.manager.delete_policy (open_bao_policy_name p)) w in
      after_restore-Synced v
        λ done. SyncedBut-none p.name v.1 missing (delete-SyncedBut p w named vp h)

  pub restore-db :
      (p : Policy) (previous : Option Policy) (w : World out)
      → (restore_policy out p previous w).1.db ≡ w.db
  unfolding restore_policy publish
  restore-db p (some q) w = after_restore-db (publish out q w)
  restore-db p none w =
      after_restore-db (bao_call (out.manager.delete_policy (open_bao_policy_name p)) w)
