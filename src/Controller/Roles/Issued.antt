-- ===== src/Controller/Roles/Issued.antt =====
-- prepareCredential of internal/controller/session.go: when an agent gets a credential.
use wyrwood.Base.{
  ◌≡◌, ◌≢◌, ◌⊎◌, inl, inr, refl, sym, ap, ◌∙◌, ◌&&◌, Bool, true, false, some, List, [], ◌∷◌, arith,
  Bool-cases, Option-cases, if◌then◌else◌,
}
use wyrwood.Base.Text.{Text, ◌==t◌, ==t_iff}
use wyrwood.Base.Assoc.{lookup}
use wyrwood.Base.Errors.{Result, ok, err}
use wyrwood.Policy.BindingValues.{identity_metadata}
use wyrwood.Policy.Compose.{names_of, open_bao_policies}
use wyrwood.Protocol.Messages.{Credential}
use wyrwood.Store.Tables.{Store}
use wyrwood.Store.Policies.{StoredPolicy, policies}
use wyrwood.Store.Bindings.{Binding, binding, scan_binding}
use wyrwood.Store.Reports.{token_accessor}
use wyrwood.Controller.Errors.{Trouble, bao, disk, own}
use wyrwood.Controller.World.{Outside, World, read, bao_call, head_fault, need, done}
use wyrwood.Controller.Rules.{continue-elim, demand-elim, read_answer-eq-ok, map_error-eq-ok}
use wyrwood.Controller.Composing.{assignment}
use wyrwood.Controller.Publishing.{apply_binding, sync_policies, publish_all, publish, set_pending}
use wyrwood.Controller.Roles.{prepare_credential, sync_pending_policies}
use wyrwood.Controller.Roles.Applied.{RoleLaws, apply_binding_lem, apply_binding-names}
use wyrwood.Controller.Published.{Documented, Quiet}
use wyrwood.Controller.Published.Quiet.{apply_binding-Keeps}

module _ (out : Outside) where
  publish_all-db : (ps : List StoredPolicy) (w : World out) → (publish_all out ps w).1.db ≡ w.db
  unfolding publish_all publish
  publish_all-db [] w = refl
  publish_all-db (p ∷ ps) w =
      continue-elim (λ x. x.1.db ≡ w.db) (need {F = Trouble} bao (publish out p.policy) w) _
        (λ e failed. refl) λ u went. publish_all-db ps (publish out p.policy w).1

  -- Synchronization changes no table, and clears the flag where it succeeds.
  sync_policies-ok :
      (w : World out)
      → ((sync_policies out w).0 ≡ ok tt → (sync_policies out w).1.sync_pending ≡ false)
        × ((sync_policies out w).1.db ≡ w.db)
  unfolding sync_policies
  sync_policies-ok w =
      let P : Result Trouble (Unit {0}) × World out → Type 0 =
        λ x. (x.0 ≡ ok tt → x.1.sync_pending ≡ false) × (x.1.db ≡ w.db) in
      let w1 = set_pending out true w in
      let reading = need {F = Trouble} disk (read (policies out.codec.hcl)) in
      continue-elim P (reading w1) _ (λ e failed. ((λ (h : err e ≡ ok tt). cc), refl))
        λ ps got.
          continue-elim P (publish_all out ps (reading w1).1) _
            (λ e failed. ((λ (h : err e ≡ ok tt). cc), publish_all-db ps (reading w1).1))
            λ u went. ((λ h. refl), publish_all-db ps (reading w1).1)

  sync_pending_policies-ok :
      (w : World out)
      → ((sync_pending_policies out w).0 ≡ ok tt
          → (sync_pending_policies out w).1.sync_pending ≡ false)
        × ((sync_pending_policies out w).1.db ≡ w.db)
  unfolding sync_pending_policies
  sync_pending_policies-ok w = go w.sync_pending refl
    where
      go :
          (b : Bool)
          → w.sync_pending ≡ b
          → (((if b then sync_policies out else done tt) w).0 ≡ ok tt
              → ((if b then sync_policies out else done tt) w).1.sync_pending ≡ false)
            × (((if b then sync_policies out else done tt) w).1.db ≡ w.db)
      go true e = sync_policies-ok w
      go false e = ((λ h. e), refl)

  binding-id : (id : Text) (s : Store) (b : Binding) → binding id s ≡ ok b → b.id ≡ id
  unfolding binding scan_binding
  binding-id id s b h = elim (Option-cases (lookup id s.bindings)) [
    | inl missing ↦ ground arith
    | inr (r, found) ↦ ground arith
  ]

module _ (out : Outside) (law : Documented out.manager) (laws : RoleLaws out.manager) where
  Quiet-flag : (w v : World out) → Quiet out law w v → v.sync_pending ≡ w.sync_pending
  unfolding Quiet
  Quiet-flag w v q = q.2

  -- An agent gets a credential only where no policy waits to be published again, and only for a binding
  -- that the store has for that agent with the assignment that was asked for; the binding names the
  -- policies of its assignment, and where it was not applied before, its role now has exactly these
  -- policies and the token of the accessor that was stored for it is revoked.
  pub prepare_credential_lem :
      (agent : Text) (asked : Binding) (c : Credential) (w : World out)
      → (prepare_credential out agent asked w).0 ≡ ok c
      → let v = (prepare_credential out agent asked w).1 in
        (v.sync_pending ≡ false)
        × ((b : Binding) × (binding asked.id w.db ≡ ok b)
            × (b.agent ≡ agent)
            × (assignment out b ≡ assignment out asked)
            × (c.binding ≡ asked.id)
            × (c.assignment ≡ assignment out b)
            × (b.policies ≡ names_of b.effective)
            × ((b.applied ≡ true)
                ⊎ ((laws.role v.bao b.role ≡ some (open_bao_policies b.effective))
                    × ((accessor : Text)
                        → token_accessor b.id w.db ≡ ok accessor
                        → accessor ≢ []
                        → laws.revoked v.bao accessor ≡ true))))
  unfolding prepare_credential
  prepare_credential_lem agent asked c w =
      let P : Result Trouble Credential × World out → Type 0 = λ x.
        (x.0 ≡ ok c)
        → (x.1.sync_pending ≡ false)
          × ((b : Binding) × (binding asked.id w.db ≡ ok b)
              × (b.agent ≡ agent)
              × (assignment out b ≡ assignment out asked)
              × (c.binding ≡ asked.id)
              × (c.assignment ≡ assignment out b)
              × (b.policies ≡ names_of b.effective)
              × ((b.applied ≡ true)
                  ⊎ ((laws.role x.1.bao b.role ≡ some (open_bao_policies b.effective))
                      × ((accessor : Text)
                          → token_accessor b.id w.db ≡ ok accessor
                          → accessor ≢ []
                          → laws.revoked x.1.bao accessor ≡ true)))) in
      let x1 = sync_pending_policies out w in
      let (clear, db1) = sync_pending_policies-ok out w in
      continue-elim P x1 _ (λ e failed h. cc)
        λ u synced.
          let reading = binding asked.id in
          let x2 = need {F = Trouble} disk (read reading) x1.1 in
          continue-elim P x2 _ (λ e failed h. cc)
            λ b got.
              let found : binding asked.id w.db ≡ ok b =
                ap (binding asked.id) (sym db1)
                ∙ read_answer-eq-ok (head_fault x1.1.faults) (reading x1.1.db)
                    (map_error-eq-ok disk (read reading x1.1).0 got) in
              demand-elim P ((b.agent ==t agent) && (assignment out b ==t assignment out asked)) own
                x2.1 _ (λ bad h. cc)
                λ ours.
                  let x3 = apply_binding out b x2.1 in
                  let flag3 : x3.1.sync_pending ≡ false =
                    Quiet-flag x2.1 x3.1 ((apply_binding-Keeps out law b).quiet x2.1)
                    ∙ clear synced in
                  continue-elim P x3 _ (λ e failed h. cc)
                    λ u' applied.
                      let x4 =
                        need {F = Trouble} bao (bao_call (out.manager.role_id b.role)) x3.1 in
                      continue-elim P x4 _ (λ e failed h. cc)
                        λ id named.
                          let values = identity_metadata b.settings.values in
                          let x5 =
                            need {F = Trouble} bao
                              (bao_call (out.manager.wrapped_secret_id b.role values)) x4.1 in
                          continue-elim P x5 _ (λ e failed h. cc)
                            λ secret wrapped h. (
                              flag3,
                              (
                                b,
                                found,
                                ground (arith, ==t_iff b.agent agent),
                                ground (arith, ==t_iff (assignment out b) (assignment out asked)),
                                ground (arith, binding-id out asked.id w.db b found),
                                ground arith,
                                apply_binding-names out b x2.1 applied,
                                elim (Bool-cases b.applied) [
                                  | inl before ↦ inl before
                                  | inr waiting ↦
                                      let (names, role, revoked, marked) =
                                        apply_binding_lem out laws b x2.1 waiting applied in
                                      inr (
                                        laws.wrapped-role b.role b.role values x4.1.bao
                                            ∙ laws.role_id-role b.role b.role x3.1.bao
                                            ∙ role,
                                        λ accessor there full.
                                            laws.wrapped-revoked b.role accessor values x4.1.bao
                                            ∙ laws.role_id-revoked b.role accessor x3.1.bao
                                            ∙ revoked accessor
                                                (ap (token_accessor b.id) db1 ∙ there) full,
                                      )
                                ],
                              ),
                            )
