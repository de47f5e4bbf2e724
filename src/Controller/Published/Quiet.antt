-- ===== src/Controller/Published/Quiet.antt =====
-- The parts of the operations that change no policy, in the store or in OpenBao.
use wyrwood.Base.{
  ◌≡◌, ◌⊎◌, inl, inr, refl, ap, ◌∙◌, Bool, true, false, not, Option, none, some, List, [], ◌∷◌,
  arith, map, if◌then◌else◌, Bool-cases, keep, ltb, length,
}
use wyrwood.Base.Text.{Text, ◌==t◌}
use wyrwood.Base.Errors.{Result, ok, err}
use wyrwood.Policy.Types.{
  Policy, Settings, Effective, Problem, ssh, default_token_ttl, default_token_max_ttl,
}
use wyrwood.Policy.Ttl.{duration_or}
use wyrwood.Policy.Compose.{compose, names_of, open_bao_policies}
use wyrwood.Store.Tables.{Store, StoreError, not_found, conflict, constraint, invalid}
use wyrwood.Store.Bindings.{Binding, mark_binding_applied, has_policy, bindings}
use wyrwood.Store.Policies.{policy, or_zero}
use wyrwood.Store.Reports.{token_accessor, inventory}
use wyrwood.Controller.Errors.{
  Category, bao, disk, own, OperationError, operation_error, part_error, policy_denied,
}
use wyrwood.Controller.World.{
  Outside, Op, write, bao_call, Fault, fine, lost, hidden, written, head_fault,
}
use wyrwood.Controller.Composing.{
  replaced, composed, source, sources, compose_selection, affected_bindings, renamed_from,
  renamed_bindings, each_fits, agents_fit, preflight, list_of, agent_fits, replace_bindings, fits,
  agents_of,
}
use wyrwood.Controller.Publishing.{
  accessor_read, known_accessor, when, transition, apply_binding, change_of, equal_names,
}
use wyrwood.Controller.Changes.{transition_error, confirmed, confirm, apply_all, saved_as}
use wyrwood.Controller.Published.{
  Documented, tail_faults-NoHidden, Quiet, Keeps, >>=-Keeps, done-Keeps, fail-Keeps, demand-Keeps,
  read-Keeps, need-Keeps, need-read-Keeps, attempt-Keeps,
}

module _ (out : Outside) (law : Documented out.manager) where
  source-Keeps :
      (replacement : Option Policy) (name : Text) → Keeps out law (source out replacement name)
  unfolding source
  source-Keeps (some p) name = done-Keeps out law
  source-Keeps none name =
      >>=-Keeps out law (need-read-Keeps out law _ (policy out.codec.hcl name))
        λ p. done-Keeps out law

  sources-Keeps :
      (replacement : Option Policy) (names : List Text)
      → Keeps out law (sources out replacement names)
  unfolding sources
  sources-Keeps replacement [] = done-Keeps out law
  sources-Keeps replacement (n ∷ ns) =
      >>=-Keeps out law (source-Keeps (replaced replacement n) n)
        λ p. >>=-Keeps out law (sources-Keeps replacement ns) λ ps. done-Keeps out law

  composed-Keeps : (r : Result Problem Effective) → Keeps out law (composed out r)
  composed-Keeps (ok e) = done-Keeps out law
  composed-Keeps (err p) = fail-Keeps out law

  pub compose_selection-Keeps :
      (names : List Text) (settings : Settings) (replacement : Option Policy)
      → Keeps out law (compose_selection out names settings replacement)
  unfolding compose_selection
  compose_selection-Keeps names settings replacement =
      >>=-Keeps out law (sources-Keeps replacement names)
        λ ps. composed-Keeps (compose out.codec.hcl ps settings)

  pub affected_bindings-Keeps :
      (document : Policy) (bs : List Binding) → Keeps out law (affected_bindings out document bs)
  unfolding affected_bindings
  affected_bindings-Keeps document [] = done-Keeps out law
  affected_bindings-Keeps document (b ∷ bs) = elim (Bool-cases (has_policy b document.name)) [
    | inl changed ↦
        rw (changed, affected_bindings)
          (>>=-Keeps out law (compose_selection-Keeps b.policies b.settings (some document))
            λ e. >>=-Keeps out law (affected_bindings-Keeps document bs) λ rest. done-Keeps out law)
    | inr spared ↦ rw (spared, affected_bindings) (affected_bindings-Keeps document bs)
  ]

  renamed_from-Keeps :
      (old : Text) (document : Policy) (bs : List Binding)
      → Keeps out law (renamed_from out old document bs)
  unfolding renamed_from
  renamed_from-Keeps old document [] = done-Keeps out law
  renamed_from-Keeps old document (b ∷ bs) = elim (Bool-cases (has_policy b old)) [
    | inl changed ↦
        rw (changed, renamed_from)
          (>>=-Keeps out law
            (compose_selection-Keeps (map (λ n. if n ==t old then document.name else n) b.policies)
              b.settings (some document))
            λ e. >>=-Keeps out law (renamed_from-Keeps old document bs) λ rest. done-Keeps out law)
    | inr spared ↦ rw (spared, renamed_from) (renamed_from-Keeps old document bs)
  ]

  pub renamed_bindings-Keeps :
      (old : Text) (document : Policy) → Keeps out law (renamed_bindings out old document)
  unfolding renamed_bindings
  renamed_bindings-Keeps old document =
      >>=-Keeps out law (need-read-Keeps out law _ (list_of (bindings [])))
        λ bs. renamed_from-Keeps old document bs

  each_fits-Keeps : (bs : List Binding) → Keeps out law (each_fits out bs)
  unfolding each_fits
  each_fits-Keeps [] = done-Keeps out law
  each_fits-Keeps (b ∷ bs) =
      >>=-Keeps out law (demand-Keeps out law (fits out (b ∷ [])) _) λ u. each_fits-Keeps bs

  agents_fit-Keeps :
      (bs : List Binding) (agents : List Text) → Keeps out law (agents_fit out bs agents)
  unfolding agents_fit
  agents_fit-Keeps bs [] = done-Keeps out law
  agents_fit-Keeps bs (a ∷ agents) =
      >>=-Keeps out law (need-read-Keeps out law _ (list_of (bindings a))) λ stored.
        >>=-Keeps out law (attempt-Keeps out law (read-Keeps out law (list_of (inventory a))))
          λ reported.
            >>=-Keeps out law
              (demand-Keeps out law
                (agent_fits out (replace_bindings (keep (λ b. b.agent ==t a) bs) stored) reported)
                (operation_error policy_denied))
              λ u. agents_fit-Keeps bs agents

  pub preflight-Keeps : (bs : List Binding) → Keeps out law (preflight out bs)
  unfolding preflight
  preflight-Keeps bs =
      >>=-Keeps out law (each_fits-Keeps bs) λ u. agents_fit-Keeps bs (agents_of bs)

  pub confirm-Keeps :
      (exists : Text → Op out Category Bool) (names : List Text)
      → ((n : Text) → Keeps out law (exists n))
      → Keeps out law (confirm out exists names)
  unfolding confirm
  confirm-Keeps exists [] each = done-Keeps out law
  confirm-Keeps exists (n ∷ ns) each = >>=-Keeps out law (attempt-Keeps out law (each n)) λ answer.
      >>=-Keeps out law
        (demand-Keeps out law (confirmed out answer) (part_error (some ssh) policy_denied))
        λ u. confirm-Keeps exists ns each

  pub bao-Keeps :
      {A : Type 0} (call : out.manager.State → Result Category A × out.manager.State)
      → ((s : out.manager.State) (k : Text) → law.view (call s).1 k ≡ law.view s k)
      → Keeps out law (bao_call call)
  unfolding Quiet
  bao-Keeps call same = record { quiet = λ w. (refl, refl, refl, same w.bao, λ h. h) }

  written-change_of :
      (fault : Fault) (f : Store → Store) (s : Store)
      → (written fault (change_of f s) s ≡ f s) ⊎ (written fault (change_of f s) s ≡ s)
  unfolding written
  written-change_of fine f s = inl refl
  written-change_of lost f s = inr refl
  written-change_of hidden f s = inl refl

  write-Keeps :
      (f : Store → Store)
      → ((s : Store) → ((f s).policies ≡ s.policies) × ((f s).generations ≡ s.generations))
      → Keeps out law (write (change_of f))
  unfolding Quiet
  write-Keeps f same = record {
    quiet = λ w. elim (written-change_of (head_fault w.faults) f w.db) [
      | inl changed ↦ (
        ap (λ (s : Store). s.policies) changed ∙ (same w.db).0,
        ap (λ (s : Store). s.generations) changed ∙ (same w.db).1,
        refl,
        λ k. refl,
        tail_faults-NoHidden w.faults,
      )
      | inr kept ↦ (
        ap (λ (s : Store). s.policies) kept,
        ap (λ (s : Store). s.generations) kept,
        refl,
        λ k. refl,
        tail_faults-NoHidden w.faults,
      )
    ];
  }

  mark_binding_applied-policies :
      (id : Text) (s : Store)
      → ((mark_binding_applied id s).policies ≡ s.policies)
        × ((mark_binding_applied id s).generations ≡ s.generations)
  unfolding mark_binding_applied
  mark_binding_applied-policies id s = ground arith

  accessor_read-Keeps : (r : Result StoreError Text) → Keeps out law (accessor_read out r)
  unfolding accessor_read
  accessor_read-Keeps (ok accessor) = done-Keeps out law
  accessor_read-Keeps (err not_found) = done-Keeps out law
  accessor_read-Keeps (err conflict) = fail-Keeps out law
  accessor_read-Keeps (err constraint) = fail-Keeps out law
  accessor_read-Keeps (err invalid) = fail-Keeps out law

  known_accessor-Keeps : (id : Text) → Keeps out law (known_accessor out id)
  unfolding known_accessor
  known_accessor-Keeps id =
      >>=-Keeps out law (attempt-Keeps out law (read-Keeps out law (token_accessor id)))
        accessor_read-Keeps

  when-Keeps {κ} :
      {E : Type κ} (b : Bool) (m : Op out E (Unit {0}))
      → Keeps out law m
      → Keeps out law (when out b m)
  when-Keeps true m h = h
  when-Keeps false m h = done-Keeps out law

  transition-Keeps : (b : Binding) → Keeps out law (transition out b)
  unfolding transition
  transition-Keeps b =
      >>=-Keeps out law
        (when-Keeps (ltb 0 (length b.settings.values)) _ (
          need-Keeps out law bao
            (bao-Keeps (out.manager.delete_role b.role) λ s k. law.delete_role-keeps b.role k s)))
        λ u.
          >>=-Keeps out law
            (need-Keeps out law bao (
              bao-Keeps
                (out.manager.write_role b.role (open_bao_policies b.effective)
                  (or_zero (duration_or b.settings.token_ttl default_token_ttl))
                  (or_zero (duration_or b.settings.token_max_ttl default_token_max_ttl)))
                λ s k. law.role-keeps b.role k _ _ _ s))
            λ u. >>=-Keeps out law (known_accessor-Keeps b.id) λ accessor.
              >>=-Keeps out law
                (when-Keeps (not (accessor ==t [])) _ (
                  need-Keeps out law bao (
                    bao-Keeps (out.manager.revoke_accessor accessor)
                      λ s k. law.revoke-keeps accessor k s)))
                λ u.
                  need-Keeps out law disk
                    (write-Keeps (mark_binding_applied b.id) (mark_binding_applied-policies b.id))

  pub apply_binding-Keeps : (b : Binding) → Keeps out law (apply_binding out b)
  unfolding apply_binding
  apply_binding-Keeps b =
      >>=-Keeps out law (demand-Keeps out law (equal_names b.policies (names_of b.effective)) own)
        λ u. elim (Bool-cases b.applied) [
          | inl applied ↦ rw applied (done-Keeps out law)
          | inr waiting ↦ rw waiting (transition-Keeps b)
        ]

  pub apply_all-Keeps :
      (bs : List Binding) (problem : Option OperationError)
      → Keeps out law (apply_all out bs problem)
  unfolding apply_all
  apply_all-Keeps [] problem = done-Keeps out law
  apply_all-Keeps (b ∷ bs) problem =
      >>=-Keeps out law (attempt-Keeps out law (apply_binding-Keeps b))
        λ r. apply_all-Keeps bs (transition_error out r problem)

  pub saved_as-Keeps : (bs : List Binding) (p : Policy) → Keeps out law (saved_as out bs p)
  unfolding saved_as
  saved_as-Keeps bs p = >>=-Keeps out law (apply_all-Keeps bs none) λ problem. done-Keeps out law
