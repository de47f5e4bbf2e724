-- ===== src/Controller/Published/Saving.antt =====
-- savePolicy of internal/controller/operations.go from its checks to its commit.
use wyrwood.Base.{
  ℕ, ◌≡◌, ◌⊎◌, inl, inr, refl, sym, ap, ◌∙◌, subst, true, Option, some, [], arith, Bool-cases,
}
use wyrwood.Base.Text.{Text}
use wyrwood.Base.Assoc.{lookup}
use wyrwood.Base.Errors.{Result, ok, err, Result-cases, ok-injective}
use wyrwood.Policy.Types.{Policy, transit_keys, ca_roles}
use wyrwood.Policy.Patterns.{valid_name}
use wyrwood.Policy.Validate.{Check, validate_policy}
use wyrwood.Store.Tables.{Store, StoreError, not_found, conflict, constraint, invalid}
use wyrwood.Store.Policies.{StoredPolicy, policy, next_policy_generation}
use wyrwood.Store.Bindings.{bindings}
use wyrwood.Controller.Errors.{OperationError}
use wyrwood.Controller.World.{Outside, World, read, head_fault, bao_call, need, map_error}
use wyrwood.Controller.Rules.{continue-elim, read_answer-eq-ok}
use wyrwood.Controller.Composing.{list_of, affected_bindings, preflight}
use wyrwood.Controller.Publishing.{publish}
use wyrwood.Controller.Changes.{
  Saved, denied, checked_by, confirm, planned, carry_out, publish_and_store, save_policy,
  stored_policy, without_revision,
}
use wyrwood.Controller.Published.{
  Documented, Synced, Quiet, Quiet-trans, Keeps, Named, NoHidden, read-Keeps, done-Keeps,
  fail-Keeps, >>=-Keeps, need-read-Keeps,
}
use wyrwood.Controller.Published.Synced.{Quiet-Synced}
use wyrwood.Controller.Published.Quiet.{
  affected_bindings-Keeps, preflight-Keeps, confirm-Keeps, bao-Keeps,
}
use wyrwood.Controller.Published.Delete.{policy-eq-ok}
use wyrwood.Controller.Published.Deleted.{read_policy-not_found}
use wyrwood.Controller.Published.Save.{Plan, again, anew, stored_as-Synced}

module _ (out : Outside) (law : Documented out.manager) where
  -- What the operation relies on, which its quiet parts keep.
  pub record Ready (next : Policy) (previous : Option Policy) (w : World out) : Type 0 where
    pub named : Named w.db
    pub valid : valid_name next.name ≡ true
    pub plan : Plan w.db next previous
    pub seen : NoHidden w.faults
    pub synced : Synced out law w

  Quiet-Ready :
      (next : Policy) (previous : Option Policy) (w v : World out)
      → Quiet out law w v
      → Ready next previous w
      → Ready next previous v
  unfolding Quiet next_policy_generation
  Quiet-Ready next previous w v q h =
      let (rows, gens, flag, shown, faults) = q in
      record {
        named = λ k r found. h.named k r (ap (lookup k) (sym rows) ∙ found);
        valid = h.valid;
        plan = same_plan rows gens h.plan;
        seen = faults h.seen;
        synced = Quiet-Synced out law w v q h.synced;
      }
    where
      same_plan :
          {prev : Option Policy}
          → v.db.policies ≡ w.db.policies
          → v.db.generations ≡ w.db.generations
          → Plan w.db next prev
          → Plan v.db next prev
      same_plan rows gens (again r found same) = again r (ap (lookup next.name) rows ∙ found) same
      same_plan rows gens (anew missing same) =
          anew (ap (lookup next.name) rows ∙ missing) (ground arith)

  publish_and_store-Synced :
      (next : Policy) (previous : Option Policy) (by : Text) (now : ℕ) (w : World out)
      → Ready next previous w
      → Synced out law (publish_and_store out next previous by now w).1
  unfolding publish_and_store
  publish_and_store-Synced next previous by now w h =
      let P : Result OperationError Saved × World out → Type 0 = λ x. Synced out law x.1 in
      let listing = need (λ e. denied) (read (list_of (bindings []))) in
      continue-elim P (listing w) _ (λ e failed. h.synced)
        λ bs listed.
          let w1 = (listing w).1 in
          let q1 : Quiet out law w w1 = (read-Keeps out law (list_of (bindings []))).quiet w in
          let x2 = affected_bindings out next bs w1 in
          let q2 =
            Quiet-trans out law w w1 x2.1 q1 ((affected_bindings-Keeps out law next bs).quiet w1) in
          continue-elim P x2 _ (λ e failed. Quiet-Synced out law w x2.1 q2 h.synced)
            λ affected composed.
              let x3 = preflight out affected x2.1 in
              let q3 =
                Quiet-trans out law w x2.1 x3.1 q2
                  ((preflight-Keeps out law affected).quiet x2.1) in
              continue-elim P x3 _ (λ e failed. Quiet-Synced out law w x3.1 q3 h.synced)
                λ u fit.
                  let r = Quiet-Ready next previous w x3.1 q3 h in
                  stored_as-Synced out law next previous affected by now (publish out next x3.1).0
                    x3.1 r.named r.valid r.plan r.seen r.synced refl

  -- A policy that passes its validation has a valid name.
  validate_policy-valid_name :
      (p : Policy) → validate_policy out.codec.hcl p ≡ ok tt → valid_name p.name ≡ true
  unfolding validate_policy
  validate_policy-valid_name p h = elim (Bool-cases (valid_name p.name)) [
    | inl valid ↦ valid
    | inr bad ↦ ground arith
  ]

  checked_by-Keeps : (c : Check) → Keeps out law (checked_by out c)
  checked_by-Keeps (ok u) = done-Keeps out law
  checked_by-Keeps (err p) = fail-Keeps out law

  checked_by-eq-ok :
      (c : Check) (w : World out) {u : Unit {0}} → (checked_by out c w).0 ≡ ok u → c ≡ ok tt
  checked_by-eq-ok (ok u) w h = refl
  checked_by-eq-ok (err p) w h = cc

  carry_out-Synced :
      (previous : Option Policy) (by : Text) (now : ℕ) (plan : Policy ⊎ Policy) (w : World out)
      → Synced out law w
      → ((next : Policy) → plan ≡ inr next → Ready next previous w)
      → Synced out law (carry_out out previous by now plan w).1
  unfolding carry_out
  carry_out-Synced previous by now (inl unchanged) w h ready = h
  carry_out-Synced previous by now (inr next) w h ready =
      publish_and_store-Synced next previous by now w (ready next refl)

  planned-Keeps :
      (document : Policy) (old : Result StoreError StoredPolicy)
      → Keeps out law (planned out document old)
  unfolding planned
  planned-Keeps document (ok old) =
      elim (Bool-cases (
        out.deep_equal (without_revision old.policy)
          (without_revision (record document { generation = old.policy.generation })))) [
            | inl same ↦ rw (same, planned) (done-Keeps out law)
            | inr other ↦ rw (other, planned) (done-Keeps out law)
          ]
  planned-Keeps document (err not_found) =
      >>=-Keeps out law
        (need-read-Keeps out law (λ e. denied) (list_of (next_policy_generation document.name)))
        λ next. done-Keeps out law
  planned-Keeps document (err conflict) = fail-Keeps out law
  planned-Keeps document (err constraint) = fail-Keeps out law
  planned-Keeps document (err invalid) = fail-Keeps out law

  planned-again :
      (document : Policy) (old : StoredPolicy) (v : World out) (next : Policy)
      → (planned out document (ok old) v).0 ≡ ok (inr next)
      → (next.name ≡ document.name) × (next.generation ≡ old.policy.generation)
  unfolding planned
  planned-again document old v next h =
      elim (Bool-cases (
        out.deep_equal (without_revision old.policy)
          (without_revision (record document { generation = old.policy.generation })))) [
            | inl same ↦ (ground arith, ground arith)
            | inr other ↦ (ground arith, ground arith)
          ]

  planned-anew :
      (document : Policy) (v : World out) (next : Policy)
      → (planned out document (err not_found) v).0 ≡ ok (inr next)
      → (next.name ≡ document.name) × (next.generation ≡ next_policy_generation document.name v.db)
  unfolding planned map_error
  planned-anew document v next h =
      elim (Result-cases (read (list_of (next_policy_generation document.name)) v).0) [
        | inl (e, failed) ↦ absurd (ground arith)
        | inr (n, counted) ↦
            let is : n ≡ next_policy_generation document.name v.db = sym (
              ok-injective (
                read_answer-eq-ok (head_fault v.faults)
                  (list_of (next_policy_generation document.name) v.db) counted)) in
            (ground arith, ground arith)
      ]

  -- The plan of a document goes with what the store reads.
  planned-Plan :
      (document : Policy) (w : World out) (v : World out) (next : Policy)
      → let old = (read (policy out.codec.hcl document.name) w).0 in
        v.db ≡ w.db
        → (planned out document old v).0 ≡ ok (inr next)
        → (next.name ≡ document.name) × Plan w.db next (stored_policy old)
  unfolding planned
  planned-Plan document w v next same h = go (read (policy out.codec.hcl document.name) w).0 refl h
    where
      go :
          (old : Result StoreError StoredPolicy)
          → (read (policy out.codec.hcl document.name) w).0 ≡ old
          → (planned out document old v).0 ≡ ok (inr next)
          → (next.name ≡ document.name) × Plan w.db next (stored_policy old)
      go (ok old) e h =
          let (r, found, is) =
            policy-eq-ok out document.name w.db old (
              read_answer-eq-ok (head_fault w.faults) (policy out.codec.hcl document.name w.db)
                e) in
          let (label, generation) = planned-again document old v next h in
          (
            label,
            subst (λ q. Plan w.db next (some q)) is
                (again r (ap (λ n. lookup n w.db.policies) label ∙ found)
                  (generation ∙ ap (λ (q : Policy). q.generation) (sym is))),
          )
      go (err not_found) e h =
          let missing = read_policy-not_found out document.name (head_fault w.faults) w.db e in
          let (label, generation) = planned-anew document v next h in
          (
            label,
            anew (ap (λ n. lookup n w.db.policies) label ∙ missing) (
                generation
                ∙ ap (λ (s : Store). next_policy_generation document.name s) same
                ∙ ap (λ n. next_policy_generation n w.db) (sym label)),
          )
      go (err conflict) e h = cc
      go (err constraint) e h = cc
      go (err invalid) e h = cc

  Quiet-Named : (w v : World out) → Quiet out law w v → Named w.db → Named v.db
  unfolding Quiet
  Quiet-Named w v (rows, gens, flag, shown, faults) named k r found =
      named k r (ap (lookup k) (sym rows) ∙ found)

  Quiet-NoHidden : (w v : World out) → Quiet out law w v → NoHidden w.faults → NoHidden v.faults
  unfolding Quiet
  Quiet-NoHidden w v (rows, gens, flag, shown, faults) = faults

  -- savePolicy keeps OpenBao in step with the store, whatever OpenBao answers and whether its
  -- failed calls took effect or not, where a failed call of the store has no effect and every
  -- stored policy stands under its own valid name: if every stored policy was published with its
  -- text, or the flag that blocks fresh credentials was set, so it is afterwards, whether the
  -- document was refused, rolled back or stored.
  pub save_policy-Synced :
      (document : Policy) (by : Text) (now : ℕ) (w : World out)
      → Named w.db
      → NoHidden w.faults
      → Synced out law w
      → Synced out law (save_policy out document by now w).1
  unfolding save_policy
  save_policy-Synced document by now w named seen h =
      let P : Result OperationError Saved × World out → Type 0 = λ x. Synced out law x.1 in
      let x1 = checked_by out (validate_policy out.codec.hcl document) w in
      let q1 = (checked_by-Keeps (validate_policy out.codec.hcl document)).quiet w in
      continue-elim P x1 _ (λ e failed. Quiet-Synced out law w x1.1 q1 h)
        λ u accepted.
          let x2 =
            confirm out (λ n. bao_call (out.manager.transit_key_exists n)) (transit_keys document)
              x1.1 in
          let q2 = Quiet-trans out law w x1.1 x2.1 q1 (
            (confirm-Keeps out law (λ n. bao_call (out.manager.transit_key_exists n))
                (transit_keys document)
                (λ n.
                  bao-Keeps out law (out.manager.transit_key_exists n)
                    (λ s k. law.transit-keeps n k s))).quiet
              x1.1) in
          continue-elim P x2 _ (λ e failed. Quiet-Synced out law w x2.1 q2 h)
            λ u' confirmed.
              let x3 =
                confirm out (λ n. bao_call (out.manager.ssh_role_exists n)) (ca_roles document)
                  x2.1 in
              let q3 = Quiet-trans out law w x2.1 x3.1 q2 (
                (confirm-Keeps out law (λ n. bao_call (out.manager.ssh_role_exists n))
                    (ca_roles document)
                    (λ n.
                      bao-Keeps out law (out.manager.ssh_role_exists n)
                        (λ s k. law.ssh-keeps n k s))).quiet
                  x2.1) in
              continue-elim P x3 _ (λ e failed. Quiet-Synced out law w x3.1 q3 h)
                λ u'' confirmed'.
                  let reading = policy out.codec.hcl document.name in
                  let x4 = read reading x3.1 in
                  let q4 =
                    Quiet-trans out law w x3.1 x4.1 q3 ((read-Keeps out law reading).quiet x3.1) in
                  let x5 = planned out document x4.0 x4.1 in
                  let q5 =
                    Quiet-trans out law w x4.1 x5.1 q4 ((planned-Keeps document x4.0).quiet x4.1) in
                  continue-elim P x5 _ (λ e failed. Quiet-Synced out law w x5.1 q5 h)
                    λ plan made.
                      carry_out-Synced (stored_policy x4.0) by now plan x5.1
                        (Quiet-Synced out law w x5.1 q5 h)
                        λ next is.
                          let (label, planned_next) =
                            planned-Plan document x3.1 x4.1 next refl (ground arith) in
                          let valid = validate_policy-valid_name document (
                            checked_by-eq-ok (validate_policy out.codec.hcl document) w accepted) in
                          Quiet-Ready next (stored_policy x4.0) x3.1 x5.1
                            (Quiet-trans out law x3.1 x4.1 x5.1
                              ((read-Keeps out law reading).quiet x3.1)
                              ((planned-Keeps document x4.0).quiet x4.1))
                            (record {
                              named = Quiet-Named w x3.1 q3 named;
                              valid = subst (λ n. valid_name n ≡ true) (sym label) valid;
                              plan = planned_next;
                              seen = Quiet-NoHidden w x3.1 q3 seen;
                              synced = Quiet-Synced out law w x3.1 q3 h;
                            })
