-- ===== src/Controller/Published/Deleted.antt =====
-- What a deletion of a policy that succeeds has done: deletePolicy of
-- internal/controller/policy_delete.go.
use wyrwood.Base.{
  ◌≡◌, ◌⊎◌, inl, inr, refl, sym, ap, ◌∙◌, subst, not, false, none, some, any, [], arith,
  Option-cases,
}
use wyrwood.Base.Text.{Text, ◌==t◌, ==t_refl}
use wyrwood.Base.Assoc.{lookup, lookup-remove, remove}
use wyrwood.Base.Errors.{Result, ok, err}
use wyrwood.Policy.Types.{Policy}
use wyrwood.Policy.Patterns.{valid_name, open_bao_policy_name}
use wyrwood.Store.Tables.{PolicyRow, Store, StoreError, not_found, conflict, constraint, invalid}
use wyrwood.Store.Policies
use wyrwood.Store.Policies.{StoredPolicy, policy, scan_policy}
use wyrwood.Store.Bindings.{bindings, has_policy}
use wyrwood.Controller.Errors.{Category, OperationError, internal, operation_error}
use wyrwood.Controller.World.{
  Outside, World, read, write, read_answer, head_fault, bao_call, need, Fault, fine, lost, hidden,
}
use wyrwood.Controller.Rules.{continue-elim, demand-elim, read_answer-eq-ok, map_error-eq-ok}
use wyrwood.Controller.Composing.{list_of}
use wyrwood.Controller.Publishing.{checked}
use wyrwood.Controller.Changes.{
  delete_policy, delete_row, row_deleted, settle_read, settle_failed_policy_delete, missing_policy,
  bound_policy, unread,
}
use wyrwood.Controller.Published.{Documented, document_of, Named}
use wyrwood.Controller.Published.Delete.{delete-written, policy-eq-ok}

-- A read that finds no row.
pub read_policy-not_found :
    (out : Outside) (name : Text) (fault : Fault) (s : Store)
    → read_answer fault (policy out.codec.hcl name s) ≡ err not_found
    → lookup name s.policies ≡ none
unfolding read_answer policy scan_policy
read_policy-not_found out name fine s h = elim (Option-cases (lookup name s.policies)) [
  | inl missing ↦ missing
  | inr (r, found) ↦ ground arith
]
read_policy-not_found out name lost s h = cc
read_policy-not_found out name hidden s h = cc

module _ (out : Outside) (law : Documented out.manager) where
  -- The row of the name is gone, the other rows and OpenBao are as they were.
  abbrev Gone : Text → World out → World out → Type 0
  Gone name w v =
      (lookup name v.db.policies ≡ none)
      × ((k : Text) → (name ==t k) ≡ false → lookup k v.db.policies ≡ lookup k w.db.policies)
      × (v.bao ≡ w.bao)

  settle_read-ok :
      (stored : StoredPolicy) (answer : Result StoreError StoredPolicy) (w : World out)
      → (settle_read out stored answer w).0 ≡ ok tt
      → (answer ≡ err not_found) × ((settle_read out stored answer w).1 ≡ w)
  unfolding settle_read
  settle_read-ok stored (err not_found) w h = (refl, refl)
  settle_read-ok stored (err conflict) w h = cc
  settle_read-ok stored (err constraint) w h = cc
  settle_read-ok stored (err invalid) w h = cc
  settle_read-ok stored (ok again) w h = cc

  row_deleted-ok :
      (stored : StoredPolicy) (answer : Result StoreError (Unit {0})) (w : World out)
      → (row_deleted out stored answer w).0 ≡ ok tt
      → ((answer ≡ ok tt) ⊎ (lookup stored.policy.name w.db.policies ≡ none))
        × ((row_deleted out stored answer w).1.db ≡ w.db)
        × ((row_deleted out stored answer w).1.bao ≡ w.bao)
  unfolding row_deleted settle_failed_policy_delete
  row_deleted-ok stored (ok u) w h = (inl refl, refl, refl)
  row_deleted-ok stored (err e) w h =
      let v = read (policy out.codec.hcl stored.policy.name) w in
      let (missing, same) = settle_read-ok stored v.0 v.1 h in
      (
        inr (read_policy-not_found out stored.policy.name (head_fault w.faults) w.db missing),
        ap (λ (u : World out). u.db) same,
        ap (λ (u : World out). u.bao) same,
      )

  delete_row-ok :
      (stored : StoredPolicy) (answer : Result Category (Unit {0})) (w : World out)
      → (delete_row out stored.policy.name stored answer w).0 ≡ ok tt
      → (answer ≡ ok tt)
        × Gone stored.policy.name w (delete_row out stored.policy.name stored answer w).1
  unfolding delete_row
  delete_row-ok stored (err e) w h = cc
  delete_row-ok stored (ok u) w h =
      let name = stored.policy.name in
      let v = write (checked (Policies.delete_policy name)) w in
      let (end, db, bao) = row_deleted-ok stored v.0 v.1 h in
      let rows : (delete_row out name stored (ok u) w).1.db.policies ≡ v.1.db.policies =
        ap (λ (s : Store). s.policies) db in
      elim (delete-written name (head_fault w.faults) w.db) [
        | inl gone ↦
            let left : v.1.db.policies ≡ remove name w.db.policies =
              ap (λ (s : Store). s.policies) gone in
            (
              refl,
              (
                ground (arith, rows, left, lookup-remove name name w.db.policies, ==t_refl name),
                λ k other. ground (arith, rows, left, lookup-remove name k w.db.policies),
                bao,
              ),
            )
        | inr (kept, failed) ↦ elim end [
          | inl went ↦ absurd (failed went)
          | inr missing ↦
              let left : v.1.db.policies ≡ w.db.policies = ap (λ (s : Store). s.policies) kept in
              (refl, (ap (lookup name) rows ∙ missing, λ k other. ap (lookup k) (rows ∙ left), bao))
        ]
      ]

  -- Where every stored policy stands under its own valid name and deletePolicy returns no error,
  -- the store had the policy and has it no more, the policy is not in OpenBao under its name
  -- there, and every other policy is stored as before, whatever the disk answered on the way.
  pub delete_policy_lem :
      (name : Text) (w : World out)
      → Named w.db
      → (delete_policy out name w).0 ≡ ok tt
      → let v = (delete_policy out name w).1 in
        ((r : PolicyRow) × (lookup name w.db.policies ≡ some r)
          × (law.view v.bao (open_bao_policy_name (document_of r)) ≡ none))
        × (lookup name v.db.policies ≡ none)
        × ((k : Text) → (name ==t k) ≡ false → lookup k v.db.policies ≡ lookup k w.db.policies)
  unfolding delete_policy
  delete_policy_lem name w named =
      let P : Result OperationError (Unit {0}) × World out → Type 0 = λ x.
        (x.0 ≡ ok tt)
        → ((r : PolicyRow) × (lookup name w.db.policies ≡ some r)
            × (law.view x.1.bao (open_bao_policy_name (document_of r)) ≡ none))
          × (lookup name x.1.db.policies ≡ none)
          × ((k : Text)
              → (name ==t k) ≡ false
              → lookup k x.1.db.policies ≡ lookup k w.db.policies) in
      let reading = policy out.codec.hcl name in
      demand-elim P (valid_name name) (missing_policy out) w _ (λ bad h. cc)
        λ valid.
          continue-elim P (need (unread out) (read reading) w) _ (λ e failed h. cc)
            λ stored got.
              let (r, found, same) = policy-eq-ok out name w.db stored (
                read_answer-eq-ok (head_fault w.faults) (reading w.db)
                  (map_error-eq-ok (unread out) (read reading w).0 got)) in
              let w1 = (read reading w).1 in
              let listing = need (λ e. operation_error internal) (read (list_of (bindings []))) in
              continue-elim P (listing w1) _ (λ e failed h. cc)
                λ bs listed.
                  let w2 = (listing w1).1 in
                  demand-elim P (not (any (λ b. has_policy b name) bs)) (bound_policy out) w2 _
                    (λ bound h. cc)
                    λ free.
                      let e : stored.policy.name ≡ name =
                        ap (λ (p : Policy). p.name) (sym same) ∙ (named name r found).0 in
                      let identity = open_bao_policy_name stored.policy in
                      let call = bao_call (out.manager.delete_policy identity) w2 in
                      subst (λ n. P (delete_row out n stored call.0 call.1)) e
                        λ h.
                          let (deleted, (missing, others, bao)) =
                            delete_row-ok stored call.0 call.1 h in
                          (
                            (
                              r,
                              found,
                              ap (λ s. law.view s (open_bao_policy_name (document_of r))) bao
                                  ∙ ap (law.view call.1.bao) (ap open_bao_policy_name same)
                                  ∙ law.delete-ok identity w2.bao deleted,
                            ),
                            subst
                                (λ n.
                                  lookup n
                                    (delete_row out stored.policy.name stored call.0
                                      call.1).1.db.policies
                                  ≡ none)
                                e missing,
                            λ k other. others k (subst (λ n. (n ==t k) ≡ false) (sym e) other),
                          )
