-- ===== src/Controller/Published/Delete.antt =====
-- deletePolicy of internal/controller/policy_delete.go and the policies that are published.
use wyrwood.Base.{
  ◌≡◌, ◌≢◌, ◌⊎◌, inl, inr, refl, sym, ap, ◌∙◌, subst, not, true, none, some, any, [], arith,
  Bool-cases, Option-cases,
}
use wyrwood.Base.Text.{Text, ==t_refl}
use wyrwood.Base.Assoc.{lookup, lookup-remove, remove}
use wyrwood.Base.Errors.{Result, ok, err}
use wyrwood.Policy.Types.{Policy}
use wyrwood.Policy.Patterns.{valid_name, open_bao_policy_name}
use wyrwood.Store.Tables.{PolicyRow, Store, StoreError, not_found, conflict, constraint, invalid}
use wyrwood.Store.Policies
use wyrwood.Store.Policies.{StoredPolicy, policy, scan_policy, selected}
use wyrwood.Store.Bindings.{bindings, has_policy}
use wyrwood.Controller.Errors.{Category, OperationError, internal, operation_error}
use wyrwood.Controller.World.{
  Outside, World, Fault, fine, lost, hidden, read, write, written, write_answer, read_answer,
  head_fault, bao_call, need,
}
use wyrwood.Controller.Rules.{continue-elim, demand-elim, read_answer-eq-ok, map_error-eq-ok}
use wyrwood.Controller.Composing.{list_of}
use wyrwood.Controller.Publishing.{checked}
use wyrwood.Controller.Changes.{
  delete_policy, delete_row, settle_read, settle_failed_policy_delete, row_deleted, missing_policy,
  bound_policy, unread,
}
use wyrwood.Controller.Published.{Documented, document_of, Synced, SyncedBut, Named}
use wyrwood.Controller.Published.Synced.{
  Synced-SyncedBut, SyncedBut-none, SyncedBut-rows, delete-SyncedBut, restore-some-Synced,
}

-- What the store reads of a policy is the document of its row.
pub policy-eq-ok :
    (out : Outside) (name : Text) (s : Store) (stored : StoredPolicy)
    → policy out.codec.hcl name s ≡ ok stored
    → (r : PolicyRow) × (lookup name s.policies ≡ some r) × (document_of r ≡ stored.policy)
unfolding policy scan_policy
policy-eq-ok out name s stored h = elim (Option-cases (lookup name s.policies)) [
  | inl missing ↦ ground arith
  | inr (r, found) ↦ (r, found, ground arith)
]

-- The deletion of a row, whatever the disk answers: the row goes, or nothing changes and the answer
-- is an error.
pub delete-written :
    (name : Text) (fault : Fault) (s : Store)
    → let call = checked (Policies.delete_policy name) s in
      (written fault call s ≡ record s { policies = remove name s.policies })
      ⊎ ((written fault call s ≡ s) × (write_answer fault call ≢ ok tt))
unfolding Policies.delete_policy written write_answer
delete-written name lost s = inr (refl, λ h. cc)
delete-written name fine s = elim (Option-cases (lookup name s.policies)) [
  | inl missing ↦ inr (ground arith, λ h. ground arith)
  | inr (r, found) ↦ elim (Bool-cases (selected name s.members)) [
    | inl bound ↦ inr (ground arith, λ h. ground arith)
    | inr free ↦ inl (ground arith)
  ]
]
delete-written name hidden s = elim (Option-cases (lookup name s.policies)) [
  | inl missing ↦ inr (ground arith, λ h. ground arith)
  | inr (r, found) ↦ elim (Bool-cases (selected name s.members)) [
    | inl bound ↦ inr (ground arith, λ h. ground arith)
    | inr free ↦ inl (ground arith)
  ]
]

remove-Named :
    (name : Text) (s : Store) → Named s → Named (record s { policies = remove name s.policies })
remove-Named name s named k r found = ground (arith, named k r, lookup-remove name k s.policies)

module _ (out : Outside) (law : Documented out.manager) where
  -- What the settlement reads decides; the row is the one that was read before, or it is gone.
  settle_read-Synced :
      (stored : StoredPolicy) (r : PolicyRow) (w : World out)
      (answer : Result StoreError StoredPolicy)
      → Named w.db
      → valid_name stored.policy.name ≡ true
      → document_of r ≡ stored.policy
      → ((lookup stored.policy.name w.db.policies ≡ none) × ((p : StoredPolicy) → answer ≢ ok p))
        ⊎ ((lookup stored.policy.name w.db.policies ≡ some r) × (answer ≢ err not_found))
      → SyncedBut out law stored.policy.name w
      → Synced out law (settle_read out stored answer w).1
  unfolding settle_read
  settle_read-Synced stored r w (ok again) named valid same (inl (gone, other)) h =
      absurd (other again refl)
  settle_read-Synced stored r w (err not_found) named valid same (inl (gone, other)) h =
      SyncedBut-none out law stored.policy.name w gone h
  settle_read-Synced stored r w (err conflict) named valid same (inl (gone, other)) h = inl refl
  settle_read-Synced stored r w (err constraint) named valid same (inl (gone, other)) h = inl refl
  settle_read-Synced stored r w (err invalid) named valid same (inl (gone, other)) h = inl refl
  settle_read-Synced stored r w (err not_found) named valid same (inr (kept, other)) h =
      absurd (other refl)
  settle_read-Synced stored r w (err conflict) named valid same (inr (kept, other)) h = inl refl
  settle_read-Synced stored r w (err constraint) named valid same (inr (kept, other)) h = inl refl
  settle_read-Synced stored r w (err invalid) named valid same (inr (kept, other)) h = inl refl
  settle_read-Synced stored r w (ok again) named valid same (inr (kept, other)) h =
      restore-some-Synced out law stored.policy stored.policy r w named valid kept same h

  read_policy-cases :
      (name : Text) (fault : Fault) (s : Store) (r : PolicyRow)
      → (lookup name s.policies ≡ none) ⊎ (lookup name s.policies ≡ some r)
      → let answer = read_answer fault (policy out.codec.hcl name s) in
        ((lookup name s.policies ≡ none) × ((p : StoredPolicy) → answer ≢ ok p))
        ⊎ ((lookup name s.policies ≡ some r) × (answer ≢ err not_found))
  unfolding read_answer policy scan_policy
  read_policy-cases name fine s r (inl gone) = inl (gone, λ p h. ground arith)
  read_policy-cases name lost s r (inl gone) = inl (gone, λ p h. cc)
  read_policy-cases name hidden s r (inl gone) = inl (gone, λ p h. cc)
  read_policy-cases name fine s r (inr kept) = inr (kept, λ h. ground arith)
  read_policy-cases name lost s r (inr kept) = inr (kept, λ h. cc)
  read_policy-cases name hidden s r (inr kept) = inr (kept, λ h. cc)

  settle-Synced :
      (stored : StoredPolicy) (r : PolicyRow) (w : World out)
      → Named w.db
      → valid_name stored.policy.name ≡ true
      → document_of r ≡ stored.policy
      → (lookup stored.policy.name w.db.policies ≡ none)
        ⊎ (lookup stored.policy.name w.db.policies ≡ some r)
      → SyncedBut out law stored.policy.name w
      → Synced out law (settle_failed_policy_delete out stored w).1
  unfolding settle_failed_policy_delete
  settle-Synced stored r w named valid same row h =
      let v = (read (policy out.codec.hcl stored.policy.name) w) in
      settle_read-Synced stored r v.1 v.0 named valid same
        (read_policy-cases stored.policy.name (head_fault w.faults) w.db r row) h

  row_deleted-Synced :
      (stored : StoredPolicy) (r : PolicyRow) (w : World out)
      (answer : Result StoreError (Unit {0}))
      → Named w.db
      → valid_name stored.policy.name ≡ true
      → document_of r ≡ stored.policy
      → (lookup stored.policy.name w.db.policies ≡ none)
        ⊎ ((lookup stored.policy.name w.db.policies ≡ some r) × (answer ≢ ok tt))
      → SyncedBut out law stored.policy.name w
      → Synced out law (row_deleted out stored answer w).1
  unfolding row_deleted
  row_deleted-Synced stored r w (ok u) named valid same (inl gone) h =
      SyncedBut-none out law stored.policy.name w gone h
  row_deleted-Synced stored r w (ok u) named valid same (inr (kept, failed)) h =
      absurd (failed refl)
  row_deleted-Synced stored r w (err e) named valid same (inl gone) h =
      settle-Synced stored r w named valid same (inl gone) h
  row_deleted-Synced stored r w (err e) named valid same (inr (kept, failed)) h =
      settle-Synced stored r w named valid same (inr kept) h

  -- The steps behind the answer of OpenBao.
  delete_row-Synced :
      (stored : StoredPolicy) (r : PolicyRow) (w : World out) (answer : Result Category (Unit {0}))
      → Named w.db
      → valid_name stored.policy.name ≡ true
      → document_of r ≡ stored.policy
      → lookup stored.policy.name w.db.policies ≡ some r
      → SyncedBut out law stored.policy.name w
      → Synced out law (delete_row out stored.policy.name stored answer w).1
  unfolding delete_row
  delete_row-Synced stored r w (err e) named valid same found h =
      restore-some-Synced out law stored.policy stored.policy r w named valid found same h
  delete_row-Synced stored r w (ok u) named valid same found h =
      let name = stored.policy.name in
      let v = write (checked (Policies.delete_policy name)) w in
      elim (delete-written name (head_fault w.faults) w.db) [
        | inl gone ↦
            let rows : v.1.db.policies ≡ remove name w.db.policies =
              ap (λ (s : Store). s.policies) gone in
            row_deleted-Synced stored r v.1 v.0
              (subst Named (sym gone) (remove-Named name w.db named)) valid same
              (inl (ground (arith, rows, lookup-remove name name w.db.policies, ==t_refl name)))
              (SyncedBut-rows out law name w v.1
                (λ k q other there. ground (arith, rows, lookup-remove name k w.db.policies)) refl
                refl h)
        | inr (kept, failed) ↦
            row_deleted-Synced stored r v.1 v.0 (subst Named (sym kept) named) valid same
              (inr (ap (λ (s : Store). lookup name s.policies) kept ∙ found, failed))
              (SyncedBut-rows out law name w v.1
                (λ k q other there. ap (λ (s : Store). lookup k s.policies) (sym kept) ∙ there) refl
                refl h)
      ]

  -- deletePolicy keeps OpenBao in step with the store, whatever OpenBao and the disk answer and
  -- whether a failed call took effect or not: where every stored policy stands under its own
  -- valid name, and every one was published with its text or the flag that blocks fresh
  -- credentials was set, every one is published or the flag is set afterwards.
  pub delete_policy-Synced :
      (name : Text) (w : World out)
      → Named w.db
      → Synced out law w
      → Synced out law (delete_policy out name w).1
  unfolding delete_policy
  delete_policy-Synced name w named h =
      let P : Result OperationError (Unit {0}) × World out → Type 0 = λ x. Synced out law x.1 in
      let reading = policy out.codec.hcl name in
      demand-elim P (valid_name name) (missing_policy out) w _ (λ bad. h)
        λ valid.
          continue-elim P (need (unread out) (read reading) w) _ (λ e failed. h)
            λ stored got.
              let (r, found, same) = policy-eq-ok out name w.db stored (
                read_answer-eq-ok (head_fault w.faults) (reading w.db)
                  (map_error-eq-ok (unread out) (read reading w).0 got)) in
              let w1 = (read reading w).1 in
              let listing = need (λ e. operation_error internal) (read (list_of (bindings []))) in
              continue-elim P (listing w1) _ (λ e failed. h)
                λ bs listed.
                  let w2 = (listing w1).1 in
                  demand-elim P (not (any (λ b. has_policy b name) bs)) (bound_policy out) w2 _
                    (λ bound. h)
                    λ free.
                      let e : stored.policy.name ≡ name =
                        ap (λ (p : Policy). p.name) (sym same) ∙ (named name r found).0 in
                      let valid' : valid_name stored.policy.name ≡ true =
                        subst (λ n. valid_name n ≡ true) (sym e) valid in
                      let call =
                        bao_call (out.manager.delete_policy (open_bao_policy_name stored.policy))
                          w2 in
                      subst (λ n. P (delete_row out n stored call.0 call.1)) e
                        (delete_row-Synced stored r call.1 call.0 named valid' same
                          (subst (λ n. lookup n w.db.policies ≡ some r) (sym e) found)
                          (delete-SyncedBut out law stored.policy w2 named valid'
                            (Synced-SyncedBut out law stored.policy.name w2 h)))
