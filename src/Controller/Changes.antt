-- ===== src/Controller/Changes.antt =====
-- internal/controller/operations.go and policy_delete.go: saving and deleting a policy.
use wyrwood.Base.{
  ℕ, ◌+◌, ◌⊎◌, inl, inr, Bool, true, false, not, Option, none, some, List, [], ◌∷◌, any,
  if◌then◌else◌,
}
use wyrwood.Base.Text.{Text}
use wyrwood.Base.Errors.{Result, ok, err}
use wyrwood.Policy.Types.{Policy, part_of, open_bao, ssh, transit_keys, ca_roles}
use wyrwood.Policy.Patterns.{open_bao_policy_name, valid_name}
use wyrwood.Policy.Validate.{Check, validate_policy}
use wyrwood.Store.Tables.{StoreError, not_found}
use wyrwood.Store.Policies
use wyrwood.Store.Policies.{StoredPolicy, policy, next_policy_generation, save_policy_bindings}
use wyrwood.Store.Bindings.{Binding, bindings, has_policy}
use wyrwood.Controller.Errors.{
  Category, Trouble, OperationError, operation_error, part_error, open_bao_error, category_of,
  policy_denied, internal,
}
use wyrwood.Controller.World.{
  Outside, Op, read, write, bao_call, ◌>>=◌, ◌>>◌, done, fail, demand, need, attempt,
}
use wyrwood.Controller.Composing.{list_of, affected_bindings, preflight, agents_of}
use wyrwood.Controller.Publishing.{publish, restore_policy, apply_binding, set_pending, checked}

-- What a change of a policy gives once it is stored: the policy, the agents whose bindings it
-- changed, and the error of a transition that is pending.
pub record Saved : Type 0 where
  pub policy : Policy
  pub agents : List Text
  pub problem : Option OperationError

abbrev pub denied : OperationError
denied = operation_error policy_denied

abbrev pub without_revision : Policy → Policy
without_revision p = record p { revision = 0 }

abbrev pub stored_policy : Result StoreError StoredPolicy → Option Policy
stored_policy (ok s) = some s.policy
stored_policy (err _) = none

module _ (out : Outside) where
  abbrev pub checked_by : Check → Op out OperationError (Unit {0})
  checked_by (ok u) = done u
  checked_by (err p) = fail (part_error (part_of p) policy_denied)

  abbrev pub confirmed : Result Category Bool → Bool
  confirmed (ok exists) = exists
  confirmed (err _) = false

  -- The loops of savePolicy over the identities that a document offers.
  unfoldable pub confirm :
      (Text → Op out Category Bool) → List Text → Op out OperationError (Unit {0})
  confirm exists [] = done tt
  confirm exists (n ∷ ns) = do
    answer ← attempt (exists n)
    demand (confirmed answer) (part_error (some ssh) policy_denied)
    confirm exists ns

  -- The document that savePolicy is to store, or the stored one where nothing but the revision
  -- would change.
  unfoldable pub planned :
      Policy → Result StoreError StoredPolicy → Op out OperationError (Policy ⊎ Policy)
  planned document (ok old) =
      let candidate = record document { generation = old.policy.generation } in
      if out.deep_equal (without_revision old.policy) (without_revision candidate)
      then done (inl old.policy)
      else done (inr (record candidate { revision = old.policy.revision + 1 }))
  planned document (err not_found) = do
    next ← need (λ e. denied) (read (list_of (next_policy_generation document.name)))
    done (inr (record document { generation = next; revision = 1 }))
  planned document (err _) = fail denied

  -- A publication that did not become durable.
  unfoldable pub rolled_back {ℓ} : {A : Type ℓ} → Policy → Option Policy → Op out OperationError A
  unfolding restore_policy
  rolled_back document previous =
      attempt (restore_policy out document previous) >>= λ r. fail denied

  abbrev pub transition_error :
      Result Trouble (Unit {0}) → Option OperationError → Option OperationError
  transition_error (ok _) earlier = earlier
  transition_error (err t) earlier = some (operation_error (open_bao_error (category_of t)))

  -- The loop over the changed bindings behind a commit.
  unfoldable pub apply_all :
      List Binding → Option OperationError → Op out OperationError (Option OperationError)
  unfolding apply_binding
  apply_all [] problem = done problem
  apply_all (b ∷ bs) problem = do
    r ← attempt (apply_binding out b)
    apply_all bs (transition_error r problem)

  unfoldable pub saved_as : List Binding → Policy → Op out OperationError Saved
  unfolding apply_all agents_of
  saved_as affected saved = do
    problem ← apply_all affected none
    done (record { policy = saved; agents = agents_of affected; problem = problem })

  -- What savePolicy does once the store has answered.
  unfoldable pub row_saved :
      Policy → Option Policy → List Binding → Result StoreError Policy → Op out OperationError Saved
  unfolding rolled_back saved_as
  row_saved document previous affected (ok saved) = saved_as affected saved
  row_saved document previous affected (err _) = rolled_back document previous

  -- What savePolicy does once OpenBao has answered.
  unfoldable pub stored_as :
      Policy
      → Option Policy
      → List Binding
      → Text
      → ℕ
      → Result Category (Unit {0})
      → Op out OperationError Saved
  unfolding rolled_back row_saved
  stored_as document previous affected by now (err Category.invalid) =
      fail (part_error (some open_bao) policy_denied)
  stored_as document previous affected by now (err _) = rolled_back document previous
  stored_as document previous affected by now (ok _) = do
    saved ← attempt (write (save_policy_bindings document affected by now))
    row_saved document previous affected saved

  unfoldable pub publish_and_store : Policy → Option Policy → Text → ℕ → Op out OperationError Saved
  unfolding stored_as publish affected_bindings preflight
  publish_and_store document previous by now = do
    bs ← need (λ e. denied) (read (list_of (bindings [])))
    affected ← affected_bindings out document bs
    preflight out affected
    published ← attempt (publish out document)
    stored_as document previous affected by now published

  unfoldable pub carry_out :
      Option Policy → Text → ℕ → Policy ⊎ Policy → Op out OperationError Saved
  unfolding publish_and_store
  carry_out previous by now (inl unchanged) =
      done (record { policy = unchanged; agents = []; problem = none })
  carry_out previous by now (inr next) = publish_and_store next previous by now

  -- savePolicy
  unfoldable pub save_policy : Policy → Text → ℕ → Op out OperationError Saved
  unfolding confirm planned carry_out
  save_policy document by now = do
    checked_by (validate_policy out.codec.hcl document)
    confirm (λ n. bao_call (out.manager.transit_key_exists n)) (transit_keys document)
    confirm (λ n. bao_call (out.manager.ssh_role_exists n)) (ca_roles document)
    old ← attempt (read (policy out.codec.hcl document.name))
    plan ← planned document old
    carry_out (stored_policy old) by now plan

  abbrev pub missing_policy : OperationError
  missing_policy = record denied { policy_missing = true }

  abbrev pub bound_policy : OperationError
  bound_policy = record denied { policy_bound = true }

  -- settleFailedPolicyDelete, on what the store reads
  unfoldable pub settle_read :
      StoredPolicy → Result StoreError StoredPolicy → Op out OperationError (Unit {0})
  unfolding restore_policy
  settle_read stored (err not_found) w = done tt w
  settle_read stored (err _) w = fail (operation_error internal) (set_pending out true w)
  settle_read stored (ok _) w =
      (attempt (restore_policy out stored.policy (some stored.policy)) >>= λ r.
      fail (operation_error internal))
        w

  -- settleFailedPolicyDelete
  unfoldable pub settle_failed_policy_delete : StoredPolicy → Op out OperationError (Unit {0})
  unfolding settle_read
  settle_failed_policy_delete stored = do
    again ← attempt (read (policy out.codec.hcl stored.policy.name))
    settle_read stored again

  -- What deletePolicy does once the store has answered.
  unfoldable pub row_deleted :
      StoredPolicy → Result StoreError (Unit {0}) → Op out OperationError (Unit {0})
  unfolding settle_failed_policy_delete
  row_deleted stored (ok u) = done u
  row_deleted stored (err _) = settle_failed_policy_delete stored

  -- What deletePolicy does once OpenBao has answered.
  unfoldable pub delete_row :
      Text → StoredPolicy → Result Category (Unit {0}) → Op out OperationError (Unit {0})
  unfolding restore_policy row_deleted
  delete_row name stored (err e) =
      attempt (restore_policy out stored.policy (some stored.policy)) >>= λ r.
      fail (operation_error (open_bao_error e))
  delete_row name stored (ok _) = do
    deleted ← attempt (write (checked (Policies.delete_policy name)))
    row_deleted stored deleted

  -- The error of a policy that cannot be read.
  abbrev pub unread : StoreError → OperationError
  unread not_found = missing_policy
  unread _ = operation_error internal

  -- deletePolicy
  unfoldable pub delete_policy : Text → Op out OperationError (Unit {0})
  unfolding delete_row
  delete_policy name = do
    demand (valid_name name) missing_policy
    stored ← need unread (read (policy out.codec.hcl name))
    bs ← need (λ e. operation_error internal) (read (list_of (bindings [])))
    demand (not (any (λ b. has_policy b name) bs)) bound_policy
    answer ← attempt (bao_call (out.manager.delete_policy (open_bao_policy_name stored.policy)))
    delete_row name stored answer
