-- ===== src/Controller/Renaming.antt =====
-- internal/controller/policy_rename.go: renaming a policy.
use wyrwood.Base.{ℕ, ◌+◌, ◌&&◌, Option, none, some, List, [], ◌∷◌, ◌==◌, if◌then◌else◌}
use wyrwood.Base.Text.{Text, ◌==t◌}
use wyrwood.Base.Errors.{Result, ok, err}
use wyrwood.Base.Sort.{add_name}
use wyrwood.Policy.Types.{Policy}
use wyrwood.Policy.Patterns.{open_bao_policy_name, valid_name}
use wyrwood.Store.Tables.{StoreError, not_found}
use wyrwood.Store.Policies
use wyrwood.Store.Policies.{
  StoredPolicy, policy, next_policy_generation, record_policy_retirement, forget_policy_retirement,
}
use wyrwood.Controller.Errors.{
  Category, Trouble, OperationError, operation_error, open_bao_error, internal,
}
use wyrwood.Controller.World.{
  Outside, Op, read, write, ◌>>=◌, ◌>>◌, done, fail, demand, need, attempt,
}
use wyrwood.Controller.Composing.{list_of, renamed_bindings, preflight, agents_of}
use wyrwood.Controller.Publishing.{publish, change_of, remove_policy_identity}
use wyrwood.Controller.Changes.{Saved, denied, unread, missing_policy, apply_all}
use wyrwood.Controller.Retiring.{Settled, joined_category, settle_policy_retirements}

-- PolicyRename
pub record PolicyRename : Type 0 where
  pub old_name : Text
  pub new_name : Text
  pub revision : ℕ
  pub generation : ℕ

abbrev broken_off : OperationError
broken_off = operation_error internal

abbrev union : List Text → List Text → List Text
union [] bs = bs
union (a ∷ more) bs = add_name a (union more bs)

-- The error of a rename whose retirement is pending.
abbrev pending_removal : List Trouble → Option OperationError
pending_removal [] = none
pending_removal (t ∷ ts) = some (operation_error (open_bao_error (joined_category (t ∷ ts))))

module _ (out : Outside) where
  -- What publishRenamed does once OpenBao has answered.
  unfoldable pub publish_settled :
      Text → Result Category (Unit {0}) → Op out OperationError (Unit {0})
  unfolding remove_policy_identity
  publish_settled identity (ok u) = done u
  publish_settled identity (err Category.invalid) =
      attempt (write (change_of (forget_policy_retirement identity))) >>= λ r.
      fail (operation_error (open_bao_error Category.invalid))
  publish_settled identity (err e) = attempt (remove_policy_identity out identity) >>= λ r.
      fail (operation_error (open_bao_error e))

  -- publishRenamed
  unfoldable pub publish_renamed : Policy → ℕ → Op out OperationError (Unit {0})
  unfolding publish publish_settled
  publish_renamed document now = do
    let identity = open_bao_policy_name document
    need (λ e. broken_off) (write (change_of (record_policy_retirement identity now)))
    answer ← attempt (publish out document)
    publish_settled identity answer

  -- A rename that did not commit.
  unfoldable pub undone : Policy → Op out OperationError (Unit {0})
  unfolding remove_policy_identity
  undone document =
      attempt (remove_policy_identity out (open_bao_policy_name document)) >>= λ r. fail broken_off

  -- settleFailedRename, on what the store reads
  unfoldable pub settle_rename_read :
      Policy → Result StoreError StoredPolicy → Op out OperationError (Unit {0})
  unfolding undone
  settle_rename_read document (ok stored) =
      if stored.policy.generation == document.generation then done tt else undone document
  settle_rename_read document (err not_found) = undone document
  settle_rename_read document (err _) = fail broken_off

  -- settleFailedRename
  unfoldable pub settle_failed_rename : Policy → Op out OperationError (Unit {0})
  unfolding settle_rename_read
  settle_failed_rename document =
      attempt (read (policy out.codec.hcl document.name)) >>= settle_rename_read document

  -- Whether the new name is free.
  abbrev name_free : Result StoreError StoredPolicy → Op out OperationError (Unit {0})
  name_free (ok _) = fail denied
  name_free (err not_found) = done tt
  name_free (err _) = fail broken_off

  unfoldable pub row_renamed : Policy → Result StoreError Policy → Op out OperationError Policy
  unfolding settle_failed_rename
  row_renamed document (ok renamed) = done renamed
  row_renamed document (err _) = settle_failed_rename document >>= λ u. done document

  abbrev settled_as : Policy → List Text → Result Trouble Settled → Op out OperationError Saved
  settled_as renamed agents (ok s) = done (record {
    policy = renamed;
    agents = union s.agents agents;
    problem = pending_removal s.failures;
  })
  settled_as renamed agents (err t) =
      done (record { policy = renamed; agents = agents; problem = pending_removal (t ∷ []) })

  -- What follows the transitions: the retirements, where none of them is pending.
  unfoldable pub renamed_as :
      Policy → List Text → Option OperationError → Op out OperationError Saved
  unfolding settle_policy_retirements
  renamed_as renamed agents (some e) =
      done (record { policy = renamed; agents = agents; problem = some e })
  renamed_as renamed agents none =
      attempt (settle_policy_retirements out) >>= settled_as renamed agents

  -- The document under its new name, from its checks to the retirements.
  unfoldable pub rename_to : PolicyRename → Policy → Text → ℕ → Op out OperationError Saved
  unfolding renamed_bindings preflight publish_renamed row_renamed apply_all agents_of renamed_as
  rename_to request stored by now = do
    demand ((request.revision == stored.revision) && (request.generation == stored.generation))
        denied
    other ← attempt (read (policy out.codec.hcl request.new_name))
    name_free other
    next ← need (λ e. broken_off) (read (list_of (next_policy_generation request.new_name)))
    let document = record stored {
      name = request.new_name;
      generation = next;
      revision = stored.revision + 1;
    }
    affected ← renamed_bindings out request.old_name document
    preflight out affected
    publish_renamed document now
    committed ←
        attempt
          (write (Policies.rename_policy out.codec.hcl request.old_name document affected by now))
    renamed ← row_renamed document committed
    problem ← apply_all out affected none
    renamed_as renamed (agents_of affected) problem

  unfoldable pub rename_stored :
      PolicyRename → Text → ℕ → StoredPolicy → Op out OperationError Saved
  unfolding rename_to
  rename_stored request by now stored =
      if request.new_name ==t request.old_name
      then done (record { policy = stored.policy; agents = []; problem = none })
      else rename_to request stored.policy by now

  -- renamePolicy
  unfoldable pub rename_policy : PolicyRename → Text → ℕ → Op out OperationError Saved
  unfolding rename_stored
  rename_policy request by now = do
    demand (valid_name request.old_name) (missing_policy out)
    stored ← need (unread out) (read (policy out.codec.hcl request.old_name))
    demand (valid_name request.new_name) denied
    rename_stored request by now stored
