-- ===== src/Store/KeyHistory.antt =====
-- What every later state of the database keeps of an operator key.
use wyrwood.Base.{◌≡◌, refl, true, false, some, arith}
use wyrwood.Base.Text.{Text}
use wyrwood.Base.Assoc.{lookup}
use wyrwood.Policy.Hcl.{Hcl}
use wyrwood.Store.Tables.{Store, OperatorKey}
use wyrwood.Store.OperatorKeys.{is_pending}
use wyrwood.Store.KeyLife.{
  may_become, OperatorKeysLater, KeysLater-same, KeysLater-trans, same, framed,
  record_operator_key-KeysLater, approve_operator_key-KeysLater, reject_operator_key-KeysLater,
  revoke_operator_key-KeysLater, record_operator_key_use-KeysLater,
}
use wyrwood.Store.Agents.{record_key, decide_agent, record_connection}
use wyrwood.Store.Reports.{
  save_inventory, save_token_accessor, save_assignment_accessor, save_contract_result,
}
use wyrwood.Store.Sessions.{
  record_operator, create_session, delete_session, delete_other_sessions, prune_sessions,
}
use wyrwood.Store.Policies.{record_policy_retirement, forget_policy_retirement}
use wyrwood.Store.Frames.{
  save_policy_bindings-SameKeys, rename_policy-SameKeys, delete_policy-SameKeys,
  mark_binding_applied-SameKeys, retire_binding-SameKeys, create_binding-SameKeys,
  change_binding-SameKeys,
}
use wyrwood.Store.Step.{
  Step, Reach, here, next, key_recorded, agent_decided, connection_recorded, operator_key_recorded,
  operator_key_approved, operator_key_rejected, operator_key_revoked, operator_key_used,
  operator_recorded, session_created, session_deleted, sessions_deleted, sessions_pruned,
  policy_saved, policy_deleted, policy_renamed, retirement_recorded, retirement_forgotten,
  binding_created, binding_changed, binding_applied, binding_retired, inventory_saved, token_saved,
  assignment_token_saved, result_saved,
}

module _ (hcl : Hcl) where
  Step-KeysLater : {s t : Store} → Step hcl s t → OperatorKeysLater s t
  unfolding record_operator create_session delete_session delete_other_sessions prune_sessions
      record_policy_retirement forget_policy_retirement save_token_accessor save_assignment_accessor
      save_contract_result record_key decide_agent record_connection save_inventory
  Step-KeysLater {s} {t} (key_recorded f n k now a e) = same s t (ground arith)
  Step-KeysLater {s} {t} (agent_decided f state by now a e) = same s t (ground arith)
  Step-KeysLater {s} {t} (connection_recorded f v allow now e) = same s t (ground arith)
  Step-KeysLater {s} {t} (operator_recorded f o e) = same s t (ground arith)
  Step-KeysLater {s} {t} (session_created x w e) = same s t (ground arith)
  Step-KeysLater {s} {t} (session_deleted x e) = same s t (ground arith)
  Step-KeysLater {s} {t} (sessions_deleted x k e) = same s t (ground arith)
  Step-KeysLater {s} {t} (sessions_pruned now e) = same s t (ground arith)
  Step-KeysLater {s} {t} (retirement_recorded i now e) = same s t (ground arith)
  Step-KeysLater {s} {t} (retirement_forgotten i e) = same s t (ground arith)
  Step-KeysLater {s} {t} (inventory_saved a f cs now e) = same s t (ground arith)
  Step-KeysLater {s} {t} (token_saved id a now e) = same s t (ground arith)
  Step-KeysLater {s} {t} (assignment_token_saved b a now e) = same s t (ground arith)
  Step-KeysLater {s} {t} (result_saved r now e) = same s t (ground arith)
  Step-KeysLater {s} {t} (operator_key_recorded f l k now o e) =
      record_operator_key-KeysLater s t f l k now o e
  Step-KeysLater {s} {t} (operator_key_approved f l g by now o e) =
      approve_operator_key-KeysLater s t f l g by now o e
  Step-KeysLater {s} {t} (operator_key_rejected f by now o e) =
      reject_operator_key-KeysLater s t f by now o e
  Step-KeysLater {s} {t} (operator_key_revoked f by now o e) =
      revoke_operator_key-KeysLater s t f by now o e
  Step-KeysLater {s} {t} (operator_key_used f now e) = record_operator_key_use-KeysLater s t f now e
  Step-KeysLater {s} {t} (policy_saved d bs by now p e) =
      framed s t (save_policy_bindings-SameKeys s t d bs by now p e)
  Step-KeysLater {s} {t} (policy_deleted n e) = framed s t (delete_policy-SameKeys s t n e)
  Step-KeysLater {s} {t} (policy_renamed old d bs by now p e) =
      framed s t (rename_policy-SameKeys s t hcl old d bs by now p e)
  Step-KeysLater {s} {t} (binding_created b e) = framed s t (create_binding-SameKeys s t b e)
  Step-KeysLater {s} {t} (binding_changed b e) = framed s t (change_binding-SameKeys s t b e)
  Step-KeysLater {s} {t} (binding_applied id e) =
      framed s t (mark_binding_applied-SameKeys s t id e)
  Step-KeysLater {s} {t} (binding_retired id now a e) =
      framed s t (retire_binding-SameKeys s t id now a e)

  Reach-KeysLater : {s u : Store} → Reach hcl s u → OperatorKeysLater s u
  Reach-KeysLater {s} here = KeysLater-same s.operator_keys s.operator_keys refl
  Reach-KeysLater {s} {u} (next {t} r st) =
      KeysLater-trans s.operator_keys t.operator_keys u.operator_keys (Reach-KeysLater r)
        (Step-KeysLater st)

  -- No call takes back a decision on an operator key: whatever calls follow in whatever order, a
  -- rejected key stays rejected, a revoked key stays revoked, an approved key stays approved or is
  -- revoked, and its public key, its label and its grant stay.
  pub decision_kept :
      {s t : Store}
      → Reach hcl s t
      → (f : Text) (old : OperatorKey) → lookup f s.operator_keys ≡ some old
      → is_pending old.state ≡ false
      → (new : OperatorKey) × (lookup f t.operator_keys ≡ some new)
        × (may_become old.state new.state ≡ true)
        × (new.public_key ≡ old.public_key)
        × (new.label ≡ old.label)
        × (new.grant ≡ old.grant)
  decision_kept r f old l decided =
      let (new, found, later) = Reach-KeysLater r f old l in
      (new, found, later.states, later.key, later.label decided, later.grant decided)
