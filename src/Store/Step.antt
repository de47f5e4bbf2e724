-- ===== src/Store/Step.antt =====
-- The calls that change the controller's database, as steps between its states.
use wyrwood.Base.{ℕ, ◌≡◌, Bool, List}
use wyrwood.Base.Text.{Text}
use wyrwood.Base.Errors.{ok}
use wyrwood.Policy.Types.{Policy}
use wyrwood.Policy.Hcl.{Hcl}
use wyrwood.Protocol.Types.{Container, ContractResult}
use wyrwood.Store.Tables.{AgentState, Agent, OperatorKey, Grant, OperatorRow, WebSession, Store}
use wyrwood.Store.Agents.{record_key, decide_agent, record_connection}
use wyrwood.Store.OperatorKeys.{
  record_operator_key, approve_operator_key, reject_operator_key, revoke_operator_key,
  record_operator_key_use,
}
use wyrwood.Store.Sessions.{
  record_operator, create_session, delete_session, delete_other_sessions, prune_sessions,
}
use wyrwood.Store.Policies.{
  save_policy_bindings, delete_policy, record_policy_retirement, forget_policy_retirement,
  rename_policy,
}
use wyrwood.Store.Bindings.{
  Binding, create_binding, change_binding, mark_binding_applied, retire_binding,
}
use wyrwood.Store.Reports.{
  save_inventory, save_token_accessor, save_assignment_accessor, save_contract_result,
}

pub data Step (hcl : Hcl) (s t : Store) : Type 0 where
  key_recorded :
      (f n k : Text) (now : ℕ) (a : Agent) → record_key f n k now s ≡ ok (a, t) → Step hcl s t
  agent_decided :
      (f : Text) (state : AgentState) (by : Text) (now : ℕ) (a : Agent)
      → decide_agent f state by now s ≡ ok (a, t)
      → Step hcl s t
  connection_recorded :
      (f v : Text) (allow : Bool) (now : ℕ) → t ≡ record_connection f v allow now s → Step hcl s t
  operator_key_recorded :
      (f l k : Text) (now : ℕ) (o : OperatorKey)
      → record_operator_key f l k now s ≡ ok (o, t)
      → Step hcl s t
  operator_key_approved :
      (f l : Text) (g : Grant) (by : Text) (now : ℕ) (o : OperatorKey)
      → approve_operator_key f l g by now s ≡ ok (o, t)
      → Step hcl s t
  operator_key_rejected :
      (f by : Text) (now : ℕ) (o : OperatorKey)
      → reject_operator_key f by now s ≡ ok (o, t)
      → Step hcl s t
  operator_key_revoked :
      (f by : Text) (now : ℕ) (o : OperatorKey)
      → revoke_operator_key f by now s ≡ ok (o, t)
      → Step hcl s t
  operator_key_used : (f : Text) (now : ℕ) → t ≡ record_operator_key_use f now s → Step hcl s t
  operator_recorded : (f : Text) (o : OperatorRow) → t ≡ record_operator f o s → Step hcl s t
  session_created : (h : Text) (w : WebSession) → create_session h w s ≡ ok (tt, t) → Step hcl s t
  session_deleted : (h : Text) → t ≡ delete_session h s → Step hcl s t
  sessions_deleted : (subject kept : Text) → t ≡ delete_other_sessions subject kept s → Step hcl s t
  sessions_pruned : (now : ℕ) → t ≡ prune_sessions now s → Step hcl s t
  policy_saved :
      (d : Policy) (bs : List Binding) (by : Text) (now : ℕ) (p : Policy)
      → save_policy_bindings d bs by now s ≡ ok (p, t)
      → Step hcl s t
  policy_deleted : (n : Text) → delete_policy n s ≡ ok t → Step hcl s t
  policy_renamed :
      (old : Text) (d : Policy) (bs : List Binding) (by : Text) (now : ℕ) (p : Policy)
      → rename_policy hcl old d bs by now s ≡ ok (p, t)
      → Step hcl s t
  retirement_recorded : (i : Text) (now : ℕ) → t ≡ record_policy_retirement i now s → Step hcl s t
  retirement_forgotten : (i : Text) → t ≡ forget_policy_retirement i s → Step hcl s t
  binding_created : (b : Binding) → create_binding b s ≡ ok t → Step hcl s t
  binding_changed : (b : Binding) → change_binding b s ≡ ok t → Step hcl s t
  binding_applied : (id : Text) → t ≡ mark_binding_applied id s → Step hcl s t
  binding_retired :
      (id : Text) (now : ℕ) (a : Text) → retire_binding id now s ≡ ok (a, t) → Step hcl s t
  inventory_saved :
      (a f : Text) (cs : List Container) (now : ℕ) → t ≡ save_inventory a f cs now s → Step hcl s t
  token_saved : (id a : Text) (now : ℕ) → save_token_accessor id a now s ≡ ok t → Step hcl s t
  assignment_token_saved :
      (b : Binding) (a : Text) (now : ℕ) → save_assignment_accessor b a now s ≡ ok t → Step hcl s t
  result_saved : (r : ContractResult) (now : ℕ) → save_contract_result r now s ≡ ok t → Step hcl s t

-- What follows from a state by any calls in any order.
pub data Reach (hcl : Hcl) (s : Store) : Store → Type 0 where
  here : Reach hcl s s
  next : {t u : Store} → Reach hcl s t → Step hcl t u → Reach hcl s u
