-- ===== src/Store/KeyLists.antt =====
-- No key is on the list of agents and on the list of operator keys.
use wyrwood.Base.{ℕ, ◌≡◌, refl, Bool, none, some, List, arith, Option-cases, inl, inr}
use wyrwood.Base.Text.{Text, ==t_iff}
use wyrwood.Base.Assoc.{lookup, insert, lookup-insert}
use wyrwood.Base.Errors.{ok}
use wyrwood.Policy.Hcl.{Hcl}
use wyrwood.Protocol.Types.{Container}
use wyrwood.Store.Tables.{Store, Agent, AgentState, OperatorKey, Grant, empty}
use wyrwood.Store.Agents.{record_key, decide_agent, record_connection}
use wyrwood.Store.OperatorKeys.{
  record_operator_key, approve_operator_key, reject_operator_key, revoke_operator_key,
  record_operator_key_use,
}
use wyrwood.Store.Sessions.{
  record_operator, create_session, delete_session, delete_other_sessions, prune_sessions,
}
use wyrwood.Store.Policies.{record_policy_retirement, forget_policy_retirement}
use wyrwood.Store.Reports.{
  save_inventory, save_token_accessor, save_assignment_accessor, save_contract_result,
}
use wyrwood.Store.Frames.{
  SameKeys, save_policy_bindings-SameKeys, rename_policy-SameKeys, delete_policy-SameKeys,
  mark_binding_applied-SameKeys, retire_binding-SameKeys, create_binding-SameKeys,
  change_binding-SameKeys,
}
use wyrwood.Store.Step.{
  Step, Reach, here, next, key_recorded, agent_decided, connection_recorded, operator_key_recorded,
  operator_key_approved, operator_key_rejected, operator_key_revoked, operator_key_used,
  operator_recorded, session_created, session_deleted, sessions_deleted, sessions_pruned,
  policy_saved, policy_deleted, policy_renamed, retirement_recorded, retirement_forgotten,
  binding_created, binding_changed, binding_applied, binding_retired, inventory_saved, token_saved,
  assignment_token_saved, result_saved,
}

abbrev pub KeysDisjoint : Store → Type 0
KeysDisjoint s =
    (f : Text) (a : Agent) → lookup f s.agents ≡ some a → lookup f s.operator_keys ≡ none

module _ (s t : Store) (h : KeysDisjoint s) where
  -- An operation that leaves both lists alone.
  unchanged : t.agents ≡ s.agents → t.operator_keys ≡ s.operator_keys → KeysDisjoint t
  unchanged e e' f a l = rw e' (h f a (rw e at l))

  -- An operation that writes a row again.
  same : SameKeys s t → KeysDisjoint t
  same k = unchanged k.agents k.operator_keys

  agent_updated :
      (f : Text) (old new : Agent)
      → lookup f s.agents ≡ some old
      → t.agents ≡ insert f new s.agents
      → t.operator_keys ≡ s.operator_keys
      → KeysDisjoint t
  agent_updated f old new found e e' g b l =
      ground (arith, h g b, h f old, lookup-insert f g new s.agents, ==t_iff f g)

  operator_key_updated :
      (f : Text) (old new : OperatorKey)
      → lookup f s.operator_keys ≡ some old
      → t.operator_keys ≡ insert f new s.operator_keys
      → t.agents ≡ s.agents
      → KeysDisjoint t
  operator_key_updated f old new found e e' g b l =
      ground (arith, h g b, lookup-insert f g new s.operator_keys, ==t_iff f g)

  record_key-KeysDisjoint :
      (f n k : Text) (now : ℕ) (a : Agent) → record_key f n k now s ≡ ok (a, t) → KeysDisjoint t
  unfolding record_key
  record_key-KeysDisjoint f n k now a e g b l =
      ground (arith, h g b, lookup-insert f g a s.agents, ==t_iff f g)

  record_operator_key-KeysDisjoint :
      (f l k : Text) (now : ℕ) (o : OperatorKey)
      → record_operator_key f l k now s ≡ ok (o, t)
      → KeysDisjoint t
  unfolding record_operator_key
  record_operator_key-KeysDisjoint f l k now o e g b found =
      ground (arith, h g b, lookup-insert f g o s.operator_keys, ==t_iff f g)

  decide_agent-KeysDisjoint :
      (f : Text) (state : AgentState) (by : Text) (now : ℕ) (a : Agent)
      → decide_agent f state by now s ≡ ok (a, t)
      → KeysDisjoint t
  unfolding decide_agent
  decide_agent-KeysDisjoint f state by now a e = elim (Option-cases (lookup f s.agents)) [
    | inl missing ↦ λ g b l. ground arith
    | inr (old, found) ↦ agent_updated f old a found (ground arith) (ground arith)
  ]

  approve_operator_key-KeysDisjoint :
      (f l : Text) (g : Grant) (by : Text) (now : ℕ) (o : OperatorKey)
      → approve_operator_key f l g by now s ≡ ok (o, t)
      → KeysDisjoint t
  unfolding approve_operator_key
  approve_operator_key-KeysDisjoint f l g by now o e =
      elim (Option-cases (lookup f s.operator_keys)) [
        | inl missing ↦ λ g b l. ground arith
        | inr (old, found) ↦ operator_key_updated f old o found (ground arith) (ground arith)
      ]

  reject_operator_key-KeysDisjoint :
      (f by : Text) (now : ℕ) (o : OperatorKey)
      → reject_operator_key f by now s ≡ ok (o, t)
      → KeysDisjoint t
  unfolding reject_operator_key
  reject_operator_key-KeysDisjoint f by now o e = elim (Option-cases (lookup f s.operator_keys)) [
    | inl missing ↦ λ g b l. ground arith
    | inr (old, found) ↦ operator_key_updated f old o found (ground arith) (ground arith)
  ]

  revoke_operator_key-KeysDisjoint :
      (f by : Text) (now : ℕ) (o : OperatorKey)
      → revoke_operator_key f by now s ≡ ok (o, t)
      → KeysDisjoint t
  unfolding revoke_operator_key
  revoke_operator_key-KeysDisjoint f by now o e = elim (Option-cases (lookup f s.operator_keys)) [
    | inl missing ↦ λ g b l. ground arith
    | inr (old, found) ↦ operator_key_updated f old o found (ground arith) (ground arith)
  ]

  record_connection-KeysDisjoint :
      (f v : Text) (allow : Bool) (now : ℕ) → t ≡ record_connection f v allow now s → KeysDisjoint t
  unfolding record_connection
  record_connection-KeysDisjoint f v allow now e = elim (Option-cases (lookup f s.agents)) [
    | inl missing ↦ unchanged (ground arith) (ground arith)
    | inr (old, found) ↦
        agent_updated f old
          (record old { agent_version = v; allow_recreate = allow; last_connected = some now })
          found (ground arith) (ground arith)
  ]

  record_operator_key_use-KeysDisjoint :
      (f : Text) (now : ℕ) → t ≡ record_operator_key_use f now s → KeysDisjoint t
  unfolding record_operator_key_use
  record_operator_key_use-KeysDisjoint f now e = elim (Option-cases (lookup f s.operator_keys)) [
    | inl missing ↦ unchanged (ground arith) (ground arith)
    | inr (old, found) ↦
        operator_key_updated f old (record old { last_used = some now }) found (ground arith)
          (ground arith)
  ]

  save_inventory-KeysDisjoint :
      (a f : Text) (cs : List Container) (now : ℕ)
      → t ≡ save_inventory a f cs now s
      → KeysDisjoint t
  unfolding save_inventory
  save_inventory-KeysDisjoint a f cs now e = elim (Option-cases (lookup f s.agents)) [
    | inl missing ↦ unchanged (ground arith) (ground arith)
    | inr (old, found) ↦
        agent_updated f old (record old { last_report = some now }) found (ground arith)
          (ground arith)
  ]

module _ (hcl : Hcl) where
  -- Every call that changes the database keeps the two lists of keys apart: no fingerprint is on
  -- the list of agents and on the list of operator keys.
  pub Step-KeysDisjoint : {s t : Store} → Step hcl s t → KeysDisjoint s → KeysDisjoint t
  unfolding record_operator create_session delete_session delete_other_sessions prune_sessions
      record_policy_retirement forget_policy_retirement save_token_accessor save_assignment_accessor
      save_contract_result
  Step-KeysDisjoint {s} {t} (key_recorded f n k now a e) h =
      record_key-KeysDisjoint s t h f n k now a e
  Step-KeysDisjoint {s} {t} (agent_decided f state by now a e) h =
      decide_agent-KeysDisjoint s t h f state by now a e
  Step-KeysDisjoint {s} {t} (connection_recorded f v allow now e) h =
      record_connection-KeysDisjoint s t h f v allow now e
  Step-KeysDisjoint {s} {t} (operator_key_recorded f l k now o e) h =
      record_operator_key-KeysDisjoint s t h f l k now o e
  Step-KeysDisjoint {s} {t} (operator_key_approved f l g by now o e) h =
      approve_operator_key-KeysDisjoint s t h f l g by now o e
  Step-KeysDisjoint {s} {t} (operator_key_rejected f by now o e) h =
      reject_operator_key-KeysDisjoint s t h f by now o e
  Step-KeysDisjoint {s} {t} (operator_key_revoked f by now o e) h =
      revoke_operator_key-KeysDisjoint s t h f by now o e
  Step-KeysDisjoint {s} {t} (operator_key_used f now e) h =
      record_operator_key_use-KeysDisjoint s t h f now e
  Step-KeysDisjoint {s} {t} (operator_recorded f o e) h =
      unchanged s t h (ground arith) (ground arith)
  Step-KeysDisjoint {s} {t} (session_created x w e) h =
      unchanged s t h (ground arith) (ground arith)
  Step-KeysDisjoint {s} {t} (session_deleted x e) h = unchanged s t h (ground arith) (ground arith)
  Step-KeysDisjoint {s} {t} (sessions_deleted x k e) h =
      unchanged s t h (ground arith) (ground arith)
  Step-KeysDisjoint {s} {t} (sessions_pruned now e) h =
      unchanged s t h (ground arith) (ground arith)
  Step-KeysDisjoint {s} {t} (policy_saved d bs by now p e) h =
      same s t h (save_policy_bindings-SameKeys s t d bs by now p e)
  Step-KeysDisjoint {s} {t} (policy_deleted n e) h = same s t h (delete_policy-SameKeys s t n e)
  Step-KeysDisjoint {s} {t} (policy_renamed old d bs by now p e) h =
      same s t h (rename_policy-SameKeys s t hcl old d bs by now p e)
  Step-KeysDisjoint {s} {t} (retirement_recorded i now e) h =
      unchanged s t h (ground arith) (ground arith)
  Step-KeysDisjoint {s} {t} (retirement_forgotten i e) h =
      unchanged s t h (ground arith) (ground arith)
  Step-KeysDisjoint {s} {t} (binding_created b e) h = same s t h (create_binding-SameKeys s t b e)
  Step-KeysDisjoint {s} {t} (binding_changed b e) h = same s t h (change_binding-SameKeys s t b e)
  Step-KeysDisjoint {s} {t} (binding_applied id e) h =
      same s t h (mark_binding_applied-SameKeys s t id e)
  Step-KeysDisjoint {s} {t} (binding_retired id now a e) h =
      same s t h (retire_binding-SameKeys s t id now a e)
  Step-KeysDisjoint {s} {t} (inventory_saved a f cs now e) h =
      save_inventory-KeysDisjoint s t h a f cs now e
  Step-KeysDisjoint {s} {t} (token_saved id a now e) h =
      unchanged s t h (ground arith) (ground arith)
  Step-KeysDisjoint {s} {t} (assignment_token_saved b a now e) h =
      unchanged s t h (ground arith) (ground arith)
  Step-KeysDisjoint {s} {t} (result_saved r now e) h = unchanged s t h (ground arith) (ground arith)

  Reach-KeysDisjoint : {t : Store} → Reach hcl empty t → KeysDisjoint t
  unfolding lookup
  Reach-KeysDisjoint here = λ f a l. refl
  Reach-KeysDisjoint (next r st) = Step-KeysDisjoint st (Reach-KeysDisjoint r)

  -- From a new database, whatever calls follow in whatever order, a fingerprint on the list of
  -- agents is not on the list of operator keys.
  pub key_lists_apart :
      {t : Store}
      → Reach hcl empty t
      → (f : Text) (a : Agent) → lookup f t.agents ≡ some a
      → lookup f t.operator_keys ≡ none
  key_lists_apart r f a l = Reach-KeysDisjoint r f a l
