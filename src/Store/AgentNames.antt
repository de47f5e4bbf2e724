-- ===== src/Store/AgentNames.antt =====
-- The unique index agents_approved_name: the names of approved agents.
use wyrwood.Base.{
  ℕ, ◌≡◌, refl, sym, ◌∙◌, Bool, true, some, List, arith, Option-cases, Bool-cases, inl, inr,
}
use wyrwood.Base.Text.{Text, ◌==t◌, ==t_iff}
use wyrwood.Base.Assoc.{lookup, insert, lookup-insert, some_entry_of_lookup}
use wyrwood.Base.Errors.{ok}
use wyrwood.Protocol.Types.{Container}
use wyrwood.Store.Tables.{Store, Agent, AgentState, empty}
use wyrwood.Store.Reports.{
  report_seen, save_inventory, save_token_accessor, save_assignment_accessor, save_contract_result,
}
use wyrwood.Store.Agents.{
  record_key, recorded_agent, decide_agent, record_connection, is_approved, approved_name,
}
use wyrwood.Store.OperatorKeys.{
  record_operator_key, approve_operator_key, reject_operator_key, revoke_operator_key,
  record_operator_key_use,
}
use wyrwood.Policy.Hcl.{Hcl}
use wyrwood.Store.Sessions.{
  record_operator, create_session, delete_session, delete_other_sessions, prune_sessions,
}
use wyrwood.Store.Policies.{record_policy_retirement, forget_policy_retirement}
use wyrwood.Store.Frames.{
  save_policy_bindings-SameKeys, rename_policy-SameKeys, delete_policy-SameKeys,
  mark_binding_applied-SameKeys, retire_binding-SameKeys, create_binding-SameKeys,
  change_binding-SameKeys,
}
use wyrwood.Store.Step.{
  Step, Reach, here, next, key_recorded, agent_decided, connection_recorded, operator_key_recorded,
  operator_key_approved, operator_key_rejected, operator_key_revoked, operator_key_used,
  operator_recorded, session_created, session_deleted, sessions_deleted, sessions_pruned,
  policy_saved, policy_deleted, policy_renamed, retirement_recorded, retirement_forgotten,
  binding_created, binding_changed, binding_applied, binding_retired, inventory_saved, token_saved,
  assignment_token_saved, result_saved,
}

-- Two approved agents never share a name.
abbrev pub NamesUnique : Store → Type 0
NamesUnique s =
    (f g : Text) (a b : Agent)
    → lookup f s.agents ≡ some a
    → lookup g s.agents ≡ some b
    → is_approved a.state ≡ true
    → is_approved b.state ≡ true
    → a.name ≡ b.name
    → f ≡ g

module _ (s t : Store) (h : NamesUnique s) where
  -- A write of a row that, if it is approved, takes a name that no other approved agent has.
  agent_written :
      (k : Text) (new : Agent)
      → t.agents ≡ insert k new s.agents
      → ((g : Text) (b : Agent)
          → lookup g s.agents ≡ some b
          → is_approved b.state ≡ true
          → is_approved new.state ≡ true
          → new.name ≡ b.name
          → k ≡ g)
      → NamesUnique t
  agent_written k new e free f g a b la lb pa pb same = elim (Bool-cases (k ==t f)) [
    | inl kf ↦ elim (Bool-cases (k ==t g)) [
      | inl kg ↦ sym ((==t_iff k f).0 kf) ∙ (==t_iff k g).0 kg
      | inr kg ↦ ground (
        arith,
        lookup-insert k f new s.agents,
        lookup-insert k g new s.agents,
        free g b,
        ==t_iff k f,
      )
    ]
    | inr kf ↦ elim (Bool-cases (k ==t g)) [
      | inl kg ↦ ground (
        arith,
        lookup-insert k f new s.agents,
        lookup-insert k g new s.agents,
        free f a,
        ==t_iff k g,
      )
      | inr kg ↦
          ground (arith, lookup-insert k f new s.agents, lookup-insert k g new s.agents, h f g a b)
    ]
  ]

  names_same : t.agents ≡ s.agents → NamesUnique t
  names_same e f g a b la lb = h f g a b (rw e at la) (rw e at lb)

  -- A write that keeps the name and the state of a row.
  agent_rewritten :
      (k : Text) (old new : Agent)
      → lookup k s.agents ≡ some old
      → t.agents ≡ insert k new s.agents
      → new.name ≡ old.name
      → new.state ≡ old.state
      → NamesUnique t
  agent_rewritten k old new found e names states =
      agent_written k new e
        (λ g b lb pb pn same. h k g old b found lb (ground arith) pb (sym names ∙ same))

  record_key-NamesUnique :
      (f n k : Text) (now : ℕ) (a : Agent) → record_key f n k now s ≡ ok (a, t) → NamesUnique t
  unfolding record_key recorded_agent
  record_key-NamesUnique f n k now a e = elim (Option-cases (lookup f s.operator_keys)) [
    | inr (o, held) ↦ names_same (ground arith)
    | inl free ↦ elim (Option-cases (lookup f s.agents)) [
      | inl missing ↦ agent_written f a (ground arith) (λ g b lb pb pn same. ground arith)
      | inr (old, found) ↦
          agent_written f a (ground arith)
            (λ g b lb pb pn same. ground (arith, h f g old b found lb))
    ]
  ]

  decide_agent-NamesUnique :
      (f : Text) (state : AgentState) (by : Text) (now : ℕ) (a : Agent)
      → decide_agent f state by now s ≡ ok (a, t)
      → NamesUnique t
  unfolding decide_agent
  decide_agent-NamesUnique f state by now a e = elim (Option-cases (lookup f s.agents)) [
    | inl missing ↦ λ x y c d lx ly p q same. ground arith
    | inr (old, found) ↦ agent_written f a (ground arith) (λ g b lb pb pn same. ground (
      arith,
      some_entry_of_lookup (approved_name old.name) g b s.agents lb,
      ==t_iff b.name old.name,
    ))
  ]

  record_connection-NamesUnique :
      (f v : Text) (allow : Bool) (now : ℕ) → t ≡ record_connection f v allow now s → NamesUnique t
  unfolding record_connection
  record_connection-NamesUnique f v allow now e = elim (Option-cases (lookup f s.agents)) [
    | inl missing ↦ names_same (ground arith)
    | inr (old, found) ↦
        agent_rewritten f old
          (record old { agent_version = v; allow_recreate = allow; last_connected = some now })
          found (ground arith) refl refl
  ]

  save_inventory-NamesUnique :
      (a f : Text) (cs : List Container) (now : ℕ) → t ≡ save_inventory a f cs now s → NamesUnique t
  unfolding save_inventory report_seen
  save_inventory-NamesUnique a f cs now e = elim (Option-cases (lookup f s.agents)) [
    | inl missing ↦ names_same (ground arith)
    | inr (old, found) ↦
        agent_rewritten f old (record old { last_report = some now }) found (ground arith) refl refl
  ]

module _ (hcl : Hcl) where
  -- Every call that changes the database keeps the names of approved agents apart.
  pub Step-NamesUnique : {s t : Store} → Step hcl s t → NamesUnique s → NamesUnique t
  unfolding record_operator create_session delete_session delete_other_sessions prune_sessions
      record_policy_retirement forget_policy_retirement save_token_accessor save_assignment_accessor
      save_contract_result record_operator_key approve_operator_key reject_operator_key
      revoke_operator_key record_operator_key_use
  Step-NamesUnique {s} {t} (key_recorded f n k now a e) h =
      record_key-NamesUnique s t h f n k now a e
  Step-NamesUnique {s} {t} (agent_decided f state by now a e) h =
      decide_agent-NamesUnique s t h f state by now a e
  Step-NamesUnique {s} {t} (connection_recorded f v allow now e) h =
      record_connection-NamesUnique s t h f v allow now e
  Step-NamesUnique {s} {t} (inventory_saved a f cs now e) h =
      save_inventory-NamesUnique s t h a f cs now e
  Step-NamesUnique {s} {t} (policy_saved d bs by now p e) h =
      names_same s t h (save_policy_bindings-SameKeys s t d bs by now p e).agents
  Step-NamesUnique {s} {t} (policy_deleted n e) h =
      names_same s t h (delete_policy-SameKeys s t n e).agents
  Step-NamesUnique {s} {t} (policy_renamed old d bs by now p e) h =
      names_same s t h (rename_policy-SameKeys s t hcl old d bs by now p e).agents
  Step-NamesUnique {s} {t} (binding_created b e) h =
      names_same s t h (create_binding-SameKeys s t b e).agents
  Step-NamesUnique {s} {t} (binding_changed b e) h =
      names_same s t h (change_binding-SameKeys s t b e).agents
  Step-NamesUnique {s} {t} (binding_applied id e) h =
      names_same s t h (mark_binding_applied-SameKeys s t id e).agents
  Step-NamesUnique {s} {t} (binding_retired id now a e) h =
      names_same s t h (retire_binding-SameKeys s t id now a e).agents
  Step-NamesUnique {s} {t} (operator_recorded f o e) h = names_same s t h (ground arith)
  Step-NamesUnique {s} {t} (session_created x w e) h = names_same s t h (ground arith)
  Step-NamesUnique {s} {t} (session_deleted x e) h = names_same s t h (ground arith)
  Step-NamesUnique {s} {t} (sessions_deleted x k e) h = names_same s t h (ground arith)
  Step-NamesUnique {s} {t} (sessions_pruned now e) h = names_same s t h (ground arith)
  Step-NamesUnique {s} {t} (retirement_recorded i now e) h = names_same s t h (ground arith)
  Step-NamesUnique {s} {t} (retirement_forgotten i e) h = names_same s t h (ground arith)
  Step-NamesUnique {s} {t} (token_saved id a now e) h = names_same s t h (ground arith)
  Step-NamesUnique {s} {t} (assignment_token_saved b a now e) h = names_same s t h (ground arith)
  Step-NamesUnique {s} {t} (result_saved r now e) h = names_same s t h (ground arith)
  Step-NamesUnique {s} {t} (operator_key_recorded f l k now o e) h = names_same s t h (ground arith)
  Step-NamesUnique {s} {t} (operator_key_approved f l g by now o e) h =
      names_same s t h (ground arith)
  Step-NamesUnique {s} {t} (operator_key_rejected f by now o e) h = names_same s t h (ground arith)
  Step-NamesUnique {s} {t} (operator_key_revoked f by now o e) h = names_same s t h (ground arith)
  Step-NamesUnique {s} {t} (operator_key_used f now e) h = names_same s t h (ground arith)

  Reach-NamesUnique : {t : Store} → Reach hcl empty t → NamesUnique t
  unfolding lookup
  Reach-NamesUnique here = λ f g a b la. cc
  Reach-NamesUnique (next r st) = Step-NamesUnique st (Reach-NamesUnique r)

  -- From a new database, whatever calls follow in whatever order, two approved agents with the same
  -- name are the same row.
  pub approved_names_unique :
      {t : Store}
      → Reach hcl empty t
      → (f g : Text) (a b : Agent) → lookup f t.agents ≡ some a
      → lookup g t.agents ≡ some b
      → is_approved a.state ≡ true
      → is_approved b.state ≡ true
      → a.name ≡ b.name
      → f ≡ g
  approved_names_unique r f g a b la lb pa pb same = Reach-NamesUnique r f g a b la lb pa pb same
