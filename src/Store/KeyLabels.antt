-- ===== src/Store/KeyLabels.antt =====
-- The unique index operator_keys_label: the labels of approved and revoked operator keys.
use wyrwood.Base.{ℕ, ◌≡◌, sym, ◌∙◌, true, some, arith, Option-cases, Bool-cases, inl, inr}
use wyrwood.Base.Text.{Text, ◌==t◌, ==t_iff}
use wyrwood.Base.Assoc.{lookup, insert, lookup-insert, some_entry_of_lookup}
use wyrwood.Base.Errors.{ok}
use wyrwood.Store.Tables.{Store, OperatorKey, Grant, empty}
use wyrwood.Store.Reports.{
  save_inventory, save_token_accessor, save_assignment_accessor, save_contract_result,
}
use wyrwood.Store.Agents.{record_key, decide_agent, record_connection}
use wyrwood.Store.OperatorKeys.{
  record_operator_key, recorded_key, approve_operator_key, reject_operator_key, revoke_operator_key,
  record_operator_key_use, holds_label, held_label,
}
use wyrwood.Policy.Hcl.{Hcl}
use wyrwood.Store.Sessions.{
  record_operator, create_session, delete_session, delete_other_sessions, prune_sessions,
}
use wyrwood.Store.Policies.{record_policy_retirement, forget_policy_retirement}
use wyrwood.Store.Frames.{
  save_policy_bindings-SameKeys, rename_policy-SameKeys, delete_policy-SameKeys,
  mark_binding_applied-SameKeys, retire_binding-SameKeys, create_binding-SameKeys,
  change_binding-SameKeys,
}
use wyrwood.Store.Step.{
  Step, Reach, here, next, key_recorded, agent_decided, connection_recorded, operator_key_recorded,
  operator_key_approved, operator_key_rejected, operator_key_revoked, operator_key_used,
  operator_recorded, session_created, session_deleted, sessions_deleted, sessions_pruned,
  policy_saved, policy_deleted, policy_renamed, retirement_recorded, retirement_forgotten,
  binding_created, binding_changed, binding_applied, binding_retired, inventory_saved, token_saved,
  assignment_token_saved, result_saved,
}

-- Two operator keys that are or were approved never share a label.
abbrev pub LabelsUnique : Store → Type 0
LabelsUnique s =
    (f g : Text) (a b : OperatorKey)
    → lookup f s.operator_keys ≡ some a
    → lookup g s.operator_keys ≡ some b
    → holds_label a.state ≡ true
    → holds_label b.state ≡ true
    → a.label ≡ b.label
    → f ≡ g

module _ (s t : Store) (h : LabelsUnique s) where
  key_written :
      (k : Text) (new : OperatorKey)
      → t.operator_keys ≡ insert k new s.operator_keys
      → ((g : Text) (b : OperatorKey)
          → lookup g s.operator_keys ≡ some b
          → holds_label b.state ≡ true
          → holds_label new.state ≡ true
          → new.label ≡ b.label
          → k ≡ g)
      → LabelsUnique t
  key_written k new e free f g a b la lb pa pb same = elim (Bool-cases (k ==t f)) [
    | inl kf ↦ elim (Bool-cases (k ==t g)) [
      | inl kg ↦ sym ((==t_iff k f).0 kf) ∙ (==t_iff k g).0 kg
      | inr kg ↦ ground (
        arith,
        lookup-insert k f new s.operator_keys,
        lookup-insert k g new s.operator_keys,
        free g b,
        ==t_iff k f,
      )
    ]
    | inr kf ↦ elim (Bool-cases (k ==t g)) [
      | inl kg ↦ ground (
        arith,
        lookup-insert k f new s.operator_keys,
        lookup-insert k g new s.operator_keys,
        free f a,
        ==t_iff k g,
      )
      | inr kg ↦ ground (
        arith,
        lookup-insert k f new s.operator_keys,
        lookup-insert k g new s.operator_keys,
        h f g a b,
      )
    ]
  ]

  labels_same : t.operator_keys ≡ s.operator_keys → LabelsUnique t
  labels_same e f g a b la lb = h f g a b (rw e at la) (rw e at lb)

  record_operator_key-LabelsUnique :
      (f l k : Text) (now : ℕ) (o : OperatorKey)
      → record_operator_key f l k now s ≡ ok (o, t)
      → LabelsUnique t
  unfolding record_operator_key recorded_key
  record_operator_key-LabelsUnique f l k now o e = elim (Option-cases (lookup f s.agents)) [
    | inr (a, held) ↦ labels_same (ground arith)
    | inl free ↦ elim (Option-cases (lookup f s.operator_keys)) [
      | inl missing ↦ key_written f o (ground arith) (λ g b lb pb pn same. ground arith)
      | inr (old, found) ↦
          key_written f o (ground arith) (λ g b lb pb pn same. ground (arith, h f g old b found lb))
    ]
  ]

  approve_operator_key-LabelsUnique :
      (f l : Text) (g : Grant) (by : Text) (now : ℕ) (o : OperatorKey)
      → approve_operator_key f l g by now s ≡ ok (o, t)
      → LabelsUnique t
  unfolding approve_operator_key
  approve_operator_key-LabelsUnique f l g by now o e =
      elim (Option-cases (lookup f s.operator_keys)) [
        | inl missing ↦ λ x y c d lx ly p q same. ground arith
        | inr (old, found) ↦ key_written f o (ground arith) (λ x b lb pb pn same.
            ground (
              arith,
              some_entry_of_lookup (held_label l) x b s.operator_keys lb,
              ==t_iff b.label l,
            ))
      ]

  reject_operator_key-LabelsUnique :
      (f by : Text) (now : ℕ) (o : OperatorKey)
      → reject_operator_key f by now s ≡ ok (o, t)
      → LabelsUnique t
  unfolding reject_operator_key
  reject_operator_key-LabelsUnique f by now o e = elim (Option-cases (lookup f s.operator_keys)) [
    | inl missing ↦ λ x y c d lx ly p q same. ground arith
    | inr (old, found) ↦ key_written f o (ground arith) (λ x b lb pb pn same. ground arith)
  ]

  revoke_operator_key-LabelsUnique :
      (f by : Text) (now : ℕ) (o : OperatorKey)
      → revoke_operator_key f by now s ≡ ok (o, t)
      → LabelsUnique t
  unfolding revoke_operator_key
  revoke_operator_key-LabelsUnique f by now o e = elim (Option-cases (lookup f s.operator_keys)) [
    | inl missing ↦ λ x y c d lx ly p q same. ground arith
    | inr (old, found) ↦
        key_written f o (ground arith) (λ x b lb pb pn same. ground (arith, h f x old b found lb))
  ]

  record_operator_key_use-LabelsUnique :
      (f : Text) (now : ℕ) → t ≡ record_operator_key_use f now s → LabelsUnique t
  unfolding record_operator_key_use
  record_operator_key_use-LabelsUnique f now e = elim (Option-cases (lookup f s.operator_keys)) [
    | inl missing ↦ labels_same (ground arith)
    | inr (old, found) ↦
        key_written f (record old { last_used = some now }) (ground arith)
          (λ x b lb pb pn same. ground (arith, h f x old b found lb))
  ]

module _ (hcl : Hcl) where
  -- Every call that changes the database keeps the labels of approved and revoked keys apart.
  pub Step-LabelsUnique : {s t : Store} → Step hcl s t → LabelsUnique s → LabelsUnique t
  unfolding record_operator create_session delete_session delete_other_sessions prune_sessions
      record_policy_retirement forget_policy_retirement save_token_accessor save_assignment_accessor
      save_contract_result record_key decide_agent record_connection save_inventory
  Step-LabelsUnique {s} {t} (operator_key_recorded f l k now o e) h =
      record_operator_key-LabelsUnique s t h f l k now o e
  Step-LabelsUnique {s} {t} (operator_key_approved f l g by now o e) h =
      approve_operator_key-LabelsUnique s t h f l g by now o e
  Step-LabelsUnique {s} {t} (operator_key_rejected f by now o e) h =
      reject_operator_key-LabelsUnique s t h f by now o e
  Step-LabelsUnique {s} {t} (operator_key_revoked f by now o e) h =
      revoke_operator_key-LabelsUnique s t h f by now o e
  Step-LabelsUnique {s} {t} (operator_key_used f now e) h =
      record_operator_key_use-LabelsUnique s t h f now e
  Step-LabelsUnique {s} {t} (policy_saved d bs by now p e) h =
      labels_same s t h (save_policy_bindings-SameKeys s t d bs by now p e).operator_keys
  Step-LabelsUnique {s} {t} (policy_deleted n e) h =
      labels_same s t h (delete_policy-SameKeys s t n e).operator_keys
  Step-LabelsUnique {s} {t} (policy_renamed old d bs by now p e) h =
      labels_same s t h (rename_policy-SameKeys s t hcl old d bs by now p e).operator_keys
  Step-LabelsUnique {s} {t} (binding_created b e) h =
      labels_same s t h (create_binding-SameKeys s t b e).operator_keys
  Step-LabelsUnique {s} {t} (binding_changed b e) h =
      labels_same s t h (change_binding-SameKeys s t b e).operator_keys
  Step-LabelsUnique {s} {t} (binding_applied id e) h =
      labels_same s t h (mark_binding_applied-SameKeys s t id e).operator_keys
  Step-LabelsUnique {s} {t} (binding_retired id now a e) h =
      labels_same s t h (retire_binding-SameKeys s t id now a e).operator_keys
  Step-LabelsUnique {s} {t} (operator_recorded f o e) h = labels_same s t h (ground arith)
  Step-LabelsUnique {s} {t} (session_created x w e) h = labels_same s t h (ground arith)
  Step-LabelsUnique {s} {t} (session_deleted x e) h = labels_same s t h (ground arith)
  Step-LabelsUnique {s} {t} (sessions_deleted x k e) h = labels_same s t h (ground arith)
  Step-LabelsUnique {s} {t} (sessions_pruned now e) h = labels_same s t h (ground arith)
  Step-LabelsUnique {s} {t} (retirement_recorded i now e) h = labels_same s t h (ground arith)
  Step-LabelsUnique {s} {t} (retirement_forgotten i e) h = labels_same s t h (ground arith)
  Step-LabelsUnique {s} {t} (token_saved id a now e) h = labels_same s t h (ground arith)
  Step-LabelsUnique {s} {t} (assignment_token_saved b a now e) h = labels_same s t h (ground arith)
  Step-LabelsUnique {s} {t} (result_saved r now e) h = labels_same s t h (ground arith)
  Step-LabelsUnique {s} {t} (key_recorded f n k now a e) h = labels_same s t h (ground arith)
  Step-LabelsUnique {s} {t} (agent_decided f state by now a e) h = labels_same s t h (ground arith)
  Step-LabelsUnique {s} {t} (connection_recorded f v allow now e) h =
      labels_same s t h (ground arith)
  Step-LabelsUnique {s} {t} (inventory_saved a f cs now e) h = labels_same s t h (ground arith)

  Reach-LabelsUnique : {t : Store} → Reach hcl empty t → LabelsUnique t
  unfolding lookup
  Reach-LabelsUnique here = λ f g a b la. cc
  Reach-LabelsUnique (next r st) = Step-LabelsUnique st (Reach-LabelsUnique r)

  -- From a new database, whatever calls follow in whatever order, two operator keys with the same
  -- label, each approved or revoked, are the same row.
  pub key_labels_unique :
      {t : Store}
      → Reach hcl empty t
      → (f g : Text) (a b : OperatorKey) → lookup f t.operator_keys ≡ some a
      → lookup g t.operator_keys ≡ some b
      → holds_label a.state ≡ true
      → holds_label b.state ≡ true
      → a.label ≡ b.label
      → f ≡ g
  key_labels_unique r f g a b la lb pa pb same = Reach-LabelsUnique r f g a b la lb pa pb same
