-- ===== src/Store/PolicyChange.antt =====
-- What each call does to the policies and to their generation records.
use wyrwood.Base.{ℕ, ◌+◌, ◌≡◌, refl, none, some, List, [], ◌∷◌, arith, Option-cases, inl, inr}
use wyrwood.Base.Text.{Text}
use wyrwood.Base.Assoc.{lookup, insert, remove}
use wyrwood.Base.Errors.{ok, >>=-eq-ok}
use wyrwood.Policy.Types.{Policy}
use wyrwood.Policy.Hcl.{Hcl}
use wyrwood.Store.Tables.{Store, PolicyRow}
use wyrwood.Store.Agents.{record_key, decide_agent, record_connection}
use wyrwood.Store.OperatorKeys.{
  record_operator_key, approve_operator_key, reject_operator_key, revoke_operator_key,
  record_operator_key_use,
}
use wyrwood.Store.Sessions.{
  record_operator, create_session, delete_session, delete_other_sessions, prune_sessions,
}
use wyrwood.Store.Policies.{
  next_policy_generation, record_generation, saved_generation, save_policy_bindings, delete_policy,
  record_policy_retirement, forget_policy_retirement, policy, rename_policy,
}
use wyrwood.Store.Bindings.{
  Binding, create_binding, write_membership, change_binding, mark_binding_applied, retire_binding,
}
use wyrwood.Store.Reports.{
  save_inventory, save_token_accessor, save_assignment_accessor, save_contract_result,
}
use wyrwood.Store.Step.{
  Step, key_recorded, agent_decided, connection_recorded, operator_key_recorded,
  operator_key_approved, operator_key_rejected, operator_key_revoked, operator_key_used,
  operator_recorded, session_created, session_deleted, sessions_deleted, sessions_pruned,
  policy_saved, policy_deleted, policy_renamed, retirement_recorded, retirement_forgotten,
  binding_created, binding_changed, binding_applied, binding_retired, inventory_saved, token_saved,
  assignment_token_saved, result_saved,
}

pub data PolicyChange (s t : Store) : Type 0 where
  same : t.policies ≡ s.policies → t.generations ≡ s.generations → PolicyChange s t
  -- A policy under a name that none has takes the next generation of that name.
  created :
      (n : Text) (r : PolicyRow)
      → lookup n s.policies ≡ none
      → r.generation ≡ next_policy_generation n s
      → t.policies ≡ insert n r s.policies
      → t.generations ≡ insert n r.generation s.generations
      → PolicyChange s t
  rewritten :
      (n : Text) (old r : PolicyRow)
      → lookup n s.policies ≡ some old
      → r.generation ≡ old.generation
      → t.policies ≡ insert n r s.policies
      → t.generations ≡ s.generations
      → PolicyChange s t
  removed :
      (n : Text)
      → t.policies ≡ remove n s.policies
      → t.generations ≡ s.generations
      → PolicyChange s t
  moved :
      (old n : Text) (r : PolicyRow)
      → lookup n s.policies ≡ none
      → r.generation ≡ next_policy_generation n s
      → t.policies ≡ remove old (insert n r s.policies)
      → t.generations ≡ insert n r.generation s.generations
      → PolicyChange s t

module _ (s t : Store) where
  write_membership-same :
      (id : Text) (ns : List Text)
      → write_membership id ns s ≡ ok t
      → (t.policies ≡ s.policies) × (t.generations ≡ s.generations)
  unfolding write_membership
  write_membership-same id [] e = cc
  write_membership-same id (n ∷ ns) e = ground arith

  save_policy_bindings-PolicyChange :
      (d : Policy) (bs : List Binding) (by : Text) (now : ℕ) (p : Policy)
      → save_policy_bindings d bs by now s ≡ ok (p, t)
      → PolicyChange s t
  unfolding save_policy_bindings saved_generation record_generation
  save_policy_bindings-PolicyChange d bs by now p e =
      elim (Option-cases (lookup d.name s.policies)) [
        | inl free ↦
            created d.name
              (record {
                revision = 1;
                document = p;
                saved_at = now;
                saved_by = by;
                generation = next_policy_generation d.name s;
              })
              free refl (ground arith) (ground arith)
        | inr (old, found) ↦
            rewritten d.name old
              (record {
                revision = old.revision + 1;
                document = p;
                saved_at = now;
                saved_by = by;
                generation = old.generation;
              })
              found refl (ground arith) (ground arith)
      ]

  rename_policy-PolicyChange :
      (hcl : Hcl) (old : Text) (d : Policy) (bs : List Binding) (by : Text) (now : ℕ) (p : Policy)
      → rename_policy hcl old d bs by now s ≡ ok (p, t)
      → PolicyChange s t
  unfolding rename_policy
  rename_policy-PolicyChange hcl old d bs by now p e =
      let (previous, found, rest) = >>=-eq-ok (policy hcl old s) _ e in
      moved old d.name
        (record {
          revision = d.revision;
          document = d;
          saved_at = now;
          saved_by = by;
          generation = d.generation;
        })
        (ground (arith, rest)) (ground (arith, rest)) (ground (arith, rest)) (ground (arith, rest))

module _ (hcl : Hcl) where
  pub Step-PolicyChange : {s t : Store} → Step hcl s t → PolicyChange s t
  unfolding record_operator create_session delete_session delete_other_sessions prune_sessions
      record_policy_retirement forget_policy_retirement save_token_accessor save_assignment_accessor
      save_contract_result record_key decide_agent record_connection record_operator_key
      approve_operator_key reject_operator_key revoke_operator_key record_operator_key_use
      delete_policy create_binding change_binding mark_binding_applied retire_binding save_inventory
  Step-PolicyChange (key_recorded f n k now a e) = same (ground arith) (ground arith)
  Step-PolicyChange (agent_decided f state by now a e) = same (ground arith) (ground arith)
  Step-PolicyChange (connection_recorded f v allow now e) = same (ground arith) (ground arith)
  Step-PolicyChange (operator_key_recorded f l k now o e) = same (ground arith) (ground arith)
  Step-PolicyChange (operator_key_approved f l g by now o e) = same (ground arith) (ground arith)
  Step-PolicyChange (operator_key_rejected f by now o e) = same (ground arith) (ground arith)
  Step-PolicyChange (operator_key_revoked f by now o e) = same (ground arith) (ground arith)
  Step-PolicyChange (operator_key_used f now e) = same (ground arith) (ground arith)
  Step-PolicyChange (operator_recorded f o e) = same (ground arith) (ground arith)
  Step-PolicyChange (session_created x w e) = same (ground arith) (ground arith)
  Step-PolicyChange (session_deleted x e) = same (ground arith) (ground arith)
  Step-PolicyChange (sessions_deleted x k e) = same (ground arith) (ground arith)
  Step-PolicyChange (sessions_pruned now e) = same (ground arith) (ground arith)
  Step-PolicyChange {s} {t} (policy_saved d bs by now p e) =
      save_policy_bindings-PolicyChange s t d bs by now p e
  Step-PolicyChange (policy_deleted n e) = removed n (ground arith) (ground arith)
  Step-PolicyChange {s} {t} (policy_renamed old d bs by now p e) =
      rename_policy-PolicyChange s t hcl old d bs by now p e
  Step-PolicyChange (retirement_recorded i now e) = same (ground arith) (ground arith)
  Step-PolicyChange (retirement_forgotten i e) = same (ground arith) (ground arith)
  Step-PolicyChange (binding_created b e) =
      same (grind (arith, write_membership-same)) (grind (arith, write_membership-same))
  Step-PolicyChange (binding_changed b e) =
      same (grind (arith, write_membership-same)) (grind (arith, write_membership-same))
  Step-PolicyChange (binding_applied id e) = same (ground arith) (ground arith)
  Step-PolicyChange (binding_retired id now a e) = same (ground arith) (ground arith)
  Step-PolicyChange (inventory_saved a f cs now e) = same (ground arith) (ground arith)
  Step-PolicyChange (token_saved id a now e) = same (ground arith) (ground arith)
  Step-PolicyChange (assignment_token_saved b a now e) = same (ground arith) (ground arith)
  Step-PolicyChange (result_saved r now e) = same (ground arith) (ground arith)
