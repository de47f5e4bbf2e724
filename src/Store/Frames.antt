-- ===== src/Store/Frames.antt =====
-- What the calls on policies, bindings, reports and sessions leave alone: the two lists of keys.
use wyrwood.Base.{ℕ, ◌≡◌, List, [], ◌∷◌, arith}
use wyrwood.Base.Text.{Text}
use wyrwood.Base.Errors.{ok, >>=-eq-ok}
use wyrwood.Policy.Types.{Policy}
use wyrwood.Policy.Hcl.{Hcl}
use wyrwood.Store.Tables.{Store}
use wyrwood.Store.Policies.{policy, save_policy_bindings, rename_policy, delete_policy}
use wyrwood.Store.Bindings.{
  Binding, create_binding, write_membership, change_binding, mark_binding_applied, retire_binding,
}

pub record SameKeys (s t : Store) : Type 0 where
  pub agents : t.agents ≡ s.agents
  pub operator_keys : t.operator_keys ≡ s.operator_keys

module _ (s t : Store) where
  pub save_policy_bindings-SameKeys :
      (d : Policy) (bs : List Binding) (by : Text) (now : ℕ) (p : Policy)
      → save_policy_bindings d bs by now s ≡ ok (p, t)
      → SameKeys s t
  unfolding save_policy_bindings
  save_policy_bindings-SameKeys d bs by now p e = ground arith

  pub rename_policy-SameKeys :
      (hcl : Hcl) (old : Text) (d : Policy) (bs : List Binding) (by : Text) (now : ℕ) (p : Policy)
      → rename_policy hcl old d bs by now s ≡ ok (p, t)
      → SameKeys s t
  unfolding rename_policy
  rename_policy-SameKeys hcl old d bs by now p e =
      let (previous, found, rest) = >>=-eq-ok (policy hcl old s) _ e in ground (arith, rest)

  pub delete_policy-SameKeys : (n : Text) → delete_policy n s ≡ ok t → SameKeys s t
  unfolding delete_policy
  delete_policy-SameKeys n e = ground arith

  pub write_membership-SameKeys :
      (id : Text) (ns : List Text) → write_membership id ns s ≡ ok t → SameKeys s t
  unfolding write_membership
  write_membership-SameKeys id [] e = cc
  write_membership-SameKeys id (n ∷ ns) e = ground arith

  pub mark_binding_applied-SameKeys : (id : Text) → t ≡ mark_binding_applied id s → SameKeys s t
  unfolding mark_binding_applied
  mark_binding_applied-SameKeys id e = ground arith

  pub retire_binding-SameKeys :
      (id : Text) (now : ℕ) (a : Text) → retire_binding id now s ≡ ok (a, t) → SameKeys s t
  unfolding retire_binding
  retire_binding-SameKeys id now a e = ground arith

module _ (s t : Store) (b : Binding) where
  pub create_binding-SameKeys : create_binding b s ≡ ok t → SameKeys s t
  unfolding create_binding
  create_binding-SameKeys e = grind (arith, write_membership-SameKeys)

  pub change_binding-SameKeys : change_binding b s ≡ ok t → SameKeys s t
  unfolding change_binding
  change_binding-SameKeys e = grind (arith, write_membership-SameKeys)
