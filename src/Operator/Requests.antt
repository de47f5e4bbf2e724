-- ===== src/Operator/Requests.antt =====
-- internal/controller/operator_session.go: the requests of one operator key. A request is decoded
-- already, the events that a request records and the policy sets that agents are sent are left out,
-- and a binding is answered without its readiness.
pub mod Shown
pub mod Inside
use wyrwood.Base.{
  ℕ, Bool, true, false, not, ◌&&◌, ◌||◌, Option, none, some, List, [], ◌∷◌, ◌++◌, any, all, keep,
  length, ◌==◌, if◌then◌else◌,
}
use wyrwood.Base.Text.{Text, codes, ◌==t◌}
use wyrwood.Base.Assoc.{lookup}
use wyrwood.Base.Errors.{Result, ok, err}
use wyrwood.Base.Sort.{has}
use wyrwood.Policy.Types.{Policy, Settings, Ssh, SshIdentityNames, new_policy}
use wyrwood.Policy.BindingValues.{value_names}
use wyrwood.Protocol.Types.{Key}
use wyrwood.Store.Tables.{
  StoreError, not_found, conflict, constraint, invalid, OperatorKey, OperatorKeyState, Store, Read,
}
use wyrwood.Store.OperatorKeys.{operator_key, is_approved}
use wyrwood.Store.Policies.{StoredPolicy, policy, policies}
use wyrwood.Store.Bindings.{Binding, binding, bindings, has_policy, same_key}
use wyrwood.Controller.Errors.{
  Trouble, OperationError, operation_error, open_bao_error, category_of, internal, not_bound,
  outside_grant,
}
use wyrwood.Controller.World.{
  Outside, World, Op, read, continue, ◌>>=◌, ◌>>◌, done, fail, demand, need, attempt, map_error,
}
use wyrwood.Controller.Composing.{BindingRequest, list_of, compose_selection}
use wyrwood.Controller.Publishing.{apply_binding}
use wyrwood.Controller.Changes.{Saved, save_policy}
use wyrwood.Controller.Roles.{Bound, create_binding, delete_binding, identity}
use wyrwood.Operator.Grants.{
  can, covers, allows_agent, allows_policy, action_read, action_bind, action_policy_write,
}
use wyrwood.Operator.Messages.{
  RequestError, outside, failed, PolicySsh, PolicyPut, PublicPolicy, BindRequest, UnbindRequest,
  UnbindResult, public_ssh, still_offered, restricted, replace_ssh, with_ssh, find_key, Request,
  Answer, missing, reaches_outside, well_selected, by_key_allowed, unreadable, operator_subject,
  not_approved, invalid_request, binding_differs, operation, pending, whoami, policy_list,
  malformed, policy_get, policy_put, binding_list, binding_get, bind, unbind, key_answer,
  policies_answer, policy_answer, bindings_answer, binding_answer, unbound_answer,
}

module _ (out : Outside) where
  -- publicPolicy
  unfoldable pub public_policy : Policy → PublicPolicy
  public_policy p = record {
    name = p.name;
    revision = p.revision;
    hcl = p.open_bao.policy;
    ssh = public_ssh p.ssh;
    value_names = value_names out.codec.hcl p;
  }

  unfoldable pub allowed_policies : OperatorKey → List StoredPolicy → List PublicPolicy
  unfolding public_policy
  allowed_policies k [] = []
  allowed_policies k (p ∷ ps) =
      let rest = allowed_policies k ps in
      if allows_policy k.grant p.policy.name then public_policy p.policy ∷ rest else rest

  -- operatorPolicies
  unfoldable pub operator_policies : OperatorKey → Op out RequestError (List PublicPolicy)
  unfolding allowed_policies
  operator_policies k = do
    demand (can k.grant action_read) outside
    ps ← need (λ e. failed) (read (policies out.codec.hcl))
    done (allowed_policies k ps)

  -- operatorPolicy
  unfoldable pub operator_policy : OperatorKey → Text → Op out RequestError PublicPolicy
  unfolding public_policy
  operator_policy k name = do
    demand (can k.grant action_read && allows_policy k.grant name) outside
    stored ← need missing (read (policy out.codec.hcl name))
    done (public_policy stored.policy)

  -- The document of authorizedPutPolicy, of what the store has of the name.
  unfoldable pub put_document :
      PolicyPut → Result StoreError StoredPolicy → Op out RequestError Policy
  unfolding new_policy
  put_document put (ok stored) =
      let p = stored.policy in
      done (with_ssh put.ssh (record p { open_bao = record p.open_bao { policy = put.hcl } }))
  put_document put (err not_found) = done (with_ssh put.ssh (new_policy put.name put.hcl))
  put_document put (err _) = fail failed

  -- authorizedPutPolicy
  unfoldable pub authorized_put_policy :
      OperatorKey → PolicyPut → Text → ℕ → Op out RequestError Saved
  unfolding put_document reaches_outside
  authorized_put_policy k put by now = do
    demand (can k.grant action_policy_write && allows_policy k.grant put.name) outside
    bs ← need (λ e. failed) (read (list_of (bindings [])))
    demand (not (reaches_outside k put.name bs)) outside
    old ← attempt (read (policy out.codec.hcl put.name))
    document ← put_document put old
    need operation (save_policy out document by now)

  -- The answer of operatorPutPolicy.
  unfoldable pub put_answer : Saved → Op out RequestError PublicPolicy
  put_answer saved = elim saved.problem [
    | none ↦ done (public_policy saved.policy)
    | some e ↦ fail (pending e)
  ]

  -- operatorPutPolicy
  unfoldable pub operator_put_policy :
      OperatorKey → PolicyPut → Text → ℕ → Op out RequestError PublicPolicy
  unfolding authorized_put_policy put_answer
  operator_put_policy k put by now = authorized_put_policy k put by now >>= put_answer

  -- operatorBindings
  unfoldable pub operator_bindings : OperatorKey → Text → Op out RequestError (List Binding)
  operator_bindings k agent = do
    demand (can k.grant action_read && ((agent ==t []) || allows_agent k.grant agent)) outside
    bs ← need (λ e. failed) (read (list_of (bindings agent)))
    done (keep (λ (b : Binding). covers k.grant b.agent b.policies) bs)

  -- operatorBinding
  unfoldable pub operator_binding : OperatorKey → Text → Op out RequestError Binding
  operator_binding k id = do
    demand (can k.grant action_read) outside
    b ← need missing (read (binding id))
    demand (covers k.grant b.agent b.policies) outside
    done b

  -- findBinding
  unfoldable pub find_binding : Text → Key → Op out RequestError (Option Binding)
  find_binding agent k = do
    bs ← need (λ e. failed) (read (list_of (bindings agent)))
    done (find_key k bs)

  unfoldable pub repeated_as : Binding → Result Trouble (Unit {0}) → Op out RequestError Binding
  repeated_as b (ok _) = done (record b { applied = true })
  repeated_as b (err t) = fail (pending (operation_error (open_bao_error (category_of t))))

  -- repeatBind
  unfoldable pub repeat_bind : OperatorKey → Binding → BindRequest → Op out RequestError Binding
  unfolding repeated_as
  repeat_bind k existing request = do
    demand (covers k.grant existing.agent existing.policies) outside
    e ← need operation (compose_selection out request.policies request.settings none)
    demand (identity out e ==t identity out existing.effective) binding_differs
    applied ← attempt (apply_binding out existing)
    repeated_as existing applied

  unfoldable pub bind_answer : Bound → Op out RequestError Binding
  bind_answer made = elim made.problem [ none ↦ done made.binding | some e ↦ fail (pending e) ]

  -- What operatorBind does with the binding that findBinding found, or with a new id.
  unfoldable pub bind_found :
      OperatorKey → BindRequest → Text → Text → ℕ → Option Binding → Op out RequestError Binding
  unfolding repeat_bind bind_answer
  bind_found k request id by now (some existing) = repeat_bind k existing request
  bind_found k request id by now none =
      need operation (
        create_binding out id request.agent request.key
          (record { policies = request.policies; settings = request.settings; revision = 0 }) by
          now)
      >>= bind_answer

  -- operatorBind
  unfoldable pub operator_bind :
      OperatorKey → BindRequest → Text → Text → ℕ → Op out RequestError Binding
  unfolding find_binding bind_found
  operator_bind k request id by now = do
    demand (can k.grant action_bind && covers k.grant request.agent request.policies) outside
    existing ← find_binding request.agent request.key
    bind_found k request id by now existing

  unfoldable pub resolved : Result StoreError Binding → Op out RequestError (Option Binding)
  resolved (ok b) = done (some b)
  resolved (err not_found) = done none
  resolved (err _) = fail failed

  -- resolveUnbind
  unfoldable pub resolve_unbind : UnbindRequest → Op out RequestError (Option Binding)
  unfolding find_binding resolved
  resolve_unbind request = elim request.key [
    | some k ↦ find_binding request.agent k
    | none ↦ attempt (read (binding request.id)) >>= resolved
  ]

  abbrev pub connected : Text → World out → Bool
  connected agent w = elim (lookup agent w.sessions) [ none ↦ false | some _ ↦ true ]

  -- The answer of operatorUnbind to a deletion.
  unfoldable pub unbind_answer : Result OperationError (Unit {0}) → Op out RequestError UnbindResult
  unbind_answer (ok _) = done (record { removed = true; token_live = false; warned = false })
  unbind_answer (err e) =
      if e.token_live
      then done (record { removed = true; token_live = true; warned = true })
      else elim e.code [
        | internal ↦ fail (operation e)
        | _ ↦ done (record { removed = true; token_live = false; warned = true })
      ]

  -- What operatorUnbind does with the binding that the request selects.
  unfoldable pub unbind_found : OperatorKey → ℕ → Option Binding → Op out RequestError UnbindResult
  unfolding unbind_answer
  unbind_found k now none = done (record { removed = false; token_live = false; warned = false })
  unbind_found k now (some b) = do
    demand (covers k.grant b.agent b.policies) outside
    deleted ← attempt (λ w. delete_binding out b.id now (connected b.agent w) w)
    unbind_answer deleted

  -- operatorUnbind
  unfoldable pub operator_unbind :
      OperatorKey → UnbindRequest → ℕ → Op out RequestError UnbindResult
  unfolding resolve_unbind unbind_found
  operator_unbind k request now = do
    demand (well_selected request) invalid_request
    demand (can k.grant action_bind && by_key_allowed k request) outside
    b ← resolve_unbind request
    unbind_found k now b

  -- The switch of dispatchOperator; a new binding takes the id that NewID drew.
  unfoldable pub run_request : OperatorKey → Text → ℕ → Request → Op out RequestError Answer
  unfolding operator_policies operator_policy operator_put_policy operator_bindings operator_binding
      operator_bind operator_unbind
  run_request k id now whoami = done (key_answer k)
  run_request k id now malformed = fail invalid_request
  run_request k id now policy_list = operator_policies k >>= λ ps. done (policies_answer ps)
  run_request k id now (policy_get name) = operator_policy k name >>= λ p. done (policy_answer p)
  run_request k id now (policy_put put) =
      operator_put_policy k put (operator_subject k.label) now >>= λ p. done (policy_answer p)
  run_request k id now (binding_list agent) =
      operator_bindings k agent >>= λ bs. done (bindings_answer bs)
  run_request k id now (binding_get name) = operator_binding k name >>= λ b. done (binding_answer b)
  run_request k id now (bind request) =
      operator_bind k request id (operator_subject k.label) now >>= λ b. done (binding_answer b)
  run_request k id now (unbind request) =
      operator_unbind k request now >>= λ r. done (unbound_answer r)

  -- dispatchOperator
  unfoldable pub dispatch : Text → Text → ℕ → Request → Op out RequestError Answer
  unfolding run_request
  dispatch fingerprint id now request = do
    k ← need unreadable (read (operator_key fingerprint))
    demand (is_approved k.state) not_approved
    run_request k id now request
