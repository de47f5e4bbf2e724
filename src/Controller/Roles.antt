-- ===== src/Controller/Roles.antt =====
-- internal/controller/operations.go and session.go: creating, changing and deleting a binding, and the
-- credential of one.
pub mod Applied
pub mod Issued
use wyrwood.Base.{
  ℕ, suc, Bool, true, false, not, ◌&&◌, ◌||◌, Option, none, some, List, [], ◌∷◌, ◌++◌, length, take,
  leb, ltb, ◌==◌, if◌then◌else◌, map,
}
use wyrwood.Base.Text.{Text, codes, ◌==t◌}
use wyrwood.Base.Assoc.{Assoc, lookup}
use wyrwood.Base.Errors.{Result, ok, err}
use wyrwood.Policy.Types.{Settings, Effective, key, settings}
use wyrwood.Policy.Patterns.{is_slug}
use wyrwood.Policy.BindingValues.{identity_metadata}
use wyrwood.Policy.Compose.{names_of}
use wyrwood.Protocol.Types.{Key}
use wyrwood.Protocol.Messages.{AssignableGroups, Credential, allows}
use wyrwood.Protocol.Validate.{validate_key}
use wyrwood.Store.Tables.{StoreError, Store, Read}
use wyrwood.Store.Agents.{approved_agent}
use wyrwood.Store.Bindings
use wyrwood.Store.Bindings.{Binding, binding, retire_binding}
use wyrwood.Controller.Errors.{
  Category, Trouble, bao, disk, own, OperationError, ErrorCode, operation_error, part_error,
  open_bao_error, category_of, policy_denied, not_bound, internal, controller_unavailable,
}
use wyrwood.Controller.World.{
  Outside, World, Op, read, write, bao_call, continue, ◌>>=◌, ◌>>◌, done, fail, demand, need,
  attempt, map_error,
}
use wyrwood.Controller.Composing.{
  BindingRequest, assignment, compose_selection, preflight, next_assignment,
}
use wyrwood.Controller.Publishing.{apply_binding, sync_policies, checked}

-- What a call gives once a binding is stored: the binding, and the error of a transition that is
-- pending.
pub record Bound : Type 0 where
  pub binding : Binding
  pub problem : Option OperationError

-- roleNameUnsafe.ReplaceAllString with a dash; `after` says that a dash stands for the bytes before.
unfoldable pub dash_runs : Bool → Text → Text
dash_runs after [] = []
dash_runs after (c ∷ s) =
    let kept = dash_runs false s in
    let dropped = dash_runs true s in
    if is_slug c || (c == b'-') then c ∷ kept else if after then dropped else b'-' ∷ dropped

abbrev trim_left : Text → Text
trim_left [] = []
trim_left (c ∷ s) = let rest = trim_left s in if c == b'-' then rest else c ∷ s

abbrev trim_right : Text → Text
trim_right [] = []
trim_right (c ∷ s) =
    let rest = trim_right s in if (c == b'-') && (rest ==t []) then [] else c ∷ rest

module _ (out : Outside) where
  -- RoleName
  unfoldable pub role_name : Text → Text → Text
  unfolding dash_runs
  role_name agent id =
      codes "wyrwood-"
      ++ take 60 (trim_right (trim_left (dash_runs false (out.lower agent))))
      ++ codes "-"
      ++ id

  -- Identity of an assignment
  unfoldable pub identity : Effective → Text
  identity e = out.sha256_hex (out.effective_json e)

  -- AssignableGroups of the live session of an agent
  abbrev assignable_groups : Text → World out → Option AssignableGroups
  assignable_groups agent w = elim (lookup agent w.sessions) [ none ↦ none | some groups ↦ groups ]

  abbrev group_allowed : Option ℕ → Option AssignableGroups → Bool
  group_allowed none groups = true
  group_allowed (some g) none = true
  group_allowed (some g) (some groups) = allows groups g

  -- validateAccessGroup
  unfoldable pub validate_access_group : Text → Option ℕ → Op out OperationError (Unit {0})
  validate_access_group agent group w =
      demand (group_allowed group (assignable_groups agent w))
        (part_error (some settings) policy_denied) w

  -- The answer of a call once the store has the binding and OpenBao has answered.
  unfoldable pub bound_as : Binding → Result Trouble (Unit {0}) → Op out OperationError Bound
  bound_as b (ok _) = done (record { binding = b; problem = none })
  bound_as b (err t) =
      done
        (record { binding = b; problem = some (operation_error (open_bao_error (category_of t))) })

  unfoldable pub created_as : Binding → Result Trouble (Unit {0}) → Op out OperationError Bound
  unfolding bound_as
  created_as b (ok u) = bound_as (record b { applied = true }) (ok u)
  created_as b (err t) = bound_as b (err t)

  abbrev pub new_binding : Text → Text → Key → Effective → Text → ℕ → Binding
  new_binding id agent k e by now = record {
    id = id;
    agent = agent;
    key = k;
    policies = names_of e;
    settings = e.settings;
    revision = 1;
    effective = e;
    applied = false;
    role = role_name agent id;
    created_at = now;
    created_by = by;
  }

  -- createBinding, with the id that NewID drew
  unfoldable pub create_binding :
      Text → Text → Key → BindingRequest → Text → ℕ → Op out OperationError Bound
  unfolding validate_access_group created_as
  create_binding id agent k request by now = do
    demand (validate_key k) (part_error (some key) policy_denied)
    approved ← need (λ e. operation_error not_bound) (read (approved_agent agent))
    validate_access_group agent request.settings.access_group
    e ← compose_selection out request.policies request.settings none
    let b = new_binding id agent k e by now
    preflight out (b ∷ [])
    need (λ e. operation_error policy_denied) (write (checked (Bindings.create_binding b)))
    applied ← attempt (apply_binding out b)
    created_as b applied

  -- The rest of changeBinding once the new assignment is composed.
  unfoldable pub change_to : Binding → Effective → Op out OperationError Bound
  unfolding bound_as
  change_to b e =
      if identity e ==t identity b.effective
      then done (record { binding = b; problem = none })
      else (do
        let c = record (next_assignment b e) { policies = names_of e; settings = e.settings }
        preflight out (c ∷ [])
        need (λ e. operation_error internal) (write (checked (Bindings.change_binding c)))
        applied ← attempt (apply_binding out c)
        bound_as c applied)

  -- changeBinding
  unfoldable pub change_binding : Text → BindingRequest → Op out OperationError Bound
  unfolding change_to
  change_binding id request = do
    b ← need (λ e. operation_error not_bound) (read (binding id))
    demand (request.revision == b.revision) (operation_error policy_denied)
    validate_access_group b.agent request.settings.access_group
    e ← compose_selection out request.policies request.settings none
    change_to b e

  abbrev code_of : Result Category (Unit {0}) → Option ErrorCode
  code_of (ok _) = none
  code_of (err c) = some (open_bao_error c)

  -- What comes of the token of a retired binding.
  unfoldable pub token_code :
      Bool → Result StoreError Text → Op out OperationError (Option ErrorCode)
  token_code connected (err _) = done none
  token_code connected (ok []) = done (if connected then none else some controller_unavailable)
  token_code connected (ok (c ∷ accessor)) = do
    answer ← attempt (bao_call (out.manager.revoke_accessor (c ∷ accessor)))
    done (code_of answer)

  -- The answer of deleteBinding.
  unfoldable pub deletion :
      Result Category (Unit {0})
      → Result StoreError Text
      → Option ErrorCode
      → Op out OperationError (Unit {0})
  deletion role (err _) token = fail (operation_error internal)
  deletion role (ok _) (some code) = fail (record (operation_error code) { token_live = true })
  deletion (err c) (ok _) none = fail (operation_error (open_bao_error c))
  deletion (ok _) (ok _) none = done tt

  -- deleteBinding
  unfoldable pub delete_binding : Text → ℕ → Bool → Op out OperationError (Unit {0})
  unfolding token_code deletion
  delete_binding id now connected = do
    b ← need (λ e. operation_error not_bound) (read (binding id))
    role ← attempt (bao_call (out.manager.delete_role b.role))
    retired ← attempt (write (retire_binding id now))
    token ← token_code connected retired
    deletion role retired token

  -- The repair that prepareCredential makes first.
  unfoldable pub sync_pending_policies : Op out Trouble (Unit {0})
  unfolding sync_policies
  sync_pending_policies w = (if w.sync_pending then sync_policies out else done tt) w

  -- prepareCredential, for the session of an agent; an error is no credential.
  unfoldable pub prepare_credential : Text → Binding → Op out Trouble Credential
  unfolding sync_pending_policies assignment identity_metadata
  prepare_credential agent asked = do
    sync_pending_policies
    b ← need disk (read (binding asked.id))
    demand ((b.agent ==t agent) && (assignment out b ==t assignment out asked)) own
    apply_binding out b
    role_id ← need bao (bao_call (out.manager.role_id b.role))
    wrapped ←
        need bao
          (bao_call (out.manager.wrapped_secret_id b.role (identity_metadata b.settings.values)))
    done (record {
      assignment = assignment out b;
      binding = b.id;
      approle_mount = out.manager.approle_mount;
      role_id = role_id;
      wrapped_secret_id = wrapped;
    })
