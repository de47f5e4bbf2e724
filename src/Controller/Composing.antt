-- ===== src/Controller/Composing.antt =====
-- internal/controller/operations.go and policy_rename.go: the assignments that a selection, a changed
-- policy and a renamed policy give, and the wire bound on them.
use wyrwood.Base.{
  ℕ, suc, Bool, true, false, Option, none, some, List, [], ◌∷◌, ◌++◌, map, keep, if◌then◌else◌,
}
use wyrwood.Base.Text.{Text, ◌==t◌}
use wyrwood.Base.Errors.{Result, ok, err}
use wyrwood.Base.Sort.{has, add_name}
use wyrwood.Policy.Types.{Policy, Settings, Effective, Problem, part_of, selection}
use wyrwood.Policy.Compose.{compose, names_of}
use wyrwood.Protocol.Types.{Container}
use wyrwood.Protocol.Messages.{WireBinding, policy_set}
use wyrwood.Protocol.Codec.{encode}
use wyrwood.Store.Tables.{Store, Read, StoreError}
use wyrwood.Store.Policies.{policy}
use wyrwood.Store.Bindings.{Binding, bindings, has_policy}
use wyrwood.Store.Reports.{inventory}
use wyrwood.Controller.Errors.{OperationError, operation_error, part_error, policy_denied, internal}
use wyrwood.Controller.World.{Outside, Op, read, ◌>>=◌, ◌>>◌, done, fail, demand, need, attempt}
use wyrwood.Controller.Matching.{carried_bindings, ids}

-- A read of the store that SQLite alone can fail.
abbrev pub list_of {ℓ} : {A : Type ℓ} → (Store → A) → Store → Read A
list_of f s = ok (f s)

-- The policy that stands in for a stored one.
abbrev pub replaced : Option Policy → Text → Option Policy
replaced none name = none
replaced (some p) name = if p.name ==t name then some p else none

-- policy.Selection
pub record BindingRequest : Type 0 where
  pub policies : List Text
  pub settings : Settings
  pub revision : ℕ

-- Assignment of a binding: the digest of its revision and its assignment.
unfoldable pub assignment : Outside → Binding → Text
assignment out b = out.sha256_hex (out.assignment_json b.revision b.effective)

-- wireBinding
unfoldable pub wire_binding : Outside → Binding → WireBinding
unfolding assignment
wire_binding out b = record {
  binding = b.id;
  key = b.key;
  policy = b.effective;
  assignment = assignment out b;
}

-- The binding with its next assignment, which waits to be applied.
abbrev pub next_assignment : Binding → Effective → Binding
next_assignment b e = record b { effective = e; revision = suc b.revision; applied = false }

-- The bindings of an agent with the changed ones in their place, and a new one behind them.
unfoldable pub replace_binding : Binding → List Binding → List Binding
unfolding has
replace_binding change bs =
    if has change.id (ids bs)
    then map (λ b. if b.id ==t change.id then change else b) bs
    else bs ++ change ∷ []

unfoldable pub replace_bindings : List Binding → List Binding → List Binding
unfolding replace_binding
replace_bindings [] bs = bs
replace_bindings (c ∷ cs) bs = replace_bindings cs (replace_binding c bs)

-- The agents of some bindings, each once.
unfoldable pub agents_of : List Binding → List Text
unfolding add_name
agents_of [] = []
agents_of (b ∷ bs) = add_name b.agent (agents_of bs)

module _ (out : Outside) where
  -- One round of the loop of compose, with the policy that stands in for the stored one.
  unfoldable pub source : Option Policy → Text → Op out OperationError Policy
  source (some p) name = done p
  source none name = do
    stored ←
        need (λ e. part_error (some selection) policy_denied) (read (policy out.codec.hcl name))
    done stored.policy

  unfoldable pub sources : Option Policy → List Text → Op out OperationError (List Policy)
  unfolding source
  sources replacement [] = done []
  sources replacement (n ∷ ns) = do
    p ← source (replaced replacement n) n
    ps ← sources replacement ns
    done (p ∷ ps)

  abbrev pub composed : Result Problem Effective → Op out OperationError Effective
  composed (ok e) = done e
  composed (err p) = fail (part_error (part_of p) policy_denied)

  -- compose
  unfoldable pub compose_selection :
      List Text → Settings → Option Policy → Op out OperationError Effective
  unfolding sources
  compose_selection names settings replacement = do
    ps ← sources replacement names
    composed (compose out.codec.hcl ps settings)

  -- PreviewBinding
  unfoldable pub preview_binding : BindingRequest → Op out OperationError Effective
  preview_binding request = compose_selection request.policies request.settings none

  -- The loop of savePolicy over the bindings.
  unfoldable pub affected_bindings : Policy → List Binding → Op out OperationError (List Binding)
  affected_bindings document [] = done []
  affected_bindings document (b ∷ bs) = elim (has_policy b document.name) [
    | false ↦ affected_bindings document bs
    | true ↦ do
      e ← compose_selection b.policies b.settings (some document)
      rest ← affected_bindings document bs
      done (next_assignment b e ∷ rest)
  ]

  -- The loop of renamedBindings.
  unfoldable pub renamed_from : Text → Policy → List Binding → Op out OperationError (List Binding)
  renamed_from old document [] = done []
  renamed_from old document (b ∷ bs) = elim (has_policy b old) [
    | false ↦ renamed_from old document bs
    | true ↦ do
      e ←
          compose_selection (map (λ n. if n ==t old then document.name else n) b.policies)
            b.settings (some document)
      rest ← renamed_from old document bs
      done (record (next_assignment b e) { policies = names_of e } ∷ rest)
  ]

  -- renamedBindings
  unfoldable pub renamed_bindings : Text → Policy → Op out OperationError (List Binding)
  unfolding renamed_from
  renamed_bindings old document = do
    bs ← need (λ e. operation_error internal) (read (list_of (bindings [])))
    renamed_from old document bs

  -- Whether protocol.Encode writes a policy set.
  unfoldable pub fits : List Binding → Bool
  unfolding wire_binding
  fits bs =
      elim (encode out.codec (
        policy_set
          (record { open_bao = out.agent_open_bao; bindings = map (wire_binding out) bs }))) [
            | ok _ ↦ true
            | err _ ↦ false
          ]

  -- The loop of preflight over the candidates.
  unfoldable pub each_fits : List Binding → Op out OperationError (Unit {0})
  unfolding fits
  each_fits [] = done tt
  each_fits (b ∷ bs) = demand (fits (b ∷ [])) (operation_error policy_denied) >> each_fits bs

  abbrev pub agent_fits : List Binding → Result StoreError (List Container × Option ℕ) → Bool
  agent_fits bs (err _) = true
  agent_fits bs (ok (containers, time)) = fits (carried_bindings containers bs)

  -- The loop of preflight over the agents.
  unfoldable pub agents_fit : List Binding → List Text → Op out OperationError (Unit {0})
  unfolding replace_bindings
  agents_fit candidates [] = done tt
  agents_fit candidates (a ∷ agents) = do
    bs ← need (λ e. operation_error internal) (read (list_of (bindings a)))
    reported ← attempt (read (list_of (inventory a)))
    demand (agent_fits (replace_bindings (keep (λ b. b.agent ==t a) candidates) bs) reported)
        (operation_error policy_denied)
    agents_fit candidates agents

  -- preflight
  unfoldable pub preflight : List Binding → Op out OperationError (Unit {0})
  unfolding each_fits agents_fit agents_of
  preflight candidates = each_fits candidates >> agents_fit candidates (agents_of candidates)
