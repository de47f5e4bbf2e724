-- ===== src/Controller/Retiring.antt =====
-- internal/controller/policy_retirement.go and reconcileBindings of operations.go: the repair of what
-- an interrupted operation left.
pub mod Held
use wyrwood.Base.{Bool, true, false, Option, none, some, List, [], ◌∷◌, map, if◌then◌else◌}
use wyrwood.Base.Text.{Text}
use wyrwood.Base.Errors.{Result, ok, err}
use wyrwood.Base.Sort.{has, add_name}
use wyrwood.Policy.Patterns.{open_bao_policy_name}
use wyrwood.Store.Tables.{StoreError, Store, Read}
use wyrwood.Store.Policies.{StoredPolicy, policies, policy_retirements, forget_policy_retirement}
use wyrwood.Store.Bindings.{Binding, bindings}
use wyrwood.Controller.Errors.{Category, unavailable, Trouble, bao, disk, own}
use wyrwood.Controller.World.{
  Outside, World, Op, read, write, continue, ◌>>=◌, ◌>>◌, done, need, attempt,
}
use wyrwood.Controller.Composing.{list_of}
use wyrwood.Controller.Publishing.{change_of, apply_binding, sync_policies, remove_policy_identity}

-- What settlePolicyRetirements returns: the agents whose bindings it applied, and its errors, which
-- are none where the joined error is nil.
pub record Settled : Type 0 where
  pub agents : List Text
  pub failures : List Trouble

abbrev pub nothing_settled : Settled
nothing_settled = record { agents = []; failures = [] }

abbrev pub stopped : Settled → Trouble → Settled
stopped s t = record s { failures = t ∷ [] }

-- CategoryOf of joined errors: the first error of OpenBao in them decides.
unfoldable pub joined_category : List Trouble → Category
joined_category [] = unavailable
joined_category (bao c ∷ ts) = c
joined_category (disk e ∷ ts) = joined_category ts
joined_category (own ∷ ts) = joined_category ts

abbrev applied_one : Binding → Result Trouble (Unit {0}) → Settled → Settled
applied_one b (ok _) rest = record rest { agents = add_name b.agent rest.agents }
applied_one b (err t) rest = record rest { failures = t ∷ rest.failures }

abbrev pub failure_of {ℓ} : {A : Type ℓ} → Result Trouble A → List Trouble → List Trouble
failure_of (ok _) ts = ts
failure_of (err t) ts = t ∷ ts

-- The map held.
abbrev pub held_names : List StoredPolicy → List Text
held_names ps = map (λ (p : StoredPolicy). open_bao_policy_name p.policy) ps

module _ (out : Outside) where
  -- The loop over the bindings, which applies those that wait.
  unfoldable pub apply_waiting : List Binding → Op out Trouble Settled
  unfolding add_name
  apply_waiting [] = done nothing_settled
  apply_waiting (b ∷ bs) = elim b.applied [
    | true ↦ apply_waiting bs
    | false ↦ do
      answer ← attempt (apply_binding out b)
      rest ← apply_waiting bs
      done (applied_one b answer rest)
  ]

  -- One round of the loop over the identities.
  unfoldable pub settle_identity : List Text → Text → Op out Trouble (Unit {0})
  unfolding has
  settle_identity held identity =
      if has identity held
      then need disk (write (change_of (forget_policy_retirement identity)))
      else remove_policy_identity out identity

  unfoldable pub settle_identities : List Text → List Text → Op out Trouble (List Trouble)
  unfolding settle_identity
  settle_identities held [] = done []
  settle_identities held (i ∷ is) = do
    answer ← attempt (settle_identity held i)
    rest ← settle_identities held is
    done (failure_of answer rest)

  unfoldable pub settle_listed :
      List Text → Settled → Result StoreError (List StoredPolicy) → Op out Trouble Settled
  unfolding settle_identities
  settle_listed is s (err e) = done (stopped s (disk e))
  settle_listed is s (ok ps) =
      settle_identities (held_names ps) is >>= λ ts. done (record s { failures = ts })

  -- The identities, once the loop over the bindings is through.
  unfoldable pub settle_applied : List Text → Settled → Op out Trouble Settled
  unfolding settle_listed
  settle_applied is s = elim s.failures [
    | t ∷ ts ↦ done s
    | [] ↦ attempt (read (policies out.codec.hcl)) >>= settle_listed is s
  ]

  unfoldable pub settle_bindings :
      List Text → Result StoreError (List Binding) → Op out Trouble Settled
  unfolding apply_waiting settle_applied
  settle_bindings is (err e) = done (stopped nothing_settled (disk e))
  settle_bindings is (ok bs) = apply_waiting bs >>= settle_applied is

  unfoldable pub settle_synced : List Text → Result Trouble (Unit {0}) → Op out Trouble Settled
  unfolding settle_bindings
  settle_synced is (err t) = done (stopped nothing_settled t)
  settle_synced is (ok _) = attempt (read (list_of (bindings []))) >>= settle_bindings is

  abbrev repaired : Op out Trouble (Unit {0})
  repaired w = (if w.sync_pending then sync_policies out else done tt) w

  unfoldable pub settle_recorded : Result StoreError (List Text) → Op out Trouble Settled
  unfolding settle_synced
  settle_recorded (err e) = done (stopped nothing_settled (disk e))
  settle_recorded (ok []) = done nothing_settled
  settle_recorded (ok (i ∷ is)) = attempt repaired >>= settle_synced (i ∷ is)

  -- settlePolicyRetirements
  unfoldable pub settle_policy_retirements : Op out Trouble Settled
  unfolding settle_recorded
  settle_policy_retirements = attempt (read (list_of policy_retirements)) >>= settle_recorded

  -- The loop of reconcileBindings.
  unfoldable pub apply_each : List Binding → Op out Trouble (List Trouble)
  apply_each [] = done []
  apply_each (b ∷ bs) = do
    answer ← attempt (apply_binding out b)
    rest ← apply_each bs
    done (failure_of answer rest)

  -- reconcileBindings
  unfoldable pub reconcile_bindings : Op out Trouble (List Trouble)
  unfolding apply_each
  reconcile_bindings = do
    sync_policies out
    bs ← need (λ e. own) (read (list_of (bindings [])))
    apply_each bs
