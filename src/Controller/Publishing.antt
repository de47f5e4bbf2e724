-- ===== src/Controller/Publishing.antt =====
-- internal/controller/operations.go and policy_retirement.go: the HCL policies in OpenBao, and the
-- transition of a binding to its assignment.
use wyrwood.Base.{
  Bool, true, false, not, Option, none, some, List, [], ◌∷◌, length, ltb, if◌then◌else◌,
}
use wyrwood.Base.Text.{Text, ◌==t◌}
use wyrwood.Base.Errors.{Result, ok, err}
use wyrwood.Policy.Types.{Policy, default_token_ttl, default_token_max_ttl}
use wyrwood.Policy.Patterns.{open_bao_policy_name}
use wyrwood.Policy.Ttl.{duration_or}
use wyrwood.Policy.Lifecycle.{published_hcl}
use wyrwood.Policy.Compose.{names_of, open_bao_policies}
use wyrwood.Store.Tables.{StoreError, Store, Read, Write, not_found}
use wyrwood.Store.Policies.{StoredPolicy, policies, forget_policy_retirement, or_zero}
use wyrwood.Store.Bindings.{Binding, mark_binding_applied}
use wyrwood.Store.Reports.{token_accessor}
use wyrwood.Controller.Errors.{Category, Trouble, bao, disk, own}
use wyrwood.Controller.World.{
  Outside, World, Op, read, write, bao_call, ◌>>=◌, ◌>>◌, done, fail, demand, need, attempt,
}

-- A write of the store that returns no value and that SQLite alone can fail.
abbrev pub change_of : (Store → Store) → Store → Write (Unit {0})
change_of f s = ok (tt, f s)

-- A write of the store that returns no value.
abbrev pub checked : (Store → Read Store) → Store → Write (Unit {0})
checked f s = elim (f s) [ ok t ↦ ok (tt, t) | err e ↦ err e ]

-- slices.Equal
unfoldable pub equal_names : List Text → List Text → Bool
equal_names [] [] = true
equal_names (a ∷ more) (b ∷ bs) = if a ==t b then equal_names more bs else false
equal_names _ _ = false

module _ (out : Outside) where
  -- controller.policySyncPending = b
  abbrev pub set_pending : Bool → World out → World out
  set_pending b w = record w { sync_pending = b }

  -- WritePolicy of a stored policy.
  unfoldable pub publish : Policy → Op out Category (Unit {0})
  publish p =
      bao_call (out.manager.write_policy (open_bao_policy_name p) (published_hcl out.codec.hcl p))

  unfoldable pub publish_all : List StoredPolicy → Op out Trouble (Unit {0})
  unfolding publish
  publish_all [] = done tt
  publish_all (p ∷ ps) = need bao (publish p.policy) >> publish_all ps

  -- The last statement of syncPolicies.
  abbrev clear_pending : Op out Trouble (Unit {0})
  clear_pending w = done tt (set_pending false w)

  -- syncPolicies
  unfoldable pub sync_policies : Op out Trouble (Unit {0})
  unfolding publish_all
  sync_policies w =
      (need disk (read (policies out.codec.hcl)) >>= λ ps. publish_all ps >> clear_pending)
        (set_pending true w)

  -- The flag after a restoration.
  unfoldable pub after_restore :
      Result Category (Unit {0}) × World out → Result Category (Unit {0}) × World out
  after_restore (ok u, w) = (ok u, w)
  after_restore (err e, w) = (err e, set_pending true w)

  -- restorePolicy: of a policy that was stored before, and of a new one.
  unfoldable pub restore_policy : Policy → Option Policy → Op out Category (Unit {0})
  unfolding publish after_restore
  restore_policy attempted (some previous) w = after_restore (publish previous w)
  restore_policy attempted none w =
      after_restore (bao_call (out.manager.delete_policy (open_bao_policy_name attempted)) w)

  unfoldable pub accessor_read : Result StoreError Text → Op out Trouble Text
  accessor_read (ok accessor) = done accessor
  accessor_read (err not_found) = done []
  accessor_read (err e) = fail (disk e)

  -- The accessor that the store has for a binding, empty where it has none.
  unfoldable pub known_accessor : Text → Op out Trouble Text
  unfolding accessor_read
  known_accessor id = attempt (read (token_accessor id)) >>= accessor_read

  -- A call that the source makes under an if.
  abbrev pub when {κ} : {E : Type κ} → Bool → Op out E (Unit {0}) → Op out E (Unit {0})
  when true m = m
  when false m = done tt

  -- applyBinding of a binding that is not applied.
  unfoldable pub transition : Binding → Op out Trouble (Unit {0})
  unfolding known_accessor
  transition b = do
    when (ltb 0 (length b.settings.values)) (need bao (bao_call (out.manager.delete_role b.role)))
    need bao (
        bao_call (
          out.manager.write_role b.role (open_bao_policies b.effective)
            (or_zero (duration_or b.settings.token_ttl default_token_ttl))
            (or_zero (duration_or b.settings.token_max_ttl default_token_max_ttl))))
    accessor ← known_accessor b.id
    when (not (accessor ==t [])) (need bao (bao_call (out.manager.revoke_accessor accessor)))
    need disk (write (change_of (mark_binding_applied b.id)))

  -- applyBinding
  unfoldable pub apply_binding : Binding → Op out Trouble (Unit {0})
  unfolding transition
  apply_binding b =
      demand (equal_names b.policies (names_of b.effective)) own
      >> (if b.applied then done tt else transition b)

  -- removePolicyIdentity
  unfoldable pub remove_policy_identity : Text → Op out Trouble (Unit {0})
  remove_policy_identity identity = do
    need bao (bao_call (out.manager.delete_policy identity))
    exists ← need bao (bao_call (out.manager.policy_exists identity))
    demand (not exists) own
    need disk (write (change_of (forget_policy_retirement identity)))
