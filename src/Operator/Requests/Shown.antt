-- ===== src/Operator/Requests/Shown.antt =====
-- internal/controller/operator_session.go: what the answers to an operator key show.
use wyrwood.Base.{◌≡◌, refl, ◌&&◌, ◌||◌, Bool, true, List, [], ◌∷◌, all, keep, subst, arith, ℕ}
use wyrwood.Base.Text.{Text, ◌==t◌}
use wyrwood.Base.Errors.{Result, ok, err, ok-injective}
use wyrwood.Store.Tables.{OperatorKey}
use wyrwood.Store.Policies.{StoredPolicy, policies}
use wyrwood.Store.Bindings.{Binding, bindings}
use wyrwood.Controller.World.{Outside, World, done, read, continue, need}
use wyrwood.Controller.Rules.{continue-elim, demand-elim}
use wyrwood.Controller.Composing.{list_of}
use wyrwood.Operator.Grants.{can, covers, allows_agent, allows_policy, action_read}
use wyrwood.Operator.Messages.{
  RequestError, outside, failed, Request, whoami, policy_list, malformed, policy_get, policy_put,
  binding_list, binding_get, bind, unbind, Answer, operator_subject, PublicPolicy, key_answer,
  policies_answer, policy_answer, bindings_answer, binding_answer, unbound_answer,
}
use wyrwood.Operator.Requests.{
  operator_policies, operator_policy, operator_put_policy, operator_bindings, operator_binding,
  operator_bind, allowed_policies, public_policy, operator_unbind, run_request,
}

-- What an answer may show: the key itself, and lists of policies and bindings inside the grant. A
-- single policy or binding is one that the request names or reaches.
unfoldable pub Shows : OperatorKey → Answer → Type 0
Shows k (key_answer j) = j ≡ k
Shows k (policies_answer ps) = all (λ (p : PublicPolicy). allows_policy k.grant p.name) ps ≡ true
Shows k (bindings_answer bs) = all (λ (b : Binding). covers k.grant b.agent b.policies) bs ≡ true
Shows k _ = Unit

all-keep : {A : Type 0} (p : A → Bool) (l : List A) → all p (keep p l) ≡ true
all-keep p [] = refl
all-keep p (x ∷ l) = ground (arith, all-keep p l)

module _ (out : Outside) where
  allowed_policies-all :
      (k : OperatorKey) (ps : List StoredPolicy)
      → all (λ (p : PublicPolicy). allows_policy k.grant p.name) (allowed_policies out k ps) ≡ true
  unfolding allowed_policies public_policy
  allowed_policies-all k [] = refl
  allowed_policies-all k (p ∷ ps) = ground (arith, allowed_policies-all k ps)

  policies-all :
      (k : OperatorKey) (w : World out) (ps : List PublicPolicy)
      → (operator_policies out k w).0 ≡ ok ps
      → all (λ (p : PublicPolicy). allows_policy k.grant p.name) ps ≡ true
  unfolding operator_policies
  policies-all k w ps =
      let inside = λ (l : List PublicPolicy).
        all (λ (p : PublicPolicy). allows_policy k.grant p.name) l ≡ true in
      let P : Result RequestError (List PublicPolicy) × World out → Type 0 =
        λ x. (x.0 ≡ ok ps) → inside ps in
      demand-elim P (can k.grant action_read) outside w _ (λ bad h. cc)
        λ good.
          continue-elim P (need (λ e. failed) (read (policies out.codec.hcl)) w) _ (λ e lost h. cc)
            λ stored got h. subst inside (ok-injective h) (allowed_policies-all k stored)

  bindings-all :
      (k : OperatorKey) (agent : Text) (w : World out) (bs : List Binding)
      → (operator_bindings out k agent w).0 ≡ ok bs
      → all (λ (b : Binding). covers k.grant b.agent b.policies) bs ≡ true
  unfolding operator_bindings
  bindings-all k agent w bs =
      let inside =
        λ (l : List Binding). all (λ (b : Binding). covers k.grant b.agent b.policies) l ≡ true in
      let P : Result RequestError (List Binding) × World out → Type 0 =
        λ x. (x.0 ≡ ok bs) → inside bs in
      demand-elim P (can k.grant action_read && ((agent ==t []) || allows_agent k.grant agent))
        outside w _ (λ bad h. cc)
        λ good.
          continue-elim P (need (λ e. failed) (read (list_of (bindings agent))) w) _
            (λ e lost h. cc)
            λ stored got h.
              subst inside (ok-injective h)
                (all-keep (λ (b : Binding). covers k.grant b.agent b.policies) stored)

  -- An answer is made of the result of the operation.
  answered :
      {A : Type 0} (x : Result RequestError A × World out) (f : A → Answer) (a : Answer)
      → (continue x (λ r. done {E = RequestError} (f r))).0 ≡ ok a
      → (r : A) × (x.0 ≡ ok r) × (f r ≡ a)
  answered (ok r, v) f a h = (r, refl, ok-injective h)
  answered (err e, v) f a h = cc

  pub run_request-Shows :
      (k : OperatorKey) (id : Text) (now : ℕ) (request : Request) (w : World out) (a : Answer)
      → (run_request out k id now request w).0 ≡ ok a
      → Shows k a
  unfolding run_request Shows
  run_request-Shows k id now whoami w a h = subst (Shows k) (ok-injective h) refl
  run_request-Shows k id now malformed w a h = cc
  run_request-Shows k id now policy_list w a h =
      let (ps, got, is) = answered (operator_policies out k w) policies_answer a h in
      subst (Shows k) is (policies-all k w ps got)
  run_request-Shows k id now (policy_get name) w a h =
      let (p, got, is) = answered (operator_policy out k name w) policy_answer a h in
      subst (Shows k) is tt
  run_request-Shows k id now (policy_put put) w a h =
      let (p, got, is) =
        answered (operator_put_policy out k put (operator_subject k.label) now w) policy_answer a
          h in
      subst (Shows k) is tt
  run_request-Shows k id now (binding_list agent) w a h =
      let (bs, got, is) = answered (operator_bindings out k agent w) bindings_answer a h in
      subst (Shows k) is (bindings-all k agent w bs got)
  run_request-Shows k id now (binding_get name) w a h =
      let (b, got, is) = answered (operator_binding out k name w) binding_answer a h in
      subst (Shows k) is tt
  run_request-Shows k id now (bind request) w a h =
      let (b, got, is) =
        answered (operator_bind out k request id (operator_subject k.label) now w) binding_answer a
          h in
      subst (Shows k) is tt
  run_request-Shows k id now (unbind request) w a h =
      let (r, got, is) = answered (operator_unbind out k request now w) unbound_answer a h in
      subst (Shows k) is tt
