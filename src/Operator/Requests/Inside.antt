-- ===== src/Operator/Requests/Inside.antt =====
-- internal/controller/operator_session.go: what an operator key can read and change.
use wyrwood.Base.{
  ◌≡◌, ◌⊎◌, inl, inr, refl, sym, ap, ◌∙◌, not, ◌&&◌, ◌||◌, Bool, true, false, Option, none, some,
  [], arith, Option-cases, ℕ,
}
use wyrwood.Base.Text.{Text, ◌==t◌}
use wyrwood.Base.Errors.{Result, ok, err, ok-injective}
use wyrwood.Protocol.Types.{Key}
use wyrwood.Store.Tables.{
  Store, Read, OperatorKey, StoreError, not_found, conflict, constraint, invalid,
}
use wyrwood.Store.OperatorKeys.{operator_key, is_approved}
use wyrwood.Store.Bindings.{Binding, binding, bindings}
use wyrwood.Controller.World.{
  Outside, World, Op, read, read_answer, head_fault, continue, need, demand, Fault, fine, lost,
  hidden,
}
use wyrwood.Controller.Rules.{continue-elim, demand-elim, read_answer-eq-ok, map_error-eq-ok}
use wyrwood.Controller.Composing.{list_of}
use wyrwood.Controller.Changes.{Saved}
use wyrwood.Operator.Grants.{
  can, covers, allows_agent, allows_policy, action_read, action_bind, action_policy_write,
}
use wyrwood.Operator.Messages.{
  RequestError, outside, failed, not_approved, invalid_request, PolicyPut, BindRequest,
  UnbindRequest, Request, whoami, policy_list, malformed, policy_get, policy_put, binding_list,
  binding_get, bind, unbind, Answer, find_key, reaches_outside, by_key_allowed, well_selected,
  unreadable, operator_subject, UnbindResult, missing,
}
use wyrwood.Operator.Requests.{
  operator_policies, operator_policy, authorized_put_policy, operator_put_policy, operator_bindings,
  operator_binding, find_binding, repeat_bind, bind_found, operator_bind, resolve_unbind, resolved,
  unbind_found, operator_unbind, run_request, dispatch,
}
use wyrwood.Operator.Requests.Shown.{Shows, run_request-Shows}

abbrev covered : OperatorKey → Option Binding → Bool
covered k none = true
covered k (some b) = covers k.grant b.agent b.policies

abbrev stored_binding : Read Binding → Option Binding
stored_binding (ok b) = some b
stored_binding (err e) = none

-- The binding that an unbind request selects.
unfoldable pub selected : UnbindRequest → Store → Option Binding
selected request s = elim request.key [
  | some k ↦ find_key k (bindings request.agent s)
  | none ↦ stored_binding (binding request.id s)
]

-- What a grant has to permit for a request: reading, writing or binding, the names that the request
-- gives, and every binding that it reaches.
unfoldable pub permits : OperatorKey → Request → Store → Bool
unfolding selected
permits k whoami s = true
permits k malformed s = false
permits k policy_list s = can k.grant action_read
permits k (policy_get name) s = can k.grant action_read && allows_policy k.grant name
permits k (policy_put put) s =
    (can k.grant action_policy_write && allows_policy k.grant put.name)
    && not (reaches_outside k put.name (bindings [] s))
permits k (binding_list agent) s =
    can k.grant action_read && ((agent ==t []) || allows_agent k.grant agent)
permits k (binding_get id) s = can k.grant action_read && covered k (stored_binding (binding id s))
permits k (bind request) s =
    (can k.grant action_bind && covers k.grant request.agent request.policies)
    && covered k (find_key request.key (bindings request.agent s))
permits k (unbind request) s =
    (can k.grant action_bind && by_key_allowed k request) && covered k (selected request s)

module _ (out : Outside) where
  -- An error with the store and OpenBao as they were.
  abbrev pub Refused : {A : Type 0} → World out → Result RequestError A × World out → Type 0
  Refused w x = (x.1.db ≡ w.db) × (x.1.bao ≡ w.bao) × ((e : RequestError) × (x.0 ≡ err e))

  -- A call that is refused refuses what it is part of.
  then-Refused :
      {A B : Type 0} (w : World out) (x : Result RequestError A × World out)
      (next : A → Op out RequestError B)
      → Refused w x
      → Refused w (continue x next)
  then-Refused w (err e, v) next (db, bao, _) = (db, bao, (e, refl))
  then-Refused w (ok a, v) next (db, bao, (e, h)) = cc

  read-ok :
      {A : Type 0} (f : StoreError → RequestError) (call : Store → A) (w : World out) (a : A)
      → (need f (read (list_of call)) w).0 ≡ ok a
      → a ≡ call w.db
  read-ok f call w a h = ok-injective (
      sym (
        read_answer-eq-ok (head_fault w.faults) (list_of call w.db)
          (map_error-eq-ok f (read (list_of call) w).0 h)))

  -- A request that a grant does not permit is refused.
  abbrev Judged : {A : Type 0} → Bool → World out → Result RequestError A × World out → Type 0
  Judged permitted w x = (permitted ≡ true) ⊎ Refused w x

  put-Judged :
      (k : OperatorKey) (put : PolicyPut) (by : Text) (now : ℕ) (w : World out)
      → Judged (permits k (policy_put put) w.db) w (operator_put_policy out k put by now w)
  unfolding permits operator_put_policy authorized_put_policy
  put-Judged k put by now w =
      let P : Result RequestError Saved × World out → Type 0 =
        λ x. Judged (permits k (policy_put put) w.db) w x in
      let c1 = can k.grant action_policy_write && allows_policy k.grant put.name in
      let listing = need (λ e. failed) (read (list_of (bindings []))) in
      let judged : P (authorized_put_policy out k put by now w) =
        demand-elim P c1 outside w _ (λ bad. inr (refl, refl, (outside, refl)))
          λ good.
            continue-elim P (listing w) _ (λ e lost. inr (refl, refl, (e, refl)))
              λ bs listed.
                let is = read-ok (λ e. failed) (bindings []) w bs listed in
                demand-elim P (not (reaches_outside k put.name bs)) outside (listing w).1 _
                  (λ bad. inr (refl, refl, (outside, refl))) λ free. inl (ground arith) in
      elim judged [
        | inl permitted ↦ inl permitted
        | inr refused ↦ inr (then-Refused w (authorized_put_policy out k put by now w) _ refused)
      ]

  find_binding-lem :
      (agent : Text) (k : Key) (w : World out)
      → let x = find_binding out agent k w in
        (x.1.db ≡ w.db)
        × (x.1.bao ≡ w.bao)
        × ((existing : Option Binding)
            → x.0 ≡ ok existing
            → existing ≡ find_key k (bindings agent w.db))
  unfolding find_binding
  find_binding-lem agent k w =
      let P : Result RequestError (Option Binding) × World out → Type 0 = λ x.
        (x.1.db ≡ w.db)
        × (x.1.bao ≡ w.bao)
        × ((existing : Option Binding)
            → x.0 ≡ ok existing
            → existing ≡ find_key k (bindings agent w.db)) in
      continue-elim P (need (λ e. failed) (read (list_of (bindings agent))) w) _
        (λ e lost. (refl, refl, λ existing h. cc))
        λ bs listed. (
          refl,
          refl,
          λ existing h.
              sym (ok-injective h)
              ∙ ap (find_key k) (read-ok (λ e. failed) (bindings agent) w bs listed),
        )

  bind-Judged :
      (k : OperatorKey) (request : BindRequest) (id by : Text) (now : ℕ) (w : World out)
      → Judged (permits k (bind request) w.db) w (operator_bind out k request id by now w)
  unfolding permits operator_bind find_binding bind_found repeat_bind
  bind-Judged k request id by now w =
      let P : Result RequestError Binding × World out → Type 0 =
        λ x. Judged (permits k (bind request) w.db) w x in
      let c1 = can k.grant action_bind && covers k.grant request.agent request.policies in
      let x = find_binding out request.agent request.key w in
      let (db, bao, which) = find_binding-lem request.agent request.key w in
      demand-elim P c1 outside w _ (λ bad. inr (refl, refl, (outside, refl)))
        λ good.
          continue-elim P x _ (λ e lost. inr (db, bao, (e, refl)))
            λ existing found. found-judged existing good (which existing found) x.1 db bao
    where
      found-judged :
          (existing : Option Binding)
          → (can k.grant action_bind && covers k.grant request.agent request.policies) ≡ true
          → existing ≡ find_key request.key (bindings request.agent w.db)
          → (v : World out) → v.db ≡ w.db
          → v.bao ≡ w.bao
          → Judged (permits k (bind request) w.db) w (bind_found out k request id by now existing v)
      found-judged none good is v db bao = inl (ground arith)
      found-judged (some b) good is v db bao =
          demand-elim (λ x. Judged (permits k (bind request) w.db) w x)
            (covers k.grant b.agent b.policies) outside v _ (λ bad. inr (db, bao, (outside, refl)))
            λ inside. inl (ground arith)

  resolved-read :
      (v : World out) (fault : Fault) (r : Read Binding)
      → let x = resolved out (read_answer fault r) v in
        (x.1 ≡ v) × ((b : Option Binding) → x.0 ≡ ok b → b ≡ stored_binding r)
  unfolding resolved read_answer
  resolved-read v fine (ok b) = (refl, λ c h. sym (ok-injective h))
  resolved-read v fine (err not_found) = (refl, λ c h. sym (ok-injective h))
  resolved-read v fine (err conflict) = (refl, λ c h. cc)
  resolved-read v fine (err constraint) = (refl, λ c h. cc)
  resolved-read v fine (err invalid) = (refl, λ c h. cc)
  resolved-read v lost r = (refl, λ c h. cc)
  resolved-read v hidden r = (refl, λ c h. cc)

  resolve_unbind-lem :
      (request : UnbindRequest) (w : World out)
      → let x = resolve_unbind out request w in
        (x.1.db ≡ w.db)
        × (x.1.bao ≡ w.bao)
        × ((b : Option Binding) → x.0 ≡ ok b → b ≡ selected request w.db)
  unfolding resolve_unbind selected
  resolve_unbind-lem request w = elim (Option-cases request.key) [
    | inr (k, given) ↦ rw given (find_binding-lem request.agent k w)
    | inl missing ↦
        let v = (read (binding request.id) w).1 in
        let (same, is) = resolved-read v (head_fault w.faults) (binding request.id w.db) in
        rw missing (ap (λ (u : World out). u.db) same, ap (λ (u : World out). u.bao) same, is)
  ]

  unbind-Judged :
      (k : OperatorKey) (request : UnbindRequest) (now : ℕ) (w : World out)
      → Judged (permits k (unbind request) w.db) w (operator_unbind out k request now w)
  unfolding permits operator_unbind unbind_found
  unbind-Judged k request now w =
      let P : Result RequestError UnbindResult × World out → Type 0 =
        λ x. Judged (permits k (unbind request) w.db) w x in
      let x = resolve_unbind out request w in
      let (db, bao, which) = resolve_unbind-lem request w in
      demand-elim P (well_selected request) invalid_request w _
        (λ bad. inr (refl, refl, (invalid_request, refl)))
        λ well.
          demand-elim P (can k.grant action_bind && by_key_allowed k request) outside w _
            (λ bad. inr (refl, refl, (outside, refl)))
            λ good.
              continue-elim P x _ (λ e lost. inr (db, bao, (e, refl)))
                λ b found. found-judged b good (which b found) x.1 db bao
    where
      found-judged :
          (b : Option Binding)
          → (can k.grant action_bind && by_key_allowed k request) ≡ true
          → b ≡ selected request w.db
          → (v : World out) → v.db ≡ w.db
          → v.bao ≡ w.bao
          → Judged (permits k (unbind request) w.db) w (unbind_found out k now b v)
      found-judged none good is v db bao = inl (ground arith)
      found-judged (some b) good is v db bao =
          demand-elim (λ x. Judged (permits k (unbind request) w.db) w x)
            (covers k.grant b.agent b.policies) outside v _ (λ bad. inr (db, bao, (outside, refl)))
            λ inside. inl (ground arith)

  -- One demand before everything else decides.
  first-Judged :
      {A : Type 0} (b : Bool) (w : World out) (next : Unit {0} → Op out RequestError A)
      → Judged b w (continue (demand b outside w) next)
  first-Judged true w next = inl refl
  first-Judged false w next = inr (refl, refl, (outside, refl))

  then-Judged :
      {A B : Type 0} (b : Bool) (w : World out) (x : Result RequestError A × World out)
      (next : A → Op out RequestError B)
      → Judged b w x
      → Judged b w (continue x next)
  then-Judged b w x next (inl permitted) = inl permitted
  then-Judged b w x next (inr refused) = inr (then-Refused w x next refused)

  -- What an attempt to read one binding answers.
  get-Judged :
      (k : OperatorKey) (id : Text) (w : World out)
      → Judged (permits k (binding_get id) w.db) w (operator_binding out k id w)
  unfolding permits operator_binding
  get-Judged k id w =
      let P : Result RequestError Binding × World out → Type 0 =
        λ x. Judged (permits k (binding_get id) w.db) w x in
      demand-elim P (can k.grant action_read) outside w _ (λ bad. inr (refl, refl, (outside, refl)))
        λ good.
          continue-elim P (need missing (read (binding id)) w) _
            (λ e lost. inr (refl, refl, (e, refl)))
            λ b got.
              let found : binding id w.db ≡ ok b =
                read_answer-eq-ok (head_fault w.faults) (binding id w.db)
                  (map_error-eq-ok missing (read (binding id) w).0 got) in
              demand-elim P (covers k.grant b.agent b.policies) outside (read (binding id) w).1 _
                (λ bad. inr (refl, refl, (outside, refl)))
                λ inside. inl (ground (arith, ap stored_binding found))

  run_request-Judged :
      (k : OperatorKey) (id : Text) (now : ℕ) (request : Request) (w : World out)
      → Judged (permits k request w.db) w (run_request out k id now request w)
  unfolding run_request operator_policies operator_policy operator_bindings operator_binding permits
  run_request-Judged k id now whoami w = inl refl
  run_request-Judged k id now malformed w = inr (refl, refl, (invalid_request, refl))
  run_request-Judged k id now policy_list w =
      then-Judged _ w _ _ (first-Judged (can k.grant action_read) w _)
  run_request-Judged k id now (policy_get name) w =
      then-Judged _ w _ _ (first-Judged (can k.grant action_read && allows_policy k.grant name) w _)
  run_request-Judged k id now (policy_put put) w =
      then-Judged _ w _ _ (put-Judged k put (operator_subject k.label) now w)
  run_request-Judged k id now (binding_list agent) w =
      then-Judged _ w _ _ (
        first-Judged (can k.grant action_read && ((agent ==t []) || allows_agent k.grant agent)) w
          _)
  run_request-Judged k id now (binding_get name) w = then-Judged _ w _ _ (get-Judged k name w)
  run_request-Judged k id now (bind request) w =
      then-Judged _ w _ _ (bind-Judged k request id (operator_subject k.label) now w)
  run_request-Judged k id now (unbind request) w =
      then-Judged _ w _ _ (unbind-Judged k request now w)

  -- A request of an operator key is carried out only for a key that is approved when the request is
  -- read, and only where its grant permits the action, the names that the request gives and every
  -- single binding that it reads, binds, unbinds or changes through a policy; a list that it gets has
  -- only policies that the grant allows and bindings that it covers. Otherwise the answer is an error,
  -- and the store and OpenBao stay as they were.
  pub dispatch-inside_grant :
      (fingerprint id : Text) (now : ℕ) (request : Request) (w : World out)
      → let x = dispatch out fingerprint id now request w in
        ((k : OperatorKey) × (operator_key fingerprint w.db ≡ ok k)
          × (is_approved k.state ≡ true)
          × (permits k request w.db ≡ true)
          × ((a : Answer) → x.0 ≡ ok a → Shows k a))
        ⊎ ((x.1.db ≡ w.db) × (x.1.bao ≡ w.bao) × ((e : RequestError) × (x.0 ≡ err e)))
  unfolding dispatch
  dispatch-inside_grant fingerprint id now request w =
      let P : Result RequestError Answer × World out → Type 0 = λ x.
        ((k : OperatorKey) × (operator_key fingerprint w.db ≡ ok k)
          × (is_approved k.state ≡ true)
          × (permits k request w.db ≡ true)
          × ((a : Answer) → x.0 ≡ ok a → Shows k a))
        ⊎ ((x.1.db ≡ w.db) × (x.1.bao ≡ w.bao) × ((e : RequestError) × (x.0 ≡ err e))) in
      let reading = operator_key fingerprint in
      continue-elim P (need unreadable (read reading) w) _ (λ e lost. inr (refl, refl, (e, refl)))
        λ k got.
          let found =
            read_answer-eq-ok (head_fault w.faults) (reading w.db)
              (map_error-eq-ok unreadable (read reading w).0 got) in
          let v = (read reading w).1 in
          demand-elim P (is_approved k.state) not_approved v _
            (λ bad. inr (refl, refl, (not_approved, refl)))
            λ approved. elim (run_request-Judged k id now request v) [
              | inl permitted ↦
                  inl (k, found, approved, permitted, run_request-Shows out k id now request v)
              | inr refused ↦ inr refused
            ]
