-- ===== src/Controller/Roles/Applied.antt =====
-- applyBinding of internal/controller/operations.go: what OpenBao holds once it succeeds.
use wyrwood.Base.{
  ℕ, ◌≡◌, ◌≢◌, ◌⊎◌, inl, inr, refl, sym, ap, ◌∙◌, subst, not, Bool, true, false, Option, none, some,
  List, [], ◌∷◌, arith, if◌then◌else◌, ltb, length,
}
use wyrwood.Base.Text.{Text, ◌==t◌, ==t_iff, ==t_refl}
use wyrwood.Base.Assoc.{Assoc, lookup, lookup-insert}
use wyrwood.Base.Errors.{Result, ok, err, ok-injective}
use wyrwood.Policy.Types.{default_token_ttl, default_token_max_ttl}
use wyrwood.Policy.Ttl.{duration_or}
use wyrwood.Policy.Compose.{names_of, open_bao_policies}
use wyrwood.Store.Tables.{Store, StoreError, not_found, conflict, constraint, invalid, BindingRow}
use wyrwood.Store.Policies.{or_zero}
use wyrwood.Store.Bindings.{Binding, mark_binding_applied}
use wyrwood.Store.Reports.{token_accessor}
use wyrwood.Controller.Errors.{Category, Trouble, bao, disk, own}
use wyrwood.Controller.World.{
  Manager, Outside, World, done, read, bao_call, head_fault, read_answer, write_answer, written,
  need, Fault, fine, lost, hidden,
}
use wyrwood.Controller.Rules.{continue-elim, demand-elim, read_answer-eq-ok, map_error-eq-ok}
use wyrwood.Controller.Publishing.{
  equal_names, apply_binding, known_accessor, accessor_read, when, transition, change_of,
}

-- What OpenBao documents of roles and tokens: a write, a deletion or a revocation that succeeds takes
-- effect, and the calls that follow a role's write leave the roles and the revoked tokens alone.
pub record RoleLaws (m : Manager) : Type 0 where
  -- The policies of a role, and whether the token of an accessor is revoked.
  pub role : m.State → Text → Option (List Text)
  pub revoked : m.State → Text → Bool
  pub write_role-ok :
      (n : Text) (ns : List Text) (ttl max : ℕ) (s : m.State)
      → (m.write_role n ns ttl max s).0 ≡ ok tt
      → role (m.write_role n ns ttl max s).1 n ≡ some ns
  pub delete_role-ok :
      (n : Text) (s : m.State) → (m.delete_role n s).0 ≡ ok tt → role (m.delete_role n s).1 n ≡ none
  pub revoke-ok :
      (a : Text) (s : m.State)
      → (m.revoke_accessor a s).0 ≡ ok tt
      → revoked (m.revoke_accessor a s).1 a ≡ true
  pub revoke-role : (a n : Text) (s : m.State) → role (m.revoke_accessor a s).1 n ≡ role s n
  pub role_id-role : (n k : Text) (s : m.State) → role (m.role_id n s).1 k ≡ role s k
  pub wrapped-role :
      (n k : Text) (values : Assoc Text) (s : m.State)
      → role (m.wrapped_secret_id n values s).1 k ≡ role s k
  pub role_id-revoked : (n a : Text) (s : m.State) → revoked (m.role_id n s).1 a ≡ revoked s a
  pub wrapped-revoked :
      (n a : Text) (values : Assoc Text) (s : m.State)
      → revoked (m.wrapped_secret_id n values s).1 a ≡ revoked s a

written-ok :
    (f : Store → Store) (fault : Fault) (s : Store)
    → write_answer fault (change_of f s) ≡ ok tt
    → written fault (change_of f s) s ≡ f s
unfolding written write_answer
written-ok f fine s h = refl
written-ok f lost s h = cc
written-ok f hidden s h = cc

mark_binding_applied-lookup :
    (id : Text) (s : Store) (r : BindingRow)
    → lookup id s.bindings ≡ some r
    → lookup id (mark_binding_applied id s).bindings ≡ some (record r { applied = true })
unfolding mark_binding_applied
mark_binding_applied-lookup id s r found =
    ground (arith, lookup-insert id id (record r { applied = true }) s.bindings, ==t_refl id)

equal_names-eq : (l m : List Text) → equal_names l m ≡ true → l ≡ m
unfolding equal_names
equal_names-eq [] [] h = refl
equal_names-eq [] (b ∷ m) h = cc
equal_names-eq (a ∷ l) [] h = cc
equal_names-eq (a ∷ l) (b ∷ m) h = ground (arith, ==t_iff a b, equal_names-eq l m)

module _ (out : Outside) where
  -- Only a binding that names the policies of its assignment is applied, or found to be applied.
  pub apply_binding-names :
      (b : Binding) (w : World out)
      → (apply_binding out b w).0 ≡ ok tt
      → b.policies ≡ names_of b.effective
  unfolding apply_binding
  apply_binding-names b w =
      let P : Result Trouble (Unit {0}) × World out → Type 0 =
        λ x. (x.0 ≡ ok tt) → b.policies ≡ names_of b.effective in
      demand-elim P (equal_names b.policies (names_of b.effective)) own w _ (λ other h. cc)
        λ equal h. equal_names-eq b.policies (names_of b.effective) equal

  accessor_read-eq-ok :
      (r : Result StoreError Text) (w : World out) (a : Text)
      → (accessor_read out r w).0 ≡ ok a
      → ((accessor_read out r w).1 ≡ w) × (((r ≡ ok a)) ⊎ ((r ≡ err not_found) × (a ≡ [])))
  unfolding accessor_read
  accessor_read-eq-ok (ok accessor) w a h = (refl, inl (ground arith))
  accessor_read-eq-ok (err not_found) w a h = (refl, inr (refl, ground arith))
  accessor_read-eq-ok (err conflict) w a h = cc
  accessor_read-eq-ok (err constraint) w a h = cc
  accessor_read-eq-ok (err invalid) w a h = cc

  read_accessor-not_found :
      (id : Text) (fault : Fault) (s : Store) (stored : Text)
      → read_answer fault (token_accessor id s) ≡ err not_found
      → token_accessor id s ≢ ok stored
  unfolding read_answer
  read_accessor-not_found id fine s stored h = λ k. cc
  read_accessor-not_found id lost s stored h = cc
  read_accessor-not_found id hidden s stored h = cc

  -- The accessor that is found is the stored one, where one is stored.
  known_accessor-eq-ok :
      (id : Text) (w : World out) (a : Text)
      → (known_accessor out id w).0 ≡ ok a
      → ((known_accessor out id w).1 ≡ (read (token_accessor id) w).1)
        × ((stored : Text) → token_accessor id w.db ≡ ok stored → a ≡ stored)
  unfolding known_accessor
  known_accessor-eq-ok id w a h =
      let x = read (token_accessor id) w in
      let (same, which) = accessor_read-eq-ok x.0 x.1 a h in
      (
        same,
        λ stored there. elim which [
          | inl found ↦
              ok-injective (
                sym (read_answer-eq-ok (head_fault w.faults) (token_accessor id w.db) found)
                ∙ there)
          | inr (missing, _) ↦
              absurd (read_accessor-not_found id (head_fault w.faults) w.db stored missing there)
        ],
      )

  when-bao-db :
      (b : Bool) (call : out.manager.State → Result Category (Unit {0}) × out.manager.State)
      (w : World out)
      → ((when out b (need bao (bao_call call)) w).1.db ≡ w.db)
        × ((when out b (need bao (bao_call call)) w).1.faults ≡ w.faults)
  when-bao-db true call w = (refl, refl)
  when-bao-db false call w = (refl, refl)

  module _ (laws : RoleLaws out.manager) where
    revoked_when :
        (a : Text) (w : World out)
        → (when out (not (a ==t [])) (need bao (bao_call (out.manager.revoke_accessor a))) w).0
          ≡ ok tt
        → let v =
            (when out (not (a ==t [])) (need bao (bao_call (out.manager.revoke_accessor a))) w).1 in
          ((n : Text) → laws.role v.bao n ≡ laws.role w.bao n)
          × (a ≢ [] → laws.revoked v.bao a ≡ true)
    unfolding ◌==t◌
    revoked_when [] w h = (λ n. refl, λ none. absurd (none refl))
    revoked_when (c ∷ a) w h = (
      λ n. laws.revoke-role (c ∷ a) n w.bao,
      λ some.
          laws.revoke-ok (c ∷ a) w.bao
            (map_error-eq-ok bao (out.manager.revoke_accessor (c ∷ a) w.bao).0 h),
    )

    -- What a transition leaves.
    abbrev pub Applied : Binding → World out → World out → Type 0
    Applied b w v =
        (laws.role v.bao b.role ≡ some (open_bao_policies b.effective))
        × ((accessor : Text)
            → token_accessor b.id w.db ≡ ok accessor
            → accessor ≢ []
            → laws.revoked v.bao accessor ≡ true)
        × ((r : BindingRow)
            → lookup b.id w.db.bindings ≡ some r
            → lookup b.id v.db.bindings ≡ some (record r { applied = true }))

    -- A transition that succeeds gives the role of the binding exactly the policies of its assignment,
    -- revokes the token of the accessor that was stored for it, and then marks it applied.
    transition_lem :
        (b : Binding) (w : World out)
        → (transition out b w).0 ≡ ok tt
        → Applied b w (transition out b w).1
    unfolding transition
    transition_lem b w =
        let P : Result Trouble (Unit {0}) × World out → Type 0 =
          λ x. (x.0 ≡ ok tt) → Applied b w x.1 in
        let x1 =
          when out (ltb 0 (length b.settings.values))
            (need bao (bao_call (out.manager.delete_role b.role))) w in
        let (db1, faults1) =
          when-bao-db (ltb 0 (length b.settings.values)) (out.manager.delete_role b.role) w in
        continue-elim P x1 _ (λ e failed h. cc)
          λ u deleted.
            let ns = open_bao_policies b.effective in
            let ttl = or_zero (duration_or b.settings.token_ttl default_token_ttl) in
            let max = or_zero (duration_or b.settings.token_max_ttl default_token_max_ttl) in
            let x2 =
              need {F = Trouble} bao (bao_call (out.manager.write_role b.role ns ttl max)) x1.1 in
            continue-elim P x2 _ (λ e failed h. cc)
              λ u' wrote.
                let given = laws.write_role-ok b.role ns ttl max x1.1.bao (
                  map_error-eq-ok bao (out.manager.write_role b.role ns ttl max x1.1.bao).0
                    wrote) in
                let x3 = known_accessor out b.id x2.1 in
                continue-elim P x3 _ (λ e failed h. cc)
                  λ accessor known.
                    let (same, stored) = known_accessor-eq-ok b.id x2.1 accessor known in
                    let revoking =
                      when out (not (accessor ==t []))
                        (need bao (bao_call (out.manager.revoke_accessor accessor))) in
                    let x4 = revoking x3.1 in
                    continue-elim P x4 _ (λ e failed h. cc)
                      λ u'' revoked.
                        let (roles, gone) = revoked_when accessor x3.1 revoked in
                        let (db4, faults4) =
                          when-bao-db (not (accessor ==t [])) (out.manager.revoke_accessor accessor)
                            x3.1 in
                        let db : x4.1.db ≡ w.db = db4 ∙ ap (λ (v : World out). v.db) same ∙ db1 in
                        λ h.
                          let marked =
                            written-ok (mark_binding_applied b.id) (head_fault x4.1.faults) x4.1.db
                              (map_error-eq-ok disk _ h) in
                          (
                            roles b.role
                                ∙ ap (λ (v : World out). laws.role v.bao b.role) same
                                ∙ given,
                            λ a there full.
                                let is : accessor ≡ a =
                                  stored a (ap (token_accessor b.id) db1 ∙ there) in
                                subst (λ c. laws.revoked x4.1.bao c ≡ true) is
                                  (gone (λ e. full (sym is ∙ e))),
                            λ r found.
                                ap (λ (s : Store). lookup b.id s.bindings)
                                  (marked ∙ ap (mark_binding_applied b.id) db)
                                ∙ mark_binding_applied-lookup b.id w.db r found,
                          )

    -- applyBinding of a binding that is not applied succeeds only where the binding names the policies of
    -- its assignment, and then the role has exactly these policies in OpenBao, the token of the
    -- accessor that was stored for the binding is revoked, and the binding is stored as applied.
    pub apply_binding_lem :
        (b : Binding) (w : World out)
        → b.applied ≡ false
        → (apply_binding out b w).0 ≡ ok tt
        → let v = (apply_binding out b w).1 in
          (b.policies ≡ names_of b.effective)
          × (laws.role v.bao b.role ≡ some (open_bao_policies b.effective))
          × ((accessor : Text)
              → token_accessor b.id w.db ≡ ok accessor
              → accessor ≢ []
              → laws.revoked v.bao accessor ≡ true)
          × ((r : BindingRow)
              → lookup b.id w.db.bindings ≡ some r
              → lookup b.id v.db.bindings ≡ some (record r { applied = true }))
    unfolding apply_binding
    apply_binding_lem b w waiting =
        let P : Result Trouble (Unit {0}) × World out → Type 0 = λ x.
          (x.0 ≡ ok tt)
          → (b.policies ≡ names_of b.effective)
            × (laws.role x.1.bao b.role ≡ some (open_bao_policies b.effective))
            × ((accessor : Text)
                → token_accessor b.id w.db ≡ ok accessor
                → accessor ≢ []
                → laws.revoked x.1.bao accessor ≡ true)
            × ((r : BindingRow)
                → lookup b.id w.db.bindings ≡ some r
                → lookup b.id x.1.db.bindings ≡ some (record r { applied = true })) in
        demand-elim P (equal_names b.policies (names_of b.effective)) own w _ (λ other h. cc)
          λ equal.
            subst (λ c. P ((if c then done tt else transition out b) w)) (sym waiting)
              λ h.
                let (role, revoked, marked) = transition_lem b w h in
                (equal_names-eq b.policies (names_of b.effective) equal, role, revoked, marked)
