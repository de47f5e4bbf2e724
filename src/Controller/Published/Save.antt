-- ===== src/Controller/Published/Save.antt =====
-- savePolicy of internal/controller/operations.go and the policies that are published.
use wyrwood.Base.{
  ℕ, ◌+◌, ◌≡◌, ◌≢◌, ◌⊎◌, inl, inr, refl, sym, ap, ◌∙◌, subst, true, Option, none, some, List, arith,
}
use wyrwood.Base.Text.{Text, ==t_iff, ==t_refl}
use wyrwood.Base.Assoc.{lookup, lookup-insert, insert}
use wyrwood.Base.Errors.{Result, ok, err, Result-cases}
use wyrwood.Policy.Types.{Policy}
use wyrwood.Policy.Patterns.{valid_name, open_bao_policy_name}
use wyrwood.Policy.Lifecycle.{published_hcl, agent_renewal}
use wyrwood.Policy.Hcl.{Hcl}
use wyrwood.Store.Tables.{PolicyRow, Store, StoreError}
use wyrwood.Store.Policies.{
  save_policy_bindings, saved_generation, next_policy_generation, revision_of,
}
use wyrwood.Store.Bindings.{Binding}
use wyrwood.Controller.Errors.{Category}
use wyrwood.Controller.World.{
  Outside, World, Fault, fine, lost, hidden, written, write_answer, write, head_fault,
}
use wyrwood.Controller.Publishing.{publish}
use wyrwood.Controller.Changes.{Saved, rolled_back, row_saved, stored_as}
use wyrwood.Controller.Published.{
  Documented, document_of, Synced, SyncedBut, Named, NoHidden, head_fault-NoHidden,
}
use wyrwood.Controller.Published.Synced.{
  Quiet-Synced, refused-Synced, Synced-SyncedBut, SyncedBut-rows, SyncedBut-some, publish-SyncedBut,
  publish-Shown, restore-some-Synced, restore-none-Synced,
}
use wyrwood.Controller.Published.Quiet.{saved_as-Keeps}

-- Where the document that is to be stored comes from: the stored one of the name, which keeps its
-- generation, or a free name, which takes the next one.
pub data Plan (s : Store) (next : Policy) : Option Policy → Type 0 where
  again :
      (r : PolicyRow)
      → lookup next.name s.policies ≡ some r
      → next.generation ≡ r.generation
      → Plan s next (some (document_of r))
  anew :
      lookup next.name s.policies ≡ none
      → next.generation ≡ next_policy_generation next.name s
      → Plan s next none

Plan-generation :
    (s : Store) (next : Policy) (previous : Option Policy)
    → Plan s next previous
    → next.generation ≡ saved_generation next.name s
unfolding saved_generation
Plan-generation s next _ (again r found same) = ground arith
Plan-generation s next _ (anew missing same) = ground arith

-- The row that a commit writes.
save-eq-ok :
    (next : Policy) (bs : List Binding) (by : Text) (now : ℕ) (s t : Store) (p : Policy)
    → save_policy_bindings next bs by now s ≡ ok (p, t)
    → next.generation ≡ saved_generation next.name s
    → (r : PolicyRow) × (t.policies ≡ insert next.name r s.policies)
      × ((document_of r).name ≡ next.name)
      × ((document_of r).generation ≡ next.generation)
      × ((document_of r).open_bao ≡ next.open_bao)
unfolding save_policy_bindings
save-eq-ok next bs by now s t p h same = (
  record {
    revision = revision_of (lookup next.name s.policies) + 1;
    document = p;
    saved_at = now;
    saved_by = by;
    generation = saved_generation next.name s;
  },
  ground arith,
  ground arith,
  ground arith,
  ground arith,
)

-- A commit that is not hidden stores the document, or changes nothing.
commit-cases :
    (next : Policy) (bs : List Binding) (by : Text) (now : ℕ) (fault : Fault) (s : Store)
    → fault ≢ hidden
    → next.generation ≡ saved_generation next.name s
    → let call = save_policy_bindings next bs by now s in
      ((r : PolicyRow) × ((written fault call s).policies ≡ insert next.name r s.policies)
        × ((document_of r).name ≡ next.name)
        × ((document_of r).generation ≡ next.generation)
        × ((document_of r).open_bao ≡ next.open_bao)
        × ((p : Policy) × (write_answer fault call ≡ ok p)))
      ⊎ ((written fault call s ≡ s) × ((p : Policy) → write_answer fault call ≢ ok p))
unfolding written write_answer
commit-cases next bs by now lost s seen same = inr (refl, λ p h. cc)
commit-cases next bs by now hidden s seen same = absurd (seen refl)
commit-cases next bs by now fine s seen same =
    elim (Result-cases (save_policy_bindings next bs by now s)) [
      | inl (e, failed) ↦ inr (rw failed, λ p h. ground arith)
      | inr ((p, t), stored) ↦
          let (r, rows, name, generation, text) = save-eq-ok next bs by now s t p stored same in
          inl (r, rw stored rows, name, generation, text, (p, rw stored refl))
    ]

identity-eq :
    (p q : Policy)
    → p.name ≡ q.name
    → p.generation ≡ q.generation
    → open_bao_policy_name p ≡ open_bao_policy_name q
unfolding open_bao_policy_name
identity-eq p q name generation = ground arith

published_hcl-eq :
    (hcl : Hcl) (p q : Policy) → p.open_bao ≡ q.open_bao → published_hcl hcl p ≡ published_hcl hcl q
unfolding published_hcl agent_renewal
published_hcl-eq hcl p q text = ground arith

insert-Named :
    (name : Text) (r : PolicyRow) (s t : Store)
    → t.policies ≡ insert name r s.policies
    → r.document.name ≡ name
    → valid_name name ≡ true
    → Named s
    → Named t
insert-Named name r s t rows same valid named k q found =
    ground (arith, rows, lookup-insert name k r s.policies, named k q, ==t_iff name k)

module _ (out : Outside) (law : Documented out.manager) where
  rolled_back-Synced :
      (next : Policy) (previous : Option Policy) (w : World out)
      → Named w.db
      → valid_name next.name ≡ true
      → Plan w.db next previous
      → SyncedBut out law next.name w
      → Synced out law (rolled_back out {A = Saved} next previous w).1
  unfolding rolled_back
  rolled_back-Synced next _ w named valid (again r found same) h =
      let e = (named next.name r found).0 in
      restore-some-Synced out law next (document_of r) r w named
        (subst (λ n. valid_name n ≡ true) (sym e) valid)
        (subst (λ n. lookup n w.db.policies ≡ some r) (sym e) found) refl
        (subst (λ n. SyncedBut out law n w) (sym e) h)
  rolled_back-Synced next _ w named valid (anew missing same) h =
      restore-none-Synced out law next w named valid missing h

  -- The steps behind the commit: it stored the document, or it changed nothing.
  row_saved-Synced :
      (next : Policy) (previous : Option Policy) (bs : List Binding)
      (answer : Result StoreError Policy) (w : World out)
      → Named w.db
      → valid_name next.name ≡ true
      → (((p : Policy) × (answer ≡ ok p)) × Synced out law w)
        ⊎ (((p : Policy) → answer ≢ ok p) × Plan w.db next previous × SyncedBut out law next.name w)
      → Synced out law (row_saved out next previous bs answer w).1
  unfolding row_saved
  row_saved-Synced next previous bs (ok p) w named valid (inl (went, synced)) =
      Quiet-Synced out law w _ ((saved_as-Keeps out law bs p).quiet w) synced
  row_saved-Synced next previous bs (ok p) w named valid (inr (failed, plan, h)) =
      absurd (failed p refl)
  row_saved-Synced next previous bs (err e) w named valid (inl ((p, went), synced)) = cc
  row_saved-Synced next previous bs (err e) w named valid (inr (failed, plan, h)) =
      rolled_back-Synced next previous w named valid plan h

  -- The steps behind the answer of OpenBao to the publication.
  pub stored_as-Synced :
      (next : Policy) (previous : Option Policy) (bs : List Binding) (by : Text) (now : ℕ)
      (answer : Result Category (Unit {0})) (w : World out)
      → Named w.db
      → valid_name next.name ≡ true
      → Plan w.db next previous
      → NoHidden w.faults
      → Synced out law w
      → (publish out next w).0 ≡ answer
      → Synced out law (stored_as out next previous bs by now answer (publish out next w).1).1
  unfolding stored_as publish
  stored_as-Synced next previous bs by now (err Category.invalid) w named valid plan seen h
        answered =
      refused-Synced out law next w answered h
  stored_as-Synced next previous bs by now (err Category.unavailable) w named valid plan seen h
        answered =
      rolled_back-Synced next previous (publish out next w).1 named valid plan
        (publish-SyncedBut out law next w named valid (Synced-SyncedBut out law next.name w h))
  stored_as-Synced next previous bs by now (err Category.denied) w named valid plan seen h
        answered =
      rolled_back-Synced next previous (publish out next w).1 named valid plan
        (publish-SyncedBut out law next w named valid (Synced-SyncedBut out law next.name w h))
  stored_as-Synced next previous bs by now (err Category.timeout) w named valid plan seen h
        answered =
      rolled_back-Synced next previous (publish out next w).1 named valid plan
        (publish-SyncedBut out law next w named valid (Synced-SyncedBut out law next.name w h))
  stored_as-Synced next previous bs by now (err Category.not_found) w named valid plan seen h
        answered =
      rolled_back-Synced next previous (publish out next w).1 named valid plan
        (publish-SyncedBut out law next w named valid (Synced-SyncedBut out law next.name w h))
  stored_as-Synced next previous bs by now (ok u) w named valid plan seen h answered =
      let x = (publish out next w).1 in
      let but =
        publish-SyncedBut out law next w named valid (Synced-SyncedBut out law next.name w h) in
      let v = write (save_policy_bindings next bs by now) x in
      elim (commit-cases next bs by now (head_fault w.faults) w.db
        (head_fault-NoHidden w.faults seen) (Plan-generation w.db next previous plan)) [
          | inl (r, rows, name, generation, text, went) ↦
              row_saved-Synced next previous bs v.0 v.1
                (insert-Named next.name r w.db v.1.db rows name valid named) valid
                (inl (
                  went,
                  SyncedBut-some out law next.name v.1 r
                      (ground (
                        arith,
                        rows,
                        lookup-insert next.name next.name r w.db.policies,
                        ==t_refl next.name,
                      ))
                      (ap (law.view x.bao) (identity-eq (document_of r) next name generation)
                        ∙ publish-Shown out law next w answered
                        ∙ ap (λ t. some t)
                            (sym (published_hcl-eq out.codec.hcl (document_of r) next text)))
                      (SyncedBut-rows out law next.name x v.1
                        (λ k q other found.
                          ground (arith, rows, lookup-insert next.name k r w.db.policies))
                        refl refl but),
                ))
          | inr (kept, failed) ↦
              row_saved-Synced next previous bs v.0 v.1 (subst Named (sym kept) named) valid (
                inr (
                  failed,
                  subst (λ s. Plan s next previous) (sym kept) plan,
                  SyncedBut-rows out law next.name x v.1
                      (λ k q other found.
                        ap (λ (s : Store). lookup k s.policies) (sym kept) ∙ found)
                      refl refl but,
                ))
        ]
