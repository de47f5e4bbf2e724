-- ===== src/Store/Assignments.antt =====
-- What a binding reads after the calls that write it, and the revisions that refuse a write.
use wyrwood.Base.{
  ℕ, suc, ◌≡◌, ◌≢◌, ◌⊎◌, refl, true, false, some, List, arith, inl, inr, Option-cases, Bool-cases,
  if◌then◌else◌, ◌==◌,
}
use wyrwood.Base.Text.{Text, ==t_refl}
use wyrwood.Base.Assoc.{lookup, insert, lookup-insert}
use wyrwood.Base.Errors.{Result, ok, err}
use wyrwood.Base.Sort.{sort_names}
use wyrwood.Policy.Validate.{defaults}
use wyrwood.Store.Tables.{Store, StoreError, not_found, conflict, constraint, invalid, BindingRow}
use wyrwood.Store.Bindings.{
  Binding, binding, scan_binding, create_binding, change_binding, update_binding,
  mark_binding_applied, as_conflict, row_of, members_of, write_membership,
}
use wyrwood.Store.Reports.{save_assignment_accessor, token_accessor}
use wyrwood.Store.Membership.{write_membership-members_of, write_membership-bindings}

abbrev pub stored_revision : ℕ → ℕ
stored_revision n = if n == 0 then 1 else n

as_conflict-eq-ok {ℓ} :
    {A : Type ℓ} (m : Result StoreError A) {a : A} → as_conflict m ≡ ok a → m ≡ ok a
as_conflict-eq-ok (ok x) h = h
as_conflict-eq-ok (err constraint) h = cc
as_conflict-eq-ok (err conflict) h = cc
as_conflict-eq-ok (err not_found) h = cc
as_conflict-eq-ok (err invalid) h = cc

-- What scanBinding makes of a row and of the names of its policies.
abbrev read_row : Text → BindingRow → List Text → Binding
read_row id r ns = record {
  id = id;
  agent = r.agent;
  key = r.key;
  policies = sort_names ns;
  settings = r.settings;
  revision = r.revision;
  effective = r.effective;
  applied = r.applied;
  role = r.role;
  created_at = r.created_at;
  created_by = r.created_by;
}

binding-read_row :
    (id : Text) (r : BindingRow) (ns : List Text) (t : Store)
    → lookup id t.bindings ≡ some r
    → members_of id t.members ≡ ns
    → binding id t ≡ ok (read_row id r ns)
unfolding binding scan_binding
binding-read_row id r ns t found names = ground arith

-- Rows that are written, and then their membership.
written_row :
    (id : Text) (r : BindingRow) (ns : List Text) (s t : Store)
    → write_membership id ns (record s { bindings = insert id r s.bindings }) ≡ ok t
    → binding id t ≡ ok (read_row id r ns)
written_row id r ns s t h =
    let s' = record s { bindings = insert id r s.bindings } in
    let (same, policies, tokens) = write_membership-bindings id ns s' t h in
    binding-read_row id r ns t (ground (arith, same, lookup-insert id id r s.bindings, ==t_refl id))
      (ground (arith, write_membership-members_of id id ns s' t h, ==t_refl id))

-- A binding that CreateBinding stores is read back with its policies in the order of their names,
-- its settings with their defaults, and its revision, which is 1 where none was given.
pub create_binding-binding :
    (b : Binding) (s t : Store)
    → create_binding b s ≡ ok t
    → binding b.id t
      ≡ ok (record b {
        policies = sort_names b.policies;
        settings = defaults b.settings;
        revision = stored_revision b.revision;
      })
unfolding create_binding
create_binding-binding b s t h =
    written_row b.id (row_of b (stored_revision b.revision) b.applied) b.policies s t
      (as_conflict-eq-ok _ (ground arith))

-- A change that succeeds is read back, and the binding then waits to be applied.
pub change_binding-binding :
    (b : Binding) (s t : Store) (r : BindingRow)
    → lookup b.id s.bindings ≡ some r
    → change_binding b s ≡ ok t
    → binding b.id t
      ≡ ok (record (scan_binding s b.id r) {
        policies = sort_names b.policies;
        settings = defaults b.settings;
        revision = suc r.revision;
        effective = b.effective;
        applied = false;
      })
unfolding change_binding update_binding scan_binding
change_binding-binding b s t r found h = ground (
  arith,
  written_row b.id
      (record r {
        settings = defaults b.settings;
        revision = suc r.revision;
        effective = b.effective;
        applied = false;
      })
      b.policies s t,
)

-- The row that a change leaves.
changed_row :
    (b : Binding) (s t : Store)
    → change_binding b s ≡ ok t
    → (r : BindingRow) × (lookup b.id t.bindings ≡ some r)
      × (r.revision ≡ b.revision)
      × (r.applied ≡ false)
unfolding change_binding update_binding
changed_row b s t h = elim (Option-cases (lookup b.id s.bindings)) [
  | inl missing ↦ ground arith
  | inr (r, found) ↦
      let row = record r {
        settings = defaults b.settings;
        revision = b.revision;
        effective = b.effective;
        applied = false;
      } in
      let s' = record s { bindings = insert b.id row s.bindings } in
      let (same, policies, tokens) =
        write_membership-bindings b.id b.policies s' t (ground arith) in
      (row, ground (arith, same, lookup-insert b.id b.id row s.bindings, ==t_refl b.id), refl, refl)
]

-- Of two changes that were made from one revision of a binding, the second is refused: where
-- ChangeBinding succeeds, a ChangeBinding that follows with its id and revision is a conflict.
pub no_lost_update :
    (b c : Binding) (s t : Store)
    → change_binding b s ≡ ok t
    → c.id ≡ b.id
    → c.revision ≡ b.revision
    → change_binding c t ≡ err conflict
unfolding change_binding update_binding
no_lost_update b c s t h ids revisions =
    let (r, found, revision, waiting) = changed_row b s t h in ground arith

-- SaveAssignmentAccessor stores an accessor only for the revision that was applied last: after a
-- change it refuses every accessor of the binding, and after that change is applied it stores that
-- revision's accessor, which TokenAccessor then reads, and refuses any other revision's.
pub accessor_of_applied_revision :
    (b c : Binding) (s t : Store) (accessor : Text) (now : ℕ)
    → change_binding b s ≡ ok t
    → c.id ≡ b.id
    → (save_assignment_accessor c accessor now t ≡ err conflict)
      × (((c.revision ≡ b.revision)
            × (u : Store) × (save_assignment_accessor c accessor now (mark_binding_applied b.id t)
                ≡ ok u)
            × (token_accessor b.id u ≡ ok accessor))
          ⊎ ((c.revision ≢ b.revision)
              × (save_assignment_accessor c accessor now (mark_binding_applied b.id t)
                  ≡ err conflict)))
unfolding save_assignment_accessor mark_binding_applied token_accessor
accessor_of_applied_revision b c s t accessor now h ids =
    let (r, found, revision, waiting) = changed_row b s t h in
    let applied = lookup-insert b.id b.id (record r { applied = true }) t.bindings in
    (
      ground arith,
      elim (Bool-cases (c.revision == b.revision)) [
        | inl current ↦ inl (
          ground arith,
          record (mark_binding_applied b.id t) {
            tokens = insert b.id (record { accessor = accessor; updated_at = now }) t.tokens;
          },
          ground (arith, applied, ==t_refl b.id),
          ground (
            arith,
            lookup-insert b.id b.id (record { accessor = accessor; updated_at = now }) t.tokens,
            ==t_refl b.id,
          ),
        )
        | inr other ↦ inr (λ e. ground arith, ground (arith, applied, ==t_refl b.id))
      ],
    )
