-- ===== src/Store/Bindings.antt =====
-- internal/controller/store/store.go: the bindings of policies to container keys.
use wyrwood.Base.{
  ℕ, suc, Bool, true, false, not, ◌&&◌, ◌||◌, Option, none, some, List, [], ◌∷◌, ◌++◌, ◌==◌,
  if◌then◌else◌,
}
use wyrwood.Base.Text.{Text, ◌==t◌, lt_text}
use wyrwood.Base.Assoc.{Assoc, lookup, insert, remove, some_entry}
use wyrwood.Base.Errors.{Result, ok, err, ◌>>=◌, ◌>>◌, require}
use wyrwood.Base.Sort.{has, sort_names}
use wyrwood.Policy.Types.{Settings, Effective}
use wyrwood.Policy.Validate.{defaults}
use wyrwood.Protocol.Types.{Key}
use wyrwood.Store.Tables.{
  StoreError, not_found, conflict, constraint, invalid, BindingRow, TokenRow, Store, Read, Write,
}

pub record Binding : Type 0 where
  pub id : Text
  pub agent : Text
  pub key : Key
  pub policies : List Text
  pub settings : Settings
  pub revision : ℕ
  pub effective : Effective
  pub applied : Bool
  pub role : Text
  pub created_at : ℕ
  pub created_by : Text

-- HasPolicy
unfoldable pub has_policy : Binding → Text → Bool
has_policy b name = has name b.policies

-- The names of one binding in binding_policies.
unfoldable pub members_of : Text → List (Text × Text) → List Text
members_of id [] = []
members_of id ((b, p) ∷ m) = let rest = members_of id m in if b ==t id then p ∷ rest else rest

-- scanBinding of a row
unfoldable pub scan_binding : Store → Text → BindingRow → Binding
scan_binding s id r = record {
  id = id;
  agent = r.agent;
  key = r.key;
  policies = sort_names (members_of id s.members);
  settings = r.settings;
  revision = r.revision;
  effective = r.effective;
  applied = r.applied;
  role = r.role;
  created_at = r.created_at;
  created_by = r.created_by;
}

-- Binding
unfoldable pub binding : Text → Store → Read Binding
binding id s = elim (lookup id s.bindings) [
  | none ↦ err not_found
  | some r ↦ ok (scan_binding s id r)
]

-- ORDER BY agent, created_at
abbrev before : Binding → Binding → Bool
before a b =
    lt_text a.agent b.agent
    || ((a.agent ==t b.agent) && elim (Prim.Native.Nat.compare a.created_at b.created_at) [
      | Prim.Native.Nat.Ordering.lt ↦ true
      | _ ↦ false
    ])

unfoldable pub insert_binding : Binding → List Binding → List Binding
insert_binding b [] = b ∷ []
insert_binding b (c ∷ cs) = if before b c then b ∷ c ∷ cs else c ∷ insert_binding b cs

unfoldable pub scan_bindings : Store → Text → Assoc BindingRow → List Binding
unfolding insert_binding
scan_bindings s agent [] = []
scan_bindings s agent ((id, r) ∷ m) =
    let rest = scan_bindings s agent m in
    if (agent ==t []) || (r.agent ==t agent)
    then insert_binding (scan_binding s id r) rest
    else rest

-- Bindings
unfoldable pub bindings : Text → Store → List Binding
unfolding scan_bindings
bindings agent s = scan_bindings s agent s.bindings

abbrev pub without_members : Text → List (Text × Text) → List (Text × Text)
without_members id [] = []
without_members id ((b, p) ∷ m) =
    let rest = without_members id m in if b ==t id then rest else (b, p) ∷ rest

-- The INSERT loop of writeMembership: a name must be stored, and no row may stand twice.
unfoldable pub insert_members :
    Text → List Text → Store → List (Text × Text) → Result StoreError (List (Text × Text))
insert_members id [] s rows = ok rows
insert_members id (n ∷ ns) s rows = elim (lookup n s.policies) [
  | none ↦ err constraint
  | some _ ↦
      require (not (has n (members_of id rows))) constraint
      >> insert_members id ns s (rows ++ (id, n) ∷ [])
]

-- writeMembership
unfoldable pub write_membership : Text → List Text → Store → Read Store
write_membership id [] s = err invalid
write_membership id (n ∷ ns) s = do
  rows ← insert_members id (n ∷ ns) s (without_members id s.members)
  ok (record s { members = rows })

unfoldable pub same_key : Key → Key → Bool
same_key a b = (a.kind ==t b.kind) && (a.value ==t b.value)

-- A constraint of SQLite becomes ErrConflict.
abbrev pub as_conflict {ℓ} : {A : Type ℓ} → Result StoreError A → Result StoreError A
as_conflict (ok a) = ok a
as_conflict (err constraint) = err conflict
as_conflict (err e) = err e

abbrev pub row_of : Binding → ℕ → Bool → BindingRow
row_of b revision applied = record {
  agent = b.agent;
  key = b.key;
  settings = defaults b.settings;
  revision = revision;
  effective = b.effective;
  applied = applied;
  role = b.role;
  created_at = b.created_at;
  created_by = b.created_by;
}

-- CreateBinding
unfoldable pub create_binding : Binding → Store → Read Store
create_binding b s = elim (lookup b.id s.bindings) [
  | some _ ↦ err conflict
  | none ↦
      require (not (some_entry (λ id r. (r.agent ==t b.agent) && same_key r.key b.key) s.bindings))
        conflict
      >> as_conflict (
          write_membership b.id b.policies (record s {
            bindings =
                insert b.id (row_of b (if b.revision == 0 then 1 else b.revision) b.applied)
                  s.bindings;
          }))
]

-- UPDATE bindings SET settings, revision, effective, applied=0 WHERE id AND revision = b.Revision-1;
-- none where no row changes.
unfoldable pub update_binding : Binding → Assoc BindingRow → Option (Assoc BindingRow)
update_binding b table = elim (lookup b.id table) [
  | none ↦ none
  | some r ↦
      if suc r.revision == b.revision
      then some (
          insert b.id
            (record r {
              settings = defaults b.settings;
              revision = b.revision;
              effective = b.effective;
              applied = false;
            })
            table)
      else none
]

-- ChangeBinding
unfoldable pub change_binding : Binding → Store → Read Store
change_binding b s = elim (update_binding b s.bindings) [
  | none ↦ err conflict
  | some table ↦ write_membership b.id b.policies (record s { bindings = table })
]

-- MarkBindingApplied
unfoldable pub mark_binding_applied : Text → Store → Store
mark_binding_applied id s = elim (lookup id s.bindings) [
  | none ↦ s
  | some r ↦ record s { bindings = insert id (record r { applied = true }) s.bindings }
]

abbrev accessor_of : Option TokenRow → Text
accessor_of none = []
accessor_of (some t) = t.accessor

-- RetireBinding; the deletion cascades to the three tables that name the binding.
unfoldable pub retire_binding : Text → ℕ → Store → Write Text
retire_binding id now s = elim (lookup id s.bindings) [
  | none ↦ err not_found
  | some r ↦ ok (
    accessor_of (lookup id s.tokens),
    record s {
      retired = insert id (record { agent = r.agent; retired_at = now }) s.retired;
      bindings = remove id s.bindings;
      members = without_members id s.members;
      tokens = remove id s.tokens;
      results = remove id s.results;
    },
  )
]

-- RetiredBindingAgent
unfoldable pub retired_binding_agent : Text → Store → Read Text
retired_binding_agent id s = elim (lookup id s.retired) [
  | none ↦ err not_found
  | some r ↦ ok r.agent
]
