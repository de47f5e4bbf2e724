-- ===== src/Store/Policies.antt =====
-- internal/controller/store/store.go and policy_rename.go: the policies, their generations and the
-- retirement records of OpenBao identities.
use wyrwood.Base.{
  ℕ, suc, ◌+◌, Bool, true, false, ◌||◌, Option, none, some, List, [], ◌∷◌, any, length, ◌==◌,
  if◌then◌else◌,
}
use wyrwood.Base.Text.{Text, ◌==t◌}
use wyrwood.Base.Assoc.{Assoc, lookup, insert, remove}
use wyrwood.Base.Errors.{ok, err, ◌>>=◌, ◌>>◌, require}
use wyrwood.Base.Sort.{sort_by, sort_names}
use wyrwood.Policy.Types.{Policy}
use wyrwood.Policy.Patterns.{open_bao_policy_name}
use wyrwood.Policy.Hcl.{Hcl}
use wyrwood.Policy.Validate.{validate_policy}
use wyrwood.Store.Tables.{
  not_found, conflict, constraint, invalid, PolicyRow, BindingRow, Store, Read, Write,
}
use wyrwood.Store.Bindings.{Binding, update_binding}

abbrev pub or_zero : Option ℕ → ℕ
or_zero none = 0
or_zero (some n) = n

-- nextPolicyGeneration
unfoldable pub next_policy_generation : Text → Store → ℕ
next_policy_generation name s = or_zero (lookup name s.generations) + 1

abbrev pub revision_of : Option PolicyRow → ℕ
revision_of none = 0
revision_of (some r) = r.revision

-- The generation that a save of this name takes.
unfoldable pub saved_generation : Text → Store → ℕ
saved_generation name s = elim (lookup name s.policies) [
  | none ↦ next_policy_generation name s
  | some r ↦ r.generation
]

-- The generation record, which only the first save of a name writes.
unfoldable pub record_generation : Text → ℕ → Option PolicyRow → Assoc ℕ → Assoc ℕ
record_generation name generation none table = insert name generation table
record_generation name generation (some _) table = table

-- The loop over the derived assignments.
unfoldable pub update_bindings : List Binding → Assoc BindingRow → Read (Assoc BindingRow)
update_bindings [] table = ok table
update_bindings (b ∷ bs) table = elim (update_binding b table) [
  | none ↦ err conflict
  | some table' ↦ update_bindings bs table'
]

-- SavePolicyBindings
unfoldable pub save_policy_bindings : Policy → List Binding → Text → ℕ → Store → Write Policy
save_policy_bindings document bindings by now s = do
  let old = lookup document.name s.policies
  let generation = saved_generation document.name s
  require ((document.generation == 0) || (document.generation == generation)) conflict
  let saved = record document { revision = revision_of old + 1; generation = generation }
  table ← update_bindings bindings s.bindings
  ok (
    saved,
    record s {
      policies =
          insert document.name
            (record {
              revision = revision_of old + 1;
              document = saved;
              saved_at = now;
              saved_by = by;
              generation = generation;
            })
            s.policies;
      generations = record_generation document.name generation old s.generations;
      bindings = table;
    },
  )

-- SavePolicy
unfoldable pub save_policy : Policy → Text → ℕ → Store → Write Policy
unfolding save_policy_bindings
save_policy document by now s = save_policy_bindings document [] by now s

-- Whether a row of binding_policies names the policy.
unfoldable pub selected : Text → List (Text × Text) → Bool
selected name rows = any (λ m. m.1 ==t name) rows

-- DeletePolicy: the foreign key of binding_policies refuses a policy that a binding selects.
unfoldable pub delete_policy : Text → Store → Read Store
delete_policy name s = elim (lookup name s.policies) [
  | none ↦ err not_found
  | some _ ↦
      if selected name s.members
      then err constraint
      else ok (record s { policies = remove name s.policies })
]

pub record StoredPolicy : Type 0 where
  pub policy : Policy
  pub saved_at : ℕ
  pub saved_by : Text

module _ (hcl : Hcl) where
  -- scanPolicy of a row: Decode validates the document.
  unfoldable pub scan_policy : PolicyRow → Read StoredPolicy
  scan_policy r = elim (validate_policy hcl r.document) [
    | err _ ↦ err invalid
    | ok _ ↦ ok (record {
      policy = record r.document { generation = r.generation };
      saved_at = r.saved_at;
      saved_by = r.saved_by;
    })
  ]

  -- Policy
  unfoldable pub policy : Text → Store → Read StoredPolicy
  policy name s = elim (lookup name s.policies) [ none ↦ err not_found | some r ↦ scan_policy r ]

  unfoldable pub scan_policies : Assoc PolicyRow → Read (List StoredPolicy)
  scan_policies [] = ok []
  scan_policies ((n, r) ∷ m) = do p ← scan_policy r; ps ← scan_policies m; ok (p ∷ ps)

  -- Policies, by name
  unfoldable pub policies : Store → Read (List StoredPolicy)
  unfolding scan_policies sort_by
  policies s = scan_policies (sort_by (λ e. e.0) s.policies)

-- UPDATE binding_policies SET policy_name = new WHERE policy_name = old
unfoldable pub move_members : Text → Text → List (Text × Text) → List (Text × Text)
move_members old new [] = []
move_members old new ((b, p) ∷ m) = (b, if p ==t old then new else p) ∷ move_members old new m

unfoldable pub count_members : Text → List (Text × Text) → ℕ
count_members old [] = 0
count_members old ((b, p) ∷ m) =
    let rest = count_members old m in if p ==t old then suc rest else rest

-- recordPolicyRetirement
unfoldable pub record_retirement : Text → ℕ → Assoc ℕ → Assoc ℕ
record_retirement identity now table = elim (lookup identity table) [
  | none ↦ insert identity now table
  | some _ ↦ table
]

-- RecordPolicyRetirement
unfoldable pub record_policy_retirement : Text → ℕ → Store → Store
unfolding record_retirement
record_policy_retirement identity now s = record s {
  retirements = record_retirement identity now s.retirements;
}

-- ForgetPolicyRetirement
unfoldable pub forget_policy_retirement : Text → Store → Store
forget_policy_retirement identity s = record s { retirements = remove identity s.retirements }

abbrev identities : Assoc ℕ → List Text
identities [] = []
identities ((i, t) ∷ m) = i ∷ identities m

-- PolicyRetirements
unfoldable pub policy_retirements : Store → List Text
policy_retirements s = sort_names (identities s.retirements)

abbrev is_none {ℓ} : {A : Type ℓ} → Option A → Bool
is_none none = true
is_none (some _) = false

module _ (hcl : Hcl) where
  -- RenamePolicy
  unfoldable pub rename_policy : Text → Policy → List Binding → Text → ℕ → Store → Write Policy
  rename_policy old document bindings by now s = do
    previous ← policy hcl old s
    require (document.revision == previous.policy.revision + 1) conflict
    require (document.generation == next_policy_generation document.name s) conflict
    require (is_none (lookup document.name s.policies)) conflict
    require (count_members old s.members == length bindings) conflict
    table ← update_bindings bindings s.bindings
    ok (
      document,
      record s {
        policies = remove old (
            insert document.name
              (record {
                revision = document.revision;
                document = document;
                saved_at = now;
                saved_by = by;
                generation = document.generation;
              })
              s.policies);
        generations = insert document.name document.generation s.generations;
        members = move_members old document.name s.members;
        bindings = table;
        retirements =
            record_retirement (open_bao_policy_name previous.policy) now
              (remove (open_bao_policy_name document) s.retirements);
      },
    )
