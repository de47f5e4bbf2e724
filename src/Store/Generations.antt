-- ===== src/Store/Generations.antt =====
-- The generations of policies: a name that is used again takes a new OpenBao identity.
use wyrwood.Base.{ℕ, ◌≤◌, ◌<◌, ◌≡◌, ◌≢◌, refl, ◌⊎◌, inl, inr, true, none, some, arith, Bool-cases}
use native.Mathlib.Nat.{le_refl}
use wyrwood.Base.Text.{Text, ◌==t◌, ==t_iff}
use wyrwood.Base.Assoc.{lookup, insert, lookup-insert, lookup-remove}
use wyrwood.Policy.Hcl.{Hcl}
use wyrwood.Policy.Patterns.{valid_name, identity_name}
use wyrwood.Policy.Identity.{identity_name-injective}
use wyrwood.Store.Tables.{Store, PolicyRow, empty}
use wyrwood.Store.Policies.{next_policy_generation, or_zero}
use wyrwood.Store.Step.{Reach, here, next}
use wyrwood.Store.PolicyChange.{
  PolicyChange, same, created, rewritten, removed, moved, Step-PolicyChange,
}

-- The generation record of a name, zero where there is none.
abbrev pub last_generation : Text → Store → ℕ
last_generation n s = or_zero (lookup n s.generations)

-- A stored policy has the generation that is on record for its name.
abbrev pub GenerationsRecorded : Store → Type 0
GenerationsRecorded s =
    (n : Text) (r : PolicyRow)
    → lookup n s.policies ≡ some r
    → (lookup n s.generations ≡ some r.generation) × (1 ≤ r.generation)

PolicyChange-GenerationsRecorded :
    {s t : Store} → PolicyChange s t → GenerationsRecorded s → GenerationsRecorded t
PolicyChange-GenerationsRecorded (same e g) h n r l = rw g (h n r (rw e at l))
PolicyChange-GenerationsRecorded {s} (created m new free gen e g) h n r l =
    unfold next_policy_generation in
    ground (
      arith,
      h n r,
      lookup-insert m n new s.policies,
      lookup-insert m n new.generation s.generations,
      ==t_iff m n,
    )
PolicyChange-GenerationsRecorded {s} (rewritten m old new found gen e g) h n r l =
    ground (arith, h n r, h m old, lookup-insert m n new s.policies, ==t_iff m n)
PolicyChange-GenerationsRecorded {s} (removed m e g) h n r l =
    ground (arith, h n r, lookup-remove m n s.policies)
PolicyChange-GenerationsRecorded {s} (moved old m new free gen e g) h n r l =
    unfold next_policy_generation in
    ground (
      arith,
      h n r,
      lookup-remove old n (insert m new s.policies),
      lookup-insert m n new s.policies,
      lookup-insert m n new.generation s.generations,
      ==t_iff m n,
    )

-- The record of a name never falls.
PolicyChange-last_generation :
    {s t : Store} → PolicyChange s t → (n : Text) → last_generation n s ≤ last_generation n t
PolicyChange-last_generation (same e g) n = rw g (le_refl _)
PolicyChange-last_generation {s} (created m new free gen e g) n =
    unfold next_policy_generation in
    ground (arith, lookup-insert m n new.generation s.generations, ==t_iff m n)
PolicyChange-last_generation (rewritten m old new found gen e g) n = rw g (le_refl _)
PolicyChange-last_generation (removed m e g) n = rw g (le_refl _)
PolicyChange-last_generation {s} (moved old m new free gen e g) n =
    unfold next_policy_generation in
    ground (arith, lookup-insert m n new.generation s.generations, ==t_iff m n)

-- A stored policy was there before, with its generation, or it takes one above the record.
PolicyChange-row :
    {s t : Store}
    → PolicyChange s t
    → (n : Text) (r : PolicyRow) → lookup n t.policies ≡ some r
    → ((old : PolicyRow) × (lookup n s.policies ≡ some old) × (old.generation ≡ r.generation))
      ⊎ (last_generation n s < r.generation)
PolicyChange-row (same e g) n r l = inl (r, (rw e at l), refl)
PolicyChange-row {s} (created m new free gen e g) n r l = elim (Bool-cases (m ==t n)) [
  | inl mn ↦ inr (
      unfold next_policy_generation in
      ground (arith, lookup-insert m n new s.policies, ==t_iff m n))
  | inr mn ↦ inl (r, ground (arith, lookup-insert m n new s.policies), refl)
]
PolicyChange-row {s} (rewritten m old new found gen e g) n r l = elim (Bool-cases (m ==t n)) [
  | inl mn ↦
      inl (old, ground (arith, ==t_iff m n), ground (arith, lookup-insert m n new s.policies))
  | inr mn ↦ inl (r, ground (arith, lookup-insert m n new s.policies), refl)
]
PolicyChange-row {s} (removed m e g) n r l =
    inl (r, ground (arith, lookup-remove m n s.policies), refl)
PolicyChange-row {s} (moved old m new free gen e g) n r l = elim (Bool-cases (m ==t n)) [
  | inl mn ↦ inr (
      unfold next_policy_generation in
      ground (
        arith,
        lookup-remove old n (insert m new s.policies),
        lookup-insert m n new s.policies,
        ==t_iff m n,
      ))
  | inr mn ↦ inl (
    r,
    ground (arith, lookup-remove old n (insert m new s.policies), lookup-insert m n new s.policies),
    refl,
  )
]

module _ (hcl : Hcl) where
  Reach-GenerationsRecorded : {t : Store} → Reach hcl empty t → GenerationsRecorded t
  unfolding lookup
  Reach-GenerationsRecorded here = λ n r l. cc
  Reach-GenerationsRecorded (next r st) =
      PolicyChange-GenerationsRecorded (Step-PolicyChange hcl st) (Reach-GenerationsRecorded r)

  -- The record of a name never falls along a run.
  Reach-last_generation :
      {s t : Store} → Reach hcl s t → (n : Text) → last_generation n s ≤ last_generation n t
  Reach-last_generation here n = le_refl _
  Reach-last_generation (next r st) n =
      omega (
        arith,
        Reach-last_generation r n,
        PolicyChange-last_generation (Step-PolicyChange hcl st) n,
      )

  -- A policy that is stored after its name was free has a generation above the record then.
  Reach-row :
      {s t : Store}
      → Reach hcl s t
      → (n : Text) → lookup n s.policies ≡ none
      → (r : PolicyRow) → lookup n t.policies ≡ some r
      → last_generation n s < r.generation
  Reach-row here n free r l = cc
  Reach-row (next {u} run st) n free r l =
      elim (PolicyChange-row (Step-PolicyChange hcl st) n r l) [
        | inl (old, before, gen) ↦ omega (arith, Reach-row run n free old before, gen)
        | inr above ↦ omega (arith, Reach-last_generation run n)
      ]

  -- An OpenBao policy name is never used twice: once a policy that had it is gone from the database,
  -- no policy that is stored later, under this name or another, has it again.
  pub identity_never_reused :
      {s t u : Store}
      → Reach hcl empty s
      → Reach hcl s t
      → Reach hcl t u
      → (n m : Text) (old new : PolicyRow) → valid_name n ≡ true
      → valid_name m ≡ true
      → lookup n s.policies ≡ some old
      → lookup n t.policies ≡ none
      → lookup m u.policies ≡ some new
      → identity_name n old.generation ≢ identity_name m new.generation
  identity_never_reused {s} {t} {u} before gap after n m old new vn vm stored gone later e =
      let (names, gens) = identity_name-injective n m old.generation new.generation vn vm e in
      let above = Reach-row after n gone new (rw names later) in
      let (recorded, positive) = Reach-GenerationsRecorded before n old stored in
      ground (arith, gens, above, recorded, positive, Reach-last_generation gap n)
