-- ===== src/Controller/Published.antt =====
-- What the controller relies on of OpenBao, and the worlds in which OpenBao holds what the store
-- holds: every stored policy is published under its name, or the flag policySyncPending is set.
pub mod Quiet
pub mod Synced
pub mod Delete
pub mod Deleted
pub mod Save
pub mod Saving
pub mod Repair
use wyrwood.Base.{
  ℕ, ◌≡◌, ◌≢◌, ◌⊎◌, inl, inr, refl, sym, ap, ◌∙◌, Bool, true, false, Option, none, some, List, [],
  ◌∷◌, arith,
}
use wyrwood.Base.Text.{Text, ◌==t◌}
use wyrwood.Base.Assoc.{Assoc, lookup}
use wyrwood.Base.Errors.{Result, ok, err}
use wyrwood.Policy.Types.{Policy}
use wyrwood.Policy.Hcl.{Hcl}
use wyrwood.Policy.Patterns.{valid_name, open_bao_policy_name}
use wyrwood.Policy.Lifecycle.{published_hcl}
use wyrwood.Store.Tables.{PolicyRow, Store, Read, StoreError}
use wyrwood.Controller.Errors.{Category}
use wyrwood.Controller.World.{
  Manager, Outside, World, Op, Fault, fine, hidden, head_fault, tail_faults, continue, ◌>>=◌, read,
  done, fail, demand, need, attempt,
}

-- What OpenBao documents: a write or a deletion of a policy that succeeds takes effect, one that fails
-- touches no other name, a refused text changes nothing, and no other call changes a policy.
pub record Documented (m : Manager) : Type 0 where
  pub view : m.State → Text → Option Text
  pub write-ok :
      (n h : Text) (s : m.State)
      → (m.write_policy n h s).0 ≡ ok tt
      → view (m.write_policy n h s).1 n ≡ some h
  pub write-other :
      (n h k : Text) (s : m.State) → (n ==t k) ≡ false → view (m.write_policy n h s).1 k ≡ view s k
  pub write-invalid :
      (n h k : Text) (s : m.State)
      → (m.write_policy n h s).0 ≡ err Category.invalid
      → view (m.write_policy n h s).1 k ≡ view s k
  pub delete-ok :
      (n : Text) (s : m.State)
      → (m.delete_policy n s).0 ≡ ok tt
      → view (m.delete_policy n s).1 n ≡ none
  pub delete-other :
      (n k : Text) (s : m.State) → (n ==t k) ≡ false → view (m.delete_policy n s).1 k ≡ view s k
  pub exists-view :
      (n : Text) (s : m.State)
      → (m.policy_exists n s).0 ≡ ok false
      → view (m.policy_exists n s).1 n ≡ none
  pub exists-keeps : (n k : Text) (s : m.State) → view (m.policy_exists n s).1 k ≡ view s k
  pub role-keeps :
      (n k : Text) (ns : List Text) (ttl max : ℕ) (s : m.State)
      → view (m.write_role n ns ttl max s).1 k ≡ view s k
  pub delete_role-keeps : (n k : Text) (s : m.State) → view (m.delete_role n s).1 k ≡ view s k
  pub revoke-keeps : (n k : Text) (s : m.State) → view (m.revoke_accessor n s).1 k ≡ view s k
  pub role_id-keeps : (n k : Text) (s : m.State) → view (m.role_id n s).1 k ≡ view s k
  pub wrapped-keeps :
      (n k : Text) (values : Assoc Text) (s : m.State)
      → view (m.wrapped_secret_id n values s).1 k ≡ view s k
  pub transit-keeps : (n k : Text) (s : m.State) → view (m.transit_key_exists n s).1 k ≡ view s k
  pub ssh-keeps : (n k : Text) (s : m.State) → view (m.ssh_role_exists n s).1 k ≡ view s k

-- Every call of the store that is to come and that fails has no effect.
unfoldable pub NoHidden : List Fault → Type 0
NoHidden [] = Unit
NoHidden (f ∷ fs) = (f ≢ hidden) × NoHidden fs

pub tail_faults-NoHidden : (fs : List Fault) → NoHidden fs → NoHidden (tail_faults fs)
unfolding NoHidden
tail_faults-NoHidden [] h = h
tail_faults-NoHidden (f ∷ fs) h = h.1

pub head_fault-NoHidden : (fs : List Fault) → NoHidden fs → head_fault fs ≢ hidden
unfolding NoHidden
head_fault-NoHidden [] h = λ e. cc
head_fault-NoHidden (f ∷ fs) h = h.0

-- The document of a row, as the store reads it.
abbrev pub document_of : PolicyRow → Policy
document_of r = record r.document { generation = r.generation }

-- Rows under their own valid names.
abbrev pub Named : Store → Type 0
Named s =
    (k : Text) (r : PolicyRow)
    → lookup k s.policies ≡ some r
    → (r.document.name ≡ k) × (valid_name k ≡ true)

module _ (out : Outside) (law : Documented out.manager) where
  abbrev pub Shown : PolicyRow → World out → Type 0
  Shown r w =
      law.view w.bao (open_bao_policy_name (document_of r))
      ≡ some (published_hcl out.codec.hcl (document_of r))

  -- Every stored policy is published, or the flag is set.
  abbrev pub Synced : World out → Type 0
  Synced w =
      (w.sync_pending ≡ true)
      ⊎ ((k : Text) (r : PolicyRow) → lookup k w.db.policies ≡ some r → Shown r w)

  -- The same for every name but one.
  abbrev pub SyncedBut : Text → World out → Type 0
  SyncedBut name w =
      (w.sync_pending ≡ true)
      ⊎ ((k : Text) (r : PolicyRow)
          → (name ==t k) ≡ false
          → lookup k w.db.policies ≡ some r
          → Shown r w)

  -- Two worlds with the same policies, in the store and in OpenBao, and the same flag.
  unfoldable pub Quiet : World out → World out → Type 0
  Quiet w v =
      (v.db.policies ≡ w.db.policies)
      × (v.db.generations ≡ w.db.generations)
      × (v.sync_pending ≡ w.sync_pending)
      × ((k : Text) → law.view v.bao k ≡ law.view w.bao k)
      × (NoHidden w.faults → NoHidden v.faults)

  pub Quiet-refl : (w : World out) → Quiet w w
  unfolding Quiet
  Quiet-refl w = (refl, refl, refl, λ k. refl, λ h. h)

  pub Quiet-trans : (u v w : World out) → Quiet u v → Quiet v w → Quiet u w
  unfolding Quiet
  Quiet-trans u v w (a, g, b, c, d) (a', g', b', c', d') =
      (a' ∙ a, g' ∙ g, b' ∙ b, λ k. c' k ∙ c k, λ h. d' (d h))

  -- A part of an operation that changes none of these.
  pub record Keeps {κ ℓ} {E : Type κ} {A : Type ℓ} (m : Op out E A) : Type 0 where
    pub quiet : (w : World out) → Quiet w (m w).1

  -- A chain whose parts are all of this kind.
  pub continue-Quiet {κ ℓ μ} :
      {E : Type κ} {A : Type ℓ} {B : Type μ} (w : World out) (x : Result E A × World out)
      (next : A → Op out E B)
      → Quiet w x.1
      → ((a : A) → Keeps (next a))
      → Quiet w (continue x next).1
  continue-Quiet w (err e, v) next q after = q
  continue-Quiet w (ok a, v) next q after = Quiet-trans w v (next a v).1 q ((after a).quiet v)

  pub >>=-Keeps {κ ℓ μ} :
      {E : Type κ} {A : Type ℓ} {B : Type μ} {m : Op out E A} {next : A → Op out E B}
      → Keeps m
      → ((a : A) → Keeps (next a))
      → Keeps (m >>= next)
  >>=-Keeps {m} {next} first after = record {
    quiet = λ w. continue-Quiet w (m w) next (first.quiet w) after;
  }

  pub done-Keeps {κ ℓ} : {E : Type κ} {A : Type ℓ} {a : A} → Keeps {E = E} (done a)
  done-Keeps = record { quiet = Quiet-refl }

  pub fail-Keeps {κ ℓ} : {E : Type κ} {A : Type ℓ} {e : E} → Keeps {A = A} (fail e)
  fail-Keeps = record { quiet = Quiet-refl }

  pub demand-Keeps {κ} : {E : Type κ} (b : Bool) (e : E) → Keeps (demand b e)
  demand-Keeps true e = record { quiet = Quiet-refl }
  demand-Keeps false e = record { quiet = Quiet-refl }

  pub read-Keeps {ℓ} : {A : Type ℓ} (call : Store → Read A) → Keeps (read call)
  unfolding Quiet
  read-Keeps call = record {
    quiet = λ w. (refl, refl, refl, λ k. refl, tail_faults-NoHidden w.faults);
  }

  pub need-Keeps {κ ℓ μ} :
      {E : Type κ} {F : Type μ} {A : Type ℓ} (f : E → F) {m : Op out E A}
      → Keeps m
      → Keeps (need f m)
  need-Keeps f h = record { quiet = h.quiet }

  pub attempt-Keeps {κ ℓ μ} :
      {E : Type κ} {F : Type μ} {A : Type ℓ} {m : Op out E A} → Keeps m → Keeps {E = F} (attempt m)
  attempt-Keeps h = record { quiet = h.quiet }

  -- A read of the store whose error is put in other terms.
  pub need-read-Keeps {κ ℓ} :
      {F : Type κ} {A : Type ℓ} (f : StoreError → F) (call : Store → Read A)
      → Keeps (need f (read call))
  need-read-Keeps f call = need-Keeps f (read-Keeps call)
