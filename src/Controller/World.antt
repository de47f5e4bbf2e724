-- ===== src/Controller/World.antt =====
-- internal/controller/controller.go: what an operation of the controller reads and changes: the
-- store, OpenBao, the flag policySyncPending and the live sessions. OpenBao and the packages outside
-- the repository are a parameter, and the disk under the store follows a script of faults, so that a
-- theorem about every world is one about every answer of both.
use wyrwood.Base.{ℕ, Bool, true, false, Option, List, [], ◌∷◌}
use wyrwood.Base.Text.{Text}
use wyrwood.Base.Assoc.{Assoc}
use wyrwood.Base.Errors.{Result, ok, err}
use wyrwood.Policy.Types.{Policy, Effective}
use wyrwood.Protocol.Messages.{AssignableGroups, OpenBao}
use wyrwood.Protocol.Codec.{Codec}
use wyrwood.Store.Tables.{StoreError, invalid, Store, Read, Write}
use wyrwood.Controller.Errors.{Category}

-- The interface OpenBao of the controller. A call may fail after it took effect, or take none where
-- it fails: that is for the state to say.
pub record Manager : Type 1 where
  pub State : Type 0
  pub write_policy : Text → Text → State → Result Category (Unit {0}) × State
  pub delete_policy : Text → State → Result Category (Unit {0}) × State
  pub policy_exists : Text → State → Result Category Bool × State
  pub write_role : Text → List Text → ℕ → ℕ → State → Result Category (Unit {0}) × State
  pub delete_role : Text → State → Result Category (Unit {0}) × State
  pub revoke_accessor : Text → State → Result Category (Unit {0}) × State
  pub role_id : Text → State → Result Category Text × State
  pub wrapped_secret_id : Text → Assoc Text → State → Result Category Text × State
  pub transit_key_exists : Text → State → Result Category Bool × State
  pub ssh_role_exists : Text → State → Result Category Bool × State
  pub approle_mount : Text

pub record Outside : Type 1 where
  pub manager : Manager
  pub codec : Codec
  -- The endpoint that the configuration names.
  pub agent_open_bao : OpenBao
  -- json.Marshal of an assignment and of its revision with it, and SHA-256 in hexadecimal.
  pub effective_json : Effective → Text
  pub assignment_json : ℕ → Effective → Text
  pub sha256_hex : Text → Text
  -- reflect.DeepEqual of two documents
  pub deep_equal : Policy → Policy → Bool
  -- strings.ToLower
  pub lower : Text → Text

-- How the disk answers one call of the store: as it should, with an error and no effect, or with an
-- error behind the effect.
pub data Fault : Type 0 where
  fine lost hidden : Fault

pub record World (out : Outside) : Type 0 where
  pub db : Store
  -- For the calls to come; behind its end the disk answers as it should.
  pub faults : List Fault
  pub bao : out.manager.State
  pub sync_pending : Bool
  -- The live sessions by agent, each with the groups that its hello reported.
  pub sessions : Assoc (Option AssignableGroups)

abbrev pub head_fault : List Fault → Fault
head_fault [] = fine
head_fault (f ∷ fs) = f

abbrev pub tail_faults : List Fault → List Fault
tail_faults [] = []
tail_faults (f ∷ fs) = fs

unfoldable pub read_answer {ℓ} : {A : Type ℓ} → Fault → Read A → Read A
read_answer fine r = r
read_answer lost r = err invalid
read_answer hidden r = err invalid

unfoldable pub write_answer : {A : Type 0} → Fault → Write A → Read A
write_answer fine (ok (a, s)) = ok a
write_answer fine (err e) = err e
write_answer lost r = err invalid
write_answer hidden r = err invalid

unfoldable pub written : {A : Type 0} → Fault → Write A → Store → Store
written fine (ok (a, t)) s = t
written fine (err e) s = s
written lost r s = s
written hidden (ok (a, t)) s = t
written hidden (err e) s = s

module _ (out : Outside) where
  -- A call that may fail.
  abbrev pub Op {κ ℓ} : Type κ → Type ℓ → Type (κ ⊔ ℓ)
  Op E A = World out → Result E A × World out

-- The error of a call, in the terms of the caller.
unfoldable pub map_error {κ ℓ μ} :
    {E : Type κ} {F : Type μ} {A : Type ℓ} → (E → F) → Result E A → Result F A
map_error f (ok a) = ok a
map_error f (err e) = err (f e)

module _ {out : Outside} where
  -- A call of the store that reads.
  abbrev pub read {ℓ} : {A : Type ℓ} → (Store → Read A) → Op out StoreError A
  read call w =
      (read_answer (head_fault w.faults) (call w.db), record w { faults = tail_faults w.faults })

  -- A call of the store that writes.
  abbrev pub write : {A : Type 0} → (Store → Write A) → Op out StoreError A
  write call w = (
    write_answer (head_fault w.faults) (call w.db),
    record w { faults = tail_faults w.faults; db = written (head_fault w.faults) (call w.db) w.db },
  )

  -- A call of OpenBao.
  abbrev pub bao_call {ℓ} :
      {A : Type ℓ} → (out.manager.State → Result Category A × out.manager.State) → Op out Category A
  bao_call call w = ((call w.bao).0, record w { bao = (call w.bao).1 })

  -- `if err != nil { return err }` between a call and what follows it.
  abbrev pub continue {κ ℓ μ} :
      {E : Type κ} {A : Type ℓ} {B : Type μ}
      → Result E A × World out
      → (A → Op out E B)
      → Result E B × World out
  continue (err e, w) next = (err e, w)
  continue (ok a, w) next = next a w

  infixl 5 ◌>>=◌ ◌>>◌
  abbrev pub ◌>>=◌ {κ ℓ μ} :
      {E : Type κ} {A : Type ℓ} {B : Type μ} → Op out E A → (A → Op out E B) → Op out E B
  ◌>>=◌ m next w = continue (m w) next

  abbrev pub ◌>>◌ {κ ℓ} : {E : Type κ} {B : Type ℓ} → Op out E (Unit {0}) → Op out E B → Op out E B
  m >> next = m >>= λ _. next

  abbrev pub done {κ ℓ} : {E : Type κ} {A : Type ℓ} → A → Op out E A
  done a w = (ok a, w)

  abbrev pub fail {κ ℓ} : {E : Type κ} {A : Type ℓ} → E → Op out E A
  fail e w = (err e, w)

  -- `if !b { return e }`
  abbrev pub demand {κ} : {E : Type κ} → Bool → E → Op out E (Unit {0})
  demand true e = done tt
  demand false e = fail e

  abbrev pub need {κ ℓ μ} :
      {E : Type κ} {F : Type μ} {A : Type ℓ} → (E → F) → Op out E A → Op out F A
  need f m w = (map_error f (m w).0, (m w).1)

  -- A call whose error the caller handles.
  abbrev pub attempt {κ ℓ μ} :
      {E : Type κ} {F : Type μ} {A : Type ℓ} → Op out E A → Op out F (Result E A)
  attempt m w = (ok (m w).0, (m w).1)
