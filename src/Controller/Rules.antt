-- ===== src/Controller/Rules.antt =====
-- How to reason about a chain of calls: by the answer of its first call.
use wyrwood.Base.{◌≡◌, refl, Bool, true, false, arith}
use wyrwood.Base.Errors.{Result, ok, err}
use wyrwood.Store.Tables.{Read}
use wyrwood.Controller.World.{
  Outside, World, Op, Fault, fine, lost, hidden, read_answer, map_error, continue, demand,
}

-- A read that succeeds is the read of the database.
pub read_answer-eq-ok {ℓ} :
    {A : Type ℓ} (fault : Fault) (r : Read A) {a : A} → read_answer fault r ≡ ok a → r ≡ ok a
unfolding read_answer
read_answer-eq-ok fine r h = h
read_answer-eq-ok lost r h = cc
read_answer-eq-ok hidden r h = cc

pub map_error-eq-ok {κ ℓ μ} :
    {E : Type κ} {F : Type μ} {A : Type ℓ} (f : E → F) (r : Result E A) {a : A}
    → map_error f r ≡ ok a
    → r ≡ ok a
unfolding map_error
map_error-eq-ok f (ok a) h = ground arith
map_error-eq-ok f (err e) h = cc

module _ {out : Outside} where
  pub continue-elim {κ ℓ μ ν} :
      {E : Type κ} {A : Type ℓ} {B : Type μ} (P : Result E B × World out → Type ν)
      (x : Result E A × World out) (next : A → Op out E B)
      → ((e : E) → x.0 ≡ err e → P (err e, x.1))
      → ((a : A) → x.0 ≡ ok a → P (next a x.1))
      → P (continue x next)
  continue-elim P (err e, w) next failed went = failed e refl
  continue-elim P (ok a, w) next failed went = went a refl

  pub demand-elim {κ μ ν} :
      {E : Type κ} {B : Type μ} (P : Result E B × World out → Type ν) (b : Bool) (e : E)
      (w : World out) (next : Unit {0} → Op out E B)
      → (b ≡ false → P (err e, w))
      → (b ≡ true → P (next tt w))
      → P (continue (demand b e w) next)
  demand-elim P true e w next failed went = went refl
  demand-elim P false e w next failed went = failed refl
