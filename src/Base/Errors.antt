-- ===== src/Base/Errors.antt =====
-- A Go call that returns a value and an error.
use mathlib.Core.Path.{◌≡◌, refl, ap}
use mathlib.Core.Logic.{◌⊎◌, inl, inr}
use mathlib.Core.Bool.{Bool, true, false}

pub data Result {ℓ κ} (E : Type κ) (A : Type ℓ) : Type (ℓ ⊔ κ) where
  ok : A → Result E A
  err : E → Result E A

-- `if err != nil { return err }` between a call and what follows it.
infixl 5 ◌>>=◌ ◌>>◌
abbrev pub ◌>>=◌ {κ ℓ μ} :
    {E : Type κ} {A : Type ℓ} {B : Type μ} → Result E A → (A → Result E B) → Result E B
err problem >>= next = err problem
ok value >>= next = next value

abbrev pub ◌>>◌ {κ ℓ} : {E : Type κ} {B : Type ℓ} → Result E (Unit {0}) → Result E B → Result E B
err problem >> call = err problem
ok _ >> call = call

-- `if !b { return e }`
abbrev pub require {κ} : {E : Type κ} → Bool → E → Result E (Unit {0})
require b problem = elim b [ false ↦ err problem | true ↦ ok tt ]

-- A chain that succeeds: its first call does, and what follows does on its value.
pub >>=-eq-ok {κ ℓ μ} :
    {E : Type κ} {A : Type ℓ} {B : Type μ} (call : Result E A) (next : A → Result E B) {b : B}
    → (call >>= next) ≡ ok b
    → (a : A) × (call ≡ ok a) × (next a ≡ ok b)
>>=-eq-ok (err problem) next done = cc
>>=-eq-ok (ok value) next done = (value, refl, done)

pub >>-eq-ok {κ ℓ} :
    {E : Type κ} {B : Type ℓ} (call : Result E (Unit {0})) (after : Result E B) {b : B}
    → (call >> after) ≡ ok b
    → after ≡ ok b
>>-eq-ok (err problem) after done = cc
>>-eq-ok (ok _) after done = done

abbrev ok_or {ℓ κ} : {E : Type κ} {A : Type ℓ} → A → Result E A → A
ok_or d (ok a) = a
ok_or d (err _) = d

pub ok-injective {ℓ κ} :
    {E : Type κ} {A : Type ℓ} {a b : A} → ◌≡◌ {A = Result E A} (ok a) (ok b) → a ≡ b
ok-injective {a} h = ap (ok_or a) h

-- To split on the answer of a call and keep the equation.
pub Result-cases {κ ℓ} :
    {E : Type κ} {A : Type ℓ} (r : Result E A) → ((e : E) × (r ≡ err e)) ⊎ ((a : A) × (r ≡ ok a))
Result-cases (err e) = inl (e, refl)
Result-cases (ok a) = inr (a, refl)
