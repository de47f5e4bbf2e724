-- ===== src/Base/Assoc.antt =====
-- A Go map or an SQL table by its primary key: an association list with text keys.
-- The order of the entries is the order of insertion.
use mathlib.Core.Path.{◌≡◌, refl}
use mathlib.Core.Bool.{Bool, true, false, ◌||◌}
use mathlib.Core.List.{List, [], ◌∷◌}
use mathlib.Core.Option.{Option, none, some}
use native.Mathlib.Omega.{arith}
use wyrwood.Base.Tests.{if◌then◌else◌}
use wyrwood.Base.Text.{Text, ◌==t◌, ==t_iff}

abbrev pub Assoc {ℓ} : Type ℓ → Type ℓ
Assoc V = List (Text × V)

module _ {ℓ} {V : Type ℓ} where
  unfoldable pub lookup : Text → Assoc V → Option V
  lookup k [] = none
  lookup k ((j, v) ∷ m) = if j ==t k then some v else lookup k m

  -- Replaces the value of a key in place, or adds the entry behind the others.
  unfoldable pub insert : Text → V → Assoc V → Assoc V
  insert k v [] = (k, v) ∷ []
  insert k v ((j, w) ∷ m) = if j ==t k then (k, v) ∷ m else (j, w) ∷ insert k v m

  -- Removes every entry of the key.
  unfoldable pub remove : Text → Assoc V → Assoc V
  remove k [] = []
  remove k ((j, v) ∷ m) = let rest = remove k m in if j ==t k then rest else (j, v) ∷ rest

  pub lookup-insert :
      (k j : Text) (v : V) (m : Assoc V)
      → lookup j (insert k v m) ≡ (if k ==t j then some v else lookup j m)
  unfolding lookup insert
  lookup-insert k j v [] = refl
  lookup-insert k j v ((i, w) ∷ m) =
      ground (arith, ==t_iff k j, ==t_iff i k, ==t_iff i j, lookup-insert k j v m)

  pub lookup-remove :
      (k j : Text) (m : Assoc V) → lookup j (remove k m) ≡ (if k ==t j then none else lookup j m)
  unfolding lookup remove
  lookup-remove k j [] = ground arith
  lookup-remove k j ((i, w) ∷ m) =
      ground (arith, ==t_iff k j, ==t_iff i k, ==t_iff i j, lookup-remove k j m)

  pub remove-missing : (k : Text) (m : Assoc V) → lookup k m ≡ none → remove k m ≡ m
  unfolding lookup remove
  remove-missing k [] h = refl
  remove-missing k ((j, v) ∷ m) h = ground (arith, remove-missing k m)

  -- Whether an entry passes a test.
  unfoldable pub some_entry : (Text → V → Bool) → Assoc V → Bool
  some_entry p [] = false
  some_entry p ((k, v) ∷ m) = p k v || some_entry p m

  pub some_entry_of_lookup :
      (p : Text → V → Bool) (k : Text) (v : V) (m : Assoc V)
      → lookup k m ≡ some v
      → p k v ≡ true
      → some_entry p m ≡ true
  unfolding some_entry lookup
  some_entry_of_lookup p k v [] h q = cc
  some_entry_of_lookup p k v ((j, w) ∷ m) h q =
      ground (arith, ==t_iff j k, some_entry_of_lookup p k v m)
