-- ===== src/Base/Text.antt =====
-- A Go string as the list of its bytes.
use Prim.Native.Nat.{ℕ}
use Prim.Native.Char.{code}
use Prim.Native.String.{String}
use mathlib.Core.Path.{◌≡◌, refl}
use mathlib.Core.Logic.{◌↔◌}
use mathlib.Core.Bool.{Bool, true, false, ◌&&◌, ◌||◌}
use mathlib.Core.List.{List, [], ◌∷◌, ◌++◌}
use mathlib.Core.Option.{Option, none, some}
use native.Mathlib.Omega.{arith}
use wyrwood.Base.Tests.{◌==◌, ltb, if◌then◌else◌}

abbrev pub Text : Type 0
Text = List ℕ

-- The bytes of an ASCII literal.
abbrev pub codes : String → Text
codes (String.◌∷◌ letter more) = code letter ∷ codes more
codes String.[] = []

infix 50 ◌==t◌
unfoldable pub ◌==t◌ : Text → Text → Bool
[] ==t [] = true
(a ∷ s) ==t (b ∷ t) = (a == b) && (s ==t t)
_ ==t _ = false

pub ==t_iff : (s t : Text) → ((s ==t t) ≡ true) ↔ (s ≡ t)
unfolding ◌==t◌
==t_iff [] [] = (λ h. refl, λ h. refl)
==t_iff [] (b ∷ t) = (λ h. cc, λ h. cc)
==t_iff (a ∷ s) [] = (λ h. cc, λ h. cc)
==t_iff (a ∷ s) (b ∷ t) = (λ h. ground (arith, ==t_iff s t), λ h. ground (arith, ==t_iff s t))

pub ==t_refl : (s : Text) → (s ==t s) ≡ true
==t_refl s = (==t_iff s s).1 refl

-- Go's order of strings, byte by byte.
unfoldable pub lt_text : Text → Text → Bool
lt_text [] [] = false
lt_text [] (b ∷ t) = true
lt_text (a ∷ s) [] = false
lt_text (a ∷ s) (b ∷ t) = ltb a b || ((a == b) && lt_text s t)

-- strings.HasPrefix, and what follows the prefix.
unfoldable pub strip_prefix : Text → Text → Option Text
strip_prefix [] s = some s
strip_prefix (p ∷ ps) [] = none
strip_prefix (p ∷ ps) (c ∷ s) = let rest = strip_prefix ps s in if p == c then rest else none

abbrev is_some {ℓ} : {A : Type ℓ} → Option A → Bool
is_some none = false
is_some (some _) = true

unfoldable pub has_prefix : Text → Text → Bool
unfolding strip_prefix
has_prefix s p = is_some (strip_prefix p s)

abbrev pub or_else {ℓ} : {A : Type ℓ} → A → Option A → A
or_else d none = d
or_else d (some a) = a

-- strings.TrimPrefix
unfoldable pub trim_prefix : Text → Text → Text
unfolding strip_prefix
trim_prefix s p = or_else s (strip_prefix p s)

pub strip_prefix-append : (p s : Text) → strip_prefix p (p ++ s) ≡ some s
unfolding strip_prefix
strip_prefix-append [] s = refl
strip_prefix-append (c ∷ p) s = ground (arith, strip_prefix-append p s)

pub strip_prefix-eq-some : (p s t : Text) → strip_prefix p s ≡ some t → s ≡ p ++ t
unfolding strip_prefix
strip_prefix-eq-some [] s t h = ground arith
strip_prefix-eq-some (c ∷ p) [] t h = cc
strip_prefix-eq-some (c ∷ p) (d ∷ s) t h = ground (arith, strip_prefix-eq-some p s t)
