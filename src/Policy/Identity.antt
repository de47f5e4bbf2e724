-- ===== src/Policy/Identity.antt =====
-- The OpenBao policy names of internal/policy/policy.go tell policies and generations apart.
use wyrwood.Base.{
  ℕ, ◌≡◌, refl, sym, ap, ◌∙◌, Bool, true, not, [], ◌∷◌, ◌++◌, arith, leb, if◌then◌else◌, Bool-cases,
  inl, inr,
}
use mathlib.Core.List.{append-nil, append_cancel_left}
use wyrwood.Base.Text.{Text, codes}
use wyrwood.Policy.Patterns.{
  is_slug, slug_tail, matches_name, valid_name, itoa, identity_name, open_bao_policy_prefix,
}
use wyrwood.Policy.Ttl.{atoi, atoi-itoa}

-- What may stand behind a name: nothing, or two dashes and more.
abbrev IsTail : Text → Type 0
IsTail [] = Unit
IsTail (c ∷ []) = ⊥
IsTail (c ∷ d ∷ s) = (c ≡ b'-') × (d ≡ b'-')

-- No slug goes on where another ends with a tail.
slug_ends :
    (after : Bool) (x : Text) (c : ℕ) (t y : Text)
    → IsTail x
    → slug_tail after [] ≡ true
    → slug_tail after (c ∷ t) ≡ true
    → x ≡ c ∷ (t ++ y)
    → ⊥
unfolding slug_tail
slug_ends after [] c t y hx h k e = cc
slug_ends after (a ∷ []) c t y hx h k e = absurd hx
slug_ends after (a ∷ b ∷ x) c [] y hx h k e = ground arith
slug_ends after (a ∷ b ∷ x) c (d ∷ t) y hx h k e = ground arith

-- A slug and its tail are read off their concatenation.
slug_unique :
    (after : Bool) (s t x y : Text)
    → slug_tail after s ≡ true
    → slug_tail after t ≡ true
    → IsTail x
    → IsTail y
    → s ++ x ≡ t ++ y
    → (s ≡ t) × (x ≡ y)
unfolding slug_tail
slug_unique after [] [] x y h k hx hy e = (refl, e)
slug_unique after [] (c ∷ t) x y h k hx hy e = absurd (slug_ends after x c t y hx h k e)
slug_unique after (c ∷ s) [] x y h k hx hy e = absurd (slug_ends after y c s x hy k h (sym e))
slug_unique after (c ∷ s) (d ∷ t) x y h k hx hy e =
    ground (arith, slug_unique (not (is_slug c)) s t x y)

-- The first use of a name is spelled by generation 0 and by generation 1.
abbrev pub SameGeneration : ℕ → ℕ → Type 0
SameGeneration g h = (if leb g 1 then 1 else g) ≡ (if leb h 1 then 1 else h)

abbrev suffix : ℕ → Text
suffix g = if leb g 1 then [] else codes "--" ++ itoa g

suffix-IsTail : (g : ℕ) → IsTail (suffix g)
suffix-IsTail g = elim (Bool-cases (leb g 1)) [
  | inl first ↦ rw first tt
  | inr later ↦ rw later (refl, refl)
]

identity_name-eq :
    (n : Text) (g : ℕ) → identity_name n g ≡ open_bao_policy_prefix ++ (n ++ suffix g)
unfolding identity_name
identity_name-eq n g = elim (Bool-cases (leb g 1)) [
  | inl first ↦ rw (first, append-nil)
  | inr later ↦ rw later
]

matches_name-slug_tail : (n : Text) → matches_name n ≡ true → slug_tail true n ≡ true
unfolding matches_name slug_tail
matches_name-slug_tail [] h = cc
matches_name-slug_tail (c ∷ s) h = ground arith

abbrev generation_of : Text → ℕ
generation_of (c ∷ d ∷ s) = atoi 0 s
generation_of _ = 1

generation_of-suffix : (g : ℕ) → generation_of (suffix g) ≡ (if leb g 1 then 1 else g)
generation_of-suffix g = elim (Bool-cases (leb g 1)) [
  | inl first ↦ rw first
  | inr later ↦ rw later (atoi-itoa g)
]

suffix_injective : (g h : ℕ) → suffix g ≡ suffix h → SameGeneration g h
suffix_injective g h e = sym (generation_of-suffix g) ∙ ap generation_of e ∙ generation_of-suffix h

-- Two policies with valid names share an OpenBao policy name only if they have the same name and
-- the same generation, where the generations 0 and 1 both mean the first use of the name.
pub identity_name-injective :
    (n m : Text) (g h : ℕ)
    → valid_name n ≡ true
    → valid_name m ≡ true
    → identity_name n g ≡ identity_name m h
    → (n ≡ m) × SameGeneration g h
unfolding valid_name
identity_name-injective n m g h vn vm e =
    let (names, tails) =
      slug_unique true n m (suffix g) (suffix h) (matches_name-slug_tail n (ground arith))
        (matches_name-slug_tail m (ground arith)) (suffix-IsTail g) (suffix-IsTail h)
        (append_cancel_left open_bao_policy_prefix _ _
          (sym (identity_name-eq n g) ∙ e ∙ identity_name-eq m h)) in
    (names, suffix_injective g h tails)
