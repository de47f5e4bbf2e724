-- ===== src/Base/Sort.antt =====
-- sort.Slice and sort.Strings by a text key.
use mathlib.Core.Path.{◌≡◌, refl, sym, ap, ◌∙◌}
use mathlib.Core.Bool.{Bool, false, ◌&&◌, ◌||◌}
use mathlib.Core.List.{List, [], ◌∷◌}
use native.Mathlib.Omega.{arith}
use wyrwood.Base.Tests.{if◌then◌else◌}
use wyrwood.Base.Lists.{any, keep}
use wyrwood.Base.Text.{Text, lt_text, ◌==t◌, ==t_iff}

module _ {ℓ} {A : Type ℓ} (key : A → Text) where
  unfoldable pub insert_by : A → List A → List A
  insert_by x [] = x ∷ []
  insert_by x (y ∷ ys) = if lt_text (key y) (key x) then y ∷ insert_by x ys else x ∷ y ∷ ys

  unfoldable pub sort_by : List A → List A
  unfolding insert_by
  sort_by [] = []
  sort_by (x ∷ xs) = insert_by x (sort_by xs)

unfoldable pub sort_names : List Text → List Text
unfolding sort_by
sort_names = sort_by (λ s. s)

-- Whether a text is in a slice of texts.
unfoldable pub has : Text → List Text → Bool
has k [] = false
has k (j ∷ l) = (j ==t k) || has k l

-- set[k] = true
unfoldable pub add_name : Text → List Text → List Text
unfolding has
add_name k l = if has k l then l else k ∷ l

module _ {ℓ} {A : Type ℓ} (key : A → Text) (p : A → Bool) where
  any-insert_by : (x : A) (xs : List A) → any p (insert_by key x xs) ≡ (p x || any p xs)
  unfolding insert_by
  any-insert_by x [] = refl
  any-insert_by x (y ∷ ys) = ground (arith, any-insert_by x ys)

  -- Sorting keeps the elements.
  pub any-sort_by : (xs : List A) → any p (sort_by key xs) ≡ any p xs
  unfolding sort_by
  any-sort_by [] = refl
  any-sort_by (x ∷ xs) =
      any-insert_by x (sort_by key xs) ∙ ap (λ (b : Bool). p x || b) (any-sort_by xs)

pub has-eq-any : (k : Text) (l : List Text) → has k l ≡ any (λ j. j ==t k) l
unfolding has
has-eq-any k [] = refl
has-eq-any k (j ∷ l) = ap (λ (b : Bool). (j ==t k) || b) (has-eq-any k l)

pub has-sort_names : (k : Text) (l : List Text) → has k (sort_names l) ≡ has k l
unfolding sort_names
has-sort_names k l =
    has-eq-any k (sort_by (λ s. s) l) ∙ any-sort_by (λ s. s) (λ j. j ==t k) l ∙ sym (has-eq-any k l)

pub has-add_name : (k n : Text) (l : List Text) → has k (add_name n l) ≡ ((n ==t k) || has k l)
unfolding add_name has
has-add_name k n l = ground (arith, ==t_iff n k, ==t_iff k n)

pub has-keep : (k : Text) (q : Text → Bool) (l : List Text) → has k (keep q l) ≡ (q k && has k l)
unfolding has
has-keep k q [] = ground arith
has-keep k q (j ∷ l) = ground (arith, ==t_iff j k, has-keep k q l)

-- No text stands twice.
abbrev pub Distinct : List Text → Type 0
Distinct [] = Unit
Distinct (k ∷ l) = (has k l ≡ false) × Distinct l
