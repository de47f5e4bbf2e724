-- ===== src/Policy/Patterns.antt =====
-- internal/policy/policy.go: the regular expressions of names, and the OpenBao policy names.
use wyrwood.Base.{
  ℕ, zero, suc, ◌+◌, ◌/◌, ◌%◌, Bool, true, false, not, ◌&&◌, ◌||◌, [], ◌∷◌, ◌++◌, length, all, leb,
  ◌==◌, if◌then◌else◌,
}
use wyrwood.Base.Text.{Text, codes}
use wyrwood.Policy.Types.{Policy}

abbrev pub is_lower : ℕ → Bool
is_lower c = leb b'a' c && leb c b'z'

abbrev pub is_upper : ℕ → Bool
is_upper c = leb b'A' c && leb c b'Z'

abbrev pub is_digit : ℕ → Bool
is_digit c = leb b'0' c && leb c b'9'

abbrev pub is_slug : ℕ → Bool
is_slug c = is_lower c || is_digit c

-- The rest of a slug; `after` says that a dash was just read.
unfoldable pub slug_tail : Bool → Text → Bool
slug_tail after [] = not after
slug_tail after (c ∷ s) = (is_slug c || ((c == b'-') && not after)) && slug_tail (not (is_slug c)) s

-- ^[a-z][a-z0-9]*(-[a-z0-9]+)*$
unfoldable pub matches_name : Text → Bool
unfolding slug_tail
matches_name [] = false
matches_name (c ∷ s) = is_lower c && slug_tail false s

abbrev non_empty : Text → Bool
non_empty [] = false
non_empty (_ ∷ _) = true

abbrev pub is_identity_char : ℕ → Bool
is_identity_char c =
    is_upper c || is_lower c || is_digit c || (c == b'_') || (c == b'.') || (c == b'-')

-- ^[A-Za-z0-9_.-]+$
unfoldable pub matches_identity : Text → Bool
matches_identity s = non_empty s && all is_identity_char s

-- ^[A-Z_][A-Z0-9_]*$
unfoldable pub matches_env_name : Text → Bool
matches_env_name [] = false
matches_env_name (c ∷ s) =
    (is_upper c || (c == b'_')) && all (λ d. is_upper d || is_digit d || (d == b'_')) s

-- ^[a-z][a-z0-9_]*$
unfoldable pub matches_value_name : Text → Bool
matches_value_name [] = false
matches_value_name (c ∷ s) = is_lower c && all (λ d. is_lower d || is_digit d || (d == b'_')) s

-- ^[A-Za-z0-9_-]+$
unfoldable pub matches_value : Text → Bool
matches_value s =
    non_empty s && all (λ c. is_upper c || is_lower c || is_digit c || (c == b'_') || (c == b'-')) s

abbrev pub maximum_name_bytes : ℕ
maximum_name_bytes = 64

-- ValidName
unfoldable pub valid_name : Text → Bool
unfolding matches_name
valid_name n = leb (length n) maximum_name_bytes && matches_name n

-- strconv.Itoa of a number below 10 ^ fuel.
unfoldable pub itoa_fuel : ℕ → ℕ → Text
itoa_fuel zero n = []
itoa_fuel (suc f) n =
    let rest = itoa_fuel f (n / 10) in (if leb n 9 then [] else rest) ++ (b'0' + n % 10) ∷ []

-- A number has at most as many digits as it is large.
unfoldable pub itoa : ℕ → Text
unfolding itoa_fuel
itoa n = itoa_fuel (suc n) n

abbrev pub open_bao_policy_prefix : Text
open_bao_policy_prefix = codes "wyrwood-"

-- openBaoPolicyName
unfoldable pub identity_name : Text → ℕ → Text
unfolding itoa
identity_name n generation =
    if leb generation 1
    then open_bao_policy_prefix ++ n
    else open_bao_policy_prefix ++ (n ++ (codes "--" ++ itoa generation))

-- OpenBaoPolicyName
unfoldable pub open_bao_policy_name : Policy → Text
unfolding identity_name
open_bao_policy_name p = identity_name p.name p.generation

-- sourceGeneration
unfoldable pub source_generation : Policy → ℕ
source_generation p = if leb p.generation 1 then 0 else p.generation
