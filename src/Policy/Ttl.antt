-- ===== src/Policy/Ttl.antt =====
-- internal/policy/policy.go: parseTTL and durationOr. A duration is in nanoseconds, as Go's.
use wyrwood.Base.{
  ℕ, zero, suc, ◌+◌, ◌-◌, ◌*◌, ◌/◌, ◌%◌, ◌≤◌, ◌<◌, ◌^◌, ◌≡◌, refl, Bool, true, false, ◌&&◌, ◌||◌,
  Option, none, some, [], ◌∷◌, ◌++◌, arith, leb, ltb, ◌==◌, if◌then◌else◌,
}
use wyrwood.Base.Text.{Text, codes}
use wyrwood.Policy.Patterns.{is_digit, itoa_fuel, itoa}

-- strconv.Atoi of a run of digits that does not overflow.
unfoldable pub atoi : ℕ → Text → ℕ
atoi acc [] = acc
atoi acc (c ∷ s) = atoi (acc * 10 + (c - b'0')) s

atoi-append : (acc d : ℕ) (s : Text) → atoi acc (s ++ d ∷ []) ≡ atoi acc s * 10 + (d - b'0')
unfolding atoi
atoi-append acc d [] = refl
atoi-append acc d (c ∷ s) = atoi-append (acc * 10 + (c - b'0')) d s

atoi-itoa_fuel : (f n : ℕ) → n < f → atoi 0 (itoa_fuel f n) ≡ n
unfolding itoa_fuel atoi
atoi-itoa_fuel zero n h = absurd (omega arith)
atoi-itoa_fuel (suc f) n h = ground (
  arith,
  atoi-append 0 (b'0' + n % 10) (if leb n 9 then [] else itoa_fuel f (n / 10)),
  atoi-itoa_fuel f (n / 10),
)

-- Reading a printed number gives it back.
pub atoi-itoa : (n : ℕ) → atoi 0 (itoa n) ≡ n
unfolding itoa
atoi-itoa n = atoi-itoa_fuel (suc n) n (omega arith)

abbrev minute : ℕ
minute = 60000000000

abbrev hour : ℕ
hour = 3600000000000

abbrev maximum_token_ttl_amount : ℕ
maximum_token_ttl_amount = 1048576

-- The digits and the unit of ^[0-9]+(m|h)$, with whether a digit came before.
unfoldable pub split_ttl : Bool → Text → Option (Text × ℕ)
split_ttl seen [] = none
split_ttl seen (c ∷ s) = elim (is_digit c) [
  | true ↦ elim (split_ttl true s) [ none ↦ none | some (ds, unit) ↦ some (c ∷ ds, unit) ]
  | false ↦ elim s [
    | [] ↦ if seen && ((c == b'm') || (c == b'h')) then some ([], c) else none
    | _ ∷ _ ↦ none
  ]
]

-- parseTTL; `none` is an error.
unfoldable pub parse_ttl : Text → Option ℕ
unfolding split_ttl atoi
parse_ttl s = elim (split_ttl false s) [
  | none ↦ none
  | some (digits, unit) ↦
      let amount = atoi 0 digits in
      if (amount == 0) || ltb maximum_token_ttl_amount amount
      then none
      else some (if unit == b'h' then amount * hour else amount * minute)
]

-- durationOr: the fallbacks that the package passes parse.
unfoldable pub duration_or : Text → Text → Option ℕ
unfolding parse_ttl
duration_or value fallback = elim (parse_ttl (elim value [ [] ↦ fallback | c ∷ s ↦ c ∷ s ])) [
  | some d ↦ some d
  | none ↦ parse_ttl fallback
]

-- An accepted lifetime is at least a minute and fits a signed 64-bit count of nanoseconds.
pub parse_ttl_bounds : (s : Text) (d : ℕ) → parse_ttl s ≡ some d → (minute ≤ d) × (d < 2 ^ 63)
unfolding parse_ttl
parse_ttl_bounds s d h = ground arith

parse_hours : parse_ttl (codes "8h") ≡ some (8 * hour)
unfolding parse_ttl
parse_hours = refl
