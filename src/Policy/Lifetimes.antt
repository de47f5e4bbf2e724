-- ===== src/Policy/Lifetimes.antt =====
-- internal/policy/composition.go: the token lifetimes of settings that Validate accepts.
use wyrwood.Base.{ℕ, ◌≡◌, ◌≢◌, refl, ◌≤◌, ◌<◌, ◌^◌, some, [], ◌∷◌, arith, Option-cases, inl, inr}
use wyrwood.Base.Text.{Text}
use wyrwood.Base.Errors.{ok, >>=-eq-ok, >>-eq-ok}
use wyrwood.Policy.Types.{Settings, default_token_ttl, default_token_max_ttl}
use wyrwood.Policy.Ttl.{parse_ttl, parse_ttl_bounds, duration_or}
use wyrwood.Policy.BindingValues.{validate_binding_values}
use wyrwood.Policy.Validate.{defaults, settings_ttl, validate_settings, or_text}

settings_ttl-eq-ok : (t : Text) (d : ℕ) → settings_ttl t ≡ ok d → parse_ttl t ≡ some d
unfolding settings_ttl
settings_ttl-eq-ok t d h = elim (Option-cases (parse_ttl t)) [
  | inl bad ↦ ground arith
  | inr (x, good) ↦ ground arith
]

duration_or-parse_ttl :
    (value fallback : Text) (d : ℕ)
    → parse_ttl (or_text value fallback) ≡ some d
    → duration_or value fallback ≡ some d
unfolding duration_or
duration_or-parse_ttl [] fallback d h = ground arith
duration_or-parse_ttl (c ∷ s) fallback d h = ground arith

-- What parseTTL makes of a setting, or of its default where the setting is empty.
parse_ttl-or_text :
    (value fallback : Text) (d : ℕ)
    → parse_ttl (or_text value fallback) ≡ some d
    → (value ≡ [] → parse_ttl fallback ≡ some d) × (value ≢ [] → parse_ttl value ≡ some d)
parse_ttl-or_text [] fallback d h = (λ e. h, λ none. absurd (none refl))
parse_ttl-or_text (c ∷ s) fallback d h = (λ e. cc, λ none. h)

-- Settings that Validate accepts have lifetimes that TTL and MaxTTL return: each is what parseTTL
-- makes of the setting, or of its default where the setting is empty, the lifetime is at least a
-- minute and at most the maximum lifetime, and the nanoseconds of both fit a signed 64-bit integer.
pub accepted_lifetimes :
    (s : Settings)
    → validate_settings s ≡ ok tt
    → (ttl : ℕ) × (max : ℕ) × (duration_or s.token_ttl default_token_ttl ≡ some ttl)
      × (duration_or s.token_max_ttl default_token_max_ttl ≡ some max)
      × (s.token_ttl ≡ [] → parse_ttl default_token_ttl ≡ some ttl)
      × (s.token_ttl ≢ [] → parse_ttl s.token_ttl ≡ some ttl)
      × (s.token_max_ttl ≡ [] → parse_ttl default_token_max_ttl ≡ some max)
      × (s.token_max_ttl ≢ [] → parse_ttl s.token_max_ttl ≡ some max)
      × (60000000000 ≤ ttl)
      × (ttl ≤ max)
      × (max < 2 ^ 63)
unfolding validate_settings defaults
accepted_lifetimes s h =
    let after_values = >>-eq-ok (validate_binding_values s.values) _ h in
    let (ttl, first, after_ttl) =
      >>=-eq-ok (settings_ttl (or_text s.token_ttl default_token_ttl)) _ after_values in
    let (max, second, after_max) =
      >>=-eq-ok (settings_ttl (or_text s.token_max_ttl default_token_max_ttl)) _ after_ttl in
    let parsed = settings_ttl-eq-ok (or_text s.token_ttl default_token_ttl) ttl first in
    let parsed_max =
      settings_ttl-eq-ok (or_text s.token_max_ttl default_token_max_ttl) max second in
    let (empty, set) = parse_ttl-or_text s.token_ttl default_token_ttl ttl parsed in
    let (empty_max, set_max) =
      parse_ttl-or_text s.token_max_ttl default_token_max_ttl max parsed_max in
    (
      ttl,
      max,
      duration_or-parse_ttl s.token_ttl default_token_ttl ttl parsed,
      duration_or-parse_ttl s.token_max_ttl default_token_max_ttl max parsed_max,
      empty,
      set,
      empty_max,
      set_max,
      (parse_ttl_bounds (or_text s.token_ttl default_token_ttl) ttl parsed).0,
      ground (arith, after_max),
      (parse_ttl_bounds (or_text s.token_max_ttl default_token_max_ttl) max parsed_max).1,
    )
