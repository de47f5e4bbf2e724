-- ===== src/Policy/Lifecycle.antt =====
-- internal/policy/lifecycle.go and legacy_lifecycle.go: the managed lifecycle grants of a token.
use Prim.Native.Nat.{Ordering, compare, min}
use wyrwood.Base.{
  ℕ, ◌+◌, ◌-◌, Bool, true, false, not, ◌&&◌, ◌||◌, Option, none, some, List, [], ◌∷◌, ◌++◌, length,
  any, take, drop, ◌==◌, if◌then◌else◌,
}
use wyrwood.Base.Text.{Text, codes, ◌==t◌, has_prefix, trim_prefix, strip_prefix}
use wyrwood.Base.Sort.{has}
use wyrwood.Policy.Types.{Policy, Effective, Source}
use wyrwood.Policy.Patterns.{itoa}
use wyrwood.Policy.CleanPath.{split_on}
use wyrwood.Policy.Hcl.{Token, Item, Rule, Hcl}

-- LifecycleHCL
unfoldable pub lifecycle_hcl : Bool → Text
lifecycle_hcl renew =
    codes "path \"auth/token/lookup-self\" { capabilities = [\"read\"] }\n"
    ++ ((if renew
          then codes "path \"auth/token/renew-self\" { capabilities = [\"update\"] }\n"
          else codes "path \"auth/token/renew-self\" { capabilities = [] }\n")
        ++ codes "path \"auth/token/revoke-self\" { capabilities = [\"update\"] }\n")

abbrev pub lifecycle_paths : List Text
lifecycle_paths =
    codes "auth/token/lookup-self"
    ∷ codes "auth/token/renew-self"
    ∷ codes "auth/token/revoke-self"
    ∷ []

-- lifecyclePath
unfoldable pub lifecycle_path : Text → Bool
unfolding has trim_prefix
lifecycle_path path = has (trim_prefix path (codes "/")) lifecycle_paths

abbrev text_or_empty : Option Text → Text
text_or_empty none = []
text_or_empty (some t) = t

-- Whether the item is the stanza of a lifecycle path.
unfoldable pub lifecycle_keys : List Token → Bool
unfolding lifecycle_path
lifecycle_keys (first ∷ second ∷ []) =
    elim first.value [ none ↦ false | some v ↦ v ==t codes "path" ]
    && lifecycle_path (text_or_empty second.value)
lifecycle_keys _ = false

unfoldable pub kept_items : List Item → List Item
unfolding lifecycle_keys
kept_items [] = []
kept_items (i ∷ is) = let rest = kept_items is in if lifecycle_keys i.keys then rest else i ∷ rest

-- The spans to cut, the first of the source first.
unfoldable pub removed_spans : List Item → List (ℕ × ℕ)
unfolding lifecycle_keys
removed_spans [] = []
removed_spans (i ∷ is) =
    let rest = removed_spans is in
    if lifecycle_keys i.keys
    then elim i.rbrace [ none ↦ rest | some brace ↦ (i.pos, brace + 1) ∷ rest ]
    else rest

-- source[:start] + source[end:], from the last span to the first.
unfoldable pub cut_spans : List (ℕ × ℕ) → Text → Text
cut_spans [] source = source
cut_spans ((start, end) ∷ spans) source =
    let rest = cut_spans spans source in take start rest ++ drop end rest

abbrev is_blank : ℕ → Bool
is_blank c = (c == 9) || (c == 10) || (c == 11) || (c == 12) || (c == 13) || (c == 32)

-- HasPrefix(TrimSpace(source), "{"), for ASCII space.
unfoldable pub starts_with_brace : Text → Bool
starts_with_brace [] = false
starts_with_brace (c ∷ s) = let rest = starts_with_brace s in if is_blank c then rest else c == b'{'

module _ (hcl : Hcl) where
  -- WorkloadHCL
  unfoldable pub workload_hcl : Text → Text
  unfolding kept_items removed_spans cut_spans starts_with_brace
  workload_hcl source = elim (hcl.parse source) [
    | none ↦ source
    | some items ↦
        if starts_with_brace source
        then elim (hcl.print (kept_items items)) [ none ↦ source | some t ↦ t ]
        else cut_spans (removed_spans items) source
  ]

-- The text up to a slash, and the rest with its slash.
unfoldable pub segment_run : Text → Text × Text
segment_run [] = ([], [])
segment_run (c ∷ s) =
    let (run, rest) = segment_run s in if c == b'/' then ([], c ∷ s) else (c ∷ run, rest)

abbrev drop_last : Text → Option Text
drop_last [] = none
drop_last (c ∷ []) = if c == b'*' then some [] else none
drop_last (c ∷ d ∷ s) = elim (drop_last (d ∷ s)) [ none ↦ none | some t ↦ some (c ∷ t) ]

abbrev is_empty : Text → Bool
is_empty [] = true
is_empty (_ ∷ _) = false

-- A target without its first byte where that is a slash, matched by the rest of the segments.
abbrev after_slash : (Text → Bool) → Text → Bool
after_slash rest [] = false
after_slash rest (c ∷ s) = (c == b'/') && rest s

-- "+" is [^/]+, a last segment with a final "*" is its text and .*, any other is its text.
unfoldable pub match_segments : List Text → Text → Bool
unfolding segment_run has_prefix strip_prefix
match_segments [] target = false
match_segments (seg ∷ []) target =
    if seg ==t codes "+"
    then not (is_empty (segment_run target).0) && is_empty (segment_run target).1
    else elim (drop_last seg) [ some t ↦ has_prefix target t | none ↦ seg ==t target ]
match_segments (seg ∷ next ∷ more) target =
    if seg ==t codes "+"
    then not (is_empty (segment_run target).0)
      && after_slash (match_segments (next ∷ more)) (segment_run target).1
    else elim (strip_prefix seg target) [
      | none ↦ false
      | some rest ↦ after_slash (match_segments (next ∷ more)) rest
    ]

abbrev pub renew_self : Text
renew_self = codes "auth/token/renew-self"

unfoldable pub matches_renewal : Text → Bool
unfolding match_segments split_on
matches_renewal pattern = match_segments (split_on b'/' pattern) renew_self

-- strings.Compare
unfoldable pub compare_text : Text → Text → Ordering
compare_text [] [] = Ordering.eq
compare_text [] (_ ∷ _) = Ordering.lt
compare_text (_ ∷ _) [] = Ordering.gt
compare_text (a ∷ s) (b ∷ t) = elim (compare a b) [
  | Ordering.lt ↦ Ordering.lt
  | Ordering.eq ↦ compare_text s t
  | Ordering.gt ↦ Ordering.gt
]

-- The first + segment (or the length), and how many there are.
unfoldable pub count_wildcards : List Text → ℕ → ℕ → ℕ → ℕ × ℕ
count_wildcards [] offset first count = (first, count)
count_wildcards (seg ∷ segs) offset first count =
    let plus = seg ==t codes "+" in
    count_wildcards segs (offset + length seg + 1) (if plus then min first offset else first)
      (if plus then count + 1 else count)

abbrev has_star : Text → Bool
has_star s = elim (drop_last s) [ none ↦ false | some _ ↦ true ]

-- wildcards: the first wildcard, the + segments, and whether a * ends the pattern.
unfoldable pub wildcards : Text → ℕ × ℕ × ℕ
unfolding count_wildcards split_on
wildcards s =
    let (first, count) = count_wildcards (split_on b'/' s) 0 (length s) 0 in
    if has_star s then (min first (length s - 1), count, 1) else (first, count, 0)

infixr 20 ◌then_by◌
abbrev pub ◌then_by◌ : Ordering → Ordering → Ordering
Ordering.lt then_by o = Ordering.lt
Ordering.eq then_by o = o
Ordering.gt then_by o = Ordering.gt

-- pathPriority
unfoldable pub path_priority : Text → Text → Ordering
unfolding wildcards compare_text
path_priority a b =
    compare (wildcards a).0 (wildcards b).0
    then_by compare (wildcards b).2 (wildcards a).2
    then_by compare (wildcards b).1 (wildcards a).1
    then_by compare (length a) (length b)
    then_by compare_text a b

abbrev is_lt : Ordering → Bool
is_lt Ordering.lt = true
is_lt _ = false

unfoldable pub grants_renewal : Rule → Bool
unfolding has
grants_renewal r =
    has (codes "update") r.capabilities
    || ((r.policy ==t codes "write") || (r.policy ==t codes "sudo"))

unfoldable pub denies_renewal : Rule → Bool
unfolding has
denies_renewal r = has (codes "deny") r.capabilities || (r.policy ==t codes "deny")

-- The pattern of a stanza.
abbrev pub pattern_of : Rule → Text
pattern_of r = trim_prefix r.name (codes "/")

-- The loop of legacyRenewal: the best pattern so far, and its grant and denial.
unfoldable pub renewal_step : Rule → Text × Bool × Bool → Text × Bool × Bool
unfolding matches_renewal path_priority grants_renewal denies_renewal
renewal_step r (best, grant, deny) =
    let pattern' = pattern_of r in
    if not (matches_renewal pattern')
    then (best, grant, deny)
    else if not (is_empty best) && is_lt (path_priority pattern' best)
    then (best, grant, deny)
    else if pattern' ==t best
    then (best, grant || grants_renewal r, deny || denies_renewal r)
    else (pattern', grants_renewal r, denies_renewal r)

unfoldable pub renewal_loop : List Rule → Text × Bool × Bool → Text × Bool × Bool
unfolding renewal_step
renewal_loop [] s = s
renewal_loop (r ∷ rs) s = renewal_loop rs (renewal_step r s)

module _ (hcl : Hcl) where
  -- legacyRenewal
  unfoldable pub legacy_renewal : Text → Bool
  unfolding renewal_loop
  legacy_renewal source = elim (hcl.decode_rules source) [
    | none ↦ false
    | some rules ↦
        let (best, grant, deny) = renewal_loop rules ([], false, false) in grant && not deny
  ]

  -- AgentRenewal of a policy
  unfoldable pub agent_renewal : Policy → Bool
  agent_renewal p = elim p.open_bao.agent_token_renewal [
    | some renew ↦ renew
    | none ↦ legacy_renewal p.open_bao.policy
  ]

  -- PublishedHCL
  unfoldable pub published_hcl : Policy → Text
  unfolding agent_renewal
  published_hcl p =
      workload_hcl hcl p.open_bao.policy ++ codes "\n" ++ lifecycle_hcl (agent_renewal p)

  -- AgentRenewal of an effective assignment
  unfoldable pub effective_renewal : Effective → Bool
  effective_renewal e = elim e.open_bao.agent_token_renewal [
    | some renew ↦ renew
    | none ↦ elim e.sources [
      | [] ↦ legacy_renewal e.open_bao.policy
      | s ∷ ss ↦ any (λ x. legacy_renewal x.hcl) (s ∷ ss)
    ]
  ]

  unfoldable pub preview_sources : List Source → Text
  unfolding itoa
  preview_sources [] = []
  preview_sources (s ∷ ss) =
      codes "# Policy "
      ++ (s.name
          ++ (codes " (revision "
              ++ (itoa s.revision
                  ++ (codes ")\n"
                      ++ (workload_hcl hcl s.hcl
                          ++ (codes "\n"
                              ++ (lifecycle_hcl (legacy_renewal s.hcl)
                                  ++ (codes "\n" ++ preview_sources ss))))))))

  -- PreviewHCL
  unfoldable pub preview_hcl : Effective → Text
  unfolding preview_sources effective_renewal
  preview_hcl e = elim e.open_bao.agent_token_renewal [
    | some _ ↦ e.open_bao.policy
    | none ↦ elim e.sources [
      | [] ↦ workload_hcl hcl e.open_bao.policy ++ codes "\n" ++ lifecycle_hcl (effective_renewal e)
      | s ∷ ss ↦ preview_sources (s ∷ ss)
    ]
  ]
