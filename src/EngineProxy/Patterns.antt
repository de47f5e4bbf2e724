-- ===== src/EngineProxy/Patterns.antt =====
-- internal/engineproxy/policy.go: the patterns of paths and queries.
use wyrwood.Base.{
  ℕ, ◌^◌, Bool, true, false, not, ◌&&◌, ◌||◌, Option, none, some, List, [], ◌∷◌, ◌++◌, all, length,
  leb, ltb, ◌==◌, if◌then◌else◌,
}
use wyrwood.Base.Text.{Text, codes, ◌==t◌, strip_prefix}
use wyrwood.Base.Assoc.{lookup}
use wyrwood.Base.Sort.{has, sort_names}
use wyrwood.Policy.Patterns.{is_lower, is_upper, is_digit}
use wyrwood.Policy.Ttl.{atoi}
use wyrwood.Policy.CleanPath.{split_on}
use wyrwood.EngineProxy.Types.{Query, Codec}

-- The longest run of digits, and what follows it.
unfoldable pub digits_run : Text → Text × Text
digits_run [] = ([], [])
digits_run (c ∷ s) =
    let (run, rest) = digits_run s in if is_digit c then (c ∷ run, rest) else ([], c ∷ s)

abbrev pub non_empty : Text → Bool
non_empty [] = false
non_empty (_ ∷ _) = true

-- The version of apiPrefix, ^/v[0-9]+\.[0-9]+/, behind "/v", and the path from its slash on.
unfoldable pub split_version : Text → Option (Text × Text)
unfolding digits_run
split_version s =
    let (major, rest) = digits_run s in
    elim (strip_prefix (codes ".") rest) [
      | none ↦ none
      | some behind ↦
          let (minor, path) = digits_run behind in
          elim (strip_prefix (codes "/") path) [
            | none ↦ none
            | some _ ↦
                if non_empty major && non_empty minor
                then some (major ++ codes "." ++ minor, path)
                else none
          ]
    ]

-- The prefix without its last slash, and the path behind it.
unfoldable pub split_prefix : Text → Text × Text
unfolding split_version
split_prefix path = elim (strip_prefix (codes "/v") path) [
  | none ↦ ([], path)
  | some behind ↦ elim (split_version behind) [
    | none ↦ ([], path)
    | some (version, rest) ↦ (codes "/v" ++ version, rest)
  ]
]

abbrev is_alphanumeric : ℕ → Bool
is_alphanumeric c = is_lower c || is_upper c || is_digit c

-- containerName
unfoldable pub container_name : Text → Bool
container_name [] = false
container_name (c ∷ s) =
    is_alphanumeric c && all (λ d. is_alphanumeric d || (d == b'_') || (d == b'.') || (d == b'-')) s

abbrev is_reference_char : ℕ → Bool
is_reference_char c =
    is_alphanumeric c
    || (c == b'.')
    || (c == b'_')
    || (c == b':')
    || (c == b'/')
    || (c == b'@')
    || (c == b'-')

-- imageReference
unfoldable pub image_reference : Text → Bool
image_reference [] = false
image_reference (c ∷ s) = is_alphanumeric c && all is_reference_char s

-- strings.Contains(reference, "//")
unfoldable pub double_slash : Text → Bool
double_slash [] = false
double_slash (c ∷ []) = false
double_slash (c ∷ d ∷ s) = ((c == b'/') && (d == b'/')) || double_slash (d ∷ s)

unfoldable pub safe_reference : Text → Bool
safe_reference s =
    image_reference s
    && not (double_slash s)
    && not (has (codes "..") (split_on b'/' s))
    && not (has (codes ".") (split_on b'/' s))

-- The one value of a key.
abbrev pub single : Text → Query → Option Text
single key q = elim (lookup key q) [ some (value ∷ []) ↦ some value | _ ↦ none ]

abbrev pub is_value : Text → Option Text → Bool
is_value want none = false
is_value want (some value) = value ==t want

-- exactQuery
unfoldable pub exact_query : Query → List (Text × Text) → Bool
exact_query q want = (length q == length want) && all (λ w. is_value w.1 (single w.0 q)) want

-- strconv.ParseInt(value, 10, 64) of a number that is at least -1.
unfoldable pub stop_timeout : Text → Bool
stop_timeout [] = false
stop_timeout (c ∷ s) =
    if c == b'-'
    then non_empty s && all is_digit s && leb (atoi 0 s) 1
    else if c == b'+'
    then non_empty s && all is_digit s && ltb (atoi 0 s) (2 ^ 63)
    else all is_digit (c ∷ s) && ltb (atoi 0 (c ∷ s)) (2 ^ 63)

abbrev same_texts : List Text → List Text → Bool
same_texts [] [] = true
same_texts (a ∷ s) (b ∷ t) = (a ==t b) && same_texts s t
same_texts _ _ = false

abbrev watched_events : List Text
watched_events =
    codes "create" ∷ codes "destroy" ∷ codes "die" ∷ codes "rename" ∷ codes "start" ∷ []

abbrev field_ok : Text → List Text → Bool
field_ok name values =
    if name ==t codes "type"
    then same_texts (sort_names values) (codes "container" ∷ [])
    else (name ==t codes "event") && same_texts (sort_names values) watched_events

-- The loop of validFilters, and its test of the number of names.
unfoldable pub filters_from : List (Text × Option (List Text)) → List Text → Bool
filters_from [] seen = length seen == 2
filters_from ((name, none) ∷ more) seen = false
filters_from ((name, some values) ∷ more) seen =
    not (has name seen) && field_ok name values && filters_from more (name ∷ seen)

-- validFilters
unfoldable pub valid_filters : Codec → Text → Bool
unfolding filters_from
valid_filters c s = elim (c.fields s) [ none ↦ false | some fields ↦ filters_from fields [] ]
