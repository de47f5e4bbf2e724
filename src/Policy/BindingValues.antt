-- ===== src/Policy/BindingValues.antt =====
-- internal/policy/binding_values.go: the placeholders {{binding.name}} of a policy's HCL.
use wyrwood.Base.{
  ℕ, zero, suc, ◌+◌, ◌≡◌, refl, Bool, true, false, not, ◌&&◌, ◌||◌, Option, none, some, List, [],
  ◌∷◌, ◌++◌, length, any, all, leb, ◌==◌, if◌then◌else◌,
}
use wyrwood.Base.Text.{Text, codes, ◌==t◌, strip_prefix}
use wyrwood.Base.Assoc.{Assoc, lookup}
use wyrwood.Base.Errors.{Result, ◌>>◌, require}
use wyrwood.Base.Sort.{sort_names, add_name}
use wyrwood.Policy.Types.{Policy, Problem, located, open_bao, selection}
use wyrwood.Policy.Patterns.{is_lower, is_upper, is_digit, matches_value_name, matches_value}
use wyrwood.Policy.Hcl.{Token, Item, Hcl}

abbrev pub maximum_binding_values : ℕ
maximum_binding_values = 16

abbrev pub maximum_binding_value_bytes : ℕ
maximum_binding_value_bytes = 128

abbrev pub maximum_binding_value_name_bytes : ℕ
maximum_binding_value_name_bytes = 64

abbrev pub placeholder_open : Text
placeholder_open = codes "{{binding."

abbrev pub placeholder_close : Text
placeholder_close = codes "}}"

abbrev is_name_char : ℕ → Bool
is_name_char c = is_lower c || is_digit c || (c == b'_')

-- The longest run of [a-z0-9_], and what follows it.
unfoldable pub name_run : Text → Text × Text
name_run [] = ([], [])
name_run (c ∷ s) =
    let (run, rest) = name_run s in if is_name_char c then (c ∷ run, rest) else ([], c ∷ s)

-- The name and its end, behind an opening.
unfoldable pub placeholder_name : Text → Option Text
unfolding name_run
placeholder_name [] = none
placeholder_name (c ∷ s) =
    let (run, rest) = name_run s in
    if is_lower c
    then elim (strip_prefix placeholder_close rest) [ none ↦ none | some _ ↦ some (c ∷ run) ]
    else none

-- A match of {{binding.([a-z][a-z0-9_]*)}} at the start of a text: the name.
unfoldable pub placeholder_at : Text → Option Text
unfolding placeholder_name strip_prefix
placeholder_at s = elim (strip_prefix placeholder_open s) [
  | none ↦ none
  | some rest ↦ placeholder_name rest
]

-- The whole match: twelve bytes more than the name.
unfoldable pub placeholder : Text → Text
placeholder n = placeholder_open ++ (n ++ placeholder_close)

-- FindAllStringSubmatch; `skip` bytes belong to the last match.
unfoldable pub find_placeholders : ℕ → Text → List Text
unfolding placeholder_at
find_placeholders skip [] = []
find_placeholders (suc skip) (c ∷ s) = find_placeholders skip s
find_placeholders zero (c ∷ s) = elim (placeholder_at (c ∷ s)) [
  | none ↦ find_placeholders zero s
  | some n ↦ n ∷ find_placeholders (length n + 11) s
]

-- ReplaceAllStringFunc, with the function on the name of a match.
unfoldable pub replace_placeholders : (Text → Text) → ℕ → Text → Text
unfolding placeholder_at
replace_placeholders f skip [] = []
replace_placeholders f (suc skip) (c ∷ s) = replace_placeholders f skip s
replace_placeholders f zero (c ∷ s) = elim (placeholder_at (c ∷ s)) [
  | none ↦ c ∷ replace_placeholders f zero s
  | some n ↦ f n ++ replace_placeholders f (length n + 11) s
]

abbrev is_space : ℕ → Bool
is_space c = (c == 9) || (c == 10) || (c == 12) || (c == 13) || (c == 32)

abbrev is_word : ℕ → Bool
is_word c = is_lower c || is_upper c || is_digit c || (c == b'_')

unfoldable pub skip_spaces : Text → Text
skip_spaces [] = []
skip_spaces (c ∷ s) = let rest = skip_spaces s in if is_space c then rest else c ∷ s

abbrev word_ends : Option Text → Bool
word_ends none = false
word_ends (some []) = true
word_ends (some (c ∷ s)) = not (is_word c)

-- A match of {{\s*binding\b at the start of a text.
unfoldable pub mention_at : Text → Bool
unfolding skip_spaces strip_prefix
mention_at s = elim (strip_prefix (codes "{{") s) [
  | none ↦ false
  | some rest ↦ word_ends (strip_prefix (codes "binding") (skip_spaces rest))
]

-- bindingMention.MatchString
unfoldable pub mentions : Text → Bool
unfolding mention_at
mentions [] = false
mentions (c ∷ s) = mention_at (c ∷ s) || mentions s

-- HasBindingValues
unfoldable pub has_binding_values : Text → Bool
unfolding find_placeholders
has_binding_values s = elim (find_placeholders zero s) [ [] ↦ false | _ ∷ _ ↦ true ]

module _ (hcl : Hcl) where
  unfoldable pub decoded_token : Token → Text
  decoded_token t =
      if t.is_string then elim (hcl.unquote t.text) [ some d ↦ d | none ↦ t.text ] else t.text

  unfoldable pub mentions_binding : Token → Bool
  unfolding decoded_token mentions
  mentions_binding t = mentions t.text || mentions (decoded_token t)

  abbrev Use : Type 0
  Use = List Text × Bool

  abbrev add_all : List Text → List Text → List Text
  add_all [] found = found
  add_all (n ∷ ns) found = add_all ns (add_name n found)

  -- The key that names a path stanza.
  unfoldable pub path_key : Token → Use → Use
  unfolding decoded_token mentions find_placeholders replace_placeholders add_name
  path_key t (found, stray) =
      let decoded = decoded_token t in
      let written = find_placeholders zero t.text in
      (
        add_all written found,
        stray
            || not (length written == length (find_placeholders zero decoded))
            || mentions (replace_placeholders (λ _. []) zero decoded),
      )

  unfoldable pub item_keys : Bool → ℕ → List Token → Use → Use
  unfolding path_key mentions_binding
  item_keys is_path index [] use' = use'
  item_keys is_path index (t ∷ ts) (found, stray) = item_keys is_path (suc index) ts (
      if not is_path || not (index == 1)
      then (found, stray || mentions_binding t)
      else path_key t (found, stray))

  unfoldable pub is_path_item : List Token → Bool
  is_path_item (first ∷ second ∷ more) = elim first.value [
    | none ↦ false
    | some v ↦ v ==t codes "path"
  ]
  is_path_item _ = false

  unfoldable pub item_use : Item → Use → Use
  unfolding item_keys is_path_item mentions_binding
  item_use item use' =
      let (found, stray) = item_keys (is_path_item item.keys) 0 item.keys use' in
      (found, stray || any mentions_binding item.inner)

  unfoldable pub items_use : List Item → Use → Use
  unfolding item_use
  items_use [] use' = use'
  items_use (item ∷ items) use' = items_use items (item_use item use')

  -- bindingValueUse
  unfoldable pub binding_value_use : Text → List Text × Bool
  unfolding items_use sort_names
  binding_value_use source = elim (hcl.parse source) [
    | none ↦ ([], false)
    | some items ↦ let (found, stray) = items_use items ([], false) in (sort_names found, stray)
  ]

  -- validateBindingPlaceholders
  unfoldable pub validate_binding_placeholders : Text → Result Problem (Unit {0})
  unfolding binding_value_use
  validate_binding_placeholders source =
      let (names, stray) = binding_value_use source in
      require (not stray) (located open_bao)
      >> require (leb (length names) maximum_binding_values) (located open_bao)
      >> require (all (λ n. leb (length n) maximum_binding_value_name_bytes) names)
          (located open_bao)

  -- ValueNames
  unfoldable pub value_names : Policy → List Text
  unfolding binding_value_use
  value_names p = (binding_value_use p.open_bao.policy).0

-- expandBindingValues
unfoldable pub expand_binding_values : Text → Assoc Text → Text
unfolding replace_placeholders placeholder
expand_binding_values source values =
    replace_placeholders (λ n. elim (lookup n values) [ some v ↦ v | none ↦ placeholder n ]) zero
      source

-- IdentityTemplates
unfoldable pub identity_templates : Text → Text → Text
unfolding replace_placeholders
identity_templates source accessor =
    replace_placeholders
      (λ n.
        codes "{{identity.entity.aliases."
        ++ (accessor ++ (codes ".metadata.binding_" ++ (n ++ codes "}}"))))
      zero source

-- IdentityMetadata
unfoldable pub identity_metadata : Assoc Text → Assoc Text
identity_metadata [] = []
identity_metadata ((n, v) ∷ m) = (codes "binding_" ++ n, v) ∷ identity_metadata m

abbrev pub value_ok : Text × Text → Bool
value_ok (n, v) =
    leb (length n) maximum_binding_value_name_bytes
    && matches_value_name n
    && leb (length v) maximum_binding_value_bytes
    && matches_value v

-- validateBindingValues: every failure is located in the selection, so the order does not show.
unfoldable pub validate_binding_values : Assoc Text → Result Problem (Unit {0})
validate_binding_values values =
    require (leb (length values) maximum_binding_values) (located selection)
    >> require (all value_ok values) (located selection)

expand_test :
    expand_binding_values
      (codes "kv/{{binding.app}}/{{binding.b}}{{")
      ((codes "app", codes "web") ∷ [])
    ≡ codes "kv/web/{{binding.b}}{{"
unfolding expand_binding_values lookup ◌==t◌
expand_test = refl
