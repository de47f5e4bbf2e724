-- ===== src/Operator/Grants.antt =====
-- operator/types.go: what a grant permits, and the texts that name keys.
use wyrwood.Base.{
  ℕ, Bool, false, not, ◌&&◌, ◌||◌, Option, none, some, List, [], ◌∷◌, length, all, leb, ◌==◌,
  if◌then◌else◌,
}
use wyrwood.Base.Text.{Text, codes, ◌==t◌, strip_prefix}
use wyrwood.Base.Sort.{has}
use wyrwood.Policy.Patterns.{is_lower, is_upper, is_digit}
use wyrwood.Store.Tables.{Grant}
use wyrwood.Controller.Publishing.{equal_names}

abbrev pub action_read : Text
action_read = codes "read"

abbrev pub action_bind : Text
action_bind = codes "bind"

abbrev pub action_policy_write : Text
action_policy_write = codes "policy-write"

-- Actions
abbrev actions : List Text
actions = action_read ∷ action_bind ∷ action_policy_write ∷ []

abbrev pub all_names : Text
all_names = codes "*"

abbrev maximum_grant_entries : ℕ
maximum_grant_entries = 256

-- Can
unfoldable pub can : Grant → Text → Bool
can grant action = has action grant.actions

-- listAllows
unfoldable pub list_allows : List Text → Text → Bool
unfolding equal_names
list_allows list name = equal_names list (all_names ∷ []) || has name list

-- AllowsAgent
unfoldable pub allows_agent : Grant → Text → Bool
unfolding list_allows
allows_agent grant name = list_allows grant.agents name

-- AllowsPolicy
unfoldable pub allows_policy : Grant → Text → Bool
unfolding list_allows
allows_policy grant name = list_allows grant.policies name

-- Covers
unfoldable pub covers : Grant → Text → List Text → Bool
unfolding allows_agent
covers grant agent policies = allows_agent grant agent && all (allows_policy grant) policies

-- The function check of Validate.
unfoldable pub check_names : List Text → (Text → Bool) → Bool
unfolding has
check_names names valid =
    leb (length names) maximum_grant_entries
    && not (has all_names names && not (length names == 1))
    && all (λ n. (n ==t all_names) || valid n) names

-- Grant.Validate
unfoldable pub validate_grant : (Text → Bool) → (Text → Bool) → Grant → Bool
unfolding check_names has
validate_grant valid_agent valid_policy grant =
    not (length grant.actions == 0)
    && all (λ a. has a actions) grant.actions
    && check_names grant.agents valid_agent
    && check_names grant.policies valid_policy

abbrev label_char : ℕ → Bool
label_char c = is_upper c || is_lower c || is_digit c

-- ^[A-Za-z0-9][A-Za-z0-9._-]*$
unfoldable pub label_pattern : Text → Bool
label_pattern [] = false
label_pattern (c ∷ s) =
    label_char c && all (λ d. label_char d || (d == b'.') || (d == b'_') || (d == b'-')) s

-- ValidLabel
unfoldable pub valid_label : Text → Bool
unfolding label_pattern
valid_label label = leb (length label) 64 && label_pattern label

-- ParseUser
unfoldable pub parse_user : Text → Option Text
unfolding strip_prefix valid_label
parse_user user = elim (strip_prefix (codes "operator:") user) [
  | none ↦ none
  | some label ↦ if valid_label label then some label else none
]
