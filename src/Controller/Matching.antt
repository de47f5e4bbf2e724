-- ===== src/Controller/Matching.antt =====
-- internal/controller/session.go: which bindings an inventory selects.
pub mod Correct
use wyrwood.Base.{
  ◌≡◌, Bool, true, false, not, ◌&&◌, ◌||◌, Option, none, some, List, [], ◌∷◌, ◌++◌, map, keep, any,
  if◌then◌else◌,
}
use wyrwood.Base.Text.{Text, ◌==t◌}
use wyrwood.Base.Sort.{has}
use wyrwood.Protocol.Types.{Key, Container}
use wyrwood.Protocol.Validate.{key_name}
use wyrwood.Store.Bindings.{Binding, same_key}

-- The map byKey: the last binding of a key.
unfoldable pub by_key : List Binding → Key → Option Binding
by_key [] k = none
by_key (b ∷ bs) k = elim (by_key bs k) [
  | some c ↦ some c
  | none ↦ if same_key b.key k then some b else none
]

-- The loop over the keys of a container, in their order.
unfoldable pub first_binding : List Binding → List Key → Option Binding
unfolding by_key
first_binding bs [] = none
first_binding bs (k ∷ ks) = elim (by_key bs k) [ some b ↦ some b | none ↦ first_binding bs ks ]

-- ContainerBinding
unfoldable pub container_binding : Container → List Binding → Option Binding
unfolding first_binding
container_binding c bs = first_binding bs c.keys

-- The loop of MatchBindings over the containers, with the ids seen before.
unfoldable pub match_from : List Binding → List Text → List Container → List Binding
unfolding first_binding has
match_from bs seen [] = []
match_from bs seen (c ∷ cs) = elim (first_binding bs c.keys) [
  | none ↦ match_from bs seen cs
  | some b ↦ elim (has b.id seen) [
    | true ↦ match_from bs seen cs
    | false ↦ b ∷ match_from bs (b.id ∷ seen) cs
  ]
]

-- MatchBindings
unfoldable pub match_bindings : List Container → List Binding → List Binding
unfolding match_from
match_bindings cs bs = match_from bs [] cs

abbrev pub ids : List Binding → List Text
ids [] = []
ids (b ∷ bs) = b.id ∷ ids bs

-- CarriedBindings
unfoldable pub carried_bindings : List Container → List Binding → List Binding
unfolding match_bindings has
carried_bindings cs bs =
    let matched = match_bindings cs bs in
    matched ++ keep (λ b. (b.key.kind ==t key_name) && not (has b.id (ids matched))) bs
