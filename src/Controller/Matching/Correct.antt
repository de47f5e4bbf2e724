-- ===== src/Controller/Matching/Correct.antt =====
-- MatchBindings and CarriedBindings of internal/controller/session.go against ContainerBinding, which
-- the pages use for one container.
use wyrwood.Base.{
  ◌≡◌, refl, Bool, false, not, ◌&&◌, ◌||◌, none, some, List, [], ◌∷◌, ◌++◌, keep, any, arith,
  Bool-cases, Option-cases, inl, inr,
}
use wyrwood.Base.Text.{Text, ◌==t◌, ==t_iff, ==t_refl}
use wyrwood.Base.Sort.{has, Distinct}
use wyrwood.Protocol.Types.{Container}
use wyrwood.Protocol.Validate.{key_name}
use wyrwood.Store.Bindings.{Binding}
use wyrwood.Controller.Matching.{
  container_binding, first_binding, match_from, match_bindings, carried_bindings, ids,
}

-- Whether ContainerBinding of a container is the binding with this id.
unfoldable pub governs : List Binding → Text → Container → Bool
governs bs i c = elim (container_binding c bs) [ none ↦ false | some b ↦ b.id ==t i ]

module _ (bs : List Binding) where
  has-match_from :
      (i : Text) (seen : List Text) (cs : List Container)
      → has i (ids (match_from bs seen cs)) ≡ (any (governs bs i) cs && not (has i seen))
  unfolding match_from governs container_binding has
  has-match_from i seen [] = refl
  has-match_from i seen (c ∷ cs) = elim (Option-cases (first_binding bs c.keys)) [
    | inl missing ↦ ground (arith, has-match_from i seen cs)
    | inr (b, found) ↦ elim (Bool-cases (has b.id seen)) [
      | inl old ↦ ground (arith, has-match_from i seen cs, (==t_iff b.id i))
      | inr new ↦ ground (arith, has-match_from i (b.id ∷ seen) cs, ==t_iff b.id i)
    ]
  ]

  once :
      (b : Binding) (seen : List Text) (cs : List Container)
      → has b.id (ids (match_from bs (b.id ∷ seen) cs)) ≡ false
  unfolding has
  once b seen cs = ground (arith, has-match_from b.id (b.id ∷ seen) cs, ==t_refl b.id)

  ids-match_from-Distinct :
      (seen : List Text) (cs : List Container) → Distinct (ids (match_from bs seen cs))
  unfolding match_from
  ids-match_from-Distinct seen [] = tt
  ids-match_from-Distinct seen (c ∷ cs) = elim (Option-cases (first_binding bs c.keys)) [
    | inl missing ↦ rw (missing, Distinct) (ids-match_from-Distinct seen cs)
    | inr (b, found) ↦ elim (Bool-cases (has b.id seen)) [
      | inl old ↦ rw (found, old, Distinct) (ids-match_from-Distinct seen cs)
      | inr new ↦
          rw (found, new, Distinct) (once b seen cs, ids-match_from-Distinct (b.id ∷ seen) cs)
    ]
  ]

  -- MatchBindings returns a binding with an id exactly where ContainerBinding of some container of
  -- the inventory is a binding with that id, and returns no id twice.
  pub match_bindings_lem :
      (cs : List Container)
      → ((i : Text) → has i (ids (match_bindings cs bs)) ≡ any (governs bs i) cs)
        × Distinct (ids (match_bindings cs bs))
  unfolding match_bindings has
  match_bindings_lem cs =
      (λ i. ground (arith, has-match_from i [] cs), ids-match_from-Distinct [] cs)

has-ids-append :
    (i : Text) (xs ys : List Binding) → has i (ids (xs ++ ys)) ≡ (has i (ids xs) || has i (ids ys))
unfolding has
has-ids-append i [] ys = refl
has-ids-append i (x ∷ xs) ys = ground (arith, has-ids-append i xs ys)

has-ids-keep :
    (i : Text) (kind : Binding → Bool) (l : List Text) (bs : List Binding)
    → has i (ids (keep (λ b. kind b && not (has b.id l)) bs))
      ≡ (any (λ (b : Binding). kind b && (b.id ==t i)) bs && not (has i l))
unfolding has
has-ids-keep i kind l [] = refl
has-ids-keep i kind l (b ∷ bs) = elim (Bool-cases (b.id ==t i)) [
  | inl same ↦ ground (arith, has-ids-keep i kind l bs, (==t_iff b.id i).0 same)
  | inr other ↦ ground (arith, has-ids-keep i kind l bs)
]

-- CarriedBindings carries an id exactly where ContainerBinding of some container is a binding with
-- that id, or where a binding of a container name has that id.
pub carried_bindings_lem :
    (bs : List Binding) (cs : List Container) (i : Text)
    → has i (ids (carried_bindings cs bs)) ≡ (
        any (governs bs i) cs
        || any (λ (b : Binding). (b.key.kind ==t key_name) && (b.id ==t i)) bs)
unfolding carried_bindings
carried_bindings_lem bs cs i =
    let matched = match_bindings cs bs in
    ground (
      arith,
      has-ids-append i matched
          (keep (λ b. (b.key.kind ==t key_name) && not (has b.id (ids matched))) bs),
      has-ids-keep i (λ b. b.key.kind ==t key_name) (ids matched) bs,
      (match_bindings_lem bs cs).0 i,
    )
