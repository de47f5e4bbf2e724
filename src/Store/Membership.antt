-- ===== src/Store/Membership.antt =====
-- The rows of binding_policies that a binding has after each call that writes them.
use mathlib.Core.List.{append-nil, append_assoc}
use wyrwood.Base.{◌≡◌, refl, List, [], ◌∷◌, ◌++◌, arith, if◌then◌else◌}
use wyrwood.Base.Text.{Text, ◌==t◌, ==t_iff}
use wyrwood.Base.Errors.{ok, >>=-eq-ok}
use wyrwood.Store.Tables.{Store}
use wyrwood.Store.Bindings.{members_of, without_members, insert_members, write_membership}

pub members_of-append :
    (id : Text) (m n : List (Text × Text))
    → members_of id (m ++ n) ≡ members_of id m ++ members_of id n
unfolding members_of
members_of-append id [] n = refl
members_of-append id ((b, p) ∷ m) n = ground (arith, members_of-append id m n)

pub members_of-without_members :
    (id j : Text) (m : List (Text × Text))
    → members_of j (without_members id m) ≡ (if id ==t j then [] else members_of j m)
unfolding members_of
members_of-without_members id j [] = ground arith
members_of-without_members id j ((b, p) ∷ m) =
    ground (arith, members_of-without_members id j m, ==t_iff b id, ==t_iff b j, ==t_iff id j)

-- The rows that the INSERT loop adds.
insert_members-members_of :
    (id j : Text) (ns : List Text) (s : Store) (rows out : List (Text × Text))
    → insert_members id ns s rows ≡ ok out
    → members_of j out ≡ members_of j rows ++ (if id ==t j then ns else [])
unfolding insert_members members_of
insert_members-members_of id j [] s rows out h = ground (arith, append-nil (members_of j rows))
insert_members-members_of id j (n ∷ ns) s rows out h = ground (
  arith,
  insert_members-members_of id j ns s (rows ++ (id, n) ∷ []) out,
  members_of-append j rows ((id, n) ∷ []),
  append_assoc (members_of j rows) (n ∷ []) ns,
  append-nil (members_of j rows),
)

-- After writeMembership a binding selects the policies that were given, and any other binding the
-- policies that it selected before.
pub write_membership-members_of :
    (id j : Text) (ns : List Text) (s t : Store)
    → write_membership id ns s ≡ ok t
    → members_of j t.members ≡ (if id ==t j then ns else members_of j s.members)
unfolding write_membership
write_membership-members_of id j [] s t h = cc
write_membership-members_of id j (n ∷ ns) s t h =
    let (rows, inserted, result) =
      >>=-eq-ok (insert_members id (n ∷ ns) s (without_members id s.members)) _ h in
    ground (
      arith,
      result,
      insert_members-members_of id j (n ∷ ns) s (without_members id s.members) rows inserted,
      members_of-without_members id j s.members,
      append-nil (members_of j s.members),
    )

-- Nothing but the membership changes.
pub write_membership-bindings :
    (id : Text) (ns : List Text) (s t : Store)
    → write_membership id ns s ≡ ok t
    → (t.bindings ≡ s.bindings) × (t.policies ≡ s.policies) × (t.tokens ≡ s.tokens)
unfolding write_membership
write_membership-bindings id [] s t h = cc
write_membership-bindings id (n ∷ ns) s t h = ground arith
