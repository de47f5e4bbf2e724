-- ===== src/Controller/Retiring/Held.antt =====
-- The loop of settlePolicyRetirements over the retired identities, in
-- internal/controller/policy_retirement.go: what it leaves alone.
use wyrwood.Base.{◌≡◌, inl, inr, refl, ap, ◌∙◌, not, true, false, List, [], ◌∷◌, arith, Bool-cases}
use wyrwood.Base.Text.{Text, ◌==t◌, ==t_iff}
use wyrwood.Base.Errors.{Result}
use wyrwood.Base.Sort.{has}
use wyrwood.Store.Tables.{Store}
use wyrwood.Store.Policies.{forget_policy_retirement}
use wyrwood.Controller.Errors.{Trouble, bao, own}
use wyrwood.Controller.World.{
  Outside, World, Fault, fine, lost, hidden, written, head_fault, bao_call, need,
}
use wyrwood.Controller.Rules.{continue-elim, demand-elim}
use wyrwood.Controller.Publishing.{change_of, remove_policy_identity}
use wyrwood.Controller.Published.{Documented}
use wyrwood.Controller.Retiring.{settle_identity, settle_identities}

-- Two databases that differ in the retirement records alone.
abbrev pub SameBut : Store → Store → Type 0
SameBut s t = t ≡ record s { retirements = t.retirements }

written-SameBut :
    (i : Text) (fault : Fault) (s : Store)
    → SameBut s (written fault (change_of (forget_policy_retirement i) s) s)
unfolding written forget_policy_retirement
written-SameBut i fine s = refl
written-SameBut i lost s = refl
written-SameBut i hidden s = refl

module _ (out : Outside) (law : Documented out.manager) where
  -- What a part of the loop leaves: the held identities in OpenBao, and the other tables.
  abbrev Left : List Text → World out → World out → Type 0
  Left held w v =
      ((k : Text) → has k held ≡ true → law.view v.bao k ≡ law.view w.bao k) × SameBut w.db v.db

  Left-trans :
      (held : List Text) (u v w : World out) → Left held u v → Left held v w → Left held u w
  Left-trans held u v w (a, b) (c, d) =
      (λ k h. c k h ∙ a k h, d ∙ ap (λ (s : Store). record s { retirements = w.db.retirements }) b)

  apart :
      (held : List Text) (i k : Text) → has i held ≡ false → has k held ≡ true → (i ==t k) ≡ false
  apart held i k out_of inside = elim (Bool-cases (i ==t k)) [
    | inl same ↦ absurd (ground (arith, ==t_iff i k))
    | inr other ↦ other
  ]

  remove-Left :
      (held : List Text) (i : Text) (w : World out)
      → has i held ≡ false
      → Left held w (remove_policy_identity out i w).1
  unfolding remove_policy_identity
  remove-Left held i w free =
      let P : Result Trouble (Unit {0}) × World out → Type 0 = λ x. Left held w x.1 in
      let x1 = need {F = Trouble} bao (bao_call (out.manager.delete_policy i)) w in
      let one : Left held w x1.1 =
        (λ k h. law.delete-other i k w.bao (apart held i k free h), refl) in
      continue-elim P x1 _ (λ e failed. one)
        λ u deleted.
          let x2 = need {F = Trouble} bao (bao_call (out.manager.policy_exists i)) x1.1 in
          let two : Left held w x2.1 = (λ k h. law.exists-keeps i k x1.1.bao ∙ one.0 k h, refl) in
          continue-elim P x2 _ (λ e failed. two)
            λ b told.
              demand-elim P (not b) own x2.1 _ (λ there. two)
                λ gone. (two.0, written-SameBut i (head_fault w.faults) w.db)

  settle_identity-Left :
      (held : List Text) (i : Text) (w : World out) → Left held w (settle_identity out held i w).1
  unfolding settle_identity
  settle_identity-Left held i w = elim (Bool-cases (has i held)) [
    | inl inside ↦
        rw (inside, settle_identity) (λ k h. refl, written-SameBut i (head_fault w.faults) w.db)
    | inr free ↦ rw (free, settle_identity) (remove-Left held i w free)
  ]

  -- The loop of settlePolicyRetirements over the recorded identities leaves each identity that is
  -- held in OpenBao as it was, whatever fails on the way, and changes nothing of the database but the
  -- retirement records.
  pub settle_identities-held :
      (held identities : List Text) (w : World out)
      → let v = (settle_identities out held identities w).1 in
        ((k : Text) → has k held ≡ true → law.view v.bao k ≡ law.view w.bao k)
        × (v.db ≡ record w.db { retirements = v.db.retirements })
  unfolding settle_identities
  settle_identities-held held [] w = (λ k h. refl, refl)
  settle_identities-held held (i ∷ is) w =
      let x = settle_identity out held i w in
      let P : Result Trouble (List Trouble) × World out → Type 0 = λ y. Left held w y.1 in
      continue-elim P (settle_identities out held is x.1) _
        (λ e failed.
          Left-trans held w x.1 (settle_identities out held is x.1).1
            (settle_identity-Left held i w) (settle_identities-held held is x.1))
        λ ts rest.
          Left-trans held w x.1 (settle_identities out held is x.1).1
            (settle_identity-Left held i w) (settle_identities-held held is x.1)
