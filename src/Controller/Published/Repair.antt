-- ===== src/Controller/Published/Repair.antt =====
-- syncPolicies of internal/controller/operations.go: the repair of the policies in OpenBao from the
-- store.
use wyrwood.Base.{
  subst, ◌≡◌, ◌⊎◌, inl, inr, refl, sym, ap, ◌∙◌, true, false, some, List, [], ◌∷◌, arith,
  Bool-cases,
}
use wyrwood.Base.Text.{Text, lt_text, ◌==t◌, ==t_iff}
use wyrwood.Base.Assoc.{Assoc, lookup}
use wyrwood.Base.Errors.{Result, ok, Result-cases, ok-injective}
use wyrwood.Base.Sort.{insert_by, sort_by}
use wyrwood.Policy.Types.{Policy}
use wyrwood.Policy.Hcl.{Hcl}
use wyrwood.Policy.Patterns.{valid_name, open_bao_policy_name}
use wyrwood.Policy.Lifecycle.{published_hcl}
use wyrwood.Policy.Validate.{validate_policy}
use wyrwood.Store.Tables.{PolicyRow, Store}
use wyrwood.Store.Policies.{StoredPolicy, policies, scan_policies, scan_policy}
use wyrwood.Controller.Errors.{Trouble, bao, disk}
use wyrwood.Controller.World.{Outside, World, read, head_fault, need}
use wyrwood.Controller.Rules.{continue-elim, read_answer-eq-ok, map_error-eq-ok}
use wyrwood.Controller.Publishing.{publish, publish_all, sync_policies, set_pending}
use wyrwood.Controller.Published.{Documented, document_of, Synced, Named}
use wyrwood.Controller.Published.Synced.{names_apart}

module _ {A : Type 0} where
  -- What holds of each element, and what is one of them.
  unfoldable pub Each : (A → Type 0) → List A → Type 0
  Each P [] = Unit
  Each P (x ∷ xs) = P x × Each P xs

  unfoldable pub Among : A → List A → Type 0
  Among z [] = ⊥
  Among z (x ∷ xs) = (x ≡ z) ⊎ Among z xs

  Each-map : {P Q : A → Type 0} → ((x : A) → P x → Q x) → (xs : List A) → Each P xs → Each Q xs
  unfolding Each
  Each-map f [] h = tt
  Each-map f (x ∷ xs) (p, h) = (f x p, Each-map f xs h)

  module _ (key : A → Text) where
    Each-insert_by :
        (P : A → Type 0) (x : A) (xs : List A) → P x → Each P xs → Each P (insert_by key x xs)
    unfolding insert_by Each
    Each-insert_by P x [] p h = (p, tt)
    Each-insert_by P x (y ∷ ys) p (q, h) = elim (Bool-cases (lt_text (key y) (key x))) [
      | inl less ↦ rw (less, Each) (q, Each-insert_by P x ys p h)
      | inr more ↦ rw (more, Each) (p, (q, h))
    ]

    Each-sort_by : (P : A → Type 0) (xs : List A) → Each P xs → Each P (sort_by key xs)
    unfolding sort_by Each
    Each-sort_by P [] h = tt
    Each-sort_by P (x ∷ xs) (p, h) = Each-insert_by P x (sort_by key xs) p (Each-sort_by P xs h)

    swapped :
        {z x y : A} (ys rest : List A)
        → (x ≡ z) ⊎ Among z (y ∷ ys)
        → ((x ≡ z) ⊎ Among z ys → Among z rest)
        → (y ≡ z) ⊎ Among z rest
    unfolding Among
    swapped ys rest (inl e) deeper = inr (deeper (inl e))
    swapped ys rest (inr (inl e)) deeper = inl e
    swapped ys rest (inr (inr e)) deeper = inr (deeper (inr e))

    Among-insert_by : (z x : A) (xs : List A) → (x ≡ z) ⊎ Among z xs → Among z (insert_by key x xs)
    unfolding insert_by Among
    Among-insert_by z x [] h = h
    Among-insert_by z x (y ∷ ys) h = elim (Bool-cases (lt_text (key y) (key x))) [
      | inl less ↦
          rw (less, Among) (swapped ys (insert_by key x ys) h (λ i. Among-insert_by z x ys i))
      | inr more ↦ rw (more, Among) h
    ]

    Among-sort_by : (z : A) (xs : List A) → Among z xs → Among z (sort_by key xs)
    unfolding sort_by Among
    Among-sort_by z [] h = h
    Among-sort_by z (x ∷ xs) (inl e) = Among-insert_by z x (sort_by key xs) (inl e)
    Among-sort_by z (x ∷ xs) (inr h) =
        Among-insert_by z x (sort_by key xs) (inr (Among-sort_by z xs h))

-- Each row of the policies is the row of its key, so that no key stands twice.
abbrev pub Keyed : Store → Type 0
Keyed s = Each (λ (e : Text × PolicyRow). lookup e.0 s.policies ≡ some e.1) s.policies

lookup-Among :
    (k : Text) (r : PolicyRow) (m : Assoc PolicyRow) → lookup k m ≡ some r → Among (k, r) m
unfolding lookup Among
lookup-Among k r [] h = cc
lookup-Among k r ((j, q) ∷ m) h = elim (Bool-cases (j ==t k)) [
  | inl same ↦ inl (ground (arith, ==t_iff j k))
  | inr other ↦ inr (lookup-Among k r m (ground arith))
]

-- A policy that is this one, or that has another name in OpenBao.
abbrev Apart : Policy → Policy → Type 0
Apart p0 p = (p ≡ p0) ⊎ ((open_bao_policy_name p ==t open_bao_policy_name p0) ≡ false)

scan_policy-eq-ok :
    (hcl : Hcl) (r : PolicyRow) (p : StoredPolicy)
    → scan_policy hcl r ≡ ok p
    → p.policy ≡ document_of r
unfolding scan_policy
scan_policy-eq-ok hcl r p h = elim (Result-cases (validate_policy hcl r.document)) [
  | inl (e, bad) ↦ ground arith
  | inr (u, good) ↦ ground arith
]

abbrev documents : List StoredPolicy → List Policy
documents [] = []
documents (p ∷ ps) = p.policy ∷ documents ps

abbrev row_documents : Assoc PolicyRow → List Policy
row_documents [] = []
row_documents ((k, r) ∷ m) = document_of r ∷ row_documents m

-- What a scan of rows reads.
scan_policies-documents :
    (hcl : Hcl) (m : Assoc PolicyRow) (ps : List StoredPolicy)
    → scan_policies hcl m ≡ ok ps
    → documents ps ≡ row_documents m
unfolding scan_policies
scan_policies-documents hcl [] ps h = ap documents (sym (ok-injective h))
scan_policies-documents hcl ((k, r) ∷ m) ps h = elim (Result-cases (scan_policy hcl r)) [
  | inl (e, bad) ↦ absurd (ground arith)
  | inr (p, one) ↦ elim (Result-cases (scan_policies hcl m)) [
    | inl (e, bad) ↦ absurd (ground arith)
    | inr (qs, rest) ↦
        ground (arith, scan_policies-documents hcl m qs rest, scan_policy-eq-ok hcl r p one)
  ]
]

Each-row_documents :
    (P : Policy → Type 0) (m : Assoc PolicyRow)
    → Each (λ (e : Text × PolicyRow). P (document_of e.1)) m
    → Each P (row_documents m)
unfolding Each
Each-row_documents P [] h = tt
Each-row_documents P ((k, r) ∷ m) (p, h) = (p, Each-row_documents P m h)

Among-row_documents :
    (k : Text) (r : PolicyRow) (m : Assoc PolicyRow)
    → Among (k, r) m
    → Among (document_of r) (row_documents m)
unfolding Among
Among-row_documents k r [] h = h
Among-row_documents k r ((j, q) ∷ m) (inl e) =
    inl (ap (λ (x : Text × PolicyRow). document_of x.1) e)
Among-row_documents k r ((j, q) ∷ m) (inr h) = inr (Among-row_documents k r m h)

module _ (out : Outside) (law : Documented out.manager) where
  abbrev Given : Policy → World out → Type 0
  Given p w = law.view w.bao (open_bao_policy_name p) ≡ some (published_hcl out.codec.hcl p)

  publish-Given :
      (p : Policy) (w : World out) → (publish out p w).0 ≡ ok tt → Given p (publish out p w).1
  unfolding publish
  publish-Given p w h =
      law.write-ok (open_bao_policy_name p) (published_hcl out.codec.hcl p) w.bao h

  publish-other :
      (p q : Policy) (w : World out)
      → (open_bao_policy_name p ==t open_bao_policy_name q) ≡ false
      → law.view (publish out p w).1.bao (open_bao_policy_name q)
        ≡ law.view w.bao (open_bao_policy_name q)
  unfolding publish
  publish-other p q w apart =
      law.write-other (open_bao_policy_name p) (published_hcl out.codec.hcl p)
        (open_bao_policy_name q) w.bao apart

  -- The writes of a list give a policy that is in it, where no other of the list has its name.
  publish_all-Given :
      (p0 : Policy) (ps : List StoredPolicy) (w : World out)
      → Each (Apart p0) (documents ps)
      → Given p0 w ⊎ Among p0 (documents ps)
      → (publish_all out ps w).0 ≡ ok tt
      → Given p0 (publish_all out ps w).1
  unfolding publish_all Each Among
  publish_all-Given p0 [] w each (inl given) = λ h. given
  publish_all-Given p0 [] w each (inr none_left) = elim none_left [ ]
  publish_all-Given p0 (p ∷ ps) w (first, each) start =
      let P : Result Trouble (Unit {0}) × World out → Type 0 = λ x. (x.0 ≡ ok tt) → Given p0 x.1 in
      let x = need {F = Trouble} bao (publish out p.policy) w in
      continue-elim P x _ (λ e failed h. cc)
        λ u wrote h.
          publish_all-Given p0 ps x.1 each
            (moved first start (map_error-eq-ok bao (publish out p.policy w).0 wrote)) h
    where
      moved :
          Apart p0 p.policy
          → Given p0 w ⊎ ((p.policy ≡ p0) ⊎ Among p0 (documents ps))
          → (publish out p.policy w).0 ≡ ok tt
          → Given p0 (publish out p.policy w).1 ⊎ Among p0 (documents ps)
      moved (inl e) s done' =
          inl (subst (λ q. Given q (publish out p.policy w).1) e (publish-Given p.policy w done'))
      moved (inr apart) (inl given) done' = inl (publish-other p.policy p0 w apart ∙ given)
      moved (inr apart) (inr (inl e)) done' =
          inl (subst (λ q. Given q (publish out p.policy w).1) e (publish-Given p.policy w done'))
      moved (inr apart) (inr (inr more)) done' = inr more

  publish_all-kept :
      (ps : List StoredPolicy) (w : World out)
      → ((publish_all out ps w).1.db ≡ w.db)
        × ((publish_all out ps w).1.sync_pending ≡ w.sync_pending)
  unfolding publish_all publish
  publish_all-kept [] w = (refl, refl)
  publish_all-kept (p ∷ ps) w =
      let P : Result Trouble (Unit {0}) × World out → Type 0 =
        λ y. (y.1.db ≡ w.db) × (y.1.sync_pending ≡ w.sync_pending) in
      let x = need {F = Trouble} bao (publish out p.policy) w in
      continue-elim P x _ (λ e failed. (refl, refl)) λ u wrote. publish_all-kept ps x.1

  -- The rows of the table have names of their own in OpenBao.
  rows-Apart :
      (s : Store)
      → Named s
      → Keyed s
      → (k : Text) (r : PolicyRow) → lookup k s.policies ≡ some r
      → Each (Apart (document_of r)) (row_documents (sort_by (λ e. e.0) s.policies))
  rows-Apart s named keyed k r found =
      Each-row_documents (Apart (document_of r)) (sort_by (λ e. e.0) s.policies) (
        Each-sort_by (λ e. e.0) (λ e. Apart (document_of r) (document_of e.1)) s.policies
          (Each-map (λ (e : Text × PolicyRow) there. row_apart e.0 e.1 there) s.policies keyed))
    where
      row_apart :
          (j : Text) (q : PolicyRow)
          → lookup j s.policies ≡ some q
          → Apart (document_of r) (document_of q)
      row_apart j q there = elim (Bool-cases (j ==t k)) [
        | inl same ↦
            let e : q ≡ r =
              ground
                (arith, sym there ∙ ap (λ n. lookup n s.policies) ((==t_iff j k).0 same) ∙ found) in
            inl (ap document_of e)
        | inr other ↦
            let (label_q, valid_q) = named j q there in
            let (label_r, valid_r) = named k r found in
            inr (
              names_apart (document_of q) (document_of r)
                (subst (λ n. valid_name n ≡ true) (sym label_q) valid_q)
                (subst (λ n. valid_name n ≡ true) (sym label_r) valid_r)
                (ap (λ n. n ==t r.document.name) label_q ∙ ap (λ n. j ==t n) label_r ∙ other))
      ]

  listing :
      (w : World out) (ps : List StoredPolicy)
      → policies out.codec.hcl w.db ≡ ok ps
      → documents ps ≡ row_documents (sort_by (λ e. e.0) w.db.policies)
  unfolding policies
  listing w ps h = scan_policies-documents out.codec.hcl (sort_by (λ e. e.0) w.db.policies) ps h

  -- syncPolicies repairs OpenBao from the store, whatever OpenBao held before and whatever fails
  -- on the way: where every stored policy stands under its own valid name and no key stands twice
  -- in the table of policies, every stored policy is published with its text afterwards, or the
  -- flag that blocks fresh credentials is set.
  pub sync_policies-Synced :
      (w : World out) → Named w.db → Keyed w.db → Synced out law (sync_policies out w).1
  unfolding sync_policies policies
  sync_policies-Synced w named keyed =
      let P : Result Trouble (Unit {0}) × World out → Type 0 = λ x. Synced out law x.1 in
      let v = set_pending out true w in
      let reading = policies out.codec.hcl in
      continue-elim P (need disk (read reading) v) _ (λ e failed. inl refl)
        λ ps got.
          let listed =
            read_answer-eq-ok (head_fault w.faults) (reading w.db)
              (map_error-eq-ok disk (read reading v).0 got) in
          let y = publish_all out ps (read reading v).1 in
          let (db, flag) = publish_all-kept ps (read reading v).1 in
          continue-elim P y _ (λ e failed. inl flag)
            λ u all. inr (λ k r found.
              let there = ap (λ (s : Store). lookup k s.policies) (sym db) ∙ found in
              publish_all-Given (document_of r) ps (read reading v).1
                (subst (Each (Apart (document_of r))) (sym (listing w ps listed))
                  (rows-Apart w.db named keyed k r there))
                (inr (
                  subst (Among (document_of r)) (sym (listing w ps listed)) (
                    Among-row_documents k r (sort_by (λ e. e.0) w.db.policies) (
                      Among-sort_by (λ e. e.0) (k, r) w.db.policies
                        (lookup-Among k r w.db.policies there)))))
                all)
