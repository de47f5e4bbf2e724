-- ===== src/Store/KeyLife.antt =====
-- The states that an operator key passes through, from the first connection to its revocation.
use wyrwood.Base.{
  ℕ, ◌≡◌, refl, sym, subst, ◌∙◌, Bool, true, false, some, arith, Option-cases, Bool-cases, inl, inr,
}
use wyrwood.Base.Text.{Text, ◌==t◌, ==t_iff}
use wyrwood.Base.Assoc.{Assoc, lookup, insert, lookup-insert}
use wyrwood.Base.Errors.{ok}
use wyrwood.Store.Tables.{Store, OperatorKey, OperatorKeyState, Grant}
use wyrwood.Store.OperatorKeys.{
  record_operator_key, recorded_key, approve_operator_key, reject_operator_key, revoke_operator_key,
  record_operator_key_use, is_pending,
}
use wyrwood.Store.Frames.{SameKeys}

-- The states that may follow: a rejected or a revoked key stays so, and an approved key is at most
-- revoked.
abbrev pub may_become : OperatorKeyState → OperatorKeyState → Bool
may_become OperatorKeyState.pending _ = true
may_become OperatorKeyState.approved OperatorKeyState.approved = true
may_become OperatorKeyState.approved OperatorKeyState.revoked = true
may_become OperatorKeyState.rejected OperatorKeyState.rejected = true
may_become OperatorKeyState.revoked OperatorKeyState.revoked = true
may_become _ _ = false

-- What a later row of a fingerprint keeps of an earlier one.
pub record Later (old new : OperatorKey) : Type 0 where
  pub states : may_become old.state new.state ≡ true
  pub key : new.public_key ≡ old.public_key
  pub grant : is_pending old.state ≡ false → new.grant ≡ old.grant
  pub label : is_pending old.state ≡ false → new.label ≡ old.label

may_become_refl : (a : OperatorKeyState) → may_become a a ≡ true
may_become_refl OperatorKeyState.pending = refl
may_become_refl OperatorKeyState.approved = refl
may_become_refl OperatorKeyState.rejected = refl
may_become_refl OperatorKeyState.revoked = refl

may_become_trans :
    (a b c : OperatorKeyState)
    → may_become a b ≡ true
    → may_become b c ≡ true
    → may_become a c ≡ true
may_become_trans a b c h k = ground arith

pub Later-refl : (k : OperatorKey) → Later k k
Later-refl k = record {
  states = may_become_refl k.state;
  key = refl;
  grant = λ h. refl;
  label = λ h. refl;
}

is_pending-may_become :
    (a b : OperatorKeyState) → may_become a b ≡ true → is_pending a ≡ false → is_pending b ≡ false
is_pending-may_become a b h p = ground arith

pub Later-trans : (a b c : OperatorKey) → Later a b → Later b c → Later a c
Later-trans a b c h k = record {
  states = may_become_trans a.state b.state c.state h.states k.states;
  key = k.key ∙ h.key;
  grant = λ p. k.grant (is_pending-may_become a.state b.state h.states p) ∙ h.grant p;
  label = λ p. k.label (is_pending-may_become a.state b.state h.states p) ∙ h.label p;
}

abbrev pub KeysLater : Assoc OperatorKey → Assoc OperatorKey → Type 0
KeysLater m n =
    (f : Text) (old : OperatorKey)
    → lookup f m ≡ some old
    → (new : OperatorKey) × (lookup f n ≡ some new) × Later old new

pub KeysLater-same : (m n : Assoc OperatorKey) → n ≡ m → KeysLater m n
KeysLater-same m n e f old l = (old, rw e l, Later-refl old)

pub KeysLater-trans : (m n o : Assoc OperatorKey) → KeysLater m n → KeysLater n o → KeysLater m o
KeysLater-trans m n o h k f old l =
    let (mid, lm, e) = h f old l in
    let (new, ln, e') = k f mid lm in (new, ln, Later-trans old mid new e e')

KeysLater-insert :
    (x : Text) (new : OperatorKey) (m : Assoc OperatorKey)
    → ((old : OperatorKey) → lookup x m ≡ some old → Later old new)
    → KeysLater m (insert x new m)
KeysLater-insert x new m h f old l = elim (Bool-cases (x ==t f)) [
  | inl same ↦ (new, ground (arith, lookup-insert x f new m), h old (rw ((==t_iff x f).0 same) l))
  | inr other ↦ (old, ground (arith, lookup-insert x f new m), Later-refl old)
]

module _ (s t : Store) where
  abbrev pub OperatorKeysLater : Type 0
  OperatorKeysLater = KeysLater s.operator_keys t.operator_keys

  pub same : t.operator_keys ≡ s.operator_keys → OperatorKeysLater
  same e = KeysLater-same s.operator_keys t.operator_keys e

  pub framed : SameKeys s t → OperatorKeysLater
  framed h = same h.operator_keys

  -- One row that is written.
  written :
      (x : Text) (new : OperatorKey)
      → t.operator_keys ≡ insert x new s.operator_keys
      → ((old : OperatorKey) → lookup x s.operator_keys ≡ some old → Later old new)
      → OperatorKeysLater
  written x new e h =
      subst (λ n. KeysLater s.operator_keys n) (sym e) (KeysLater-insert x new s.operator_keys h)

  -- A row that was decided keeps what a decided row keeps.
  decided_Later :
      (old new : OperatorKey)
      → is_pending old.state ≡ true
      → new.public_key ≡ old.public_key
      → Later old new
  decided_Later old new p k = record {
    states = ground arith;
    key = k;
    grant = λ h. ground arith;
    label = λ h. ground arith;
  }

  pub record_operator_key-KeysLater :
      (f l k : Text) (now : ℕ) (o : OperatorKey)
      → record_operator_key f l k now s ≡ ok (o, t)
      → OperatorKeysLater
  unfolding record_operator_key recorded_key
  record_operator_key-KeysLater f l k now o e = elim (Option-cases (lookup f s.agents)) [
    | inr (a, held) ↦ same (ground arith)
    | inl free ↦ elim (Option-cases (lookup f s.operator_keys)) [
      | inl missing ↦ written f o (ground arith) (λ old found. ground arith)
      | inr (old, found) ↦ elim (Bool-cases (is_pending old.state)) [
        | inl p ↦
            written f o (ground arith)
              (λ x same_row. decided_Later x o (ground arith) (ground arith))
        | inr p ↦
            written f o (ground arith) (λ x same_row. subst (Later x) (ground arith) (Later-refl x))
      ]
    ]
  ]

  pub approve_operator_key-KeysLater :
      (f l : Text) (g : Grant) (by : Text) (now : ℕ) (o : OperatorKey)
      → approve_operator_key f l g by now s ≡ ok (o, t)
      → OperatorKeysLater
  unfolding approve_operator_key
  approve_operator_key-KeysLater f l g by now o e = elim (Option-cases (lookup f s.operator_keys)) [
    | inl missing ↦ same (ground arith)
    | inr (old, found) ↦
        written f o (ground arith) (λ x row. decided_Later x o (ground arith) (ground arith))
  ]

  pub reject_operator_key-KeysLater :
      (f by : Text) (now : ℕ) (o : OperatorKey)
      → reject_operator_key f by now s ≡ ok (o, t)
      → OperatorKeysLater
  unfolding reject_operator_key
  reject_operator_key-KeysLater f by now o e = elim (Option-cases (lookup f s.operator_keys)) [
    | inl missing ↦ same (ground arith)
    | inr (old, found) ↦
        written f o (ground arith) (λ x row. decided_Later x o (ground arith) (ground arith))
  ]

  pub revoke_operator_key-KeysLater :
      (f by : Text) (now : ℕ) (o : OperatorKey)
      → revoke_operator_key f by now s ≡ ok (o, t)
      → OperatorKeysLater
  unfolding revoke_operator_key
  revoke_operator_key-KeysLater f by now o e = elim (Option-cases (lookup f s.operator_keys)) [
    | inl missing ↦ same (ground arith)
    | inr (old, found) ↦ written f o (ground arith) (λ x row. record {
      states = ground arith;
      key = ground arith;
      grant = λ p. ground arith;
      label = λ p. ground arith;
    })
  ]

  pub record_operator_key_use-KeysLater :
      (f : Text) (now : ℕ) → t ≡ record_operator_key_use f now s → OperatorKeysLater
  unfolding record_operator_key_use
  record_operator_key_use-KeysLater f now e = elim (Option-cases (lookup f s.operator_keys)) [
    | inl missing ↦ same (ground arith)
    | inr (old, found) ↦
        written f (record old { last_used = some now }) (ground arith)
          (λ x row. record {
            states = ground (arith, may_become_refl x.state);
            key = ground arith;
            grant = λ p. ground arith;
            label = λ p. ground arith;
          })
  ]
