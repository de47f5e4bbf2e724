-- ===== src/Store/OperatorKeys.antt =====
-- internal/controller/store/operator_keys.go: the operator keys.
use wyrwood.Base.{ℕ, zero, suc, Bool, true, false, ◌&&◌, Option, none, some, [], ◌∷◌, if◌then◌else◌}
use wyrwood.Base.Text.{Text, ◌==t◌}
use wyrwood.Base.Assoc.{Assoc, lookup, insert, some_entry}
use wyrwood.Base.Errors.{ok, err}
use wyrwood.Store.Tables.{
  not_found, conflict, OperatorKeyState, OperatorKey, Grant, Store, Read, Write,
}

abbrev pub is_pending : OperatorKeyState → Bool
is_pending OperatorKeyState.pending = true
is_pending _ = false

abbrev pub is_approved : OperatorKeyState → Bool
is_approved OperatorKeyState.approved = true
is_approved _ = false

-- The states of the unique index operator_keys_label.
abbrev pub holds_label : OperatorKeyState → Bool
holds_label OperatorKeyState.approved = true
holds_label OperatorKeyState.revoked = true
holds_label _ = false

-- OperatorKey
unfoldable pub operator_key : Text → Store → Read OperatorKey
operator_key fingerprint s = elim (lookup fingerprint s.operator_keys) [
  | none ↦ err not_found
  | some k ↦ ok k
]

abbrev no_grant : Grant
no_grant = record { agents = []; policies = []; actions = [] }

abbrev new_key : Text → Text → ℕ → OperatorKey
new_key label key now = record {
  label = label;
  public_key = key;
  state = OperatorKeyState.pending;
  grant = no_grant;
  first_seen = now;
  decided_at = none;
  decided_by = [];
  revoked_at = none;
  revoked_by = [];
  last_used = none;
}

unfoldable pub recorded_key : Text → Text → ℕ → Option OperatorKey → OperatorKey
recorded_key label key now none = new_key label key now
recorded_key label key now (some k) = if is_pending k.state then record k { label = label } else k

-- RecordOperatorKey
unfoldable pub record_operator_key : Text → Text → Text → ℕ → Store → Write OperatorKey
record_operator_key fingerprint label key now s = elim (lookup fingerprint s.agents) [
  | some _ ↦ elim (lookup fingerprint s.operator_keys) [ none ↦ err not_found | some k ↦ ok (k, s) ]
  | none ↦
      let k = recorded_key label key now (lookup fingerprint s.operator_keys) in
      ok (k, record s { operator_keys = insert fingerprint k s.operator_keys })
]

abbrev count_pending : Assoc OperatorKey → ℕ
count_pending [] = zero
count_pending ((f, k) ∷ m) =
    let rest = count_pending m in if is_pending k.state then suc rest else rest

-- PendingOperatorKeyCount
unfoldable pub pending_operator_key_count : Store → ℕ
pending_operator_key_count s = count_pending s.operator_keys

-- A row of the unique index operator_keys_label.
abbrev pub held_label : Text → Text → OperatorKey → Bool
held_label label f k = holds_label k.state && (k.label ==t label)

-- ApproveOperatorKey
unfoldable pub approve_operator_key : Text → Text → Grant → Text → ℕ → Store → Write OperatorKey
approve_operator_key fingerprint label grant by now s = elim (lookup fingerprint s.operator_keys) [
  | none ↦ err not_found
  | some k ↦
      let b = record k {
        state = OperatorKeyState.approved;
        label = label;
        grant = grant;
        decided_at = some now;
        decided_by = by;
      } in
      if is_pending k.state
      then (if some_entry (held_label label) s.operator_keys
          then err conflict
          else ok (b, record s { operator_keys = insert fingerprint b s.operator_keys }))
      else err not_found
]

-- RejectOperatorKey
unfoldable pub reject_operator_key : Text → Text → ℕ → Store → Write OperatorKey
reject_operator_key fingerprint by now s = elim (lookup fingerprint s.operator_keys) [
  | none ↦ err not_found
  | some k ↦
      let b = record k {
        state = OperatorKeyState.rejected;
        decided_at = some now;
        decided_by = by;
      } in
      if is_pending k.state
      then ok (b, record s { operator_keys = insert fingerprint b s.operator_keys })
      else err not_found
]

-- RevokeOperatorKey
unfoldable pub revoke_operator_key : Text → Text → ℕ → Store → Write OperatorKey
revoke_operator_key fingerprint by now s = elim (lookup fingerprint s.operator_keys) [
  | none ↦ err not_found
  | some k ↦
      let b = record k {
        state = OperatorKeyState.revoked;
        revoked_at = some now;
        revoked_by = by;
      } in
      if is_approved k.state
      then ok (b, record s { operator_keys = insert fingerprint b s.operator_keys })
      else err not_found
]

-- RecordOperatorKeyUse
unfoldable pub record_operator_key_use : Text → ℕ → Store → Store
record_operator_key_use fingerprint now s = elim (lookup fingerprint s.operator_keys) [
  | none ↦ s
  | some k ↦ record s {
    operator_keys = insert fingerprint (record k { last_used = some now }) s.operator_keys;
  }
]
