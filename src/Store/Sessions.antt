-- ===== src/Store/Sessions.antt =====
-- internal/controller/store/operators.go: the operators and their web sessions.
use wyrwood.Base.{ℕ, Bool, not, ◌&&◌, none, some, [], ◌∷◌, ltb, leb, if◌then◌else◌}
use wyrwood.Base.Text.{Text, ◌==t◌}
use wyrwood.Base.Assoc.{Assoc, lookup, insert, remove}
use wyrwood.Base.Errors.{ok, err}
use wyrwood.Store.Tables.{not_found, constraint, OperatorRow, WebSession, Store, Read, Write}

-- RecordOperator
unfoldable pub record_operator : Text → OperatorRow → Store → Store
record_operator subject o s = record s { operators = insert subject o s.operators }

-- Operator
unfoldable pub operator : Text → Store → Read OperatorRow
operator subject s = elim (lookup subject s.operators) [ none ↦ err not_found | some o ↦ ok o ]

-- CreateSession: the hash is a primary key and the subject a foreign key.
unfoldable pub create_session : Text → WebSession → Store → Write (Unit {0})
create_session hash w s = elim (lookup w.subject s.operators) [
  | none ↦ err constraint
  | some _ ↦ elim (lookup hash s.sessions) [
    | some _ ↦ err constraint
    | none ↦ ok (tt, record s { sessions = insert hash w s.sessions })
  ]
]

-- Session
unfoldable pub session : Text → ℕ → Store → Read WebSession
session hash now s = elim (lookup hash s.sessions) [
  | none ↦ err not_found
  | some w ↦ if ltb now w.expires_at then ok w else err not_found
]

-- DELETE FROM web_sessions, keeping the rows that pass a test.
unfoldable pub keep_sessions : (Text → WebSession → Bool) → Assoc WebSession → Assoc WebSession
keep_sessions p [] = []
keep_sessions p ((h, w) ∷ m) = let rest = keep_sessions p m in if p h w then (h, w) ∷ rest else rest

-- DeleteSession
unfoldable pub delete_session : Text → Store → Store
delete_session hash s = record s { sessions = remove hash s.sessions }

-- DeleteOtherSessions, without its count
unfoldable pub delete_other_sessions : Text → Text → Store → Store
delete_other_sessions subject kept s = record s {
  sessions = keep_sessions (λ h w. not ((w.subject ==t subject) && not (h ==t kept))) s.sessions;
}

-- PruneSessions
unfoldable pub prune_sessions : ℕ → Store → Store
prune_sessions now s = record s {
  sessions = keep_sessions (λ h w. not (leb w.expires_at now)) s.sessions;
}
