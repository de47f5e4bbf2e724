-- ===== src/Store/SessionLife.antt =====
-- internal/controller/store/operators.go: which web sessions the deletions leave.
use wyrwood.Base.{
  ℕ, ◌≡◌, ◌≢◌, ◌⊎◌, inl, inr, ◌≤◌, Bool, true, not, ◌&&◌, some, [], ◌∷◌, arith, ltb, leb,
  Bool-cases, Option-cases,
}
use wyrwood.Base.Text.{Text, ◌==t◌, ==t_iff, ==t_refl}
use wyrwood.Base.Assoc.{Assoc, lookup}
use wyrwood.Base.Errors.{ok}
use wyrwood.Store.Tables.{Store, WebSession}
use wyrwood.Store.Sessions.{session, keep_sessions, delete_other_sessions, prune_sessions}

keep_sessions-kept :
    (p : Text → WebSession → Bool) (h : Text) (w : WebSession) (m : Assoc WebSession)
    → lookup h m ≡ some w
    → p h w ≡ true
    → lookup h (keep_sessions p m) ≡ some w
unfolding keep_sessions lookup
keep_sessions-kept p h w [] l q = cc
keep_sessions-kept p h w ((k, v) ∷ m) l q = ground (arith, ==t_iff k h, keep_sessions-kept p h w m)

keep_sessions-passes :
    (p : Text → WebSession → Bool) (h : Text) (w : WebSession) (m : Assoc WebSession)
    → lookup h (keep_sessions p m) ≡ some w
    → p h w ≡ true
unfolding keep_sessions lookup
keep_sessions-passes p h w [] l = cc
keep_sessions-passes p h w ((k, v) ∷ m) l =
    ground (arith, ==t_iff k h, keep_sessions-passes p h w m)

session-eq-ok :
    (h : Text) (now : ℕ) (s : Store) (w : WebSession)
    → session h now s ≡ ok w
    → (lookup h s.sessions ≡ some w) × (ltb now w.expires_at ≡ true)
unfolding session
session-eq-ok h now s w e = elim (Option-cases (lookup h s.sessions)) [
  | inl missing ↦ ground arith
  | inr (v, found) ↦ ground arith
]

session-of-lookup :
    (h : Text) (now : ℕ) (s : Store) (w : WebSession)
    → lookup h s.sessions ≡ some w
    → ltb now w.expires_at ≡ true
    → session h now s ≡ ok w
unfolding session
session-of-lookup h now s w l q = ground arith

-- PruneSessions ends no session that a later read would find.
pub prune_keeps_live_sessions :
    (h : Text) (now later : ℕ) (s : Store) (w : WebSession)
    → now ≤ later
    → session h later s ≡ ok w
    → session h later (prune_sessions now s) ≡ ok w
unfolding prune_sessions
prune_keeps_live_sessions h now later s w le e =
    let (found, live) = session-eq-ok h later s w e in
    session-of-lookup h later (prune_sessions now s) w
      (keep_sessions-kept (λ k v. not (leb v.expires_at now)) h w s.sessions found (ground arith))
      live

-- After DeleteOtherSessions a session that is found is another operator's or the kept one.
pub other_sessions_ended :
    (subject kept h : Text) (now : ℕ) (s : Store) (w : WebSession)
    → session h now (delete_other_sessions subject kept s) ≡ ok w
    → (w.subject ≢ subject) ⊎ (h ≡ kept)
unfolding delete_other_sessions
other_sessions_ended subject kept h now s w e =
    let (found, live) = session-eq-ok h now (delete_other_sessions subject kept s) w e in
    let spared =
      keep_sessions-passes (λ k v. not ((v.subject ==t subject) && not (k ==t kept))) h w s.sessions
        found in
    elim (Bool-cases (h ==t kept)) [
      | inl same ↦ inr ((==t_iff h kept).0 same)
      | inr other ↦ inl (λ mine. ground (arith, spared, mine, ==t_refl subject))
    ]

-- DeleteOtherSessions leaves the kept session and the sessions of other operators.
pub spared_sessions_stay :
    (subject kept h : Text) (now : ℕ) (s : Store) (w : WebSession)
    → session h now s ≡ ok w
    → (w.subject ≢ subject) ⊎ (h ≡ kept)
    → session h now (delete_other_sessions subject kept s) ≡ ok w
unfolding delete_other_sessions
spared_sessions_stay subject kept h now s w e reason =
    let (found, live) = session-eq-ok h now s w e in
    session-of-lookup h now (delete_other_sessions subject kept s) w
      (keep_sessions-kept (λ k v. not ((v.subject ==t subject) && not (k ==t kept))) h w s.sessions
        found (ground (arith, ==t_iff w.subject subject, ==t_iff h kept)))
      live
