-- ===== src/Store/SessionTests.antt =====
-- Two sessions of one operator and one of another.
use wyrwood.Base.{ℕ, ◌≡◌, ◌≢◌, ◌⊎◌, inr, refl, [], ◌∷◌, arith}
use wyrwood.Base.Text.{Text, codes, ◌==t◌}
use wyrwood.Base.Assoc.{lookup}
use wyrwood.Base.Errors.{ok}
use wyrwood.Store.Tables.{Store, WebSession, empty}
use wyrwood.Store.Sessions.{session, keep_sessions, delete_other_sessions, prune_sessions}
use wyrwood.Store.SessionLife.{
  prune_keeps_live_sessions, other_sessions_ended, spared_sessions_stay,
}

abbrev of : Text → ℕ → WebSession
of subject expires = record {
  subject = subject;
  admitted_group = codes "ops";
  csrf = codes "c";
  created_at = 1;
  expires_at = expires;
}

abbrev signed_in : Store
signed_in = record empty {
  sessions =
      (codes "h1", of (codes "ann") 90)
      ∷ (codes "h2", of (codes "ann") 40)
      ∷ (codes "h3", of (codes "bob") 90)
      ∷ [];
}

prune_keeps_live_sessions_example :
    session (codes "h1") 60 (prune_sessions 50 signed_in) ≡ ok (of (codes "ann") 90)
unfolding session lookup ◌==t◌
prune_keeps_live_sessions_example =
    prune_keeps_live_sessions (codes "h1") 50 60 signed_in (of (codes "ann") 90) (omega arith) refl

other_sessions_ended_example : (codes "bob" ≢ codes "ann") ⊎ (codes "h3" ≡ codes "h1")
unfolding session lookup ◌==t◌ delete_other_sessions keep_sessions
other_sessions_ended_example =
    other_sessions_ended (codes "ann") (codes "h1") (codes "h3") 10 signed_in (of (codes "bob") 90)
      refl

spared_sessions_stay_example :
    session (codes "h1") 10 (delete_other_sessions (codes "ann") (codes "h1") signed_in)
    ≡ ok (of (codes "ann") 90)
unfolding session lookup ◌==t◌
spared_sessions_stay_example =
    spared_sessions_stay (codes "ann") (codes "h1") (codes "h1") 10 signed_in (of (codes "ann") 90)
      refl (inr refl)
