-- ===== src/Tests/Cleanups.antt =====
-- Cleaning up a service with two sessions.
use http_syncer.Base.{Distinct, ◌≡◌, refl, [], ◌∷◌, text, ◌==◌, lookup, erase}
use http_syncer.Base.Int.{pos, ◌-ℤ◌}
use http_syncer.Server.{Session, Service}
use http_syncer.Server.SessionApi.{expire, cleanup_expired}
use http_syncer.Server.Expiry.{unless_old, lookup-cleanup_expired}
use http_syncer.Tests.Servers.{session, service}

abbrev later : Session
later = record session { id = text "2"; snapshot_id = text "snap_2"; created_at = pos 4000 }

abbrev two_sessions : Service
two_sessions = record service { sessions = (text "1", session) ∷ (text "2", later) ∷ [] }

two_sessions-Distinct : Distinct two_sessions.sessions
unfolding lookup ◌==◌
two_sessions-Distinct = (refl, (refl, tt))

one_left : (cleanup_expired (pos 4100) two_sessions).sessions ≡ (text "2", later) ∷ []
unfolding cleanup_expired expire erase ◌==◌ ◌-ℤ◌
one_left = refl

lookup-cleanup_expired_example :
    lookup (text "1") (cleanup_expired (pos 4100) two_sessions).sessions
    ≡ unless_old (pos 4100) (pos 3600) (lookup (text "1") two_sessions.sessions)
lookup-cleanup_expired_example =
    lookup-cleanup_expired (pos 4100) two_sessions (text "1") two_sessions-Distinct
