-- ===== src/Server/Expiry.antt =====
-- Which sessions cleanupExpiredLocked of internal/server/server.go leaves.
use http_syncer.Base.{
  Distinct, ◌≡◌, refl, sym, ap, ◌∙◌, Bool, true, false, ◌||◌, ◌&&◌, Bool-cases, inl, inr, [], ◌∷◌,
  Option, none, some, Text, ◌==◌, ==→≡, Dict, lookup, erase, lookup-erase, arith, if◌then◌else◌,
}
use http_syncer.Base.Int.{ℤ, ◌-ℤ◌, ltb_ℤ}
use http_syncer.Snapshot.{Snapshot}
use http_syncer.Server.{Session, Service}
use http_syncer.Server.SessionApi.{expire, cleanup_expired}

-- Older than the time to live
abbrev pub too_old : ℤ → ℤ → Session → Bool
too_old now ttl sess = ltb_ℤ ttl (now -ℤ sess.created_at)

-- What is left of a session
abbrev pub unless_old : ℤ → ℤ → Option Session → Option Session
unless_old now ttl none = none
unless_old now ttl (some sess) = if too_old now ttl sess then none else some sess

-- Whether the loop meets an old session of the id.
abbrev pub met : ℤ → ℤ → Text → Dict Session → Bool
met now ttl id [] = false
met now ttl id (slot ∷ rest) = (slot.0 == id) && too_old now ttl slot.1 || met now ttl id rest

pub choice_lookup :
    (old : Bool) (id : Text) (a b : Dict Session × Dict Snapshot)
    → lookup id (if old then a else b).0 ≡ (if old then lookup id a.0 else lookup id b.0)
choice_lookup true id a b = refl
choice_lookup false id a b = refl

-- A session that is old now or later is gone.
pub erase_tests {ℓ} :
    {A : Type ℓ} (same old later : Bool) (o : Option A)
    → (if later then none else if old then if same then none else o else o)
      ≡ (if same && old || later then none else o)
erase_tests true true true o = refl
erase_tests true true false o = refl
erase_tests true false true o = refl
erase_tests true false false o = refl
erase_tests false true true o = refl
erase_tests false true false o = refl
erase_tests false false true o = refl
erase_tests false false false o = refl

pub lookup-expire :
    (now ttl : ℤ) (id : Text) (rest : Dict Session) (tables : Dict Session × Dict Snapshot)
    → lookup id (expire now ttl rest tables).0
      ≡ (if met now ttl id rest then none else lookup id tables.0)
unfolding expire
lookup-expire now ttl id [] tables = refl
lookup-expire now ttl id ((key, sess) ∷ rest) (sessions, snapshots) =
    lookup-expire now ttl id rest _
    ∙ ap (λ o. if met now ttl id rest then none else o)
        (choice_lookup (too_old now ttl sess) id
            (erase key sessions, erase sess.snapshot_id snapshots) (sessions, snapshots)
          ∙ ap (λ o. if too_old now ttl sess then o else lookup id sessions)
              (lookup-erase key id sessions))
    ∙ erase_tests (key == id) (too_old now ttl sess) (met now ttl id rest) (lookup id sessions)

pub met-none :
    (now ttl : ℤ) (id : Text) (m : Dict Session) → lookup id m ≡ none → met now ttl id m ≡ false
unfolding lookup
met-none now ttl id [] h = refl
met-none now ttl id (slot ∷ m) h = elim (Bool-cases (slot.0 == id)) [
  | inl same ↦ absurd (cc (rw same at h))
  | inr other ↦ rw other (met-none now ttl id m (rw other at h))
]

met-lookup :
    (now ttl : ℤ) (id : Text) (m : Dict Session)
    → Distinct m
    → (if met now ttl id m then none else lookup id m) ≡ unless_old now ttl (lookup id m)
unfolding lookup
met-lookup now ttl id [] d = refl
met-lookup now ttl id (slot ∷ m) d = elim (Bool-cases (slot.0 == id)) [
  | inl same ↦
      let alone : met now ttl id m ≡ false =
        met-none now ttl id m (ap (λ k. lookup k m) (sym (==→≡ slot.0 id same)) ∙ d.0) in
      rw (same, alone) (ground arith)
  | inr other ↦ rw other (met-lookup now ttl id m d.1)
]

-- Where no two sessions have one id: after a cleanup, an id is found exactly if it was found before
-- and its session was not older than the time to live; the session found is the same.
pub lookup-cleanup_expired :
    (now : ℤ) (s : Service) (id : Text)
    → Distinct s.sessions
    → lookup id (cleanup_expired now s).sessions
      ≡ unless_old now s.cfg.snapshot_ttl (lookup id s.sessions)
unfolding cleanup_expired
lookup-cleanup_expired now s id d =
    lookup-expire now s.cfg.snapshot_ttl id s.sessions (s.sessions, s.snapshots)
    ∙ met-lookup now s.cfg.snapshot_ttl id s.sessions d
