-- ===== src/Server/Registry.antt =====
-- The sessions and the snapshots of the service belong together.
use http_syncer.Base.{
  Distinct, insert-Distinct, erase-Distinct, subst, ◌≡◌, refl, sym, ap, ◌∙◌, ◌≢◌, Bool, true, false,
  Bool-cases, inl, inr, [], ◌∷◌, Option, none, some, Text, ◌==◌, ==→≡, Dict, lookup, insert, erase,
  lookup-insert, lookup-erase, All, if◌then◌else◌,
}
use http_syncer.Base.Int.{ℤ, ◌-ℤ◌, ltb_ℤ}
use http_syncer.Snapshot.{Snapshot}
use http_syncer.Server.{committed, Session, Service}
use http_syncer.Server.SessionApi.{mark_committed, expire, cleanup_expired, snapshot_name}

abbrev pub is_some {ℓ} : {A : Type ℓ} → Option A → Bool
is_some none = false
is_some (some a) = true

abbrev pub Named : Text × Session → Type 0
Named entry = entry.1.snapshot_id ≡ snapshot_name entry.0

-- Each session names its own snapshot, and no id comes twice. The snapshots are those of the sessions, one for each.
pub record IsConsistent (sessions : Dict Session) (snapshots : Dict Snapshot) : Type 0 where
  pub named : All Named sessions
  pub paired :
      (sid : Text) → is_some (lookup (snapshot_name sid) snapshots) ≡ is_some (lookup sid sessions)
  pub distinct : Distinct sessions
  pub owned : (id : Text) → lookup id snapshots ≢ none → (sid : Text) × (id ≡ snapshot_name sid)

pub nothing-IsConsistent : IsConsistent [] []
unfolding lookup
nothing-IsConsistent = record {
  named = tt;
  distinct = tt;
  paired = λ sid. refl;
  owned = λ id present. absurd (present refl);
}

pub snapshot_name-eq : (a b : Text) → (snapshot_name a == snapshot_name b) ≡ (a == b)
unfolding ◌==◌
snapshot_name-eq a b = refl

All-insert :
    (sid : Text) (sess : Session) (m : Dict Session)
    → All Named m
    → sess.snapshot_id ≡ snapshot_name sid
    → All Named (insert sid sess m)
unfolding insert
All-insert sid sess [] h e = (e, tt)
All-insert sid sess (entry ∷ m) h e = elim (Bool-cases (entry.0 == sid)) [
  | inl same ↦ rw same (e, h.1)
  | inr other ↦ rw other (h.0, All-insert sid sess m h.1 e)
]

All-erase : (sid : Text) (m : Dict Session) → All Named m → All Named (erase sid m)
unfolding erase
All-erase sid [] h = tt
All-erase sid (entry ∷ m) h = elim (Bool-cases (entry.0 == sid)) [
  | inl same ↦ rw same (All-erase sid m h.1)
  | inr other ↦ rw other (h.0, All-erase sid m h.1)
]

All-lookup :
    (sid : Text) (sess : Session) (m : Dict Session)
    → All Named m
    → lookup sid m ≡ some sess
    → sess.snapshot_id ≡ snapshot_name sid
unfolding lookup
All-lookup sid sess [] h e = absurd (cc)
All-lookup sid sess (entry ∷ m) h e = elim (Bool-cases (entry.0 == sid)) [
  | inl same ↦
      let is_sess : some entry.1 ≡ some sess = rw same at e in
      cc (is_sess, h.0, ==→≡ entry.0 sid same)
  | inr other ↦ All-lookup sid sess m h.1 (rw other at e)
]

pub insert-IsConsistent :
    (sid : Text) (sess : Session) (snap : Snapshot) (sessions : Dict Session)
    (snapshots : Dict Snapshot)
    → sess.snapshot_id ≡ snapshot_name sid
    → IsConsistent sessions snapshots
    → IsConsistent (insert sid sess sessions) (insert (snapshot_name sid) snap snapshots)
insert-IsConsistent sid sess snap sessions snapshots e h = record {
  named = All-insert sid sess sessions h.named e;
  distinct = insert-Distinct sid sess sessions h.distinct;
  paired = λ id. elim (Bool-cases (sid == id)) [
    | inl same ↦ rw (lookup-insert, lookup-insert, snapshot_name-eq, same) refl
    | inr other ↦ rw (lookup-insert, lookup-insert, snapshot_name-eq, other) (h.paired id)
  ];
  owned = λ id present. elim (Bool-cases (snapshot_name sid == id)) [
    | inl same ↦ (sid, sym (==→≡ (snapshot_name sid) id same))
    | inr other ↦ h.owned id (λ missing. present (rw (lookup-insert, other) missing))
  ];
}

erase-IsConsistent :
    (sid : Text) (sessions : Dict Session) (snapshots : Dict Snapshot)
    → IsConsistent sessions snapshots
    → IsConsistent (erase sid sessions) (erase (snapshot_name sid) snapshots)
erase-IsConsistent sid sessions snapshots h = record {
  named = All-erase sid sessions h.named;
  distinct = erase-Distinct sid sessions h.distinct;
  paired = λ id. elim (Bool-cases (sid == id)) [
    | inl same ↦ rw (lookup-erase, lookup-erase, snapshot_name-eq, same) refl
    | inr other ↦ rw (lookup-erase, lookup-erase, snapshot_name-eq, other) (h.paired id)
  ];
  owned = λ id present. elim (Bool-cases (snapshot_name sid == id)) [
    | inl same ↦ (sid, sym (==→≡ (snapshot_name sid) id same))
    | inr other ↦ h.owned id (λ missing. present (rw (lookup-erase, other) missing))
  ];
}

-- Marking a session of the table keeps the tables together.
pub mark-IsConsistent :
    (sid : Text) (found : Option Session) (sessions : Dict Session) (snapshots : Dict Snapshot)
    → lookup sid sessions ≡ found
    → IsConsistent sessions snapshots
    → IsConsistent (mark_committed sid found sessions) snapshots
mark-IsConsistent sid none sessions snapshots e h = h
mark-IsConsistent sid (some sess) sessions snapshots e h = record {
  named =
      All-insert sid (record sess { status = committed }) sessions h.named
        (All-lookup sid sess sessions h.named e);
  distinct = insert-Distinct sid (record sess { status = committed }) sessions h.distinct;
  paired = λ id. elim (Bool-cases (sid == id)) [
    | inl same ↦
        h.paired id
        ∙ ap is_some (ap (λ k. lookup k sessions) (sym (==→≡ sid id same)) ∙ e)
        ∙ rw (lookup-insert, same) refl
    | inr other ↦ rw (lookup-insert, other) (h.paired id)
  ];
  owned = h.owned;
}

choice-IsConsistent :
    (old : Bool) (a b : Dict Session × Dict Snapshot)
    → IsConsistent a.0 a.1
    → IsConsistent b.0 b.1
    → IsConsistent (if old then a else b).0 (if old then a else b).1
choice-IsConsistent true a b h k = h
choice-IsConsistent false a b h k = k

-- Expiring some of the sessions does, too.
pub expire-IsConsistent :
    (now ttl : ℤ) (rest : Dict Session) (tables : Dict Session × Dict Snapshot)
    → All Named rest
    → IsConsistent tables.0 tables.1
    → IsConsistent (expire now ttl rest tables).0 (expire now ttl rest tables).1
unfolding expire
expire-IsConsistent now ttl [] tables n h = h
expire-IsConsistent now ttl ((id, sess) ∷ rest) (sessions, snapshots) n h =
    expire-IsConsistent now ttl rest _ n.1 (
      choice-IsConsistent (ltb_ℤ ttl (now -ℤ sess.created_at))
        (erase id sessions, erase sess.snapshot_id snapshots) (sessions, snapshots)
        (subst (λ k. IsConsistent (erase id sessions) (erase k snapshots)) (sym n.0)
          (erase-IsConsistent id sessions snapshots h))
        h)

-- A service whose tables belong together.
abbrev pub Sound : Service → Type 0
Sound s = IsConsistent s.sessions s.snapshots

pub cleanup_expired-Sound : (now : ℤ) (s : Service) → Sound s → Sound (cleanup_expired now s)
unfolding cleanup_expired
cleanup_expired-Sound now s h =
    expire-IsConsistent now s.cfg.snapshot_ttl s.sessions (s.sessions, s.snapshots) h.named h
