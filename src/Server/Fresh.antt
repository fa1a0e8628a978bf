-- ===== src/Server/Fresh.antt =====
-- What a request that creates a session leaves behind.
pub mod Answered
use http_syncer.Base.{
  ◌≡◌, refl, sym, ap, ◌∙◌, Bool, true, false, Bool-cases, inl, inr, [], ◌∷◌, ◌++◌, Option, none,
  some, Text, text, ◌==◌, ==→≡, ==_refl, trim_space, Dict, lookup, insert, erase, lookup-insert,
  lookup-erase, All, Distinct, arith, if◌then◌else◌,
}
use http_syncer.Base.Int.{ℤ}
use http_syncer.Path.{clean, join_path, abs, rel}
use http_syncer.Lock.{TimeText, is_locked}
use http_syncer.Filter.{Engine, Excluder, new_excluder}
use http_syncer.Snapshot.{
  Snapshot, Indexed, indexed, failed, IndexError, unknown_module, not_ready, scan_error,
  build_snapshot,
}
use http_syncer.Server.{
  Module, Service, Session, active, Request, Answer, ready, authorize_module, module_for_snapshot,
  log_event, post, lock_path,
}
use http_syncer.Server.SessionApi.{
  CreateBody, CreateEnv, session_id, snapshot_name, expire, cleanup_expired, register, after_index,
  index_failure, after_excluder, create_unlocked, after_query, create_for, create_decoded,
  create_body, handle_session_create, stays_inside,
}
use http_syncer.Server.Registry.{
  expire-IsConsistent, Named, IsConsistent, Sound, insert-IsConsistent, snapshot_name-eq,
}
use http_syncer.Server.Expiry.{erase_tests, met-none, too_old, met, lookup-expire}

-- The module of a session's snapshot is the session's.
pub Named-module :
    (sid : Text) (sess : Session) (m : Dict Session)
    → All Named m
    → lookup sid m ≡ some sess
    → module_for_snapshot (snapshot_name sid) m ≡ some sess.module_name
unfolding module_for_snapshot lookup
Named-module sid sess [] h found = absurd (cc)
Named-module sid sess ((id, x) ∷ m) h found = elim (Bool-cases (id == sid)) [
  | inl same ↦
      let is_sess : some x ≡ some sess = rw same at found in
      rw (h.0, snapshot_name-eq, same)
        (ap some (ap (λ (y : Session). y.module_name) (some_eq x sess is_sess)))
  | inr other ↦ rw (h.0, snapshot_name-eq, other) (Named-module sid sess m h.1 (rw other at found))
]
  where
    some_eq : (a b : Session) → some a ≡ some b → a ≡ b
    some_eq a b e = cc

-- A snapshot goes with its session.
lookup-expire_snapshot :
    (now ttl : ℤ) (sid : Text) (rest : Dict Session) (tables : Dict Session × Dict Snapshot)
    → All Named rest
    → lookup (snapshot_name sid) (expire now ttl rest tables).1
      ≡ (if met now ttl sid rest then none else lookup (snapshot_name sid) tables.1)
unfolding expire
lookup-expire_snapshot now ttl sid [] tables h = refl
lookup-expire_snapshot now ttl sid ((key, sess) ∷ rest) (sessions, snapshots) h =
    lookup-expire_snapshot now ttl sid rest _ h.1
    ∙ ap (λ o. if met now ttl sid rest then none else o)
        (choice (too_old now ttl sess) (erase key sessions, erase sess.snapshot_id snapshots)
            (sessions, snapshots)
          ∙ ap (λ o. if too_old now ttl sess then o else lookup (snapshot_name sid) snapshots)
              (lookup-erase sess.snapshot_id (snapshot_name sid) snapshots
                ∙ rw (h.0, snapshot_name-eq) refl))
    ∙ erase_tests (key == sid) (too_old now ttl sess) (met now ttl sid rest)
        (lookup (snapshot_name sid) snapshots)
  where
    choice :
        (old : Bool) (a b : Dict Session × Dict Snapshot)
        → lookup (snapshot_name sid) (if old then a else b).1
          ≡ (if old then lookup (snapshot_name sid) a.1 else lookup (snapshot_name sid) b.1)
    choice true a b = refl
    choice false a b = refl

met_young :
    (now ttl : ℤ) (id : Text) (sess : Session) (m : Dict Session)
    → Distinct m
    → lookup id m ≡ some sess
    → too_old now ttl sess ≡ false
    → met now ttl id m ≡ false
unfolding lookup
met_young now ttl id sess [] d found young = refl
met_young now ttl id sess (slot ∷ m) d found young = elim (Bool-cases (slot.0 == id)) [
  | inl same ↦
      let is_sess : some slot.1 ≡ some sess = rw same at found in
      let fresh : too_old now ttl slot.1 ≡ false = cc (is_sess, young) in
      rw (same, fresh)
        (met-none now ttl id m (ap (λ k. lookup k m) (sym (==→≡ slot.0 id same)) ∙ d.0))
  | inr other ↦ rw other (met_young now ttl id sess m d.1 (rw other at found) young)
]

module _ (tf : TimeText) (engine : Engine) (env : CreateEnv) (r : Request) (body : CreateBody) where
  abbrev pub created_session : Text → Session
  created_session source_path = record {
    id = session_id tf engine env r body;
    snapshot_id = snapshot_name (session_id tf engine env r body);
    module_name = body.module_name;
    source_path = source_path;
    created_at = env.created_at;
    client_id = body.client_id;
    status = active;
  }

  -- A session that is registered, and is not too old at once, is there with its snapshot.
  pub register_lem :
      (source_path : Text) (snap : Snapshot) (s : Service)
      → Sound s
      → too_old env.cleaned_at s.cfg.snapshot_ttl (created_session source_path) ≡ false
      → let s' = register tf engine env r body source_path snap s in
        let sid = session_id tf engine env r body in
        (lookup sid s'.sessions ≡ some (created_session source_path))
        × (module_for_snapshot (snapshot_name sid) s'.sessions ≡ some body.module_name)
        × (lookup (snapshot_name sid) s'.snapshots ≡ some snap)
  unfolding register cleanup_expired
  register_lem source_path snap s h young =
      let sid = session_id tf engine env r body in
      let sessions = insert sid (created_session source_path) s.sessions in
      let snapshots = insert (snapshot_name sid) snap s.snapshots in
      let before : IsConsistent sessions snapshots =
        insert-IsConsistent sid (created_session source_path) snap s.sessions s.snapshots refl h in
      let there : lookup sid sessions ≡ some (created_session source_path) =
        lookup-insert sid sid (created_session source_path) s.sessions ∙ rw (==_refl sid) refl in
      let stays : met env.cleaned_at s.cfg.snapshot_ttl sid sessions ≡ false =
        met_young env.cleaned_at s.cfg.snapshot_ttl sid (created_session source_path) sessions
          before.distinct there young in
      let after = expire env.cleaned_at s.cfg.snapshot_ttl sessions (sessions, snapshots) in
      let found : lookup sid after.0 ≡ some (created_session source_path) =
        lookup-expire env.cleaned_at s.cfg.snapshot_ttl sid sessions (sessions, snapshots)
        ∙ ap (λ b. if b then none else lookup sid sessions) stays
        ∙ there in
      (
        found,
        Named-module sid (created_session source_path) after.0
            (expire-IsConsistent env.cleaned_at s.cfg.snapshot_ttl sessions (sessions, snapshots)
              before.named before).named
            found,
        lookup-expire_snapshot env.cleaned_at s.cfg.snapshot_ttl sid sessions (sessions, snapshots)
              before.named
            ∙ ap (λ b. if b then none else lookup (snapshot_name sid) snapshots) stays
            ∙ lookup-insert (snapshot_name sid) (snapshot_name sid) snap s.snapshots
            ∙ rw (==_refl (snapshot_name sid)) refl,
      )
