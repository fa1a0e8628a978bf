-- ===== src/Server/SessionApi.antt =====
-- handleSessionCreate, handleSessionCommit and cleanupExpiredLocked of internal/server/server.go.
use http_syncer.Base.{
  ℕ, Bool, false, not, ◌||◌, List, [], ◌∷◌, ◌++◌, Option, none, some, Text, text, ◌==◌, trim_space,
  has_prefix, has_suffix, split, Dict, lookup, insert, erase, if◌then◌else◌,
}
use http_syncer.Base.Int.{ℤ, ◌-ℤ◌, ltb_ℤ}
use http_syncer.Base.Numbers.{format_int}
use http_syncer.Path.{clean, join_path, abs, rel, dotdot, slash}
use http_syncer.Filter.{Engine, Excluder, new_excluder}
use http_syncer.Lock.{TimeText, Env, is_locked}
use http_syncer.Snapshot.{
  Snapshot, Indexed, indexed, failed, IndexError, unknown_module, not_ready, scan_error,
  build_snapshot,
}
use http_syncer.Server.{
  Service, Session, active, committed, Module, Request, Answer, locked_session, ready, commit_ok,
  refuse, authorize_module, log_event, post, lock_path,
}

-- The body of a request, `common.SessionCreateRequest`.
pub record CreateBody : Type 0 where
  pub module_name : Text
  pub source_path : Text
  pub exclude_globs : List Text
  pub exclude_regex : List Text
  pub client_id : Text
  pub requested_page : ℕ

-- What the system says during the request: the clock in nanoseconds, the times of the later
-- readings, the working directory, and whether the source path exists.
pub record CreateEnv : Type 0 where
  pub lock_env : Env
  pub nano : ℕ
  pub built_at : ℤ
  pub created_at : ℤ
  pub cleaned_at : ℤ
  pub cwd : Text
  pub exists : Text → Bool

-- The loop of `cleanupExpiredLocked`, over the sessions.
unfoldable pub expire :
    ℤ → ℤ → Dict Session → Dict Session × Dict Snapshot → Dict Session × Dict Snapshot
expire now ttl [] tables = tables
expire now ttl ((id, sess) ∷ rest) (sessions, snapshots) = expire now ttl rest (
    if ltb_ℤ ttl (now -ℤ sess.created_at)
    then (erase id sessions, erase sess.snapshot_id snapshots)
    else (sessions, snapshots))

unfoldable pub cleanup_expired : ℤ → Service → Service
cleanup_expired now s =
    let (sessions, snapshots) =
      expire now s.cfg.snapshot_ttl s.sessions (s.sessions, s.snapshots) in
    record s { sessions = sessions; snapshots = snapshots }

-- The check that the source path does not leave the module.
unfoldable pub stays_inside : Text → Option Text → Bool
stays_inside root none = false
stays_inside root (some relative) = not (has_prefix relative dotdot)

abbrev pub snapshot_name : Text → Text
snapshot_name sid = text "snap_" ++ sid

-- The answer to an index that gives no snapshot.
abbrev pub index_failure : IndexError → Answer
index_failure unknown_module = refuse 500
index_failure not_ready = refuse 503
index_failure (scan_error err) = refuse 500

module _ (tf : TimeText) (engine : Engine) (env : CreateEnv) (r : Request) (body : CreateBody) where
  abbrev pub session_id : Text
  session_id = format_int env.nano 36

  unfoldable pub register : Text → Snapshot → Service → Service
  register source_path snap s =
      let sid = session_id in
      let sess : Session = record {
        id = sid;
        snapshot_id = snapshot_name sid;
        module_name = body.module_name;
        source_path = source_path;
        created_at = env.created_at;
        client_id = body.client_id;
        status = active;
      } in
      cleanup_expired env.cleaned_at (record s {
        snapshots = insert (snapshot_name sid) snap s.snapshots;
        sessions = insert sid sess s.sessions;
      })

  unfoldable pub after_index : Text → Indexed Snapshot → Service → Service × Answer
  after_index source_path (failed err) s = (s, index_failure err)
  after_index source_path (indexed snap) s = (
    log_event r (text "session_created") body.module_name session_id []
        (register source_path snap s),
    record {
      code = 200;
      payload =
          ready session_id (snapshot_name session_id)
            (text "/v1/snapshots/" ++ snapshot_name session_id ++ text "/manifest");
    },
  )

  unfoldable pub after_excluder : Text → Option (Excluder engine) → Service → Service × Answer
  after_excluder source_path none s = (s, refuse 400)
  after_excluder source_path (some ex) s =
      after_index source_path
        (build_snapshot engine ex s.indexes (snapshot_name session_id) body.module_name source_path
          env.built_at)
        s

  -- From the source path to the end, for an unlocked module.
  unfoldable pub create_unlocked : Text → Service → Service × Answer
  create_unlocked root_dir s =
      let source_path = clean body.source_path in
      let abs_src = abs env.cwd (join_path root_dir source_path) in
      if not (stays_inside root_dir (rel root_dir abs_src))
      then (s, refuse 400)
      else if not (env.exists abs_src)
      then (s, refuse 400)
      else after_excluder source_path (new_excluder engine body.exclude_globs body.exclude_regex) s

  unfoldable pub after_query : Text → Option Text → Service → Service × Answer
  after_query root_dir (some owner) s = (
    log_event r (text "session_locked") body.module_name [] owner s,
    record { code = 423; payload = locked_session owner },
  )
  after_query root_dir none s = create_unlocked root_dir s

  unfoldable pub create_for : Option Module → Service → Service × Answer
  create_for none s = (s, refuse 401)
  create_for (some conf) s =
      let (locks, found) = is_locked tf env.lock_env (lock_path body.module_name) s.locks in
      after_query conf.root_dir found (record s { locks = locks })

  unfoldable pub create_decoded : Service → Service × Answer
  create_decoded s =
      if trim_space body.module_name == []
      then (s, refuse 400)
      else if not (authorize_module s.cfg r body.module_name)
      then (s, refuse 401)
      else create_for (lookup body.module_name s.cfg.modules) s

module _ (tf : TimeText) (engine : Engine) (env : CreateEnv) (r : Request) where
  unfoldable pub create_body : Option CreateBody → Service → Service × Answer
  create_body none s = (s, refuse 400)
  create_body (some body) s = create_decoded tf engine env r body s

  -- `handleSessionCreate`
  unfoldable pub handle_session_create : Option CreateBody → Service → Service × Answer
  handle_session_create body s =
      if not (r.method == post) then (s, refuse 405) else create_body body s

-- The fourth part of a path, of five at least.
unfoldable pub fourth_part : List Text → Option Text
fourth_part (a ∷ b ∷ c ∷ id ∷ e ∷ rest) = some id
fourth_part _ = none

abbrev pub mark_committed : Text → Option Session → Dict Session → Dict Session
mark_committed sid none sessions = sessions
mark_committed sid (some sess) sessions = insert sid (record sess { status = committed }) sessions

module _ (r : Request) (body_read : Bool) where
  unfoldable pub commit_session : Text → Session → Service → Service × Answer
  commit_session sid sess s =
      if not (authorize_module s.cfg r sess.module_name)
      then (s, refuse 401)
      else if not body_read
      then (s, refuse 400)
      else (
        log_event r (text "session_committed") sess.module_name sid []
            (record s { sessions = mark_committed sid (lookup sid s.sessions) s.sessions }),
        record { code = 200; payload = commit_ok },
      )

  unfoldable pub commit_found : Text → Option Session → Service → Service × Answer
  commit_found sid none s = (s, refuse 404)
  commit_found sid (some sess) s = commit_session sid sess s

  unfoldable pub commit_id : Option Text → Service → Service × Answer
  commit_id none s = (s, refuse 404)
  commit_id (some sid) s = commit_found sid (lookup sid s.sessions) s

  -- `handleSessionCommit`; `body_read` tells whether reading the body succeeds
  unfoldable pub handle_session_commit : Service → Service × Answer
  handle_session_commit s =
      if not (r.method == post) || not (has_suffix r.path (text "/commit"))
      then (s, refuse 404)
      else commit_id (fourth_part (split slash r.path)) s
