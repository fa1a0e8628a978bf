-- ===== src/Server/Fresh/Answered.antt =====
-- What an answer with a new session comes with.
use http_syncer.Base.{
  ◌≡◌, refl, Bool-cases, inl, inr, [], ◌++◌, Option, none, some, Text, text, ◌==◌, trim_space,
  lookup, arith,
}
use http_syncer.Path.{clean, join_path, abs, rel}
use http_syncer.Lock.{TimeText, is_locked}
use http_syncer.Filter.{Engine, Excluder, new_excluder}
use http_syncer.Snapshot.{
  Snapshot, Indexed, indexed, failed, IndexError, unknown_module, not_ready, scan_error,
  build_snapshot,
}
use http_syncer.Server.{
  Module, Service, Request, Answer, ready, authorize_module, log_event, post, lock_path,
}
use http_syncer.Server.SessionApi.{
  CreateBody, CreateEnv, session_id, snapshot_name, register, after_index, index_failure,
  after_excluder, create_unlocked, after_query, create_for, create_decoded, create_body,
  handle_session_create, stays_inside,
}

module _ (tf : TimeText) (engine : Engine) (env : CreateEnv) (r : Request) (body : CreateBody) where
  -- What a successful answer comes with.
  pub record Created (s : Service) (done : Service × Answer) : Type 0 where
    pub ex : Excluder engine
    pub snap : Snapshot
    pub before : Service
    pub excluder : new_excluder engine body.exclude_globs body.exclude_regex ≡ some ex
    pub taken :
        build_snapshot engine ex s.indexes
          (snapshot_name (session_id tf engine env r body))
          body.module_name
          (clean body.source_path)
          env.built_at
        ≡ indexed snap
    pub same_cfg : before.cfg ≡ s.cfg
    pub same_sessions : before.sessions ≡ s.sessions
    pub same_snapshots : before.snapshots ≡ s.snapshots
    pub service :
        done.0
        ≡ log_event r
            (text "session_created")
            body.module_name
            (session_id tf engine env r body)
            []
            (register tf engine env r body (clean body.source_path) snap before)
    pub answer :
        done.1.payload
        ≡ ready
            (session_id tf engine env r body)
            (snapshot_name (session_id tf engine env r body))
            (text "/v1/snapshots/"
              ++ snapshot_name (session_id tf engine env r body)
              ++ text "/manifest")

  index_code : (e : IndexError) → (index_failure e).code ≡ 200 → ⊥
  index_code unknown_module h = absurd (omega (arith, h))
  index_code not_ready h = absurd (omega (arith, h))
  index_code (scan_error x) h = absurd (omega (arith, h))

  after_index-Created :
      (ex : Excluder engine) (found : Indexed Snapshot) (s : Service)
      → new_excluder engine body.exclude_globs body.exclude_regex ≡ some ex
      → build_snapshot engine ex s.indexes
          (snapshot_name (session_id tf engine env r body))
          body.module_name
          (clean body.source_path)
          env.built_at
        ≡ found
      → (after_index tf engine env r body (clean body.source_path) found s).1.code ≡ 200
      → Created s (after_index tf engine env r body (clean body.source_path) found s)
  unfolding after_index
  after_index-Created ex (failed x) s e f h = absurd (index_code x h)
  after_index-Created ex (indexed snap) s e f h = record {
    ex = ex;
    snap = snap;
    before = s;
    excluder = e;
    taken = f;
    same_cfg = refl;
    same_sessions = refl;
    same_snapshots = refl;
    service = refl;
    answer = refl;
  }

  excluder-Created :
      (found : Option (Excluder engine)) (s : Service)
      → new_excluder engine body.exclude_globs body.exclude_regex ≡ found
      → (after_excluder tf engine env r body (clean body.source_path) found s).1.code ≡ 200
      → Created s (after_excluder tf engine env r body (clean body.source_path) found s)
  unfolding after_excluder
  excluder-Created none s e h = absurd (omega (arith, h))
  excluder-Created (some ex) s e h = after_index-Created ex _ s e refl h

  unlocked-Created :
      (root_dir : Text) (s : Service)
      → (create_unlocked tf engine env r body root_dir s).1.code ≡ 200
      → Created s (create_unlocked tf engine env r body root_dir s)
  unfolding create_unlocked
  unlocked-Created root_dir s h =
      let abs_src = abs env.cwd (join_path root_dir (clean body.source_path)) in
      elim (Bool-cases (stays_inside root_dir (rel root_dir abs_src))) [
        | inr outside ↦ absurd (omega (arith, rw outside at h))
        | inl inside ↦ elim (Bool-cases (env.exists abs_src)) [
          | inr missing ↦ absurd (omega (arith, rw (inside, missing) at h))
          | inl there ↦
              rw (inside, there)
                (excluder-Created (new_excluder engine body.exclude_globs body.exclude_regex) s refl
                  (rw (inside, there) at h))
        ]
      ]

  query-Created :
      (root_dir : Text) (found : Option Text) (s : Service)
      → (after_query tf engine env r body root_dir found s).1.code ≡ 200
      → Created s (after_query tf engine env r body root_dir found s)
  unfolding after_query
  query-Created root_dir none s h = unlocked-Created root_dir s h
  query-Created root_dir (some owner) s h = absurd (omega (arith, h))

  for-Created :
      (conf : Option Module) (s : Service)
      → (create_for tf engine env r body conf s).1.code ≡ 200
      → Created s (create_for tf engine env r body conf s)
  unfolding create_for
  for-Created none s h = absurd (omega (arith, h))
  for-Created (some conf) s h =
      let asked = is_locked tf env.lock_env (lock_path body.module_name) s.locks in
      let c = query-Created conf.root_dir asked.1 (record s { locks = asked.0 }) h in
      record {
        ex = c.ex;
        snap = c.snap;
        before = c.before;
        excluder = c.excluder;
        taken = c.taken;
        same_cfg = c.same_cfg;
        same_sessions = c.same_sessions;
        same_snapshots = c.same_snapshots;
        service = c.service;
        answer = c.answer;
      }

  decoded-Created :
      (s : Service)
      → (create_decoded tf engine env r body s).1.code ≡ 200
      → Created s (create_decoded tf engine env r body s)
  unfolding create_decoded
  decoded-Created s h = elim (Bool-cases (trim_space body.module_name == [])) [
    | inl blank ↦ absurd (omega (arith, rw blank at h))
    | inr named ↦ elim (Bool-cases (authorize_module s.cfg r body.module_name)) [
      | inr foreign ↦ absurd (omega (arith, rw (named, foreign) at h))
      | inl a ↦
          rw (named, a) (for-Created (lookup body.module_name s.cfg.modules) s (rw (named, a) at h))
    ]
  ]

  pub handle_session_create-Created :
      (s : Service)
      → (handle_session_create tf engine env r (some body) s).1.code ≡ 200
      → Created s (handle_session_create tf engine env r (some body) s)
  unfolding handle_session_create create_body
  handle_session_create-Created s h = elim (Bool-cases (r.method == post)) [
    | inr other ↦ absurd (omega (arith, rw other at h))
    | inl p ↦ rw p (decoded-Created s (rw p at h))
  ]
