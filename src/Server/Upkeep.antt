-- ===== src/Server/Upkeep.antt =====
-- Whatever requests are served, each session has its snapshot and each snapshot its session.
use http_syncer.Base.{
  ℕ, subst, ◌≡◌, refl, sym, ap, ◌∙◌, Bool, Bool-cases, Option-cases, inl, inr, List, [], ◌∷◌,
  Option, none, some, Text, text, ◌==◌, ==→≡, Dict, lookup, All, split, arith,
}
use http_syncer.Base.Numbers.{format_int}
use http_syncer.Path.{slash, clean}
use http_syncer.Lock.{
  TimeText, Env, Acquired, acquired, locked_by, write_error, try_acquire, is_locked,
}
use http_syncer.Filter.{Engine, Excluder, new_excluder}
use http_syncer.Snapshot.{Snapshot, Indexed, indexed, failed}
use http_syncer.Server.{
  Module, Session, Service, Request, Answer, module_for_snapshot, log_event, lock_path, get_param,
}
use http_syncer.Server.LockApi.{
  LockBody, UnlockBody, lock_time, handle_lock, handle_unlock, lock_decoded, unlock_decoded,
  acquire_lock, after_try, release_lock,
}
use http_syncer.Server.SessionApi.{
  fourth_part, CreateBody, CreateEnv, snapshot_name, register, after_index, after_excluder,
  create_unlocked, after_query, create_for, handle_session_create, create_body, create_decoded,
  handle_session_commit, commit_id, commit_found, commit_session,
}
use http_syncer.Server.Calls.{
  Endpoint, health, wait, lock, unlock, create, commit, manifest, object, serve, serve_all,
  open_wait, upgrade,
}
use http_syncer.Server.Registry.{
  is_some, Named, IsConsistent, nothing-IsConsistent, Sound, cleanup_expired-Sound,
  insert-IsConsistent, mark-IsConsistent, snapshot_name-eq,
}

register-Sound :
    (tf : TimeText) (engine : Engine) (env : CreateEnv) (r : Request) (body : CreateBody)
    (source_path : Text) (snap : Snapshot) (s : Service)
    → Sound s
    → Sound (register tf engine env r body source_path snap s)
unfolding register
register-Sound tf engine env r body source_path snap s h =
    cleanup_expired-Sound env.cleaned_at _
      (insert-IsConsistent (format_int env.nano 36) _ snap s.sessions s.snapshots refl h)

abbrev Kept : Service → Service × Answer → Type 0
Kept s done = Sound s → Sound done.0

module _ (tf : TimeText) (engine : Engine) (env : CreateEnv) (r : Request) (body : CreateBody) where
  after_index-Kept :
      (source_path : Text) (found : Indexed Snapshot) (s : Service)
      → Kept s (after_index tf engine env r body source_path found s)
  unfolding after_index log_event
  after_index-Kept source_path (failed err) s h = h
  after_index-Kept source_path (indexed snap) s h =
      register-Sound tf engine env r body source_path snap s h

  after_excluder-Kept :
      (source_path : Text) (ex : Option (Excluder engine)) (s : Service)
      → Kept s (after_excluder tf engine env r body source_path ex s)
  unfolding after_excluder
  after_excluder-Kept source_path none s h = h
  after_excluder-Kept source_path (some ex) s h = after_index-Kept source_path _ s h

  create_unlocked-Kept :
      (root_dir : Text) (s : Service) → Kept s (create_unlocked tf engine env r body root_dir s)
  unfolding create_unlocked
  create_unlocked-Kept root_dir s h = ground (
    arith,
    h,
    after_excluder-Kept (clean body.source_path)
        (new_excluder engine body.exclude_globs body.exclude_regex) s h,
  )

  after_query-Kept :
      (root_dir : Text) (found : Option Text) (s : Service)
      → Kept s (after_query tf engine env r body root_dir found s)
  unfolding after_query log_event
  after_query-Kept root_dir none s h = create_unlocked-Kept root_dir s h
  after_query-Kept root_dir (some owner) s h = h

  create_for-Kept :
      (conf : Option Module) (s : Service) → Kept s (create_for tf engine env r body conf s)
  unfolding create_for
  create_for-Kept none s h = h
  create_for-Kept (some conf) s h =
      let asked = is_locked tf env.lock_env (lock_path body.module_name) s.locks in
      after_query-Kept conf.root_dir asked.1 (record s { locks = asked.0 }) h

  create_decoded-Kept : (s : Service) → Kept s (create_decoded tf engine env r body s)
  unfolding create_decoded
  create_decoded-Kept s h =
      ground (arith, h, create_for-Kept (lookup body.module_name s.cfg.modules) s h)

module _ (tf : TimeText) (engine : Engine) (r : Request) where
  create-Kept :
      (env : CreateEnv) (body : Option CreateBody) (s : Service)
      → Kept s (handle_session_create tf engine env r body s)
  unfolding handle_session_create create_body
  create-Kept env none s h = ground (arith, h)
  create-Kept env (some body) s h = ground (arith, h, create_decoded-Kept tf engine env r body s h)

  after_try-Kept :
      (env : Env) (body : LockBody) (s : Service) (outcome : Acquired)
      → Kept s (after_try tf env r body s outcome)
  unfolding after_try log_event
  after_try-Kept env body s acquired h = h
  after_try-Kept env body s (locked_by other) h = h
  after_try-Kept env body s write_error h = h

  acquire_lock-Kept :
      (env : Env) (body : LockBody) (s : Service) → Kept s (acquire_lock tf env r body s)
  unfolding acquire_lock
  acquire_lock-Kept env body s h =
      let tried =
        try_acquire tf env (lock_path body.module_name) body.owner
          (lock_time s.cfg.lock_ttl body.ttl_seconds) s.locks in
      after_try-Kept env body (record s { locks = tried.0 }) tried.1 h

  lock-Kept :
      (env : Env) (body : Option LockBody) (s : Service) → Kept s (handle_lock tf env r body s)
  unfolding handle_lock lock_decoded
  lock-Kept env none s h = ground (arith, h)
  lock-Kept env (some body) s h = ground (arith, h, acquire_lock-Kept env body s h)

  release_lock-Kept :
      (removes : Bool) (body : UnlockBody) (s : Service) → Kept s (release_lock removes r body s)
  unfolding release_lock log_event
  release_lock-Kept removes body s h = h

  unlock-Kept :
      (removes : Bool) (body : Option UnlockBody) (s : Service)
      → Kept s (handle_unlock removes r body s)
  unfolding handle_unlock unlock_decoded
  unlock-Kept removes none s h = ground (arith, h)
  unlock-Kept removes (some body) s h = ground (arith, h, release_lock-Kept removes body s h)

  commit_session-Kept :
      (body_read : Bool) (sid : Text) (sess : Session) (s : Service)
      → Kept s (commit_session r body_read sid sess s)
  unfolding commit_session log_event
  commit_session-Kept body_read sid sess s h =
      ground (arith, h, mark-IsConsistent sid (lookup sid s.sessions) s.sessions s.snapshots refl h)

  commit_found-Kept :
      (body_read : Bool) (sid : Text) (found : Option Session) (s : Service)
      → Kept s (commit_found r body_read sid found s)
  unfolding commit_found
  commit_found-Kept body_read sid none s h = h
  commit_found-Kept body_read sid (some sess) s h = commit_session-Kept body_read sid sess s h

  commit_id-Kept :
      (body_read : Bool) (id : Option Text) (s : Service) → Kept s (commit_id r body_read id s)
  unfolding commit_id
  commit_id-Kept body_read none s h = h
  commit_id-Kept body_read (some sid) s h =
      commit_found-Kept body_read sid (lookup sid s.sessions) s h

  commit-Kept : (body_read : Bool) (s : Service) → Kept s (handle_session_commit r body_read s)
  unfolding handle_session_commit
  commit-Kept body_read s h =
      ground (arith, h, commit_id-Kept body_read (fourth_part (split slash r.path)) s h)

  upgrade-Kept :
      (failure : Option ℕ) (name : Text) (s : Service) → Kept s (upgrade failure r name s)
  unfolding log_event
  upgrade-Kept none name s h = h
  upgrade-Kept (some code) name s h = h

  wait-Kept : (failure : Option ℕ) (s : Service) → Kept s (open_wait failure r s)
  unfolding open_wait
  wait-Kept failure s h = ground (arith, h, upgrade-Kept failure (get_param (text "module") r) s h)

  serve-Kept : (e : Endpoint) (s : Service) → Kept s (serve tf engine e r s)
  unfolding serve
  serve-Kept health s h = h
  serve-Kept (wait failure) s h = wait-Kept failure s h
  serve-Kept (lock env body) s h = lock-Kept env body s h
  serve-Kept (unlock removes body) s h = unlock-Kept removes body s h
  serve-Kept (create env body) s h = create-Kept env body s h
  serve-Kept (commit body_read) s h = commit-Kept body_read s h
  serve-Kept manifest s h = h
  serve-Kept (object opens) s h = h

-- Serving any sequence of requests keeps the tables of the sessions and of the snapshots together.
pub serve_all-Sound :
    (tf : TimeText) (engine : Engine) (calls : List (Endpoint × Request)) (s : Service)
    → Sound s
    → Sound (serve_all tf engine calls s)
unfolding serve_all
serve_all-Sound tf engine [] s h = h
serve_all-Sound tf engine ((e, r) ∷ rest) s h =
    serve_all-Sound tf engine rest (serve tf engine e r s).0 (serve-Kept tf engine r e s h)

-- The module of a named snapshot is known exactly if the session is.
Named-module :
    (sid : Text) (m : Dict Session)
    → All Named m
    → is_some (module_for_snapshot (snapshot_name sid) m) ≡ is_some (lookup sid m)
unfolding module_for_snapshot lookup
Named-module sid [] h = refl
Named-module sid ((id, sess) ∷ m) h = elim (Bool-cases (id == sid)) [
  | inl same ↦ rw (h.0, snapshot_name-eq, same) refl
  | inr other ↦ rw (h.0, snapshot_name-eq, other) (Named-module sid m h.1)
]

-- A snapshot whose module is known is named by a session.
known-Named :
    (id name : Text) (m : Dict Session)
    → All Named m
    → module_for_snapshot id m ≡ some name
    → (sid : Text) × (id ≡ snapshot_name sid)
unfolding module_for_snapshot
known-Named id name [] h e = absurd (cc)
known-Named id name ((key, sess) ∷ m) h e = elim (Bool-cases (sess.snapshot_id == id)) [
  | inl same ↦ (key, sym (==→≡ sess.snapshot_id id same) ∙ h.0)
  | inr other ↦ known-Named id name m h.1 (rw other at e)
]

named_paired :
    (s : Service) (id sid : Text)
    → Sound s
    → id ≡ snapshot_name sid
    → is_some (lookup id s.snapshots) ≡ is_some (module_for_snapshot id s.sessions)
named_paired s id sid h e =
    ap (λ k. is_some (lookup k s.snapshots)) e
    ∙ h.paired sid
    ∙ sym (Named-module sid s.sessions h.named)
    ∙ ap (λ k. is_some (module_for_snapshot k s.sessions)) (sym e)

Sound-reachable :
    (s : Service) (id : Text)
    → Sound s
    → is_some (lookup id s.snapshots) ≡ is_some (module_for_snapshot id s.sessions)
Sound-reachable s id h = elim (Option-cases (lookup id s.snapshots)) [
  | inr (snap, present) ↦
      let (sid, e) = h.owned id (λ missing. absurd (cc (missing, present))) in
      named_paired s id sid h e
  | inl missing ↦ elim (Option-cases (module_for_snapshot id s.sessions)) [
    | inl unknown ↦ ap is_some missing ∙ sym (ap is_some unknown)
    | inr (name, known) ↦
        let (sid, e) = known-Named id name s.sessions h.named known in named_paired s id sid h e
  ]
]

-- After any sequence of requests, successful or not, to a service that starts without sessions and
-- snapshots, exactly those snapshots are kept for which the module is found: every snapshot has a
-- session that names it, and every session's snapshot is there.
pub serve_all-paired :
    (tf : TimeText) (engine : Engine) (calls : List (Endpoint × Request)) (s : Service) (id : Text)
    → s.sessions ≡ []
    → s.snapshots ≡ []
    → let s' = serve_all tf engine calls s in
      is_some (lookup id s'.snapshots) ≡ is_some (module_for_snapshot id s'.sessions)
serve_all-paired tf engine calls s id e f = Sound-reachable (serve_all tf engine calls s) id (
    serve_all-Sound tf engine calls s (
      subst (λ m. IsConsistent m s.snapshots) (sym e)
        (subst (IsConsistent []) (sym f) nothing-IsConsistent)))
