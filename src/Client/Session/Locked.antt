-- ===== src/Client/Session/Locked.antt =====
-- What the client makes of the server's answers to a request for a session.
use http_syncer.Base.{
  ◌≡◌, ◌≢◌, refl, sym, ap, subst, ◌↔◌, true, false, Bool-cases, Option-cases, inl, inr, [], Option,
  none, some, Text, ◌==◌, trim_space, lookup,
}
use http_syncer.Path.{clean, join_path, abs, rel}
use http_syncer.Lock.{TimeText, is_locked}
use http_syncer.Filter.{Engine, Excluder}
use http_syncer.Snapshot.{Snapshot, Indexed, indexed, failed, unknown_module, not_ready, scan_error}
use http_syncer.Server.{Module, Service, Request, Answer, authorize_module, post, lock_path}
use http_syncer.Server.Authorization.{authorize_module_iff}
use http_syncer.Server.SessionApi.{
  CreateBody, CreateEnv, stays_inside, after_index, after_excluder, create_unlocked, after_query,
  create_for, create_decoded, create_body, handle_session_create,
}
use http_syncer.Client.Session.{refused_lock, read_session}

module _ (tf : TimeText) (engine : Engine) (env : CreateEnv) (r : Request) (body : CreateBody) where
  abbrev ReadsLock : Service × Answer → Type 0
  ReadsLock done = read_session (some done.1) ≡ refused_lock

  index_free :
      (source_path : Text) (found : Indexed Snapshot) (s : Service)
      → ReadsLock (after_index tf engine env r body source_path found s)
      → ⊥
  unfolding after_index read_session
  index_free source_path (failed unknown_module) s h = cc
  index_free source_path (failed not_ready) s h = cc
  index_free source_path (failed (scan_error e)) s h = cc
  index_free source_path (indexed snap) s h = cc

  excluder_free :
      (source_path : Text) (ex : Option (Excluder engine)) (s : Service)
      → ReadsLock (after_excluder tf engine env r body source_path ex s)
      → ⊥
  unfolding after_excluder read_session
  excluder_free source_path none s h = cc
  excluder_free source_path (some ex) s h = index_free source_path _ s (unfold read_session in h)

  unlocked_free :
      (root_dir : Text) (s : Service)
      → ReadsLock (create_unlocked tf engine env r body root_dir s)
      → ⊥
  unfolding create_unlocked read_session
  unlocked_free root_dir s h =
      let abs_src = abs env.cwd (join_path root_dir (clean body.source_path)) in
      elim (Bool-cases (stays_inside root_dir (rel root_dir abs_src))) [
        | inr outside ↦ absurd (cc (rw outside at h))
        | inl inside ↦ elim (Bool-cases (env.exists abs_src)) [
          | inr missing ↦ absurd (cc (rw (inside, missing) at h))
          | inl there ↦ excluder_free (clean body.source_path) _ s (rw (inside, there) at h)
        ]
      ]

  query_lock :
      (root_dir : Text) (found : Option Text) (s : Service)
      → ReadsLock (after_query tf engine env r body root_dir found s)
      → found ≢ none
  unfolding after_query
  query_lock root_dir none s h e = unlocked_free root_dir s h
  query_lock root_dir (some owner) s h e = cc

  owned_lock :
      (root_dir : Text) (found : Option Text) (s : Service) (owner : Text)
      → found ≡ some owner
      → ReadsLock (after_query tf engine env r body root_dir found s)
  unfolding after_query read_session
  owned_lock root_dir none s owner e = absurd (cc)
  owned_lock root_dir (some o) s owner e = refl

  -- A request that passes the first checks comes to the lock.
  reached :
      (s : Service) (conf : Module)
      → (r.method == post) ≡ true
      → (trim_space body.module_name == []) ≡ false
      → authorize_module s.cfg r body.module_name ≡ true
      → lookup body.module_name s.cfg.modules ≡ some conf
      → let asked = is_locked tf env.lock_env (lock_path body.module_name) s.locks in
        handle_session_create tf engine env r (some body) s
        ≡ after_query tf engine env r body conf.root_dir asked.1 (record s { locks = asked.0 })
  unfolding handle_session_create create_body create_decoded create_for
  reached s conf p named a configured =
      rw (p, named, a) (ap (λ o. create_for tf engine env r body o s) configured)

  wrong_method :
      (s : Service)
      → (r.method == post) ≡ false
      → ReadsLock (handle_session_create tf engine env r (some body) s)
      → ⊥
  unfolding handle_session_create read_session
  wrong_method s other h = cc (rw other at h)

  wrong_name :
      (s : Service)
      → (r.method == post) ≡ true
      → (trim_space body.module_name == []) ≡ true
      → ReadsLock (handle_session_create tf engine env r (some body) s)
      → ⊥
  unfolding handle_session_create create_body create_decoded read_session
  wrong_name s p blank h = cc (rw (p, blank) at h)

  wrong_token :
      (s : Service)
      → (r.method == post) ≡ true
      → (trim_space body.module_name == []) ≡ false
      → authorize_module s.cfg r body.module_name ≡ false
      → ReadsLock (handle_session_create tf engine env r (some body) s)
      → ⊥
  unfolding handle_session_create create_body create_decoded read_session
  wrong_token s p named foreign h = cc (rw (p, named, foreign) at h)

  -- The client takes the answer for a refusal because of a lock exactly if the request is a POST with a
  -- module's name, authorized for that module, and the lock manager finds the module's path locked.
  pub read_session-handle_session_create :
      (s : Service)
      → ReadsLock (handle_session_create tf engine env r (some body) s) ↔ (
          ((r.method == post) ≡ true)
          × ((trim_space body.module_name == []) ≡ false)
          × (authorize_module s.cfg r body.module_name ≡ true)
          × ((is_locked tf env.lock_env (lock_path body.module_name) s.locks).1 ≢ none))
  read_session-handle_session_create s = (
    λ h. elim (Bool-cases (r.method == post)) [
      | inr other ↦ absurd (wrong_method s other h)
      | inl p ↦ elim (Bool-cases (trim_space body.module_name == [])) [
        | inl blank ↦ absurd (wrong_name s p blank h)
        | inr named ↦ elim (Bool-cases (authorize_module s.cfg r body.module_name)) [
          | inr foreign ↦ absurd (wrong_token s p named foreign h)
          | inl a ↦
              let x = (authorize_module_iff s.cfg r body.module_name).0 a in
              (
                p,
                named,
                a,
                λ free.
                    (query_lock x.conf.root_dir _ _
                        (subst ReadsLock (reached s x.conf p named a x.configured) h))
                      free,
              )
        ]
      ]
    ],
    λ (p, named, a, held).
        let x = (authorize_module_iff s.cfg r body.module_name).0 a in
        subst ReadsLock (sym (reached s x.conf p named a x.configured))
          (elim (Option-cases (is_locked tf env.lock_env (lock_path body.module_name) s.locks).1) [
            | inl free ↦ absurd (held free)
            | inr (owner, found) ↦ owned_lock x.conf.root_dir _ _ owner found
          ]),
  )
