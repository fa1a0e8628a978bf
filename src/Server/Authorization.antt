-- ===== src/Server/Authorization.antt =====
-- Who may do what: without a token of the module that a request is about, nothing happens.
use http_syncer.Base.{
  ℕ, ◌≤◌, ◌≡◌, refl, ap, ◌∙◌, ◌↔◌, ◌≢◌, Bool, true, false, Bool-cases, inl, inr, [], ◌∷◌, ◌++◌,
  Option, none, some, Text, text, ◌==◌, if◌then◌else◌, after_prefix, after_prefix-append, split,
  Dict, lookup, arith,
}
use http_syncer.Path.{slash}
use http_syncer.Lock.{TimeText, Env}
use http_syncer.Filter.{Engine}
use http_syncer.Server.{
  Module, Config, Session, Service, Request, Answer, authorize_module, allows, allowed_by,
  token_from_header, module_for_snapshot, get_param,
}
use http_syncer.Server.LockApi.{
  LockBody, UnlockBody, handle_lock, handle_unlock, lock_decoded, unlock_decoded,
}
use http_syncer.Server.SessionApi.{
  CreateBody, CreateEnv, handle_session_create, create_body, create_decoded, handle_session_commit,
  commit_id, commit_found, commit_session, fourth_part,
}
use http_syncer.Server.ManifestApi.{handle_manifest, manifest_id, manifest_for}
use http_syncer.Server.ObjectApi.{handle_object, object_params, object_for}
use http_syncer.Server.Calls.{
  Endpoint, health, wait, lock, unlock, create, commit, manifest, object, serve, open_wait,
}

abbrev session_module : Option Session → Option Text
session_module none = none
session_module (some sess) = some sess.module_name

abbrev commit_module : Option Text → Dict Session → Option Text
commit_module none sessions = none
commit_module (some sid) sessions = session_module (lookup sid sessions)

abbrev manifest_module : Option Text → Dict Session → Option Text
manifest_module none sessions = none
manifest_module (some id) sessions = module_for_snapshot id sessions

-- The module that a request is about, if there is one: the query's, the body's, the session's or
-- the snapshot's.
abbrev pub concerns : Endpoint → Request → Service → Option Text
concerns health r s = none
concerns (wait failure) r s =
    let name = get_param (text "module") r in if name == [] then none else some name
concerns (lock env none) r s = none
concerns (lock env (some body)) r s = some body.module_name
concerns (unlock removes none) r s = none
concerns (unlock removes (some body)) r s = some body.module_name
concerns (create env none) r s = none
concerns (create env (some body)) r s = some body.module_name
concerns (commit body_read) r s = commit_module (fourth_part (split slash r.path)) s.sessions
concerns manifest r s = manifest_module (fourth_part (split slash r.path)) s.sessions
concerns (object opens) r s = module_for_snapshot (get_param (text "snapshot_id") r) s.sessions

abbrev Refused : Service → Service × Answer → Type 0
Refused s done = (done.0 ≡ s) × (400 ≤ done.1.code)

-- The module is configured, and the header carries one of its tokens.
pub record HasToken (cfg : Config) (r : Request) (name : Text) : Type 0 where
  pub conf : Module
  pub token : Text
  pub configured : lookup name cfg.modules ≡ some conf
  pub header : r.authorization ≡ text "Bearer " ++ token
  pub listed : lookup token conf.tokens ≢ none

after_prefix-eq : (s p t : Text) → after_prefix s p ≡ some t → s ≡ p ++ t
unfolding after_prefix
after_prefix-eq s [] t h = cc
after_prefix-eq [] (b ∷ p) t h = absurd (cc)
after_prefix-eq (a ∷ s) (b ∷ p) t h = ground (arith, after_prefix-eq s p t)

allows-listed :
    (conf : Module) (token : Text)
    → allows conf (some token) ≡ true
    → lookup token conf.tokens ≢ none
allows-listed conf token h e = ground arith

listed-allows :
    (conf : Module) (token : Text)
    → lookup token conf.tokens ≢ none
    → allows conf (some token) ≡ true
listed-allows conf token h = ground arith

allowed_by-HasToken :
    (cfg : Config) (r : Request) (name : Text) (found : Option Module) (given : Option Text)
    → lookup name cfg.modules ≡ found
    → token_from_header r ≡ given
    → allowed_by found given ≡ true
    → HasToken cfg r name
allowed_by-HasToken cfg r name none given e f h = absurd (cc)
allowed_by-HasToken cfg r name (some conf) none e f h = absurd (cc)
allowed_by-HasToken cfg r name (some conf) (some token) e f h = record {
  conf = conf;
  token = token;
  configured = e;
  header = after_prefix-eq r.authorization (text "Bearer ") token (unfold token_from_header in f);
  listed = allows-listed conf token h;
}

HasToken-allowed :
    (cfg : Config) (r : Request) (name : Text)
    → HasToken cfg r name
    → authorize_module cfg r name ≡ true
unfolding authorize_module token_from_header
HasToken-allowed cfg r name h =
    ap (λ found. allowed_by found (after_prefix r.authorization (text "Bearer "))) h.configured
    ∙ ap (λ given. allowed_by (some h.conf) given)
        (ap (λ line. after_prefix line (text "Bearer ")) h.header
          ∙ after_prefix-append (text "Bearer ") h.token)
    ∙ listed-allows h.conf h.token h.listed

-- A request is authorized for a module exactly if the module is configured and the header is
-- "Bearer " followed by one of the module's tokens.
pub authorize_module_iff :
    (cfg : Config) (r : Request) (name : Text)
    → (authorize_module cfg r name ≡ true) ↔ HasToken cfg r name
authorize_module_iff cfg r name = (
  λ h.
      allowed_by-HasToken cfg r name (lookup name cfg.modules) (token_from_header r) refl refl
        (unfold authorize_module in h),
  HasToken-allowed cfg r name,
)

module _ (tf : TimeText) (engine : Engine) (r : Request) (s : Service) where
  lock-Refused :
      (env : Env) (body : Option LockBody)
      → ((name : Text)
          → concerns (lock env body) r s ≡ some name
          → authorize_module s.cfg r name ≡ false)
      → Refused s (serve tf engine (lock env body) r s)
  unfolding serve handle_lock lock_decoded
  lock-Refused env none h = ground arith
  lock-Refused env (some body) h = ground (arith, h body.module_name refl)

  unlock-Refused :
      (removes : Bool) (body : Option UnlockBody)
      → ((name : Text)
          → concerns (unlock removes body) r s ≡ some name
          → authorize_module s.cfg r name ≡ false)
      → Refused s (serve tf engine (unlock removes body) r s)
  unfolding serve handle_unlock unlock_decoded
  unlock-Refused removes none h = ground arith
  unlock-Refused removes (some body) h = ground (arith, h body.module_name refl)

  create-Refused :
      (env : CreateEnv) (body : Option CreateBody)
      → ((name : Text)
          → concerns (create env body) r s ≡ some name
          → authorize_module s.cfg r name ≡ false)
      → Refused s (serve tf engine (create env body) r s)
  unfolding serve handle_session_create create_body create_decoded
  create-Refused env none h = ground arith
  create-Refused env (some body) h = ground (arith, h body.module_name refl)

  commit_found-Refused :
      (body_read : Bool) (sid : Text) (found : Option Session)
      → ((name : Text) → session_module found ≡ some name → authorize_module s.cfg r name ≡ false)
      → Refused s (commit_found r body_read sid found s)
  unfolding commit_found commit_session
  commit_found-Refused body_read sid none h = ground arith
  commit_found-Refused body_read sid (some sess) h = ground (arith, h sess.module_name refl)

  commit_id-Refused :
      (body_read : Bool) (id : Option Text)
      → ((name : Text)
          → commit_module id s.sessions ≡ some name
          → authorize_module s.cfg r name ≡ false)
      → Refused s (commit_id r body_read id s)
  unfolding commit_id
  commit_id-Refused body_read none h = ground arith
  commit_id-Refused body_read (some sid) h =
      commit_found-Refused body_read sid (lookup sid s.sessions) h

  manifest_for-Refused :
      (id : Text) (found : Option Text)
      → ((name : Text) → found ≡ some name → authorize_module s.cfg r name ≡ false)
      → 400 ≤ (manifest_for r id found s).code
  unfolding manifest_for
  manifest_for-Refused id none h = ground arith
  manifest_for-Refused id (some name) h = ground (arith, h name refl)

  manifest_id-Refused :
      (id : Option Text)
      → ((name : Text)
          → manifest_module id s.sessions ≡ some name
          → authorize_module s.cfg r name ≡ false)
      → 400 ≤ (manifest_id r id s).code
  unfolding manifest_id
  manifest_id-Refused none h = ground arith
  manifest_id-Refused (some id) h = manifest_for-Refused id (module_for_snapshot id s.sessions) h

  object_for-Refused :
      (opens : Text → Bool) (id p checksum : Text) (found : Option Text)
      → ((name : Text) → found ≡ some name → authorize_module s.cfg r name ≡ false)
      → 400 ≤ (object_for opens r id p checksum found s).code
  unfolding object_for
  object_for-Refused opens id p checksum none h = ground arith
  object_for-Refused opens id p checksum (some name) h = ground (arith, h name refl)

  wait-Refused :
      (failure : Option ℕ)
      → ((name : Text)
          → concerns (wait failure) r s ≡ some name
          → authorize_module s.cfg r name ≡ false)
      → Refused s (serve tf engine (wait failure) r s)
  unfolding serve open_wait
  wait-Refused failure h =
      let name = get_param (text "module") r in
      elim (Bool-cases (name == [])) [
        | inl missing ↦ ground (arith, missing)
        | inr given ↦ ground (arith, given, h name (rw given refl))
      ]

  -- A request, other than one for `/healthz`, that is not authorized for the module it is about, or that
  -- is about none, leaves the whole service as it is, locks, sessions, snapshots and audit log, and is
  -- answered with an error code.
  pub serve-unauthorized :
      (e : Endpoint)
      → e ≢ health
      → ((name : Text) → concerns e r s ≡ some name → authorize_module s.cfg r name ≡ false)
      → ((serve tf engine e r s).0 ≡ s) × (400 ≤ (serve tf engine e r s).1.code)
  serve-unauthorized health guarded h = absurd (guarded refl)
  serve-unauthorized (wait failure) guarded h = wait-Refused failure h
  serve-unauthorized (lock env body) guarded h = lock-Refused env body h
  serve-unauthorized (unlock removes body) guarded h = unlock-Refused removes body h
  serve-unauthorized (create env body) guarded h = create-Refused env body h
  serve-unauthorized (commit body_read) guarded h =
      (unfold serve handle_session_commit in
        ground (arith, commit_id-Refused body_read (fourth_part (split slash r.path)) h))
  serve-unauthorized manifest guarded h =
      (unfold serve handle_manifest in
        (refl, ground (arith, manifest_id-Refused (fourth_part (split slash r.path)) h)))
  serve-unauthorized (object opens) guarded h =
      (unfold serve handle_object object_params in
        (
          refl,
          ground (
            arith,
            object_for-Refused opens (get_param (text "snapshot_id") r) (get_param (text "path") r)
                (get_param (text "checksum") r)
                (module_for_snapshot (get_param (text "snapshot_id") r) s.sessions) h,
          ),
        ))
