-- ===== src/Server/Calls.antt =====
-- One request to the service, and a sequence of them, with the health check of
-- internal/server/server.go and the beginning of handleLockWaitWS. The environment's choices come with a
-- call.
use http_syncer.Base.{
  ℕ, Bool, not, List, [], ◌∷◌, Option, none, some, Text, text, ◌==◌, if◌then◌else◌,
}
use http_syncer.Lock.{TimeText, Env}
use http_syncer.Filter.{Engine}
use http_syncer.Server.{
  Service, Request, Answer, alive, empty, refuse, get, get_param, authorize_module, log_event,
}
use http_syncer.Server.LockApi.{LockBody, UnlockBody, handle_lock, handle_unlock}
use http_syncer.Server.SessionApi.{
  CreateBody, CreateEnv, handle_session_create, handle_session_commit,
}
use http_syncer.Server.ManifestApi.{handle_manifest}
use http_syncer.Server.ObjectApi.{handle_object}

-- `health`
abbrev pub healthy : Answer
healthy = record { code = 200; payload = alive }

-- An upgrade that fails with a code has been answered with it.
abbrev pub upgrade : Option ℕ → Request → Text → Service → Service × Answer
upgrade (some code) r name s = (s, refuse code)
upgrade none r name s =
    (log_event r (text "ws_wait_start") name [] [] s, record { code = 101; payload = empty })

-- What `handleLockWaitWS` does before its loop, which is in Server/WaitApi.
unfoldable pub open_wait : Option ℕ → Request → Service → Service × Answer
open_wait failure r s =
    let name = get_param (text "module") r in
    if not (r.method == get)
    then (s, refuse 405)
    else if name == []
    then (s, refuse 400)
    else if not (authorize_module s.cfg r name)
    then (s, refuse 401)
    else upgrade failure r name s

-- The handler that the request's path selects, with the decoded body.
pub data Endpoint : Type 0 where
  health : Endpoint
  wait : Option ℕ → Endpoint
  lock : Env → Option LockBody → Endpoint
  unlock : Bool → Option UnlockBody → Endpoint
  create : CreateEnv → Option CreateBody → Endpoint
  commit : Bool → Endpoint
  manifest : Endpoint
  object : (Text → Bool) → Endpoint

module _ (tf : TimeText) (engine : Engine) where
  unfoldable pub serve : Endpoint → Request → Service → Service × Answer
  serve health r s = (s, healthy)
  serve (wait failure) r s = open_wait failure r s
  serve (lock env body) r s = handle_lock tf env r body s
  serve (unlock removes body) r s = handle_unlock removes r body s
  serve (create env body) r s = handle_session_create tf engine env r body s
  serve (commit body_read) r s = handle_session_commit r body_read s
  serve manifest r s = (s, handle_manifest r s)
  serve (object opens) r s = (s, handle_object opens r s)

  unfoldable pub serve_all : List (Endpoint × Request) → Service → Service
  serve_all [] s = s
  serve_all ((e, r) ∷ rest) s = serve_all rest (serve e r s).0
