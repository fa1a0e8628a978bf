-- ===== src/Server.antt =====
-- internal/server/server.go: the service's state, its requests and answers, and who may do what.
-- Each handler is a function from the service to the service and the answer; the handlers and
-- their theorems are in the modules below. The text of an error is left out of an answer.
pub mod LockApi
pub mod SessionApi
pub mod ManifestApi
pub mod ObjectApi
pub mod Calls
pub mod Authorization
pub mod Registry
pub mod Upkeep
pub mod Objects
pub mod Admission
pub mod Expiry
pub mod Loading
pub mod Proxies
pub mod Start
pub mod Command
pub mod Fresh
pub mod WaitApi
pub mod Audit
use http_syncer.Base.{
  ℕ, ◌*◌, ◌+◌, ◌-◌, ◌%◌, ◌^◌, suc, Bool, true, false, List, [], ◌∷◌, ◌++◌, Option, none, some, Text,
  text, ◌==◌, after_prefix, Dict, lookup, insert, ltb, if◌then◌else◌,
}
use http_syncer.Base.Int.{ℤ, pos, negsuc}
use http_syncer.Lock.{Manager, TimeText, Env}
use http_syncer.Filter.{Engine}
use http_syncer.Snapshot.{ManifestEntry, Snapshot, ModuleIndex}

pub record Module : Type 0 where
  pub name : Text
  pub root_dir : Text
  pub tokens : Dict (Unit {0})

-- The fields of `Config` that the handlers read.
pub record Config : Type 0 where
  pub modules : Dict Module
  pub page_size : ℕ
  pub lock_ttl : ℤ
  pub snapshot_ttl : ℤ

pub data Status : Type 0 where
  active committed : Status

pub record Session : Type 0 where
  pub id : Text
  pub snapshot_id : Text
  pub module_name : Text
  pub source_path : Text
  pub created_at : ℤ
  pub client_id : Text
  pub status : Status

-- What `logEvent` hands to the audit log.
pub record Event : Type 0 where
  pub event : Text
  pub module_name : Text
  pub session_id : Text
  pub owner : Text
  pub client_ip : Text

pub record Service : Type 0 where
  pub cfg : Config
  pub locks : Manager
  pub audit : List Event
  pub indexes : Dict ModuleIndex
  pub snapshots : Dict Snapshot
  pub sessions : Dict Session

-- A request; `client_ip` is what `requestClientIP` makes of its addresses.
pub record Request : Type 0 where
  pub method : Text
  pub path : Text
  pub query : Dict Text
  pub authorization : Text
  pub client_ip : Text

pub data Payload : Type 0 where
  error_text empty alive : Payload
  locked_session : Text → Payload
  ready : Text → Text → Text → Payload
  page : Text → List ManifestEntry → Text → Payload
  content : Text → ManifestEntry → Payload
  commit_ok : Payload

pub record Answer : Type 0 where
  pub code : ℕ
  pub payload : Payload

abbrev pub refuse : ℕ → Answer
refuse code = record { code = code; payload = error_text }

-- r.URL.Query().Get(name)
unfoldable pub get_param : Text → Request → Text
get_param name r = elim (lookup name r.query) [ none ↦ [] | some v ↦ v ]

abbrev bearer : Text
bearer = text "Bearer "

-- `tokenFromHeader`; `none` is its error
unfoldable pub token_from_header : Request → Option Text
token_from_header r = after_prefix r.authorization bearer

abbrev pub allows : Module → Option Text → Bool
allows conf none = false
allows conf (some token) = elim (lookup token conf.tokens) [ none ↦ false | some u ↦ true ]

abbrev pub allowed_by : Option Module → Option Text → Bool
allowed_by none token = false
allowed_by (some conf) token = allows conf token

-- `authorizeModule`: whether it returns no error
unfoldable pub authorize_module : Config → Request → Text → Bool
authorize_module cfg r name = allowed_by (lookup name cfg.modules) (token_from_header r)

unfoldable pub log_event : Request → Text → Text → Text → Text → Service → Service
log_event r event name session_id owner s = record s {
  audit =
      s.audit
      ++ record {
        event = event;
        module_name = name;
        session_id = session_id;
        owner = owner;
        client_ip = r.client_ip;
      }
        ∷ [];
}

-- The loop of `moduleForSnapshot`; `none` is its error
unfoldable pub module_for_snapshot : Text → Dict Session → Option Text
module_for_snapshot snapshot_id [] = none
module_for_snapshot snapshot_id ((id, sess) ∷ sessions) =
    let rest = module_for_snapshot snapshot_id sessions in
    if sess.snapshot_id == snapshot_id then some sess.module_name else rest

abbrev pub post : Text
post = text "POST"

abbrev pub get : Text
get = text "GET"

abbrev pub lock_path : Text → Text
lock_path name = text "module:" ++ name
