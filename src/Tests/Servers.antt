-- ===== src/Tests/Servers.antt =====
-- Requests to a concrete service.
use http_syncer.Base.{
  List, none, ◌≡◌, ◌≤◌, refl, ◌↔◌, none, true, false, suc, [], ◌∷◌, some, Text, text, ◌==◌,
  has_char, length, lookup, arith, after_prefix,
}
use http_syncer.Base.Int.{pos}
use http_syncer.Path.{slash}
use http_syncer.Snapshot.{Snapshot}
use http_syncer.Snapshot.{ModuleIndex}
use http_syncer.Server.{
  Module, Config, Session, active, Service, Request, authorize_module, token_from_header,
  module_for_snapshot, post,
}
use http_syncer.Server.ManifestApi.{handle_manifest}
use http_syncer.Server.Calls.{Endpoint, unlock, create, commit, serve, serve_all}
use http_syncer.Server.SessionApi.{CreateBody, CreateEnv}
use http_syncer.Server.Registry.{is_some}
use http_syncer.Server.Upkeep.{serve_all-paired}
use http_syncer.Server.Authorization.{HasToken, authorize_module_iff, serve-unauthorized}
use http_syncer.Client.{add_all, fetch_manifest, manifest_request, read_page}
use http_syncer.Client.Manifest.{fetch_manifest-handle_manifest}
use http_syncer.Tests.Filters.{anchored}
use http_syncer.Tests.Locks.{stamps, m0, at_time}
use http_syncer.Tests.Snapshots.{plain_file, index_data}

abbrev core_module : Module
core_module = record { name = text "core"; root_dir = text "/srv"; tokens = (text "t1", tt) ∷ [] }

abbrev config : Config
config = record {
  modules = (text "core", core_module) ∷ [];
  page_size = 2;
  lock_ttl = pos 60;
  snapshot_ttl = pos 3600;
}

abbrev stored : Snapshot
stored = record {
  id = text "snap_1";
  source_dir = text "/srv";
  entries =
      plain_file (text "a") (text "s1")
      ∷ plain_file (text "b") (text "s2")
      ∷ plain_file (text "c") (text "s3")
      ∷ [];
  by_path = [];
  by_checksum = [];
  created_at = pos 5;
}

abbrev pub session : Session
session = record {
  id = text "1";
  snapshot_id = text "snap_1";
  module_name = text "core";
  source_path = text ".";
  created_at = pos 5;
  client_id = text "c1";
  status = active;
}

abbrev pub service : Service
service = record {
  cfg = config;
  locks = m0;
  audit = [];
  indexes = [];
  snapshots = (text "snap_1", stored) ∷ [];
  sessions = (text "1", session) ∷ [];
}

abbrev pub address : Text
address = text "10.0.0.1"

abbrev first_request : Request
first_request = manifest_request (text "t1") address (text "snap_1") 0 []

accepted : authorize_module config first_request (text "core") ≡ true
unfolding authorize_module token_from_header manifest_request after_prefix lookup ◌==◌
accepted = refl

session_known : module_for_snapshot (text "snap_1") service.sessions ≡ some (text "core")
unfolding module_for_snapshot ◌==◌
session_known = refl

snapshot_kept : lookup (text "snap_1") service.snapshots ≡ some stored
unfolding lookup ◌==◌
snapshot_kept = refl

plain_id : has_char slash (text "snap_1") ≡ false
unfolding has_char
plain_id = refl

fetch_manifest-handle_manifest_example :
    fetch_manifest
      (suc (length stored.entries))
      (λ cursor.
        read_page
          (handle_manifest (manifest_request (text "t1") address (text "snap_1") 0 cursor) service))
      []
      []
    ≡ some (add_all stored.entries [])
fetch_manifest-handle_manifest_example =
    fetch_manifest-handle_manifest (text "t1") address (text "snap_1") 0 service (text "core")
      stored plain_id session_known accepted snapshot_kept (ground arith) (ground arith)

authorize_module_iff_example :
    (authorize_module config first_request (text "core") ≡ true)
    ↔ HasToken config first_request (text "core")
authorize_module_iff_example = authorize_module_iff config first_request (text "core")

abbrev foreign_request : Request
foreign_request = record {
  method = post;
  path = text "/v1/unlock";
  query = [];
  authorization = text "Bearer t2";
  client_ip = address;
}

abbrev unlock_core : Endpoint
unlock_core = unlock true (some (record { module_name = text "core"; owner = text "up" }))

core_refused : authorize_module config foreign_request (text "core") ≡ false
unfolding authorize_module token_from_header after_prefix lookup ◌==◌
core_refused = refl

not_accepted :
    (name : Text)
    → some (text "core") ≡ some name
    → authorize_module config foreign_request name ≡ false
not_accepted name e = cc (e, core_refused)

serve-unauthorized_example :
    ((serve stamps anchored unlock_core foreign_request service).0 ≡ service)
    × (400 ≤ (serve stamps anchored unlock_core foreign_request service).1.code)
serve-unauthorized_example =
    serve-unauthorized stamps anchored foreign_request service unlock_core (λ e. cc) not_accepted

abbrev core_index : ModuleIndex
core_index = record {
  name = text "core";
  root_dir = text "/srv";
  index = some index_data;
  last_err = none;
}

abbrev pub create_request : Request
create_request = record {
  method = post;
  path = text "/v1/sessions";
  query = [];
  authorization = text "Bearer t1";
  client_ip = address;
}

abbrev commit_request : Request
commit_request = record create_request { path = text "/v1/sessions/1z/commit" }

abbrev pub empty_service : Service
empty_service = record {
  cfg = config;
  locks = m0;
  audit = [];
  indexes = (text "core", core_index) ∷ [];
  snapshots = [];
  sessions = [];
}

abbrev pub create_env : CreateEnv
create_env = record {
  lock_env = at_time (pos 10);
  nano = 71;
  built_at = pos 10;
  created_at = pos 10;
  cleaned_at = pos 11;
  cwd = text "/";
  exists = λ p. true;
}

abbrev pub create_core : CreateBody
create_core = record {
  module_name = text "core";
  source_path = text "docs";
  exclude_globs = [];
  exclude_regex = [];
  client_id = text "c1";
  requested_page = 0;
}

abbrev requests : List (Endpoint × Request)
requests =
    (create create_env (some create_core), create_request)
    ∷ (commit true, commit_request)
    ∷ (unlock_core, foreign_request)
    ∷ []

serve_all-paired_example :
    let s' = serve_all stamps anchored requests empty_service in
    is_some (lookup (text "snap_1z") s'.snapshots)
    ≡ is_some (module_for_snapshot (text "snap_1z") s'.sessions)
serve_all-paired_example =
    serve_all-paired stamps anchored requests empty_service (text "snap_1z") refl refl
