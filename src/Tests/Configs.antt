-- ===== src/Tests/Configs.antt =====
-- Loading a concrete configuration, and starting with it.
use http_syncer.Base.{
  ◌≡◌, ◌<◌, refl, ◌↔◌, true, false, [], ◌∷◌, Option, some, none, Text, ◌++◌, has_char, text, ◌==◌,
  text_lt, trim_space, trim_left, is_space, lookup, insert, has_prefix, split,
}
use http_syncer.Base.Int.{ℤ, pos, ltb_ℤ}
use http_syncer.Path.{clean, join_path, abs, rel, rel_parts, components, render, is_abs, ups}
use http_syncer.Lock.{new_manager}
use http_syncer.Walk.{ok, walk_root, walk_node, below}
use http_syncer.Snapshot.{sort_by}
use http_syncer.Snapshot.Sort.{insert_by}
use http_syncer.Snapshot.Scan.{new_indexer, rebuild, scan_module, scan_visit}
use http_syncer.Server.{Module, Service, authorize_module, Request}
use http_syncer.Server.SessionApi.{stays_inside}
use http_syncer.Server.Loading.{
  ModuleYaml, FileConfig, Settings, add_tokens, module_root, load_module, load_modules,
  load_file_config, duration_of, positive_or, text_or, no_modules,
}
use http_syncer.Server.Start.{with_defaults, handler_config, new_service}
use http_syncer.Server.Command.{Flags, override, start_server, start_server-authorize_module}
use http_syncer.Server.Proxies.{parse_proxy, parse_trusted_proxies}
use http_syncer.Tests.Proxies.{net}
use http_syncer.Server.Loading.Modules.{Loads}
use http_syncer.Server.Loading.Sound.{
  ListsToken, load_file_config-IsProper, authorize_module-load_file_config,
}
use http_syncer.Tests.Scans.{tree, core_index}
use http_syncer.Tests.Servers.{create_request}

abbrev core_yaml : ModuleYaml
core_yaml = record { name = text "core"; root = text "core"; tokens = text "t1" ∷ text " " ∷ [] }

abbrev file_config : FileConfig
file_config = record {
  root_dir = text "/srv";
  listen_addr = [];
  listen_port = pos 0;
  debug = false;
  process_log = [];
  trusted_proxies = [];
  lock_dir = [];
  audit_dir = [];
  audit_retention_days = pos 0;
  page_size = pos 0;
  lock_ttl = [];
  snapshot_ttl = [];
  modules = core_yaml ∷ [];
}

abbrev no_duration : Text → Option ℤ
no_duration t = none

abbrev core_conf : Module
core_conf = record {
  name = text "core";
  root_dir = text "/srv/core";
  tokens = (text "t1", tt) ∷ [];
}

abbrev settings : Settings
settings = record {
  root_dir = text "/srv";
  listen_addr = text "0.0.0.0";
  listen_port = pos 8080;
  debug = false;
  process_log_path = text "./process.log";
  trusted_proxies = [];
  lock_dir = text ".sync-locks";
  lock_ttl = pos 600000000000;
  page_size = pos 5000;
  snapshot_ttl = pos 1800000000000;
  modules = (text "core", core_conf) ∷ [];
  audit_dir = text "./audit";
  audit_retention_days = pos 30;
}

loaded : load_file_config (text "/") no_duration file_config ≡ some settings
unfolding load_file_config load_modules load_module module_root add_tokens duration_of positive_or
    text_or trim_space trim_left is_space ◌==◌ lookup insert clean join_path abs rel rel_parts
    components render is_abs ups has_prefix split stays_inside
loaded = refl

load_file_config-IsProper_example :
    (no_modules settings.modules ≡ false)
    × (ltb_ℤ (pos 0) settings.listen_port ≡ true)
    × (ltb_ℤ (pos 0) settings.page_size ≡ true)
    × (ltb_ℤ (pos 0) settings.audit_retention_days ≡ true)
    × ((name : Text) (conf : Module)
        → lookup name settings.modules ≡ some conf
        → Loads (text "/") settings.root_dir file_config.modules name conf)
load_file_config-IsProper_example =
    load_file_config-IsProper (text "/") no_duration file_config settings loaded

authorize_module-load_file_config_example :
    (authorize_module (handler_config (with_defaults settings)) create_request (text "core") ≡ true)
    ↔ ListsToken file_config (text "core") (text "t1")
authorize_module-load_file_config_example =
    authorize_module-load_file_config (text "/") no_duration file_config settings create_request
      (text "core") (text "t1") loaded refl

abbrev service : Service
service = record {
  cfg = handler_config settings;
  locks = record { mem = []; files = [] };
  audit = [];
  indexes = (text "core", record core_index { root_dir = text "/srv/core" }) ∷ [];
  snapshots = [];
  sessions = [];
}

started : new_service net true tree (pos 5) [] settings ≡ some service
unfolding new_service parse_trusted_proxies with_defaults positive_or text_or new_manager
    new_indexer rebuild scan_module scan_visit walk_root walk_node below insert ◌==◌ sort_by
    insert_by text_lt
started = refl

abbrev flags : Flags
flags = record {
  listen_addr = text "127.0.0.1";
  listen_port = pos 9090;
  debug = true;
  process_log = [];
  trusted_proxies = text "p" ∷ [];
}

command_started :
    start_server net true tree (pos 5) [] flags (text "/") no_duration file_config ≡ some service
unfolding start_server override new_service parse_trusted_proxies parse_proxy has_char with_defaults
    positive_or text_or new_manager new_indexer rebuild scan_module scan_visit walk_root walk_node
    below insert ◌==◌ sort_by insert_by text_lt load_file_config load_modules load_module
    module_root add_tokens duration_of trim_space trim_left is_space lookup clean join_path abs rel
    rel_parts components render is_abs ups has_prefix split stays_inside
command_started = refl

start_server-authorize_module_example :
    (new_indexer tree (pos 5) service.cfg.modules ≡ ok service.indexes)
    × (0 < service.cfg.page_size)
    × (service.sessions ≡ [])
    × (service.snapshots ≡ [])
    × ((r : Request) (name token : Text)
        → r.authorization ≡ text "Bearer " ++ token
        → (authorize_module service.cfg r name ≡ true) ↔ ListsToken file_config name token)
start_server-authorize_module_example =
    start_server-authorize_module net true tree (pos 5) [] flags (text "/") no_duration file_config
      service command_started
