-- ===== src/Server/Start.antt =====
-- `New` of internal/server/server.go.
use http_syncer.Base.{
  ℕ, ◌*◌, Bool, not, List, [], Option, none, some, Text, text, Dict, if◌then◌else◌,
}
use http_syncer.Base.Int.{ℤ, pos, negsuc}
use http_syncer.Lock.{new_manager, DirEntry}
use http_syncer.Walk.{Outcome, ok, err, Node}
use http_syncer.Snapshot.{ModuleIndex}
use http_syncer.Snapshot.Scan.{new_indexer}
use http_syncer.Server.{Config, Service}
use http_syncer.Server.Loading.{Settings, positive_or, text_or, minute, no_modules}
use http_syncer.Server.Proxies.{Netip, parse_trusted_proxies}

-- The defaults of `New`.
unfoldable pub with_defaults : Settings → Settings
with_defaults cfg = record cfg {
  page_size = positive_or 5000 cfg.page_size;
  lock_ttl = positive_or (10 * minute) cfg.lock_ttl;
  snapshot_ttl = positive_or (30 * minute) cfg.snapshot_ttl;
  audit_retention_days = positive_or 30 cfg.audit_retention_days;
  lock_dir = text_or (text ".sync-locks") cfg.lock_dir;
  listen_addr = text_or (text "0.0.0.0") cfg.listen_addr;
  listen_port = positive_or 8080 cfg.listen_port;
  process_log_path = text_or (text "./process.log") cfg.process_log_path;
  audit_dir = text_or (text "./audit") cfg.audit_dir;
}

-- A positive number as a natural one
abbrev pub magnitude : ℤ → ℕ
magnitude (pos n) = n
magnitude (negsuc n) = 0

-- What the handlers read of the settings.
abbrev pub handler_config : Settings → Config
handler_config cfg = record {
  modules = cfg.modules;
  page_size = magnitude cfg.page_size;
  lock_ttl = cfg.lock_ttl;
  snapshot_ttl = cfg.snapshot_ttl;
}

abbrev pub with_indexes : Settings → Dict DirEntry → Outcome (Dict ModuleIndex) → Option Service
with_indexes cfg files (err e) = none
with_indexes cfg files (ok indexes) = some (record {
  cfg = handler_config cfg;
  locks = new_manager files;
  audit = [];
  indexes = indexes;
  snapshots = [];
  sessions = [];
})

-- After the trusted proxies are parsed. They are not part of the service's state here, since a request
-- comes with the client's address.
abbrev pub with_trusted :
    (net : Netip) → Bool → Option Service → Option (List net.Prefix) → Option Service
with_trusted net made started none = none
with_trusted net made started (some trusted) = if not made then none else started

-- `New`: `made` tells whether the lock directory, the audit directory and the log can be made, and
-- `files` is what the lock directory holds.
unfoldable pub new_service :
    Netip → Bool → (Text → Outcome Node) → ℤ → Dict DirEntry → Settings → Option Service
new_service net made tree now files given =
    let cfg = with_defaults given in
    if no_modules cfg.modules
    then none
    else with_trusted net made (with_indexes cfg files (new_indexer tree now cfg.modules))
        (parse_trusted_proxies net cfg.trusted_proxies)
