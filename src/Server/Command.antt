-- ===== src/Server/Command.antt =====
-- cmd/sync-server/main.go, up to the service that it serves.
use http_syncer.Base.{
  ◌≡◌, refl, sym, ap, subst, ◌↔◌, ◌<◌, Bool, true, List, [], ◌∷◌, ◌++◌, Option, none, some, Text,
  text, Dict, if◌then◌else◌,
}
use http_syncer.Base.Int.{ℤ, pos, ltb_ℤ}
use http_syncer.Lock.{DirEntry}
use http_syncer.Walk.{Outcome, ok, Node}
use http_syncer.Snapshot.Scan.{new_indexer}
use http_syncer.Server.{Service, Request, authorize_module}
use http_syncer.Server.Loading.{FileConfig, Settings, load_file_config}
use http_syncer.Server.Loading.Sound.{
  ListsToken, authorize_module-load_file_config, new_service-starts,
}
use http_syncer.Server.Proxies.{Netip}
use http_syncer.Server.Start.{new_service, handler_config, with_defaults}

-- The flags that override the configuration.
pub record Flags : Type 0 where
  pub listen_addr : Text
  pub listen_port : ℤ
  pub debug : Bool
  pub process_log : Text
  pub trusted_proxies : List Text

abbrev pub given_or : Text → Text → Text
given_or [] configured = configured
given_or (c ∷ t) configured = c ∷ t

abbrev pub list_or : List Text → List Text → List Text
list_or [] configured = configured
list_or (p ∷ ps) configured = p ∷ ps

unfoldable pub override : Flags → Settings → Settings
override flags cfg = record cfg {
  listen_addr = given_or flags.listen_addr cfg.listen_addr;
  listen_port = if ltb_ℤ (pos 0) flags.listen_port then flags.listen_port else cfg.listen_port;
  debug = if flags.debug then true else cfg.debug;
  process_log_path = given_or flags.process_log cfg.process_log_path;
  trusted_proxies = list_or flags.trusted_proxies cfg.trusted_proxies;
}

module _ (net : Netip) (made : Bool) (tree : Text → Outcome Node) (now : ℤ) (files : Dict DirEntry)
    (flags : Flags) where
  abbrev pub start_loaded : Option Settings → Option Service
  start_loaded none = none
  start_loaded (some cfg) = new_service net made tree now files (override flags cfg)

  -- The command up to the service: loading, the flags, `New`; `none` is any failure of these.
  unfoldable pub start_server : Text → (Text → Option ℤ) → FileConfig → Option Service
  start_server cwd parse fc = start_loaded (load_file_config cwd parse fc)

  started_inv :
      (o : Option Settings) (s : Service)
      → start_loaded o ≡ some s
      → (cfg : Settings) × (o ≡ some cfg)
        × (new_service net made tree now files (override flags cfg) ≡ some s)
  started_inv none s h = absurd (cc)
  started_inv (some cfg) s h = (cfg, refl, h)

  -- Whatever flags are given: a server that starts has built the index of each of its modules, has a
  -- positive page size, no session and no snapshot, and authorizes a request with the header "Bearer "
  -- and a token for a module exactly if a module of the configuration file has that name and lists that
  -- token, and the token is not blank.
  pub start_server-authorize_module :
      (cwd : Text) (parse : Text → Option ℤ) (fc : FileConfig) (s : Service)
      → start_server cwd parse fc ≡ some s
      → (new_indexer tree now s.cfg.modules ≡ ok s.indexes)
        × (0 < s.cfg.page_size)
        × (s.sessions ≡ [])
        × (s.snapshots ≡ [])
        × ((r : Request) (name token : Text)
            → r.authorization ≡ text "Bearer " ++ token
            → (authorize_module s.cfg r name ≡ true) ↔ ListsToken fc name token)
  unfolding start_server authorize_module override with_defaults
  start_server-authorize_module cwd parse fc s h =
      let (cfg, loaded, started) = started_inv (load_file_config cwd parse fc) s h in
      let (proxies, indexed, positive, same, no_sessions, no_snapshots) =
        new_service-starts net made tree now files (override flags cfg) s started in
      (
        indexed,
        positive,
        no_sessions,
        no_snapshots,
        λ r name token header.
            let modules : authorize_module s.cfg r name
                ≡ authorize_module (handler_config (with_defaults cfg)) r name =
              ap (λ mods. authorize_module (record s.cfg { modules = mods }) r name) same in
            subst (λ b. (b ≡ true) ↔ ListsToken fc name token) (sym modules)
              (authorize_module-load_file_config cwd parse fc cfg r name token loaded header),
      )
